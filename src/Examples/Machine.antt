-- ===== src/Examples/Machine.antt =====
-- runtime/engine/fsm: one run in which a plan is made, approved, executed and summarised.
use kugelblitz.Common.{
  ℕ, ◌==◌, String, true, false, none, some, List, [], ◌∷◌, ◌≡◌, ◌≢◌, ◌⊎◌, refl, trim_space,
  is_space, split_comma, if◌then◌else◌,
}
use kugelblitz.Constants.{RoleType, PlanState}
use kugelblitz.Working.Types.{Plan, Checkpoint, task_ids}
use kugelblitz.Working.Parents.{split_parent_ids}
use kugelblitz.Working.Store.{Store, empty_store, put_plan}
use kugelblitz.Message.{Message, text, text_content, tool_result_content}
use kugelblitz.Fsm.Context.{
  MachineConfig, AgentInput, Reply, rendered, Dependencies, Context, nil_plan,
  context_length_exceeded,
}
use kugelblitz.Fsm.Action.{handle_drift}
use kugelblitz.Fsm.State.{Executed, next, executed, execute}
use kugelblitz.Fsm.Machine.{finished, failed_with, run, start_context, is_terminal}
use kugelblitz.Fsm.Plan.{run-HasPlan}
use kugelblitz.Fsm.Finish.{Stored, run-finished}
use kugelblitz.Fsm.Recovery.{CanRollBack, RolledBack, handle_drift_lem}
use kugelblitz.Examples.Plans.{two_steps, good_disk, one_put}

abbrev config : MachineConfig
config = record {
  max_cycles = 9;
  compress_max_attempts = 2;
  keep_last_n = 4;
  min_messages_to_compress = 8;
  review_interval = 1;
  max_failures_before_review = 3;
  force_mode = "plan";
}

abbrev created_message : Message
created_message = record {
  id = "m";
  role = RoleType.tool;
  content = some (
      tool_result_content (
        record { tool_call_id = "c"; tool_name = "plan_create"; outputs = ("id", text "p") ∷ [] }
        ∷ []));
  finish_reason = "";
  usage = none;
}

abbrev approved : Store
approved =
    (put_plan good_disk (record two_steps { state = PlanState.doing; version = 2 })
      empty_store).store

-- The first call of the model creates the plan, the second approves it, and the third answers.
abbrev script : ℕ → Message → List Message → List String → Store → Reply
script n sys history tools s =
    if n == 1
    then record {
      messages = created_message ∷ [];
      error = none;
      store = one_put;
      history = history;
    }
    else if n == 3
    then record { messages = []; error = none; store = approved; history = history }
    else record { messages = []; error = none; store = s; history = history }

abbrev deps : Dependencies
deps = record {
  react = script;
  batch = λ n p s. record {
    events = [];
    result = record { batched = true; has_failed = false; all_done = true };
  };
  review = some (λ n goal summary activity. true);
  compress = λ n keep least history. [];
  config = config;
  disk = good_disk;
  range_order = λ n p. task_ids p.sub_tasks;
  custom_tool_names = [];
  load_agent_context = "";
  render_plan_prompt = λ p. rendered "plan";
  planner_prompt = λ state. state;
  new_message_id = λ n. "m";
  validate_text = λ e. "invalid";
  decimal = λ n. "n";
  quote = λ s. s;
  cut = λ n s. s;
}

abbrev input : AgentInput
input = record { text = "make a report"; media = [] }

good_run : (run deps input empty_store []).ending ≡ finished
unfolding run split_parent_ids trim_space is_space split_comma
good_run = refl

run-HasPlan_example : (run deps input empty_store []).ending ≢ failed_with nil_plan
run-HasPlan_example = run-HasPlan deps input empty_store []

run-finished_example :
    (is_terminal ((run deps input empty_store []).state) ≡ true)
    × Stored ((run deps input empty_store []).state) ((run deps input empty_store []).context)
run-finished_example = run-finished deps input empty_store [] good_run

-- The plan of the store is shown to the user, who approved it.
abbrev confirming : Context
confirming = record (start_context approved []) { plan = some two_steps; plan_id = "p"; clock = 3 }

abbrev outcome : Executed
outcome = elim (execute deps input PlanState.confirmed confirming) [
  | none ↦ executed (next PlanState.none) confirming
  | some x ↦ x
]

abbrev system_message : Message
system_message = record {
  id = "m";
  role = RoleType.system;
  content = some (text_content "hello");
  finish_reason = "";
  usage = none;
}

-- A model whose context is always too long.
abbrev overflowing : Dependencies
overflowing = record deps {
  react = λ n sys history tools s. record {
    messages = [];
    error = some context_length_exceeded;
    store = s;
    history = history;
  };
}

-- A plan of version 2 whose first version has a checkpoint.
abbrev drifting : Context
drifting = record (start_context one_put []) {
  plan = some (record two_steps { version = 2 });
  plan_id = "p";
}

handle_drift_lem_example :
    ((p : Plan) × (cp : Checkpoint) × CanRollBack drifting p cp
      × RolledBack drifting p cp (handle_drift deps "off topic" drifting))
    ⊎ (((p : Plan) (cp : Checkpoint) → ¬ CanRollBack drifting p cp)
        × (handle_drift deps "off topic" drifting ≡ drifting))
handle_drift_lem_example = handle_drift_lem deps "off topic" drifting
