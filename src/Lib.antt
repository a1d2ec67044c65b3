-- ===== src/Lib.antt =====
-- kugelblitz: a language-model agent that plans, executes and revises tasks. This library models
-- the part that decides what happens to a plan, from the user's input to the last task.
--
-- The parts, from the bottom:
--   Common      lists, texts (Go's strings package) and Boolean tests on the native numbers.
--   Constants   constants/enums.go.
--   Message     core/types/message.go: messages, and the search for the result of a tool call;
--     Json is their form in files.
--   Llm         llm/caller.go: the decoding of the model's answer to a single question.
--   Provider    provider/chat_completions/converter.go: the messages of a request,
--     and the provider's answers (Response).
--   Working     memory/working/working.go with persist/plan.go and persist/checkpoint.go.
--     Types and Parents are the data of a plan and its dependencies, Validate is Plan.Validate,
--     Ready is ReadyTasks, Store is the map of plans with the files below it (GetPlan, PutPlan,
--     LoadPlan, FindTask and the others), Skeleton is what a write to a task does not change.
--   Dag         runtime/engine/dag/dag.go: ExecuteBatch.
--   Fsm         runtime/engine/fsm: Context is context.go, Action is action.go with handleDrift,
--     State is state.go, Machine is machine.go.
--   React       runtime/engine/infra/react.go, the loop of the ReAct agent, with core/tool.go
--     (Registry) and pause_gate.go (Gate).
--   Longterm    memory/longterm: Facts is fact.go, Pipeline is conflict.go, dedup.go and the steps of
--     write/pipeline.go that use them, Graph is graph.go.
--   Session     memory/session_memory.go: the compression of the history, and the sessions in
--     memory and in files with persist/session.go (Saved).
--   Tools       tools/tool.go (Arguments) and tools/internals/plan.go (Plans).
--   Examples    runs at concrete inputs.
-- A module whose name says what it proves stands below the module that it is about.
--
-- How they interact: the machine (Fsm.Machine.run) executes the state's action, which calls the
-- model; the model's tool calls (Tools.Plans) read and write the store (Working.Store); a plan is
-- validated before it is confirmed (Working.Validate); a confirmed plan is handed to ExecuteBatch
-- (Dag), which asks for the ready tasks (Working.Ready), and whose failures may make the machine
-- roll the plan back (Fsm.Action.handle_drift). The calls of the model inside an action run in the
-- loop of React, which the machine sees as one reply; what is learnt from a conversation goes
-- through Longterm.Pipeline to the facts. The messages that the loop collects are sent with
-- Provider.convert_messages at each step.
--
-- How Go is read:
--   * A pointer to a plan is the plan with its id: the store's entry is the same object. The
--     machine reads it again after calls that may write to it (Fsm.Context.refresh).
--   * A map is a function or an association list; where Go walks a map in an unknown order, the
--     order is an argument (Validate) or the order of the list (the walks over the store).
--   * Goroutines: the two critical sections of a worker are steps, and a round is any sequence of
--     steps (Dag.Step, Dag.World). The worker's result is a part of the step, and its calls of
--     task_status_update are steps of their own, for any task and status. What errgroup promises,
--     that each ready task's goroutine runs and is waited for, is a hypothesis where it is needed.
--   * Errors are values. A write to the disk succeeds or not as Disk says.
--   * JSON reads back what was written; a JSON number is a whole number or not.
--   * A float64 is an element of a type with the operations that are used (Longterm.Facts.Setting),
--     which also holds strings.ToLower and the judge, whose answer depends on the time; a panic of Go is `none` in Longterm.
--   * In React, `W` is whatever the model, the tools and the hooks may change, and Environment holds
--     them. The registry and the agent's fields change only as the loop itself changes them.
--   * The model, the DAG executor as the machine sees it, the reviewer, the compression of the
--     session, the prompts and Go's formatting are fields of Fsm.Context.Dependencies. What they
--     answer may depend on a clock, which ticks at each call.
--
-- Bounds and fuel: Validate searches with one unit of fuel for each task and one more, and never
-- runs out; ExecuteBatch has one round for each task, one for each time that a worker makes
-- a task pending again, and one more, since a round that does not return takes a task out of the
-- pending ones; without a bound on the workers' writes it may run for ever. The machine has MaxCycles, as in the source; the
-- search of ShortestPath needs one unit for each end of a relationship and two more; the loop of
-- React needs one unit for each step of its limit and one more, and may run for ever without
-- a limit.
--
-- A plan's version is a natural number, while Go's int has 64 bits.
--
-- Not modelled: the workers' inside, the answers of a human, the rest of session memory, the
-- schemas of tools in a request, the user interfaces, tracing, and the formatting of plans for output
-- (PlanToMap).
pub mod Common
pub mod Constants
pub mod Working
pub mod Dag
pub mod Message
pub mod React
pub mod Longterm
pub mod Llm
pub mod Provider
pub mod Session
pub mod Fsm
pub mod Tools
pub mod Examples
