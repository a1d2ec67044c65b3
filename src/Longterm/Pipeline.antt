-- ===== src/Longterm/Pipeline.antt =====
-- memory/longterm/conflict.go, dedup.go and the steps from resolve to store of write/pipeline.go.
pub mod Accepted
use kugelblitz.Common.{
  ℕ, suc, ◌+◌, String, Bool, true, false, ◌&&◌, ◌||◌, not, Option, none, some, List, [], ◌∷◌, ◌++◌,
  length, ◌=ˢ◌, if◌then◌else◌, is_empty, ◌>>=◌,
}
use kugelblitz.Longterm.Facts.{
  MemoryItem, Setting, LongTermMemory, get, is_semantic_match, bulk_store,
}

-- memory/types/types.go
pub record MemoryItemCandidate (F : Type 0) : Type 0 where
  pub section : String
  pub key : String
  pub value : String
  pub source_evidence : String
  pub suggested_confidence : F

pub data ConflictDecision : Type 0 where
  accept_new keep_existing : ConflictDecision

pub record ResolveResult (F : Type 0) : Type 0 where
  pub candidate : MemoryItemCandidate F
  pub decision : ConflictDecision
  pub winner : MemoryItem F
  pub old_fact : Option (MemoryItem F)

pub record DedupResult (F : Type 0) : Type 0 where
  pub accepted : List (MemoryItem F)
  pub rejected : ℕ

-- The counts of a PipelineResult, and the memory.
pub record Piped (F : Type 0) : Type 0 where
  pub items_stored : ℕ
  pub items_rejected : ℕ
  pub memory : LongTermMemory F

module _ {F : Type 0} where
  abbrev pub no_items : List (MemoryItem F) → Bool
  no_items [] = true
  no_items (f ∷ fs) = false

  -- The body of the loop of DedupItems, from the tests on.
  abbrev pub accept_or_reject : Bool → MemoryItem F → DedupResult F → DedupResult F
  accept_or_reject true f d = record d { rejected = suc d.rejected }
  accept_or_reject false f d = record d { accepted = d.accepted ++ f ∷ [] }

module _ {F : Type 0} (s : Setting F) where
  -- The gap of NewConflictResolver.
  abbrev pub confidence_gap : F → F
  confidence_gap gap = if s.at_least s.zero_f gap then s.default_gap else gap

  unfoldable pub clamp_confidence : F → F
  clamp_confidence c =
      if s.at_least s.zero_f c then s.half else if s.exceeds c s.one_f then s.one_f else c

  abbrev pub accepted_new : ℕ → MemoryItemCandidate F → ℕ → F → MemoryItem F
  accepted_new now c version confidence = record {
    section = c.section;
    key = c.key;
    value = c.value;
    source = c.source_evidence;
    version = version;
    confidence = confidence;
    updated_at = now;
  }

  abbrev pub matched : ℕ → MemoryItemCandidate F → MemoryItem F → MemoryItem F
  matched now c x = record x {
    confidence = s.min s.one_f (s.add x.confidence s.tenth);
    value = c.value;
    source = if is_empty c.source_evidence then x.source else c.source_evidence;
    version = suc x.version;
    updated_at = now;
  }

  -- resolveOne from the answer of Get on.
  unfoldable pub resolve_against :
      F → ℕ → MemoryItemCandidate F → Option (MemoryItem F) → ResolveResult F
  unfolding clamp_confidence is_semantic_match
  resolve_against gap now c none = record {
    candidate = c;
    decision = accept_new;
    winner = accepted_new now c 1 (clamp_confidence c.suggested_confidence);
    old_fact = none;
  }
  resolve_against gap now c (some x) =
      let new_conf = clamp_confidence c.suggested_confidence in
      if is_semantic_match s now x.value c.value
      then record {
        candidate = c;
        decision = accept_new;
        winner = matched now c x;
        old_fact = none;
      }
      else if s.at_least (s.abs_diff new_conf x.confidence) (confidence_gap gap)
          && s.exceeds new_conf x.confidence
      then record {
        candidate = c;
        decision = accept_new;
        winner = accepted_new now c (suc x.version) new_conf;
        old_fact = some x;
      }
      else record { candidate = c; decision = keep_existing; winner = x; old_fact = none }

  -- resolveOne; `none` is a panic of Get.
  unfoldable pub resolve_one :
      F → ℕ → MemoryItemCandidate F → LongTermMemory F → Option (ResolveResult F)
  unfolding resolve_against get
  resolve_one gap now c m = elim (get s now c.section c.key m) [
    | none ↦ none
    | some existing ↦ some (resolve_against gap now c existing)
  ]

  -- Resolve. Both decisions append the winner.
  unfoldable pub resolve :
      F → ℕ → List (MemoryItemCandidate F) → LongTermMemory F → Option (List (MemoryItem F))
  unfolding resolve_one
  resolve gap now [] m = some []
  resolve gap now (c ∷ cs) m = do
    r ← resolve_one gap now c m
    rest ← resolve gap now cs m
    some (r.winner ∷ rest)

  -- isExistingDuplicate from the answer of Get on.
  unfoldable pub is_duplicate_of : ℕ → MemoryItem F → Option (MemoryItem F) → Bool
  unfolding is_semantic_match
  is_duplicate_of now f none = false
  is_duplicate_of now f (some x) = x.value =ˢ f.value || is_semantic_match s now x.value f.value

  unfoldable pub is_existing_duplicate : ℕ → MemoryItem F → LongTermMemory F → Option Bool
  unfolding is_duplicate_of get
  is_existing_duplicate now f m = elim (get s now f.section f.key m) [
    | none ↦ none
    | some existing ↦ some (is_duplicate_of now f existing)
  ]

  unfoldable pub is_batch_duplicate : ℕ → MemoryItem F → List (MemoryItem F) → Bool
  unfolding is_semantic_match
  is_batch_duplicate now f [] = false
  is_batch_duplicate now f (a ∷ accepted) =
      let rest = is_batch_duplicate now f accepted in
      if a.section =ˢ f.section && a.key =ˢ f.key
      then true
      else if a.section =ˢ f.section
          && not (a.key =ˢ f.key)
          && is_semantic_match s now a.value f.value
      then true
      else rest

  -- The loop of DedupItems, with what is accepted so far.
  unfoldable pub dedup_from :
      ℕ → List (MemoryItem F) → LongTermMemory F → DedupResult F → Option (DedupResult F)
  unfolding is_existing_duplicate is_batch_duplicate
  dedup_from now [] m d = some d
  dedup_from now (f ∷ fs) m d = do
    existing ← is_existing_duplicate now f m
    dedup_from now fs m (accept_or_reject (existing || is_batch_duplicate now f d.accepted) f d)

  unfoldable pub dedup_items : ℕ → List (MemoryItem F) → LongTermMemory F → Option (DedupResult F)
  unfolding dedup_from
  dedup_items now fs m = dedup_from now fs m (record { accepted = []; rejected = 0 })

  -- The store step; the clock goes on between the steps.
  unfoldable pub store_step : Bool → ℕ → DedupResult F → LongTermMemory F → Option (Piped F)
  unfolding bulk_store
  store_step writes now d m =
      if no_items d.accepted
      then some (record { items_stored = 0; items_rejected = d.rejected; memory = m })
      else elim (bulk_store s writes now d.accepted m) [
        | none ↦ none
        | some m' ↦ some (record {
          items_stored = if writes then length d.accepted else 0;
          items_rejected = d.rejected;
          memory = m';
        })
      ]

  -- The steps resolve, dedup and store.
  unfoldable pub pipeline :
      Bool → F → (t1 t2 t3 : ℕ) → List (MemoryItemCandidate F) → LongTermMemory F → Option (Piped F)
  unfolding resolve dedup_items store_step
  pipeline writes gap t1 t2 t3 cs m = do
    fs ← resolve gap t1 cs m
    d ← dedup_items t2 fs m
    store_step writes t3 d m
