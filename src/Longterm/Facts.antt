-- ===== src/Longterm/Facts.antt =====
-- memory/longterm/fact.go: the facts of MEMORY.md and the index that finds them.
pub mod Index
pub mod View
pub mod Refinement
pub mod Upsert
use kugelblitz.Common.{
  ℕ, zero, suc, ◌+◌, ◌-◌, String, Bool, true, false, ◌&&◌, ◌||◌, Option, none, some, List, [], ◌∷◌,
  ◌++◌, map, length, take, keep, ◌==◌, ◌=ˢ◌, ◌+ˢ◌, if◌then◌else◌, trim_space, contains, get_elem?,
  set_at,
}

-- memory/types/types.go. A time is a number, a confidence a float64, which `F` stands for.
pub record MemoryItem (F : Type 0) : Type 0 where
  pub section : String
  pub key : String
  pub value : String
  pub source : String
  pub version : ℕ
  pub confidence : F
  pub updated_at : ℕ

-- What the source uses of float64, of strings.ToLower, of the clock and of the judge.
pub record Setting (F : Type 0) : Type 0 where
  pub zero_f : F
  pub one_f : F
  pub tenth : F
  pub decay_per_day : F
  pub exceeds : F → F → Bool
  pub at_least : F → F → Bool
  pub half : F
  pub default_gap : F
  pub abs_diff : F → F → F
  pub add : F → F → F
  pub mul : F → F → F
  pub pow : F → F → F
  pub max : F → F → F
  pub min : F → F → F
  -- From the second time to the first, in days.
  pub days_since : ℕ → ℕ → F
  pub to_lower : String → String
  -- The judge asks a language model, so that its answer depends on when it is asked.
  pub judge : Option (ℕ → String → String → Bool)

-- `index` is a map from index keys to positions; `file` is MEMORY.md.
pub record LongTermMemory (F : Type 0) : Type 0 where
  pub items : List (MemoryItem F)
  pub index : List (String × ℕ)
  pub file : List (MemoryItem F)

unfoldable pub lookup_index : String → List (String × ℕ) → Option ℕ
lookup_index k [] = none
lookup_index k ((j, i) ∷ ix) = let rest = lookup_index k ix in if j =ˢ k then some i else rest

unfoldable pub insert_index : String → ℕ → List (String × ℕ) → List (String × ℕ)
insert_index k n [] = (k, n) ∷ []
insert_index k n ((j, i) ∷ ix) =
    let rest = insert_index k n ix in if j =ˢ k then (k, n) ∷ ix else (j, i) ∷ rest

-- `delete`; a map has at most one entry for a key.
unfoldable pub delete_index : String → List (String × ℕ) → List (String × ℕ)
delete_index k [] = []
delete_index k ((j, i) ∷ ix) =
    let rest = delete_index k ix in if j =ˢ k then rest else (j, i) ∷ rest

-- What Store returns beside the error, which is always nil.
pub record Stored (F : Type 0) : Type 0 where
  pub winner : MemoryItem F
  pub conflict : Option (MemoryItem F)
  pub memory : LongTermMemory F

module _ {F : Type 0} where
  -- write, and whether it succeeds.
  unfoldable pub write : Bool → LongTermMemory F → LongTermMemory F
  write true m = record m { file = m.items }
  write false m = m

  module _ (s : Setting F) where
    unfoldable pub normalize : String → String
    unfolding trim_space
    normalize t = s.to_lower (trim_space t)

    unfoldable pub index_key : String → String → String
    unfolding normalize
    index_key section key = normalize section +ˢ "\0" +ˢ key

    abbrev pub key_of : MemoryItem F → String
    key_of x = index_key x.section x.key

    -- The loop of rebuildIndex from position `i` on.
    unfoldable pub index_from : ℕ → List (MemoryItem F) → List (String × ℕ) → List (String × ℕ)
    unfolding insert_index index_key
    index_from i [] ix = ix
    index_from i (x ∷ xs) ix = index_from (suc i) xs (insert_index (index_key x.section x.key) i ix)

    unfoldable pub rebuild_index : LongTermMemory F → LongTermMemory F
    unfolding index_from
    rebuild_index m = record m { index = index_from 0 m.items [] }

    -- load, from a file that can be read.
    unfoldable pub load : List (MemoryItem F) → LongTermMemory F
    unfolding rebuild_index
    load file = rebuild_index (record { items = file; index = []; file = file })

    unfoldable pub decay_confidence : ℕ → MemoryItem F → MemoryItem F
    decay_confidence now f =
        let days = s.days_since now f.updated_at in
        if s.at_least s.zero_f f.confidence
        then f
        else if s.at_least s.zero_f days
        then f
        else record f {
          confidence = s.max s.tenth (s.mul f.confidence (s.pow s.decay_per_day days));
        }

    unfoldable pub is_semantic_match : ℕ → String → String → Bool
    unfolding trim_space contains
    is_semantic_match now a b =
        let la = s.to_lower (trim_space a) in
        let lb = s.to_lower (trim_space b) in
        if a =ˢ b
        then true
        else if la =ˢ lb
        then true
        else if contains la lb || contains lb la
        then true
        else elim s.judge [ some judge ↦ judge now la lb | none ↦ false ]

    -- The parts of Store: the new fact, and what becomes of an existing one.
    abbrev pub new_fact : ℕ → (section key value : String) → MemoryItem F
    new_fact now section key value = record {
      section = section;
      key = key;
      value = value;
      source = "";
      version = 1;
      confidence = s.one_f;
      updated_at = now;
    }

    abbrev pub reinforced : ℕ → MemoryItem F → F → String → MemoryItem F
    reinforced now x decayed value = record x {
      value = value;
      confidence = s.min s.one_f (s.add (s.max decayed s.one_f) s.tenth);
      updated_at = now;
      version = suc x.version;
    }

    -- The zero time.
    abbrev pub losing : MemoryItem F → (section key value : String) → MemoryItem F
    losing x section key value = record {
      section = section;
      key = key;
      value = value;
      source = "";
      version = suc x.version;
      confidence = s.one_f;
      updated_at = 0;
    }

    unfoldable pub store_over :
        Bool
        → ℕ
        → (i : ℕ) → MemoryItem F
        → (section key value : String) → LongTermMemory F
        → Stored F
    unfolding write decay_confidence is_semantic_match set_at
    store_over writes now i x section key value m =
        let decayed = (decay_confidence now x).confidence in
        let same = reinforced now x decayed value in
        let newer = record (new_fact now section key value) { version = suc x.version } in
        if x.value =ˢ value || is_semantic_match now x.value value
        then record {
          winner = same;
          conflict = none;
          memory = write writes (record m { items = set_at i same m.items });
        }
        else if s.exceeds s.one_f decayed
        then record {
          winner = newer;
          conflict = some x;
          memory = write writes (record m { items = set_at i newer m.items });
        }
        else record { winner = x; conflict = some (losing x section key value); memory = m }

    -- Store. `writes` says whether the file can be written, `now` is time.Now; `none` is the panic
    -- of a position outside the items.
    unfoldable pub store :
        Bool → ℕ → (section key value : String) → LongTermMemory F → Option (Stored F)
    unfolding normalize index_key lookup_index insert_index write store_over get_elem?
    store writes now section key value m =
        let section' = normalize section in
        let k = index_key section' key in
        let fresh = new_fact now section' key value in
        elim (lookup_index k m.index) [
          | none ↦ some (record {
            winner = fresh;
            conflict = none;
            memory = write writes (record m {
              index = insert_index k (length m.items) m.index;
              items = m.items ++ fresh ∷ [];
            });
          })
          | some i ↦ elim (get_elem? m.items i) [
            | none ↦ none
            | some x ↦ some (store_over writes now i x section' key value m)
          ]
        ]

    -- The body of the loop of BulkStore.
    unfoldable pub bulk_one : ℕ → MemoryItem F → LongTermMemory F → Option (LongTermMemory F)
    unfolding normalize index_key lookup_index insert_index set_at get_elem?
    bulk_one now f m =
        let f' = record f { updated_at = now; section = normalize f.section } in
        let k = index_key f'.section f'.key in
        elim (lookup_index k m.index) [
          | none ↦ some (record m {
            index = insert_index k (length m.items) m.index;
            items = m.items ++ f' ∷ [];
          })
          | some i ↦ elim (get_elem? m.items i) [
            | none ↦ none
            | some x ↦
                some (record m { items = set_at i (record f' { version = suc x.version }) m.items })
          ]
        ]

    unfoldable pub bulk_all : ℕ → List (MemoryItem F) → LongTermMemory F → Option (LongTermMemory F)
    unfolding bulk_one
    bulk_all now [] m = some m
    bulk_all now (f ∷ fs) m = elim (bulk_one now f m) [ none ↦ none | some m' ↦ bulk_all now fs m' ]

    unfoldable pub bulk_store :
        Bool → ℕ → List (MemoryItem F) → LongTermMemory F → Option (LongTermMemory F)
    unfolding bulk_all write
    bulk_store writes now fs m = elim (bulk_all now fs m) [
      | none ↦ none
      | some m' ↦ some (write writes m')
    ]

    -- Get: `none` is the panic, `some none` a fact that does not exist.
    unfoldable pub get :
        ℕ → (section key : String) → LongTermMemory F → Option (Option (MemoryItem F))
    unfolding index_key lookup_index get_elem? decay_confidence
    get now section key m = elim (lookup_index (index_key section key) m.index) [
      | none ↦ some none
      | some i ↦ elim (get_elem? m.items i) [
        | none ↦ none
        | some x ↦ some (some (decay_confidence now x))
      ]
    ]

    -- The swap in Remove, at the position `i` of the fact with the key `k`.
    unfoldable pub swap_remove : String → ℕ → LongTermMemory F → Option (LongTermMemory F)
    unfolding index_key insert_index delete_index set_at get_elem?
    swap_remove k i m =
        let last = length m.items - 1 in
        if i == last
        then some (record m { items = take last m.items; index = delete_index k m.index })
        else elim (get_elem? m.items last) [
          | none ↦ none
          | some x ↦ some (record m {
            items = take last (set_at i x m.items);
            index = delete_index k (insert_index (index_key x.section x.key) i m.index);
          })
        ]

    unfoldable pub remove :
        Bool → (section key : String) → LongTermMemory F → Option (LongTermMemory F)
    unfolding index_key lookup_index swap_remove write get_elem?
    remove writes section key m =
        let k = index_key section key in
        elim (lookup_index k m.index) [
          | none ↦ some m
          | some i ↦ elim (get_elem? m.items i) [
            | none ↦ none
            | some x ↦ elim (swap_remove k i m) [ none ↦ none | some m' ↦ some (write writes m') ]
          ]
        ]

    unfoldable pub get_section : ℕ → String → LongTermMemory F → List (MemoryItem F)
    unfolding normalize keep decay_confidence
    get_section now section m =
        map (decay_confidence now)
          (keep (λ (f : MemoryItem F). normalize f.section =ˢ normalize section) m.items)

    -- SearchWithMode
    unfoldable pub search : ℕ → String → LongTermMemory F → List (MemoryItem F)
    unfolding keep contains decay_confidence
    search now query m =
        let q = s.to_lower query in
        map (decay_confidence now) (
          keep
            (λ (f : MemoryItem F).
              contains (s.to_lower f.section) q
              || contains (s.to_lower f.key) q
              || contains (s.to_lower f.value) q)
            m.items)

  -- The loop of ListSections, on the map of counts.
  unfoldable pub count_sections : List (MemoryItem F) → List (String × ℕ) → List (String × ℕ)
  unfolding lookup_index insert_index
  count_sections [] counts = counts
  count_sections (f ∷ fs) counts = elim (lookup_index f.section counts) [
    | none ↦ count_sections fs (insert_index f.section 1 counts)
    | some n ↦ count_sections fs (insert_index f.section (suc n) counts)
  ]

  unfoldable pub list_sections : LongTermMemory F → List (String × ℕ)
  unfolding count_sections
  list_sections m = count_sections m.items []
