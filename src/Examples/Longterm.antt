-- ===== src/Examples/Longterm.antt =====
-- memory/longterm: a memory of two facts, with confidences in hundredths and times in days.
use kugelblitz.Common.{
  ℕ, ◌+◌, ◌-◌, String, true, none, some, List, [], ◌∷◌, length, ◌=ˢ◌, ltb, leb, if◌then◌else◌, ◌≡◌,
  refl, All, trim_space, trim_left, trim_right, is_space,
}
use kugelblitz.Longterm.Facts.{
  MemoryItem, Setting, LongTermMemory, Stored, load, store, remove, bulk_store, get, index_key,
  normalize, decay_confidence,
}
use kugelblitz.Longterm.Facts.Upsert.{
  IsIndexed, facts, KeysDiffer, load-IsIndexed, IsStored, store-IsStored,
}
use kugelblitz.Longterm.Facts.Refinement.{
  Implements, drop_fact, bulk_facts, remove-Implements, bulk_store-Implements, get-store,
}
use kugelblitz.Longterm.Pipeline.{MemoryItemCandidate, Piped, pipeline}
use kugelblitz.Longterm.Pipeline.Accepted.{IsNew, pipeline-IsNew}

abbrev hundredths : Setting ℕ
hundredths = record {
  zero_f = 0;
  one_f = 100;
  tenth = 10;
  decay_per_day = 95;
  exceeds = λ a b. ltb b a;
  at_least = λ a b. leb b a;
  half = 50;
  default_gap = 15;
  abs_diff = λ a b. (a - b) + (b - a);
  add = λ a b. a + b;
  mul = λ a b. a - b;
  pow = λ a n. n;
  max = λ a b. if leb a b then b else a;
  min = λ a b. if leb a b then a else b;
  days_since = λ a b. a - b;
  to_lower = λ t. t;
  judge = none;
}

abbrev fact : String → String → MemoryItem ℕ
fact key value = record {
  section = "prefs";
  key = key;
  value = value;
  source = "";
  version = 1;
  confidence = 90;
  updated_at = 3;
}

abbrev file : List (MemoryItem ℕ)
file = fact "editor" "vim" ∷ fact "shell" "zsh" ∷ []

abbrev memory : LongTermMemory ℕ
memory = load hundredths file

differ : KeysDiffer hundredths file
unfolding index_key normalize trim_space trim_left trim_right is_space
differ = ((refl, tt), (tt, tt))

memory-IsIndexed : IsIndexed hundredths memory
memory-IsIndexed = load-IsIndexed hundredths file differ

store-IsStored_example :
    (r : Stored ℕ) × (store hundredths true 5 " prefs" "editor" "emacs" memory ≡ some r)
    × IsStored hundredths 5 " prefs" "editor" "emacs" memory r
store-IsStored_example =
    store-IsStored hundredths true 5 " prefs" "editor" "emacs" memory memory-IsIndexed

remove-Implements_example :
    (m' : LongTermMemory ℕ) × (remove hundredths true "prefs" "editor" memory ≡ some m')
    × Implements hundredths
        (drop_fact hundredths (index_key hundredths "prefs" "editor") (facts hundredths memory))
        m'
remove-Implements_example =
    remove-Implements hundredths true "prefs" "editor" memory (facts hundredths memory)
      (memory-IsIndexed, λ j. refl)

bulk_store-Implements_example :
    (m' : LongTermMemory ℕ) × (bulk_store hundredths true 5
        (fact "shell" "fish" ∷ fact "os" "linux" ∷ [])
        memory
      ≡ some m')
    × Implements hundredths
        (bulk_facts hundredths 5
          (fact "shell" "fish" ∷ fact "os" "linux" ∷ [])
          (facts hundredths memory))
        m'
bulk_store-Implements_example =
    bulk_store-Implements hundredths true 5 (fact "shell" "fish" ∷ fact "os" "linux" ∷ []) memory
      (facts hundredths memory) (memory-IsIndexed, λ j. refl)

normal : normalize hundredths (normalize hundredths " prefs") ≡ normalize hundredths " prefs"
unfolding normalize trim_space trim_left trim_right is_space
normal = refl

get-store_example :
    (r : Stored ℕ) × (store hundredths true 5 " prefs" "editor" "emacs" memory ≡ some r)
    × (get hundredths 7 "prefs" "editor" r.memory ≡ (
        if index_key hundredths " prefs" "editor" =ˢ index_key hundredths "prefs" "editor"
        then some (some (decay_confidence hundredths 7 r.winner))
        else get hundredths 7 "prefs" "editor" memory))
get-store_example =
    get-store hundredths true 5 7 " prefs" "editor" "emacs" "prefs" "editor" memory memory-IsIndexed
      normal

abbrev said : String → String → MemoryItemCandidate ℕ
said key value = record {
  section = "prefs";
  key = key;
  value = value;
  source_evidence = "chat";
  suggested_confidence = 95;
}

pipeline-IsNew_example :
    (p : Piped ℕ) × (accepted : List (MemoryItem ℕ)) × (pipeline hundredths true 15 5 6 7
        (said "editor" "Vim vim" ∷ said "os" "linux" ∷ [])
        memory
      ≡ some p)
    × All (IsNew hundredths 6 memory) accepted
    × (p.items_rejected + length accepted ≡ 2)
    × Implements hundredths (bulk_facts hundredths 7 accepted (facts hundredths memory)) p.memory
pipeline-IsNew_example =
    pipeline-IsNew hundredths true 15 5 6 7 (said "editor" "Vim vim" ∷ said "os" "linux" ∷ [])
      memory memory-IsIndexed
