-- ===== src/Longterm/Facts/Refinement.antt =====
-- memory/longterm/fact.go, Remove, BulkStore and Get: the facts against a map without positions.
use kugelblitz.Common.{
  ℕ, suc, ◌-◌, String, Bool, Option, none, some, List, [], ◌∷◌, ◌++◌, length, take, ◌=ˢ◌, ◌==◌,
  ◌+ˢ◌, if◌then◌else◌, get_elem?, get_elem-length, get_elem-last, text_eq_sound, set_at, ◌≡◌, ◌≢◌,
  inl, inr, refl, sym, ◌∙◌, ap, subst, Option-cases, Bool-cases, arith,
}
use kugelblitz.Longterm.Facts.{
  MemoryItem, Setting, LongTermMemory, Stored, lookup_index, insert_index, delete_index, normalize,
  index_key, key_of, write, decay_confidence, bulk_one, bulk_all, bulk_store, swap_remove, remove,
  get, store,
}
use kugelblitz.Longterm.Facts.Index.{push-Agree, set_at-Agree, swap-Agree, take-Agree}
use kugelblitz.Longterm.Facts.View.{
  view-found, view-missing, view-push, view-set_at, view-swap, view-take,
}
use kugelblitz.Longterm.Facts.Upsert.{
  IsIndexed, facts, write-IsIndexed, write-facts, store-IsStored,
}

-- The facts without positions: one for each index key, or none.
abbrev pub FactMap : Type 0 → Type 0
FactMap F = String → Option (MemoryItem F)

abbrev pub next_version : {F : Type 0} → Option (MemoryItem F) → ℕ → ℕ
next_version none v = v
next_version (some x) v = suc x.version

last_item :
    {A : Type 0} (xs : List A) (i : ℕ) (x : A)
    → get_elem? xs i ≡ some x
    → (y : A) × (get_elem? xs (length xs - 1) ≡ some y)
last_item [] i x g = absurd (ground (arith, get_elem-length [] i x g))
last_item (z ∷ xs) i x g =
    let (y, e) = get_elem-last z xs in
    (y, subst (λ n. get_elem? (z ∷ xs) n ≡ some y) (omega arith) e)

module _ {F : Type 0} (s : Setting F) where
  -- The state `m` of the program stands for the map `f`.
  abbrev pub Implements : FactMap F → LongTermMemory F → Type 0
  Implements f m = IsIndexed s m × ((j : String) → facts s m j ≡ f j)

  abbrev pub drop_fact : String → FactMap F → FactMap F
  drop_fact k f j = if k =ˢ j then none else f j

  abbrev pub put_fact : MemoryItem F → FactMap F → FactMap F
  put_fact x f j = if key_of s x =ˢ j then some x else f j

  abbrev pub bulk_item : ℕ → MemoryItem F → MemoryItem F
  bulk_item now x = record x { updated_at = now; section = normalize s x.section }

  -- BulkStore on the map: a fact that is new keeps its version, another gets the next one.
  abbrev pub bulk_fact : ℕ → MemoryItem F → FactMap F → FactMap F
  bulk_fact now x f =
      let y = bulk_item now x in
      put_fact (record y { version = next_version (f (key_of s y)) y.version }) f

  unfoldable pub bulk_facts : ℕ → List (MemoryItem F) → FactMap F → FactMap F
  bulk_facts now [] f = f
  bulk_facts now (x ∷ xs) f = bulk_facts now xs (bulk_fact now x f)

  swap_remove-Implements :
      (m : LongTermMemory F) (k : String) (i : ℕ)
      → IsIndexed s m
      → lookup_index k m.index ≡ some i
      → (m' : LongTermMemory F) × (swap_remove s k i m ≡ some m')
        × Implements (drop_fact k (facts s m)) m'
  unfolding swap_remove
  swap_remove-Implements m k i h old = elim (Bool-cases (i == length m.items - 1)) [
    | inl here ↦
        let old' : lookup_index k m.index ≡ some (length m.items - 1) =
          subst (λ z. lookup_index k m.index ≡ some z) (ground (arith, here)) old in
        (
          record m { items = take (length m.items - 1) m.items; index = delete_index k m.index },
          ground (arith, here),
          (
            take-Agree (key_of s) m.items m.index k h old',
            view-take (key_of s) m.items m.index k h old',
          ),
        )
    | inr away ↦
        let apart : i ≢ length m.items - 1 = ground (arith, away) in
        let (z, gz, qz) = h.sound k i old in
        let (x, last) = last_item m.items i z gz in
        (
          record m {
            items = take (length m.items - 1) (set_at i x m.items);
            index = delete_index k (insert_index (index_key s x.section x.key) i m.index);
          },
          ground (arith, away, last),
          (
            swap-Agree (key_of s) m.items m.index k i x h old last apart,
            view-swap (key_of s) m.items m.index k i x h old last apart,
          ),
        )
  ]

  -- Remove never panics, and removes the fact with the key, if there is one, and no other.
  pub remove-Implements :
      (b : Bool) (section key : String) (m : LongTermMemory F) (f : FactMap F)
      → Implements f m
      → (m' : LongTermMemory F) × (remove s b section key m ≡ some m')
        × Implements (drop_fact (index_key s section key) f) m'
  unfolding remove
  remove-Implements b section key m f (h, same) =
      let k = index_key s section key in
      elim (Option-cases (lookup_index k m.index)) [
        | inl e ↦ (
          m,
          ground (arith, e),
          (
            h,
            λ j. elim (Bool-cases (k =ˢ j)) [
              | inl y ↦
                  let missing = view-missing (key_of s) m.items m.index k e in
                  ground (arith, y, missing, text_eq_sound k j y)
              | inr n ↦ ground (arith, n, same j)
            ],
          ),
        )
        | inr (i, e) ↦
            let (x, g, q) = h.sound k i e in
            let (m', done, (indexed, gone)) = swap_remove-Implements m k i h e in
            (
              write b m',
              ground (arith, e, g, done),
              (
                write-IsIndexed s b m' indexed,
                λ j. write-facts s b m' j ∙ gone j ∙ ap (λ z. if k =ˢ j then none else z) (same j),
              ),
            )
      ]

  bulk_one-Implements :
      (now : ℕ) (x : MemoryItem F) (m : LongTermMemory F) (f : FactMap F)
      → Implements f m
      → (m' : LongTermMemory F) × (bulk_one s now x m ≡ some m') × Implements (bulk_fact now x f) m'
  unfolding bulk_one
  bulk_one-Implements now x m f (h, same) =
      let y = bulk_item now x in
      let k = key_of s y in
      elim (Option-cases (lookup_index k m.index)) [
        | inl e ↦
            let missing = sym (same k) ∙ view-missing (key_of s) m.items m.index k e in
            (
              record m {
                index = insert_index k (length m.items) m.index;
                items = m.items ++ y ∷ [];
              },
              ground (arith, e),
              (
                push-Agree (key_of s) m.items m.index y h e,
                λ j. view-push (key_of s) m.items m.index y h j ∙ ground (arith, missing, same j),
              ),
            )
        | inr (i, e) ↦
            let (z, g, q, here) = view-found (key_of s) m.items m.index k i h e in
            let there = sym (same k) ∙ here in
            let y' = record y { version = suc z.version } in
            (
              record m { items = set_at i y' m.items },
              ground (arith, e, g),
              (
                set_at-Agree (key_of s) m.items m.index i y' h e,
                λ j.
                    view-set_at (key_of s) m.items m.index i y' h e j
                    ∙ ground (arith, there, same j),
              ),
            )
      ]

  bulk_all-Implements :
      (now : ℕ) (xs : List (MemoryItem F)) (m : LongTermMemory F) (f : FactMap F)
      → Implements f m
      → (m' : LongTermMemory F) × (bulk_all s now xs m ≡ some m')
        × Implements (bulk_facts now xs f) m'
  unfolding bulk_all bulk_facts
  bulk_all-Implements now [] m f h = (m, refl, h)
  bulk_all-Implements now (x ∷ xs) m f h =
      let (m1, e, h1) = bulk_one-Implements now x m f h in
      let (m2, e', h2) = bulk_all-Implements now xs m1 (bulk_fact now x f) h1 in
      (m2, ground (arith, e, e'), h2)

  -- BulkStore never panics. It is a sequence of writes to a map: each fact goes to its key, after the
  -- facts before it in the batch, with the next version if the key has a fact and its own if not; no
  -- other key changes, whether or not the file can be written.
  pub bulk_store-Implements :
      (b : Bool) (now : ℕ) (xs : List (MemoryItem F)) (m : LongTermMemory F) (f : FactMap F)
      → Implements f m
      → (m' : LongTermMemory F) × (bulk_store s b now xs m ≡ some m')
        × Implements (bulk_facts now xs f) m'
  unfolding bulk_store
  bulk_store-Implements b now xs m f h =
      let (m', e, (indexed, same)) = bulk_all-Implements now xs m f h in
      (
        write b m',
        ground (arith, e),
        (write-IsIndexed s b m' indexed, λ j. write-facts s b m' j ∙ same j),
      )

  abbrev pub decayed : ℕ → Option (MemoryItem F) → Option (MemoryItem F)
  decayed now none = none
  decayed now (some x) = some (decay_confidence s now x)

  pub get-facts :
      (now : ℕ) (section key : String) (m : LongTermMemory F)
      → IsIndexed s m
      → get s now section key m ≡ some (decayed now (facts s m (index_key s section key)))
  unfolding get
  get-facts now section key m h =
      let k = index_key s section key in
      elim (Option-cases (lookup_index k m.index)) [
        | inl e ↦ ground (arith, e, view-missing (key_of s) m.items m.index k e)
        | inr (i, e) ↦
            let (x, g, q, here) = view-found (key_of s) m.items m.index k i h e in
            ground (arith, e, g, here)
      ]

  key_idem :
      (section key : String)
      → normalize s (normalize s section) ≡ normalize s section
      → index_key s (normalize s section) key ≡ index_key s section key
  unfolding index_key
  key_idem section key q = ap (λ z. z +ˢ "\0" +ˢ key) q

  -- Get after Store returns the fact that Store returned, with its confidence decayed, if the name of
  -- the section is normalised as its normal form is; Get of another key returns what it would have
  -- returned before.
  pub get-store :
      (b : Bool) (now later : ℕ) (section key value section' key' : String) (m : LongTermMemory F)
      → IsIndexed s m
      → normalize s (normalize s section) ≡ normalize s section
      → (r : Stored F) × (store s b now section key value m ≡ some r)
        × (get s later section' key' r.memory ≡ (
            if index_key s section key =ˢ index_key s section' key'
            then some (some (decay_confidence s later r.winner))
            else get s later section' key' m))
  get-store b now later section key value section' key' m h idem =
      let (r, e, ok) = store-IsStored s b now section key value m h in
      let after = get-facts later section' key' r.memory ok.indexed in
      let before = get-facts later section' key' m h in
      let puts = ok.puts (index_key s section' key') in
      let same_key = key_idem section key idem in
      (r, e, after ∙ ground (arith, puts, before, same_key))
