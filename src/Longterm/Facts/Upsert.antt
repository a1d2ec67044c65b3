-- ===== src/Longterm/Facts/Upsert.antt =====
-- memory/longterm/fact.go, Store and BulkStore: what they do to the facts as a map.
use kugelblitz.Common.{
  ℕ, suc, String, Bool, true, false, ◌||◌, Option, none, some, List, [], ◌∷◌, ◌++◌, length, ◌=ˢ◌,
  if◌then◌else◌, get_elem?, set_at, ◌≡◌, ◌⊎◌, inl, inr, refl, sym, ◌∙◌, ap, subst, Option-cases,
  if_split, none_ne_some, some_eq, arith, eq_iff, All, append-nil, append_assoc, length-append,
}
use kugelblitz.Longterm.Facts.{
  losing, MemoryItem, Setting, LongTermMemory, Stored, lookup_index, insert_index, normalize,
  index_key, key_of, write, new_fact, reinforced, decay_confidence, is_semantic_match, store_over,
  store, index_from, rebuild_index, load,
}
use kugelblitz.Longterm.Facts.Index.{lookup-insert_index, Agree, push-Agree, set_at-Agree}
use kugelblitz.Longterm.Facts.View.{view, view-found, view-missing, view-push, view-set_at}

module _ {F : Type 0} (s : Setting F) where
  abbrev pub IsIndexed : LongTermMemory F → Type 0
  IsIndexed m = Agree (key_of s) m.items m.index

  abbrev pub facts : LongTermMemory F → String → Option (MemoryItem F)
  facts m = view m.items m.index

  pub write-IsIndexed : (b : Bool) (m : LongTermMemory F) → IsIndexed m → IsIndexed (write b m)
  unfolding write
  write-IsIndexed true m h = h
  write-IsIndexed false m h = h

  pub write-facts : (b : Bool) (m : LongTermMemory F) (j : String) → facts (write b m) j ≡ facts m j
  unfolding write
  write-facts true m j = refl
  write-facts false m j = refl

  -- No two facts have the same key.
  abbrev pub KeysDiffer : List (MemoryItem F) → Type 0
  KeysDiffer [] = Unit
  KeysDiffer (x ∷ xs) = All (λ y. (key_of s x =ˢ key_of s y) ≡ false) xs × KeysDiffer xs

  keys_fresh :
      (x : MemoryItem F) (n : ℕ) (ix : List (String × ℕ)) (ys : List (MemoryItem F))
      → All (λ y. (key_of s x =ˢ key_of s y) ≡ false) ys
      → All (λ y. lookup_index (key_of s y) ix ≡ none) ys
      → All (λ y. lookup_index (key_of s y) (insert_index (key_of s x) n ix) ≡ none) ys
  keys_fresh x n ix [] h g = tt
  keys_fresh x n ix (y ∷ ys) (d, h) (e, g) =
      let found = lookup-insert_index (key_of s y) (key_of s x) n ix in
      (ground (arith, found, d, e), keys_fresh x n ix ys h g)

  index_from-Agree :
      (front xs : List (MemoryItem F)) (ix : List (String × ℕ))
      → Agree (key_of s) front ix
      → All (λ y. lookup_index (key_of s y) ix ≡ none) xs
      → KeysDiffer xs
      → Agree (key_of s) (front ++ xs) (index_from s (length front) xs ix)
  unfolding index_from
  index_from-Agree front [] ix h fresh d =
      subst (λ z. Agree (key_of s) z ix) (sym (append-nil front)) h
  index_from-Agree front (x ∷ xs) ix h (e, fresh) (apart, d) =
      let h' = push-Agree (key_of s) front ix x h e in
      let ix' = insert_index (key_of s x) (length front) ix in
      let fresh' = keys_fresh x (length front) ix xs apart fresh in
      let rest = index_from-Agree (front ++ x ∷ []) xs ix' h' fresh' d in
      let one_more : length (front ++ x ∷ []) ≡ suc (length front) =
        omega (arith, length-append front (x ∷ [])) in
      subst (λ z. Agree (key_of s) z (index_from s (suc (length front)) xs ix'))
        (append_assoc front (x ∷ []) xs)
        (subst (λ n. Agree (key_of s) ((front ++ x ∷ []) ++ xs) (index_from s n xs ix')) one_more
          rest)

  nothing_found : (xs : List (MemoryItem F)) → All (λ y. lookup_index (key_of s y) [] ≡ none) xs
  unfolding lookup_index
  nothing_found [] = tt
  nothing_found (x ∷ xs) = (refl, nothing_found xs)

  nothing-Agree : Agree (key_of s) [] []
  unfolding lookup_index get_elem?
  nothing-Agree = record {
    sound = λ k i e. absurd (none_ne_some (sym e));
    complete = λ i x e. absurd (none_ne_some (sym e));
  }

  -- The index of a file whose facts have different keys finds each of them.
  pub load-IsIndexed : (file : List (MemoryItem F)) → KeysDiffer file → IsIndexed (load s file)
  unfolding load rebuild_index
  load-IsIndexed file d = index_from-Agree [] file [] nothing-Agree (nothing_found file) d

  -- The old value neither is the new one nor matches it.
  abbrev pub Differ : ℕ → MemoryItem F → String → Type 0
  Differ now x value = (x.value =ˢ value || is_semantic_match s now x.value value) ≡ false

  -- `r` is what Store returned for this fact.
  pub record IsStored (now : ℕ) (section key value : String) (m : LongTermMemory F) (r : Stored F)
      : Type 0 where
    pub indexed : IsIndexed r.memory
    pub puts :
        (j : String)
        → facts r.memory j
          ≡ (if index_key s (normalize s section) key =ˢ j then some r.winner else facts m j)
    pub fresh :
        facts m (index_key s (normalize s section) key) ≡ none
        → (r.winner ≡ new_fact s now (normalize s section) key value) × (r.conflict ≡ none)
    pub again :
        (x : MemoryItem F)
        → facts m (index_key s (normalize s section) key) ≡ some x
        → (((x.value =ˢ value || is_semantic_match s now x.value value) ≡ true)
            × (r.winner.value ≡ value)
            × (r.winner.version ≡ suc x.version)
            × (r.conflict ≡ none))
          ⊎ (Differ now x value
              × (s.exceeds s.one_f (decay_confidence s now x).confidence ≡ true)
              × (r.winner.value ≡ value)
              × (r.winner.version ≡ suc x.version)
              × (r.conflict ≡ some x))
          ⊎ (Differ now x value
              × (s.exceeds s.one_f (decay_confidence s now x).confidence ≡ false)
              × (r.winner ≡ x)
              × (y : MemoryItem F) × (r.conflict ≡ some y)
              × (y.value ≡ value))

  -- The new state after the fact at position `i` has become `y`, written or not.
  put_over :
      (b : Bool) (m : LongTermMemory F) (i : ℕ) (y : MemoryItem F)
      → IsIndexed m
      → lookup_index (key_of s y) m.index ≡ some i
      → IsIndexed (write b (record m { items = set_at i y m.items }))
        × ((j : String)
            → facts (write b (record m { items = set_at i y m.items })) j
              ≡ (if key_of s y =ˢ j then some y else facts m j))
  put_over b m i y h old =
      let m' = record m { items = set_at i y m.items } in
      (
        write-IsIndexed b m' (set_at-Agree (key_of s) m.items m.index i y h old),
        λ j. write-facts b m' j ∙ view-set_at (key_of s) m.items m.index i y h old j,
      )

  if_same :
      (k j : String) (f : String → Option (MemoryItem F)) (x : MemoryItem F)
      → f k ≡ some x
      → f j ≡ (if k =ˢ j then some x else f j)
  if_same k j f x e = ground (arith, e, eq_iff k j)

  store_over-IsStored :
      (b : Bool) (now i : ℕ) (x : MemoryItem F) (section key value : String) (m : LongTermMemory F)
      → IsIndexed m
      → lookup_index (index_key s (normalize s section) key) m.index ≡ some i
      → key_of s x ≡ index_key s (normalize s section) key
      → facts m (index_key s (normalize s section) key) ≡ some x
      → IsStored now section key value m (store_over s b now i x (normalize s section) key value m)
  unfolding store_over
  store_over-IsStored b now i x section key value m h old k_x here =
      let k = index_key s (normalize s section) key in
      let decayed = (decay_confidence s now x).confidence in
      let same = reinforced s now x decayed value in
      let newer = record (new_fact s now (normalize s section) key value) {
        version = suc x.version;
      } in
      let (same_indexed, same_facts) =
        put_over b m i same h (subst (λ z. lookup_index z m.index ≡ some i) (sym k_x) old) in
      let (newer_indexed, newer_facts) = put_over b m i newer h old in
      if_split (IsStored now section key value m)
        (x.value =ˢ value || is_semantic_match s now x.value value)
        (λ e. record {
          indexed = same_indexed;
          puts = λ j.
              subst
                (λ z.
                  facts (write b (record m { items = set_at i same m.items })) j
                  ≡ (if z =ˢ j then some same else facts m j))
                k_x (same_facts j);
          fresh = λ none_here. absurd (none_ne_some (sym here ∙ none_here));
          again = λ y e'.
              let x_y = some_eq (sym here ∙ e') in
              inl (
                subst (λ z. (z.value =ˢ value || is_semantic_match s now z.value value) ≡ true) x_y
                    e,
                refl,
                ap (λ (z : MemoryItem F). suc z.version) x_y,
                refl,
              );
        })
        (λ e.
          if_split (IsStored now section key value m) (s.exceeds s.one_f decayed)
            (λ wins. record {
              indexed = newer_indexed;
              puts = newer_facts;
              fresh = λ none_here. absurd (none_ne_some (sym here ∙ none_here));
              again = λ y e'.
                  let x_y = some_eq (sym here ∙ e') in
                  inr (
                    inl (
                      subst (λ z. Differ now z value) x_y e,
                      subst (λ z. s.exceeds s.one_f (decay_confidence s now z).confidence ≡ true)
                          x_y wins,
                      refl,
                      ap (λ (z : MemoryItem F). suc z.version) x_y,
                      ap (λ z. some z) x_y,
                    ));
            })
            (λ loses. record {
              indexed = h;
              puts = λ j. if_same k j (facts m) x here;
              fresh = λ none_here. absurd (none_ne_some (sym here ∙ none_here));
              again = λ y e'.
                  let x_y = some_eq (sym here ∙ e') in
                  inr (
                    inr (
                      subst (λ z. Differ now z value) x_y e,
                      subst (λ z. s.exceeds s.one_f (decay_confidence s now z).confidence ≡ false)
                          x_y loses,
                      x_y,
                      losing s x (normalize s section) key value,
                      refl,
                      refl,
                    ));
            }))

  -- Store never panics and keeps the index in agreement with the items. As a map, the facts change
  -- at the one key, to the fact that is returned: a new one with version 1 and no conflict where there
  -- was none; if the old value is the new one or matches it, the new value with the next version and no
  -- conflict; if not and 1 exceeds the old fact's decayed confidence, the new value with the next
  -- version and the old fact as the conflict; and else the old fact as it was, with a conflict that has
  -- the new value.
  pub store-IsStored :
      (b : Bool) (now : ℕ) (section key value : String) (m : LongTermMemory F)
      → IsIndexed m
      → (r : Stored F) × (store s b now section key value m ≡ some r)
        × IsStored now section key value m r
  unfolding store
  store-IsStored b now section key value m h =
      let k = index_key s (normalize s section) key in
      let fresh = new_fact s now (normalize s section) key value in
      elim (Option-cases (lookup_index k m.index)) [
        | inl e ↦
            let m' = record m {
              index = insert_index k (length m.items) m.index;
              items = m.items ++ fresh ∷ [];
            } in
            (
              record { winner = fresh; conflict = none; memory = write b m' },
              ground (arith, e),
              record {
                indexed = write-IsIndexed b m' (push-Agree (key_of s) m.items m.index fresh h e);
                puts = λ j. write-facts b m' j ∙ view-push (key_of s) m.items m.index fresh h j;
                fresh = λ _. (refl, refl);
                again = λ x here.
                    absurd (none_ne_some (sym here ∙ view-missing (key_of s) m.items m.index k e));
              },
            )
        | inr (i, e) ↦
            let (x, g, q, here) = view-found (key_of s) m.items m.index k i h e in
            (
              store_over s b now i x (normalize s section) key value m,
              ground (arith, e, g),
              store_over-IsStored b now i x section key value m h e q here,
            )
      ]
