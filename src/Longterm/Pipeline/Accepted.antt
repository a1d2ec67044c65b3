-- ===== src/Longterm/Pipeline/Accepted.antt =====
-- memory/longterm: what the steps resolve, dedup and store let into the memory.
use kugelblitz.Common.{
  ℕ, suc, ◌+◌, Bool, true, false, ◌||◌, none, some, List, [], ◌∷◌, ◌++◌, length, ◌=ˢ◌,
  if◌then◌else◌, ◌>>=◌, ◌≡◌, inl, inr, refl, sym, ◌∙◌, ap, subst, arith, All, List-cases, if_both,
  length-append, false≢true,
}
use kugelblitz.Longterm.Facts.{
  MemoryItem, Setting, LongTermMemory, index_key, key_of, decay_confidence, is_semantic_match,
}
use kugelblitz.Longterm.Facts.Upsert.{IsIndexed, facts}
use kugelblitz.Longterm.Facts.Refinement.{
  Implements, bulk_facts, bulk_store-Implements, get-facts, decayed,
}
use kugelblitz.Longterm.Pipeline.{
  MemoryItemCandidate, DedupResult, Piped, resolve_against, resolve_one, resolve, is_duplicate_of,
  is_existing_duplicate, is_batch_duplicate, accept_or_reject, dedup_from, dedup_items, store_step,
  pipeline,
}

or_false : (a b : Bool) → a || b ≡ false → a ≡ false
or_false true b h = h
or_false false b h = refl

or_false_right : (a b : Bool) → a || b ≡ false → b ≡ false
or_false_right true b h = absurd (false≢true (sym h))
or_false_right false b h = h

module _ {F : Type 0} (s : Setting F) where
  decay-value : (now : ℕ) (x : MemoryItem F) → (decay_confidence s now x).value ≡ x.value
  unfolding decay_confidence
  decay-value now x =
      let days = s.days_since now x.updated_at in
      if_both (λ (z : MemoryItem F). z.value ≡ x.value) (s.at_least s.zero_f x.confidence) refl
        (if_both (λ (z : MemoryItem F). z.value ≡ x.value) (s.at_least s.zero_f days) refl refl)

  -- No fact of the memory under the key of `f` has a value that means the same.
  abbrev pub IsNew : ℕ → LongTermMemory F → MemoryItem F → Type 0
  IsNew now m f =
      (x : MemoryItem F)
      → facts s m (key_of s f) ≡ some x
      → is_semantic_match s now x.value f.value ≡ false

  resolve_one-facts :
      (gap : F) (now : ℕ) (c : MemoryItemCandidate F) (m : LongTermMemory F)
      → IsIndexed s m
      → resolve_one s gap now c m
        ≡ some
            (resolve_against s gap now c (decayed s now (facts s m (index_key s c.section c.key))))
  unfolding resolve_one
  resolve_one-facts gap now c m h =
      ap (λ z. elim z [ none ↦ none | some x ↦ some (resolve_against s gap now c x) ])
        (get-facts s now c.section c.key m h)

  is_existing_duplicate-facts :
      (now : ℕ) (f : MemoryItem F) (m : LongTermMemory F)
      → IsIndexed s m
      → is_existing_duplicate s now f m
        ≡ some (is_duplicate_of s now f (decayed s now (facts s m (key_of s f))))
  unfolding is_existing_duplicate
  is_existing_duplicate-facts now f m h =
      ap (λ z. elim z [ none ↦ none | some x ↦ some (is_duplicate_of s now f x) ])
        (get-facts s now f.section f.key m h)

  resolve-length :
      (gap : F) (now : ℕ) (cs : List (MemoryItemCandidate F)) (m : LongTermMemory F)
      → IsIndexed s m
      → (fs : List (MemoryItem F)) × (resolve s gap now cs m ≡ some fs) × (length fs ≡ length cs)
  unfolding resolve
  resolve-length gap now [] m h = ([], refl, refl)
  resolve-length gap now (c ∷ cs) m h =
      let (fs, e, len) = resolve-length gap now cs m h in
      let existing = decayed s now (facts s m (index_key s c.section c.key)) in
      (
        (resolve_against s gap now c existing).winner ∷ fs,
        ap (λ z. z >>= λ r. resolve s gap now cs m >>= λ rest. some (r.winner ∷ rest))
              (resolve_one-facts gap now c m h)
            ∙ ap (λ z. z >>= λ rest. some ((resolve_against s gap now c existing).winner ∷ rest)) e,
        ap suc len,
      )

  not_duplicate-IsNew :
      (now : ℕ) (f : MemoryItem F) (m : LongTermMemory F)
      → is_duplicate_of s now f (decayed s now (facts s m (key_of s f))) ≡ false
      → IsNew now m f
  unfolding is_duplicate_of
  not_duplicate-IsNew now f m h x e =
      subst (λ z. is_semantic_match s now z f.value ≡ false) (decay-value now x)
        (or_false_right ((decay_confidence s now x).value =ˢ f.value)
          (is_semantic_match s now (decay_confidence s now x).value f.value)
          (subst (λ z. is_duplicate_of s now f (decayed s now z) ≡ false) e h))

  All-append :
      (P : MemoryItem F → Type 0) (xs : List (MemoryItem F)) (x : MemoryItem F)
      → All P xs
      → P x
      → All P (xs ++ x ∷ [])
  All-append P [] x h hx = (hx, tt)
  All-append P (y ∷ ys) x (hy, h) hx = (hy, All-append P ys x h hx)

  accept_or_reject-IsNew :
      (now : ℕ) (dup : Bool) (f : MemoryItem F) (m : LongTermMemory F) (d : DedupResult F)
      → All (IsNew now m) d.accepted
      → (dup ≡ false → IsNew now m f)
      → All (IsNew now m) (accept_or_reject dup f d).accepted
        × ((accept_or_reject dup f d).rejected + length (accept_or_reject dup f d).accepted
            ≡ suc (d.rejected + length d.accepted))
  accept_or_reject-IsNew now true f m d ok new = (ok, omega arith)
  accept_or_reject-IsNew now false f m d ok new = (
    All-append (IsNew now m) d.accepted f ok (new refl),
    omega (arith, length-append d.accepted (f ∷ [])),
  )

  dedup_from-IsNew :
      (now : ℕ) (fs : List (MemoryItem F)) (m : LongTermMemory F) (d : DedupResult F)
      → IsIndexed s m
      → All (IsNew now m) d.accepted
      → (d' : DedupResult F) × (dedup_from s now fs m d ≡ some d')
        × All (IsNew now m) d'.accepted
        × (d'.rejected + length d'.accepted ≡ d.rejected + length d.accepted + length fs)
  unfolding dedup_from
  dedup_from-IsNew now [] m d h ok = (d, refl, ok, omega arith)
  dedup_from-IsNew now (f ∷ fs) m d h ok =
      let existing = is_duplicate_of s now f (decayed s now (facts s m (key_of s f))) in
      let dup = existing || is_batch_duplicate s now f d.accepted in
      let (ok1, count1) = accept_or_reject-IsNew now dup f m d ok (λ fine.
        not_duplicate-IsNew now f m
          (or_false existing (is_batch_duplicate s now f d.accepted) fine)) in
      let (d', e, ok', count) = dedup_from-IsNew now fs m (accept_or_reject dup f d) h ok1 in
      (
        d',
        ap
              (λ z. z >>= λ existing'.
                dedup_from s now fs m
                  (accept_or_reject (existing' || is_batch_duplicate s now f d.accepted) f d))
              (is_existing_duplicate-facts now f m h)
            ∙ e,
        ok',
        omega (arith, count, count1),
      )

  store_step-Implements :
      (writes : Bool) (now : ℕ) (d : DedupResult F) (m : LongTermMemory F)
      → IsIndexed s m
      → (p : Piped F) × (store_step s writes now d m ≡ some p)
        × (p.items_rejected ≡ d.rejected)
        × Implements s (bulk_facts s now d.accepted (facts s m)) p.memory
  unfolding store_step bulk_facts
  store_step-Implements writes now d m h =
      let (m', e, ok) =
        bulk_store-Implements s writes now d.accepted m (facts s m) (h, λ j. refl) in
      elim (List-cases d.accepted) [
        | inl empty ↦ (
          record { items_stored = 0; items_rejected = d.rejected; memory = m },
          ground (arith, empty),
          refl,
          subst (λ z. Implements s (bulk_facts s now z (facts s m)) m) (sym empty) (h, λ j. refl),
        )
        | inr (x, xs, full) ↦ (
          record {
            items_stored = if writes then length d.accepted else 0;
            items_rejected = d.rejected;
            memory = m';
          },
          ground (arith, full, e),
          refl,
          ok,
        )
      ]

  -- The steps resolve, dedup and store never panic. Every candidate is either accepted or counted as
  -- rejected; the accepted ones go to the memory as BulkStore does it, and nothing else changes; and
  -- none of them is, by what the judge says in the dedup step, a rewording of the fact that the memory
  -- already has under its key.
  pub pipeline-IsNew :
      (writes : Bool) (gap : F) (t1 t2 t3 : ℕ) (cs : List (MemoryItemCandidate F))
      (m : LongTermMemory F)
      → IsIndexed s m
      → (p : Piped F) × (accepted : List (MemoryItem F)) × (pipeline s writes gap t1 t2 t3 cs m
          ≡ some p)
        × All (IsNew t2 m) accepted
        × (p.items_rejected + length accepted ≡ length cs)
        × Implements s (bulk_facts s t3 accepted (facts s m)) p.memory
  unfolding pipeline dedup_items
  pipeline-IsNew writes gap t1 t2 t3 cs m h =
      let (fs, e1, len) = resolve-length gap t1 cs m h in
      let (d, e2, new, count) =
        dedup_from-IsNew t2 fs m (record { accepted = []; rejected = 0 }) h tt in
      let (p, e3, rejected, stored) = store_step-Implements writes t3 d m h in
      (
        p,
        d.accepted,
        ap (λ z. z >>= λ fs'. dedup_items s t2 fs' m >>= λ d'. store_step s writes t3 d' m) e1
            ∙ ap (λ z. z >>= λ d'. store_step s writes t3 d' m) e2
            ∙ e3,
        new,
        omega (arith, count, len, rejected),
        stored,
      )
