-- ===== src/Longterm/Facts/Index.antt =====
-- memory/longterm/fact.go: the index agrees with the items.
use kugelblitz.Common.{
  ℕ, ◌-◌, ◌<◌, String, true, none, some, List, [], ◌∷◌, ◌++◌, length, take, ◌==◌, ◌=ˢ◌,
  if◌then◌else◌, get_elem?, set_at, get_elem-length, get_elem-set_at, get_elem-take, get_elem-push,
  ◌≡◌, ◌≢◌, sym, ◌∙◌, ap, subst, arith, eq_iff, text_eq_refl, some_eq, Bool-cases, inl, inr,
  text_eq_sound, text_eq_false, false≢true,
}
use kugelblitz.Longterm.Facts.{lookup_index, insert_index, delete_index}

pub lookup-insert_index :
    (j k : String) (n : ℕ) (ix : List (String × ℕ))
    → lookup_index j (insert_index k n ix) ≡ (if k =ˢ j then some n else lookup_index j ix)
unfolding lookup_index insert_index
lookup-insert_index j k n [] = ground arith
lookup-insert_index j k n ((l, i) ∷ ix) =
    ground (arith, lookup-insert_index j k n ix, eq_iff l k, eq_iff k j)

pub lookup-delete_index :
    (j k : String) (ix : List (String × ℕ))
    → lookup_index j (delete_index k ix) ≡ (if k =ˢ j then none else lookup_index j ix)
unfolding lookup_index delete_index
lookup-delete_index j k [] = ground arith
lookup-delete_index j k ((l, i) ∷ ix) =
    ground (arith, lookup-delete_index j k ix, eq_iff l k, eq_iff k j)

text_eq_true : {a b : String} → a ≡ b → (a =ˢ b) ≡ true
text_eq_true {a} {b} h = (eq_iff a b).1 h

module _ {A : Type 0} (key : A → String) where
  -- The index finds each item at its key, and nothing else.
  pub record Agree (xs : List A) (ix : List (String × ℕ)) : Type 0 where
    pub sound :
        (k : String) (i : ℕ)
        → lookup_index k ix ≡ some i
        → (x : A) × (get_elem? xs i ≡ some x) × (key x ≡ k)
    pub complete : (i : ℕ) (x : A) → get_elem? xs i ≡ some x → lookup_index (key x) ix ≡ some i

  pub push-Agree :
      (xs : List A) (ix : List (String × ℕ)) (x : A)
      → Agree xs ix
      → lookup_index (key x) ix ≡ none
      → Agree (xs ++ x ∷ []) (insert_index (key x) (length xs) ix)
  push-Agree xs ix x h fresh = record {
    sound = λ k i e. elim (Bool-cases (key x =ˢ k)) [
      | inl y ↦
          let at_end = get_elem-push xs x i in
          let found = lookup-insert_index k (key x) (length xs) ix in
          (x, ground (arith, at_end, found, e, y), text_eq_sound (key x) k y)
      | inr n ↦
          let found = lookup-insert_index k (key x) (length xs) ix in
          let (y, g, q) = h.sound k i (ground (arith, found, e, n)) in
          let within = get_elem-length xs i y g in
          let before = get_elem-push xs x i in (y, ground (arith, before, within, g), q)
    ];
    complete = λ i y e.
        let before = get_elem-push xs x i in
        let found = lookup-insert_index (key y) (key x) (length xs) ix in
        elim (Bool-cases (length xs == i)) [
          | inl here ↦
              let same : x ≡ y = some_eq (ground (arith, before, e, here)) in
              let self = text_eq_refl (key x) in
              subst (λ z. lookup_index (key z) (insert_index (key x) (length xs) ix) ≡ some i) same
                (ground (arith, lookup-insert_index (key x) (key x) (length xs) ix, self, here))
          | inr n ↦
              let old = h.complete i y (ground (arith, before, e, n)) in
              ground (arith, found, old, fresh, eq_iff (key x) (key y))
        ];
  }

  pub set_at-Agree :
      (xs : List A) (ix : List (String × ℕ)) (i : ℕ) (x : A)
      → Agree xs ix
      → lookup_index (key x) ix ≡ some i
      → Agree (set_at i x xs) ix
  set_at-Agree xs ix i x h old = record {
    sound = λ k j e.
        let (y, g, q) = h.sound k j e in
        let within = get_elem-length xs j y g in
        let now = get_elem-set_at i x xs j in
        elim (Bool-cases (i == j)) [
          | inl here ↦
              let same : i ≡ j = ground (arith, here) in
              let (y', g', q') = h.sound (key x) i old in
              (
                x,
                ground (arith, now, here, within),
                sym q' ∙ ap key (some_eq (sym g' ∙ ap (λ z. get_elem? xs z) same ∙ g)) ∙ q,
              )
          | inr n ↦ (y, ground (arith, now, n, g), q)
        ];
    complete = λ j y e.
        let now = get_elem-set_at i x xs j in
        elim (Bool-cases (i == j)) [
          | inl here ↦ ground (arith, now, here, e, old)
          | inr n ↦ h.complete j y (ground (arith, now, n, e))
        ];
  }

  -- The last item moves to the place of the one that goes.
  pub swap-Agree :
      (xs : List A) (ix : List (String × ℕ)) (k : String) (i : ℕ) (x : A)
      → Agree xs ix
      → lookup_index k ix ≡ some i
      → get_elem? xs (length xs - 1) ≡ some x
      → i ≢ length xs - 1
      → Agree (take (length xs - 1) (set_at i x xs)) (delete_index k (insert_index (key x) i ix))
  swap-Agree xs ix k i x h old last apart = record {
    sound = λ j n e.
        let (z, gi, qi) = h.sound k i old in
        let below = get_elem-length xs i z gi in
        let dropped = lookup-delete_index j k (insert_index (key x) i ix) in
        let moved = lookup-insert_index j (key x) i ix in
        let cut = get_elem-take (length xs - 1) (set_at i x xs) n in
        let now = get_elem-set_at i x xs n in
        elim (Bool-cases (key x =ˢ j)) [
          | inl y ↦ (
            x,
            ground (arith, dropped, moved, e, y, cut, now, below, apart),
            text_eq_sound (key x) j y,
          )
          | inr m ↦
              let (y, g, q) = h.sound j n (ground (arith, dropped, moved, e, m)) in
              let within = get_elem-length xs n y g in
              let not_last : n ≢ length xs - 1 = λ same.
                let y_x : y ≡ x = some_eq (sym g ∙ ap (λ z. get_elem? xs z) same ∙ last) in
                false≢true (sym m ∙ text_eq_true (sym (ap key y_x) ∙ q)) in
              let not_i : n ≢ i = λ same.
                let y_z : y ≡ z = some_eq (sym g ∙ ap (λ z. get_elem? xs z) same ∙ gi) in
                let k_j : k ≡ j = sym qi ∙ sym (ap key y_z) ∙ q in
                ground (arith, dropped, e, text_eq_true k_j) in
              (y, ground (arith, cut, now, g, within, not_last, not_i), q)
        ];
    complete = λ n y e.
        let dropped = lookup-delete_index (key y) k (insert_index (key x) i ix) in
        let moved = lookup-insert_index (key y) (key x) i ix in
        let cut = get_elem-take (length xs - 1) (set_at i x xs) n in
        let now = get_elem-set_at i x xs n in
        let x_last = h.complete (length xs - 1) x last in
        elim (Bool-cases (i == n)) [
          | inl here ↦
              let same : x ≡ y = some_eq (ground (arith, cut, now, e, here)) in
              let not_k : k ≢ key y = λ q. apart (
                some_eq (sym old ∙ ap (λ z. lookup_index z ix) (q ∙ sym (ap key same)) ∙ x_last)) in
              let differs = text_eq_false k (key y) not_k in
              let itself = text_eq_true (ap key same) in
              ground (arith, dropped, moved, differs, itself, here)
          | inr away ↦
              let g : get_elem? xs n ≡ some y = ground (arith, cut, now, e, away) in
              let there = h.complete n y g in
              let below : n < length xs - 1 = ground (arith, cut, e) in
              let not_k : k ≢ key y = λ q.
                let same : i ≡ n = some_eq (sym old ∙ ap (λ z. lookup_index z ix) q ∙ there) in
                ground (arith, away, same) in
              let not_x : key x ≢ key y = λ q.
                let same : length xs - 1 ≡ n =
                  some_eq (sym x_last ∙ ap (λ z. lookup_index z ix) q ∙ there) in
                omega (arith, same, below) in
              let differs = text_eq_false k (key y) not_k in
              let differs' = text_eq_false (key x) (key y) not_x in
              ground (arith, dropped, moved, differs, differs', there)
        ];
  }

  pub take-Agree :
      (xs : List A) (ix : List (String × ℕ)) (k : String)
      → Agree xs ix
      → lookup_index k ix ≡ some (length xs - 1)
      → Agree (take (length xs - 1) xs) (delete_index k ix)
  take-Agree xs ix k h old = record {
    sound = λ j n e.
        let dropped = lookup-delete_index j k ix in
        let (y, g, q) = h.sound j n (ground (arith, dropped, e)) in
        let (z, gk, qk) = h.sound k (length xs - 1) old in
        let within = get_elem-length xs n y g in
        let cut = get_elem-take (length xs - 1) xs n in
        let not_last : n ≢ length xs - 1 = λ same.
          let y_z : y ≡ z = some_eq (sym g ∙ ap (λ z. get_elem? xs z) same ∙ gk) in
          let k_j : k ≡ j = sym qk ∙ sym (ap key y_z) ∙ q in
          ground (arith, dropped, e, text_eq_true k_j) in
        (y, ground (arith, cut, g, within, not_last), q);
    complete = λ n y e.
        let dropped = lookup-delete_index (key y) k ix in
        let cut = get_elem-take (length xs - 1) xs n in
        let g : get_elem? xs n ≡ some y = ground (arith, cut, e) in
        let there = h.complete n y g in
        let below : n < length xs - 1 = ground (arith, cut, e) in
        let not_k : k ≢ key y = λ q.
          let same : length xs - 1 ≡ n =
            some_eq (sym old ∙ ap (λ z. lookup_index z ix) q ∙ there) in
          omega (arith, same, below) in
        ground (arith, dropped, text_eq_false k (key y) not_k, there);
  }
