-- ===== src/Longterm/Facts/View.antt =====
-- memory/longterm/fact.go: the facts as a map from index keys, which the index serves.
use kugelblitz.Common.{
  ℕ, ◌-◌, String, Option, none, some, List, [], ◌∷◌, ◌++◌, length, take, ◌=ˢ◌, if◌then◌else◌,
  get_elem?, set_at, get_elem-length, get_elem-set_at, get_elem-take, get_elem-push, ◌≡◌, ◌≢◌, sym,
  ◌∙◌, ap, subst, arith, eq_iff, some_eq, Bool-cases, Option-cases, inl, inr, text_eq_sound,
}
use kugelblitz.Longterm.Facts.{lookup_index, insert_index, delete_index}
use kugelblitz.Longterm.Facts.Index.{Agree, lookup-insert_index, lookup-delete_index}

-- The item that the index finds for a key.
unfoldable pub view : {A : Type 0} → List A → List (String × ℕ) → String → Option A
unfolding lookup_index get_elem?
view xs ix k = elim (lookup_index k ix) [ none ↦ none | some i ↦ get_elem? xs i ]

module _ {A : Type 0} (key : A → String) where
  pub view-found :
      (xs : List A) (ix : List (String × ℕ)) (k : String) (i : ℕ)
      → Agree key xs ix
      → lookup_index k ix ≡ some i
      → (x : A) × (get_elem? xs i ≡ some x) × (key x ≡ k) × (view xs ix k ≡ some x)
  unfolding view
  view-found xs ix k i h e = let (x, g, q) = h.sound k i e in (x, g, q, ground (arith, e, g))

  pub view-missing :
      (xs : List A) (ix : List (String × ℕ)) (k : String)
      → lookup_index k ix ≡ none
      → view xs ix k ≡ none
  unfolding view
  view-missing xs ix k e = ground (arith, e)

  pub view-push :
      (xs : List A) (ix : List (String × ℕ)) (x : A)
      → Agree key xs ix
      → (j : String)
      → view (xs ++ x ∷ []) (insert_index (key x) (length xs) ix) j
        ≡ (if key x =ˢ j then some x else view xs ix j)
  unfolding view
  view-push xs ix x h j =
      let found = lookup-insert_index j (key x) (length xs) ix in
      elim (Bool-cases (key x =ˢ j)) [
        | inl y ↦ ground (arith, found, y, get_elem-push xs x (length xs))
        | inr n ↦ elim (Option-cases (lookup_index j ix)) [
          | inl e ↦ ground (arith, found, n, e)
          | inr (i, e) ↦
              let (z, g, q) = h.sound j i e in
              ground (arith, found, n, e, get_elem-push xs x i, get_elem-length xs i z g)
        ]
      ]

  pub view-set_at :
      (xs : List A) (ix : List (String × ℕ)) (i : ℕ) (x : A)
      → Agree key xs ix
      → lookup_index (key x) ix ≡ some i
      → (j : String) → view (set_at i x xs) ix j ≡ (if key x =ˢ j then some x else view xs ix j)
  unfolding view
  view-set_at xs ix i x h old j =
      let (z, gi, qi) = h.sound (key x) i old in
      let below = get_elem-length xs i z gi in
      elim (Option-cases (lookup_index j ix)) [
        | inl e ↦ ground (arith, e, old, eq_iff (key x) j)
        | inr (n, e) ↦
            let (y, g, q) = h.sound j n e in
            let now = get_elem-set_at i x xs n in
            elim (Bool-cases (key x =ˢ j)) [
              | inl same ↦
                  let k_j : key x ≡ j = text_eq_sound (key x) j same in
                  let i_n : i ≡ n = some_eq (sym old ∙ ap (λ z. lookup_index z ix) k_j ∙ e) in
                  ground (arith, e, now, i_n, below, same)
              | inr differ ↦
                  let apart : i ≢ n = λ same.
                    let z_y = some_eq (sym gi ∙ ap (λ m. get_elem? xs m) same ∙ g) in
                    let k_j : key x ≡ j = sym qi ∙ ap key z_y ∙ q in
                    ground (arith, differ, (eq_iff (key x) j).1 k_j) in
                  ground (arith, e, now, apart, differ)
            ]
      ]

  pub view-swap :
      (xs : List A) (ix : List (String × ℕ)) (k : String) (i : ℕ) (x : A)
      → Agree key xs ix
      → lookup_index k ix ≡ some i
      → get_elem? xs (length xs - 1) ≡ some x
      → i ≢ length xs - 1
      → (j : String)
      → view (take (length xs - 1) (set_at i x xs)) (delete_index k (insert_index (key x) i ix)) j
        ≡ (if k =ˢ j then none else view xs ix j)
  unfolding view
  view-swap xs ix k i x h old last apart j =
      let dropped = lookup-delete_index j k (insert_index (key x) i ix) in
      let moved = lookup-insert_index j (key x) i ix in
      let x_last = h.complete (length xs - 1) x last in
      let (z, gi, qi) = h.sound k i old in
      let below = get_elem-length xs i z gi in
      elim (Bool-cases (k =ˢ j)) [
        | inl gone ↦ ground (arith, dropped, gone)
        | inr stays ↦ elim (Bool-cases (key x =ˢ j)) [
          | inl same ↦
              let k_j : key x ≡ j = text_eq_sound (key x) j same in
              let there : lookup_index j ix ≡ some (length xs - 1) =
                subst (λ z. lookup_index z ix ≡ some (length xs - 1)) k_j x_last in
              let cut = get_elem-take (length xs - 1) (set_at i x xs) i in
              let now = get_elem-set_at i x xs i in
              ground (arith, dropped, moved, stays, same, there, cut, now, below, apart, last)
          | inr differ ↦ elim (Option-cases (lookup_index j ix)) [
            | inl e ↦ ground (arith, dropped, moved, stays, differ, e)
            | inr (n, e) ↦
                let (y, g, q) = h.sound j n e in
                let within = get_elem-length xs n y g in
                let cut = get_elem-take (length xs - 1) (set_at i x xs) n in
                let now = get_elem-set_at i x xs n in
                let not_last : n ≢ length xs - 1 = λ same.
                  let y_x : y ≡ x = some_eq (sym g ∙ ap (λ z. get_elem? xs z) same ∙ last) in
                  ground (arith, differ, (eq_iff (key x) j).1 (sym (ap key y_x) ∙ q)) in
                let not_i : n ≢ i = λ same.
                  let y_z : y ≡ z = some_eq (sym g ∙ ap (λ z. get_elem? xs z) same ∙ gi) in
                  ground (arith, stays, (eq_iff k j).1 (sym qi ∙ sym (ap key y_z) ∙ q)) in
                ground (arith, dropped, moved, stays, differ, e, cut, now, within, not_last, not_i)
          ]
        ]
      ]

  pub view-take :
      (xs : List A) (ix : List (String × ℕ)) (k : String)
      → Agree key xs ix
      → lookup_index k ix ≡ some (length xs - 1)
      → (j : String)
      → view (take (length xs - 1) xs) (delete_index k ix) j
        ≡ (if k =ˢ j then none else view xs ix j)
  unfolding view
  view-take xs ix k h old j =
      let dropped = lookup-delete_index j k ix in
      let (z, gk, qk) = h.sound k (length xs - 1) old in
      elim (Bool-cases (k =ˢ j)) [
        | inl gone ↦ ground (arith, dropped, gone)
        | inr stays ↦ elim (Option-cases (lookup_index j ix)) [
          | inl e ↦ ground (arith, dropped, stays, e)
          | inr (n, e) ↦
              let (y, g, q) = h.sound j n e in
              let within = get_elem-length xs n y g in
              let cut = get_elem-take (length xs - 1) xs n in
              let not_last : n ≢ length xs - 1 = λ same.
                let y_z : y ≡ z = some_eq (sym g ∙ ap (λ z. get_elem? xs z) same ∙ gk) in
                ground (arith, stays, (eq_iff k j).1 (sym qk ∙ sym (ap key y_z) ∙ q)) in
              ground (arith, dropped, stays, e, cut, within, not_last)
        ]
      ]
