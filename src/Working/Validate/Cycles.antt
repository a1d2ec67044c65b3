-- ===== src/Working/Validate/Cycles.antt =====
-- memory/working/working.go: the search of Validate when it reports a cycle.
use mathlib.Core.WellFounded.{Acc}
use kugelblitz.Common.{
  ℕ, zero, suc, String, List, [], ◌∷◌, Memᴰ, ◌≡◌, ◌≢◌, refl, sym, ◌⊎◌, inl, inr, arith, Bool-cases,
  ◌=ˢ◌, text_eq_sound, subst,
}
use kugelblitz.Working.Validate.{
  ValidateError, cycle, out_of_fuel, Graph, white, gray, Colors, paint, Visited, visited, stopped,
  visit_parents, finish, dfs, visit_all,
}
use kugelblitz.Working.Validate.Visit.{Grounded, Keeps, dfs-Keeps}

-- One parent after another, at least one step.
pub data Walk (g : Graph) : String → String → Type 0 where
  one : {a b : String} → Memᴰ b (g a) → Walk g a b
  more : {a b c : String} → Memᴰ b (g a) → Walk g b c → Walk g a c

Walk-snoc : {g : Graph} {a b c : String} → Walk g a b → Memᴰ c (g b) → Walk g a c
Walk-snoc (one m) n = more m (one n)
Walk-snoc (more m w) n = more m (Walk-snoc w n)

pub not-Walk_self : {g : Graph} (a : String) → Grounded g a → {b : String} → Walk g a b → a ≡ b → ⊥
not-Walk_self {g} a (Acc.intro _ smaller) (one {b = b} m) e =
    not-Walk_self b (smaller b m) (one (subst (λ x. Memᴰ b (g x)) e m)) refl
not-Walk_self {g} a (Acc.intro _ smaller) (more {b = b} m w) e =
    not-Walk_self b (smaller b m) (Walk-snoc w (subst (λ x. Memᴰ b (g x)) e m)) refl

-- Every gray vertex leads to `id`, or is `id`.
abbrev Trail : Graph → Colors → String → Type 0
Trail g c id = (v : String) → c v ≡ gray → (v ≡ id) ⊎ Walk g v id

-- Every gray vertex leads to the white vertex that is visited next.
abbrev pub Approach : Graph → Colors → String → Type 0
Approach g c p = (v : String) → c v ≡ gray → Walk g v p

Trail-step :
    (g : Graph) (c : Colors) (id p : String) → Trail g c id → Memᴰ p (g id) → Approach g c p
Trail-step g c id p t m v h = elim (t v h) [ inl e ↦ one (rw e m) | inr w ↦ Walk-snoc w m ]

Approach-paint :
    (g : Graph) (c : Colors) (id : String) → Approach g c id → Trail g (paint c id gray) id
Approach-paint g c id a v h = elim (Bool-cases (id =ˢ v)) [
  | inl same ↦ inl (sym (text_eq_sound id v same))
  | inr other ↦ inr (a v (rw other at h))
]

module _ (go : String → Colors → Visited) where
  pub visit_parents_stop :
      (p : String) (ps : List String) (c : Colors) (e : ValidateError)
      → visit_parents go (p ∷ ps) c ≡ stopped e
      → ((c p ≡ gray) × (e ≡ cycle p))
        ⊎ (((c p ≡ white) × (go p c ≡ stopped e))
            ⊎ (((c p ≡ white)
                  × ((c₁ : Colors) × (go p c ≡ visited c₁) × (visit_parents go ps c₁ ≡ stopped e)))
                ⊎ (visit_parents go ps c ≡ stopped e)))
  unfolding visit_parents
  visit_parents_stop p ps c e h = ground arith

  pub visit_all_stop :
      (p : String) (ps : List String) (c : Colors) (e : ValidateError)
      → visit_all go (p ∷ ps) c ≡ stopped e
      → ((c p ≡ white) × (go p c ≡ stopped e))
        ⊎ (((c p ≡ white)
              × ((c₁ : Colors) × (go p c ≡ visited c₁) × (visit_all go ps c₁ ≡ stopped e)))
            ⊎ (visit_all go ps c ≡ stopped e))
  unfolding visit_all
  visit_all_stop p ps c e h = ground arith

-- The errors of a search that are cycles name a vertex that leads to itself.
abbrev IsHonest : Graph → (String → Colors → Visited) → Type 0
IsHonest g go =
    (p q : String) (c : Colors)
    → c p ≡ white
    → go p c ≡ stopped (cycle q)
    → Approach g c p
    → Walk g q q

abbrev pub KeepsAll : (String → Colors → Visited) → Type 0
KeepsAll go = (p : String) (c c' : Colors) → c p ≡ white → go p c ≡ visited c' → Keeps c c'

cycle_eq : {p q : String} → cycle p ≡ cycle q → p ≡ q
cycle_eq h = cc

module _ (g : Graph) (go : String → Colors → Visited) (honest : IsHonest g go)
    (keeps : KeepsAll go) where
  visit_parents-Walk :
      (id q : String) (ps : List String) (c : Colors)
      → ((p : String) → Memᴰ p ps → Memᴰ p (g id))
      → visit_parents go ps c ≡ stopped (cycle q)
      → Trail g c id
      → Walk g q q
  unfolding visit_parents
  visit_parents-Walk id q [] c sub h t = cc
  visit_parents-Walk id q (p ∷ ps) c sub h t =
      let m = sub p (Memᴰ.head refl) in
      let rest : (r : String) → Memᴰ r ps → Memᴰ r (g id) = λ r n. sub r (Memᴰ.tail n) in
      elim (visit_parents_stop go p ps c (cycle q) h) [
        | inl (k, e) ↦ rw (cycle_eq e) (Trail-step g c id p t m p k)
        | inr (inl (w, stop)) ↦ honest p q c w stop (Trail-step g c id p t m)
        | inr (inr (inl (w, (c₁, first, stop)))) ↦
            visit_parents-Walk id q ps c₁ rest stop
              (λ v k. t v ((keeps p c c₁ w first).gray_old v k))
        | inr (inr (inr stop)) ↦ visit_parents-Walk id q ps c rest stop t
      ]

  pub visit_all-Walk :
      (q : String) (ps : List String) (c : Colors)
      → visit_all go ps c ≡ stopped (cycle q)
      → ((v : String) → c v ≢ gray)
      → Walk g q q
  unfolding visit_all
  visit_all-Walk q [] c h n = cc
  visit_all-Walk q (p ∷ ps) c h n = elim (visit_all_stop go p ps c (cycle q) h) [
    | inl (w, stop) ↦ honest p q c w stop (λ v k. absurd (n v k))
    | inr (inl (w, (c₁, first, stop))) ↦
        visit_all-Walk q ps c₁ stop (λ v k. n v ((keeps p c c₁ w first).gray_old v k))
    | inr (inr stop) ↦ visit_all-Walk q ps c stop n
  ]

finish_stop :
    (id : String) (r : Visited) (e : ValidateError) → finish id r ≡ stopped e → r ≡ stopped e
finish_stop id (visited c) e h = cc
finish_stop id (stopped f) e h = h

pub dfs_stop :
    (fuel : ℕ) (g : Graph) (id : String) (c : Colors) (e : ValidateError)
    → dfs (suc fuel) g id c ≡ stopped e
    → visit_parents (dfs fuel g) (g id) (paint c id gray) ≡ stopped e
unfolding dfs
dfs_stop fuel g id c e h = finish_stop id _ e h

dfs-IsHonest : (fuel : ℕ) (g : Graph) → IsHonest g (dfs fuel g)
unfolding dfs
dfs-IsHonest zero g id q c w h a = cc
dfs-IsHonest (suc fuel) g id q c w h a =
    visit_parents-Walk g (dfs fuel g) (dfs-IsHonest fuel g) (dfs-Keeps fuel g) id q (g id)
      (paint c id gray) (λ p m. m) (dfs_stop fuel g id c (cycle q) h) (Approach-paint g c id a)

-- A cycle that the search reports is one.
pub search-Walk :
    (fuel : ℕ) (g : Graph) (order : List String) (q : String)
    → visit_all (dfs fuel g) order (λ _. white) ≡ stopped (cycle q)
    → Walk g q q
search-Walk fuel g order q h =
    visit_all-Walk g (dfs fuel g) (dfs-IsHonest fuel g) (dfs-Keeps fuel g) q order _ h (λ v k. cc)

-- The search has no other errors.
abbrev pub IsSearchError : ValidateError → Type 0
IsSearchError (cycle q) = Unit
IsSearchError out_of_fuel = Unit
IsSearchError _ = ⊥

stopped_eq : {e f : ValidateError} → stopped e ≡ stopped f → e ≡ f
stopped_eq h = cc

module _ (go : String → Colors → Visited)
    (search_errors : (p : String) (c : Colors) (e : ValidateError)
      → go p c ≡ stopped e
      → IsSearchError e) where
  visit_parents-errors :
      (ps : List String) (c : Colors) (e : ValidateError)
      → visit_parents go ps c ≡ stopped e
      → IsSearchError e
  unfolding visit_parents
  visit_parents-errors [] c e h = absurd (cc)
  visit_parents-errors (p ∷ ps) c e h = elim (visit_parents_stop go p ps c e h) [
    | inl (k, same) ↦ subst IsSearchError (sym same) tt
    | inr (inl (w, stop)) ↦ search_errors p c e stop
    | inr (inr (inl (w, (c₁, first, stop)))) ↦ visit_parents-errors ps c₁ e stop
    | inr (inr (inr stop)) ↦ visit_parents-errors ps c e stop
  ]

  visit_all-errors :
      (ps : List String) (c : Colors) (e : ValidateError)
      → visit_all go ps c ≡ stopped e
      → IsSearchError e
  unfolding visit_all
  visit_all-errors [] c e h = absurd (cc)
  visit_all-errors (p ∷ ps) c e h = elim (visit_all_stop go p ps c e h) [
    | inl (w, stop) ↦ search_errors p c e stop
    | inr (inl (w, (c₁, first, stop))) ↦ visit_all-errors ps c₁ e stop
    | inr (inr stop) ↦ visit_all-errors ps c e stop
  ]

dfs-errors :
    (fuel : ℕ) (g : Graph) (p : String) (c : Colors) (e : ValidateError)
    → dfs fuel g p c ≡ stopped e
    → IsSearchError e
unfolding dfs
dfs-errors zero g p c e h = subst IsSearchError (stopped_eq h) tt
dfs-errors (suc fuel) g p c e h =
    visit_parents-errors (dfs fuel g) (dfs-errors fuel g) (g p) _ e (dfs_stop fuel g p c e h)

pub search-errors :
    (fuel : ℕ) (g : Graph) (order : List String) (e : ValidateError)
    → visit_all (dfs fuel g) order (λ _. white) ≡ stopped e
    → IsSearchError e
search-errors fuel g order e h = visit_all-errors (dfs fuel g) (dfs-errors fuel g) order _ e h
