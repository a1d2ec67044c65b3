-- ===== src/Working/Validate/Visit.antt =====
-- memory/working/working.go: the search of Validate when it succeeds, and what it has visited.
use mathlib.Core.WellFounded.{Acc}
use mathlib.Core.List.Memᴰ
use kugelblitz.Common.{
  ℕ, zero, suc, String, List, [], ◌∷◌, Memᴰ, ◌≡◌, refl, ◌≢◌, ◌⊎◌, inl, inr, arith, eq_iff,
  Bool-cases, ◌=ˢ◌, text_eq_sound, subst,
}
use kugelblitz.Working.Validate.{
  Graph, Color, white, gray, black, Colors, paint, Visited, visited, stopped, visit_parents, finish,
  dfs, visit_all,
}

-- `a` cannot start an endless chain of parents.
abbrev pub Grounded : Graph → String → Type 0
Grounded g = Acc (λ b a. Memᴰ b (g a))

pub Color-cases : (k : Color) → (k ≡ white) ⊎ ((k ≡ gray) ⊎ (k ≡ black))
Color-cases white = inl refl
Color-cases gray = inr (inl refl)
Color-cases black = inr (inr refl)

-- A call neither loses nor adds a gray vertex, and keeps the black ones.
pub record Keeps (c c' : Colors) : Type 0 where
  pub black_kept : (v : String) → c v ≡ black → c' v ≡ black
  pub gray_kept : (v : String) → c v ≡ gray → c' v ≡ gray
  pub gray_old : (v : String) → c' v ≡ gray → c v ≡ gray

pub Keeps-refl : (c : Colors) → Keeps c c
Keeps-refl c = record { black_kept = λ v h. h; gray_kept = λ v h. h; gray_old = λ v h. h }

pub Keeps-trans : {c₁ c₂ c₃ : Colors} → Keeps c₁ c₂ → Keeps c₂ c₃ → Keeps c₁ c₃
Keeps-trans k l = record {
  black_kept = λ v h. l.black_kept v (k.black_kept v h);
  gray_kept = λ v h. l.gray_kept v (k.gray_kept v h);
  gray_old = λ v h. k.gray_old v (l.gray_old v h);
}

-- Between the two paintings of `id`, which was white.
pub Keeps-paint :
    (c c' : Colors) (id : String)
    → c id ≡ white
    → Keeps (paint c id gray) c'
    → Keeps c (paint c' id black)
Keeps-paint c c' id w k = record {
  black_kept = λ v h. ground (arith, eq_iff id v, k.black_kept v);
  gray_kept = λ v h. ground (arith, eq_iff id v, k.gray_kept v);
  gray_old = λ v h. ground (arith, eq_iff id v, k.gray_old v);
}

module _ (go : String → Colors → Visited) where
  pub visit_parents_step :
      (p : String) (ps : List String) (c c' : Colors)
      → visit_parents go (p ∷ ps) c ≡ visited c'
      → ((c p ≡ black) × (visit_parents go ps c ≡ visited c'))
        ⊎ ((c p ≡ white)
            × ((c₁ : Colors) × (go p c ≡ visited c₁) × (visit_parents go ps c₁ ≡ visited c')))
  unfolding visit_parents
  visit_parents_step p ps c c' h = ground arith

  pub visit_all_step :
      (p : String) (ps : List String) (c c' : Colors)
      → visit_all go (p ∷ ps) c ≡ visited c'
      → ((c p ≢ white) × (visit_all go ps c ≡ visited c'))
        ⊎ ((c p ≡ white)
            × ((c₁ : Colors) × (go p c ≡ visited c₁) × (visit_all go ps c₁ ≡ visited c')))
  unfolding visit_all
  visit_all_step p ps c c' h = ground arith

-- `P` is what the search shows of a black vertex.
abbrev pub Settled : (String → Type 0) → Colors → Type 0
Settled P c = (v : String) → c v ≡ black → P v

-- What a successful visit of a white vertex gives.
pub record Visit (P : String → Type 0) (c c' : Colors) : Type 0 where
  pub keeps : Keeps c c'
  pub settled : Settled P c'

abbrev pub IsVisitor : (String → Type 0) → (String → Colors → Visited) → Type 0
IsVisitor P go =
    (p : String) (c c' : Colors)
    → c p ≡ white
    → go p c ≡ visited c'
    → Settled P c
    → Visit P c c' × (c' p ≡ black)

visited_eq : {c c' : Colors} → visited c ≡ visited c' → c ≡ c'
visited_eq h = cc

black_of : (k : Color) → k ≢ white → k ≢ gray → k ≡ black
black_of k w n = ground arith

paint_self : (c : Colors) (id : String) (k : Color) → paint c id k id ≡ k
paint_self c id k = ground (arith, eq_iff id id)

Settled-gray :
    (P : String → Type 0) (c : Colors) (id : String) → Settled P c → Settled P (paint c id gray)
Settled-gray P c id s v h = s v (ground arith)

Settled-black :
    (P : String → Type 0) (c : Colors) (id : String)
    → Settled P c
    → P id
    → Settled P (paint c id black)
Settled-black P c id s a v h = elim (Bool-cases (id =ˢ v)) [
  | inl same ↦ subst P (text_eq_sound id v same) a
  | inr other ↦ s v (rw other at h)
]

finish_inv :
    (id : String) (r : Visited) {c' : Colors}
    → finish id r ≡ visited c'
    → (c₁ : Colors) × (r ≡ visited c₁) × (paint c₁ id black ≡ c')
finish_inv id (visited c) h = (c, refl, visited_eq h)
finish_inv id (stopped e) h = cc

module _ (P : String → Type 0) (go : String → Colors → Visited) (good : IsVisitor P go) where
  pub visit_parents-Visit :
      (ps : List String) (c c' : Colors)
      → visit_parents go ps c ≡ visited c'
      → Settled P c
      → Visit P c c' × ((p : String) → Memᴰ p ps → c' p ≡ black)
  unfolding visit_parents
  visit_parents-Visit [] c c' h s =
      subst (λ d. Visit P c d × ((p : String) → Memᴰ p [] → d p ≡ black)) (visited_eq h)
        (record { keeps = Keeps-refl c; settled = s }, λ p m. elim m [ ])
  visit_parents-Visit (p ∷ ps) c c' h s = elim (visit_parents_step go p ps c c' h) [
    | inl (b, rest) ↦
        let (v, all) = visit_parents-Visit ps c c' rest s in
        (
          v,
          λ q m. elim (Memᴰ.cases_cons m) [
            | inl e ↦ rw e (v.keeps.black_kept p b)
            | inr m' ↦ all q m'
          ],
        )
    | inr (w, (c₁, first, rest)) ↦
        let (v₁, b) = good p c c₁ w first s in
        let (v, all) = visit_parents-Visit ps c₁ c' rest v₁.settled in
        (
          record { keeps = Keeps-trans v₁.keeps v.keeps; settled = v.settled },
          λ q m. elim (Memᴰ.cases_cons m) [
            | inl e ↦ rw e (v.keeps.black_kept p b)
            | inr m' ↦ all q m'
          ],
        )
  ]

  pub visit_all-Visit :
      (ps : List String) (c c' : Colors)
      → visit_all go ps c ≡ visited c'
      → Settled P c
      → ((v : String) → c v ≢ gray)
      → Visit P c c' × ((p : String) → Memᴰ p ps → c' p ≡ black)
  unfolding visit_all
  visit_all-Visit [] c c' h s n =
      subst (λ d. Visit P c d × ((p : String) → Memᴰ p [] → d p ≡ black)) (visited_eq h)
        (record { keeps = Keeps-refl c; settled = s }, λ p m. elim m [ ])
  visit_all-Visit (p ∷ ps) c c' h s n = elim (visit_all_step go p ps c c' h) [
    | inl (b, rest) ↦
        let (v, all) = visit_all-Visit ps c c' rest s n in
        (
          v,
          λ q m. elim (Memᴰ.cases_cons m) [
            | inl e ↦ rw e (v.keeps.black_kept p (black_of (c p) b (n p)))
            | inr m' ↦ all q m'
          ],
        )
    | inr (w, (c₁, first, rest)) ↦
        let (v₁, b) = good p c c₁ w first s in
        let (v, all) =
          visit_all-Visit ps c₁ c' rest v₁.settled (λ u e. n u (v₁.keeps.gray_old u e)) in
        (
          record { keeps = Keeps-trans v₁.keeps v.keeps; settled = v.settled },
          λ q m. elim (Memᴰ.cases_cons m) [
            | inl e ↦ rw e (v.keeps.black_kept p b)
            | inr m' ↦ all q m'
          ],
        )
  ]

dfs_step :
    (fuel : ℕ) (g : Graph) (id : String) (c c' : Colors)
    → dfs (suc fuel) g id c ≡ visited c'
    → (c₁ : Colors) × (visit_parents (dfs fuel g) (g id) (paint c id gray) ≡ visited c₁)
      × (paint c₁ id black ≡ c')
unfolding dfs
dfs_step fuel g id c c' h = finish_inv id (visit_parents (dfs fuel g) (g id) (paint c id gray)) h

-- `P` holds of a vertex when it holds of its parents.
abbrev pub IsClosed : Graph → (String → Type 0) → Type 0
IsClosed g P = (a : String) → ((b : String) → Memᴰ b (g a) → P b) → P a

pub dfs-IsVisitor :
    (P : String → Type 0) (fuel : ℕ) (g : Graph) → IsClosed g P → IsVisitor P (dfs fuel g)
unfolding dfs
dfs-IsVisitor P zero g closed id c c' w h s = cc
dfs-IsVisitor P (suc fuel) g closed id c c' w h s =
    let (c₁, loop, e) = dfs_step fuel g id c c' h in
    let (v, all) =
      visit_parents-Visit P (dfs fuel g) (dfs-IsVisitor P fuel g closed) (g id) (paint c id gray) c₁
        loop (Settled-gray P c id s) in
    subst (λ d. Visit P c d × (d id ≡ black)) e
      (
        record {
          keeps = Keeps-paint c c₁ id w v.keeps;
          settled = Settled-black P c₁ id v.settled (closed id (λ p m. v.settled p (all p m)));
        },
        paint_self c₁ id black,
      )

pub Grounded-IsClosed : (g : Graph) → IsClosed g (Grounded g)
Grounded-IsClosed g a h = Acc.intro a h

-- A successful call loses no color, whatever the graph.
pub dfs-Keeps :
    (fuel : ℕ) (g : Graph) (p : String) (c c' : Colors)
    → c p ≡ white
    → dfs fuel g p c ≡ visited c'
    → Keeps c c'
dfs-Keeps fuel g p c c' w h =
    (dfs-IsVisitor (λ _. Unit) fuel g (λ _ _. tt) p c c' w h (λ _ _. tt)).0.keeps
