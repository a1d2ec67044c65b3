-- ===== src/Working/Validate/Fuel.antt =====
-- memory/working/working.go: the fuel of the search of Validate against the white vertices.
use kugelblitz.Common.{
  ℕ, zero, suc, ◌≤◌, ◌<◌, String, List, [], ◌∷◌, Memᴰ, ◌≡◌, ◌≢◌, refl, inl, inr, arith, eq_iff,
  length, ap,
}
use kugelblitz.Working.Validate.{
  out_of_fuel, Graph, Color, white, gray, black, Colors, paint, Visited, stopped, visit_parents,
  dfs, visit_all,
}
use kugelblitz.Working.Validate.Visit.{Color-cases, Keeps, dfs-Keeps}
use kugelblitz.Working.Validate.Cycles.{KeepsAll, visit_parents_stop, visit_all_stop, dfs_stop}

abbrev add_white : Color → ℕ → ℕ
add_white white n = suc n
add_white _ n = n

whites : Colors → List String → ℕ
whites c [] = 0
whites c (v ∷ vs) = add_white (c v) (whites c vs)

whites-le-length : (c : Colors) (vs : List String) → whites c vs ≤ length vs
unfolding whites
whites-le-length c [] = omega arith
whites-le-length c (v ∷ vs) = ground (arith, whites-le-length c vs)

-- `c'` has no white vertex that `c` has not.
abbrev Darker : Colors → Colors → Type 0
Darker c c' = (v : String) → c' v ≡ white → c v ≡ white

Darker-Keeps : {c c' : Colors} → Keeps c c' → Darker c c'
Darker-Keeps {c} {c'} k v h = elim (Color-cases (c v)) [
  | inl w ↦ w
  | inr (inl e) ↦ absurd (not_gray (c' v) h (k.gray_kept v e))
  | inr (inr e) ↦ absurd (not_black (c' v) h (k.black_kept v e))
]
  where
    not_gray : (x : Color) → x ≡ white → x ≡ gray → ⊥
    not_gray x p q = cc

    not_black : (x : Color) → x ≡ white → x ≡ black → ⊥
    not_black x p q = cc

whites_mono : {c c' : Colors} (vs : List String) → Darker c c' → whites c' vs ≤ whites c vs
unfolding whites
whites_mono [] d = omega arith
whites_mono {c} {c'} (v ∷ vs) d = ground (arith, d v, whites_mono {c = c} {c' = c'} vs d)

Darker-paint : (c : Colors) (id : String) → Darker c (paint c id gray)
Darker-paint c id v h = ground (arith, eq_iff id v)

whites-paint :
    (c : Colors) (id : String) (vs : List String)
    → c id ≡ white
    → Memᴰ id vs
    → whites (paint c id gray) vs < whites c vs
unfolding whites
whites-paint c id [] w m = elim m [ ]
whites-paint c id (v ∷ vs) w (Memᴰ.head e) =
    ground (
      arith,
      eq_iff id v,
      ap c e,
      whites_mono {c = c} {c' = paint c id gray} vs (Darker-paint c id),
    )
whites-paint c id (v ∷ vs) w (Memᴰ.tail m) =
    ground (arith, eq_iff id v, Darker-paint c id v, whites-paint c id vs w m)

whites_pos :
    (c : Colors) (id : String) (vs : List String) → c id ≡ white → Memᴰ id vs → 0 < whites c vs
whites_pos c id vs w m = omega (arith, whites-paint c id vs w m)

module _ (ids : List String) where
  abbrev IsFrugal : (String → Colors → Visited) → ℕ → Type 0
  IsFrugal go n =
      (p : String) (c : Colors)
      → c p ≡ white
      → Memᴰ p ids
      → whites c ids ≤ n
      → go p c ≢ stopped out_of_fuel

  module _ (n : ℕ) (go : String → Colors → Visited) (frugal : IsFrugal go n)
      (keeps : KeepsAll go) where
    visit_parents-frugal :
        (ps : List String) (c : Colors)
        → ((p : String) → Memᴰ p ps → Memᴰ p ids)
        → whites c ids ≤ n
        → visit_parents go ps c ≢ stopped out_of_fuel
    unfolding visit_parents
    visit_parents-frugal [] c sub b h = cc
    visit_parents-frugal (p ∷ ps) c sub b h =
        let rest : (r : String) → Memᴰ r ps → Memᴰ r ids = λ r m. sub r (Memᴰ.tail m) in
        elim (visit_parents_stop go p ps c out_of_fuel h) [
          | inl (k, e) ↦ cc
          | inr (inl (w, stop)) ↦ frugal p c w (sub p (Memᴰ.head refl)) b stop
          | inr (inr (inl (w, (c₁, first, stop)))) ↦
              visit_parents-frugal ps c₁ rest
                (omega
                  (arith, whites_mono {c = c} {c' = c₁} ids (Darker-Keeps (keeps p c c₁ w first))))
                stop
          | inr (inr (inr stop)) ↦ visit_parents-frugal ps c rest b stop
        ]

    visit_all-frugal :
        (ps : List String) (c : Colors)
        → ((p : String) → Memᴰ p ps → Memᴰ p ids)
        → whites c ids ≤ n
        → visit_all go ps c ≢ stopped out_of_fuel
    unfolding visit_all
    visit_all-frugal [] c sub b h = cc
    visit_all-frugal (p ∷ ps) c sub b h =
        let rest : (r : String) → Memᴰ r ps → Memᴰ r ids = λ r m. sub r (Memᴰ.tail m) in
        elim (visit_all_stop go p ps c out_of_fuel h) [
          | inl (w, stop) ↦ frugal p c w (sub p (Memᴰ.head refl)) b stop
          | inr (inl (w, (c₁, first, stop))) ↦
              visit_all-frugal ps c₁ rest
                (omega
                  (arith, whites_mono {c = c} {c' = c₁} ids (Darker-Keeps (keeps p c c₁ w first))))
                stop
          | inr (inr stop) ↦ visit_all-frugal ps c rest b stop
        ]

  dfs-IsFrugal :
      (fuel : ℕ) (g : Graph)
      → ((a b : String) → Memᴰ b (g a) → Memᴰ b ids)
      → IsFrugal (dfs fuel g) fuel
  unfolding dfs
  dfs-IsFrugal zero g closed id c w m b h = absurd (omega (arith, whites_pos c id ids w m))
  dfs-IsFrugal (suc fuel) g closed id c w m b h =
      visit_parents-frugal fuel (dfs fuel g) (dfs-IsFrugal fuel g closed) (dfs-Keeps fuel g) (g id)
        (paint c id gray) (closed id) (omega (arith, whites-paint c id ids w m))
        (dfs_stop fuel g id c out_of_fuel h)

  -- As many units of fuel as there are vertices are enough, in any order of the vertices.
  pub search-fuel :
      (fuel : ℕ) (g : Graph) (order : List String)
      → length ids ≤ fuel
      → ((a b : String) → Memᴰ b (g a) → Memᴰ b ids)
      → ((p : String) → Memᴰ p order → Memᴰ p ids)
      → visit_all (dfs fuel g) order (λ _. white) ≢ stopped out_of_fuel
  search-fuel fuel g order enough closed sub =
      visit_all-frugal fuel (dfs fuel g) (dfs-IsFrugal fuel g closed) (dfs-Keeps fuel g) order _ sub
        (omega (arith, whites-le-length (λ _. white) ids))
