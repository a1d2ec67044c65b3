-- ===== src/Longterm/Graph/Walks.antt =====
-- memory/longterm/graph.go: edges and walks of the graph.
use mathlib.Core.List.Memᴰ
use kugelblitz.Common.{
  ℕ, String, some, List, [], ◌∷◌, ◌++◌, map, ◌+ˢ◌, get_elem?, ◌≡◌, ◌⊎◌, inl, inr, refl, sym, ◌∙◌,
  ap, subst, some_eq, none_ne_some, Memᴰ, All, option_split,
}
use kugelblitz.Longterm.Graph.{
  Relationship, GraphStore, adjacent, rels_at, out_rels, in_rels, edges_of,
}
use kugelblitz.Longterm.Graph.Links.{Linked}

pub All-map :
    {A : Type 0} {B : Type 0} (P : B → Type 0) (f : A → B) (xs : List A)
    → All (λ x. P (f x)) xs
    → All P (map f xs)
All-map P f [] h = tt
All-map P f (x ∷ xs) (hx, h) = (hx, All-map P f xs h)

pub All-append :
    {A : Type 0} (P : A → Type 0) (xs ys : List A) → All P xs → All P ys → All P (xs ++ ys)
All-append P [] ys h h' = h'
All-append P (x ∷ xs) ys (hx, h) h' = (hx, All-append P xs ys h h')

pub All-mem : {A : Type 0} (P : A → Type 0) (xs : List A) (x : A) → All P xs → Memᴰ x xs → P x
All-mem P [] x h m = elim m [ ]
All-mem P (y ∷ ys) x (hy, h) m = elim (Memᴰ.cases_cons m) [
  | inl e ↦ subst P (sym e) hy
  | inr m' ↦ All-mem P ys x h m'
]

module _ {F : Type 0} (g : GraphStore F) where
  -- The relationship at some position leads from `x` to `y`, or from `y` to `x` with the mark "<".
  abbrev pub Edge : (x label y : String) → Type 0
  Edge x label y =
      (i : ℕ) × (r : Relationship F) × (get_elem? g.relationships i ≡ some r)
      × (((x ≡ r.from) × (label ≡ r.type_of) × (y ≡ r.to))
          ⊎ ((x ≡ r.to) × (label ≡ "<" +ˢ r.type_of) × (y ≡ r.from)))

  -- A walk and its path: entities and labels in turn.
  pub data Walk (from : String) : String → List String → Type 0 where
    start : Walk from from (from ∷ [])
    along :
        {x label y : String} {p : List String}
        → Walk from x p
        → Edge x label y
        → Walk from y (p ++ label ∷ y ∷ [])

  rels_at-All :
      (P : Relationship F → Type 0) (rels : List (Relationship F)) (is : List ℕ)
      → ((i : ℕ) (r : Relationship F) → Memᴰ i is → get_elem? rels i ≡ some r → P r)
      → All P (rels_at rels is)
  unfolding rels_at
  rels_at-All P rels [] h = tt
  rels_at-All P rels (i ∷ is) h =
      let rest = rels_at-All P rels is (λ j r m. h j r (Memᴰ.tail m)) in
      option_split (All P) (get_elem? rels i) {x = rels_at rels is} (λ e. rest)
        (λ r e. (h i r (Memᴰ.head refl) e, rest))

  rels_at-mem :
      (rels : List (Relationship F)) (is : List ℕ) (i : ℕ) (r : Relationship F)
      → Memᴰ i is
      → get_elem? rels i ≡ some r
      → Memᴰ r (rels_at rels is)
  unfolding rels_at
  rels_at-mem rels [] i r m e = elim m [ ]
  rels_at-mem rels (j ∷ is) i r m e =
      option_split (λ z. Memᴰ r z) (get_elem? rels j) {x = rels_at rels is}
        (λ e'. elim (Memᴰ.cases_cons m) [
          | inl here ↦ absurd (none_ne_some (sym e ∙ ap (λ z. get_elem? rels z) here ∙ e'))
          | inr later ↦ rels_at-mem rels is i r later e
        ])
        (λ r' e'. elim (Memᴰ.cases_cons m) [
          | inl here ↦ Memᴰ.head (some_eq (sym e ∙ ap (λ z. get_elem? rels z) here ∙ e'))
          | inr later ↦ Memᴰ.tail (rels_at-mem rels is i r later e)
        ])

  -- The edges that ShortestPath looks at are the edges of the graph, both ways.
  pub edges_of-Edge :
      Linked g
      → (x : String) → All (λ ((label, y) : String × String). Edge x label y) (edges_of g x)
  unfolding edges_of
  edges_of-Edge h x =
      All-append (λ ((label, y) : String × String). Edge x label y)
        (map (λ (r : Relationship F). (r.type_of, r.to)) (out_rels g x))
        (map (λ (r : Relationship F). ("<" +ˢ r.type_of, r.from)) (in_rels g x))
        (All-map (λ ((label, y) : String × String). Edge x label y)
          (λ (r : Relationship F). (r.type_of, r.to)) (out_rels g x)
          (rels_at-All (λ r. Edge x r.type_of r.to) g.relationships (adjacent x g.adj_out)
            (λ i r m e.
              let (r', e', q) = h.outgoing.sound x i m in
              (
                i,
                r,
                e,
                inl (
                  sym q ∙ ap (λ (z : Relationship F). z.from) (some_eq (sym e' ∙ e)),
                  refl,
                  refl,
                ),
              ))))
        (All-map (λ ((label, y) : String × String). Edge x label y)
          (λ (r : Relationship F). ("<" +ˢ r.type_of, r.from)) (in_rels g x)
          (rels_at-All (λ r. Edge x ("<" +ˢ r.type_of) r.from) g.relationships (adjacent x g.adj_in)
            (λ i r m e.
              let (r', e', q) = h.incoming.sound x i m in
              (
                i,
                r,
                e,
                inr (sym q ∙ ap (λ (z : Relationship F). z.to) (some_eq (sym e' ∙ e)), refl, refl),
              ))))

  pub Edge-edges_of :
      Linked g
      → (x label y : String) → Edge x label y
      → (l : String) × Memᴰ {A = String × String} (l, y) (edges_of g x)
  unfolding edges_of
  Edge-edges_of h x label y (i, r, e, inl (ex, el, ey)) =
      let m =
        rels_at-mem g.relationships (adjacent x g.adj_out) i r
          (subst (λ z. Memᴰ i (adjacent z g.adj_out)) (sym ex) (h.outgoing.complete i r e)) e in
      (
        r.type_of,
        subst (λ z. Memᴰ {A = String × String} (r.type_of, z) (edges_of g x)) (sym ey)
            (Memᴰ.append_left
              (map (λ (r : Relationship F). ("<" +ˢ r.type_of, r.from)) (in_rels g x))
              (Memᴰ.map (λ (r : Relationship F). (r.type_of, r.to)) m)),
      )
  Edge-edges_of h x label y (i, r, e, inr (ex, el, ey)) =
      let m =
        rels_at-mem g.relationships (adjacent x g.adj_in) i r
          (subst (λ z. Memᴰ i (adjacent z g.adj_in)) (sym ex) (h.incoming.complete i r e)) e in
      (
        "<" +ˢ r.type_of,
        subst (λ z. Memᴰ {A = String × String} ("<" +ˢ r.type_of, z) (edges_of g x)) (sym ey)
            (Memᴰ.append_right (map (λ (r : Relationship F). (r.type_of, r.to)) (out_rels g x))
              (Memᴰ.map (λ (r : Relationship F). ("<" +ˢ r.type_of, r.from)) m)),
      )
