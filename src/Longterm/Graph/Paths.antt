-- ===== src/Longterm/Graph/Paths.antt =====
-- memory/longterm/graph.go, ShortestPath: what it finds, and that it ends.
use mathlib.Core.List.Memᴰ
use kugelblitz.Common.{
  ℕ, zero, suc, ◌+◌, ◌≤◌, ◌<◌, String, true, false, Option, none, some, List, [], ◌∷◌, ◌++◌, map,
  length, ◌=ˢ◌, if◌then◌else◌, is_in, ◌≡◌, ◌⊎◌, inl, inr, refl, sym, ◌∙◌, subst, arith, Bool-cases,
  text_eq_sound, text_eq_refl, Memᴰ, All, length-append, false≢true, if_split, get_elem-mem,
}
use kugelblitz.Longterm.Graph.{
  Relationship, GraphStore, Node, Explored, found, going, edges_of, explore, bfs, shortest_path,
}
use kugelblitz.Longterm.Graph.Links.{Linked}
use kugelblitz.Longterm.Graph.Walks.{
  Edge, Walk, start, along, edges_of-Edge, Edge-edges_of, All-append, All-mem,
}

-- The texts of a list that are not on another one.
unfoldable pub unvisited : List String → List String → ℕ
unfolding is_in
unvisited [] v = 0
unvisited (x ∷ xs) v = let rest = unvisited xs v in if is_in x v then rest else suc rest

unvisited-le : (xs v : List String) (y : String) → unvisited xs (y ∷ v) ≤ unvisited xs v
unfolding unvisited is_in
unvisited-le [] v y = omega arith
unvisited-le (x ∷ xs) v y = ground (arith, unvisited-le xs v y)

unvisited-lt :
    (xs v : List String) (y : String)
    → Memᴰ y xs
    → is_in y v ≡ false
    → unvisited xs (y ∷ v) < unvisited xs v
unfolding unvisited is_in
unvisited-lt [] v y m h = elim m [ ]
unvisited-lt (x ∷ xs) v y m h = elim (Memᴰ.cases_cons m) [
  | inl here ↦ ground (arith, unvisited-le xs v y, h, here, text_eq_refl y)
  | inr later ↦ ground (arith, unvisited-lt xs v y later h)
]

unvisited-bound : (xs v : List String) → unvisited xs v ≤ length xs
unfolding unvisited
unvisited-bound [] v = omega arith
unvisited-bound (x ∷ xs) v = ground (arith, unvisited-bound xs v)

is_in-cons : (z x : String) (v : List String) → is_in z v ≡ true → is_in z (x ∷ v) ≡ true
unfolding is_in
is_in-cons z x v h = ground (arith, h)

is_in-head : (x : String) (v : List String) → is_in x (x ∷ v) ≡ true
unfolding is_in
is_in-head x v = ground (arith, text_eq_refl x)

is_in-inv : (z x : String) (v : List String) → is_in z (x ∷ v) ≡ true → (x ≡ z) ⊎ (is_in z v ≡ true)
unfolding is_in
is_in-inv z x v h = elim (Bool-cases (x =ˢ z)) [
  | inl e ↦ inl (text_eq_sound x z e)
  | inr n ↦ inr (ground (arith, h, n))
]

is_in-apart :
    (z x : String) (v : List String)
    → (x =ˢ z) ≡ false
    → is_in z v ≡ false
    → is_in z (x ∷ v) ≡ false
unfolding is_in
is_in-apart z x v h h' = ground (arith, h, h')

abbrev ids : List Node → List String
ids = map (λ (n : Node). n.entity_id)

ids-append : (q : List Node) (n : Node) (z : String) → Memᴰ z (ids q) → Memᴰ z (ids (q ++ n ∷ []))
ids-append [] n z m = elim m [ ]
ids-append (k ∷ q) n z m = elim (Memᴰ.cases_cons m) [
  | inl e ↦ Memᴰ.head e
  | inr m' ↦ Memᴰ.tail (ids-append q n z m')
]

ids-last : (q : List Node) (n : Node) → Memᴰ n.entity_id (ids (q ++ n ∷ []))
ids-last [] n = Memᴰ.head refl
ids-last (k ∷ q) n = Memᴰ.tail (ids-last q n)

ids-inv :
    (q : List Node) (n : Node) (z : String)
    → Memᴰ z (ids (q ++ n ∷ []))
    → Memᴰ z (ids q) ⊎ (z ≡ n.entity_id)
ids-inv [] n z m = elim (Memᴰ.cases_cons m) [ inl e ↦ inr e | inr m' ↦ elim m' [ ] ]
ids-inv (k ∷ q) n z m = elim (Memᴰ.cases_cons m) [
  | inl e ↦ inl (Memᴰ.head e)
  | inr m' ↦ elim (ids-inv q n z m') [ inl m'' ↦ inl (Memᴰ.tail m'') | inr e ↦ inr e ]
]

Explored-cases :
    (o : Explored)
    → ((p : List String) × (o ≡ found p)) ⊎ ((v : List String) × (q : List Node) × (o ≡ going v q))
Explored-cases (found p) = inl (p, refl)
Explored-cases (going v q) = inr (v, q, refl)

All-weaken :
    (es : List (String × String)) (v v' : List String)
    → ((y : String) → is_in y v ≡ true → is_in y v' ≡ true)
    → All (λ ((l, y) : String × String). is_in y v ≡ true) es
    → All (λ ((l, y) : String × String). is_in y v' ≡ true) es
All-weaken [] v v' f c = tt
All-weaken ((l, y) ∷ es) v v' f (cy, c) = (f y cy, All-weaken es v v' f c)

module _ {F : Type 0} (g : GraphStore F) (from to : String) where
  -- Both ends of every relationship.
  abbrev pub ends : List String
  ends =
      map (λ (r : Relationship F). r.from) g.relationships
      ++ map (λ (r : Relationship F). r.to) g.relationships

  abbrev IsWalk : Node → Type 0
  IsWalk n = Walk g from n.entity_id n.path

  -- What the loop over some edges makes of the visited entities and the queue.
  record Gone (es : List (String × String)) (v : List String) (q : List Node) (v' : List String)
      (q' : List Node) : Type 0 where
    walks : All IsWalk q'
    count : length q' + unvisited ends v' ≤ length q + unvisited ends v
    grows : (z : String) → is_in z v ≡ true → is_in z v' ≡ true
    targets : All (λ ((l, y) : String × String). is_in y v' ≡ true) es
    fresh : (z : String) → is_in z v' ≡ true → (is_in z v ≡ true) ⊎ Memᴰ z (ids q')
    keeps : (z : String) → Memᴰ z (ids q) → Memᴰ z (ids q')
    apart : is_in to v' ≡ false

  abbrev Reached : List (String × String) → List String → List Node → Explored → Type 0
  Reached es v q (found p) = Walk g from to p
  Reached es v q (going v' q') = Gone es v q v' q'

  Edge-ends : (x l y : String) → Edge g x l y → Memᴰ y ends
  Edge-ends x l y (i, r, e, inl (ex, el, ey)) =
      subst (λ z. Memᴰ z ends) (sym ey)
        (Memᴰ.append_right (map (λ (r : Relationship F). r.from) g.relationships)
          (Memᴰ.map (λ (r : Relationship F). r.to) (get_elem-mem g.relationships i r e)))
  Edge-ends x l y (i, r, e, inr (ex, el, ey)) =
      subst (λ z. Memᴰ z ends) (sym ey)
        (Memᴰ.append_left (map (λ (r : Relationship F). r.to) g.relationships)
          (Memᴰ.map (λ (r : Relationship F). r.from) (get_elem-mem g.relationships i r e)))

  -- One more edge, to an entity that was visited before.
  passed-Reached :
      (l y : String) (es : List (String × String)) (v : List String) (q : List Node) (o : Explored)
      → is_in y v ≡ true
      → Reached es v q o
      → Reached ((l, y) ∷ es) v q o
  passed-Reached l y es v q (found p) h w = w
  passed-Reached l y es v q (going v' q') h w = record {
    walks = w.walks;
    count = w.count;
    grows = w.grows;
    targets = (w.grows y h, w.targets);
    fresh = w.fresh;
    keeps = w.keeps;
    apart = w.apart;
  }

  -- One more edge, to a new entity that joins the queue.
  entered-Reached :
      (l y : String) (es : List (String × String)) (v : List String) (q : List Node)
      (p : List String) (o : Explored)
      → is_in y v ≡ false
      → Memᴰ y ends
      → Reached es (y ∷ v) (q ++ record { entity_id = y; path = p } ∷ []) o
      → Reached ((l, y) ∷ es) v q o
  entered-Reached l y es v q p (found p') new m w = w
  entered-Reached l y es v q p (going v' q') new m w =
      let n : Node = record { entity_id = y; path = p } in
      record {
        walks = w.walks;
        count = omega (arith, w.count, unvisited-lt ends v y m new, length-append q (n ∷ []));
        grows = λ z h. w.grows z (is_in-cons z y v h);
        targets = (w.grows y (is_in-head y v), w.targets);
        fresh = λ z h. elim (w.fresh z h) [
          | inr m' ↦ inr m'
          | inl h' ↦ elim (is_in-inv z y v h') [
            | inr old ↦ inl old
            | inl e ↦ inr (subst (λ u. Memᴰ u (ids q')) e (w.keeps y (ids-last q n)))
          ]
        ];
        keeps = λ z m'. w.keeps z (ids-append q n z m');
        apart = w.apart;
      }

  explore-Reached :
      (x : String) (path : List String) (es : List (String × String)) (v : List String)
      (q : List Node)
      → Walk g from x path
      → All (λ ((l, y) : String × String). Edge g x l y) es
      → All IsWalk q
      → is_in to v ≡ false
      → Reached es v q (explore to path es v q)
  unfolding explore
  explore-Reached x path [] v q here edges walks apart = record {
    walks = walks;
    count = omega arith;
    grows = λ z h. h;
    targets = tt;
    fresh = λ z h. inl h;
    keeps = λ z m. m;
    apart = apart;
  }
  explore-Reached x path ((l, y) ∷ es) v q here (edge, edges) walks apart =
      let next = path ++ l ∷ y ∷ [] in
      let n : Node = record { entity_id = y; path = next } in
      let step : Walk g from y next = along here edge in
      if_split (Reached ((l, y) ∷ es) v q) (is_in y v)
        (λ old.
          passed-Reached l y es v q (explore to path es v q) old
            (explore-Reached x path es v q here edges walks apart))
        (λ new.
          if_split (Reached ((l, y) ∷ es) v q) (y =ˢ to)
            (λ same. subst (λ z. Walk g from z next) (text_eq_sound y to same) step)
            (λ other.
              entered-Reached l y es v q next (explore to path es (y ∷ v) (q ++ n ∷ [])) new
                (Edge-ends x l y edge)
                (explore-Reached x path es (y ∷ v) (q ++ n ∷ []) here edges
                  (All-append IsWalk q (n ∷ []) walks (step, tt))
                  (is_in-apart to y v other apart))))

  -- What holds at the head of the loop.
  record AtHead (fuel : ℕ) (v : List String) (q : List Node) : Type 0 where
    walks : All IsWalk q
    closed :
        (z : String)
        → is_in z v ≡ true
        → Memᴰ z (ids q) ⊎ All (λ ((l, y) : String × String). is_in y v ≡ true) (edges_of g z)
    started : is_in from v ≡ true
    apart : is_in to v ≡ false
    enough : suc (length q + unvisited ends v) ≤ fuel

  -- A path is a walk between the two entities, and nil means that there is none.
  abbrev pub Answers : Option (List String) → Type 0
  Answers none = (p : List String) → Walk g from to p → ⊥
  Answers (some p) = Walk g from to p

  stays :
      (v : List String)
      → Linked g
      → ((z : String)
          → is_in z v ≡ true
          → All (λ ((l, y) : String × String). is_in y v ≡ true) (edges_of g z))
      → is_in from v ≡ true
      → (y : String) (p : List String) → Walk g from y p
      → is_in y v ≡ true
  stays v h closed started y p start = started
  stays v h closed started y p (along {x} {label} w e) =
      let before = stays v h closed started x _ w in
      let (l, m) = Edge-edges_of g h x label y e in
      All-mem (λ ((l, y) : String × String). is_in y v ≡ true) (edges_of g x) (l, y)
        (closed x before) m

  next-AtHead :
      (fuel : ℕ) (v v' : List String) (n : Node) (q q' : List Node)
      → AtHead (suc fuel) v (n ∷ q)
      → Gone (edges_of g n.entity_id) v q v' q'
      → AtHead fuel v' q'
  next-AtHead fuel v v' n q q' h w = record {
    walks = w.walks;
    closed = λ z m. elim (w.fresh z m) [
      | inr m' ↦ inl m'
      | inl old ↦ elim (h.closed z old) [
        | inr c ↦ inr (All-weaken (edges_of g z) v v' (λ y. w.grows y) c)
        | inl m' ↦ elim (Memᴰ.cases_cons m') [
          | inr m'' ↦ inl (w.keeps z m'')
          | inl e ↦ inr (
              subst (λ u. All (λ ((l, y) : String × String). is_in y v' ≡ true) (edges_of g u))
                (sym e) w.targets)
        ]
      ]
    ];
    started = w.grows from h.started;
    apart = w.apart;
    enough = omega (arith, h.enough, w.count);
  }

  bfs-Answers :
      (fuel : ℕ) (v : List String) (q : List Node)
      → Linked g
      → AtHead fuel v q
      → (r : Option (List String)) × (bfs fuel g to v q ≡ some r) × Answers r
  unfolding bfs
  bfs-Answers zero v q linked h = absurd (omega (arith, h.enough))
  bfs-Answers (suc fuel) v [] linked h =
      let closed : (z : String)
          → is_in z v ≡ true
          → All (λ ((l, y) : String × String). is_in y v ≡ true) (edges_of g z) =
        λ z m. elim (h.closed z m) [ inl m' ↦ absurd (Memᴰ.not-nil m') | inr c ↦ c ] in
      (none, refl, λ p w. false≢true (sym h.apart ∙ stays v linked closed h.started to p w))
  bfs-Answers (suc fuel) v (n ∷ q) linked h =
      let (here, walks) = h.walks in
      let edges = edges_of-Edge g linked n.entity_id in
      let outcome =
        explore-Reached n.entity_id n.path (edges_of g n.entity_id) v q here edges walks h.apart in
      elim (Explored-cases (explore to n.path (edges_of g n.entity_id) v q)) [
        | inl (p, e) ↦
            (some p, ground (arith, e), subst (Reached (edges_of g n.entity_id) v q) e outcome)
        | inr (v', q', e) ↦
            let w : Gone (edges_of g n.entity_id) v q v' q' =
              subst (Reached (edges_of g n.entity_id) v q) e outcome in
            let (r, e', a) = bfs-Answers fuel v' q' linked (next-AtHead fuel v v' n q q' h w) in
            (r, ground (arith, e, e'), a)
      ]

  -- ShortestPath ends, with one unit of fuel for each end of a relationship and two more, in a graph
  -- whose maps agree with its relationships. A path that it returns is a walk from the first entity
  -- to the second along relationships, backwards where it says so; and it returns nil only if there
  -- is no such walk.
  pub shortest_path-Answers :
      Linked g
      → (r : Option (List String)) × (shortest_path (suc (suc (length ends))) g from to ≡ some r)
        × Answers r
  unfolding shortest_path
  shortest_path-Answers linked = elim (Bool-cases (from =ˢ to)) [
    | inl same ↦ (
      some (from ∷ []),
      ground (arith, same),
      subst (λ z. Walk g from z (from ∷ [])) (text_eq_sound from to same) start,
    )
    | inr other ↦
        let n : Node = record { entity_id = from; path = from ∷ [] } in
        let (r, e, a) = bfs-Answers (suc (suc (length ends))) (from ∷ []) (n ∷ []) linked (record {
          walks = (start, tt);
          closed = λ z m. elim (is_in-inv z from [] m) [
            | inl e ↦ inl (Memᴰ.head (sym e))
            | inr never ↦ absurd (false≢true never)
          ];
          started = is_in-head from [];
          apart = is_in-apart to from [] other refl;
          enough = omega (arith, unvisited-bound ends (from ∷ []));
        }) in
        (r, ground (arith, other, e), a)
  ]
