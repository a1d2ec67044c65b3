-- ===== src/Longterm/Graph/Links.antt =====
-- memory/longterm/graph.go: the two maps agree with the list of relationships.
use mathlib.Core.List.Memᴰ
use kugelblitz.Common.{
  ℕ, suc, ◌+◌, String, ◌&&◌, some, List, [], ◌∷◌, ◌++◌, length, ◌==◌, ◌=ˢ◌, if◌then◌else◌,
  get_elem?, set_at, get_elem-length, get_elem-set_at, get_elem-push, ◌≡◌, ◌⊎◌, inl, inr, refl, sym,
  ◌∙◌, ap, subst, arith, Bool-cases, some_eq, none_ne_some, text_eq_sound, text_eq_refl, eq_iff,
  Memᴰ, if_both, option_split, option_both, ◌||◌, is_empty,
}
use kugelblitz.Longterm.Graph.{
  empty_graph, Entity, Relationship, EntityCandidate, RelCandidate, Adjacency, GraphStore,
  GraphSetting, GraphEvent, entity_event, relationship_event, adjacent, add_adjacent, add_rel,
  load_event, load_events, merge_entity, put_entity, upsert_entity, resolve_name, find_same,
  link_or_update, add_relationship, upsert_entities, add_relationships, upsert_relationships,
}

adjacent-add_adjacent :
    (y x : String) (i : ℕ) (adj : Adjacency)
    → adjacent y (add_adjacent x i adj)
      ≡ (if x =ˢ y then adjacent y adj ++ i ∷ [] else adjacent y adj)
unfolding adjacent add_adjacent
adjacent-add_adjacent y x i [] = ground arith
adjacent-add_adjacent y x i ((k, is) ∷ adj) =
    ground (arith, adjacent-add_adjacent y x i adj, eq_iff k x, eq_iff x y)

mem-snoc : (i j : ℕ) (is : List ℕ) → Memᴰ i (is ++ j ∷ []) → Memᴰ i is ⊎ (i ≡ j)
mem-snoc i j [] m = elim (Memᴰ.cases_cons m) [ inl e ↦ inr e | inr m' ↦ absurd (elim m' [ ]) ]
mem-snoc i j (k ∷ is) m = elim (Memᴰ.cases_cons m) [
  | inl e ↦ inl (Memᴰ.head e)
  | inr m' ↦ elim (mem-snoc i j is m') [ inl n ↦ inl (Memᴰ.tail n) | inr e ↦ inr e ]
]

snoc-mem : (i j : ℕ) (is : List ℕ) → Memᴰ i is ⊎ (i ≡ j) → Memᴰ i (is ++ j ∷ [])
snoc-mem i j [] (inl m) = elim m [ ]
snoc-mem i j [] (inr e) = Memᴰ.head e
snoc-mem i j (k ∷ is) (inl m) = elim (Memᴰ.cases_cons m) [
  | inl e ↦ Memᴰ.head e
  | inr m' ↦ Memᴰ.tail (snoc-mem i j is (inl m'))
]
snoc-mem i j (k ∷ is) (inr e) = Memᴰ.tail (snoc-mem i j is (inr e))

module _ {F : Type 0} (end : Relationship F → String) where
  -- The map has, for each entity, exactly the positions of the relationships with that end.
  pub record Indexes (rels : List (Relationship F)) (adj : Adjacency) : Type 0 where
    pub sound :
        (x : String) (i : ℕ)
        → Memᴰ i (adjacent x adj)
        → (r : Relationship F) × (get_elem? rels i ≡ some r) × (end r ≡ x)
    pub complete :
        (i : ℕ) (r : Relationship F) → get_elem? rels i ≡ some r → Memᴰ i (adjacent (end r) adj)

  push-Indexes :
      (rels : List (Relationship F)) (adj : Adjacency) (r : Relationship F)
      → Indexes rels adj
      → Indexes (rels ++ r ∷ []) (add_adjacent (end r) (length rels) adj)
  push-Indexes rels adj r h = record {
    sound = λ x i m.
        let added = adjacent-add_adjacent x (end r) (length rels) adj in
        let old : Memᴰ i (adjacent x adj)
            → (r' : Relationship F) × (get_elem? (rels ++ r ∷ []) i ≡ some r') × (end r' ≡ x) =
          λ m'.
            let (r', g, e) = h.sound x i m' in
            (r', ground (arith, get_elem-push rels r i, get_elem-length rels i r' g, g), e) in
        elim (Bool-cases (end r =ˢ x)) [
          | inl here ↦
              elim (mem-snoc i (length rels) (adjacent x adj)
                (subst (λ z. Memᴰ i z) (ground (arith, added, here)) m)) [
                  | inl m' ↦ old m'
                  | inr e ↦
                      (r, ground (arith, get_elem-push rels r i, e), text_eq_sound (end r) x here)
                ]
          | inr away ↦ old (subst (λ z. Memᴰ i z) (ground (arith, added, away)) m)
        ];
    complete = λ i r' g.
        let added = adjacent-add_adjacent (end r') (end r) (length rels) adj in
        let pushed = get_elem-push rels r i in
        elim (Bool-cases (length rels == i)) [
          | inl last ↦
              let same : r ≡ r' = some_eq (ground (arith, pushed, g, last)) in
              subst (λ z. Memᴰ i (adjacent (end z) (add_adjacent (end r) (length rels) adj))) same
                (subst (λ z. Memᴰ i z)
                  (sym (
                    ground (
                      arith,
                      adjacent-add_adjacent (end r) (end r) (length rels) adj,
                      text_eq_refl (end r),
                    )))
                  (snoc-mem i (length rels) (adjacent (end r) adj) (inr (ground (arith, last)))))
          | inr before ↦
              let m = h.complete i r' (ground (arith, pushed, g, before)) in
              elim (Bool-cases (end r =ˢ end r')) [
                | inl here ↦
                    subst (λ z. Memᴰ i z) (sym (ground (arith, added, here)))
                      (snoc-mem i (length rels) (adjacent (end r') adj) (inl m))
                | inr away ↦ subst (λ z. Memᴰ i z) (sym (ground (arith, added, away))) m
              ]
        ];
  }

  -- A relationship may change as long as its end stays.
  set_at-Indexes :
      (rels : List (Relationship F)) (adj : Adjacency) (i : ℕ) (old new : Relationship F)
      → Indexes rels adj
      → get_elem? rels i ≡ some old
      → end new ≡ end old
      → Indexes (set_at i new rels) adj
  set_at-Indexes rels adj i old new h g same = record {
    sound = λ x j m.
        let (r, gj, e) = h.sound x j m in
        let now = get_elem-set_at i new rels j in
        let below = get_elem-length rels i old g in
        elim (Bool-cases (i == j)) [
          | inl here ↦
              let i_j : i ≡ j = ground (arith, here) in
              let old_r : old ≡ r = some_eq (sym g ∙ ap (λ z. get_elem? rels z) i_j ∙ gj) in
              (new, ground (arith, now, here, below), same ∙ ap end old_r ∙ e)
          | inr away ↦ (r, ground (arith, now, away, gj), e)
        ];
    complete = λ j r gj.
        let now = get_elem-set_at i new rels j in
        let below = get_elem-length rels i old g in
        elim (Bool-cases (i == j)) [
          | inl here ↦
              let i_j : i ≡ j = ground (arith, here) in
              let new_r : new ≡ r = some_eq (ground (arith, now, here, below, gj)) in
              subst (λ z. Memᴰ j (adjacent z adj)) (sym same ∙ ap end new_r)
                (subst (λ z. Memᴰ z (adjacent (end old) adj)) i_j (h.complete i old g))
          | inr away ↦ h.complete j r (ground (arith, now, away, gj))
        ];
  }

module _ {F : Type 0} where
  -- Both maps agree with the relationships.
  pub record Linked (g : GraphStore F) : Type 0 where
    pub outgoing : Indexes (λ r. r.from) g.relationships g.adj_out
    pub incoming : Indexes (λ r. r.to) g.relationships g.adj_in

  empty-Indexes : (end : Relationship F → String) → Indexes end [] []
  unfolding adjacent get_elem?
  empty-Indexes end = record {
    sound = λ x i m. elim m [ ];
    complete = λ i r g. absurd (none_ne_some (sym g));
  }

  pub add_rel-Linked : (r : Relationship F) (g : GraphStore F) → Linked g → Linked (add_rel r g)
  unfolding add_rel
  add_rel-Linked r g h = record {
    outgoing = push-Indexes (λ r. r.from) g.relationships g.adj_out r h.outgoing;
    incoming = push-Indexes (λ r. r.to) g.relationships g.adj_in r h.incoming;
  }

  load_events-kept :
      (es : List (GraphEvent F)) (g : GraphStore F) → Linked g → Linked (load_events es g)
  unfolding load_events load_event
  load_events-kept [] g h = h
  load_events-kept (entity_event e ∷ es) g h =
      load_events-kept es (record g { entities = put_entity e g.entities })
        (record { outgoing = h.outgoing; incoming = h.incoming })
  load_events-kept (relationship_event r ∷ es) g h =
      load_events-kept es (add_rel r g) (add_rel-Linked r g h)

  pub load_events-Linked : (es : List (GraphEvent F)) → Linked (load_events es empty_graph)
  load_events-Linked es =
      load_events-kept es empty_graph
        (record { outgoing = empty-Indexes (λ r. r.from); incoming = empty-Indexes (λ r. r.to) })

  module _ (s : GraphSetting F) where
    find_same-get :
        (from to type_of : String) (n : ℕ) (rels : List (Relationship F)) (i : ℕ)
        (r : Relationship F)
        → find_same s from to type_of n rels ≡ some (i, r)
        → (k : ℕ) × (i ≡ n + k) × (get_elem? rels k ≡ some r)
    unfolding find_same get_elem?
    find_same-get from to type_of n [] i r h = absurd (none_ne_some (sym h))
    find_same-get from to type_of n (q ∷ rels) i r h =
        elim (Bool-cases ((q.from =ˢ from) && (q.to =ˢ to) && (q.type_of =ˢ type_of))) [
          | inl here ↦
              let same : ◌≡◌ {A = ℕ × Relationship F} (n, q) (i, r) =
                some_eq (ground (arith, h, here)) in
              (0, ground (arith, ap (λ z. z.0) same), ap (λ z. some z.1) same)
          | inr away ↦
              let (k, e, g) =
                find_same-get from to type_of (suc n) rels i r (ground (arith, h, away)) in
              (suc k, omega (arith, e), g)
        ]

    -- A candidate only updates a relationship with the same ends, or links a new one.
    link_or_update-Linked :
        (new_id from to : String) (c : RelCandidate F) (g : GraphStore F)
        → Linked g
        → Linked (link_or_update s new_id from to c g)
    unfolding link_or_update
    link_or_update-Linked new_id from to c g h =
        let r : Relationship F = record {
          id = new_id;
          from = from;
          to = to;
          type_of = c.type_of;
          weight = c.weight;
        } in
        option_split Linked (find_same s from to c.type_of 0 g.relationships) {x = add_rel r g}
          (λ e. add_rel-Linked r g h)
          (λ (i, q) e.
            if_both Linked (s.exceeds c.weight q.weight)
              (let (k, i_k, got) = find_same-get from to c.type_of 0 g.relationships i q e in
                let got' : get_elem? g.relationships i ≡ some q =
                  subst (λ z. get_elem? g.relationships z ≡ some q) (sym (omega (arith, i_k)))
                    got in
                let q' = record q { weight = c.weight } in
                record {
                  outgoing =
                      set_at-Indexes (λ r. r.from) g.relationships g.adj_out i q q' h.outgoing got'
                        refl;
                  incoming =
                      set_at-Indexes (λ r. r.to) g.relationships g.adj_in i q q' h.incoming got'
                        refl;
                })
              h)

    add_relationships-kept :
        (cs : List (String × RelCandidate F)) (g : GraphStore F)
        → Linked g
        → Linked (add_relationships s cs g)
    unfolding add_relationships add_relationship
    add_relationships-kept [] g h = h
    add_relationships-kept ((x, c) ∷ cs) g h =
        let from = resolve_name s c.from g.entities in
        let to = resolve_name s c.to g.entities in
        add_relationships-kept cs (add_relationship s x c g)
          (if_both Linked (is_empty from || is_empty to) h (link_or_update-Linked x from to c g h))

    upsert_entities-kept :
        (cs : List (String × EntityCandidate)) (g : GraphStore F)
        → Linked g
        → Linked (upsert_entities s cs g)
    unfolding upsert_entities upsert_entity
    upsert_entities-kept [] g h = h
    upsert_entities-kept ((x, c) ∷ cs) g h =
        let e : Entity = record { id = x; name = c.name; type_of = c.type_of; labels = c.labels } in
        upsert_entities-kept cs (upsert_entity s x c g) (
          option_both Linked (merge_entity s c g.entities)
            {x = record g { entities = put_entity e g.entities }}
            (record { outgoing = h.outgoing; incoming = h.incoming })
            (λ es. record { outgoing = h.outgoing; incoming = h.incoming }))

    -- UpsertRelationships keeps the maps of outgoing and incoming relationships in agreement with the
    -- list: each has exactly the positions of the relationships with that end, also when the weight
    -- of a relationship is changed in place.
    pub upsert_relationships-Linked :
        (es : List (String × EntityCandidate)) (rs : List (String × RelCandidate F))
        (g : GraphStore F)
        → Linked g
        → Linked (upsert_relationships s es rs g)
    unfolding upsert_relationships
    upsert_relationships-Linked es rs g h =
        add_relationships-kept rs (upsert_entities s es g) (upsert_entities-kept es g h)
