-- ===== src/Longterm/Graph.antt =====
-- memory/longterm/graph.go: the graph of entities and relationships.
pub mod Links
pub mod Walks
pub mod Paths
use kugelblitz.Common.{
  ℕ, zero, suc, ◌+◌, String, Bool, true, false, ◌&&◌, ◌||◌, not, Option, none, some, List, [], ◌∷◌,
  ◌++◌, map, length, leb, ◌=ˢ◌, ◌+ˢ◌, if◌then◌else◌, is_empty, contains, get_elem?, set_at, is_in,
}

-- memory/types/types.go
pub record Entity : Type 0 where
  pub id : String
  pub name : String
  pub type_of : String
  pub labels : List String

pub record Relationship (F : Type 0) : Type 0 where
  pub id : String
  pub from : String
  pub to : String
  pub type_of : String
  pub weight : F

pub record EntityCandidate : Type 0 where
  pub name : String
  pub type_of : String
  pub labels : List String

pub record RelCandidate (F : Type 0) : Type 0 where
  pub from : String
  pub to : String
  pub type_of : String
  pub weight : F

-- A map from entity ids to relationships. A pointer to a relationship is its position in the list
-- of all relationships, which only grows.
abbrev pub Adjacency : Type 0
Adjacency = List (String × List ℕ)

-- `entities` is the map of entities, in the order in which it is walked.
pub record GraphStore (F : Type 0) : Type 0 where
  pub entities : List Entity
  pub relationships : List (Relationship F)
  pub adj_out : Adjacency
  pub adj_in : Adjacency

-- What is used of package strings and of float64.
pub record GraphSetting (F : Type 0) : Type 0 where
  pub equal_fold : String → String → Bool
  pub to_lower : String → String
  pub exceeds : F → F → Bool

-- NewGraphStore
abbrev pub empty_graph : {F : Type 0} → GraphStore F
empty_graph = record { entities = []; relationships = []; adj_out = []; adj_in = [] }

-- `adj[id]`, nil for an id that is missing.
unfoldable pub adjacent : String → Adjacency → List ℕ
adjacent x [] = []
adjacent x ((k, is) ∷ adj) = let rest = adjacent x adj in if k =ˢ x then is else rest

-- `adj[id] = append(adj[id], rel)`
unfoldable pub add_adjacent : String → ℕ → Adjacency → Adjacency
add_adjacent x i [] = (x, i ∷ []) ∷ []
add_adjacent x i ((k, is) ∷ adj) =
    let rest = add_adjacent x i adj in if k =ˢ x then (k, is ++ i ∷ []) ∷ adj else (k, is) ∷ rest

-- The union of two sets of labels, in some order.
unfoldable pub merge_labels : List String → List String → List String
unfolding is_in
merge_labels olds [] = olds
merge_labels olds (l ∷ ls) =
    if is_in l olds then merge_labels olds ls else merge_labels (olds ++ l ∷ []) ls

unfoldable pub find_entity : String → List Entity → Option Entity
find_entity x [] = none
find_entity x (e ∷ es) = let rest = find_entity x es in if e.id =ˢ x then some e else rest

-- `g.entities[e.ID] = e`
unfoldable pub put_entity : Entity → List Entity → List Entity
put_entity e [] = e ∷ []
put_entity e (f ∷ fs) = let rest = put_entity e fs in if f.id =ˢ e.id then e ∷ fs else f ∷ rest

-- The result of the loop over the neighbours of the first entity of the queue.
pub record Node : Type 0 where
  pub entity_id : String
  pub path : List String

pub data Explored : Type 0 where
  found : List String → Explored
  going : (visited : List String) → (queue : List Node) → Explored

-- One line of the file, as Load reads it.
pub data GraphEvent (F : Type 0) : Type 0 where
  entity_event : Entity → GraphEvent F
  relationship_event : Relationship F → GraphEvent F

-- The loop over the edges at an entity with the path to it.
unfoldable pub explore :
    (to : String)
    → List String
    → List (String × String)
    → (visited : List String) → List Node
    → Explored
unfolding is_in
explore to path [] visited queue = going visited queue
explore to path ((label, x) ∷ es) visited queue =
    let next = path ++ label ∷ x ∷ [] in
    let passed = explore to path es visited queue in
    let entered =
      explore to path es (x ∷ visited) (queue ++ record { entity_id = x; path = next } ∷ []) in
    if is_in x visited then passed else if x =ˢ to then found next else entered

module _ {F : Type 0} where
  -- The relationships at some positions; a pointer is never nil.
  unfoldable pub rels_at : List (Relationship F) → List ℕ → List (Relationship F)
  unfolding get_elem?
  rels_at rels [] = []
  rels_at rels (i ∷ is) = elim (get_elem? rels i) [
    | none ↦ rels_at rels is
    | some r ↦ r ∷ rels_at rels is
  ]

  abbrev pub out_rels : GraphStore F → String → List (Relationship F)
  out_rels g x = rels_at g.relationships (adjacent x g.adj_out)

  abbrev pub in_rels : GraphStore F → String → List (Relationship F)
  in_rels g x = rels_at g.relationships (adjacent x g.adj_in)

  -- A new relationship, in the list and in both maps.
  unfoldable pub add_rel : Relationship F → GraphStore F → GraphStore F
  unfolding add_adjacent
  add_rel r g =
      let i = length g.relationships in
      record g {
        relationships = g.relationships ++ r ∷ [];
        adj_out = add_adjacent r.from i g.adj_out;
        adj_in = add_adjacent r.to i g.adj_in;
      }

  -- The body of the loop of Load.
  unfoldable pub load_event : GraphEvent F → GraphStore F → GraphStore F
  unfolding put_entity add_rel
  load_event (entity_event e) g = record g { entities = put_entity e g.entities }
  load_event (relationship_event r) g = add_rel r g

  unfoldable pub load_events : List (GraphEvent F) → GraphStore F → GraphStore F
  unfolding load_event
  load_events [] g = g
  load_events (e ∷ es) g = load_events es (load_event e g)

  -- The edges at an entity, the outgoing ones first, as a label of the path and the other end.
  unfoldable pub edges_of : GraphStore F → String → List (String × String)
  unfolding rels_at adjacent
  edges_of g x =
      map (λ (r : Relationship F). (r.type_of, r.to)) (out_rels g x)
      ++ map (λ (r : Relationship F). ("<" +ˢ r.type_of, r.from)) (in_rels g x)

  -- The loop of ShortestPath. `none` is a loop that has used up its fuel, `some none` is nil.
  unfoldable pub bfs :
      ℕ
      → GraphStore F
      → (to : String) → (visited : List String) → List Node
      → Option (Option (List String))
  unfolding explore edges_of
  bfs zero g to visited queue = none
  bfs (suc fuel) g to visited [] = some none
  bfs (suc fuel) g to visited (n ∷ queue) =
      elim (explore to n.path (edges_of g n.entity_id) visited queue) [
        | found p ↦ some (some p)
        | going visited' queue' ↦ bfs fuel g to visited' queue'
      ]

  -- ShortestPath
  unfoldable pub shortest_path :
      ℕ → GraphStore F → (from to : String) → Option (Option (List String))
  unfolding bfs
  shortest_path fuel g from to =
      if from =ˢ to
      then some (some (from ∷ []))
      else bfs fuel g to (from ∷ []) (record { entity_id = from; path = from ∷ [] } ∷ [])

  -- The loops of Neighbors over one map, with the entities seen so far.
  unfoldable pub neighbors_from :
      (Relationship F → String) → List Entity → List (Relationship F) → List Entity → List Entity
  unfolding find_entity is_in
  neighbors_from end es [] seen = seen
  neighbors_from end es (r ∷ rs) seen =
      let passed = neighbors_from end es rs seen in
      elim (find_entity (end r) es) [
        | none ↦ passed
        | some e ↦
            let entered = neighbors_from end es rs (seen ++ e ∷ []) in
            if is_in e.id (map (λ (f : Entity). f.id) seen) then passed else entered
      ]

  unfoldable pub neighbors : String → GraphStore F → List Entity × List (Relationship F)
  unfolding neighbors_from rels_at adjacent
  neighbors x g = (
    neighbors_from (λ r. r.from) g.entities (in_rels g x)
        (neighbors_from (λ r. r.to) g.entities (out_rels g x) []),
    out_rels g x ++ in_rels g x,
  )

  abbrev pub stats : GraphStore F → ℕ × ℕ
  stats g = (length g.entities, length g.relationships)

  module _ (s : GraphSetting F) where
    abbrev pub is_same_entity : EntityCandidate → Entity → Bool
    is_same_entity c e = s.equal_fold e.name c.name && s.equal_fold e.type_of c.type_of

    -- The walk of UpsertEntity over the map, `none` if no entity has the name and the type.
    unfoldable pub merge_entity : EntityCandidate → List Entity → Option (List Entity)
    unfolding merge_labels
    merge_entity c [] = none
    merge_entity c (e ∷ es) =
        let rest = merge_entity c es in
        if is_same_entity c e
        then some (record e { labels = merge_labels e.labels c.labels } ∷ es)
        else elim rest [ none ↦ none | some es' ↦ some (e ∷ es') ]

    -- UpsertEntity; `new_id` is the id that a new entity gets.
    unfoldable pub upsert_entity : (new_id : String) → EntityCandidate → GraphStore F → GraphStore F
    unfolding merge_entity put_entity
    upsert_entity new_id c g = elim (merge_entity c g.entities) [
      | some es ↦ record g { entities = es }
      | none ↦
          let e : Entity = record {
            id = new_id;
            name = c.name;
            type_of = c.type_of;
            labels = c.labels;
          } in
          record g { entities = put_entity e g.entities }
    ]

    unfoldable pub resolve_name : String → List Entity → String
    resolve_name name [] = ""
    resolve_name name (e ∷ es) =
        let rest = resolve_name name es in if s.equal_fold e.name name then e.id else rest

    -- The position of the relationship that AddRelationship updates.
    unfoldable pub find_same :
        (from to type_of : String) → ℕ → List (Relationship F) → Option (ℕ × Relationship F)
    find_same from to type_of i [] = none
    find_same from to type_of i (r ∷ rs) =
        let rest = find_same from to type_of (suc i) rs in
        if (r.from =ˢ from) && (r.to =ˢ to) && (r.type_of =ˢ type_of) then some (i, r) else rest

    unfoldable pub link_or_update :
        (new_id from to : String) → RelCandidate F → GraphStore F → GraphStore F
    unfolding find_same set_at add_rel
    link_or_update new_id from to c g = elim (find_same from to c.type_of 0 g.relationships) [
      | some (i, r) ↦
          if s.exceeds c.weight r.weight
          then record g {
            relationships = set_at i (record r { weight = c.weight }) g.relationships;
          }
          else g
      | none ↦
          let r : Relationship F = record {
            id = new_id;
            from = from;
            to = to;
            type_of = c.type_of;
            weight = c.weight;
          } in
          add_rel r g
    ]

    -- AddRelationship
    unfoldable pub add_relationship :
        (new_id : String) → RelCandidate F → GraphStore F → GraphStore F
    unfolding resolve_name link_or_update
    add_relationship new_id c g =
        let from = resolve_name c.from g.entities in
        let to = resolve_name c.to g.entities in
        if is_empty from || is_empty to then g else link_or_update new_id from to c g

    -- UpsertRelationships, with an id for each candidate; the write to the file is left out.
    unfoldable pub upsert_entities : List (String × EntityCandidate) → GraphStore F → GraphStore F
    unfolding upsert_entity
    upsert_entities [] g = g
    upsert_entities ((x, c) ∷ cs) g = upsert_entities cs (upsert_entity x c g)

    unfoldable pub add_relationships : List (String × RelCandidate F) → GraphStore F → GraphStore F
    unfolding add_relationship
    add_relationships [] g = g
    add_relationships ((x, c) ∷ cs) g = add_relationships cs (add_relationship x c g)

    unfoldable pub upsert_relationships :
        List (String × EntityCandidate)
        → List (String × RelCandidate F)
        → GraphStore F
        → GraphStore F
    unfolding upsert_entities add_relationships
    upsert_relationships es rs g = add_relationships rs (upsert_entities es g)

    unfoldable pub any_contains : String → List String → Bool
    unfolding contains
    any_contains q [] = false
    any_contains q (l ∷ ls) = contains (s.to_lower l) q || any_contains q ls

    unfoldable pub matches : String → Entity → Bool
    unfolding contains any_contains
    matches q e =
        contains (s.to_lower e.name) q
        || contains (s.to_lower e.type_of) q
        || any_contains q e.labels

    -- The loop of SearchEntities. The limit is looked at after each entity.
    unfoldable pub search_from :
        String → (limit : ℕ) → List Entity → (result : List Entity) → List Entity
    unfolding matches
    search_from q limit [] result = result
    search_from q limit (e ∷ es) result =
        let result' = if matches q e then result ++ e ∷ [] else result in
        let rest = search_from q limit es result' in
        if leb limit (length result') then result' else rest

    unfoldable pub search_entities : String → (limit : ℕ) → GraphStore F → List Entity
    unfolding search_from
    search_entities query limit g = search_from (s.to_lower query) limit g.entities []
