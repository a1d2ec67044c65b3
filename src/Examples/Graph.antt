-- ===== src/Examples/Graph.antt =====
-- memory/longterm/graph.go: a graph of three entities.
use kugelblitz.Common.{ℕ, suc, String, Option, some, List, [], ◌∷◌, length, ltb, ◌=ˢ◌, ◌≡◌}
use kugelblitz.Longterm.Graph.{
  EntityCandidate, RelCandidate, GraphStore, GraphSetting, GraphEvent, entity_event,
  relationship_event, load_events, empty_graph, shortest_path, upsert_relationships,
}
use kugelblitz.Longterm.Graph.Links.{Linked, load_events-Linked, upsert_relationships-Linked}
use kugelblitz.Longterm.Graph.Paths.{ends, Answers, shortest_path-Answers}

abbrev entity : String → GraphEvent ℕ
entity n = entity_event (record { id = n; name = n; type_of = "file"; labels = [] })

abbrev uses : String → String → GraphEvent ℕ
uses a b = relationship_event (record { id = a; from = a; to = b; type_of = "uses"; weight = 1 })

abbrev three_files : GraphStore ℕ
three_files =
    load_events (entity "a" ∷ entity "b" ∷ entity "c" ∷ uses "a" "b" ∷ uses "c" "b" ∷ [])
      empty_graph

three_files-Linked : Linked three_files
three_files-Linked =
    load_events-Linked (entity "a" ∷ entity "b" ∷ entity "c" ∷ uses "a" "b" ∷ uses "c" "b" ∷ [])

shortest_path-Answers_example :
    (r : Option (List String)) × (shortest_path
        (suc (suc (length (ends three_files "a" "c"))))
        three_files
        "a"
        "c"
      ≡ some r)
    × Answers three_files "a" "c" r
shortest_path-Answers_example = shortest_path-Answers three_files "a" "c" three_files-Linked

abbrev exact : GraphSetting ℕ
exact = record { equal_fold = λ a b. a =ˢ b; to_lower = λ t. t; exceeds = λ a b. ltb b a }

abbrev candidate : String → EntityCandidate
candidate n = record { name = n; type_of = "file"; labels = [] }

abbrev stronger : RelCandidate ℕ
stronger = record { from = "a"; to = "b"; type_of = "uses"; weight = 2 }

upsert_relationships-Linked_example :
    Linked
      (upsert_relationships exact (("d", candidate "d") ∷ []) (("r", stronger) ∷ []) three_files)
upsert_relationships-Linked_example =
    upsert_relationships-Linked exact (("d", candidate "d") ∷ []) (("r", stronger) ∷ []) three_files
      three_files-Linked
