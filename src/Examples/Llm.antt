-- ===== src/Examples/Llm.antt =====
-- llm/caller.go: an object in an answer with other words around it.
use kugelblitz.Common.{String, some, ◌≡◌, ◌⊎◌, refl}
use kugelblitz.Llm.{extract_json, match_delim, match_from, kind, quoted_kind}
use kugelblitz.Llm.Balanced.{join, IsValue, extract_json-IsValue}

abbrev answer : String
answer = "It is {\"a\": [\"}\"]} ."

answer_json : extract_json answer ≡ some "{\"a\": [\"}\"]}"
unfolding extract_json match_delim match_from kind quoted_kind
answer_json = refl

extract_json-IsValue_example :
    (before : String) × (after : String) × (answer ≡ join before (join "{\"a\": [\"}\"]}" after))
    × (IsValue "{" "}" "{\"a\": [\"}\"]}" ⊎ IsValue "[" "]" "{\"a\": [\"}\"]}")
extract_json-IsValue_example = extract_json-IsValue answer "{\"a\": [\"}\"]}" answer_json
