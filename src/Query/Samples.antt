-- ===== src/Query/Samples.antt =====
-- Metadata predicates at a concrete note, and a concrete request.
use vault_bridge.Base.{◌≡◌, ◌↔◌, ◌≤◌, refl, none, some, length, String, true, List, [], ◌∷◌, ◌==◌}
use vault_bridge.Base.Dict.{get}
use vault_bridge.Query.{Value, MetadataPredicate, scalar, text, not_equals, matches_predicate}
use vault_bridge.Base.Codes.{Codes}
use vault_bridge.Query.Requests.{KnowledgeQuery, accepts_request, validate_request}
use vault_bridge.Query.Requests.Tags.{IsDistinct, has_tag, asks_for, validate_request-IsDistinct}
use vault_bridge.Query.Metadata.{IsMatch, matches_predicate-IsMatch}

abbrev note : List (String × Value)
note = ("status", scalar (text "draft")) ∷ []

-- `status` is not `done`
abbrev not_done : MetadataPredicate
not_done = record { key = "status"; operator = not_equals; value = some (text "done") }

not_done_matches : matches_predicate (λ a b. a == b) note not_done ≡ true
unfolding matches_predicate get
not_done_matches = refl

matches_predicate-IsMatch_example :
    (matches_predicate (λ a b. a == b) note not_done ≡ true)
    ↔ IsMatch (λ a b. a == b) not_equals (some (text "done")) (get "status" note)
matches_predicate-IsMatch_example = matches_predicate-IsMatch (λ a b. a == b) note not_done

-- a request for one tag, twice
abbrev request : KnowledgeQuery
request = record {
  semantic_text = none;
  literal_text = none;
  folder = none;
  paths = [];
  tags = (97 ∷ []) ∷ (97 ∷ []) ∷ [];
  metadata = [];
  relationships = [];
  limit = 20;
}

request_validated : validate_request (λ s. s) request ≡ some ((97 ∷ []) ∷ [])
unfolding validate_request
request_validated = refl

validate_request-IsDistinct_example :
    (accepts_request (λ s. s) request ≡ true)
    × IsDistinct ((97 ∷ []) ∷ [])
    × (length {A = Codes} ((97 ∷ []) ∷ []) ≤ 16)
    × ((t : Codes) → has_tag t ((97 ∷ []) ∷ []) ≡ asks_for (λ s. s) t request.tags)
validate_request-IsDistinct_example =
    validate_request-IsDistinct (λ s. s) request ((97 ∷ []) ∷ []) request_validated
