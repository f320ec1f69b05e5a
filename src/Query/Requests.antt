-- ===== src/Query/Requests.antt =====
-- The validation of a knowledge query (app/services/knowledge_query.py): `_validate_request` and the
-- validators that it calls. `strip` stands for `str.strip`; the type tests on the fields hold by the
-- types, and a limit that is not positive is 0.
pub mod Tags
use vault_bridge.Base.{
  ℕ, ◌+◌, ◌^◌, Bool, true, false, not, ◌&&◌, ◌||◌, Option, none, some, List, [], ◌∷◌, if◌then◌else◌,
  length, any, every, leb,
}
use vault_bridge.Base.Codes.{Codes, same_codes, utf8_size, in_range}

abbrev pub max_limit : ℕ
max_limit = 100

-- MAX_PATHS and the limits of the other collections
abbrev pub max_paths : ℕ
max_paths = 64

abbrev pub max_tags : ℕ
max_tags = 16

abbrev pub max_metadata_predicates : ℕ
max_metadata_predicates = 16

abbrev pub max_relationship_predicates : ℕ
max_relationship_predicates = 16

-- the value of a metadata predicate; a float says whether it is finite, and `foreign` is no scalar
pub data RequestValue : Type 0 where
  omitted null_value foreign : RequestValue
  text_value : Codes → RequestValue
  bool_value : Bool → RequestValue
  int_value : Bool → ℕ → RequestValue
  float_value : Bool → RequestValue

pub data RequestOperator : Type 0 where
  asks_exists asks_equals asks_not_equals asks_sequence_contains unknown_operator : RequestOperator

pub record RequestPredicate : Type 0 where
  pub key : Codes
  pub operator : RequestOperator
  pub value : RequestValue

pub data RequestDirection : Type 0 where
  outgoing incoming unknown_direction : RequestDirection

pub data RequestOrigin : Type 0 where
  any_origin obsidian_wikilink markdown_link unknown_origin : RequestOrigin

pub record RequestRelationship : Type 0 where
  pub direction : RequestDirection
  pub other_path : Codes
  pub origin : RequestOrigin

pub record KnowledgeQuery : Type 0 where
  pub semantic_text : Option Codes
  pub literal_text : Option Codes
  pub folder : Option Codes
  pub paths : List Codes
  pub tags : List Codes
  pub metadata : List RequestPredicate
  pub relationships : List RequestRelationship
  pub limit : ℕ

abbrev pub is_empty {ℓ} : {A : Type ℓ} → List A → Bool
is_empty [] = true
is_empty (_ ∷ _) = false

-- `encode("utf-8")` does not raise
abbrev pub can_encode : Codes → Bool
can_encode l = every (λ c. not (in_range 0xd800 0xdfff c)) l

-- _bounded_text
abbrev pub bounded_text : (Codes → Codes) → ℕ → Bool → Bool → Codes → Bool
bounded_text strip maximum allow_empty trim_empty value =
    (allow_empty || not (is_empty value || trim_empty && is_empty (strip value)))
    && can_encode value
    && leb (utf8_size value) maximum

-- _bounded_scope_path
abbrev pub bounded_scope_path : (Codes → Codes) → Codes → Bool
bounded_scope_path strip value =
    bounded_text strip 1024 false true value && same_codes value (strip value)

-- a text that may be left out
abbrev pub bounded_option : (Codes → Bool) → Option Codes → Bool
bounded_option test none = true
bounded_option test (some value) = test value

-- the tests on the value of a predicate other than `exists`; a negative integer has its size here
abbrev pub bounded_value : (Codes → Codes) → RequestValue → Bool
bounded_value strip omitted = false
bounded_value strip foreign = false
bounded_value strip (text_value s) = bounded_text strip 1024 true false s
bounded_value strip (int_value true n) = leb n (2 ^ 63)
bounded_value strip (int_value false n) = leb (n + 1) (2 ^ 63)
bounded_value strip (float_value finite) = finite
bounded_value strip _ = true

abbrev pub is_omitted : RequestValue → Bool
is_omitted omitted = true
is_omitted _ = false

abbrev pub accepts_operator : (Codes → Codes) → RequestOperator → RequestValue → Bool
accepts_operator strip unknown_operator value = false
accepts_operator strip asks_exists value = is_omitted value
accepts_operator strip _ value = bounded_value strip value

-- _validate_metadata_predicate
abbrev pub accepts_predicate : (Codes → Codes) → RequestPredicate → Bool
accepts_predicate strip p =
    bounded_text strip 256 true false p.key && accepts_operator strip p.operator p.value

abbrev pub known_direction : RequestDirection → Bool
known_direction unknown_direction = false
known_direction _ = true

abbrev pub known_origin : RequestOrigin → Bool
known_origin unknown_origin = false
known_origin _ = true

-- the loop of `_validate_request` over the relationships
abbrev pub accepts_relationship : (Codes → Codes) → RequestRelationship → Bool
accepts_relationship strip r =
    known_direction r.direction && known_origin r.origin && bounded_scope_path strip r.other_path

abbrev pub is_given : Option Codes → Bool
is_given none = false
is_given (some _) = true

-- the last test: something is asked for
abbrev pub asks_something : KnowledgeQuery → Bool
asks_something q =
    is_given q.semantic_text
    || is_given q.literal_text
    || is_given q.folder
    || not (is_empty q.paths)
    || not (is_empty q.tags)
    || not (is_empty q.metadata)
    || not (is_empty q.relationships)

-- the limit and the sizes of the collections
unfoldable pub counts_fit : KnowledgeQuery → Bool
counts_fit q =
    leb 1 q.limit
    && leb q.limit max_limit
    && leb (length q.paths) max_paths
    && leb (length q.metadata) max_metadata_predicates
    && leb (length q.relationships) max_relationship_predicates
    && leb (length q.tags) max_tags

-- the members of the request
unfoldable pub members_fit : (Codes → Codes) → KnowledgeQuery → Bool
members_fit strip q =
    bounded_option (bounded_text strip 4096 false false) q.semantic_text
    && bounded_option (bounded_text strip 8192 false false) q.literal_text
    && bounded_option (bounded_scope_path strip) q.folder
    && every (bounded_scope_path strip) q.paths
    && every (bounded_text strip 1024 false true) q.tags
    && every (accepts_predicate strip) q.metadata
    && every (accepts_relationship strip) q.relationships

-- the tests of `_validate_request`
unfoldable pub accepts_request : (Codes → Codes) → KnowledgeQuery → Bool
unfolding counts_fit members_fit
accepts_request strip q = counts_fit q && members_fit strip q && asks_something q

-- the loop over the tags: each stripped tag once; `seen` are those before
unfoldable pub normalized_tags : (Codes → Codes) → List Codes → List Codes → List Codes
normalized_tags strip seen [] = []
normalized_tags strip seen (tag ∷ tags) =
    let skipped = normalized_tags strip seen tags in
    let kept = strip tag ∷ normalized_tags strip (strip tag ∷ seen) tags in
    if any (λ t. same_codes t (strip tag)) seen then skipped else kept

-- _validate_request; `none` is the InvalidKnowledgeQueryError
unfoldable pub validate_request : (Codes → Codes) → KnowledgeQuery → Option (List Codes)
unfolding accepts_request normalized_tags
validate_request strip q =
    if accepts_request strip q then some (normalized_tags strip [] q.tags) else none
