-- ===== src/Query.antt =====
-- The matching of a knowledge query (app/services/knowledge_query.py): metadata predicates and
-- relationship predicates against one note.
-- Floating-point numbers are opaque: a number stands for one, and their equality is an argument.
pub mod Requests
pub mod Metadata
mod Samples
use vault_bridge.Base.{
  ℕ, String, Bool, true, false, not, ◌&&◌, ◌||◌, Option, none, some, List, [], ◌∷◌, ◌==◌, str_eq,
  any, every, if◌then◌else◌,
}
use vault_bridge.Base.Dict.{get}

-- PortableScalar; an integer is its sign and its size.
pub data Scalar : Type 0 where
  null : Scalar
  text : String → Scalar
  truth : Bool → Scalar
  integer : Bool → ℕ → Scalar
  floating : ℕ → Scalar

-- PortableValue as the matching reads it: a member of a sequence that is no scalar, and a mapping,
-- never match.
pub data Value : Type 0 where
  scalar : Scalar → Value
  sequence : List (Option Scalar) → Value
  mapping : Value

-- MetadataOperator
pub data Operator : Type 0 where
  exists equals not_equals sequence_contains : Operator

-- MetadataPredicate; `none` is OMITTED
pub record MetadataPredicate : Type 0 where
  pub key : String
  pub operator : Operator
  pub value : Option Scalar

-- _same_scalar_type, of two scalars
unfoldable pub same_type : Scalar → Scalar → Bool
same_type null null = true
same_type (text _) (text _) = true
same_type (truth _) (truth _) = true
same_type (integer _ _) (integer _ _) = true
same_type (floating _) (floating _) = true
same_type _ _ = false

abbrev pub same_truth : Bool → Bool → Bool
same_truth true b = b
same_truth false b = not b

-- `==` of scalars of the same type
unfoldable pub same_scalar : (ℕ → ℕ → Bool) → Scalar → Scalar → Bool
same_scalar float_eq null null = true
same_scalar float_eq (text a) (text b) = str_eq a b
same_scalar float_eq (truth a) (truth b) = same_truth a b
same_scalar float_eq (integer s a) (integer t b) = a == b && (same_truth s t || a == 0)
same_scalar float_eq (floating a) (floating b) = float_eq a b
same_scalar float_eq _ _ = false

abbrev pub equals_value : (ℕ → ℕ → Bool) → Bool → Value → Option Scalar → Bool
equals_value float_eq wanted (scalar s) (some r) =
    same_type s r && same_truth wanted (same_scalar float_eq s r)
equals_value float_eq wanted _ _ = false

abbrev pub is_member : (ℕ → ℕ → Bool) → Option Scalar → Option Scalar → Bool
is_member float_eq (some r) (some s) = same_type s r && same_scalar float_eq s r
is_member float_eq _ _ = false

abbrev pub contains_value : (ℕ → ℕ → Bool) → Value → Option Scalar → Bool
contains_value float_eq (sequence members) requested = any (is_member float_eq requested) members
contains_value float_eq _ requested = false

-- the tests on a key that is present
abbrev pub match_value : (ℕ → ℕ → Bool) → Operator → Value → Option Scalar → Bool
match_value float_eq exists stored requested = true
match_value float_eq equals stored requested = equals_value float_eq true stored requested
match_value float_eq not_equals stored requested = equals_value float_eq false stored requested
match_value float_eq sequence_contains stored requested = contains_value float_eq stored requested

abbrev pub match_stored : (ℕ → ℕ → Bool) → MetadataPredicate → Option Value → Bool
match_stored float_eq p none = false
match_stored float_eq p (some stored) = match_value float_eq p.operator stored p.value

-- _matches_metadata_predicate
unfoldable pub matches_predicate : (ℕ → ℕ → Bool) → List (String × Value) → MetadataPredicate → Bool
unfolding same_type same_scalar
matches_predicate float_eq metadata p = match_stored float_eq p (get p.key metadata)

-- _matches_metadata; `none` for frontmatter that is missing, invalid or without metadata
unfoldable pub matches_metadata :
    (ℕ → ℕ → Bool) → Option (List (String × Value)) → List MetadataPredicate → Bool
unfolding matches_predicate
matches_metadata float_eq none predicates = false
matches_metadata float_eq (some metadata) predicates =
    every (matches_predicate float_eq metadata) predicates

-- What the matching reads of a RelationshipOccurrence: `is_link` says that it is a resolved note
-- link; origins are numbers.
pub record Occurrence : Type 0 where
  pub is_link : Bool
  pub resolved_path : Option String
  pub origin : ℕ

-- RelationshipPredicate, with the path that its target resolves to
pub record RelationshipPredicate : Type 0 where
  pub outgoing : Bool
  pub target_path : Option String
  pub origin : Option ℕ

abbrev pub same_path : Option String → String → Bool
same_path none path = false
same_path (some p) path = str_eq p path

abbrev pub origin_fits : Option ℕ → ℕ → Bool
origin_fits none origin = true
origin_fits (some o) origin = origin == o

-- the test on one occurrence
abbrev pub is_evidence : Option ℕ → String → Occurrence → Bool
is_evidence origin path o =
    o.is_link && same_path o.resolved_path path && origin_fits origin o.origin

-- the body of the loop, for a predicate
unfoldable pub matches_relationship :
    String → List Occurrence → (String → List Occurrence) → RelationshipPredicate → Bool
matches_relationship candidate_path outgoing incoming p = elim p.target_path [
  | none ↦ false
  | some target ↦
      if p.outgoing
      then any (is_evidence p.origin target) outgoing
      else any (is_evidence p.origin candidate_path) (incoming target)
]

-- _matches_relationships
unfoldable pub matches_relationships :
    String → List Occurrence → (String → List Occurrence) → List RelationshipPredicate → Bool
unfolding matches_relationship
matches_relationships candidate_path outgoing incoming predicates =
    every (matches_relationship candidate_path outgoing incoming) predicates
