-- ===== src/Query/Metadata.antt =====
-- When a metadata predicate matches (app/services/knowledge_query.py): a description of the match that
-- uses none of the tests of the code.
use vault_bridge.Base.{
  ℕ, ◌≡◌, ◌↔◌, refl, sym, String, Bool, true, false, Option, none, some, List, [], ◌∷◌, eq_iff, any,
  arith, Bool-cases, inl, inr,
}
use vault_bridge.Base.Dict.{get}
use vault_bridge.Query.{
  Scalar, Value, Operator, MetadataPredicate, null, text, truth, integer, floating, scalar,
  sequence, mapping, exists, equals, not_equals, sequence_contains, same_type, same_scalar,
  matches_predicate, same_truth, match_stored, match_value, is_member,
}

-- Two scalars have one type.
pub data IsAlike : Scalar → Scalar → Type 0 where
  nulls : IsAlike null null
  texts : {a b : String} → IsAlike (text a) (text b)
  truths : {a b : Bool} → IsAlike (truth a) (truth b)
  integers : {s t : Bool} {a b : ℕ} → IsAlike (integer s a) (integer t b)
  floats : {a b : ℕ} → IsAlike (floating a) (floating b)

-- Two scalars have one type and are equal; zero has one value with both signs.
pub data IsEqual (float_eq : ℕ → ℕ → Bool) : Scalar → Scalar → Type 0 where
  nulls : IsEqual float_eq null null
  texts : {a b : String} → a ≡ b → IsEqual float_eq (text a) (text b)
  truths : {a b : Bool} → a ≡ b → IsEqual float_eq (truth a) (truth b)
  integers : {s t : Bool} {a b : ℕ} → s ≡ t → a ≡ b → IsEqual float_eq (integer s a) (integer t b)
  zeros : {s t : Bool} {a b : ℕ} → a ≡ 0 → b ≡ 0 → IsEqual float_eq (integer s a) (integer t b)
  floats : {a b : ℕ} → float_eq a b ≡ true → IsEqual float_eq (floating a) (floating b)

-- A sequence has a scalar member that is equal to the requested one.
pub data HasEqual (float_eq : ℕ → ℕ → Bool) (r : Scalar) : List (Option Scalar) → Type 0 where
  first :
      {s : Scalar} {members : List (Option Scalar)}
      → IsEqual float_eq s r
      → HasEqual float_eq r (some s ∷ members)
  later :
      {m : Option Scalar} {members : List (Option Scalar)}
      → HasEqual float_eq r members
      → HasEqual float_eq r (m ∷ members)

-- The ways in which a predicate matches what is stored at its key.
pub data IsMatch (float_eq : ℕ → ℕ → Bool) : Operator → Option Scalar → Option Value → Type 0 where
  present : {requested : Option Scalar} {v : Value} → IsMatch float_eq exists requested (some v)
  equal : {r s : Scalar} → IsEqual float_eq s r → IsMatch float_eq equals (some r) (some (scalar s))
  different :
      {r s : Scalar}
      → IsAlike s r
      → ¬ IsEqual float_eq s r
      → IsMatch float_eq not_equals (some r) (some (scalar s))
  contained :
      {r : Scalar} {members : List (Option Scalar)}
      → HasEqual float_eq r members
      → IsMatch float_eq sequence_contains (some r) (some (sequence members))

same_type-IsAlike : (s r : Scalar) → same_type s r ≡ true → IsAlike s r
unfolding same_type
same_type-IsAlike null null h = nulls
same_type-IsAlike (text _) (text _) h = texts
same_type-IsAlike (truth _) (truth _) h = truths
same_type-IsAlike (integer _ _) (integer _ _) h = integers
same_type-IsAlike (floating _) (floating _) h = floats
same_type-IsAlike _ _ h = absurd (ground arith)

IsAlike-same_type : {s r : Scalar} → IsAlike s r → same_type s r ≡ true
unfolding same_type
IsAlike-same_type nulls = refl
IsAlike-same_type texts = refl
IsAlike-same_type truths = refl
IsAlike-same_type integers = refl
IsAlike-same_type floats = refl

-- `==` of the code between scalars of one type is their equality.
same_scalar-IsEqual :
    (float_eq : ℕ → ℕ → Bool) (s r : Scalar)
    → same_scalar float_eq s r ≡ true
    → IsEqual float_eq s r
unfolding same_scalar
same_scalar-IsEqual float_eq null null h = nulls
same_scalar-IsEqual float_eq (text a) (text b) h = texts ((eq_iff a b).0 h)
same_scalar-IsEqual float_eq (truth true) (truth b) h = truths (sym h)
same_scalar-IsEqual float_eq (truth false) (truth b) h = truths (ground arith)
same_scalar-IsEqual float_eq (integer s a) (integer t b) h = elim (Bool-cases (same_truth s t)) [
  | inl signs ↦ integers (ground arith) (ground arith)
  | inr apart ↦ zeros (ground arith) (ground arith)
]
same_scalar-IsEqual float_eq (floating a) (floating b) h = floats h
same_scalar-IsEqual float_eq _ _ h = absurd (ground arith)

IsEqual-same_scalar :
    (float_eq : ℕ → ℕ → Bool) {s r : Scalar}
    → IsEqual float_eq s r
    → same_scalar float_eq s r ≡ true
unfolding same_scalar
IsEqual-same_scalar float_eq nulls = refl
IsEqual-same_scalar float_eq (texts {a} {b} e) = (eq_iff a b).1 e
IsEqual-same_scalar float_eq (truths e) = ground arith
IsEqual-same_scalar float_eq (integers e f) = ground arith
IsEqual-same_scalar float_eq (zeros e f) = ground arith
IsEqual-same_scalar float_eq (floats e) = e

IsEqual-IsAlike : {float_eq : ℕ → ℕ → Bool} {s r : Scalar} → IsEqual float_eq s r → IsAlike s r
IsEqual-IsAlike nulls = nulls
IsEqual-IsAlike (texts e) = texts
IsEqual-IsAlike (truths e) = truths
IsEqual-IsAlike (integers e f) = integers
IsEqual-IsAlike (zeros e f) = integers
IsEqual-IsAlike (floats e) = floats

is_member-IsEqual :
    (float_eq : ℕ → ℕ → Bool) (r s : Scalar)
    → is_member float_eq (some r) (some s) ≡ true
    → IsEqual float_eq s r
is_member-IsEqual float_eq r s h = same_scalar-IsEqual float_eq s r (ground arith)

IsEqual-is_member :
    (float_eq : ℕ → ℕ → Bool) (r s : Scalar)
    → IsEqual float_eq s r
    → is_member float_eq (some r) (some s) ≡ true
IsEqual-is_member float_eq r s e =
    ground (arith, IsAlike-same_type (IsEqual-IsAlike e), IsEqual-same_scalar float_eq e)

any-HasEqual :
    (float_eq : ℕ → ℕ → Bool) (r : Scalar) (members : List (Option Scalar))
    → any (is_member float_eq (some r)) members ≡ true
    → HasEqual float_eq r members
any-HasEqual float_eq r [] h = absurd (ground arith)
any-HasEqual float_eq r (none ∷ members) h = later (any-HasEqual float_eq r members h)
any-HasEqual float_eq r (some s ∷ members) h =
    elim (Bool-cases (is_member float_eq (some r) (some s))) [
      | inl member ↦ first (is_member-IsEqual float_eq r s member)
      | inr other ↦ later (any-HasEqual float_eq r members (ground arith))
    ]

HasEqual-any :
    (float_eq : ℕ → ℕ → Bool) (r : Scalar) {members : List (Option Scalar)}
    → HasEqual float_eq r members
    → any (is_member float_eq (some r)) members ≡ true
HasEqual-any float_eq r (first {s} e) = ground (arith, IsEqual-is_member float_eq r s e)
HasEqual-any float_eq r (later {m} h) = ground (arith, HasEqual-any float_eq r h)

match_stored-IsMatch :
    (float_eq : ℕ → ℕ → Bool) (p : MetadataPredicate) (o : Option Value)
    → match_stored float_eq p o ≡ true
    → IsMatch float_eq p.operator p.value o
match_stored-IsMatch float_eq p none h = absurd (ground arith)
match_stored-IsMatch float_eq p (some v) h = at p.operator p.value v h
  where
    at :
        (operator : Operator) (requested : Option Scalar) (v : Value)
        → match_value float_eq operator v requested ≡ true
        → IsMatch float_eq operator requested (some v)
    at exists requested v h = present
    at equals (some r) (scalar s) h = equal (is_member-IsEqual float_eq r s (ground arith))
    at equals none (scalar s) h = absurd (ground arith)
    at equals _ (sequence _) h = absurd (ground arith)
    at equals _ mapping h = absurd (ground arith)
    at not_equals (some r) (scalar s) h =
        different (same_type-IsAlike s r (ground arith))
          (λ e. absurd (ground (arith, IsEqual-same_scalar float_eq e)))
    at not_equals none (scalar s) h = absurd (ground arith)
    at not_equals _ (sequence _) h = absurd (ground arith)
    at not_equals _ mapping h = absurd (ground arith)
    at sequence_contains (some r) (sequence members) h =
        contained (any-HasEqual float_eq r members h)
    at sequence_contains none (sequence members) h = absurd (no_member members h)
      where
        no_member :
            (members : List (Option Scalar)) → ¬ (any (is_member float_eq none) members ≡ true)
        no_member [] h = ground arith
        no_member (m ∷ members) h = no_member members h
    at sequence_contains _ (scalar _) h = absurd (ground arith)
    at sequence_contains _ mapping h = absurd (ground arith)

IsMatch-match_stored :
    (float_eq : ℕ → ℕ → Bool) (key : String) {operator : Operator} {requested : Option Scalar}
    {o : Option Value}
    → IsMatch float_eq operator requested o
    → match_stored float_eq (record { key = key; operator = operator; value = requested }) o ≡ true
IsMatch-match_stored float_eq key present = refl
IsMatch-match_stored float_eq key (equal {r} {s} e) =
    ground (arith, IsEqual-is_member float_eq r s e)
IsMatch-match_stored float_eq key (different {r} {s} alike apart) =
    ground (arith, IsAlike-same_type alike, differ)
  where
    differ : same_scalar float_eq s r ≡ false
    differ = elim (Bool-cases (same_scalar float_eq s r)) [
      | inl same ↦ absurd (apart (same_scalar-IsEqual float_eq s r same))
      | inr other ↦ other
    ]
IsMatch-match_stored float_eq key (contained {r} h) = HasEqual-any float_eq r h

-- A predicate matches the metadata of a note exactly when its key is there and: `exists` asks for no
-- more; `equals` asks for a scalar that is equal to the requested one; `not_equals` for a scalar of its
-- type that is not equal; `sequence_contains` for a sequence with an equal scalar member. Equal
-- scalars have one type: they are null, equal texts, equal truth values, equal integers, or two
-- floating-point numbers that the given test says are equal.
pub matches_predicate-IsMatch :
    (float_eq : ℕ → ℕ → Bool) (metadata : List (String × Value)) (p : MetadataPredicate)
    → (matches_predicate float_eq metadata p ≡ true)
      ↔ IsMatch float_eq p.operator p.value (get p.key metadata)
unfolding matches_predicate
matches_predicate-IsMatch float_eq metadata p =
    (match_stored-IsMatch float_eq p (get p.key metadata), IsMatch-match_stored float_eq p.key)
