-- ===== src/Frontmatter/Build/Scalar.antt =====
-- What the builder makes of one scalar or one key (app/services/frontmatter.py).
use vault_bridge.Base.{
  ℕ, ◌+◌, ◌≤◌, ◌≡◌, refl, Bool, true, false, not, ◌&&◌, Option, none, some, if◌then◌else◌, leb, ltb,
  arith, Bool-cases, inl, inr,
}
use vault_bridge.Base.Codes.{Codes, utf8_size, slice}
use vault_bridge.Frontmatter.{
  Value, null, text, truth, integer, floating, sequence, mapping, done, raised,
  max_mapping_key_bytes, max_items, non_string_key, max_scalar_bytes, scalar_too_large,
  disallowed_yaml_feature,
}
use vault_bridge.Frontmatter.Scalars.{
  resolve_core_scalar, is_null, is_true, is_false, integer_digits, without_sign, Digits, signed,
  is_minus, number_of, is_special_float, is_finite_float,
}
use vault_bridge.Frontmatter.Build.{
  Mark, ScalarEvent, Event, Source, alias, scalar, mapping_start, sequence_start, count_item,
  resolved, checked_key, build_scalar, build_key, node_mark, is_merge, invalid_at,
}
use vault_bridge.Frontmatter.Build.Ensures.{Ensures, holds, rejected, Ensures-bind, ensure-holds}
use vault_bridge.Frontmatter.Build.Fits.{is_scalar, scalar_at_most, if-scalar}

resolve-scalar :
    (float : Codes → Option ℕ) (c : Codes) (b : Bool)
    → scalar_at_most (resolve_core_scalar float c b) ≡ true
unfolding resolve_core_scalar
resolve-scalar float c b = if-scalar (not b) _ _ refl (
    if-scalar (is_null c) _ _ refl (
      if-scalar (is_true c) _ _ refl
        (if-scalar (is_false c) _ _ refl (number (integer_digits (without_sign c))))))
  where
    float_at :
        (o : Option ℕ) → scalar_at_most (elim o [ none ↦ none | some x ↦ some (floating x) ]) ≡ true
    float_at none = refl
    float_at (some x) = refl

    number :
        (o : Option Digits)
        → scalar_at_most (elim o [
          | some d ↦ some (signed (is_minus c) (number_of d))
          | none ↦
              if is_special_float c
              then none
              else if is_finite_float (without_sign c)
              then (elim (float c) [ none ↦ none | some x ↦ some (floating x) ])
              else some (text c)
        ])
          ≡ true
    number (some d) = refl
    number none =
        if-scalar (is_special_float c) _ _ refl
          (if-scalar (is_finite_float (without_sign c)) _ _ (float_at (float c)) refl)

resolved-scalar :
    (o : Option Value) → scalar_at_most o ≡ true → Ensures (λ v. is_scalar v ≡ true) (resolved o)
resolved-scalar none h = rejected
resolved-scalar (some v) h = holds h

-- The answer is a text that is short enough for a key.
abbrev IsKeyText : Value → Type 0
IsKeyText w = (k : Codes) × (w ≡ text k) × (utf8_size k ≤ max_mapping_key_bytes)

checked_key-size : (e : ScalarEvent) (v : Value) → Ensures IsKeyText (checked_key e v)
checked_key-size e (text k) =
    Ensures-bind (ensure-holds (leb (utf8_size k) max_mapping_key_bytes) _)
      (λ _ h. holds (k, refl, ground arith))
checked_key-size e null = rejected
checked_key-size e (truth b) = rejected
checked_key-size e (integer b n) = rejected
checked_key-size e (floating x) = rejected
checked_key-size e (sequence xs) = rejected
checked_key-size e (mapping fs) = rejected

pub build_value-scalar :
    (s : Source) (e : ScalarEvent) → Ensures (λ v. is_scalar v ≡ true) (build_scalar s false e)
unfolding build_scalar
build_value-scalar s e = Ensures-bind (ensure-holds _ _) (λ _ _.
    Ensures-bind (resolved-scalar _ (resolve-scalar s.float e.value (e.plain && e.implicit)))
      (λ v h. holds h))

build_scalar-key : (s : Source) (e : ScalarEvent) → Ensures IsKeyText (build_scalar s true e)
unfolding build_scalar
build_scalar-key s e =
    let size = utf8_size (slice e.start_mark.index e.end_index s.payload) in
    let plain = e.plain && e.implicit in
    Ensures-bind
      (ensure-holds (leb size max_scalar_bytes) (invalid_at scalar_too_large e.start_mark))
      (λ _ _.
        Ensures-bind
          (ensure-holds (not (true && plain && is_merge e.value))
            (invalid_at disallowed_yaml_feature e.start_mark))
          (λ _ _.
            Ensures-bind (resolved-scalar _ (resolve-scalar s.float e.value plain))
              (λ v _. checked_key-size e v)))

pub build_key-size :
    (s : Source) (event : Event)
    → Ensures (λ k. utf8_size k ≤ max_mapping_key_bytes) (build_key s event)
unfolding build_key
build_key-size s (scalar e) =
    Ensures-bind (ensure-holds (not e.named) _)
      (λ _ _. Ensures-bind (build_scalar-key s e) (λ w h. at_text w h))
  where
    at_text :
        (w : Value)
        → IsKeyText w
        → Ensures
            (λ k. utf8_size k ≤ max_mapping_key_bytes)
            (elim w [ text k ↦ done k | _ ↦ raised (invalid_at non_string_key e.start_mark) ])
    at_text (text j) (k, same, h) = holds (ground arith)
    at_text null _ = rejected
    at_text (truth b) _ = rejected
    at_text (integer b n) _ = rejected
    at_text (floating x) _ = rejected
    at_text (sequence xs) _ = rejected
    at_text (mapping fs) _ = rejected
build_key-size s (alias m) = rejected
build_key-size s (mapping_start named m) =
    Ensures-bind (ensure-holds (not named) (invalid_at disallowed_yaml_feature m))
      (λ _ _. rejected {d = invalid_at non_string_key m})
build_key-size s (sequence_start named m) =
    Ensures-bind (ensure-holds (not named) (invalid_at disallowed_yaml_feature m))
      (λ _ _. rejected {d = invalid_at non_string_key m})
build_key-size s _ = rejected

pub node_mark-holds : (e : Event) → Ensures (λ _. Unit {0}) (node_mark e)
node_mark-holds (alias m) = holds tt
node_mark-holds (scalar e) = holds tt
node_mark-holds (mapping_start n m) = holds tt
node_mark-holds (sequence_start n m) = holds tt
node_mark-holds _ = rejected

pub count_item-holds :
    (count : ℕ) (m : Mark) → Ensures (λ n. (n ≡ count + 1) × (n ≤ max_items)) (count_item count m)
unfolding count_item
count_item-holds count m = elim (Bool-cases (ltb max_items (count + 1))) [
  | inl over ↦ rw over rejected
  | inr fits ↦ rw fits (holds (refl, ground arith))
]
