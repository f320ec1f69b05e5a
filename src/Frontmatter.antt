-- ===== src/Frontmatter.antt =====
-- YAML frontmatter of a note (app/services/frontmatter.py): its values, diagnostics and results. A text
-- is the list of its code points. A float is a number that stands for it.
pub mod Envelope
pub mod Scalars
pub mod Decimal
pub mod Build
pub mod Portable
pub mod Serialize
mod Samples
use vault_bridge.Base.{
  ℕ, suc, ◌+◌, Bool, true, false, ◌||◌, Option, none, some, List, [], ◌∷◌, if◌then◌else◌, leb,
}
use vault_bridge.Base.Codes.{Codes, same_codes}

-- PortableScalar and PortableValue; an integer is its sign and its size.
mutual
  pub data Value : Type 0 where
    null : Value
    text : Codes → Value
    truth : Bool → Value
    integer : Bool → ℕ → Value
    floating : ℕ → Value
    sequence : Items → Value
    mapping : Fields → Value

  pub data Items : Type 0 where
    no_items : Items
    item : Value → Items → Items

  pub data Fields : Type 0 where
    no_fields : Fields
    field : Codes → Value → Fields → Fields

-- FrontmatterReason
pub data Reason : Type 0 where
  malformed_envelope invalid_yaml non_mapping_root duplicate_key multiple_documents : Reason
  disallowed_yaml_feature non_string_key unsupported_value frontmatter_too_large : Reason
  scalar_too_large mapping_key_too_large container_too_deep too_many_items : Reason

-- FrontmatterDiagnostic; also `_InvalidFrontmatter`, which carries the same fields
pub record Diagnostic : Type 0 where
  pub reason : Reason
  pub line : Option ℕ
  pub column : Option ℕ

abbrev pub plain_reason : Reason → Diagnostic
plain_reason r = record { reason = r; line = none; column = none }

-- FrontmatterResult; each constructor carries the fields that its state allows
pub data FrontmatterResult : Type 0 where
  absent : FrontmatterResult
  valid : Fields → ℕ → FrontmatterResult
  invalid : Diagnostic → FrontmatterResult

-- MAX_FRONTMATTER_BYTES and the other limits
abbrev pub max_frontmatter_bytes : ℕ
max_frontmatter_bytes = 65536

abbrev pub max_scalar_bytes : ℕ
max_scalar_bytes = 8192

abbrev pub max_mapping_key_bytes : ℕ
max_mapping_key_bytes = 256

abbrev pub max_container_depth : ℕ
max_container_depth = 8

abbrev pub max_items : ℕ
max_items = 1024

abbrev pub max_portable_field_values : ℕ
max_portable_field_values = 256

abbrev pub max_portable_value_bytes : ℕ
max_portable_value_bytes = 1024

-- A step that answers or raises `_InvalidFrontmatter`; `out_of_fuel` has no counterpart in the code.
pub data Outcome {ℓ} (A : Type ℓ) : Type ℓ where
  done : A → Outcome A
  raised : Diagnostic → Outcome A
  out_of_fuel : Outcome A

infixl 5 ◌>>=◌
abbrev pub ◌>>=◌ {ℓ κ} : {A : Type ℓ} {B : Type κ} → Outcome A → (A → Outcome B) → Outcome B
done a >>= f = f a
raised d >>= f = raised d
out_of_fuel >>= f = out_of_fuel

-- metadata.get(key)
unfoldable pub get_field : Codes → Fields → Option Value
get_field k no_fields = none
get_field k (field j v fs) = if same_codes j k then some v else get_field k fs

-- `key in result`
unfoldable pub has_field : Codes → Fields → Bool
has_field k no_fields = false
has_field k (field j v fs) = same_codes j k || has_field k fs

-- result[key] = value, for a new key
unfoldable pub add_field : Fields → Codes → Value → Fields
add_field no_fields k v = field k v no_fields
add_field (field j w fs) k v = field j w (add_field fs k v)

-- result.append(value)
unfoldable pub add_item : Items → Value → Items
add_item no_items v = item v no_items
add_item (item w xs) v = item w (add_item xs v)

unfoldable pub count_items : Items → ℕ
count_items no_items = 0
count_items (item v xs) = suc (count_items xs)

unfoldable pub count_fields : Fields → ℕ
count_fields no_fields = 0
count_fields (field k v fs) = suc (count_fields fs)
