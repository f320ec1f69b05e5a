-- ===== src/Frontmatter/Portable.antt =====
-- The aliases and tags of valid frontmatter (app/services/frontmatter.py): `project_portable_fields`
-- and the records that it builds, with the checks of their `__post_init__` as tests. `strip` stands for
-- Python's `str.strip`.
pub mod Usable
use vault_bridge.Base.{
  ℕ, zero, suc, ◌+◌, Bool, true, false, not, ◌&&◌, Option, none, some, List, [], ◌∷◌, if◌then◌else◌,
  leb, ltb, every,
}
use vault_bridge.Base.Codes.{Codes, codes, utf8_size}
use vault_bridge.Frontmatter.{
  Value, Items, Fields, null, text, truth, integer, floating, sequence, mapping, no_items, item,
  FrontmatterResult, absent, valid, invalid, get_field, count_items, max_portable_field_values,
  max_portable_value_bytes,
}

-- PortableFieldName
pub data PortableFieldName : Type 0 where
  aliases tags : PortableFieldName

-- PortableFieldReason
pub data PortableFieldReason : Type 0 where
  field_type member_type source_value_count value_size empty_value : PortableFieldReason

-- PortableFieldState
pub data PortableFieldState : Type 0 where
  field_absent field_valid field_invalid : PortableFieldState

pub record PortableFieldOccurrence : Type 0 where
  pub value : Codes
  pub source_index : ℕ

pub record PortableFieldDiagnostic : Type 0 where
  pub reason : PortableFieldReason
  pub field_name : PortableFieldName
  pub source_index : Option ℕ

pub record PortableFieldResult : Type 0 where
  pub field_name : PortableFieldName
  pub state : PortableFieldState
  pub occurrences : List PortableFieldOccurrence
  pub diagnostics : List PortableFieldDiagnostic

pub record PortableFieldsProjection : Type 0 where
  pub aliases_result : PortableFieldResult
  pub tags_result : PortableFieldResult

abbrev pub same_name : PortableFieldName → PortableFieldName → Bool
same_name aliases aliases = true
same_name tags tags = true
same_name _ _ = false

abbrev pub is_empty_value : PortableFieldReason → Bool
is_empty_value empty_value = true
is_empty_value _ = false

-- the check of PortableFieldDiagnostic
abbrev pub accepts_index : PortableFieldReason → Option ℕ → Bool
accepts_index member_type (some i) = true
accepts_index value_size (some i) = true
accepts_index empty_value (some i) = true
accepts_index field_type none = true
accepts_index source_value_count none = true
accepts_index _ _ = false

abbrev pub accepts_diagnostic : PortableFieldDiagnostic → Bool
accepts_diagnostic d = accepts_index d.reason d.source_index

abbrev pub no_members {ℓ} : {A : Type ℓ} → List A → Bool
no_members [] = true
no_members (_ ∷ _) = false

abbrev pub one_error : List PortableFieldDiagnostic → Bool
one_error (d ∷ []) = not (is_empty_value d.reason)
one_error _ = false

-- `valid_shape[self.state]`
abbrev pub has_shape :
    PortableFieldState → List PortableFieldOccurrence → List PortableFieldDiagnostic → Bool
has_shape field_absent occurrences diagnostics = no_members occurrences && no_members diagnostics
has_shape field_valid occurrences diagnostics = every (λ d. is_empty_value d.reason) diagnostics
has_shape field_invalid occurrences diagnostics = no_members occurrences && one_error diagnostics

-- the check of PortableFieldResult, with those of its diagnostics
unfoldable pub accepts_result : PortableFieldResult → Bool
accepts_result r =
    every accepts_diagnostic r.diagnostics
    && every (λ d. same_name d.field_name r.field_name) r.diagnostics
    && has_shape r.state r.occurrences r.diagnostics

-- _invalid_portable_field
abbrev pub invalid_portable_field :
    PortableFieldName → PortableFieldReason → Option ℕ → PortableFieldResult
invalid_portable_field name reason index = record {
  field_name = name;
  state = field_invalid;
  occurrences = [];
  diagnostics = record { reason = reason; field_name = name; source_index = index } ∷ [];
}

-- `field in metadata`, and the values of the field; the outer `none` is a missing field, and the inner
-- one a value of another type
abbrev pub source_values : Option Value → Option (Option Items)
source_values none = none
source_values (some (text s)) = some (some (item (text s) no_items))
source_values (some (sequence xs)) = some (some xs)
source_values (some _) = some none

-- the first loop: the index of the first value that is no string
unfoldable pub first_other : ℕ → Items → Option ℕ
first_other index no_items = none
first_other index (item (text s) xs) = first_other (suc index) xs
first_other index (item _ xs) = some index

-- `source_value.strip()` is empty
abbrev pub is_blank : (Codes → Codes) → Codes → Bool
is_blank strip s = no_members (strip s)

abbrev pub is_too_large : (Codes → Codes) → Codes → Bool
is_too_large strip s = not (is_blank strip s) && ltb max_portable_value_bytes (utf8_size s)

-- the second loop: the index of the first value that is too large; the first loop has shown that there
-- are strings only
unfoldable pub first_too_large : (Codes → Codes) → ℕ → Items → Option ℕ
first_too_large strip index no_items = none
first_too_large strip index (item (text s) xs) =
    let rest = first_too_large strip (suc index) xs in
    if is_too_large strip s then some index else rest
first_too_large strip index (item _ xs) = first_too_large strip (suc index) xs

-- the third loop: the occurrences and the diagnostics
unfoldable pub occurrences_from : (Codes → Codes) → ℕ → Items → List PortableFieldOccurrence
occurrences_from strip index no_items = []
occurrences_from strip index (item (text s) xs) =
    let rest = occurrences_from strip (suc index) xs in
    if is_blank strip s then rest else record { value = s; source_index = index } ∷ rest
occurrences_from strip index (item _ xs) = occurrences_from strip (suc index) xs

unfoldable pub diagnostics_from :
    (Codes → Codes) → PortableFieldName → ℕ → Items → List PortableFieldDiagnostic
diagnostics_from strip name index no_items = []
diagnostics_from strip name index (item (text s) xs) =
    let rest = diagnostics_from strip name (suc index) xs in
    if is_blank strip s
    then record { reason = empty_value; field_name = name; source_index = some index } ∷ rest
    else rest
diagnostics_from strip name index (item _ xs) = diagnostics_from strip name (suc index) xs

-- the part of `_project_portable_field` after the type of the field
unfoldable pub project_values : (Codes → Codes) → PortableFieldName → Items → PortableFieldResult
unfolding first_other first_too_large occurrences_from diagnostics_from
project_values strip name values =
    if ltb max_portable_field_values (count_items values)
    then invalid_portable_field name source_value_count none
    else elim (first_other 0 values) [
      | some index ↦ invalid_portable_field name member_type (some index)
      | none ↦ elim (first_too_large strip 0 values) [
        | some index ↦ invalid_portable_field name value_size (some index)
        | none ↦ record {
          field_name = name;
          state = field_valid;
          occurrences = occurrences_from strip 0 values;
          diagnostics = diagnostics_from strip name 0 values;
        }
      ]
    ]

unfoldable pub key_of : PortableFieldName → Codes
unfolding codes
key_of aliases = codes "aliases"
key_of tags = codes "tags"

unfoldable pub project_member :
    (Codes → Codes) → PortableFieldName → Option (Option Items) → PortableFieldResult
unfolding project_values
project_member strip name none = record {
  field_name = name;
  state = field_absent;
  occurrences = [];
  diagnostics = [];
}
project_member strip name (some none) = invalid_portable_field name field_type none
project_member strip name (some (some values)) = project_values strip name values

-- _project_portable_field
unfoldable pub project_portable_field :
    (Codes → Codes) → Fields → PortableFieldName → PortableFieldResult
unfolding get_field project_member key_of
project_portable_field strip metadata name =
    project_member strip name (source_values (get_field (key_of name) metadata))

-- project_portable_fields
unfoldable pub project_portable_fields :
    (Codes → Codes) → FrontmatterResult → Option PortableFieldsProjection
unfolding project_portable_field
project_portable_fields strip (valid metadata offset) = some (record {
  aliases_result = project_portable_field strip metadata aliases;
  tags_result = project_portable_field strip metadata tags;
})
project_portable_fields strip _ = none
