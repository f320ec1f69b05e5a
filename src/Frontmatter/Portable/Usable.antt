-- ===== src/Frontmatter/Portable/Usable.antt =====
-- What `_project_portable_field` accepts (app/services/frontmatter.py), and that the records it builds
-- pass the checks of their `__post_init__`.
use vault_bridge.Base.{
  ℕ, zero, suc, ◌+◌, ◌≤◌, ◌<◌, ◌≡◌, ◌⊎◌, inl, inr, refl, ap, ◌∙◌, true, Option, none, some, List,
  [], ◌∷◌, if◌then◌else◌, ltb, every, ◌==◌, arith, Bool-cases, Option-cases,
}
use vault_bridge.Base.Codes.{Codes, utf8_size}
use vault_bridge.Frontmatter.{
  Items, Fields, text, no_items, item, valid, get_field, count_items, max_portable_field_values,
  max_portable_value_bytes,
}
use vault_bridge.Frontmatter.Portable.{
  PortableFieldName, PortableFieldOccurrence, PortableFieldDiagnostic, PortableFieldResult,
  PortableFieldsProjection, aliases, tags, same_name, accepts_diagnostic, accepts_result,
  is_empty_value, first_other, first_too_large, is_blank, occurrences_from, diagnostics_from,
  project_values, project_member, project_portable_field, project_portable_fields, source_values,
  key_of,
}

same_name_refl : (n : PortableFieldName) → same_name n n ≡ true
same_name_refl aliases = refl
same_name_refl tags = refl

-- the checks that a list of diagnostics of blank values has to pass
abbrev AcceptsAll : PortableFieldName → List PortableFieldDiagnostic → Type 0
AcceptsAll name l =
    (every accepts_diagnostic l ≡ true)
    × (every (λ d. same_name d.field_name name) l ≡ true)
    × (every (λ d. is_empty_value d.reason) l ≡ true)

diagnostics_from-accepted :
    (strip : Codes → Codes) (name : PortableFieldName) (k : ℕ) (xs : Items)
    → AcceptsAll name (diagnostics_from strip name k xs)
unfolding diagnostics_from
diagnostics_from-accepted strip name k no_items = (refl, refl, refl)
diagnostics_from-accepted strip name k (item (text s) xs) =
    let h = diagnostics_from-accepted strip name (suc k) xs in
    elim (Bool-cases (is_blank strip s)) [
      | inl b ↦ rw b (h.0, ground (arith, same_name_refl name, h.1), h.2)
      | inr b ↦ rw b h
    ]
diagnostics_from-accepted strip name k (item _ xs) = diagnostics_from-accepted strip name (suc k) xs

-- A count within the limit, and strings only, each blank or short enough.
abbrev pub AllUsable : (Codes → Codes) → Items → Type 0
AllUsable strip no_items = Unit
AllUsable strip (item (text s) xs) =
    ((is_blank strip s ≡ true) ⊎ (utf8_size s ≤ max_portable_value_bytes)) × AllUsable strip xs
AllUsable strip (item _ xs) = ⊥

first_other-text :
    (strip : Codes → Codes) (k : ℕ) (xs : Items) → AllUsable strip xs → first_other k xs ≡ none
unfolding first_other
first_other-text strip k no_items h = refl
first_other-text strip k (item (text s) xs) h = first_other-text strip (suc k) xs h.1
first_other-text strip k (item _ xs) h = absurd h

first_too_large-usable :
    (strip : Codes → Codes) (k : ℕ) (xs : Items)
    → AllUsable strip xs
    → first_too_large strip k xs ≡ none
unfolding first_too_large
first_too_large-usable strip k no_items h = refl
first_too_large-usable strip k (item (text s) xs) h =
    ground (arith, first_too_large-usable strip (suc k) xs h.1, h.0)
first_too_large-usable strip k (item _ xs) h = absurd h

-- the result of one field passes the checks, and carries the name of its field
abbrev IsAccepted : PortableFieldName → PortableFieldResult → Type 0
IsAccepted name r = (accepts_result r ≡ true) × (r.field_name ≡ name)

project_values-IsAccepted :
    (strip : Codes → Codes) (name : PortableFieldName) (xs : Items)
    → IsAccepted name (project_values strip name xs)
unfolding project_values accepts_result
project_values-IsAccepted strip name xs =
    let h = diagnostics_from-accepted strip name 0 xs in
    let same = same_name_refl name in
    elim (Bool-cases (ltb max_portable_field_values (count_items xs))) [
      | inl many ↦ rw many (ground (arith, same), refl)
      | inr few ↦ rw few (elim (Option-cases (first_other 0 xs)) [
        | inr (i, other) ↦ rw other (ground (arith, same), refl)
        | inl strings ↦ rw strings (elim (Option-cases (first_too_large strip 0 xs)) [
          | inr (i, large) ↦ rw large (ground (arith, same), refl)
          | inl small ↦ rw small (ground (arith, h.0, h.1, h.2), refl)
        ])
      ])
    ]

project_portable_field-IsAccepted :
    (strip : Codes → Codes) (fs : Fields) (name : PortableFieldName)
    → IsAccepted name (project_portable_field strip fs name)
unfolding project_portable_field accepts_result project_member
project_portable_field-IsAccepted strip fs name = at (source_values (get_field (key_of name) fs))
  where
    at : (o : Option (Option Items)) → IsAccepted name (project_member strip name o)
    at none = (refl, refl)
    at (some none) = (ground (arith, same_name_refl name), refl)
    at (some (some xs)) = project_values-IsAccepted strip name xs

-- The checks of `__post_init__` pass on both results that `project_portable_fields` builds, for any
-- metadata, and each result stands at its own field.
pub project_portable_fields-IsAccepted :
    (strip : Codes → Codes) (metadata : Fields) (offset : ℕ)
    → (p : PortableFieldsProjection) × (project_portable_fields strip (valid metadata offset)
        ≡ some p)
      × IsAccepted aliases p.aliases_result
      × IsAccepted tags p.tags_result
unfolding project_portable_fields
project_portable_fields-IsAccepted strip metadata offset = (
  _,
  refl,
  project_portable_field-IsAccepted strip metadata aliases,
  project_portable_field-IsAccepted strip metadata tags,
)

-- the value with this index, if it is a string that is not blank
abbrev pub usable_at : (Codes → Codes) → ℕ → Items → Option Codes
usable_at strip i no_items = none
usable_at strip zero (item (text s) xs) = if is_blank strip s then none else some s
usable_at strip zero (item _ xs) = none
usable_at strip (suc i) (item _ xs) = usable_at strip i xs

-- the value of the occurrence with this index
abbrev pub occurrence_at : ℕ → List PortableFieldOccurrence → Option Codes
occurrence_at i [] = none
occurrence_at i (o ∷ l) = if o.source_index == i then some o.value else occurrence_at i l

occurrences_from-below :
    (strip : Codes → Codes) (k i : ℕ) (xs : Items)
    → i < k
    → occurrence_at i (occurrences_from strip k xs) ≡ none
unfolding occurrences_from
occurrences_from-below strip k i no_items h = refl
occurrences_from-below strip k i (item (text s) xs) h =
    ground (arith, occurrences_from-below strip (suc k) i xs (omega arith))
occurrences_from-below strip k i (item _ xs) h =
    occurrences_from-below strip (suc k) i xs (omega arith)

occurrences_from-at :
    (strip : Codes → Codes) (k i : ℕ) (xs : Items)
    → occurrence_at (k + i) (occurrences_from strip k xs) ≡ usable_at strip i xs
unfolding occurrences_from
occurrences_from-at strip k i no_items = refl
occurrences_from-at strip k zero (item (text s) xs) =
    ground (arith, occurrences_from-below strip (suc k) (k + 0) xs (omega arith))
occurrences_from-at strip k (suc i) (item (text s) xs) = ground (
  arith,
  ap (λ j. occurrence_at j (occurrences_from strip (suc k) xs)) (later k i),
  occurrences_from-at strip (suc k) i xs,
)
  where
    later : (k i : ℕ) → k + suc i ≡ suc k + i
    later k i = omega arith
occurrences_from-at strip k zero (item _ xs) =
    occurrences_from-below strip (suc k) (k + 0) xs (omega arith)
occurrences_from-at strip k (suc i) (item _ xs) =
    ap (λ j. occurrence_at j (occurrences_from strip (suc k) xs)) (omega arith)
    ∙ occurrences_from-at strip (suc k) i xs

-- Where the values are usable, the occurrence with an index is the value that stands there, if that is
-- not blank, and none otherwise.
pub project_values-occurrence :
    (strip : Codes → Codes) (name : PortableFieldName) (xs : Items) (i : ℕ)
    → count_items xs ≤ max_portable_field_values
    → AllUsable strip xs
    → occurrence_at i (project_values strip name xs).occurrences ≡ usable_at strip i xs
unfolding project_values
project_values-occurrence strip name xs i few h = ground (
  arith,
  first_other-text strip 0 xs h,
  first_too_large-usable strip 0 xs h,
  occurrences_from-at strip 0 i xs,
)
