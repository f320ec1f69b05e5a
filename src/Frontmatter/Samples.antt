-- ===== src/Frontmatter/Samples.antt =====
-- Envelopes, events and fields at concrete texts.
use vault_bridge.Base.{
  ℕ, ◌+◌, ◌≡◌, ◌↔◌, refl, true, false, Option, none, some, List, [], ◌∷◌, ◌++◌, if◌then◌else◌,
  arith, inl, inr, Bool-cases,
}
use vault_bridge.Base.Codes.{Codes}
use vault_bridge.Frontmatter.{malformed_envelope, Items, text, no_items, item}
use vault_bridge.Frontmatter.Scalars.{parse_decimal_digits, number_from}
use vault_bridge.Frontmatter.Decimal.{parse_decimal_digits_lem}
use vault_bridge.Frontmatter.Envelope.{extract_envelope, envelope, refused}
use vault_bridge.Frontmatter.Envelope.Found.{extract_envelope-IsEnvelope, HasEnvelope}
use vault_bridge.Frontmatter.Build.{
  Mark, Event, Tail, stop, stream_start, stream_end, document_end, document_start, mapping_start,
  mapping_end, scalar,
}
use vault_bridge.Frontmatter.Serialize.{
  Object, Printers, string_of, mapping_of, member, no_members, serialize_frontmatter,
}
use vault_bridge.Frontmatter.Serialize.Reread.{
  IsOneLine, is_one_line, IsOneLine-of, IsReread, serialize_frontmatter-IsReread,
}

-- `---`, `a: b`, `---` and a body
abbrev note : Codes
note = 0x2d ∷ 0x2d ∷ 0x2d ∷ 10 ∷ 97 ∷ 58 ∷ 32 ∷ 98 ∷ 10 ∷ 0x2d ∷ 0x2d ∷ 0x2d ∷ 10 ∷ 99 ∷ []

abbrev payload : Codes
payload = 97 ∷ 58 ∷ 32 ∷ 98 ∷ 10 ∷ []

abbrev mark_at : ℕ → Mark
mark_at i = record { index = i; line = 0; column = i }

abbrev scalar_at : ℕ → Codes → Event
scalar_at i value = scalar (record {
  start_mark = mark_at i;
  end_index = i + 1;
  named = false;
  plain = true;
  implicit = true;
  value = value;
})

-- the events of `a: b`
abbrev yaml : Codes → List Event × Tail
yaml _ = (
  stream_start
      ∷ document_start false
      ∷ mapping_start false (mark_at 0)
      ∷ scalar_at 0 (97 ∷ [])
      ∷ scalar_at 3 (98 ∷ [])
      ∷ mapping_end
      ∷ document_end
      ∷ stream_end
      ∷ [],
  stop,
)

abbrev no_float : Codes → Option ℕ
no_float _ = none

note_envelope : extract_envelope note ≡ envelope payload 13
unfolding extract_envelope
note_envelope = refl

-- `abc---` is no closing line
unclosed_envelope :
    extract_envelope (0x2d ∷ 0x2d ∷ 0x2d ∷ 10 ∷ 97 ∷ 98 ∷ 99 ∷ 0x2d ∷ 0x2d ∷ 0x2d ∷ 10 ∷ [])
    ≡ refused malformed_envelope
unfolding extract_envelope
unclosed_envelope = refl

extract_envelope-IsEnvelope_example :
    (extract_envelope note ≡ envelope payload 13) ↔ HasEnvelope note payload 13
extract_envelope-IsEnvelope_example = extract_envelope-IsEnvelope note payload 13

parse_decimal_digits_lem_example :
    parse_decimal_digits (49 ∷ 50 ∷ 51 ∷ 52 ∷ 53 ∷ 54 ∷ 55 ∷ 56 ∷ 57 ∷ 48 ∷ 49 ∷ [])
    ≡ number_from 10 0 (49 ∷ 50 ∷ 51 ∷ 52 ∷ 53 ∷ 54 ∷ 55 ∷ 56 ∷ 57 ∷ 48 ∷ 49 ∷ [])
parse_decimal_digits_lem_example =
    parse_decimal_digits_lem (49 ∷ 50 ∷ 51 ∷ 52 ∷ 53 ∷ 54 ∷ 55 ∷ 56 ∷ 57 ∷ 48 ∷ 49 ∷ [])

-- one alias, and a value that is blank for a `strip` that empties nothing
abbrev alias_values : Items
alias_values = item (text (97 ∷ [])) (item (text []) no_items)

abbrev quoted : Codes → Codes
quoted s = 0x22 ∷ (s ++ 0x22 ∷ [])

-- the printer of a string without a line break
abbrev dumps_text : Object → Option Codes
dumps_text (string_of s) = if is_one_line (quoted s) then some (quoted s) else none
dumps_text _ = none

abbrev printers : Printers
printers = record { dumps = dumps_text; hex = λ _ _. []; bit_length = λ n. n }

dumps_text-IsOneLine : (v : Object) (c : Codes) → dumps_text v ≡ some c → IsOneLine c
dumps_text-IsOneLine (string_of s) c h = elim (Bool-cases (is_one_line (quoted s))) [
  | inl plain ↦ IsOneLine-of c (ground arith)
  | inr other ↦ absurd (ground arith)
]
dumps_text-IsOneLine _ c h = cc

abbrev metadata : Object
metadata = mapping_of (member (string_of (97 ∷ [])) (string_of (98 ∷ [])) no_members)

serialize_frontmatter-IsReread_example :
    IsReread yaml no_float (serialize_frontmatter printers yaml no_float metadata)
serialize_frontmatter-IsReread_example =
    serialize_frontmatter-IsReread printers yaml no_float metadata dumps_text-IsOneLine
      (λ negative n. tt)
