-- ===== src/Frontmatter/Envelope.antt =====
-- The envelope of the frontmatter (app/services/frontmatter.py): `_line_bounds`, `_bounded_utf8_size`
-- and `_extract_envelope`.
pub mod Size
pub mod Lines
pub mod Next
pub mod Content
pub mod Closing
pub mod Found
pub mod Wrapped
use vault_bridge.Base.{
  ℕ, zero, suc, ◌+◌, ◌-◌, Bool, true, false, not, ◌&&◌, ◌||◌, Option, none, some, List, [], ◌∷◌,
  ◌==◌, if◌then◌else◌, length, drop, leb, ltb,
}
use vault_bridge.Base.Codes.{Codes, codes, same_codes, utf8_width, slice}
use vault_bridge.Frontmatter.{
  Reason, malformed_envelope, frontmatter_too_large, max_frontmatter_bytes,
}

-- text.find("\n", position), of the text from the position on
unfoldable pub find_newline : ℕ → Codes → Option ℕ
find_newline position [] = none
find_newline position (c ∷ l) = if c == 10 then some position else find_newline (position + 1) l

abbrev pub head_is : ℕ → Codes → Bool
head_is k [] = false
head_is k (c ∷ l) = c == k

-- `text[i] == "\r"`, for the place before `newline`
abbrev pub line_end : Codes → ℕ → ℕ → ℕ
line_end text start newline =
    if ltb start newline && head_is 13 (drop (newline - 1) text) then newline - 1 else newline

abbrev pub bounds_at : Codes → ℕ → Option ℕ → ℕ × Option ℕ
bounds_at text start none = (length text, none)
bounds_at text start (some newline) = (line_end text start newline, some (newline + 1))

-- _line_bounds
unfoldable pub line_bounds : Codes → ℕ → ℕ × Option ℕ
unfolding find_newline
line_bounds text start = bounds_at text start (find_newline start (drop start text))

-- the loop of `_bounded_utf8_size`
unfoldable pub bounded_size : ℕ → ℕ → Codes → ℕ
bounded_size limit size [] = size
bounded_size limit size (c ∷ l) =
    let rest = bounded_size limit (size + utf8_width c) l in
    if ltb limit (size + utf8_width c) then limit + 1 else rest

-- _bounded_utf8_size
abbrev pub bounded_utf8_size : Codes → ℕ → ℕ → ℕ → ℕ
bounded_utf8_size text start end limit = bounded_size limit 0 (slice start end text)

-- what `_extract_envelope` returns: None, a diagnostic, or the payload and the offset of the body
pub data Extracted : Type 0 where
  no_envelope : Extracted
  refused : Reason → Extracted
  envelope : Codes → ℕ → Extracted

abbrev pub or_length : Codes → Option ℕ → ℕ
or_length text none = length text
or_length text (some n) = n

-- the line is `---`, or `...`
abbrev pub is_line : Codes → ℕ → ℕ → Codes → Bool
is_line text start end marker = end - start == 3 && same_codes (slice start end text) marker

abbrev pub dashes : Codes
dashes = 0x2d ∷ 0x2d ∷ 0x2d ∷ []

abbrev pub dots : Codes
dots = 0x2e ∷ 0x2e ∷ 0x2e ∷ []

abbrev pub is_closer : Codes → ℕ → ℕ → Bool
is_closer text start end = is_line text start end dashes || is_line text start end dots

abbrev pub add_segment : Codes → ℕ → ℕ → ℕ → ℕ
add_segment text position segment_end envelope_bytes =
    if leb envelope_bytes max_frontmatter_bytes
    then envelope_bytes
      + bounded_utf8_size text position segment_end (max_frontmatter_bytes - envelope_bytes)
    else envelope_bytes

abbrev pub close : Codes → ℕ → ℕ → ℕ → ℕ → Extracted
close text payload_start line_start segment_end envelope_bytes =
    if ltb max_frontmatter_bytes envelope_bytes
    then refused frontmatter_too_large
    else envelope (slice payload_start line_start text) segment_end

-- the loop of `_extract_envelope`; every round but the last moves the position forward
unfoldable pub find_closer : ℕ → Codes → ℕ → ℕ → ℕ → Extracted
unfolding line_bounds bounded_size
find_closer zero text payload_start envelope_bytes position = refused malformed_envelope
find_closer (suc fuel) text payload_start envelope_bytes position =
    let (end, next_position) = line_bounds text position in
    let segment_end = or_length text next_position in
    let bytes = add_segment text position segment_end envelope_bytes in
    if not (leb position (length text))
    then refused malformed_envelope
    else if is_closer text position end
    then close text payload_start position segment_end bytes
    else elim next_position [
      | none ↦ refused malformed_envelope
      | some next ↦ find_closer fuel text payload_start bytes next
    ]

-- `1 if markdown.startswith("\ufeff") else 0`
abbrev pub start_of : Codes → ℕ
start_of text = if head_is 0xfeff text then 1 else 0

-- _extract_envelope; the length of the text is fuel enough, and one round more
unfoldable pub extract_envelope : Codes → Extracted
unfolding line_bounds bounded_size find_closer
extract_envelope markdown =
    let start = start_of markdown in
    let (opener_end, payload_start) = line_bounds markdown start in
    if not (is_line markdown start opener_end dashes) then no_envelope else elim payload_start [
      | none ↦ refused malformed_envelope
      | some p ↦
          find_closer (suc (length markdown)) markdown p
            (bounded_utf8_size markdown start p max_frontmatter_bytes) p
    ]
