-- ===== src/MarkdownLinks.antt =====
-- Markdown links to notes (app/services/markdown_links.py): the parser of `MarkdownLinkResolver`. Places
-- are indices into the line. The tests of a destination by regular expression and by `pathlib`, and
-- `str.isspace`, are the fields of `Library`.
pub mod Places
mod Samples
use vault_bridge.Base.{
  ℕ, zero, suc, ◌+◌, Bool, true, false, not, ◌&&◌, ◌||◌, Option, none, some, List, [], ◌∷◌, ◌++◌,
  ◌==◌, if◌then◌else◌, length, drop, any, leb, ltb, ◌-◌,
}
use vault_bridge.Base.Codes.{Codes, same_codes, slice}
use vault_bridge.Wikilinks.{Library as TextLibrary, fence_of, next_fence, is_open}

-- `character.isspace()`; `_URI_SCHEME_PATTERN.match`, and whether a path is absolute or has a drive on
-- one of the systems
pub record Library : Type 0 where
  pub is_space : ℕ → Bool
  pub has_scheme : Codes → Bool
  pub is_rooted : Codes → Bool

-- MarkdownLink, before it is resolved
pub record MarkdownLink : Type 0 where
  pub destination : Codes
  pub fragment : Option Codes
  pub label : Codes
  pub source_position : ℕ

abbrev pub starts_with_code : ℕ → Codes → Bool
starts_with_code k [] = false
starts_with_code k (c ∷ l) = c == k

-- `line[i] == character`, within the line
abbrev pub is_at : ℕ → ℕ → Codes → Bool
is_at k i line = starts_with_code k (drop i line)

-- `i > 0 and line[i - 1] == character`
abbrev pub is_before : ℕ → ℕ → Codes → Bool
is_before k zero line = false
is_before k (suc i) line = is_at k i line

-- text.find(character, position), of the text from the position on
unfoldable pub find_code : ℕ → ℕ → Codes → Option ℕ
find_code k position [] = none
find_code k position (c ∷ l) =
    let rest = find_code k (suc position) l in if c == k then some position else rest

-- the place after a run of a character, from a position on
unfoldable pub run_end : ℕ → ℕ → Codes → ℕ
run_end k position [] = position
run_end k position (c ∷ l) =
    let rest = run_end k (suc position) l in if c == k then rest else position

-- `text` starts with so many backticks
abbrev pub starts_with_ticks : ℕ → Codes → Bool
starts_with_ticks zero text = true
starts_with_ticks (suc n) [] = false
starts_with_ticks (suc n) (c ∷ l) = c == 0x60 && starts_with_ticks n l

-- _find_code_span_close, for a marker of `n` backticks, from a position with the text from there on
unfoldable pub close_from : ℕ → Codes → ℕ → Codes → Option ℕ
close_from n line position [] = none
close_from n line position (c ∷ l) =
    let rest = close_from n line (suc position) l in
    if starts_with_ticks n (c ∷ l)
      && not (is_before 0x60 position line)
      && not (is_at 0x60 (position + n) line)
    then some position
    else rest

abbrev pub ends_label : ℕ → Bool
ends_label c = c == 0x5b || c == 0x5d || c == 0

-- the first loop of `_parse_at`
unfoldable pub label_end_from : ℕ → Codes → ℕ
label_end_from position [] = position
label_end_from position (c ∷ l) =
    let rest = label_end_from (suc position) l in if ends_label c then position else rest

-- destination.partition("#")
unfoldable pub partition_hash : Codes → Codes × Option Codes
partition_hash [] = ([], none)
partition_hash (c ∷ l) =
    let rest = partition_hash l in if c == 0x23 then ([], some l) else (c ∷ rest.0, rest.1)

unfoldable pub ends_with_md : Codes → Bool
ends_with_md [] = false
ends_with_md (c ∷ l) =
    let rest = ends_with_md l in if same_codes (c ∷ l) (0x2e ∷ 0x6d ∷ 0x64 ∷ []) then true else rest

abbrev pub starts_with_slashes : Codes → Bool
starts_with_slashes (c ∷ d ∷ l) = c == 0x2f && d == 0x2f
starts_with_slashes _ = false

-- _note_destination; an empty destination does not end with `.md`
unfoldable pub note_destination : Library → Codes → Option (Codes × Option Codes)
unfolding partition_hash ends_with_md
note_destination lib raw =
    let (destination, fragment) = partition_hash raw in
    if any (λ c. c == 0) raw
      || not (ends_with_md destination)
      || lib.has_scheme destination
      || starts_with_slashes destination
      || lib.is_rooted destination
    then none
    else some (destination, fragment)

-- what `_parse_at` returns for a destination that ends before a place
unfoldable pub link_if : Library → ℕ → Codes → Codes → ℕ → Option MarkdownLink × ℕ
unfolding note_destination
link_if lib start label raw end = elim (note_destination lib raw) [
  | none ↦ (none, end)
  | some (destination, fragment) ↦ (
    some (record {
      destination = destination;
      fragment = fragment;
      label = label;
      source_position = start;
    }),
    end,
  )
]

-- the destination in angle brackets, that starts at a place
unfoldable pub parse_angle : Library → Codes → ℕ → Codes → ℕ → Option MarkdownLink × ℕ
unfolding find_code link_if
parse_angle lib line start label begin = elim (find_code 0x3e (begin + 1) (drop (begin + 1) line)) [
  | none ↦ (none, length line)
  | some angle_end ↦
      if is_at 0x29 (angle_end + 1) line
      then link_if lib start label (slice (begin + 1) angle_end line) (angle_end + 2)
      else (none, angle_end + 1)
]

-- the other destinations
unfoldable pub parse_plain : Library → Codes → ℕ → Codes → ℕ → Option MarkdownLink × ℕ
unfolding find_code link_if
parse_plain lib line start label begin = elim (find_code 0x29 begin (drop begin line)) [
  | none ↦ (none, length line)
  | some end ↦
      if any lib.is_space (slice begin end line)
      then (none, end + 1)
      else link_if lib start label (slice begin end line) (end + 1)
]

-- _parse_at
unfoldable pub parse_at : Library → Codes → ℕ → Option MarkdownLink × ℕ
unfolding label_end_from parse_angle parse_plain
parse_at lib line start =
    let label_end = label_end_from (start + 1) (drop (start + 1) line) in
    let label = slice (start + 1) label_end line in
    if leb (length line) label_end
    then (none, length line)
    else if is_at 0x5b label_end line
    then (none, label_end)
    else if is_at 0 label_end line || not (is_at 0x28 (label_end + 1) line)
    then (none, label_end + 1)
    else if leb (length line) (label_end + 2)
    then (none, length line)
    else if is_at 0x3c (label_end + 2) line
    then parse_angle lib line start label (label_end + 2)
    else parse_plain lib line start label (label_end + 2)

-- the cursor after a run of backticks
unfoldable pub after_ticks : Codes → ℕ → ℕ
unfolding run_end close_from
after_ticks line cursor =
    let end = run_end 0x60 (cursor + 1) (drop (cursor + 1) line) in
    elim (close_from (end - cursor) line end (drop end line)) [
      | none ↦ end
      | some closing ↦ closing + (end - cursor)
    ]

-- one round of the loop of `_parse_line`: a link, and the next cursor
unfoldable pub round : Library → Codes → ℕ → Option MarkdownLink × ℕ
unfolding after_ticks parse_at
round lib line cursor =
    if is_at 0x60 cursor line
    then (none, after_ticks line cursor)
    else if not (is_at 0x5b cursor line) || is_before 0x21 cursor line
    then (none, cursor + 1)
    else parse_at lib line cursor

abbrev pub with_link : Option MarkdownLink → Option (List MarkdownLink) → Option (List MarkdownLink)
with_link link none = none
with_link none (some links) = some links
with_link (some l) (some links) = some (l ∷ links)

-- the loop of `_parse_line`; `none` when the fuel does not reach the end of the loop
unfoldable pub parse_from : ℕ → Library → Codes → ℕ → Option (List MarkdownLink)
unfolding round
parse_from zero lib line cursor = none
parse_from (suc fuel) lib line cursor =
    let (link, next) = round lib line cursor in
    let rest = parse_from fuel lib line next in
    if ltb cursor (length line) then with_link link rest else some []

abbrev pub shifted : ℕ → MarkdownLink → MarkdownLink
shifted source_offset l = record {
  destination = l.destination;
  fragment = l.fragment;
  label = l.label;
  source_position = source_offset + l.source_position;
}

-- _parse_line
unfoldable pub parse_line : Library → ℕ → Codes → Option (List MarkdownLink)
unfolding parse_from
parse_line lib source_offset line = shift_all (parse_from (suc (length line)) lib line 0)
  where
    shift : List MarkdownLink → List MarkdownLink
    shift [] = []
    shift (l ∷ links) = shifted source_offset l ∷ shift links

    shift_all : Option (List MarkdownLink) → Option (List MarkdownLink)
    shift_all none = none
    shift_all (some links) = some (shift links)

-- `links.extend(...)` of the links of a line, before those of the lines behind it
abbrev pub extend :
    Option (List MarkdownLink) → Option (List MarkdownLink) → Option (List MarkdownLink)
extend none later = none
extend (some links) none = none
extend (some links) (some later) = some (links ++ later)

-- the loop of `parse` over the lines, with the fences of Wikilinks, whose pattern is the same
unfoldable pub parse_lines :
    TextLibrary → Library → Option (ℕ × ℕ) → ℕ → List (Codes × ℕ) → Option (List MarkdownLink)
unfolding parse_line fence_of
parse_lines texts lib fence source_offset [] = some []
parse_lines texts lib fence source_offset ((line, size) ∷ lines) = elim (fence_of line) [
  | some f ↦ parse_lines texts lib (next_fence texts fence f) (source_offset + size) lines
  | none ↦
      let links = parse_lines texts lib fence (source_offset + size) lines in
      if is_open fence then links else extend (parse_line lib source_offset line) links
]

-- MarkdownLinkResolver.parse
unfoldable pub parse : TextLibrary → Library → Codes → Option (List MarkdownLink)
unfolding parse_lines
parse texts lib markdown = parse_lines texts lib none 0 (texts.splitlines markdown)
