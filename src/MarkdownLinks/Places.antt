-- ===== src/MarkdownLinks/Places.antt =====
-- Where the parser of Markdown links finds links, and that it ends (app/services/markdown_links.py).
use vault_bridge.Base.{
  ℕ, zero, suc, ◌+◌, ◌-◌, ◌≤◌, ◌<◌, ◌≡◌, refl, subst, ap, ◌∙◌, true, false, not, ◌&&◌, ◌||◌, Option,
  none, some, List, [], ◌∷◌, ◌++◌, ◌==◌, length, drop, any, leb, ltb, arith, Bool-cases,
  Option-cases, inl, inr,
}
use vault_bridge.Base.Codes.{Codes, slice}
use vault_bridge.MarkdownLinks.{
  Library, MarkdownLink, is_at, is_before, find_code, run_end, starts_with_ticks, close_from,
  label_end_from, note_destination, link_if, parse_angle, parse_plain, parse_at, after_ticks, round,
  with_link, parse_from, parse_line, extend, parse_lines, parse,
}
use vault_bridge.Wikilinks.{Library as TextLibrary, fence_of, next_fence, is_open}

find_code-after : (k p : ℕ) (l : Codes) (q : ℕ) → find_code k p l ≡ some q → p ≤ q
unfolding find_code
find_code-after k p [] q h = cc
find_code-after k p (c ∷ l) q h = elim (Bool-cases (c == k)) [
  | inl same ↦ ground arith
  | inr other ↦ omega (arith, find_code-after k (suc p) l q (ground arith))
]

run_end-after : (k p : ℕ) (l : Codes) → p ≤ run_end k p l
unfolding run_end
run_end-after k p [] = omega arith
run_end-after k p (c ∷ l) = ground (arith, run_end-after k (suc p) l)

close_from-after :
    (n : ℕ) (line : Codes) (p : ℕ) (l : Codes) (q : ℕ) → close_from n line p l ≡ some q → p ≤ q
unfolding close_from
close_from-after n line p [] q h = cc
close_from-after n line p (c ∷ l) q h =
    elim (Bool-cases (
      starts_with_ticks n (c ∷ l)
      && not (is_before 0x60 p line)
      && not (is_at 0x60 (p + n) line))) [
        | inl closes ↦ ground arith
        | inr other ↦ omega (arith, close_from-after n line (suc p) l q (ground arith))
      ]

label_end-after : (p : ℕ) (l : Codes) → p ≤ label_end_from p l
unfolding label_end_from
label_end-after p [] = omega arith
label_end-after p (c ∷ l) = ground (arith, label_end-after (suc p) l)

-- The next cursor is further on, and a link stands at the present one.
data IsStep (cursor : ℕ) : Option MarkdownLink × ℕ → Type 0 where
  passes : {next : ℕ} → cursor < next → IsStep cursor (none, next)
  stands :
      {l : MarkdownLink} {next : ℕ}
      → cursor < next
      → l.source_position ≡ cursor
      → IsStep cursor (some l, next)

link_if-IsStep :
    (lib : Library) (start : ℕ) (label raw : Codes) (end : ℕ)
    → start < end
    → IsStep start (link_if lib start label raw end)
unfolding link_if
link_if-IsStep lib start label raw end h = at (note_destination lib raw)
  where
    at :
        (o : Option (Codes × Option Codes))
        → IsStep start (elim o [
          | none ↦ (none, end)
          | some (destination, fragment) ↦ (
            some (record {
              destination = destination;
              fragment = fragment;
              label = label;
              source_position = start;
            }),
            end,
          )
        ])
    at none = passes h
    at (some (destination, fragment)) = stands h refl

parse_angle-IsStep :
    (lib : Library) (line : Codes) (start : ℕ) (label : Codes) (begin : ℕ)
    → start < begin
    → start < length line
    → IsStep start (parse_angle lib line start label begin)
unfolding parse_angle
parse_angle-IsStep lib line start label begin h inside =
    elim (Option-cases (find_code 0x3e (begin + 1) (drop (begin + 1) line))) [
      | inl absent ↦ rw (absent, parse_angle) (passes inside)
      | inr (angle_end, there) ↦
          let after = find_code-after 0x3e (begin + 1) (drop (begin + 1) line) angle_end there in
          elim (Bool-cases (is_at 0x29 (angle_end + 1) line)) [
            | inl closed ↦
                rw (there, parse_angle)
                  (rw closed (
                    link_if-IsStep lib start label (slice (begin + 1) angle_end line)
                      (angle_end + 2) (omega arith)))
            | inr other ↦ rw (there, parse_angle) (rw other (passes (omega arith)))
          ]
    ]

parse_plain-IsStep :
    (lib : Library) (line : Codes) (start : ℕ) (label : Codes) (begin : ℕ)
    → start < begin
    → start < length line
    → IsStep start (parse_plain lib line start label begin)
unfolding parse_plain
parse_plain-IsStep lib line start label begin h inside =
    elim (Option-cases (find_code 0x29 begin (drop begin line))) [
      | inl absent ↦ rw (absent, parse_plain) (passes inside)
      | inr (end, there) ↦
          let after = find_code-after 0x29 begin (drop begin line) end there in
          elim (Bool-cases (any lib.is_space (slice begin end line))) [
            | inl spaced ↦ rw (there, parse_plain) (rw spaced (passes (omega arith)))
            | inr other ↦
                rw (there, parse_plain)
                  (rw other
                    (link_if-IsStep lib start label (slice begin end line) (end + 1) (omega arith)))
          ]
    ]

parse_at-IsStep :
    (lib : Library) (line : Codes) (start : ℕ)
    → start < length line
    → IsStep start (parse_at lib line start)
unfolding parse_at
parse_at-IsStep lib line start inside =
    let e = label_end_from (start + 1) (drop (start + 1) line) in
    let label = slice (start + 1) e line in
    let ahead = label_end-after (start + 1) (drop (start + 1) line) in
    elim (Bool-cases (leb (length line) e)) [
      | inl ends ↦ rw ends (passes inside)
      | inr in_line ↦ rw in_line (elim (Bool-cases (is_at 0x5b e line)) [
        | inl opens ↦ rw opens (passes (omega (arith, ahead)))
        | inr other ↦
            rw other (elim (Bool-cases (is_at 0 e line || not (is_at 0x28 (e + 1) line))) [
              | inl bare ↦ rw bare (passes (omega (arith, ahead)))
              | inr linked ↦ rw linked (elim (Bool-cases (leb (length line) (e + 2))) [
                | inl cut ↦ rw cut (passes inside)
                | inr more ↦ rw more (elim (Bool-cases (is_at 0x3c (e + 2) line)) [
                  | inl angle ↦ rw angle (
                      parse_angle-IsStep lib line start label (e + 2) (omega (arith, ahead)) inside)
                  | inr plain ↦ rw plain (
                      parse_plain-IsStep lib line start label (e + 2) (omega (arith, ahead)) inside)
                ])
              ])
            ])
      ])
    ]

after_ticks-ahead : (line : Codes) (cursor : ℕ) → cursor < after_ticks line cursor
unfolding after_ticks
after_ticks-ahead line cursor =
    let e = run_end 0x60 (cursor + 1) (drop (cursor + 1) line) in
    let ahead = run_end-after 0x60 (cursor + 1) (drop (cursor + 1) line) in
    elim (Option-cases (close_from (e - cursor) line e (drop e line))) [
      | inl absent ↦ rw (absent, after_ticks) (omega (arith, ahead))
      | inr (closing, there) ↦
          rw (there, after_ticks)
            (omega (arith, ahead, close_from-after (e - cursor) line e (drop e line) closing there))
    ]

-- A round moves the cursor ahead, and a link that it finds stands at the cursor, on a `[` that has
-- no `!` before it.
data IsRound (line : Codes) (cursor : ℕ) : Option MarkdownLink × ℕ → Type 0 where
  moves : {next : ℕ} → cursor < next → IsRound line cursor (none, next)
  finds :
      {l : MarkdownLink} {next : ℕ}
      → cursor < next
      → l.source_position ≡ cursor
      → is_at 0x5b cursor line ≡ true
      → is_before 0x21 cursor line ≡ false
      → IsRound line cursor (some l, next)

to-IsRound :
    (line : Codes) (cursor : ℕ) {r : Option MarkdownLink × ℕ}
    → is_at 0x5b cursor line ≡ true
    → is_before 0x21 cursor line ≡ false
    → IsStep cursor r
    → IsRound line cursor r
to-IsRound line cursor b i (passes h) = moves h
to-IsRound line cursor b i (stands h e) = finds h e b i

round-IsRound :
    (lib : Library) (line : Codes) (cursor : ℕ)
    → cursor < length line
    → IsRound line cursor (round lib line cursor)
unfolding round
round-IsRound lib line cursor inside = elim (Bool-cases (is_at 0x60 cursor line)) [
  | inl tick ↦ rw tick (moves (after_ticks-ahead line cursor))
  | inr other ↦
      rw other (elim (Bool-cases (not (is_at 0x5b cursor line) || is_before 0x21 cursor line)) [
        | inl skipped ↦ rw skipped (moves (omega arith))
        | inr link ↦ rw link (
            to-IsRound line cursor (ground arith) (ground arith)
              (parse_at-IsStep lib line cursor inside))
      ])
]

-- The links stand on brackets that open no image, each behind the one before, from a place on.
abbrev pub IsOrdered : Codes → ℕ → List MarkdownLink → Type 0
IsOrdered line from [] = Unit
IsOrdered line from (l ∷ links) =
    (from ≤ l.source_position)
    × (is_at 0x5b l.source_position line ≡ true)
    × (is_before 0x21 l.source_position line ≡ false)
    × IsOrdered line (suc l.source_position) links

IsOrdered-le :
    (line : Codes) (from to : ℕ) (links : List MarkdownLink)
    → from ≤ to
    → IsOrdered line to links
    → IsOrdered line from links
IsOrdered-le line from to [] h o = tt
IsOrdered-le line from to (l ∷ links) h o = (omega (arith, o.0), o.1, o.2, o.3)

-- Any answer of the loop from a cursor on is ordered; it runs out of fuel only where each round, which
-- moves the cursor by one place at least, cannot bring it to the end of the line.
abbrev pub IsAnswer : Codes → ℕ → ℕ → Option (List MarkdownLink) → Type 0
IsAnswer line fuel cursor none = fuel ≤ length line - cursor
IsAnswer line fuel cursor (some links) = IsOrdered line cursor links

with_link-IsAnswer :
    (line : Codes) (fuel cursor : ℕ) {r : Option MarkdownLink × ℕ}
    (rest : Option (List MarkdownLink))
    → cursor < length line
    → IsRound line cursor r
    → IsAnswer line fuel r.1 rest
    → IsAnswer line (suc fuel) cursor (with_link r.0 rest)
with_link-IsAnswer line fuel cursor none inside (moves h) o = omega (arith, o)
with_link-IsAnswer line fuel cursor none inside (finds h e b i) o = omega (arith, o)
with_link-IsAnswer line fuel cursor (some links) inside (moves {next} h) o =
    IsOrdered-le line cursor next links (omega arith) o
with_link-IsAnswer line fuel cursor (some links) inside (finds {l} {next} h e b i) o = (
  omega (arith, e),
  ap (λ p. is_at 0x5b p line) e ∙ b,
  ap (λ p. is_before 0x21 p line) e ∙ i,
  IsOrdered-le line (suc l.source_position) next links (omega (arith, e)) o,
)

-- Every link that is found in a line from a cursor on stands on a `[` at the cursor or behind it that
-- has no `!` before it, and each link stands behind the one before. There is no answer only where the
-- fuel is at most the number of places from the cursor to the end of the line.
pub parse_from-IsOrdered :
    (fuel : ℕ) (lib : Library) (line : Codes) (cursor : ℕ)
    → IsAnswer line fuel cursor (parse_from fuel lib line cursor)
unfolding parse_from
parse_from-IsOrdered zero lib line cursor = omega arith
parse_from-IsOrdered (suc fuel) lib line cursor = elim (Bool-cases (ltb cursor (length line))) [
  | inl inside ↦ rw inside (
      with_link-IsAnswer line fuel cursor (parse_from fuel lib line (round lib line cursor).1)
        (ground arith) (round-IsRound lib line cursor (ground arith))
        (parse_from-IsOrdered fuel lib line (round lib line cursor).1))
  | inr past ↦ rw past tt
]

to-some : {A : Type 0} (o : Option A) → ¬ (o ≡ none) → (a : A) × (o ≡ some a)
to-some none h = absurd (h refl)
to-some (some a) h = (a, refl)

parse_line_ends :
    (lib : Library) (source_offset : ℕ) (line : Codes)
    → (links : List MarkdownLink) × (parse_line lib source_offset line ≡ some links)
unfolding parse_line
parse_line_ends lib source_offset line = to-some (parse_line lib source_offset line) answers
  where
    fuel : ℕ
    fuel = suc (length line)

    out_of_fuel : parse_from fuel lib line 0 ≡ none → fuel ≤ length line - 0
    out_of_fuel out = subst (IsAnswer line fuel 0) out (parse_from-IsOrdered fuel lib line 0)

    answers : ¬ (parse_line lib source_offset line ≡ none)
    answers h = elim (Option-cases (parse_from fuel lib line 0)) [
      | inr (links, found) ↦ absurd (ground arith)
      | inl out ↦ absurd (omega (arith, out_of_fuel out))
    ]

extend_ends :
    {first later : Option (List MarkdownLink)}
    → (links : List MarkdownLink) × (first ≡ some links)
    → (links : List MarkdownLink) × (later ≡ some links)
    → (links : List MarkdownLink) × (extend first later ≡ some links)
extend_ends (a, e) (b, f) = (a ++ b, rw (e, f) refl)

parse_lines_ends :
    (texts : TextLibrary) (lib : Library) (fence : Option (ℕ × ℕ)) (source_offset : ℕ)
    (lines : List (Codes × ℕ))
    → (links : List MarkdownLink) × (parse_lines texts lib fence source_offset lines ≡ some links)
unfolding parse_lines
parse_lines_ends texts lib fence source_offset [] = ([], refl)
parse_lines_ends texts lib fence source_offset ((line, size) ∷ lines) =
    elim (Option-cases (fence_of line)) [
      | inr (f, fenced) ↦
          rw (fenced, parse_lines)
            (parse_lines_ends texts lib (next_fence texts fence f) (source_offset + size) lines)
      | inl plain ↦
          let later = parse_lines_ends texts lib fence (source_offset + size) lines in
          rw (plain, parse_lines)
            (elim (Bool-cases (is_open fence)) [
              | inl fenced ↦ rw fenced later
              | inr text ↦ rw text (extend_ends (parse_line_ends lib source_offset line) later)
            ])
    ]

-- The parser returns the links of every text: each loop over a line ends, with the fuel that the
-- parser takes, and whatever the tests of the libraries answer.
pub parse_ends :
    (texts : TextLibrary) (lib : Library) (markdown : Codes)
    → (links : List MarkdownLink) × (parse texts lib markdown ≡ some links)
unfolding parse
parse_ends texts lib markdown = parse_lines_ends texts lib none 0 (texts.splitlines markdown)
