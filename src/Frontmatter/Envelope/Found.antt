-- ===== src/Frontmatter/Envelope/Found.antt =====
-- The envelope that is found, and that it is found whenever it is there (app/services/frontmatter.py).
use vault_bridge.Base.{
  ℕ, zero, suc, ◌+◌, ◌-◌, ◌≤◌, ◌<◌, ◌≡◌, ◌↔◌, sym, ap, ◌∙◌, Bool, true, false, some, [], ◌∷◌,
  length, leb, ltb, arith, Bool-cases, Option-cases, inl, inr,
}
use vault_bridge.Base.Codes.{same_codes_iff, Codes, utf8_size, slice}
use vault_bridge.Frontmatter.{max_frontmatter_bytes}
use vault_bridge.Frontmatter.Envelope.{
  line_bounds, bounded_utf8_size, envelope, or_length, is_closer, add_segment, close, find_closer,
  extract_envelope, start_of, is_line, dashes,
}
use vault_bridge.Frontmatter.Envelope.Size.{bounded_utf8_size_lem, slice_meet}
use vault_bridge.Frontmatter.Envelope.Content.{line_at, is_closing, is_closer_lem, is_line_lem}
use vault_bridge.Frontmatter.Envelope.Next.{IsNext, line_bounds-IsNext, or_length_lem}
use vault_bridge.Frontmatter.Envelope.Lines.{
  begins_line, line_bounds-next, line_bounds-begins, line_bounds-last, begins_line-le,
}
use vault_bridge.Frontmatter.Envelope.Closing.{
  IsEnvelope, IsReached, segment-le, find_closer-IsEnvelope,
}

-- An envelope of a text: its first line is `---`, and the payload starts where the next line begins.
abbrev pub HasEnvelope : Codes → Codes → ℕ → Type 0
HasEnvelope markdown payload offset =
    (line_at markdown (start_of markdown) ≡ dashes)
    × ((payload_start : ℕ) × IsNext markdown (start_of markdown) payload_start
        × IsEnvelope markdown (start_of markdown) payload_start payload offset)

start_of-le : (text : Codes) → start_of text ≤ length text
start_of-le [] = omega arith
start_of-le (c ∷ l) = ground arith

-- The test of the code on the first line.
opens_lem :
    (text : Codes)
    → (is_line text (start_of text) (line_bounds text (start_of text)).0 dashes ≡ true)
      ↔ (line_at text (start_of text) ≡ dashes)
opens_lem text =
    let test = is_line_lem text (start_of text) dashes (start_of-le text) (omega arith) in
    let same = same_codes_iff (line_at text (start_of text)) dashes in
    (λ h. same.0 (sym test ∙ h), λ h. test ∙ same.1 h)

first_line-IsReached :
    (text : Codes) (start payload_start : ℕ)
    → (line_bounds text start).1 ≡ some payload_start
    → IsReached text payload_start payload_start
first_line-IsReached text start payload_start more = (
  omega arith,
  (line_bounds-begins text start payload_start more).0,
  λ q from to. absurd (omega arith),
)

-- An envelope that is found is one.
extract_envelope-HasEnvelope :
    (markdown payload : Codes) (offset : ℕ)
    → extract_envelope markdown ≡ envelope payload offset
    → HasEnvelope markdown payload offset
unfolding extract_envelope
extract_envelope-HasEnvelope markdown payload offset h =
    let start = start_of markdown in
    let line = line_bounds markdown start in
    elim (Bool-cases (is_line markdown start line.0 dashes)) [
      | inr other ↦ absurd (ground arith)
      | inl opens ↦ elim (Option-cases line.1) [
        | inl last ↦ absurd (ground arith)
        | inr (p, more) ↦
            let bytes = bounded_utf8_size markdown start p max_frontmatter_bytes in
            let le : start ≤ length markdown = start_of-le markdown in
            let ahead = line_bounds-next markdown start p le more in
            (
              (opens_lem markdown).0 opens,
              (
                p,
                (line_bounds-IsNext markdown start p le).0 more,
                find_closer-IsEnvelope (suc (length markdown)) markdown start p bytes p
                    (omega (arith, ahead)) (first_line-IsReached markdown start p more)
                    (λ small.
                      omega (arith, bounded_utf8_size_lem markdown start p max_frontmatter_bytes))
                    (ground arith),
              ),
            )
      ]
    ]

add_segment_exact :
    (text : Codes) (start position end bytes : ℕ)
    → start ≤ position
    → position ≤ end
    → bytes ≡ utf8_size (slice start position text)
    → utf8_size (slice start end text) ≤ max_frontmatter_bytes
    → add_segment text position end bytes ≡ utf8_size (slice start end text)
add_segment_exact text start position end bytes h k e le = ground (
  arith,
  bounded_utf8_size_lem text position end (max_frontmatter_bytes - bytes),
  slice_meet start position end text h k,
)

close_exact :
    (text : Codes) (payload_start line_start segment_end bytes : ℕ) {payload : Codes} {offset : ℕ}
    → payload ≡ slice payload_start line_start text
    → offset ≡ segment_end
    → bytes ≤ max_frontmatter_bytes
    → close text payload_start line_start segment_end bytes ≡ envelope payload offset
close_exact text payload_start line_start segment_end bytes e f le = ground arith

-- What stands before a line of an envelope fits as well.
prefix_fits :
    (text : Codes) (start payload_start : ℕ) {payload : Codes} {offset : ℕ} (position : ℕ)
    (e : IsEnvelope text start payload_start payload offset)
    → start ≤ position
    → position ≤ e.0
    → utf8_size (slice start position text) ≤ max_frontmatter_bytes
prefix_fits text start payload_start {payload} {offset} position
      (line_start, p, b, closes, before, same, ends, fits) s to =
    let le = begins_line-le text line_start b in
    let at_end = or_length_lem text line_start le ends in
    let reaches : position ≤ offset = omega (arith, segment-le text line_start le, at_end) in
    omega (arith, slice_meet start position offset text s reaches)

-- The search answers at the closing line of an envelope.
closes_there :
    (text : Codes) (start payload_start bytes position : ℕ) (payload : Codes) (offset : ℕ)
    (e : IsEnvelope text start payload_start payload offset)
    → start ≤ position
    → e.0 ≡ position
    → bytes ≡ utf8_size (slice start position text)
    → (is_closer text position (line_bounds text position).0 ≡ true)
      × (close text payload_start position
            (or_length text (line_bounds text position).1)
            (add_segment text position (or_length text (line_bounds text position).1) bytes)
          ≡ envelope payload offset)
closes_there text start payload_start bytes position payload offset
      (line_start, p, b, closes, before, same, ends, fits) s place counted =
    let next = or_length text (line_bounds text position).1 in
    let within : position ≤ length text = omega (arith, begins_line-le text line_start b) in
    let here_offset : offset ≡ next =
      or_length_lem text line_start (begins_line-le text line_start b) ends
      ∙ ap (λ q. or_length text (line_bounds text q).1) place in
    let total : utf8_size (slice start next text) ≤ max_frontmatter_bytes =
      omega (arith, ap (λ q. utf8_size (slice start q text)) here_offset) in
    let grown =
      add_segment_exact text start position next bytes s (segment-le text position within) counted
        total in
    (
      is_closer_lem text position within
          ∙ ap (λ q. is_closing (line_at text q)) (sym place)
          ∙ closes,
      close_exact text payload_start position next (add_segment text position next bytes)
          (same ∙ ap (λ q. slice payload_start q text) place) here_offset (omega (arith, grown)),
    )

-- From a line before the closing line, the next line is not behind the closing line.
next-le :
    (text : Codes) (position next line_start : ℕ)
    → begins_line text line_start ≡ true
    → position < line_start
    → (line_bounds text position).1 ≡ some next
    → next ≤ line_start
next-le text position next line_start b earlier more = elim (Bool-cases (ltb line_start next)) [
  | inl short ↦
      let gap = (line_bounds-begins text position next more).1 line_start earlier (ground arith) in
      absurd (apart (begins_line text line_start) b gap)
  | inr enough ↦ ground arith
]
  where
    apart : (t : Bool) → t ≡ true → t ≡ false → ⊥
    apart true h k = absurd (ground arith)
    apart false h k = absurd (ground arith)

-- The search gets from a line to the closing line of an envelope.
find_closer_complete :
    (fuel : ℕ) (text : Codes) (start payload_start bytes position : ℕ) (payload : Codes)
    (offset : ℕ) (e : IsEnvelope text start payload_start payload offset)
    → length text < fuel + position
    → start ≤ position
    → payload_start ≤ position
    → begins_line text position ≡ true
    → position ≤ e.0
    → bytes ≡ utf8_size (slice start position text)
    → find_closer fuel text payload_start bytes position ≡ envelope payload offset
unfolding find_closer
find_closer_complete zero text start payload_start bytes position payload offset e f s from begins
      to counted =
    absurd (omega (arith, begins_line-le text position begins))
find_closer_complete (suc fuel) text start payload_start bytes position payload offset e f s from
      begins to counted =
    let within = begins_line-le text position begins in
    let line = line_bounds text position in
    let bytes' = add_segment text position (or_length text line.1) bytes in
    let (line_start, p, b, closes, before, same, ends, fits) = e in
    elim (Bool-cases (ltb position line_start)) [
      | inr arrived ↦
          let (closer, closed) =
            closes_there text start payload_start bytes position payload offset e s (ground arith)
              counted in
          rw (inside within, closer) closed
      | inl earlier ↦
          let goes_on =
            is_closer_lem text position within ∙ before position from (ground arith) begins in
          elim (Option-cases line.1) [
            | inl last ↦
                let gone = line_bounds-last text position line_start last (ground arith) in
                absurd (ground arith)
            | inr (next, more) ↦
                let ahead = line_bounds-next text position next within more in
                let reaches = next-le text position next line_start b (ground arith) more in
                let grown =
                  add_segment_exact text start position next bytes s (omega (arith, ahead)) counted
                    (prefix_fits text start payload_start next e (omega (arith, ahead)) reaches) in
                let found =
                  find_closer_complete fuel text start payload_start bytes' next payload offset e
                    (omega (arith, ahead)) (omega (arith, ahead)) (omega (arith, ahead))
                    (line_bounds-begins text position next more).0 reaches
                    (ap (λ n. add_segment text position (or_length text n) bytes) more ∙ grown) in
                rw (inside within, goes_on, more) found
          ]
    ]
  where
    inside : position ≤ length text → leb position (length text) ≡ true
    inside h = ground arith

-- The code finds an envelope exactly when the first line, behind a byte order mark if there is one, is
-- `---`, and a later line is `---` or `...`: the payload is the text between the first line and the
-- first such line, the offset of the body is where the line after that one begins, or the end of the
-- text, and all of it from the first line to the body is at most 65536 bytes of UTF-8. A line ends
-- before its newline, and before a carriage return that stands in front of that.
pub extract_envelope-IsEnvelope :
    (markdown payload : Codes) (offset : ℕ)
    → (extract_envelope markdown ≡ envelope payload offset) ↔ HasEnvelope markdown payload offset
unfolding extract_envelope
extract_envelope-IsEnvelope markdown payload offset = (
  extract_envelope-HasEnvelope markdown payload offset,
  λ (opens, (p, follows, e)).
      let start = start_of markdown in
      let more = (line_bounds-IsNext markdown start p (start_of-le markdown)).1 follows in
      let ahead = line_bounds-next markdown start p (start_of-le markdown) more in
      let bytes = bounded_utf8_size markdown start p max_frontmatter_bytes in
      let found =
        find_closer_complete (suc (length markdown)) markdown start p bytes p payload offset e
          (omega arith) (omega (arith, ahead)) (omega arith)
          (line_bounds-begins markdown start p more).0 e.1
          (omega (
            arith,
            bounded_utf8_size_lem markdown start p max_frontmatter_bytes,
            prefix_fits markdown start p p e (omega (arith, ahead)) e.1,
          )) in
      let opens_there = (opens_lem markdown).1 opens in ground (arith, found, opens_there),
)
