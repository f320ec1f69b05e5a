-- ===== src/Frontmatter/Envelope/Closing.antt =====
-- How the search for the closing line of an envelope goes on, and what stands around the line that it
-- finds (app/services/frontmatter.py).
use vault_bridge.Base.{
  ℕ, zero, suc, ◌≤◌, ◌<◌, ◌≡◌, ap, ◌∙◌, sym, true, false, some, length, leb, ltb, arith, Bool-cases,
  Option-cases, inl, inr,
}
use vault_bridge.Base.Codes.{Codes, utf8_size, slice}
use vault_bridge.Frontmatter.{max_frontmatter_bytes}
use vault_bridge.Frontmatter.Envelope.{
  line_bounds, envelope, or_length, is_closer, add_segment, close, find_closer,
}
use vault_bridge.Frontmatter.Envelope.Size.{add_segment_lem}
use vault_bridge.Frontmatter.Envelope.Content.{line_at, is_closing, is_closer_lem}
use vault_bridge.Frontmatter.Envelope.Next.{IsBehind, to-IsBehind}
use vault_bridge.Frontmatter.Envelope.Lines.{begins_line, line_bounds-next, line_bounds-begins}

-- No line that begins from the one place on, before the other, is a closing line.
abbrev pub HasNoCloser : Codes → ℕ → ℕ → Type 0
HasNoCloser text from to =
    (q : ℕ) → from ≤ q → q < to → begins_line text q ≡ true → is_closing (line_at text q) ≡ false

-- An envelope: the first line from `payload_start` on that closes it begins at a place, its payload
-- stands before that place, the offset is where the line after it begins, or the end of the text, and
-- all of it is at most 65536 bytes.
abbrev pub IsEnvelope : Codes → ℕ → ℕ → Codes → ℕ → Type 0
IsEnvelope text start payload_start payload offset =
    (line_start : ℕ) × (payload_start ≤ line_start)
    × (begins_line text line_start ≡ true)
    × (is_closing (line_at text line_start) ≡ true)
    × HasNoCloser text payload_start line_start
    × (payload ≡ slice payload_start line_start text)
    × IsBehind text line_start offset
    × (utf8_size (slice start offset text) ≤ max_frontmatter_bytes)

-- The search comes to a line when no line before it closes the envelope.
abbrev pub IsReached : Codes → ℕ → ℕ → Type 0
IsReached text payload_start position =
    (payload_start ≤ position)
    × (begins_line text position ≡ true)
    × HasNoCloser text payload_start position

next-IsReached :
    (text : Codes) (payload_start position next : ℕ)
    → IsReached text payload_start position
    → is_closing (line_at text position) ≡ false
    → position ≤ length text
    → (line_bounds text position).1 ≡ some next
    → IsReached text payload_start next
next-IsReached text payload_start position next (le, begins, before) goes_on within more =
    let ahead = line_bounds-next text position next within more in
    let (next_begins, between) = line_bounds-begins text position next more in
    (
      omega (arith, ahead),
      next_begins,
      λ q from to b. elim (Bool-cases (ltb q position)) [
        | inl earlier ↦ before q from (ground arith) b
        | inr later ↦ elim (Bool-cases (ltb position q)) [
          | inl inner ↦ absurd (ground (arith, between q (ground arith) to))
          | inr outer ↦
              let same : q ≡ position = ground arith in
              ap (λ p. is_closing (line_at text p)) same ∙ goes_on
        ]
      ],
    )

pub segment-le :
    (text : Codes) (position : ℕ)
    → position ≤ length text
    → position ≤ or_length text (line_bounds text position).1
segment-le text position le = elim (Option-cases (line_bounds text position).1) [
  | inl last ↦ rw last le
  | inr (next, more) ↦ rw more (omega (arith, line_bounds-next text position next le more))
]

close_lem :
    (text : Codes) (payload_start line_start segment_end bytes : ℕ) {payload : Codes} {offset : ℕ}
    → close text payload_start line_start segment_end bytes ≡ envelope payload offset
    → (bytes ≤ max_frontmatter_bytes)
      × (payload ≡ slice payload_start line_start text)
      × (offset ≡ segment_end)
close_lem text payload_start line_start segment_end bytes h = ground arith

pub find_closer-IsEnvelope :
    (fuel : ℕ) (text : Codes) (start payload_start bytes position : ℕ) {payload : Codes}
    {offset : ℕ}
    → start ≤ position
    → IsReached text payload_start position
    → (bytes ≤ max_frontmatter_bytes → bytes ≡ utf8_size (slice start position text))
    → find_closer fuel text payload_start bytes position ≡ envelope payload offset
    → IsEnvelope text start payload_start payload offset
unfolding find_closer
find_closer-IsEnvelope zero text start payload_start bytes position s p e h = absurd (ground arith)
find_closer-IsEnvelope (suc fuel) text start payload_start bytes position {payload} {offset} s p e
      h =
    let line = line_bounds text position in
    let segment_end = or_length text line.1 in
    let bytes' = add_segment text position segment_end bytes in
    elim (Bool-cases (leb position (length text))) [
      | inr past ↦ absurd (ground arith)
      | inl within ↦
          let lines = is_closer_lem text position (ground arith) in
          let grown =
            add_segment_lem text start position segment_end bytes s
              (segment-le text position (ground arith)) e in
          elim (Bool-cases (is_closer text position line.0)) [
            | inl closes ↦
                let closed : close text payload_start position segment_end bytes'
                    ≡ envelope payload offset =
                  ground arith in
                let (fits, here_payload, here_offset) =
                  close_lem text payload_start position segment_end bytes' closed in
                (
                  position,
                  p.0,
                  p.1,
                  sym lines ∙ closes,
                  p.2,
                  here_payload,
                  to-IsBehind text position offset (ground arith) here_offset,
                  omega (arith, grown fits, ap (λ n. utf8_size (slice start n text)) here_offset),
                )
            | inr goes_on ↦ elim (Option-cases line.1) [
              | inl last ↦ absurd (ground arith)
              | inr (next, more) ↦
                  let ahead = line_bounds-next text position next (ground arith) more in
                  let same : segment_end ≡ next = ground arith in
                  find_closer-IsEnvelope fuel text start payload_start bytes' next
                    (omega (arith, ahead))
                    (next-IsReached text payload_start position next p (sym lines ∙ goes_on)
                      (ground arith) more)
                    (λ le. grown le ∙ ap (λ n. utf8_size (slice start n text)) same) (ground arith)
            ]
          ]
    ]
