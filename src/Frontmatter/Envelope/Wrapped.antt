-- ===== src/Frontmatter/Envelope/Wrapped.antt =====
-- An envelope that the serializer writes is found again (app/services/frontmatter.py).
use vault_bridge.Base.{
  ℕ, zero, suc, ◌+◌, ◌-◌, ◌≤◌, ◌<◌, ◌≡◌, ◌≢◌, refl, sym, ap, ◌∙◌, true, false, ◌&&◌, ◌||◌, Option,
  some, [], ◌∷◌, ◌++◌, ◌==◌, length, take, drop, leb, ltb, arith, All, length-append,
}
use mathlib.Core.List.{append_assoc}
use vault_bridge.Base.Codes.{Codes, same_codes, utf8_size, slice}
use vault_bridge.Frontmatter.{max_frontmatter_bytes}
use vault_bridge.Frontmatter.Envelope.{
  find_newline, line_bounds, bounds_at, line_end, envelope, or_length, is_closer, add_segment,
  find_closer, extract_envelope, dashes, dots, head_is,
}
use vault_bridge.Frontmatter.Envelope.Size.{bounded_utf8_size_lem}

-- "---\n" + payload + "\n---\n" + body
abbrev pub wrapped : Codes → Codes → Codes
wrapped payload body = dashes ++ 10 ∷ (payload ++ 10 ∷ (dashes ++ 10 ∷ body))

-- One line of text, and not one that closes an envelope.
abbrev pub IsInline : Codes → Type 0
IsInline payload =
    All (λ c. (c ≢ 10) × (c ≢ 13)) payload
    × (same_codes payload dashes ≡ false)
    × (same_codes payload dots ≡ false)

find_newline-append :
    (position : ℕ) (p rest : Codes)
    → All (λ c. (c ≢ 10) × (c ≢ 13)) p
    → find_newline position (p ++ 10 ∷ rest) ≡ some (position + length p)
unfolding find_newline
find_newline-append position [] rest h = ap some (omega arith)
find_newline-append position (c ∷ p) rest h =
    let other : (c == 10) ≡ false = ground (arith, h.0.0) in
    rw other (find_newline-append (position + 1) p rest h.1 ∙ ap some (omega arith))

take-append_exact : (p rest : Codes) → take (length p) (p ++ rest) ≡ p
take-append_exact [] [] = refl
take-append_exact [] (x ∷ rest) = refl
take-append_exact (c ∷ p) rest = ap (λ l. c ∷ l) (take-append_exact p rest)

drop-append_exact : (p rest : Codes) → drop (length p) (p ++ rest) ≡ rest
drop-append_exact [] rest = refl
drop-append_exact (c ∷ p) rest = drop-append_exact p rest

drop_past : (p rest : Codes) (m : ℕ) → drop (length p + m) (p ++ rest) ≡ drop m rest
drop_past [] rest m = let same : 0 + m ≡ m = omega arith in ap (λ n. drop n rest) same
drop_past (c ∷ p) rest m =
    let same : suc (length p) + m ≡ suc (length p + m) = omega arith in
    ap (λ n. drop n (c ∷ (p ++ rest))) same ∙ drop_past p rest m

-- No place of a line without "\r" is one.
no_return :
    (p rest : Codes) (k : ℕ)
    → All (λ c. (c ≢ 10) × (c ≢ 13)) p
    → k < length p
    → head_is 13 (drop k (p ++ rest)) ≡ false
no_return [] rest k h lt = absurd (omega arith)
no_return (c ∷ p) rest zero h lt = ground (arith, h.0.1)
no_return (c ∷ p) rest (suc k) h lt = no_return p rest k h.1 (omega arith)

-- The bounds of a line that stands between a text before it and a line break.
line_at :
    (before p rest : Codes)
    → All (λ c. (c ≢ 10) × (c ≢ 13)) p
    → line_bounds (before ++ (p ++ 10 ∷ rest)) (length before)
      ≡ (length before + length p, some (length before + length p + 1))
unfolding line_bounds
line_at before p rest h =
    let text = before ++ (p ++ 10 ∷ rest) in
    let start = length before in
    let newline = start + length p in
    ap (λ l. bounds_at text start (find_newline start l))
      (drop-append_exact before (p ++ 10 ∷ rest))
    ∙ ap (λ o. bounds_at text start o) (find_newline-append start p rest h)
    ∙ ap (λ n. (n, some (newline + 1))) (ends p h refl)
  where
    ends :
        (q : Codes)
        → All (λ c. (c ≢ 10) × (c ≢ 13)) q
        → p ≡ q
        → line_end (before ++ (p ++ 10 ∷ rest)) (length before) (length before + length p)
          ≡ length before + length p
    ends [] h e = let short : length p ≡ 0 = ap (λ (l : Codes). length l) e in ground arith
    ends (c ∷ q) k e =
        let long : length p ≡ suc (length q) = ap (λ (l : Codes). length l) e in
        let place : length before + length p - 1 ≡ length before + length q = omega arith in
        let still : head_is 13 (drop (length before + length p - 1) (before ++ (p ++ 10 ∷ rest)))
            ≡ false =
          ap (λ n. head_is 13 (drop n (before ++ (p ++ 10 ∷ rest)))) place
          ∙ ap (λ l. head_is 13 l) (drop_past before (p ++ 10 ∷ rest) (length q))
          ∙ no_return p (10 ∷ rest) (length q) h (omega arith) in
        rw still (ground arith)

slice_at :
    (before p rest : Codes)
    → slice (length before) (length before + length p) (before ++ (p ++ rest)) ≡ p
slice_at before p rest =
    let same : length before + length p - length before ≡ length p = omega arith in
    ap (λ n. take n (drop (length before) (before ++ (p ++ rest)))) same
    ∙ ap (λ l. take (length p) l) (drop-append_exact before (p ++ rest))
    ∙ take-append_exact p rest

utf8_size-append : (a b : Codes) → utf8_size (a ++ b) ≡ utf8_size a + utf8_size b
utf8_size-append [] b = omega arith
utf8_size-append (c ∷ a) b = omega (arith, utf8_size-append a b)

-- A round of the loop at a line that does not close the envelope, and one at a line that does.
find_closer_next :
    (fuel : ℕ) (text : Codes) (payload_start bytes position end next : ℕ)
    → position ≤ length text
    → line_bounds text position ≡ (end, some next)
    → is_closer text position end ≡ false
    → find_closer (suc fuel) text payload_start bytes position
      ≡ find_closer fuel text payload_start (add_segment text position next bytes) next
unfolding find_closer
find_closer_next fuel text payload_start bytes position end next le line other =
    let within : leb position (length text) ≡ true = ground arith in
    let at_end : (line_bounds text position).0 ≡ end = ap (λ (l : ℕ × Option ℕ). l.0) line in
    let at_next : (line_bounds text position).1 ≡ some next = ap (λ (l : ℕ × Option ℕ). l.1) line in
    rw within (
      rw at_end (
        rw other (
          rw at_next (
            ap
              (λ o.
                find_closer fuel text payload_start
                  (add_segment text position (or_length text o) bytes) next)
              at_next))))

find_closer_last :
    (fuel : ℕ) (text : Codes) (payload_start bytes position end next : ℕ)
    → position ≤ length text
    → line_bounds text position ≡ (end, some next)
    → is_closer text position end ≡ true
    → add_segment text position next bytes ≤ max_frontmatter_bytes
    → find_closer (suc fuel) text payload_start bytes position
      ≡ envelope (slice payload_start position text) next
unfolding find_closer
find_closer_last fuel text payload_start bytes position end next le line closes small =
    let within : leb position (length text) ≡ true = ground arith in
    let at_end : (line_bounds text position).0 ≡ end = ap (λ (l : ℕ × Option ℕ). l.0) line in
    let at_next : (line_bounds text position).1 ≡ some next = ap (λ (l : ℕ × Option ℕ). l.1) line in
    let fits : ltb max_frontmatter_bytes (add_segment text position next bytes) ≡ false =
      ground arith in
    rw within (rw at_end (rw closes (rw at_next (rw fits refl))))

not_break : (c : ℕ) → c ≡ 0x2d → (c ≢ 10) × (c ≢ 13)
not_break c e = (λ h. ground arith, λ h. ground arith)

-- A text in one line that is wrapped as the serializer wraps it comes back as the payload, with its line
-- break, and the offset of whatever stands after the envelope, if all is at most 65536 bytes.
pub extract_envelope-wrapped :
    (p body : Codes)
    → IsInline p
    → utf8_size p + 9 ≤ max_frontmatter_bytes
    → extract_envelope (wrapped p body) ≡ envelope (p ++ 10 ∷ []) (length p + 9)
unfolding extract_envelope
extract_envelope-wrapped p body (plain, not_dashes, not_dots) small =
    let text = wrapped p body in
    let opener = dashes ++ 10 ∷ [] in
    let before = opener ++ (p ++ 10 ∷ []) in
    let regroup : before ++ (dashes ++ 10 ∷ body) ≡ text =
      ap (λ l. opener ++ l) (append_assoc p (10 ∷ []) (dashes ++ 10 ∷ body)) in
    let mark = not_break 0x2d refl in
    let first = line_at opener p (dashes ++ 10 ∷ body) plain in
    let second : line_bounds text (length before)
        ≡ (length before + 3, some (length before + 3 + 1)) =
      ap (λ l. line_bounds l (length before)) (sym regroup)
      ∙ line_at before dashes body (mark, (mark, (mark, tt))) in
    let long : length before ≡ length p + 5 = omega (arith, length-append p (10 ∷ [])) in
    let whole : length text ≡ length p + 9 + length body =
      omega (arith, length-append p (10 ∷ (dashes ++ 10 ∷ body))) in
    let goes_on : is_closer text 4 (4 + length p) ≡ false =
      ap
        (λ l.
          (4 + length p - 4 == 3) && same_codes l dashes
          || (4 + length p - 4 == 3) && same_codes l dots)
        (slice_at opener p (10 ∷ (dashes ++ 10 ∷ body)))
      ∙ ground arith in
    let closes : is_closer text (length before) (length before + 3) ≡ true =
      ap
        (λ l.
          (length before + 3 - length before == 3) && same_codes l dashes
          || (length before + 3 - length before == 3) && same_codes l dots)
        (ap (λ l. slice (length before) (length before + 3) l) (sym regroup)
          ∙ slice_at before dashes (10 ∷ body))
      ∙ ground arith in
    let payload = p ++ 10 ∷ [] in
    let content : slice 4 (length before) text ≡ payload =
      ap (λ l. slice 4 (length before) l) (sym regroup)
      ∙ ap (λ n. slice 4 n (before ++ (dashes ++ 10 ∷ body))) (omega arith)
      ∙ ap (λ l. slice 4 (4 + length payload) l) (append_assoc opener payload (dashes ++ 10 ∷ body))
      ∙ slice_at opener payload (dashes ++ 10 ∷ body) in
    let closing : slice (length before) (length before + 4) text ≡ dashes ++ 10 ∷ [] =
      ap (λ l. slice (length before) (length before + 4) l) (sym regroup)
      ∙ slice_at before (dashes ++ 10 ∷ []) body in
    let bytes = utf8_size p + 5 in
    let here_next : 4 + length p + 1 ≡ length before = omega (arith, long) in
    let one : add_segment text 4 (length before) 4 ≡ bytes = omega (
      arith,
      bounded_utf8_size_lem text 4 (length before) 65532,
      ap (λ (l : Codes). utf8_size l) content,
      utf8_size-append p (10 ∷ []),
    ) in
    let after : length before + 3 + 1 ≡ length p + 9 = omega (arith, long) in
    let after_four : length before + 4 ≡ length p + 9 = omega (arith, long) in
    let two : add_segment text (length before) (length p + 9) bytes ≡ utf8_size p + 9 = ground (
      arith,
      bounded_utf8_size_lem text (length before) (length p + 9) (65536 - bytes),
      ap (λ (l : Codes). utf8_size l) closing,
      ap (λ n. utf8_size (slice (length before) n text)) after_four,
    ) in
    find_closer_next (length text) text 4 4 4 (4 + length p) (4 + length p + 1)
      (omega (arith, whole)) first goes_on
    ∙ ap (λ n. find_closer (length text) text 4 (add_segment text 4 n 4) n) here_next
    ∙ ap (λ n. find_closer (length text) text 4 n (length before)) one
    ∙ find_closer_last (suc (suc (suc (length (p ++ 10 ∷ (dashes ++ 10 ∷ body)))))) text 4 bytes
        (length before) (length before + 3) (length p + 9) (omega (arith, whole, long))
        (second ∙ ap (λ n. (length before + 3, some n)) after) closes (omega (arith, two, small))
    ∙ ap (λ l. envelope l (length p + 9)) content
