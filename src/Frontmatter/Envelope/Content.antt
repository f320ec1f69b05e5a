-- ===== src/Frontmatter/Envelope/Content.antt =====
-- What a line of a text is, and that `_line_bounds` cuts it out (app/services/frontmatter.py).
use vault_bridge.Base.{
  ℕ, zero, suc, ◌+◌, ◌-◌, ◌≤◌, ◌≡◌, refl, sym, ap, ◌∙◌, Bool, true, false, ◌&&◌, ◌||◌, Option, none,
  some, [], ◌∷◌, ◌==◌, if◌then◌else◌, length, take, drop, arith, Bool-cases, inl, inr,
}
use vault_bridge.Base.Codes.{Codes, same_codes, same_codes_iff, slice}
use vault_bridge.Frontmatter.Envelope.{
  find_newline, line_bounds, line_end, bounds_at, is_closer, is_line, dashes, dots, head_is,
}
use vault_bridge.Frontmatter.Envelope.Lines.{
  find_newline-bounds, find_newline-code, find_newline-first, find_newline-absent, drop-drop,
  length-drop-le,
}

-- The first line of a text, without the newline that ends it and a carriage return before that.
abbrev pub first_line : Codes → Codes
first_line [] = []
first_line (c ∷ l) =
    let rest = first_line l in if c == 10 || c == 13 && head_is 10 l then [] else c ∷ rest

-- how many code points it has, for a text with its first newline after so many code points
abbrev line_size : ℕ → Codes → ℕ
line_size zero l = 0
line_size (suc i) l = if head_is 13 (drop i l) then i else suc i

first_line-absent : (position : ℕ) (l : Codes) → find_newline position l ≡ none → first_line l ≡ l
unfolding find_newline
first_line-absent position [] h = refl
first_line-absent position (c ∷ l) h = elim (Bool-cases (c == 10)) [
  | inl newline ↦ absurd (ground arith)
  | inr other ↦
      let gone : find_newline (position + 1) l ≡ none = ground arith in
      ground (
        arith,
        find_newline-absent (position + 1) 0 l gone,
        first_line-absent (position + 1) l gone,
      )
]

first_line-empty : (l : Codes) → head_is 10 l ≡ true → first_line l ≡ []
first_line-empty [] h = refl
first_line-empty (c ∷ l) h = ground (arith, h)

first_line_further :
    (c : ℕ) (l : Codes)
    → (c == 10) ≡ false
    → head_is 10 l ≡ false
    → first_line (c ∷ l) ≡ c ∷ first_line l
first_line_further c l other middle = elim (Bool-cases (c == 13)) [
  | inl mark ↦ rw (other, mark, middle) refl
  | inr plain ↦ rw (other, plain) refl
]

first_line_step :
    (c k : ℕ) (l : Codes)
    → (c == 10) ≡ false
    → head_is 10 l ≡ false
    → first_line l ≡ take (line_size (suc k) l) l
    → first_line (c ∷ l) ≡ take (line_size (suc (suc k)) (c ∷ l)) (c ∷ l)
first_line_step c k l other middle ih =
    first_line_further c l other middle ∙ ap (λ m. c ∷ m) ih ∙ at (head_is 13 (drop k l))
  where
    at :
        (b : Bool)
        → c ∷ take (if b then k else suc k) l ≡ take (if b then suc k else suc (suc k)) (c ∷ l)
    at true = refl
    at false = refl

first_line-found :
    (position m : ℕ) (l : Codes)
    → find_newline position l ≡ some (position + m)
    → first_line l ≡ take (line_size m l) l
unfolding find_newline
first_line-found position m [] h = absurd (ground arith)
first_line-found position zero (c ∷ l) h = elim (Bool-cases (c == 10)) [
  | inl newline ↦ rw newline refl
  | inr other ↦
      absurd (omega (arith, find_newline-bounds (position + 1) (position + 0) l (ground arith)))
]
first_line-found position (suc zero) (c ∷ l) h = elim (Bool-cases (c == 10)) [
  | inl newline ↦ absurd (ground arith)
  | inr other ↦
      let found : find_newline (position + 1) l ≡ some (position + 1 + 0) = ground arith in
      let place : 0 ≡ position + 1 + 0 - (position + 1) = omega arith in
      let newline : head_is 10 l ≡ true =
        ap (λ k. head_is 10 (drop k l)) place
        ∙ find_newline-code (position + 1) (position + 1 + 0) l found in
      ground (arith, first_line-empty l newline)
]
first_line-found position (suc (suc k)) (c ∷ l) h = elim (Bool-cases (c == 10)) [
  | inl newline ↦ absurd (ground arith)
  | inr other ↦
      let found : find_newline (position + 1) l ≡ some (position + 1 + suc k) = ground arith in
      first_line_step c k l other
        (find_newline-first (position + 1) (position + 1 + suc k) 0 l found (omega arith))
        (first_line-found (position + 1) (suc k) l found)
]

-- The line that begins at a place.
abbrev pub line_at : Codes → ℕ → Codes
line_at text start = first_line (drop start text)

line_end_lem :
    (text : Codes) (start m newline : ℕ)
    → newline ≡ start + m
    → line_end text start newline - start ≡ line_size m (drop start text)
line_end_lem text start zero newline e = ground arith
line_end_lem text start (suc i) newline e =
    let before : newline - 1 ≡ start + i = omega arith in
    let same : head_is 13 (drop (newline - 1) text) ≡ head_is 13 (drop i (drop start text)) =
      ap (head_is 13) (sym (drop-drop start i (newline - 1) text before)) in
    ground (arith, same)

length-take-le : (n : ℕ) (l : Codes) → n ≤ length l → length (take n l) ≡ n
length-take-le zero l h = refl
length-take-le (suc n) [] h = absurd (omega arith)
length-take-le (suc n) (c ∷ l) h = omega (arith, length-take-le n l (omega arith))

take_whole : (n : ℕ) (l : Codes) → n ≡ length l → take n l ≡ l
take_whole zero [] h = refl
take_whole zero (c ∷ l) h = absurd (omega arith)
take_whole (suc n) [] h = refl
take_whole (suc n) (c ∷ l) h = ap (λ m. c ∷ m) (take_whole n l (omega arith))

line_size-le : (m : ℕ) (l : Codes) → line_size m l ≤ m
line_size-le zero l = omega arith
line_size-le (suc i) l = ground arith

-- The code cuts out the line.
line_bounds-line :
    (text : Codes) (start : ℕ)
    → start ≤ length text
    → (slice start (line_bounds text start).0 text ≡ line_at text start)
      × ((line_bounds text start).0 - start ≤ length (drop start text))
unfolding line_bounds
line_bounds-line text start le = at (find_newline start (drop start text)) refl
  where
    rest : length text - start ≡ length (drop start text)
    rest = omega (arith, length-drop-le start text le)

    at :
        (o : Option ℕ)
        → find_newline start (drop start text) ≡ o
        → (slice start (bounds_at text start o).0 text ≡ line_at text start)
          × ((bounds_at text start o).0 - start ≤ length (drop start text))
    at none gone = (
      take_whole (length text - start) (drop start text) rest
          ∙ sym (first_line-absent start (drop start text) gone),
      omega (arith, rest),
    )
    at (some n) found =
        let within = find_newline-bounds start n (drop start text) found in
        let place : n ≡ start + (n - start) = omega (arith, within) in
        let size = line_end_lem text start (n - start) n place in
        (
          ap (λ k. take k (drop start text)) size
              ∙ sym (first_line-found start (n - start) (drop start text) (found ∙ ap some place)),
          omega (arith, size, line_size-le (n - start) (drop start text), within),
        )

-- The test of the code on a line compares the line with the marker.
pub is_line_lem :
    (text : Codes) (start : ℕ) (marker : Codes)
    → start ≤ length text
    → length marker ≡ 3
    → is_line text start (line_bounds text start).0 marker ≡ same_codes (line_at text start) marker
is_line_lem text start marker le three =
    let end = (line_bounds text start).0 in
    let (cut, within) = line_bounds-line text start le in
    let size = length-take-le (end - start) (drop start text) within in
    elim (Bool-cases (same_codes (line_at text start) marker)) [
      | inr other ↦
          let differs = ap (λ l. same_codes l marker) cut ∙ other in ground (arith, differs)
      | inl same ↦
          let equals = ap (λ l. same_codes l marker) cut ∙ same in
          let three_long : end - start ≡ 3 =
            omega
              (arith, size, ap length ((same_codes_iff (slice start end text) marker).0 equals)) in
          ground (arith, equals, three_long)
    ]

-- The line is `---`, or `...`.
abbrev pub is_closing : Codes → Bool
is_closing line = same_codes line dashes || same_codes line dots

pub is_closer_lem :
    (text : Codes) (start : ℕ)
    → start ≤ length text
    → is_closer text start (line_bounds text start).0 ≡ is_closing (line_at text start)
is_closer_lem text start le = ground (
  arith,
  is_line_lem text start dashes le (omega arith),
  is_line_lem text start dots le (omega arith),
)
