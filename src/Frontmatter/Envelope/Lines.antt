-- ===== src/Frontmatter/Envelope/Lines.antt =====
-- Where the lines of a text begin, and how `_line_bounds` goes from one to the next
-- (app/services/frontmatter.py).
use vault_bridge.Base.{
  ℕ, zero, suc, ◌+◌, ◌-◌, ◌≤◌, ◌<◌, ◌≡◌, refl, sym, ap, ◌∙◌, Bool, true, false, Option, none, some,
  [], ◌∷◌, ◌==◌, length, drop, arith, Bool-cases, Option-cases, inl, inr,
}
use vault_bridge.Base.Codes.{Codes}
use vault_bridge.Frontmatter.Envelope.{find_newline, line_bounds, head_is, bounds_at}

pub find_newline-bounds :
    (position n : ℕ) (l : Codes)
    → find_newline position l ≡ some n
    → (position ≤ n) × (n < position + length l)
unfolding find_newline
find_newline-bounds position n [] h = absurd (ground arith)
find_newline-bounds position n (c ∷ l) h = ground (arith, find_newline-bounds (position + 1) n l)

pub length-drop-le : (n : ℕ) (l : Codes) → n ≤ length l → n + length (drop n l) ≡ length l
length-drop-le zero l h = omega arith
length-drop-le (suc n) [] h = absurd (omega arith)
length-drop-le (suc n) (x ∷ l) h = omega (arith, length-drop-le n l (omega arith))

-- The next line starts after this one, and within the text.
pub line_bounds-next :
    (text : Codes) (start next : ℕ)
    → start ≤ length text
    → (line_bounds text start).1 ≡ some next
    → (start < next) × (next ≤ length text)
unfolding line_bounds
line_bounds-next text start next le h = elim (Option-cases (find_newline start (drop start text))) [
  | inl gone ↦ absurd (ground arith)
  | inr (n, found) ↦
      ground
        (arith, find_newline-bounds start n (drop start text) found, length-drop-le start text le)
]

-- A line begins right after a newline.
abbrev pub begins_line : Codes → ℕ → Bool
begins_line text zero = true
begins_line text (suc i) = head_is 10 (drop i text)

pub find_newline-code :
    (position n : ℕ) (l : Codes)
    → find_newline position l ≡ some n
    → head_is 10 (drop (n - position) l) ≡ true
unfolding find_newline
find_newline-code position n [] h = absurd (ground arith)
find_newline-code position n (c ∷ l) h = elim (Bool-cases (c == 10)) [
  | inl newline ↦
      let same : n - position ≡ 0 = ground arith in
      ap (λ k. head_is 10 (drop k (c ∷ l))) same ∙ newline
  | inr other ↦
      let found : find_newline (position + 1) l ≡ some n = ground arith in
      let after = find_newline-bounds (position + 1) n l found in
      let same : n - position ≡ suc (n - (position + 1)) = omega (arith, after) in
      ap (λ k. head_is 10 (drop k (c ∷ l))) same ∙ find_newline-code (position + 1) n l found
]

-- There is no newline before the place that is found.
pub find_newline-first :
    (position n k : ℕ) (l : Codes)
    → find_newline position l ≡ some n
    → position + k < n
    → head_is 10 (drop k l) ≡ false
unfolding find_newline
find_newline-first position n zero [] h lt = absurd (ground arith)
find_newline-first position n (suc k) [] h lt = absurd (ground arith)
find_newline-first position n zero (c ∷ l) h lt = ground arith
find_newline-first position n (suc k) (c ∷ l) h lt = elim (Bool-cases (c == 10)) [
  | inl newline ↦ absurd (ground arith)
  | inr other ↦ find_newline-first (position + 1) n k l (ground arith) (omega arith)
]

pub find_newline-absent :
    (position k : ℕ) (l : Codes) → find_newline position l ≡ none → head_is 10 (drop k l) ≡ false
unfolding find_newline
find_newline-absent position zero [] h = refl
find_newline-absent position (suc k) [] h = refl
find_newline-absent position zero (c ∷ l) h = ground arith
find_newline-absent position (suc k) (c ∷ l) h = elim (Bool-cases (c == 10)) [
  | inl newline ↦ absurd (ground arith)
  | inr other ↦ find_newline-absent (position + 1) k l (ground arith)
]

pub drop-drop : (a b n : ℕ) (l : Codes) → n ≡ a + b → drop b (drop a l) ≡ drop n l
drop-drop zero b n l h = ap (λ m. drop m l) (omega arith)
drop-drop (suc a) b zero l h = absurd (omega arith)
drop-drop (suc a) zero (suc n) [] h = refl
drop-drop (suc a) (suc b) (suc n) [] h = refl
drop-drop (suc a) b (suc n) (c ∷ l) h = drop-drop a b n l (omega arith)

-- The next line begins right there, and no line begins between the start and the next line.
pub line_bounds-begins :
    (text : Codes) (start next : ℕ)
    → (line_bounds text start).1 ≡ some next
    → (begins_line text next ≡ true) × ((q : ℕ) → start < q → q < next → begins_line text q ≡ false)
unfolding line_bounds
line_bounds-begins text start next h = elim (Option-cases (find_newline start (drop start text))) [
  | inl gone ↦ absurd (ground arith)
  | inr (n, found) ↦ (begins n found (ground arith), between n found (ground arith))
]
  where
    begins :
        (n : ℕ)
        → find_newline start (drop start text) ≡ some n
        → next ≡ n + 1
        → begins_line text next ≡ true
    begins n found same =
        let after = find_newline-bounds start n (drop start text) found in
        let place : next ≡ suc n = omega arith in
        ap (begins_line text) place
        ∙ ap (head_is 10) (sym (drop-drop start (n - start) n text (omega (arith, after))))
        ∙ find_newline-code start n (drop start text) found

    between :
        (n : ℕ)
        → find_newline start (drop start text) ≡ some n
        → next ≡ n + 1
        → (q : ℕ) → start < q
        → q < next
        → begins_line text q ≡ false
    between n found same zero lt le = absurd (omega arith)
    between n found same (suc i) lt le =
        ap (head_is 10) (sym (drop-drop start (i - start) i text (omega arith)))
        ∙ find_newline-first start n (i - start) (drop start text) found (omega arith)

-- After the last line no line begins.
pub line_bounds-last :
    (text : Codes) (start q : ℕ)
    → (line_bounds text start).1 ≡ none
    → start < q
    → begins_line text q ≡ false
unfolding line_bounds
line_bounds-last text start zero h lt = absurd (omega arith)
line_bounds-last text start (suc i) h lt =
    ap (head_is 10) (sym (drop-drop start (i - start) i text (omega arith)))
    ∙ find_newline-absent start (i - start) (drop start text)
        (absent (find_newline start (drop start text)) h)
  where
    absent : (o : Option ℕ) → (bounds_at text start o).1 ≡ none → o ≡ none
    absent none e = refl
    absent (some n) e = absurd (ground arith)

-- A line begins in the text, or at its end.
pub begins_line-le : (text : Codes) (q : ℕ) → begins_line text q ≡ true → q ≤ length text
begins_line-le text zero h = omega arith
begins_line-le [] (suc zero) h = absurd (ground arith)
begins_line-le [] (suc (suc i)) h = absurd (ground arith)
begins_line-le (c ∷ l) (suc zero) h = omega arith
begins_line-le (c ∷ l) (suc (suc i)) h = omega (arith, begins_line-le l (suc i) h)
