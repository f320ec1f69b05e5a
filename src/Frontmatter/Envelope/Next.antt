-- ===== src/Frontmatter/Envelope/Next.antt =====
-- Which line is the next one, and that `_line_bounds` gives it (app/services/frontmatter.py).
use vault_bridge.Base.{
  ℕ, ◌≤◌, ◌<◌, ◌≡◌, ◌↔◌, refl, sym, subst, ap, ◌∙◌, true, false, some, length, ltb, arith,
  Bool-cases, Bool, Option-cases, inl, inr,
}
use vault_bridge.Base.Codes.{Codes}
use vault_bridge.Frontmatter.Envelope.{line_bounds, or_length}
use vault_bridge.Frontmatter.Envelope.Lines.{
  begins_line, line_bounds-next, line_bounds-begins, line_bounds-last,
}

-- A line begins at the later place, and none begins between the two.
abbrev pub IsNext : Codes → ℕ → ℕ → Type 0
IsNext text start next =
    (start < next)
    × (begins_line text next ≡ true)
    × ((q : ℕ) → start < q → q < next → begins_line text q ≡ false)

-- The place behind a line: where the next line begins, or the end of the text.
pub data IsBehind (text : Codes) (start : ℕ) : ℕ → Type 0 where
  next_line : {next : ℕ} → IsNext text start next → IsBehind text start next
  last_line : ((q : ℕ) → start < q → begins_line text q ≡ false) → IsBehind text start (length text)

apart : (t : Bool) → t ≡ true → t ≡ false → ⊥
apart true h k = absurd (ground arith)
apart false h k = absurd (ground arith)

bounds-IsNext :
    (text : Codes) (start next : ℕ)
    → start ≤ length text
    → (line_bounds text start).1 ≡ some next
    → IsNext text start next
bounds-IsNext text start next le h =
    let (begins, between) = line_bounds-begins text start next h in
    ((line_bounds-next text start next le h).0, begins, between)

IsNext-bounds :
    (text : Codes) (start next : ℕ)
    → start ≤ length text
    → IsNext text start next
    → (line_bounds text start).1 ≡ some next
IsNext-bounds text start next le (ahead, begins, between) =
    elim (Option-cases (line_bounds text start).1) [
      | inl last ↦
          absurd
            (apart (begins_line text next) begins (line_bounds-last text start next last ahead))
      | inr (n, more) ↦
          let (n_ahead, n_begins, n_between) = bounds-IsNext text start n le more in
          elim (Bool-cases (ltb n next)) [
            | inl short ↦
                absurd (apart (begins_line text n) n_begins (between n n_ahead (ground arith)))
            | inr far ↦ elim (Bool-cases (ltb next n)) [
              | inl long ↦
                  absurd
                    (apart (begins_line text next) begins (n_between next ahead (ground arith)))
              | inr same ↦ more ∙ ap some (ground arith)
            ]
          ]
    ]

-- `_line_bounds` gives the next line.
pub line_bounds-IsNext :
    (text : Codes) (start next : ℕ)
    → start ≤ length text
    → ((line_bounds text start).1 ≡ some next) ↔ IsNext text start next
line_bounds-IsNext text start next le =
    (bounds-IsNext text start next le, IsNext-bounds text start next le)

or_length-IsBehind :
    (text : Codes) (start : ℕ)
    → start ≤ length text
    → IsBehind text start (or_length text (line_bounds text start).1)
or_length-IsBehind text start le = elim (Option-cases (line_bounds text start).1) [
  | inl last ↦ rw last (last_line (λ q. line_bounds-last text start q last))
  | inr (n, more) ↦ rw more (next_line (bounds-IsNext text start n le more))
]

pub or_length_lem :
    (text : Codes) (start : ℕ) {offset : ℕ}
    → start ≤ length text
    → IsBehind text start offset
    → offset ≡ or_length text (line_bounds text start).1
or_length_lem text start le (next_line {next} n) =
    sym (ap (or_length text) (IsNext-bounds text start next le n))
or_length_lem text start le (last_line none_begins) =
    elim (Option-cases (line_bounds text start).1) [
      | inl last ↦ rw last refl
      | inr (n, more) ↦
          let (ahead, begins, between) = bounds-IsNext text start n le more in
          absurd (apart (begins_line text n) begins (none_begins n ahead))
    ]

pub to-IsBehind :
    (text : Codes) (start offset : ℕ)
    → start ≤ length text
    → offset ≡ or_length text (line_bounds text start).1
    → IsBehind text start offset
to-IsBehind text start offset le e =
    subst (IsBehind text start) (sym e) (or_length-IsBehind text start le)
