-- ===== src/Session/Splitting.antt =====
-- `split_dots` of Session (app/core/ui_session.py) undoes joining with dots.
use vault_bridge.Base.{
  ◌≤◌, length, ◌≡◌, refl, ap, Bool, true, not, List, [], ◌∷◌, ◌++◌, ◌==◌, if◌then◌else◌, every,
  arith, Bool-cases, inl, inr,
}
use vault_bridge.Base.Codes.{Codes}
use vault_bridge.Session.{split_dots}

-- the text has no dot
abbrev pub has_no_dot : Codes → Bool
has_no_dot l = every (λ c. not (c == 0x2e)) l

abbrev pub join_dots : List Codes → Codes
join_dots [] = []
join_dots (a ∷ []) = a
join_dots (a ∷ b ∷ parts) = a ++ 0x2e ∷ join_dots (b ∷ parts)

pub split_dots-last : (a : Codes) → has_no_dot a ≡ true → split_dots a ≡ a ∷ []
unfolding split_dots
split_dots-last [] h = refl
split_dots-last (c ∷ a) h = ground (arith, split_dots-last a (ground arith))

pub split_dots-part :
    (a b : Codes) → has_no_dot a ≡ true → split_dots (a ++ 0x2e ∷ b) ≡ a ∷ split_dots b
unfolding split_dots
split_dots-part [] b h = refl
split_dots-part (c ∷ a) b h = ground (arith, split_dots-part a b (ground arith))

length-split_dots : (l : Codes) → 1 ≤ length (split_dots l)
unfolding split_dots
length-split_dots [] = omega arith
length-split_dots (c ∷ l) = at (split_dots l) (length-split_dots l)
  where
    at :
        (parts : List Codes)
        → 1 ≤ length parts
        → 1
          ≤ length (
              if c == 0x2e
              then [] ∷ parts
              else elim parts [ [] ↦ (c ∷ []) ∷ [] | part ∷ parts ↦ (c ∷ part) ∷ parts ])
    at [] h = absurd (omega arith)
    at (a ∷ parts) h = ground arith

-- Joining what the split gives yields the text again.
pub join-split_dots : (l : Codes) → join_dots (split_dots l) ≡ l
unfolding split_dots
join-split_dots [] = refl
join-split_dots (c ∷ l) = at (split_dots l) (length-split_dots l) (join-split_dots l)
  where
    at :
        (parts : List Codes)
        → 1 ≤ length parts
        → join_dots parts ≡ l
        → join_dots (
            if c == 0x2e
            then [] ∷ parts
            else elim parts [ [] ↦ (c ∷ []) ∷ [] | part ∷ parts ↦ (c ∷ part) ∷ parts ])
          ≡ c ∷ l
    at [] n h = absurd (omega arith)
    at (a ∷ []) n h = elim (Bool-cases (c == 0x2e)) [
      | inl dot ↦ rw dot (ground arith)
      | inr other ↦ rw other (ground arith)
    ]
    at (a ∷ b ∷ parts) n h = elim (Bool-cases (c == 0x2e)) [
      | inl dot ↦ rw dot (ground arith)
      | inr other ↦ rw other (ap (λ m. c ∷ m) h)
    ]
