-- ===== src/Wikilinks/Lines.antt =====
-- How far the search of a line for wikilinks goes (app/services/wikilinks.py).
use vault_bridge.Base.{
  ℕ, zero, suc, ◌+◌, ◌≤◌, ◌≡◌, refl, ap, sym, false, ◌&&◌, none, some, [], ◌∷◌, ◌++◌, ◌==◌,
  if◌then◌else◌, length, arith, Bool-cases, Option-cases, inl, inr,
}
use vault_bridge.Base.Codes.{Codes}
use vault_bridge.Wikilinks.{
  Library, cut_pair, has_code, parse_body, at_position, has_pair, parse_from,
}

pub cut_pair-first :
    (k : ℕ) (a l : Codes) → has_code k a ≡ false → cut_pair k (a ++ k ∷ k ∷ l) ≡ some (a, l)
unfolding cut_pair
cut_pair-first k [] l h = ground arith
cut_pair-first k (c ∷ []) l h = ground (arith, cut_pair-first k [] l refl)
cut_pair-first k (c ∷ d ∷ a) l h = ground (arith, cut_pair-first k (d ∷ a) l (ground arith))

pub cut_pair-absent : (k : ℕ) (a : Codes) → has_code k a ≡ false → cut_pair k a ≡ none
unfolding cut_pair
cut_pair-absent k [] h = refl
cut_pair-absent k (c ∷ []) h = refl
cut_pair-absent k (c ∷ d ∷ a) h = ground (arith, cut_pair-absent k (d ∷ a) (ground arith))

length-cut_pair :
    (k : ℕ) (l a b : Codes) → cut_pair k l ≡ some (a, b) → length a + 2 + length b ≡ length l
unfolding cut_pair
length-cut_pair k [] a b h = cc
length-cut_pair k (c ∷ []) a b h = cc
length-cut_pair k (c ∷ d ∷ l) a b h = elim (Bool-cases (c == k && d == k)) [
  | inl both ↦ ground arith
  | inr other ↦ elim (Option-cases (cut_pair k (d ∷ l))) [
    | inl none_there ↦ absurd (ground arith)
    | inr ((a', b'), there) ↦ let ih = length-cut_pair k (d ∷ l) a' b' there in ground arith
  ]
]

parse_from-nothing :
    (fuel : ℕ) (lib : Library) (position : ℕ) → parse_from fuel lib position [] ≡ []
unfolding parse_from
parse_from-nothing zero lib position = refl
parse_from-nothing (suc fuel) lib position = refl

-- Any two amounts of fuel of at least the length of the text give the same links.
pub parse_from_enough :
    (fuel more : ℕ) (lib : Library) (position : ℕ) (text : Codes)
    → length text ≤ fuel
    → length text ≤ more
    → parse_from fuel lib position text ≡ parse_from more lib position text
unfolding parse_from
parse_from_enough zero more lib position [] f m = sym (parse_from-nothing more lib position)
parse_from_enough zero more lib position (c ∷ l) f m = absurd (omega arith)
parse_from_enough (suc fuel) zero lib position [] f m = parse_from-nothing (suc fuel) lib position
parse_from_enough (suc fuel) zero lib position (c ∷ l) f m = absurd (omega arith)
parse_from_enough (suc fuel) (suc more) lib position text f m =
    elim (Option-cases (cut_pair 0x5b text)) [
      | inl absent ↦ rw (absent, parse_from) refl
      | inr ((before, after), opened) ↦
          rw (opened, parse_from)
            (elim (Option-cases (cut_pair 0x5d after)) [
              | inl absent ↦ rw (absent, parse_from) refl
              | inr ((body, rest), closed) ↦
                  let size = length-cut_pair 0x5b text before after opened in
                  let inner = length-cut_pair 0x5d after body rest closed in
                  let start = position + length before in
                  let same =
                    parse_from_enough fuel more lib (start + 2 + length body + 2) rest (omega arith)
                      (omega arith) in
                  rw closed (
                    ap
                      (λ links.
                        if has_pair (cut_pair 0x5b body)
                        then links
                        else at_position start (parse_body lib body) links)
                      same)
            ])
    ]
