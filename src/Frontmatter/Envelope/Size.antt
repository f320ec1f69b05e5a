-- ===== src/Frontmatter/Envelope/Size.antt =====
-- The sizes that the search for an envelope counts (app/services/frontmatter.py).
use vault_bridge.Base.{
  ℕ, zero, suc, ◌+◌, ◌-◌, ◌≤◌, ◌<◌, ◌≡◌, ap, [], ◌∷◌, take, drop, ltb, min, arith, Bool-cases, inl,
  inr,
}
use vault_bridge.Base.Codes.{Codes, utf8_width, utf8_size, slice}
use vault_bridge.Frontmatter.{max_frontmatter_bytes}
use vault_bridge.Frontmatter.Envelope.{bounded_size, bounded_utf8_size, add_segment}

utf8_width_pos : (c : ℕ) → 0 < utf8_width c
utf8_width_pos c = ground arith

bounded_size_lem :
    (limit size : ℕ) (l : Codes)
    → size ≤ limit
    → bounded_size limit size l ≡ min (size + utf8_size l) (limit + 1)
unfolding bounded_size
bounded_size_lem limit size [] h = omega arith
bounded_size_lem limit size (c ∷ l) h =
    let w = utf8_width c in
    elim (Bool-cases (ltb limit (size + w))) [
      | inl over ↦ rw over (ground arith)
      | inr under ↦ rw under (omega (arith, bounded_size_lem limit (size + w) l (ground arith)))
    ]

-- The count that stops early is the number of bytes, cut at one more than the limit.
pub bounded_utf8_size_lem :
    (text : Codes) (start end limit : ℕ)
    → bounded_utf8_size text start end limit ≡ min (utf8_size (slice start end text)) (limit + 1)
bounded_utf8_size_lem text start end limit =
    omega (arith, bounded_size_lem limit 0 (slice start end text))

pub slice-size :
    (a b : ℕ) (text : Codes)
    → a ≤ b
    → utf8_size (take a text) + utf8_size (slice a b text) ≡ utf8_size (take b text)
slice-size zero b text h =
    let all : b - 0 ≡ b = omega arith in omega (arith, ap (λ n. utf8_size (take n text)) all)
slice-size (suc a) zero text h = absurd (omega arith)
slice-size (suc a) (suc b) [] h = take_nothing (suc b - suc a)
  where
    nothing : Codes
    nothing = []

    take_nothing : (n : ℕ) → 0 + utf8_size (take n nothing) ≡ 0
    take_nothing zero = omega arith
    take_nothing (suc n) = omega arith
slice-size (suc a) (suc b) (c ∷ text) h =
    let same : suc b - suc a ≡ b - a = omega arith in
    omega
      (arith, slice-size a b text (omega arith), ap (λ n. utf8_size (take n (drop a text))) same)

-- The slices of a text that meet are one slice.
pub slice_meet :
    (a b c : ℕ) (text : Codes)
    → a ≤ b
    → b ≤ c
    → utf8_size (slice a b text) + utf8_size (slice b c text) ≡ utf8_size (slice a c text)
slice_meet a b c text h k =
    omega (arith, slice-size a b text h, slice-size b c text k, slice-size a c text (omega arith))

pub add_segment_lem :
    (text : Codes) (start position end bytes : ℕ)
    → start ≤ position
    → position ≤ end
    → (bytes ≤ max_frontmatter_bytes → bytes ≡ utf8_size (slice start position text))
    → add_segment text position end bytes ≤ max_frontmatter_bytes
    → add_segment text position end bytes ≡ utf8_size (slice start end text)
add_segment_lem text start position end bytes h k e le = ground (
  arith,
  bounded_utf8_size_lem text position end (max_frontmatter_bytes - bytes),
  slice_meet start position end text h k,
  e,
)
