-- ===== src/Frontmatter/Decimal.antt =====
-- The chunked reading of decimals, `_parse_decimal_digits` (app/services/frontmatter.py), against the
-- digit by digit one.
use vault_bridge.Base.{
  ℕ, zero, suc, ◌+◌, ◌-◌, ◌*◌, ◌^◌, ◌≤◌, ◌≡◌, refl, sym, ap, ◌∙◌, false, List, [], ◌∷◌, ◌++◌,
  length, take, drop, leb, arith,
}
use native.Mathlib.Nat.{pow-zero, pow-succ'}
use vault_bridge.Base.Codes.{Codes}
use vault_bridge.Frontmatter.Scalars.{
  number_from, decimal_chunks, parse_decimal_digits, digit_value,
}

pub take-drop {ℓ} : {A : Type ℓ} (n : ℕ) (xs : List A) → take n xs ++ drop n xs ≡ xs
take-drop zero xs = refl
take-drop (suc n) [] = refl
take-drop (suc n) (x ∷ xs) = ap (λ l. x ∷ l) (take-drop n xs)

length-drop {ℓ} : {A : Type ℓ} (n : ℕ) (xs : List A) → length (drop n xs) ≡ length xs - n
length-drop zero xs = omega arith
length-drop (suc n) [] = omega arith
length-drop (suc n) (x ∷ xs) = omega (arith, length-drop n xs)

pub number_from-append :
    (base n : ℕ) (xs ys : Codes)
    → number_from base n (xs ++ ys) ≡ number_from base (number_from base n xs) ys
unfolding number_from
number_from-append base n [] ys = refl
number_from-append base n (c ∷ xs) ys = number_from-append base (n * base + digit_value c) xs ys

spread : (n b d p r : ℕ) → (n * b + d) * p + r ≡ n * (b * p) + (0 * b + d) * p + r
spread n b d p r = grind arith

regroup : (a b c : ℕ) → a + b + c ≡ a + (b + c)
regroup a b c = omega arith

number_from_shift :
    (base n : ℕ) (xs : Codes) → number_from base n xs ≡ n * base ^ length xs + number_from base 0 xs
unfolding number_from
number_from_shift base n [] = grind (arith, pow-zero base)
number_from_shift base n (c ∷ xs) =
    let d = digit_value c in
    let p = base ^ length xs in
    number_from_shift base (n * base + d) xs
    ∙ spread n base d p (number_from base 0 xs)
    ∙ ap (λ q. n * q + (0 * base + d) * p + number_from base 0 xs)
        (sym (pow-succ' base (length xs)))
    ∙ regroup (n * base ^ suc (length xs)) ((0 * base + d) * p) (number_from base 0 xs)
    ∙ ap (λ m. n * base ^ suc (length xs) + m) (sym (number_from_shift base (0 * base + d) xs))

decimal_chunks_lem :
    (fuel n : ℕ) (digits : Codes)
    → length digits ≤ fuel
    → decimal_chunks fuel n digits ≡ number_from 10 n digits
unfolding decimal_chunks
decimal_chunks_lem zero n [] h = refl
decimal_chunks_lem zero n (c ∷ digits) h = absurd (omega arith)
decimal_chunks_lem (suc fuel) n [] h = refl
decimal_chunks_lem (suc fuel) n (c ∷ digits) h =
    let chunk = take 9 (c ∷ digits) in
    let rest = drop 9 (c ∷ digits) in
    let m = n * 10 ^ length chunk + number_from 10 0 chunk in
    let more : leb (length (c ∷ digits)) 0 ≡ false = ground arith in
    rw more (
      decimal_chunks_lem fuel m rest (omega (arith, length-drop 9 (c ∷ digits)))
      ∙ ap (λ k. number_from 10 k rest) (sym (number_from_shift 10 n chunk))
      ∙ sym (number_from-append 10 n chunk rest)
      ∙ ap (λ l. number_from 10 n l) (take-drop 9 (c ∷ digits)))

-- Reading a decimal in chunks of nine digits gives the number that reading it digit by digit gives, at
-- any length.
pub parse_decimal_digits_lem :
    (digits : Codes) → parse_decimal_digits digits ≡ number_from 10 0 digits
unfolding parse_decimal_digits
parse_decimal_digits_lem digits = decimal_chunks_lem (length digits) 0 digits (omega arith)
