-- ===== src/Session/Decimal.antt =====
-- Printing and reading of times in Session (app/core/ui_session.py).
use vault_bridge.Base.{
  ℕ, zero, suc, ◌+◌, ◌/◌, ◌%◌, ◌^◌, ◌≤◌, ◌<◌, ◌≡◌, refl, ap, ◌∙◌, Bool, true, [], ◌∷◌, ◌++◌, length,
  length-append, every, ltb, arith, Bool-cases, inl, inr,
}
use native.Mathlib.Nat.{pow-succ'}
use vault_bridge.Base.Codes.{Codes}
use vault_bridge.Frontmatter.Scalars.{is_digit, digit_value, number_from}
use vault_bridge.Frontmatter.Decimal.{number_from-append}
use vault_bridge.Session.{decimal, decimal_from, is_decimal}

digit-value : (d : ℕ) → d < 10 → (is_digit (0x30 + d) ≡ true) × (digit_value (0x30 + d) ≡ d)
digit-value d h = (ground arith, ground arith)

pub every-append :
    (p : ℕ → Bool) (l m : Codes) → every p l ≡ true → every p m ≡ true → every p (l ++ m) ≡ true
every-append p [] m h k = k
every-append p (c ∷ l) m h k = ground (arith, every-append p l m (ground arith) k)

digits-decimal_from : (fuel n : ℕ) → every is_digit (decimal_from fuel n) ≡ true
unfolding decimal_from
digits-decimal_from zero n = refl
digits-decimal_from (suc fuel) n = elim (Bool-cases (ltb n 10)) [
  | inl small ↦ rw small (ground (arith, digit-value n (ground arith)))
  | inr large ↦ rw large (
      every-append is_digit (decimal_from fuel (n / 10)) ((0x30 + n % 10) ∷ [])
        (digits-decimal_from fuel (n / 10)) (ground (arith, digit-value (n % 10) (omega arith))))
]

number_from-decimal_from : (fuel n : ℕ) → n < fuel → number_from 10 0 (decimal_from fuel n) ≡ n
unfolding decimal_from number_from
number_from-decimal_from zero n h = absurd (omega arith)
number_from-decimal_from (suc fuel) n h = elim (Bool-cases (ltb n 10)) [
  | inl small ↦ rw small (omega (arith, (digit-value n (ground arith)).1))
  | inr large ↦
      let ten : 10 ≤ n = ground arith in
      rw large (
        number_from-append 10 0 (decimal_from fuel (n / 10)) ((0x30 + n % 10) ∷ [])
        ∙ omega (
          arith,
          number_from-decimal_from fuel (n / 10) (omega arith),
          (digit-value (n % 10) (omega arith)).1,
        ))
]

length-decimal_from : (fuel n k : ℕ) → n < 10 ^ suc k → length (decimal_from fuel n) ≤ suc k
unfolding decimal_from
length-decimal_from zero n k h = omega arith
length-decimal_from (suc fuel) n zero h = elim (Bool-cases (ltb n 10)) [
  | inl small ↦ rw small (omega arith)
  | inr large ↦ absurd (ground arith)
]
length-decimal_from (suc fuel) n (suc k) h = elim (Bool-cases (ltb n 10)) [
  | inl small ↦ rw small (omega arith)
  | inr large ↦ rw large (
      omega (
        arith,
        length-append (decimal_from fuel (n / 10)) ((0x30 + n % 10) ∷ []),
        length-decimal_from fuel (n / 10) k (omega (arith, pow-succ' 10 (suc k))),
      ))
]

length-decimal_from_positive : (fuel n : ℕ) → 1 ≤ length (decimal_from (suc fuel) n)
unfolding decimal_from
length-decimal_from_positive fuel n = elim (Bool-cases (ltb n 10)) [
  | inl small ↦ rw small (omega arith)
  | inr large ↦
      rw large (omega (arith, length-append (decimal_from fuel (n / 10)) ((0x30 + n % 10) ∷ [])))
]

decimal_from-is_decimal : (fuel n : ℕ) → is_decimal (decimal_from (suc fuel) n) ≡ true
unfolding decimal_from
decimal_from-is_decimal fuel n =
    at (decimal_from (suc fuel) n) refl (digits-decimal_from (suc fuel) n)
  where
    at : (l : Codes) → decimal_from (suc fuel) n ≡ l → every is_digit l ≡ true → is_decimal l ≡ true
    at [] e h = absurd (omega (arith, length-decimal_from_positive fuel n, ap (λ l. length l) e))
    at (c ∷ l) e h = h

pub decimal_lem :
    (n : ℕ)
    → (is_decimal (decimal n) ≡ true)
      × (number_from 10 0 (decimal n) ≡ n)
      × (n < 10 ^ 12 → length (decimal n) ≤ 12)
unfolding decimal
decimal_lem n = (
  decimal_from-is_decimal n n,
  number_from-decimal_from (suc n) n (omega arith),
  λ h. length-decimal_from (suc n) n 11 h,
)
