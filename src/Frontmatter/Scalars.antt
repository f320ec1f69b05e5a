-- ===== src/Frontmatter/Scalars.antt =====
-- The plain scalars of YAML Core (app/services/frontmatter.py): `_resolve_core_scalar`, with the
-- patterns that it matches, and `_parse_decimal_digits`.
use vault_bridge.Base.{
  ℕ, zero, suc, ◌+◌, ◌-◌, ◌*◌, ◌^◌, Bool, true, false, not, ◌&&◌, ◌||◌, Option, none, some, List,
  [], ◌∷◌, ◌==◌, if◌then◌else◌, length, take, drop, any, every, leb,
}
use vault_bridge.Base.Codes.{Codes, codes, same_codes, in_range}
use vault_bridge.Frontmatter.{Value, null, text, truth, integer, floating}

abbrev pub is_digit : ℕ → Bool
is_digit = in_range 0x30 0x39

abbrev pub is_octal : ℕ → Bool
is_octal = in_range 0x30 0x37

abbrev pub is_hex : ℕ → Bool
is_hex c = is_digit c || in_range 0x61 0x66 c || in_range 0x41 0x46 c

abbrev pub is_sign : ℕ → Bool
is_sign c = c == 0x2b || c == 0x2d

-- a class of characters, once or more
abbrev pub some_of : (ℕ → Bool) → Codes → Bool
some_of p [] = false
some_of p (c ∷ l) = p c && every p l

abbrev pub one_of : List Codes → Codes → Bool
one_of words value = any (λ w. same_codes w value) words

-- `[-+]?`
abbrev pub without_sign : Codes → Codes
without_sign [] = []
without_sign (c ∷ l) = if is_sign c then l else c ∷ l

-- _NULL_PATTERN
unfoldable pub is_null : Codes → Bool
unfolding codes
is_null value = one_of ([] ∷ codes "~" ∷ codes "null" ∷ codes "Null" ∷ codes "NULL" ∷ []) value

-- _BOOL_PATTERN; those for which `value.lower() == "true"`
unfoldable pub is_true : Codes → Bool
unfolding codes
is_true value = one_of (codes "true" ∷ codes "True" ∷ codes "TRUE" ∷ []) value

unfoldable pub is_false : Codes → Bool
unfolding codes
is_false value = one_of (codes "false" ∷ codes "False" ∷ codes "FALSE" ∷ []) value

-- the three forms of _INT_PATTERN, after the sign: the digits of an octal or a hexadecimal number,
-- or of a decimal one
pub data Digits : Type 0 where
  octal hexadecimal decimal : Codes → Digits

abbrev pub digits_if : Bool → Digits → Option Digits
digits_if true d = some d
digits_if false d = none

-- `0o[0-7]+|0x[0-9a-fA-F]+|[0-9]+`
unfoldable pub integer_digits : Codes → Option Digits
integer_digits (c ∷ d ∷ l) =
    if c == 0x30 && d == 0x6f
    then digits_if (some_of is_octal l) (octal l)
    else if c == 0x30 && d == 0x78
    then digits_if (some_of is_hex l) (hexadecimal l)
    else digits_if (some_of is_digit (c ∷ d ∷ l)) (decimal (c ∷ d ∷ l))
integer_digits value = digits_if (some_of is_digit value) (decimal value)

-- int(character, base)
abbrev pub digit_value : ℕ → ℕ
digit_value c = if is_digit c then c - 0x30 else if leb 0x61 c then c - 0x57 else c - 0x37

-- int(digits, base), of digits that match
unfoldable pub number_from : ℕ → ℕ → Codes → ℕ
number_from base n [] = n
number_from base n (c ∷ l) = number_from base (n * base + digit_value c) l

-- the loop of `_parse_decimal_digits`, over the starts of the chunks of nine
unfoldable pub decimal_chunks : ℕ → ℕ → Codes → ℕ
unfolding number_from
decimal_chunks zero n digits = n
decimal_chunks (suc fuel) n digits =
    let chunk = take 9 digits in
    let rest =
      decimal_chunks fuel (n * 10 ^ length chunk + number_from 10 0 chunk) (drop 9 digits) in
    if leb (length digits) 0 then n else rest

-- _parse_decimal_digits; a chunk takes at least one digit, so that their number is fuel enough
unfoldable pub parse_decimal_digits : Codes → ℕ
unfolding decimal_chunks
parse_decimal_digits digits = decimal_chunks (length digits) 0 digits

unfoldable pub number_of : Digits → ℕ
unfolding number_from parse_decimal_digits
number_of (octal l) = number_from 8 0 l
number_of (hexadecimal l) = number_from 16 0 l
number_of (decimal l) = parse_decimal_digits l

abbrev pub is_minus : Codes → Bool
is_minus [] = false
is_minus (c ∷ l) = c == 0x2d

-- sign * number; there is one zero
abbrev pub signed : Bool → ℕ → Value
signed minus n = integer (minus && leb 1 n) n

-- the rest after digits, and whether there was one
abbrev pub skip_digits : Codes → Codes
skip_digits [] = []
skip_digits (c ∷ l) = if is_digit c then skip_digits l else c ∷ l

abbrev pub starts_with_digit : Codes → Bool
starts_with_digit [] = false
starts_with_digit (c ∷ l) = is_digit c

-- `[-+]?[0-9]+`, to the end
abbrev pub is_exponent : Codes → Bool
is_exponent l = some_of is_digit (without_sign l)

-- `(?:[eE][-+]?[0-9]+)?`, to the end
abbrev pub may_have_exponent : Codes → Bool
may_have_exponent [] = true
may_have_exponent (c ∷ l) = (c == 0x65 || c == 0x45) && is_exponent l

abbrev pub fraction_or_exponent : Codes → Bool
fraction_or_exponent [] = true
fraction_or_exponent (c ∷ l) =
    if c == 0x2e then may_have_exponent (skip_digits l) else may_have_exponent (c ∷ l)

-- `(?:\.[0-9]+|[0-9]+(?:\.[0-9]*)?)(?:[eE][-+]?[0-9]+)?`
abbrev pub is_finite_float : Codes → Bool
is_finite_float [] = false
is_finite_float (c ∷ l) =
    if c == 0x2e
    then starts_with_digit l && may_have_exponent (skip_digits l)
    else is_digit c && fraction_or_exponent (skip_digits l)

-- the names of the infinities and of NaN
unfoldable pub is_special_float : Codes → Bool
unfolding codes
is_special_float value =
    one_of (codes ".inf" ∷ codes ".Inf" ∷ codes ".INF" ∷ []) (without_sign value)
    || one_of (codes ".nan" ∷ codes ".NaN" ∷ codes ".NAN" ∷ []) value

-- _resolve_core_scalar; `none` is the `unsupported_value`. `float` stands for Python's `float`, and
-- has no value where that is not finite.
unfoldable pub resolve_core_scalar : (Codes → Option ℕ) → Codes → Bool → Option Value
unfolding is_null is_true is_false integer_digits number_of is_special_float
resolve_core_scalar float value plain =
    if not plain
    then some (text value)
    else if is_null value
    then some null
    else if is_true value
    then some (truth true)
    else if is_false value
    then some (truth false)
    else elim (integer_digits (without_sign value)) [
      | some d ↦ some (signed (is_minus value) (number_of d))
      | none ↦
          if is_special_float value
          then none
          else if is_finite_float (without_sign value)
          then (elim (float value) [ none ↦ none | some x ↦ some (floating x) ])
          else some (text value)
    ]
