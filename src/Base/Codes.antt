-- ===== src/Base/Codes.antt =====
-- Python's `str` as the list of its code points.
use Prim.Native.Nat.{ℕ, ◌+◌, ◌-◌}
use Prim.Native.Char.{code}
use Prim.Native.String.{String}
use mathlib.Core.Path.{◌≡◌, refl}
use mathlib.Core.Logic.{◌↔◌}
use mathlib.Core.Bool.{Bool, true, false, ◌&&◌}
use mathlib.Core.List.{List, [], ◌∷◌}
use native.Mathlib.Omega.{arith}
use vault_bridge.Base.Tests.{leb, ◌==◌, if◌then◌else◌}
use vault_bridge.Base.Lists.{take, drop}

abbrev pub Codes : Type 0
Codes = List ℕ

-- the code points of a literal
unfoldable pub codes : String → Codes
codes String.[] = []
codes (String.◌∷◌ c s) = code c ∷ codes s

abbrev pub same_codes : Codes → Codes → Bool
same_codes [] [] = true
same_codes [] (_ ∷ _) = false
same_codes (_ ∷ _) [] = false
same_codes (a ∷ l) (b ∷ m) = a == b && same_codes l m

pub same_codes_iff : (a b : Codes) → (same_codes a b ≡ true) ↔ (a ≡ b)
same_codes_iff [] [] = (λ h. refl, λ h. refl)
same_codes_iff [] (b ∷ m) = (λ h. ground arith, λ h. ground arith)
same_codes_iff (a ∷ l) [] = (λ h. ground arith, λ h. ground arith)
same_codes_iff (a ∷ l) (b ∷ m) =
    let ih = same_codes_iff l m in (λ h. ground (arith, ih), λ h. ground (arith, ih))

abbrev pub in_range : ℕ → ℕ → ℕ → Bool
in_range low high c = leb low c && leb c high

-- the bytes of a code point in UTF-8
abbrev pub utf8_width : ℕ → ℕ
utf8_width c = if leb c 0x7f then 1 else if leb c 0x7ff then 2 else if leb c 0xffff then 3 else 4

-- len(text.encode("utf-8"))
abbrev pub utf8_size : Codes → ℕ
utf8_size [] = 0
utf8_size (c ∷ l) = utf8_width c + utf8_size l

-- text[start:end]
abbrev pub slice : ℕ → ℕ → Codes → Codes
slice start end text = take (end - start) (drop start text)
