-- ===== src/Base/Sets.antt =====
-- Finite sets of texts as lists without repetition: Python's `set[str]` and the keys of a `dict`.
use Prim.Native.Nat.{suc, ◌≤◌}
use Prim.Native.String.{String}
use mathlib.Core.Path.{◌≡◌, refl}
use mathlib.Core.Bool.{Bool, true, false, ◌||◌, ◌&&◌, not}
use mathlib.Core.List.{List, [], ◌∷◌, ◌++◌}
use native.Mathlib.Omega.{arith}
use text.Mathlib.Text.{◌==◌ as str_eq}
use text.Mathlib.TextEquality.{eq_iff}
use vault_bridge.Base.Tests.{if◌then◌else◌}
use vault_bridge.Base.Lists.{length, filter_by}

abbrev pub mem : String → List String → Bool
mem a [] = false
mem a (x ∷ xs) = str_eq x a || mem a xs

-- No element twice.
abbrev pub IsDistinct : List String → Type 0
IsDistinct [] = Unit
IsDistinct (x ∷ xs) = (mem x xs ≡ false) × IsDistinct xs

abbrev pub remove : String → List String → List String
remove a [] = []
remove a (x ∷ xs) = let rest = remove a xs in if str_eq x a then rest else x ∷ rest

abbrev pub insert : String → List String → List String
insert a xs = if mem a xs then xs else a ∷ xs

-- The elements of `xs` that are not in `ys`: Python's `xs - ys`.
abbrev pub minus : List String → List String → List String
minus xs ys = filter_by (λ x. not (mem x ys)) xs

-- Python's `xs | ys`.
abbrev pub union : List String → List String → List String
union xs ys = xs ++ minus ys xs

pub str_eq_refl : (a : String) → str_eq a a ≡ true
str_eq_refl a = (eq_iff a a).1 refl

pub mem-remove :
    (a b : String) (xs : List String) → mem b (remove a xs) ≡ (not (str_eq a b) && mem b xs)
mem-remove a b [] = ground arith
mem-remove a b (x ∷ xs) = ground (arith, mem-remove a b xs, eq_iff x a, eq_iff x b, eq_iff a b)

pub remove-IsDistinct : (a : String) (xs : List String) → IsDistinct xs → IsDistinct (remove a xs)
remove-IsDistinct a [] h = tt
remove-IsDistinct a (x ∷ xs) h = ground (arith, mem-remove a x xs, remove-IsDistinct a xs h.1)

pub insert-IsDistinct : (a : String) (xs : List String) → IsDistinct xs → IsDistinct (insert a xs)
insert-IsDistinct a xs h = ground arith

pub mem-insert : (a b : String) (xs : List String) → mem b (insert a xs) ≡ (str_eq a b || mem b xs)
mem-insert a b xs = ground (arith, eq_iff a b)

pub remove_absent : (a : String) (xs : List String) → mem a xs ≡ false → remove a xs ≡ xs
remove_absent a [] h = refl
remove_absent a (x ∷ xs) h = ground (arith, remove_absent a xs)

pub length-remove :
    (a : String) (xs : List String)
    → IsDistinct xs
    → mem a xs ≡ true
    → suc (length (remove a xs)) ≡ length xs
length-remove a [] d h = ground arith
length-remove a (x ∷ xs) d h = ground (arith, length-remove a xs, remove_absent a xs, eq_iff x a)

pub mem-filter_by :
    (p : String → Bool) (a : String) (xs : List String) → mem a (filter_by p xs) ≡ (p a && mem a xs)
mem-filter_by p a [] = ground arith
mem-filter_by p a (x ∷ xs) = ground (arith, mem-filter_by p a xs, eq_iff x a)

pub mem-append : (a : String) (xs ys : List String) → mem a (xs ++ ys) ≡ (mem a xs || mem a ys)
mem-append a [] ys = refl
mem-append a (x ∷ xs) ys = ground (arith, mem-append a xs ys)

pub filter_by-IsDistinct :
    (p : String → Bool) (xs : List String) → IsDistinct xs → IsDistinct (filter_by p xs)
filter_by-IsDistinct p [] h = tt
filter_by-IsDistinct p (x ∷ xs) h =
    ground (arith, filter_by-IsDistinct p xs h.1, mem-filter_by p x xs)

pub mem-minus :
    (a : String) (xs ys : List String) → mem a (minus xs ys) ≡ (not (mem a ys) && mem a xs)
mem-minus a xs ys = mem-filter_by (λ x. not (mem x ys)) a xs

pub mem-union : (a : String) (xs ys : List String) → mem a (union xs ys) ≡ (mem a xs || mem a ys)
mem-union a xs ys = ground (arith, mem-append a xs (minus ys xs), mem-minus a ys xs)

-- A set whose elements all lie in another is no larger.
pub length-le_of_subset :
    (xs ys : List String)
    → IsDistinct xs
    → IsDistinct ys
    → ((a : String) → mem a xs ≡ true → mem a ys ≡ true)
    → length xs ≤ length ys
length-le_of_subset [] ys dx dy h = omega arith
length-le_of_subset (x ∷ xs) ys dx dy h = omega (
  arith,
  length-le_of_subset xs (remove x ys) dx.1 (remove-IsDistinct x ys dy)
      (λ a m. ground (arith, h a, mem-remove x a ys, eq_iff x a)),
  length-remove x ys dy (h x (ground (arith, str_eq_refl x))),
)
