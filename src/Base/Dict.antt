-- ===== src/Base/Dict.antt =====
-- Python's `dict` with text keys, as the list of its items in insertion order.
use Prim.Native.Nat.{suc}
use Prim.Native.String.{String}
use mathlib.Core.Path.{◌≡◌, refl}
use mathlib.Core.Bool.{◌||◌}
use mathlib.Core.Option.{Option, none, some}
use mathlib.Core.List.{List, [], ◌∷◌}
use native.Mathlib.Omega.{arith}
use text.Mathlib.Text.{◌==◌ as str_eq}
use text.Mathlib.TextEquality.{eq_iff}
use vault_bridge.Base.Tests.{if◌then◌else◌, is_some}
use vault_bridge.Base.Lists.{length}
use vault_bridge.Base.Sets.{mem, IsDistinct, remove, remove-IsDistinct}

module _ {ℓ} {V : Type ℓ} where
  -- d.get(k)
  unfoldable pub get : String → List (String × V) → Option V
  get k [] = none
  get k ((j, w) ∷ m) = if str_eq j k then some w else get k m

  -- d[k] = v, on a key that is there or not
  unfoldable pub put : String → V → List (String × V) → List (String × V)
  put k w [] = (k, w) ∷ []
  put k w ((j, v) ∷ m) = if str_eq j k then (j, w) ∷ m else (j, v) ∷ put k w m

  -- d.pop(k, None), del d[k]
  unfoldable pub delete : String → List (String × V) → List (String × V)
  delete k [] = []
  delete k ((j, v) ∷ m) = let rest = delete k m in if str_eq j k then rest else (j, v) ∷ rest

  abbrev pub keys : List (String × V) → List String
  keys [] = []
  keys ((k, _) ∷ m) = k ∷ keys m

  pub mem-get : (k : String) (m : List (String × V)) → mem k (keys m) ≡ is_some (get k m)
  unfolding get
  mem-get k [] = refl
  mem-get k ((j, w) ∷ m) = ground (arith, mem-get k m)

  pub keys-delete : (k : String) (m : List (String × V)) → keys (delete k m) ≡ remove k (keys m)
  unfolding delete
  keys-delete k [] = refl
  keys-delete k ((j, w) ∷ m) = ground (arith, keys-delete k m)

  pub length-keys : (m : List (String × V)) → length (keys m) ≡ length m
  length-keys [] = refl
  length-keys (_ ∷ m) = omega (arith, length-keys m)

  pub get-put :
      (k j : String) (w : V) (m : List (String × V))
      → get j (put k w m) ≡ (if str_eq k j then some w else get j m)
  unfolding get put
  get-put k j w [] = refl
  get-put k j w ((i, v) ∷ m) = ground (arith, get-put k j w m, eq_iff i k, eq_iff i j, eq_iff k j)

  pub get-delete :
      (k j : String) (m : List (String × V))
      → get j (delete k m) ≡ (if str_eq k j then none else get j m)
  unfolding get delete
  get-delete k j [] = ground arith
  get-delete k j ((i, v) ∷ m) = ground (arith, get-delete k j m, eq_iff i k, eq_iff i j, eq_iff k j)

  pub mem-put :
      (k j : String) (w : V) (m : List (String × V))
      → mem j (keys (put k w m)) ≡ (str_eq k j || mem j (keys m))
  mem-put k j w m = ground (arith, mem-get j (put k w m), mem-get j m, get-put k j w m)

  pub put-IsDistinct :
      (k : String) (w : V) (m : List (String × V))
      → IsDistinct (keys m)
      → IsDistinct (keys (put k w m))
  unfolding put
  put-IsDistinct k w [] d = (refl, tt)
  put-IsDistinct k w ((j, v) ∷ m) d =
      ground (arith, put-IsDistinct k w m d.1, mem-put k j w m, eq_iff k j, eq_iff j k)

  pub delete-IsDistinct :
      (k : String) (m : List (String × V)) → IsDistinct (keys m) → IsDistinct (keys (delete k m))
  delete-IsDistinct k m d = rw keys-delete (remove-IsDistinct k (keys m) d)

  pub length-put :
      (k : String) (w : V) (m : List (String × V))
      → length (put k w m) ≡ (if is_some (get k m) then length m else suc (length m))
  unfolding put get
  length-put k w [] = refl
  length-put k w ((j, v) ∷ m) = ground (arith, length-put k w m)
