-- ===== src/RateLimiter/Table.antt =====
-- The ordered dictionary of clients: what its operations do to the keys and to a look-up.
use vault_bridge.Base.{
  String, ◌≡◌, refl, inl, inr, Bool, Option, none, some, List, [], ◌∷◌, ◌++◌, arith, str_eq, eq_iff,
  if◌then◌else◌, filter_by, is_some, Bool-cases,
}
use vault_bridge.Base.Sets.{IsDistinct, str_eq_refl}
pub use vault_bridge.Base.Dict.{keys, mem-get, keys-delete, length-keys, get-put, get-delete}
use vault_bridge.RateLimiter.{Window, get, put, delete, move_to_end, append_found}

abbrev pub Clients : Type 0
Clients = List (String × Window)

abbrev pub Windows : (Window → Type 0) → Clients → Type 0
Windows P [] = Unit
Windows P ((_, w) ∷ m) = P w × Windows P m

-- the entries that a test of the window keeps
abbrev pub keep : (Window → Bool) → Clients → Clients
keep p = filter_by (λ e. p e.1)

-- a look-up, then the test
abbrev pub sieve : (Window → Bool) → Option Window → Option Window
sieve p none = none
sieve p (some w) = if p w then some w else none

module _ (P : Window → Type 0) where
  pub Windows-get : (k : String) (m : Clients) (w : Window) → Windows P m → get k m ≡ some w → P w
  unfolding get
  Windows-get k [] w h e = ground arith
  Windows-get k ((j, v) ∷ m) w h e = elim (Bool-cases (str_eq j k)) [
    | inl here ↦ ground (arith, Windows-get k m w h.1)
    | inr there ↦ Windows-get k m w h.1 (ground arith)
  ]

  pub Windows-put :
      (k : String) (w : Window) (m : Clients) → P w → Windows P m → Windows P (put k w m)
  unfolding put
  Windows-put k w [] pw h = (pw, tt)
  Windows-put k w ((j, v) ∷ m) pw h = elim (Bool-cases (str_eq j k)) [
    | inl here ↦ rw here (pw, h.1)
    | inr there ↦ rw there (h.0, Windows-put k w m pw h.1)
  ]

  pub Windows-delete : (k : String) (m : Clients) → Windows P m → Windows P (delete k m)
  unfolding delete
  Windows-delete k [] h = tt
  Windows-delete k ((j, v) ∷ m) h = elim (Bool-cases (str_eq j k)) [
    | inl here ↦ rw here (Windows-delete k m h.1)
    | inr there ↦ rw there (h.0, Windows-delete k m h.1)
  ]

  pub Windows-keep : (p : Window → Bool) (m : Clients) → Windows P m → Windows P (keep p m)
  Windows-keep p [] h = tt
  Windows-keep p ((j, v) ∷ m) h = elim (Bool-cases (p v)) [
    | inl here ↦ rw here (h.0, Windows-keep p m h.1)
    | inr there ↦ rw there (Windows-keep p m h.1)
  ]

  Windows-append : (m n : Clients) → Windows P m → Windows P n → Windows P (m ++ n)
  Windows-append [] n hm hn = hn
  Windows-append ((_, w) ∷ m) n hm hn = (hm.0, Windows-append m n hm.1 hn)

  append_found-Windows :
      (k : String) (o : Option Window) (m : Clients)
      → ((w : Window) → o ≡ some w → P w)
      → Windows P m
      → Windows P (append_found k o m)
  append_found-Windows k none m f h = h
  append_found-Windows k (some w) m f h = Windows-append m ((k, w) ∷ []) h (f w refl, tt)

  pub Windows-move_to_end : (k : String) (m : Clients) → Windows P m → Windows P (move_to_end k m)
  unfolding move_to_end
  Windows-move_to_end k m h =
      append_found-Windows k (get k m) (delete k m) (λ w e. Windows-get k m w h e)
        (Windows-delete k m h)

get-append :
    (j : String) (m n : Clients) → get j (m ++ n) ≡ (if is_some (get j m) then get j m else get j n)
unfolding get
get-append j [] n = refl
get-append j ((i, v) ∷ m) n = ground (arith, get-append j m n)

get-append_found :
    (k j : String) (o : Option Window) (m : Clients)
    → get k m ≡ none
    → get j (append_found k o m) ≡ (if str_eq k j then o else get j m)
unfolding get
get-append_found k j none m h = ground (arith, eq_iff k j)
get-append_found k j (some w) m h = ground (arith, get-append j m ((k, w) ∷ []), eq_iff k j)

-- Moving an entry to the end changes no look-up.
pub get-move_to_end : (k j : String) (m : Clients) → get j (move_to_end k m) ≡ get j m
unfolding move_to_end
get-move_to_end k j m = ground (
  arith,
  get-append_found k j (get k m) (delete k m),
  get-delete k k m,
  get-delete k j m,
  str_eq_refl k,
  eq_iff k j,
)

-- With distinct keys a look-up in the kept entries is the look-up and the test.
pub get-keep :
    (p : Window → Bool) (k : String) (m : Clients)
    → IsDistinct (keys m)
    → get k (keep p m) ≡ sieve p (get k m)
unfolding get
get-keep p k [] d = refl
get-keep p k ((j, w) ∷ m) d = ground (arith, get-keep p k m d.1, mem-get k m, eq_iff j k)
