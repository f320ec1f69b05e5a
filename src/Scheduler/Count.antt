-- ===== src/Scheduler/Count.antt =====
-- How each section moves the shared count of reservations and the sizes of the sets behind it.
use vault_bridge.Base.{
  ℕ, suc, ◌+◌, ◌≤◌, String, ◌≡◌, ◌∙◌, ap, sym, Bool, true, false, ◌||◌, List, [], ◌∷◌, ◌++◌, arith,
  str_eq, length, length-append,
}
use vault_bridge.Base.Sets.{
  mem, IsDistinct, minus, union, mem-union, mem-minus, mem-append, length-le_of_subset,
  filter_by-IsDistinct, str_eq_refl,
}
use vault_bridge.Base.Dict.{keys}
use vault_bridge.Scheduler.State.{Owner, Outcome, identities}

-- What the sets of an owner keep.
pub record IsWell (e : Owner) : Type 0 where
  pub pending_distinct : IsDistinct e.pending
  pub inflight_distinct : IsDistinct e.inflight
  pub deferred_distinct : IsDistinct (keys e.deferred)

abbrev pub held : Owner → String → Bool
held e a = mem a e.pending || mem a e.inflight || mem a (keys e.deferred)

pub mem-identities : (a : String) (e : Owner) → mem a (identities e) ≡ held e a
mem-identities a e = ground (
  arith,
  mem-union a (union e.pending e.inflight) (keys e.deferred),
  mem-union a e.pending e.inflight,
)

append-IsDistinct :
    (xs ys : List String)
    → IsDistinct xs
    → IsDistinct ys
    → ((a : String) → mem a xs ≡ true → mem a ys ≡ false)
    → IsDistinct (xs ++ ys)
append-IsDistinct [] ys dx dy h = dy
append-IsDistinct (x ∷ xs) ys dx dy h = (
  ground (arith, mem-append x xs ys, h x, str_eq_refl x),
  append-IsDistinct xs ys dx.1 dy (λ a m. ground (arith, h a)),
)

pub union-IsDistinct :
    (xs ys : List String) → IsDistinct xs → IsDistinct ys → IsDistinct (union xs ys)
union-IsDistinct xs ys dx dy =
    append-IsDistinct xs (minus ys xs) dx (filter_by-IsDistinct _ ys dy)
      (λ a m. ground (arith, mem-minus a ys xs))

pub identities-IsDistinct : (e : Owner) → IsWell e → IsDistinct (identities e)
identities-IsDistinct e w =
    union-IsDistinct (union e.pending e.inflight) (keys e.deferred)
      (union-IsDistinct e.pending e.inflight w.pending_distinct w.inflight_distinct)
      w.deferred_distinct

-- Sets with the same elements have the same size.
pub length-eq_of_same :
    (xs ys : List String)
    → IsDistinct xs
    → IsDistinct ys
    → ((a : String) → mem a xs ≡ mem a ys)
    → length xs ≡ length ys
length-eq_of_same xs ys dx dy h = omega (
  arith,
  length-le_of_subset xs ys dx dy (λ a m. sym (h a) ∙ m),
  length-le_of_subset ys xs dy dx (λ a m. h a ∙ m),
)

-- One element more.
pub length-eq_of_insert :
    (a : String) (xs ys : List String)
    → IsDistinct xs
    → IsDistinct ys
    → mem a xs ≡ false
    → ((b : String) → mem b ys ≡ (str_eq a b || mem b xs))
    → length ys ≡ suc (length xs)
length-eq_of_insert a xs ys dx dy n h = length-eq_of_same ys (a ∷ xs) dy (n, dx) h

-- A set and a part of it: the rest is what remains.
pub length-minus :
    (xs ys : List String)
    → IsDistinct xs
    → IsDistinct ys
    → ((a : String) → mem a ys ≡ true → mem a xs ≡ true)
    → length (minus xs ys) + length ys ≡ length xs
length-minus xs ys dx dy h = omega (
  arith,
  length-append (minus xs ys) ys,
  length-eq_of_same (minus xs ys ++ ys) xs
      (append-IsDistinct (minus xs ys) ys (filter_by-IsDistinct _ xs dx) dy
        (λ a m. ground (arith, mem-minus a xs ys)))
      dx (λ a. ground (arith, mem-append a (minus xs ys) ys, mem-minus a xs ys, h a)),
)

-- The count moves as the number of held paths does.
abbrev pub Balanced : ℕ → Owner → Outcome → Type 0
Balanced total e o =
    IsWell o.owner × (o.count + length (identities e) ≡ total + length (identities o.owner))

-- Owners that hold the same paths hold as many.
pub same_size :
    (d e : Owner)
    → IsWell d
    → IsWell e
    → ((a : String) → held d a ≡ held e a)
    → length (identities d) ≡ length (identities e)
same_size d e wd we h =
    length-eq_of_same (identities d) (identities e) (identities-IsDistinct d wd)
      (identities-IsDistinct e we) (λ a. mem-identities a d ∙ h a ∙ sym (mem-identities a e))

pub one_more :
    (a : String) (d e : Owner)
    → IsWell d
    → IsWell e
    → mem a (identities e) ≡ false
    → ((b : String) → held d b ≡ (str_eq a b || held e b))
    → length (identities d) ≡ suc (length (identities e))
one_more a d e wd we n h =
    length-eq_of_insert a (identities e) (identities d) (identities-IsDistinct e we)
      (identities-IsDistinct d wd) n
      (λ b.
        mem-identities b d ∙ h b ∙ ap (λ (t : Bool). str_eq a b || t) (sym (mem-identities b e)))

pub fewer :
    (d e : Owner)
    → IsWell d
    → IsWell e
    → ((a : String) → held d a ≡ true → held e a ≡ true)
    → length (identities d) ≤ length (identities e)
fewer d e wd we h =
    length-le_of_subset (identities d) (identities e) (identities-IsDistinct d wd)
      (identities-IsDistinct e we) (λ a m. mem-identities a e ∙ h a (sym (mem-identities a d) ∙ m))
