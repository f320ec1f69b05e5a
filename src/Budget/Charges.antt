-- ===== src/Budget/Charges.antt =====
-- The counters of the budget stay within the ceilings, and the spaces do not share their parts.
use vault_bridge.Base.{
  ℕ, ◌+◌, ◌*◌, ◌/◌, ◌≤◌, min, ◌≡◌, ◌∙◌, ap, sym, refl, inl, inr, Bool, true, false, List, [], ◌∷◌,
  arith, leb, ◌==◌, ==_iff, if◌then◌else◌, length, Bool-cases,
}
use vault_bridge.Budget.{
  Resource, paths, entries, directories, probes, aliases, directory_aliases, bytes, relationships,
  comparisons, semantic_rows, semantic_bytes, sqlite_steps, rank, is_probes, ceiling, Budget,
  allocation, sum_over, has_id, all_distinct, within, held, local_held, fits,
}

-- What one space holds of a resource, spent or reserved.
abbrev pub taken : Budget → ℕ → Resource → ℕ
taken b sid name = b.used sid name + local_held b sid name

pub record Inv (b : Budget) : Type 0 where
  pub some_id : 1 ≤ length b.ids
  pub distinct : all_distinct b.ids ≡ true
  pub accounted : (r : Resource) → b.total r ≡ sum_over (λ j. b.used j r) b.ids
  pub in_part : (sid : ℕ) (r : Resource) → taken b sid r ≤ allocation b r
  pub capped : (r : Resource) → within (b.ceilings r) (ceiling r) ≡ true

of_rank : ℕ → Resource
of_rank n =
    if n == 0
    then paths
    else if n == 1
    then entries
    else if n == 2
    then directories
    else if n == 3
    then probes
    else if n == 4
    then aliases
    else if n == 5
    then directory_aliases
    else if n == 6
    then bytes
    else if n == 7
    then relationships
    else if n == 8
    then comparisons
    else if n == 9
    then semantic_rows
    else if n == 10
    then semantic_bytes
    else sqlite_steps

of_rank-rank : (r : Resource) → of_rank (rank r) ≡ r
unfolding of_rank
of_rank-rank paths = refl
of_rank-rank _ = refl

pub rank-injective : (r q : Resource) → rank r ≡ rank q → r ≡ q
rank-injective r q h = sym (of_rank-rank r) ∙ ap of_rank h ∙ of_rank-rank q

sum_over-add :
    (f g : ℕ → ℕ) (xs : List ℕ) → sum_over (λ x. f x + g x) xs ≡ sum_over f xs + sum_over g xs
sum_over-add f g [] = omega arith
sum_over-add f g (x ∷ xs) = omega (arith, sum_over-add f g xs)

sum_over-zero : (xs : List ℕ) → sum_over (λ _. 0) xs ≡ 0
sum_over-zero [] = refl
sum_over-zero (x ∷ xs) = omega (arith, sum_over-zero xs)

-- A change at one id of a list without repetition changes the sum by as much.
sum_over_absent :
    (f g : ℕ → ℕ) (k : ℕ) (xs : List ℕ)
    → ((j : ℕ) → Path Bool (j == k) false → f j ≡ g j)
    → has_id k xs ≡ false
    → sum_over f xs ≡ sum_over g xs
sum_over_absent f g k [] same h = refl
sum_over_absent f g k (x ∷ xs) same h =
    omega (arith, same x (ground arith), sum_over_absent f g k xs same (ground arith))

pub sum_over_at :
    (f g : ℕ → ℕ) (k n : ℕ) (xs : List ℕ)
    → ((j : ℕ) → Path Bool (j == k) false → f j ≡ g j)
    → f k ≡ g k + n
    → has_id k xs ≡ true
    → all_distinct xs ≡ true
    → sum_over f xs ≡ sum_over g xs + n
sum_over_at f g k n [] same more h d = ground arith
sum_over_at f g k n (x ∷ xs) same more h d = elim (Bool-cases (x == k)) [
  | inl here ↦
      let e : x ≡ k = (==_iff x k).0 here in
      omega (
        arith,
        ap f e,
        ap g e,
        sum_over_absent f g k xs same (ground (arith, ap (λ (i : ℕ). has_id i xs) e)),
      )
  | inr there ↦
      omega (arith, same x there, sum_over_at f g k n xs same more (ground arith) (ground arith))
]

-- Shares of at most `part`, one of which has room for `count` more, sum up to the parts.
sum_over_room :
    (g : ℕ → ℕ) (part : ℕ) (xs : List ℕ) → ((j : ℕ) → g j ≤ part) → sum_over g xs ≤ length xs * part
sum_over_room g part [] h = omega arith
sum_over_room g part (x ∷ xs) h = omega (arith, h x, sum_over_room g part xs h)

sum_over_room_at :
    (g : ℕ → ℕ) (part k count : ℕ) (xs : List ℕ)
    → ((j : ℕ) → g j ≤ part)
    → g k + count ≤ part
    → has_id k xs ≡ true
    → sum_over g xs + count ≤ length xs * part
sum_over_room_at g part k count [] h room m = ground arith
sum_over_room_at g part k count (x ∷ xs) h room m = elim (Bool-cases (x == k)) [
  | inl here ↦ omega (arith, ap g ((==_iff x k).0 here), sum_over_room g part xs h)
  | inr there ↦ omega (arith, h x, sum_over_room_at g part k count xs h room (ground arith))
]

parts_fit : (n total local : ℕ) → n * min local (total / n) ≤ total
parts_fit n total local = grind arith

held-sum : (b : Budget) (r : Resource) → held b r ≡ sum_over (λ j. local_held b j r) b.ids
held-sum b r = elim (Bool-cases (is_probes r)) [
  | inl p ↦ rw p refl
  | inr p ↦ rw p (sym (sum_over-zero b.ids))
]

-- The aggregate ceiling never stands in a space's way: a charge fits exactly when the space's own
-- part has room for it, whatever the other spaces have spent or reserved.
pub fits-own_part :
    (b : Budget) (sid : ℕ) (name : Resource) (count : ℕ)
    → Inv b
    → has_id sid b.ids ≡ true
    → fits b sid name count ≡ leb (taken b sid name + count) (allocation b name)
unfolding fits
fits-own_part b sid name count v m =
    elim (Bool-cases (leb (taken b sid name + count) (allocation b name))) [
      | inr full ↦ ground arith
      | inl room ↦
          let whole : sum_over (λ j. taken b j name) b.ids + count ≤ (b.ceilings name).0 = omega (
            arith,
            sum_over_room_at (λ j. taken b j name) (allocation b name) sid count b.ids
                (λ j. v.in_part j name) (ground arith) m,
            parts_fit (length b.ids) (b.ceilings name).0 (b.ceilings name).1,
          ) in
          ground (
            arith,
            whole,
            v.accounted name,
            held-sum b name,
            sum_over-add (λ j. b.used j name) (λ j. local_held b j name) b.ids,
          )
    ]
