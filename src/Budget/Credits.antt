-- ===== src/Budget/Credits.antt =====
-- Charges and cleanup credits keep the invariant, and a credit's probes never run out of budget.
use vault_bridge.Base.{
  ℕ, ◌+◌, ◌-◌, ◌≤◌, ◌<◌, ◌≡◌, ap, sym, subst, refl, inl, inr, Bool, true, false, not, ◌&&◌, ◌||◌,
  Option, none, some, List, [], ◌∷◌, arith, leb, ◌==◌, if◌then◌else◌, length, Bool-cases, leb→le,
}
use vault_bridge.Budget.{
  Resource, paths, entries, directories, probes, aliases, directory_aliases, bytes, relationships,
  comparisons, semantic_rows, semantic_bytes, sqlite_steps, init, all_distinct, every_resource,
  resources, within_ceiling, lowered, new_budget, rank, is_probes, exhausted, Budget, allocation,
  sum_over, has_id, fits, update, spend, charge, Credit, reserve_cleanup, credit_probe,
  credit_finish,
}
use vault_bridge.Budget.Charges.{Inv, taken, rank-injective, sum_over_at, fits-own_part}

module _ (b : Budget) (sid : ℕ) (name : Resource) (count : ℕ) (v : Inv b)
    (m : has_id sid b.ids ≡ true) where
  spend-accounted :
      (r : Resource)
      → (spend b sid name count).total r ≡ sum_over (λ j. (spend b sid name count).used j r) b.ids
  spend-accounted r = elim (Bool-cases (rank r == rank name)) [
    | inl this ↦ ground (
      arith,
      v.accounted r,
      sum_over_at (λ j. (spend b sid name count).used j r) (λ j. b.used j r) sid count b.ids
          (λ j n. ground arith) (ground arith) m v.distinct,
    )
    | inr other ↦ ground (
      arith,
      v.accounted r,
      sum_over_at (λ j. (spend b sid name count).used j r) (λ j. b.used j r) sid 0 b.ids
          (λ j n. ground arith) (ground arith) m v.distinct,
    )
  ]

  spend-in_part :
      taken b sid name + count ≤ allocation b name
      → (j : ℕ) (r : Resource) → taken (spend b sid name count) j r ≤ allocation b r
  spend-in_part room j r = elim (Bool-cases (j == sid && rank r == rank name)) [
    | inr other ↦ ground (arith, v.in_part j r)
    | inl this ↦
        let at_id : j ≡ sid = ground arith in
        let at_name : r ≡ name = rank-injective r name (ground arith) in
        omega (
          arith,
          ap (λ (x : ℕ). taken b x r) at_id,
          ap (λ (x : Resource). taken b sid x) at_name,
          ap (allocation b) at_name,
          taken-spend j r this,
        )
  ]
    where
      taken-spend :
          (j : ℕ) (r : Resource)
          → Path Bool (j == sid && rank r == rank name) true
          → taken (spend b sid name count) j r ≡ taken b j r + count
      taken-spend j r h = rw h (omega arith)

  -- A charge is refused exactly when the space's own part has no room for it; a refused charge
  -- leaves the budget as it was, and an accepted one keeps every total, part and ceiling.
  pub charge-Inv :
      Inv (charge b sid name count).0
      × ((charge b sid name count).1 ≡ (
          if leb (taken b sid name + count) (allocation b name)
          then none
          else some (exhausted name)))
      × ((charge b sid name count).1 ≡ some (exhausted name) → (charge b sid name count).0 ≡ b)
  unfolding charge
  charge-Inv = elim (Bool-cases (fits b sid name count)) [
    | inr full ↦ (
      subst Inv (ground arith) v,
      ground (arith, fits-own_part b sid name count v m),
      λ _. ground arith,
    )
    | inl room ↦
        let own : taken b sid name + count ≤ allocation b name =
          ground (arith, fits-own_part b sid name count v m) in
        (
          subst Inv {x = spend b sid name count} (ground arith) (record {
            some_id = v.some_id;
            distinct = v.distinct;
            accounted = spend-accounted;
            in_part = spend-in_part own;
            capped = v.capped;
          }),
          ground (arith, fits-own_part b sid name count v m),
          λ e. ground arith,
        )
  ]

-- The reservation of one space changes, and its part still has room.
reserved-Inv :
    (b : Budget) (sid n : ℕ)
    → Inv b
    → b.used sid probes + n ≤ allocation b probes
    → Inv (record b { reserved = update b.reserved sid n })
reserved-Inv b sid n v room = record {
  some_id = v.some_id;
  distinct = v.distinct;
  accounted = v.accounted;
  in_part = λ j r. elim (Bool-cases (is_probes r && j == sid)) [
    | inr other ↦ ground (arith, v.in_part j r)
    | inl this ↦
        let at_id : j ≡ sid = ground arith in
        let at_name : r ≡ probes = rank-injective r probes (ground arith) in
        subst (λ q. taken (record b { reserved = update b.reserved sid n }) q r ≤ allocation b r)
          (sym at_id)
          (subst
            (λ q. taken (record b { reserved = update b.reserved sid n }) sid q ≤ allocation b q)
            (sym at_name) (ground arith))
  ];
  capped = v.capped;
}

-- A cleanup credit is granted exactly when eight probes fit in the space's part, and then it holds
-- eight of them.
pub reserve_cleanup-Inv :
    (b : Budget) (sid : ℕ)
    → Inv b
    → has_id sid b.ids ≡ true
    → Inv (reserve_cleanup b sid).0
      × ((reserve_cleanup b sid).1 ≡ (
          if leb (taken b sid probes + 8) (allocation b probes)
          then some (record { sid = sid; left = 8; live = true })
          else none))
unfolding reserve_cleanup
reserve_cleanup-Inv b sid v m = elim (Bool-cases (fits b sid probes 8)) [
  | inr full ↦
      (subst Inv {x = b} (ground arith) v, ground (arith, fits-own_part b sid probes 8 v m))
  | inl room ↦ (
    subst Inv {x = record b { reserved = update b.reserved sid (b.reserved sid + 8) }}
        (ground arith)
        (reserved-Inv b sid (b.reserved sid + 8) v
          (ground (arith, fits-own_part b sid probes 8 v m))),
    ground (arith, fits-own_part b sid probes 8 v m),
  )
]

reserved-charge :
    (b : Budget) (sid : ℕ) (name : Resource) (count : ℕ)
    → (charge b sid name count).0.reserved ≡ b.reserved
unfolding charge
reserved-charge b sid name count = ground arith

-- A credit that holds probes of its space can always spend one: the probe never raises, even when
-- every other part of the budget is used up, and the reservation falls as the credit does.
pub credit_probe-granted :
    (b : Budget) (c : Credit)
    → Inv b
    → has_id c.sid b.ids ≡ true
    → c.live ≡ true
    → 0 < c.left
    → c.left ≤ b.reserved c.sid
    → Inv (credit_probe b c).0
      × ((credit_probe b c).2 ≡ none)
      × ((credit_probe b c).1.left + 1 ≡ c.left)
      × ((credit_probe b c).0.reserved c.sid + 1 ≡ b.reserved c.sid)
unfolding credit_probe
credit_probe-granted b c v m on pos le =
    let n = b.reserved c.sid - 1 in
    let freed : Budget = record b { reserved = update b.reserved c.sid n } in
    let part = v.in_part c.sid probes in
    let u : Inv freed = reserved-Inv b c.sid n v (omega (arith, part)) in
    let (kept, answer, same) = charge-Inv freed c.sid probes 1 u m in
    let room : leb (taken freed c.sid probes + 1) (allocation b probes) ≡ true =
      ground (arith, part) in
    (
      subst Inv {x = (charge freed c.sid probes 1).0} (ground arith) kept,
      ground (arith, answer, room),
      ground arith,
      ground (arith, ap (λ (f : ℕ → ℕ). f c.sid) (reserved-charge freed c.sid probes 1)),
    )

-- A finished credit gives back exactly what it has not spent, and can be finished again for nothing.
pub credit_finish-returns :
    (b : Budget) (c : Credit)
    → Inv b
    → c.live ≡ true
    → c.left ≤ b.reserved c.sid
    → Inv (credit_finish b c).0
      × ((credit_finish b c).0.reserved c.sid + c.left ≡ b.reserved c.sid)
      × (credit_finish (credit_finish b c).0 (credit_finish b c).1 ≡ credit_finish b c)
unfolding credit_finish
credit_finish-returns b c v on le = (
  subst Inv {x = record b { reserved = update b.reserved c.sid (b.reserved c.sid - c.left) }}
      (ground arith)
      (reserved-Inv b c.sid (b.reserved c.sid - c.left) v (omega (arith, v.in_part c.sid probes))),
  ground arith,
  ground arith,
)

sum_none : (xs : List ℕ) → sum_over (λ _. 0) xs ≡ 0
sum_none [] = refl
sum_none (x ∷ xs) = omega (arith, sum_none xs)

every_resource-all :
    (p : Resource → Bool) → every_resource p resources ≡ true → (r : Resource) → p r ≡ true
every_resource-all p h paths = ground arith
every_resource-all p h entries = ground arith
every_resource-all p h directories = ground arith
every_resource-all p h probes = ground arith
every_resource-all p h aliases = ground arith
every_resource-all p h directory_aliases = ground arith
every_resource-all p h bytes = ground arith
every_resource-all p h relationships = ground arith
every_resource-all p h comparisons = ground arith
every_resource-all p h semantic_rows = ground arith
every_resource-all p h semantic_bytes = ground arith
every_resource-all p h sqlite_steps = ground arith

new_budget-Inv :
    (ids : List ℕ) (limits : Resource → Option (ℕ × ℕ))
    → leb 1 (length ids) ≡ true
    → all_distinct ids ≡ true
    → every_resource (within_ceiling limits) resources ≡ true
    → Inv (new_budget ids (lowered limits))
new_budget-Inv ids limits some_id distinct capped = record {
  some_id = leb→le 1 (length ids) some_id;
  distinct = distinct;
  accounted = λ r. sym (sum_none ids);
  in_part = λ j r. nothing (is_probes r) _;
  capped = λ r. every_resource-all (within_ceiling limits) capped r;
}
  where
    nothing : (p : Bool) (n : ℕ) → 0 + (if p then 0 else 0) ≤ n
    nothing true n = omega arith
    nothing false n = omega arith

-- Every budget that the constructor builds has the invariant: nothing is spent or held, and the parts
-- of the spaces fit in the ceilings together.
pub init-Inv :
    (ids : List ℕ) (limits : Resource → Option (ℕ × ℕ)) {b : Budget}
    → init ids limits ≡ some b
    → Inv b
unfolding init
init-Inv ids limits {b} h =
    build (leb 1 (length ids)) (all_distinct ids) (every_resource (within_ceiling limits) resources)
      refl refl refl h
  where
    build :
        (x y z : Bool)
        → leb 1 (length ids) ≡ x
        → all_distinct ids ≡ y
        → every_resource (within_ceiling limits) resources ≡ z
        → (if not x || not y || not z then none else some (new_budget ids (lowered limits)))
          ≡ some b
        → Inv b
    build true true true p q r e =
        let same : new_budget ids (lowered limits) ≡ b = cc in
        subst Inv same (new_budget-Inv ids limits p q r)
    build true true false p q r e = cc
    build true false z p q r e = cc
    build false y z p q r e = cc
