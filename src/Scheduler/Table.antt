-- ===== src/Scheduler/Table.antt =====
-- The table of owners: look-ups after a write, and the number of paths that all owners hold.
use vault_bridge.Base.{
  ℕ, ◌+◌, ◌≤◌, ◌≡◌, ap, subst, refl, inl, inr, none, some, List, [], ◌∷◌, arith, if◌then◌else◌,
  is_some, Bool-cases, ◌==◌, All,
}
use vault_bridge.Scheduler.State.{
  Owner, Outcome, SpaceId, find, store, global_target_limit, space_target_limit,
}
use vault_bridge.Scheduler.Queue.{each_owner}
use vault_bridge.Scheduler.Count.{IsWell}
use vault_bridge.Scheduler.Keeps.{size, Keeps}

abbrev pub Owners : Type 0
Owners = List (SpaceId × Owner)

-- What holds of every owner at any time.
pub record IsSound (e : Owner) : Type 0 where
  pub well : IsWell e
  pub within : size e ≤ space_target_limit

abbrev pub reserved : Owners → ℕ
reserved [] = 0
reserved ((_, e) ∷ m) = size e + reserved m

abbrev pub AllSound : Owners → Type 0
AllSound = All (λ p. IsSound p.1)

pub find-store :
    (k j : SpaceId) (d : Owner) (m : Owners)
    → find j (store k d m)
      ≡ (if k == j then (if is_some (find k m) then some d else none) else find j m)
unfolding find store
find-store k j d [] = ground arith
find-store k j d ((i, e) ∷ m) = ground (arith, find-store k j d m)

pub reserved-store :
    (k : SpaceId) {e : Owner} (d : Owner) (m : Owners)
    → find k m ≡ some e
    → reserved (store k d m) + size e ≡ reserved m + size d
unfolding find store
reserved-store k d [] h = ground arith
reserved-store k {e} d ((i, c) ∷ m) h = elim (Bool-cases (i == k)) [
  | inl here ↦ let same : c ≡ e = ground arith in rw here (omega (arith, ap size same))
  | inr there ↦ rw there (omega (arith, reserved-store k {e = e} d m (ground arith)))
]

pub size-le-reserved :
    (k : SpaceId) {e : Owner} (m : Owners) → find k m ≡ some e → size e ≤ reserved m
unfolding find
size-le-reserved k [] h = ground arith
size-le-reserved k {e} ((i, c) ∷ m) h = elim (Bool-cases (i == k)) [
  | inl here ↦ let same : c ≡ e = ground arith in omega (arith, ap size same)
  | inr there ↦ omega (arith, size-le-reserved k {e = e} m (ground arith))
]

pub AllSound-find :
    (k : SpaceId) {e : Owner} (m : Owners) → find k m ≡ some e → AllSound m → IsSound e
unfolding find
AllSound-find k [] h a = ground arith
AllSound-find k {e} ((i, c) ∷ m) h a = elim (Bool-cases (i == k)) [
  | inl here ↦ subst IsSound (ground arith) a.0
  | inr there ↦ AllSound-find k {e = e} m (ground arith) a.1
]

pub AllSound-store :
    (k : SpaceId) (d : Owner) (m : Owners) → IsSound d → AllSound m → AllSound (store k d m)
unfolding store
AllSound-store k d [] h a = tt
AllSound-store k d ((i, c) ∷ m) h a = elim (Bool-cases (i == k)) [
  | inl here ↦ rw here (h, a.1)
  | inr there ↦ rw there (a.0, AllSound-store k d m h a.1)
]

-- A section that keeps every owner it is given.
abbrev pub AlwaysKeeps : (ℕ → Owner → Outcome) → Type 0
AlwaysKeeps f = (total : ℕ) (e : Owner) → IsWell e → size e ≤ total → Keeps total e (f total e)

-- What a loop of sections over all owners keeps.
pub record Sweeps (total : ℕ) (m : Owners) (r : Owners × ℕ) : Type 0 where
  pub balance : r.1 + reserved m ≡ total + reserved r.0
  pub sound : AllSound r.0
  pub within_all : total ≤ global_target_limit → r.1 ≤ global_target_limit

pub each_owner-Sweeps :
    (f : ℕ → Owner → Outcome)
    → AlwaysKeeps f
    → (total : ℕ) (m : Owners) → AllSound m
    → reserved m ≤ total
    → Sweeps total m (each_owner f total m)
unfolding each_owner
each_owner-Sweeps f keeps total [] a enough = record {
  balance = refl;
  sound = tt;
  within_all = λ h. h;
}
each_owner-Sweeps f keeps total ((sid, e) ∷ m) a enough =
    let k = keeps total e a.0.well (omega arith) in
    let r = each_owner-Sweeps f keeps (f total e).count m a.1 (omega (arith, k.balance)) in
    record {
      balance = omega (arith, k.balance, r.balance);
      sound = (record { well = k.well; within = k.within a.0.within }, r.sound);
      within_all = λ h. r.within_all (k.within_all h);
    }

-- The owner that a loop of sections leaves at an id comes from the one that was there.
pub find-each_owner :
    (f : ℕ → Owner → Outcome)
    → AlwaysKeeps f
    → (total : ℕ) (m : Owners) → AllSound m
    → reserved m ≤ total
    → (sid : SpaceId) {e : Owner} → find sid m ≡ some e
    → (t : ℕ) × (size e ≤ t) × (find sid (each_owner f total m).0 ≡ some (f t e).owner)
unfolding each_owner find
find-each_owner f keeps total [] a enough sid h = ground arith
find-each_owner f keeps total ((j, c) ∷ m) a enough sid {e} h = elim (Bool-cases (j == sid)) [
  | inl here ↦
      let same : c ≡ e = ground arith in (total, omega (arith, ap size same), rw (here, same) refl)
  | inr there ↦
      let k = keeps total c a.0.well (omega arith) in
      let (t, le, found) =
        find-each_owner f keeps (f total c).count m a.1 (omega (arith, k.balance)) sid {e = e}
          (ground arith) in
      (t, le, rw there found)
]

pub find-each_owner_none :
    (f : ℕ → Owner → Outcome) (total : ℕ) (m : Owners) (sid : SpaceId)
    → is_some (find sid (each_owner f total m).0) ≡ is_some (find sid m)
unfolding each_owner find
find-each_owner_none f total [] sid = refl
find-each_owner_none f total ((j, c) ∷ m) sid =
    ground (arith, find-each_owner_none f (f total c).count m sid)
