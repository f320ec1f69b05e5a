-- ===== src/Scheduler/Keeps.antt =====
-- What every section keeps of an owner: its sets and their count, the turn's own fields, the limits,
-- and the debt for each accepted path.
use vault_bridge.Base.{
  ℕ, suc, ◌+◌, ◌-◌, ◌≤◌, ◌<◌, String, ◌≡◌, ◌∙◌, ap, sym, subst, refl, inl, inr, Bool, true, false,
  not, ◌&&◌, ◌||◌, Option, none, some, List, [], ◌∷◌, arith, str_eq, eq_iff, if◌then◌else◌, length,
  is_some, Bool-cases, leb, ltb,
}
use vault_bridge.Base.Sets.{
  mem, IsDistinct, insert, minus, union, mem-insert, insert-IsDistinct, str_eq_refl,
}
use vault_bridge.Base.Dict.{delete, keys, keys-delete, delete-IsDistinct}
use vault_bridge.Scheduler.State.{
  Owner, Outcome, identities, global_target_limit, space_target_limit,
}
use vault_bridge.Scheduler.Queue.{request_full, wake, undefer}
use vault_bridge.Scheduler.Count.{IsWell, held}

abbrev pub size : Owner → ℕ
size e = length (identities e)

-- The owner owes a path: it holds it, or it is to synchronize everything.
abbrev pub owes : Owner → String → Bool
owes e a = held e a || e.full_needed

pub record Keeps (total : ℕ) (e : Owner) (o : Outcome) : Type 0 where
  pub well : IsWell o.owner
  pub balance : o.count + size e ≡ total + size o.owner
  pub within : size e ≤ space_target_limit → size o.owner ≤ space_target_limit
  pub within_all : total ≤ global_target_limit → o.count ≤ global_target_limit
  pub inflight_kept : o.owner.inflight ≡ e.inflight
  pub continuation_kept : o.owner.continuation ≡ e.continuation
  pub running_kept : o.owner.running ≡ e.running
  pub full_kept : e.full_needed ≡ true → o.owner.full_needed ≡ true
  pub debt_kept : (a : String) → owes e a ≡ true → owes o.owner a ≡ true

-- The fields that only the turn and the sets concern.
pub record Quiet (e d : Owner) : Type 0 where
  pub pending_kept : d.pending ≡ e.pending
  pub deferred_kept : d.deferred ≡ e.deferred
  pub inflight_kept : d.inflight ≡ e.inflight
  pub continuation_kept : d.continuation ≡ e.continuation
  pub running_kept : d.running ≡ e.running
  pub full_kept : e.full_needed ≡ true → d.full_needed ≡ true

pub Quiet-refl : (e : Owner) → Quiet e e
Quiet-refl e = record {
  pending_kept = refl;
  deferred_kept = refl;
  inflight_kept = refl;
  continuation_kept = refl;
  running_kept = refl;
  full_kept = λ h. h;
}

pub Quiet-trans : {c d e : Owner} → Quiet c d → Quiet d e → Quiet c e
Quiet-trans p q = record {
  pending_kept = q.pending_kept ∙ p.pending_kept;
  deferred_kept = q.deferred_kept ∙ p.deferred_kept;
  inflight_kept = q.inflight_kept ∙ p.inflight_kept;
  continuation_kept = q.continuation_kept ∙ p.continuation_kept;
  running_kept = q.running_kept ∙ p.running_kept;
  full_kept = λ h. q.full_kept (p.full_kept h);
}

pub Quiet-wake : (closed : Bool) (e : Owner) → Quiet e (wake closed e)
Quiet-wake true e = Quiet-refl e
Quiet-wake false e = record {
  pending_kept = refl;
  deferred_kept = refl;
  inflight_kept = refl;
  continuation_kept = refl;
  running_kept = refl;
  full_kept = λ h. h;
}

pub Quiet-request_full : (e : Owner) → Quiet e (request_full e)
Quiet-request_full e = record {
  pending_kept = refl;
  deferred_kept = refl;
  inflight_kept = refl;
  continuation_kept = refl;
  running_kept = refl;
  full_kept = λ _. refl;
}

pub Quiet-IsWell : {e d : Owner} → Quiet e d → IsWell e → IsWell d
Quiet-IsWell q w = record {
  pending_distinct = subst IsDistinct (sym q.pending_kept) w.pending_distinct;
  inflight_distinct = subst IsDistinct (sym q.inflight_kept) w.inflight_distinct;
  deferred_distinct = subst (λ m. IsDistinct (keys m)) (sym q.deferred_kept) w.deferred_distinct;
}

pub Quiet-size : {e d : Owner} → Quiet e d → size d ≡ size e
Quiet-size {e} {d} q =
    λ i. length (union (union (q.pending_kept i) (q.inflight_kept i)) (keys (q.deferred_kept i)))

pub Quiet-held : {e d : Owner} (q : Quiet e d) (a : String) → held d a ≡ held e a
Quiet-held q a =
    λ i. mem a (q.pending_kept i) || mem a (q.inflight_kept i) || mem a (keys (q.deferred_kept i))

pub Quiet-owes : {e d : Owner} → Quiet e d → (a : String) → owes e a ≡ true → owes d a ≡ true
Quiet-owes {e} {d} q a h = ground (arith, Quiet-held q a, q.full_kept)

-- A section that is quiet on the owner and leaves the count.
pub Keeps-of_Quiet :
    (total : ℕ) {e d : Owner} (b : Bool)
    → IsWell e
    → Quiet e d
    → Keeps total e (record { owner = d; count = total; answer = b })
Keeps-of_Quiet total b w q = record {
  well = Quiet-IsWell q w;
  balance = omega (arith, Quiet-size q);
  within = λ h. omega (arith, Quiet-size q);
  within_all = λ h. h;
  inflight_kept = q.inflight_kept;
  continuation_kept = q.continuation_kept;
  running_kept = q.running_kept;
  full_kept = q.full_kept;
  debt_kept = Quiet-owes q;
}

-- A quiet change after a section.
pub Keeps-Quiet :
    {total : ℕ} {e : Owner} {o : Outcome} {d : Owner}
    → Keeps total e o
    → Quiet o.owner d
    → Keeps total e (record o { owner = d })
Keeps-Quiet k q = record {
  well = Quiet-IsWell q k.well;
  balance = omega (arith, Quiet-size q, k.balance);
  within = λ h. omega (arith, Quiet-size q, k.within h);
  within_all = k.within_all;
  inflight_kept = q.inflight_kept ∙ k.inflight_kept;
  continuation_kept = q.continuation_kept ∙ k.continuation_kept;
  running_kept = q.running_kept ∙ k.running_kept;
  full_kept = λ h. q.full_kept (k.full_kept h);
  debt_kept = λ a h. Quiet-owes q a (k.debt_kept a h);
}

-- The owner with one path more among the pending, which leaves the deferred ones.
pub undefer-IsWell :
    (c : String) (e : Owner)
    → IsWell e
    → IsWell (undefer c (record e { pending = insert c e.pending }))
undefer-IsWell c e w = elim (Bool-cases (mem c (keys e.deferred))) [
  | inl there ↦ rw there (record {
    pending_distinct = insert-IsDistinct c e.pending w.pending_distinct;
    inflight_distinct = w.inflight_distinct;
    deferred_distinct = delete-IsDistinct c e.deferred w.deferred_distinct;
  })
  | inr absent ↦ rw absent (record {
    pending_distinct = insert-IsDistinct c e.pending w.pending_distinct;
    inflight_distinct = w.inflight_distinct;
    deferred_distinct = w.deferred_distinct;
  })
]

pub mem-keys-delete :
    (c a : String) (m : List (String × ℕ))
    → mem a (keys (delete c m)) ≡ (not (str_eq c a) && mem a (keys m))
mem-keys-delete c a m =
    ap (mem a) (keys-delete c m) ∙ vault_bridge.Base.Sets.mem-remove c a (keys m)

pub held-undefer :
    (c a : String) (e : Owner)
    → held (undefer c (record e { pending = insert c e.pending })) a ≡ (str_eq c a || held e a)
held-undefer c a e =
    ground (arith, mem-insert c a e.pending, mem-keys-delete c a e.deferred, eq_iff c a)
