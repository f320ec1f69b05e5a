-- ===== src/Scheduler/Reachable.antt =====
-- Every step of the scheduler keeps the invariant, so every state that it reaches has it; the limits
-- on reservations and the debt for accepted paths follow.
use vault_bridge.Base.{
  every, is_some, ℕ, ◌≤◌, ◌≡◌, ◌∙◌, ap, sym, subst, refl, inl, inr, Bool, true, false, not, ◌||◌,
  none, some, List, [], ◌∷◌, arith, Bool-cases, Option-cases, length, leb,
}
use vault_bridge.Scheduler.State.{
  Owner, Scheduler, Outcome, SpaceId, ok, find, commit, new_scheduler, new_owner, same_token,
}
use vault_bridge.Scheduler.Queue.{
  retire_section, shutdown_section, retire_all, shutdown_all, begin_shutdown, start, need_full,
  launch, each_owner,
}
use vault_bridge.Scheduler.Monitor.{
  fence_watcher, fence_all, attach_watcher, retire_watcher_work, detach_watcher, fenced,
}
use vault_bridge.Scheduler.Keeps.{size, Keeps-of_Quiet}
use vault_bridge.Scheduler.Drops.{retire_section-Keeps, shutdown_section-Keeps}
use vault_bridge.Scheduler.Quiets.{Quiet-fenced}
use vault_bridge.Scheduler.Stages.{AtStage}
use vault_bridge.Scheduler.Table.{
  Owners, reserved, AllSound, size-le-reserved, AllSound-find, AlwaysKeeps,
}
use vault_bridge.Scheduler.Steps.{
  Step, client, work, finish, choose_next, launch_worker, attach, fence, retire, detach, shut_down,
  Reach, here, next, quietly,
}
use vault_bridge.Scheduler.Invariant.{Inv, stage_of, commit-Inv, sweep-Inv}
use vault_bridge.Scheduler.Safety.{Section-Keeps, advance-Inv, end_turn-Inv, select-Inv}

-- The fields that the invariant does not speak of may change.
module _ {s : Scheduler} (v : Inv s) where
  pub Inv-relabel :
      (t : Scheduler) → t.owners ≡ s.owners → t.total ≡ s.total → t.phase ≡ s.phase → Inv t
  Inv-relabel t owners total phase = record {
    counted = total ∙ v.counted ∙ ap reserved (sym owners);
    within_all = omega (arith, total, v.within_all);
    sound = subst AllSound (sym owners) v.sound;
    staged = λ sid e f.
        subst (λ p. AtStage (stage_of p sid) e) (sym phase)
          (v.staged sid e (ap (find sid) (sym owners) ∙ f));
  }

shutdown-AlwaysKeeps : AlwaysKeeps shutdown_section
shutdown-AlwaysKeeps total e w le = shutdown_section-Keeps total e w le

begin_shutdown-Inv : (s : Scheduler) → Inv s → Inv (begin_shutdown s)
unfolding begin_shutdown shutdown_all
begin_shutdown-Inv s v = elim (Bool-cases s.closed) [
  | inl shut ↦ subst Inv (ground arith) v
  | inr live ↦ subst Inv (ground arith) (
      sweep-Inv shutdown_section shutdown-AlwaysKeeps v
        (record s {
          owners = (each_owner shutdown_section s.total s.owners).0;
          total = (each_owner shutdown_section s.total s.owners).1;
          closed = true;
        })
        refl refl refl)
]

retire_watcher_work-Inv : (token : ℕ) (s : Scheduler) → Inv s → Inv (retire_watcher_work token s)
unfolding retire_watcher_work retire_all
retire_watcher_work-Inv token s v = elim (Bool-cases (same_token s.watcher_token token)) [
  | inr other ↦ subst Inv (ground arith) v
  | inl mine ↦ subst Inv (ground arith) (
      sweep-Inv retire_section retire_section-Keeps v
        (record s {
          owners = (each_owner retire_section s.total s.owners).0;
          total = (each_owner retire_section s.total s.owners).1;
        })
        refl refl refl)
]

detach_watcher-Inv : (token : ℕ) (s : Scheduler) → Inv s → Inv (detach_watcher token s)
unfolding detach_watcher
detach_watcher-Inv token s v = elim (Bool-cases (same_token s.watcher_token token)) [
  | inr other ↦ subst Inv (ground arith) v
  | inl mine ↦
      let t = retire_watcher_work token s in
      subst Inv (ground arith) (
        Inv-relabel (retire_watcher_work-Inv token s v)
          (record t { watcher_accepting = false; watcher_token = none }) refl refl refl)
]

attach_watcher-Inv :
    (token : ℕ) (s : Scheduler) {t : Scheduler} → Inv s → attach_watcher token s ≡ some t → Inv t
unfolding attach_watcher
attach_watcher-Inv token s v h = Inv-relabel v _ (ground arith) (ground arith) (ground arith)

fence_all-Inv :
    (sids : List SpaceId) (s : Scheduler)
    → Inv s
    → Inv (record s { owners = fence_all sids s.owners })
unfolding fence_all
fence_all-Inv [] s v = v
fence_all-Inv (sid ∷ sids) s v = elim (Option-cases (find sid s.owners)) [
  | inl gone ↦ rw (gone, fence_all) v
  | inr (e, f) ↦
      let sound = AllSound-find sid {e = e} s.owners f v.sound in
      rw (f, fence_all)
        (fence_all-Inv sids (commit sid (quietly s.total (fenced e)) s)
          (commit-Inv sid v f (Keeps-of_Quiet s.total true sound.well (Quiet-fenced e))))
]

fence_watcher-Inv :
    (token : ℕ) (sids : List SpaceId) (s : Scheduler) → Inv s → Inv (fence_watcher token sids s)
unfolding fence_watcher
fence_watcher-Inv token sids s v = elim (Bool-cases (same_token s.watcher_token token)) [
  | inr other ↦ subst Inv (ground arith) v
  | inl mine ↦ elim (Bool-cases s.watcher_accepting) [
    | inl taking ↦ subst Inv (ground arith) (
        Inv-relabel (fence_all-Inv sids s v)
          (record s {
            owners = fence_all sids s.owners;
            watcher_accepting = not (every (λ sid. is_some (find sid s.owners)) sids);
          })
          refl refl refl)
    | inr shut ↦
        subst Inv (ground arith)
          (Inv-relabel v (record s { watcher_accepting = false }) refl refl refl)
  ]
]

needing : ℕ → Owner → Outcome
needing total e = quietly total (record e { full_needed = true })

needing-AlwaysKeeps : AlwaysKeeps needing
unfolding needing
needing-AlwaysKeeps total e w le = Keeps-of_Quiet total true w (record {
  pending_kept = refl;
  deferred_kept = refl;
  inflight_kept = refl;
  continuation_kept = refl;
  running_kept = refl;
  full_kept = λ _. refl;
})

need_full-each_owner : (t : ℕ) (m : Owners) → need_full m ≡ (each_owner needing t m).0
unfolding need_full each_owner needing
need_full-each_owner t [] = refl
need_full-each_owner t ((sid, e) ∷ m) =
    ap (λ (r : Owners). (sid, record e { full_needed = true }) ∷ r) (need_full-each_owner t m)

count-each_owner : (t : ℕ) (m : Owners) → t ≡ (each_owner needing t m).1
unfolding each_owner needing
count-each_owner t [] = refl
count-each_owner t ((sid, e) ∷ m) = count-each_owner t m

launch-Inv : (startup : Bool) (s : Scheduler) → Inv s → Inv (launch startup s)
launch-Inv true s v =
    sweep-Inv needing needing-AlwaysKeeps v (launch true s) (need_full-each_owner s.total s.owners)
      (count-each_owner s.total s.owners) refl
launch-Inv false s v = Inv-relabel v (launch false s) refl refl refl

start-Inv :
    (startup : Bool) (s : Scheduler) {t : Scheduler} → Inv s → start startup s ≡ ok t → Inv t
unfolding start
start-Inv startup s {t} v h = elim (Bool-cases s.closed) [
  | inl shut ↦ ground arith
  | inr live ↦ elim (Bool-cases (s.started || not (leb 1 (length s.owners)))) [
    | inl same ↦ subst Inv (ground arith) v
    | inr fresh ↦ subst Inv (ground arith) (launch-Inv startup s v)
  ]
]

-- Every step, of a client, the watcher, the worker or a shutdown, keeps the invariant.
pub Step-Inv : {s t : Scheduler} → Step s t → Inv s → Inv t
Step-Inv {s} (client sid {e = e} f k) v =
    let sound = AllSound-find sid {e = e} s.owners f v.sound in
    let le : size e ≤ s.total = omega (arith, v.counted, size-le-reserved sid {e = e} s.owners f) in
    commit-Inv sid v f (Section-Keeps sound.well le k)
Step-Inv (work sid ph f k) v = advance-Inv sid v ph f k
Step-Inv (finish sid ph f) v = end_turn-Inv sid v ph f
Step-Inv {s} (choose_next ph on) v = select-Inv s v ph
Step-Inv {s} (launch_worker startup h) v = start-Inv startup s v h
Step-Inv {s} (attach token h) v = attach_watcher-Inv token s v h
Step-Inv {s} (fence token sids) v = fence_watcher-Inv token sids s v
Step-Inv {s} (retire token) v = retire_watcher_work-Inv token s v
Step-Inv {s} (detach token) v = detach_watcher-Inv token s v
Step-Inv {s} shut_down v = begin_shutdown-Inv s v

-- Every state that the scheduler reaches from one with the invariant has it: the shared count is
-- the number of paths held by all owners, it never passes 10000, no owner holds more than 2000, and
-- nothing is in flight outside a synchronization.
pub Reach-Inv : {s t : Scheduler} → Inv s → Reach s t → Inv t
Reach-Inv v here = v
Reach-Inv v (next r st) = Step-Inv st (Reach-Inv v r)

-- Fresh owners, one to an id.
unfoldable pub fresh_owners : List SpaceId → Owners
fresh_owners [] = []
fresh_owners (sid ∷ sids) = (sid, new_owner sid sid) ∷ fresh_owners sids

reserved-fresh_owners : (sids : List SpaceId) → reserved (fresh_owners sids) ≡ 0
unfolding fresh_owners
reserved-fresh_owners [] = refl
reserved-fresh_owners (sid ∷ sids) = omega (arith, reserved-fresh_owners sids)

fresh_owners-AllSound : (sids : List SpaceId) → AllSound (fresh_owners sids)
unfolding fresh_owners
fresh_owners-AllSound [] = tt
fresh_owners-AllSound (sid ∷ sids) = (
  record {
    well = record { pending_distinct = tt; inflight_distinct = tt; deferred_distinct = tt };
    within = omega arith;
  },
  fresh_owners-AllSound sids,
)

fresh-rests :
    (sids : List SpaceId) (sid : SpaceId) (e : Owner)
    → find sid (fresh_owners sids) ≡ some e
    → (e.running ≡ false) × (e.inflight ≡ [])
unfolding fresh_owners find
fresh-rests [] sid e f = ground arith
fresh-rests (j ∷ sids) sid e f = ground (arith, fresh-rests sids sid e)

-- A new scheduler has the invariant.
pub new_scheduler-Inv : (sids : List SpaceId) → Inv (new_scheduler (fresh_owners sids))
new_scheduler-Inv sids = record {
  counted = sym (reserved-fresh_owners sids);
  within_all = omega arith;
  sound = fresh_owners-AllSound sids;
  staged = λ sid e f. let (r, i) = fresh-rests sids sid e f in (r, λ _. i);
}
