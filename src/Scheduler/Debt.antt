-- ===== src/Scheduler/Debt.antt =====
-- No accepted path is lost: an owner that owes a path, because it holds it or because it is to
-- synchronize everything, owes it until a synchronization of its space completes.
use vault_bridge.Base.{
  ℕ, ◌+◌, ◌≤◌, String, ◌≡◌, ◌∙◌, ap, sym, subst, refl, inl, inr, Bool, true, false, not, ◌&&◌, ◌||◌,
  Option, none, some, List, [], ◌∷◌, arith, if◌then◌else◌, is_some, Bool-cases, Option-cases, ◌==◌,
  ==_iff, length, leb, str_eq,
}
use vault_bridge.Base.Sets.{mem, insert, str_eq_refl}
use vault_bridge.Scheduler.State.{Owner, Scheduler, Outcome, SpaceId, ok, find, store, same_token}
use vault_bridge.Scheduler.Queue.{
  retire_section, shutdown_section, retire_all, shutdown_all, begin_shutdown, start, need_full,
  each_owner, enqueue_section, enqueue_admitted, admit, wake, request_full, undefer,
}
use vault_bridge.Scheduler.Monitor.{
  fence_watcher, fence_all, attach_watcher, retire_watcher_work, detach_watcher, fenced,
}
use vault_bridge.Scheduler.Turn.{select, enter, choose, finish_section}
use vault_bridge.Scheduler.Keeps.{
  size, owes, Quiet-trans, Quiet-owes, Quiet-wake, Quiet-request_full, held-undefer,
}
use vault_bridge.Scheduler.Sections.{admit-cases}
use vault_bridge.Scheduler.Drops.{retire_section-Keeps, shutdown_section-Keeps}
use vault_bridge.Scheduler.Moves.{finish_section-Finishes}
use vault_bridge.Scheduler.Table.{
  Owners, reserved, AllSound, find-store, size-le-reserved, AllSound-find, AlwaysKeeps,
  find-each_owner,
}
use vault_bridge.Scheduler.Steps.{
  Step, client, work, finish, choose_next, launch_worker, attach, fence, retire, detach, shut_down,
  Reach, here, next, pays, completes,
}
use vault_bridge.Scheduler.Invariant.{Inv}
use vault_bridge.Scheduler.Safety.{Section-Keeps, Work-Moves, staged_of_turn}
use vault_bridge.Scheduler.Reachable.{Step-Inv}

and_right : (x y : Bool) → x ≡ true → (x && y) ≡ false → y ≡ false
and_right x y h k = ground arith

-- The owner of a space, in a table of owners, owes the path.
abbrev pub Owes : SpaceId → String → Owners → Type 0
Owes sid a m = (e : Owner) × (find sid m ≡ some e) × (owes e a ≡ true)

abbrev pub Debtless : Owner → Owner → Type 0
Debtless e d = (a : String) → owes e a ≡ true → owes d a ≡ true

-- A write that keeps the debts of its owner keeps every debt.
Owes-store :
    (k sid : SpaceId) (a : String) (e d : Owner) (m : Owners)
    → find k m ≡ some e
    → (Path Bool (k == sid) true → owes e a ≡ true → owes d a ≡ true)
    → Owes sid a m
    → Owes sid a (store k d m)
Owes-store k sid a e d m f keep (c, found, owed) = elim (Bool-cases (k == sid)) [
  | inr there ↦ (c, ground (arith, find-store k sid d m), owed)
  | inl at_id ↦
      let same : e ≡ c = ground (arith, ap (λ (i : SpaceId). find i m) ((==_iff k sid).0 at_id)) in
      (
        d,
        ground (arith, find-store k sid d m),
        keep at_id (ap (λ (x : Owner). owes x a) same ∙ owed),
      )
]

Owes-each_owner :
    (f : ℕ → Owner → Outcome)
    → AlwaysKeeps f
    → (total : ℕ) (m : Owners) → AllSound m
    → reserved m ≤ total
    → (sid : SpaceId) (a : String) → Owes sid a m
    → Owes sid a (each_owner f total m).0
Owes-each_owner f keeps total m sound enough sid a (e, found, owed) =
    let (t, le, after) = find-each_owner f keeps total m sound enough sid {e = e} found in
    let k = keeps t e (AllSound-find sid {e = e} m found sound).well le in
    ((f t e).owner, after, k.debt_kept a owed)

Owes-fence_all :
    (sids : List SpaceId) (m : Owners) (sid : SpaceId) (a : String)
    → Owes sid a m
    → Owes sid a (fence_all sids m)
unfolding fence_all
Owes-fence_all [] m sid a h = h
Owes-fence_all (k ∷ sids) m sid a h = elim (Option-cases (find k m)) [
  | inl gone ↦ rw (gone, fence_all) h
  | inr (e, f) ↦
      rw (f, fence_all)
        (Owes-fence_all sids (store k (fenced e) m) sid a
          (Owes-store k sid a e (fenced e) m f (λ _ o. o) h))
]

Owes-need_full : (m : Owners) (sid : SpaceId) (a : String) → Owes sid a m → Owes sid a (need_full m)
unfolding need_full find
Owes-need_full [] sid a h = h
Owes-need_full ((j, c) ∷ m) sid a (e, found, owed) = elim (Bool-cases (j == sid)) [
  | inl at_id ↦ rw at_id (record c { full_needed = true }, refl, ground arith)
  | inr there ↦
      let (d, after, still) = Owes-need_full m sid a (e, ground arith, owed) in
      rw there (d, after, still)
]

Owes-select :
    (s : Scheduler) (sid : SpaceId) (a : String)
    → Owes sid a s.owners
    → Owes sid a (select s).owners
unfolding select
Owes-select s sid a h = elim (Bool-cases s.closed) [
  | inl shut ↦ subst (Owes sid a) {x = s.owners} {y = (select s).owners} (ground arith) h
  | inr live ↦ elim (Option-cases (choose s.last_id s.owners)) [
    | inl nobody ↦ subst (Owes sid a) {x = s.owners} {y = (select s).owners} (ground arith) h
    | inr (k, chosen) ↦ elim (Option-cases (find k s.owners)) [
      | inl gone ↦ subst (Owes sid a) {x = s.owners} {y = (select s).owners} (ground arith) h
      | inr (e, f) ↦
          subst (Owes sid a) {x = (enter s k (some e)).owners} {y = (select s).owners}
            (ground arith)
            (Owes-store k sid a e (record e { running = true }) s.owners f (λ _ o. o) h)
    ]
  ]
]

module _ (s : Scheduler) (sid : SpaceId) (a : String) (h : Owes sid a s.owners) where
  Owes-start : (startup : Bool) {t : Scheduler} → start startup s ≡ ok t → Owes sid a t.owners
  unfolding start
  Owes-start startup {t} r = elim (Bool-cases s.closed) [
    | inl shut ↦ ground arith
    | inr live ↦ elim (Bool-cases (s.started || not (leb 1 (length s.owners)))) [
      | inl same ↦ subst (Owes sid a) {x = s.owners} {y = t.owners} (ground arith) h
      | inr fresh ↦ elim (Bool-cases startup) [
        | inl full ↦
            subst (Owes sid a) {x = need_full s.owners} {y = t.owners} (ground arith)
              (Owes-need_full s.owners sid a h)
        | inr plain ↦ subst (Owes sid a) {x = s.owners} {y = t.owners} (ground arith) h
      ]
    ]
  ]

  Owes-attach : (token : ℕ) {t : Scheduler} → attach_watcher token s ≡ some t → Owes sid a t.owners
  unfolding attach_watcher
  Owes-attach token {t} r = subst (Owes sid a) {x = s.owners} {y = t.owners} (ground arith) h

  Owes-fence : (token : ℕ) (sids : List SpaceId) → Owes sid a (fence_watcher token sids s).owners
  unfolding fence_watcher
  Owes-fence token sids =
      let after = Owes-fence_all sids s.owners sid a h in
      elim (Bool-cases (same_token s.watcher_token token && s.watcher_accepting)) [
        | inl taking ↦
            subst (Owes sid a) {x = fence_all sids s.owners}
              {y = (fence_watcher token sids s).owners} (ground arith) after
        | inr other ↦
            subst (Owes sid a) {x = s.owners} {y = (fence_watcher token sids s).owners}
              (ground arith) h
      ]

  module _ (v : Inv s) where
    Owes-retire : (token : ℕ) → Owes sid a (retire_watcher_work token s).owners
    unfolding retire_watcher_work retire_all
    Owes-retire token = elim (Bool-cases (same_token s.watcher_token token)) [
      | inr other ↦
          subst (Owes sid a) {x = s.owners} {y = (retire_watcher_work token s).owners}
            (ground arith) h
      | inl mine ↦
          subst (Owes sid a) {x = (each_owner retire_section s.total s.owners).0}
            {y = (retire_watcher_work token s).owners} (ground arith)
            (Owes-each_owner retire_section retire_section-Keeps s.total s.owners v.sound
              (omega (arith, v.counted)) sid a h)
    ]

    Owes-detach : (token : ℕ) → Owes sid a (detach_watcher token s).owners
    unfolding detach_watcher
    Owes-detach token = elim (Bool-cases (same_token s.watcher_token token)) [
      | inr other ↦
          subst (Owes sid a) {x = s.owners} {y = (detach_watcher token s).owners} (ground arith) h
      | inl mine ↦
          subst (Owes sid a) {x = (retire_watcher_work token s).owners}
            {y = (detach_watcher token s).owners} (ground arith) (Owes-retire token)
    ]

    Owes-shutdown : Owes sid a (begin_shutdown s).owners
    unfolding begin_shutdown shutdown_all
    Owes-shutdown = elim (Bool-cases s.closed) [
      | inl shut ↦
          subst (Owes sid a) {x = s.owners} {y = (begin_shutdown s).owners} (ground arith) h
      | inr live ↦
          subst (Owes sid a) {x = (each_owner shutdown_section s.total s.owners).0}
            {y = (begin_shutdown s).owners} (ground arith)
            (Owes-each_owner shutdown_section (λ t e w le. shutdown_section-Keeps t e w le) s.total
              s.owners v.sound (omega (arith, v.counted)) sid a h)
    ]

-- Whoever owes a path still owes it after a step that does not end a completed synchronization of
-- its space, be it a cancellation, an overflow, a failure, a preemption or a shutdown.
pub Step-Owes :
    {s t : Scheduler} (st : Step s t) (sid : SpaceId) (a : String)
    → Inv s
    → pays sid st ≡ false
    → Owes sid a s.owners
    → Owes sid a t.owners
Step-Owes {s} (client k {e = e} {o = o} f c) sid a v p h =
    let sound = AllSound-find k {e = e} s.owners f v.sound in
    let le : size e ≤ s.total = omega (arith, v.counted, size-le-reserved k {e = e} s.owners f) in
    Owes-store k sid a e o.owner s.owners f (λ _. (Section-Keeps sound.well le c).debt_kept a) h
Step-Owes {s} (work k {e = e} {m = m} ph f w) sid a v p h =
    let sound = AllSound-find k {e = e} s.owners f v.sound in
    let le : size e ≤ s.total = omega (arith, v.counted, size-le-reserved k {e = e} s.owners f) in
    let moves = Work-Moves sound.well le (staged_of_turn k v ph f) w in
    Owes-store k sid a e m.outcome.owner s.owners f
      (λ same. moves.debt_kept (and_right (k == sid) (completes w) same p) a) h
Step-Owes {s} (finish k {e = e} ph f) sid a v p h =
    let q = finish_section-Finishes s.closed e in
    let d = finish_section s.closed e in
    Owes-store k sid a e d s.owners f
      (λ _ o.
        (λ i.
          (mem a (q.pending_kept i)
            || mem a (q.inflight_kept i)
            || mem a (vault_bridge.Base.Dict.keys (q.deferred_kept i)))
          || q.full_kept i)
        ∙ o)
      h
Step-Owes {s} (choose_next ph on) sid a v p h = Owes-select s sid a h
Step-Owes {s} (launch_worker startup r) sid a v p h = Owes-start s sid a h startup r
Step-Owes {s} (attach token r) sid a v p h = Owes-attach s sid a h token r
Step-Owes {s} (fence token sids) sid a v p h = Owes-fence s sid a h token sids
Step-Owes {s} (retire token) sid a v p h = Owes-retire s sid a h v token
Step-Owes {s} (detach token) sid a v p h = Owes-detach s sid a h v token
Step-Owes {s} shut_down sid a v p h = Owes-shutdown s sid a h v

-- No step of the run ends a completed synchronization of the space.
abbrev pub NeverPays : {s t : Scheduler} → SpaceId → Reach s t → Type 0
NeverPays sid here = Unit {0}
NeverPays sid (next r st) = NeverPays sid r × (pays sid st ≡ false)

-- In every run from a state with the invariant, a path that a space owes is owed at the end, unless
-- a synchronization of that space completed on the way.
pub Reach-Owes :
    {s t : Scheduler} (r : Reach s t) (sid : SpaceId) (a : String)
    → Inv s
    → NeverPays sid r
    → Owes sid a s.owners
    → Inv t × Owes sid a t.owners
Reach-Owes here sid a v n h = (v, h)
Reach-Owes (next r st) sid a v n h =
    let (u, owed) = Reach-Owes r sid a v n.0 h in (Step-Inv st u, Step-Owes st sid a u n.1 owed)

enqueue_admitted-owes :
    (total : ℕ) (e : Owner) (c : String)
    → owes (enqueue_admitted false c (admit false total e c)).owner c ≡ true
enqueue_admitted-owes total e c =
    let d = undefer c (record e { pending = insert c e.pending }) in
    let joins : owes (wake false d) c ≡ true =
      Quiet-owes (Quiet-wake false d) c (ground (arith, held-undefer c c e, str_eq_refl c)) in
    admit-cases false total e c (λ o. owes (enqueue_admitted false c o).owner c ≡ true) (λ m. joins)
      (λ m r q. joins)
      (Quiet-owes
        (Quiet-trans (Quiet-request_full (record e { full_needed = true }))
          (Quiet-wake false (request_full (record e { full_needed = true }))))
        c (ground arith))

-- While admission is open, `enqueue` leaves the owner owing the path: it holds it, or full debt
-- stands in for what did not fit.
pub enqueue_section-owes :
    (total : ℕ) (e : Owner) (c : String) → owes (enqueue_section false total e c).owner c ≡ true
unfolding enqueue_section
enqueue_section-owes total e c = elim (Bool-cases (mem c e.pending)) [
  | inl m ↦ rw m (Quiet-owes (Quiet-wake false e) c (ground arith))
  | inr m ↦ rw m (enqueue_admitted-owes total e c)
]
