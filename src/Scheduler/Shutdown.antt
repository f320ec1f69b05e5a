-- ===== src/Scheduler/Shutdown.antt =====
-- After `begin_shutdown` nothing is admitted any more, and the count only falls.
use vault_bridge.Base.{
  ℕ, ◌≤◌, String, ◌≡◌, ◌∙◌, ap, sym, refl, inl, inr, Bool, true, false, Option, some, [], ◌∷◌,
  arith, is_some, Option-cases,
}
use vault_bridge.Base.Sets.{mem}
use vault_bridge.Scheduler.State.{Owner, Scheduler, Outcome, SpaceId, ok, find, identities}
use vault_bridge.Scheduler.Queue.{
  enqueue_section, debounce_section, deliver_section, cancel_section, request_section,
  retry_section, retire_section, shutdown_section, retire_all, shutdown_all, begin_shutdown, start,
  each_owner,
}
use vault_bridge.Scheduler.Monitor.{
  fence_watcher, attach_watcher, retire_watcher_work, detach_watcher,
}
use vault_bridge.Scheduler.Turn.{select}
use vault_bridge.Scheduler.Keeps.{size}
use vault_bridge.Scheduler.Drops.{
  retire-count, debounce_failed-count, shutdown_section-Keeps, held_inflight, pos_of_mem,
}
use vault_bridge.Scheduler.Count.{IsWell, held, mem-identities}
use vault_bridge.Scheduler.Table.{
  Owners, size-le-reserved, AllSound, AllSound-find, find-each_owner, find-each_owner_none,
}
use vault_bridge.Scheduler.Steps.{
  Section, enqueue, debounce, debounce_failed, deliver, request, retry, cancel, loss, failed, gap,
  restored, reconstructed, Step, client, work, finish, choose_next, launch_worker, attach, fence,
  retire, detach, shut_down,
}
use vault_bridge.Scheduler.Invariant.{Inv}
use vault_bridge.Scheduler.Safety.{Work-Moves, staged_of_turn}

delivered :
    (attached : Bool) (total : ℕ) (e : Owner) (path canonical : String) (deadline : ℕ) {o : Outcome}
    → attached ≡ false
    → deliver_section attached total e path canonical deadline ≡ ok o
    → o.count ≤ total
unfolding deliver_section
delivered attached total e path canonical deadline {o} c r =
    let same : o ≡ record { owner = e; count = total; answer = false } = ground arith in
    omega (arith, ap (λ (x : Outcome). x.count) same)

-- Under a closed scheduler no section of a client or of the watcher raises the count.
Section-closed :
    {s : Scheduler} {e : Owner} {o : Outcome}
    → s.closed ≡ true
    → IsWell e
    → Section s e o
    → o.count ≤ s.total
unfolding enqueue_section debounce_section request_section retry_section cancel_section
Section-closed {s} {e} c w (enqueue p) = rw c (omega arith)
Section-closed {s} {e} c w (debounce token revision deadline p) = ground arith
Section-closed {s} {e} c w (debounce_failed path deadline) =
    debounce_failed-count s.total e w s.closed path deadline
Section-closed {s} {e} c w (deliver token path canonical deadline r) =
    delivered _ s.total e path canonical deadline (rw c refl) r
Section-closed {s} {e} c w request = rw c (omega arith)
Section-closed {s} {e} c w retry = ground arith
Section-closed {s} {e} c w cancel = omega arith
Section-closed {s} {e} c w loss = omega arith
Section-closed {s} {e} c w (failed error_type) = omega arith
Section-closed {s} {e} c w (gap token reconcile) = omega arith
Section-closed {s} {e} c w (restored token ticket) = omega arith
Section-closed {s} {e} c w (reconstructed token revision failure_revision coverage_revision) =
    omega arith

each_owner-count :
    (f : ℕ → Owner → Outcome)
    → ((total : ℕ) (e : Owner) → IsWell e → (f total e).count ≤ total)
    → (total : ℕ) (m : Owners) → AllSound m
    → (each_owner f total m).1 ≤ total
unfolding each_owner
each_owner-count f less total [] a = omega arith
each_owner-count f less total ((sid, e) ∷ m) a =
    omega (arith, each_owner-count f less (f total e).count m a.1, less total e a.0.well)

retire_watcher_work-count :
    (token : ℕ) (s : Scheduler)
    → Inv s
    → ((retire_watcher_work token s).closed ≡ s.closed)
      × ((retire_watcher_work token s).total ≤ s.total)
unfolding retire_watcher_work retire_all
retire_watcher_work-count token s v =
    ground (arith, each_owner-count retire_section retire-count s.total s.owners v.sound)

-- Once the scheduler is closed it stays closed, and no step of any thread raises the number of
-- reserved paths.
pub Step-closed :
    {s t : Scheduler} → Step s t → Inv s → s.closed ≡ true → (t.closed ≡ true) × (t.total ≤ s.total)
unfolding select start attach_watcher fence_watcher detach_watcher begin_shutdown
Step-closed {s} (client sid {e = e} f k) v c =
    (c, Section-closed c (AllSound-find sid {e = e} s.owners f v.sound).well k)
Step-closed {s} (work sid {e = e} {m = m} ph f k) v c =
    let sound = AllSound-find sid {e = e} s.owners f v.sound in
    let le : size e ≤ s.total = omega (arith, v.counted, size-le-reserved sid {e = e} s.owners f) in
    let moves = Work-Moves sound.well le (staged_of_turn sid v ph f) k in
    (c, omega (arith, moves.balance, moves.shrinks))
Step-closed (finish sid ph f) v c = (c, omega arith)
Step-closed (choose_next ph on) v c = ground arith
Step-closed (launch_worker startup h) v c = ground arith
Step-closed (attach token h) v c = ground arith
Step-closed {s} (fence token sids) v c = ground arith
Step-closed {s} (retire token) v c = ground (arith, retire_watcher_work-count token s v)
Step-closed {s} (detach token) v c = ground (arith, retire_watcher_work-count token s v)
Step-closed shut_down v c = ground arith

shutdown_owes :
    (t : ℕ) (e : Owner) (a : String)
    → held e a ≡ true
    → (shutdown_section t e).owner.full_needed ≡ true
unfolding shutdown_section
shutdown_owes t e a h = ground (arith, mem-identities a e, pos_of_mem a (identities e))

-- `begin_shutdown` cancels and pauses every owner and drops what is queued or deferred: an owner
-- then holds exactly the paths in flight, and asks for full synchronization if it held any path.
pub begin_shutdown-drains :
    (s : Scheduler) (sid : SpaceId) (d : Owner)
    → Inv s
    → s.closed ≡ false
    → find sid (begin_shutdown s).owners ≡ some d
    → (e : Owner) × (find sid s.owners ≡ some e)
      × (d.cancel ≡ true)
      × (d.paused ≡ true)
      × ((a : String) → held d a ≡ mem a e.inflight)
      × ((a : String) → held e a ≡ true → d.full_needed ≡ true)
unfolding begin_shutdown shutdown_all
begin_shutdown-drains s sid d v c g =
    let g' : find sid (each_owner shutdown_section s.total s.owners).0 ≡ some d = ground arith in
    let there : is_some (find sid s.owners) ≡ true =
      sym (find-each_owner_none shutdown_section s.total s.owners sid)
      ∙ ap (λ (x : Option Owner). is_some x) g' in
    elim (Option-cases (find sid s.owners)) [
      | inl gone ↦ absurd (ground arith)
      | inr (e, f) ↦
          let w = (AllSound-find sid {e = e} s.owners f v.sound).well in
          let (t, le, found) =
            find-each_owner shutdown_section (λ n o u k. shutdown_section-Keeps n o u k) s.total
              s.owners v.sound (omega (arith, v.counted)) sid {e = e} f in
          let same : (shutdown_section t e).owner ≡ d = ground (arith, found, g') in
          (
            e,
            f,
            ap (λ (x : Owner). x.cancel) (sym same) ∙ (unfold shutdown_section in refl),
            ap (λ (x : Owner). x.paused) (sym same) ∙ (unfold shutdown_section in refl),
            (λ a.
                ap (λ (x : Owner). held x a) (sym same)
                ∙ (unfold shutdown_section in
                    held_inflight e (shutdown_section t e).owner w refl refl refl a)),
            (λ a h. ap (λ (x : Owner). x.full_needed) (sym same) ∙ shutdown_owes t e a h),
          )
    ]
