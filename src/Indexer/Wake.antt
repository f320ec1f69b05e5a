-- ===== src/Indexer/Wake.antt =====
-- No lost wake-up in the background indexer (app/services/indexer.py), and one worker at a time.
use vault_bridge.Base.{
  ℕ, ◌≡◌, ◌≢◌, refl, Bool, true, false, not, ◌||◌, Option, none, some, String, arith, is_some, List,
}
use vault_bridge.Base.Sets.{union}
use vault_bridge.Indexer.{
  Status, Future, Indexer, Event, Trace, Operation, active, done, Stage, looping, syncing, leaving,
  at, finish, submit, start_section, enqueue_section, run_section, synced_section,
  completion_section, wait_section, shutdown_section, is_running, has_work, start, enqueue, run,
  synced, finished, completed, waited, shut_down, cancelled, begin, after, full, targeted,
}

-- A worker runs, or its completion callback is due.
abbrev pub is_attended : Option Future → Bool
is_attended none = false
is_attended (some f) = elim f.status [ active _ ↦ true | done _ seen ↦ not seen ]

-- Work is attended to, or an error says why it is not.
abbrev pub is_awake : Indexer → Bool
is_awake s = is_attended s.future || is_some s.last_error

abbrev pub IsAwake : Indexer → Type 0
IsAwake s = s.closed ≡ false → has_work s ≡ true → is_awake s ≡ true

submit-awake : (raised : Option String) (s : Indexer) → is_awake (submit raised s) ≡ true
unfolding submit
submit-awake none s = refl
submit-awake (some error) s = ground arith

running-awake : (s : Indexer) → is_running s.future ≡ true → is_awake s ≡ true
running-awake s h = ground arith

at-running :
    (stage : Stage) (o : Option Future)
    → is_running o ≡ true
    → is_running (at (active stage) o) ≡ true
at-running stage none h = h
at-running stage (some f) h = refl

run-running : (s : Indexer) → is_running s.future ≡ true → is_running (run_section s).future ≡ true
unfolding run_section
run-running s h = ground (
  arith,
  at-running (leaving none) s.future,
  at-running (syncing full s.pending_paths) s.future,
  at-running (syncing targeted s.pending_paths) s.future,
)

synced-running :
    (raised : Option String) (operation : Operation) (paths : List String) (s : Indexer)
    → is_running s.future ≡ true
    → is_running (synced_section raised operation paths s).future ≡ true
unfolding synced_section
synced-running none full paths s h = at-running looping s.future h
synced-running none targeted paths s h = at-running looping s.future h
synced-running (some error) operation paths s h =
    ground (arith, at-running (leaving (some error)) s.future h)

start-IsAwake :
    (raised : Option String) (s : Indexer) {t : Indexer} {b : Bool}
    → start_section raised s ≡ some (t, b)
    → IsAwake t
unfolding start_section
start-IsAwake raised s e c h =
    ground (arith, submit-awake raised (record s { full_sync_requested = true }))

enqueue-IsAwake :
    (raised : Option String) (r : Bool) (paths : List String) (s : Indexer)
    → IsAwake (enqueue_section raised r paths s).0
unfolding enqueue_section
enqueue-IsAwake raised r paths s c h =
    ground (arith, submit-awake raised (record s { pending_paths = union s.pending_paths paths }))

completion-IsAwake :
    (raised error : Option String) (s : Indexer) → IsAwake (completion_section raised error s)
unfolding completion_section
completion-IsAwake raised none s c h =
    ground (arith, submit-awake raised (record s { future = at (done none true) s.future }))
completion-IsAwake raised (some error) s c h = ground (
  arith,
  submit-awake raised
      (record s { future = at (done (some error) true) s.future; last_error = some error }),
)

finish-attended :
    (raised : Option String) (s : Indexer)
    → is_running s.future ≡ true
    → is_attended (finish raised s).future ≡ true
finish-attended raised s h = ground arith

wait-IsAwake : (raised : Option String) (s : Indexer) → IsAwake (wait_section raised s)
unfolding wait_section
wait-IsAwake raised s c h = ground (arith, submit-awake raised s)

shutdown-closed : (s : Indexer) → (shutdown_section s).closed ≢ false
unfolding shutdown_section
shutdown-closed s c = ground arith

Event-IsAwake : {s t : Indexer} → Event s t → IsAwake s → IsAwake t
Event-IsAwake (start raised h) v c w = start-IsAwake raised _ h c w
Event-IsAwake {s} (enqueue raised r paths) v c w = enqueue-IsAwake raised r paths s c w
Event-IsAwake {s} (run (n, h)) v c w = running-awake (run_section s) (run-running s (ground arith))
Event-IsAwake {s} (synced raised {operation = o} {paths = p} (n, h)) v c w =
    running-awake (synced_section raised o p s) (synced-running raised o p s (ground arith))
Event-IsAwake {s} (finished {raised = r} (n, h)) v c w = ground (arith, finish-attended r s)
Event-IsAwake {s} (completed raised {error = e} (n, h)) v c w = completion-IsAwake raised e s c w
Event-IsAwake {s} (waited raised (n, h)) v c w = wait-IsAwake raised s c w
Event-IsAwake {s} shut_down v c w = absurd (shutdown-closed s c)
Event-IsAwake {s} (cancelled k (n, h)) v c w =
    ground (arith, finish-attended (some "CancelledError") s)

-- No wake-up is lost: in every run of the indexer, while it is open and has work (a queued path, or a
-- full synchronization that is asked for or required), a worker runs, or its completion callback is
-- due, or the last error says why the work waits.
pub Trace-IsAwake : {s t : Indexer} → Trace s t → IsAwake s → IsAwake t
Trace-IsAwake begin v = v
Trace-IsAwake (after r e) v = Event-IsAwake e (Trace-IsAwake r v)

abbrev pub serial_of : Option Future → Option ℕ
serial_of none = none
serial_of (some f) = some f.serial

at-serial : (st : Status) (o : Option Future) → serial_of (at st o) ≡ serial_of o
at-serial st none = refl
at-serial st (some f) = refl

synced-serial :
    (raised : Option String) (operation : Operation) (paths : List String) (s : Indexer)
    → serial_of (synced_section raised operation paths s).future ≡ serial_of s.future
unfolding synced_section
synced-serial none full paths s = at-serial (active looping) s.future
synced-serial none targeted paths s = at-serial (active looping) s.future
synced-serial (some error) operation paths s =
    ground (arith, at-serial (active (leaving (some error))) s.future)

-- There is one worker at a time: while a submitted job is not done, no event of any thread puts
-- another job in its place.
pub Event-serial :
    {s t : Indexer}
    → Event s t
    → is_running s.future ≡ true
    → serial_of t.future ≡ serial_of s.future
unfolding start_section enqueue_section run_section shutdown_section
Event-serial (start raised h) k = ground arith
Event-serial {s} (enqueue raised r paths) k = ground arith
Event-serial {s} (run (n, h)) k = ground (
  arith,
  at-serial (active (leaving none)) s.future,
  at-serial (active (syncing full s.pending_paths)) s.future,
  at-serial (active (syncing targeted s.pending_paths)) s.future,
)
Event-serial {s} (synced raised {operation = o} {paths = p} (n, h)) k = synced-serial raised o p s
Event-serial {s} (finished {raised = r} (n, h)) k = at-serial (done r false) s.future
Event-serial {s} (completed raised {error = e} (n, h)) k = absurd (ground arith)
Event-serial {s} (waited raised (n, h)) k = absurd (ground arith)
Event-serial {s} shut_down k = ground arith
Event-serial {s} (cancelled c (n, h)) k = at-serial (done (some "CancelledError") false) s.future
