-- ===== src/Indexer/Work.antt =====
-- The background indexer (app/services/indexer.py) loses no accepted work: queued paths and the debt
-- of a full synchronization.
use vault_bridge.Base.{
  ◌+◌, ◌≡◌, refl, Bool, true, false, ◌&&◌, ◌||◌, Option, none, some, String, arith, List, length,
  length-append, Bool-cases, inl, inr,
}
use vault_bridge.Base.Sets.{mem, minus, union, mem-union}
use vault_bridge.Indexer.{
  Future, Indexer, Event, Trace, Operation, active, done, looping, syncing, IsAt, at, submit,
  start_section, enqueue_section, run_section, synced_section, completion_section, wait_section,
  is_running, requires_full_sync, start, enqueue, run, synced, finished, completed, waited,
  shut_down, cancelled, begin, after, full, targeted, accepted, unless_done,
}

-- The worker holds the path in the batch that it synchronizes.
abbrev pub in_batch : String → Option Future → Bool
in_batch a none = false
in_batch a (some f) = elim f.status [ active (syncing o paths) ↦ mem a paths | _ ↦ false ]

abbrev pub owes : String → Indexer → Bool
owes a s = mem a s.pending_paths || in_batch a s.future

-- The event ends the debt of the path: a synchronization of a batch with it returned, or shutdown
-- drops the queue.
abbrev pub settles : {s t : Indexer} → String → Event s t → Bool
settles a (synced none {paths = paths} _) = mem a paths
settles a shut_down = true
settles a _ = false

abbrev pub NeverSettles : {s t : Indexer} → String → Trace s t → Type 0
NeverSettles a begin = Unit {0}
NeverSettles a (after r e) = NeverSettles a r × (settles a e ≡ false)

unless_done-batch : (a : String) (o : Option Future) → in_batch a (unless_done o) ≡ in_batch a o
unless_done-batch a none = refl
unless_done-batch a (some f) = ground arith

submit-owes :
    (a : String) (raised : Option String) (s : Indexer)
    → is_running s.future ≡ false
    → owes a s ≡ true
    → owes a (submit raised s) ≡ true
unfolding submit
submit-owes a none s i h = ground arith
submit-owes a (some error) s i h = ground (arith, unless_done-batch a s.future)

synced-owes :
    (a : String) (raised : Option String) (o : Operation) (paths : List String) (s : Indexer)
    → IsAt (active (syncing o paths)) s
    → s.closed ≡ false
    → accepted raised && mem a paths ≡ false
    → owes a s ≡ true
    → owes a (synced_section raised o paths s) ≡ true
unfolding synced_section
synced-owes a none full paths s (n, e) c k h = ground arith
synced-owes a none targeted paths s (n, e) c k h = ground arith
synced-owes a (some error) o paths s (n, e) c k h =
    ground (arith, mem-union a s.pending_paths paths)

run-owes :
    (a : String) (s : Indexer)
    → IsAt (active looping) s
    → s.closed ≡ false
    → owes a s ≡ true
    → owes a (run_section s) ≡ true
unfolding run_section
run-owes a s (n, e) c h = ground arith

start-owes :
    (a : String) (raised : Option String) (s : Indexer) {t : Indexer} {b : Bool}
    → start_section raised s ≡ some (t, b)
    → owes a s ≡ true
    → owes a t ≡ true
unfolding start_section
start-owes a raised s e h =
    ground (arith, submit-owes a raised (record s { full_sync_requested = true }))

enqueue-owes :
    (a : String) (raised : Option String) (r : Bool) (paths : List String) (s : Indexer)
    → owes a s ≡ true
    → owes a (enqueue_section raised r paths s).0 ≡ true
unfolding enqueue_section
enqueue-owes a raised r paths s h = ground (
  arith,
  mem-union a s.pending_paths paths,
  submit-owes a raised (record s { pending_paths = union s.pending_paths paths }),
)

completion-owes :
    (a : String) (raised error : Option String) (s : Indexer)
    → IsAt (done error false) s
    → owes a s ≡ true
    → owes a (completion_section raised error s) ≡ true
unfolding completion_section
completion-owes a raised none s (n, e) h =
    ground (arith, submit-owes a raised (record s { future = at (done none true) s.future }))
completion-owes a raised (some error) s (n, e) h = ground (
  arith,
  submit-owes a raised
      (record s { future = at (done (some error) true) s.future; last_error = some error }),
)

wait-owes :
    (a : String) (raised : Option String) {seen : Bool} (s : Indexer)
    → IsAt (done none seen) s
    → owes a s ≡ true
    → owes a (wait_section raised s) ≡ true
unfolding wait_section
wait-owes a raised s (n, e) h = ground (arith, submit-owes a raised s)

Event-owes :
    {s t : Indexer} (e : Event s t) (a : String)
    → s.closed ≡ false
    → settles a e ≡ false
    → owes a s ≡ true
    → owes a t ≡ true
Event-owes {s} (start raised e) a c k h = start-owes a raised s e h
Event-owes {s} (enqueue raised r paths) a c k h = enqueue-owes a raised r paths s h
Event-owes {s} (run i) a c k h = run-owes a s i c h
Event-owes {s} (synced none {operation = o} {paths = p} i) a c k h =
    synced-owes a none o p s i c k h
Event-owes {s} (synced (some x) {operation = o} {paths = p} i) a c k h =
    synced-owes a (some x) o p s i c refl h
Event-owes {s} (finished (n, e)) a c k h = ground arith
Event-owes {s} (completed raised {error = x} i) a c k h = completion-owes a raised x s i h
Event-owes {s} (waited raised i) a c k h = wait-owes a raised s i h
Event-owes {s} shut_down a c k h = absurd (ground arith)
Event-owes {s} (cancelled j (n, e)) a c k h = ground arith

submit-closed : (raised : Option String) (s : Indexer) → (submit raised s).closed ≡ s.closed
unfolding submit
submit-closed none s = refl
submit-closed (some e) s = refl

submit-full :
    (raised : Option String) (s : Indexer)
    → requires_full_sync (submit raised s) ≡ requires_full_sync s
unfolding submit
submit-full none s = refl
submit-full (some e) s = refl

Event-open :
    {s t : Indexer} (e : Event s t) (a : String)
    → s.closed ≡ false
    → settles a e ≡ false
    → t.closed ≡ false
unfolding submit start_section enqueue_section run_section synced_section completion_section
    wait_section
Event-open {s} (start raised e) a c k =
    ground (arith, submit-closed raised (record s { full_sync_requested = true }))
Event-open {s} (enqueue raised r paths) a c k =
    ground (arith, submit-closed raised (record s { pending_paths = union s.pending_paths paths }))
Event-open (run i) a c k = ground arith
Event-open (synced none {operation = full} i) a c k = c
Event-open (synced none {operation = targeted} i) a c k = c
Event-open (synced (some x) i) a c k = ground arith
Event-open (finished i) a c k = c
Event-open {s} (completed raised {error = none} i) a c k =
    ground (arith, submit-closed raised (record s { future = at (done none true) s.future }))
Event-open {s} (completed raised {error = some x} i) a c k = ground (
  arith,
  submit-closed raised
      (record s { future = at (done (some x) true) s.future; last_error = some x }),
)
Event-open {s} (waited raised i) a c k = ground (arith, submit-closed raised s)
Event-open shut_down a c k = absurd (ground arith)
Event-open (cancelled j i) a c k = c

-- No accepted path is lost: in every run of an open indexer, a path that is queued or in the batch of
-- the worker stays so, through failures of synchronizations and of submissions, until a
-- synchronization of a batch with it returns or the indexer is shut down.
pub Trace-owes :
    {s t : Indexer} (r : Trace s t) (a : String)
    → s.closed ≡ false
    → NeverSettles a r
    → owes a s ≡ true
    → (t.closed ≡ false) × (owes a t ≡ true)
Trace-owes begin a c n h = (c, h)
Trace-owes (after r e) a c n h =
    let (open_still, owed) = Trace-owes r a c n.0 h in
    (Event-open e a open_still n.1, Event-owes e a open_still n.1 owed)

-- The event ends the debt of a full synchronization.
abbrev pub settles_full : {s t : Indexer} → Event s t → Bool
settles_full (synced none {operation = full} _) = true
settles_full shut_down = true
settles_full _ = false

-- A full synchronization that is asked for or required stays so, through failures, until a full one
-- returns or the indexer is shut down.
pub Event-requires_full :
    {s t : Indexer} (e : Event s t)
    → settles_full e ≡ false
    → requires_full_sync s ≡ true
    → requires_full_sync t ≡ true
unfolding start_section enqueue_section run_section synced_section completion_section wait_section
Event-requires_full {s} (start raised e) k h =
    ground (arith, submit-full raised (record s { full_sync_requested = true }))
Event-requires_full {s} (enqueue raised r paths) k h =
    ground (arith, submit-full raised (record s { pending_paths = union s.pending_paths paths }))
Event-requires_full (run i) k h = ground arith
Event-requires_full (synced none {operation = full} i) k h = absurd (ground arith)
Event-requires_full (synced none {operation = targeted} i) k h = h
Event-requires_full (synced (some x) i) k h = ground arith
Event-requires_full (finished i) k h = h
Event-requires_full {s} (completed raised {error = none} i) k h =
    ground (arith, submit-full raised (record s { future = at (done none true) s.future }))
Event-requires_full {s} (completed raised {error = some x} i) k h = ground (
  arith,
  submit-full raised (record s { future = at (done (some x) true) s.future; last_error = some x }),
)
Event-requires_full {s} (waited raised i) k h = ground (arith, submit-full raised s)
Event-requires_full shut_down k h = absurd (ground arith)
Event-requires_full (cancelled j i) k h = h

length-union : (xs ys : List String) → length (union xs ys) ≡ length xs + length (minus ys xs)
length-union xs ys = length-append xs (minus ys xs)

submit-pending :
    (raised : Option String) (s : Indexer) → (submit raised s).pending_paths ≡ s.pending_paths
unfolding submit
submit-pending none s = refl
submit-pending (some e) s = refl

-- While the indexer is open, `enqueue_paths` queues exactly its paths beside the queued ones, also
-- when a worker runs or the submission fails, and it answers how many of them are new.
pub enqueue_section-queues :
    (raised : Option String) (paths : List String) (s : Indexer)
    → s.closed ≡ false
    → ((a : String)
        → mem a (enqueue_section raised false paths s).0.pending_paths
          ≡ (mem a s.pending_paths || mem a paths))
      × (length (enqueue_section raised false paths s).0.pending_paths
          ≡ length s.pending_paths + (enqueue_section raised false paths s).1)
unfolding enqueue_section
enqueue_section-queues raised paths s c =
    let queued : Indexer = record s { pending_paths = union s.pending_paths paths } in
    let same = submit-pending raised queued in
    elim (Bool-cases (is_running s.future)) [
      | inl i ↦ (
        λ a. ground (arith, mem-union a s.pending_paths paths),
        ground (arith, length-union s.pending_paths paths),
      )
      | inr i ↦ (
        λ a. ground (arith, mem-union a s.pending_paths paths, same),
        ground (arith, length-union s.pending_paths paths, same),
      )
    ]
