-- ===== src/Indexer.antt =====
-- The background indexer of one vault, `BackgroundSemanticIndexer` (app/services/indexer.py): a queue
-- of note paths, the flags of full synchronization, and one worker future. The code under the lock
-- is a section; the worker's `_run` is cut where it leaves the lock. Whether the executor takes a
-- job, and what a synchronization raises, are arguments. The log events are left out.
pub mod Wake
pub mod Work
mod Samples
use vault_bridge.Base.{
  ℕ, ◌+◌, String, Bool, true, false, not, ◌&&◌, ◌||◌, Option, none, some, List, [], ◌∷◌, leb, ltb,
  if◌then◌else◌, length, ◌≡◌,
}
use vault_bridge.Base.Sets.{minus, insert, union}

-- the two values of `operation` in `_run`
pub data Operation : Type 0 where
  full targeted : Operation

-- Where `_run` stands: at the top of the loop, in the synchronization of a batch, or on its way out
-- with the exception that it raises, if any.
pub data Stage : Type 0 where
  looping : Stage
  syncing : Operation → List String → Stage
  leaving : Option String → Stage

-- The future of `_run`: its stage, or its exception and whether `_record_completion` has seen it.
pub data Status : Type 0 where
  active : Stage → Status
  done : Option String → Bool → Status

pub record Future : Type 0 where
  pub serial : ℕ
  pub status : Status

-- BackgroundSemanticIndexer; `targets` says that `_sync_paths` is given.
pub record Indexer : Type 0 where
  pub targets : Bool
  pub submitted : ℕ
  pub future : Option Future
  pub cancel : Bool
  pub last_error : Option String
  pub full_sync_requested : Bool
  pub full_sync_required : Bool
  pub pending_paths : List String
  pub follow_up_requested : Bool
  pub closed : Bool

-- __init__
abbrev pub new_indexer : Bool → Indexer
new_indexer targets = record {
  targets = targets;
  submitted = 0;
  future = none;
  cancel = false;
  last_error = none;
  full_sync_requested = false;
  full_sync_required = false;
  pending_paths = [];
  follow_up_requested = false;
  closed = false;
}

-- `self._future is not None and not self._future.done()`
abbrev pub is_running : Option Future → Bool
is_running none = false
is_running (some f) = elim f.status [ active _ ↦ true | done _ _ ↦ false ]

abbrev pub unless_done : Option Future → Option Future
unless_done none = none
unless_done (some f) = elim f.status [ active _ ↦ some f | done _ _ ↦ none ]

-- what the executor's `submit` raises, if anything, and whether there is a future
abbrev pub accepted : Option String → Bool
accepted none = true
accepted (some _) = false

-- _submit_locked
unfoldable pub submit : Option String → Indexer → Indexer
submit none s = record s {
  cancel = false;
  last_error = none;
  future = some (record { serial = s.submitted; status = active looping });
  submitted = s.submitted + 1;
}
submit (some error) s = record s {
  cancel = false;
  last_error = some error;
  future = unless_done s.future;
}

-- start, under the lock; `none` is the `RuntimeError`
unfoldable pub start_section : Option String → Indexer → Option (Indexer × Bool)
unfolding submit
start_section raised s =
    if s.closed
    then none
    else if is_running s.future
    then some (s, false)
    else some (submit raised (record s { full_sync_requested = true }), accepted raised)

-- enqueue_paths, under the lock, with the set of normalized paths
unfoldable pub enqueue_section : Option String → Bool → List String → Indexer → Indexer × ℕ
unfolding submit
enqueue_section raised require_submission paths s =
    let added = length (minus paths s.pending_paths) in
    let queued = record s { pending_paths = union s.pending_paths paths } in
    if s.closed
    then (s, 0)
    else if is_running s.future
    then (record queued { follow_up_requested = true }, added)
    else (submit raised queued, if require_submission && not (accepted raised) then 0 else added)

-- the loop over the paths, and the early return; `normalize` stands for `_normalize_path`, and
-- `none` for its `ValueError`
abbrev pub normalized_set : (String → Option String) → List String → Option (List String)
normalized_set normalize [] = some []
normalized_set normalize (path ∷ paths) = elim (normalize path) [
  | none ↦ none
  | some p ↦ elim (normalized_set normalize paths) [ none ↦ none | some set ↦ some (insert p set) ]
]

-- enqueue_paths
unfoldable pub enqueue_paths :
    (String → Option String) → Option String → Bool → List String → Indexer → Option (Indexer × ℕ)
unfolding enqueue_section
enqueue_paths normalize raised require_submission paths s = elim (normalized_set normalize paths) [
  | none ↦ none
  | some set ↦
      if leb 1 (length set)
      then some (enqueue_section raised require_submission set s)
      else some (s, 0)
]

-- enqueue
unfoldable pub enqueue_path :
    (String → Option String) → Option String → String → Indexer → Option (Indexer × Bool)
unfolding enqueue_paths
enqueue_path normalize raised path s = elim (enqueue_paths normalize raised false (path ∷ []) s) [
  | none ↦ none
  | some (t, added) ↦ some (t, ltb 0 added)
]

-- The future with the same serial number at another stage.
abbrev pub at : Status → Option Future → Option Future
at status none = none
at status (some f) = some (record f { status = status })

-- `full_sync_requested or full_sync_required`
abbrev pub requires_full_sync : Indexer → Bool
requires_full_sync s = s.full_sync_required || s.full_sync_requested

abbrev pub has_work : Indexer → Bool
has_work s = requires_full_sync s || leb 1 (length s.pending_paths)

abbrev pub take_batch : Operation → Indexer → Indexer
take_batch operation s = record s {
  pending_paths = [];
  follow_up_requested = false;
  future = at (active (syncing operation s.pending_paths)) s.future;
}

abbrev pub leave : Option String → Indexer → Indexer
leave raised s = record s { future = at (active (leaving raised)) s.future }

-- The section at the top of the loop of `_run`.
unfoldable pub run_section : Indexer → Indexer
run_section s =
    if s.closed
    then leave none s
    else if requires_full_sync s
    then take_batch full (record s { full_sync_requested = false; full_sync_required = true })
    else if leb 1 (length s.pending_paths)
    then (if s.targets
        then take_batch targeted s
        else take_batch full (record s { full_sync_required = true }))
    else leave none s

-- The synchronization of a batch returned, or raised; the section after it.
unfoldable pub synced_section : Option String → Operation → List String → Indexer → Indexer
synced_section none full paths s = record s {
  full_sync_required = false;
  future = at (active looping) s.future;
}
synced_section none targeted paths s = record s { future = at (active looping) s.future }
synced_section (some error) operation paths s =
    leave (some error)
      (if s.closed then s else record s { pending_paths = union s.pending_paths paths })

-- `_run` returns or raises: the future is done, and its callback is due.
abbrev pub finish : Option String → Indexer → Indexer
finish raised s = record s { future = at (done raised false) s.future }

-- _record_completion, under the lock, for the current future; for an older one it changes nothing
unfoldable pub completion_section : Option String → Option String → Indexer → Indexer
unfolding submit
completion_section raised none s =
    let seen = record s { future = at (done none true) s.future } in
    if not s.closed && has_work s then submit raised seen else seen
completion_section raised (some error) s =
    let seen = record s {
      future = at (done (some error) true) s.future;
      last_error = some error;
    } in
    if not s.closed && s.follow_up_requested then submit raised seen else seen

-- wait, under the lock, after the result of the current future came without an exception
unfoldable pub wait_section : Option String → Indexer → Indexer
unfolding submit
wait_section raised s = if not s.closed && has_work s then submit raised s else s

-- shutdown, under the lock
unfoldable pub shutdown_section : Indexer → Indexer
shutdown_section s = if s.closed then s else record s {
  closed = true;
  cancel = true;
  full_sync_requested = false;
  follow_up_requested = false;
  pending_paths = [];
}

-- the future is at this status
abbrev pub IsAt : Status → Indexer → Type 0
IsAt status s = (n : ℕ) × (s.future ≡ some (record { serial = n; status = status }))

-- One section of any thread.
pub data Event (s : Indexer) : Indexer → Type 0 where
  start :
      (raised : Option String) {t : Indexer} {b : Bool}
      → start_section raised s ≡ some (t, b)
      → Event s t
  enqueue :
      (raised : Option String) (require_submission : Bool) (paths : List String)
      → Event s (enqueue_section raised require_submission paths s).0
  run : IsAt (active looping) s → Event s (run_section s)
  synced :
      (raised : Option String) {operation : Operation} {paths : List String}
      → IsAt (active (syncing operation paths)) s
      → Event s (synced_section raised operation paths s)
  finished : {raised : Option String} → IsAt (active (leaving raised)) s → Event s (finish raised s)
  completed :
      (raised : Option String) {error : Option String}
      → IsAt (done error false) s
      → Event s (completion_section raised error s)
  waited :
      (raised : Option String) {seen : Bool}
      → IsAt (done none seen) s
      → Event s (wait_section raised s)
  shut_down : Event s (shutdown_section s)
  -- shutdown cancels a job that has not started
  cancelled : s.closed ≡ true → IsAt (active looping) s → Event s (finish (some "CancelledError") s)

pub data Trace (s : Indexer) : Indexer → Type 0 where
  begin : Trace s s
  after : {t u : Indexer} → Trace s t → Event t u → Trace s u
