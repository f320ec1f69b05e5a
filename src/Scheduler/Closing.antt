-- ===== src/Scheduler/Closing.antt =====
-- What `SharedSemanticScheduler` reports, and the end of its life: `status`, `pending_count`, `wait`,
-- `_close_owners` and `shutdown`. What the services and the executor answer are arguments.
use vault_bridge.Base.{
  ℕ, String, ◌≡◌, refl, Bool, true, false, not, ◌&&◌, ◌||◌, Option, none, some, List, [], ◌∷◌, ◌++◌,
  ◌+◌, leb, ltb, ◌==◌, arith, if◌then◌else◌, is_some,
}
use vault_bridge.Scheduler.State.{
  Binding, Result, ok, raise, invalid_scope, unavailable_space, new_owner, Owner, Scheduler,
  Outcome, SpaceId, SyncStep, identities, find,
}
use vault_bridge.Scheduler.Queue.{begin_shutdown, released, release_count}
use vault_bridge.Scheduler.Turn.{ready}

-- SchedulerStatus; the paths in no order
pub record SchedulerStatus : Type 0 where
  pub queued_paths : List String
  pub requires_full_sync : Bool
  pub running : Bool
  pub paused : Bool
  pub error_type : Option String
  pub progress : Option SyncStep
  pub monitoring_error_type : Option String
  pub active_watcher_callbacks : ℕ
  pub monitoring_recovering : Bool

-- status, for the owner that was looked up
unfoldable pub status_of : Scheduler → Owner → SchedulerStatus
status_of s e = record {
  queued_paths = identities e;
  requires_full_sync =
      e.full_needed
      || is_some e.monitoring_error_type
      || not (e.coverage_reconciled == e.coverage_revision)
      || ltb 0 e.watcher_callbacks && (s.closed || not s.watcher_accepting);
  running = e.running || is_some e.continuation;
  paused = e.paused;
  error_type = e.error_type;
  progress = e.progress;
  monitoring_error_type = e.monitoring_error_type;
  active_watcher_callbacks = e.watcher_callbacks;
  monitoring_recovering = not (e.coverage_reconciled == e.coverage_revision);
}

-- pending_count
abbrev pub pending_count : Scheduler → ℕ
pending_count s = s.total

-- the loop of `__init__` over the bindings; `count` of them have been seen, and `valid` stands for
-- the tests on the semantic owner and its shared resource
unfoldable pub bind :
    (Binding → Bool) → ℕ → List Binding → List (SpaceId × Owner) → Result (List (SpaceId × Owner))
unfolding find
bind valid count [] owners = ok owners
bind valid count (b ∷ bindings) owners =
    let skipped = bind valid (count + 1) bindings owners in
    let bound =
      bind valid (count + 1) bindings
        (owners ++ (b.space_id, new_owner b.owners_id b.registry_token) ∷ []) in
    if leb 8 count || not b.accepted
    then raise invalid_scope
    else if not (b.read_allowed && b.indexing_enabled)
    then skipped
    else if is_some (find b.space_id owners)
    then raise invalid_scope
    else if not (valid b)
    then raise unavailable_space
    else bound

-- the condition that `wait` waits for
unfoldable pub is_idle : List (SpaceId × Owner) → Bool
unfolding ready
is_idle [] = true
is_idle ((_, e) ∷ m) = not e.running && not (ready e) && is_idle m

-- What closing a service answers: whether an earlier cleanup failed, and whether this one raises.
pub record Closing : Type 0 where
  pub cleanup_failed : Bool
  pub raises : Bool

-- the body of the loop in `_close_owners`, for one owner
unfoldable pub close_owner : Bool → Closing → ℕ → Owner → Outcome
close_owner retry_failed c total e =
    let failed = (e.cleanup_failed || c.cleanup_failed) && not retry_failed || c.raises in
    if e.cleanup_complete then record { owner = e; count = total; answer = false } else record {
      owner = released (record e {
        cleanup_failed = failed;
        cleanup_complete = not failed;
        error_type = if failed then some "SynchronizationCleanupError" else e.error_type;
        continuation = if failed then e.continuation else none;
        running = false;
      });
      count = release_count total e;
      answer = true;
    }

-- _close_owners
unfoldable pub close_owners :
    Bool → (SpaceId → Closing) → ℕ → List (SpaceId × Owner) → List (SpaceId × Owner) × ℕ
unfolding close_owner
close_owners retry_failed answers total [] = ([], total)
close_owners retry_failed answers total ((sid, e) ∷ m) =
    let o = close_owner retry_failed (answers sid) total e in
    let (rest, count) = close_owners retry_failed answers o.count m in
    ((sid, o.owner) ∷ rest, count)

abbrev pub all_complete : List (SpaceId × Owner) → Bool
all_complete [] = true
all_complete ((_, e) ∷ m) = e.cleanup_complete && all_complete m

-- The fields of the scheduler that only `shutdown` uses.
pub record Lifetime : Type 0 where
  pub scheduler : Scheduler
  pub shutdown_started : Bool
  pub shutdown_complete : Bool
  pub executor_shutdown_complete : Bool

-- `shutdown` after the executor has stopped; the answer is false for the `RuntimeError`
abbrev pub close_all : Bool → (SpaceId → Closing) → Lifetime → Lifetime × Bool
close_all first answers l =
    let (owners, total) = close_owners (not first) answers l.scheduler.total l.scheduler.owners in
    let complete = all_complete owners in
    (
      record l {
        scheduler = record l.scheduler { owners = owners; total = total };
        shutdown_complete = complete;
        executor_shutdown_complete = true;
      },
      complete,
    )

-- shutdown; `stops` says that the executor stops, where there is one that has not
unfoldable pub shutdown : Bool → (SpaceId → Closing) → Lifetime → Lifetime × Bool
unfolding begin_shutdown close_owners
shutdown stops answers l =
    let fenced = record l { scheduler = begin_shutdown l.scheduler } in
    let begun = record fenced { shutdown_started = true } in
    if l.shutdown_complete
    then (fenced, true)
    else if not l.executor_shutdown_complete && l.scheduler.started && not stops
    then (begun, false)
    else close_all (not l.shutdown_started) answers begun

-- A retry closes what is left: when no service raises, every owner is complete after a pass that
-- retries failed cleanups; and no pass touches an owner that is complete.
pub close_owners_complete :
    (retry_failed : Bool) (answers : SpaceId → Closing) (total : ℕ) (m : List (SpaceId × Owner))
    → (retry_failed ≡ true
        → ((sid : SpaceId) → (answers sid).raises ≡ false)
        → all_complete (close_owners retry_failed answers total m).0 ≡ true)
      × ((sid : SpaceId) (e : Owner)
          → find sid m ≡ some e
          → e.cleanup_complete ≡ true
          → find sid (close_owners retry_failed answers total m).0 ≡ some e)
unfolding close_owners find
close_owners_complete retry answers total [] = (λ r q. refl, λ sid e h c. h)
close_owners_complete retry answers total ((j, d) ∷ m) =
    let o = close_owner retry (answers j) total d in
    let (done, kept) = close_owners_complete retry answers o.count m in
    (λ r q. ground (arith, done r q, q j), λ sid e h c. ground (arith, kept sid e))
