-- ===== src/Scheduler/Turn.antt =====
-- The worker: selection in rotation, and `_turn` as the sections between which other threads may
-- run. What the semantic service answers, and whether it raises, is an argument of each stage.
use vault_bridge.Base.{
  ℕ, ◌+◌, ◌-◌, String, Bool, true, false, not, ◌&&◌, ◌||◌, Option, none, some, List, [], ◌∷◌, ltb,
  leb, ◌==◌, if◌then◌else◌, is_some, length,
}
use vault_bridge.Scheduler.State.{
  Owner, Scheduler, Outcome, SpaceId, Stage, SyncContinuation, SyncStep, starting, checked,
  preempting, opening, beginning, stepping, failing, finishing, turn, incomplete, complete, find,
  store, identities,
}
use vault_bridge.Scheduler.Queue.{wake, released, release_count}
use vault_bridge.Scheduler.Monitor.{can_reconcile}

-- _ready
unfoldable pub ready : Owner → Bool
ready e =
    is_some e.continuation && e.cancel
    || not e.paused && (is_some e.continuation || e.full_needed || leb 1 (length e.pending))

-- sorted(...)
unfoldable pub insert_sorted : SpaceId → List SpaceId → List SpaceId
insert_sorted a [] = a ∷ []
insert_sorted a (b ∷ l) = if leb a b then a ∷ b ∷ l else b ∷ insert_sorted a l

unfoldable pub ready_ids : List (SpaceId × Owner) → List SpaceId
unfolding ready insert_sorted
ready_ids [] = []
ready_ids ((sid, e) ∷ m) =
    let rest = ready_ids m in if ready e then insert_sorted sid rest else rest

-- `next(sid in ready if last is None or sid > last)`
unfoldable pub first_after : Option SpaceId → List SpaceId → Option SpaceId
first_after last [] = none
first_after none (a ∷ l) = some a
first_after (some b) (a ∷ l) = if ltb b a then some a else first_after (some b) l

abbrev pub or_first : Option SpaceId → List SpaceId → Option SpaceId
or_first (some a) l = some a
or_first none [] = none
or_first none (a ∷ l) = some a

-- the id that `_select` chooses
unfoldable pub choose : Option SpaceId → List (SpaceId × Owner) → Option SpaceId
unfolding ready_ids first_after
choose last m = let ids = ready_ids m in or_first (first_after last ids) ids

abbrev pub enter : Scheduler → SpaceId → Option Owner → Scheduler
enter s sid none = s
enter s sid (some e) = record s {
  owners = store sid (record e { running = true }) s.owners;
  last_id = some sid;
  phase = turn sid (starting e.continuation);
}

abbrev pub select_id : Scheduler → Option SpaceId → Scheduler
select_id s none = s
select_id s (some sid) = enter s sid (find sid s.owners)

-- One round of `_run`: `_select` under the condition, and the start of `_turn`.
unfoldable pub select : Scheduler → Scheduler
unfolding choose
select s = if s.closed then s else select_id s (choose s.last_id s.owners)

-- The stage that a section leads to, and what it did.
pub record Move : Type 0 where
  pub stage : Stage
  pub outcome : Outcome

abbrev pub stay : Stage → ℕ → Owner → Move
stay st total e = record {
  stage = st;
  outcome = record { owner = e; count = total; answer = false };
}

-- The test of `cancel` and `_validate_owner`, which may raise.
unfoldable pub check_stage : Option String → Option SyncContinuation → ℕ → Owner → Move
check_stage invalid handle total e =
    if e.cancel
    then stay (failing handle "SynchronizationCancelledError") total e
    else elim invalid [
      | none ↦ stay (checked handle) total e
      | some error ↦ stay (failing handle error) total e
    ]

-- The section that decides on preemption.
unfoldable pub plan_stage : Option SyncContinuation → ℕ → Owner → Move
plan_stage none total e = stay opening total e
plan_stage (some h) total e =
    if not e.full_active && e.full_needed
    then stay (preempting (some h)) total e
    else stay (stepping h) total e

-- `service.cancel_sync(handle)`, and the section after it.
unfoldable pub preempt_stage : Option String → Option SyncContinuation → ℕ → Owner → Move
preempt_stage (some error) handle total e = stay (failing handle error) total e
preempt_stage none handle total e = record {
  stage = finishing;
  outcome = record {
    owner = released (record e { continuation = none });
    count = release_count total e;
    answer = true;
  };
}

-- The coverage that a turn may reconcile, captured before discovery starts.
abbrev pub captured : Option ℕ → Owner → Option (Option ℕ × ℕ)
captured token e =
    if e.coverage_restored == e.coverage_revision && can_reconcile token e
    then some (token, e.coverage_revision)
    else none

-- What both modes of a new synchronization take from the owner.
abbrev pub taken : Option ℕ → Owner → Owner
taken token e = record e {
  pending = [];
  full_active = e.full_needed;
  full_again = false;
  full_coverage = captured token e;
}

abbrev pub open_full : Option ℕ → ℕ → Owner → Move
open_full token total e = record {
  stage = beginning none;
  outcome = record {
    owner = record (taken token e) { deferred = []; debounce_revision = e.debounce_revision + 1 };
    count = total - length (identities e);
    answer = true;
  };
}

-- The paths are handed over in sorted order, which the service does not depend on.
abbrev pub open_target : Option ℕ → ℕ → Owner → Move
open_target token total e = record {
  stage = beginning (some e.pending);
  outcome = record {
    owner = record (taken token e) { inflight = e.pending };
    count = total;
    answer = true;
  };
}

-- The section that takes the work of a new synchronization.
unfoldable pub open_stage : Bool → Option ℕ → ℕ → Owner → Move
unfolding can_reconcile
open_stage closed token total e =
    if closed || e.cancel
    then stay (failing none "SynchronizationCancelledError") total e
    else if e.full_needed
    then open_full token total e
    else open_target token total e

-- `service.begin_sync(...)`: an exception, or a handle and the section after it.
unfoldable pub begin_stage : SyncContinuation → ℕ → Owner → Move
begin_stage h total e =
    let begun = record e { cleanup_failed = false; continuation = some h; full_active = h.full } in
    if h.full
    then record {
      stage = stepping h;
      outcome = record {
        owner = released (record begun { full_needed = true });
        count = release_count total e;
        answer = true;
      };
    }
    else stay (stepping h) total begun

abbrev pub same_coverage : Option (Option ℕ × ℕ) → Option ℕ → ℕ → Bool
same_coverage none token revision = false
same_coverage (some (none, c)) none revision = c == revision
same_coverage (some (some u, c)) (some t) revision = u == t && c == revision
same_coverage (some (_, c)) _ revision = false

-- the test before coverage is reconciled
abbrev pub reconciles : Bool → Option ℕ → Bool → Owner → Bool
reconciles closed token accepting e =
    not closed
    && accepting
    && can_reconcile token e
    && same_coverage e.full_coverage token e.coverage_revision
    && e.coverage_restored == e.coverage_revision

abbrev pub completed : Bool → Option ℕ → Bool → Owner → Owner
completed closed token accepting e =
    let full = e.full_active && not e.cancel in
    let covers = full && reconciles closed token accepting e in
    record e {
      full_needed = if full then e.full_again else e.full_needed;
      coverage_reconciled = if covers then e.coverage_revision else e.coverage_reconciled;
      monitoring_error_type = if covers then none else e.monitoring_error_type;
      full_coverage = none;
      inflight = [];
      continuation = none;
      full_active = false;
      error_type = none;
    }

-- `service.sync_step(...)` returned: the section after it.
unfoldable pub step_stage : Bool → Option ℕ → Bool → SyncStep → SyncContinuation → ℕ → Owner → Move
unfolding can_reconcile
step_stage closed token accepting result h total e =
    let noted = record e { progress = some result } in
    elim result.state [
      | complete ↦ record {
        stage = finishing;
        outcome = record {
          owner = completed closed token accepting noted;
          count = release_count total e;
          answer = true;
        };
      }
      | incomplete ↦ stay finishing total noted
      | _ ↦ stay (failing (some h) "RuntimeError") total noted
    ]

-- The handler of an exception: its section, with what is known of the cleanup.
unfoldable pub fail_stage : Bool → String → ℕ → Owner → Move
fail_stage cleanup_failed error total e = record {
  stage = finishing;
  outcome = record {
    owner = record e {
      cleanup_failed = cleanup_failed;
      error_type = some error;
      full_needed = true;
      paused = true;
      inflight = [];
      continuation = none;
      full_active = false;
      full_coverage = none;
    };
    count = release_count total e;
    answer = true;
  };
}

-- The `finally` section; its owner stops running.
unfoldable pub finish_section : Bool → Owner → Owner
finish_section closed e =
    let stopped = record e { running = false } in
    elim e.continuation [
      | none ↦ record (if e.wake_pending then wake closed stopped else stopped) {
        wake_pending = false;
      }
      | some _ ↦ if e.cancel then stopped else record stopped { wake_pending = false }
    ]
