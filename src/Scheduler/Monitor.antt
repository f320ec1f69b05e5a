-- ===== src/Scheduler/Monitor.antt =====
-- The watcher's coverage protocol of `SharedSemanticScheduler`: loss, failure, gaps, restoration and
-- reconstruction, each as what the code does to the owner while it holds the condition.
use vault_bridge.Base.{
  ℕ, ◌+◌, String, Bool, true, false, not, ◌&&◌, ◌||◌, Option, none, some, List, [], ◌∷◌, leb, ltb,
  ◌==◌, if◌then◌else◌, is_some, every,
}
use vault_bridge.Scheduler.State.{Owner, Scheduler, SpaceId, find, store, same_token, same_pair}
use vault_bridge.Scheduler.Queue.{request_full, wake, retire_all}

-- _can_reconcile_coverage
unfoldable pub can_reconcile : Option ℕ → Owner → Bool
can_reconcile none e = not (is_some e.monitoring_error_type)
can_reconcile (some t) e = same_pair e.watcher_verified t e.monitoring_failure_revision

-- _watcher_loss, under the condition, once the token has been compared
unfoldable pub loss_section : Bool → Owner → Owner
loss_section closed e =
    let asked = request_full e in if e.full_needed then asked else wake closed asked

-- _watcher_failed, under the condition, once the token has been compared
unfoldable pub failed_section : Bool → String → Owner → Owner
unfolding loss_section
failed_section closed error_type e =
    let noted = record e {
      monitoring_error_type = some error_type;
      monitoring_revision = e.monitoring_revision + 1;
      monitoring_failure_revision = e.monitoring_revision + 1;
      watcher_verified = none;
    } in
    if is_some e.monitoring_error_type
    then noted
    else loss_section closed (record noted { coverage_revision = e.coverage_revision + 1 })

-- _watcher_gap, under the condition: the new owner, and the ticket if the watcher is accepted
unfoldable pub gap_section : Bool → Option ℕ → Bool → Bool → Owner → Owner × Option (ℕ × ℕ)
unfolding loss_section can_reconcile
gap_section accepted token closed reconcile e =
    let gone = record e {
      coverage_revision = e.coverage_revision + 1;
      monitoring_revision = e.monitoring_revision + 1;
    } in
    if not accepted then (e, none) else (
      if reconcile && can_reconcile token gone then loss_section closed gone else gone,
      some (e.coverage_revision + 1, e.monitoring_failure_revision),
    )

-- _watcher_restored, under the condition, with the ticket of a gap
unfoldable pub restored_section : Bool → Option ℕ → ℕ × ℕ → Owner → Owner
unfolding can_reconcile
restored_section accepted token (revision, failure_revision) e =
    let proved = record e { coverage_restored = revision } in
    if not accepted
      || not (e.coverage_revision == revision)
      || leb revision e.coverage_restored
      || not (e.monitoring_failure_revision == failure_revision)
    then e
    else if not (can_reconcile token proved)
    then proved
    else wake false (request_full proved)

-- the bump of the coverage revision in `_watcher_reconstructed`, when no subtree work ran since
abbrev pub recovered : ℕ → Owner → Owner
recovered coverage_revision e =
    if e.coverage_revision == coverage_revision
    then record e {
      coverage_revision = e.coverage_revision + 1;
      monitoring_revision = e.monitoring_revision + 1;
      coverage_restored = e.coverage_revision + 1;
    }
    else e

abbrev pub reconcile_recovered : Owner → Owner
reconcile_recovered e =
    if not (e.coverage_restored == e.coverage_revision) then e else wake false (request_full e)

-- _watcher_reconstructed, under the condition, with the snapshot of revisions that the watcher took
-- before it built its new observer
unfoldable pub reconstructed_section : Bool → ℕ → ℕ → ℕ → ℕ → Owner → Owner
reconstructed_section accepted token revision failure_revision coverage_revision e =
    let verified = record e { watcher_verified = some (token, failure_revision) } in
    if not accepted
      || ltb e.monitoring_revision revision
      || not (e.monitoring_failure_revision == failure_revision)
    then e
    else if same_pair e.watcher_verified token failure_revision
    then e
    else if is_some e.monitoring_error_type || not (e.coverage_reconciled == e.coverage_revision)
    then reconcile_recovered (recovered coverage_revision verified)
    else verified

-- the coverage that `_fence_watcher` takes from one owner
abbrev pub fenced : Owner → Owner
fenced e = record e {
  coverage_revision = e.coverage_revision + 1;
  monitoring_revision = e.monitoring_revision + 1;
  watcher_verified = none;
}

-- the loop of `_fence_watcher`, which an id that is not in the table ends with `KeyError`
unfoldable pub fence_all : List SpaceId → List (SpaceId × Owner) → List (SpaceId × Owner)
fence_all [] m = m
fence_all (sid ∷ sids) m = elim (find sid m) [
  | none ↦ m
  | some e ↦ fence_all sids (store sid (fenced e) m)
]

-- _fence_watcher; after a `KeyError` the watcher still accepts
unfoldable pub fence_watcher : ℕ → List SpaceId → Scheduler → Scheduler
unfolding fence_all
fence_watcher token sids s =
    let fenced_owners = fence_all sids s.owners in
    if same_token s.watcher_token token
    then record s {
      owners = if s.watcher_accepting then fenced_owners else s.owners;
      watcher_accepting =
          s.watcher_accepting && not (every (λ sid. is_some (find sid s.owners)) sids);
    }
    else s

any_callbacks : List (SpaceId × Owner) → Bool
any_callbacks [] = false
any_callbacks ((_, e) ∷ m) = ltb 0 e.watcher_callbacks || any_callbacks m

-- _attach_watcher; `none` is the `RuntimeError`
unfoldable pub attach_watcher : ℕ → Scheduler → Option Scheduler
unfolding any_callbacks
attach_watcher token s =
    if s.closed || is_some s.watcher_token || any_callbacks s.owners
    then none
    else some (record s { watcher_token = some token; watcher_accepting = true })

-- _retire_watcher_work
unfoldable pub retire_watcher_work : ℕ → Scheduler → Scheduler
unfolding retire_all
retire_watcher_work token s =
    let (owners, total) = retire_all s.total s.owners in
    if same_token s.watcher_token token then record s { owners = owners; total = total } else s

-- _detach_watcher
unfoldable pub detach_watcher : ℕ → Scheduler → Scheduler
unfolding retire_watcher_work
detach_watcher token s =
    if same_token s.watcher_token token
    then record (retire_watcher_work token s) { watcher_accepting = false; watcher_token = none }
    else s
