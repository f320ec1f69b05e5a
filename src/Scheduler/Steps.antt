-- ===== src/Scheduler/Steps.antt =====
-- The scheduler as a transition system: the sections that hold the condition are the steps, and
-- the steps of clients, of the watcher and of the worker's turn follow one another in any order.
use vault_bridge.Base.{ℕ, String, ◌≡◌, Bool, true, false, not, ◌&&◌, Option, none, some, List, ◌==◌}
use vault_bridge.Scheduler.State.{
  Owner, Scheduler, Outcome, SpaceId, Stage, SyncContinuation, SyncStep, starting, checked,
  preempting, opening, beginning, stepping, failing, finishing, idle, turn, ok, find, store, commit,
  same_token,
}
use vault_bridge.Scheduler.Queue.{
  accepts, enqueue_section, debounce_section, debounce_failed_section, deliver_section,
  cancel_section, request_section, retry_section, begin_shutdown, start,
}
use vault_bridge.Scheduler.Monitor.{
  loss_section, failed_section, gap_section, restored_section, reconstructed_section, fence_watcher,
  attach_watcher, retire_watcher_work, detach_watcher,
}
use vault_bridge.Scheduler.Turn.{
  Move, check_stage, plan_stage, preempt_stage, open_stage, begin_stage, step_stage, fail_stage,
  finish_section, select, stay,
}
use vault_bridge.Scheduler.Moves.{is_complete}

abbrev pub quietly : ℕ → Owner → Outcome
quietly total e = record { owner = e; count = total; answer = true }

-- A section of a client or of the watcher, for the owner `e` of the scheduler `s`.
pub data Section (s : Scheduler) (e : Owner) : Outcome → Type 0 where
  enqueue : (c : String) → Section s e (enqueue_section s.closed s.total e c)
  debounce :
      (token revision deadline : ℕ) (c : String)
      → Section s e (debounce_section (accepts token s) s.total revision deadline e c)
  debounce_failed :
      (path : String) (deadline : ℕ)
      → Section s e (debounce_failed_section s.closed s.total e path deadline)
  deliver :
      (token : ℕ) (path canonical : String) (deadline : ℕ) {o : Outcome}
      → deliver_section
          (not s.closed && same_token s.watcher_token token)
          s.total
          e
          path
          canonical
          deadline
        ≡ ok o
      → Section s e o
  request : Section s e (request_section s.closed s.total e)
  retry : Section s e (retry_section s.closed s.total e)
  cancel : Section s e (cancel_section s.total e)
  loss : Section s e (quietly s.total (loss_section s.closed e))
  failed :
      (error_type : String) → Section s e (quietly s.total (failed_section s.closed error_type e))
  gap :
      (token : ℕ) (reconcile : Bool)
      → Section s e
          (quietly s.total (gap_section (accepts token s) s.watcher_token s.closed reconcile e).0)
  restored :
      (token : ℕ) (ticket : ℕ × ℕ)
      → Section s e (quietly s.total (restored_section (accepts token s) s.watcher_token ticket e))
  reconstructed :
      (token revision failure_revision coverage_revision : ℕ)
      → Section s e (
          quietly s.total (
            reconstructed_section
              (accepts token s)
              token
              revision
              failure_revision
              coverage_revision
              e))

-- A stage of the turn of the owner `e`; the answers of the semantic service are the arguments.
pub data Work (s : Scheduler) (e : Owner) : Stage → Move → Type 0 where
  check :
      (invalid : Option String) (h : Option SyncContinuation)
      → Work s e (starting h) (check_stage invalid h s.total e)
  plan : (h : Option SyncContinuation) → Work s e (checked h) (plan_stage h s.total e)
  preempt :
      (raised : Option String) (h : Option SyncContinuation)
      → Work s e (preempting h) (preempt_stage raised h s.total e)
  open_new : Work s e opening (open_stage s.closed s.watcher_token s.total e)
  begin :
      (paths : Option (List String)) (h : SyncContinuation)
      → Work s e (beginning paths) (begin_stage h s.total e)
  begin_raises :
      (paths : Option (List String)) (error : String)
      → Work s e (beginning paths) (stay (failing none error) s.total e)
  step :
      (h : SyncContinuation) (result : SyncStep)
      → Work s e
          (stepping h)
          (step_stage s.closed s.watcher_token s.watcher_accepting result h s.total e)
  step_raises :
      (h : SyncContinuation) (error : String)
      → Work s e (stepping h) (stay (failing (some h) error) s.total e)
  fail :
      (h : Option SyncContinuation) (error : String) (cleanup_failed : Bool)
      → Work s e (failing h error) (fail_stage cleanup_failed error s.total e)

-- The scheduler after a stage of the turn of `sid`.
abbrev pub advance : SpaceId → Move → Scheduler → Scheduler
advance sid m s = record s {
  owners = store sid m.outcome.owner s.owners;
  total = m.outcome.count;
  phase = turn sid m.stage;
}

abbrev pub end_turn : SpaceId → Owner → Scheduler → Scheduler
end_turn sid e s = record s {
  owners = store sid (finish_section s.closed e) s.owners;
  phase = idle;
}

pub data Step (s : Scheduler) : Scheduler → Type 0 where
  client :
      (sid : SpaceId) {e : Owner} {o : Outcome}
      → find sid s.owners ≡ some e
      → Section s e o
      → Step s (commit sid o s)
  work :
      (sid : SpaceId) {e : Owner} {st : Stage} {m : Move}
      → s.phase ≡ turn sid st
      → find sid s.owners ≡ some e
      → Work s e st m
      → Step s (advance sid m s)
  finish :
      (sid : SpaceId) {e : Owner}
      → s.phase ≡ turn sid finishing
      → find sid s.owners ≡ some e
      → Step s (end_turn sid e s)
  choose_next : s.phase ≡ idle → s.started ≡ true → Step s (select s)
  launch_worker : (startup : Bool) {s' : Scheduler} → start startup s ≡ ok s' → Step s s'
  attach : (token : ℕ) {s' : Scheduler} → attach_watcher token s ≡ some s' → Step s s'
  fence : (token : ℕ) (sids : List SpaceId) → Step s (fence_watcher token sids s)
  retire : (token : ℕ) → Step s (retire_watcher_work token s)
  detach : (token : ℕ) → Step s (detach_watcher token s)
  shut_down : Step s (begin_shutdown s)

pub data Reach (s : Scheduler) : Scheduler → Type 0 where
  here : Reach s s
  next : {t u : Scheduler} → Reach s t → Step t u → Reach s u

abbrev pub completes : {s : Scheduler} {e : Owner} {st : Stage} {m : Move} → Work s e st m → Bool
completes (step h result) = is_complete result.state
completes _ = false

-- The step ends a synchronization of the space that has completed.
abbrev pub pays : {s t : Scheduler} → SpaceId → Step s t → Bool
pays sid (work j p f w) = j == sid && completes w
pays sid _ = false
