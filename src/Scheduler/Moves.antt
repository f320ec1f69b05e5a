-- ===== src/Scheduler/Moves.antt =====
-- Each stage of the worker's turn keeps what `Moves` says.
use vault_bridge.Base.{
  ℕ, ◌≤◌, String, ◌≡◌, ◌∙◌, ap, sym, subst, refl, inl, inr, Bool, true, false, not, ◌&&◌, ◌||◌,
  Option, none, some, List, [], arith, length, Bool-cases,
}
use vault_bridge.Scheduler.State.{
  Owner, Stage, SyncContinuation, SyncStep, SyncStepState, starting, checked, preempting, opening,
  stepping, failing, finishing, complete, incomplete, cancelled, failed,
}
use vault_bridge.Scheduler.Queue.{released, release_count}
use vault_bridge.Scheduler.Turn.{
  check_stage, plan_stage, preempt_stage, open_stage, begin_stage, step_stage, fail_stage,
  finish_section, completed, stay, open_full, open_target,
}
use vault_bridge.Scheduler.Count.{IsWell, held, same_size}
use vault_bridge.Scheduler.Keeps.{
  size, owes, Quiet, Quiet-refl, Quiet-IsWell, Quiet-size, Quiet-owes,
}
use vault_bridge.Scheduler.Quiets.{Quiet-of_fields}
use vault_bridge.Scheduler.Drops.{only_inflight-size, only_inflight-IsWell}
use vault_bridge.Scheduler.Stages.{
  AtStage, Moves, released-IsWell, released-balance, released-shrinks,
}

-- A stage that is quiet on the owner and leaves the count.
pub Moves-of_Quiet :
    (paid : Bool) (total : ℕ) {e d : Owner} (st : Stage)
    → IsWell e
    → Quiet e d
    → AtStage (some st) d
    → Moves paid total e (stay st total d)
Moves-of_Quiet paid total st w q a = record {
  well = Quiet-IsWell q w;
  balance = omega (arith, Quiet-size q);
  shrinks = omega (arith, Quiet-size q);
  at_stage = a;
  debt_kept = λ _. Quiet-owes q;
}

-- A stage that releases the in-flight paths.
pub Moves-of_release :
    (paid : Bool) (total : ℕ) (e d : Owner) (st : Stage)
    → IsWell e
    → size e ≤ total
    → d.pending ≡ e.pending
    → d.deferred ≡ e.deferred
    → d.inflight ≡ []
    → AtStage (some st) d
    → (paid ≡ false → (a : String) → owes e a ≡ true → owes d a ≡ true)
    → Moves paid total e (record {
      stage = st;
      outcome = record { owner = d; count = release_count total e; answer = true };
    })
Moves-of_release paid total e d st w enough p m i a debt = record {
  well = released-IsWell e d w p m i;
  balance = released-balance e d w p m i total enough;
  shrinks = released-shrinks e d w p m i;
  at_stage = a;
  debt_kept = debt;
}

pub check_stage-Moves :
    (invalid : Option String) (h : Option SyncContinuation) (total : ℕ) (e : Owner)
    → IsWell e
    → AtStage (some (starting h)) e
    → Moves false total e (check_stage invalid h total e)
unfolding check_stage
check_stage-Moves none h total e w a = elim (Bool-cases e.cancel) [
  | inl set ↦ subst (Moves false total e) (ground arith) (
      Moves-of_Quiet false total (failing h "SynchronizationCancelledError") w (Quiet-refl e)
        (a.0, tt))
  | inr clear ↦
      subst (Moves false total e) (ground arith)
        (Moves-of_Quiet false total (checked h) w (Quiet-refl e) a)
]
check_stage-Moves (some error) h total e w a = elim (Bool-cases e.cancel) [
  | inl set ↦ subst (Moves false total e) (ground arith) (
      Moves-of_Quiet false total (failing h "SynchronizationCancelledError") w (Quiet-refl e)
        (a.0, tt))
  | inr clear ↦
      subst (Moves false total e) (ground arith)
        (Moves-of_Quiet false total (failing h error) w (Quiet-refl e) (a.0, tt))
]

pub plan_stage-Moves :
    (h : Option SyncContinuation) (total : ℕ) (e : Owner)
    → IsWell e
    → AtStage (some (checked h)) e
    → Moves false total e (plan_stage h total e)
unfolding plan_stage
plan_stage-Moves none total e w a =
    Moves-of_Quiet false total opening w (Quiet-refl e) (a.0, sym a.1, a.2 (sym a.1))
plan_stage-Moves (some h) total e w a = elim (Bool-cases (not e.full_active && e.full_needed)) [
  | inl preempt ↦
      subst (Moves false total e) (ground arith)
        (Moves-of_Quiet false total (preempting (some h)) w (Quiet-refl e) (a.0, ground arith))
  | inr go ↦
      subst (Moves false total e) (ground arith)
        (Moves-of_Quiet false total (stepping h) w (Quiet-refl e) (a.0, sym a.1))
]

pub preempt_stage-Moves :
    (raised : Option String) (h : Option SyncContinuation) (total : ℕ) (e : Owner)
    → IsWell e
    → size e ≤ total
    → AtStage (some (preempting h)) e
    → Moves false total e (preempt_stage raised h total e)
unfolding preempt_stage
preempt_stage-Moves (some error) h total e w enough a =
    Moves-of_Quiet false total (failing h error) w (Quiet-refl e) (a.0, tt)
preempt_stage-Moves none h total e w enough a =
    Moves-of_release false total e (released (record e { continuation = none })) finishing w enough
      refl refl refl (a.0, λ _. refl) (λ _ p k. ground arith)

module _ (token : Option ℕ) (total : ℕ) (e : Owner) (w : IsWell e) (enough : size e ≤ total)
    (a : AtStage (some opening) e) where
  open_full-Moves : e.full_needed ≡ true → Moves false total e (open_full token total e)
  open_full-Moves full =
      let d = (open_full token total e).outcome.owner in
      let gone : size d ≡ 0 =
        only_inflight-size e d w refl refl refl ∙ ap (λ (l : List String). length l) a.2 in
      record {
        well = only_inflight-IsWell e d w refl refl refl;
        balance = omega (arith, gone);
        shrinks = omega (arith, gone);
        at_stage = (a.0, tt);
        debt_kept = λ _ p k. ground arith;
      }

  open_target-Moves : e.full_needed ≡ false → Moves false total e (open_target token total e)
  open_target-Moves targeted =
      let d = (open_target token total e).outcome.owner in
      let v : IsWell d = record {
        pending_distinct = tt;
        inflight_distinct = w.pending_distinct;
        deferred_distinct = w.deferred_distinct;
      } in
      let same : (p : String) → held d p ≡ held e p = λ p. rw (a.2) (ground arith) in
      let sizes : size d ≡ size e = same_size d e v w same in
      record {
        well = v;
        balance = omega (arith, sizes);
        shrinks = omega (arith, sizes);
        at_stage = (a.0, tt);
        debt_kept = λ _ p k. ground (arith, same p);
      }

  pub open_stage-Moves : (closed : Bool) → Moves false total e (open_stage closed token total e)
  unfolding open_stage
  open_stage-Moves closed = elim (Bool-cases (closed || e.cancel)) [
    | inl stop ↦ subst (Moves false total e) (ground arith) (
        Moves-of_Quiet false total (failing none "SynchronizationCancelledError") w (Quiet-refl e)
          (a.0, tt))
    | inr go ↦ elim (Bool-cases e.full_needed) [
      | inl full ↦ subst (Moves false total e) (ground arith) (open_full-Moves full)
      | inr targeted ↦ subst (Moves false total e) (ground arith) (open_target-Moves targeted)
    ]
  ]

module _ (h : SyncContinuation) (total : ℕ) (e : Owner) (w : IsWell e)
    (enough : size e ≤ total) where
  pub begin_stage-Moves : e.running ≡ true → Moves false total e (begin_stage h total e)
  unfolding begin_stage
  begin_stage-Moves runs = elim (Bool-cases h.full) [
    | inl full ↦ subst (Moves false total e) (ground arith) (
        Moves-of_release false total e
          (released (record e {
            cleanup_failed = false;
            continuation = some h;
            full_active = h.full;
            full_needed = true;
          }))
          (stepping h) w enough refl refl refl (runs, refl) (λ _ p k. ground arith))
    | inr targeted ↦ subst (Moves false total e) (ground arith) (began runs)
  ]
    where
      began :
          e.running ≡ true
          → Moves false total e (
              stay
                (stepping h)
                total
                (record e { cleanup_failed = false; continuation = some h; full_active = h.full }))
      began r = record {
        well = record {
          pending_distinct = w.pending_distinct;
          inflight_distinct = w.inflight_distinct;
          deferred_distinct = w.deferred_distinct;
        };
        balance = refl;
        shrinks = omega arith;
        at_stage = (r, refl);
        debt_kept = λ _ p k. k;
      }

abbrev pub is_complete : SyncStepState → Bool
is_complete complete = true
is_complete _ = false

module _ (closed : Bool) (token : Option ℕ) (accepting : Bool) (h : SyncContinuation) (total : ℕ)
    (e : Owner) (w : IsWell e) (enough : size e ≤ total) (a : AtStage (some (stepping h)) e) where
  step_state-Moves :
      (st : SyncStepState) (indexed unchanged removed : ℕ)
      → Moves (is_complete st) total e (
          step_stage closed token accepting
            (record { state = st; indexed = indexed; unchanged = unchanged; removed = removed })
            h
            total
            e)
  unfolding step_stage
  step_state-Moves complete i u r =
      Moves-of_release true total e
        (completed closed token accepting (record e {
          progress = some (record { state = complete; indexed = i; unchanged = u; removed = r });
        }))
        finishing w enough refl refl refl (a.0, λ _. refl) (λ p. ground arith)
  step_state-Moves incomplete i u r =
      Moves-of_Quiet false total finishing w (Quiet-of_fields (refl, refl, refl, refl, refl, refl))
        (a.0, λ none_left. ground (arith, a.1))
  step_state-Moves cancelled i u r =
      Moves-of_Quiet false total (failing (some h) "RuntimeError") w
        (Quiet-of_fields (refl, refl, refl, refl, refl, refl)) (a.0, tt)
  step_state-Moves failed i u r =
      Moves-of_Quiet false total (failing (some h) "RuntimeError") w
        (Quiet-of_fields (refl, refl, refl, refl, refl, refl)) (a.0, tt)

  pub step_stage-Moves :
      (result : SyncStep)
      → Moves
          (is_complete result.state)
          total
          e
          (step_stage closed token accepting result h total e)
  step_stage-Moves result =
      step_state-Moves result.state result.indexed result.unchanged result.removed

pub fail_stage-Moves :
    (cleanup_failed : Bool) (error : String) (total : ℕ) (e : Owner)
    → IsWell e
    → size e ≤ total
    → e.running ≡ true
    → Moves false total e (fail_stage cleanup_failed error total e)
unfolding fail_stage
fail_stage-Moves cleanup_failed error total e w enough runs =
    Moves-of_release false total e ((fail_stage cleanup_failed error total e).outcome.owner)
      finishing w enough refl refl refl (runs, λ _. refl) (λ _ p k. ground arith)

-- The last section leaves the sets, the continuation and the debts, and ends the turn.
pub record Finishes (e d : Owner) : Type 0 where
  pub pending_kept : d.pending ≡ e.pending
  pub deferred_kept : d.deferred ≡ e.deferred
  pub inflight_kept : d.inflight ≡ e.inflight
  pub continuation_kept : d.continuation ≡ e.continuation
  pub full_kept : d.full_needed ≡ e.full_needed
  pub stopped : d.running ≡ false

pub finish_section-Finishes : (closed : Bool) (e : Owner) → Finishes e (finish_section closed e)
unfolding finish_section
finish_section-Finishes closed e = ground arith
