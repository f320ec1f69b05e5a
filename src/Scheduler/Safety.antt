-- ===== src/Scheduler/Safety.antt =====
-- Every step of the scheduler keeps the invariant, so every reachable state has it.
use vault_bridge.Base.{
  ℕ, ◌≤◌, ◌≡◌, ◌∙◌, ap, sym, subst, refl, inl, inr, Bool, true, false, ◌||◌, none, some, arith,
  is_some, Bool-cases, Option-cases, ◌==◌, length,
}
use vault_bridge.Base.Sets.{IsDistinct, union}
use vault_bridge.Base.Dict.{keys}
use vault_bridge.Scheduler.State.{
  Owner, Scheduler, Outcome, SpaceId, Stage, Phase, starting, failing, finishing, idle, turn, find,
}
use vault_bridge.Scheduler.Queue.{request_full, request_section, retry_section, accepts}
use vault_bridge.Scheduler.Turn.{Move, select, select_id, enter, choose, finish_section}
use vault_bridge.Scheduler.Count.{IsWell}
use vault_bridge.Scheduler.Keeps.{
  size, Keeps, Quiet-refl, Quiet-trans, Quiet-wake, Quiet-request_full, Keeps-of_Quiet,
}
use vault_bridge.Scheduler.Sections.{enqueue_section-Keeps, debounce_section-Keeps}
use vault_bridge.Scheduler.Drops.{
  debounce_failed_section-Keeps, deliver_section-Keeps, cancel_section-Keeps,
}
use vault_bridge.Scheduler.Quiets.{
  Quiet-loss_section, Quiet-failed_section, Quiet-gap_section, Quiet-restored_section,
  Quiet-reconstructed_section,
}
use vault_bridge.Scheduler.Stages.{AtStage, Moves}
use vault_bridge.Scheduler.Moves.{
  Moves-of_Quiet, check_stage-Moves, plan_stage-Moves, preempt_stage-Moves, open_stage-Moves,
  begin_stage-Moves, step_stage-Moves, fail_stage-Moves, finish_section-Finishes,
}
use vault_bridge.Scheduler.Table.{size-le-reserved, AllSound-find}
use vault_bridge.Scheduler.Steps.{
  Section, enqueue, debounce, debounce_failed, deliver, request, retry, cancel, loss, failed, gap,
  restored, reconstructed, Work, check, plan, preempt, open_new, begin, begin_raises, step,
  step_raises, fail, advance, completes, end_turn,
}
use vault_bridge.Scheduler.Invariant.{Inv, stage_of, turn-Inv}

request_section-Keeps :
    (closed : Bool) (total : ℕ) (e : Owner)
    → IsWell e
    → Keeps total e (request_section closed total e)
unfolding request_section
request_section-Keeps true total e w = Keeps-of_Quiet total false w (Quiet-refl e)
request_section-Keeps false total e w =
    Keeps-of_Quiet total true w
      (Quiet-trans (Quiet-request_full e) (Quiet-wake false (request_full e)))

retry_section-Keeps :
    (closed : Bool) (total : ℕ) (e : Owner)
    → IsWell e
    → Keeps total e (retry_section closed total e)
unfolding retry_section
retry_section-Keeps closed total e w =
    elim (Bool-cases (closed || e.running || is_some e.continuation)) [
      | inl busy ↦ rw busy (Keeps-of_Quiet total false w (Quiet-refl e))
      | inr free ↦ rw free (Keeps-of_Quiet total true w (Quiet-wake closed e))
    ]

-- Every section of a client or of the watcher keeps the owner.
pub Section-Keeps :
    {s : Scheduler} {e : Owner} {o : Outcome}
    → IsWell e
    → size e ≤ s.total
    → Section s e o
    → Keeps s.total e o
Section-Keeps {s} {e} w le (enqueue c) = enqueue_section-Keeps s.closed s.total e c w
Section-Keeps {s} {e} w le (debounce token revision deadline c) =
    debounce_section-Keeps (accepts token s) s.total revision deadline e c w
Section-Keeps {s} {e} w le (debounce_failed path deadline) =
    debounce_failed_section-Keeps s.closed s.total e path deadline w le
Section-Keeps {s} {e} w le (deliver token path canonical deadline r) =
    deliver_section-Keeps _ s.total e path canonical deadline w le r
Section-Keeps {s} {e} w le request = request_section-Keeps s.closed s.total e w
Section-Keeps {s} {e} w le retry = retry_section-Keeps s.closed s.total e w
Section-Keeps {s} {e} w le cancel = cancel_section-Keeps s.total e w le
Section-Keeps {s} {e} w le loss = Keeps-of_Quiet s.total true w (Quiet-loss_section s.closed e)
Section-Keeps {s} {e} w le (failed error_type) =
    Keeps-of_Quiet s.total true w (Quiet-failed_section s.closed error_type e)
Section-Keeps {s} {e} w le (gap token reconcile) =
    Keeps-of_Quiet s.total true w
      (Quiet-gap_section (accepts token s) s.watcher_token s.closed reconcile e)
Section-Keeps {s} {e} w le (restored token ticket) =
    Keeps-of_Quiet s.total true w
      (Quiet-restored_section (accepts token s) s.watcher_token ticket e)
Section-Keeps {s} {e} w le (reconstructed token revision failure_revision coverage_revision) =
    Keeps-of_Quiet s.total true w (
      Quiet-reconstructed_section (accepts token s) token revision failure_revision
        coverage_revision e)

-- Every stage of the turn keeps the owner, and pays only by a completed synchronization.
pub Work-Moves :
    {s : Scheduler} {e : Owner} {st : Stage} {m : Move}
    → IsWell e
    → size e ≤ s.total
    → AtStage (some st) e
    → (k : Work s e st m) → Moves (completes k) s.total e m
Work-Moves {s} {e} w le a (check invalid h) = check_stage-Moves invalid h s.total e w a
Work-Moves {s} {e} w le a (plan h) = plan_stage-Moves h s.total e w a
Work-Moves {s} {e} w le a (preempt raised h) = preempt_stage-Moves raised h s.total e w le a
Work-Moves {s} {e} w le a open_new = open_stage-Moves s.watcher_token s.total e w le a s.closed
Work-Moves {s} {e} w le a (begin paths h) = begin_stage-Moves h s.total e w le a.0
Work-Moves {s} {e} w le a (begin_raises paths error) =
    Moves-of_Quiet false s.total (failing none error) w (Quiet-refl e) (a.0, tt)
Work-Moves {s} {e} w le a (step h result) =
    step_stage-Moves s.closed s.watcher_token s.watcher_accepting h s.total e w le a result
Work-Moves {s} {e} w le a (step_raises h error) =
    Moves-of_Quiet false s.total (failing (some h) error) w (Quiet-refl e) (a.0, tt)
Work-Moves {s} {e} w le a (fail h error cleanup_failed) =
    fail_stage-Moves cleanup_failed error s.total e w le a.0

-- the owner of the turn is at the stage of the turn
pub staged_of_turn :
    {s : Scheduler} (sid : SpaceId) {st : Stage} {e : Owner}
    → Inv s
    → s.phase ≡ turn sid st
    → find sid s.owners ≡ some e
    → AtStage (some st) e
staged_of_turn sid {st} {e} v ph f =
    subst (λ t. AtStage t e) {y = some st} (ap (λ (p : Phase). stage_of p sid) ph ∙ ground arith)
      (v.staged sid e f)

elsewhere_of_turn :
    (sid : SpaceId) (st : Stage) (p : Phase)
    → p ≡ turn sid st
    → (j : SpaceId) → Path Bool (sid == j) false
    → stage_of p j ≡ none
elsewhere_of_turn sid st p ph j n = ap (λ (q : Phase). stage_of q j) ph ∙ rw n refl

here_of_turn : (sid : SpaceId) (st : Stage) → stage_of (turn sid st) sid ≡ some st
here_of_turn sid st = ground arith

-- A stage of the turn.
pub advance-Inv :
    (sid : SpaceId) {s : Scheduler} {e : Owner} {st : Stage} {m : Move}
    → Inv s
    → s.phase ≡ turn sid st
    → find sid s.owners ≡ some e
    → Work s e st m
    → Inv (advance sid m s)
advance-Inv sid {s} {e} {st} {m} v ph f k =
    let sound = AllSound-find sid {e = e} s.owners f v.sound in
    let le : size e ≤ s.total = omega (arith, v.counted, size-le-reserved sid {e = e} s.owners f) in
    let moves = Work-Moves sound.well le (staged_of_turn sid v ph f) k in
    turn-Inv sid m.outcome.owner m.outcome.count (turn sid m.stage) v
      (elsewhere_of_turn sid st s.phase ph) f moves.well moves.balance moves.shrinks
      (subst (λ t. AtStage t m.outcome.owner) (sym (here_of_turn sid m.stage)) moves.at_stage)
      (elsewhere_of_turn sid m.stage (turn sid m.stage) refl)

-- An owner whose sets are those of another.
abbrev pub SameSets : Owner → Owner → Type 0
SameSets e d = (d.pending ≡ e.pending) × (d.deferred ≡ e.deferred) × (d.inflight ≡ e.inflight)

SameSets-IsWell : (e d : Owner) → SameSets e d → IsWell e → IsWell d
SameSets-IsWell e d (p, m, i) w = record {
  pending_distinct = subst IsDistinct (sym p) w.pending_distinct;
  inflight_distinct = subst IsDistinct (sym i) w.inflight_distinct;
  deferred_distinct = subst (λ x. IsDistinct (keys x)) (sym m) w.deferred_distinct;
}

SameSets-size : (e d : Owner) → SameSets e d → size d ≡ size e
SameSets-size e d (p, m, i) = λ k. length (union (union (p k) (i k)) (keys (m k)))

pub end_turn-Inv :
    (sid : SpaceId) {s : Scheduler} {e : Owner}
    → Inv s
    → s.phase ≡ turn sid finishing
    → find sid s.owners ≡ some e
    → Inv (end_turn sid e s)
end_turn-Inv sid {s} {e} v ph f =
    let sound = AllSound-find sid {e = e} s.owners f v.sound in
    let d = finish_section s.closed e in
    let q = finish_section-Finishes s.closed e in
    let sets : SameSets e d = (q.pending_kept, q.deferred_kept, q.inflight_kept) in
    let a = staged_of_turn sid v ph f in
    turn-Inv sid d s.total idle v (elsewhere_of_turn sid finishing s.phase ph) f
      (SameSets-IsWell e d sets sound.well) (omega (arith, SameSets-size e d sets))
      (omega (arith, SameSets-size e d sets))
      (q.stopped, λ n. q.inflight_kept ∙ a.1 (sym q.continuation_kept ∙ n)) (λ j n. refl)

pub enter-Inv :
    (sid : SpaceId) (s : Scheduler) → Inv s → s.phase ≡ idle → Inv (select_id s (some sid))
enter-Inv sid s v ph = elim (Option-cases (find sid s.owners)) [
  | inl gone ↦ subst Inv (ap (enter s sid) (sym gone)) v
  | inr (e, f) ↦
      let sound = AllSound-find sid {e = e} s.owners f v.sound in
      let d : Owner = record e { running = true } in
      let sets : SameSets e d = (refl, refl, refl) in
      let rest =
        subst (λ t. AtStage t e) {y = none} (ap (λ (p : Phase). stage_of p sid) ph)
          (v.staged sid e f) in
      subst Inv (ap (enter s sid) (sym f)) (
        with_last (
          turn-Inv sid d s.total (turn sid (starting e.continuation)) v
            (λ j n. ap (λ (p : Phase). stage_of p j) ph) f (SameSets-IsWell e d sets sound.well)
            refl (omega arith)
            (subst (λ t. AtStage t d) (sym (here_of_turn sid (starting e.continuation)))
              (refl, refl, rest.1))
            (elsewhere_of_turn sid (starting e.continuation) (turn sid (starting e.continuation))
              refl)))
]
  where
    with_last : {t : Scheduler} → Inv t → Inv (record t { last_id = some sid })
    with_last u = record {
      counted = u.counted;
      within_all = u.within_all;
      sound = u.sound;
      staged = u.staged;
    }

pub select-Inv : (s : Scheduler) → Inv s → s.phase ≡ idle → Inv (select s)
unfolding select
select-Inv s v ph = elim (Bool-cases s.closed) [
  | inl shut ↦ subst Inv (ground arith) v
  | inr live ↦ elim (Option-cases (choose s.last_id s.owners)) [
    | inl nobody ↦ subst Inv (ground arith) v
    | inr (sid, chosen) ↦ subst Inv (ground arith) (enter-Inv sid s v ph)
  ]
]
