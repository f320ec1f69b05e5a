-- ===== src/Scheduler/Stages.antt =====
-- What the worker's stages keep: the count of reservations, the facts that hold of the owner at
-- each stage, and the debts, which only a completed synchronization pays.
use vault_bridge.Base.{
  ℕ, ◌+◌, ◌≤◌, String, ◌≡◌, ◌∙◌, sym, subst, Bool, true, false, ◌||◌, Option, none, some, List, [],
  arith, length,
}
use vault_bridge.Base.Sets.{
  mem, IsDistinct, minus, union, mem-minus, mem-union, filter_by-IsDistinct,
}
use vault_bridge.Base.Dict.{keys}
use vault_bridge.Scheduler.State.{
  Owner, Stage, starting, checked, preempting, opening, beginning, stepping, failing, finishing,
  identities,
}
use vault_bridge.Scheduler.Queue.{release_count}
use vault_bridge.Scheduler.Turn.{Move}
use vault_bridge.Scheduler.Count.{
  IsWell, held, mem-identities, identities-IsDistinct, union-IsDistinct, fewer, length-minus,
  length-eq_of_same,
}
use vault_bridge.Scheduler.Keeps.{size, owes}

-- With no continuation nothing is in flight.
abbrev pub Rests : Owner → Type 0
Rests e = e.continuation ≡ none → e.inflight ≡ []

-- What holds of an owner outside the turn, and at each stage of its turn.
abbrev pub AtStage : Option Stage → Owner → Type 0
AtStage none e = (e.running ≡ false) × Rests e
AtStage (some (starting h)) e = (e.running ≡ true) × (h ≡ e.continuation) × Rests e
AtStage (some (checked h)) e = (e.running ≡ true) × (h ≡ e.continuation) × Rests e
AtStage (some (preempting h)) e = (e.running ≡ true) × (e.full_needed ≡ true)
AtStage (some opening) e = (e.running ≡ true) × (e.continuation ≡ none) × (e.inflight ≡ [])
AtStage (some (beginning paths)) e = (e.running ≡ true) × Unit {0}
AtStage (some (stepping h)) e = (e.running ≡ true) × (e.continuation ≡ some h)
AtStage (some (failing h error)) e = (e.running ≡ true) × Unit {0}
AtStage (some finishing) e = (e.running ≡ true) × Rests e

-- What a stage keeps; `paid` says that it ends a synchronization that has completed.
pub record Moves (paid : Bool) (total : ℕ) (e : Owner) (m : Move) : Type 0 where
  pub well : IsWell m.outcome.owner
  pub balance : m.outcome.count + size e ≡ total + size m.outcome.owner
  pub shrinks : size m.outcome.owner ≤ size e
  pub at_stage : AtStage (some m.stage) m.outcome.owner
  pub debt_kept : paid ≡ false → (a : String) → owes e a ≡ true → owes m.outcome.owner a ≡ true

-- The owner after its in-flight paths are released.
module _ (e d : Owner) (w : IsWell e) (pending_kept : d.pending ≡ e.pending)
    (deferred_kept : d.deferred ≡ e.deferred) (no_inflight : d.inflight ≡ []) where
  pub released-IsWell : IsWell d
  released-IsWell = record {
    pending_distinct = subst IsDistinct (sym pending_kept) w.pending_distinct;
    inflight_distinct = subst IsDistinct (sym no_inflight) tt;
    deferred_distinct = subst (λ m. IsDistinct (keys m)) (sym deferred_kept) w.deferred_distinct;
  }

  pub held-released : (a : String) → held d a ≡ (mem a e.pending || mem a (keys e.deferred))
  held-released a = rw (pending_kept, deferred_kept, no_inflight) (ground arith)

  stays : List String
  stays = union e.pending (keys e.deferred)

  stays-IsDistinct : IsDistinct stays
  unfolding stays
  stays-IsDistinct =
      union-IsDistinct e.pending (keys e.deferred) w.pending_distinct w.deferred_distinct

  released-size : size d ≡ length stays
  unfolding stays
  released-size =
      length-eq_of_same (identities d) stays (identities-IsDistinct d released-IsWell)
        stays-IsDistinct
        (λ a. mem-identities a d ∙ held-released a ∙ sym (mem-union a e.pending (keys e.deferred)))

  leaves-size : length (minus e.inflight stays) ≡ length (minus (identities e) stays)
  unfolding stays
  leaves-size =
      length-eq_of_same (minus e.inflight stays) (minus (identities e) stays)
        (filter_by-IsDistinct _ e.inflight w.inflight_distinct)
        (filter_by-IsDistinct _ (identities e) (identities-IsDistinct e w))
        (λ a. ground (
          arith,
          mem-minus a e.inflight stays,
          mem-minus a (identities e) stays,
          mem-identities a e,
          mem-union a e.pending (keys e.deferred),
        ))

  pub released-balance :
      (total : ℕ) → size e ≤ total → release_count total e + size e ≡ total + size d
  unfolding stays
  released-balance total enough = omega (
    arith,
    released-size,
    leaves-size,
    length-minus (identities e) stays (identities-IsDistinct e w) stays-IsDistinct
        (λ a h. ground (arith, mem-identities a e, mem-union a e.pending (keys e.deferred))),
  )

  pub released-shrinks : size d ≤ size e
  released-shrinks = fewer d e released-IsWell w (λ a h. ground (arith, held-released a))
