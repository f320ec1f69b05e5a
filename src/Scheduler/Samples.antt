-- ===== src/Scheduler/Samples.antt =====
-- The scheduler at concrete inputs: two spaces, a path that is submitted and cancelled, a shutdown.
use vault_bridge.Base.{◌≤◌, String, ◌≡◌, refl, true, false, none, some, List, [], ◌∷◌, ◌⊎◌}
use vault_bridge.Base.Sets.{mem}
use vault_bridge.Scheduler.Closing.{Closing, close_owners, all_complete, close_owners_complete}
use vault_bridge.Scheduler.State.{
  Owner, Scheduler, SpaceId, find, store, commit, new_scheduler, new_owner,
}
use vault_bridge.Scheduler.Queue.{enqueue_section, cancel_section, shutdown_section, begin_shutdown}
use vault_bridge.Scheduler.Turn.{choose, ready}
use vault_bridge.Scheduler.Count.{held}
use vault_bridge.Scheduler.Steps.{Step, client, enqueue, cancel, shut_down, here, next}
use vault_bridge.Scheduler.Invariant.{Inv}
use vault_bridge.Scheduler.Reachable.{fresh_owners, new_scheduler-Inv, Reach-Inv}
use vault_bridge.Scheduler.Debt.{Owes, Reach-Owes, enqueue_section-owes}
use vault_bridge.Scheduler.Rotation.{is_ready, is_after, choose-rotates}
use vault_bridge.Scheduler.Shutdown.{Step-closed, begin_shutdown-drains}

abbrev fresh : Scheduler
fresh = new_scheduler ((1, new_owner 1 1) ∷ (2, new_owner 2 2) ∷ [])

fresh-Inv : Inv fresh
unfolding fresh_owners
fresh-Inv = new_scheduler-Inv (1 ∷ 2 ∷ [])

abbrev queued : Scheduler
queued = commit 2 (enqueue_section false 0 (new_owner 2 2) "a.md") fresh

abbrev queued_owner : Owner
queued_owner = (enqueue_section false 0 (new_owner 2 2) "a.md").owner

find_fresh : find 2 fresh.owners ≡ some (new_owner 2 2)
unfolding find
find_fresh = refl

find_queued : find 2 queued.owners ≡ some queued_owner
unfolding find store
find_queued = refl

abbrev queue_step : Step fresh queued
queue_step = client 2 find_fresh (enqueue "a.md")

Reach-Inv_example : Inv queued
Reach-Inv_example = Reach-Inv fresh-Inv (next here queue_step)

queued-Inv : Inv queued
queued-Inv = Reach-Inv fresh-Inv (next here queue_step)

queued_one : queued.total ≡ 1
unfolding enqueue_section
queued_one = refl

abbrev cancelled_state : Scheduler
cancelled_state = commit 2 (cancel_section queued.total queued_owner) queued

abbrev cancel_step : Step queued cancelled_state
cancel_step = client 2 find_queued cancel

Reach-Owes_example : Inv cancelled_state × Owes 2 "a.md" cancelled_state.owners
Reach-Owes_example =
    Reach-Owes (next here cancel_step) 2 "a.md" queued-Inv (tt, refl)
      (queued_owner, find_queued, enqueue_section-owes 0 (new_owner 2 2) "a.md")

queued_choice : choose none queued.owners ≡ some 2
unfolding choose ready enqueue_section store
queued_choice = refl

choose-rotates_example :
    (is_ready 2 queued.owners ≡ true)
    × (((is_after none 2 ≡ true)
          × ((j : SpaceId) → is_ready j queued.owners ≡ true → is_after none j ≡ true → 2 ≤ j))
        ⊎ ((j : SpaceId) → is_ready j queued.owners ≡ true → (is_after none j ≡ false) × (2 ≤ j)))
choose-rotates_example = choose-rotates none queued.owners 2 queued_choice

fresh_choice : choose none fresh.owners ≡ none
unfolding choose ready
fresh_choice = refl

abbrev closing : Scheduler
closing = begin_shutdown queued

closing-Inv : Inv closing
closing-Inv = Reach-Inv fresh-Inv (next (next here queue_step) shut_down)

closing_closed : closing.closed ≡ true
unfolding begin_shutdown
closing_closed = refl

Step-closed_example :
    ((begin_shutdown closing).closed ≡ true) × ((begin_shutdown closing).total ≤ closing.total)
Step-closed_example = Step-closed {s = closing} shut_down closing-Inv closing_closed

abbrev drained_owner : Owner
drained_owner = (shutdown_section 1 queued_owner).owner

drained_found : find 2 closing.owners ≡ some drained_owner
unfolding begin_shutdown find store enqueue_section
drained_found = refl

begin_shutdown-drains_example :
    (e : Owner) × (find 2 queued.owners ≡ some e)
    × (drained_owner.cancel ≡ true)
    × (drained_owner.paused ≡ true)
    × ((a : String) → held drained_owner a ≡ mem a e.inflight)
    × ((a : String) → held e a ≡ true → drained_owner.full_needed ≡ true)
begin_shutdown-drains_example =
    begin_shutdown-drains queued 2 drained_owner queued-Inv refl drained_found

abbrev second_try : SpaceId → Closing
second_try sid = record { cleanup_failed = true; raises = false }

abbrev left_over : List (SpaceId × Owner)
left_over = (1, new_owner 1 1) ∷ (2, record (new_owner 2 2) { cleanup_complete = true }) ∷ []

close_owners_complete_example :
    (true ≡ true
      → ((sid : SpaceId) → (second_try sid).raises ≡ false)
      → all_complete (close_owners true second_try 0 left_over).0 ≡ true)
    × ((sid : SpaceId) (e : Owner)
        → find sid left_over ≡ some e
        → e.cleanup_complete ≡ true
        → find sid (close_owners true second_try 0 left_over).0 ≡ some e)
close_owners_complete_example = close_owners_complete true second_try 0 left_over
