-- ===== src/Indexer/Samples.antt =====
-- The background indexer at a concrete run: a path is queued, its synchronization fails, and the
-- failed job ends.
use vault_bridge.Base.{◌≡◌, refl, true, false, none, some, [], ◌∷◌}
use vault_bridge.Indexer.{
  Indexer, Trace, new_indexer, targeted, enqueue, run, synced, finished, begin, after,
  enqueue_section, run_section, synced_section, finish, submit, requires_full_sync,
}
use vault_bridge.Indexer.Wake.{IsAwake, Trace-IsAwake, Event-serial, serial_of}
use vault_bridge.Indexer.Work.{owes, Trace-owes, Event-requires_full}

abbrev queued : Indexer
queued = (enqueue_section none false ("a.md" ∷ []) (new_indexer true)).0

abbrev failed_sync : Indexer
failed_sync = synced_section (some "OSError") targeted ("a.md" ∷ []) (run_section queued)

failed_run : Trace queued (finish (some "OSError") failed_sync)
unfolding enqueue_section run_section synced_section submit
failed_run =
    after (after (after begin (run (0, refl))) (synced (some "OSError") (0, refl)))
      (finished (0, refl))

queued-IsAwake : IsAwake queued
unfolding enqueue_section submit
queued-IsAwake c w = refl

Trace-IsAwake_example : IsAwake (finish (some "OSError") failed_sync)
Trace-IsAwake_example = Trace-IsAwake failed_run queued-IsAwake

Trace-owes_example :
    ((finish (some "OSError") failed_sync).closed ≡ false)
    × (owes "a.md" (finish (some "OSError") failed_sync) ≡ true)
unfolding failed_run enqueue_section submit
Trace-owes_example = Trace-owes failed_run "a.md" refl (((tt, refl), refl), refl) refl

abbrev asked : Indexer
asked = record (new_indexer true) { full_sync_requested = true }

Event-requires_full_example :
    requires_full_sync (enqueue_section none false ("a.md" ∷ []) asked).0 ≡ true
Event-requires_full_example =
    Event-requires_full {s = asked} (enqueue none false ("a.md" ∷ [])) refl refl

Event-serial_example : serial_of (run_section queued).future ≡ serial_of queued.future
unfolding enqueue_section submit
Event-serial_example = Event-serial (run (0, refl)) refl
