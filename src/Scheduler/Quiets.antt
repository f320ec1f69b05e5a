-- ===== src/Scheduler/Quiets.antt =====
-- The sections of the watcher's protocol move no reservation.
use vault_bridge.Base.{
  ℕ, ◌+◌, String, ◌≡◌, ◌∙◌, refl, Bool, true, false, not, ◌&&◌, Option, none, some, if◌then◌else◌,
  is_some, ◌==◌,
}
use vault_bridge.Scheduler.State.{Owner, same_pair}
use vault_bridge.Scheduler.Queue.{request_full, wake}
use vault_bridge.Scheduler.Monitor.{
  can_reconcile, loss_section, failed_section, gap_section, restored_section, reconstructed_section,
  recovered, reconcile_recovered, fenced,
}
use vault_bridge.Scheduler.Keeps.{Quiet, Quiet-refl, Quiet-trans, Quiet-wake, Quiet-request_full}

Quiet-asked : (closed : Bool) (e : Owner) → Quiet e (wake closed (request_full e))
Quiet-asked closed e = Quiet-trans (Quiet-request_full e) (Quiet-wake closed (request_full e))

Quiet-if : (b : Bool) {e c d : Owner} → Quiet e c → Quiet e d → Quiet e (if b then c else d)
Quiet-if true p q = p
Quiet-if false p q = q

-- An owner of which only fields of the watcher's protocol differ.
abbrev pub QuietFields : (e d : Owner) → Type 0
QuietFields e d =
    (d.pending ≡ e.pending)
    × (d.deferred ≡ e.deferred)
    × (d.inflight ≡ e.inflight)
    × (d.continuation ≡ e.continuation)
    × (d.running ≡ e.running)
    × (d.full_needed ≡ e.full_needed)

pub Quiet-of_fields : {e d : Owner} → QuietFields e d → Quiet e d
Quiet-of_fields (p, m, i, c, r, f) = record {
  pending_kept = p;
  deferred_kept = m;
  inflight_kept = i;
  continuation_kept = c;
  running_kept = r;
  full_kept = λ h. f ∙ h;
}

pub Quiet-loss_section : (closed : Bool) (e : Owner) → Quiet e (loss_section closed e)
unfolding loss_section
Quiet-loss_section closed e = Quiet-if e.full_needed (Quiet-request_full e) (Quiet-asked closed e)

pub Quiet-failed_section :
    (closed : Bool) (error_type : String) (e : Owner) → Quiet e (failed_section closed error_type e)
unfolding failed_section
Quiet-failed_section closed error_type e =
    let noted = record e {
      monitoring_error_type = some error_type;
      monitoring_revision = e.monitoring_revision + 1;
      monitoring_failure_revision = e.monitoring_revision + 1;
      watcher_verified = none;
      coverage_revision = e.coverage_revision + 1;
    } in
    Quiet-if (is_some e.monitoring_error_type)
      (Quiet-of_fields (refl, refl, refl, refl, refl, refl))
      (Quiet-trans (Quiet-of_fields {e = e} {d = noted} (refl, refl, refl, refl, refl, refl))
        (Quiet-loss_section closed noted))

pub Quiet-gap_section :
    (accepted : Bool) (token : Option ℕ) (closed reconcile : Bool) (e : Owner)
    → Quiet e (gap_section accepted token closed reconcile e).0
unfolding gap_section
Quiet-gap_section false token closed reconcile e = Quiet-refl e
Quiet-gap_section true token closed reconcile e =
    let gone = record e {
      coverage_revision = e.coverage_revision + 1;
      monitoring_revision = e.monitoring_revision + 1;
    } in
    let q : Quiet e gone = Quiet-of_fields (refl, refl, refl, refl, refl, refl) in
    Quiet-if (reconcile && can_reconcile token gone)
      (Quiet-trans q (Quiet-loss_section closed gone)) q

pub Quiet-restored_section :
    (accepted : Bool) (token : Option ℕ) (ticket : ℕ × ℕ) (e : Owner)
    → Quiet e (restored_section accepted token ticket e)
unfolding restored_section
Quiet-restored_section accepted token (revision, failure_revision) e =
    let proved = record e { coverage_restored = revision } in
    let q : Quiet e proved = Quiet-of_fields (refl, refl, refl, refl, refl, refl) in
    Quiet-if _ (Quiet-refl e)
      (Quiet-if (not (can_reconcile token proved)) q (Quiet-trans q (Quiet-asked false proved)))

Quiet-recovered : (revision : ℕ) (e : Owner) → Quiet e (recovered revision e)
Quiet-recovered revision e =
    Quiet-if (e.coverage_revision == revision)
      (Quiet-of_fields (refl, refl, refl, refl, refl, refl)) (Quiet-refl e)

Quiet-reconcile_recovered : (e : Owner) → Quiet e (reconcile_recovered e)
Quiet-reconcile_recovered e =
    Quiet-if (not (e.coverage_restored == e.coverage_revision)) (Quiet-refl e) (Quiet-asked false e)

pub Quiet-reconstructed_section :
    (accepted : Bool) (token revision failure_revision coverage_revision : ℕ) (e : Owner)
    → Quiet e (reconstructed_section accepted token revision failure_revision coverage_revision e)
unfolding reconstructed_section
Quiet-reconstructed_section accepted token revision failure_revision coverage_revision e =
    let verified = record e { watcher_verified = some (token, failure_revision) } in
    let q : Quiet e verified = Quiet-of_fields (refl, refl, refl, refl, refl, refl) in
    Quiet-if _ (Quiet-refl e) (
      Quiet-if (same_pair e.watcher_verified token failure_revision) (Quiet-refl e) (
        Quiet-if _
          (Quiet-trans q (
            Quiet-trans (Quiet-recovered coverage_revision verified)
              (Quiet-reconcile_recovered (recovered coverage_revision verified))))
          q))

pub Quiet-fenced : (e : Owner) → Quiet e (fenced e)
Quiet-fenced e = Quiet-of_fields (refl, refl, refl, refl, refl, refl)
