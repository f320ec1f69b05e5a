-- ===== src/Scheduler/Invariant.antt =====
-- The invariant of the scheduler, kept by every step of every interleaving.
use vault_bridge.Base.{
  ℕ, ◌+◌, ◌≤◌, ◌≡◌, ◌∙◌, ap, sym, subst, inl, inr, Bool, true, false, Option, none, some, arith,
  if◌then◌else◌, is_some, Bool-cases, Option-cases, ◌==◌, ==_iff,
}
use vault_bridge.Scheduler.State.{
  Owner, Scheduler, Outcome, SpaceId, Stage, Phase, starting, checked, preempting, opening,
  beginning, stepping, failing, finishing, idle, turn, find, store, commit, global_target_limit,
}
use vault_bridge.Scheduler.Count.{IsWell}
use vault_bridge.Scheduler.Queue.{each_owner}
use vault_bridge.Scheduler.Keeps.{size, Keeps}
use vault_bridge.Scheduler.Stages.{AtStage}
use vault_bridge.Scheduler.Table.{
  Owners, reserved, AllSound, find-store, reserved-store, AllSound-find, AllSound-store,
  AlwaysKeeps, each_owner-Sweeps, find-each_owner, find-each_owner_none,
}

-- The stage of the turn of an owner, if the worker is in one.
abbrev pub stage_of : Phase → SpaceId → Option Stage
stage_of idle sid = none
stage_of (turn j st) sid = if j == sid then some st else none

-- The count is the number of paths that are held, no limit is passed, and every owner is as the
-- stage of its turn says.
pub record Inv (s : Scheduler) : Type 0 where
  pub counted : s.total ≡ reserved s.owners
  pub within_all : s.total ≤ global_target_limit
  pub sound : AllSound s.owners
  pub staged :
      (sid : SpaceId) (e : Owner) → find sid s.owners ≡ some e → AtStage (stage_of s.phase sid) e

-- The facts of a stage depend on four fields.
pub AtStage-kept :
    (st : Option Stage) (e d : Owner)
    → d.running ≡ e.running
    → d.continuation ≡ e.continuation
    → d.inflight ≡ e.inflight
    → (e.full_needed ≡ true → d.full_needed ≡ true)
    → AtStage st e
    → AtStage st d
AtStage-kept none e d r c i f a = (r ∙ a.0, λ n. i ∙ a.1 (sym c ∙ n))
AtStage-kept (some (starting h)) e d r c i f a = (r ∙ a.0, a.1 ∙ sym c, λ n. i ∙ a.2 (sym c ∙ n))
AtStage-kept (some (checked h)) e d r c i f a = (r ∙ a.0, a.1 ∙ sym c, λ n. i ∙ a.2 (sym c ∙ n))
AtStage-kept (some (preempting h)) e d r c i f a = (r ∙ a.0, f a.1)
AtStage-kept (some opening) e d r c i f a = (r ∙ a.0, c ∙ a.1, i ∙ a.2)
AtStage-kept (some (beginning paths)) e d r c i f a = (r ∙ a.0, tt)
AtStage-kept (some (stepping h)) e d r c i f a = (r ∙ a.0, c ∙ a.1)
AtStage-kept (some (failing h error)) e d r c i f a = (r ∙ a.0, tt)
AtStage-kept (some finishing) e d r c i f a = (r ∙ a.0, λ n. i ∙ a.1 (sym c ∙ n))

-- The owner that a write leaves at an id: the new one at its own id, else the one that was there.
found_after_store :
    (k j : SpaceId) (d : Owner) (m : Owners) {e c : Owner}
    → find k m ≡ some e
    → find j (store k d m) ≡ some c
    → (Path Bool (k == j) true → d ≡ c) × (Path Bool (k == j) false → find j m ≡ some c)
found_after_store k j d m h g = ground (arith, find-store k j d m)

-- One owner is replaced, the phase stays.
pub commit-Inv :
    (sid : SpaceId) {s : Scheduler} {e : Owner} {o : Outcome}
    → Inv s
    → find sid s.owners ≡ some e
    → Keeps s.total e o
    → Inv (commit sid o s)
commit-Inv sid {s} {e} {o} v f k = record {
  counted = omega (arith, v.counted, k.balance, reserved-store sid {e = e} o.owner s.owners f);
  within_all = k.within_all v.within_all;
  sound =
      AllSound-store sid o.owner s.owners
        (record {
          well = k.well;
          within = k.within (AllSound-find sid {e = e} s.owners f v.sound).within;
        })
        v.sound;
  staged = λ j c g.
      let (new, old) = found_after_store sid j o.owner s.owners {e = e} {c = c} f g in
      elim (Bool-cases (sid == j)) [
        | inl here ↦
            let same : sid ≡ j = (==_iff sid j).0 here in
            AtStage-kept (stage_of s.phase j) e c
              (ap (λ (x : Owner). x.running) (sym (new here)) ∙ k.running_kept)
              (ap (λ (x : Owner). x.continuation) (sym (new here)) ∙ k.continuation_kept)
              (ap (λ (x : Owner). x.inflight) (sym (new here)) ∙ k.inflight_kept)
              (λ h. ap (λ (x : Owner). x.full_needed) (sym (new here)) ∙ k.full_kept h)
              (v.staged j e (subst (λ i. find i s.owners ≡ some e) same f))
        | inr there ↦ v.staged j c (old there)
      ];
}

-- The owner of the turn is replaced, and the turn goes on or ends.
pub turn-Inv :
    (sid : SpaceId) {s : Scheduler} {e : Owner} (d : Owner) (count : ℕ) (p : Phase)
    → Inv s
    → ((j : SpaceId) → Path Bool (sid == j) false → stage_of s.phase j ≡ none)
    → find sid s.owners ≡ some e
    → IsWell d
    → count + size e ≡ s.total + size d
    → size d ≤ size e
    → AtStage (stage_of p sid) d
    → ((j : SpaceId) → Path Bool (sid == j) false → stage_of p j ≡ none)
    → Inv (record s { owners = store sid d s.owners; total = count; phase = p })
turn-Inv sid {s} {e} d count p v before f w balance shrinks a elsewhere = record {
  counted = omega (arith, v.counted, reserved-store sid {e = e} d s.owners f);
  within_all = omega (arith, v.within_all);
  sound =
      AllSound-store sid d s.owners
        (record {
          well = w;
          within = omega (arith, (AllSound-find sid {e = e} s.owners f v.sound).within);
        })
        v.sound;
  staged = λ j c g.
      let (new, old) = found_after_store sid j d s.owners {e = e} {c = c} f g in
      elim (Bool-cases (sid == j)) [
        | inl here ↦
            subst (λ i. AtStage (stage_of p i) c) ((==_iff sid j).0 here)
              (subst (AtStage (stage_of p sid)) (new here) a)
        | inr there ↦
            subst (λ t. AtStage t c) (sym (elsewhere j there))
              (subst (λ t. AtStage t c) {y = none} (before j there) (v.staged j c (old there)))
      ];
}

-- A loop of sections over all owners.
pub sweep-Inv :
    (f : ℕ → Owner → Outcome)
    → AlwaysKeeps f
    → {s : Scheduler} → Inv s
    → (t : Scheduler) → t.owners ≡ (each_owner f s.total s.owners).0
    → t.total ≡ (each_owner f s.total s.owners).1
    → t.phase ≡ s.phase
    → Inv t
sweep-Inv f keeps {s} v t owners total phase =
    let r = each_owner-Sweeps f keeps s.total s.owners v.sound (omega (arith, v.counted)) in
    record {
      counted = total ∙ omega (arith, r.balance, v.counted) ∙ ap reserved (sym owners);
      within_all = omega (arith, total, r.within_all v.within_all);
      sound = subst AllSound (sym owners) r.sound;
      staged = λ sid c g.
          let there : is_some (find sid s.owners) ≡ true =
            sym (find-each_owner_none f s.total s.owners sid)
            ∙ ap (λ (m : Owners). is_some (find sid m)) (sym owners)
            ∙ ap (λ (x : Option Owner). is_some x) g in
          elim (Option-cases (find sid s.owners)) [
            | inl gone ↦ absurd (ground arith)
            | inr (e, h) ↦
                let (n, le, found) =
                  find-each_owner f keeps s.total s.owners v.sound (omega (arith, v.counted)) sid
                    {e = e} h in
                let k = keeps n e (AllSound-find sid {e = e} s.owners h v.sound).well le in
                let same : (f n e).owner ≡ c = ground (arith, owners, found, g) in
                subst (λ q. AtStage (stage_of q sid) c) (sym phase)
                  (AtStage-kept (stage_of s.phase sid) e c
                    (ap (λ (x : Owner). x.running) (sym same) ∙ k.running_kept)
                    (ap (λ (x : Owner). x.continuation) (sym same) ∙ k.continuation_kept)
                    (ap (λ (x : Owner). x.inflight) (sym same) ∙ k.inflight_kept)
                    (λ b. ap (λ (x : Owner). x.full_needed) (sym same) ∙ k.full_kept b)
                    (v.staged sid e h))
          ];
    }
