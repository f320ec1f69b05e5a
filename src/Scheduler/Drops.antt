-- ===== src/Scheduler/Drops.antt =====
-- The sections that drop reservations keep what `Keeps` says: full debt takes the place of the
-- paths, and the count falls by as many as leave.
use vault_bridge.Base.{
  ℕ, ◌+◌, ◌-◌, ◌≤◌, String, ◌≡◌, ◌∙◌, sym, subst, refl, inl, inr, Bool, true, false, not, ◌||◌,
  List, [], ◌∷◌, arith, str_eq, eq_iff, length, is_some, Bool-cases, leb,
}
use vault_bridge.Base.Sets.{mem, IsDistinct, insert, minus}
use vault_bridge.Base.Dict.{get, delete, keys, mem-get, delete-IsDistinct}
use vault_bridge.Scheduler.State.{Owner, Outcome, ok, identities}
use vault_bridge.Scheduler.Queue.{
  request_full, undefer, is_due, debounce_failed_section, deliver_section, retire_section,
  cancel_section, shutdown_section,
}
use vault_bridge.Scheduler.Count.{
  IsWell, held, mem-identities, identities-IsDistinct, fewer, length-minus, length-eq_of_same,
}
use vault_bridge.Scheduler.Keeps.{
  size, owes, Keeps, Quiet-refl, Quiet-wake, Keeps-of_Quiet, Keeps-Quiet, undefer-IsWell,
  held-undefer, mem-keys-delete,
}
use vault_bridge.Scheduler.Sections.{Keeps-of_known, SameTurn-undefer}

pub pos_of_mem : (a : String) (xs : List String) → mem a xs ≡ true → 1 ≤ length xs
pos_of_mem a [] h = ground arith
pos_of_mem a (x ∷ xs) h = omega arith

-- Fewer paths are held, the count falls as the size does, and everything is owed.
module _ (total : ℕ) (e d : Owner) (b : Bool) (w : IsWell e) (v : IsWell d)
    (enough : size e ≤ total) (less : (a : String) → held d a ≡ true → held e a ≡ true)
    (inflight_kept : d.inflight ≡ e.inflight) (continuation_kept : d.continuation ≡ e.continuation)
    (running_kept : d.running ≡ e.running) (full_kept : e.full_needed ≡ true → d.full_needed ≡ true)
    (debt : (a : String) → owes e a ≡ true → d.full_needed ≡ true) where
  pub Keeps-of_drop :
      (count : ℕ)
      → count + size e ≡ total + size d
      → Keeps total e (record { owner = d; count = count; answer = b })
  Keeps-of_drop count balance = record {
    well = v;
    balance = balance;
    within = λ h. omega (arith, fewer d e v w less);
    within_all = λ h. omega (arith, fewer d e v w less, balance);
    inflight_kept = inflight_kept;
    continuation_kept = continuation_kept;
    running_kept = running_kept;
    full_kept = full_kept;
    debt_kept = λ a h. ground (arith, debt a h);
  }

abbrev pub undeferred : String → Owner → Owner
undeferred path e = record e {
  deferred = delete path e.deferred;
  debounce_revision = e.debounce_revision + 1;
}

undeferred-IsWell : (path : String) (e : Owner) → IsWell e → IsWell (undeferred path e)
undeferred-IsWell path e w = record {
  pending_distinct = w.pending_distinct;
  inflight_distinct = w.inflight_distinct;
  deferred_distinct = delete-IsDistinct path e.deferred w.deferred_distinct;
}

held-undeferred :
    (path a : String) (e : Owner) → held (undeferred path e) a ≡ true → held e a ≡ true
held-undeferred path a e h = ground (arith, mem-keys-delete path a e.deferred)

pub debounce_failed_section-Keeps :
    (closed : Bool) (total : ℕ) (e : Owner) (path : String) (deadline : ℕ)
    → IsWell e
    → size e ≤ total
    → Keeps total e (debounce_failed_section closed total e path deadline)
unfolding debounce_failed_section
debounce_failed_section-Keeps closed total e path deadline w enough =
    elim (Bool-cases (is_due (get path e.deferred) deadline)) [
      | inr early ↦ rw early (Keeps-of_Quiet total false w (Quiet-refl e))
      | inl due ↦ rw due (
          Keeps-Quiet
            (Keeps-of_drop total e (request_full d) false w v enough
              (λ a h. held-undeferred path a e h) refl refl refl (λ h. refl) (λ a h. refl)
              (total + size d - size e) (omega arith))
            (Quiet-wake closed (request_full d)))
    ]
  where
    d : Owner
    d = undeferred path e

    v : IsWell (request_full d)
    v =
        let u = undeferred-IsWell path e w in
        record {
          pending_distinct = u.pending_distinct;
          inflight_distinct = u.inflight_distinct;
          deferred_distinct = u.deferred_distinct;
        }

due-mem :
    (path : String) (deadline : ℕ) (e : Owner)
    → is_due (get path e.deferred) deadline ≡ true
    → mem path (keys e.deferred) ≡ true
due-mem path deadline e h = ground (arith, mem-get path e.deferred)

pub deliver_section-Keeps :
    (attached : Bool) (total : ℕ) (e : Owner) (path canonical : String) (deadline : ℕ) {o : Outcome}
    → IsWell e
    → size e ≤ total
    → deliver_section attached total e path canonical deadline ≡ ok o
    → Keeps total e o
unfolding deliver_section
deliver_section-Keeps attached total e path canonical deadline {o} w enough r =
    elim (Bool-cases (not attached || not (is_due (get path e.deferred) deadline))) [
      | inl late ↦
          subst (Keeps total e) (ground arith) (Keeps-of_Quiet total false w (Quiet-refl e))
      | inr due ↦ elim (Bool-cases (str_eq canonical path)) [
        | inr moved ↦ ground arith
        | inl same ↦ elim (Bool-cases (is_some e.monitoring_error_type)) [
          | inl broken ↦
              subst (Keeps total e) (ground arith)
                (debounce_failed_section-Keeps false total e path deadline w enough)
          | inr sound ↦
              let there : mem canonical (keys e.deferred) ≡ true =
                ground (arith, due-mem path deadline e, eq_iff canonical path) in
              let d = undefer canonical (record e { pending = insert canonical e.pending }) in
              subst (Keeps total e) (ground arith) (
                Keeps-Quiet
                  (Keeps-of_known total canonical e d true w (undefer-IsWell canonical e w)
                    (λ a. held-undefer canonical a e) (SameTurn-undefer canonical e)
                    (ground (arith, mem-identities canonical e)))
                  (Quiet-wake false d))
        ]
      ]
    ]

pub retire_section-Keeps :
    (total : ℕ) (e : Owner) → IsWell e → size e ≤ total → Keeps total e (retire_section total e)
unfolding retire_section
retire_section-Keeps total e w enough = elim (Bool-cases (leb 1 (length e.deferred))) [
  | inr empty ↦ rw empty (Keeps-of_Quiet total false w (Quiet-refl e))
  | inl busy ↦ rw busy (
      Keeps-of_drop total e (request_full d) true w v enough (λ a h. ground arith) refl refl refl
        (λ h. refl) (λ a h. refl) (total + size d - size e) (omega arith))
]
  where
    d : Owner
    d = record e { deferred = []; debounce_revision = e.debounce_revision + 1 }

    v : IsWell (request_full d)
    v = record {
      pending_distinct = w.pending_distinct;
      inflight_distinct = w.inflight_distinct;
      deferred_distinct = tt;
    }

-- An owner that holds its in-flight paths alone.
module _ (e d : Owner) (w : IsWell e) (no_pending : d.pending ≡ []) (no_deferred : d.deferred ≡ [])
    (inflight_kept : d.inflight ≡ e.inflight) where
  pub held_inflight : (a : String) → held d a ≡ mem a e.inflight
  held_inflight a = rw (no_pending, no_deferred, inflight_kept) (ground arith)

  pub only_inflight-IsWell : IsWell d
  only_inflight-IsWell = record {
    pending_distinct = subst IsDistinct (sym no_pending) tt;
    inflight_distinct = subst IsDistinct (sym inflight_kept) w.inflight_distinct;
    deferred_distinct = subst (λ m. IsDistinct (keys m)) (sym no_deferred) tt;
  }

  pub only_inflight-size : size d ≡ length e.inflight
  only_inflight-size =
      length-eq_of_same (identities d) e.inflight (identities-IsDistinct d only_inflight-IsWell)
        w.inflight_distinct (λ a. mem-identities a d ∙ held_inflight a)

  pub only_inflight-count : length (minus (identities e) e.inflight) + size d ≡ size e
  only_inflight-count = omega (
    arith,
    only_inflight-size,
    length-minus (identities e) e.inflight (identities-IsDistinct e w) w.inflight_distinct
        (λ a h. ground (arith, mem-identities a e)),
  )

debt_of_size :
    (e : Owner) (b : Bool) (a : String)
    → owes e a ≡ true
    → (leb 1 (length (identities e)) || b || e.full_needed) ≡ true
debt_of_size e b a h = ground (arith, mem-identities a e, pos_of_mem a (identities e))

module _ (total : ℕ) (e : Owner) (w : IsWell e) (enough : size e ≤ total) where
  pub cancel_section-Keeps : Keeps total e (cancel_section total e)
  unfolding cancel_section
  cancel_section-Keeps =
      let d = (cancel_section total e).owner in
      Keeps-of_drop total e d true w (only_inflight-IsWell e d w refl refl refl) enough
        (λ a h. ground (arith, held_inflight e d w refl refl refl a)) refl refl refl
        (λ h. ground arith)
        (λ a h. ground (arith, debt_of_size e (is_some e.continuation || e.running) a h))
        (total - length (minus (identities e) e.inflight))
        (omega (arith, only_inflight-count e d w refl refl refl))

  pub shutdown_section-Keeps : Keeps total e (shutdown_section total e)
  unfolding shutdown_section
  shutdown_section-Keeps =
      let d = (shutdown_section total e).owner in
      Keeps-of_drop total e d true w (only_inflight-IsWell e d w refl refl refl) enough
        (λ a h. ground (arith, held_inflight e d w refl refl refl a)) refl refl refl
        (λ h. ground arith)
        (λ a h. ground (arith, debt_of_size e (is_some e.continuation || e.running) a h))
        (total - length (minus (identities e) e.inflight))
        (omega (arith, only_inflight-count e d w refl refl refl))

-- A dropped reservation leaves the count no larger.
module _ (total : ℕ) (e : Owner) (w : IsWell e) where
  pub debounce_failed-count :
      (closed : Bool) (path : String) (deadline : ℕ)
      → (debounce_failed_section closed total e path deadline).count ≤ total
  unfolding debounce_failed_section
  debounce_failed-count closed path deadline =
      let less : size (undeferred path e) ≤ size e =
        fewer (undeferred path e) e (undeferred-IsWell path e w) w
          (λ a h. held-undeferred path a e h) in
      elim (Bool-cases (is_due (get path e.deferred) deadline)) [
        | inl due ↦ rw due (omega (arith, less))
        | inr early ↦ rw early (omega arith)
      ]

  pub retire-count : (retire_section total e).count ≤ total
  unfolding retire_section
  retire-count =
      let d : Owner = record e { deferred = []; debounce_revision = e.debounce_revision + 1 } in
      let v : IsWell d = record {
        pending_distinct = w.pending_distinct;
        inflight_distinct = w.inflight_distinct;
        deferred_distinct = tt;
      } in
      let less : size d ≤ size e = fewer d e v w (λ a h. ground arith) in
      elim (Bool-cases (leb 1 (length e.deferred))) [
        | inl busy ↦ rw busy (omega (arith, less))
        | inr empty ↦ rw empty (omega arith)
      ]
