-- ===== src/Scheduler/Sections.antt =====
-- Every section that admits, moves or drops reservations keeps what `Keeps` says.
use vault_bridge.Base.{
  ℕ, suc, ◌+◌, ◌<◌, String, ◌≡◌, ◌∙◌, refl, inl, inr, Bool, true, false, not, ◌&&◌, ◌||◌, arith,
  str_eq, eq_iff, length, is_some, Bool-cases, leb, ◌==◌,
}
use vault_bridge.Base.Sets.{mem, insert}
use vault_bridge.Base.Dict.{get, put, keys, mem-put, put-IsDistinct}
use vault_bridge.Scheduler.State.{
  Owner, Outcome, identities, global_target_limit, space_target_limit,
}
use vault_bridge.Scheduler.Queue.{
  request_full, wake, admit, undefer, enqueue_admitted, enqueue_section, debounce_admitted,
  debounce_section, deadline_of,
}
use vault_bridge.Scheduler.Count.{IsWell, held, mem-identities, same_size, one_more}
use vault_bridge.Scheduler.Keeps.{
  size, owes, Keeps, Quiet, Quiet-refl, Quiet-trans, Quiet-wake, Quiet-request_full, Keeps-of_Quiet,
  Keeps-Quiet, undefer-IsWell, held-undefer,
}

pub record SameTurn (e d : Owner) : Type 0 where
  pub inflight_kept : d.inflight ≡ e.inflight
  pub continuation_kept : d.continuation ≡ e.continuation
  pub running_kept : d.running ≡ e.running
  pub full_kept : d.full_needed ≡ e.full_needed

-- One path joins the held ones, and is counted if it is new.
module _ (total : ℕ) (c : String) (e d : Owner) (b : Bool) (w : IsWell e) (v : IsWell d)
    (joined : (a : String) → held d a ≡ (str_eq c a || held e a)) (t : SameTurn e d) where
  debt_of_join : (a : String) → owes e a ≡ true → owes d a ≡ true
  debt_of_join a h = ground (arith, joined a, t.full_kept)

  pub Keeps-of_known :
      mem c (identities e) ≡ true → Keeps total e (record { owner = d; count = total; answer = b })
  Keeps-of_known known = record {
    well = v;
    balance = omega (arith, sizes);
    within = λ h. omega (arith, sizes);
    within_all = λ h. h;
    inflight_kept = t.inflight_kept;
    continuation_kept = t.continuation_kept;
    running_kept = t.running_kept;
    full_kept = λ h. t.full_kept ∙ h;
    debt_kept = debt_of_join;
  }
    where
      sizes : size d ≡ size e
      sizes = same_size d e v w (λ a. ground (arith, joined a, mem-identities c e, eq_iff c a))

  Keeps-of_new :
      mem c (identities e) ≡ false
      → total < global_target_limit
      → size e < space_target_limit
      → Keeps total e (record { owner = d; count = total + 1; answer = b })
  Keeps-of_new fresh room space = record {
    well = v;
    balance = omega (arith, sizes);
    within = λ h. omega (arith, sizes);
    within_all = λ h. omega arith;
    inflight_kept = t.inflight_kept;
    continuation_kept = t.continuation_kept;
    running_kept = t.running_kept;
    full_kept = λ h. t.full_kept ∙ h;
    debt_kept = debt_of_join;
  }
    where
      sizes : size d ≡ suc (size e)
      sizes = one_more c d e v w fresh joined

-- How an admission ends: the path is known, or there is room for it, or full debt takes its place.
module _ {ℓ} (closed : Bool) (total : ℕ) (e : Owner) (c : String) (P : Outcome → Type ℓ) where
  pub admit-cases :
      (mem c (identities e) ≡ true → P (record { owner = e; count = total; answer = true }))
      → (mem c (identities e) ≡ false
          → total < global_target_limit
          → size e < space_target_limit
          → P (record { owner = e; count = total + 1; answer = true }))
      → P (record { owner = wake closed (request_full e); count = total; answer = false })
      → P (admit closed total e c)
  admit-cases known new over = elim (Bool-cases (mem c (identities e))) [
    | inl m ↦ rw m (known m)
    | inr m ↦
        elim (Bool-cases
          (leb global_target_limit total || leb space_target_limit (length (identities e)))) [
            | inl full ↦ rw (m, full) over
            | inr room ↦ rw (m, room) (new m (ground arith) (ground arith))
          ]
  ]

pub SameTurn-undefer :
    (c : String) (e : Owner) → SameTurn e (undefer c (record e { pending = insert c e.pending }))
SameTurn-undefer c e = elim (Bool-cases (mem c (keys e.deferred))) [
  | inl m ↦ rw m (record {
    inflight_kept = refl;
    continuation_kept = refl;
    running_kept = refl;
    full_kept = refl;
  })
  | inr m ↦ rw m (record {
    inflight_kept = refl;
    continuation_kept = refl;
    running_kept = refl;
    full_kept = refl;
  })
]

Quiet-over : (closed : Bool) (e : Owner) → Quiet e (wake closed (request_full e))
Quiet-over closed e = Quiet-trans (Quiet-request_full e) (Quiet-wake closed (request_full e))

enqueue_admitted-Keeps :
    (closed : Bool) (total : ℕ) (e : Owner) (c : String)
    → IsWell e
    → Keeps total e (enqueue_admitted closed c (admit closed total e c))
enqueue_admitted-Keeps closed total e c w =
    let d = undefer c (record e { pending = insert c e.pending }) in
    let v = undefer-IsWell c e w in
    let joined = λ (a : String). held-undefer c a e in
    let t = SameTurn-undefer c e in
    admit-cases closed total e c (λ o. Keeps total e (enqueue_admitted closed c o))
      (λ m. Keeps-Quiet (Keeps-of_known total c e d true w v joined t m) (Quiet-wake closed d))
      (λ m r s.
        Keeps-Quiet (Keeps-of_new total c e d true w v joined t m r s) (Quiet-wake closed d))
      (Keeps-of_Quiet total false w (Quiet-over closed e))

pub enqueue_section-Keeps :
    (closed : Bool) (total : ℕ) (e : Owner) (c : String)
    → IsWell e
    → Keeps total e (enqueue_section closed total e c)
unfolding enqueue_section
enqueue_section-Keeps true total e c w = Keeps-of_Quiet total false w (Quiet-refl e)
enqueue_section-Keeps false total e c w = elim (Bool-cases (mem c e.pending)) [
  | inl m ↦ rw m (Keeps-of_Quiet total false w (Quiet-wake false e))
  | inr m ↦ rw m (enqueue_admitted-Keeps false total e c w)
]

abbrev pub defer : String → ℕ → Owner → Owner
defer c deadline e = record e {
  deferred = put c (deadline_of (get c e.deferred) deadline) e.deferred;
}

defer-IsWell : (c : String) (deadline : ℕ) (e : Owner) → IsWell e → IsWell (defer c deadline e)
defer-IsWell c deadline e w = record {
  pending_distinct = w.pending_distinct;
  inflight_distinct = w.inflight_distinct;
  deferred_distinct = put-IsDistinct c _ e.deferred w.deferred_distinct;
}

debounce_admitted-Keeps :
    (total deadline : ℕ) (e : Owner) (c : String)
    → IsWell e
    → Keeps total e (debounce_admitted false c deadline (admit false total e c))
debounce_admitted-Keeps total deadline e c w =
    let d = defer c deadline e in
    let v = defer-IsWell c deadline e w in
    let joined : (a : String) → held d a ≡ (str_eq c a || held e a) =
      λ a. ground (arith, mem-put c a (deadline_of (get c e.deferred) deadline) e.deferred) in
    let t : SameTurn e d = record {
      inflight_kept = refl;
      continuation_kept = refl;
      running_kept = refl;
      full_kept = refl;
    } in
    admit-cases false total e c (λ o. Keeps total e (debounce_admitted false c deadline o))
      (λ m. Keeps-Quiet (Keeps-of_known total c e d true w v joined t m) (Quiet-wake false d))
      (λ m r s. Keeps-Quiet (Keeps-of_new total c e d true w v joined t m r s) (Quiet-wake false d))
      (Keeps-of_Quiet total false w (Quiet-over false e))

pub debounce_section-Keeps :
    (accepted : Bool) (total revision deadline : ℕ) (e : Owner) (c : String)
    → IsWell e
    → Keeps total e (debounce_section accepted total revision deadline e c)
unfolding debounce_section
debounce_section-Keeps accepted total revision deadline e c w =
    elim (Bool-cases (not accepted || is_some e.monitoring_error_type)) [
      | inl shut ↦ rw shut (Keeps-of_Quiet total false w (Quiet-refl e))
      | inr live ↦
          elim (Bool-cases
            (not (mem c (keys e.deferred)) && not (revision == e.debounce_revision))) [
              | inl stale ↦ rw (live, stale) (Keeps-of_Quiet total false w (Quiet-over false e))
              | inr current ↦ rw (live, current) (debounce_admitted-Keeps total deadline e c w)
            ]
    ]
