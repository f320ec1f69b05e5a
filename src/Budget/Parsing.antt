-- ===== src/Budget/Parsing.antt =====
-- The parse credit of the relationship view: the loop of `probe` ends, and takes exactly its count.
use vault_bridge.Base.{
  ℕ, zero, suc, ◌+◌, ◌-◌, ◌≤◌, ◌<◌, min, String, ◌≡◌, refl, inl, inr, Bool, false, Option, none,
  some, arith, ltb, ◌==◌, Bool-cases, eq_iff,
}
use vault_bridge.Budget.{
  bytes, Error, value_error, Budget, View, source, parse_batch, probe_loop, probe,
}

-- What a run of `probe` that is not cancelled leaves.
pub record Probed (b : Budget) (v : View) (count : ℕ) (r : Budget × View × Option Error)
    : Type 0 where
  pub no_error : r.2 ≡ none
  pub credit : r.1.parse_remaining + count ≡ v.parse_remaining
  pub same_space : r.1.sid ≡ v.sid
  pub all_probes : r.0.parse_probes ≡ b.parse_probes + count
  pub own_probes : r.0.space_parse_probes v.sid ≡ b.space_parse_probes v.sid + count
  pub charges : (r.0.total ≡ b.total) × (r.0.used ≡ b.used) × (r.0.reserved ≡ b.reserved)

probe_loop-Probed :
    (fuel : ℕ) (cancelled : ℕ → Bool) (b : Budget) (v : View) (count : ℕ)
    → ((n : ℕ) → cancelled n ≡ false)
    → count < fuel
    → count ≤ v.parse_remaining
    → Probed b v count (probe_loop fuel cancelled b v count)
unfolding probe_loop
probe_loop-Probed zero cancelled b v count live h le = elim h [ ]
probe_loop-Probed (suc fuel) cancelled b v count live h le = elim (Bool-cases (count == 0)) [
  | inl done ↦ rw done (record {
    no_error = refl;
    credit = ground arith;
    same_space = refl;
    all_probes = ground arith;
    own_probes = ground arith;
    charges = (refl, refl, refl);
  })
  | inr more ↦
      let batch = min 1024 count in
      let w : View = record v { parse_remaining = v.parse_remaining - batch } in
      let b' = parse_batch b v.sid batch in
      let r =
        probe_loop-Probed fuel cancelled b' w (count - batch) live (ground arith) (omega arith) in
      rw (more, live count)
        (record {
          no_error = r.no_error;
          credit = omega (arith, r.credit);
          same_space = r.same_space;
          all_probes = omega (arith, r.all_probes);
          own_probes = ground (arith, r.own_probes);
          charges = r.charges;
        })
]

-- A probe within the credit, with no cancellation, ends without error: it takes exactly `count` from
-- the view's credit and adds as much to both parse counters, and it charges nothing else.
pub probe-Probed :
    (cancelled : ℕ → Bool) (b : Budget) (v : View) (count : ℕ)
    → ((n : ℕ) → cancelled n ≡ false)
    → count ≤ v.parse_remaining
    → Probed b v count (probe cancelled b v count)
unfolding probe
probe-Probed cancelled b v count live le =
    let fits : ltb v.parse_remaining count ≡ false = ground arith in
    rw fits (probe_loop-Probed (suc count) cancelled b v count live (omega arith) le)

-- A source gives its credit once: after it has been derived, deriving it again is refused and
-- changes nothing, so that the credit of an occurrence cannot be renewed.
pub source-once :
    (b : Budget) (v w : View) (path : String) (n m : ℕ)
    → (source false b v path n).2 ≡ none
    → w.sid ≡ v.sid
    → source false (source false b v path n).0 w path m
      ≡ ((source false b v path n).0, w, some value_error)
unfolding source
source-once b v w path n m h same = ground (arith, eq_iff path path)

-- Derived content is accounted content: a space's derived bytes never pass the bytes that were
-- charged for its verified reads.
pub source-accounted :
    (cancelled : Bool) (b : Budget) (v : View) (path : String) (n sid : ℕ)
    → b.source_bytes sid ≤ b.used sid bytes
    → (source cancelled b v path n).0.source_bytes sid
      ≤ (source cancelled b v path n).0.used sid bytes
unfolding source
source-accounted cancelled b v path n sid h = ground arith
