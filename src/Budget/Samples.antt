-- ===== src/Budget/Samples.antt =====
-- The budget of two spaces at concrete inputs.
use vault_bridge.Base.{
  ℕ, ◌+◌, ◌≤◌, ◌≡◌, refl, true, false, Option, none, some, [], ◌∷◌, arith, leb, if◌then◌else◌,
}
use vault_bridge.Budget.{
  Resource, paths, probes, bytes, Error, exhausted, value_error, Budget, allocation, init, fits,
  charge, Credit, reserve_cleanup, credit_probe, credit_finish, View, source, probe, ceiling,
}
use vault_bridge.Budget.Charges.{Inv, taken, fits-own_part}
use vault_bridge.Budget.Credits.{
  init-Inv, charge-Inv, reserve_cleanup-Inv, credit_probe-granted, credit_finish-returns,
}
use vault_bridge.Budget.Parsing.{Probed, probe-Probed}

abbrev no_limits : Resource → Option (ℕ × ℕ)
no_limits _ = none

abbrev or_empty : Option Budget → Budget → Budget
or_empty none b = b
or_empty (some b) _ = b

abbrev two_spaces : Budget
two_spaces = record {
  ids = 1 ∷ 2 ∷ [];
  ceilings = ceiling;
  total = λ _. 0;
  used = λ _ _. 0;
  reserved = λ _. 0;
  reads = 0;
  candidate_reads = λ _. 0;
  incoming_reads = [];
  parse_probes = 0;
  space_parse_probes = λ _. 0;
  relationship_sources = [];
  source_bytes = λ _. 0;
}

two_spaces_built : init (1 ∷ 2 ∷ []) no_limits ≡ some two_spaces
unfolding init
two_spaces_built = refl

two_spaces-Inv : Inv two_spaces
two_spaces-Inv = init-Inv (1 ∷ 2 ∷ []) no_limits two_spaces_built

fits-own_part_example :
    fits two_spaces 1 paths 10001
    ≡ leb (taken two_spaces 1 paths + 10001) (allocation two_spaces paths)
fits-own_part_example = fits-own_part two_spaces 1 paths 10001 two_spaces-Inv refl

charge-Inv_example :
    Inv (charge two_spaces 1 paths 10001).0
    × ((charge two_spaces 1 paths 10001).1 ≡ (
        if leb (taken two_spaces 1 paths + 10001) (allocation two_spaces paths)
        then none
        else some (exhausted paths)))
    × ((charge two_spaces 1 paths 10001).1 ≡ some (exhausted paths)
        → (charge two_spaces 1 paths 10001).0 ≡ two_spaces)
charge-Inv_example = charge-Inv two_spaces 1 paths 10001 two_spaces-Inv refl

abbrev credited : Budget
credited = (reserve_cleanup two_spaces 2).0

abbrev credit : Credit
credit = record { sid = 2; left = 8; live = true }

credited-Inv : Inv credited
credited-Inv = (reserve_cleanup-Inv two_spaces 2 two_spaces-Inv refl).0

credited_ids : 8 ≤ credited.reserved 2
unfolding reserve_cleanup ceiling
credited_ids = omega arith

credited_known : vault_bridge.Budget.has_id 2 credited.ids ≡ true
unfolding reserve_cleanup ceiling
credited_known = refl

credit_probe-granted_example :
    Inv (credit_probe credited credit).0
    × ((credit_probe credited credit).2 ≡ none)
    × ((credit_probe credited credit).1.left + 1 ≡ 8)
    × ((credit_probe credited credit).0.reserved 2 + 1 ≡ credited.reserved 2)
credit_probe-granted_example =
    credit_probe-granted credited credit credited-Inv credited_known refl (omega arith) credited_ids

credit_finish-returns_example :
    Inv (credit_finish credited credit).0
    × ((credit_finish credited credit).0.reserved 2 + 8 ≡ credited.reserved 2)
    × (credit_finish (credit_finish credited credit).0 (credit_finish credited credit).1
        ≡ credit_finish credited credit)
credit_finish-returns_example = credit_finish-returns credited credit credited-Inv refl credited_ids

abbrev view : View
view = record { sid = 1; parse_remaining = 3000 }

probe-Probed_example : Probed two_spaces view 2500 (probe (λ _. false) two_spaces view 2500)
probe-Probed_example = probe-Probed (λ _. false) two_spaces view 2500 (λ n. refl) (omega arith)
