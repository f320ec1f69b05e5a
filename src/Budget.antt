-- ===== src/Budget.antt =====
-- The request-local budget of app/services/scoped_budget.py: aggregate and per-space counters with
-- ceilings, reads, cleanup credits, and the relationship view.
-- Space ids are numbers. A `dict` with a fixed set of keys is a function. The code compares a count
-- with `remaining`, a minimum of two differences that Python lets fall below zero; here the same
-- test is written with sums, so that no subtraction is cut off. An exception comes back beside the
-- state that it leaves.
pub mod Charges
pub mod Credits
pub mod Parsing
mod Samples
use vault_bridge.Base.{
  ℕ, zero, suc, ◌+◌, ◌-◌, ◌*◌, ◌/◌, min, String, Bool, true, false, not, ◌&&◌, ◌||◌, Option, none,
  some, List, [], ◌∷◌, leb, ltb, ◌==◌, str_eq, if◌then◌else◌, length, any,
}

-- the keys of CEILINGS
pub data Resource : Type 0 where
  paths entries directories probes aliases directory_aliases bytes relationships : Resource
  comparisons semantic_rows semantic_bytes sqlite_steps : Resource

abbrev pub rank : Resource → ℕ
rank paths = 0
rank entries = 1
rank directories = 2
rank probes = 3
rank aliases = 4
rank directory_aliases = 5
rank bytes = 6
rank relationships = 7
rank comparisons = 8
rank semantic_rows = 9
rank semantic_bytes = 10
rank sqlite_steps = 11

abbrev pub is_probes : Resource → Bool
is_probes name = rank name == 3

-- CEILINGS: the aggregate limit and the limit for each space
unfoldable pub ceiling : Resource → ℕ × ℕ
ceiling paths = (20000, 10000)
ceiling entries = (100000, 25000)
ceiling directories = (10000, 2500)
ceiling probes = (2000000, 500000)
ceiling aliases = (20000, 10000)
ceiling directory_aliases = (20000, 10000)
ceiling bytes = (268435456, 268435456)
ceiling relationships = (200000, 50000)
ceiling comparisons = (320000, 320000)
ceiling semantic_rows = (100000, 50000)
ceiling semantic_bytes = (268435456, 268435456)
ceiling sqlite_steps = (10000000, 5000000)

pub data Error : Type 0 where
  exhausted : Resource → Error
  value_error runtime_error operation_cancelled : Error

-- ScopedBudget
pub record Budget : Type 0 where
  pub ids : List ℕ
  pub ceilings : Resource → ℕ × ℕ
  pub total : Resource → ℕ
  pub used : ℕ → Resource → ℕ
  pub reserved : ℕ → ℕ
  pub reads : ℕ
  pub candidate_reads : ℕ → ℕ
  pub incoming_reads : List (ℕ × String)
  pub parse_probes : ℕ
  pub space_parse_probes : ℕ → ℕ
  pub relationship_sources : List (ℕ × String)
  pub source_bytes : ℕ → ℕ

-- `self.allocations[sid][name]`, the same for every selected space
abbrev pub allocation : Budget → Resource → ℕ
allocation b name = min (b.ceilings name).1 ((b.ceilings name).0 / length b.ids)

abbrev pub sum_over : (ℕ → ℕ) → List ℕ → ℕ
sum_over f [] = 0
sum_over f (x ∷ xs) = f x + sum_over f xs

abbrev pub has_id : ℕ → List ℕ → Bool
has_id a [] = false
has_id a (x ∷ xs) = x == a || has_id a xs

abbrev pub all_distinct : List ℕ → Bool
all_distinct [] = true
all_distinct (x ∷ xs) = not (has_id x xs) && all_distinct xs

-- the limits that a caller may set: a pair for a resource, or none
abbrev pub lowered : (Resource → Option (ℕ × ℕ)) → Resource → ℕ × ℕ
lowered limits name = elim (limits name) [ none ↦ ceiling name | some pair ↦ pair ]

abbrev pub within : ℕ × ℕ → ℕ × ℕ → Bool
within (a, b) (c, d) = leb a c && leb b d

abbrev pub within_ceiling : (Resource → Option (ℕ × ℕ)) → Resource → Bool
within_ceiling limits name = within (lowered limits name) (ceiling name)

abbrev pub resources : List Resource
resources =
    paths ∷ entries ∷ directories ∷ probes ∷ aliases ∷ directory_aliases ∷ bytes ∷ relationships
    ∷ comparisons ∷ semantic_rows ∷ semantic_bytes ∷ sqlite_steps ∷ []

abbrev pub every_resource : (Resource → Bool) → List Resource → Bool
every_resource p [] = true
every_resource p (x ∷ xs) = p x && every_resource p xs

abbrev pub new_budget : List ℕ → (Resource → ℕ × ℕ) → Budget
new_budget ids ceilings = record {
  ids = ids;
  ceilings = ceilings;
  total = λ _. 0;
  used = λ _ _. 0;
  reserved = λ _. 0;
  reads = 0;
  candidate_reads = λ _. 0;
  incoming_reads = [];
  parse_probes = 0;
  space_parse_probes = λ _. 0;
  relationship_sources = [];
  source_bytes = λ _. 0;
}

-- __init__; `none` is the `ValueError`
unfoldable pub init : List ℕ → (Resource → Option (ℕ × ℕ)) → Option Budget
unfolding ceiling
init ids limits =
    if not (leb 1 (length ids))
      || not (all_distinct ids)
      || not (every_resource (within_ceiling limits) resources)
    then none
    else some (new_budget ids (lowered limits))

-- what cleanup credits hold of a resource, in all and for a space
abbrev pub held : Budget → Resource → ℕ
held b name = if is_probes name then sum_over b.reserved b.ids else 0

abbrev pub local_held : Budget → ℕ → Resource → ℕ
local_held b sid name = if is_probes name then b.reserved sid else 0

-- `count <= self.remaining(sid, name)`
unfoldable pub fits : Budget → ℕ → Resource → ℕ → Bool
fits b sid name count =
    leb (b.total name + held b name + count) (b.ceilings name).0
    && leb (b.used sid name + local_held b sid name + count) (allocation b name)

abbrev pub update : (ℕ → ℕ) → ℕ → ℕ → ℕ → ℕ
update f k v j = if j == k then v else f j

abbrev pub spend : Budget → ℕ → Resource → ℕ → Budget
spend b sid name count = record b {
  total = λ r. if rank r == rank name then b.total r + count else b.total r;
  used = λ j r. if j == sid && rank r == rank name then b.used j r + count else b.used j r;
}

-- charge
unfoldable pub charge : Budget → ℕ → Resource → ℕ → Budget × Option Error
unfolding fits
charge b sid name count =
    if not (fits b sid name count)
    then (b, some (exhausted name))
    else (spend b sid name count, none)

-- CleanupCredit; `live` while its `budget` is not None
pub record Credit : Type 0 where
  pub sid : ℕ
  pub left : ℕ
  pub live : Bool

-- reserve_cleanup
unfoldable pub reserve_cleanup : Budget → ℕ → Budget × (Option Credit)
unfolding fits
reserve_cleanup b sid = if not (fits b sid probes 8) then (b, none) else (
  record b { reserved = update b.reserved sid (b.reserved sid + 8) },
  some (record { sid = sid; left = 8; live = true }),
)

-- CleanupCredit.probe
unfoldable pub credit_probe : Budget → Credit → Budget × Credit × Option Error
unfolding charge
credit_probe b c =
    let freed = record b { reserved = update b.reserved c.sid (b.reserved c.sid - 1) } in
    let (charged, error) = charge freed c.sid probes 1 in
    if not c.live
    then (b, c, none)
    else if c.left == 0
    then (b, c, some runtime_error)
    else (charged, record c { left = c.left - 1 }, error)

-- CleanupCredit.finish
unfoldable pub credit_finish : Budget → Credit → Budget × Credit
credit_finish b c =
    if c.live
    then (
      record b { reserved = update b.reserved c.sid (b.reserved c.sid - c.left) },
      record c { live = false },
    )
    else (b, c)

abbrev pub same_key : ℕ → String → ℕ × String → Bool
same_key sid path (s, p) = s == sid && str_eq p path

-- admit_read
unfoldable pub admit_read : Budget → ℕ → String → Bool → Budget × Option Error
admit_read b sid path incoming =
    if leb 20016 b.reads
    then (b, some (exhausted bytes))
    else if incoming
    then (if any (same_key sid path) b.incoming_reads || length b.incoming_reads == 16
        then (b, some (exhausted bytes))
        else (
          record b { incoming_reads = (sid, path) ∷ b.incoming_reads; reads = b.reads + 1 },
          none,
        ))
    else (if b.candidate_reads sid == allocation b paths then (b, some (exhausted bytes)) else (
      record b {
        candidate_reads = update b.candidate_reads sid (b.candidate_reads sid + 1);
        reads = b.reads + 1;
      },
      none,
    ))

-- RelationshipBudgetView: the space, and its parse credit; whether the caller has cancelled is an
-- argument of each operation.
pub record View : Type 0 where
  pub sid : ℕ
  pub parse_remaining : ℕ

-- source
unfoldable pub source : Bool → Budget → View → String → ℕ → Budget × View × Option Error
source cancelled b v path byte_length =
    if cancelled
    then (b, v, some operation_cancelled)
    else if any (same_key v.sid path) b.relationship_sources
    then (b, v, some value_error)
    else if ltb (b.used v.sid bytes) (byte_length + b.source_bytes v.sid)
    then (b, v, some value_error)
    else (
      record b {
        relationship_sources = (v.sid, path) ∷ b.relationship_sources;
        source_bytes = update b.source_bytes v.sid (b.source_bytes v.sid + byte_length);
      },
      record v { parse_remaining = 16 * byte_length },
      none,
    )

-- available
unfoldable pub available : Budget → View → Bool
unfolding fits
available b v = fits b v.sid relationships 1

-- one round of the loop in `probe`
abbrev pub parse_batch : Budget → ℕ → ℕ → Budget
parse_batch b sid batch = record b {
  parse_probes = b.parse_probes + batch;
  space_parse_probes = update b.space_parse_probes sid (b.space_parse_probes sid + batch);
}

-- the loop in `probe`; the list says for each round whether the caller has cancelled by then
unfoldable pub probe_loop : ℕ → (ℕ → Bool) → Budget → View → ℕ → Budget × View × Option Error
probe_loop zero cancelled b v count = (b, v, none)
probe_loop (suc fuel) cancelled b v count =
    let batch = min 1024 count in
    let rest =
      probe_loop fuel cancelled (parse_batch b v.sid batch)
        (record v { parse_remaining = v.parse_remaining - batch }) (count - batch) in
    if count == 0
    then (b, v, none)
    else if cancelled count
    then (b, v, some operation_cancelled)
    else rest

-- probe; `count` rounds are enough, since every round takes at least one. Whether the caller has
-- cancelled is read at each round, and is told by the count that is left.
unfoldable pub probe : (ℕ → Bool) → Budget → View → ℕ → Budget × View × Option Error
unfolding probe_loop
probe cancelled b v count =
    let run = probe_loop (suc count) cancelled b v count in
    if ltb v.parse_remaining count then (b, v, some (exhausted relationships)) else run

-- try_admit
unfoldable pub try_admit : Bool → Budget → View → Budget × Option Error
unfolding charge
try_admit cancelled b v =
    if cancelled
    then (b, some operation_cancelled)
    else if v.parse_remaining == 0
    then (b, some (exhausted relationships))
    else charge b v.sid relationships 1
