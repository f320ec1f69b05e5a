-- ===== src/Scheduler/State.antt =====
-- The state of `SharedSemanticScheduler` (app/services/semantic_scheduler.py): one `_Owner` for each
-- space, and the fields that they share. Space ids are numbers, whose order stands for the order of
-- the ids; a set of paths is a list without repetition; deadlines are ticks of the clock; watcher
-- tokens and owner objects, which the code compares with `is`, are numbers.
use vault_bridge.Base.{
  ℕ, String, Bool, false, ◌&&◌, Option, none, some, List, [], ◌∷◌, ◌==◌, if◌then◌else◌,
}
use vault_bridge.Base.Sets.{union}
use vault_bridge.Base.Dict.{keys}

pub data Error : Type 0 where
  invalid_scope indexing_disabled unavailable_space runtime_error : Error

pub data Result {ℓ} (A : Type ℓ) : Type ℓ where
  raise : Error → Result A
  ok : A → Result A

-- An exception leaves the rest of the operation out.
abbrev pub ◌>>=◌ {ℓ κ} : {A : Type ℓ} {B : Type κ} → Result A → (A → Result B) → Result B
raise error >>= rest = raise error
ok value >>= rest = rest value

abbrev pub guard : Bool → Error → Result (Unit {0})
guard test error = if test then ok tt else raise error

abbrev pub ◌>>◌ {ℓ} : {B : Type ℓ} → Result (Unit {0}) → Result B → Result B
raise error >> rest = raise error
ok _ >> rest = rest

infixl 5 ◌>>=◌ ◌>>◌
abbrev pub SpaceId : Type 0
SpaceId = ℕ

-- SyncStepState and SyncStep of semantic_sync.py
pub data SyncStepState : Type 0 where
  incomplete complete cancelled failed : SyncStepState

pub record SyncStep : Type 0 where
  pub state : SyncStepState
  pub indexed : ℕ
  pub unchanged : ℕ
  pub removed : ℕ

-- SyncContinuation: the scheduler reads its admitted mode.
pub record SyncContinuation : Type 0 where
  pub full : Bool

-- AuthorizedSpaceBinding, with what the registry says of it at the time of a call.
pub record Binding : Type 0 where
  pub space_id : SpaceId
  pub owners_id : ℕ
  pub registry_token : ℕ
  pub accepted : Bool
  pub read_allowed : Bool
  pub indexing_enabled : Bool

-- QualifiedPath
pub record QualifiedPath : Type 0 where
  pub space_id : SpaceId
  pub relative_path : String

-- _Owner
pub record Owner : Type 0 where
  pub owners_id : ℕ
  pub registry_token : ℕ
  pub cancel : Bool  -- cancel.is_set()
  pub pending : List String
  pub inflight : List String
  pub deferred : List (String × ℕ)
  pub debounce_revision : ℕ
  pub continuation : Option SyncContinuation
  pub full_needed : Bool
  pub full_again : Bool
  pub full_active : Bool
  pub running : Bool
  pub paused : Bool
  pub wake_pending : Bool
  pub error_type : Option String
  pub cleanup_failed : Bool
  pub cleanup_complete : Bool
  pub progress : Option SyncStep
  pub monitoring_error_type : Option String
  pub monitoring_revision : ℕ
  pub monitoring_failure_revision : ℕ
  pub watcher_verified : Option (ℕ × ℕ)
  pub watcher_callbacks : ℕ
  pub coverage_revision : ℕ
  pub coverage_restored : ℕ
  pub coverage_reconciled : ℕ
  pub full_coverage : Option (Option ℕ × ℕ)

-- Where the worker stands in `_turn`, between the sections that hold the condition. The local
-- variable `handle` is carried along; `failing` carries the name of the exception.
pub data Stage : Type 0 where
  starting : Option SyncContinuation → Stage
  checked : Option SyncContinuation → Stage
  preempting : Option SyncContinuation → Stage
  opening : Stage
  beginning : Option (List String) → Stage
  stepping : SyncContinuation → Stage
  failing : Option SyncContinuation → String → Stage
  finishing : Stage

pub data Phase : Type 0 where
  idle : Phase
  turn : SpaceId → Stage → Phase

-- SharedSemanticScheduler; `started` says that the executor runs `_run`.
pub record Scheduler : Type 0 where
  pub owners : List (SpaceId × Owner)
  pub total : ℕ
  pub last_id : Option SpaceId
  pub closed : Bool
  pub started : Bool
  pub watcher_token : Option ℕ
  pub watcher_accepting : Bool
  pub phase : Phase

abbrev pub global_target_limit : ℕ
global_target_limit = 10000

abbrev pub space_target_limit : ℕ
space_target_limit = 2000

-- A fresh `_Owner` and a fresh scheduler over such owners.
abbrev pub new_owner : ℕ → ℕ → Owner
new_owner owners_id registry_token = record {
  owners_id = owners_id;
  registry_token = registry_token;
  cancel = false;
  pending = [];
  inflight = [];
  deferred = [];
  debounce_revision = 0;
  continuation = none;
  full_needed = false;
  full_again = false;
  full_active = false;
  running = false;
  paused = false;
  wake_pending = false;
  error_type = none;
  cleanup_failed = false;
  cleanup_complete = false;
  progress = none;
  monitoring_error_type = none;
  monitoring_revision = 0;
  monitoring_failure_revision = 0;
  watcher_verified = none;
  watcher_callbacks = 0;
  coverage_revision = 0;
  coverage_restored = 0;
  coverage_reconciled = 0;
  full_coverage = none;
}

abbrev pub new_scheduler : List (SpaceId × Owner) → Scheduler
new_scheduler owners = record {
  owners = owners;
  total = 0;
  last_id = none;
  closed = false;
  started = false;
  watcher_token = none;
  watcher_accepting = false;
  phase = idle;
}

-- self._owners.get(sid), and the write through the shared object that it returns.
unfoldable pub find : SpaceId → List (SpaceId × Owner) → Option Owner
find k [] = none
find k ((j, e) ∷ m) = if j == k then some e else find k m

unfoldable pub store : SpaceId → Owner → List (SpaceId × Owner) → List (SpaceId × Owner)
store k e [] = []
store k e ((j, d) ∷ m) = if j == k then (j, e) ∷ m else (j, d) ∷ store k e m

-- _identities
abbrev pub identities : Owner → List String
identities e = union (union e.pending e.inflight) (keys e.deferred)

-- The owners, the shared count and the answer after a section that holds the condition.
pub record Outcome : Type 0 where
  pub owner : Owner
  pub count : ℕ
  pub answer : Bool

abbrev pub commit : SpaceId → Outcome → Scheduler → Scheduler
commit sid o s = record s { owners = store sid o.owner s.owners; total = o.count }

abbrev pub same_token : Option ℕ → ℕ → Bool
same_token none t = false
same_token (some u) t = u == t

abbrev pub same_pair : Option (ℕ × ℕ) → ℕ → ℕ → Bool
same_pair none a b = false
same_pair (some (c, d)) a b = c == a && d == b
