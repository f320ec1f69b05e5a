-- ===== src/Admission.antt =====
-- The admission of scoped operations, `ScopedOperationAdmission` (app/services/space_admission.py):
-- one active operation and at most 64 waiters. The code under the condition is a section, and the
-- threads take sections in any order; a waiter holds the condition again each time it looks.
-- Whether the caller of an operation has cancelled is an argument of each look.
pub mod Single
pub mod Waiters
mod Samples
use vault_bridge.Base.{
  ℕ, ◌+◌, ◌-◌, Bool, true, false, not, ◌&&◌, ◌||◌, Option, none, some, leb, ◌==◌, if◌then◌else◌,
  is_some, ◌≡◌, ◌≢◌,
}

pub data Error : Type 0 where
  operation_cancelled unavailable_space runtime_error : Error

-- Where a thread stands in `operation`: outside, in the waiting loop, or inside the body, with the
-- flag `_write_completed` of its token.
pub data Place : Type 0 where
  outside waiting : Place
  inside : Bool → Place

-- ScopedOperationAdmission, and where each thread stands.
pub record Admission : Type 0 where
  pub is_open : Bool
  pub stopped : Bool
  pub active_thread : Option ℕ
  pub waiting_count : ℕ
  pub place : ℕ → Place

abbrev pub max_waiting_operations : ℕ
max_waiting_operations = 64

-- __init__, with no thread in an operation
abbrev pub new_admission : Admission
new_admission = record {
  is_open = false;
  stopped = false;
  active_thread = none;
  waiting_count = 0;
  place = λ _. outside;
}

abbrev pub move : ℕ → Place → (ℕ → Place) → ℕ → Place
move tid p places other = if other == tid then p else places other

-- open
unfoldable pub open_admission : Admission → Admission × Option Error
open_admission s =
    if s.stopped then (s, some operation_cancelled) else (record s { is_open = true }, none)

-- running
abbrev pub running : Admission → Bool
running s = s.is_open && not s.stopped

-- begin_shutdown
unfoldable pub begin_shutdown : Admission → Admission
begin_shutdown s = record s { is_open = false; stopped = true }

-- drain; `none` says that the call goes on waiting
unfoldable pub drain : ℕ → Admission → Option (Option Error)
drain tid s = elim s.active_thread [
  | some active ↦ if active == tid then some (some runtime_error) else none
  | none ↦ if s.waiting_count == 0 then some none else none
]

-- `_OperationCancellation.check`
abbrev pub is_cancelled : Bool → Admission → Bool
is_cancelled caller s = caller || s.stopped

abbrev pub enter : ℕ → Admission → Admission
enter tid s = record s { active_thread = some tid; place = move tid (inside false) s.place }

-- `operation` from the tests on the active thread: the thread enters, fails, or starts to wait.
abbrev pub join : ℕ → Admission → Option ℕ → Admission × Option Error
join tid s none = (enter tid s, none)
join tid s (some active) =
    if active == tid
    then (s, some runtime_error)
    else if leb max_waiting_operations s.waiting_count
    then (s, some unavailable_space)
    else (record s { waiting_count = s.waiting_count + 1; place = move tid waiting s.place }, none)

-- The first section of `operation`, up to the first wait.
unfoldable pub begin_operation : Bool → ℕ → Admission → Admission × Option Error
begin_operation caller tid s =
    if is_cancelled caller s
    then (s, some operation_cancelled)
    else if not s.is_open
    then (s, some unavailable_space)
    else join tid s s.active_thread

-- One look of a waiter: it goes on waiting, gives up, or enters.
unfoldable pub look : Bool → ℕ → Admission → Admission × Option Error
look caller tid s =
    let left = record s { waiting_count = s.waiting_count - 1; place = move tid outside s.place } in
    if is_cancelled caller s
    then (left, some operation_cancelled)
    else elim s.active_thread [ some _ ↦ (s, none) | none ↦ (enter tid left, none) ]

-- The operation sets `_write_completed`.
abbrev pub complete_write : ℕ → Admission → Admission
complete_write tid s = record s { place = move tid (inside true) s.place }

-- The end of `operation`: the last check, unless a write was completed, and the section that leaves.
unfoldable pub end_operation : Bool → Bool → ℕ → Admission → Admission × Option Error
end_operation caller write_completed tid s = (
  record s { active_thread = none; place = move tid outside s.place },
  if not write_completed && is_cancelled caller s then some operation_cancelled else none,
)

-- One section of any thread.
pub data Section (s : Admission) : Admission → Type 0 where
  opened : Section s (open_admission s).0
  shut_down : Section s (begin_shutdown s)
  begun :
      (caller : Bool) (tid : ℕ) → s.place tid ≢ waiting → Section s (begin_operation caller tid s).0
  looked : (caller : Bool) (tid : ℕ) → s.place tid ≡ waiting → Section s (look caller tid s).0
  wrote : (tid : ℕ) {b : Bool} → s.place tid ≡ inside b → Section s (complete_write tid s)
  ended :
      (caller : Bool) (tid : ℕ) {b : Bool}
      → s.place tid ≡ inside b
      → Section s (end_operation caller b tid s).0

pub data History (s : Admission) : Admission → Type 0 where
  beginning : History s s
  followed : {t u : Admission} → History s t → Section t u → History s u
