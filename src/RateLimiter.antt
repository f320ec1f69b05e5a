-- ===== src/RateLimiter.antt =====
-- The fixed-window rate limiter of app/services/rate_limiter.py.
-- Times are ticks of the monotonic clock, `tick` of them to a second: the source's `float` seconds
-- are read as scaled integers. The clock is read before the lock is taken, so a call may carry a
-- time that lies before the start of a stored window; `now - started_at >= window_seconds` is
-- written without subtraction, and is exact in that case too.
mod Table
pub mod Bounds
pub mod Windows
mod Samples
use vault_bridge.Base.{
  ℕ, ◌+◌, ◌-◌, ◌*◌, ◌/◌, max, String, Bool, true, false, not, Option, none, some, List, [], ◌∷◌,
  ◌++◌, leb, ltb, str_eq, if◌then◌else◌, length, filter_by,
}
unfoldable pub use vault_bridge.Base.Dict.{get, put, delete}

-- RateLimitDecision
pub record Decision : Type 0 where
  pub allowed : Bool
  pub retry_after_seconds : Option ℕ

-- _ClientWindow
pub record Window : Type 0 where
  pub started_at : ℕ
  pub request_count : ℕ

-- FixedWindowRateLimiter: its settings, and `_clients` as the ordered list of its items, the oldest
-- first.
pub record Limiter : Type 0 where
  pub requests : ℕ
  pub window_seconds : ℕ
  pub max_clients : ℕ
  pub clients : List (String × Window)

-- __init__; `none` is the `ValueError`.
unfoldable pub init : ℕ → ℕ → ℕ → Option Limiter
init requests window_seconds max_clients =
    if leb requests 0
    then none
    else if leb window_seconds 0
    then none
    else if leb max_clients 0
    then none
    else some (record {
      requests = requests;
      window_seconds = window_seconds;
      max_clients = max_clients;
      clients = [];
    })

-- client_count
abbrev pub client_count : Limiter → ℕ
client_count s = length s.clients

abbrev pub append_found : String → Option Window → List (String × Window) → List (String × Window)
append_found k none m = m
append_found k (some w) m = m ++ (k, w) ∷ []

-- OrderedDict.move_to_end
unfoldable pub move_to_end : String → List (String × Window) → List (String × Window)
unfolding get delete
move_to_end k m = append_found k (get k m) (delete k m)

-- popitem(last=False)
abbrev pub pop_first : List (String × Window) → List (String × Window)
pop_first [] = []
pop_first (_ ∷ m) = m

-- the test of the comprehension in `_remove_stale_clients`
unfoldable pub is_stale : ℕ → ℕ → ℕ → Window → Bool
is_stale tick window_seconds now w = leb (w.started_at + window_seconds * tick) now

-- _remove_stale_clients
unfoldable pub remove_stale : ℕ → ℕ → ℕ → List (String × Window) → List (String × Window)
unfolding is_stale
remove_stale tick window_seconds now m =
    filter_by (λ e. not (is_stale tick window_seconds now e.1)) m

-- _make_capacity
unfoldable pub make_capacity : ℕ → List (String × Window) → List (String × Window)
make_capacity max_clients m = if leb max_clients (length m) then pop_first m else m

-- math.ceil of a number of ticks, in seconds
unfoldable pub ceil_seconds : ℕ → ℕ → ℕ
ceil_seconds tick n = (n + (tick - 1)) / tick

-- max(1, math.ceil(remaining)); a remainder below zero has the ceiling of zero, or less.
unfoldable pub retry_after : ℕ → ℕ → ℕ → Window → ℕ
unfolding ceil_seconds
retry_after tick window_seconds now w =
    max 1 (ceil_seconds tick (w.started_at + window_seconds * tick - now))

abbrev pub allow : Decision
allow = record { allowed = true; retry_after_seconds = none }

-- The two branches of `check` after the look-up of the client.
unfoldable pub decide : ℕ → ℕ → String → Limiter → Option Window → Limiter × Decision
unfolding put move_to_end make_capacity retry_after
decide tick now client s none = (
  record s {
    clients =
        put client (record { started_at = now; request_count = 1 })
          (make_capacity s.max_clients s.clients);
  },
  allow,
)
decide tick now client s (some w) =
    let moved = move_to_end client s.clients in
    if ltb w.request_count s.requests
    then (
      record s { clients = put client (record w { request_count = w.request_count + 1 }) moved },
      allow,
    )
    else (
      record s { clients = moved },
      record {
        allowed = false;
        retry_after_seconds = some (retry_after tick s.window_seconds now w);
      },
    )

-- check, at the time `now` that its clock returned
unfoldable pub check : ℕ → ℕ → String → Limiter → Limiter × Decision
unfolding remove_stale get decide
check tick now client s =
    let fresh = remove_stale tick s.window_seconds now s.clients in
    decide tick now client (record s { clients = fresh }) (get client fresh)

-- Calls in the order in which they take the lock; the decisions in that order.
unfoldable pub run : ℕ → List (ℕ × String) → Limiter → Limiter × List Decision
unfolding check
run tick [] s = (s, [])
run tick ((now, client) ∷ calls) s =
    let (s', d) = check tick now client s in let (s'', ds) = run tick calls s' in (s'', d ∷ ds)
