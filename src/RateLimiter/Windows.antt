-- ===== src/RateLimiter/Windows.antt =====
-- What a client may rely on: the limit within a window, and the time to wait after a refusal.
use vault_bridge.Base.{
  ℕ, zero, suc, ◌+◌, ◌-◌, ◌*◌, ◌≤◌, ◌<◌, String, ◌≡◌, ap, sym, ◌≢◌, ◌∙◌, refl, inl, inr, Bool, true,
  false, not, Option, none, some, List, [], ◌∷◌, arith, ltb, str_eq, eq_iff, min, max,
  if◌then◌else◌, length, length-filter_by-le, Bool-cases, All,
}
use vault_bridge.Base.Sets.{str_eq_refl}
use vault_bridge.RateLimiter.{
  Window, Limiter, Decision, get, move_to_end, is_stale, remove_stale, make_capacity, retry_after,
  ceil_seconds, decide, check, run,
}
use vault_bridge.RateLimiter.Table.{sieve, get-keep, get-move_to_end, get-put}
use vault_bridge.RateLimiter.Bounds.{IsValid, sweep, check-IsValid}

-- The window of a client that is still running at `now`, if there is one.
abbrev pub live_window : ℕ → ℕ → String → Limiter → Option Window
live_window tick now client s =
    sieve (λ w. not (is_stale tick s.window_seconds now w)) (get client s.clients)

get-sweep :
    (tick now : ℕ) (client : String) (s : Limiter)
    → IsValid s
    → get client (sweep tick now s).clients ≡ live_window tick now client s
unfolding remove_stale
get-sweep tick now client s v = get-keep _ client s.clients v.distinct

length-sweep : (tick now : ℕ) (s : Limiter) → length (sweep tick now s).clients ≤ length s.clients
unfolding remove_stale
length-sweep tick now s = length-filter_by-le _ s.clients

-- `check` answers by the live window of the client alone.
abbrev pub answer : ℕ → ℕ → Limiter → Option Window → Decision
answer tick now s none = record { allowed = true; retry_after_seconds = none }
answer tick now s (some w) =
    if ltb w.request_count s.requests
    then record { allowed = true; retry_after_seconds = none }
    else record {
      allowed = false;
      retry_after_seconds = some (retry_after tick s.window_seconds now w);
    }

decide-answer :
    (tick now : ℕ) (client : String) (s : Limiter) (o : Option Window)
    → (decide tick now client s o).1 ≡ answer tick now s o
unfolding decide
decide-answer tick now client s none = refl
decide-answer tick now client s (some w) = ground arith

-- The decision depends on the live window of the client alone, not on other clients.
pub check-answer :
    (tick now : ℕ) (client : String) (s : Limiter)
    → IsValid s
    → (check tick now client s).1 ≡ answer tick now s (live_window tick now client s)
unfolding check
check-answer tick now client s v =
    decide-answer tick now client (sweep tick now s) _
    ∙ (λ i. answer tick now s (get-sweep tick now client s v i))

-- the window of the client after a call
abbrev pub next_window : ℕ → ℕ → Option Window → Window
next_window now requests none = record { started_at = now; request_count = 1 }
next_window now requests (some w) =
    if ltb w.request_count requests then record w { request_count = w.request_count + 1 } else w

get-decide :
    (tick now : ℕ) (client : String) (s : Limiter) (o : Option Window)
    → get client s.clients ≡ o
    → get client (decide tick now client s o).0.clients ≡ some (next_window now s.requests o)
unfolding decide
get-decide tick now client s none e = ground (
  arith,
  get-put client client (record { started_at = now; request_count = 1 })
      (make_capacity s.max_clients s.clients),
  str_eq_refl client,
)
get-decide tick now client s (some w) e = ground (
  arith,
  get-put client client (record w { request_count = w.request_count + 1 })
      (move_to_end client s.clients),
  get-move_to_end client client s.clients,
  str_eq_refl client,
)

-- After a call the client has the next window, whatever was evicted for it.
pub get-check :
    (tick now : ℕ) (client : String) (s : Limiter)
    → IsValid s
    → get client (check tick now client s).0.clients
      ≡ some (next_window now s.requests (live_window tick now client s))
unfolding check
get-check tick now client s v =
    get-decide tick now client (sweep tick now s) _ refl
    ∙ (λ i. some (next_window now s.requests (get-sweep tick now client s v i)))

settings_kept :
    (tick now : ℕ) (client : String) (s : Limiter)
    → ((check tick now client s).0.requests ≡ s.requests)
      × ((check tick now client s).0.window_seconds ≡ s.window_seconds)
unfolding check decide
settings_kept tick now client s = ground arith

ceil-bounds :
    (tick n : ℕ)
    → 0 < tick
    → (n ≤ ceil_seconds tick n * tick) × (ceil_seconds tick n * tick < n + tick)
unfolding ceil_seconds
ceil-bounds tick n h = grind arith

-- The end of a window that is live, against the time of a refusal and the wait that it names.
retry_time :
    (tick window_seconds now : ℕ) (w : Window)
    → 0 < tick
    → is_stale tick window_seconds now w ≡ false
    → (w.started_at + window_seconds * tick ≤ now + retry_after tick window_seconds now w * tick)
      × (now + retry_after tick window_seconds now w * tick
          < w.started_at + window_seconds * tick + tick)
unfolding is_stale retry_after
retry_time tick window_seconds now w t h =
    let left = w.started_at + window_seconds * tick - now in
    let bounds = ceil-bounds tick left t in
    wait (ceil_seconds tick left) left refl bounds.0 bounds.1 (ground arith)
  where
    wait :
        (c left : ℕ)
        → left ≡ w.started_at + window_seconds * tick - now
        → left ≤ c * tick
        → c * tick < left + tick
        → now < w.started_at + window_seconds * tick
        → (w.started_at + window_seconds * tick ≤ now + max 1 c * tick)
          × (now + max 1 c * tick < w.started_at + window_seconds * tick + tick)
    wait zero left e p q r = absurd (omega arith)
    wait (suc c) left e p q r = let m : max 1 (suc c) ≡ suc c = omega arith in rw m (omega arith)

refused_window :
    (tick now retry : ℕ) (s : Limiter) (p : Window → Bool) (o : Option Window)
    → (answer tick now s (sieve p o)).retry_after_seconds ≡ some retry
    → (w : Window) × (sieve p o ≡ some w)
      × (p w ≡ true)
      × (ltb w.request_count s.requests ≡ false)
      × (retry ≡ retry_after tick s.window_seconds now w)
refused_window tick now retry s p none e = ground arith
refused_window tick now retry s p (some w) e =
    (w, ground arith, ground arith, ground arith, ground arith)

-- A refusal tells how long to wait, to the second: with no call in between, a call at least `retry`
-- seconds later is allowed, and a call that comes a whole second earlier than that is refused.
pub check-retry_exact :
    (tick now later retry : ℕ) (client : String) (s : Limiter)
    → 0 < tick
    → IsValid s
    → (check tick now client s).1.retry_after_seconds ≡ some retry
    → (now + retry * tick ≤ later
        → (check tick later client (check tick now client s).0).1.allowed ≡ true)
      × (later + tick ≤ now + retry * tick
          → (check tick later client (check tick now client s).0).1.allowed ≡ false)
unfolding is_stale
check-retry_exact tick now later retry client s t v e =
    let live = λ (w : Window). not (is_stale tick s.window_seconds now w) in
    let (w, found, running, full, wait) =
      refused_window tick now retry s live (get client s.clients) (
        ap (λ (d : Decision). d.retry_after_seconds) (sym (check-answer tick now client s v))
        ∙ e) in
    let s' = (check tick now client s).0 in
    ground (
      arith,
      check-answer tick later client s' (check-IsValid tick now client v),
      get-check tick now client s v,
      settings_kept tick now client s,
      retry_time tick s.window_seconds now w t,
      ap (λ (r : ℕ). r * tick) wait,
    )

unfoldable pub allowed_count : List Decision → ℕ
allowed_count [] = 0
allowed_count (d ∷ ds) = if d.allowed then suc (allowed_count ds) else allowed_count ds

-- The calls of one client at the given times.
abbrev pub calls_of : String → List ℕ → List (ℕ × String)
calls_of client [] = []
calls_of client (now ∷ times) = (now, client) ∷ calls_of client times

live-found :
    (tick now : ℕ) (client : String) (s : Limiter) (w : Window)
    → get client s.clients ≡ some w
    → now < w.started_at + s.window_seconds * tick
    → live_window tick now client s ≡ some w
unfolding is_stale
live-found tick now client s w e h = ground arith

ends_kept :
    (w w' : Window) (tick : ℕ) (s s' : Limiter) (times : List ℕ)
    → s'.window_seconds ≡ s.window_seconds
    → w'.started_at ≡ w.started_at
    → All (λ now. now < w.started_at + s.window_seconds * tick) times
    → All (λ now. now < w'.started_at + s'.window_seconds * tick) times
ends_kept w w' tick s s' times e f h = rw (e, f) h

-- the calls that a live window with a count still lets through
burst_in_window :
    (tick : ℕ) (client : String) (times : List ℕ) (s : Limiter) (w : Window)
    → IsValid s
    → get client s.clients ≡ some w
    → w.request_count ≤ s.requests
    → All (λ now. now < w.started_at + s.window_seconds * tick) times
    → allowed_count (run tick (calls_of client times) s).1
      ≡ min (length times) (s.requests - w.request_count)
unfolding run allowed_count
burst_in_window tick client [] s w v found le inside = omega arith
burst_in_window tick client (now ∷ times) s w v found le inside =
    let s' = (check tick now client s).0 in
    let v' : IsValid s' = check-IsValid tick now client v in
    let kept = settings_kept tick now client s in
    let more : Window = record w { request_count = w.request_count + 1 } in
    elim (Bool-cases (ltb w.request_count s.requests)) [
      | inl room ↦ ground (
        arith,
        check-answer tick now client s v,
        get-check tick now client s v,
        live-found tick now client s w found inside.0,
        kept,
        burst_in_window tick client times s' more v',
        ends_kept w more tick s s' times kept.1 refl inside.1,
      )
      | inr full ↦ ground (
        arith,
        check-answer tick now client s v,
        get-check tick now client s v,
        live-found tick now client s w found inside.0,
        kept,
        burst_in_window tick client times s' w v',
        ends_kept w w tick s s' times kept.1 refl inside.1,
      )
    ]

-- In one window a client gets exactly its limit: of the calls that it makes from the time of a first
-- call until the window ends, with no window live before and no other client between, the first
-- `requests` are allowed and the rest are refused.
pub burst_limit :
    (tick now : ℕ) (client : String) (times : List ℕ) (s : Limiter)
    → IsValid s
    → live_window tick now client s ≡ none
    → All (λ later. later < now + s.window_seconds * tick) times
    → allowed_count (run tick (calls_of client (now ∷ times)) s).1
      ≡ min (suc (length times)) s.requests
unfolding run allowed_count
burst_limit tick now client times s v fresh inside =
    let s' = (check tick now client s).0 in
    let kept = settings_kept tick now client s in
    let first : Window = record { started_at = now; request_count = 1 } in
    ground (
      arith,
      check-answer tick now client s v,
      get-check tick now client s v,
      kept,
      burst_in_window tick client times s' first (check-IsValid tick now client v),
      ends_kept first first tick s s' times kept.1 refl inside,
    )

get-decide_ne :
    (tick now : ℕ) (client other : String) (s : Limiter) (o : Option Window)
    → str_eq client other ≡ false
    → length s.clients < s.max_clients
    → get other (decide tick now client s o).0.clients ≡ get other s.clients
unfolding decide make_capacity
get-decide_ne tick now client other s none n room =
    ground (arith, get-put client other (record { started_at = now; request_count = 1 }) s.clients)
get-decide_ne tick now client other s (some w) n room = ground (
  arith,
  get-put client other (record w { request_count = w.request_count + 1 })
      (move_to_end client s.clients),
  get-move_to_end client other s.clients,
)

-- While the table has room, a call by one client leaves the live window of every other client as it
-- was: nobody spends another's requests.
pub get-check_ne :
    (tick now : ℕ) (client other : String) (s : Limiter)
    → IsValid s
    → client ≢ other
    → length s.clients < s.max_clients
    → get other (check tick now client s).0.clients ≡ live_window tick now other s
unfolding check
get-check_ne tick now client other s v n room =
    get-decide_ne tick now client other (sweep tick now s) _
      (ground (arith, eq_iff client other, n)) (omega (arith, length-sweep tick now s))
    ∙ get-sweep tick now other s v
