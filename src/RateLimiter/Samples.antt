-- ===== src/RateLimiter/Samples.antt =====
-- The rate limiter at concrete inputs: 2 requests in 10 seconds, 2 clients, 1000 ticks to a second.
use vault_bridge.Base.{
  ℕ, ◌+◌, ◌*◌, ◌≤◌, String, ◌≡◌, refl, true, false, some, List, [], ◌∷◌, arith, eq_iff, min,
}
use vault_bridge.RateLimiter.{Limiter, Decision, get, init, check, run}
use vault_bridge.RateLimiter.Bounds.{IsValid, init-IsValid, run-IsValid}
use vault_bridge.RateLimiter.Windows.{
  answer, live_window, check-retry_exact, burst_limit, allowed_count, calls_of, get-check_ne,
}

abbrev fresh : Limiter
fresh = record { requests = 2; window_seconds = 10; max_clients = 2; clients = [] }

fresh-IsValid : IsValid fresh
unfolding init
fresh-IsValid = init-IsValid 2 10 2 refl

abbrev three_calls : List (ℕ × String)
three_calls = (0, "a") ∷ (1000, "a") ∷ (2500, "a") ∷ []

abbrev refused : Decision
refused = record { allowed = false; retry_after_seconds = some 8 }

third_refused :
    (run 1000 three_calls fresh).1
    ≡ answer 1000 0 fresh (get "a" []) ∷ answer 1000 0 fresh (get "a" []) ∷ refused ∷ []
unfolding run get
third_refused = refl

run-IsValid_example : IsValid (run 1000 three_calls fresh).0
run-IsValid_example = run-IsValid 1000 three_calls fresh-IsValid

abbrev spent : Limiter
spent = (run 1000 ((0, "a") ∷ (1000, "a") ∷ []) fresh).0

spent-IsValid : IsValid spent
spent-IsValid = run-IsValid 1000 ((0, "a") ∷ (1000, "a") ∷ []) fresh-IsValid

spent_refuses : (check 1000 2500 "a" spent).1.retry_after_seconds ≡ some 8
unfolding run
spent_refuses = refl

check-retry_exact_example :
    (2500 + 8 * 1000 ≤ 10500
      → (check 1000 10500 "a" (check 1000 2500 "a" spent).0).1.allowed ≡ true)
    × (10500 + 1000 ≤ 2500 + 8 * 1000
        → (check 1000 10500 "a" (check 1000 2500 "a" spent).0).1.allowed ≡ false)
check-retry_exact_example =
    check-retry_exact 1000 2500 10500 8 "a" spent (omega arith) spent-IsValid spent_refuses

burst_limit_example :
    allowed_count (run 1000 (calls_of "a" (0 ∷ 1000 ∷ 2500 ∷ [])) fresh).1 ≡ min 3 2
unfolding get
burst_limit_example =
    burst_limit 1000 0 "a" (1000 ∷ 2500 ∷ []) fresh fresh-IsValid refl (omega arith)

abbrev one_client : Limiter
one_client = (run 1000 ((0, "a") ∷ []) fresh).0

get-check_ne_example :
    get "a" (check 1000 500 "b" one_client).0.clients ≡ live_window 1000 500 "a" one_client
unfolding run
get-check_ne_example =
    get-check_ne 1000 500 "b" "a" one_client (run-IsValid 1000 ((0, "a") ∷ []) fresh-IsValid)
      (ground (arith, eq_iff "b" "a")) (omega arith)
