-- ===== src/RateLimiter/Bounds.antt =====
-- The bounds that every call keeps: at most `max_clients` windows, one to a client, none of them
-- empty or over the limit.
use vault_bridge.Base.{
  ℕ, suc, ◌+◌, ◌≤◌, ◌<◌, String, ◌≡◌, ◌∙◌, ap, refl, inl, inr, Bool, ◌||◌, Option, none, some, List,
  [], ◌∷◌, ◌++◌, arith, ltb, str_eq, eq_iff, if◌then◌else◌, length, length-append,
  length-filter_by-le, is_some, Bool-cases,
}
use vault_bridge.Base.Sets.{
  mem, IsDistinct, remove-IsDistinct, length-remove, remove_absent, str_eq_refl,
}
use vault_bridge.Base.Dict.{put-IsDistinct, length-put}
use vault_bridge.RateLimiter.{
  Window, Limiter, init, get, delete, move_to_end, append_found, remove_stale, make_capacity,
  decide, check, run,
}
use vault_bridge.RateLimiter.Table.{
  Clients, keys, Windows, keep, mem-get, Windows-get, Windows-put, Windows-keep,
  Windows-move_to_end, keys-delete, length-keys, get-keep, get-move_to_end, get-delete,
}

abbrev pub InRange : ℕ → Window → Type 0
InRange requests w = (1 ≤ w.request_count) × (w.request_count ≤ requests)

pub record IsValid (s : Limiter) : Type 0 where
  pub requests_pos : 0 < s.requests
  pub window_pos : 0 < s.window_seconds
  pub clients_pos : 0 < s.max_clients
  pub bounded : length s.clients ≤ s.max_clients
  pub distinct : IsDistinct (keys s.clients)
  pub counts : Windows (InRange s.requests) s.clients

-- What the constructor builds is valid.
pub init-IsValid :
    (requests window_seconds max_clients : ℕ) {s : Limiter}
    → init requests window_seconds max_clients ≡ some s
    → IsValid s
unfolding init
init-IsValid requests window_seconds max_clients e = ground arith

pub keep-IsDistinct :
    (p : Window → Bool) (m : Clients) → IsDistinct (keys m) → IsDistinct (keys (keep p m))
keep-IsDistinct p [] d = tt
keep-IsDistinct p ((j, w) ∷ m) d =
    ground (arith, keep-IsDistinct p m d.1, mem-get j m, mem-get j (keep p m), get-keep p j m d.1)

snoc-IsDistinct :
    (k : String) (w : Window) (m : Clients)
    → get k m ≡ none
    → IsDistinct (keys m)
    → IsDistinct (keys (m ++ (k, w) ∷ []))
unfolding get
snoc-IsDistinct k w [] e d = (refl, tt)
snoc-IsDistinct k w ((j, v) ∷ m) e d =
    ground (arith, snoc-IsDistinct k w m, mem-snoc j k w m, eq_iff j k, eq_iff k j)
  where
    mem-snoc :
        (j k : String) (w : Window) (m : Clients)
        → mem j (keys (m ++ (k, w) ∷ [])) ≡ (mem j (keys m) || str_eq k j)
    mem-snoc j k w [] = ground arith
    mem-snoc j k w ((i, v) ∷ m) = ground (arith, mem-snoc j k w m)

append_found-IsDistinct :
    (k : String) (o : Option Window) (m : Clients)
    → get k m ≡ none
    → IsDistinct (keys m)
    → IsDistinct (keys (append_found k o m))
append_found-IsDistinct k none m e d = d
append_found-IsDistinct k (some w) m e d = snoc-IsDistinct k w m e d

pub move_to_end-IsDistinct :
    (k : String) (m : Clients) → IsDistinct (keys m) → IsDistinct (keys (move_to_end k m))
unfolding move_to_end
move_to_end-IsDistinct k m d =
    append_found-IsDistinct k (get k m) (delete k m)
      (ground (arith, get-delete k k m, str_eq_refl k))
      (rw keys-delete (remove-IsDistinct k (keys m) d))

length-append_found :
    (k : String) (o : Option Window) (m : Clients)
    → length (append_found k o m) ≡ (if is_some o then suc (length m) else length m)
length-append_found k none m = refl
length-append_found k (some w) m = omega (arith, length-append m ((k, w) ∷ []))

length-delete :
    (k : String) (m : Clients)
    → IsDistinct (keys m)
    → (if is_some (get k m) then suc (length (delete k m)) else length (delete k m)) ≡ length m
length-delete k m d = ground (
  arith,
  mem-get k m,
  length-keys m,
  length-keys (delete k m),
  ap (λ (l : List String). length l) (keys-delete k m),
  length-remove k (keys m) d,
  remove_absent k (keys m),
)

pub length-move_to_end :
    (k : String) (m : Clients) → IsDistinct (keys m) → length (move_to_end k m) ≡ length m
unfolding move_to_end
length-move_to_end k m d = length-append_found k (get k m) (delete k m) ∙ length-delete k m d

module _ (P : Window → Type 0) where
  make_capacity-Windows : (n : ℕ) (m : Clients) → Windows P m → Windows P (make_capacity n m)
  unfolding make_capacity
  make_capacity-Windows n [] h = ground arith
  make_capacity-Windows n (_ ∷ m) h = ground arith

make_capacity-IsDistinct :
    (n : ℕ) (m : Clients) → IsDistinct (keys m) → IsDistinct (keys (make_capacity n m))
unfolding make_capacity
make_capacity-IsDistinct n [] d = ground arith
make_capacity-IsDistinct n (_ ∷ m) d = ground arith

length-make_capacity : (n : ℕ) (m : Clients) → 0 < n → length m ≤ n → length (make_capacity n m) < n
unfolding make_capacity
length-make_capacity n [] p h = ground arith
length-make_capacity n (_ ∷ m) p h = ground arith

pub decide-IsValid :
    (tick now : ℕ) (client : String) (s : Limiter) (o : Option Window)
    → get client s.clients ≡ o
    → IsValid s
    → IsValid (decide tick now client s o).0
unfolding decide
decide-IsValid tick now client s none e v =
    let first : Window = record { started_at = now; request_count = 1 } in
    let room = make_capacity s.max_clients s.clients in
    record {
      requests_pos = v.requests_pos;
      window_pos = v.window_pos;
      clients_pos = v.clients_pos;
      bounded = ground (
        arith,
        length-put client first room,
        length-make_capacity s.max_clients s.clients v.clients_pos v.bounded,
      );
      distinct =
          put-IsDistinct client first room (make_capacity-IsDistinct s.max_clients _ v.distinct);
      counts =
          Windows-put (InRange s.requests) client first room (omega arith)
            (make_capacity-Windows (InRange s.requests) s.max_clients _ v.counts);
    }
decide-IsValid tick now client s (some w) e v = elim (Bool-cases (ltb w.request_count s.requests)) [
  | inl room ↦
      let more : Window = record w { request_count = w.request_count + 1 } in
      rw room (record {
        requests_pos = v.requests_pos;
        window_pos = v.window_pos;
        clients_pos = v.clients_pos;
        bounded = ground (arith, length-put client more moved, moved_length, v.bounded, found);
        distinct = put-IsDistinct client more moved moved_distinct;
        counts =
            Windows-put (InRange s.requests) client more moved
              (ground (arith, Windows-get (InRange s.requests) client s.clients w v.counts e))
              moved_counts;
      })
  | inr full ↦ rw full (record {
    requests_pos = v.requests_pos;
    window_pos = v.window_pos;
    clients_pos = v.clients_pos;
    bounded = omega (arith, moved_length, v.bounded);
    distinct = moved_distinct;
    counts = moved_counts;
  })
]
  where
    moved : Clients
    moved = move_to_end client s.clients

    moved_length : length moved ≡ length s.clients
    moved_length = length-move_to_end client s.clients v.distinct

    moved_distinct : IsDistinct (keys moved)
    moved_distinct = move_to_end-IsDistinct client s.clients v.distinct

    moved_counts : Windows (InRange s.requests) moved
    moved_counts = Windows-move_to_end (InRange s.requests) client s.clients v.counts

    found : get client moved ≡ some w
    found = get-move_to_end client client s.clients ∙ e

abbrev pub sweep : ℕ → ℕ → Limiter → Limiter
sweep tick now s = record s { clients = remove_stale tick s.window_seconds now s.clients }

-- Dropping stale windows keeps a limiter valid.
pub sweep-IsValid : (tick now : ℕ) (s : Limiter) → IsValid s → IsValid (sweep tick now s)
unfolding remove_stale
sweep-IsValid tick now s v = record {
  requests_pos = v.requests_pos;
  window_pos = v.window_pos;
  clients_pos = v.clients_pos;
  bounded = omega (arith, length-filter_by-le {0} _ s.clients, v.bounded);
  distinct = keep-IsDistinct _ s.clients v.distinct;
  counts = Windows-keep (InRange s.requests) _ s.clients v.counts;
}

pub check-IsValid :
    (tick now : ℕ) (client : String) {s : Limiter} → IsValid s → IsValid (check tick now client s).0
unfolding check
check-IsValid tick now client {s} v =
    decide-IsValid tick now client (sweep tick now s) _ refl (sweep-IsValid tick now s v)

-- From valid settings, after any calls by any clients at any times, the table holds at most
-- `max_clients` windows, one to a client, each with a count between 1 and `requests`.
pub run-IsValid :
    (tick : ℕ) (calls : List (ℕ × String)) {s : Limiter} → IsValid s → IsValid (run tick calls s).0
unfolding run
run-IsValid tick [] v = v
run-IsValid tick ((now, client) ∷ calls) v =
    run-IsValid tick calls (check-IsValid tick now client v)
