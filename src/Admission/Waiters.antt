-- ===== src/Admission/Waiters.antt =====
-- The counter of waiters (app/services/space_admission.py) counts the threads in the waiting loop.
use vault_bridge.Base.{
  ℕ, suc, ◌+◌, ◌-◌, ◌≡◌, ◌≢◌, refl, Bool, true, false, not, ◌&&◌, ◌||◌, Option, none, some, List,
  [], ◌∷◌, arith, ◌==◌, leb, if◌then◌else◌, length, Bool-cases, Option-cases, inl, inr,
}
use vault_bridge.Admission.{
  Admission, Place, Section, History, outside, waiting, inside, new_admission, open_admission,
  begin_shutdown, begin_operation, look, end_operation, opened, shut_down, begun, looked, wrote,
  ended, beginning, followed, is_cancelled, move, join, max_waiting_operations,
}

abbrev pub is_waiting : Place → Bool
is_waiting outside = false
is_waiting waiting = true
is_waiting (inside _) = false

abbrev pub has : ℕ → List ℕ → Bool
has a [] = false
has a (x ∷ xs) = x == a || has a xs

abbrev pub IsOnce : List ℕ → Type 0
IsOnce [] = Unit {0}
IsOnce (x ∷ xs) = (has x xs ≡ false) × IsOnce xs

abbrev without : ℕ → List ℕ → List ℕ
without a [] = []
without a (x ∷ xs) = let rest = without a xs in if x == a then rest else x ∷ rest

has-without : (a b : ℕ) (xs : List ℕ) → has b (without a xs) ≡ (not (a == b) && has b xs)
has-without a b [] = ground arith
has-without a b (x ∷ xs) = ground (arith, has-without a b xs)

without-IsOnce : (a : ℕ) (xs : List ℕ) → IsOnce xs → IsOnce (without a xs)
without-IsOnce a [] d = tt
without-IsOnce a (x ∷ xs) d = ground (arith, without-IsOnce a xs d.1, has-without a x xs)

without_absent : (a : ℕ) (xs : List ℕ) → has a xs ≡ false → length (without a xs) ≡ length xs
without_absent a [] h = refl
without_absent a (x ∷ xs) h = ground (arith, without_absent a xs)

length-without :
    (a : ℕ) (xs : List ℕ) → IsOnce xs → has a xs ≡ true → suc (length (without a xs)) ≡ length xs
length-without a [] d h = absurd (ground arith)
length-without a (x ∷ xs) d h = ground (arith, length-without a xs d.1, without_absent a xs)

-- The waiting threads, each once, and their number.
pub record IsCounted (s : Admission) : Type 0 where
  pub waiters : List ℕ
  pub once : IsOnce waiters
  pub waits : (tid : ℕ) → is_waiting (s.place tid) ≡ has tid waiters
  pub number : length waiters ≡ s.waiting_count

-- The threads and the count after a thread that did not wait has moved to another place.
kept-IsCounted :
    (s : Admission) (tid : ℕ) (p : Place) (a : Option ℕ)
    → is_waiting (s.place tid) ≡ false
    → is_waiting p ≡ false
    → IsCounted s
    → IsCounted (record s { active_thread = a; place = move tid p s.place })
kept-IsCounted s tid p a h k v = record {
  waiters = v.waiters;
  once = v.once;
  waits = λ t. ground (arith, v.waits t, v.waits tid);
  number = v.number;
}

joined-IsCounted :
    (s : Admission) (tid : ℕ)
    → is_waiting (s.place tid) ≡ false
    → IsCounted s
    → IsCounted (record s { waiting_count = s.waiting_count + 1; place = move tid waiting s.place })
joined-IsCounted s tid h v = record {
  waiters = tid ∷ v.waiters;
  once = (ground (arith, v.waits tid), v.once);
  waits = λ t. ground (arith, v.waits t);
  number = omega (arith, v.number);
}

left-IsCounted :
    (s : Admission) (tid : ℕ) (q : ℕ → Place) (a : Option ℕ)
    → s.place tid ≡ waiting
    → ((t : ℕ) → is_waiting (q t) ≡ (not (t == tid) && is_waiting (s.place t)))
    → IsCounted s
    → IsCounted (record s { active_thread = a; waiting_count = s.waiting_count - 1; place = q })
left-IsCounted s tid q a h k v = record {
  waiters = without tid v.waiters;
  once = without-IsOnce tid v.waiters v.once;
  waits = λ t. ground (arith, k t, v.waits t, has-without tid t v.waiters);
  number = ground (arith, length-without tid v.waiters v.once, v.waits tid, v.number);
}

not_waiting : (p : Place) → p ≢ waiting → is_waiting p ≡ false
not_waiting outside h = refl
not_waiting waiting h = absurd (h refl)
not_waiting (inside b) h = refl

begin-IsCounted :
    (caller : Bool) (tid : ℕ) (s : Admission)
    → s.place tid ≢ waiting
    → IsCounted s
    → IsCounted (begin_operation caller tid s).0
unfolding begin_operation
begin-IsCounted caller tid s w v =
    let out : is_waiting (s.place tid) ≡ false = not_waiting (s.place tid) w in
    elim (Bool-cases (is_cancelled caller s)) [
      | inl e ↦ rw e v
      | inr e ↦ elim (Bool-cases (not s.is_open)) [
        | inl shut ↦ rw e (rw shut v)
        | inr on ↦ rw e (rw on (at_active s.active_thread out))
      ]
    ]
  where
    at_active : (o : Option ℕ) → is_waiting (s.place tid) ≡ false → IsCounted (join tid s o).0
    at_active none out = kept-IsCounted s tid (inside false) (some tid) out refl v
    at_active (some active) out = elim (Bool-cases (active == tid)) [
      | inl same ↦ rw same v
      | inr other ↦ elim (Bool-cases (leb max_waiting_operations s.waiting_count)) [
        | inl full ↦ rw other (rw full v)
        | inr room ↦ rw other (rw room (joined-IsCounted s tid out v))
      ]
    ]

look-IsCounted :
    (caller : Bool) (tid : ℕ) (s : Admission)
    → s.place tid ≡ waiting
    → IsCounted s
    → IsCounted (look caller tid s).0
unfolding look
look-IsCounted caller tid s w v = elim (Bool-cases (is_cancelled caller s)) [
  | inl e ↦
      rw e (left-IsCounted s tid (move tid outside s.place) s.active_thread w (λ t. ground arith) v)
  | inr e ↦ elim (Option-cases s.active_thread) [
    | inl free ↦ rw e (
        rw free (
          left-IsCounted s tid (move tid (inside false) (move tid outside s.place)) (some tid) w
            (λ t. ground arith) v))
    | inr (a, taken) ↦ rw e (rw taken v)
  ]
]

Section-IsCounted : {s t : Admission} → Section s t → IsCounted s → IsCounted t
unfolding open_admission begin_shutdown end_operation
Section-IsCounted {s} opened v = record {
  waiters = v.waiters;
  once = v.once;
  waits = λ t. ground (arith, v.waits t);
  number = ground (arith, v.number);
}
Section-IsCounted shut_down v = record {
  waiters = v.waiters;
  once = v.once;
  waits = v.waits;
  number = v.number;
}
Section-IsCounted {s} (begun caller tid w) v = begin-IsCounted caller tid s w v
Section-IsCounted {s} (looked caller tid w) v = look-IsCounted caller tid s w v
Section-IsCounted {s} (wrote tid h) v =
    kept-IsCounted s tid (inside true) s.active_thread (ground arith) refl v
Section-IsCounted {s} (ended caller tid h) v =
    kept-IsCounted s tid outside none (ground arith) refl v

-- In every interleaving the counter of waiters is the number of threads in the waiting loop: there is
-- a list of exactly these threads, each once, as long as the counter says.
pub History-IsCounted : {s : Admission} → History new_admission s → IsCounted s
History-IsCounted beginning = record { waiters = []; once = tt; waits = λ t. refl; number = refl }
History-IsCounted (followed r e) = Section-IsCounted e (History-IsCounted r)
