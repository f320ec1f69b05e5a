-- ===== src/Admission/Single.antt =====
-- One active operation at a time (app/services/space_admission.py).
use vault_bridge.Base.{
  ℕ, ◌≤◌, ◌≡◌, ◌≢◌, refl, Bool, true, false, Option, none, some, arith, ◌==◌, Option-cases, inl,
  inr,
}
use vault_bridge.Admission.{
  Admission, Place, Section, History, outside, waiting, inside, open_admission, begin_shutdown,
  begin_operation, look, end_operation, opened, shut_down, begun, looked, wrote, ended, beginning,
  followed,
}

abbrev pub is_inside : Place → Bool
is_inside outside = false
is_inside waiting = false
is_inside (inside _) = true

abbrev pub is_active : Option ℕ → ℕ → Bool
is_active none tid = false
is_active (some a) tid = a == tid

-- A thread is inside an operation exactly when it is the active thread, and the waiters are few.
pub record IsSingle (s : Admission) : Type 0 where
  pub agrees : (tid : ℕ) → is_inside (s.place tid) ≡ is_active s.active_thread tid
  pub few : s.waiting_count ≤ 64

begin-IsSingle :
    (caller : Bool) (tid : ℕ) (s : Admission)
    → s.place tid ≢ waiting
    → IsSingle s
    → IsSingle (begin_operation caller tid s).0
unfolding begin_operation
begin-IsSingle caller tid s w v = elim (Option-cases s.active_thread) [
  | inl free ↦ record {
    agrees = λ k. ground (arith, v.agrees k, free);
    few = ground (arith, v.few, free);
  }
  | inr (a, taken) ↦ record {
    agrees = λ k. ground (arith, v.agrees k, v.agrees tid, taken);
    few = ground (arith, v.few, taken);
  }
]

look-IsSingle :
    (caller : Bool) (tid : ℕ) (s : Admission)
    → s.place tid ≡ waiting
    → IsSingle s
    → IsSingle (look caller tid s).0
unfolding look
look-IsSingle caller tid s w v = elim (Option-cases s.active_thread) [
  | inl free ↦ record {
    agrees = λ k. ground (arith, v.agrees k, v.agrees tid, free);
    few = ground (arith, v.few, free);
  }
  | inr (a, taken) ↦ record {
    agrees = λ k. ground (arith, v.agrees k, v.agrees tid, taken);
    few = ground (arith, v.few, taken);
  }
]

Section-IsSingle : {s t : Admission} → Section s t → IsSingle s → IsSingle t
unfolding open_admission begin_shutdown end_operation
Section-IsSingle opened v = record {
  agrees = λ k. ground (arith, v.agrees k);
  few = ground (arith, v.few);
}
Section-IsSingle shut_down v = record { agrees = v.agrees; few = v.few }
Section-IsSingle {s} (begun caller tid w) v = begin-IsSingle caller tid s w v
Section-IsSingle {s} (looked caller tid w) v = look-IsSingle caller tid s w v
Section-IsSingle {s} (wrote tid h) v = record {
  agrees = λ k. ground (arith, v.agrees k, v.agrees tid);
  few = v.few;
}
Section-IsSingle {s} (ended caller tid h) v = record {
  agrees = λ k. ground (arith, v.agrees k, v.agrees tid);
  few = v.few;
}

pub History-IsSingle : {s t : Admission} → History s t → IsSingle s → IsSingle t
History-IsSingle beginning v = v
History-IsSingle (followed r e) v = Section-IsSingle e (History-IsSingle r v)

-- After `begin_shutdown` nobody enters: the admission stays stopped, and every section leaves the
-- active thread as it is or frees the place.
pub Section-stopped :
    {s t : Admission}
    → Section s t
    → s.stopped ≡ true
    → (t.stopped ≡ true)
      × ((tid : ℕ) → is_active t.active_thread tid ≡ true → is_active s.active_thread tid ≡ true)
unfolding open_admission begin_shutdown begin_operation look end_operation
Section-stopped opened h = ground arith
Section-stopped shut_down h = (refl, λ tid k. k)
Section-stopped (begun caller tid w) h = (ground arith, λ k q. ground arith)
Section-stopped (looked caller tid w) h = (ground arith, λ k q. ground arith)
Section-stopped (wrote tid e) h = (h, λ k q. q)
Section-stopped (ended caller tid e) h = (h, λ k q. absurd (ground arith))
