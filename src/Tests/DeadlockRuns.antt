-- ===== src/Tests/DeadlockRuns.antt =====
-- `isDeadLock` and `isLockJyunbanOk` of common/mymutex.c on small tables of getters.
use ktrpg.Base.{
  ℕ, zero, suc, ◌≡◌, ◌≢◌, ◌⊎◌, ◌↔◌, ◌≤◌, ◌<◌, inl, inr, refl, Bool, true, false, none, some, List,
  [], ◌∷◌, arith, any, find_index, get_elem?,
}
use ktrpg.Mutex.Types.{Getter, blank_getter}
use ktrpg.Mutex.Deadlock.{is_dead_lock, walk}
use ktrpg.Mutex.Deadlock.Chain.{arrive, follow, free, holder_of}
use ktrpg.Mutex.Deadlock.Sound.{Cycle, is_dead_lock-Cycle}
use ktrpg.Mutex.Deadlock.Complete.{is_dead_lock_complete, is_dead_lock-Ends}
use ktrpg.Mutex.Deadlock.Diverge.{Trap, is_dead_lock_never}
use ktrpg.Mutex.Order.{is_lock_jyunban_ok, count_up}
use ktrpg.Mutex.Order.Spec.{Ordered, is_lock_jyunban_ok_iff, is_lock_jyunban_ok_ascending}

-- Getter of thread `tid`, which holds the mutex `held` and, if `wait` is not 0, waits for that one.
abbrev pub getter : ℕ → ℕ → ℕ → Bool → Bool → Getter
getter tid held wait waits counted = record blank_getter {
  thread_id = tid;
  get_mutex_type = held ∷ 0 ∷ [];
  wait_mutex_type = wait;
  is_used = true;
  is_waited = waits;
  counted = counted;
}

-- Two threads that each wait for what the other holds.
abbrev crossing : Bool → List Getter
crossing counted = getter 1 1 2 true counted ∷ getter 2 2 1 true counted ∷ []

is_dead_lock-Cycle_example : Cycle (crossing false) 0
unfolding is_dead_lock walk any find_index
is_dead_lock-Cycle_example = is_dead_lock-Cycle 3 0 (crossing false) (crossing true) refl

crossing-Cycle : Cycle (crossing false) 0
unfolding holder_of any find_index
crossing-Cycle = record {
  first = 1;
  steps = 1;
  held = refl;
  back = follow (λ e. omega arith) refl refl (arrive refl refl);
}

is_dead_lock_complete_example :
    (table : List Getter) × (is_dead_lock 3 0 (crossing false) ≡ some (true, table))
is_dead_lock_complete_example =
    is_dead_lock_complete 3 0 (crossing false) (omega arith) crossing-Cycle

-- The second thread holds what the first waits for, and does not wait.
abbrev queued : List Getter
queued = getter 1 1 2 true false ∷ getter 2 2 0 false false ∷ []

is_dead_lock-Ends_example : (table : List Getter) × (is_dead_lock 1 0 queued ≡ some (false, table))
unfolding holder_of any find_index
is_dead_lock-Ends_example = is_dead_lock-Ends 1 0 queued (inr (1, 0, refl, free refl, omega arith))

-- The second and the third thread wait for each other, the first for the second; the fourth does
-- not wait.
abbrev ring : List Getter
ring =
    getter 1 0 1 true false
    ∷ (getter 2 1 2 true false ∷ (getter 3 2 1 true false ∷ (getter 4 0 0 false false ∷ [])))

abbrev InRing : ℕ → Type 0
InRing i = (i ≡ 1) ⊎ (i ≡ 2)

ring_Trap : Trap ring 0 InRing
unfolding holder_of any find_index
ring_Trap zero s = absurd (ground arith)
ring_Trap (suc zero) s = (λ e. omega arith, refl, (2, refl, inr refl))
ring_Trap (suc (suc zero)) s = (λ e. omega arith, refl, (1, refl, inl refl))
ring_Trap (suc (suc (suc i))) s = absurd (ground arith)

is_dead_lock_never_example : is_dead_lock 1000 0 ring ≡ none
unfolding holder_of any find_index
is_dead_lock_never_example =
    is_dead_lock_never 1000 0 1 3 ring InRing refl (inl refl) ring_Trap (λ s. ground arith)
      (λ e. omega arith) (omega arith) refl

is_lock_jyunban_ok_iff_example :
    (is_lock_jyunban_ok (0 ∷ (1 ∷ (2 ∷ []))) (1 ∷ (2 ∷ [])) ≡ true)
    ↔ Ordered (0 ∷ (1 ∷ (2 ∷ []))) (1 ∷ (2 ∷ []))
is_lock_jyunban_ok_iff_example = is_lock_jyunban_ok_iff (0 ∷ (1 ∷ (2 ∷ []))) (1 ∷ (2 ∷ []))

small : (i t : ℕ) → get_elem? (2 ∷ (1 ∷ [])) i ≡ some t → t < 3
small zero t e = ground arith
small (suc zero) t e = ground arith
small (suc (suc i)) t e = ground arith

is_lock_jyunban_ok_ascending_example : (is_lock_jyunban_ok (count_up 0 3) (2 ∷ (1 ∷ [])) ≡ true) ↔ (
    (i j f l : ℕ)
    → i < j
    → get_elem? (2 ∷ (1 ∷ [])) i ≡ some f
    → get_elem? (2 ∷ (1 ∷ [])) j ≡ some l
    → f ≢ 0
    → l ≢ 0
    → f ≤ l)
is_lock_jyunban_ok_ascending_example = is_lock_jyunban_ok_ascending 3 (2 ∷ (1 ∷ [])) small
