-- ===== src/Tests/ScenarioRuns.antt =====
-- The two processes of `main` of common/mymutex.c, which lock ACCOUNT and DBQUE in opposite orders.
use ktrpg.Base.{
  ◌≢◌, ◌<◌, ℕ, zero, suc, ◌≡◌, refl, ap, Bool, true, false, none, some, [], ◌∷◌, arith, any,
  find_index, find_last_index, ◌==◌, ◌||◌,
}
use ktrpg.Mutex.Types.{dead_lock}
use ktrpg.Mutex.System.Getters.{works_on, getters_apart}
use ktrpg.Mutex.Identity.Calls.{Evolves}
use ktrpg.Mutex.Deadlock.{holds, is_dead_lock, walk}
use ktrpg.Mutex.Order.{is_lock_jyunban_ok, row_ok, pair_ok}
use ktrpg.Mutex.Table.{obtain_getter}
use ktrpg.Mutex.Lock.{scan_others, granted}
use ktrpg.Mutex.Lock.Owners.{owner_of, type_of, slots_of}
use ktrpg.Mutex.Stage.{begin_lock, begin_searched, end_lock}
use ktrpg.Mutex.System.{wants, System, Reach, here, outside}
use ktrpg.Mutex.System.Invariant.{Starts}
use ktrpg.Mutex.Identity.{Unique}
use ktrpg.Mutex.System.Slots.{Slotted}
use ktrpg.Mutex.System.Slots.Reached.{slots_true}
use ktrpg.Base.{◌++◌}
use ktrpg.Mutex.Types.{Note, dead_lock}
use ktrpg.Mutex.System.Ready.{Ready}
use ktrpg.Mutex.System.Noted.{Roomy}
use ktrpg.Mutex.System.Blocks.{Blocks, back, through}
use ktrpg.Base.{◌↔◌}
use ktrpg.Mutex.System.Verdict.{dead_lock_iff}
use ktrpg.Mutex.System.Found.{deadlock_found}
use ktrpg.Mutex.System.Cycle.{yes_deadlocks}
use ktrpg.Mutex.Deadlock.{getter_at}
use ktrpg.Mutex.Types.{Getter}
use ktrpg.Mutex.Lock.Acquire.{asking}
use ktrpg.Mutex.System.{Step}
use ktrpg.Base.{Option, List}
use ktrpg.Mutex.System.Stuck.{Waits, deadlock_stays}
use ktrpg.Tests.DeadlockRuns.{getter}
use ktrpg.Tests.MutexRuns.{comment, store}
use ktrpg.Tests.SystemRuns.{who, own, own-IsOrderly, who-AreDistinct}
use ktrpg.Tests.Scenario.{entered, wanting, got, to_entered, to_wanting, to_got}

-- Thread 1 is the parent, which locks ACCOUNT and then DBQUE; thread 2 is the child. Each has a getter.
abbrev started : System
started = record {
  local = λ n. outside;
  store = store none none (getter 1 0 0 false false ∷ (getter 2 0 0 false false ∷ []));
}

started-Starts : Starts started
started-Starts = record { all_outside = λ n. refl; room = omega arith; free = refl }

abbrev parent_has : System
parent_has = got 1 1 0 started

to_parent_has : Reach 3 own who started parent_has
unfolding begin_lock begin_searched is_dead_lock any find_index obtain_getter find_last_index
    scan_others is_lock_jyunban_ok row_ok pair_ok
to_parent_has =
    to_got 1 1 0 started started
      (to_wanting 1 1 0 started started here refl ((λ e. omega arith), omega arith) refl refl) refl
      refl

abbrev child_has : System
child_has = got 2 2 1 parent_has

to_child_has : Reach 3 own who started child_has
unfolding begin_lock begin_searched end_lock is_dead_lock any find_index obtain_getter
    find_last_index scan_others is_lock_jyunban_ok row_ok pair_ok granted
to_child_has =
    to_got 2 2 1 parent_has started
      (to_wanting 2 2 1 parent_has started to_parent_has refl ((λ e. omega arith), omega arith) refl
        refl)
      refl refl

abbrev parent_waits : System
parent_waits = wanting 1 2 0 child_has

to_parent_waits : Reach 3 own who started parent_waits
unfolding begin_lock begin_searched end_lock is_dead_lock any find_index obtain_getter
    find_last_index scan_others is_lock_jyunban_ok row_ok pair_ok walk granted
to_parent_waits =
    to_wanting 1 2 0 child_has started to_child_has refl ((λ e. omega arith), omega arith) refl refl

abbrev deadlocked : System
deadlocked = wanting 2 1 1 parent_waits

to_deadlocked : Reach 3 own who started deadlocked
unfolding begin_lock begin_searched end_lock is_dead_lock any find_index obtain_getter
    find_last_index scan_others is_lock_jyunban_ok row_ok pair_ok walk granted
to_deadlocked =
    to_wanting 2 1 1 parent_waits started to_parent_waits refl ((λ e. omega arith), omega arith)
      refl refl

-- The search has told, and the lock is asked for all the same.
deadlocked_notes : deadlocked.store.notes ≡ dead_lock (who 2) ∷ []
unfolding begin_lock begin_searched end_lock is_dead_lock any find_index obtain_getter
    find_last_index scan_others is_lock_jyunban_ok row_ok pair_ok walk granted
deadlocked_notes = refl

abbrev both : ℕ → Bool
both n = (n == 1) || (n == 2)

deadlocked-Waits : Waits who both deadlocked
unfolding begin_lock begin_searched end_lock is_dead_lock any find_index obtain_getter
    find_last_index scan_others is_lock_jyunban_ok row_ok pair_ok walk granted
deadlocked-Waits zero h = absurd (ground arith)
deadlocked-Waits (suc zero) h = (2, 0, true, comment, refl, (2, refl, refl))
deadlocked-Waits (suc (suc zero)) h = (1, 1, true, comment, refl, (1, refl, refl))
deadlocked-Waits (suc (suc (suc n))) h = absurd (ground arith)

deadlock_stays_example :
    ((n : ℕ) → both n ≡ true → deadlocked.local n ≡ deadlocked.local n) × Waits who both deadlocked
deadlock_stays_example =
    deadlock_stays 3 own who both started deadlocked deadlocked own-IsOrderly who-AreDistinct
      started-Starts to_deadlocked deadlocked-Waits here

started-Unique : Unique started.store.mmgetter
started-Unique zero zero th h h' e e' = refl
started-Unique zero (suc zero) th h h' e e' = absurd (ground arith)
started-Unique (suc zero) zero th h h' e e' = absurd (ground arith)
started-Unique (suc zero) (suc zero) th h h' e e' = refl
started-Unique (suc (suc i)) j th h h' e e' = absurd (omega arith)
started-Unique zero (suc (suc j)) th h h' e e' = absurd (omega arith)
started-Unique (suc zero) (suc (suc j)) th h h' e e' = absurd (omega arith)

started_empty : (j t : ℕ) → t ≢ 0 → holds t (slots_of started.store.mmgetter j) ≡ false
unfolding any
started_empty zero t ne = ground arith
started_empty (suc zero) t ne = ground arith
started_empty (suc (suc j)) t ne = ground arith

started_types : (t : ℕ) → t ≢ 0 → t < 3 → type_of started.store t ≡ t
started_types zero ne lt = absurd (ne refl)
started_types (suc zero) ne lt = refl
started_types (suc (suc zero)) ne lt = refl
started_types (suc (suc (suc t))) ne lt = absurd (omega arith)

started-Slotted : Slotted started.store
started-Slotted = record {
  types = started_types;
  owned = λ j t o ne mine h. absurd (cc (h, started_empty j t ne));
  spare = λ j t ne free. started_empty j t ne;
}

slots_true_example : owner_of deadlocked.store 1 ≡ some (who 1)
unfolding begin_lock begin_searched end_lock is_dead_lock any find_index obtain_getter
    find_last_index scan_others is_lock_jyunban_ok row_ok pair_ok walk granted
slots_true_example =
    slots_true 3 own who started deadlocked own-IsOrderly who-AreDistinct started-Starts
      started-Unique started-Slotted to_deadlocked 0 1 (who 1) (λ e. omega arith) refl refl

-- Thread 2 is about to ask for ACCOUNT, which the parent owns.
abbrev child_asks : System
child_asks = entered 2 1 parent_waits

to_child_asks : Reach 3 own who started child_asks
unfolding begin_lock begin_searched end_lock is_dead_lock any find_index obtain_getter
    find_last_index scan_others is_lock_jyunban_ok row_ok pair_ok walk granted
to_child_asks =
    to_entered 2 1 parent_waits started to_parent_waits refl ((λ e. omega arith), omega arith) refl

abbrev table_of : Option (Bool × List Getter) → List Getter
table_of none = []
table_of (some (answer, table)) = table

started_quiet : (j : ℕ) → (getter_at started.store.mmgetter j).is_waited ≡ false
started_quiet zero = refl
started_quiet (suc zero) = refl
started_quiet (suc (suc j)) = refl

started-Roomy : Roomy started.store.mmgetter
unfolding any
started-Roomy zero lt = omega arith
started-Roomy (suc zero) lt = omega arith
started-Roomy (suc (suc j)) lt = absurd (omega arith)

started-Ready : Ready started
started-Ready = record {
  starts = started-Starts;
  unique = started-Unique;
  slotted = started-Slotted;
  quiet = started_quiet;
  roomy = started-Roomy;
  empty = started_empty;
}

abbrev says_yes : Option (Bool × List Getter) → Bool
says_yes none = false
says_yes (some (answer, table)) = answer

yes_table : (r : Option (Bool × List Getter)) → says_yes r ≡ true → r ≡ some (true, table_of r)
yes_table none h = cc
yes_table (some (answer, table)) h = ap (λ b. some (b, table)) h

child_searches :
    is_dead_lock 3 1 (asking 1 1 child_asks.store.mmgetter)
    ≡ some (true, table_of (is_dead_lock 3 1 (asking 1 1 child_asks.store.mmgetter)))
unfolding begin_lock begin_searched end_lock is_dead_lock any find_index obtain_getter
    find_last_index scan_others is_lock_jyunban_ok row_ok pair_ok walk granted
child_searches = yes_table _ refl

yes_deadlocks_example :
    (z : System) × Step 3 own who child_asks z
    × ((z.local 2).place ≡ wants 1 1 true comment)
    × ((w : ℕ → Bool) × (w 2 ≡ true)
        × Waits who w z
        × ((u : System) → Reach 3 own who z u → (m : ℕ) → w m ≡ true → u.local m ≡ z.local m))
unfolding begin_lock begin_searched end_lock is_dead_lock any find_index obtain_getter
    find_last_index scan_others is_lock_jyunban_ok row_ok pair_ok walk granted
yes_deadlocks_example =
    yes_deadlocks 3 own who started child_asks 2 1 1 comment child_asks.store.mmgetter
      (table_of (is_dead_lock 3 1 (asking 1 1 child_asks.store.mmgetter))) own-IsOrderly
      who-AreDistinct started-Ready to_child_asks refl refl child_searches

-- The parent has got ACCOUNT and waits for DBQUE, which the child has got.
child_blocked : Blocks child_asks 2 1 1
child_blocked = through 1 2 0 true comment (λ e. omega arith) refl refl (back refl)

deadlock_found_example :
    (z : System) × Step 3 own who child_asks z
    × ((i : ℕ) × ((z.local 2).place ≡ wants 1 i true comment))
    × ((notes : List Note) × (z.store.notes ≡ notes ++ (dead_lock (who 2) ∷ [])))
deadlock_found_example =
    deadlock_found 3 own who started child_asks 2 1 1 comment own-IsOrderly who-AreDistinct
      started-Ready (omega arith) to_child_asks refl child_blocked

dead_lock_iff_example :
    ((table : List Getter) × (is_dead_lock 3 1 (asking 1 1 child_asks.store.mmgetter)
        ≡ some (true, table)))
    ↔ ((k : ℕ) × Blocks child_asks 2 k 1)
unfolding begin_lock begin_searched end_lock is_dead_lock any find_index obtain_getter
    find_last_index scan_others is_lock_jyunban_ok row_ok pair_ok walk granted
dead_lock_iff_example =
    dead_lock_iff 3 own who started child_asks 2 1 1 comment child_asks.store.mmgetter own-IsOrderly
      who-AreDistinct started-Ready (omega arith) to_child_asks refl refl

-- Two processes that wait for each other work on getters of their own.
getters_apart_example :
    Evolves started.store.mmgetter deadlocked.store.mmgetter
    × ((n m i : ℕ)
        → works_on (deadlocked.local n).place ≡ some i
        → works_on (deadlocked.local m).place ≡ some i
        → n ≡ m)
getters_apart_example =
    getters_apart 3 own who started deadlocked who-AreDistinct (λ n. refl) to_deadlocked
