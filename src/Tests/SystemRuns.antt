-- ===== src/Tests/SystemRuns.antt =====
-- Threads that interleave in `mymutex_lock` and `mymutex_unlock` of common/mymutex.c.
use ktrpg.Base.{
  ℕ, ◌≡◌, ◌⊎◌, refl, ap, Bool, true, none, some, List, [], ◌∷◌, get_or, arith, any, find_index,
  find_last_index,
}
use ktrpg.Mutex.Types.{Thread, Store}
use ktrpg.Mutex.Deadlock.{is_dead_lock}
use ktrpg.Mutex.Table.{mutex_at, set_mutex, obtain_getter, pthread_mutex_lock}
use ktrpg.Mutex.Lock.{scan_others}
use ktrpg.Mutex.Order.{is_lock_jyunban_ok, row_ok, pair_ok}
use ktrpg.Mutex.Stage.{Began, refused, spins, waits, begin_lock, begin_searched, end_lock}
use ktrpg.Mutex.System.{
  inside_lock, searching, asks_lock, wants, owns, Local, IsOrderly, at, update, System, Step, moves,
  Reach, here, later, outside, call_lock, enter_lock, begin, take,
}
use ktrpg.Mutex.System.Invariant.{AreDistinct, Starts}
use ktrpg.Mutex.System.Safety.{mutual_exclusion}
use ktrpg.Mutex.System.Progress.{Gives, beforelock_comes_back}
use ktrpg.Mutex.System.Refine.{owners, Does, Step-Does}
use ktrpg.Tests.MutexRuns.{child, comment, store, has_dbque, parent}

abbrev pub who : ℕ → Thread
who n = record { pid = 0; tid = n }

-- The callers unlock what they have got.
abbrev pub own : Local → ℕ → Bool
own l t = l.has t

pub own-IsOrderly : IsOrderly own
own-IsOrderly l t h = h

pub who-AreDistinct : AreDistinct who
who-AreDistinct n m e = ap (λ th. th.tid) e

abbrev before : System
before = record { local = λ n. outside; store = store none (some parent) has_dbque }

before-Starts : Starts before
before-Starts = record { all_outside = λ n. refl; room = omega arith; free = refl }

-- Thread 2 is at place `l`, and the tables are `s`.
abbrev then_at : System → Local → Store → System
then_at x l s = record { local = update x.local 2 l; store = s }

-- The tables after a `pthread_mutex_lock` by thread 2, and after the stage inside BEFORELOCK.
abbrev locked : ℕ → Store → Store
locked t s = set_mutex t (record (mutex_at s t) { owner = some child }) s

abbrev waiting : Began → Store
waiting (refused s) = s
waiting spins = before.store
waiting (waits i bbool s) = s

abbrev stores : List Store
stores =
    let inside = locked 0 before.store in
    let released = waiting (begin_lock 3 child 1 inside) in
    let owns = locked 0 (locked 1 released) in
    inside ∷ (released ∷ (locked 1 released ∷ (owns ∷ (end_lock child 1 1 true comment owns ∷ []))))

abbrev nth : ℕ → Store
nth k = get_or stores k before.store

-- Thread 2 calls `mymutex_lock` for ACCOUNT, which is free.
abbrev asked : System
asked = then_at before (at (asks_lock 1 comment) outside) before.store

abbrev entered : System
entered = then_at asked (at (inside_lock 1 comment) outside) (nth 0)

to_entered : Reach 3 own who before entered
unfolding pthread_mutex_lock
to_entered =
    later
      (later here
        (moves 2 _ (call_lock 1 comment refl ((λ e. omega arith), omega arith) refl refl) refl))
      (moves 2 _ (enter_lock 1 comment refl refl refl) refl)

abbrev released : System
released = then_at entered (at (wants 1 1 true comment) outside) (nth 1)

to_released : Step 3 own who entered released
unfolding begin_lock begin_searched is_dead_lock any find_index obtain_getter find_last_index
    scan_others is_lock_jyunban_ok row_ok pair_ok
to_released = moves 2 _ (begin 1 1 true comment refl refl refl) refl

abbrev taken : System
taken = then_at released (at (owns 1 1 true comment) outside) (nth 2)

to_taken : Step 3 own who released taken
unfolding begin_lock begin_searched is_dead_lock any find_index obtain_getter find_last_index
    pthread_mutex_lock scan_others is_lock_jyunban_ok row_ok pair_ok
to_taken = moves 2 _ (take 1 1 true comment refl refl refl) refl

mutual_exclusion_example : ◌≡◌ {A = ℕ} 2 2
mutual_exclusion_example =
    mutual_exclusion 3 own who before taken own-IsOrderly who-AreDistinct before-Starts
      (later (later to_entered to_released) to_taken) 2 2 1 refl refl

beforelock_comes_back_example :
    (n : ℕ) × (who n ≡ child) × (((entered.local n).place ≡ searching) ⊎ Gives 3 own who entered n)
beforelock_comes_back_example =
    beforelock_comes_back 3 own who before entered child own-IsOrderly who-AreDistinct before-Starts
      to_entered refl

Step-Does_example : (n : ℕ) × Does (who n) (owners released.store) (owners taken.store)
Step-Does_example =
    Step-Does 3 own who before released taken own-IsOrderly who-AreDistinct before-Starts
      (later to_entered to_released) to_taken
