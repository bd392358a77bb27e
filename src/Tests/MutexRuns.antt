-- ===== src/Tests/MutexRuns.antt =====
-- `mymutex_lock` and `mymutex_unlock` of common/mymutex.c on small tables, and the two processes of
-- its `main`.
use ktrpg.Base.{
  ℕ, zero, suc, ◌≡◌, ◌++◌, refl, ap, true, false, Option, none, some, List, [], ◌∷◌, pos, arith,
  any, find_index, find_last_index, replicate,
}
use ktrpg.Mutex.Types.{Thread, Store, no_getter, Getter, Mymutex}
use ktrpg.Mutex.Deadlock.{is_dead_lock, holds, reset_counted}
use ktrpg.Mutex.Table.{Call, returned, blocked, spinning, obtain_getter, pthread_mutex_lock}
use ktrpg.Mutex.Lock.{mymutex_lock}
use ktrpg.Mutex.Lock.Owners.{owner_of, type_of, slots_of}
use ktrpg.Mutex.Lock.Acquire.{Locked, asking}
use ktrpg.Mutex.Lock.Acquire.Call.{mymutex_lock-Locked}
use ktrpg.Mutex.Unlock.{mymutex_unlock, unlock_inside, mymutex_getter_unlock}
use ktrpg.Mutex.Unlock.Release.{Released, mymutex_unlock-Released}
use ktrpg.Mutex.System.Ready.{Ready, initial, init_mymutex-Ready}
use ktrpg.Mutex.RoundTrip.{mymutex_unlock-mymutex_lock}
use ktrpg.Mutex.Identity.{Unique}
use ktrpg.Mutex.Identity.Full.{Request, lock, unlock, answer, answer_all, TakenFrom, full_for_good}
use ktrpg.Tests.DeadlockRuns.{getter}

abbrev pub parent : Thread
parent = record { pid = 0; tid = 1 }

abbrev pub child : Thread
child = record { pid = 0; tid = 2 }

abbrev pub comment : List ℕ
comment = replicate 16 0x61

abbrev mutex : ℕ → Option Thread → Mymutex
mutex t o = record { owner = o; mutex_type = t; mutex_lock_count = pos 0 }

-- The mutexes with the owners of ACCOUNT and of DBQUE, and a table of getters.
abbrev pub store : Option Thread → Option Thread → List Getter → Store
store account dbque gs = record {
  mmutex = mutex 0 none ∷ (mutex 1 account ∷ (mutex 2 dbque ∷ []));
  mmgetter = gs;
  mmjyunban = 0 ∷ (1 ∷ (2 ∷ []));
  g_beforelock = true;
  notes = [];
}

-- The parent holds DBQUE.
abbrev pub has_dbque : List Getter
has_dbque = getter 1 2 0 false false ∷ getter 2 0 0 false false ∷ []

-- It locks ACCOUNT, against the order.
mymutex_lock-Locked_example :
    (s' : Store) × (mymutex_lock 3 parent (pos 1) comment (store none (some parent) has_dbque)
      ≡ returned s')
    × Locked parent 1 0 has_dbque (store none (some parent) has_dbque) s'
unfolding is_dead_lock any find_index obtain_getter find_last_index
mymutex_lock-Locked_example =
    mymutex_lock-Locked 3 parent 1 comment (store none (some parent) has_dbque) 0 has_dbque
      (reset_counted 0 (asking 0 1 has_dbque)) false (λ e. omega arith) (omega arith) (omega arith)
      refl refl refl refl refl

mymutex_unlock-Released_example :
    (s' : Store) × (mymutex_unlock parent (pos 2) (store none (some parent) has_dbque)
      ≡ returned s')
    × Released 2 0 (store none (some parent) has_dbque) s'
    × (holds (type_of (store none (some parent) has_dbque) 2) (slots_of s'.mmgetter 0) ≡ false)
unfolding find_index
mymutex_unlock-Released_example =
    mymutex_unlock-Released parent 2 0 (store none (some parent) has_dbque) (λ e. omega arith)
      (omega arith) (omega arith) refl refl refl (λ e. omega arith)

has_dbque-Unique : Unique has_dbque
has_dbque-Unique zero zero th h h' e e' = refl
has_dbque-Unique zero (suc zero) th h h' e e' = absurd (ground arith)
has_dbque-Unique (suc zero) zero th h h' e e' = absurd (ground arith)
has_dbque-Unique (suc zero) (suc zero) th h h' e e' = refl
has_dbque-Unique (suc (suc i)) j th h h' e e' = absurd (omega arith)
has_dbque-Unique zero (suc (suc j)) th h h' e e' = absurd (omega arith)
has_dbque-Unique (suc zero) (suc (suc j)) th h h' e e' = absurd (omega arith)

abbrev requests : List Request
requests = unlock parent (pos 2) ∷ (lock child (pos 2) comment ∷ [])

-- A table of one getter, which the parent has.
abbrev taken : Store
taken = store none (some parent) (getter 1 2 0 false false ∷ [])

abbrev store_of : Call → Store
store_of (returned s) = s
store_of (blocked s) = s
store_of spinning = taken

abbrev unlocked : Store
unlocked = store_of (answer_all 3 (unlock parent (pos 2) ∷ []) taken)

taken-TakenFrom : TakenFrom child taken.mmgetter
taken-TakenFrom zero h = (parent, λ e. omega (arith, ap (λ th. th.tid) e), refl)
taken-TakenFrom (suc j) h = absurd (omega arith)

full_for_good_example :
    (s2 : Store) × (mymutex_lock 3 child (pos 1) comment unlocked ≡ returned s2)
    × ((u : ℕ) → owner_of s2 u ≡ owner_of unlocked u)
    × (s2.notes ≡ unlocked.notes ++ (no_getter child ∷ []))
unfolding answer_all answer mymutex_unlock unlock_inside mymutex_getter_unlock pthread_mutex_lock
    find_index find_last_index
full_for_good_example =
    full_for_good 3 (unlock parent (pos 2) ∷ []) taken unlocked child 1 comment taken-TakenFrom refl
      (λ e. omega arith) (omega arith) refl refl (omega arith)

-- Sixteen mutexes in memory that nobody has set up.
abbrev unmapped : Store
unmapped = record {
  mmutex = replicate 16 (mutex 9 (some parent));
  mmgetter = [];
  mmjyunban = [];
  g_beforelock = false;
  notes = [];
}

init_mymutex-Ready_example : Ready (initial none unmapped)
init_mymutex-Ready_example = init_mymutex-Ready none unmapped (omega arith)

-- The child locks ACCOUNT, which nobody holds, and unlocks it.
mymutex_unlock-mymutex_lock_example :
    (s' : Store) × (s'' : Store) × (mymutex_lock 3 child
        (pos 1)
        comment
        (store none (some parent) has_dbque)
      ≡ returned s')
    × (mymutex_unlock child (pos 1) s' ≡ returned s'')
    × ((u : ℕ) → owner_of s'' u ≡ owner_of (store none (some parent) has_dbque) u)
    × ((j : ℕ) → slots_of s''.mmgetter j ≡ slots_of has_dbque j)
unfolding is_dead_lock any find_index obtain_getter find_last_index
mymutex_unlock-mymutex_lock_example =
    mymutex_unlock-mymutex_lock 3 child 1 comment (store none (some parent) has_dbque) 1 has_dbque
      (reset_counted 1 (asking 1 1 has_dbque)) false (λ e. omega arith) (omega arith) (omega arith)
      refl refl refl refl refl (λ e. omega arith) has_dbque-Unique refl
