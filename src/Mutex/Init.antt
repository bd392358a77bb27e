-- ===== src/Mutex/Init.antt =====
-- `init_mymutex` of common/mymutex.c, on whatever the shared memory held.
pub mod Ready
use ktrpg.Base.{ℕ, Bool, Option, none, some, List, map, pos, replicate, set}
use ktrpg.Mutex.Types.{
  Mymutex, Store, blank_getter, max_mutex_getter_num, mymutex_type_beforelock, mymutex_type_account,
  mymutex_type_dbque,
}
use ktrpg.Mutex.Table.{blank_mutex}

abbrev pub fresh_mutex : ℕ → Mymutex
fresh_mutex t = record blank_mutex { mutex_type = t }

-- `pthread_mutex_init`, the count and the type of the three mutexes that have a type.
abbrev pub init_three : List Mymutex → List Mymutex
init_three mmutex =
    set
      (set (set mmutex mymutex_type_beforelock (fresh_mutex mymutex_type_beforelock))
        mymutex_type_account (fresh_mutex mymutex_type_account))
      mymutex_type_dbque (fresh_mutex mymutex_type_dbque)

abbrev pub zero_count : Mymutex → Mymutex
zero_count m = record m { mutex_lock_count = pos 0 }

-- `mmj` is `none` for a null pointer: the order list stays as it was.
unfoldable pub init_mymutex : Bool → Option (List ℕ) → Store → Store
init_mymutex beforelock mmj s = record s {
  mmutex = init_three (map zero_count s.mmutex);
  mmgetter = replicate max_mutex_getter_num blank_getter;
  mmjyunban = elim mmj [ none ↦ s.mmjyunban | some list ↦ list ];
  g_beforelock = beforelock;
}
