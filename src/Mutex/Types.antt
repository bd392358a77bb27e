-- ===== src/Mutex/Types.antt =====
-- common/mymutex.h: the shared tables, and the log entries that common/mymutex.c writes.
use ktrpg.Base.{ℕ, Bool, false, Option, List, ℤ, replicate}

abbrev pub max_mutex_num : ℕ
max_mutex_num = 16

abbrev pub max_mutex_getter_num : ℕ
max_mutex_getter_num = 32

abbrev pub mmgetter_comment_max : ℕ
mmgetter_comment_max = 16

abbrev pub mymutex_type_beforelock : ℕ
mymutex_type_beforelock = 0

abbrev pub mymutex_type_account : ℕ
mymutex_type_account = 1

abbrev pub mymutex_type_dbque : ℕ
mymutex_type_dbque = 2

abbrev pub mymutex_type_max : ℕ
mymutex_type_max = 3

-- A thread of a process: `getpid()` and `gettid()`.
pub record Thread : Type 0 where
  pub pid : ℕ
  pub tid : ℕ

-- `type_mymutex`. The state of the `pthread_mutex_t` is its owner.
pub record Mymutex : Type 0 where
  pub owner : Option Thread
  pub mutex_type : ℕ
  pub mutex_lock_count : ℤ

-- `type_mymutexgetter`; the flags hold MYMUTEX_YES or MYMUTEX_NO only.
pub record Getter : Type 0 where
  pub process_id : ℕ
  pub thread_id : ℕ
  pub get_mutex_type : List ℕ
  pub comments : List (List ℕ)
  pub wait_mutex_type : ℕ
  pub counted : Bool
  pub is_used : Bool
  pub is_waited : Bool

-- What the mutex functions log with LOG_ERR and LOG_WARNING, each line by what it tells. The lines
-- that they log with LOG_TEST are left out, although `mylog` keeps them where THISISTEST is defined,
-- as common/commondef.h does: nothing in the mutex functions depends on them.
pub data Note : Type 0 where
  bad_type : Thread → Note
  no_getter : Thread → Note
  lock_order : Thread → Note
  dead_lock : Thread → Note
  unlock_order : Thread → Note
  not_locked : Thread → Note

-- The shared memory and the globals of the module.
pub record Store : Type 0 where
  pub mmutex : List Mymutex
  pub mmgetter : List Getter
  pub mmjyunban : List ℕ
  pub g_beforelock : Bool
  pub notes : List Note

-- A getter as `init_mymutex` leaves it.
abbrev pub blank_getter : Getter
blank_getter = record {
  process_id = 0;
  thread_id = 0;
  get_mutex_type = replicate max_mutex_num 0;
  comments = replicate max_mutex_num (replicate mmgetter_comment_max 0);
  wait_mutex_type = 0;
  counted = false;
  is_used = false;
  is_waited = false;
}
