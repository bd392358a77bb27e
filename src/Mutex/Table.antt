-- ===== src/Mutex/Table.antt =====
-- The tables of common/mymutex.c as its functions read and write them, and the pthread calls.
use ktrpg.Base.{
  ℕ, Bool, true, not, ◌&&◌, Option, none, some, List, [], ◌∷◌, ◌++◌, ◌==◌, pos, get_or, set,
  find_index, find_last_index,
}
use ktrpg.Mutex.Types.{Thread, Mymutex, Getter, Note, Store}
use ktrpg.Mutex.Deadlock.{getter_at}

-- How a call ends: it returns, it blocks in a `pthread_mutex_lock` with the tables as they then are,
-- or it stays in the `while (1)` of `isDeadLock`.
pub data Call : Type 0 where
  returned : Store → Call
  blocked : Store → Call
  spinning : Call

infixl 5 ◌>>=◌
abbrev pub ◌>>=◌ : Call → (Store → Call) → Call
returned s >>= f = f s
blocked s >>= f = blocked s
spinning >>= f = spinning

abbrev pub blank_mutex : Mymutex
blank_mutex = record { owner = none; mutex_type = 0; mutex_lock_count = pos 0 }

abbrev pub mutex_at : Store → ℕ → Mymutex
mutex_at s t = get_or s.mmutex t blank_mutex

abbrev pub set_mutex : ℕ → Mymutex → Store → Store
set_mutex t m s = record s { mmutex = set s.mmutex t m }

abbrev pub set_getter : ℕ → Getter → Store → Store
set_getter i g s = record s { mmgetter = set s.mmgetter i g }

abbrev pub add_note : Note → Store → Store
add_note n s = record s { notes = s.notes ++ (n ∷ []) }

-- `pthread_mutex_lock` on a mutex of the default type blocks while anyone owns it, the caller too.
unfoldable pub pthread_mutex_lock : Thread → ℕ → Store → Call
pthread_mutex_lock th t s = elim (mutex_at s t).owner [
  | none ↦ returned (set_mutex t (record (mutex_at s t) { owner = some th }) s)
  | some _ ↦ blocked s
]

-- `pthread_mutex_unlock`. POSIX leaves it undefined for a caller that is not the owner.
abbrev pub pthread_mutex_unlock : ℕ → Store → Store
pthread_mutex_unlock t s = set_mutex t (record (mutex_at s t) { owner = none }) s

-- The test of both searches for the caller's getter.
abbrev pub is_of : Thread → Getter → Bool
is_of th g = g.is_used && ((g.process_id == th.pid) && (g.thread_id == th.tid))

-- The search of `mymutex_lock` has no `break`, that of `mymutex_unlock` has one.
abbrev pub lock_getter : Thread → List Getter → Option ℕ
lock_getter th = find_last_index (is_of th)

abbrev pub unlock_getter : Thread → List Getter → Option ℕ
unlock_getter th = find_index (is_of th)

abbrev pub is_free : Getter → Bool
is_free g = not g.is_used

abbrev pub claim : Thread → ℕ → Getter → Getter
claim th t g = record g {
  process_id = th.pid;
  thread_id = th.tid;
  is_used = true;
  is_waited = true;
  wait_mutex_type = t;
}

-- The caller's getter, or the first free one, claimed; `none` if there is neither.
unfoldable pub obtain_getter : Thread → ℕ → List Getter → Option (ℕ × List Getter)
obtain_getter th t gs = elim (lock_getter th gs) [
  | some i ↦ some (i, gs)
  | none ↦ elim (find_index is_free gs) [
    | none ↦ none
    | some i ↦ some (i, set gs i (claim th t (getter_at gs i)))
  ]
]
