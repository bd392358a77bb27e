-- ===== src/Mutex/Stage.antt =====
-- `mymutex_lock` of common/mymutex.c cut at its calls of `pthread_mutex_lock`, where other threads
-- run: up to where it waits for the mutex, and from where it owns the mutex and BEFORELOCK.
pub mod Owners
pub mod Getters
pub mod Slots
pub mod Flags
pub mod Asked
use ktrpg.Base.{ℕ, Bool, true, false, none, some, List, if◌then◌else◌}
use ktrpg.Mutex.Types.{Thread, Store, no_getter, lock_order, dead_lock, mymutex_type_beforelock}
use ktrpg.Mutex.Deadlock.{is_dead_lock}
use ktrpg.Mutex.Table.{mutex_at, add_note, pthread_mutex_unlock, obtain_getter}
use ktrpg.Mutex.Lock.{granted, set_wait, scan_others, order_ok, note_order}

-- How the part inside BEFORELOCK ends: the call returns, it stays in `isDeadLock`, or it waits for the
-- mutex with getter `i`; `bbool` tells which of the two ends of the call it goes to.
pub data Began : Type 0 where
  refused : Store → Began
  spins : Began
  waits : (i : ℕ) → (bbool : Bool) → Store → Began

-- `mymutex_getter_lock` up to its first `pthread_mutex_lock`.
abbrev pub release_to_wait : ℕ → ℕ → Store → Store
release_to_wait i t s =
    pthread_mutex_unlock mymutex_type_beforelock (set_wait i (mutex_at s t).mutex_type s)

-- The branch with the search for a deadlock.
unfoldable pub begin_searched : ℕ → Thread → ℕ → ℕ → Store → Began
begin_searched fuel th t i s =
    let asked = set_wait i t s in
    elim (is_dead_lock fuel i asked.mmgetter) [
      | none ↦ spins
      | some (answer, table) ↦
          let searched = record asked { mmgetter = table } in
          waits i true
            (release_to_wait i t (if answer then add_note (dead_lock th) searched else searched))
    ]

unfoldable pub begin_lock : ℕ → Thread → ℕ → Store → Began
begin_lock fuel th t s = elim (obtain_getter th t s.mmgetter) [
  | none ↦ refused (pthread_mutex_unlock mymutex_type_beforelock (add_note (no_getter th) s))
  | some (i, gs) ↦
      let s' = record s { mmgetter = gs } in
      if scan_others t i 0 true gs
      then begin_searched fuel th t i (note_order th i s')
      else (if order_ok i s'
          then waits i false (release_to_wait i t (set_wait i t s'))
          else refused (pthread_mutex_unlock mymutex_type_beforelock (add_note (lock_order th) s')))
]

-- From where the call owns the mutex and BEFORELOCK to its end.
unfoldable pub end_lock : Thread → ℕ → ℕ → Bool → List ℕ → Store → Store
end_lock th t i bbool comment s =
    let owns = granted t i comment s in
    pthread_mutex_unlock mymutex_type_beforelock (if bbool then note_order th i owns else owns)
