-- ===== src/Mutex/System/Honest.antt =====
-- The slots of a getter of common/mymutex.c against what its thread has got, step by step.
pub mod Moves
pub mod Ends
pub mod Reached
use ktrpg.Base.{
  ℕ, ◌<◌, ◌≤◌, ◌≡◌, ◌≢◌, ◌⊎◌, refl, ap, sym, subst, ◌∙◌, inl, inr, Bool, true, false, none, some,
  List, length, arith, ◌==◌, if◌then◌else◌, ℕ_discrete, Option-cases, find_index-none,
  find_index_sound, get_or-set_keeps, map, set,
}
use ktrpg.Mutex.Types.{
  Thread, Getter, Store, blank_getter, mymutex_type_max, mymutex_type_beforelock,
}
use ktrpg.Mutex.Deadlock.{getter_at, holds}
use ktrpg.Mutex.Table.{returned, is_of, unlock_getter, pthread_mutex_lock, pthread_mutex_unlock}
use ktrpg.Mutex.Identity.{Unique, ident}
use ktrpg.Mutex.Identity.Calls.{Leaves, Leaves-pthread, is_of-ident}
use ktrpg.Mutex.Lock.Owners.{type_of, slots_of, filled}
use ktrpg.Mutex.Unlock.{clear_slot, cleared, unlock_inside, mymutex_getter_unlock}
use ktrpg.Mutex.Unlock.Release.{slots_of-cleared, holds-clear, getter_unlock-table}
use ktrpg.Mutex.Stage.{Began, waits, begin_lock, end_lock}
use ktrpg.Mutex.Stage.Getters.{end_lock-Same}
use ktrpg.Mutex.Stage.Owners.{returned-injective}
use ktrpg.Mutex.Stage.Asked.{BeginsAsking, begin_lock-BeginsAsking}
use ktrpg.Mutex.Stage.Slots.{kept, Claims, BeginsSlots, begin_lock-Slots}
use ktrpg.Mutex.Stage.Slots.Ends.{end_lock-Slots, unlock-Slots}
use ktrpg.Mutex.System.{
  Place, idle, asks_lock, inside_lock, searching, wants, owns, settles, asks_unlock, inside_unlock,
  Local, update, at, Move, call_lock, enter_lock, give_up, hang, begin, take, return_to, end,
  call_unlock, enter_unlock, leave,
}
use ktrpg.Mutex.System.Owned.{Owns, Keeps}
use ktrpg.Mutex.System.Getters.{IsOwn, works_on}
use ktrpg.Mutex.System.Slots.{
  Slotted, holds-filled, holds-map-clear, in_table, is_of-used, is_of-kept,
}

-- The thread is about to unlock `t`.
abbrev pub unlocking : ℕ → Place → Bool
unlocking t (asks_unlock u) = t == u
unlocking t (inside_unlock u) = t == u
unlocking t _ = false

-- A mutex in a slot of a getter of the thread is one that it has got or is about to unlock.
abbrev pub Honest : Thread → Local → List Getter → Type 0
Honest th l gs =
    (j t : ℕ)
    → t ≢ 0
    → is_of th (getter_at gs j) ≡ true
    → holds t (slots_of gs j) ≡ true
    → (l.has t ≡ true) ⊎ (unlocking t l.place ≡ true)

-- A getter with a mutex in a slot was its thread's before the step.
abbrev pub Back : List Getter → List Getter → Type 0
Back gs gs' =
    (j t : ℕ) (o : Thread)
    → t ≢ 0
    → is_of o (getter_at gs' j) ≡ true
    → holds t (slots_of gs' j) ≡ true
    → is_of o (getter_at gs j) ≡ true

-- What a step of `th` does.
pub record Told (th : Thread) (gs gs' : List Getter) (l' : Local) : Type 0 where
  pub back : Back gs gs'
  pub own :
      (j t : ℕ)
      → t ≢ 0
      → is_of th (getter_at gs j) ≡ true
      → holds t (slots_of gs' j) ≡ true
      → (l'.has t ≡ true) ⊎ (unlocking t l'.place ≡ true)

pub ident-Back :
    (gs gs' : List Getter)
    → ((j : ℕ) → ident (getter_at gs' j) ≡ ident (getter_at gs j))
    → Back gs gs'
ident-Back gs gs' same j t o ne oj h = sym (is_of-ident o gs gs' j (same j)) ∙ oj
