-- ===== src/Mutex/System/Owned.antt =====
-- What a thread's place says of who owns the mutexes.
use ktrpg.Base.{ℕ, ◌≡◌, ◌⊎◌, Bool, true, false, some, length}
use ktrpg.Mutex.Types.{Thread, Store}
use ktrpg.Mutex.Lock.Owners.{owner_of}
use ktrpg.Mutex.Stage.Owners.{Change}
use ktrpg.Mutex.System.{
  Place, idle, asks_lock, inside_lock, searching, wants, owns, settles, asks_unlock, inside_unlock,
  Local, IsMutex,
}

-- The mutexes that a thread owns at a place; what it is about to unlock it has no more.
abbrev pub Owns : Thread → (ℕ → Bool) → Place → Store → Type 0
Owns th has idle s = Unit {0}
Owns th has (asks_lock t comment) s = IsMutex t
Owns th has (inside_lock t comment) s = IsMutex t × (owner_of s 0 ≡ some th)
Owns th has searching s = owner_of s 0 ≡ some th
Owns th has (wants t i bbool comment) s = IsMutex t
Owns th has (owns t i bbool comment) s = IsMutex t × (owner_of s t ≡ some th)
Owns th has (settles t i bbool comment) s =
    IsMutex t × (owner_of s t ≡ some th) × (owner_of s 0 ≡ some th)
Owns th has (asks_unlock t) s = IsMutex t × (owner_of s t ≡ some th) × (has t ≡ false)
Owns th has (inside_unlock t) s =
    IsMutex t × (owner_of s t ≡ some th) × (has t ≡ false) × (owner_of s 0 ≡ some th)

-- What a thread has got, it owns.
abbrev pub Has : Thread → (ℕ → Bool) → Store → Type 0
Has th has s = (t : ℕ) → has t ≡ true → IsMutex t × (owner_of s t ≡ some th)

pub record Keeps (th : Thread) (l : Local) (s : Store) : Type 0 where
  pub place : Owns th l.has l.place s
  pub has : Has th l.has s

-- The places at which a thread owns BEFORELOCK.
abbrev pub in_section : Place → Bool
in_section (inside_lock t comment) = true
in_section searching = true
in_section (settles t i bbool comment) = true
in_section (inside_unlock t) = true
in_section _ = false

-- Who owns BEFORELOCK after a step of `th` from place `p` is `th`, at a place that says so, or owned it
-- before, while `th` stood at a place that does not.
abbrev pub Section : Thread → Place → Place → Store → Store → Type 0
Section th p p' s s' =
    (o : Thread)
    → owner_of s' 0 ≡ some o
    → ((o ≡ th) × (in_section p' ≡ true)) ⊎ ((owner_of s 0 ≡ some o) × (in_section p ≡ false))

-- A step changes the owners as `Change` says, and the thread's own part is kept.
pub record Moved (th : Thread) (p : Place) (s : Store) (l' : Local) (s' : Store) : Type 0 where
  pub size : length s'.mmutex ≡ length s.mmutex
  pub change : Change th s s'
  pub keep : Keeps th l' s'
  pub section : Section th p l'.place s s'
