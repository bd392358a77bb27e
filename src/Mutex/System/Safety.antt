-- ===== src/Mutex/System/Safety.antt =====
-- What the threads can rely on: a mutex is one thread's.
use ktrpg.Base.{ℕ, zero, suc, ◌≡◌, inl, inr, Bool, true, false, ◌||◌, some, arith, ◌==◌, Bool-cases}
use ktrpg.Mutex.Types.{Thread, Store}
use ktrpg.Mutex.Lock.Owners.{owner_of}
use ktrpg.Mutex.System.{
  Place, idle, asks_lock, inside_lock, searching, wants, owns, settles, asks_unlock, inside_unlock,
  Local, IsOrderly, System, Reach,
}
use ktrpg.Mutex.System.Owned.{Owns, Keeps, in_section}
use ktrpg.Mutex.System.Invariant.{AreDistinct, Starts, Starts-Inv, Reach-Inv}

-- The mutex that a thread owns at its place, BEFORELOCK aside.
abbrev pub place_holds : Place → ℕ → Bool
place_holds (owns t i bbool comment) u = t == u
place_holds (settles t i bbool comment) u = t == u
place_holds (asks_unlock t) u = t == u
place_holds (inside_unlock t) u = t == u
place_holds _ u = false

-- The thread is inside BEFORELOCK, for 0; else it owns mutex `t` at its place, or has got it by a call
-- and not begun to unlock it.
abbrev pub holding : Local → ℕ → Bool
holding l zero = in_section l.place
holding l (suc t) = l.has (suc t) || place_holds l.place (suc t)

Owns-owner :
    (th : Thread) (has : ℕ → Bool) (p : Place) (s : Store) (u : ℕ)
    → Owns th has p s
    → place_holds p u ≡ true
    → owner_of s u ≡ some th
Owns-owner th has idle s u o h = cc
Owns-owner th has (asks_lock t comment) s u o h = cc
Owns-owner th has (inside_lock t comment) s u o h = cc
Owns-owner th has searching s u o h = cc
Owns-owner th has (wants t i bbool comment) s u o h = cc
Owns-owner th has (owns t i bbool comment) s u (ok, o) h = ground (arith, o)
Owns-owner th has (settles t i bbool comment) s u (ok, o, o0) h = ground (arith, o)
Owns-owner th has (asks_unlock t) s u (ok, o, g) h = ground (arith, o)
Owns-owner th has (inside_unlock t) s u (ok, o, g, o0) h = ground (arith, o)

Owns-section :
    (th : Thread) (has : ℕ → Bool) (p : Place) (s : Store)
    → Owns th has p s
    → in_section p ≡ true
    → owner_of s 0 ≡ some th
Owns-section th has idle s o h = cc
Owns-section th has (asks_lock t comment) s o h = cc
Owns-section th has (inside_lock t comment) s (ok, o) h = o
Owns-section th has searching s o h = o
Owns-section th has (wants t i bbool comment) s o h = cc
Owns-section th has (owns t i bbool comment) s o h = cc
Owns-section th has (settles t i bbool comment) s (ok, own, o) h = o
Owns-section th has (asks_unlock t) s o h = cc
Owns-section th has (inside_unlock t) s (ok, own, g, o) h = o

holding-owner :
    (th : Thread) (l : Local) (s : Store) (u : ℕ)
    → Keeps th l s
    → holding l u ≡ true
    → owner_of s u ≡ some th
holding-owner th l s zero k h = Owns-section th l.has l.place s k.place h
holding-owner th l s (suc u) k h = elim (Bool-cases (l.has (suc u))) [
  | inl g ↦ (k.has (suc u) g).1
  | inr g ↦ Owns-owner th l.has l.place s (suc u) k.place (ground arith)
]

-- Mutual exclusion: however the calls of any number of threads interleave, from a state in which none
-- has called, two threads that hold one mutex are one thread, from the moment it is locked until it
-- is unlocked; so are two threads inside BEFORELOCK. Numbers stand for different threads, and the
-- callers unlock only what they have locked.
pub mutual_exclusion :
    (fuel : ℕ) (may : Local → ℕ → Bool) (who : ℕ → Thread) (x y : System)
    → IsOrderly may
    → AreDistinct who
    → Starts x
    → Reach fuel may who x y
    → (n m t : ℕ) → holding (y.local n) t ≡ true
    → holding (y.local m) t ≡ true
    → n ≡ m
mutual_exclusion fuel may who x y orderly distinct b r n m t h h' =
    let inv = Reach-Inv fuel may orderly who distinct (Starts-Inv who b) r in
    distinct n m (
      cc (
        holding-owner (who n) (y.local n) y.store t (inv.keep n) h,
        holding-owner (who m) (y.local m) y.store t (inv.keep m) h',
      ))
