-- ===== src/Mutex/System/Refine.antt =====
-- The calls of common/mymutex.c against what a mutex promises: seen without BEFORELOCK and without the
-- tables of getters, a step of a thread takes a free mutex, gives its own up, or changes nothing.
use ktrpg.Base.{ℕ, zero, suc, ◌≡◌, Bool, Option, none, some, arith, ◌==◌, if◌then◌else◌}
use ktrpg.Mutex.Types.{Thread, Store}
use ktrpg.Mutex.Lock.Owners.{owner_of}
use ktrpg.Mutex.Stage.Owners.{Change, keeps, takes, frees, frees_both}
use ktrpg.Mutex.System.{Local, IsOrderly, System, Step, moves, Reach}
use ktrpg.Mutex.System.Moves.{Move-Moved}
use ktrpg.Mutex.System.Invariant.{AreDistinct, Starts, Starts-Inv, Reach-Inv}

-- Who owns each mutex that a program can ask for, which are numbered from 1.
abbrev pub owners : Store → ℕ → Option Thread
owners s u = owner_of s (suc u)

-- What thread `th` may do to mutexes of which `a` tells the owners.
pub data Does (th : Thread) (a b : ℕ → Option Thread) : Type 0 where
  nothing : ((u : ℕ) → b u ≡ a u) → Does th a b
  acquires :
      (t : ℕ) → a t ≡ none → ((u : ℕ) → b u ≡ (if t == u then some th else a u)) → Does th a b
  releases :
      (t : ℕ) → a t ≡ some th → ((u : ℕ) → b u ≡ (if t == u then none else a u)) → Does th a b

Change-Does : (th : Thread) (s s' : Store) → Change th s s' → Does th (owners s) (owners s')
Change-Does th s s' (keeps e) = nothing (λ u. e (suc u))
Change-Does th s s' (takes zero free e) = nothing (λ u. ground (arith, e (suc u)))
Change-Does th s s' (takes (suc t) free e) = acquires t free (λ u. ground (arith, e (suc u)))
Change-Does th s s' (frees own e) = nothing (λ u. ground (arith, e (suc u)))
Change-Does th s s' (frees_both zero own own_t e) = nothing (λ u. ground (arith, e (suc u)))
Change-Does th s s' (frees_both (suc t) own own_t e) =
    releases t own_t (λ u. ground (arith, e (suc u)))

-- From a state in which no thread has called, after any interleaving of the calls, each further step
-- of a thread does to the owners of the mutexes what a mutex promises: nothing, or that thread gets
-- one mutex that is free, or it gives up one that it owns. BEFORELOCK and the getters do not show.
-- Numbers stand for different threads, and the callers unlock only what they have locked.
pub Step-Does :
    (fuel : ℕ) (may : Local → ℕ → Bool) (who : ℕ → Thread) (x y z : System)
    → IsOrderly may
    → AreDistinct who
    → Starts x
    → Reach fuel may who x y
    → Step fuel may who y z
    → (n : ℕ) × Does (who n) (owners y.store) (owners z.store)
Step-Does fuel may who x y z orderly distinct b r (moves n l m e) =
    let inv = Reach-Inv fuel may orderly who distinct (Starts-Inv who b) r in
    let done =
      Move-Moved fuel may (who n) (y.local n) y.store z.store inv.room (inv.keep n) orderly m in
    (n, Change-Does (who n) y.store z.store done.change)
