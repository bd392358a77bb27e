-- ===== src/Mutex/System/Cycle.antt =====
-- What a YES of `isDeadLock` of common/mymutex.c means for the threads that interleave in the calls.
use ktrpg.Base.{ℕ, ◌≡◌, refl, ap, subst, ◌∙◌, Bool, true, some, List}
use ktrpg.Mutex.Types.{Thread, Getter, Store}
use ktrpg.Mutex.Deadlock.{is_dead_lock}
use ktrpg.Mutex.Deadlock.Sound.{Cycle-Alike, is_dead_lock-Cycle}
use ktrpg.Mutex.Deadlock.Members.{Ring, Cycle-Ring, view-Alike}
use ktrpg.Mutex.Table.{obtain_getter}
use ktrpg.Mutex.Lock.Acquire.{asking}
use ktrpg.Mutex.Stage.{waits, begin_lock}
use ktrpg.Mutex.Lock.{note_order}
use ktrpg.Mutex.Stage.Asked.{Asked, begin_lock-Asked}
use ktrpg.Mutex.System.{
  inside_lock, wants, Local, IsOrderly, IsMutex, begin, System, Step, moves, Reach, later, update,
  at,
}
use ktrpg.Mutex.System.Owned.{Owns}
use ktrpg.Mutex.System.Invariant.{AreDistinct}
use ktrpg.Mutex.System.Progress.{update_self}
use ktrpg.Mutex.System.Ring.{works_in, ring-Waits}
use ktrpg.Mutex.System.Good.{Good, Reach-Good}
use ktrpg.Mutex.System.Ready.{Ready}
use ktrpg.Mutex.System.Stuck.{Waits, deadlock_stays}

-- A YES of the search is a deadlock: from a state that is ready, as `init_mymutex` leaves it, if the calls
-- lead to a state where thread `n` is about to ask for `t` and `isDeadLock` then answers YES, then there
-- is a step after which it waits for `t` with the getter that it has found or claimed, and is in a set
-- of threads that each wait for a mutex that a thread of the set owns, where each of them stays whatever
-- steps follow. Numbers stand for different threads, and the callers unlock only what they have locked.
pub yes_deadlocks :
    (fuel : ℕ) (may : Local → ℕ → Bool) (who : ℕ → Thread) (x y : System) (n t i : ℕ)
    (comment : List ℕ) (gs table : List Getter)
    → IsOrderly may
    → AreDistinct who
    → Ready x
    → Reach fuel may who x y
    → (y.local n).place ≡ inside_lock t comment
    → obtain_getter (who n) t y.store.mmgetter ≡ some (i, gs)
    → is_dead_lock fuel i (asking i t gs) ≡ some (true, table)
    → (z : System) × Step fuel may who y z
      × ((z.local n).place ≡ wants t i true comment)
      × ((w : ℕ → Bool) × (w n ≡ true)
          × Waits who w z
          × ((u : System) → Reach fuel may who z u → (m : ℕ) → w m ≡ true → u.local m ≡ z.local m))
yes_deadlocks fuel may who x y n t i comment gs table orderly distinct ready r p e yes_found = (
  z,
  st,
  at_n,
  (
    w,
    in_set,
    waits_all,
    λ u r' m h.
        (deadlock_stays fuel may who w x z u orderly distinct ready.starts (later r st) waits_all
            r').0
          m h,
  ),
)
  where
    before : Good who x y
    before = Reach-Good fuel may who x y orderly distinct ready r

    ok : IsMutex t
    ok = (subst (λ q. Owns (who n) (y.local n).has q y.store) p (before.inv.keep n).place).0

    asked :
        (s' : Store) × (begin_lock fuel (who n) t y.store ≡ waits i true s')
        × Asked
            (who n)
            true
            (asking i t gs)
            (note_order (who n) i (record y.store { mmgetter = gs })).notes
            s'
    asked =
        begin_lock-Asked fuel (who n) t i y.store gs true table e (before.slotted.types t ok.0 ok.1)
          yes_found

    z : System
    z = record {
      local = update y.local n (at (wants t i true comment) (y.local n));
      store = asked.0;
    }

    st : Step fuel may who y z
    st = moves n _ (begin t i true comment p asked.1 refl) refl

    at_n : (z.local n).place ≡ wants t i true comment
    at_n =
        ap (λ (a : Local). a.place)
          (update_self y.local n (at (wants t i true comment) (y.local n)))

    ring : (ring : List ℕ) × Ring z.store.mmgetter i ring
    ring = Cycle-Ring z.store.mmgetter i (
        Cycle-Alike (view-Alike (asking i t gs) z.store.mmgetter asked.2.keeps)
          (is_dead_lock-Cycle fuel i (asking i t gs) table yes_found))

    w : ℕ → Bool
    w m = works_in ring.0 (z.local m).place

    in_set : w n ≡ true
    in_set = ap (works_in ring.0) at_n ∙ ring.1.mine

    after : Good who x z
    after = Reach-Good fuel may who x z orderly distinct ready (later r st)

    waits_all : Waits who w z
    waits_all =
        ring-Waits who distinct z after.inv after.own after.unique after.slotted after.flagged i n t
          true comment at_n ring.0 ring.1
