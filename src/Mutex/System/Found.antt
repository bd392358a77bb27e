-- ===== src/Mutex/System/Found.antt =====
-- Which deadlocks of the threads that interleave in the calls `isDeadLock` of common/mymutex.c finds.
use ktrpg.Base.{ℕ, ◌<◌, ◌≡◌, refl, ap, sym, subst, Bool, true, some, List, length}
use ktrpg.Base.{◌++◌, [], ◌∷◌}
use ktrpg.Mutex.Lock.{note_order}
use ktrpg.Mutex.Stage.{waits, begin_lock}
use ktrpg.Mutex.System.{at, begin, moves, update, Step, IsMutex}
use ktrpg.Mutex.System.Owned.{Owns}
use ktrpg.Mutex.System.Progress.{update_self}
use ktrpg.Mutex.Types.{Thread, Getter, Store, Note, dead_lock}
use ktrpg.Mutex.Deadlock.{is_dead_lock}
use ktrpg.Mutex.Table.{obtain_getter}
use ktrpg.Mutex.Lock.Acquire.{asking}
use ktrpg.Mutex.Stage.Asked.{Asked, begin_lock-Asked}
use ktrpg.Mutex.System.{inside_lock, wants, Local, IsOrderly, System, Reach}
use ktrpg.Mutex.System.Invariant.{AreDistinct}
use ktrpg.Mutex.System.Good.{Good, Reach-Good}
use ktrpg.Mutex.System.Ready.{Ready}
use ktrpg.Mutex.System.Blocks.{Blocks, Blocks-yes}

-- No deadlock is missed: from a state that is ready, as `init_mymutex` leaves it, if the calls lead to a
-- state where thread `n` is about to ask for `t`, and from `t` a chain of threads, each with what the
-- one before asks for and waiting itself, leads to a mutex that `n` has got, then with one round of fuel
-- more than there are getters there is a step after which `n` waits for `t`, and the last of the lines
-- that the mutex functions have logged with LOG_ERR or LOG_WARNING tells of its deadlock; what they log
-- with LOG_TEST is not among these. Numbers stand for different threads, and the callers unlock only
-- what they have locked.
pub deadlock_found :
    (fuel : ℕ) (may : Local → ℕ → Bool) (who : ℕ → Thread) (x y : System) (n t k : ℕ)
    (comment : List ℕ)
    → IsOrderly may
    → AreDistinct who
    → Ready x
    → length x.store.mmgetter < fuel
    → Reach fuel may who x y
    → (y.local n).place ≡ inside_lock t comment
    → Blocks y n k t
    → (z : System) × Step fuel may who y z
      × ((i : ℕ) × ((z.local n).place ≡ wants t i true comment))
      × ((notes : List Note) × (z.store.notes ≡ notes ++ (dead_lock (who n) ∷ [])))
deadlock_found fuel may who x y n t k comment orderly distinct ready enough r p blocks = (
  record {
    local = update y.local n (at (wants t yes.0 true comment) (y.local n));
    store = asked.0;
  },
  moves n _ (begin t yes.0 true comment p asked.1 refl) refl,
  (
    yes.0,
    ap (λ (a : Local). a.place)
        (update_self y.local n (at (wants t yes.0 true comment) (y.local n))),
  ),
  (_, asked.2.notes),
)
  where
    good : Good who x y
    good = Reach-Good fuel may who x y orderly distinct ready r

    yes :
        (i : ℕ) × (obtain_getter (who n) t y.store.mmgetter ≡ some (i, y.store.mmgetter))
        × ((table : List Getter) × (is_dead_lock fuel i (asking i t y.store.mmgetter)
              ≡ some (true, table)))
    yes =
        Blocks-yes fuel who y n t distinct good.inv good.own good.unique good.slotted good.kept
          (subst (λ m. m < fuel) (sym good.size) enough) blocks

    ok : IsMutex t
    ok = (subst (λ q. Owns (who n) (y.local n).has q y.store) p (good.inv.keep n).place).0

    asked :
        (s' : Store) × (begin_lock fuel (who n) t y.store ≡ waits yes.0 true s')
        × Asked
            (who n)
            true
            (asking yes.0 t y.store.mmgetter)
            (note_order (who n) yes.0 y.store).notes
            s'
    asked =
        begin_lock-Asked fuel (who n) t yes.0 y.store y.store.mmgetter true yes.2.0 yes.1
          (good.slotted.types t ok.0 ok.1) yes.2.1
