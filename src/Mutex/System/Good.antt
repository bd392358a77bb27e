-- ===== src/Mutex/System/Good.antt =====
-- What the states have in common that threads reach from where `init_mymutex` of common/mymutex.c leaves
-- them.
use ktrpg.Base.{ℕ, ◌≡◌, ap, sym, subst, Bool, length}
use ktrpg.Mutex.Types.{Thread}
use ktrpg.Mutex.Identity.{Unique}
use ktrpg.Mutex.Identity.Calls.{Evolves}
use ktrpg.Mutex.System.{Local, IsOrderly, System, Reach}
use ktrpg.Mutex.System.Invariant.{AreDistinct, Inv, Starts-Inv, Reach-Inv}
use ktrpg.Mutex.System.Getters.{IsOwn, works_on, Reach-Owned}
use ktrpg.Mutex.System.Slots.{Slotted}
use ktrpg.Mutex.System.Slots.Reached.{Reach-Slotted}
use ktrpg.Mutex.System.Flags.Reached.{Flagged, Reach-Flagged}
use ktrpg.Mutex.System.Noted.{Marks}
use ktrpg.Mutex.System.Noted.Reached.{Kept, Reach-Kept}
use ktrpg.Mutex.System.Honest.{Honest}
use ktrpg.Mutex.System.Honest.Reached.{Reach-Honest}
use ktrpg.Mutex.System.Ready.{Ready}

pub record Good (who : ℕ → Thread) (x y : System) : Type 0 where
  pub inv : Inv who y
  pub own : (n : ℕ) → IsOwn (who n) y.store.mmgetter (y.local n).place
  pub unique : Unique y.store.mmgetter
  pub slotted : Slotted y.store
  pub flagged : Flagged y
  pub kept : Kept who y
  pub honest : (n : ℕ) → Honest (who n) (y.local n) y.store.mmgetter
  pub size : length y.store.mmgetter ≡ length x.store.mmgetter

pub Reach-Good :
    (fuel : ℕ) (may : Local → ℕ → Bool) (who : ℕ → Thread) (x y : System)
    → IsOrderly may
    → AreDistinct who
    → Ready x
    → Reach fuel may who x y
    → Good who x y
Reach-Good fuel may who x y orderly distinct ready r = record {
  inv = Reach-Inv fuel may orderly who distinct start r;
  own = owned.1;
  unique = owned.0.unique ready.unique;
  slotted = Reach-Slotted fuel may orderly who distinct start nowhere ready.unique ready.slotted r;
  flagged =
      Reach-Flagged fuel may orderly who distinct start nowhere ready.unique ready.slotted
        (λ j h. absurd (cc (h, ready.quiet j))) r;
  kept = Reach-Kept fuel may orderly who distinct start nowhere ready.unique ready.slotted before r;
  honest =
      Reach-Honest fuel may orderly who distinct start nowhere ready.unique ready.slotted before
        (λ n j t ne oj h. absurd (cc (h, ready.empty j t ne))) r;
  size = owned.0.size;
}
  where
    start : Inv who x
    start = Starts-Inv who ready.starts

    nowhere : (m : ℕ) → IsOwn (who m) x.store.mmgetter (x.local m).place
    nowhere m j q =
        absurd (cc (q, ap (λ (a : Local). works_on a.place) (ready.starts.all_outside m)))

    before : Kept who x
    before = record {
      marks = λ m.
          subst (λ (a : Local). Marks x.store.mmgetter a.place) (sym (ready.starts.all_outside m))
            tt;
      noted = λ m u h. absurd (cc (h, ap (λ (a : Local). a.has u) (ready.starts.all_outside m)));
      roomy = ready.roomy;
    }

    owned :
        Evolves x.store.mmgetter y.store.mmgetter
        × ((m : ℕ) → IsOwn (who m) y.store.mmgetter (y.local m).place)
    owned = Reach-Owned fuel may who distinct nowhere r
