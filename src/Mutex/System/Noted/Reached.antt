-- ===== src/Mutex/System/Noted/Reached.antt =====
-- What the getters of common/mymutex.c note in every state that the threads reach.
use ktrpg.Base.{ℕ, ◌≡◌, ◌≢◌, refl, ap, sym, subst, ◌∙◌, Bool, List, arith, ℕ_discrete}
use ktrpg.Mutex.Types.{Thread, Getter}
use ktrpg.Mutex.Deadlock.{holds}
use ktrpg.Mutex.Identity.{Unique}
use ktrpg.Mutex.Identity.Calls.{Evolves}
use ktrpg.Mutex.System.{
  Place, idle, asks_lock, inside_lock, searching, wants, owns, settles, asks_unlock, inside_unlock,
  Local, IsOrderly, System, Step, moves, Reach, here, later,
}
use ktrpg.Mutex.System.Invariant.{AreDistinct, Inv, Reach-Inv}
use ktrpg.Mutex.System.Progress.{update_self}
use ktrpg.Mutex.System.Getters.{IsOwn, Move-Worked, Reach-Owned}
use ktrpg.Mutex.System.Slots.{Slotted}
use ktrpg.Mutex.System.Slots.Reached.{Reach-Slotted}
use ktrpg.Mutex.System.Noted.{Marks, Noted, Roomy, Apart, Notes}
use ktrpg.Mutex.System.Noted.Moves.{Move-Notes}

-- The getters of each thread, and the room in them.
pub record Kept (who : ℕ → Thread) (x : System) : Type 0 where
  pub marks : (n : ℕ) → Marks x.store.mmgetter (x.local n).place
  pub noted : (n : ℕ) → Noted (who n) x.store.mmgetter (x.local n).has
  pub roomy : Roomy x.store.mmgetter

Marks-others :
    (th o : Thread) (gs gs' : List Getter) (p : Place)
    → o ≢ th
    → Apart th gs gs'
    → IsOwn o gs p
    → Marks gs p
    → Marks gs' p
Marks-others th o gs gs' idle ne a own m = tt
Marks-others th o gs gs' (asks_lock t c) ne a own m = tt
Marks-others th o gs gs' (inside_lock t c) ne a own m = tt
Marks-others th o gs gs' searching ne a own m = tt
Marks-others th o gs gs' (wants t i b c) ne a own m = (a i o ne (own i refl).1).0 ∙ m
Marks-others th o gs gs' (owns t i b c) ne a own m = ap (holds t) (a i o ne (own i refl).1).1 ∙ m
Marks-others th o gs gs' (settles t i b c) ne a own m = ap (holds t) (a i o ne (own i refl).1).1 ∙ m
Marks-others th o gs gs' (asks_unlock t) ne a own m = tt
Marks-others th o gs gs' (inside_unlock t) ne a own m = tt

module _ (fuel : ℕ) (may : Local → ℕ → Bool) (orderly : IsOrderly may) (who : ℕ → Thread)
    (distinct : AreDistinct who) where
  Step-Kept :
      (x y : System)
      → Inv who x
      → ((n : ℕ) → IsOwn (who n) x.store.mmgetter (x.local n).place)
      → Slotted x.store
      → Kept who x
      → Step fuel may who x y
      → Kept who y
  Step-Kept x y inv own sl kept (moves k l m e) = record {
    marks = λ n. (both n).0;
    noted = λ n. (both n).1;
    roomy = done.roomy;
  }
    where
      ev : Evolves x.store.mmgetter y.store.mmgetter
      ev = (Move-Worked fuel may (who k) (x.local k) x.store y.store (own k) m).evolves

      done : Notes (who k) x.store.mmgetter y.store.mmgetter l
      done =
          Move-Notes fuel may (who k) (x.local k) x.store y.store inv.room (inv.keep k) (own k) sl
            (kept.marks k) (kept.noted k) kept.roomy ev m

      at_self : l ≡ y.local k
      at_self = sym (ap (λ f. f k) e ∙ update_self x.local k l)

      others :
          (n : ℕ)
          → who n ≢ who k
          → Marks y.store.mmgetter (x.local n).place
            × Noted (who n) y.store.mmgetter (x.local n).has
      others n ne = (
        Marks-others (who k) (who n) x.store.mmgetter y.store.mmgetter (x.local n).place ne
            done.apart (own n) (kept.marks n),
        λ t h.
            let (j, oj, hj) = kept.noted n t h in
            (j, ev.stays j (who n) oj, ap (holds t) (done.apart j (who n) ne oj).1 ∙ hj),
      )

      both :
          (n : ℕ)
          → Marks y.store.mmgetter (y.local n).place
            × Noted (who n) y.store.mmgetter (y.local n).has
      both n = elim (ℕ_discrete k n) [
        | yes q ↦
            subst
              (λ i.
                Marks y.store.mmgetter (y.local i).place
                × Noted (who i) y.store.mmgetter (y.local i).has)
              q
              (subst
                (λ (a : Local).
                  Marks y.store.mmgetter a.place × Noted (who k) y.store.mmgetter a.has)
                at_self (done.marks, done.noted))
        | no nq ↦
            let same : x.local n ≡ y.local n = sym (ap (λ f. f n) e ∙ ground arith) in
            subst
              (λ (a : Local). Marks y.store.mmgetter a.place × Noted (who n) y.store.mmgetter a.has)
              same (others n (λ q. nq (sym (distinct n k q))))
      ]

  pub Reach-Kept :
      {x y : System}
      → Inv who x
      → ((n : ℕ) → IsOwn (who n) x.store.mmgetter (x.local n).place)
      → Unique x.store.mmgetter
      → Slotted x.store
      → Kept who x
      → Reach fuel may who x y
      → Kept who y
  Reach-Kept inv own unique sl kept here = kept
  Reach-Kept {x} inv own unique sl kept (later {y} {z} r st) =
      Step-Kept y z (Reach-Inv fuel may orderly who distinct inv r)
        (Reach-Owned fuel may who distinct own r).1
        (Reach-Slotted fuel may orderly who distinct inv own unique sl r)
        (Reach-Kept inv own unique sl kept r) st
