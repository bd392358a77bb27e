-- ===== src/Mutex/System/Honest/Reached.antt =====
-- The slots of the getters in every state that the threads reach, against what the threads have got.
use ktrpg.Base.{ℕ, ◌≡◌, ap, sym, subst, ◌∙◌, Bool, arith, ℕ_discrete}
use ktrpg.Mutex.Types.{Thread}
use ktrpg.Mutex.Deadlock.{holds}
use ktrpg.Mutex.Identity.{Unique}
use ktrpg.Mutex.System.{Local, IsOrderly, System, Step, moves, Reach, here, later}
use ktrpg.Mutex.System.Invariant.{AreDistinct, Inv, Reach-Inv}
use ktrpg.Mutex.System.Progress.{update_self}
use ktrpg.Mutex.System.Getters.{IsOwn, Move-Worked, Reach-Owned}
use ktrpg.Mutex.System.Slots.{Slotted}
use ktrpg.Mutex.System.Slots.Reached.{Reach-Slotted}
use ktrpg.Mutex.System.Noted.{Notes}
use ktrpg.Mutex.System.Noted.Moves.{Move-Notes}
use ktrpg.Mutex.System.Noted.Reached.{Kept, Reach-Kept}
use ktrpg.Mutex.System.Honest.{Honest, Told}
use ktrpg.Mutex.System.Honest.Moves.{Move-Told}

module _ (fuel : ℕ) (may : Local → ℕ → Bool) (orderly : IsOrderly may) (who : ℕ → Thread)
    (distinct : AreDistinct who) where
  Step-Honest :
      (x y : System)
      → Inv who x
      → ((n : ℕ) → IsOwn (who n) x.store.mmgetter (x.local n).place)
      → Unique x.store.mmgetter
      → Slotted x.store
      → Kept who x
      → ((n : ℕ) → Honest (who n) (x.local n) x.store.mmgetter)
      → Step fuel may who x y
      → (n : ℕ) → Honest (who n) (y.local n) y.store.mmgetter
  Step-Honest x y inv own unique sl kept honest (moves k l m e) n = elim (ℕ_discrete k n) [
    | yes q ↦
        subst (λ i. Honest (who i) (y.local i) y.store.mmgetter) q
          (subst (λ (a : Local). Honest (who k) a y.store.mmgetter) at_self
            (λ j t ne oj h. told.own j t ne (told.back j t (who k) ne oj h) h))
    | no nq ↦
        let same : x.local n ≡ y.local n = sym (ap (λ f. f n) e ∙ ground arith) in
        subst (λ (a : Local). Honest (who n) a y.store.mmgetter) same
          (λ j t ne oj h.
            let before = told.back j t (who n) ne oj h in
            honest n j t ne before (
              ap (holds t) (sym (done.apart j (who n) (λ q. nq (sym (distinct n k q))) before).1)
              ∙ h))
  ]
    where
      told : Told (who k) x.store.mmgetter y.store.mmgetter l
      told =
          Move-Told fuel may (who k) (x.local k) x.store y.store inv.room (inv.keep k) (own k)
            unique sl (honest k) m

      done : Notes (who k) x.store.mmgetter y.store.mmgetter l
      done =
          Move-Notes fuel may (who k) (x.local k) x.store y.store inv.room (inv.keep k) (own k) sl
            (kept.marks k) (kept.noted k) kept.roomy
            (Move-Worked fuel may (who k) (x.local k) x.store y.store (own k) m).evolves m

      at_self : l ≡ y.local k
      at_self = sym (ap (λ f. f k) e ∙ update_self x.local k l)

  pub Reach-Honest :
      {x y : System}
      → Inv who x
      → ((n : ℕ) → IsOwn (who n) x.store.mmgetter (x.local n).place)
      → Unique x.store.mmgetter
      → Slotted x.store
      → Kept who x
      → ((n : ℕ) → Honest (who n) (x.local n) x.store.mmgetter)
      → Reach fuel may who x y
      → (n : ℕ) → Honest (who n) (y.local n) y.store.mmgetter
  Reach-Honest inv own unique sl kept honest here = honest
  Reach-Honest {x} inv own unique sl kept honest (later {y} {z} r st) =
      let (ev, own') = Reach-Owned fuel may who distinct own r in
      Step-Honest y z (Reach-Inv fuel may orderly who distinct inv r) own' (ev.unique unique)
        (Reach-Slotted fuel may orderly who distinct inv own unique sl r)
        (Reach-Kept fuel may orderly who distinct inv own unique sl kept r)
        (Reach-Honest inv own unique sl kept honest r) st
