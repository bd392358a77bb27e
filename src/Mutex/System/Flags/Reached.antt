-- ===== src/Mutex/System/Flags/Reached.antt =====
-- The marks of the getters in every state that the threads reach.
use ktrpg.Base.{ℕ, ◌≡◌, ap, sym, ◌∙◌, inl, inr, Bool, true, some, arith, ℕ_discrete}
use ktrpg.Mutex.Types.{Thread}
use ktrpg.Mutex.Deadlock.{getter_at}
use ktrpg.Mutex.Identity.{Unique}
use ktrpg.Mutex.Stage.Flags.{flags_at}
use ktrpg.Mutex.System.{Local, IsOrderly, System, Step, moves, Reach, here, later}
use ktrpg.Mutex.System.Invariant.{AreDistinct, Inv, Reach-Inv}
use ktrpg.Mutex.System.Progress.{update_self}
use ktrpg.Mutex.System.Getters.{IsOwn, Reach-Owned}
use ktrpg.Mutex.System.Slots.{Slotted}
use ktrpg.Mutex.System.Slots.Reached.{Reach-Slotted}
use ktrpg.Mutex.System.Flags.{asks_for, asked_at, Passes, Move-Passes}

-- A getter that is marked as waiting is so by a thread that asks for the type with it.
abbrev pub Flagged : System → Type 0
Flagged x =
    (j : ℕ)
    → (getter_at x.store.mmgetter j).is_waited ≡ true
    → (n : ℕ) × (asks_for (x.local n).place ≡ asked_at x.store.mmgetter j)

module _ (fuel : ℕ) (may : Local → ℕ → Bool) (orderly : IsOrderly may) (who : ℕ → Thread)
    (distinct : AreDistinct who) where
  Step-Flagged :
      (x y : System)
      → Inv who x
      → ((n : ℕ) → IsOwn (who n) x.store.mmgetter (x.local n).place)
      → Slotted x.store
      → Flagged x
      → Step fuel may who x y
      → Flagged y
  Step-Flagged x y inv mine sl fl (moves k l m e) j w = elim (pass j w) [
    | inl now ↦ (k, ap (λ (a : Local). asks_for a.place) at_self ∙ now)
    | inr (same, on) ↦ still same on (fl j (sym (ap (λ f. f.0) same) ∙ w))
  ]
    where
      pass : Passes (x.local k).place l.place x.store.mmgetter y.store.mmgetter
      pass =
          Move-Passes fuel may (who k) (x.local k) x.store y.store inv.room (inv.keep k) (mine k) sl
            m

      at_self : y.local k ≡ l
      at_self = ap (λ f. f k) e ∙ update_self x.local k l

      still :
          flags_at y.store.mmgetter j ≡ flags_at x.store.mmgetter j
          → (asks_for (x.local k).place ≡ asked_at x.store.mmgetter j
              → asks_for l.place ≡ asked_at x.store.mmgetter j)
          → (n : ℕ) × (asks_for (x.local n).place ≡ asked_at x.store.mmgetter j)
          → (n : ℕ) × (asks_for (y.local n).place ≡ asked_at y.store.mmgetter j)
      still same on (n, h) =
          let there : asked_at x.store.mmgetter j ≡ asked_at y.store.mmgetter j =
            ap (λ (f : Bool × ℕ). some (f.1, j)) (sym same) in
          elim (ℕ_discrete k n) [
            | yes q ↦ (
              k,
              ap (λ (a : Local). asks_for a.place) at_self
                  ∙ on (ap (λ i. asks_for (x.local i).place) q ∙ h)
                  ∙ there,
            )
            | no nq ↦
                let kept : y.local n ≡ x.local n = ap (λ f. f n) e ∙ ground arith in
                (n, ap (λ (a : Local). asks_for a.place) kept ∙ h ∙ there)
          ]

  pub Reach-Flagged :
      {x y : System}
      → Inv who x
      → ((n : ℕ) → IsOwn (who n) x.store.mmgetter (x.local n).place)
      → Unique x.store.mmgetter
      → Slotted x.store
      → Flagged x
      → Reach fuel may who x y
      → Flagged y
  Reach-Flagged inv mine unique sl fl here = fl
  Reach-Flagged {x} inv mine unique sl fl (later {y} {z} r st) =
      let (ev, mine') = Reach-Owned fuel may who distinct mine r in
      Step-Flagged y z (Reach-Inv fuel may orderly who distinct inv r) mine'
        (Reach-Slotted fuel may orderly who distinct inv mine unique sl r)
        (Reach-Flagged inv mine unique sl fl r) st
