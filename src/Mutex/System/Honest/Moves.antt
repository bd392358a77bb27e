-- ===== src/Mutex/System/Honest/Moves.antt =====
-- The slots after each step of a thread, against what it has got.
use ktrpg.Base.{
  ℕ, ◌≤◌, ◌≡◌, ◌⊎◌, refl, ap, sym, subst, ◌∙◌, inl, inr, Bool, true, List, length, arith,
  ℕ_discrete,
}
use ktrpg.Mutex.Types.{Thread, Store, mymutex_type_max, mymutex_type_beforelock}
use ktrpg.Mutex.Deadlock.{getter_at, holds}
use ktrpg.Mutex.Table.{returned, is_of, pthread_mutex_lock}
use ktrpg.Mutex.Identity.{Unique}
use ktrpg.Mutex.Identity.Calls.{Leaves, Leaves-pthread}
use ktrpg.Mutex.Lock.Owners.{slots_of}
use ktrpg.Mutex.Stage.{Began, waits, begin_lock}
use ktrpg.Mutex.Stage.Asked.{BeginsAsking, begin_lock-BeginsAsking}
use ktrpg.Mutex.Stage.Slots.{BeginsSlots, begin_lock-Slots}
use ktrpg.Mutex.System.{
  inside_lock, wants, Local, at, Move, call_lock, enter_lock, give_up, hang, begin, take, return_to,
  end, call_unlock, enter_unlock, leave,
}
use ktrpg.Mutex.System.Owned.{Keeps}
use ktrpg.Mutex.System.Getters.{IsOwn}
use ktrpg.Mutex.System.Slots.{Slotted, is_of-kept}
use ktrpg.Mutex.System.Honest.{unlocking, Honest, Told}
use ktrpg.Mutex.System.Honest.Ends.{at_place, got, ends, leaves}

module _ (fuel : ℕ) (may : Local → ℕ → Bool) (th : Thread) (l : Local) (s s' : Store)
    (room : mymutex_type_max ≤ length s.mmutex) (k : Keeps th l s)
    (mine : IsOwn th s.mmgetter l.place) (unique : Unique s.mmgetter) (sl : Slotted s)
    (honest : Honest th l s.mmgetter) where
  same :
      (m l' : Local)
      → s'.mmgetter ≡ s.mmgetter
      → Honest th m s.mmgetter
      → l' ≡ m
      → Told th s.mmgetter s'.mmgetter l'
  same m l' table told e = record {
    back = λ j t o ne oj h. subst (λ gs. is_of o (getter_at gs j) ≡ true) table oj;
    own = λ j t ne oj h.
        subst (λ (a : Local). (a.has t ≡ true) ⊎ (unlocking t a.place ≡ true)) (sym e)
          (told j t ne oj (subst (λ gs. holds t (slots_of gs j) ≡ true) table h));
  }

  locked : (t : ℕ) → pthread_mutex_lock th t s ≡ returned s' → s'.mmgetter ≡ s.mmgetter
  locked t e =
      subst (Leaves (λ gs. gs ≡ s.mmgetter)) e (Leaves-pthread (λ gs. gs ≡ s.mmgetter) th t s refl)

  began :
      (t : ℕ) (comment : List ℕ) {b : Began}
      → l.place ≡ inside_lock t comment
      → begin_lock fuel th t s ≡ b
      → BeginsAsking th t s b × BeginsSlots s.mmgetter b
  began t comment q e =
      let ok = (at_place fuel may th l s s' room k mine unique sl honest q).0 in
      subst (λ b. BeginsAsking th t s b × BeginsSlots s.mmgetter b) e
        (begin_lock-BeginsAsking fuel th t s (sl.types t ok.0 ok.1), begin_lock-Slots fuel th t s)

  begins :
      (t i : ℕ) (b : Bool) (c : List ℕ) (l' : Local)
      → l.place ≡ inside_lock t c
      → begin_lock fuel th t s ≡ waits i b s'
      → l' ≡ at (wants t i b c) l
      → Told th s.mmgetter s'.mmgetter l'
  begins t i b c l' q e e' =
      let claims = (began t c q e).1 in
      record {
        back = λ j u o ne oj h. elim (claims j).1 [
          | inl still ↦
              sym (is_of-kept o (getter_at s'.mmgetter j) (getter_at s.mmgetter j) still) ∙ oj
          | inr (free, used) ↦ absurd (cc (sl.spare j u ne free, ap (holds u) (claims j).0, h))
        ];
        own = λ j u ne oj h. inl (
            ap (λ (a : Local). a.has u) e'
            ∙ got fuel may th l s s' room k mine unique sl honest q (λ v. refl) j u ne oj
                (ap (holds u) (sym (claims j).0) ∙ h));
      }

  pub Move-Told : {l' : Local} → Move fuel may th l s l' s' → Told th s.mmgetter s'.mmgetter l'
  Move-Told (call_lock t c q ok e e') =
      same _ _ (ap (λ (x : Store). x.mmgetter) e')
        (λ j u ne oj h.
          inl (got fuel may th l s s' room k mine unique sl honest q (λ v. refl) j u ne oj h))
        e
  Move-Told (enter_lock t c q e e') =
      same _ _ (locked mymutex_type_beforelock e)
        (λ j u ne oj h.
          inl (got fuel may th l s s' room k mine unique sl honest q (λ v. refl) j u ne oj h))
        e'
  Move-Told (give_up t c q e e') =
      same _ _ (began t c q e).0
        (λ j u ne oj h.
          inl (got fuel may th l s s' room k mine unique sl honest q (λ v. refl) j u ne oj h))
        e'
  Move-Told (hang t c q e e' e'') =
      same _ _ (ap (λ (x : Store). x.mmgetter) e'')
        (λ j u ne oj h.
          inl (got fuel may th l s s' room k mine unique sl honest q (λ v. refl) j u ne oj h))
        e'
  Move-Told (begin t i b c q e e') = begins t i b c _ q e e'
  Move-Told (take t i b c q e e') =
      same _ _ (locked t e)
        (λ j u ne oj h.
          inl (got fuel may th l s s' room k mine unique sl honest q (λ v. refl) j u ne oj h))
        e'
  Move-Told (return_to t i b c q e e') =
      same _ _ (locked mymutex_type_beforelock e)
        (λ j u ne oj h.
          inl (got fuel may th l s s' room k mine unique sl honest q (λ v. refl) j u ne oj h))
        e'
  Move-Told (end t i b c q e e') =
      ends fuel may th l s s' room k mine unique sl honest t i b c _ q e e'
  Move-Told (call_unlock t q ok h e e') =
      same _ _ (ap (λ (x : Store). x.mmgetter) e')
        (λ j u ne oj h'. elim (ℕ_discrete u t) [
          | yes r ↦ inr (ground (arith, r))
          | no nr ↦ inl (
              ground (
                arith,
                nr,
                got fuel may th l s s' room k mine unique sl honest q (λ v. refl) j u ne oj h',
              ))
        ])
        e
  Move-Told (enter_unlock t q e e') =
      same _ _ (locked mymutex_type_beforelock e)
        (λ j u ne oj h.
          subst (λ p. (l.has u ≡ true) ⊎ (unlocking u p ≡ true)) q (honest j u ne oj h))
        e'
  Move-Told (leave t q e e') = leaves fuel may th l s s' room k mine unique sl honest t _ q e e'
