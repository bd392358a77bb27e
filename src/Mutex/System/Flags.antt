-- ===== src/Mutex/System/Flags.antt =====
-- The marks of the getters of common/mymutex.c that a thread waits, step by step.
pub mod Reached
use ktrpg.Base.{
  ℕ, ◌<◌, ◌≤◌, ◌≡◌, ◌≢◌, ◌⊎◌, refl, ap, sym, subst, ◌∙◌, inl, inr, Bool, true, false, Option, none,
  some, List, length, arith, ◌==◌, if◌then◌else◌, ℕ_discrete, get_or-set_self, get_or-set_ne,
  some-injective, get_or-set_keeps,
}
use ktrpg.Mutex.Types.{
  Thread, Getter, Store, blank_getter, mymutex_type_max, mymutex_type_beforelock,
}
use ktrpg.Mutex.Deadlock.{getter_at}
use ktrpg.Mutex.Table.{returned, is_of, pthread_mutex_lock}
use ktrpg.Mutex.Identity.{Unique}
use ktrpg.Mutex.Identity.Calls.{Leaves, Leaves-pthread}
use ktrpg.Mutex.Lock.Owners.{type_of}
use ktrpg.Mutex.Lock.Acquire.{asking}
use ktrpg.Mutex.Unlock.{cleared}
use ktrpg.Mutex.Stage.{Began, waits, begin_lock, end_lock}
use ktrpg.Mutex.Stage.Getters.{obtain_getter-own}
use ktrpg.Mutex.Stage.Owners.{returned-injective}
use ktrpg.Mutex.Stage.Flags.{flags, flags_at, begun-flags, end_lock-flags}
use ktrpg.Mutex.Stage.Asked.{BeginsAsking, begin_lock-BeginsAsking}
use ktrpg.Mutex.Stage.Slots.Ends.{unlock-Slots}
use ktrpg.Mutex.System.{
  Place, inside_lock, wants, owns, settles, Local, IsOrderly, Move, call_lock, enter_lock, give_up,
  hang, begin, take, return_to, end, call_unlock, enter_unlock, leave, System, Step, moves, Reach,
  here, later,
}
use ktrpg.Mutex.System.Owned.{Owns, Keeps}
use ktrpg.Mutex.System.Invariant.{AreDistinct, Inv, Starts, Starts-Inv, Reach-Inv}
use ktrpg.Mutex.System.Progress.{update_self}
use ktrpg.Mutex.System.Getters.{IsOwn, works_on, Reach-Owned}
use ktrpg.Mutex.System.Slots.{Slotted}

-- The type that a call asks for, and its getter, from where it sets the flags to where it clears them.
abbrev pub asks_for : Place → Option (ℕ × ℕ)
asks_for (wants t i b comment) = some (t, i)
asks_for (owns t i b comment) = some (t, i)
asks_for (settles t i b comment) = some (t, i)
asks_for _ = none

abbrev pub asked_at : List Getter → ℕ → Option (ℕ × ℕ)
asked_at gs j = some ((getter_at gs j).wait_mutex_type, j)

-- A thread that goes from place `p` to `p'`: a getter is marked by it, or as before, and the thread has
-- not left where it asks for that getter's type.
abbrev pub Passes : Place → Place → List Getter → List Getter → Type 0
Passes p p' gs gs' =
    (j : ℕ)
    → (getter_at gs' j).is_waited ≡ true
    → (asks_for p' ≡ asked_at gs' j)
      ⊎ ((flags_at gs' j ≡ flags_at gs j)
          × (asks_for p ≡ asked_at gs j → asks_for p' ≡ asked_at gs j))

module _ (fuel : ℕ) (may : Local → ℕ → Bool) (th : Thread) (l : Local) (s s' : Store)
    (room : mymutex_type_max ≤ length s.mmutex) (k : Keeps th l s)
    (mine : IsOwn th s.mmgetter l.place) (sl : Slotted s) where
  at_place : {p : Place} → l.place ≡ p → Owns th l.has p s
  at_place e = subst (λ p. Owns th l.has p s) e k.place

  -- The table stays, and the thread asks for nothing before or goes on to ask.
  passes :
      {l' : Local} (m : Local)
      → l' ≡ m
      → ((j : ℕ) → flags_at s'.mmgetter j ≡ flags_at s.mmgetter j)
      → ((a : ℕ × ℕ) → asks_for l.place ≡ some a → asks_for m.place ≡ some a)
      → Passes l.place l'.place s.mmgetter s'.mmgetter
  passes m e same on j w = inr (same j, λ q. ap (λ (x : Local). asks_for x.place) e ∙ on _ q)

  silent :
      {p : Place} {b : Option (ℕ × ℕ)}
      → l.place ≡ p
      → asks_for p ≡ none
      → (a : ℕ × ℕ) → asks_for l.place ≡ some a
      → b ≡ some a
  silent q nothing a e = absurd (cc (nothing, e, ap asks_for q))

  still : s' ≡ s → (j : ℕ) → flags_at s'.mmgetter j ≡ flags_at s.mmgetter j
  still e j = ap (λ (x : Store). flags_at x.mmgetter j) e

  locked :
      (t : ℕ)
      → pthread_mutex_lock th t s ≡ returned s'
      → (j : ℕ) → flags_at s'.mmgetter j ≡ flags_at s.mmgetter j
  locked t e j =
      ap (λ gs. flags_at gs j)
        (subst (Leaves (λ gs. gs ≡ s.mmgetter)) e
          (Leaves-pthread (λ gs. gs ≡ s.mmgetter) th t s refl))

  began :
      (t : ℕ) (comment : List ℕ) {b : Began}
      → l.place ≡ inside_lock t comment
      → begin_lock fuel th t s ≡ b
      → BeginsAsking th t s b
  began t comment q e =
      let ok = (at_place q).0 in
      subst (BeginsAsking th t s) e (begin_lock-BeginsAsking fuel th t s (sl.types t ok.0 ok.1))

  begins :
      (t i : ℕ) (b : Bool) (c : List ℕ) (p' : Place)
      → l.place ≡ inside_lock t c
      → begin_lock fuel th t s ≡ waits i b s'
      → p' ≡ wants t i b c
      → Passes l.place p' s.mmgetter s'.mmgetter
  begins t i b c p' q e e' j w =
      let (gs, found, k') = began t c q e in
      let (now, others) = begun-flags th t i s.mmgetter gs s'.mmgetter found k' in
      elim (ℕ_discrete i j) [
        | yes r ↦ inl (
            ap asks_for e'
            ∙ ap (λ (f : Bool × ℕ). some (f.1, i)) (sym now)
            ∙ ap (asked_at s'.mmgetter) r)
        | no nr ↦ inr (others j nr, silent q refl _)
      ]

  ends :
      (t i : ℕ) (b : Bool) (c : List ℕ) (p' : Place)
      → l.place ≡ settles t i b c
      → s' ≡ end_lock th t i b c s
      → Passes l.place p' s.mmgetter s'.mmgetter
  ends t i b c p' q e j w =
      let fl =
        ap (λ (x : Store). flags_at x.mmgetter j) e
        ∙ end_lock-flags th t i b c s j (mine i (ap works_on q)).0 in
      elim (ℕ_discrete i j) [
        | yes r ↦
            let now : flags_at s'.mmgetter j ≡ (false, 0) = fl ∙ ground (arith, r) in
            absurd (cc (w, ap (λ (f : Bool × ℕ). f.0) now))
        | no nr ↦ inr (fl ∙ ground (arith, nr), λ h. absurd (nr (cc (ap asks_for q, h))))
      ]

  pub Move-Passes :
      {l' : Local} → Move fuel may th l s l' s' → Passes l.place l'.place s.mmgetter s'.mmgetter
  Move-Passes (call_lock t c q ok e e') = passes _ e (still e') (silent q refl)
  Move-Passes (enter_lock t c q e e') =
      passes _ e' (locked mymutex_type_beforelock e) (silent q refl)
  Move-Passes (give_up t c q e e') =
      passes _ e' (λ j. ap (λ gs. flags_at gs j) (began t c q e)) (silent q refl)
  Move-Passes (hang t c q e e' e'') = passes _ e' (still e'') (silent q refl)
  Move-Passes (begin t i b c q e e') = begins t i b c _ q e (ap (λ (x : Local). x.place) e')
  Move-Passes (take t i b c q e e') = passes _ e' (locked t e) (λ a h. sym (ap asks_for q) ∙ h)
  Move-Passes (return_to t i b c q e e') =
      passes _ e' (locked mymutex_type_beforelock e) (λ a h. sym (ap asks_for q) ∙ h)
  Move-Passes (end t i b c q e e') = ends t i b c _ q e
  Move-Passes (call_unlock t q ok h e e') = passes _ e (still e') (silent q refl)
  Move-Passes (enter_unlock t q e e') =
      passes _ e' (locked mymutex_type_beforelock e) (silent q refl)
  Move-Passes (leave t q e e') =
      let ok = (at_place q).0 in
      let (s1, e1, types, how) = unlock-Slots th t s (omega arith) (omega (arith, room, ok.1)) in
      let same : (j : ℕ) → flags_at s1.mmgetter j ≡ flags_at s.mmgetter j = λ j. elim how [
        | inl (owners, table) ↦ ap (λ gs. flags_at gs j) table
        | inr (i, lt, own, owners, table) ↦
            ap (λ gs. flags_at gs j) table
            ∙ get_or-set_keeps flags s.mmgetter i j _ blank_getter refl
      ] in
      passes _ e'
        (λ j. ap (λ (x : Store). flags_at x.mmgetter j) (returned-injective (sym e ∙ e1)) ∙ same j)
        (silent q refl)
