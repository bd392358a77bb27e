-- ===== src/Mutex/RoundTrip.antt =====
-- A mutex locked and unlocked by one thread, by `mymutex_lock` and `mymutex_unlock`.
use ktrpg.Base.{
  ℕ, ◌≤◌, ◌<◌, ◌≡◌, ◌≢◌, refl, ap, sym, subst, ◌∙◌, inl, inr, Bool, true, false, Option, none, some,
  List, [], ◌∷◌, map, arith, pos, length, length-set, set, shift, any, find_index,
  find_last_index_sound, find_index_sound, ◌==◌, Option-cases, Bool-cases, find_index-none,
  some-injective, ℕ_discrete, get_or-set_self,
}
use ktrpg.Mutex.Types.{Thread, Getter, Store, blank_getter, mymutex_type_max}
use ktrpg.Mutex.Deadlock.{getter_at, holds, is_dead_lock}
use ktrpg.Mutex.Deadlock.Kept.{Keeps}
use ktrpg.Mutex.Table.{
  returned, ◌>>=◌, is_of, is_free, claim, lock_getter, unlock_getter, obtain_getter,
}
use ktrpg.Mutex.Lock.{mymutex_lock, lock_inside, first_free, put}
use ktrpg.Mutex.Lock.Owners.{owner_of, type_of, slots_of, filled, pthread_mutex_lock-Takes}
use ktrpg.Mutex.Lock.Acquire.{Locked, asking}
use ktrpg.Mutex.Lock.Acquire.Call.{mymutex_lock-enter, mymutex_lock-Locked, lock_inside-obtained}
use ktrpg.Mutex.Unlock.{mymutex_unlock, clear_slot}
use ktrpg.Mutex.Unlock.Release.{Released, mymutex_unlock-Released}
use ktrpg.Mutex.Identity.{ident, Unique, obtain_getter-Unique}
use ktrpg.Mutex.Identity.Calls.{Leaves, Same, lock_held-Same, is_of-ident, Evolves-Same}
use ktrpg.Mutex.Frame.{Frame, After, mymutex_lock-Frame}

clear_none : (t : ℕ) (slots : List ℕ) → holds t slots ≡ false → map (clear_slot t) slots ≡ slots
unfolding any
clear_none t [] h = refl
clear_none t (x ∷ xs) h = ground (arith, clear_none t xs)

put-shift : (k : Option ℕ) (t x : ℕ) (xs : List ℕ) → put (shift k) t (x ∷ xs) ≡ x ∷ put k t xs
put-shift none t x xs = refl
put-shift (some k) t x xs = refl

-- Clearing the slots that hold `t` undoes the filling of a free one with `t`.
clear-filled :
    (t : ℕ) (slots : List ℕ)
    → t ≢ 0
    → holds t slots ≡ false
    → map (clear_slot t) (filled t slots) ≡ slots
unfolding any find_index
clear-filled t [] ne h = refl
clear-filled t (x ∷ xs) ne h = elim (Bool-cases (x == 0)) [
  | inl z ↦ ground (arith, clear_none t xs)
  | inr z ↦ ground (arith, put-shift (first_free xs) t x xs, clear-filled t xs)
]

-- Getter `i` is in the table and belongs to the thread.
abbrev Own : Thread → ℕ × List Getter → Type 0
Own th p = (p.0 < length p.1) × (is_of th (getter_at p.1 p.0) ≡ true)

Own-obtained :
    (th : Thread) (t i k : ℕ) (mmgs table gs : List Getter)
    → obtain_getter th t mmgs ≡ some (i, gs)
    → obtain_getter th t mmgs ≡ some (k, table)
    → Own th (k, table)
    → Own th (i, gs)
Own-obtained th t i k mmgs table gs e e' own =
    subst (Own th) (some-injective (k, table) (i, gs) (sym e' ∙ e)) own

-- The getter that a call obtains belongs to the caller.
obtained_is_of :
    (th : Thread) (t i : ℕ) (mmgs gs : List Getter)
    → obtain_getter th t mmgs ≡ some (i, gs)
    → (i < length gs) × (is_of th (getter_at gs i) ≡ true)
unfolding obtain_getter
obtained_is_of th t i mmgs gs e = elim (Option-cases (lock_getter th mmgs)) [
  | inr (k, own) ↦
      let (hk, ok) = find_last_index_sound (is_of th) mmgs blank_getter k own in
      Own-obtained th t i k mmgs mmgs gs e (rw (own, obtain_getter) refl) (hk, ok)
  | inl new ↦ elim (Option-cases (find_index is_free mmgs)) [
    | inl full ↦ ground arith
    | inr (k, free) ↦
        let (hk, ok) = find_index_sound is_free mmgs blank_getter k free in
        Own-obtained th t i k mmgs (set mmgs k (claim th t (getter_at mmgs k))) gs e
          (rw (new, obtain_getter) (rw (free, obtain_getter) refl))
          (
            rw (length-set mmgs k (claim th t (getter_at mmgs k))) hk,
            ap (is_of th) (get_or-set_self mmgs k (claim th t (getter_at mmgs k)) blank_getter hk)
                ∙ ground arith,
          )
  ]
]

-- Where a thread has one getter at most, it is the one that `mymutex_unlock` finds.
found :
    (th : Thread) (i : ℕ) (gs : List Getter)
    → Unique gs
    → i < length gs
    → is_of th (getter_at gs i) ≡ true
    → unlock_getter th gs ≡ some i
found th i gs u h own = elim (Option-cases (unlock_getter th gs)) [
  | inl n ↦ absurd (cc (own, find_index-none (is_of th) gs blank_getter i n h))
  | inr (k, e) ↦
      let (hk, ok) = find_index_sound (is_of th) gs blank_getter k e in
      e ∙ ap some (u k i th hk h ok own)
]

-- A call that returns leaves each getter of the table that it obtained with its thread.
lock-Same :
    (fuel : ℕ) (th : Thread) (t : ℕ) (comment : List ℕ) (s s' : Store) (i : ℕ) (gs : List Getter)
    → t ≢ 0
    → t < mymutex_type_max
    → mymutex_type_max ≤ length s.mmutex
    → s.g_beforelock ≡ true
    → owner_of s 0 ≡ none
    → obtain_getter th t s.mmgetter ≡ some (i, gs)
    → mymutex_lock fuel th (pos t) comment s ≡ returned s'
    → Keeps ident gs s'.mmgetter
lock-Same fuel th t comment s s' i gs ne lt room on free0 got e =
    let (s1, e1, took) = pthread_mutex_lock-Takes th 0 s free0 (omega arith) in
    subst (Leaves (Same gs))
      (sym (
          lock_inside-obtained fuel th t i comment s1 gs (ap (obtain_getter th t) took.table ∙ got))
        ∙ (ap (λ c. c >>= lock_inside fuel th t comment) (sym e1)
            ∙ (sym (mymutex_lock-enter fuel th t comment s ne lt on) ∙ e)))
      (lock_held-Same gs fuel th t i comment (record s1 { mmgetter = gs })
        (record { size = refl; same = λ j. refl }))

found_after :
    (th : Thread) (t i : ℕ) (s : Store) (gs : List Getter) (s' : Store)
    → Unique s.mmgetter
    → obtain_getter th t s.mmgetter ≡ some (i, gs)
    → Keeps ident gs s'.mmgetter
    → unlock_getter th s'.mmgetter ≡ some i
found_after th t i s gs s' unique got same =
    let own = obtained_is_of th t i s.mmgetter gs got in
    found th i s'.mmgetter
      ((Evolves-Same gs s'.mmgetter same).unique
        (obtain_getter-Unique th t i s.mmgetter gs got unique))
      (rw same.size own.0) (is_of-ident th gs s'.mmgetter i (same.same i) ∙ own.1)

module _ (th : Thread) (t i : ℕ) (gs : List Getter) (s s' s'' : Store) (l : Locked th t i gs s s')
    (r : Released t i s' s'') where
  owners_back : owner_of s 0 ≡ none → owner_of s t ≡ none → (u : ℕ) → owner_of s'' u ≡ owner_of s u
  owners_back free0 free u = elim (ℕ_discrete 0 u) [
    | yes z ↦ subst (λ v. owner_of s'' v ≡ owner_of s v) z (r.owners 0 ∙ sym free0)
    | no nz ↦ elim (ℕ_discrete t u) [
      | yes q ↦ subst (λ v. owner_of s'' v ≡ owner_of s v) q (ground (arith, r.owners t, free0))
      | no nq ↦ ground (arith, l.owners u, r.owners u)
    ]
  ]

  slots_back :
      type_of s' t ≡ type_of s t
      → type_of s t ≢ 0
      → holds (type_of s t) (slots_of gs i) ≡ false
      → (j : ℕ) → slots_of s''.mmgetter j ≡ slots_of gs j
  slots_back kept typed fresh j = elim (ℕ_discrete i j) [
    | yes q ↦
        subst (λ v. slots_of s''.mmgetter v ≡ slots_of gs v) q
          (cleared_now
            ∙ (ap (λ y. map (clear_slot y) (slots_of s'.mmgetter i)) kept
                ∙ (ap (map (clear_slot (type_of s t))) filled_then
                    ∙ clear-filled (type_of s t) (slots_of gs i) typed fresh)))
    | no nq ↦ ground (arith, l.slots j, r.slots j)
  ]
    where
      cleared_now :
          slots_of s''.mmgetter i ≡ map (clear_slot (type_of s' t)) (slots_of s'.mmgetter i)
      cleared_now = ground (arith, r.slots i)

      filled_then : slots_of s'.mmgetter i ≡ filled (type_of s t) (slots_of gs i)
      filled_then = ground (arith, l.slots i)

-- A thread that locks a mutex as in `mymutex_lock-Locked` and unlocks it again, where it has one
-- getter at most and does not hold a mutex of that type already, gets through both calls; afterwards
-- every mutex has the owner that it had, and every slot of the getters holds what it held.
pub mymutex_unlock-mymutex_lock :
    (fuel : ℕ) (th : Thread) (t : ℕ) (comment : List ℕ) (s : Store) (i : ℕ) (gs table : List Getter)
    (answer : Bool)
    → t ≢ 0
    → t < mymutex_type_max
    → mymutex_type_max ≤ length s.mmutex
    → s.g_beforelock ≡ true
    → owner_of s 0 ≡ none
    → owner_of s t ≡ none
    → obtain_getter th t s.mmgetter ≡ some (i, gs)
    → is_dead_lock fuel i (asking i t gs) ≡ some (answer, table)
    → type_of s t ≢ 0
    → Unique s.mmgetter
    → holds (type_of s t) (slots_of gs i) ≡ false
    → (s' : Store) × (s'' : Store) × (mymutex_lock fuel th (pos t) comment s ≡ returned s')
      × (mymutex_unlock th (pos t) s' ≡ returned s'')
      × ((u : ℕ) → owner_of s'' u ≡ owner_of s u)
      × ((j : ℕ) → slots_of s''.mmgetter j ≡ slots_of gs j)
mymutex_unlock-mymutex_lock fuel th t comment s i gs table answer ne lt room on free0 free got e
      typed unique fresh =
    let (s', e1, l) =
      mymutex_lock-Locked fuel th t comment s i gs table answer ne lt room on free0 free got e in
    let kept : Frame s s' =
      subst (After (Frame s)) e1 (mymutex_lock-Frame fuel th (pos t) comment s) in
    let same = lock-Same fuel th t comment s s' i gs ne lt room on free0 got e1 in
    let (s'', e2, r, gone) =
      mymutex_unlock-Released th t i s' ne lt (omega (arith, kept.size)) (kept.mode ∙ on)
        (l.owners 0) (found_after th t i s gs s' unique got same)
        (λ z. typed (sym (kept.types t) ∙ z)) in
    (
      s',
      s'',
      e1,
      e2,
      owners_back th t i gs s s' s'' l r free0 free,
      slots_back th t i gs s s' s'' l r (kept.types t) typed fresh,
    )
