-- ===== src/Mutex/Identity/Full.antt =====
-- The table of getters fills up for good: `mymutex_getter_unlock` never frees a getter, since the test
-- that would let it is `if (MYMUTEX_NO)`.
use ktrpg.Base.{
  ℕ, ◌<◌, ◌≡◌, ◌≢◌, ap, ◌∙◌, inl, inr, true, none, List, [], ◌∷◌, ◌++◌, arith, Option-cases, length,
  find_index_sound, find_last_index_sound, find_index, ℤ, pos,
}
use ktrpg.Mutex.Types.{Thread, Getter, Store, blank_getter, mymutex_type_max, no_getter}
use ktrpg.Mutex.Deadlock.{getter_at}
use ktrpg.Mutex.Table.{
  Call, returned, ◌>>=◌, pthread_mutex_lock, pthread_mutex_unlock, add_note, obtain_getter,
  lock_getter, is_of, is_free,
}
use ktrpg.Mutex.Lock.{mymutex_lock, lock_inside}
use ktrpg.Mutex.Lock.Owners.{owner_of, owner_of-unlock, lock_then}
use ktrpg.Mutex.Lock.Acquire.Call.{mymutex_lock-enter, lock_inside-none}
use ktrpg.Mutex.Unlock.{mymutex_unlock}
use ktrpg.Mutex.Identity.Calls.{
  Leaves, Leaves-bind, Leaves-weaken, Evolves, Evolves-refl, Evolves-trans,
}
use ktrpg.Mutex.Identity.Calls.Whole.{mymutex_lock-Evolves, mymutex_unlock-Evolves}

pub data Request : Type 0 where
  lock : Thread → ℤ → List ℕ → Request
  unlock : Thread → ℤ → Request

-- One call, and calls one after another, as long as they return.
unfoldable pub answer : ℕ → Request → Store → Call
answer fuel (lock th t comment) s = mymutex_lock fuel th t comment s
answer fuel (unlock th t) s = mymutex_unlock th t s

unfoldable pub answer_all : ℕ → List Request → Store → Call
answer_all fuel [] s = returned s
answer_all fuel (r ∷ rs) s = answer fuel r s >>= answer_all fuel rs

answer-Evolves :
    (fuel : ℕ) (r : Request) (s : Store) → Leaves (Evolves s.mmgetter) (answer fuel r s)
unfolding answer
answer-Evolves fuel (lock th t comment) s = mymutex_lock-Evolves fuel th t comment s
answer-Evolves fuel (unlock th t) s = mymutex_unlock-Evolves th t s

-- Calls of any threads, one after another, keep every getter in use with its thread, and keep each
-- thread at one getter.
pub answer_all-Evolves :
    (fuel : ℕ) (rs : List Request) (s : Store) → Leaves (Evolves s.mmgetter) (answer_all fuel rs s)
unfolding answer_all
answer_all-Evolves fuel [] s = Evolves-refl s.mmgetter
answer_all-Evolves fuel (r ∷ rs) s =
    Leaves-bind (Evolves s.mmgetter) _ _ (answer-Evolves fuel r s) λ s1 h.
      Leaves-weaken (Evolves s1.mmgetter) (Evolves s.mmgetter) _
        (λ gs k. Evolves-trans s.mmgetter s1.mmgetter gs h k) (answer_all-Evolves fuel rs s1)

-- Every getter is in use by a thread other than `th`.
abbrev pub TakenFrom : Thread → List Getter → Type 0
TakenFrom th gs =
    (j : ℕ) → j < length gs → (th' : Thread) × (th' ≢ th) × (is_of th' (getter_at gs j) ≡ true)

TakenFrom-Evolves :
    (th : Thread) (gs gs' : List Getter) → TakenFrom th gs → Evolves gs gs' → TakenFrom th gs'
TakenFrom-Evolves th gs gs' full ev j h =
    let (th', ne, own) = full j (rw (← ev.size) h) in (th', ne, ev.stays j th' own)

is_of_unique : (th th' : Thread) (g : Getter) → is_of th g ≡ true → is_of th' g ≡ true → th' ≡ th
is_of_unique th th' g p q = ground arith

pub obtain_getter-TakenFrom :
    (th : Thread) (t : ℕ) (gs : List Getter) → TakenFrom th gs → obtain_getter th t gs ≡ none
unfolding obtain_getter
obtain_getter-TakenFrom th t gs full = elim (Option-cases (lock_getter th gs)) [
  | inr (k, e) ↦
      let (h, own) = find_last_index_sound (is_of th) gs blank_getter k e in
      let (th', ne, own') = full k h in absurd (ne (is_of_unique th th' (getter_at gs k) own own'))
  | inl e ↦ elim (Option-cases (find_index is_free gs)) [
    | inl n ↦ ground arith
    | inr (k, f) ↦
        let (h, free) = find_index_sound is_free gs blank_getter k f in
        let (th', ne, own') = full k h in ground arith
  ]
]

-- Once every getter is in use by other threads, a thread never locks a mutex again: whatever calls
-- come between and return, its `mymutex_lock` then returns with the owners of all mutexes as they
-- were, and logs that no getter is left.
pub full_for_good :
    (fuel : ℕ) (rs : List Request) (s s1 : Store) (th : Thread) (t : ℕ) (comment : List ℕ)
    → TakenFrom th s.mmgetter
    → answer_all fuel rs s ≡ returned s1
    → t ≢ 0
    → t < mymutex_type_max
    → s1.g_beforelock ≡ true
    → owner_of s1 0 ≡ none
    → 0 < length s1.mmutex
    → (s2 : Store) × (mymutex_lock fuel th (pos t) comment s1 ≡ returned s2)
      × ((u : ℕ) → owner_of s2 u ≡ owner_of s1 u)
      × (s2.notes ≡ s1.notes ++ (no_getter th ∷ []))
full_for_good fuel rs s s1 th t comment full e ne lt on free mutexes =
    let (s2, e2, (owners, notes)) = refused in
    (s2, mymutex_lock-enter fuel th t comment s1 ne lt on ∙ e2, owners, notes)
  where
    evolved : Evolves s.mmgetter s1.mmgetter
    evolved = rw e at (answer_all-Evolves fuel rs s)

    none_left : obtain_getter th t s1.mmgetter ≡ none
    none_left =
        obtain_getter-TakenFrom th t s1.mmgetter
          (TakenFrom-Evolves th s.mmgetter s1.mmgetter full evolved)

    Refused : Store → Type 0
    Refused s2 =
        ((u : ℕ) → owner_of s2 u ≡ owner_of s1 u) × (s2.notes ≡ s1.notes ++ (no_getter th ∷ []))

    refused :
        (s2 : Store) × ((pthread_mutex_lock th 0 s1 >>= lock_inside fuel th t comment)
          ≡ returned s2)
        × Refused s2
    refused = lock_then th 0 s1 (lock_inside fuel th t comment) Refused free mutexes λ s0 took. (
      pthread_mutex_unlock 0 (add_note (no_getter th) s0),
      lock_inside-none fuel th t comment s0 (ap (obtain_getter th t) took.table ∙ none_left),
      (
        λ u. ground (
          arith,
          owner_of-unlock (add_note (no_getter th) s0) 0 u (rw took.size mutexes),
          took.owners u,
        ),
        ap (λ ns. ns ++ (no_getter th ∷ [])) took.notes,
      ),
    )
