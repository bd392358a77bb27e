-- ===== src/Mutex/Lock/Acquire/Call.antt =====
-- A whole call of `mymutex_lock` that finds the mutexes free.
use ktrpg.Base.{
  ℕ, ◌≤◌, ◌<◌, ◌≡◌, ◌≢◌, ap, ◌∙◌, inl, inr, Bool, true, none, some, List, arith, pos, length,
  length-set, get_or, find_index, find_index_sound, find_last_index_sound, Option-cases,
}
use ktrpg.Mutex.Types.{
  Thread, Getter, Store, blank_getter, mymutex_type_beforelock, mymutex_type_max, no_getter,
}
use ktrpg.Mutex.Deadlock.{getter_at, is_dead_lock}
use ktrpg.Mutex.Table.{
  returned, ◌>>=◌, add_note, blank_mutex, pthread_mutex_lock, pthread_mutex_unlock, obtain_getter,
  lock_getter, is_of, is_free, claim,
}
use ktrpg.Mutex.Lock.{note_order, lock_held, lock_inside, mymutex_lock}
use ktrpg.Mutex.Lock.Owners.{owner_of, type_of, scan_others_yes, Takes, lock_then}
use ktrpg.Mutex.Lock.Acquire.{Locked, asking, note_order-same, lock_searched-Locked}

-- The same, said of a state that agrees with `s` but for BEFORELOCK and the table.
Locked-from :
    (th : Thread) (t i : ℕ) (gs : List Getter) (s s1 s' : Store)
    → s1.mmgetter ≡ gs
    → type_of s1 t ≡ type_of s t
    → ((u : ℕ) → u ≢ 0 → owner_of s1 u ≡ owner_of s u)
    → Locked th t i s1.mmgetter s1 s'
    → Locked th t i gs s s'
Locked-from th t i gs s s1 s' e typed owners l = record {
  owners = λ u. ground (arith, l.owners u, owners u);
  slots = λ j. l.slots j ∙ rw (typed, e);
}

obtained_in_range :
    (th : Thread) (t i : ℕ) (mmgs gs : List Getter)
    → obtain_getter th t mmgs ≡ some (i, gs)
    → i < length gs
unfolding obtain_getter
obtained_in_range th t i mmgs gs e = elim (Option-cases (lock_getter th mmgs)) [
  | inr (k, own) ↦ ground (arith, find_last_index_sound (is_of th) mmgs blank_getter k own)
  | inl new ↦ elim (Option-cases (find_index is_free mmgs)) [
    | inl full ↦ ground arith
    | inr (k, free) ↦ ground (
      arith,
      find_index_sound is_free mmgs blank_getter k free,
      length-set mmgs k (claim th t (getter_at mmgs k)),
    )
  ]
]

-- A call with a type that has a mutex locks BEFORELOCK first.
pub mymutex_lock-enter :
    (fuel : ℕ) (th : Thread) (t : ℕ) (comment : List ℕ) (s : Store)
    → t ≢ 0
    → t < mymutex_type_max
    → s.g_beforelock ≡ true
    → mymutex_lock fuel th (pos t) comment s
      ≡ (pthread_mutex_lock th 0 s >>= lock_inside fuel th t comment)
unfolding mymutex_lock
mymutex_lock-enter fuel th t comment s ne lt on = ground arith

-- Inside, the branch for a mutex that nobody holds is never taken.
pub lock_inside-obtained :
    (fuel : ℕ) (th : Thread) (t i : ℕ) (comment : List ℕ) (s : Store) (gs : List Getter)
    → obtain_getter th t s.mmgetter ≡ some (i, gs)
    → lock_inside fuel th t comment s ≡ lock_held fuel th t i comment (record s { mmgetter = gs })
unfolding lock_inside
lock_inside-obtained fuel th t i comment s gs got = ground (arith, scan_others_yes t i 0 gs)

-- Without a getter the call returns at once.
pub lock_inside-none :
    (fuel : ℕ) (th : Thread) (t : ℕ) (comment : List ℕ) (s : Store)
    → obtain_getter th t s.mmgetter ≡ none
    → lock_inside fuel th t comment s
      ≡ returned (pthread_mutex_unlock mymutex_type_beforelock (add_note (no_getter th) s))
unfolding lock_inside
lock_inside-none fuel th t comment s e = rw (e, lock_inside)

-- The same from where the call owns BEFORELOCK.
lock_inside-Locked :
    (fuel : ℕ) (th : Thread) (t : ℕ) (comment : List ℕ) (s s1 : Store) (i : ℕ)
    (gs table : List Getter) (answer : Bool)
    → t ≢ 0
    → t < length s.mmutex
    → owner_of s t ≡ none
    → obtain_getter th t s.mmgetter ≡ some (i, gs)
    → is_dead_lock fuel i (asking i t gs) ≡ some (answer, table)
    → Takes th 0 s s1
    → (s' : Store) × (lock_inside fuel th t comment s1 ≡ returned s') × Locked th t i gs s s'
unfolding lock_held
lock_inside-Locked fuel th t comment s s1 i gs table answer ne lt free got e took =
    let (s', e', l) =
      lock_searched-Locked fuel th t i comment ordered answer table (owners t ne ∙ free) ne
        (rw (ap length same.0 ∙ took.size) lt)
        (rw same.1 (obtained_in_range th t i s.mmgetter gs got))
        (ap (λ x. is_dead_lock fuel i (asking i t x)) same.1 ∙ e) in
    (
      s',
      lock_inside-obtained fuel th t i comment s1 gs (ap (obtain_getter th t) took.table ∙ got)
          ∙ e',
      Locked-from th t i gs s ordered s' same.1
          (ap (λ ms. (get_or ms t blank_mutex).mutex_type) same.0 ∙ took.types t) owners l,
    )
  where
    ordered : Store
    ordered = note_order th i (record s1 { mmgetter = gs })

    same : (ordered.mmutex ≡ s1.mmutex) × (ordered.mmgetter ≡ gs)
    same = note_order-same th i (record s1 { mmgetter = gs })

    owners : (u : ℕ) → u ≢ 0 → owner_of ordered u ≡ owner_of s u
    owners u h = ap (λ ms. (get_or ms u blank_mutex).owner) same.0 ∙ ground (arith, took.owners u)

-- A call whose getter is found or claimed, and that finds BEFORELOCK and the mutex free, returns with
-- the mutex, whatever the order check says of the getter, if the search for a deadlock ends.
pub mymutex_lock-Locked :
    (fuel : ℕ) (th : Thread) (t : ℕ) (comment : List ℕ) (s : Store) (i : ℕ) (gs table : List Getter)
    (answer : Bool)
    → t ≢ 0
    → t < mymutex_type_max
    → mymutex_type_max ≤ length s.mmutex
    → s.g_beforelock ≡ true
    → owner_of s 0 ≡ none
    → owner_of s t ≡ none
    → obtain_getter th t s.mmgetter ≡ some (i, gs)
    → is_dead_lock fuel i (asking i t gs) ≡ some (answer, table)
    → (s' : Store) × (mymutex_lock fuel th (pos t) comment s ≡ returned s') × Locked th t i gs s s'
mymutex_lock-Locked fuel th t comment s i gs table answer ne lt mutexes on free0 free got e =
    let (s', e', l) =
      lock_then th 0 s (lock_inside fuel th t comment) (Locked th t i gs s) free0 (omega arith)
        (λ s1 took.
          lock_inside-Locked fuel th t comment s s1 i gs table answer ne (omega arith) free got e
            took) in
    (s', mymutex_lock-enter fuel th t comment s ne lt on ∙ e', l)
