-- ===== src/Mutex/Stage/Getters.antt =====
-- What the stages of the calls do to the table of getters, and whose getter a call works on.
use ktrpg.Base.{
  ℕ, ◌<◌, ◌≡◌, refl, sym, subst, ◌∙◌, inl, inr, Bool, true, false, some, List, length,
  if◌then◌else◌, arith, Option-cases, find_index, find_index_sound, get_or-set,
  find_last_index_sound,
}
use ktrpg.Mutex.Types.{
  Thread, Getter, Store, blank_getter, mymutex_type_beforelock, lock_order, dead_lock,
}
use ktrpg.Mutex.Deadlock.{getter_at, is_dead_lock}
use ktrpg.Mutex.Deadlock.Kept.{Keeps, is_dead_lock-Keeps}
use ktrpg.Mutex.Table.{
  add_note, is_of, is_free, claim, lock_getter, obtain_getter, pthread_mutex_unlock,
}
use ktrpg.Mutex.Lock.{granted, set_wait, scan_others, order_ok, note_order}
use ktrpg.Mutex.Lock.Acquire.{note_order-same}
use ktrpg.Mutex.Identity.{ident, length-obtain_getter, obtain_getter-Stays, obtain_getter-Unique}
use ktrpg.Mutex.Identity.Calls.{Same, Same-set, Evolves, Evolves-Same, Evolves-trans, Evolves-refl}
use ktrpg.Mutex.Stage.{
  Began, refused, spins, waits, release_to_wait, begin_searched, begin_lock, end_lock,
}

-- The getter that a call finds or claims is its thread's.
pub obtain_getter-own :
    (th : Thread) (t i : ℕ) (mmgs gs : List Getter)
    → obtain_getter th t mmgs ≡ some (i, gs)
    → (i < length gs) × (is_of th (getter_at gs i) ≡ true)
unfolding obtain_getter
obtain_getter-own th t i mmgs gs e = elim (Option-cases (lock_getter th mmgs)) [
  | inr (k, found) ↦ ground (arith, find_last_index_sound (is_of th) mmgs blank_getter k found)
  | inl new ↦ elim (Option-cases (find_index is_free mmgs)) [
    | inl full ↦ ground arith
    | inr (k, free) ↦ ground (
      arith,
      length-obtain_getter th t i mmgs gs e,
      find_index_sound is_free mmgs blank_getter k free,
      get_or-set mmgs k k (claim th t (getter_at mmgs k)) blank_getter,
    )
  ]
]

-- The table that the first stage leaves, and its getter where it waits.
abbrev pub BeginsOn : Thread → List Getter → Began → Type 0
BeginsOn th gs (refused s) = Evolves gs s.mmgetter
BeginsOn th gs spins = Unit {0}
BeginsOn th gs (waits i b s) =
    Evolves gs s.mmgetter × (i < length s.mmgetter) × (is_of th (getter_at s.mmgetter i) ≡ true)

-- What keeps the threads of the getters, keeps an own getter.
waits-Same :
    (th : Thread) (gs base : List Getter) (i : ℕ) (b : Bool) (s : Store)
    → Evolves gs base
    → (i < length base) × (is_of th (getter_at base i) ≡ true)
    → Same base s.mmgetter
    → BeginsOn th gs (waits i b s)
waits-Same th gs base i b s ev (lt, mine) k =
    let ev' = Evolves-Same base s.mmgetter k in
    (Evolves-trans gs base s.mmgetter ev ev', rw ev'.size lt, ev'.stays i th mine)

module _ (base : List Getter) where
  set_wait-Same : (i t : ℕ) (s : Store) → Same base s.mmgetter → Same base (set_wait i t s).mmgetter
  set_wait-Same i t s h = Same-set base s.mmgetter i _ h refl

  note-Same :
      (th : Thread) (i : ℕ) (s : Store)
      → Same base s.mmgetter
      → Same base (note_order th i s).mmgetter
  note-Same th i s h = subst (Same base) (sym (note_order-same th i s).1) h

  pub granted-Same :
      (t i : ℕ) (comment : List ℕ) (s : Store)
      → Same base s.mmgetter
      → Same base (granted t i comment s).mmgetter
  unfolding granted
  granted-Same t i comment s h = Same-set base s.mmgetter i _ h refl

  begin_searched-BeginsOn :
      (fuel : ℕ) (th : Thread) (t i : ℕ) (gs : List Getter) (s : Store)
      → Evolves gs base
      → (i < length base) × (is_of th (getter_at base i) ≡ true)
      → Same base s.mmgetter
      → BeginsOn th gs (begin_searched fuel th t i s)
  unfolding begin_searched
  begin_searched-BeginsOn fuel th t i gs s ev mine h =
      elim (Option-cases (is_dead_lock fuel i (set_wait i t s).mmgetter)) [
        | inl e ↦ rw (e, begin_searched) tt
        | inr ((answer, table), e) ↦
            rw (e, begin_searched)
              (found answer table (
                is_dead_lock-Keeps ident (λ b g. refl) fuel i (set_wait i t s).mmgetter table answer
                  e))
      ]
    where
      asked : Same base (set_wait i t s).mmgetter
      asked = set_wait-Same i t s h

      after : {table : List Getter} → Keeps ident (set_wait i t s).mmgetter table → Same base table
      after k = record { size = k.size ∙ asked.size; same = λ j. k.same j ∙ asked.same j }

      waited :
          (x : Store) → Same base x.mmgetter → BeginsOn th gs (waits i true (release_to_wait i t x))
      waited x k =
          waits-Same th gs base i true (release_to_wait i t x) ev mine (set_wait-Same i _ x k)

      found :
          (answer : Bool) (table : List Getter)
          → Keeps ident (set_wait i t s).mmgetter table
          → BeginsOn th gs (
              waits i true (
                release_to_wait i t (
                  if answer
                  then add_note (dead_lock th) (record (set_wait i t s) { mmgetter = table })
                  else record (set_wait i t s) { mmgetter = table })))
      found true table k =
          waited (add_note (dead_lock th) (record (set_wait i t s) { mmgetter = table })) (after k)
      found false table k = waited (record (set_wait i t s) { mmgetter = table }) (after k)

pub begin_lock-BeginsOn :
    (fuel : ℕ) (th : Thread) (t : ℕ) (s : Store) → BeginsOn th s.mmgetter (begin_lock fuel th t s)
unfolding begin_lock
begin_lock-BeginsOn fuel th t s = elim (Option-cases (obtain_getter th t s.mmgetter)) [
  | inl e ↦ rw (e, begin_lock) (Evolves-refl s.mmgetter)
  | inr ((i, gs), e) ↦ rw (e, begin_lock) (branches i gs e (scan_others t i 0 true gs))
]
  where
    obtained :
        (i : ℕ) (gs : List Getter)
        → obtain_getter th t s.mmgetter ≡ some (i, gs)
        → Evolves s.mmgetter gs
    obtained i gs e = record {
      size = length-obtain_getter th t i s.mmgetter gs e;
      stays = obtain_getter-Stays th t i s.mmgetter gs e;
      unique = obtain_getter-Unique th t i s.mmgetter gs e;
    }

    itself : (gs : List Getter) → Same gs gs
    itself gs = record { size = refl; same = λ j. refl }

    unheld :
        (i : ℕ) (gs : List Getter)
        → obtain_getter th t s.mmgetter ≡ some (i, gs)
        → (b : Bool)
        → BeginsOn th s.mmgetter (
            if b
            then waits i false (release_to_wait i t (set_wait i t (record s { mmgetter = gs })))
            else refused (
                pthread_mutex_unlock mymutex_type_beforelock
                  (add_note (lock_order th) (record s { mmgetter = gs }))))
    unheld i gs e true =
        waits-Same th s.mmgetter gs i false
          (release_to_wait i t (set_wait i t (record s { mmgetter = gs }))) (obtained i gs e)
          (obtain_getter-own th t i s.mmgetter gs e)
          (set_wait-Same gs i _ (set_wait i t (record s { mmgetter = gs }))
            (set_wait-Same gs i t (record s { mmgetter = gs }) (itself gs)))
    unheld i gs e false = obtained i gs e

    branches :
        (i : ℕ) (gs : List Getter)
        → obtain_getter th t s.mmgetter ≡ some (i, gs)
        → (b : Bool)
        → BeginsOn th s.mmgetter (
            if b
            then begin_searched fuel th t i (note_order th i (record s { mmgetter = gs }))
            else (if order_ok i (record s { mmgetter = gs })
                then waits i false (release_to_wait i t (set_wait i t (record s { mmgetter = gs })))
                else refused (
                    pthread_mutex_unlock mymutex_type_beforelock
                      (add_note (lock_order th) (record s { mmgetter = gs })))))
    branches i gs e true =
        begin_searched-BeginsOn gs fuel th t i s.mmgetter
          (note_order th i (record s { mmgetter = gs })) (obtained i gs e)
          (obtain_getter-own th t i s.mmgetter gs e)
          (note-Same gs th i (record s { mmgetter = gs }) (itself gs))
    branches i gs e false = unheld i gs e (order_ok i (record s { mmgetter = gs }))

pub end_lock-Same :
    (th : Thread) (t i : ℕ) (bbool : Bool) (comment : List ℕ) (s : Store)
    → Same s.mmgetter (end_lock th t i bbool comment s).mmgetter
unfolding end_lock
end_lock-Same th t i bbool comment s = ended bbool
  where
    got : Same s.mmgetter (granted t i comment s).mmgetter
    got = granted-Same s.mmgetter t i comment s (record { size = refl; same = λ j. refl })

    ended :
        (b : Bool)
        → Same s.mmgetter
            (pthread_mutex_unlock mymutex_type_beforelock (
              if b
              then note_order th i (granted t i comment s)
              else granted t i comment s)).mmgetter
    ended true = note-Same s.mmgetter th i (granted t i comment s) got
    ended false = got

pub end_lock-Evolves :
    (th : Thread) (t i : ℕ) (bbool : Bool) (comment : List ℕ) (s : Store)
    → Evolves s.mmgetter (end_lock th t i bbool comment s).mmgetter
end_lock-Evolves th t i bbool comment s =
    Evolves-Same s.mmgetter _ (end_lock-Same th t i bbool comment s)
