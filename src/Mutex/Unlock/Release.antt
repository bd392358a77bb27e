-- ===== src/Mutex/Unlock/Release.antt =====
-- What a call of `mymutex_unlock` by a thread that has a getter leaves, and a lock followed by it.
use ktrpg.Base.{
  ℕ, ◌≤◌, ◌<◌, ◌≡◌, ◌≢◌, refl, ap, ◌∙◌, Bool, true, false, none, some, List, [], ◌∷◌, map, arith,
  ◌==◌, if◌then◌else◌, length, length-set, get_or, get_or-set_keeps, set, get_or-set,
  find_index_sound, pos, any,
}
use ktrpg.Mutex.Types.{Thread, Getter, Note, Store, blank_getter, mymutex_type_max}
use ktrpg.Mutex.Deadlock.{getter_at, holds}
use ktrpg.Mutex.Table.{
  returned, ◌>>=◌, add_note, blank_mutex, pthread_mutex_lock, pthread_mutex_unlock, unlock_getter,
  is_of,
}
use ktrpg.Mutex.Lock.Owners.{
  owner_of, type_of, slots_of, Takes, lock_then, owner_of-unlock, owner_of-set,
}
use ktrpg.Mutex.Unlock.{clear_slot, cleared, mymutex_getter_unlock, unlock_inside, mymutex_unlock}

same_but_notes :
    (b : Bool) (n : Note) (s : Store)
    → ((if b then add_note n s else s).mmutex ≡ s.mmutex)
      × ((if b then add_note n s else s).mmgetter ≡ s.mmgetter)
same_but_notes true n s = (refl, refl)
same_but_notes false n s = (refl, refl)

-- The tables after `mymutex_getter_unlock`.
pub getter_unlock-table :
    (t i : ℕ) (s : Store)
    → (mymutex_getter_unlock t i s).mmgetter
      ≡ set s.mmgetter i (cleared (type_of s t) (getter_at s.mmgetter i))
unfolding mymutex_getter_unlock
getter_unlock-table t i s = (same_but_notes _ _ _).1

pub getter_unlock-owner :
    (t i : ℕ) (s : Store) (u : ℕ)
    → t < length s.mmutex
    → owner_of (mymutex_getter_unlock t i s) u ≡ (if t == u then none else owner_of s u)
unfolding mymutex_getter_unlock
getter_unlock-owner t i s u h =
    ap (λ ms. (get_or ms u blank_mutex).owner) (same_but_notes _ _ _).0 ∙ owner_of-set s t u _ h

pub getter_unlock-type :
    (t i : ℕ) (s : Store) (u : ℕ) → type_of (mymutex_getter_unlock t i s) u ≡ type_of s u
unfolding mymutex_getter_unlock
getter_unlock-type t i s u =
    ap (λ ms. (get_or ms u blank_mutex).mutex_type) (same_but_notes _ _ _).0
    ∙ get_or-set_keeps (λ m. m.mutex_type) s.mmutex t u _ blank_mutex refl

pub getter_unlock-size :
    (t i : ℕ) (s : Store) → length (mymutex_getter_unlock t i s).mmutex ≡ length s.mmutex
unfolding mymutex_getter_unlock
getter_unlock-size t i s = ap length (same_but_notes _ _ _).0 ∙ length-set s.mmutex t _

pub slots_of-cleared :
    (t i j : ℕ) (gs : List Getter)
    → i < length gs
    → slots_of (set gs i (cleared t (getter_at gs i))) j
      ≡ (if i == j then map (clear_slot t) (slots_of gs i) else slots_of gs j)
slots_of-cleared t i j gs h =
    ground (arith, get_or-set gs i j (cleared t (getter_at gs i)) blank_getter h)

pub holds-clear : (t : ℕ) (slots : List ℕ) → t ≢ 0 → holds t (map (clear_slot t) slots) ≡ false
unfolding any
holds-clear t [] ne = refl
holds-clear t (x ∷ xs) ne = ground (arith, holds-clear t xs ne)

-- What a call that has unlocked `t` leaves: `t` and BEFORELOCK are free, the other mutexes are as they
-- were, and every slot of getter `i` that held the mutex's type is free, the other slots of the table
-- as they were.
pub record Released (t i : ℕ) (s s' : Store) : Type 0 where
  pub owners :
      (u : ℕ) → owner_of s' u ≡ (if 0 == u then none else (if t == u then none else owner_of s u))
  pub slots :
      (j : ℕ)
      → slots_of s'.mmgetter j ≡ (
          if i == j
          then map (clear_slot (type_of s t)) (slots_of s.mmgetter i)
          else slots_of s.mmgetter j)

inside-Released :
    (th : Thread) (t i : ℕ) (s s1 : Store)
    → t < length s.mmutex
    → i < length s.mmgetter
    → t ≢ 0
    → unlock_getter th s.mmgetter ≡ some i
    → Takes th 0 s s1
    → (s' : Store) × (unlock_inside th t s1 ≡ returned s') × Released t i s s'
unfolding unlock_inside
inside-Released th t i s s1 lt in_table ne found took = (
  pthread_mutex_unlock 0 done,
  rw (ap (unlock_getter th) took.table ∙ found, unlock_inside),
  record {
    owners = λ u. ground (
      arith,
      owner_of-unlock done 0 u (rw (getter_unlock-size t i s1 ∙ took.size) (omega arith)),
      getter_unlock-owner t i s1 u (rw took.size lt),
      took.owners u,
    );
    slots = λ j. ap (λ gs. slots_of gs j) (getter_unlock-table t i s1) ∙ slots_cleared j;
  },
)
  where
    done : Store
    done = mymutex_getter_unlock t i s1

    slots_cleared :
        (j : ℕ)
        → slots_of (set s1.mmgetter i (cleared (type_of s1 t) (getter_at s1.mmgetter i))) j ≡ (
            if i == j
            then map (clear_slot (type_of s t)) (slots_of s.mmgetter i)
            else slots_of s.mmgetter j)
    slots_cleared j =
        rw (took.table, took.types t) (slots_of-cleared (type_of s t) i j s.mmgetter in_table)

mymutex_unlock-enter :
    (th : Thread) (t : ℕ) (s : Store)
    → t ≢ 0
    → t < mymutex_type_max
    → s.g_beforelock ≡ true
    → mymutex_unlock th (pos t) s ≡ (pthread_mutex_lock th 0 s >>= unlock_inside th t)
unfolding mymutex_unlock
mymutex_unlock-enter th t s ne lt on = ground arith

-- A call of `mymutex_unlock` by a thread that has getter `i`, and that finds BEFORELOCK free, returns
-- with the mutex free, the other mutexes as they were and the slots of the other getters as they
-- were; the type of the mutex, which is not 0, stands in no slot of getter `i`.
pub mymutex_unlock-Released :
    (th : Thread) (t i : ℕ) (s : Store)
    → t ≢ 0
    → t < mymutex_type_max
    → mymutex_type_max ≤ length s.mmutex
    → s.g_beforelock ≡ true
    → owner_of s 0 ≡ none
    → unlock_getter th s.mmgetter ≡ some i
    → type_of s t ≢ 0
    → (s' : Store) × (mymutex_unlock th (pos t) s ≡ returned s')
      × Released t i s s'
      × (holds (type_of s t) (slots_of s'.mmgetter i) ≡ false)
mymutex_unlock-Released th t i s ne lt mutexes on free found typed =
    let in_table = (find_index_sound (is_of th) s.mmgetter blank_getter i found).0 in
    let (s', e, r) =
      lock_then th 0 s (unlock_inside th t) (Released t i s) free (omega arith)
        (λ s1 took. inside-Released th t i s s1 (omega arith) in_table ne found took) in
    (
      s',
      mymutex_unlock-enter th t s ne lt on ∙ e,
      r,
      ap (holds (type_of s t)) (r.slots i ∙ own_slots i)
          ∙ holds-clear (type_of s t) (slots_of s.mmgetter i) typed,
    )
  where
    own_slots :
        (k : ℕ)
        → (if k == k
            then map (clear_slot (type_of s t)) (slots_of s.mmgetter k)
            else slots_of s.mmgetter k)
          ≡ map (clear_slot (type_of s t)) (slots_of s.mmgetter k)
    own_slots k = ground arith
