-- ===== src/Mutex/Lock/Acquire.antt =====
-- What a call of `mymutex_lock` does that finds the mutexes free.
pub mod Call
use ktrpg.Base.{
  ℕ, ◌≤◌, ◌<◌, ◌≡◌, ◌≢◌, refl, ap, ◌∙◌, inl, inr, Bool, true, none, some, List, arith, ◌==◌,
  if◌then◌else◌, pos, length, length-set, get_or, set, get_or-set_keeps, find_index,
  find_index_sound, find_last_index_sound, Option-cases,
}
use ktrpg.Mutex.Types.{
  Thread, Getter, Store, blank_getter, mymutex_type_beforelock, mymutex_type_max, no_getter,
  dead_lock,
}
use ktrpg.Mutex.Deadlock.{getter_at, is_dead_lock}
use ktrpg.Mutex.Deadlock.Kept.{Keeps, is_dead_lock-Keeps}
use ktrpg.Mutex.Table.{
  returned, ◌>>=◌, mutex_at, add_note, blank_mutex, pthread_mutex_lock, pthread_mutex_unlock,
  obtain_getter, lock_getter, is_of, is_free, claim,
}
use ktrpg.Mutex.Lock.{
  granted, set_wait, mymutex_getter_lock, note_order, lock_searched, lock_held, lock_inside,
  mymutex_lock,
}
use ktrpg.Mutex.Lock.Owners.{
  owner_of, type_of, slots_of, filled, scan_others_yes, owner_of-granted, slots_of-granted,
  length-granted, Takes, lock_then, owner_of-unlock, both_taken,
}

-- The state in which a call that owned BEFORELOCK has obtained the mutex `t` as well.
record Obtained (th : Thread) (t i : ℕ) (s s' : Store) : Type 0 where
  owners :
      (u : ℕ)
      → owner_of s' u ≡ (if 0 == u then some th else (if t == u then some th else owner_of s u))
  size : length s'.mmutex ≡ length s.mmutex
  slots :
      (j : ℕ)
      → slots_of s'.mmgetter j
        ≡ (if i == j then filled (type_of s t) (slots_of s.mmgetter i) else slots_of s.mmgetter j)

same_slots :
    (i j t : ℕ) (s s2 : Store)
    → ((k : ℕ) → slots_of s2.mmgetter k ≡ slots_of s.mmgetter k)
    → type_of s2 t ≡ type_of s t
    → (if i == j then filled (type_of s2 t) (slots_of s2.mmgetter i) else slots_of s2.mmgetter j)
      ≡ (if i == j then filled (type_of s t) (slots_of s.mmgetter i) else slots_of s.mmgetter j)
same_slots i j t s s2 kept typed = rw (kept i, kept j, typed)

getter_lock-Obtained :
    (th : Thread) (t i : ℕ) (comment : List ℕ) (s : Store)
    → owner_of s t ≡ none
    → t ≢ 0
    → t < length s.mmutex
    → i < length s.mmgetter
    → (s' : Store) × (mymutex_getter_lock th t i comment s ≡ returned s') × Obtained th t i s s'
unfolding mymutex_getter_lock
getter_lock-Obtained th t i comment s free ne h in_table =
    lock_then th t s0 _ (Obtained th t i s) (ground (arith, given t)) (omega (arith, size0))
      λ s1 k1.
        lock_then th 0 s1 _ (Obtained th t i s) (ground (arith, given 0, k1.owners 0))
          (omega (arith, k1.size, size0))
          λ s2 k2. (
            granted t i comment s2,
            refl,
            record {
              owners = λ u.
                  owner_of-granted t i comment s2 u ∙ both_taken th t s s0 s1 s2 ne given k1 k2 u;
              size = length-granted t i comment s2 ∙ (k2.size ∙ (k1.size ∙ size0));
              slots = λ j.
                  slots_of-granted t i comment s2 j
                    (rw (k2.table ∙ k1.table) (omega (arith, table0)))
                  ∙ same_slots i j t s s2 (kept s2 (k2.table ∙ k1.table))
                      (k2.types t ∙ (k1.types t ∙ types0 t));
            },
          )
  where
    s0 : Store
    s0 = pthread_mutex_unlock 0 (set_wait i (mutex_at s t).mutex_type s)

    given : (u : ℕ) → owner_of s0 u ≡ (if 0 == u then none else owner_of s u)
    given u = owner_of-unlock (set_wait i (mutex_at s t).mutex_type s) 0 u (omega arith)

    size0 : length s0.mmutex ≡ length s.mmutex
    size0 = length-set s.mmutex 0 _

    table0 : length s0.mmgetter ≡ length s.mmgetter
    table0 = length-set s.mmgetter i _

    types0 : (u : ℕ) → type_of s0 u ≡ type_of s u
    types0 u = get_or-set_keeps (λ m. m.mutex_type) s.mmutex 0 u _ blank_mutex refl

    kept :
        (s2 : Store)
        → s2.mmgetter ≡ s0.mmgetter
        → (k : ℕ) → slots_of s2.mmgetter k ≡ slots_of s.mmgetter k
    kept s2 e k =
        ap (λ gs. slots_of gs k) e
        ∙ get_or-set_keeps (λ g. g.get_mutex_type) s.mmgetter i k _ blank_getter refl

-- What a call that has locked `t` with getter `i` leaves: BEFORELOCK is free again, the caller owns
-- `t`, the other mutexes are as they were, and `t` stands in the first slot of getter `i` that was
-- free, the other slots of the table as they were.
pub record Locked (th : Thread) (t i : ℕ) (gs : List Getter) (s s' : Store) : Type 0 where
  pub owners :
      (u : ℕ)
      → owner_of s' u ≡ (if 0 == u then none else (if t == u then some th else owner_of s u))
  pub slots :
      (j : ℕ)
      → slots_of s'.mmgetter j
        ≡ (if i == j then filled (type_of s t) (slots_of gs i) else slots_of gs j)

-- The entry of the table once its owner waits for `t`.
abbrev pub asking : ℕ → ℕ → List Getter → List Getter
asking i t gs = set gs i (record (getter_at gs i) { is_waited = true; wait_mutex_type = t })

pub note_order-same :
    (th : Thread) (i : ℕ) (s : Store)
    → ((note_order th i s).mmutex ≡ s.mmutex) × ((note_order th i s).mmgetter ≡ s.mmgetter)
note_order-same th i s = ground arith

-- The end of the call gives BEFORELOCK back.
finish :
    (th : Thread) (t i : ℕ) (gs : List Getter) (s0 s s' : Store)
    → ((u : ℕ) → u ≢ 0 → owner_of s u ≡ owner_of s0 u)
    → type_of s t ≡ type_of s0 t
    → ((j : ℕ) → slots_of s.mmgetter j ≡ slots_of gs j)
    → 0 < length s.mmutex
    → Obtained th t i s s'
    → Locked th t i gs s0 (pthread_mutex_unlock 0 (note_order th i s'))
finish th t i gs s0 s s' owners typed slots pos_len got = record {
  owners = λ u. ground (
    arith,
    owner_of-unlock (note_order th i s') 0 u (rw (ap length same.0 ∙ got.size) pos_len),
    ap (λ ms. (get_or ms u blank_mutex).owner) same.0,
    got.owners u,
    owners u,
  );
  slots = λ j. ap (λ gs. slots_of gs j) same.1 ∙ (got.slots j ∙ rw (slots i, slots j, typed));
}
  where
    same : ((note_order th i s').mmutex ≡ s'.mmutex) × ((note_order th i s').mmgetter ≡ s'.mmgetter)
    same = note_order-same th i s'

pub lock_searched-Locked :
    (fuel : ℕ) (th : Thread) (t i : ℕ) (comment : List ℕ) (s : Store) (answer : Bool)
    (table : List Getter)
    → owner_of s t ≡ none
    → t ≢ 0
    → t < length s.mmutex
    → i < length s.mmgetter
    → is_dead_lock fuel i (asking i t s.mmgetter) ≡ some (answer, table)
    → (s' : Store) × (lock_searched fuel th t i comment s ≡ returned s')
      × Locked th t i s.mmgetter s s'
unfolding lock_searched
lock_searched-Locked fuel th t i comment s answer table free ne lt in_table e =
    let (s', e', got) =
      getter_lock-Obtained th t i comment noted (owner-noted t ∙ free) ne (rw size-noted lt) (
        rw table-noted (
          omega (
            arith,
            keeps.size,
            length-set s.mmgetter i
                (record (getter_at s.mmgetter i) { is_waited = true; wait_mutex_type = t }),
          ))) in
    (
      pthread_mutex_unlock 0 (note_order th i s'),
      rw (e, lock_searched)
          (ap (λ c. c >>= λ owns. returned (pthread_mutex_unlock 0 (note_order th i owns))) e'),
      finish th t i s.mmgetter s noted s' (λ u ne'. owner-noted u) type-noted slots-noted
          (omega (arith, size-noted)) got,
    )
  where
    searched : Store
    searched = record s { mmgetter = table }

    noted : Store
    noted = if answer then add_note (dead_lock th) searched else searched

    keeps : Keeps (λ g. g.get_mutex_type) (asking i t s.mmgetter) table
    keeps =
        is_dead_lock-Keeps (λ g. g.get_mutex_type) (λ b g. refl) fuel i (asking i t s.mmgetter)
          table answer e

    same-noted : (noted.mmutex ≡ s.mmutex) × (noted.mmgetter ≡ table)
    same-noted = ground arith

    owner-noted : (u : ℕ) → owner_of noted u ≡ owner_of s u
    owner-noted u = ap (λ ms. (get_or ms u blank_mutex).owner) same-noted.0

    type-noted : type_of noted t ≡ type_of s t
    type-noted = ap (λ ms. (get_or ms t blank_mutex).mutex_type) same-noted.0

    size-noted : length noted.mmutex ≡ length s.mmutex
    size-noted = ap length same-noted.0

    table-noted : noted.mmgetter ≡ table
    table-noted = same-noted.1

    slots-noted : (j : ℕ) → slots_of noted.mmgetter j ≡ slots_of s.mmgetter j
    slots-noted j =
        ap (λ gs. slots_of gs j) table-noted
        ∙ (keeps.same j
            ∙ get_or-set_keeps (λ g. g.get_mutex_type) s.mmgetter i j _ blank_getter refl)
