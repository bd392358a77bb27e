-- ===== src/Mutex/Stage/Slots/Ends.antt =====
-- What the last stage of `mymutex_lock` and `mymutex_unlock` inside BEFORELOCK do to the slots, and that
-- no stage changes the types of the mutexes.
use ktrpg.Base.{
  ℕ, ◌<◌, ◌≡◌, ◌⊎◌, refl, ap, ◌∙◌, inl, inr, Bool, true, false, none, List, length, if◌then◌else◌,
  Option-cases, find_index_sound, get_or-set_keeps, set, ◌==◌, get_or,
}
use ktrpg.Mutex.Types.{Thread, Store, blank_getter, mymutex_type_beforelock, not_locked}
use ktrpg.Mutex.Deadlock.{getter_at}
use ktrpg.Mutex.Table.{returned, add_note, blank_mutex, is_of, unlock_getter, pthread_mutex_unlock}
use ktrpg.Mutex.Lock.{granted, note_order}
use ktrpg.Mutex.Lock.Owners.{owner_of, type_of, slots_of, filled, slots_of-granted}
use ktrpg.Mutex.Lock.Acquire.{note_order-same}
use ktrpg.Mutex.Stage.{end_lock}
use ktrpg.Mutex.Stage.Owners.{Freed, Freed-owners, Freed-unlock}
use ktrpg.Mutex.Unlock.{cleared, mymutex_getter_unlock, unlock_inside}
use ktrpg.Mutex.Unlock.Release.{
  getter_unlock-owner, getter_unlock-size, getter_unlock-table, getter_unlock-type,
}

-- The types of the mutexes stay.
abbrev pub Types : Store → Store → Type 0
Types s s' = (u : ℕ) → type_of s' u ≡ type_of s u

pub Freed-Types : (s s' : Store) → Freed s s' → Types s s'
Freed-Types s s' e u =
    ap (λ ms. (get_or ms u blank_mutex).mutex_type) e
    ∙ get_or-set_keeps (λ m. m.mutex_type) s.mmutex 0 u _ blank_mutex refl

type_of-granted : (t i : ℕ) (comment : List ℕ) (s : Store) → Types s (granted t i comment s)
unfolding granted
type_of-granted t i comment s u =
    get_or-set_keeps (λ m. m.mutex_type) s.mmutex t u _ blank_mutex refl

-- The slots after the last stage.
pub end_lock-Slots :
    (th : Thread) (t i : ℕ) (bbool : Bool) (comment : List ℕ) (s : Store)
    → i < length s.mmgetter
    → ((j : ℕ)
        → slots_of (end_lock th t i bbool comment s).mmgetter j ≡ (
            if i == j then filled (type_of s t) (slots_of s.mmgetter i) else slots_of s.mmgetter j))
      × Types s (end_lock th t i bbool comment s)
unfolding end_lock
end_lock-Slots th t i bbool comment s lt = ended bbool
  where
    owns : Store
    owns = granted t i comment s

    ended :
        (b : Bool)
        → let x =
            pthread_mutex_unlock mymutex_type_beforelock
              (if b then note_order th i owns else owns) in
          ((j : ℕ)
            → slots_of x.mmgetter j ≡ (
                if i == j
                then filled (type_of s t) (slots_of s.mmgetter i)
                else slots_of s.mmgetter j))
          × Types s x
    ended true = (
      λ j.
          ap (λ gs. slots_of gs j) (note_order-same th i owns).1
          ∙ slots_of-granted t i comment s j lt,
      λ u.
          Freed-Types owns (pthread_mutex_unlock mymutex_type_beforelock (note_order th i owns))
            (Freed-unlock owns (note_order th i owns) (note_order-same th i owns).0) u
          ∙ type_of-granted t i comment s u,
    )
    ended false = (
      λ j. slots_of-granted t i comment s j lt,
      λ u.
          Freed-Types owns (pthread_mutex_unlock mymutex_type_beforelock owns) refl u
          ∙ type_of-granted t i comment s u,
    )

-- `mymutex_unlock` inside BEFORELOCK: the caller has no getter, and only BEFORELOCK is unlocked; or it
-- has getter `i`, whose slots of the mutex's type are cleared, and the mutex is unlocked too.
pub unlock-Slots :
    (th : Thread) (t : ℕ) (s : Store)
    → 0 < length s.mmutex
    → t < length s.mmutex
    → (s' : Store) × (unlock_inside th t s ≡ returned s')
      × Types s s'
      × ((((u : ℕ) → owner_of s' u ≡ (if 0 == u then none else owner_of s u))
            × (s'.mmgetter ≡ s.mmgetter))
          ⊎ ((i : ℕ) × (i < length s.mmgetter)
              × (is_of th (getter_at s.mmgetter i) ≡ true)
              × ((u : ℕ)
                  → owner_of s' u
                    ≡ (if 0 == u then none else (if t == u then none else owner_of s u)))
              × (s'.mmgetter ≡ set s.mmgetter i (cleared (type_of s t) (getter_at s.mmgetter i)))))
unfolding unlock_inside
unlock-Slots th t s h0 h = elim (Option-cases (unlock_getter th s.mmgetter)) [
  | inl e ↦ (
    pthread_mutex_unlock mymutex_type_beforelock (add_note (not_locked th) s),
    rw (e, unlock_inside) refl,
    Freed-Types s (pthread_mutex_unlock mymutex_type_beforelock s) refl,
    inl (Freed-owners s (pthread_mutex_unlock mymutex_type_beforelock s) h0 refl, refl),
  )
  | inr (i, e) ↦
      let x = mymutex_getter_unlock t i s in
      let freed = pthread_mutex_unlock mymutex_type_beforelock x in
      let (lt, mine) = find_index_sound (is_of th) s.mmgetter blank_getter i e in
      (
        freed,
        rw (e, unlock_inside) refl,
        λ u. Freed-Types x freed refl u ∙ getter_unlock-type t i s u,
        inr (
          i,
          lt,
          mine,
          (λ u.
              Freed-owners x freed (rw (getter_unlock-size t i s) h0) refl u
              ∙ ap (λ o. if 0 == u then none else o) (getter_unlock-owner t i s u h)),
          getter_unlock-table t i s,
        ),
      )
]
