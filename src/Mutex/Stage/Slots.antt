-- ===== src/Mutex/Stage/Slots.antt =====
-- What the first stage of `mymutex_lock` does to the slots of the getters.
pub mod Ends
use ktrpg.Base.{
  ℕ, ◌<◌, ◌≡◌, ◌≢◌, ◌⊎◌, refl, ap, sym, subst, ◌∙◌, inl, inr, Bool, true, false, Option, none, some,
  List, map, length, if◌then◌else◌, arith, Option-cases, Bool-cases, ℕ_discrete, find_index,
  find_index_sound, get_or-set, get_or-set_keeps, set, length-set, ◌==◌, ◌&&◌, get_or,
}
use ktrpg.Mutex.Types.{
  Thread, Mymutex, Getter, Store, blank_getter, mymutex_type_beforelock, lock_order, no_getter,
  dead_lock, not_locked,
}
use ktrpg.Mutex.Deadlock.{getter_at, is_dead_lock}
use ktrpg.Mutex.Deadlock.Kept.{Keeps, is_dead_lock-Keeps}
use ktrpg.Mutex.Table.{
  Call, returned, add_note, blank_mutex, mutex_at, is_of, is_free, claim, lock_getter,
  obtain_getter, unlock_getter, pthread_mutex_lock, pthread_mutex_unlock,
}
use ktrpg.Mutex.Lock.{granted, set_wait, scan_others, order_ok, note_order}
use ktrpg.Mutex.Lock.Owners.{owner_of, type_of, slots_of, filled, slots_of-granted}
use ktrpg.Mutex.Lock.Acquire.{note_order-same}
use ktrpg.Mutex.Stage.{
  Began, refused, spins, waits, release_to_wait, begin_searched, begin_lock, end_lock,
}
use ktrpg.Mutex.Stage.Owners.{Freed, Freed-owners, Freed-unlock}
use ktrpg.Mutex.Unlock.{cleared, mymutex_getter_unlock, unlock_inside}
use ktrpg.Mutex.Unlock.Release.{
  getter_unlock-owner, getter_unlock-size, getter_unlock-table, getter_unlock-type,
}

-- Whether a getter is used, whose it is, and its slots.
abbrev pub kept : Getter → Bool × ℕ × ℕ × List ℕ
kept g = (g.is_used, g.process_id, g.thread_id, g.get_mutex_type)

-- The getters as before, but that a free one may have been claimed.
abbrev pub Claims : List Getter → List Getter → Type 0
Claims gs gs' =
    (j : ℕ)
    → (slots_of gs' j ≡ slots_of gs j)
      × ((kept (getter_at gs' j) ≡ kept (getter_at gs j))
          ⊎ ((getter_at gs j).is_used ≡ false) × ((getter_at gs' j).is_used ≡ true))

abbrev pub BeginsSlots : List Getter → Began → Type 0
BeginsSlots gs (refused s) = Claims gs s.mmgetter
BeginsSlots gs spins = Unit {0}
BeginsSlots gs (waits i b s) = Claims gs s.mmgetter

pub obtain_getter-Claims :
    (th : Thread) (t i : ℕ) (mmgs gs : List Getter)
    → obtain_getter th t mmgs ≡ some (i, gs)
    → Claims mmgs gs
unfolding obtain_getter
obtain_getter-Claims th t i mmgs gs e j = elim (Option-cases (lock_getter th mmgs)) [
  | inr (k, found) ↦
      let same : gs ≡ mmgs = ground (arith, found, e) in
      (ap (λ x. slots_of x j) same, inl (ap (λ x. kept (getter_at x j)) same))
  | inl new ↦ elim (Option-cases (find_index is_free mmgs)) [
    | inl full ↦ absurd (ground arith)
    | inr (k, free) ↦
        let same : gs ≡ set mmgs k (claim th t (getter_at mmgs k)) = ground (arith, free, new, e) in
        subst
          (λ x.
            (slots_of x j ≡ slots_of mmgs j)
            × ((kept (getter_at x j) ≡ kept (getter_at mmgs j))
                ⊎ ((getter_at mmgs j).is_used ≡ false) × ((getter_at x j).is_used ≡ true)))
          (sym same) (claimed k free)
  ]
]
  where
    claimed :
        (k : ℕ)
        → find_index is_free mmgs ≡ some k
        → let x = set mmgs k (claim th t (getter_at mmgs k)) in
          (slots_of x j ≡ slots_of mmgs j)
          × ((kept (getter_at x j) ≡ kept (getter_at mmgs j))
              ⊎ ((getter_at mmgs j).is_used ≡ false) × ((getter_at x j).is_used ≡ true))
    claimed k free =
        let (lt, is_spare) = find_index_sound is_free mmgs blank_getter k free in
        let at_j = get_or-set mmgs k j (claim th t (getter_at mmgs k)) blank_getter lt in
        (
          get_or-set_keeps (λ g. g.get_mutex_type) mmgs k j (claim th t (getter_at mmgs k))
              blank_getter refl,
          elim (ℕ_discrete k j) [
            | yes q ↦ inr (
              subst (λ n. (getter_at mmgs n).is_used ≡ false) q (ground (arith, is_spare)),
              ap (λ (g : Getter). g.is_used) at_j ∙ ground (arith, q),
            )
            | no nq ↦ inl (ap kept at_j ∙ ground (arith, nq))
          ],
        )

module _ (base : List Getter) where
  set_wait-Kept :
      (i t : ℕ) (s : Store) → Keeps kept base s.mmgetter → Keeps kept base (set_wait i t s).mmgetter
  set_wait-Kept i t s h = record {
    size = length-set s.mmgetter i _ ∙ h.size;
    same = λ j. get_or-set_keeps kept s.mmgetter i j _ blank_getter refl ∙ h.same j;
  }

  note-Kept :
      (th : Thread) (i : ℕ) (s : Store)
      → Keeps kept base s.mmgetter
      → Keeps kept base (note_order th i s).mmgetter
  note-Kept th i s h = subst (Keeps kept base) (sym (note_order-same th i s).1) h

  Kept-Claims : (gs gs' : List Getter) → Claims gs base → Keeps kept base gs' → Claims gs gs'
  Kept-Claims gs gs' c k j = elim (c j).1 [
    | inl q ↦ (ap (λ x. x.3) (k.same j) ∙ (c j).0, inl (k.same j ∙ q))
    | inr (spare, used) ↦
        (ap (λ x. x.3) (k.same j) ∙ (c j).0, inr (spare, ap (λ x. x.0) (k.same j) ∙ used))
  ]

  begin_searched-Slots :
      (fuel : ℕ) (th : Thread) (t i : ℕ) (gs : List Getter) (s : Store)
      → Claims gs base
      → Keeps kept base s.mmgetter
      → BeginsSlots gs (begin_searched fuel th t i s)
  unfolding begin_searched
  begin_searched-Slots fuel th t i gs s c h =
      elim (Option-cases (is_dead_lock fuel i (set_wait i t s).mmgetter)) [
        | inl e ↦ rw (e, begin_searched) tt
        | inr ((answer, table), e) ↦
            rw (e, begin_searched)
              (found answer table (
                is_dead_lock-Keeps kept (λ b g. refl) fuel i (set_wait i t s).mmgetter table answer
                  e))
      ]
    where
      asked : Keeps kept base (set_wait i t s).mmgetter
      asked = set_wait-Kept i t s h

      after :
          {table : List Getter} → Keeps kept (set_wait i t s).mmgetter table → Keeps kept base table
      after k = record { size = k.size ∙ asked.size; same = λ j. k.same j ∙ asked.same j }

      waited : (x : Store) → Keeps kept base x.mmgetter → Claims gs (release_to_wait i t x).mmgetter
      waited x k = Kept-Claims gs (release_to_wait i t x).mmgetter c (set_wait-Kept i _ x k)

      found :
          (answer : Bool) (table : List Getter)
          → Keeps kept (set_wait i t s).mmgetter table
          → Claims gs
              (release_to_wait i t (
                if answer
                then add_note (dead_lock th) (record (set_wait i t s) { mmgetter = table })
                else record (set_wait i t s) { mmgetter = table })).mmgetter
      found true table k =
          waited (add_note (dead_lock th) (record (set_wait i t s) { mmgetter = table })) (after k)
      found false table k = waited (record (set_wait i t s) { mmgetter = table }) (after k)

pub begin_lock-Slots :
    (fuel : ℕ) (th : Thread) (t : ℕ) (s : Store) → BeginsSlots s.mmgetter (begin_lock fuel th t s)
unfolding begin_lock
begin_lock-Slots fuel th t s = elim (Option-cases (obtain_getter th t s.mmgetter)) [
  | inl e ↦ rw (e, begin_lock) (λ j. (refl, inl refl))
  | inr ((i, gs), e) ↦
      rw (e, begin_lock)
        (branches i gs (obtain_getter-Claims th t i s.mmgetter gs e) (scan_others t i 0 true gs))
]
  where
    itself : (gs : List Getter) → Keeps kept gs gs
    itself gs = record { size = refl; same = λ j. refl }

    unheld :
        (i : ℕ) (gs : List Getter)
        → Claims s.mmgetter gs
        → (b : Bool)
        → BeginsSlots s.mmgetter (
            if b
            then waits i false (release_to_wait i t (set_wait i t (record s { mmgetter = gs })))
            else refused (
                pthread_mutex_unlock mymutex_type_beforelock
                  (add_note (lock_order th) (record s { mmgetter = gs }))))
    unheld i gs c true =
        Kept-Claims gs s.mmgetter
          (release_to_wait i t (set_wait i t (record s { mmgetter = gs }))).mmgetter c
          (set_wait-Kept gs i _ (set_wait i t (record s { mmgetter = gs }))
            (set_wait-Kept gs i t (record s { mmgetter = gs }) (itself gs)))
    unheld i gs c false = c

    branches :
        (i : ℕ) (gs : List Getter)
        → Claims s.mmgetter gs
        → (b : Bool)
        → BeginsSlots s.mmgetter (
            if b
            then begin_searched fuel th t i (note_order th i (record s { mmgetter = gs }))
            else (if order_ok i (record s { mmgetter = gs })
                then waits i false (release_to_wait i t (set_wait i t (record s { mmgetter = gs })))
                else refused (
                    pthread_mutex_unlock mymutex_type_beforelock
                      (add_note (lock_order th) (record s { mmgetter = gs })))))
    branches i gs c true =
        begin_searched-Slots gs fuel th t i s.mmgetter
          (note_order th i (record s { mmgetter = gs })) c
          (note-Kept gs th i (record s { mmgetter = gs }) (itself gs))
    branches i gs c false = unheld i gs c (order_ok i (record s { mmgetter = gs }))
