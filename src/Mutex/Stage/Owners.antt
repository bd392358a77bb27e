-- ===== src/Mutex/Stage/Owners.antt =====
-- What the stages of the calls do to the owners of the mutexes.
use ktrpg.Base.{
  ℕ, ◌<◌, ◌≡◌, ◌⊎◌, refl, ap, sym, subst, ◌∙◌, inl, inr, Bool, true, false, none, some, List, set,
  get_or, length, length-set, if◌then◌else◌, ◌==◌, arith, Option-cases,
}
use ktrpg.Mutex.Types.{
  Thread, Mymutex, Getter, Store, mymutex_type_beforelock, lock_order, dead_lock, not_locked,
}
use ktrpg.Mutex.Deadlock.{is_dead_lock}
use ktrpg.Mutex.Table.{
  returned, blank_mutex, add_note, pthread_mutex_lock, pthread_mutex_unlock, obtain_getter,
  unlock_getter,
}
use ktrpg.Mutex.Lock.{granted, set_wait, scan_others, order_ok, note_order}
use ktrpg.Mutex.Lock.Owners.{
  owner_of, owner_of-granted, length-granted, owner_of-unlock, pthread_mutex_lock-Takes,
}
use ktrpg.Mutex.Lock.Acquire.{note_order-same}
use ktrpg.Mutex.Unlock.{mymutex_getter_unlock, unlock_inside}
use ktrpg.Mutex.Unlock.Release.{getter_unlock-owner, getter_unlock-size}
use ktrpg.Mutex.Stage.{
  Began, refused, spins, waits, release_to_wait, begin_searched, begin_lock, end_lock,
}

-- How a step of thread `th` may change who owns what. The mutexes stay in number.
pub data Change (th : Thread) (s s' : Store) : Type 0 where
  keeps : ((u : ℕ) → owner_of s' u ≡ owner_of s u) → Change th s s'
  takes :
      (t : ℕ)
      → owner_of s t ≡ none
      → ((u : ℕ) → owner_of s' u ≡ (if t == u then some th else owner_of s u))
      → Change th s s'
  frees :
      owner_of s 0 ≡ some th
      → ((u : ℕ) → owner_of s' u ≡ (if 0 == u then none else owner_of s u))
      → Change th s s'
  frees_both :
      (t : ℕ)
      → owner_of s 0 ≡ some th
      → owner_of s t ≡ some th
      → ((u : ℕ)
          → owner_of s' u ≡ (if 0 == u then none else (if t == u then none else owner_of s u)))
      → Change th s s'

-- BEFORELOCK is given up, and nothing else changes among the mutexes.
abbrev pub Freed : Store → Store → Type 0
Freed s s' = s'.mmutex ≡ (pthread_mutex_unlock mymutex_type_beforelock s).mmutex

pub Freed-owners :
    (s s' : Store)
    → 0 < length s.mmutex
    → Freed s s'
    → (u : ℕ) → owner_of s' u ≡ (if 0 == u then none else owner_of s u)
Freed-owners s s' h e u = ap (λ ms. (get_or ms u blank_mutex).owner) e ∙ owner_of-unlock s 0 u h

pub Freed-size : (s s' : Store) → Freed s s' → length s'.mmutex ≡ length s.mmutex
Freed-size s s' e = ap length e ∙ length-set s.mmutex 0 _

pub Freed-unlock :
    (s x : Store) → x.mmutex ≡ s.mmutex → Freed s (pthread_mutex_unlock mymutex_type_beforelock x)
Freed-unlock s x e =
    ap (λ (ms : List Mymutex). set ms 0 (record (get_or ms 0 blank_mutex) { owner = none })) e

-- The first stage gives BEFORELOCK up, unless it stays in the search.
abbrev pub Frees : Store → Began → Type 0
Frees s (refused s') = Freed s s'
Frees s spins = Unit {0}
Frees s (waits i bbool s') = Freed s s'

begin_searched-Frees :
    (fuel : ℕ) (th : Thread) (t i : ℕ) (s x : Store)
    → x.mmutex ≡ s.mmutex
    → Frees s (begin_searched fuel th t i x)
unfolding begin_searched
begin_searched-Frees fuel th t i s x e =
    elim (Option-cases (is_dead_lock fuel i (set_wait i t x).mmgetter)) [
      | inl q ↦ rw (q, begin_searched) tt
      | inr ((answer, table), q) ↦ rw (q, begin_searched) (noted answer table)
    ]
  where
    noted :
        (answer : Bool) (table : List Getter)
        → Freed s (
            release_to_wait i t (
              if answer
              then add_note (dead_lock th) (record (set_wait i t x) { mmgetter = table })
              else record (set_wait i t x) { mmgetter = table }))
    noted true table =
        Freed-unlock s (add_note (dead_lock th) (record (set_wait i t x) { mmgetter = table })) e
    noted false table = Freed-unlock s (record (set_wait i t x) { mmgetter = table }) e

pub begin_lock-Frees :
    (fuel : ℕ) (th : Thread) (t : ℕ) (s : Store) → Frees s (begin_lock fuel th t s)
unfolding begin_lock
begin_lock-Frees fuel th t s = elim (Option-cases (obtain_getter th t s.mmgetter)) [
  | inl e ↦ rw (e, begin_lock) refl
  | inr ((i, gs), e) ↦ rw (e, begin_lock) (branches i gs (scan_others t i 0 true gs))
]
  where
    unheld :
        (i : ℕ) (gs : List Getter) (b : Bool)
        → Frees s (
            if b
            then waits i false (release_to_wait i t (set_wait i t (record s { mmgetter = gs })))
            else refused (
                pthread_mutex_unlock mymutex_type_beforelock
                  (add_note (lock_order th) (record s { mmgetter = gs }))))
    unheld i gs true = refl
    unheld i gs false = refl

    branches :
        (i : ℕ) (gs : List Getter) (b : Bool)
        → Frees s (
            if b
            then begin_searched fuel th t i (note_order th i (record s { mmgetter = gs }))
            else (if order_ok i (record s { mmgetter = gs })
                then waits i false (release_to_wait i t (set_wait i t (record s { mmgetter = gs })))
                else refused (
                    pthread_mutex_unlock mymutex_type_beforelock
                      (add_note (lock_order th) (record s { mmgetter = gs })))))
    branches i gs true =
        begin_searched-Frees fuel th t i s (note_order th i (record s { mmgetter = gs }))
          (note_order-same th i (record s { mmgetter = gs })).0
    branches i gs false = unheld i gs (order_ok i (record s { mmgetter = gs }))

-- The last stage gives BEFORELOCK up and keeps the mutex.
pub end_lock-owners :
    (th : Thread) (t i : ℕ) (bbool : Bool) (comment : List ℕ) (s : Store)
    → 0 < length s.mmutex
    → ((u : ℕ)
        → owner_of (end_lock th t i bbool comment s) u ≡ (if 0 == u then none else owner_of s u))
      × (length (end_lock th t i bbool comment s).mmutex ≡ length s.mmutex)
unfolding end_lock
end_lock-owners th t i bbool comment s h = (
  λ u.
      Freed-owners owns (end_lock th t i bbool comment s) (rw (length-granted t i comment s) h)
        (freed bbool) u
      ∙ ap (λ o. if 0 == u then none else o) (owner_of-granted t i comment s u),
  Freed-size owns (end_lock th t i bbool comment s) (freed bbool) ∙ length-granted t i comment s,
)
  where
    owns : Store
    owns = granted t i comment s

    freed :
        (b : Bool)
        → Freed owns (
            pthread_mutex_unlock mymutex_type_beforelock (if b then note_order th i owns else owns))
    freed true = Freed-unlock owns (note_order th i owns) (note_order-same th i owns).0
    freed false = refl

pub returned-injective : {a b : Store} → returned a ≡ returned b → a ≡ b
returned-injective e = cc

-- A lock that is got was free, and is the caller's.
pub lock-owners :
    (th : Thread) (t : ℕ) (s s' : Store)
    → t < length s.mmutex
    → pthread_mutex_lock th t s ≡ returned s'
    → (owner_of s t ≡ none)
      × ((u : ℕ) → owner_of s' u ≡ (if t == u then some th else owner_of s u))
      × (length s'.mmutex ≡ length s.mmutex)
unfolding pthread_mutex_lock
lock-owners th t s s' h e = elim (Option-cases (owner_of s t)) [
  | inr (o, q) ↦ absurd (ground arith)
  | inl q ↦
      let (s1, e1, k) = pthread_mutex_lock-Takes th t s q h in
      let same : s1 ≡ s' = returned-injective (sym e1 ∙ e) in
      (
        q,
        subst (λ x. (u : ℕ) → owner_of x u ≡ (if t == u then some th else owner_of s u)) same
            k.owners,
        subst (λ (x : Store). length x.mmutex ≡ length s.mmutex) same k.size,
      )
]

-- `mymutex_unlock` inside BEFORELOCK frees that and, where the caller has a getter, the mutex.
pub unlock-owners :
    (th : Thread) (t : ℕ) (s : Store)
    → 0 < length s.mmutex
    → t < length s.mmutex
    → (s' : Store) × (unlock_inside th t s ≡ returned s')
      × (length s'.mmutex ≡ length s.mmutex)
      × (((u : ℕ) → owner_of s' u ≡ (if 0 == u then none else owner_of s u))
          ⊎ ((u : ℕ)
              → owner_of s' u ≡ (if 0 == u then none else (if t == u then none else owner_of s u))))
unfolding unlock_inside
unlock-owners th t s h0 h = elim (Option-cases (unlock_getter th s.mmgetter)) [
  | inl e ↦ (
    pthread_mutex_unlock mymutex_type_beforelock (add_note (not_locked th) s),
    rw (e, unlock_inside) refl,
    Freed-size s (pthread_mutex_unlock mymutex_type_beforelock s) refl,
    inl (Freed-owners s (pthread_mutex_unlock mymutex_type_beforelock s) h0 refl),
  )
  | inr (i, e) ↦
      let freed = pthread_mutex_unlock mymutex_type_beforelock (mymutex_getter_unlock t i s) in
      (
        freed,
        rw (e, unlock_inside) refl,
        Freed-size (mymutex_getter_unlock t i s) freed refl ∙ getter_unlock-size t i s,
        inr (λ u.
            Freed-owners (mymutex_getter_unlock t i s) freed (rw (getter_unlock-size t i s) h0) refl
              u
            ∙ ap (λ o. if 0 == u then none else o) (getter_unlock-owner t i s u h)),
      )
]
