-- ===== src/Mutex/Frame.antt =====
-- What no call of common/mymutex.c changes: the number and the types of the mutexes, the order list
-- and the use of BEFORELOCK.
use ktrpg.Base.{
  ℕ, ◌≡◌, refl, ◌∙◌, inl, inr, Bool, true, false, List, [], ◌∷◌, ℤ, pos, negsuc, leb, if◌then◌else◌,
  Option-cases, length, length-set, get_or-set_keeps,
}
use ktrpg.Mutex.Types.{Thread, Mymutex, Getter, Note, Store, dead_lock}
use ktrpg.Mutex.Deadlock.{is_dead_lock}
use ktrpg.Mutex.Table.{
  Call, returned, blocked, spinning, ◌>>=◌, mutex_at, set_mutex, add_note, blank_mutex,
  pthread_mutex_lock, pthread_mutex_unlock, obtain_getter, unlock_getter,
}
use ktrpg.Mutex.Lock.{
  granted, set_wait, mymutex_getter_lock, note_order, order_ok, lock_searched, lock_held,
  lock_inside, mymutex_lock,
}
use ktrpg.Mutex.Lock.Owners.{type_of}
use ktrpg.Mutex.Lock.Acquire.Call.{lock_inside-obtained, lock_inside-none}
use ktrpg.Mutex.Unlock.{mymutex_getter_unlock, unlock_inside, mymutex_unlock}
use ktrpg.Mutex.Identity.Full.{Request, lock, unlock, answer, answer_all}

pub record Frame (s s' : Store) : Type 0 where
  pub size : length s'.mmutex ≡ length s.mmutex
  pub types : (u : ℕ) → type_of s' u ≡ type_of s u
  pub order : s'.mmjyunban ≡ s.mmjyunban
  pub mode : s'.g_beforelock ≡ s.g_beforelock

-- The store that a call leaves, whether it returns or blocks, satisfies `P`.
abbrev pub After : (Store → Type 0) → Call → Type 0
After P (returned s) = P s
After P (blocked s) = P s
After P spinning = Unit

pub After-bind :
    (P : Store → Type 0) (m : Call) (f : Store → Call)
    → After P m
    → ((s : Store) → P s → After P (f s))
    → After P (m >>= f)
After-bind P (returned s) f h k = k s h
After-bind P (blocked s) f h k = h
After-bind P spinning f h k = tt

After-if :
    (P : Store → Type 0) (b : Bool) (x y : Call)
    → After P x
    → After P y
    → After P (if b then x else y)
After-if P true x y h k = h
After-if P false x y h k = k

module _ (base : Store) where
  abbrev F : Store → Type 0
  F s = Frame base s

  -- A write to a mutex that keeps its type.
  set_mutex-Frame :
      (t : ℕ) (m : Mymutex) (s : Store) → F s → m.mutex_type ≡ type_of s t → F (set_mutex t m s)
  set_mutex-Frame t m s h e = record {
    size = length-set s.mmutex t m ∙ h.size;
    types = λ u. get_or-set_keeps (λ x. x.mutex_type) s.mmutex t u m blank_mutex e ∙ h.types u;
    order = h.order;
    mode = h.mode;
  }

  -- A write to the getters or to the log.
  others-Frame :
      (gs : List Getter) (ns : List Note) (s : Store)
      → F s
      → F (record s { mmgetter = gs; notes = ns })
  others-Frame gs ns s h = record { size = h.size; types = h.types; order = h.order; mode = h.mode }

  either-Frame : (b : Bool) (x y : Store) → F x → F y → F (if b then x else y)
  either-Frame true x y h k = h
  either-Frame false x y h k = k

  pthread-Frame : (th : Thread) (t : ℕ) (s : Store) → F s → After F (pthread_mutex_lock th t s)
  unfolding pthread_mutex_lock
  pthread-Frame th t s h = elim (Option-cases (mutex_at s t).owner) [
    | inl e ↦ rw (e, pthread_mutex_lock) (set_mutex-Frame t _ s h refl)
    | inr (o, e) ↦ rw (e, pthread_mutex_lock) h
  ]

  release-Frame : (t : ℕ) (s : Store) → F s → F (pthread_mutex_unlock t s)
  release-Frame t s h = set_mutex-Frame t _ s h refl

  getter_lock-Frame :
      (th : Thread) (t i : ℕ) (comment : List ℕ) (s : Store)
      → F s
      → After F (mymutex_getter_lock th t i comment s)
  unfolding mymutex_getter_lock granted
  getter_lock-Frame th t i comment s h =
      After-bind F _ _ (pthread-Frame th t _ (release-Frame 0 _ (others-Frame _ _ s h))) λ s1 h1.
        After-bind F _ _ (pthread-Frame th 0 s1 h1)
          λ s2 h2. others-Frame _ _ _ (set_mutex-Frame t _ s2 h2 refl)

  note_order-Frame : (th : Thread) (i : ℕ) (s : Store) → F s → F (note_order th i s)
  note_order-Frame th i s h = either-Frame (order_ok i s) s _ h (others-Frame _ _ s h)

  lock_searched-Frame :
      (fuel : ℕ) (th : Thread) (t i : ℕ) (comment : List ℕ) (s : Store)
      → F s
      → After F (lock_searched fuel th t i comment s)
  unfolding lock_searched
  lock_searched-Frame fuel th t i comment s h =
      elim (Option-cases (is_dead_lock fuel i (set_wait i t s).mmgetter)) [
        | inl e ↦ rw (e, lock_searched) tt
        | inr ((answer, table), e) ↦
            rw (e, lock_searched)
              (After-bind F _ _
                (getter_lock-Frame th t i comment _ (
                  either-Frame answer
                    (add_note (dead_lock th) (record (set_wait i t s) { mmgetter = table }))
                    (record (set_wait i t s) { mmgetter = table }) (others-Frame _ _ s h)
                    (others-Frame _ _ s h)))
                (λ owns h'. release-Frame 0 _ (note_order-Frame th i owns h')))
      ]

  lock_inside-Frame :
      (fuel : ℕ) (th : Thread) (t : ℕ) (comment : List ℕ) (s : Store)
      → F s
      → After F (lock_inside fuel th t comment s)
  unfolding lock_held
  lock_inside-Frame fuel th t comment s h = elim (Option-cases (obtain_getter th t s.mmgetter)) [
    | inl e ↦ rw (lock_inside-none fuel th t comment s e) (release-Frame 0 _ (others-Frame _ _ s h))
    | inr ((i, gs), e) ↦ rw (lock_inside-obtained fuel th t i comment s gs e) (
        lock_searched-Frame fuel th t i comment _ (note_order-Frame th i _ (others-Frame gs _ s h)))
  ]

  lock-Frame :
      (fuel : ℕ) (th : Thread) (mutex_type : ℤ) (comment : List ℕ) (s : Store)
      → F s
      → After F (mymutex_lock fuel th mutex_type comment s)
  unfolding mymutex_lock
  lock-Frame fuel th (negsuc n) comment s h = others-Frame _ _ s h
  lock-Frame fuel th (pos t) comment s h = After-if F (leb t 0) _ _ (others-Frame _ _ s h) (
      After-if F (leb 3 t) _ _ (others-Frame _ _ s h) (
        After-if F s.g_beforelock _ _
          (After-bind F _ _ (pthread-Frame th 0 s h) (lock_inside-Frame fuel th t comment))
          (pthread-Frame th t s h)))

  getter_unlock-Frame : (t i : ℕ) (s : Store) → F s → F (mymutex_getter_unlock t i s)
  unfolding mymutex_getter_unlock
  getter_unlock-Frame t i s h =
      either-Frame _ _ _ (others-Frame _ _ _ (set_mutex-Frame t _ s h refl))
        (others-Frame _ _ _ (set_mutex-Frame t _ s h refl))

  unlock_inside-Frame : (th : Thread) (t : ℕ) (s : Store) → F s → After F (unlock_inside th t s)
  unfolding unlock_inside
  unlock_inside-Frame th t s h = elim (Option-cases (unlock_getter th s.mmgetter)) [
    | inl e ↦ rw (e, unlock_inside) (release-Frame 0 _ (others-Frame _ _ s h))
    | inr (i, e) ↦ rw (e, unlock_inside) (release-Frame 0 _ (getter_unlock-Frame t i s h))
  ]

  unlock-Frame :
      (th : Thread) (mutex_type : ℤ) (s : Store) → F s → After F (mymutex_unlock th mutex_type s)
  unfolding mymutex_unlock
  unlock-Frame th (negsuc n) s h = others-Frame _ _ s h
  unlock-Frame th (pos t) s h = After-if F (leb t 0) _ _ (others-Frame _ _ s h) (
      After-if F (leb 3 t) _ _ (others-Frame _ _ s h) (
        After-if F s.g_beforelock _ _
          (After-bind F _ _ (pthread-Frame th 0 s h) (unlock_inside-Frame th t))
          (release-Frame t s h)))

  requests-Frame : (fuel : ℕ) (rs : List Request) (s : Store) → F s → After F (answer_all fuel rs s)
  unfolding answer_all answer
  requests-Frame fuel [] s h = h
  requests-Frame fuel (lock th t comment ∷ rs) s h =
      After-bind F _ _ (lock-Frame fuel th t comment s h) (requests-Frame fuel rs)
  requests-Frame fuel (unlock th t ∷ rs) s h =
      After-bind F _ _ (unlock-Frame th t s h) (requests-Frame fuel rs)

pub Frame-refl : (s : Store) → Frame s s
Frame-refl s = record { size = refl; types = λ u. refl; order = refl; mode = refl }

pub mymutex_lock-Frame :
    (fuel : ℕ) (th : Thread) (mutex_type : ℤ) (comment : List ℕ) (s : Store)
    → After (Frame s) (mymutex_lock fuel th mutex_type comment s)
mymutex_lock-Frame fuel th mutex_type comment s =
    lock-Frame s fuel th mutex_type comment s (Frame-refl s)

-- Calls of any threads, one after another, also where the last one blocks, leave the number and the
-- types of the mutexes, the order list and the use of BEFORELOCK as they were.
pub answer_all-Frame :
    (fuel : ℕ) (rs : List Request) (s : Store) → After (Frame s) (answer_all fuel rs s)
answer_all-Frame fuel rs s = requests-Frame s fuel rs s (Frame-refl s)
