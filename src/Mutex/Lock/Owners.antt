-- ===== src/Mutex/Lock/Owners.antt =====
-- Who owns which mutex, and what a `pthread_mutex_lock` that returns changes.
use ktrpg.Base.{
  ℕ, suc, ◌<◌, ◌≡◌, ◌≢◌, refl, ap, ◌∙◌, true, Option, none, some, List, [], ◌∷◌, arith, ◌==◌,
  if◌then◌else◌, length, length-set, get_or-set, get_or-set_keeps,
}
use ktrpg.Mutex.Types.{Thread, Mymutex, Getter, Store, blank_getter}
use ktrpg.Mutex.Deadlock.{getter_at}
use ktrpg.Mutex.Table.{
  Call, returned, ◌>>=◌, mutex_at, set_mutex, blank_mutex, pthread_mutex_lock, pthread_mutex_unlock,
}
use ktrpg.Mutex.Lock.{put, first_free, fill, settled, granted, scan_others}

abbrev pub owner_of : Store → ℕ → Option Thread
owner_of s t = (mutex_at s t).owner

abbrev pub type_of : Store → ℕ → ℕ
type_of s t = (mutex_at s t).mutex_type

abbrev pub slots_of : List Getter → ℕ → List ℕ
slots_of gs i = (getter_at gs i).get_mutex_type

-- The slots of a getter after a type was put into the first free one.
abbrev pub filled : ℕ → List ℕ → List ℕ
filled t slots = put (first_free slots) t slots

-- The loop over the other getters leaves `bbool` at MYMUTEX_YES.
pub scan_others_yes : (t mmindex i : ℕ) (gs : List Getter) → scan_others t mmindex i true gs ≡ true
unfolding scan_others
scan_others_yes t mmindex i [] = refl
scan_others_yes t mmindex i (g ∷ gs) = ground (arith, scan_others_yes t mmindex (suc i) gs)

-- Who owns what after a write to one mutex.
pub owner_of-set :
    (s : Store) (t u : ℕ) (m : Mymutex)
    → t < length s.mmutex
    → owner_of (set_mutex t m s) u ≡ (if t == u then m.owner else owner_of s u)
owner_of-set s t u m h = ground (arith, get_or-set s.mmutex t u m blank_mutex h)

pub owner_of-granted :
    (t i : ℕ) (comment : List ℕ) (s : Store) (u : ℕ)
    → owner_of (granted t i comment s) u ≡ owner_of s u
unfolding granted
owner_of-granted t i comment s u = get_or-set_keeps (λ m. m.owner) s.mmutex t u _ blank_mutex refl

pub slots_of-granted :
    (t i : ℕ) (comment : List ℕ) (s : Store) (j : ℕ)
    → i < length s.mmgetter
    → slots_of (granted t i comment s).mmgetter j
      ≡ (if i == j then filled (type_of s t) (slots_of s.mmgetter i) else slots_of s.mmgetter j)
unfolding granted
slots_of-granted t i comment s j h = ground (
  arith,
  get_or-set s.mmgetter i j (fill (type_of s t) comment (settled (getter_at s.mmgetter i)))
      blank_getter h,
)

pub length-granted :
    (t i : ℕ) (comment : List ℕ) (s : Store)
    → length (granted t i comment s).mmutex ≡ length s.mmutex
unfolding granted
length-granted t i comment s = length-set s.mmutex t _

-- What `pthread_mutex_lock` changes when it returns.
pub record Takes (th : Thread) (t : ℕ) (s s' : Store) : Type 0 where
  pub owners : (u : ℕ) → owner_of s' u ≡ (if t == u then some th else owner_of s u)
  pub size : length s'.mmutex ≡ length s.mmutex
  pub table : s'.mmgetter ≡ s.mmgetter
  pub notes : s'.notes ≡ s.notes
  pub types : (u : ℕ) → type_of s' u ≡ type_of s u

pub pthread_mutex_lock-Takes :
    (th : Thread) (t : ℕ) (s : Store)
    → owner_of s t ≡ none
    → t < length s.mmutex
    → (s' : Store) × (pthread_mutex_lock th t s ≡ returned s') × Takes th t s s'
unfolding pthread_mutex_lock
pthread_mutex_lock-Takes th t s free h = (
  set_mutex t (record (mutex_at s t) { owner = some th }) s,
  rw (free, pthread_mutex_lock),
  record {
    owners = λ u. owner_of-set s t u (record (mutex_at s t) { owner = some th }) h;
    size = length-set s.mmutex t (record (mutex_at s t) { owner = some th });
    table = refl;
    notes = refl;
    types = λ u. get_or-set_keeps (λ m. m.mutex_type) s.mmutex t u _ blank_mutex refl;
  },
)

-- A call that goes on after a `pthread_mutex_lock` that returns.
pub lock_then :
    (th : Thread) (t : ℕ) (s : Store) (f : Store → Call) (P : Store → Type 0)
    → owner_of s t ≡ none
    → t < length s.mmutex
    → ((s1 : Store) → Takes th t s s1 → (s' : Store) × (f s1 ≡ returned s') × P s')
    → (s' : Store) × ((pthread_mutex_lock th t s >>= f) ≡ returned s') × P s'
lock_then th t s f P free h k =
    let (s1, e1, took) = pthread_mutex_lock-Takes th t s free h in
    let (s', e, p) = k s1 took in (s', ap (λ c. c >>= f) e1 ∙ e, p)

pub owner_of-unlock :
    (s : Store) (t u : ℕ)
    → t < length s.mmutex
    → owner_of (pthread_mutex_unlock t s) u ≡ (if t == u then none else owner_of s u)
owner_of-unlock s t u h = owner_of-set s t u (record (mutex_at s t) { owner = none }) h

-- The two locks after BEFORELOCK is given up.
pub both_taken :
    (th : Thread) (t : ℕ) (s s0 s1 s2 : Store)
    → t ≢ 0
    → ((u : ℕ) → owner_of s0 u ≡ (if 0 == u then none else owner_of s u))
    → Takes th t s0 s1
    → Takes th 0 s1 s2
    → (u : ℕ)
    → owner_of s2 u ≡ (if 0 == u then some th else (if t == u then some th else owner_of s u))
both_taken th t s s0 s1 s2 ne given k1 k2 u = ground (arith, given u, k1.owners u, k2.owners u)
