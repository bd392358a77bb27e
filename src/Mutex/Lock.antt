-- ===== src/Mutex/Lock.antt =====
-- `mymutex_lock` and `mymutex_getter_lock` of common/mymutex.c, as one thread runs them.
pub mod Owners
pub mod Acquire
pub mod Room
use ktrpg.Base.{
  ℕ, suc, Bool, true, false, not, ◌&&◌, Option, none, some, List, [], ◌∷◌, ◌==◌, leb, if◌then◌else◌,
  ℤ, pos, negsuc, increment, set, find_index,
}
use ktrpg.Mutex.Types.{
  Thread, Getter, Note, bad_type, no_getter, lock_order, dead_lock, Store, mymutex_type_beforelock,
  mymutex_type_max,
}
use ktrpg.Mutex.Deadlock.{getter_at, holds, is_dead_lock}
use ktrpg.Mutex.Order.{is_lock_jyunban_ok}
use ktrpg.Mutex.Table.{
  Call, returned, blocked, spinning, ◌>>=◌, mutex_at, set_mutex, set_getter, add_note,
  pthread_mutex_lock, pthread_mutex_unlock, obtain_getter,
}

-- What the call does to the getter and to the count once it owns the mutex: the first free slot
-- takes the type and the comment.
abbrev pub first_free : List ℕ → Option ℕ
first_free = find_index (λ s. s == 0)

abbrev pub put {ℓ} : {A : Type ℓ} → Option ℕ → A → List A → List A
put none v xs = xs
put (some k) v xs = set xs k v

abbrev pub fill : ℕ → List ℕ → Getter → Getter
fill t comment g = record g {
  get_mutex_type = put (first_free g.get_mutex_type) t g.get_mutex_type;
  comments = put (first_free g.get_mutex_type) comment g.comments;
}

abbrev pub settled : Getter → Getter
settled g = record g { is_waited = false; counted = false; wait_mutex_type = 0 }

unfoldable pub granted : ℕ → ℕ → List ℕ → Store → Store
granted t i comment s =
    let m = mutex_at s t in
    set_getter i (fill m.mutex_type comment (settled (getter_at s.mmgetter i)))
      (set_mutex t (record m { mutex_lock_count = increment m.mutex_lock_count }) s)

abbrev pub set_wait : ℕ → ℕ → Store → Store
set_wait i t s =
    set_getter i (record (getter_at s.mmgetter i) { is_waited = true; wait_mutex_type = t }) s

-- `mymutex_getter_lock`: BEFORELOCK is given up while the caller waits for the mutex.
unfoldable pub mymutex_getter_lock : Thread → ℕ → ℕ → List ℕ → Store → Call
mymutex_getter_lock th t i comment s = do
  waits ←
      pthread_mutex_lock th t
        (pthread_mutex_unlock mymutex_type_beforelock (set_wait i (mutex_at s t).mutex_type s))
  owns ← pthread_mutex_lock th mymutex_type_beforelock waits
  returned (granted t i comment owns)

-- The value of `(bbool = MYMUTEX_YES)`, an assignment where a comparison was meant.
abbrev pub assigned_yes : Bool → Bool
assigned_yes bbool = true

-- The loop over the other getters: `bbool` as it is left, from its value before getter number `i`.
unfoldable pub scan_others : ℕ → ℕ → ℕ → Bool → List Getter → Bool
scan_others t mmindex i bbool [] = bbool
scan_others t mmindex i bbool (g ∷ gs) =
    let rest = scan_others t mmindex (suc i) bbool gs in
    if g.is_used && not (i == mmindex)
    then (let found = holds t g.get_mutex_type in
        let again = scan_others t mmindex (suc i) found gs in
        if assigned_yes found then true else again)
    else rest

abbrev pub order_ok : ℕ → Store → Bool
order_ok i s = is_lock_jyunban_ok s.mmjyunban (getter_at s.mmgetter i).get_mutex_type

abbrev pub note_order : Thread → ℕ → Store → Store
note_order th i s = if order_ok i s then s else add_note (lock_order th) s

-- The end of the call where `bbool` is MYMUTEX_NO.
unfoldable pub lock_unheld : Thread → ℕ → ℕ → List ℕ → Store → Call
lock_unheld th t i comment s =
    if order_ok i s
    then (do
      owns ← mymutex_getter_lock th t i comment (set_wait i t s)
      returned (pthread_mutex_unlock mymutex_type_beforelock owns))
    else returned (pthread_mutex_unlock mymutex_type_beforelock (add_note (lock_order th) s))

-- From the wait being set, through the search for a deadlock, to the end of the call.
unfoldable pub lock_searched : ℕ → Thread → ℕ → ℕ → List ℕ → Store → Call
lock_searched fuel th t i comment s =
    let asked = set_wait i t s in
    elim (is_dead_lock fuel i asked.mmgetter) [
      | none ↦ spinning
      | some (answer, table) ↦ do
        let searched = record asked { mmgetter = table }
        owns ←
            mymutex_getter_lock th t i comment
              (if answer then add_note (dead_lock th) searched else searched)
        returned (pthread_mutex_unlock mymutex_type_beforelock (note_order th i owns))
    ]

-- The end of the call where `bbool` is MYMUTEX_YES.
unfoldable pub lock_held : ℕ → Thread → ℕ → ℕ → List ℕ → Store → Call
lock_held fuel th t i comment s = lock_searched fuel th t i comment (note_order th i s)

-- The call from where it owns BEFORELOCK.
unfoldable pub lock_inside : ℕ → Thread → ℕ → List ℕ → Store → Call
lock_inside fuel th t comment s = elim (obtain_getter th t s.mmgetter) [
  | none ↦ returned (pthread_mutex_unlock mymutex_type_beforelock (add_note (no_getter th) s))
  | some (i, gs) ↦
      let s' = record s { mmgetter = gs } in
      if scan_others t i 0 true gs
      then lock_held fuel th t i comment s'
      else lock_unheld th t i comment s'
]

abbrev pub refuse : Thread → Store → Call
refuse th s = returned (add_note (bad_type th) s)

-- `mymutex_lock`, with the rounds that the search for a deadlock may take.
unfoldable pub mymutex_lock : ℕ → Thread → ℤ → List ℕ → Store → Call
mymutex_lock fuel th (negsuc _) comment s = refuse th s
mymutex_lock fuel th (pos t) comment s =
    if leb t mymutex_type_beforelock
    then refuse th s
    else (if leb mymutex_type_max t
        then refuse th s
        else (if s.g_beforelock
            then pthread_mutex_lock th mymutex_type_beforelock s >>= lock_inside fuel th t comment
            else pthread_mutex_lock th t s))
