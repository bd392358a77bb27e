-- ===== src/Mutex/Unlock.antt =====
-- `mymutex_unlock` and `mymutex_getter_unlock` of common/mymutex.c.
pub mod Release
use ktrpg.Base.{
  ℕ, Bool, true, false, not, none, some, List, map, ◌==◌, leb, ltb, if◌then◌else◌, ℤ, pos, negsuc,
  decrement, replicate, zip_with, find_last_index,
}
use ktrpg.Mutex.Types.{
  Thread, Getter, Note, bad_type, not_locked, unlock_order, Store, mymutex_type_beforelock,
  mymutex_type_max, mmgetter_comment_max,
}
use ktrpg.Mutex.Deadlock.{getter_at}
use ktrpg.Mutex.Table.{
  Call, returned, blocked, spinning, ◌>>=◌, mutex_at, set_mutex, set_getter, add_note,
  pthread_mutex_lock, pthread_mutex_unlock, unlock_getter,
}

-- Every slot that holds the type is freed, with its comment.
abbrev pub clear_slot : ℕ → ℕ → ℕ
clear_slot t s = if s == t then 0 else s

abbrev pub clear_comment : ℕ → ℕ → List ℕ → List ℕ
clear_comment t s comment = if s == t then replicate mmgetter_comment_max 0 else comment

abbrev pub cleared : ℕ → Getter → Getter
cleared t g = record g {
  get_mutex_type = map (clear_slot t) g.get_mutex_type;
  comments = zip_with (clear_comment t) g.get_mutex_type g.comments;
}

-- `kk`, the last slot that held the type, and `maxk`, the last slot still in use; 0 if there is none.
abbrev pub last_or_zero : (ℕ → Bool) → List ℕ → ℕ
last_or_zero p slots = elim (find_last_index p slots) [ none ↦ 0 | some k ↦ k ]

-- `mymutex_getter_unlock`. The `if (MYMUTEX_NO)` that would free the getter never runs.
unfoldable pub mymutex_getter_unlock : ℕ → ℕ → Store → Store
mymutex_getter_unlock t i s =
    let m = mutex_at s t in
    let g = getter_at s.mmgetter i in
    let kk = last_or_zero (λ x. x == m.mutex_type) g.get_mutex_type in
    let maxk = last_or_zero (λ x. not (x == 0)) (cleared m.mutex_type g).get_mutex_type in
    let freed = set_getter i (cleared m.mutex_type g) (
      set_mutex t (record m { owner = none; mutex_lock_count = decrement m.mutex_lock_count }) s) in
    if ltb kk maxk
    then add_note (unlock_order (record { pid = g.process_id; tid = g.thread_id })) freed
    else freed

-- The call from where it owns BEFORELOCK.
unfoldable pub unlock_inside : Thread → ℕ → Store → Call
unlock_inside th t s = elim (unlock_getter th s.mmgetter) [
  | none ↦ returned (pthread_mutex_unlock mymutex_type_beforelock (add_note (not_locked th) s))
  | some i ↦ returned (pthread_mutex_unlock mymutex_type_beforelock (mymutex_getter_unlock t i s))
]

abbrev pub refuse : Thread → Store → Call
refuse th s = returned (add_note (bad_type th) s)

-- `mymutex_unlock`.
unfoldable pub mymutex_unlock : Thread → ℤ → Store → Call
mymutex_unlock th (negsuc _) s = refuse th s
mymutex_unlock th (pos t) s =
    if leb t mymutex_type_beforelock
    then refuse th s
    else (if leb mymutex_type_max t
        then refuse th s
        else (if s.g_beforelock
            then pthread_mutex_lock th mymutex_type_beforelock s >>= unlock_inside th t
            else returned (pthread_mutex_unlock t s)))
