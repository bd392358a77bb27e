-- ===== src/Tests/Scenario.antt =====
-- Threads that lock one mutex after the other with `mymutex_lock` of common/mymutex.c, step by step.
use ktrpg.Base.{ℕ, ◌≡◌, refl, ap, Bool, true, false, none, some, arith, ◌==◌, ◌&&◌, ◌∙◌}
use ktrpg.Mutex.Types.{Thread, Store}
use ktrpg.Mutex.Table.{returned, mutex_at, set_mutex, pthread_mutex_lock}
use ktrpg.Mutex.Lock.Owners.{owner_of}
use ktrpg.Mutex.Stage.{Began, refused, spins, waits, begin_lock, end_lock}
use ktrpg.Mutex.System.{
  idle, inside_lock, asks_lock, wants, owns, settles, Local, at, update, System, moves, Reach,
  later, IsMutex, call_lock, enter_lock, begin, take, return_to, end,
}
use ktrpg.Mutex.System.Progress.{update_self}
use ktrpg.Tests.MutexRuns.{comment}
use ktrpg.Tests.SystemRuns.{who, own}

abbrev pub locked : Thread → ℕ → Store → Store
locked th t s = set_mutex t (record (mutex_at s t) { owner = some th }) s

abbrev pub waiting : Began → Store → Store
waiting (refused s) s' = s
waiting spins s' = s'
waiting (waits i b s) s' = s

-- Thread `n` is at `l`, and the tables are `s`.
abbrev pub then_at : ℕ → System → Local → Store → System
then_at n x l s = record { local = update x.local n l; store = s }

-- Thread `n` calls `mymutex_lock` for `t`, and waits for it.
abbrev pub asked : ℕ → ℕ → System → System
asked n t x = then_at n x (at (asks_lock t comment) (x.local n)) x.store

abbrev pub entered : ℕ → ℕ → System → System
entered n t x =
    let y = asked n t x in
    then_at n y (at (inside_lock t comment) (y.local n)) (locked (who n) 0 y.store)

abbrev pub wanting : ℕ → ℕ → ℕ → System → System
wanting n t i x =
    let y = entered n t x in
    then_at n y (at (wants t i true comment) (y.local n))
      (waiting (begin_lock 3 (who n) t y.store) y.store)

-- It gets the mutex, and returns.
abbrev pub taking : ℕ → ℕ → ℕ → System → System
taking n t i x =
    let y = wanting n t i x in
    then_at n y (at (owns t i true comment) (y.local n)) (locked (who n) t y.store)

abbrev pub settling : ℕ → ℕ → ℕ → System → System
settling n t i x =
    let y = taking n t i x in
    then_at n y (at (settles t i true comment) (y.local n)) (locked (who n) 0 y.store)

abbrev pub got : ℕ → ℕ → ℕ → System → System
got n t i x =
    let y = settling n t i x in
    then_at n y (record { place = idle; has = update (y.local n).has t true })
      (end_lock (who n) t i true comment y.store)

-- A mutex that nobody owns is got.
pub lock_free :
    (th : Thread) (t : ℕ) (s : Store)
    → owner_of s t ≡ none
    → pthread_mutex_lock th t s ≡ returned (locked th t s)
unfolding pthread_mutex_lock
lock_free th t s free = rw (free, pthread_mutex_lock) refl

pub place_of : (x : System) (n : ℕ) (l : Local) → (update x.local n l n).place ≡ l.place
place_of x n l = ap (λ (a : Local). a.place) (update_self x.local n l)

abbrev pub does_wait : ℕ → Began → Bool
does_wait i (waits j b s) = (i == j) && b
does_wait i _ = false

pub does_wait_lem :
    (i : ℕ) (b : Began) (s : Store) → does_wait i b ≡ true → b ≡ waits i true (waiting b s)
does_wait_lem i (refused x) s h = cc
does_wait_lem i spins s h = cc
does_wait_lem i (waits j b x) s h =
    ap (λ k. waits k b x) (ground arith) ∙ ap (λ c. waits i c x) (ground arith)

pub to_entered :
    (n t : ℕ) (x y : System)
    → Reach 3 own who y x
    → (x.local n).place ≡ idle
    → IsMutex t
    → owner_of x.store 0 ≡ none
    → Reach 3 own who y (entered n t x)
to_entered n t x y r p ok free =
    later (later r (moves n _ (call_lock t comment p ok refl refl) refl)) (
      moves n _ (enter_lock t comment (place_of x n _) (lock_free (who n) 0 x.store free) refl)
        refl)

pub to_wanting :
    (n t i : ℕ) (x y : System)
    → Reach 3 own who y x
    → (x.local n).place ≡ idle
    → IsMutex t
    → owner_of x.store 0 ≡ none
    → does_wait i (begin_lock 3 (who n) t (entered n t x).store) ≡ true
    → Reach 3 own who y (wanting n t i x)
to_wanting n t i x y r p ok free e = later (to_entered n t x y r p ok free) (
    moves n _ (begin t i true comment (place_of (asked n t x) n _) (does_wait_lem i _ _ e) refl)
      refl)

pub to_got :
    (n t i : ℕ) (x y : System)
    → Reach 3 own who y (wanting n t i x)
    → owner_of (wanting n t i x).store t ≡ none
    → owner_of (taking n t i x).store 0 ≡ none
    → Reach 3 own who y (got n t i x)
to_got n t i x y r free free_now =
    later
      (later
        (later r (
          moves n _
            (take t i true comment (place_of (entered n t x) n _) (lock_free (who n) t _ free) refl)
            refl))
        (moves n _
          (return_to t i true comment (place_of (wanting n t i x) n _)
            (lock_free (who n) 0 _ free_now) refl)
          refl))
      (moves n _ (end t i true comment (place_of (taking n t i x) n _) refl refl) refl)
