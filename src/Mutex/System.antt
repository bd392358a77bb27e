-- ===== src/Mutex/System.antt =====
-- Threads that call `mymutex_lock` and `mymutex_unlock` of common/mymutex.c, each at its place in a
-- call: a step runs one thread from a `pthread_mutex_lock` to the next. Which unlocks the callers ask
-- for is a parameter.
pub mod Owned
pub mod Moves
pub mod Invariant
pub mod Safety
pub mod Progress
pub mod Refine
pub mod Stuck
pub mod Slots
pub mod Getters
pub mod Flags
pub mod Ring
pub mod Cycle
pub mod Noted
pub mod Blocks
pub mod Ready
pub mod Good
pub mod Found
pub mod Honest
pub mod Verdict
use ktrpg.Base.{ℕ, ◌<◌, ◌≡◌, ◌≢◌, Bool, true, false, List, ◌==◌, if◌then◌else◌}
use ktrpg.Mutex.Types.{Thread, Store, mymutex_type_max, mymutex_type_beforelock}
use ktrpg.Mutex.Table.{returned, pthread_mutex_lock}
use ktrpg.Mutex.Unlock.{unlock_inside}
use ktrpg.Mutex.Stage.{refused, spins, waits, begin_lock, end_lock}

-- Where a thread is: outside; before BEFORELOCK, inside it, or in `isDeadLock` for good; waiting for the
-- mutex, owning it, or owning BEFORELOCK as well; before or inside BEFORELOCK in an unlock.
pub data Place : Type 0 where
  idle : Place
  asks_lock : ℕ → List ℕ → Place
  inside_lock : ℕ → List ℕ → Place
  searching : Place
  wants : (t i : ℕ) → Bool → List ℕ → Place
  owns : (t i : ℕ) → Bool → List ℕ → Place
  settles : (t i : ℕ) → Bool → List ℕ → Place
  asks_unlock : ℕ → Place
  inside_unlock : ℕ → Place

-- A thread's place, and what its calls of `mymutex_lock` have got and it has not begun to unlock.
pub record Local : Type 0 where
  pub place : Place
  pub has : ℕ → Bool

abbrev pub at : Place → Local → Local
at p l = record l { place = p }

abbrev pub update {ℓ} : {A : Type ℓ} → (ℕ → A) → ℕ → A → ℕ → A
update f i v j = if i == j then v else f j

abbrev pub IsMutex : ℕ → Type 0
IsMutex t = (t ≢ 0) × (t < mymutex_type_max)

-- `may l t` tells that a thread in state `l` may call `mymutex_unlock` for `t`. Callers are orderly who
-- unlock only what their calls of `mymutex_lock` have got.
abbrev pub IsOrderly : (Local → ℕ → Bool) → Type 0
IsOrderly may = (l : Local) (t : ℕ) → may l t ≡ true → l.has t ≡ true

-- A step of thread `th`.
pub data Move (fuel : ℕ) (may : Local → ℕ → Bool) (th : Thread) (l : Local) (s : Store) (l' : Local)
    (s' : Store) : Type 0 where
  call_lock :
      (t : ℕ) (comment : List ℕ)
      → l.place ≡ idle
      → IsMutex t
      → l' ≡ at (asks_lock t comment) l
      → s' ≡ s
      → Move fuel may th l s l' s'
  enter_lock :
      (t : ℕ) (comment : List ℕ)
      → l.place ≡ asks_lock t comment
      → pthread_mutex_lock th mymutex_type_beforelock s ≡ returned s'
      → l' ≡ at (inside_lock t comment) l
      → Move fuel may th l s l' s'
  give_up :
      (t : ℕ) (comment : List ℕ)
      → l.place ≡ inside_lock t comment
      → begin_lock fuel th t s ≡ refused s'
      → l' ≡ at idle l
      → Move fuel may th l s l' s'
  hang :
      (t : ℕ) (comment : List ℕ)
      → l.place ≡ inside_lock t comment
      → begin_lock fuel th t s ≡ spins
      → l' ≡ at searching l
      → s' ≡ s
      → Move fuel may th l s l' s'
  begin :
      (t i : ℕ) (bbool : Bool) (comment : List ℕ)
      → l.place ≡ inside_lock t comment
      → begin_lock fuel th t s ≡ waits i bbool s'
      → l' ≡ at (wants t i bbool comment) l
      → Move fuel may th l s l' s'
  take :
      (t i : ℕ) (bbool : Bool) (comment : List ℕ)
      → l.place ≡ wants t i bbool comment
      → pthread_mutex_lock th t s ≡ returned s'
      → l' ≡ at (owns t i bbool comment) l
      → Move fuel may th l s l' s'
  return_to :
      (t i : ℕ) (bbool : Bool) (comment : List ℕ)
      → l.place ≡ owns t i bbool comment
      → pthread_mutex_lock th mymutex_type_beforelock s ≡ returned s'
      → l' ≡ at (settles t i bbool comment) l
      → Move fuel may th l s l' s'
  end :
      (t i : ℕ) (bbool : Bool) (comment : List ℕ)
      → l.place ≡ settles t i bbool comment
      → s' ≡ end_lock th t i bbool comment s
      → l' ≡ record { place = idle; has = update l.has t true }
      → Move fuel may th l s l' s'
  call_unlock :
      (t : ℕ)
      → l.place ≡ idle
      → IsMutex t
      → may l t ≡ true
      → l' ≡ record { place = asks_unlock t; has = update l.has t false }
      → s' ≡ s
      → Move fuel may th l s l' s'
  enter_unlock :
      (t : ℕ)
      → l.place ≡ asks_unlock t
      → pthread_mutex_lock th mymutex_type_beforelock s ≡ returned s'
      → l' ≡ at (inside_unlock t) l
      → Move fuel may th l s l' s'
  leave :
      (t : ℕ)
      → l.place ≡ inside_unlock t
      → unlock_inside th t s ≡ returned s'
      → l' ≡ at idle l
      → Move fuel may th l s l' s'

-- The threads by number, and the tables that they share.
pub record System : Type 0 where
  pub local : ℕ → Local
  pub store : Store

abbrev pub outside : Local
outside = record { place = idle; has = λ t. false }

pub data Step (fuel : ℕ) (may : Local → ℕ → Bool) (who : ℕ → Thread) (x y : System) : Type 0 where
  moves :
      (n : ℕ) (l : Local)
      → Move fuel may (who n) (x.local n) x.store l y.store
      → y.local ≡ update x.local n l
      → Step fuel may who x y

pub data Reach (fuel : ℕ) (may : Local → ℕ → Bool) (who : ℕ → Thread) (x : System)
    : System → Type 0 where
  here : Reach fuel may who x x
  later : {y z : System} → Reach fuel may who x y → Step fuel may who y z → Reach fuel may who x z
