-- ===== src/Log/Process.antt =====
-- `initlog` and `releaselog` of common/log.c, built for POSIX. What `msgget`, `fork` and
-- `pthread_mutexattr_setpshared` answer is an argument, and the reads of `msgrcv` come pass by pass.
pub mod Spec
use ktrpg.Base.{
  ℕ, zero, suc, Bool, true, false, not, Option, none, some, List, [], ◌∷◌, ◌++◌, if◌then◌else◌, ℤ,
  pos, negsuc, codes,
}
use ktrpg.Log.Write.{Effect, Ended, overrun, returned, Arrival, receive_all}

-- What they do outside, in this order: a line on stderr; the mutex of the log made in shared memory;
-- the line of the queue on stdout; the log process killed and waited for; the queue removed; the mutex
-- taken away.
pub data Action : Type 0 where
  perror : List ℕ → Action
  mutex_made : Action
  queue_printed : ℤ → Action
  killed : ℤ → Action
  waited : Action
  queue_removed : ℤ → Action
  mutex_removed : Action

-- `log_pid` and `log_msgqid`.
pub record Logger : Type 0 where
  pub log_pid : ℤ
  pub log_msgqid : ℤ

-- How `initlog` goes on after `fork`: it returns, or it reads the queue for ever.
pub data Started : Type 0 where
  returns : List Action → Logger → Started
  serves : List Action → (msgqid : ℤ) → Started

abbrev pub is_negative : ℤ → Bool
is_negative (pos _) = false
is_negative (negsuc _) = true

abbrev pub is_minus_one : ℤ → Bool
is_minus_one (negsuc zero) = true
is_minus_one _ = false

abbrev pub is_positive : ℤ → Bool
is_positive (pos (suc _)) = true
is_positive _ = false

-- From the creation of the queue to that of the mutex.
unfoldable pub set_up : ℤ → Bool → List Action
set_up created is_shared =
    (if is_minus_one created then perror (codes "log:msgget") ∷ [] else [])
    ++ ((if is_shared then [] else perror (codes "log:pthread_mutexattr_setpshared") ∷ [])
        ++ (mutex_made ∷ []))

-- `initlog`, with the answers of the first `msgget`, of `pthread_mutexattr_setpshared`, of `fork` and of
-- the second `msgget`. A `fork` that fails goes the way of the child.
unfoldable pub initlog : ℤ → Bool → ℤ → ℤ → Started
initlog created is_shared pid msgqid =
    if is_positive pid
    then returns
        (set_up created is_shared
          ++ ((if is_negative msgqid then perror (codes "msgget") ∷ [] else [])
              ++ (queue_printed msgqid ∷ [])))
        (record { log_pid = pid; log_msgqid = msgqid })
    else serves (set_up created is_shared) msgqid

-- A round of the `while (1)`: what it writes, and whether it sleeps after it.
unfoldable pub read_pass : Bool → List Arrival → Option (List Effect × Bool)
read_pass opens as' = elim (receive_all opens as') [
  | overrun ↦ none
  | returned got effects ↦ some (effects, not got)
]

-- The rounds of the `while (1)` that have been gone through; `none` where a read leaves its buffer.
unfoldable pub read_queue : Bool → List (List Arrival) → Option (List (List Effect × Bool))
read_queue opens [] = some []
read_queue opens (pass ∷ passes) =
    let rest = read_queue opens passes in
    elim (read_pass opens pass) [
      | none ↦ none
      | some round ↦ elim rest [ none ↦ none | some rounds ↦ some (round ∷ rounds) ]
    ]

unfoldable pub releaselog : Logger → List Action
releaselog l = killed l.log_pid ∷ (waited ∷ (queue_removed l.log_msgqid ∷ (mutex_removed ∷ [])))
