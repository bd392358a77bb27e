-- ===== src/Mutex/Program.antt =====
-- `main` of common/mymutex.c: two processes that lock ACCOUNT and DBQUE in opposite orders. A turn is a
-- step of one process; what the calls do is that of Mutex/System. The comments are the literals of
-- the code; what `mymutex_getter_lock` reads past the end of them is left out. `initlog`, which comes
-- first, is in Log/Process.
pub mod Asks
pub mod Between
pub mod Reached
pub mod Spec
pub mod Movers
pub mod Reports
pub mod Answers
pub mod Awake
pub mod Turns
pub mod Stops
use ktrpg.Base.{
  ℕ, ◌≡◌, ◌≢◌, Bool, true, false, not, ◌&&◌, ◌||◌, ◌==◌, if◌then◌else◌, some, List, [], ◌∷◌, ◌++◌,
  codes,
}
use ktrpg.Mutex.Types.{Thread, Store, max_mutex_num, mymutex_type_account, mymutex_type_dbque}
use ktrpg.Mutex.Order.{count_up}
use ktrpg.Mutex.System.{idle, asks_lock, asks_unlock, Local, at, update, IsMutex, Move, System}
use ktrpg.Mutex.System.Ready.{initial}

-- What the processes do besides: the sleeps, the lines for the log, the end of the child, and what
-- `release_mymutex` and `releaselog` do.
pub data Action : Type 0 where
  sleeps : (seconds : ℕ) → Action
  logs : (log_user log_type : ℕ) → (text : List ℕ) → Action
  kills_child : Action
  waits_for_child : Action
  unmaps_memory : Action
  unlinks_memory : (name : List ℕ) → Action
  releases_log : Action

pub data Command : Type 0 where
  locks : (mutex_type : ℕ) → (comment : List ℕ) → Command
  unlocks : (mutex_type : ℕ) → (comment : List ℕ) → Command
  does : Action → Command

abbrev pub then_does : List Action → List Command
then_does [] = []
then_does (a ∷ as') = does a ∷ then_does as'

abbrev pub release_mymutex : List Action
release_mymutex = unmaps_memory ∷ (unlinks_memory (codes "/shmmymutex") ∷ [])

-- The parent, from after its second lock.
abbrev pub parent_end : List Command
parent_end =
    does (sleeps 4)
    ∷ (unlocks mymutex_type_dbque (codes "dbque oyare")
        ∷ (unlocks mymutex_type_account (codes "acc oyare")
            ∷ (does (sleeps 5)
                ∷ (does kills_child
                    ∷ (does waits_for_child
                        ∷ (does (sleeps 2)
                            ∷ then_does (release_mymutex ++ (releases_log ∷ []))))))))

abbrev pub parent_commands : List Command
parent_commands =
    locks mymutex_type_account (codes "oyaccountlo")
    ∷ (does (sleeps 1) ∷ (locks mymutex_type_dbque (codes "oydbquelo") ∷ parent_end))

-- The child, from after its second lock.
abbrev pub child_end : List Command
child_end =
    does (sleeps 1)
    ∷ (unlocks mymutex_type_account (codes "ko accque")
        ∷ (unlocks mymutex_type_dbque (codes "ko dbque") ∷ []))

abbrev pub child_commands : List Command
child_commands =
    does (logs 0 4 (codes "testdesu"))
    ∷ (does (logs 0 1 (codes "testdesuyo\n"))
        ∷ (does (logs 0 5 (codes "teet"))
            ∷ (locks mymutex_type_dbque (codes "kodbquelo")
                ∷ (does (sleeps 1)
                    ∷ (locks mymutex_type_account (codes "koaccountlo") ∷ child_end)))))

abbrev pub parent_no : ℕ
parent_no = 0

abbrev pub child_no : ℕ
child_no = 1

-- What each process has still to do after `fork`; where it fails, the one process goes the way of the
-- child.
abbrev pub commands : Bool → ℕ → List Command
commands forked n =
    if n == parent_no
    then (if forked then parent_commands else child_commands)
    else (if (n == child_no) && forked then child_commands else [])

-- The processes: what each has still to do, and has done besides its calls; where they are in their calls,
-- with the tables; and whether the child has been killed.
pub record Processes : Type 0 where
  pub rest : ℕ → List Command
  pub done : ℕ → List Action
  pub system : System
  pub killed : Bool

-- After `init_mymutex`, with the order 0, 1, ..., and `fork`.
abbrev pub after_fork : Bool → Store → Processes
after_fork forked s = record {
  rest = commands forked;
  done = λ n. [];
  system = initial (some (count_up 0 max_mutex_num)) s;
  killed = false;
}

abbrev pub can_run : Processes → ℕ → Bool
can_run p n = not (p.killed && (n == child_no))

-- A step of process `n` within a call.
abbrev pub stepped : ℕ → Local → Store → Processes → Processes
stepped n l s p = record p { system = record { local = update p.system.local n l; store = s } }

-- Process `n` goes into a call, and has `more` to do after it.
abbrev pub called : ℕ → List Command → Local → Processes → Processes
called n more l p = record (stepped n l p.system.store p) { rest = update p.rest n more }

abbrev pub is_kill : Action → Bool
is_kill kills_child = true
is_kill _ = false

abbrev pub acted : ℕ → List Command → Action → Processes → Processes
acted n more a p = record p {
  rest = update p.rest n more;
  done = update p.done n (p.done n ++ (a ∷ []));
  killed = p.killed || is_kill a;
}

-- What a process has got it may unlock; no step within a call asks for this.
abbrev pub has_got : Local → ℕ → Bool
has_got l t = l.has t

-- A process goes on in its call, or takes its next command. `wait` comes after `kill`, and so returns.
pub data Turn (fuel : ℕ) (who : ℕ → Thread) (p q : Processes) : Type 0 where
  goes_on :
      (n : ℕ) (l : Local) (s : Store)
      → can_run p n ≡ true
      → (p.system.local n).place ≢ idle
      → Move fuel has_got (who n) (p.system.local n) p.system.store l s
      → q ≡ stepped n l s p
      → Turn fuel who p q
  takes_lock :
      (n t : ℕ) (comment : List ℕ) (more : List Command)
      → can_run p n ≡ true
      → (p.system.local n).place ≡ idle
      → p.rest n ≡ locks t comment ∷ more
      → IsMutex t
      → q ≡ called n more (at (asks_lock t comment) (p.system.local n)) p
      → Turn fuel who p q
  takes_unlock :
      (n t : ℕ) (comment : List ℕ) (more : List Command)
      → can_run p n ≡ true
      → (p.system.local n).place ≡ idle
      → p.rest n ≡ unlocks t comment ∷ more
      → IsMutex t
      → q
        ≡ called n more
            (record { place = asks_unlock t; has = update (p.system.local n).has t false })
            p
      → Turn fuel who p q
  takes_action :
      (n : ℕ) (a : Action) (more : List Command)
      → can_run p n ≡ true
      → (p.system.local n).place ≡ idle
      → p.rest n ≡ does a ∷ more
      → q ≡ acted n more a p
      → Turn fuel who p q

pub data Runs (fuel : ℕ) (who : ℕ → Thread) (p : Processes) : Processes → Type 0 where
  here : Runs fuel who p p
  later : {q r : Processes} → Runs fuel who p q → Turn fuel who q r → Runs fuel who p r
