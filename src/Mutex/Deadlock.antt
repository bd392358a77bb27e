-- ===== src/Mutex/Deadlock.antt =====
-- `isDeadLock` of common/mymutex.c. Getters are named by their index in the table: `me` is `mmg`,
-- `temp` is `tempgetter`. The `while (1)` takes fuel, and `none` means that the fuel ran out.
pub mod Chain
pub mod Sound
pub mod Complete
pub mod Diverge
pub mod Kept
pub mod Members
use ktrpg.Base.{
  ℕ, zero, suc, Bool, true, false, not, ◌&&◌, ◌||◌, Option, none, some, List, map, ◌==◌, get_or,
  set, any, find_index,
}
use ktrpg.Mutex.Types.{Getter, blank_getter}

abbrev pub getter_at : List Getter → ℕ → Getter
getter_at mmgs i = get_or mmgs i blank_getter

-- Some slot of the array holds the type: the loop over `m`.
abbrev pub holds : ℕ → List ℕ → Bool
holds t = any (λ s. s == t)

-- The test of the first search, and that of the search in the `while`.
abbrev pub first_holder : ℕ → Getter → Bool
first_holder t g = g.is_used && holds t g.get_mutex_type

abbrev pub next_holder : ℕ → Getter → Bool
next_holder t g = g.is_used && not (t == 0) && any (λ s. not (s == 0) && (s == t)) g.get_mutex_type

abbrev pub uncounted : Getter → Bool
uncounted g = g.is_used && not g.counted

abbrev pub set_counted : Bool → Getter → Getter
set_counted b g = record g { counted = b }

abbrev pub mark : ℕ → List Getter → List Getter
mark i mmgs = set mmgs i (set_counted true (getter_at mmgs i))

unfoldable pub walk : ℕ → ℕ → ℕ → List Getter → Option (Bool × List Getter)
walk zero me temp mmgs = none
walk (suc fuel) me temp mmgs = elim (getter_at mmgs temp).is_waited [
  | false ↦ some (false, mmgs)
  | true ↦ elim (temp == me) [
    | true ↦ some (true, mmgs)
    | false ↦ elim (any uncounted mmgs) [
      | false ↦ some (false, mmgs)
      | true ↦ elim (find_index (next_holder (getter_at mmgs temp).wait_mutex_type) mmgs) [
        | none ↦ some (false, mmgs)
        | some k ↦ walk fuel me k (mark temp mmgs)
      ]
    ]
  ]
]

-- The table with every `counted` cleared but that of `me`.
abbrev pub reset_counted : ℕ → List Getter → List Getter
reset_counted me mmgs = mark me (map (set_counted false) mmgs)

unfoldable pub is_dead_lock : ℕ → ℕ → List Getter → Option (Bool × List Getter)
is_dead_lock fuel me mmgs =
    let table = reset_counted me mmgs in
    let wait = (getter_at table me).wait_mutex_type in
    elim (wait == 0) [
      | true ↦ some (false, table)
      | false ↦ elim (find_index (first_holder wait) table) [
        | none ↦ some (false, table)
        | some k ↦ walk fuel me k (mark me table)
      ]
    ]
