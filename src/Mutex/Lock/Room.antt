-- ===== src/Mutex/Lock/Room.antt =====
-- The free slots of a getter of common/mymutex.c.
use ktrpg.Base.{
  Option, subst, sym, ℕ, zero, suc, ◌+◌, ◌<◌, ◌≤◌, ◌≡◌, ◌≢◌, refl, Bool, false, ◌||◌, some, List,
  [], ◌∷◌, map, ◌==◌, if◌then◌else◌, arith, any, find_index, set,
}
use ktrpg.Mutex.Types.{mymutex_type_max}
use ktrpg.Mutex.Deadlock.{holds}
use ktrpg.Mutex.Lock.{first_free, put}
use ktrpg.Mutex.Lock.Owners.{filled}
use ktrpg.Mutex.Unlock.{clear_slot}

abbrev free_slots : List ℕ → ℕ
free_slots [] = 0
free_slots (x ∷ xs) = (if x == 0 then 1 else 0) + free_slots xs

abbrev one : Bool → ℕ
one b = if b then 1 else 0

-- As many free slots as there are mutexes that no slot holds; the mutexes are ACCOUNT and DBQUE.
abbrev pub IsRoomy : List ℕ → Type 0
IsRoomy slots =
    mymutex_type_max ≤ suc (free_slots slots + (one (holds 1 slots) + one (holds 2 slots)))

some_free : (slots : List ℕ) → 0 < free_slots slots → (k : ℕ) × (first_free slots ≡ some k)
unfolding find_index
some_free [] h = absurd (omega arith)
some_free (zero ∷ xs) h = (0, refl)
some_free (suc x ∷ xs) h = let (k, e) = some_free xs (ground arith) in (suc k, ground (arith, e))

-- The slot that takes `t` was free.
free_slots-set :
    (t k : ℕ) (slots : List ℕ)
    → t ≢ 0
    → first_free slots ≡ some k
    → free_slots slots ≡ suc (free_slots (set slots k t))
unfolding find_index
free_slots-set t k [] ne e = cc
free_slots-set t zero (x ∷ xs) ne e = ground arith
free_slots-set t (suc k) (x ∷ xs) ne e = ground (arith, free_slots-set t k xs ne)

holds-set_free :
    (t u k : ℕ) (slots : List ℕ)
    → u ≢ 0
    → first_free slots ≡ some k
    → holds u (set slots k t) ≡ (holds u slots || (t == u))
unfolding find_index any
holds-set_free t u k [] ne e = cc
holds-set_free t u zero (x ∷ xs) ne e = ground arith
holds-set_free t u (suc k) (x ∷ xs) ne e = ground (arith, holds-set_free t u k xs ne)

-- Where no slot holds the mutex yet, it finds a free one, and the getter stays roomy.
pub filled-IsRoomy :
    (t : ℕ) (slots : List ℕ)
    → t ≢ 0
    → t < mymutex_type_max
    → holds t slots ≡ false
    → IsRoomy slots
    → IsRoomy (filled t slots)
      × ((u : ℕ) → u ≢ 0 → holds u (filled t slots) ≡ (holds u slots || (t == u)))
filled-IsRoomy t slots ne lt new room =
    let (k, e) = some_free slots (ground (arith, ne, lt, new, room)) in
    subst
      (λ (p : Option ℕ).
        IsRoomy (put p t slots)
        × ((u : ℕ) → u ≢ 0 → holds u (put p t slots) ≡ (holds u slots || (t == u))))
      (sym e)
      (
        ground (
          arith,
          free_slots-set t k slots ne e,
          holds-set_free t 1 k slots (λ q. omega arith) e,
          holds-set_free t 2 k slots (λ q. omega arith) e,
        ),
        λ u ne'. holds-set_free t u k slots ne' e,
      )

free_slots-clear :
    (t : ℕ) (slots : List ℕ)
    → t ≢ 0
    → free_slots slots + one (holds t slots) ≤ free_slots (map (clear_slot t) slots)
unfolding any
free_slots-clear t [] ne = omega arith
free_slots-clear t (x ∷ xs) ne = ground (arith, free_slots-clear t xs ne)

pub holds-clear_other :
    (t u : ℕ) (slots : List ℕ) → u ≢ 0 → t ≢ u → holds u (map (clear_slot t) slots) ≡ holds u slots
unfolding any
holds-clear_other t u [] ne other = refl
holds-clear_other t u (x ∷ xs) ne other = ground (arith, holds-clear_other t u xs ne other)

pub clear-IsRoomy :
    (t : ℕ) (slots : List ℕ)
    → t ≢ 0
    → t < mymutex_type_max
    → IsRoomy slots
    → IsRoomy (map (clear_slot t) slots)
clear-IsRoomy t slots ne lt room = ground (
  arith,
  free_slots-clear t slots ne,
  holds-clear_other t 1 slots (λ q. omega arith),
  holds-clear_other t 2 slots (λ q. omega arith),
)
