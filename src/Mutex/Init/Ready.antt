-- ===== src/Mutex/Init/Ready.antt =====
-- What `init_mymutex` of common/mymutex.c makes possible: every mutex can be locked.
use ktrpg.Base.{
  ℕ, zero, suc, ◌≤◌, ◌<◌, ◌≡◌, ◌≢◌, refl, ap, ◌∙◌, Bool, true, false, ◌&&◌, Option, none, some,
  List, [], ◌∷◌, map, arith, pos, length, length-map, length-set, not, ◌==◌, get_or, set, replicate,
  find_index, find_last_index, any, if◌then◌else◌,
}
use ktrpg.Mutex.Types.{
  Thread, Mymutex, Getter, Store, blank_getter, mymutex_type_max, max_mutex_getter_num,
}
use ktrpg.Mutex.Deadlock.{reset_counted}
use ktrpg.Mutex.Deadlock.Chain.{holder_of, is_dead_lock-none}
use ktrpg.Mutex.Table.{returned, blank_mutex, claim, is_of, obtain_getter}
use ktrpg.Mutex.Lock.{mymutex_lock}
use ktrpg.Mutex.Lock.Acquire.{Locked, asking}
use ktrpg.Mutex.Lock.Acquire.Call.{mymutex_lock-Locked}
use ktrpg.Mutex.Identity.{Unique}
use ktrpg.Mutex.Init.{fresh_mutex, zero_count, init_three, init_mymutex}

init_three_lem :
    (ms : List Mymutex) (t : ℕ)
    → mymutex_type_max ≤ length ms
    → t < mymutex_type_max
    → get_or (init_three ms) t blank_mutex ≡ fresh_mutex t
init_three_lem [] t h lt = absurd (omega arith)
init_three_lem (a ∷ []) t h lt = absurd (omega arith)
init_three_lem (a ∷ (b ∷ [])) t h lt = absurd (omega arith)
init_three_lem (a ∷ (b ∷ (c ∷ rest))) zero h lt = refl
init_three_lem (a ∷ (b ∷ (c ∷ rest))) (suc zero) h lt = refl
init_three_lem (a ∷ (b ∷ (c ∷ rest))) (suc (suc zero)) h lt = refl
init_three_lem (a ∷ (b ∷ (c ∷ rest))) (suc (suc (suc t))) h lt = absurd (omega arith)

pub length-init_three : (ms : List Mymutex) → length (init_three ms) ≡ length ms
length-init_three ms =
    length-set (set (set ms 0 (fresh_mutex 0)) 1 (fresh_mutex 1)) 2 (fresh_mutex 2)
    ∙ (length-set (set ms 0 (fresh_mutex 0)) 1 (fresh_mutex 1) ∙ length-set ms 0 (fresh_mutex 0))

-- The three mutexes are free and have their own type.
pub init_mymutex-at :
    (beforelock : Bool) (mmj : Option (List ℕ)) (s : Store) (t : ℕ)
    → mymutex_type_max ≤ length s.mmutex
    → t < mymutex_type_max
    → get_or (init_mymutex beforelock mmj s).mmutex t blank_mutex ≡ fresh_mutex t
unfolding init_mymutex
init_mymutex-at beforelock mmj s t h lt =
    init_three_lem (map zero_count s.mmutex) t (omega (arith, length-map s.mmutex zero_count)) lt

-- The getters after the first call has claimed one.
abbrev pub first_claimed : Thread → ℕ → List Getter
first_claimed th t = set (replicate max_mutex_getter_num blank_getter) 0 (claim th t blank_getter)

and_false : (b : Bool) → (b && false) ≡ false
and_false true = refl
and_false false = refl

nobody_holds : (th : Thread) (t : ℕ) → holder_of (asking 0 t (first_claimed th t)) 0 ≡ none
unfolding holder_of find_index any
nobody_holds th t = ap (λ b. if b then some 0 else none) (and_false (not (t == 0)))

-- After `init_mymutex`, with BEFORELOCK in use, a first call of any thread for a mutex that has a type
-- returns with the mutex, in the first getter, whatever the fuel.
pub init_mymutex-Locked :
    (fuel : ℕ) (th : Thread) (t : ℕ) (comment : List ℕ) (mmj : Option (List ℕ)) (s : Store)
    → t ≢ 0
    → t < mymutex_type_max
    → mymutex_type_max ≤ length s.mmutex
    → (s' : Store) × (mymutex_lock fuel th (pos t) comment (init_mymutex true mmj s) ≡ returned s')
      × Locked th t 0 (first_claimed th t) (init_mymutex true mmj s) s'
unfolding init_mymutex obtain_getter find_index find_last_index
init_mymutex-Locked fuel th t comment mmj s ne lt room =
    mymutex_lock-Locked fuel th t comment (init_mymutex true mmj s) 0 (first_claimed th t)
      (reset_counted 0 (asking 0 t (first_claimed th t))) false ne lt
      (omega (arith, length-init_three (map zero_count s.mmutex), length-map s.mmutex zero_count))
      refl (ap (λ m. m.owner) (init_mymutex-at true mmj s 0 room (omega arith)))
      (ap (λ m. m.owner) (init_mymutex-at true mmj s t room lt)) refl
      (is_dead_lock-none fuel 0 (asking 0 t (first_claimed th t)) (nobody_holds th t))

pub blank_at : (n i : ℕ) → get_or (replicate n blank_getter) i blank_getter ≡ blank_getter
blank_at zero i = refl
blank_at (suc n) zero = refl
blank_at (suc n) (suc i) = blank_at n i

-- After `init_mymutex` no thread has two getters.
pub init_mymutex-Unique :
    (beforelock : Bool) (mmj : Option (List ℕ)) (s : Store)
    → Unique (init_mymutex beforelock mmj s).mmgetter
unfolding init_mymutex
init_mymutex-Unique beforelock mmj s i j th h h' e e' =
    absurd (cc (e, ap (is_of th) (blank_at max_mutex_getter_num i)))
