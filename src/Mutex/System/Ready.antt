-- ===== src/Mutex/System/Ready.antt =====
-- What `init_mymutex` of common/mymutex.c gives the threads to start from.
use ktrpg.Base.{
  ℕ, zero, suc, ◌≤◌, ◌≡◌, ◌≢◌, refl, ap, sym, ◌∙◌, true, false, Option, List, length, map, arith,
  any, replicate, length-map, subst,
}
use ktrpg.Mutex.Types.{
  Getter, Store, blank_getter, mymutex_type_max, max_mutex_num, max_mutex_getter_num,
}
use ktrpg.Mutex.Deadlock.{getter_at, holds}
use ktrpg.Mutex.Identity.{Unique}
use ktrpg.Mutex.Init.{init_mymutex, zero_count}
use ktrpg.Mutex.Init.Ready.{init_mymutex-at, init_mymutex-Unique, blank_at, length-init_three}
use ktrpg.Mutex.Lock.Owners.{slots_of}
use ktrpg.Mutex.Lock.Room.{IsRoomy}
use ktrpg.Mutex.System.{System, outside}
use ktrpg.Mutex.System.Invariant.{Starts}
use ktrpg.Mutex.System.Slots.{Slotted}
use ktrpg.Mutex.System.Noted.{Roomy}

-- No thread has called, nobody owns BEFORELOCK, no thread has two getters, each mutex has its own type and
-- no slot holds one, no getter is marked as waiting, and each has a slot for each mutex.
pub record Ready (x : System) : Type 0 where
  pub starts : Starts x
  pub unique : Unique x.store.mmgetter
  pub slotted : Slotted x.store
  pub quiet : (j : ℕ) → (getter_at x.store.mmgetter j).is_waited ≡ false
  pub roomy : Roomy x.store.mmgetter
  pub empty : (j t : ℕ) → t ≢ 0 → holds t (slots_of x.store.mmgetter j) ≡ false

holds-blank : (t n : ℕ) → t ≢ 0 → holds t (replicate n 0) ≡ false
unfolding any
holds-blank t zero ne = refl
holds-blank t (suc n) ne = ground (arith, holds-blank t n ne)

abbrev pub initial : Option (List ℕ) → Store → System
initial mmj s = record { local = λ n. outside; store = init_mymutex true mmj s }

module _ (mmj : Option (List ℕ)) (s : Store) where
  blank : (j : ℕ) → getter_at (initial mmj s).store.mmgetter j ≡ blank_getter
  unfolding init_mymutex
  blank j = blank_at max_mutex_getter_num j

  no_type : (j t : ℕ) → t ≢ 0 → holds t (slots_of (initial mmj s).store.mmgetter j) ≡ false
  no_type j t ne =
      ap (λ (g : Getter). holds t g.get_mutex_type) (blank j) ∙ holds-blank t max_mutex_num ne

  blank-IsRoomy : IsRoomy (replicate max_mutex_num 0)
  unfolding any
  blank-IsRoomy = omega arith

  size : length (initial mmj s).store.mmutex ≡ length s.mmutex
  unfolding init_mymutex
  size = length-init_three (map zero_count s.mmutex) ∙ length-map s.mmutex zero_count

-- `init_mymutex`, on whatever memory of enough mutexes, leaves the tables as the theorems on threads
-- that interleave in the calls ask for: from then on, with no call made yet, nobody owns BEFORELOCK, no
-- thread has two getters, each mutex has its own type and no slot holds one, no getter is marked as
-- waiting, and each has a slot for each mutex.
pub init_mymutex-Ready :
    (mmj : Option (List ℕ)) (s : Store) → mymutex_type_max ≤ length s.mmutex → Ready (initial mmj s)
init_mymutex-Ready mmj s room = record {
  starts = record {
    all_outside = λ n. refl;
    room = omega (arith, size mmj s);
    free = ap (λ m. m.owner) (init_mymutex-at true mmj s 0 room (omega arith));
  };
  unique = init_mymutex-Unique true mmj s;
  slotted = record {
    types = λ t ne lt. ap (λ m. m.mutex_type) (init_mymutex-at true mmj s t room lt);
    owned = λ j t o ne mine h. absurd (cc (h, no_type mmj s j t ne));
    spare = λ j t ne free. no_type mmj s j t ne;
  };
  empty = no_type mmj s;
  quiet = λ j. ap (λ (g : Getter). g.is_waited) (blank mmj s j);
  roomy = λ j lt.
      subst (λ (g : Getter). IsRoomy g.get_mutex_type) (sym (blank mmj s j)) (blank-IsRoomy mmj s);
}
