-- ===== src/Mutex/Identity/Calls/Whole.antt =====
-- Whole calls of `mymutex_lock` and `mymutex_unlock`: no getter is given up, and none is shared.
use ktrpg.Base.{ℕ, ◌≡◌, refl, inl, inr, some, List, Option-cases, ℤ, pos, negsuc, leb}
use ktrpg.Mutex.Types.{Thread, Getter, Store}
use ktrpg.Mutex.Table.{obtain_getter, unlock_getter}
use ktrpg.Mutex.Lock.{lock_inside, mymutex_lock}
use ktrpg.Mutex.Lock.Acquire.Call.{lock_inside-obtained, lock_inside-none}
use ktrpg.Mutex.Unlock.{mymutex_getter_unlock, unlock_inside, mymutex_unlock}
use ktrpg.Mutex.Unlock.Release.{getter_unlock-table}
use ktrpg.Mutex.Identity.{length-obtain_getter, obtain_getter-Stays, obtain_getter-Unique}
use ktrpg.Mutex.Identity.Calls.{
  Same, Same-set, lock_held-Same, Leaves, Leaves-bind, Leaves-pthread, Leaves-if, Evolves,
  Evolves-Same, Evolves-trans, Evolves-refl, Leaves-weaken,
}

lock_inside-Evolves :
    (fuel : ℕ) (th : Thread) (t : ℕ) (comment : List ℕ) (s : Store)
    → Leaves (Evolves s.mmgetter) (lock_inside fuel th t comment s)
lock_inside-Evolves fuel th t comment s = elim (Option-cases (obtain_getter th t s.mmgetter)) [
  | inl e ↦ rw (lock_inside-none fuel th t comment s e) (Evolves-refl s.mmgetter)
  | inr (p, e) ↦ rw (lock_inside-obtained fuel th t p.0 comment s p.1 e) (
      Leaves-weaken (Same p.1) (Evolves s.mmgetter) _
        (λ gs k. Evolves-trans s.mmgetter p.1 gs (obtained p.0 p.1 e) (Evolves-Same p.1 gs k))
        (lock_held-Same p.1 fuel th t p.0 comment (record s { mmgetter = p.1 })
          (record { size = refl; same = λ j. refl })))
]
  where
    obtained :
        (i : ℕ) (gs : List Getter)
        → obtain_getter th t s.mmgetter ≡ some (i, gs)
        → Evolves s.mmgetter gs
    obtained i gs e = record {
      size = length-obtain_getter th t i s.mmgetter gs e;
      stays = obtain_getter-Stays th t i s.mmgetter gs e;
      unique = obtain_getter-Unique th t i s.mmgetter gs e;
    }

-- A call of `mymutex_lock`, also one that blocks, keeps every getter in use with its thread, and
-- keeps each thread at one getter.
pub mymutex_lock-Evolves :
    (fuel : ℕ) (th : Thread) (mutex_type : ℤ) (comment : List ℕ) (s : Store)
    → Leaves (Evolves s.mmgetter) (mymutex_lock fuel th mutex_type comment s)
unfolding mymutex_lock
mymutex_lock-Evolves fuel th (negsuc n) comment s = Evolves-refl s.mmgetter
mymutex_lock-Evolves fuel th (pos t) comment s =
    Leaves-if Q (leb t 0) _ _ (Evolves-refl s.mmgetter) (
      Leaves-if Q (leb 3 t) _ _ (Evolves-refl s.mmgetter) (
        Leaves-if Q s.g_beforelock _ _
          (Leaves-bind Q _ _ (Leaves-pthread Q th 0 s (Evolves-refl s.mmgetter)) (λ s1 h.
            Leaves-weaken (Evolves s1.mmgetter) Q _
              (λ gs k. Evolves-trans s.mmgetter s1.mmgetter gs h k)
              (lock_inside-Evolves fuel th t comment s1)))
          (Leaves-pthread Q th t s (Evolves-refl s.mmgetter))))
  where
    Q : List Getter → Type 0
    Q = Evolves s.mmgetter

pub getter_unlock-Evolves :
    (t i : ℕ) (s : Store) → Evolves s.mmgetter (mymutex_getter_unlock t i s).mmgetter
getter_unlock-Evolves t i s = rw (getter_unlock-table t i s) (
    Evolves-Same s.mmgetter _
      (Same-set s.mmgetter s.mmgetter i _ (record { size = refl; same = λ j. refl }) refl))

pub unlock_inside-Evolves :
    (th : Thread) (t : ℕ) (s : Store) → Leaves (Evolves s.mmgetter) (unlock_inside th t s)
unfolding unlock_inside
unlock_inside-Evolves th t s = elim (Option-cases (unlock_getter th s.mmgetter)) [
  | inl e ↦ rw (e, unlock_inside) (Evolves-refl s.mmgetter)
  | inr (i, e) ↦ rw (e, unlock_inside) (getter_unlock-Evolves t i s)
]

-- A call of `mymutex_unlock`, also one that blocks, keeps every getter in use with its thread, and
-- keeps each thread at one getter.
pub mymutex_unlock-Evolves :
    (th : Thread) (mutex_type : ℤ) (s : Store)
    → Leaves (Evolves s.mmgetter) (mymutex_unlock th mutex_type s)
unfolding mymutex_unlock
mymutex_unlock-Evolves th (negsuc n) s = Evolves-refl s.mmgetter
mymutex_unlock-Evolves th (pos t) s = Leaves-if Q (leb t 0) _ _ (Evolves-refl s.mmgetter) (
    Leaves-if Q (leb 3 t) _ _ (Evolves-refl s.mmgetter) (
      Leaves-if Q s.g_beforelock _ _
        (Leaves-bind Q _ _ (Leaves-pthread Q th 0 s (Evolves-refl s.mmgetter)) (λ s1 h.
          Leaves-weaken (Evolves s1.mmgetter) Q _
            (λ gs k. Evolves-trans s.mmgetter s1.mmgetter gs h k) (inside s1)))
        (Evolves-refl s.mmgetter)))
  where
    Q : List Getter → Type 0
    Q = Evolves s.mmgetter

    inside : (s1 : Store) → Leaves (Evolves s1.mmgetter) (unlock_inside th t s1)
    inside s1 = unlock_inside-Evolves th t s1
