-- ===== src/Mutex/System/Stuck.antt =====
-- What becomes of threads that wait for each other in common/mymutex.c, which locks all the same when
-- its search has found a deadlock.
use ktrpg.Base.{ℕ, ◌≡◌, ◌≢◌, ◌<◌, refl, sym, ap, subst, ◌∙◌, Bool, true, some, List, length, arith}
use ktrpg.Mutex.Types.{Thread, Store}
use ktrpg.Mutex.Lock.Owners.{owner_of}
use ktrpg.Mutex.Stage.Owners.{lock-owners}
use ktrpg.Mutex.System.{
  wants, Local, IsOrderly, IsMutex, Move, call_lock, enter_lock, give_up, hang, begin, take,
  return_to, end, call_unlock, enter_unlock, leave, System, Step, moves, Reach, here, later,
}
use ktrpg.Mutex.System.Owned.{Moved, Owns}
use ktrpg.Mutex.System.Moves.{Move-Moved}
use ktrpg.Mutex.System.Invariant.{AreDistinct, Inv, Change-others, Starts, Starts-Inv, Reach-Inv}

-- Each thread of the set waits for a mutex that a thread of the set owns.
abbrev pub Waits : (ℕ → Thread) → (ℕ → Bool) → System → Type 0
Waits who w x =
    (n : ℕ)
    → w n ≡ true
    → (t : ℕ) × (i : ℕ) × (b : Bool) × (comment : List ℕ) × ((x.local n).place
        ≡ wants t i b comment)
      × ((m : ℕ) × (w m ≡ true) × (owner_of x.store t ≡ some (who m)))

module _ (fuel : ℕ) (may : Local → ℕ → Bool) where
  -- A thread that waits can only take its mutex, and so not while somebody owns it.
  pub waiting_stays :
      {th o : Thread} {l l' : Local} {s s' : Store} (t i : ℕ) (b : Bool) (comment : List ℕ)
      → l.place ≡ wants t i b comment
      → t < length s.mmutex
      → owner_of s t ≡ some o
      → Move fuel may th l s l' s'
      → ⊥
  waiting_stays t i b comment p lt own (call_lock t' c q ok e e') = cc (p, q)
  waiting_stays t i b comment p lt own (enter_lock t' c q e e') = cc (p, q)
  waiting_stays t i b comment p lt own (give_up t' c q e e') = cc (p, q)
  waiting_stays t i b comment p lt own (hang t' c q e e' e'') = cc (p, q)
  waiting_stays t i b comment p lt own (begin t' i' b' c q e e') = cc (p, q)
  waiting_stays {th} {o} {l} {l'} {s} {s'} t i b comment p lt own (take t' i' b' c q e e') =
      let same_type : t ≡ t' = cc (p, q) in
      let free = (lock-owners th t' s s' (subst (λ u. u < length s.mmutex) same_type lt) e).0 in
      cc (free, own, ap (owner_of s) same_type)
  waiting_stays t i b comment p lt own (return_to t' i' b' c q e e') = cc (p, q)
  waiting_stays t i b comment p lt own (end t' i' b' c q e e') = cc (p, q)
  waiting_stays t i b comment p lt own (call_unlock t' q ok h e e') = cc (p, q)
  waiting_stays t i b comment p lt own (enter_unlock t' q e e') = cc (p, q)
  waiting_stays t i b comment p lt own (leave t' q e e') = cc

  module _ (orderly : IsOrderly may) (who : ℕ → Thread) (distinct : AreDistinct who)
      (w : ℕ → Bool) where
    -- What a thread wants is a mutex, by its place.
    wants-IsMutex :
        (x : System) (n t i : ℕ) (b : Bool) (comment : List ℕ)
        → Inv who x
        → (x.local n).place ≡ wants t i b comment
        → t < length x.store.mmutex
    wants-IsMutex x n t i b comment inv p =
        let ok : IsMutex t =
          subst (λ q. Owns (who n) (x.local n).has q x.store) p (inv.keep n).place in
        omega (arith, ok.1, inv.room)

    Step-stuck :
        (x y : System)
        → Inv who x
        → Waits who w x
        → Step fuel may who x y
        → ((n : ℕ) → w n ≡ true → y.local n ≡ x.local n) × Waits who w y
    Step-stuck x y inv wait (moves k l m e) = (still, stuck)
      where
        other : (n : ℕ) → w n ≡ true → k ≢ n
        other n h q =
            let (t, i, b, comment, p, (m', hm, own)) = wait n h in
            waiting_stays t i b comment p (wants-IsMutex x n t i b comment inv p) own
              (subst (λ j. Move fuel may (who j) (x.local j) x.store l y.store) q m)

        still : (n : ℕ) → w n ≡ true → y.local n ≡ x.local n
        still n h = ap (λ f. f n) e ∙ ground (arith, other n h)

        change : Moved (who k) (x.local k).place x.store l y.store
        change =
            Move-Moved fuel may (who k) (x.local k) x.store y.store inv.room (inv.keep k) orderly m

        stuck : Waits who w y
        stuck n h =
            let (t, i, b, comment, p, (m', hm, own)) = wait n h in
            (
              t,
              i,
              b,
              comment,
              ap (λ (a : Local). a.place) (still n h) ∙ p,
              (
                m',
                hm,
                Change-others (who k) (who m') x.store y.store t change.change
                    (λ q. other m' hm (distinct k m' (sym q))) own,
              ),
            )

    Reach-stuck :
        {x y : System}
        → Inv who x
        → Waits who w x
        → Reach fuel may who x y
        → ((n : ℕ) → w n ≡ true → y.local n ≡ x.local n) × Waits who w y
    Reach-stuck inv wait here = ((λ n h. refl), wait)
    Reach-stuck {x} inv wait (later {y} {z} r st) =
        let (same_before, wait') = Reach-stuck inv wait r in
        let (same_now, wait'') =
          Step-stuck y z (Reach-Inv fuel may orderly who distinct inv r) wait' st in
        ((λ n h. same_now n h ∙ same_before n h), wait'')

-- A deadlock is for good: where, in a state that the calls have led to, each thread of a set waits in
-- `mymutex_lock` for a mutex that a thread of the set owns, then after any further steps of any threads
-- each of them stands where it stood, and waits for a mutex that a thread of the set owns. Numbers
-- stand for different threads, and the callers unlock only what they have locked.
pub deadlock_stays :
    (fuel : ℕ) (may : Local → ℕ → Bool) (who : ℕ → Thread) (w : ℕ → Bool) (x y z : System)
    → IsOrderly may
    → AreDistinct who
    → Starts x
    → Reach fuel may who x y
    → Waits who w y
    → Reach fuel may who y z
    → ((n : ℕ) → w n ≡ true → z.local n ≡ y.local n) × Waits who w z
deadlock_stays fuel may who w x y z orderly distinct b r wait r' =
    Reach-stuck fuel may orderly who distinct w
      (Reach-Inv fuel may orderly who distinct (Starts-Inv who b) r) wait r'
