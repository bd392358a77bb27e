-- ===== src/Mutex/System/Progress.antt =====
-- BEFORELOCK is never left locked: the thread that owns it can give it up.
use ktrpg.Base.{
  ℕ, ◌<◌, ◌≤◌, ◌≡◌, ◌⊎◌, refl, ap, ◌∙◌, inl, inr, Bool, true, none, some, List, length, arith,
}
use ktrpg.Mutex.Types.{Thread, Store, mymutex_type_max}
use ktrpg.Mutex.Lock.Owners.{owner_of}
use ktrpg.Mutex.Stage.{Began, refused, spins, waits, begin_lock, end_lock}
use ktrpg.Mutex.Stage.Owners.{Frees, Freed-owners, begin_lock-Frees, end_lock-owners, unlock-owners}
use ktrpg.Mutex.System.{
  Place, idle, asks_lock, inside_lock, searching, wants, owns, settles, asks_unlock, inside_unlock,
  Local, IsOrderly, at, update, Move, give_up, hang, begin, end, leave, System, Step, moves, Reach,
}
use ktrpg.Mutex.System.Owned.{Owns, in_section}
use ktrpg.Mutex.System.Invariant.{AreDistinct, Starts, Starts-Inv, Reach-Inv}

-- One step of thread `n` unlocks BEFORELOCK, or stays in the search for a deadlock.
abbrev pub Gives : (fuel : ℕ) (may : Local → ℕ → Bool) (who : ℕ → Thread) → System → ℕ → Type 0
Gives fuel may who y n =
    (z : System) × Step fuel may who y z
    × ((owner_of z.store 0 ≡ none) ⊎ ((z.local n).place ≡ searching))

pub update_self : {A : Type 0} (f : ℕ → A) (n : ℕ) (v : A) → update f n v n ≡ v
update_self f n v = ground arith

module _ (fuel : ℕ) (may : Local → ℕ → Bool) (who : ℕ → Thread) (y : System) (n : ℕ) where
  gives :
      (l : Local) (s : Store)
      → Move fuel may (who n) (y.local n) y.store l s
      → (owner_of s 0 ≡ none) ⊎ (l.place ≡ searching)
      → Gives fuel may who y n
  gives l s m o = (
    record { local = update y.local n l; store = s },
    moves n l m refl,
    elim o [
      | inl free ↦ inl free
      | inr p ↦ inr (ap (λ (x : Local). x.place) (update_self y.local n l) ∙ p)
    ],
  )

  begun :
      (t : ℕ) (comment : List ℕ) (b : Began)
      → 0 < length y.store.mmutex
      → (y.local n).place ≡ inside_lock t comment
      → begin_lock fuel (who n) t y.store ≡ b
      → Frees y.store b
      → Gives fuel may who y n
  begun t comment (refused s) room p e f =
      gives (at idle (y.local n)) s (give_up t comment p e refl)
        (inl (Freed-owners y.store s room f 0))
  begun t comment spins room p e f =
      gives (at searching (y.local n)) y.store (hang t comment p e refl refl) (inr refl)
  begun t comment (waits i bbool s) room p e f =
      gives (at (wants t i bbool comment) (y.local n)) s (begin t i bbool comment p e refl)
        (inl (Freed-owners y.store s room f 0))

  left :
      (t : ℕ)
      → mymutex_type_max ≤ length y.store.mmutex
      → (y.local n).place ≡ inside_unlock t
      → t < mymutex_type_max
      → Gives fuel may who y n
  left t room p ok =
      let (s, e, size, owners) = unlock-owners (who n) t y.store (omega arith) (omega arith) in
      gives (at idle (y.local n)) s (leave t p e refl)
        (inl (elim owners [ inl one ↦ one 0 | inr both ↦ both 0 ]))

  goes :
      (p : Place)
      → mymutex_type_max ≤ length y.store.mmutex
      → (y.local n).place ≡ p
      → Owns (who n) (y.local n).has p y.store
      → in_section p ≡ true
      → ((y.local n).place ≡ searching) ⊎ Gives fuel may who y n
  goes idle room e o h = cc
  goes (asks_lock t comment) room e o h = cc
  goes (inside_lock t comment) room e o h =
      inr (begun t comment _ (omega arith) e refl (begin_lock-Frees fuel (who n) t y.store))
  goes searching room e o h = inl e
  goes (wants t i bbool comment) room e o h = cc
  goes (owns t i bbool comment) room e o h = cc
  goes (settles t i bbool comment) room e o h = inr (
      gives _ (end_lock (who n) t i bbool comment y.store) (end t i bbool comment e refl refl)
        (inl ((end_lock-owners (who n) t i bbool comment y.store (omega arith)).0 0)))
  goes (asks_unlock t) room e o h = cc
  goes (inside_unlock t) room e o h = inr (left t room e o.0.1)

-- However the calls interleave, from a state in which no thread has called, BEFORELOCK is locked only
-- by a thread inside a call, which is in the search for a deadlock or can take a step that unlocks
-- BEFORELOCK or goes into the search. Numbers stand for different threads, and the callers unlock only
-- what they have locked.
pub beforelock_comes_back :
    (fuel : ℕ) (may : Local → ℕ → Bool) (who : ℕ → Thread) (x y : System) (th : Thread)
    → IsOrderly may
    → AreDistinct who
    → Starts x
    → Reach fuel may who x y
    → owner_of y.store 0 ≡ some th
    → (n : ℕ) × (who n ≡ th) × (((y.local n).place ≡ searching) ⊎ Gives fuel may who y n)
beforelock_comes_back fuel may who x y th orderly distinct b r o =
    let inv = Reach-Inv fuel may orderly who distinct (Starts-Inv who b) r in
    let (n, same, within) = inv.inside th o in
    (n, same, goes fuel may who y n (y.local n).place inv.room refl (inv.keep n).place within)
