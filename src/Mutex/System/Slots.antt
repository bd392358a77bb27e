-- ===== src/Mutex/System/Slots.antt =====
-- The slots of the getters tell the truth: what a thread's getter holds, the thread owns.
pub mod Writes
pub mod Reached
use ktrpg.Base.{
  ℕ, zero, suc, ◌<◌, ◌≤◌, ◌≡◌, ◌≢◌, ◌⊎◌, refl, ap, sym, subst, ◌∙◌, inl, inr, Bool, true, false,
  Option, none, some, List, [], ◌∷◌, map, length, ◌==◌, if◌then◌else◌, arith, ℕ_discrete, ◌&&◌,
  ◌||◌, any, set, Option-cases, get_or-set, get_or-set_keeps,
}
use ktrpg.Mutex.Types.{
  Thread, Getter, Store, blank_getter, mymutex_type_max, mymutex_type_beforelock,
}
use ktrpg.Mutex.Deadlock.{getter_at, holds}
use ktrpg.Mutex.Table.{returned, is_of, pthread_mutex_lock}
use ktrpg.Mutex.Lock.{put, first_free}
use ktrpg.Mutex.Lock.Owners.{owner_of, type_of, slots_of, filled, pthread_mutex_lock-Takes}
use ktrpg.Mutex.Unlock.{clear_slot, cleared, unlock_inside}
use ktrpg.Mutex.Unlock.Release.{holds-clear, slots_of-cleared}
use ktrpg.Mutex.Identity.{Unique, ident}
use ktrpg.Mutex.Identity.Calls.{Same}
use ktrpg.Mutex.Stage.{Began, refused, spins, waits, begin_lock, end_lock}
use ktrpg.Mutex.Stage.Owners.{
  Frees, Freed, Freed-owners, begin_lock-Frees, end_lock-owners, lock-owners, returned-injective,
}
use ktrpg.Mutex.Stage.Getters.{end_lock-Same}
use ktrpg.Mutex.System.Getters.{is_of-same}
use ktrpg.Mutex.Stage.Slots.{kept, Claims, BeginsSlots, begin_lock-Slots}
use ktrpg.Mutex.Stage.Slots.Ends.{Types, Freed-Types, end_lock-Slots, unlock-Slots}

-- Each type in a slot of a getter in use is that of a mutex that the getter's thread owns; free getters
-- have empty slots; and mutex `t` has type `t`.
pub record Slotted (s : Store) : Type 0 where
  pub types : (t : ℕ) → t ≢ 0 → t < mymutex_type_max → type_of s t ≡ t
  pub owned :
      (j t : ℕ) (o : Thread)
      → t ≢ 0
      → is_of o (getter_at s.mmgetter j) ≡ true
      → holds t (slots_of s.mmgetter j) ≡ true
      → owner_of s t ≡ some o
  pub spare :
      (j t : ℕ)
      → t ≢ 0
      → (getter_at s.mmgetter j).is_used ≡ false
      → holds t (slots_of s.mmgetter j) ≡ false

holds-set :
    (t u k : ℕ) (slots : List ℕ) → holds t (set slots k u) ≡ true → (holds t slots ≡ true) ⊎ (u ≡ t)
unfolding any
holds-set t u k [] h = cc
holds-set t u zero (x ∷ xs) h = ground arith
holds-set t u (suc k) (x ∷ xs) h = ground (arith, holds-set t u k xs)

pub holds-filled :
    (t u : ℕ) (slots : List ℕ) → holds t (filled u slots) ≡ true → (holds t slots ≡ true) ⊎ (u ≡ t)
holds-filled t u slots h = elim (Option-cases (first_free slots)) [
  | inl e ↦ inl (ap (λ p. holds t (put p u slots)) (sym e) ∙ h)
  | inr (k, e) ↦ holds-set t u k slots (ap (λ p. holds t (put p u slots)) (sym e) ∙ h)
]

pub holds-map-clear :
    (t u : ℕ) (slots : List ℕ)
    → t ≢ 0
    → holds t (map (clear_slot u) slots) ≡ true
    → holds t slots ≡ true
unfolding any
holds-map-clear t u [] ne h = h
holds-map-clear t u (x ∷ xs) ne h = ground (arith, holds-map-clear t u xs ne)

pub in_table : (gs : List Getter) (j : ℕ) → (getter_at gs j).is_used ≡ true → j < length gs
in_table [] j h = cc
in_table (g ∷ gs) zero h = omega arith
in_table (g ∷ gs) (suc j) h = omega (arith, in_table gs j h)

pub is_of-used : (o : Thread) (g : Getter) → is_of o g ≡ true → g.is_used ≡ true
is_of-used o g h = ground arith

pub is_of-kept : (o : Thread) (g g' : Getter) → kept g ≡ kept g' → is_of o g ≡ is_of o g'
is_of-kept o g g' e =
    ap (λ (x : Bool × ℕ × ℕ × List ℕ). x.0 && ((x.1 == o.pid) && (x.2 == o.tid))) e

is_of-id : (o : Thread) (g g' : Getter) → ident g ≡ ident g' → is_of o g ≡ is_of o g'
is_of-id o g g' e = ap (λ (x : Bool × ℕ × ℕ). x.0 && ((x.1 == o.pid) && (x.2 == o.tid))) e

-- Where free getters are claimed at most, and nobody loses a mutex that has a type.
pub claims-Slotted :
    (s s' : Store)
    → Claims s.mmgetter s'.mmgetter
    → Types s s'
    → ((t : ℕ) (o : Thread) → t ≢ 0 → owner_of s t ≡ some o → owner_of s' t ≡ some o)
    → Slotted s
    → Slotted s'
claims-Slotted s s' c types keeps sl = record {
  types = λ t ne lt. types t ∙ sl.types t ne lt;
  owned = λ j t o ne mine h. owned j t o ne mine (ap (holds t) (sym (c j).0) ∙ h) (c j).1;
  spare = λ j t ne u. ap (holds t) (c j).0 ∙ spare j t ne u (c j).1;
}
  where
    owned :
        (j t : ℕ) (o : Thread)
        → t ≢ 0
        → is_of o (getter_at s'.mmgetter j) ≡ true
        → holds t (slots_of s.mmgetter j) ≡ true
        → (kept (getter_at s'.mmgetter j) ≡ kept (getter_at s.mmgetter j))
          ⊎ ((getter_at s.mmgetter j).is_used ≡ false) × ((getter_at s'.mmgetter j).is_used ≡ true)
        → owner_of s' t ≡ some o
    owned j t o ne mine h (inl q) = keeps t o ne (
        sl.owned j t o ne
          (sym (is_of-kept o (getter_at s'.mmgetter j) (getter_at s.mmgetter j) q) ∙ mine) h)
    owned j t o ne mine h (inr (free, used)) = absurd (cc (h, sl.spare j t ne free))

    spare :
        (j t : ℕ)
        → t ≢ 0
        → (getter_at s'.mmgetter j).is_used ≡ false
        → (kept (getter_at s'.mmgetter j) ≡ kept (getter_at s.mmgetter j))
          ⊎ ((getter_at s.mmgetter j).is_used ≡ false) × ((getter_at s'.mmgetter j).is_used ≡ true)
        → holds t (slots_of s.mmgetter j) ≡ false
    spare j t ne u (inl q) = sl.spare j t ne (sym (ap (λ x. x.0) q) ∙ u)
    spare j t ne u (inr (free, used)) = cc (u, used)
