-- ===== src/Mutex/System/Noted.antt =====
-- What the getters of common/mymutex.c note: the mutexes that a thread has got, and its wait.
pub mod Moves
pub mod Reached
use ktrpg.Base.{
  ℕ, ◌<◌, ◌≤◌, ◌≡◌, ◌≢◌, ◌⊎◌, refl, ap, sym, subst, ◌∙◌, inl, inr, Bool, true, false, none, some,
  List, length, arith, ◌==◌, ◌||◌, if◌then◌else◌, ℕ_discrete, Bool-cases, get_or-set,
  get_or-set_self, get_or-set_ne, get_or-set_keeps, map, set,
}
use ktrpg.Mutex.Types.{
  Thread, Getter, Store, blank_getter, mymutex_type_max, mymutex_type_beforelock,
}
use ktrpg.Mutex.Deadlock.{getter_at, holds}
use ktrpg.Mutex.Table.{returned, is_of, pthread_mutex_lock}
use ktrpg.Mutex.Identity.{Unique}
use ktrpg.Mutex.Identity.Calls.{Evolves, Leaves, Leaves-pthread}
use ktrpg.Mutex.Lock.Owners.{owner_of, type_of, slots_of, filled}
use ktrpg.Mutex.Lock.Room.{IsRoomy, filled-IsRoomy, holds-clear_other, clear-IsRoomy}
use ktrpg.Mutex.Unlock.{clear_slot, cleared, unlock_inside}
use ktrpg.Mutex.Unlock.Release.{slots_of-cleared}
use ktrpg.Mutex.Stage.{Began, waits, begin_lock, end_lock}
use ktrpg.Mutex.Stage.Getters.{BeginsOn, begin_lock-BeginsOn}
use ktrpg.Mutex.Stage.Owners.{returned-injective, lock-owners}
use ktrpg.Mutex.Stage.Slots.{begin_lock-Slots, BeginsSlots}
use ktrpg.Mutex.Stage.Slots.Ends.{end_lock-Slots, unlock-Slots}
use ktrpg.Mutex.Stage.Flags.{flags, flags_at, begun-flags, end_lock-flags}
use ktrpg.Mutex.Stage.Asked.{BeginsAsking, begin_lock-BeginsAsking}
use ktrpg.Mutex.System.{
  Place, idle, asks_lock, inside_lock, searching, wants, owns, settles, asks_unlock, inside_unlock,
  Local, IsMutex, update, at, Move, call_lock, enter_lock, give_up, hang, begin, take, return_to,
  end, call_unlock, enter_unlock, leave,
}
use ktrpg.Mutex.System.Owned.{Owns, Keeps}
use ktrpg.Mutex.System.Getters.{IsOwn, works_on, is_of-same}
use ktrpg.Mutex.System.Slots.{Slotted}

-- What the getter of a call says at each of its places: it waits for the type, and the type is in no slot
-- of it before the last stage.
abbrev pub Marks : List Getter → Place → Type 0
Marks gs (wants t i b comment) = flags_at gs i ≡ (true, t)
Marks gs (owns t i b comment) = holds t (slots_of gs i) ≡ false
Marks gs (settles t i b comment) = holds t (slots_of gs i) ≡ false
Marks gs _ = Unit {0}

-- What the thread has got is in a slot of a getter of it.
abbrev pub Noted : Thread → List Getter → (ℕ → Bool) → Type 0
Noted th gs has =
    (t : ℕ)
    → has t ≡ true
    → (j : ℕ) × (is_of th (getter_at gs j) ≡ true) × (holds t (slots_of gs j) ≡ true)

abbrev pub Roomy : List Getter → Type 0
Roomy gs = (j : ℕ) → j < length gs → IsRoomy (slots_of gs j)

-- A step of `th` leaves the getters of the others as they are.
abbrev pub Apart : Thread → List Getter → List Getter → Type 0
Apart th gs gs' =
    (j : ℕ) (o : Thread)
    → o ≢ th
    → is_of o (getter_at gs j) ≡ true
    → (flags_at gs' j ≡ flags_at gs j) × (slots_of gs' j ≡ slots_of gs j)

pub record Notes (th : Thread) (gs gs' : List Getter) (l' : Local) : Type 0 where
  pub apart : Apart th gs gs'
  pub marks : Marks gs' l'.place
  pub noted : Noted th gs' l'.has
  pub roomy : Roomy gs'

module _ (th : Thread) (gs gs' : List Getter) (has : ℕ → Bool) (note : Noted th gs has)
    (roomy : Roomy gs) where
  -- A step that writes to getter `i` of the thread at most.
  pub touched :
      (i : ℕ) (new : List ℕ) (m l' : Local)
      → Evolves gs gs'
      → is_of th (getter_at gs' i) ≡ true
      → ((j : ℕ) → slots_of gs' j ≡ (if i == j then new else slots_of gs j))
      → ((j : ℕ) → i ≢ j → flags_at gs' j ≡ flags_at gs j)
      → (i < length gs → IsRoomy new)
      → ((u : ℕ)
          → m.has u ≡ true
          → (holds u new ≡ true)
            ⊎ ((has u ≡ true) × (holds u (slots_of gs i) ≡ true → holds u new ≡ true)))
      → Marks gs' m.place
      → l' ≡ m
      → Notes th gs gs' l'
  touched i new m l' ev mine slots flagged room got marks e =
      subst (Notes th gs gs') (sym e) record {
        apart = λ j o ne oj.
            let other : i ≢ j = λ q. ne (
              is_of-same o th (getter_at gs' j) (ev.stays j o oj)
                (subst (λ x. is_of th (getter_at gs' x) ≡ true) q mine)) in
            (flagged j other, slots j ∙ ground (arith, other));
        marks = marks;
        noted = λ u h. elim (got u h) [
          | inl now ↦ (i, mine, ap (holds u) (slots i ∙ ground arith) ∙ now)
          | inr (before, on) ↦
              let (j, oj, hj) = note u before in
              (
                j,
                ev.stays j th oj,
                ap (holds u) (slots j) ∙ elim (ℕ_discrete i j) [
                  | yes q ↦ ground (arith, q, on (ap (λ x. holds u (slots_of gs x)) q ∙ hj))
                  | no nq ↦ ground (arith, nq, hj)
                ],
              )
        ];
        roomy = λ j lt.
            let lt' : j < length gs = subst (λ n. j < n) ev.size lt in
            elim (ℕ_discrete i j) [
              | yes q ↦
                  subst IsRoomy (sym (slots j ∙ ground (arith, q)))
                    (room (subst (λ x. x < length gs) (sym q) lt'))
              | no nq ↦ subst IsRoomy (sym (slots j ∙ ground (arith, nq))) (roomy j lt')
            ];
      }

  -- A step that leaves the table as it is.
  pub untouched :
      (m l' : Local)
      → gs' ≡ gs
      → Marks gs m.place
      → ((u : ℕ) → m.has u ≡ true → has u ≡ true)
      → l' ≡ m
      → Notes th gs gs' l'
  untouched m l' same marks sub e =
      subst (λ x. Notes th gs x l') (sym same)
        (subst (Notes th gs gs) (sym e) (record {
          apart = λ j o ne oj. (refl, refl);
          marks = marks;
          noted = λ u h. note u (sub u h);
          roomy = roomy;
        }))
