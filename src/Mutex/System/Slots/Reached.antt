-- ===== src/Mutex/System/Slots/Reached.antt =====
-- The slots tell the truth in every state that the threads reach.
use ktrpg.Base.{
  ℕ, ◌<◌, ◌≤◌, ◌≡◌, ◌≢◌, ap, sym, subst, ◌∙◌, inl, inr, Bool, true, some, List, length, arith,
  Option-cases, ℕ_discrete,
}
use ktrpg.Mutex.Types.{Thread, Getter, Store, mymutex_type_max, mymutex_type_beforelock}
use ktrpg.Mutex.Deadlock.{getter_at, holds}
use ktrpg.Mutex.Table.{returned, is_of, pthread_mutex_lock}
use ktrpg.Mutex.Lock.Owners.{owner_of, slots_of, pthread_mutex_lock-Takes}
use ktrpg.Mutex.Identity.{Unique}
use ktrpg.Mutex.Stage.{Began, begin_lock, end_lock}
use ktrpg.Mutex.Stage.Owners.{
  Frees, Freed, Freed-owners, begin_lock-Frees, end_lock-owners, returned-injective,
}
use ktrpg.Mutex.Stage.Getters.{end_lock-Same}
use ktrpg.Mutex.Stage.Slots.{kept, Claims, BeginsSlots, begin_lock-Slots}
use ktrpg.Mutex.Stage.Slots.Ends.{Freed-Types, end_lock-Slots, unlock-Slots}
use ktrpg.Mutex.System.{
  Place, Local, IsOrderly, Move, call_lock, enter_lock, give_up, hang, begin, take, return_to, end,
  call_unlock, enter_unlock, leave, System, Step, moves, Reach, here, later,
}
use ktrpg.Mutex.System.Owned.{Owns, Keeps}
use ktrpg.Mutex.System.Invariant.{AreDistinct, Inv, Starts, Starts-Inv, Reach-Inv}
use ktrpg.Mutex.System.Getters.{IsOwn, works_on, Reach-Owned}
use ktrpg.Mutex.System.Slots.{Slotted, claims-Slotted}
use ktrpg.Mutex.System.Slots.Writes.{fills-Slotted, clears-Slotted}

table-Claims : {gs gs' : List Getter} → gs' ≡ gs → Claims gs gs'
table-Claims e j = (ap (λ x. slots_of x j) e, inl (ap (λ x. kept (getter_at x j)) e))

locked-Slotted :
    (th : Thread) (t : ℕ) (s s' : Store)
    → t < length s.mmutex
    → pthread_mutex_lock th t s ≡ returned s'
    → Slotted s
    → Slotted s'
unfolding pthread_mutex_lock
locked-Slotted th t s s' h e sl = elim (Option-cases (owner_of s t)) [
  | inr (o, q) ↦ absurd (ground arith)
  | inl q ↦
      let (s1, e1, k) = pthread_mutex_lock-Takes th t s q h in
      subst Slotted (returned-injective (sym e1 ∙ e)) (
        claims-Slotted s s1 (table-Claims k.table) k.types
          (λ u o ne own. elim (ℕ_discrete t u) [
            | yes r ↦ absurd (cc (q, own, ap (owner_of s) r))
            | no nr ↦ k.owners u ∙ ground (arith, nr, own)
          ])
          sl)
]

module _ (fuel : ℕ) (may : Local → ℕ → Bool) (th : Thread) (l : Local) (s s' : Store)
    (room : mymutex_type_max ≤ length s.mmutex) (k : Keeps th l s)
    (mine : IsOwn th s.mmgetter l.place) (unique : Unique s.mmgetter) (sl : Slotted s) where
  at_place : {p : Place} → l.place ≡ p → Owns th l.has p s
  at_place e = subst (λ p. Owns th l.has p s) e k.place

  began : (t : ℕ) {b : Began} → begin_lock fuel th t s ≡ b → Frees s b × BeginsSlots s.mmgetter b
  began t e =
      subst (λ b. Frees s b × BeginsSlots s.mmgetter b) e
        (begin_lock-Frees fuel th t s, begin_lock-Slots fuel th t s)

  freed : Freed s s' → Claims s.mmgetter s'.mmgetter → Slotted s'
  freed f c =
      claims-Slotted s s' c (Freed-Types s s' f)
        (λ t o ne own. Freed-owners s s' (omega arith) f t ∙ ground (arith, ne, own)) sl

  same : s' ≡ s → Slotted s'
  same e = subst Slotted (sym e) sl

  Move-Slotted : {l' : Local} → Move fuel may th l s l' s' → Slotted s'
  Move-Slotted (call_lock t c q ok e e') = same e'
  Move-Slotted (enter_lock t c q e e') =
      locked-Slotted th mymutex_type_beforelock s s' (omega arith) e sl
  Move-Slotted (give_up t c q e e') = freed (began t e).0 (began t e).1
  Move-Slotted (hang t c q e e' e'') = same e''
  Move-Slotted (begin t i b c q e e') = freed (began t e).0 (began t e).1
  Move-Slotted (take t i b c q e e') =
      locked-Slotted th t s s' (omega (arith, room, (at_place q).1)) e sl
  Move-Slotted (return_to t i b c q e e') =
      locked-Slotted th mymutex_type_beforelock s s' (omega arith) e sl
  Move-Slotted (end t i b c q e e') =
      let (ok, own, own0) = at_place q in
      let (lt, own_getter) = mine i (ap works_on q) in
      let (slots, types) = end_lock-Slots th t i b c s lt in
      subst Slotted (sym e) (
        fills-Slotted th t i s (end_lock th t i b c s) (sl.types t ok.0 ok.1) own own_getter slots
          (end_lock-Same th t i b c s).same types (end_lock-owners th t i b c s (omega arith)).0 sl)
  Move-Slotted (call_unlock t q ok h e e') = same e'
  Move-Slotted (enter_unlock t q e e') =
      locked-Slotted th mymutex_type_beforelock s s' (omega arith) e sl
  Move-Slotted (leave t q e e') =
      let (ok, own, gone, own0) = at_place q in
      let (s1, e1, types, how) = unlock-Slots th t s (omega arith) (omega (arith, room, ok.1)) in
      subst Slotted (returned-injective (sym e1 ∙ e)) (elim how [
        | inl (owners, table) ↦
            claims-Slotted s s1 (table-Claims table) types
              (λ u o ne ow. owners u ∙ ground (arith, ne, ow)) sl
        | inr (i, lt, own_getter, owners, table) ↦
            clears-Slotted th t i s s1 ok.0 (sl.types t ok.0 ok.1) own unique lt own_getter table
              types owners sl
      ])

module _ (fuel : ℕ) (may : Local → ℕ → Bool) (orderly : IsOrderly may) (who : ℕ → Thread)
    (distinct : AreDistinct who) where
  Step-Slotted :
      (x y : System)
      → Inv who x
      → ((n : ℕ) → IsOwn (who n) x.store.mmgetter (x.local n).place)
      → Unique x.store.mmgetter
      → Slotted x.store
      → Step fuel may who x y
      → Slotted y.store
  Step-Slotted x y inv mine unique sl (moves n l m e) =
      Move-Slotted fuel may (who n) (x.local n) x.store y.store inv.room (inv.keep n) (mine n)
        unique sl m

  pub Reach-Slotted :
      {x y : System}
      → Inv who x
      → ((n : ℕ) → IsOwn (who n) x.store.mmgetter (x.local n).place)
      → Unique x.store.mmgetter
      → Slotted x.store
      → Reach fuel may who x y
      → Slotted y.store
  Reach-Slotted inv mine unique sl here = sl
  Reach-Slotted {x} inv mine unique sl (later {y} {z} r st) =
      let (ev, mine') = Reach-Owned fuel may who distinct mine r in
      Step-Slotted y z (Reach-Inv fuel may orderly who distinct inv r) mine' (ev.unique unique)
        (Reach-Slotted inv mine unique sl r) st

-- The table of getters tells the truth: from a state in which no thread has called, no thread has two
-- getters and each type in a slot is that of a mutex that the slot's thread owns, in every state that
-- the calls lead to, however they interleave, a type in a slot of a thread's getter is that of a
-- mutex that the thread owns. Numbers stand for different threads, and the callers unlock only what
-- they have locked.
pub slots_true :
    (fuel : ℕ) (may : Local → ℕ → Bool) (who : ℕ → Thread) (x y : System)
    → IsOrderly may
    → AreDistinct who
    → Starts x
    → Unique x.store.mmgetter
    → Slotted x.store
    → Reach fuel may who x y
    → (j t : ℕ) (o : Thread) → t ≢ 0
    → is_of o (getter_at y.store.mmgetter j) ≡ true
    → holds t (slots_of y.store.mmgetter j) ≡ true
    → owner_of y.store t ≡ some o
slots_true fuel may who x y orderly distinct b unique sl r j t o ne mine h =
    (Reach-Slotted fuel may orderly who distinct (Starts-Inv who b)
        (λ n i e. absurd (cc (e, ap (λ (a : Local). works_on a.place) (b.all_outside n)))) unique sl
        r).owned
      j t o ne mine h
