-- ===== src/Mutex/Identity/Calls.antt =====
-- Through whole calls of `mymutex_lock` and `mymutex_unlock`, also ones that block.
pub mod Whole
use ktrpg.Base.{
  ℕ, ◌≡◌, refl, ap, sym, ◌&&◌, ◌==◌, ◌∙◌, inl, inr, Bool, true, false, some, List, Option-cases,
  length, length-set, set, get_or-set_keeps, ℤ, pos, negsuc, leb, if◌then◌else◌,
}
use ktrpg.Mutex.Types.{Thread, Getter, Store, blank_getter, dead_lock}
use ktrpg.Mutex.Deadlock.{getter_at, is_dead_lock}
use ktrpg.Mutex.Deadlock.Kept.{Keeps, is_dead_lock-Keeps}
use ktrpg.Mutex.Table.{
  Call, returned, blocked, spinning, ◌>>=◌, mutex_at, add_note, pthread_mutex_lock,
  pthread_mutex_unlock, obtain_getter, is_of, unlock_getter,
}
use ktrpg.Mutex.Lock.{
  set_wait, granted, mymutex_getter_lock, note_order, lock_searched, lock_held, lock_inside,
  mymutex_lock, order_ok,
}
use ktrpg.Mutex.Lock.Acquire.Call.{lock_inside-obtained, lock_inside-none}
use ktrpg.Mutex.Unlock.{mymutex_getter_unlock, unlock_inside, mymutex_unlock}
use ktrpg.Mutex.Unlock.Release.{getter_unlock-table}
use ktrpg.Mutex.Identity.{
  ident, Unique, Stays, length-obtain_getter, obtain_getter-Stays, obtain_getter-Unique,
}

-- The getters that a call leaves, whether it returns or blocks, satisfy `Q`.
abbrev pub Leaves : (List Getter → Type 0) → Call → Type 0
Leaves Q (returned s) = Q s.mmgetter
Leaves Q (blocked s) = Q s.mmgetter
Leaves Q spinning = Unit

pub Leaves-bind :
    (Q : List Getter → Type 0) (m : Call) (f : Store → Call)
    → Leaves Q m
    → ((s : Store) → Q s.mmgetter → Leaves Q (f s))
    → Leaves Q (m >>= f)
Leaves-bind Q (returned s) f h k = k s h
Leaves-bind Q (blocked s) f h k = h
Leaves-bind Q spinning f h k = tt

pub Leaves-pthread :
    (Q : List Getter → Type 0) (th : Thread) (t : ℕ) (s : Store)
    → Q s.mmgetter
    → Leaves Q (pthread_mutex_lock th t s)
unfolding pthread_mutex_lock
Leaves-pthread Q th t s h = elim (Option-cases (mutex_at s t).owner) [
  | inl e ↦ rw (e, pthread_mutex_lock) h
  | inr (o, e) ↦ rw (e, pthread_mutex_lock) h
]

pub Leaves-if :
    (Q : List Getter → Type 0) (b : Bool) (x y : Call)
    → Leaves Q x
    → Leaves Q y
    → Leaves Q (if b then x else y)
Leaves-if Q true x y h k = h
Leaves-if Q false x y h k = k

module _ (base : List Getter) where
  abbrev pub Same : List Getter → Type 0
  Same gs = Keeps ident base gs

  pub Same-set :
      (gs : List Getter) (i : ℕ) (g : Getter)
      → Same gs
      → ident g ≡ ident (getter_at gs i)
      → Same (set gs i g)
  Same-set gs i g h e = record {
    size = length-set gs i g ∙ h.size;
    same = λ j. get_or-set_keeps ident gs i j g blank_getter e ∙ h.same j;
  }

  getter_lock-Same :
      (th : Thread) (t i : ℕ) (comment : List ℕ) (s : Store)
      → Same s.mmgetter
      → Leaves Same (mymutex_getter_lock th t i comment s)
  unfolding mymutex_getter_lock granted
  getter_lock-Same th t i comment s h =
      Leaves-bind Same _ _ (Leaves-pthread Same th t _ (Same-set s.mmgetter i _ h refl)) λ s1 h1.
        Leaves-bind Same _ _ (Leaves-pthread Same th 0 s1 h1)
          λ s2 h2. Same-set s2.mmgetter i _ h2 refl

  either :
      (b : Bool) (x y : Store)
      → Same x.mmgetter
      → Same y.mmgetter
      → Same (if b then x else y).mmgetter
  either true x y h k = h
  either false x y h k = k

  lock_searched-Same :
      (fuel : ℕ) (th : Thread) (t i : ℕ) (comment : List ℕ) (s : Store)
      → Same s.mmgetter
      → Leaves Same (lock_searched fuel th t i comment s)
  unfolding lock_searched
  lock_searched-Same fuel th t i comment s h =
      elim (Option-cases (is_dead_lock fuel i (set_wait i t s).mmgetter)) [
        | inl e ↦ rw (e, lock_searched) tt
        | inr (p, e) ↦ searched p.0 p.1 e
      ]
    where
      asked : Same (set_wait i t s).mmgetter
      asked = Same-set s.mmgetter i _ h refl

      finished :
          (owns : Store)
          → Same owns.mmgetter
          → Leaves Same (returned (pthread_mutex_unlock 0 (note_order th i owns)))
      finished owns h' = either (order_ok i owns) owns _ h' h'

      after : {table : List Getter} → Keeps ident (set_wait i t s).mmgetter table → Same table
      after k = record { size = k.size ∙ asked.size; same = λ j. k.same j ∙ asked.same j }

      searched :
          (answer : Bool) (table : List Getter)
          → is_dead_lock fuel i (set_wait i t s).mmgetter ≡ some (answer, table)
          → Leaves Same (lock_searched fuel th t i comment s)
      searched answer table e =
          let keeps =
            is_dead_lock-Keeps ident (λ b g. refl) fuel i (set_wait i t s).mmgetter table answer
              e in
          rw (e, lock_searched)
            (Leaves-bind Same _ _
              (getter_lock-Same th t i comment _ (
                either answer
                  (add_note (dead_lock th) (record (set_wait i t s) { mmgetter = table }))
                  (record (set_wait i t s) { mmgetter = table }) (after keeps) (after keeps)))
              finished)

  pub lock_held-Same :
      (fuel : ℕ) (th : Thread) (t i : ℕ) (comment : List ℕ) (s : Store)
      → Same s.mmgetter
      → Leaves Same (lock_held fuel th t i comment s)
  unfolding lock_held
  lock_held-Same fuel th t i comment s h =
      lock_searched-Same fuel th t i comment (note_order th i s) (either (order_ok i s) s _ h h)

-- What a call may do to the table of getters: none is given up, and no thread comes to have two.
pub record Evolves (gs gs' : List Getter) : Type 0 where
  pub size : length gs' ≡ length gs
  pub stays : Stays gs gs'
  pub unique : Unique gs → Unique gs'

pub is_of-ident :
    (th : Thread) (gs gs' : List Getter) (j : ℕ)
    → ident (getter_at gs' j) ≡ ident (getter_at gs j)
    → is_of th (getter_at gs' j) ≡ is_of th (getter_at gs j)
is_of-ident th gs gs' j e = ap (λ (x : Bool × ℕ × ℕ). x.0 && ((x.1 == th.pid) && (x.2 == th.tid))) e

pub Evolves-Same : (gs gs' : List Getter) → Same gs gs' → Evolves gs gs'
Evolves-Same gs gs' k = record {
  size = k.size;
  stays = λ j th own. is_of-ident th gs gs' j (k.same j) ∙ own;
  unique = λ u i j th hi hj oi oj.
      u i j th (rw (← k.size) hi) (rw (← k.size) hj) (sym (is_of-ident th gs gs' i (k.same i)) ∙ oi)
        (sym (is_of-ident th gs gs' j (k.same j)) ∙ oj);
}

pub Evolves-trans : (a b c : List Getter) → Evolves a b → Evolves b c → Evolves a c
Evolves-trans a b c p q = record {
  size = q.size ∙ p.size;
  stays = λ j th own. q.stays j th (p.stays j th own);
  unique = λ u. q.unique (p.unique u);
}

pub Evolves-refl : (gs : List Getter) → Evolves gs gs
Evolves-refl gs = Evolves-Same gs gs (record { size = refl; same = λ j. refl })

pub Leaves-weaken :
    (P Q : List Getter → Type 0) (c : Call)
    → ((gs : List Getter) → P gs → Q gs)
    → Leaves P c
    → Leaves Q c
Leaves-weaken P Q (returned s) k h = k s.mmgetter h
Leaves-weaken P Q (blocked s) k h = k s.mmgetter h
Leaves-weaken P Q spinning k h = tt
