-- ===== src/Mutex/System/Invariant.antt =====
-- What holds in every state that the threads reach.
use ktrpg.Base.{
  ℕ, ◌≤◌, ◌≡◌, ◌≢◌, ap, sym, subst, ◌∙◌, inl, inr, Bool, true, none, some, length, arith,
  ℕ_discrete,
}
use ktrpg.Mutex.Types.{Thread, Store, mymutex_type_max}
use ktrpg.Mutex.Lock.Owners.{owner_of}
use ktrpg.Mutex.Stage.Owners.{Change, keeps, takes, frees, frees_both}
use ktrpg.Mutex.System.{
  Place, Local, Move, System, Step, moves, Reach, here, later, update, outside, IsOrderly,
}
use ktrpg.Mutex.System.{
  idle, asks_lock, inside_lock, searching, wants, owns, settles, asks_unlock, inside_unlock,
}
use ktrpg.Mutex.System.Owned.{Owns, Keeps, in_section, Moved}
use ktrpg.Mutex.System.Moves.{Move-Moved}

-- No two numbers stand for one thread.
abbrev pub AreDistinct : (ℕ → Thread) → Type 0
AreDistinct who = (n m : ℕ) → who n ≡ who m → n ≡ m

-- Each thread owns what its place and its calls say, and who owns BEFORELOCK is inside it.
pub record Inv (who : ℕ → Thread) (x : System) : Type 0 where
  pub room : mymutex_type_max ≤ length x.store.mmutex
  pub keep : (n : ℕ) → Keeps (who n) (x.local n) x.store
  pub inside :
      (th : Thread)
      → owner_of x.store 0 ≡ some th
      → (n : ℕ) × (who n ≡ th) × (in_section (x.local n).place ≡ true)

-- A step of `th` leaves alone what another thread owns.
pub Change-others :
    (th th' : Thread) (s s' : Store) (u : ℕ)
    → Change th s s'
    → th' ≢ th
    → owner_of s u ≡ some th'
    → owner_of s' u ≡ some th'
Change-others th th' s s' u (keeps e) ne o = e u ∙ o
Change-others th th' s s' u (takes t free e) ne o = elim (ℕ_discrete t u) [
  | yes q ↦ absurd (cc (free, o, ap (owner_of s) q))
  | no nq ↦ ground (arith, e u)
]
Change-others th th' s s' u (frees own e) ne o = elim (ℕ_discrete 0 u) [
  | yes q ↦ absurd (ne (cc (own, ap (owner_of s) q, o)))
  | no nq ↦ ground (arith, e u)
]
Change-others th th' s s' u (frees_both t own own_t e) ne o = elim (ℕ_discrete 0 u) [
  | yes q ↦ absurd (ne (cc (own, ap (owner_of s) q, o)))
  | no nq ↦ elim (ℕ_discrete t u) [
    | yes q ↦ absurd (ne (cc (own_t, ap (owner_of s) q, o)))
    | no nqt ↦ ground (arith, e u)
  ]
]

Owns-others :
    (th : Thread) (has : ℕ → Bool) (p : Place) (s s' : Store)
    → ((u : ℕ) → owner_of s u ≡ some th → owner_of s' u ≡ some th)
    → Owns th has p s
    → Owns th has p s'
Owns-others th has idle s s' h o = tt
Owns-others th has (asks_lock t comment) s s' h o = o
Owns-others th has (inside_lock t comment) s s' h (ok, o) = (ok, h 0 o)
Owns-others th has searching s s' h o = h 0 o
Owns-others th has (wants t i bbool comment) s s' h o = o
Owns-others th has (owns t i bbool comment) s s' h (ok, o) = (ok, h t o)
Owns-others th has (settles t i bbool comment) s s' h (ok, o, o0) = (ok, h t o, h 0 o0)
Owns-others th has (asks_unlock t) s s' h (ok, o, g) = (ok, h t o, g)
Owns-others th has (inside_unlock t) s s' h (ok, o, g, o0) = (ok, h t o, g, h 0 o0)

Keeps-others :
    (th : Thread) (l : Local) (s s' : Store)
    → ((u : ℕ) → owner_of s u ≡ some th → owner_of s' u ≡ some th)
    → Keeps th l s
    → Keeps th l s'
Keeps-others th l s s' h k = record {
  place = Owns-others th l.has l.place s s' h k.place;
  has = λ t g. let (ok, o) = k.has t g in (ok, h t o);
}

module _ (fuel : ℕ) (may : Local → ℕ → Bool) (orderly : IsOrderly may) (who : ℕ → Thread)
    (distinct : AreDistinct who) where
  Move-Inv :
      (x y : System) (n : ℕ) (l : Local)
      → Move fuel may (who n) (x.local n) x.store l y.store
      → y.local ≡ update x.local n l
      → Inv who x
      → Inv who y
  Move-Inv x y n l m e inv = record {
    room = rw done.size inv.room;
    keep = λ j. kept j;
    inside = λ th o. inside th o;
  }
    where
      done : Moved (who n) (x.local n).place x.store l y.store
      done = Move-Moved fuel may (who n) (x.local n) x.store y.store inv.room (inv.keep n) orderly m

      at_self : y.local n ≡ l
      at_self = ap (λ f. f n) e ∙ ground arith

      at_other : (j : ℕ) → n ≢ j → y.local j ≡ x.local j
      at_other j ne = ap (λ f. f j) e ∙ ground arith

      kept : (j : ℕ) → Keeps (who j) (y.local j) y.store
      kept j = elim (ℕ_discrete n j) [
        | yes q ↦
            subst (λ i. Keeps (who i) (y.local i) y.store) q
              (subst (λ a. Keeps (who n) a y.store) (sym at_self) done.keep)
        | no nq ↦
            subst (λ a. Keeps (who j) a y.store) (sym (at_other j nq))
              (Keeps-others (who j) (x.local j) x.store y.store
                (λ u o.
                  Change-others (who n) (who j) x.store y.store u done.change
                    (λ w. nq (distinct n j (sym w))) o)
                (inv.keep j))
      ]

      inside :
          (th : Thread)
          → owner_of y.store 0 ≡ some th
          → (i : ℕ) × (who i ≡ th) × (in_section (y.local i).place ≡ true)
      inside th o = elim (done.section th o) [
        | inl (same_thread, within) ↦
            (n, sym same_thread, ap (λ a. in_section a.place) at_self ∙ within)
        | inr (before, outside_now) ↦
            let (i, w, within) = inv.inside th before in
            (
              i,
              w,
              ap (λ a. in_section a.place)
                    (at_other i
                      (λ q. cc (within, outside_now, ap (λ k. in_section (x.local k).place) q)))
                  ∙ within,
            )
      ]

  pub Step-Inv : {x y : System} → Step fuel may who x y → Inv who x → Inv who y
  Step-Inv {x} {y} (moves n l m e) inv = Move-Inv x y n l m e inv

  pub Reach-Inv : {x y : System} → Inv who x → Reach fuel may who x y → Inv who y
  Reach-Inv inv here = inv
  Reach-Inv inv (later r st) = Step-Inv st (Reach-Inv inv r)

-- A state in which no thread has called anything yet and nobody owns BEFORELOCK.
pub record Starts (x : System) : Type 0 where
  pub all_outside : (n : ℕ) → x.local n ≡ outside
  pub room : mymutex_type_max ≤ length x.store.mmutex
  pub free : owner_of x.store 0 ≡ none

pub Starts-Inv : (who : ℕ → Thread) {x : System} → Starts x → Inv who x
Starts-Inv who {x} b = record {
  room = b.room;
  keep = λ n.
      subst (λ l. Keeps (who n) l x.store) (sym (b.all_outside n))
        (record { place = tt; has = λ t h. cc });
  inside = λ th o. absurd (cc (b.free, o));
}
