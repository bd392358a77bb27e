-- ===== src/Mutex/System/Getters.antt =====
-- The table of getters under threads that interleave in the calls of common/mymutex.c.
use ktrpg.Base.{
  ℕ, ◌<◌, ◌≡◌, refl, ap, sym, subst, ◌∙◌, Bool, true, Option, none, some, List, length, arith,
  ℕ_discrete,
}
use ktrpg.Mutex.Types.{Thread, Getter, Store, mymutex_type_beforelock}
use ktrpg.Mutex.Deadlock.{getter_at}
use ktrpg.Mutex.Table.{returned, is_of, pthread_mutex_lock}
use ktrpg.Mutex.Identity.Calls.{Evolves, Evolves-refl, Evolves-trans, Leaves, Leaves-pthread}
use ktrpg.Mutex.Identity.Calls.Whole.{unlock_inside-Evolves}
use ktrpg.Mutex.Stage.{Began, begin_lock}
use ktrpg.Mutex.Stage.Getters.{BeginsOn, begin_lock-BeginsOn, end_lock-Evolves}
use ktrpg.Mutex.System.{
  Place, idle, wants, owns, settles, Local, Move, call_lock, enter_lock, give_up, hang, begin, take,
  return_to, end, call_unlock, enter_unlock, leave, System, Step, moves, Reach, here, later,
}
use ktrpg.Mutex.System.Invariant.{AreDistinct}
use ktrpg.Mutex.System.Progress.{update_self}

-- The getter that a call works on.
abbrev pub works_on : Place → Option ℕ
works_on (wants t i b comment) = some i
works_on (owns t i b comment) = some i
works_on (settles t i b comment) = some i
works_on _ = none

-- It is in the table, and the thread's.
abbrev pub IsOwn : Thread → List Getter → Place → Type 0
IsOwn th gs p = (i : ℕ) → works_on p ≡ some i → (i < length gs) × (is_of th (getter_at gs i) ≡ true)

IsOwn-Evolves :
    (th : Thread) (gs gs' : List Getter) (p : Place)
    → Evolves gs gs'
    → IsOwn th gs p
    → IsOwn th gs' p
IsOwn-Evolves th gs gs' p ev h i e = let (lt, mine) = h i e in (rw ev.size lt, ev.stays i th mine)

-- What a step does to the table, and to the getter that the thread's call works on.
pub record Worked (th : Thread) (gs gs' : List Getter) (p : Place) : Type 0 where
  pub evolves : Evolves gs gs'
  pub own : IsOwn th gs' p

module _ (fuel : ℕ) (may : Local → ℕ → Bool) (th : Thread) (l : Local) (s s' : Store)
    (mine : IsOwn th s.mmgetter l.place) where
  locked-Evolves :
      (t : ℕ) → pthread_mutex_lock th t s ≡ returned s' → Evolves s.mmgetter s'.mmgetter
  locked-Evolves t e =
      subst (Leaves (Evolves s.mmgetter)) e
        (Leaves-pthread (Evolves s.mmgetter) th t s (Evolves-refl s.mmgetter))

  still-Evolves : s' ≡ s → Evolves s.mmgetter s'.mmgetter
  still-Evolves e =
      subst (λ (x : Store). Evolves s.mmgetter x.mmgetter) (sym e) (Evolves-refl s.mmgetter)

  began : (t : ℕ) {b : Began} → begin_lock fuel th t s ≡ b → BeginsOn th s.mmgetter b
  began t e = subst (BeginsOn th s.mmgetter) e (begin_lock-BeginsOn fuel th t s)

  -- A step to a place `p` whose call works on no getter.
  free :
      {l' : Local} (m : Local)
      → l' ≡ m
      → works_on m.place ≡ none
      → Evolves s.mmgetter s'.mmgetter
      → Worked th s.mmgetter s'.mmgetter l'.place
  free m e nowhere ev = record {
    evolves = ev;
    own = λ i q. absurd (cc (nowhere, q, ap (λ (x : Local). works_on x.place) e));
  }

  -- A step within a call.
  goes_on :
      {l' : Local} (m : Local)
      → l' ≡ m
      → works_on m.place ≡ works_on l.place
      → Evolves s.mmgetter s'.mmgetter
      → Worked th s.mmgetter s'.mmgetter l'.place
  goes_on m e same ev = record {
    evolves = ev;
    own = λ i q.
        IsOwn-Evolves th s.mmgetter s'.mmgetter l.place ev mine i
          (sym same ∙ sym (ap (λ (x : Local). works_on x.place) e) ∙ q);
  }

  pub Move-Worked :
      {l' : Local} → Move fuel may th l s l' s' → Worked th s.mmgetter s'.mmgetter l'.place
  Move-Worked (call_lock t c q ok e e') = free _ e refl (still-Evolves e')
  Move-Worked (enter_lock t c q e e') = free _ e' refl (locked-Evolves mymutex_type_beforelock e)
  Move-Worked (give_up t c q e e') = free _ e' refl (began t e)
  Move-Worked (hang t c q e e' e'') = free _ e' refl (still-Evolves e'')
  Move-Worked (begin t i b c q e e') =
      let (ev, lt, own) = began t e in
      record {
        evolves = ev;
        own = λ j w.
            subst (λ k. (k < length s'.mmgetter) × (is_of th (getter_at s'.mmgetter k) ≡ true))
              (cc (w, e')) (lt, own);
      }
  Move-Worked (take t i b c q e e') = goes_on _ e' (sym (ap works_on q)) (locked-Evolves t e)
  Move-Worked (return_to t i b c q e e') =
      goes_on _ e' (sym (ap works_on q)) (locked-Evolves mymutex_type_beforelock e)
  Move-Worked (end t i b c q e e') =
      free _ e' refl (
        subst (λ (x : Store). Evolves s.mmgetter x.mmgetter) (sym e)
          (end_lock-Evolves th t i b c s))
  Move-Worked (call_unlock t q ok h e e') = free _ e refl (still-Evolves e')
  Move-Worked (enter_unlock t q e e') = free _ e' refl (locked-Evolves mymutex_type_beforelock e)
  Move-Worked (leave t q e e') =
      free _ e' refl (subst (Leaves (Evolves s.mmgetter)) e (unlock_inside-Evolves th t s))

-- A getter has one thread.
pub is_of-same : (o o' : Thread) (g : Getter) → is_of o g ≡ true → is_of o' g ≡ true → o ≡ o'
is_of-same o o' g h h' =
    let pids : o.pid ≡ o'.pid = ground (arith, h, h') in
    let tids : o.tid ≡ o'.tid = ground (arith, h, h') in
    ap (λ k. record { pid = k; tid = o.tid }) pids ∙ ap (λ k. record { pid = o'.pid; tid = k }) tids

module _ (fuel : ℕ) (may : Local → ℕ → Bool) (who : ℕ → Thread) (distinct : AreDistinct who) where
  abbrev Owned : System → Type 0
  Owned x = (n : ℕ) → IsOwn (who n) x.store.mmgetter (x.local n).place

  Step-Owned :
      (x y : System)
      → Step fuel may who x y
      → Owned x
      → Evolves x.store.mmgetter y.store.mmgetter × Owned y
  Step-Owned x y (moves k l m e) own = (done.evolves, λ n. kept n)
    where
      done : Worked (who k) x.store.mmgetter y.store.mmgetter l.place
      done = Move-Worked fuel may (who k) (x.local k) x.store y.store (own k) m

      at_self : y.local k ≡ l
      at_self = ap (λ f. f k) e ∙ update_self x.local k l

      kept : (n : ℕ) → IsOwn (who n) y.store.mmgetter (y.local n).place
      kept n = elim (ℕ_discrete k n) [
        | yes q ↦
            subst (λ j. IsOwn (who j) y.store.mmgetter (y.local j).place) q
              (subst (λ (a : Local). IsOwn (who k) y.store.mmgetter a.place) (sym at_self) done.own)
        | no nq ↦
            let same : y.local n ≡ x.local n = ap (λ f. f n) e ∙ ground arith in
            subst (λ (a : Local). IsOwn (who n) y.store.mmgetter a.place) (sym same)
              (IsOwn-Evolves (who n) x.store.mmgetter y.store.mmgetter (x.local n).place
                done.evolves (own n))
      ]

  pub Reach-Owned :
      {x y : System}
      → Owned x
      → Reach fuel may who x y
      → Evolves x.store.mmgetter y.store.mmgetter × Owned y
  Reach-Owned {x} own here = (Evolves-refl x.store.mmgetter, own)
  Reach-Owned {x} own (later {y} {z} r st) =
      let (before, own') = Reach-Owned own r in
      let (now, own'') = Step-Owned y z st own' in
      (Evolves-trans x.store.mmgetter y.store.mmgetter z.store.mmgetter before now, own'')

-- However the calls interleave, also those that unlock what another thread has locked, from a state in
-- which no thread is in a call: no getter is given up, no thread comes to have two, and no two
-- threads are in a call that works on one getter. Numbers stand for different threads.
pub getters_apart :
    (fuel : ℕ) (may : Local → ℕ → Bool) (who : ℕ → Thread) (x y : System)
    → AreDistinct who
    → ((n : ℕ) → (x.local n).place ≡ idle)
    → Reach fuel may who x y
    → Evolves x.store.mmgetter y.store.mmgetter
      × ((n m i : ℕ)
          → works_on (y.local n).place ≡ some i
          → works_on (y.local m).place ≡ some i
          → n ≡ m)
getters_apart fuel may who x y distinct start r =
    let (ev, own) =
      Reach-Owned fuel may who distinct (λ n i e. absurd (cc (e, ap works_on (start n)))) r in
    (
      ev,
      λ n m i e e'.
          distinct n m (
            is_of-same (who n) (who m) (getter_at y.store.mmgetter i) (own n i e).1 (own m i e').1),
    )
