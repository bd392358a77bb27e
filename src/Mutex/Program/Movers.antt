-- ===== src/Mutex/Program/Movers.antt =====
-- Who takes a turn in `main` of common/mymutex.c, and from where.
use ktrpg.Base.{
  ℕ, zero, suc, ◌<◌, ◌≡◌, ◌≢◌, ◌⊎◌, refl, ap, sym, ◌∙◌, inl, inr, Bool, true, some, List, [],
  length, arith,
}
use ktrpg.Mutex.Types.{Thread, Store}
use ktrpg.Mutex.Lock.Owners.{owner_of}
use ktrpg.Mutex.Stage.{waits, begin_lock}
use ktrpg.Mutex.System.{
  asks_lock, asks_unlock, inside_lock, wants, Local, Move, call_lock, enter_lock, give_up, hang,
  begin, take, return_to, end, call_unlock, enter_unlock, leave, outside,
}
use ktrpg.Mutex.System.Progress.{update_self}
use ktrpg.Mutex.System.Stuck.{waiting_stays}
use ktrpg.Mutex.Program.{
  Processes, Turn, goes_on, takes_lock, takes_unlock, takes_action, Runs, here, later, after_fork,
  has_got, parent_no, child_no,
}
use ktrpg.Mutex.Program.Between.{standing, mover, standing-others}

-- Process `n` waits for the mutex `t`.
abbrev pub WaitsFor : ℕ → ℕ → Processes → Type 0
WaitsFor n t p =
    (i : ℕ) × (b : Bool) × (comment : List ℕ) × ((p.system.local n).place ≡ wants t i b comment)

-- A thread comes to wait for a mutex only from inside BEFORELOCK.
Move-begins :
    (fuel : ℕ) (th : Thread) (l l' : Local) (s s' : Store) (t i : ℕ) (b : Bool) (comment : List ℕ)
    → l'.place ≡ wants t i b comment
    → Move fuel has_got th l s l' s'
    → (l.place ≡ inside_lock t comment) × (begin_lock fuel th t s ≡ waits i b s') × (l'.has ≡ l.has)
Move-begins fuel th l l' s s' t i b comment w (call_lock t' c q ok e e') = cc
Move-begins fuel th l l' s s' t i b comment w (enter_lock t' c q e e') = cc
Move-begins fuel th l l' s s' t i b comment w (give_up t' c q e e') = cc
Move-begins fuel th l l' s s' t i b comment w (hang t' c q e e' e'') = cc
Move-begins fuel th l l' s s' t i b comment w (begin t' i' b' c q e e') =
    let same : wants t' i' b' c ≡ wants t i b comment = sym (ap (λ (x : Local). x.place) e') ∙ w in
    (cc (q, same), cc (e, same), ap (λ (x : Local). x.has) e')
Move-begins fuel th l l' s s' t i b comment w (take t' i' b' c q e e') = cc
Move-begins fuel th l l' s s' t i b comment w (return_to t' i' b' c q e e') = cc
Move-begins fuel th l l' s s' t i b comment w (end t' i' b' c q e e') = cc
Move-begins fuel th l l' s s' t i b comment w (call_unlock t' q ok h e e') = cc
Move-begins fuel th l l' s s' t i b comment w (enter_unlock t' q e e') = cc
Move-begins fuel th l l' s s' t i b comment w (leave t' q e e') = cc

pub mover-begins :
    (fuel : ℕ) (who : ℕ → Thread) (r p : Processes) (turn : Turn fuel who r p) (t i : ℕ) (b : Bool)
    (comment : List ℕ)
    → (p.system.local (mover turn)).place ≡ wants t i b comment
    → ((r.system.local (mover turn)).place ≡ inside_lock t comment)
      × (begin_lock fuel (who (mover turn)) t r.system.store ≡ waits i b p.system.store)
      × ((p.system.local (mover turn)).has ≡ (r.system.local (mover turn)).has)
mover-begins fuel who r p (goes_on n l s c ne m e) t i b comment w =
    let at_n : p.system.local n ≡ l =
      ap (λ (x : Processes). x.system.local n) e ∙ update_self r.system.local n l in
    let (inside, begun, kept) =
      Move-begins fuel (who n) (r.system.local n) l r.system.store s t i b comment
        (sym (ap (λ (x : Local). x.place) at_n) ∙ w) m in
    (
      inside,
      begun ∙ ap (waits i b) (sym (ap (λ (x : Processes). x.system.store) e)),
      ap (λ (x : Local). x.has) at_n ∙ kept,
    )
mover-begins fuel who r p (takes_lock n u c' more c pl k ok e) t i b comment w =
    let at_n : (p.system.local n).place ≡ asks_lock u c' =
      ap (λ (x : Processes). (x.system.local n).place) e
      ∙ ap (λ (x : Local). x.place) (update_self r.system.local n _) in
    cc (at_n, w)
mover-begins fuel who r p (takes_unlock n u c' more c pl k ok e) t i b comment w =
    let at_n : (p.system.local n).place ≡ asks_unlock u =
      ap (λ (x : Processes). (x.system.local n).place) e
      ∙ ap (λ (x : Local). x.place) (update_self r.system.local n _) in
    cc (at_n, w)
mover-begins fuel who r p (takes_action n a more c pl k e) t i b comment w = cc (pl, w, e)

-- A process that has not been started takes no turn.
mover-started :
    (fuel : ℕ) (who : ℕ → Thread) (p q : Processes) (turn : Turn fuel who p q)
    → standing p (mover turn) ≢ (outside, [])
mover-started fuel who p q (goes_on n l s c ne m e) h = ne (ap (λ x. x.0.place) h)
mover-started fuel who p q (takes_lock n t c' more c pl r ok e) h = cc (r, ap (λ x. x.1) h)
mover-started fuel who p q (takes_unlock n t c' more c pl r ok e) h = cc (r, ap (λ x. x.1) h)
mover-started fuel who p q (takes_action n a more c pl r e) h = cc (r, ap (λ x. x.1) h)

pub Runs-others :
    (fuel : ℕ) (who : ℕ → Thread) (p q : Processes) (n : ℕ)
    → standing p n ≡ (outside, [])
    → Runs fuel who p q
    → standing q n ≡ (outside, [])
Runs-others fuel who p q n h here = h
Runs-others fuel who p q n h (later {q = r} run turn) =
    let h' = Runs-others fuel who p r n h run in
    standing-others turn n (λ e. mover-started fuel who r q turn (ap (standing r) e ∙ h')) ∙ h'

-- Only the parent and the child take turns.
pub mover_is_one :
    (fuel : ℕ) (who : ℕ → Thread) (s : Store) (p q : Processes) (turn : Turn fuel who p q)
    → Runs fuel who (after_fork true s) p
    → (mover turn ≡ parent_no) ⊎ (mover turn ≡ child_no)
mover_is_one fuel who s p q turn run = one (mover turn) refl
  where
    one : (n : ℕ) → mover turn ≡ n → (mover turn ≡ parent_no) ⊎ (mover turn ≡ child_no)
    one zero e = inl e
    one (suc zero) e = inr e
    one (suc (suc n)) e = absurd (
        mover-started fuel who p q turn (
          ap (standing p) e
          ∙ Runs-others fuel who (after_fork true s) p (suc (suc n))
              (ap (λ l. (outside, l)) (ground arith)) run))

-- A process that waits for a mutex that somebody owns takes no turn.
pub mover-waits :
    (fuel : ℕ) (who : ℕ → Thread) (p q : Processes) (turn : Turn fuel who p q) (t : ℕ) (o : Thread)
    → WaitsFor (mover turn) t p
    → t < length p.system.store.mmutex
    → owner_of p.system.store t ≡ some o
    → ⊥
mover-waits fuel who p q (goes_on n l s c ne m e) t o (i, b, comment, w) lt own =
    waiting_stays fuel has_got t i b comment w lt own m
mover-waits fuel who p q (takes_lock n u c' more c pl r ok e) t o (i, b, comment, w) lt own = cc
mover-waits fuel who p q (takes_unlock n u c' more c pl r ok e) t o (i, b, comment, w) lt own = cc
mover-waits fuel who p q (takes_action n a more c pl r e) t o (i, b, comment, w) lt own = cc
