-- ===== src/Mutex/Program/Reached.antt =====
-- What the processes of `main` of common/mymutex.c do to the tables before they unlock anything.
use ktrpg.Base.{
  ℕ, suc, ◌≤◌, ◌≡◌, refl, ap, sym, subst, ◌∙◌, Bool, true, false, List, [], ◌∷◌, arith, ℕ_discrete,
  Bool-cases, inl, inr, if◌then◌else◌,
}
use ktrpg.Mutex.Types.{Thread}
use ktrpg.Mutex.System.{call_lock, System, moves, Reach, later, update}
use ktrpg.Mutex.System.Progress.{update_self}
use ktrpg.Mutex.Program.{
  Command, locks, unlocks, does, Processes, Turn, goes_on, takes_lock, takes_unlock, takes_action,
  has_got, is_kill, Runs, here, later,
}
use ktrpg.Mutex.Program.Between.{mover, standing-others}

-- The unlocks, and the end of the child, that a process has still to do.
abbrev pub pending : List Command → ℕ
pending [] = 0
pending (locks t comment ∷ more) = pending more
pending (unlocks t comment ∷ more) = suc (pending more)
pending (does a ∷ more) = if is_kill a then suc (pending more) else pending more

-- A turn that goes into an unlock or ends the child.
abbrev pub is_pending : {fuel : ℕ} {who : ℕ → Thread} {p q : Processes} → Turn fuel who p q → Bool
is_pending (takes_unlock n t comment more c pl r ok e) = true
is_pending (takes_action n a more c pl r e) = is_kill a
is_pending _ = false

module _ (fuel : ℕ) (who : ℕ → Thread) where
  -- A turn that does not go into an unlock is a step on the tables, or none, and ends no process.
  pub Turn-Reach :
      (x : System) (p q : Processes) (turn : Turn fuel who p q)
      → is_pending turn ≡ false
      → Reach fuel has_got who x p.system
      → Reach fuel has_got who x q.system
  Turn-Reach x p q (goes_on n l s c ne m e) h r =
      subst (λ (y : Processes). Reach fuel has_got who x y.system) (sym e)
        (later r (moves n l m refl))
  Turn-Reach x p q (takes_lock n t comment more c pl r' ok e) h r =
      subst (λ (y : Processes). Reach fuel has_got who x y.system) (sym e)
        (later r (moves n _ (call_lock t comment pl ok refl refl) refl))
  Turn-Reach x p q (takes_unlock n t comment more c pl r' ok e) h r = cc
  Turn-Reach x p q (takes_action n a more c pl r' e) h r =
      subst (λ (y : Processes). Reach fuel has_got who x y.system) (sym e) r

  Turn-killed :
      (p q : Processes) (turn : Turn fuel who p q) → is_pending turn ≡ false → q.killed ≡ p.killed
  Turn-killed p q (goes_on n l s c ne m e) h = ap (λ (x : Processes). x.killed) e
  Turn-killed p q (takes_lock n t comment more c pl r ok e) h = ap (λ (x : Processes). x.killed) e
  Turn-killed p q (takes_unlock n t comment more c pl r ok e) h = cc
  Turn-killed p q (takes_action n a more c pl r e) h =
      ap (λ (x : Processes). x.killed) e ∙ ground (arith, h)

  left_to_do :
      (f : ℕ → List Command) (n : ℕ) (more : List Command) (q : Processes)
      → q.rest ≡ update f n more
      → pending more ≡ pending (q.rest n)
  left_to_do f n more q e = sym (ap pending (ap (λ g. g n) e ∙ update_self f n more))

  -- The unlocks that a process has still to do get less by those that it goes into.
  mover-pending :
      (p q : Processes) (turn : Turn fuel who p q)
      → pending (p.rest (mover turn)) ≡ (
          if is_pending turn
          then suc (pending (q.rest (mover turn)))
          else pending (q.rest (mover turn)))
  mover-pending p q (goes_on n l s c ne m e) = ap (λ (x : Processes). pending (x.rest n)) (sym e)
  mover-pending p q (takes_lock n t comment more c pl r ok e) =
      ap pending r ∙ left_to_do p.rest n more q (ap (λ (x : Processes). x.rest) e)
  mover-pending p q (takes_unlock n t comment more c pl r ok e) =
      ap pending r ∙ ap suc (left_to_do p.rest n more q (ap (λ (x : Processes). x.rest) e))
  mover-pending p q (takes_action n a more c pl r e) =
      ap pending r
      ∙ ap (λ k. if is_kill a then suc k else k)
          (left_to_do p.rest n more q (ap (λ (x : Processes). x.rest) e))

  counted :
      (p q : Processes) (turn : Turn fuel who p q) {b : Bool}
      → is_pending turn ≡ b
      → pending (p.rest (mover turn))
        ≡ (if b then suc (pending (q.rest (mover turn))) else pending (q.rest (mover turn)))
  counted p q turn h =
      mover-pending p q turn
      ∙ ap (λ b. if b then suc (pending (q.rest (mover turn))) else pending (q.rest (mover turn))) h

  pub Turn-pending :
      (p q : Processes) → Turn fuel who p q → (n : ℕ) → pending (q.rest n) ≤ pending (p.rest n)
  Turn-pending p q turn n = elim (ℕ_discrete (mover turn) n) [
    | yes e ↦ subst (λ k. pending (q.rest k) ≤ pending (p.rest k)) e (less p q turn)
    | no ne ↦ omega (arith, ap (λ x. pending x.1) (standing-others turn n ne))
  ]
    where
      less :
          (p q : Processes) (turn : Turn fuel who p q)
          → pending (q.rest (mover turn)) ≤ pending (p.rest (mover turn))
      less p q turn = elim (Bool-cases (is_pending turn)) [
        | inl h ↦ omega (arith, counted p q turn h)
        | inr h ↦ omega (arith, counted p q turn h)
      ]

  pub Runs-pending :
      {p q : Processes} → Runs fuel who p q → (n : ℕ) → pending (q.rest n) ≤ pending (p.rest n)
  Runs-pending here n = omega arith
  Runs-pending (later {q} {r} run turn) n =
      omega (arith, Runs-pending run n, Turn-pending q r turn n)

  not_pending :
      (p q : Processes) (turn : Turn fuel who p q)
      → pending (q.rest (mover turn)) ≡ pending (p.rest (mover turn))
      → is_pending turn ≡ false
  not_pending p q turn same = elim (Bool-cases (is_pending turn)) [
    | inl h ↦ absurd (omega (arith, same, counted p q turn h))
    | inr h ↦ h
  ]

  -- Where nothing of this was done on the way, neither the last turn nor one before it did it.
  split_last :
      {p q z : Processes} (run : Runs fuel who p q) (turn : Turn fuel who q z)
      → ((n : ℕ) → pending (z.rest n) ≡ pending (p.rest n))
      → (is_pending turn ≡ false) × ((n : ℕ) → pending (q.rest n) ≡ pending (p.rest n))
  split_last {p = p} {q = q} {z = z} run turn same =
      let less : (n : ℕ) → pending (q.rest n) ≡ pending (p.rest n) =
        λ n. omega (arith, same n, Runs-pending run n, Turn-pending q z turn n) in
      (not_pending q z turn (omega (arith, same (mover turn), less (mover turn))), less)

  -- Turns after which each process has as much of this still to do are steps on the tables.
  pub Runs-Reach :
      (x : System) {p q : Processes}
      → Runs fuel who p q
      → ((n : ℕ) → pending (q.rest n) ≡ pending (p.rest n))
      → Reach fuel has_got who x p.system
      → Reach fuel has_got who x q.system
  Runs-Reach x here same r = r
  Runs-Reach x (later {q} {r = z} run turn) same r =
      let (last, before) = split_last run turn same in
      Turn-Reach x q z turn last (Runs-Reach x run before r)

  pub Runs-killed :
      {p q : Processes}
      → Runs fuel who p q
      → ((n : ℕ) → pending (q.rest n) ≡ pending (p.rest n))
      → q.killed ≡ p.killed
  Runs-killed here same = refl
  Runs-killed (later {q} {r = z} run turn) same =
      let (last, before) = split_last run turn same in
      Turn-killed q z turn last ∙ Runs-killed run before
