-- ===== src/Mutex/Deadlock/Sound.antt =====
-- An answer of `isDeadLock` is right: YES means a cycle of waiting threads through `me`.
use ktrpg.Base.{
  ℕ, zero, suc, ◌≡◌, inl, inr, true, some, List, arith, ◌==◌, sym, ◌∙◌, Bool-cases, Option-cases,
  any,
}
use ktrpg.Mutex.Types.{Getter}
use ktrpg.Mutex.Deadlock.{getter_at, uncounted, mark, walk, is_dead_lock}
use ktrpg.Mutex.Deadlock.Chain.{
  holder_of, Chain, arrive, follow, Alike, Alike-mark, Alike-start, Chain-Alike, start,
  is_dead_lock-none, is_dead_lock-some,
}

-- A waits-for cycle: `me` waits for what getter `first` holds, and from there holders that all wait
-- lead back to `me`, which waits too.
pub record Cycle (mmgs : List Getter) (me : ℕ) : Type 0 where
  pub first : ℕ
  pub steps : ℕ
  pub held : holder_of mmgs me ≡ some first
  pub back : Chain mmgs me steps first

pub Cycle-Alike : {a b : List Getter} {me : ℕ} → Alike a b → Cycle a me → Cycle b me
Cycle-Alike {a} {b} {me} s c = record {
  first = c.first;
  steps = c.steps;
  held = sym (s.held me) ∙ c.held;
  back = Chain-Alike s c.back;
}

walk-Chain :
    (fuel me temp : ℕ) (mmgs table : List Getter)
    → walk fuel me temp mmgs ≡ some (true, table)
    → (n : ℕ) × Chain mmgs me n temp
unfolding walk holder_of
walk-Chain zero me temp mmgs table e = cc
walk-Chain (suc fuel) me temp mmgs table e = elim (Bool-cases (getter_at mmgs temp).is_waited) [
  | inr w ↦ cc (rw (w, walk) at e)
  | inl w ↦ elim (Bool-cases (temp == me)) [
    | inl m ↦ (0, arrive (ground arith) w)
    | inr m ↦ elim (Bool-cases (any uncounted mmgs)) [
      | inr u ↦ ground arith
      | inl u ↦ elim (Option-cases (holder_of mmgs temp)) [
        | inl h ↦ ground arith
        | inr (k, h) ↦
            let (n, c) = walk-Chain fuel me k (mark temp mmgs) table (ground arith) in
            (suc n, follow (ground arith) w h (Chain-Alike (Alike-mark mmgs temp) c))
      ]
    ]
  ]
]

-- Soundness: where `isDeadLock` answers YES, the table shows a waits-for cycle through `me`.
pub is_dead_lock-Cycle :
    (fuel me : ℕ) (mmgs table : List Getter)
    → is_dead_lock fuel me mmgs ≡ some (true, table)
    → Cycle mmgs me
is_dead_lock-Cycle fuel me mmgs table e = elim (Option-cases (holder_of mmgs me)) [
  | inl h ↦ cc (e, is_dead_lock-none fuel me mmgs h)
  | inr (k, h) ↦
      let (n, c) =
        walk-Chain fuel me k (start me mmgs) table (cc (e, is_dead_lock-some fuel me k mmgs h)) in
      record { first = k; steps = n; held = h; back = Chain-Alike (Alike-start me mmgs) c }
]
