-- ===== src/Mutex/Deadlock/Kept.antt =====
-- `isDeadLock` writes nothing but the `counted` flags.
use ktrpg.Base.{
  ℕ, zero, suc, ◌≡◌, refl, subst, ◌∙◌, inl, inr, Bool, true, false, Option, some, List, map, arith,
  ◌==◌, Bool-cases, Option-cases, any, length, length-set, length-map, get_or-set_keeps,
  get_or-map_keeps,
}
use ktrpg.Mutex.Types.{Getter, blank_getter}
use ktrpg.Mutex.Deadlock.{
  getter_at, uncounted, set_counted, mark, walk, is_dead_lock, reset_counted,
}
use ktrpg.Mutex.Deadlock.Chain.{holder_of, start, is_dead_lock-none, is_dead_lock-some}

-- The same number of getters, and the same value of `f` at each.
pub record Keeps {B : Type 0} (f : Getter → B) (mmgs table : List Getter) : Type 0 where
  pub size : length table ≡ length mmgs
  pub same : (j : ℕ) → f (getter_at table j) ≡ f (getter_at mmgs j)

same_table :
    {a b : Bool} {s t : List Getter}
    → ◌≡◌ {A = Option (Bool × List Getter)} (some (a, s)) (some (b, t))
    → s ≡ t
same_table e = ground arith

module _ {B : Type 0} (f : Getter → B)
    (blind : (b : Bool) (g : Getter) → f (set_counted b g) ≡ f g) where
  Keeps-mark : (t : ℕ) (mmgs : List Getter) → Keeps f mmgs (mark t mmgs)
  Keeps-mark t mmgs = record {
    size = length-set mmgs t _;
    same = λ j. get_or-set_keeps f mmgs t j _ blank_getter (blind true (getter_at mmgs t));
  }

  Keeps-same : (mmgs table : List Getter) → mmgs ≡ table → Keeps f mmgs table
  Keeps-same mmgs table e = subst (Keeps f mmgs) e (record { size = refl; same = λ j. refl })

  Keeps-trans : (a b c : List Getter) → Keeps f a b → Keeps f b c → Keeps f a c
  Keeps-trans a b c p q = record { size = q.size ∙ p.size; same = λ j. q.same j ∙ p.same j }

  Keeps-reset : (me : ℕ) (mmgs : List Getter) → Keeps f mmgs (reset_counted me mmgs)
  Keeps-reset me mmgs =
      Keeps-trans mmgs (map (set_counted false) mmgs) (reset_counted me mmgs)
        (record {
          size = length-map mmgs (set_counted false);
          same = λ j. get_or-map_keeps f (set_counted false) mmgs j blank_getter (blind false);
        })
        (Keeps-mark me (map (set_counted false) mmgs))

  walk-Keeps :
      (fuel me temp : ℕ) (mmgs table : List Getter) (answer : Bool)
      → walk fuel me temp mmgs ≡ some (answer, table)
      → Keeps f mmgs table
  unfolding walk holder_of
  walk-Keeps zero me temp mmgs table answer e = cc
  walk-Keeps (suc fuel) me temp mmgs table answer e =
      elim (Bool-cases (getter_at mmgs temp).is_waited) [
        | inr w ↦ Keeps-same mmgs table (ground arith)
        | inl w ↦ elim (Bool-cases (temp == me)) [
          | inl m ↦ Keeps-same mmgs table (ground arith)
          | inr m ↦ elim (Bool-cases (any uncounted mmgs)) [
            | inr u ↦ Keeps-same mmgs table (ground arith)
            | inl u ↦ elim (Option-cases (holder_of mmgs temp)) [
              | inl h ↦ Keeps-same mmgs table (ground arith)
              | inr (k, h) ↦
                  Keeps-trans mmgs (mark temp mmgs) table (Keeps-mark temp mmgs)
                    (walk-Keeps fuel me k (mark temp mmgs) table answer (ground arith))
            ]
          ]
        ]
      ]

  -- The table that `isDeadLock` leaves is the one that it was given, but for `counted`.
  pub is_dead_lock-Keeps :
      (fuel me : ℕ) (mmgs table : List Getter) (answer : Bool)
      → is_dead_lock fuel me mmgs ≡ some (answer, table)
      → Keeps f mmgs table
  is_dead_lock-Keeps fuel me mmgs table answer e = elim (Option-cases (holder_of mmgs me)) [
    | inl h ↦ Keeps-trans mmgs (reset_counted me mmgs) table (Keeps-reset me mmgs) (
        Keeps-same (reset_counted me mmgs) table
          (same_table {a = false} {b = answer} (cc (e, is_dead_lock-none fuel me mmgs h))))
    | inr (k, h) ↦
        Keeps-trans mmgs (start me mmgs) table
          (Keeps-trans mmgs (reset_counted me mmgs) (start me mmgs) (Keeps-reset me mmgs)
            (Keeps-mark me (reset_counted me mmgs)))
          (walk-Keeps fuel me k (start me mmgs) table answer
            (cc (e, is_dead_lock-some fuel me k mmgs h)))
  ]
