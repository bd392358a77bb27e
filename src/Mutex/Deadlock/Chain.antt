-- ===== src/Mutex/Deadlock/Chain.antt =====
-- The waits-for chain that `isDeadLock` follows, and what the marks leave alone.
use ktrpg.Base.{
  ℕ, zero, suc, ◌<◌, ◌≡◌, ◌≢◌, refl, sym, ap, inl, inr, true, false, not, ◌&&◌, Option, none, some,
  List, [], ◌∷◌, map, arith, ◌==◌, Bool-cases, length, any, find_index, find_index-set,
  find_index-map, find_index_sound, find_index-none_of, get_or-set_keeps, get_or-map_keeps,
}
use mathlib.Core.Path.{fun_ext}
use ktrpg.Mutex.Types.{Getter, blank_getter}
use ktrpg.Mutex.Deadlock.{
  getter_at, holds, first_holder, next_holder, uncounted, set_counted, mark, reset_counted, walk,
  is_dead_lock,
}

abbrev pub IsWaiting : List Getter → ℕ → Type 0
IsWaiting mmgs i = (getter_at mmgs i).is_waited ≡ true

-- The first used getter that holds what getter `i` waits for.
unfoldable pub holder_of : List Getter → ℕ → Option ℕ
holder_of mmgs i = find_index (next_holder (getter_at mmgs i).wait_mutex_type) mmgs

-- `Chain mmgs me n i`: from `i`, `n` steps to holders lead to `me` for the first time, over
-- getters that all wait.
pub data Chain (mmgs : List Getter) (me : ℕ) : ℕ → ℕ → Type 0 where
  arrive : {i : ℕ} → i ≡ me → IsWaiting mmgs i → Chain mmgs me zero i
  follow :
      {n i k : ℕ}
      → i ≢ me
      → IsWaiting mmgs i
      → holder_of mmgs i ≡ some k
      → Chain mmgs me n k
      → Chain mmgs me (suc n) i

-- `Ends mmgs me n i`: from `i`, `n` steps to holders, none of them `me`, lead to a getter that does
-- not wait, or that waits for what nobody holds.
pub data Ends (mmgs : List Getter) (me : ℕ) : ℕ → ℕ → Type 0 where
  free : {i : ℕ} → (getter_at mmgs i).is_waited ≡ false → Ends mmgs me zero i
  unheld : {i : ℕ} → i ≢ me → holder_of mmgs i ≡ none → Ends mmgs me zero i
  onward :
      {n i k : ℕ} → i ≢ me → holder_of mmgs i ≡ some k → Ends mmgs me n k → Ends mmgs me (suc n) i

-- Two tables that differ in `counted` only, as far as the search can see.
pub record Alike (a b : List Getter) : Type 0 where
  pub waited : (i : ℕ) → (getter_at a i).is_waited ≡ (getter_at b i).is_waited
  pub held : (i : ℕ) → holder_of a i ≡ holder_of b i
  pub wanted : (i : ℕ) → (getter_at a i).wait_mutex_type ≡ (getter_at b i).wait_mutex_type
  pub used : (i : ℕ) → (getter_at a i).is_used ≡ (getter_at b i).is_used

pub Alike-sym : {a b : List Getter} → Alike a b → Alike b a
Alike-sym p = record {
  waited = λ i. sym (p.waited i);
  held = λ i. sym (p.held i);
  wanted = λ i. sym (p.wanted i);
  used = λ i. sym (p.used i);
}

pub Alike-trans : {a b c : List Getter} → Alike a b → Alike b c → Alike a c
Alike-trans p q = record {
  waited = λ i. cc (p.waited i, q.waited i);
  held = λ i. cc (p.held i, q.held i);
  wanted = λ i. cc (p.wanted i, q.wanted i);
  used = λ i. cc (p.used i, q.used i);
}

pub Alike-mark : (mmgs : List Getter) (t : ℕ) → Alike (mark t mmgs) mmgs
unfolding holder_of
Alike-mark mmgs t = record {
  waited = λ i. get_or-set_keeps (λ g. g.is_waited) mmgs t i _ blank_getter refl;
  held = λ i.
      rw (wait i) (
        find_index-set (next_holder (getter_at mmgs i).wait_mutex_type) mmgs t _ blank_getter refl);
  wanted = wait;
  used = λ i. get_or-set_keeps (λ g. g.is_used) mmgs t i _ blank_getter refl;
}
  where
    wait :
        (i : ℕ) → (getter_at (mark t mmgs) i).wait_mutex_type ≡ (getter_at mmgs i).wait_mutex_type
    wait i = get_or-set_keeps (λ g. g.wait_mutex_type) mmgs t i _ blank_getter refl

pub Alike-clear : (mmgs : List Getter) → Alike (map (set_counted false) mmgs) mmgs
unfolding holder_of
Alike-clear mmgs = record {
  waited =
      λ i. get_or-map_keeps (λ g. g.is_waited) (set_counted false) mmgs i blank_getter (λ g. refl);
  held = λ i. rw (wait i) (
      find_index-map (next_holder (getter_at mmgs i).wait_mutex_type) (set_counted false) mmgs
        (λ g. refl));
  wanted = wait;
  used = λ i. get_or-map_keeps (λ g. g.is_used) (set_counted false) mmgs i blank_getter (λ g. refl);
}
  where
    wait :
        (i : ℕ)
        → (getter_at (map (set_counted false) mmgs) i).wait_mutex_type
          ≡ (getter_at mmgs i).wait_mutex_type
    wait i =
        get_or-map_keeps (λ g. g.wait_mutex_type) (set_counted false) mmgs i blank_getter
          (λ g. refl)

pub Chain-Alike : {a b : List Getter} {me n i : ℕ} → Alike a b → Chain a me n i → Chain b me n i
Chain-Alike s (arrive e w) = arrive e (cc (s.waited _))
Chain-Alike s (follow ne w h c) = follow ne (cc (s.waited _)) (cc (s.held _)) (Chain-Alike s c)

pub any-nonzero :
    (t : ℕ) (xs : List ℕ) → t ≢ 0 → any (λ s. not (s == 0) && (s == t)) xs ≡ holds t xs
unfolding any
any-nonzero t [] ne = refl
any-nonzero t (x ∷ xs) ne = ground (arith, any-nonzero t xs ne)

-- For a type other than 0 the two searches test the same.
pub first-next : (t : ℕ) (g : Getter) → t ≢ 0 → first_holder t g ≡ next_holder t g
first-next t g ne = ground (arith, any-nonzero t g.get_mutex_type ne)

pub Ends-Alike : {a b : List Getter} {me n i : ℕ} → Alike a b → Ends a me n i → Ends b me n i
Ends-Alike s (free w) = free (cc (s.waited _))
Ends-Alike s (unheld ne h) = unheld ne (cc (s.held _))
Ends-Alike s (onward ne h c) = onward ne (cc (s.held _)) (Ends-Alike s c)

holder_of-zero :
    (mmgs : List Getter) (i : ℕ) → (getter_at mmgs i).wait_mutex_type ≡ 0 → holder_of mmgs i ≡ none
unfolding holder_of
holder_of-zero mmgs i e = find_index-none_of _ mmgs (λ g. ground arith)

pub holder_of_sound :
    (mmgs : List Getter) (i k : ℕ)
    → holder_of mmgs i ≡ some k
    → (k < length mmgs) × ((getter_at mmgs k).is_used ≡ true)
unfolding holder_of
holder_of_sound mmgs i k e = ground (arith, find_index_sound _ mmgs blank_getter k e)

-- The table that the `while` starts from.
abbrev pub start : ℕ → List Getter → List Getter
start me mmgs = mark me (reset_counted me mmgs)

pub Alike-start : (me : ℕ) (mmgs : List Getter) → Alike (start me mmgs) mmgs
Alike-start me mmgs =
    Alike-trans (Alike-mark (reset_counted me mmgs) me)
      (Alike-trans (Alike-mark (map (set_counted false) mmgs) me) (Alike-clear mmgs))

Alike-reset : (me : ℕ) (mmgs : List Getter) → Alike (reset_counted me mmgs) mmgs
Alike-reset me mmgs = Alike-trans (Alike-mark (map (set_counted false) mmgs) me) (Alike-clear mmgs)

first_search :
    (mmgs : List Getter) (i : ℕ)
    → (getter_at mmgs i).wait_mutex_type ≢ 0
    → find_index (first_holder (getter_at mmgs i).wait_mutex_type) mmgs ≡ holder_of mmgs i
unfolding holder_of
first_search mmgs i ne =
    ap (λ p. find_index p mmgs) (fun_ext (λ g. first-next (getter_at mmgs i).wait_mutex_type g ne))

-- The search starts from the first holder of what `me` waits for.
pub is_dead_lock-none :
    (fuel me : ℕ) (mmgs : List Getter)
    → holder_of mmgs me ≡ none
    → is_dead_lock fuel me mmgs ≡ some (false, reset_counted me mmgs)
unfolding is_dead_lock
is_dead_lock-none fuel me mmgs h =
    elim (Bool-cases ((getter_at (reset_counted me mmgs) me).wait_mutex_type == 0)) [
      | inl z ↦ rw (z, is_dead_lock)
      | inr z ↦
          rw (z, is_dead_lock)
            (rw (
              first_search (reset_counted me mmgs) me (ground arith),
              (Alike-reset me mmgs).held me,
              h,
            ))
    ]

pub is_dead_lock-some :
    (fuel me k : ℕ) (mmgs : List Getter)
    → holder_of mmgs me ≡ some k
    → is_dead_lock fuel me mmgs ≡ walk fuel me k (start me mmgs)
unfolding is_dead_lock
is_dead_lock-some fuel me k mmgs h =
    elim (Bool-cases ((getter_at (reset_counted me mmgs) me).wait_mutex_type == 0)) [
      | inl z ↦ cc (
        h,
        (Alike-reset me mmgs).held me,
        holder_of-zero (reset_counted me mmgs) me (ground arith),
      )
      | inr z ↦
          rw (z, is_dead_lock)
            (rw (
              first_search (reset_counted me mmgs) me (ground arith),
              (Alike-reset me mmgs).held me,
              h,
            ))
    ]

-- One round of the `while` that goes on.
pub walk-round :
    (fuel me temp k : ℕ) (mmgs : List Getter)
    → temp ≢ me
    → IsWaiting mmgs temp
    → holder_of mmgs temp ≡ some k
    → any uncounted mmgs ≡ true
    → walk (suc fuel) me temp mmgs ≡ walk fuel me k (mark temp mmgs)
unfolding walk holder_of
walk-round fuel me temp k mmgs ne w h u = ground arith
