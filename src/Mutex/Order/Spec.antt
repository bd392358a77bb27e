-- ===== src/Mutex/Order/Spec.antt =====
-- The order check, stated by the positions of the types in the list, and for the list that `main`
-- sets up, in which every type stands at its own number.
use ktrpg.Base.{
  ℕ, zero, suc, ◌+◌, ◌≤◌, ◌<◌, ◌≡◌, ◌≢◌, ◌⊎◌, ◌↔◌, refl, inl, inr, Bool, true, ◌&&◌, ◌||◌, Option,
  none, some, List, [], ◌∷◌, arith, ◌==◌, Bool-cases, Option-cases, get_elem?, ◌-◌, subst,
  find_last_index, dec_lt, ℕ_discrete,
}
use ktrpg.Mutex.Order.{count_up, pair_ok, row_ok, is_lock_jyunban_ok}

-- The type `t` is last listed at `k`.
abbrev pub Listed : List ℕ → ℕ → ℕ → Type 0
Listed mmj t k = find_last_index (λ u. u == t) mmj ≡ some k

-- Two slots agree with the list: one is free, they hold the same type, or both types are listed and
-- the one in the earlier slot is listed earlier.
pub data InOrder (mmj : List ℕ) (f l : ℕ) : Type 0 where
  same : f ≡ l → InOrder mmj f l
  free : (f ≡ 0) ⊎ (l ≡ 0) → InOrder mmj f l
  listed : (a b : ℕ) → Listed mmj f a → Listed mmj l b → a < b → InOrder mmj f l

pair_ok_sound : (mmj : List ℕ) (f l : ℕ) → pair_ok mmj f l ≡ true → InOrder mmj f l
unfolding pair_ok
pair_ok_sound mmj f l e = elim (Bool-cases (f == l)) [
  | inl q ↦ same (ground arith)
  | inr q ↦ elim (Bool-cases ((f == 0) || (l == 0))) [
    | inl z ↦ free (ground arith)
    | inr z ↦ elim (Option-cases (find_last_index (λ u. u == f) mmj)) [
      | inl n ↦ ground arith
      | inr (a, p) ↦ elim (Option-cases (find_last_index (λ u. u == l) mmj)) [
        | inl n ↦ ground arith
        | inr (b, r) ↦ listed a b p r (ground arith)
      ]
    ]
  ]
]

pair_ok_complete : (mmj : List ℕ) (f l : ℕ) → InOrder mmj f l → pair_ok mmj f l ≡ true
unfolding pair_ok
pair_ok_complete mmj f l (same e) = ground arith
pair_ok_complete mmj f l (free e) = ground arith
pair_ok_complete mmj f l (listed a b p q h) = ground arith

and_true : {a b : Bool} → (a && b) ≡ true → (a ≡ true) × (b ≡ true)
and_true e = ground arith

row_ok_sound :
    (mmj : List ℕ) (f : ℕ) (slots : List ℕ) (j l : ℕ)
    → row_ok mmj f slots ≡ true
    → get_elem? slots j ≡ some l
    → InOrder mmj f l
unfolding row_ok
row_ok_sound mmj f [] j l e q = cc
row_ok_sound mmj f (x ∷ xs) zero l e q = pair_ok_sound mmj f l (ground arith)
row_ok_sound mmj f (x ∷ xs) (suc j) l e q = row_ok_sound mmj f xs j l (and_true e).1 q

row_ok_complete :
    (mmj : List ℕ) (f : ℕ) (slots : List ℕ)
    → ((j l : ℕ) → get_elem? slots j ≡ some l → InOrder mmj f l)
    → row_ok mmj f slots ≡ true
unfolding row_ok
row_ok_complete mmj f [] h = refl
row_ok_complete mmj f (x ∷ xs) h =
    rw (pair_ok_complete mmj f x (h 0 x refl), row_ok_complete mmj f xs (λ j. h (suc j)))

-- Every two slots are in order.
abbrev pub Ordered : List ℕ → List ℕ → Type 0
Ordered mmj slots =
    (i j f l : ℕ)
    → i < j
    → get_elem? slots i ≡ some f
    → get_elem? slots j ≡ some l
    → InOrder mmj f l

ok_sound : (mmj slots : List ℕ) → is_lock_jyunban_ok mmj slots ≡ true → Ordered mmj slots
unfolding is_lock_jyunban_ok
ok_sound mmj [] e i j f l lt p q = cc
ok_sound mmj (x ∷ xs) e i zero f l lt p q = absurd (omega arith)
ok_sound mmj (x ∷ xs) e zero (suc j) f l lt p q =
    row_ok_sound mmj f (x ∷ xs) (suc j) l (ground arith) q
ok_sound mmj (x ∷ xs) e (suc i) (suc j) f l lt p q =
    ok_sound mmj xs (and_true e).1 i j f l (omega arith) p q

ok_complete : (mmj slots : List ℕ) → Ordered mmj slots → is_lock_jyunban_ok mmj slots ≡ true
unfolding is_lock_jyunban_ok
ok_complete mmj [] h = refl
ok_complete mmj (x ∷ xs) h = rw (
  row_ok_complete mmj x (x ∷ xs) against,
  ok_complete mmj xs (λ i j f l lt. h (suc i) (suc j) f l (omega arith)),
)
  where
    against : (j l : ℕ) → get_elem? (x ∷ xs) j ≡ some l → InOrder mmj x l
    against zero l q = same (ground arith)
    against (suc j) l q = h 0 (suc j) x l (omega arith) refl q

-- The check says YES exactly when every two slots are in order.
pub is_lock_jyunban_ok_iff :
    (mmj slots : List ℕ) → (is_lock_jyunban_ok mmj slots ≡ true) ↔ Ordered mmj slots
is_lock_jyunban_ok_iff mmj slots = (ok_sound mmj slots, ok_complete mmj slots)

count_up_before : (n k t : ℕ) → t < k → find_last_index (λ u. u == t) (count_up k n) ≡ none
unfolding count_up find_last_index
count_up_before zero k t h = refl
count_up_before (suc n) k t h = ground (arith, count_up_before n (suc k) t)

Listed-count_up : (n k t : ℕ) → k ≤ t → t < k + n → Listed (count_up k n) t (t - k)
unfolding count_up find_last_index
Listed-count_up zero k t h lt = absurd (omega arith)
Listed-count_up (suc n) k t h lt = elim (dec_lt k t) [
  | yes p ↦ ground (arith, Listed-count_up n (suc k) t)
  | no p ↦ ground (arith, count_up_before n (suc k) t)
]

same_index : {a b : ℕ} (o : Option ℕ) → o ≡ some a → o ≡ some b → a ≡ b
same_index o p q = cc

-- Under the list that `main` sets up, the check says YES exactly when the types in use, read slot by
-- slot and free slots left out, never fall. It holds of slots whose types are below the list's
-- length.
pub is_lock_jyunban_ok_ascending :
    (n : ℕ) (slots : List ℕ)
    → ((i t : ℕ) → get_elem? slots i ≡ some t → t < n)
    → (is_lock_jyunban_ok (count_up 0 n) slots ≡ true) ↔ (
        (i j f l : ℕ)
        → i < j
        → get_elem? slots i ≡ some f
        → get_elem? slots j ≡ some l
        → f ≢ 0
        → l ≢ 0
        → f ≤ l)
is_lock_jyunban_ok_ascending n slots small = (
  λ e i j f l lt p q nf nl.
      rises f l (at_own i f p) (at_own j l q) nf nl
        (ok_sound (count_up 0 n) slots e i j f l lt p q),
  λ up.
      ok_complete (count_up 0 n) slots (λ i j f l lt p q. in_order i j f l p q (up i j f l lt p q)),
)
  where
    at_own : (i t : ℕ) → get_elem? slots i ≡ some t → Listed (count_up 0 n) t t
    at_own i t p =
        subst (Listed (count_up 0 n) t) (omega arith)
          (Listed-count_up n 0 t (omega arith) (omega (arith, small i t p)))

    rises :
        (f l : ℕ)
        → Listed (count_up 0 n) f f
        → Listed (count_up 0 n) l l
        → f ≢ 0
        → l ≢ 0
        → InOrder (count_up 0 n) f l
        → f ≤ l
    rises f l u v nf nl (same e) = omega arith
    rises f l u v nf nl (free e) = omega arith
    rises f l u v nf nl (listed a b p q h) = omega (
      arith,
      same_index (find_last_index _ (count_up 0 n)) u p,
      same_index (find_last_index _ (count_up 0 n)) v q,
    )

    in_order :
        (i j f l : ℕ)
        → get_elem? slots i ≡ some f
        → get_elem? slots j ≡ some l
        → (f ≢ 0 → l ≢ 0 → f ≤ l)
        → InOrder (count_up 0 n) f l
    in_order i j f l p q up = elim (ℕ_discrete f 0) [
      | yes z ↦ free (inl z)
      | no nf ↦ elim (ℕ_discrete l 0) [
        | yes z ↦ free (inr z)
        | no nl ↦ elim (ℕ_discrete f l) [
          | yes e ↦ same e
          | no ne ↦ listed f l (at_own i f p) (at_own j l q) (omega (arith, up nf nl))
        ]
      ]
    ]
