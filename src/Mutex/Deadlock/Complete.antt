-- ===== src/Mutex/Deadlock/Complete.antt =====
-- `isDeadLock` finds every cycle through `me`, and answers NO where the chain comes to an end.
use ktrpg.Base.{
  ℕ, zero, suc, ◌<◌, ◌≡◌, ◌≢◌, ◌⊎◌, refl, inl, inr, true, false, none, some, List, map, arith,
  Bool-cases, length, length-set, length-map, any, any-get_or, count, count-set, count-le-length,
  get_or-set_keeps, get_or-set_ne, get_or-map, ℕ_discrete, Option, sym, subst, ap, ◌∙◌,
}
use ktrpg.Mutex.Types.{Getter, blank_getter}
use ktrpg.Mutex.Deadlock.{
  getter_at, uncounted, set_counted, mark, walk, is_dead_lock, reset_counted,
}
use ktrpg.Mutex.Deadlock.Chain.{
  holder_of, Chain, arrive, follow, Alike-mark, Alike-sym, Alike-start, Chain-Alike, start,
  holder_of_sound, is_dead_lock-none, is_dead_lock-some, walk-round, Ends, free, unheld, onward,
  Ends-Alike,
}
use ktrpg.Mutex.Deadlock.Sound.{Cycle}

same_holder : {k k' : ℕ} (o : Option ℕ) → o ≡ some k → o ≡ some k' → k ≡ k'
same_holder o p q = cc

-- The first arrival at `me` is at one number of steps.
Chain-unique : {mmgs : List Getter} {me n m i : ℕ} → Chain mmgs me n i → Chain mmgs me m i → n ≡ m
Chain-unique (arrive e w) (arrive e' w') = refl
Chain-unique (arrive e w) (follow ne w' h c) = absurd (ne e)
Chain-unique (follow ne w h c) (arrive e w') = absurd (ne e)
Chain-unique {mmgs} {me} {i = i} (follow ne w h c) (follow {n = m} ne' w' h' c') =
    ap suc (Chain-unique c (subst (Chain mmgs me m) (sym (same_holder (holder_of mmgs i) h h')) c'))

-- What has been counted lies further from `me` than the walk has come, or is `me`.
abbrev Fresh : List Getter → ℕ → ℕ → Type 0
Fresh mmgs me n =
    (i m : ℕ) → (getter_at mmgs i).counted ≡ true → Chain mmgs me (suc m) i → n < suc m

-- The getter at hand has not been counted.
Fresh-uncounted :
    {mmgs : List Getter} {me n i : ℕ}
    → Fresh mmgs me (suc n)
    → Chain mmgs me (suc n) i
    → (getter_at mmgs i).counted ≡ false
Fresh-uncounted {mmgs} {n} {i} f c = elim (Bool-cases (getter_at mmgs i).counted) [
  | inl e ↦ absurd (omega (arith, f i n e c))
  | inr e ↦ e
]

Fresh-mark :
    {mmgs : List Getter} {me n t : ℕ}
    → Fresh mmgs me (suc n)
    → Chain mmgs me (suc n) t
    → Fresh (mark t mmgs) me n
Fresh-mark {mmgs} {me} {t = t} f c i m e d = elim (ℕ_discrete t i) [
  | yes s ↦ omega (arith, Chain-unique c (subst (Chain mmgs me (suc m)) (sym s) before))
  | no ne ↦
      let old =
        f i m (cc (e, get_or-set_ne mmgs t i (set_counted true (getter_at mmgs t)) blank_getter ne))
          before in
      omega (arith, old)
]
  where
    before : Chain mmgs me (suc m) i
    before = Chain-Alike (Alike-mark mmgs t) d

uncounted-mark :
    (mmgs : List Getter) (t : ℕ)
    → t < length mmgs
    → (getter_at mmgs t).is_used ≡ true
    → (getter_at mmgs t).counted ≡ false
    → suc (count uncounted (mark t mmgs)) ≡ count uncounted mmgs
uncounted-mark mmgs t lt u c =
    ground (arith, count-set uncounted mmgs t (set_counted true (getter_at mmgs t)) blank_getter lt)

-- The chain to `me` is followed to its end, within one round for each uncounted getter.
walk-yes :
    (fuel me : ℕ) {n temp : ℕ} {mmgs : List Getter}
    → count uncounted mmgs < fuel
    → temp < length mmgs
    → (getter_at mmgs temp).is_used ≡ true
    → Fresh mmgs me n
    → Chain mmgs me n temp
    → (table : List Getter) × (walk fuel me temp mmgs ≡ some (true, table))
unfolding walk
walk-yes zero me less lt used fresh c = elim less [ ]
walk-yes (suc fuel) me {mmgs = mmgs} less lt used fresh (arrive e w) = (mmgs, ground arith)
walk-yes (suc fuel) me {temp = temp} {mmgs = mmgs} less lt used fresh (follow {k = k} ne w h c) =
    let here = follow ne w h c in
    let new = Fresh-uncounted fresh here in
    let (k_lt, k_used) = holder_of_sound mmgs temp k h in
    let (table, e) =
      walk-yes fuel me {mmgs = mark temp mmgs} (omega (arith, uncounted-mark mmgs temp lt used new))
        (omega (arith, length-set mmgs temp (set_counted true (getter_at mmgs temp))))
        (get_or-set_keeps (λ g. g.is_used) mmgs temp k (set_counted true (getter_at mmgs temp))
            blank_getter refl
          ∙ k_used)
        (Fresh-mark fresh here) (Chain-Alike (Alike-sym (Alike-mark mmgs temp)) c) in
    (
      table,
      walk-round fuel me temp k mmgs ne w h
            (any-get_or uncounted mmgs blank_getter temp lt (rw (used, new)))
          ∙ e,
    )

pub counted-start :
    (mmgs : List Getter) (me i : ℕ) → me ≢ i → (getter_at (start me mmgs) i).counted ≡ false
counted-start mmgs me i ne =
    ap (λ g. g.counted) (get_or-set_ne (reset_counted me mmgs) me i _ blank_getter ne)
    ∙ (ap (λ g. g.counted) (get_or-set_ne (map (set_counted false) mmgs) me i _ blank_getter ne)
        ∙ ap (λ g. g.counted)
            (get_or-map (set_counted false) mmgs i blank_getter blank_getter refl))

pub length-start : (mmgs : List Getter) (me : ℕ) → length (start me mmgs) ≡ length mmgs
length-start mmgs me =
    length-set (reset_counted me mmgs) me _
    ∙ (length-set (map (set_counted false) mmgs) me _ ∙ length-map mmgs (set_counted false))

Fresh-start : (mmgs : List Getter) (me n : ℕ) → Fresh (start me mmgs) me n
Fresh-start mmgs me n i m e (follow ne w h c) = cc (e, counted-start mmgs me i (λ q. ne (sym q)))

-- Completeness: a waits-for cycle through `me` is reported, with one round of fuel for each getter
-- of the table and one more.
pub is_dead_lock_complete :
    (fuel me : ℕ) (mmgs : List Getter)
    → length mmgs < fuel
    → Cycle mmgs me
    → (table : List Getter) × (is_dead_lock fuel me mmgs ≡ some (true, table))
is_dead_lock_complete fuel me mmgs enough y =
    let (lt, used) = holder_of_sound mmgs me y.first y.held in
    let (table, e) =
      walk-yes fuel me {mmgs = start me mmgs}
        (omega (arith, count-le-length uncounted (start me mmgs), length-start mmgs me))
        (omega (arith, length-start mmgs me)) ((Alike-start me mmgs).used y.first ∙ used)
        (Fresh-start mmgs me y.steps) (Chain-Alike (Alike-sym (Alike-start me mmgs)) y.back) in
    (table, is_dead_lock-some fuel me y.first mmgs y.held ∙ e)

walk-no :
    (fuel me : ℕ) {n temp : ℕ} {mmgs : List Getter}
    → n < fuel
    → Ends mmgs me n temp
    → (table : List Getter) × (walk fuel me temp mmgs ≡ some (false, table))
unfolding walk holder_of
walk-no zero me less c = elim less [ ]
walk-no (suc fuel) me {mmgs = mmgs} less (free w) = (mmgs, ground arith)
walk-no (suc fuel) me {temp = temp} {mmgs = mmgs} less (unheld ne h) = (mmgs, ground arith)
walk-no (suc fuel) me {temp = temp} {mmgs = mmgs} less (onward {k = k} ne h c) =
    let (table, e) =
      walk-no fuel me {mmgs = mark temp mmgs} (omega arith)
        (Ends-Alike (Alike-sym (Alike-mark mmgs temp)) c) in
    elim (Bool-cases (getter_at mmgs temp).is_waited) [
      | inr w ↦ (mmgs, ground arith)
      | inl w ↦ elim (Bool-cases (any uncounted mmgs)) [
        | inr u ↦ (mmgs, ground arith)
        | inl u ↦ (table, walk-round fuel me temp k mmgs ne w h u ∙ e)
      ]
    ]

-- Termination with NO: where the chain from the holder of what `me` waits for comes to an end after
-- `n` steps, `n + 1` rounds are enough, and the answer is NO; so it is, with no round at all, where
-- nobody holds it.
pub is_dead_lock-Ends :
    (fuel me : ℕ) (mmgs : List Getter)
    → (holder_of mmgs me ≡ none)
      ⊎ ((k n : ℕ) × (holder_of mmgs me ≡ some k) × Ends mmgs me n k × (n < fuel))
    → (table : List Getter) × (is_dead_lock fuel me mmgs ≡ some (false, table))
is_dead_lock-Ends fuel me mmgs (inl h) = (reset_counted me mmgs, is_dead_lock-none fuel me mmgs h)
is_dead_lock-Ends fuel me mmgs (inr (k, n, h, c, less)) =
    let (table, e) = walk-no fuel me less (Ends-Alike (Alike-sym (Alike-start me mmgs)) c) in
    (table, is_dead_lock-some fuel me k mmgs h ∙ e)
