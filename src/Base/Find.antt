-- ===== src/Base/Find.antt =====
-- The loops that look for an index: `for (k...) if (test) { ...; break; }` finds the first one,
-- the same loop without the `break` the last one.
use Prim.Native.Nat.{ℕ, zero, suc, ◌+◌, ◌≤◌, ◌<◌}
use mathlib.Core.Path.{◌≡◌, refl}
use mathlib.Core.Logic.{inl, inr}
use mathlib.Core.List.{List, [], ◌∷◌, ◌++◌, map}
use mathlib.Core.Option.{Option, none, some}
use mathlib.Core.Bool.{Bool, true, false, ◌||◌}
use native.Mathlib.Omega.{arith}
use ktrpg.Base.Tests.{if◌then◌else◌, Bool-cases, ◌==◌}
use ktrpg.Base.Lists.{get_or, set, length}

abbrev pub shift : Option ℕ → Option ℕ
shift none = none
shift (some k) = some (suc k)

abbrev pub bit : Bool → ℕ
bit true = 1
bit false = 0

module _ {ℓ} {A : Type ℓ} where
  unfoldable pub find_index : (A → Bool) → List A → Option ℕ
  find_index p [] = none
  find_index p (x ∷ xs) = if p x then some 0 else shift (find_index p xs)

  unfoldable pub find_last_index : (A → Bool) → List A → Option ℕ
  find_last_index p [] = none
  find_last_index p (x ∷ xs) = elim (find_last_index p xs) [
    | some k ↦ some (suc k)
    | none ↦ if p x then some 0 else none
  ]

  unfoldable pub any : (A → Bool) → List A → Bool
  any p [] = false
  any p (x ∷ xs) = p x || any p xs

  -- What is found lies in the list and passes the test.
  pub find_index_sound :
      (p : A → Bool) (xs : List A) (d : A) (k : ℕ)
      → find_index p xs ≡ some k
      → (k < length xs) × (p (get_or xs k d) ≡ true)
  unfolding find_index
  find_index_sound p [] d k e = ground arith
  find_index_sound p (x ∷ xs) d zero e = ground arith
  find_index_sound p (x ∷ xs) d (suc k) e = ground (arith, find_index_sound p xs d k)

  -- Before what is found, the test fails.
  pub find_index-before :
      (p : A → Bool) (xs : List A) (d : A) (k j : ℕ)
      → find_index p xs ≡ some k
      → j < k
      → p (get_or xs j d) ≡ false
  unfolding find_index
  find_index-before p [] d k j e h = ground arith
  find_index-before p (x ∷ xs) d zero j e h = ground arith
  find_index-before p (x ∷ xs) d (suc k) zero e h = ground arith
  find_index-before p (x ∷ xs) d (suc k) (suc j) e h = ground (arith, find_index-before p xs d k j)

  -- Where nothing is found, the test fails at every index.
  pub find_index-none :
      (p : A → Bool) (xs : List A) (d : A) (k : ℕ)
      → find_index p xs ≡ none
      → k < length xs
      → p (get_or xs k d) ≡ false
  unfolding find_index
  find_index-none p [] d k e h = ground arith
  find_index-none p (x ∷ xs) d zero e h = ground arith
  find_index-none p (x ∷ xs) d (suc k) e h = ground (arith, find_index-none p xs d k)

  -- A write that keeps the test at the written place keeps what is found.
  pub find_index-set :
      (p : A → Bool) (xs : List A) (i : ℕ) (v d : A)
      → p v ≡ p (get_or xs i d)
      → find_index p (set xs i v) ≡ find_index p xs
  unfolding find_index
  find_index-set p [] i v d e = refl
  find_index-set p (x ∷ xs) zero v d e = ground arith
  find_index-set p (x ∷ xs) (suc i) v d e = ground (arith, find_index-set p xs i v d e)

  pub any-get_or :
      (p : A → Bool) (xs : List A) (d : A) (k : ℕ)
      → k < length xs
      → p (get_or xs k d) ≡ true
      → any p xs ≡ true
  unfolding any
  any-get_or p [] d k h e = ground arith
  any-get_or p (x ∷ xs) d zero h e = ground arith
  any-get_or p (x ∷ xs) d (suc k) h e = ground (arith, any-get_or p xs d k)

  pub any_sound :
      (p : A → Bool) (xs : List A) (d : A)
      → any p xs ≡ true
      → (k : ℕ) × (k < length xs) × (p (get_or xs k d) ≡ true)
  unfolding any
  any_sound p [] d e = ground arith
  any_sound p (x ∷ xs) d e = elim (Bool-cases (p x)) [
    | inl t ↦ (0, ground arith, t)
    | inr f ↦ let (k, h, t) = any_sound p xs d (ground arith) in (suc k, ground arith, t)
  ]

  -- A write keeps each function of the elements that it keeps at the written place.
  pub get_or-set_keeps {κ} :
      {B : Type κ} (f : A → B) (xs : List A) (i j : ℕ) (v d : A)
      → f v ≡ f (get_or xs i d)
      → f (get_or (set xs i v) j d) ≡ f (get_or xs j d)
  get_or-set_keeps f [] i j v d e = refl
  get_or-set_keeps f (x ∷ xs) zero zero v d e = e
  get_or-set_keeps f (x ∷ xs) zero (suc j) v d e = refl
  get_or-set_keeps f (x ∷ xs) (suc i) zero v d e = refl
  get_or-set_keeps f (x ∷ xs) (suc i) (suc j) v d e = get_or-set_keeps f xs i j v d e

  pub get_or-map_keeps {κ} :
      {B : Type κ} (f : A → B) (h : A → A) (xs : List A) (i : ℕ) (d : A)
      → ((x : A) → f (h x) ≡ f x)
      → f (get_or (map h xs) i d) ≡ f (get_or xs i d)
  get_or-map_keeps f h [] i d e = refl
  get_or-map_keeps f h (x ∷ xs) zero d e = e x
  get_or-map_keeps f h (x ∷ xs) (suc i) d e = get_or-map_keeps f h xs i d e

  pub find_index-map :
      (p : A → Bool) (h : A → A) (xs : List A)
      → ((x : A) → p (h x) ≡ p x)
      → find_index p (map h xs) ≡ find_index p xs
  unfolding find_index
  find_index-map p h [] e = refl
  find_index-map p h (x ∷ xs) e = ground (arith, e x, find_index-map p h xs e)

  -- Arrays of one length whose elements test alike are searched alike.
  pub find_index_alike :
      (p : A → Bool) (xs ys : List A) (d : A)
      → length xs ≡ length ys
      → ((j : ℕ) → p (get_or xs j d) ≡ p (get_or ys j d))
      → find_index p xs ≡ find_index p ys
  unfolding find_index
  find_index_alike p [] [] d e h = refl
  find_index_alike p [] (y ∷ ys) d e h = absurd (omega arith)
  find_index_alike p (x ∷ xs) [] d e h = absurd (omega arith)
  find_index_alike p (x ∷ xs) (y ∷ ys) d e h =
      ground (arith, h 0, find_index_alike p xs ys d (omega arith) (λ j. h (suc j)))

  pub find_index-none_of :
      (p : A → Bool) (xs : List A) → ((x : A) → p x ≡ false) → find_index p xs ≡ none
  unfolding find_index
  find_index-none_of p [] e = refl
  find_index-none_of p (x ∷ xs) e = ground (arith, e x, find_index-none_of p xs e)

  pub get_or-map :
      {B : Type ℓ} (h : A → B) (xs : List A) (i : ℕ) (d : A) (e : B)
      → e ≡ h d
      → get_or (map h xs) i e ≡ h (get_or xs i d)
  get_or-map h [] i d e q = q
  get_or-map h (x ∷ xs) zero d e q = refl
  get_or-map h (x ∷ xs) (suc i) d e q = get_or-map h xs i d e q

  unfoldable pub count : (A → Bool) → List A → ℕ
  count p [] = 0
  count p (x ∷ xs) = if p x then suc (count p xs) else count p xs

  pub count-le-length : (p : A → Bool) (xs : List A) → count p xs ≤ length xs
  unfolding count
  count-le-length p [] = omega arith
  count-le-length p (x ∷ xs) = ground (arith, count-le-length p xs)

  -- A write moves the count by what it does to the test at that place.
  pub count-set :
      (p : A → Bool) (xs : List A) (i : ℕ) (v d : A)
      → i < length xs
      → count p (set xs i v) + bit (p (get_or xs i d)) ≡ count p xs + bit (p v)
  unfolding count
  count-set p [] i v d h = elim h [ ]
  count-set p (x ∷ xs) zero v d h = ground arith
  count-set p (x ∷ xs) (suc i) v d h = ground (arith, count-set p xs i v d (omega arith))

  pub get_or-set :
      (xs : List A) (i j : ℕ) (v d : A)
      → i < length xs
      → get_or (set xs i v) j d ≡ (if i == j then v else get_or xs j d)
  get_or-set [] i j v d h = elim h [ ]
  get_or-set (x ∷ xs) zero zero v d h = refl
  get_or-set (x ∷ xs) zero (suc j) v d h = ground arith
  get_or-set (x ∷ xs) (suc i) zero v d h = ground arith
  get_or-set (x ∷ xs) (suc i) (suc j) v d h = ground (arith, get_or-set xs i j v d (omega arith))

  pub find_last_index_sound :
      (p : A → Bool) (xs : List A) (d : A) (k : ℕ)
      → find_last_index p xs ≡ some k
      → (k < length xs) × (p (get_or xs k d) ≡ true)
  unfolding find_last_index
  find_last_index_sound p [] d k e = ground arith
  find_last_index_sound p (x ∷ xs) d zero e = ground arith
  find_last_index_sound p (x ∷ xs) d (suc k) e = ground (arith, find_last_index_sound p xs d k)

  pub find_last_index-none :
      (p : A → Bool) (xs : List A) (d : A) (k : ℕ)
      → find_last_index p xs ≡ none
      → k < length xs
      → p (get_or xs k d) ≡ false
  unfolding find_last_index
  find_last_index-none p [] d k e h = ground arith
  find_last_index-none p (x ∷ xs) d zero e h = ground arith
  find_last_index-none p (x ∷ xs) d (suc k) e h = ground (arith, find_last_index-none p xs d k)

  pub count-append : (p : A → Bool) (xs ys : List A) → count p (xs ++ ys) ≡ count p xs + count p ys
  unfolding count
  count-append p [] ys = omega arith
  count-append p (x ∷ xs) ys = ground (arith, count-append p xs ys)
