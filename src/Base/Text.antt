-- ===== src/Base/Text.antt =====
-- C strings: bytes as numbers, the terminating NUL left out.
use Prim.Native.Nat.{ℕ, zero, suc}
use Prim.Native.String.{String}
use Prim.Native.Char.{code}
use mathlib.Core.Path.{◌≡◌, refl}
use mathlib.Core.List.{List, [], ◌∷◌, ◌++◌}
use mathlib.Core.Option.{Option, none, some}
use mathlib.Core.Bool.{Bool, false, ◌||◌}
use native.Mathlib.Omega.{arith}
use ktrpg.Base.Tests.{if◌then◌else◌, ◌==◌}
use ktrpg.Base.Lists.{take, replicate}

abbrev pub codes : String → List ℕ
codes String.[] = []
codes (String.◌∷◌ c s) = code c ∷ codes s

unfoldable pub has_nul : List ℕ → Bool
has_nul [] = false
has_nul (b ∷ bs) = (b == 0) || has_nul bs

-- The string that an object holds after these bytes and a NUL are written to its start: `strlen` and
-- `strcat` see nothing behind the first NUL.
unfoldable pub before_nul : List ℕ → List ℕ
before_nul [] = []
before_nul (b ∷ bs) = if b == 0 then [] else b ∷ before_nul bs

-- The string at the start of an object; `none` if no NUL ends it, and it is read past the end.
unfoldable pub read_string : List ℕ → Option (List ℕ)
read_string [] = none
read_string (b ∷ bs) =
    let rest = read_string bs in
    if b == 0 then some [] else elim rest [ none ↦ none | some s ↦ some (b ∷ s) ]

pub before_nul_lem : (a : List ℕ) → has_nul a ≡ false → before_nul a ≡ a
unfolding has_nul before_nul
before_nul_lem [] p = refl
before_nul_lem (b ∷ bs) p = ground (arith, before_nul_lem bs)

pub has_nul-append :
    (a b : List ℕ) → has_nul a ≡ false → has_nul b ≡ false → has_nul (a ++ b) ≡ false
unfolding has_nul
has_nul-append [] b p q = q
has_nul-append (x ∷ xs) b p q = ground (arith, has_nul-append xs b)

pub has_nul-take : (n : ℕ) (a : List ℕ) → has_nul a ≡ false → has_nul (take n a) ≡ false
unfolding has_nul
has_nul-take zero a p = refl
has_nul-take (suc n) [] p = refl
has_nul-take (suc n) (x ∷ xs) p = ground (arith, has_nul-take n xs)

-- A string copied into a zeroed object that has room for its NUL is read back.
pub read_string-padded :
    (a : List ℕ) (n : ℕ) → has_nul a ≡ false → read_string (a ++ replicate (suc n) 0) ≡ some a
unfolding has_nul read_string
read_string-padded [] n p = refl
read_string-padded (x ∷ xs) n p = ground (arith, read_string-padded xs n)
