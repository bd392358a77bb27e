-- ===== src/Check.antt =====
-- The checks of TEST/*/resultcheck.c on what a run of the chat server has written. The text is what
-- stands before the first NUL of `buf`.
pub mod SimpleChat
pub mod SimpleServerOnly
pub mod TwoClient
pub mod Spec
use ktrpg.Base.{ℕ, Bool, true, false, ◌||◌, ◌&&◌, List, [], ◌∷◌, ◌==◌}

unfoldable pub starts_with : List ℕ → List ℕ → Bool
starts_with text [] = true
starts_with [] (c ∷ cs) = false
starts_with (b ∷ bs) (c ∷ cs) = (b == c) && starts_with bs cs

-- `strstr(buf, s) != NULL`.
unfoldable pub contains : List ℕ → List ℕ → Bool
contains [] s = starts_with [] s
contains (b ∷ bs) s = starts_with (b ∷ bs) s || contains bs s
