-- ===== src/Server/Loop/Width.antt =====
-- `width`, the first argument of `select` in `accept_loop` of server/server.c.
use ktrpg.Base.{
  ℕ, zero, suc, ◌+◌, ◌≤◌, ◌<◌, ◌≡◌, Option, none, some, List, [], ◌∷◌, arith, ltb, if◌then◌else◌,
  get_or,
}
use ktrpg.Server.Loop.{select_width}

select_width_grows : (width : ℕ) (childs : List (Option ℕ)) → width ≤ select_width width childs
unfolding select_width
select_width_grows width [] = omega arith
select_width_grows width (none ∷ rest) = select_width_grows width rest
select_width_grows width (some fd ∷ rest) =
    ground (arith, select_width_grows (if ltb width (fd + 1) then fd + 1 else width) rest)

select_width_above :
    (width : ℕ) (childs : List (Option ℕ)) (i fd : ℕ)
    → get_or childs i none ≡ some fd
    → fd < select_width width childs
unfolding select_width
select_width_above width [] i fd e = ground arith
select_width_above width (none ∷ rest) zero fd e = ground arith
select_width_above width (none ∷ rest) (suc i) fd e = select_width_above width rest i fd e
select_width_above width (some x ∷ rest) zero fd e =
    ground (arith, select_width_grows (if ltb width (x + 1) then x + 1 else width) rest)
select_width_above width (some x ∷ rest) (suc i) fd e =
    select_width_above (if ltb width (x + 1) then x + 1 else width) rest i fd e

-- Every client's descriptor, and the listening socket's with `width` its successor at first, is below
-- the width that `select` is given; so none of the descriptors put into `mask` is left out.
pub select_width_covers :
    (soc : ℕ) (childs : List (Option ℕ))
    → (soc < select_width (soc + 1) childs)
      × ((i fd : ℕ) → get_or childs i none ≡ some fd → fd < select_width (soc + 1) childs)
select_width_covers soc childs = (
  omega (arith, select_width_grows (soc + 1) childs),
  λ i fd e. select_width_above (soc + 1) childs i fd e,
)
