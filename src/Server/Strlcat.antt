-- ===== src/Server/Strlcat.antt =====
-- `mystrlcat` of server/server.c. `dst` is the object that the pointer points into, from there on; a
-- text is the list of its bytes before the NUL. `none` is a read past the end of `dst`.
pub mod Spec
use ktrpg.Base.{
  ℕ, zero, suc, ◌+◌, ◌-◌, Bool, true, false, Option, none, some, List, [], ◌∷◌, ◌==◌, ltb,
  if◌then◌else◌, shift, set, length,
}

-- `for (pd = dst, lest = size; *pd != '\0' && lest != 0; pd++, lest--)`: the steps made.
unfoldable pub scan : List ℕ → ℕ → Option ℕ
scan [] lest = none
scan (b ∷ bs) lest =
    let rest = shift (scan bs (lest - 1)) in
    if b == 0 then some 0 else (if lest == 0 then some 0 else rest)

-- The state of the copy: the object, `pd`, and what `ps` has not passed.
pub record Copy : Type 0 where
  pub object : List ℕ
  pub pd : ℕ
  pub ps : List ℕ

unfoldable pub copy : List ℕ → ℕ → ℕ → List ℕ → Copy
copy object pd pde [] = record { object = object; pd = pd; ps = [] }
copy object pd pde (c ∷ cs) =
    let rest = copy (set object pd c) (pd + 1) pde cs in
    if ltb pd pde then rest else record { object = object; pd = pd; ps = c ∷ cs }

-- `for (; pd <= pde; pd++) *pd = '\0'`, with the number of rounds.
unfoldable pub zero_fill : ℕ → List ℕ → ℕ → List ℕ
zero_fill zero object pd = object
zero_fill (suc n) object pd = zero_fill n (set object pd 0) (pd + 1)

-- `while (*ps++); return dlen + (ps - src - 1)`: what was copied and what was not add up.
unfoldable pub mystrlcat : List ℕ → List ℕ → ℕ → Option (List ℕ × ℕ)
mystrlcat dst src size = elim (scan dst size) [
  | none ↦ none
  | some dlen ↦
      if size - dlen == 0
      then some (dst, dlen + length src)
      else (let pde = size - 1 in
          let copied = copy dst dlen pde src in
          some (
            zero_fill (pde + 1 - copied.pd) copied.object copied.pd,
            dlen + ((length src - length copied.ps) + length copied.ps),
          ))
]
