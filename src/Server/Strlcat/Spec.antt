-- ===== src/Server/Strlcat/Spec.antt =====
-- `mystrlcat` against what `strlcat` promises.
use ktrpg.Base.{
  ℕ, zero, suc, ◌+◌, ◌-◌, ◌≤◌, ◌<◌, ◌≡◌, ◌≢◌, refl, ap, ◌∙◌, ◌&&◌, none, some, List, [], ◌∷◌, arith,
  ltb, leb, if◌then◌else◌, set, get_or, get_or-set, length, length-set, dec_lt,
}
use Prim.Native.Nat.{min}
use ktrpg.Server.Strlcat.{scan, Copy, copy, zero_fill, mystrlcat}

-- `dlen` bytes stand before the first NUL.
abbrev pub EndsAt : List ℕ → ℕ → Type 0
EndsAt dst dlen =
    (dlen < length dst) × (get_or dst dlen 1 ≡ 0) × ((i : ℕ) → i < dlen → get_or dst i 0 ≢ 0)

scan-EndsAt :
    (dst : List ℕ) (size dlen : ℕ) → EndsAt dst dlen → dlen ≤ size → scan dst size ≡ some dlen
unfolding scan
scan-EndsAt [] size dlen e h = absurd (omega (arith, e.0))
scan-EndsAt (b ∷ bs) size zero e h = ground (arith, e.1)
scan-EndsAt (b ∷ bs) size (suc n) e h = ground (
  arith,
  e.2 0 (omega arith),
  scan-EndsAt bs (size - 1) n (omega (arith, e.0), e.1, λ i q. e.2 (suc i) (omega arith))
      (omega arith),
)

-- Where `copy` stops, and what the object then holds.
record Copied (object : List ℕ) (pd pde : ℕ) (src : List ℕ) (c : Copy) : Type 0 where
  pub size : length c.object ≡ length object
  pub stop : c.pd ≡ pd + min (length src) (pde - pd)
  pub left : length c.ps + min (length src) (pde - pd) ≡ length src
  pub bytes :
      (i : ℕ)
      → get_or c.object i 0
        ≡ (if leb pd i && ltb i c.pd then get_or src (i - pd) 0 else get_or object i 0)

copy-go :
    (object : List ℕ) (pd pde c : ℕ) (cs : List ℕ)
    → pd < pde
    → copy object pd pde (c ∷ cs) ≡ copy (set object pd c) (pd + 1) pde cs
unfolding copy
copy-go object pd pde c cs h = ground arith

copy-stop :
    (object : List ℕ) (pd pde c : ℕ) (cs : List ℕ)
    → ¬ (pd < pde)
    → copy object pd pde (c ∷ cs) ≡ record { object = object; pd = pd; ps = c ∷ cs }
unfolding copy
copy-stop object pd pde c cs h = ground arith

get_or-cons : (c : ℕ) (cs : List ℕ) (j : ℕ) → j ≢ 0 → get_or (c ∷ cs) j 0 ≡ get_or cs (j - 1) 0
get_or-cons c cs zero h = absurd (h refl)
get_or-cons c cs (suc j) h = ground arith

-- The byte written now, and those that the rest of the loop writes.
copied_bytes :
    (object : List ℕ) (pd stop c : ℕ) (cs : List ℕ) (i : ℕ)
    → pd < length object
    → pd < stop
    → (if leb (pd + 1) i && ltb i stop
        then get_or cs (i - (pd + 1)) 0
        else get_or (set object pd c) i 0)
      ≡ (if leb pd i && ltb i stop then get_or (c ∷ cs) (i - pd) 0 else get_or object i 0)
copied_bytes object pd stop c cs i h lt = elim (dec_lt pd i) [
  | yes later ↦ ground (arith, get_or-set object pd i c 0, get_or-cons c cs (i - pd), index later)
  | no now ↦ ground (arith, get_or-set object pd i c 0, first now)
]
  where
    index : pd < i → get_or cs (i - pd - 1) 0 ≡ get_or cs (i - (pd + 1)) 0
    index q = ap (λ k. get_or cs k 0) (omega arith)

    first : ¬ (pd < i) → get_or (c ∷ cs) (i - pd) 0 ≡ c
    first q = ap (λ k. get_or (c ∷ cs) k 0) {y = 0} (omega arith)

copy-Copied :
    (object : List ℕ) (pd pde : ℕ) (src : List ℕ)
    → pde < length object
    → pd ≤ pde
    → Copied object pd pde src (copy object pd pde src)
copy-Copied object pd pde [] h k =
    unfold copy in
    record { size = refl; stop = omega arith; left = omega arith; bytes = λ i. ground arith }
copy-Copied object pd pde (c ∷ cs) h k = elim (dec_lt pd pde) [
  | yes lt ↦
      let r =
        copy-Copied (set object pd c) (pd + 1) pde cs (rw (length-set object pd c) h)
          (omega arith) in
      rw (copy-go object pd pde c cs lt) (record {
        size = r.size ∙ length-set object pd c;
        stop = omega (arith, r.stop);
        left = omega (arith, r.left);
        bytes = λ i.
            r.bytes i
            ∙ copied_bytes object pd (copy (set object pd c) (pd + 1) pde cs).pd c cs i
                (omega arith) (omega (arith, r.stop));
      })
  | no ge ↦
      rw (copy-stop object pd pde c cs ge)
        (record { size = refl; stop = omega arith; left = omega arith; bytes = λ i. ground arith })
]

zero_fill_lem :
    (n : ℕ) (object : List ℕ) (pd i : ℕ)
    → pd + n ≤ length object
    → get_or (zero_fill n object pd) i 0
      ≡ (if leb pd i && ltb i (pd + n) then 0 else get_or object i 0)
unfolding zero_fill
zero_fill_lem zero object pd i h = ground arith
zero_fill_lem (suc n) object pd i h = ground (
  arith,
  zero_fill_lem n (set object pd 0) (pd + 1) i,
  length-set object pd 0,
  get_or-set object pd i 0 0,
)

length-zero_fill :
    (n : ℕ) (object : List ℕ) (pd : ℕ) → length (zero_fill n object pd) ≡ length object
unfolding zero_fill
length-zero_fill zero object pd = refl
length-zero_fill (suc n) object pd =
    length-zero_fill n (set object pd 0) (pd + 1) ∙ length-set object pd 0

-- The bytes of the object afterwards: what stood before the first NUL, then as much of the text as
-- leaves room for a NUL, then NULs up to `size`, and past `size` what stood there.
abbrev pub catenated : List ℕ → List ℕ → ℕ → ℕ → ℕ → ℕ
catenated dst src size dlen i =
    if ltb i dlen
    then get_or dst i 0
    else (if ltb i (dlen + min (length src) (size - 1 - dlen))
        then get_or src (i - dlen) 0
        else (if ltb i size then 0 else get_or dst i 0))

filled_bytes :
    (dst src : List ℕ) (size dlen stop a b i : ℕ)
    → dlen < size
    → stop ≡ dlen + min (length src) (size - 1 - dlen)
    → b ≡ (if leb dlen i && ltb i stop then get_or src (i - dlen) 0 else get_or dst i 0)
    → a ≡ (if leb stop i && ltb i (stop + (size - 1 + 1 - stop)) then 0 else b)
    → a ≡ catenated dst src size dlen i
filled_bytes dst src size dlen stop a b i lt e p q = ground arith

scan-full :
    (dst : List ℕ) (size : ℕ)
    → size < length dst
    → ((i : ℕ) → i < size → get_or dst i 0 ≢ 0)
    → scan dst size ≡ some size
unfolding scan
scan-full [] size room full = absurd (omega arith)
scan-full (b ∷ bs) zero room full = ground arith
scan-full (b ∷ bs) (suc n) room full =
    ground (
      arith,
      full 0 (omega arith),
      scan-full bs n (omega arith) (λ i q. full (suc i) (omega arith)),
    )

scan-overread :
    (dst : List ℕ) → ((i : ℕ) → i < length dst → get_or dst i 0 ≢ 0) → scan dst (length dst) ≡ none
unfolding scan
scan-overread [] full = refl
scan-overread (b ∷ bs) full =
    ground (arith, full 0 (omega arith), scan-overread bs (λ i q. full (suc i) (omega arith)))

-- With the first NUL of `dst` before `size`, and `size` bytes in the object, `mystrlcat` returns the
-- sum of the two lengths, and leaves the text appended and cut to fit, with a NUL behind it.
pub mystrlcat_appends :
    (dst src : List ℕ) (size dlen : ℕ)
    → EndsAt dst dlen
    → dlen < size
    → size ≤ length dst
    → (object : List ℕ) × (mystrlcat dst src size ≡ some (object, dlen + length src))
      × (length object ≡ length dst)
      × ((i : ℕ) → get_or object i 0 ≡ catenated dst src size dlen i)
unfolding mystrlcat
mystrlcat_appends dst src size dlen ends lt room = (
  zero_fill (size - 1 + 1 - c.pd) c.object c.pd,
  ground (arith, scan-EndsAt dst size dlen ends (omega arith), r.left),
  length-zero_fill (size - 1 + 1 - c.pd) c.object c.pd ∙ r.size,
  λ i.
      filled_bytes dst src size dlen c.pd _ (get_or c.object i 0) i lt r.stop (r.bytes i)
        (zero_fill_lem (size - 1 + 1 - c.pd) c.object c.pd i (omega (arith, r.stop, r.size))),
)
  where
    c : Copy
    c = copy dst dlen (size - 1) src

    r : Copied dst dlen (size - 1) src c
    r = copy-Copied dst dlen (size - 1) src (omega arith) (omega arith)

-- Without a NUL among the first `size` bytes, and with a byte behind them that may be read, nothing is
-- written and the result is `size` and the length of the text.
pub mystrlcat_full :
    (dst src : List ℕ) (size : ℕ)
    → size < length dst
    → ((i : ℕ) → i < size → get_or dst i 0 ≢ 0)
    → mystrlcat dst src size ≡ some (dst, size + length src)
unfolding mystrlcat
mystrlcat_full dst src size room full = ground (arith, scan-full dst size room full)

-- Where the object ends at `size` and holds no NUL, the loop reads one byte past its end: `*pd` is
-- read before `lest` is tested.
pub mystrlcat_overread :
    (dst src : List ℕ)
    → ((i : ℕ) → i < length dst → get_or dst i 0 ≢ 0)
    → mystrlcat dst src (length dst) ≡ none
unfolding mystrlcat
mystrlcat_overread dst src full = rw (scan-overread dst full, mystrlcat)
