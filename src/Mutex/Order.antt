-- ===== src/Mutex/Order.antt =====
-- `isLockJyunbanOk` of common/mymutex.c: are the held mutexes in the order that `mmjyunban` lists?
-- The `return`s inside the loops only cut short a conjunction, since the loops write nothing else.
pub mod Spec
use ktrpg.Base.{
  ℕ, zero, suc, Bool, true, false, ◌&&◌, ◌||◌, none, some, List, [], ◌∷◌, ◌==◌, ltb, if◌then◌else◌,
  find_last_index,
}

-- The body of the loops: slots `findex` and `lindex`. The loop over `k` has no `break`, so
-- the last position counts.
unfoldable pub pair_ok : List ℕ → ℕ → ℕ → Bool
pair_ok mmj findex lindex =
    if findex == lindex
    then true
    else (if (findex == 0) || (lindex == 0)
        then true
        else elim (find_last_index (λ t. t == findex) mmj) [
          | none ↦ false
          | some findex_mmj ↦ elim (find_last_index (λ t. t == lindex) mmj) [
            | none ↦ false
            | some lindex_mmj ↦ ltb findex_mmj lindex_mmj
          ]
        ])

-- The loop over `j`, at one `i`.
unfoldable pub row_ok : List ℕ → ℕ → List ℕ → Bool
row_ok mmj findex [] = true
row_ok mmj findex (lindex ∷ rest) = pair_ok mmj findex lindex && row_ok mmj findex rest

-- The loop over `i`; `j` starts at `i`.
unfoldable pub is_lock_jyunban_ok : List ℕ → List ℕ → Bool
is_lock_jyunban_ok mmj [] = true
is_lock_jyunban_ok mmj (findex ∷ rest) =
    row_ok mmj findex (findex ∷ rest) && is_lock_jyunban_ok mmj rest

-- The list that `main` sets up: `m.get_mutex_type_jyunban[i] = i`, from `i = k` on.
unfoldable pub count_up : ℕ → ℕ → List ℕ
count_up k zero = []
count_up k (suc n) = k ∷ count_up (suc k) n
