-- ===== src/Db.antt =====
-- `DB_threadfunc` and `DB_release` of common/db.c. The flag g_dbthread_func_do is shared by threads: what
-- the loop reads of it, round by round, is an argument.
use ktrpg.Base.{
  ℕ, zero, suc, ◌≡◌, ◌↔◌, refl, Option, none, some, false, List, [], ◌∷◌, ◌==◌, if◌then◌else◌,
  arith, any, replicate, Option-cases, inl, inr,
}

-- The rounds until the loop ends; `none` while it still runs.
unfoldable pub db_threadfunc : List ℕ → Option ℕ
db_threadfunc [] = none
db_threadfunc (g_dbthread_func_do ∷ reads) =
    let rest = db_threadfunc reads in
    if g_dbthread_func_do == 0 then some 1 else elim rest [ none ↦ none | some n ↦ some (suc n) ]

-- What `DB_release` leaves in the flag.
abbrev pub db_release : ℕ → ℕ
db_release g_dbthread_func_do = 1

-- The loop runs on exactly while it has read no 0.
pub db_threadfunc_iff :
    (reads : List ℕ) → (db_threadfunc reads ≡ none) ↔ (any (λ g. g == 0) reads ≡ false)
unfolding db_threadfunc any
db_threadfunc_iff [] = (λ e. refl, λ e. refl)
db_threadfunc_iff (g ∷ reads) =
    let (on, off) = db_threadfunc_iff reads in
    elim (Option-cases (db_threadfunc reads)) [
      | inl e ↦ (λ q. ground (arith, on e), λ q. ground (arith, e))
      | inr (n, e) ↦ (λ q. ground (arith, e), λ q. ground (arith, off, e))
    ]

-- After `DB_release`, and while nobody else writes the flag, the loop does not end.
pub db_threadfunc-db_release :
    (g rounds : ℕ) → db_threadfunc (replicate rounds (db_release g)) ≡ none
unfolding db_threadfunc
db_threadfunc-db_release g zero = refl
db_threadfunc-db_release g (suc rounds) = rw (db_threadfunc-db_release g rounds, db_threadfunc) refl
