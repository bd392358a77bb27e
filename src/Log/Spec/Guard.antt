-- ===== src/Log/Spec/Guard.antt =====
-- The mutex of the log: who writes a file holds it.
use ktrpg.Base.{
  ℕ, ◌≡◌, ◌⊎◌, refl, subst, inl, inr, Bool, true, false, Option, none, some, List, [], ◌∷◌, ◌++◌,
  arith, ◌==◌, if◌then◌else◌, Bool-cases, Option-cases, read_string,
}
use ktrpg.Log.Write.{
  Effect, lock_log, unlock_log, append, print_format, Ended, overrun, returned, Entry, writelog,
  mylogd, Arrival, arrived, failed, receive, receive_all,
}

-- Whether the mutex is held after the effects, from whether it is held before: `none` if it is locked
-- or given up out of turn, or a file is written without it.
unfoldable pub guarded : Bool → List Effect → Option Bool
guarded b [] = some b
guarded b (lock_log ∷ es) = if b then none else guarded true es
guarded b (unlock_log ∷ es) = if b then guarded false es else none
guarded b (append file bytes ∷ es) = if b then guarded b es else none
guarded b (print_format bytes ∷ es) = guarded b es

guarded-append :
    (b : Bool) (es es' : List Effect)
    → guarded b es ≡ some false
    → guarded false es' ≡ some false
    → guarded b (es ++ es') ≡ some false
unfolding guarded
guarded-append b [] es' p q = ground arith
guarded-append b (lock_log ∷ es) es' p q = ground (arith, guarded-append true es es')
guarded-append b (unlock_log ∷ es) es' p q = ground (arith, guarded-append false es es')
guarded-append b (append file bytes ∷ es) es' p q = ground (arith, guarded-append b es es')
guarded-append b (print_format bytes ∷ es) es' p q = guarded-append b es es' p q

writelog-guarded :
    (opens : Bool) (t : ℕ) (buffer : List ℕ)
    → guarded false (writelog opens t buffer).0 ≡ some false
unfolding guarded writelog
writelog-guarded opens t buffer = ground arith

mylogd-guarded :
    (testing opens : Bool) (e : Entry) (b : Bool) (es : List Effect)
    → mylogd testing opens e ≡ returned b es
    → guarded false es ≡ some false
unfolding guarded mylogd
mylogd-guarded testing opens e b es q = ground arith

Ended-cases :
    {A : Type 0} (o : Ended A) → (o ≡ overrun) ⊎ ((b : Bool) × (a : A) × (o ≡ returned b a))
Ended-cases overrun = inl refl
Ended-cases (returned b a) = inr (b, a, refl)

receive-guarded :
    (opens : Bool) (a : Arrival) (b : Bool) (es : List Effect)
    → receive opens a ≡ returned b es
    → guarded false es ≡ some false
unfolding receive guarded
receive-guarded opens failed b es q = ground arith
receive-guarded opens (arrived temp m) b es q = elim (Bool-cases (temp == 0)) [
  | inl z ↦ ground arith
  | inr z ↦ elim (Option-cases (read_string m.mtext)) [
    | inl n ↦ ground arith
    | inr (text, r) ↦ ground (arith, writelog-guarded opens m.mtype text)
  ]
]

receive_all-guarded :
    (opens : Bool) (as' : List Arrival) (b : Bool) (es : List Effect)
    → receive_all opens as' ≡ returned b es
    → guarded false es ≡ some false
unfolding receive_all guarded
receive_all-guarded opens [] b es q = ground arith
receive_all-guarded opens (a ∷ rest) b es q = elim (Ended-cases (receive opens a)) [
  | inl o ↦ ground arith
  | inr (b1, es1, o) ↦ elim (Ended-cases (receive_all opens rest)) [
    | inl o' ↦ ground arith
    | inr (b2, es2, o') ↦
        subst (λ l. guarded false l ≡ some false) {x = es1 ++ es2} {y = es} (ground arith)
          (guarded-append false es1 es2 (receive-guarded opens a b1 es1 o)
            (receive_all-guarded opens rest b2 es2 o'))
  ]
]

-- A call of `mylogd`, if it does not write outside a buffer, and a pass of the log process over any
-- reads of the queue, if it does not read outside an object, write to the files only with the mutex,
-- and have given it back when they return.
pub writes_guarded :
    (testing opens : Bool) (e : Entry) (as' : List Arrival) (b b' : Bool) (es es' : List Effect)
    → mylogd testing opens e ≡ returned b es
    → receive_all opens as' ≡ returned b' es'
    → (guarded false es ≡ some false) × (guarded false es' ≡ some false)
writes_guarded testing opens e as' b b' es es' q q' =
    (mylogd-guarded testing opens e b es q, receive_all-guarded opens as' b' es' q')
