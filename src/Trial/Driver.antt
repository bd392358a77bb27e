-- ===== src/Trial/Driver.antt =====
-- `main` of TEST/main.c. What `chdir`, `fork` and `execl` answer stands with each directory entry; what
-- the two calls of `opendir` answer are arguments. `readdir` is taken to give the same entries in both
-- loops.
use ktrpg.Base.{ℕ, Bool, true, false, Option, none, some, List, [], ◌∷◌, ◌++◌, codes, if◌then◌else◌}
use ktrpg.Check.{contains}
use ktrpg.Trial.{Marks, Trial, test_main}

pub record Directory : Type 0 where
  pub name : List ℕ
  pub result_check : List ℕ → Bool
  pub trial : Trial
  pub marks : Marks
  pub enters : Bool
  pub forks : Bool
  pub executes : Bool
  pub leaves : Bool
  pub enters_again : Bool
  pub leaves_again : Bool

-- What is printed on the standard output, and what is written to error.txt.
pub data Line : Type 0 where
  dir only_name : List ℕ → Line
  ok dame error_exec error_main : Line

abbrev pub is_test : Directory → Bool
is_test e = contains e.name (codes "TEST")

-- Both marks have been removed by a test that then reads past its buffer.
abbrev pub marks_of : Option Marks → Marks
marks_of none = record { ok = false; dame = false }
marks_of (some m) = m

abbrev pub main_exe : Directory → Marks
main_exe e = marks_of (test_main e.result_check e.trial e.marks)

-- The parent waits for ./main.exe, which the child runs if it can.
abbrev pub run_test : Directory → List Line × Marks
run_test e =
    if e.forks
    then (if e.executes then ([], main_exe e) else (error_main ∷ [], e.marks))
    else ([], e.marks)

abbrev pub and_then :
    {A : Type 0} → List Line → (A → A) → List Line × Option A → List Line × Option A
and_then lines f (more, none) = (lines ++ more, none)
and_then lines f (more, some x) = (lines ++ more, some (f x))

-- The first loop over the directory; `none` where it exits with -1.
unfoldable pub run_tests : List Directory → List Line × Option (List Directory)
run_tests [] = ([], some [])
run_tests (e ∷ es) =
    let rest = run_tests es in
    if is_test e
    then (if e.enters
        then (let (lines, marks) = run_test e in
            if e.leaves
            then and_then (dir e.name ∷ lines) (λ xs. record e { marks = marks } ∷ xs) rest
            else (dir e.name ∷ (lines ++ (error_exec ∷ [])), none))
        else (dir e.name ∷ (error_exec ∷ []), none))
    else and_then [] (λ xs. e ∷ xs) rest

-- The second loop, which looks for temp/ok.txt; `false` where it exits with -1.
unfoldable pub report : List Directory → List Line × Bool
report [] = ([], true)
report (e ∷ es) =
    let (more, returns) = report es in
    if is_test e
    then (if e.enters_again
        then (let lines : List Line = dir e.name ∷ ((if e.marks.ok then ok else dame) ∷ []) in
            if e.leaves_again
            then (lines ++ more, returns)
            else (lines ++ (error_exec ∷ []), false))
        else (dir e.name ∷ (error_exec ∷ (only_name e.name ∷ [])), false))
    else (more, returns)

-- The second `opendir`, and the loop after it.
abbrev pub report_after : Bool → List Line × Option (List Directory) → List Line × Bool
report_after opens_again (lines, none) = (lines, false)
report_after opens_again (lines, some es) =
    let (more, returns) = report es in
    if opens_again then (lines ++ more, returns) else (lines, false)

-- The lines, and whether `main` returns 0 and does not exit with -1.
-- `opens` and `opens_again` tell whether the two calls of `opendir` succeed.
unfoldable pub main : Bool → Bool → List Directory → List Line × Bool
main opens opens_again es = if opens then report_after opens_again (run_tests es) else ([], false)
