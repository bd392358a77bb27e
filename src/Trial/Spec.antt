-- ===== src/Trial/Spec.antt =====
-- What the lines of TEST/main.c say of the tests.
use ktrpg.Base.{
  ℕ, ltb, Bool, true, not, ◌&&◌, ◌||◌, List, [], ◌∷◌, ◌++◌, length, has_nul, if◌then◌else◌,
}
use ktrpg.Trial.{Trial, filebufsize}
use ktrpg.Trial.Driver.{Directory, Line, dir, ok, dame, is_test, run_test}

-- The lines of the first loop on an entry, and those of the second on the test after its run.
abbrev pub first_lines : Directory → List Line
first_lines e = if is_test e then dir e.name ∷ (run_test e).0 else []

abbrev pub verdict : Directory → List Line
verdict e = if is_test e then dir e.name ∷ ((if (run_test e).1.ok then ok else dame) ∷ []) else []

abbrev pub lines_of : (Directory → List Line) → List Directory → List Line
lines_of f [] = []
lines_of f (e ∷ es) = f e ++ lines_of f es

-- Each directory of a test can be entered and left, both times.
abbrev pub passes : Directory → Bool
passes e = not (is_test e) || (e.enters && e.leaves && e.enters_again && e.leaves_again)

abbrev pub all_pass : List Directory → Bool
all_pass [] = true
all_pass (e ∷ es) = passes e && all_pass es

abbrev pub ran : Directory → Directory
ran e = record e { marks = if is_test e then (run_test e).1 else e.marks }

-- The text of the server fits into `filebuf` with a NUL behind it, and has none.
abbrev pub fits : List ℕ → Bool
fits result = ltb (length result) filebufsize && not (has_nul result)

-- The test has been run up to the judgement.
abbrev pub judged : Directory → Bool
judged e = e.forks && e.executes && e.trial.error_opens && e.trial.result_opens && e.trial.forks

-- The check accepts what the server has written; or the test was not run that far, and an earlier run
-- has left temp/ok.txt.
abbrev pub accepted : Directory → Bool
accepted e = if judged e then e.result_check e.trial.result else e.marks.ok

abbrev pub says : Directory → List Line
says e = if is_test e then dir e.name ∷ ((if accepted e then ok else dame) ∷ []) else []

abbrev pub all_fit : List Directory → Bool
all_fit [] = true
all_fit (e ∷ es) = (not (is_test e) || fits e.trial.result) && all_fit es

abbrev started : Trial → Bool
started t = t.error_opens && t.result_opens && t.forks
