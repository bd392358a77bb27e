-- ===== src/Trial.antt =====
-- The programs that run the tests: the parent in `main` of TEST/TEST_simpleserveronly/main.c, which
-- judges what the chat server has written, and `main` of TEST/main.c, which runs each test.
pub mod Driver
pub mod Spec
use ktrpg.Base.{
  ℕ, ◌-◌, Bool, true, false, ◌&&◌, Option, none, some, List, ◌++◌, length, take, replicate,
  read_string, if◌then◌else◌,
}

-- Which of temp/ok.txt and temp/dame.txt exist.
pub record Marks : Type 0 where
  pub ok : Bool
  pub dame : Bool

-- A run of a test: whether temp/error.txt and temp/result.txt can be written and `fork` succeeds, and
-- what the server has then written to temp/result.txt. Each file in temp that is created after these
-- is taken to be created.
pub record Trial : Type 0 where
  pub error_opens : Bool
  pub result_opens : Bool
  pub forks : Bool
  pub result : List ℕ

unfoldable pub filebufsize : ℕ
filebufsize = 131072

-- The parent, from where it reads the result; `none` where the text in `filebuf` has no NUL, and
-- `result_check` reads past it.
unfoldable pub judge : (List ℕ → Bool) → List ℕ → Option Marks
judge result_check result =
    elim (read_string (take filebufsize result ++ replicate (filebufsize - length result) 0)) [
      | none ↦ none
      | some text ↦ some (
          if result_check text
          then record { ok = true; dame = false }
          else record { ok = false; dame = true })
    ]

-- `main`; it returns early without a word on the marks of an earlier run.
unfoldable pub test_main : (List ℕ → Bool) → Trial → Marks → Option Marks
test_main result_check t m =
    if t.error_opens && t.result_opens && t.forks then judge result_check t.result else some m
