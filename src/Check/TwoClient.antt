-- ===== src/Check/TwoClient.antt =====
-- TEST/TEST_twoclient/resultcheck.c. The size of temp/error.txt is an argument, `none` where the file
-- cannot be opened.
use ktrpg.Base.{ℕ, Bool, true, false, Option, none, some, List, codes, ◌==◌, if◌then◌else◌}
use ktrpg.Check.{contains}

-- The tests of the text.
unfoldable pub check_text : List ℕ → Bool
check_text buf =
    if contains buf (codes "ready for accept")
    then (if contains buf (codes "<<child count:0>>")
        then (if contains buf (codes "<<child count:1>>")
            then (if contains buf (codes "<<child count:2>>")
                then (if contains buf (codes "select: Interrupted system call")
                    then true
                    else false)
                else false)
            else false)
        else false)
    else false

unfoldable pub result_check : Option ℕ → List ℕ → Bool
result_check error_size buf = elim error_size [
  | none ↦ false
  | some sz ↦ if sz == 0 then check_text buf else false
]
