-- ===== src/Check/SimpleChat.antt =====
-- TEST/TEST_simplechat/resultcheck.c.
use ktrpg.Base.{ℕ, Bool, true, false, List, codes, if◌then◌else◌}
use ktrpg.Check.{contains}

unfoldable pub result_check : List ℕ → Bool
result_check buf =
    if contains buf (codes "ready for accept")
    then (if contains buf (codes "<<child count:0>>")
        then (if contains buf (codes "<<child count:1>>")
            then (if contains buf (codes "never give up")
                then (if contains buf (codes "select: Interrupted system call")
                    then true
                    else false)
                else false)
            else false)
        else false)
    else false
