-- ===== src/Tests/CheckRuns.antt =====
-- The checks on the text of a run.
use ktrpg.Base.{ℕ, ◌≡◌, ◌↔◌, true, List, Option, some, codes}
use ktrpg.Check.SimpleChat
use ktrpg.Check.SimpleServerOnly
use ktrpg.Check.TwoClient
use ktrpg.Check.Spec.{
  Occurs, one_child, two_children, said, ready, no_child, stopped, result_check_iff,
}

abbrev output : List ℕ
output = codes "ready for accept <<child count:0>> select: Interrupted system call"

result_check_iff_example :
    ((SimpleServerOnly.result_check output ≡ true)
      ↔ (Occurs ready output × Occurs no_child output × Occurs stopped output))
    × ((SimpleChat.result_check output ≡ true) ↔ (
        (SimpleServerOnly.result_check output ≡ true)
        × Occurs one_child output
        × Occurs said output))
    × ((TwoClient.result_check (some 0) output ≡ true) ↔ (
        (◌≡◌ {A = Option ℕ} (some 0) (some 0))
        × (SimpleServerOnly.result_check output ≡ true)
        × Occurs one_child output
        × Occurs two_children output))
result_check_iff_example = result_check_iff (some 0) output
