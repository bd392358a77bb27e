-- ===== src/Tests/TrialRuns.antt =====
-- The programs of TEST and the client of chatclient/main.c on small inputs.
use ktrpg.Base.{◌≡◌, refl, true, false, none, some, List, [], ◌∷◌, codes}
use ktrpg.Check.SimpleServerOnly.{result_check}
use ktrpg.Trial.Driver.{Directory, main}
use ktrpg.Client.{Round, Effect, sent, Ended, and_then}
use ktrpg.Client
use ktrpg.Client.Spec.{expected, main_lem}

-- A test that is run, and a directory that is none.
abbrev server_only : Directory
server_only = record {
  name = codes "TEST_simpleserveronly";
  result_check = result_check;
  trial = record { error_opens = true; result_opens = true; forks = true; result = codes "ready" };
  marks = record { ok = false; dame = false };
  enters = true;
  forks = true;
  executes = true;
  leaves = true;
  enters_again = true;
  leaves_again = true;
}

abbrev here : Directory
here = record server_only { name = codes "."; enters = false }

-- A text comes, then the end of the stream while the standard input can be read, then `select` fails.
abbrev rounds : List Round
rounds =
    record { selects = true; sock_ready = true; stdin_ready = false; read = some (72 ∷ (73 ∷ [])) }
    ∷ (record { selects = true; sock_ready = true; stdin_ready = true; read = some [] }
        ∷ (record { selects = false; sock_ready = false; stdin_ready = false; read = none } ∷ []))

main_lem_example :
    Client.main true rounds ≡ and_then (sent (codes "testdayo\n") ∷ []) (expected rounds)
main_lem_example = main_lem rounds refl
