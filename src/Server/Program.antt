-- ===== src/Server/Program.antt =====
-- `main` of server/main.c. What the C library and the world answer is an argument.
pub mod Spec
use ktrpg.Base.{
  ℕ, zero, suc, ℤ, pos, leb, length, get_or, Bool, true, false, Option, none, some, List, [], ◌∷◌,
  ◌++◌, if◌then◌else◌,
}
use ktrpg.Server.Socket.{Answers, Effect, closed, server_socket}
use ktrpg.Server.Relay.{Event}
use ktrpg.Server.Loop.{Round, Server, init, accept_loop}
use ktrpg.Server.Signals.{Signal, Sigaction, no_flags, set_my_sig_action, with_signals}
use ktrpg.Server.Daemon.{Process, Fork, Daemonized, exits, returns, daemonize}

-- `plan` is what happens in the rounds of the loop, with the signals that come before each.
pub record World : Type 0 where
  pub atoi : List ℕ → ℤ
  pub fork1 : Fork
  pub fork2 : Fork
  pub devnull : Option ℕ
  pub answers : List ℕ → Answers
  pub number : Signal → ℕ
  pub plan : List (List Signal × Round)

pub data Status : Type 0 where
  ex_ok ex_usage ex_unavailable : Status

-- How a process that runs `main` ends: in `daemonize`, by a return from `main`, by the default action
-- of a signal, or with undefined behaviour; or it goes on in its loop after the rounds of the plan.
pub data Run : Type 0 where
  left : Run
  finished : Status → List Effect → List Event → Run
  running : List Effect → List Event → Run
  killed : Run
  crashed : Run

abbrev pub is_zero : ℤ → Bool
is_zero (pos zero) = true
is_zero _ = false

-- From `set_my_sig_action` on, with the result of `server_socket`.
unfoldable pub serve_on : World → Process → List Effect × Option ℕ → Run
serve_on w p (effects, none) = finished ex_unavailable effects []
serve_on w p (effects, some soc) =
    elim (with_signals w.number (set_my_sig_action p.actions) no_flags w.plan) [
      | none ↦ killed
      | some rounds ↦ elim (accept_loop soc rounds init) [
        | none ↦ crashed
        | some (events, server, ended) ↦
            if ended
            then finished ex_ok (effects ++ (closed soc ∷ [])) events
            else running effects events
      ]
    ]

abbrev pub serve : World → List ℕ → Process → Run
serve w port p = serve_on w p (server_socket (w.answers port))

unfoldable pub main : World → List (List ℕ) → Process → Run
main w argv p =
    if leb (length argv) 2
    then finished ex_usage [] []
    else (if is_zero (w.atoi (get_or argv 2 []))
        then serve w (get_or argv 1 []) p
        else elim (daemonize w.fork1 w.fork2 w.devnull 1 0 p) [
          | exits status ↦ left
          | returns ok p' ↦ serve w (get_or argv 1 []) p'
        ])
