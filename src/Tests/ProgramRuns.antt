-- ===== src/Tests/ProgramRuns.antt =====
-- server/main.c, server/my_handler.c and server/daemon.c on small inputs.
use ktrpg.Base.{ℕ, ◌≡◌, ◌≢◌, ◌==◌, ◌||◌, true, false, some, List, [], ◌∷◌, pos, arith}
use ktrpg.Server.Loop.{Round, Server, accept_loop}
use ktrpg.Server.Signals.{
  Signal, sigint, sigpipe, sighup, sigalrm, sigterm, sigusr1, sigusr2, sigttin, sigttou, Sigaction,
  sig_dfl, sig_ign, no_flags, set_my_sig_action, with_signals,
}
use ktrpg.Server.Signals.Spec.{until_end, accept_loop-signals}
use ktrpg.Server.Daemon.{other, Process, in_child, returns, daemonize}
use ktrpg.Server.Daemon.Spec.{detached, daemonize-detached}
use ktrpg.Server.Program.{World, main}
use ktrpg.Server.Program.Spec.{EndsWell, main-EndsWell}
use ktrpg.Tests.ServerRuns.{comes, no_bind}

-- The numbers of <signal.h> on Linux.
abbrev number : Signal → ℕ
number sigint = 2
number sigpipe = 13
number sighup = 1
number sigalrm = 14
number sigterm = 15
number sigusr1 = 10
number sigusr2 = 12
number sigttin = 21
number sigttou = 22

number_positive : (s : Signal) → number s ≢ 0
number_positive sigint e = omega arith
number_positive sigpipe e = omega arith
number_positive sighup e = omega arith
number_positive sigalrm e = omega arith
number_positive sigterm e = omega arith
number_positive sigusr1 e = omega arith
number_positive sigusr2 e = omega arith
number_positive sigttin e = omega arith
number_positive sigttou e = omega arith

abbrev defaults : Signal → Sigaction
defaults s = record { sa_handler = sig_dfl; sa_nodefer = false; sa_mask = λ s'. false }

-- SIGINT before the first round, SIGHUP before the second.
abbrev plan : List (List Signal × Round)
plan = (sigint ∷ [], comes) ∷ ((sigpipe ∷ (sighup ∷ []), comes) ∷ (([], comes) ∷ []))

accept_loop-signals_example :
    (rs : List Round) × (with_signals number (set_my_sig_action defaults) no_flags plan ≡ some rs)
    × ((soc : ℕ) (s : Server) → accept_loop soc rs s ≡ accept_loop soc (until_end plan) s)
accept_loop-signals_example = accept_loop-signals number number_positive defaults plan

abbrev process : Process
process = record { fds = other; in_root = false; has_session = false; actions = defaults }

daemonize-detached_example :
    (p' : Process) × (daemonize in_child in_child (some 0) 1 0 process ≡ returns true p')
    × ((k : ℕ) → p'.fds k ≡ detached 0 other k)
    × ((p'.actions sighup).sa_handler ≡ sig_ign)
    × (p'.in_root ≡ ((1 == 0) || false))
    × (p'.has_session ≡ true)
daemonize-detached_example = daemonize-detached 0 1 process

abbrev world : World
world = record {
  atoi = λ text. pos 1;
  fork1 = in_child;
  fork2 = in_child;
  devnull = some 0;
  answers = λ port. record no_bind { bind = true };
  number = number;
  plan = plan;
}

-- "server 1 1"
abbrev argv : List (List ℕ)
argv = (115 ∷ []) ∷ ((49 ∷ []) ∷ ((49 ∷ []) ∷ []))

main-EndsWell_example : EndsWell world (49 ∷ []) (main world argv process)
main-EndsWell_example = main-EndsWell world argv process number_positive (omega arith)
