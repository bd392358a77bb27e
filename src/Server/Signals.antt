-- ===== src/Server/Signals.antt =====
-- server/my_handler.c and the flags of server/main.c that its handlers set.
pub mod Spec
use ktrpg.Base.{
  ℕ, ◌==◌, Bool, true, false, not, ◌&&◌, Option, none, some, List, [], ◌∷◌, if◌then◌else◌,
}
use ktrpg.Server.Loop.{Round}

-- The signals that the code names.
pub data Signal : Type 0 where
  sigint sigpipe sighup sigalrm sigterm sigusr1 sigusr2 sigttin sigttou : Signal

pub data Handler : Type 0 where
  sig_dfl sig_ign : Handler
  sig_hangup_handler sig_pipe_handler sig_alrm_handler sig_int_handler sig_term_handler : Handler

-- `struct sigaction`; of its flags, whether SA_NODEFER is all of them.
pub record Sigaction : Type 0 where
  pub sa_handler : Handler
  pub sa_nodefer : Bool
  pub sa_mask : Signal → Bool

-- The five flags, which are 0 or the number of the signal that came last.
pub record Flags : Type 0 where
  pub g_gothangup : ℕ
  pub g_gotpipe : ℕ
  pub g_gotalrm : ℕ
  pub g_gotint : ℕ
  pub g_gotterm : ℕ

abbrev pub no_flags : Flags
no_flags = record { g_gothangup = 0; g_gotpipe = 0; g_gotalrm = 0; g_gotint = 0; g_gotterm = 0 }

-- What a handler does when it is called with `sig`; the default action of these signals ends or stops
-- the process.
unfoldable pub run_handler : Handler → ℕ → Flags → Option Flags
run_handler sig_dfl sig f = none
run_handler sig_ign sig f = some f
run_handler sig_hangup_handler sig f = some (record f { g_gothangup = sig })
run_handler sig_pipe_handler sig f = some (record f { g_gotpipe = sig })
run_handler sig_alrm_handler sig f = some (record f { g_gotalrm = sig })
run_handler sig_int_handler sig f = some (record f { g_gotint = sig })
run_handler sig_term_handler sig f = some (record f { g_gotterm = sig })

abbrev pub same : Signal → Signal → Bool
same sigint sigint = true
same sigpipe sigpipe = true
same sighup sighup = true
same sigalrm sigalrm = true
same sigterm sigterm = true
same sigusr1 sigusr1 = true
same sigusr2 sigusr2 = true
same sigttin sigttin = true
same sigttou sigttou = true
same _ _ = false

-- `sigaction` with an action to set.
abbrev pub sigaction : Signal → Sigaction → (Signal → Sigaction) → Signal → Sigaction
sigaction s a actions s' = if same s s' then a else actions s'

-- `signal(s, SIG_IGN)`.
abbrev pub ignore : Signal → (Signal → Sigaction) → Signal → Sigaction
ignore s = sigaction s (record { sa_handler = sig_ign; sa_nodefer = false; sa_mask = λ s'. false })

-- The action of a signal is asked for, gets the handler and the flags, and is set.
unfoldable pub handle : Signal → Handler → (Signal → Sigaction) → Signal → Sigaction
handle s h actions =
    sigaction s (record { sa_handler = h; sa_nodefer = true; sa_mask = (actions s).sa_mask })
      actions

unfoldable pub set_my_sig_action : (Signal → Sigaction) → Signal → Sigaction
set_my_sig_action actions =
    let handled = handle sigterm sig_term_handler (
      handle sigalrm sig_alrm_handler (
        handle sighup sig_hangup_handler
          (handle sigpipe sig_pipe_handler (handle sigint sig_int_handler actions)))) in
    ignore sigttou (ignore sigttin (ignore sigusr2 (ignore sigusr1 handled)))

-- Signals that come one after another; `number` gives the numbers of <signal.h>.
unfoldable pub deliver : (Signal → ℕ) → (Signal → Sigaction) → List Signal → Flags → Option Flags
deliver number actions [] f = some f
deliver number actions (s ∷ ss) f = elim (run_handler (actions s).sa_handler (number s) f) [
  | none ↦ none
  | some f' ↦ deliver number actions ss f'
]

-- The condition of the loop in `accept_loop`, negated.
abbrev pub stops : Flags → Bool
stops f = not ((f.g_gotterm == 0) && (f.g_gothangup == 0))

-- The rounds of the loop with the signals that come before each of them; `none` if a default action
-- ends the process.
unfoldable pub with_signals :
    (Signal → ℕ) → (Signal → Sigaction) → Flags → List (List Signal × Round) → Option (List Round)
with_signals number actions f [] = some []
with_signals number actions f ((ss, r) ∷ rest) = elim (deliver number actions ss f) [
  | none ↦ none
  | some f' ↦ elim (with_signals number actions f' rest) [
    | none ↦ none
    | some rs ↦ some (record r { signalled = stops f' } ∷ rs)
  ]
]
