-- ===== src/Server/Signals/Spec.antt =====
-- The loop of server/server.c under the signals of server/my_handler.c.
use ktrpg.Base.{
  ℕ, ◌≡◌, ◌≢◌, refl, ap, ◌∙◌, inl, inr, Bool, true, false, ◌||◌, some, List, [], ◌∷◌, any, arith,
  if◌then◌else◌, Bool-cases, Option-cases,
}
use ktrpg.Server.Loop.{Round, Server, round, accept_loop}
use ktrpg.Server.Signals.{
  Signal, sigint, sigpipe, sighup, sigalrm, sigterm, sigusr1, sigusr2, sigttin, sigttou, Sigaction,
  Flags, no_flags, run_handler, handle, set_my_sig_action, deliver, stops, with_signals,
}

-- The signals that end the loop.
abbrev pub ends : Signal → Bool
ends sighup = true
ends sigterm = true
ends _ = false

-- The rounds before the first that such a signal comes before, and that one, which the loop ends at.
pub until_end : List (List Signal × Round) → List Round
until_end [] = []
until_end ((ss, r) ∷ rest) =
    if any ends ss
    then record r { signalled = true } ∷ []
    else record r { signalled = false } ∷ until_end rest

module _ (number : Signal → ℕ) (positive : (s : Signal) → number s ≢ 0)
    (before : Signal → Sigaction) where
  actions : Signal → Sigaction
  actions = set_my_sig_action before

  one_signal :
      (s : Signal) (f : Flags)
      → (f' : Flags) × (run_handler (actions s).sa_handler (number s) f ≡ some f')
        × (stops f' ≡ (stops f || ends s))
  unfolding actions set_my_sig_action handle run_handler
  one_signal sigint f = (_, refl, ground arith)
  one_signal sigpipe f = (_, refl, ground arith)
  one_signal sighup f = (_, refl, ground (arith, positive sighup))
  one_signal sigalrm f = (_, refl, ground arith)
  one_signal sigterm f = (_, refl, ground (arith, positive sigterm))
  one_signal sigusr1 f = (_, refl, ground arith)
  one_signal sigusr2 f = (_, refl, ground arith)
  one_signal sigttin f = (_, refl, ground arith)
  one_signal sigttou f = (_, refl, ground arith)

  deliver_all :
      (ss : List Signal) (f : Flags)
      → (f' : Flags) × (deliver number actions ss f ≡ some f')
        × (stops f' ≡ (stops f || any ends ss))
  unfolding deliver any
  deliver_all [] f = (f, refl, ground arith)
  deliver_all (s ∷ ss) f =
      let (f1, e1, h1) = one_signal s f in
      let (f2, e2, h2) = deliver_all ss f1 in (f2, rw (e1, deliver) e2, ground arith)

  -- The loop over a first round, if it has not been told to stop.
  goes_on :
      (soc : ℕ) (r : Round) (rs rs' : List Round)
      → ((s : Server) → accept_loop soc rs s ≡ accept_loop soc rs' s)
      → (s : Server) → accept_loop soc (r ∷ rs) s ≡ accept_loop soc (r ∷ rs') s
  unfolding accept_loop
  goes_on soc r rs rs' h s = elim (Bool-cases r.signalled) [
    | inl e ↦ ground arith
    | inr e ↦ elim (Option-cases (round soc r s)) [
      | inl q ↦ ground arith
      | inr ((es, s'), q) ↦ rw (q, accept_loop) (rw (h s') refl)
    ]
  ]

  told :
      (b : Bool) (soc : ℕ) (r : Round) (rs rs' : List Round)
      → (b ≡ false → (s : Server) → accept_loop soc rs s ≡ accept_loop soc rs' s)
      → (s : Server)
      → accept_loop soc (record r { signalled = b } ∷ rs) s
        ≡ accept_loop soc
            (if b then record r { signalled = true } ∷ [] else record r { signalled = false } ∷ rs')
            s
  unfolding accept_loop
  told true soc r rs rs' h s = refl
  told false soc r rs rs' h s = goes_on soc (record r { signalled = false }) rs rs' (h refl) s

  runs :
      (plan : List (List Signal × Round)) (f : Flags)
      → (rs : List Round) × (with_signals number actions f plan ≡ some rs)
        × (stops f ≡ false
            → (soc : ℕ) (s : Server) → accept_loop soc rs s ≡ accept_loop soc (until_end plan) s)
  unfolding with_signals until_end
  runs [] f = ([], refl, λ h soc s. refl)
  runs ((ss, r) ∷ rest) f =
      let (f1, e1, h1) = deliver_all ss f in
      let (rs, e2, h2) = runs rest f1 in
      (
        record r { signalled = stops f1 } ∷ rs,
        rw (e1, with_signals, e2) refl,
        λ h soc s.
            let same_answer : stops f1 ≡ any ends ss = ground (arith, h1, h) in
            told (stops f1) soc r rs (until_end rest) (λ q. h2 q soc) s
            ∙ ap
                (λ b.
                  accept_loop soc
                    (if b
                      then record r { signalled = true } ∷ []
                      else record r { signalled = false } ∷ until_end rest)
                    s)
                same_answer,
      )

-- With the handlers of `set_my_sig_action` in place, whatever was there before, and no flag set, none
-- of the nine signals takes its default action, and the loop runs exactly the rounds before the first
-- that SIGTERM or SIGHUP comes before, and ends there: SIGINT, SIGPIPE and SIGALRM do not end it. No
-- signal has the number 0.
pub accept_loop-signals :
    (number : Signal → ℕ)
    → ((s : Signal) → number s ≢ 0)
    → (before : Signal → Sigaction) (plan : List (List Signal × Round))
    → (rs : List Round) × (with_signals number (set_my_sig_action before) no_flags plan ≡ some rs)
      × ((soc : ℕ) (s : Server) → accept_loop soc rs s ≡ accept_loop soc (until_end plan) s)
unfolding actions
accept_loop-signals number positive before plan =
    let (rs, e, h) = runs number positive before plan no_flags in (rs, e, h (ground arith))
