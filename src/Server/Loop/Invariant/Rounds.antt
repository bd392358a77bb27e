-- ===== src/Server/Loop/Invariant/Rounds.antt =====
-- The table of clients through whole rounds of `accept_loop`.
use ktrpg.Base.{
  ℕ, suc, ◌+◌, ◌<◌, ◌≡◌, ◌≢◌, ◌⊎◌, refl, ap, sym, ◌∙◌, inl, inr, Bool, true, false, Option, none,
  some, List, [], ◌∷◌, ◌++◌, arith, if◌then◌else◌, Bool-cases, get_or, length,
}
use ktrpg.Server.Relay.{Event, child_count, select_failed, Outcome, undefined, done, send_recv_loop}
use ktrpg.Server.Loop.{
  Server, Round, fd_setsize, ready, failed, timeout, accept_child, Served, crashed, served,
  and_then, serve_children, drop_child, round, select_round, accept_loop,
}
use ktrpg.Server.Loop.Invariant.{
  IsValid, IsNew, child_at, drop-IsValid, accept_child-IsValid, round-select,
}

-- Entry `k` of the table, number `k - i` of its rest, is in use.
abbrev InUse : List (Option ℕ) → ℕ → ℕ → Type 0
InUse rest i k = (n fd : ℕ) × (k ≡ i + n) × (n < length rest) × (get_or rest n none ≡ some fd)

InUse-next :
    (o : Option ℕ) (rest : List (Option ℕ)) (i k : ℕ) → InUse rest (suc i) k → InUse (o ∷ rest) i k
InUse-next o rest i k (n, fd, e, h, g) = (suc n, fd, omega arith, omega arith, g)

Served-after :
    (es es' : List Event) (k : ℕ) (a : Served)
    → and_then es a ≡ served es' (some k)
    → (es'' : List Event) × (a ≡ served es'' (some k))
Served-after es es' k crashed e = cc
Served-after es es' k (served rest dropped) e = (rest, ground arith)

pub Outcome-cases :
    (o : Outcome)
    → (o ≡ undefined)
      ⊎ ((es : List Event) × (o ≡ done true es))
      ⊎ ((es : List Event) × (o ≡ done false es))
Outcome-cases undefined = inl refl
Outcome-cases (done true es) = inr (inl (es, refl))
Outcome-cases (done false es) = inr (inr (es, refl))

-- The entry that the loop over the clients drops is in use.
serve_children-InUse :
    (r : Round) (mask : ℕ → Bool) (childs : List (Option ℕ)) (i k : ℕ) (rest : List (Option ℕ))
    (es : List Event)
    → serve_children r mask childs i rest ≡ served es (some k)
    → InUse rest i k
unfolding serve_children
serve_children-InUse r mask childs i k [] es e = ground arith
serve_children-InUse r mask childs i k (none ∷ rest) es e =
    InUse-next none rest i k (serve_children-InUse r mask childs (suc i) k rest es e)
serve_children-InUse r mask childs i k (some fd ∷ rest) es e = elim (Bool-cases (mask fd)) [
  | inr idle ↦
      InUse-next (some fd) rest i k
        (serve_children-InUse r mask childs (suc i) k rest es (ground arith))
  | inl on ↦ elim (Outcome-cases (send_recv_loop (r.recv fd) (r.send i) fd i childs)) [
    | inl o ↦ ground arith
    | inr (inl (es', o)) ↦
        let (es'', a) =
          Served-after es' es k (serve_children r mask childs (suc i) rest) (ground arith) in
        InUse-next (some fd) rest i k (serve_children-InUse r mask childs (suc i) k rest es'' a)
    | inr (inr (es', o)) ↦ (0, fd, ground arith, omega arith, refl)
  ]
]

-- The state between the accept and the loop over the clients.
abbrev accepting : ℕ → (ℕ → Bool) → Round → Server → List Event × Server
accepting soc mask r s = if mask soc then accept_child r.accept s else ([], s)

accepting-IsValid :
    (soc : ℕ) (mask : ℕ → Bool) (r : Round) (s : Server)
    → ((fd : ℕ) → r.accept ≡ some fd → IsNew fd s)
    → IsValid s
    → IsValid (accepting soc mask r s).1
accepting-IsValid soc mask r s new v = elim (Bool-cases (mask soc)) [
  | inl on ↦ rw on (accept_child-IsValid r.accept s new v)
  | inr off ↦ rw off v
]

-- What `recv` gives for a client that is ready leaves nothing in `send_recv_loop` undefined.
abbrev pub IsTame : Round → (ℕ → Bool) → Type 0
IsTame r mask =
    (fd i : ℕ) (childs : List (Option ℕ))
    → mask fd ≡ true
    → send_recv_loop (r.recv fd) (r.send i) fd i childs ≢ undefined

-- What is asked of the answers of a round: `accept` gives a descriptor below FD_SETSIZE that no client
-- has, and what the clients send leaves nothing undefined.
pub data Fits (s : Server) (r : Round) : Type 0 where
  fails : r.select ≡ failed → Fits s r
  times_out : r.select ≡ timeout → Fits s r
  serves :
      (mask : ℕ → Bool)
      → r.select ≡ ready mask
      → ((fd : ℕ) → r.accept ≡ some fd → IsNew fd s)
      → IsTame r mask
      → Fits s r

pub Served-cases :
    (a : Served)
    → (a ≡ crashed)
      ⊎ ((es : List Event) × (a ≡ served es none))
      ⊎ ((es : List Event) × (k : ℕ) × (a ≡ served es (some k)))
Served-cases crashed = inl refl
Served-cases (served es none) = inr (inl (es, refl))
Served-cases (served es (some k)) = inr (inr (es, k, refl))

and_then-crashed : (es : List Event) (a : Served) → a ≢ crashed → and_then es a ≢ crashed
and_then-crashed es crashed h e = h refl
and_then-crashed es (served rest dropped) h e = cc

serve_children-ne-crashed :
    (r : Round) (mask : ℕ → Bool) (childs : List (Option ℕ)) (i : ℕ) (rest : List (Option ℕ))
    → IsTame r mask
    → ((n fd : ℕ) → get_or rest n none ≡ some fd → fd < fd_setsize)
    → serve_children r mask childs i rest ≢ crashed
unfolding serve_children
serve_children-ne-crashed r mask childs i [] tame small e = cc
serve_children-ne-crashed r mask childs i (none ∷ rest) tame small e =
    serve_children-ne-crashed r mask childs (suc i) rest tame (λ n. small (suc n)) e
serve_children-ne-crashed r mask childs i (some fd ∷ rest) tame small e =
    elim (Bool-cases (mask fd)) [
      | inr idle ↦
          serve_children-ne-crashed r mask childs (suc i) rest tame (λ n. small (suc n))
            (ground (arith, small 0 fd refl))
      | inl on ↦ elim (Outcome-cases (send_recv_loop (r.recv fd) (r.send i) fd i childs)) [
        | inl o ↦ tame fd i childs on o
        | inr (inl (es', o)) ↦
            and_then-crashed es' (serve_children r mask childs (suc i) rest)
              (serve_children-ne-crashed r mask childs (suc i) rest tame λ n. small (suc n))
              (ground (arith, small 0 fd refl))
        | inr (inr (es', o)) ↦ ground (arith, small 0 fd refl)
      ]
    ]

select_round-IsValid :
    (soc : ℕ) (r : Round) (s : Server)
    → Fits s r
    → IsValid s
    → (es : List Event) × (s' : Server) × (select_round soc r s ≡ some (es, s')) × IsValid s'
unfolding select_round
select_round-IsValid soc r s (fails e) v =
    (child_count s.child_no ∷ select_failed ∷ [], s, rw (e, select_round), v)
select_round-IsValid soc r s (times_out e) v =
    (child_count s.child_no ∷ [], s, rw (e, select_round), v)
select_round-IsValid soc r s (serves mask e new tame) v =
    elim (Served-cases (serve_children r mask mid.1.child 0 mid.1.child)) [
      | inl c ↦
          absurd
            (serve_children-ne-crashed r mask mid.1.child 0 mid.1.child tame valid.selectable c)
      | inr (inl (es, c)) ↦ (
        child_count s.child_no ∷ (mid.0 ++ es),
        mid.1,
        rw (e, select_round) (rw (c, select_round)),
        valid,
      )
      | inr (inr (es, k, c)) ↦
          let (n, fd, q, h, g) = serve_children-InUse r mask mid.1.child 0 k mid.1.child es c in
          (
            child_count s.child_no ∷ (mid.0 ++ es),
            drop_child (some k) mid.1,
            rw (e, select_round) (rw (c, select_round)),
            drop-IsValid mid.1 valid k fd (omega (arith, h, q))
                (ap (child_at mid.1) (omega (arith, q)) ∙ g),
          )
    ]
  where
    mid : List Event × Server
    mid = accepting soc mask r s

    valid : IsValid mid.1
    valid = accepting-IsValid soc mask r s new v

-- A round whose answers fit leaves nothing undefined, and keeps the table valid.
pub round-IsValid :
    (soc : ℕ) (r : Round) (s : Server)
    → soc < fd_setsize
    → Fits s r
    → IsValid s
    → (es : List Event) × (s' : Server) × (round soc r s ≡ some (es, s')) × IsValid s'
round-IsValid soc r s lt fit v =
    let (es, s', e, v') = select_round-IsValid soc r s fit v in
    (es, s', round-select soc r s lt v ∙ e, v')

-- The rounds fit one after another, each in the state that the ones before it leave.
abbrev pub AllFit : ℕ → List Round → Server → Type 0
AllFit soc [] s = Unit
AllFit soc (r ∷ rs) s =
    Fits s r × ((es : List Event) (s' : Server) → round soc r s ≡ some (es, s') → AllFit soc rs s')

accept_loop-next :
    (soc : ℕ) (r : Round) (rs : List Round) (s s1 s' : Server) (es es' : List Event) (ended : Bool)
    → r.signalled ≡ false
    → round soc r s ≡ some (es, s1)
    → accept_loop soc rs s1 ≡ some (es', s', ended)
    → accept_loop soc (r ∷ rs) s ≡ some (es ++ es', s', ended)
unfolding accept_loop
accept_loop-next soc r rs s s1 s' es es' ended go e e' =
    rw (e, accept_loop) (rw (e', accept_loop) (rw go refl))

-- A signal that ends the loop has come before one of the rounds.
abbrev pub is_ended : List Round → Bool
is_ended [] = false
is_ended (r ∷ rs) = if r.signalled then true else is_ended rs

-- The loop runs through any number of rounds that fit with nothing undefined, its table is valid
-- afterwards, and it has ended exactly if SIGTERM or SIGHUP has come before one of them. The socket
-- that it listens on is below FD_SETSIZE.
pub accept_loop-IsValid :
    (soc : ℕ) (rs : List Round) (s : Server)
    → soc < fd_setsize
    → AllFit soc rs s
    → IsValid s
    → (es : List Event) × (s' : Server) × (accept_loop soc rs s ≡ some (es, s', is_ended rs))
      × IsValid s'
unfolding accept_loop
accept_loop-IsValid soc [] s lt fit v = ([], s, refl, v)
accept_loop-IsValid soc (r ∷ rs) s lt fit v = elim (Bool-cases r.signalled) [
  | inl stop ↦ ([], s, rw stop refl, v)
  | inr go ↦
      let (es, s1, e, v1) = round-IsValid soc r s lt fit.0 v in
      let (es', s', e', v') = accept_loop-IsValid soc rs s1 lt (fit.1 es s1 e) v1 in
      (
        es ++ es',
        s',
        accept_loop-next soc r rs s s1 s' es es' (is_ended rs) go e e'
            ∙ ap (λ b. some (es ++ es', s', if b then true else is_ended rs)) (sym go),
        v',
      )
]
