-- ===== src/Server/Program/Spec.antt =====
-- What a process that runs `main` of server/main.c comes to, and what it leaves open.
use ktrpg.Base.{
  ℕ, ◌≡◌, ◌≢◌, ◌<◌, ◌⊎◌, leb, length, get_or, refl, sym, ap, ◌∙◌, inl, inr, true, false, ◌&&◌,
  Option, none, some, List, [], ◌∷◌, ◌++◌, if◌then◌else◌, arith, Option-cases, Bool-cases,
}
use ktrpg.Server.Socket.{
  Answers, Effect, alloc_addrinfo, freeaddrinfo, opened, closed, set_nonblocking, server_socket,
  server_socket_holds, after, Held, nothing,
}
use ktrpg.Server.Loop.{Server, init, accept_loop}
use ktrpg.Server.Signals.{Signal}
use ktrpg.Server.Signals.Spec.{until_end, accept_loop-signals}
use ktrpg.Server.Daemon.{Process, Fork, failed, in_parent, in_child, exits, returns, daemonize}
use ktrpg.Server.Program.{
  World, ex_ok, ex_unavailable, Run, left, finished, running, killed, crashed, is_zero, serve_on,
  serve, main,
}

after-append : (xs ys : List Effect) (h : Held) → after h (xs ++ ys) ≡ after (after h xs) ys
after-append [] ys h = refl
after-append (alloc_addrinfo ∷ xs) ys h = after-append xs ys _
after-append (freeaddrinfo ∷ xs) ys h = after-append xs ys _
after-append (opened fd ∷ xs) ys h = after-append xs ys _
after-append (closed fd ∷ xs) ys h = after-append xs ys _
after-append (set_nonblocking fd ∷ xs) ys h = after-append xs ys h

held_ext :
    {n : ℕ} {fds : List ℕ} (h : Held)
    → h.addrinfos ≡ n
    → h.sockets ≡ fds
    → h ≡ record { addrinfos = n; sockets = fds }
held_ext {n} {fds} h e e' =
    ap (λ a. record { addrinfos = a; sockets = h.sockets }) e
    ∙ ap (λ s. record { addrinfos = n; sockets = s }) e'

-- The listening socket is closed at the end.
released :
    (effects : List Effect) (soc : ℕ)
    → (after nothing effects).addrinfos ≡ 0
    → (after nothing effects).sockets ≡ soc ∷ []
    → after nothing (effects ++ (closed soc ∷ [])) ≡ nothing
released effects soc lists sockets =
    after-append effects (closed soc ∷ []) nothing
    ∙ ap (λ h. after h (closed soc ∷ [])) (held_ext (after nothing effects) lists sockets)
    ∙ ground arith

-- What the calls of `server_socket` succeed in.
abbrev pub can_listen : Answers → Option ℕ
can_listen a =
    if a.getaddrinfo && a.getnameinfo && a.setsockopt && a.bind && a.listen then a.socket else none

-- What `main` may come to where `port` is given: a process that `daemonize` has left behind; or a return
-- that leaves no socket and no address list, with a status that tells whether it could listen, and if
-- so after a loop that an end signal has ended; or a loop that goes on after the rounds given, with
-- the listening socket open; or something undefined in one of these rounds.
abbrev pub EndsWell : World → List ℕ → Run → Type 0
EndsWell w port left = (w.fork1 ≡ in_parent) ⊎ ((w.fork1 ≡ in_child) × (w.fork2 ≢ in_child))
EndsWell w port (finished status effects events) =
    (after nothing effects ≡ nothing) × (elim (can_listen (w.answers port)) [
      | none ↦ (status ≡ ex_unavailable) × (events ≡ [])
      | some soc ↦
          (status ≡ ex_ok)
          × ((server : Server) × (accept_loop soc (until_end w.plan) init
                ≡ some (events, server, true)))
    ])
EndsWell w port (running effects events) =
    (soc : ℕ) × (can_listen (w.answers port) ≡ some soc)
    × (after nothing effects ≡ record { addrinfos = 0; sockets = soc ∷ [] })
    × ((server : Server) × (accept_loop soc (until_end w.plan) init ≡ some (events, server, false)))
EndsWell w port killed = ⊥
EndsWell w port crashed =
    (soc : ℕ) × (can_listen (w.answers port) ≡ some soc)
    × (accept_loop soc (until_end w.plan) init ≡ none)

module _ (w : World) (positive : (s : Signal) → w.number s ≢ 0) (port : List ℕ) where
  served :
      (p : Process) (effects : List Effect) (result : Option ℕ)
      → (after nothing effects).addrinfos ≡ 0
      → (after nothing effects).sockets ≡ (elim result [ none ↦ [] | some soc ↦ soc ∷ [] ])
      → result ≡ can_listen (w.answers port)
      → EndsWell w port (serve_on w p (effects, result))
  unfolding serve_on
  served p effects none lists sockets same_result =
      (held_ext (after nothing effects) lists sockets, rw (sym same_result) (refl, refl))
  served p effects (some soc) lists sockets same_result =
      let (rounds, e, same_loop) = accept_loop-signals w.number positive p.actions w.plan in
      elim (Option-cases (accept_loop soc rounds init)) [
        | inl q ↦ rw (e, q, serve_on) (soc, sym same_result, sym (same_loop soc init) ∙ q)
        | inr ((events, server, true), q) ↦
            rw (e, q, serve_on)
              (
                released effects soc lists sockets,
                rw (sym same_result) (refl, (server, sym (same_loop soc init) ∙ q)),
              )
        | inr ((events, server, false), q) ↦
            rw (e, q, serve_on)
              (
                soc,
                sym same_result,
                held_ext (after nothing effects) lists sockets,
                (server, sym (same_loop soc init) ∙ q),
              )
      ]

  serve-EndsWell : (p : Process) → EndsWell w port (serve w port p)
  serve-EndsWell p =
      let (lists, sockets, same_result) = server_socket_holds (w.answers port) in
      served p _ (server_socket (w.answers port)).1 lists sockets same_result

  daemon-EndsWell :
      (fork1 fork2 : Fork) (p : Process)
      → w.fork1 ≡ fork1
      → w.fork2 ≡ fork2
      → EndsWell w port (elim (daemonize fork1 fork2 w.devnull 1 0 p) [
        | exits status ↦ left
        | returns ok p' ↦ serve w port p'
      ])
  unfolding daemonize
  daemon-EndsWell failed fork2 p e e' = serve-EndsWell p
  daemon-EndsWell in_parent fork2 p e e' = inl e
  daemon-EndsWell in_child failed p e e' = inr (e, λ q. cc)
  daemon-EndsWell in_child in_parent p e e' = inr (e, λ q. cc)
  daemon-EndsWell in_child in_child p e e' = serve-EndsWell _

-- `main` with a port and a flag, whatever the C library and the clients do. Either it could listen on the
-- port; then, if nothing in the rounds before the first SIGTERM or SIGHUP is undefined, it serves them,
-- and where such a signal comes, it returns EX_OK and has closed the socket and freed the address
-- list, and else it is still in its loop, with the socket open and the address list freed. Or it could
-- not; then it returns EX_UNAVAILABLE with neither left. Or `daemonize` has left the process behind.
-- None of the nine signals that it handles, if it comes between rounds, ends it by its default action.
-- No signal has the number 0.
pub main-EndsWell :
    (w : World) (argv : List (List ℕ)) (p : Process)
    → ((s : Signal) → w.number s ≢ 0)
    → 2 < length argv
    → EndsWell w (get_or argv 1 []) (main w argv p)
unfolding main
main-EndsWell w argv p positive lt =
    let given : leb (length argv) 2 ≡ false = ground arith in
    elim (Bool-cases (is_zero (w.atoi (get_or argv 2 [])))) [
      | inl e ↦ rw (given, e, main) (serve-EndsWell w positive (get_or argv 1 []) p)
      | inr e ↦
          rw (given, e, main)
            (daemon-EndsWell w positive (get_or argv 1 []) w.fork1 w.fork2 p refl refl)
    ]
