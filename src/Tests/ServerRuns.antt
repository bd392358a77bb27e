-- ===== src/Tests/ServerRuns.antt =====
-- server/server.c on small inputs.
use ktrpg.Base.{
  before_nul, pos, ℕ, zero, suc, ◌≡◌, ◌≢◌, ◌⊎◌, ◌↔◌, ◌<◌, ◌≤◌, inl, inr, refl, true, false, Option,
  none, some, List, [], ◌∷◌, map, arith, ◌==◌, get_or, length,
}
use ktrpg.Server.Strlcat.{mystrlcat}
use ktrpg.Server.Strlcat.Spec.{mystrlcat_appends, catenated}
use ktrpg.Server.Socket.{Answers, server_socket, after, nothing, server_socket_holds}
use ktrpg.Server.Relay.{
  child_count, end_of_file, Recv, Event, eagain, other, done, undefined, send_recv_loop, buf_size,
  is_plain, is_plain_from, closed,
}
use ktrpg.Server.Relay.Spec.{
  sends, others, with_text, send_recv_loop_relays, send_recv_loop_undefined,
  send_recv_loop_stale_errno,
}
use ktrpg.Server.Loop.{
  serve_children, Server, Round, ready, init, max_child, round, select_round, all_selectable,
  accept_loop,
}
use ktrpg.Server.Loop.Invariant.{IsValid, init-IsValid, get_or-none}
use ktrpg.Server.Loop.Invariant.Rounds.{IsTame, Fits, serves, accept_loop-IsValid}
use ktrpg.Server.Loop.Ledger.{Ledger}
use ktrpg.Server.Loop.Ledger.Rounds.{accept_loop-Ledger}

-- "AB" in an object of five bytes.
abbrev object : List ℕ
object = 65 ∷ (66 ∷ (0 ∷ (7 ∷ (7 ∷ []))))

abbrev text : List ℕ
text = 67 ∷ (68 ∷ (69 ∷ []))

two_bytes : (i : ℕ) → i < 2 → get_or object i 0 ≢ 0
two_bytes zero h e = omega arith
two_bytes (suc zero) h e = omega arith
two_bytes (suc (suc i)) h e = absurd (omega arith)

mystrlcat_appends_example :
    (result : List ℕ) × (mystrlcat object text 4 ≡ some (result, 5))
    × (length result ≡ 5)
    × ((i : ℕ) → get_or result i 0 ≡ catenated object text 4 2 i)
mystrlcat_appends_example =
    mystrlcat_appends object text 4 2 (omega arith, refl, two_bytes) (omega arith) (omega arith)

-- `bind` fails.
abbrev pub no_bind : Answers
no_bind = record {
  getaddrinfo = true;
  getnameinfo = true;
  socket = some 3;
  setsockopt = true;
  bind = false;
  listen = true;
}

server_socket_holds_example :
    let (effects, result) = server_socket no_bind in
    ((after nothing effects).addrinfos ≡ 0)
    × ((after nothing effects).sockets ≡ (elim result [ none ↦ [] | some soc ↦ soc ∷ [] ]))
    × (result ≡ none)
server_socket_holds_example = server_socket_holds no_bind

abbrev hello : Recv
hello = record { bytes = some (72 ∷ (73 ∷ [])); errno = other }

abbrev clients : List (Option ℕ)
clients = some 4 ∷ (none ∷ (some 6 ∷ []))

send_recv_loop_relays_example :
    (es : List Event) × (send_recv_loop hello (λ i. none) 4 0 clients ≡ done true es)
    × (sends es
        ≡ (4, before_nul (72 ∷ (73 ∷ [])))
          ∷ map (with_text (before_nul (72 ∷ (73 ∷ [])))) (others 0 0 clients))
unfolding before_nul is_plain_from
send_recv_loop_relays_example =
    send_recv_loop_relays hello (λ i. none) 4 0 clients (72 ∷ (73 ∷ [])) refl (omega arith)
      (omega arith) refl refl

-- "%n" asks for an argument.
abbrev percent : Recv
percent = record { bytes = some (37 ∷ (110 ∷ [])); errno = other }

send_recv_loop_undefined_example : (send_recv_loop percent (λ i. none) 4 0 clients ≡ undefined) ↔ (
    (percent.bytes ≡ none) × (percent.errno ≡ eagain)
    ⊎ ((bytes : List ℕ) × (percent.bytes ≡ some bytes)
        × ((buf_size ≤ length bytes) ⊎ (is_plain (before_nul bytes) ≡ false))))
send_recv_loop_undefined_example = send_recv_loop_undefined percent (λ i. none) 4 0 clients

abbrev at_end : Recv
at_end = record { bytes = some []; errno = eagain }

send_recv_loop_stale_errno_example :
    (es : List Event) × (send_recv_loop at_end (λ i. none) 4 0 clients ≡ done true es)
    × (sends es ≡ (4, []) ∷ map (with_text []) (others 0 0 clients))
send_recv_loop_stale_errno_example =
    send_recv_loop_stale_errno at_end (λ i. none) 4 0 clients refl refl refl

-- Socket 3 listens, and a client comes in as 4.
abbrev pub comes : Round
comes = record {
  signalled = false;
  select = ready (λ fd. fd == 3);
  accept = some 4;
  recv = λ fd. hello;
  send = λ i j. none;
}

comes-IsTame : IsTame comes (λ fd. fd == 3)
unfolding before_nul is_plain_from
comes-IsTame fd i childs on e =
    elim ((send_recv_loop_undefined hello (comes.send i) fd i childs).0 e) [
      | inl (failed, again) ↦ ground arith
      | inr (bytes, got, inl long) ↦ ground arith
      | inr (bytes, got, inr not_plain) ↦ ground arith
    ]

comes-Fits : Fits init comes
comes-Fits =
    serves (λ fd. fd == 3) refl
      (λ fd e. (ground arith, λ i p. ground (arith, get_or-none max_child i))) comes-IsTame

accept_loop-IsValid_example :
    (es : List Event) × (s' : Server) × (accept_loop 3 (comes ∷ []) init ≡ some (es, s', false))
    × IsValid s'
accept_loop-IsValid_example =
    accept_loop-IsValid 3 (comes ∷ []) init (omega arith) (comes-Fits, λ es s' e. tt) init-IsValid

-- A second round: client 4 is ready and has closed its end.
abbrev leaves : Round
leaves = record {
  signalled = false;
  select = ready (λ fd. fd == 4);
  accept = none;
  recv = λ fd. record { bytes = some []; errno = other };
  send = λ i j. none;
}

-- A table of two entries, the first of client 4.
abbrev two_places : Server
two_places = record { child = some 4 ∷ (none ∷ []); child_no = pos 1 }

accept_loop-Ledger_example : Ledger 4 two_places (
  child_count (pos 1) ∷ (end_of_file ∷ (closed 4 ∷ [])),
  record { child = none ∷ (none ∷ []); child_no = pos 0 },
)
unfolding accept_loop round select_round all_selectable serve_children send_recv_loop
accept_loop-Ledger_example =
    accept_loop-Ledger 4 3 (leaves ∷ []) two_places
      (record { child = none ∷ (none ∷ []); child_no = pos 0 })
      (child_count (pos 1) ∷ (end_of_file ∷ (closed 4 ∷ []))) false refl
