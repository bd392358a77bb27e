-- ===== src/Server/Loop.antt =====
-- `accept_loop` of server/server.c. What `select`, `accept`, `recv` and `send` give in a round of the
-- loop is an argument; an entry -1 of `child` is `none`.
pub mod Invariant
pub mod Width
pub mod Ledger
use ktrpg.Base.{
  ℕ, zero, suc, ◌+◌, Bool, true, false, ◌&&◌, not, Option, none, some, List, [], ◌∷◌, ◌++◌, ltb,
  leb, if◌then◌else◌, find_index, set, replicate, ℤ, pos, increment, decrement,
}
use ktrpg.Server.Relay.{
  Recv, Sent, Event, accept_failed, select_failed, accepted, child_is_full, child_no_pos,
  child_count, closed, Outcome, undefined, done, send_recv_loop,
}

abbrev pub max_child : ℕ
max_child = 1024

-- The locals that live from round to round.
pub record Server : Type 0 where
  pub child : List (Option ℕ)
  pub child_no : ℤ

-- `select` fails, times out, or leaves the descriptors that are ready in `mask`.
pub data Select : Type 0 where
  failed timeout : Select
  ready : (ℕ → Bool) → Select

pub record Round : Type 0 where
  pub signalled : Bool
  pub select : Select
  pub accept : Option ℕ
  pub recv : ℕ → Recv
  pub send : ℕ → ℕ → Sent

-- FD_SETSIZE of the C library: FD_SET and FD_ISSET of a descriptor that is not below it are undefined.
abbrev pub fd_setsize : ℕ
fd_setsize = 1024

abbrev pub is_selectable : Option ℕ → Bool
is_selectable none = true
is_selectable (some fd) = ltb fd fd_setsize

-- The FD_SETs before `select` stay inside the mask.
unfoldable pub all_selectable : List (Option ℕ) → Bool
all_selectable [] = true
all_selectable (o ∷ rest) = let others = all_selectable rest in is_selectable o && others

abbrev pub init : Server
init = record { child = replicate max_child none; child_no = pos 0 }

abbrev pub is_empty : Option ℕ → Bool
is_empty none = true
is_empty (some fd) = false

abbrev pub max_child_le : ℤ → Bool
max_child_le (pos n) = leb max_child (n + 1)
max_child_le _ = false

-- The branch for a readable listening socket.
unfoldable pub accept_child : Option ℕ → Server → List Event × Server
accept_child none s = (accept_failed ∷ [], s)
accept_child (some acc) s = elim (find_index is_empty s.child) [
  | none ↦ (
    accepted acc
        ∷ ((if max_child_le s.child_no then child_is_full else child_no_pos) ∷ closed acc ∷ []),
    s,
  )
  | some place ↦ (
    accepted acc ∷ [],
    record { child = set s.child place (some acc); child_no = increment s.child_no },
  )
]

-- How the loop over the clients ends: with undefined behaviour, or events and the number of the
-- client that was dropped, which ends the loop.
pub data Served : Type 0 where
  crashed : Served
  served : List Event → Option ℕ → Served

abbrev pub and_then : List Event → Served → Served
and_then es crashed = crashed
and_then es (served rest dropped) = served (es ++ rest) dropped

-- The loop from entry number `i` on; `childs` is the whole table, which no earlier entry has changed.
-- A client that has just been accepted can be too large for FD_ISSET.
unfoldable pub serve_children : Round → (ℕ → Bool) → List (Option ℕ) → ℕ → List (Option ℕ) → Served
serve_children r mask childs i [] = served [] none
serve_children r mask childs i (none ∷ rest) = serve_children r mask childs (suc i) rest
serve_children r mask childs i (some fd ∷ rest) =
    let after = serve_children r mask childs (suc i) rest in
    if ltb fd fd_setsize
    then (if mask fd
        then elim (send_recv_loop (r.recv fd) (r.send i) fd i childs) [
          | undefined ↦ crashed
          | done true es ↦ and_then es after
          | done false es ↦ served (es ++ (closed fd ∷ [])) (some i)
        ]
        else after)
    else crashed

abbrev pub drop_child : Option ℕ → Server → Server
drop_child none s = s
drop_child (some i) s = record { child = set s.child i none; child_no = decrement s.child_no }

-- What a round does from `select` on; `none` if its behaviour is undefined.
unfoldable pub select_round : ℕ → Round → Server → Option (List Event × Server)
select_round soc r s = elim r.select [
  | failed ↦ some (child_count s.child_no ∷ select_failed ∷ [], s)
  | timeout ↦ some (child_count s.child_no ∷ [], s)
  | ready mask ↦
      let (es, s') = if mask soc then accept_child r.accept s else ([], s) in
      elim (serve_children r mask s'.child 0 s'.child) [
        | crashed ↦ none
        | served es' dropped ↦ some (child_count s.child_no ∷ (es ++ es'), drop_child dropped s')
      ]
]

-- A round of the loop, with the FD_SETs before `select`.
unfoldable pub round : ℕ → Round → Server → Option (List Event × Server)
round soc r s = if ltb soc fd_setsize && all_selectable s.child then select_round soc r s else none

-- The loop over the rounds given. At the end stands whether it has ended, as it does where SIGTERM or
-- SIGHUP has come, or goes on after them; `none` if the behaviour of a round is undefined.
unfoldable pub accept_loop : ℕ → List Round → Server → Option (List Event × Server × Bool)
accept_loop soc [] s = some ([], s, false)
accept_loop soc (r ∷ rs) s = if r.signalled then some ([], s, true) else elim (round soc r s) [
  | none ↦ none
  | some (es, s') ↦ elim (accept_loop soc rs s') [
    | none ↦ none
    | some (es', s'', ended) ↦ some (es ++ es', s'', ended)
  ]
]

-- `width`, the first argument of `select`, as the loop before it computes it.
unfoldable pub select_width : ℕ → List (Option ℕ) → ℕ
select_width width [] = width
select_width width (none ∷ rest) = select_width width rest
select_width width (some fd ∷ rest) =
    select_width (if ltb width (fd + 1) then fd + 1 else width) rest
