-- ===== src/Server/Relay.antt =====
-- `send_recv_loop` of server/server.c: what one client sends goes to all. Bytes are numbers.
pub mod Spec
use ktrpg.Base.{
  before_nul, ℕ, zero, suc, Bool, true, false, not, ◌&&◌, ◌||◌, Option, none, some, List, [], ◌∷◌,
  ◌++◌, ◌==◌, ltb, if◌then◌else◌, length, ℤ,
}

abbrev pub buf_size : ℕ
buf_size = 512

pub data Errno : Type 0 where
  eagain other : Errno

-- What `recv` gives: -1, or the bytes received, none of them at the end of the stream; and `errno`
-- afterwards, which a call that succeeds leaves as some earlier call set it.
pub record Recv : Type 0 where
  pub bytes : Option (List ℕ)
  pub errno : Errno

-- What `send` gives: `none`, or the `errno` of a -1.
abbrev pub Sent : Type 0
Sent = Option Errno

pub data Event : Type 0 where
  recv_failed : Event
  end_of_file : Event
  received : (child_no : ℕ) → List ℕ → Event
  print_format : List ℕ → Event
  send_to : (fd : ℕ) → List ℕ → Event
  send_failed : Event
  accept_failed select_failed : Event
  accepted : ℕ → Event
  child_is_full child_no_pos : Event
  child_count : ℤ → Event
  closed : ℕ → Event

-- How the function ends: it has done what C leaves undefined, a write outside `buf` or an `fprintf`
-- without the arguments that its format asks for; or it returns 0 (`true`) or -1.
pub data Outcome : Type 0 where
  undefined : Outcome
  done : Bool → List Event → Outcome

-- What `fprintf` takes as a format with no arguments: each '%' is followed by another. `second` tells that
-- the byte before was the first of such a pair. C leaves every other conversion undefined here.
unfoldable pub is_plain_from : (second : Bool) → List ℕ → Bool
is_plain_from second [] = not second
is_plain_from second (b ∷ bs) =
    let rest = is_plain_from (not second && (b == 37)) bs in (not second || (b == 37)) && rest

abbrev pub is_plain : List ℕ → Bool
is_plain = is_plain_from false

abbrev pub is_fatal : Sent → Bool
is_fatal none = false
is_fatal (some eagain) = false
is_fatal (some other) = true

-- The loop over the other clients; `send i` answers the send to entry number `i`.
unfoldable pub broadcast : (ℕ → Sent) → List ℕ → ℕ → ℕ → List (Option ℕ) → List Event
broadcast send text child_no i [] = []
broadcast send text child_no i (none ∷ rest) = broadcast send text child_no (suc i) rest
broadcast send text child_no i (some fd ∷ rest) =
    let after = broadcast send text child_no (suc i) rest in
    if i == child_no
    then after
    else send_to fd text ∷ (if is_fatal (send i) then send_failed ∷ after else after)

-- From `buf[len] = '\0'` on, with `len` bytes received. The text ends at the first NUL, and is itself a
-- format of `fprintf`.
unfoldable pub relay : (ℕ → Sent) → ℕ → ℕ → List (Option ℕ) → List ℕ → Outcome
relay send acc child_no childs bytes =
    if ltb (length bytes) buf_size && is_plain (before_nul bytes)
    then (let text = before_nul bytes in
        let said = received child_no text ∷ print_format text ∷ send_to acc text ∷ [] in
        if is_fatal (send child_no)
        then done false (said ++ (send_failed ∷ []))
        else done true (said ++ broadcast send text child_no 0 childs))
    else undefined

abbrev pub prefix : List Event → Outcome → Outcome
prefix es undefined = undefined
prefix es (done ok rest) = done ok (es ++ rest)

-- With -1 and EAGAIN the function goes on to `buf[-1] = '\0'`.
unfoldable pub send_recv_loop : Recv → (ℕ → Sent) → ℕ → ℕ → List (Option ℕ) → Outcome
send_recv_loop r send acc child_no childs = elim r.bytes [
  | none ↦ elim r.errno [ other ↦ done false (recv_failed ∷ []) | eagain ↦ undefined ]
  | some bytes ↦
      if length bytes == 0
      then elim r.errno [
        | other ↦ done false (end_of_file ∷ [])
        | eagain ↦ prefix (end_of_file ∷ []) (relay send acc child_no childs bytes)
      ]
      else relay send acc child_no childs bytes
]
