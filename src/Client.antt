-- ===== src/Client.antt =====
-- `main` of chatclient/main.c. What `socket`, `select` and `read` give is an argument.
pub mod Spec
use ktrpg.Base.{
  ℕ, ◌+◌, ◌-◌, Bool, true, false, Option, none, some, List, [], ◌∷◌, ◌++◌, set, length, replicate,
  codes, read_string, if◌then◌else◌,
}

abbrev pub client_buf_size : ℕ
client_buf_size = 16

-- `select` fails, or tells of the socket and of the standard input whether they can be read; `read` fails
-- or gives bytes.
pub record Round : Type 0 where
  pub selects : Bool
  pub sock_ready : Bool
  pub stdin_ready : Bool
  pub read : Option (List ℕ)

pub data Effect : Type 0 where
  sent : List ℕ → Effect
  printed : (n : ℕ) → List ℕ → Effect
  select_error read_error : Effect

-- The loop has exited, goes on after the rounds given, or has read past `buf`.
pub data Ended : Type 0 where
  exited going overrun : Ended

-- `buf` after `memset`, `read` and the NUL in its last byte, where `read` gives at most 15 bytes.
abbrev pub received : List ℕ → List ℕ
received bytes = set (bytes ++ replicate (client_buf_size - length bytes) 0) 15 0

abbrev pub if_stdin : Bool → List Effect
if_stdin ready = if ready then sent (replicate client_buf_size 0) ∷ [] else []

abbrev pub and_then : List Effect → List Effect × Ended → List Effect × Ended
and_then es (rest, ended) = (es ++ rest, ended)

unfoldable pub client_loop : List Round → List Effect × Ended
client_loop [] = ([], going)
client_loop (r ∷ rs) =
    let rest = client_loop rs in
    if r.selects
    then (if r.sock_ready
        then elim r.read [
          | none ↦ (read_error ∷ [], exited)
          | some bytes ↦ elim (read_string (received bytes)) [
            | none ↦ ([], overrun)
            | some text ↦ and_then (printed (length bytes) text ∷ if_stdin r.stdin_ready) rest
          ]
        ]
        else and_then (if_stdin r.stdin_ready) rest)
    else (select_error ∷ [], exited)

-- `main` exits with 1 where there is no socket.
unfoldable pub main : Bool → List Round → List Effect × Ended
main false rounds = ([], exited)
main true rounds = and_then (sent (codes "testdayo\n") ∷ []) (client_loop rounds)
