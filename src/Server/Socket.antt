-- ===== src/Server/Socket.antt =====
-- `server_socket` of server/server.c. What the C library answers is an argument; what is acquired
-- and given back is in the trace.
use ktrpg.Base.{
  ℕ, suc, ◌-◌, ◌==◌, ◌&&◌, Bool, ◌≡◌, inl, inr, Option, none, some, List, [], ◌∷◌, arith,
  if◌then◌else◌, Option-cases,
}

-- The answers: whether each call succeeds, and the descriptor that `socket` gives.
pub record Answers : Type 0 where
  pub getaddrinfo : Bool
  pub getnameinfo : Bool
  pub socket : Option ℕ
  pub setsockopt : Bool
  pub bind : Bool
  pub listen : Bool

pub data Effect : Type 0 where
  alloc_addrinfo freeaddrinfo : Effect
  opened : ℕ → Effect
  closed : ℕ → Effect
  set_nonblocking : ℕ → Effect

-- The calls on the socket, each with its error path. The result is -1 for `none`.
unfoldable pub with_socket : Answers → ℕ → List Effect × Option ℕ
with_socket a soc =
    let failed : List Effect × Option ℕ = (closed soc ∷ freeaddrinfo ∷ [], none) in
    if a.setsockopt
    then (if a.bind
        then (if a.listen
            then (set_nonblocking soc ∷ freeaddrinfo ∷ [], some soc)
            else (set_nonblocking soc ∷ closed soc ∷ freeaddrinfo ∷ [], none))
        else failed)
    else failed

unfoldable pub server_socket : Answers → List Effect × Option ℕ
unfolding with_socket
server_socket a =
    if a.getaddrinfo
    then (if a.getnameinfo
        then elim a.socket [
          | none ↦ (alloc_addrinfo ∷ freeaddrinfo ∷ [], none)
          | some soc ↦
              let (effects, result) = with_socket a soc in
              (alloc_addrinfo ∷ opened soc ∷ effects, result)
        ]
        else (alloc_addrinfo ∷ freeaddrinfo ∷ [], none))
    else ([], none)

-- What is held after the effects: the address lists not freed, and the descriptors not closed.
pub record Held : Type 0 where
  pub addrinfos : ℕ
  pub sockets : List ℕ

abbrev remove : ℕ → List ℕ → List ℕ
remove fd [] = []
remove fd (x ∷ xs) = if x == fd then remove fd xs else x ∷ remove fd xs

abbrev pub after : Held → List Effect → Held
after h [] = h
after h (alloc_addrinfo ∷ es) = after (record h { addrinfos = suc h.addrinfos }) es
after h (freeaddrinfo ∷ es) = after (record h { addrinfos = h.addrinfos - 1 }) es
after h (opened fd ∷ es) = after (record h { sockets = fd ∷ h.sockets }) es
after h (closed fd ∷ es) = after (record h { sockets = remove fd h.sockets }) es
after h (set_nonblocking fd ∷ es) = after h es

abbrev pub nothing : Held
nothing = record { addrinfos = 0; sockets = [] }

-- On every path the address list is freed, and a socket is left open exactly when it is returned,
-- which happens exactly when every call succeeds.
pub server_socket_holds :
    (a : Answers)
    → let (effects, result) = server_socket a in
      ((after nothing effects).addrinfos ≡ 0)
      × ((after nothing effects).sockets ≡ (elim result [ none ↦ [] | some soc ↦ soc ∷ [] ]))
      × (result ≡ (
          if a.getaddrinfo && a.getnameinfo && a.setsockopt && a.bind && a.listen
          then a.socket
          else none))
unfolding server_socket with_socket
server_socket_holds a = elim (Option-cases a.socket) [
  | inl none_left ↦ (ground arith, ground arith, ground arith)
  | inr (soc, got) ↦ (ground arith, ground arith, ground arith)
]
