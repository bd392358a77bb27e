-- ===== src/Server/Loop/Ledger.antt =====
-- Which descriptors `accept_loop` holds: what `accept` gives is in the table until it is closed.
pub mod Rounds
use ktrpg.Base.{
  before_nul, ℕ, zero, suc, ◌+◌, ◌<◌, ◌≡◌, ◌⊎◌, refl, ap, subst, inl, inr, Bool, true, false,
  Option, none, some, List, [], ◌∷◌, ◌++◌, arith, ◌==◌, ◌&&◌, if◌then◌else◌, Bool-cases,
  Option-cases, ltb, ℤ, bit, count, count-append, count-set, find_index, find_index_sound, set,
  get_or, length,
}
use ktrpg.Server.Relay.{
  Recv, Sent, Event, child_is_full, child_no_pos, child_count, Errno, eagain, other, end_of_file,
  buf_size, is_plain, accepted, closed, Outcome, undefined, done, is_fatal, broadcast, relay,
  send_recv_loop, prefix,
}
use ktrpg.Server.Loop.{
  Server, Select, max_child_le, ready, failed, timeout, Round, is_empty, accept_child, Served,
  crashed, served, and_then, serve_children, drop_child, round, fd_setsize, accept_loop,
}
use ktrpg.Server.Loop.Invariant.{none_of_empty}
use ktrpg.Server.Loop.Invariant.Rounds.{Served-cases, Outcome-cases}

abbrev pub opens : ℕ → Event → Bool
opens fd (accepted a) = a == fd
opens fd _ = false

abbrev pub closes : ℕ → Event → Bool
closes fd (closed a) = a == fd
closes fd _ = false

abbrev pub is_fd : ℕ → Option ℕ → Bool
is_fd fd none = false
is_fd fd (some a) = a == fd

-- The descriptor `fd` is taken over and given up as often as the table says.
abbrev pub Ledger : ℕ → Server → List Event × Server → Type 0
Ledger fd s p =
    count (opens fd) p.0 + count (is_fd fd) s.child
    ≡ count (closes fd) p.0 + count (is_fd fd) p.1.child

abbrev pub Quiet : ℕ → List Event → Type 0
Quiet fd es = (count (opens fd) es ≡ 0) × (count (closes fd) es ≡ 0)

broadcast-Quiet :
    (fd : ℕ) (send : ℕ → Sent) (text : List ℕ) (child_no i : ℕ) (childs : List (Option ℕ))
    → Quiet fd (broadcast send text child_no i childs)
unfolding broadcast count
broadcast-Quiet fd send text child_no i [] = (refl, refl)
broadcast-Quiet fd send text child_no i (none ∷ rest) =
    broadcast-Quiet fd send text child_no (suc i) rest
broadcast-Quiet fd send text child_no i (some a ∷ rest) =
    let q = broadcast-Quiet fd send text child_no (suc i) rest in
    elim (Bool-cases (i == child_no)) [
      | inl own ↦ rw own q
      | inr not_own ↦ elim (Bool-cases (is_fatal (send i))) [
        | inl f ↦ rw (not_own, f) q
        | inr f ↦ rw (not_own, f) q
      ]
    ]

-- The events of an outcome are quiet.
abbrev Still : ℕ → Outcome → Type 0
Still fd undefined = Unit
Still fd (done ok es) = Quiet fd es

Still-if :
    (fd : ℕ) (b : Bool) (x y : Outcome) → Still fd x → Still fd y → Still fd (if b then x else y)
Still-if fd true x y h k = h
Still-if fd false x y h k = k

Still-prefix :
    (fd : ℕ) (es : List Event) (o : Outcome) → Quiet fd es → Still fd o → Still fd (prefix es o)
Still-prefix fd es undefined q h = tt
Still-prefix fd es (done ok rest) q h = (
  ground (arith, count-append (opens fd) es rest, q.0, h.0),
  ground (arith, count-append (closes fd) es rest, q.1, h.1),
)

relay-Still :
    (fd : ℕ) (send : ℕ → Sent) (acc child_no : ℕ) (childs : List (Option ℕ)) (bytes : List ℕ)
    → Still fd (relay send acc child_no childs bytes)
unfolding relay count
relay-Still fd send acc child_no childs bytes =
    elim (Bool-cases (ltb (length bytes) buf_size && is_plain (before_nul bytes))) [
      | inr long ↦ rw (long, relay) tt
      | inl short ↦ elim (Bool-cases (is_fatal (send child_no))) [
        | inl f ↦ rw (short, relay) (rw f (refl, refl))
        | inr f ↦
            rw (short, relay) (rw f (broadcast-Quiet fd send (before_nul bytes) child_no 0 childs))
      ]
    ]

Errno-cases : (e : Errno) → (e ≡ eagain) ⊎ (e ≡ other)
Errno-cases eagain = inl refl
Errno-cases other = inr refl

send_recv_loop-Still :
    (fd : ℕ) (r : Recv) (send : ℕ → Sent) (acc child_no : ℕ) (childs : List (Option ℕ))
    → Still fd (send_recv_loop r send acc child_no childs)
unfolding send_recv_loop count
send_recv_loop-Still fd r send acc child_no childs = elim (Option-cases r.bytes) [
  | inl b ↦ elim (Errno-cases r.errno) [
    | inl e ↦ rw (b, send_recv_loop) (rw e tt)
    | inr e ↦ rw (b, send_recv_loop) (rw e (refl, refl))
  ]
  | inr (bytes, b) ↦ elim (Bool-cases (length bytes == 0)) [
    | inr some_bytes ↦
        rw (b, send_recv_loop) (rw some_bytes (relay-Still fd send acc child_no childs bytes))
    | inl no_bytes ↦ elim (Errno-cases r.errno) [
      | inl e ↦
          rw (b, send_recv_loop)
            (rw no_bytes (
              rw e (
                Still-prefix fd (end_of_file ∷ []) (relay send acc child_no childs bytes)
                  (refl, refl) (relay-Still fd send acc child_no childs bytes))))
      | inr e ↦ rw (b, send_recv_loop) (rw no_bytes (rw e (refl, refl)))
    ]
  ]
]

-- What the loop over the clients closes is what it drops from the table.
abbrev pub Dropped : ℕ → List (Option ℕ) → ℕ → Served → Type 0
Dropped fd rest i crashed = Unit
Dropped fd rest i (served es none) = Quiet fd es
Dropped fd rest i (served es (some k)) =
    (count (opens fd) es ≡ 0)
    × ((n : ℕ) × (k ≡ i + n)
        × (n < length rest)
        × (count (closes fd) es ≡ bit (is_fd fd (get_or rest n none))))

Dropped-next :
    (fd : ℕ) (o : Option ℕ) (rest : List (Option ℕ)) (i : ℕ) (a : Served)
    → Dropped fd rest (suc i) a
    → Dropped fd (o ∷ rest) i a
Dropped-next fd o rest i crashed h = tt
Dropped-next fd o rest i (served es none) h = h
Dropped-next fd o rest i (served es (some k)) (q, (n, e, lt, c)) =
    (q, (suc n, omega arith, omega arith, c))

Dropped-after :
    (fd : ℕ) (rest : List (Option ℕ)) (i : ℕ) (es : List Event) (a : Served)
    → Quiet fd es
    → Dropped fd rest i a
    → Dropped fd rest i (and_then es a)
Dropped-after fd rest i es crashed q h = tt
Dropped-after fd rest i es (served es' none) q h = (
  ground (arith, count-append (opens fd) es es', q.0, h.0),
  ground (arith, count-append (closes fd) es es', q.1, h.1),
)
Dropped-after fd rest i es (served es' (some k)) q (z, (n, e, lt, c)) = (
  ground (arith, count-append (opens fd) es es', q.0, z),
  (n, e, lt, ground (arith, count-append (closes fd) es es', q.1, c)),
)

Dropped-here :
    (fd a : ℕ) (rest : List (Option ℕ)) (i : ℕ) (es : List Event)
    → Quiet fd es
    → Dropped fd (some a ∷ rest) i (served (es ++ (closed a ∷ [])) (some i))
unfolding count
Dropped-here fd a rest i es q = (
  ground (arith, count-append (opens fd) es (closed a ∷ []), q.0),
  (0, omega arith, omega arith, ground (arith, count-append (closes fd) es (closed a ∷ []), q.1)),
)

pub serve_children-Dropped :
    (fd : ℕ) (r : Round) (mask : ℕ → Bool) (childs : List (Option ℕ)) (i : ℕ)
    (rest : List (Option ℕ))
    → Dropped fd rest i (serve_children r mask childs i rest)
unfolding serve_children count
serve_children-Dropped fd r mask childs i [] = (refl, refl)
serve_children-Dropped fd r mask childs i (none ∷ rest) =
    Dropped-next fd none rest i _ (serve_children-Dropped fd r mask childs (suc i) rest)
serve_children-Dropped fd r mask childs i (some a ∷ rest) = elim (Bool-cases (ltb a fd_setsize)) [
  | inr large ↦ rw large tt
  | inl small ↦ elim (Bool-cases (mask a)) [
    | inr idle ↦
        rw (small, idle)
          (Dropped-next fd (some a) rest i _ (serve_children-Dropped fd r mask childs (suc i) rest))
    | inl on ↦
        let still = send_recv_loop-Still fd (r.recv a) (r.send i) a i childs in
        elim (Outcome-cases (send_recv_loop (r.recv a) (r.send i) a i childs)) [
          | inl o ↦ rw (small, on) (rw o tt)
          | inr (inl (es, o)) ↦
              rw (small, on)
                (rw o (
                  Dropped-next fd (some a) rest i
                    (and_then es (serve_children r mask childs (suc i) rest))
                    (Dropped-after fd rest (suc i) es (serve_children r mask childs (suc i) rest)
                      (subst (Still fd) o still)
                      (serve_children-Dropped fd r mask childs (suc i) rest))))
          | inr (inr (es, o)) ↦
              rw (small, on) (rw o (Dropped-here fd a rest i es (subst (Still fd) o still)))
        ]
  ]
]
