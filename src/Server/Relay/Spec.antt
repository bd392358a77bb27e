-- ===== src/Server/Relay/Spec.antt =====
-- What `send_recv_loop` promises: who is sent what, and when its behaviour is undefined.
use ktrpg.Base.{
  before_nul, ℕ, suc, ◌≤◌, ◌<◌, ◌≡◌, ◌⊎◌, ◌↔◌, refl, ap, inl, inr, true, false, Option, none, some,
  List, [], ◌∷◌, map, arith, ◌==◌, if◌then◌else◌, Bool-cases, Option-cases, length,
}
use ktrpg.Server.Relay.{
  eagain, Recv, Sent, Event, received, print_format, send_to, undefined, done, buf_size,
  is_plain_from, is_plain, is_fatal, broadcast, relay, send_recv_loop, end_of_file,
}

-- The sends among the events, in order.
abbrev pub sends : List Event → List (ℕ × List ℕ)
sends [] = []
sends (send_to fd text ∷ es) = (fd, text) ∷ sends es
sends (_ ∷ es) = sends es

-- The descriptors of the clients other than number `child_no`, in the order of the table.
abbrev pub others : ℕ → ℕ → List (Option ℕ) → List ℕ
others child_no i [] = []
others child_no i (none ∷ rest) = others child_no (suc i) rest
others child_no i (some fd ∷ rest) =
    if i == child_no then others child_no (suc i) rest else fd ∷ others child_no (suc i) rest

abbrev pub with_text : List ℕ → ℕ → ℕ × List ℕ
with_text text fd = (fd, text)

sends-broadcast :
    (send : ℕ → Sent) (text : List ℕ) (child_no i : ℕ) (childs : List (Option ℕ))
    → sends (broadcast send text child_no i childs)
      ≡ map (with_text text) (others child_no i childs)
unfolding broadcast
sends-broadcast send text child_no i [] = refl
sends-broadcast send text child_no i (none ∷ rest) = sends-broadcast send text child_no (suc i) rest
sends-broadcast send text child_no i (some fd ∷ rest) = elim (Bool-cases (i == child_no)) [
  | inl own ↦ rw own (sends-broadcast send text child_no (suc i) rest)
  | inr not_own ↦ elim (Bool-cases (is_fatal (send i))) [
    | inl f ↦ ground (arith, sends-broadcast send text child_no (suc i) rest)
    | inr f ↦ ground (arith, sends-broadcast send text child_no (suc i) rest)
  ]
]

-- A message of fewer than 512 bytes, which up to its first NUL has each '%' followed by another, and
-- whose first send does not fail for good, goes to its sender and then to each other client in the
-- order of the table, cut at its first NUL; and the function returns 0.
pub send_recv_loop_relays :
    (r : Recv) (send : ℕ → Sent) (acc child_no : ℕ) (childs : List (Option ℕ)) (bytes : List ℕ)
    → r.bytes ≡ some bytes
    → 0 < length bytes
    → length bytes < buf_size
    → is_plain (before_nul bytes) ≡ true
    → is_fatal (send child_no) ≡ false
    → (es : List Event) × (send_recv_loop r send acc child_no childs ≡ done true es)
      × (sends es
          ≡ (acc, before_nul bytes) ∷ map (with_text (before_nul bytes)) (others child_no 0 childs))
unfolding send_recv_loop relay
send_recv_loop_relays r send acc child_no childs bytes e pos_len small plain fine = (
  received child_no text
      ∷ print_format text
      ∷ send_to acc text
      ∷ broadcast send text child_no 0 childs,
  ground arith,
  ap (λ l. (acc, text) ∷ l) (sends-broadcast send text child_no 0 childs),
)
  where
    text : List ℕ
    text = before_nul bytes

-- What the function does is undefined exactly when `recv` fails with EAGAIN, which makes it write at the
-- index -1, or fills the buffer, which makes it write at 512, or gives a text that, up to its first NUL,
-- has a '%' that is not one of a pair, since the text is a format of `fprintf`.
pub send_recv_loop_undefined :
    (r : Recv) (send : ℕ → Sent) (acc child_no : ℕ) (childs : List (Option ℕ))
    → (send_recv_loop r send acc child_no childs ≡ undefined) ↔ (
        (r.bytes ≡ none) × (r.errno ≡ eagain)
        ⊎ ((bytes : List ℕ) × (r.bytes ≡ some bytes)
            × ((buf_size ≤ length bytes) ⊎ (is_plain (before_nul bytes) ≡ false))))
unfolding send_recv_loop relay before_nul is_plain_from
send_recv_loop_undefined r send acc child_no childs = (to, from)
  where
    to :
        send_recv_loop r send acc child_no childs ≡ undefined
        → (r.bytes ≡ none) × (r.errno ≡ eagain)
          ⊎ ((bytes : List ℕ) × (r.bytes ≡ some bytes)
              × ((buf_size ≤ length bytes) ⊎ (is_plain (before_nul bytes) ≡ false)))
    to e = elim (Option-cases r.bytes) [
      | inl failed ↦ inl (failed, ground arith)
      | inr (bytes, got) ↦ inr (
        bytes,
        got,
        elim (Bool-cases (is_plain (before_nul bytes))) [
          | inl plain ↦ inl (ground arith)
          | inr not_plain ↦ inr not_plain
        ],
      )
    ]

    from :
        (r.bytes ≡ none) × (r.errno ≡ eagain)
          ⊎ ((bytes : List ℕ) × (r.bytes ≡ some bytes)
              × ((buf_size ≤ length bytes) ⊎ (is_plain (before_nul bytes) ≡ false)))
        → send_recv_loop r send acc child_no childs ≡ undefined
    from (inl (failed, again)) = ground arith
    from (inr (bytes, got, inl long)) = ground arith
    from (inr ([], got, inr not_plain)) = absurd (ground arith)
    from (inr (b ∷ bs, got, inr not_plain)) = ground arith

-- At the end of a client's stream `recv` leaves `errno` alone. Where an earlier call has left EAGAIN
-- there, and the sends do not fail for good, the function returns 0, so that the client stays, after
-- it has sent an empty text to every client.
pub send_recv_loop_stale_errno :
    (r : Recv) (send : ℕ → Sent) (acc child_no : ℕ) (childs : List (Option ℕ))
    → r.bytes ≡ some []
    → r.errno ≡ eagain
    → is_fatal (send child_no) ≡ false
    → (es : List Event) × (send_recv_loop r send acc child_no childs ≡ done true es)
      × (sends es ≡ (acc, []) ∷ map (with_text []) (others child_no 0 childs))
unfolding send_recv_loop relay before_nul is_plain_from
send_recv_loop_stale_errno r send acc child_no childs e again fine = (
  end_of_file
      ∷ (received child_no []
          ∷ (print_format [] ∷ (send_to acc [] ∷ broadcast send [] child_no 0 childs))),
  ground arith,
  ap (λ l. (acc, []) ∷ l) (sends-broadcast send [] child_no 0 childs),
)
