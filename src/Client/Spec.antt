-- ===== src/Client/Spec.antt =====
-- What the client of chatclient/main.c prints and sends.
use ktrpg.Base.{
  ℕ, zero, suc, ◌+◌, ◌-◌, ◌≡◌, ◌≤◌, leb, ◌==◌, refl, sym, ap, ◌∙◌, inl, inr, Bool, true, false, not,
  ◌&&◌, ◌||◌, Option, none, some, List, [], ◌∷◌, ◌++◌, set, length, replicate, codes, read_string,
  arith, if◌then◌else◌, Bool-cases, Option-cases,
}
use ktrpg.Client.{
  client_buf_size, Round, Effect, sent, printed, select_error, read_error, Ended, exited, going,
  received, if_stdin, and_then, client_loop, main,
}

-- The bytes before the first NUL.
abbrev pub text_before_nul : List ℕ → List ℕ
text_before_nul [] = []
text_before_nul (b ∷ bs) = if b == 0 then [] else b ∷ text_before_nul bs

-- A round in which the loop exits: `select` fails, or `read` does.
abbrev pub fails : Round → Bool
fails r = not r.selects || (r.sock_ready && (elim r.read [ none ↦ true | some bytes ↦ false ]))

-- What `read(sock, buf, 15)` may give.
abbrev pub within : Option (List ℕ) → Bool
within none = true
within (some bytes) = leb (length bytes) 15

abbrev pub fits : Round → Bool
fits r = within r.read

abbrev pub all_fit : List Round → Bool
all_fit [] = true
all_fit (r ∷ rs) = fits r && all_fit rs

-- What a round that goes on does.
abbrev pub does : Round → List Effect
does r =
    (if r.sock_ready
      then (elim r.read [
        | none ↦ []
        | some bytes ↦ printed (length bytes) (text_before_nul bytes) ∷ []
      ])
      else [])
    ++ if_stdin r.stdin_ready

abbrev pub why : Round → Effect
why r = if r.selects then read_error else select_error

abbrev pub expected : List Round → List Effect × Ended
expected [] = ([], going)
expected (r ∷ rs) = if fails r then (why r ∷ [], exited) else and_then (does r) (expected rs)

read_string_zeros :
    (bytes : List ℕ) (n : ℕ)
    → read_string (bytes ++ replicate (suc n) 0) ≡ some (text_before_nul bytes)
unfolding read_string
read_string_zeros [] n = refl
read_string_zeros (b ∷ bs) n = ground (arith, read_string_zeros bs n)

-- The NUL in the last byte is there already.
set-zeros : (k : ℕ) → set (replicate (suc k) 0) k 0 ≡ replicate {A = ℕ} (suc k) 0
set-zeros zero = refl
set-zeros (suc k) = ap (λ l. 0 ∷ l) (set-zeros k)

set-padded :
    (bytes : List ℕ) (k i : ℕ)
    → i ≡ length bytes + k
    → set (bytes ++ replicate (suc k) 0) i 0 ≡ bytes ++ replicate (suc k) 0
set-padded [] k i e = ap (λ n. set (replicate (suc k) 0) n 0) (omega arith) ∙ set-zeros k
set-padded (b ∷ bs) k zero e = absurd (omega arith)
set-padded (b ∷ bs) k (suc i) e = ap (λ l. b ∷ l) (set-padded bs k i (omega arith))

received_lem :
    (bytes : List ℕ)
    → length bytes ≤ 15
    → read_string (received bytes) ≡ some (text_before_nul bytes)
received_lem bytes h =
    let k = 15 - length bytes in
    let room : client_buf_size - length bytes ≡ suc k = omega arith in
    ap (λ n. read_string (set (bytes ++ replicate n 0) 15 0)) room
    ∙ ap read_string (set-padded bytes k 15 (omega arith))
    ∙ read_string_zeros bytes k

client_loop_lem :
    (rounds : List Round) → all_fit rounds ≡ true → client_loop rounds ≡ expected rounds
unfolding client_loop
client_loop_lem [] h = refl
client_loop_lem (r ∷ rs) h = elim (Bool-cases r.selects) [
  | inr s ↦ rw s refl
  | inl s ↦ elim (Bool-cases r.sock_ready) [
    | inr k ↦ rw (s, k, client_loop_lem rs (ground arith)) refl
    | inl k ↦ elim (Option-cases r.read) [
      | inl e ↦ rw (s, k, e) refl
      | inr (bytes, e) ↦
          let small : leb (length bytes) 15 ≡ true = sym (ap within e) ∙ ground (arith, h) in
          rw (s, k, e, received_lem bytes (ground arith), client_loop_lem rs (ground (arith, h)))
            refl
    ]
  ]
]

-- Where `read` gives at most the 15 bytes asked for, the client sends its greeting, and in each round
-- prints the bytes of the socket up to the first NUL and sends 16 zero bytes if the standard input can
-- be read; it never reads past `buf`. It exits in the first round in which `select` or `read` fails,
-- and so goes on at the end of the stream, where `read` gives no byte.
pub main_lem :
    (rounds : List Round)
    → all_fit rounds ≡ true
    → main true rounds ≡ and_then (sent (codes "testdayo\n") ∷ []) (expected rounds)
unfolding main
main_lem rounds h = ap (and_then (sent (codes "testdayo\n") ∷ [])) (client_loop_lem rounds h)
