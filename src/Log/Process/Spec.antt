-- ===== src/Log/Process/Spec.antt =====
-- What reaches the files through the queue and the log process of common/log.c.
use ktrpg.Base.{
  ℕ, ◌+◌, ◌≤◌, ◌<◌, ◌≡◌, ◌≢◌, refl, ap, sym, ◌∙◌, Bool, true, false, not, some, List, [], ◌∷◌, ◌++◌,
  arith, length, length-append, append_assoc, has_nul, before_nul, before_nul_lem, map,
}
use ktrpg.Log.Write.{
  mtext_size, Effect, lock_log, unlock_log, append, print_format, returned, Message, Entry, mylog,
  prefix_of, Arrival, failed, arrived, receive, receive_all, is_dropped,
}
use ktrpg.Log.Spec.{stored, line_of, mylog_delivers}
use ktrpg.Log.Process.{read_pass, read_queue}

-- Reads of the queue that bring what `mylog` has sent for the entries, in their order; some may fail.
pub data Reads (testing : Bool) : List Arrival → List Entry → Type 0 where
  none_left : Reads testing [] []
  fails :
      {as' : List Arrival} {es : List Entry}
      → Reads testing as' es
      → Reads testing (failed ∷ as') es
  brings :
      {as' : List Arrival} {es : List Entry} (e : Entry) (temp : ℕ) (m : Message)
      → mylog testing true e ≡ returned true (some m)
      → has_nul e.date ≡ false
      → has_nul e.log ≡ false
      → temp ≢ 0
      → Reads testing as' es
      → Reads testing (arrived temp m ∷ as') (e ∷ es)

-- The same over the passes of the log process.
pub data Passes (testing : Bool) : List (List Arrival) → List Entry → Type 0 where
  none_yet : Passes testing [] []
  pass :
      {as' : List Arrival} {passes : List (List Arrival)} {es es' : List Entry}
      → Reads testing as' es
      → Passes testing passes es'
      → Passes testing (as' ∷ passes) (es ++ es')

abbrev pub lines : Bool → List Entry → List (List ℕ × ℕ)
lines testing [] = []
lines testing (e ∷ es) = line_of testing e ++ lines testing es

abbrev is_nil : List Entry → Bool
is_nil [] = true
is_nil (e ∷ es) = false

-- What the rounds store, one after the other.
abbrev pub stored_in : List (List Effect × Bool) → List (List ℕ × ℕ)
stored_in [] = []
stored_in (round ∷ rounds) = stored round.0 ++ stored_in rounds

stored-append : (es es' : List Effect) → stored (es ++ es') ≡ stored es ++ stored es'
unfolding stored
stored-append [] es' = refl
stored-append (lock_log ∷ es) es' = stored-append es es'
stored-append (unlock_log ∷ es) es' = stored-append es es'
stored-append (print_format b ∷ es) es' = stored-append es es'
stored-append (append f b ∷ es) es' =
    ap (λ l. map (λ x. (f, x)) b ++ l) (stored-append es es')
    ∙ sym (append_assoc (map (λ x. (f, x)) b) (stored es) (stored es'))

-- What `mylog` sends tells that the entry was not dropped, and that its line is short.
mylog-sent :
    (testing : Bool) (e : Entry) (m : Message)
    → mylog testing true e ≡ returned true (some m)
    → has_nul e.log ≡ false
    → (is_dropped testing e ≡ false)
      × (length e.buffer ≤ mtext_size)
      × (length (prefix_of e) + length e.log < mtext_size)
unfolding mylog
mylog-sent testing e m q l =
    ground (arith, q, before_nul_lem e.log l, length-append (prefix_of e) (before_nul e.log))

receive-sent :
    (testing : Bool) (e : Entry) (temp : ℕ) (m : Message)
    → mylog testing true e ≡ returned true (some m)
    → has_nul e.date ≡ false
    → has_nul e.log ≡ false
    → temp ≢ 0
    → (es : List Effect) × (receive true (arrived temp m) ≡ returned true es)
      × (stored es ≡ line_of testing e)
receive-sent testing e temp m q d l ne =
    let (kept, format, short) = mylog-sent testing e m q l in
    let (m', es, es', sent, got, direct, line, line') =
      mylog_delivers testing e temp kept format short d l ne in
    let same : m' ≡ m = ground (arith, sent, q) in
    (es, ap (λ x. receive true (arrived temp x)) (sym same) ∙ got, line)

receive_all-fails :
    (as' : List Arrival) (b : Bool) (es : List Effect)
    → receive_all true as' ≡ returned b es
    → receive_all true (failed ∷ as') ≡ returned b es
unfolding receive_all receive
receive_all-fails as' b es e = ground (arith, e)

receive_all-brings :
    (a : Arrival) (as' : List Arrival) (b : Bool) (now es : List Effect)
    → receive true a ≡ returned true now
    → receive_all true as' ≡ returned b es
    → receive_all true (a ∷ as') ≡ returned true (now ++ es)
unfolding receive_all
receive_all-brings a as' b now es e e' = ground (arith, e, e')

receive_all-Reads :
    (testing : Bool) {as' : List Arrival} {es : List Entry}
    → Reads testing as' es
    → (effects : List Effect) × (receive_all true as' ≡ returned (not (is_nil es)) effects)
      × (stored effects ≡ lines testing es)
unfolding receive_all stored
receive_all-Reads testing none_left = ([], refl, refl)
receive_all-Reads testing (fails r) =
    let (effects, e, s) = receive_all-Reads testing r in
    (effects, receive_all-fails _ _ effects e, s)
receive_all-Reads testing (brings e temp m q d l ne r) =
    let (effects, e', s) = receive_all-Reads testing r in
    let (now, got, line) = receive-sent testing e temp m q d l ne in
    (
      now ++ effects,
      receive_all-brings _ _ _ now effects got e',
      stored-append now effects ∙ cc (line, s),
    )

lines-append :
    (testing : Bool) (es es' : List Entry)
    → lines testing (es ++ es') ≡ lines testing es ++ lines testing es'
lines-append testing [] es' = refl
lines-append testing (e ∷ es) es' =
    ap (λ l. line_of testing e ++ l) (lines-append testing es es')
    ∙ sym (append_assoc (line_of testing e) (lines testing es) (lines testing es'))

read_queue_next :
    (as' : List Arrival) (passes : List (List Arrival)) (b : Bool) (es : List Effect)
    (rounds : List (List Effect × Bool))
    → receive_all true as' ≡ returned b es
    → read_queue true passes ≡ some rounds
    → read_queue true (as' ∷ passes) ≡ some ((es, not b) ∷ rounds)
unfolding read_queue read_pass
read_queue_next as' passes b es rounds e e' = rw (e, e', read_queue, read_pass) refl

-- Where the files can be opened, what `mylog` has handed over to the queue, its texts without NULs,
-- reaches the files whole and in its order, however the passes of the log process cut it and whatever
-- reads fail between.
pub read_queue_delivers :
    (testing : Bool) (passes : List (List Arrival)) (es : List Entry)
    → Passes testing passes es
    → (rounds : List (List Effect × Bool)) × (read_queue true passes ≡ some rounds)
      × (stored_in rounds ≡ lines testing es)
unfolding read_queue
read_queue_delivers testing _ _ none_yet = ([], refl, refl)
read_queue_delivers testing _ _ (pass {es = es} {es' = es'} r rest) =
    let (effects, e, s) = receive_all-Reads testing r in
    let (rounds, e', s') = read_queue_delivers testing _ _ rest in
    (
      (effects, not (not (is_nil es))) ∷ rounds,
      read_queue_next _ _ _ effects rounds e e',
      cc (s, s', lines-append testing es es'),
    )
