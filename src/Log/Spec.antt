-- ===== src/Log/Spec.antt =====
-- What is logged: an entry given to `mylog` reaches the file through the queue, `mylogd` writes the
-- same bytes, and where `mylog` leaves its buffers.
pub mod Guard
use ktrpg.Base.{
  ℕ, zero, suc, ◌+◌, ◌-◌, ◌≤◌, ◌<◌, ◌≡◌, ◌≢◌, ◌⊎◌, ◌↔◌, refl, ap, sym, ◌∙◌, inl, inr, Bool, true,
  false, Option, none, some, List, [], ◌∷◌, ◌++◌, map, arith, ◌==◌, ltb, leb, if◌then◌else◌,
  Bool-cases, length, length-append, append_assoc, take, replicate, codes, has_nul, has_nul-append,
  has_nul-take, before_nul, before_nul_lem, read_string, read_string-padded,
}
use ktrpg.Log.{get_log_user_name, get_log_file_name, log_test}
use ktrpg.Log.Write.{
  mtext_size, log_size, Effect, lock_log, unlock_log, append, print_format, Ended, overrun,
  returned, Message, Entry, newline, writelog, effective_type, is_dropped, prefix_of, padded, mylog,
  mylogd, Arrival, arrived, receive,
}

-- The bytes that reach the files, each with the name of its file.
unfoldable pub stored : List Effect → List (List ℕ × ℕ)
stored [] = []
stored (append file bytes ∷ es) = map (λ b. (file, b)) bytes ++ stored es
stored (lock_log ∷ es) = stored es
stored (unlock_log ∷ es) = stored es
stored (print_format bytes ∷ es) = stored es

user_name-no_nul : (user : ℕ) → has_nul (get_log_user_name user) ≡ false
unfolding get_log_user_name has_nul
user_name-no_nul user = ground arith

prefix_of-no_nul : (e : Entry) → has_nul e.date ≡ false → has_nul (prefix_of e) ≡ false
unfolding prefix_of has_nul
prefix_of-no_nul e d =
    has_nul-take 127
      (codes "USER:" ++ (get_log_user_name e.user ++ (codes ",DATE:" ++ (e.date ++ codes ":"))))
      (has_nul-append (codes "USER:")
        (get_log_user_name e.user ++ (codes ",DATE:" ++ (e.date ++ codes ":"))) closed_user
        (has_nul-append (get_log_user_name e.user) (codes ",DATE:" ++ (e.date ++ codes ":"))
          (user_name-no_nul e.user)
          (has_nul-append (codes ",DATE:") (e.date ++ codes ":") closed_date
            (has_nul-append e.date (codes ":") d closed_colon))))
  where
    closed_user : has_nul (codes "USER:") ≡ false
    closed_user = refl

    closed_date : has_nul (codes ",DATE:") ≡ false
    closed_date = refl

    closed_colon : has_nul (codes ":") ≡ false
    closed_colon = refl

map-append : {A B : Type 0} (f : A → B) (xs ys : List A) → map f (xs ++ ys) ≡ map f xs ++ map f ys
map-append f [] ys = refl
map-append f (x ∷ xs) ys = ap (λ l. f x ∷ l) (map-append f xs ys)

-- The bytes that an entry puts into its file.
abbrev pub line_of : Bool → Entry → List (List ℕ × ℕ)
line_of testing e =
    map (λ b. (get_log_file_name (effective_type testing e), b)) (prefix_of e ++ (e.log ++ newline))

room : (n : ℕ) → n < mtext_size → mtext_size - n ≡ suc (mtext_size - 1 - n)
room n h = omega arith

read-padded :
    (text : List ℕ)
    → has_nul text ≡ false
    → length text < mtext_size
    → read_string (padded text) ≡ some text
read-padded text h lt =
    ap (λ n. read_string (text ++ replicate n 0)) (room (length text) lt)
    ∙ read_string-padded text (mtext_size - 1 - length text) h

-- The message that `mylog` sends for an entry.
abbrev pub message_of : Bool → Entry → Message
message_of testing e = record {
  mtype = effective_type testing e;
  mtext = padded (prefix_of e ++ e.log);
}

stored-writelog :
    (t : ℕ) (text : List ℕ)
    → stored (writelog true t text).0 ≡ map (λ b. (get_log_file_name t, b)) (text ++ newline)
unfolding stored writelog
stored-writelog t text = sym (map-append (λ b. (get_log_file_name t, b)) text newline)

-- The effects of `mylogd` where the file can be opened.
abbrev direct : Bool → Entry → List Effect
direct testing e =
    let file = get_log_file_name (effective_type testing e) in
    lock_log
    ∷ (append file (prefix_of e)
        ∷ (append file e.log
            ∷ (append file newline
                ∷ (unlock_log
                    ∷ (print_format (prefix_of e)
                        ∷ (print_format e.log ∷ (print_format newline ∷ [])))))))

stored-direct : (testing : Bool) (e : Entry) → stored (direct testing e) ≡ line_of testing e
unfolding stored
stored-direct testing e = sym (
    map-append f (prefix_of e) (e.log ++ newline)
    ∙ ap (λ l. map f (prefix_of e) ++ l) (map-append f e.log newline))
  where
    f : ℕ → List ℕ × ℕ
    f b = (get_log_file_name (effective_type testing e), b)

pub mylog-sends :
    (testing : Bool) (e : Entry)
    → is_dropped testing e ≡ false
    → length e.buffer ≤ mtext_size
    → length (prefix_of e) + length e.log < mtext_size
    → has_nul e.log ≡ false
    → mylog testing true e ≡ returned true (some (message_of testing e))
unfolding mylog
mylog-sends testing e kept format short l =
    rw (before_nul_lem e.log l) (ground (arith, length-append (prefix_of e) e.log))

mylogd-writes :
    (testing : Bool) (e : Entry)
    → is_dropped testing e ≡ false
    → length e.buffer ≤ mtext_size
    → length e.log < log_size
    → has_nul e.log ≡ false
    → mylogd testing true e ≡ returned true (direct testing e)
unfolding mylogd
mylogd-writes testing e kept format short l = rw (before_nul_lem e.log l) (ground arith)

receive-writes :
    (temp : ℕ) (m : Message) (text : List ℕ)
    → temp ≢ 0
    → read_string m.mtext ≡ some text
    → receive true (arrived temp m) ≡ returned true (writelog true m.mtype text).0
unfolding receive
receive-writes temp m text ne r = ground arith

-- An entry that is not dropped, with a format of at most 512 bytes and a line of fewer than 512
-- bytes without NULs, is sent whole if `msgsnd` succeeds; the log process that reads the message
-- writes the line to the file of the entry's type; and `mylogd` stores the same bytes, where the
-- file can be opened, before it prints the line on stderr.
pub mylog_delivers :
    (testing : Bool) (e : Entry) (temp : ℕ)
    → is_dropped testing e ≡ false
    → length e.buffer ≤ mtext_size
    → length (prefix_of e) + length e.log < mtext_size
    → has_nul e.date ≡ false
    → has_nul e.log ≡ false
    → temp ≢ 0
    → (m : Message) × (es : List Effect) × (es' : List Effect) × (mylog testing true e
        ≡ returned true (some m))
      × (receive true (arrived temp m) ≡ returned true es)
      × (mylogd testing true e ≡ returned true es')
      × (stored es ≡ line_of testing e)
      × (stored es' ≡ line_of testing e)
mylog_delivers testing e temp kept format short d l ne = (
  message_of testing e,
  (writelog true (effective_type testing e) text).0,
  direct testing e,
  mylog-sends testing e kept format short l,
  receive-writes temp (message_of testing e) text ne (
      read-padded text (has_nul-append (prefix_of e) e.log (prefix_of-no_nul e d) l)
        (omega (arith, length-append (prefix_of e) e.log))),
  mylogd-writes testing e kept format (omega arith) l,
  stored-writelog (effective_type testing e) text
      ∙ ap (map (λ b. (get_log_file_name (effective_type testing e), b)))
          (append_assoc (prefix_of e) e.log newline),
  stored-direct testing e,
)
  where
    text : List ℕ
    text = prefix_of e ++ e.log

-- `mylog` writes outside a buffer exactly when the entry is not dropped, its format has at most 512
-- bytes, and either `vsprintf` makes 4096 bytes or more (NULs among them counted), or the prefix and
-- the text before its first NUL have exactly 512 bytes together, which the test on the length lets
-- through although the NUL at the end no longer fits.
pub mylog_overrun :
    (testing sends : Bool) (e : Entry)
    → (mylog testing sends e ≡ overrun) ↔ (
        (is_dropped testing e ≡ false)
        × (length e.buffer ≤ mtext_size)
        × ((log_size ≤ length e.log)
            ⊎ (length (prefix_of e) + length (before_nul e.log) ≡ mtext_size)))
unfolding mylog
mylog_overrun testing sends e = (
  λ q. ground (arith, length-append (prefix_of e) (before_nul e.log)),
  λ h. ground (arith, length-append (prefix_of e) (before_nul e.log)),
)
