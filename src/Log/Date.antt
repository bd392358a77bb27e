-- ===== src/Log/Date.antt =====
-- `GetTimeYYYYNNDDHHMMSS` of common/log.c, and how long a text may be that `mylog` always takes. The
-- broken-down time is an argument, and so is what `sprintf` makes of `%04d` and `%02d`.
use ktrpg.Base.{
  ℕ, ◌+◌, ◌≤◌, ◌<◌, ◌≡◌, ◌≢◌, ap, ◌∙◌, Bool, true, false, some, List, ◌∷◌, ◌++◌, arith, length,
  length-append, take_all, codes, has_nul, has_nul-append,
}
use ktrpg.Log.{get_log_user_name}
use ktrpg.Log.Write.{
  mtext_size, returned, Message, Entry, Effect, is_dropped, prefix_of, mylog, arrived, receive,
}
use ktrpg.Log.Spec.{stored, line_of, mylog_delivers}

-- `struct tm`.
pub record Tm : Type 0 where
  pub tm_year : ℕ
  pub tm_mon : ℕ
  pub tm_mday : ℕ
  pub tm_hour : ℕ
  pub tm_min : ℕ
  pub tm_sec : ℕ

-- `printed w n` is what `%0wd` gives for `n`.
unfoldable pub get_time_yyyynnddhhmmss : (ℕ → ℕ → List ℕ) → Tm → List ℕ
get_time_yyyynnddhhmmss printed tm =
    printed 4 (tm.tm_year + 1900)
    ++ (codes "/"
        ++ (printed 2 (tm.tm_mon + 1)
            ++ (codes "/"
                ++ (printed 2 tm.tm_mday
                    ++ (codes " "
                        ++ (printed 2 tm.tm_hour
                            ++ (codes ":"
                                ++ (printed 2 tm.tm_min
                                    ++ (codes ":" ++ printed 2 tm.tm_sec)))))))))

-- A time before the year 10000.
pub record IsTime (tm : Tm) : Type 0 where
  pub year : tm.tm_year + 1900 < 10000
  pub mon : tm.tm_mon < 12
  pub mday : tm.tm_mday ≤ 31
  pub hour : tm.tm_hour < 24
  pub min : tm.tm_min < 60
  pub sec : tm.tm_sec ≤ 60

-- What a number that fits into the width is printed as.
pub record Prints (printed : ℕ → ℕ → List ℕ) : Type 0 where
  pub four : (n : ℕ) → n < 10000 → length (printed 4 n) ≡ 4
  pub two : (n : ℕ) → n < 100 → length (printed 2 n) ≡ 2
  pub no_nul : (w n : ℕ) → has_nul (printed w n) ≡ false

user_name-length : (user : ℕ) → length (get_log_user_name user) ≤ 10
unfolding get_log_user_name
user_name-length user = ground arith

-- Two numbers and the character between them, and so on.
length-joined :
    (a b : List ℕ) (c m n : ℕ) → length a ≡ m → length b ≡ n → length (a ++ (c ∷ b)) ≡ m + n + 1
length-joined a b c m n e e' = omega (arith, length-append a (c ∷ b))

has_nul-joined :
    (a b : List ℕ) (c : ℕ)
    → has_nul a ≡ false
    → c ≢ 0
    → has_nul b ≡ false
    → has_nul (a ++ (c ∷ b)) ≡ false
unfolding has_nul
has_nul-joined a b c p ne q = has_nul-append a (c ∷ b) p (ground arith)

module _ (printed : ℕ → ℕ → List ℕ) (tm : Tm) (prints : Prints printed) (is_time : IsTime tm) where
  length-get_time : length (get_time_yyyynnddhhmmss printed tm) ≡ 19
  unfolding get_time_yyyynnddhhmmss
  length-get_time =
      length-joined (printed 4 (tm.tm_year + 1900)) _ _ 4 14 (prints.four _ is_time.year) (
        length-joined (printed 2 (tm.tm_mon + 1)) _ _ 2 11
          (prints.two _ (omega (arith, is_time.mon)))
          (length-joined (printed 2 tm.tm_mday) _ _ 2 8 (prints.two _ (omega (arith, is_time.mday)))
            (length-joined (printed 2 tm.tm_hour) _ _ 2 5
              (prints.two _ (omega (arith, is_time.hour)))
              (length-joined (printed 2 tm.tm_min) _ _ 2 2
                (prints.two _ (omega (arith, is_time.min)))
                (prints.two _ (omega (arith, is_time.sec)))))))

  has_nul-get_time : has_nul (get_time_yyyynnddhhmmss printed tm) ≡ false
  unfolding get_time_yyyynnddhhmmss
  has_nul-get_time =
      has_nul-joined (printed 4 (tm.tm_year + 1900)) _ _ (prints.no_nul _ _) (omega arith) (
        has_nul-joined (printed 2 (tm.tm_mon + 1)) _ _ (prints.no_nul _ _) (omega arith) (
          has_nul-joined (printed 2 tm.tm_mday) _ _ (prints.no_nul _ _) (omega arith) (
            has_nul-joined (printed 2 tm.tm_hour) _ _ (prints.no_nul _ _) (omega arith) (
              has_nul-joined (printed 2 tm.tm_min) _ _ (prints.no_nul _ _) (omega arith)
                (prints.no_nul _ _)))))

-- The prefix with nothing cut off.
abbrev pub whole_prefix : Entry → List ℕ
whole_prefix e =
    codes "USER:" ++ (get_log_user_name e.user ++ (codes ",DATE:" ++ (e.date ++ codes ":")))

length-whole_prefix : (e : Entry) → length e.date ≡ 19 → length (whole_prefix e) ≤ 41
length-whole_prefix e d = omega (
  arith,
  length-append (get_log_user_name e.user) (codes ",DATE:" ++ (e.date ++ codes ":")),
  length-append e.date (codes ":"),
  user_name-length e.user,
)

prefix_of-whole : (e : Entry) → length e.date ≡ 19 → prefix_of e ≡ whole_prefix e
unfolding prefix_of
prefix_of-whole e d = take_all 127 (whole_prefix e) (omega (arith, length-whole_prefix e d))

-- `mylog` takes every text of at most 470 bytes without NULs, at any time before the year 10000, if its
-- entry is not dropped, its format has at most 512 bytes and `msgsnd` succeeds; the log process
-- then writes the whole line, whose prefix is not cut. `%04d` and `%02d` print numbers that fit into
-- as many digits, and no NUL.
pub mylog_takes :
    (printed : ℕ → ℕ → List ℕ) (tm : Tm) (testing : Bool) (e : Entry) (temp : ℕ)
    → Prints printed
    → IsTime tm
    → e.date ≡ get_time_yyyynnddhhmmss printed tm
    → is_dropped testing e ≡ false
    → length e.buffer ≤ mtext_size
    → length e.log ≤ 470
    → has_nul e.log ≡ false
    → temp ≢ 0
    → (m : Message) × (es : List Effect) × (mylog testing true e ≡ returned true (some m))
      × (receive true (arrived temp m) ≡ returned true es)
      × (stored es ≡ line_of testing e)
      × (prefix_of e ≡ whole_prefix e)
mylog_takes printed tm testing e temp prints is_time date kept format short plain ne =
    let d : length e.date ≡ 19 = ap length date ∙ length-get_time printed tm prints is_time in
    let whole = prefix_of-whole e d in
    let fits : length (prefix_of e) ≤ 41 = rw whole (length-whole_prefix e d) in
    let (m, es, es', sent, got, direct, queued, same_lines) =
      mylog_delivers testing e temp kept format (omega arith)
        (ap has_nul date ∙ has_nul-get_time printed tm prints is_time) plain ne in
    (m, es, sent, got, queued, whole)
