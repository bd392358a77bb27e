-- ===== src/Tests/LogRuns.antt =====
-- common/log.c on a short entry.
use ktrpg.Base.{
  ℕ, zero, suc, ◌/◌, ◌%◌, length-append, has_nul-append, ◌+◌, ◌≡◌, ◌⊎◌, ◌↔◌, ◌≤◌, refl, true, false,
  some, List, [], ◌∷◌, ◌++◌, arith, length, codes, has_nul, before_nul,
}
use ktrpg.Log.{get_log_user_name}
use ktrpg.Log.{get_log_file_name}
use ktrpg.Base.{replicate, ◌++◌, read_string}
use ktrpg.Log.Write.{
  failed, arrived, receive, receive_all, writelog, Message, Effect, lock_log, unlock_log, returned,
  overrun, Message, Entry, mylog, mylogd, prefix_of, mtext_size, log_size, is_dropped, arrived,
  receive,
}
use ktrpg.Base.{Bool, pos, negsuc}
use ktrpg.Log.Write.{Arrival}
use ktrpg.Log.Process.{
  initlog, set_up, serves, returns, perror, mutex_made, queue_printed, read_queue,
}
use ktrpg.Log.Process.Spec.{
  Passes, none_left, fails, brings, none_yet, pass, lines, stored_in, read_queue_delivers,
}
use ktrpg.Log.Spec.{message_of, mylog-sends, stored, line_of, mylog_delivers, mylog_overrun}
use ktrpg.Log.Date.{Tm, IsTime, Prints, get_time_yyyynnddhhmmss, whole_prefix, mylog_takes}
use ktrpg.Log.Spec.Guard.{guarded, writes_guarded}

abbrev entry : Entry
entry = record {
  user = 1;
  log_type = 1;
  buffer = codes "up";
  log = codes "up";
  date = codes "2020/01/02 03:04:05";
}

mylog_delivers_example :
    (m : Message) × (es : List Effect) × (es' : List Effect) × (mylog false true entry
      ≡ returned true (some m))
    × (receive true (arrived 512 m) ≡ returned true es)
    × (mylogd false true entry ≡ returned true es')
    × (stored es ≡ line_of false entry)
    × (stored es' ≡ line_of false entry)
unfolding prefix_of get_log_user_name has_nul
mylog_delivers_example =
    mylog_delivers false entry 512 refl (omega arith) (omega arith) refl refl (λ e. omega arith)

mylog_overrun_example : (mylog false true entry ≡ overrun) ↔ (
    (is_dropped false entry ≡ false)
    × (length entry.buffer ≤ mtext_size)
    × ((log_size ≤ length entry.log)
        ⊎ (length (prefix_of entry) + length (before_nul entry.log) ≡ mtext_size)))
mylog_overrun_example = mylog_overrun false true entry

abbrev message : Message
message = record { mtype = 1; mtext = codes "up" ++ replicate 3 0 }

-- `fopen` fails in `mylogd`, and in the log process.
abbrev unwritten : List Effect
unwritten = lock_log ∷ (unlock_log ∷ [])

writes_guarded_example :
    (guarded false unwritten ≡ some false) × (guarded false unwritten ≡ some false)
unfolding mylogd receive_all receive read_string writelog get_log_file_name
writes_guarded_example =
    writes_guarded false false entry (failed ∷ (arrived 512 message ∷ [])) false true unwritten
      unwritten refl refl

-- `fork` fails: the caller itself goes into the loop.
initlog_no_fork :
    initlog (negsuc 0) true (negsuc 0) (pos 3)
    ≡ serves (perror (codes "log:msgget") ∷ (mutex_made ∷ [])) (pos 3)
unfolding initlog set_up
initlog_no_fork = refl

initlog_parent :
    initlog (pos 3) true (pos 40) (pos 3)
    ≡ returns
        (mutex_made ∷ (queue_printed (pos 3) ∷ []))
        (record { log_pid = pos 40; log_msgqid = pos 3 })
unfolding initlog set_up
initlog_parent = refl

-- Two entries over three passes; one read fails, and one pass brings nothing.
abbrev attack : Entry
attack = record entry { log_type = 5 }

entry_sent : mylog false true entry ≡ returned true (some (message_of false entry))
unfolding prefix_of get_log_user_name has_nul
entry_sent = mylog-sends false entry refl (omega arith) (omega arith) refl

attack_sent : mylog false true attack ≡ returned true (some (message_of false attack))
unfolding prefix_of get_log_user_name has_nul
attack_sent = mylog-sends false attack refl (omega arith) (omega arith) refl

abbrev three_passes : List (List Arrival)
three_passes =
    (failed ∷ (arrived 512 (message_of false entry) ∷ []))
    ∷ ((failed ∷ []) ∷ ((arrived 512 (message_of false attack) ∷ []) ∷ []))

three-Passes : Passes false three_passes (entry ∷ (attack ∷ []))
unfolding has_nul
three-Passes = pass (fails (brings entry 512 _ entry_sent refl refl (λ e. omega arith) none_left)) (
    pass (fails none_left)
      (pass (brings attack 512 _ attack_sent refl refl (λ e. omega arith) none_left) none_yet))

read_queue_delivers_example :
    (rounds : List (List Effect × Bool)) × (read_queue true three_passes ≡ some rounds)
    × (stored_in rounds ≡ lines false (entry ∷ (attack ∷ [])))
read_queue_delivers_example =
    read_queue_delivers false three_passes (entry ∷ (attack ∷ [])) three-Passes

-- The last `w` decimal digits.
abbrev digits : ℕ → ℕ → List ℕ
digits zero n = []
digits (suc w) n = digits w (n / 10) ++ ((48 + n % 10) ∷ [])

length-digits : (w n : ℕ) → length (digits w n) ≡ w
length-digits zero n = refl
length-digits (suc w) n =
    omega (arith, length-append (digits w (n / 10)) ((48 + n % 10) ∷ []), length-digits w (n / 10))

has_nul-digits : (w n : ℕ) → has_nul (digits w n) ≡ false
unfolding has_nul
has_nul-digits zero n = refl
has_nul-digits (suc w) n =
    has_nul-append (digits w (n / 10)) ((48 + n % 10) ∷ []) (has_nul-digits w (n / 10))
      (ground arith)

digits-Prints : Prints digits
digits-Prints = record {
  four = λ n h. length-digits 4 n;
  two = λ n h. length-digits 2 n;
  no_nul = has_nul-digits;
}

-- Two past three on the second of January.
abbrev morning : Tm
morning = record { tm_year = 120; tm_mon = 0; tm_mday = 2; tm_hour = 3; tm_min = 2; tm_sec = 0 }

morning-IsTime : IsTime morning
morning-IsTime = record {
  year = omega arith;
  mon = omega arith;
  mday = omega arith;
  hour = omega arith;
  min = omega arith;
  sec = omega arith;
}

abbrev dated : Entry
dated = record entry { date = get_time_yyyynnddhhmmss digits morning }

mylog_takes_example :
    (m : Message) × (es : List Effect) × (mylog false true dated ≡ returned true (some m))
    × (receive true (arrived 512 m) ≡ returned true es)
    × (stored es ≡ line_of false dated)
    × (prefix_of dated ≡ whole_prefix dated)
unfolding has_nul
mylog_takes_example =
    mylog_takes digits morning false dated 512 digits-Prints morning-IsTime refl refl (omega arith)
      (omega arith) refl (λ e. omega arith)
