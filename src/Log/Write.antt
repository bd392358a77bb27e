-- ===== src/Log/Write.antt =====
-- `writelog`, `mylog`, `mylogd` and the receiving loop of `initlog` of common/log.c, built for POSIX.
-- The date of `GetTimeYYYYNNDDHHMMSS`, the text that `vsprintf` makes, and what `fopen`, `msgsnd` and
-- `msgrcv` answer are arguments.
use ktrpg.Base.{
  ℕ, ◌+◌, ◌-◌, Bool, true, false, Option, none, some, List, [], ◌∷◌, ◌++◌, ◌==◌, ltb, leb,
  if◌then◌else◌, length, take, replicate, codes, before_nul, read_string,
}
use ktrpg.Log.{get_log_user_name, get_log_file_name, log_test}

abbrev pub mtext_size : ℕ
mtext_size = 512

abbrev pub log_size : ℕ
log_size = 4096

abbrev pub prefix_size : ℕ
prefix_size = 128

-- What the functions do to the world outside.
pub data Effect : Type 0 where
  lock_log unlock_log : Effect
  append : (file : List ℕ) (bytes : List ℕ) → Effect
  -- `fprintf(stderr, text)`: the text is the format. What a '%' in it then does is left open.
  print_format : List ℕ → Effect

-- How a function ends: it has read or written outside an object, or it returns LOG_OK (`true`) or
-- LOG_NO.
pub data Ended {ℓ} (A : Type ℓ) : Type ℓ where
  overrun : Ended A
  returned : Bool → A → Ended A

-- `struct msgbuf`.
pub record Message : Type 0 where
  pub mtype : ℕ
  pub mtext : List ℕ

-- The arguments of a call of `mylog` or `mylogd`, the bytes that `vsprintf` makes of them (`log`; a
-- `%c` can make a NUL), and the string that `GetTimeYYYYNNDDHHMMSS` leaves in `ydate`.
pub record Entry : Type 0 where
  pub user : ℕ
  pub log_type : ℕ
  pub buffer : List ℕ
  pub log : List ℕ
  pub date : List ℕ

abbrev pub newline : List ℕ
newline = codes "\n"

-- `writelog`; `opens` tells whether `fopen` succeeds.
unfoldable pub writelog : Bool → ℕ → List ℕ → List Effect × Bool
writelog opens log_type buffer =
    if opens
    then (
      lock_log
          ∷ (append (get_log_file_name log_type) buffer
              ∷ (append (get_log_file_name log_type) newline ∷ (unlock_log ∷ []))),
      true,
    )
    else (lock_log ∷ (unlock_log ∷ []), false)

-- The type an entry is logged with: `testing` tells whether THISISTEST is defined.
abbrev pub effective_type : Bool → Entry → ℕ
effective_type testing e = if testing then log_test else e.log_type

-- The lines before the text is made: without THISISTEST, an entry of type LOG_TEST is dropped.
abbrev pub is_dropped : Bool → Entry → Bool
is_dropped testing e = if testing then false else e.log_type == log_test

-- `snprintf(prefix, 128, "USER:%s,DATE:%s:", ...)`.
unfoldable pub prefix_of : Entry → List ℕ
prefix_of e =
    take (prefix_size - 1)
      (codes "USER:" ++ (get_log_user_name e.user ++ (codes ",DATE:" ++ (e.date ++ codes ":"))))

-- The buffer of the message: `strcpy` into a zeroed array.
abbrev pub padded : List ℕ → List ℕ
padded text = text ++ replicate (mtext_size - length text) 0

-- `mylog`: the message it hands to `msgsnd`, if it comes so far; `sends` tells whether that succeeds.
unfoldable pub mylog : Bool → Bool → Entry → Ended (Option Message)
mylog testing sends e =
    if is_dropped testing e
    then returned true none
    else (if ltb mtext_size (length e.buffer)
        then returned false none
        else (if leb log_size (length e.log)
            then overrun
            else (if ltb mtext_size (length (before_nul e.log) + length (prefix_of e))
                then returned false none
                else (if leb mtext_size (length (prefix_of e ++ before_nul e.log))
                    then overrun
                    else (if sends
                        then returned true (
                            some (record {
                              mtype = effective_type testing e;
                              mtext = padded (prefix_of e ++ before_nul e.log);
                            }))
                        else returned false none)))))

-- `mylogd`, which writes the file itself.
unfoldable pub mylogd : Bool → Bool → Entry → Ended (List Effect)
mylogd testing opens e =
    let file = get_log_file_name (effective_type testing e) in
    if is_dropped testing e
    then returned true []
    else (if ltb mtext_size (length e.buffer)
        then returned false []
        else (if leb log_size (length e.log)
            then overrun
            else (if opens
                then returned true (
                    lock_log
                    ∷ (append file (prefix_of e)
                        ∷ (append file (before_nul e.log)
                            ∷ (append file newline
                                ∷ (unlock_log
                                    ∷ (print_format (prefix_of e)
                                        ∷ (print_format (before_nul e.log)
                                            ∷ (print_format newline ∷ []))))))))
                else returned false (lock_log ∷ (unlock_log ∷ [])))))

-- What `msgrcv` gives: -1, or a number of bytes and the message.
pub data Arrival : Type 0 where
  failed : Arrival
  arrived : ℕ → Message → Arrival

-- A round of the `for` loop: what it does, and whether it sets `nomsg` to 0.
unfoldable pub receive : Bool → Arrival → Ended (List Effect)
receive opens failed = returned false []
receive opens (arrived temp m) =
    if temp == 0 then returned false [] else elim (read_string m.mtext) [
      | none ↦ overrun
      | some text ↦ returned true (writelog opens m.mtype text).0
    ]

-- The `for` loop over what the reads give; the result is `true` where `nomsg` is 0 after it.
unfoldable pub receive_all : Bool → List Arrival → Ended (List Effect)
receive_all opens [] = returned false []
receive_all opens (a ∷ rest) =
    let later = receive_all opens rest in
    elim (receive opens a) [
      | overrun ↦ overrun
      | returned got effects ↦ elim later [
        | overrun ↦ overrun
        | returned got' effects' ↦ returned (if got then true else got') (effects ++ effects')
      ]
    ]
