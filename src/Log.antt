-- ===== src/Log.antt =====
-- common/log.h and the names that common/log.c gives to its users and files.
pub mod Write
pub mod Spec
pub mod Date
pub mod Process
use ktrpg.Base.{ℕ, ◌≡◌, ◌<◌, ◌==◌, Bool, true, false, List, codes, has_nul, if◌then◌else◌, refl}

abbrev pub log_chatserver : ℕ
log_chatserver = 1

abbrev pub log_chatclient : ℕ
log_chatclient = 2

abbrev pub log_user : ℕ
log_user = 3

abbrev pub log_err : ℕ
log_err = 1

abbrev pub log_warning : ℕ
log_warning = 2

abbrev pub log_info : ℕ
log_info = 3

abbrev pub log_test : ℕ
log_test = 4

abbrev pub log_attack : ℕ
log_attack = 5

-- The number of queue reads in a pass of the log process.
abbrev pub log_max : ℕ
log_max = 6

unfoldable pub get_log_user_name : ℕ → List ℕ
get_log_user_name user =
    if user == log_chatserver
    then codes "CHATSERVER"
    else (if user == log_chatclient
        then codes "CHATCLIENT"
        else (if user == log_user then codes "USER" else codes "UNKNOWN"))

unfoldable pub get_log_file_name : ℕ → List ℕ
get_log_file_name log_type =
    if log_type == log_test
    then codes "logtest.txt"
    else (if log_type == log_info
        then codes "loginfo.txt"
        else (if log_type == log_warning
            then codes "logwarn.txt"
            else (if log_type == log_err
                then codes "logerr.txt"
                else (if log_type == log_attack
                    then codes "logattack.txt"
                    else codes "logunknown.txt"))))
