-- ===== src/Lib.antt =====
-- KTRPG: the locks with a deadlock search, the log and the chat server.
--
-- The program is a chat server for a game. `common/mymutex.c` gives its processes mutexes in shared
-- memory, with a table of the threads that hold or wait for them, a check of the locking order and a
-- search for deadlocks. `common/log.c` passes log lines through a message queue to a process that
-- writes them to files. `server/server.c` (and `chatserver/server.c`, the same text) accepts clients
-- and sends what each of them says to all.
--
-- Files and code:
--   Mutex/Types     common/mymutex.h: constants, `type_mymutex`, `type_mymutexgetter`, the shared memory
--   Mutex/Deadlock  `isDeadLock`; the `while (1)` takes fuel. Chain, Sound, Complete, Diverge, Kept,
--                   Members: the waits-for chain, its relation to the answers, what the search leaves
--                   alone, and the getters of a cycle
--   Mutex/Order     `isLockJyunbanOk`; Spec states the order by positions
--   Mutex/Table     reads and writes of the tables, the pthread calls, the searches for a getter
--   Mutex/Lock      `mymutex_lock`, `mymutex_getter_lock`; Owners and Acquire: who owns what after it;
--                   Room: the free slots of a getter
--   Mutex/Unlock    `mymutex_unlock`, `mymutex_getter_unlock`; Release: what is free after it
--   Mutex/Identity  which thread a getter belongs to, through one call (Calls) and through many (Full)
--   Mutex/Init      `init_mymutex`; Ready: the first call after it
--   Mutex/Frame     what no call changes; Mutex/RoundTrip: a lock and the unlock after it
--   Mutex/Stage     `mymutex_lock` cut at its calls of `pthread_mutex_lock`; Owners, Getters, Slots,
--                   Flags, Asked: what each stage changes
--   Mutex/System    threads that run these stages and the calls of `mymutex_unlock` in any order; Safety,
--                   Progress, Refine, Stuck: who owns what in the states that they reach; Getters: who
--                   has which getter; Slots, Flags, Noted, Honest: what the getters tell of who owns
--                   what and who waits; Ready, Good: the state that `init_mymutex` leaves, and those
--                   reached from it; Ring, Cycle: what a YES of the search means for the threads;
--                   Blocks, Found, Verdict: when it answers YES
--   Mutex/Program   `main` of common/mymutex.c, two processes turn by turn, and `release_mymutex`. Asks,
--                   Between, Reached, Movers, Turns: a process between its two locks, what it has still
--                   to do and which turns it can take; Answers, Awake: its search for a deadlock ends;
--                   Reports: what it logs; Spec, Stops: where the two processes end
--   Server/Socket   `server_socket`; what the C library answers is an argument
--   Server/Relay    `send_recv_loop`
--   Server/Loop     `accept_loop` round by round; Invariant: its table of clients; Ledger: the
--                   descriptors it holds; Width: the first argument of `select`
--   Server/Strlcat  `mystrlcat`
--   Server/Signals  server/my_handler.c: `set_my_sig_action`, the handlers and their flags
--   Server/Daemon   server/daemon.c: `daemonize`
--   Server/Program  `main` of server/main.c, composed of these
--   Client          `main` of chatclient/main.c
--   Log, Log/Write  `getLogUserName`, `getLogFileName`, `writelog`, `mylog`, `mylogd` and a pass of the
--                   loop of `initlog`; Log/Spec states what reaches the files
--   Log/Process     `initlog` with its loop, and `releaselog`; Spec: what passes through the queue
--   Log/Date        `GetTimeYYYYNNDDHHMMSS`, and which texts `mylog` always takes
--   Db              `DB_threadfunc` and `DB_release` of common/db.c
--   Check           `result_check` of TEST/*/resultcheck.c; Spec: by the texts that occur
--   Trial           the judging parent of TEST/TEST_simpleserveronly/main.c; Driver: TEST/main.c
--   Base            names and lemmas on lists, searches, texts and numbers that all of them share
--   Tests           runs on small inputs
--
-- State and calls. A call of the mutex functions runs from a `Store`, the shared tables and the lines
-- that the mutex functions log with LOG_ERR and LOG_WARNING, to a `Call`: it returns, blocks in `pthread_mutex_lock`, or stays
-- in `isDeadLock`. The log functions `mylog` and `mylogd` are not called by the mutex model, which
-- keeps a `Note` where the code logs with one of these two; what it logs with LOG_TEST is left out,
-- although `mylog` keeps it in this repository, where common/commondef.h defines THISISTEST. The server
-- functions give a trace of `Event`s or `Effect`s, and take what `select`, `accept`, `recv`, `send`,
-- `msgsnd`, `msgrcv`, `fopen`, `opendir`, `vsprintf` and the clock give as arguments. Getters and clients
-- are named by their index in the table.
--
-- Undefined behaviour. `send_recv_loop` is undefined where it writes outside its buffer, and where the text
-- of a client, which line 103 of server/server.c takes as a format, asks for an argument; `accept_loop`
-- where `FD_SET` or `FD_ISSET` gets a descriptor that is not below FD_SETSIZE, taken as 1024. The log
-- functions are in state `overrun` where they write or read outside a buffer; what `mylogd` prints on
-- stderr as a format, after it has closed the file, is only recorded.
--
-- Rounds. `accept_loop` is run through any list of rounds. Its result tells whether SIGTERM or SIGHUP has
-- ended the loop; else it goes on after them, and `main` is still running. Signals come between rounds.
--
-- Fuel. `isDeadLock` takes a number of rounds; one more than the number of getters is enough to find a
-- cycle through the caller, and the length of the chain is enough for a chain that ends. There are
-- inputs on which no number is enough.
--
-- Threads. A step of `Mutex/System` runs one thread from a `pthread_mutex_lock` to the next; a thread that
-- waits for a lock takes no step until the lock is free. Inside BEFORELOCK the tables are a thread's own,
-- so that no finer steps are needed; what `isDeadLock` writes in a search that never ends is seen by
-- nobody, and left out. The steps are those of a program that uses BEFORELOCK. Which unlocks the callers
-- ask for is a parameter, because the code lets a thread unlock what another has locked.
--
-- The processes of `main` of common/mymutex.c take turns in any order, since its sleeps only make one order
-- likely. A turn runs a step of a call, or takes the next command; a child that is killed takes none.
--
-- Not modelled: the Windows branches, `getMutexTypeStr`, which names mutexes for the Windows calls, the
-- mapping of shared memory, the queue and the processes as the system keeps them, the children of the
-- test programs, chatserver/main2.c, a straight run of socket calls, and structures that no code uses.
-- The files of chatserver/ that copy those of server/ are not modelled twice. The index of a slot and
-- the type in it are numbers without wrap-around, since both stay below 256.
pub mod Base
pub mod Mutex
pub mod Server
pub mod Log
pub mod Check
pub mod Client
pub mod Db
pub mod Trial
pub mod Tests
