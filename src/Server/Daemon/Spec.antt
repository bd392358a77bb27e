-- ===== src/Server/Daemon/Spec.antt =====
-- What a daemon of server/daemon.c has open.
use ktrpg.Base.{
  ℕ, zero, suc, ◌+◌, ◌≡◌, ◌==◌, ltb, refl, true, ◌&&◌, ◌||◌, not, some, arith, if◌then◌else◌,
}
use ktrpg.Server.Signals.{sighup, sig_ign}
use ktrpg.Server.Daemon.{
  maxfd, File, no_file, dev_null, Process, in_child, returns, update, close_from, redirect,
  daemonize,
}

close_from_lem :
    (n i : ℕ) (fds : ℕ → File) (k : ℕ)
    → close_from n i fds k ≡ (if not (ltb k i) && ltb k (i + n) then no_file else fds k)
unfolding close_from
close_from_lem zero i fds k = ground arith
close_from_lem (suc n) i fds k = ground (arith, close_from_lem n (suc i) (update fds i no_file) k)

-- The descriptors of a daemon that has found /dev/null with the number `fd`.
abbrev pub detached : ℕ → (ℕ → File) → ℕ → File
detached fd fds k =
    if ltb k 3 then dev_null else (if ltb k maxfd || (k == fd) then no_file else fds k)

redirect-detached : (fd : ℕ) (fds : ℕ → File) (k : ℕ) → redirect (some fd) fds k ≡ detached fd fds k
unfolding redirect
redirect-detached fd fds k = ground (arith, close_from_lem maxfd 0 fds k)

-- The process that goes on as the daemon, where `open` finds /dev/null: 0, 1 and 2 are /dev/null, no
-- other descriptor below 64 is open, nor the one that `open` gave, and the rest are as they were.
-- SIGHUP is ignored; the directory is the root where that is asked for.
pub daemonize-detached :
    (fd nochdir : ℕ) (p : Process)
    → (p' : Process) × (daemonize in_child in_child (some fd) nochdir 0 p ≡ returns true p')
      × ((k : ℕ) → p'.fds k ≡ detached fd p.fds k)
      × ((p'.actions sighup).sa_handler ≡ sig_ign)
      × (p'.in_root ≡ ((nochdir == 0) || p.in_root))
      × (p'.has_session ≡ true)
unfolding daemonize
daemonize-detached fd nochdir p = (_, refl, redirect-detached fd p.fds, refl, ground arith, refl)
