-- ===== src/Server/Daemon.antt =====
-- server/daemon.c. What `fork` and `open` answer is an argument.
pub mod Spec
use ktrpg.Base.{
  ℕ, zero, suc, ◌+◌, ◌==◌, ltb, Bool, true, false, Option, none, some, List, if◌then◌else◌,
}
use ktrpg.Server.Signals.{Signal, sighup, Sigaction, ignore}

abbrev pub maxfd : ℕ
maxfd = 64

-- What a descriptor stands for.
pub data File : Type 0 where
  no_file : File
  dev_null : File
  other : ℕ → File

pub record Process : Type 0 where
  pub fds : ℕ → File
  pub in_root : Bool
  pub has_session : Bool
  pub actions : Signal → Sigaction

-- The answer of `fork`: -1, the number of a child, or 0 in the child.
pub data Fork : Type 0 where
  failed in_parent in_child : Fork

-- The process exits with a status, or `daemonize` returns: 0 for `true`, -1 for `false`.
pub data Daemonized : Type 0 where
  exits : ℕ → Daemonized
  returns : Bool → Process → Daemonized

abbrev pub update : (ℕ → File) → ℕ → File → ℕ → File
update fds fd file k = if fd == k then file else fds k

-- The loop that closes the `n` descriptors from `i` on.
unfoldable pub close_from : (n : ℕ) → (i : ℕ) → (ℕ → File) → ℕ → File
close_from zero i fds = fds
close_from (suc n) i fds = close_from n (suc i) (update fds i no_file)

abbrev pub dup2 : (fd to : ℕ) → (ℕ → File) → ℕ → File
dup2 fd to fds = if fd == to then fds else update fds to (fds fd)

-- The block under `noclose == 0`; `devnull` is what `open` gives, `none` for -1.
unfoldable pub redirect : Option ℕ → (ℕ → File) → ℕ → File
redirect devnull fds =
    let closed = close_from maxfd 0 fds in
    elim devnull [
      | none ↦ closed
      | some fd ↦
          let copied = dup2 fd 2 (dup2 fd 1 (dup2 fd 0 (update closed fd dev_null))) in
          if ltb 2 fd then update copied fd no_file else copied
    ]

unfoldable pub daemonize :
    (fork1 fork2 : Fork) (devnull : Option ℕ) (nochdir noclose : ℕ) → Process → Daemonized
daemonize failed fork2 devnull nochdir noclose p = returns false p
daemonize in_parent fork2 devnull nochdir noclose p = exits 0
daemonize in_child failed devnull nochdir noclose p = exits 0
daemonize in_child in_parent devnull nochdir noclose p = exits 0
daemonize in_child in_child devnull nochdir noclose p = returns true (record {
  fds = if noclose == 0 then redirect devnull p.fds else p.fds;
  in_root = if nochdir == 0 then true else p.in_root;
  has_session = true;
  actions = ignore sighup p.actions;
})
