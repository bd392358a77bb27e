-- ===== src/Mutex/Program/Spec.antt =====
-- Where the two processes of `main` of common/mymutex.c end once each has got its first mutex.
use ktrpg.Base.{
  ℕ, zero, suc, ◌≤◌, ◌<◌, ◌≡◌, ap, inl, inr, true, false, some, List, [], length, arith, codes,
}
use ktrpg.Mutex.Types.{
  Thread, Store, max_mutex_num, mymutex_type_max, mymutex_type_account, mymutex_type_dbque,
}
use ktrpg.Mutex.Order.{count_up}
use ktrpg.Mutex.Table.{obtain_getter}
use ktrpg.Mutex.Lock.Owners.{owner_of}
use ktrpg.Mutex.System.{Local, here}
use ktrpg.Mutex.System.Invariant.{AreDistinct}
use ktrpg.Mutex.System.Slots.{in_table, is_of-used}
use ktrpg.Mutex.Deadlock.{getter_at}
use ktrpg.Mutex.System.Blocks.{obtain_getter-found}
use ktrpg.Mutex.System.Good.{Good, Reach-Good}
use ktrpg.Mutex.System.Ready.{init_mymutex-Ready}
use ktrpg.Mutex.Program.{
  Command, Processes, Turn, Runs, here, later, after_fork, has_got, parent_no, child_no, parent_end,
  child_end,
}
use ktrpg.Mutex.Program.Between.{Between, Next, Turn-Between, load, standing, mover}
use ktrpg.Mutex.Program.Reached.{pending, Runs-pending, Runs-Reach, Runs-killed}

-- The parent has got ACCOUNT and the child DBQUE, and neither has returned from its second lock.
pub record Crossed (p : Processes) : Type 0 where
  pub parent :
      Between parent_no mymutex_type_account mymutex_type_dbque (codes "oydbquelo") parent_end p
  pub child :
      Between child_no mymutex_type_dbque mymutex_type_account (codes "koaccountlo") child_end p

Next-pending :
    (second : ℕ) (comment : List ℕ) (more rest : List Command) (l : Local)
    → Next second comment more l rest
    → pending rest ≡ pending more
Next-pending second comment more rest l (inl (i, inl e)) = ap pending e
Next-pending second comment more rest l (inl (i, inr e)) = ap pending e
Next-pending second comment more rest l (inr (a, e)) = ap pending e

pub Runs-append :
    {fuel : ℕ} {who : ℕ → Thread} {p q r : Processes}
    → Runs fuel who p q
    → Runs fuel who q r
    → Runs fuel who p r
Runs-append a here = a
Runs-append a (later b t) = later (Runs-append a b) t

module _ (fuel : ℕ) (who : ℕ → Thread) (s : Store) (distinct : AreDistinct who)
    (room : mymutex_type_max ≤ length s.mmutex) where
  abbrev start : Processes
  start = after_fork true s

  no_more : (n : ℕ) → start.rest (suc (suc n)) ≡ []
  no_more n = ground arith

  -- While both processes have all their unlocks still to do, the tables are as the calls lead to.
  pub pending-Good :
      (p : Processes)
      → Runs fuel who start p
      → ((n : ℕ) → pending (p.rest n) ≡ pending (start.rest n))
      → Good who start.system p.system
  pending-Good p run same =
      Reach-Good fuel has_got who start.system p.system (λ l t h. h) distinct
        (init_mymutex-Ready (some (count_up 0 max_mutex_num)) s room)
        (Runs-Reach fuel who start.system run same here)

  pub Crossed-pending :
      (p : Processes)
      → Runs fuel who start p
      → Crossed p
      → (n : ℕ) → pending (p.rest n) ≡ pending (start.rest n)
  Crossed-pending p run crossed zero =
      Next-pending _ _ _ (p.rest 0) (p.system.local 0) crossed.parent.next
  Crossed-pending p run crossed (suc zero) =
      Next-pending _ _ _ (p.rest 1) (p.system.local 1) crossed.child.next
  Crossed-pending p run crossed (suc (suc n)) =
      omega (arith, Runs-pending fuel who run (suc (suc n)), ap pending (no_more n))

  pub Crossed-Good :
      (p : Processes) → Runs fuel who start p → Crossed p → Good who start.system p.system
  Crossed-Good p run crossed = pending-Good p run (Crossed-pending p run crossed)

  pub Crossed-alive : (p : Processes) → Runs fuel who start p → Crossed p → p.killed ≡ false
  Crossed-alive p run crossed = Runs-killed fuel who run (Crossed-pending p run crossed)

  -- A process that has got a mutex owns it, and has a getter.
  pub holds_it :
      (p : Processes) (n t u : ℕ)
      → Good who start.system p.system
      → (p.system.local n).has t ≡ true
      → (owner_of p.system.store t ≡ some (who n))
        × ((i : ℕ) × (obtain_getter (who n) u p.system.store.mmgetter
              ≡ some (i, p.system.store.mmgetter)))
  holds_it p n t u good h =
      let (j, mine, holding) = good.kept.noted n t h in
      (
        ((good.inv.keep n).has t h).1,
        obtain_getter-found (who n) u j p.system.store.mmgetter
            (in_table p.system.store.mmgetter j
              (is_of-used (who n) (getter_at p.system.store.mmgetter j) mine))
            mine,
      )

  -- After a turn, each process is between its locks, and who took it has less to do.
  pub Crossed-turns :
      (p q : Processes)
      → Runs fuel who start p
      → Crossed p
      → (turn : Turn fuel who p q)
      → (Between 0 mymutex_type_account mymutex_type_dbque (codes "oydbquelo") parent_end q
          × (mover turn ≡ 0 → load (standing q 0) < load (standing p 0)))
        × (Between 1 mymutex_type_dbque mymutex_type_account (codes "koaccountlo") child_end q
            × (mover turn ≡ 1 → load (standing q 1) < load (standing p 1)))
  Crossed-turns p q run crossed turn =
      let good = Crossed-Good p run crossed in
      let (account, (i, found)) =
        holds_it p 0 mymutex_type_account mymutex_type_dbque good crossed.parent.has in
      let (dbque, (j, found')) =
        holds_it p 1 mymutex_type_dbque mymutex_type_account good crossed.child.has in
      (
        Turn-Between fuel who _ _ _ _ 0 i p.system.store.mmgetter (who 1) p q turn
            (omega (arith, good.inv.room)) dbque found crossed.parent,
        Turn-Between fuel who _ _ _ _ 1 j p.system.store.mmgetter (who 0) p q turn
            (omega (arith, good.inv.room)) account found' crossed.child,
      )

  pub Crossed-Turn :
      (p q : Processes) → Runs fuel who start p → Crossed p → Turn fuel who p q → Crossed q
  Crossed-Turn p q run crossed turn =
      let ((parent, _), (child, _)) = Crossed-turns p q run crossed turn in
      record { parent = parent; child = child }

  pub Runs-Crossed :
      (p : Processes) {q : Processes}
      → Runs fuel who start p
      → Crossed p
      → Runs fuel who p q
      → Crossed q
  Runs-Crossed p run crossed here = crossed
  Runs-Crossed p run crossed (later {q} {r} more turn) =
      Crossed-Turn q r (Runs-append run more) (Runs-Crossed p run crossed more) turn

-- The test ends in its deadlock: from what `main` starts after `fork`, once the turns have led to where
-- the parent has got ACCOUNT and the child DBQUE and neither has returned from its second lock, then
-- whatever turns follow, neither returns from it, so that the parent never comes to its unlocks and to
-- `release_mymutex`, the child has not been killed, and the two mutexes stay with their owners. The
-- processes are different, and the memory has room for the mutexes.
pub main_deadlocks :
    (fuel : ℕ) (who : ℕ → Thread) (s : Store) (p q : Processes)
    → AreDistinct who
    → mymutex_type_max ≤ length s.mmutex
    → Runs fuel who (after_fork true s) p
    → Crossed p
    → Runs fuel who p q
    → Crossed q
      × (q.killed ≡ false)
      × (owner_of q.system.store mymutex_type_account ≡ some (who parent_no))
      × (owner_of q.system.store mymutex_type_dbque ≡ some (who child_no))
main_deadlocks fuel who s p q distinct room run crossed more =
    let crossed' = Runs-Crossed fuel who s distinct room p run crossed more in
    let good = Crossed-Good fuel who s distinct room q (Runs-append run more) crossed' in
    (
      crossed',
      Crossed-alive fuel who s distinct room q (Runs-append run more) crossed',
      ((good.inv.keep parent_no).has mymutex_type_account crossed'.parent.has).1,
      ((good.inv.keep child_no).has mymutex_type_dbque crossed'.child.has).1,
    )
