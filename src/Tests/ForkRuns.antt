-- ===== src/Tests/ForkRuns.antt =====
-- The two processes of `main` of common/mymutex.c, turn by turn, into their deadlock.
use ktrpg.Base.{
  ℕ, ◌≤◌, ◌↔◌, ◌≡◌, ◌≢◌, refl, ap, sym, ◌∙◌, true, false, none, some, List, [], ◌∷◌, arith, codes,
  any, find_index, find_last_index, inl,
}
use ktrpg.Mutex.Types.{Store}
use ktrpg.Mutex.Deadlock.{is_dead_lock, walk}
use ktrpg.Mutex.Order.{count_up, is_lock_jyunban_ok, row_ok, pair_ok}
use ktrpg.Mutex.Table.{obtain_getter}
use ktrpg.Mutex.Lock.{scan_others, granted}
use ktrpg.Mutex.Lock.Owners.{owner_of}
use ktrpg.Mutex.Init.{init_mymutex}
use ktrpg.Mutex.Stage.{begin_lock, begin_searched, end_lock}
use ktrpg.Mutex.System.{
  idle, asks_lock, inside_lock, wants, owns, settles, Local, at, update, IsMutex, enter_lock, begin,
  take, return_to, end,
}
use ktrpg.Mutex.System.Progress.{update_self}
use ktrpg.Mutex.Program.{
  Command, locks, does, sleeps, logs, Processes, Turn, goes_on, takes_lock, takes_action, Runs,
  here, later, after_fork, called, stepped, acted, can_run, parent_end, child_end, Action,
}
use ktrpg.Mutex.Program.Spec.{Crossed, main_deadlocks}
use ktrpg.Mutex.Program.Reports.{BothWait, Told}
use ktrpg.Mutex.Program.Stops.{turns, main_stops}
use ktrpg.Tests.MutexRuns.{store}
use ktrpg.Tests.Scenario.{locked, waiting, does_wait, does_wait_lem, lock_free}
use ktrpg.Tests.SystemRuns.{who, who-AreDistinct}

abbrev memory : Store
memory = store none none []

abbrev start : Processes
start = after_fork true memory

abbrev asking : ℕ → ℕ → List ℕ → List Command → Processes → Processes
asking n t c more p = called n more (at (asks_lock t c) (p.system.local n)) p

abbrev entering : ℕ → ℕ → List ℕ → List Command → Processes → Processes
entering n t c more p0 =
    let p = asking n t c more p0 in
    stepped n (at (inside_lock t c) (p.system.local n)) (locked (who n) 0 p.system.store) p

abbrev wanting : ℕ → ℕ → ℕ → List ℕ → List Command → Processes → Processes
wanting n t i c more p0 =
    let p = entering n t c more p0 in
    stepped n (at (wants t i true c) (p.system.local n))
      (waiting (begin_lock 33 (who n) t p.system.store) p.system.store) p

abbrev taking : ℕ → ℕ → ℕ → List ℕ → Processes → Processes
taking n t i c p =
    stepped n (at (owns t i true c) (p.system.local n)) (locked (who n) t p.system.store) p

abbrev settling : ℕ → ℕ → ℕ → List ℕ → Processes → Processes
settling n t i c p0 =
    let p = taking n t i c p0 in
    stepped n (at (settles t i true c) (p.system.local n)) (locked (who n) 0 p.system.store) p

abbrev got : ℕ → ℕ → ℕ → List ℕ → Processes → Processes
got n t i c p0 =
    let p = settling n t i c p0 in
    stepped n (record { place = idle; has = update (p.system.local n).has t true })
      (end_lock (who n) t i true c p.system.store) p

place_of : (f : ℕ → Local) (n : ℕ) (l : Local) → (update f n l n).place ≡ l.place
place_of f n l = ap (λ (a : Local). a.place) (update_self f n l)

busy : (f : ℕ → Local) (n : ℕ) (l : Local) → l.place ≢ idle → (update f n l n).place ≢ idle
busy f n l ne q = ne (sym (place_of f n l) ∙ q)

to_wanting :
    {x : Processes} (n t i : ℕ) (c : List ℕ) (more : List Command) (p : Processes)
    → Runs 33 who x p
    → can_run p n ≡ true
    → (p.system.local n).place ≡ idle
    → p.rest n ≡ locks t c ∷ more
    → IsMutex t
    → owner_of p.system.store 0 ≡ none
    → does_wait i (begin_lock 33 (who n) t (entering n t c more p).system.store) ≡ true
    → Runs 33 who x (wanting n t i c more p)
to_wanting n t i c more p run can out r ok free e =
    later
      (later (later run (takes_lock n t c more can out r ok refl)) (
        goes_on n _ _ can (busy p.system.local n _ (λ q. cc))
          (enter_lock t c (place_of p.system.local n _) (lock_free (who n) 0 p.system.store free)
            refl)
          refl))
      (goes_on n _ _ can (busy (asking n t c more p).system.local n _ (λ q. cc))
        (begin t i true c (place_of (asking n t c more p).system.local n _) (does_wait_lem i _ _ e)
          refl)
        refl)

to_got :
    {x : Processes} (n t i : ℕ) (c : List ℕ) (p : Processes)
    → Runs 33 who x p
    → can_run p n ≡ true
    → (p.system.local n).place ≡ wants t i true c
    → owner_of p.system.store t ≡ none
    → owner_of (taking n t i c p).system.store 0 ≡ none
    → Runs 33 who x (got n t i c p)
to_got n t i c p run can w free free_now =
    later
      (later
        (later run (
          goes_on n _ _ can (λ q. cc (w, q)) (take t i true c w (lock_free (who n) t _ free) refl)
            refl))
        (goes_on n _ _ can (busy p.system.local n _ (λ q. cc))
          (return_to t i true c (place_of p.system.local n _) (lock_free (who n) 0 _ free_now) refl)
          refl))
      (goes_on n _ _ can (busy (taking n t i c p).system.local n _ (λ q. cc))
        (end t i true c (place_of (taking n t i c p).system.local n _) refl refl) refl)

to_acted :
    {x : Processes} (n : ℕ) (a : Action) (more : List Command) (p : Processes)
    → Runs 33 who x p
    → can_run p n ≡ true
    → (p.system.local n).place ≡ idle
    → p.rest n ≡ does a ∷ more
    → Runs 33 who x (acted n more a p)
to_acted n a more p run can out r = later run (takes_action n a more can out r refl)

-- Each process gets its first mutex.
abbrev parent_sleeps : List Command
parent_sleeps = does (sleeps 1) ∷ (locks 2 (codes "oydbquelo") ∷ parent_end)

abbrev parent_has : Processes
parent_has =
    got 0 1 0 (codes "oyaccountlo") (wanting 0 1 0 (codes "oyaccountlo") parent_sleeps start)

to_parent_has : Runs 33 who start parent_has
unfolding init_mymutex begin_lock begin_searched is_dead_lock any find_index obtain_getter
    find_last_index scan_others is_lock_jyunban_ok row_ok pair_ok count_up
to_parent_has =
    to_got 0 1 0 (codes "oyaccountlo") (wanting 0 1 0 (codes "oyaccountlo") parent_sleeps start)
      (to_wanting 0 1 0 (codes "oyaccountlo") parent_sleeps start here refl refl refl
        ((λ e. omega arith), omega arith) refl refl)
      refl refl refl refl

abbrev child_sleeps : List Command
child_sleeps = does (sleeps 1) ∷ (locks 1 (codes "koaccountlo") ∷ child_end)

abbrev child_locks : List Command
child_locks = locks 2 (codes "kodbquelo") ∷ child_sleeps

abbrev last_line : List Command
last_line = does (logs 0 5 (codes "teet")) ∷ child_locks

abbrev two_lines : List Command
two_lines = does (logs 0 1 (codes "testdesuyo\n")) ∷ last_line

abbrev child_logged : Processes
child_logged = acted 1 child_locks (logs 0 5 (codes "teet")) (
    acted 1 last_line (logs 0 1 (codes "testdesuyo\n"))
      (acted 1 two_lines (logs 0 4 (codes "testdesu")) parent_has))

to_child_logged : Runs 33 who start child_logged
to_child_logged =
    to_acted 1 _ child_locks _
      (to_acted 1 _ last_line _ (to_acted 1 _ two_lines _ to_parent_has refl refl refl) refl refl
        refl)
      refl refl refl

abbrev crossed : Processes
crossed =
    got 1 2 1 (codes "kodbquelo") (wanting 1 2 1 (codes "kodbquelo") child_sleeps child_logged)

to_crossed : Runs 33 who start crossed
unfolding init_mymutex begin_lock begin_searched end_lock is_dead_lock walk any find_index
    obtain_getter find_last_index scan_others is_lock_jyunban_ok row_ok pair_ok granted count_up
to_crossed =
    to_got 1 2 1 (codes "kodbquelo") (wanting 1 2 1 (codes "kodbquelo") child_sleeps child_logged)
      (to_wanting 1 2 1 (codes "kodbquelo") child_sleeps child_logged to_child_logged refl refl refl
        ((λ e. omega arith), omega arith) refl refl)
      refl refl refl refl

crossed-Crossed : Crossed crossed
crossed-Crossed = record {
  parent = record { has = refl; next = inl (refl, inl refl) };
  child = record { has = refl; next = inl (refl, inl refl) };
}

-- Both ask for their second.
abbrev parent_waits : Processes
parent_waits =
    wanting 0 2 0 (codes "oydbquelo") parent_end
      (acted 0 (locks 2 (codes "oydbquelo") ∷ parent_end) (sleeps 1) crossed)

crossed_to_parent_waits : Runs 33 who crossed parent_waits
unfolding init_mymutex begin_lock begin_searched end_lock is_dead_lock walk any find_index
    obtain_getter find_last_index scan_others is_lock_jyunban_ok row_ok pair_ok granted count_up
crossed_to_parent_waits =
    to_wanting 0 2 0 (codes "oydbquelo") parent_end _
      (to_acted 0 (sleeps 1) (locks 2 (codes "oydbquelo") ∷ parent_end) crossed here refl refl refl)
      refl refl refl ((λ e. omega arith), omega arith) refl refl

abbrev both_wait : Processes
both_wait =
    wanting 1 1 1 (codes "koaccountlo") child_end
      (acted 1 (locks 1 (codes "koaccountlo") ∷ child_end) (sleeps 1) parent_waits)

crossed_to_both_wait : Runs 33 who crossed both_wait
unfolding init_mymutex begin_lock begin_searched end_lock is_dead_lock walk any find_index
    obtain_getter find_last_index scan_others is_lock_jyunban_ok row_ok pair_ok granted count_up
crossed_to_both_wait =
    to_wanting 1 1 1 (codes "koaccountlo") child_end _
      (to_acted 1 (sleeps 1) (locks 1 (codes "koaccountlo") ∷ child_end) parent_waits
        crossed_to_parent_waits refl refl refl)
      refl refl refl ((λ e. omega arith), omega arith) refl refl

main_deadlocks_example :
    Crossed both_wait
    × (both_wait.killed ≡ false)
    × (owner_of both_wait.system.store 1 ≡ some (who 0))
    × (owner_of both_wait.system.store 2 ≡ some (who 1))
main_deadlocks_example =
    main_deadlocks 33 who memory crossed both_wait who-AreDistinct (omega arith) to_crossed
      crossed-Crossed crossed_to_both_wait

main_stops_example :
    (turns crossed_to_both_wait ≤ 8)
    × (((z : Processes) → Turn 33 who both_wait z → ⊥) ↔ BothWait both_wait)
    × (BothWait both_wait → Told who both_wait.system.store)
main_stops_example =
    main_stops 33 who memory crossed both_wait who-AreDistinct (omega arith) (omega arith)
      to_crossed crossed-Crossed ((λ e. cc), λ e. cc) crossed_to_both_wait
