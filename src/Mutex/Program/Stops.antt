-- ===== src/Mutex/Program/Stops.antt =====
-- How far the processes of `main` of common/mymutex.c come once each has got its first mutex.
use ktrpg.Base.{
  ℕ, zero, suc, ◌+◌, ◌≤◌, ◌<◌, ◌≡◌, ◌⊎◌, ◌↔◌, ap, inl, inr, true, false, none, List, length, arith,
  Option-cases,
}
use ktrpg.Mutex.Types.{
  Thread, Store, mymutex_type_max, mymutex_type_account, mymutex_type_dbque, max_mutex_getter_num,
}
use ktrpg.Mutex.Lock.Owners.{owner_of}
use ktrpg.Mutex.System.{
  Place, idle, asks_lock, inside_lock, searching, wants, owns, settles, asks_unlock, inside_unlock,
  Local, outside,
}
use ktrpg.Mutex.System.Owned.{in_section}
use ktrpg.Mutex.System.Invariant.{AreDistinct}
use ktrpg.Mutex.System.Good.{Good}
use ktrpg.Mutex.Program.{
  Command, Processes, Turn, Runs, here, later, after_fork, parent_no, child_no,
}
use ktrpg.Mutex.Program.Turns.{CanTurn, move_or_stay, move_or_rest}
use ktrpg.Mutex.Program.Awake.{Awake, Turn-Awake, parent_answered, child_answered}
use ktrpg.Mutex.Program.Asks.{weight}
use ktrpg.Mutex.Program.Between.{Next, standing, standing-others, load}
use ktrpg.Mutex.Program.Spec.{
  Crossed, Crossed-Good, Crossed-turns, Crossed-alive, Runs-Crossed, Runs-append,
}
use ktrpg.Mutex.Program.Movers.{Runs-others, mover_is_one}
use ktrpg.Mutex.Program.Reports.{BothWait, Told, main_tells}

abbrev pub turns : {fuel : ℕ} {who : ℕ → Thread} {p q : Processes} → Runs fuel who p q → ℕ
turns here = 0
turns (later run turn) = suc (turns run)

abbrev bulk : Processes → ℕ
bulk q = load (standing q parent_no) + load (standing q child_no)

weight_bounds : (p : Place) → (0 < weight p) × (weight p ≤ 3)
weight_bounds idle = (omega arith, omega arith)
weight_bounds (asks_lock t c) = (omega arith, omega arith)
weight_bounds (inside_lock t c) = (omega arith, omega arith)
weight_bounds searching = (omega arith, omega arith)
weight_bounds (wants t i b c) = (omega arith, omega arith)
weight_bounds (owns t i b c) = (omega arith, omega arith)
weight_bounds (settles t i b c) = (omega arith, omega arith)
weight_bounds (asks_unlock t) = (omega arith, omega arith)
weight_bounds (inside_unlock t) = (omega arith, omega arith)

Next-load :
    (b : ℕ) (c : List ℕ) (more : List Command) (l : Local) (rest : List Command)
    → Next b c more l rest
    → (length more < load (l, rest)) × (load (l, rest) ≤ length more + 5)
Next-load b c more l rest (inl (out, inl r)) =
    let (least, most) = weight_bounds l.place in
    (omega (arith, ap length r, least), omega (arith, ap length r, most))
Next-load b c more l rest (inl (out, inr r)) =
    let (least, most) = weight_bounds l.place in
    (omega (arith, ap length r, least), omega (arith, ap length r, most))
Next-load b c more l rest (inr (h, r)) =
    let (least, most) = weight_bounds l.place in
    (omega (arith, ap length r, least), omega (arith, ap length r, most))

module _ (fuel : ℕ) (who : ℕ → Thread) (s : Store) (distinct : AreDistinct who)
    (room : mymutex_type_max ≤ length s.mmutex) (enough : max_mutex_getter_num < fuel) where
  abbrev start : Processes
  start = after_fork true s

  Runs-Awake :
      (p : Processes) {q : Processes}
      → Runs fuel who start p
      → Crossed p
      → Awake p
      → Runs fuel who p q
      → Awake q
  Runs-Awake p run crossed awake here = awake
  Runs-Awake p run crossed awake (later {q} {r = z} more turn) =
      Turn-Awake fuel who s distinct room enough q z (Runs-append run more)
        (Runs-Crossed fuel who s distinct room p run crossed more) turn
        (Runs-Awake p run crossed awake more)

  -- BEFORELOCK is free where neither process is inside it.
  beforelock_free :
      (q : Processes)
      → Runs fuel who start q
      → Good who start.system q.system
      → in_section (q.system.local 0).place ≡ false
      → in_section (q.system.local 1).place ≡ false
      → owner_of q.system.store 0 ≡ none
  beforelock_free q run good parent child = elim (Option-cases (owner_of q.system.store 0)) [
    | inl free ↦ free
    | inr (th, o) ↦ let (k, same, within) = good.inv.inside th o in absurd (by_number k within)
  ]
    where
      by_number : (k : ℕ) → in_section (q.system.local k).place ≡ true → ⊥
      by_number zero w = cc
      by_number (suc zero) w = cc
      by_number (suc (suc n)) w = cc (
        w,
        ap (λ k. in_section k.0.place)
            (Runs-others fuel who start q (suc (suc n)) (ap (λ l. (outside, l)) (ground arith))
              run),
      )

  -- Some process can take a turn, or both wait.
  move_or_both :
      (q : Processes)
      → Runs fuel who start q
      → Crossed q
      → Awake q
      → CanTurn fuel who q ⊎ BothWait q
  move_or_both q run crossed (parent_awake, child_awake) =
      let alive = Crossed-alive fuel who s distinct room q run crossed in
      let good = Crossed-Good fuel who s distinct room q run crossed in
      let (i, bb, s', begun) = parent_answered fuel who s distinct room enough q run crossed in
      let (j, bb', s'', begun') = child_answered fuel who s distinct room enough q run crossed in
      elim (move_or_stay fuel who q alive 0 _ mymutex_type_dbque i bb _ _ s' crossed.parent
        ((λ e. omega arith), omega arith) begun parent_awake) [
          | inl goes ↦ inl goes
          | inr parent ↦
              elim (move_or_stay fuel who q alive 1 _ mymutex_type_account j bb' _ _ s''
                crossed.child ((λ e. omega arith), omega arith) begun' child_awake) [
                  | inl goes ↦ inl goes
                  | inr child ↦
                      let free = beforelock_free q run good parent.0 child.0 in
                      elim (move_or_rest fuel who q alive 0 mymutex_type_dbque parent free) [
                        | inl goes ↦ inl goes
                        | inr waits_parent ↦
                            elim (move_or_rest fuel who q alive 1 mymutex_type_account child free) [
                              | inl goes ↦ inl goes
                              | inr waits_child ↦ inr (waits_parent, waits_child)
                            ]
                      ]
                ]
        ]

  Turn-bulk :
      (q z : Processes) → Runs fuel who start q → Crossed q → Turn fuel who q z → bulk z < bulk q
  Turn-bulk q z run crossed turn =
      let ((parent, parent_less), (child, child_less)) =
        Crossed-turns fuel who s distinct room q z run crossed turn in
      elim (mover_is_one fuel who s q z turn run) [
        | inl e ↦
            omega
              (arith, parent_less e, ap load (standing-others turn 1 (λ h. omega (arith, e, h))))
        | inr e ↦
            omega (arith, child_less e, ap load (standing-others turn 0 (λ h. omega (arith, e, h))))
      ]

  Runs-bulk :
      (p : Processes) {q : Processes}
      → Runs fuel who start p
      → Crossed p
      → (more : Runs fuel who p q) → turns more + bulk q ≤ bulk p
  Runs-bulk p run crossed here = omega arith
  Runs-bulk p run crossed (later {q} {r = z} more turn) = omega (
    arith,
    Runs-bulk p run crossed more,
    Turn-bulk q z (Runs-append run more) (Runs-Crossed fuel who s distinct room p run crossed more)
        turn,
  )

-- The deadlock of the test comes, is told, and is the end: from what `main` starts after `fork`, once the
-- turns have led to where the parent has got ACCOUNT and the child DBQUE, neither has returned from its
-- second lock, and neither is in a search that never ends, no more than eight turns follow; they stop
-- exactly where the parent waits for DBQUE and the child for ACCOUNT; and there the last of the lines
-- that the mutex functions have logged with LOG_ERR or LOG_WARNING tells of a deadlock of one of them;
-- what they log with LOG_TEST is not among these. The search has one round of fuel more than there are
-- getters, the processes are different, and the memory has room for the mutexes.
pub main_stops :
    (fuel : ℕ) (who : ℕ → Thread) (s : Store) (p q : Processes)
    → AreDistinct who
    → mymutex_type_max ≤ length s.mmutex
    → max_mutex_getter_num < fuel
    → Runs fuel who (after_fork true s) p
    → Crossed p
    → Awake p
    → (more : Runs fuel who p q)
    → (turns more ≤ 8)
      × (((z : Processes) → Turn fuel who q z → ⊥) ↔ BothWait q)
      × (BothWait q → Told who q.system.store)
main_stops fuel who s p q distinct room enough run crossed awake more =
    let crossed' = Runs-Crossed fuel who s distinct room p run crossed more in
    let run' = Runs-append run more in
    let told = main_tells fuel who s q distinct room enough run' crossed' in
    (
      omega (
        arith,
        Runs-bulk fuel who s distinct room enough p run crossed more,
        (Next-load _ _ _ (p.system.local 0) (p.rest 0) crossed.parent.next).1,
        (Next-load _ _ _ (p.system.local 1) (p.rest 1) crossed.child.next).1,
        (Next-load _ _ _ (q.system.local 0) (q.rest 0) crossed'.parent.next).0,
        (Next-load _ _ _ (q.system.local 1) (q.rest 1) crossed'.child.next).0,
      ),
      (
        λ stopped.
            elim (move_or_both fuel who s distinct room enough q run' crossed'
              (Runs-Awake fuel who s distinct room enough p run crossed awake more)) [
                | inl (z, turn) ↦ absurd (stopped z turn)
                | inr both ↦ both
              ],
        λ both. (told both).1,
      ),
      λ both. (told both).0,
    )
