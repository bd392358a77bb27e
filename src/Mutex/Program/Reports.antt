-- ===== src/Mutex/Program/Reports.antt =====
-- What the log says of the deadlock of `main` of common/mymutex.c.
use ktrpg.Base.{
  ℕ, ◌<◌, ◌≤◌, ◌≡◌, ◌≢◌, ◌⊎◌, ap, sym, subst, ◌∙◌, inl, inr, Bool, true, List, [], ◌∷◌, ◌++◌,
  length, arith,
}
use ktrpg.Mutex.Types.{
  Thread, Note, dead_lock, Store, mymutex_type_max, mymutex_type_account, mymutex_type_dbque,
  max_mutex_getter_num,
}
use ktrpg.Mutex.Stage.{waits, begin_lock}
use ktrpg.Mutex.System.{inside_lock, wants, Local, System, IsMutex}
use ktrpg.Mutex.System.Invariant.{AreDistinct}
use ktrpg.Mutex.System.Blocks.{back, through, Blocks-yes}
use ktrpg.Mutex.System.Good.{Good}
use ktrpg.Mutex.Stage.Asked.{begin_lock-Asked}
use ktrpg.Mutex.Program.{Processes, Turn, Runs, here, later, after_fork, parent_no, child_no}
use ktrpg.Mutex.Program.Between.{mover, standing-others}
use ktrpg.Mutex.Init.{init_mymutex}
use ktrpg.Mutex.Program.Movers.{WaitsFor, mover-begins, mover_is_one, mover-waits}
use ktrpg.Mutex.Program.Reached.{Runs-pending, Turn-pending}
use ktrpg.Mutex.Program.Spec.{Crossed, Crossed-Good, Crossed-pending, pending-Good}

-- The parent waits for DBQUE and the child for ACCOUNT.
abbrev pub BothWait : Processes → Type 0
BothWait p = WaitsFor parent_no mymutex_type_dbque p × WaitsFor child_no mymutex_type_account p

-- The last of the lines that the mutex functions have logged with LOG_ERR or LOG_WARNING tells of a
-- deadlock of the parent or of the child.
abbrev pub Told : (ℕ → Thread) → Store → Type 0
Told who s =
    (notes : List Note) × ((s.notes ≡ notes ++ (dead_lock (who parent_no) ∷ []))
      ⊎ (s.notes ≡ notes ++ (dead_lock (who child_no) ∷ [])))

module _ (fuel : ℕ) (who : ℕ → Thread) (x r : System) (good : Good who x r)
    (distinct : AreDistinct who) (enough : length x.store.mmgetter < fuel) where
  -- A process that asks for a mutex of one that waits for its own is told of the deadlock.
  tells :
      (n m a b i j : ℕ) (bb b' : Bool) (comment comment' : List ℕ) (s' : Store)
      → n ≢ m
      → (r.local n).has a ≡ true
      → (r.local m).has b ≡ true
      → (r.local m).place ≡ wants a j b' comment'
      → IsMutex b
      → begin_lock fuel (who n) b r.store ≡ waits i bb s'
      → (notes : List Note) × (s'.notes ≡ notes ++ (dead_lock (who n) ∷ []))
  tells n m a b i j bb b' comment comment' s' ne has_n has_m place_m ok begun =
      let (k, found, (table, answer)) =
        Blocks-yes fuel who r n b distinct good.inv good.own good.unique good.slotted good.kept
          (subst (λ z. z < fuel) (sym good.size) enough)
          (through m a j b' comment' ne has_m place_m (back has_n)) in
      let (s'', begun', told) =
        begin_lock-Asked fuel (who n) b k r.store r.store.mmgetter true table found
          (good.slotted.types b ok.0 ok.1) answer in
      let same : s' ≡ s'' = cc (begun, begun') in (_, ap (λ (z : Store). z.notes) same ∙ told.notes)

module _ (fuel : ℕ) (who : ℕ → Thread) (s : Store) (distinct : AreDistinct who)
    (room : mymutex_type_max ≤ length s.mmutex) (enough : max_mutex_getter_num < fuel) where
  abbrev start : Processes
  start = after_fork true s

  pub enough_here : length start.system.store.mmgetter < fuel
  unfolding init_mymutex
  enough_here = enough

  -- The turn after which both wait for each other.
  one_tells :
      (r p : Processes) (turn : Turn fuel who r p) (n m a b : ℕ)
      → Good who start.system r.system
      → mover turn ≡ n
      → n ≢ m
      → (p.system.local n).has a ≡ true
      → (p.system.local m).has b ≡ true
      → WaitsFor n b p
      → WaitsFor m a p
      → IsMutex b
      → (notes : List Note) × (p.system.store.notes ≡ notes ++ (dead_lock (who n) ∷ []))
  one_tells r p turn n m a b good is_n ne has_n has_m (i, bb, comment, w) (j, b', comment', w') ok =
      let (inside, begun, kept) =
        subst
          (λ k.
            (p.system.local k).place ≡ wants b i bb comment
            → ((r.system.local k).place ≡ inside_lock b comment)
              × (begin_lock fuel (who k) b r.system.store ≡ waits i bb p.system.store)
              × ((p.system.local k).has ≡ (r.system.local k).has))
          is_n (mover-begins fuel who r p turn b i bb comment) w in
      let same = ap (λ z. z.0) (standing-others turn m (λ e. ne (sym is_n ∙ e))) in
      tells fuel who start.system r.system good distinct enough_here n m a b i j bb b' comment
        comment' p.system.store ne (ap (λ h. h a) (sym kept) ∙ has_n)
        (ap (λ (l : Local). l.has b) (sym same) ∙ has_m)
        (ap (λ (l : Local). l.place) (sym same) ∙ w') ok begun

  last_tells :
      (r p : Processes)
      → Runs fuel who start r
      → Turn fuel who r p
      → Crossed p
      → BothWait p
      → Told who p.system.store
  last_tells r p run turn crossed (parent_waits, child_waits) =
      elim (mover_is_one fuel who s r p turn run) [
        | inl e ↦
            let (notes, told) =
              one_tells r p turn 0 1 mymutex_type_account mymutex_type_dbque good e
                (λ q. omega arith) crossed.parent.has crossed.child.has parent_waits child_waits
                ((λ q. omega arith), omega arith) in
            (notes, inl told)
        | inr e ↦
            let (notes, told) =
              one_tells r p turn 1 0 mymutex_type_dbque mymutex_type_account good e
                (λ q. omega arith) crossed.child.has crossed.parent.has child_waits parent_waits
                ((λ q. omega arith), omega arith) in
            (notes, inr told)
      ]
    where
      good : Good who start.system r.system
      good = pending-Good fuel who s distinct room r run λ n. omega (
        arith,
        Turn-pending fuel who r p turn n,
        Runs-pending fuel who run n,
        Crossed-pending fuel who s distinct room p (later run turn) crossed n,
      )

-- The deadlock of the test is told, and is the end: from what `main` starts after `fork`, once the turns
-- have led to where the parent, with ACCOUNT, waits for DBQUE in its second lock, and the child, with
-- DBQUE, waits for ACCOUNT in its own, the last of the lines that the mutex functions have logged with
-- LOG_ERR or LOG_WARNING tells of a deadlock of one of them, and
-- no process can take a turn any more. The search has one round of fuel more than there are getters,
-- the processes are different, and the memory has room for the mutexes.
pub main_tells :
    (fuel : ℕ) (who : ℕ → Thread) (s : Store) (p : Processes)
    → AreDistinct who
    → mymutex_type_max ≤ length s.mmutex
    → max_mutex_getter_num < fuel
    → Runs fuel who (after_fork true s) p
    → Crossed p
    → BothWait p
    → Told who p.system.store × ((q : Processes) → Turn fuel who p q → ⊥)
main_tells fuel who s p distinct room enough run crossed waiting =
    (told p run crossed waiting, ended)
  where
    told :
        (z : Processes)
        → Runs fuel who (after_fork true s) z
        → Crossed z
        → BothWait z
        → Told who z.system.store
    told z here c ((i, b, comment, w), child_waits) = cc
    told z (later {q = r} before turn) c waits_both =
        last_tells fuel who s distinct room enough r z before turn c waits_both

    ended : (q : Processes) → Turn fuel who p q → ⊥
    ended q turn =
        let good = Crossed-Good fuel who s distinct room p run crossed in
        elim (mover_is_one fuel who s p q turn run) [
          | inl e ↦
              mover-waits fuel who p q turn mymutex_type_dbque (who child_no)
                (subst (λ k. WaitsFor k mymutex_type_dbque p) (sym e) waiting.0)
                (omega (arith, good.inv.room))
                ((good.inv.keep child_no).has mymutex_type_dbque crossed.child.has).1
          | inr e ↦
              mover-waits fuel who p q turn mymutex_type_account (who parent_no)
                (subst (λ k. WaitsFor k mymutex_type_account p) (sym e) waiting.1)
                (omega (arith, good.inv.room))
                ((good.inv.keep parent_no).has mymutex_type_account crossed.parent.has).1
        ]
