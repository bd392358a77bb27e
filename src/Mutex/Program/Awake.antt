-- ===== src/Mutex/Program/Awake.antt =====
-- The searches for a deadlock in the second locks of `main` of common/mymutex.c all end.
use ktrpg.Base.{
  ℕ, ◌≤◌, ◌<◌, ◌≡◌, ◌≢◌, ◌⊎◌, refl, ap, sym, subst, ◌∙◌, inl, inr, Bool, true, none, List, length,
  arith, ℕ_discrete,
}
use ktrpg.Mutex.Types.{
  Thread, Store, mymutex_type_max, mymutex_type_account, mymutex_type_dbque, max_mutex_getter_num,
}
use ktrpg.Mutex.Stage.{spins, waits, begin_lock}
use ktrpg.Mutex.System.{
  Place, idle, asks_lock, inside_lock, searching, wants, owns, settles, asks_unlock, inside_unlock,
  Local, Move, call_lock, enter_lock, give_up, hang, begin, take, return_to, end, call_unlock,
  enter_unlock, leave, IsMutex,
}
use ktrpg.Mutex.System.Flags.{asks_for}
use ktrpg.Mutex.System.Invariant.{AreDistinct}
use ktrpg.Mutex.System.Progress.{update_self}
use ktrpg.Mutex.System.Good.{Good}
use ktrpg.Mutex.Program.{
  Command, Processes, Turn, goes_on, takes_lock, takes_unlock, takes_action, Runs, after_fork,
  has_got, parent_no, child_no,
}
use ktrpg.Mutex.Program.Answers.{answers_no, answers_yes}
use ktrpg.Mutex.Program.Asks.{asks, ==→≡}
use ktrpg.Mutex.Program.Between.{Between, mover, standing-others}
use ktrpg.Mutex.Program.Spec.{Crossed, Crossed-Good}
use ktrpg.Mutex.Program.Movers.{WaitsFor}
use ktrpg.Mutex.Program.Reports.{enough_here}

-- Neither process is in a search for a deadlock that never ends.
abbrev pub Awake : Processes → Type 0
Awake p =
    ((p.system.local parent_no).place ≢ searching) × ((p.system.local child_no).place ≢ searching)

-- A thread comes into a search that never ends only from inside BEFORELOCK.
Move-hangs :
    (fuel : ℕ) (th : Thread) (l l' : Local) (s s' : Store)
    → l'.place ≡ searching
    → Move fuel has_got th l s l' s'
    → (t : ℕ) × (comment : List ℕ) × (l.place ≡ inside_lock t comment)
      × (begin_lock fuel th t s ≡ spins)
Move-hangs fuel th l l' s s' w (call_lock t' c q ok e e') = cc
Move-hangs fuel th l l' s s' w (enter_lock t' c q e e') = cc
Move-hangs fuel th l l' s s' w (give_up t' c q e e') = cc
Move-hangs fuel th l l' s s' w (hang t' c q e e' e'') = (t', c, q, e)
Move-hangs fuel th l l' s s' w (begin t' i' b' c q e e') = cc
Move-hangs fuel th l l' s s' w (take t' i' b' c q e e') = cc
Move-hangs fuel th l l' s s' w (return_to t' i' b' c q e e') = cc
Move-hangs fuel th l l' s s' w (end t' i' b' c q e e') = cc
Move-hangs fuel th l l' s s' w (call_unlock t' q ok h e e') = cc
Move-hangs fuel th l l' s s' w (enter_unlock t' q e e') = cc
Move-hangs fuel th l l' s s' w (leave t' q e e') = cc

mover-hangs :
    (fuel : ℕ) (who : ℕ → Thread) (r p : Processes) (turn : Turn fuel who r p)
    → (p.system.local (mover turn)).place ≡ searching
    → (t : ℕ) × (comment : List ℕ) × ((r.system.local (mover turn)).place ≡ inside_lock t comment)
      × (begin_lock fuel (who (mover turn)) t r.system.store ≡ spins)
mover-hangs fuel who r p (goes_on n l s c ne m e) w =
    Move-hangs fuel (who n) (r.system.local n) l r.system.store s
      (sym (
          ap (λ (x : Processes). (x.system.local n).place) e
          ∙ ap (λ (x : Local). x.place) (update_self r.system.local n l))
        ∙ w)
      m
mover-hangs fuel who r p (takes_lock n u c' more c pl k ok e) w =
    let at_n : (p.system.local n).place ≡ asks_lock u c' =
      ap (λ (x : Processes). (x.system.local n).place) e
      ∙ ap (λ (x : Local). x.place) (update_self r.system.local n _) in
    cc (at_n, w)
mover-hangs fuel who r p (takes_unlock n u c' more c pl k ok e) w =
    let at_n : (p.system.local n).place ≡ asks_unlock u =
      ap (λ (x : Processes). (x.system.local n).place) e
      ∙ ap (λ (x : Local). x.place) (update_self r.system.local n _) in
    cc (at_n, w)
mover-hangs fuel who r p (takes_action n a more c pl k e) w = cc (pl, w, e)

-- A process between its locks asks for nothing yet, or waits for its second mutex.
pub asking_or_waits :
    (n a b : ℕ) (comment : List ℕ) (more : List Command) (p : Processes)
    → Between n a b comment more p
    → (asks_for (p.system.local n).place ≡ none) ⊎ WaitsFor n b p
asking_or_waits n a b comment more p between = elim between.next [
  | inl (q, r) ↦ inl (ap asks_for q)
  | inr (h, r) ↦ by_place (p.system.local n).place refl h
]
  where
    by_place :
        (pl : Place)
        → (p.system.local n).place ≡ pl
        → asks b pl ≡ true
        → (asks_for (p.system.local n).place ≡ none) ⊎ WaitsFor n b p
    by_place idle e h = inl (ap asks_for e)
    by_place (asks_lock u c) e h = inl (ap asks_for e)
    by_place (inside_lock u c) e h = inl (ap asks_for e)
    by_place searching e h = inl (ap asks_for e)
    by_place (wants u i b' c) e h = inr (i, b', c, e ∙ ap (λ k. wants k i b' c) (==→≡ u b h))
    by_place (owns u i b' c) e h = cc
    by_place (settles u i b' c) e h = cc
    by_place (asks_unlock u) e h = cc
    by_place (inside_unlock u) e h = cc

module _ (fuel : ℕ) (who : ℕ → Thread) (s : Store) (distinct : AreDistinct who)
    (room : mymutex_type_max ≤ length s.mmutex) (enough : max_mutex_getter_num < fuel) where
  abbrev start : Processes
  start = after_fork true s

  module _ (q : Processes) (run : Runs fuel who start q) (crossed : Crossed q) where
    good : Good who start.system q.system
    good = Crossed-Good fuel who s distinct room q run crossed

    -- The search of a process between its locks has an answer.
    answered :
        (n m a b : ℕ) (c c' : List ℕ) (more more' : List Command)
        → n ≢ m
        → IsMutex b
        → Between n a b c more q
        → Between m b a c' more' q
        → (i : ℕ) × (bb : Bool) × (s' : Store) × (begin_lock fuel (who n) b q.system.store
            ≡ waits i bb s')
    answered n m a b c c' more more' ne ok mine theirs =
        elim (asking_or_waits m b a c' more' q theirs) [
          | inl none_asked ↦
              answers_no fuel who start.system q.system good distinct
                (enough_here fuel who s distinct room enough) n m a b ne mine.has theirs.has ok
                none_asked
          | inr (j, b', c'', w) ↦
              answers_yes fuel who start.system q.system good distinct
                (enough_here fuel who s distinct room enough) n m a b ne mine.has theirs.has ok j b'
                c'' w
        ]

    pub parent_answered :
        (i : ℕ) × (bb : Bool) × (s' : Store) × (begin_lock fuel
            (who 0)
            mymutex_type_dbque
            q.system.store
          ≡ waits i bb s')
    parent_answered =
        answered 0 1 _ mymutex_type_dbque _ _ _ _ (λ e. omega arith)
          ((λ e. omega arith), omega arith) crossed.parent crossed.child

    pub child_answered :
        (i : ℕ) × (bb : Bool) × (s' : Store) × (begin_lock fuel
            (who 1)
            mymutex_type_account
            q.system.store
          ≡ waits i bb s')
    child_answered =
        answered 1 0 _ mymutex_type_account _ _ _ _ (λ e. omega arith)
          ((λ e. omega arith), omega arith) crossed.child crossed.parent

  -- A process whose search has an answer does not come into a search that never ends.
  stays_awake :
      (n a b i : ℕ) (bb : Bool) (c : List ℕ) (more : List Command) (s' : Store) (q z : Processes)
      (turn : Turn fuel who q z)
      → Between n a b c more q
      → begin_lock fuel (who n) b q.system.store ≡ waits i bb s'
      → (q.system.local n).place ≢ searching
      → (z.system.local n).place ≢ searching
  stays_awake n a b i bb c more s' q z turn between begun awake h =
      elim (ℕ_discrete (mover turn) n) [
        | no ne ↦ awake (sym (ap (λ k. k.0.place) (standing-others turn n ne)) ∙ h)
        | yes e ↦
            let (t, c', inside, spinning) =
              subst
                (λ k.
                  (z.system.local k).place ≡ searching
                  → (t : ℕ) × (comment : List ℕ) × ((q.system.local k).place
                      ≡ inside_lock t comment)
                    × (begin_lock fuel (who k) t q.system.store ≡ spins))
                e (mover-hangs fuel who q z turn) h in
            elim between.next [
              | inl (out, r) ↦ cc (out, inside)
              | inr (a', r) ↦
                  let same : t ≡ b = ==→≡ t b (sym (ap (asks b) inside) ∙ a') in
                  cc (spinning, begun, ap (λ u. begin_lock fuel (who n) u q.system.store) same)
            ]
      ]

  pub Turn-Awake :
      (q z : Processes) → Runs fuel who start q → Crossed q → Turn fuel who q z → Awake q → Awake z
  Turn-Awake q z run crossed turn (parent, child) =
      let (i, bb, s', begun) = parent_answered q run crossed in
      let (j, bb', s'', begun') = child_answered q run crossed in
      (
        stays_awake 0 _ _ i bb _ _ s' q z turn crossed.parent begun parent,
        stays_awake 1 _ _ j bb' _ _ s'' q z turn crossed.child begun' child,
      )
