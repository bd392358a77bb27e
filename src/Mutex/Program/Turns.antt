-- ===== src/Mutex/Program/Turns.antt =====
-- Which turns the processes of `main` of common/mymutex.c can take between their locks.
use ktrpg.Base.{
  ℕ, ◌≡◌, ◌≢◌, ◌⊎◌, refl, ap, ◌∙◌, inl, inr, Bool, true, false, not, ◌&&◌, ◌==◌, none, some, List,
}
use ktrpg.Mutex.Types.{Thread, Store}
use ktrpg.Mutex.Table.{returned, mutex_at, set_mutex, pthread_mutex_lock}
use ktrpg.Mutex.Lock.Owners.{owner_of}
use ktrpg.Mutex.Stage.{waits, begin_lock}
use ktrpg.Mutex.System.{
  Place, idle, asks_lock, inside_lock, searching, wants, owns, settles, asks_unlock, inside_unlock,
  enter_lock, begin, IsMutex,
}
use ktrpg.Mutex.System.Owned.{in_section}
use ktrpg.Mutex.Program.{
  Command, Processes, Turn, goes_on, takes_lock, takes_action, can_run, sleeps, child_no,
}
use ktrpg.Mutex.Program.Asks.{asks, ==→≡}
use ktrpg.Mutex.Program.Between.{Between}
use ktrpg.Mutex.Program.Movers.{WaitsFor}

-- Some process can take a turn.
abbrev pub CanTurn : (fuel : ℕ) (who : ℕ → Thread) → Processes → Type 0
CanTurn fuel who q = (z : Processes) × Turn fuel who q z

-- A process asks for BEFORELOCK in its call for `b`, or waits for `b`.
abbrev pub Pauses : ℕ → ℕ → Processes → Type 0
Pauses n b q =
    (in_section (q.system.local n).place ≡ false)
    × (WaitsFor n b q ⊎ ((c : List ℕ) × ((q.system.local n).place ≡ asks_lock b c)))

lock_free :
    (th : Thread) (s : Store)
    → owner_of s 0 ≡ none
    → pthread_mutex_lock th 0 s
      ≡ returned (set_mutex 0 (record (mutex_at s 0) { owner = some th }) s)
unfolding pthread_mutex_lock
lock_free th s free = rw (free, pthread_mutex_lock) refl

module _ (fuel : ℕ) (who : ℕ → Thread) (q : Processes) (alive : q.killed ≡ false) where
  can : (n : ℕ) → can_run q n ≡ true
  can n = ap (λ k. not (k && (n == child_no))) alive

  pub move_or_stay :
      (n a b i : ℕ) (bb : Bool) (c : List ℕ) (more : List Command) (s' : Store)
      → Between n a b c more q
      → IsMutex b
      → begin_lock fuel (who n) b q.system.store ≡ waits i bb s'
      → (q.system.local n).place ≢ searching
      → CanTurn fuel who q ⊎ Pauses n b q
  move_or_stay n a b i bb c more s' between ok begun awake = elim between.next [
    | inl (out, inl r) ↦ inl (_, takes_action n (sleeps 1) _ (can n) out r refl)
    | inl (out, inr r) ↦ inl (_, takes_lock n b c more (can n) out r ok refl)
    | inr (h, r) ↦ by_place (q.system.local n).place refl h
  ]
    where
      by_place :
          (pl : Place)
          → (q.system.local n).place ≡ pl
          → asks b pl ≡ true
          → CanTurn fuel who q ⊎ Pauses n b q
      by_place idle e h = cc
      by_place (asks_lock u c') e h =
          inr (ap in_section e, inr (c', e ∙ ap (λ k. asks_lock k c') (==→≡ u b h)))
      by_place (inside_lock u c') e h = inl (
        _,
        goes_on n _ _ (can n) (λ k. cc (e, k))
            (begin b i bb c' (e ∙ ap (λ k. inside_lock k c') (==→≡ u b h)) begun refl) refl,
      )
      by_place searching e h = absurd (awake e)
      by_place (wants u j b' c') e h =
          inr (ap in_section e, inl (j, b', c', e ∙ ap (λ k. wants k j b' c') (==→≡ u b h)))
      by_place (owns u j b' c') e h = cc
      by_place (settles u j b' c') e h = cc
      by_place (asks_unlock u) e h = cc
      by_place (inside_unlock u) e h = cc

  -- BEFORELOCK, where it is free, can be taken.
  enters :
      (n b : ℕ) (c : List ℕ)
      → (q.system.local n).place ≡ asks_lock b c
      → owner_of q.system.store 0 ≡ none
      → CanTurn fuel who q
  enters n b c e free = (
    _,
    goes_on n _ _ (can n) (λ k. cc (e, k))
        (enter_lock b c e (lock_free (who n) q.system.store free) refl) refl,
  )

  pub move_or_rest :
      (n b : ℕ)
      → Pauses n b q
      → owner_of q.system.store 0 ≡ none
      → CanTurn fuel who q ⊎ WaitsFor n b q
  move_or_rest n b (section, inl w) free = inr w
  move_or_rest n b (section, inr (c, e)) free = inl (enters n b c e free)
