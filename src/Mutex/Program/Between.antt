-- ===== src/Mutex/Program/Between.antt =====
-- A process of `main` of common/mymutex.c between its first lock and the return of its second.
use ktrpg.Base.{
  ℕ, ◌+◌, ◌<◌, ◌≡◌, ◌≢◌, ◌⊎◌, ap, sym, subst, ◌∙◌, inl, inr, true, ◌==◌, some, List, ◌∷◌, length,
  arith, ℕ_discrete,
}
use ktrpg.Mutex.Types.{Thread, Getter}
use ktrpg.Mutex.Table.{obtain_getter}
use ktrpg.Mutex.Lock.Owners.{owner_of}
use ktrpg.Mutex.System.{idle, asks_lock, Local, at, update}
use ktrpg.Mutex.Program.Asks.{asks, weight, Move-asks}
use ktrpg.Mutex.System.Progress.{update_self}
use ktrpg.Mutex.Program.{
  Command, locks, does, sleeps, Processes, Turn, goes_on, takes_lock, takes_unlock, takes_action,
}

abbrev pub load : Local × List Command → ℕ
load (l, rest) = length rest + weight l.place

-- What a process has still to do at `l` once it has got the first mutex: to sleep and to ask for
-- `second`, or to ask for it, or it is in that call; `more` is what comes after.
abbrev pub Next : (second : ℕ) → List ℕ → List Command → Local → List Command → Type 0
Next second comment more l rest =
    (l.place ≡ idle)
      × ((rest ≡ does (sleeps 1) ∷ (locks second comment ∷ more))
          ⊎ (rest ≡ locks second comment ∷ more))
    ⊎ ((asks second l.place ≡ true) × (rest ≡ more))

-- Process `n` has got `first`, and has not returned from its call for `second`.
pub record Between (n first second : ℕ) (comment : List ℕ) (more : List Command) (p : Processes)
    : Type 0 where
  pub has : (p.system.local n).has first ≡ true
  pub next : Next second comment more (p.system.local n) (p.rest n)

abbrev pub mover : {fuel : ℕ} {who : ℕ → Thread} {p q : Processes} → Turn fuel who p q → ℕ
mover (goes_on n l s c ne m e) = n
mover (takes_lock n t comment more c pl r ok e) = n
mover (takes_unlock n t comment more c pl r ok e) = n
mover (takes_action n a more c pl r e) = n

-- Where a process is, and what it has still to do.
abbrev pub standing : Processes → ℕ → Local × List Command
standing p n = (p.system.local n, p.rest n)

update_ne : {A : Type 0} (f : ℕ → A) (k n : ℕ) (v : A) → k ≢ n → update f k v n ≡ f n
update_ne f k n v ne = ground (arith, ne)

pub standing-others :
    {fuel : ℕ} {who : ℕ → Thread} {p q : Processes} (turn : Turn fuel who p q) (n : ℕ)
    → mover turn ≢ n
    → standing q n ≡ standing p n
standing-others {p = p} (goes_on k l s c nidle m e) n ne =
    ap (λ x. standing x n) e ∙ ap (λ a. (a, p.rest n)) (update_ne p.system.local k n l ne)
standing-others {p = p} (takes_lock k t comment more c pl r ok e) n ne =
    ap (λ x. standing x n) e
    ∙ ap (λ a. (a, update p.rest k more n)) (update_ne p.system.local k n _ ne)
    ∙ ap (λ a. (p.system.local n, a)) (update_ne p.rest k n more ne)
standing-others {p = p} (takes_unlock k t comment more c pl r ok e) n ne =
    ap (λ x. standing x n) e
    ∙ ap (λ a. (a, update p.rest k more n)) (update_ne p.system.local k n _ ne)
    ∙ ap (λ a. (p.system.local n, a)) (update_ne p.rest k n more ne)
standing-others {p = p} (takes_action k a more c pl r e) n ne =
    ap (λ x. standing x n) e ∙ ap (λ b. (p.system.local n, b)) (update_ne p.rest k n more ne)

module _ (fuel : ℕ) (who : ℕ → Thread) (first second : ℕ) (comment : List ℕ)
    (more : List Command) where
  abbrev Stands : Local × List Command → Type 0
  Stands x = (x.0.has first ≡ true) × Next second comment more x.0 x.1

  Between-at :
      (n : ℕ) (q : Processes) (x : Local × List Command)
      → standing q n ≡ x
      → Stands x
      → Between n first second comment more q
  Between-at n q x e b = let b' = subst Stands (sym e) b in record { has = b'.0; next = b'.1 }

  the_type :
      {t : ℕ} {c : List ℕ} {rest more' : List Command}
      → rest ≡ locks t c ∷ more'
      → rest ≡ locks second comment ∷ more
      → t ≡ second
  the_type r r' = cc

  Gets-on :
      (n : ℕ) (p q : Processes) (x : Local × List Command)
      → standing q n ≡ x
      → Stands x
      → load x < load (standing p n)
      → Between n first second comment more q × (load (standing q n) < load (standing p n))
  Gets-on n p q x e b less = (Between-at n q x e b, omega (arith, less, ap load e))

  Between-mover :
      (i : ℕ) (gs : List Getter) (o : Thread) (p q : Processes) (turn : Turn fuel who p q)
      → second < length p.system.store.mmutex
      → owner_of p.system.store second ≡ some o
      → obtain_getter (who (mover turn)) second p.system.store.mmgetter ≡ some (i, gs)
      → Between (mover turn) first second comment more p
      → Between (mover turn) first second comment more q
        × (load (standing q (mover turn)) < load (standing p (mover turn)))
  Between-mover i gs o p q (goes_on n l s c ne m e) lt taken found b = elim b.next [
    | inl (idle_now, r) ↦ absurd (ne idle_now)
    | inr (a, r) ↦
        let (a', kept, less) =
          Move-asks fuel (who n) second i p.system.store gs lt o taken found (p.system.local n) l s
            a m in
        Gets-on n p q (l, p.rest n)
          (ap (λ x. standing x n) e ∙ ap (λ k. (k, p.rest n)) (update_self p.system.local n l))
          (ap (λ h. h first) kept ∙ b.has, inr (a', r)) (omega (arith, less))
  ]
  Between-mover i gs o p q (takes_lock n t c' more' c pl r ok e) lt taken found b = elim b.next [
    | inl (idle_now, inl r') ↦ cc
    | inl (idle_now, inr r') ↦
        Gets-on n p q (at (asks_lock t c') (p.system.local n), more')
          (ap (λ x. standing x n) e
            ∙ ap (λ k. (k, update p.rest n more' n)) (update_self p.system.local n _)
            ∙ ap (λ k. (at (asks_lock t c') (p.system.local n), k)) (update_self p.rest n more'))
          (b.has, inr (ap (λ u. u == second) (the_type r r') ∙ ground arith, cc (r, r')))
          (omega (arith, ap length r, ap weight pl))
    | inr (a, r') ↦ absurd (cc (a, pl))
  ]
  Between-mover i gs o p q (takes_unlock n t c' more' c pl r ok e) lt taken found b = elim b.next [
    | inl (idle_now, inl r') ↦ cc
    | inl (idle_now, inr r') ↦ cc
    | inr (a, r') ↦ absurd (cc (a, pl))
  ]
  Between-mover i gs o p q (takes_action n a more' c pl r e) lt taken found b = elim b.next [
    | inl (idle_now, inl r') ↦
        Gets-on n p q (p.system.local n, more')
          (ap (λ x. standing x n) e ∙ ap (λ k. (p.system.local n, k)) (update_self p.rest n more'))
          (b.has, inl (pl, inr (cc (r, r')))) (omega (arith, ap length r))
    | inl (idle_now, inr r') ↦ cc
    | inr (a, r') ↦ absurd (cc (a, pl))
  ]

  -- A turn of any process leaves the process between its locks, while somebody owns the second mutex; its
  -- own turn gets it on.
  pub Turn-Between :
      (n i : ℕ) (gs : List Getter) (o : Thread) (p q : Processes) (turn : Turn fuel who p q)
      → second < length p.system.store.mmutex
      → owner_of p.system.store second ≡ some o
      → obtain_getter (who n) second p.system.store.mmgetter ≡ some (i, gs)
      → Between n first second comment more p
      → Between n first second comment more q
        × (mover turn ≡ n → load (standing q n) < load (standing p n))
  Turn-Between n i gs o p q turn lt taken found b = elim (ℕ_discrete (mover turn) n) [
    | yes e ↦
        let (b', less) =
          subst
            (λ k.
              obtain_getter (who k) second p.system.store.mmgetter ≡ some (i, gs)
              → Between k first second comment more p
              → Between k first second comment more q × (load (standing q k) < load (standing p k)))
            e (Between-mover i gs o p q turn lt taken) found b in
        (b', λ e'. less)
    | no ne ↦ (
      Between-at n q (standing p n) (standing-others turn n ne) (b.has, b.next),
      λ e. absurd (ne e),
    )
  ]
