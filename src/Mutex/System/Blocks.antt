-- ===== src/Mutex/System/Blocks.antt =====
-- Threads of which each waits for what another has got, in the getters of common/mymutex.c.
use ktrpg.Base.{
  ℕ, zero, suc, ◌<◌, ◌≡◌, ◌≢◌, refl, ap, sym, subst, ◌∙◌, inl, inr, Bool, true, not, ◌&&◌, some,
  List, length, arith, ◌==◌, any, Option-cases, find_index, find_index-none, find_index-set,
  find_last_index-none, get_or-set_self, get_or-set_ne,
}
use ktrpg.Base.{length-set}
use ktrpg.Mutex.Deadlock.{is_dead_lock}
use ktrpg.Mutex.Deadlock.Complete.{is_dead_lock_complete}
use ktrpg.Mutex.Stage.Getters.{obtain_getter-own}
use ktrpg.Mutex.Types.{Thread, Getter, blank_getter}
use ktrpg.Mutex.Deadlock.{getter_at, holds, next_holder}
use ktrpg.Mutex.Deadlock.Chain.{holder_of, Chain, arrive, follow, any-nonzero}
use ktrpg.Mutex.Deadlock.Sound.{Cycle}
use ktrpg.Mutex.Table.{is_of, lock_getter, obtain_getter}
use ktrpg.Mutex.Identity.{Unique}
use ktrpg.Mutex.Lock.Acquire.{asking}
use ktrpg.Mutex.Stage.Flags.{flags, flags_at}
use ktrpg.Mutex.System.{wants, System}
use ktrpg.Mutex.System.Invariant.{AreDistinct, Inv}
use ktrpg.Mutex.System.Getters.{IsOwn, works_on, is_of-same}
use ktrpg.Mutex.System.Slots.{Slotted, in_table, is_of-used}
use ktrpg.Mutex.System.Ring.{thread_of, next_holder-owner}
use ktrpg.Mutex.System.Noted.{Marks}
use ktrpg.Mutex.System.Noted.Reached.{Kept}

-- `Blocks x n k t`: thread `n` has got the mutex `t`, or another thread has got it that waits for a
-- mutex from which it goes on so, through `k` threads in all.
pub data Blocks (x : System) (n : ℕ) : ℕ → ℕ → Type 0 where
  back : {t : ℕ} → (x.local n).has t ≡ true → Blocks x n zero t
  through :
      {k t : ℕ} (m u i : ℕ) (b : Bool) (comment : List ℕ)
      → n ≢ m
      → (x.local m).has t ≡ true
      → (x.local m).place ≡ wants u i b comment
      → Blocks x n k u
      → Blocks x n (suc k) t

holds-next_holder :
    (th : Thread) (t : ℕ) (g : Getter)
    → t ≢ 0
    → is_of th g ≡ true
    → holds t g.get_mutex_type ≡ true
    → next_holder t g ≡ true
holds-next_holder th t g ne mine h =
    let found : any (λ x. not (x == 0) && (x == t)) g.get_mutex_type ≡ true =
      any-nonzero t g.get_mutex_type ne ∙ h in
    ground (arith, found, is_of-used th g mine)

-- A thread with a getter is found in the table, which stays.
pub obtain_getter-found :
    (th : Thread) (t j : ℕ) (mmgs : List Getter)
    → j < length mmgs
    → is_of th (getter_at mmgs j) ≡ true
    → (i : ℕ) × (obtain_getter th t mmgs ≡ some (i, mmgs))
unfolding obtain_getter
obtain_getter-found th t j mmgs lt mine = elim (Option-cases (lock_getter th mmgs)) [
  | inr (k, e) ↦ (k, rw (e, obtain_getter) refl)
  | inl e ↦ absurd (cc (mine, find_last_index-none (is_of th) mmgs blank_getter j e lt))
]

module _ (who : ℕ → Thread) (distinct : AreDistinct who) (y : System) (inv : Inv who y)
    (own : (n : ℕ) → IsOwn (who n) y.store.mmgetter (y.local n).place)
    (unique : Unique y.store.mmgetter) (sl : Slotted y.store) (kept : Kept who y) where
  pub same_getter :
      (m j k : ℕ)
      → is_of (who m) (getter_at y.store.mmgetter j) ≡ true
      → is_of (who m) (getter_at y.store.mmgetter k) ≡ true
      → j ≡ k
  same_getter m j k oj ok =
      unique j k (who m)
        (in_table y.store.mmgetter j (is_of-used (who m) (getter_at y.store.mmgetter j) oj))
        (in_table y.store.mmgetter k (is_of-used (who m) (getter_at y.store.mmgetter k) ok)) oj ok

  -- The search finds the getter of the thread that has got the mutex.
  pub finds :
      (m t : ℕ)
      → (y.local m).has t ≡ true
      → (j : ℕ) × (is_of (who m) (getter_at y.store.mmgetter j) ≡ true)
        × (find_index (next_holder t) y.store.mmgetter ≡ some j)
  finds m t h =
      let (j, oj, hj) = kept.noted m t h in
      let (ok, owner) = (inv.keep m).has t h in
      elim (Option-cases (find_index (next_holder t) y.store.mmgetter)) [
        | inl e ↦ absurd (
            cc (
              holds-next_holder (who m) t (getter_at y.store.mmgetter j) ok.0 oj hj,
              find_index-none (next_holder t) y.store.mmgetter blank_getter j e (
                  in_table y.store.mmgetter j
                    (is_of-used (who m) (getter_at y.store.mmgetter j) oj)),
            ))
        | inr (k, e) ↦
            let (lt, mine, owned) = next_holder-owner y.store t k sl e in
            let same : thread_of (getter_at y.store.mmgetter k) ≡ who m = cc (owner, owned) in
            let mine' = subst (λ th. is_of th (getter_at y.store.mmgetter k) ≡ true) same mine in
            (j, oj, e ∙ ap some (same_getter m k j mine' oj))
      ]

  module _ (n t i : ℕ) (mine : is_of (who n) (getter_at y.store.mmgetter i) ≡ true) where
    abbrev pub table : List Getter
    table = asking i t y.store.mmgetter

    -- The search in the table once `n` has asked for `t`.
    pub in_asking :
        (u j : ℕ)
        → find_index (next_holder u) y.store.mmgetter ≡ some j
        → find_index (next_holder u) table ≡ some j
    in_asking u j e = find_index-set (next_holder u) y.store.mmgetter i _ blank_getter refl ∙ e

    pub at_me :
        getter_at table i
        ≡ record (getter_at y.store.mmgetter i) { is_waited = true; wait_mutex_type = t }
    at_me =
        get_or-set_self y.store.mmgetter i _ blank_getter
          (in_table y.store.mmgetter i (is_of-used (who n) (getter_at y.store.mmgetter i) mine))

    Blocks-Chain :
        {k u : ℕ}
        → Blocks y n k u
        → (j : ℕ) × (find_index (next_holder u) table ≡ some j) × Chain table i k j
    unfolding holder_of
    Blocks-Chain {k} {u} (back h) =
        let (j, oj, e) = finds n u h in
        let me : j ≡ i = same_getter n j i oj mine in
        (
          j,
          in_asking u j e,
          arrive me (ap (λ x. (getter_at table x).is_waited) me ∙ ap (λ g. g.is_waited) at_me),
        )
    Blocks-Chain {k} {u} (through m u' i' b' comment ne h p rest) =
        let (j, oj, e) = finds m u h in
        let (j', e', c) = Blocks-Chain rest in
        let same : i' ≡ j = same_getter m i' j (own m i' (ap works_on p)).1 oj in
        let other : i ≢ j = λ q. ne (
          distinct n m (
            is_of-same (who n) (who m) (getter_at y.store.mmgetter j)
              (subst (λ x. is_of (who n) (getter_at y.store.mmgetter x) ≡ true) q mine) oj)) in
        let marked : flags_at table j ≡ (true, u') =
          ap flags (get_or-set_ne y.store.mmgetter i j _ blank_getter other)
          ∙ ap (flags_at y.store.mmgetter) (sym same)
          ∙ subst (Marks y.store.mmgetter) p (kept.marks m) in
        (
          j,
          in_asking u j e,
          follow (λ q. other (sym q)) (ap (λ f. f.0) marked)
              (ap (λ (f : Bool × ℕ). find_index (next_holder f.1) table) marked ∙ e') c,
        )

    pub Blocks-Cycle : {k : ℕ} → Blocks y n k t → Cycle table i
    unfolding holder_of
    Blocks-Cycle {k} b =
        let (j, e, c) = Blocks-Chain b in
        record {
          first = j;
          steps = k;
          held = ap (λ (g : Getter). find_index (next_holder g.wait_mutex_type) table) at_me ∙ e;
          back = c;
        }

-- The last thread that waits has a getter.
pub Blocks-getter :
    (who : ℕ → Thread) (y : System) (n : ℕ) {k t : ℕ}
    → Kept who y
    → Blocks y n k t
    → (j : ℕ) × (is_of (who n) (getter_at y.store.mmgetter j) ≡ true)
Blocks-getter who y n {k} {t} kept (back h) = let (j, oj, hj) = kept.noted n t h in (j, oj)
Blocks-getter who y n kept (through m u i b comment ne h p rest) = Blocks-getter who y n kept rest

-- The search answers YES, with one round of fuel more than there are getters.
pub Blocks-yes :
    (fuel : ℕ) (who : ℕ → Thread) (y : System) (n t : ℕ) {k : ℕ}
    → AreDistinct who
    → Inv who y
    → ((m : ℕ) → IsOwn (who m) y.store.mmgetter (y.local m).place)
    → Unique y.store.mmgetter
    → Slotted y.store
    → Kept who y
    → length y.store.mmgetter < fuel
    → Blocks y n k t
    → (i : ℕ) × (obtain_getter (who n) t y.store.mmgetter ≡ some (i, y.store.mmgetter))
      × ((table : List Getter) × (is_dead_lock fuel i (asking i t y.store.mmgetter)
            ≡ some (true, table)))
Blocks-yes fuel who y n t distinct inv own unique sl kept enough blocks =
    let (j, oj) = Blocks-getter who y n kept blocks in
    let (i, found) =
      obtain_getter-found (who n) t j y.store.mmgetter
        (in_table y.store.mmgetter j (is_of-used (who n) (getter_at y.store.mmgetter j) oj)) oj in
    (
      i,
      found,
      is_dead_lock_complete fuel i (asking i t y.store.mmgetter)
          (subst (λ m. m < fuel) (sym (length-set y.store.mmgetter i _)) enough)
          (Blocks-Cycle who distinct y inv own unique sl kept n t i
            (obtain_getter-own (who n) t i y.store.mmgetter y.store.mmgetter found).1 blocks),
    )
