-- ===== src/Mutex/System/Verdict.antt =====
-- When `isDeadLock` of common/mymutex.c answers YES, by what the threads have got and wait for.
use ktrpg.Base.{
  ℕ, ◌<◌, ◌≡◌, ◌≢◌, ◌⊎◌, ◌↔◌, refl, ap, sym, subst, ◌∙◌, inl, inr, Bool, true, false, some, List,
  length, arith, find_index, find_index-set, find_index_sound, get_or-set_self, get_or-set_ne, any,
  not, ◌&&◌, ◌==◌,
}
use ktrpg.Mutex.Types.{Thread, Getter, blank_getter}
use ktrpg.Mutex.Deadlock.{getter_at, holds, is_dead_lock, next_holder}
use ktrpg.Mutex.Deadlock.Chain.{IsWaiting, holder_of, Chain, arrive, follow, any-nonzero}
use ktrpg.Mutex.Deadlock.Sound.{Cycle, is_dead_lock-Cycle}
use ktrpg.Mutex.Deadlock.Members.{Chain-loops}
use ktrpg.Mutex.Table.{is_of, obtain_getter}
use ktrpg.Mutex.Lock.Owners.{slots_of}
use ktrpg.Mutex.Lock.Acquire.{asking}
use ktrpg.Mutex.Stage.Getters.{obtain_getter-own}
use ktrpg.Mutex.Stage.Flags.{flags, flags_at, obtain_getter-flags}
use ktrpg.Mutex.Stage.Slots.{kept, obtain_getter-Claims}
use ktrpg.Mutex.System.{inside_lock, wants, Local, IsOrderly, System, Reach}
use ktrpg.Mutex.System.Invariant.{AreDistinct}
use ktrpg.Mutex.System.Getters.{works_on}
use ktrpg.Mutex.System.Slots.{is_of-kept, in_table}
use ktrpg.Mutex.System.Ring.{thread_of, asks_works, asks_waits}
use ktrpg.Mutex.System.Flags.{asks_for}
use ktrpg.Mutex.System.Honest.{unlocking}
use ktrpg.Mutex.System.Blocks.{Blocks, back, through, Blocks-yes}
use ktrpg.Mutex.System.Good.{Good, Reach-Good}
use ktrpg.Mutex.System.Ready.{Ready}

module _ (who : ℕ → Thread) (distinct : AreDistinct who) (x y : System) (good : Good who x y)
    (n t i : ℕ) (comment : List ℕ) (gs : List Getter)
    (p : (y.local n).place ≡ inside_lock t comment)
    (e : obtain_getter (who n) t y.store.mmgetter ≡ some (i, gs)) where
  abbrev table : List Getter
  table = asking i t gs

  -- A getter that the search finds was used before the call, and its thread owns the mutex.
  found_before :
      (u j : ℕ)
      → find_index (next_holder u) table ≡ some j
      → (u ≢ 0)
        × (kept (getter_at gs j) ≡ kept (getter_at y.store.mmgetter j))
        × ((getter_at y.store.mmgetter j).is_used ≡ true)
        × (holds u (slots_of y.store.mmgetter j) ≡ true)
  found_before u j f = (ne, still, ap (λ k. k.0) (sym still) ∙ ground (arith, test), holding)
    where
      test : next_holder u (getter_at gs j) ≡ true
      test =
          (find_index_sound (next_holder u) gs blank_getter j
            (sym (find_index-set (next_holder u) gs i _ blank_getter refl) ∙ f)).1

      ne : u ≢ 0
      ne = ground (arith, test)

      claims :
          (slots_of gs j ≡ slots_of y.store.mmgetter j)
          × ((kept (getter_at gs j) ≡ kept (getter_at y.store.mmgetter j))
              ⊎ ((getter_at y.store.mmgetter j).is_used ≡ false)
                × ((getter_at gs j).is_used ≡ true))
      claims = obtain_getter-Claims (who n) t i y.store.mmgetter gs e j

      holding : holds u (slots_of y.store.mmgetter j) ≡ true
      holding =
          let found : any (λ s. not (s == 0) && (s == u)) (getter_at gs j).get_mutex_type ≡ true =
            ground (arith, test) in
          ap (holds u) (sym claims.0)
          ∙ sym (any-nonzero u (getter_at gs j).get_mutex_type ne)
          ∙ found

      still : kept (getter_at gs j) ≡ kept (getter_at y.store.mmgetter j)
      still = elim claims.1 [
        | inl same ↦ same
        | inr (free, used) ↦ absurd (cc (holding, good.slotted.spare j u ne free))
      ]

  -- A thread at a place that is not in an unlock has got what a slot of its getter tells.
  has_got :
      (m u j : ℕ)
      → find_index (next_holder u) table ≡ some j
      → is_of (who m) (getter_at y.store.mmgetter j) ≡ true
      → unlocking u (y.local m).place ≡ false
      → (y.local m).has u ≡ true
  has_got m u j f oj not_here =
      let (ne, still, used, holding) = found_before u j f in
      elim (good.honest m j u ne oj holding) [
        | inl has ↦ has
        | inr here ↦ absurd (cc (here, not_here))
      ]

  -- The thread of a getter that waits, another one than that of the call, waits at a lock.
  waits_there :
      (j j' : ℕ)
      → i ≢ j
      → IsWaiting table j
      → holder_of table j ≡ some j'
      → j' ≢ j
      → (m : ℕ) × (b : Bool) × (c : List ℕ) × ((y.local m).place
          ≡ wants (getter_at table j).wait_mutex_type j b c)
  unfolding holder_of
  waits_there j j' other w h apart =
      let v = (getter_at table j).wait_mutex_type in
      let seen : flags_at table j ≡ flags_at y.store.mmgetter j =
        ap flags (get_or-set_ne gs i j _ blank_getter other)
        ∙ obtain_getter-flags (who n) t i y.store.mmgetter gs j e other in
      let (m, asks) = good.flagged j (sym (ap (λ f. f.0) seen) ∙ w) in
      let asks' : asks_for (y.local m).place ≡ some (v, j) =
        asks ∙ ap (λ (f : Bool × ℕ). some (f.1, j)) (sym seen) in
      elim (asks_waits (who m) (y.local m).has y.store (y.local m).place v j asks'
        (good.inv.keep m).place) [
          | inl (b, c, q) ↦ (m, b, c, q)
          | inr o ↦
              let (ne, still, used, holding) = found_before v j' h in
              let g = getter_at y.store.mmgetter j' in
              let itself : is_of (thread_of g) g ≡ true = ground (arith, used) in
              let same : thread_of g ≡ who m =
                cc (o, good.slotted.owned j' v (thread_of g) ne itself holding) in
              let (lt, mine) = good.own m j (asks_works (y.local m).place v j asks') in
              absurd (
                apart (
                  good.unique j' j (who m) (in_table y.store.mmgetter j' used) lt
                    (subst (λ th. is_of th g ≡ true) same itself) mine))
        ]

  Chain-Blocks :
      {k j u : ℕ} → find_index (next_holder u) table ≡ some j → Chain table i k j → Blocks y n k u
  unfolding holder_of
  Chain-Blocks {k} {j} {u} f (arrive me w) =
      let f' : find_index (next_holder u) table ≡ some i = f ∙ ap some me in
      let still = (found_before u i f').1 in
      let mine = (obtain_getter-own (who n) t i y.store.mmgetter gs e).1 in
      back (
        has_got n u i f'
          (sym (is_of-kept (who n) (getter_at gs i) (getter_at y.store.mmgetter i) still) ∙ mine)
          (ap (unlocking u) p))
  Chain-Blocks {k} {j} {u} f (follow {k = j'} ne w h c) =
      let (m, b, c', q) =
        waits_there j j' (λ r. ne (sym r)) w h
          (λ r. ne (Chain-loops (follow ne w h c) (h ∙ ap some r))) in
      through m (getter_at table j).wait_mutex_type j b c'
        (λ r. cc (p, q, ap (λ x. (y.local x).place) r))
        (has_got m u j f (good.own m j (ap works_on q)).1 (ap (unlocking u) q)) q (Chain-Blocks h c)

  Cycle-Blocks : Cycle table i → (k : ℕ) × Blocks y n k t
  unfolding holder_of
  Cycle-Blocks c =
      let lt = (obtain_getter-own (who n) t i y.store.mmgetter gs e).0 in
      let at_me =
        ap (λ (g : Getter). find_index (next_holder g.wait_mutex_type) table)
          (get_or-set_self gs i _ blank_getter lt) in
      (c.steps, Chain-Blocks (sym at_me ∙ c.held) c.back)

-- The search is exact: from a state that is ready, as `init_mymutex` leaves it, where the calls lead to a
-- state in which thread `n` is about to ask for `t` and has found or claimed getter `i`, `isDeadLock`,
-- with one round of fuel more than there are getters, answers YES exactly if from `t` a chain of
-- threads, each with what the one before asks for and all but `n` waiting, leads to a mutex that `n` has
-- got. Numbers stand for different threads, and the callers unlock only what they have locked.
pub dead_lock_iff :
    (fuel : ℕ) (may : Local → ℕ → Bool) (who : ℕ → Thread) (x y : System) (n t i : ℕ)
    (comment : List ℕ) (gs : List Getter)
    → IsOrderly may
    → AreDistinct who
    → Ready x
    → length x.store.mmgetter < fuel
    → Reach fuel may who x y
    → (y.local n).place ≡ inside_lock t comment
    → obtain_getter (who n) t y.store.mmgetter ≡ some (i, gs)
    → ((table : List Getter) × (is_dead_lock fuel i (asking i t gs) ≡ some (true, table)))
      ↔ ((k : ℕ) × Blocks y n k t)
dead_lock_iff fuel may who x y n t i comment gs orderly distinct ready enough r p e = (
  λ (table', answer).
      Cycle-Blocks who distinct x y good n t i comment gs p e
        (is_dead_lock-Cycle fuel i (asking i t gs) table' answer),
  λ (k, blocks).
      let (i', found, (table', answer)) =
        Blocks-yes fuel who y n t distinct good.inv good.own good.unique good.slotted good.kept
          (subst (λ m. m < fuel) (sym good.size) enough) blocks in
      let same : i' ≡ i = cc (found, e) in
      let same_table : y.store.mmgetter ≡ gs = cc (found, e) in
      (
        table',
        ap (λ a. is_dead_lock fuel a (asking a t gs)) (sym same)
            ∙ ap (λ g. is_dead_lock fuel i' (asking i' t g)) (sym same_table)
            ∙ answer,
      ),
)
  where
    good : Good who x y
    good = Reach-Good fuel may who x y orderly distinct ready r
