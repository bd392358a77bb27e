-- ===== src/Mutex/Program/Answers.antt =====
-- The search for a deadlock in the second lock of `main` of common/mymutex.c comes to an answer.
use ktrpg.Base.{
  ℕ, ◌<◌, ◌≡◌, ◌≢◌, ap, sym, subst, ◌∙◌, inl, inr, Bool, true, false, none, some, List, length,
  arith, find_index, get_or-set_ne, Bool-cases,
}
use ktrpg.Mutex.Types.{Thread, Getter, Store, blank_getter}
use ktrpg.Mutex.Deadlock.{getter_at, next_holder}
use ktrpg.Mutex.Deadlock.Chain.{holder_of, free}
use ktrpg.Mutex.Deadlock.Complete.{is_dead_lock-Ends}
use ktrpg.Mutex.Lock.Acquire.{asking}
use ktrpg.Mutex.Stage.{waits, begin_lock}
use ktrpg.Mutex.Stage.Asked.{begin_lock-Asked}
use ktrpg.Mutex.Stage.Getters.{obtain_getter-own}
use ktrpg.Mutex.Table.{is_of}
use ktrpg.Mutex.System.{wants, System, IsMutex}
use ktrpg.Mutex.System.Invariant.{AreDistinct}
use ktrpg.Mutex.System.Flags.{asks_for}
use ktrpg.Mutex.System.Getters.{is_of-same}
use ktrpg.Mutex.System.Ring.{asks_works}
use ktrpg.Mutex.System.Slots.{in_table, is_of-used}
use ktrpg.Mutex.System.Blocks.{
  back, through, Blocks-yes, obtain_getter-found, finds, in_asking, at_me,
}
use ktrpg.Mutex.System.Good.{Good}

module _ (fuel : ℕ) (who : ℕ → Thread) (x r : System) (good : Good who x r)
    (distinct : AreDistinct who) (enough : length x.store.mmgetter < fuel) (n m a b : ℕ)
    (ne : n ≢ m) (has_n : (r.local n).has a ≡ true) (has_m : (r.local m).has b ≡ true)
    (ok : IsMutex b) where
  -- The getter of a thread that asks for nothing is not marked as waiting.
  silent :
      (j : ℕ)
      → is_of (who m) (getter_at r.store.mmgetter j) ≡ true
      → asks_for (r.local m).place ≡ none
      → (getter_at r.store.mmgetter j).is_waited ≡ false
  silent j mine none_asked = elim (Bool-cases (getter_at r.store.mmgetter j).is_waited) [
    | inr quiet ↦ quiet
    | inl waited ↦
        let (k, asks) = good.flagged j waited in
        let theirs = (good.own k j (asks_works (r.local k).place _ j asks)).1 in
        let same : k ≡ m =
          distinct k m (is_of-same (who k) (who m) (getter_at r.store.mmgetter j) theirs mine) in
        absurd (cc (asks, none_asked, ap (λ z. asks_for (r.local z).place) same))
  ]

  -- Where the other thread asks for nothing, the answer is NO.
  pub answers_no :
      asks_for (r.local m).place ≡ none
      → (i : ℕ) × (bb : Bool) × (s : Store) × (begin_lock fuel (who n) b r.store ≡ waits i bb s)
  unfolding holder_of
  answers_no none_asked =
      let (k, mine, holding) = good.kept.noted n a has_n in
      let (i, found) =
        obtain_getter-found (who n) b k r.store.mmgetter
          (in_table r.store.mmgetter k (is_of-used (who n) (getter_at r.store.mmgetter k) mine))
          mine in
      let own_i = (obtain_getter-own (who n) b i r.store.mmgetter r.store.mmgetter found).1 in
      let (j, theirs, held) =
        finds who distinct r good.inv good.own good.unique good.slotted good.kept m b has_m in
      let other : i ≢ j = λ q. ne (
        distinct n m (
          is_of-same (who n) (who m) (getter_at r.store.mmgetter j)
            (subst (λ z. is_of (who n) (getter_at r.store.mmgetter z) ≡ true) q own_i) theirs)) in
      let at_i : holder_of (asking i b r.store.mmgetter) i ≡ some j =
        ap
          (λ (g : Getter). find_index (next_holder g.wait_mutex_type) (asking i b r.store.mmgetter))
          (at_me who distinct r good.inv good.own good.unique good.slotted good.kept n b i own_i)
        ∙ in_asking who distinct r good.inv good.own good.unique good.slotted good.kept n b i own_i
            b j held in
      let quiet : (getter_at (asking i b r.store.mmgetter) j).is_waited ≡ false =
        ap (λ (g : Getter). g.is_waited) (get_or-set_ne r.store.mmgetter i j _ blank_getter other)
        ∙ silent j theirs none_asked in
      let (table, answer) =
        is_dead_lock-Ends fuel i (asking i b r.store.mmgetter)
          (inr (j, 0, at_i, free quiet, omega arith)) in
      let (s, begun, told) =
        begin_lock-Asked fuel (who n) b i r.store r.store.mmgetter false table found
          (good.slotted.types b ok.0 ok.1) answer in
      (i, true, s, begun)

  -- Where it waits for what this one has, the answer is YES.
  pub answers_yes :
      (j : ℕ) (b' : Bool) (comment' : List ℕ)
      → (r.local m).place ≡ wants a j b' comment'
      → (i : ℕ) × (bb : Bool) × (s : Store) × (begin_lock fuel (who n) b r.store ≡ waits i bb s)
  answers_yes j b' comment' place_m =
      let (k, found, (table, answer)) =
        Blocks-yes fuel who r n b distinct good.inv good.own good.unique good.slotted good.kept
          (subst (λ z. z < fuel) (sym good.size) enough)
          (through m a j b' comment' ne has_m place_m (back has_n)) in
      let (s, begun, told) =
        begin_lock-Asked fuel (who n) b k r.store r.store.mmgetter true table found
          (good.slotted.types b ok.0 ok.1) answer in
      (k, true, s, begun)
