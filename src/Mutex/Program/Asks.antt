-- ===== src/Mutex/Program/Asks.antt =====
-- A thread in its call of `mymutex_lock` of common/mymutex.c for a mutex that somebody owns.
use ktrpg.Base.{
  ℕ, ◌<◌, ◌≡◌, ◌≢◌, refl, ap, sym, subst, ◌∙◌, Bool, true, false, ◌==◌, some, List, length, arith,
}
use ktrpg.Mutex.Types.{Thread, Getter, Store}
use ktrpg.Mutex.Table.{obtain_getter}
use ktrpg.Mutex.Lock.Owners.{owner_of, scan_others_yes}
use ktrpg.Mutex.Stage.{refused, begin_lock, begin_searched}
use ktrpg.Mutex.Stage.Owners.{lock-owners}
use ktrpg.Mutex.System.{
  Place, idle, asks_lock, inside_lock, searching, wants, Local, at, Move, call_lock, enter_lock,
  give_up, hang, begin, take, return_to, end, call_unlock, enter_unlock, leave,
}
use ktrpg.Mutex.Program.{has_got}

-- In a call of `mymutex_lock` for `t`, without the mutex.
abbrev pub asks : ℕ → Place → Bool
asks t (asks_lock u comment) = u == t
asks t (inside_lock u comment) = u == t
asks t searching = true
asks t (wants u i b comment) = u == t
asks t _ = false

-- How many steps a call for a mutex that stays taken can go on, and one more.
abbrev pub weight : Place → ℕ
weight idle = 3
weight (asks_lock t comment) = 3
weight (inside_lock t comment) = 2
weight _ = 1

-- A thread with a getter is not refused.
pub begin_lock-ne-refused :
    (fuel : ℕ) (th : Thread) (t i : ℕ) (s s' : Store) (gs : List Getter)
    → obtain_getter th t s.mmgetter ≡ some (i, gs)
    → begin_lock fuel th t s ≢ refused s'
unfolding begin_lock begin_searched
begin_lock-ne-refused fuel th t i s s' gs e q = ground (arith, e, q, scan_others_yes t i 0 gs)

pub ==→≡ : (a b : ℕ) → (a == b) ≡ true → a ≡ b
==→≡ a b h = ground arith

module _ (fuel : ℕ) (th : Thread) (t i : ℕ) (s : Store) (gs : List Getter)
    (lt : t < length s.mmutex) (o : Thread) (taken : owner_of s t ≡ some o)
    (found : obtain_getter th t s.mmgetter ≡ some (i, gs)) where
  still : {p : Place} (l : Local) → asks t l.place ≡ true → l.place ≡ p → asks t p ≡ true
  still l a q = sym (ap (asks t) q) ∙ a

  goes_to :
      (p : Place) (l l' : Local)
      → asks t p ≡ true
      → weight p < weight l.place
      → l' ≡ at p l
      → (asks t l'.place ≡ true) × (l'.has ≡ l.has) × (weight l'.place < weight l.place)
  goes_to p l l' a less e = (
    ap (λ (x : Local). asks t x.place) e ∙ a,
    ap (λ (x : Local). x.has) e,
    omega (arith, less, ap (λ (x : Local). weight x.place) e),
  )

  -- While somebody owns the mutex, a thread with a getter stays in its call for it, and gets on in it.
  pub Move-asks :
      (l l' : Local) (s' : Store)
      → asks t l.place ≡ true
      → Move fuel has_got th l s l' s'
      → (asks t l'.place ≡ true) × (l'.has ≡ l.has) × (weight l'.place < weight l.place)
  Move-asks l l' s' a (call_lock t' c q ok e e') = absurd (cc (a, ap (asks t) q))
  Move-asks l l' s' a (enter_lock t' c q e e') =
      goes_to _ l l' (still l a q) (omega (arith, ap weight q)) e'
  Move-asks l l' s' a (give_up t' c q e e') = absurd (
      begin_lock-ne-refused fuel th t i s s' gs found
        (ap (λ u. begin_lock fuel th u s) (sym (==→≡ t' t (still l a q))) ∙ e))
  Move-asks l l' s' a (hang t' c q e e' e'') =
      goes_to searching l l' refl (omega (arith, ap weight q)) e'
  Move-asks l l' s' a (begin t' i' b' c q e e') =
      goes_to _ l l' (still l a q) (omega (arith, ap weight q)) e'
  Move-asks l l' s' a (take t' i' b' c q e e') =
      let same : t' ≡ t = ==→≡ t' t (still l a q) in
      let free = (lock-owners th t' s s' (subst (λ u. u < length s.mmutex) (sym same) lt) e).0 in
      absurd (cc (free, taken, ap (owner_of s) same))
  Move-asks l l' s' a (return_to t' i' b' c q e e') = absurd (cc (a, ap (asks t) q))
  Move-asks l l' s' a (end t' i' b' c q e e') = absurd (cc (a, ap (asks t) q))
  Move-asks l l' s' a (call_unlock t' q ok h e e') = absurd (cc (a, ap (asks t) q))
  Move-asks l l' s' a (enter_unlock t' q e e') = absurd (cc (a, ap (asks t) q))
  Move-asks l l' s' a (leave t' q e e') = absurd (cc (a, ap (asks t) q))
