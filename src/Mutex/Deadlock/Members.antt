-- ===== src/Mutex/Deadlock/Members.antt =====
-- The getters on a waits-for cycle that `isDeadLock` of common/mymutex.c has found.
use ktrpg.Base.{
  ℕ, ◌≡◌, ◌⊎◌, ap, sym, ◌∙◌, inl, inr, Bool, true, some, List, [], ◌∷◌, arith, any, find_index,
  ℕ_discrete, subst, find_index_alike,
}
use ktrpg.Mutex.Types.{Getter, blank_getter}
use ktrpg.Mutex.Deadlock.{getter_at, holds, next_holder}
use ktrpg.Mutex.Deadlock.Kept.{Keeps}
use ktrpg.Mutex.Deadlock.Chain.{IsWaiting, holder_of, Chain, arrive, follow, Alike}
use ktrpg.Mutex.Deadlock.Sound.{Cycle}

-- What the search for a deadlock reads of a getter, but for the marks that it makes itself.
abbrev pub view : Getter → Bool × Bool × ℕ × List ℕ
view g = (g.is_used, g.is_waited, g.wait_mutex_type, g.get_mutex_type)

-- Tables with one view are alike to the search.
pub view-Alike : (a b : List Getter) → Keeps view a b → Alike a b
unfolding holder_of
view-Alike a b k = record {
  waited = λ i. ap (λ v. v.1) (sym (k.same i));
  held = λ i.
      ap (λ t. find_index (next_holder t) a) (ap (λ v. v.2) (sym (k.same i)))
      ∙ find_index_alike (next_holder (getter_at b i).wait_mutex_type) a b blank_getter (sym k.size)
          (λ j.
            ap
              (λ (v : Bool × Bool × ℕ × List ℕ).
                next_holder (getter_at b i).wait_mutex_type
                  (record blank_getter { is_used = v.0; get_mutex_type = v.3 }))
              (sym (k.same j)));
  wanted = λ i. ap (λ v. v.2) (sym (k.same i));
  used = λ i. ap (λ v. v.0) (sym (k.same i));
}

abbrev on_chain : {mmgs : List Getter} {me n i : ℕ} → Chain mmgs me n i → List ℕ
on_chain {i = i} (arrive e w) = i ∷ []
on_chain {i = i} (follow ne w h c) = i ∷ on_chain c

-- Only `me` itself can be its own holder.
pub Chain-loops :
    {mmgs : List Getter} {me n i : ℕ} → Chain mmgs me n i → holder_of mmgs i ≡ some i → i ≡ me
Chain-loops (arrive e w) h = e
Chain-loops {mmgs} {me} {n} {i} (follow {k = k} ne w h' c) h =
    let same : k ≡ i = cc (h, h') in
    sym same ∙ Chain-loops c (subst (λ x. holder_of mmgs x ≡ some x) (sym same) h)

on_chain-first :
    {mmgs : List Getter} {me n i : ℕ} (c : Chain mmgs me n i) → holds i (on_chain c) ≡ true
unfolding any
on_chain-first (arrive e w) = ground arith
on_chain-first (follow ne w h c) = ground arith

on_chain-me :
    {mmgs : List Getter} {me n i : ℕ} (c : Chain mmgs me n i) → holds me (on_chain c) ≡ true
unfolding any
on_chain-me (arrive e w) = ground (arith, e)
on_chain-me (follow ne w h c) = ground (arith, on_chain-me c)

-- Each getter of the chain waits, and its holder is on the chain.
on_chain-held :
    {mmgs : List Getter} {me n i : ℕ} (c : Chain mmgs me n i) (j : ℕ)
    → holds j (on_chain c) ≡ true
    → IsWaiting mmgs j
      × ((j ≡ me)
          ⊎ ((k : ℕ) × (holder_of mmgs j ≡ some k)
              × (holds k (on_chain c) ≡ true)
              × (k ≡ j → j ≡ me)))
unfolding any
on_chain-held {mmgs} {me} {n} {i} (arrive e w) j h =
    let same : i ≡ j = ground (arith, h) in (subst (IsWaiting mmgs) same w, inl (sym same ∙ e))
on_chain-held {mmgs} {me} {n} {i} (follow {k = k} ne w h' c) j h = elim (ℕ_discrete i j) [
  | yes same ↦ (
    subst (IsWaiting mmgs) same w,
    inr (
      k,
      ap (holder_of mmgs) (sym same) ∙ h',
      ground (arith, on_chain-first c),
      λ q. sym same ∙ Chain-loops (follow ne w h' c) (h' ∙ ap some (q ∙ sym same)),
    ),
  )
  | no other ↦
      let (w', held) = on_chain-held c j (ground arith) in
      (
        w',
        elim held [
          | inl q ↦ inl q
          | inr (k', e', within, loops) ↦ inr (k', e', ground (arith, within), loops)
        ],
      )
]

-- Each getter of a list waits for what a getter of the list holds, another one but for `me`.
pub record Ring (mmgs : List Getter) (me : ℕ) (ring : List ℕ) : Type 0 where
  pub mine : holds me ring ≡ true
  pub waits : (j : ℕ) → holds j ring ≡ true → IsWaiting mmgs j
  pub held :
      (j : ℕ)
      → holds j ring ≡ true
      → (k : ℕ) × (holder_of mmgs j ≡ some k) × (holds k ring ≡ true) × (k ≡ j → j ≡ me)

pub Cycle-Ring : (mmgs : List Getter) (me : ℕ) → Cycle mmgs me → (ring : List ℕ) × Ring mmgs me ring
Cycle-Ring mmgs me c = (
  on_chain c.back,
  record {
    mine = on_chain-me c.back;
    waits = λ j h. (on_chain-held c.back j h).0;
    held = λ j h. elim (on_chain-held c.back j h).1 [
      | inl q ↦ (c.first, ap (holder_of mmgs) q ∙ c.held, on_chain-first c.back, λ same. q)
      | inr found ↦ found
    ];
  },
)
