-- ===== src/Mutex/System/Ring.antt =====
-- The threads of the getters on a waits-for cycle of common/mymutex.c.
use ktrpg.Base.{find_index}
use ktrpg.Base.{
  ℕ, ◌<◌, ◌≡◌, ◌≢◌, ◌⊎◌, refl, ap, sym, subst, ◌∙◌, inl, inr, Bool, true, false, Option, none, some,
  List, length, arith, ◌==◌, find_index_sound, not, ◌&&◌, any, Option-cases,
}
use ktrpg.Mutex.Types.{Thread, Getter, Store, blank_getter}
use ktrpg.Mutex.Deadlock.{getter_at, holds, next_holder}
use ktrpg.Mutex.Deadlock.Chain.{holder_of, any-nonzero}
use ktrpg.Mutex.Deadlock.Members.{Ring}
use ktrpg.Mutex.Table.{is_of}
use ktrpg.Mutex.Identity.{Unique}
use ktrpg.Mutex.Lock.Owners.{owner_of}
use ktrpg.Mutex.System.{
  Place, idle, asks_lock, inside_lock, searching, wants, owns, settles, asks_unlock, inside_unlock,
  System,
}
use ktrpg.Mutex.System.Owned.{Owns}
use ktrpg.Mutex.System.Invariant.{AreDistinct, Inv}
use ktrpg.Mutex.System.Getters.{IsOwn, works_on, is_of-same}
use ktrpg.Mutex.System.Slots.{Slotted}
use ktrpg.Mutex.System.Flags.{asks_for, asked_at}
use ktrpg.Mutex.System.Flags.Reached.{Flagged}
use ktrpg.Mutex.System.Stuck.{Waits}

-- The thread of a getter.
abbrev pub thread_of : Getter → Thread
thread_of g = record { pid = g.process_id; tid = g.thread_id }

-- The getter that the search finds to hold `t` is used, and its thread owns the mutex.
pub next_holder-owner :
    (s : Store) (t k : ℕ)
    → Slotted s
    → find_index (next_holder t) s.mmgetter ≡ some k
    → (k < length s.mmgetter)
      × (is_of (thread_of (getter_at s.mmgetter k)) (getter_at s.mmgetter k) ≡ true)
      × (owner_of s t ≡ some (thread_of (getter_at s.mmgetter k)))
next_holder-owner s t k sl e = (lt, of_itself, sl.owned k t (thread_of g) ne of_itself holding)
  where
    g : Getter
    g = getter_at s.mmgetter k

    sound : (k < length s.mmgetter) × (next_holder t g ≡ true)
    sound = find_index_sound (next_holder t) s.mmgetter blank_getter k e

    lt : k < length s.mmgetter
    lt = sound.0

    ne : t ≢ 0
    ne = ground (arith, sound.1)

    holding : holds t g.get_mutex_type ≡ true
    holding =
        let found : any (λ x. not (x == 0) && (x == t)) g.get_mutex_type ≡ true =
          ground (arith, sound.1) in
        sym (any-nonzero t g.get_mutex_type ne) ∙ found

    of_itself : is_of (thread_of g) g ≡ true
    of_itself = ground (arith, sound.1)

held_owned :
    (s : Store) (j k : ℕ)
    → Slotted s
    → holder_of s.mmgetter j ≡ some k
    → (k < length s.mmgetter)
      × (is_of (thread_of (getter_at s.mmgetter k)) (getter_at s.mmgetter k) ≡ true)
      × (owner_of s (getter_at s.mmgetter j).wait_mutex_type
          ≡ some (thread_of (getter_at s.mmgetter k)))
unfolding holder_of
held_owned s j k sl e = next_holder-owner s (getter_at s.mmgetter j).wait_mutex_type k sl e

-- A thread that asks for a type works on the getter, and it waits for the mutex or owns it.
pub asks_works : (p : Place) (t i : ℕ) → asks_for p ≡ some (t, i) → works_on p ≡ some i
asks_works idle t i e = cc
asks_works (asks_lock u c) t i e = cc
asks_works (inside_lock u c) t i e = cc
asks_works searching t i e = cc
asks_works (wants u k b c) t i e = cc
asks_works (owns u k b c) t i e = cc
asks_works (settles u k b c) t i e = cc
asks_works (asks_unlock u) t i e = cc
asks_works (inside_unlock u) t i e = cc

abbrev pub Wanting : ℕ → ℕ → Place → Type 0
Wanting t i p = (b : Bool) × (comment : List ℕ) × (p ≡ wants t i b comment)

to_Wanting :
    (p : Place) (t i u k : ℕ) (b : Bool) (comment : List ℕ)
    → p ≡ wants u k b comment
    → asks_for p ≡ some (t, i)
    → Wanting t i p
to_Wanting p t i u k b comment q e =
    let same : u ≡ t = cc (e, ap asks_for q) in
    let same_getter : k ≡ i = cc (e, ap asks_for q) in
    (b, comment, q ∙ ap (λ x. wants x k b comment) same ∙ ap (λ x. wants t x b comment) same_getter)

pub asks_waits :
    (th : Thread) (has : ℕ → Bool) (s : Store) (p : Place) (t i : ℕ)
    → asks_for p ≡ some (t, i)
    → Owns th has p s
    → Wanting t i p ⊎ (owner_of s t ≡ some th)
asks_waits th has s idle t i e o = cc
asks_waits th has s (asks_lock u c) t i e o = cc
asks_waits th has s (inside_lock u c) t i e o = cc
asks_waits th has s searching t i e o = cc
asks_waits th has s (wants u k b c) t i e o = inl (to_Wanting (wants u k b c) t i u k b c refl e)
asks_waits th has s (owns u k b c) t i e o =
    let same : u ≡ t = cc in inr (ap (owner_of s) (sym same) ∙ o.1)
asks_waits th has s (settles u k b c) t i e o =
    let same : u ≡ t = cc in inr (ap (owner_of s) (sym same) ∙ o.1)
asks_waits th has s (asks_unlock u) t i e o = cc
asks_waits th has s (inside_unlock u) t i e o = cc

-- The threads of the getters of a list.
abbrev pub works_in : List ℕ → Place → Bool
works_in ring p = elim (works_on p) [ none ↦ false | some j ↦ holds j ring ]

works_in_sound :
    (ring : List ℕ) (p : Place)
    → works_in ring p ≡ true
    → (j : ℕ) × (works_on p ≡ some j) × (holds j ring ≡ true)
works_in_sound ring p h = elim (Option-cases (works_on p)) [
  | inl q ↦ absurd (ground arith)
  | inr (j, q) ↦ (j, q, ground arith)
]

module _ (who : ℕ → Thread) (distinct : AreDistinct who) (z : System) (inv : Inv who z)
    (own : (n : ℕ) → IsOwn (who n) z.store.mmgetter (z.local n).place)
    (unique : Unique z.store.mmgetter) (sl : Slotted z.store) (fl : Flagged z) (me n : ℕ) (t : ℕ)
    (b : Bool) (comment : List ℕ) (p : (z.local n).place ≡ wants t me b comment) where
  -- Two places that work on one getter are of one thread.
  one_thread :
      (k m i : ℕ)
      → works_on (z.local k).place ≡ some i
      → works_on (z.local m).place ≡ some i
      → k ≡ m
  one_thread k m i e e' =
      distinct k m
        (is_of-same (who k) (who m) (getter_at z.store.mmgetter i) (own k i e).1 (own m i e').1)

  module _ (ring : List ℕ) (r : Ring z.store.mmgetter me ring) where
    ring_asks :
        (m j : ℕ)
        → works_on (z.local m).place ≡ some j
        → holds j ring ≡ true
        → asks_for (z.local m).place ≡ asked_at z.store.mmgetter j
    ring_asks m j on within =
        let (k, asks) = fl j (r.waits j within) in
        let same : k ≡ m = one_thread k m j (asks_works (z.local k).place _ j asks) on in
        subst (λ x. asks_for (z.local x).place ≡ asked_at z.store.mmgetter j) same asks

    owner_is_me :
        (m j : ℕ)
        → works_on (z.local m).place ≡ some j
        → holds j ring ≡ true
        → owner_of z.store (getter_at z.store.mmgetter j).wait_mutex_type ≡ some (who m)
        → n ≡ m
    owner_is_me m j on within o =
        let (k, held, within', loops) = r.held j within in
        let (lt, mine, owned) = held_owned z.store j k sl held in
        let same : thread_of (getter_at z.store.mmgetter k) ≡ who m = cc (o, owned) in
        let (lt', mine') = own m j on in
        let itself : k ≡ j =
          unique k j (who m) lt lt'
            (subst (λ th. is_of th (getter_at z.store.mmgetter k) ≡ true) same mine) mine' in
        one_thread n m j (ap works_on p ∙ ap some (sym (loops itself))) on

    -- A thread of the ring does not own what it asks for, or it would be its own holder.
    ring_wants :
        (m j : ℕ)
        → works_on (z.local m).place ≡ some j
        → holds j ring ≡ true
        → Wanting (getter_at z.store.mmgetter j).wait_mutex_type j (z.local m).place
    ring_wants m j on within =
        elim (asks_waits (who m) (z.local m).has z.store (z.local m).place _ j
          (ring_asks m j on within) (inv.keep m).place) [
            | inl w ↦ w
            | inr o ↦
                to_Wanting (z.local m).place _ j t me b comment
                  (ap (λ x. (z.local x).place) (sym (owner_is_me m j on within o)) ∙ p)
                  (ring_asks m j on within)
          ]

    pub ring-Waits : Waits who (λ m. works_in ring (z.local m).place) z
    ring-Waits m h =
        let (j, on, within) = works_in_sound ring (z.local m).place h in
        let (b', comment', q) = ring_wants m j on within in
        let (k, held, within', loops) = r.held j within in
        let (lt, mine, owned) = held_owned z.store j k sl held in
        let (m', asks) = fl k (r.waits k within') in
        let on' = asks_works (z.local m').place _ k asks in
        (
          _,
          j,
          b',
          comment',
          q,
          (
            m',
            ap (λ (x : Option ℕ). elim x [ none ↦ false | some i ↦ holds i ring ]) on' ∙ within',
            owned
                ∙ ap some
                    (is_of-same _ (who m') (getter_at z.store.mmgetter k) mine (own m' k on').1),
          ),
        )
