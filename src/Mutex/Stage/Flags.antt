-- ===== src/Mutex/Stage/Flags.antt =====
-- What the stages of the calls do to the flags of the getters that tell who waits, and for what.
use ktrpg.Base.{
  ℕ, ◌<◌, ◌≡◌, ◌≢◌, ap, ◌∙◌, inl, inr, Bool, true, false, some, List, length, if◌then◌else◌, arith,
  Option-cases, find_index, ◌==◌, get_or-set, get_or-set_ne, get_or-set_self, set,
}
use ktrpg.Mutex.Types.{Thread, Getter, Store, blank_getter}
use ktrpg.Mutex.Deadlock.{getter_at}
use ktrpg.Mutex.Deadlock.Members.{view}
use ktrpg.Mutex.Deadlock.Kept.{Keeps}
use ktrpg.Mutex.Table.{is_free, claim, lock_getter, obtain_getter}
use ktrpg.Mutex.Lock.{granted, fill, settled, note_order}
use ktrpg.Mutex.Lock.Owners.{type_of}
use ktrpg.Mutex.Lock.Acquire.{asking, note_order-same}
use ktrpg.Mutex.Stage.{end_lock}
use ktrpg.Mutex.Stage.Getters.{obtain_getter-own}

-- Whether the getter's thread waits, and for which type.
abbrev pub flags : Getter → Bool × ℕ
flags g = (g.is_waited, g.wait_mutex_type)

abbrev pub flags_at : List Getter → ℕ → Bool × ℕ
flags_at gs j = flags (getter_at gs j)

-- Finding or claiming a getter leaves the flags of the others alone.
pub obtain_getter-flags :
    (th : Thread) (t i : ℕ) (mmgs gs : List Getter) (j : ℕ)
    → obtain_getter th t mmgs ≡ some (i, gs)
    → i ≢ j
    → flags_at gs j ≡ flags_at mmgs j
unfolding obtain_getter
obtain_getter-flags th t i mmgs gs j e ne = elim (Option-cases (lock_getter th mmgs)) [
  | inr (k, found) ↦ let same : gs ≡ mmgs = ground (arith, found, e) in ap (λ x. flags_at x j) same
  | inl new ↦ elim (Option-cases (find_index is_free mmgs)) [
    | inl full ↦ absurd (ground arith)
    | inr (k, free) ↦
        let same : gs ≡ set mmgs i (claim th t (getter_at mmgs k)) = ground (arith, free, new, e) in
        ap (λ x. flags_at x j) same
        ∙ ap flags (get_or-set_ne mmgs i j (claim th t (getter_at mmgs k)) blank_getter ne)
  ]
]

-- Where the first stage waits, its getter is marked, and the other getters are marked as before.
pub begun-flags :
    (th : Thread) (t i : ℕ) (mmgs gs gs' : List Getter)
    → obtain_getter th t mmgs ≡ some (i, gs)
    → Keeps view (asking i t gs) gs'
    → (flags_at gs' i ≡ (true, t)) × ((j : ℕ) → i ≢ j → flags_at gs' j ≡ flags_at mmgs j)
begun-flags th t i mmgs gs gs' found k = (
  seen i
      ∙ ap flags (get_or-set_self gs i _ blank_getter (obtain_getter-own th t i mmgs gs found).0),
  λ j ne.
      seen j
      ∙ ap flags (get_or-set_ne gs i j _ blank_getter ne)
      ∙ obtain_getter-flags th t i mmgs gs j found ne,
)
  where
    seen : (j : ℕ) → flags_at gs' j ≡ flags_at (asking i t gs) j
    seen j = ap (λ (v : Bool × Bool × ℕ × List ℕ). (v.1, v.2)) (k.same j)

-- The last stage: the getter waits no more.
pub end_lock-flags :
    (th : Thread) (t i : ℕ) (bbool : Bool) (comment : List ℕ) (s : Store) (j : ℕ)
    → i < length s.mmgetter
    → flags_at (end_lock th t i bbool comment s).mmgetter j
      ≡ (if i == j then (false, 0) else flags_at s.mmgetter j)
unfolding end_lock granted
end_lock-flags th t i bbool comment s j lt = ended bbool
  where
    owns : Store
    owns = granted t i comment s

    now : flags_at owns.mmgetter j ≡ (if i == j then (false, 0) else flags_at s.mmgetter j)
    now = ground (
      arith,
      get_or-set s.mmgetter i j (fill (type_of s t) comment (settled (getter_at s.mmgetter i)))
          blank_getter lt,
    )

    ended :
        (b : Bool)
        → flags_at (if b then note_order th i owns else owns).mmgetter j
          ≡ (if i == j then (false, 0) else flags_at s.mmgetter j)
    ended true = ap (λ x. flags_at x j) (note_order-same th i owns).1 ∙ now
    ended false = now
