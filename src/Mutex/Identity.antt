-- ===== src/Mutex/Identity.antt =====
-- Which thread a getter belongs to. No call of common/mymutex.c gives a getter up again: the only
-- write to its owner is the claim of a free one.
pub mod Calls
pub mod Full
use ktrpg.Base.{
  ℕ, zero, suc, ◌<◌, ◌≡◌, ◌≢◌, ◌⊎◌, refl, ap, sym, ◌∙◌, inl, inr, Bool, true, false, not, ◌&&◌,
  Option, none, some, List, [], ◌∷◌, arith, ◌==◌, if◌then◌else◌, Bool-cases, Option-cases, length,
  length-set, get_or-set, set, find_index, find_index_sound, find_index-none, find_last_index,
  ℕ_discrete, find_last_index-none, find_last_index_sound,
}
use ktrpg.Mutex.Types.{Thread, Getter, blank_getter}
use ktrpg.Mutex.Deadlock.{getter_at}
use ktrpg.Mutex.Table.{lock_getter, unlock_getter, is_of, is_free, claim, obtain_getter}

abbrev pub ident : Getter → Bool × ℕ × ℕ
ident g = (g.is_used, g.process_id, g.thread_id)

-- Two getters in use by one thread are one getter.
abbrev pub Unique : List Getter → Type 0
Unique gs =
    (i j : ℕ) (th : Thread)
    → i < length gs
    → j < length gs
    → is_of th (getter_at gs i) ≡ true
    → is_of th (getter_at gs j) ≡ true
    → i ≡ j

-- A getter in use stays with its thread.
abbrev pub Stays : List Getter → List Getter → Type 0
Stays gs gs' =
    (j : ℕ) (th : Thread) → is_of th (getter_at gs j) ≡ true → is_of th (getter_at gs' j) ≡ true

-- Where `mymutex_lock` finds or claims a getter, a getter in use stays with its thread.
pub obtain_getter-Stays :
    (th : Thread) (t i : ℕ) (mmgs gs : List Getter)
    → obtain_getter th t mmgs ≡ some (i, gs)
    → Stays mmgs gs
unfolding obtain_getter
obtain_getter-Stays th t i mmgs gs e j th' own = elim (Option-cases (lock_getter th mmgs)) [
  | inr (k, found) ↦ ground arith
  | inl new ↦ elim (Option-cases (find_index is_free mmgs)) [
    | inl full ↦ ground arith
    | inr (k, free) ↦ ground (
      arith,
      find_index_sound is_free mmgs blank_getter k free,
      get_or-set mmgs k j (claim th t (getter_at mmgs k)) blank_getter,
    )
  ]
]

-- And no thread comes to have two getters.
pub obtain_getter-Unique :
    (th : Thread) (t i : ℕ) (mmgs gs : List Getter)
    → obtain_getter th t mmgs ≡ some (i, gs)
    → Unique mmgs
    → Unique gs
unfolding obtain_getter
obtain_getter-Unique th t i mmgs gs e u a b th' ha hb oa ob =
    elim (Option-cases (lock_getter th mmgs)) [
      | inr (k, found) ↦ ground (arith, u a b th')
      | inl new ↦ elim (Option-cases (find_index is_free mmgs)) [
        | inl full ↦ ground arith
        | inr (k, free) ↦ ground (
          arith,
          u a b th',
          find_index_sound is_free mmgs blank_getter k free,
          find_last_index-none (is_of th) mmgs blank_getter a new,
          find_last_index-none (is_of th) mmgs blank_getter b new,
          length-set mmgs k (claim th t (getter_at mmgs k)),
          get_or-set mmgs k a (claim th t (getter_at mmgs k)) blank_getter,
          get_or-set mmgs k b (claim th t (getter_at mmgs k)) blank_getter,
        )
      ]
    ]

-- Where each thread has one getter at most, the search without `break` and the one with it find the
-- same getter.
pub unlock_getter-lock_getter :
    (th : Thread) (gs : List Getter) → Unique gs → unlock_getter th gs ≡ lock_getter th gs
unlock_getter-lock_getter th gs u = elim (Option-cases (unlock_getter th gs)) [
  | inl n ↦ elim (Option-cases (lock_getter th gs)) [
    | inl n' ↦ cc (n, n')
    | inr (k', e') ↦
        let (h', o') = find_last_index_sound (is_of th) gs blank_getter k' e' in
        cc (o', find_index-none (is_of th) gs blank_getter k' n h')
  ]
  | inr (k, e) ↦ elim (Option-cases (lock_getter th gs)) [
    | inl n' ↦
        let (h, o) = find_index_sound (is_of th) gs blank_getter k e in
        cc (o, find_last_index-none (is_of th) gs blank_getter k n' h)
    | inr (k', e') ↦
        let (h, o) = find_index_sound (is_of th) gs blank_getter k e in
        let (h', o') = find_last_index_sound (is_of th) gs blank_getter k' e' in
        cc (e, e', u k k' th h h' o o')
  ]
]

pub length-obtain_getter :
    (th : Thread) (t i : ℕ) (mmgs gs : List Getter)
    → obtain_getter th t mmgs ≡ some (i, gs)
    → length gs ≡ length mmgs
unfolding obtain_getter
length-obtain_getter th t i mmgs gs e = elim (Option-cases (lock_getter th mmgs)) [
  | inr (k, found) ↦ ground arith
  | inl new ↦ elim (Option-cases (find_index is_free mmgs)) [
    | inl full ↦ ground arith
    | inr (k, free) ↦ ground (arith, length-set mmgs k (claim th t (getter_at mmgs k)))
  ]
]
