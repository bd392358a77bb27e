-- ===== src/Mutex/System/Slots/Writes.antt =====
-- What the steps that write to a slot keep.
use ktrpg.Base.{
  ℕ, ◌<◌, ◌≡◌, ◌≢◌, refl, ap, sym, subst, ◌∙◌, inl, inr, Bool, true, false, none, some, map, length,
  ◌==◌, if◌then◌else◌, arith, ℕ_discrete, set, get_or-set_keeps,
}
use ktrpg.Mutex.Types.{Thread, Store, blank_getter}
use ktrpg.Mutex.Deadlock.{getter_at, holds}
use ktrpg.Mutex.Table.{is_of}
use ktrpg.Mutex.Lock.Owners.{owner_of, type_of, slots_of, filled}
use ktrpg.Mutex.Unlock.{clear_slot, cleared}
use ktrpg.Mutex.Unlock.Release.{holds-clear, slots_of-cleared}
use ktrpg.Mutex.Identity.{Unique, ident}
use ktrpg.Mutex.System.Getters.{is_of-same}
use ktrpg.Mutex.Stage.Slots.Ends.{Types}
use ktrpg.Mutex.System.Slots.{
  Slotted, holds-filled, holds-map-clear, in_table, is_of-used, is_of-id,
}

-- A mutex that is got goes into a slot of the thread's getter `i`.
pub fills-Slotted :
    (th : Thread) (t i : ℕ) (s s' : Store)
    → type_of s t ≡ t
    → owner_of s t ≡ some th
    → is_of th (getter_at s.mmgetter i) ≡ true
    → ((j : ℕ)
        → slots_of s'.mmgetter j ≡ (
            if i == j then filled (type_of s t) (slots_of s.mmgetter i) else slots_of s.mmgetter j))
    → ((j : ℕ) → ident (getter_at s'.mmgetter j) ≡ ident (getter_at s.mmgetter j))
    → Types s s'
    → ((u : ℕ) → owner_of s' u ≡ (if 0 == u then none else owner_of s u))
    → Slotted s
    → Slotted s'
fills-Slotted th t i s s' typed own mine slots same types owners sl = record {
  types = λ u ne lt. types u ∙ sl.types u ne lt;
  owned = λ j u o ne oj h.
      owners u
      ∙ ground (
        arith,
        ne,
        owned j u o ne
            (sym (is_of-id o (getter_at s'.mmgetter j) (getter_at s.mmgetter j) (same j)) ∙ oj) h,
      );
  spare = λ j u ne used. spare j u ne (sym (ap (λ (x : Bool × ℕ × ℕ). x.0) (same j)) ∙ used);
}
  where
    owned :
        (j u : ℕ) (o : Thread)
        → u ≢ 0
        → is_of o (getter_at s.mmgetter j) ≡ true
        → holds u (slots_of s'.mmgetter j) ≡ true
        → owner_of s u ≡ some o
    owned j u o ne oj h = elim (ℕ_discrete i j) [
      | no nq ↦ sl.owned j u o ne oj (ap (holds u) (sym (slots j ∙ ground (arith, nq))) ∙ h)
      | yes q ↦
          elim (holds-filled u (type_of s t) (slots_of s.mmgetter i)
            (ap (holds u) (sym (slots j ∙ ground (arith, q))) ∙ h)) [
              | inl old ↦ sl.owned i u o ne (ap (λ n. is_of o (getter_at s.mmgetter n)) q ∙ oj) old
              | inr now ↦
                  ap (owner_of s) (sym now ∙ typed)
                  ∙ own
                  ∙ ap some (
                      is_of-same th o (getter_at s.mmgetter i) mine
                        (ap (λ n. is_of o (getter_at s.mmgetter n)) q ∙ oj))
            ]
    ]

    spare :
        (j u : ℕ)
        → u ≢ 0
        → (getter_at s.mmgetter j).is_used ≡ false
        → holds u (slots_of s'.mmgetter j) ≡ false
    spare j u ne free = elim (ℕ_discrete i j) [
      | no nq ↦ ap (holds u) (slots j ∙ ground (arith, nq)) ∙ sl.spare j u ne free
      | yes q ↦ absurd (
          cc (
            free,
            is_of-used th (getter_at s.mmgetter i) mine,
            ap (λ n. (getter_at s.mmgetter n).is_used) q,
          ))
    ]

-- A mutex that is given up leaves the slots of the thread's getter `i`, its only one.
pub clears-Slotted :
    (th : Thread) (t i : ℕ) (s s' : Store)
    → t ≢ 0
    → type_of s t ≡ t
    → owner_of s t ≡ some th
    → Unique s.mmgetter
    → i < length s.mmgetter
    → is_of th (getter_at s.mmgetter i) ≡ true
    → s'.mmgetter ≡ set s.mmgetter i (cleared (type_of s t) (getter_at s.mmgetter i))
    → Types s s'
    → ((u : ℕ) → owner_of s' u ≡ (if 0 == u then none else (if t == u then none else owner_of s u)))
    → Slotted s
    → Slotted s'
clears-Slotted th t i s s' ne0 typed own unique lt mine table types owners sl = record {
  types = λ u ne lt'. types u ∙ sl.types u ne lt';
  owned = λ j u o ne oj h.
      owned j u o ne
        (sym (is_of-id o (getter_at s'.mmgetter j) (getter_at s.mmgetter j) (same j)) ∙ oj) h;
  spare = λ j u ne used. spare j u ne (sym (ap (λ (x : Bool × ℕ × ℕ). x.0) (same j)) ∙ used);
}
  where
    same : (j : ℕ) → ident (getter_at s'.mmgetter j) ≡ ident (getter_at s.mmgetter j)
    same j =
        ap (λ gs. ident (getter_at gs j)) table
        ∙ get_or-set_keeps ident s.mmgetter i j (cleared (type_of s t) (getter_at s.mmgetter i))
            blank_getter refl

    slots :
        (j : ℕ)
        → slots_of s'.mmgetter j
          ≡ (if i == j then map (clear_slot t) (slots_of s.mmgetter i) else slots_of s.mmgetter j)
    slots j =
        ap (λ gs. slots_of gs j) table
        ∙ slots_of-cleared (type_of s t) i j s.mmgetter lt
        ∙ ap
            (λ n.
              if i == j then map (clear_slot n) (slots_of s.mmgetter i) else slots_of s.mmgetter j)
            typed

    owned :
        (j u : ℕ) (o : Thread)
        → u ≢ 0
        → is_of o (getter_at s.mmgetter j) ≡ true
        → holds u (slots_of s'.mmgetter j) ≡ true
        → owner_of s' u ≡ some o
    owned j u o ne oj h = elim (ℕ_discrete i j) [
      | no nq ↦
          let old = sl.owned j u o ne oj (ap (holds u) (sym (slots j ∙ ground (arith, nq))) ∙ h) in
          elim (ℕ_discrete t u) [
            | no nt ↦ owners u ∙ ground (arith, ne, nt, old)
            | yes qt ↦
                let same_owner : o ≡ th = cc (old, own, ap (owner_of s) qt) in
                absurd (
                  nq (
                    unique i j th lt
                      (in_table s.mmgetter j (is_of-used o (getter_at s.mmgetter j) oj)) mine
                      (subst (λ x. is_of x (getter_at s.mmgetter j) ≡ true) same_owner oj)))
          ]
      | yes q ↦
          let h' : holds u (map (clear_slot t) (slots_of s.mmgetter i)) ≡ true =
            ap (holds u) (sym (slots j ∙ ground (arith, q))) ∙ h in
          let old =
            sl.owned i u o ne (ap (λ n. is_of o (getter_at s.mmgetter n)) q ∙ oj)
              (holds-map-clear u t (slots_of s.mmgetter i) ne h') in
          elim (ℕ_discrete t u) [
            | no nt ↦ owners u ∙ ground (arith, ne, nt, old)
            | yes qt ↦ absurd (cc (h', holds-clear t (slots_of s.mmgetter i) ne0, qt))
          ]
    ]

    spare :
        (j u : ℕ)
        → u ≢ 0
        → (getter_at s.mmgetter j).is_used ≡ false
        → holds u (slots_of s'.mmgetter j) ≡ false
    spare j u ne free = elim (ℕ_discrete i j) [
      | no nq ↦ ap (holds u) (slots j ∙ ground (arith, nq)) ∙ sl.spare j u ne free
      | yes q ↦ absurd (
          cc (
            free,
            is_of-used th (getter_at s.mmgetter i) mine,
            ap (λ n. (getter_at s.mmgetter n).is_used) q,
          ))
    ]
