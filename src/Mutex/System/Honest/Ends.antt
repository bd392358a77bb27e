-- ===== src/Mutex/System/Honest/Ends.antt =====
-- The slots after the last stage of `mymutex_lock` and after an unlock, against what the thread has got.
use ktrpg.Base.{
  ℕ, ◌≤◌, ◌≡◌, ◌≢◌, refl, ap, sym, subst, ◌∙◌, inl, inr, Bool, true, false, List, length, arith,
  ◌==◌, if◌then◌else◌, ℕ_discrete, Option-cases, find_index-none, find_index_sound,
  get_or-set_keeps, map,
}
use ktrpg.Mutex.Types.{Thread, Store, blank_getter, mymutex_type_max, mymutex_type_beforelock}
use ktrpg.Mutex.Deadlock.{getter_at, holds}
use ktrpg.Mutex.Table.{returned, is_of, unlock_getter, pthread_mutex_unlock}
use ktrpg.Mutex.Identity.{Unique, ident}
use ktrpg.Mutex.Lock.Owners.{type_of, slots_of, filled}
use ktrpg.Mutex.Unlock.{clear_slot, unlock_inside, mymutex_getter_unlock}
use ktrpg.Mutex.Unlock.Release.{slots_of-cleared, holds-clear, getter_unlock-table}
use ktrpg.Mutex.Stage.{end_lock}
use ktrpg.Mutex.Stage.Getters.{end_lock-Same}
use ktrpg.Mutex.Stage.Owners.{returned-injective}
use ktrpg.Mutex.Stage.Slots.Ends.{end_lock-Slots, unlock-Slots}
use ktrpg.Mutex.System.{Place, idle, settles, inside_unlock, Local, update, at}
use ktrpg.Mutex.System.Owned.{Owns, Keeps}
use ktrpg.Mutex.System.Getters.{IsOwn, works_on}
use ktrpg.Mutex.System.Slots.{Slotted, holds-filled, holds-map-clear, in_table, is_of-used}
use ktrpg.Mutex.System.Honest.{unlocking, Honest, Told, ident-Back}

module _ (fuel : ℕ) (may : Local → ℕ → Bool) (th : Thread) (l : Local) (s s' : Store)
    (room : mymutex_type_max ≤ length s.mmutex) (k : Keeps th l s)
    (mine : IsOwn th s.mmgetter l.place) (unique : Unique s.mmgetter) (sl : Slotted s)
    (honest : Honest th l s.mmgetter) where
  pub at_place : {p : Place} → l.place ≡ p → Owns th l.has p s
  at_place e = subst (λ p. Owns th l.has p s) e k.place

  -- At a place that is not in an unlock, what is in a slot has been got.
  pub got :
      {p : Place}
      → l.place ≡ p
      → ((t : ℕ) → unlocking t p ≡ false)
      → (j t : ℕ) → t ≢ 0
      → is_of th (getter_at s.mmgetter j) ≡ true
      → holds t (slots_of s.mmgetter j) ≡ true
      → l.has t ≡ true
  got q not_here j t ne oj h = elim (honest j t ne oj h) [
    | inl has ↦ has
    | inr here ↦ absurd (cc (here, ap (unlocking t) q, not_here t))
  ]

  -- What is in a slot after the last stage was in it before, or is the mutex just got.
  ends_has :
      (t i : ℕ) (b : Bool) (c : List ℕ)
      → l.place ≡ settles t i b c
      → (j u : ℕ) → u ≢ 0
      → is_of th (getter_at s.mmgetter j) ≡ true
      → holds u
          (if i == j then filled (type_of s t) (slots_of s.mmgetter i) else slots_of s.mmgetter j)
        ≡ true
      → update l.has t true u ≡ true
  ends_has t i b c q j u ne oj h =
      let ok = (at_place q).0 in
      let before : holds u (slots_of s.mmgetter j) ≡ true → update l.has t true u ≡ true =
        λ old. ground (arith, got q (λ v. refl) j u ne oj old) in
      elim (ℕ_discrete i j) [
        | no nr ↦
            let at_j : (if i == j
                  then filled (type_of s t) (slots_of s.mmgetter i)
                  else slots_of s.mmgetter j)
                ≡ slots_of s.mmgetter j =
              ground (arith, nr) in
            before (ap (holds u) (sym at_j) ∙ h)
        | yes r ↦
            let at_j : (if i == j
                  then filled (type_of s t) (slots_of s.mmgetter i)
                  else slots_of s.mmgetter j)
                ≡ filled (type_of s t) (slots_of s.mmgetter i) =
              ground (arith, r) in
            elim (holds-filled u (type_of s t) (slots_of s.mmgetter i)
              (ap (holds u) (sym at_j) ∙ h)) [
                | inl old ↦ before (ap (λ x. holds u (slots_of s.mmgetter x)) (sym r) ∙ old)
                | inr now ↦
                    let this : t ≡ u = sym (sl.types t ok.0 ok.1) ∙ now in ground (arith, this)
              ]
      ]

  pub ends :
      (t i : ℕ) (b : Bool) (c : List ℕ) (l' : Local)
      → l.place ≡ settles t i b c
      → s' ≡ end_lock th t i b c s
      → l' ≡ record { place = idle; has = update l.has t true }
      → Told th s.mmgetter s'.mmgetter l'
  ends t i b c l' q e e' =
      let ok = (at_place q).0 in
      let slots = (end_lock-Slots th t i b c s (mine i (ap works_on q)).0).0 in
      record {
        back = ident-Back s.mmgetter s'.mmgetter (λ j.
            ap (λ (x : Store). ident (getter_at x.mmgetter j)) e
            ∙ (end_lock-Same th t i b c s).same j);
        own = λ j u ne oj h.
            let h' : holds u (
                  if i == j
                  then filled (type_of s t) (slots_of s.mmgetter i)
                  else slots_of s.mmgetter j)
                ≡ true =
              sym (ap (holds u) (ap (λ (x : Store). slots_of x.mmgetter j) e ∙ slots j)) ∙ h in
            inl (ap (λ (a : Local). a.has u) e' ∙ ends_has t i b c q j u ne oj h');
      }

  -- What is in a slot after an unlock was in it before, and is another mutex.
  leaves_has :
      (t : ℕ)
      → l.place ≡ inside_unlock t
      → unlock_inside th t s ≡ returned s'
      → (j u : ℕ) → u ≢ 0
      → is_of th (getter_at s.mmgetter j) ≡ true
      → holds u (slots_of s'.mmgetter j) ≡ true
      → l.has u ≡ true
  unfolding unlock_inside
  leaves_has t q e j u ne oj h =
      let ok = (at_place q).0 in
      let lt = in_table s.mmgetter j (is_of-used th (getter_at s.mmgetter j) oj) in
      elim (Option-cases (unlock_getter th s.mmgetter)) [
        | inl none_found ↦
            absurd (cc (oj, find_index-none (is_of th) s.mmgetter blank_getter j none_found lt))
        | inr (i, found) ↦
            let (lt_i, own) = find_index_sound (is_of th) s.mmgetter blank_getter i found in
            let done : s'
                ≡ pthread_mutex_unlock mymutex_type_beforelock (mymutex_getter_unlock t i s) =
              returned-injective (sym e ∙ rw (found, unlock_inside) refl) in
            let h' : holds u (map (clear_slot t) (slots_of s.mmgetter j)) ≡ true =
              ap (holds u) (
                sym (
                  ap (λ (x : Store). slots_of x.mmgetter j) done
                  ∙ ap (λ gs. slots_of gs j) (getter_unlock-table t i s)
                  ∙ slots_of-cleared (type_of s t) i j s.mmgetter lt_i
                  ∙ ground (arith, sl.types t ok.0 ok.1, unique i j th lt_i lt own oj)))
              ∙ h in
            elim (honest j u ne oj (holds-map-clear u t (slots_of s.mmgetter j) ne h')) [
              | inl has ↦ has
              | inr here ↦
                  let this : u ≡ t =
                    let at_t : unlocking u (inside_unlock t) ≡ true =
                      ap (unlocking u) (sym q) ∙ here in
                    ground (arith, at_t) in
                  absurd (cc (h', holds-clear t (slots_of s.mmgetter j) ok.0, this))
            ]
      ]

  pub leaves :
      (t : ℕ) (l' : Local)
      → l.place ≡ inside_unlock t
      → unlock_inside th t s ≡ returned s'
      → l' ≡ at idle l
      → Told th s.mmgetter s'.mmgetter l'
  leaves t l' q e e' =
      let (ok, owner, gone, own0) = at_place q in
      let (s1, e1, types, how) = unlock-Slots th t s (omega arith) (omega (arith, room, ok.1)) in
      let table : s'.mmgetter ≡ s1.mmgetter =
        ap (λ (x : Store). x.mmgetter) (returned-injective (sym e ∙ e1)) in
      record {
        back = ident-Back s.mmgetter s'.mmgetter (λ j.
            ap (λ gs. ident (getter_at gs j)) table ∙ elim how [
              | inl (owners, still) ↦ ap (λ gs. ident (getter_at gs j)) still
              | inr (i, lt, own, owners, written) ↦
                  ap (λ gs. ident (getter_at gs j)) written
                  ∙ get_or-set_keeps ident s.mmgetter i j _ blank_getter refl
            ]);
        own = λ j u ne oj h. inl (ap (λ (a : Local). a.has u) e' ∙ leaves_has t q e j u ne oj h);
      }
