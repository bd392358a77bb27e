-- ===== src/Mutex/System/Noted/Moves.antt =====
-- What each step of a thread notes in the getters of common/mymutex.c.
use ktrpg.Base.{
  ℕ, ◌<◌, ◌≤◌, ◌≡◌, ◌≢◌, refl, ap, sym, subst, ◌∙◌, inl, inr, Bool, true, false, List, length,
  arith, ◌==◌, if◌then◌else◌, ℕ_discrete, Bool-cases, get_or-set_keeps, map, set,
}
use ktrpg.Mutex.Types.{Thread, Store, blank_getter, mymutex_type_max, mymutex_type_beforelock}
use ktrpg.Mutex.Deadlock.{getter_at, holds}
use ktrpg.Mutex.Table.{returned, is_of, pthread_mutex_lock}
use ktrpg.Mutex.Identity.Calls.{Evolves, Leaves, Leaves-pthread}
use ktrpg.Mutex.Lock.Owners.{slots_of, filled}
use ktrpg.Mutex.Lock.Room.{filled-IsRoomy, holds-clear_other, clear-IsRoomy}
use ktrpg.Mutex.Unlock.{clear_slot, cleared, unlock_inside}
use ktrpg.Mutex.Unlock.Release.{slots_of-cleared}
use ktrpg.Mutex.Stage.{Began, waits, begin_lock, end_lock}
use ktrpg.Mutex.Stage.Getters.{BeginsOn, begin_lock-BeginsOn}
use ktrpg.Mutex.Stage.Owners.{returned-injective, lock-owners}
use ktrpg.Mutex.Stage.Slots.{begin_lock-Slots, BeginsSlots}
use ktrpg.Mutex.Stage.Slots.Ends.{end_lock-Slots, unlock-Slots}
use ktrpg.Mutex.Stage.Flags.{flags, flags_at, begun-flags, end_lock-flags}
use ktrpg.Mutex.Stage.Asked.{BeginsAsking, begin_lock-BeginsAsking}
use ktrpg.Mutex.System.{
  Place, idle, inside_lock, wants, settles, inside_unlock, Local, IsMutex, update, at, Move,
  call_lock, enter_lock, give_up, hang, begin, take, return_to, end, call_unlock, enter_unlock,
  leave,
}
use ktrpg.Mutex.System.Owned.{Owns, Keeps}
use ktrpg.Mutex.System.Getters.{IsOwn, works_on}
use ktrpg.Mutex.System.Slots.{Slotted}
use ktrpg.Mutex.System.Noted.{Marks, Noted, Roomy, Notes, touched, untouched}

module _ (fuel : ℕ) (may : Local → ℕ → Bool) (th : Thread) (l : Local) (s s' : Store)
    (room : mymutex_type_max ≤ length s.mmutex) (k : Keeps th l s)
    (mine : IsOwn th s.mmgetter l.place) (sl : Slotted s) (marks : Marks s.mmgetter l.place)
    (note : Noted th s.mmgetter l.has) (roomy : Roomy s.mmgetter)
    (ev : Evolves s.mmgetter s'.mmgetter) where
  at_place : {p : Place} → l.place ≡ p → Owns th l.has p s
  at_place e = subst (λ p. Owns th l.has p s) e k.place

  marked : {p : Place} → l.place ≡ p → Marks s.mmgetter p
  marked e = subst (Marks s.mmgetter) e marks

  stays :
      (m l' : Local)
      → s'.mmgetter ≡ s.mmgetter
      → Marks s.mmgetter m.place
      → ((u : ℕ) → m.has u ≡ true → l.has u ≡ true)
      → l' ≡ m
      → Notes th s.mmgetter s'.mmgetter l'
  stays = untouched th s.mmgetter s'.mmgetter l.has note roomy

  locked : (t : ℕ) → pthread_mutex_lock th t s ≡ returned s' → s'.mmgetter ≡ s.mmgetter
  locked t e =
      subst (Leaves (λ gs. gs ≡ s.mmgetter)) e (Leaves-pthread (λ gs. gs ≡ s.mmgetter) th t s refl)

  began :
      (t : ℕ) (comment : List ℕ) {b : Began}
      → l.place ≡ inside_lock t comment
      → begin_lock fuel th t s ≡ b
      → BeginsAsking th t s b × BeginsSlots s.mmgetter b
  began t comment q e =
      let ok = (at_place q).0 in
      subst (λ b. BeginsAsking th t s b × BeginsSlots s.mmgetter b) e
        (begin_lock-BeginsAsking fuel th t s (sl.types t ok.0 ok.1), begin_lock-Slots fuel th t s)

  -- A mutex that is got just now is in no slot of the getter.
  takes :
      (t i : ℕ) (b : Bool) (c : List ℕ)
      → l.place ≡ wants t i b c
      → pthread_mutex_lock th t s ≡ returned s'
      → holds t (slots_of s.mmgetter i) ≡ false
  takes t i b c q e = elim (Bool-cases (holds t (slots_of s.mmgetter i))) [
    | inr no_slot ↦ no_slot
    | inl held ↦
        let ok = at_place q in
        let own = sl.owned i t th ok.0 (mine i (ap works_on q)).1 held in
        absurd (cc (own, (lock-owners th t s s' (omega (arith, room, ok.1)) e).0))
  ]

  begins :
      (t i : ℕ) (b : Bool) (c : List ℕ) (l' : Local)
      → l.place ≡ inside_lock t c
      → begin_lock fuel th t s ≡ waits i b s'
      → l' ≡ at (wants t i b c) l
      → Notes th s.mmgetter s'.mmgetter l'
  begins t i b c l' q e e' =
      let ((gs, found, seen), claims) = began t c q e in
      let (now, others) = begun-flags th t i s.mmgetter gs s'.mmgetter found seen in
      let (ev', lt, own) = subst (BeginsOn th s.mmgetter) e (begin_lock-BeginsOn fuel th t s) in
      touched th s.mmgetter s'.mmgetter l.has note roomy i (slots_of s.mmgetter i)
        (at (wants t i b c) l) l' ev own
        (λ j. elim (ℕ_discrete i j) [
          | yes r ↦ (claims j).0 ∙ ap (slots_of s.mmgetter) (sym r) ∙ ground (arith, r)
          | no nr ↦ (claims j).0 ∙ ground (arith, nr)
        ])
        others (roomy i) (λ u h. inr (h, λ h'. h')) now e'

  ends :
      (t i : ℕ) (b : Bool) (c : List ℕ) (l' : Local)
      → l.place ≡ settles t i b c
      → s' ≡ end_lock th t i b c s
      → l' ≡ record { place = idle; has = update l.has t true }
      → Notes th s.mmgetter s'.mmgetter l'
  ends t i b c l' q e e' =
      let ok = (at_place q).0 in
      let (lt, own) = mine i (ap works_on q) in
      let (slots, types) = end_lock-Slots th t i b c s lt in
      let (room', full) =
        filled-IsRoomy t (slots_of s.mmgetter i) ok.0 ok.1 (marked q) (roomy i lt) in
      touched th s.mmgetter s'.mmgetter l.has note roomy i (filled t (slots_of s.mmgetter i))
        (record { place = idle; has = update l.has t true }) l' ev (ev.stays i th own)
        (λ j.
          ap (λ (x : Store). slots_of x.mmgetter j) e
          ∙ slots j
          ∙ ap (λ x. if i == j then filled x (slots_of s.mmgetter i) else slots_of s.mmgetter j)
              (sl.types t ok.0 ok.1))
        (λ j nr.
          ap (λ (x : Store). flags_at x.mmgetter j) e
          ∙ end_lock-flags th t i b c s j lt
          ∙ ground (arith, nr))
        (λ lt'. room')
        (λ u h. elim (ℕ_discrete t u) [
          | yes r ↦ inl (full u (λ z. ok.0 (r ∙ z)) ∙ ground (arith, r))
          | no nr ↦
              let before : l.has u ≡ true = ground (arith, h, nr) in
              inr (before, λ h'. full u (k.has u before).0.0 ∙ ground (arith, h'))
        ])
        tt e'

  clears :
      (t i : ℕ) (l' : Local)
      → IsMutex t
      → l.has t ≡ false
      → i < length s.mmgetter
      → is_of th (getter_at s.mmgetter i) ≡ true
      → s'.mmgetter ≡ set s.mmgetter i (cleared t (getter_at s.mmgetter i))
      → l' ≡ at idle l
      → Notes th s.mmgetter s'.mmgetter l'
  clears t i l' ok gone lt own table e' =
      touched th s.mmgetter s'.mmgetter l.has note roomy i
        (map (clear_slot t) (slots_of s.mmgetter i)) (at idle l) l' ev (ev.stays i th own)
        (λ j. ap (λ x. slots_of x j) table ∙ slots_of-cleared t i j s.mmgetter lt)
        (λ j nr.
          ap (λ x. flags_at x j) table ∙ get_or-set_keeps flags s.mmgetter i j _ blank_getter refl)
        (λ lt'. clear-IsRoomy t (slots_of s.mmgetter i) ok.0 ok.1 (roomy i lt'))
        (λ u h.
          let other : t ≢ u = λ r. cc (h, gone, ap l.has r) in
          inr (h, λ h'. holds-clear_other t u (slots_of s.mmgetter i) (k.has u h).0.0 other ∙ h'))
        tt e'

  leaves :
      (t : ℕ) (l' : Local)
      → l.place ≡ inside_unlock t
      → unlock_inside th t s ≡ returned s'
      → l' ≡ at idle l
      → Notes th s.mmgetter s'.mmgetter l'
  leaves t l' q e e' =
      let (ok, owner, gone, own0) = at_place q in
      let (s1, e1, types, how) = unlock-Slots th t s (omega arith) (omega (arith, room, ok.1)) in
      let table : s'.mmgetter ≡ s1.mmgetter =
        ap (λ (x : Store). x.mmgetter) (returned-injective (sym e ∙ e1)) in
      elim how [
        | inl (owners, same) ↦ stays (at idle l) l' (table ∙ same) tt (λ u h. h) e'
        | inr (i, lt, own, owners, written) ↦
            clears t i l' ok gone lt own
              (table
                ∙ written
                ∙ ap (λ x. set s.mmgetter i (cleared x (getter_at s.mmgetter i)))
                    (sl.types t ok.0 ok.1))
              e'
      ]

  pub Move-Notes : {l' : Local} → Move fuel may th l s l' s' → Notes th s.mmgetter s'.mmgetter l'
  Move-Notes (call_lock t c q ok e e') =
      stays _ _ (ap (λ (x : Store). x.mmgetter) e') tt (λ u h. h) e
  Move-Notes (enter_lock t c q e e') = stays _ _ (locked mymutex_type_beforelock e) tt (λ u h. h) e'
  Move-Notes (give_up t c q e e') = stays _ _ (began t c q e).0 tt (λ u h. h) e'
  Move-Notes (hang t c q e e' e'') = stays _ _ (ap (λ (x : Store). x.mmgetter) e'') tt (λ u h. h) e'
  Move-Notes (begin t i b c q e e') = begins t i b c _ q e e'
  Move-Notes (take t i b c q e e') = stays _ _ (locked t e) (takes t i b c q e) (λ u h. h) e'
  Move-Notes (return_to t i b c q e e') =
      stays _ _ (locked mymutex_type_beforelock e) (marked q) (λ u h. h) e'
  Move-Notes (end t i b c q e e') = ends t i b c _ q e e'
  Move-Notes (call_unlock t q ok h e e') =
      stays _ _ (ap (λ (x : Store). x.mmgetter) e') tt (λ u h'. ground (arith, h')) e
  Move-Notes (enter_unlock t q e e') = stays _ _ (locked mymutex_type_beforelock e) tt (λ u h. h) e'
  Move-Notes (leave t q e e') = leaves t _ q e e'
