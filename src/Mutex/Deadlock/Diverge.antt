-- ===== src/Mutex/Deadlock/Diverge.antt =====
-- Where the `while (1)` of `isDeadLock` never ends.
use ktrpg.Base.{
  ℕ, zero, suc, ◌<◌, ◌≡◌, ◌≢◌, sym, subst, ap, refl, ◌∙◌, true, false, none, some, List, length,
  any-get_or, length-set, get_or-set_ne,
}
use ktrpg.Mutex.Types.{Getter, blank_getter}
use ktrpg.Mutex.Deadlock.{getter_at, uncounted, set_counted, mark, walk, is_dead_lock}
use ktrpg.Mutex.Deadlock.Chain.{
  IsWaiting, holder_of, Alike, Alike-mark, Alike-sym, Alike-start, start, is_dead_lock-some,
  walk-round,
}
use ktrpg.Mutex.Deadlock.Complete.{counted-start, length-start}

-- A set of waiting getters other than `me`, closed under going to the holder: a cycle that does not
-- lead through `me`.
abbrev pub Trap : List Getter → ℕ → (ℕ → Type 0) → Type 0
Trap mmgs me S =
    (i : ℕ) → S i → (i ≢ me) × IsWaiting mmgs i × ((k : ℕ) × (holder_of mmgs i ≡ some k) × S k)

Trap-Alike : {a b : List Getter} (me : ℕ) (S : ℕ → Type 0) → Alike a b → Trap a me S → Trap b me S
Trap-Alike me S s t i h =
    let (ne, w, (k, e, hk)) = t i h in (ne, sym (s.waited i) ∙ w, (k, sym (s.held i) ∙ e, hk))

-- A getter outside the trap that is in use and has not been counted.
record Bystander (mmgs : List Getter) (S : ℕ → Type 0) (u : ℕ) : Type 0 where
  outside : ¬ S u
  in_range : u < length mmgs
  used : (getter_at mmgs u).is_used ≡ true
  fresh : (getter_at mmgs u).counted ≡ false

walk-never :
    (fuel me temp u : ℕ) (mmgs : List Getter) (S : ℕ → Type 0)
    → Trap mmgs me S
    → Bystander mmgs S u
    → S temp
    → walk fuel me temp mmgs ≡ none
unfolding walk
walk-never zero me temp u mmgs S t b s = refl
walk-never (suc fuel) me temp u mmgs S t b s =
    let (ne, w, (k, h, sk)) = t temp s in
    walk-round fuel me temp k mmgs ne w h
      (any-get_or uncounted mmgs blank_getter u b.in_range (rw (b.used, b.fresh)))
    ∙ walk-never fuel me k u (mark temp mmgs) S
        (Trap-Alike me S (Alike-sym (Alike-mark mmgs temp)) t)
        (record {
          outside = b.outside;
          in_range = rw (length-set mmgs temp (set_counted true (getter_at mmgs temp))) b.in_range;
          used = (Alike-mark mmgs temp).used u ∙ b.used;
          fresh =
              ap (λ g. g.counted)
                (get_or-set_ne mmgs temp u _ blank_getter (λ q. b.outside (subst S q s)))
              ∙ b.fresh;
        })
        sk

-- The search never ends, whatever the fuel: if the holder of what `me` waits for lies in a set of
-- waiting getters, without `me`, that is closed under going to the holder, and a getter in use
-- stands outside that set and is not `me`.
pub is_dead_lock_never :
    (fuel me k u : ℕ) (mmgs : List Getter) (S : ℕ → Type 0)
    → holder_of mmgs me ≡ some k
    → S k
    → Trap mmgs me S
    → ¬ S u
    → u ≢ me
    → u < length mmgs
    → (getter_at mmgs u).is_used ≡ true
    → is_dead_lock fuel me mmgs ≡ none
is_dead_lock_never fuel me k u mmgs S h s t out ne lt used =
    is_dead_lock-some fuel me k mmgs h
    ∙ walk-never fuel me k u (start me mmgs) S (Trap-Alike me S (Alike-sym (Alike-start me mmgs)) t)
        (record {
          outside = out;
          in_range = rw (length-start mmgs me) lt;
          used = (Alike-start me mmgs).used u ∙ used;
          fresh = counted-start mmgs me u (λ q. ne (sym q));
        })
        s
