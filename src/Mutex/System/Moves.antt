-- ===== src/Mutex/System/Moves.antt =====
-- Each step of a thread: what it does to the owners of the mutexes, and that its part is kept.
use ktrpg.Base.{
  ℕ, ◌≤◌, ◌≡◌, ◌≢◌, refl, ap, sym, subst, ◌∙◌, inl, inr, Bool, true, false, none, some, List,
  length, arith, ◌==◌, if◌then◌else◌, ℕ_discrete,
}
use ktrpg.Mutex.Types.{Thread, Store, mymutex_type_max, mymutex_type_beforelock}
use ktrpg.Mutex.Table.{returned, pthread_mutex_lock}
use ktrpg.Mutex.Lock.Owners.{owner_of}
use ktrpg.Mutex.Unlock.{unlock_inside}
use ktrpg.Mutex.Stage.{Began, begin_lock, end_lock}
use ktrpg.Mutex.Stage.Owners.{
  keeps, takes, frees, frees_both, Freed, Freed-owners, Freed-size, Frees, begin_lock-Frees,
  end_lock-owners, lock-owners, unlock-owners, returned-injective,
}
use ktrpg.Mutex.System.{
  Place, idle, asks_lock, inside_lock, searching, wants, owns, settles, inside_unlock, Local, at,
  update, IsMutex, IsOrderly, Move, call_lock, enter_lock, give_up, hang, begin, take, return_to,
  end, call_unlock, enter_unlock, leave,
}
use ktrpg.Mutex.System.Owned.{Owns, Has, Keeps, in_section, Section, Moved}

module _ (fuel : ℕ) (may : Local → ℕ → Bool) (th : Thread) (l : Local) (s s' : Store)
    (room : mymutex_type_max ≤ length s.mmutex) (k : Keeps th l s) where
  at_place : {p : Place} → l.place ≡ p → Owns th l.has p s
  at_place e = subst (λ p. Owns th l.has p s) e k.place

  moved : {l' : Local} (m : Local) → l' ≡ m → Moved th l.place s m s' → Moved th l.place s l' s'
  moved m e h = subst (λ x. Moved th l.place s x s') (sym e) h

  -- Only the thread's own part changes.
  still :
      {m : Local} → s' ≡ s → Keeps th m s → Section th l.place m.place s s → Moved th l.place s m s'
  still {m} e keep section =
      subst (λ x. Moved th l.place s m x) (sym e)
        (record { size = refl; change = keeps (λ u. refl); keep = keep; section = section })

  -- BEFORELOCK is got.
  enters :
      (p : Place)
      → in_section p ≡ true
      → pthread_mutex_lock th mymutex_type_beforelock s ≡ returned s'
      → ((owner_of s 0 ≡ none)
          → ((u : ℕ) → owner_of s' u ≡ (if 0 == u then some th else owner_of s u))
          → Owns th l.has p s')
      → Moved th l.place s (at p l) s'
  enters p within e own =
      let (free, owners, size) = lock-owners th 0 s s' (omega arith) e in
      record {
        size = size;
        change = takes 0 free owners;
        keep = record {
          place = own free owners;
          has = λ t h. let (ok, o) = k.has t h in (ok, ground (arith, owners t));
        };
        section = λ o h. inl (ground (arith, owners 0), within);
      }

  -- BEFORELOCK is given up.
  gives :
      (p : Place)
      → owner_of s 0 ≡ some th
      → Freed s s'
      → (((u : ℕ) → owner_of s' u ≡ (if 0 == u then none else owner_of s u)) → Owns th l.has p s')
      → Moved th l.place s (at p l) s'
  gives p own f place =
      let owners = Freed-owners s s' (omega arith) f in
      record {
        size = Freed-size s s' f;
        change = frees own owners;
        keep = record {
          place = place owners;
          has = λ t h. let (ok, o) = k.has t h in (ok, ground (arith, ok.0, owners t));
        };
        section = λ o h. absurd (ground (arith, owners 0));
      }

  began : (t : ℕ) {b : Began} → begin_lock fuel th t s ≡ b → Frees s b
  began t e = subst (Frees s) e (begin_lock-Frees fuel th t s)

  taken :
      (t i : ℕ) (bbool : Bool) (comment : List ℕ)
      → l.place ≡ wants t i bbool comment
      → IsMutex t
      → pthread_mutex_lock th t s ≡ returned s'
      → Moved th l.place s (at (owns t i bbool comment) l) s'
  taken t i bbool comment p ok e =
      let (free, owners, size) = lock-owners th t s s' (omega (arith, ok.1)) e in
      record {
        size = size;
        change = takes t free owners;
        keep = record {
          place = (ok, ground (arith, owners t));
          has = λ u h. let (okay, o) = k.has u h in (okay, ground (arith, owners u));
        };
        section = λ o h. inr (ground (arith, ok.0, owners 0), ap in_section p);
      }

  ended :
      (t i : ℕ) (bbool : Bool) (comment : List ℕ)
      → IsMutex t
      → owner_of s t ≡ some th
      → owner_of s 0 ≡ some th
      → s' ≡ end_lock th t i bbool comment s
      → Moved th l.place s (record { place = idle; has = update l.has t true }) s'
  ended t i bbool comment ok own own0 e =
      let (owners0, size0) = end_lock-owners th t i bbool comment s (omega arith) in
      let owners : ((u : ℕ) → owner_of s' u ≡ (if 0 == u then none else owner_of s u)) =
        λ u. ap (λ x. owner_of x u) e ∙ owners0 u in
      record {
        size = ap (λ (x : Store). length x.mmutex) e ∙ size0;
        change = frees own0 owners;
        keep = record { place = tt; has = λ u h. now owners u h };
        section = λ o h. absurd (ground (arith, owners 0));
      }
    where
      now :
          ((u : ℕ) → owner_of s' u ≡ (if 0 == u then none else owner_of s u))
          → Has th (update l.has t true) s'
      now owners u h = elim (ℕ_discrete t u) [
        | yes q ↦
            subst (λ v. IsMutex v × (owner_of s' v ≡ some th)) q
              (ok, ground (arith, ok.0, own, owners t))
        | no nq ↦
            let (okay, o) = k.has u (ground (arith, h)) in (okay, ground (arith, okay.0, owners u))
      ]

  left :
      (t : ℕ)
      → IsMutex t
      → owner_of s t ≡ some th
      → l.has t ≡ false
      → owner_of s 0 ≡ some th
      → unlock_inside th t s ≡ returned s'
      → Moved th l.place s (at idle l) s'
  left t ok own gone own0 e =
      let (s1, e1, size, owners) = unlock-owners th t s (omega arith) (omega (arith, ok.1)) in
      subst (λ x. Moved th l.place s (at idle l) x) (returned-injective (sym e1 ∙ e))
        (elim owners [
          | inl one ↦ record {
            size = size;
            change = frees own0 one;
            keep = record {
              place = tt;
              has = λ u h. let (okay, o) = k.has u h in (okay, ground (arith, okay.0, one u));
            };
            section = λ o h. absurd (ground (arith, one 0));
          }
          | inr both ↦ record {
            size = size;
            change = frees_both t own0 own both;
            keep = record { place = tt; has = λ u h. kept s1 both u h };
            section = λ o h. absurd (ground (arith, both 0));
          }
        ])
    where
      other : (u : ℕ) → l.has u ≡ true → t ≢ u
      other u h q = cc (ap l.has q)

      kept :
          (x : Store)
          → ((u : ℕ)
              → owner_of x u ≡ (if 0 == u then none else (if t == u then none else owner_of s u)))
          → Has th l.has x
      kept x both u h =
          let (okay, o) = k.has u h in (okay, ground (arith, okay.0, both u, other u h))

  pub Move-Moved :
      {l' : Local} → IsOrderly may → Move fuel may th l s l' s' → Moved th l.place s l' s'
  Move-Moved orderly (call_lock t comment at_idle ok e q) =
      moved (at (asks_lock t comment) l) e
        (still q (record { place = ok; has = k.has }) (λ o h. inr (h, ap in_section at_idle)))
  Move-Moved orderly (enter_lock t comment p e q) = moved (at (inside_lock t comment) l) q (
      enters (inside_lock t comment) refl e (λ free owners. (at_place p, ground (arith, owners 0))))
  Move-Moved orderly (give_up t comment p e q) =
      moved (at idle l) q (gives idle (at_place p).1 (began t e) (λ owners. tt))
  Move-Moved orderly (hang t comment p e q r) = moved (at searching l) q (
      still r (record { place = (at_place p).1; has = k.has })
        (λ o h. inl (ground (arith, (at_place p).1), refl)))
  Move-Moved orderly (begin t i bbool comment p e q) =
      moved (at (wants t i bbool comment) l) q
        (gives (wants t i bbool comment) (at_place p).1 (began t e) (λ owners. (at_place p).0))
  Move-Moved orderly (take t i bbool comment p e q) =
      moved (at (owns t i bbool comment) l) q (taken t i bbool comment p (at_place p) e)
  Move-Moved orderly (return_to t i bbool comment p e q) =
      moved (at (settles t i bbool comment) l) q (
        enters (settles t i bbool comment) refl e (λ free owners.
          ((at_place p).0, ground (arith, owners t, (at_place p).1), ground (arith, owners 0))))
  Move-Moved orderly (end t i bbool comment p e q) =
      let (ok, own, own0) = at_place p in moved _ q (ended t i bbool comment ok own own0 e)
  Move-Moved orderly (call_unlock t at_idle ok h q r) = moved _ q (
      still r
        (record {
          place = (ok, (k.has t (orderly l t h)).1, ground arith);
          has = λ u g. k.has u (ground (arith, g));
        })
        (λ o g. inr (g, ap in_section at_idle)))
  Move-Moved orderly (enter_unlock t p e q) =
      let (ok, own, gone) = at_place p in
      moved (at (inside_unlock t) l) q (
        enters (inside_unlock t) refl e
          (λ free owners. (ok, ground (arith, owners t, own), gone, ground (arith, owners 0))))
  Move-Moved orderly (leave t p e q) =
      let (ok, own, gone, own0) = at_place p in moved (at idle l) q (left t ok own gone own0 e)
