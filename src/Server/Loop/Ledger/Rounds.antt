-- ===== src/Server/Loop/Ledger/Rounds.antt =====
-- The ledger of the descriptors through the rounds of `accept_loop`.
use ktrpg.Base.{
  ℕ, ◌+◌, ◌≡◌, ◌⊎◌, refl, subst, inl, inr, Bool, true, false, Option, none, some, List, [], ◌∷◌,
  ◌++◌, arith, ◌==◌, ◌&&◌, ltb, if◌then◌else◌, Bool-cases, Option-cases, ℤ, bit, count,
  count-append, count-set, find_index, find_index_sound, set, get_or,
}
use ktrpg.Server.Relay.{Event, child_is_full, child_no_pos, child_count, accepted, closed}
use ktrpg.Server.Loop.{
  Server, Select, max_child_le, ready, failed, timeout, Round, is_empty, accept_child, served,
  serve_children, drop_child, round, select_round, fd_setsize, all_selectable, accept_loop,
}
use ktrpg.Server.Loop.Invariant.{none_of_empty}
use ktrpg.Server.Loop.Invariant.Rounds.{Served-cases}
use ktrpg.Server.Loop.Ledger.{opens, closes, is_fd, Ledger, Dropped, serve_children-Dropped}

accept_child-Ledger : (fd : ℕ) (a : Option ℕ) (s : Server) → Ledger fd s (accept_child a s)
unfolding accept_child count
accept_child-Ledger fd none s = refl
accept_child-Ledger fd (some acc) s = elim (Option-cases (find_index is_empty s.child)) [
  | inl full ↦ rw (full, accept_child) (told (max_child_le s.child_no))
  | inr (place, e) ↦
      let (h, empty) = find_index_sound is_empty s.child none place e in
      rw (e, accept_child)
        (taken (count (is_fd fd) (set s.child place (some acc))) (count (is_fd fd) s.child)
          (get_or s.child place none) (none_of_empty (get_or s.child place none) empty)
          (count-set (is_fd fd) s.child place (some acc) none h))
]
  where
    told :
        (b : Bool)
        → Ledger fd s
            (accepted acc ∷ ((if b then child_is_full else child_no_pos) ∷ closed acc ∷ []), s)
    told true = ground arith
    told false = ground arith

    taken :
        (n m : ℕ) (o : Option ℕ)
        → o ≡ none
        → n + bit (is_fd fd o) ≡ m + bit (acc == fd)
        → count (opens fd) (accepted acc ∷ []) + m ≡ 0 + n
    taken n m o z e = ground arith

-- The state between the accept and the loop over the clients.
accepting-Ledger :
    (fd : ℕ) (b : Bool) (a : Option ℕ) (s : Server)
    → Ledger fd s (if b then accept_child a s else ([], s))
unfolding count
accepting-Ledger fd true a s = accept_child-Ledger fd a s
accepting-Ledger fd false a s = refl

-- The events of a round and the drop at its end, after the accept.
drop_child-Ledger :
    (fd : ℕ) (s : Server) (p : List Event × Server) (es : List Event) (dropped : Option ℕ) (n : ℤ)
    → Ledger fd s p
    → Dropped fd p.1.child 0 (served es dropped)
    → Ledger fd s (child_count n ∷ (p.0 ++ es), drop_child dropped p.1)
unfolding count
drop_child-Ledger fd s p es none n l d =
    ground (arith, l, d.0, d.1, count-append (opens fd) p.0 es, count-append (closes fd) p.0 es)
drop_child-Ledger fd s p es (some k) n l (z, (n', e, lt, c)) = ground (
  arith,
  l,
  z,
  c,
  e,
  count-append (opens fd) p.0 es,
  count-append (closes fd) p.0 es,
  count-set (is_fd fd) p.1.child k none none (omega arith),
)

-- The ledger of a round, where nothing in it is undefined.
abbrev Kept : ℕ → Server → Option (List Event × Server) → Type 0
Kept fd s none = Unit
Kept fd s (some p) = Ledger fd s p

Select-cases : (e : Select) → (e ≡ failed) ⊎ (e ≡ timeout) ⊎ ((mask : ℕ → Bool) × (e ≡ ready mask))
Select-cases failed = inl refl
Select-cases timeout = inr (inl refl)
Select-cases (ready mask) = inr (inr (mask, refl))

select_round-Kept : (fd soc : ℕ) (r : Round) (s : Server) → Kept fd s (select_round soc r s)
unfolding select_round count
select_round-Kept fd soc r s = elim (Select-cases r.select) [
  | inl e ↦ rw (e, select_round) refl
  | inr (inl e) ↦ rw (e, select_round) refl
  | inr (inr (mask, e)) ↦
      let p : List Event × Server = if mask soc then accept_child r.accept s else ([], s) in
      let d = serve_children-Dropped fd r mask p.1.child 0 p.1.child in
      let l = accepting-Ledger fd (mask soc) r.accept s in
      elim (Served-cases (serve_children r mask p.1.child 0 p.1.child)) [
        | inl c ↦ rw (e, select_round) (rw (c, select_round) tt)
        | inr (inl (es, c)) ↦
            rw (e, select_round)
              (rw (c, select_round)
                (drop_child-Ledger fd s p es none s.child_no l
                  (subst (Dropped fd p.1.child 0) c d)))
        | inr (inr (es, k, c)) ↦
            rw (e, select_round)
              (rw (c, select_round)
                (drop_child-Ledger fd s p es (some k) s.child_no l
                  (subst (Dropped fd p.1.child 0) c d)))
      ]
]

round-Kept : (fd soc : ℕ) (r : Round) (s : Server) → Kept fd s (round soc r s)
unfolding round
round-Kept fd soc r s = elim (Bool-cases (ltb soc fd_setsize && all_selectable s.child)) [
  | inl fits ↦ rw fits (select_round-Kept fd soc r s)
  | inr large ↦ rw large tt
]

Ledger-trans :
    (fd : ℕ) (s s1 s2 : Server) (es es' : List Event)
    → Ledger fd s (es, s1)
    → Ledger fd s1 (es', s2)
    → Ledger fd s (es ++ es', s2)
Ledger-trans fd s s1 s2 es es' p q =
    ground (arith, p, q, count-append (opens fd) es es', count-append (closes fd) es es')

-- The same of the loop.
abbrev KeptLoop : ℕ → Server → Option (List Event × Server × Bool) → Type 0
KeptLoop fd s none = Unit
KeptLoop fd s (some (es, s', ended)) = Ledger fd s (es, s')

accept_loop-Kept :
    (fd soc : ℕ) (rs : List Round) (s : Server) → KeptLoop fd s (accept_loop soc rs s)
unfolding accept_loop count
accept_loop-Kept fd soc [] s = refl
accept_loop-Kept fd soc (r ∷ rs) s = elim (Bool-cases r.signalled) [
  | inl stop ↦ rw stop refl
  | inr go ↦ elim (Option-cases (round soc r s)) [
    | inl e ↦ rw (e, accept_loop) (rw go tt)
    | inr ((es, s1), e) ↦
        let l : Kept fd s (some (es, s1)) = subst (Kept fd s) e (round-Kept fd soc r s) in
        elim (Option-cases (accept_loop soc rs s1)) [
          | inl e' ↦ rw (e, accept_loop) (rw (e', accept_loop) (rw go tt))
          | inr ((es', s2, ended), e') ↦
              rw (e, accept_loop)
                (rw (e', accept_loop)
                  (rw go (
                    Ledger-trans fd s s1 s2 es es' l
                      (subst (KeptLoop fd s1) e' (accept_loop-Kept fd soc rs s1)))))
        ]
  ]
]

-- However many rounds the loop runs, if nothing in them is undefined, a descriptor has come from
-- `accept` or been in the table before as often as it has been closed or is in the table now; so
-- none leaks, and none is closed that is not held.
pub accept_loop-Ledger :
    (fd soc : ℕ) (rs : List Round) (s s' : Server) (es : List Event) (ended : Bool)
    → accept_loop soc rs s ≡ some (es, s', ended)
    → Ledger fd s (es, s')
accept_loop-Ledger fd soc rs s s' es ended e =
    subst (KeptLoop fd s) e (accept_loop-Kept fd soc rs s)
