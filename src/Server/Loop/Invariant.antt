-- ===== src/Server/Loop/Invariant.antt =====
-- The table of clients through the rounds: what `child_no` counts, and which descriptors are open.
pub mod Rounds
use ktrpg.Base.{
  ℕ, zero, suc, ◌+◌, ◌<◌, ◌≡◌, ◌≢◌, ◌⊎◌, refl, ap, ◌∙◌, inl, inr, Bool, true, false, not, Option,
  none, some, List, [], ◌∷◌, ◌++◌, arith, if◌then◌else◌, Bool-cases, Option-cases, find_index,
  find_index_sound, find_index-before, set, get_or, get_or-set, length, length-set,
  length-replicate, count, count-set, ℤ, pos, increment, decrement, replicate,
}
use ktrpg.Server.Relay.{
  Event, child_count, child_no_pos, select_failed, Outcome, undefined, done, send_recv_loop, closed,
  accepted, child_is_full,
}
use ktrpg.Server.Loop.{
  Server, Round, ready, failed, timeout, init, max_child, fd_setsize, is_selectable, all_selectable,
  is_empty, accept_child, Served, crashed, served, and_then, serve_children, drop_child, round,
  select_round, accept_loop, max_child_le,
}

abbrev pub is_live : Option ℕ → Bool
is_live o = not (is_empty o)

abbrev pub child_at : Server → ℕ → Option ℕ
child_at s i = get_or s.child i none

-- The table has its full length, `child_no` counts its clients, and no two entries have the same
-- descriptor, and each is below FD_SETSIZE.
pub record IsValid (s : Server) : Type 0 where
  pub size : length s.child ≡ max_child
  pub counts : s.child_no ≡ pos (count is_live s.child)
  pub distinct : (i j fd : ℕ) → child_at s i ≡ some fd → child_at s j ≡ some fd → i ≡ j
  pub selectable : (i fd : ℕ) → child_at s i ≡ some fd → fd < fd_setsize

-- A descriptor below FD_SETSIZE that no client has.
abbrev pub IsNew : ℕ → Server → Type 0
IsNew fd s = (fd < fd_setsize) × ((i : ℕ) → child_at s i ≢ some fd)

module _ (s : Server) (v : IsValid s) (i : ℕ) where
  -- A free entry is taken by a descriptor that is new.
  take-IsValid :
      (acc : ℕ)
      → i < length s.child
      → child_at s i ≡ none
      → IsNew acc s
      → IsValid (record { child = set s.child i (some acc); child_no = increment s.child_no })
  take-IsValid acc h free new = record {
    size = length-set s.child i (some acc) ∙ v.size;
    counts =
        ap increment v.counts
        ∙ ap pos (ground (arith, count-set is_live s.child i (some acc) none h));
    distinct = λ j k fd p q. ground (
      arith,
      get_or-set s.child i j (some acc) none h,
      get_or-set s.child i k (some acc) none h,
      v.distinct j k fd,
      new.1 j,
      new.1 k,
    );
    selectable = λ j fd p.
        ground (arith, get_or-set s.child i j (some acc) none h, v.selectable j fd, new.0);
  }

  -- An entry in use is given up.
  pub drop-IsValid :
      (fd : ℕ)
      → i < length s.child
      → child_at s i ≡ some fd
      → IsValid (record { child = set s.child i none; child_no = decrement s.child_no })
  drop-IsValid fd h own = record {
    size = length-set s.child i none ∙ v.size;
    counts =
        ap decrement v.counts
        ∙ fewer (count is_live s.child) (count is_live (set s.child i none))
            (ground (arith, count-set is_live s.child i none none h));
    distinct = λ j k fd' p q. ground (
      arith,
      get_or-set s.child i j none none h,
      get_or-set s.child i k none none h,
      v.distinct j k fd',
    );
    selectable = λ j fd' p. ground (arith, get_or-set s.child i j none none h, v.selectable j fd');
  }
    where
      fewer : (n m : ℕ) → n ≡ suc m → decrement (pos n) ≡ pos m
      fewer zero m e = absurd (omega arith)
      fewer (suc n) m e = ap pos (omega arith)

pub none_of_empty : (o : Option ℕ) → is_empty o ≡ true → o ≡ none
none_of_empty none q = refl
none_of_empty (some fd) q = cc

pub accept_child-IsValid :
    (a : Option ℕ) (s : Server)
    → ((fd : ℕ) → a ≡ some fd → IsNew fd s)
    → IsValid s
    → IsValid (accept_child a s).1
unfolding accept_child
accept_child-IsValid none s new v = v
accept_child-IsValid (some acc) s new v = elim (Option-cases (find_index is_empty s.child)) [
  | inl full ↦ rw (full, accept_child) v
  | inr (place, e) ↦
      let (h, empty) = find_index_sound is_empty s.child none place e in
      rw (e, accept_child)
        (take-IsValid s v place acc h (none_of_empty (child_at s place) empty) (new acc refl))
]

pub get_or-none : (n i : ℕ) → get_or {A = Option ℕ} (replicate n none) i none ≡ none
get_or-none zero i = refl
get_or-none (suc n) zero = refl
get_or-none (suc n) (suc i) = get_or-none n i

-- The table that the loop starts with is valid.
pub init-IsValid : IsValid init
unfolding count
init-IsValid = record {
  size = length-replicate {A = Option ℕ} max_child none;
  counts = refl;
  distinct = λ i j fd p q. cc (p, get_or-none max_child i);
  selectable = λ i fd p. absurd (cc (p, get_or-none max_child i));
}

all_selectable_lem :
    (childs : List (Option ℕ))
    → ((i fd : ℕ) → get_or childs i none ≡ some fd → fd < fd_setsize)
    → all_selectable childs ≡ true
unfolding all_selectable
all_selectable_lem [] h = refl
all_selectable_lem (none ∷ rest) h = all_selectable_lem rest λ i. h (suc i)
all_selectable_lem (some fd ∷ rest) h =
    ground (arith, h 0 fd refl, all_selectable_lem rest λ i. h (suc i))

-- With a valid table the FD_SETs stay inside the mask.
pub round-select :
    (soc : ℕ) (r : Round) (s : Server)
    → soc < fd_setsize
    → IsValid s
    → round soc r s ≡ select_round soc r s
unfolding round
round-select soc r s lt v = ground (arith, all_selectable_lem s.child v.selectable)

count-full :
    (childs : List (Option ℕ))
    → find_index is_empty childs ≡ none
    → count is_live childs ≡ length childs
unfolding count find_index
count-full [] e = refl
count-full (o ∷ rest) e = ground (arith, count-full rest)

full_message :
    (s : Server) {acc : ℕ}
    → count is_live s.child ≡ max_child
    → s.child_no ≡ pos (count is_live s.child)
    → ◌≡◌ {A = List Event × Server}
        (
          accepted acc
              ∷ ((if max_child_le s.child_no then child_is_full else child_no_pos)
                  ∷ closed acc
                  ∷ []),
          s,
        )
        (accepted acc ∷ (child_is_full ∷ (closed acc ∷ [])), s)
full_message s {acc} full e = ap told (e ∙ ap pos full)
  where
    told : ℤ → List Event × Server
    told c = (
      accepted acc ∷ ((if max_child_le c then child_is_full else child_no_pos) ∷ closed acc ∷ []),
      s,
    )

-- A new client takes the first free entry; where all 1024 are in use, it is told off as one too many,
-- closed, and the table stays. So the other message, for a table with no free entry and room by its
-- count, is never printed.
pub accept_child_lem :
    (acc : ℕ) (s : Server)
    → IsValid s
    → ((place : ℕ) × (child_at s place ≡ none)
        × ((j : ℕ) → j < place → is_live (child_at s j) ≡ true)
        × ((accept_child (some acc) s).0 ≡ accepted acc ∷ [])
        × ((accept_child (some acc) s).1.child ≡ set s.child place (some acc)))
      ⊎ ((count is_live s.child ≡ max_child)
          × (accept_child (some acc) s ≡ (accepted acc ∷ (child_is_full ∷ (closed acc ∷ [])), s)))
unfolding accept_child
accept_child_lem acc s v = elim (Option-cases (find_index is_empty s.child)) [
  | inr (place, e) ↦ inl (
    place,
    none_of_empty (child_at s place) (find_index_sound is_empty s.child none place e).1,
    λ j h. ap not (find_index-before is_empty s.child none place j e h),
    rw (e, accept_child),
    rw (e, accept_child),
  )
  | inl e ↦ inr (
    count-full s.child e ∙ v.size,
    rw (e, accept_child) (full_message s (count-full s.child e ∙ v.size) v.counts),
  )
]
