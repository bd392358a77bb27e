-- ===== src/Mutex/Stage/Asked.antt =====
-- Where the first stage of `mymutex_lock` waits, what the search for a deadlock saw and the call has logged.
use ktrpg.Base.{
  ℕ, ◌<◌, ◌≡◌, refl, ap, sym, subst, ◌∙◌, inl, inr, Bool, true, false, none, some, List, length,
  if◌then◌else◌, Option-cases, get_or, get_or-set_self, get_or-set_keeps, length-set,
}
use ktrpg.Base.{◌++◌, [], ◌∷◌}
use ktrpg.Mutex.Types.{Note}
use ktrpg.Mutex.Types.{Thread, Getter, Store, blank_getter, dead_lock}
use ktrpg.Mutex.Deadlock.{getter_at, is_dead_lock}
use ktrpg.Mutex.Deadlock.Members.{view}
use ktrpg.Mutex.Deadlock.Kept.{Keeps, is_dead_lock-Keeps}
use ktrpg.Mutex.Table.{add_note, blank_mutex, obtain_getter}
use ktrpg.Mutex.Lock.{set_wait, note_order}
use ktrpg.Mutex.Lock.Owners.{type_of, scan_others_yes}
use ktrpg.Mutex.Lock.Acquire.{asking, note_order-same}
use ktrpg.Mutex.Stage.{Began, refused, spins, waits, release_to_wait, begin_searched, begin_lock}
use ktrpg.Mutex.Stage.Getters.{obtain_getter-own}

-- The first stage gives up with the table as it was; or it waits with getter `i`, and the search for a
-- deadlock would see what it saw when the call asked it.
abbrev pub BeginsAsking : Thread → ℕ → Store → Began → Type 0
BeginsAsking th t s (refused s') = s'.mmgetter ≡ s.mmgetter
BeginsAsking th t s spins = Unit {0}
BeginsAsking th t s (waits i b s') =
    (gs : List Getter) × (obtain_getter th t s.mmgetter ≡ some (i, gs))
    × Keeps view (asking i t gs) s'.mmgetter

-- A getter that waits for `t` already is asked for again.
release_to_wait-Keeps :
    (i t : ℕ) (base : List Getter) (x : Store)
    → i < length base
    → Keeps view (asking i t base) x.mmgetter
    → type_of x t ≡ t
    → Keeps view (asking i t base) (release_to_wait i t x).mmgetter
release_to_wait-Keeps i t base x lt k typed = record {
  size = length-set x.mmgetter i _ ∙ k.size;
  same = λ j.
      get_or-set_keeps view x.mmgetter i j
        (record (getter_at x.mmgetter i) { is_waited = true; wait_mutex_type = type_of x t })
        blank_getter again
      ∙ k.same j;
}
  where
    asked :
        view (getter_at x.mmgetter i)
        ≡ view (record (getter_at base i) { is_waited = true; wait_mutex_type = t })
    asked = k.same i ∙ ap view (get_or-set_self base i _ blank_getter lt)

    again :
        view (record (getter_at x.mmgetter i) { is_waited = true; wait_mutex_type = type_of x t })
        ≡ view (getter_at x.mmgetter i)
    again =
        ap
          (λ (f : Bool × ℕ).
            ((getter_at x.mmgetter i).is_used, f.0, f.1, (getter_at x.mmgetter i).get_mutex_type))
          (ap (λ n. (true, n)) typed
            ∙ sym (ap (λ (v : Bool × Bool × ℕ × List ℕ). (v.1, v.2)) asked))

-- What the table and the log are where the first stage waits after an answer of the search.
pub record Asked (th : Thread) (answer : Bool) (asked : List Getter) (before : List Note)
    (s' : Store) : Type 0 where
  pub keeps : Keeps view asked s'.mmgetter
  pub notes : s'.notes ≡ (if answer then before ++ (dead_lock th ∷ []) else before)

-- How the branch with the search goes, by the answer of the search.
begin_searched-Asked :
    (fuel : ℕ) (th : Thread) (t i : ℕ) (s : Store) (answer : Bool) (table : List Getter)
    → i < length s.mmgetter
    → type_of s t ≡ t
    → is_dead_lock fuel i (asking i t s.mmgetter) ≡ some (answer, table)
    → (s' : Store) × (begin_searched fuel th t i s ≡ waits i true s')
      × Asked th answer (asking i t s.mmgetter) s.notes s'
unfolding begin_searched
begin_searched-Asked fuel th t i s answer table lt typed e = (
  release_to_wait i t (if answer then add_note (dead_lock th) searched else searched),
  rw (e, begin_searched) refl,
  told answer,
)
  where
    searched : Store
    searched = record (set_wait i t s) { mmgetter = table }

    same : Keeps view (asking i t s.mmgetter) table
    same = is_dead_lock-Keeps view (λ b g. refl) fuel i (asking i t s.mmgetter) table answer e

    told :
        (b : Bool)
        → Asked th b
            (asking i t s.mmgetter)
            s.notes
            (release_to_wait i t (if b then add_note (dead_lock th) searched else searched))
    told true = record {
      keeps = release_to_wait-Keeps i t s.mmgetter (add_note (dead_lock th) searched) lt same typed;
      notes = refl;
    }
    told false = record {
      keeps = release_to_wait-Keeps i t s.mmgetter searched lt same typed;
      notes = refl;
    }

-- A call that has found or claimed a getter goes to the branch with the search.
begin_lock-searched :
    (fuel : ℕ) (th : Thread) (t i : ℕ) (s : Store) (gs : List Getter)
    → obtain_getter th t s.mmgetter ≡ some (i, gs)
    → begin_lock fuel th t s
      ≡ begin_searched fuel th t i (note_order th i (record s { mmgetter = gs }))
unfolding begin_lock
begin_lock-searched fuel th t i s gs e = rw (e, begin_lock, scan_others_yes t i 0 gs) refl

-- Where a call finds or claims a getter and the search answers, it waits with that getter; a YES is the
-- last note.
pub begin_lock-Asked :
    (fuel : ℕ) (th : Thread) (t i : ℕ) (s : Store) (gs : List Getter) (answer : Bool)
    (table : List Getter)
    → obtain_getter th t s.mmgetter ≡ some (i, gs)
    → type_of s t ≡ t
    → is_dead_lock fuel i (asking i t gs) ≡ some (answer, table)
    → (s' : Store) × (begin_lock fuel th t s ≡ waits i true s')
      × Asked th answer (asking i t gs) (note_order th i (record s { mmgetter = gs })).notes s'
begin_lock-Asked fuel th t i s gs answer table e typed found =
    let noted = note_order th i (record s { mmgetter = gs }) in
    let (mutexes, table_kept) = note_order-same th i (record s { mmgetter = gs }) in
    let (s', e', k) =
      begin_searched-Asked fuel th t i noted answer table
        (subst (λ (x : List Getter). i < length x) (sym table_kept)
          (obtain_getter-own th t i s.mmgetter gs e).0)
        (ap (λ ms. (get_or ms t blank_mutex).mutex_type) mutexes ∙ typed)
        (ap (λ x. is_dead_lock fuel i (asking i t x)) table_kept ∙ found) in
    (
      s',
      begin_lock-searched fuel th t i s gs e ∙ e',
      subst (λ x. Asked th answer (asking i t x) noted.notes s') table_kept k,
    )

begin_lock-spins :
    (fuel : ℕ) (th : Thread) (t i : ℕ) (s : Store) (gs : List Getter)
    → obtain_getter th t s.mmgetter ≡ some (i, gs)
    → is_dead_lock fuel i (asking i t gs) ≡ none
    → begin_lock fuel th t s ≡ spins
unfolding begin_searched
begin_lock-spins fuel th t i s gs e lost =
    let noted = note_order th i (record s { mmgetter = gs }) in
    let kept = (note_order-same th i (record s { mmgetter = gs })).1 in
    let lost' : is_dead_lock fuel i (asking i t noted.mmgetter) ≡ none =
      ap (λ x. is_dead_lock fuel i (asking i t x)) kept ∙ lost in
    begin_lock-searched fuel th t i s gs e ∙ rw (lost', begin_searched) refl

pub begin_lock-BeginsAsking :
    (fuel : ℕ) (th : Thread) (t : ℕ) (s : Store)
    → type_of s t ≡ t
    → BeginsAsking th t s (begin_lock fuel th t s)
unfolding begin_lock
begin_lock-BeginsAsking fuel th t s typed = elim (Option-cases (obtain_getter th t s.mmgetter)) [
  | inl e ↦ rw (e, begin_lock) refl
  | inr ((i, gs), e) ↦ elim (Option-cases (is_dead_lock fuel i (asking i t gs))) [
    | inr ((answer, table), found) ↦
        let (s', e', k) = begin_lock-Asked fuel th t i s gs answer table e typed found in
        subst (BeginsAsking th t s) (sym e') (gs, e, k.keeps)
    | inl none_found ↦
        subst (BeginsAsking th t s) (sym (begin_lock-spins fuel th t i s gs e none_found)) tt
  ]
]
