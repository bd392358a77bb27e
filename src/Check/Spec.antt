-- ===== src/Check/Spec.antt =====
-- What the checks accept, stated by the texts that occur, and how the checks compare.
use ktrpg.Base.{
  ℕ, zero, suc, ◌≡◌, ◌↔◌, refl, ap, ◌∙◌, inl, inr, true, Option, none, some, List, [], ◌∷◌, ◌++◌,
  codes, arith, Bool-cases,
}
use ktrpg.Check.{starts_with, contains}
use ktrpg.Check.SimpleChat
use ktrpg.Check.SimpleServerOnly
use ktrpg.Check.TwoClient.{check_text}
use ktrpg.Check.TwoClient

-- The text `s` stands somewhere in `buf`.
abbrev pub Occurs : List ℕ → List ℕ → Type 0
Occurs s buf = (before : List ℕ) × (behind : List ℕ) × (buf ≡ before ++ (s ++ behind))

starts_with_sound :
    (buf s : List ℕ) → starts_with buf s ≡ true → (behind : List ℕ) × (buf ≡ s ++ behind)
unfolding starts_with
starts_with_sound buf [] e = (buf, refl)
starts_with_sound [] (c ∷ cs) e = absurd (ground arith)
starts_with_sound (b ∷ bs) (c ∷ cs) e =
    let (behind, q) = starts_with_sound bs cs (ground arith) in
    (behind, ap (λ x. x ∷ bs) (ground arith) ∙ ap (λ l. c ∷ l) q)

starts_with_complete : (s behind : List ℕ) → starts_with (s ++ behind) s ≡ true
unfolding starts_with
starts_with_complete [] behind = refl
starts_with_complete (c ∷ cs) behind = ground (arith, starts_with_complete cs behind)

contains_sound : (buf s : List ℕ) → contains buf s ≡ true → Occurs s buf
unfolding contains
contains_sound [] s e = let (behind, q) = starts_with_sound [] s e in ([], behind, q)
contains_sound (b ∷ bs) s e = elim (Bool-cases (starts_with (b ∷ bs) s)) [
  | inl t ↦ let (behind, q) = starts_with_sound (b ∷ bs) s t in ([], behind, q)
  | inr f ↦
      let (before, behind, q) = contains_sound bs s (ground arith) in
      (b ∷ before, behind, ap (λ l. b ∷ l) q)
]

contains_here : (buf s : List ℕ) → starts_with buf s ≡ true → contains buf s ≡ true
unfolding contains
contains_here [] s e = e
contains_here (b ∷ bs) s e = ground arith

contains_complete : (s before behind : List ℕ) → contains (before ++ (s ++ behind)) s ≡ true
unfolding contains
contains_complete s [] behind = contains_here (s ++ behind) s (starts_with_complete s behind)
contains_complete s (b ∷ bs) behind = ground (arith, contains_complete s bs behind)

pub contains_iff : (buf s : List ℕ) → (contains buf s ≡ true) ↔ Occurs s buf
contains_iff buf s = (
  contains_sound buf s,
  λ (before, behind, q). ap (λ l. contains l s) q ∙ contains_complete s before behind,
)

abbrev pub ready : List ℕ
ready = codes "ready for accept"

abbrev pub no_child : List ℕ
no_child = codes "<<child count:0>>"

abbrev pub one_child : List ℕ
one_child = codes "<<child count:1>>"

abbrev pub two_children : List ℕ
two_children = codes "<<child count:2>>"

abbrev pub said : List ℕ
said = codes "never give up"

abbrev pub stopped : List ℕ
stopped = codes "select: Interrupted system call"

-- The check of the server alone accepts a text exactly when the lines of a server that is ready, that
-- counts no client and that is interrupted in `select` occur in it.
simple_server_only_iff :
    (buf : List ℕ)
    → (SimpleServerOnly.result_check buf ≡ true)
      ↔ (Occurs ready buf × Occurs no_child buf × Occurs stopped buf)
unfolding SimpleServerOnly.result_check
simple_server_only_iff buf = (
  λ e. (
    (contains_iff buf ready).0 (ground arith),
    (contains_iff buf no_child).0 (ground arith),
    (contains_iff buf stopped).0 (ground arith),
  ),
  λ (a, b, c). ground (
    arith,
    (contains_iff buf ready).1 a,
    (contains_iff buf no_child).1 b,
    (contains_iff buf stopped).1 c,
  ),
)

-- The check of the chat with one client accepts a text exactly when the check of the server alone
-- accepts it, one client has been counted, and what it says is there.
simple_chat_iff :
    (buf : List ℕ)
    → (SimpleChat.result_check buf ≡ true)
      ↔ ((SimpleServerOnly.result_check buf ≡ true) × Occurs one_child buf × Occurs said buf)
unfolding SimpleChat.result_check SimpleServerOnly.result_check
simple_chat_iff buf = (
  λ e. (
    ground arith,
    (contains_iff buf one_child).0 (ground arith),
    (contains_iff buf said).0 (ground arith),
  ),
  λ (a, b, c). ground (arith, a, (contains_iff buf one_child).1 b, (contains_iff buf said).1 c),
)

opened :
    (error_size : Option ℕ) (buf : List ℕ)
    → TwoClient.result_check error_size buf ≡ true
    → error_size ≡ some 0
unfolding TwoClient.result_check
opened none buf e = absurd (ground arith)
opened (some zero) buf e = refl
opened (some (suc n)) buf e = absurd (ground arith)

-- The check of two clients accepts a text exactly when the error file is there and empty, the check of
-- the server alone accepts it, and one client and two clients have been counted.
two_client_iff :
    (error_size : Option ℕ) (buf : List ℕ)
    → (TwoClient.result_check error_size buf ≡ true) ↔ (
        (error_size ≡ some 0)
        × (SimpleServerOnly.result_check buf ≡ true)
        × Occurs one_child buf
        × Occurs two_children buf)
unfolding TwoClient.result_check check_text SimpleServerOnly.result_check
two_client_iff error_size buf = (
  λ e. (
    opened error_size buf e,
    ground (arith, opened error_size buf e),
    (contains_iff buf one_child).0 (ground (arith, opened error_size buf e)),
    (contains_iff buf two_children).0 (ground (arith, opened error_size buf e)),
  ),
  λ (q, a, b, c).
      ground (arith, q, a, (contains_iff buf one_child).1 b, (contains_iff buf two_children).1 c),
)

-- What the checks accept: that of the server alone, exactly the texts in which the lines of a server
-- that is ready, that counts no client and that is interrupted in `select` occur; that of the chat with
-- one client, exactly those of them in which one client has been counted and what it says is there;
-- that of two clients, exactly those of them in which one client and two clients have been counted, if
-- the error file is there and empty.
pub result_check_iff :
    (error_size : Option ℕ) (buf : List ℕ)
    → ((SimpleServerOnly.result_check buf ≡ true)
        ↔ (Occurs ready buf × Occurs no_child buf × Occurs stopped buf))
      × ((SimpleChat.result_check buf ≡ true)
          ↔ ((SimpleServerOnly.result_check buf ≡ true) × Occurs one_child buf × Occurs said buf))
      × ((TwoClient.result_check error_size buf ≡ true) ↔ (
          (error_size ≡ some 0)
          × (SimpleServerOnly.result_check buf ≡ true)
          × Occurs one_child buf
          × Occurs two_children buf))
result_check_iff error_size buf =
    (simple_server_only_iff buf, simple_chat_iff buf, two_client_iff error_size buf)
