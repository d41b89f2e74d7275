-- ===== src/Trust/Accepting.antt =====
-- Which methods of trust/store.go change an accepted root, and what an acceptance records.
use mathlib.Core.Path.{subst}
use malt.Base.{
  ℕ, ◌≡◌, ◌≢◌, ◌↔◌, inl, inr, refl, sym, ap, ◌∙◌, ◌==◌, ==_iff, Bool, true, false, Bool-cases, ok,
  arith, >>=-eq-ok, ◌>>=◌, ◌>>◌, if◌then◌else◌, Text, text_eq, Option, Option-cases, none, some,
  List, [], ◌∷◌, ◌++◌, or_fail, or_fail-eq-ok, insert, Result-cases, lookup, lookup-insert,
  lookup-insert_self, All, Any, map_option,
}
use malt.Trust.Types.{CandidateRoot, AcceptedRootState, ObservedHead, RootState, Roots, Outcome}
use malt.Trust.Heads.{remove_candidate, previous_of, remaining, accept_root, upsert_observation}
use malt.Trust.Candidates.{remove-others}
use malt.Trust.Store.{
  state_of, put_state, check_base, is_current, new_candidate, add_candidate_locked,
  observe_head_locked, find_candidate, check_acceptable, accept_candidate_locked, guarded, observed,
  accept_observed_locked,
}

-- The accepted root of an alias, if there is one.
unfoldable pub accepted_of : Roots → Text → Option Text
accepted_of roots alias = map_option (λ a. a.root) (state_of roots alias).accepted

state_of-put :
    (alias j : Text) (value : RootState) (roots after : Roots) (made : RootState)
    → put_state alias value roots ≡ ok (made, after)
    → (state_of after j ≡ (if alias == j then value else state_of roots j)) × (made ≡ value)
unfolding put_state state_of
state_of-put alias j value roots after made h =
    let there : after ≡ malt.Base.insert alias value roots = cc in
    (ground (arith, lookup-insert alias j value roots, there), cc)

-- Only the accepted root of the alias may change.
put_state-keeps :
    (alias : Text) (value : RootState) (roots after : Roots) (made : RootState)
    → put_state alias value roots ≡ ok (made, after)
    → value.accepted ≡ (state_of roots alias).accepted
    → (j : Text) → accepted_of after j ≡ accepted_of roots j
unfolding accepted_of
put_state-keeps alias value roots after made h e j =
    let (at, _) = state_of-put alias j value roots after made h in
    elim (Bool-cases (alias == j)) [
      | inl b ↦ let same : alias ≡ j = (==_iff alias j).0 b in rw (at, b, e, same) refl
      | inr b ↦ rw (at, b) refl
    ]

-- What a candidate that was written came from.
add_candidate_locked-made :
    (now : ℕ) (alias root base source : Text) (roots after : Roots) (answer : Outcome RootState)
    → add_candidate_locked now alias root base source roots ≡ (answer, some after)
    → let value = record (state_of roots alias) { alias = alias } in
      let added = record value {
        candidates =
            remove_candidate value.candidates root ++ (new_candidate now root base source ∷ []);
      } in
      (check_base value.accepted base ≡ ok tt)
      × (is_current value.accepted root ≡ false)
      × (put_state alias added roots ≡ ok (added, after))
unfolding add_candidate_locked put_state state_of check_base new_candidate
add_candidate_locked-made now alias root base source roots after answer h =
    let accepted = (state_of roots alias).accepted in
    elim (Result-cases (check_base accepted base)) [
      | inr (x, e) ↦ absurd (ground (arith, e))
      | inl (_, e) ↦ elim (Bool-cases (is_current accepted root)) [
        | inl c ↦ absurd (ground (arith, e, c))
        | inr c ↦ (e, c, ground (arith, e, c))
      ]
    ]

-- Recording a candidate that is written changes the accepted root of no alias.
pub add_candidate_locked-accepted_of :
    (now : ℕ) (alias root base source : Text) (roots after : Roots) (answer : Outcome RootState)
    → add_candidate_locked now alias root base source roots ≡ (answer, some after)
    → (j : Text) → accepted_of after j ≡ accepted_of roots j
add_candidate_locked-accepted_of now alias root base source roots after answer h j =
    let (_, _, put) = add_candidate_locked-made now alias root base source roots after answer h in
    put_state-keeps alias _ roots after _ put refl j

-- Recording an observed head changes the accepted root of no alias.
pub observe_head_locked-accepted_of :
    (alias : Text) (observation : ObservedHead) (roots after : Roots) (value : RootState)
    → observe_head_locked alias observation roots ≡ ok (value, after)
    → (j : Text) → accepted_of after j ≡ accepted_of roots j
unfolding observe_head_locked
observe_head_locked-accepted_of alias observation roots after value h j =
    let (heads, _, put) =
      >>=-eq-ok (upsert_observation (state_of roots alias).observed_heads observation) _ h in
    put_state-keeps alias (record (state_of roots alias) { alias = alias; observed_heads = heads })
      roots after value put refl j

-- The root before: of a new root the one accepted until then, of the same root the one that it
-- remembered already, and of a first root none.
abbrev pub Remembers : Option AcceptedRootState → Text → Text → Type 0
Remembers none root previous = previous ≡ []
Remembers (some a) root previous =
    (a.root ≢ root → previous ≡ a.root) × (a.root ≡ root → previous ≡ a.previous_root)

previous_of-Remembers :
    (old : Option AcceptedRootState) (root : Text) → Remembers old root (previous_of old root)
unfolding previous_of
previous_of-Remembers none root = refl
previous_of-Remembers (some a) root = (λ n. ground (arith, n), λ e. ground (arith, e))

-- What an acceptance writes: the alias has the root, remembers the root before it, keeps what was
-- observed, and has no candidate left with the root; every other alias is as it was.
pub record IsAcceptance (now : ℕ) (alias root source : Text) (before : RootState) (roots : Roots)
    (value : RootState) (after : Roots) : Type 0 where
  pub stored : lookup alias after ≡ some value
  pub previous : Text
  pub remembers : Remembers before.accepted root previous
  pub accepted :
      value.accepted
      ≡ some (record { root = root; previous_root = previous; source = source; accepted_at = now })
  pub left : All (λ c. c.root ≢ root) value.candidates
  pub heads : value.observed_heads ≡ before.observed_heads
  pub others : (j : Text) → alias ≢ j → lookup j after ≡ lookup j roots

left-after :
    (old : Option AcceptedRootState) (cs : List CandidateRoot) (root : Text)
    → All (λ c. c.root ≢ root) (remaining old cs root)
unfolding remaining
left-after none cs root = tt
left-after (some a) cs root = remove-others cs root

accept_root-IsAcceptance :
    (now : ℕ) (alias root source : Text) (before value : RootState) (roots after : Roots)
    → put_state alias (accept_root before root source now) roots ≡ ok (value, after)
    → IsAcceptance now alias root source before roots value after
unfolding put_state accept_root
accept_root-IsAcceptance now alias root source before value roots after h =
    let one : accept_root before root source now ≡ value = cc in
    let all : insert alias (accept_root before root source now) roots ≡ after = cc in
    subst (λ v. IsAcceptance now alias root source before roots v after) one
      (subst
        (λ m.
          IsAcceptance now alias root source before roots (accept_root before root source now) m)
        all
        (record {
          stored = lookup-insert_self alias _ roots;
          previous = previous_of before.accepted root;
          remembers = previous_of-Remembers before.accepted root;
          accepted = refl;
          left = left-after before.accepted before.candidates root;
          heads = refl;
          others = λ j n. lookup-insert alias j _ roots ∙ other j n;
        }))
  where
    other :
        (j : Text)
        → alias ≢ j
        → (if alias == j then some (accept_root before root source now) else lookup j roots)
          ≡ lookup j roots
    other j n = ground arith

find_candidate-root :
    (root : Text) (cs : List CandidateRoot) (c : CandidateRoot)
    → find_candidate root cs ≡ some c
    → c.root ≡ root
unfolding find_candidate
find_candidate-root root [] c h = cc
find_candidate-root root (d ∷ cs) c h = elim (Bool-cases (d.root == root)) [
  | inl e ↦
      let k = rw e at h in
      let same : d ≡ c = cc (k) in ap (λ x. x.root) (sym same) ∙ (==_iff d.root root).0 e
  | inr e ↦ find_candidate-root root cs c (rw e at h)
]

-- The base of a candidate that may be accepted is the root that is accepted now.
abbrev pub BuildsOn : Option AcceptedRootState → CandidateRoot → Type 0
BuildsOn none c = c.base_root ≡ []
BuildsOn (some a) c = (c.base_root ≢ []) × (c.base_root ≡ a.root)

acceptable-BuildsOn :
    (accepted : Option AcceptedRootState) (c : CandidateRoot)
    → check_acceptable accepted c ≡ ok tt
    → BuildsOn accepted c
unfolding check_acceptable
acceptable-BuildsOn none c h = ground arith
acceptable-BuildsOn (some a) c h = (λ e. ground (arith, e), ground arith)

-- A candidate that is accepted was recorded for the alias with that root, and its base is the
-- root accepted until then, or empty if there was none; the new state has the root and remembers
-- the one accepted until then, or what that one remembered if it is the same root, keeps what
-- was observed, has no candidate left with the root, and leaves every other alias as it was.
pub accept_candidate_locked-IsAcceptance :
    (now : ℕ) (alias root source : Text) (roots after : Roots) (value : RootState)
    → accept_candidate_locked now alias root source roots ≡ ok (value, after)
    → (before : RootState) × (c : CandidateRoot) × (lookup alias roots ≡ some before)
      × (find_candidate root before.candidates ≡ some c)
      × (c.root ≡ root)
      × BuildsOn before.accepted c
      × IsAcceptance now alias root source before roots value after
unfolding accept_candidate_locked
accept_candidate_locked-IsAcceptance now alias root source roots after value h =
    let (before, there, h1) = >>=-eq-ok (or_fail (lookup alias roots) _) _ h in
    let (c, found, h2) = >>=-eq-ok (or_fail (find_candidate root before.candidates) _) _ h1 in
    let (_, fits, h3) = >>=-eq-ok (check_acceptable before.accepted c) _ h2 in
    let found' = or_fail-eq-ok (find_candidate root before.candidates) _ found in
    (
      before,
      c,
      or_fail-eq-ok (lookup alias roots) _ there,
      found',
      find_candidate-root root before.candidates c found',
      acceptable-BuildsOn before.accepted c fits,
      accept_root-IsAcceptance now alias root source before value roots after h3,
    )

-- A guarded operation succeeds exactly if the alias has the expected accepted root and the
-- operation itself succeeds.
pub guarded_iff :
    (alias expected : Text) (operation : Outcome (Unit {0})) (roots : Roots)
    → (guarded alias expected operation roots ≡ ok tt)
      ↔ ((accepted_of roots alias ≡ some expected) × (operation ≡ ok tt))
unfolding guarded accepted_of state_of
guarded_iff alias expected operation roots = elim (Option-cases (lookup alias roots)) [
  | inl absent ↦ rw absent (λ h. absurd (cc (h)), λ h. absurd (cc (h.0)))
  | inr (value, there) ↦ elim (Option-cases value.accepted) [
    | inl empty ↦ rw (there, empty) (λ h. absurd (cc (h)), λ h. absurd (cc (h.0)))
    | inr (a, e) ↦ rw (there, e) (λ h. (ground arith, ground arith), λ h. ground (arith, h.0, h.1))
  ]
]

observed-Any :
    (root : Text) (heads : List ObservedHead)
    → observed root heads ≡ true
    → Any (λ h. h.root ≡ root) heads
unfolding observed
observed-Any root [] h = cc
observed-Any root (head ∷ heads) h = elim (Bool-cases (head.root == root)) [
  | inl e ↦ Any.here ((==_iff head.root root).0 e)
  | inr e ↦ Any.there (observed-Any root heads (ground (arith, e, h)))
]

-- An observed root that is accepted was the root of a recorded head of the alias; the new state
-- has the root and remembers the one accepted until then, or what that one remembered if it is
-- the same root, keeps what was observed, has no candidate left with the root, and leaves every
-- other alias as it was.
pub accept_observed_locked-IsAcceptance :
    (now : ℕ) (alias root profile gateway source : Text) (roots after : Roots) (value : RootState)
    → accept_observed_locked now alias root profile gateway source roots ≡ ok (value, after)
    → (before : RootState) × (lookup alias roots ≡ some before)
      × Any (λ h. h.root ≡ root) before.observed_heads
      × IsAcceptance now alias root source
          (record before { profile = profile; gateway = gateway })
          roots
          value
          after
unfolding accept_observed_locked
accept_observed_locked-IsAcceptance now alias root profile gateway source roots after value h =
    let (before, found, h1) = >>=-eq-ok (or_fail (lookup alias roots) _) _ h in
    elim (Bool-cases (observed root before.observed_heads)) [
      | inr e ↦ absurd (cc (rw e at h1))
      | inl e ↦
          let h2 = rw e at h1 in
          (
            before,
            or_fail-eq-ok (lookup alias roots) _ found,
            observed-Any root before.observed_heads e,
            accept_root-IsAcceptance now alias root source
                (record before { profile = profile; gateway = gateway }) value roots after h2,
          )
    ]
