-- ===== src/Trust/Store.antt =====
-- The methods of `Store` in trust/store.go. `now` is `time.Now().UTC()`.
use malt.Base.{
  ℕ, Bool, false, not, ◌||◌, Option, none, some, List, [], ◌∷◌, ◌++◌, Text, text_eq, ◌==◌, ok, err,
  ◌>>=◌, ◌>>◌, refuse_if, or_fail, if◌then◌else◌, trim_space, text_ltb, sort, lookup, insert,
}
use malt.Base.Cids.{CidCodec}
use malt.Base.Durable.{Io, Outcome as Commit, reads, writes, call}
use malt.Trust.Types.{
  CandidateRoot, AcceptedRootState, ObservedHead, RootState, Roots, Document, Error, Outcome,
  no_root_state, not_found, no_accepted_root, candidate_not_found, observation_not_found,
  stale_candidate, accepted_root_changed, empty_alias, invalid_root, invalid_base_root,
  no_operation, io_failed,
}
use malt.Trust.Heads.{remove_candidate, accept_root, normalize_observation, upsert_observation}
use malt.Trust.Load.{save, load}

abbrev pub Disk : Type 0
Disk = Option Document

-- `value := s.state.Roots[alias]`, the zero value if there is none
unfoldable pub state_of : Roots → Text → RootState
state_of roots alias = elim (lookup alias roots) [ some value ↦ value | none ↦ no_root_state ]

unfoldable pub put_state : Text → RootState → Roots → Outcome (RootState × Roots)
put_state alias value roots = ok (value, insert alias value roots)

unfoldable pub trust_locked :
    ℕ → Text → Text → Text → Text → Text → Roots → Outcome (RootState × Roots)
unfolding state_of put_state
trust_locked now alias root profile gateway source roots =
    let value = record (state_of roots alias) {
      alias = alias;
      profile = profile;
      gateway = gateway;
    } in
    put_state alias (accept_root value root source now) roots

-- A candidate must build on the root that is accepted now.
unfoldable pub check_base : Option AcceptedRootState → Text → Outcome (Unit {0})
check_base none base = refuse_if (not (base == [])) stale_candidate
check_base (some a) base = refuse_if (not (base == a.root)) stale_candidate

abbrev pub is_current : Option AcceptedRootState → Text → Bool
is_current none root = false
is_current (some a) root = root == a.root

unfoldable pub new_candidate : ℕ → Text → Text → Text → CandidateRoot
new_candidate now root base source = record {
  root = root;
  base_root = base;
  source = source;
  observed_at = now;
}

-- A candidate that is the accepted root is not recorded.
unfoldable pub add_candidate_locked :
    ℕ → Text → Text → Text → Text → Roots → Commit Error RootState Roots
unfolding state_of put_state check_base new_candidate
add_candidate_locked now alias root base source roots =
    let value = record (state_of roots alias) { alias = alias } in
    let added = record value {
      candidates =
          remove_candidate value.candidates root ++ (new_candidate now root base source ∷ []);
    } in
    elim (check_base value.accepted base) [
      | err e ↦ (err e, none)
      | ok _ ↦
          if is_current value.accepted root
          then reads (ok value)
          else writes (put_state alias added roots)
    ]

unfoldable pub observe_head_locked : Text → ObservedHead → Roots → Outcome (RootState × Roots)
unfolding state_of put_state
observe_head_locked alias observation roots = do
  let value = record (state_of roots alias) { alias = alias }
  heads ← upsert_observation value.observed_heads observation
  put_state alias (record value { observed_heads = heads }) roots

-- The loop that looks for the first candidate with the root.
unfoldable pub find_candidate : Text → List CandidateRoot → Option CandidateRoot
find_candidate root [] = none
find_candidate root (c ∷ cs) = if c.root == root then some c else find_candidate root cs

-- The base that an accepted candidate needs.
unfoldable pub check_acceptable : Option AcceptedRootState → CandidateRoot → Outcome (Unit {0})
check_acceptable none c = refuse_if (not (c.base_root == [])) stale_candidate
check_acceptable (some a) c =
    refuse_if (c.base_root == [] || not (c.base_root == a.root)) stale_candidate

unfoldable pub accept_candidate_locked :
    ℕ → Text → Text → Text → Roots → Outcome (RootState × Roots)
unfolding put_state find_candidate check_acceptable
accept_candidate_locked now alias root source roots = do
  value ← or_fail (lookup alias roots) not_found
  candidate ← or_fail (find_candidate root value.candidates) candidate_not_found
  check_acceptable value.accepted candidate
  put_state alias (accept_root value root source now) roots

unfoldable pub observed : Text → List ObservedHead → Bool
observed root [] = false
observed root (h ∷ hs) = h.root == root || observed root hs

unfoldable pub accept_observed_locked :
    ℕ → Text → Text → Text → Text → Text → Roots → Outcome (RootState × Roots)
unfolding put_state observed
accept_observed_locked now alias root profile gateway source roots = do
  value ← or_fail (lookup alias roots) not_found
  refuse_if (not (observed root value.observed_heads)) observation_not_found
  put_state alias
      (accept_root (record value { profile = profile; gateway = gateway }) root source now) roots

-- The guard of WithAcceptedRoot, and the guarded operation behind it.
unfoldable pub guarded : Text → Text → Outcome (Unit {0}) → Roots → Outcome (Unit {0})
guarded alias expected operation roots = do
  value ← or_fail (lookup alias roots) not_found
  accepted ← or_fail value.accepted no_accepted_root
  refuse_if (not (accepted.root == expected)) accepted_root_changed
  operation

unfoldable pub check_alias_root : Text → Option Text → Outcome (Text × Text)
check_alias_root alias root = do
  refuse_if (trim_space alias == []) empty_alias
  canonical ← or_fail root invalid_root
  ok (trim_space alias, canonical)

abbrev values : Roots → List RootState
values [] = []
values ((alias, value) ∷ rest) = value ∷ values rest

module _ ⦃cids : CidCodec⦄ where
  unfoldable pub trust_call :
      {X A : Type 0} → Io → Outcome X → (X → Roots → Commit Error A Roots) → Disk → Outcome A × Disk
  unfolding call load save
  trust_call = call load save [] io_failed

  unfoldable pub list_states : Io → Disk → Outcome (List RootState) × Disk
  unfolding trust_call
  list_states io =
      trust_call io (ok tt)
        (λ _ roots. reads (ok (sort (λ a b. text_ltb a.alias b.alias) (values roots))))

  unfoldable pub get_state : Io → Text → Disk → Outcome RootState × Disk
  unfolding trust_call
  get_state io alias =
      trust_call io (ok (trim_space alias))
        (λ key roots. reads (or_fail (lookup key roots) not_found))

  abbrev pub check_guard :
      Text → Text → Option (Outcome (Unit {0})) → Outcome (Text × Text × Outcome (Unit {0}))
  check_guard alias expected operation = do
    checked ← check_alias_root alias (cids.parse expected)
    op ← or_fail operation no_operation
    ok (checked.0, checked.1, op)

  unfoldable pub with_accepted_root :
      Io → Text → Text → Option (Outcome (Unit {0})) → Disk → Outcome (Unit {0}) × Disk
  unfolding trust_call check_alias_root guarded
  with_accepted_root io alias expected operation =
      trust_call io (check_guard alias expected operation)
        (λ c roots. reads (guarded c.0 c.1 c.2 roots))

  unfoldable pub trust : Io → ℕ → Text → Text → Text → Text → Text → Disk → Outcome RootState × Disk
  unfolding trust_call check_alias_root trust_locked
  trust io now alias root profile gateway source =
      trust_call io (check_alias_root alias (cids.parse root)) (λ checked roots.
        writes (trust_locked now checked.0 checked.1 profile gateway source roots))

  abbrev pub check_add : Text → Text → Text → Outcome (Text × Text × Text)
  check_add alias root base = do
    checked ← check_alias_root alias (cids.parse root)
    canonical ←
        or_fail (if trim_space base == [] then some [] else cids.parse base) invalid_base_root
    ok (checked.0, checked.1, canonical)

  unfoldable pub add_candidate :
      Io → ℕ → Text → Text → Text → Text → Disk → Outcome RootState × Disk
  unfolding trust_call check_alias_root add_candidate_locked
  add_candidate io now alias root base source =
      trust_call io (check_add alias root base)
        (λ c roots. add_candidate_locked now c.0 c.1 c.2 source roots)

  abbrev pub check_observe : ℕ → Text → ObservedHead → Outcome (Text × ObservedHead)
  check_observe now alias raw = do
    refuse_if (trim_space alias == []) empty_alias
    observation ← normalize_observation raw
    ok (trim_space alias, record observation { observed_at = now })

  unfoldable pub observe_head : Io → ℕ → Text → ObservedHead → Disk → Outcome RootState × Disk
  unfolding trust_call observe_head_locked
  observe_head io now alias raw =
      trust_call io (check_observe now alias raw)
        (λ c roots. writes (observe_head_locked c.0 c.1 roots))

  unfoldable pub accept_candidate : Io → ℕ → Text → Text → Text → Disk → Outcome RootState × Disk
  unfolding trust_call accept_candidate_locked
  accept_candidate io now alias root source =
      trust_call io (or_fail (cids.parse root) invalid_root) (λ canonical roots.
        writes (accept_candidate_locked now (trim_space alias) canonical source roots))

  unfoldable pub accept_observed :
      Io → ℕ → Text → Text → Text → Text → Text → Disk → Outcome RootState × Disk
  unfolding trust_call accept_observed_locked
  accept_observed io now alias root profile gateway source =
      trust_call io (or_fail (cids.parse root) invalid_root) (λ canonical roots.
        writes
          (accept_observed_locked now (trim_space alias) canonical profile gateway source roots))
