-- ===== src/Trust/Heads.antt =====
-- The functions of trust/store.go on one root state: acceptRoot, removeCandidate, the observations
-- and normalizeRootState.
use malt.Base.{
  ℕ, Bool, true, false, not, ◌&&◌, ◌||◌, Option, none, some, List, [], ◌∷◌, ◌++◌, Text, text_eq,
  nat_eq, ◌==◌, ltb, ok, ◌>>=◌, ◌>>◌, refuse_if, or_fail, if◌then◌else◌, trim_space, text_ltb, sort,
  is_some,
}
use malt.Base.Cids.{CidCodec}
use malt.Trust.Types.{
  CandidateRoot, AcceptedRootState, ObservedHead, RootState, Outcome, stale_observation,
  conflicting_observation, invalid_root, incomplete_stream, partial_commit_tuple,
  incomplete_commit_tuple, bad_alias, mismatched_alias, bad_accepted_root, bad_candidate,
  unexpected_base, missing_base, missing_time, empty_state,
}

unfoldable pub remove_candidate : List CandidateRoot → Text → List CandidateRoot
remove_candidate [] root = []
remove_candidate (c ∷ cs) root =
    let rest = remove_candidate cs root in if c.root == root then rest else c ∷ rest

-- The root before this one, which accepting the same root again keeps.
unfoldable pub previous_of : Option AcceptedRootState → Text → Text
previous_of none root = []
previous_of (some a) root = if a.root == root then a.previous_root else a.root

-- A first accepted root drops every candidate.
unfoldable pub remaining : Option AcceptedRootState → List CandidateRoot → Text → List CandidateRoot
unfolding remove_candidate
remaining none candidates root = []
remaining (some a) candidates root = remove_candidate candidates root

unfoldable pub accept_root : RootState → Text → Text → ℕ → RootState
unfolding previous_of remaining
accept_root value root source accepted_at = record value {
  accepted = some (record {
    root = root;
    previous_root = previous_of value.accepted root;
    source = source;
    accepted_at = accepted_at;
  });
  candidates = remaining value.accepted value.candidates root;
}

unfoldable pub observation_key : ObservedHead → Text
observation_key h = h.source ++ (0 ∷ (h.dataset_id ++ (0 ∷ h.branch)))

unfoldable pub by_key : ObservedHead → ObservedHead → Bool
unfolding observation_key
by_key a b = text_ltb (observation_key a) (observation_key b)

unfoldable pub sort_observations : List ObservedHead → List ObservedHead
unfolding by_key
sort_observations = sort by_key

-- The revision of a stream neither falls nor stands for two commits.
unfoldable pub check_revision : ObservedHead → ObservedHead → Outcome (Unit {0})
check_revision existing incoming = do
  refuse_if (ltb incoming.revision existing.revision) stale_observation
  refuse_if
      (incoming.revision == existing.revision
        && (not (incoming.commit_id == existing.commit_id) || not (incoming.root == existing.root)))
      conflicting_observation

-- The loop of upsertObservation: the first head of the stream is replaced, or the head is added.
unfoldable pub place_observation : List ObservedHead → ObservedHead → Outcome (List ObservedHead)
unfolding observation_key check_revision
place_observation [] incoming = ok (incoming ∷ [])
place_observation (existing ∷ rest) incoming =
    let placed = place_observation rest incoming in
    if observation_key existing == observation_key incoming
    then (do check_revision existing incoming; ok (incoming ∷ rest))
    else (do others ← placed; ok (existing ∷ others))

unfoldable pub upsert_observation : List ObservedHead → ObservedHead → Outcome (List ObservedHead)
unfolding place_observation sort_observations
upsert_observation values incoming = do
  placed ← place_observation values incoming
  ok (sort_observations placed)

unfoldable pub trim_observation : ObservedHead → ObservedHead
trim_observation h = record h {
  source = trim_space h.source;
  dataset_id = trim_space h.dataset_id;
  branch = trim_space h.branch;
  commit_id = trim_space h.commit_id;
  root = trim_space h.root;
}

abbrev is_empty {ℓ} : {A : Type ℓ} → List A → Bool
is_empty [] = true
is_empty (x ∷ xs) = false

abbrev pub is_accepted : Option AcceptedRootState → Text → Bool
is_accepted none root = false
is_accepted (some a) root = root == a.root

-- A candidate has a base exactly if there is an accepted root.
unfoldable pub check_candidate_base : Option AcceptedRootState → Text → Outcome (Unit {0})
check_candidate_base none base = refuse_if (not (base == [])) unexpected_base
check_candidate_base (some a) base = refuse_if (base == []) missing_base

-- The identity inside a state must be that of its key, or be left out.
unfoldable pub check_alias : Text → RootState → Outcome (Unit {0})
check_alias alias value = do
  refuse_if (trim_space alias == [] || not (trim_space alias == alias)) bad_alias
  refuse_if (not (value.alias == []) && not (trim_space value.alias == alias)) mismatched_alias

module _ ⦃cids : CidCodec⦄ where
  unfoldable pub canonical_optional_cid : Text → Option Text
  canonical_optional_cid raw = if raw == [] then some [] else cids.parse raw

  unfoldable pub normalize_observation : ObservedHead → Outcome ObservedHead
  unfolding trim_observation
  normalize_observation raw = do
    let h = trim_observation raw
    refuse_if (h.source == [] || (h.dataset_id == [] || h.branch == [])) incomplete_stream
    if h.commit_id == []
        then (do refuse_if (not (h.root == []) || not (h.revision == 0)) partial_commit_tuple; ok h)
        else (do
          refuse_if (h.root == [] || h.revision == 0) incomplete_commit_tuple
          root ← or_fail (cids.parse h.root) invalid_root
          ok (record h { root = root }))

  unfoldable pub normalize_accepted : Option AcceptedRootState → Outcome (Option AcceptedRootState)
  unfolding canonical_optional_cid
  normalize_accepted none = ok none
  normalize_accepted (some a) = do
    root ← or_fail (cids.parse a.root) bad_accepted_root
    previous ← or_fail (canonical_optional_cid a.previous_root) bad_accepted_root
    ok (some (record a { root = root; previous_root = if previous == root then [] else previous }))

  -- The loop over the candidates, with those that were kept.
  unfoldable pub normalize_candidates :
      Option AcceptedRootState
      → List CandidateRoot
      → List CandidateRoot
      → Outcome (List CandidateRoot)
  unfolding canonical_optional_cid check_candidate_base remove_candidate
  normalize_candidates accepted kept [] = ok kept
  normalize_candidates accepted kept (raw ∷ rest) = do
    root ← or_fail (cids.parse raw.root) bad_candidate
    base ← or_fail (canonical_optional_cid raw.base_root) bad_candidate
    check_candidate_base accepted base
    let candidate = record raw { root = root; base_root = base }
    normalize_candidates accepted
        (if is_accepted accepted root then kept else remove_candidate kept root ++ (candidate ∷ []))
        rest

  unfoldable pub normalize_observations :
      List ObservedHead → List ObservedHead → Outcome (List ObservedHead)
  unfolding normalize_observation upsert_observation
  normalize_observations kept [] = ok kept
  normalize_observations kept (raw ∷ rest) = do
    refuse_if (raw.observed_at == 0) missing_time
    normalized ← normalize_observation raw
    placed ← upsert_observation kept normalized
    normalize_observations placed rest

  unfoldable pub normalize_root_state : Text → RootState → Outcome RootState
  unfolding check_alias normalize_accepted normalize_candidates normalize_observations
  normalize_root_state alias value = do
    check_alias alias value
    accepted ← normalize_accepted value.accepted
    candidates ← normalize_candidates accepted [] value.candidates
    observations ← normalize_observations [] value.observed_heads
    refuse_if (not (is_some accepted) && (is_empty candidates && is_empty observations)) empty_state
    ok (record value {
      alias = alias;
      accepted = accepted;
      candidates = candidates;
      observed_heads = observations;
    })
