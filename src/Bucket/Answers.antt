-- ===== src/Bucket/Answers.antt =====
-- validateApplyResult of nodeapi/dataset.go: what a result that passed the checks says.
use malt.Base.{
  ◌≡◌, ◌≢◌, inl, inr, refl, ◌==◌, ==_iff, true, Bool-cases, ok, arith, >>=-eq-ok, Text, text,
  text_eq, Option-cases, none, some, List, [], ◌∷◌,
}
use malt.Base.Cids.{CidCodec}
use malt.Bucket.Types.{ApplyRequest, ApplyResult, ObservedHead, Commit, commit_eq}
use malt.Bucket.Node.{
  normalize_apply_request, validate_observed_head, validate_commit, check_candidate_matches,
  check_status, check_fast_forward, check_merged, check_branched, validate_apply_result,
  ref_points_to_commit, merge_parents,
}

pub record PointsTo (h : ObservedHead) (c : Commit) : Type 0 where
  pub dataset : h.dataset_id ≡ c.dataset_id
  pub commit : h.commit_id ≡ c.id
  pub root : h.root ≡ c.root

-- The three outcomes of an application, as the documentation of the protocol tells them apart.
pub data Settled (request : ApplyRequest) (value : ApplyResult) : Type 0 where
  fast_forward :
      value.status ≡ text "fast_forward"
      → value.branch ≡ none
      → value.candidate ≡ value.commit
      → value.commit.root ≡ request.candidate_root
      → PointsTo value.head value.commit
      → Settled request value
  merged :
      value.status ≡ text "merged"
      → request.merge_policy ≢ text "preserve"
      → value.branch ≡ none
      → value.candidate.id ≢ value.commit.id
      → value.merge_base ≡ request.base_root
      → (first : Text) × (value.commit.parents ≡ first ∷ value.candidate.id ∷ [])
        × (first ≢ value.candidate.id)
      → PointsTo value.head value.commit
      → Settled request value
  branched :
      (side : ObservedHead)
      → value.status ≡ text "branched"
      → value.branch ≡ some side
      → value.candidate ≡ value.commit
      → value.conflicts ≢ []
      → value.merge_base ≡ request.base_root
      → PointsTo side value.candidate
      → Settled request value

points-to : (h : ObservedHead) (c : Commit) → ref_points_to_commit h c ≡ true → PointsTo h c
unfolding ref_points_to_commit
points-to h c e = record { dataset = ground arith; commit = ground arith; root = ground arith }

parents-of :
    (candidate : Text) (parents : List Text)
    → merge_parents candidate parents ≡ true
    → (first : Text) × (parents ≡ first ∷ candidate ∷ []) × (first ≢ candidate)
unfolding merge_parents
parents-of candidate [] h = cc
parents-of candidate (a ∷ []) h = cc
parents-of candidate (a ∷ b ∷ c ∷ rest) h = cc
parents-of candidate (a ∷ b ∷ []) h =
    let same : b ≡ candidate = ground arith in (a, rw same refl, λ e. ground (arith, e))

matches-fields :
    (request : ApplyRequest) (value : ApplyResult)
    → check_candidate_matches request value ≡ ok tt
    → (value.candidate.root ≡ request.candidate_root)
      × (value.candidate.base_root ≡ request.base_root)
      × (value.candidate.change_set_cid ≡ request.change_set_cid)
      × (value.candidate.message ≡ request.message)
unfolding check_candidate_matches
matches-fields request value h = (ground arith, ground arith, ground arith, ground arith)

module _ ⦃cids : CidCodec⦄ where
  fast_forward-Settled :
      (request : ApplyRequest) (value : ApplyResult)
      → value.status ≡ text "fast_forward"
      → check_fast_forward request value ≡ ok tt
      → Settled request value
  unfolding check_fast_forward
  fast_forward-Settled request value e h =
      fast_forward e (ground arith) (ground arith) (ground arith)
        (elim (Bool-cases (ref_points_to_commit value.head value.commit)) [
          | inl p ↦ points-to value.head value.commit p
          | inr p ↦ absurd (ground (arith, p))
        ])

  merged-Settled :
      (request : ApplyRequest) (value : ApplyResult)
      → value.status ≡ text "merged"
      → check_merged request value ≡ ok tt
      → Settled request value
  unfolding check_merged
  merged-Settled request value e h =
      merged e (ground arith) (ground arith) (ground arith) (ground arith)
        (parents-of value.candidate.id value.commit.parents (ground arith))
        (elim (Bool-cases (ref_points_to_commit value.head value.commit)) [
          | inl p ↦ points-to value.head value.commit p
          | inr p ↦ absurd (ground (arith, p))
        ])

  branched-Settled :
      (dataset_id : Text) (request : ApplyRequest) (value : ApplyResult)
      → value.status ≡ text "branched"
      → check_branched dataset_id request value ≡ ok tt
      → Settled request value
  unfolding check_branched
  branched-Settled dataset_id request value e h = elim (Option-cases value.branch) [
    | inl absent ↦ absurd (cc (rw absent at h))
    | inr (side, there) ↦
        branched side e there (ground arith) (ground arith) (ground arith)
          (elim (Bool-cases (ref_points_to_commit side value.candidate)) [
            | inl p ↦ points-to side value.candidate p
            | inr p ↦ absurd (ground (arith, p, there))
          ])
  ]

  -- What an accepted result says: the candidate that the request asked for, on the base of the
  -- request, and one of the three outcomes.
  pub record IsAnswer (raw : ApplyRequest) (value : ApplyResult) : Type 0 where
    pub request : ApplyRequest
    pub normal : normalize_apply_request raw.branch raw ≡ ok request
    pub candidate_root : value.candidate.root ≡ request.candidate_root
    pub base_root : value.candidate.base_root ≡ request.base_root
    pub change_set : value.candidate.change_set_cid ≡ request.change_set_cid
    pub message : value.candidate.message ≡ request.message
    pub outcome : Settled request value

  status-Settled :
      (dataset_id : Text) (request : ApplyRequest) (value : ApplyResult)
      → check_status dataset_id request value ≡ ok tt
      → Settled request value
  unfolding check_status
  status-Settled dataset_id request value h =
      elim (Bool-cases (value.status == text "fast_forward")) [
        | inl e ↦ fast_forward-Settled request value ((==_iff value.status _).0 e) (rw e at h)
        | inr e ↦ elim (Bool-cases (value.status == text "merged")) [
          | inl m ↦ merged-Settled request value ((==_iff value.status _).0 m) (rw (e, m) at h)
          | inr m ↦ elim (Bool-cases (value.status == text "branched")) [
            | inl b ↦
                branched-Settled dataset_id request value ((==_iff value.status _).0 b)
                  (rw (e, m, b) at h)
            | inr b ↦ absurd (cc (rw (e, m, b) at h))
          ]
        ]
      ]

  -- A result that passes the checks carries the candidate root, base root, change set and
  -- message of the normalized request, and is a fast-forward to the candidate, a merge that the
  -- policy allows with the candidate as its second parent, or a conflict branch that points to
  -- the candidate.
  pub validate_apply_result-IsAnswer :
      (dataset_id : Text) (raw : ApplyRequest) (value : ApplyResult)
      → validate_apply_result dataset_id raw value ≡ ok tt
      → IsAnswer raw value
  unfolding validate_apply_result
  validate_apply_result-IsAnswer dataset_id raw value h =
      let (request, normal, h1) = >>=-eq-ok (normalize_apply_request raw.branch raw) _ h in
      let (_, _, h2) =
        >>=-eq-ok (validate_observed_head dataset_id request.branch value.head) _ h1 in
      let (_, _, h3) = >>=-eq-ok (validate_commit dataset_id value.candidate) _ h2 in
      let (_, _, h4) = >>=-eq-ok (validate_commit dataset_id value.commit) _ h3 in
      let (_, matches, h5) = >>=-eq-ok (check_candidate_matches request value) _ h4 in
      let (root, base, change_set, message) = matches-fields request value matches in
      record {
        request = request;
        normal = normal;
        candidate_root = root;
        base_root = base;
        change_set = change_set;
        message = message;
        outcome = status-Settled dataset_id request value h5;
      }
