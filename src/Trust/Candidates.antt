-- ===== src/Trust/Candidates.antt =====
-- The candidates of a root state in trust/store.go: what holds of them between two operations.
use mathlib.Core.Path.{subst}
use malt.Base.{
  ℕ, ◌≡◌, ◌≢◌, refl, sym, ◌∙◌, inl, inr, ◌==◌, false, Bool-cases, ok, arith, >>=-eq-ok, Text,
  text_eq, Option, none, some, List, [], ◌∷◌, ◌++◌, or_fail, or_fail-eq-ok, All,
}
use malt.Base.Cids.{CidCodec}
use malt.Trust.Types.{CandidateRoot, AcceptedRootState, RootState, Outcome}
use malt.Trust.Heads.{
  remove_candidate, remaining, accept_root, check_candidate_base, is_accepted,
  canonical_optional_cid, normalize_accepted, normalize_candidates,
}
use malt.Trust.Store.{check_base, new_candidate, is_current}

-- No root stands twice.
abbrev pub Apart : List CandidateRoot → Type 0
Apart [] = Unit {0}
Apart (c ∷ cs) = All (λ d. d.root ≢ c.root) cs × Apart cs

-- The accepted root is a root and no candidate, no candidate stands twice, and candidates have a base
-- exactly if there is an accepted root.
pub record IsClean (accepted : Option AcceptedRootState) (candidates : List CandidateRoot)
    : Type 0 where
  pub rooted : (a : AcceptedRootState) → accepted ≡ some a → a.root ≢ []
  pub based : All (λ c. check_candidate_base accepted c.base_root ≡ ok tt) candidates
  pub open_ : All (λ c. is_accepted accepted c.root ≡ false) candidates
  pub apart : Apart candidates

All-remove :
    (P : CandidateRoot → Type 0) (cs : List CandidateRoot) (root : Text)
    → All P cs
    → All P (remove_candidate cs root)
unfolding remove_candidate
All-remove P [] root a = tt
All-remove P (c ∷ cs) root a = elim (Bool-cases (c.root == root)) [
  | inl e ↦ rw e (All-remove P cs root a.1)
  | inr e ↦ rw e (a.0, All-remove P cs root a.1)
]

All-append_one :
    (P : CandidateRoot → Type 0) (cs : List CandidateRoot) (c : CandidateRoot)
    → All P cs
    → P c
    → All P (cs ++ (c ∷ []))
All-append_one P [] c a p = (p, tt)
All-append_one P (d ∷ cs) c a p = (a.0, All-append_one P cs c a.1 p)

pub remove-others :
    (cs : List CandidateRoot) (root : Text) → All (λ c. c.root ≢ root) (remove_candidate cs root)
unfolding remove_candidate
remove-others [] root = tt
remove-others (c ∷ cs) root = elim (Bool-cases (c.root == root)) [
  | inl e ↦ rw e (remove-others cs root)
  | inr e ↦ rw e (λ x. ground (arith, e, x), remove-others cs root)
]

Apart-remove : (cs : List CandidateRoot) (root : Text) → Apart cs → Apart (remove_candidate cs root)
unfolding remove_candidate
Apart-remove [] root a = tt
Apart-remove (c ∷ cs) root a = elim (Bool-cases (c.root == root)) [
  | inl e ↦ rw e (Apart-remove cs root a.1)
  | inr e ↦ rw e (All-remove _ cs root a.0, Apart-remove cs root a.1)
]

Apart-append_one :
    (cs : List CandidateRoot) (c : CandidateRoot)
    → Apart cs
    → All (λ d. d.root ≢ c.root) cs
    → Apart (cs ++ (c ∷ []))
Apart-append_one [] c a n = (tt, tt)
Apart-append_one (d ∷ cs) c a n =
    (All-append_one _ cs c a.0 (λ e. n.0 (sym e)), Apart-append_one cs c a.1 n.1)

-- The candidate takes the place of the one with its root.
placed-IsClean :
    (accepted : Option AcceptedRootState) (cs : List CandidateRoot) (c : CandidateRoot)
    → IsClean accepted cs
    → check_candidate_base accepted c.base_root ≡ ok tt
    → is_accepted accepted c.root ≡ false
    → IsClean accepted (remove_candidate cs c.root ++ (c ∷ []))
placed-IsClean accepted cs c v b o = record {
  rooted = v.rooted;
  based = All-append_one _ (remove_candidate cs c.root) c (All-remove _ cs c.root v.based) b;
  open_ = All-append_one _ (remove_candidate cs c.root) c (All-remove _ cs c.root v.open_) o;
  apart =
      Apart-append_one (remove_candidate cs c.root) c (Apart-remove cs c.root v.apart)
        (remove-others cs c.root);
}

unequal-test : (c root : Text) → c ≢ root → (c == root) ≡ false
unequal-test c root n = ground arith

accepted-IsClean :
    (old : Option AcceptedRootState) (cs : List CandidateRoot) (a : AcceptedRootState)
    → a.root ≢ []
    → IsClean old cs
    → IsClean (some a) (remaining old cs a.root)
unfolding remaining check_candidate_base
accepted-IsClean none cs a n v = record {
  rooted = λ b e. ground arith;
  based = tt;
  open_ = tt;
  apart = tt;
}
accepted-IsClean (some old) cs a n v = record {
  rooted = λ b e. ground arith;
  based = All-remove _ cs a.root v.based;
  open_ = All-map cs (remove-others cs a.root);
  apart = Apart-remove cs a.root v.apart;
}
  where
    All-map :
        (cs : List CandidateRoot)
        → All (λ c. c.root ≢ a.root) (remove_candidate cs a.root)
        → All (λ c. (c.root == a.root) ≡ false) (remove_candidate cs a.root)
    All-map cs h = each (remove_candidate cs a.root) h
      where
        each :
            (ds : List CandidateRoot)
            → All (λ c. c.root ≢ a.root) ds
            → All (λ c. (c.root == a.root) ≡ false) ds
        each [] h = tt
        each (d ∷ ds) h = (unequal-test d.root a.root h.0, each ds h.1)

-- Accepting a root that is not empty keeps the candidates clean.
pub accept_root-IsClean :
    (value : RootState) (root source : Text) (now : ℕ)
    → root ≢ []
    → IsClean value.accepted value.candidates
    → let after = accept_root value root source now in IsClean after.accepted after.candidates
unfolding accept_root
accept_root-IsClean value root source now n v =
    accepted-IsClean value.accepted value.candidates _ n v

base-checked :
    (accepted : Option AcceptedRootState) (base : Text)
    → ((a : AcceptedRootState) → accepted ≡ some a → a.root ≢ [])
    → check_base accepted base ≡ ok tt
    → check_candidate_base accepted base ≡ ok tt
unfolding check_base check_candidate_base
base-checked none base r h = ground arith
base-checked (some a) base r h = ground (arith, r a refl)

-- A candidate that was checked against the accepted root, and is not that root, keeps the
-- candidates clean when it takes its place among them.
pub new_candidate-IsClean :
    (now : ℕ) (root base source : Text) (accepted : Option AcceptedRootState)
    (cs : List CandidateRoot)
    → IsClean accepted cs
    → check_base accepted base ≡ ok tt
    → is_current accepted root ≡ false
    → IsClean accepted (remove_candidate cs root ++ (new_candidate now root base source ∷ []))
unfolding new_candidate
new_candidate-IsClean now root base source accepted cs v b o =
    placed-IsClean accepted cs (new_candidate now root base source) v
      (base-checked accepted base v.rooted b) (fresh accepted o)
  where
    fresh : (a : Option AcceptedRootState) → is_current a root ≡ false → is_accepted a root ≡ false
    fresh none h = refl
    fresh (some a) h = h

module _ ⦃cids : CidCodec⦄ where
  normalize_candidates-keeps :
      (accepted : Option AcceptedRootState) (kept raws cs : List CandidateRoot)
      → IsClean accepted kept
      → normalize_candidates accepted kept raws ≡ ok cs
      → IsClean accepted cs
  unfolding normalize_candidates
  normalize_candidates-keeps accepted kept [] cs v h = subst (IsClean accepted) (ground arith) v
  normalize_candidates-keeps accepted kept (raw ∷ rest) cs v h =
      let (root, _, h1) = >>=-eq-ok (or_fail (cids.parse raw.root) _) _ h in
      let (base, _, h2) = >>=-eq-ok (or_fail (canonical_optional_cid raw.base_root) _) _ h1 in
      let (_, b, h3) = >>=-eq-ok (check_candidate_base accepted base) _ h2 in
      elim (Bool-cases (is_accepted accepted root)) [
        | inl e ↦ normalize_candidates-keeps accepted kept rest cs v (rw e at h3)
        | inr e ↦
            normalize_candidates-keeps accepted
              (remove_candidate kept root ++ (record raw { root = root; base_root = base } ∷ []))
              rest cs
              (placed-IsClean accepted kept (record raw { root = root; base_root = base }) v b e)
              (rw e at h3)
      ]

  -- The candidates that normalization keeps beside a normalized accepted root have distinct
  -- roots, none of them the accepted one, and a base exactly if there is an accepted root.
  pub normalize_candidates-IsClean :
      (raw accepted : Option AcceptedRootState) (raws cs : List CandidateRoot)
      → normalize_accepted raw ≡ ok accepted
      → normalize_candidates accepted [] raws ≡ ok cs
      → IsClean accepted cs
  unfolding normalize_accepted
  normalize_candidates-IsClean raw accepted raws cs a h =
      normalize_candidates-keeps accepted [] raws cs
        (record { rooted = rooted raw a; based = tt; open_ = tt; apart = tt }) h
    where
      root_of :
          {b c : AcceptedRootState}
          → ◌≡◌ {A = Outcome (Option AcceptedRootState)} (ok (some c)) (ok accepted)
          → accepted ≡ some b
          → b.root ≡ c.root
      root_of h e = ground arith

      rooted :
          (raw : Option AcceptedRootState)
          → normalize_accepted raw ≡ ok accepted
          → (b : AcceptedRootState) → accepted ≡ some b
          → b.root ≢ []
      rooted none n b e = absurd (cc)
      rooted (some r) n b e =
          let (root, p, h1) = >>=-eq-ok (or_fail (cids.parse r.root) _) _ n in
          let (previous, _, h2) =
            >>=-eq-ok (or_fail (canonical_optional_cid r.previous_root) _) _ h1 in
          let same : b.root ≡ root = root_of h2 e in
          λ x.
            cids.parse_nonempty r.root root (or_fail-eq-ok (cids.parse r.root) _ p) (sym same ∙ x)
