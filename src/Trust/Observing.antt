-- ===== src/Trust/Observing.antt =====
-- The observed heads of trust/store.go: one entry per stream, and its revision never falls.
use mathlib.Core.Path.{subst}
use malt.Base.{
  Eq, Text-discrete, All, refl, ap, ◌++◌, ◌≤◌, ◌≡◌, ◌≢◌, inl, inr, ◌==◌, ==_iff, Bool-cases, ok,
  arith, >>=-eq-ok, if◌then◌else◌, Text, text_eq, Option, none, some, List, [], ◌∷◌, nat_eq,
}
use malt.Trust.Types.{ObservedHead}
use malt.Trust.Heads.{observation_key, check_revision, place_observation}

-- What the documentation of ObservedHead says identifies a stream.
pub record Stream : Type 0 where
  pub source : Text
  pub dataset_id : Text
  pub branch : Text

unfoldable pub Stream-discrete : Discrete Stream
unfolding Text-discrete
Stream-discrete = hlevel Text-discrete

instance abbrev pub stream_eq : Eq Stream
stream_eq = record { dec = Stream-discrete }

abbrev pub stream_of : ObservedHead → Stream
stream_of h = record { source = h.source; dataset_id = h.dataset_id; branch = h.branch }

-- The entry of a stream.
unfoldable pub head_of : Stream → List ObservedHead → Option ObservedHead
head_of stream [] = none
head_of stream (h ∷ hs) = if stream_of h == stream then some h else head_of stream hs

-- The character that separates the parts of a key stands in neither of the first two.
pub record IsPlain (h : ObservedHead) : Type 0 where
  pub source : All (λ c. c ≢ 0) h.source
  pub dataset_id : All (λ c. c ≢ 0) h.dataset_id

separated :
    (a b x y : Text)
    → All (λ c. c ≢ 0) a
    → All (λ c. c ≢ 0) b
    → a ++ (0 ∷ x) ≡ b ++ (0 ∷ y)
    → (a ≡ b) × (x ≡ y)
separated [] [] x y p q e = (refl, cc)
separated [] (d ∷ b) x y p q e = absurd (q.0 (cc))
separated (c ∷ a) [] x y p q e = absurd (p.0 (cc))
separated (c ∷ a) (d ∷ b) x y p q e =
    let (rest, last) = separated a b x y p.1 q.1 (cc (e)) in
    let head : c ≡ d = cc (e) in (cc (head, rest), last)

observation_key-stream_of :
    (h k : ObservedHead)
    → IsPlain h
    → IsPlain k
    → observation_key h ≡ observation_key k
    → stream_of h ≡ stream_of k
unfolding observation_key
observation_key-stream_of h k p q e =
    let (one, rest) = separated h.source k.source _ _ p.source q.source e in
    let (two, three) = separated h.dataset_id k.dataset_id _ _ p.dataset_id q.dataset_id rest in
    cc (one, two, three)

stream_of-observation_key :
    (h k : ObservedHead) → stream_of h ≡ stream_of k → observation_key h ≡ observation_key k
unfolding observation_key
stream_of-observation_key h k e =
    let one : h.source ≡ k.source = ap (λ s. s.source) e in
    let two : h.dataset_id ≡ k.dataset_id = ap (λ s. s.dataset_id) e in
    let three : h.branch ≡ k.branch = ap (λ s. s.branch) e in rw (one, two, three) refl

-- A later entry of a stream: the revision has not fallen, and is the same only for the same commit
-- and root.
pub record IsLater (old new : ObservedHead) : Type 0 where
  pub revision : old.revision ≤ new.revision
  pub same : old.revision ≡ new.revision → (new.commit_id ≡ old.commit_id) × (new.root ≡ old.root)

check_revision-IsLater : (old new : ObservedHead) → check_revision old new ≡ ok tt → IsLater old new
unfolding check_revision
check_revision-IsLater old new h = record {
  revision = ground arith;
  same = λ e. (ground arith, ground arith);
}

-- The head becomes the entry of its stream, every other stream keeps its entry, and the entry before
-- it, if there was one, is not later.
pub record IsPlaced (heads after : List ObservedHead) (incoming : ObservedHead) : Type 0 where
  pub stored : head_of (stream_of incoming) after ≡ some incoming
  pub others :
      (stream : Stream) → stream_of incoming ≢ stream → head_of stream after ≡ head_of stream heads
  pub later :
      (old : ObservedHead) → head_of (stream_of incoming) heads ≡ some old → IsLater old incoming

IsPlaced-first : (incoming : ObservedHead) → IsPlaced [] (incoming ∷ []) incoming
unfolding head_of
IsPlaced-first incoming = record {
  stored = ground arith;
  others = λ stream n. ground (arith, n);
  later = λ old e. absurd (cc);
}

IsPlaced-here :
    (h incoming : ObservedHead) (hs : List ObservedHead)
    → stream_of h ≡ stream_of incoming
    → IsLater h incoming
    → IsPlaced (h ∷ hs) (incoming ∷ hs) incoming
unfolding head_of
IsPlaced-here h incoming hs e l = record {
  stored = ground arith;
  others = λ stream n. ground (arith, n, e);
  later = λ old k. subst (λ x. IsLater x incoming) (ground (arith, k, e)) l;
}

IsPlaced-later :
    (h incoming : ObservedHead) (hs after : List ObservedHead)
    → stream_of h ≢ stream_of incoming
    → IsPlaced hs after incoming
    → IsPlaced (h ∷ hs) (h ∷ after) incoming
unfolding head_of
IsPlaced-later h incoming hs after n p = record {
  stored = ground (arith, n, p.stored);
  others = λ stream m. ground (arith, p.others stream m);
  later = λ old k. p.later old (ground (arith, n, k));
}

-- An observation that is accepted becomes the entry of its stream, which source, dataset and
-- branch name, never with a lower revision than the entry before it nor with another commit or
-- root at the same revision, and every other stream keeps its entry, if no source and no dataset
-- has a NUL character.
pub place_observation-IsPlaced :
    (heads after : List ObservedHead) (incoming : ObservedHead)
    → All IsPlain heads
    → IsPlain incoming
    → place_observation heads incoming ≡ ok after
    → IsPlaced heads after incoming
unfolding place_observation
place_observation-IsPlaced [] after incoming plain p k =
    let same : incoming ∷ [] ≡ after = cc in
    subst (λ x. IsPlaced [] x incoming) same (IsPlaced-first incoming)
place_observation-IsPlaced (h ∷ hs) after incoming plain p k =
    elim (Bool-cases (observation_key h == observation_key incoming)) [
      | inl e ↦
          let (_, checked, made) = >>=-eq-ok (check_revision h incoming) _ (rw e at k) in
          let same : incoming ∷ hs ≡ after = cc (made) in
          let key = (==_iff (observation_key h) (observation_key incoming)).0 e in
          subst (λ x. IsPlaced (h ∷ hs) x incoming) same
            (IsPlaced-here h incoming hs (observation_key-stream_of h incoming plain.0 p key)
              (check_revision-IsLater h incoming checked))
      | inr e ↦
          let (others, placed, made) = >>=-eq-ok (place_observation hs incoming) _ (rw e at k) in
          let same : h ∷ others ≡ after = cc (made) in
          let apart : stream_of h ≢ stream_of incoming =
            λ x. ground (arith, e, stream_of-observation_key h incoming x) in
          subst (λ x. IsPlaced (h ∷ hs) x incoming) same
            (IsPlaced-later h incoming hs others apart
              (place_observation-IsPlaced hs others incoming plain.1 p placed))
    ]
