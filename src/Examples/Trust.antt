-- ===== src/Examples/Trust.antt =====
-- A root that is trusted, a candidate that builds on it, and what the theorems say of them.
use malt.Base.{
  All, contains_rune, arith, false, ◌≢◌, ◌≡◌, ◌↔◌, refl, some, [], ◌∷◌, Text, text, ok, lookup,
  Text-discrete, false, ◌++◌, Any,
}
use malt.Examples.Codec.{plain_cids, parse_plain}
use malt.Trust.Types.{CandidateRoot, AcceptedRootState, ObservedHead, RootState, Roots, Outcome}
use malt.Trust.Heads.{
  accept_root, remove_candidate, place_observation, normalize_accepted, normalize_candidates,
}
use malt.Trust.Store.{
  add_candidate_locked, observe_head_locked, accept_candidate_locked, accept_observed_locked,
  find_candidate, guarded, check_base, is_current,
}
use malt.Trust.Candidates.{IsClean, accept_root-IsClean, normalize_candidates-IsClean}
use malt.Trust.Accepting.{
  accepted_of, IsAcceptance, BuildsOn, add_candidate_locked-accepted_of,
  accept_candidate_locked-IsAcceptance, accept_observed_locked-IsAcceptance, guarded_iff,
}
use malt.Trust.Observing.{IsPlain, IsPlaced, place_observation-IsPlaced}

abbrev pub first_root : AcceptedRootState
first_root = record { root = text "r1"; previous_root = []; source = text "me"; accepted_at = 1 }

abbrev pub trusted : RootState
trusted = record {
  alias = text "home";
  profile = [];
  gateway = [];
  accepted = some first_root;
  candidates = [];
  observed_heads = [];
}

abbrev pub roots : Roots
roots = (text "home", trusted) ∷ []

abbrev pub update : CandidateRoot
update = record { root = text "r2"; base_root = text "r1"; source = text "sync"; observed_at = 2 }

abbrev pub updated : RootState
updated = record trusted { candidates = update ∷ [] }

abbrev pub roots_updated : Roots
roots_updated = (text "home", updated) ∷ []

add_one :
    add_candidate_locked 2 (text "home") (text "r2") (text "r1") (text "sync") roots
    ≡ (ok updated, some roots_updated)
unfolding add_candidate_locked lookup Text-discrete remove_candidate malt.Base.insert
add_one = refl

add_candidate_locked-accepted_of_example :
    accepted_of roots_updated (text "home") ≡ accepted_of roots (text "home")
add_candidate_locked-accepted_of_example =
    add_candidate_locked-accepted_of 2 (text "home") (text "r2") (text "r1") (text "sync") roots
      roots_updated (ok updated) add_one (text "home")

abbrev pub seen : ObservedHead
seen = record {
  source = text "gateway";
  dataset_id = text "data";
  branch = text "main";
  commit_id = text "k1";
  root = text "r3";
  revision = 4;
  observed_at = 3;
}

abbrev pub seen_later : ObservedHead
seen_later = record seen { commit_id = text "k2"; root = text "r4"; revision = 5 }

abbrev pub trusted_seen : RootState
trusted_seen = record trusted { observed_heads = seen ∷ [] }

abbrev pub roots_seen : Roots
roots_seen = (text "home", trusted_seen) ∷ []

observe_one : observe_head_locked (text "home") seen roots ≡ ok (trusted_seen, roots_seen)
unfolding observe_head_locked malt.Trust.Heads.upsert_observation lookup Text-discrete
    malt.Base.sort malt.Base.insert
observe_one = refl

place_later : place_observation (seen ∷ []) seen_later ≡ ok (seen_later ∷ [])
unfolding place_observation Text-discrete
place_later = refl

absent : (t : Text) → contains_rune 0 t ≡ false → All (λ c. c ≢ 0) t
unfolding contains_rune
absent [] h = tt
absent (c ∷ cs) h = (λ e. ground (arith, e, h), absent cs (ground (arith, h)))

seen-IsPlain : IsPlain seen
unfolding contains_rune native.Mathlib.Decide.ℕ_discrete
seen-IsPlain = record {
  source = absent (text "gateway") refl;
  dataset_id = absent (text "data") refl;
}

seen_later-IsPlain : IsPlain seen_later
seen_later-IsPlain = record { source = seen-IsPlain.source; dataset_id = seen-IsPlain.dataset_id }

place_observation-IsPlaced_example : IsPlaced (seen ∷ []) (seen_later ∷ []) seen_later
place_observation-IsPlaced_example =
    place_observation-IsPlaced (seen ∷ []) (seen_later ∷ []) seen_later (seen-IsPlain, tt)
      seen_later-IsPlain place_later

abbrev pub second_root : AcceptedRootState
second_root = record {
  root = text "r2";
  previous_root = text "r1";
  source = text "me";
  accepted_at = 9;
}

abbrev pub advanced : RootState
advanced = record trusted { accepted = some second_root }

abbrev pub roots_advanced : Roots
roots_advanced = (text "home", advanced) ∷ []

accept_one :
    accept_candidate_locked 9 (text "home") (text "r2") (text "me") roots_updated
    ≡ ok (advanced, roots_advanced)
unfolding accept_candidate_locked lookup Text-discrete accept_root malt.Base.insert
accept_one = refl

accept_candidate_locked-IsAcceptance_example :
    (before : RootState) × (c : CandidateRoot) × (lookup (text "home") roots_updated ≡ some before)
    × (find_candidate (text "r2") before.candidates ≡ some c)
    × (c.root ≡ text "r2")
    × BuildsOn before.accepted c
    × IsAcceptance 9
        (text "home")
        (text "r2")
        (text "me")
        before
        roots_updated
        advanced
        roots_advanced
accept_candidate_locked-IsAcceptance_example =
    accept_candidate_locked-IsAcceptance 9 (text "home") (text "r2") (text "me") roots_updated
      roots_advanced advanced accept_one

guarded_iff_example : (guarded (text "home") (text "r1") (ok tt) roots ≡ ok tt) ↔ (
    (accepted_of roots (text "home") ≡ some (text "r1"))
    × (◌≡◌ {A = Outcome (Unit {0})} (ok tt) (ok tt)))
guarded_iff_example = guarded_iff (text "home") (text "r1") (ok tt) roots

normal_first : normalize_accepted (some first_root) ≡ ok (some first_root)
unfolding normalize_accepted parse_plain Text-discrete malt.Base.trim_space malt.Base.is_space
normal_first = refl

normal_update : normalize_candidates (some first_root) [] (update ∷ []) ≡ ok (update ∷ [])
unfolding normalize_candidates parse_plain Text-discrete malt.Base.trim_space malt.Base.is_space
normal_update = refl

update-IsClean : IsClean (some first_root) (update ∷ [])
update-IsClean =
    normalize_candidates-IsClean (some first_root) (some first_root) (update ∷ []) (update ∷ [])
      normal_first normal_update

base_fits : check_base (some first_root) (text "r1") ≡ ok tt
unfolding check_base Text-discrete
base_fits = refl

is_new : is_current (some first_root) (text "r5") ≡ false
unfolding Text-discrete
is_new = refl

accept_root-IsClean_example :
    IsClean
      (accept_root updated (text "r2") (text "me") 9).accepted
      (accept_root updated (text "r2") (text "me") 9).candidates
accept_root-IsClean_example =
    accept_root-IsClean updated (text "r2") (text "me") 9 (λ e. cc (e)) update-IsClean

abbrev pub promoted : RootState
promoted = record trusted_seen {
  profile = text "work";
  gateway = text "gateway";
  accepted =
      some (record {
        root = text "r3";
        previous_root = text "r1";
        source = text "me";
        accepted_at = 9;
      });
}

abbrev pub roots_promoted : Roots
roots_promoted = (text "home", promoted) ∷ []

promote_one :
    accept_observed_locked 9
      (text "home")
      (text "r3")
      (text "work")
      (text "gateway")
      (text "me")
      roots_seen
    ≡ ok (promoted, roots_promoted)
unfolding accept_observed_locked lookup Text-discrete accept_root malt.Base.insert
promote_one = refl

accept_observed_locked-IsAcceptance_example :
    (before : RootState) × (lookup (text "home") roots_seen ≡ some before)
    × Any (λ h. h.root ≡ text "r3") before.observed_heads
    × IsAcceptance 9
        (text "home")
        (text "r3")
        (text "me")
        (record before { profile = text "work"; gateway = text "gateway" })
        roots_seen
        promoted
        roots_promoted
accept_observed_locked-IsAcceptance_example =
    accept_observed_locked-IsAcceptance 9 (text "home") (text "r3") (text "work") (text "gateway")
      (text "me") roots_seen roots_promoted promoted promote_one
