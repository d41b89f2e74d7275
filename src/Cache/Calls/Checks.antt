-- ===== src/Cache/Calls/Checks.antt =====
-- The checks of an entry, after each way in which cache/store.go changes one.
use mathlib.Core.Path.{subst}
use malt.Base.{
  ◌≡◌, ◌≢◌, refl, sym, ◌⊎◌, inl, inr, ℕ, arith, Bool, true, false, not, ◌&&◌, Option, none, text_eq,
  nat_eq, ◌==◌, Bool-cases, ok, Result-cases, if◌then◌else◌, trim_space,
}
use malt.Base.Cids.{CidCodec}
use malt.Cache.Types.{
  ℤ, Bytes, State, unmaterialized_remote, verified_clean, local_dirty, pending_upload, candidate,
  conflicted, offline_only, stale, unknown, int_eq, state_eq, Binding, VerificationEvidence, Entry,
  Hashes, State-discrete,
}
use malt.Cache.Disk.{normalize_binding, check_state, check_fields, valid_state, is_local_body_state}
use malt.Cache.Store.Locked.{moved, allowed_transition, verify_payload_cid}
use malt.Cache.Store.Methods.{
  check_verified, check_local, check_evidence, verified_entry, local_entry,
}
use malt.Cache.Entries.{refused}
use malt.Cache.Calls.{stepped}

pub spoilt_passes :
    (now : ℕ) (e : Entry) → now ≢ 0 → refused e ≡ false → refused (moved now stale e) ≡ false
unfolding check_state check_fields valid_state
spoilt_passes now e n r = ground arith

-- The checks of a state of a local body.
local_checks :
    (s : State) (held : Bool) (size : ℤ)
    → is_local_body_state s ≡ true
    → held ≡ true
    → (valid_state s ≡ true) × (check_fields s none held size ≡ true)
unfolding is_local_body_state valid_state check_fields
local_checks unmaterialized_remote held size l b = absurd cc
local_checks verified_clean held size l b = absurd cc
local_checks local_dirty held size l b = (refl, rw b refl)
local_checks pending_upload held size l b = (refl, rw b refl)
local_checks candidate held size l b = (refl, rw b refl)
local_checks conflicted held size l b = (refl, rw b refl)
local_checks offline_only held size l b = (refl, rw b refl)
local_checks stale held size l b = absurd cc
local_checks (unknown t) held size l b = absurd cc

pub local_passes :
    (now : ℕ) (next : State) (e : Entry)
    → now ≢ 0
    → is_local_body_state next ≡ true
    → e.body_present ≡ true
    → refused e ≡ false
    → refused (moved now next e) ≡ false
unfolding check_state
local_passes now next e n l b r = ground (arith, local_checks next e.body_present e.size l b)

-- Where a transition leads: nowhere else, to the stale state, or from a local body to another.
pub allowed_transition-cases :
    (s next : State)
    → allowed_transition s next ≡ true
    → (s ≡ next)
      ⊎ ((next ≡ stale) ⊎ ((is_local_body_state s ≡ true) × (is_local_body_state next ≡ true)))
unfolding allowed_transition is_local_body_state
allowed_transition-cases unmaterialized_remote next a = ground arith
allowed_transition-cases verified_clean next a = ground arith
allowed_transition-cases local_dirty next a = ground arith
allowed_transition-cases pending_upload next a = ground arith
allowed_transition-cases candidate next a = ground arith
allowed_transition-cases conflicted next a = ground arith
allowed_transition-cases offline_only next a = ground arith
allowed_transition-cases stale next a = ground arith
allowed_transition-cases (unknown t) next a = ground arith

-- An entry of a local body has no evidence, and holds its body.
local_held :
    (s : State) (evidence : Option VerificationEvidence) (held : Bool) (size : ℤ)
    → is_local_body_state s ≡ true
    → check_fields s evidence held size ≡ true
    → held ≡ true
unfolding is_local_body_state check_fields
local_held unmaterialized_remote evidence held size l k = absurd cc
local_held verified_clean evidence held size l k = absurd cc
local_held local_dirty evidence held size l k = ground arith
local_held pending_upload evidence held size l k = ground arith
local_held candidate evidence held size l k = ground arith
local_held conflicted evidence held size l k = ground arith
local_held offline_only evidence held size l k = ground arith
local_held stale evidence held size l k = absurd cc
local_held (unknown t) evidence held size l k = absurd cc

-- What the evidence of an entry becomes.
abbrev left_evidence : State → Option VerificationEvidence → Option VerificationEvidence
left_evidence s evidence = if s == verified_clean then evidence else none

kept_checks :
    (s : State) (evidence : Option VerificationEvidence) (held : Bool) (size : ℤ)
    → check_fields s evidence held size ≡ true
    → check_fields s (left_evidence s evidence) held size ≡ true
unfolding check_fields State-discrete
kept_checks unmaterialized_remote evidence held size k = ground arith
kept_checks verified_clean evidence held size k = ground arith
kept_checks local_dirty evidence held size k = ground arith
kept_checks pending_upload evidence held size k = ground arith
kept_checks candidate evidence held size k = ground arith
kept_checks conflicted evidence held size k = ground arith
kept_checks offline_only evidence held size k = ground arith
kept_checks stale evidence held size k = ground arith
kept_checks (unknown t) evidence held size k = ground arith

local_evidence :
    (s : State) (evidence : Option VerificationEvidence)
    → is_local_body_state s ≡ true
    → left_evidence s evidence ≡ none
unfolding is_local_body_state State-discrete
local_evidence unmaterialized_remote evidence l = ground arith
local_evidence verified_clean evidence l = ground arith
local_evidence local_dirty evidence l = ground arith
local_evidence pending_upload evidence l = ground arith
local_evidence candidate evidence l = ground arith
local_evidence conflicted evidence l = ground arith
local_evidence offline_only evidence l = ground arith
local_evidence stale evidence l = ground arith
local_evidence (unknown t) evidence l = ground arith

-- A transition to the state that an entry has already, to the stale state, or between local bodies.
pub stepped_passes :
    (now : ℕ) (next : State) (e : Entry)
    → now ≢ 0
    → allowed_transition e.state next ≡ true
    → refused e ≡ false
    → refused (stepped now next e) ≡ false
unfolding check_state
stepped_passes now next e n a r = elim (allowed_transition-cases e.state next a) [
  | inl same ↦
      let checks : check_fields next e.verification e.body_present e.size ≡ true =
        subst (λ s. check_fields s e.verification e.body_present e.size ≡ true) same
          (ground (arith, r)) in
      let valid : valid_state next ≡ true =
        subst (λ s. valid_state s ≡ true) same (ground (arith, r)) in
      rw (valid, kept_checks next e.verification e.body_present e.size checks) (ground (arith, r))
  | inr (inl to_stale) ↦
      subst (λ s. refused (stepped now s e) ≡ false) (sym to_stale)
        (unfold State-discrete in spoilt_passes now e n r)
  | inr (inr (before, after)) ↦
      let held =
        local_held e.state e.verification e.body_present e.size before (ground (arith, r)) in
      rw (local_evidence next e.verification after) (local_passes now next e n after held r)
]

-- A binding, body and evidence that were checked.
pub check_verified-made :
    ⦃c : CidCodec⦄ (h : Hashes) (now : ℕ) (b : Binding) (body : Bytes) (v : VerificationEvidence)
    (e : Entry)
    → check_verified h now b body v ≡ ok e
    → (n : Binding) × (normalize_binding b ≡ ok n)
      × (check_evidence (record v { profile = trim_space v.profile }) ≡ ok tt)
      × (verify_payload_cid h n.cid body ≡ ok tt)
      × (verified_entry now n body (record v { profile = trim_space v.profile }) ≡ e)
unfolding check_verified
check_verified-made h now b body v e r = elim (Result-cases (normalize_binding b)) [
  | inr (_, f) ↦ absurd (cc (rw (f, check_verified) at r))
  | inl (n, f) ↦
      let evidence = record v { profile = trim_space v.profile } in
      elim (Result-cases (check_evidence evidence)) [
        | inr (_, g) ↦ absurd (cc (rw (f, check_verified, g) at r))
        | inl (_, g) ↦ elim (Result-cases (verify_payload_cid h n.cid body)) [
          | inr (_, k) ↦ absurd (cc (rw (f, check_verified, g, k) at r))
          | inl (_, k) ↦ (n, f, g, k, cc (rw (f, check_verified, g, k) at r))
        ]
      ]
]

pub check_local-made :
    ⦃c : CidCodec⦄ (h : Hashes) (now : ℕ) (b : Binding) (body : Bytes) (s : State) (e : Entry)
    → check_local h now b body s ≡ ok e
    → (n : Binding) × (normalize_binding b ≡ ok n)
      × ((s ≡ local_dirty) ⊎ (s ≡ offline_only))
      × (verify_payload_cid h n.cid body ≡ ok tt)
      × (local_entry now n body s ≡ e)
unfolding check_local
check_local-made h now b body s e r = elim (Result-cases (normalize_binding b)) [
  | inr (_, f) ↦ absurd (cc (rw (f, check_local) at r))
  | inl (n, f) ↦ elim (Bool-cases (not (s == local_dirty) && not (s == offline_only))) [
    | inl g ↦ absurd (cc (rw (f, check_local, g) at r))
    | inr g ↦ elim (Result-cases (verify_payload_cid h n.cid body)) [
      | inr (_, k) ↦ absurd (cc (rw (f, check_local, g, k) at r))
      | inl (_, k) ↦ (n, f, ground (arith, g), k, cc (rw (f, check_local, g, k) at r))
    ]
  ]
]
