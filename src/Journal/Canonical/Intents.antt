-- ===== src/Journal/Canonical/Intents.antt =====
-- normalizeIntent: what it returns it accepts, and returns again.
use mathlib.Core.Path.{subst}
use malt.Base.{
  inl, inr, ◌≡◌, sym, ap, ◌∙◌, refl, true, false, not, some, [], Text, text_eq, ◌==◌, ok, refuse_if,
  or_fail, >>=-eq-ok, trim_space, arith, Option-cases,
}
use malt.Base.Trim.{trim_space_idem}
use malt.Base.Cids.{CidCodec}
use malt.Journal.Types.{Kind, Intent, problem, bad_base_root, bad_kind, rename_with_payload}
use malt.Journal.Normalize.{
  valid_kind, normalize_path, trim_intent, check_identities, normalize_metadata, normalize_intent,
}

module _ ⦃cids : CidCodec⦄ where
  -- An intent that every check of normalizeIntent passes unchanged.
  pub record IsCanonical (i : Intent) : Type 0 where
    pub trimmed : trim_intent i ≡ i
    pub identities : check_identities i ≡ ok tt
    pub root : cids.parse i.base_root ≡ some i.base_root
    pub kind : valid_kind i.kind ≡ true
    pub path : normalize_path i.path ≡ ok i.path
    pub metadata : normalize_metadata i.kind i ≡ ok i

  pub normalize-of_IsCanonical : (i : Intent) → IsCanonical i → normalize_intent i ≡ ok i
  unfolding normalize_intent
  normalize-of_IsCanonical i c = rw (c.trimmed, c.identities, c.root, c.kind, c.path) c.metadata

  -- A path that is accepted is returned as it is.
  pub normalize_path-same : (p q : Text) → normalize_path p ≡ ok q → p ≡ q
  unfolding normalize_path
  normalize_path-same p q h = ground arith

  trim_intent_idem : (i : Intent) → trim_intent (trim_intent i) ≡ trim_intent i
  unfolding trim_intent
  trim_intent_idem i = simp trim_space_idem

  -- What the metadata of a kind leaves of a trimmed intent.
  abbrev Settles : Kind → Intent → Intent → Type 0
  Settles k i j =
      (trim_intent j ≡ j)
      × (normalize_metadata k j ≡ ok j)
      × (j.path ≡ i.path)
      × (j.base_root ≡ i.base_root)
      × (j.kind ≡ i.kind)
      × (check_identities j ≡ check_identities i)

  payload-Settles :
      (i : Intent) (p : Text)
      → cids.parse i.payload_cid ≡ some p
      → i.destination ≡ []
      → trim_intent i ≡ i
      → Settles Kind.write i (record i { payload_cid = p })
  unfolding normalize_metadata trim_intent check_identities
  payload-Settles i p e d t = (
    ap {A = Intent} (λ x. record x { payload_cid = trim_space p }) t
        ∙ ap {B = Intent} (λ q. record i { payload_cid = q })
            (cids.parse_trimmed i.payload_cid p e),
    rw (d, cids.parse_again i.payload_cid p e) (ground (arith, d)),
    refl,
    refl,
    refl,
    refl,
  )

  destination-Settles :
      (i : Intent)
      → normalize_path i.destination ≡ ok i.destination
      → i.payload_cid ≡ []
      → (i.destination == i.path) ≡ false
      → trim_intent i ≡ i
      → Settles Kind.rename i i
  unfolding normalize_metadata
  destination-Settles i e p d t = (t, rw (p, e, d) (ground (arith, p)), refl, refl, refl, refl)

  metadata-Settles :
      (k : Kind) (i j : Intent)
      → valid_kind k ≡ true
      → normalize_metadata k i ≡ ok j
      → trim_intent i ≡ i
      → Settles k i j
  unfolding normalize_metadata valid_kind
  metadata-Settles Kind.write i j v h t = elim (Option-cases (cids.parse i.payload_cid)) [
    | inl e ↦ absurd (ground (arith, e))
    | inr (p, e) ↦
        let same : record i { payload_cid = p } ≡ j = ground (arith, e) in
        subst (Settles Kind.write i) same (payload-Settles i p e (ground arith) t)
  ]
  metadata-Settles Kind.rename i j v h t =
      let (_, p, h1) =
        >>=-eq-ok (refuse_if (not (i.payload_cid == [])) (problem rename_with_payload)) _ h in
      let (d, e, h2) = >>=-eq-ok (normalize_path i.destination) _ h1 in
      let unchanged = normalize_path-same i.destination d e in
      let same : i ≡ j = ground (arith, unchanged) in
      subst (Settles Kind.rename i) same (
        destination-Settles i (e ∙ ap ok (sym unchanged)) (ground arith) (ground (arith, unchanged))
          t)
  metadata-Settles Kind.mkdir i j v h t =
      let same : i ≡ j = ground arith in
      subst (Settles Kind.mkdir i) same (t, h ∙ ap ok (sym same), refl, refl, refl, refl)
  metadata-Settles Kind.unlink i j v h t =
      let same : i ≡ j = ground arith in
      subst (Settles Kind.unlink i) same (t, h ∙ ap ok (sym same), refl, refl, refl, refl)
  metadata-Settles (Kind.unknown x) i j v h t = absurd (cc)

  -- What normalizeIntent returns is canonical.
  pub normalize-IsCanonical : (raw i : Intent) → normalize_intent raw ≡ ok i → IsCanonical i
  unfolding normalize_intent trim_intent check_identities
  normalize-IsCanonical raw i h =
      let trimmed = trim_intent raw in
      let (_, c, h1) = >>=-eq-ok (check_identities trimmed) _ h in
      let (r, e, h2) =
        >>=-eq-ok (or_fail (cids.parse trimmed.base_root) (problem bad_base_root)) _ h1 in
      let (_, k, h3) = >>=-eq-ok (refuse_if (not (valid_kind raw.kind)) (problem bad_kind)) _ h2 in
      let (p, f, h4) = >>=-eq-ok (normalize_path trimmed.path) _ h3 in
      let parsed : cids.parse trimmed.base_root ≡ some r = ground arith in
      let unchanged = normalize_path-same trimmed.path p f in
      let made : Intent = record trimmed { base_root = r; path = p } in
      let still : trim_intent made ≡ made =
        ap {A = Intent} (λ x. record x { base_root = trim_space r; path = trim_space p })
          (trim_intent_idem raw)
        ∙ ap {B = Intent} (λ q. record trimmed { base_root = q; path = trim_space p })
            (cids.parse_trimmed trimmed.base_root r parsed)
        ∙ ap {B = Intent} (λ q. record trimmed { base_root = r; path = q })
            (ap trim_space (sym unchanged) ∙ trim_space_idem raw.path ∙ unchanged) in
      let (t, m, path, root, kind, ids) =
        metadata-Settles raw.kind made i (ground arith) h4 still in
      record {
        trimmed = t;
        identities = ids ∙ c;
        root =
            subst (λ q. cids.parse q ≡ some q) (sym root)
              (cids.parse_again trimmed.base_root r parsed);
        kind = ap valid_kind kind ∙ ground (arith, k);
        path =
            subst (λ q. normalize_path q ≡ ok q) (unchanged ∙ sym path) (f ∙ ap ok (sym unchanged));
        metadata = subst (λ x. normalize_metadata x i ≡ ok i) (sym kind) m;
      }

  -- An intent that normalization returned normalizes to itself.
  pub normalize_intent_idem :
      (raw i : Intent) → normalize_intent raw ≡ ok i → normalize_intent i ≡ ok i
  normalize_intent_idem raw i h = normalize-of_IsCanonical i (normalize-IsCanonical raw i h)
