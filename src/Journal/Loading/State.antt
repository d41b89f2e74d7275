-- ===== src/Journal/Loading/State.antt =====
-- reloadLocked as a whole.
use malt.Base.{
  ◌≡◌, ◌<◌, refl, none, some, [], Option, Text, text_eq, nat_eq, ◌==◌, ok, >>=-eq-ok, refuse_if,
  or_fail, Map, lookup, Distinct, arith, not,
}
use malt.Base.Cids.{CidCodec}
use malt.Journal.Types.{Operation, State, Document, problem, bad_version, journal_version}
use malt.Journal.Load.{load_operations, load_tombstones, load_replacements, load_state, load}
use malt.Journal.Invariant.{Inv}
use malt.Journal.Loading.Apart.{Apart-same}
use malt.Journal.Loading.Records.{
  Fits, Checked, load-Checked, load-Distinct, Checked-at, Checked-sequences, Checked-retries,
}
use malt.Journal.Loading.Chains.{SameReplacement, Chained, load-Chained, Chained-at, Chained-Apart}

-- What the steps of a load that succeeded have returned.
pub record Loaded ⦃cids : CidCodec⦄ (raw s : State) : Type 0 where
  pub next : s.next_sequence ≡ raw.next_sequence
  pub nonzero : 0 < raw.next_sequence
  pub ids : s.used_operation_ids ≡ raw.used_operation_ids
  pub retries : s.used_retry_ids ≡ raw.used_retry_ids
  pub records : load_operations raw [] [] raw.operations ≡ ok s.operations
  pub valid_ids : load_tombstones raw.used_operation_ids ≡ ok tt
  pub valid_retries : load_tombstones raw.used_retry_ids ≡ ok tt
  pub chains : load_replacements s.operations [] s.operations ≡ ok tt

module _ ⦃cids : CidCodec⦄ where
  pub load_state-Loaded : (raw s : State) → load_state raw ≡ ok s → Loaded raw s
  unfolding load_state
  load_state-Loaded raw s h =
      let (_, a, h1) = >>=-eq-ok (refuse_if (raw.next_sequence == 0) (problem bad_version)) _ h in
      let (m, b, h2) = >>=-eq-ok (load_operations raw [] [] raw.operations) _ h1 in
      let (_, c, h3) = >>=-eq-ok (load_tombstones raw.used_operation_ids) _ h2 in
      let (_, d, h4) = >>=-eq-ok (load_tombstones raw.used_retry_ids) _ h3 in
      let (_, e, h5) = >>=-eq-ok (load_replacements m [] m) _ h4 in
      let same : record raw { operations = m } ≡ s = ground arith in
      rw (← same) (record {
        next = refl;
        nonzero = ground arith;
        ids = refl;
        retries = refl;
        records = b;
        valid_ids = c;
        valid_retries = d;
        chains = e;
      })

  module _ (raw s : State) (l : Loaded raw s) (d : Distinct raw.operations) where
    loaded-Checked : Checked raw [] [] s.operations
    loaded-Checked = load-Checked raw [] [] raw.operations s.operations l.records

    pub loaded-Fits : (id : Text) (o : Operation) → lookup id s.operations ≡ some o → Fits raw id o
    loaded-Fits id o h = (Checked-at raw [] [] s.operations loaded-Checked id o h).0

    loaded-Chained : Chained s.operations [] s.operations
    loaded-Chained = load-Chained s.operations [] s.operations l.chains

    pub Loaded-Inv : Inv s
    Loaded-Inv = record {
      distinct = load-Distinct raw [] [] raw.operations s.operations l.records d;
      positive = rw l.next l.nonzero;
      keyed = λ id o h. (loaded-Fits id o h).key;
      bounded = λ id o h. let f = loaded-Fits id o h in (f.positive, rw l.next f.below);
      used = λ id o h.
          let f = loaded-Fits id o h in (rw (l.ids, ← f.key) f.used_id, rw l.retries f.used_retry);
      sequences_differ =
          Apart-same (λ o p. o.sequence ≡ p.sequence) s.operations
            (Checked-sequences raw [] [] s.operations loaded-Checked);
      retries_differ =
          Apart-same (λ o p. o.retry_id ≡ p.retry_id) s.operations
            (Checked-retries raw [] [] s.operations loaded-Checked);
      replaced = λ id o h e. (Chained-at s.operations [] s.operations loaded-Chained id o h e).0;
      replacements_differ = λ i j o p h k e e' same.
          Apart-same SameReplacement s.operations
            (Chained-Apart s.operations [] s.operations loaded-Chained) i j o p h k (e, e', same);
    }

  -- A decoded JSON object has no key twice.
  abbrev pub Decoded : Option (Map Operation) → Type 0
  Decoded none = Unit {0}
  Decoded (some m) = Distinct m

  pub load-state :
      (d : Document) (s : State)
      → load d ≡ ok s
      → (raw : State) × (d.operations ≡ some raw.operations) × Loaded raw s
  unfolding load
  load-state d s h =
      let (_, a, h1) =
        >>=-eq-ok (refuse_if (not (d.version == journal_version)) (problem bad_version)) _ h in
      let (m, b, h2) = >>=-eq-ok (or_fail d.operations (problem bad_version)) _ h1 in
      let (ids, c, h3) = >>=-eq-ok (or_fail d.used_operation_ids (problem bad_version)) _ h2 in
      let (retries, e, h4) = >>=-eq-ok (or_fail d.used_retry_ids (problem bad_version)) _ h3 in
      (_, ground arith, load_state-Loaded _ s h4)

  -- A decoded file, in which no key stands twice, that loads gives a well-formed state.
  pub load-Inv : (d : Document) (s : State) → Decoded d.operations → load d ≡ ok s → Inv s
  load-Inv d s decoded h =
      let (raw, e, l) = load-state d s h in Loaded-Inv raw s l (rw e at decoded)
