-- ===== src/Journal/Loading/Records.antt =====
-- The loop of reloadLocked over the operations.
use mathlib.Core.Path.{subst}
use malt.Base.{
  ℕ, ◌<◌, ◌≡◌, ◌≢◌, sym, true, false, none, some, [], ◌∷◌, List, Text, Text-discrete, text_eq,
  nat_eq, ok, >>=-eq-ok, Map, lookup, present, Distinct, arith,
}
use malt.Base.Cids.{CidCodec}
use malt.Journal.Types.{Operation, State}
use malt.Journal.Normalize.{normalize_operation, member}
use malt.Journal.Load.{seen_sequence, check_persisted, load_operations}
use malt.Journal.Loading.Apart.{Apart}

module _ ⦃cids : CidCodec⦄ where
  -- What the loop has checked of one record.
  pub record Fits (s : State) (id : Text) (o : Operation) : Type 0 where
    pub normal : (raw : Operation) × (normalize_operation raw ≡ ok o)
    pub key : o.operation_id ≡ id
    pub positive : 0 < o.sequence
    pub below : o.sequence < s.next_sequence
    pub used_id : present (lookup o.operation_id s.used_operation_ids) ≡ true
    pub used_retry : present (lookup o.retry_id s.used_retry_ids) ≡ true

  -- What it has checked of all, given the sequences and retry identities seen before.
  abbrev pub Checked : State → List ℕ → List Text → Map Operation → Type 0
  Checked s sequences retries [] = Unit {0}
  Checked s sequences retries ((id, o) ∷ m) =
      Fits s id o
      × (seen_sequence o.sequence sequences ≡ false)
      × (member o.retry_id retries ≡ false)
      × Checked s (o.sequence ∷ sequences) (o.retry_id ∷ retries) m

  persisted-facts :
      (s : State) (sequences : List ℕ) (retries : List Text) (id : Text) (o : Operation)
      → check_persisted s sequences retries id o ≡ ok tt
      → (o.operation_id ≡ id)
        × (0 < o.sequence)
        × (o.sequence < s.next_sequence)
        × (present (lookup o.operation_id s.used_operation_ids) ≡ true)
        × (present (lookup o.retry_id s.used_retry_ids) ≡ true)
        × (seen_sequence o.sequence sequences ≡ false)
        × (member o.retry_id retries ≡ false)
  unfolding check_persisted
  persisted-facts s sequences retries id o h = ground arith

  pub load-Checked :
      (s : State) (sequences : List ℕ) (retries : List Text) (raw m : Map Operation)
      → load_operations s sequences retries raw ≡ ok m
      → Checked s sequences retries m
  unfolding load_operations
  load-Checked s sequences retries [] m h =
      let same : [] ≡ m = ground arith in subst (Checked s sequences retries) same tt
  load-Checked s sequences retries ((id, r) ∷ rest) m h =
      let (o, n, h1) = >>=-eq-ok (normalize_operation r) _ h in
      let (_, c, h2) = >>=-eq-ok (check_persisted s sequences retries id o) _ h1 in
      let (loaded, l, h3) =
        >>=-eq-ok (load_operations s (o.sequence ∷ sequences) (o.retry_id ∷ retries) rest) _ h2 in
      let same : (id, o) ∷ loaded ≡ m = ground arith in
      let f = persisted-facts s sequences retries id o (ground arith) in
      subst (Checked s sequences retries) same (
        record {
          normal = (r, n);
          key = f.0;
          positive = f.1;
          below = f.2;
          used_id = f.3;
          used_retry = f.4;
        },
        f.5,
        f.6,
        load-Checked s (o.sequence ∷ sequences) (o.retry_id ∷ retries) rest loaded l,
      )

  pub load-absent :
      (s : State) (sequences : List ℕ) (retries : List Text) (raw m : Map Operation) (k : Text)
      → load_operations s sequences retries raw ≡ ok m
      → lookup k raw ≡ none
      → lookup k m ≡ none
  unfolding load_operations lookup
  load-absent s sequences retries [] m k h a = ground arith
  load-absent s sequences retries ((id, r) ∷ rest) m k h a =
      let (o, n, h1) = >>=-eq-ok (normalize_operation r) _ h in
      let (_, c, h2) = >>=-eq-ok (check_persisted s sequences retries id o) _ h1 in
      let (loaded, l, h3) =
        >>=-eq-ok (load_operations s (o.sequence ∷ sequences) (o.retry_id ∷ retries) rest) _ h2 in
      ground (arith, load-absent s (o.sequence ∷ sequences) (o.retry_id ∷ retries) rest loaded k l)

  pub load-Distinct :
      (s : State) (sequences : List ℕ) (retries : List Text) (raw m : Map Operation)
      → load_operations s sequences retries raw ≡ ok m
      → Distinct raw
      → Distinct m
  unfolding load_operations
  load-Distinct s sequences retries [] m h d =
      let same : [] ≡ m = ground arith in subst Distinct same tt
  load-Distinct s sequences retries ((id, r) ∷ rest) m h d =
      let (o, n, h1) = >>=-eq-ok (normalize_operation r) _ h in
      let (_, c, h2) = >>=-eq-ok (check_persisted s sequences retries id o) _ h1 in
      let (loaded, l, h3) =
        >>=-eq-ok (load_operations s (o.sequence ∷ sequences) (o.retry_id ∷ retries) rest) _ h2 in
      let same : (id, o) ∷ loaded ≡ m = ground arith in
      let sequences' = o.sequence ∷ sequences in
      let retries' = o.retry_id ∷ retries in
      subst Distinct same (
        load-absent s sequences' retries' rest loaded id l d.0,
        load-Distinct s sequences' retries' rest loaded l d.1,
      )

  pub Checked-at :
      (s : State) (sequences : List ℕ) (retries : List Text) (m : Map Operation)
      → Checked s sequences retries m
      → (j : Text) (p : Operation) → lookup j m ≡ some p
      → Fits s j p
        × (seen_sequence p.sequence sequences ≡ false)
        × (member p.retry_id retries ≡ false)
  unfolding lookup seen_sequence member
  Checked-at s sequences retries [] c j p h = absurd (cc)
  Checked-at s sequences retries ((id, o) ∷ m) c j p h = elim (Text-discrete id j) [
    | yes e ↦
        let same : o ≡ p = ground arith in
        (
          subst (Fits s j) same (subst (λ i. Fits s i o) e c.0),
          subst (λ q. seen_sequence q.sequence sequences ≡ false) same c.1,
          subst (λ q. member q.retry_id retries ≡ false) same c.2,
        )
    | no e ↦
        let (fits, seen, used) =
          Checked-at s (o.sequence ∷ sequences) (o.retry_id ∷ retries) m c.3 j p (ground arith) in
        (fits, ground arith, ground arith)
  ]

  pub Checked-sequences :
      (s : State) (sequences : List ℕ) (retries : List Text) (m : Map Operation)
      → Checked s sequences retries m
      → Apart (λ o p. o.sequence ≡ p.sequence) m
  unfolding seen_sequence
  Checked-sequences s sequences retries [] c = tt
  Checked-sequences s sequences retries ((id, o) ∷ m) c = (
    λ j p h.
        let at = Checked-at s (o.sequence ∷ sequences) (o.retry_id ∷ retries) m c.3 j p h in
        let differ : o.sequence ≢ p.sequence = λ e. ground (arith, at.1) in
        (differ, λ e. differ (sym e)),
    Checked-sequences s (o.sequence ∷ sequences) (o.retry_id ∷ retries) m c.3,
  )

  pub Checked-retries :
      (s : State) (sequences : List ℕ) (retries : List Text) (m : Map Operation)
      → Checked s sequences retries m
      → Apart (λ o p. o.retry_id ≡ p.retry_id) m
  unfolding member
  Checked-retries s sequences retries [] c = tt
  Checked-retries s sequences retries ((id, o) ∷ m) c = (
    λ j p h.
        let at = Checked-at s (o.sequence ∷ sequences) (o.retry_id ∷ retries) m c.3 j p h in
        let differ : o.retry_id ≢ p.retry_id = λ e. ground (arith, at.2) in
        (differ, λ e. differ (sym e)),
    Checked-retries s (o.sequence ∷ sequences) (o.retry_id ∷ retries) m c.3,
  )
