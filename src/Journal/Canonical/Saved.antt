-- ===== src/Journal/Canonical/Saved.antt =====
-- A journal of sound records loads again as it was saved.
use native.Mathlib.Decide.{ℕ_discrete}
use mathlib.Core.Path.{subst}
use malt.Base.{
  inl, inr, ℕ, ◌≡◌, ◌≢◌, sym, refl, true, false, some, none, [], ◌∷◌, List, Text, text_eq, nat_eq,
  ◌==◌, ==_iff, ok, arith, Bool-cases, Map, lookup, Distinct, present,
}
use malt.Base.Cids.{CidCodec}
use malt.Journal.Types.{Status, Operation, State, Document, status_eq}
use malt.Journal.Normalize.{member}
use malt.Journal.Load.{
  seen_sequence, check_persisted, load_operations, load_tombstones, valid_replacement,
  load_replacements, load_state, load, save,
}
use malt.Journal.Invariant.{Inv}
use malt.Journal.Pruning.Loop.{Within, Within-self}
use malt.Journal.Canonical.Operations.{IsSound, normalize-of_IsSound, normalize-IsSound}
use malt.Journal.Loading.State.{Decoded, load-state, Loaded-Inv, loaded-Fits}

module _ ⦃cids : CidCodec⦄ where
  -- A state whose file loads.
  pub record IsLoadable (s : State) : Type 0 where
    pub inv : Inv s
    pub sound : (id : Text) (o : Operation) → lookup id s.operations ≡ some o → IsSound o
    pub ids : load_tombstones s.used_operation_ids ≡ ok tt
    pub retries : load_tombstones s.used_retry_ids ≡ ok tt

  module _ (s : State) (v : IsLoadable s) where
    persisted :
        (sequences : List ℕ) (retries : List Text) (id : Text) (o : Operation)
        → lookup id s.operations ≡ some o
        → seen_sequence o.sequence sequences ≡ false
        → member o.retry_id retries ≡ false
        → check_persisted s sequences retries id o ≡ ok tt
    unfolding check_persisted
    persisted sequences retries id o h q r =
        let key = v.inv.keyed id o h in
        let (id_used, retry_used) = v.inv.used id o h in
        let used : present (lookup o.operation_id s.used_operation_ids) ≡ true =
          subst (λ k. present (lookup k s.used_operation_ids) ≡ true) (sym key) id_used in
        ground (arith, key, used, retry_used, v.inv.bounded id o h, q, r)

    -- What the loop has seen before a record belongs to no record that is left.
    abbrev Unseen : List ℕ → List Text → Map Operation → Type 0
    Unseen sequences retries [] = Unit {0}
    Unseen sequences retries ((id, o) ∷ m) =
        (seen_sequence o.sequence sequences ≡ false)
        × (member o.retry_id retries ≡ false)
        × Unseen sequences retries m

    Unseen-cons :
        (id : Text) (o : Operation) (sequences : List ℕ) (retries : List Text) (m : Map Operation)
        → lookup id s.operations ≡ some o
        → Within s.operations m
        → lookup id m ≡ none
        → Unseen sequences retries m
        → Unseen (o.sequence ∷ sequences) (o.retry_id ∷ retries) m
    unfolding seen_sequence member lookup
    Unseen-cons id o sequences retries [] h w n u = tt
    Unseen-cons id o sequences retries ((j, p) ∷ m) h w n u =
        let other : id ≢ j = λ e. ground (arith, e) in
        let sequence : o.sequence ≢ p.sequence =
          λ e. other (v.inv.sequences_differ id j o p h w.0 e) in
        let retry : o.retry_id ≢ p.retry_id = λ e. other (v.inv.retries_differ id j o p h w.0 e) in
        (
          ground (arith, sequence, u.0),
          ground (arith, retry, u.1),
          Unseen-cons id o sequences retries m h w.1 (ground (arith, other)) u.2,
        )

    operations_load :
        (sequences : List ℕ) (retries : List Text) (m : Map Operation)
        → Within s.operations m
        → Distinct m
        → Unseen sequences retries m
        → load_operations s sequences retries m ≡ ok m
    unfolding load_operations
    operations_load sequences retries [] w d u = refl
    operations_load sequences retries ((id, o) ∷ m) w d u =
        rw
          (
            normalize-of_IsSound o (v.sound id o w.0),
            persisted sequences retries id o w.0 u.0 u.1,
            operations_load (o.sequence ∷ sequences) (o.retry_id ∷ retries) m w.1 d.1
                (Unseen-cons id o sequences retries m w.0 w.1 d.0 u.2),
          )
          refl

    Unseen-nil : (m : Map Operation) → Unseen [] [] m
    unfolding seen_sequence member
    Unseen-nil [] = tt
    Unseen-nil ((id, o) ∷ m) = (refl, refl, Unseen-nil m)

    -- No superseded record that is left names a replacement seen before.
    abbrev Unclaimed : List Text → Map Operation → Type 0
    Unclaimed inbound [] = Unit {0}
    Unclaimed inbound ((id, o) ∷ m) =
        (o.status ≡ Status.superseded → member o.replacement_operation_id inbound ≡ false)
        × Unclaimed inbound m

    Unclaimed-cons :
        (id : Text) (o : Operation) (inbound : List Text) (m : Map Operation)
        → lookup id s.operations ≡ some o
        → o.status ≡ Status.superseded
        → Within s.operations m
        → lookup id m ≡ none
        → Unclaimed inbound m
        → Unclaimed (o.replacement_operation_id ∷ inbound) m
    unfolding member lookup
    Unclaimed-cons id o inbound [] h e w n u = tt
    Unclaimed-cons id o inbound ((j, p) ∷ m) h e w n u =
        let other : id ≢ j = λ e. ground (arith, e) in
        (
          λ e'.
              let differ : o.replacement_operation_id ≢ p.replacement_operation_id =
                λ x. other (v.inv.replacements_differ id j o p h w.0 e e' x) in
              ground (arith, differ, u.0 e'),
          Unclaimed-cons id o inbound m h e w.1 (ground (arith, other)) u.1,
        )

    replacement_valid :
        (id : Text) (o : Operation)
        → lookup id s.operations ≡ some o
        → o.status ≡ Status.superseded
        → valid_replacement o (lookup o.replacement_operation_id s.operations) ≡ true
    unfolding valid_replacement
    replacement_valid id o h e =
        let (r, there, later, dataset, branch) = v.inv.replaced id o h e in
        ground (arith, there, later, dataset, branch)

    replacements_load :
        (inbound : List Text) (m : Map Operation)
        → Within s.operations m
        → Distinct m
        → Unclaimed inbound m
        → load_replacements s.operations inbound m ≡ ok tt
    unfolding load_replacements
    replacements_load inbound [] w d u = refl
    replacements_load inbound ((id, o) ∷ m) w d u =
        elim (Bool-cases (o.status == Status.superseded)) [
          | inl e ↦
              let gone = (==_iff o.status Status.superseded).0 e in
              rw
                (
                  e,
                  replacement_valid id o w.0 gone,
                  u.0 gone,
                  replacements_load (o.replacement_operation_id ∷ inbound) m w.1 d.1
                      (Unclaimed-cons id o inbound m w.0 gone w.1 d.0 u.1),
                )
                refl
          | inr e ↦ rw (e, replacements_load inbound m w.1 d.1 u.1) refl
        ]

    Unclaimed-nil : (m : Map Operation) → Unclaimed [] m
    unfolding member
    Unclaimed-nil [] = tt
    Unclaimed-nil ((id, o) ∷ m) = (λ e. refl, Unclaimed-nil m)

    -- What is saved of a loadable state loads as that state.
    pub load-save : load (save s) ≡ ok s
    unfolding load load_state save ℕ_discrete
    load-save =
        let all = s.operations in
        let self = Within-self all v.inv.distinct in
        rw
          (
            nonzero,
            operations_load [] [] all self v.inv.distinct (Unseen-nil all),
            v.ids,
            v.retries,
            replacements_load [] all self v.inv.distinct (Unclaimed-nil all),
          )
          refl
      where
        nonzero : (s.next_sequence == 0) ≡ false
        nonzero = ground (arith, v.inv.positive)

  -- A file that loads gives a loadable state.
  pub load-IsLoadable :
      (d : Document) (s : State) → Decoded d.operations → load d ≡ ok s → IsLoadable s
  load-IsLoadable d s decoded h =
      let (raw, e, l) = load-state d s h in
      let distinct : Distinct raw.operations = rw e at decoded in
      record {
        inv = Loaded-Inv raw s l distinct;
        sound = λ id o found.
            let (r, n) = (loaded-Fits raw s l distinct id o found).normal in
            normalize-IsSound r o n;
        ids = rw l.ids l.valid_ids;
        retries = rw l.retries l.valid_retries;
      }
