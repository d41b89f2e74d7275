-- ===== src/Journal/Canonical/Rewound.antt =====
-- The times of a record: a transition stores time.Now(), and a file whose record was updated before it
-- was created is refused by reloadLocked.
use mathlib.Core.Path.{subst}
use malt.Base.{
  ◌⊎◌, inl, inr, ℕ, ◌<◌, ◌≡◌, ◌≢◌, ap, ◌∙◌, sym, Bool-cases, some, [], ◌∷◌, List, Text, text_eq,
  ◌==◌, ok, >>=-eq-ok, arith, Map, lookup, lookup-insert_self,
}
use malt.Base.Cids.{CidCodec}
use malt.Journal.Types.{Status, Operation, State}
use malt.Journal.Normalize.{normalize_operation, normalize_intent}
use malt.Journal.Load.{load_operations, check_persisted, load, save}
use malt.Journal.Store.Locked.{change_status, put_operation, transition_locked}
use malt.Journal.Invariant.Transitions.{transition-Made}
use malt.Journal.Loading.State.{load-state}

module _ ⦃cids : CidCodec⦄ where
  normalize-rewound : (o p : Operation) → o.updated_at < o.created_at → normalize_operation o ≢ ok p
  unfolding normalize_operation
  normalize-rewound o p l h =
      let (i, _, h1) = >>=-eq-ok (normalize_intent o.intent) _ h in absurd (ground (arith, h1))

  load_operations-rewound :
      (s : State) (sequences : List ℕ) (retries : List Text) (m : Map Operation) (id : Text)
      (o : Operation) (loaded : Map Operation)
      → lookup id m ≡ some o
      → o.updated_at < o.created_at
      → load_operations s sequences retries m ≢ ok loaded
  unfolding load_operations lookup
  load_operations-rewound s sequences retries [] id o loaded f l h = cc
  load_operations-rewound s sequences retries ((j, p) ∷ m) id o loaded f l h =
      let (q, n, h1) = >>=-eq-ok (normalize_operation p) _ h in
      let (_, _, h2) = >>=-eq-ok (check_persisted s sequences retries j q) _ h1 in
      let (rest, r, _) =
        >>=-eq-ok (load_operations s (q.sequence ∷ sequences) (q.retry_id ∷ retries) m) _ h2 in
      elim (Bool-cases (j == id)) [
        | inl e ↦
            let k = rw e at f in
            let same : p ≡ o = cc (k) in
            normalize-rewound p q (subst (λ x. x.updated_at < x.created_at) (sym same) l) n
        | inr e ↦
            load_operations-rewound s (q.sequence ∷ sequences) (q.retry_id ∷ retries) m id o rest
              (rw e at f) l r
      ]

  -- A transition whose clock reads an earlier time than the one at which the record was created
  -- changes nothing, or leads to a state whose file does not load.
  pub transition_locked-rewound :
      (now : ℕ) (id : Text) (next : Status) (c root : Text) (s t : State) (done : Operation)
      → transition_locked now id next c root s ≡ ok (done, t)
      → now < done.created_at
      → (t ≡ s) ⊎ ((u : State) → load (save t) ≢ ok u)
  unfolding change_status put_operation save
  transition_locked-rewound now id next c root s t done h l =
      let (o, found, made) = transition-Made now id next c root s done t h in
      elim made [
        | inl (same, _) ↦ inl same
        | inr (_, changed, put) ↦ inr λ u k.
            let (raw, e, loaded) = load-state (save t) u k in
            let late : done.updated_at ≡ now = ap (λ x. x.updated_at) changed in
            let there : lookup id t.operations ≡ some done =
              ap (λ x. lookup id x.operations) put ∙ lookup-insert_self id done s.operations in
            load_operations-rewound raw [] [] raw.operations id done u.operations
              (subst (λ m. lookup id m ≡ some done) (ops e) there) (omega (arith, late))
              loaded.records
      ]
    where
      ops : {m n : Map Operation} → some m ≡ some n → m ≡ n
      ops e = cc
