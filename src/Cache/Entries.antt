-- ===== src/Cache/Entries.antt =====
-- What the entries of a file that loads satisfy, and what a changed entry needs to be loaded again.
use mathlib.Core.Path.{subst}
use malt.Base.{
  ◌≡◌, refl, inl, inr, arith, Bool, false, not, ◌&&◌, ◌||◌, Option, none, some, [], ◌∷◌, All, Text,
  text_eq, nat_eq, ◌==◌, ==_iff, ==_refl, Bool-cases, Option-cases, ok, Result-cases, Map, lookup,
  insert, delete, trim_space,
}
use malt.Base.Trim.{trim_space_idem}
use malt.Base.Cids.{CidCodec}
use malt.Cache.Types.{pos, int_eq, state_eq, Binding, Entry, Metadata, Outcome, Hashes}
use malt.Cache.Disk.{
  bad_name, normalize_binding, normalize_entry, check_state, valid_state, negative, binding_id,
  load_entry, load_entries, load, save,
}

pub ok_inj : {A : Type 0} {a b : A} → Path (Outcome A) (ok a) (ok b) → a ≡ b
ok_inj h = cc

some_inj : {A : Type 0} {a b : A} → some a ≡ some b → a ≡ b
some_inj h = cc

-- The checks of an entry, beside those of its binding.
abbrev pub refused : Entry → Bool
refused e =
    (not (valid_state e.state) || (e.updated_at == 0 || negative e.size))
    || ((not e.body_present && not (e.size == pos 0)) || not (check_state e))

module _ ⦃c : CidCodec⦄ where
  -- What a normalized binding satisfies.
  pub record IsNormal (b : Binding) : Type 0 where
    pub dataset_trimmed : trim_space b.dataset_id ≡ b.dataset_id
    pub branch_trimmed : trim_space b.branch ≡ b.branch
    pub named : (bad_name b.dataset_id || bad_name b.branch) ≡ false
    pub root_parsed : c.parse b.root ≡ some b.root
    pub cid_parsed : c.parse b.cid ≡ some b.cid
    pub defined : (b.root == [] || b.cid == []) ≡ false

  normal_again : (b : Binding) → IsNormal b → normalize_binding b ≡ ok b
  unfolding normalize_binding
  normal_again b n =
      rw (n.dataset_trimmed, n.branch_trimmed, n.named, n.defined, n.root_parsed, n.cid_parsed) refl

  nonempty : (t u : Text) → c.parse t ≡ some u → (u == []) ≡ false
  nonempty t u h = elim (Bool-cases (u == [])) [
    | inl e ↦ absurd (c.parse_nonempty t u h ((==_iff u []).0 e))
    | inr e ↦ e
  ]

  pub normalize_binding-IsNormal : (b n : Binding) → normalize_binding b ≡ ok n → IsNormal n
  unfolding normalize_binding
  normalize_binding-IsNormal b n h =
      let names = bad_name (trim_space b.dataset_id) || bad_name (trim_space b.branch) in
      elim (Bool-cases names) [
        | inl e ↦ absurd (ground (arith, e))
        | inr e ↦ elim (Bool-cases (b.root == [] || b.cid == [])) [
          | inl f ↦ absurd (ground (arith, e, f))
          | inr f ↦ elim (Option-cases (c.parse b.root)) [
            | inl g ↦ absurd (cc (rw (e, f, g) at h))
            | inr (root, g) ↦ elim (Option-cases (c.parse b.cid)) [
              | inl k ↦ absurd (cc (rw (e, f, g, k) at h))
              | inr (payload, k) ↦ made root payload e f g k
            ]
          ]
        ]
      ]
    where
      made :
          (root payload : Text)
          → (bad_name (trim_space b.dataset_id) || bad_name (trim_space b.branch)) ≡ false
          → (b.root == [] || b.cid == []) ≡ false
          → c.parse b.root ≡ some root
          → c.parse b.cid ≡ some payload
          → IsNormal n
      made root payload e f g k =
          let normal : Binding = record b {
            dataset_id = trim_space b.dataset_id;
            branch = trim_space b.branch;
            root = root;
            cid = payload;
          } in
          let same : normal ≡ n = cc (rw (e, f, g, k) at h) in
          subst IsNormal same (record {
            dataset_trimmed = trim_space_idem b.dataset_id;
            branch_trimmed = trim_space_idem b.branch;
            named = e;
            root_parsed = c.parse_again b.root root g;
            cid_parsed = c.parse_again b.cid payload k;
            defined = rw (nonempty b.root root g, nonempty b.cid payload k) refl;
          })

  -- Normalizing twice is normalizing once.
  pub normalize_binding_idem :
      (b n : Binding) → normalize_binding b ≡ ok n → normalize_binding n ≡ ok n
  normalize_binding_idem b n h = normal_again n (normalize_binding-IsNormal b n h)

  pub accepted :
      (e : Entry)
      → normalize_binding e.binding ≡ ok e.binding
      → refused e ≡ false
      → normalize_entry e ≡ ok e
  unfolding normalize_entry
  accepted e h r = rw h (ground (arith, r))

  pub record IsAccepted (h : Hashes) (id : Text) (e : Entry) : Type 0 where
    pub normal : normalize_binding e.binding ≡ ok e.binding
    pub passed : refused e ≡ false
    pub same_id : binding_id h e.binding ≡ id

  load_entry-IsAccepted :
      (h : Hashes) (id : Text) (e n : Entry) → load_entry h id e ≡ ok n → IsAccepted h id n
  unfolding load_entry normalize_entry
  load_entry-IsAccepted h id e n l = elim (Result-cases (normalize_binding e.binding)) [
    | inr (_, f) ↦ absurd (cc (rw f at l))
    | inl (b, f) ↦ elim (Bool-cases (refused e)) [
      | inl r ↦ absurd (ground (arith, f, r))
      | inr r ↦ elim (Bool-cases (binding_id h b == id)) [
        | inl s ↦
            let same : record e { binding = b } ≡ n = ground (arith, f, r, s) in
            subst (IsAccepted h id) same (record {
              normal = normalize_binding_idem e.binding b f;
              passed = r;
              same_id = (==_iff _ _).0 s;
            })
        | inr s ↦ absurd (ground (arith, f, r, s))
      ]
    ]
  ]

  load_entry-same :
      (h : Hashes) (id : Text) (e : Entry) → IsAccepted h id e → load_entry h id e ≡ ok e
  unfolding load_entry
  load_entry-same h id e i = rw (accepted e i.normal i.passed, i.same_id, ==_refl) refl

  -- The entries of a file that loads.
  abbrev pub AllAccepted : Hashes → Map Entry → Type 0
  AllAccepted h = All (λ p. IsAccepted h p.0 p.1)

  load_entries-AllAccepted :
      (h : Hashes) (m : Map Entry) (entries : Map Entry)
      → load_entries h m ≡ ok entries
      → AllAccepted h entries
  unfolding load_entries
  load_entries-AllAccepted h [] entries l = subst (AllAccepted h) (ok_inj l) tt
  load_entries-AllAccepted h ((id, e) ∷ m) entries l = elim (Result-cases (load_entry h id e)) [
    | inr (_, f) ↦ absurd (cc (rw f at l))
    | inl (n, f) ↦ elim (Result-cases (load_entries h m)) [
      | inr (_, g) ↦ absurd (cc (rw (f, g) at l))
      | inl (rest, g) ↦
          subst (AllAccepted h) (ok_inj (rw (f, g) at l))
            (load_entry-IsAccepted h id e n f, load_entries-AllAccepted h m rest g)
    ]
  ]

  pub load-AllAccepted :
      (h : Hashes) (m : Option Metadata) (entries : Map Entry)
      → load h m ≡ ok entries
      → AllAccepted h entries
  unfolding load
  load-AllAccepted h none entries l = subst (AllAccepted h) (ok_inj l) tt
  load-AllAccepted h (some next) entries l = elim (Bool-cases (next.version == 1)) [
    | inr v ↦ absurd (cc (rw v at l))
    | inl v ↦ elim (Option-cases next.entries) [
      | inl o ↦ absurd (cc (rw (v, o) at l))
      | inr (m, o) ↦ load_entries-AllAccepted h m entries (rw (v, o) at l)
    ]
  ]

  load_entries-same :
      (h : Hashes) (entries : Map Entry)
      → AllAccepted h entries
      → load_entries h entries ≡ ok entries
  unfolding load_entries
  load_entries-same h [] a = refl
  load_entries-same h ((id, e) ∷ rest) a =
      rw (load_entry-same h id e a.0, load_entries-same h rest a.1) refl

  -- What is saved of accepted entries loads as they are.
  pub load-save :
      (h : Hashes) (entries : Map Entry)
      → AllAccepted h entries
      → load h (some (save entries)) ≡ ok entries
  unfolding load save
  load-save h entries a = rw (==_refl, load_entries-same h entries a) refl

  pub AllAccepted-insert :
      (h : Hashes) (id : Text) (e : Entry) (m : Map Entry)
      → AllAccepted h m
      → IsAccepted h id e
      → AllAccepted h (insert id e m)
  unfolding insert
  AllAccepted-insert h id e [] a i = (i, tt)
  AllAccepted-insert h id e ((other, x) ∷ m) a i = elim (Bool-cases (other == id)) [
    | inl s ↦ rw s (i, a.1)
    | inr s ↦ rw s (a.0, AllAccepted-insert h id e m a.1 i)
  ]

  pub AllAccepted-delete :
      (h : Hashes) (id : Text) (m : Map Entry) → AllAccepted h m → AllAccepted h (delete id m)
  unfolding delete
  AllAccepted-delete h id [] a = tt
  AllAccepted-delete h id ((other, x) ∷ m) a = elim (Bool-cases (other == id)) [
    | inl s ↦ rw s (AllAccepted-delete h id m a.1)
    | inr s ↦ rw s (a.0, AllAccepted-delete h id m a.1)
  ]

  pub lookup-IsAccepted :
      (h : Hashes) (id : Text) (e : Entry) (m : Map Entry)
      → AllAccepted h m
      → lookup id m ≡ some e
      → IsAccepted h id e
  unfolding lookup
  lookup-IsAccepted h id e [] a l = absurd (cc l)
  lookup-IsAccepted h id e ((other, x) ∷ m) a l = elim (Bool-cases (other == id)) [
    | inl s ↦
        subst (λ i. IsAccepted h i e) ((==_iff other id).0 s)
          (subst (IsAccepted h other) (some_inj (rw s at l)) a.0)
    | inr s ↦ lookup-IsAccepted h id e m a.1 (rw s at l)
  ]
