-- ===== src/Cache/Calls/History.antt =====
-- Where verified entries come from, over any sequence of calls of cache/store.go.
use mathlib.Core.Path.{subst}
use malt.Base.{
  ◌≡◌, ◌≢◌, refl, sym, ap, ◌∙◌, inl, inr, ℕ, arith, true, Option, none, some, List, [], ◌∷◌, All,
  Any, here, there, Text, text_eq, ◌==◌, ok, if◌then◌else◌, Map, lookup, delete,
  lookup-insert_cases, lookup-delete, Bool-cases, ==_refl,
}
use malt.Base.Cids.{CidCodec}
use malt.Cache.Types.{
  Bytes, State, verified_clean, state_eq, Binding, VerificationEvidence, Entry, Metadata, Disk, Io,
  Hashes,
}
use malt.Cache.Disk.{binding_id, is_local_body_state, load, save}
use malt.Cache.Store.Locked.{allowed_transition}
use malt.Cache.Store.Methods.{check_verified}
use malt.Cache.Entries.{ok_inj, load-AllAccepted, load-save}
use malt.Cache.Calls.Checks.{check_local-made, allowed_transition-cases}
use malt.Cache.Calls.Accepted.{Change-AllAccepted, perform-loads}
use malt.Cache.Calls.Runs.{perform-Becomes}
use malt.Cache.Calls.{
  Call, putting_verified, Admitted, remote, verified, local, spoilt, transitioned, reconciled,
  Change, resaved, stored, deleted, Becomes, unchanged, changed, stepped, perform,
}

pub record Event : Type 0 where
  pub io : Io
  pub now : ℕ
  pub made : Call

Any-map :
    {A : Type 0} {P Q : A → Type 0} {xs : List A} → ((x : A) → P x → Q x) → Any P xs → Any Q xs
Any-map f (here p) = here (f _ p)
Any-map f (there p) = there (Any-map f p)

save_inj : {a b : Map Entry} → some (save a) ≡ some (save b) → a ≡ b
unfolding save
save_inj h = cc

kept_evidence :
    (next : State) (e : Entry)
    → next ≡ verified_clean
    → (if next == verified_clean then e.verification else none) ≡ e.verification
kept_evidence next e s = rw (s, ==_refl) refl

stays_verified :
    (s next : State) → next ≡ verified_clean → allowed_transition s next ≡ true → s ≡ verified_clean
unfolding is_local_body_state
stays_verified s next v a = elim (allowed_transition-cases s next a) [
  | inl same ↦ same ∙ v
  | inr (inl gone) ↦ absurd (cc (v, gone))
  | inr (inr (_, after)) ↦ absurd (cc (rw v at after))
]

not_local : (s : State) → s ≡ verified_clean → is_local_body_state s ≢ true
unfolding is_local_body_state
not_local s v l = cc (rw v at l)

found_before :
    (id j : Text) (m : Map Entry) (e : Entry)
    → lookup j (delete id m) ≡ some e
    → lookup j m ≡ some e
found_before id j m e f = elim (Bool-cases (id == j)) [
  | inl s ↦ absurd (ground (arith, lookup-delete id j m))
  | inr s ↦ ground (arith, lookup-delete id j m)
]

nothing_found : (id : Text) (e : Entry) → lookup id [] ≢ some e
unfolding lookup
nothing_found id e f = cc f

-- No metadata and no bodies.
abbrev pub fresh : Disk
fresh = record { metadata = none; blobs = []; others = [] }

module _ ⦃c : CidCodec⦄ (h : Hashes) where
  -- A list of calls, the latest first.
  unfoldable pub run : List Event → Disk → Disk
  unfolding perform
  run [] d = d
  run (x ∷ earlier) d = perform h x.io x.now x.made (run earlier d)

  -- The call put this verified entry: it checked its binding, evidence and body.
  pub record IsPutOf (id : Text) (e : Entry) (x : Event) : Type 0 where
    pub binding : Binding
    pub body : Bytes
    pub evidence : VerificationEvidence
    pub put : Entry
    pub called : x.made ≡ putting_verified binding body evidence
    pub checked : check_verified h x.now binding body evidence ≡ ok put
    pub same_id : binding_id h put.binding ≡ id
    pub same_binding : e.binding ≡ put.binding
    pub same_evidence : e.verification ≡ put.verification
    pub same_size : e.size ≡ put.size

  -- A directory that starts as a fresh one can be read after any number of calls.
  pub run-loads_always :
      (events : List Event)
      → All (λ x. x.now ≢ 0) events
      → (entries : Map Entry) × (load h (run events fresh).metadata ≡ ok entries)
  unfolding run load
  run-loads_always [] later = ([], refl)
  run-loads_always (x ∷ earlier) later =
      let (before, l) = run-loads_always earlier later.1 in
      perform-loads h x.now later.0 x.io x.made (run earlier fresh) before l

  module _ (x : Event) (later : x.now ≢ 0) (earlier : List Event) where
    abbrev Put : Text → Entry → Type 0
    Put id e = Any (IsPutOf id e) (x ∷ earlier)

    -- Every verified entry was put.
    abbrev AllPut : Map Entry → Type 0
    AllPut entries =
        (id : Text) (e : Entry) → lookup id entries ≡ some e → e.state ≡ verified_clean → Put id e

    stepped-Put :
        (id : Text) (e : Entry) (next : State)
        → next ≡ verified_clean
        → Put id e
        → Put id (stepped x.now next e)
    stepped-Put id e next s = Any-map (λ y p. record {
      binding = p.binding;
      body = p.body;
      evidence = p.evidence;
      put = p.put;
      called = p.called;
      checked = p.checked;
      same_id = p.same_id;
      same_binding = p.same_binding;
      same_evidence = kept_evidence next e s ∙ p.same_evidence;
      same_size = p.same_size;
    })

    Admitted-Put :
        (made : Call) (entries : Map Entry) (id : Text) (e : Entry)
        → AllPut entries
        → x.made ≡ made
        → Admitted h x.now entries made id e
        → e.state ≡ verified_clean
        → Put id e
    Admitted-Put _ entries _ _ all m (remote b n f) v = absurd cc
    Admitted-Put _ entries _ _ all m (verified b body v e f) s = here (record {
      binding = b;
      body = body;
      evidence = v;
      put = e;
      called = m;
      checked = f;
      same_id = refl;
      same_binding = refl;
      same_evidence = refl;
      same_size = refl;
    })
    Admitted-Put _ entries _ _ all m (local b body s e f) v =
        let (n, normal, allowed, matches, same) = check_local-made h x.now b body s e f in
        absurd (elim allowed [
          | inl d ↦ cc (sym v, ap (λ y. y.state) same, d)
          | inr d ↦ cc (sym v, ap (λ y. y.state) same, d)
        ])
    Admitted-Put _ entries _ _ all m (spoilt made id e f) v = absurd cc
    Admitted-Put _ entries _ _ all m (transitioned b next id e f a) v =
        stepped-Put id e next v (all id e f (stays_verified e.state next v a))
    Admitted-Put _ entries _ _ all m (reconciled b next limit id e f after was held) v =
        absurd (not_local next v after)

    Change-AllPut :
        (made : Call) (entries new : Map Entry) (next : Option Metadata)
        → AllPut entries
        → x.made ≡ made
        → Change h x.now made entries next
        → next ≡ some (save new)
        → AllPut new
    Change-AllPut made entries new _ all m (resaved) s = subst AllPut (save_inj s) all
    Change-AllPut made entries new _ all m (stored id e a) s = subst AllPut (save_inj s) (λ j y f v.
        elim (lookup-insert_cases id j e y entries f) [
          | inl (i, same) ↦
              subst (λ k. Put k y) i
                (subst (Put id) same
                  (Admitted-Put made entries id e all m a (ap (λ z. z.state) same ∙ v)))
          | inr (_, old) ↦ all j y old v
        ])
    Change-AllPut made entries new _ all m (deleted id) s =
        subst AllPut (save_inj s) (λ j y f v. all j y (found_before id j entries y f) v)

    Becomes-AllPut :
        (made : Call) (m last : Option Metadata) (entries after : Map Entry)
        → x.made ≡ made
        → load h m ≡ ok entries
        → AllPut entries
        → Becomes h x.now made m last
        → load h last ≡ ok after
        → AllPut after
    Becomes-AllPut made m _ entries after s l all (unchanged _) k =
        subst AllPut (ok_inj (sym l ∙ k)) all
    Becomes-AllPut made m last entries after s l all (changed _ next _ found f change rest) k =
        let (new, same, accepted) =
          Change-AllAccepted h x.now later made found next (load-AllAccepted h m found f) change in
        let puts =
          Change-AllPut made found new next (subst AllPut (ok_inj (sym l ∙ f)) all) s change same in
        Becomes-AllPut made next last new after s
          (subst (λ n. load h n ≡ ok new) (sym same) (load-save h new accepted)) puts rest k

  -- After any list of calls on an empty cache directory, each at a time that is not zero and
  -- whatever fails in it, every verified entry that the metadata holds under an identity was put
  -- by one of the calls, a PutVerified that checked a binding with that identity, the evidence
  -- and the sum of the body; the entry has the binding, evidence and size of that put.
  pub run-IsPutOf :
      (events : List Event)
      → All (λ x. x.now ≢ 0) events
      → (entries : Map Entry) → load h (run events fresh).metadata ≡ ok entries
      → (id : Text) (e : Entry) → lookup id entries ≡ some e
      → e.state ≡ verified_clean
      → Any (IsPutOf id e) events
  unfolding run load
  run-IsPutOf [] later entries l id e f v =
      absurd (nothing_found id e (subst (λ m. lookup id m ≡ some e) (sym (ok_inj l)) f))
  run-IsPutOf (x ∷ earlier) later entries l id e f v =
      let (before, loads) = run-loads_always earlier later.1 in
      Becomes-AllPut x later.0 earlier x.made (run earlier fresh).metadata _ before entries refl
        loads (λ j y g w. there (run-IsPutOf earlier later.1 before loads j y g w))
        (perform-Becomes h x.now x.io x.made (run earlier fresh)) l id e f v
