-- ===== src/Merge/Fingerprints.antt =====
-- The fingerprint of a tree, in application/backup/merge.go: what is summed tells trees apart.
use mathlib.Core.List.{append_assoc}
use malt.Base.{
  ◌≡◌, ◌≢◌, ◌↔◌, refl, sym, ap, ◌∙◌, ℕ, ◌+◌, ◌*◌, ◌%◌, ◌^◌, ◌<◌, zero, suc, arith, List, [], ◌∷◌,
  ◌++◌, length, Text, bytes, map, sort, All, All-sort,
}
use malt.Merge.Trees.{
  TreeNode, Tree, perm, big_endian, merge_field, node_fields, by_path, fields, fingerprint_input,
}

append_inj : (a b x y : List ℕ) → length a ≡ length b → a ++ x ≡ b ++ y → (a ≡ b) × (x ≡ y)
append_inj [] [] x y l h = (refl, h)
append_inj [] (j ∷ b) x y l h = absurd (omega (arith, l))
append_inj (i ∷ a) [] x y l h = absurd (omega (arith, l))
append_inj (i ∷ a) (j ∷ b) x y l h =
    let (same, rest) = append_inj a b x y (omega (arith, l)) cc in (cc same, rest)

-- The number that digits stand for, after those before them.
number : ℕ → List ℕ → ℕ
number before [] = before
number before (digit ∷ digits) = number (before * 256 + digit) digits

number-big_endian8 : (n : ℕ) → n < 2 ^ 64 → number 0 (big_endian 8 n) ≡ n
unfolding number big_endian
number-big_endian8 n h = omega arith

number-big_endian4 : (n : ℕ) → n < 2 ^ 32 → number 0 (big_endian 4 n) ≡ n
unfolding number big_endian
number-big_endian4 n h = omega arith

length-big_endian : (k n : ℕ) → length (big_endian k n) ≡ k
unfolding big_endian
length-big_endian zero n = refl
length-big_endian (suc k) n = omega (arith, length-big_endian k n)

field_inj :
    (a b x y : List ℕ)
    → length a < 2 ^ 64
    → length b < 2 ^ 64
    → merge_field a ++ x ≡ merge_field b ++ y
    → (a ≡ b) × (x ≡ y)
unfolding merge_field
field_inj a b x y ha hb h =
    let n = length a % 2 ^ 64 in
    let m = length b % 2 ^ 64 in
    let joined : big_endian 8 n ++ (a ++ x) ≡ big_endian 8 m ++ (b ++ y) =
      sym (append_assoc (big_endian 8 n) a x) ∙ h ∙ append_assoc (big_endian 8 m) b y in
    let (digits, rest) =
      append_inj (big_endian 8 n) (big_endian 8 m) (a ++ x) (b ++ y)
        (length-big_endian 8 n ∙ sym (length-big_endian 8 m)) joined in
    let same : n ≡ m =
      sym (number-big_endian8 n (omega arith))
      ∙ ap (number 0) digits
      ∙ number-big_endian8 m (omega arith) in
    append_inj a b x y (omega (arith, same, ha, hb)) rest

-- What the fingerprint sees of a node: not the place that it was read from.
abbrev pub view : Text × TreeNode → List ℕ × List ℕ × ℕ × List ℕ × List ℕ
view (path, node) = (bytes path, bytes node.kind, perm node, bytes node.digest, bytes node.link)

-- Strings that Go can hold.
abbrev pub IsShort : Text × TreeNode → Type 0
IsShort (path, node) =
    (length (bytes path) < 2 ^ 64)
    × (length (bytes node.kind) < 2 ^ 64)
    × (length (bytes node.digest) < 2 ^ 64)
    × (length (bytes node.link) < 2 ^ 64)

node_inj :
    (p q : Text) (a b : TreeNode) (x y : List ℕ)
    → IsShort (p, a)
    → IsShort (q, b)
    → node_fields p a ++ x ≡ node_fields q b ++ y
    → (view (p, a) ≡ view (q, b)) × (x ≡ y)
unfolding node_fields
node_inj p q a b x y (sp, sk, sd, sl) (tp, tk, td, tl) h =
    let rest_a = merge_field (bytes a.digest) ++ (merge_field (bytes a.link) ++ x) in
    let rest_b = merge_field (bytes b.digest) ++ (merge_field (bytes b.link) ++ y) in
    let (path, h1) =
      field_inj (bytes p) (bytes q)
        (merge_field (bytes a.kind) ++ (big_endian 4 (perm a) ++ rest_a))
        (merge_field (bytes b.kind) ++ (big_endian 4 (perm b) ++ rest_b)) sp tp
        (sym (flat p a x) ∙ h ∙ flat q b y) in
    let (kind, h2) =
      field_inj (bytes a.kind) (bytes b.kind) (big_endian 4 (perm a) ++ rest_a)
        (big_endian 4 (perm b) ++ rest_b) sk tk h1 in
    let (mode, h3) =
      append_inj (big_endian 4 (perm a)) (big_endian 4 (perm b)) rest_a rest_b
        (length-big_endian 4 (perm a) ∙ sym (length-big_endian 4 (perm b))) h2 in
    let same_mode : perm a ≡ perm b =
      sym (number-big_endian4 (perm a) (omega arith))
      ∙ ap (number 0) mode
      ∙ number-big_endian4 (perm b) (omega arith) in
    let (digest, h4) = field_inj (bytes a.digest) (bytes b.digest) _ _ sd td h3 in
    let (link, h5) = field_inj (bytes a.link) (bytes b.link) x y sl tl h4 in
    (cc (path, kind, same_mode, digest, link), h5)
  where
    flat :
        (p : Text) (a : TreeNode) (x : List ℕ)
        → node_fields p a ++ x
          ≡ merge_field (bytes p)
            ++ (merge_field (bytes a.kind)
                ++ (big_endian 4 (perm a)
                    ++ (merge_field (bytes a.digest) ++ (merge_field (bytes a.link) ++ x))))
    flat p a x = simp append_assoc

nonempty : (p : Text) (a : TreeNode) (x : List ℕ) → node_fields p a ++ x ≢ []
unfolding node_fields merge_field big_endian
nonempty p a x h = cc

fields_inj :
    (t u : Tree) → All IsShort t → All IsShort u → fields t ≡ fields u → map view t ≡ map view u
unfolding fields
fields_inj [] [] s r h = refl
fields_inj [] ((q, b) ∷ u) s r h = absurd (nonempty q b (fields u) (sym h))
fields_inj ((p, a) ∷ t) [] s r h = absurd (nonempty p a (fields t) h)
fields_inj ((p, a) ∷ t) ((q, b) ∷ u) s r h =
    let (same, rest) = node_inj p q a b (fields t) (fields u) s.0 r.0 h in
    cc (same, fields_inj t u s.1 r.1 rest)

-- Trees whose nodes look the same are summed alike.
fields_of : List (List ℕ × List ℕ × ℕ × List ℕ × List ℕ) → List ℕ
fields_of [] = []
fields_of ((path, kind, mode, digest, link) ∷ rest) =
    (merge_field path
      ++ (merge_field kind ++ (big_endian 4 mode ++ (merge_field digest ++ merge_field link))))
    ++ fields_of rest

fields-view : (t : Tree) → fields t ≡ fields_of (map view t)
unfolding fields fields_of node_fields
fields-view [] = refl
fields-view ((p, a) ∷ t) = ap (λ r. node_fields p a ++ r) (fields-view t)

-- What is summed for the fingerprints of two trees, of strings shorter than 2^64 bytes, is equal
-- exactly if their nodes, sorted by path, agree in the bytes of path, kind, digest and link and
-- in the permissions.
pub fingerprint_input_iff :
    (t u : Tree)
    → All IsShort t
    → All IsShort u
    → (fingerprint_input t ≡ fingerprint_input u)
      ↔ (map view (sort by_path t) ≡ map view (sort by_path u))
unfolding fingerprint_input
fingerprint_input_iff t u s r = (
  fields_inj (sort by_path t) (sort by_path u) (All-sort IsShort by_path t s)
      (All-sort IsShort by_path u r),
  λ h. fields-view (sort by_path t) ∙ ap fields_of h ∙ sym (fields-view (sort by_path u)),
)
