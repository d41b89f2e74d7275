-- ===== src/Bucket/Revisions.antt =====
-- monotonicHead of bucketsync/service.go: heads are ordered by their revision.
use malt.Base.{◌≤◌, ◌≡◌, ◌≢◌, ◌⊎◌, inl, inr, refl, ◌==◌, ==_iff, ltb, Bool-cases, ok, err, arith}
use malt.Bucket.Types.{Head, head_eq, conflicting_revisions}
use malt.Bucket.Load.{monotonic_head}

-- What the join of two heads promises. At one revision they are the same head.
pub record IsJoin (a b h : Head) : Type 0 where
  pub chosen : (h ≡ a) ⊎ (h ≡ b)
  pub above : (a.revision ≤ h.revision) × (b.revision ≤ h.revision)
  pub agreed : a.revision ≡ b.revision → a ≡ b

-- Two heads conflict if one revision names both and they differ.
pub record Conflicting (a b : Head) : Type 0 where
  pub level : a.revision ≡ b.revision
  pub differ : a ≢ b

-- Two heads whose revisions differ, or that are the same, have a join, one of the two that is
-- not older than either, and the function returns it; two different heads at one revision
-- conflict, and the function refuses.
pub monotonic_head-IsJoin :
    (a b : Head)
    → ((h : Head) × (monotonic_head a b ≡ ok h) × IsJoin a b h)
      ⊎ ((monotonic_head a b ≡ err conflicting_revisions) × Conflicting a b)
unfolding monotonic_head
monotonic_head-IsJoin a b = elim (Bool-cases (ltb b.revision a.revision)) [
  | inl e ↦ inl (
    a,
    rw e refl,
    record {
      chosen = inl refl;
      above = (omega arith, ground (arith, e));
      agreed = λ k. absurd (ground (arith, e, k));
    },
  )
  | inr e ↦ elim (Bool-cases (ltb a.revision b.revision)) [
    | inl l ↦ inl (
      b,
      rw (e, l) refl,
      record {
        chosen = inr refl;
        above = (ground (arith, l), omega arith);
        agreed = λ k. absurd (ground (arith, l, k));
      },
    )
    | inr l ↦
        let level : a.revision ≡ b.revision = ground (arith, e, l) in
        elim (Bool-cases (a == b)) [
          | inl same ↦ inl (
            a,
            rw (e, l, same) refl,
            record {
              chosen = inl refl;
              above = (omega arith, omega (arith, level));
              agreed = λ k. (==_iff a b).0 same;
            },
          )
          | inr other ↦ inr (
            rw (e, l, other) refl,
            record { level = level; differ = λ s. ground (arith, other, s) },
          )
        ]
  ]
]
