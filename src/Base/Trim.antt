-- ===== src/Base/Trim.antt =====
-- strings.TrimSpace leaves a trimmed text as it is.
use Prim.Native.Nat.{ℕ}
use mathlib.Core.Path.{◌≡◌, refl, ap, ◌∙◌}
use mathlib.Core.Logic.{inl, inr}
use mathlib.Core.Bool.{false}
use mathlib.Core.List.{[], ◌∷◌}
use native.Mathlib.Omega.{arith}
use malt.Base.Tests.{Bool-cases}
use malt.Base.Texts.{Text, is_space, trim_left, keep_trimmed, trim_right, trim_space}

trim_right-keep :
    (c : ℕ) (u : Text) → trim_right u ≡ u → trim_right (keep_trimmed c u) ≡ keep_trimmed c u
unfolding trim_right keep_trimmed
trim_right-keep c [] h = elim (Bool-cases (is_space c)) [
  | inl e ↦ ground (arith, e)
  | inr e ↦ ground (arith, e)
]
trim_right-keep c (d ∷ ds) h = ap (keep_trimmed c) h

trim_right_idem : (t : Text) → trim_right (trim_right t) ≡ trim_right t
unfolding trim_right
trim_right_idem [] = refl
trim_right_idem (c ∷ cs) = trim_right-keep c (trim_right cs) (trim_right_idem cs)

trim_left-keep :
    (c : ℕ) (u : Text) → is_space c ≡ false → trim_left (keep_trimmed c u) ≡ keep_trimmed c u
unfolding trim_left keep_trimmed
trim_left-keep c [] e = ground (arith, e)
trim_left-keep c (d ∷ ds) e = ground (arith, e)

-- Trimming the end leaves a start that needs no trimming.
trim_left-trim_right : (t : Text) → trim_left (trim_right (trim_left t)) ≡ trim_right (trim_left t)
unfolding trim_left trim_right
trim_left-trim_right [] = refl
trim_left-trim_right (c ∷ cs) = elim (Bool-cases (is_space c)) [
  | inl e ↦ rw e (trim_left-trim_right cs)
  | inr e ↦ rw e (trim_left-keep c (trim_right cs) e)
]

pub trim_space_idem : (t : Text) → trim_space (trim_space t) ≡ trim_space t
unfolding trim_space
trim_space_idem t = ap trim_right (trim_left-trim_right t) ∙ trim_right_idem (trim_left t)
