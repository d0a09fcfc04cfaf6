-- ===== src/Shared/Texts.antt =====
-- Equality of texts, which are lists of bytes.
use Prim.Native.Nat.{ℕ}
use mathlib.Core.Path.{◌≡◌, refl, ap₂}
use mathlib.Core.Logic.{inl, inr}
use mathlib.Core.Bool.{Bool, true, false, ◌&&◌}
use mathlib.Core.List.{List, [], ◌∷◌}
use native.Mathlib.Omega.{arith}
use cdnnow_test_golang.Shared.Tests.{◌==◌, ==_iff, Bool-cases}

abbrev pub same_text : List ℕ → List ℕ → Bool
same_text [] [] = true
same_text [] (y ∷ ys) = false
same_text (x ∷ xs) [] = false
same_text (x ∷ xs) (y ∷ ys) = (x == y) && same_text xs ys

pub same_text-eq : (s t : List ℕ) → same_text s t ≡ true → s ≡ t
same_text-eq [] [] h = refl
same_text-eq [] (y ∷ ys) h = cc
same_text-eq (x ∷ xs) [] h = cc
same_text-eq (x ∷ xs) (y ∷ ys) h = elim (Bool-cases (x == y)) [
  | inl b ↦ elim (Bool-cases (same_text xs ys)) [
    | inl c ↦ ap₂ ◌∷◌ ((==_iff x y).0 b) (same_text-eq xs ys c)
    | inr c ↦ absurd (ground arith)
  ]
  | inr b ↦ absurd (ground arith)
]
