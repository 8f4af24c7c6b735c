-- ===== src/Base/Pred.antt =====
-- Predicates on lists, by recursion, so that the tactics read and build them.
use mathlib.Core.Path.{◌≡◌, sym, subst}
use mathlib.Core.Logic.{◌⊎◌, inl, inr}
use mathlib.Core.List.{List, [], ◌∷◌, ◌++◌}
use Prim.Native.Nat.{ℕ}
use mathlib.Core.Bool.{true}
use native.Mathlib.Omega.{arith}
use rmake.Base.Lists.{elem}
use rmake.Base.Tests.{◌==◌, Bool-cases}

module _ {ℓ κ} {A : Type ℓ} where
  abbrev pub All : (A → Type κ) → List A → Type κ
  All P [] = Unit
  All P (x ∷ xs) = P x × All P xs

  pub All-append : (P : A → Type κ) (xs ys : List A) → All P xs → All P ys → All P (xs ++ ys)
  All-append P [] ys hx hy = hy
  All-append P (x ∷ xs) ys hx hy = (hx.0, All-append P xs ys hx.1 hy)

module _ {A : Type 0} where
  -- `x in xs`, as a statement
  abbrev pub In : A → List A → Type 0
  In x [] = ⊥
  In x (y ∷ ys) = (x ≡ y) ⊎ In x ys

  pub All-In {κ} : (P : A → Type κ) (x : A) (xs : List A) → All P xs → In x xs → P x
  All-In P x [] a m = absurd m
  All-In P x (y ∷ ys) a (inl e) = subst P (sym e) a.0
  All-In P x (y ∷ ys) a (inr m) = All-In P x ys a.1 m

module _ {ℓ κ μ} {A : Type ℓ} (P : A → Type κ) (Q : A → Type μ) where
  pub All-weaken : ((x : A) → P x → Q x) → (xs : List A) → All P xs → All Q xs
  All-weaken f [] a = tt
  All-weaken f (x ∷ xs) a = (f x a.0, All-weaken f xs a.1)

-- What holds of every number of a list holds of each that is found in it.
pub All-elem {κ} : (P : ℕ → Type κ) (k : ℕ) (ks : List ℕ) → All P ks → elem k ks ≡ true → P k
All-elem P k [] a h = cc
All-elem P k (j ∷ js) a h = elim (Bool-cases (k == j)) [
  | inl e ↦ subst P (ground (arith, e)) a.0
  | inr e ↦ All-elem P k js a.1 (ground (arith, e))
]
