-- ===== src/Base/Families.antt =====
-- A predicate of all items of a list, the sum of their weights, and a family that is changed at one
-- number.
use Prim.Native.Nat.{ℕ, ◌+◌}
use mathlib.Core.Path.{◌≡◌, refl}
use mathlib.Core.List.{List, [], ◌∷◌, ◌++◌}
use native.Mathlib.Omega.{arith}
use firehose.Base.Tests.{nat_beq, if◌then◌else◌}

module _ {ℓ κ} {A : Type ℓ} where
  abbrev pub All : (A → Type κ) → List A → Type κ
  All P [] = Unit
  All P (x ∷ xs) = P x × All P xs

  pub All-append : (P : A → Type κ) (xs ys : List A) → All P xs → All P ys → All P (xs ++ ys)
  All-append P [] ys a b = b
  All-append P (x ∷ xs) ys a b = (a.0, All-append P xs ys a.1 b)

  -- The item in the middle, and the items around it.
  pub All-middle :
      (P : A → Type κ) (xs : List A) (x : A) (ys : List A)
      → All P (xs ++ x ∷ ys)
      → P x × All P (xs ++ ys)
  All-middle P [] x ys a = a
  All-middle P (y ∷ xs) x ys a = let (here, rest) = All-middle P xs x ys a.1 in (here, (a.0, rest))

  pub All-mono : (P Q : A → Type κ) (xs : List A) → ((x : A) → P x → Q x) → All P xs → All Q xs
  All-mono P Q [] f a = tt
  All-mono P Q (x ∷ xs) f a = (f x a.0, All-mono P Q xs f a.1)

module _ {ℓ} {A : Type ℓ} (w : A → ℕ) where
  unfoldable pub total : List A → ℕ
  total [] = 0
  total (x ∷ xs) = w x + total xs

  pub total-append : (xs ys : List A) → total (xs ++ ys) ≡ total xs + total ys
  unfolding total
  total-append [] ys = omega arith
  total-append (x ∷ xs) ys = omega (arith, total-append xs ys)

  pub total-middle :
      (xs : List A) (x : A) (ys : List A) → total (xs ++ x ∷ ys) ≡ w x + total (xs ++ ys)
  unfolding total
  total-middle [] x ys = refl
  total-middle (y ∷ xs) x ys = omega (arith, total-middle xs x ys)

-- Equal weights have equal sums.
pub total-ext {ℓ} :
    {A : Type ℓ} (v w : A → ℕ) (xs : List A) → ((x : A) → v x ≡ w x) → total v xs ≡ total w xs
unfolding total
total-ext v w [] h = refl
total-ext v w (x ∷ xs) h = omega (arith, h x, total-ext v w xs h)

abbrev pub update {ℓ} : {A : Type ℓ} → (ℕ → A) → ℕ → A → ℕ → A
update f i a j = if nat_beq i j then a else f j
