-- ===== src/Base/Lists.antt =====
-- `std::vector` as a list: lengths and counts are native numbers.
use Prim.Native.Nat.{ℕ, zero, suc, ◌+◌, ◌≤◌}
use mathlib.Core.Path.{◌≡◌, refl, ap}
use mathlib.Core.Logic.{◌↔◌, ◌⊎◌, inl, inr}
use mathlib.Core.List.{List, [], ◌∷◌, ◌++◌}
use mathlib.Core.Option.{Option, none, some}
use native.Mathlib.Omega.{arith}
use firehose.Base.Tests.{Comparable, ◌==◌, if◌then◌else◌, Option-cases}

module _ {ℓ} {A : Type ℓ} where
  abbrev pub length : List A → ℕ
  length [] = 0
  length (x ∷ xs) = suc (length xs)

  abbrev pub get_elem? : List A → ℕ → Option A
  get_elem? [] i = none
  get_elem? (x ∷ xs) zero = some x
  get_elem? (x ∷ xs) (suc i) = get_elem? xs i

  -- A write out of bounds changes nothing.
  abbrev pub set : List A → ℕ → A → List A
  set [] i v = []
  set (x ∷ xs) zero v = v ∷ xs
  set (x ∷ xs) (suc i) v = x ∷ set xs i v

  -- `push_back`
  abbrev pub push_back : List A → A → List A
  push_back xs x = xs ++ x ∷ []

  abbrev pub replicate : ℕ → A → List A
  replicate zero a = []
  replicate (suc n) a = a ∷ replicate n a

  pub length-append : (xs ys : List A) → length (xs ++ ys) ≡ length xs + length ys
  length-append [] ys = omega arith
  length-append (x ∷ xs) ys = omega (arith, length-append xs ys)

  pub length-push_back : (xs : List A) (x : A) → length (push_back xs x) ≡ length xs + 1
  length-push_back [] x = omega arith
  length-push_back (y ∷ xs) x = omega (arith, length-push_back xs x)

  pub length-replicate : (n : ℕ) (a : A) → length (replicate n a) ≡ n
  length-replicate zero a = refl
  length-replicate (suc n) a = ap suc (length-replicate n a)

  -- One more copy at the end is one more copy in front.
  pub push_back-replicate : (n : ℕ) (a : A) → push_back (replicate n a) a ≡ replicate (suc n) a
  push_back-replicate zero a = refl
  push_back-replicate (suc n) a = ap (◌∷◌ a) (push_back-replicate n a)

  pub List-cases : (xs : List A) → (xs ≡ []) ⊎ ((x : A) × (rest : List A) × (xs ≡ x ∷ rest))
  List-cases [] = inl refl
  List-cases (x ∷ rest) = inr (x, rest, refl)

  pub eq-nil_of_length : (xs : List A) → length xs ≤ 0 → xs ≡ []
  eq-nil_of_length [] h = refl
  eq-nil_of_length (x ∷ xs) h = absurd (omega arith)

module _ {ℓ} {A : Type ℓ} ⦃e : Comparable A⦄ where
  -- How often an item stands in a vector.
  unfoldable pub count : A → List A → ℕ
  count a [] = 0
  count a (x ∷ xs) = (if x == a then 1 else 0) + count a xs

  -- `v.erase(std::find(v.begin(), v.end(), a))`. `none` is the undefined `v.erase(v.end())`.
  unfoldable pub erase_found : A → List A → Option (List A)
  erase_found a [] = none
  erase_found a (x ∷ xs) =
      if x == a then some xs else elim (erase_found a xs) [ none ↦ none | some ys ↦ some (x ∷ ys) ]

  pub count-nil : (a : A) → count a [] ≡ 0
  unfolding count
  count-nil a = refl

  pub count-cons :
      (a x : A) (xs : List A) → count a (x ∷ xs) ≡ (if x == a then 1 else 0) + count a xs
  unfolding count
  count-cons a x xs = refl

  pub count-append : (a : A) (xs ys : List A) → count a (xs ++ ys) ≡ count a xs + count a ys
  unfolding count
  count-append a [] ys = omega arith
  count-append a (x ∷ xs) ys = ground (arith, count-append a xs ys)

  pub count-push_back :
      (a x : A) (xs : List A) → count a (push_back xs x) ≡ count a xs + (if x == a then 1 else 0)
  unfolding count
  count-push_back a x xs = ground (arith, count-append a xs (x ∷ []))

  pub erase_found-cons : (a : A) (xs : List A) → erase_found a (a ∷ xs) ≡ some xs
  unfolding erase_found
  erase_found-cons a xs = ground (arith, e.same_iff a a)

  -- The item is found exactly where it stands in the vector.
  pub erase_found-none : (a : A) (xs : List A) → (erase_found a xs ≡ none) ↔ (count a xs ≡ 0)
  unfolding erase_found count
  erase_found-none a [] = ground arith
  erase_found-none a (x ∷ xs) = ground (arith, erase_found-none a xs)

  -- One occurrence goes, and all else stays.
  pub count-erase_found :
      (a b : A) (xs ys : List A)
      → erase_found a xs ≡ some ys
      → count b ys + (if a == b then 1 else 0) ≡ count b xs
  unfolding erase_found count
  count-erase_found a b [] ys h = cc
  count-erase_found a b (x ∷ xs) ys h = elim (Option-cases (erase_found a xs)) [
    | inl q ↦ ground (arith, e.same_iff x a)
    | inr (zs, q) ↦ ground (arith, e.same_iff x a, count-erase_found a b xs zs)
  ]

  pub length-erase_found :
      (a : A) (xs ys : List A) → erase_found a xs ≡ some ys → length ys + 1 ≡ length xs
  unfolding erase_found
  length-erase_found a [] ys h = cc
  length-erase_found a (x ∷ xs) ys h = elim (Option-cases (erase_found a xs)) [
    | inl q ↦ ground arith
    | inr (zs, q) ↦ ground (arith, length-erase_found a xs zs)
  ]
