-- ===== src/Base/Maps.antt =====
-- `std::map` as an association list. The program looks keys up and never walks over a map.
use mathlib.Core.Path.{◌≡◌, refl}
use mathlib.Core.Logic.{inl, inr}
use mathlib.Core.List.{List, [], ◌∷◌}
use mathlib.Core.Option.{Option, none, some}
use native.Mathlib.Omega.{arith}
use firehose.Base.Tests.{Comparable, ◌==◌, if◌then◌else◌, Bool-cases}

pub record Map {ℓ κ} (K : Type ℓ) (V : Type κ) : Type (ℓ ⊔ κ) where
  pub entries : List (K × V)

module _ {ℓ κ} {K : Type ℓ} {V : Type κ} where
  unfoldable pub empty : Map K V
  empty = record { entries = [] }

module _ {ℓ κ} {K : Type ℓ} {V : Type κ} ⦃e : Comparable K⦄ where
  unfoldable pub find_in : K → List (K × V) → Option V
  find_in k [] = none
  find_in k ((j, v) ∷ m) = if j == k then some v else find_in k m

  unfoldable pub drop_from : K → List (K × V) → List (K × V)
  drop_from k [] = []
  drop_from k ((j, v) ∷ m) = let rest = drop_from k m in if j == k then rest else (j, v) ∷ rest

  -- m.find(k)
  unfoldable pub get : Map K V → K → Option V
  unfolding find_in
  get m k = find_in k m.entries

  -- m.erase(m.find(k))
  unfoldable pub erase : Map K V → K → Map K V
  unfolding drop_from
  erase m k = record { entries = drop_from k m.entries }

  -- m[k] = v
  unfoldable pub put : Map K V → K → V → Map K V
  unfolding drop_from
  put m k v = record { entries = (k, v) ∷ drop_from k m.entries }

  find_in-drop_from :
      (k j : K) (m : List (K × V))
      → find_in j (drop_from k m) ≡ (if k == j then none else find_in j m)
  unfolding find_in drop_from
  find_in-drop_from k j [] = ground arith
  find_in-drop_from k j ((i, v) ∷ m) =
      ground (arith, find_in-drop_from k j m, e.same_iff i k, e.same_iff i j, e.same_iff k j)

  pub get-erase : (m : Map K V) (k j : K) → get (erase m k) j ≡ (if k == j then none else get m j)
  unfolding get erase
  get-erase m k j = find_in-drop_from k j m.entries

  pub get-put :
      (m : Map K V) (k j : K) (v : V) → get (put m k v) j ≡ (if k == j then some v else get m j)
  unfolding get put
  get-put m k j v = elim (Bool-cases (k == j)) [
    | inl same ↦ rw (same, find_in)
    | inr other ↦ rw (other, find_in) (rw (find_in-drop_from k j m.entries, other))
  ]

pub get-empty {ℓ κ} :
    {K : Type ℓ} {V : Type κ} ⦃e : Comparable K⦄ (k : K) → get (empty {K = K} {V = V}) k ≡ none
unfolding get empty
get-empty k = refl

module _ {ℓ κ} {K : Type ℓ} {V : Type κ} ⦃e : Comparable K⦄ where
  -- The value that `m[k]` reads; a key that is not there is first given the value `d`.
  unfoldable pub get_or : Map K V → K → V → V
  get_or m k d = elim (get m k) [ none ↦ d | some v ↦ v ]

  pub get_or-none : (m : Map K V) (k : K) (d : V) → get m k ≡ none → get_or m k d ≡ d
  unfolding get_or
  get_or-none m k d h = rw (h, get_or)

  pub get_or-put :
      (m : Map K V) (k j : K) (v d : V)
      → get_or (put m k v) j d ≡ (if k == j then v else get_or m j d)
  unfolding get_or
  get_or-put m k j v d = ground (arith, get-put m k j v)

  pub get_or-erase :
      (m : Map K V) (k j : K) (d : V)
      → get_or (erase m k) j d ≡ (if k == j then d else get_or m j d)
  unfolding get_or
  get_or-erase m k j d = ground (arith, get-erase m k j)

pub get_or-empty {ℓ κ} :
    {K : Type ℓ} {V : Type κ} ⦃e : Comparable K⦄ (k : K) (d : V)
    → get_or (empty {K = K} {V = V}) k d ≡ d
unfolding get_or get empty
get_or-empty k d = refl

pub ruleset map_laws = (get-put, get-erase, get-empty, get_or-put, get_or-erase, get_or-empty)
