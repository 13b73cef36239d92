-- ===== src/Programs/Addresses.antt =====
-- The address lists of the command line.
use firehose.Base.{
  ℕ, suc, ◌+◌, ◌≤◌, ◌≡◌, ◌≢◌, ◌↔◌, inl, inr, refl, sym, ap, map, ◌∙◌, List, [], ◌∷◌, none, some,
  arith, length, count, All, nat_eq, Option-cases,
}
use firehose.Api.{Bytes}
use firehose.Util.Split.{split}
use firehose.Util.Split.Join.{join-split}
use firehose.Programs.{
  Conversions, Address, comma, colon, two_parts, address, addresses, address_list,
}

two_parts-split :
    (s : Bytes) (parts : List Bytes) (n : ℕ)
    → split s colon ≡ some parts
    → length parts ≡ n + 1
    → (two_parts s ≡ none) ↔ (n ≡ 0)
unfolding two_parts
two_parts-split s [] n e number = ground arith
two_parts-split s (a ∷ []) n e number = ground arith
two_parts-split s (a ∷ b ∷ more) n e number = ground arith

-- A string has a second part exactly if there is a colon in it.
pub two_parts-none : (s : Bytes) → (two_parts s ≡ none) ↔ (count colon s ≡ 0)
two_parts-none s =
    let (parts, e, joined, without, number) = join-split s colon in
    two_parts-split s parts (count colon s) e number

address-none : (l : Conversions) (s : Bytes) → (address l s ≡ none) ↔ (count colon s ≡ 0)
unfolding address
address-none l s = ground (arith, two_parts-none s)

-- There are as many addresses as parts, in the order of the parts.
addresses-length :
    (l : Conversions) (ss : List Bytes) (found : List Address)
    → addresses l ss ≡ some found
    → length found ≡ length ss
unfolding addresses
addresses-length l [] found h = ground arith
addresses-length l (s ∷ ss) found h = elim (Option-cases (address l s)) [
  | inl q ↦ ground arith
  | inr (a, q) ↦ elim (Option-cases (addresses l ss)) [
    | inl r ↦ ground arith
    | inr (more, r) ↦ ground (arith, addresses-length l ss more r)
  ]
]

addresses_defined :
    (l : Conversions) (ss : List Bytes)
    → ((found : List Address) × (addresses l ss ≡ some found)) ↔ All (λ s. count colon s ≢ 0) ss
unfolding addresses
addresses_defined l [] = (λ _. tt, λ _. ([], refl))
addresses_defined l (s ∷ ss) = elim (Option-cases (address l s)) [
  | inl q ↦
      (λ d. let (found, e) = d in ground arith, λ all. absurd (all.0 ((address-none l s).0 q)))
  | inr (a, q) ↦ elim (Option-cases (addresses l ss)) [
    | inl r ↦ (
      λ d. let (found, e) = d in ground arith,
      λ all. let (found, e) = (addresses_defined l ss).1 all.1 in ground arith,
    )
    | inr (more, r) ↦ (
      λ d. (λ z. ground (arith, address-none l s), (addresses_defined l ss).0 (more, r)),
      λ all. (a ∷ more, ground arith),
    )
  ]
]

address_list-split :
    (l : Conversions) (s : Bytes) (parts : List Bytes)
    → split s comma ≡ some parts
    → address_list l s ≡ addresses l parts
unfolding address_list
address_list-split l s parts e = rw (e, address_list) refl

-- An argument is split at its commas, whatever it is. Its addresses can be read exactly if each of
-- the parts has a colon in it, and then there are as many as parts, one at least.
pub address_list_defined :
    (l : Conversions) (s : Bytes)
    → (parts : List Bytes) × (split s comma ≡ some parts)
      × (((found : List Address) × (address_list l s ≡ some found))
          ↔ All (λ s. count colon s ≢ 0) parts)
      × ((found : List Address)
          → address_list l s ≡ some found
          → (length found ≡ length parts) × (1 ≤ length found))
address_list_defined l s =
    let (parts, e, joined, without, number) = join-split s comma in
    let same = address_list-split l s parts e in
    let (given, all) = addresses_defined l parts in
    (
      parts,
      e,
      (λ d. given (d.0, sym same ∙ d.1), λ a. let (found, h) = all a in (found, same ∙ h)),
      λ found h.
          let long = addresses-length l parts found (sym same ∙ h) in
          (long, omega (arith, long, number)),
    )

length-map : (f : Address → ℕ) (xs : List Address) → length (map f xs) ≡ length xs
length-map f [] = refl
length-map f (x ∷ xs) = ap suc (length-map f xs)

-- A program that could read its addresses has a connection at least.
pub connections_found :
    (l : Conversions) (connect : Address → ℕ) (s : Bytes) (found : List Address)
    → address_list l s ≡ some found
    → 1 ≤ length (map connect found)
connections_found l connect s found read =
    let (parts, e, given, all) = address_list_defined l s in
    omega (arith, length-map connect found, (all found read).1)
