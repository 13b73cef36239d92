-- ===== src/Programs.antt =====
-- The programs src/consumer.cpp, src/publisher.cpp, src/pump.cpp, src/nuzzle.cpp and src/engine.cpp:
-- what `main` makes of its arguments. The conversions of the C library and the network are
-- parameters. Output, signal handlers, and the wait in `join` are left out.
pub mod Addresses
pub mod ConsumerMain
pub mod PublisherMain
pub mod NodeMains
use firehose.Base.{ℕ, List, [], ◌∷◌, Option, none, some, get_elem?}
use firehose.Api.{Bytes}
use firehose.Util.Split.{split}

-- atoi, atol and atoll: the 32 or 64 bits of the signed number that a string stands for.
pub record Conversions : Type 0 where
  pub atoi : Bytes → ℕ
  pub atol : Bytes → ℕ
  pub atoll : Bytes → ℕ

-- How a program goes on. `undefined` is undefined behaviour, `no_fuel` is no end within the fuel.
pub data Run {ℓ} (A : Type ℓ) : Type ℓ where
  usage : Run A
  undefined : Run A
  no_fuel : Run A
  goes_on : A → Run A

unfoldable pub continue_with {ℓ κ} : {A : Type ℓ} {B : Type κ} → (A → B) → Run A → Run B
continue_with f usage = usage
continue_with f undefined = undefined
continue_with f no_fuel = no_fuel
continue_with f (goes_on a) = goes_on (f a)

abbrev pub comma : ℕ
comma = 44

abbrev pub colon : ℕ
colon = 58

-- A host and a port.
abbrev pub Address : Type 0
Address = Bytes × ℕ

-- The first two parts of a string. `none` is a read behind the end of the vector of parts.
unfoldable pub two_parts : Bytes → Option (Bytes × Bytes)
two_parts s = elim (split s colon) [
  | none ↦ none
  | some [] ↦ none
  | some (_ ∷ []) ↦ none
  | some (first ∷ second ∷ _) ↦ some (first, second)
]

-- One round of the loop over the addresses.
unfoldable pub address : Conversions → Bytes → Option Address
unfolding two_parts
address l s = elim (two_parts s) [ none ↦ none | some (host, port) ↦ some (host, l.atoi port) ]

unfoldable pub addresses : Conversions → List Bytes → Option (List Address)
unfolding address
addresses l [] = some []
addresses l (s ∷ ss) = elim (address l s) [
  | none ↦ none
  | some a ↦ elim (addresses l ss) [ none ↦ none | some more ↦ some (a ∷ more) ]
]

-- The addresses of an argument.
unfoldable pub address_list : Conversions → Bytes → Option (List Address)
unfolding addresses
address_list l s = elim (split s comma) [ none ↦ none | some ss ↦ addresses l ss ]
