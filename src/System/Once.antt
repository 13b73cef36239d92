-- ===== src/System/Once.antt =====
-- How often a nuzzle delivers a message: the copies that have arrived at the nuzzles are counted along
-- with the state.
pub mod Counts
pub mod Steps
pub mod AtNuzzle
pub mod Bound
use firehose.Base.{
  ℕ, ◌+◌, ◌≤◌, ◌<◌, ◌≡◌, List, [], ◌∷◌, if◌then◌else◌, nat_beq, leb, ltb, Key, key_beq, count,
  total, nat_eq,
}
use firehose.Nuzzle.{key_of, quorum}
use firehose.Nuzzle.Receive.{pending, consumers}
use firehose.System.{System, Copy, Delivery, Step, Reach, start, later}
use firehose.System.Copies.{prepares_to, copies_on, holds}

-- One for a copy of the key at the nuzzle.
abbrev pub is_arrival : ℕ → Key → Copy → ℕ
is_arrival n k m = if nat_beq m.nuzzle n then if key_beq (key_of m.message) k then 1 else 0 else 0

abbrev pub arrivals : ℕ → Key → List Copy → ℕ
arrivals n k = total (is_arrival n k)

-- One for a delivery of the key from the nuzzle to the consumer.
abbrev pub is_delivery : ℕ → ℕ → Key → Delivery → ℕ
is_delivery n c k d =
    if nat_beq d.nuzzle n
    then if nat_beq d.consumer c then if key_beq (key_of d.message) k then 1 else 0 else 0
    else 0

abbrev pub delivered_to : ℕ → ℕ → Key → List Delivery → ℕ
delivered_to n c k = total (is_delivery n c k)

-- What holds of a state and the copies that have arrived: they are of different engines, which are in
-- the group, and a nuzzle's count is that of the copies until the group is complete.
pub record Once (g : ℕ) (es : List ℕ) (s : System) (arrived : List Copy) : Type 0 where
  pub linked : (e : ℕ) → count e s.pump.engine_connections ≤ count e es
  pub member : (e : ℕ) (k : Key) → prepares_to e k s.prepares + holds (s.engines e) k ≤ count e es
  pub apart :
      (e n : ℕ) (k : Key)
      → copies_on e n k s.copies + copies_on e n k arrived ≤ holds (s.engines e) k
  pub counted :
      (n : ℕ) (k : Key)
      → pending (s.nuzzles n) k ≡ (if ltb (arrivals n k arrived) g then arrivals n k arrived else 0)

-- A nuzzle that has seen the quorum has delivered once at most, and no other has delivered.
abbrev pub IsRounded : (g b : ℕ) → System → List Copy → Type 0
IsRounded g b s arrived =
    (n c : ℕ) (k : Key)
    → delivered_to n c k s.deliveries ≤ (if leb (quorum g) (arrivals n k arrived) then b else 0)

-- No nuzzle lists a consumer more than `b` times under a topic.
abbrev pub IsListed : ℕ → System → Type 0
IsListed b s = (n c topic : ℕ) → count c (consumers (s.nuzzles n) topic) ≤ b

-- That holds in all states on the way.
abbrev pub AllListed : (b g : ℕ) (es : List ℕ) {s : System} → Reach g es s → Type 0
AllListed b g es start = Unit
AllListed b g es (later {s = s} r step) = AllListed b g es r × IsListed b s
