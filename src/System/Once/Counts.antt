-- ===== src/System/Once/Counts.antt =====
-- How many copies of a message can arrive at a nuzzle.
use firehose.Base.{
  ℕ, ◌≤◌, ◌≡◌, inl, inr, refl, List, [], ◌∷◌, map, if◌then◌else◌, nat_beq, Key, key_beq, count,
  count-nil, count-cons, count-erase_found, erase_found, erase_found-none, length,
  length-erase_found, total, nat_eq, arith, Option-cases,
}
use firehose.Api.{RequestPublish}
use firehose.Nuzzle as NuzzleNode
use firehose.Nuzzle.{key_of}
use firehose.System.{Copy, deliveries_of, to_consumer}
use firehose.System.Copies.{copies_on}
use firehose.System.Once.{arrivals, delivered_to}

-- As many items with counts as large.
length_le-count : (xs ys : List ℕ) → ((e : ℕ) → count e xs ≤ count e ys) → length xs ≤ length ys
length_le-count [] ys h = omega arith
length_le-count (x ∷ xs) ys h = elim (Option-cases (erase_found x ys)) [
  | inl q ↦ absurd (ground (arith, erase_found-none x ys, h x, count-cons x x xs))
  | inr (zs, q) ↦
      let rest =
        length_le-count xs zs
          (λ e. ground (arith, h e, count-cons e x xs, count-erase_found x e ys zs q)) in
      omega (arith, rest, length-erase_found x ys zs q)
]

-- The engines of the copies of the key at the nuzzle.
abbrev engines_of : ℕ → Key → List Copy → List ℕ
engines_of n k [] = []
engines_of n k (m ∷ ms) =
    let more = engines_of n k ms in
    if nat_beq m.nuzzle n
    then if key_beq (key_of m.message) k then m.engine ∷ more else more
    else more

count-engines_of :
    (e n : ℕ) (k : Key) (ms : List Copy) → count e (engines_of n k ms) ≡ copies_on e n k ms
unfolding total
count-engines_of e n k [] = count-nil e
count-engines_of e n k (m ∷ ms) =
    ground (arith, count-engines_of e n k ms, count-cons e m.engine (engines_of n k ms))

length-engines_of :
    (n : ℕ) (k : Key) (ms : List Copy) → length (engines_of n k ms) ≡ arrivals n k ms
unfolding total
length-engines_of n k [] = refl
length-engines_of n k (m ∷ ms) = ground (arith, length-engines_of n k ms)

-- Copies that come from different engines of the list are no more than these.
pub arrivals_le :
    (es : List ℕ) (n : ℕ) (k : Key) (ms : List Copy)
    → ((e : ℕ) → copies_on e n k ms ≤ count e es)
    → arrivals n k ms ≤ length es
arrivals_le es n k ms h =
    let few =
      length_le-count (engines_of n k ms) es (λ e. omega (arith, count-engines_of e n k ms, h e)) in
    omega (arith, few, length-engines_of n k ms)

pub arrivals_eq :
    (es : List ℕ) (n : ℕ) (k : Key) (ms : List Copy)
    → ((e : ℕ) → copies_on e n k ms ≡ count e es)
    → arrivals n k ms ≡ length es
arrivals_eq es n k ms h =
    let few = arrivals_le es n k ms (λ e. omega (arith, h e)) in
    let many =
      length_le-count es (engines_of n k ms) (λ e. omega (arith, count-engines_of e n k ms, h e)) in
    omega (arith, few, many, length-engines_of n k ms)

pub delivered_to-map :
    (n c : ℕ) (k : Key) (d : ℕ) (r : RequestPublish) (cs : List ℕ)
    → delivered_to n c k (deliveries_of d (map (λ c. NuzzleNode.deliver c r) cs))
      ≡ (if nat_beq d n then if key_beq (key_of r) k then count c cs else 0 else 0)
unfolding deliveries_of to_consumer total
delivered_to-map n c k d r [] = ground (arith, count-nil c)
delivered_to-map n c k d r (x ∷ cs) =
    ground (arith, count-cons c x cs, delivered_to-map n c k d r cs)
