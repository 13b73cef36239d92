-- ===== src/System/Once/Bound.antt =====
-- How often a message is delivered in the states that a system reaches.
use firehose.Base.{
  ℕ, ◌≤◌, ◌<◌, ◌≡◌, refl, List, [], ◌∷◌, Key, count, count-nil, length, total, get, get_or, empty,
  find_in, nat_eq, key_eq, arith, u16_mod, u64_mod,
}
use firehose.Pump as PumpNode
use firehose.Nuzzle as NuzzleNode
use firehose.Nuzzle.{quorum}
use firehose.Nuzzle.Receive.{pending}
use firehose.System.{
  System, Copy, init, Step, publish, prepare, copy, lose_prepare, lose_copy, update_engine,
  update_nuzzle, Reach, start, later, after_publish, after_prepare,
}
use firehose.System.Invariant.{Inv}
use firehose.System.Invariant.Reached.{
  connect_pump-connects, holds-init, length-after_publish, Step-published, Reach-Inv,
}
use firehose.System.Once.{Once, IsListed, IsRounded, AllListed, delivered_to}
use firehose.System.Once.Steps.{
  publish-Once, prepare-Once, lose_prepare-Once, lose_copy-Once, update_engine-Once,
  update_nuzzle-Once,
}
use firehose.System.Once.AtNuzzle.{copy-Once, copy-IsRounded}

pending-init : (n g : ℕ) (k : Key) → pending (NuzzleNode.init n g) k ≡ 0
unfolding pending get_or get empty find_in
pending-init n g k = refl

module _ (g : ℕ) (es : List ℕ) (some_engine : 0 < g) (in_range : g < u16_mod)
    (few : length es ≤ g) where
  init-Once : Once g es (init g es) []
  init-Once = record {
    linked = λ e.
        let connects = connect_pump-connects (PumpNode.init 0 g) es e in
        omega (arith, connects.0, count-nil e);
    member = λ e k. unfold total in omega (arith, holds-init e g k);
    apart = λ e n k. unfold total in omega arith;
    counted = λ n k. unfold total in ground (arith, pending-init n g k);
  }

  -- The copies that have arrived after a step, and that the bound on the deliveries is kept.
  pub Step-Once :
      {s t : System} (arrived : List Copy)
      → Inv g s
      → Once g es s arrived
      → Step s t
      → length t.published ≤ u64_mod
      → (now : List Copy) × Once g es t now
        × ((b : ℕ) → IsRounded g b s arrived → IsListed b s → IsRounded g b t now)
  unfolding after_publish after_prepare
  Step-Once {s = s} arrived v o (publish req c r) room = (
    arrived,
    publish-Once g es s arrived v o req c r (omega (arith, length-after_publish req c r s)),
    λ b rounds listed. rounds,
  )
  Step-Once {s = s} arrived v o (prepare l c xs m ys at) room =
      (arrived, prepare-Once g es s arrived v o l c xs m ys at, λ b rounds listed. rounds)
  Step-Once {s = s} arrived v o (copy xs m ys at) room = (
    m ∷ arrived,
    copy-Once g es s arrived v o some_engine in_range few xs m ys at,
    copy-IsRounded g es s arrived v o some_engine in_range few xs m ys at,
  )
  Step-Once {s = s} arrived v o (lose_prepare xs m ys at) room =
      (arrived, lose_prepare-Once g es s arrived v o xs m ys at, λ b rounds listed. rounds)
  Step-Once {s = s} arrived v o (lose_copy xs m ys at) room =
      (arrived, lose_copy-Once g es s arrived v o xs m ys at, λ b rounds listed. rounds)
  Step-Once {s = s} arrived v o (update_engine e n r after h one) room =
      (arrived, update_engine-Once g es s arrived v o e n r after h, λ b rounds listed. rounds)
  Step-Once {s = s} arrived v o (update_nuzzle l n c r after sent h) room = (
    arrived,
    update_nuzzle-Once g es s arrived v o l n c r after sent h,
    λ b rounds listed. rounds,
  )

  pub Reach-Once :
      {s : System}
      → ((e : ℕ) → count e es ≤ 1)
      → (r : Reach g es s) → length s.published ≤ u64_mod
      → (arrived : List Copy) × Once g es s arrived
        × ((b : ℕ) → AllListed b g es r → IsRounded g b s arrived)
  Reach-Once distinct start room = ([], init-Once, λ b listed n c k. unfold total in omega arith)
  Reach-Once distinct (later {s = m} r step) room =
      let room' : length m.published ≤ u64_mod = omega (arith, Step-published step) in
      let (before, o, rounds) = Reach-Once distinct r room' in
      let (now, o', kept) = Step-Once before (Reach-Inv g es distinct r room') o step room in
      (now, o', λ b listed. kept b (rounds b listed.0) listed.1)

  -- If the group size is not 0 and has 16 bits, then in a state that a system of at most as many
  -- engines, with different addresses, which never list a nuzzle twice under a topic, reaches
  -- before it has published more than 2^64 requests, and on the way to which no nuzzle has listed
  -- a consumer more than `b` times under a topic, a nuzzle has delivered the messages of a topic
  -- and a global id to a consumer at most `b` times.
  pub delivered_at_most :
      (b : ℕ) (s : System) (n c : ℕ) (k : Key)
      → ((e : ℕ) → count e es ≤ 1)
      → (r : Reach g es s) → AllListed b g es r
      → length s.published ≤ u64_mod
      → delivered_to n c k s.deliveries ≤ b
  delivered_at_most b s n c k distinct r listed room =
      let (arrived, o, rounds) = Reach-Once distinct r room in ground (arith, rounds b listed n c k)
