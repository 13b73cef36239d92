-- ===== src/System/Once/AtNuzzle.antt =====
-- The arrival of a copy at a nuzzle, in the counts.
use firehose.Base.{
  ℕ, ◌+◌, ◌≤◌, ◌<◌, ◌≡◌, inl, inr, refl, List, ◌∷◌, ◌++◌, if◌then◌else◌, nat_beq, ltb, Key, key_beq,
  key_beq_iff, length, total, total-append, nat_eq, key_eq, arith, u16_mod, Bool-cases, count,
}
use firehose.Nuzzle as NuzzleNode
use firehose.Nuzzle.{Nuzzle, key_of, quorum}
use firehose.Nuzzle.Receive as Receive
use firehose.Nuzzle.Receive.{pending, consumers, IsBounded}
use firehose.System.{System, Copy, deliveries_of, after_copy}
use firehose.System.Copies.{copies_on, holds}
use firehose.System.Invariant.{Inv}
use firehose.System.Invariant.AtNuzzle as AtNuzzle
use firehose.System.Once.{
  Once, arrivals, is_arrival, delivered_to, is_delivery, IsListed, IsRounded,
}
use firehose.System.Once.Counts.{arrivals_le, delivered_to-map}

pub Once-IsBounded :
    (g : ℕ) (es : List ℕ) (s : System) (arrived : List Copy)
    → Inv g s
    → Once g es s arrived
    → 0 < g
    → g < u16_mod
    → (n : ℕ) → IsBounded (s.nuzzles n)
Once-IsBounded g es s arrived v o some_engine in_range n = record {
  some_engine = omega (arith, some_engine, v.group n);
  in_range = omega (arith, in_range, v.group n);
  below = λ k. ground (arith, o.counted n k, v.group n, some_engine);
}

-- A copy arrives at its nuzzle.
module _ (g : ℕ) (es : List ℕ) (s : System) (arrived : List Copy) (v : Inv g s)
    (o : Once g es s arrived) (some_engine : 0 < g) (in_range : g < u16_mod) (few : length es ≤ g)
    (xs : List Copy) (m : Copy) (ys : List Copy) (at : s.copies ≡ xs ++ m ∷ ys) where
  abbrev pub n : Nuzzle
  n = s.nuzzles m.nuzzle

  abbrev pub now : List Copy
  now = m ∷ arrived

  nuzzle-IsBounded : IsBounded n
  nuzzle-IsBounded = Once-IsBounded g es s arrived v o some_engine in_range m.nuzzle

  pub apart-copy :
      (e c : ℕ) (k : Key) → copies_on e c k (xs ++ ys) + copies_on e c k now ≤ holds (s.engines e) k
  unfolding total
  apart-copy e c k = omega (arith, AtNuzzle.before g s v xs m ys at e c k, o.apart e c k)

  pub now_le : (c : ℕ) (k : Key) → arrivals c k now ≤ g
  now_le c k =
      let all = arrivals_le es c k now (λ e. omega (arith, apart-copy e c k, o.member e k)) in
      omega (arith, all, few)

  pub arrivals-now : (c : ℕ) (k : Key) → arrivals c k now ≡ is_arrival c k m + arrivals c k arrived
  unfolding total
  arrivals-now c k = refl

  counted-copy :
      (c : ℕ) (k : Key)
      → pending (AtNuzzle.after g s v xs m ys at c) k
        ≡ (if ltb (arrivals c k now) g then arrivals c k now else 0)
  counted-copy c k = ground (
    arith,
    Receive.pending-on_publish_receive n m.engine m.message nuzzle-IsBounded k,
    o.counted c k,
    o.counted m.nuzzle (key_of m.message),
    arrivals-now c k,
    now_le c k,
    v.group m.nuzzle,
    key_beq_iff (key_of m.message) k,
  )

  pub copy-Once : Once g es (after_copy m (record s { copies = xs ++ ys })) now
  unfolding after_copy
  copy-Once = record {
    linked = o.linked;
    member = o.member;
    apart = apart-copy;
    counted = counted-copy;
  }

  -- What the copy adds to the deliveries: the entries of the topic, if it completes the quorum.
  added :
      (c d : ℕ) (k : Key)
      → delivered_to c d k
          (deliveries_of m.nuzzle (NuzzleNode.on_publish_receive n m.engine m.message).1)
        ≡ (if nat_beq m.nuzzle c
            then if key_beq (key_of m.message) k
              then if nat_beq (pending n (key_of m.message) + 1) (quorum n.group_size)
                then count d (consumers n m.message.topic_id)
                else 0
              else 0
            else 0)
  added c d k =
      let sent = Receive.sent-on_publish_receive n m.engine m.message nuzzle-IsBounded in
      elim (Bool-cases (nat_beq (pending n (key_of m.message) + 1) (quorum n.group_size))) [
        | inl full ↦
            rw (sent, full)
              (ground
                (arith, delivered_to-map c d k m.nuzzle m.message (consumers n m.message.topic_id)))
        | inr other ↦ rw (sent, other) (unfold deliveries_of total in ground arith)
      ]

  pub delivered-copy :
      (c d : ℕ) (k : Key)
      → delivered_to c d k (
          s.deliveries
          ++ deliveries_of m.nuzzle (NuzzleNode.on_publish_receive n m.engine m.message).1)
        ≡ delivered_to c d k s.deliveries
          + (if nat_beq m.nuzzle c
              then if key_beq (key_of m.message) k
                then if nat_beq (arrivals c k now) (quorum g)
                  then count d (consumers n m.message.topic_id)
                  else 0
                else 0
              else 0)
  delivered-copy c d k =
      let sent = deliveries_of m.nuzzle (NuzzleNode.on_publish_receive n m.engine m.message).1 in
      ground (
        arith,
        total-append (is_delivery c d k) s.deliveries sent,
        added c d k,
        o.counted m.nuzzle (key_of m.message),
        arrivals-now c k,
        now_le c k,
        v.group m.nuzzle,
        key_beq_iff (key_of m.message) k,
      )

  -- No more is delivered than a nuzzle lists of a consumer, and that once.
  pub copy-IsRounded :
      (b : ℕ)
      → IsRounded g b s arrived
      → IsListed b s
      → IsRounded g b (after_copy m (record s { copies = xs ++ ys })) now
  unfolding after_copy
  copy-IsRounded b rounds listed c d k = ground (
    arith,
    delivered-copy c d k,
    rounds c d k,
    listed m.nuzzle d m.message.topic_id,
    arrivals-now c k,
  )
