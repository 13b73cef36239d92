-- ===== src/Nuzzle/Delivery.antt =====
-- Nuzzle::on_publish_receive of src/firehose/nuzzle.cpp, for any copies in any order.
use firehose.Base.{
  ℕ, ◌+◌, ◌-◌, ◌/◌, ◌*◌, ◌≤◌, ◌<◌, ◌≡◌, refl, ◌∙◌, inl, inr, Bool-cases, List, [], ◌∷◌, ◌++◌, map,
  arith, if◌then◌else◌, leb, nat_beq, Key, key_beq, key_beq_iff, count, count-nil, count-cons,
  nat_eq,
}
use firehose.Api.{RequestPublish}
use firehose.Nuzzle.{Nuzzle, Sent, deliver, update_subscription, quorum, key_of, on_publish_receive}
use firehose.Nuzzle.Receive.{
  pending, consumers, IsBounded, sent-on_publish_receive, group_size-on_publish_receive,
  consumers-on_publish_receive, pending-on_publish_receive,
}

-- The copies that arrive, each with the engine's connection that it came on, in turn.
unfoldable pub receive_all : Nuzzle → List (ℕ × RequestPublish) → Nuzzle × List Sent
receive_all n [] = (n, [])
receive_all n ((c, r) ∷ rs) =
    let (n₁, sent) = on_publish_receive n c r in
    let (n₂, more) = receive_all n₁ rs in (n₂, sent ++ more)

-- How many of the copies are of one message.
abbrev pub copies : Key → List (ℕ × RequestPublish) → ℕ
copies k [] = 0
copies k ((c, r) ∷ rs) = (if key_beq (key_of r) k then 1 else 0) + copies k rs

-- How often one consumer is sent one message.
unfoldable pub delivered : ℕ → Key → List Sent → ℕ
delivered c k [] = 0
delivered c k (deliver d r ∷ rest) =
    (if nat_beq d c then if key_beq (key_of r) k then 1 else 0 else 0) + delivered c k rest
delivered c k (update_subscription e r ∷ rest) = delivered c k rest

delivered-append :
    (c : ℕ) (k : Key) (xs ys : List Sent)
    → delivered c k (xs ++ ys) ≡ delivered c k xs + delivered c k ys
unfolding delivered
delivered-append c k [] ys = omega arith
delivered-append c k (deliver d r ∷ xs) ys = omega (arith, delivered-append c k xs ys)
delivered-append c k (update_subscription e r ∷ xs) ys = delivered-append c k xs ys

delivered-map :
    (c : ℕ) (k : Key) (r : RequestPublish) (ds : List ℕ)
    → delivered c k (map (λ d. deliver d r) ds) ≡ (if key_beq (key_of r) k then count c ds else 0)
unfolding delivered
delivered-map c k r [] = ground (arith, count-nil c)
delivered-map c k r (d ∷ ds) = ground (arith, count-cons c d ds, delivered-map c k r ds)

receive-IsBounded :
    (n : Nuzzle) (c : ℕ) (r : RequestPublish) → IsBounded n → IsBounded (on_publish_receive n c r).0
receive-IsBounded n c r v = record {
  some_engine = ground (arith, group_size-on_publish_receive n c r v, v.some_engine);
  in_range = ground (arith, group_size-on_publish_receive n c r v, v.in_range);
  below = λ j. ground (
    arith,
    group_size-on_publish_receive n c r v,
    pending-on_publish_receive n c r v j,
    v.below j,
    v.below (key_of r),
    v.some_engine,
  );
}

delivered-nil : (c : ℕ) (k : Key) → delivered c k [] ≡ 0
unfolding delivered
delivered-nil c k = refl

-- One copy, as consumer `d` sees it.
delivered-receive :
    (n : Nuzzle) (c : ℕ) (r : RequestPublish) (d : ℕ) (k : Key)
    → IsBounded n
    → delivered d k (on_publish_receive n c r).1 ≡ (
        if key_beq (key_of r) k
        then if nat_beq (pending n k + 1) (quorum n.group_size)
          then count d (consumers n k.0)
          else 0
        else 0)
delivered-receive n c r d k v = rw (sent-on_publish_receive n c r v) (
    ground (
      arith,
      delivered-map d k r (consumers n r.topic_id),
      delivered-nil d k,
      key_beq_iff (key_of r) k,
    ))

-- `m` as soon as the copies make a quorum.
abbrev reached : ℕ → ℕ → ℕ → ℕ
reached g m p = if leb (quorum g) p then m else 0

-- What a nuzzle is after some copies: the copies of `k` fill some whole groups and a part of one, and
-- consumer `d`, listed `m` times, was sent the message `m` times for each quorum that was completed.
record Rounds (n n' : Nuzzle) (k : Key) (d : ℕ) (arrived got : ℕ) : Type 0 where
  rounds : ℕ
  bounded : IsBounded n'
  same_group : n'.group_size ≡ n.group_size
  same_consumers : consumers n' k.0 ≡ consumers n k.0
  copied : pending n k + arrived ≡ rounds * n.group_size + pending n' k
  sent :
      got + reached n.group_size (count d (consumers n k.0)) (pending n k)
      ≡ rounds * count d (consumers n k.0)
        + reached n.group_size (count d (consumers n k.0)) (pending n' k)

receive-Rounds :
    (n : Nuzzle) (c : ℕ) (r : RequestPublish) (d : ℕ) (k : Key)
    → IsBounded n
    → Rounds n
        (on_publish_receive n c r).0
        k
        d
        (if key_beq (key_of r) k then 1 else 0)
        (delivered d k (on_publish_receive n c r).1)
receive-Rounds n c r d k v = record {
  rounds =
      if key_beq (key_of r) k then if nat_beq (pending n k + 1) n.group_size then 1 else 0 else 0;
  bounded = receive-IsBounded n c r v;
  same_group = group_size-on_publish_receive n c r v;
  same_consumers = consumers-on_publish_receive n c r v k.0;
  copied = ground (arith, pending-on_publish_receive n c r v k, key_beq_iff (key_of r) k);
  sent = ground (
    arith,
    pending-on_publish_receive n c r v k,
    key_beq_iff (key_of r) k,
    delivered-receive n c r d k v,
    v.below k,
    v.some_engine,
  );
}

Rounds-trans :
    {n n₁ n₂ : Nuzzle} {k : Key} {d x y g h : ℕ}
    → Rounds n n₁ k d x g
    → Rounds n₁ n₂ k d y h
    → Rounds n n₂ k d (x + y) (g + h)
Rounds-trans {n} {n₁} {n₂} {k} {d} {x} {y} {g} {h} a b =
    let m = count d (consumers n k.0) in
    let copied' : pending n₁ k + y ≡ b.rounds * n.group_size + pending n₂ k =
      rw (← a.same_group) b.copied in
    let sent' : h + reached n.group_size m (pending n₁ k)
        ≡ b.rounds * m + reached n.group_size m (pending n₂ k) =
      rw (← a.same_group, ← a.same_consumers) b.sent in
    record {
      rounds = a.rounds + b.rounds;
      bounded = b.bounded;
      same_group = b.same_group ∙ a.same_group;
      same_consumers = b.same_consumers ∙ a.same_consumers;
      copied = omega (arith, a.copied, copied');
      sent = omega (arith, a.sent, sent');
    }

receive_all-Rounds :
    (n : Nuzzle) (rs : List (ℕ × RequestPublish)) (d : ℕ) (k : Key)
    → IsBounded n
    → Rounds n (receive_all n rs).0 k d (copies k rs) (delivered d k (receive_all n rs).1)
unfolding receive_all
receive_all-Rounds n [] d k v = record {
  rounds = 0;
  bounded = v;
  same_group = refl;
  same_consumers = refl;
  copied = omega arith;
  sent = ground (arith, delivered-nil d k);
}
receive_all-Rounds n ((c, r) ∷ rs) d k v =
    let (n₁, first) = on_publish_receive n c r in
    let a = receive-Rounds n c r d k v in
    rw (delivered-append d k first (receive_all n₁ rs).1)
      (Rounds-trans a (receive_all-Rounds n₁ rs d k a.bounded))

-- The quorums among some copies: a quorum counts again after a whole group of copies.
abbrev pub quorums : ℕ → ℕ → ℕ
quorums g copies = (copies + (g - quorum g)) / g

div_of_parts : (g r y x : ℕ) → y < g → x ≡ r * g + y → x / g ≡ r
div_of_parts g r y x h e = grind arith

quorums_of_parts : (g r p x m : ℕ) → p < g → x ≡ r * g + p → quorums g x * m ≡ r * m + reached g m p
quorums_of_parts g r p x m h e = elim (Bool-cases (leb (quorum g) p)) [
  | inl full ↦ rw full (
      let q : quorums g x ≡ r + 1 =
        div_of_parts g (r + 1) (p - quorum g) _ (ground arith) (ground arith) in
      rw q (omega arith))
  | inr part ↦ rw part (
      let q : quorums g x ≡ r =
        div_of_parts g r (p + (g - quorum g)) _ (ground arith) (ground arith) in
      rw q (omega arith))
]

-- For a bounded nuzzle that has counted no copy of the message, and copies of any messages that come
-- in any order: a consumer is sent the message as often as it is listed under the topic, times the
-- number of quorums among the copies, where a quorum counts again after a whole group of copies.
pub delivered-receive_all :
    (n : Nuzzle) (rs : List (ℕ × RequestPublish)) (d : ℕ) (k : Key)
    → IsBounded n
    → pending n k ≡ 0
    → delivered d k (receive_all n rs).1
      ≡ quorums n.group_size (copies k rs) * count d (consumers n k.0)
delivered-receive_all n rs d k v none_yet =
    let a = receive_all-Rounds n rs d k v in
    let g = n.group_size in
    let m = count d (consumers n k.0) in
    let start : reached g m (pending n k) ≡ 0 = ground (arith, none_yet) in
    let left : pending (receive_all n rs).0 k < g =
      omega (arith, a.bounded.below k, a.same_group) in
    let parts : copies k rs ≡ a.rounds * g + pending (receive_all n rs).0 k =
      omega (arith, a.copied) in
    let total =
      quorums_of_parts g a.rounds (pending (receive_all n rs).0 k) (copies k rs) m left parts in
    omega (arith, a.sent, start, total)

-- For a bounded nuzzle that has counted no copy of the message: if fewer copies of it come than make
-- a quorum, with copies of other messages in between, it is sent to no consumer.
delivered_none :
    (n : Nuzzle) (rs : List (ℕ × RequestPublish)) (d : ℕ) (k : Key)
    → IsBounded n
    → pending n k ≡ 0
    → copies k rs < quorum n.group_size
    → delivered d k (receive_all n rs).1 ≡ 0
delivered_none n rs d k v none_yet few =
    let g = n.group_size in
    let zero_quorums : quorums g (copies k rs) ≡ 0 =
      div_of_parts g 0 (copies k rs + (g - quorum g)) _ (omega (arith, v.some_engine))
        (omega arith) in
    delivered-receive_all n rs d k v none_yet ∙ rw zero_quorums (omega arith)

-- For a bounded nuzzle that has counted no copy of the message: if as many copies of it come as make a
-- quorum, and fewer than a whole group more than that, with copies of other messages in between, a
-- consumer is sent the message exactly as often as it is listed under the topic.
delivered_once :
    (n : Nuzzle) (rs : List (ℕ × RequestPublish)) (d : ℕ) (k : Key)
    → IsBounded n
    → pending n k ≡ 0
    → quorum n.group_size ≤ copies k rs
    → copies k rs < quorum n.group_size + n.group_size
    → delivered d k (receive_all n rs).1 ≡ count d (consumers n k.0)
delivered_once n rs d k v none_yet enough few =
    let g = n.group_size in
    let one_quorum : quorums g (copies k rs) ≡ 1 =
      div_of_parts g 1 (copies k rs - quorum g) _ (omega arith) (omega (arith, v.some_engine)) in
    delivered-receive_all n rs d k v none_yet ∙ rw one_quorum (omega arith)
