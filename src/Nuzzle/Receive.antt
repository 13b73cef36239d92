-- ===== src/Nuzzle/Receive.antt =====
-- Nuzzle::on_publish_receive of src/firehose/nuzzle.cpp: one copy of a message.
use firehose.Base.{
  ℕ, ◌+◌, ◌*◌, ◌≤◌, ◌<◌, ◌≡◌, List, [], map, arith, if◌then◌else◌, nat_beq, nat_beq_iff, Key,
  key_beq, key_beq_iff, length, length-push_back, push_back, u16_mod, get_or, get_or-put,
  get_or-erase, get_or-none, Map, nat_eq, key_eq,
}
use firehose.Api.{RequestPublish}
use firehose.Nuzzle.{
  Nuzzle, deliver, quorum, key_of, note_copy, make_key, received, deliver_all, on_publish_receive,
}

-- The copies of a message that have been counted since it was last forgotten.
unfoldable pub pending : Nuzzle → Key → ℕ
pending n k = length (get_or n.message_buffer k [])

abbrev pub consumers : Nuzzle → ℕ → List ℕ
consumers n topic = get_or n.subscriptions topic []

-- With the group size in range, no message has as many copies counted as the group has engines.
pub record IsBounded (n : Nuzzle) : Type 0 where
  pub some_engine : 0 < n.group_size
  pub in_range : n.group_size < u16_mod
  pub below : (k : Key) → pending n k < n.group_size

-- A quorum is a majority of the group: it fits in the group, and two quorums share an engine.
pub quorum-IsMajority : (g : ℕ) → 0 < g → (quorum g ≤ g) × (g < 2 * quorum g)
quorum-IsMajority g h = omega arith

get_or-make_key : (b : Map Key (List ℕ)) (k j : Key) → get_or (make_key b k) j [] ≡ get_or b j []
unfolding make_key
get_or-make_key b k j = ground (arith, get_or-put b k j [] [], get_or-none b k [], key_beq_iff k j)

-- The vector that is read right after the copy has been noted.
get_or-note_copy :
    (n : Nuzzle) (k j : Key) (c : ℕ)
    → length (get_or (note_copy n.message_buffer k c) j [])
      ≡ (if key_beq k j then pending n k + 1 else pending n j)
unfolding note_copy pending
get_or-note_copy n k j c =
    let old = get_or n.message_buffer k [] in
    ground (
      arith,
      get_or-make_key n.message_buffer k k,
      get_or-make_key n.message_buffer k j,
      get_or-put (make_key n.message_buffer k) k j (push_back old c) [],
      length-push_back old c,
      key_beq_iff k j,
    )

-- What happens to the copy that makes `pending n k` one more.
module _ (n : Nuzzle) (c : ℕ) (r : RequestPublish) (v : IsBounded n) where
  abbrev k : Key
  k = key_of r

  abbrev now : ℕ
  now = pending n k + 1

  received-eq : received (note_copy n.message_buffer k c) k ≡ now
  unfolding received
  received-eq = ground (arith, get_or-note_copy n k k c, key_beq_iff k k, v.below k, v.in_range)

  -- Nothing is sent unless this copy completes the quorum; then every consumer of the topic is sent
  -- the request, once for each time that it is listed.
  pub sent-on_publish_receive : (on_publish_receive n c r).1 ≡ (
      if nat_beq now (quorum n.group_size)
      then map (λ consumer. deliver consumer r) (consumers n r.topic_id)
      else [])
  unfolding on_publish_receive deliver_all
  sent-on_publish_receive = ground (arith, received-eq)

  pub group_size-on_publish_receive : (on_publish_receive n c r).0.group_size ≡ n.group_size
  unfolding on_publish_receive deliver_all
  group_size-on_publish_receive = ground arith

  pub consumers-on_publish_receive :
      (t : ℕ) → consumers (on_publish_receive n c r).0 t ≡ consumers n t
  unfolding on_publish_receive deliver_all
  consumers-on_publish_receive t = ground (
    arith,
    get_or-put n.subscriptions r.topic_id t (consumers n r.topic_id) [],
    nat_beq_iff r.topic_id t,
  )

  -- The count of the key goes up by one, and back to none when the group is complete.
  pub pending-on_publish_receive :
      (j : Key)
      → pending (on_publish_receive n c r).0 j
        ≡ (if key_beq k j then if nat_beq now n.group_size then 0 else now else pending n j)
  unfolding on_publish_receive deliver_all pending
  pending-on_publish_receive j =
      let b = note_copy n.message_buffer k c in
      ground (arith, received-eq, get_or-note_copy n k j c, get_or-erase b k j [], key_beq_iff k j)
