-- ===== src/System/Copies.antt =====
-- How many messages about one key are on the way, and what one step of a node does to these numbers.
use firehose.Base.{
  ℕ, ◌+◌, ◌%◌, ◌≤◌, ◌≡◌, ◌⊎◌, inl, inr, List, [], ◌∷◌, map, none, some, arith, if◌then◌else◌,
  nat_beq, Key, key_beq, key_beq_iff, Map, get, get_or, get_or-put, get_or-none, get_or-erase,
  length, count, count-nil, count-cons, count-push_back, push_back, total, nat_eq, key_eq, u16_mod,
  Bool-cases,
}
use firehose.Api.{RequestPublish, RequestPrepare}
use firehose.Pump as PumpNode
use firehose.Engine as EngineNode
use firehose.Engine.{Engine}
use firehose.Engine.Prepare.{message_buffer-on_prepare_receive}
use firehose.Nuzzle as NuzzleNode
use firehose.Nuzzle.{Nuzzle, key_of, quorum, note_copy, make_key}
use firehose.System.{Prepare, Copy, prepares_of, copies_of, to_engine, to_nuzzle}

abbrev pub prepare_key : RequestPrepare → Key
prepare_key r = (r.topic_id, r.global_id)

-- One for a message of the key to the engine.
abbrev pub is_prepare : ℕ → Key → Prepare → ℕ
is_prepare e k m =
    if nat_beq m.engine e then if key_beq (prepare_key m.message) k then 1 else 0 else 0

abbrev pub prepares_to : ℕ → Key → List Prepare → ℕ
prepares_to e k = total (is_prepare e k)

abbrev pub is_copy : ℕ → ℕ → Key → Copy → ℕ
is_copy e n k m =
    if nat_beq m.engine e
    then if nat_beq m.nuzzle n then if key_beq (key_of m.message) k then 1 else 0 else 0
    else 0

abbrev pub copies_on : ℕ → ℕ → Key → List Copy → ℕ
copies_on e n k = total (is_copy e n k)

-- One if the engine stores a message under the key.
unfoldable pub holds : Engine → Key → ℕ
holds e k = elim (get e.message_buffer k) [ none ↦ 0 | some _ ↦ 1 ]

-- The engines whose copies of the message a nuzzle has noted, in order.
unfoldable pub sources : Nuzzle → Key → List ℕ
sources n k = get_or n.message_buffer k []

pub prepares_to-map :
    (e : ℕ) (k : Key) (r : RequestPrepare) (ds : List ℕ)
    → prepares_to e k (prepares_of (map (λ d. PumpNode.prepare d r) ds))
      ≡ (if key_beq (prepare_key r) k then count e ds else 0)
unfolding prepares_of to_engine total
prepares_to-map e k r [] = ground (arith, count-nil e)
prepares_to-map e k r (d ∷ ds) = ground (arith, count-cons e d ds, prepares_to-map e k r ds)

pub copies_on-map :
    (e n : ℕ) (k : Key) (d : ℕ) (r : RequestPublish) (ns : List ℕ)
    → copies_on e n k (copies_of d (map (λ c. EngineNode.publish c r) ns))
      ≡ (if nat_beq d e then if key_beq (key_of r) k then count n ns else 0 else 0)
unfolding copies_of to_nuzzle total
copies_on-map e n k d r [] = ground (arith, count-nil n)
copies_on-map e n k d r (c ∷ ns) = ground (arith, count-cons n c ns, copies_on-map e n k d r ns)

get_or-make_key : (b : Map Key (List ℕ)) (k j : Key) → get_or (make_key b k) j [] ≡ get_or b j []
unfolding make_key
get_or-make_key b k j = ground (arith, get_or-put b k j [] [], get_or-none b k [], key_beq_iff k j)

get_or-note_copy :
    (b : Map Key (List ℕ)) (k j : Key) (c : ℕ)
    → get_or (note_copy b k c) j []
      ≡ (if key_beq k j then push_back (get_or b k []) c else get_or b j [])
unfolding note_copy
get_or-note_copy b k j c = ground (
  arith,
  get_or-make_key b k k,
  get_or-make_key b k j,
  get_or-put (make_key b k) k j (push_back (get_or b k []) c) [],
  key_beq_iff k j,
)

-- The engines noted after one copy: at most the one that sent it is new.
pub sources-on_publish_receive :
    (n : Nuzzle) (c : ℕ) (r : RequestPublish) (j : Key) (e : ℕ)
    → count e (sources (NuzzleNode.on_publish_receive n c r).0 j)
      ≤ count e (sources n j) + (if key_beq (key_of r) j then if nat_beq c e then 1 else 0 else 0)
unfolding sources NuzzleNode.on_publish_receive NuzzleNode.deliver_all
sources-on_publish_receive n c r j e =
    let k = key_of r in
    let b = note_copy n.message_buffer k c in
    ground (
      arith,
      get_or-note_copy n.message_buffer k j c,
      get_or-erase b k j [],
      count-push_back e c (get_or n.message_buffer k []),
      count-nil e,
      key_beq_iff k j,
    )

-- What a nuzzle sends on a copy: nothing, or the request to its consumers, and then it has noted at
-- least a quorum of engines.
pub sent-on_publish_receive :
    (n : Nuzzle) (c : ℕ) (r : RequestPublish)
    → ((NuzzleNode.on_publish_receive n c r).1 ≡ [])
      ⊎ ((consumers : List ℕ) × ((NuzzleNode.on_publish_receive n c r).1
            ≡ map (λ d. NuzzleNode.deliver d r) consumers)
          × (quorum n.group_size ≤ length (push_back (sources n (key_of r)) c)))
unfolding sources NuzzleNode.on_publish_receive NuzzleNode.deliver_all NuzzleNode.received
sent-on_publish_receive n c r =
    let k = key_of r in
    let b = note_copy n.message_buffer k c in
    elim (Bool-cases (nat_beq (length (get_or b k []) % u16_mod) (quorum n.group_size))) [
      | inr other ↦ inl (ground arith)
      | inl full ↦ inr (
        get_or n.subscriptions r.topic_id [],
        ground arith,
        ground (arith, get_or-note_copy n.message_buffer k k c, key_beq_iff k k),
      )
    ]

pub holds-on_prepare_receive :
    (l : EngineNode.Locals) (e : Engine) (c : ℕ) (r : RequestPrepare) (k : Key)
    → holds (EngineNode.on_prepare_receive l e c r).0 k
      ≡ (if key_beq (prepare_key r) k then 1 else holds e k)
unfolding holds
holds-on_prepare_receive l e c r k = ground (arith, message_buffer-on_prepare_receive l e c r k)

pub holds_le : (e : Engine) (k : Key) → holds e k ≤ 1
unfolding holds
holds_le e k = ground arith
