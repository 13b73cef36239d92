-- ===== src/System/Alone.antt =====
-- One engine and one nuzzle that subscribes several times, from src/firehose/engine.cpp to
-- src/firehose/nuzzle.cpp.
use firehose.Base.{
  ℕ, zero, suc, ◌*◌, ◌≡◌, refl, ap, ◌∙◌, List, [], map, some, arith, key_beq, key_beq_iff, count,
  replicate, true, nat_eq, key_eq,
}
use firehose.Api.{RequestPublish, RequestPrepare, RequestUpdateSubscription}
use firehose.Engine as EngineNode
use firehose.Engine.{Engine, clients, forward_of, on_prepare_receive}
use firehose.Engine.Entries.{entries, IsConsistent}
use firehose.Engine.Prepare.{published_to, published_to-on_prepare_receive}
use firehose.Engine.Stale.{updates, on_all}
use firehose.Nuzzle.{Nuzzle, key_of}
use firehose.Nuzzle.Receive.{pending, consumers, IsBounded}
use firehose.Nuzzle.Delivery.{receive_all, copies, delivered, quorums, delivered-receive_all}
use firehose.System.{to_nuzzle}

-- What the engine sends to the nuzzle, as it arrives there on the connection of the engine.
abbrev pub arriving : ℕ → List RequestPublish → List (ℕ × RequestPublish)
arriving source ms = map (λ m. (source, to_nuzzle m)) ms

copies-arriving :
    (source j : ℕ) (m : RequestPublish) → copies (key_of m) (arriving source (replicate j m)) ≡ j
unfolding to_nuzzle
copies-arriving source zero m = refl
copies-arriving source (suc j) m =
    let own : key_beq (key_of m) (key_of m) ≡ true = (key_beq_iff (key_of m) (key_of m)).1 refl in
    rw (own) (omega (arith, copies-arriving source j m))

-- If a client subscribes `k` times through the connection of one nuzzle, at a consistent engine that
-- has neither an entry nor a client of the nuzzle under the topic, all of these updates complete. If
-- then a message of the topic is prepared at this engine, and just what it sends to the nuzzle arrives
-- there, at a bounded nuzzle that has counted no copy of the message, the nuzzle sends a consumer the
-- message as often as it lists the consumer under the topic, times the number of quorums that `k`
-- copies make, where a quorum counts again after a whole group of copies.
pub lone_engine_delivers :
    (c : ℕ) (on : RequestUpdateSubscription) (k : ℕ) (e : Engine) (l : EngineNode.Locals) (p : ℕ)
    (r : RequestPrepare) (n : Nuzzle) (source d : ℕ)
    → on.action ≡ 1
    → IsConsistent e
    → clients e on.topic_id c ≡ []
    → entries e on.topic_id c ≡ 0
    → r.topic_id ≡ on.topic_id
    → IsBounded n
    → pending n (r.topic_id, r.global_id) ≡ 0
    → (e' : Engine) × (updates e c (replicate k on) ≡ some e')
      × (delivered d
            (r.topic_id, r.global_id)
            (receive_all n (arriving source (published_to c (on_prepare_receive l e' p r).1))).1
          ≡ quorums n.group_size k * count d (consumers n r.topic_id))
lone_engine_delivers c on k e l p r n source d subscribes v no_client no_entry same b none_yet =
    let (e', done, _, _, more) =
      on_all c 0 on subscribes (λ h. omega arith) e 0 k k (omega arith) v no_client in
    let sent : published_to c (on_prepare_receive l e' p r).1 ≡ replicate k (forward_of l r) =
      published_to-on_prepare_receive l e' p r c
      ∙ ap (λ j. replicate j (forward_of l r))
          (ap (λ t. entries e' t c) same ∙ more ∙ ground (arith, no_entry)) in
    let counted = copies-arriving source k (forward_of l r) in
    (
      e',
      done,
      rw (sent) (
          delivered-receive_all n (arriving source (replicate k (forward_of l r))) d
            (r.topic_id, r.global_id) b none_yet
          ∙ rw (counted) refl),
    )
