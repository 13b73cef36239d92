-- ===== src/System/Once/Steps.antt =====
-- The steps other than the arrival of a copy, in the counts.
use firehose.Base.{
  ℕ, ◌+◌, ◌≤◌, ◌<◌, ◌≡◌, ap, ◌∙◌, List, ◌∷◌, ◌++◌, map, some, Key, count, length, total-append,
  total-middle, update, nat_eq, key_eq, arith, u64_mod,
}
use firehose.Api.{RequestPublish, RequestPrepare, RequestUpdateSubscription}
use firehose.Pump as PumpNode
use firehose.Engine as EngineNode
use firehose.Engine.{Engine}
use firehose.Engine.Durable.{message_buffer-update}
use firehose.Engine.Entries.{entries}
use firehose.Nuzzle as NuzzleNode
use firehose.Nuzzle.{Nuzzle, key_of, quorum}
use firehose.Nuzzle.Receive.{pending}
use firehose.System.{
  System, Prepare, Copy, prepares_of, copies_of, to_pump, after_publish, after_prepare,
}
use firehose.System.Copies.{
  prepare_key, is_prepare, prepares_to, is_copy, copies_on, holds, prepares_to-map, copies_on-map,
}
use firehose.System.Invariant.{Inv}
use firehose.System.Invariant.AtPump.{ap_key}
use firehose.System.Invariant.AtEngine as AtEngine
use firehose.System.Invariant.Changes.{kept-update}
use firehose.System.Once.{Once}

module _ (g : ℕ) (es : List ℕ) (s : System) (arrived : List Copy) (v : Inv g s)
    (o : Once g es s arrived) where
  pub publish-Once :
      (req : RequestPrepare) (c : ℕ) (r : RequestPublish)
      → length s.published < u64_mod
      → Once g es (after_publish req c r s) arrived
  unfolding after_publish PumpNode.on_publish_receive
  publish-Once req c r few =
      let q = PumpNode.prepare_of req s.pump.global_request_id_seed (to_pump r) in
      let conns = s.pump.engine_connections in
      record {
        linked = o.linked;
        member = λ e k. ground (
          arith,
          total-append (is_prepare e k) s.prepares
              (prepares_of (map (λ d. PumpNode.prepare d q) conns)),
          prepares_to-map e k q conns,
          o.linked e,
          o.member e k,
          v.fresh e k,
          v.seed,
          ap_key (prepare_key q) k,
        );
        apart = o.apart;
        counted = o.counted;
      }

  apart-prepare :
      (l : EngineNode.Locals) (c : ℕ) (xs : List Prepare) (m : Prepare) (ys : List Prepare)
      (at : s.prepares ≡ xs ++ m ∷ ys) (e n : ℕ) (k : Key)
      → copies_on e n k (s.copies ++ AtEngine.sent g s v l c xs m ys at) + copies_on e n k arrived
        ≤ holds (AtEngine.after g s v l c xs m ys at e) k
  apart-prepare l c xs m ys at e n k =
      let nuzzles = AtEngine.nuzzles g s v l c xs m ys at in
      let one : count n nuzzles ≤ 1 = unfold entries in v.single m.engine m.message.topic_id n in
      ground (
        arith,
        total-append (is_copy e n k) s.copies (AtEngine.sent g s v l c xs m ys at),
        copies_on-map e n k m.engine (EngineNode.forward_of l m.message) nuzzles,
        one,
        AtEngine.before g s v l c xs m ys at e k,
        AtEngine.holds-after g s v l c xs m ys at e k,
        v.once e k,
        o.apart e n k,
      )

  pub prepare-Once :
      (l : EngineNode.Locals) (c : ℕ) (xs : List Prepare) (m : Prepare) (ys : List Prepare)
      → s.prepares ≡ xs ++ m ∷ ys
      → Once g es (after_prepare l c m (record s { prepares = xs ++ ys })) arrived
  unfolding after_prepare EngineNode.on_prepare_receive copies_of
  prepare-Once l c xs m ys at =
      let before = AtEngine.before g s v l c xs m ys at in
      let holds-after = AtEngine.holds-after g s v l c xs m ys at in
      record {
        linked = o.linked;
        member = λ e k. ground (arith, before e k, holds-after e k, o.member e k);
        apart = apart-prepare l c xs m ys at;
        counted = o.counted;
      }

  pub lose_prepare-Once :
      (xs : List Prepare) (m : Prepare) (ys : List Prepare)
      → s.prepares ≡ xs ++ m ∷ ys
      → Once g es (record s { prepares = xs ++ ys }) arrived
  lose_prepare-Once xs m ys at =
      let before : (e : ℕ) (k : Key)
          → prepares_to e k s.prepares ≡ is_prepare e k m + prepares_to e k (xs ++ ys) =
        λ e k. ap (prepares_to e k) at ∙ total-middle (is_prepare e k) xs m ys in
      record {
        linked = o.linked;
        member = λ e k. omega (arith, o.member e k, before e k);
        apart = o.apart;
        counted = o.counted;
      }

  pub lose_copy-Once :
      (xs : List Copy) (m : Copy) (ys : List Copy)
      → s.copies ≡ xs ++ m ∷ ys
      → Once g es (record s { copies = xs ++ ys }) arrived
  lose_copy-Once xs m ys at =
      let before : (e n : ℕ) (k : Key)
          → copies_on e n k s.copies ≡ is_copy e n k m + copies_on e n k (xs ++ ys) =
        λ e n k. ap (copies_on e n k) at ∙ total-middle (is_copy e n k) xs m ys in
      record {
        linked = o.linked;
        member = o.member;
        apart = λ e n k. omega (arith, o.apart e n k, before e n k);
        counted = o.counted;
      }

  pub update_engine-Once :
      (e nuzzle : ℕ) (r : RequestUpdateSubscription) (after : Engine)
      → EngineNode.on_update_subscription_receive (s.engines e) nuzzle r ≡ some after
      → Once g es (record s { engines = update s.engines e after }) arrived
  update_engine-Once e nuzzle r after h =
      let kept = message_buffer-update (s.engines e) after nuzzle r h in
      let same : (j : ℕ) (k : Key) → holds (update s.engines e after j) k ≡ holds (s.engines j) k =
        λ j k. unfold holds in ground arith in
      record {
        linked = o.linked;
        member = λ j k. omega (arith, o.member j k, same j k);
        apart = λ j n k. omega (arith, o.apart j n k, same j k);
        counted = o.counted;
      }

  pub update_nuzzle-Once :
      (l : NuzzleNode.Locals) (n consumer : ℕ) (r : RequestUpdateSubscription) (after : Nuzzle)
      (sent : List NuzzleNode.Sent)
      → NuzzleNode.on_update_subscription_receive l (s.nuzzles n) consumer r ≡ some (after, sent)
      → Once g es (record s { nuzzles = update s.nuzzles n after }) arrived
  update_nuzzle-Once l n consumer r after sent h =
      let (buffer, group) = kept-update l (s.nuzzles n) consumer r after sent h in
      let same : (c : ℕ) (k : Key)
          → pending (update s.nuzzles n after c) k ≡ pending (s.nuzzles c) k =
        λ c k. unfold pending in ground arith in
      record {
        linked = o.linked;
        member = o.member;
        apart = o.apart;
        counted = λ c k. same c k ∙ o.counted c k;
      }
