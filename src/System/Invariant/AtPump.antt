-- ===== src/System/Invariant/AtPump.antt =====
-- The arrival of a publication at the pump, in the invariant.
use firehose.Base.{
  ℕ, ◌<◌, ◌≡◌, refl, ap, ◌∙◌, map, arith, Key, key_beq, key_beq_iff, true, length, get_elem?,
  push_back, All-append, All-mono, total-append, u64_mod, nat_eq, key_eq, length-push_back,
}
use firehose.Api.{Bytes, RequestPublish, RequestPrepare}
use firehose.Pump as PumpNode
use firehose.System.{System, Prepare, prepares_of, to_pump, to_engine, after_publish}
use firehose.System.Copies.{prepare_key, is_prepare, prepares_to-map}
use firehose.System.Invariant.{IsPrepared, Inv}
use firehose.System.Invariant.Contents.{Publishes-push_back, All-prepares_of, get_elem?-last}

-- Equal keys have equal numbers.
pub ap_key : (j k : Key) → key_beq j k ≡ true → j.1 ≡ k.1
ap_key j k h = ap (λ (k : Key). k.1) ((key_beq_iff j k).0 h)

module _ (g : ℕ) (s : System) (v : Inv g s) where
  pub publish-Inv :
      (req : RequestPrepare) (c : ℕ) (r : RequestPublish)
      → length s.published < u64_mod
      → Inv g (after_publish req c r s)
  unfolding after_publish PumpNode.on_publish_receive
  publish-Inv req c r few =
      let rs = push_back s.published r in
      let number = s.pump.global_request_id_seed in
      let is : number ≡ length s.published = omega (arith, v.seed) in
      let q = PumpNode.prepare_of req number (to_pump r) in
      let new : IsPrepared rs (to_engine q) =
        unfold to_engine to_pump in
        record {
          request = r;
          numbered = ap (get_elem? rs) is ∙ get_elem?-last s.published r;
          topic_is = refl;
          timestamp_is = refl;
          message_is = refl;
        } in
      let old = λ (n t ts : ℕ) (m : Bytes). Publishes-push_back s.published r n t ts m in
      record {
        seed = omega (arith, v.seed, length-push_back s.published r);
        linked = v.linked;
        group = v.group;
        single = v.single;
        prepares_ok =
            All-append (λ (m : Prepare). IsPrepared rs m.message) s.prepares _
              (All-mono _ _ s.prepares (λ m. old _ _ _ _) v.prepares_ok)
              (All-prepares_of (IsPrepared rs) q s.pump.engine_connections new);
        stored_ok = λ e k m at. old _ _ _ _ (v.stored_ok e k m at);
        keyed = v.keyed;
        copies_ok = All-mono _ _ s.copies (λ m. old _ _ _ _) v.copies_ok;
        deliveries_ok = All-mono _ _ s.deliveries (λ m. old _ _ _ _) v.deliveries_ok;
        once = λ e k. ground (
          arith,
          total-append (is_prepare e k) s.prepares
              (prepares_of (map (λ d. PumpNode.prepare d q) s.pump.engine_connections)),
          prepares_to-map e k q s.pump.engine_connections,
          v.linked e,
          v.once e k,
          v.fresh e k,
          ap_key (prepare_key q) k,
        );
        fresh = λ e k new. ground (
          arith,
          total-append (is_prepare e k) s.prepares
              (prepares_of (map (λ d. PumpNode.prepare d q) s.pump.engine_connections)),
          prepares_to-map e k q s.pump.engine_connections,
          v.fresh e k,
          length-push_back s.published r,
          ap_key (prepare_key q) k,
        );
        counted = v.counted;
        durable = v.durable;
      }
