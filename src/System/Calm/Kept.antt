-- ===== src/System/Calm/Kept.antt =====
-- What stays as it is on a run: the subscriptions, and the pump's connections to the engines.
use firehose.Base.{
  ℕ, ◌≤◌, ◌≡◌, refl, List, arith, nat_beq_iff, length, count, count-nil, nat_eq, key_eq,
}
use firehose.Pump as PumpNode
use firehose.Engine.Entries.{entries}
use firehose.Engine.Prepare.{entries-on_prepare_receive}
use firehose.Nuzzle.Receive.{consumers, IsBounded, consumers-on_publish_receive}
use firehose.System.{
  System, Step, publish, prepare, copy, lose_prepare, lose_copy, update_engine, update_nuzzle,
  Reach, start, later, after_publish, after_prepare, after_copy,
}
use firehose.System.Calm.{Arrival, arrive_prepare, arrive_copy}
use firehose.System.Invariant.Reached.{connect_pump-connects, length-after_publish}

-- The pump is connected to the engines of the list, to each as often as listed.
connections-kept : {s t : System} → Step s t → t.pump.engine_connections ≡ s.pump.engine_connections
unfolding after_publish after_prepare after_copy PumpNode.on_publish_receive
connections-kept (publish req c r) = refl
connections-kept (prepare l c xs m ys at) = refl
connections-kept (copy xs m ys at) = refl
connections-kept (lose_prepare xs m ys at) = refl
connections-kept (lose_copy xs m ys at) = refl
connections-kept (update_engine e n r after h one) = refl
connections-kept (update_nuzzle l n c r after sent h) = refl

pub connections-count :
    (g : ℕ) (es : List ℕ) {s : System} (e : ℕ)
    → Reach g es s
    → count e s.pump.engine_connections ≡ count e es
connections-count g es e start =
    let connects = connect_pump-connects (PumpNode.init 0 g) es e in
    omega (arith, connects.0, count-nil e)
connections-count g es e (later r step) = rw (connections-kept step) (connections-count g es e r)

-- The same entries at the engines and the same consumers at the nuzzles.
pub record Kept (s t : System) : Type 0 where
  pub entered : (e topic n : ℕ) → entries (t.engines e) topic n ≡ entries (s.engines e) topic n
  pub listed : (n topic : ℕ) → consumers (t.nuzzles n) topic ≡ consumers (s.nuzzles n) topic
  pub grown : length s.published ≤ length t.published

pub same-Kept : (s : System) → Kept s s
same-Kept s = record { entered = λ e t n. refl; listed = λ n t. refl; grown = omega arith }

pub publish-Kept :
    {s t : System} (req : _) (c : ℕ) (r : _) → Kept s t → Kept s (after_publish req c r t)
publish-Kept {t = t} req c r k = record {
  entered = unfold after_publish in k.entered;
  listed = unfold after_publish in k.listed;
  grown = omega (arith, k.grown, length-after_publish req c r t);
}

pub Arrival-Kept :
    {s t u : System} → ((n : ℕ) → IsBounded (t.nuzzles n)) → Kept s t → Arrival t u → Kept s u
unfolding after_prepare after_copy
Arrival-Kept {t = t} bounded k (arrive_prepare l c xs m ys at) = record {
  entered = λ e topic n. ground (
    arith,
    entries-on_prepare_receive l (t.engines m.engine) c m.message topic n,
    nat_beq_iff m.engine e,
    k.entered e topic n,
  );
  listed = k.listed;
  grown = k.grown;
}
Arrival-Kept {t = t} bounded k (arrive_copy xs m ys at) = record {
  entered = k.entered;
  listed = λ n topic. ground (
    arith,
    consumers-on_publish_receive (t.nuzzles m.nuzzle) m.engine m.message (bounded m.nuzzle) topic,
    nat_beq_iff m.nuzzle n,
    k.listed n topic,
  );
  grown = k.grown;
}
