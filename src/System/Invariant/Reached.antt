-- ===== src/System/Invariant/Reached.antt =====
-- The states that a system reaches.
use firehose.Base.{
  ℕ, ◌+◌, ◌≤◌, ◌≡◌, refl, List, [], ◌∷◌, arith, Key, get, length, count, count-push_back, count-nil,
  count-cons, get-empty, empty, find_in, get_or, total, u64_mod, nat_eq, key_eq, length-push_back,
}
use firehose.Api.{RequestPublish, RequestPrepare}
use firehose.Pump.{Pump}
use firehose.Pump as PumpNode
use firehose.Engine as EngineNode
use firehose.Engine.{Engine}
use firehose.Engine.Entries.{entries}
use firehose.Programs.NodeMains.{connect_pump}
use firehose.Nuzzle as NuzzleNode
use firehose.Nuzzle.{Nuzzle, key_of, quorum}
use firehose.System.{
  init, Step, publish, prepare, copy, lose_prepare, lose_copy, update_engine, update_nuzzle, Reach,
  start, later, System, after_publish, after_prepare, after_copy,
}
use firehose.System.Copies.{holds, sources}
use firehose.System.Invariant.{Inv}
use firehose.System.Invariant.AtPump.{publish-Inv}
use firehose.System.Invariant.AtEngine.{prepare-Inv}
use firehose.System.Invariant.AtNuzzle.{copy-Inv}
use firehose.System.Invariant.Changes.{
  update_engine-Inv, update_nuzzle-Inv, lose_prepare-Inv, lose_copy-Inv,
}

pub connect_pump-connects :
    (p : Pump) (es : List ℕ) (e : ℕ)
    → (count e (connect_pump p es).engine_connections ≡ count e p.engine_connections + count e es)
      × ((connect_pump p es).global_request_id_seed ≡ p.global_request_id_seed)
unfolding PumpNode.connect_to_engine
connect_pump-connects p [] e = (omega (arith, count-nil e), refl)
connect_pump-connects p (d ∷ es) e =
    let (counted, seed) = connect_pump-connects (PumpNode.connect_to_engine p d) es e in
    (omega (arith, counted, count-push_back e d p.engine_connections, count-cons e d es), seed)

module _ (e g : ℕ) where
  pub holds-init : (k : Key) → holds (EngineNode.init e g) k ≡ 0
  unfolding holds get empty find_in
  holds-init k = refl

  pub entries-init : (t n : ℕ) → entries (EngineNode.init e g) t n ≡ 0
  unfolding entries get_or get empty find_in count
  entries-init t n = refl

  sources-init : (k : Key) → sources (NuzzleNode.init e g) k ≡ []
  unfolding sources get_or get empty find_in
  sources-init k = refl

-- The invariant at the start.
init-Inv : (g : ℕ) (es : List ℕ) → ((e : ℕ) → count e es ≤ 1) → Inv g (init g es)
init-Inv g es distinct =
    let linked = connect_pump-connects (PumpNode.init 0 g) es in
    record {
      seed = (linked 0).1;
      linked = λ e. omega (arith, (linked e).0, distinct e, count-nil e);
      group = λ n. refl;
      single = λ e t n. omega (arith, entries-init e g t n);
      prepares_ok = tt;
      stored_ok = λ e k m at. absurd (let no = get-empty {V = RequestPrepare} k in cc);
      keyed = λ e k m at. absurd (let no = get-empty {V = RequestPrepare} k in cc);
      copies_ok = tt;
      deliveries_ok = tt;
      once = λ e k. unfold total in omega (arith, holds-init e g k);
      fresh = λ e k h. unfold total in omega (arith, holds-init e g k);
      counted = λ e n k. unfold total in rw (sources-init n g k) (omega (arith, count-nil e));
      durable = tt;
    }

pub length-after_publish :
    (req : RequestPrepare) (c : ℕ) (r : RequestPublish) (s : System)
    → length (after_publish req c r s).published ≡ length s.published + 1
unfolding after_publish
length-after_publish req c r s = length-push_back s.published r

-- No step forgets a published request.
pub Step-published : {s t : System} → Step s t → length s.published ≤ length t.published
Step-published {s = s} (publish req c r) = omega (arith, length-after_publish req c r s)
Step-published (prepare l c xs m ys at) = unfold after_prepare in omega arith
Step-published (copy xs m ys at) = unfold after_copy in omega arith
Step-published (lose_prepare xs m ys at) = omega arith
Step-published (lose_copy xs m ys at) = omega arith
Step-published (update_engine e n r after h one) = omega arith
Step-published (update_nuzzle l n c r after sent h) = omega arith

-- Each step keeps the invariant, as long as the pump's numbers have not been used up.
pub Step-Inv : (g : ℕ) {s t : System} → Inv g s → Step s t → length t.published ≤ u64_mod → Inv g t
Step-Inv g {s = s} v (publish req c r) few =
    publish-Inv g s v req c r (omega (arith, length-after_publish req c r s))
Step-Inv g {s = s} v (prepare l c xs m ys at) few = prepare-Inv g s v l c xs m ys at
Step-Inv g {s = s} v (copy xs m ys at) few = copy-Inv g s v xs m ys at
Step-Inv g {s = s} v (lose_prepare xs m ys at) few = lose_prepare-Inv g s v xs m ys at
Step-Inv g {s = s} v (lose_copy xs m ys at) few = lose_copy-Inv g s v xs m ys at
Step-Inv g {s = s} v (update_engine e n r after h one) few =
    update_engine-Inv g s v e n r after h one
Step-Inv g {s = s} v (update_nuzzle l n c r after sent h) few =
    update_nuzzle-Inv g s v l n c r after sent h

-- The invariant holds in every state that a system of different engines reaches before the pump's
-- numbers have been used up.
pub Reach-Inv :
    (g : ℕ) (es : List ℕ) {s : System}
    → ((e : ℕ) → count e es ≤ 1)
    → Reach g es s
    → length s.published ≤ u64_mod
    → Inv g s
Reach-Inv g es distinct start few = init-Inv g es distinct
Reach-Inv g es distinct (later r step) few =
    Step-Inv g (Reach-Inv g es distinct r (omega (arith, Step-published step))) step few
