-- ===== src/System/Invariant/Contents.antt =====
-- What is on the way or was published, item by item.
use firehose.Base.{
  ℕ, zero, suc, ◌≤◌, ◌≡◌, refl, List, [], ◌∷◌, map, some, arith, Key, length, get_elem?, push_back,
  All, nat_eq, key_eq,
}
use firehose.Api.{Bytes, RequestPublish, RequestPrepare}
use firehose.Pump as PumpNode
use firehose.Engine as EngineNode
use firehose.Engine.{Engine}
use firehose.Nuzzle as NuzzleNode
use firehose.Nuzzle.{Nuzzle, key_of, quorum}
use firehose.System.{
  Prepare, Copy, Delivery, prepares_of, copies_of, deliveries_of, to_engine, to_nuzzle, to_consumer,
}
use firehose.System.Copies.{holds}
use firehose.System.Invariant.{Publishes, IsHeld}

pub get_elem?-push_back {ℓ} :
    {A : Type ℓ} (xs : List A) (y : A) (i : ℕ) {x : A}
    → get_elem? xs i ≡ some x
    → get_elem? (push_back xs y) i ≡ some x
get_elem?-push_back [] y i h = absurd cc
get_elem?-push_back (z ∷ xs) y zero h = h
get_elem?-push_back (z ∷ xs) y (suc i) h = get_elem?-push_back xs y i h

pub get_elem?-last {ℓ} :
    {A : Type ℓ} (xs : List A) (y : A) → get_elem? (push_back xs y) (length xs) ≡ some y
get_elem?-last [] y = refl
get_elem?-last (z ∷ xs) y = get_elem?-last xs y

-- What was published stays so.
pub Publishes-push_back :
    (rs : List RequestPublish) (r : RequestPublish) (number topic timestamp : ℕ) (message : Bytes)
    → Publishes rs number topic timestamp message
    → Publishes (push_back rs r) number topic timestamp message
Publishes-push_back rs r number topic timestamp message p = record {
  request = p.request;
  numbered = get_elem?-push_back rs r number p.numbered;
  topic_is = p.topic_is;
  timestamp_is = p.timestamp_is;
  message_is = p.message_is;
}

pub All-prepares_of :
    (P : RequestPrepare → Type 0) (r : RequestPrepare) (ds : List ℕ)
    → P (to_engine r)
    → All (λ (m : Prepare). P m.message) (prepares_of (map (λ d. PumpNode.prepare d r) ds))
unfolding prepares_of
All-prepares_of P r [] p = tt
All-prepares_of P r (d ∷ ds) p = (p, All-prepares_of P r ds p)

pub All-copies_of :
    (P : RequestPublish → Type 0) (e : ℕ) (r : RequestPublish) (ns : List ℕ)
    → P (to_nuzzle r)
    → All (λ (m : Copy). P m.message) (copies_of e (map (λ n. EngineNode.publish n r) ns))
unfolding copies_of
All-copies_of P e r [] p = tt
All-copies_of P e r (n ∷ ns) p = (p, All-copies_of P e r ns p)

pub All-deliveries_of :
    (P : RequestPublish → Type 0) (n : ℕ) (r : RequestPublish) (cs : List ℕ)
    → P (to_consumer r)
    → All (λ (m : Delivery). P m.message) (deliveries_of n (map (λ c. NuzzleNode.deliver c r) cs))
unfolding deliveries_of
All-deliveries_of P n r [] p = tt
All-deliveries_of P n r (c ∷ cs) p = (p, All-deliveries_of P n r cs p)

-- What is stored durably stays so while the engines forget nothing.
pub IsHeld-mono :
    (g : ℕ) (before after : ℕ → Engine) (k : Key)
    → ((e : ℕ) → holds (before e) k ≤ holds (after e) k)
    → IsHeld g before k
    → IsHeld g after k
IsHeld-mono g before after k more d = record {
  storing = d.storing;
  enough = d.enough;
  once = d.once;
  stored = λ e. omega (arith, d.stored e, more e);
}
