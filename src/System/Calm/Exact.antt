-- ===== src/System/Calm/Exact.antt =====
-- On a run without losses the counts are exact, for the messages that are published on the run.
use firehose.Base.{
  ℕ, zero, suc, ◌+◌, ◌≤◌, ◌<◌, ◌≡◌, refl, List, [], ◌∷◌, ◌++◌, map, none, some, Bool, false,
  if◌then◌else◌, nat_beq, leb, Key, count, length, get_elem?, push_back, total, total-append,
  nat_eq, key_eq, nat_beq_iff, arith, u16_mod, u64_mod,
}
use firehose.Api.{RequestPublish, RequestPrepare}
use firehose.Pump as PumpNode
use firehose.Engine as EngineNode
use firehose.Engine.Entries.{entries}
use firehose.Nuzzle.{quorum}
use firehose.Nuzzle.Receive.{consumers}
use firehose.System.{
  System, Prepare, Copy, prepares_of, copies_of, to_pump, after_publish, after_prepare, after_copy,
}
use firehose.System.Copies.{
  is_prepare, prepares_to, is_copy, copies_on, holds, prepares_to-map, copies_on-map,
}
use firehose.System.Invariant.{Inv}
use firehose.System.Invariant.AtEngine as AtEngine
use firehose.System.Invariant.AtNuzzle as AtNuzzle
use firehose.System.Once.{Once, arrivals, delivered_to}
use firehose.System.Once.AtNuzzle as OnceAtNuzzle
use firehose.System.Calm.Kept.{Kept}

-- A request of that number has been published, and under that topic.
abbrev pub is_published : List RequestPublish → Key → Bool
is_published rs k = elim (get_elem? rs k.1) [ none ↦ false | some r ↦ nat_beq r.topic_id k.0 ]

-- Each engine has each message on the way to it or stored; from a storing engine a copy for each entry
-- is on the way or has arrived; and what a nuzzle delivers is decided by the arrivals.
pub record Exact (g : ℕ) (es : List ℕ) (s₀ s : System) (arrived : List Copy) : Type 0 where
  pub member :
      (e : ℕ) (k : Key)
      → length s₀.published ≤ k.1
      → prepares_to e k s.prepares + holds (s.engines e) k
        ≡ (if is_published s.published k then count e es else 0)
  pub apart :
      (e n : ℕ) (k : Key)
      → length s₀.published ≤ k.1
      → copies_on e n k s.copies + copies_on e n k arrived
        ≡ (if nat_beq (holds (s.engines e) k) 1 then entries (s₀.engines e) k.0 n else 0)
  pub delivered :
      (n c : ℕ) (k : Key)
      → length s₀.published ≤ k.1
      → delivered_to n c k s.deliveries ≡ (
          if leb (quorum g) (arrivals n k arrived)
          then count c (consumers (s₀.nuzzles n) k.0)
          else 0)

get_elem?-push_back {ℓ} :
    {A : Type ℓ} (xs : List A) (y : A) (i : ℕ)
    → get_elem? (push_back xs y) i ≡ (if nat_beq i (length xs) then some y else get_elem? xs i)
get_elem?-push_back [] y zero = refl
get_elem?-push_back [] y (suc i) = ground arith
get_elem?-push_back (x ∷ xs) y zero = ground arith
get_elem?-push_back (x ∷ xs) y (suc i) = ground (arith, get_elem?-push_back xs y i)

pub get_elem?-length {ℓ} :
    {A : Type ℓ} (xs : List A) (i : ℕ) → length xs ≤ i → get_elem? xs i ≡ none
get_elem?-length [] i h = refl
get_elem?-length (x ∷ xs) zero h = absurd (omega arith)
get_elem?-length (x ∷ xs) (suc i) h = get_elem?-length xs i (omega arith)

module _ (g : ℕ) (es : List ℕ) (s₀ s : System) (arrived : List Copy) (v : Inv g s)
    (kept : Kept s₀ s) (x : Exact g es s₀ s arrived) where
  pub publish-Exact :
      (req : RequestPrepare) (c : ℕ) (r : RequestPublish)
      → ((e : ℕ) → count e s.pump.engine_connections ≡ count e es)
      → length s.published < u64_mod
      → Exact g es s₀ (after_publish req c r s) arrived
  unfolding after_publish PumpNode.on_publish_receive to_pump
  publish-Exact req c r linked few =
      let q = PumpNode.prepare_of req s.pump.global_request_id_seed (to_pump r) in
      let conns = s.pump.engine_connections in
      record {
        member = λ e k later. ground (
          arith,
          total-append (is_prepare e k) s.prepares
              (prepares_of (map (λ d. PumpNode.prepare d q) conns)),
          prepares_to-map e k q conns,
          linked e,
          x.member e k later,
          v.fresh e k,
          v.seed,
          get_elem?-push_back s.published r k.1,
        );
        apart = x.apart;
        delivered = x.delivered;
      }

  apart-prepare :
      (l : EngineNode.Locals) (c : ℕ) (xs : List Prepare) (m : Prepare) (ys : List Prepare)
      (at : s.prepares ≡ xs ++ m ∷ ys) (e n : ℕ) (k : Key)
      → length s₀.published ≤ k.1
      → copies_on e n k (s.copies ++ AtEngine.sent g s v l c xs m ys at) + copies_on e n k arrived
        ≡ (if nat_beq (holds (AtEngine.after g s v l c xs m ys at e) k) 1
            then entries (s₀.engines e) k.0 n
            else 0)
  apart-prepare l c xs m ys at e n k later =
      let nuzzles = AtEngine.nuzzles g s v l c xs m ys at in
      let all : count n nuzzles ≡ entries (s₀.engines m.engine) m.message.topic_id n =
        unfold entries in kept.entered m.engine m.message.topic_id n in
      ground (
        arith,
        total-append (is_copy e n k) s.copies (AtEngine.sent g s v l c xs m ys at),
        copies_on-map e n k m.engine (EngineNode.forward_of l m.message) nuzzles,
        all,
        AtEngine.before g s v l c xs m ys at e k,
        AtEngine.holds-after g s v l c xs m ys at e k,
        v.once e k,
        x.apart e n k later,
        nat_beq_iff m.engine e,
      )

  pub prepare-Exact :
      (l : EngineNode.Locals) (c : ℕ) (xs : List Prepare) (m : Prepare) (ys : List Prepare)
      → s.prepares ≡ xs ++ m ∷ ys
      → Exact g es s₀ (after_prepare l c m (record s { prepares = xs ++ ys })) arrived
  unfolding after_prepare EngineNode.on_prepare_receive copies_of
  prepare-Exact l c xs m ys at =
      let before = AtEngine.before g s v l c xs m ys at in
      let holds-after = AtEngine.holds-after g s v l c xs m ys at in
      record {
        member = λ e k later.
            ground (arith, before e k, holds-after e k, v.once e k, x.member e k later);
        apart = apart-prepare l c xs m ys at;
        delivered = x.delivered;
      }

  pub copy-Exact :
      Once g es s arrived
      → 0 < g
      → g < u16_mod
      → length es ≤ g
      → (xs : List Copy) (m : Copy) (ys : List Copy) → s.copies ≡ xs ++ m ∷ ys
      → Exact g es s₀ (after_copy m (record s { copies = xs ++ ys })) (m ∷ arrived)
  unfolding after_copy
  copy-Exact o some_engine in_range few xs m ys at = record {
    member = x.member;
    apart = λ e n k later.
        unfold total in omega (arith, AtNuzzle.before g s v xs m ys at e n k, x.apart e n k later);
    delivered = λ n c k later. ground (
      arith,
      OnceAtNuzzle.delivered-copy g es s arrived v o some_engine in_range few xs m ys at n c k,
      OnceAtNuzzle.arrivals-now g es s arrived v o some_engine in_range few xs m ys at n k,
      x.delivered n c k later,
      kept.listed m.nuzzle m.message.topic_id,
      nat_beq_iff m.nuzzle n,
    );
  }
