-- ===== src/System/Calm/Settled.antt =====
-- What has been delivered when a run without losses has come to rest.
use firehose.Base.{
  ℕ, ◌≤◌, ◌<◌, ◌≡◌, refl, ap, sym, List, [], ◌∷◌, some, if◌then◌else◌, leb, ltb, true, Key,
  key_beq_iff, All, count, count-nil, count-cons, length, get_elem?, total, nat_eq, key_eq, arith,
  u16_mod, u64_mod,
}
use firehose.Api.{RequestPublish}
use firehose.Engine.Entries.{entries}
use firehose.Nuzzle.{key_of, quorum}
use firehose.Nuzzle.Receive.{consumers}
use firehose.System.{System, Copy, Delivery, Reach, later, publish, prepare, copy}
use firehose.System.Copies.{copies_on, prepares_to}
use firehose.System.Invariant.{IsPublished, Inv}
use firehose.System.Invariant.Reached.{Reach-Inv, length-after_publish, Step-published}
use firehose.System.Once.{Once, arrivals, delivered_to}
use firehose.System.Once.Counts.{arrivals_le, arrivals_eq}
use firehose.System.Once.AtNuzzle.{Once-IsBounded}
use firehose.System.Once.Bound.{Reach-Once}
use firehose.System.Calm.{
  Arrival, arrive_prepare, arrive_copy, Arrival-Step, Run, stay, then_published, then_arrived,
  IsSettled,
}
use firehose.System.Calm.Kept.{Kept, connections-count, same-Kept, publish-Kept, Arrival-Kept}
use firehose.System.Calm.Exact.{
  Exact, is_published, get_elem?-length, publish-Exact, prepare-Exact, copy-Exact,
}
use firehose.System.Once.Steps.{publish-Once, prepare-Once}
use firehose.System.Once.AtNuzzle.{copy-Once}

-- Nothing has been delivered under a number that no request has.
no_delivery :
    (rs : List RequestPublish) (n c : ℕ) (k : Key) (ds : List Delivery)
    → All (λ (d : Delivery). IsPublished rs d.message) ds
    → length rs ≤ k.1
    → delivered_to n c k ds ≡ 0
unfolding total
no_delivery rs n c k [] a new = refl
no_delivery rs n c k (d ∷ ds) a new =
    let numbered = a.0.numbered in
    let other : key_of d.message ≡ k → d.message.global_id ≡ k.1 = ap (λ (k : Key). k.1) in
    ground (
      arith,
      no_delivery rs n c k ds a.1 new,
      get_elem?-length rs d.message.global_id,
      numbered,
      other,
      key_beq_iff (key_of d.message) k,
    )

start-Exact :
    (g : ℕ) (es : List ℕ) (s : System) (arrived : List Copy)
    → Inv g s
    → Once g es s arrived
    → Exact g es s s arrived
start-Exact g es s arrived v o = record {
  member = λ e k new. ground (arith, v.fresh e k new, get_elem?-length s.published k.1 new);
  apart = λ e n k new. ground (arith, v.fresh e k new, o.apart e n k);
  delivered = λ n c k new.
      let few =
        arrivals_le [] n k arrived
          (λ e. omega (arith, v.fresh e k new, o.apart e n k, count-nil e)) in
      ground (arith, few, no_delivery s.published n c k s.deliveries v.deliveries_ok new);
}

-- The engines of the list that list the nuzzle under the topic.
unfoldable pub subscribed_engines : System → ℕ → ℕ → List ℕ → List ℕ
subscribed_engines s n topic [] = []
subscribed_engines s n topic (e ∷ es) =
    let rest = subscribed_engines s n topic es in
    if ltb 0 (entries (s.engines e) topic n) then e ∷ rest else rest

count-subscribed_engines :
    (s : System) (n topic : ℕ) (es : List ℕ) (e : ℕ)
    → count e (subscribed_engines s n topic es)
      ≡ (if ltb 0 (entries (s.engines e) topic n) then count e es else 0)
unfolding subscribed_engines
count-subscribed_engines s n topic [] e = ground (arith, count-nil e)
count-subscribed_engines s n topic (d ∷ es) e = ground (
  arith,
  count-subscribed_engines s n topic es e,
  count-cons e d es,
  count-cons e d (subscribed_engines s n topic es),
)

module _ (g : ℕ) (es : List ℕ) (some_engine : 0 < g) (in_range : g < u16_mod) (few : length es ≤ g)
    (distinct : (e : ℕ) → count e es ≤ 1) where
  -- What is known of a state of a run.
  record Known (s₀ s : System) : Type 0 where
    reached : Reach g es s
    copies : List Copy
    once : Once g es s copies
    exact : Exact g es s₀ s copies
    kept : Kept s₀ s

  Arrival-Known :
      {s₀ s t : System} → Known s₀ s → length s.published ≤ u64_mod → Arrival s t → Known s₀ t
  Arrival-Known {s₀ = s₀} {s = s} w room (arrive_prepare l c xs m ys at) =
      let v = Reach-Inv g es distinct w.reached room in
      let bounded = Once-IsBounded g es s w.copies v w.once some_engine in_range in
      record {
        reached = later w.reached (prepare l c xs m ys at);
        copies = w.copies;
        once = prepare-Once g es s w.copies v w.once l c xs m ys at;
        exact = prepare-Exact g es s₀ s w.copies v w.kept w.exact l c xs m ys at;
        kept = Arrival-Kept bounded w.kept (arrive_prepare l c xs m ys at);
      }
  Arrival-Known {s₀ = s₀} {s = s} w room (arrive_copy xs m ys at) =
      let v = Reach-Inv g es distinct w.reached room in
      let bounded = Once-IsBounded g es s w.copies v w.once some_engine in_range in
      record {
        reached = later w.reached (copy xs m ys at);
        copies = m ∷ w.copies;
        once = copy-Once g es s w.copies v w.once some_engine in_range few xs m ys at;
        exact =
            copy-Exact g es s₀ s w.copies v w.kept w.exact w.once some_engine in_range few xs m ys
              at;
        kept = Arrival-Kept bounded w.kept (arrive_copy xs m ys at);
      }

  Run-Known : {s₀ s : System} → Reach g es s₀ → Run s₀ s → length s.published ≤ u64_mod → Known s₀ s
  Run-Known {s₀ = s₀} r stay room =
      let (copies, o, rounds) = Reach-Once g es some_engine in_range few distinct r room in
      record {
        reached = r;
        copies = copies;
        once = o;
        exact = start-Exact g es s₀ copies (Reach-Inv g es distinct r room) o;
        kept = same-Kept s₀;
      }
  Run-Known {s₀ = s₀} r (then_published {t = t} req c x before) room =
      let less : length t.published < u64_mod =
        omega (arith, room, length-after_publish req c x t) in
      let w = Run-Known r before (omega (arith, less)) in
      let v = Reach-Inv g es distinct w.reached (omega (arith, less)) in
      let linked = λ (e : ℕ). connections-count g es e w.reached in
      record {
        reached = later w.reached (publish req c x);
        copies = w.copies;
        once = publish-Once g es t w.copies v w.once req c x less;
        exact = publish-Exact g es s₀ t w.copies v w.kept w.exact req c x linked less;
        kept = publish-Kept req c x w.kept;
      }
  Run-Known r (then_arrived {t = t} before a) room =
      let room' : length t.published ≤ u64_mod =
        omega (arith, room, Step-published (Arrival-Step a)) in
      Arrival-Known (Run-Known r before room') room' a

  -- The copies of a request that have arrived at a nuzzle, when no message is on the way.
  arrivals-Known :
      {s₀ s : System} (w : Known s₀ s)
      → length s.published ≤ u64_mod
      → IsSettled s
      → (n : ℕ) (k : Key) → length s₀.published ≤ k.1
      → is_published s.published k ≡ true
      → arrivals n k w.copies ≡ length (subscribed_engines s₀ n k.0 es)
  arrivals-Known {s₀ = s₀} {s = s} w room still n k new is =
      arrivals_eq (subscribed_engines s₀ n k.0 es) n k w.copies (λ e.
        let no_prepare : prepares_to e k s.prepares ≡ 0 =
          rw (still.no_prepare) (unfold total in refl) in
        let no_copy : copies_on e n k s.copies ≡ 0 = rw (still.no_copy) (unfold total in refl) in
        ground (
          arith,
          no_prepare,
          no_copy,
          w.exact.member e k new,
          w.exact.apart e n k new,
          count-subscribed_engines s₀ n k.0 es e,
          distinct e,
          (Reach-Inv g es distinct w.reached room).single e k.0 n,
          w.kept.entered e k.0 n,
        ))

  -- If the group size is not 0 and has 16 bits, and the engines are at most as many, with different
  -- addresses, and never list a nuzzle twice under a topic, then on a run that starts in any reached state, whatever is on the way in it, and in
  -- which requests are published and messages arrive, in any order, but no message is lost and no
  -- subscription changes, once no message is on the way and before more than 2^64 requests have been
  -- published, each request published on the run has been delivered by each nuzzle to each consumer
  -- exactly as often as the nuzzle lists the consumer under the topic of the request, if the engines
  -- that list the nuzzle under it are a quorum or more, and not at all otherwise.
  pub delivered_exactly :
      {s₀ s : System} (n c i : ℕ) (r : RequestPublish)
      → Reach g es s₀
      → Run s₀ s
      → length s.published ≤ u64_mod
      → IsSettled s
      → length s₀.published ≤ i
      → get_elem? s.published i ≡ some r
      → delivered_to n c (r.topic_id, i) s.deliveries ≡ (
          if leb (quorum g) (length (subscribed_engines s₀ n r.topic_id es))
          then count c (consumers (s₀.nuzzles n) r.topic_id)
          else 0)
  delivered_exactly {s₀ = s₀} {s = s} n c i r reached run room still new at =
      let k : Key = (r.topic_id, i) in
      let w = Run-Known reached run room in
      let is : is_published s.published k ≡ true = ground (arith, at) in
      rw (sym (arrivals-Known w room still n k new is)) (w.exact.delivered n c k new)
