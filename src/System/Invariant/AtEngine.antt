-- ===== src/System/Invariant/AtEngine.antt =====
-- The arrival of a message at an engine, in the invariant.
use firehose.Base.{
  ℕ, ◌+◌, ◌≤◌, ◌≡◌, inl, inr, ap, ◌∙◌, subst, List, [], ◌∷◌, ◌++◌, map, some, arith, if◌then◌else◌,
  nat_beq, nat_beq_iff, Key, key_beq, key_beq_iff, sym, get, get_or, length, count, All, All-append,
  All-middle, All-mono, total-append, total-middle, update, nat_eq, key_eq, Bool-cases,
}
use firehose.Api.{RequestPrepare}
use firehose.Engine as EngineNode
use firehose.Engine.{Engine}
use firehose.Engine.Entries.{entries}
use firehose.Engine.Prepare.{entries-on_prepare_receive, message_buffer-on_prepare_receive}
use firehose.Nuzzle.{key_of}
use firehose.System.{System, Prepare, Copy, IsSingle, copies_of, to_nuzzle, after_prepare}
use firehose.System.Copies.{
  prepare_key, is_prepare, holds-on_prepare_receive, holds_le, is_copy, prepares_to, copies_on,
  holds, sources, copies_on-map,
}
use firehose.System.Invariant.{IsPrepared, IsPublished, Inv}
use firehose.System.Invariant.Contents.{IsHeld-mono, All-copies_of}

-- An engine receives a message of the pump.
module _ (g : ℕ) (s : System) (v : Inv g s) (l : EngineNode.Locals) (c : ℕ) (xs : List Prepare)
    (m : Prepare) (ys : List Prepare) (at : s.prepares ≡ xs ++ m ∷ ys) where
  abbrev pub after : ℕ → Engine
  after =
      update s.engines m.engine (EngineNode.on_prepare_receive l (s.engines m.engine) c m.message).0

  pub before :
      (e : ℕ) (k : Key) → prepares_to e k s.prepares ≡ is_prepare e k m + prepares_to e k (xs ++ ys)
  before e k = ap (prepares_to e k) at ∙ total-middle (is_prepare e k) xs m ys

  pub holds-after :
      (e : ℕ) (k : Key)
      → holds (after e) k ≡ (
          if nat_beq m.engine e
          then if key_beq (prepare_key m.message) k then 1 else holds (s.engines e) k
          else holds (s.engines e) k)
  holds-after e k =
      ground (
        arith,
        holds-on_prepare_receive l (s.engines m.engine) c m.message k,
        nat_beq_iff m.engine e,
      )

  holds-grows : (e : ℕ) (k : Key) → holds (s.engines e) k ≤ holds (after e) k
  holds-grows e k = ground (arith, holds-after e k, holds_le (s.engines e) k)

  IsSingle-after : (e : ℕ) → IsSingle (after e)
  IsSingle-after e topic nuzzle = ground (
    arith,
    v.single e topic nuzzle,
    v.single m.engine topic nuzzle,
    entries-on_prepare_receive l (s.engines m.engine) c m.message topic nuzzle,
  )

  stored-after :
      (e : ℕ) (k : Key) (r : RequestPrepare)
      → IsPrepared s.published m.message
      → get (after e).message_buffer k ≡ some r
      → IsPrepared s.published r
  stored-after e k r new h = elim (Bool-cases (nat_beq m.engine e)) [
    | inr other ↦ v.stored_ok e k r (rw (other) at h)
    | inl same ↦
        let was = message_buffer-on_prepare_receive l (s.engines m.engine) c m.message k in
        elim (Bool-cases (key_beq (prepare_key m.message) k)) [
          | inl it ↦ let is : m.message ≡ r = ground arith in subst (IsPrepared s.published) is new
          | inr another ↦ v.stored_ok m.engine k r (ground arith)
        ]
  ]

  keyed-after :
      (e : ℕ) (k : Key) (r : RequestPrepare)
      → get (after e).message_buffer k ≡ some r
      → prepare_key r ≡ k
  keyed-after e k r h = elim (Bool-cases (nat_beq m.engine e)) [
    | inr other ↦ v.keyed e k r (rw (other) at h)
    | inl same ↦
        let was = message_buffer-on_prepare_receive l (s.engines m.engine) c m.message k in
        elim (Bool-cases (key_beq (prepare_key m.message) k)) [
          | inl it ↦
              let is : m.message ≡ r = ground arith in
              ap prepare_key (sym is) ∙ (key_beq_iff (prepare_key m.message) k).0 it
          | inr another ↦ v.keyed m.engine k r (ground arith)
        ]
  ]

  once-after : (e : ℕ) (k : Key) → prepares_to e k (xs ++ ys) + holds (after e) k ≤ 1
  once-after e k = ground (arith, before e k, holds-after e k, v.once e k)

  fresh-after :
      (e : ℕ) (k : Key)
      → length s.published ≤ k.1
      → prepares_to e k (xs ++ ys) + holds (after e) k ≡ 0
  fresh-after e k h = ground (arith, before e k, holds-after e k, v.fresh e k h)

  abbrev pub nuzzles : List ℕ
  nuzzles = get_or (s.engines m.engine).subscriptions m.message.topic_id []

  abbrev pub sent : List Copy
  sent =
      copies_of m.engine
        (map (λ n. EngineNode.publish n (EngineNode.forward_of l m.message)) nuzzles)

  counted-after :
      (e n : ℕ) (k : Key)
      → copies_on e n k (s.copies ++ sent) + count e (sources (s.nuzzles n) k) ≤ holds (after e) k
  counted-after e n k =
      let one : count n nuzzles ≤ 1 = unfold entries in v.single m.engine m.message.topic_id n in
      ground (
        arith,
        total-append (is_copy e n k) s.copies sent,
        copies_on-map e n k m.engine (EngineNode.forward_of l m.message) nuzzles,
        one,
        before e k,
        holds-after e k,
        v.once e k,
        v.counted e n k,
      )

  -- The invariant after an engine has received a message of the pump.
  pub prepare-Inv : Inv g (after_prepare l c m (record s { prepares = xs ++ ys }))
  unfolding after_prepare EngineNode.on_prepare_receive copies_of to_nuzzle
  prepare-Inv =
      let (new, rest) =
        All-middle (λ (m : Prepare). IsPrepared s.published m.message) xs m ys
          (subst (All _) at v.prepares_ok) in
      record {
        seed = v.seed;
        linked = v.linked;
        group = v.group;
        single = IsSingle-after;
        prepares_ok = rest;
        stored_ok = λ e k r. stored-after e k r new;
        keyed = keyed-after;
        copies_ok = All-append _ s.copies _ v.copies_ok (
            All-copies_of (IsPublished s.published) m.engine (EngineNode.forward_of l m.message)
              nuzzles new);
        deliveries_ok = v.deliveries_ok;
        once = once-after;
        fresh = fresh-after;
        counted = counted-after;
        durable =
            All-mono _ _ s.deliveries
              (λ d.
                IsHeld-mono g s.engines after (key_of d.message)
                  (λ e. holds-grows e (key_of d.message)))
              v.durable;
      }
