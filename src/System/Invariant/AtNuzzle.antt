-- ===== src/System/Invariant/AtNuzzle.antt =====
-- The arrival of a copy at a nuzzle, in the invariant.
use firehose.Base.{
  ℕ, ◌+◌, ◌≤◌, ◌≡◌, inl, inr, ap, ◌∙◌, subst, List, ◌∷◌, ◌++◌, arith, Key, key_beq_iff, length,
  push_back, count, count-push_back, All, All-append, All-middle, All-mono, total-middle, update,
  nat_eq, key_eq,
}
use firehose.Nuzzle as NuzzleNode
use firehose.Nuzzle.{Nuzzle, key_of, quorum}
use firehose.System.{System, Copy, Delivery, deliveries_of, to_consumer, after_copy}
use firehose.System.Copies.{
  holds_le, is_copy, copies_on, holds, sources, sources-on_publish_receive, sent-on_publish_receive,
}
use firehose.System.Invariant.{IsPublished, IsHeld, Inv}
use firehose.System.Invariant.Contents.{All-deliveries_of}

-- A nuzzle receives a copy of an engine.
module _ (g : ℕ) (s : System) (v : Inv g s) (xs : List Copy) (m : Copy) (ys : List Copy)
    (at : s.copies ≡ xs ++ m ∷ ys) where
  abbrev n : Nuzzle
  n = s.nuzzles m.nuzzle

  abbrev result : Nuzzle × List NuzzleNode.Sent
  result = NuzzleNode.on_publish_receive n m.engine m.message

  abbrev pub after : ℕ → Nuzzle
  after = update s.nuzzles m.nuzzle result.0

  pub before :
      (e c : ℕ) (k : Key) → copies_on e c k s.copies ≡ is_copy e c k m + copies_on e c k (xs ++ ys)
  before e c k = ap (copies_on e c k) at ∙ total-middle (is_copy e c k) xs m ys

  group_size-on_publish_receive : result.0.group_size ≡ n.group_size
  unfolding NuzzleNode.on_publish_receive NuzzleNode.deliver_all
  group_size-on_publish_receive = ground arith

  counted-after :
      (e c : ℕ) (k : Key)
      → copies_on e c k (xs ++ ys) + count e (sources (after c) k) ≤ holds (s.engines e) k
  counted-after e c k =
      ground
        (arith, before e c k, sources-on_publish_receive n m.engine m.message k e, v.counted e c k)

  -- The engines that the nuzzle has noted, the one of the copy included.
  abbrev noted : List ℕ
  noted = push_back (sources n (key_of m.message)) m.engine

  noted_le : (e : ℕ) → count e noted ≤ holds (s.engines e) (key_of m.message)
  noted_le e = ground (
    arith,
    before e m.nuzzle (key_of m.message),
    v.counted e m.nuzzle (key_of m.message),
    count-push_back e m.engine (sources n (key_of m.message)),
    key_beq_iff (key_of m.message) (key_of m.message),
  )

  noted-IsHeld : quorum g ≤ length noted → IsHeld g s.engines (key_of m.message)
  noted-IsHeld h = record {
    storing = noted;
    enough = h;
    once = λ e. omega (arith, noted_le e, holds_le (s.engines e) (key_of m.message));
    stored = noted_le;
  }

  -- What the nuzzle sends to its consumers is the message of the copy, if it sends anything, and then
  -- a quorum stores it.
  delivered-after :
      IsPublished s.published m.message
      → All
          (λ (d : Delivery).
            IsPublished s.published d.message × IsHeld g s.engines (key_of d.message))
          (deliveries_of m.nuzzle result.1)
  unfolding to_consumer
  delivered-after new = elim (sent-on_publish_receive n m.engine m.message) [
    | inl nothing ↦ rw (nothing) (unfold deliveries_of in tt)
    | inr (consumers, is, full) ↦ rw (is) (
        All-deliveries_of (λ r. IsPublished s.published r × IsHeld g s.engines (key_of r)) m.nuzzle
          m.message consumers (new, noted-IsHeld (rw (v.group m.nuzzle) at full)))
  ]

  -- The invariant after a nuzzle has received a copy.
  pub copy-Inv : Inv g (after_copy m (record s { copies = xs ++ ys }))
  unfolding after_copy
  copy-Inv =
      let (new, rest) =
        All-middle (λ (m : Copy). IsPublished s.published m.message) xs m ys
          (subst (All _) at v.copies_ok) in
      let sent = delivered-after new in
      record {
        seed = v.seed;
        linked = v.linked;
        group = λ c. ground (arith, v.group c, v.group m.nuzzle, group_size-on_publish_receive);
        single = v.single;
        prepares_ok = v.prepares_ok;
        stored_ok = v.stored_ok;
        keyed = v.keyed;
        copies_ok = rest;
        deliveries_ok =
            All-append _ s.deliveries _ v.deliveries_ok (All-mono _ _ _ (λ d p. p.0) sent);
        once = v.once;
        fresh = v.fresh;
        counted = counted-after;
        durable = All-append _ s.deliveries _ v.durable (All-mono _ _ _ (λ d p. p.1) sent);
      }
