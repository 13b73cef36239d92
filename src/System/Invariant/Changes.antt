-- ===== src/System/Invariant/Changes.antt =====
-- Updates of subscriptions, and the loss of messages, in the invariant.
use firehose.Base.{
  ℕ, ◌+◌, ◌≡◌, inl, inr, ap, ◌∙◌, subst, List, ◌∷◌, ◌++◌, some, arith, nat_beq, Key, get, All,
  All-middle, All-mono, total-middle, update, nat_eq, key_eq, Bool-cases,
}
use firehose.Api.{RequestPrepare, RequestUpdateSubscription}
use firehose.Engine as EngineNode
use firehose.Engine.{Engine}
use firehose.Engine.Durable.{message_buffer-update}
use firehose.Nuzzle as NuzzleNode
use firehose.Nuzzle.{Nuzzle, key_of, quorum}
use firehose.System.{System, Prepare, Copy, IsSingle}
use firehose.System.Copies.{
  prepare_key, is_prepare, is_copy, prepares_to, copies_on, holds, sources,
}
use firehose.System.Invariant.{IsPrepared, Inv}
use firehose.System.Invariant.Contents.{IsHeld-mono}

-- What an update leaves as it is.
pub kept-update :
    (l : NuzzleNode.Locals) (n : Nuzzle) (c : ℕ) (r : RequestUpdateSubscription) (n' : Nuzzle)
    (sent : List NuzzleNode.Sent)
    → NuzzleNode.on_update_subscription_receive l n c r ≡ some (n', sent)
    → (n'.message_buffer ≡ n.message_buffer) × (n'.group_size ≡ n.group_size)
unfolding NuzzleNode.on_update_subscription_receive NuzzleNode.subscribe NuzzleNode.unsubscribe
kept-update l n c r n' sent h = ground arith

module _ (g : ℕ) (s : System) (v : Inv g s) where
  -- The invariant after an engine has updated a subscription.
  pub update_engine-Inv :
      (e nuzzle : ℕ) (r : RequestUpdateSubscription) (after : Engine)
      → EngineNode.on_update_subscription_receive (s.engines e) nuzzle r ≡ some after
      → IsSingle after
      → Inv g (record s { engines = update s.engines e after })
  update_engine-Inv e nuzzle r after h one =
      let kept = message_buffer-update (s.engines e) after nuzzle r h in
      let same : (j : ℕ) (k : Key) → holds (update s.engines e after j) k ≡ holds (s.engines j) k =
        λ j k. unfold holds in ground arith in
      let stored : (j : ℕ) (k : Key) (m : RequestPrepare)
          → get (update s.engines e after j).message_buffer k ≡ some m
          → IsPrepared s.published m =
        λ j k m at. elim (Bool-cases (nat_beq e j)) [
          | inl this ↦ v.stored_ok e k m (rw (this, kept) at at)
          | inr other ↦ v.stored_ok j k m (rw (other) at at)
        ] in
      let keyed : (j : ℕ) (k : Key) (m : RequestPrepare)
          → get (update s.engines e after j).message_buffer k ≡ some m
          → prepare_key m ≡ k =
        λ j k m at. elim (Bool-cases (nat_beq e j)) [
          | inl this ↦ v.keyed e k m (rw (this, kept) at at)
          | inr other ↦ v.keyed j k m (rw (other) at at)
        ] in
      record {
        seed = v.seed;
        linked = v.linked;
        group = v.group;
        single = λ j t n. ground (arith, v.single j t n, one t n);
        prepares_ok = v.prepares_ok;
        stored_ok = stored;
        keyed = keyed;
        copies_ok = v.copies_ok;
        deliveries_ok = v.deliveries_ok;
        once = λ j k. omega (arith, v.once j k, same j k);
        fresh = λ j k h. omega (arith, v.fresh j k h, same j k);
        counted = λ j n k. omega (arith, v.counted j n k, same j k);
        durable =
            All-mono _ _ s.deliveries
              (λ d.
                IsHeld-mono g s.engines (update s.engines e after) (key_of d.message)
                  (λ j. omega (arith, same j (key_of d.message))))
              v.durable;
      }

  -- The invariant after a nuzzle has updated a subscription.
  pub update_nuzzle-Inv :
      (l : NuzzleNode.Locals) (n consumer : ℕ) (r : RequestUpdateSubscription) (after : Nuzzle)
      (sent : List NuzzleNode.Sent)
      → NuzzleNode.on_update_subscription_receive l (s.nuzzles n) consumer r ≡ some (after, sent)
      → Inv g (record s { nuzzles = update s.nuzzles n after })
  update_nuzzle-Inv l n consumer r after sent h =
      let (buffer, group) = kept-update l (s.nuzzles n) consumer r after sent h in
      let same : (c : ℕ) (k : Key)
          → sources (update s.nuzzles n after c) k ≡ sources (s.nuzzles c) k =
        λ c k. unfold sources in ground arith in
      record {
        seed = v.seed;
        linked = v.linked;
        group = λ c. ground (arith, v.group c, v.group n);
        single = v.single;
        prepares_ok = v.prepares_ok;
        stored_ok = v.stored_ok;
        keyed = v.keyed;
        copies_ok = v.copies_ok;
        deliveries_ok = v.deliveries_ok;
        once = v.once;
        fresh = v.fresh;
        counted = λ e c k. rw (same c k) (v.counted e c k);
        durable = v.durable;
      }

  -- The invariant after a message to an engine is lost.
  pub lose_prepare-Inv :
      (xs : List Prepare) (m : Prepare) (ys : List Prepare)
      → s.prepares ≡ xs ++ m ∷ ys
      → Inv g (record s { prepares = xs ++ ys })
  lose_prepare-Inv xs m ys at =
      let before : (e : ℕ) (k : Key)
          → prepares_to e k s.prepares ≡ is_prepare e k m + prepares_to e k (xs ++ ys) =
        λ e k. ap (prepares_to e k) at ∙ total-middle (is_prepare e k) xs m ys in
      record {
        seed = v.seed;
        linked = v.linked;
        group = v.group;
        single = v.single;
        prepares_ok = (All-middle _ xs m ys (subst (All _) at v.prepares_ok)).1;
        stored_ok = v.stored_ok;
        keyed = v.keyed;
        copies_ok = v.copies_ok;
        deliveries_ok = v.deliveries_ok;
        once = λ e k. omega (arith, v.once e k, before e k);
        fresh = λ e k h. omega (arith, v.fresh e k h, before e k);
        counted = v.counted;
        durable = v.durable;
      }

  -- The invariant after a copy is lost.
  pub lose_copy-Inv :
      (xs : List Copy) (m : Copy) (ys : List Copy)
      → s.copies ≡ xs ++ m ∷ ys
      → Inv g (record s { copies = xs ++ ys })
  lose_copy-Inv xs m ys at =
      let before : (e n : ℕ) (k : Key)
          → copies_on e n k s.copies ≡ is_copy e n k m + copies_on e n k (xs ++ ys) =
        λ e n k. ap (copies_on e n k) at ∙ total-middle (is_copy e n k) xs m ys in
      record {
        seed = v.seed;
        linked = v.linked;
        group = v.group;
        single = v.single;
        prepares_ok = v.prepares_ok;
        stored_ok = v.stored_ok;
        keyed = v.keyed;
        copies_ok = (All-middle _ xs m ys (subst (All _) at v.copies_ok)).1;
        deliveries_ok = v.deliveries_ok;
        once = v.once;
        fresh = v.fresh;
        counted = λ e n k. omega (arith, v.counted e n k, before e n k);
        durable = v.durable;
      }
