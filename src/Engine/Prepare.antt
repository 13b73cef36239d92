-- ===== src/Engine/Prepare.antt =====
-- Engine::on_prepare_receive of src/firehose/engine.cpp: one prepared message.
use firehose.Base.{
  ℕ, suc, ◌+◌, ◌≡◌, inl, inr, Bool-cases, refl, ap, List, [], ◌∷◌, map, some, arith, nat_beq,
  nat_beq_iff, if◌then◌else◌, Key, key_beq, count, count-nil, count-cons, replicate, get,
  get_or-put, get-put, nat_eq, key_eq,
}
use firehose.Api.{RequestPublish, RequestPrepare}
use firehose.Engine.{
  Engine, Locals, Sent, prepare_ack, publish, forward_of, clients, on_prepare_receive,
}
use firehose.Engine.Entries.{entries, nuzzles, IsConsistent}

-- The messages that go to one nuzzle, in order.
unfoldable pub published_to : ℕ → List Sent → List RequestPublish
published_to c [] = []
published_to c (prepare_ack p r ∷ rest) = published_to c rest
published_to c (publish n r ∷ rest) =
    let more = published_to c rest in if nat_beq n c then r ∷ more else more

published_to-map :
    (c : ℕ) (r : RequestPublish) (ns : List ℕ)
    → published_to c (map (λ n. publish n r) ns) ≡ replicate (count c ns) r
unfolding published_to
published_to-map c r [] = rw (count-nil c)
published_to-map c r (n ∷ ns) = elim (Bool-cases (nat_beq n c)) [
  | inl same ↦
      let one : 1 + count c ns ≡ suc (count c ns) = omega arith in
      rw (count-cons c n ns, same, one) (ap (λ m. r ∷ m) (published_to-map c r ns))
  | inr other ↦
      let none_here : 0 + count c ns ≡ count c ns = omega arith in
      rw (count-cons c n ns, other, none_here) (published_to-map c r ns)
]

module _ (l : Locals) (e : Engine) (connection : ℕ) (r : RequestPrepare) where
  -- Each nuzzle is sent the prepared message, as a publication, once for each of its entries under the
  -- topic of the message.
  pub published_to-on_prepare_receive :
      (c : ℕ)
      → published_to c (on_prepare_receive l e connection r).1
        ≡ replicate (entries e r.topic_id c) (forward_of l r)
  unfolding on_prepare_receive entries published_to
  published_to-on_prepare_receive c = published_to-map c (forward_of l r) (nuzzles e r.topic_id)

  pub entries-on_prepare_receive :
      (t c : ℕ) → entries (on_prepare_receive l e connection r).0 t c ≡ entries e t c
  unfolding on_prepare_receive entries
  entries-on_prepare_receive t c = ground (
    arith,
    get_or-put e.subscriptions r.topic_id t (nuzzles e r.topic_id) [],
    nat_beq_iff r.topic_id t,
  )

  pub clients-on_prepare_receive :
      (t c : ℕ) → clients (on_prepare_receive l e connection r).0 t c ≡ clients e t c
  unfolding on_prepare_receive clients
  clients-on_prepare_receive t c = refl

  pub prepare-IsConsistent : IsConsistent e → IsConsistent (on_prepare_receive l e connection r).0
  prepare-IsConsistent v = record {
    matched = λ t c.
        ground
          (arith, v.matched t c, entries-on_prepare_receive t c, clients-on_prepare_receive t c);
  }

  pub message_buffer-on_prepare_receive :
      (k : Key)
      → get (on_prepare_receive l e connection r).0.message_buffer k
        ≡ (if key_beq (r.topic_id, r.global_id) k then some r else get e.message_buffer k)
  unfolding on_prepare_receive
  message_buffer-on_prepare_receive k = get-put e.message_buffer (r.topic_id, r.global_id) k r
