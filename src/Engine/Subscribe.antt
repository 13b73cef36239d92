-- ===== src/Engine/Subscribe.antt =====
-- Subscribing and unsubscribing in Engine::on_update_subscription_receive of src/firehose/engine.cpp.
use firehose.Base.{
  ℕ, ◌+◌, ◌≡◌, ◌↔◌, inl, inr, List, [], ◌∷◌, none, some, arith, nat_beq, nat_beq_iff, Option-cases,
  if◌then◌else◌, length, count, erase_found, count-erase_found, erase_found-none, length-push_back,
  length-erase_found, get_or-put, nat_eq,
}
use firehose.Api.{RequestUpdateSubscription}
use firehose.Engine.{
  Engine, clients, set_clients, subscribe, unsubscribe, leave_topic, on_update_subscription_receive,
}
use firehose.Engine.Entries.{
  entries, nuzzles, IsConsistent, clients-set_clients, entries-subscribe, clients-subscribe,
}

-- The engine `e'` after client `s` of connection `c` has left topic `t`, with `left` still there.
pub record Unsubscribed (e : Engine) (c t s : ℕ) (left : List ℕ) (e' : Engine) : Type 0 where
  pub found : erase_found s (clients e t c) ≡ some left
  pub clients_after :
      (t' c' : ℕ)
      → clients e' t' c'
        ≡ (if nat_beq t t' then if nat_beq c c' then left else clients e t c' else clients e t' c')
  pub entries_after :
      (t' c' : ℕ)
      → entries e' t' c'
          + (if nat_beq t t'
              then if nat_beq c c' then if nat_beq (length left) 0 then 1 else 0 else 0
              else 0)
        ≡ entries e t' c'

leave_topic-Unsubscribed :
    (e : Engine) (c t s : ℕ) (left : List ℕ) (e' : Engine)
    → erase_found s (clients e t c) ≡ some left
    → leave_topic (set_clients e t c left) c t left ≡ some e'
    → Unsubscribed e c t s left e'
unfolding leave_topic
leave_topic-Unsubscribed e c t s (x ∷ xs) e' f h = record {
  found = f;
  clients_after = λ t' c'. ground (arith, clients-set_clients e t c (x ∷ xs) t' c');
  entries_after = λ t' c'. unfold entries set_clients in ground arith;
}
leave_topic-Unsubscribed e c t s [] e' f h = elim (Option-cases (erase_found c (nuzzles e t))) [
  | inl q ↦ unfold set_clients in ground arith
  | inr (ys, q) ↦ record {
    found = f;
    clients_after =
        λ t' c'. unfold clients set_clients in ground (arith, clients-set_clients e t c [] t' c');
    entries_after = λ t' c'.
        unfold entries set_clients in
        ground (
          arith,
          get_or-put e.subscriptions t t' ys [],
          count-erase_found c c' (nuzzles e t) ys q,
          nat_beq_iff t t',
        );
  }
]

-- A completed unsubscription is described by `Unsubscribed`.
pub unsubscribe-Unsubscribed :
    (e : Engine) (c t s : ℕ) (e' : Engine)
    → unsubscribe e c t s ≡ some e'
    → (left : List ℕ) × Unsubscribed e c t s left e'
unfolding unsubscribe
unsubscribe-Unsubscribed e c t s e' h = elim (Option-cases (erase_found s (clients e t c))) [
  | inl q ↦ ground arith
  | inr (left, q) ↦ (left, leave_topic-Unsubscribed e c t s left e' q (ground arith))
]

-- In a consistent engine an unsubscription is undefined behaviour exactly if the client is not listed
-- for the connection under the topic: the entry of the connection that it may erase is always there.
pub unsubscribe_defined :
    (e : Engine) (c t s : ℕ)
    → IsConsistent e
    → (unsubscribe e c t s ≡ none) ↔ (count s (clients e t c) ≡ 0)
unfolding unsubscribe leave_topic entries set_clients
unsubscribe_defined e c t s v = elim (Option-cases (erase_found s (clients e t c))) [
  | inl q ↦ ground (arith, erase_found-none s (clients e t c))
  | inr (x ∷ xs, q) ↦ ground (arith, erase_found-none s (clients e t c))
  | inr ([], q) ↦ ground (
    arith,
    erase_found-none s (clients e t c),
    length-erase_found s (clients e t c) [] q,
    erase_found-none c (nuzzles e t),
    v.matched t c,
  )
]

pub subscribe-IsConsistent :
    (e : Engine) (c t s : ℕ) → IsConsistent e → IsConsistent (subscribe e c t s)
subscribe-IsConsistent e c t s v = record {
  matched = λ t' c'. ground (
    arith,
    entries-subscribe e c t s t' c',
    clients-subscribe e c t s t' c' v,
    v.matched t' c',
    length-push_back (clients e t c) s,
    nat_beq_iff t t',
    nat_beq_iff c c',
  );
}

pub unsubscribe-IsConsistent :
    (e : Engine) (c t s : ℕ) (e' : Engine)
    → IsConsistent e
    → unsubscribe e c t s ≡ some e'
    → IsConsistent e'
unsubscribe-IsConsistent e c t s e' v h =
    let (left, u) = unsubscribe-Unsubscribed e c t s e' h in
    record {
      matched = λ t' c'. ground (
        arith,
        u.entries_after t' c',
        u.clients_after t' c',
        v.matched t' c',
        length-erase_found s (clients e t c) left u.found,
        nat_beq_iff t t',
        nat_beq_iff c c',
      );
    }

-- A nuzzle's update keeps the invariant, whether it subscribes or unsubscribes.
pub update-IsConsistent :
    (e : Engine) (c : ℕ) (r : RequestUpdateSubscription) (e' : Engine)
    → IsConsistent e
    → on_update_subscription_receive e c r ≡ some e'
    → IsConsistent e'
unfolding on_update_subscription_receive
update-IsConsistent e c r e' v h = ground (
  arith,
  subscribe-IsConsistent e c r.topic_id r.header.sender_id v,
  unsubscribe-IsConsistent e c r.topic_id r.header.sender_id e' v,
)
