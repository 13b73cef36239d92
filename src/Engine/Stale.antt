-- ===== src/Engine/Stale.antt =====
-- Subscribing more than once: Engine::on_update_subscription_receive of src/firehose/engine.cpp.
use firehose.Base.{
  ℕ, zero, suc, ◌+◌, ◌≡◌, ◌≢◌, refl, inl, inr, List, [], ◌∷◌, Option, none, some, Option-cases,
  arith, nat_beq, nat_beq_refl, if◌then◌else◌, count-cons, replicate, erase_found-cons,
  push_back-replicate, length-replicate, nat_eq,
}
use firehose.Api.{RequestUpdateSubscription}
use firehose.Engine.{Engine, clients, on_update_subscription_receive, subscribe, unsubscribe}
use firehose.Engine.Entries.{entries, IsConsistent, entries-subscribe, clients-subscribe}
use firehose.Engine.Subscribe.{
  unsubscribe-Unsubscribed, unsubscribe_defined, subscribe-IsConsistent, unsubscribe-IsConsistent,
}

-- The updates of one nuzzle, in turn.
unfoldable pub updates : Engine → ℕ → List RequestUpdateSubscription → Option Engine
updates e c [] = some e
updates e c (r ∷ rs) = elim (on_update_subscription_receive e c r) [
  | none ↦ none
  | some e' ↦ updates e' c rs
]

-- One client subscribes through connection `c` by `on`, and unsubscribes by the same request with
-- another action.
module _ (c a : ℕ) (on : RequestUpdateSubscription) (subscribes : on.action ≡ 1) (a≢1 : a ≢ 1) where
  abbrev off : RequestUpdateSubscription
  off = record on { action = a }

  abbrev t : ℕ
  t = on.topic_id

  abbrev s : ℕ
  s = on.header.sender_id

  on_step : (e : Engine) → on_update_subscription_receive e c on ≡ some (subscribe e c t s)
  unfolding on_update_subscription_receive
  on_step e = ground arith

  off_step : (e : Engine) → on_update_subscription_receive e c off ≡ unsubscribe e c t s
  unfolding on_update_subscription_receive
  off_step e = ground arith

  -- One unsubscription of the only client, which is listed `k + 1` times.
  off_once :
      (e : Engine) (k : ℕ)
      → IsConsistent e
      → clients e t c ≡ replicate (suc k) s
      → (e' : Engine) × (unsubscribe e c t s ≡ some e')
        × IsConsistent e'
        × (clients e' t c ≡ replicate k s)
        × (entries e' t c + (if nat_beq k 0 then 1 else 0) ≡ entries e t c)
  off_once e k v h = elim (Option-cases (unsubscribe e c t s)) [
    | inl q ↦ absurd (
        ground (
          arith,
          (unsubscribe_defined e c t s v).0 q,
          count-cons s s (replicate k s),
          nat_beq_refl s,
        ))
    | inr (e', q) ↦
        let (left, u) = unsubscribe-Unsubscribed e c t s e' q in
        let same : left ≡ replicate k s =
          ground (arith, u.found, erase_found-cons s (replicate k s)) in
        (
          e',
          q,
          unsubscribe-IsConsistent e c t s e' v q,
          ground (arith, u.clients_after t c, nat_beq_refl t, nat_beq_refl c),
          ground (arith, u.entries_after t c, nat_beq_refl t, nat_beq_refl c, length-replicate k s),
        )
  ]

  -- All unsubscriptions take one entry away, at the last.
  off_all :
      (e : Engine) (k : ℕ)
      → IsConsistent e
      → clients e t c ≡ replicate (suc k) s
      → (e' : Engine) × (updates e c (replicate (suc k) off) ≡ some e')
        × (clients e' t c ≡ [])
        × (entries e' t c + 1 ≡ entries e t c)
  unfolding updates
  off_all e zero v h =
      let (e', q, _, w, n) = off_once e zero v h in (e', ground (arith, off_step e), w, omega arith)
  off_all e (suc k) v h =
      let (e₁, q, v₁, w, n) = off_once e (suc k) v h in
      let (e', r, w', m) = off_all e₁ k v₁ w in (e', ground (arith, off_step e), w', ground arith)

  pub on_all :
      (e : Engine) (j k n : ℕ)
      → j + k ≡ n
      → IsConsistent e
      → clients e t c ≡ replicate j s
      → (e' : Engine) × (updates e c (replicate k on) ≡ some e')
        × IsConsistent e'
        × (clients e' t c ≡ replicate n s)
        × (entries e' t c ≡ entries e t c + k)
  unfolding updates
  on_all e j zero n eq v h =
      let same : j ≡ n = omega arith in (e, refl, v, rw (← same) h, omega arith)
  on_all e j (suc k) n eq v h =
      let one_more : clients (subscribe e c t s) t c ≡ replicate (suc j) s = ground (
        arith,
        clients-subscribe e c t s t c v,
        nat_beq_refl t,
        nat_beq_refl c,
        push_back-replicate j s,
      ) in
      let (e', r, v', w, m) =
        on_all (subscribe e c t s) (suc j) k n (omega arith) (subscribe-IsConsistent e c t s v)
          one_more in
      (
        e',
        ground (arith, on_step e),
        v',
        w,
        ground (arith, entries-subscribe e c t s t c, nat_beq_refl t, nat_beq_refl c),
      )

  -- From a consistent engine where the nuzzle has no client on the topic, `k + 1` subscriptions and
  -- then `k + 1` unsubscriptions of one client all complete and leave no client, but they leave `k`
  -- entries of the nuzzle, so that each message is still sent to it `k` more times.
  pub stale_entries :
      (e : Engine) (k : ℕ)
      → IsConsistent e
      → clients e t c ≡ []
      → (e₁ : Engine) × (e₂ : Engine) × (updates e c (replicate (suc k) on) ≡ some e₁)
        × (updates e₁ c (replicate (suc k) off) ≡ some e₂)
        × (clients e₂ t c ≡ [])
        × (entries e₂ t c ≡ entries e t c + k)
  stale_entries e k v h =
      let (e₁, p, v₁, w, m) = on_all e 0 (suc k) (suc k) (omega arith) v h in
      let (e₂, q, w', n) = off_all e₁ k v₁ w in (e₁, e₂, p, q, w', omega arith)
