-- ===== src/Nuzzle/Subscribe.antt =====
-- What a consumer's update does to a nuzzle, and what the engines are told.
use firehose.Base.{
  ℕ, suc, ◌+◌, ◌≡◌, ◌≢◌, ◌↔◌, refl, ap, inl, inr, Bool-cases, Option-cases, List, [], ◌∷◌, map,
  none, some, arith, if◌then◌else◌, nat_beq, nat_beq_iff, count, count-nil, count-cons,
  count-erase_found, erase_found, erase_found-none, replicate, push_back, Map, get_or, get_or-put,
  nat_eq,
}
use firehose.Api.{RequestUpdateSubscription}
use firehose.Nuzzle.{
  Nuzzle, Sent, deliver, update_subscription, Locals, tell_engines, make_topic, subscribe,
  on_update_subscription_receive,
}
use firehose.Nuzzle.Receive.{consumers}

-- The updates that go to one engine, in order.
unfoldable pub told : ℕ → List Sent → List RequestUpdateSubscription
told e [] = []
told e (update_subscription d r ∷ rest) =
    let more = told e rest in if nat_beq d e then r ∷ more else more
told e (deliver c r ∷ rest) = told e rest

-- The request that an engine is sent about a topic.
abbrev pub update_of : RequestUpdateSubscription → ℕ → ℕ → RequestUpdateSubscription
update_of blank topic action = record blank { topic_id = topic; action = action }

told-map :
    (l : Locals) (e topic action : ℕ) (ds : List ℕ)
    → told e (map (λ d. update_subscription d (update_of (l d) topic action)) ds)
      ≡ replicate (count e ds) (update_of (l e) topic action)
unfolding told
told-map l e topic action [] = rw (count-nil e)
told-map l e topic action (d ∷ ds) = elim (Bool-cases (nat_beq d e)) [
  | inl same ↦
      let one : 1 + count e ds ≡ suc (count e ds) = omega arith in
      let de : d ≡ e = ground arith in
      rw (count-cons e d ds, same, one, de)
        (ap (λ m. update_of (l e) topic action ∷ m) (told-map l e topic action ds))
  | inr other ↦
      let none_here : 0 + count e ds ≡ count e ds = omega arith in
      rw (count-cons e d ds, other, none_here) (told-map l e topic action ds)
]

-- A consumer that is not listed yet, or that is, is listed once more under its topic.
abbrev listed : Nuzzle → ℕ → ℕ → ℕ
listed n topic c = count c (consumers n topic)

get_or-make_topic : (m : Map ℕ (List ℕ)) (t u : ℕ) → get_or (make_topic m t) u [] ≡ get_or m u []
unfolding make_topic
get_or-make_topic m t u = ground (arith, get_or-put m t u [] [], nat_beq_iff t u)

pub consumers-subscribe :
    (n : Nuzzle) (c t u : ℕ)
    → consumers (subscribe n c t) u
      ≡ (if nat_beq t u then push_back (consumers n t) c else consumers n u)
unfolding subscribe
consumers-subscribe n c t u = ground (
  arith,
  get_or-make_topic n.subscriptions t t,
  get_or-make_topic n.subscriptions t u,
  get_or-put (make_topic n.subscriptions t) t u (push_back (consumers n t) c) [],
  nat_beq_iff t u,
)

-- A subscription lists the consumer once more, at the end of its topic, changes no other topic and
-- none of the counted copies, and tells each engine once for each time that it is connected.
update-subscribe :
    (l : Locals) (n : Nuzzle) (c : ℕ) (r : RequestUpdateSubscription)
    → r.action ≡ 1
    → (n' : Nuzzle) × (sent : List Sent) × (on_update_subscription_receive l n c r
        ≡ some (n', sent))
      × ((u : ℕ)
          → consumers n' u ≡ (
              if nat_beq r.topic_id u then push_back (consumers n r.topic_id) c else consumers n u))
      × (n'.message_buffer ≡ n.message_buffer)
      × ((e : ℕ)
          → told e sent ≡ replicate (count e n.engine_connections) (update_of (l e) r.topic_id 1))
unfolding on_update_subscription_receive
update-subscribe l n c r act = (
  subscribe n c r.topic_id,
  tell_engines l n r.topic_id 1,
  ground arith,
  λ u. consumers-subscribe n c r.topic_id u,
  unfold subscribe in refl,
  λ e. told-map l e r.topic_id 1 n.engine_connections,
)

-- An update with an action other than 1 is undefined behaviour exactly if the consumer is not listed
-- under the topic.
unsubscribe_listed :
    (l : Locals) (n : Nuzzle) (c : ℕ) (r : RequestUpdateSubscription)
    → r.action ≢ 1
    → (on_update_subscription_receive l n c r ≡ none) ↔ (listed n r.topic_id c ≡ 0)
unfolding on_update_subscription_receive
unsubscribe_listed l n c r act = ground (arith, erase_found-none c (consumers n r.topic_id))

-- An unsubscription that is defined takes one listing of the consumer away, and no other listing and
-- none of the counted copies, and tells each engine, once for each time that it is connected.
update-unsubscribe :
    (l : Locals) (n : Nuzzle) (c : ℕ) (r : RequestUpdateSubscription) (n' : Nuzzle)
    (sent : List Sent)
    → r.action ≢ 1
    → on_update_subscription_receive l n c r ≡ some (n', sent)
    → ((u d : ℕ)
        → count d (consumers n' u)
            + (if nat_beq r.topic_id u then if nat_beq c d then 1 else 0 else 0)
          ≡ count d (consumers n u))
      × (n'.message_buffer ≡ n.message_buffer)
      × ((e : ℕ)
          → told e sent ≡ replicate (count e n.engine_connections) (update_of (l e) r.topic_id 0))
unfolding on_update_subscription_receive
update-unsubscribe l n c r n' sent act h =
    elim (Option-cases (erase_found c (consumers n r.topic_id))) [
      | inl q ↦ ground arith
      | inr (left, q) ↦ (
        λ u d. ground (
          arith,
          get_or-put n.subscriptions r.topic_id u left [],
          count-erase_found c d (consumers n r.topic_id) left q,
          nat_beq_iff r.topic_id u,
        ),
        ground arith,
        λ e. ground (arith, told-map l e r.topic_id 0 n.engine_connections),
      )
    ]
