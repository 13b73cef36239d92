-- ===== src/System/Safety.antt =====
-- Deliveries to consumers in the states that a system reaches.
use firehose.Base.{
  ℕ, zero, suc, count-cons, arith, Key, get, ◌≤◌, ◌≡◌, ◌∙◌, sym, subst, ap, List, [], ◌∷◌, some,
  length, get_elem?, count, All, u64_mod, nat_eq, key_eq,
}
use firehose.Api.{RequestPublish, RequestPrepare}
use firehose.Engine.{Engine}
use firehose.System.Copies.{holds, prepare_key}
use firehose.Nuzzle.{key_of}
use firehose.System.{System, Delivery, Reach}
use firehose.System.Invariant.{IsPublished, Stores, IsDurable, Inv}
use firehose.System.Invariant.Reached.{Reach-Inv}

All-get_elem? {ℓ κ} :
    {A : Type ℓ} (P : A → Type κ) (xs : List A) (i : ℕ) {x : A}
    → All P xs
    → get_elem? xs i ≡ some x
    → P x
All-get_elem? P [] i a h = absurd cc
All-get_elem? P (y ∷ xs) zero {x = x} a h = let is : y ≡ x = cc in subst P is a.0
All-get_elem? P (y ∷ xs) (suc i) a h = All-get_elem? P xs i a.1 h

the_same : {a b : RequestPublish} → some a ≡ some b → a ≡ b
the_same h = cc

All-counted : (P : ℕ → Type 0) (xs : List ℕ) → ((x : ℕ) → 1 ≤ count x xs → P x) → All P xs
All-counted P [] h = tt
All-counted P (y ∷ xs) h = (
  h y (ground (arith, count-cons y y xs)),
  All-counted P xs (λ x one. h x (ground (arith, count-cons x y xs))),
)

holds-some :
    (e : Engine) (k : Key)
    → 1 ≤ holds e k
    → (m : RequestPrepare) × (get e.message_buffer k ≡ some m)
unfolding holds
holds-some e k one = ground arith

module _ (g : ℕ) (engines : List ℕ) (s : System) (distinct : (e : ℕ) → count e engines ≤ 1)
    (reached : Reach g engines s) (few : length s.published ≤ u64_mod) where
  abbrev v : Inv g s
  v = Reach-Inv g engines distinct reached few

  -- What an engine holds under the key of a published message is that message.
  Stores-held :
      (e : ℕ) (d : RequestPublish)
      → IsPublished s.published d
      → 1 ≤ holds (s.engines e) (key_of d)
      → Stores s.engines d e
  Stores-held e d p one =
      let (m, is) = holds-some (s.engines e) (key_of d) one in
      let key : prepare_key m ≡ key_of d = v.keyed e (key_of d) m is in
      let q = v.stored_ok e (key_of d) m is in
      let id : m.global_id ≡ d.global_id = ap (λ (k : Key). k.1) key in
      let number : get_elem? s.published d.global_id ≡ some q.request =
        ap (get_elem? s.published) (sym id) ∙ q.numbered in
      let one : q.request ≡ p.request = the_same (sym number ∙ p.numbered) in
      (
        m,
        is,
        ap (λ (k : Key). k.0) key,
        id,
        sym q.timestamp_is ∙ ap (λ (r : RequestPublish). r.timestamp) one ∙ p.timestamp_is,
        sym q.message_is ∙ ap (λ (r : RequestPublish). r.message) one ∙ p.message_is,
      )

  -- In a state that a system whose engines have different addresses, and never list a nuzzle twice
  -- under a topic, reaches before it has published more than 2^64 requests, each message that a
  -- nuzzle has delivered to a consumer is a published request: its global id is the number of a
  -- request that the pump received, and it has the topic, the timestamp and the bytes of that
  -- request.
  pub delivered-IsPublished :
      (i : ℕ) (d : Delivery) → get_elem? s.deliveries i ≡ some d → IsPublished s.published d.message
  delivered-IsPublished i d at = All-get_elem? _ s.deliveries i v.deliveries_ok at

  -- In a state that a system of one pump, whose engines have different addresses and never list a
  -- nuzzle twice under a topic, reaches before it has published more than 2^64 requests, a quorum of
  -- different engines, 1 + group_size / 2 or more, store each message that a nuzzle has delivered:
  -- what each of them has under the topic and the global id of the message has that topic, that
  -- global id, and the timestamp and the bytes of the message.
  pub delivered-IsDurable :
      (i : ℕ) (d : Delivery) → get_elem? s.deliveries i ≡ some d → IsDurable g s.engines d.message
  delivered-IsDurable i d at =
      let held = All-get_elem? _ s.deliveries i v.durable at in
      record {
        storing = held.storing;
        enough = held.enough;
        once = held.once;
        stored = All-counted (Stores s.engines d.message) held.storing (λ e one.
            Stores-held e d.message (delivered-IsPublished i d at) (omega (arith, held.stored e)));
      }
