-- ===== src/Engine/History.antt =====
-- An engine over a whole history of messages from its pumps and nuzzles.
use firehose.Base.{
  ℕ, ◌≡◌, inl, inr, List, [], ◌∷◌, ◌++◌, Option, none, some, Option-cases, arith, nat_eq, key_eq,
}
use firehose.Api.{RequestPrepare, RequestAccept, RequestUpdateSubscription}
use firehose.Engine.{
  Engine, Locals, Sent, on_prepare_receive, on_accept_receive, on_update_subscription_receive,
}
use firehose.Engine.Entries.{IsConsistent}
use firehose.Engine.Subscribe.{update-IsConsistent}
use firehose.Engine.Prepare.{prepare-IsConsistent}

-- What arrives at an engine: the connection, and the message that it received in full.
pub data Event : Type 0 where
  prepare : ℕ → RequestPrepare → Event
  accept : ℕ → RequestAccept → Event
  update : ℕ → RequestUpdateSubscription → Event

-- PumpConnection::completed_receive and NuzzleConnection::completed_receive, after `get`.
unfoldable pub step : Locals → Engine → Event → Option (Engine × List Sent)
step l e (prepare c r) = some (on_prepare_receive l e c r)
step l e (accept c r) = some (on_accept_receive e c r, [])
step l e (update c r) = elim (on_update_subscription_receive e c r) [
  | none ↦ none
  | some e' ↦ some (e', [])
]

abbrev then_send : List Sent → Option (Engine × List Sent) → Option (Engine × List Sent)
then_send sent none = none
then_send sent (some (e, more)) = some (e, sent ++ more)

-- The events in turn, with all that is sent; `none` if one of them is undefined behaviour.
unfoldable pub run : Locals → Engine → List Event → Option (Engine × List Sent)
run l e [] = some (e, [])
run l e (v ∷ vs) = elim (step l e v) [
  | none ↦ none
  | some (e', sent) ↦ then_send sent (run l e' vs)
]

pub run-cons :
    (l : Locals) (e : Engine) (v : Event) (vs : List Event) {e' : Engine} {sent : List Sent}
    → run l e (v ∷ vs) ≡ some (e', sent)
    → (e₁ : Engine) × (first : List Sent) × (rest : List Sent) × (step l e v ≡ some (e₁, first))
      × (run l e₁ vs ≡ some (e', rest))
      × (sent ≡ first ++ rest)
unfolding run
run-cons l e v vs {e'} {sent} h = elim (Option-cases (step l e v)) [
  | inl q ↦ ground arith
  | inr ((e₁, first), q) ↦ elim (Option-cases (run l e₁ vs)) [
    | inl p ↦ ground arith
    | inr ((e₂, rest), p) ↦ (e₁, first, rest, q, ground arith, ground arith)
  ]
]

pub step-IsConsistent :
    (l : Locals) (e : Engine) (v : Event) {e' : Engine} {sent : List Sent}
    → step l e v ≡ some (e', sent)
    → IsConsistent e
    → IsConsistent e'
unfolding step on_accept_receive
step-IsConsistent l e (prepare c r) h v = ground (arith, prepare-IsConsistent l e c r v)
step-IsConsistent l e (accept c r) h v = ground arith
step-IsConsistent l e (update c r) {e'} h v = ground (arith, update-IsConsistent e c r e' v)

-- If every client of a connection is matched by an entry of the connection under its topic, this is
-- so after every history that meets no undefined behaviour.
pub run-IsConsistent :
    (l : Locals) (e : Engine) (vs : List Event) {e' : Engine} {sent : List Sent}
    → run l e vs ≡ some (e', sent)
    → IsConsistent e
    → IsConsistent e'
run-IsConsistent l e [] h v = unfold run in ground arith
run-IsConsistent l e (x ∷ vs) h v =
    let (e₁, first, rest, s, r, _) = run-cons l e x vs h in
    run-IsConsistent l e₁ vs r (step-IsConsistent l e x s v)
