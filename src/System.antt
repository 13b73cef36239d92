-- ===== src/System.antt =====
-- The nodes together: one pump, any engines and nuzzles, and the messages on the way between them.
-- A step is the arrival of one message, the loss of one, or an update of a subscription. Messages on
-- the way arrive in any order, which is more than one connection allows. An update comes from
-- anywhere; of those of an engine only such are steps as leave at most one entry of a nuzzle under a
-- topic. The acknowledgements of the engines go to a handler with an empty body, and are left out.
pub mod Copies
pub mod Invariant
pub mod Safety
pub mod Once
pub mod Calm
pub mod Alone
use firehose.Base.{ℕ, ◌≤◌, ◌≡◌, List, [], ◌∷◌, ◌++◌, some, push_back, update, nat_eq}
use firehose.Api.{
  RequestPublish, RequestPrepare, RequestUpdateSubscription, blank_request_publish,
  blank_request_prepare,
}
use firehose.Api.Proto.{no_payload}
use firehose.Publisher.Messages as PublisherMessages
use firehose.Pump.Messages as PumpMessages
use firehose.Engine.Messages as EngineMessages
use firehose.Nuzzle.Messages as NuzzleMessages
use firehose.Consumer.Messages as ConsumerMessages
use firehose.Pump as PumpNode
use firehose.Pump.{Pump}
use firehose.Engine as EngineNode
use firehose.Engine.{Engine}
use firehose.Engine.Entries.{entries}
use firehose.Programs.NodeMains.{connect_pump}
use firehose.Nuzzle as NuzzleNode
use firehose.Nuzzle.{Nuzzle}

-- A message from the pump to an engine.
pub record Prepare : Type 0 where
  pub engine : ℕ
  pub message : RequestPrepare

-- A message from an engine to a nuzzle.
pub record Copy : Type 0 where
  pub engine : ℕ
  pub nuzzle : ℕ
  pub message : RequestPublish

-- A message that a nuzzle has sent to a consumer.
pub record Delivery : Type 0 where
  pub nuzzle : ℕ
  pub consumer : ℕ
  pub message : RequestPublish

-- `published` are the requests that the pump has received, in order.
pub record System : Type 0 where
  pub pump : Pump
  pub engines : ℕ → Engine
  pub nuzzles : ℕ → Nuzzle
  pub prepares : List Prepare
  pub copies : List Copy
  pub deliveries : List Delivery
  pub published : List RequestPublish

abbrev pub init : ℕ → List ℕ → System
init group_size engines = record {
  pump = connect_pump (PumpNode.init 0 group_size) engines;
  engines = λ e. EngineNode.init e group_size;
  nuzzles = λ n. NuzzleNode.init n group_size;
  prepares = [];
  copies = [];
  deliveries = [];
  published = [];
}

-- What the receiver of a message makes of what its sender put into it, on each link.
unfoldable pub to_pump : RequestPublish → RequestPublish
unfolding PublisherMessages.msg_publish_req_tx_set PumpMessages.msg_publish_req_rx_get
to_pump r =
    PumpMessages.msg_publish_req_rx_get (PublisherMessages.msg_publish_req_tx_set r no_payload)
      blank_request_publish

unfoldable pub to_engine : RequestPrepare → RequestPrepare
unfolding PumpMessages.msg_prepare_req_tx_set EngineMessages.msg_prepare_req_rx_get
to_engine r =
    EngineMessages.msg_prepare_req_rx_get (PumpMessages.msg_prepare_req_tx_set r no_payload)
      blank_request_prepare

unfoldable pub to_nuzzle : RequestPublish → RequestPublish
unfolding EngineMessages.msg_publish_req_tx_set NuzzleMessages.msg_publish_req_rx_get
to_nuzzle r =
    NuzzleMessages.msg_publish_req_rx_get (EngineMessages.msg_publish_req_tx_set r no_payload)
      blank_request_publish

unfoldable pub to_consumer : RequestPublish → RequestPublish
unfolding NuzzleMessages.msg_publish_req_tx_set ConsumerMessages.msg_publish_req_rx_get
to_consumer r =
    ConsumerMessages.msg_publish_req_rx_get (NuzzleMessages.msg_publish_req_tx_set r no_payload)
      blank_request_publish

-- What goes on its way of what a handler sends; a message is noted as its receiver will read it.
unfoldable pub prepares_of : List PumpNode.Sent → List Prepare
unfolding to_engine
prepares_of [] = []
prepares_of (PumpNode.prepare e r ∷ rest) =
    record { engine = e; message = to_engine r } ∷ prepares_of rest

unfoldable pub copies_of : ℕ → List EngineNode.Sent → List Copy
unfolding to_nuzzle
copies_of e [] = []
copies_of e (EngineNode.prepare_ack c r ∷ rest) = copies_of e rest
copies_of e (EngineNode.publish n r ∷ rest) =
    record { engine = e; nuzzle = n; message = to_nuzzle r } ∷ copies_of e rest

unfoldable pub deliveries_of : ℕ → List NuzzleNode.Sent → List Delivery
unfolding to_consumer
deliveries_of n [] = []
deliveries_of n (NuzzleNode.deliver c r ∷ rest) =
    record { nuzzle = n; consumer = c; message = to_consumer r } ∷ deliveries_of n rest
deliveries_of n (NuzzleNode.update_subscription e r ∷ rest) = deliveries_of n rest

-- A publisher's request arrives at the pump.
unfoldable pub after_publish : RequestPrepare → ℕ → RequestPublish → System → System
unfolding prepares_of to_pump
after_publish req connection r s =
    let (pump, sent) = PumpNode.on_publish_receive req s.pump connection (to_pump r) in
    record s {
      pump = pump;
      prepares = s.prepares ++ prepares_of sent;
      published = push_back s.published r;
    }

-- A message of the pump, which is no longer on its way, arrives at its engine.
unfoldable pub after_prepare : EngineNode.Locals → ℕ → Prepare → System → System
unfolding copies_of
after_prepare l connection m s =
    let (e, sent) = EngineNode.on_prepare_receive l (s.engines m.engine) connection m.message in
    record s { engines = update s.engines m.engine e; copies = s.copies ++ copies_of m.engine sent }

-- A copy, which is no longer on its way, arrives at its nuzzle.
unfoldable pub after_copy : Copy → System → System
unfolding deliveries_of
after_copy m s =
    let (n, sent) = NuzzleNode.on_publish_receive (s.nuzzles m.nuzzle) m.engine m.message in
    record s {
      nuzzles = update s.nuzzles m.nuzzle n;
      deliveries = s.deliveries ++ deliveries_of m.nuzzle sent;
    }

-- No nuzzle has two entries under a topic.
abbrev pub IsSingle : Engine → Type 0
IsSingle e = (topic nuzzle : ℕ) → entries e topic nuzzle ≤ 1

pub data Step (s : System) : System → Type 0 where
  publish :
      (req : RequestPrepare) (connection : ℕ) (r : RequestPublish)
      → Step s (after_publish req connection r s)
  prepare :
      (l : EngineNode.Locals) (connection : ℕ) (xs : List Prepare) (m : Prepare) (ys : List Prepare)
      → s.prepares ≡ xs ++ m ∷ ys
      → Step s (after_prepare l connection m (record s { prepares = xs ++ ys }))
  copy :
      (xs : List Copy) (m : Copy) (ys : List Copy)
      → s.copies ≡ xs ++ m ∷ ys
      → Step s (after_copy m (record s { copies = xs ++ ys }))
  lose_prepare :
      (xs : List Prepare) (m : Prepare) (ys : List Prepare)
      → s.prepares ≡ xs ++ m ∷ ys
      → Step s (record s { prepares = xs ++ ys })
  lose_copy :
      (xs : List Copy) (m : Copy) (ys : List Copy)
      → s.copies ≡ xs ++ m ∷ ys
      → Step s (record s { copies = xs ++ ys })
  update_engine :
      (e nuzzle : ℕ) (r : RequestUpdateSubscription) (after : Engine)
      → EngineNode.on_update_subscription_receive (s.engines e) nuzzle r ≡ some after
      → IsSingle after
      → Step s (record s { engines = update s.engines e after })
  update_nuzzle :
      (l : NuzzleNode.Locals) (n consumer : ℕ) (r : RequestUpdateSubscription) (after : Nuzzle)
      (sent : List NuzzleNode.Sent)
      → NuzzleNode.on_update_subscription_receive l (s.nuzzles n) consumer r ≡ some (after, sent)
      → Step s (record s { nuzzles = update s.nuzzles n after })

pub data Reach (group_size : ℕ) (engines : List ℕ) : System → Type 0 where
  start : Reach group_size engines (init group_size engines)
  later : {s t : System} → Reach group_size engines s → Step s t → Reach group_size engines t
