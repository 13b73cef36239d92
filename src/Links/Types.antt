-- ===== src/Links/Types.antt =====
-- For the connections of the engine, the nuzzle and the pump: the classes of message objects that
-- new_rx_message makes, and those that completed_receive tells apart by dynamic_cast.
use firehose.Base.{ℕ, ◌≡◌, ◌≢◌, ◌↔◌, refl, some, none, arith}
use firehose.Api.Proto.{
  m_req_publish, m_rsp_publish, m_req_prepare, m_rsp_prepare, m_req_accept,
  m_req_update_subscription,
}
use firehose.Engine.Messages as EngineMessages
use firehose.Nuzzle.Messages as NuzzleMessages
use firehose.Pump.Messages as PumpMessages

abbrev pub engine_class : EngineMessages.Rx → EngineMessages.RxClass
engine_class (EngineMessages.prepare_req msg) = EngineMessages.msg_prepare_req_rx
engine_class (EngineMessages.accept_req msg) = EngineMessages.msg_accept_req_rx
engine_class (EngineMessages.update_subscription_req msg) =
    EngineMessages.msg_update_subscription_req_rx

abbrev pub nuzzle_class : NuzzleMessages.Rx → NuzzleMessages.RxClass
nuzzle_class (NuzzleMessages.publish_req msg) = NuzzleMessages.msg_publish_req_rx
nuzzle_class (NuzzleMessages.publish_rsp msg) = NuzzleMessages.msg_publish_rsp_rx
nuzzle_class (NuzzleMessages.update_subscription_req msg) =
    NuzzleMessages.msg_update_subscription_req_rx

abbrev pub pump_class : PumpMessages.Rx → PumpMessages.RxClass
pump_class (PumpMessages.publish_req msg) = PumpMessages.msg_publish_req_rx
pump_class (PumpMessages.prepare_rsp msg) = PumpMessages.msg_prepare_rsp_rx

engine_pump :
    (m : EngineMessages.Rx)
    → ((t : ℕ) × (EngineMessages.pump_new_rx_message t ≡ some (engine_class m)))
      ↔ (EngineMessages.pump_completed_receive m ≢ none)
unfolding EngineMessages.pump_new_rx_message EngineMessages.pump_completed_receive
engine_pump (EngineMessages.prepare_req msg) = (λ h no. absurd cc, λ h. (m_req_prepare, refl))
engine_pump (EngineMessages.accept_req msg) = (λ h no. absurd cc, λ h. (m_req_accept, refl))
engine_pump (EngineMessages.update_subscription_req msg) =
    (λ h no. absurd (let made = h.1 in ground arith), λ h. absurd (h refl))

engine_nuzzle :
    (m : EngineMessages.Rx)
    → ((t : ℕ) × (EngineMessages.nuzzle_new_rx_message t ≡ some (engine_class m)))
      ↔ (EngineMessages.nuzzle_completed_receive m ≢ none)
unfolding EngineMessages.nuzzle_new_rx_message EngineMessages.nuzzle_completed_receive
engine_nuzzle (EngineMessages.prepare_req msg) =
    (λ h no. absurd (let made = h.1 in ground arith), λ h. absurd (h refl))
engine_nuzzle (EngineMessages.accept_req msg) =
    (λ h no. absurd (let made = h.1 in ground arith), λ h. absurd (h refl))
engine_nuzzle (EngineMessages.update_subscription_req msg) =
    (λ h no. absurd cc, λ h. (m_req_update_subscription, refl))

nuzzle_consumer :
    (m : NuzzleMessages.Rx)
    → ((t : ℕ) × (NuzzleMessages.consumer_new_rx_message t ≡ some (nuzzle_class m)))
      ↔ (NuzzleMessages.consumer_completed_receive m ≢ none)
unfolding NuzzleMessages.consumer_new_rx_message NuzzleMessages.consumer_completed_receive
nuzzle_consumer (NuzzleMessages.publish_req msg) =
    (λ h no. absurd (let made = h.1 in ground arith), λ h. absurd (h refl))
nuzzle_consumer (NuzzleMessages.publish_rsp msg) = (λ h no. absurd cc, λ h. (m_rsp_publish, refl))
nuzzle_consumer (NuzzleMessages.update_subscription_req msg) =
    (λ h no. absurd cc, λ h. (m_req_update_subscription, refl))

nuzzle_engine :
    (m : NuzzleMessages.Rx)
    → ((t : ℕ) × (NuzzleMessages.engine_new_rx_message t ≡ some (nuzzle_class m)))
      ↔ (NuzzleMessages.engine_completed_receive m ≢ none)
unfolding NuzzleMessages.engine_new_rx_message NuzzleMessages.engine_completed_receive
nuzzle_engine (NuzzleMessages.publish_req msg) = (λ h no. absurd cc, λ h. (m_req_publish, refl))
nuzzle_engine (NuzzleMessages.publish_rsp msg) =
    (λ h no. absurd (let made = h.1 in ground arith), λ h. absurd (h refl))
nuzzle_engine (NuzzleMessages.update_subscription_req msg) =
    (λ h no. absurd (let made = h.1 in ground arith), λ h. absurd (h refl))

pump_publisher :
    (m : PumpMessages.Rx)
    → ((t : ℕ) × (PumpMessages.publisher_new_rx_message t ≡ some (pump_class m)))
      ↔ (PumpMessages.publisher_completed_receive m ≢ none)
unfolding PumpMessages.publisher_new_rx_message PumpMessages.publisher_completed_receive
pump_publisher (PumpMessages.publish_req msg) = (λ h no. absurd cc, λ h. (m_req_publish, refl))
pump_publisher (PumpMessages.prepare_rsp msg) =
    (λ h no. absurd (let made = h.1 in ground arith), λ h. absurd (h refl))

pump_engine :
    (m : PumpMessages.Rx)
    → ((t : ℕ) × (PumpMessages.engine_new_rx_message t ≡ some (pump_class m)))
      ↔ (PumpMessages.engine_completed_receive m ≢ none)
unfolding PumpMessages.engine_new_rx_message PumpMessages.engine_completed_receive
pump_engine (PumpMessages.publish_req msg) =
    (λ h no. absurd (let made = h.1 in ground arith), λ h. absurd (h refl))
pump_engine (PumpMessages.prepare_rsp msg) = (λ h no. absurd cc, λ h. (m_rsp_prepare, refl))

-- The one class that the connection of an engine to an engine knows, it never gets.
engine_engine :
    (m : EngineMessages.Rx) (t : ℕ)
    → (EngineMessages.engine_completed_receive m ≢ none)
    → (EngineMessages.engine_new_rx_message t ≡ none)
      × (engine_class m ≡ EngineMessages.msg_prepare_req_rx)
unfolding EngineMessages.engine_new_rx_message EngineMessages.engine_completed_receive
engine_engine (EngineMessages.prepare_req msg) t h = (refl, refl)
engine_engine (EngineMessages.accept_req msg) t h = absurd (h refl)
engine_engine (EngineMessages.update_subscription_req msg) t h = absurd (h refl)

-- On each connection of an engine to a pump or a nuzzle, of a nuzzle and of a pump, the classes of
-- message objects that new_rx_message makes, each for some type, are exactly those for which
-- completed_receive calls a handler of the node, so that no object that is received is unsupported.
-- The connection of an engine to an engine makes an object for no type.
pub handled_exactly :
    (m : EngineMessages.Rx) (n : NuzzleMessages.Rx) (p : PumpMessages.Rx) (t : ℕ)
    → (((t : ℕ) × (EngineMessages.pump_new_rx_message t ≡ some (engine_class m)))
        ↔ (EngineMessages.pump_completed_receive m ≢ none))
      × (((t : ℕ) × (EngineMessages.nuzzle_new_rx_message t ≡ some (engine_class m)))
          ↔ (EngineMessages.nuzzle_completed_receive m ≢ none))
      × (((t : ℕ) × (NuzzleMessages.consumer_new_rx_message t ≡ some (nuzzle_class n)))
          ↔ (NuzzleMessages.consumer_completed_receive n ≢ none))
      × (((t : ℕ) × (NuzzleMessages.engine_new_rx_message t ≡ some (nuzzle_class n)))
          ↔ (NuzzleMessages.engine_completed_receive n ≢ none))
      × (((t : ℕ) × (PumpMessages.publisher_new_rx_message t ≡ some (pump_class p)))
          ↔ (PumpMessages.publisher_completed_receive p ≢ none))
      × (((t : ℕ) × (PumpMessages.engine_new_rx_message t ≡ some (pump_class p)))
          ↔ (PumpMessages.engine_completed_receive p ≢ none))
      × (EngineMessages.engine_new_rx_message t ≡ none)
unfolding EngineMessages.engine_new_rx_message
handled_exactly m n p t = (
  engine_pump m,
  engine_nuzzle m,
  nuzzle_consumer n,
  nuzzle_engine n,
  pump_publisher p,
  pump_engine p,
  refl,
)
