-- ===== src/Network/Protobuf.antt =====
-- msg_protobuf_tx of src/include/message.h: a message that the sender takes from a protobuf message.
-- `serialize` is SerializeWithCachedSizesToArray. The objects are made by `new T()`, which sets the
-- request id to 0, and no code changes it.
use firehose.Base.{ℕ, []}
use firehose.Api.{Bytes}
use firehose.Network.Sender.{Tx}

abbrev pub protobuf_tx : {M : Type 0} → (M → Bytes) → ℕ → M → Tx
protobuf_tx serialize msg_type msg = record {
  msg_type = msg_type;
  req_id = 0;
  header = serialize msg;
  body_len = 0;
  taken = [];
  left = [];
}
