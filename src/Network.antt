-- ===== src/Network.antt =====
-- src/include/network.h and network.cpp: the connections under all nodes.
pub mod Stats
pub mod Wire
pub mod Sender
pub mod Receiver
pub mod Transfer
pub mod Connection
pub mod Clock
pub mod Protobuf
pub mod Exchange
pub mod Bodies
