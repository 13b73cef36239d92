-- ===== src/Lib.antt =====
-- Firehose is a publish/subscribe system of five kinds of nodes. A publisher hands each message to
-- one of its pumps, in turn; the pump gives it a global id and sends it to all engines to be
-- prepared; an engine stores it, acknowledges it and forwards it to the nuzzles that subscribe to
-- its topic; a nuzzle counts the copies that come from the engines and delivers the message to its
-- consumers when they are a majority; a consumer logs it. Subscriptions go the other way, from
-- consumer to nuzzle to engine. All links are TCP connections with one framing, and each message
-- class converts between a struct and a protobuf message.
--
-- What is modelled where (paths from the repository's root):
-- - Base: lists for std::vector, association lists for the maps, machine words, Boolean tests.
-- - Api, Api/Proto, Api/Fields: the structs of src/firehose/api/api_common.h, the messages of
--   src/include/firehose.proto, and set_header, get_header, set_telemetry, get_telemetry of
--   src/firehose/api/api_common.cpp.
-- - Engine: src/firehose/engine.cpp. Engine/Entries and Engine/Subscribe are about subscriptions,
--   Engine/Prepare about one prepared message, Engine/History and Engine/Durable about whole
--   histories of messages, Engine/Stale about repeated subscriptions.
-- - Nuzzle: src/firehose/nuzzle.cpp. Nuzzle/Receive is about one copy, Nuzzle/Delivery about any
--   sequence of copies, Nuzzle/Subscribe about subscriptions.
-- - Pump: src/firehose/pump.cpp, with Pump/Publish for the ids and Pump/Printer for
--   networkPrintThread.
-- - Publisher: src/firehose/publisher.cpp, with Publisher/Rotation. Consumer:
--   src/firehose/consumer.cpp, with Consumer/Log.
-- - Engine/Messages, Nuzzle/Messages, Pump/Messages, Publisher/Messages, Consumer/Messages: the
--   functions set and get of the message classes, and new_rx_message and completed_receive of the
--   connections, of src/firehose/api/*_api.cpp; Engine/Sends, Nuzzle/Sends, Pump/Sends,
--   Publisher/Sends and Consumer/Sends: the functions of the connections that send. Links puts the
--   two ends of each link together; Links/Types is about the classes of the messages.
-- - Network: connection_stats (Network/Stats), the pre-header (Network/Wire), message_sender
--   (Network/Sender) and message_receiver (Network/Receiver) of src/include/network.h and
--   network.cpp, and the message classes of src/include/message.h. Network/Transfer puts a sender
--   and a receiver together, Network/Exchange the requests before and after them, and
--   Network/Bodies is about messages with a body.
-- - Util: SlidingWindowT of src/include/util.h (Util/Window) and split of src/include/util.cpp
--   (Util/Split). Threading: CoreManager of src/include/thread.cpp, and, in Threading/Affinity, the
--   cores and the priority of a thread.
-- - Network/Connection: message_connection, with ready and closed of the classes that inherit from
--   it; Network/Clock: synchronize, estimate_clock_delta and estimate_rtt of message_handler.
-- - Servers: the nine servers of src/firehose/api/*_api.h and *_api.cpp, with the steps of their
--   constructor and of their thread. Servers/Owner and Servers/Unowned are about the pointer that a
--   connection gets, Servers/Lifetime about accepting and about shutdown and join.
-- - Programs: the programs src/consumer.cpp (Programs/ConsumerMain), src/publisher.cpp
--   (Programs/PublisherMain), src/pump.cpp, src/nuzzle.cpp and src/engine.cpp (Programs/NodeMains), and
--   the addresses of their command lines (Programs/Addresses).
-- - System: one pump, any engines and nuzzles, and the messages on the way between them, composed of the
--   handlers of Pump, Engine and Nuzzle and of the conversions of their message classes; System/Copies
--   counts messages, System/Invariant is what holds in every reachable state, System/Safety is
--   about deliveries, System/Once about how often a message is delivered, and System/Calm about runs
--   in which nothing is lost and no subscription changes: System/Calm/Work bounds the arrivals, and
--   System/Calm/Settled is about what has been delivered at the end. System/Alone is about one engine
--   at which a nuzzle has subscribed several times.
-- - Tests: every result below with a condition or a parameter, at a concrete input.
--
-- How: a node is a record of the fields of its class, a handler a function from the state and a
-- message to the new state and the messages that it sends, in order. A connection is a number, its
-- address. `none` is the result of what is undefined in C++, such as `erase` of what `find` did not
-- find. The fields of a local struct that the source leaves uninitialised are parameters (`Locals`).
-- The sender and the receiver are state machines: a step is one completion handler of asio, and the
-- bytes, errors and times are in the event; what the sender does with a header longer than its buffer
-- is undefined, and a phase of its own. Unsigned fields are natural numbers; where the code adds
-- or subtracts them, the arithmetic wraps at their width. One handler of a node runs at a
-- time; the mutexes and the concurrent containers are not modelled further.
--
-- Fuel: the loop of `split` runs on the length of the string and one, and std::to_string on the
-- number and one: a round takes a character, or a decimal digit. The loops of the programs over a range
-- of topics run on fuel that is a parameter; a round takes a topic, so that the size of the range and
-- one is enough, unless the range ends at 2^64 - 1. All other loops are structural.
--
-- Not modelled: the signal handlers and the output of the programs, the calls of sockets and threads,
-- which are answered by parameters and events, functions that only delete a message, other calls of the
-- operating system, and the libraries under external/. Parsing by protobuf, the conversions of the C library and the division
-- by a float are parameters.
pub mod Base
pub mod Api
pub mod Engine
pub mod Nuzzle
pub mod Network
pub mod Pump
pub mod Publisher
pub mod Consumer
pub mod Links
pub mod Threading
pub mod Util
pub mod Servers
pub mod System
pub mod Programs
pub mod Tests
