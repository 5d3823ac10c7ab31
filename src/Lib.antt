-- ===== src/Lib.antt =====
-- wally-io, an MQTT 3.1.1 broker: a model of its protocol, its codecs, its subscriptions,
-- its publications in flight, its retained messages, its sessions, its connections and its server,
-- with their theorems. A state of the session manager is well formed (IsManager of Sessions/Invariant) if each
-- session stands under its own client identifier, with publications that wait under their own packet
-- identifiers, no subscription stands twice or has the reserved QoS, and each retained message stands
-- under its topic and can be sent to every client.
--
-- The server accepts connections and manages them. A connection reads bytes into a buffer until the frame reader has a whole packet. The frame is
-- decoded into a packet, which the connection processes itself (CONNECT, PINGREQ, DISCONNECT) or
-- hands to the dispatcher. The dispatcher passes it to the session manager, which keeps the sessions,
-- the subscriptions and the retained messages; a session keeps the publications in flight to and from
-- its client. What they answer is encoded and sent by the connections.
--
-- The paths below are from source/server/io_wally.
-- Prelude: the names that all share. Prelude/Outcome has the exceptions and the failed assertions
--   (asserts are on in the build) as values. Bytes and chars are numbers below 256; widths that can
--   wrap around have their `% 2 ^ w`.
-- Protocol: protocol/common.hpp, the QoS, the packet types and the bits of the first byte.
-- Wire: codec/encoder.hpp and the free functions of codec/decoder.hpp. The loop that writes a
--   remaining length has fuel for the five rounds that a uint32_t can take.
-- Reader: `frame` and `frame_reader` of codec/decoder.hpp. Reader/Stream has asio::async_read as a
--   relation that calls `read_on` after each read, the sizes of the reads being the network's.
-- Topic: the checks of topic names and filters, and dispatch/common.cpp.
-- Packet: the packets of protocol/, Packet/PublishPacket the operations of the one that changes.
-- Encoder: the encoders of codec/. An output iterator is the list of the bytes written.
-- Decoder: the decoders of codec/. The iterators into a frame are the list of the bytes left, and
--   a read behind it is the error `read_past_end`. The loops over the payloads of SUBSCRIBE and
--   UNSUBSCRIBE have the payload's length as fuel.
-- Subscriptions: dispatch/topic_subscriptions.cpp. A std::unordered_set is the list of its elements
--   in the order of iteration; nothing is assumed of that order.
-- Tx: dispatch/tx_publication.cpp. What a call does to the sender, the timer and the table is a list
--   of effects. Tx/Qos1/Delivery and Tx/Qos2/Delivery have the life of a publication as a relation.
--   Tx/Table is dispatch/tx_in_flight_publications.cpp: `publish` has the shared PUBLISH among its
--   results, since QoS 0 changes it in place.
-- Rx: dispatch/rx_publication.cpp, and Rx/Table dispatch/rx_in_flight_publications.cpp. The locked
--   weak pointer to the sender is the argument `connected`.
-- Retained: dispatch/retained_messages.cpp. A std::unordered_map is the list of its entries in the
--   order of iteration. The pointers to the messages are compared by the topic: each message stands
--   under its own.
-- Sessions: dispatch/mqtt_client_session.cpp and, in Sessions/Manager, the handlers of
--   dispatch/mqtt_client_session_manager.cpp. Connections are numbers; the record Senders has what the
--   other side of a weak pointer to one says, and stays the same throughout a handler. A retained
--   message and a PUBLISH that several clients get are shared objects: their changes are written back.
-- Dispatcher: dispatch/dispatcher.cpp and `packet_container` of dispatch/common.hpp. In
--   Dispatcher/Reachable the packets, the departures and the timers are the steps of a relation, and in
--   Dispatcher/Sendable what is sent at each of them, to which Tx/Sendable, Tx/Resent, Rx/Sendable,
--   Sessions/Sendable, Sessions/Sending and Sessions/Answering have the handlers' parts.
-- Sessions/Remaining and Sessions/Quiet have what a PUBLISH leaves as it is, the sessions and the
--   connections.
-- Connection: mqtt_connection.cpp. Connection/Reading has the handlers of packets and timers,
--   Connection what they call; the actions asked of the socket and the timers are a list.
--   Connection/Unconnected is about the time before the CONNECT.
-- ConnectionManager: mqtt_connection_manager.cpp, the managed connections as the list of their
--   pointers beside the connections themselves.
-- MqttServer: mqtt_server.cpp. In MqttServer/Running accepted connections, their handlers and stops
--   and the closing of all are the steps of a relation.
-- ServicePool: concurrency/io_service_pool.hpp. The threads that call `io_service()` share its
--   counter; a schedule says whose access of it comes next.
-- Tests: runs on concrete packets, and the theorems applied to them.
--
-- Not modelled: sockets, the start and the end of threads, logging, options and the printing of
-- packets, which are calls of the system and of other libraries; the authentication service, which
-- is a parameter; the write buffer of a connection; and which handler runs next. A stop that a
-- connection asks for within its strand closes its socket at once: no frame is read behind it, and
-- `do_stop` is what it comes to. An exception of the encoder in the middle of a handler is not passed through the
-- handlers of the sessions: what they send is a packet, which the connection encodes.
pub mod Prelude
pub mod Protocol
pub mod Wire
pub mod Reader
pub mod Topic
pub mod Packet
pub mod Dispatcher
pub mod Encoder
pub mod Connection
pub mod ServicePool
pub mod ConnectionManager
pub mod MqttServer
pub mod Decoder
pub mod Sessions
pub mod Subscriptions
pub mod Tx
pub mod Retained
pub mod Rx
pub mod Tests
