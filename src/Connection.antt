-- ===== src/Connection.antt =====
-- source/server/io_wally/mqtt_connection.cpp and mqtt_connection_manager.cpp: one client's
-- connection. What a handler asks of the socket, of the timers and of the other connections is the
-- list of its actions, in order. A stop that is requested is an action, which `do_stop` goes into. The frame
-- that the frame reader has read is an argument.
pub mod Reading
pub mod Lifecycle
pub mod Closing
pub mod Frames
pub mod Packets
pub mod Unconnected
use wally_io.Prelude.{
  ℕ, Bytes, List, [], ◌∷◌, ◌++◌, any, map, Bool, true, false, not, ltb, ◌==◌, if◌then◌else◌, Option,
  none, some, Result, ok, err, ◌>>=◌, ◌>>◌, assert, assertion_failed, empty_optional, malformed,
  unsupported_type, bad_cast, read_past_end, out_of_fuel,
}
use wally_io.Reader.{Frame}
use wally_io.Packet.{
  Connect, FixedHeader, MqttPacket, connection_accepted, bad_username_or_password, make_connack,
  make_pingresp, make_disconnect,
}
use wally_io.Decoder.{decode}
use wally_io.Tx.{Effect}
use wally_io.Sessions.{Senders, SessionManager, Output}
use wally_io.Dispatcher.{
  DisconnectReason, not_a_disconnect, client_disconnect, authentication_failed, protocol_violation,
  keep_alive_timeout_expired, network_or_server_failure, PacketContainer, handle_packet_received,
  client_disconnected_ungracefully,
}

-- The std::error_code that a handler of an asynchronous operation is called with.
pub data ErrorCode : Type 0 where
  no_error operation_aborted other_error : ErrorCode

pub data Action : Type 0 where
  effect : ℕ → Effect → Action
  write : MqttPacket → Action
  write_and_close : MqttPacket → DisconnectReason → Action
  read_next request_stop close_socket : Action
  start_connect_timer cancel_connect_timer cancel_keep_alive_timer : Action
  start_keep_alive_timer : ℕ → Action

pub record Connection : Type 0 where
  pub id : ℕ
  pub client_id : Option Bytes
  pub is_open : Bool
  pub keep_alive : Option ℕ

-- The other connections, and the authentication service that the context names.
pub record Server : Type 0 where
  pub senders : Senders
  pub authenticate : Option Bytes → Option Bytes → Bool

abbrev pub Step : Type 0
Step = Result (Connection × SessionManager × List Action)

-- The senders, with the client identifier that this connection has now.
abbrev pub known : Connection → Senders → Senders
known connection senders = record senders {
  client_id = λ c. if c == connection.id then connection.client_id else senders.client_id c;
}

abbrev pub effects : Output → List Action
effects output = map (λ e. effect e.0 e.1) output

abbrev pub then_do : List Action → Step → Step
then_do actions step = step >>= λ r. ok (r.0, r.1, actions ++ r.2)

abbrev pub and_then : Step → List Action → Step
and_then step actions = step >>= λ r. ok (r.0, r.1, r.2 ++ actions)

-- `read_frame` and `write_packet`
abbrev pub read_frame : Connection → List Action
read_frame connection = if connection.is_open then read_next ∷ [] else []

-- Whether a handler has stopped the connection: `mqtt_connection::stop` closes the socket at once,
-- since it is called within the connection's strand.
abbrev pub stops_connection : ℕ → Action → Bool
stops_connection id (effect c Effect.stop) = c == id
stops_connection id request_stop = true
stops_connection id _ = false

-- `read_frame` at the end of a handler, behind what the handler has done.
abbrev pub read_frame_behind : List Action → Connection → List Action
read_frame_behind actions connection =
    if any (stops_connection connection.id) actions then [] else read_frame connection

abbrev pub then_read : Step → Step
then_read step = step >>= λ r. ok (r.0, r.1, r.2 ++ read_frame_behind r.2 r.0)

abbrev pub write_packet : MqttPacket → Connection → List Action
write_packet packet connection = if connection.is_open then write packet ∷ [] else []

abbrev pub write_packet_and_close_connection :
    MqttPacket → DisconnectReason → Connection → List Action
write_packet_and_close_connection packet reason connection =
    if connection.is_open then write_and_close packet reason ∷ [] else []

-- `close_on_keep_alive_timeout`
abbrev pub close_on_keep_alive_timeout : Connection → List Action
close_on_keep_alive_timeout connection = elim connection.keep_alive [
  | none ↦ []
  | some seconds ↦ start_keep_alive_timer seconds ∷ []
]

-- The start of a connection.
abbrev pub start_connection : Connection → List Action
start_connection connection = start_connect_timer ∷ read_frame connection

unfoldable pub do_stop : Connection → Connection × List Action
do_stop connection = (
  record connection { is_open = false },
  cancel_connect_timer ∷ cancel_keep_alive_timer ∷ close_socket ∷ [],
)

-- A packet goes to the dispatcher. The client identifier is read whether it is there or not.
unfoldable pub dispatch_as :
    Server → DisconnectReason → MqttPacket → Connection → SessionManager → Step
unfolding handle_packet_received
dispatch_as server reason packet connection m = elim connection.client_id [
  | none ↦ err empty_optional
  | some client_id ↦
      (handle_packet_received (known connection server.senders)
          (record {
            client_id = client_id;
            rx_connection = connection.id;
            packet = packet;
            disconnect_reason = reason;
          })
          m
        >>= λ r. ok (connection, r.0, effects r.1))
]

unfoldable pub dispatch_packet : Server → MqttPacket → Connection → SessionManager → Step
unfolding dispatch_as
dispatch_packet server packet connection m = dispatch_as server not_a_disconnect packet connection m

unfoldable pub dispatch_disconnect_packet :
    Server → FixedHeader → DisconnectReason → Connection → SessionManager → Step
unfolding dispatch_as
dispatch_disconnect_packet server packet reason connection m =
    and_then (dispatch_as server reason (MqttPacket.disconnect packet) connection m)
      (request_stop ∷ [])

-- The container has the CONNECT's client identifier.
unfoldable pub dispatch_connect_packet : Server → Connect → Connection → SessionManager → Step
unfolding handle_packet_received
dispatch_connect_packet server connect connection m =
    handle_packet_received (known connection server.senders)
      (record {
        client_id = connect.client_id;
        rx_connection = connection.id;
        packet = MqttPacket.connect connect;
        disconnect_reason = client_disconnect;
      })
      m
    >>= λ r.
        let connack = MqttPacket.connack (make_connack false connection_accepted) in
        ok (connection, r.0, effects r.1 ++ write_packet connack connection)

-- The reasons that `connection_close_requested` takes for an ungraceful disconnect.
abbrev pub is_ungraceful : DisconnectReason → Bool
is_ungraceful network_or_server_failure = true
is_ungraceful protocol_violation = true
is_ungraceful keep_alive_timeout_expired = true
is_ungraceful _ = false

unfoldable pub connection_close_requested :
    Server → DisconnectReason → Connection → SessionManager → Step
unfolding client_disconnected_ungracefully dispatch_disconnect_packet
connection_close_requested server reason connection m = elim connection.client_id [
  | none ↦ ok (connection, m, request_stop ∷ [])
  | some client_id ↦
      if is_ungraceful reason
      then (client_disconnected_ungracefully (known connection server.senders) client_id reason m
          >>= λ r. ok (connection, r.0, effects r.1 ++ request_stop ∷ []))
      else dispatch_disconnect_packet server make_disconnect reason connection m
]
