-- ===== src/Connection/Reading.antt =====
-- What a connection does with the packets that it reads (mqtt_connection.cpp).
use wally_io.Prelude.{
  List, [], ◌∷◌, ◌++◌, false, not, ltb, if◌then◌else◌, Option, none, some, ok, err,
  assertion_failed, empty_optional, malformed, unsupported_type, bad_cast, read_past_end,
  out_of_fuel,
}
use wally_io.Reader.{Frame}
use wally_io.Packet.{Connect, MqttPacket, bad_username_or_password, make_connack, make_pingresp}
use wally_io.Decoder.{decode}
use wally_io.Sessions.{SessionManager}
use wally_io.Dispatcher.{
  client_disconnect, authentication_failed, protocol_violation, keep_alive_timeout_expired,
  network_or_server_failure,
}
use wally_io.Connection.{
  ErrorCode, no_error, operation_aborted, other_error, Action, cancel_connect_timer,
  cancel_keep_alive_timer, Connection, Server, Step, then_do, read_frame, then_read, write_packet,
  write_packet_and_close_connection, close_on_keep_alive_timeout, dispatch_packet,
  dispatch_disconnect_packet, dispatch_connect_packet, connection_close_requested,
}

unfoldable pub process_connect_packet : Server → Connect → Connection → SessionManager → Step
unfolding connection_close_requested dispatch_connect_packet
process_connect_packet server connect connection m = elim connection.client_id [
  | some client_id ↦ connection_close_requested server protocol_violation connection m
  | none ↦
      let connack = MqttPacket.connack (make_connack false bad_username_or_password) in
      let known_as = record connection {
        client_id = some connect.client_id;
        keep_alive =
            if ltb 0 connect.keep_alive_secs
            then some connect.keep_alive_secs
            else connection.keep_alive;
      } in
      let timer : List Action =
        if ltb 0 connect.keep_alive_secs then close_on_keep_alive_timeout known_as else [] in
      if not (server.authenticate connect.username connect.password)
      then ok (
        connection,
        m,
        write_packet_and_close_connection connack authentication_failed connection,
      )
      else then_do (cancel_connect_timer ∷ timer)
          (dispatch_connect_packet server connect known_as m)
]

unfoldable pub process_decoded_packet : Server → MqttPacket → Connection → SessionManager → Step
unfolding process_connect_packet dispatch_packet dispatch_disconnect_packet
process_decoded_packet server (MqttPacket.connect p) connection m =
    then_read (process_connect_packet server p connection m)
process_decoded_packet server (MqttPacket.pingreq h) connection m = ok (
  connection,
  m,
  write_packet (MqttPacket.pingresp make_pingresp) connection ++ read_frame connection,
)
process_decoded_packet server (MqttPacket.disconnect h) connection m =
    dispatch_disconnect_packet server h client_disconnect connection m
process_decoded_packet server (MqttPacket.connack p) connection m = err assertion_failed
process_decoded_packet server (MqttPacket.suback p) connection m = err assertion_failed
process_decoded_packet server (MqttPacket.unsuback p) connection m = err assertion_failed
process_decoded_packet server (MqttPacket.pingresp h) connection m = err assertion_failed
process_decoded_packet server packet connection m =
    then_read (dispatch_packet server packet connection m)

-- Only `malformed_mqtt_packet` is caught. The dispatcher throws none.
unfoldable pub decode_packet : Server → Option Frame → Connection → SessionManager → Step
unfolding decode process_decoded_packet connection_close_requested
decode_packet server none connection m = err assertion_failed
decode_packet server (some frame) connection m = elim (decode frame) [
  | ok packet ↦ process_decoded_packet server packet connection m
  | err (malformed reason) ↦ connection_close_requested server protocol_violation connection m
  | err unsupported_type ↦ err unsupported_type
  | err bad_cast ↦ err bad_cast
  | err assertion_failed ↦ err assertion_failed
  | err read_past_end ↦ err read_past_end
  | err empty_optional ↦ err empty_optional
  | err out_of_fuel ↦ err out_of_fuel
]

unfoldable pub on_read_failed : Server → ErrorCode → Connection → SessionManager → Step
unfolding connection_close_requested
on_read_failed server no_error connection m = err assertion_failed
on_read_failed server operation_aborted connection m = ok (connection, m, [])
on_read_failed server other_error connection m =
    connection_close_requested server network_or_server_failure connection m

unfoldable pub on_frame_read :
    Server → ErrorCode → Option Frame → Connection → SessionManager → Step
unfolding decode_packet on_read_failed
on_frame_read server no_error frame connection m =
    then_do (cancel_keep_alive_timer ∷ []) (decode_packet server frame connection m)
on_frame_read server ec frame connection m =
    then_do (cancel_keep_alive_timer ∷ []) (on_read_failed server ec connection m)

-- The timers have expired, or were cancelled.
unfoldable pub handle_connect_timeout : Server → ErrorCode → Connection → SessionManager → Step
unfolding connection_close_requested
handle_connect_timeout server no_error connection m =
    connection_close_requested server protocol_violation connection m
handle_connect_timeout server ec connection m = ok (connection, m, [])

unfoldable pub handle_keep_alive_timeout : Server → ErrorCode → Connection → SessionManager → Step
unfolding connection_close_requested
handle_keep_alive_timeout server no_error connection m =
    connection_close_requested server keep_alive_timeout_expired connection m
handle_keep_alive_timeout server operation_aborted connection m =
    ok (connection, m, if connection.is_open then close_on_keep_alive_timeout connection else [])
handle_keep_alive_timeout server other_error connection m = err assertion_failed
