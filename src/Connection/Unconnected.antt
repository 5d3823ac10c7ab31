-- ===== src/Connection/Unconnected.antt =====
-- A connection before its CONNECT: what it does with any frame of another type (`on_frame_read`,
-- `decode_packet` and `process_decoded_packet` of mqtt_connection.cpp, and the decoders).
use wally_io.Prelude.{
  ◌≡◌, ◌≢◌, refl, ap, sym, ◌∙◌, ◌⊎◌, inl, inr, [], ◌∷◌, ◌++◌, true, false, none, some, Reason, ok,
  err, malformed, unsupported_type, empty_optional,
}
use wally_io.Protocol.{PacketType, type_of}
use wally_io.Packet.{MqttPacket, make_pingresp}
use wally_io.Reader.{Frame}
use wally_io.Decoder.{decode}
use wally_io.Decoder.Types.{class_of, decode-class}
use wally_io.Decoder.Total.{is_decoded, decode_cases}
use wally_io.Sessions.{SessionManager}
use wally_io.Connection.{
  no_error, cancel_keep_alive_timer, request_stop, Connection, Server, Step, read_frame,
  write_packet, dispatch_as, dispatch_packet, dispatch_disconnect_packet,
  connection_close_requested,
}
use wally_io.Connection.Reading.{on_frame_read, decode_packet, process_decoded_packet}

-- A packet that is no CONNECT is PINGREQ, and is answered, or its handler reads the client
-- identifier that is not there.
abbrev IsAnswer : PacketType → Connection → SessionManager → Step → Type 0
IsAnswer type connection m result =
    ((type ≡ PacketType.pingreq)
      × (result
          ≡ ok (
            connection,
            m,
            write_packet (MqttPacket.pingresp make_pingresp) connection ++ read_frame connection,
          )))
    ⊎ ((type ≢ PacketType.pingreq) × (result ≡ err empty_optional))

process_decoded_packet-IsAnswer :
    (server : Server) (packet : MqttPacket) (connection : Connection) (m : SessionManager)
    → connection.client_id ≡ none
    → is_decoded (class_of packet) ≡ true
    → class_of packet ≢ PacketType.connect
    → IsAnswer (class_of packet) connection m (process_decoded_packet server packet connection m)
unfolding process_decoded_packet dispatch_packet dispatch_disconnect_packet dispatch_as
process_decoded_packet-IsAnswer server (MqttPacket.connect _) connection m unknown d other =
    absurd (other refl)
process_decoded_packet-IsAnswer server (MqttPacket.pingreq _) connection m unknown d other =
    inl (refl, refl)
process_decoded_packet-IsAnswer server (MqttPacket.connack _) connection m unknown d other = cc d
process_decoded_packet-IsAnswer server (MqttPacket.suback _) connection m unknown d other = cc d
process_decoded_packet-IsAnswer server (MqttPacket.unsuback _) connection m unknown d other = cc d
process_decoded_packet-IsAnswer server (MqttPacket.pingresp _) connection m unknown d other = cc d
process_decoded_packet-IsAnswer server (MqttPacket.disconnect _) connection m unknown d other =
    inr ((λ e. cc e), rw (dispatch_as, unknown))
process_decoded_packet-IsAnswer server (MqttPacket.publish _) connection m unknown d other =
    inr ((λ e. cc e), rw (dispatch_as, unknown))
process_decoded_packet-IsAnswer server (MqttPacket.puback _) connection m unknown d other =
    inr ((λ e. cc e), rw (dispatch_as, unknown))
process_decoded_packet-IsAnswer server (MqttPacket.pubrec _) connection m unknown d other =
    inr ((λ e. cc e), rw (dispatch_as, unknown))
process_decoded_packet-IsAnswer server (MqttPacket.pubrel _) connection m unknown d other =
    inr ((λ e. cc e), rw (dispatch_as, unknown))
process_decoded_packet-IsAnswer server (MqttPacket.pubcomp _) connection m unknown d other =
    inr ((λ e. cc e), rw (dispatch_as, unknown))
process_decoded_packet-IsAnswer server (MqttPacket.subscribe _) connection m unknown d other =
    inr ((λ e. cc e), rw (dispatch_as, unknown))
process_decoded_packet-IsAnswer server (MqttPacket.unsubscribe _) connection m unknown d other =
    inr ((λ e. cc e), rw (dispatch_as, unknown))

-- Any frame whose type is not CONNECT, read on a connection that has not had its CONNECT. If the type
-- is not one of the ten that the server decodes, std::invalid_argument leaves the handler. Else the
-- frame is malformed, or it is decoded. If it is malformed the connection is to stop; a PINGREQ is
-- answered by a PINGRESP, and the next frame is read if the connection is open; and every other packet that is decoded
-- makes the handler read the client identifier, which is not there. Where the handler ends without
-- an exception, the connection and the state of the session manager are as they were.
pub on_frame_read-unconnected :
    (server : Server) (frame : Frame) (connection : Connection) (m : SessionManager)
    → connection.client_id ≡ none
    → type_of frame.type_and_flags ≢ PacketType.connect
    → let type = type_of frame.type_and_flags in
      let result = on_frame_read server no_error (some frame) connection m in
      let pingresp = write_packet (MqttPacket.pingresp make_pingresp) connection in
      ((is_decoded type ≡ false) × (result ≡ err unsupported_type))
      ⊎ ((r : Reason) × (decode frame ≡ err (malformed r))
          × (result ≡ ok (connection, m, cancel_keep_alive_timer ∷ request_stop ∷ [])))
      ⊎ ((type ≡ PacketType.pingreq)
          × (packet : MqttPacket) × (decode frame ≡ ok packet)
          × (result
              ≡ ok (connection, m, cancel_keep_alive_timer ∷ (pingresp ++ read_frame connection))))
      ⊎ ((type ≢ PacketType.pingreq)
          × (packet : MqttPacket) × (decode frame ≡ ok packet)
          × (result ≡ err empty_optional))
unfolding on_frame_read decode_packet connection_close_requested
on_frame_read-unconnected server frame connection m unknown other = elim (decode_cases frame) [
  | inl (undecoded, e) ↦ inl (undecoded, rw (decode_packet, e) refl)
  | inr (inr (inl (_, r, e))) ↦ inr (inl (r, e, rw (decode_packet, e, unknown) refl))
  | inr (inr (inr (is, _))) ↦ absurd (other is)
  | inr (inl (decoded, packet, e, _)) ↦
      let same = (decode-class frame packet e).0 in
      elim (process_decoded_packet-IsAnswer server packet connection m unknown
        (ap is_decoded same ∙ decoded) (λ c. other (sym same ∙ c))) [
          | inl (ping, answer) ↦
              inr (inr (inl (sym same ∙ ping, packet, e, rw (decode_packet, e, answer) refl)))
          | inr (no_ping, fails) ↦
              inr (
                inr (inr ((λ c. no_ping (same ∙ c)), packet, e, rw (decode_packet, e, fails) refl)))
        ]
]
