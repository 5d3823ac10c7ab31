-- ===== src/Connection/Packets.antt =====
-- Every frame of a connection whose client is known is handled (`on_frame_read` of
-- mqtt_connection.cpp), so that the server goes on.
use wally_io.Prelude.{
  ◌≡◌, ◌≢◌, refl, ap, ◌∙◌, inl, inr, Bytes, List, [], ◌∷◌, ◌++◌, true, Option, none, some, Result,
  ok, err, read_past_end, empty_optional, ◌>>=◌, find_name,
}
use wally_io.Protocol.{type_of}
use wally_io.Packet.{Connect, Publish, MqttPacket}
use wally_io.Reader.{Frame}
use wally_io.Decoder.{decode}
use wally_io.Decoder.Types.{class_of, decode-class}
use wally_io.Decoder.Total.{is_decoded, decode_cases}
use wally_io.Sessions.{Session, SessionManager, Output}
use wally_io.Sessions.Invariant.{IsManager, HasRooms}
use wally_io.Sessions.Departures.{IsWillOf}
use wally_io.Dispatcher.{
  DisconnectReason, PacketContainer, not_a_disconnect, client_disconnect, protocol_violation,
  handle_packet_received,
}
use wally_io.Dispatcher.Invariant.{IsWelcome, handle_packet_received_lem}
use wally_io.Connection.{
  Action, effects, request_stop, no_error, cancel_keep_alive_timer, Connection, Server, Step, known,
  read_frame_behind, then_read, dispatch_as, dispatch_packet, dispatch_disconnect_packet,
}
use wally_io.Connection.Reading.{
  on_frame_read, decode_packet, process_decoded_packet, process_connect_packet,
}
use wally_io.Connection.Closing.{connection_close_requested_lem}

-- A second CONNECT closes the connection, and PINGREQ is answered, whatever they hold.
abbrev pub IsAnswerable : Server → Connection → Bytes → SessionManager → MqttPacket → Type 0
IsAnswerable server connection client m (MqttPacket.connect c) = Unit {0}
IsAnswerable server connection client m (MqttPacket.pingreq h) = Unit {0}
IsAnswerable server connection client m packet =
    IsWelcome (known connection server.senders) client connection.id m packet

-- The handler ends, and leaves a well-formed state and the connection's client and socket as they are.
abbrev pub Continues : Connection → Step → Type 0
Continues connection result =
    (m' : SessionManager) × (actions : List Action) × (result ≡ ok (connection, m', actions))
    × IsManager m'

module _ (server : Server) (connection : Connection) (client : Bytes) (s : Session)
    (will : Option Publish) (m : SessionManager) (v : IsManager m) (rooms : HasRooms m)
    (known_as : connection.client_id ≡ some client) (found : find_name client m.sessions ≡ some s)
    (is_will : IsWillOf s.lwt_message will) where
  dispatched-Continues :
      (reason : DisconnectReason) (packet : MqttPacket)
      → IsWelcome (known connection server.senders) client connection.id m packet
      → Continues connection (dispatch_as server reason packet connection m)
  unfolding dispatch_as
  dispatched-Continues reason packet welcome =
      let container : Bytes → PacketContainer = λ client_id. record {
        client_id = client_id;
        rx_connection = connection.id;
        packet = packet;
        disconnect_reason = reason;
      } in
      let handled : Bytes → Result (SessionManager × Output) = λ client_id.
        handle_packet_received (known connection server.senders) (container client_id) m in
      let passed_on : Result (SessionManager × Output) → Step =
        λ h. h >>= λ r. ok (connection, r.0, effects r.1) in
      let (m', output, e, v') =
        handle_packet_received_lem (known connection server.senders) (container client) m v
          welcome in
      (
        m',
        effects output,
        ap
              (λ (id : Option Bytes). elim id [
                | none ↦ err empty_optional
                | some client_id ↦ passed_on (handled client_id)
              ])
              known_as
            ∙ ap passed_on e,
        v',
      )

  -- The packets that go to the dispatcher, behind which the next frame is read.
  relayed-Continues :
      (packet : MqttPacket)
      → IsWelcome (known connection server.senders) client connection.id m packet
      → Continues connection (then_read (dispatch_packet server packet connection m))
  unfolding dispatch_packet
  relayed-Continues packet welcome =
      let (m', actions, e, v') = dispatched-Continues not_a_disconnect packet welcome in
      (m', actions ++ read_frame_behind actions connection, rw e refl, v')

  second_connect-Continues :
      (c : Connect)
      → Continues connection (process_decoded_packet server (MqttPacket.connect c) connection m)
  unfolding process_decoded_packet process_connect_packet
  second_connect-Continues c =
      let (m', output, e, v', _) =
        connection_close_requested_lem server protocol_violation connection client s will m v rooms
          known_as found is_will in
      (
        m',
        (effects output ++ request_stop ∷ [])
            ++ read_frame_behind (effects output ++ request_stop ∷ []) connection,
        simp (process_connect_packet, known_as, e),
        v',
      )

  process_decoded_packet-Continues :
      (packet : MqttPacket)
      → is_decoded (class_of packet) ≡ true
      → IsAnswerable server connection client m packet
      → Continues connection (process_decoded_packet server packet connection m)
  unfolding process_decoded_packet dispatch_disconnect_packet
  process_decoded_packet-Continues (MqttPacket.connect c) d h = second_connect-Continues c
  process_decoded_packet-Continues (MqttPacket.pingreq _) d h = (m, _, refl, v)
  process_decoded_packet-Continues (MqttPacket.disconnect x) d h =
      let (m', actions, e, v') =
        dispatched-Continues client_disconnect (MqttPacket.disconnect x) h in
      (m', actions ++ request_stop ∷ [], rw e refl, v')
  process_decoded_packet-Continues (MqttPacket.connack _) d h = cc d
  process_decoded_packet-Continues (MqttPacket.suback _) d h = cc d
  process_decoded_packet-Continues (MqttPacket.unsuback _) d h = cc d
  process_decoded_packet-Continues (MqttPacket.pingresp _) d h = cc d
  process_decoded_packet-Continues (MqttPacket.publish p) d h =
      relayed-Continues (MqttPacket.publish p) h
  process_decoded_packet-Continues (MqttPacket.puback p) d h =
      relayed-Continues (MqttPacket.puback p) h
  process_decoded_packet-Continues (MqttPacket.pubrec p) d h =
      relayed-Continues (MqttPacket.pubrec p) h
  process_decoded_packet-Continues (MqttPacket.pubrel p) d h =
      relayed-Continues (MqttPacket.pubrel p) h
  process_decoded_packet-Continues (MqttPacket.pubcomp p) d h =
      relayed-Continues (MqttPacket.pubcomp p) h
  process_decoded_packet-Continues (MqttPacket.subscribe p) d h =
      relayed-Continues (MqttPacket.subscribe p) h
  process_decoded_packet-Continues (MqttPacket.unsubscribe p) d h =
      relayed-Continues (MqttPacket.unsubscribe p) h

  decode_packet-Continues :
      (frame : Frame)
      → is_decoded (type_of frame.type_and_flags) ≡ true
      → decode frame ≢ err read_past_end
      → ((packet : MqttPacket)
          → decode frame ≡ ok packet
          → IsAnswerable server connection client m packet)
      → Continues connection (decode_packet server (some frame) connection m)
  unfolding decode_packet
  decode_packet-Continues frame supported whole answerable = elim (decode_cases frame) [
    | inl (undecoded, _) ↦ cc (undecoded, supported)
    | inr (inl (_, packet, e, _)) ↦
        let same = (decode-class frame packet e).0 in
        let (m', actions, e', v') =
          process_decoded_packet-Continues packet (ap is_decoded same ∙ supported)
            (answerable packet e) in
        (m', actions, rw (decode_packet, e) e', v')
    | inr (inr (inl (_, r, e))) ↦
        let (m', output, e', v', _) =
          connection_close_requested_lem server protocol_violation connection client s will m v
            rooms known_as found is_will in
        (m', effects output ++ request_stop ∷ [], rw (decode_packet, e) e', v')
    | inr (inr (inr (_, e))) ↦ absurd (whole e)
  ]

-- A frame of one of the ten types that the server decodes, read on a connection whose client is known and has
-- a session, and not a CONNECT that ends too early. The state is well formed, the next packet
-- identifier of every session is free, and the session has no last will or one that can be sent; and
-- no assertion stands against the packet, if there is one and it is neither CONNECT nor PINGREQ. Then the
-- handler ends without an exception or a failed assertion, and the state stays well formed.
pub on_frame_read-Continues :
    (server : Server) (frame : Frame) (connection : Connection) (client : Bytes) (s : Session)
    (will : Option Publish) (m : SessionManager)
    → IsManager m
    → HasRooms m
    → connection.client_id ≡ some client
    → find_name client m.sessions ≡ some s
    → IsWillOf s.lwt_message will
    → is_decoded (type_of frame.type_and_flags) ≡ true
    → decode frame ≢ err read_past_end
    → ((packet : MqttPacket)
        → decode frame ≡ ok packet
        → IsAnswerable server connection client m packet)
    → Continues connection (on_frame_read server no_error (some frame) connection m)
unfolding on_frame_read
on_frame_read-Continues server frame connection client s will m v rooms known_as found is_will
      supported whole answerable =
    let (m', actions, e, v') =
      decode_packet-Continues server connection client s will m v rooms known_as found is_will frame
        supported whole answerable in
    (m', cancel_keep_alive_timer ∷ actions, rw e refl, v')
