-- ===== src/Connection/Frames.antt =====
-- From the frame to the sessions: what a connection whose client is known does with a frame that it
-- has read (`on_frame_read` and `decode_packet` of mqtt_connection.cpp, the decoders, the dispatcher
-- and the session manager).
use wally_io.Prelude.{
  ℕ, any, ◌+◌, ◌≤◌, ◌<◌, ◌≡◌, refl, ap, ◌∙◌, ◌⊎◌, inl, inr, Bytes, [], ◌∷◌, ◌++◌, true, false,
  length, Option, some, Reason, ok, err, malformed, find_name, arith,
}
use wally_io.Protocol.{PacketType, type_of, max_allowed_packet_length}
use wally_io.Packet.{Publish, MqttPacket}
use wally_io.Packet.PublishPacket.{retain, has_packet_identifier, qos}
use wally_io.Encoder.Lengths.{length-publish_body}
use wally_io.Encoder.Publications.{IsRelayable}
use wally_io.Reader.{Frame}
use wally_io.Decoder.{decode}
use wally_io.Decoder.RoundTrip.{IsValid}
use wally_io.Decoder.Parts.{AreBytes, IsRead}
use wally_io.Decoder.Publications.{decode-IsRead}
use wally_io.Decoder.Types.{class_of, decode-class}
use wally_io.Decoder.Total.{decode_cases}
use wally_io.Rx.Events.{present}
use wally_io.Sessions.{Session, SessionManager, Output}
use wally_io.Sessions.Invariant.{IsManager, HasRooms}
use wally_io.Sessions.Publications.{IsDispatched}
use wally_io.Sessions.Retaining.{unretained, IsRetaining, client_published_lem}
use wally_io.Tx.{Effect, send, start_timer, cancel_timer, release}
use wally_io.Sessions.Manager.{client_published}
use wally_io.Sessions.Quiet.{OutputIsQuiet, client_published-IsQuiet}
use wally_io.Sessions.Departures.{IsWillOf, IsParting}
use wally_io.Dispatcher.{protocol_violation, handle_packet, handle_packet_received}
use wally_io.Connection.{
  no_error, cancel_keep_alive_timer, request_stop, Connection, Server, Step, known, effects,
  stops_connection, read_frame, dispatch_as, dispatch_packet,
}
use wally_io.Connection.Reading.{on_frame_read, decode_packet, process_decoded_packet}
use wally_io.Connection.Closing.{connection_close_requested_lem}

-- A PUBLISH that was decoded can be handed on to every client, if its frame leaves two bytes for a
-- packet identifier.
pub IsRead-IsRelayable :
    (frame : Frame) (p : Publish)
    → frame.type_and_flags < 256
    → length frame.payload + 2 ≤ max_allowed_packet_length
    → IsRead frame p
    → IsRelayable p
unfolding has_packet_identifier qos
IsRead-IsRelayable frame p byte room read =
    let c = read.valid.consistent in
    let size = length-publish_body p c in
    record {
      consistent = c;
      byte = omega (arith, read.first_byte);
      unreserved = read.valid.qos_unreserved;
      room = omega (arith, c.counted, size, ap length read.body);
    }

publish_of :
    (packet : MqttPacket)
    → class_of packet ≡ PacketType.publish
    → (p : Publish) × (packet ≡ MqttPacket.publish p)
publish_of (MqttPacket.publish p) e = (p, refl)
publish_of (MqttPacket.connect _) e = cc e
publish_of (MqttPacket.connack _) e = cc e
publish_of (MqttPacket.puback _) e = cc e
publish_of (MqttPacket.pubrec _) e = cc e
publish_of (MqttPacket.pubrel _) e = cc e
publish_of (MqttPacket.pubcomp _) e = cc e
publish_of (MqttPacket.subscribe _) e = cc e
publish_of (MqttPacket.suback _) e = cc e
publish_of (MqttPacket.unsubscribe _) e = cc e
publish_of (MqttPacket.unsuback _) e = cc e
publish_of (MqttPacket.pingreq _) e = cc e
publish_of (MqttPacket.pingresp _) e = cc e
publish_of (MqttPacket.disconnect _) e = cc e

-- A frame whose type is PUBLISH is decoded to one, or is malformed.
decode_publish_cases :
    (frame : Frame)
    → type_of frame.type_and_flags ≡ PacketType.publish
    → ((p : Publish) × (decode frame ≡ ok (MqttPacket.publish p)))
      ⊎ ((r : Reason) × (decode frame ≡ err (malformed r)))
decode_publish_cases frame is = elim (decode_cases frame) [
  | inl (undecoded, _) ↦ cc (undecoded, is)
  | inr (inl (_, packet, e, _)) ↦
      let (p, same) = publish_of packet ((decode-class frame packet e).0 ∙ is) in
      inl (p, e ∙ ap ok same)
  | inr (inr (inl (_, r, e))) ↦ inr (r, e)
  | inr (inr (inr (other, _))) ↦ cc (other, is)
]

-- A malformed frame closes the connection.
abbrev pub IsClosed : Server → Connection → Bytes → SessionManager → Option Publish → Step → Type 0
IsClosed server connection client m will result =
    (m' : SessionManager) × (output : Output) × (result
      ≡ ok (connection, m', cancel_keep_alive_timer ∷ (effects output ++ request_stop ∷ [])))
    × IsManager m'
    × IsParting (known connection server.senders) client m will m' output

-- The PUBLISH of a client goes to the subscribers of its topic, and the next frame is read.
abbrev pub IsTaken : Server → Connection → Session → SessionManager → Publish → Step → Type 0
IsTaken server connection s m p result =
    (m' : SessionManager) × (output : Output) × (result
      ≡ ok (connection, m', cancel_keep_alive_timer ∷ (effects output ++ read_frame connection)))
    × IsManager m'
    × IsDispatched (known connection server.senders) (present p.packet_identifier s.rx)
        (unretained p) m output
    × (retain (unretained p) ≡ false)
    × IsRetaining (retain p) p m.retained_messages m'.retained_messages

effects-IsQuiet :
    (id : ℕ) (output : Output)
    → OutputIsQuiet output
    → any (stops_connection id) (effects output) ≡ false
effects-IsQuiet id [] h = refl
effects-IsQuiet id ((c, send packet) ∷ output) (_, h) = effects-IsQuiet id output h
effects-IsQuiet id ((c, start_timer) ∷ output) (_, h) = effects-IsQuiet id output h
effects-IsQuiet id ((c, cancel_timer) ∷ output) (_, h) = effects-IsQuiet id output h
effects-IsQuiet id ((c, release) ∷ output) (_, h) = effects-IsQuiet id output h
effects-IsQuiet id ((c, Effect.stop) ∷ output) (quiet, h) = elim quiet [ ]

module _ (server : Server) (frame : Frame) (connection : Connection) (client : Bytes) (s : Session)
    (m : SessionManager) (v : IsManager m) (rooms : HasRooms m)
    (known_as : connection.client_id ≡ some client)
    (found : find_name client m.sessions ≡ some s) where
  malformed-IsClosed :
      (will : Option Publish) (r : Reason)
      → decode frame ≡ err (malformed r)
      → IsWillOf s.lwt_message will
      → IsClosed server connection client m will
          (on_frame_read server no_error (some frame) connection m)
  unfolding on_frame_read decode_packet
  malformed-IsClosed will r e is =
      let (m', output, e', v', parting) =
        connection_close_requested_lem server protocol_violation connection client s will m v rooms
          known_as found is in
      (m', output, rw (decode_packet, e, e') refl, v', parting)

  publish-dispatched :
      (p : Publish) (m' : SessionManager) (output : Output)
      → client_published (known connection server.senders) client p m ≡ ok (m', output)
      → dispatch_packet server (MqttPacket.publish p) connection m
        ≡ ok (connection, m', effects output)
  unfolding dispatch_packet dispatch_as handle_packet_received handle_packet
  publish-dispatched p m' output e = simp (dispatch_as, known_as, e)

  publish-IsTaken :
      (p : Publish)
      → decode frame ≡ ok (MqttPacket.publish p)
      → IsRelayable p
      → server.senders.is_there s.connection ≡ true
      → IsTaken server connection s m p (on_frame_read server no_error (some frame) connection m)
  unfolding on_frame_read decode_packet process_decoded_packet
  publish-IsTaken p e relayable there =
      let (m', output, e', v', dispatched, off, retaining) =
        client_published_lem (known connection server.senders) client p s m v rooms relayable found
          there in
      let quiet =
        client_published-IsQuiet (known connection server.senders) client p m (m', output) e' in
      let not_stopped = effects-IsQuiet connection.id output quiet in
      (
        m',
        output,
        rw (decode_packet, e, publish-dispatched p m' output e', not_stopped) refl,
        v',
        dispatched,
        off,
        retaining,
      )

-- A frame of bytes whose type is PUBLISH, which leaves two bytes for a packet identifier, is read on
-- a connection whose client has a session that is connected. The state is well formed, the next
-- packet identifier of every session is free, and the session has no last will or one that can be
-- sent. Then either the frame is decoded to a PUBLISH with an unreserved QoS, DUP only with QoS 1 or
-- 2, a well-formed topic name and lengths that agree: the connected clients that are resolved for
-- its topic get it without the RETAIN flag, unless the client has one with QoS 2 and that identifier
-- in flight; its message is retained if the flag was set, or what was is removed if it is empty; and
-- the next frame is read if the connection is open. Or the frame is malformed: afterwards there is no session
-- under the client's identifier, the other sessions stay, and are as they were but for the
-- publications in flight to their clients, the last will goes to its subscribers, and the
-- connection is to stop. In both cases the keep alive
-- timer is cancelled first and the state stays well formed.
pub on_frame_read-publish :
    (server : Server) (frame : Frame) (connection : Connection) (client : Bytes) (s : Session)
    (will : Option Publish) (m : SessionManager)
    → AreBytes frame.payload
    → frame.type_and_flags < 256
    → length frame.payload + 2 ≤ max_allowed_packet_length
    → type_of frame.type_and_flags ≡ PacketType.publish
    → IsManager m
    → HasRooms m
    → connection.client_id ≡ some client
    → find_name client m.sessions ≡ some s
    → server.senders.is_there s.connection ≡ true
    → IsWillOf s.lwt_message will
    → let result = on_frame_read server no_error (some frame) connection m in
      ((p : Publish) × (decode frame ≡ ok (MqttPacket.publish p))
        × IsValid p
        × IsTaken server connection s m p result)
      ⊎ ((r : Reason) × (decode frame ≡ err (malformed r))
          × IsClosed server connection client m will result)
on_frame_read-publish server frame connection client s will m bytes byte room is v rooms known_as
      found there is_will =
    elim (decode_publish_cases frame is) [
      | inl (p, e) ↦
          let read = decode-IsRead frame p bytes (omega arith) e in
          let relayable = IsRead-IsRelayable frame p byte room read in
          inl (
            p,
            e,
            read.valid,
            publish-IsTaken server frame connection client s m v rooms known_as found p e relayable
                there,
          )
      | inr (r, e) ↦ inr (
        r,
        e,
        malformed-IsClosed server frame connection client s m v rooms known_as found will r e
            is_will,
      )
    ]
