-- ===== src/Tests/Frames.antt =====
-- Frames, decoded and handed to the session manager.
use wally_io.Prelude.{
  ◌≡◌, refl, ◌⊎◌, [], ◌∷◌, false, true, subst, some, Reason, ok, err, malformed, read_past_end, ◌≢◌,
  ◌++◌, empty_optional, unsupported_type, arith, Bytes,
}
use wally_io.Protocol.{PacketType, type_of, qos_of, dup_of, total_length}
use wally_io.Topic.{check_well_formed_topic_name, contains}
use wally_io.Packet.{Publish, MqttPacket, packet_type, make_pubrel}
use wally_io.Reader.{Frame}
use wally_io.Wire.{decode_uint16, decode_utf8_string}
use wally_io.Encoder.{encode}
use wally_io.Encoder.Lengths.{IsPacket}
use wally_io.Decoder.{body_decoder_for, decode_publish, decode_pubrel, decode}
use wally_io.Decoder.RoundTrip.{IsValid}
use wally_io.Decoder.Types.{decode-class}
use wally_io.Decoder.Total.{is_decoded, decode_cases}
use wally_io.Decoder.Publications.{encode-decode_publish}
use wally_io.Sessions.Departures.{will_of}
use wally_io.Connection.{no_error}
use wally_io.Connection.Reading.{on_frame_read}
use wally_io.Connection.Frames.{IsTaken, IsClosed, on_frame_read-publish}
use wally_io.Connection.Packets.{IsAnswerable, Continues, on_frame_read-Continues}
use wally_io.Tests.Codec.{topic, sample}
use wally_io.Tests.Sessions.{
  alice, connect, first, manager, manager-IsManager, manager-HasRooms, connect-IsWillOf,
}
use wally_io.Connection.{cancel_keep_alive_timer, request_stop, read_frame, write_packet}
use wally_io.Connection.Unconnected.{on_frame_read-unconnected}
use wally_io.Packet.{make_pingresp}
use wally_io.Tests.Connections.{connected, fresh, server}

abbrev frame : Frame
frame = record { type_and_flags = 0x32; payload = 0 ∷ 3 ∷ b'a' ∷ b'/' ∷ b'b' ∷ 0 ∷ 5 ∷ 1 ∷ [] }

decode-frame : decode frame ≡ ok (MqttPacket.publish sample)
unfolding decode body_decoder_for decode_publish decode_utf8_string decode_uint16 type_of qos_of
    dup_of check_well_formed_topic_name contains
decode-frame = refl

frame-is_publish : type_of frame.type_and_flags ≡ PacketType.publish
unfolding type_of
frame-is_publish = refl

decode-class_example :
    (PacketType.publish ≡ type_of 0x32) × (packet_type (MqttPacket.publish sample) ≡ type_of 0x32)
decode-class_example = decode-class frame (MqttPacket.publish sample) decode-frame

encode-decode_publish_example :
    IsValid sample
    × (sample.header.type_and_flags ≡ 0x32)
    × (bytes : Bytes) × (encode (MqttPacket.publish sample) (total_length 8) ≡ ok bytes)
    × IsPacket sample.header frame.payload bytes
encode-decode_publish_example =
    encode-decode_publish frame sample
      (
        omega arith,
        (
          omega arith,
          (
            omega arith,
            (omega arith, (omega arith, (omega arith, (omega arith, (omega arith, tt))))),
          ),
        ),
      )
      (omega arith) decode-frame

decode_cases_example :
    let type = type_of 0x32 in
    ((is_decoded type ≡ false) × (decode frame ≡ err unsupported_type))
    ⊎ ((is_decoded type ≡ true)
        × (packet : MqttPacket) × (decode frame ≡ ok packet)
        × (packet_type packet ≡ type))
    ⊎ ((is_decoded type ≡ true) × (r : Reason) × (decode frame ≡ err (malformed r)))
    ⊎ ((type ≡ PacketType.connect) × (decode frame ≡ err read_past_end))
decode_cases_example = decode_cases frame

on_frame_read-publish_example :
    let result = on_frame_read server no_error (some frame) connected manager in
    let will = will_of connect topic (1 ∷ 2 ∷ []) in
    ((p : Publish) × (decode frame ≡ ok (MqttPacket.publish p))
      × IsValid p
      × IsTaken server connected first manager p result)
    ⊎ ((r : Reason) × (decode frame ≡ err (malformed r))
        × IsClosed server connected alice manager (some will) result)
on_frame_read-publish_example =
    on_frame_read-publish server frame connected alice first
      (some (will_of connect topic (1 ∷ 2 ∷ []))) manager
      (
        omega arith,
        (
          omega arith,
          (
            omega arith,
            (omega arith, (omega arith, (omega arith, (omega arith, (omega arith, tt))))),
          ),
        ),
      )
      (omega arith) (omega arith) frame-is_publish manager-IsManager manager-HasRooms refl refl refl
      connect-IsWillOf

abbrev pubrel_frame : Frame
pubrel_frame = record { type_and_flags = 0x62; payload = 0 ∷ 5 ∷ [] }

decode-pubrel_frame : decode pubrel_frame ≡ ok (MqttPacket.pubrel (make_pubrel 5))
unfolding decode body_decoder_for decode_pubrel decode_uint16 type_of
decode-pubrel_frame = refl

pubrel_frame-is_decoded : is_decoded (type_of pubrel_frame.type_and_flags) ≡ true
unfolding type_of
pubrel_frame-is_decoded = refl

pubrel_frame-IsAnswerable :
    (packet : MqttPacket)
    → decode pubrel_frame ≡ ok packet
    → IsAnswerable server connected alice manager packet
pubrel_frame-IsAnswerable packet e =
    let same : MqttPacket.pubrel (make_pubrel 5) ≡ packet = cc (decode-pubrel_frame, e) in
    subst (IsAnswerable server connected alice manager) same tt

on_frame_read-Continues_example :
    Continues connected (on_frame_read server no_error (some pubrel_frame) connected manager)
on_frame_read-Continues_example =
    on_frame_read-Continues server pubrel_frame connected alice first
      (some (will_of connect topic (1 ∷ 2 ∷ []))) manager manager-IsManager manager-HasRooms refl
      refl connect-IsWillOf pubrel_frame-is_decoded (λ e. cc (decode-pubrel_frame, e))
      pubrel_frame-IsAnswerable

-- A PUBLISH on a connection that has had no CONNECT.
on_frame_read-unconnected_example :
    let type = type_of 0x32 in
    let result = on_frame_read server no_error (some frame) fresh manager in
    let pingresp = write_packet (MqttPacket.pingresp make_pingresp) fresh in
    ((is_decoded type ≡ false) × (result ≡ err unsupported_type))
    ⊎ ((r : Reason) × (decode frame ≡ err (malformed r))
        × (result ≡ ok (fresh, manager, cancel_keep_alive_timer ∷ request_stop ∷ [])))
    ⊎ ((type ≡ PacketType.pingreq)
        × (packet : MqttPacket) × (decode frame ≡ ok packet)
        × (result ≡ ok (fresh, manager, cancel_keep_alive_timer ∷ (pingresp ++ read_frame fresh))))
    ⊎ ((type ≢ PacketType.pingreq)
        × (packet : MqttPacket) × (decode frame ≡ ok packet)
        × (result ≡ err empty_optional))
on_frame_read-unconnected_example =
    on_frame_read-unconnected server frame fresh manager refl (λ e. cc (frame-is_publish, e))
