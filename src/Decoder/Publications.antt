-- ===== src/Decoder/Publications.antt =====
-- What the decoder reads off the frame of a PUBLISH (codec/publish_packet_decoder.hpp) is what its
-- encoder writes.
use wally_io.Prelude.{
  ◌≤◌, ◌≡◌, sym, Bytes, ◌&&◌, ◌||◌, if◌then◌else◌, length, subst, ok, throw_if, dup_without_qos,
  qos_reserved, arith,
}
use wally_io.Protocol.{
  at_most_once, at_least_once, exactly_once, reserved, same_qos, qos_of, dup_of, PacketType,
  type_of, max_allowed_packet_length, total_length,
}
use wally_io.Topic.{check_well_formed_topic_name}
use wally_io.Packet.{Publish, MqttPacket}
use wally_io.Packet.PublishPacket.{qos, dup, has_packet_identifier}
use wally_io.Reader.{Frame}
use wally_io.Wire.{decode_uint16, decode_utf8_string}
use wally_io.Encoder.{encode, encode_publish, body_encoder_for}
use wally_io.Encoder.Lengths.{
  IsPacket, publish_body, length-publish_body, encode_publish-body, encode_body,
}
use wally_io.Decoder.{asserting, decode_publish, body_decoder_for, decode}
use wally_io.Decoder.RoundTrip.{IsValid}
use wally_io.Prelude.{Yields, bind-Yields, ok-Yields}
use wally_io.Decoder.Types.{decode-class}
use wally_io.Decoder.Parts.{AreBytes, IsRead, packet_of-IsRead}

abbrev IsReadPacket : Frame → MqttPacket → Type 0
IsReadPacket frame (MqttPacket.publish p) = IsRead frame p
IsReadPacket frame _ = Unit {0}

decode_publish-IsRead :
    (frame : Frame)
    → AreBytes frame.payload
    → length frame.payload ≤ max_allowed_packet_length
    → type_of frame.type_and_flags ≡ PacketType.publish
    → Yields (IsReadPacket frame) (decode_publish frame)
unfolding decode_publish qos dup has_packet_identifier
decode_publish-IsRead frame bytes fits is =
    let q = qos_of frame.type_and_flags 1 in
    bind-Yields (asserting PacketType.publish frame) (λ _ _.
      bind-Yields
        (throw_if (dup_of frame.type_and_flags && same_qos q at_most_once) dup_without_qos)
        (λ _ with_qos. bind-Yields (throw_if (same_qos q reserved) qos_reserved) (λ _ unreserved.
          bind-Yields (decode_utf8_string frame.payload) (λ name split.
            bind-Yields (check_well_formed_topic_name name.1) (λ _ well_formed.
              bind-Yields
                (if same_qos q at_least_once || same_qos q exactly_once
                  then decode_uint16 name.0
                  else ok (name.0, 0))
                (λ id identified. ok-Yields (IsReadPacket frame) _ (
                  packet_of-IsRead frame name id bytes fits is (λ e. cc (unreserved, e))
                    (λ on off. cc (with_qos, on, off)) split well_formed identified)))))))

pub decode-IsRead :
    (frame : Frame) (p : Publish)
    → AreBytes frame.payload
    → length frame.payload ≤ max_allowed_packet_length
    → decode frame ≡ ok (MqttPacket.publish p)
    → IsRead frame p
unfolding decode body_decoder_for
decode-IsRead frame p bytes fits e =
    let is : type_of frame.type_and_flags ≡ PacketType.publish =
      sym (decode-class frame (MqttPacket.publish p) e).0 in
    decode_publish-IsRead frame bytes fits is (MqttPacket.publish p) (rw is at e)

-- A frame with a payload of bytes, not longer than MQTT allows, that is decoded to a PUBLISH: its
-- lengths agree, its QoS is not the reserved one, DUP is set only with QoS 1 or 2, its topic name is
-- well formed, with QoS 0 it has no packet identifier (with QoS 1 and 2 it may be 0, which MQTT 3.1.1
-- forbids), and its first byte is that of the frame. Encoded again it is that byte, a remaining length and just the payload of the frame.
pub encode-decode_publish :
    (frame : Frame) (p : Publish)
    → AreBytes frame.payload
    → length frame.payload ≤ max_allowed_packet_length
    → decode frame ≡ ok (MqttPacket.publish p)
    → IsValid p
      × (p.header.type_and_flags ≡ frame.type_and_flags)
      × (bytes : Bytes) × (encode (MqttPacket.publish p) (total_length p.header.remaining_length)
          ≡ ok bytes)
      × IsPacket p.header frame.payload bytes
unfolding body_encoder_for
encode-decode_publish frame p bytes fits e =
    let read = decode-IsRead frame p bytes fits e in
    let c = read.valid.consistent in
    let (written, e', whole) =
      encode_body (MqttPacket.publish p) encode_publish (publish_body p) (rw c.is_publish)
        (encode_publish-body p c) (length-publish_body p c)
        (omega (arith, length-publish_body p c, c)) in
    (
      read.valid,
      read.first_byte,
      written,
      e',
      subst (λ b. IsPacket p.header b written) read.body whole,
    )
