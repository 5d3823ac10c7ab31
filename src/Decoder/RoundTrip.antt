-- ===== src/Decoder/RoundTrip.antt =====
-- Decoding what the encoders wrote.
use wally_io.Prelude.{
  ℕ, ◌%◌, ◌^◌, ◌≡◌, ◌≢◌, refl, Bytes, [], ◌++◌, true, length, if◌then◌else◌, ok, append_assoc,
  arith,
}
use wally_io.Protocol.{at_most_once, reserved, type_of, type_into, total_length}
use wally_io.Packet.{
  Publish, MqttPacket, header_of, make_puback, make_pubrec, make_pubrel, make_pubcomp,
  make_publish_ack, mqtt_ack,
}
use wally_io.Packet.PublishPacket.{qos, dup, has_packet_identifier}
use wally_io.Topic.{check_well_formed_topic_name}
use wally_io.Reader.{Frame}
use wally_io.Wire.{encode_uint16, decode_uint16, decode_utf8_string}
use wally_io.Wire.RoundTrip.{decode_utf8_string-prefixed, decode-encode_uint16}
use wally_io.Encoder
use wally_io.Encoder.{
  encode, encode_publish, body_encoder_for, encode_puback, encode_pubrec, encode_pubrel,
  encode_pubcomp,
}
use wally_io.Encoder.Lengths.{
  IsPacket, IsConsistent, publish_body, encode_publish-body, length-publish_body, encode_body,
  encode_identifier,
}
use wally_io.Decoder.{
  decode, decode_publish, decode_puback, decode_pubrec, decode_pubrel, decode_pubcomp,
}

abbrev frame_of : MqttPacket → Bytes → Frame
frame_of packet payload = record {
  type_and_flags = (header_of packet).type_and_flags;
  payload = payload;
}

-- Lengths that agree, an unreserved QoS, DUP only with QoS 1 or 2, a well-formed topic name, and a 0
-- for the packet identifier that one with QoS 0 does not have. With QoS 1 and 2 a packet identifier
-- of 0 is let through, as the decoder does, which MQTT 3.1.1 forbids.
pub record IsValid (p : Publish) : Type 0 where
  pub consistent : IsConsistent p
  pub qos_unreserved : qos p ≢ reserved
  pub dup_with_qos : dup p ≡ true → qos p ≢ at_most_once
  pub topic_name : check_well_formed_topic_name p.topic ≡ ok tt
  pub no_identifier : qos p ≡ at_most_once → p.packet_identifier ≡ 0

identifier_bytes : Publish → Bytes
identifier_bytes p = if has_packet_identifier p then encode_uint16 p.packet_identifier else []

decode_utf8_string-publish_body :
    (p : Publish)
    → decode_utf8_string (publish_body p)
      ≡ ok (identifier_bytes p ++ p.application_message, p.topic)
unfolding publish_body identifier_bytes
decode_utf8_string-publish_body p = rw append_assoc (decode_utf8_string-prefixed p.topic _)

decode_publish-body :
    (p : Publish)
    → IsValid p
    → decode_publish (frame_of (MqttPacket.publish p) (publish_body p)) ≡ ok (MqttPacket.publish p)
unfolding decode_publish qos dup has_packet_identifier identifier_bytes
decode_publish-body p v =
    let size : length (publish_body p) % 2 ^ 32 ≡ p.header.remaining_length =
      omega (arith, length-publish_body p v.consistent, v) in
    rw (v.consistent.is_publish, size, decode_utf8_string-publish_body p)
      (ground (arith, v, decode-encode_uint16 p.packet_identifier p.application_message))

decode_ack : (id : ℕ) → decode_uint16 (encode_uint16 id) ≡ ok ([], id)
unfolding decode_uint16 encode_uint16
decode_ack id = ground arith

-- The packets that the server both sends and receives.
pub data IsRelayed : MqttPacket → Type 0 where
  publish : (p : Publish) → IsValid p → IsRelayed (MqttPacket.publish p)
  puback : (id : ℕ) → IsRelayed (MqttPacket.puback (make_puback id))
  pubrec : (id : ℕ) → IsRelayed (MqttPacket.pubrec (make_pubrec id))
  pubrel : (id : ℕ) → IsRelayed (MqttPacket.pubrel (make_pubrel id))
  pubcomp : (id : ℕ) → IsRelayed (MqttPacket.pubcomp (make_pubcomp id))

-- A packet that the server both sends and receives, which is a valid PUBLISH or one of the four
-- acknowledgements of one, is written as a first byte, a remaining length and a payload, and the
-- frame of this first byte and this payload is decoded into the same packet.
pub decode-encode :
    {packet : MqttPacket}
    → IsRelayed packet
    → (payload bytes : Bytes) × (encode packet (total_length (header_of packet).remaining_length)
        ≡ ok bytes)
      × IsPacket (header_of packet) payload bytes
      × (decode (frame_of packet payload) ≡ ok packet)
unfolding decode type_of type_into mqtt_ack make_publish_ack Encoder.body_encoder_for encode_puback
    encode_pubrec encode_pubrel encode_pubcomp decode_puback decode_pubrec decode_pubrel
    decode_pubcomp
decode-encode (publish p v) =
    let size = length-publish_body p v.consistent in
    let (bytes, written, whole) =
      encode_body (MqttPacket.publish p) encode_publish (publish_body p)
        (rw v.consistent.is_publish) (encode_publish-body p v.consistent) size
        (omega (arith, size, v.consistent)) in
    (publish_body p, bytes, written, whole, rw v.consistent.is_publish (decode_publish-body p v))
decode-encode (puback id) =
    let packet = MqttPacket.puback (make_puback id) in
    let (bytes, written, whole) = encode_identifier packet encode_puback id refl refl refl in
    (encode_uint16 id, bytes, written, whole, rw decode_ack)
decode-encode (pubrec id) =
    let packet = MqttPacket.pubrec (make_pubrec id) in
    let (bytes, written, whole) = encode_identifier packet encode_pubrec id refl refl refl in
    (encode_uint16 id, bytes, written, whole, rw decode_ack)
decode-encode (pubrel id) =
    let packet = MqttPacket.pubrel (make_pubrel id) in
    let (bytes, written, whole) = encode_identifier packet encode_pubrel id refl refl refl in
    (encode_uint16 id, bytes, written, whole, rw decode_ack)
decode-encode (pubcomp id) =
    let packet = MqttPacket.pubcomp (make_pubcomp id) in
    let (bytes, written, whole) = encode_identifier packet encode_pubcomp id refl refl refl in
    (encode_uint16 id, bytes, written, whole, rw decode_ack)
