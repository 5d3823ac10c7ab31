-- ===== src/Encoder.antt =====
-- source/server/io_wally/codec/mqtt_packet_encoder.hpp and the encoders of the packets' bodies.
-- What is written through the output iterator is returned as a list.
pub mod Lengths
pub mod Publications
pub mod Retention
use wally_io.Prelude.{
  ℕ, ◌+◌, Bytes, List, [], ◌∷◌, ◌++◌, map, Bool, all, leb, not, ◌==◌, length, if◌then◌else◌, Result,
  ok, err, ◌>>=◌, ◌>>◌, assert, bad_cast, assertion_failed,
}
use wally_io.Protocol.{PacketType, same_type, total_length}
use wally_io.Packet.{
  ConnectReturnCode, connection_accepted, unacceptable_protocol_version, identifier_rejected,
  server_unavailable, bad_username_or_password, not_authorized, SubackReturnCode, maximum_qos0,
  maximum_qos1, maximum_qos2, failure, PublishAck, MqttPacket, header_of, packet_type,
}
use wally_io.Packet.PublishPacket.{has_packet_identifier}
use wally_io.Wire.{encode_uint16, encode_utf8_string, encode_fixed_header}

abbrev pub second_byte : ConnectReturnCode → ℕ
second_byte connection_accepted = 0x00
second_byte unacceptable_protocol_version = 0x01
second_byte identifier_rejected = 0x02
second_byte server_unavailable = 0x03
second_byte bad_username_or_password = 0x04
second_byte not_authorized = 0x05
second_byte ConnectReturnCode.reserved_code = 0x06

abbrev asserting : PacketType → MqttPacket → Result Bytes → Result Bytes
asserting type packet body = assert (same_type (packet_type packet) type) >> body

unfoldable pub encode_connack : MqttPacket → Result Bytes
encode_connack packet = asserting PacketType.connack packet (elim packet [
  | MqttPacket.connack c ↦
      ok ((if c.session_present then 0x01 else 0x00) ∷ second_byte c.return_code ∷ [])
  | _ ↦ err bad_cast
])

unfoldable pub encode_pingresp : MqttPacket → Result Bytes
encode_pingresp packet = asserting PacketType.pingresp packet (ok [])

-- The value of the enumerator.
abbrev pub suback_value : SubackReturnCode → ℕ
suback_value maximum_qos0 = 0x00
suback_value maximum_qos1 = 0x01
suback_value maximum_qos2 = 0x02
suback_value failure = 0x80
suback_value SubackReturnCode.reserved_code = 0x81

unfoldable pub encode_return_codes : List SubackReturnCode → Result Bytes
encode_return_codes [] = ok []
encode_return_codes (rc ∷ rcs) =
    assert (not (suback_value rc == 0x81))
    >> (encode_return_codes rcs >>= λ bytes. ok (suback_value rc ∷ bytes))

unfoldable pub encode_suback : MqttPacket → Result Bytes
encode_suback packet = asserting PacketType.suback packet (elim packet [
  | MqttPacket.suback s ↦
      (encode_return_codes s.return_codes >>= λ codes.
      ok (encode_uint16 s.packet_identifier ++ codes))
  | _ ↦ err bad_cast
])

unfoldable pub encode_unsuback : MqttPacket → Result Bytes
encode_unsuback packet = asserting PacketType.unsuback packet (elim packet [
  | MqttPacket.unsuback u ↦ ok (encode_uint16 u.packet_identifier)
  | _ ↦ err bad_cast
])

unfoldable pub encode_publish : MqttPacket → Result Bytes
encode_publish packet = asserting PacketType.publish packet (elim packet [
  | MqttPacket.publish p ↦
      (encode_utf8_string p.topic >>= λ topic.
      let identifier = if has_packet_identifier p then encode_uint16 p.packet_identifier else [] in
      ok (topic ++ (identifier ++ p.application_message)))
  | _ ↦ err bad_cast
])

unfoldable pub encode_puback : MqttPacket → Result Bytes
encode_puback packet = asserting PacketType.puback packet (elim packet [
  | MqttPacket.puback a ↦ ok (encode_uint16 a.packet_identifier)
  | _ ↦ err bad_cast
])

unfoldable pub encode_pubrel : MqttPacket → Result Bytes
encode_pubrel packet = asserting PacketType.pubrel packet (elim packet [
  | MqttPacket.pubrel a ↦ ok (encode_uint16 a.packet_identifier)
  | _ ↦ err bad_cast
])

unfoldable pub encode_pubrec : MqttPacket → Result Bytes
encode_pubrec packet = asserting PacketType.pubrec packet (elim packet [
  | MqttPacket.pubrec a ↦ ok (encode_uint16 a.packet_identifier)
  | _ ↦ err bad_cast
])

unfoldable pub encode_pubcomp : MqttPacket → Result Bytes
encode_pubcomp packet = asserting PacketType.pubcomp packet (elim packet [
  | MqttPacket.pubcomp a ↦ ok (encode_uint16 a.packet_identifier)
  | _ ↦ err bad_cast
])

unfoldable pub body_encoder_for : PacketType → Result (MqttPacket → Result Bytes)
body_encoder_for PacketType.connack = ok encode_connack
body_encoder_for PacketType.pingresp = ok encode_pingresp
body_encoder_for PacketType.suback = ok encode_suback
body_encoder_for PacketType.unsuback = ok encode_unsuback
body_encoder_for PacketType.publish = ok encode_publish
body_encoder_for PacketType.puback = ok encode_puback
body_encoder_for PacketType.pubrel = ok encode_pubrel
body_encoder_for PacketType.pubrec = ok encode_pubrec
body_encoder_for PacketType.pubcomp = ok encode_pubcomp
body_encoder_for _ = err assertion_failed

-- `size` is the distance from `buf_start` to `buf_end`. What is asserted is that behind the header
-- there is room for `remaining_length`.
unfoldable pub encode : MqttPacket → ℕ → Result Bytes
encode packet size = do
  let h = header_of packet
  header ← encode_fixed_header h.type_and_flags h.remaining_length
  assert (leb (length header + h.remaining_length) size)
  encoder ← body_encoder_for (packet_type packet)
  body ← encoder packet
  ok (header ++ body)
