-- ===== src/Encoder/Lengths.antt =====
-- How many bytes the encoders write. mqtt_connection.cpp sizes its write buffer by `total_length`
-- before it encodes, and sends that many bytes.
use wally_io.Prelude.{
  ℕ, ◌+◌, ◌≤◌, ◌≡◌, refl, ap, inl, inr, Bytes, List, [], ◌∷◌, ◌++◌, Bool, true, leb, length,
  length-append, All, if◌then◌else◌, Result, ok, arith, ◌≢◌, suc,
}
use wally_io.Protocol.{
  PacketType, max_allowed_packet_length, rem_length_bytes, total_length, type_of, type_into,
}
use wally_io.Packet.{
  Publish, MqttPacket, header_of, packet_type, make_connack, make_suback, make_publish_ack,
  SubackReturnCode, ConnectReturnCode, mqtt_ack, make_pingresp, FixedHeader, make_puback,
  make_pubrec, make_pubrel, make_pubcomp, make_unsuback,
}
use wally_io.Packet.PublishPacket.{has_packet_identifier}
use wally_io.Wire.{encode_fixed_header, encode_utf8_string, encode_uint16, max_string_length}
use wally_io.Wire.Lengths.{IsEncoding, rem_length_bytes-le, encode_remaining_length_lem}
use wally_io.Encoder.{
  encode, body_encoder_for, encode_publish, encode_connack, encode_suback, encode_unsuback,
  encode_puback, encode_pubrec, encode_pubrel, encode_pubcomp, encode_pingresp, encode_return_codes,
  suback_value, second_byte,
}

-- `bytes` is a whole packet: the first byte, the remaining length, and so many bytes of payload.
pub record IsPacket (h : FixedHeader) (payload bytes : Bytes) : Type 0 where
  pub lengths : Bytes
  pub bytes_eq : bytes ≡ h.type_and_flags ∷ (lengths ++ payload)
  pub encoded : IsEncoding lengths h.remaining_length
  pub few : length lengths ≤ 4
  pub fits : length payload ≡ h.remaining_length
  pub size : length bytes ≡ total_length h.remaining_length

total_length-sum :
    (n : ℕ) → n ≤ max_allowed_packet_length → total_length n ≡ 1 + rem_length_bytes n + n
unfolding total_length
total_length-sum n h = omega (arith, rem_length_bytes-le n)

pub encode_body :
    (packet : MqttPacket) (encoder : MqttPacket → Result Bytes) (body : Bytes)
    → body_encoder_for (packet_type packet) ≡ ok encoder
    → encoder packet ≡ ok body
    → length body ≡ (header_of packet).remaining_length
    → length body ≤ max_allowed_packet_length
    → (bytes : Bytes) × (encode packet (total_length (header_of packet).remaining_length)
        ≡ ok bytes)
      × IsPacket (header_of packet) body bytes
unfolding encode encode_fixed_header
encode_body packet encoder body found written fits small =
    let h = header_of packet in
    elim (encode_remaining_length_lem h.remaining_length (omega arith)) [
      | inl (le, (lengths, e, w, len)) ↦
          let header = h.type_and_flags ∷ lengths in
          let total = total_length-sum h.remaining_length le in
          let room : leb (length header + h.remaining_length) (total_length h.remaining_length)
              ≡ true =
            ground (arith, total, len) in
          (
            header ++ body,
            rw (e, room, found, written),
            record {
              lengths = lengths;
              bytes_eq = refl;
              encoded = w;
              few = omega (arith, len, rem_length_bytes-le h.remaining_length);
              fits = fits;
              size = omega (arith, total, len, fits, length-append lengths body);
            },
          )
      | inr (lt, e) ↦ absurd (omega arith)
    ]

abbrev pub identifier_length : Publish → ℕ
identifier_length p = if has_packet_identifier p then 2 else 0

-- The remaining length of a PUBLISH counts its topic, its packet identifier and its message.
pub record IsConsistent (p : Publish) : Type 0 where
  pub is_publish : type_of p.header.type_and_flags ≡ PacketType.publish
  pub topic_fits : length p.topic ≤ max_string_length
  pub counted :
      p.header.remaining_length
      ≡ 2 + length p.topic + identifier_length p + length p.application_message
  pub small : p.header.remaining_length ≤ max_allowed_packet_length

-- The packets that the server sends: PUBLISH, and the answers as their constructors make them.
pub data IsSendable : MqttPacket → Type 0 where
  publish : (p : Publish) → IsConsistent p → IsSendable (MqttPacket.publish p)
  connack :
      (sp : Bool) (rc : ConnectReturnCode) → IsSendable (MqttPacket.connack (make_connack sp rc))
  suback :
      (id : ℕ) (rcs : List SubackReturnCode)
      → All (λ rc. rc ≢ SubackReturnCode.reserved_code) rcs
      → 2 + length rcs ≤ max_allowed_packet_length
      → IsSendable (MqttPacket.suback (make_suback id rcs))
  unsuback : (id : ℕ) → IsSendable (MqttPacket.unsuback (make_unsuback id))
  puback : (id : ℕ) → IsSendable (MqttPacket.puback (make_puback id))
  pubrec : (id : ℕ) → IsSendable (MqttPacket.pubrec (make_pubrec id))
  pubrel : (id : ℕ) → IsSendable (MqttPacket.pubrel (make_pubrel id))
  pubcomp : (id : ℕ) → IsSendable (MqttPacket.pubcomp (make_pubcomp id))
  pingresp : IsSendable (MqttPacket.pingresp make_pingresp)

unfoldable pub publish_body : Publish → Bytes
publish_body p =
    let identifier = if has_packet_identifier p then encode_uint16 p.packet_identifier else [] in
    (encode_uint16 (length p.topic) ++ p.topic) ++ (identifier ++ p.application_message)

pub encode_publish-body :
    (p : Publish) → IsConsistent p → encode_publish (MqttPacket.publish p) ≡ ok (publish_body p)
unfolding encode_publish encode_utf8_string publish_body
encode_publish-body p c = rw c.is_publish (ground (arith, c.topic_fits))

pub length-publish_body :
    (p : Publish) → IsConsistent p → length (publish_body p) ≡ p.header.remaining_length
unfolding publish_body encode_uint16
length-publish_body p c =
    let identifier : Bytes =
      if has_packet_identifier p then encode_uint16 p.packet_identifier else [] in
    let two : length identifier ≡ identifier_length p = ground arith in
    omega (
      arith,
      two,
      c,
      length-append p.topic (identifier ++ p.application_message),
      length-append identifier p.application_message,
    )

encode_return_codes_lem :
    (rcs : List SubackReturnCode)
    → All (λ rc. rc ≢ SubackReturnCode.reserved_code) rcs
    → (bytes : Bytes) × (encode_return_codes rcs ≡ ok bytes) × (length bytes ≡ length rcs)
unfolding encode_return_codes
encode_return_codes_lem [] h = ([], refl, refl)
encode_return_codes_lem (rc ∷ rcs) (h, hs) =
    let (bytes, e, len) = encode_return_codes_lem rcs hs in
    (suback_value rc ∷ bytes, ground arith, ap suc len)

pub encode_identifier :
    (packet : MqttPacket) (encoder : MqttPacket → Result Bytes) (id : ℕ)
    → body_encoder_for (packet_type packet) ≡ ok encoder
    → encoder packet ≡ ok (encode_uint16 id)
    → (header_of packet).remaining_length ≡ 2
    → (bytes : Bytes) × (encode packet (total_length (header_of packet).remaining_length)
        ≡ ok bytes)
      × IsPacket (header_of packet) (encode_uint16 id) bytes
encode_identifier packet encoder id found written two =
    encode_body packet encoder (encode_uint16 id) found written
      (unfold encode_uint16 in omega arith) (unfold encode_uint16 in omega arith)

encode_suback_lem :
    (id : ℕ) (rcs : List SubackReturnCode) (bytes : Bytes)
    → encode_return_codes rcs ≡ ok bytes
    → encode_suback (MqttPacket.suback (make_suback id rcs)) ≡ ok (encode_uint16 id ++ bytes)
unfolding encode_suback make_suback mqtt_ack type_of type_into
encode_suback_lem id rcs bytes e = rw e

length-suback :
    (id : ℕ) (rcs : List SubackReturnCode) (bytes : Bytes)
    → length bytes ≡ length rcs
    → 2 + length rcs ≤ max_allowed_packet_length
    → length (encode_uint16 id ++ bytes) ≡ (make_suback id rcs).header.remaining_length
unfolding encode_uint16 make_suback mqtt_ack
length-suback id rcs bytes e h = omega arith

with_payload :
    {P : Bytes → Type 0} {h : FixedHeader} {payload : Bytes}
    → ((bytes : Bytes) × P bytes × IsPacket h payload bytes)
    → (payload bytes : Bytes) × P bytes × IsPacket h payload bytes
with_payload {payload} (bytes, e, w) = (payload, bytes, e, w)

-- Every packet that the server sends, a PUBLISH with a remaining length that counts its parts and
-- the answers as their constructors make them, is encoded, as a first byte, a remaining length and
-- just so many bytes behind it: `total_length` bytes in all, which is the size of the write
-- buffer.
pub encode-IsSendable :
    {packet : MqttPacket}
    → IsSendable packet
    → (payload bytes : Bytes) × (encode packet (total_length (header_of packet).remaining_length)
        ≡ ok bytes)
      × IsPacket (header_of packet) payload bytes
unfolding type_of type_into mqtt_ack make_connack make_suback make_publish_ack body_encoder_for
    encode_connack encode_unsuback encode_puback encode_pubrec encode_pubrel encode_pubcomp
    encode_pingresp
encode-IsSendable (publish p c) = with_payload (
    encode_body (MqttPacket.publish p) encode_publish (publish_body p) (rw c.is_publish)
      (encode_publish-body p c) (length-publish_body p c)
      (omega (arith, length-publish_body p c, c)))
encode-IsSendable (connack sp rc) = with_payload (
    encode_body (MqttPacket.connack (make_connack sp rc)) encode_connack
      ((if sp then 0x01 else 0x00) ∷ second_byte rc ∷ []) refl refl refl (omega arith))
encode-IsSendable (suback id rcs h small) =
    let (bytes, e, len) = encode_return_codes_lem rcs h in
    let size = length-suback id rcs bytes len small in
    with_payload (
      encode_body (MqttPacket.suback (make_suback id rcs)) encode_suback (encode_uint16 id ++ bytes)
        refl (encode_suback_lem id rcs bytes e) size (omega (arith, size)))
encode-IsSendable (unsuback id) =
    with_payload
      (encode_identifier (MqttPacket.unsuback (make_unsuback id)) encode_unsuback id refl refl refl)
encode-IsSendable (puback id) =
    with_payload
      (encode_identifier (MqttPacket.puback (make_puback id)) encode_puback id refl refl refl)
encode-IsSendable (pubrec id) =
    with_payload
      (encode_identifier (MqttPacket.pubrec (make_pubrec id)) encode_pubrec id refl refl refl)
encode-IsSendable (pubrel id) =
    with_payload
      (encode_identifier (MqttPacket.pubrel (make_pubrel id)) encode_pubrel id refl refl refl)
encode-IsSendable (pubcomp id) =
    with_payload
      (encode_identifier (MqttPacket.pubcomp (make_pubcomp id)) encode_pubcomp id refl refl refl)
encode-IsSendable pingresp = with_payload (
    encode_body (MqttPacket.pingresp make_pingresp) encode_pingresp [] refl refl refl (omega arith))
