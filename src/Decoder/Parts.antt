-- ===== src/Decoder/Parts.antt =====
-- The parts of the payload of a PUBLISH, as its decoder splits it (codec/publish_packet_decoder.hpp)
-- and as its encoder writes them.
use wally_io.Prelude.{
  ℕ, ◌+◌, ◌*◌, ◌%◌, ◌^◌, ◌≤◌, ◌<◌, ◌≡◌, ◌≢◌, refl, sym, ap, ◌∙◌, inl, inr, Bytes, [], ◌∷◌, ◌++◌,
  true, not, ◌||◌, if◌then◌else◌, length, length-append, subst, All, All-append_right, ok, arith,
}
use wally_io.Protocol.{
  QoS, at_most_once, at_least_once, exactly_once, reserved, same_qos, qos_of, dup_of, PacketType,
  type_of, max_allowed_packet_length,
}
use wally_io.Topic.{check_well_formed_topic_name}
use wally_io.Packet.{Publish}
use wally_io.Packet.PublishPacket.{qos, dup, has_packet_identifier}
use wally_io.Reader.{Frame}
use wally_io.Wire.{encode_uint16, decode_uint16, decode_utf8_string}
use wally_io.Wire.RoundTrip.{decode_utf8_string_cases}
use wally_io.Encoder.Lengths.{IsConsistent, identifier_length, publish_body}
use wally_io.Decoder.RoundTrip.{IsValid}

abbrev pub AreBytes : Bytes → Type 0
AreBytes bs = All (λ b. b < 256) bs

encode-decode_uint16 : (a b : ℕ) → b < 256 → encode_uint16 (a * 256 + b) ≡ a ∷ b ∷ []
unfolding encode_uint16
encode-decode_uint16 a b h = ground arith

identifier-cases :
    (q : QoS) (bs : Bytes) (id : Bytes × ℕ)
    → q ≢ reserved
    → AreBytes bs
    → (if same_qos q at_least_once || same_qos q exactly_once then decode_uint16 bs else ok (bs, 0))
      ≡ ok id
    → ((if not (same_qos q at_most_once) then encode_uint16 id.1 else []) ++ id.0 ≡ bs)
      × (q ≡ at_most_once → id.1 ≡ 0)
unfolding decode_uint16 encode_uint16
identifier-cases at_most_once bs id n h e = ground (arith, e)
identifier-cases at_least_once [] id n h e = cc e
identifier-cases at_least_once (x ∷ []) id n h e = cc e
identifier-cases at_least_once (x ∷ y ∷ bs) id n h e = ground (arith, e)
identifier-cases exactly_once [] id n h e = cc e
identifier-cases exactly_once (x ∷ []) id n h e = cc e
identifier-cases exactly_once (x ∷ y ∷ bs) id n h e = ground (arith, e)
identifier-cases reserved bs id n h e = absurd (n refl)

-- The frame's payload, as the decoder has split it.
record IsSplit (frame : Frame) (p : Publish) (rest : Bytes) (a b : ℕ) : Type 0 where
  first_byte : p.header.type_and_flags ≡ frame.type_and_flags
  remaining : p.header.remaining_length ≡ length frame.payload
  payload : frame.payload ≡ a ∷ b ∷ (p.topic ++ rest)
  size : length p.topic ≡ a * 256 + b
  identifier :
      (if has_packet_identifier p then encode_uint16 p.packet_identifier else [])
        ++ p.application_message
      ≡ rest

publish_body-IsSplit :
    (frame : Frame) (p : Publish) (rest : Bytes) (a b : ℕ)
    → b < 256
    → IsSplit frame p rest a b
    → publish_body p ≡ frame.payload
unfolding publish_body
publish_body-IsSplit frame p rest a b small s =
    rw (s.size, encode-decode_uint16 a b small, s.identifier) (sym s.payload)

length-publish_body_sum :
    (p : Publish)
    → length (publish_body p)
      ≡ 2 + length p.topic + identifier_length p + length p.application_message
unfolding publish_body encode_uint16
length-publish_body_sum p =
    let identifier : Bytes =
      if has_packet_identifier p then encode_uint16 p.packet_identifier else [] in
    let two : length identifier ≡ identifier_length p = ground arith in
    omega (
      arith,
      two,
      length-append p.topic (identifier ++ p.application_message),
      length-append identifier p.application_message,
    )

IsSplit-IsConsistent :
    (frame : Frame) (p : Publish) (rest : Bytes) (a b : ℕ)
    → a < 256
    → b < 256
    → length frame.payload ≤ max_allowed_packet_length
    → type_of frame.type_and_flags ≡ PacketType.publish
    → IsSplit frame p rest a b
    → IsConsistent p
IsSplit-IsConsistent frame p rest a b small_a small_b fits is s =
    let body = ap length (publish_body-IsSplit frame p rest a b small_b s) in
    record {
      is_publish = rw s.first_byte is;
      topic_fits = omega (arith, s.size);
      counted = s.remaining ∙ sym body ∙ length-publish_body_sum p;
      small = omega (arith, s.remaining);
    }

decode_utf8_string-split :
    (bs : Bytes) (name : Bytes × Bytes)
    → decode_utf8_string bs ≡ ok name
    → (a b : ℕ) × (bs ≡ a ∷ b ∷ (name.1 ++ name.0)) × (length name.1 ≡ a * 256 + b)
decode_utf8_string-split bs name e = elim (decode_utf8_string_cases bs) [
  | inl (s, rest, found, (a, b, bs_eq, len)) ↦
      let same : (rest, s) ≡ name = cc (found, e) in (a, b, rw (← same) bs_eq, rw (← same) len)
  | inr failed ↦ cc (failed, e)
]

-- The PUBLISH of a frame: it is one that MQTT allows, and the frame is how it is written.
pub record IsRead (frame : Frame) (p : Publish) : Type 0 where
  pub valid : IsValid p
  pub first_byte : p.header.type_and_flags ≡ frame.type_and_flags
  pub body : publish_body p ≡ frame.payload

-- The packet that the decoder makes of the parts.
abbrev pub packet_of : Frame → Bytes → Bytes × ℕ → Publish
packet_of frame topic id = record {
  header = record {
    type_and_flags = frame.type_and_flags;
    remaining_length = length frame.payload % 2 ^ 32;
  };
  topic = topic;
  packet_identifier = id.1;
  application_message = id.0;
}

pub packet_of-IsRead :
    (frame : Frame) (name : Bytes × Bytes) (id : Bytes × ℕ)
    → let q = qos_of frame.type_and_flags 1 in
      AreBytes frame.payload
      → length frame.payload ≤ max_allowed_packet_length
      → type_of frame.type_and_flags ≡ PacketType.publish
      → q ≢ reserved
      → (dup_of frame.type_and_flags ≡ true → q ≢ at_most_once)
      → decode_utf8_string frame.payload ≡ ok name
      → check_well_formed_topic_name name.1 ≡ ok tt
      → (if same_qos q at_least_once || same_qos q exactly_once
          then decode_uint16 name.0
          else ok (name.0, 0))
        ≡ ok id
      → IsRead frame (packet_of frame name.1 id)
unfolding qos dup has_packet_identifier
packet_of-IsRead frame name id bytes fits is unreserved with_qos split well_formed identified =
    let q = qos_of frame.type_and_flags 1 in
    let p = packet_of frame name.1 id in
    let (a, b, payload, size) = decode_utf8_string-split frame.payload name split in
    let (small_a, (small_b, others)) : AreBytes (a ∷ b ∷ (name.1 ++ name.0)) =
      subst AreBytes payload bytes in
    let rest_bytes : AreBytes name.0 = All-append_right _ name.1 name.0 others in
    let (whole, no_identifier) = identifier-cases q name.0 id unreserved rest_bytes identified in
    let s : IsSplit frame p name.0 a b = record {
      first_byte = refl;
      remaining = ground arith;
      payload = payload;
      size = size;
      identifier = whole;
    } in
    record {
      valid = record {
        consistent = IsSplit-IsConsistent frame p name.0 a b small_a small_b fits is s;
        qos_unreserved = unreserved;
        dup_with_qos = with_qos;
        topic_name = well_formed;
        no_identifier = no_identifier;
      };
      first_byte = refl;
      body = publish_body-IsSplit frame p name.0 a b small_b s;
    }
