-- ===== src/Decoder.antt =====
-- source/server/io_wally/codec/mqtt_packet_decoder.hpp and the decoders of the packets' bodies. The
-- iterators into a frame are the bytes from there to the frame's end.
pub mod RoundTrip
pub mod Loops
pub mod Bodies
pub mod Total
pub mod Types
pub mod Parts
pub mod Publications
use wally_io.Prelude.{
  ℕ, zero, suc, ◌%◌, ◌^◌, bit_and, Bytes, List, [], ◌∷◌, Bool, true, false, ltb, ◌==◌, ◌&&◌, ◌||◌,
  not, length, take, drop, if◌then◌else◌, Option, some, Result, ok, err, ◌>>=◌, ◌>>◌, assert,
  throw_if, invalid_flags, protocol_name_missing, last_will_exceeds, length_mismatch,
  dup_without_qos, qos_reserved, no_subscription, no_topic_filter, remaining_length_nonzero,
  unsupported_type, read_past_end, out_of_fuel,
}
use wally_io.Protocol.{
  QoS, at_most_once, at_least_once, exactly_once, reserved, same_qos, qos_of, PacketType, type_of,
  same_type, dup_of,
}
use wally_io.Topic.{check_well_formed_topic_name}
use wally_io.Packet.{
  Publish, Subscription, MqttPacket, make_connect, contains_last_will, has_username, has_password,
  make_subscription, make_subscribe, make_unsubscribe, make_puback, make_pubrec, make_pubrel,
  make_pubcomp, make_pingreq, make_disconnect,
}
use wally_io.Reader.{Frame}
use wally_io.Wire.{decode_uint16, decode_qos, decode_utf8_string}

abbrev pub is_empty {ℓ} : {A : Type ℓ} → List A → Bool
is_empty xs = length xs == 0

-- `assert( frame.type( ) == ... )`
abbrev pub asserting : PacketType → Frame → Result (Unit {0})
asserting type frame = assert (same_type (type_of frame.type_and_flags) type)

abbrev pub require_flags : Frame → ℕ → Result (Unit {0})
require_flags frame flags =
    throw_if (not (bit_and frame.type_and_flags 0x0F == flags)) invalid_flags

-- `*new_buf_start++`, with no test that the frame goes on.
unfoldable pub next_byte : Bytes → Result (Bytes × ℕ)
next_byte [] = err read_past_end
next_byte (b ∷ bs) = ok (bs, b)

-- The topic and the message of the last will, if there is one.
unfoldable pub decode_last_will : Bool → Bytes → Result (Bytes × (Bytes × Bytes))
decode_last_will false start = ok (start, ([], []))
decode_last_will true start = do
  (start1, last_will_topic) ← decode_utf8_string start
  (start2, last_will_msg_len) ← decode_uint16 start1
  throw_if (ltb (length start2) last_will_msg_len) last_will_exceeds
  ok (drop last_will_msg_len start2, (last_will_topic, take last_will_msg_len start2))

-- A string that is there only if its flag is set.
unfoldable pub decode_flagged : Bool → Bytes → Result (Bytes × Bytes)
decode_flagged false start = ok (start, [])
decode_flagged true start = decode_utf8_string start

unfoldable pub decode_connect : Frame → Result MqttPacket
unfolding next_byte decode_last_will decode_flagged
decode_connect frame = do
  asserting PacketType.connect frame
  require_flags frame 0x00
  (start1, protocol_name) ← decode_utf8_string frame.payload
  throw_if (is_empty protocol_name) protocol_name_missing
  (start2, protocol_level) ← next_byte start1
  (start3, connect_flags) ← next_byte start2
  (start4, keep_alive_secs) ← decode_uint16 start3
  (start5, client_id) ← decode_utf8_string start4
  (start6, last_will) ← decode_last_will (contains_last_will connect_flags) start5
  (start7, username) ← decode_flagged (has_username connect_flags) start6
  (start8, password) ← decode_flagged (has_password connect_flags) start7
  throw_if (not (is_empty start8)) length_mismatch
  ok (
      MqttPacket.connect (
        make_connect (length frame.payload % 2 ^ 32) protocol_name protocol_level connect_flags
          keep_alive_secs client_id (some last_will.0) last_will.1 (some username) (some password)))

unfoldable pub decode_pingreq : Frame → Result MqttPacket
decode_pingreq frame = do
  asserting PacketType.pingreq frame
  require_flags frame 0x00
  throw_if (not (is_empty frame.payload)) remaining_length_nonzero
  ok (MqttPacket.pingreq make_pingreq)

unfoldable pub decode_disconnect : Frame → Result MqttPacket
decode_disconnect frame = do
  asserting PacketType.disconnect frame
  require_flags frame 0x00
  throw_if (not (is_empty frame.payload)) remaining_length_nonzero
  ok (MqttPacket.disconnect make_disconnect)

-- The while loop; each round takes a byte at least, so `length start` rounds are enough.
unfoldable pub decode_subscriptions : ℕ → Bytes → Result (List Subscription)
decode_subscriptions fuel [] = ok []
decode_subscriptions zero (b ∷ bs) = err out_of_fuel
decode_subscriptions (suc fuel) (b ∷ bs) = do
  (start1, topic_filter) ← decode_utf8_string (b ∷ bs)
  (start2, maximum_qos) ← decode_qos start1
  subscription ← make_subscription topic_filter maximum_qos
  subscriptions ← decode_subscriptions fuel start2
  ok (subscription ∷ subscriptions)

unfoldable pub decode_subscribe : Frame → Result MqttPacket
decode_subscribe frame = do
  asserting PacketType.subscribe frame
  require_flags frame 0x02
  (start1, packet_id) ← decode_uint16 frame.payload
  subscriptions ← decode_subscriptions (length start1) start1
  throw_if (is_empty subscriptions) no_subscription
  ok (MqttPacket.subscribe (make_subscribe (length frame.payload % 2 ^ 32) packet_id subscriptions))

unfoldable pub decode_topic_filters : ℕ → Bytes → Result (List Bytes)
decode_topic_filters fuel [] = ok []
decode_topic_filters zero (b ∷ bs) = err out_of_fuel
decode_topic_filters (suc fuel) (b ∷ bs) = do
  (start1, topic_filter) ← decode_utf8_string (b ∷ bs)
  topic_filters ← decode_topic_filters fuel start1
  ok (topic_filter ∷ topic_filters)

unfoldable pub decode_unsubscribe : Frame → Result MqttPacket
decode_unsubscribe frame = do
  asserting PacketType.unsubscribe frame
  require_flags frame 0x02
  (start1, packet_id) ← decode_uint16 frame.payload
  topic_filters ← decode_topic_filters (length start1) start1
  throw_if (is_empty topic_filters) no_topic_filter
  ok (
      MqttPacket.unsubscribe
        (make_unsubscribe (length frame.payload % 2 ^ 32) packet_id topic_filters))

unfoldable pub decode_publish : Frame → Result MqttPacket
decode_publish frame = do
  asserting PacketType.publish frame
  let dup = dup_of frame.type_and_flags
  let qos = qos_of frame.type_and_flags 1
  throw_if (dup && same_qos qos at_most_once) dup_without_qos
  throw_if (same_qos qos reserved) qos_reserved
  (start1, topic_name) ← decode_utf8_string frame.payload
  check_well_formed_topic_name topic_name
  (start2, packet_id) ←
      if same_qos qos at_least_once || same_qos qos exactly_once
      then decode_uint16 start1
      else ok (start1, 0)
  ok (
      MqttPacket.publish (record {
        header = record {
          type_and_flags = frame.type_and_flags;
          remaining_length = length frame.payload % 2 ^ 32;
        };
        topic = topic_name;
        packet_identifier = packet_id;
        application_message = start2;
      }))

unfoldable pub decode_puback : Frame → Result MqttPacket
decode_puback frame = do
  asserting PacketType.puback frame
  require_flags frame 0x00
  (start1, packet_id) ← decode_uint16 frame.payload
  ok (MqttPacket.puback (make_puback packet_id))

unfoldable pub decode_pubrec : Frame → Result MqttPacket
decode_pubrec frame = do
  asserting PacketType.pubrec frame
  require_flags frame 0x00
  (start1, packet_id) ← decode_uint16 frame.payload
  ok (MqttPacket.pubrec (make_pubrec packet_id))

unfoldable pub decode_pubrel : Frame → Result MqttPacket
decode_pubrel frame = do
  asserting PacketType.pubrel frame
  require_flags frame 0x02
  (start1, packet_id) ← decode_uint16 frame.payload
  ok (MqttPacket.pubrel (make_pubrel packet_id))

unfoldable pub decode_pubcomp : Frame → Result MqttPacket
decode_pubcomp frame = do
  asserting PacketType.pubcomp frame
  require_flags frame 0x00
  (start1, packet_id) ← decode_uint16 frame.payload
  ok (MqttPacket.pubcomp (make_pubcomp packet_id))

unfoldable pub body_decoder_for : PacketType → Result (Frame → Result MqttPacket)
body_decoder_for PacketType.connect = ok decode_connect
body_decoder_for PacketType.pingreq = ok decode_pingreq
body_decoder_for PacketType.disconnect = ok decode_disconnect
body_decoder_for PacketType.subscribe = ok decode_subscribe
body_decoder_for PacketType.unsubscribe = ok decode_unsubscribe
body_decoder_for PacketType.publish = ok decode_publish
body_decoder_for PacketType.puback = ok decode_puback
body_decoder_for PacketType.pubrec = ok decode_pubrec
body_decoder_for PacketType.pubcomp = ok decode_pubcomp
body_decoder_for PacketType.pubrel = ok decode_pubrel
body_decoder_for _ = err unsupported_type

unfoldable pub decode : Frame → Result MqttPacket
unfolding body_decoder_for
decode frame = body_decoder_for (type_of frame.type_and_flags) >>= λ decoder. decoder frame
