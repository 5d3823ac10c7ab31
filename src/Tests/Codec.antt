-- ===== src/Tests/Codec.antt =====
-- Concrete packets, the runs of the code on them, and the theorems applied to them.
use wally_io.Prelude.{
  ℕ, ◌+◌, ◌≤◌, ◌<◌, ◌≡◌, refl, ◌⊎◌, Bytes, [], ◌∷◌, false, length, replicate, none, some, ok, err,
  malformed, length_not_encodable, arith,
}
use wally_io.Protocol.{
  at_least_once, type_of, qos_of, max_allowed_packet_length, rem_length_bytes, total_length,
}
use wally_io.Wire.{encode_remaining_length}
use wally_io.Wire.Lengths.{IsEncoding, encode_remaining_length_lem}
use wally_io.Reader.{FrameReader, read_on, decode_remaining_length, decode_groups}
use wally_io.Reader.Lengths.{decode_remaining_length_bound}
use wally_io.Reader.Stream.{Reading, begin, arrive, Reading_lem}
use wally_io.Topic.{check_well_formed_topic_name, contains}
use wally_io.Packet.{Publish, MqttPacket}
use wally_io.Packet.PublishPacket.{qos, dup, has_packet_identifier}
use wally_io.Encoder.{encode}
use wally_io.Encoder.Lengths.{IsPacket, IsConsistent, IsSendable, encode-IsSendable}
use wally_io.Decoder.{decode}
use wally_io.Encoder.Publications.{IsRelayable, set_qos_lem}
use wally_io.Packet.PublishPacket.{set_qos, with_new_packet_identifier}
use wally_io.Protocol.{exactly_once}
use wally_io.Decoder.RoundTrip.{IsValid, IsRelayed, decode-encode}

abbrev pub topic : Bytes
topic = b'a' ∷ b'/' ∷ b'b' ∷ []

abbrev pub sample : Publish
sample = record {
  header = record { type_and_flags = 0x32; remaining_length = 8 };
  topic = topic;
  packet_identifier = 5;
  application_message = 1 ∷ [];
}

sample-IsConsistent : IsConsistent sample
unfolding type_of has_packet_identifier qos_of
sample-IsConsistent = record {
  is_publish = refl;
  topic_fits = omega arith;
  counted = refl;
  small = omega arith;
}

sample-IsValid : IsValid sample
unfolding qos dup qos_of check_well_formed_topic_name contains
sample-IsValid = record {
  consistent = sample-IsConsistent;
  qos_unreserved = λ e. cc e;
  dup_with_qos = λ d e. cc e;
  topic_name = refl;
  no_identifier = λ e. cc e;
}

encode_remaining_length_example :
    ((300 ≤ max_allowed_packet_length)
      × ((bs : Bytes) × (encode_remaining_length 300 ≡ ok bs)
          × IsEncoding bs 300
          × (length bs ≡ rem_length_bytes 300)))
    ⊎ ((max_allowed_packet_length < 300)
        × (encode_remaining_length 300 ≡ err (malformed length_not_encodable)))
encode_remaining_length_example = encode_remaining_length_lem 300 (omega arith)

abbrev long_packet : Bytes
long_packet = 0x30 ∷ 0xAC ∷ 0x02 ∷ 7 ∷ []

long_packet-length : decode_remaining_length 3 long_packet ≡ ok (some (300, 3))
unfolding decode_remaining_length decode_groups
long_packet-length = refl

decode_remaining_length_bound_example :
    (300 ≤ max_allowed_packet_length) × (2 ≤ 3) × (3 ≤ 5) × (3 ≤ 3)
decode_remaining_length_bound_example =
    decode_remaining_length_bound 3 long_packet 300 3 (omega arith) long_packet-length

abbrev start : FrameReader
start = record { buffer = replicate 16 0; frame = none }

abbrev puback_bytes : Bytes
puback_bytes = 0x40 ∷ 2 ∷ 0 ∷ 5 ∷ []

abbrev puback_then : Bytes
puback_then = 0x40 ∷ 2 ∷ 0 ∷ 5 ∷ 0xC0 ∷ []

abbrev after_one : FrameReader
after_one = record { buffer = 0x40 ∷ replicate 15 0; frame = none }

one_read : Reading puback_then start 1 after_one
unfolding read_on decode_remaining_length
one_read = arrive 1 begin refl (omega arith) (omega arith) (omega arith) (omega arith)

Reading_example :
    (1 ≤ length puback_bytes)
    × ((1 < length puback_bytes)
          × ((m : ℕ) × (r' : FrameReader) × (read_on false 1 after_one ≡ ok (m, r'))
              × (1 ≤ m)
              × (1 + m ≤ length puback_bytes)
              × (r'.frame ≡ none))
        ⊎ (1 ≡ length puback_bytes)
          × ((r' : FrameReader) × (read_on false 1 after_one ≡ ok (0, r'))
              × (r'.frame ≡ some (record { type_and_flags = 0x40; payload = 0 ∷ 5 ∷ [] }))))
Reading_example =
    Reading_lem 0x40 2 (2 ∷ []) (0 ∷ 5 ∷ []) (0xC0 ∷ []) start (omega arith) (omega arith) refl
      (omega arith) (omega arith) one_read

encode-IsSendable_example :
    (payload bytes : Bytes) × (encode (MqttPacket.publish sample) (total_length 8) ≡ ok bytes)
    × IsPacket sample.header payload bytes
encode-IsSendable_example = encode-IsSendable (IsSendable.publish sample sample-IsConsistent)

decode-encode_example :
    (payload bytes : Bytes) × (encode (MqttPacket.publish sample) (total_length 8) ≡ ok bytes)
    × IsPacket sample.header payload bytes
    × (decode (record { type_and_flags = 0x32; payload = payload })
        ≡ ok (MqttPacket.publish sample))
decode-encode_example = decode-encode (IsRelayed.publish sample sample-IsValid)

sample-qos : qos sample ≡ at_least_once
unfolding qos qos_of
sample-qos = refl

pub sample-IsRelayable : IsRelayable sample
sample-IsRelayable = record {
  consistent = sample-IsConsistent;
  byte = omega arith;
  unreserved = λ e. cc (sample-qos, e);
  room = omega arith;
}

set_qos_example :
    (p' : Publish) × (set_qos exactly_once (with_new_packet_identifier 9 sample) ≡ ok p')
    × IsRelayable p'
    × (qos p' ≡ exactly_once)
    × (p'.packet_identifier ≡ 9)
    × (p'.topic ≡ topic)
    × (p'.application_message ≡ 1 ∷ [])
set_qos_example = set_qos_lem sample exactly_once 9 sample-IsRelayable (λ e. cc e)
