-- ===== src/Packet/PublishPacket.antt =====
-- source/server/io_wally/protocol/publish_packet.hpp
use wally_io.Prelude.{
  ℕ, ◌+◌, ◌-◌, ◌*◌, ◌%◌, ◌^◌, bit_and, bit_or, Bytes, Bool, not, ◌||◌, length, if◌then◌else◌,
  Result, ok, err, ◌>>=◌, assertion_failed,
}
use wally_io.Protocol.{
  QoS, at_most_once, at_least_once, exactly_once, reserved, qos_value, same_qos, qos_of, PacketType,
  type_into, dup_of, dup_into, qos_into, retain_of, retain_into,
}
use wally_io.Packet.{Publish}

-- `publish::create`
unfoldable pub create : Bool → QoS → Bool → Bytes → ℕ → Bytes → Publish
create dup qos retain topic packet_identifier application_message =
    let type_and_flags = type_into PacketType.publish 0x00 in
    let type_and_flags' = dup_into dup type_and_flags in
    let type_and_flags'' = qos_into qos type_and_flags' 1 in
    let identifier : ℕ = if same_qos qos at_most_once then 0 else 2 in
    let with_topic = (identifier + (2 + length topic)) % 2 ^ 32 in
    record {
      header = record {
        type_and_flags = retain_into retain type_and_flags'';
        remaining_length = (with_topic + length application_message) % 2 ^ 32;
      };
      topic = topic;
      packet_identifier = packet_identifier;
      application_message = application_message;
    }

unfoldable pub dup : Publish → Bool
dup p = dup_of p.header.type_and_flags

unfoldable pub set_dup : Bool → Publish → Publish
set_dup dup p = record p {
  header = record p.header { type_and_flags = dup_into dup p.header.type_and_flags };
}

unfoldable pub qos : Publish → QoS
qos p = qos_of p.header.type_and_flags 1

-- The remaining length is a uint32_t, and is adjusted by the packet identifier that comes or goes.
abbrev pub adjusted : QoS → QoS → ℕ → Result ℕ
adjusted at_most_once new_qos remaining_length = ok (
    if same_qos new_qos at_least_once || same_qos new_qos exactly_once
    then (remaining_length + 2) % 2 ^ 32
    else remaining_length)
adjusted reserved new_qos remaining_length = err assertion_failed
adjusted old_qos new_qos remaining_length = ok (
    if same_qos new_qos at_most_once
    then (remaining_length + 2 ^ 32 - 2) % 2 ^ 32
    else remaining_length)

unfoldable pub set_qos : QoS → Publish → Result Publish
unfolding qos
set_qos new_qos p =
    let old_qos = qos p in
    let flags = bit_or (bit_and p.header.type_and_flags 0xF9) (qos_value new_qos * 2) in
    adjusted old_qos new_qos p.header.remaining_length >>= λ remaining_length.
    ok
      (record p { header = record { type_and_flags = flags; remaining_length = remaining_length } })

unfoldable pub retain : Publish → Bool
retain p = retain_of p.header.type_and_flags

unfoldable pub set_retain : Bool → Publish → Publish
set_retain retain p = record p {
  header = record p.header { type_and_flags = retain_into retain p.header.type_and_flags };
}

unfoldable pub has_packet_identifier : Publish → Bool
unfolding qos
has_packet_identifier p = not (same_qos (qos p) at_most_once)

unfoldable pub with_new_packet_identifier : ℕ → Publish → Publish
with_new_packet_identifier new_packet_identifier p = record p {
  packet_identifier = new_packet_identifier;
}
