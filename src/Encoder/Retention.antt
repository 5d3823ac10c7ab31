-- ===== src/Encoder/Retention.antt =====
-- PUBLISH packets that the server makes or marks itself (`publish::create` and the setter of the
-- RETAIN flag, protocol/publish_packet.hpp).
use wally_io.Prelude.{
  ℕ, ◌+◌, ◌%◌, ◌^◌, ◌≤◌, ◌<◌, ◌≡◌, ◌≢◌, sym, ◌∙◌, Bytes, Bool, true, if◌then◌else◌, length, arith,
}
use wally_io.Protocol.{
  QoS, at_most_once, reserved, PacketType, retain_into, max_allowed_packet_length, same_qos,
}
use wally_io.Wire.{max_string_length}
use wally_io.Protocol.Fields.{bit, retain_into-arith, retain_of-bit}
use wally_io.Protocol.Header.{setters_independent, set_fields-get}
use wally_io.Packet.{Publish}
use wally_io.Packet.PublishPacket.{create, dup, qos, retain, set_retain, has_packet_identifier}
use wally_io.Encoder.Lengths.{identifier_length}
use wally_io.Encoder.Publications.{IsRelayable}

-- The setter sets the RETAIN flag, and a PUBLISH that can be handed on still can.
pub set_retain_lem :
    (r : Bool) (p : Publish)
    → IsRelayable p
    → IsRelayable (set_retain r p)
      × (retain (set_retain r p) ≡ r)
      × (dup (set_retain r p) ≡ dup p)
      × (qos (set_retain r p) ≡ qos p)
unfolding set_retain retain dup qos has_packet_identifier
set_retain_lem r p relayable =
    let b = p.header.type_and_flags in
    let value = retain_into-arith r b relayable.byte in
    let small : retain_into r b < 256 = ground (arith, value, relayable.byte) in
    let odd : retain_into r b % 2 ≡ bit r = ground (arith, value) in
    let (_, _, _, same_type, same_qos, same_dup, _, _, _) =
      setters_independent b true r at_most_once relayable.byte (λ e. cc e) in
    let c = relayable.consistent in
    (
      record {
        consistent = record {
          is_publish = same_type ∙ c.is_publish;
          topic_fits = c.topic_fits;
          counted = rw (identifier_length, same_qos) c.counted;
          small = c.small;
        };
        byte = small;
        unreserved = λ e. relayable.unreserved (sym same_qos ∙ e);
        room = relayable.room;
      },
      retain_of-bit r _ small odd,
      same_dup,
      same_qos,
    )

-- `publish::create` gives a PUBLISH that can be handed on if its topic fits, its QoS is unreserved
-- and it leaves room for a packet identifier.
pub create_lem :
    (d : Bool) (q : QoS) (r : Bool) (topic : Bytes) (id : ℕ) (message : Bytes)
    → q ≢ reserved
    → length topic ≤ max_string_length
    → length topic + length message + 4 ≤ max_allowed_packet_length
    → let p = create d q r topic id message in
      IsRelayable p × (dup p ≡ d) × (qos p ≡ q) × (retain p ≡ r)
unfolding create retain dup qos has_packet_identifier
create_lem d q r topic id message m fits room =
    let (small, type, is_dup, is_qos, is_retain) =
      set_fields-get PacketType.publish d q r 0 m (omega arith) in
    let identifier : ℕ = if same_qos q at_most_once then 0 else 2 in
    let at_most_two : identifier ≤ 2 = ground arith in
    let total : ((identifier + (2 + length topic)) % 2 ^ 32 + length message) % 2 ^ 32
        ≡ identifier + 2 + length topic + length message =
      omega (arith, at_most_two, room) in
    let has_identifier : identifier_length (create d q r topic id message) ≡ identifier =
      rw (identifier_length, is_qos) (ground arith) in
    (
      record {
        consistent = record {
          is_publish = type;
          topic_fits = fits;
          counted = omega (arith, total, has_identifier);
          small = omega (arith, total, at_most_two, room);
        };
        byte = small;
        unreserved = λ e. m (sym is_qos ∙ e);
        room = room;
      },
      is_dup,
      is_qos,
      is_retain,
    )
