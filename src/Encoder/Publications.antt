-- ===== src/Encoder/Publications.antt =====
-- The PUBLISH that `tx_in_flight_publications` makes for a client: it gets a packet identifier of
-- that client's and the QoS of the subscription (`with_new_packet_identifier` and `qos` of
-- protocol/publish_packet.hpp).
use wally_io.Prelude.{
  ℕ, ◌+◌, ◌*◌, ◌^◌, ◌≤◌, ◌<◌, ◌≡◌, ◌≢◌, refl, ap, sym, ◌∙◌, true, bit_and, bit_or, length, ok,
  arith,
}
use wally_io.Protocol.{
  QoS, at_most_once, at_least_once, exactly_once, reserved, qos_value, qos_of, qos_into, qos_mask,
  max_allowed_packet_length,
}
use wally_io.Protocol.Fields.{qos_into-arith, qos_of-value}
use wally_io.Protocol.Header.{setters_independent, qos_into_fields}
use wally_io.Packet.{Publish}
use wally_io.Packet.PublishPacket.{
  qos, set_qos, with_new_packet_identifier, has_packet_identifier, adjusted,
}
use wally_io.Encoder.Lengths.{IsConsistent, identifier_length}

qos_of-qos_into : (q : QoS) (b : ℕ) → q ≢ reserved → b < 256 → qos_of (qos_into q b 1) 1 ≡ q
qos_of-qos_into reserved b n h = absurd (n refl)
qos_of-qos_into q b n h =
    let (small, type, dup, retain) = qos_into_fields q b n h in
    qos_of-value q _ small (ground (arith, qos_into-arith q b h))

-- The bits that `publish::qos` sets are those of `qos_into`.
set_flags :
    (q : QoS) (b : ℕ) → q ≢ reserved → bit_or (bit_and b 0xF9) (qos_value q * 2) ≡ qos_into q b 1
unfolding qos_into qos_mask
set_flags at_most_once b n = refl
set_flags at_least_once b n = refl
set_flags exactly_once b n = refl
set_flags reserved b n = absurd (n refl)

abbrev pub length_of : QoS → ℕ
length_of at_most_once = 0
length_of _ = 2

length_of_le : (q : QoS) → length_of q ≤ 2
length_of_le q = ground arith

adjusted_lem :
    (old new : QoS) (rest remaining : ℕ)
    → old ≢ reserved
    → new ≢ reserved
    → remaining ≡ rest + length_of old
    → remaining + 2 < 2 ^ 32
    → adjusted old new remaining ≡ ok (rest + length_of new)
adjusted_lem reserved new rest remaining n m e small = absurd (n refl)
adjusted_lem old reserved rest remaining n m e small = absurd (m refl)
adjusted_lem old new rest remaining n m e small = ground (arith, e)

length_of-qos : (p : Publish) → identifier_length p ≡ length_of (qos p)
unfolding has_packet_identifier
length_of-qos p = ground arith

-- What a client's `tx_in_flight_publications` makes of a PUBLISH.
abbrev pub requalified : QoS → ℕ → Publish → Publish
requalified q id p = record p {
  packet_identifier = id;
  header = record {
    type_and_flags = qos_into q p.header.type_and_flags 1;
    remaining_length = 2 + length p.topic + length p.application_message + length_of q;
  };
}

-- A PUBLISH that can be sent to a client with any QoS: it has room for a packet identifier.
pub record IsRelayable (p : Publish) : Type 0 where
  pub consistent : IsConsistent p
  pub byte : p.header.type_and_flags < 256
  pub unreserved : qos p ≢ reserved
  pub room : length p.topic + length p.application_message + 4 ≤ max_allowed_packet_length

remaining_length-IsConsistent :
    (p : Publish)
    → IsConsistent p
    → p.header.remaining_length
      ≡ 2 + length p.topic + length p.application_message + length_of (qos p)
remaining_length-IsConsistent p c = omega (arith, c.counted, length_of-qos p)

pub set_qos-requalified :
    (p : Publish) (q : QoS) (id : ℕ)
    → IsRelayable p
    → q ≢ reserved
    → set_qos q (with_new_packet_identifier id p) ≡ ok (requalified q id p)
unfolding set_qos with_new_packet_identifier
set_qos-requalified p q id r m =
    let rest = 2 + length p.topic + length p.application_message in
    let remaining = remaining_length-IsConsistent p r.consistent in
    let small : p.header.remaining_length + 2 < 2 ^ 32 =
      omega (arith, remaining, r.room, length_of_le (qos p)) in
    let flags = set_flags q p.header.type_and_flags m in
    rw (flags, adjusted_lem (qos p) q rest p.header.remaining_length r.unreserved m remaining small)

pub qos-requalified :
    (p : Publish) (q : QoS) (id : ℕ) → IsRelayable p → q ≢ reserved → qos (requalified q id p) ≡ q
unfolding qos
qos-requalified p q id r m = qos_of-qos_into q p.header.type_and_flags m r.byte

pub requalified-IsRelayable :
    (p : Publish) (q : QoS) (id : ℕ)
    → IsRelayable p
    → q ≢ reserved
    → IsRelayable (requalified q id p)
requalified-IsRelayable p q id r m =
    let b = p.header.type_and_flags in
    let p' = requalified q id p in
    let is_q = qos-requalified p q id r m in
    let (_, _, _, _, _, _, same_type, _, _) = setters_independent b true true q r.byte m in
    let (small, _, _, _) = qos_into_fields q b m r.byte in
    record {
      consistent = record {
        is_publish = same_type ∙ r.consistent.is_publish;
        topic_fits = r.consistent.topic_fits;
        counted = omega (arith, length_of-qos p', ap length_of is_q);
        small = omega (arith, r.room, length_of_le q);
      };
      byte = small;
      unreserved = λ e. m (sym is_q ∙ e);
      room = r.room;
    }

-- A consistent PUBLISH, with a first byte below 256, an unreserved QoS and room for a packet
-- identifier, gets one and another unreserved QoS: it is then
-- again such a PUBLISH, and has that QoS, that identifier, the same topic and the
-- same message.
pub set_qos_lem :
    (p : Publish) (q : QoS) (id : ℕ)
    → IsRelayable p
    → q ≢ reserved
    → (p' : Publish) × (set_qos q (with_new_packet_identifier id p) ≡ ok p')
      × IsRelayable p'
      × (qos p' ≡ q)
      × (p'.packet_identifier ≡ id)
      × (p'.topic ≡ p.topic)
      × (p'.application_message ≡ p.application_message)
set_qos_lem p q id r m = (
  requalified q id p,
  set_qos-requalified p q id r m,
  requalified-IsRelayable p q id r m,
  qos-requalified p q id r m,
  refl,
  refl,
  refl,
)
