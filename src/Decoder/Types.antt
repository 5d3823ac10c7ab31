-- ===== src/Decoder/Types.antt =====
-- Which class of packet a frame is decoded to (`mqtt_packet_decoder::decode` and the decoders of the
-- bodies). The dispatcher casts a packet to the class that its type names.
use wally_io.Prelude.{
  Yields, bind-Yields, ok-Yields, ℕ, ◌≡◌, refl, not, ◌&&◌, ◌||◌, if◌then◌else◌, length, Result, ok,
  ◌>>=◌, ◌>>◌, throw_if, no_subscription, no_topic_filter, protocol_name_missing, length_mismatch,
  dup_without_qos, qos_reserved, remaining_length_nonzero,
}
use wally_io.Protocol.{
  PacketType, type_of, type_into, qos_of, dup_of, same_qos, at_most_once, at_least_once,
  exactly_once, reserved,
}
use wally_io.Topic.{check_well_formed_topic_name}
use wally_io.Packet.{
  MqttPacket, packet_type, make_connect, make_subscribe, make_unsubscribe, make_publish_ack,
  mqtt_ack, make_puback, make_pubrec, make_pubrel, make_pubcomp, contains_last_will, has_username,
  has_password,
}
use wally_io.Reader.{Frame}
use wally_io.Wire.{decode_uint16, decode_utf8_string}
use wally_io.Decoder.{
  is_empty, asserting, require_flags, next_byte, decode_last_will, decode_flagged, decode_connect,
  decode_pingreq, decode_disconnect, decode_subscriptions, decode_subscribe, decode_topic_filters,
  decode_unsubscribe, decode_publish, decode_puback, decode_pubrec, decode_pubrel, decode_pubcomp,
  body_decoder_for, decode,
}

-- The class of a packet.
abbrev pub class_of : MqttPacket → PacketType
class_of (MqttPacket.connect p) = PacketType.connect
class_of (MqttPacket.connack p) = PacketType.connack
class_of (MqttPacket.publish p) = PacketType.publish
class_of (MqttPacket.puback p) = PacketType.puback
class_of (MqttPacket.pubrec p) = PacketType.pubrec
class_of (MqttPacket.pubrel p) = PacketType.pubrel
class_of (MqttPacket.pubcomp p) = PacketType.pubcomp
class_of (MqttPacket.subscribe p) = PacketType.subscribe
class_of (MqttPacket.suback p) = PacketType.suback
class_of (MqttPacket.unsubscribe p) = PacketType.unsubscribe
class_of (MqttPacket.unsuback p) = PacketType.unsuback
class_of (MqttPacket.pingreq h) = PacketType.pingreq
class_of (MqttPacket.pingresp h) = PacketType.pingresp
class_of (MqttPacket.disconnect h) = PacketType.disconnect

-- The header's assertion and the flags.
pub header-Yields :
    {P : MqttPacket → Type 0} (type : PacketType) (flags : ℕ) (frame : Frame)
    {body : Result MqttPacket}
    → Yields P body
    → Yields P (asserting type frame >> (require_flags frame flags >> body))
header-Yields type flags frame h =
    bind-Yields (asserting type frame) (λ _ _. bind-Yields (require_flags frame flags) (λ _ _. h))

-- Both the class and the header say which type a packet has.
record IsOf (type : PacketType) (packet : MqttPacket) : Type 0 where
  class : class_of packet ≡ type
  header : packet_type packet ≡ type

decode_subscribe-IsOf :
    (frame : Frame) → Yields (IsOf PacketType.subscribe) (decode_subscribe frame)
unfolding decode_subscribe make_subscribe type_of
decode_subscribe-IsOf frame = header-Yields PacketType.subscribe 0x02 frame (
    bind-Yields (decode_uint16 frame.payload) (λ p _.
      bind-Yields (decode_subscriptions (length p.0) p.0) (λ ss _.
        bind-Yields (throw_if (is_empty ss) no_subscription) (λ _ _.
          ok-Yields (IsOf PacketType.subscribe) _ (record { class = refl; header = refl })))))

decode_unsubscribe-IsOf :
    (frame : Frame) → Yields (IsOf PacketType.unsubscribe) (decode_unsubscribe frame)
unfolding decode_unsubscribe make_unsubscribe type_of
decode_unsubscribe-IsOf frame = header-Yields PacketType.unsubscribe 0x02 frame (
    bind-Yields (decode_uint16 frame.payload) (λ p _.
      bind-Yields (decode_topic_filters (length p.0) p.0) (λ ss _.
        bind-Yields (throw_if (is_empty ss) no_topic_filter) (λ _ _.
          ok-Yields (IsOf PacketType.unsubscribe) _ (record { class = refl; header = refl })))))

decode_connect-IsOf : (frame : Frame) → Yields (IsOf PacketType.connect) (decode_connect frame)
unfolding decode_connect make_connect type_of
decode_connect-IsOf frame = header-Yields PacketType.connect 0x00 frame (
    bind-Yields (decode_utf8_string frame.payload) (λ name _.
      bind-Yields (throw_if (is_empty name.1) protocol_name_missing) (λ _ _.
        bind-Yields (next_byte name.0) (λ level _. bind-Yields (next_byte level.0) (λ flags _.
          bind-Yields (decode_uint16 flags.0) (λ keep_alive _.
            bind-Yields (decode_utf8_string keep_alive.0) (λ id _.
              bind-Yields (decode_last_will (contains_last_will flags.1) id.0) (λ will _.
                bind-Yields (decode_flagged (has_username flags.1) will.0) (λ name' _.
                  bind-Yields (decode_flagged (has_password flags.1) name'.0) (λ word _.
                    bind-Yields (throw_if (not (is_empty word.0)) length_mismatch) (λ _ _.
                      ok-Yields (IsOf PacketType.connect) _
                        (record { class = refl; header = refl }))))))))))))

decode_publish-IsOf :
    (frame : Frame)
    → type_of frame.type_and_flags ≡ PacketType.publish
    → Yields (IsOf PacketType.publish) (decode_publish frame)
unfolding decode_publish
decode_publish-IsOf frame is =
    let q = qos_of frame.type_and_flags 1 in
    bind-Yields (asserting PacketType.publish frame) (λ _ _.
      bind-Yields
        (throw_if (dup_of frame.type_and_flags && same_qos q at_most_once) dup_without_qos)
        (λ _ _. bind-Yields (throw_if (same_qos q reserved) qos_reserved) (λ _ _.
          bind-Yields (decode_utf8_string frame.payload) (λ name _.
            bind-Yields (check_well_formed_topic_name name.1) (λ _ _.
              bind-Yields
                (if same_qos q at_least_once || same_qos q exactly_once
                  then decode_uint16 name.0
                  else ok (name.0, 0))
                (λ id _.
                  ok-Yields (IsOf PacketType.publish) _ (record { class = refl; header = is })))))))

nothing_more-IsOf :
    (type : PacketType) (frame : Frame) (packet : MqttPacket)
    → IsOf type packet
    → Yields
        (IsOf type)
        (throw_if (not (is_empty frame.payload)) remaining_length_nonzero >> ok packet)
nothing_more-IsOf type frame packet is =
    bind-Yields (throw_if (not (is_empty frame.payload)) remaining_length_nonzero)
      (λ _ _. ok-Yields (IsOf type) packet is)

ack-IsOf :
    (type : PacketType) (frame : Frame) (make : ℕ → MqttPacket)
    → ((id : ℕ) → IsOf type (make id))
    → Yields (IsOf type) (decode_uint16 frame.payload >>= (λ p. ok (make p.1)))
ack-IsOf type frame make is =
    bind-Yields (decode_uint16 frame.payload) (λ p _. ok-Yields (IsOf type) (make p.1) (is p.1))

-- The decoder of a type, applied.
dispatch-IsOf :
    (type : PacketType) (frame : Frame)
    → type_of frame.type_and_flags ≡ type
    → Yields (IsOf type) (body_decoder_for type >>= λ decoder. decoder frame)
unfolding body_decoder_for decode_pingreq decode_disconnect decode_puback decode_pubrec
    decode_pubrel decode_pubcomp type_of make_publish_ack mqtt_ack type_into
dispatch-IsOf PacketType.connect frame e = decode_connect-IsOf frame
dispatch-IsOf PacketType.publish frame e = decode_publish-IsOf frame e
dispatch-IsOf PacketType.subscribe frame e = decode_subscribe-IsOf frame
dispatch-IsOf PacketType.unsubscribe frame e = decode_unsubscribe-IsOf frame
dispatch-IsOf PacketType.pingreq frame e =
    header-Yields PacketType.pingreq 0x00 frame
      (nothing_more-IsOf PacketType.pingreq frame _ (record { class = refl; header = refl }))
dispatch-IsOf PacketType.disconnect frame e =
    header-Yields PacketType.disconnect 0x00 frame
      (nothing_more-IsOf PacketType.disconnect frame _ (record { class = refl; header = refl }))
dispatch-IsOf PacketType.puback frame e = header-Yields PacketType.puback 0x00 frame (
    ack-IsOf PacketType.puback frame (λ id. MqttPacket.puback (make_puback id))
      (λ id. record { class = refl; header = refl }))
dispatch-IsOf PacketType.pubrec frame e = header-Yields PacketType.pubrec 0x00 frame (
    ack-IsOf PacketType.pubrec frame (λ id. MqttPacket.pubrec (make_pubrec id))
      (λ id. record { class = refl; header = refl }))
dispatch-IsOf PacketType.pubrel frame e = header-Yields PacketType.pubrel 0x02 frame (
    ack-IsOf PacketType.pubrel frame (λ id. MqttPacket.pubrel (make_pubrel id))
      (λ id. record { class = refl; header = refl }))
dispatch-IsOf PacketType.pubcomp frame e = header-Yields PacketType.pubcomp 0x00 frame (
    ack-IsOf PacketType.pubcomp frame (λ id. MqttPacket.pubcomp (make_pubcomp id))
      (λ id. record { class = refl; header = refl }))
dispatch-IsOf _ frame e = λ packet e'. cc e'

-- Whatever frame is decoded: the class of the packet and the type that its fixed header names are
-- both the type that the frame's first byte names, so that a cast by the type is one to the packet's
-- own class.
pub decode-class :
    (frame : Frame) (packet : MqttPacket)
    → decode frame ≡ ok packet
    → (class_of packet ≡ type_of frame.type_and_flags)
      × (packet_type packet ≡ type_of frame.type_and_flags)
unfolding decode
decode-class frame packet e =
    let is = dispatch-IsOf (type_of frame.type_and_flags) frame refl packet e in
    (is.class, is.header)
