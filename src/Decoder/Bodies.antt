-- ===== src/Decoder/Bodies.antt =====
-- How the decoders of the packets' bodies may fail.
use wally_io.Prelude.{
  ltb, ◌&&◌, ◌||◌, if◌then◌else◌, last_will_exceeds, protocol_name_missing, length_mismatch,
  topic_empty, topic_too_long, topic_null, topic_plus, topic_hash, dup_without_qos, qos_reserved,
  remaining_length_nonzero, bit_and, not, ◌==◌, invalid_flags, no_subscription, no_topic_filter, ℕ,
  Bytes, Bool, true, false, length, [], ◌∷◌, Result, ok, ◌>>=◌, ◌>>◌, throw_if, arith, ◌≡◌, subst,
  read_past_end,
}
use wally_io.Protocol.{
  qos_of, dup_of, same_qos, at_most_once, at_least_once, exactly_once, reserved, same_type,
  PacketType, type_of,
}
use wally_io.Topic.{contains, check_well_formed_topic_name}
use wally_io.Packet.{contains_last_will, has_username, has_password, MqttPacket}
use wally_io.Reader.{Frame}
use wally_io.Wire.{decode_uint16}
use wally_io.Decoder.{
  next_byte, is_empty, asserting, require_flags, decode_last_will, decode_flagged, decode_connect,
  decode_subscribe, decode_unsubscribe, decode_publish,
}
use wally_io.Decoder.Loops.{
  Refusal, past_end, Fails, bind-Fails, ok-Fails, throw_if-Fails, decode_uint16-Fails,
  decode_utf8_string-Fails, decode_subscriptions-Fails, decode_topic_filters-Fails,
}

next_byte-Fails : (bs : Bytes) → Fails true (next_byte bs)
unfolding next_byte
next_byte-Fails [] x e = let same : read_past_end ≡ x = cc e in subst (Refusal true) same past_end
next_byte-Fails (b ∷ bs) x e = cc e

-- The header's assertion holds.
asserting-Fails :
    {unchecked : Bool} (type : PacketType) (frame : Frame)
    → type_of frame.type_and_flags ≡ type
    → Fails unchecked (asserting type frame)
asserting-Fails type frame is =
    let same : same_type (type_of frame.type_and_flags) type ≡ true = rw is (ground arith) in
    rw same (ok-Fails tt)

pub header-Fails :
    {unchecked : Bool} (type : PacketType) (flags : ℕ) (frame : Frame) {body : Result MqttPacket}
    → type_of frame.type_and_flags ≡ type
    → Fails unchecked body
    → Fails unchecked (asserting type frame >> (require_flags frame flags >> body))
header-Fails type flags frame is h = bind-Fails _ (asserting-Fails type frame is) (λ _ _.
    bind-Fails _ (throw_if-Fails (not (bit_and frame.type_and_flags 0x0F == flags)) invalid_flags)
      (λ _ _. h))

pub decode_subscribe-Fails :
    {unchecked : Bool} (frame : Frame)
    → type_of frame.type_and_flags ≡ PacketType.subscribe
    → Fails unchecked (decode_subscribe frame)
unfolding decode_subscribe
decode_subscribe-Fails frame is = header-Fails PacketType.subscribe 0x02 frame is (
    bind-Fails _ (decode_uint16-Fails frame.payload) (λ p _.
      bind-Fails _ (decode_subscriptions-Fails (length p.0) p.0 (omega arith))
        (λ ss _. bind-Fails _ (throw_if-Fails (is_empty ss) no_subscription) (λ _ _. ok-Fails _))))

pub decode_unsubscribe-Fails :
    {unchecked : Bool} (frame : Frame)
    → type_of frame.type_and_flags ≡ PacketType.unsubscribe
    → Fails unchecked (decode_unsubscribe frame)
unfolding decode_unsubscribe
decode_unsubscribe-Fails frame is = header-Fails PacketType.unsubscribe 0x02 frame is (
    bind-Fails _ (decode_uint16-Fails frame.payload) (λ p _.
      bind-Fails _ (decode_topic_filters-Fails (length p.0) p.0 (omega arith))
        (λ ss _. bind-Fails _ (throw_if-Fails (is_empty ss) no_topic_filter) (λ _ _. ok-Fails _))))

decode_last_will-Fails :
    {unchecked : Bool} (b : Bool) (bs : Bytes) → Fails unchecked (decode_last_will b bs)
unfolding decode_last_will
decode_last_will-Fails false bs = ok-Fails _
decode_last_will-Fails true bs = bind-Fails _ (decode_utf8_string-Fails bs) (λ p _.
    bind-Fails _ (decode_uint16-Fails p.0) (λ q _.
      bind-Fails _ (throw_if-Fails (ltb (length q.0) q.1) last_will_exceeds) (λ _ _. ok-Fails _)))

decode_flagged-Fails :
    {unchecked : Bool} (b : Bool) (bs : Bytes) → Fails unchecked (decode_flagged b bs)
unfolding decode_flagged
decode_flagged-Fails false bs = ok-Fails _
decode_flagged-Fails true bs = decode_utf8_string-Fails bs

pub decode_connect-Fails :
    (frame : Frame)
    → type_of frame.type_and_flags ≡ PacketType.connect
    → Fails true (decode_connect frame)
unfolding decode_connect
decode_connect-Fails frame is = header-Fails PacketType.connect 0x00 frame is (
    bind-Fails _ (decode_utf8_string-Fails frame.payload) (λ name _.
      bind-Fails _ (throw_if-Fails (is_empty name.1) protocol_name_missing) (λ _ _.
        bind-Fails _ (next_byte-Fails name.0) (λ level _.
          bind-Fails _ (next_byte-Fails level.0) (λ flags _.
            bind-Fails _ (decode_uint16-Fails flags.0) (λ keep_alive _.
              bind-Fails _ (decode_utf8_string-Fails keep_alive.0) (λ id _.
                bind-Fails _ (decode_last_will-Fails (contains_last_will flags.1) id.0) (λ will _.
                  bind-Fails _ (decode_flagged-Fails (has_username flags.1) will.0) (λ name' _.
                    bind-Fails _ (decode_flagged-Fails (has_password flags.1) name'.0) (λ word _.
                      bind-Fails _ (throw_if-Fails (not (is_empty word.0)) length_mismatch)
                        (λ _ _. ok-Fails _)))))))))))

check_well_formed_topic_name-Fails :
    {unchecked : Bool} (name : Bytes) → Fails unchecked (check_well_formed_topic_name name)
unfolding check_well_formed_topic_name
check_well_formed_topic_name-Fails name =
    bind-Fails _ (throw_if-Fails (length name == 0) topic_empty) (λ _ _.
      bind-Fails _ (throw_if-Fails (ltb 65535 (length name)) topic_too_long) (λ _ _.
        bind-Fails _ (throw_if-Fails (contains 0 name) topic_null) (λ _ _.
          bind-Fails _ (throw_if-Fails (contains b'+' name) topic_plus)
            (λ _ _. throw_if-Fails (contains b'#' name) topic_hash))))

identifier-Fails :
    {unchecked : Bool} (b : Bool) (bs : Bytes)
    → Fails unchecked (if b then decode_uint16 bs else ok (bs, 0))
identifier-Fails true bs = decode_uint16-Fails bs
identifier-Fails false bs = ok-Fails _

pub decode_publish-Fails :
    {unchecked : Bool} (frame : Frame)
    → type_of frame.type_and_flags ≡ PacketType.publish
    → Fails unchecked (decode_publish frame)
unfolding decode_publish
decode_publish-Fails frame is =
    let q = qos_of frame.type_and_flags 1 in
    bind-Fails _ (asserting-Fails PacketType.publish frame is) (λ _ _.
      bind-Fails _
        (throw_if-Fails (dup_of frame.type_and_flags && same_qos q at_most_once) dup_without_qos)
        (λ _ _. bind-Fails _ (throw_if-Fails (same_qos q reserved) qos_reserved) (λ _ _.
          bind-Fails _ (decode_utf8_string-Fails frame.payload) (λ name _.
            bind-Fails _ (check_well_formed_topic_name-Fails name.1) (λ _ _.
              bind-Fails _
                (identifier-Fails (same_qos q at_least_once || same_qos q exactly_once) name.0)
                (λ id _. ok-Fails _))))))

pub nothing_more-Fails :
    {unchecked : Bool} (frame : Frame) (packet : MqttPacket)
    → Fails unchecked
        (throw_if (not (is_empty frame.payload)) remaining_length_nonzero >> ok packet)
nothing_more-Fails frame packet =
    bind-Fails _ (throw_if-Fails (not (is_empty frame.payload)) remaining_length_nonzero)
      (λ _ _. ok-Fails _)

pub ack-Fails :
    {unchecked : Bool} (frame : Frame) (make : ℕ → MqttPacket)
    → Fails unchecked (decode_uint16 frame.payload >>= (λ p. ok (make p.1)))
ack-Fails frame make = bind-Fails _ (decode_uint16-Fails frame.payload) (λ p _. ok-Fails _)
