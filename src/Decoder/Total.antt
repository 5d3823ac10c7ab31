-- ===== src/Decoder/Total.antt =====
-- Every decoder comes to an end, and how it may fail (codec/mqtt_packet_decoder.hpp and the decoders of
-- the bodies).
use wally_io.Prelude.{
  ◌≢◌, Bool, true, false, ok, err, ◌>>=◌, out_of_fuel, arith, ◌≡◌, refl, ◌∙◌, ap, ◌⊎◌, inl, inr,
  Bool-cases, Result-cases, Error, Reason, malformed, read_past_end, unsupported_type,
}
use wally_io.Protocol.{same_type, PacketType, type_of}
use wally_io.Packet.{make_puback, make_pubrec, make_pubrel, make_pubcomp, MqttPacket, packet_type}
use wally_io.Reader.{Frame}
use wally_io.Decoder.{
  decode_pingreq, decode_disconnect, decode_puback, decode_pubrec, decode_pubrel, decode_pubcomp,
  body_decoder_for, decode,
}
use wally_io.Decoder.Loops.{Refusal, refused, past_end, Fails}
use wally_io.Decoder.Types.{decode-class}
use wally_io.Decoder.Bodies.{
  header-Fails, decode_subscribe-Fails, decode_unsubscribe-Fails, decode_connect-Fails,
  decode_publish-Fails, nothing_more-Fails, ack-Fails,
}

-- The types that the server decodes.
abbrev pub is_decoded : PacketType → Bool
is_decoded PacketType.connect = true
is_decoded PacketType.publish = true
is_decoded PacketType.puback = true
is_decoded PacketType.pubrec = true
is_decoded PacketType.pubrel = true
is_decoded PacketType.pubcomp = true
is_decoded PacketType.subscribe = true
is_decoded PacketType.unsubscribe = true
is_decoded PacketType.pingreq = true
is_decoded PacketType.disconnect = true
is_decoded _ = false

-- The decoder of a type, applied. Only that of CONNECT reads with no test of the end.
dispatch-Fails :
    (type : PacketType) (frame : Frame)
    → type_of frame.type_and_flags ≡ type
    → is_decoded type ≡ true
    → Fails (same_type type PacketType.connect) (body_decoder_for type >>= λ decoder. decoder frame)
unfolding body_decoder_for decode_pingreq decode_disconnect decode_puback decode_pubrec
    decode_pubrel decode_pubcomp
dispatch-Fails PacketType.connect frame is _ = decode_connect-Fails frame is
dispatch-Fails PacketType.publish frame is _ = decode_publish-Fails frame is
dispatch-Fails PacketType.subscribe frame is _ = decode_subscribe-Fails frame is
dispatch-Fails PacketType.unsubscribe frame is _ = decode_unsubscribe-Fails frame is
dispatch-Fails PacketType.pingreq frame is _ =
    header-Fails PacketType.pingreq 0x00 frame is (nothing_more-Fails frame _)
dispatch-Fails PacketType.disconnect frame is _ =
    header-Fails PacketType.disconnect 0x00 frame is (nothing_more-Fails frame _)
dispatch-Fails PacketType.puback frame is _ =
    header-Fails PacketType.puback 0x00 frame is
      (ack-Fails frame (λ id. MqttPacket.puback (make_puback id)))
dispatch-Fails PacketType.pubrec frame is _ =
    header-Fails PacketType.pubrec 0x00 frame is
      (ack-Fails frame (λ id. MqttPacket.pubrec (make_pubrec id)))
dispatch-Fails PacketType.pubrel frame is _ =
    header-Fails PacketType.pubrel 0x02 frame is
      (ack-Fails frame (λ id. MqttPacket.pubrel (make_pubrel id)))
dispatch-Fails PacketType.pubcomp frame is _ =
    header-Fails PacketType.pubcomp 0x00 frame is
      (ack-Fails frame (λ id. MqttPacket.pubcomp (make_pubcomp id)))
dispatch-Fails _ frame is h = cc h

undecoded :
    (type : PacketType) → is_decoded type ≡ false → body_decoder_for type ≡ err unsupported_type
unfolding body_decoder_for
undecoded type h = ground (arith, h)

same_type-connect :
    (type : PacketType) → same_type type PacketType.connect ≡ true → type ≡ PacketType.connect
same_type-connect type h = ground (arith, h)

Refusal-cases :
    {unchecked : Bool} {x : Error}
    → Refusal unchecked x
    → ((r : Reason) × (x ≡ malformed r)) ⊎ ((unchecked ≡ true) × (x ≡ read_past_end))
Refusal-cases (refused r) = inl (r, refl)
Refusal-cases past_end = inr (refl, refl)

-- How the decoding of any frame ends, its loops within their fuel and its assertions holding. If the
-- type that the first byte names is not one of the ten that the server decodes, std::invalid_argument
-- is thrown. Else there is a packet, of that type, or the packet is refused as malformed, or, for
-- CONNECT alone, the end of the frame is read past.
pub decode_cases :
    (frame : Frame)
    → let type = type_of frame.type_and_flags in
      ((is_decoded type ≡ false) × (decode frame ≡ err unsupported_type))
      ⊎ ((is_decoded type ≡ true)
          × (packet : MqttPacket) × (decode frame ≡ ok packet)
          × (packet_type packet ≡ type))
      ⊎ ((is_decoded type ≡ true) × (r : Reason) × (decode frame ≡ err (malformed r)))
      ⊎ ((type ≡ PacketType.connect) × (decode frame ≡ err read_past_end))
unfolding decode
decode_cases frame =
    let type = type_of frame.type_and_flags in
    elim (Bool-cases (is_decoded type)) [
      | inr not_decoded ↦ inl (not_decoded, rw (undecoded type not_decoded) refl)
      | inl decoded ↦ inr (elim (Result-cases (decode frame)) [
        | inl (packet, e) ↦ inl (decoded, packet, e, (decode-class frame packet e).1)
        | inr (x, e) ↦ inr (elim (Refusal-cases (dispatch-Fails type frame refl decoded x e)) [
          | inl (r, same) ↦ inl (decoded, r, e ∙ ap err same)
          | inr (connects, same) ↦ inr (same_type-connect type connects, e ∙ ap err same)
        ])
      ])
    ]

-- So no decoding runs out of fuel.
pub decode_total : (frame : Frame) → decode frame ≢ err out_of_fuel
decode_total frame e = elim (decode_cases frame) [
  | inl (_, e') ↦ cc (e, e')
  | inr (inl (_, _, e', _)) ↦ cc (e, e')
  | inr (inr (inl (_, _, e'))) ↦ cc (e, e')
  | inr (inr (inr (_, e'))) ↦ cc (e, e')
]
