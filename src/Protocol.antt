-- ===== src/Protocol.antt =====
-- source/server/io_wally/protocol/common.hpp: the quality of service, the packet type, the bits of
-- the first byte of the fixed header, and the length of a packet on the wire.
pub mod Fields
pub mod Header
use wally_io.Prelude.{
  ℕ, ◌+◌, ◌-◌, ◌*◌, ◌/◌, ◌%◌, ◌^◌, bit_and, bit_or, Bool, leb, ◌==◌, if◌then◌else◌,
}

pub data QoS : Type 0 where
  at_most_once at_least_once exactly_once reserved : QoS

-- The value of the enumerator, as `static_cast<uint8_t>` gives it.
abbrev pub qos_value : QoS → ℕ
qos_value at_most_once = 0
qos_value at_least_once = 1
qos_value exactly_once = 2
qos_value reserved = 3

abbrev pub same_qos : QoS → QoS → Bool
same_qos a b = qos_value a == qos_value b

-- `( byte >> left_shift ) & 0x03`. Every caller passes a constant below the asserted 7.
unfoldable pub qos_of : ℕ → ℕ → QoS
qos_of byte left_shift =
    let bits = bit_and (byte / 2 ^ left_shift) 0x03 in
    if bits == 0x00
    then at_most_once
    else if bits == 0x01
    then at_least_once
    else if bits == 0x02
    then exactly_once
    else reserved

-- The mask is a uint8_t. That of `reserved` has four bits, and not the two of the field.
unfoldable pub qos_mask : QoS → ℕ → ℕ
qos_mask at_most_once left_shift = 0x00 * 2 ^ left_shift % 256
qos_mask at_least_once left_shift = 0x01 * 2 ^ left_shift % 256
qos_mask exactly_once left_shift = 0x02 * 2 ^ left_shift % 256
qos_mask reserved left_shift = 0x0F * 2 ^ left_shift % 256

unfoldable pub qos_into : QoS → ℕ → ℕ → ℕ
unfolding qos_mask
qos_into qos byte left_shift =
    bit_or (bit_and byte (0xFF - 0x03 * 2 ^ left_shift)) (qos_mask qos left_shift)

-- `packet::Type`; its enumerators are spelled in lower case, and `packet` tells the two apart.
pub data PacketType : Type 0 where
  reserved1 connect connack publish puback pubrec pubrel pubcomp : PacketType
  subscribe suback unsubscribe unsuback pingreq pingresp disconnect reserved2 : PacketType

-- The value of the enumerator.
abbrev pub type_value : PacketType → ℕ
type_value reserved1 = 0
type_value connect = 1
type_value connack = 2
type_value publish = 3
type_value puback = 4
type_value pubrec = 5
type_value pubrel = 6
type_value pubcomp = 7
type_value subscribe = 8
type_value suback = 9
type_value unsubscribe = 10
type_value unsuback = 11
type_value pingreq = 12
type_value pingresp = 13
type_value disconnect = 14
type_value reserved2 = 15

-- Enumerators are compared by their values.
abbrev pub same_type : PacketType → PacketType → Bool
same_type a b = type_value a == type_value b

abbrev pub control_packet_type_mask : ℕ
control_packet_type_mask = 0xF0

unfoldable pub type_of : ℕ → PacketType
type_of control_packet_type_and_flags =
    let type_bits = bit_and control_packet_type_and_flags control_packet_type_mask / 2 ^ 4 in
    if type_bits == 0x00
    then reserved1
    else if type_bits == 0x01
    then connect
    else if type_bits == 0x02
    then connack
    else if type_bits == 0x03
    then publish
    else if type_bits == 0x04
    then puback
    else if type_bits == 0x05
    then pubrec
    else if type_bits == 0x06
    then pubrel
    else if type_bits == 0x07
    then pubcomp
    else if type_bits == 0x08
    then subscribe
    else if type_bits == 0x09
    then suback
    else if type_bits == 0x0A
    then unsubscribe
    else if type_bits == 0x0B
    then unsuback
    else if type_bits == 0x0C
    then pingreq
    else if type_bits == 0x0D
    then pingresp
    else if type_bits == 0x0E
    then disconnect
    else reserved2

unfoldable pub type_mask : PacketType → ℕ
type_mask reserved1 = 0x00 * 2 ^ 4
type_mask connect = 0x01 * 2 ^ 4
type_mask connack = 0x02 * 2 ^ 4
type_mask publish = 0x03 * 2 ^ 4
type_mask puback = 0x04 * 2 ^ 4
type_mask pubrec = 0x05 * 2 ^ 4
type_mask pubrel = 0x06 * 2 ^ 4
type_mask pubcomp = 0x07 * 2 ^ 4
type_mask subscribe = 0x08 * 2 ^ 4
type_mask suback = 0x09 * 2 ^ 4
type_mask unsubscribe = 0x0A * 2 ^ 4
type_mask unsuback = 0x0B * 2 ^ 4
type_mask pingreq = 0x0C * 2 ^ 4
type_mask pingresp = 0x0D * 2 ^ 4
type_mask disconnect = 0x0E * 2 ^ 4
type_mask reserved2 = 0x0F * 2 ^ 4

unfoldable pub type_into : PacketType → ℕ → ℕ
unfolding type_mask
type_into type control_packet_type_and_flags =
    bit_or (bit_and control_packet_type_and_flags 0x0F) (type_mask type)

unfoldable pub dup_of : ℕ → Bool
dup_of control_packet_type_and_flags = bit_and control_packet_type_and_flags 0x08 == 0x08

-- `byte &= ~0x08` leaves the other seven bits of the byte.
unfoldable pub dup_into : Bool → ℕ → ℕ
dup_into dup byte = if dup then bit_or byte 0x08 else bit_and byte (0xFF - 0x08)

unfoldable pub retain_of : ℕ → Bool
retain_of control_packet_type_and_flags = bit_and control_packet_type_and_flags 0x01 == 0x01

unfoldable pub retain_into : Bool → ℕ → ℕ
retain_into retain byte = if retain then bit_or byte 0x01 else bit_and byte (0xFF - 0x01)

pub data ProtocolLevel : Type 0 where
  level4 unsupported : ProtocolLevel

abbrev pub max_allowed_packet_length : ℕ
max_allowed_packet_length = 268435455

-- The bytes that `total_length` reckons for the encoded remaining length.
unfoldable pub rem_length_bytes : ℕ → ℕ
rem_length_bytes remaining_length =
    if leb remaining_length 127
    then 1
    else if leb remaining_length 16383
    then 2
    else if leb remaining_length 2097151
    then 3
    else 4

-- A uint32_t sum.
unfoldable pub total_length : ℕ → ℕ
total_length remaining_length = (1 + rem_length_bytes remaining_length + remaining_length) % 2 ^ 32
