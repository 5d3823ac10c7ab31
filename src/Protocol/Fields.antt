-- ===== src/Protocol/Fields.antt =====
-- The bit fields of a fixed header's first byte (protocol/common.hpp), in plain arithmetic: the
-- type is b / 16, DUP is bit 3, the QoS bits 1 and 2, RETAIN bit 0.
use wally_io.Prelude.{
  ℕ, ◌+◌, ◌*◌, ◌/◌, ◌%◌, ◌<◌, bit_and, bit_or, ◌≡◌, refl, Bool, true, false, arith,
}
use wally_io.Prelude.Bits.{agreeing, agree_below}
use wally_io.Protocol.{type_value}
use wally_io.Protocol.{
  QoS, at_most_once, at_least_once, exactly_once, reserved, qos_value, qos_of, qos_into, PacketType,
  type_of, type_into, dup_of, dup_into, retain_of, retain_into,
}

pub type_bits : (b : ℕ) → b < 256 → bit_and b 0xF0 ≡ b / 16 * 16
unfolding agreeing
type_bits = agree_below 256 _ _ refl

pub dup_bit : (b : ℕ) → b < 256 → bit_and b 0x08 ≡ b / 8 % 2 * 8
unfolding agreeing
dup_bit = agree_below 256 _ _ refl

pub retain_bit : (b : ℕ) → b < 256 → bit_and b 0x01 ≡ b % 2
unfolding agreeing
retain_bit = agree_below 256 _ _ refl

pub two_bits : (b : ℕ) → b < 256 → bit_and b 0x03 ≡ b % 4
unfolding agreeing
two_bits = agree_below 256 _ _ refl

pub low_nibble : (b : ℕ) → b < 256 → bit_and b 0x0F ≡ b % 16
unfolding agreeing
low_nibble = agree_below 256 _ _ refl

dup_set : (b : ℕ) → b < 256 → bit_or b 0x08 ≡ b / 16 * 16 + 8 + b % 8
unfolding agreeing
dup_set = agree_below 256 _ _ refl

dup_cleared : (b : ℕ) → b < 256 → bit_and b 0xF7 ≡ b / 16 * 16 + b % 8
unfolding agreeing
dup_cleared = agree_below 256 _ _ refl

retain_set : (b : ℕ) → b < 256 → bit_or b 0x01 ≡ b / 2 * 2 + 1
unfolding agreeing
retain_set = agree_below 256 _ _ refl

retain_cleared : (b : ℕ) → b < 256 → bit_and b 0xFE ≡ b / 2 * 2
unfolding agreeing
retain_cleared = agree_below 256 _ _ refl

abbrev pub bit : Bool → ℕ
bit true = 1
bit false = 0

pub type_into-arith :
    (t : PacketType) (b : ℕ) → b < 256 → type_into t b ≡ type_value t * 16 + b % 16
unfolding type_into agreeing
type_into-arith PacketType.reserved1 = agree_below 256 _ _ refl
type_into-arith PacketType.connect = agree_below 256 _ _ refl
type_into-arith _ = agree_below 256 _ _ refl

pub dup_into-arith : (d : Bool) (b : ℕ) → b < 256 → dup_into d b ≡ b / 16 * 16 + bit d * 8 + b % 8
unfolding dup_into
dup_into-arith d b h = ground (arith, dup_set b, dup_cleared b)

pub retain_into-arith : (r : Bool) (b : ℕ) → b < 256 → retain_into r b ≡ b / 2 * 2 + bit r
unfolding retain_into
retain_into-arith r b h = ground (arith, retain_set b, retain_cleared b)

abbrev pub qos_field : QoS → ℕ → ℕ
qos_field reserved b = b / 32 * 32 + 30 + b % 2
qos_field q b = b / 8 * 8 + qos_value q * 2 + b % 2

pub qos_into-arith : (q : QoS) (b : ℕ) → b < 256 → qos_into q b 1 ≡ qos_field q b
unfolding qos_into agreeing
qos_into-arith at_most_once = agree_below 256 _ _ refl
qos_into-arith at_least_once = agree_below 256 _ _ refl
qos_into-arith exactly_once = agree_below 256 _ _ refl
qos_into-arith reserved = agree_below 256 _ _ refl

-- The getters read the same fields.
pub type_of-type_value : (t : PacketType) (b : ℕ) → b < 256 → b / 16 ≡ type_value t → type_of b ≡ t
unfolding type_of
type_of-type_value t b h e = ground (arith, type_bits b)

pub dup_of-bit : (d : Bool) (b : ℕ) → b < 256 → b / 8 % 2 ≡ bit d → dup_of b ≡ d
unfolding dup_of
dup_of-bit d b h e = ground (arith, dup_bit b)

pub retain_of-bit : (r : Bool) (b : ℕ) → b < 256 → b % 2 ≡ bit r → retain_of b ≡ r
unfolding retain_of
retain_of-bit r b h e = ground (arith, retain_bit b)

pub qos_of-value : (q : QoS) (b : ℕ) → b < 256 → b / 2 % 4 ≡ qos_value q → qos_of b 1 ≡ q
unfolding qos_of
qos_of-value q b h e = ground (arith, two_bits (b / 2))
