-- ===== src/Protocol/Header.antt =====
-- The setters and getters of a fixed header's first byte (protocol/common.hpp) fit together.
use wally_io.Prelude.{ℕ, ◌+◌, ◌*◌, ◌/◌, ◌%◌, ◌<◌, bit_and, ◌≡◌, ◌≢◌, refl, Bool, arith}
use wally_io.Protocol.{type_value}
use wally_io.Protocol.{
  QoS, reserved, qos_value, qos_of, qos_into, PacketType, type_of, type_into, dup_of, dup_into,
  retain_of, retain_into,
}
use wally_io.Protocol.Fields.{
  type_bits, dup_bit, retain_bit, two_bits, bit, type_into-arith, dup_into-arith, retain_into-arith,
  qos_into-arith, type_of-type_value, dup_of-bit, retain_of-bit, qos_of-value,
}

type_value-lt : (t : PacketType) → type_value t < 16
type_value-lt t = ground arith

abbrev pub set_fields : PacketType → Bool → QoS → Bool → ℕ → ℕ
set_fields t dup q retain b = retain_into retain (qos_into q (dup_into dup (type_into t b)) 1)

abbrev packed : PacketType → Bool → QoS → Bool → ℕ
packed t dup q retain = type_value t * 16 + bit dup * 8 + qos_value q * 2 + bit retain

pub set_fields-arith :
    (t : PacketType) (dup : Bool) (q : QoS) (retain : Bool) (b : ℕ)
    → q ≢ reserved
    → b < 256
    → set_fields t dup q retain b ≡ packed t dup q retain
set_fields-arith t dup reserved retain b n h = absurd (n refl)
set_fields-arith t dup q retain b n h =
    let t' = type_into t b in
    let d' = dup_into dup t' in
    let q' = qos_into q d' 1 in
    ground (
      arith,
      type_value-lt t,
      type_into-arith t b h,
      dup_into-arith dup t',
      qos_into-arith q d',
      retain_into-arith retain q',
    )

packed_fields :
    (t : PacketType) (dup : Bool) (q : QoS) (retain : Bool)
    → let b = packed t dup q retain in
      q ≢ reserved
      → (b < 256)
        × (b / 16 ≡ type_value t)
        × (b / 8 % 2 ≡ bit dup)
        × (b / 2 % 4 ≡ qos_value q)
        × (b % 2 ≡ bit retain)
packed_fields t dup q retain n = ground (arith, type_value-lt t)

-- Whatever byte the four setters start from, if the QoS is not reserved each getter then returns
-- what its setter was given.
pub set_fields-get :
    (t : PacketType) (dup : Bool) (q : QoS) (retain : Bool) (b : ℕ)
    → q ≢ reserved
    → b < 256
    → let b' = set_fields t dup q retain b in
      (b' < 256)
      × (type_of b' ≡ t)
      × (dup_of b' ≡ dup)
      × (qos_of b' 1 ≡ q)
      × (retain_of b' ≡ retain)
set_fields-get t dup q retain b n h =
    let (lt, ft, fd, fq, fr) = packed_fields t dup q retain n in
    rw (set_fields-arith t dup q retain b n h) (
      lt,
      type_of-type_value t _ lt ft,
      dup_of-bit dup _ lt fd,
      qos_of-value q _ lt fq,
      retain_of-bit retain _ lt fr,
    )

type_of_same : (b c : ℕ) → b < 256 → c < 256 → b / 16 ≡ c / 16 → type_of b ≡ type_of c
unfolding type_of
type_of_same b c h k e =
    let same : bit_and b 0xF0 ≡ bit_and c 0xF0 = omega (arith, type_bits b h, type_bits c k) in
    rw same

dup_of_same : (b c : ℕ) → b < 256 → c < 256 → b / 8 % 2 ≡ c / 8 % 2 → dup_of b ≡ dup_of c
unfolding dup_of
dup_of_same b c h k e = ground (arith, dup_bit b, dup_bit c)

retain_of_same : (b c : ℕ) → b < 256 → c < 256 → b % 2 ≡ c % 2 → retain_of b ≡ retain_of c
unfolding retain_of
retain_of_same b c h k e = ground (arith, retain_bit b, retain_bit c)

qos_of_same : (b c : ℕ) → b < 256 → c < 256 → b / 2 % 4 ≡ c / 2 % 4 → qos_of b 1 ≡ qos_of c 1
unfolding qos_of
qos_of_same b c h k e =
    let same : bit_and (b / 2) 3 ≡ bit_and (c / 2) 3 =
      omega (arith, two_bits (b / 2), two_bits (c / 2)) in
    rw same

pub dup_into_fields :
    (dup : Bool) (b : ℕ)
    → b < 256
    → let b' = dup_into dup b in
      (b' < 256) × (b' / 16 ≡ b / 16) × (b' / 2 % 4 ≡ b / 2 % 4) × (b' % 2 ≡ b % 2)
dup_into_fields dup b h = ground (arith, dup_into-arith dup b)

retain_into_fields :
    (retain : Bool) (b : ℕ)
    → b < 256
    → let b' = retain_into retain b in
      (b' < 256) × (b' / 16 ≡ b / 16) × (b' / 8 % 2 ≡ b / 8 % 2) × (b' / 2 % 4 ≡ b / 2 % 4)
retain_into_fields retain b h = ground (arith, retain_into-arith retain b)

pub qos_into_fields :
    (q : QoS) (b : ℕ)
    → q ≢ reserved
    → b < 256
    → let b' = qos_into q b 1 in
      (b' < 256) × (b' / 16 ≡ b / 16) × (b' / 8 % 2 ≡ b / 8 % 2) × (b' % 2 ≡ b % 2)
qos_into_fields q b n h = ground (arith, qos_into-arith q b)

-- A setter leaves the other fields of a byte alone: DUP and RETAIN always, and the QoS if it is
-- set to an unreserved value.
pub setters_independent :
    (b : ℕ) (dup retain : Bool) (q : QoS)
    → b < 256
    → q ≢ reserved
    → (type_of (dup_into dup b) ≡ type_of b)
      × (qos_of (dup_into dup b) 1 ≡ qos_of b 1)
      × (retain_of (dup_into dup b) ≡ retain_of b)
      × (type_of (retain_into retain b) ≡ type_of b)
      × (qos_of (retain_into retain b) 1 ≡ qos_of b 1)
      × (dup_of (retain_into retain b) ≡ dup_of b)
      × (type_of (qos_into q b 1) ≡ type_of b)
      × (dup_of (qos_into q b 1) ≡ dup_of b)
      × (retain_of (qos_into q b 1) ≡ retain_of b)
setters_independent b dup retain q h n =
    let (d, dh, dl, ds) = dup_into_fields dup b h in
    let (r, rt, rd, rq) = retain_into_fields retain b h in
    let (s, st, sd, sr) = qos_into_fields q b n h in
    (
      type_of_same _ b d h dh,
      qos_of_same _ b d h dl,
      retain_of_same _ b d h ds,
      type_of_same _ b r h rt,
      qos_of_same _ b r h rq,
      dup_of_same _ b r h rd,
      type_of_same _ b s h st,
      dup_of_same _ b s h sd,
      retain_of_same _ b s h sr,
    )
