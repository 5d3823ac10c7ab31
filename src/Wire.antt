-- ===== src/Wire.antt =====
-- source/server/io_wally/codec/encoder.hpp and the free functions of codec/decoder.hpp: the
-- encodings of lengths, 16 bit integers, strings and QoS. An output iterator is the list of the
-- bytes written through it; an input iterator with its end is the list of the bytes between them.
pub mod Lengths
pub mod RoundTrip
use wally_io.Prelude.{
  ℕ, zero, suc, ◌+◌, ◌*◌, ◌/◌, ◌%◌, bit_or, Bytes, List, [], ◌∷◌, ◌++◌, ltb, length, take, drop,
  if◌then◌else◌, Result, ok, err, ◌>>=◌, ◌>>◌, throw_if, malformed, out_of_fuel,
  length_not_encodable, string_too_long, uint16_truncated, qos_truncated, string_truncated,
}
use wally_io.Protocol.{QoS, qos_of}

-- The do-while loop; `rest | 0x80` marks a byte that another follows.
unfoldable pub encode_groups : ℕ → ℕ → Result Bytes
encode_groups zero remaining_length = err out_of_fuel
encode_groups (suc fuel) remaining_length =
    let rest = remaining_length % 0x80 in
    let remaining_length' = remaining_length / 0x80 in
    let following = encode_groups fuel remaining_length' in
    if ltb 0 remaining_length'
    then (following >>= λ bytes. ok (bit_or rest 0x80 ∷ bytes))
    else ok (rest ∷ [])

-- Five rounds are enough for a uint32_t. What was written before the exception is lost with it.
unfoldable pub encode_remaining_length : ℕ → Result Bytes
encode_remaining_length remaining_length = do
  bytes ← encode_groups 5 remaining_length
  throw_if (ltb 4 (length bytes)) length_not_encodable
  ok bytes

unfoldable pub encode_uint16 : ℕ → Bytes
encode_uint16 value = (value / 0x0100) ∷ (value % 0x0100) ∷ []

abbrev pub max_string_length : ℕ
max_string_length = 0x00FF * 0x0100 + 0xFF

unfoldable pub encode_utf8_string : Bytes → Result Bytes
unfolding encode_uint16
encode_utf8_string value = do
  throw_if (ltb max_string_length (length value)) string_too_long
  ok (encode_uint16 (length value) ++ value)

unfoldable pub encode_fixed_header : ℕ → ℕ → Result Bytes
encode_fixed_header type_and_flags remaining_length = do
  bytes ← encode_remaining_length remaining_length
  ok (type_and_flags ∷ bytes)

-- `( msb << 8 ) + lsb`, with the bytes that follow.
unfoldable pub decode_uint16 : Bytes → Result (Bytes × ℕ)
decode_uint16 (msb ∷ lsb ∷ rest) = ok (rest, msb * 256 + lsb)
decode_uint16 _ = err (malformed uint16_truncated)

unfoldable pub decode_qos : Bytes → Result (Bytes × QoS)
decode_qos [] = err (malformed qos_truncated)
decode_qos (byte ∷ rest) = ok (rest, qos_of byte 0)

unfoldable pub decode_utf8_string : Bytes → Result (Bytes × Bytes)
unfolding decode_uint16
decode_utf8_string bytes = do
  throw_if (ltb (length bytes) 2) string_truncated
  (string_start, string_length) ← decode_uint16 bytes
  throw_if (ltb (length string_start) string_length) string_truncated
  ok (drop string_length string_start, take string_length string_start)
