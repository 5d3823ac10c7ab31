-- ===== src/Reader.antt =====
-- source/server/io_wally/codec/decoder.hpp: `frame` and `frame_reader`, the completion condition
-- of asio::async_read. It is asked after each read how many more bytes to wait for, and keeps the
-- frame when the last one is there.
mod Buffer
pub mod Lengths
pub mod Stream
use wally_io.Prelude.{
  ℕ, suc, ◌+◌, ◌-◌, ◌*◌, ◌%◌, ◌^◌, bit_and, Bytes, [], ◌∷◌, ◌++◌, Bool, ltb, leb, ◌==◌, length,
  take, drop, replicate, if◌then◌else◌, Option, none, some, Result, ok, err, ◌>>=◌, ◌>>◌, assert,
  malformed, remaining_length_exceeds,
}
use wally_io.Protocol.{PacketType, type_of}

-- The iterators `begin` and `end` are the bytes between them.
pub record Frame : Type 0 where
  pub type_and_flags : ℕ
  pub payload : Bytes

pub record FrameReader : Type 0 where
  pub buffer : Bytes
  pub frame : Option Frame

-- The loop of `decode_remaining_length`, on the bytes `buffer_[i]` up to `bytes_transferred`.
unfoldable pub decode_groups : ℕ → ℕ → Bytes → Result (Option (ℕ × ℕ))
decode_groups i rlen [] = ok none
decode_groups i rlen (current_byte ∷ rest) =
    let multiplier = 128 ^ (i - 1) in
    let rlen' = rlen + bit_and current_byte 0x7F * multiplier in
    let next = decode_groups (i + 1) rlen' rest in
    if ltb 4 i
    then err (malformed remaining_length_exceeds)
    else if bit_and current_byte 0x80 == 0
    then ok (some (rlen', i + 1))
    else next

unfoldable pub decode_remaining_length : ℕ → Bytes → Result (Option (ℕ × ℕ))
decode_remaining_length bytes_transferred buffer =
    if ltb bytes_transferred 2
    then ok none
    else decode_groups 1 0 (drop 1 (take bytes_transferred buffer))

-- `buffer_.insert( end, len - size, 0x00 )`
unfoldable pub expand : ℕ → Bytes → Bytes
expand len buffer =
    if ltb (length buffer) len then buffer ++ replicate (len - length buffer) 0x00 else buffer

-- `buffer_[0]`, of a buffer that holds two bytes at least.
unfoldable pub first_byte : Bytes → ℕ
first_byte [] = 0
first_byte (b ∷ bs) = b

-- What follows once the lengths of the rest and of the header are known. Sizes are 64 bits wide.
unfoldable pub expect : ℕ → FrameReader → ℕ × ℕ → Result (ℕ × FrameReader)
unfolding expand first_byte
expect bytes_transferred r (rlen, hlen) =
    let len = (hlen + rlen) % 2 ^ 64 in
    let remaining = (len + 2 ^ 64 - bytes_transferred) % 2 ^ 64 in
    let buffer = expand len r.buffer in
    let frame : Frame = record {
      type_and_flags = first_byte buffer;
      payload = drop hlen (take len buffer);
    } in
    assert (leb len (length buffer))
    >> ok (
      remaining,
      record { buffer = buffer; frame = if remaining == 0 then some frame else r.frame },
    )

-- `operator( )( error, bytes_transferred )`
unfoldable pub read_on : Bool → ℕ → FrameReader → Result (ℕ × FrameReader)
read_on error bytes_transferred r = do
  assert (leb bytes_transferred (length r.buffer))
  if error
      then ok (0, r)
      else (decode_remaining_length bytes_transferred r.buffer >>= λ rlen_hlen. elim rlen_hlen [
        | none ↦ ok (1, r)
        | some lengths ↦ expect bytes_transferred r lengths
      ])

unfoldable pub reset : FrameReader → FrameReader
reset r = record r { frame = none }
