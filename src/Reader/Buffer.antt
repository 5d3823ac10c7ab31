-- ===== src/Reader/Buffer.antt =====
-- The buffer of `frame_reader` (codec/decoder.hpp) as asio::async_read fills it.
use wally_io.Prelude.{
  ℕ, zero, suc, ◌+◌, ◌-◌, ◌%◌, ◌^◌, ◌≤◌, ◌<◌, ◌≡◌, ◌∙◌, Bytes, [], ◌∷◌, ◌++◌, ◌==◌, length, take,
  drop, take-append, length-append, if◌then◌else◌, some, ok, arith,
}
use wally_io.Reader.{Frame, FrameReader, first_byte, expect}
use wally_io.Prelude.{append_assoc, length-take_le, length-drop, take-add, sym}

-- `count` bytes have arrived: they are at the front of the buffer. Whatever stood behind them is
-- overwritten by the next read.
abbrev pub receive : ℕ → Bytes → Bytes → Bytes
receive count chunk buffer = take count buffer ++ (chunk ++ drop (count + length chunk) buffer)

unfoldable pub frame_at : ℕ → ℕ → Bytes → Frame
unfolding first_byte
frame_at hlen len buffer = record {
  type_and_flags = first_byte buffer;
  payload = drop hlen (take len buffer);
}

-- With room for the packet nothing is expanded, and 64 bits are enough.
pub expect_fits :
    (n rlen hlen : ℕ) (r : FrameReader)
    → hlen + rlen < 2 ^ 64
    → hlen + rlen ≤ length r.buffer
    → n ≤ hlen + rlen
    → expect n r (rlen, hlen)
      ≡ ok (
        hlen + rlen - n,
        record r {
          frame = if hlen + rlen == n then some (frame_at hlen (hlen + rlen) r.buffer) else r.frame;
        },
      )
unfolding expect frame_at
expect_fits n rlen hlen r small room within =
    let len : (hlen + rlen) % 2 ^ 64 ≡ hlen + rlen = omega arith in
    let remaining : (hlen + rlen + 2 ^ 64 - n) % 2 ^ 64 ≡ hlen + rlen - n = omega arith in
    rw (len, remaining) (ground arith)

-- What has arrived is what was sent, and the buffer keeps its size.
pub take-receive :
    (n count : ℕ) (wire buffer : Bytes)
    → take n buffer ≡ take n wire
    → n + count ≤ length wire
    → n + count ≤ length buffer
    → take (n + count) (receive n (take count (drop n wire)) buffer) ≡ take (n + count) wire
take-receive n count wire buffer e h k =
    let front = take n wire in
    let chunk = take count (drop n wire) in
    let tail = drop (n + length chunk) buffer in
    let sizes : length chunk ≡ count =
      length-take_le count (drop n wire) (omega (arith, length-drop n wire)) in
    let whole : n + count ≡ length (front ++ chunk) =
      omega (arith, length-append front chunk, length-take_le n wire (omega arith)) in
    rw (e, ← append_assoc front chunk tail)
      (take-append (n + count) (front ++ chunk) tail whole ∙ sym (take-add n count wire))

pub length-receive :
    (n : ℕ) (chunk buffer : Bytes)
    → n + length chunk ≤ length buffer
    → length (receive n chunk buffer) ≡ length buffer
length-receive n chunk buffer h = omega (
  arith,
  length-append (take n buffer) (chunk ++ drop (n + length chunk) buffer),
  length-append chunk (drop (n + length chunk) buffer),
  length-drop (n + length chunk) buffer,
  length-take_le n buffer (omega arith),
)

pub first_byte-take :
    (n tf : ℕ) (buffer bs : Bytes) → 0 < n → take n buffer ≡ tf ∷ bs → first_byte buffer ≡ tf
unfolding first_byte
first_byte-take zero tf buffer bs h e = absurd (omega arith)
first_byte-take (suc n) tf [] bs h e = cc
first_byte-take (suc n) tf (b ∷ buffer) bs h e = cc
