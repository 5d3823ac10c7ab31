-- ===== src/Reader/Lengths.antt =====
-- `decode_remaining_length` on what `encode_remaining_length` wrote, and on any bytes.
use native.Mathlib.Nat.{div-add-mod, pow-suc, pow-le-pow_right}
use wally_io.Prelude.{
  ℕ, zero, suc, ◌+◌, ◌-◌, ◌*◌, ◌/◌, ◌%◌, ◌^◌, ◌≤◌, ◌<◌, ◌≡◌, ap, ◌∙◌, bit_and, Bytes, [], ◌∷◌, ◌++◌,
  ltb, leb, Bool-cases, inl, inr, length, take, drop, length-drop, length-take-le, All-take,
  All-drop, All, if◌then◌else◌, none, some, ok, arith,
}
use wally_io.Prelude.Bits.{low_seven_bits, carry_bit}
use wally_io.Protocol.{max_allowed_packet_length}
use wally_io.Reader.{decode_groups, decode_remaining_length}
use wally_io.Wire.Lengths.{IsEncoding}
use wally_io.Wire.RoundTrip.{IsByte}

decode_groups_last :
    (j n rlen : ℕ) (rest : Bytes)
    → j < 4
    → n < 128
    → decode_groups (suc j) rlen (n ∷ rest) ≡ ok (some (rlen + n * 128 ^ j, suc j + 1))
unfolding decode_groups
decode_groups_last j n rlen rest h k =
    let pred : suc j - 1 ≡ j = omega arith in
    let low : bit_and n 0x7F ≡ n = omega (arith, low_seven_bits n) in
    rw (pred, low) (ground (arith, carry_bit n))

decode_groups_more :
    (j n rlen : ℕ) (rest : Bytes)
    → j < 4
    → n < 128
    → decode_groups (suc j) rlen ((n + 128) ∷ rest)
      ≡ decode_groups (suc (suc j)) (rlen + n * 128 ^ j) rest
unfolding decode_groups
decode_groups_more j n rlen rest h k =
    let pred : suc j - 1 ≡ j = omega arith in
    let next : suc j + 1 ≡ suc (suc j) = omega arith in
    let low : bit_and (n + 128) 0x7F ≡ n = omega (arith, low_seven_bits (n + 128)) in
    rw (pred, next, low) (ground (arith, carry_bit (n + 128)))

-- The lowest group of `n` and the rest, both at weight 128 ^ j.
split_weight : (j n : ℕ) → n % 128 * 128 ^ j + n / 128 * 128 ^ suc j ≡ n * 128 ^ j
split_weight j n = omega (
  arith,
  ap (λ (t : ℕ). t * 128 ^ j) (div-add-mod n 128),
  ap (λ (t : ℕ). n / 128 * t) (pow-suc 128 j),
)

-- On the first `k` bytes of an encoding with anything behind it: the length and the place behind
-- the encoding if that is within the `k` bytes, and nothing yet if it is not.
pub decode_groups-IsEncoding :
    (bs : Bytes) (n j rlen k : ℕ) (tail : Bytes)
    → IsEncoding bs n
    → j + length bs ≤ 4
    → decode_groups (suc j) rlen (take k (bs ++ tail))
      ≡ ok (if leb (length bs) k then some (rlen + n * 128 ^ j, suc j + length bs) else none)
decode_groups-IsEncoding [] n j rlen k tail w h = absurd w
decode_groups-IsEncoding (b ∷ []) n j rlen zero tail w h = unfold decode_groups in ground arith
decode_groups-IsEncoding (b ∷ []) n j rlen (suc k) tail (e, w) h =
    rw e (decode_groups_last j n rlen (take k tail) (omega arith) w ∙ ground arith)
decode_groups-IsEncoding (b ∷ c ∷ bs) n j rlen zero tail w h = unfold decode_groups in ground arith
decode_groups-IsEncoding (b ∷ c ∷ bs) n j rlen (suc k) tail (e, _, w) h = rw e (
    decode_groups_more j (n % 128) rlen (take k ((c ∷ bs) ++ tail)) (omega arith) (omega arith)
    ∙ decode_groups-IsEncoding (c ∷ bs) (n / 128) (suc j) (rlen + n % 128 * 128 ^ j) k tail w
        (omega arith)
    ∙ ground (arith, split_weight j n))

-- On a buffer that agrees with the packet in the `n` bytes received so far.
pub decode_remaining_length-IsEncoding :
    (tf n rlen : ℕ) (buffer bs tail : Bytes)
    → IsEncoding bs rlen
    → length bs ≤ 4
    → take n buffer ≡ take n (tf ∷ (bs ++ tail))
    → decode_remaining_length n buffer
      ≡ ok (if leb (1 + length bs) n then some (rlen, 1 + length bs) else none)
unfolding decode_remaining_length
decode_remaining_length-IsEncoding tf zero rlen buffer bs tail w h e = ground arith
decode_remaining_length-IsEncoding tf (suc zero) rlen buffer [] tail w h e = absurd w
decode_remaining_length-IsEncoding tf (suc zero) rlen buffer (b ∷ bs) tail w h e = ground arith
decode_remaining_length-IsEncoding tf (suc (suc k)) rlen buffer bs tail w h e =
    rw e (ground (arith, decode_groups-IsEncoding bs rlen 0 0 (suc k) tail w (omega arith)))

group_fits : (j acc x : ℕ) → acc < 128 ^ j → x < 128 → acc + x * 128 ^ j < 128 ^ suc j
group_fits j acc x h k =
    let most : x * 128 ^ j ≤ 127 * 128 ^ j = grind arith in omega (arith, pow-suc 128 j)

decode_groups_bound :
    (bytes : Bytes) (j acc r hlen : ℕ)
    → All IsByte bytes
    → acc < 128 ^ j
    → decode_groups (suc j) acc bytes ≡ ok (some (r, hlen))
    → (r < 128 ^ 4) × (suc j < hlen) × (hlen ≤ 5) × (hlen ≤ suc j + length bytes)
unfolding decode_groups
decode_groups_bound [] j acc r hlen w h e = cc
decode_groups_bound (b ∷ bs) j acc r hlen (w, ws) h e = elim (Bool-cases (ltb 4 (suc j))) [
  | inl over ↦ cc (rw over at e)
  | inr within ↦
      let le : suc j ≤ 4 = ground arith in
      let acc' = acc + bit_and b 0x7F * 128 ^ j in
      let fits : acc' < 128 ^ suc j = group_fits j acc _ h (omega (arith, low_seven_bits b w)) in
      ground (
        arith,
        pow-le-pow_right {n = 128} (omega arith) le,
        decode_groups_bound bs (suc j) acc' r hlen ws fits,
      )
]

-- A remaining length that is read off a buffer of bytes is at most the maximum, its header takes 2
-- to 5 bytes, and these have been received.
pub decode_remaining_length_bound :
    (n : ℕ) (buffer : Bytes) (rlen hlen : ℕ)
    → All IsByte buffer
    → decode_remaining_length n buffer ≡ ok (some (rlen, hlen))
    → (rlen ≤ max_allowed_packet_length) × (2 ≤ hlen) × (hlen ≤ 5) × (hlen ≤ n)
unfolding decode_remaining_length
decode_remaining_length_bound n buffer rlen hlen w e = elim (Bool-cases (ltb n 2)) [
  | inl short ↦ cc (rw short at e)
  | inr enough ↦
      let bytes = drop 1 (take n buffer) in
      ground (
        arith,
        length-drop 1 (take n buffer),
        length-take-le n buffer,
        decode_groups_bound bytes 0 0 rlen hlen (All-drop IsByte 1 _ (All-take IsByte n buffer w))
            (omega arith),
      )
]
