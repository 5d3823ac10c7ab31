-- ===== src/Wire/Lengths.antt =====
-- What `encode_remaining_length` writes.
use wally_io.Prelude.{
  ℕ, zero, suc, ◌+◌, ◌/◌, ◌%◌, ◌^◌, ◌≤◌, ◌<◌, ◌≡◌, refl, ◌⊎◌, inl, inr, Bytes, [], ◌∷◌, ltb, length,
  Bool-cases, ok, err, malformed, length_not_encodable, arith,
}
use native.Mathlib.Nat.{pow-suc}
use wally_io.Prelude.Bits.{set_carry_bit}
use wally_io.Protocol.{max_allowed_packet_length, rem_length_bytes}
use wally_io.Wire.{encode_groups, encode_remaining_length}

-- The variable length scheme of MQTT 3.1.1, section 2.2.3: groups of seven bits, the lowest first,
-- the top bit set on all but the last, and no group too many.
abbrev pub IsEncoding : Bytes → ℕ → Type 0
IsEncoding [] n = ⊥
IsEncoding (b ∷ []) n = (b ≡ n) × (n < 128)
IsEncoding (b ∷ c ∷ bs) n = (b ≡ n % 128 + 128) × (0 < n / 128) × IsEncoding (c ∷ bs) (n / 128)

IsEncoding-cons :
    (b n : ℕ) (bs : Bytes)
    → b ≡ n % 128 + 128
    → 0 < n / 128
    → IsEncoding bs (n / 128)
    → IsEncoding (b ∷ bs) n
IsEncoding-cons b n [] e h t = absurd t
IsEncoding-cons b n (c ∷ bs) e h t = (e, h, t)

encode_groups_last : (f n : ℕ) → n < 128 → encode_groups (suc f) n ≡ ok (n ∷ [])
unfolding encode_groups
encode_groups_last f n h = ground arith

encode_groups_more :
    (f n : ℕ) (bs : Bytes)
    → 128 ≤ n
    → encode_groups f (n / 128) ≡ ok bs
    → encode_groups (suc f) n ≡ ok ((n % 128 + 128) ∷ bs)
unfolding encode_groups
encode_groups_more f n bs h e = ground (arith, set_carry_bit (n % 128))

encode_groups-IsEncoding :
    (f n : ℕ) → n < 128 ^ suc f → (bs : Bytes) × (encode_groups (suc f) n ≡ ok bs) × IsEncoding bs n
encode_groups-IsEncoding zero n h =
    (n ∷ [], encode_groups_last 0 n (omega arith), (refl, omega arith))
encode_groups-IsEncoding (suc f) n h = elim (Bool-cases (ltb n 128)) [
  | inl small ↦
      let lt : n < 128 = ground arith in (n ∷ [], encode_groups_last (suc f) n lt, (refl, lt))
  | inr large ↦
      let le : 128 ≤ n = ground arith in
      let pos : 0 < n / 128 = omega arith in
      let bound : n / 128 < 128 ^ suc f = omega (arith, pow-suc 128 (suc f)) in
      let (bs, e, w) = encode_groups-IsEncoding f (n / 128) bound in
      (
        (n % 128 + 128) ∷ bs,
        encode_groups_more (suc f) n bs le e,
        IsEncoding-cons _ n bs refl pos w,
      )
]

pub length-IsEncoding :
    (bs : Bytes) (n : ℕ)
    → IsEncoding bs n
    → n < 2 ^ 32
    → ((n ≤ max_allowed_packet_length) × (length bs ≡ rem_length_bytes n))
      ⊎ ((max_allowed_packet_length < n) × (length bs ≡ 5))
unfolding rem_length_bytes
length-IsEncoding [] n w h = absurd w
length-IsEncoding (a ∷ []) n w h = inl (omega arith, ground arith)
length-IsEncoding (a ∷ b ∷ []) n w h = inl (omega arith, ground arith)
length-IsEncoding (a ∷ b ∷ c ∷ []) n w h = inl (omega arith, ground arith)
length-IsEncoding (a ∷ b ∷ c ∷ d ∷ []) n w h = inl (omega arith, ground arith)
length-IsEncoding (a ∷ b ∷ c ∷ d ∷ e ∷ []) n w h = inr (omega arith, refl)
length-IsEncoding (a ∷ b ∷ c ∷ d ∷ e ∷ f ∷ []) n w h = absurd (omega arith)
length-IsEncoding (a ∷ b ∷ c ∷ d ∷ e ∷ f ∷ g ∷ bs) n w h = absurd (omega arith)

pub rem_length_bytes-le : (n : ℕ) → rem_length_bytes n ≤ 4
unfolding rem_length_bytes
rem_length_bytes-le n = ground arith

-- Of a uint32_t up to the maximum the encoding is written, in as many bytes as `total_length`
-- reckons with; a larger one is refused.
pub encode_remaining_length_lem :
    (n : ℕ)
    → n < 2 ^ 32
    → ((n ≤ max_allowed_packet_length)
        × ((bs : Bytes) × (encode_remaining_length n ≡ ok bs)
            × IsEncoding bs n
            × (length bs ≡ rem_length_bytes n)))
      ⊎ ((max_allowed_packet_length < n)
          × (encode_remaining_length n ≡ err (malformed length_not_encodable)))
unfolding encode_remaining_length
encode_remaining_length_lem n h =
    let (bs, e, w) = encode_groups-IsEncoding 4 n (omega arith) in
    elim (length-IsEncoding bs n w h) [
      | inl (le, len) ↦ inl (le, (bs, rw e (ground (arith, rem_length_bytes-le n)), w, len))
      | inr (lt, len) ↦ inr (lt, rw e (ground arith))
    ]
