-- ===== src/Wire/RoundTrip.antt =====
-- Reading back what the encoders wrote, with any bytes behind it, and what the decoders accept.
use wally_io.Prelude.{
  ℕ, ◌+◌, ◌*◌, ◌/◌, ◌%◌, ◌<◌, ◌≡◌, refl, sym, ap, ◌⊎◌, inl, inr, Bytes, [], ◌∷◌, ◌++◌, ltb, length,
  length-append, take-append-drop, length-take_le, take, drop, take-append, drop-append, Bool-cases,
  ok, err, malformed, string_truncated, arith,
}
use wally_io.Wire.{encode_uint16, decode_uint16, decode_utf8_string}

abbrev pub IsByte : ℕ → Type 0
IsByte b = b < 256

-- A uint16_t is read back, and the bytes behind it are left.
pub decode-encode_uint16 :
    (v : ℕ) (rest : Bytes) → decode_uint16 (encode_uint16 v ++ rest) ≡ ok (rest, v)
unfolding decode_uint16 encode_uint16
decode-encode_uint16 v rest = ground arith

pub decode_utf8_string-prefixed :
    (s rest : Bytes) → decode_utf8_string (encode_uint16 (length s) ++ (s ++ rest)) ≡ ok (rest, s)
unfolding decode_utf8_string decode_uint16 encode_uint16
decode_utf8_string-prefixed s rest =
    let value : length s / 256 * 256 + length s % 256 ≡ length s = omega arith in
    rw value (
      ground (
        arith,
        length-append s rest,
        take-append (length s) s rest refl,
        drop-append (length s) s rest refl,
      ))

-- What `decode_utf8_string` accepts: a length of two bytes and at least so many bytes behind it.
-- Anything shorter is refused as malformed; nothing is read past the end.
pub decode_utf8_string_cases :
    (bs : Bytes)
    → ((s rest : Bytes) × (decode_utf8_string bs ≡ ok (rest, s))
        × ((a b : ℕ) × (bs ≡ a ∷ b ∷ (s ++ rest)) × (length s ≡ a * 256 + b)))
      ⊎ (decode_utf8_string bs ≡ err (malformed string_truncated))
unfolding decode_utf8_string decode_uint16
decode_utf8_string_cases [] = inr refl
decode_utf8_string_cases (a ∷ []) = inr refl
decode_utf8_string_cases (a ∷ b ∷ bs) = elim (Bool-cases (ltb (length bs) (a * 256 + b))) [
  | inl short ↦ inr (ground arith)
  | inr fits ↦
      let n = a * 256 + b in
      inl (
        take n bs,
        drop n bs,
        ground arith,
        (
          a,
          b,
          ap (λ t. a ∷ b ∷ t) (sym (take-append-drop n bs)),
          length-take_le n bs (ground arith),
        ),
      )
]
