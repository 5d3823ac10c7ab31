-- ===== src/Reader/Stream.antt =====
-- Reading a packet off a connection. asio::async_read appends what arrives to the buffer and asks
-- `frame_reader` after each read how many more bytes to wait for; it never reads more than that.
use wally_io.Prelude.{
  ℕ, ◌+◌, ◌-◌, ◌≤◌, ◌<◌, ◌≡◌, refl, ap, ◌∙◌, inl, inr, Bytes, ◌∷◌, ◌++◌, false, leb, ltb, ◌==◌,
  Bool-cases, length, take, drop, take-append, drop-append, length-append, if◌then◌else◌, some, ok,
  arith,
}
use wally_io.Reader.{FrameReader, read_on}
use wally_io.Reader.Buffer.{
  receive, frame_at, expect_fits, take-receive, length-receive, first_byte-take,
}
use wally_io.Reader.Lengths.{decode_remaining_length-IsEncoding}
use wally_io.Prelude.{true, ◌⊎◌, inl, inr, length-take-le, append_assoc, sym}
use wally_io.Protocol.{max_allowed_packet_length}
use wally_io.Wire.Lengths.{IsEncoding}

-- The states of one async_read on a connection that carries `wire`. The network chooses how many
-- bytes each read brings: one at least, and no more than were asked for. asio::buffer( read_buffer_ )
-- is the memory that the buffer has at the start, so nothing is written behind that.
pub data Reading (wire : Bytes) (start : FrameReader) : ℕ → FrameReader → Type 0 where
  begin : Reading wire start 0 start
  arrive :
      {n m : ℕ} {r r' : FrameReader} (count : ℕ)
      → Reading wire start n r
      → read_on false n r ≡ ok (m, r')
      → 1 ≤ count
      → count ≤ m
      → n + count ≤ length wire
      → n + count ≤ length start.buffer
      → Reading wire start
          (n + count)
          (record r' { buffer = receive n (take count (drop n wire)) r'.buffer })

module _ (tf rlen : ℕ) (lengths payload rest : Bytes) (start : FrameReader)
    (encoded : IsEncoding lengths rlen) (few : length lengths ≤ 4) (fits : length payload ≡ rlen)
    (small : rlen ≤ max_allowed_packet_length) where
  abbrev packet : Bytes
  packet = tf ∷ (lengths ++ payload)

  abbrev hlen : ℕ
  hlen = 1 + length lengths

  frame_at-packet :
      (buffer : Bytes)
      → take (hlen + rlen) buffer ≡ packet
      → frame_at hlen (hlen + rlen) buffer ≡ record { type_and_flags = tf; payload = payload }
  unfolding frame_at
  frame_at-packet buffer e = rw (
    e,
    first_byte-take (hlen + rlen) tf buffer (lengths ++ payload) (omega arith) e,
    drop-append hlen (tf ∷ lengths) payload (omega arith),
  )

  abbrev answer : ℕ → FrameReader → ℕ × FrameReader
  answer n r =
      if leb hlen n
      then (
        hlen + rlen - n,
        record r {
          frame =
              if hlen + rlen == n
              then some (record { type_and_flags = tf; payload = payload })
              else r.frame;
        },
      )
      else (1, r)

  -- With the last byte the frame is kept.
  kept :
      (n : ℕ) (r : FrameReader)
      → n ≤ hlen + rlen
      → take n r.buffer ≡ take n (packet ++ rest)
      → (if hlen + rlen == n then some (frame_at hlen (hlen + rlen) r.buffer) else r.frame) ≡ (
          if hlen + rlen == n
          then some (record { type_and_flags = tf; payload = payload })
          else r.frame)
  kept n r within e = elim (Bool-cases (hlen + rlen == n)) [
    | inl last ↦
        let size : hlen + rlen ≡ n = ground arith in
        let all_of_it : n ≡ length packet = omega (arith, length-append lengths payload) in
        let whole : take (hlen + rlen) r.buffer ≡ packet =
          rw size (e ∙ take-append n packet rest all_of_it) in
        rw (last, frame_at-packet r.buffer whole)
    | inr more ↦ rw more
  ]

  read_on-answer :
      (n : ℕ) (r : FrameReader)
      → n ≤ hlen + rlen
      → hlen + rlen ≤ length r.buffer
      → take n r.buffer ≡ take n (packet ++ rest)
      → read_on false n r ≡ ok (answer n r)
  unfolding read_on
  read_on-answer n r within room e =
      let sent : take n r.buffer ≡ take n (tf ∷ (lengths ++ (payload ++ rest))) =
        rw (← append_assoc lengths payload rest) e in
      let known =
        decode_remaining_length-IsEncoding tf n rlen r.buffer lengths (payload ++ rest) encoded few
          sent in
      let asserted : leb n (length r.buffer) ≡ true = ground arith in
      elim (Bool-cases (leb hlen n)) [
        | inl header ↦
            rw (asserted, known, header)
              (expect_fits n rlen hlen r (omega arith) room within
                ∙ ap (λ f. ok (hlen + rlen - n, record r { frame = f })) (kept n r within e))
        | inr partial ↦ rw (asserted, known, partial)
      ]

  pub record Inv (n : ℕ) (r : FrameReader) : Type 0 where
    pub within : n ≤ hlen + rlen
    pub received : take n r.buffer ≡ take n (packet ++ rest)
    pub size : length r.buffer ≡ length start.buffer
    pub waiting : r.frame ≡ start.frame

  -- While bytes are asked for, at most the missing ones are, and nothing has changed.
  answer_more :
      (n m : ℕ) (r r' : FrameReader)
      → ok (answer n r) ≡ ok (m, r')
      → 1 ≤ m
      → (m ≤ hlen + rlen - n) × (r'.buffer ≡ r.buffer) × (r'.frame ≡ r.frame)
  answer_more n m r r' e h = ground arith

  arrive-Inv :
      (n count : ℕ) (r r' : FrameReader)
      → Inv n r
      → count ≤ hlen + rlen - n
      → n + count ≤ length start.buffer
      → r'.buffer ≡ r.buffer
      → r'.frame ≡ r.frame
      → Inv
          (n + count)
          (record r' { buffer = receive n (take count (drop n (packet ++ rest))) r'.buffer })
  arrive-Inv n count r r' v most room same_buffer same_frame =
      let wire = packet ++ rest in
      let sent : n + count ≤ length wire =
        omega (arith, v, length-append (lengths ++ payload) rest, length-append lengths payload) in
      record {
        within = omega (arith, v);
        received =
            rw same_buffer (take-receive n count wire r.buffer v.received sent (omega (arith, v)));
        size = rw same_buffer (
            length-receive n (take count (drop n wire)) r.buffer
              (omega (arith, v, length-take-le count (drop n wire)))
            ∙ v.size);
        waiting = same_frame ∙ v.waiting;
      }

  Reading-Inv :
      {n : ℕ} {r : FrameReader}
      → hlen + rlen ≤ length start.buffer
      → Reading (packet ++ rest) start n r
      → Inv n r
  Reading-Inv room begin = record {
    within = omega arith;
    received = refl;
    size = refl;
    waiting = refl;
  }
  Reading-Inv room (arrive {n} {m} {r} {r'} count reading called one most sent fits) =
      let v = Reading-Inv room reading in
      let answered = read_on-answer n r v.within (omega (arith, v)) v.received in
      let (le, same_buffer, same_frame) =
        answer_more n m r r' (sym answered ∙ called) (omega arith) in
      arrive-Inv n count r r' v (omega arith) fits same_buffer same_frame

  -- The answer while bytes are missing, and when none is.
  answer_missing :
      (n : ℕ) (r : FrameReader)
      → n < hlen + rlen
      → (1 ≤ (answer n r).0) × (n + (answer n r).0 ≤ hlen + rlen) × ((answer n r).1.frame ≡ r.frame)
  answer_missing n r h = ground arith

  answer_complete :
      (n : ℕ) (r : FrameReader)
      → n ≡ hlen + rlen
      → ((answer n r).0 ≡ 0)
        × ((answer n r).1.frame ≡ some (record { type_and_flags = tf; payload = payload }))
  answer_complete n r h = ground arith

  -- A packet of a first byte, a remaining length of at most four bytes and so many bytes of
  -- payload, with any bytes behind it, and a buffer with room for the packet: nothing is read
  -- behind the packet, however it is cut into reads. As long as bytes are missing the reader asks
  -- for some of them, and none of the ones behind; when all are there it asks for none and has the
  -- frame.
  pub Reading_lem :
      {n : ℕ} {r : FrameReader}
      → length packet ≤ length start.buffer
      → Reading (packet ++ rest) start n r
      → (n ≤ length packet)
        × ((n < length packet)
              × ((m : ℕ) × (r' : FrameReader) × (read_on false n r ≡ ok (m, r'))
                  × (1 ≤ m)
                  × (n + m ≤ length packet)
                  × (r'.frame ≡ start.frame))
            ⊎ (n ≡ length packet)
              × ((r' : FrameReader) × (read_on false n r ≡ ok (0, r'))
                  × (r'.frame ≡ some (record { type_and_flags = tf; payload = payload }))))
  Reading_lem {n} {r} room reading =
      let size : length packet ≡ hlen + rlen = omega (arith, length-append lengths payload) in
      let v = Reading-Inv (omega arith) reading in
      let answered = read_on-answer n r v.within (omega (arith, v)) v.received in
      (
        omega (arith, v),
        elim (Bool-cases (ltb n (hlen + rlen))) [
          | inl missing ↦
              let lt : n < hlen + rlen = ground arith in
              let (one, most, frame) = answer_missing n r lt in
              inl (
                omega arith,
                ((answer n r).0, (answer n r).1, answered, one, omega arith, frame ∙ v.waiting),
              )
          | inr none_missing ↦
              let eq : n ≡ hlen + rlen = ground (arith, v.within) in
              let (zero_left, frame) = answer_complete n r eq in
              inr (omega arith, ((answer n r).1, rw (← zero_left) answered, frame))
        ],
      )
