-- ===== src/Tx/Table/Identifiers.antt =====
-- The packet identifiers of a table (`next_packet_identifier` of
-- dispatch/tx_in_flight_publications.cpp).
use wally_io.Prelude.{
  ℕ, zero, suc, ◌+◌, ◌%◌, ◌^◌, ◌<◌, ◌≡◌, inl, inr, ◌∷◌, false, ◌==◌, none, find_key, arith,
}
use wally_io.Tx.Table.{TxEntry, TxInFlight, next_packet_identifier}
use wally_io.Tx.Table.Deliveries.{HasRoom, IsGrown}

-- The identifiers that a table gives out, one behind the other.
abbrev pub identifier_after : ℕ → ℕ → ℕ
identifier_after zero id = id
identifier_after (suc n) id = identifier_after n (next_packet_identifier id)

-- Behind `n` steps the packet identifier is the sum modulo 2 ^ 16: every identifier comes once in
-- 65536 steps, and 0 is one of them.
pub identifier_after_lem : (n id : ℕ) → id < 2 ^ 16 → identifier_after n id ≡ (id + n) % 2 ^ 16
unfolding next_packet_identifier
identifier_after_lem zero id h = omega arith
identifier_after_lem (suc n) id h =
    let id' = next_packet_identifier id in
    let step : id' ≡ (id + 1) % 2 ^ 16 = ground arith in
    let rest = identifier_after_lem n id' (omega (arith, step)) in omega (arith, step, rest)

-- The next `n` packet identifiers are free.
abbrev pub AreFree : ℕ → TxInFlight → Type 0
AreFree zero table = Unit {0}
AreFree (suc n) table =
    (find_key (identifier_after (suc n) table.packet_identifier) table.publications ≡ none)
    × AreFree n table

pub record HasRoomFor (n : ℕ) (table : TxInFlight) : Type 0 where
  pub small : table.packet_identifier < 2 ^ 16
  pub few : n < 2 ^ 16
  pub free : AreFree n table

pub HasRoomFor-HasRoom : (n : ℕ) (table : TxInFlight) → AreFree (suc n) table → HasRoom table
HasRoomFor-HasRoom zero table (h, hs) = h
HasRoomFor-HasRoom (suc n) table (h, hs) = HasRoomFor-HasRoom n table hs

AreFree-shift :
    (n : ℕ) (entry : TxEntry) (table : TxInFlight)
    → table.packet_identifier < 2 ^ 16
    → n < 2 ^ 16
    → AreFree (suc n) table
    → AreFree n (record {
      publications = (next_packet_identifier table.packet_identifier, entry) ∷ table.publications;
      packet_identifier = next_packet_identifier table.packet_identifier;
    })
AreFree-shift zero entry table small few h = tt
AreFree-shift (suc n) entry table small few (h, hs) =
    let id = table.packet_identifier in
    let first = identifier_after_lem 1 id small in
    let later = identifier_after_lem (suc (suc n)) id small in
    let differs : (next_packet_identifier id == identifier_after (suc (suc n)) id) ≡ false =
      ground (arith, first, later) in
    (rw differs h, AreFree-shift n entry table small (omega arith) hs)

AreFree-fewer : (n : ℕ) (table : TxInFlight) → AreFree (suc n) table → AreFree n table
AreFree-fewer n table (h, hs) = hs

pub HasRoomFor-IsGrown :
    (n : ℕ) (table table' : TxInFlight)
    → IsGrown table table'
    → HasRoomFor (suc n) table
    → HasRoomFor n table'
HasRoomFor-IsGrown n table table' (inl e) room = rw e (record {
  small = room.small;
  few = omega (arith, room.few);
  free = AreFree-fewer n table room.free;
})
HasRoomFor-IsGrown n table table' (inr (entry, e)) room =
    let next = identifier_after_lem 1 table.packet_identifier room.small in
    rw e (record {
      small = omega (arith, next);
      few = omega (arith, room.few);
      free = AreFree-shift n entry table room.small (omega (arith, room.few)) room.free;
    })
