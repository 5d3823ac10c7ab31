-- ===== src/Tx/Table.antt =====
-- `tx_in_flight_publications` of dispatch/tx_in_flight_publications.cpp: the publications on their
-- way to one client. `connected` is whether the weak pointer to the sender can be locked.
pub mod Entries
pub mod Responses
pub mod Deliveries
pub mod Identifiers
use wally_io.Prelude.{
  ℕ, ◌+◌, List, [], ◌∷◌, Bool, true, false, ◌||◌, ltb, ◌==◌, if◌then◌else◌, Option, none, some,
  Result, ok, err, ◌>>=◌, ◌>>◌, assert, assertion_failed, find_key, assign, erase_key,
}
use wally_io.Protocol.{
  QoS, at_most_once, at_least_once, exactly_once, reserved, PacketType, same_type,
}
use wally_io.Packet.{Publish, PublishAck, MqttPacket}
use wally_io.Packet.PublishPacket.{set_qos, with_new_packet_identifier}
use wally_io.Tx.{Effect, send, stop, Qos1TxPublication, Qos2TxPublication, ack_type}
use wally_io.Tx.Log.{releases}
use wally_io.Tx.Qos1
use wally_io.Tx.Qos2

-- The subclasses of `tx_publication`.
pub data TxEntry : Type 0 where
  qos1 : Qos1TxPublication → TxEntry
  qos2 : Qos2TxPublication → TxEntry

pub record TxInFlight : Type 0 where
  pub publications : List (ℕ × TxEntry)
  pub packet_identifier : ℕ

-- `tx_publication::packet_identifier`
abbrev pub entry_identifier : TxEntry → ℕ
entry_identifier (qos1 t) = t.publish.packet_identifier
entry_identifier (qos2 t) = t.publish.packet_identifier

-- The virtual functions `start` and `response_received`, and the handlers of the timers.
unfoldable pub entry_start : TxEntry → TxEntry × List Effect
unfolding Qos1.start Qos2.start
entry_start (qos1 t) = let (t', effects) = Qos1.start t in (qos1 t', effects)
entry_start (qos2 t) = let (t', effects) = Qos2.start t in (qos2 t', effects)

unfoldable pub entry_response_received : PublishAck → TxEntry → Result (TxEntry × List Effect)
unfolding Qos1.response_received Qos2.response_received
entry_response_received ack (qos1 t) = Qos1.response_received ack t >>= λ r. ok (qos1 r.0, r.1)
entry_response_received ack (qos2 t) = Qos2.response_received ack t >>= λ r. ok (qos2 r.0, r.1)

unfoldable pub entry_timeout_expired : ℕ → TxEntry → Result (TxEntry × List Effect)
unfolding Qos1.ack_timeout_expired Qos2.ack_timeout_expired
entry_timeout_expired max_retries (qos1 t) =
    Qos1.ack_timeout_expired max_retries t >>= λ r. ok (qos1 r.0, r.1)
entry_timeout_expired max_retries (qos2 t) =
    Qos2.ack_timeout_expired max_retries t >>= λ r. ok (qos2 r.0, r.1)

abbrev pub max_packet_identifier : ℕ
max_packet_identifier = 0xFFFF

unfoldable pub next_packet_identifier : ℕ → ℕ
next_packet_identifier id = if id == max_packet_identifier then 0 else id + 1

-- `publications_.emplace`, and the assertion behind it.
unfoldable pub insert_entry : ℕ → TxEntry → List (ℕ × TxEntry) → Result (List (ℕ × TxEntry))
insert_entry id entry publications = elim (find_key id publications) [
  | none ↦ ok ((id, entry) ∷ publications)
  | some old ↦ err assertion_failed
]

-- `tx_in_flight_publications::release`
unfoldable pub release_entry : ℕ → List (ℕ × TxEntry) → Result (List (ℕ × TxEntry))
release_entry id publications = elim (find_key id publications) [
  | none ↦ err assertion_failed
  | some entry ↦ ok (erase_key id publications)
]

-- The entry under a key has changed. It may have called `release`.
unfoldable pub update_entry :
    ℕ → TxInFlight → TxEntry × List Effect → Result (TxInFlight × List Effect)
unfolding release_entry
update_entry id table (entry, effects) =
    let publications = assign id entry table.publications in
    if ltb 0 (releases effects)
    then (release_entry (entry_identifier entry) publications >>= λ rest.
        ok (record table { publications = rest }, effects))
    else ok (record table { publications = publications }, effects)

-- The results are the table, the PUBLISH that was given, which is shared and may have changed, and
-- the effects.
abbrev pub Published : Type 0
Published = TxInFlight × Publish × List Effect

unfoldable pub publish_using_qos0 : Publish → TxInFlight → Result Published
publish_using_qos0 incoming_publish table = set_qos at_most_once incoming_publish >>= λ publish.
    ok (table, publish, send (MqttPacket.publish publish) ∷ [])

-- What `publish_using_qos1` and `publish_using_qos2` share: `make` is the constructor of the
-- publication.
unfoldable pub publish_entry : (Publish → Result TxEntry) → Publish → TxInFlight → Result Published
unfolding next_packet_identifier insert_entry entry_start
publish_entry make incoming_publish table = do
  let id = next_packet_identifier table.packet_identifier
  entry ← make (with_new_packet_identifier id incoming_publish)
  let (started, effects) = entry_start entry
  publications ← insert_entry id started table.publications
  ok (record { publications = publications; packet_identifier = id }, incoming_publish, effects)

abbrev pub make_entry1 : Publish → Result TxEntry
make_entry1 outgoing_publish = Qos1.make outgoing_publish >>= λ t. ok (qos1 t)

abbrev pub make_entry2 : Publish → Result TxEntry
make_entry2 outgoing_publish = Qos2.make outgoing_publish >>= λ t. ok (qos2 t)

unfoldable pub publish_using_qos1 : Publish → TxInFlight → Result Published
unfolding publish_entry Qos1.make
publish_using_qos1 = publish_entry make_entry1

unfoldable pub publish_using_qos2 : Publish → TxInFlight → Result Published
unfolding publish_entry Qos2.make
publish_using_qos2 = publish_entry make_entry2

unfoldable pub publish : Bool → Publish → QoS → TxInFlight → Result Published
unfolding publish_using_qos0 publish_using_qos1 publish_using_qos2
publish false incoming_publish maximum_qos table = ok (table, incoming_publish, [])
publish true incoming_publish at_most_once table = publish_using_qos0 incoming_publish table
publish true incoming_publish at_least_once table = publish_using_qos1 incoming_publish table
publish true incoming_publish exactly_once table = publish_using_qos2 incoming_publish table
publish true incoming_publish reserved table = ok (table, incoming_publish, [])

unfoldable pub response_received :
    Bool → PublishAck → TxInFlight → Result (TxInFlight × List Effect)
unfolding entry_response_received update_entry
response_received connected ack table =
    let id = ack.packet_identifier in
    assert (
      same_type (ack_type ack) PacketType.puback
      || (same_type (ack_type ack) PacketType.pubrec
          || same_type (ack_type ack) PacketType.pubcomp))
    >> (if connected
        then elim (find_key id table.publications) [
          | some entry ↦ (entry_response_received ack entry >>= update_entry id table)
          | none ↦ ok (table, stop ∷ [])
        ]
        else ok (table, []))

-- The timer of the publication `id` has expired. If it is no more, nothing is done.
unfoldable pub timeout_expired : ℕ → ℕ → TxInFlight → Result (TxInFlight × List Effect)
unfolding entry_timeout_expired update_entry
timeout_expired max_retries id table = elim (find_key id table.publications) [
  | none ↦ ok (table, [])
  | some entry ↦ (entry_timeout_expired max_retries entry >>= update_entry id table)
]
