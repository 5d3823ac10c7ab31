-- ===== src/Tx/Table/Deliveries.antt =====
-- A PUBLISH handed to the table of a client (`publish` of dispatch/tx_in_flight_publications.cpp).
use wally_io.Prelude.{
  ℕ, ◌≡◌, ◌≢◌, refl, ◌∙◌, ◌⊎◌, inl, inr, List, [], ◌∷◌, ◌++◌, true, none, Result, ok, find_key,
}
use wally_io.Protocol.{QoS, at_most_once, at_least_once, exactly_once, reserved}
use wally_io.Protocol.Header.{setters_independent}
use wally_io.Packet.{Publish, MqttPacket}
use wally_io.Packet.PublishPacket.{dup, retain, qos, set_qos, with_new_packet_identifier}
use wally_io.Encoder.Publications.{
  IsRelayable, requalified, set_qos-requalified, qos-requalified, requalified-IsRelayable,
}
use wally_io.Tx.{Qos1State, Qos2State, Effect, send, start_timer, waiting_for_ack, waiting_for_rec}
use wally_io.Tx.Qos1
use wally_io.Tx.Qos2
use wally_io.Tx.Table.{
  TxEntry, qos1, qos2, TxInFlight, Published, entry_start, next_packet_identifier, insert_entry,
  make_entry1, make_entry2, publish_using_qos0, publish_entry, publish_using_qos1,
  publish_using_qos2, publish,
}
use wally_io.Tx.Table.Responses.{IsValid}

abbrev pub publish_of : Effect → List Publish
publish_of (send (MqttPacket.publish p)) = p ∷ []
publish_of _ = []

-- The PUBLISH packets that are sent, in order.
abbrev pub sent : List Effect → List Publish
sent [] = []
sent (e ∷ effects) = publish_of e ++ sent effects

-- What the copies of a PUBLISH have in common.
pub record IsCopy (p p' : Publish) : Type 0 where
  pub topic : p'.topic ≡ p.topic
  pub message : p'.application_message ≡ p.application_message
  pub dup : dup p' ≡ dup p
  pub retain : retain p' ≡ retain p

pub IsCopy-refl : (p : Publish) → IsCopy p p
IsCopy-refl p = record { topic = refl; message = refl; dup = refl; retain = refl }

pub IsCopy-trans : (a b c : Publish) → IsCopy a b → IsCopy b c → IsCopy a c
IsCopy-trans a b c h k = record {
  topic = k.topic ∙ h.topic;
  message = k.message ∙ h.message;
  dup = k.dup ∙ h.dup;
  retain = k.retain ∙ h.retain;
}

-- The table's next packet identifier is not in flight.
abbrev pub HasRoom : TxInFlight → Type 0
HasRoom table = find_key (next_packet_identifier table.packet_identifier) table.publications ≡ none

requalified-IsCopy :
    (p : Publish) (q : QoS) (id : ℕ) → IsRelayable p → q ≢ reserved → IsCopy p (requalified q id p)
unfolding dup retain
requalified-IsCopy p q id r m =
    let (_, _, _, _, _, _, _, same_dup, same_retain) =
      setters_independent p.header.type_and_flags true true q r.byte m in
    record { topic = refl; message = refl; dup = same_dup; retain = same_retain }

-- The table has at most one entry more, under its next packet identifier.
abbrev pub IsGrown : TxInFlight → TxInFlight → Type 0
IsGrown table table' =
    (table' ≡ table)
    ⊎ ((entry : TxEntry) × (table' ≡ record {
      publications = (next_packet_identifier table.packet_identifier, entry) ∷ table.publications;
      packet_identifier = next_packet_identifier table.packet_identifier;
    }))

-- What a client's table has become by a PUBLISH that it sent.
pub record IsDelivery (table : TxInFlight) (p : Publish) (q : QoS) (next : Published) : Type 0 where
  pub valid : IsValid next.0
  pub grown : IsGrown table next.0
  pub relayable : IsRelayable next.1
  pub shared : IsCopy p next.1
  pub packet : Publish
  pub is_sent : sent next.2 ≡ packet ∷ []
  pub has_qos : qos packet ≡ q
  pub is_copy : IsCopy p packet

publish_entry-ok :
    (make : Publish → Result TxEntry) (p : Publish) (table : TxInFlight) (entry : TxEntry)
    → make (with_new_packet_identifier (next_packet_identifier table.packet_identifier) p)
      ≡ ok entry
    → HasRoom table
    → publish_entry make p table
      ≡ ok (
        record {
          publications =
              (next_packet_identifier table.packet_identifier, (entry_start entry).0)
              ∷ table.publications;
          packet_identifier = next_packet_identifier table.packet_identifier;
        },
        p,
        (entry_start entry).1,
      )
unfolding publish_entry insert_entry
publish_entry-ok make p table entry made room = rw (publish_entry, made, insert_entry, room)

-- A consistent PUBLISH with an unreserved QoS and room for a packet identifier, handed with
-- another unreserved QoS to the table of a connected client, whose entries wait under their own
-- identifiers and whose next packet identifier is free: it sends one PUBLISH, with the QoS given,
-- whatever the QoS it came with, and the same topic, message, DUP and RETAIN flag. The table
-- stays as it is to be, and the PUBLISH that was given, which all clients share, can be handed
-- on.
pub publish_lem :
    (p : Publish) (q : QoS) (table : TxInFlight)
    → IsValid table
    → HasRoom table
    → IsRelayable p
    → q ≢ reserved
    → (next : Published) × (publish true p q table ≡ ok next) × IsDelivery table p q next
unfolding publish publish_using_qos0 publish_using_qos1 publish_using_qos2 Qos1.make Qos2.make
    entry_start Qos1.start Qos1.start_ack_timeout Qos2.start Qos2.send_and_wait
    Qos2.start_ack_timeout
publish_lem p at_most_once table v room r m =
    let p' = requalified at_most_once p.packet_identifier p in
    let made : set_qos at_most_once p ≡ ok p' =
      unfold with_new_packet_identifier in
      set_qos-requalified p at_most_once p.packet_identifier r m in
    let copy = requalified-IsCopy p at_most_once p.packet_identifier r m in
    (
      (table, p', send (MqttPacket.publish p') ∷ []),
      rw (publish_using_qos0, made),
      record {
        valid = v;
        grown = inl refl;
        relayable = requalified-IsRelayable p at_most_once p.packet_identifier r m;
        shared = copy;
        packet = p';
        is_sent = refl;
        has_qos = qos-requalified p at_most_once p.packet_identifier r m;
        is_copy = copy;
      },
    )
publish_lem p at_least_once table v room r m =
    let id = next_packet_identifier table.packet_identifier in
    let p' = requalified at_least_once id p in
    let entry : TxEntry =
      qos1 (record { publish = p'; retry_count = 0; state = waiting_for_ack }) in
    let new : TxEntry =
      qos1 (record { publish = p'; retry_count = 0; state = Qos1State.initial }) in
    let effects' : List Effect = send (MqttPacket.publish p') ∷ start_timer ∷ [] in
    let table' : TxInFlight = record {
      publications = (id, entry) ∷ table.publications;
      packet_identifier = id;
    } in
    let made = set_qos-requalified p at_least_once id r m in
    (
      (table', p, effects'),
      publish_entry-ok make_entry1 p table new (rw (Qos1.make, made)) room,
      record {
        valid = (room, (refl, refl), v);
        grown = inr (entry, refl);
        relayable = r;
        shared = IsCopy-refl p;
        packet = p';
        is_sent = refl;
        has_qos = qos-requalified p at_least_once id r m;
        is_copy = requalified-IsCopy p at_least_once id r m;
      },
    )
publish_lem p exactly_once table v room r m =
    let id = next_packet_identifier table.packet_identifier in
    let p' = requalified exactly_once id p in
    let entry : TxEntry =
      qos2 (record { publish = p'; retry_count = 0; state = waiting_for_rec }) in
    let new : TxEntry =
      qos2 (record { publish = p'; retry_count = 0; state = Qos2State.initial }) in
    let effects' : List Effect = send (MqttPacket.publish p') ∷ start_timer ∷ [] in
    let table' : TxInFlight = record {
      publications = (id, entry) ∷ table.publications;
      packet_identifier = id;
    } in
    let made = set_qos-requalified p exactly_once id r m in
    (
      (table', p, effects'),
      publish_entry-ok make_entry2 p table new (rw (Qos2.make, made)) room,
      record {
        valid = (room, (refl, inl refl), v);
        grown = inr (entry, refl);
        relayable = r;
        shared = IsCopy-refl p;
        packet = p';
        is_sent = refl;
        has_qos = qos-requalified p exactly_once id r m;
        is_copy = requalified-IsCopy p exactly_once id r m;
      },
    )
publish_lem p reserved table v room r m = absurd (m refl)
