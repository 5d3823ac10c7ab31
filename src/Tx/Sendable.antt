-- ===== src/Tx/Sendable.antt =====
-- What the publications on their way to a client send can be encoded (dispatch/tx_publication.cpp and
-- tx_in_flight_publications.cpp).
use wally_io.Prelude.{
  ℕ, ◌≡◌, ◌≢◌, inl, inr, List, [], ◌∷◌, Bool, true, false, Option-cases, All, Result, find_key,
  Yields, ok-Yields, chain-Yields, subst, Entries,
}
use wally_io.Protocol.{QoS, at_most_once, at_least_once, exactly_once, reserved}
use wally_io.Packet.{Publish, MqttPacket}
use wally_io.Packet.PublishPacket.{set_qos, with_new_packet_identifier}
use wally_io.Encoder.Lengths.{IsSendable}
use wally_io.Encoder.Publications.{IsRelayable, set_qos_lem}
use wally_io.Tx.{Effect, send}
use wally_io.Tx.Qos1
use wally_io.Tx.Qos2
use wally_io.Tx.Table.{
  TxEntry, qos1, qos2, TxInFlight, Published, entry_start, next_packet_identifier, insert_entry,
  publish_using_qos0, publish_entry, make_entry1, make_entry2, publish_using_qos1,
  publish_using_qos2, publish,
}

-- A packet that is sent can be encoded.
abbrev pub CanSend : Effect → Type 0
CanSend (send packet) = IsSendable packet
CanSend _ = Unit {0}

set_qos-Yields :
    (q : QoS) (id : ℕ) (p : Publish)
    → IsRelayable p
    → q ≢ reserved
    → Yields IsRelayable (set_qos q (with_new_packet_identifier id p))
set_qos-Yields q id p r m p' e =
    let (p'', e', r', _, _, _, _) = set_qos_lem p q id r m in
    let same : p'' ≡ p' = cc (e, e') in subst IsRelayable same r'

abbrev pub EntryRelayable : TxEntry → Type 0
EntryRelayable (qos1 t) = IsRelayable t.publish
EntryRelayable (qos2 t) = IsRelayable t.publish

abbrev pub AreRelayable : List (ℕ × TxEntry) → Type 0
AreRelayable publications = Entries (λ id entry. EntryRelayable entry) publications

-- What an entry sends can be encoded, and the entry can be sent again.
abbrev pub EntrySends : TxEntry × List Effect → Type 0
EntrySends r = EntryRelayable r.0 × All CanSend r.1

Qos1-make-Yields :
    (id : ℕ) (p : Publish)
    → IsRelayable p
    → Yields (λ t. IsRelayable t.publish) (Qos1.make (with_new_packet_identifier id p))
unfolding Qos1.make
Qos1-make-Yields id p r =
    chain-Yields IsRelayable (set_qos at_least_once (with_new_packet_identifier id p))
      (set_qos-Yields at_least_once id p r (λ e. cc e))
      (λ p' r'. ok-Yields (λ t. IsRelayable t.publish) _ r')

Qos2-make-Yields :
    (id : ℕ) (p : Publish)
    → IsRelayable p
    → Yields (λ t. IsRelayable t.publish) (Qos2.make (with_new_packet_identifier id p))
unfolding Qos2.make
Qos2-make-Yields id p r =
    chain-Yields IsRelayable (set_qos exactly_once (with_new_packet_identifier id p))
      (set_qos-Yields exactly_once id p r (λ e. cc e))
      (λ p' r'. ok-Yields (λ t. IsRelayable t.publish) _ r')

make_entry1-Yields :
    (id : ℕ) (p : Publish)
    → IsRelayable p
    → Yields EntryRelayable (make_entry1 (with_new_packet_identifier id p))
make_entry1-Yields id p r =
    chain-Yields (λ t. IsRelayable t.publish) (Qos1.make (with_new_packet_identifier id p))
      (Qos1-make-Yields id p r) (λ t r'. ok-Yields EntryRelayable (qos1 t) r')

make_entry2-Yields :
    (id : ℕ) (p : Publish)
    → IsRelayable p
    → Yields EntryRelayable (make_entry2 (with_new_packet_identifier id p))
make_entry2-Yields id p r =
    chain-Yields (λ t. IsRelayable t.publish) (Qos2.make (with_new_packet_identifier id p))
      (Qos2-make-Yields id p r) (λ t r'. ok-Yields EntryRelayable (qos2 t) r')

entry_start-EntrySends : (entry : TxEntry) → EntryRelayable entry → EntrySends (entry_start entry)
unfolding entry_start Qos1.start Qos1.start_ack_timeout Qos2.start Qos2.send_and_wait
    Qos2.start_ack_timeout
entry_start-EntrySends (qos1 t) r = (r, (IsSendable.publish t.publish r.consistent, (tt, tt)))
entry_start-EntrySends (qos2 t) r = (r, (IsSendable.publish t.publish r.consistent, (tt, tt)))

-- The table and the shared PUBLISH can still be sent on, and what was sent can be encoded.
abbrev pub IsPassedOn : Published → Type 0
IsPassedOn r = AreRelayable r.0.publications × IsRelayable r.1 × All CanSend r.2

insert_entry-Yields :
    (id : ℕ) (entry : TxEntry) (publications : List (ℕ × TxEntry))
    → EntryRelayable entry
    → AreRelayable publications
    → Yields AreRelayable (insert_entry id entry publications)
unfolding insert_entry
insert_entry-Yields id entry publications r h = elim (Option-cases (find_key id publications)) [
  | inl absent ↦
      rw (insert_entry, absent) (ok-Yields AreRelayable ((id, entry) ∷ publications) (absent, r, h))
  | inr (old, found) ↦ rw (insert_entry, found) (λ a e. cc e)
]

publish_entry-Yields :
    (make : Publish → Result TxEntry) (p : Publish) (table : TxInFlight)
    → IsRelayable p
    → AreRelayable table.publications
    → ((id : ℕ) → Yields EntryRelayable (make (with_new_packet_identifier id p)))
    → Yields IsPassedOn (publish_entry make p table)
unfolding publish_entry
publish_entry-Yields make p table r stored h =
    let id = next_packet_identifier table.packet_identifier in
    chain-Yields EntryRelayable (make (with_new_packet_identifier id p)) (h id) (λ entry r'.
      let (started, sends) = entry_start-EntrySends entry r' in
      chain-Yields AreRelayable (insert_entry id (entry_start entry).0 table.publications)
        (insert_entry-Yields id (entry_start entry).0 table.publications started stored)
        (λ publications kept. ok-Yields IsPassedOn _ (kept, r, sends)))

pub publish-Yields :
    (connected : Bool) (p : Publish) (q : QoS) (table : TxInFlight)
    → IsRelayable p
    → AreRelayable table.publications
    → Yields IsPassedOn (publish connected p q table)
unfolding publish publish_using_qos0 publish_using_qos1 publish_using_qos2
    with_new_packet_identifier
publish-Yields false p q table r stored = ok-Yields IsPassedOn _ (stored, r, tt)
publish-Yields true p at_most_once table r stored =
    chain-Yields IsRelayable (set_qos at_most_once p)
      (set_qos-Yields at_most_once p.packet_identifier p r (λ e. cc e))
      (λ p' r'.
        ok-Yields IsPassedOn (table, p', send (MqttPacket.publish p') ∷ [])
          (stored, r', (IsSendable.publish p' r'.consistent, tt)))
publish-Yields true p at_least_once table r stored =
    publish_entry-Yields make_entry1 p table r stored (λ id. make_entry1-Yields id p r)
publish-Yields true p exactly_once table r stored =
    publish_entry-Yields make_entry2 p table r stored (λ id. make_entry2-Yields id p r)
publish-Yields true p reserved table r stored = ok-Yields IsPassedOn _ (stored, r, tt)
