-- ===== src/Tx/Resent.antt =====
-- What the publications on their way to a client send at an answer and at a timeout can be encoded
-- (dispatch/tx_publication.cpp and tx_in_flight_publications.cpp).
use wally_io.Prelude.{
  ℕ, sym, ◌∙◌, inl, inr, List, [], ◌∷◌, Bool, true, ◌||◌, not, ltb, leb, ◌==◌, Option-cases, All,
  assert, find_key, assign, find_key-Entries, Entries-assign, Entries-erase_key, Yields, ok-Yields,
  bind-Yields, chain-Yields, if-Yields, if-both,
}
use wally_io.Protocol.{same_type, at_most_once, PacketType}
use wally_io.Protocol.Header.{setters_independent, dup_into_fields}
use wally_io.Packet.{Publish, PublishAck}
use wally_io.Packet.PublishPacket.{set_dup, qos, has_packet_identifier}
use wally_io.Encoder.Lengths.{IsSendable, identifier_length}
use wally_io.Encoder.Publications.{IsRelayable}
use wally_io.Tx.{
  Effect, stop, TxPublication, Qos1TxPublication, Qos2TxPublication, qos1_value, qos2_value,
  ack_type, next_retry,
}
use wally_io.Tx.Log.{releases}
use wally_io.Tx.Qos1
use wally_io.Tx.Qos2
use wally_io.Tx.Table.{
  TxEntry, qos1, qos2, TxInFlight, entry_identifier, entry_response_received, entry_timeout_expired,
  release_entry, update_entry, response_received, timeout_expired,
}
use wally_io.Tx.Table.Entries.{is_ack}
use wally_io.Tx.Sendable.{CanSend, EntryRelayable, EntrySends, AreRelayable}

-- A publication can be sent again, and what it has sent can be encoded.
abbrev Sends : {State : Type 0} → TxPublication State × List Effect → Type 0
Sends r = IsRelayable r.0.publish × All CanSend r.1

abbrev pub TableSends : TxInFlight × List Effect → Type 0
TableSends r = AreRelayable r.0.publications × All CanSend r.1

Qos1-response_received-Yields :
    (ack : PublishAck) (t : Qos1TxPublication)
    → IsRelayable t.publish
    → Yields Sends (Qos1.response_received ack t)
unfolding Qos1.response_received
Qos1-response_received-Yields ack t h = bind-Yields (assert (qos1_value t.state == 1)) (λ _ _.
    bind-Yields (assert (same_type (ack_type ack) PacketType.puback)) (λ _ _.
      bind-Yields (assert (ack.packet_identifier == t.publish.packet_identifier))
        (λ _ _. ok-Yields Sends _ (h, (tt, (tt, tt))))))

Qos2-response_received-Yields :
    (ack : PublishAck) (t : Qos2TxPublication)
    → IsRelayable t.publish
    → Yields Sends (Qos2.response_received ack t)
unfolding Qos2.response_received Qos2.send_and_wait Qos2.start_ack_timeout
Qos2-response_received-Yields ack t h =
    let pubrel = IsSendable.pubrel t.publish.packet_identifier in
    bind-Yields (assert (qos2_value t.state == 1 || qos2_value t.state == 2)) (λ _ _.
      if-Yields (qos2_value t.state == 1)
        (if-Yields (not (same_type (ack_type ack) PacketType.pubrec))
          (ok-Yields Sends _ (h, (tt, (tt, tt))))
          (bind-Yields (assert (ack.packet_identifier == t.publish.packet_identifier))
            (λ _ _. ok-Yields Sends _ (h, (tt, (pubrel, (tt, tt)))))))
        (if-Yields (same_type (ack_type ack) PacketType.pubrec)
          (ok-Yields Sends _ (h, (tt, (pubrel, (tt, tt)))))
          (bind-Yields (assert (same_type (ack_type ack) PacketType.pubcomp))
            (λ _ _. ok-Yields Sends _ (h, (tt, (tt, tt)))))))

set_dup-IsRelayable : (d : Bool) (p : Publish) → IsRelayable p → IsRelayable (set_dup d p)
unfolding set_dup qos has_packet_identifier
set_dup-IsRelayable d p r =
    let (same_type, same_qos, _, _, _, _, _, _, _) =
      setters_independent p.header.type_and_flags d true at_most_once r.byte (λ e. cc e) in
    let (small, _, _, _) = dup_into_fields d p.header.type_and_flags r.byte in
    let c = r.consistent in
    record {
      consistent = record {
        is_publish = same_type ∙ c.is_publish;
        topic_fits = c.topic_fits;
        counted = rw (identifier_length, same_qos) c.counted;
        small = c.small;
      };
      byte = small;
      unreserved = λ e. r.unreserved (sym same_qos ∙ e);
      room = r.room;
    }

Qos1-ack_timeout_expired-Yields :
    (max_retries : ℕ) (t : Qos1TxPublication)
    → IsRelayable t.publish
    → Yields Sends (Qos1.ack_timeout_expired max_retries t)
unfolding Qos1.ack_timeout_expired Qos1.start Qos1.start_ack_timeout
Qos1-ack_timeout_expired-Yields max_retries t h =
    bind-Yields (assert (qos1_value t.state == 1)) (λ _ _. ok-Yields Sends _ (
      if-both Sends (leb (next_retry t.retry_count) max_retries)
        (h, (IsSendable.publish t.publish h.consistent, (tt, tt))) (h, (tt, tt))))

Qos2-ack_timeout_expired-Yields :
    (max_retries : ℕ) (t : Qos2TxPublication)
    → IsRelayable t.publish
    → Yields Sends (Qos2.ack_timeout_expired max_retries t)
unfolding Qos2.ack_timeout_expired Qos2.send_and_wait Qos2.start_ack_timeout
Qos2-ack_timeout_expired-Yields max_retries t h =
    let again = set_dup-IsRelayable true t.publish h in
    let pubrel = IsSendable.pubrel t.publish.packet_identifier in
    bind-Yields (assert (qos2_value t.state == 1 || qos2_value t.state == 2)) (λ _ _.
      ok-Yields Sends _ (
        if-both Sends (leb (next_retry t.retry_count) max_retries)
          (if-both Sends (qos2_value t.state == 1)
            (again, (IsSendable.publish (set_dup true t.publish) again.consistent, (tt, tt)))
            (h, (pubrel, (tt, tt))))
          (h, (tt, tt))))

entry_response_received-Yields :
    (ack : PublishAck) (entry : TxEntry)
    → EntryRelayable entry
    → Yields EntrySends (entry_response_received ack entry)
unfolding entry_response_received
entry_response_received-Yields ack (qos1 t) h =
    chain-Yields Sends (Qos1.response_received ack t) (Qos1-response_received-Yields ack t h)
      (λ r s. ok-Yields EntrySends (qos1 r.0, r.1) s)
entry_response_received-Yields ack (qos2 t) h =
    chain-Yields Sends (Qos2.response_received ack t) (Qos2-response_received-Yields ack t h)
      (λ r s. ok-Yields EntrySends (qos2 r.0, r.1) s)

entry_timeout_expired-Yields :
    (max_retries : ℕ) (entry : TxEntry)
    → EntryRelayable entry
    → Yields EntrySends (entry_timeout_expired max_retries entry)
unfolding entry_timeout_expired
entry_timeout_expired-Yields max_retries (qos1 t) h =
    chain-Yields Sends (Qos1.ack_timeout_expired max_retries t)
      (Qos1-ack_timeout_expired-Yields max_retries t h)
      (λ r s. ok-Yields EntrySends (qos1 r.0, r.1) s)
entry_timeout_expired-Yields max_retries (qos2 t) h =
    chain-Yields Sends (Qos2.ack_timeout_expired max_retries t)
      (Qos2-ack_timeout_expired-Yields max_retries t h)
      (λ r s. ok-Yields EntrySends (qos2 r.0, r.1) s)

release_entry-Yields :
    (id : ℕ) (publications : List (ℕ × TxEntry))
    → AreRelayable publications
    → Yields AreRelayable (release_entry id publications)
unfolding release_entry
release_entry-Yields id publications h = elim (Option-cases (find_key id publications)) [
  | inl absent ↦ rw (release_entry, absent) (λ a e. cc e)
  | inr (entry, found) ↦
      rw (release_entry, found)
        (ok-Yields AreRelayable _ (Entries-erase_key (λ k. EntryRelayable) id publications h))
]

update_entry-Yields :
    (id : ℕ) (table : TxInFlight) (next : TxEntry × List Effect)
    → AreRelayable table.publications
    → EntrySends next
    → Yields TableSends (update_entry id table next)
unfolding update_entry
update_entry-Yields id table (entry, effects) stored (again, sends) =
    let publications = assign id entry table.publications in
    let kept = Entries-assign (λ k. EntryRelayable) id entry table.publications again stored in
    if-Yields (ltb 0 (releases effects))
      (chain-Yields AreRelayable (release_entry (entry_identifier entry) publications)
        (release_entry-Yields (entry_identifier entry) publications kept)
        (λ rest kept'. ok-Yields TableSends _ (kept', sends)))
      (ok-Yields TableSends _ (kept, sends))

pub response_received-Yields :
    (connected : Bool) (ack : PublishAck) (table : TxInFlight)
    → AreRelayable table.publications
    → Yields TableSends (response_received connected ack table)
unfolding response_received
response_received-Yields connected ack table stored =
    bind-Yields (assert (is_ack (ack_type ack))) (λ _ _.
      if-Yields connected
        (elim (Option-cases (find_key ack.packet_identifier table.publications)) [
          | inl absent ↦ rw absent (ok-Yields TableSends (table, stop ∷ []) (stored, (tt, tt)))
          | inr (entry, found) ↦
              let again =
                find_key-Entries (λ k. EntryRelayable) ack.packet_identifier entry
                  table.publications stored found in
              rw found (
                chain-Yields EntrySends (entry_response_received ack entry)
                  (entry_response_received-Yields ack entry again)
                  (λ next h. update_entry-Yields ack.packet_identifier table next stored h))
        ])
        (ok-Yields TableSends (table, []) (stored, tt)))

pub timeout_expired-Yields :
    (max_retries id : ℕ) (table : TxInFlight)
    → AreRelayable table.publications
    → Yields TableSends (timeout_expired max_retries id table)
unfolding timeout_expired
timeout_expired-Yields max_retries id table stored =
    elim (Option-cases (find_key id table.publications)) [
      | inl absent ↦ rw (timeout_expired, absent) (ok-Yields TableSends (table, []) (stored, tt))
      | inr (entry, found) ↦
          let again =
            find_key-Entries (λ k. EntryRelayable) id entry table.publications stored found in
          rw (timeout_expired, found)
            (chain-Yields EntrySends (entry_timeout_expired max_retries entry)
              (entry_timeout_expired-Yields max_retries entry again)
              (λ next h. update_entry-Yields id table next stored h))
    ]
