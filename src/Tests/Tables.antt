-- ===== src/Tests/Tables.antt =====
-- Concrete tables of publications and of retained messages.
use wally_io.Prelude.{
  ◌+◌, ◌%◌, ◌^◌, ◌≤◌, ◌≡◌, refl, ◌⊎◌, Bytes, List, [], ◌∷◌, true, false, All, Any, none, some, ok,
  err, assertion_failed, find_key, find_name, Named, arith,
}
use wally_io.Protocol.{QoS, at_least_once, exactly_once, qos_value, type_of}
use wally_io.Packet.{Publish, PublishAck, Subscribe}
use wally_io.Packet.PublishPacket.{retain, set_retain}
use wally_io.Encoder.Publications.{IsRelayable}
use wally_io.Encoder.Retention.{set_retain_lem}
use wally_io.Subscriptions.Resolve.{granted, IsOnce}
use wally_io.Tx.{Effect, stop, waiting_for_ack, ack_type}
use wally_io.Tx.Table as Tx
use wally_io.Tx.Table.{TxEntry, qos1, TxInFlight, Published, next_packet_identifier}
use wally_io.Tx.Table.Entries.{expects, is_ack}
use wally_io.Tx.Table.Responses.{IsValid, response_received_lem}
use wally_io.Tx.Table.Deliveries.{IsDelivery, publish_lem}
use wally_io.Tx.Table.Identifiers.{identifier_after, identifier_after_lem}
use wally_io.Retained.{RetainedMessages, messages_for}
use wally_io.Retained.Store.{IsRetained, retain_all, latest, retain_all_lem}
use wally_io.Retained.Matching.{topics, resolve_topics, topics-messages_for}
use wally_io.Retained.Answers.{Matches, messages_for_lem}
use wally_io.Sessions.Invariant.{IsStored}
use wally_io.Tests.Codec.{topic, sample, sample-IsRelayable}

-- One QoS 1 publication in flight.
abbrev in_flight : TxInFlight
in_flight = record {
  publications =
      (5, qos1 (record { publish = sample; retry_count = 0; state = waiting_for_ack })) ∷ [];
  packet_identifier = 5;
}

in_flight-IsValid : IsValid in_flight
in_flight-IsValid = (refl, (refl, refl), tt)

-- A PUBREC for it.
abbrev pubrec : PublishAck
pubrec = record {
  header = record { type_and_flags = 0x50; remaining_length = 2 };
  packet_identifier = 5;
}

pubrec-is_ack : is_ack (ack_type pubrec) ≡ true
unfolding type_of
pubrec-is_ack = refl

response_received_example :
    ((entry : TxEntry) × (find_key 5 in_flight.publications ≡ some entry)
      × (((expects entry (ack_type pubrec) ≡ true)
            × ((table' : TxInFlight) × (effects : List Effect) × (Tx.response_received true pubrec
                    in_flight
                  ≡ ok (table', effects))
                × IsValid table'))
          ⊎ ((expects entry (ack_type pubrec) ≡ false)
              × (Tx.response_received true pubrec in_flight ≡ err assertion_failed))))
    ⊎ ((find_key 5 in_flight.publications ≡ none)
        × (Tx.response_received true pubrec in_flight ≡ ok (in_flight, stop ∷ [])))
response_received_example = response_received_lem pubrec in_flight in_flight-IsValid pubrec-is_ack

in_flight-HasRoom : find_key (next_packet_identifier 5) in_flight.publications ≡ none
unfolding next_packet_identifier
in_flight-HasRoom = refl

publish_example :
    (next : Published) × (Tx.publish true sample exactly_once in_flight ≡ ok next)
    × IsDelivery in_flight sample exactly_once next
publish_example =
    publish_lem sample exactly_once in_flight in_flight-IsValid in_flight-HasRoom sample-IsRelayable
      (λ e. cc e)

identifier_after_example : identifier_after 3 65534 ≡ (65534 + 3) % 2 ^ 16
identifier_after_example = identifier_after_lem 3 65534 (omega arith)

abbrev pub kept : Publish
kept = set_retain true sample

pub kept-retain : retain kept ≡ true
kept-retain = (set_retain_lem true sample sample-IsRelayable).1

pub kept-IsRelayable : IsRelayable kept
kept-IsRelayable = (set_retain_lem true sample sample-IsRelayable).0

abbrev pub messages : RetainedMessages
messages = (topic, kept) ∷ []

kept-IsRetained : IsRetained topic kept
unfolding set_retain
kept-IsRetained = (refl, kept-retain, refl)

pub messages-IsStored : Named IsStored messages
messages-IsStored = (refl, (kept-IsRetained, kept-IsRelayable), tt)

messages-Named : Named IsRetained messages
messages-Named = (refl, kept-IsRetained, tt)

abbrev pub request : Subscribe
request = record {
  header = record { type_and_flags = 0x82; remaining_length = 8 };
  packet_identifier = 7;
  subscriptions =
      record { topic_filter = b'#' ∷ []; maximum_qos = at_least_once }
      ∷ record { topic_filter = topic; maximum_qos = exactly_once }
      ∷ [];
}

retain_all_example :
    (messages' : RetainedMessages) × (retain_all (kept ∷ kept ∷ []) [] ≡ ok messages')
    × Named IsRetained messages'
    × ((t : Bytes) → find_name t messages' ≡ latest t (kept ∷ kept ∷ []) none)
retain_all_example = retain_all_lem (kept ∷ kept ∷ []) [] (kept-retain, (kept-retain, tt)) tt

topics-messages_for_example :
    topics (messages_for request messages) ≡ resolve_topics messages request.subscriptions []
topics-messages_for_example = topics-messages_for request messages messages-Named

messages_for_example :
    let resolved = messages_for request messages in
    let subs = request.subscriptions in
    IsOnce (topics resolved)
    × All (λ r. find_name r.0.topic messages ≡ some r.0) resolved
    × ((find_name topic messages ≡ none) × (granted topic (topics resolved) ≡ none)
        ⊎ ((p : Publish) × (find_name topic messages ≡ some p)
            × ((granted topic (topics resolved) ≡ none) × All (λ s. ¬ Matches topic s) subs
                ⊎ ((q : QoS) × (granted topic (topics resolved) ≡ some q)
                    × Any (λ s. Matches topic s × (s.maximum_qos ≡ q)) subs
                    × All (λ s. Matches topic s → qos_value s.maximum_qos ≤ qos_value q) subs))))
messages_for_example = messages_for_lem request messages topic messages-Named
