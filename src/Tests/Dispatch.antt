-- ===== src/Tests/Dispatch.antt =====
-- Concrete subscriptions and publications.
use wally_io.Prelude.{◌++◌}
use wally_io.Prelude.{
  ℕ, ◌+◌, ◌≤◌, ◌≡◌, refl, ◌⊎◌, Bytes, List, [], ◌∷◌, true, false, ◌&&◌, ◌||◌, not, any, All, Any,
  length, none, some, ok, same_bytes, arith,
}
use wally_io.Protocol.{QoS, at_most_once, at_least_once, exactly_once, qos_value}
use wally_io.Packet.PublishPacket.{set_dup}
use wally_io.Packet.{Publish, Subscribe, Unsubscribe, MqttPacket, make_pubrel}
use wally_io.Subscriptions.{SubscriptionContainer, subscribe, unsubscribe, resolve_subscribers}
use wally_io.Subscriptions.Resolve.{granted, IsOnce, Concerns, resolve_subscribers_lem}
use wally_io.Subscriptions.Changes.{IsDistinct, holds, asked, subscribe_lem, unsubscribe_lem}
use wally_io.Tx.{
  Effect, Qos1State, Qos1TxPublication, Qos2State, Qos2TxPublication, waiting_for_ack,
  waiting_for_rec, send, start_timer, release,
}
use wally_io.Tx.Log.{releases, publishes}
use wally_io.Tx.Qos1
use wally_io.Tx.Qos1.Delivery as Delivery1
use wally_io.Tx.Qos1.Delivery.{qos1_Life_lem, ack_timeout_expired_lem, qos1_timeouts_lem}
use wally_io.Tx.Qos2
use wally_io.Tx.Qos2.Delivery as Delivery2
use wally_io.Tx.Qos2.Delivery.Invariant.{qos2_Life_lem}
use wally_io.Tx.Qos2.Delivery.Timeouts as Timeouts2
use wally_io.Tx.Qos2.Delivery.Timeouts.{qos2_timeouts_lem}
use wally_io.Topic.{topic_filter_matches_topic}
use wally_io.Topic.Matching.{IsPlain, slash_hash, topic_filter_matches_topic-hash}
use wally_io.Rx.Table.{RxInFlight}
use wally_io.Rx.Events.{IsValid, present}
use wally_io.Rx.Once.{Event, run, run_lem, bit}

abbrev topic : Bytes
topic = b'a' ∷ b'/' ∷ b'b' ∷ []

abbrev all_topics : Bytes
all_topics = b'#' ∷ []

abbrev alice : Bytes
alice = b'A' ∷ []

abbrev bob : Bytes
bob = b'B' ∷ []

abbrev sample : Publish
sample = record {
  header = record { type_and_flags = 0x34; remaining_length = 8 };
  topic = topic;
  packet_identifier = 5;
  application_message = 1 ∷ [];
}

-- Alice twice, Bob once.
abbrev subscriptions : List SubscriptionContainer
subscriptions =
    record { topic_filter = topic; maximum_qos = at_most_once; client_id = alice }
    ∷ record { topic_filter = topic; maximum_qos = at_most_once; client_id = bob }
    ∷ record { topic_filter = all_topics; maximum_qos = exactly_once; client_id = alice }
    ∷ []

abbrev request : Subscribe
request = record {
  header = record { type_and_flags = 0x82; remaining_length = 8 };
  packet_identifier = 7;
  subscriptions = record { topic_filter = topic; maximum_qos = at_least_once } ∷ [];
}

abbrev cancellation : Unsubscribe
cancellation = record {
  header = record { type_and_flags = 0xA2; remaining_length = 7 };
  packet_identifier = 8;
  topic_filters = topic ∷ [];
}

resolve_subscribers_example :
    IsOnce (resolve_subscribers sample subscriptions)
    × ((granted alice (resolve_subscribers sample subscriptions) ≡ none)
          × All (λ s. ¬ Concerns alice topic s) subscriptions
        ⊎ ((q : QoS) × (granted alice (resolve_subscribers sample subscriptions) ≡ some q)
            × Any (λ s. Concerns alice topic s × (s.maximum_qos ≡ q)) subscriptions
            × All
                (λ s. Concerns alice topic s → qos_value s.maximum_qos ≤ qos_value q)
                subscriptions))
resolve_subscribers_example = resolve_subscribers_lem sample subscriptions alice

subscribe_example :
    let (subs, suback) = subscribe bob request subscriptions in
    IsDistinct subs
    × ((s : SubscriptionContainer)
        → holds s subs ≡ (holds s subscriptions || asked bob request.subscriptions s))
    × (suback.packet_identifier ≡ 7)
    × (length suback.return_codes ≡ 1)
subscribe_example = subscribe_lem bob request subscriptions (refl, (refl, (refl, tt)))

unsubscribe_example :
    let (subs, unsuback) = unsubscribe bob cancellation subscriptions in
    IsDistinct subs
    × ((s : SubscriptionContainer)
        → holds s subs
          ≡ (holds s subscriptions && not (any (λ f. same_bytes f s.topic_filter) (topic ∷ []))))
    × (unsuback.packet_identifier ≡ 8)
unsubscribe_example = unsubscribe_lem bob cancellation subscriptions (refl, (refl, (refl, tt)))

abbrev first1 : Qos1TxPublication
first1 = record { publish = sample; retry_count = 0; state = Qos1State.initial }

abbrev log1 : List Effect
log1 =
    Effect.send (MqttPacket.publish sample)
    ∷ Effect.start_timer
    ∷ Effect.send (MqttPacket.publish sample)
    ∷ Effect.start_timer
    ∷ []

abbrev retried1 : Qos1TxPublication
retried1 = record { publish = sample; retry_count = 1; state = waiting_for_ack }

-- Started, and one timeout.
life1 : Delivery1.Life 3 first1 retried1 log1
unfolding Qos1.start Qos1.start_ack_timeout Qos1.ack_timeout_expired
life1 = Delivery1.timed_out Delivery1.started refl refl refl

qos1_Life_example : Delivery1.IsWaiting 3 retried1 log1 ⊎ Delivery1.IsOver 3 retried1 log1
qos1_Life_example = qos1_Life_lem 3 (omega arith) refl life1

qos1_timeouts_example :
    (t' : Qos1TxPublication) × (log' : List Effect) × (Delivery1.timeouts 3 4
        (Qos1.start first1).0
        (Qos1.start first1).1
      ≡ ok (t', log'))
    × (t'.state ≡ Qos1State.terminally_failed)
    × (publishes log' ≡ 4)
    × (releases log' ≡ 1)
qos1_timeouts_example = qos1_timeouts_lem 3 first1 (omega arith) refl

abbrev first2 : Qos2TxPublication
first2 = record { publish = sample; retry_count = 0; state = Qos2State.initial }

abbrev log2 : List Effect
log2 = Effect.send (MqttPacket.publish sample) ∷ Effect.start_timer ∷ []

abbrev started2 : Qos2TxPublication
started2 = record { publish = sample; retry_count = 0; state = waiting_for_rec }

life2 : Delivery2.Life 3 first2 started2 log2
unfolding Qos2.start Qos2.send_and_wait Qos2.start_ack_timeout
life2 = Delivery2.started

qos2_Life_example : Delivery2.IsWaiting 3 started2 log2 ⊎ Delivery2.IsOver started2 log2
qos2_Life_example = qos2_Life_lem 3 (omega arith) refl refl life2

qos2_timeouts_example :
    let pubrel = send (MqttPacket.pubrel (make_pubrel 5)) in
    (t' : Qos2TxPublication) × (Timeouts2.timeouts 3 4 (Qos2.start first2).0 (Qos2.start first2).1
      ≡ ok (
        t',
        send (MqttPacket.publish first2.publish)
            ∷ start_timer
            ∷ send (MqttPacket.publish (set_dup true first2.publish))
            ∷ start_timer
            ∷ pubrel
            ∷ start_timer
            ∷ pubrel
            ∷ start_timer
            ∷ release
            ∷ [],
      ))
    × (t'.state ≡ Qos2State.terminally_failed)
qos2_timeouts_example = qos2_timeouts_lem 2 first2 (omega arith) refl refl

-- The PUBLISH twice, its PUBREL, and the PUBLISH again.
abbrev events : List Event
events =
    Event.publish sample
    ∷ Event.publish sample
    ∷ Event.pubrel (make_pubrel 5)
    ∷ Event.publish sample
    ∷ []

run_example :
    (dispatched left : ℕ) × (table' : RxInFlight) × (run 3 5 events []
      ≡ ok (dispatched, left, table'))
    × IsValid table'
    × (0 + dispatched ≡ left + bit (present 5 table'))
run_example = run_lem 3 5 events [] tt

topic-IsPlain : IsPlain topic
topic-IsPlain = (refl, refl, (refl, refl, (refl, refl, tt)))

hash_example :
    (topic_filter_matches_topic (topic ++ slash_hash) (topic ++ (b'/' ∷ b'c' ∷ [])) ≡ true)
    × (topic_filter_matches_topic (topic ++ slash_hash) (topic ++ (b'/' ∷ [])) ≡ false)
    × (topic_filter_matches_topic (topic ++ (b'/' ∷ b'x' ∷ slash_hash)) topic ≡ true)
hash_example = topic_filter_matches_topic-hash topic (b'/' ∷ b'x' ∷ []) [] b'c' topic-IsPlain
