-- ===== src/Subscriptions.antt =====
-- source/server/io_wally/dispatch/topic_subscriptions.cpp: who has subscribed to which topics. The
-- std::unordered_set is the list of its elements in the order of iteration.
pub mod Changes
pub mod Resolve
pub mod Unreserved
use wally_io.Prelude.{
  Bytes, List, [], ◌∷◌, Bool, ◌&&◌, not, any, filter, ltb, same_bytes, if◌then◌else◌,
}
use wally_io.Protocol.{QoS, qos_value, same_qos}
use wally_io.Topic.{topic_filter_matches_topic}
use wally_io.Packet.{
  Publish, PublishAck, Subscribe, Subscription, Suback, Unsubscribe, succeed, ack,
}

pub record SubscriptionContainer : Type 0 where
  pub topic_filter : Bytes
  pub maximum_qos : QoS
  pub client_id : Bytes

-- `operator==`
abbrev pub same_subscription : SubscriptionContainer → SubscriptionContainer → Bool
same_subscription a b =
    same_bytes a.topic_filter b.topic_filter
    && (same_qos a.maximum_qos b.maximum_qos && same_bytes a.client_id b.client_id)

unfoldable pub matches : Bytes → SubscriptionContainer → Bool
matches topic s = topic_filter_matches_topic s.topic_filter topic

-- `std::find( topic_filters.begin( ), topic_filters.end( ), topic_filter ) != topic_filters.end( )`
unfoldable pub topic_filter_matches_one_of : List Bytes → SubscriptionContainer → Bool
topic_filter_matches_one_of topic_filters s = any (λ f. same_bytes f s.topic_filter) topic_filters

-- `subscriptions_.emplace`: nothing is added if an equal element is there.
unfoldable pub emplace :
    SubscriptionContainer → List SubscriptionContainer → List SubscriptionContainer
emplace s subscriptions =
    if any (same_subscription s) subscriptions then subscriptions else s ∷ subscriptions

-- The loop of `topic_subscriptions::subscribe`.
unfoldable pub emplace_all :
    Bytes → List Subscription → List SubscriptionContainer → List SubscriptionContainer
unfolding emplace
emplace_all client_id [] subscriptions = subscriptions
emplace_all client_id (subscr ∷ subscrs) subscriptions =
    let added : SubscriptionContainer = record {
      topic_filter = subscr.topic_filter;
      maximum_qos = subscr.maximum_qos;
      client_id = client_id;
    } in
    emplace_all client_id subscrs (emplace added subscriptions)

unfoldable pub subscribe :
    Bytes → Subscribe → List SubscriptionContainer → List SubscriptionContainer × Suback
subscribe client_id packet subscriptions =
    (emplace_all client_id packet.subscriptions subscriptions, succeed packet)

-- The loop erases what matches. The client's identifier is used for the log only.
unfoldable pub unsubscribe :
    Bytes → Unsubscribe → List SubscriptionContainer → List SubscriptionContainer × PublishAck
unsubscribe client_id packet subscriptions = (
  filter (λ s. not (topic_filter_matches_one_of packet.topic_filters s)) subscriptions,
  ack packet,
)

-- `resolved_subscriber_t`
abbrev pub ResolvedSubscriber : Type 0
ResolvedSubscriber = Bytes × QoS

-- The client's entry gets the greater QoS; a client that is not there is appended.
unfoldable pub resolve : SubscriptionContainer → List ResolvedSubscriber → List ResolvedSubscriber
resolve subscr [] = (subscr.client_id, subscr.maximum_qos) ∷ []
resolve subscr ((client, seen_qos) ∷ resolved) =
    if same_bytes client subscr.client_id
    then (
      client,
      if ltb (qos_value seen_qos) (qos_value subscr.maximum_qos)
          then subscr.maximum_qos
          else seen_qos,
    )
      ∷ resolved
    else (client, seen_qos) ∷ resolve subscr resolved

unfoldable pub resolve_all :
    Bytes → List SubscriptionContainer → List ResolvedSubscriber → List ResolvedSubscriber
resolve_all topic [] resolved = resolved
resolve_all topic (subscr ∷ subscriptions) resolved =
    if not (matches topic subscr)
    then resolve_all topic subscriptions resolved
    else resolve_all topic subscriptions (resolve subscr resolved)

unfoldable pub resolve_subscribers : Publish → List SubscriptionContainer → List ResolvedSubscriber
resolve_subscribers publish subscriptions = resolve_all publish.topic subscriptions []
