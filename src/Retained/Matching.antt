-- ===== src/Retained/Matching.antt =====
-- The retained messages for a SUBSCRIBE (dispatch/retained_messages.cpp): the same resolution as
-- that of the subscribers of a topic, with the topics in the place of the clients.
use wally_io.Prelude.{
  ◌≡◌, ◌≢◌, refl, ap, sym, ◌∙◌, inl, inr, Bytes, List, [], ◌∷◌, Bool-cases, none, some, same_bytes,
  same_bytes_refl, same_bytes-eq, find_name, Named,
}
use wally_io.Topic.{topic_filter_matches_topic}
use wally_io.Packet.{Publish, Subscription, Subscribe}
use wally_io.Subscriptions.{
  SubscriptionContainer, ResolvedSubscriber, matches, resolve, resolve_all,
}
use wally_io.Subscriptions.Resolve.{
  granted, IsOnce, IsGreatest, granted-resolve_other, resolve_all-IsGreatest, IsOnce-resolve_all,
}
use wally_io.Retained.{
  RetainedMessages, ResolvedPublish, resolve_message, resolve_subscriptions, resolve_messages,
  messages_for,
}
use wally_io.Retained.Store.{IsRetained}

-- The topics of the resolved messages, with their QoS.
abbrev pub topics : List ResolvedPublish → List ResolvedSubscriber
topics [] = []
topics ((p, q) ∷ resolved) = (p.topic, q) ∷ topics resolved

abbrev pub containers : Bytes → List Subscription → List SubscriptionContainer
containers topic [] = []
containers topic (s ∷ subs) =
    record { topic_filter = s.topic_filter; maximum_qos = s.maximum_qos; client_id = topic }
    ∷ containers topic subs

topics-resolve_message :
    (p : Publish) (s : SubscriptionContainer) (resolved : List ResolvedPublish)
    → s.client_id ≡ p.topic
    → topics (resolve_message p s.maximum_qos resolved) ≡ resolve s (topics resolved)
unfolding resolve_message resolve
topics-resolve_message p s [] e = rw e
topics-resolve_message p s ((seen, q) ∷ resolved) e =
    elim (Bool-cases (same_bytes seen.topic p.topic)) [
      | inl same ↦ rw (e, same)
      | inr other ↦ rw (e, other) (ap (◌∷◌ (seen.topic, q)) (topics-resolve_message p s resolved e))
    ]

pub topics-resolve_subscriptions :
    (topic : Bytes) (p : Publish) (subs : List Subscription) (resolved : List ResolvedPublish)
    → p.topic ≡ topic
    → topics (resolve_subscriptions topic p subs resolved)
      ≡ resolve_all topic (containers topic subs) (topics resolved)
unfolding resolve_subscriptions resolve_all matches
topics-resolve_subscriptions topic p [] resolved e = refl
topics-resolve_subscriptions topic p (s ∷ subs) resolved e =
    let c : SubscriptionContainer = record {
      topic_filter = s.topic_filter;
      maximum_qos = s.maximum_qos;
      client_id = topic;
    } in
    elim (Bool-cases (topic_filter_matches_topic s.topic_filter topic)) [
      | inl does ↦ rw does (
          topics-resolve_subscriptions topic p subs _ e
          ∙ ap (resolve_all topic (containers topic subs))
              (topics-resolve_message p c resolved (sym e)))
      | inr does_not ↦ rw does_not (topics-resolve_subscriptions topic p subs resolved e)
    ]

-- The entry of one topic does not concern another.
granted-resolve_all_other :
    (topic other : Bytes) (subs : List Subscription) (resolved : List ResolvedSubscriber)
    → topic ≢ other
    → granted other (resolve_all topic (containers topic subs) resolved) ≡ granted other resolved
unfolding resolve_all
granted-resolve_all_other topic other [] resolved ne = refl
granted-resolve_all_other topic other (s ∷ subs) resolved ne =
    let c : SubscriptionContainer = record {
      topic_filter = s.topic_filter;
      maximum_qos = s.maximum_qos;
      client_id = topic;
    } in
    elim (Bool-cases (matches topic c)) [
      | inl does ↦ rw does (
          granted-resolve_all_other topic other subs (resolve c resolved) ne
          ∙ granted-resolve_other c other resolved ne)
      | inr does_not ↦ rw does_not (granted-resolve_all_other topic other subs resolved ne)
    ]

pub IsOnce-resolve_messages :
    (messages : RetainedMessages) (subs : List Subscription) (resolved : List ResolvedPublish)
    → Named IsRetained messages
    → IsOnce (topics resolved)
    → IsOnce (topics (resolve_messages messages subs resolved))
unfolding resolve_messages
IsOnce-resolve_messages [] subs resolved v h = h
IsOnce-resolve_messages ((topic, p) ∷ messages) subs resolved (fresh, own, v) h =
    IsOnce-resolve_messages messages subs _ v (
      rw (topics-resolve_subscriptions topic p subs resolved own.0)
        (IsOnce-resolve_all topic (containers topic subs) (topics resolved) h))

pub granted-resolve_messages_absent :
    (messages : RetainedMessages) (subs : List Subscription) (resolved : List ResolvedPublish)
    (topic : Bytes)
    → Named IsRetained messages
    → find_name topic messages ≡ none
    → granted topic (topics (resolve_messages messages subs resolved))
      ≡ granted topic (topics resolved)
unfolding resolve_messages
granted-resolve_messages_absent [] subs resolved topic v e = refl
granted-resolve_messages_absent ((t, p) ∷ messages) subs resolved topic (fresh, own, v) e =
    elim (Bool-cases (same_bytes t topic)) [
      | inl same ↦ cc (rw same at e)
      | inr other ↦
          let ne : t ≢ topic = λ eq. cc (other, same_bytes_refl t, ap (same_bytes t) eq) in
          granted-resolve_messages_absent messages subs _ topic v (rw other at e)
          ∙ ap (granted topic) (topics-resolve_subscriptions t p subs resolved own.0)
          ∙ granted-resolve_all_other t topic subs (topics resolved) ne
    ]

pub resolve_messages-IsGreatest :
    (messages : RetainedMessages) (subs : List Subscription) (resolved : List ResolvedPublish)
    (topic : Bytes) (p : Publish)
    → Named IsRetained messages
    → find_name topic messages ≡ some p
    → granted topic (topics resolved) ≡ none
    → IsGreatest none
        (granted topic (topics (resolve_messages messages subs resolved)))
        topic
        topic
        (containers topic subs)
unfolding resolve_messages
resolve_messages-IsGreatest [] subs resolved topic p v e h = cc e
resolve_messages-IsGreatest ((t, p') ∷ messages) subs resolved topic p (fresh, own, v) e h =
    elim (Bool-cases (same_bytes t topic)) [
      | inl same ↦
          let t_eq : t ≡ topic = same_bytes-eq t topic same in
          let gone : find_name topic messages ≡ none = rw (← t_eq) fresh in
          let own' : p'.topic ≡ topic = own.0 ∙ t_eq in
          let now : granted topic
                (topics (resolve_messages messages subs (resolve_subscriptions t p' subs resolved)))
              ≡ granted topic (resolve_all topic (containers topic subs) (topics resolved)) =
            granted-resolve_messages_absent messages subs _ topic v gone
            ∙ (ap (λ x. granted topic (topics (resolve_subscriptions x p' subs resolved))) t_eq
                ∙ ap (granted topic) (topics-resolve_subscriptions topic p' subs resolved own')) in
          let greatest =
            resolve_all-IsGreatest topic topic (containers topic subs) (topics resolved) in
          rw now (rw h at greatest)
      | inr other ↦
          let ne : t ≢ topic = λ eq. cc (other, same_bytes_refl t, ap (same_bytes t) eq) in
          let still : granted topic (topics (resolve_subscriptions t p' subs resolved)) ≡ none =
            ap (granted topic) (topics-resolve_subscriptions t p' subs resolved own.0)
            ∙ (granted-resolve_all_other t topic subs (topics resolved) ne ∙ h) in
          resolve_messages-IsGreatest messages subs _ topic p v (rw other at e) still
    ]

-- The messages one behind the other, each resolved as a topic is among its subscribers.
unfoldable pub resolve_topics :
    RetainedMessages → List Subscription → List ResolvedSubscriber → List ResolvedSubscriber
resolve_topics [] subs resolved = resolved
resolve_topics ((topic, p) ∷ messages) subs resolved =
    resolve_topics messages subs (resolve_all topic (containers topic subs) resolved)

topics-resolve_messages :
    (messages : RetainedMessages) (subs : List Subscription) (resolved : List ResolvedPublish)
    → Named IsRetained messages
    → topics (resolve_messages messages subs resolved)
      ≡ resolve_topics messages subs (topics resolved)
unfolding resolve_messages resolve_topics
topics-resolve_messages [] subs resolved v = refl
topics-resolve_messages ((topic, p) ∷ messages) subs resolved (fresh, own, v) =
    topics-resolve_messages messages subs _ v
    ∙ ap (resolve_topics messages subs) (topics-resolve_subscriptions topic p subs resolved own.0)

-- From a table that holds each topic once with a message of its own: the topics and QoS that the
-- retained messages are resolved with are those that the loop over the subscribers of a topic gives
-- for each topic of the table, with the topic in the place of the client.
pub topics-messages_for :
    (subscribe : Subscribe) (messages : RetainedMessages)
    → Named IsRetained messages
    → topics (messages_for subscribe messages) ≡ resolve_topics messages subscribe.subscriptions []
unfolding messages_for
topics-messages_for subscribe messages v =
    topics-resolve_messages messages subscribe.subscriptions [] v
