-- ===== src/Retained/Answers.antt =====
-- What a SUBSCRIBE gets of the retained messages (dispatch/retained_messages.cpp).
use wally_io.Prelude.{
  ◌≤◌, ◌≡◌, refl, ap, ◌∙◌, ◌⊎◌, inl, inr, Bytes, List, [], ◌∷◌, true, Bool-cases, Option-cases, All,
  Any, none, some, same_bytes, find_name, Named, Named-found, All-weaken,
}
use wally_io.Protocol.{QoS, qos_value}
use wally_io.Topic.{topic_filter_matches_topic}
use wally_io.Packet.{Publish, Subscription, Subscribe}
use wally_io.Subscriptions.{matches}
use wally_io.Subscriptions.Resolve.{granted, IsOnce, Concerns}
use wally_io.Retained.{
  RetainedMessages, ResolvedPublish, resolve_message, resolve_subscriptions, resolve_messages,
  messages_for,
}
use wally_io.Retained.Store.{IsRetained}
use wally_io.Retained.Matching.{
  topics, containers, IsOnce-resolve_messages, granted-resolve_messages_absent,
  resolve_messages-IsGreatest,
}

-- A subscription of the SUBSCRIBE matches the topic.
abbrev pub Matches : Bytes → Subscription → Type 0
Matches topic s = topic_filter_matches_topic s.topic_filter topic ≡ true

none_match :
    (topic : Bytes) (subs : List Subscription)
    → All (λ s. ¬ Concerns topic topic s) (containers topic subs)
    → All (λ s. ¬ Matches topic s) subs
none_match topic [] h = tt
none_match topic (s ∷ subs) (h, hs) =
    (λ does. h (refl, unfold matches in does), none_match topic subs hs)

every_qos_below :
    (topic : Bytes) (q : QoS) (subs : List Subscription)
    → All
        (λ s. Concerns topic topic s → qos_value s.maximum_qos ≤ qos_value q)
        (containers topic subs)
    → All (λ s. Matches topic s → qos_value s.maximum_qos ≤ qos_value q) subs
every_qos_below topic q [] h = tt
every_qos_below topic q (s ∷ subs) (h, hs) =
    (λ does. h (refl, unfold matches in does), every_qos_below topic q subs hs)

greatest_is_met :
    (topic : Bytes) (q : QoS) (subs : List Subscription)
    → Any (λ s. Concerns topic topic s × (s.maximum_qos ≡ q)) (containers topic subs)
    → Any (λ s. Matches topic s × (s.maximum_qos ≡ q)) subs
greatest_is_met topic q [] h = h
greatest_is_met topic q (s ∷ subs) (inl ((own, does), e)) = inl ((unfold matches in does), e)
greatest_is_met topic q (s ∷ subs) (inr h) = inr (greatest_is_met topic q subs h)

module _ (P : Publish → Type 0) where
  resolve_message-All :
      (p : Publish) (q : QoS) (resolved : List ResolvedPublish)
      → P p
      → All (λ r. P r.0) resolved
      → All (λ r. P r.0) (resolve_message p q resolved)
  unfolding resolve_message
  resolve_message-All p q [] h hs = (h, tt)
  resolve_message-All p q ((seen, q') ∷ resolved) h (k, hs) =
      elim (Bool-cases (same_bytes seen.topic p.topic)) [
        | inl same ↦ rw same (k, hs)
        | inr other ↦ rw other (k, resolve_message-All p q resolved h hs)
      ]

  resolve_subscriptions-All :
      (topic : Bytes) (p : Publish) (subs : List Subscription) (resolved : List ResolvedPublish)
      → P p
      → All (λ r. P r.0) resolved
      → All (λ r. P r.0) (resolve_subscriptions topic p subs resolved)
  unfolding resolve_subscriptions
  resolve_subscriptions-All topic p [] resolved h hs = hs
  resolve_subscriptions-All topic p (s ∷ subs) resolved h hs =
      elim (Bool-cases (topic_filter_matches_topic s.topic_filter topic)) [
        | inl does ↦ rw does (
            resolve_subscriptions-All topic p subs _ h
              (resolve_message-All p s.maximum_qos resolved h hs))
        | inr does_not ↦ rw does_not (resolve_subscriptions-All topic p subs resolved h hs)
      ]

  resolve_messages-All :
      (messages : RetainedMessages) (subs : List Subscription) (resolved : List ResolvedPublish)
      → All (λ e. P e.1) messages
      → All (λ r. P r.0) resolved
      → All (λ r. P r.0) (resolve_messages messages subs resolved)
  unfolding resolve_messages
  resolve_messages-All [] subs resolved h hs = hs
  resolve_messages-All ((topic, p) ∷ messages) subs resolved (h, rest) hs =
      resolve_messages-All messages subs _ rest
        (resolve_subscriptions-All topic p subs resolved h hs)

-- Every message that is resolved is the one retained for its topic.
pub messages_for-found :
    (subscribe : Subscribe) (messages : RetainedMessages)
    → Named IsRetained messages
    → All (λ r. find_name r.0.topic messages ≡ some r.0) (messages_for subscribe messages)
unfolding messages_for
messages_for-found subscribe messages v =
    let P : Publish → Type 0 = λ p. find_name p.topic messages ≡ some p in
    let own : (e : Bytes × Publish)
        → (find_name e.0 messages ≡ some e.1) × IsRetained e.0 e.1
        → P e.1 =
      λ e (found, is). ap (λ t. find_name t messages) is.0 ∙ found in
    let all_found = Named-found IsRetained messages v in
    resolve_messages-All P messages subscribe.subscriptions [] (All-weaken messages own all_found)
      tt

-- From a table that holds each topic once with a message of its own: each message is resolved at
-- most once, every message that is resolved is the one retained for its topic, and the message
-- retained for a topic is left out if none of the subscriptions matches the topic and resolved with
-- the greatest QoS of those that do else. A topic without a message is not resolved.
pub messages_for_lem :
    (subscribe : Subscribe) (messages : RetainedMessages) (topic : Bytes)
    → Named IsRetained messages
    → let resolved = messages_for subscribe messages in
      let subs = subscribe.subscriptions in
      IsOnce (topics resolved)
      × All (λ r. find_name r.0.topic messages ≡ some r.0) resolved
      × ((find_name topic messages ≡ none) × (granted topic (topics resolved) ≡ none)
          ⊎ ((p : Publish) × (find_name topic messages ≡ some p)
              × ((granted topic (topics resolved) ≡ none) × All (λ s. ¬ Matches topic s) subs
                  ⊎ ((q : QoS) × (granted topic (topics resolved) ≡ some q)
                      × Any (λ s. Matches topic s × (s.maximum_qos ≡ q)) subs
                      × All (λ s. Matches topic s → qos_value s.maximum_qos ≤ qos_value q) subs))))
unfolding messages_for
messages_for_lem subscribe messages topic v =
    let subs = subscribe.subscriptions in
    (
      IsOnce-resolve_messages messages subs [] v tt,
      messages_for-found subscribe messages v,
      elim (Option-cases (find_name topic messages)) [
        | inl absent ↦ inl (absent, granted-resolve_messages_absent messages subs [] topic v absent)
        | inr (p, e) ↦
            let greatest = resolve_messages-IsGreatest messages subs [] topic p v e refl in
            inr (
              p,
              e,
              elim (Option-cases (granted topic (topics (messages_for subscribe messages)))) [
                | inl e' ↦ let (e'', h) = rw e' at greatest in inl (e', none_match topic subs h)
                | inr (q, e') ↦
                    let (found, least, h) = rw e' at greatest in
                    inr (
                      q,
                      e',
                      elim found [ inl e'' ↦ cc e'' | inr a ↦ greatest_is_met topic q subs a ],
                      every_qos_below topic q subs h,
                    )
              ],
            )
      ],
    )
