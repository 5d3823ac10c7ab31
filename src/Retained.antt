-- ===== src/Retained.antt =====
-- source/server/io_wally/dispatch/retained_messages.cpp: the message retained for each topic.
pub mod Store
pub mod Matching
pub mod Answers
pub mod Unreserved
use wally_io.Prelude.{
  ℕ, Bytes, List, [], ◌∷◌, ltb, not, length, same_bytes, if◌then◌else◌, Result, ok, ◌>>◌, assert,
  put_name, erase_name,
}
use wally_io.Protocol.{QoS, qos_value}
use wally_io.Topic.{topic_filter_matches_topic}
use wally_io.Packet.{Publish, Subscription, Subscribe}
use wally_io.Packet.PublishPacket.{retain}

-- `messages_`
abbrev pub RetainedMessages : Type 0
RetainedMessages = List (Bytes × Publish)

unfoldable pub retain_message : Publish → RetainedMessages → Result RetainedMessages
unfolding retain
retain_message incoming_publish messages =
    assert (retain incoming_publish)
    >> ok (
        if ltb 0 (length incoming_publish.application_message)
        then put_name incoming_publish.topic incoming_publish messages
        else erase_name incoming_publish.topic messages)

-- `resolved_publish_t`. Its pointers are compared by the topic: each message stands under its own.
abbrev pub ResolvedPublish : Type 0
ResolvedPublish = Publish × QoS

-- The message gets the greater QoS; one that is not there is appended.
unfoldable pub resolve_message : Publish → QoS → List ResolvedPublish → List ResolvedPublish
resolve_message publish maximum_qos [] = (publish, maximum_qos) ∷ []
resolve_message publish maximum_qos ((seen, seen_qos) ∷ resolved) =
    if same_bytes seen.topic publish.topic
    then (seen, if ltb (qos_value seen_qos) (qos_value maximum_qos) then maximum_qos else seen_qos)
      ∷ resolved
    else (seen, seen_qos) ∷ resolve_message publish maximum_qos resolved

-- The inner loop, over the subscriptions.
unfoldable pub resolve_subscriptions :
    Bytes → Publish → List Subscription → List ResolvedPublish → List ResolvedPublish
resolve_subscriptions topic publish [] resolved = resolved
resolve_subscriptions topic publish (subscr ∷ subscrs) resolved =
    if not (topic_filter_matches_topic subscr.topic_filter topic)
    then resolve_subscriptions topic publish subscrs resolved
    else resolve_subscriptions topic publish subscrs
        (resolve_message publish subscr.maximum_qos resolved)

-- The outer loop, over the messages.
unfoldable pub resolve_messages :
    RetainedMessages → List Subscription → List ResolvedPublish → List ResolvedPublish
unfolding resolve_subscriptions
resolve_messages [] subscrs resolved = resolved
resolve_messages ((topic, publish) ∷ messages) subscrs resolved =
    resolve_messages messages subscrs (resolve_subscriptions topic publish subscrs resolved)

unfoldable pub messages_for : Subscribe → RetainedMessages → List ResolvedPublish
messages_for incoming_subscribe messages =
    resolve_messages messages incoming_subscribe.subscriptions []

unfoldable pub size : RetainedMessages → ℕ
size messages = length messages
