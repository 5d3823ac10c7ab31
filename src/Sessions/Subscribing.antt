-- ===== src/Sessions/Subscribing.antt =====
-- A SUBSCRIBE and the retained messages that it is answered with (`client_subscribed` of
-- dispatch/mqtt_client_session_manager.cpp).
use wally_io.Prelude.{
  ℕ, ◌≡◌, ◌≢◌, refl, ap, ◌∙◌, inl, inr, Bytes, List, [], ◌∷◌, ◌++◌, true, false, ltb, length,
  Bool-cases, if◌then◌else◌, All, Option, none, some, ok, same_bytes, same_bytes_refl, find_name,
  replace_name, erase_name, Named, find_name-Named, find_name-replace_other,
  find_name-replace_absent, find_name-erase_same, Named-weaken, ◌⊎◌, Named-replace, Named-erase,
}
use wally_io.Protocol.{reserved}
use wally_io.Packet.{Publish, Subscribe, MqttPacket, succeed}
use wally_io.Encoder.Publications.{IsRelayable}
use wally_io.Subscriptions.{subscribe}
use wally_io.Subscriptions.Changes.{subscribe_lem}
use wally_io.Subscriptions.Resolve.{granted, IsOnce}
use wally_io.Tx.{send}
use wally_io.Tx.Table.Deliveries.{IsCopy}
use wally_io.Tx.Table.Identifiers.{HasRoomFor, HasRoomFor-HasRoom, HasRoomFor-IsGrown}
use wally_io.Retained.{RetainedMessages, ResolvedPublish, messages_for}
use wally_io.Retained.Matching.{topics}
use wally_io.Retained.Answers.{messages_for_lem}
use wally_io.Retained.Store.{IsRetained}
use wally_io.Sessions.{Senders, Session, SessionManager, Output, session_send, destroy}
use wally_io.Sessions.Manager.{publish_retained, client_subscribed}
use wally_io.Sessions.Delivery.{
  IsSession, sent_on, sent_on-append, connection_of, Receipt, session_publish_lem,
}
use wally_io.Subscriptions.Unreserved.{unreserved-emplace_all}
use wally_io.Retained.Unreserved.{unreserved-topics, unreserved-resolve_messages}
use wally_io.Sessions.Invariant.{IsManager, IsStored}

-- A client gets the messages in order, each with its QoS.
abbrev pub IsAnswered : Option ℕ → List ResolvedPublish → List (ℕ × Publish) → Type 0
IsAnswered to [] out = out ≡ []
IsAnswered to ((p, q) ∷ resolved) out =
    (first : List (ℕ × Publish)) × (later : List (ℕ × Publish)) × (out ≡ first ++ later)
    × Receipt p q to first
    × IsAnswered to resolved later

IsStored-copy :
    (topic : Bytes) (p p' : Publish)
    → IsStored topic p
    → IsCopy p p'
    → IsRelayable p'
    → IsStored topic p'
IsStored-copy topic p p' ((own, kept, there), _) c relayable =
    ((c.topic ∙ own, c.retain ∙ kept, ap (λ x. ltb 0 (length x)) c.message ∙ there), relayable)

found-replace :
    (p p' : Publish) (messages : RetainedMessages) (resolved : List ResolvedPublish)
    → granted p.topic (topics resolved) ≡ none
    → All (λ r. find_name r.0.topic messages ≡ some r.0) resolved
    → All (λ r. find_name r.0.topic (replace_name p.topic p' messages) ≡ some r.0) resolved
found-replace p p' messages [] fresh h = tt
found-replace p p' messages ((x, q) ∷ resolved) fresh (h, hs) =
    elim (Bool-cases (same_bytes x.topic p.topic)) [
      | inl same ↦ cc (rw same at fresh)
      | inr other ↦
          let ne : p.topic ≢ x.topic =
            λ e. cc (other, same_bytes_refl x.topic, ap (same_bytes x.topic) e) in
          (
            find_name-replace_other p.topic x.topic p' messages ne ∙ h,
            found-replace p p' messages resolved (rw other at fresh) hs,
          )
    ]

module _ (senders : Senders) where
  publish_retained_lem :
      (key : Bytes) (resolved : List ResolvedPublish) (s : Session) (messages : RetainedMessages)
      → IsSession key s
      → Named IsStored messages
      → IsOnce (topics resolved)
      → All (λ r. r.1 ≢ reserved) resolved
      → All (λ r. find_name r.0.topic messages ≡ some r.0) resolved
      → HasRoomFor (length resolved) s.tx
      → (r : Session × RetainedMessages × Output) × (publish_retained senders resolved s messages
          ≡ ok r)
        × IsSession key r.0
        × Named IsStored r.1
        × IsAnswered (connection_of senders s) resolved (sent_on r.2)
  unfolding publish_retained
  publish_retained_lem key [] s messages valid stored once m found room =
      ((s, messages, []), refl, valid, stored, refl)
  publish_retained_lem key ((p, q) ∷ resolved) s messages valid stored (fresh, once) (m, ms)
        (found, founds) room =
      let is_stored = find_name-Named IsStored p.topic p messages stored found in
      let free = HasRoomFor-HasRoom (length resolved) s.tx room.free in
      let (r, e, valid_r, grown, same, relayable, copy, receipt) =
        session_publish_lem senders p q key s valid free is_stored.1 m in
      let messages' = replace_name p.topic r.1 messages in
      let same_connection : connection_of senders r.0 ≡ connection_of senders s =
        ap (λ c. if senders.is_there c then some c else none) same in
      let (rest, e', valid', stored', answered) =
        publish_retained_lem key resolved r.0 messages' valid_r
          (Named-replace IsStored p.topic r.1 messages
            (IsStored-copy p.topic p r.1 is_stored copy relayable) stored)
          once ms (found-replace p r.1 messages resolved fresh founds)
          (HasRoomFor-IsGrown (length resolved) s.tx r.0.tx grown room) in
      (
        (rest.0, rest.1, r.2 ++ rest.2),
        rw (publish_retained, is_stored.0.1, e, e'),
        valid',
        stored',
        (
          sent_on r.2,
          sent_on rest.2,
          sent_on-append r.2 rest.2,
          receipt,
          rw same_connection at answered,
        ),
      )

  -- In a well-formed state: a SUBSCRIBE with unreserved QoS, from a client with a session and
  -- with free packet identifiers for all the retained messages that match: the subscriptions
  -- become those of `subscribe`. If the client is connected it gets the SUBACK first and then
  -- each of the messages that are resolved for the SUBSCRIBE, in order and with its QoS; else its
  -- session is removed. The state stays well formed.
  pub client_subscribed_lem :
      (client : Bytes) (s : Session) (packet : Subscribe) (m : SessionManager)
      → let resolved = messages_for packet m.retained_messages in
        IsManager m
        → find_name client m.sessions ≡ some s
        → All (λ t. t.maximum_qos ≢ reserved) packet.subscriptions
        → HasRoomFor (length resolved) s.tx
        → (m' : SessionManager) × (output : Output) × (client_subscribed senders client packet m
            ≡ ok (m', output))
          × IsManager m'
          × (m'.subscriptions ≡ (subscribe client packet m.subscriptions).0)
          × ((senders.is_there s.connection ≡ true)
                × ((rest : Output) × (output
                      ≡ (s.connection, send (MqttPacket.suback (succeed packet))) ∷ rest)
                    × IsAnswered (some s.connection) resolved (sent_on rest))
              ⊎ ((senders.is_there s.connection ≡ false) × (find_name client m'.sessions ≡ none)))
  unfolding client_subscribed session_send destroy messages_for subscribe
  client_subscribed_lem client s packet m v found ms room =
      let resolved = messages_for packet m.retained_messages in
      let retained : Named IsRetained m.retained_messages =
        Named-weaken m.retained_messages (λ k a h. h.0) v.retained in
      let (once, founds, _) = messages_for_lem packet m.retained_messages [] retained in
      let unreserved =
        unreserved-topics resolved (
          unreserved-resolve_messages m.retained_messages packet.subscriptions [] retained ms tt) in
      let valid = find_name-Named IsSession client s m.sessions v.sessions found in
      let (r, e, valid', stored, answered) =
        publish_retained_lem client resolved s m.retained_messages valid v.retained once unreserved
          founds room in
      let subscriptions = (subscribe client packet m.subscriptions).0 in
      let (distinct, _, _, _) = subscribe_lem client packet m.subscriptions v.distinct in
      let unreserved' =
        unreserved-emplace_all client packet.subscriptions m.subscriptions ms v.unreserved in
      elim (Bool-cases (senders.is_there s.connection)) [
        | inl there ↦ (
          record {
            sessions = replace_name client r.0 m.sessions;
            subscriptions = subscriptions;
            retained_messages = r.1;
          },
          (s.connection, send (MqttPacket.suback (succeed packet))) ∷ r.2,
          rw (client_subscribed, found, there, e),
          record {
            sessions = Named-replace IsSession client r.0 m.sessions valid' v.sessions;
            distinct = distinct;
            unreserved = unreserved';
            retained = stored;
          },
          refl,
          inl (there, (r.2, refl, rw there at answered)),
        )
        | inr gone ↦
            let removed = Named-erase IsSession s.client_id m.sessions v.sessions in
            let absent : find_name client (erase_name s.client_id m.sessions) ≡ none =
              rw (← valid.0) (find_name-erase_same s.client_id m.sessions) in
            (
              record {
                sessions = replace_name client r.0 (erase_name s.client_id m.sessions);
                subscriptions = subscriptions;
                retained_messages = r.1;
              },
              r.2,
              rw (client_subscribed, found, gone, e),
              record {
                sessions = Named-replace IsSession client r.0 _ valid' removed;
                distinct = distinct;
                unreserved = unreserved';
                retained = stored;
              },
              refl,
              inr (gone, find_name-replace_absent client r.0 _ absent),
            )
      ]
