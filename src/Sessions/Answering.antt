-- ===== src/Sessions/Answering.antt =====
-- What the answers to SUBSCRIBE and UNSUBSCRIBE send can be encoded
-- (dispatch/mqtt_client_session_manager.cpp).
use wally_io.Prelude.{
  arith, suc, ap, ◌+◌, ◌≤◌, ◌≡◌, ◌≢◌, refl, inl, inr, Bytes, List, [], ◌∷◌, ◌++◌, map, length,
  Option-cases, All, All-weaken, assert, find_name, replace_name, Named, find_name-Named,
  Named-replace, Named-weaken, Yields, ok-Yields, bind-Yields, chain-Yields,
}
use wally_io.Protocol.{
  QoS, at_most_once, at_least_once, exactly_once, reserved, max_allowed_packet_length,
}
use wally_io.Packet.{
  Subscription, Subscribe, Unsubscribe, SubackReturnCode, MqttPacket, succeed, succeed_code,
}
use wally_io.Packet.PublishPacket.{retain}
use wally_io.Encoder.Lengths.{IsSendable}
use wally_io.Encoder.Publications.{IsRelayable}
use wally_io.Subscriptions.{subscribe, unsubscribe}
use wally_io.Retained.{RetainedMessages, ResolvedPublish, messages_for}
use wally_io.Retained.Store.{IsRetained}
use wally_io.Retained.Answers.{messages_for_lem}
use wally_io.Sessions.{Senders, Session, SessionManager, Output, session_send, session_publish}
use wally_io.Sessions.Manager.{publish_retained, client_subscribed, client_unsubscribed}
use wally_io.Sessions.Invariant.{IsManager, IsStored}
use wally_io.Sessions.Sendable.{
  IsStocked, AreStocked, OutputSends, ManagerSends, PublishSends, OutputSends-append,
  session_publish-Yields, session_send-AreStocked, session_send-OutputSends,
}

-- The SUBACK has room for all return codes.
abbrev pub IsShort : Subscribe → Type 0
IsShort packet = 2 + length packet.subscriptions ≤ max_allowed_packet_length

abbrev RetainedSends : Session × RetainedMessages × Output → Type 0
RetainedSends r = IsStocked r.0 × OutputSends r.2

abbrev pub SubscribedSends : Subscribe → SessionManager × Output → Type 0
SubscribedSends packet r = AreStocked r.0.sessions × (IsShort packet → OutputSends r.1)

answer-length :
    (subscriptions : List Subscription)
    → length (map (λ t. succeed_code t.maximum_qos) subscriptions) ≡ length subscriptions
answer-length [] = refl
answer-length (t ∷ subscriptions) = ap suc (answer-length subscriptions)

succeed_code-IsCode : (q : QoS) → succeed_code q ≢ SubackReturnCode.reserved_code
succeed_code-IsCode at_most_once e = cc e
succeed_code-IsCode at_least_once e = cc e
succeed_code-IsCode exactly_once e = cc e
succeed_code-IsCode reserved e = cc e

answer-IsCode :
    (subscriptions : List Subscription)
    → All
        (λ rc. rc ≢ SubackReturnCode.reserved_code)
        (map (λ t. succeed_code t.maximum_qos) subscriptions)
answer-IsCode [] = tt
answer-IsCode (t ∷ subscriptions) = (succeed_code-IsCode t.maximum_qos, answer-IsCode subscriptions)

suback-IsSendable :
    (packet : Subscribe) → IsShort packet → IsSendable (MqttPacket.suback (succeed packet))
unfolding succeed
suback-IsSendable packet small =
    IsSendable.suback packet.packet_identifier _ (answer-IsCode packet.subscriptions)
      (omega (arith, answer-length packet.subscriptions, small))

messages_for-AreRelayable :
    (packet : Subscribe) (messages : RetainedMessages)
    → Named IsStored messages
    → All (λ r. IsRelayable r.0) (messages_for packet messages)
messages_for-AreRelayable packet messages stored =
    let retained : Named IsRetained messages = Named-weaken messages (λ k a h. h.0) stored in
    let (_, founds, _) = messages_for_lem packet messages [] retained in
    All-weaken (messages_for packet messages)
      (λ r found. (find_name-Named IsStored r.0.topic r.0 messages stored found).1) founds

module _ (senders : Senders) where
  publish_retained-Yields :
      (resolved : List ResolvedPublish) (s : Session) (messages : RetainedMessages)
      → All (λ r. IsRelayable r.0) resolved
      → IsStocked s
      → Yields RetainedSends (publish_retained senders resolved s messages)
  unfolding publish_retained
  publish_retained-Yields [] s messages rs stocked =
      ok-Yields RetainedSends (s, messages, []) (stocked, tt)
  publish_retained-Yields ((p, q) ∷ resolved) s messages (r, rs) stocked =
      bind-Yields (assert (retain p)) (λ _ _.
        chain-Yields PublishSends (session_publish senders p q s)
          (session_publish-Yields senders p q s r stocked)
          (λ t (kept, _, sends).
            let messages' = replace_name p.topic t.1 messages in
            chain-Yields RetainedSends (publish_retained senders resolved t.0 messages')
              (publish_retained-Yields resolved t.0 messages' rs kept)
              (λ rest (kept', sends').
                ok-Yields RetainedSends (rest.0, rest.1, t.2 ++ rest.2)
                  (kept', OutputSends-append t.2 rest.2 sends sends'))))

  pub client_subscribed-Yields :
      (client : Bytes) (packet : Subscribe) (m : SessionManager)
      → IsManager m
      → AreStocked m.sessions
      → Yields (SubscribedSends packet) (client_subscribed senders client packet m)
  unfolding client_subscribed subscribe
  client_subscribed-Yields client packet m v stocked =
      let P = SubscribedSends packet in
      let subscribed : SessionManager = record m {
        subscriptions = (subscribe client packet m.subscriptions).0;
      } in
      elim (Option-cases (find_name client m.sessions)) [
        | inl absent ↦
            rw (client_subscribed, absent) (ok-Yields P (subscribed, []) (stocked, λ _. tt))
        | inr (s, found) ↦
            let own = find_name-Named (λ k. IsStocked) client s m.sessions stocked found in
            let suback = MqttPacket.suback (succeed packet) in
            let left = session_send-AreStocked senders suback s subscribed stocked in
            let sent : IsShort packet → OutputSends (session_send senders suback s subscribed).1 =
              λ short.
                session_send-OutputSends senders suback s subscribed
                  (suback-IsSendable packet short) in
            let answer = session_send senders suback s subscribed in
            let resolved = messages_for packet m.retained_messages in
            rw (client_subscribed, found)
              (chain-Yields RetainedSends (publish_retained senders resolved s m.retained_messages)
                (publish_retained-Yields resolved s m.retained_messages
                  (messages_for-AreRelayable packet m.retained_messages v.retained) own)
                (λ r (kept, sends).
                  ok-Yields P
                    (
                      record answer.0 {
                        sessions = replace_name client r.0 answer.0.sessions;
                        retained_messages = r.1;
                      },
                      answer.1 ++ r.2,
                    )
                    (
                      Named-replace (λ k. IsStocked) client r.0 answer.0.sessions kept left,
                      λ short. OutputSends-append answer.1 r.2 (sent short) sends,
                    )))
      ]

  pub client_unsubscribed-Sends :
      (client : Bytes) (packet : Unsubscribe) (m : SessionManager)
      → AreStocked m.sessions
      → ManagerSends (client_unsubscribed senders client packet m)
  unfolding client_unsubscribed unsubscribe
  client_unsubscribed-Sends client packet m stocked =
      elim (Option-cases (find_name client m.sessions)) [
        | inl absent ↦ rw (client_unsubscribed, absent) (stocked, tt)
        | inr (s, found) ↦
            let unsubscribed : SessionManager = record m {
              subscriptions = (unsubscribe client packet m.subscriptions).0;
            } in
            rw (client_unsubscribed, found)
              (
                session_send-AreStocked senders _ s unsubscribed stocked,
                session_send-OutputSends senders _ s unsubscribed
                    (IsSendable.unsuback packet.packet_identifier),
              )
      ]
