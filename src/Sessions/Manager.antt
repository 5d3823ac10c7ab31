-- ===== src/Sessions/Manager.antt =====
-- The handlers of `mqtt_client_session_manager` (dispatch/mqtt_client_session_manager.cpp).
use wally_io.Prelude.{
  ℕ, Bytes, List, [], ◌∷◌, ◌++◌, true, false, if◌then◌else◌, none, some, length, Result, ok, err,
  ◌>>=◌, ◌>>◌, assert, find_name, replace_name, erase_name, assertion_failed,
}
use wally_io.Packet.{Connect, Publish, PublishAck, Subscribe, Unsubscribe, MqttPacket}
use wally_io.Packet.PublishPacket.{retain, set_retain}
use wally_io.Subscriptions.{subscribe, unsubscribe}
use wally_io.Retained.{RetainedMessages, ResolvedPublish, retain_message, messages_for}
use wally_io.Sessions.{
  Senders, Session, SessionManager, Output, make_session, session_send, session_publish,
  session_client_sent_publish, session_response_received, session_client_released_publish,
  session_disconnected_ungracefully,
}

-- `session_store::insert`: nothing changes if there is a session with that identifier.
unfoldable pub client_connected : Senders → Connect → ℕ → SessionManager → Result SessionManager
unfolding make_session
client_connected senders connect connection manager =
    if senders.is_there connection
    then elim (senders.client_id connection) [
      | none ↦ err assertion_failed
      | some client_id ↦ elim (find_name client_id manager.sessions) [
        | none ↦ ok (record manager {
          sessions = (client_id, make_session connect connection) ∷ manager.sessions;
        })
        | some session ↦ ok manager
      ]
    ]
    else ok manager

-- `session_store::remove`
unfoldable pub client_disconnected : Bytes → SessionManager → SessionManager
client_disconnected client_id manager = record manager {
  sessions = erase_name client_id manager.sessions;
}

-- The loop over the retained messages. Each is shared with the store, and may change there.
unfoldable pub publish_retained :
    Senders
    → List ResolvedPublish
    → Session
    → RetainedMessages
    → Result (Session × RetainedMessages × Output)
unfolding session_publish retain
publish_retained senders [] session messages = ok (session, messages, [])
publish_retained senders ((p, maximum_qos) ∷ resolved) session messages =
    assert (retain p)
    >> (session_publish senders p maximum_qos session >>= λ r.
        publish_retained senders resolved r.0 (replace_name p.topic r.1 messages) >>= λ rest.
        ok (rest.0, rest.1, r.2 ++ rest.2))

unfoldable pub client_subscribed :
    Senders → Bytes → Subscribe → SessionManager → Result (SessionManager × Output)
unfolding subscribe session_send messages_for publish_retained
client_subscribed senders client_id packet manager =
    let (subscriptions, suback) = subscribe client_id packet manager.subscriptions in
    let subscribed = record manager { subscriptions = subscriptions } in
    elim (find_name client_id manager.sessions) [
      | none ↦ ok (subscribed, [])
      | some session ↦
          let (answered, output) =
            session_send senders (MqttPacket.suback suback) session subscribed in
          let resolved = messages_for packet manager.retained_messages in
          publish_retained senders resolved session manager.retained_messages >>= λ r. ok (
            record answered {
              sessions = replace_name client_id r.0 answered.sessions;
              retained_messages = r.1;
            },
            output ++ r.2,
          )
    ]

unfoldable pub client_unsubscribed :
    Senders → Bytes → Unsubscribe → SessionManager → SessionManager × Output
unfolding unsubscribe session_send
client_unsubscribed senders client_id packet manager =
    let (subscriptions, unsuback) = unsubscribe client_id packet manager.subscriptions in
    let unsubscribed = record manager { subscriptions = subscriptions } in
    elim (find_name client_id manager.sessions) [
      | none ↦ (unsubscribed, [])
      | some session ↦ session_send senders (MqttPacket.unsuback unsuback) session unsubscribed
    ]

unfoldable pub client_published :
    Senders → Bytes → Publish → SessionManager → Result (SessionManager × Output)
unfolding retain set_retain session_client_sent_publish retain_message
client_published senders client_id incoming_publish manager =
    elim (find_name client_id manager.sessions) [
      | none ↦ ok (manager, [])
      | some session ↦
          (if retain incoming_publish
            then (session_client_sent_publish senders client_id (set_retain false incoming_publish)
                  session manager
                >>= λ r. retain_message (set_retain true r.1) r.0.retained_messages >>= λ messages.
                    ok (record r.0 { retained_messages = messages }, r.2))
            else (session_client_sent_publish senders client_id incoming_publish session manager
                >>= λ r. ok (r.0, r.2)))
    ]

-- A handler that passes an acknowledgement to a session.
abbrev pub with_session :
    (Session → Result (Session × Output))
    → Bytes
    → SessionManager
    → Result (SessionManager × Output)
with_session handle client_id manager = elim (find_name client_id manager.sessions) [
  | none ↦ ok (manager, [])
  | some session ↦
      (handle session >>= λ r.
      ok (record manager { sessions = replace_name client_id r.0 manager.sessions }, r.1))
]

unfoldable pub client_acked_publish :
    Senders → Bytes → PublishAck → SessionManager → Result (SessionManager × Output)
unfolding session_response_received
client_acked_publish senders client_id puback =
    with_session (session_response_received senders puback) client_id

unfoldable pub client_received_publish :
    Senders → Bytes → PublishAck → SessionManager → Result (SessionManager × Output)
unfolding session_response_received
client_received_publish senders client_id pubrec =
    with_session (session_response_received senders pubrec) client_id

unfoldable pub client_completed_publish :
    Senders → Bytes → PublishAck → SessionManager → Result (SessionManager × Output)
unfolding session_response_received
client_completed_publish senders client_id pubcomp =
    with_session (session_response_received senders pubcomp) client_id

unfoldable pub client_released_publish :
    Senders → Bytes → PublishAck → SessionManager → Result (SessionManager × Output)
unfolding session_client_released_publish
client_released_publish senders client_id pubrel =
    with_session (session_client_released_publish senders pubrel) client_id

-- The session is removed first, so that it does not get its own last will.
unfoldable pub client_disconnected_ungracefully :
    Senders → Bytes → SessionManager → Result (SessionManager × Output)
unfolding session_disconnected_ungracefully
client_disconnected_ungracefully senders client_id manager =
    elim (find_name client_id manager.sessions) [
      | none ↦ ok (manager, [])
      | some session ↦
          let removed = record manager { sessions = erase_name client_id manager.sessions } in
          session_disconnected_ungracefully senders session removed
    ]

unfoldable pub connected_clients_count : SessionManager → ℕ
connected_clients_count manager = length manager.sessions

unfoldable pub destroy_all : SessionManager → SessionManager
destroy_all manager = record manager { sessions = [] }
