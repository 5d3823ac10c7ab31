-- ===== src/Sessions/Acknowledgements.antt =====
-- What the sessions pass to the tables of their publications (`client_acked_publish`,
-- `client_received_publish`, `client_completed_publish`, `client_released_publish` and
-- `client_unsubscribed` of dispatch/mqtt_client_session_manager.cpp).
use wally_io.Prelude.{
  ◌≡◌, ◌≢◌, inl, inr, Bytes, [], ◌∷◌, true, Bool-cases, Option-cases, All-filter, some, Result, ok,
  find_key, find_name, replace_name, find_name-Named, Named-replace, Named-erase,
}
use wally_io.Protocol.{reserved}
use wally_io.Packet.{PublishAck, Unsubscribe}
use wally_io.Subscriptions.{unsubscribe}
use wally_io.Subscriptions.Changes.{unsubscribe_lem}
use wally_io.Tx.{stop, ack_type}
use wally_io.Tx.Table as Tx
use wally_io.Tx.Table.{TxEntry, TxInFlight}
use wally_io.Tx.Table.Entries.{expects, is_ack}
use wally_io.Tx.Table.Responses.{response_received_lem}
use wally_io.Rx.Table as Rx
use wally_io.Rx.Events.{client_sent_pubrel_lem}
use wally_io.Sessions.{
  Senders, Session, SessionManager, Output, on, session_send, session_response_received,
  session_client_released_publish, destroy,
}
use wally_io.Sessions.Manager.{with_session, client_unsubscribed}
use wally_io.Sessions.Delivery.{IsSession}
use wally_io.Sessions.Invariant.{IsManager}

-- A handler succeeds, and the state stays as it is to be.
abbrev pub IsHandled : Result (SessionManager × Output) → Type 0
IsHandled result =
    (m : SessionManager) × (output : Output) × (result ≡ ok (m, output)) × IsManager m

-- Is taken by the publication that it is for, if there is one.
abbrev pub IsExpected : PublishAck → TxInFlight → Type 0
IsExpected ack table =
    (entry : TxEntry)
    → find_key ack.packet_identifier table.publications ≡ some entry
    → expects entry (ack_type ack) ≡ true

pub with_session-IsHandled :
    (handle : Session → Result (Session × Output)) (client : Bytes) (m : SessionManager)
    → IsManager m
    → ((s : Session)
        → find_name client m.sessions ≡ some s
        → (s' : Session) × (output : Output) × (handle s ≡ ok (s', output)) × IsSession client s')
    → IsHandled (with_session handle client m)
with_session-IsHandled handle client m v h = elim (Option-cases (find_name client m.sessions)) [
  | inl absent ↦ (m, [], rw (with_session, absent), v)
  | inr (s, found) ↦
      let (s', output, e, valid) = h s found in
      (
        record m { sessions = replace_name client s' m.sessions },
        output,
        rw (with_session, found, e),
        record {
          sessions = Named-replace IsSession client s' m.sessions valid v.sessions;
          distinct = v.distinct;
          unreserved = v.unreserved;
          retained = v.retained;
        },
      )
]

module _ (senders : Senders) (client : Bytes) (m : SessionManager) (v : IsManager m) where
  pub session_response_received-IsHandled :
      (ack : PublishAck)
      → is_ack (ack_type ack) ≡ true
      → ((s : Session) → find_name client m.sessions ≡ some s → IsExpected ack s.tx)
      → IsHandled (with_session (session_response_received senders ack) client m)
  unfolding session_response_received Tx.response_received
  session_response_received-IsHandled ack is expected =
      with_session-IsHandled (session_response_received senders ack) client m v (λ s found.
        let (own, tx_valid, rx_valid) =
          find_name-Named IsSession client s m.sessions v.sessions found in
        elim (Bool-cases (senders.is_there s.connection)) [
          | inr gone ↦ (
            s,
            [],
            rw (session_response_received, Tx.response_received, is, gone),
            (own, tx_valid, rx_valid),
          )
          | inl there ↦ elim (response_received_lem ack s.tx tx_valid is) [
            | inr (absent, e) ↦ (
              s,
              on s.connection (stop ∷ []),
              rw (session_response_received, there, e),
              (own, tx_valid, rx_valid),
            )
            | inl (entry, present, outcome) ↦ elim outcome [
              | inl (taken, (table, effects, e, valid)) ↦ (
                record s { tx = table },
                on s.connection effects,
                rw (session_response_received, there, e),
                (own, valid, rx_valid),
              )
              | inr (refused, e) ↦ cc (refused, expected s found entry present)
            ]
          ]
        ])

  pub session_client_released_publish-IsHandled :
      (pubrel : PublishAck)
      → IsHandled (with_session (session_client_released_publish senders pubrel) client m)
  unfolding session_client_released_publish Rx.client_sent_pubrel
  session_client_released_publish-IsHandled pubrel =
      with_session-IsHandled (session_client_released_publish senders pubrel) client m v (λ s found.
        let (own, tx_valid, rx_valid) =
          find_name-Named IsSession client s m.sessions v.sessions found in
        elim (Bool-cases (senders.is_there s.connection)) [
          | inr gone ↦ (
            s,
            [],
            rw (session_client_released_publish, Rx.client_sent_pubrel, gone),
            (own, tx_valid, rx_valid),
          )
          | inl there ↦
              let (table, effects, e, valid, _) = client_sent_pubrel_lem pubrel s.rx rx_valid in
              (
                record s { rx = table },
                on s.connection effects,
                rw (session_client_released_publish, there, e),
                (own, tx_valid, valid),
              )
        ])

  pub client_unsubscribed-IsManager :
      (packet : Unsubscribe) → IsManager (client_unsubscribed senders client packet m).0
  unfolding client_unsubscribed session_send destroy unsubscribe
  client_unsubscribed-IsManager packet =
      let (distinct, _, _) = unsubscribe_lem client packet m.subscriptions v.distinct in
      let unreserved = All-filter (λ s. s.maximum_qos ≢ reserved) _ m.subscriptions v.unreserved in
      let kept : IsManager
          (record m { subscriptions = (unsubscribe client packet m.subscriptions).0 }) =
        record {
          sessions = v.sessions;
          distinct = distinct;
          unreserved = unreserved;
          retained = v.retained;
        } in
      elim (Option-cases (find_name client m.sessions)) [
        | inl absent ↦ rw (client_unsubscribed, absent) kept
        | inr (s, found) ↦ elim (Bool-cases (senders.is_there s.connection)) [
          | inl there ↦ rw (client_unsubscribed, found, there) kept
          | inr gone ↦
              rw (client_unsubscribed, found, gone)
                (record {
                  sessions = Named-erase IsSession s.client_id m.sessions v.sessions;
                  distinct = distinct;
                  unreserved = unreserved;
                  retained = v.retained;
                })
        ]
      ]
