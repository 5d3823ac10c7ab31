-- ===== src/Sessions/Sending.antt =====
-- What the handlers of the sessions send can be encoded (dispatch/mqtt_client_session_manager.cpp).
use wally_io.Prelude.{
  ℕ, ◌≡◌, refl, inl, inr, Bytes, [], true, false, Option-cases, Option, none, some, Result,
  find_name, replace_name, find_name-Named, Named-replace, Named-erase, Yields, ok-Yields,
  bind-Yields, chain-Yields, if-Yields,
}
use wally_io.Packet.{Connect, Publish, PublishAck, last_will_qos}
use wally_io.Packet.PublishPacket.{retain, set_retain}
use wally_io.Encoder.Publications.{IsRelayable}
use wally_io.Encoder.Retention.{set_retain_lem, create_lem}
use wally_io.Retained.{retain_message}
use wally_io.Tx.Resent.{TableSends, response_received-Yields}
use wally_io.Tx.Table as Tx
use wally_io.Rx.Table as Rx
use wally_io.Rx.Sendable.{AnswersSend, client_sent_pubrel-Yields}
use wally_io.Sessions.{
  Senders, Session, SessionManager, Output, on, make_session, session_client_sent_publish,
  session_response_received, session_client_released_publish, session_disconnected_ungracefully,
  lwt_publish, publish,
}
use wally_io.Sessions.Manager.{
  client_connected, client_published, with_session, client_disconnected_ungracefully,
}
use wally_io.Sessions.Departures.{IsWillOf, without, will_of}
use wally_io.Sessions.Sendable.{
  IsStocked, AreStocked, SessionSends, ManagerSends, ManagerPublishes, on-OutputSends,
  publish-Yields, session_client_sent_publish-Yields,
}

pub with_session-Yields :
    (handle : Session → Result (Session × Output)) (client : Bytes) (m : SessionManager)
    → AreStocked m.sessions
    → ((s : Session) → IsStocked s → Yields SessionSends (handle s))
    → Yields ManagerSends (with_session handle client m)
with_session-Yields handle client m stocked h = elim (Option-cases (find_name client m.sessions)) [
  | inl absent ↦ rw (with_session, absent) (ok-Yields ManagerSends (m, []) (stocked, tt))
  | inr (s, found) ↦
      let own = find_name-Named (λ k. IsStocked) client s m.sessions stocked found in
      rw (with_session, found)
        (chain-Yields SessionSends (handle s) (h s own) (λ r (kept, sends).
          ok-Yields ManagerSends (record m { sessions = replace_name client r.0 m.sessions }, r.1)
            (Named-replace (λ k. IsStocked) client r.0 m.sessions kept stocked, sends)))
]

module _ (senders : Senders) where
  pub session_response_received-Yields :
      (ack : PublishAck) (s : Session)
      → IsStocked s
      → Yields SessionSends (session_response_received senders ack s)
  unfolding session_response_received
  session_response_received-Yields ack s stocked =
      let there = senders.is_there s.connection in
      chain-Yields TableSends (Tx.response_received there ack s.tx)
        (response_received-Yields there ack s.tx stocked)
        (λ r (kept, sends).
          ok-Yields SessionSends (record s { tx = r.0 }, on s.connection r.1)
            (kept, on-OutputSends s.connection r.1 sends))

  pub session_client_released_publish-Yields :
      (pubrel : PublishAck) (s : Session)
      → IsStocked s
      → Yields SessionSends (session_client_released_publish senders pubrel s)
  unfolding session_client_released_publish
  session_client_released_publish-Yields pubrel s stocked =
      let there = senders.is_there s.connection in
      chain-Yields AnswersSend (Rx.client_sent_pubrel there pubrel s.rx)
        (client_sent_pubrel-Yields there pubrel s.rx)
        (λ r sends.
          ok-Yields SessionSends (record s { rx = r.0 }, on s.connection r.1)
            (stocked, on-OutputSends s.connection r.1 sends))

  pub client_published-Yields :
      (client : Bytes) (p : Publish) (m : SessionManager)
      → AreStocked m.sessions
      → IsRelayable p
      → Yields ManagerSends (client_published senders client p m)
  unfolding client_published
  client_published-Yields client p m stocked r = elim (Option-cases (find_name client m.sessions)) [
    | inl absent ↦ rw (client_published, absent) (ok-Yields ManagerSends (m, []) (stocked, tt))
    | inr (s, found) ↦
        let own = find_name-Named (λ k. IsStocked) client s m.sessions stocked found in
        let bare = set_retain false p in
        let (bare_r, _, _, _) = set_retain_lem false p r in
        rw (client_published, found)
          (if-Yields (retain p)
            (chain-Yields ManagerPublishes (session_client_sent_publish senders client bare s m)
              (session_client_sent_publish-Yields senders client bare s m bare_r own stocked)
              (λ t (kept, _, sends).
                bind-Yields (retain_message (set_retain true t.1) t.0.retained_messages)
                  (λ messages _.
                    ok-Yields ManagerSends (record t.0 { retained_messages = messages }, t.2)
                      (kept, sends))))
            (chain-Yields ManagerPublishes (session_client_sent_publish senders client p s m)
              (session_client_sent_publish-Yields senders client p s m r own stocked)
              (λ t (kept, _, sends). ok-Yields ManagerSends (t.0, t.2) (kept, sends))))
  ]

  pub client_connected-Yields :
      (connect : Connect) (connection : ℕ) (m : SessionManager)
      → AreStocked m.sessions
      → Yields (λ m'. AreStocked m'.sessions) (client_connected senders connect connection m)
  unfolding client_connected make_session
  client_connected-Yields connect connection m stocked =
      if-Yields (senders.is_there connection)
        (elim (Option-cases (senders.client_id connection)) [
          | inl unnamed ↦ rw unnamed (λ a e. cc e)
          | inr (id, named) ↦ elim (Option-cases (find_name id m.sessions)) [
            | inl absent ↦
                rw (named, absent)
                  (ok-Yields (λ (m' : SessionManager). AreStocked m'.sessions) _
                    (absent, tt, stocked))
            | inr (s, found) ↦
                rw (named, found)
                  (ok-Yields (λ (m' : SessionManager). AreStocked m'.sessions) m stocked)
          ]
        ])
        (ok-Yields (λ (m' : SessionManager). AreStocked m'.sessions) m stocked)

  will-Yields :
      (s : Session) (m : SessionManager)
      → AreStocked m.sessions
      → (lwt : Option Connect) (will : Option Publish) → s.lwt_message ≡ lwt
      → IsWillOf lwt will
      → Yields ManagerSends (session_disconnected_ungracefully senders s m)
  unfolding session_disconnected_ungracefully lwt_publish
  will-Yields s m stocked none none e is =
      rw (session_disconnected_ungracefully, e) (ok-Yields ManagerSends (m, []) (stocked, tt))
  will-Yields s m stocked (some connect) (some p) e (topic, message, w, _) =
      let will = will_of connect topic message in
      let (r, _, _, _) =
        create_lem false (last_will_qos connect.con_flags) false topic 0 message w.unreserved w.fits
          w.room in
      rw (session_disconnected_ungracefully, e, w.has_topic, w.has_message)
        (chain-Yields ManagerPublishes (publish senders will m)
          (publish-Yields senders will m r stocked)
          (λ t (kept, _, sends). ok-Yields ManagerSends (t.0, t.2) (kept, sends)))
  will-Yields s m stocked none (some _) e is = elim is [ ]
  will-Yields s m stocked (some _) none e is = elim is [ ]

  pub client_disconnected_ungracefully-Yields :
      (client : Bytes) (s : Session) (will : Option Publish) (m : SessionManager)
      → AreStocked m.sessions
      → find_name client m.sessions ≡ some s
      → IsWillOf s.lwt_message will
      → Yields ManagerSends (client_disconnected_ungracefully senders client m)
  unfolding client_disconnected_ungracefully
  client_disconnected_ungracefully-Yields client s will m stocked found is =
      rw (client_disconnected_ungracefully, found)
        (will-Yields s (without client m) (Named-erase (λ k. IsStocked) client m.sessions stocked)
          s.lwt_message will refl is)
