-- ===== src/Sessions/Sendable.antt =====
-- What the sessions send can be encoded (dispatch/mqtt_client_session.cpp and
-- mqtt_client_session_manager.cpp).
use wally_io.Prelude.{
  ℕ, inl, inr, Bytes, List, [], ◌∷◌, ◌++◌, Bool, Option-cases, All, All-map, All-append, find_name,
  replace_name, Named, find_name-Named, Named-replace, Named-erase, Yields, ok-Yields, chain-Yields,
  if-Yields, if-both,
}
use wally_io.Protocol.{QoS}
use wally_io.Packet.{Publish, MqttPacket}
use wally_io.Encoder.Lengths.{IsSendable}
use wally_io.Encoder.Publications.{IsRelayable}
use wally_io.Subscriptions.{ResolvedSubscriber, resolve_subscribers}
use wally_io.Tx.{Effect}
use wally_io.Tx.Table as Tx
use wally_io.Tx.Table.{Published}
use wally_io.Tx.Sendable as Sent
use wally_io.Tx.Sendable.{CanSend, AreRelayable, IsPassedOn}
use wally_io.Rx.Table as Rx
use wally_io.Rx.Table.{RxInFlight}
use wally_io.Rx.Sendable.{ReceiptSends, client_sent_publish-Yields}
use wally_io.Sessions.{
  Senders, Session, SessionManager, Output, on, session_send, session_publish, publish_all, publish,
  session_client_sent_publish, destroy,
}

-- The publications in flight to a client can be sent again.
abbrev pub IsStocked : Session → Type 0
IsStocked s = AreRelayable s.tx.publications

abbrev pub AreStocked : List (Bytes × Session) → Type 0
AreStocked sessions = Named (λ client s. IsStocked s) sessions

abbrev pub OutputSends : Output → Type 0
OutputSends output = All (λ e. CanSend e.1) output

abbrev pub SessionSends : Session × Output → Type 0
SessionSends r = IsStocked r.0 × OutputSends r.1

abbrev pub ManagerSends : SessionManager × Output → Type 0
ManagerSends r = AreStocked r.0.sessions × OutputSends r.1

-- The same with the shared PUBLISH, which can be sent on.
abbrev RelaySends : List (Bytes × Session) × Publish × Output → Type 0
RelaySends r = AreStocked r.0 × IsRelayable r.1 × OutputSends r.2

abbrev pub PublishSends : Session × Publish × Output → Type 0
PublishSends r = IsStocked r.0 × IsRelayable r.1 × OutputSends r.2

abbrev pub ManagerPublishes : SessionManager × Publish × Output → Type 0
ManagerPublishes r = AreStocked r.0.sessions × IsRelayable r.1 × OutputSends r.2

pub on-OutputSends :
    (connection : ℕ) (effects : List Effect)
    → All CanSend effects
    → OutputSends (on connection effects)
on-OutputSends connection effects h =
    All-map (λ (e : ℕ × Effect). CanSend e.1) (λ e. (connection, e)) effects (λ e s. s) h

pub OutputSends-append :
    (first later : Output) → OutputSends first → OutputSends later → OutputSends (first ++ later)
OutputSends-append first later = All-append (λ (e : ℕ × Effect). CanSend e.1) first later

module _ (senders : Senders) where
  pub session_publish-Yields :
      (p : Publish) (q : QoS) (s : Session)
      → IsRelayable p
      → IsStocked s
      → Yields PublishSends (session_publish senders p q s)
  unfolding session_publish
  session_publish-Yields p q s r stocked =
      chain-Yields IsPassedOn (Tx.publish (senders.is_there s.connection) p q s.tx)
        (Sent.publish-Yields (senders.is_there s.connection) p q s.tx r stocked)
        (λ (t : Published) (kept, r', sends).
          ok-Yields PublishSends (record s { tx = t.0 }, t.1, on s.connection t.2)
            (kept, r', on-OutputSends s.connection t.2 sends))

  publish_all-Yields :
      (subscribers : List ResolvedSubscriber) (p : Publish) (sessions : List (Bytes × Session))
      → IsRelayable p
      → AreStocked sessions
      → Yields RelaySends (publish_all senders subscribers p sessions)
  unfolding publish_all
  publish_all-Yields [] p sessions r stocked =
      ok-Yields RelaySends (sessions, p, []) (stocked, r, tt)
  publish_all-Yields ((client, q) ∷ subscribers) p sessions r stocked =
      elim (Option-cases (find_name client sessions)) [
        | inl absent ↦
            rw (publish_all, absent) (publish_all-Yields subscribers p sessions r stocked)
        | inr (s, found) ↦
            let own = find_name-Named (λ k. IsStocked) client s sessions stocked found in
            rw (publish_all, found)
              (chain-Yields PublishSends (session_publish senders p q s)
                (session_publish-Yields p q s r own)
                (λ t (kept, r', sends).
                  let sessions' = replace_name client t.0 sessions in
                  chain-Yields RelaySends (publish_all senders subscribers t.1 sessions')
                    (publish_all-Yields subscribers t.1 sessions' r'
                      (Named-replace (λ k. IsStocked) client t.0 sessions kept stocked))
                    (λ rest (kept', r'', sends').
                      ok-Yields RelaySends (rest.0, rest.1, t.2 ++ rest.2)
                        (kept', r'', OutputSends-append t.2 rest.2 sends sends'))))
      ]

  pub publish-Yields :
      (p : Publish) (m : SessionManager)
      → IsRelayable p
      → AreStocked m.sessions
      → Yields ManagerPublishes (publish senders p m)
  unfolding publish
  publish-Yields p m r stocked =
      let subscribers = resolve_subscribers p m.subscriptions in
      chain-Yields RelaySends (publish_all senders subscribers p m.sessions)
        (publish_all-Yields subscribers p m.sessions r stocked)
        (λ t h. ok-Yields ManagerPublishes (record m { sessions = t.0 }, t.1, t.2) h)

  pub session_client_sent_publish-Yields :
      (key : Bytes) (p : Publish) (s : Session) (m : SessionManager)
      → IsRelayable p
      → IsStocked s
      → AreStocked m.sessions
      → Yields ManagerPublishes (session_client_sent_publish senders key p s m)
  unfolding session_client_sent_publish
  session_client_sent_publish-Yields key p s m r own stocked =
      chain-Yields ReceiptSends (Rx.client_sent_publish (senders.is_there s.connection) p s.rx)
        (client_sent_publish-Yields (senders.is_there s.connection) p s.rx)
        (λ (t : RxInFlight × List Effect × Bool) sends.
          let s' : Session = record s { rx = t.0 } in
          let kept = Named-replace (λ k. IsStocked) key s' m.sessions own stocked in
          let m' : SessionManager = record m { sessions = replace_name key s' m.sessions } in
          let answers = on s.connection t.1 in
          let answered = on-OutputSends s.connection t.1 sends in
          if-Yields t.2
            (chain-Yields ManagerPublishes (publish senders p m') (publish-Yields p m' r kept)
              (λ u (kept', r', sends').
                ok-Yields ManagerPublishes (u.0, u.1, answers ++ u.2)
                  (kept', r', OutputSends-append answers u.2 answered sends')))
            (ok-Yields ManagerPublishes (m', p, answers) (kept, r, answered)))

  pub session_send-AreStocked :
      (packet : MqttPacket) (s : Session) (m : SessionManager)
      → AreStocked m.sessions
      → AreStocked (session_send senders packet s m).0.sessions
  unfolding session_send destroy
  session_send-AreStocked packet s m stocked =
      if-both (λ (r : SessionManager × Output). AreStocked r.0.sessions)
        (senders.is_there s.connection) stocked
        (Named-erase (λ k. IsStocked) s.client_id m.sessions stocked)

  pub session_send-OutputSends :
      (packet : MqttPacket) (s : Session) (m : SessionManager)
      → IsSendable packet
      → OutputSends (session_send senders packet s m).1
  unfolding session_send
  session_send-OutputSends packet s m sendable =
      if-both (λ (r : SessionManager × Output). OutputSends r.1) (senders.is_there s.connection)
        (sendable, tt) tt
