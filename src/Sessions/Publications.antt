-- ===== src/Sessions/Publications.antt =====
-- A PUBLISH that a client sent (`client_published` of dispatch/mqtt_client_session_manager.cpp).
use wally_io.Prelude.{
  ◌≡◌, ◌≢◌, refl, ap, sym, ◌∙◌, inl, inr, Bytes, List, [], ◌++◌, map, Bool, true, false, Bool-cases,
  Option-cases, some, Result, ok, err, same_bytes, same_bytes_refl, same_bytes-eq, find_key,
  find_name, replace_name, find_name-Named, find_name-replace_same, find_name-replace_other,
  Named-replace,
}
use wally_io.Protocol.{at_least_once, exactly_once, same_qos}
use wally_io.Packet.{Publish}
use wally_io.Packet.PublishPacket.{qos}
use wally_io.Encoder.Publications.{IsRelayable}
use wally_io.Subscriptions.{resolve_subscribers}
use wally_io.Tx.{Effect}
use wally_io.Tx.Table.Deliveries.{sent, IsCopy, IsCopy-refl}
use wally_io.Rx.{start, make_rx_publication, start_pubrel_timeout}
use wally_io.Rx.Table as Rx
use wally_io.Rx.Table.{RxInFlight}
use wally_io.Rx.Events.{present, client_sent_publish_lem}
use wally_io.Sessions.{Senders, Session, SessionManager, Output, on, session_client_sent_publish}
use wally_io.Sessions.Delivery.{
  IsSession, sent_on, sent_on-append, sent_on-on, receiver-replace, IsDelivered, IsDelivered-trans,
}
use wally_io.Sessions.Invariant.{IsManager, HasRooms, publish-ok}

abbrev sent_in : Result (RxInFlight × List Effect × Bool) → List Publish
sent_in (ok r) = sent r.1
sent_in (err e) = []

-- The answers to a PUBLISH are no PUBLISH.
client_sent_publish-sent :
    (p : Publish) (table : RxInFlight) → sent_in (Rx.client_sent_publish true p table) ≡ []
unfolding Rx.client_sent_publish start make_rx_publication start_pubrel_timeout
client_sent_publish-sent p table = elim (Option-cases (find_key p.packet_identifier table)) [
  | inr (_, seen) ↦ rw (Rx.client_sent_publish, seen)
  | inl unseen ↦ elim (Bool-cases (same_qos (qos p) at_least_once)) [
    | inl once ↦ rw (Rx.client_sent_publish, unseen, once)
    | inr not_once ↦ elim (Bool-cases (same_qos (qos p) exactly_once)) [
      | inl twice ↦ rw (Rx.client_sent_publish, unseen, not_once, twice)
      | inr neither ↦ rw (Rx.client_sent_publish, unseen, not_once, neither)
    ]
  ]
]

module _ (senders : Senders) where
  -- The PUBLISH goes to the subscribers, unless one with its identifier is in flight.
  abbrev pub IsDispatched : Bool → Publish → SessionManager → Output → Type 0
  IsDispatched true p m output = sent_on output ≡ []
  IsDispatched false p m output =
      IsDelivered senders p m.sessions (resolve_subscribers p m.subscriptions) (sent_on output)

  pub session_client_sent_publish-ok :
      (key : Bytes) (p : Publish) (s : Session) (m : SessionManager)
      → IsManager m
      → HasRooms m
      → IsRelayable p
      → find_name key m.sessions ≡ some s
      → senders.is_there s.connection ≡ true
      → (r : SessionManager × Publish × Output) × (session_client_sent_publish senders key p s m
          ≡ ok r)
        × IsManager r.0
        × IsRelayable r.1
        × IsCopy p r.1
        × IsDispatched (present p.packet_identifier s.rx) p m r.2
        × (r.0.retained_messages ≡ m.retained_messages)
        × (r.0.subscriptions ≡ m.subscriptions)
  unfolding session_client_sent_publish
  session_client_sent_publish-ok key p s m v rooms relayable found there =
      let (own, tx_valid, rx_valid) = find_name-Named IsSession key s m.sessions v.sessions found in
      let (rx', effects, e, rx_valid', _) = client_sent_publish_lem p s.rx rx_valid in
      let s' : Session = record s { rx = rx' } in
      let m' : SessionManager = record m { sessions = replace_name key s' m.sessions } in
      let v' : IsManager m' = record {
        sessions = Named-replace IsSession key s' m.sessions (own, tx_valid, rx_valid') v.sessions;
        distinct = v.distinct;
        unreserved = v.unreserved;
        retained = v.retained;
      } in
      let quiet : sent_on (on s.connection effects) ≡ [] =
        sent_on-on s.connection effects
        ∙ ap (map (λ x. (s.connection, x)))
            (ap sent_in (sym e) ∙ client_sent_publish-sent p s.rx) in
      elim (Bool-cases (present p.packet_identifier s.rx)) [
        | inl seen ↦ (
          (m', p, on s.connection effects),
          rw (session_client_sent_publish, there, e, seen),
          v',
          relayable,
          IsCopy-refl p,
          rw seen quiet,
          refl,
          refl,
        )
        | inr unseen ↦
            let rooms' : HasRooms m' = rooms-replace key s s' m found refl rooms in
            let (r, e', published) = publish-ok senders p m' v' rooms' relayable in
            let reached = receiver-replace senders key s s' m.sessions found refl in
            let all : sent_on (on s.connection effects ++ r.2) ≡ sent_on r.2 =
              sent_on-append (on s.connection effects) r.2 ∙ ap (λ x. x ++ sent_on r.2) quiet in
            (
              (r.0, r.1, on s.connection effects ++ r.2),
              rw (session_client_sent_publish, there, e, unseen, e'),
              published.valid,
              published.relayable,
              published.shared,
              rw (unseen, all)
                  (IsDelivered-trans senders p p m.sessions m'.sessions
                    (resolve_subscribers p m.subscriptions) (sent_on r.2) (IsCopy-refl p) reached
                    published.delivered),
              published.retained_messages,
              published.subscriptions,
            )
      ]
    where
      rooms-replace :
          (key : Bytes) (s s' : Session) (m : SessionManager)
          → find_name key m.sessions ≡ some s
          → s'.tx ≡ s.tx
          → HasRooms m
          → HasRooms (record m { sessions = replace_name key s' m.sessions })
      rooms-replace key s s' m found same rooms client t e =
          elim (Bool-cases (same_bytes key client)) [
            | inl eq ↦
                let k = same_bytes-eq key client eq in
                let is : s' ≡ t = cc (
                  sym (find_name-replace_same key s' s m.sessions found)
                  ∙ (ap (λ c. find_name c (replace_name key s' m.sessions)) k ∙ e)) in
                rw (← is) (rw same (rooms key s found))
            | inr other ↦
                let ne : key ≢ client =
                  λ eq. cc (other, same_bytes_refl key, ap (same_bytes key) eq) in
                rooms client t (sym (find_name-replace_other key client s' m.sessions ne) ∙ e)
          ]
