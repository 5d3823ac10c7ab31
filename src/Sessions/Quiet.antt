-- ===== src/Sessions/Quiet.antt =====
-- A PUBLISH stops no connection (`client_published` of dispatch/mqtt_client_session_manager.cpp, and
-- what it calls).
use wally_io.Prelude.{
  ℕ, inl, inr, Bytes, List, [], ◌∷◌, ◌++◌, Bool, true, false, Option-cases, All, All-map,
  All-append, Result, find_key, find_name, replace_name, Yields, ok-Yields, bind-Yields,
  chain-Yields, if-Yields, if-both,
}
use wally_io.Protocol.{QoS, at_most_once, at_least_once, exactly_once, reserved, same_qos}
use wally_io.Packet.{Publish}
use wally_io.Packet.PublishPacket.{qos, retain, set_retain, set_qos, with_new_packet_identifier}
use wally_io.Subscriptions.{ResolvedSubscriber, resolve_subscribers}
use wally_io.Retained.{retain_message}
use wally_io.Tx.{Effect, stop}
use wally_io.Tx.Qos1
use wally_io.Tx.Qos2
use wally_io.Tx.Table as Tx
use wally_io.Tx.Table.{
  TxEntry, qos1, qos2, TxInFlight, Published, entry_start, next_packet_identifier, insert_entry,
  publish_entry, publish_using_qos0, publish_using_qos1, publish_using_qos2, make_entry1,
  make_entry2,
}
use wally_io.Rx.{start, start_pubrel_timeout}
use wally_io.Rx.Table as Rx
use wally_io.Rx.Table.{RxInFlight}
use wally_io.Sessions.{
  Senders, Session, SessionManager, Output, on, session_publish, publish_all, publish,
  session_client_sent_publish,
}
use wally_io.Sessions.Manager.{client_published}

abbrev pub IsQuiet : Effect → Type 0
IsQuiet stop = ⊥
IsQuiet _ = Unit {0}

abbrev pub OutputIsQuiet : Output → Type 0
OutputIsQuiet output = All (λ e. IsQuiet e.1) output

on-OutputIsQuiet :
    (connection : ℕ) (effects : List Effect)
    → All IsQuiet effects
    → OutputIsQuiet (on connection effects)
on-OutputIsQuiet connection effects h =
    All-map (λ (e : ℕ × Effect). IsQuiet e.1) (λ e. (connection, e)) effects (λ e s. s) h

OutputIsQuiet-append :
    (first later : Output)
    → OutputIsQuiet first
    → OutputIsQuiet later
    → OutputIsQuiet (first ++ later)
OutputIsQuiet-append first later = All-append (λ (e : ℕ × Effect). IsQuiet e.1) first later

abbrev PublishedIsQuiet : Published → Type 0
PublishedIsQuiet r = All IsQuiet r.2

entry_start-IsQuiet : (entry : TxEntry) → All IsQuiet (entry_start entry).1
unfolding entry_start Qos1.start Qos1.start_ack_timeout Qos2.start Qos2.send_and_wait
    Qos2.start_ack_timeout
entry_start-IsQuiet (qos1 t) = (tt, (tt, tt))
entry_start-IsQuiet (qos2 t) = (tt, (tt, tt))

publish_entry-IsQuiet :
    (make : Publish → Result TxEntry) (p : Publish) (table : TxInFlight)
    → Yields PublishedIsQuiet (publish_entry make p table)
unfolding publish_entry
publish_entry-IsQuiet make p table =
    let id = next_packet_identifier table.packet_identifier in
    bind-Yields (make (with_new_packet_identifier id p)) (λ entry _.
      bind-Yields (insert_entry id (entry_start entry).0 table.publications)
        (λ publications _. ok-Yields PublishedIsQuiet _ (entry_start-IsQuiet entry)))

Tx-publish-IsQuiet :
    (connected : Bool) (p : Publish) (q : QoS) (table : TxInFlight)
    → Yields PublishedIsQuiet (Tx.publish connected p q table)
unfolding Tx.publish publish_using_qos0 publish_using_qos1 publish_using_qos2
Tx-publish-IsQuiet false p q table = ok-Yields PublishedIsQuiet _ tt
Tx-publish-IsQuiet true p at_most_once table =
    bind-Yields (set_qos at_most_once p) (λ p' _. ok-Yields PublishedIsQuiet _ (tt, tt))
Tx-publish-IsQuiet true p at_least_once table = publish_entry-IsQuiet make_entry1 p table
Tx-publish-IsQuiet true p exactly_once table = publish_entry-IsQuiet make_entry2 p table
Tx-publish-IsQuiet true p reserved table = ok-Yields PublishedIsQuiet _ tt

abbrev ReceiptIsQuiet : RxInFlight × List Effect × Bool → Type 0
ReceiptIsQuiet r = All IsQuiet r.1

Rx-client_sent_publish-IsQuiet :
    (connected : Bool) (p : Publish) (table : RxInFlight)
    → Yields ReceiptIsQuiet (Rx.client_sent_publish connected p table)
unfolding Rx.client_sent_publish start start_pubrel_timeout
Rx-client_sent_publish-IsQuiet connected p table =
    elim (Option-cases (find_key p.packet_identifier table)) [
      | inr (seen, found) ↦
          rw (Rx.client_sent_publish, found) (ok-Yields ReceiptIsQuiet (table, [], false) tt)
      | inl absent ↦
          rw (Rx.client_sent_publish, absent)
            (ok-Yields ReceiptIsQuiet _ (
              if-both ReceiptIsQuiet (same_qos (qos p) at_least_once)
                (if-both (λ effects. All IsQuiet effects) connected (tt, tt) tt)
                (if-both ReceiptIsQuiet (same_qos (qos p) exactly_once)
                  (if-both ReceiptIsQuiet connected (tt, (tt, tt)) tt) tt)))
    ]

abbrev RelayIsQuiet : {A : Type 0} → A × Publish × Output → Type 0
RelayIsQuiet r = OutputIsQuiet r.2

abbrev HandledIsQuiet : SessionManager × Output → Type 0
HandledIsQuiet r = OutputIsQuiet r.1

module _ (senders : Senders) where
  session_publish-IsQuiet :
      (p : Publish) (q : QoS) (s : Session) → Yields RelayIsQuiet (session_publish senders p q s)
  unfolding session_publish
  session_publish-IsQuiet p q s =
      chain-Yields PublishedIsQuiet (Tx.publish (senders.is_there s.connection) p q s.tx)
        (Tx-publish-IsQuiet (senders.is_there s.connection) p q s.tx)
        (λ (t : Published) quiet.
          ok-Yields RelayIsQuiet (record s { tx = t.0 }, t.1, on s.connection t.2)
            (on-OutputIsQuiet s.connection t.2 quiet))

  publish_all-IsQuiet :
      (subscribers : List ResolvedSubscriber) (p : Publish) (sessions : List (Bytes × Session))
      → Yields RelayIsQuiet (publish_all senders subscribers p sessions)
  unfolding publish_all
  publish_all-IsQuiet [] p sessions = ok-Yields RelayIsQuiet _ tt
  publish_all-IsQuiet ((client, q) ∷ subscribers) p sessions =
      elim (Option-cases (find_name client sessions)) [
        | inl absent ↦ rw (publish_all, absent) (publish_all-IsQuiet subscribers p sessions)
        | inr (s, found) ↦
            rw (publish_all, found)
              (chain-Yields RelayIsQuiet (session_publish senders p q s)
                (session_publish-IsQuiet p q s)
                (λ t quiet.
                  chain-Yields RelayIsQuiet
                    (publish_all senders subscribers t.1 (replace_name client t.0 sessions))
                    (publish_all-IsQuiet subscribers t.1 (replace_name client t.0 sessions))
                    (λ rest quiet'.
                      ok-Yields RelayIsQuiet (rest.0, rest.1, t.2 ++ rest.2)
                        (OutputIsQuiet-append t.2 rest.2 quiet quiet'))))
      ]

  publish-IsQuiet : (p : Publish) (m : SessionManager) → Yields RelayIsQuiet (publish senders p m)
  unfolding publish
  publish-IsQuiet p m =
      let subscribers = resolve_subscribers p m.subscriptions in
      chain-Yields RelayIsQuiet (publish_all senders subscribers p m.sessions)
        (publish_all-IsQuiet subscribers p m.sessions)
        (λ t h. ok-Yields RelayIsQuiet (record m { sessions = t.0 }, t.1, t.2) h)

  session_client_sent_publish-IsQuiet :
      (key : Bytes) (p : Publish) (s : Session) (m : SessionManager)
      → Yields RelayIsQuiet (session_client_sent_publish senders key p s m)
  unfolding session_client_sent_publish
  session_client_sent_publish-IsQuiet key p s m =
      chain-Yields ReceiptIsQuiet (Rx.client_sent_publish (senders.is_there s.connection) p s.rx)
        (Rx-client_sent_publish-IsQuiet (senders.is_there s.connection) p s.rx)
        (λ (t : RxInFlight × List Effect × Bool) quiet.
          let m' : SessionManager = record m {
            sessions = replace_name key (record s { rx = t.0 }) m.sessions;
          } in
          let answers = on s.connection t.1 in
          let answered = on-OutputIsQuiet s.connection t.1 quiet in
          if-Yields t.2
            (chain-Yields RelayIsQuiet (publish senders p m') (publish-IsQuiet p m') (λ u quiet'.
              ok-Yields RelayIsQuiet (u.0, u.1, answers ++ u.2)
                (OutputIsQuiet-append answers u.2 answered quiet')))
            (ok-Yields RelayIsQuiet (m', p, answers) answered))

  pub client_published-IsQuiet :
      (client : Bytes) (p : Publish) (m : SessionManager)
      → Yields HandledIsQuiet (client_published senders client p m)
  unfolding client_published
  client_published-IsQuiet client p m = elim (Option-cases (find_name client m.sessions)) [
    | inl absent ↦ rw (client_published, absent) (ok-Yields HandledIsQuiet (m, []) tt)
    | inr (s, found) ↦
        let bare = set_retain false p in
        rw (client_published, found)
          (if-Yields (retain p)
            (chain-Yields RelayIsQuiet (session_client_sent_publish senders client bare s m)
              (session_client_sent_publish-IsQuiet client bare s m)
              (λ t quiet.
                bind-Yields (retain_message (set_retain true t.1) t.0.retained_messages)
                  (λ messages _.
                    ok-Yields HandledIsQuiet (record t.0 { retained_messages = messages }, t.2)
                      quiet)))
            (chain-Yields RelayIsQuiet (session_client_sent_publish senders client p s m)
              (session_client_sent_publish-IsQuiet client p s m)
              (λ t quiet. ok-Yields HandledIsQuiet (t.0, t.2) quiet)))
  ]
