-- ===== src/Sessions/Invariant.antt =====
-- The state of the session manager between two handlers.
use wally_io.Prelude.{
  ℕ, ◌≡◌, ◌≢◌, refl, ap, sym, ◌∙◌, inl, inr, Bytes, List, [], ◌∷◌, ◌&&◌, Bool-cases, Option-cases,
  if◌then◌else◌, All, none, some, ok, same_bytes, same_bytes-eq, find_name, Named,
}
use wally_io.Protocol.{reserved}
use wally_io.Packet.{Connect, Publish}
use wally_io.Encoder.Publications.{IsRelayable}
use wally_io.Subscriptions.{ResolvedSubscriber, resolve_subscribers}
use wally_io.Subscriptions.Changes.{IsDistinct}
use wally_io.Subscriptions.Resolve.{IsOnce-resolve_all}
use wally_io.Tx.Table.Deliveries.{IsCopy, HasRoom}
use wally_io.Retained.Store.{IsRetained}
use wally_io.Sessions.{Senders, Session, SessionManager, Output, make_session, publish}
use wally_io.Sessions.Manager.{client_connected}
use wally_io.Sessions.Delivery.{IsSession, sent_on, IsDelivered}
use wally_io.Subscriptions.Unreserved.{unreserved-resolve_all}
use wally_io.Sessions.Publishing.{IsReady, publish_all_lem}

-- What is retained for a topic can be handed on.
abbrev pub IsStored : Bytes → Publish → Type 0
IsStored topic p = IsRetained topic p × IsRelayable p

pub record IsManager (m : SessionManager) : Type 0 where
  pub sessions : Named IsSession m.sessions
  pub distinct : IsDistinct m.subscriptions
  pub unreserved : All (λ s. s.maximum_qos ≢ reserved) m.subscriptions
  pub retained : Named IsStored m.retained_messages

-- The next packet identifier of every session is free.
abbrev pub HasRooms : SessionManager → Type 0
HasRooms m = (client : Bytes) (s : Session) → find_name client m.sessions ≡ some s → HasRoom s.tx

HasRooms-IsReady :
    (m : SessionManager) (subscribers : List ResolvedSubscriber)
    → HasRooms m
    → IsReady m.sessions subscribers
HasRooms-IsReady m [] h = tt
HasRooms-IsReady m ((client, q) ∷ subscribers) h = (h client, HasRooms-IsReady m subscribers h)

-- What a PUBLISH to all subscribers leads to.
pub record IsPublished (senders : Senders) (p : Publish) (m : SessionManager)
    (r : SessionManager × Publish × Output) : Type 0 where
  pub valid : IsManager r.0
  pub relayable : IsRelayable r.1
  pub shared : IsCopy p r.1
  pub delivered :
      IsDelivered senders p m.sessions (resolve_subscribers p m.subscriptions) (sent_on r.2)
  pub subscriptions : r.0.subscriptions ≡ m.subscriptions
  pub retained_messages : r.0.retained_messages ≡ m.retained_messages

pub publish-ok :
    (senders : Senders) (p : Publish) (m : SessionManager)
    → IsManager m
    → HasRooms m
    → IsRelayable p
    → (r : SessionManager × Publish × Output) × (publish senders p m ≡ ok r)
      × IsPublished senders p m r
unfolding publish resolve_subscribers
publish-ok senders p m v rooms relayable =
    let subscribers = resolve_subscribers p m.subscriptions in
    let once = IsOnce-resolve_all p.topic m.subscriptions [] tt in
    let unreserved = unreserved-resolve_all p.topic m.subscriptions [] v.unreserved tt in
    let (r, e, relay) =
      publish_all_lem senders subscribers p m.sessions v.sessions relayable once unreserved
        (HasRooms-IsReady m subscribers rooms) in
    (
      (record m { sessions = r.0 }, r.1, r.2),
      rw (publish, e),
      record {
        valid = record {
          sessions = relay.valid;
          distinct = v.distinct;
          unreserved = v.unreserved;
          retained = v.retained;
        };
        relayable = relay.relayable;
        shared = relay.shared;
        delivered = relay.delivered;
        subscriptions = refl;
        retained_messages = refl;
      },
    )

-- In a well-formed state a CONNECT on a connection that has the CONNECT's client identifier is
-- handled, and the state stays well formed. If the connection is still there, there is then a session under that identifier:
-- the earlier one if there was one, whatever connection that is on, and a new one on this connection
-- else. No other session changes, and none at all if the connection is no more.
pub client_connected_lem :
    (senders : Senders) (connect : Connect) (connection : ℕ) (m : SessionManager)
    → IsManager m
    → senders.client_id connection ≡ some connect.client_id
    → (m' : SessionManager) × (client_connected senders connect connection m ≡ ok m')
      × IsManager m'
      × ((client : Bytes)
          → find_name client m'.sessions ≡ (
              if senders.is_there connection && same_bytes connect.client_id client
              then elim (find_name connect.client_id m.sessions) [
                | none ↦ some (make_session connect connection)
                | some earlier ↦ some earlier
              ]
              else find_name client m.sessions))
unfolding client_connected make_session
client_connected_lem senders connect connection m v own =
    let id = connect.client_id in
    elim (Bool-cases (senders.is_there connection)) [
      | inl there ↦ elim (Option-cases (find_name id m.sessions)) [
        | inl absent ↦
            let s = make_session connect connection in
            (
              record m { sessions = (id, s) ∷ m.sessions },
              rw (client_connected, there, own, absent),
              record {
                sessions = (absent, (refl, tt, tt), v.sessions);
                distinct = v.distinct;
                unreserved = v.unreserved;
                retained = v.retained;
              },
              λ client. rw (there, absent) refl,
            )
        | inr (earlier, found) ↦ (
          m,
          rw (client_connected, there, own, found),
          v,
          λ client. elim (Bool-cases (same_bytes id client)) [
            | inl same ↦
                let e = same_bytes-eq id client same in
                rw (there, same, found) (ap (λ c. find_name c m.sessions) (sym e) ∙ found)
            | inr differs ↦ rw (there, differs)
          ],
        )
      ]
      | inr gone ↦ (m, rw (client_connected, gone), v, λ client. rw gone)
    ]
