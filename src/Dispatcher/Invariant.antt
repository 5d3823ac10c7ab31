-- ===== src/Dispatcher/Invariant.antt =====
-- The packets that the dispatcher handles
-- (`handle_packet_received` of dispatch/dispatcher.cpp).
use wally_io.Prelude.{
  ℕ, ◌≡◌, ◌≢◌, refl, inl, inr, Bytes, [], true, ◌||◌, not, Option-cases, All, length, some,
  find_name,
}
use wally_io.Protocol.{reserved}
use wally_io.Packet.{Publish, Subscribe, MqttPacket, contains_last_will, retain_last_will}
use wally_io.Encoder.Publications.{IsRelayable}
use wally_io.Subscriptions.{subscribe}
use wally_io.Subscriptions.Changes.{subscribe_lem}
use wally_io.Subscriptions.Unreserved.{unreserved-emplace_all}
use wally_io.Tx.{ack_type}
use wally_io.Tx.Table.Entries.{is_ack}
use wally_io.Tx.Table.Identifiers.{HasRoomFor}
use wally_io.Retained.{messages_for}
use wally_io.Sessions.{Senders, Session, SessionManager}
use wally_io.Sessions.Manager.{
  client_subscribed, client_published, client_acked_publish, client_received_publish,
  client_released_publish, client_completed_publish,
}
use wally_io.Sessions.Invariant.{IsManager, HasRooms, client_connected_lem}
use wally_io.Sessions.Retaining.{client_published_lem}
use wally_io.Sessions.Departures.{client_disconnected_lem}
use wally_io.Sessions.Subscribing.{client_subscribed_lem}
use wally_io.Sessions.Acknowledgements.{
  IsHandled, IsExpected, session_response_received-IsHandled,
  session_client_released_publish-IsHandled, client_unsubscribed-IsManager,
}
use wally_io.Dispatcher.{PacketContainer, handle_packet, handle_packet_received}

-- What every session of the client has.
abbrev pub OfSession : Bytes → SessionManager → (Session → Type 0) → Type 0
OfSession client m P = (s : Session) → find_name client m.sessions ≡ some s → P s

-- A packet that no assertion stands against.
abbrev pub IsWelcome : Senders → Bytes → ℕ → SessionManager → MqttPacket → Type 0
IsWelcome senders client connection m (MqttPacket.connect c) =
    ((not (contains_last_will c.con_flags) || not (retain_last_will c.con_flags)) ≡ true)
    × (senders.client_id connection ≡ some c.client_id)
IsWelcome senders client connection m (MqttPacket.publish p) =
    IsRelayable p × HasRooms m × OfSession client m (λ s. senders.is_there s.connection ≡ true)
IsWelcome senders client connection m (MqttPacket.subscribe p) =
    All (λ t. t.maximum_qos ≢ reserved) p.subscriptions
    × OfSession client m (λ s. HasRoomFor (length (messages_for p m.retained_messages)) s.tx)
IsWelcome senders client connection m (MqttPacket.puback p) =
    (is_ack (ack_type p) ≡ true) × OfSession client m (λ s. IsExpected p s.tx)
IsWelcome senders client connection m (MqttPacket.pubrec p) =
    (is_ack (ack_type p) ≡ true) × OfSession client m (λ s. IsExpected p s.tx)
IsWelcome senders client connection m (MqttPacket.pubcomp p) =
    (is_ack (ack_type p) ≡ true) × OfSession client m (λ s. IsExpected p s.tx)
IsWelcome senders client connection m (MqttPacket.pubrel p) = Unit {0}
IsWelcome senders client connection m (MqttPacket.unsubscribe p) = Unit {0}
IsWelcome senders client connection m (MqttPacket.disconnect h) = Unit {0}
IsWelcome senders client connection m _ = ⊥

client_published-IsHandled :
    (senders : Senders) (client : Bytes) (connection : ℕ) (p : Publish) (m : SessionManager)
    → IsManager m
    → IsWelcome senders client connection m (MqttPacket.publish p)
    → IsHandled (client_published senders client p m)
unfolding client_published
client_published-IsHandled senders client connection p m v (relayable, rooms, there) =
    elim (Option-cases (find_name client m.sessions)) [
      | inl absent ↦ (m, [], rw (client_published, absent), v)
      | inr (s, found) ↦
          let (m', output, e, v', _, _, _) =
            client_published_lem senders client p s m v rooms relayable found (there s found) in
          (m', output, e, v')
    ]

client_subscribed-IsHandled :
    (senders : Senders) (client : Bytes) (connection : ℕ) (p : Subscribe) (m : SessionManager)
    → IsManager m
    → IsWelcome senders client connection m (MqttPacket.subscribe p)
    → IsHandled (client_subscribed senders client p m)
unfolding client_subscribed subscribe
client_subscribed-IsHandled senders client connection p m v (ms, room) =
    elim (Option-cases (find_name client m.sessions)) [
      | inl absent ↦
          let (distinct, _, _, _) = subscribe_lem client p m.subscriptions v.distinct in
          (
            record m { subscriptions = (subscribe client p m.subscriptions).0 },
            [],
            rw (client_subscribed, absent),
            record {
              sessions = v.sessions;
              distinct = distinct;
              unreserved =
                  unreserved-emplace_all client p.subscriptions m.subscriptions ms v.unreserved;
              retained = v.retained;
            },
          )
      | inr (s, found) ↦
          let (m', output, e, v', _, _) =
            client_subscribed_lem senders client s p m v found ms (room s found) in
          (m', output, e, v')
    ]

handle_packet-IsHandled :
    (senders : Senders) (client : Bytes) (connection : ℕ) (packet : MqttPacket) (m : SessionManager)
    → IsManager m
    → IsWelcome senders client connection m packet
    → IsHandled (handle_packet senders client connection packet m)
unfolding handle_packet client_acked_publish client_received_publish client_completed_publish
    client_released_publish
handle_packet-IsHandled senders client connection (MqttPacket.connect c) m v (no_retained, own) =
    let (m', e, v', _) = client_connected_lem senders c connection m v own in
    (m', [], rw (no_retained, e), v')
handle_packet-IsHandled senders client connection (MqttPacket.publish p) m v w =
    client_published-IsHandled senders client connection p m v w
handle_packet-IsHandled senders client connection (MqttPacket.subscribe p) m v w =
    client_subscribed-IsHandled senders client connection p m v w
handle_packet-IsHandled senders client connection (MqttPacket.puback p) m v (is, expected) =
    session_response_received-IsHandled senders client m v p is expected
handle_packet-IsHandled senders client connection (MqttPacket.pubrec p) m v (is, expected) =
    session_response_received-IsHandled senders client m v p is expected
handle_packet-IsHandled senders client connection (MqttPacket.pubcomp p) m v (is, expected) =
    session_response_received-IsHandled senders client m v p is expected
handle_packet-IsHandled senders client connection (MqttPacket.pubrel p) m v w =
    session_client_released_publish-IsHandled senders client m v p
handle_packet-IsHandled senders client connection (MqttPacket.unsubscribe p) m v w =
    (_, _, refl, client_unsubscribed-IsManager senders client m v p)
handle_packet-IsHandled senders client connection (MqttPacket.disconnect h) m v w =
    let (v', _, _, _) = client_disconnected_lem client m v in (_, _, refl, v')
handle_packet-IsHandled senders client connection (MqttPacket.connack _) m v w = elim w [ ]
handle_packet-IsHandled senders client connection (MqttPacket.suback _) m v w = elim w [ ]
handle_packet-IsHandled senders client connection (MqttPacket.unsuback _) m v w = elim w [ ]
handle_packet-IsHandled senders client connection (MqttPacket.pingreq _) m v w = elim w [ ]
handle_packet-IsHandled senders client connection (MqttPacket.pingresp _) m v w = elim w [ ]

-- In a well-formed state a packet that no assertion stands against is handled, and the state of the
-- session manager stays well formed: a CONNECT without a last will to be retained, on a connection that has its client
-- identifier; a PUBLISH that can be handed on, from a connected client, while the next packet
-- identifier of every session is free; a SUBSCRIBE with unreserved QoS and free packet identifiers
-- for the retained messages that match; a PUBACK, PUBREC or PUBCOMP that the publication in flight
-- under its identifier takes, if there is one; and every PUBREL, UNSUBSCRIBE and DISCONNECT.
pub handle_packet_received_lem :
    (senders : Senders) (container : PacketContainer) (m : SessionManager)
    → IsManager m
    → IsWelcome senders container.client_id container.rx_connection m container.packet
    → IsHandled (handle_packet_received senders container m)
unfolding handle_packet_received
handle_packet_received_lem senders container m v w =
    handle_packet-IsHandled senders container.client_id container.rx_connection container.packet m v
      w
