-- ===== src/Dispatcher/Sendable.antt =====
-- What the server sends can be encoded: the packets that the sessions pass to the connections in
-- dispatch/dispatcher.cpp and at the timers of dispatch/tx_publication.cpp and rx_publication.cpp,
-- and the encoders of codec/mqtt_packet_encoder.hpp.
use wally_io.Prelude.{
  ℕ, ◌≡◌, ◌||◌, not, Bytes, List, [], All, All-weaken, Option, some, Result, ok, assert, find_name,
  find_name-Named, Named-replace, Named-erase, Yields, ok-Yields, bind-Yields, chain-Yields,
}
use wally_io.Protocol.{total_length}
use wally_io.Packet.{Publish, MqttPacket, header_of, contains_last_will, retain_last_will}
use wally_io.Encoder.{encode}
use wally_io.Encoder.Lengths.{IsPacket, encode-IsSendable}
use wally_io.Tx.{Effect, send, start_timer, cancel_timer, release}
use wally_io.Tx.Table as Tx
use wally_io.Tx.Table.{TxInFlight}
use wally_io.Tx.Sendable.{CanSend}
use wally_io.Tx.Resent.{timeout_expired-Yields}
use wally_io.Rx.Table as Rx
use wally_io.Rx.Table.{RxInFlight}
use wally_io.Rx.Sendable.{timeout_expired-Sends}
use wally_io.Sessions.{Senders, Session, SessionManager, Output, on}
use wally_io.Sessions.Manager as Manager
use wally_io.Sessions.Manager.{
  client_connected, client_disconnected, client_acked_publish, client_received_publish,
  client_completed_publish, client_released_publish,
}
use wally_io.Sessions.Invariant.{IsManager}
use wally_io.Sessions.Departures.{IsWillOf}
use wally_io.Sessions.Sendable.{IsStocked, AreStocked, OutputSends, ManagerSends, on-OutputSends}
use wally_io.Sessions.Sending.{
  with_session-Yields, session_response_received-Yields, session_client_released_publish-Yields,
  client_published-Yields, client_connected-Yields, client_disconnected_ungracefully-Yields,
}
use wally_io.Sessions.Answering.{IsShort, client_subscribed-Yields, client_unsubscribed-Sends}
use wally_io.Dispatcher.{
  DisconnectReason, PacketContainer, handle_packet, handle_packet_received,
  client_disconnected_ungracefully, stop,
}
use wally_io.Dispatcher.Invariant.{IsWelcome}
use wally_io.Dispatcher.Reachable.{
  Reachable, started, received, left, tx_timeout, rx_timeout, stopped, Reachable-IsManager,
}

-- A SUBSCRIBE whose return codes fit into one SUBACK.
abbrev pub HasShortAnswer : MqttPacket → Type 0
HasShortAnswer (MqttPacket.subscribe p) = IsShort p
HasShortAnswer _ = Unit {0}

abbrev HandledSends : MqttPacket → SessionManager × Output → Type 0
HandledSends packet r = AreStocked r.0.sessions × (HasShortAnswer packet → OutputSends r.1)

abbrev AcknowledgedSends : SessionManager × Output → Type 0
AcknowledgedSends r = AreStocked r.0.sessions × (Unit {0} → OutputSends r.1)

ManagerSends-AcknowledgedSends :
    (result : Result (SessionManager × Output))
    → Yields ManagerSends result
    → Yields AcknowledgedSends result
ManagerSends-AcknowledgedSends result h r e = let (kept, sends) = h r e in (kept, λ _. sends)

handle_packet-Yields :
    (senders : Senders) (client : Bytes) (connection : ℕ) (packet : MqttPacket) (m : SessionManager)
    → IsManager m
    → AreStocked m.sessions
    → IsWelcome senders client connection m packet
    → Yields (HandledSends packet) (handle_packet senders client connection packet m)
unfolding handle_packet client_disconnected client_acked_publish client_received_publish
    client_completed_publish client_released_publish
handle_packet-Yields senders client connection (MqttPacket.connect c) m v stocked w =
    bind-Yields
      (assert (not (contains_last_will c.con_flags) || not (retain_last_will c.con_flags)))
      (λ _ _.
        chain-Yields (λ m'. AreStocked m'.sessions) (client_connected senders c connection m)
          (client_connected-Yields senders c connection m stocked)
          (λ m' kept. ok-Yields AcknowledgedSends (m', []) (kept, λ _. tt)))
handle_packet-Yields senders client connection (MqttPacket.publish p) m v stocked (r, _, _) =
    ManagerSends-AcknowledgedSends _ (client_published-Yields senders client p m stocked r)
handle_packet-Yields senders client connection (MqttPacket.subscribe p) m v stocked w =
    client_subscribed-Yields senders client p m v stocked
handle_packet-Yields senders client connection (MqttPacket.puback p) m v stocked w =
    ManagerSends-AcknowledgedSends _
      (with_session-Yields _ client m stocked (session_response_received-Yields senders p))
handle_packet-Yields senders client connection (MqttPacket.pubrec p) m v stocked w =
    ManagerSends-AcknowledgedSends _
      (with_session-Yields _ client m stocked (session_response_received-Yields senders p))
handle_packet-Yields senders client connection (MqttPacket.pubcomp p) m v stocked w =
    ManagerSends-AcknowledgedSends _
      (with_session-Yields _ client m stocked (session_response_received-Yields senders p))
handle_packet-Yields senders client connection (MqttPacket.pubrel p) m v stocked w =
    ManagerSends-AcknowledgedSends _
      (with_session-Yields _ client m stocked (session_client_released_publish-Yields senders p))
handle_packet-Yields senders client connection (MqttPacket.unsubscribe p) m v stocked w =
    ManagerSends-AcknowledgedSends _
      (ok-Yields ManagerSends _ (client_unsubscribed-Sends senders client p m stocked))
handle_packet-Yields senders client connection (MqttPacket.disconnect h) m v stocked w =
    ok-Yields AcknowledgedSends _ (Named-erase (λ k. IsStocked) client m.sessions stocked, λ _. tt)
handle_packet-Yields senders client connection (MqttPacket.connack _) m v stocked w = elim w [ ]
handle_packet-Yields senders client connection (MqttPacket.suback _) m v stocked w = elim w [ ]
handle_packet-Yields senders client connection (MqttPacket.unsuback _) m v stocked w = elim w [ ]
handle_packet-Yields senders client connection (MqttPacket.pingreq _) m v stocked w = elim w [ ]
handle_packet-Yields senders client connection (MqttPacket.pingresp _) m v stocked w = elim w [ ]

Reachable-AreStocked : {m : SessionManager} → Reachable m → AreStocked m.sessions
unfolding handle_packet_received client_disconnected_ungracefully stop Manager.destroy_all
Reachable-AreStocked started = tt
Reachable-AreStocked (received senders container {m = m} h w e) =
    (handle_packet-Yields senders container.client_id container.rx_connection container.packet m
      (Reachable-IsManager h) (Reachable-AreStocked h) w _ e).0
Reachable-AreStocked (left senders client reason s will {m = m} h rooms found is e) =
    (client_disconnected_ungracefully-Yields senders client s will m (Reachable-AreStocked h) found
      is _ e).0
Reachable-AreStocked (tx_timeout max_retries id client s {table = table} {m = m} h found e) =
    let stocked = Reachable-AreStocked h in
    let own = find_name-Named (λ k. IsStocked) client s m.sessions stocked found in
    Named-replace (λ k. IsStocked) client (record s { tx = table }) m.sessions
      (timeout_expired-Yields max_retries id s.tx own _ e).0 stocked
Reachable-AreStocked (rx_timeout max_retries id client s {table = table} {m = m} h found e) =
    let stocked = Reachable-AreStocked h in
    let own = find_name-Named (λ k. IsStocked) client s m.sessions stocked found in
    Named-replace (λ k. IsStocked) client (record s { rx = table }) m.sessions own stocked
Reachable-AreStocked (stopped h) = tt

-- What the sessions send in a state, at a packet, when a client leaves or at a timer.
pub data Emits (m : SessionManager) : Output → Type 0 where
  on_packet :
      (senders : Senders) (container : PacketContainer) {m' : SessionManager} {output : Output}
      → IsWelcome senders container.client_id container.rx_connection m container.packet
      → HasShortAnswer container.packet
      → handle_packet_received senders container m ≡ ok (m', output)
      → Emits m output
  on_leave :
      (senders : Senders) (client : Bytes) (reason : DisconnectReason) (s : Session)
      (will : Option Publish) {m' : SessionManager} {output : Output}
      → find_name client m.sessions ≡ some s
      → IsWillOf s.lwt_message will
      → client_disconnected_ungracefully senders client reason m ≡ ok (m', output)
      → Emits m output
  on_tx_timeout :
      (max_retries id : ℕ) (client : Bytes) (s : Session) {table : TxInFlight}
      {effects : List Effect}
      → find_name client m.sessions ≡ some s
      → Tx.timeout_expired max_retries id s.tx ≡ ok (table, effects)
      → Emits m (on s.connection effects)
  on_rx_timeout :
      (max_retries id : ℕ) (client : Bytes) (s : Session) {table : RxInFlight}
      {effects : List Effect}
      → find_name client m.sessions ≡ some s
      → Rx.timeout_expired max_retries id s.rx ≡ ok (table, effects)
      → Emits m (on s.connection effects)

Emits-OutputSends :
    {m : SessionManager} {output : Output} → Reachable m → Emits m output → OutputSends output
unfolding handle_packet_received client_disconnected_ungracefully
Emits-OutputSends {m} h (on_packet senders container w short e) =
    (handle_packet-Yields senders container.client_id container.rx_connection container.packet m
        (Reachable-IsManager h) (Reachable-AreStocked h) w _ e).1
      short
Emits-OutputSends {m} h (on_leave senders client reason s will found is e) =
    (client_disconnected_ungracefully-Yields senders client s will m (Reachable-AreStocked h) found
      is _ e).1
Emits-OutputSends {m} h (on_tx_timeout max_retries id client s {effects = effects} found e) =
    let own = find_name-Named (λ k. IsStocked) client s m.sessions (Reachable-AreStocked h) found in
    on-OutputSends s.connection effects (timeout_expired-Yields max_retries id s.tx own _ e).1
Emits-OutputSends {m} h (on_rx_timeout max_retries id client s {effects = effects} found e) =
    on-OutputSends s.connection effects (timeout_expired-Sends max_retries id s.rx _ e)

-- A packet that is sent is encoded, into just as many bytes as its fixed header says.
abbrev pub IsEncoded : Effect → Type 0
IsEncoded (send packet) =
    (payload bytes : Bytes) × (encode packet (total_length (header_of packet).remaining_length)
      ≡ ok bytes)
    × IsPacket (header_of packet) payload bytes
IsEncoded _ = Unit {0}

CanSend-IsEncoded : (effect : Effect) → CanSend effect → IsEncoded effect
CanSend-IsEncoded (send packet) h = encode-IsSendable h
CanSend-IsEncoded start_timer h = tt
CanSend-IsEncoded cancel_timer h = tt
CanSend-IsEncoded release h = tt
CanSend-IsEncoded Effect.stop h = tt

-- In every state that the session manager comes to from the empty one (by packets that no assertion
-- stands against, by clients that leave with a last will that can be sent or none while packet
-- identifiers are free, by expired timers and by a stop), every packet that the
-- sessions send is encoded, without an exception, and into just as many bytes as the size of the
-- write buffer: at a packet that no assertion stands against, where a SUBSCRIBE is to have no more
-- topic filters than a SUBACK has room for return codes, when a client leaves with a last will that
-- can be sent or none, and at a timer of a publication.
pub Reachable-IsEncoded :
    {m : SessionManager} {output : Output}
    → Reachable m
    → Emits m output
    → All (λ e. IsEncoded e.1) output
Reachable-IsEncoded h emits = All-weaken _ (λ e. CanSend-IsEncoded e.1) (Emits-OutputSends h emits)
