-- ===== src/Dispatcher.antt =====
-- source/server/io_wally/dispatch/dispatcher.cpp, and `packet_container` of dispatch/common.hpp. The
-- class of a packet is that which its fixed header names, as its constructor or its decoder set it.
pub mod Invariant
pub mod Reachable
pub mod Sendable
use wally_io.Prelude.{
  ℕ, Bytes, List, [], Bool, ◌&&◌, ◌||◌, not, Result, ok, err, ◌>>=◌, ◌>>◌, assert, assertion_failed,
}
use wally_io.Packet.{MqttPacket, contains_last_will, retain_last_will}
use wally_io.Sessions.{Senders, SessionManager, Output}
use wally_io.Sessions.Manager.{
  client_connected, client_disconnected, client_subscribed, client_unsubscribed, client_published,
  client_acked_publish, client_received_publish, client_released_publish, client_completed_publish,
}
use wally_io.Sessions.Manager as Manager

pub data DisconnectReason : Type 0 where
  not_a_disconnect client_disconnect authentication_failed : DisconnectReason
  protocol_violation keep_alive_timeout_expired network_or_server_failure : DisconnectReason

pub record PacketContainer : Type 0 where
  pub client_id : Bytes
  pub rx_connection : ℕ
  pub packet : MqttPacket
  pub disconnect_reason : DisconnectReason

-- `handle_packet_received`, by the class of the packet.
unfoldable pub handle_packet :
    Senders → Bytes → ℕ → MqttPacket → SessionManager → Result (SessionManager × Output)
unfolding contains_last_will retain_last_will client_connected client_disconnected client_subscribed
    client_unsubscribed client_published client_acked_publish client_received_publish
    client_released_publish client_completed_publish
handle_packet senders client connection (MqttPacket.connect c) m =
    assert (not (contains_last_will c.con_flags) || not (retain_last_will c.con_flags))
    >> (client_connected senders c connection m >>= λ m'. ok (m', []))
handle_packet senders client connection (MqttPacket.disconnect h) m =
    ok (client_disconnected client m, [])
handle_packet senders client connection (MqttPacket.subscribe p) m =
    client_subscribed senders client p m
handle_packet senders client connection (MqttPacket.unsubscribe p) m =
    ok (client_unsubscribed senders client p m)
handle_packet senders client connection (MqttPacket.publish p) m =
    client_published senders client p m
handle_packet senders client connection (MqttPacket.puback p) m =
    client_acked_publish senders client p m
handle_packet senders client connection (MqttPacket.pubrec p) m =
    client_received_publish senders client p m
handle_packet senders client connection (MqttPacket.pubrel p) m =
    client_released_publish senders client p m
handle_packet senders client connection (MqttPacket.pubcomp p) m =
    client_completed_publish senders client p m
handle_packet senders client connection _ m = err assertion_failed

unfoldable pub handle_packet_received :
    Senders → PacketContainer → SessionManager → Result (SessionManager × Output)
unfolding handle_packet
handle_packet_received senders container m =
    handle_packet senders container.client_id container.rx_connection container.packet m

-- The reason is used for the log only.
unfoldable pub client_disconnected_ungracefully :
    Senders → Bytes → DisconnectReason → SessionManager → Result (SessionManager × Output)
unfolding Manager.client_disconnected_ungracefully
client_disconnected_ungracefully senders client_id reason m =
    Manager.client_disconnected_ungracefully senders client_id m

-- `dispatcher::stop`
unfoldable pub stop : SessionManager → SessionManager
unfolding Manager.destroy_all
stop m = Manager.destroy_all m
