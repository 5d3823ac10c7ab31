-- ===== src/Tx/Qos1.antt =====
-- `qos1_tx_publication` of dispatch/tx_publication.cpp.
pub mod Delivery
use wally_io.Prelude.{
  ℕ, ◌+◌, ◌%◌, ◌^◌, List, [], ◌∷◌, Bool, true, ◌||◌, not, leb, ◌==◌, if◌then◌else◌, Result, ok, err,
  ◌>>=◌, ◌>>◌, assert,
}
use wally_io.Protocol.{at_least_once, exactly_once, PacketType, type_of, same_type}
use wally_io.Packet.{Publish, PublishAck, MqttPacket, make_pubrel}
use wally_io.Packet.PublishPacket.{set_qos, set_dup}
use wally_io.Tx.{
  Effect, send, start_timer, cancel_timer, release, Qos1State, waiting_for_ack, qos1_value,
  TxPublication, Qos1TxPublication, ack_type, next_retry,
}

unfoldable pub make : Publish → Result Qos1TxPublication
make publish = set_qos at_least_once publish >>= λ publish'.
    ok (record { publish = publish'; retry_count = 0; state = Qos1State.initial })

unfoldable pub start_ack_timeout : Qos1TxPublication → Qos1TxPublication × List Effect
start_ack_timeout t = (record t { state = waiting_for_ack }, start_timer ∷ [])

unfoldable pub start : Qos1TxPublication → Qos1TxPublication × List Effect
unfolding start_ack_timeout
start t =
    let (t', effects) = start_ack_timeout t in (t', send (MqttPacket.publish t.publish) ∷ effects)

unfoldable pub response_received :
    PublishAck → Qos1TxPublication → Result (Qos1TxPublication × List Effect)
response_received ack t = do
  assert (qos1_value t.state == 1)
  assert (same_type (ack_type ack) PacketType.puback)
  assert (ack.packet_identifier == t.publish.packet_identifier)
  ok (record t { state = Qos1State.completed }, cancel_timer ∷ release ∷ [])

unfoldable pub ack_timeout_expired :
    ℕ → Qos1TxPublication → Result (Qos1TxPublication × List Effect)
unfolding start
ack_timeout_expired max_retries t =
    let t' = record t { retry_count = next_retry t.retry_count } in
    assert (qos1_value t.state == 1)
    >> ok (
        if leb (next_retry t.retry_count) max_retries
        then start t'
        else (record t' { state = Qos1State.terminally_failed }, release ∷ []))
