-- ===== src/Tx/Qos2.antt =====
-- `qos2_tx_publication` of dispatch/tx_publication.cpp.
pub mod Delivery
use wally_io.Prelude.{
  ℕ, ◌+◌, ◌%◌, ◌^◌, List, [], ◌∷◌, Bool, true, ◌||◌, not, leb, ◌==◌, if◌then◌else◌, Result, ok, err,
  ◌>>=◌, ◌>>◌, assert,
}
use wally_io.Protocol.{at_least_once, exactly_once, PacketType, type_of, same_type}
use wally_io.Packet.{Publish, PublishAck, MqttPacket, make_pubrel}
use wally_io.Packet.PublishPacket.{set_qos, set_dup}
use wally_io.Tx.{
  Effect, send, start_timer, cancel_timer, release, stop, Qos2State, waiting_for_rec,
  waiting_for_comp, qos2_value, TxPublication, Qos2TxPublication, ack_type, next_retry,
}

unfoldable pub make : Publish → Result Qos2TxPublication
make publish = set_qos exactly_once publish >>= λ publish'.
    ok (record { publish = publish'; retry_count = 0; state = Qos2State.initial })

unfoldable pub start_ack_timeout : Qos2TxPublication → Qos2TxPublication × List Effect
start_ack_timeout t = (
  record t { state = if qos2_value t.state == 0 then waiting_for_rec else waiting_for_comp },
  start_timer ∷ [],
)

-- A packet is sent, and the timer started.
unfoldable pub send_and_wait : MqttPacket → Qos2TxPublication → Qos2TxPublication × List Effect
unfolding start_ack_timeout
send_and_wait packet t = let (t', effects) = start_ack_timeout t in (t', send packet ∷ effects)

unfoldable pub start : Qos2TxPublication → Qos2TxPublication × List Effect
unfolding send_and_wait
start t = send_and_wait (MqttPacket.publish t.publish) t

abbrev pub pubrel : Qos2TxPublication → MqttPacket
pubrel t = MqttPacket.pubrel (make_pubrel t.publish.packet_identifier)

abbrev cancelled : Qos2TxPublication × List Effect → Qos2TxPublication × List Effect
cancelled (t, effects) = (t, cancel_timer ∷ effects)

unfoldable pub response_received :
    PublishAck → Qos2TxPublication → Result (Qos2TxPublication × List Effect)
unfolding send_and_wait
response_received ack t =
    let is_pubrec = same_type (ack_type ack) PacketType.pubrec in
    assert (qos2_value t.state == 1 || qos2_value t.state == 2)
    >> (if qos2_value t.state == 1
        then (if not is_pubrec
            then ok (t, cancel_timer ∷ stop ∷ [])
            else assert (ack.packet_identifier == t.publish.packet_identifier)
              >> ok (cancelled (send_and_wait (pubrel t) t)))
        else if is_pubrec
        then ok (cancelled (send_and_wait (pubrel t) t))
        else assert (same_type (ack_type ack) PacketType.pubcomp)
          >> ok (record t { state = Qos2State.completed }, cancel_timer ∷ release ∷ []))

unfoldable pub ack_timeout_expired :
    ℕ → Qos2TxPublication → Result (Qos2TxPublication × List Effect)
unfolding send_and_wait
ack_timeout_expired max_retries t =
    let t' = record t { retry_count = next_retry t.retry_count } in
    let duplicate = record t' { publish = set_dup true t'.publish } in
    assert (qos2_value t.state == 1 || qos2_value t.state == 2)
    >> ok (
        if leb (next_retry t.retry_count) max_retries
        then (if qos2_value t.state == 1
            then send_and_wait (MqttPacket.publish duplicate.publish) duplicate
            else send_and_wait (pubrel t') t')
        else (record t' { state = Qos2State.terminally_failed }, release ∷ []))
