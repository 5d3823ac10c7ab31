-- ===== src/Rx.antt =====
-- source/server/io_wally/dispatch/rx_publication.cpp and rx_in_flight_publications.cpp: the
-- PUBLISHes that a client has sent. The effects are those of Tx.
pub mod Table
pub mod Events
pub mod Once
pub mod Sendable
use wally_io.Prelude.{
  ℕ, ◌+◌, ◌%◌, ◌^◌, List, [], ◌∷◌, Bool, leb, ◌==◌, if◌then◌else◌, Result, ok, err, ◌>>=◌, ◌>>◌,
  assert,
}
use wally_io.Packet.{Publish, PublishAck, MqttPacket, make_pubrec, make_pubcomp}
use wally_io.Tx.{Effect, send, start_timer, cancel_timer, release, next_retry}

pub data RxState : Type 0 where
  initial waiting_for_rel completed terminally_failed : RxState

-- The values of the enumerators.
abbrev pub rx_value : RxState → ℕ
rx_value initial = 0
rx_value waiting_for_rel = 1
rx_value completed = 2
rx_value terminally_failed = 3

pub record RxPublication : Type 0 where
  pub publish_id : ℕ
  pub retry_count : ℕ
  pub state : RxState

unfoldable pub make_rx_publication : Publish → RxPublication
make_rx_publication publish = record {
  publish_id = publish.packet_identifier;
  retry_count = 0;
  state = initial;
}

unfoldable pub start_pubrel_timeout : RxPublication → RxPublication × List Effect
start_pubrel_timeout r = (record r { state = waiting_for_rel }, start_timer ∷ [])

unfoldable pub start : RxPublication → RxPublication × List Effect
unfolding start_pubrel_timeout
start r =
    let (r', effects) = start_pubrel_timeout r in
    (r', send (MqttPacket.pubrec (make_pubrec r.publish_id)) ∷ effects)

-- `rx_publication::client_sent_pubrel`
unfoldable pub complete : PublishAck → RxPublication → Result (RxPublication × List Effect)
complete pubrel r = do
  assert (rx_value r.state == 1)
  assert (pubrel.packet_identifier == r.publish_id)
  let pubcomp = MqttPacket.pubcomp (make_pubcomp r.publish_id)
  ok (record r { state = completed }, send pubcomp ∷ cancel_timer ∷ release ∷ [])

unfoldable pub pubrel_timeout_expired : ℕ → RxPublication → Result (RxPublication × List Effect)
unfolding start
pubrel_timeout_expired max_retries r =
    let r' = record r { retry_count = next_retry r.retry_count } in
    assert (rx_value r.state == 1)
    >> ok (
        if leb (next_retry r.retry_count) max_retries
        then start r'
        else (record r' { state = terminally_failed }, release ∷ []))
