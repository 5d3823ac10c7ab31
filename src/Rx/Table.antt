-- ===== src/Rx/Table.antt =====
-- `rx_in_flight_publications` of dispatch/rx_in_flight_publications.cpp.
use wally_io.Prelude.{
  ℕ, List, [], ◌∷◌, Bool, true, false, ltb, if◌then◌else◌, none, some, Result, ok, ◌>>=◌, ◌>>◌,
  assert, find_key, assign, erase_key,
}
use wally_io.Protocol.{same_qos, at_least_once, exactly_once}
use wally_io.Packet.{Publish, PublishAck, MqttPacket, make_puback}
use wally_io.Packet.PublishPacket.{qos}
use wally_io.Tx.{Effect, send, stop}
use wally_io.Tx.Log.{releases}
use wally_io.Rx.{RxPublication, make_rx_publication, start, complete, pubrel_timeout_expired}

-- `publications_`
abbrev pub RxInFlight : Type 0
RxInFlight = List (ℕ × RxPublication)

-- `rx_in_flight_publications::release`
unfoldable pub release_publication : ℕ → RxInFlight → Result RxInFlight
release_publication id table = elim (find_key id table) [
  | none ↦ assert false >> ok table
  | some r ↦ ok (erase_key id table)
]

-- The publication under a key has changed. It may have called `release`.
unfoldable pub update :
    ℕ → RxInFlight → RxPublication × List Effect → Result (RxInFlight × List Effect)
unfolding release_publication
update id table (r, effects) =
    let table' = assign id r table in
    if ltb 0 (releases effects)
    then (release_publication r.publish_id table' >>= λ table''. ok (table'', effects))
    else ok (table', effects)

-- Whether to dispatch the PUBLISH; `connected` is whether the sender is still there.
unfoldable pub client_sent_publish :
    Bool → Publish → RxInFlight → Result (RxInFlight × List Effect × Bool)
unfolding start make_rx_publication
client_sent_publish connected publish table =
    let id = publish.packet_identifier in
    let (r, effects) = start (make_rx_publication publish) in
    elim (find_key id table) [
      | some seen ↦ ok (table, [], false)
      | none ↦ ok (
          if same_qos (qos publish) at_least_once
          then (
            table,
            if connected then send (MqttPacket.puback (make_puback id)) ∷ [] else [],
            true,
          )
          else if same_qos (qos publish) exactly_once
          then (if connected then ((id, r) ∷ table, effects, true) else (table, [], true))
          else (table, [], true))
    ]

unfoldable pub client_sent_pubrel :
    Bool → PublishAck → RxInFlight → Result (RxInFlight × List Effect)
unfolding complete update
client_sent_pubrel connected pubrel table =
    let id = pubrel.packet_identifier in
    if connected
    then elim (find_key id table) [
      | some r ↦ (complete pubrel r >>= update id table)
      | none ↦ ok (table, stop ∷ [])
    ]
    else ok (table, [])

-- The timer of the publication `id` has expired. If it is no more, nothing is done.
unfoldable pub timeout_expired : ℕ → ℕ → RxInFlight → Result (RxInFlight × List Effect)
unfolding pubrel_timeout_expired update
timeout_expired max_retries id table = elim (find_key id table) [
  | none ↦ ok (table, [])
  | some r ↦ (pubrel_timeout_expired max_retries r >>= update id table)
]
