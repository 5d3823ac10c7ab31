-- ===== src/Tx/Qos2/Delivery/Timeouts.antt =====
-- A publication with QoS 2 that is never answered.
use wally_io.Prelude.{
  ℕ, zero, suc, ◌+◌, ◌<◌, ◌≡◌, refl, ap, ◌∙◌, append_assoc, inr, true, List, [], ◌∷◌, ◌++◌, Result,
  ok, ◌>>=◌, arith,
}
use wally_io.Packet.{MqttPacket, make_pubrel}
use wally_io.Packet.PublishPacket.{set_dup}
use wally_io.Tx.{
  Effect, send, start_timer, release, Qos2State, waiting_for_rec, waiting_for_comp,
  Qos2TxPublication,
}
use wally_io.Tx.Qos2.{start, start_ack_timeout, send_and_wait, pubrel, ack_timeout_expired}
use wally_io.Tx.Qos2.Delivery.{retry_publish, retry_pubrel, give_up}

-- The timer runs out `n` times, with no answer in between.
abbrev pub timeouts :
    ℕ → ℕ → Qos2TxPublication → List Effect → Result (Qos2TxPublication × List Effect)
timeouts max_retries zero t log = ok (t, log)
timeouts max_retries (suc n) t log =
    ack_timeout_expired max_retries t >>= λ next. timeouts max_retries n next.0 (log ++ next.1)

-- A PUBREL, sent for a PUBLISH `n` times, each with the timer started behind it.
abbrev pub pubrel_retries : ℕ → ℕ → List Effect
pubrel_retries id zero = []
pubrel_retries id (suc n) =
    send (MqttPacket.pubrel (make_pubrel id)) ∷ start_timer ∷ pubrel_retries id n

timeouts_waiting_for_comp :
    (max_retries n : ℕ) (t : Qos2TxPublication) (log : List Effect)
    → max_retries < 65535
    → t.state ≡ waiting_for_comp
    → t.retry_count + n ≡ max_retries
    → (t' : Qos2TxPublication) × (timeouts max_retries (suc n) t log
        ≡ ok (t', log ++ (pubrel_retries t.publish.packet_identifier n ++ release ∷ [])))
      × (t'.state ≡ Qos2State.terminally_failed)
timeouts_waiting_for_comp max_retries zero t log bound in_comp last = (
  record t { retry_count = suc max_retries; state = Qos2State.terminally_failed },
  rw (give_up max_retries t (inr in_comp) bound (omega arith)),
  refl,
)
timeouts_waiting_for_comp max_retries (suc n) t log bound in_comp last =
    let es = send (pubrel t) ∷ start_timer ∷ [] in
    let again = retry_pubrel max_retries t in_comp bound (omega arith) in
    let (t', e, failed) =
      timeouts_waiting_for_comp max_retries n (record t { retry_count = suc t.retry_count })
        (log ++ es) bound in_comp (omega arith) in
    let rest = pubrel_retries t.publish.packet_identifier n ++ release ∷ [] in
    (t', rw again (e ∙ ap (λ (l : List Effect). ok (t', l)) (append_assoc log es rest)), failed)

-- With `k + 1` retries, fewer than 65535, and none counted at the start, a publication is given up
-- without an answer, at the timeout behind the last retry, and has done this and nothing else, in
-- this order: the PUBLISH is sent; it is sent again with the DUP flag, at the first retry; a PUBREL
-- with its packet identifier is sent at each of the other `k`, although no PUBREC has been received; each
-- time the timer is started; and the publication is released, once.
pub qos2_timeouts_lem :
    (k : ℕ) (first : Qos2TxPublication)
    → suc k < 65535
    → first.retry_count ≡ 0
    → first.state ≡ Qos2State.initial
    → (t' : Qos2TxPublication) × (timeouts (suc k) (suc (suc k)) (start first).0 (start first).1
        ≡ ok (
          t',
          send (MqttPacket.publish first.publish)
              ∷ start_timer
              ∷ send (MqttPacket.publish (set_dup true first.publish))
              ∷ start_timer
              ∷ (pubrel_retries first.publish.packet_identifier k ++ release ∷ []),
        ))
      × (t'.state ≡ Qos2State.terminally_failed)
unfolding start start_ack_timeout send_and_wait set_dup
qos2_timeouts_lem k first bound fresh at_start =
    let t = (start first).0 in
    let log = (start first).1 in
    let p = set_dup true t.publish in
    let es = send (MqttPacket.publish p) ∷ start_timer ∷ [] in
    let in_rec : t.state ≡ waiting_for_rec = rw at_start in
    let again = retry_publish (suc k) t in_rec bound (omega (arith, fresh)) in
    let (t', e, failed) =
      timeouts_waiting_for_comp (suc k) k
        (record t { retry_count = suc t.retry_count; publish = p; state = waiting_for_comp })
        (log ++ es) bound refl (omega (arith, fresh)) in
    (t', rw again e, failed)
