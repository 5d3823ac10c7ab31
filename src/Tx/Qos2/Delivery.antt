-- ===== src/Tx/Qos2/Delivery.antt =====
-- The life of a publication with QoS 2: its start, and then answers and timeouts in any order.
pub mod Invariant
pub mod Timeouts
use wally_io.Prelude.{
  ℕ, zero, suc, ◌+◌, ◌%◌, ◌^◌, ◌≤◌, ◌<◌, ◌≡◌, refl, sym, ◌∙◌, ◌⊎◌, inl, inr, List, [], ◌∷◌, ◌++◌,
  Bool, true, false, ltb, leb, ◌==◌, Bool-cases, if◌then◌else◌, Result, ok, err, ok-injective,
  arith,
}
use wally_io.Protocol.{PacketType, type_of}
use wally_io.Packet.{PublishAck, MqttPacket}
use wally_io.Packet.PublishPacket.{set_dup}
use wally_io.Tx.{
  Effect, send, start_timer, cancel_timer, release, stop, Qos2State, waiting_for_rec,
  waiting_for_comp, Qos2TxPublication,
}
use wally_io.Tx.Log.{
  armed, releases, publishes, stops, armed-append, releases-append, publishes-append, stops-append,
}
use wally_io.Tx.Qos2.{
  start, start_ack_timeout, send_and_wait, pubrel, response_received, ack_timeout_expired,
}

-- As for QoS 1, the table passes answers on until the publication is released, and the timer's
-- handler runs only while the timer is running and the publication is there.
pub data Life (max_retries : ℕ) (first : Qos2TxPublication)
    : Qos2TxPublication → List Effect → Type 0 where
  started : Life max_retries first (start first).0 (start first).1
  answered :
      {t t' : Qos2TxPublication} {log effects : List Effect} (ack : PublishAck)
      → Life max_retries first t log
      → releases log ≡ 0
      → response_received ack t ≡ ok (t', effects)
      → Life max_retries first t' (log ++ effects)
  timed_out :
      {t t' : Qos2TxPublication} {log effects : List Effect}
      → Life max_retries first t log
      → releases log ≡ 0
      → armed false log ≡ true
      → ack_timeout_expired max_retries t ≡ ok (t', effects)
      → Life max_retries first t' (log ++ effects)

-- What is known of the state, and how often the PUBLISH has been sent by then.
abbrev pub Sent : Qos2TxPublication → List Effect → Type 0
Sent t log =
    ((t.state ≡ waiting_for_rec) × (t.retry_count ≡ 0) × (publishes log ≡ 1))
    ⊎ ((t.state ≡ waiting_for_comp) × (publishes log ≤ 2))

pub record IsWaiting (max_retries : ℕ) (t : Qos2TxPublication) (log : List Effect) : Type 0 where
  pub waiting : Sent t log
  pub timer : (armed false log ≡ true) ⊎ (1 ≤ stops log)
  pub unreleased : releases log ≡ 0
  pub retries : t.retry_count ≤ max_retries

pub record IsOver (t : Qos2TxPublication) (log : List Effect) : Type 0 where
  pub over : (t.state ≡ Qos2State.completed) ⊎ (t.state ≡ Qos2State.terminally_failed)
  pub released : releases log ≡ 1
  pub sent : publishes log ≤ 2

-- The three answers of a publication that is waiting.
pub response_received-ok :
    (ack : PublishAck) (t t' : Qos2TxPublication) (effects : List Effect)
    → response_received ack t ≡ ok (t', effects)
    → ((t' ≡ t) × (effects ≡ cancel_timer ∷ stop ∷ []))
      ⊎ ((t' ≡ record t { state = waiting_for_comp })
          × (effects ≡ cancel_timer ∷ send (pubrel t) ∷ start_timer ∷ []))
      ⊎ ((t' ≡ record t { state = Qos2State.completed }) × (effects ≡ cancel_timer ∷ release ∷ []))
unfolding response_received send_and_wait start_ack_timeout
response_received-ok ack t t' effects e = ground arith

pub retry_publish :
    (max_retries : ℕ) (t : Qos2TxPublication)
    → t.state ≡ waiting_for_rec
    → max_retries < 65535
    → t.retry_count < max_retries
    → let publish = set_dup true t.publish in
      ack_timeout_expired max_retries t
      ≡ ok (
        record t { retry_count = suc t.retry_count; publish = publish; state = waiting_for_comp },
        send (MqttPacket.publish publish) ∷ start_timer ∷ [],
      )
unfolding ack_timeout_expired send_and_wait start_ack_timeout
retry_publish max_retries t e bound more =
    let next : (t.retry_count + 1) % 2 ^ 16 ≡ suc t.retry_count = omega arith in
    let le : leb (suc t.retry_count) max_retries ≡ true = ground arith in rw (e, next, le)

pub retry_pubrel :
    (max_retries : ℕ) (t : Qos2TxPublication)
    → t.state ≡ waiting_for_comp
    → max_retries < 65535
    → t.retry_count < max_retries
    → ack_timeout_expired max_retries t
      ≡ ok (record t { retry_count = suc t.retry_count }, send (pubrel t) ∷ start_timer ∷ [])
unfolding ack_timeout_expired send_and_wait start_ack_timeout
retry_pubrel max_retries t e bound more =
    let next : (t.retry_count + 1) % 2 ^ 16 ≡ suc t.retry_count = omega arith in
    let le : leb (suc t.retry_count) max_retries ≡ true = ground arith in
    rw (e, next, le) (ground (arith, e))

pub give_up :
    (max_retries : ℕ) (t : Qos2TxPublication)
    → (t.state ≡ waiting_for_rec) ⊎ (t.state ≡ waiting_for_comp)
    → max_retries < 65535
    → t.retry_count ≡ max_retries
    → ack_timeout_expired max_retries t
      ≡ ok (
        record t { retry_count = suc max_retries; state = Qos2State.terminally_failed },
        release ∷ [],
      )
unfolding ack_timeout_expired
give_up max_retries t state bound last =
    let next : (t.retry_count + 1) % 2 ^ 16 ≡ suc max_retries = omega arith in
    let gt : leb (suc max_retries) max_retries ≡ false = ground arith in
    elim state [ inl e ↦ rw (e, next, gt) | inr e ↦ rw (e, next, gt) ]
