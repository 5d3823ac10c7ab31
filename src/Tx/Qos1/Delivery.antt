-- ===== src/Tx/Qos1/Delivery.antt =====
-- The life of a publication with QoS 1: its start, and then answers and timeouts in any order.
use wally_io.Prelude.{
  ℕ, zero, suc, ◌+◌, ◌%◌, ◌^◌, ◌≤◌, ◌<◌, ◌≡◌, refl, ◌⊎◌, inl, inr, List, [], ◌∷◌, ◌++◌, true, false,
  leb, ltb, sym, ◌∙◌, ok-injective, Bool-cases, Result, ok, ◌>>=◌, arith,
}
use wally_io.Packet.{PublishAck, MqttPacket}
use wally_io.Tx.{
  Effect, send, start_timer, cancel_timer, release, Qos1State, waiting_for_ack, Qos1TxPublication,
}
use wally_io.Tx.Log.{armed, releases, publishes, armed-append, releases-append, publishes-append}
use wally_io.Tx.Qos1.{start, start_ack_timeout, response_received, ack_timeout_expired}

-- The states from a start on, with all effects so far. The table passes answers on until the
-- publication is released, and the timer's handler runs only while the timer is running and the
-- publication is there.
pub data Life (max_retries : ℕ) (first : Qos1TxPublication)
    : Qos1TxPublication → List Effect → Type 0 where
  started : Life max_retries first (start first).0 (start first).1
  answered :
      {t t' : Qos1TxPublication} {log effects : List Effect} (ack : PublishAck)
      → Life max_retries first t log
      → releases log ≡ 0
      → response_received ack t ≡ ok (t', effects)
      → Life max_retries first t' (log ++ effects)
  timed_out :
      {t t' : Qos1TxPublication} {log effects : List Effect}
      → Life max_retries first t log
      → releases log ≡ 0
      → armed false log ≡ true
      → ack_timeout_expired max_retries t ≡ ok (t', effects)
      → Life max_retries first t' (log ++ effects)

pub record IsWaiting (max_retries : ℕ) (t : Qos1TxPublication) (log : List Effect) : Type 0 where
  pub waiting : t.state ≡ waiting_for_ack
  pub timer : armed false log ≡ true
  pub unreleased : releases log ≡ 0
  pub sent : publishes log ≡ suc t.retry_count
  pub retries : t.retry_count ≤ max_retries

pub record IsOver (max_retries : ℕ) (t : Qos1TxPublication) (log : List Effect) : Type 0 where
  pub over : (t.state ≡ Qos1State.completed) ⊎ (t.state ≡ Qos1State.terminally_failed)
  pub released : releases log ≡ 1
  pub sent : publishes log ≤ suc max_retries

response_received-ok :
    (ack : PublishAck) (t t' : Qos1TxPublication) (effects : List Effect)
    → response_received ack t ≡ ok (t', effects)
    → (t' ≡ record t { state = Qos1State.completed }) × (effects ≡ cancel_timer ∷ release ∷ [])
unfolding response_received
response_received-ok ack t t' effects e = ground arith

retry :
    (max_retries : ℕ) (t : Qos1TxPublication)
    → t.state ≡ waiting_for_ack
    → max_retries < 65535
    → t.retry_count < max_retries
    → ack_timeout_expired max_retries t
      ≡ ok (
        record t { retry_count = suc t.retry_count },
        send (MqttPacket.publish t.publish) ∷ start_timer ∷ [],
      )
unfolding ack_timeout_expired start start_ack_timeout
retry max_retries t e bound more =
    let next : (t.retry_count + 1) % 2 ^ 16 ≡ suc t.retry_count = omega arith in
    let le : leb (suc t.retry_count) max_retries ≡ true = ground arith in
    rw (e, next, le) (ground (arith, e))

give_up :
    (max_retries : ℕ) (t : Qos1TxPublication)
    → t.state ≡ waiting_for_ack
    → max_retries < 65535
    → t.retry_count ≡ max_retries
    → ack_timeout_expired max_retries t
      ≡ ok (
        record t { retry_count = suc max_retries; state = Qos1State.terminally_failed },
        release ∷ [],
      )
unfolding ack_timeout_expired
give_up max_retries t e bound last =
    let next : (t.retry_count + 1) % 2 ^ 16 ≡ suc max_retries = omega arith in
    let gt : leb (suc max_retries) max_retries ≡ false = ground arith in rw (e, next, gt)

module _ (max_retries : ℕ) (bound : max_retries < 65535) where
  IsWaiting-retry :
      (t : Qos1TxPublication) (log : List Effect)
      → IsWaiting max_retries t log
      → t.retry_count < max_retries
      → IsWaiting max_retries
          (record t { retry_count = suc t.retry_count })
          (log ++ (send (MqttPacket.publish t.publish) ∷ start_timer ∷ []))
  IsWaiting-retry t log w more =
      let effects = send (MqttPacket.publish t.publish) ∷ start_timer ∷ [] in
      record {
        waiting = w.waiting;
        timer = armed-append false log effects;
        unreleased = omega (arith, w, releases-append log effects);
        sent = omega (arith, w, publishes-append log effects);
        retries = omega (arith, more);
      }

  IsOver-release :
      (t : Qos1TxPublication) (log effects : List Effect)
      → (t.state ≡ Qos1State.completed) ⊎ (t.state ≡ Qos1State.terminally_failed)
      → releases log ≡ 0
      → publishes log ≤ suc max_retries
      → releases effects ≡ 1
      → publishes effects ≡ 0
      → IsOver max_retries t (log ++ effects)
  IsOver-release t log effects over unreleased sent one no_publish = record {
    over = over;
    released = omega (arith, releases-append log effects);
    sent = omega (arith, publishes-append log effects);
  }

  -- With fewer than 65535 retries, and none counted at the start: in every state of its life a
  -- publication is waiting with its timer running, or it is over and has been released, once. The
  -- PUBLISH has been sent at most once more than there are retries.
  pub qos1_Life_lem :
      {first t : Qos1TxPublication} {log : List Effect}
      → first.retry_count ≡ 0
      → Life max_retries first t log
      → IsWaiting max_retries t log ⊎ IsOver max_retries t log
  unfolding start start_ack_timeout
  qos1_Life_lem fresh started = inl (record {
    waiting = refl;
    timer = refl;
    unreleased = refl;
    sent = omega (arith, fresh);
    retries = omega (arith, fresh);
  })
  qos1_Life_lem fresh (answered {t} {t'} {log} {effects} ack life unreleased e) =
      elim (qos1_Life_lem fresh life) [
        | inl w ↦
            let (t'_eq, effects_eq) = response_received-ok ack t t' effects e in
            inr (
              rw (t'_eq, effects_eq)
                (IsOver-release _ log _ (inl refl) w.unreleased (omega (arith, w)) refl refl))
        | inr o ↦ absurd (omega (arith, o))
      ]
  qos1_Life_lem fresh (timed_out {t} {t'} {log} {effects} life unreleased running e) =
      elim (qos1_Life_lem fresh life) [
        | inl w ↦ elim (Bool-cases (ltb t.retry_count max_retries)) [
          | inl less ↦
              let more : t.retry_count < max_retries = ground arith in
              let again = retry max_retries t w.waiting bound more in
              let (t'_eq, effects_eq) = ok-injective (sym again ∙ e) in
              inl (rw (← t'_eq, ← effects_eq) (IsWaiting-retry t log w more))
          | inr not_less ↦
              let last : t.retry_count ≡ max_retries = ground (arith, w.retries) in
              let end = give_up max_retries t w.waiting bound last in
              let (t'_eq, effects_eq) = ok-injective (sym end ∙ e) in
              inr (
                rw (← t'_eq, ← effects_eq)
                  (IsOver-release _ log _ (inr refl) w.unreleased (omega (arith, w)) refl refl))
        ]
        | inr o ↦ absurd (omega (arith, o))
      ]

  -- With fewer than 65535 retries, and none counted at the start: as long as a publication has not
  -- been released its timer is running, and an expired timer is handled with no assertion failing.
  pub ack_timeout_expired_lem :
      {first t : Qos1TxPublication} {log : List Effect}
      → first.retry_count ≡ 0
      → Life max_retries first t log
      → releases log ≡ 0
      → (armed false log ≡ true)
        × ((t' : Qos1TxPublication) × (effects : List Effect) × (ack_timeout_expired max_retries t
              ≡ ok (t', effects)))
  ack_timeout_expired_lem {first} {t} {log} fresh life unreleased =
      elim (qos1_Life_lem fresh life) [
        | inl w ↦ (
          w.timer,
          elim (Bool-cases (ltb t.retry_count max_retries)) [
            | inl less ↦ (_, _, retry max_retries t w.waiting bound (ground arith))
            | inr not_less ↦
                (_, _, give_up max_retries t w.waiting bound (ground (arith, w.retries)))
          ],
        )
        | inr o ↦ absurd (omega (arith, o))
      ]

-- The timer runs out `n` times, with no answer in between.
abbrev pub timeouts :
    ℕ → ℕ → Qos1TxPublication → List Effect → Result (Qos1TxPublication × List Effect)
timeouts max_retries zero t log = ok (t, log)
timeouts max_retries (suc n) t log =
    ack_timeout_expired max_retries t >>= λ next. timeouts max_retries n next.0 (log ++ next.1)

timeouts_from :
    (max_retries n : ℕ) (t : Qos1TxPublication) (log : List Effect)
    → max_retries < 65535
    → IsWaiting max_retries t log
    → t.retry_count + n ≡ max_retries
    → (t' : Qos1TxPublication) × (log' : List Effect) × (timeouts max_retries (suc n) t log
        ≡ ok (t', log'))
      × (t'.state ≡ Qos1State.terminally_failed)
      × (publishes log' ≡ suc max_retries)
      × (releases log' ≡ 1)
timeouts_from max_retries zero t log bound w last =
    let end = give_up max_retries t w.waiting bound (omega arith) in
    (
      record t { retry_count = suc max_retries; state = Qos1State.terminally_failed },
      log ++ (release ∷ []),
      rw end,
      refl,
      omega (arith, w, publishes-append log (release ∷ [])),
      omega (arith, w, releases-append log (release ∷ [])),
    )
timeouts_from max_retries (suc n) t log bound w last =
    let again = retry max_retries t w.waiting bound (omega arith) in
    let next = IsWaiting-retry max_retries bound t log w (omega arith) in
    let (t', log', e, failed, sent, released) =
      timeouts_from max_retries n _ _ bound next (omega arith) in
    (t', log', rw again e, failed, sent, released)

-- With fewer than 65535 retries, and none counted at the start, a publication is given up without
-- an answer: the timeout behind the last retry releases it, and by then the PUBLISH has been sent
-- once and once for each retry.
pub qos1_timeouts_lem :
    (max_retries : ℕ) (first : Qos1TxPublication)
    → max_retries < 65535
    → first.retry_count ≡ 0
    → (t' : Qos1TxPublication) × (log' : List Effect) × (timeouts max_retries
          (suc max_retries)
          (start first).0
          (start first).1
        ≡ ok (t', log'))
      × (t'.state ≡ Qos1State.terminally_failed)
      × (publishes log' ≡ suc max_retries)
      × (releases log' ≡ 1)
unfolding start start_ack_timeout
qos1_timeouts_lem max_retries first bound fresh =
    timeouts_from max_retries max_retries (start first).0 (start first).1 bound
      (record {
        waiting = refl;
        timer = refl;
        unreleased = refl;
        sent = omega (arith, fresh);
        retries = omega (arith, fresh);
      })
      (omega (arith, fresh))
