-- ===== src/Tx/Qos2/Delivery/Invariant.antt =====
-- What holds in every state of the life of a publication with QoS 2.
use wally_io.Prelude.{
  ℕ, suc, ◌≤◌, ◌<◌, ◌≡◌, refl, sym, ◌∙◌, ◌⊎◌, inl, inr, List, [], ◌∷◌, ◌++◌, true, false, ltb,
  Bool-cases, ok, ok-injective, arith,
}
use wally_io.Packet.{MqttPacket}
use wally_io.Packet.PublishPacket.{set_dup}
use wally_io.Tx.{
  Effect, send, start_timer, cancel_timer, release, stop, Qos2State, waiting_for_rec,
  waiting_for_comp, Qos2TxPublication,
}
use wally_io.Tx.Log.{
  armed, releases, publishes, stops, armed-append, releases-append, publishes-append, stops-append,
}
use wally_io.Tx.Qos2.{
  start, start_ack_timeout, send_and_wait, pubrel, response_received, ack_timeout_expired,
}
use wally_io.Tx.Qos2.Delivery.{
  Life, started, answered, timed_out, Sent, IsWaiting, IsOver, response_received-ok, retry_publish,
  retry_pubrel, give_up,
}

module _ (max_retries : ℕ) (bound : max_retries < 65535) where
  -- Behind effects that release nothing and leave the timer running, or stop the connection.
  IsWaiting-append :
      (t : Qos2TxPublication) (log effects : List Effect)
      → releases log ≡ 0
      → releases effects ≡ 0
      → t.retry_count ≤ max_retries
      → ((b : _) → armed b effects ≡ true) ⊎ (1 ≤ stops effects)
      → Sent t (log ++ effects)
      → IsWaiting max_retries t (log ++ effects)
  IsWaiting-append t log effects unreleased no_release retries timer sent = record {
    waiting = sent;
    timer = elim timer [
      | inl runs ↦ inl (armed-append false log effects ∙ runs (armed false log))
      | inr stopped ↦ inr (omega (arith, stops-append log effects))
    ];
    unreleased = omega (arith, releases-append log effects);
    retries = retries;
  }

  IsOver-release :
      (t : Qos2TxPublication) (log effects : List Effect)
      → (t.state ≡ Qos2State.completed) ⊎ (t.state ≡ Qos2State.terminally_failed)
      → releases log ≡ 0
      → publishes log ≤ 2
      → releases effects ≡ 1
      → publishes effects ≡ 0
      → IsOver t (log ++ effects)
  IsOver-release t log effects over unreleased sent one no_publish = record {
    over = over;
    released = omega (arith, releases-append log effects);
    sent = omega (arith, publishes-append log effects);
  }

  few : (t : Qos2TxPublication) (log : List Effect) → Sent t log → publishes log ≤ 2
  few t log sent = omega (arith, sent)

  answered_lem :
      (t t' : Qos2TxPublication) (log effects : List Effect) (ack : _)
      → IsWaiting max_retries t log
      → response_received ack t ≡ ok (t', effects)
      → IsWaiting max_retries t' (log ++ effects) ⊎ IsOver t' (log ++ effects)
  answered_lem t t' log effects ack w e = elim (response_received-ok ack t t' effects e) [
    | inl (t'_eq, effects_eq) ↦
        let es = cancel_timer ∷ stop ∷ [] in
        let sent : Sent t (log ++ es) = ground (arith, w.waiting, publishes-append log es) in
        inl (
          rw (t'_eq, effects_eq)
            (IsWaiting-append t log es w.unreleased refl w.retries (inr (omega arith)) sent))
    | inr (inl (t'_eq, effects_eq)) ↦
        let es = cancel_timer ∷ send (pubrel t) ∷ start_timer ∷ [] in
        let sent = inr (refl, omega (arith, few t log w.waiting, publishes-append log es)) in
        inl (
          rw (t'_eq, effects_eq)
            (IsWaiting-append (record t { state = waiting_for_comp }) log es w.unreleased refl
              w.retries (inl (λ b. refl)) sent))
    | inr (inr (t'_eq, effects_eq)) ↦ inr (
        rw (t'_eq, effects_eq)
          (IsOver-release (record t { state = Qos2State.completed }) log
            (cancel_timer ∷ release ∷ []) (inl refl) w.unreleased (few t log w.waiting) refl refl))
  ]

  retry_lem :
      (t : Qos2TxPublication) (log : List Effect)
      → IsWaiting max_retries t log
      → t.retry_count < max_retries
      → (t' : Qos2TxPublication) × (effects : List Effect) × (ack_timeout_expired max_retries t
          ≡ ok (t', effects))
        × IsWaiting max_retries t' (log ++ effects)
  retry_lem t log w more = elim w.waiting [
    | inl (in_rec, fresh, once) ↦
        let p = set_dup true t.publish in
        let t' : Qos2TxPublication = record t {
          retry_count = suc t.retry_count;
          publish = p;
          state = waiting_for_comp;
        } in
        let es = send (MqttPacket.publish p) ∷ start_timer ∷ [] in
        (
          t',
          es,
          retry_publish max_retries t in_rec bound more,
          IsWaiting-append t' log es w.unreleased refl (omega (arith, more)) (inl (λ b. refl))
              (inr (refl, omega (arith, once, publishes-append log es))),
        )
    | inr (in_comp, most) ↦
        let t' : Qos2TxPublication = record t { retry_count = suc t.retry_count } in
        let es = send (pubrel t) ∷ start_timer ∷ [] in
        (
          t',
          es,
          retry_pubrel max_retries t in_comp bound more,
          IsWaiting-append t' log es w.unreleased refl (omega (arith, more)) (inl (λ b. refl))
              (inr (in_comp, omega (arith, most, publishes-append log es))),
        )
  ]

  give_up_lem :
      (t : Qos2TxPublication) (log : List Effect)
      → IsWaiting max_retries t log
      → t.retry_count ≡ max_retries
      → (t' : Qos2TxPublication) × (effects : List Effect) × (ack_timeout_expired max_retries t
          ≡ ok (t', effects))
        × IsOver t' (log ++ effects)
  give_up_lem t log w last =
      let state : (t.state ≡ waiting_for_rec) ⊎ (t.state ≡ waiting_for_comp) = elim w.waiting [
        | inl s ↦ inl s.0
        | inr s ↦ inr s.0
      ] in
      let t' : Qos2TxPublication = record t {
        retry_count = suc max_retries;
        state = Qos2State.terminally_failed;
      } in
      (
        t',
        release ∷ [],
        give_up max_retries t state bound last,
        IsOver-release t' log (release ∷ []) (inr refl) w.unreleased (few t log w.waiting) refl
            refl,
      )

  -- An expired timer of a waiting publication is handled.
  expired_lem :
      (t : Qos2TxPublication) (log : List Effect)
      → IsWaiting max_retries t log
      → (t' : Qos2TxPublication) × (effects : List Effect) × (ack_timeout_expired max_retries t
          ≡ ok (t', effects))
        × (IsWaiting max_retries t' (log ++ effects) ⊎ IsOver t' (log ++ effects))
  expired_lem t log w = elim (Bool-cases (ltb t.retry_count max_retries)) [
    | inl less ↦ let (t', es, e, v) = retry_lem t log w (ground arith) in (t', es, e, inl v)
    | inr not_less ↦
        let (t', es, e, v) = give_up_lem t log w (ground (arith, w.retries)) in (t', es, e, inr v)
  ]

  -- With fewer than 65535 retries, and none counted at the start: in every state of its life a
  -- publication is waiting, with its timer running unless it has stopped the connection, or it is
  -- over and has been released, once. The PUBLISH has been sent at most twice, whatever the number
  -- of retries.
  pub qos2_Life_lem :
      {first t : Qos2TxPublication} {log : List Effect}
      → first.retry_count ≡ 0
      → first.state ≡ Qos2State.initial
      → Life max_retries first t log
      → IsWaiting max_retries t log ⊎ IsOver t log
  unfolding start start_ack_timeout send_and_wait
  qos2_Life_lem fresh at_start started = inl (record {
    waiting = inl (rw at_start, fresh, refl);
    timer = inl refl;
    unreleased = refl;
    retries = omega (arith, fresh);
  })
  qos2_Life_lem fresh at_start (answered {t} {t'} {log} {effects} ack life unreleased e) =
      elim (qos2_Life_lem fresh at_start life) [
        | inl w ↦ answered_lem t t' log effects ack w e
        | inr o ↦ absurd (omega (arith, o))
      ]
  qos2_Life_lem fresh at_start (timed_out {t} {t'} {log} {effects} life unreleased running e) =
      elim (qos2_Life_lem fresh at_start life) [
        | inl w ↦
            let (t'', effects', e', v) = expired_lem t log w in
            let (t'_eq, effects_eq) = ok-injective (sym e' ∙ e) in rw (← t'_eq, ← effects_eq) v
        | inr o ↦ absurd (omega (arith, o))
      ]
