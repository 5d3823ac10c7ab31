-- ===== src/Subscriptions/Unreserved.antt =====
-- No subscription with the reserved QoS, no subscriber with it
-- (dispatch/topic_subscriptions.cpp).
use wally_io.Prelude.{◌≢◌, inl, inr, Bytes, List, [], ◌∷◌, ltb, any, Bool-cases, All, same_bytes}
use wally_io.Protocol.{qos_value, reserved}
use wally_io.Packet.{Subscription}
use wally_io.Subscriptions.{
  SubscriptionContainer, ResolvedSubscriber, same_subscription, matches, emplace, emplace_all,
  resolve, resolve_all,
}

-- The greatest of unreserved QoS is unreserved.
unreserved-resolve :
    (s : SubscriptionContainer) (resolved : List ResolvedSubscriber)
    → s.maximum_qos ≢ reserved
    → All (λ r. r.1 ≢ reserved) resolved
    → All (λ r. r.1 ≢ reserved) (resolve s resolved)
unfolding resolve
unreserved-resolve s [] m h = (m, tt)
unreserved-resolve s ((c, q) ∷ resolved) m (h, hs) = elim (Bool-cases (same_bytes c s.client_id)) [
  | inl same ↦ elim (Bool-cases (ltb (qos_value q) (qos_value s.maximum_qos))) [
    | inl less ↦ rw (same, less) (m, hs)
    | inr not_less ↦ rw (same, not_less) (h, hs)
  ]
  | inr other ↦ rw other (h, unreserved-resolve s resolved m hs)
]

pub unreserved-resolve_all :
    (topic : Bytes) (subs : List SubscriptionContainer) (resolved : List ResolvedSubscriber)
    → All (λ s. s.maximum_qos ≢ reserved) subs
    → All (λ r. r.1 ≢ reserved) resolved
    → All (λ r. r.1 ≢ reserved) (resolve_all topic subs resolved)
unfolding resolve_all
unreserved-resolve_all topic [] resolved h k = k
unreserved-resolve_all topic (s ∷ subs) resolved (m, h) k = elim (Bool-cases (matches topic s)) [
  | inl does ↦ rw does (unreserved-resolve_all topic subs _ h (unreserved-resolve s resolved m k))
  | inr does_not ↦ rw does_not (unreserved-resolve_all topic subs resolved h k)
]

pub unreserved-emplace_all :
    (client : Bytes) (subs : List Subscription) (containers : List SubscriptionContainer)
    → All (λ s. s.maximum_qos ≢ reserved) subs
    → All (λ s. s.maximum_qos ≢ reserved) containers
    → All (λ s. s.maximum_qos ≢ reserved) (emplace_all client subs containers)
unfolding emplace_all emplace
unreserved-emplace_all client [] containers m h = h
unreserved-emplace_all client (s ∷ subs) containers (m, ms) h =
    let c : SubscriptionContainer = record {
      topic_filter = s.topic_filter;
      maximum_qos = s.maximum_qos;
      client_id = client;
    } in
    let added : All (λ s. s.maximum_qos ≢ reserved) (emplace c containers) =
      elim (Bool-cases (any (same_subscription c) containers)) [
        | inl there ↦ rw (emplace, there) h
        | inr absent ↦ rw (emplace, absent) (m, h)
      ] in
    unreserved-emplace_all client subs (emplace c containers) ms added
