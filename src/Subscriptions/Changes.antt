-- ===== src/Subscriptions/Changes.antt =====
-- What SUBSCRIBE and UNSUBSCRIBE change (dispatch/topic_subscriptions.cpp).
use wally_io.Prelude.{
  ◌≡◌, refl, ap, inl, inr, Bytes, List, [], ◌∷◌, map, Bool, true, false, ◌&&◌, ◌||◌, not,
  Bool-cases, any, filter, length, same_bytes, same_bytes_refl, same_bytes-eq, arith,
}
use wally_io.Protocol.{QoS, same_qos}
use wally_io.Packet.{Subscribe, Subscription, Unsubscribe, succeed, make_suback, make_publish_ack}
use wally_io.Subscriptions.{
  SubscriptionContainer, same_subscription, topic_filter_matches_one_of, emplace, emplace_all,
  subscribe, unsubscribe,
}

abbrev pub holds : SubscriptionContainer → List SubscriptionContainer → Bool
holds s subs = any (same_subscription s) subs

-- The list is the iteration of a set.
abbrev pub IsDistinct : List SubscriptionContainer → Type 0
IsDistinct [] = Unit {0}
IsDistinct (s ∷ subs) = (holds s subs ≡ false) × IsDistinct subs

-- The subscription is one that the client asks for.
abbrev pub asked : Bytes → List Subscription → SubscriptionContainer → Bool
asked client_id subscrs s =
    any
      (λ t.
        same_bytes s.topic_filter t.topic_filter
        && (same_qos s.maximum_qos t.maximum_qos && same_bytes s.client_id client_id))
      subscrs

same_subscription_refl : (s : SubscriptionContainer) → same_subscription s s ≡ true
same_subscription_refl s =
    ground (arith, same_bytes_refl s.topic_filter, same_bytes_refl s.client_id)

same_qos-eq : (p q : QoS) → same_qos p q ≡ true → p ≡ q
same_qos-eq p q e = ground arith

same_subscription-eq : (s t : SubscriptionContainer) → same_subscription s t ≡ true → s ≡ t
same_subscription-eq s t e =
    let filters : s.topic_filter ≡ t.topic_filter = same_bytes-eq _ _ (ground arith) in
    let qoses : s.maximum_qos ≡ t.maximum_qos = same_qos-eq _ _ (ground arith) in
    let clients : s.client_id ≡ t.client_id = same_bytes-eq _ _ (ground arith) in
    ground (arith, filters, qoses, clients)

holds-emplace :
    (s t : SubscriptionContainer) (subs : List SubscriptionContainer)
    → holds s (emplace t subs) ≡ (holds s subs || same_subscription s t)
unfolding emplace
holds-emplace s t subs = elim (Bool-cases (holds t subs)) [
  | inl there ↦ elim (Bool-cases (same_subscription s t)) [
    | inl same ↦
        let e : s ≡ t = same_subscription-eq s t same in
        let also : holds s subs ≡ true = rw e there in rw (there, also)
    | inr other ↦ rw (there, other) (ground arith)
  ]
  | inr absent ↦ rw absent (ground arith)
]

IsDistinct-emplace :
    (t : SubscriptionContainer) (subs : List SubscriptionContainer)
    → IsDistinct subs
    → IsDistinct (emplace t subs)
unfolding emplace
IsDistinct-emplace t subs h = elim (Bool-cases (holds t subs)) [
  | inl there ↦ rw there h
  | inr absent ↦ rw absent (absent, h)
]

emplace_all_lem :
    (client_id : Bytes) (subscrs : List Subscription) (subs : List SubscriptionContainer)
    → IsDistinct subs
    → IsDistinct (emplace_all client_id subscrs subs)
      × ((s : SubscriptionContainer)
          → holds s (emplace_all client_id subscrs subs)
            ≡ (holds s subs || asked client_id subscrs s))
unfolding emplace_all
emplace_all_lem client_id [] subs h = (h, λ s. ground arith)
emplace_all_lem client_id (subscr ∷ subscrs) subs h =
    let added : SubscriptionContainer = record {
      topic_filter = subscr.topic_filter;
      maximum_qos = subscr.maximum_qos;
      client_id = client_id;
    } in
    let (distinct, rest) =
      emplace_all_lem client_id subscrs (emplace added subs) (IsDistinct-emplace added subs h) in
    (distinct, λ s. ground (arith, rest s, holds-emplace s added subs))

holds-filter :
    (p : SubscriptionContainer → Bool) (s : SubscriptionContainer)
    (subs : List SubscriptionContainer)
    → holds s (filter p subs) ≡ (holds s subs && p s)
holds-filter p s [] = refl
holds-filter p s (t ∷ subs) = elim (Bool-cases (same_subscription s t)) [
  | inl same ↦
      let e : p s ≡ p t = ap p (same_subscription-eq s t same) in
      ground (arith, holds-filter p s subs)
  | inr other ↦ ground (arith, holds-filter p s subs)
]

IsDistinct-filter :
    (p : SubscriptionContainer → Bool) (subs : List SubscriptionContainer)
    → IsDistinct subs
    → IsDistinct (filter p subs)
IsDistinct-filter p [] h = tt
IsDistinct-filter p (t ∷ subs) (fresh, h) = elim (Bool-cases (p t)) [
  | inl kept ↦ rw kept (rw (holds-filter p t subs, fresh), IsDistinct-filter p subs h)
  | inr erased ↦ rw erased (IsDistinct-filter p subs h)
]

length-map : {A B : Type 0} (f : A → B) (xs : List A) → length (map f xs) ≡ length xs
length-map f [] = refl
length-map f (x ∷ xs) = omega (arith, length-map f xs)

-- A SUBSCRIBE to a set adds the subscriptions that the client asks for, each once, and changes no
-- other; the answer has the packet's identifier and as many return codes as the packet has
-- subscriptions.
pub subscribe_lem :
    (client_id : Bytes) (packet : Subscribe) (subs : List SubscriptionContainer)
    → IsDistinct subs
    → let (subs', suback) = subscribe client_id packet subs in
      IsDistinct subs'
      × ((s : SubscriptionContainer)
          → holds s subs' ≡ (holds s subs || asked client_id packet.subscriptions s))
      × (suback.packet_identifier ≡ packet.packet_identifier)
      × (length suback.return_codes ≡ length packet.subscriptions)
unfolding subscribe succeed make_suback
subscribe_lem client_id packet subs h =
    let (distinct, held) = emplace_all_lem client_id packet.subscriptions subs h in
    (distinct, held, refl, length-map _ packet.subscriptions)

-- An UNSUBSCRIBE from a set removes the subscriptions with one of its topic filters, those of
-- other clients too, and leaves all others; the answer has the packet's identifier.
pub unsubscribe_lem :
    (client_id : Bytes) (packet : Unsubscribe) (subs : List SubscriptionContainer)
    → IsDistinct subs
    → let (subs', unsuback) = unsubscribe client_id packet subs in
      IsDistinct subs'
      × ((s : SubscriptionContainer)
          → holds s subs'
            ≡ (holds s subs && not (any (λ f. same_bytes f s.topic_filter) packet.topic_filters)))
      × (unsuback.packet_identifier ≡ packet.packet_identifier)
unfolding unsubscribe topic_filter_matches_one_of make_publish_ack
unsubscribe_lem client_id packet subs h =
    let keeps : SubscriptionContainer → Bool =
      λ s. not (topic_filter_matches_one_of packet.topic_filters s) in
    (IsDistinct-filter keeps subs h, (λ s. holds-filter keeps s subs), refl)
