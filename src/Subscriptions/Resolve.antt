-- ===== src/Subscriptions/Resolve.antt =====
-- The subscribers of a topic (dispatch/topic_subscriptions.cpp), whatever the order of iteration.
use wally_io.Prelude.{
  ◌≤◌, ◌≡◌, ◌≢◌, refl, ap, ◌∙◌, sym, ◌⊎◌, inl, inr, Bytes, List, [], ◌∷◌, true, ltb, Bool-cases,
  Option-cases, All, Any, Option, none, some, same_bytes, same_bytes_refl, same_bytes-eq,
  if◌then◌else◌, arith,
}
use wally_io.Protocol.{QoS, qos_value}
use wally_io.Packet.{Publish}
use wally_io.Subscriptions.{
  SubscriptionContainer, ResolvedSubscriber, matches, resolve, resolve_all, resolve_subscribers,
}

-- The QoS that a client is resolved with.
abbrev pub granted : Bytes → List ResolvedSubscriber → Option QoS
granted client [] = none
granted client ((c, q) ∷ resolved) = if same_bytes c client then some q else granted client resolved

-- Every client stands in the list at most once.
abbrev pub IsOnce : List ResolvedSubscriber → Type 0
IsOnce [] = Unit {0}
IsOnce ((c, q) ∷ resolved) = (granted c resolved ≡ none) × IsOnce resolved

-- The subscription is the client's, and its filter matches the topic.
abbrev pub Concerns : Bytes → Bytes → SubscriptionContainer → Type 0
Concerns client topic s = (s.client_id ≡ client) × (matches topic s ≡ true)

-- The greatest QoS of the subscriptions that concern a client, over a bound from below.
abbrev pub IsGreatest :
    Option QoS → Option QoS → Bytes → Bytes → List SubscriptionContainer → Type 0
IsGreatest seen none client topic subs = (seen ≡ none) × All (λ s. ¬ Concerns client topic s) subs
IsGreatest seen (some q) client topic subs =
    ((seen ≡ some q) ⊎ Any (λ s. Concerns client topic s × (s.maximum_qos ≡ q)) subs)
    × ((q' : QoS) → seen ≡ some q' → qos_value q' ≤ qos_value q)
    × All (λ s. Concerns client topic s → qos_value s.maximum_qos ≤ qos_value q) subs

abbrev raised : QoS → Option QoS → QoS
raised q none = q
raised q (some seen) = if ltb (qos_value seen) (qos_value q) then q else seen

granted-resolve_same :
    (s : SubscriptionContainer) (resolved : List ResolvedSubscriber)
    → granted s.client_id (resolve s resolved)
      ≡ some (raised s.maximum_qos (granted s.client_id resolved))
unfolding resolve
granted-resolve_same s [] = rw (same_bytes_refl s.client_id)
granted-resolve_same s ((c, q) ∷ resolved) = elim (Bool-cases (same_bytes c s.client_id)) [
  | inl same ↦ rw (same, same)
  | inr other ↦ rw (other, other) (granted-resolve_same s resolved)
]

pub granted-resolve_other :
    (s : SubscriptionContainer) (client : Bytes) (resolved : List ResolvedSubscriber)
    → s.client_id ≢ client
    → granted client (resolve s resolved) ≡ granted client resolved
unfolding resolve
granted-resolve_other s client [] ne = elim (Bool-cases (same_bytes s.client_id client)) [
  | inl same ↦ absurd (ne (same_bytes-eq _ _ same))
  | inr other ↦ rw other
]
granted-resolve_other s client ((c, q) ∷ resolved) ne =
    elim (Bool-cases (same_bytes c s.client_id)) [
      | inl same ↦ elim (Bool-cases (same_bytes c client)) [
        | inl also ↦ absurd (ne (sym (same_bytes-eq _ _ same) ∙ same_bytes-eq _ _ also))
        | inr other ↦ rw (same, other)
      ]
      | inr other ↦ elim (Bool-cases (same_bytes c client)) [
        | inl found ↦ rw (other, found)
        | inr not_found ↦ rw (other, not_found) (granted-resolve_other s client resolved ne)
      ]
    ]

IsGreatest-skip :
    (seen o : Option QoS) (client topic : Bytes) (s : SubscriptionContainer)
    (subs : List SubscriptionContainer)
    → ¬ Concerns client topic s
    → IsGreatest seen o client topic subs
    → IsGreatest seen o client topic (s ∷ subs)
IsGreatest-skip seen none client topic s subs does_not (e, h) = (e, (does_not, h))
IsGreatest-skip seen (some q) client topic s subs does_not (inl e, least, h) =
    (inl e, least, (λ does. absurd (does_not does), h))
IsGreatest-skip seen (some q) client topic s subs does_not (inr a, least, h) =
    (inr (inr a), least, (λ does. absurd (does_not does), h))

-- The raised QoS is one of the two, and at least both.
raised_lem :
    (q : QoS) (seen : Option QoS)
    → ((raised q seen ≡ q) ⊎ (seen ≡ some (raised q seen)))
      × (qos_value q ≤ qos_value (raised q seen))
      × ((q' : QoS) → seen ≡ some q' → qos_value q' ≤ qos_value (raised q seen))
raised_lem q none = (inl refl, omega arith, λ q' e. cc e)
raised_lem q (some q'') = elim (Bool-cases (ltb (qos_value q'') (qos_value q))) [
  | inl less ↦ rw less (inl refl, omega arith, λ q' e. ground arith)
  | inr not_less ↦ rw not_less (inr refl, ground arith, λ q' e. ground arith)
]

IsGreatest-raise :
    (seen o : Option QoS) (client topic : Bytes) (s : SubscriptionContainer)
    (subs : List SubscriptionContainer)
    → Concerns client topic s
    → IsGreatest (some (raised s.maximum_qos seen)) o client topic subs
    → IsGreatest seen o client topic (s ∷ subs)
IsGreatest-raise seen none client topic s subs does (e, h) = cc e
IsGreatest-raise seen (some q) client topic s subs does (found, least, h) =
    let (from, ge, ge_seen) = raised_lem s.maximum_qos seen in
    let up = least (raised s.maximum_qos seen) refl in
    (
      elim found [
        | inl e ↦ elim from [ inl is_s ↦ inr (inl (does, cc)) | inr is_seen ↦ inl cc ]
        | inr a ↦ inr (inr a)
      ],
      λ q' e. omega (arith, ge_seen q' e),
      (λ c. omega arith, h),
    )

IsGreatest-nil : (o : Option QoS) (client topic : Bytes) → IsGreatest o o client topic []
IsGreatest-nil none client topic = (refl, tt)
IsGreatest-nil (some q) client topic = (inl refl, (λ q' e. ground arith), tt)

pub resolve_all-IsGreatest :
    (topic client : Bytes) (subs : List SubscriptionContainer) (resolved : List ResolvedSubscriber)
    → IsGreatest
        (granted client resolved)
        (granted client (resolve_all topic subs resolved))
        client
        topic
        subs
unfolding resolve_all
resolve_all-IsGreatest topic client [] resolved = IsGreatest-nil _ client topic
resolve_all-IsGreatest topic client (s ∷ subs) resolved = elim (Bool-cases (matches topic s)) [
  | inl does ↦
      let rest = resolve_all-IsGreatest topic client subs (resolve s resolved) in
      elim (Bool-cases (same_bytes s.client_id client)) [
        | inl same ↦
            let e : s.client_id ≡ client = same_bytes-eq _ _ same in
            let now : granted client (resolve s resolved)
                ≡ some (raised s.maximum_qos (granted client resolved)) =
              rw (← e) (granted-resolve_same s resolved) in
            rw does (IsGreatest-raise _ _ client topic s subs (e, does) (rw now at rest))
        | inr other ↦
            let ne : s.client_id ≢ client =
              λ e. cc (other, same_bytes_refl client, ap (λ c. same_bytes c client) e) in
            let same_as_before = granted-resolve_other s client resolved ne in
            rw does
              (IsGreatest-skip _ _ client topic s subs (λ c. ne c.0) (rw same_as_before at rest))
      ]
  | inr does_not ↦ rw does_not (
      IsGreatest-skip _ _ client topic s subs (λ c. cc (does_not, c.1))
        (resolve_all-IsGreatest topic client subs resolved))
]

IsOnce-resolve :
    (s : SubscriptionContainer) (resolved : List ResolvedSubscriber)
    → IsOnce resolved
    → IsOnce (resolve s resolved)
unfolding resolve
IsOnce-resolve s [] h = (refl, tt)
IsOnce-resolve s ((c, q) ∷ resolved) (fresh, h) = elim (Bool-cases (same_bytes c s.client_id)) [
  | inl same ↦ rw same (fresh, h)
  | inr other ↦
      let ne : s.client_id ≢ c = λ e. cc (other, same_bytes_refl c, ap (same_bytes c) e) in
      rw other (granted-resolve_other s c resolved ne ∙ fresh, IsOnce-resolve s resolved h)
]

pub IsOnce-resolve_all :
    (topic : Bytes) (subs : List SubscriptionContainer) (resolved : List ResolvedSubscriber)
    → IsOnce resolved
    → IsOnce (resolve_all topic subs resolved)
unfolding resolve_all
IsOnce-resolve_all topic [] resolved h = h
IsOnce-resolve_all topic (s ∷ subs) resolved h = elim (Bool-cases (matches topic s)) [
  | inl does ↦ rw does (IsOnce-resolve_all topic subs _ (IsOnce-resolve s resolved h))
  | inr does_not ↦ rw does_not (IsOnce-resolve_all topic subs resolved h)
]

-- Each client is resolved at most once: not at all if none of its subscriptions matches the topic,
-- and else with the greatest QoS of those that do, in whatever order the set is iterated.
pub resolve_subscribers_lem :
    (publish : Publish) (subs : List SubscriptionContainer) (client : Bytes)
    → IsOnce (resolve_subscribers publish subs)
      × ((granted client (resolve_subscribers publish subs) ≡ none)
            × All (λ s. ¬ Concerns client publish.topic s) subs
          ⊎ ((q : QoS) × (granted client (resolve_subscribers publish subs) ≡ some q)
              × Any (λ s. Concerns client publish.topic s × (s.maximum_qos ≡ q)) subs
              × All
                  (λ s. Concerns client publish.topic s → qos_value s.maximum_qos ≤ qos_value q)
                  subs))
unfolding resolve_subscribers
resolve_subscribers_lem publish subs client =
    let resolved = resolve_all publish.topic subs [] in
    let greatest = resolve_all-IsGreatest publish.topic client subs [] in
    (
      IsOnce-resolve_all publish.topic subs [] tt,
      elim (Option-cases (granted client resolved)) [
        | inl e ↦ let (e', h) = rw e at greatest in inl (e, h)
        | inr (q, e) ↦
            let (found, least, h) = rw e at greatest in
            inr (q, e, elim found [ inl e' ↦ cc e' | inr a ↦ a ], h)
      ],
    )
