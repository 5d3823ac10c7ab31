-- ===== src/Sessions/Remaining.antt =====
-- What a PUBLISH leaves as it is (`mqtt_client_session_manager::publish` of
-- dispatch/mqtt_client_session_manager.cpp): the sessions, but for the publications in flight to
-- their clients.
use wally_io.Prelude.{
  ◌≡◌, ◌≢◌, refl, ap, ◌∙◌, inl, inr, Bytes, List, [], ◌∷◌, ◌++◌, Bool-cases, Option-cases, Option,
  none, some, same_bytes, same_bytes_refl, same_bytes-eq, find_name, replace_name,
  find_name-replace_same, find_name-replace_other, Yields, ok-Yields, bind-Yields, chain-Yields,
}
use wally_io.Protocol.{QoS}
use wally_io.Packet.{Publish}
use wally_io.Subscriptions.{ResolvedSubscriber, resolve_subscribers}
use wally_io.Tx.Table as Tx
use wally_io.Sessions.{
  Senders, Session, SessionManager, Output, session_publish, publish_all, publish,
}

-- The same session, with the same PUBLISHes from its client; those to its client may differ.
abbrev pub IsSame : Session → Session → Type 0
IsSame s s' =
    (s'.client_id ≡ s.client_id)
    × (s'.connection ≡ s.connection)
    × (s'.rx ≡ s.rx)
    × (s'.lwt_message ≡ s.lwt_message)

abbrev pub Stays : Option Session → Option Session → Type 0
Stays none none = Unit {0}
Stays none (some s') = ⊥
Stays (some s) none = ⊥
Stays (some s) (some s') = IsSame s s'

pub Stays-refl : (s : Option Session) → Stays s s
Stays-refl none = tt
Stays-refl (some s) = (refl, refl, refl, refl)

Stays-trans : (s t u : Option Session) → Stays s t → Stays t u → Stays s u
Stays-trans none none none h k = tt
Stays-trans (some s) (some t) (some u) (a, b, c, d) (a', b', c', d') =
    (a' ∙ a, b' ∙ b, c' ∙ c, d' ∙ d)
Stays-trans none none (some u) h k = elim k [ ]
Stays-trans none (some t) u h k = elim h [ ]
Stays-trans (some s) none u h k = elim h [ ]
Stays-trans (some s) (some t) none h k = elim k [ ]

-- A client without a session has none behind.
pub Stays-none : (s : Option Session) → Stays none s → s ≡ none
Stays-none none h = refl
Stays-none (some s) h = elim h [ ]

Stays-replace :
    (client c : Bytes) (s s' : Session) (sessions : List (Bytes × Session))
    → find_name client sessions ≡ some s
    → IsSame s s'
    → Stays (find_name c sessions) (find_name c (replace_name client s' sessions))
Stays-replace client c s s' sessions found same = elim (Bool-cases (same_bytes client c)) [
  | inl is ↦
      rw (← same_bytes-eq client c is, found, find_name-replace_same client s' s sessions found)
        same
  | inr differs ↦
      let ne : client ≢ c = λ e. cc (differs, same_bytes_refl client, ap (same_bytes client) e) in
      rw (find_name-replace_other client c s' sessions ne) (Stays-refl (find_name c sessions))
]

module _ (senders : Senders) where
  session_publish-IsSame :
      (p : Publish) (q : QoS) (s : Session)
      → Yields (λ r. IsSame s r.0) (session_publish senders p q s)
  unfolding session_publish
  session_publish-IsSame p q s =
      bind-Yields (Tx.publish (senders.is_there s.connection) p q s.tx) (λ t _.
        ok-Yields (λ (r : Session × Publish × Output). IsSame s r.0) _ (refl, refl, refl, refl))

  publish_all-Stays :
      (c : Bytes) (subscribers : List ResolvedSubscriber) (p : Publish)
      (sessions : List (Bytes × Session))
      → Yields
          (λ r. Stays (find_name c sessions) (find_name c r.0))
          (publish_all senders subscribers p sessions)
  unfolding publish_all
  publish_all-Stays c [] p sessions =
      ok-Yields
        (λ (r : List (Bytes × Session) × Publish × Output).
          Stays (find_name c sessions) (find_name c r.0))
        _ (Stays-refl (find_name c sessions))
  publish_all-Stays c ((client, q) ∷ subscribers) p sessions =
      elim (Option-cases (find_name client sessions)) [
        | inl absent ↦ rw (publish_all, absent) (publish_all-Stays c subscribers p sessions)
        | inr (s, found) ↦
            rw (publish_all, found)
              (chain-Yields (λ (r : Session × Publish × Output). IsSame s r.0)
                (session_publish senders p q s) (session_publish-IsSame p q s)
                (λ r same.
                  let sessions' = replace_name client r.0 sessions in
                  chain-Yields
                    (λ (rest : List (Bytes × Session) × Publish × Output).
                      Stays (find_name c sessions') (find_name c rest.0))
                    (publish_all senders subscribers r.1 sessions')
                    (publish_all-Stays c subscribers r.1 sessions')
                    (λ rest later.
                      ok-Yields
                        (λ (t : List (Bytes × Session) × Publish × Output).
                          Stays (find_name c sessions) (find_name c t.0))
                        (rest.0, rest.1, r.2 ++ rest.2)
                        (Stays-trans (find_name c sessions) (find_name c sessions')
                          (find_name c rest.0) (Stays-replace client c s r.0 sessions found same)
                          later))))
      ]

  pub publish-Stays :
      (c : Bytes) (p : Publish) (m : SessionManager)
      → Yields
          (λ r. Stays (find_name c m.sessions) (find_name c r.0.sessions))
          (publish senders p m)
  unfolding publish
  publish-Stays c p m =
      let subscribers = resolve_subscribers p m.subscriptions in
      chain-Yields
        (λ (t : List (Bytes × Session) × Publish × Output).
          Stays (find_name c m.sessions) (find_name c t.0))
        (publish_all senders subscribers p m.sessions)
        (publish_all-Stays c subscribers p m.sessions)
        (λ t h.
          ok-Yields
            (λ (r : SessionManager × Publish × Output).
              Stays (find_name c m.sessions) (find_name c r.0.sessions))
            (record m { sessions = t.0 }, t.1, t.2) h)
