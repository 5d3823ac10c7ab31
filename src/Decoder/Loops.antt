-- ===== src/Decoder/Loops.antt =====
-- How the parts of the decoders fail, and that the loops over the payloads end: their fuel is enough.
use wally_io.Prelude.{
  ℕ, zero, suc, ◌≤◌, ◌≡◌, refl, ap, inl, inr, Bytes, [], ◌∷◌, ◌++◌, Bool, true, false, Bool-cases,
  subst, ltb, Option, none, some, length, length-append, Reason, Error, Result, ok, err, malformed,
  read_past_end, ◌>>=◌, throw_if, arith,
}
use wally_io.Protocol.{QoS}
use wally_io.Topic.{assert_well_formed_topic_filter, fault_to_result, filter_fault}
use wally_io.Packet.{make_subscription}
use wally_io.Wire.{decode_uint16, decode_qos, decode_utf8_string}
use wally_io.Wire.RoundTrip.{decode_utf8_string_cases}
use wally_io.Decoder.{decode_subscriptions, decode_topic_filters}

-- How a decoder may fail: the packet is malformed, or the end of the frame is read past.
pub data Refusal : Bool → Error → Type 0 where
  refused : {unchecked : Bool} (r : Reason) → Refusal unchecked (malformed r)
  past_end : Refusal true read_past_end

abbrev pub Fails {ℓ} : {A : Type ℓ} → Bool → Result A → Type ℓ
Fails {A = A} unchecked m = (x : Error) → ◌≡◌ {A = Result A} m (err x) → Refusal unchecked x

pub bind-Fails {ℓ κ} :
    {A : Type ℓ} {B : Type κ} {unchecked : Bool} (m : Result A) {f : A → Result B}
    → Fails unchecked m
    → ((a : A) → m ≡ ok a → Fails unchecked (f a))
    → Fails unchecked (m >>= f)
bind-Fails (ok a) h k x e = k a refl x e
bind-Fails (err y) h k x e = h x (cc e)

pub ok-Fails {ℓ} : {A : Type ℓ} {unchecked : Bool} (a : A) → Fails unchecked (ok a)
ok-Fails a x e = cc e

decode_utf8_string-shorter :
    (bs rest s : Bytes) → decode_utf8_string bs ≡ ok (rest, s) → suc (length rest) ≤ length bs
decode_utf8_string-shorter bs rest s e = elim (decode_utf8_string_cases bs) [
  | inl (s', rest', found, (a, b, bs_eq, len)) ↦
      let same : rest' ≡ rest = ground (arith, found, e) in
      let size : length bs ≡ length (a ∷ b ∷ (s' ++ rest')) = ap length bs_eq in
      omega (arith, size, length-append s' rest', ap length same)
  | inr failed ↦ cc (failed, e)
]

decode_qos-shorter :
    (bs rest : Bytes) {q : QoS} → decode_qos bs ≡ ok (rest, q) → suc (length rest) ≤ length bs
unfolding decode_qos
decode_qos-shorter [] rest e = cc e
decode_qos-shorter (b ∷ bs) rest e = ground (arith, e)

module _ {unchecked : Bool} where
  err-Fails {ℓ} : {A : Type ℓ} (r : Reason) → Fails {A = A} unchecked (err (malformed r))
  err-Fails r x e = let same : malformed r ≡ x = cc e in subst (Refusal unchecked) same (refused r)

  pub throw_if-Fails : (b : Bool) (r : Reason) → Fails unchecked (throw_if b r)
  throw_if-Fails true r = err-Fails r
  throw_if-Fails false r = λ x e. cc e

  pub decode_uint16-Fails : (bs : Bytes) → Fails unchecked (decode_uint16 bs)
  unfolding decode_uint16
  decode_uint16-Fails [] = err-Fails _
  decode_uint16-Fails (a ∷ []) = err-Fails _
  decode_uint16-Fails (a ∷ b ∷ bs) = λ x e. cc e

  decode_qos-Fails : (bs : Bytes) → Fails unchecked (decode_qos bs)
  unfolding decode_qos
  decode_qos-Fails [] = err-Fails _
  decode_qos-Fails (a ∷ bs) = λ x e. cc e

  pub decode_utf8_string-Fails : (bs : Bytes) → Fails unchecked (decode_utf8_string bs)
  decode_utf8_string-Fails bs = elim (decode_utf8_string_cases bs) [
    | inl (s, rest, found, _) ↦ λ x e. cc (found, e)
    | inr failed ↦ rw failed (err-Fails _)
  ]

  fault-Fails : (fault : Option Reason) → Fails unchecked (fault_to_result fault)
  fault-Fails none = ok-Fails tt
  fault-Fails (some r) = err-Fails r

  filter-Fails : (filter : Bytes) → Fails unchecked (assert_well_formed_topic_filter filter)
  unfolding assert_well_formed_topic_filter
  filter-Fails filter = elim (Bool-cases (ltb (length filter) 1)) [
    | inl empty ↦ rw empty (err-Fails _)
    | inr there ↦ elim (Bool-cases (ltb 65535 (length filter))) [
      | inl long ↦ rw (there, long) (err-Fails _)
      | inr fits ↦ rw (there, fits) (fault-Fails (filter_fault 0 filter))
    ]
  ]

  make_subscription-Fails :
      (filter : Bytes) (q : QoS) → Fails unchecked (make_subscription filter q)
  unfolding make_subscription
  make_subscription-Fails filter q =
      bind-Fails (assert_well_formed_topic_filter filter) (filter-Fails filter) (λ _ _. ok-Fails _)

  pub decode_subscriptions-Fails :
      (fuel : ℕ) (bs : Bytes) → length bs ≤ fuel → Fails unchecked (decode_subscriptions fuel bs)
  unfolding decode_subscriptions
  decode_subscriptions-Fails fuel [] h = ok-Fails _
  decode_subscriptions-Fails zero (b ∷ bs) h = absurd (omega arith)
  decode_subscriptions-Fails (suc fuel) (b ∷ bs) h =
      bind-Fails _ (decode_utf8_string-Fails (b ∷ bs)) (λ p e.
        bind-Fails _ (decode_qos-Fails p.0) (λ q e'.
          bind-Fails _ (make_subscription-Fails p.1 q.1) (λ s _.
            bind-Fails _
              (decode_subscriptions-Fails fuel q.0 (
                omega (
                  arith,
                  decode_utf8_string-shorter (b ∷ bs) p.0 p.1 e,
                  decode_qos-shorter p.0 q.0 e',
                )))
              (λ ss _. ok-Fails _))))

  pub decode_topic_filters-Fails :
      (fuel : ℕ) (bs : Bytes) → length bs ≤ fuel → Fails unchecked (decode_topic_filters fuel bs)
  unfolding decode_topic_filters
  decode_topic_filters-Fails fuel [] h = ok-Fails _
  decode_topic_filters-Fails zero (b ∷ bs) h = absurd (omega arith)
  decode_topic_filters-Fails (suc fuel) (b ∷ bs) h =
      bind-Fails _ (decode_utf8_string-Fails (b ∷ bs)) (λ p e.
        bind-Fails _
          (decode_topic_filters-Fails fuel p.0
            (omega (arith, decode_utf8_string-shorter (b ∷ bs) p.0 p.1 e)))
          (λ ss _. ok-Fails _))
