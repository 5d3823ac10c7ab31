-- ===== src/Prelude/Outcome.antt =====
-- How a C++ function ends: with a value, with an exception, by a failed `assert`, by a read that
-- leaves the range it was given, or by a read of an empty std::optional. The build defines no NDEBUG, so assertions are on.
use mathlib.Core.Path.{◌≡◌, refl}
use mathlib.Core.Bool.{Bool, true, false}
use mathlib.Core.Logic.{◌⊎◌, inl, inr}
use wally_io.Prelude.Tests.{if◌then◌else◌}

-- The throw sites of io_wally::error::malformed_mqtt_packet, one for each message.
pub data Reason : Type 0 where
  remaining_length_exceeds uint16_truncated qos_truncated string_truncated : Reason
  string_too_long length_not_encodable : Reason
  invalid_flags protocol_name_missing last_will_exceeds length_mismatch : Reason
  dup_without_qos qos_reserved : Reason
  topic_empty topic_too_long topic_null topic_plus topic_hash : Reason
  filter_4_7_3_1 filter_4_7_3_3 filter_4_7_3_2 filter_4_7_1_2 filter_4_7_1_1 filter_4_7_1_3 : Reason
  no_subscription no_topic_filter remaining_length_nonzero : Reason

pub data Error : Type 0 where
  malformed : Reason → Error
  unsupported_type bad_cast : Error
  assertion_failed : Error
  read_past_end : Error
  empty_optional : Error
  out_of_fuel : Error

-- The outcome of a call that returns an `A`.
pub data Result {ℓ} (A : Type ℓ) : Type ℓ where
  err : Error → Result A
  ok : A → Result A

-- An exception passes by the calls that follow.
infixl 5 ◌>>=◌
abbrev pub ◌>>=◌ {ℓ κ} : {A : Type ℓ} → {B : Type κ} → Result A → (A → Result B) → Result B
err e >>= next = err e
ok value >>= next = next value

-- The same for a call that returns nothing.
infixl 5 ◌>>◌
abbrev pub ◌>>◌ {κ} : {B : Type κ} → Result (Unit {0}) → Result B → Result B
first >> second = first >>= (λ nothing. second)

-- `if (bad) throw malformed_mqtt_packet(...)`
abbrev pub throw_if : Bool → Reason → Result (Unit {0})
throw_if true r = err (malformed r)
throw_if false r = ok tt

abbrev pub assert : Bool → Result (Unit {0})
assert true = ok tt
assert false = err assertion_failed

pub Result-cases {ℓ} :
    {A : Type ℓ} (r : Result A) → ((a : A) × (r ≡ ok a)) ⊎ ((e : Error) × (r ≡ err e))
Result-cases (ok a) = inl (a, refl)
Result-cases (err e) = inr (e, refl)

pub bind-eq-ok {ℓ κ} :
    {A : Type ℓ}
    → {B : Type κ} → (m : Result A) → (next : A → Result B) → {b : B} → (m >>= next) ≡ ok b
    → (a : A) × (m ≡ ok a) × (next a ≡ ok b)
bind-eq-ok (err e) next eq = cc
bind-eq-ok (ok value) next eq = (value, refl, eq)

pub ok-injective {ℓ κ} :
    {A : Type ℓ}
    → {B : Type κ} → {a c : A} → {b d : B} → ◌≡◌ {A = Result (A × B)} (ok (a, b)) (ok (c, d))
    → (a ≡ c) × (b ≡ d)
ok-injective eq = (cc eq, cc eq)

-- `P` holds of what the call returns, if it returns.
abbrev pub Yields : {A : Type 0} → (A → Type 0) → Result A → Type 0
Yields {A} P m = (a : A) → m ≡ ok a → P a

pub ok-Yields : {A : Type 0} (P : A → Type 0) (a : A) → P a → Yields P (ok a)
ok-Yields P a h a' e = let same : a ≡ a' = cc in rw (← same) h

pub bind-Yields :
    {A B : Type 0} {P : B → Type 0} (m : Result A) {next : A → Result B}
    → ((a : A) → m ≡ ok a → Yields P (next a))
    → Yields P (m >>= next)
bind-Yields (ok a) h b e = h a refl b e
bind-Yields (err x) h b e = cc e

-- The second call goes by what the first has returned.
pub chain-Yields :
    {A B : Type 0} {P : B → Type 0} (Q : A → Type 0) (m : Result A) {next : A → Result B}
    → Yields Q m
    → ((a : A) → Q a → Yields P (next a))
    → Yields P (m >>= next)
chain-Yields Q m first second = bind-Yields m (λ a e. second a (first a e))

pub if-Yields :
    {A : Type 0} {P : A → Type 0} (b : Bool) {m n : Result A}
    → Yields P m
    → Yields P n
    → Yields P (if b then m else n)
if-Yields true h k = h
if-Yields false h k = k

pub if-both :
    {A : Type 0} (P : A → Type 0) (b : Bool) {x y : A} → P x → P y → P (if b then x else y)
if-both P true h k = h
if-both P false h k = k
