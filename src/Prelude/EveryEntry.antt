-- ===== src/Prelude/EveryEntry.antt =====
-- A property of every entry of a map with a string as key.
use mathlib.Core.Path.{◌≡◌, refl, ap, sym, ◌∙◌}
use mathlib.Core.Logic.{◌≢◌, inl, inr}
use mathlib.Core.Option.{none, some}
use mathlib.Core.List.{List, [], ◌∷◌}
use wally_io.Prelude.Tests.{Bool-cases}
use wally_io.Prelude.Lists.{All, All-weaken, Bytes, same_bytes, same_bytes_refl, same_bytes-eq}
use wally_io.Prelude.Maps.{
  find_name, put_name, replace_name, erase_name, find_name-put_other, find_name-replace_other,
  find_name-erase_other,
}

module _ {A : Type 0} where
  -- Each key once, and `P` of every entry.
  abbrev pub Named : (Bytes → A → Type 0) → List (Bytes × A) → Type 0
  Named P [] = Unit {0}
  Named P ((k, a) ∷ table) = (find_name k table ≡ none) × P k a × Named P table

module _ {A : Type 0} (P : Bytes → A → Type 0) where
  pub find_name-Named :
      (key : Bytes) (a : A) (table : List (Bytes × A))
      → Named P table
      → find_name key table ≡ some a
      → P key a
  find_name-Named key a [] h e = cc e
  find_name-Named key a ((k, b) ∷ table) (fresh, p, h) e = elim (Bool-cases (same_bytes k key)) [
    | inl same ↦
        let k_eq = same_bytes-eq k key same in
        let b_eq : b ≡ a = cc (rw same at e) in rw (← k_eq, ← b_eq) p
    | inr other ↦ find_name-Named key a table h (rw other at e)
  ]

  pub Named-put :
      (key : Bytes) (a : A) (table : List (Bytes × A))
      → P key a
      → Named P table
      → Named P (put_name key a table)
  Named-put key a [] new h = (refl, new, tt)
  Named-put key a ((k, b) ∷ table) new (fresh, p, h) = elim (Bool-cases (same_bytes k key)) [
    | inl same ↦ rw same (fresh, rw (same_bytes-eq k key same) new, h)
    | inr other ↦
        let ne : key ≢ k = λ e. cc (other, same_bytes_refl k, ap (same_bytes k) e) in
        rw other (find_name-put_other key k a table ne ∙ fresh, p, Named-put key a table new h)
  ]

  pub Named-erase :
      (key : Bytes) (table : List (Bytes × A)) → Named P table → Named P (erase_name key table)
  Named-erase key [] h = tt
  Named-erase key ((k, b) ∷ table) (fresh, p, h) = elim (Bool-cases (same_bytes k key)) [
    | inl same ↦ rw same (Named-erase key table h)
    | inr other ↦
        let ne : key ≢ k = λ e. cc (other, same_bytes_refl k, ap (same_bytes k) e) in
        rw other (find_name-erase_other key k table ne ∙ fresh, p, Named-erase key table h)
  ]

  pub Named-replace :
      (key : Bytes) (a : A) (table : List (Bytes × A))
      → P key a
      → Named P table
      → Named P (replace_name key a table)
  Named-replace key a [] new h = tt
  Named-replace key a ((k, b) ∷ table) new (fresh, p, h) = elim (Bool-cases (same_bytes k key)) [
    | inl same ↦ rw same (fresh, rw (same_bytes-eq k key same) new, h)
    | inr other ↦
        let ne : key ≢ k = λ e. cc (other, same_bytes_refl k, ap (same_bytes k) e) in
        rw other
          (find_name-replace_other key k a table ne ∙ fresh, p, Named-replace key a table new h)
  ]

  -- Every entry is found under its key, and has the property.
  pub Named-found :
      (table : List (Bytes × A))
      → Named P table
      → All (λ e. (find_name e.0 table ≡ some e.1) × P e.0 e.1) table
  Named-found [] h = tt
  Named-found ((k, b) ∷ table) (fresh, p, h) =
      let later : (e : Bytes × A)
          → (find_name e.0 table ≡ some e.1) × P e.0 e.1
          → (find_name e.0 ((k, b) ∷ table) ≡ some e.1) × P e.0 e.1 =
        λ e (found, own). elim (Bool-cases (same_bytes k e.0)) [
          | inl same ↦
              let k_eq = same_bytes-eq k e.0 same in
              cc (sym fresh ∙ (ap (λ x. find_name x table) k_eq ∙ found))
          | inr other ↦ ((rw other found), own)
        ] in
      ((rw (same_bytes_refl k), p), All-weaken table later (Named-found table h))

pub Named-weaken :
    {A : Type 0} {P Q : Bytes → A → Type 0} (table : List (Bytes × A))
    → ((key : Bytes) (a : A) → P key a → Q key a)
    → Named P table
    → Named Q table
Named-weaken [] f h = tt
Named-weaken ((k, a) ∷ table) f (fresh, p, h) = (fresh, f k a p, Named-weaken table f h)
