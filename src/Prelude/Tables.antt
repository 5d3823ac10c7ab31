-- ===== src/Prelude/Tables.antt =====
-- A std::unordered_map with a uint16_t as key: the list of its entries.
use Prim.Native.Nat.{ℕ}
use mathlib.Core.Path.{◌≡◌, refl, ap, ◌∙◌}
use mathlib.Core.Logic.{inl, inr}
use mathlib.Core.Bool.{false}
use mathlib.Core.Option.{Option, none, some}
use mathlib.Core.List.{List, [], ◌∷◌}
use wally_io.Prelude.Tests.{◌==◌, if◌then◌else◌, Bool-cases, ==_iff}
use native.Mathlib.Omega.{arith}

module _ {A : Type 0} where
  -- `count( key ) > 0`, with the entry.
  abbrev pub find_key : ℕ → List (ℕ × A) → Option A
  find_key key [] = none
  find_key key ((k, a) ∷ table) = if k == key then some a else find_key key table

  -- `table[ key ] = a`, of a key that is there.
  abbrev pub assign : ℕ → A → List (ℕ × A) → List (ℕ × A)
  assign key a [] = []
  assign key a ((k, b) ∷ table) = if k == key then (k, a) ∷ table else (k, b) ∷ assign key a table

  abbrev pub erase_key : ℕ → List (ℕ × A) → List (ℕ × A)
  erase_key key [] = []
  erase_key key ((k, a) ∷ table) = if k == key then table else (k, a) ∷ erase_key key table

  -- Each key once, and `P` of every entry.
  abbrev pub Entries : (ℕ → A → Type 0) → List (ℕ × A) → Type 0
  Entries P [] = Unit {0}
  Entries P ((k, a) ∷ table) = (find_key k table ≡ none) × P k a × Entries P table

  pub find_key-assign :
      (key other : ℕ) (a : A) (table : List (ℕ × A))
      → find_key other (assign key a table) ≡ (
          if other == key
          then elim (find_key key table) [ none ↦ none | some b ↦ some a ]
          else find_key other table)
  find_key-assign key other a [] = ground arith
  find_key-assign key other a ((k, b) ∷ table) = ground (arith, find_key-assign key other a table)

  pub find_key-erase_other :
      (key other : ℕ) (table : List (ℕ × A))
      → (other == key) ≡ false
      → find_key other (erase_key key table) ≡ find_key other table
  find_key-erase_other key other [] ne = refl
  find_key-erase_other key other ((k, b) ∷ table) ne =
      ground (arith, find_key-erase_other key other table ne)

  pub erase_key-assign :
      (key : ℕ) (a : A) (table : List (ℕ × A))
      → erase_key key (assign key a table) ≡ erase_key key table
  erase_key-assign key a [] = refl
  erase_key-assign key a ((k, b) ∷ table) = elim (Bool-cases (k == key)) [
    | inl same ↦ rw (same, same)
    | inr other ↦ rw (other, other) (ap (◌∷◌ (k, b)) (erase_key-assign key a table))
  ]

module _ {A : Type 0} (P : ℕ → A → Type 0) where
  pub find_key-Entries :
      (key : ℕ) (a : A) (table : List (ℕ × A))
      → Entries P table
      → find_key key table ≡ some a
      → P key a
  find_key-Entries key a [] h e = cc e
  find_key-Entries key a ((k, b) ∷ table) (fresh, p, h) e = elim (Bool-cases (k == key)) [
    | inl same ↦
        let k_eq : k ≡ key = (==_iff k key).0 same in
        let b_eq : b ≡ a = ground arith in rw (← k_eq, ← b_eq) p
    | inr other ↦ find_key-Entries key a table h (rw other at e)
  ]

  pub find_key-erase_same :
      (key : ℕ) (table : List (ℕ × A)) → Entries P table → find_key key (erase_key key table) ≡ none
  find_key-erase_same key [] h = refl
  find_key-erase_same key ((k, b) ∷ table) (fresh, p, h) = elim (Bool-cases (k == key)) [
    | inl same ↦ let k_eq : k ≡ key = (==_iff k key).0 same in rw same (rw (← k_eq) fresh)
    | inr other ↦ rw (other, other) (find_key-erase_same key table h)
  ]

  pub Entries-erase_key :
      (key : ℕ) (table : List (ℕ × A)) → Entries P table → Entries P (erase_key key table)
  Entries-erase_key key [] h = tt
  Entries-erase_key key ((k, b) ∷ table) (fresh, p, h) = elim (Bool-cases (k == key)) [
    | inl same ↦ rw same h
    | inr other ↦
        let rest = Entries-erase_key key table h in
        let kept : find_key k (erase_key key table) ≡ none =
          find_key-erase_other key k table other ∙ fresh in
        rw other (kept, p, rest)
  ]

  pub Entries-assign :
      (key : ℕ) (a : A) (table : List (ℕ × A))
      → P key a
      → Entries P table
      → Entries P (assign key a table)
  Entries-assign key a [] new h = tt
  Entries-assign key a ((k, b) ∷ table) new (fresh, p, h) = elim (Bool-cases (k == key)) [
    | inl same ↦ let k_eq : k ≡ key = (==_iff k key).0 same in rw same (fresh, rw k_eq new, h)
    | inr other ↦
        let kept : find_key k (assign key a table) ≡ none =
          rw (find_key-assign key k a table, other) fresh in
        rw other (kept, p, Entries-assign key a table new h)
  ]
