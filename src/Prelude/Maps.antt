-- ===== src/Prelude/Maps.antt =====
-- A std::map or std::unordered_map with a string as key: the list of its entries in the order of
-- iteration.
use mathlib.Core.Path.{◌≡◌, refl, ap, sym, ◌∙◌}
use mathlib.Core.Logic.{◌≢◌, inl, inr}
use mathlib.Core.Bool.{false}
use mathlib.Core.Option.{Option, none, some}
use mathlib.Core.List.{List, [], ◌∷◌}
use wally_io.Prelude.Tests.{if◌then◌else◌, Bool-cases}
use wally_io.Prelude.Lists.{Bytes, same_bytes, same_bytes_refl, same_bytes-eq}

pub same_bytes_ne : (a b : Bytes) → a ≢ b → same_bytes a b ≡ false
same_bytes_ne a b ne = elim (Bool-cases (same_bytes a b)) [
  | inl same ↦ absurd (ne (same_bytes-eq a b same))
  | inr other ↦ other
]

module _ {A : Type 0} where
  abbrev pub find_name : Bytes → List (Bytes × A) → Option A
  find_name key [] = none
  find_name key ((k, a) ∷ table) = if same_bytes k key then some a else find_name key table

  -- `table[ key ] = a`
  abbrev pub put_name : Bytes → A → List (Bytes × A) → List (Bytes × A)
  put_name key a [] = (key, a) ∷ []
  put_name key a ((k, b) ∷ table) =
      if same_bytes k key then (k, a) ∷ table else (k, b) ∷ put_name key a table

  -- `table.erase( key )`
  abbrev pub erase_name : Bytes → List (Bytes × A) → List (Bytes × A)
  erase_name key [] = []
  erase_name key ((k, a) ∷ table) =
      if same_bytes k key then erase_name key table else (k, a) ∷ erase_name key table

  -- The entry under a key has changed, if there is one.
  abbrev pub replace_name : Bytes → A → List (Bytes × A) → List (Bytes × A)
  replace_name key a [] = []
  replace_name key a ((k, b) ∷ table) =
      if same_bytes k key then (k, a) ∷ table else (k, b) ∷ replace_name key a table

  pub find_name-put_same :
      (key : Bytes) (a : A) (table : List (Bytes × A))
      → find_name key (put_name key a table) ≡ some a
  find_name-put_same key a [] = rw (same_bytes_refl key)
  find_name-put_same key a ((k, b) ∷ table) = elim (Bool-cases (same_bytes k key)) [
    | inl same ↦ rw (same, same)
    | inr other ↦ rw (other, other) (find_name-put_same key a table)
  ]

  pub find_name-put_other :
      (key other : Bytes) (a : A) (table : List (Bytes × A))
      → key ≢ other
      → find_name other (put_name key a table) ≡ find_name other table
  find_name-put_other key other a [] ne = rw (same_bytes_ne key other ne)
  find_name-put_other key other a ((k, b) ∷ table) ne = elim (Bool-cases (same_bytes k key)) [
    | inl same ↦
        let k_not : same_bytes k other ≡ false =
          same_bytes_ne k other (λ e. ne (sym (same_bytes-eq k key same) ∙ e)) in
        rw (same, k_not)
    | inr differs ↦ elim (Bool-cases (same_bytes k other)) [
      | inl found ↦ rw (differs, found)
      | inr not_found ↦ rw (differs, not_found) (find_name-put_other key other a table ne)
    ]
  ]

  pub find_name-erase_same :
      (key : Bytes) (table : List (Bytes × A)) → find_name key (erase_name key table) ≡ none
  find_name-erase_same key [] = refl
  find_name-erase_same key ((k, b) ∷ table) = elim (Bool-cases (same_bytes k key)) [
    | inl same ↦ rw same (find_name-erase_same key table)
    | inr other ↦ rw (other, other) (find_name-erase_same key table)
  ]

  pub find_name-erase_other :
      (key other : Bytes) (table : List (Bytes × A))
      → key ≢ other
      → find_name other (erase_name key table) ≡ find_name other table
  find_name-erase_other key other [] ne = refl
  find_name-erase_other key other ((k, b) ∷ table) ne = elim (Bool-cases (same_bytes k key)) [
    | inl same ↦
        let k_not : same_bytes k other ≡ false =
          same_bytes_ne k other (λ e. ne (sym (same_bytes-eq k key same) ∙ e)) in
        rw (same, k_not) (find_name-erase_other key other table ne)
    | inr differs ↦ elim (Bool-cases (same_bytes k other)) [
      | inl found ↦ rw (differs, found)
      | inr not_found ↦ rw (differs, not_found) (find_name-erase_other key other table ne)
    ]
  ]

  pub find_name-replace_same :
      (key : Bytes) (a b : A) (table : List (Bytes × A))
      → find_name key table ≡ some b
      → find_name key (replace_name key a table) ≡ some a
  find_name-replace_same key a b [] e = cc e
  find_name-replace_same key a b ((k, c) ∷ table) e = elim (Bool-cases (same_bytes k key)) [
    | inl same ↦ rw (same, same)
    | inr other ↦ rw (other, other) (find_name-replace_same key a b table (rw other at e))
  ]

  pub find_name-replace_other :
      (key other : Bytes) (a : A) (table : List (Bytes × A))
      → key ≢ other
      → find_name other (replace_name key a table) ≡ find_name other table
  find_name-replace_other key other a [] ne = refl
  find_name-replace_other key other a ((k, b) ∷ table) ne = elim (Bool-cases (same_bytes k key)) [
    | inl same ↦
        let k_not : same_bytes k other ≡ false =
          same_bytes_ne k other (λ e. ne (sym (same_bytes-eq k key same) ∙ e)) in
        rw (same, k_not)
    | inr differs ↦ elim (Bool-cases (same_bytes k other)) [
      | inl found ↦ rw (differs, found)
      | inr not_found ↦ rw (differs, not_found) (find_name-replace_other key other a table ne)
    ]
  ]

  pub find_name-replace_absent :
      (key : Bytes) (a : A) (table : List (Bytes × A))
      → find_name key table ≡ none
      → find_name key (replace_name key a table) ≡ none
  find_name-replace_absent key a [] e = refl
  find_name-replace_absent key a ((k, c) ∷ table) e = elim (Bool-cases (same_bytes k key)) [
    | inl same ↦ cc (rw same at e)
    | inr other ↦ rw (other, other) (find_name-replace_absent key a table (rw other at e))
  ]

  pub find_name-put :
      (key other : Bytes) (a : A) (table : List (Bytes × A))
      → find_name other (put_name key a table)
        ≡ (if same_bytes key other then some a else find_name other table)
  find_name-put key other a table = elim (Bool-cases (same_bytes key other)) [
    | inl same ↦
        let e = same_bytes-eq key other same in
        rw same
          (ap (λ k. find_name k (put_name key a table)) (sym e) ∙ find_name-put_same key a table)
    | inr differs ↦
        let ne : key ≢ other = λ e. cc (differs, same_bytes_refl key, ap (same_bytes key) e) in
        rw differs (find_name-put_other key other a table ne)
  ]

  pub find_name-erase :
      (key other : Bytes) (table : List (Bytes × A))
      → find_name other (erase_name key table)
        ≡ (if same_bytes key other then none else find_name other table)
  find_name-erase key other table = elim (Bool-cases (same_bytes key other)) [
    | inl same ↦
        let e = same_bytes-eq key other same in
        rw same
          (ap (λ k. find_name k (erase_name key table)) (sym e) ∙ find_name-erase_same key table)
    | inr differs ↦
        let ne : key ≢ other = λ e. cc (differs, same_bytes_refl key, ap (same_bytes key) e) in
        rw differs (find_name-erase_other key other table ne)
  ]
