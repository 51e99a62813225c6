-- ===== src/Storage/Maps.antt =====
-- Looking up a profile of src/storage/profiles.rs after one is put into the map.
use ii.Prelude.{◌≡◌, ◌≢◌, false, some, [], ◌∷◌, refl, sym, Bool-cases, inl, inr}
use ii.Prelude.Text.{Str, str_eq, str_eq_refl, str_eq_sound}
use ii.Storage.{Map, get, insert, str_lt}

differs : (name other : Str) → other ≢ name → str_eq name other ≡ false
differs name other h = elim (Bool-cases (str_eq name other)) [
  | inl e ↦ absurd (h (sym (str_eq_sound name other e)))
  | inr e ↦ e
]

module _ {P : Type 0} where
  pub get-insert :
      (name : Str) (p : P) (profiles : Map P) → get name (insert name p profiles) ≡ some p
  get-insert name p [] = rw (str_eq_refl name) refl
  get-insert name p ((key, old) ∷ profiles) = elim (Bool-cases (str_eq key name)) [
    | inl e ↦ rw (e, str_eq_refl name) refl
    | inr e ↦ elim (Bool-cases (str_lt name key)) [
      | inl g ↦ rw (e, g, str_eq_refl name) refl
      | inr g ↦ rw (e, g, e) (get-insert name p profiles)
    ]
  ]

  pub get-insert_other :
      (name other : Str) (p : P) (profiles : Map P)
      → other ≢ name
      → get other (insert name p profiles) ≡ get other profiles
  get-insert_other name other p [] h = rw (differs name other h) refl
  get-insert_other name other p ((key, old) ∷ profiles) h = elim (Bool-cases (str_eq key name)) [
    | inl e ↦ let same = str_eq_sound key name e in rw (e, same, differs name other h) refl
    | inr e ↦ elim (Bool-cases (str_lt name key)) [
      | inl g ↦ rw (e, g, differs name other h) refl
      | inr g ↦ rw (e, g, get-insert_other name other p profiles h) refl
    ]
  ]
