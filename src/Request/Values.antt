-- ===== src/Request/Values.antt =====
-- Go's map[string]interface{}, which holds the MessagePack data of a message.
use zbc_go.Common.{
  ℕ, String, ◌≡◌, Bool-cases, inl, inr, true, Option, none, some, List, [], ◌∷◌, if◌then◌else◌,
}
use zbc_go.Wire.{Outcome, ok, panic, nil_map}
use text.Mathlib.Text as Text

-- A value behind interface{}; `X` stands for the dynamic types that this program never asks for.
pub data Value (X : Type 0) : Type 0 where
  text_value : String → Value X
  uint64_value : ℕ → Value X
  other_value : X → Value X

-- A nil map can be read, but not written.
pub data Data (X : Type 0) : Type 0 where
  nil_data : Data X
  data_of : List (String × Value X) → Data X

module _ {X : Type 0} where
  unfoldable pub set_entry : String → Value X → List (String × Value X) → List (String × Value X)
  set_entry k v [] = (k, v) ∷ []
  set_entry k v ((k', w) ∷ entries) =
      let rest = set_entry k v entries in
      if Text.◌==◌ k k' then (k, v) ∷ entries else (k', w) ∷ rest

  unfoldable pub get_entry : String → List (String × Value X) → Option (Value X)
  get_entry k [] = none
  get_entry k ((k', w) ∷ entries) =
      let rest = get_entry k entries in if Text.◌==◌ k k' then some w else rest

  -- data[k] = v
  unfoldable pub set_value : String → Value X → Data X → Outcome (Data X)
  unfolding set_entry
  set_value k v nil_data = panic nil_map
  set_value k v (data_of entries) = ok (data_of (set_entry k v entries))

  -- data[k], where none is the nil interface of a missing key
  unfoldable pub get_value : String → Data X → Option (Value X)
  unfolding get_entry
  get_value k nil_data = none
  get_value k (data_of entries) = get_entry k entries

  pub get_entry-set_entry :
      (k : String) (v : Value X)
      → Text.◌==◌ k k ≡ true
      → (entries : List (String × Value X)) → get_entry k (set_entry k v entries) ≡ some v
  unfolding get_entry set_entry
  get_entry-set_entry k v same [] = rw same
  get_entry-set_entry k v same ((k', w) ∷ entries) = elim (Bool-cases (Text.◌==◌ k k')) [
    | inl e ↦ rw (e, same)
    | inr e ↦ rw (e, e) (get_entry-set_entry k v same entries)
  ]
