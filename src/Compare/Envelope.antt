-- ===== src/Compare/Envelope.antt =====
-- What internal/compare reads of a summary envelope, a type of the sketch library. Its maps are lists of pairs with
-- distinct names.
use fleetdiff.Base.{ℕ, Bool, true, false, Option, none, some, List, [], ◌∷◌, if◌then◌else◌}
use fleetdiff.Text.{Text, text_eq}

pub record Payload : Type 0 where
  pub kind : Text
  pub data_bytes : Text

pub record Envelope : Type 0 where
  pub producer : Text
  pub epoch : Text
  pub sequence : ℕ
  pub window_start : ℕ
  pub window_duration : ℕ
  pub counters : List (Text × ℕ)
  pub sketches : List (Text × Payload)

module _ {ℓ} {A : Type ℓ} where
  -- `v, ok := m[name]`
  unfoldable pub look_up : List (Text × A) → Text → Option A
  look_up [] name = none
  look_up ((n, v) ∷ m) name = let rest = look_up m name in if text_eq n name then some v else rest

  unfoldable pub is_present : Option A → Bool
  is_present none = false
  is_present (some v) = true
