-- ===== src/Base/Keys.antt =====
-- Keys of maps: a Boolean equality with its law, an update of a total map, and lists of distinct keys.
use mathlib.Core.Path.{◌≡◌, refl}
use mathlib.Core.Logic.{◌↔◌}
use mathlib.Core.Bool.{Bool, true, false}
use mathlib.Core.List.{List, [], ◌∷◌}
use fleetdiff.Base.Tests.{if◌then◌else◌}

pub record Eq (A : Type 0) : Type 0 where
  pub beq : A → A → Bool
  pub beq_iff : (a b : A) → (beq a b ≡ true) ↔ (a ≡ b)

module _ {K : Type 0} ⦃e : Eq K⦄ where
  -- `m[k] = v`, for a map that reads as `m` everywhere else.
  unfoldable pub update {ℓ} : {V : Type ℓ} → (K → V) → K → V → K → V
  update m k v j = if e.beq j k then v else m j

  pub beq_self : (k : K) → e.beq k k ≡ true
  beq_self k = (e.beq_iff k k).1 refl

  unfoldable pub contains : List K → K → Bool
  contains [] k = false
  contains (j ∷ js) k = if e.beq k j then true else contains js k

  -- No key twice, as in the keys of a map.
  abbrev pub Distinct : List K → Type 0
  Distinct [] = Unit
  Distinct (k ∷ ks) = (contains ks k ≡ false) × Distinct ks
