-- ===== src/Reprice/Config/Validated.antt =====
-- What the validation of internal/reprice/config.go and calculate.go: `validateFactors` ensures.
use fleetdiff.Base.{
  ℕ, ◌≤◌, ◌≡◌, refl, Bool, true, false, ◌||◌, not, Option, none, some, List, [], ◌∷◌, arith, All,
  ok, >>=-eq-ok,
}
use fleetdiff.Text.{Text}
use fleetdiff.Accounting.Cost.{cost}
use fleetdiff.Reprice.Config.{
  Factor, Factors, rat, or_zero, refuse_if, check_input_pairs, check_pairs, ordered_factor,
  bad_factor, output_key, validate_factors,
}

-- The lower factor is at most the central one, and this at most the upper.
abbrev pub IsOrderedFactor : Factor → Type 0
IsOrderedFactor f = (rat f.low ≤ rat f.output) × (rat f.output ≤ rat f.high)

not_refused : (c : Bool) {u : Unit {0}} → refuse_if c ≡ ok u → c ≡ false
not_refused true h = cc
not_refused false h = refl

passes : (a b c d e : Bool) → (not a || b || c || d || e) ≡ false → a ≡ true
passes true b c d e h = refl
passes false b c d e h = cc

bad_factor_order :
    (p : Factor) (seen : List Text)
    → bad_factor p seen ≡ false
    → ordered_factor (cost p.output) (cost p.low) (cost p.high) ≡ true
unfolding bad_factor
bad_factor_order p seen h =
    passes (ordered_factor (cost p.output) (cost p.low) (cost p.high)) _ _ _ _ h

in_order :
    (m lo hi : Option ℕ)
    → ordered_factor m lo hi ≡ true
    → (or_zero lo ≤ or_zero m) × (or_zero m ≤ or_zero hi)
unfolding ordered_factor
in_order (some m) (some lo) (some hi) h = (ground arith, ground arith)
in_order (some m) (some lo) none h = cc
in_order (some m) none hi h = cc
in_order none lo hi h = cc

check_pairs-IsOrderedFactor :
    (ps : List Factor) (seen : List Text) {u : Unit {0}}
    → check_pairs ps seen ≡ ok u
    → All IsOrderedFactor ps
unfolding check_pairs rat
check_pairs-IsOrderedFactor [] seen h = tt
check_pairs-IsOrderedFactor (p ∷ ps) seen h =
    let (x, first, rest) = >>=-eq-ok (refuse_if (bad_factor p seen)) _ h in
    (
      in_order (cost p.output) (cost p.low) (cost p.high)
          (bad_factor_order p seen (not_refused (bad_factor p seen) first)),
      check_pairs-IsOrderedFactor ps (output_key p ∷ seen) rest,
    )

pub validate_factors-IsOrderedFactor :
    (f : Factors) {u : Unit {0}} → validate_factors f ≡ ok u → All IsOrderedFactor f.pairs
unfolding validate_factors
validate_factors-IsOrderedFactor f h =
    let (x, first, rest) = >>=-eq-ok (check_input_pairs f.input_pairs []) _ h in
    check_pairs-IsOrderedFactor f.pairs [] rest
