-- ===== src/Base/Errors.antt =====
-- Fallible code: Go's `(value, error)`. The constructors of `Error` stand for the messages that the
-- source builds with `errors.New`.
use Prim.Native.Nat.{ℕ, ◌+◌, ◌<◌}
use native.Mathlib.Omega.{arith}
use mathlib.Core.Path.{◌≡◌, refl, ap, subst, ◌∙◌}
use fleetdiff.Base.Lists.{sum_by}
use fleetdiff.Base.Word.{add64, add64-eq, word}
use mathlib.Core.List.{List, [], ◌∷◌}

pub data Error : Type 0 where
  overflow too_many_call_types too_many_identities too_many_cohorts too_many_cells : Error
  too_many_models bad_identity : Error
  bad_period unequal_periods unfinished_period few_days : Error
  coverage_csv coverage_limit : Error
  bad_json bad_utf8 too_deep too_many_fields field_too_long bad_scalar duplicate_key bad_record
        bad_columns aggregate_export :
      Error
  bad_config unknown_price no_factor record_extrema overlapping_moves workload_conflict
        target_tier :
      Error
  missing_request bad_timestamp bad_rejection unfinished_record too_many_sessions singleton_sessions
        too_many_memberships bad_top bad_window bad_budget no_records no_selected_records
        future_records duplicate_request :
      Error
  show_labels routing_option scope_option : Error
  bad_encoding provider_input provider_mapping provider_contract provider_scope : Error
  ranking_options ranking_sketches topk_marker topk_missing topk_kind bad_share : Error
  agent_options agent_field request_tags_field non_string_tags too_many_agents : Error
  batch_size size_limit window_missing_usage conflicting_sequence window_order missing_snapshots
        incomplete_windows frequent_total sketch_state payload_count :
      Error

pub data Result {ℓ} (A : Type ℓ) : Type ℓ where
  err : Error → Result A
  ok : A → Result A

-- The value on success, and a default for an error.
abbrev pub value_or {ℓ} : {A : Type ℓ} → A → Result A → A
value_or d (err e) = d
value_or d (ok a) = a

module _ {ℓ κ} {A : Type ℓ} {B : Type κ} where
  infixl 5 ◌>>=◌
  -- An error ends the chain.
  abbrev pub ◌>>=◌ : Result A → (A → Result B) → Result B
  err e >>= next = err e
  ok a >>= next = next a

  pub >>=-eq-ok :
      (m : Result A) (next : A → Result B) {b : B}
      → (m >>= next) ≡ ok b
      → (a : A) × (m ≡ ok a) × (next a ≡ ok b)
  >>=-eq-ok (err e) next eq = cc
  >>=-eq-ok (ok a) next eq = (a, refl, eq)

module _ {ℓ κ} {S : Type ℓ} {A : Type κ} where
  -- `for _, x := range xs { if err := step(x); err != nil { return err } }`
  abbrev pub fold_ok : (S → A → Result S) → S → List A → Result S
  fold_ok step s [] = ok s
  fold_ok step s (x ∷ xs) = step s x >>= λ t. fold_ok step t xs

pub ok-injective {ℓ} : {A : Type ℓ} {a b : A} → ok a ≡ ok b → a ≡ b
ok-injective {a} e = ap (value_or a) e

module _ {ℓ κ} {S : Type ℓ} {A : Type κ} (step : S → A → Result S) (IsGood : S → Type 0) (p : S → ℕ)
    (g : A → ℕ) where
  -- A loop whose every round keeps an invariant and adds to a count adds the sum.
  pub fold_ok_adds :
      ((s : S) (x : A) (t : S) → IsGood s → step s x ≡ ok t → IsGood t × (p t ≡ p s + g x))
      → (xs : List A) (s t : S) → IsGood s
      → fold_ok step s xs ≡ ok t
      → IsGood t × (p t ≡ p s + sum_by g xs)
  fold_ok_adds one [] s t i e =
      let q : p s ≡ p t = ap p (ok-injective e) in (subst IsGood (ok-injective e) i, omega arith)
  fold_ok_adds one (x ∷ xs) s t i e =
      let (u, first, rest) = >>=-eq-ok (step s x) _ e in
      let (j, added) = one s x u i first in
      let (k, more) = fold_ok_adds one xs u t j rest in (k, omega arith)

module _ {ℓ κ} {S : Type ℓ} {A : Type κ} (step : S → A → Result S) (p : S → ℕ) (g : A → ℕ) where
  -- The same for a `uint64` count, where the sum does not wrap.
  pub fold_ok_adds64 :
      ((s : S) (x : A) (t : S) → step s x ≡ ok t → p t ≡ add64 (p s) (g x))
      → (xs : List A) (s t : S) → p s + sum_by g xs < word
      → fold_ok step s xs ≡ ok t
      → p t ≡ p s + sum_by g xs
  fold_ok_adds64 one [] s t w e = let q : p s ≡ p t = ap p (ok-injective e) in omega arith
  fold_ok_adds64 one (x ∷ xs) s t w e =
      let (u, first, rest) = >>=-eq-ok (step s x) _ e in
      let added : p u ≡ p s + g x = one s x u first ∙ add64-eq (p s) (g x) (omega arith) in
      let more : p t ≡ p u + sum_by g xs = fold_ok_adds64 one xs u t (omega arith) rest in
      omega arith

-- An error is no value.
pub err-ne-ok {ℓ κ} : {A : Type ℓ} {P : Type κ} {e : Error} {a : A} → err e ≡ ok a → P
err-ne-ok h = cc
