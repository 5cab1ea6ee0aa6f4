-- ===== src/Spend/Provider/Report/Days.antt =====
-- internal/spend/provider_counts.go: what `result` makes of each day.
use fleetdiff.Base.{
  ℕ, ◌+◌, ◌%◌, ◌≡◌, refl, sym, ap, ◌∙◌, subst, Bool, true, false, Option, none, some, List, [], ◌∷◌,
  ◌++◌, arith, word, add64, sum_by, sum_by-append, All, ok, >>=-eq-ok, ok-injective,
}
use fleetdiff.Text.{Text}
use fleetdiff.Accounting.Number.{add_bounded, add_bounded-eq-ok}
use fleetdiff.Spend.Provider.Contract.{CountContract, ProviderStatus}
use fleetdiff.Spend.Provider.Report.{ModelCoverage, DayCoverage, is_some, add_requests, add_model}
use fleetdiff.Spend.Provider.Report.Filled.{new_day}
use fleetdiff.Spend.Provider.Report.Sound.{IsModel}

abbrev pub requests_or_zero : ModelCoverage → ℕ
requests_or_zero m = elim m.provider_requests [ none ↦ 0 | some n ↦ n ]

abbrev pub HasRequests : ModelCoverage → Type 0
HasRequests m = is_some m.provider_requests ≡ true

-- What `d.LoggedRows` and `d.ProviderRequests` say of the models.
pub record IsTotalled (rows : ℕ) (requests : Option ℕ) (ms : List ModelCoverage) : Type 0 where
  pub logged : rows ≡ sum_by (λ m. m.logged_rows) ms % word
  pub all_counted :
      (n : ℕ) → requests ≡ some n → All HasRequests ms × (n ≡ sum_by requests_or_zero ms)

pub record IsFilled (c : Option CountContract) (d : DayCoverage) : Type 0 where
  pub totalled : IsTotalled d.day_logged_rows d.day_provider_requests d.models
  pub all_models : All (IsModel c d.day_status d.population) d.models

pub All-append {ℓ κ} :
    {A : Type ℓ} (P : A → Type κ) (xs : List A) (y : A) → All P xs → P y → All P (xs ++ y ∷ [])
All-append P [] y h p = (p, tt)
All-append P (x ∷ xs) y h p = (h.0, All-append P xs y h.1 p)

some-injective : {a b : ℕ} → some a ≡ some b → a ≡ b
some-injective {a} e = ap (λ o. elim o [ none ↦ a | some n ↦ n ]) e

pub none-ne-some {ℓ} : {P : Type ℓ} {n : ℕ} → none ≡ some n → P
none-ne-some e = cc

pub new_day-IsFilled :
    (c : Option CountContract) (s : Text) (t : ProviderStatus) → IsFilled c (new_day c s t)
unfolding new_day
new_day-IsFilled c s t = record {
  totalled = record { logged = refl; all_counted = λ n h. (tt, sym (some-injective h)) };
  all_models = tt;
}

-- The requests stay known only if both are known.
add_requests-some :
    (total : Option ℕ) (mapped : Bool) (o r : Option ℕ) (n : ℕ)
    → add_requests total mapped o ≡ ok r
    → r ≡ some n
    → (s : ℕ) × (v : ℕ) × (total ≡ some s) × (o ≡ some v) × (n ≡ s + v)
unfolding add_requests
add_requests-some total false o r n h e = none-ne-some (ok-injective h ∙ e)
add_requests-some total true none r n h e = none-ne-some (ok-injective h ∙ e)
add_requests-some none true (some v) r n h e = none-ne-some (ok-injective h ∙ e)
add_requests-some (some s) true (some v) r n h e =
    let (sum, p, q) = >>=-eq-ok (add_bounded s v) _ h in
    (s, v, refl, refl, sym (some-injective (ok-injective q ∙ e)) ∙ (add_bounded-eq-ok s v p).0)

-- One more model.
add_requests_lem :
    (total : Option ℕ) (mapped : Bool) (m : ModelCoverage) (ms : List ModelCoverage) (r : Option ℕ)
    → ((n : ℕ) → total ≡ some n → All HasRequests ms × (n ≡ sum_by requests_or_zero ms))
    → add_requests total mapped m.provider_requests ≡ ok r
    → (n : ℕ) → r ≡ some n
    → All HasRequests (ms ++ m ∷ []) × (n ≡ sum_by requests_or_zero (ms ++ m ∷ []))
unfolding is_some
add_requests_lem total mapped m ms r k h n e =
    let (s, v, p, q, sum) = add_requests-some total mapped m.provider_requests r n h e in
    let (all, before) = k s p in
    let here : requests_or_zero m ≡ v = ap (λ o. elim o [ none ↦ 0 | some n ↦ n ]) q in
    (
      All-append HasRequests ms m all (ap is_some q),
      omega (arith, sum_by-append requests_or_zero ms (m ∷ [])),
    )

logged_step : (a b s : ℕ) → a ≡ s % word → add64 a b ≡ (s + b) % word
unfolding add64
logged_step a b s h = omega arith

pub add_model-IsFilled :
    (c : Option CountContract) (d : DayCoverage) (mapped : Bool) (m : ModelCoverage)
    {e : DayCoverage}
    → IsModel c d.day_status d.population m
    → IsFilled c d
    → add_model d mapped m ≡ ok e
    → IsFilled c e
unfolding add_model
add_model-IsFilled c d mapped m i f h =
    let (r, p, q) =
      >>=-eq-ok (add_requests d.day_provider_requests mapped m.provider_requests) _ h in
    let sums = sum_by-append (λ n. n.logged_rows) d.models (m ∷ []) in
    subst (IsFilled c) (ok-injective q) (record {
      totalled = record {
        logged =
            logged_step d.day_logged_rows m.logged_rows _ f.totalled.logged
            ∙ ap (λ n. n % word) (omega arith);
        all_counted =
            add_requests_lem d.day_provider_requests mapped m d.models r f.totalled.all_counted p;
      };
      all_models = All-append (IsModel c d.day_status d.population) d.models m f.all_models i;
    })
