-- ===== src/Spend/Provider/Report/Sound.antt =====
-- internal/spend/provider_counts.go: what the models of a day rest on.
use fleetdiff.Base.{
  ℕ, ◌≤◌, ◌≡◌, refl, sym, ap, Bool, true, false, ◌&&◌, Option, none, some, if◌then◌else◌,
  Bool-cases, inl, inr, arith, max_int64, sub64, ℤ, pos, negsuc, zero, suc, ◌∙◌, subst, ◌⊎◌, ◌-ℤ◌,
}
use fleetdiff.Text.{Text}
use fleetdiff.Spend.Provider.Contract.{
  CountContract, ProviderStatus, counts_match, provider_exceeds_logged_rows,
  logged_rows_exceed_provider, provider_counts_missing, unmapped_spend_model,
  request_count_unavailable,
}
use fleetdiff.Spend.Provider.{Measurements}
use fleetdiff.Spend.Provider.Entries.{ProviderKey, ProviderEntry}
use fleetdiff.Spend.Provider.Report.{
  to_int64, provider_difference, ModelCoverage, DayCoverage, is_complete, is_matched, refuses,
  settle, compare_units, counting_units, token_units, is_some, requests_of, model_counts, model_of,
  sign_status, status_of,
}

-- The difference of two counts that an `int64` can hold is their exact difference.
to_int64-sub64 : (p l : ℕ) → p ≤ max_int64 → l ≤ max_int64 → to_int64 (sub64 p l) ≡ pos p -ℤ pos l
unfolding to_int64 sub64 ◌-ℤ◌
to_int64-sub64 p l h k = ground arith

-- A difference that is shown is one of two counts that are shown, and exact where an `int64` holds both.
pub record IsDifference (provider logged : Option ℕ) (z : ℤ) : Type 0 where
  pub p : ℕ
  pub l : ℕ
  pub has_provider : provider ≡ some p
  pub has_logged : logged ≡ some l
  pub exact : p ≤ max_int64 → l ≤ max_int64 → z ≡ pos p -ℤ pos l

provider_difference-IsDifference :
    (a b : Option ℕ) (z : ℤ) → provider_difference a b ≡ some z → IsDifference a b z
unfolding provider_difference
provider_difference-IsDifference none b z h = cc
provider_difference-IsDifference (some p) none z h = cc
provider_difference-IsDifference (some p) (some l) z h = record {
  p = p;
  l = l;
  has_provider = refl;
  has_logged = refl;
  exact = λ k m. sym (some-injective h) ∙ to_int64-sub64 p l k m;
}
  where
    or_zero : Option ℤ → ℤ
    or_zero none = pos 0
    or_zero (some y) = y

    some-injective : {y : ℤ} → some y ≡ some z → y ≡ z
    some-injective e = ap or_zero e

-- The status that belongs to a difference.
abbrev pub HasSign : ℤ → ProviderStatus → Type 0
HasSign (pos zero) s = s ≡ counts_match
HasSign (pos (suc n)) s = s ≡ provider_exceeds_logged_rows
HasSign (negsuc n) s = s ≡ logged_rows_exceed_provider

-- Some count of requests is not there.
abbrev pub IsAbsence : ProviderStatus → Type 0
IsAbsence s =
    (s ≡ provider_counts_missing) ⊎ (s ≡ unmapped_spend_model) ⊎ (s ≡ request_count_unavailable)

-- A model of a day: its status is the day's on a day that is not whole, the population's where that refuses a comparison,
-- and else that of the sign of the difference, or of a missing count; what is shown as comparable rests on a whole day of a matched population, and so do the
-- differences of tokens.
pub record IsModel (c : Option CountContract) (status population : ProviderStatus)
    (m : ModelCoverage) : Type 0 where
  pub partial_day : is_complete status ≡ false → m.model_status ≡ status
  pub refused : is_complete status ≡ true → refuses population ≡ true → m.model_status ≡ population
  pub signed : (z : ℤ) → m.request_difference ≡ some z → HasSign z m.model_status
  pub unsigned :
      is_complete status ≡ true
      → refuses population ≡ false
      → m.request_difference ≡ none
      → IsAbsence m.model_status
  pub comparable :
      m.comparable ≡ true
      → (is_complete status ≡ true)
        × (is_matched population ≡ true)
        × (counting_units c ≡ true)
        × (is_some m.request_difference ≡ true)
  pub requests :
      (z : ℤ)
      → m.request_difference ≡ some z
      → IsDifference m.provider_requests (some m.logged_rows) z
  pub input :
      (z : ℤ)
      → m.input_difference ≡ some z
      → (is_complete status ≡ true)
        × (is_matched population ≡ true)
        × (token_units c ≡ true)
        × IsDifference m.provider_input m.logged_input z
  pub output :
      (z : ℤ)
      → m.output_difference ≡ some z
      → (is_complete status ≡ true)
        × (is_matched population ≡ true)
        × (token_units c ≡ true)
        × IsDifference m.provider_output m.logged_output z

and_parts : (a b : Bool) → (a && b) ≡ true → (a ≡ true) × (b ≡ true)
and_parts true b h = (refl, h)
and_parts false b h = cc

-- The status before the day and the population settle it.
record IsStatus (m : ModelCoverage) : Type 0 where
  with_sign : (z : ℤ) → m.request_difference ≡ some z → HasSign z m.model_status
  without : m.request_difference ≡ none → IsAbsence m.model_status

sign_status-HasSign : (z : ℤ) → HasSign z (sign_status z)
unfolding sign_status
sign_status-HasSign (pos zero) = refl
sign_status-HasSign (pos (suc n)) = refl
sign_status-HasSign (negsuc n) = refl

no_difference : {P : Type 0} {z : ℤ} → none ≡ some z → P
no_difference h = cc

difference-injective : {y z : ℤ} → some y ≡ some z → y ≡ z
difference-injective {y} e = ap (λ o. elim o [ none ↦ y | some x ↦ x ]) e

status_of-signed :
    (mapped : Bool) (m : Option Measurements) (o : Option ℤ) (z : ℤ)
    → (m ≡ none → o ≡ none)
    → o ≡ some z
    → HasSign z (status_of mapped m o)
unfolding status_of
status_of-signed mapped none o z n h = no_difference (sym (n refl) ∙ h)
status_of-signed mapped (some m) none z n h = no_difference h
status_of-signed mapped (some m) (some y) z n h =
    subst (λ x. HasSign x (sign_status y)) (difference-injective h) (sign_status-HasSign y)

status_of-IsAbsence :
    (mapped : Bool) (m : Option Measurements) (o : Option ℤ)
    → o ≡ none
    → IsAbsence (status_of mapped m o)
unfolding status_of
status_of-IsAbsence true none o h = inl refl
status_of-IsAbsence false none o h = inr (inl refl)
status_of-IsAbsence mapped (some m) none h = inr (inr refl)
status_of-IsAbsence mapped (some m) (some z) h = no_difference (sym h)

no_measurements :
    (m : Option Measurements) (rows : ℕ)
    → m ≡ none
    → provider_difference (requests_of m) (some rows) ≡ none
unfolding provider_difference requests_of
no_measurements none rows h = refl
no_measurements (some m) rows h = cc

model_counts-IsStatus :
    (k : ProviderKey) (e : ProviderEntry) (name : Text × Text) → IsStatus (model_counts k e name)
unfolding model_counts
model_counts-IsStatus k e name = record {
  with_sign =
      λ z h. status_of-signed k.mapped e.measurements _ z (no_measurements e.measurements e.rows) h;
  without = status_of-IsAbsence k.mapped e.measurements _;
}

-- What the day and the population make of it.
record IsSettled (status population : ProviderStatus) (m : ModelCoverage) : Type 0 where
  partial_day : is_complete status ≡ false → m.model_status ≡ status
  refused : is_complete status ≡ true → refuses population ≡ true → m.model_status ≡ population
  signed : (z : ℤ) → m.request_difference ≡ some z → HasSign z m.model_status
  unsigned :
      is_complete status ≡ true
      → refuses population ≡ false
      → m.request_difference ≡ none
      → IsAbsence m.model_status

settle-IsSettled :
    (d : DayCoverage) (m : ModelCoverage)
    → IsStatus m
    → IsSettled d.day_status d.population (settle d m)
unfolding settle
settle-IsSettled d m i = elim (Bool-cases (is_complete d.day_status)) [
  | inr h ↦ rw h (record {
    partial_day = λ e. refl;
    refused = λ e. cc;
    signed = λ z e. no_difference e;
    unsigned = λ e. cc;
  })
  | inl h ↦ elim (Bool-cases (refuses d.population)) [
    | inl g ↦
        rw (h, g)
          (record {
            partial_day = λ e. cc;
            refused = λ e f. refl;
            signed = λ z e. no_difference e;
            unsigned = λ e f. cc;
          })
    | inr g ↦
        rw (h, g)
          (record {
            partial_day = λ e. cc;
            refused = λ e f. cc;
            signed = i.with_sign;
            unsigned = λ e f. i.without;
          })
  ]
]

settle_requests :
    (d : DayCoverage) (m : ModelCoverage)
    → ((z : ℤ)
        → m.request_difference ≡ some z
        → IsDifference m.provider_requests (some m.logged_rows) z)
    → (z : ℤ) → (settle d m).request_difference ≡ some z
    → IsDifference (settle d m).provider_requests (some (settle d m).logged_rows) z
unfolding settle
settle_requests d m k z = elim (Bool-cases (is_complete d.day_status)) [
  | inl h ↦ elim (Bool-cases (refuses d.population)) [
    | inl g ↦ rw (h, g) (λ e. cc)
    | inr g ↦ rw (h, g) (k z)
  ]
  | inr h ↦ rw h (λ e. cc)
]

tokens_shown :
    (a t : Bool) (p l : Option ℕ) (z : ℤ)
    → (if a && t then provider_difference p l else none) ≡ some z
    → (a ≡ true) × (t ≡ true) × IsDifference p l z
tokens_shown true true p l z h = (refl, refl, provider_difference-IsDifference p l z h)
tokens_shown true false p l z h = cc
tokens_shown false t p l z h = cc

compare_units-IsModel :
    (c : Option CountContract) (d : DayCoverage) (m : ModelCoverage)
    → IsSettled d.day_status d.population m
    → ((z : ℤ)
        → m.request_difference ≡ some z
        → IsDifference m.provider_requests (some m.logged_rows) z)
    → IsModel c d.day_status d.population (compare_units c d m)
unfolding compare_units
compare_units-IsModel c d m i k =
    let right = is_complete d.day_status && is_matched d.population in
    record {
      partial_day = i.partial_day;
      refused = i.refused;
      signed = i.signed;
      unsigned = i.unsigned;
      comparable = λ h.
          let (x, some_difference) =
            and_parts (right && counting_units c) (is_some m.request_difference) h in
          let (y, units) = and_parts right (counting_units c) x in
          let (whole, matched) = and_parts (is_complete d.day_status) (is_matched d.population) y in
          (whole, matched, units, some_difference);
      requests = k;
      input = λ z h.
          let (x, units, i) =
            tokens_shown right (token_units c) m.provider_input m.logged_input z h in
          let (whole, matched) = and_parts (is_complete d.day_status) (is_matched d.population) x in
          (whole, matched, units, i);
      output = λ z h.
          let (x, units, i) =
            tokens_shown right (token_units c) m.provider_output m.logged_output z h in
          let (whole, matched) = and_parts (is_complete d.day_status) (is_matched d.population) x in
          (whole, matched, units, i);
    }

pub model_of-IsModel :
    (c : Option CountContract) (d : DayCoverage) (k : ProviderKey) (e : ProviderEntry)
    (name : Text × Text)
    → IsModel c d.day_status d.population (model_of c d k e name)
unfolding model_of model_counts
model_of-IsModel c d k e name =
    compare_units-IsModel c d (settle d (model_counts k e name))
      (settle-IsSettled d (model_counts k e name) (model_counts-IsStatus k e name))
      (settle_requests d (model_counts k e name)
        (provider_difference-IsDifference (requests_of e.measurements) (some e.rows)))
