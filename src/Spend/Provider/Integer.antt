-- ===== src/Spend/Provider/Integer.antt =====
-- internal/spend/provider_counts.go: `providerInteger` and the decimal text of a number.
use fleetdiff.Base.{
  ℕ, zero, suc, ◌+◌, ◌/◌, ◌%◌, ◌≤◌, ◌≡◌, refl, Bool-cases, inl, inr, true, some, List, [], ◌∷◌,
  arith, ltb, ltb→lt, max_int64, ok,
}
use fleetdiff.Text.Digits.{digits_before, digit_is_digit, show, show-cons, parse_uint-show}
use fleetdiff.Spend.Provider.{all_digits, read_integer, provider_integer}

all_digits-digits_before :
    (f n : ℕ) (rest : List ℕ) → all_digits rest ≡ true → all_digits (digits_before f n rest) ≡ true
unfolding digits_before all_digits
all_digits-digits_before zero n rest h = h
all_digits-digits_before (suc f) n rest h = elim (Bool-cases (ltb n 10)) [
  | inl e ↦ rw (e, digit_is_digit n (ltb→lt n 10 e)) h
  | inr e ↦ rw e (
      all_digits-digits_before f (n / 10) ((b'0' + n % 10) ∷ rest)
        (rw (digit_is_digit (n % 10) (omega arith)) h))
]

all_digits-show : (n : ℕ) → all_digits (show n) ≡ true
unfolding show all_digits
all_digits-show n = all_digits-digits_before (suc n) n [] refl

-- `providerInteger` reads the decimal text of a number back, where an `int64` holds it.
pub provider_integer-show : (n : ℕ) → n ≤ max_int64 → provider_integer (show n) ≡ ok (some n)
unfolding provider_integer read_integer
provider_integer-show n h =
    let (d, s, e) = show-cons n in
    let digits = all_digits-show n in
    let number = parse_uint-show max_int64 n h in rw (e, rw e at digits, rw e at number) refl
