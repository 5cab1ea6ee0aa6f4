-- ===== src/Accounting/Number.antt =====
-- internal/accounting/accounting.go: `Number`, `AddBounded` and the attribute values they read.
use fleetdiff.Base.{
  ℕ, ◌+◌, ◌-◌, ◌*◌, ◌/◌, ◌%◌, ◌^◌, ◌≤◌, ◌<◌, ◌≡◌, ◌⊎◌, Bool, true, false, ◌&&◌, ◌||◌, not, Option,
  none, some, arith, ltb, ◌==◌, if◌then◌else◌, max_int64, max_uint64, Result, ok, err, overflow, ℤ,
  pos, negsuc,
}
use fleetdiff.Text.{Text}
use fleetdiff.Text.Digits.{parse_uint}

-- A float64: `finite negative m u d` is m * 2^u / 2^d with its sign.
pub data Double : Type 0 where
  nan : Double
  infinite : Bool → Double
  finite : Bool → ℕ → ℕ → ℕ → Double

-- The one field of `commonpb.AnyValue` that the program reads, and the nil pointer.
pub data Value : Type 0 where
  null : Value
  int_value : ℤ → Value
  double_value : Double → Value
  string_value : Text → Value
  other_value : Value

-- `n < 0`, `math.Trunc(n) != n`, `n >= float64(math.MaxInt64)` (which is 2^63) and `uint64(n)`.
is_negative : Double → Bool
is_negative nan = false
is_negative (infinite s) = s
is_negative (finite s m u d) = s && not (m == 0)

is_fractional : Double → Bool
is_fractional nan = false
is_fractional (infinite s) = false
is_fractional (finite s m u d) = not (m * 2 ^ u % 2 ^ d == 0)

is_nan : Double → Bool
is_nan nan = true
is_nan _ = false

reaches_int64 : Double → Bool
reaches_int64 nan = false
reaches_int64 (infinite s) = not s
reaches_int64 (finite s m u d) = not s && ltb max_int64 (m * 2 ^ u / 2 ^ d)

to_uint64 : Double → ℕ
to_uint64 (finite s m u d) = m * 2 ^ u / 2 ^ d
to_uint64 _ = 0

double_number : Double → Result (Option ℕ)
unfolding is_negative is_fractional is_nan reaches_int64 to_uint64
double_number n =
    if is_negative n || is_nan n || is_fractional n
    then ok none
    else if reaches_int64 n
    then err overflow
    else ok (some (to_uint64 n))

text_number : Option ℕ → Result (Option ℕ)
text_number none = ok none
text_number (some n) = if ltb max_int64 n then err overflow else ok (some n)

-- `(n, true, nil)` is `ok (some n)` and `(0, false, nil)` is `ok none`. An `int64` is at most 2^63 - 1,
-- so its conversion keeps it.
unfoldable pub number : Value → Result (Option ℕ)
unfolding double_number text_number
number null = ok none
number (int_value (pos n)) = ok (some n)
number (int_value (negsuc n)) = ok none
number (double_value d) = double_number d
number (string_value s) = text_number (parse_uint max_uint64 s)
number other_value = ok none

-- An `int64` payload is in range; the other payloads have no bound of their own.
abbrev pub IsInt64 : Value → Type 0
IsInt64 (int_value (pos n)) = n ≤ max_int64
IsInt64 _ = Unit

unfoldable pub add_bounded : ℕ → ℕ → Result ℕ
add_bounded a b = if ltb max_int64 b || ltb (max_int64 - b) a then err overflow else ok (a + b)

-- The sum is exact and stays within `int64`, or the call fails: exactly when it would not.
pub add_bounded_cases :
    (a b : ℕ)
    → ((a + b ≤ max_int64) × (add_bounded a b ≡ ok (a + b)))
      ⊎ ((max_int64 < a + b) × (add_bounded a b ≡ err overflow))
unfolding add_bounded
add_bounded_cases a b = ground arith

pub add_bounded-eq-ok : (a b : ℕ) {n : ℕ} → add_bounded a b ≡ ok n → (n ≡ a + b) × (n ≤ max_int64)
unfolding add_bounded
add_bounded-eq-ok a b h = ground arith

pub add_bounded_fits : (a b : ℕ) → a + b ≤ max_int64 → add_bounded a b ≡ ok (a + b)
unfolding add_bounded
add_bounded_fits a b h = ground arith

-- A count that `Number` accepts fits in an `int64`.
pub number-le : (v : Value) → IsInt64 v → {n : ℕ} → number v ≡ ok (some n) → n ≤ max_int64
unfolding number
number-le null h e = cc
number-le (int_value (pos n)) h e = ground arith
number-le (int_value (negsuc n)) h e = cc
number-le (double_value nan) h e = ground arith
number-le (double_value (infinite s)) h e = ground arith
number-le (double_value (finite s m u d)) h e = ground arith
number-le (string_value s) h e = ground arith
number-le other_value h e = cc
