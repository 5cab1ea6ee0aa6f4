-- ===== src/Text/Digits.antt =====
-- `strconv.ParseUint(s, 10, bits)` and the decimal text of a number.
use fleetdiff.Base.{
  ℕ, zero, suc, ◌+◌, ◌-◌, ◌*◌, ◌/◌, ◌%◌, ◌≤◌, ◌<◌, ◌≡◌, refl, ap, ◌∙◌, Bool-cases, inl, inr, ltb→lt,
  true, Bool, ◌&&◌, Option, none, some, List, [], ◌∷◌, arith, ltb, leb, if◌then◌else◌,
}

unfoldable pub is_digit : ℕ → Bool
is_digit c = leb b'0' c && leb c b'9'

-- The number that digits spell after `acc`; `none` at the first byte that is no digit.
unfoldable pub digits_value : ℕ → List ℕ → Option ℕ
unfolding is_digit
digits_value acc [] = some acc
digits_value acc (c ∷ cs) =
    let rest = digits_value (acc * 10 + (c - b'0')) cs in if is_digit c then rest else none

abbrev below_or_none : ℕ → Option ℕ → Option ℕ
below_or_none limit none = none
below_or_none limit (some n) = if leb n limit then some n else none

-- `none` is a syntax or a range error: the callers treat them alike.
unfoldable pub parse_uint : ℕ → List ℕ → Option ℕ
unfolding digits_value
parse_uint limit [] = none
parse_uint limit (c ∷ cs) = below_or_none limit (digits_value 0 (c ∷ cs))

pub parse_uint-le : (limit : ℕ) (s : List ℕ) {n : ℕ} → parse_uint limit s ≡ some n → n ≤ limit
unfolding parse_uint
parse_uint-le limit [] h = cc
parse_uint-le limit (c ∷ cs) h = ground arith

-- Digits in front of `rest`, with fuel above the number.
unfoldable pub digits_before : ℕ → ℕ → List ℕ → List ℕ
digits_before zero n rest = rest
digits_before (suc f) n rest =
    let more = digits_before f (n / 10) ((b'0' + n % 10) ∷ rest) in
    if ltb n 10 then (b'0' + n) ∷ rest else more

-- `%d`
unfoldable pub show : ℕ → List ℕ
unfolding digits_before
show n = digits_before (suc n) n []

pub digit_is_digit : (d : ℕ) → d < 10 → is_digit (b'0' + d) ≡ true
unfolding is_digit
digit_is_digit d h = ground arith

digits_value-digit :
    (acc d : ℕ) (s : List ℕ)
    → d < 10
    → digits_value acc ((b'0' + d) ∷ s) ≡ digits_value (acc * 10 + d) s
unfolding digits_value
digits_value-digit acc d s h =
    rw (digit_is_digit d h) (ap (λ n. digits_value (acc * 10 + n) s) (omega arith))

digits_value-digits_before :
    (f n : ℕ) (rest : List ℕ)
    → n < f
    → digits_value 0 (digits_before f n rest) ≡ digits_value n rest
unfolding digits_before
digits_value-digits_before zero n rest h = absurd (omega arith)
digits_value-digits_before (suc f) n rest h = elim (Bool-cases (ltb n 10)) [
  | inl e ↦
      rw e
        (digits_value-digit 0 n rest (ltb→lt n 10 e) ∙ ap (λ m. digits_value m rest) (omega arith))
  | inr e ↦ rw e (
      digits_value-digits_before f (n / 10) ((b'0' + n % 10) ∷ rest) (ground arith)
      ∙ digits_value-digit (n / 10) (n % 10) rest (omega arith)
      ∙ ap (λ m. digits_value m rest) (omega arith))
]

has_digits :
    (f n c : ℕ) (rest : List ℕ) → (d : ℕ) × (s : List ℕ) × (digits_before f n (c ∷ rest) ≡ d ∷ s)
unfolding digits_before
has_digits zero n c rest = (c, rest, refl)
has_digits (suc f) n c rest = elim (Bool-cases (ltb n 10)) [
  | inl e ↦ rw e (b'0' + n, c ∷ rest, refl)
  | inr e ↦ rw e (has_digits f (n / 10) (b'0' + n % 10) (c ∷ rest))
]

-- The decimal text of a number has a first digit.
pub show-cons : (n : ℕ) → (d : ℕ) × (s : List ℕ) × (show n ≡ d ∷ s)
unfolding show
show-cons n = elim (Bool-cases (ltb n 10)) [
  | inl e ↦ rw e (b'0' + n, [], refl)
  | inr e ↦ rw e (has_digits n (n / 10) (b'0' + n % 10) [])
]

within : (n limit : ℕ) → n ≤ limit → leb n limit ≡ true
within n limit h = ground arith

-- The decimal text of a number is read as that number, where the limit admits it.
pub parse_uint-show : (limit n : ℕ) → n ≤ limit → parse_uint limit (show n) ≡ some n
unfolding show parse_uint
parse_uint-show limit n h =
    let (d, s, e) = show-cons n in
    let whole = digits_value-digits_before (suc n) n [] (omega arith) in
    rw (e, rw e at whole, within n limit h) refl
