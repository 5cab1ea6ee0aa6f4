-- ===== src/Accounting/Cost.antt =====
-- internal/accounting/cost.go: `Cost` and `CostText`. `Cost` takes a decimal of at most 344 places, so
-- that each `big.Rat` it returns, and each sum of them, is a whole number of units of 10^-344.
use fleetdiff.Base.{
  ℕ, zero, suc, ◌+◌, ◌-◌, ◌*◌, ◌/◌, ◌%◌, ◌^◌, ◌≤◌, ◌≡◌, refl, Bool, true, false, ◌&&◌, ◌||◌, Option,
  none, some, [], ◌∷◌, ◌++◌, arith, ltb, leb, ◌==◌, if◌then◌else◌, length, Bool-cases, inl, inr,
}
use fleetdiff.Text.{Text, codes}
use fleetdiff.Text.Digits.{is_digit, show}

-- Digits read from the front of a text: their value after `value`, their number and what follows.
record Span : Type 0 where
  value : ℕ
  count : ℕ
  rest : Text

digits : ℕ → ℕ → Text → Span
digits v n [] = record { value = v; count = n; rest = [] }
digits v n (c ∷ cs) =
    let more = digits (v * 10 + (c - b'0')) (n + 1) cs in
    if is_digit c then more else record { value = v; count = n; rest = c ∷ cs }

abbrev within : ℕ → ℕ → Span → Option Span
within lo hi s = if leb lo s.count && leb s.count hi then some s else none

-- `(\.[0-9]{1,20})?` after the digits of the whole part.
fraction : Span → Option Span
unfolding digits is_digit
fraction s = elim s.rest [
  | [] ↦ some (record s { count = 0 })
  | c ∷ cs ↦ if c == b'.' then within 1 20 (digits s.value 0 cs) else some (record s { count = 0 })
]

-- An exponent: whether it is negative, and its magnitude.
record Exponent : Type 0 where
  negative : Bool
  magnitude : ℕ

exponent_digits : Bool → Text → Option Exponent
unfolding digits is_digit
exponent_digits neg s = elim (within 1 3 (digits 0 0 s)) [
  | none ↦ none
  | some d ↦ elim d.rest [
    | [] ↦ some (record { negative = neg; magnitude = d.value })
    | _ ∷ _ ↦ none
  ]
]

signed_exponent : Text → Option Exponent
unfolding exponent_digits
signed_exponent [] = none
signed_exponent (c ∷ cs) =
    if c == b'-'
    then exponent_digits true cs
    else if c == b'+'
    then exponent_digits false cs
    else exponent_digits false (c ∷ cs)

-- `([eE][+-]?[0-9]{1,3})?$`
exponent : Text → Option Exponent
unfolding signed_exponent
exponent [] = some (record { negative = false; magnitude = 0 })
exponent (c ∷ cs) = if c == b'e' || c == b'E' then signed_exponent cs else none

abbrev pub places : ℕ
places = 344

-- `maxCost`, 10^18.
unfoldable pub max_cost : ℕ
max_cost = 10 ^ 362

-- mantissa * 10^(up - down), if that is a whole number of units and at most 10^18 dollars.
units : ℕ → ℕ → ℕ → Option ℕ
units mantissa up down =
    if leb down up
    then some (mantissa * 10 ^ (up - down))
    else if mantissa % 10 ^ (down - up) == 0
    then some (mantissa / 10 ^ (down - up))
    else none

at_most_max : Option ℕ → Option ℕ
unfolding max_cost
at_most_max none = none
at_most_max (some u) = if leb u max_cost then some u else none

scaled : ℕ → ℕ → Option Exponent → Option ℕ
unfolding units at_most_max
scaled mantissa fraction_digits none = none
scaled mantissa fraction_digits (some e) = at_most_max (
    units mantissa (places + (if e.negative then 0 else e.magnitude))
      (fraction_digits + (if e.negative then e.magnitude else 0)))

after_fraction : Option Span → Option ℕ
unfolding exponent scaled
after_fraction none = none
after_fraction (some f) = scaled f.value f.count (exponent f.rest)

after_whole : Option Span → Option ℕ
unfolding fraction after_fraction
after_whole none = none
after_whole (some whole) = after_fraction (fraction whole)

-- The units of an accepted decimal.
unfoldable pub cost : Text → Option ℕ
unfolding digits is_digit after_whole
cost s = if ltb 48 (length s) then none else after_whole (within 1 19 (digits 0 0 s))

-- The places of a fraction of `unit`, up to the last that is not 0.
fraction_text : ℕ → ℕ → Text
fraction_text zero r = []
fraction_text (suc f) r =
    let more = (b'0' + r * 10 / 10 ^ places) ∷ fraction_text f (r * 10 % 10 ^ places) in
    if r == 0 then [] else more

-- The exact decimal: as many places as `FloatPrec` counts.
unfoldable pub cost_text : ℕ → Text
unfolding fraction_text show
cost_text u =
    let r = u % 10 ^ places in
    let whole = show (u / 10 ^ places) in
    if r == 0 then whole else whole ++ (b'.' ∷ fraction_text places r)

-- No accepted cost exceeds 10^18 dollars.
at_most_max-le : (o : Option ℕ) {u : ℕ} → at_most_max o ≡ some u → u ≤ max_cost
unfolding at_most_max
at_most_max-le none h = cc
at_most_max-le (some v) h = ground arith

scaled-le : (m d : ℕ) (e : Option Exponent) {u : ℕ} → scaled m d e ≡ some u → u ≤ max_cost
unfolding scaled
scaled-le m d none h = cc
scaled-le m d (some e) h = at_most_max-le (units m _ _) h

after_fraction-le : (f : Option Span) {u : ℕ} → after_fraction f ≡ some u → u ≤ max_cost
unfolding after_fraction
after_fraction-le none h = cc
after_fraction-le (some f) h = scaled-le f.value f.count (exponent f.rest) h

after_whole-le : (w : Option Span) {u : ℕ} → after_whole w ≡ some u → u ≤ max_cost
unfolding after_whole
after_whole-le none h = cc
after_whole-le (some w) h = after_fraction-le (fraction w) h

pub cost-le : (s : Text) {u : ℕ} → cost s ≡ some u → u ≤ max_cost
unfolding cost
cost-le s h = elim (Bool-cases (ltb 48 (length s))) [
  | inl long ↦ let e : none ≡ some _ = rw long at h in cc
  | inr short ↦ after_whole-le (within 1 19 (digits 0 0 s)) (rw short at h)
]

tenth : cost (codes "1.5e-1") ≡ some (15 * 10 ^ 342)
unfolding cost
tenth = refl

tenth_text : cost_text (15 * 10 ^ 342) ≡ codes "0.15"
unfolding cost_text
tenth_text = refl
