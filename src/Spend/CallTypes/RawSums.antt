-- ===== src/Spend/CallTypes/RawSums.antt =====
-- The sums of a raw column by internal/spend/coverage.go: `recordCallType`.
use fleetdiff.Base.{
  ℕ, ◌+◌, ◌≤◌, ◌<◌, ◌≡◌, refl, ◌∙◌, ap, Bool-cases, inl, inr, ◌⊎◌, true, false, List, [], ◌∷◌, ltb,
  if◌then◌else◌, max_int64, sum_by, arith,
}
use fleetdiff.Accounting.Number.{add_bounded}
use fleetdiff.Spend.CallTypes.{RawSum, Reading, empty, unreadable, count, add_raw, no_sum}

abbrev pub read_count : Reading → ℕ
read_count (count n) = n
read_count _ = 0

-- Every reading of a column, added in turn.
unfoldable pub add_all : RawSum → List Reading → RawSum
add_all s [] = s
add_all s (x ∷ xs) = add_all (add_raw s x) xs

-- A sum, or 0 with the mark where it is past an `int64`.
unfoldable pub bounded : ℕ → RawSum
bounded n =
    if ltb max_int64 n
    then record { sum = 0; overflow = true }
    else record { sum = n; overflow = false }

add_marked :
    (xs : List Reading)
    → add_all (record { sum = 0; overflow = true }) xs ≡ record { sum = 0; overflow = true }
unfolding add_all add_raw
add_marked [] = refl
add_marked (empty ∷ xs) = add_marked xs
add_marked (unreadable ∷ xs) = add_marked xs
add_marked (count n ∷ xs) = add_marked xs

add_within :
    (k n : ℕ)
    → k ≤ max_int64
    → k + n ≤ max_int64
    → add_raw (record { sum = k; overflow = false }) (count n)
      ≡ record { sum = k + n; overflow = false }
unfolding add_raw add_bounded
add_within k n h w = ground arith

add_past :
    (k n : ℕ)
    → k ≤ max_int64
    → max_int64 < k + n
    → add_raw (record { sum = k; overflow = false }) (count n) ≡ record { sum = 0; overflow = true }
unfolding add_raw add_bounded
add_past k n h w = ground arith

bounded_fits : (n : ℕ) → n ≤ max_int64 → record { sum = n; overflow = false } ≡ bounded n
unfolding bounded
bounded_fits n h = ground arith

bounded_past : (n : ℕ) → max_int64 < n → record { sum = 0; overflow = true } ≡ bounded n
unfolding bounded
bounded_past n h = ground arith

size_cases : (n : ℕ) → (n ≤ max_int64) ⊎ (max_int64 < n)
size_cases n = elim (Bool-cases (ltb max_int64 n)) [
  | inl h ↦ inr (ground arith)
  | inr h ↦ inl (ground arith)
]

add_from :
    (k : ℕ) (xs : List Reading)
    → k ≤ max_int64
    → add_all (record { sum = k; overflow = false }) xs ≡ bounded (k + sum_by read_count xs)
unfolding add_all add_raw
add_from k [] h = bounded_fits k h ∙ ap bounded (omega arith)
add_from k (empty ∷ xs) h = add_from k xs h ∙ ap bounded (omega arith)
add_from k (unreadable ∷ xs) h = add_from k xs h ∙ ap bounded (omega arith)
add_from k (count n ∷ xs) h = elim (size_cases (k + n)) [
  | inl w ↦
      ap (λ s. add_all s xs) (add_within k n h w) ∙ add_from (k + n) xs w ∙ ap bounded (omega arith)
  | inr w ↦
      ap (λ s. add_all s xs) (add_past k n h w)
      ∙ add_marked xs
      ∙ bounded_past (k + (n + sum_by read_count xs)) (omega arith)
]

-- The sum of a raw column depends only on the exact sum of its readable numbers: it is that sum where it fits an
-- `int64`, and 0 with the overflow mark where it does not, wherever in the column the overflow is met.
pub add_all-eq : (xs : List Reading) → add_all no_sum xs ≡ bounded (sum_by read_count xs)
add_all-eq xs = add_from 0 xs (omega arith) ∙ ap bounded (omega arith)
