-- ===== src/Spend/Session/Distribution.antt =====
-- internal/spend/session.go: `distribution`.
use fleetdiff.Base.{
  ℕ, zero, suc, ◌+◌, ◌-◌, ◌*◌, ◌/◌, ◌≤◌, ◌<◌, ◌≡◌, refl, subst, sym, ◌∙◌, true, false, Option, none,
  some, List, [], ◌∷◌, ltb, leb, length, get_elem?, sort, sum_by, sum_by-sort, All, flag, arith,
  IsSorted, sort-IsSorted,
}

pub record Distribution : Type 0 where
  pub n : ℕ
  pub p50 : Option ℕ
  pub p95 : Option ℕ
  pub most : Option ℕ

-- The value at the nearest rank of a percentage.
unfoldable pub nearest : ℕ → List ℕ → Option ℕ
nearest q values = get_elem? (sort ltb values) ((length values * q + 99) / 100 - 1)

unfoldable pub distribution : List ℕ → Distribution
distribution [] = record { n = 0; p50 = none; p95 = none; most = none }
distribution (x ∷ xs) = record {
  n = length (x ∷ xs);
  p50 = nearest 50 (x ∷ xs);
  p95 = nearest 95 (x ∷ xs);
  most = get_elem? (sort ltb (x ∷ xs)) (length (x ∷ xs) - 1);
}

abbrev IsAscending : List ℕ → Type 0
IsAscending = IsSorted (λ a b. a ≤ b)

-- How many values are at most, and how many are less than a value.
abbrev pub at_most : ℕ → List ℕ → ℕ
at_most v xs = sum_by (λ x. flag (leb x v)) xs

abbrev pub less_than : ℕ → List ℕ → ℕ
less_than v xs = sum_by (λ x. flag (ltb x v)) xs

below-none : (v : ℕ) (xs : List ℕ) → All (λ y. v ≤ y) xs → less_than v xs ≡ 0
below-none v [] h = refl
below-none v (x ∷ xs) h = ground (arith, below-none v xs h.1, h.0)

elem_above : (x v i : ℕ) (xs : List ℕ) → All (λ y. x ≤ y) xs → get_elem? xs i ≡ some v → x ≤ v
elem_above x v i [] h e = cc
elem_above x v zero (y ∷ ys) h e = let q : y ≡ v = cc in subst (λ n. x ≤ n) q h.0
elem_above x v (suc i) (y ∷ ys) h e = elem_above x v i ys h.1 e

-- The element at a place of an ascending list has as many before it as it may, and no more.
at_most_elem :
    (v i : ℕ) (xs : List ℕ) → IsAscending xs → get_elem? xs i ≡ some v → i + 1 ≤ at_most v xs
at_most_elem v i [] h e = cc
at_most_elem v zero (x ∷ xs) h e = let q : x ≡ v = cc in ground arith
at_most_elem v (suc i) (x ∷ xs) h e =
    ground (arith, at_most_elem v i xs h.1 e, elem_above x v i xs h.0 e)

less_than_elem :
    (v i : ℕ) (xs : List ℕ) → IsAscending xs → get_elem? xs i ≡ some v → less_than v xs ≤ i
less_than_elem v i [] h e = cc
less_than_elem v zero (x ∷ xs) h e = let q : x ≡ v = cc in ground (arith, below-none x xs h.0)
less_than_elem v (suc i) (x ∷ xs) h e = ground (arith, less_than_elem v i xs h.1 e)

-- What the value at the nearest rank of a percentage is: at least that part of the values are at most it, and less than that
-- part are below it.
pub record IsNearest (q : ℕ) (values : List ℕ) (v : ℕ) : Type 0 where
  pub enough_at_most : length values * q ≤ 100 * at_most v values
  pub few_below : 100 * less_than v values < length values * q

sorted : (values : List ℕ) → IsAscending (sort ltb values)
sorted values =
    sort-IsSorted ltb (λ a b. a ≤ b) (λ x y e. ground (arith, e)) (λ x y e. ground (arith, e))
      (λ x y z p q. omega arith) values

length_sum : {A : Type 0} (xs : List A) → length xs ≡ sum_by (λ _. 1) xs
length_sum [] = refl
length_sum (x ∷ xs) = omega (arith, length_sum xs)

length-sort : (values : List ℕ) → length (sort ltb values) ≡ length values
length-sort values =
    length_sum (sort ltb values) ∙ sum_by-sort ltb (λ _. 1) values ∙ sym (length_sum values)

get_elem?-some : (i : ℕ) (xs : List ℕ) → i < length xs → (v : ℕ) × (get_elem? xs i ≡ some v)
get_elem?-some i [] h = let q : true ≡ false = ground (arith, h) in cc
get_elem?-some zero (x ∷ xs) h = (x, refl)
get_elem?-some (suc i) (x ∷ xs) h = get_elem?-some i xs (omega (arith, h))

-- The bounds of the place, of `m` hundredths.
rank_up : (m a b : ℕ) → 0 < m → (m + 99) / 100 - 1 + 1 ≤ b → b ≡ a → m ≤ 100 * a
rank_up m a b p h e = omega arith

rank_down : (m a b : ℕ) → 0 < m → b ≤ (m + 99) / 100 - 1 → b ≡ a → 100 * a < m
rank_down m a b p h e = omega arith

nearest-IsNearest :
    (q : ℕ) (values : List ℕ)
    → 0 < length values * q
    → (length values * q + 99) / 100 - 1 < length values
    → (v : ℕ) × (nearest q values ≡ some v) × IsNearest q values v
unfolding nearest
nearest-IsNearest q values a b =
    let i = (length values * q + 99) / 100 - 1 in
    let (v, e) =
      get_elem?-some i (sort ltb values) (subst (λ n. i < n) (sym (length-sort values)) b) in
    (
      v,
      e,
      record {
        enough_at_most =
            rank_up (length values * q) _ _ a (at_most_elem v i (sort ltb values) (sorted values) e)
              (sum_by-sort ltb (λ x. flag (leb x v)) values);
        few_below =
            rank_down (length values * q) _ _ a
              (less_than_elem v i (sort ltb values) (sorted values) e)
              (sum_by-sort ltb (λ x. flag (ltb x v)) values);
      },
    )

-- A distribution of some values.
pub record IsRanked (values : List ℕ) (d : Distribution) : Type 0 where
  pub all_counted : d.n ≡ length values
  pub middle : (v : ℕ) × (d.p50 ≡ some v) × IsNearest 50 values v
  pub high : (v : ℕ) × (d.p95 ≡ some v) × IsNearest 95 values v
  pub largest_value : (v : ℕ) × (d.most ≡ some v) × (length values ≤ at_most v values)

-- The distribution of values, of which there is one at least, counts them all and shows three of them: at `p50` and `p95`,
-- at least that percentage of the values are at most the one shown and less than that percentage are below it; and no value
-- is above the one shown as the largest.
pub distribution-IsRanked :
    (values : List ℕ) → 0 < length values → IsRanked values (distribution values)
unfolding distribution
distribution-IsRanked [] h = let q : true ≡ false = ground (arith, h) in cc
distribution-IsRanked (x ∷ xs) h =
    let values = x ∷ xs in
    let last = length values - 1 in
    let (v, e) =
      get_elem?-some last (sort ltb values)
        (subst (λ n. last < n) (sym (length-sort values)) (omega arith)) in
    record {
      all_counted = refl;
      middle = nearest-IsNearest 50 values (omega arith) (omega arith);
      high = nearest-IsNearest 95 values (omega arith) (omega arith);
      largest_value = (
        v,
        e,
        omega (
          arith,
          at_most_elem v last (sort ltb values) (sorted values) e,
          sum_by-sort ltb (λ x. flag (leb x v)) values,
        ),
      );
    }
