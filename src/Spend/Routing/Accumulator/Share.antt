-- ===== src/Spend/Routing/Accumulator/Share.antt =====
-- What a row adds to each quantity of the totals that take it in, in internal/spend/routing.go.
use fleetdiff.Base.{
  ℕ, ◌+◌, ◌≤◌, ◌<◌, ◌≡◌, refl, sym, ap, subst, ◌∙◌, Bool, true, false, arith, add64, add64-eq, word,
  ok, >>=-eq-ok, ok-injective, if◌then◌else◌, ◌==◌, Bool-cases, inl, inr, flag,
}
use fleetdiff.Accounting.Number.{add_bounded-eq-ok}
use fleetdiff.Spend.Aggregate.{Entry, Aggregate, add_entry, spending, units_spent}
use fleetdiff.Spend.Aggregate.Sums.{
  total, subset_part, as_failed, final_quality, part-add_subset, Added, add_entry-Added,
}
use fleetdiff.Spend.Quality.{counter, counter-add_quality}
use fleetdiff.Spend.Routing.Modular.{Same, Same-eq}
use fleetdiff.Spend.Routing.Fields.{
  Side, before, after, FieldState, known, absent, empty, invalid, fallback,
}
use fleetdiff.Spend.Routing.Totals.{Totals, Fallbacks, add_row, count_fallback}
use fleetdiff.Spend.Routing.Merge.{
  Quantity, quantity, is_exact, add64-Same, counters-merge, quantity-new_totals,
}
use fleetdiff.Spend.Routing.Merge
use fleetdiff.Spend.Routing.Audit.{Pair, new_pair}
use fleetdiff.Spend.Routing.Audit.Conserved.{of_pair}
use fleetdiff.Spend.Routing.Accumulator.{add_pair}

-- Whether a quantity counts rows in a `uint64` that wraps around, and not by `AddBounded` or exactly.
abbrev pub wraps : Quantity → Bool
wraps Merge.tokens = false
wraps Merge.cost = false
wraps (Merge.failure p) = false
wraps (Merge.metric_count k) = false
wraps (Merge.quality_count c) = false
wraps _ = true

fallback_flag : Quantity → ℕ × FieldState → ℕ
fallback_flag Merge.zero_fallbacks (n, known) = flag (n == 0)
fallback_flag Merge.positive_fallbacks (n, known) = if n == 0 then 0 else 1
fallback_flag Merge.unknown_fallbacks (n, known) = 0
fallback_flag Merge.unknown_fallbacks (n, s) = 1
fallback_flag q p = 0

flag-le : (q : Quantity) (p : ℕ × FieldState) → fallback_flag q p ≤ 1
unfolding fallback_flag
flag-le Merge.zero_fallbacks (n, known) = ground arith
flag-le Merge.positive_fallbacks (n, known) = ground arith
flag-le Merge.unknown_fallbacks (n, known) = omega arith
flag-le Merge.unknown_fallbacks (n, absent) = omega arith
flag-le Merge.unknown_fallbacks (n, empty) = omega arith
flag-le Merge.unknown_fallbacks (n, invalid) = omega arith
flag-le Merge.zero_fallbacks (n, s) = omega arith
flag-le Merge.positive_fallbacks (n, s) = omega arith
flag-le q p = omega arith

-- What a row adds to a quantity of each total that it belongs to.
unfoldable pub share : Quantity → Entry → Bool → ℕ
unfolding fallback_flag
share Merge.requests e k = 1
share Merge.tokens e k = total e
share Merge.unknown_models e k = if k then 0 else 1
share Merge.cost e k = units_spent (spending e.row)
share (Merge.failure p) e k = subset_part p as_failed e
share (Merge.metric_count m) e k = e.seen.metric m
share (Merge.quality_count c) e k = counter c (final_quality e)
share q e k = fallback_flag q (fallback e.row)

-- A row counts at most once where a counter could wrap.
pub wraps_share : (q : Quantity) (e : Entry) (k : Bool) → wraps q ≡ true → share q e k ≤ 1
unfolding share
wraps_share Merge.requests e k w = omega arith
wraps_share Merge.tokens e k w = cc
wraps_share Merge.unknown_models e k w = ground arith
wraps_share Merge.zero_fallbacks e k w = flag-le Merge.zero_fallbacks (fallback e.row)
wraps_share Merge.positive_fallbacks e k w = flag-le Merge.positive_fallbacks (fallback e.row)
wraps_share Merge.unknown_fallbacks e k w = flag-le Merge.unknown_fallbacks (fallback e.row)
wraps_share Merge.cost e k w = cc
wraps_share (Merge.failure p) e k w = cc
wraps_share (Merge.metric_count m) e k w = cc
wraps_share (Merge.quality_count c) e k w = cc

-- There is room for one more row.
abbrev pub HasRoom : Quantity → ℕ → Type 0
HasRoom q n = wraps q ≡ true → n + 1 < word

one_more :
    (n : ℕ) (c : Bool) → n + 1 < word → (if c then n else add64 n 1) ≡ n + (if c then 0 else 1)
one_more n true h = omega arith
one_more n false h = add64-eq n 1 h

count_fallback_share :
    (f : Fallbacks) (p : ℕ × FieldState)
    → (f.known_zero_rows + 1 < word
        → (count_fallback f p).known_zero_rows
          ≡ f.known_zero_rows + fallback_flag Merge.zero_fallbacks p)
      × (f.known_positive_rows + 1 < word
          → (count_fallback f p).known_positive_rows
            ≡ f.known_positive_rows + fallback_flag Merge.positive_fallbacks p)
      × (f.unknown_rows + 1 < word
          → (count_fallback f p).unknown_rows
            ≡ f.unknown_rows + fallback_flag Merge.unknown_fallbacks p)
unfolding count_fallback fallback_flag
count_fallback_share f (n, known) = elim (Bool-cases (n == 0)) [
  | inl z ↦ rw z (λ h. add64-eq f.known_zero_rows 1 h, λ h. omega arith, λ h. omega arith)
  | inr z ↦ rw z (λ h. omega arith, λ h. add64-eq f.known_positive_rows 1 h, λ h. omega arith)
]
count_fallback_share f (n, absent) =
    (λ h. omega arith, λ h. omega arith, λ h. add64-eq f.unknown_rows 1 h)
count_fallback_share f (n, empty) =
    (λ h. omega arith, λ h. omega arith, λ h. add64-eq f.unknown_rows 1 h)
count_fallback_share f (n, invalid) =
    (λ h. omega arith, λ h. omega arith, λ h. add64-eq f.unknown_rows 1 h)

made_share :
    (q : Quantity) (t : Totals) (e : Entry) (k : Bool) (a : Aggregate)
    → Added t.sums e a
    → HasRoom q (quantity q t)
    → Same
        (is_exact q)
        (quantity q (record {
          sums = a;
          fallbacks = count_fallback t.fallbacks (fallback e.row);
          unknown_models = if k then t.unknown_models else add64 t.unknown_models 1;
        }))
        (quantity q t + share q e k)
unfolding share
made_share Merge.requests t e k a d r = Same-eq (d.requests ∙ add64-eq t.sums.requests 1 (r refl))
made_share Merge.tokens t e k a d r = Same-eq (add_bounded-eq-ok t.sums.tokens (total e) d.tokens).0
made_share Merge.unknown_models t e k a d r = Same-eq (one_more t.unknown_models k (r refl))
made_share Merge.zero_fallbacks t e k a d r =
    Same-eq ((count_fallback_share t.fallbacks (fallback e.row)).0 (r refl))
made_share Merge.positive_fallbacks t e k a d r =
    Same-eq ((count_fallback_share t.fallbacks (fallback e.row)).1 (r refl))
made_share Merge.unknown_fallbacks t e k a d r =
    Same-eq ((count_fallback_share t.fallbacks (fallback e.row)).2 (r refl))
made_share Merge.cost t e k a d r = Same-eq d.cost
made_share (Merge.failure p) t e k a d r =
    Same-eq (part-add_subset p as_failed e t.sums.failure_tokens a.failure_tokens d.failures)
made_share (Merge.metric_count m) t e k a d r =
    add64-Same _ _ _ (counters-merge m t.sums.counters e.seen.metric d.counts)
made_share (Merge.quality_count c) t e k a d r =
    add64-Same _ _ _
      (ap (counter c) d.quality ∙ counter-add_quality c t.sums.quality (final_quality e))

-- A row adds its share to each total that takes it in.
pub quantity-add_row :
    (q : Quantity) (t : Totals) (e : Entry) (k : Bool) {u : Totals}
    → HasRoom q (quantity q t)
    → add_row t e k ≡ ok u
    → Same (is_exact q) (quantity q u) (quantity q t + share q e k)
unfolding add_row
quantity-add_row q t e k r h =
    let (a, ha, h1) = >>=-eq-ok (add_entry t.sums e) _ h in
    subst (λ u. Same (is_exact q) (quantity q u) (quantity q t + share q e k)) (ok-injective h1)
      (made_share q t e k a (add_entry-Added t.sums e a ha) r)

-- The share of a row in the totals of a period: nothing in the other one.
unfoldable pub side_share : Side → Quantity → Side → Entry → Bool → ℕ
side_share before q before e k = share q e k
side_share after q after e k = share q e k
side_share s q t e k = 0

pub wraps-side_share :
    (s : Side) (q : Quantity) (side : Side) (e : Entry) (k : Bool)
    → wraps q ≡ true
    → side_share s q side e k ≤ 1
unfolding side_share
wraps-side_share before q before e k w = wraps_share q e k w
wraps-side_share after q after e k w = wraps_share q e k w
wraps-side_share before q after e k w = omega arith
wraps-side_share after q before e k w = omega arith

pub of_pair-add_pair :
    (s : Side) (q : Quantity) (p : Pair) (side : Side) (e : Entry) (k : Bool) {u : Pair}
    → HasRoom q (of_pair s q p)
    → add_pair p side e k ≡ ok u
    → Same (is_exact q) (of_pair s q u) (of_pair s q p + side_share s q side e k)
unfolding add_pair side_share
of_pair-add_pair before q p before e k r h =
    let (t, ht, h1) = >>=-eq-ok (add_row p.in_before e k) _ h in
    subst
      (λ u.
        Same (is_exact q) (of_pair before q u)
          (of_pair before q p + side_share before q before e k))
      (ok-injective h1) (quantity-add_row q p.in_before e k r ht)
of_pair-add_pair before q p after e k r h =
    let (t, ht, h1) = >>=-eq-ok (add_row p.in_after e k) _ h in
    Same-eq (sym (ap (of_pair before q) (ok-injective h1)) ∙ omega arith)
of_pair-add_pair after q p before e k r h =
    let (t, ht, h1) = >>=-eq-ok (add_row p.in_before e k) _ h in
    Same-eq (sym (ap (of_pair after q) (ok-injective h1)) ∙ omega arith)
of_pair-add_pair after q p after e k r h =
    let (t, ht, h1) = >>=-eq-ok (add_row p.in_after e k) _ h in
    subst
      (λ u.
        Same (is_exact q) (of_pair after q u) (of_pair after q p + side_share after q after e k))
      (ok-injective h1) (quantity-add_row q p.in_after e k r ht)

pub of_pair-new : (s : Side) (q : Quantity) → of_pair s q new_pair ≡ 0
unfolding new_pair
of_pair-new before q = quantity-new_totals q
of_pair-new after q = quantity-new_totals q

-- What could wrap is exact.
pub wraps-is_exact : (q : Quantity) → wraps q ≡ true → is_exact q ≡ true
wraps-is_exact (Merge.metric_count k) w = cc
wraps-is_exact (Merge.quality_count c) w = cc
wraps-is_exact Merge.requests w = refl
wraps-is_exact _ w = refl

pub less_room : (q : Quantity) (m n : ℕ) → (wraps q ≡ true → m ≤ n) → HasRoom q n → HasRoom q m
less_room q m n le r w = omega (arith, r w, le w)
