-- ===== src/Reprice/Report/Ordered.antt =====
-- The intervals that internal/reprice/calculate.go reports.
use fleetdiff.Base.{
  ℕ, ◌+◌, ◌*◌, ◌==◌, ◌≤◌, ◌≡◌, refl, subst, ◌&&◌, Option, none, some, List, [], ◌∷◌, ◌++◌, map,
  arith, All, ◌≤ℤ◌, int_laws, if-eq, Bool-cases, inl, inr,
}
use fleetdiff.Text.{Text, text_eq}
use fleetdiff.Reprice.Config.{Price, Factor, rat}
use fleetdiff.Reprice.Calculator.{
  Sums, Bucket, MoveState, Config, State, price, output_cost, bucket_cost, find_factor,
}
use fleetdiff.Reprice.Report.{
  Variant, MoveReport, moved_cost, run_covered, empty_move, empty_moves, WorkloadCost, Triple,
  cost_at, priced, add_triple, add_source, when_found, cost_variant, no_triple, shift, Pass,
  after_variant, pass_variants, Running, run_move, run_moves, run_result, start_total, bucket_list,
  assumed,
}
use fleetdiff.Reprice.Config.Validated.{IsOrderedFactor}

abbrev pub IsOrdered : WorkloadCost → Type 0
IsOrdered t = (t.low ≤ℤ t.mean) × (t.mean ≤ℤ t.high)

abbrev IsOrderedTriple : Triple → Type 0
IsOrderedTriple t = (t.low ≤ t.mean) × (t.mean ≤ t.high)

bucket_cost_mono :
    (t : Sums) (p : Price) (i a b : ℕ) → a ≤ b → bucket_cost t p i a ≤ bucket_cost t p i b
unfolding bucket_cost output_cost
bucket_cost_mono t p i a b h = grind arith

cost_at_mono :
    (c : Config) (m : Text) (i a b : ℕ) (t : Sums) → a ≤ b → cost_at c m i a t ≤ cost_at c m i b t
unfolding cost_at
cost_at_mono c m i a b t h = at (price c m)
  where
    at :
        (p : Option Price)
        → priced p (λ p. bucket_cost t p i a) ≤ priced p (λ p. bucket_cost t p i b)
    at none = omega arith
    at (some p) = bucket_cost_mono t p i a b h

add_triple-IsOrdered :
    (c : Config) (m : MoveState) (f : Factor) (t : Sums) (v : Triple)
    → IsOrderedFactor f
    → IsOrderedTriple v
    → IsOrderedTriple (add_triple c m f t v)
unfolding add_triple
add_triple-IsOrdered c m f t v o h = (
  omega (arith, cost_at_mono c m.move.to m.input (rat f.low) (rat f.output) t o.0),
  omega (arith, cost_at_mono c m.move.to m.input (rat f.output) (rat f.high) t o.1),
)

pub some-injective {ℓ} : {A : Type ℓ} {a b : A} → some a ≡ some b → a ≡ b
some-injective e = cc

find_factor-IsOrdered :
    (fs : List Factor) (from to w : Text) {f : Factor}
    → All IsOrderedFactor fs
    → find_factor fs from to w ≡ some f
    → IsOrderedFactor f
unfolding find_factor
find_factor-IsOrdered [] from to w o h = cc
find_factor-IsOrdered (p ∷ ps) from to w {f} o h =
    if-eq (text_eq p.from from && text_eq p.to to && text_eq p.workload w) (some p) _
      (λ e. subst IsOrderedFactor (some-injective e) o.0) (find_factor-IsOrdered ps from to w o.1) h

shift-IsOrdered :
    (ratio before : ℕ) (t : WorkloadCost) (v : Triple)
    → IsOrdered t
    → IsOrderedTriple v
    → IsOrdered (shift ratio before t v)
unfolding shift
shift-IsOrdered ratio before t v o h =
    let lo : v.low * ratio ≤ v.mean * ratio = grind arith in
    let hi : v.mean * ratio ≤ v.high * ratio = grind arith in (omega int_laws, omega int_laws)

cost_variant-IsOrdered :
    (c : Config) (m : MoveState) (w : Variant) (sources : List Text) (t : Triple)
    (ks : List (Bucket × Sums)) {v : Triple}
    → All IsOrderedFactor c.factors.pairs
    → IsOrderedTriple t
    → (cost_variant c m w sources t ks).1 ≡ some v
    → IsOrderedTriple v
unfolding cost_variant
cost_variant-IsOrdered c m w sources t [] {v} o h e = subst IsOrderedTriple (some-injective e) h
cost_variant-IsOrdered c m w sources t ((b, x) ∷ ks) {v} o h e =
    at (find_factor c.factors.pairs m.move.from m.move.to (assumed b w))
      (λ f p.
        cost_variant-IsOrdered c m w (add_source sources f.source) (add_triple c m f x t) ks o (
          add_triple-IsOrdered c m f x t
            (find_factor-IsOrdered c.factors.pairs m.move.from m.move.to (assumed b w) o p) h))
      refl e
  where
    at :
        (q : Option Factor)
        → ((f : Factor)
            → find_factor c.factors.pairs m.move.from m.move.to (assumed b w) ≡ some f
            → (cost_variant c m w (add_source sources f.source) (add_triple c m f x t) ks).1
              ≡ some v
            → IsOrderedTriple v)
        → find_factor c.factors.pairs m.move.from m.move.to (assumed b w) ≡ q
        → (when_found q sources
            (λ f. cost_variant c m w (add_source sources f.source) (add_triple c m f x t) ks)).1
          ≡ some v
        → IsOrderedTriple v
    at none next p e = cc
    at (some f) next p e = next f p e

moved_cost-IsOrdered :
    (ratio : ℕ) (w : Variant) (v : Triple) → IsOrderedTriple v → IsOrdered (moved_cost ratio w v)
unfolding moved_cost
moved_cost-IsOrdered ratio w v h =
    let lo : v.low * ratio ≤ v.mean * ratio = grind arith in
    let hi : v.mean * ratio ≤ v.high * ratio = grind arith in (omega int_laws, omega int_laws)

-- The running totals and the costs of one move.
abbrev AreOrderedPass : Pass → Type 0
AreOrderedPass p = All IsOrdered p.totals × All IsOrdered p.level2

after_variant-IsOrdered :
    (ratio before : ℕ) (t : WorkloadCost) (o : Option Triple) (rest : Pass)
    → IsOrdered t
    → ((v : Triple) → o ≡ some v → IsOrderedTriple v)
    → AreOrderedPass rest
    → AreOrderedPass (after_variant ratio before t o rest)
unfolding after_variant
after_variant-IsOrdered ratio before t none rest h f r = ((h, r.0), r.1)
after_variant-IsOrdered ratio before t (some v) rest h f r = (
  (shift-IsOrdered ratio before t v h (f v refl), r.0),
  (moved_cost-IsOrdered ratio t.workload v (f v refl), r.1),
)

pass_variants-IsOrdered :
    (c : Config) (m : MoveState) (before : ℕ) (sources : List Text) (ts : List WorkloadCost)
    → All IsOrderedFactor c.factors.pairs
    → All IsOrdered ts
    → AreOrderedPass (pass_variants c m before sources ts)
unfolding pass_variants
pass_variants-IsOrdered c m before sources [] o h = (tt, tt)
pass_variants-IsOrdered c m before sources (t ∷ ts) o h =
    after_variant-IsOrdered m.ratio before t
      (cost_variant c m t.workload sources no_triple (bucket_list m)).1
      (pass_variants c m before (cost_variant c m t.workload sources no_triple (bucket_list m)).0
        ts)
      h.0
      (λ v.
        cost_variant-IsOrdered c m t.workload sources no_triple (bucket_list m) o
          (omega arith, omega arith))
      (pass_variants-IsOrdered c m before
        (cost_variant c m t.workload sources no_triple (bucket_list m)).0 ts o h.1)

-- The intervals of each move.
abbrev pub AreOrderedMoves : List MoveReport → Type 0
AreOrderedMoves = All (λ (m : MoveReport). All IsOrdered m.level2)

All-append :
    (ms : List MoveReport) (m : MoveReport)
    → AreOrderedMoves ms
    → All IsOrdered m.level2
    → AreOrderedMoves (ms ++ m ∷ [])
All-append [] m h k = (k, tt)
All-append (x ∷ ms) m h k = (h.0, All-append ms m h.1 k)

abbrev AreOrderedRun : Running → Type 0
AreOrderedRun s = All IsOrdered s.totals × AreOrderedMoves s.moves

run_moves-IsOrdered :
    (c : Config) (n : ℕ) (ms : List MoveState) (s : Running)
    → All IsOrderedFactor c.factors.pairs
    → AreOrderedRun s
    → AreOrderedRun (run_moves c n ms s)
unfolding run_moves run_move run_covered empty_move
run_moves-IsOrdered c n [] s o h = h
run_moves-IsOrdered c n (m ∷ ms) s o h =
    run_moves-IsOrdered c (n + 1) ms (run_move c n m s) o (elim (Bool-cases (m.covered == 0)) [
      | inl z ↦ rw z (h.0, All-append s.moves _ h.1 tt)
      | inr z ↦
          let p = pass_variants-IsOrdered c m _ [] s.totals o h.0 in
          rw z (p.0, All-append s.moves _ h.1 p.1)
    ])

pub empty_moves-IsOrdered : (n : ℕ) (ms : List MoveState) → AreOrderedMoves (empty_moves n ms)
unfolding empty_moves empty_move
empty_moves-IsOrdered n [] = tt
empty_moves-IsOrdered n (m ∷ ms) = (tt, empty_moves-IsOrdered (n + 1) ms)

start-IsOrdered : (baseline : ℕ) (vs : List Variant) → All IsOrdered (map (start_total baseline) vs)
unfolding start_total
start-IsOrdered baseline [] = tt
start-IsOrdered baseline (v ∷ vs) = ((omega arith, omega arith), start-IsOrdered baseline vs)

pub run_result-IsOrdered :
    (c : Config) (s : State) (vs : List Variant)
    → All IsOrderedFactor c.factors.pairs
    → AreOrderedRun (run_result c s vs)
unfolding run_result
run_result-IsOrdered c s vs o = run_moves-IsOrdered c 1 s.moves _ o (start-IsOrdered _ vs, tt)
