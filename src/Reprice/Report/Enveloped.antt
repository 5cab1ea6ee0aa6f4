-- ===== src/Reprice/Report/Enveloped.antt =====
-- The intervals and the envelope that internal/reprice/calculate.go reports together.
use fleetdiff.Base.{
  ◌*◌, ◌==◌, ◌≡◌, refl, subst, Bool, true, false, none, some, List, [], ◌∷◌, arith, All, ◌≤ℤ◌,
  ltb_ℤ, if◌then◌else◌, Bool-cases, inl, inr,
}
use fleetdiff.Reprice.Config.{one}
use fleetdiff.Reprice.Calculator.{Config, State}
use fleetdiff.Reprice.Report.{
  Report, Variant, WorkloadCost, Envelope, run_result, envelope, envelope_from, widen, min_ℤ, max_ℤ,
  result_of,
}
use fleetdiff.Reprice.Config.Validated.{IsOrderedFactor}
use fleetdiff.Reprice.Report.Ordered.{
  IsOrdered, AreOrderedMoves, some-injective, run_result-IsOrdered, empty_moves-IsOrdered,
}

-- An envelope holds an interval.
abbrev pub Holds : Envelope → WorkloadCost → Type 0
Holds e t = (e.lowest ≤ℤ t.low) × (t.high ≤ℤ e.highest)

record Widens (e d : Envelope) : Type 0 where
  lower : d.lowest ≤ℤ e.lowest
  upper : e.highest ≤ℤ d.highest

widen-Widens : (e : Envelope) (t : WorkloadCost) → Widens e (widen e t) × Holds (widen e t) t
unfolding widen min_ℤ max_ℤ
widen-Widens e t = at (ltb_ℤ t.low e.lowest) (ltb_ℤ e.highest t.high) refl refl
  where
    at :
        (x y : Bool)
        → ltb_ℤ t.low e.lowest ≡ x
        → ltb_ℤ e.highest t.high ≡ y
        → Widens e (record {
          lowest = if x then t.low else e.lowest;
          highest = if y then t.high else e.highest;
        })
          × Holds
              (record {
                lowest = if x then t.low else e.lowest;
                highest = if y then t.high else e.highest;
              })
              t
    at true true p q =
        (record { lower = ground arith; upper = ground arith }, (omega arith, omega arith))
    at true false p q =
        (record { lower = ground arith; upper = omega arith }, (omega arith, ground arith))
    at false true p q =
        (record { lower = omega arith; upper = ground arith }, (ground arith, omega arith))
    at false false p q =
        (record { lower = omega arith; upper = omega arith }, (ground arith, ground arith))

Holds-Widens : (e d : Envelope) (t : WorkloadCost) → Widens e d → Holds e t → Holds d t
Holds-Widens e d t w h = (omega (arith, w.lower, h.0), omega (arith, w.upper, h.1))

envelope_from-Widens : (e : Envelope) (ts : List WorkloadCost) → Widens e (envelope_from e ts)
unfolding envelope_from
envelope_from-Widens e [] = record { lower = omega arith; upper = omega arith }
envelope_from-Widens e (t ∷ ts) =
    let a = (widen-Widens e t).0 in
    let b = envelope_from-Widens (widen e t) ts in
    record { lower = omega (arith, a.lower, b.lower); upper = omega (arith, a.upper, b.upper) }

envelope_from-Holds : (e : Envelope) (ts : List WorkloadCost) → All (Holds (envelope_from e ts)) ts
unfolding envelope_from
envelope_from-Holds e [] = tt
envelope_from-Holds e (t ∷ ts) = (
  Holds-Widens (widen e t) (envelope_from (widen e t) ts) t (envelope_from-Widens (widen e t) ts)
      (widen-Widens e t).1,
  envelope_from-Holds (widen e t) ts,
)

envelope-Holds : (ts : List WorkloadCost) {e : Envelope} → envelope ts ≡ some e → All (Holds e) ts
unfolding envelope
envelope-Holds [] h = cc
envelope-Holds (t ∷ ts) h =
    let first : Envelope = record { lowest = t.low; highest = t.high } in
    subst (λ (e : Envelope). All (Holds e) (t ∷ ts)) (some-injective h)
      (
        Holds-Widens first (envelope_from first ts) t (envelope_from-Widens first ts)
            (omega arith, omega arith),
        envelope_from-Holds first ts,
      )

-- The intervals of a report, and the envelope over them.
pub record AreOrdered (r : Report) : Type 0 where
  pub ordered : All IsOrdered r.level2
  pub held : (e : Envelope) → r.envelope ≡ some e → All (Holds e) r.level2
  pub moved : AreOrderedMoves r.moves

pub result_of-AreOrdered :
    (c : Config) (s : State) (vs : List Variant)
    → All IsOrderedFactor c.factors.pairs
    → AreOrdered (result_of c s vs)
unfolding result_of
result_of-AreOrdered c s vs o = elim (Bool-cases (s.covered == 0)) [
  | inl z ↦
      rw z (record { ordered = tt; held = λ e h. tt; moved = empty_moves-IsOrdered 1 s.moves })
  | inr z ↦ rw z (at (run_result c s vs).complete)
]
  where
    all : All IsOrdered (run_result c s vs).totals × AreOrderedMoves (run_result c s vs).moves
    all = run_result-IsOrdered c s vs o

    at :
        (b : Bool)
        → AreOrdered (record {
          covered = s.covered;
          excluded = s.excluded;
          unmapped_count = s.unmapped_count;
          before = some (s.baseline * one);
          level1 = some (run_result c s vs).level1;
          level2 = if b then (run_result c s vs).totals else [];
          envelope = if b then envelope (run_result c s vs).totals else none;
          moves = (run_result c s vs).moves;
        })
    at true = record {
      ordered = all.0;
      held = λ e h. envelope-Holds (run_result c s vs).totals h;
      moved = all.1;
    }
    at false = record { ordered = tt; held = λ e h. tt; moved = all.1 }
