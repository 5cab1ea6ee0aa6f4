-- ===== src/Spend/Replay/Split.antt =====
-- internal/spend/reprice.go: the components that a row is read with are disjoint parts of its input, which is what
-- internal/reprice/calculate.go asks of them.
use fleetdiff.Base.{
  ℕ, ◌≤◌, ◌<◌, ◌≡◌, refl, subst, Bool, false, Option, none, some, if◌then◌else◌, sub64-eq, word, ok,
  >>=-eq-ok, ok-injective, arith, Bool-cases, inl, inr,
}
use fleetdiff.Text.{Text, is_empty}
use fleetdiff.Accounting.Names.{input, cache_read_input}
use fleetdiff.Accounting.Tokens.{Observation, tokens}
use fleetdiff.Accounting.Tokens.Sound.{IsSound, tokens-IsSound}
use fleetdiff.Spend.Row.{Row, value, end_time}
use fleetdiff.Spend.Usage.{attributes}
use fleetdiff.Spend.Usage.Recorded.{attributes-AreInt64}
use fleetdiff.Spend.Cache.{valid_cache_field}
use fleetdiff.Spend.Cache.Covered.{read-Within}
use fleetdiff.Spend.Period.{Period}
use fleetdiff.Reprice.Add.{Record, bad_partition}
use fleetdiff.Spend.Replay.{
  with_usage, usage_record, split_part, checked_split, overfull, check_end,
}

-- Components that are in order: no read part exceeds a bounded input.
IsWithin : Option ℕ → Option ℕ → Type 0
IsWithin (some i) (some n) = (n ≤ i) × (i < word)
IsWithin _ _ = Unit

in_order-partition :
    (i n w : Option ℕ) → IsWithin i n → overfull i n w ≡ false → bad_partition i n w ≡ false
unfolding overfull bad_partition IsWithin
in_order-partition none n w h e = refl
in_order-partition (some i) none w h e = refl
in_order-partition (some i) (some n) none h e = refl
in_order-partition (some i) (some n) (some w) h e = ground (arith, e, h.0, sub64-eq i n h.0 h.1)

no_parts : (i : Option ℕ) → bad_partition i none none ≡ false
unfolding bad_partition
no_parts none = refl
no_parts (some i) = refl

checked_split_lem :
    (v : Record)
    → IsWithin v.input v.cache_read
    → bad_partition
        (checked_split v).input
        (checked_split v).cache_read
        (checked_split v).cache_write
      ≡ false
unfolding checked_split
checked_split_lem v h = elim (Bool-cases (overfull v.input v.cache_read v.cache_write)) [
  | inl e ↦ rw e (no_parts v.input)
  | inr e ↦ rw e (in_order-partition v.input v.cache_read v.cache_write h e)
]

split_part-IsWithin :
    (o : Observation) → IsSound o → IsWithin (split_part o input) (split_part o cache_read_input)
unfolding split_part IsWithin
split_part-IsWithin o h = elim (Bool-cases (valid_cache_field o input)) [
  | inl a ↦ elim (Bool-cases (valid_cache_field o cache_read_input)) [
    | inl b ↦ let (x, y) = read-Within o h a b in rw a (rw b (x, omega (arith, y)))
    | inr b ↦ rw a (rw b tt)
  ]
  | inr a ↦ rw a tt
]

module _ (catalog : Text → Option Text) (digest : Text → ℕ) (time : Text → Option ℕ) (p : Period)
    (now : ℕ) (routing : Bool) where
  -- The components that a row is read with never overfill its input, whatever the row holds: the repricing finds no
  -- invalid partition in them.
  pub usage_record-partition :
      (r : Row) (start : ℕ) {v : Record × Bool}
      → usage_record catalog digest time p now routing r start ≡ ok v
      → bad_partition v.0.input v.0.cache_read v.0.cache_write ≡ false
  unfolding usage_record with_usage
  usage_record-partition r start h =
      let (_, _, h1) =
        >>=-eq-ok
          (if is_empty (value r end_time)
            then ok tt
            else check_end start now (time (value r end_time)))
          _ h in
      let (o, ho, h2) = >>=-eq-ok (tokens (attributes r)) _ h1 in
      subst (λ (v : Record × Bool). bad_partition v.0.input v.0.cache_read v.0.cache_write ≡ false)
        (ok-injective h2)
        (checked_split_lem _
          (split_part-IsWithin o (tokens-IsSound (attributes r) (attributes-AreInt64 r) ho)))
