-- ===== src/Compare/TopK/Contracted.antt =====
-- internal/compare/topk.go: what `validateTopK` establishes.
use fleetdiff.Base.{
  ℕ, ◌+◌, ◌≡◌, refl, sym, ap, ◌∙◌, subst, Bool, true, false, ◌&&◌, ◌||◌, not, Option, none, some,
  List, [], ◌∷◌, ◌==◌, ==_iff, if-cases, Bool-cases, inl, inr, arith, flag, sum_by, All, ok,
  >>=-eq-ok, ok-injective, err-ne-ok, fold_ok,
}
use fleetdiff.Text.{Text, codes, text_eq, text_eq-eq, one_of}
use fleetdiff.Compare.Envelope.{Payload, Envelope, look_up, is_present}
use fleetdiff.Compare.TopK.{
  marker_prefix, strip_prefix, is_top_k, after_prefix, marker_measurement, is_marker, add_marker,
  check_counter, check_sketch, validate_top_k,
}

unfoldable pub names_it : Text → Option Text → ℕ
names_it m none = 0
names_it m (some k) = flag (text_eq m k)

-- 1 for a marker of the measurement.
unfoldable pub marks : Text → Text × ℕ → ℕ
unfolding names_it
marks m (name, n) = names_it m (marker_measurement name)

-- A marker counts nothing, and its measurement has a sketch.
pub record IsMarkerOf (sketches : List (Text × Payload)) (c : Text × ℕ) : Type 0 where
  pub measurement : Text
  pub read : marker_measurement c.0 ≡ some measurement
  pub nothing : c.1 ≡ 0
  pub present : is_present (look_up sketches measurement) ≡ true

unmarked : (name : Text) → is_marker name ≡ false → marker_measurement name ≡ none
unfolding is_marker marker_measurement
unmarked name h = at (strip_prefix marker_prefix name) h
  where
    at : (o : Option Text) → is_present o ≡ false → after_prefix o ≡ none
    at none h = refl
    at (some r) h = cc

clear : (a b c : Bool) → (not a || b || not c) ≡ false → (a ≡ true) × (b ≡ false) × (c ≡ true)
clear true false true h = (refl, refl, refl)
clear true false false h = cc
clear true true c h = cc
clear false b c h = cc

record IsChecked (sketches : List (Text × Payload)) (markers : List Text) (c : Text × ℕ)
    (ns : List Text) : Type 0 where
  grows : (m : Text) → flag (one_of m ns) ≡ flag (one_of m markers) + marks m c
  marker : is_marker c.0 ≡ true → IsMarkerOf sketches c

-- A measurement that is new among the markers.
one_more :
    (m k : Text) (markers : List Text)
    → one_of k markers ≡ false
    → flag (one_of m (k ∷ markers)) ≡ flag (one_of m markers) + flag (text_eq m k)
unfolding one_of
one_more m k markers h = elim (Bool-cases (text_eq m k)) [
  | inl e ↦
      let q : one_of m markers ≡ false =
        subst (λ z. one_of z markers ≡ false) (sym (text_eq-eq m k e)) h in
      rw (e, q) (omega arith)
  | inr e ↦ rw e (omega arith)
]

module _ (sketches : List (Text × Payload)) where
  add_marker-IsChecked :
      (markers : List Text) (name : Text) (n : ℕ) (o : Option Text) {ns : List Text}
      → marker_measurement name ≡ o
      → add_marker sketches markers n o ≡ ok ns
      → IsChecked sketches markers (name, n) ns
  unfolding add_marker marks
  add_marker-IsChecked markers name n none e h = err-ne-ok h
  add_marker-IsChecked markers name n (some k) e h =
      if-cases (not (n == 0) || one_of k markers || not (is_present (look_up sketches k))) _ _
        (λ f g. err-ne-ok g)
        (λ f g.
          let (zero_count, fresh, present) =
            clear (n == 0) (one_of k markers) (is_present (look_up sketches k)) f in
          subst (IsChecked sketches markers (name, n)) (ok-injective g) (record {
            grows = λ m.
                one_more m k markers fresh
                ∙ ap (λ o. flag (one_of m markers) + names_it m o) (sym e);
            marker = λ x. record {
              measurement = k;
              read = e;
              nothing = (==_iff n 0).0 zero_count;
              present = present;
            };
          }))
        h

  -- One counter: the markers grow by what it marks.
  check_counter-IsChecked :
      (markers : List Text) (c : Text × ℕ) {ns : List Text}
      → check_counter sketches markers c ≡ ok ns
      → IsChecked sketches markers c ns
  unfolding check_counter marks
  check_counter-IsChecked markers (name, n) h =
      if-cases (is_marker name) _ _
        (λ e g. add_marker-IsChecked markers name n (marker_measurement name) refl g)
        (λ e g. subst (IsChecked sketches markers (name, n)) (ok-injective g) (record {
          grows = λ m.
              let q : names_it m (marker_measurement name) ≡ 0 =
                ap (names_it m) (unmarked name e) in
              omega arith;
          marker = λ f. cc;
        }))
        h

  check_counters_lem :
      (markers : List Text) (cs : List (Text × ℕ)) {ns : List Text}
      → fold_ok (check_counter sketches) markers cs ≡ ok ns
      → ((m : Text) → flag (one_of m ns) ≡ flag (one_of m markers) + sum_by (marks m) cs)
        × All (λ c. is_marker c.0 ≡ true → IsMarkerOf sketches c) cs
  check_counters_lem markers [] h =
      ((λ m. let q = ap (λ ns. flag (one_of m ns)) (ok-injective h) in omega arith), tt)
  check_counters_lem markers (c ∷ cs) h =
      let (ms, p, q) = >>=-eq-ok (check_counter sketches markers c) _ h in
      let one = check_counter-IsChecked markers c p in
      let (grow, all) = check_counters_lem ms cs q in
      ((λ m. omega (arith, one.grows m, grow m)), (one.marker, all))

-- A known measurement is a sketch of frequent items and has exactly one marker, which is not asked of the oldest one.
pub record IsMeasured (counters : List (Text × ℕ)) (s : Text × Payload) : Type 0 where
  pub kind : text_eq s.1.kind (codes "frequent_items") ≡ true
  pub marked : text_eq s.0 (codes "top_prompts") ≡ false → sum_by (marks s.0) counters ≡ 1

pub record IsContracted (e : Envelope) : Type 0 where
  pub markers : All (λ c. is_marker c.0 ≡ true → IsMarkerOf e.sketches c) e.counters
  pub measurements : All (λ s. is_top_k s.0 ≡ true → IsMeasured e.counters s) e.sketches

module _ (counters : List (Text × ℕ)) (markers : List Text)
    (all : (m : Text) → flag (one_of m markers) ≡ sum_by (marks m) counters) where
  check_sketch-IsMeasured :
      (s : Text × Payload)
      → check_sketch markers tt s ≡ ok tt
      → is_top_k s.0 ≡ true
      → IsMeasured counters s
  unfolding check_sketch
  check_sketch-IsMeasured (name, p) h e =
      if-cases (not (is_top_k name)) _ _ (λ f g. cc)
        (λ f g.
          if-cases (not (text_eq p.kind (codes "frequent_items"))) _ _ (λ k x. err-ne-ok x)
            (λ k x.
              if-cases (not (text_eq name (codes "top_prompts")) && not (one_of name markers)) _ _
                (λ w y. err-ne-ok y)
                (λ w y. record {
                  kind = ground (arith, k);
                  marked = λ z.
                      let q : one_of name markers ≡ true = ground (arith, w, z) in
                      sym (all name) ∙ ap flag q;
                })
                x)
            g)
        h

  check_sketches_lem :
      (ss : List (Text × Payload))
      → fold_ok (check_sketch markers) tt ss ≡ ok tt
      → All (λ s. is_top_k s.0 ≡ true → IsMeasured counters s) ss
  check_sketches_lem [] h = tt
  check_sketches_lem (s ∷ ss) h =
      let (u, p, q) = >>=-eq-ok (check_sketch markers tt s) _ h in
      (check_sketch-IsMeasured s p, check_sketches_lem ss q)

-- A snapshot that `validateTopK` accepts: every marker is spelled as one, counts nothing and has its sketch; and every
-- known measurement is a sketch of frequent items that, but for `top_prompts`, has exactly one marker.
pub validate_top_k-IsContracted : (e : Envelope) → validate_top_k e ≡ ok tt → IsContracted e
unfolding validate_top_k one_of
validate_top_k-IsContracted e h =
    let (markers, p, q) = >>=-eq-ok (fold_ok (check_counter e.sketches) [] e.counters) _ h in
    let (all, sound) = check_counters_lem e.sketches [] e.counters p in
    record {
      markers = sound;
      measurements = check_sketches_lem e.counters markers (λ m. omega (arith, all m)) e.sketches q;
    }
