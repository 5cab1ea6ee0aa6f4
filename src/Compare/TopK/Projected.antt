-- ===== src/Compare/TopK/Projected.antt =====
-- internal/compare/topk.go: the measurements that `projectTopK` leaves.
use fleetdiff.Base.{
  ℕ, suc, ◌≡◌, ◌<◌, refl, sym, ap, ◌∙◌, subst, ◌⊎◌, Bool, true, false, not, Option, none, some,
  List, [], ◌∷◌, ◌++◌, Bool-cases, inl, inr, arith, sum_by, All, keep, map, length, Result, ok,
  >>=-eq-ok, ok-injective, fold_ok,
}
use fleetdiff.Text.{Text, text_eq, text_eq-eq}
use fleetdiff.Compare.Envelope.{Payload, Envelope, look_up, is_present}
use fleetdiff.Compare.TopK.{
  is_top_k, marker_measurement, count_present, is_dropped, keeps_marker, project, project_top_k,
  check_snapshots,
}
use fleetdiff.Compare.TopK.Contracted.{marks, names_it}

module _ (drop_it : Text → Bool) (name : Text) where
  look_up-keep_kept :
      (m : List (Text × Payload))
      → drop_it name ≡ false
      → look_up (keep (λ s. not (drop_it s.0)) m) name ≡ look_up m name
  unfolding look_up
  look_up-keep_kept [] h = refl
  look_up-keep_kept ((n, v) ∷ m) h = elim (Bool-cases (text_eq n name)) [
    | inl e ↦
        let q : drop_it n ≡ false = subst (λ z. drop_it z ≡ false) (sym (text_eq-eq n name e)) h in
        rw (q, e) refl
    | inr e ↦ elim (Bool-cases (drop_it n)) [
      | inl d ↦ rw (d, e) (look_up-keep_kept m h)
      | inr d ↦ rw (d, e) (look_up-keep_kept m h)
    ]
  ]

  look_up-keep_dropped :
      (m : List (Text × Payload))
      → drop_it name ≡ true
      → look_up (keep (λ s. not (drop_it s.0)) m) name ≡ none
  unfolding look_up
  look_up-keep_dropped [] h = refl
  look_up-keep_dropped ((n, v) ∷ m) h = elim (Bool-cases (drop_it n)) [
    | inl d ↦ rw d (look_up-keep_dropped m h)
    | inr d ↦ elim (Bool-cases (text_eq n name)) [
      | inl e ↦
          let q : drop_it n ≡ true = subst (λ z. drop_it z ≡ true) (sym (text_eq-eq n name e)) h in
          cc
      | inr e ↦ rw (d, e) (look_up-keep_dropped m h)
    ]
  ]

module _ (all : List Envelope) (name : Text) where
  count_present-kept :
      (es : List Envelope)
      → is_dropped all name ≡ false
      → count_present name (map (project all) es) ≡ count_present name es
  unfolding count_present project
  count_present-kept [] h = refl
  count_present-kept (e ∷ es) h =
      rw (look_up-keep_kept (is_dropped all) name e.sketches h, count_present-kept es h) refl

  count_present-dropped :
      (es : List Envelope)
      → is_dropped all name ≡ true
      → count_present name (map (project all) es) ≡ 0
  unfolding count_present project is_present
  count_present-dropped [] h = refl
  count_present-dropped (e ∷ es) h =
      rw (look_up-keep_dropped (is_dropped all) name e.sketches h) (count_present-dropped es h)

  unnamed :
      (o : Option Text)
      → keeps_marker all o ≡ true
      → is_dropped all name ≡ true
      → names_it name o ≡ 0
  unfolding keeps_marker names_it
  unnamed none h d = refl
  unnamed (some m) h d = elim (Bool-cases (text_eq name m)) [
    | inl e ↦
        let q : is_dropped all m ≡ true =
          subst (λ z. is_dropped all z ≡ true) (text_eq-eq name m e) d in
        cc
    | inr e ↦ rw e refl
  ]

  marks-dropped :
      (cs : List (Text × ℕ))
      → is_dropped all name ≡ true
      → sum_by (marks name) (keep (λ c. keeps_marker all (marker_measurement c.0)) cs) ≡ 0
  unfolding marks
  marks-dropped [] h = refl
  marks-dropped ((n, v) ∷ cs) h = elim (Bool-cases (keeps_marker all (marker_measurement n))) [
    | inl k ↦ rw k (omega (arith, unnamed (marker_measurement n) k h, marks-dropped cs h))
    | inr k ↦ rw k (marks-dropped cs h)
  ]

  unmarked_all :
      (es : List Envelope)
      → is_dropped all name ≡ true
      → All (λ e. sum_by (marks name) e.counters ≡ 0) (map (project all) es)
  unfolding project
  unmarked_all [] h = tt
  unmarked_all (e ∷ es) h = (marks-dropped e.counters h, unmarked_all es h)

-- A name that is no known measurement, or one that is in none or in all of the snapshots.
abbrev pub IsKept : List Envelope → Text → Type 0
IsKept all name =
    (is_top_k name ≡ false) ⊎ (count_present name all ≡ 0) ⊎ (count_present name all ≡ length all)

kept_lem : (all : List Envelope) (name : Text) → IsKept all name → is_dropped all name ≡ false
unfolding is_dropped
kept_lem all name h = ground (arith, h)

dropped_lem :
    (all : List Envelope) (name : Text)
    → is_top_k name ≡ true
    → 0 < count_present name all
    → count_present name all < length all
    → is_dropped all name ≡ true
unfolding is_dropped
dropped_lem all name h p q = ground (arith, h, p, q)

-- What the projection of a batch of snapshots leaves of one name.
pub record IsProjected (all projected : List Envelope) (name : Text) : Type 0 where
  pub known :
      is_top_k name ≡ true
      → (count_present name projected ≡ 0) ⊎ (count_present name projected ≡ length projected)
  pub kept : IsKept all name → count_present name projected ≡ count_present name all
  pub dropped :
      is_top_k name ≡ true
      → 0 < count_present name all
      → count_present name all < length all
      → (count_present name projected ≡ 0) × All (λ e. sum_by (marks name) e.counters ≡ 0) projected

length-map : (f : Envelope → Envelope) (es : List Envelope) → length (map f es) ≡ length es
length-map f [] = refl
length-map f (e ∷ es) = ap suc (length-map f es)

map-append :
    (f : Envelope → Envelope) (xs ys : List Envelope) → map f (xs ++ ys) ≡ map f xs ++ map f ys
map-append f [] ys = refl
map-append f (x ∷ xs) ys = ap (◌∷◌ (f x)) (map-append f xs ys)

in_all_or_none :
    (all : List Envelope) (name : Text)
    → is_top_k name ≡ true
    → is_dropped all name ≡ false
    → (count_present name all ≡ 0) ⊎ (count_present name all ≡ length all)
unfolding is_dropped
in_all_or_none all name t d = ground (arith, t, d)

map_project-IsProjected :
    (all : List Envelope) (name : Text) → IsProjected all (map (project all) all) name
map_project-IsProjected all name = record {
  known = λ t. elim (Bool-cases (is_dropped all name)) [
    | inl d ↦ inl (count_present-dropped all name all d)
    | inr d ↦ elim (in_all_or_none all name t d) [
      | inl z ↦ inl (count_present-kept all name all d ∙ z)
      | inr z ↦ inr (count_present-kept all name all d ∙ z ∙ sym (length-map (project all) all))
    ]
  ];
  kept = λ k. count_present-kept all name all (kept_lem all name k);
  dropped = λ t p q.
      let d = dropped_lem all name t p q in
      (count_present-dropped all name all d, unmarked_all all name all d);
}

-- After the projection of two windows, every known measurement is in all snapshots of both or in none; one that was in
-- some of them only is in none and has no marker left; and one that was in all or in none, or a name that is no known
-- measurement, is in as many as before.
pub project_top_k-IsProjected :
    (compatible : Envelope → Envelope → Result (Unit {0})) (first : Envelope)
    (before after : List Envelope) (name : Text) {r : List Envelope × List Envelope × List Text}
    → project_top_k compatible first before after ≡ ok r
    → IsProjected (before ++ after) (r.0 ++ r.1) name
unfolding project_top_k
project_top_k-IsProjected compatible first before after name h =
    let all = before ++ after in
    let (contracts, p, q) =
      >>=-eq-ok (fold_ok (check_snapshots compatible first) [] (before ++ after)) _ h in
    subst (λ r. IsProjected all (r.0 ++ r.1) name) (ok-injective q)
      (subst (λ es. IsProjected all es name) (map-append (project all) before after)
        (map_project-IsProjected all name))
