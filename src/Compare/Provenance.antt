-- ===== src/Compare/Provenance.antt =====
-- internal/compare/provenance.go: the optional counters of where usage counts come from. `Validate` of an envelope is
-- an argument.
use fleetdiff.Base.{
  ℕ, ◌-◌, ◌≡◌, refl, sym, ◌∙◌, subst, Bool, true, false, ◌||◌, Option, none, some, List, [], ◌∷◌,
  ◌++◌, ltb, if◌then◌else◌, if-cases, Bool-cases, inl, inr, length, Result, ok, err, ◌>>=◌,
  >>=-eq-ok, ok-injective, err-ne-ok, batch_size, size_limit,
}
use fleetdiff.Text.{Text, codes, text_eq, text_eq-eq}
use fleetdiff.Compare.Envelope.{Payload, Envelope, look_up, is_present}
use fleetdiff.Compare.TopK.{strip_prefix}

abbrev pub max_files : ℕ
max_files = 512

abbrev pub max_input_bytes : ℕ
max_input_bytes = 33554432

unfoldable pub any_prefixed : Text → List (Text × ℕ) → Bool
unfolding is_present strip_prefix
any_prefixed p [] = false
any_prefixed p ((n, v) ∷ cs) = is_present (strip_prefix p n) || any_prefixed p cs

-- `hasUsageProvenance`
unfoldable pub has_usage_provenance : List Envelope → Bool
unfolding any_prefixed
has_usage_provenance [] = false
has_usage_provenance (e ∷ es) =
    any_prefixed (codes "usage_provenance.v1.") e.counters || has_usage_provenance es

provenance_key : Text → Text → Text
provenance_key field source = codes "usage_provenance.v1." ++ field ++ b'.' ∷ source

abbrev provenance_counters : Text → ℕ → List (Text × ℕ)
provenance_counters field n =
    (provenance_key field (codes "provider_reported"), 0)
    ∷ (provenance_key field (codes "inferred"), 0)
    ∷ (provenance_key field (codes "unavailable"), 0)
    ∷ (provenance_key field (codes "unknown"), n)
    ∷ []

unfoldable pub or_zero : Option ℕ → ℕ
or_zero none = 0
or_zero (some n) = n

abbrev declared : Envelope → Bool
declared e = any_prefixed (codes "usage_provenance.") e.counters

-- A snapshot that declares nothing gets the counters, with all its requests of unknown origin. None of these names is
-- present before, so that they come last.
unfoldable pub with_provenance : Envelope → Envelope
unfolding any_prefixed provenance_key or_zero look_up
with_provenance e = if declared e then e else record e {
  counters =
      e.counters
      ++ (provenance_counters (codes "input") (or_zero (look_up e.counters (codes "requests")))
          ++ provenance_counters (codes "output")
              (or_zero (look_up e.counters (codes "requests"))));
}

-- What is left of the bytes that sketches may take.
unfoldable pub take_bytes : ℕ → List (Text × Payload) → Result ℕ
take_bytes left [] = ok left
take_bytes left ((n, p) ∷ ss) =
    let rest = take_bytes (left - length p.data_bytes) ss in
    if ltb left (length p.data_bytes) then err size_limit else rest

module _ (validate : Envelope → Result (Unit {0})) where
  provenance_loop : ℕ → List Envelope → Result (List Envelope)
  unfolding take_bytes with_provenance
  provenance_loop left [] = ok []
  provenance_loop left (e ∷ es) = take_bytes left e.sketches >>= λ n.
      validate e >>= λ _. provenance_loop n es >>= λ rest. ok (with_provenance e ∷ rest)

  -- `withUsageProvenance`
  unfoldable pub with_usage_provenance : List Envelope → Result (List Envelope)
  unfolding provenance_loop
  with_usage_provenance es =
      if ltb max_files (length es) then err batch_size else provenance_loop max_input_bytes es

-- The name of the counter of an origin, written out.
abbrev pub origin_name : Text → Text → Text
origin_name field source = codes "usage_provenance.v1." ++ field ++ codes "." ++ source

any_prefixed-append :
    (p : Text) (xs ys : List (Text × ℕ))
    → any_prefixed p ys ≡ true
    → any_prefixed p (xs ++ ys) ≡ true
unfolding any_prefixed
any_prefixed-append p [] ys h = h
any_prefixed-append p ((n, v) ∷ xs) ys h = elim (Bool-cases (is_present (strip_prefix p n))) [
  | inl e ↦ rw e refl
  | inr e ↦ rw e (any_prefixed-append p xs ys h)
]

-- Every snapshot declares its origins in the end.
with_provenance-declared : (e : Envelope) → declared (with_provenance e) ≡ true
unfolding with_provenance
with_provenance-declared e = elim (Bool-cases (declared e)) [
  | inl d ↦ rw d d
  | inr d ↦ rw d (
      any_prefixed-append (codes "usage_provenance.") e.counters
        (provenance_counters (codes "input") (or_zero (look_up e.counters (codes "requests")))
          ++ provenance_counters (codes "output") (or_zero (look_up e.counters (codes "requests"))))
        refl)
]

declared_settled : (e : Envelope) → declared e ≡ true → with_provenance e ≡ e
unfolding with_provenance
declared_settled e h = rw h refl

-- What the snapshots keep: counters that they had read as before.
look_up-append :
    (m w : List (Text × ℕ)) (name : Text)
    → is_present (look_up m name) ≡ true
    → look_up (m ++ w) name ≡ look_up m name
unfolding look_up is_present
look_up-append [] w name h = cc
look_up-append ((n, v) ∷ m) w name h = elim (Bool-cases (text_eq n name)) [
  | inl e ↦ rw e refl
  | inr e ↦ rw e (look_up-append m w name (rw e at h))
]

-- Beyond names with a prefix, a name with it is read from what is appended.
look_up-append_none :
    (p : Text) (m w : List (Text × ℕ)) (name : Text)
    → any_prefixed p m ≡ false
    → is_present (strip_prefix p name) ≡ true
    → look_up (m ++ w) name ≡ look_up w name
unfolding look_up any_prefixed
look_up-append_none p [] w name h k = refl
look_up-append_none p ((n, v) ∷ m) w name h k = elim (Bool-cases (is_present (strip_prefix p n))) [
  | inl a ↦ let q : true ≡ false = rw a at h in cc
  | inr a ↦ elim (Bool-cases (text_eq n name)) [
    | inl e ↦
        let q : is_present (strip_prefix p name) ≡ false =
          subst (λ z. is_present (strip_prefix p z) ≡ false) (text_eq-eq n name e) a in
        cc
    | inr e ↦ rw e (look_up-append_none p m w name (rw a at h) k)
  ]
]

-- The origins of a field: all requests are unknown, and none is reported, inferred or unavailable.
pub record IsUnknown (field : Text) (requests : ℕ) (counters : List (Text × ℕ)) : Type 0 where
  pub reported : look_up counters (origin_name field (codes "provider_reported")) ≡ some 0
  pub inferred : look_up counters (origin_name field (codes "inferred")) ≡ some 0
  pub unavailable : look_up counters (origin_name field (codes "unavailable")) ≡ some 0
  pub unknown : look_up counters (origin_name field (codes "unknown")) ≡ some requests

appended-IsUnknown :
    (m : List (Text × ℕ)) (n : ℕ)
    → any_prefixed (codes "usage_provenance.") m ≡ false
    → IsUnknown
        (codes "input")
        n
        (m ++ (provenance_counters (codes "input") n ++ provenance_counters (codes "output") n))
      × IsUnknown
          (codes "output")
          n
          (m ++ (provenance_counters (codes "input") n ++ provenance_counters (codes "output") n))
unfolding look_up text_eq provenance_key is_present strip_prefix any_prefixed
appended-IsUnknown m n h =
    let skip =
      λ (name : Text) (k : is_present (strip_prefix (codes "usage_provenance.") name) ≡ true).
        look_up-append_none (codes "usage_provenance.") m
          (provenance_counters (codes "input") n ++ provenance_counters (codes "output") n) name h
          k in
    (
      record {
        reported = skip (origin_name (codes "input") (codes "provider_reported")) refl ∙ refl;
        inferred = skip (origin_name (codes "input") (codes "inferred")) refl ∙ refl;
        unavailable = skip (origin_name (codes "input") (codes "unavailable")) refl ∙ refl;
        unknown = skip (origin_name (codes "input") (codes "unknown")) refl ∙ refl;
      },
      record {
        reported = skip (origin_name (codes "output") (codes "provider_reported")) refl ∙ refl;
        inferred = skip (origin_name (codes "output") (codes "inferred")) refl ∙ refl;
        unavailable = skip (origin_name (codes "output") (codes "unavailable")) refl ∙ refl;
        unknown = skip (origin_name (codes "output") (codes "unknown")) refl ∙ refl;
      },
    )

-- A snapshot that declares its origins is left alone; any other gets the declaration that the origins of all its requests
-- are unknown.
pub record IsDeclared (e r : Envelope) : Type 0 where
  pub unchanged : any_prefixed (codes "usage_provenance.") e.counters ≡ true → r ≡ e
  pub of_input :
      any_prefixed (codes "usage_provenance.") e.counters ≡ false
      → IsUnknown (codes "input") (or_zero (look_up e.counters (codes "requests"))) r.counters
  pub of_output :
      any_prefixed (codes "usage_provenance.") e.counters ≡ false
      → IsUnknown (codes "output") (or_zero (look_up e.counters (codes "requests"))) r.counters
  pub declares : declared r ≡ true
  pub settled : with_provenance r ≡ r
  pub kept :
      (name : Text)
      → is_present (look_up e.counters name) ≡ true
      → look_up r.counters name ≡ look_up e.counters name
  pub same_sketches : r.sketches ≡ e.sketches

with_provenance_kept :
    (e : Envelope) (name : Text)
    → is_present (look_up e.counters name) ≡ true
    → look_up (with_provenance e).counters name ≡ look_up e.counters name
unfolding with_provenance
with_provenance_kept e name h = elim (Bool-cases (declared e)) [
  | inl d ↦ rw d refl
  | inr d ↦ rw d (look_up-append e.counters _ name h)
]

with_provenance_sketches : (e : Envelope) → (with_provenance e).sketches ≡ e.sketches
unfolding with_provenance
with_provenance_sketches e = elim (Bool-cases (declared e)) [
  | inl d ↦ rw d refl
  | inr d ↦ rw d refl
]

counters-with_provenance :
    (e : Envelope)
    → declared e ≡ false
    → (with_provenance e).counters
      ≡ e.counters
        ++ (provenance_counters (codes "input") (or_zero (look_up e.counters (codes "requests")))
            ++ provenance_counters
                (codes "output")
                (or_zero (look_up e.counters (codes "requests"))))
unfolding with_provenance
counters-with_provenance e h = rw h refl

with_provenance-IsUnknown :
    (e : Envelope)
    → declared e ≡ false
    → IsUnknown
        (codes "input")
        (or_zero (look_up e.counters (codes "requests")))
        (with_provenance e).counters
      × IsUnknown
          (codes "output")
          (or_zero (look_up e.counters (codes "requests")))
          (with_provenance e).counters
with_provenance-IsUnknown e h =
    let n = or_zero (look_up e.counters (codes "requests")) in
    subst (λ m. IsUnknown (codes "input") n m × IsUnknown (codes "output") n m)
      (sym (counters-with_provenance e h)) (appended-IsUnknown e.counters n h)

with_provenance-IsDeclared : (e : Envelope) → IsDeclared e (with_provenance e)
with_provenance-IsDeclared e = record {
  unchanged = declared_settled e;
  of_input = λ h. (with_provenance-IsUnknown e h).0;
  of_output = λ h. (with_provenance-IsUnknown e h).1;
  declares = with_provenance-declared e;
  settled = declared_settled (with_provenance e) (with_provenance-declared e);
  kept = with_provenance_kept e;
  same_sketches = with_provenance_sketches e;
}

-- Each snapshot beside its successor.
abbrev pub Each : List Envelope → List Envelope → Type 0
Each [] [] = Unit
Each (e ∷ es) (r ∷ rs) = IsDeclared e r × Each es rs
Each es rs = true ≡ false

provenance_loop-Each :
    (validate : Envelope → Result (Unit {0})) (left : ℕ) (es rs : List Envelope)
    → provenance_loop validate left es ≡ ok rs
    → Each es rs
unfolding provenance_loop
provenance_loop-Each validate left [] rs h = subst (Each []) (ok-injective h) tt
provenance_loop-Each validate left (e ∷ es) rs h =
    let (n, p, q) = >>=-eq-ok (take_bytes left e.sketches) _ h in
    let (u, p2, q2) = >>=-eq-ok (validate e) _ q in
    let (rest, p3, q3) = >>=-eq-ok (provenance_loop validate n es) _ q2 in
    subst (Each (e ∷ es)) (ok-injective q3)
      (with_provenance-IsDeclared e, provenance_loop-Each validate n es rest p3)

-- A batch that is normalized has one snapshot for each. One that has a counter of provenance is left alone; any other
-- gets, for input and output, all its requests as unknown, and 0 reported, inferred and unavailable. A second pass leaves
-- each, and each reads every counter as before and has the same sketches.
pub with_usage_provenance-Each :
    (validate : Envelope → Result (Unit {0})) (es rs : List Envelope)
    → with_usage_provenance validate es ≡ ok rs
    → Each es rs
unfolding with_usage_provenance
with_usage_provenance-Each validate es rs h =
    if-cases (ltb max_files (length es)) _ _ (λ c g. err-ne-ok g)
      (λ c g. provenance_loop-Each validate max_input_bytes es rs g) h
