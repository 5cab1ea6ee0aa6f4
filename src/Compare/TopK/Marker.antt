-- ===== src/Compare/TopK/Marker.antt =====
-- internal/compare/topk.go: the markers that `markerMeasurement` reads.
use fleetdiff.Base.{
  ℕ, ◌≡◌, ◌≢◌, refl, sym, ap, subst, Bool, true, false, ◌&&◌, ◌||◌, not, Option, none, some, [],
  ◌∷◌, ◌++◌, ◌==◌, ==_iff, if-cases, arith, length,
}
use fleetdiff.Text.{Text}
use fleetdiff.Compare.TopK.{
  marker_prefix, strip_prefix, or_here, cut_last, is_hex, all_hex, measurement_of, after_prefix,
  marker_measurement,
}

-- The marker of a contract: the measurement and a digest.
unfoldable pub marker_of : Text → Text → Text
marker_of name digest = marker_prefix ++ (name ++ b'.' ∷ digest)

pub record IsDigest (s : Text) : Type 0 where
  pub size : length s ≡ 32
  pub hex : all_hex s ≡ true

and_parts : (a b : Bool) → (a && b) ≡ true → (a ≡ true) × (b ≡ true)
and_parts true b h = (refl, h)
and_parts false b h = cc

hex_no_dot : (c : ℕ) → is_hex c ≡ true → (c == b'.') ≡ false
unfolding is_hex
hex_no_dot c h = ground arith

cut_last-hex : (s : Text) → all_hex s ≡ true → cut_last s ≡ none
unfolding cut_last all_hex or_here
cut_last-hex [] h = refl
cut_last-hex (c ∷ s) h =
    let (a, b) = and_parts (is_hex c) (all_hex s) h in rw (cut_last-hex s b, hex_no_dot c a) refl

cut_last-append :
    (name digest : Text)
    → all_hex digest ≡ true
    → cut_last (name ++ b'.' ∷ digest) ≡ some (name, digest)
unfolding cut_last or_here
cut_last-append [] digest h = rw (cut_last-hex digest h) refl
cut_last-append (c ∷ name) digest h = rw (cut_last-append name digest h) refl

strip_prefix-append : (p s : Text) → strip_prefix p (p ++ s) ≡ some s
unfolding strip_prefix
strip_prefix-append [] s = refl
strip_prefix-append (c ∷ p) s = rw ((==_iff c c).1 refl) (strip_prefix-append p s)

-- The marker of a named measurement is read as that measurement.
pub marker_measurement-marker_of :
    (c : ℕ) (name digest : Text)
    → IsDigest digest
    → marker_measurement (marker_of (c ∷ name) digest) ≡ some (c ∷ name)
unfolding marker_measurement marker_of after_prefix measurement_of
marker_measurement-marker_of c name digest d =
    rw (cut_last-append (c ∷ name) digest d.hex, d.size, d.hex) refl

some-injective {ℓ} : {A : Type ℓ} {a b : A} → some a ≡ some b → a ≡ b
some-injective {a} e = ap (λ o. elim o [ none ↦ a | some x ↦ x ]) e

cut_here :
    (c : ℕ) (s a b : Text) (o : Option (Text × Text))
    → ((x y : Text) → o ≡ some (x, y) → s ≡ x ++ b'.' ∷ y)
    → or_here c s o ≡ some (a, b)
    → c ∷ s ≡ a ++ b'.' ∷ b
unfolding or_here
cut_here c s a b (some (x, y)) k h =
    subst (λ z. c ∷ s ≡ z.0 ++ b'.' ∷ z.1) (some-injective h) (ap (◌∷◌ c) (k x y refl))
cut_here c s a b none k h =
    if-cases (c == b'.') _ _
      (λ f g.
        subst (λ z. c ∷ s ≡ z.0 ++ b'.' ∷ z.1) (some-injective g)
          (ap (λ d. d ∷ s) ((==_iff c b'.').0 f)))
      (λ f g. cc) h

cut_last-eq : (s a b : Text) → cut_last s ≡ some (a, b) → s ≡ a ++ b'.' ∷ b
unfolding cut_last
cut_last-eq [] a b h = cc
cut_last-eq (c ∷ s) a b h = cut_here c s a b (cut_last s) (λ x y. cut_last-eq s x y) h

strip_prefix-eq : (p s r : Text) → strip_prefix p s ≡ some r → s ≡ p ++ r
unfolding strip_prefix
strip_prefix-eq [] s r h = some-injective h
strip_prefix-eq (c ∷ p) [] r h = cc
strip_prefix-eq (c ∷ p) (d ∷ s) r h =
    if-cases (c == d) _ _ (λ e g. let q = strip_prefix-eq p s r g in let f = (==_iff c d).0 e in cc)
      (λ e g. cc) h

-- A name that is read as a measurement is the marker of that measurement with a digest, and the measurement has a name.
pub record IsMarker (name measurement : Text) : Type 0 where
  pub digest : Text
  pub is_digest : IsDigest digest
  pub spelled : name ≡ marker_of measurement digest
  pub named : measurement ≢ []

measurement_of-IsMarker :
    (rest : Text) (o : Option (Text × Text)) (m : Text)
    → cut_last rest ≡ o
    → measurement_of o ≡ some m
    → IsMarker (marker_prefix ++ rest) m
unfolding measurement_of marker_of
measurement_of-IsMarker rest none m e h = cc
measurement_of-IsMarker rest (some ([], b)) m e h = cc
measurement_of-IsMarker rest (some (c ∷ a, b)) m e h =
    if-cases (not (length b == 32) || not (all_hex b)) _ _ (λ f g. cc)
      (λ f g.
        let parts = digest_parts (length b == 32) (all_hex b) f in
        subst (IsMarker (marker_prefix ++ rest)) (some-injective g) (record {
          digest = b;
          is_digest = record { size = (==_iff (length b) 32).0 parts.0; hex = parts.1 };
          spelled = ap (λ s. marker_prefix ++ s) (cut_last-eq rest (c ∷ a) b e);
          named = λ q. cc;
        }))
      h
  where
    digest_parts : (x y : Bool) → (not x || not y) ≡ false → (x ≡ true) × (y ≡ true)
    digest_parts true true f = (refl, refl)
    digest_parts true false f = cc
    digest_parts false y f = cc

after_prefix-IsMarker :
    (name : Text) (o : Option Text) (m : Text)
    → strip_prefix marker_prefix name ≡ o
    → after_prefix o ≡ some m
    → IsMarker name m
unfolding after_prefix
after_prefix-IsMarker name none m e h = cc
after_prefix-IsMarker name (some rest) m e h =
    subst (λ n. IsMarker n m) (sym (strip_prefix-eq marker_prefix name rest e))
      (measurement_of-IsMarker rest (cut_last rest) m refl h)

-- Only a marker is read as a measurement.
pub marker_measurement-IsMarker :
    (name m : Text) → marker_measurement name ≡ some m → IsMarker name m
unfolding marker_measurement
marker_measurement-IsMarker name m h =
    after_prefix-IsMarker name (strip_prefix marker_prefix name) m refl h
