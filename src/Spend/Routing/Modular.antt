-- ===== src/Spend/Routing/Modular.antt =====
-- Sums of counts of which some wrap: two numbers that are equal, or that are equal modulo 2 ^ 64.
use fleetdiff.Base.{
  ℕ, ◌+◌, ◌*◌, ◌≡◌, refl, sym, ap, Bool, true, List, [], ◌∷◌, arith, word, Result, ok, >>=-eq-ok,
  ok-injective, fold_ok, sum_by,
}

-- Equal if `exact`, and else equal modulo 2 ^ 64.
pub record Same (exact : Bool) (a b : ℕ) : Type 0 where
  pub k : ℕ
  pub l : ℕ
  pub eq : a + k * word ≡ b + l * word
  pub none_wrap : exact ≡ true → (k ≡ 0) × (l ≡ 0)

module _ {exact : Bool} where
  pub Same-eq : {a b : ℕ} → a ≡ b → Same exact a b
  Same-eq h = record { k = 0; l = 0; eq = omega (arith, h); none_wrap = λ _. (refl, refl) }

  pub eq-Same : {a b : ℕ} → Same exact a b → exact ≡ true → a ≡ b
  eq-Same s h = let (p, q) = s.none_wrap h in omega (arith, s.eq, p, q)

  pub Same-sym : {a b : ℕ} → Same exact a b → Same exact b a
  Same-sym s = record {
    k = s.l;
    l = s.k;
    eq = sym s.eq;
    none_wrap = λ e. let (p, q) = s.none_wrap e in (q, p);
  }

  -- The difference of two numbers that is the sum of the differences of others.
  pub Same-one : {a b p q : ℕ} → Same exact a b → p + b ≡ q + a → Same exact p q
  Same-one s h = record { k = s.k; l = s.l; eq = omega (arith, s.eq, h); none_wrap = s.none_wrap }

  pub Same-two :
      {a b c d p q : ℕ} → Same exact a b → Same exact c d → p + b + d ≡ q + a + c → Same exact p q
  Same-two s t h = record {
    k = s.k + t.k;
    l = s.l + t.l;
    eq = omega (arith, s.eq, t.eq, h);
    none_wrap = λ e.
        let (x, y) = s.none_wrap e in
        let (z, w) = t.none_wrap e in (omega (arith, x, z), omega (arith, y, w));
  }

  pub Same-three :
      {a b c d x y p q : ℕ}
      → Same exact a b
      → Same exact c d
      → Same exact x y
      → p + b + d + y ≡ q + a + c + x
      → Same exact p q
  Same-three {a} {b} {c} {d} s t u h =
      Same-two (Same-two {p = a + c} {q = b + d} s t (omega arith)) u (omega (arith, h))

  -- A loop whose every round adds to a count adds the sum.
  pub fold_ok-Same :
      {S A : Type 0} (step : S → A → Result S) (p : S → ℕ) (g : A → ℕ)
      → ((s : S) (x : A) (t : S) → step s x ≡ ok t → Same exact (p t) (p s + g x))
      → (xs : List A) (s t : S) → fold_ok step s xs ≡ ok t
      → Same exact (p t) (p s + sum_by g xs)
  fold_ok-Same step p g one [] s t e =
      let q : p s ≡ p t = ap p (ok-injective e) in Same-eq (omega arith)
  fold_ok-Same step p g one (x ∷ xs) s t e =
      let (u, first, rest) = >>=-eq-ok (step s x) _ e in
      Same-two (one s x u first) (fold_ok-Same step p g one xs u t rest) (omega arith)
