-- ===== src/Accounting/Counts.antt =====
-- internal/accounting/accounting.go: `MergeCounts`, whose loop over a map visits the keys in any order.
use fleetdiff.Base.{
  ℕ, ◌+◌, ◌-◌, ◌≤◌, ◌<◌, leb, leb→le, add64-eq, ◌≡◌, refl, sym, ◌∙◌, true, false, List, [], ◌∷◌,
  arith, ltb, if◌then◌else◌, max_uint64, add64, Result, ok, err, overflow, ok-injective, subst,
  fold_ok, if-cases, err-ne-ok, >>=-eq-ok, Eq, update, contains, Distinct, beq_self, Bool-cases,
  inl, inr, fun_ext, ap, ◌⊎◌,
}

module _ {K : Type 0} ⦃e : Eq K⦄ where
  -- One round: `if math.MaxUint64-dst[k] < v { return errOverflow }; dst[k] += v`.
  unfoldable pub merge_key : (K → ℕ) → (K → ℕ) → K → Result (K → ℕ)
  merge_key src dst k =
      if ltb (max_uint64 - dst k) (src k)
      then err overflow
      else ok (update dst k (add64 (dst k) (src k)))

  -- `keys` are the keys of `src` in the order in which the loop meets them.
  unfoldable pub merge_counts : List K → (K → ℕ) → (K → ℕ) → Result (K → ℕ)
  unfolding merge_key
  merge_counts keys src dst = fold_ok (merge_key src) dst keys

  -- Every count of a map is a `uint64`.
  abbrev pub AreUint64 : (K → ℕ) → Type 0
  AreUint64 m = (k : K) → m k ≤ max_uint64

  abbrev pub Fits : List K → (K → ℕ) → (K → ℕ) → Type 0
  Fits keys src dst = (k : K) → contains keys k ≡ true → dst k + src k ≤ max_uint64

  -- The sums at the keys that are merged, the old counts at all others.
  unfoldable pub merged : List K → (K → ℕ) → (K → ℕ) → K → ℕ
  merged keys src dst k = if contains keys k then dst k + src k else dst k

  merge_key_fits :
      (src dst : K → ℕ) (k : K)
      → dst k + src k ≤ max_uint64
      → merge_key src dst k ≡ ok (update dst k (dst k + src k))
  unfolding merge_key add64
  merge_key_fits src dst k h = ground (arith, add64-eq (dst k) (src k))

  merge_key_overflows :
      (src dst : K → ℕ) (k : K)
      → dst k ≤ max_uint64
      → max_uint64 < dst k + src k
      → merge_key src dst k ≡ err overflow
  unfolding merge_key
  merge_key_overflows src dst k u h = ground arith

  update_self : (dst : K → ℕ) (k j : K) (v : ℕ) → e.beq j k ≡ true → update dst k v j ≡ v
  unfolding update
  update_self dst k j v h = rw h

  update_ne : (dst : K → ℕ) (k j : K) (v : ℕ) → e.beq j k ≡ false → update dst k v j ≡ dst j
  unfolding update
  update_ne dst k j v h = rw h

  update-AreUint64 :
      (src dst : K → ℕ) (k : K)
      → AreUint64 dst
      → dst k + src k ≤ max_uint64
      → AreUint64 (update dst k (dst k + src k))
  unfolding update
  update-AreUint64 src dst k u h j = elim (Bool-cases (e.beq j k)) [
    | inl same ↦ rw same h
    | inr other ↦ rw other (u j)
  ]

  -- A key that the list does not hold differs from each that it holds.
  contains_ne :
      (ks : List K) (k j : K) → contains ks k ≡ false → contains ks j ≡ true → e.beq j k ≡ false
  contains_ne ks k j new old = elim (Bool-cases (e.beq j k)) [
    | inl same ↦
        let q : contains ks k ≡ true =
          subst (λ x. contains ks x ≡ true) ((e.beq_iff j k).0 same) old in
        cc
    | inr other ↦ other
  ]

  merged-update :
      (ks : List K) (src dst : K → ℕ) (k j : K)
      → contains ks k ≡ false
      → merged ks src (update dst k (dst k + src k)) j ≡ merged (k ∷ ks) src dst j
  unfolding merged update contains
  merged-update ks src dst k j new = elim (Bool-cases (e.beq j k)) [
    | inl same ↦ let q : j ≡ k = (e.beq_iff j k).0 same in rw (q, beq_self k, new)
    | inr other ↦ rw other
  ]

  Fits-update :
      (ks : List K) (src dst : K → ℕ) (k : K)
      → contains ks k ≡ false
      → Fits (k ∷ ks) src dst
      → Fits ks src (update dst k (dst k + src k))
  unfolding contains
  Fits-update ks src dst k new h j old =
      let other : e.beq j k ≡ false = contains_ne ks k j new old in
      let fits : dst j + src j ≤ max_uint64 = h j (rw (other, old)) in
      rw (update_ne dst k j (dst k + src k) other) fits

  -- Without an overflow every merged key holds the sum and no other key changes.
  pub merge_counts-Fits :
      (keys : List K) (src dst : K → ℕ)
      → Distinct keys
      → Fits keys src dst
      → merge_counts keys src dst ≡ ok (merged keys src dst)
  unfolding merge_counts contains
  merge_counts-Fits [] src dst d h = ap ok (fun_ext (λ j. unfold merged in refl))
  merge_counts-Fits (k ∷ ks) src dst d h = rw (merge_key_fits src dst k (h k (rw (beq_self k)))) (
      merge_counts-Fits ks src (update dst k (dst k + src k)) d.1 (Fits-update ks src dst k d.0 h)
      ∙ ap ok (fun_ext (λ j. merged-update ks src dst k j d.0)))

  -- A key whose sum overflows is met, wherever the loop starts.
  pub merge_counts_overflows :
      (keys : List K) (src dst : K → ℕ) (k : K)
      → Distinct keys
      → AreUint64 dst
      → contains keys k ≡ true
      → max_uint64 < dst k + src k
      → merge_counts keys src dst ≡ err overflow
  unfolding merge_counts contains
  merge_counts_overflows [] src dst k d u old h = cc
  merge_counts_overflows (j ∷ js) src dst k d u old h =
      elim (Bool-cases (leb (dst j + src j) max_uint64)) [
        | inr over ↦ rw (merge_key_overflows src dst j (u j) (ground arith))
        | inl fits ↦ elim (Bool-cases (e.beq k j)) [
          | inl same ↦
              let q : k ≡ j = (e.beq_iff k j).0 same in absurd (ground (arith, ap dst q, ap src q))
          | inr other ↦ rw (merge_key_fits src dst j (leb→le _ _ fits)) (
              merge_counts_overflows js src (update dst j (dst j + src j)) k d.1
                (update-AreUint64 src dst j u (leb→le _ _ fits)) (ground arith)
                (rw (update_ne dst j k (dst j + src j) other) h))
        ]
      ]

  -- Either every sum at the keys fits a `uint64`, or there is one that does not.
  Fits-or_overflows :
      (keys : List K) (src dst : K → ℕ)
      → Fits keys src dst ⊎ ((k : K) × (contains keys k ≡ true) × (max_uint64 < dst k + src k))
  unfolding contains
  Fits-or_overflows [] src dst = inl (λ k h. cc)
  Fits-or_overflows (k ∷ ks) src dst = elim (Fits-or_overflows ks src dst) [
    | inr (j, old, over) ↦ inr (j, ground arith, over)
    | inl rest ↦ elim (Bool-cases (leb (dst k + src k) max_uint64)) [
      | inr over ↦ inr (k, rw (beq_self k), ground arith)
      | inl fits ↦ inl (λ j old. elim (Bool-cases (e.beq j k)) [
        | inl same ↦ let q : j ≡ k = (e.beq_iff j k).0 same in rw q (leb→le _ _ fits)
        | inr other ↦ rest j (ground arith)
      ])
    ]
  ]

  -- A merge that returns has added at every key and changed no other one.
  pub merge_counts-eq-ok :
      (keys : List K) (src dst : K → ℕ) {m : K → ℕ}
      → Distinct keys
      → AreUint64 dst
      → merge_counts keys src dst ≡ ok m
      → m ≡ merged keys src dst
  merge_counts-eq-ok keys src dst d u h = elim (Fits-or_overflows keys src dst) [
    | inl fits ↦ ok-injective (sym h ∙ merge_counts-Fits keys src dst d fits)
    | inr (k, old, over) ↦ cc (merge_counts_overflows keys src dst k d u old over)
  ]

  -- A merge keeps every count a `uint64`.
  pub merge_counts_bounded :
      (keys : List K) (src dst : K → ℕ) {m : K → ℕ}
      → Distinct keys
      → AreUint64 dst
      → merge_counts keys src dst ≡ ok m
      → AreUint64 m
  unfolding merged
  merge_counts_bounded keys src dst {m} d u h k = elim (Fits-or_overflows keys src dst) [
    | inr (j, old, over) ↦ cc (merge_counts_overflows keys src dst j d u old over)
    | inl fits ↦
        let q : m k ≡ merged keys src dst k =
          ap (λ (f : K → ℕ). f k) (merge_counts-eq-ok keys src dst d u h) in
        elim (Bool-cases (contains keys k)) [
          | inl old ↦ rw (q, old) (fits k old)
          | inr new ↦ rw (q, new) (u k)
        ]
  ]

  merge_key-eq-ok :
      (src dst : K → ℕ) (k : K) {u : K → ℕ}
      → merge_key src dst k ≡ ok u
      → u ≡ update dst k (add64 (dst k) (src k))
  unfolding merge_key
  merge_key-eq-ok src dst k h =
      if-cases (ltb (max_uint64 - dst k) (src k)) _ _ (λ c g. err-ne-ok g)
        (λ c g. sym (ok-injective g)) h

  -- Whatever the counts are, a merge adds those at the keys modulo 2 ^ 64 and no other.
  pub merge_counts-add64 :
      (keys : List K) (src dst : K → ℕ) (k : K) {m : K → ℕ}
      → Distinct keys
      → merge_counts keys src dst ≡ ok m
      → m k ≡ (if contains keys k then add64 (dst k) (src k) else dst k)
  unfolding merge_counts contains
  merge_counts-add64 [] src dst k d h = ap (λ (f : K → ℕ). f k) (sym (ok-injective h))
  merge_counts-add64 (j ∷ js) src dst k d h =
      let (u, hu, rest) = >>=-eq-ok (merge_key src dst j) _ h in
      let made : u k ≡ update dst j (add64 (dst j) (src j)) k =
        ap (λ (f : K → ℕ). f k) (merge_key-eq-ok src dst j hu) in
      let later = merge_counts-add64 js src u k d.1 rest in
      elim (Bool-cases (e.beq k j)) [
        | inl same ↦
            let q : k ≡ j = (e.beq_iff k j).0 same in
            let new : contains js k ≡ false = subst (λ x. contains js x ≡ false) (sym q) d.0 in
            let here : u k ≡ add64 (dst k) (src k) =
              made
              ∙ update_self dst j k (add64 (dst j) (src j)) same
              ∙ ap (λ x. add64 (dst x) (src x)) (sym q) in
            rw same ((rw new at later) ∙ here)
        | inr other ↦
            let here : u k ≡ dst k = made ∙ update_ne dst j k (add64 (dst j) (src j)) other in
            rw other (rw here at later)
      ]

  merged_order :
      (keys keys' : List K) (src dst : K → ℕ)
      → ((k : K) → contains keys k ≡ contains keys' k)
      → merged keys src dst ≡ merged keys' src dst
  unfolding merged
  merged_order keys keys' src dst same = fun_ext (λ k. rw (same k))

  -- Go visits the keys of a map in no fixed order: any two orders of the same keys give the same
  -- counts, or both overflow.
  pub merge_counts_order :
      (keys keys' : List K) (src dst : K → ℕ)
      → Distinct keys
      → Distinct keys'
      → AreUint64 dst
      → ((k : K) → contains keys k ≡ contains keys' k)
      → merge_counts keys src dst ≡ merge_counts keys' src dst
  merge_counts_order keys keys' src dst d d' u same = elim (Fits-or_overflows keys src dst) [
    | inl fits ↦ rw (
      merge_counts-Fits keys src dst d fits,
      merge_counts-Fits keys' src dst d' (λ k old. fits k (same k ∙ old)),
      merged_order keys keys' src dst same,
    )
    | inr (k, old, over) ↦ rw (
      merge_counts_overflows keys src dst k d u old over,
      merge_counts_overflows keys' src dst k d' u (sym (same k) ∙ old) over,
    )
  ]
