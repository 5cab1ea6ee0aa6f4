-- ===== src/Spend/Digests/Listed.antt =====
-- internal/spend/duplicates.go: the blocks of digests as one list, which is all that the report of duplicates needs.
use fleetdiff.Base.{
  ℕ, false, get_elem?, ◌≤◌, ◌<◌, ◌≡◌, refl, sym, ap, ◌∙◌, subst, true, false, ◌||◌, List, [], ◌∷◌,
  ◌++◌, ◌==◌, ltb, length, sort, sum_by, sum_by-sort, length-append, All, flag, arith, IsSorted,
  sort-IsSorted, Bool-cases, inl, inr,
}
use mathlib.Core.List.{append_assoc, append-nil}
use fleetdiff.Spend.Digests.{digest_block, add_digest, digests_len, digest_at, duplicated}
use fleetdiff.Spend.Digests.Indexed.{
  entries, IsBlocks, adjacent_equal, any_adjacent, digests_len-entries, digest_at-entries,
  duplicated-any_adjacent,
}

-- How often a digest occurs.
abbrev pub occurrences : ℕ → List ℕ → ℕ
occurrences k hs = sum_by (λ h. flag (h == k)) hs

unfoldable pub add_digests : List (List ℕ) → List ℕ → List (List ℕ)
add_digests d [] = d
add_digests d (h ∷ hs) = add_digests (add_digest d h) hs

entries-add_digest : (d : List (List ℕ)) (h : ℕ) → entries (add_digest d h) ≡ entries d ++ h ∷ []
unfolding add_digest entries
entries-add_digest [] h = refl
entries-add_digest (b ∷ []) h = elim (Bool-cases (length b == digest_block)) [
  | inl e ↦ rw e (ap (λ l. l ++ h ∷ []) (sym (append-nil b)))
  | inr e ↦ rw e (append-nil (b ++ h ∷ []) ∙ ap (λ l. l ++ h ∷ []) (sym (append-nil b)))
]
entries-add_digest (b ∷ c ∷ d) h =
    ap (λ l. b ++ l) (entries-add_digest (c ∷ d) h)
    ∙ sym (append_assoc b (entries (c ∷ d)) (h ∷ []))

cons-IsBlocks :
    (b : List ℕ) (x : List (List ℕ))
    → length b ≡ digest_block
    → IsBlocks x
    → 0 < length x
    → IsBlocks (b ∷ x)
cons-IsBlocks b [] l v p = let q : true ≡ false = ground (arith, p) in cc
cons-IsBlocks b (c ∷ d) l v p = (l, v)

length-add_digest : (d : List (List ℕ)) (h : ℕ) → 0 < length (add_digest d h)
unfolding add_digest
length-add_digest [] h = omega arith
length-add_digest (b ∷ []) h = ground arith
length-add_digest (b ∷ c ∷ d) h = omega arith

add_digest-IsBlocks : (d : List (List ℕ)) (h : ℕ) → IsBlocks d → IsBlocks (add_digest d h)
unfolding add_digest
add_digest-IsBlocks [] h v = (omega arith, omega arith)
add_digest-IsBlocks (b ∷ []) h v = elim (Bool-cases (length b == digest_block)) [
  | inl e ↦ rw e (ground (arith, e), (omega arith, omega arith))
  | inr e ↦
      rw e
        (omega (arith, length-append b (h ∷ [])), ground (arith, e, v.1, length-append b (h ∷ [])))
]
add_digest-IsBlocks (b ∷ c ∷ d) h v =
    cons-IsBlocks b (add_digest (c ∷ d) h) v.0 (add_digest-IsBlocks (c ∷ d) h v.1)
      (length-add_digest (c ∷ d) h)

adjacent-occurs :
    (h : ℕ) (xs : List ℕ) → adjacent_equal h xs ≡ true → (k : ℕ) × (2 ≤ occurrences k (h ∷ xs))
unfolding adjacent_equal
adjacent-occurs h [] e = cc
adjacent-occurs h (x ∷ xs) e = elim (Bool-cases (x == h)) [
  | inl s ↦ (h, ground (arith, s))
  | inr s ↦
      let (k, two) = adjacent-occurs x xs (subst (λ b. (b || adjacent_equal x xs) ≡ true) s e) in
      (k, omega (arith, two))
]

all_less : (h x : ℕ) (xs : List ℕ) → h < x → All (λ y. x ≤ y) xs → All (λ y. h < y) xs
all_less h x [] l v = tt
all_less h x (y ∷ ys) l v = (omega (arith, l, v.0), all_less h x ys l v.1)

above-none : (k : ℕ) (xs : List ℕ) → All (λ y. k < y) xs → occurrences k xs ≡ 0
above-none k [] v = refl
above-none k (x ∷ xs) v = ground (arith, above-none k xs v.1, v.0)

distinct-once :
    (h : ℕ) (xs : List ℕ)
    → IsSorted (λ a b. a ≤ b) (h ∷ xs)
    → adjacent_equal h xs ≡ false
    → (k : ℕ) → occurrences k (h ∷ xs) ≤ 1
unfolding adjacent_equal
distinct-once h [] v e k = ground arith
distinct-once h (x ∷ xs) v e k = elim (Bool-cases (x == h)) [
  | inl s ↦ let q : true ≡ false = subst (λ b. (b || adjacent_equal x xs) ≡ false) s e in cc
  | inr s ↦
      let rest = distinct-once x xs v.1 (subst (λ b. (b || adjacent_equal x xs) ≡ false) s e) k in
      let less : h < x = ground (arith, s, v.0.0) in
      let none_after = above-none h (x ∷ xs) (less, all_less h x xs less v.1.0) in
      elim (Bool-cases (h == k)) [
        | inl t ↦
            let same : h ≡ k = ground (arith, t) in
            let zero_after = subst (λ j. occurrences j (x ∷ xs) ≡ 0) same none_after in
            ground (arith, t, zero_after)
        | inr t ↦ ground (arith, t, rest)
      ]
]

-- What the blocks of some digests hold, and what they tell.
pub record IsListed (hs : List ℕ) (d : List (List ℕ)) : Type 0 where
  pub blocks : IsBlocks d
  pub listed : entries d ≡ hs
  pub indexed : (i : ℕ) → i < length hs → digest_at d i ≡ get_elem? hs i
  pub counted : digests_len d ≡ length hs
  pub repeated : duplicated d ≡ true → (k : ℕ) × (2 ≤ occurrences k hs)
  pub once : duplicated d ≡ false → (k : ℕ) → occurrences k hs ≤ 1

occurrences-sort : (k : ℕ) (hs : List ℕ) → occurrences k (sort ltb hs) ≡ occurrences k hs
occurrences-sort k hs = sum_by-sort ltb (λ h. flag (h == k)) hs

repeated_in : (hs : List ℕ) → any_adjacent hs ≡ true → (k : ℕ) × (2 ≤ occurrences k hs)
unfolding any_adjacent
repeated_in [] e = cc
repeated_in (h ∷ hs) e = adjacent-occurs h hs e

once_in :
    (hs : List ℕ)
    → IsSorted (λ a b. a ≤ b) hs
    → any_adjacent hs ≡ false
    → (k : ℕ) → occurrences k hs ≤ 1
unfolding any_adjacent
once_in [] v e k = omega arith
once_in (h ∷ hs) v e k = distinct-once h hs v e k

add_digests-lists :
    (d : List (List ℕ)) (hs : List ℕ)
    → IsBlocks d
    → IsBlocks (add_digests d hs) × (entries (add_digests d hs) ≡ entries d ++ hs)
unfolding add_digests
add_digests-lists d [] v = (v, sym (append-nil (entries d)))
add_digests-lists d (h ∷ hs) v =
    let (a, b) = add_digests-lists (add_digest d h) hs (add_digest-IsBlocks d h v) in
    (a, b ∙ ap (λ l. l ++ hs) (entries-add_digest d h) ∙ append_assoc (entries d) (h ∷ []) hs)

-- The blocks refine a list: after any digests have been added to no blocks, the blocks hold exactly these digests in their
-- order, know their number, and give each of them at its index; and `duplicated` tells exactly whether some digest was added twice.
pub add_digests-IsListed : (hs : List ℕ) → IsListed hs (add_digests [] hs)
unfolding entries
add_digests-IsListed hs =
    let (a, b) = add_digests-lists [] hs tt in
    let d = add_digests [] hs in
    let sorted =
      sort-IsSorted ltb (λ x y. x ≤ y) (λ x y e. ground (arith, e)) (λ x y e. ground (arith, e))
        (λ x y z p q. omega arith) (entries d) in
    record {
      blocks = a;
      listed = b;
      counted = digests_len-entries d a ∙ ap (λ (l : List ℕ). length l) b;
      indexed = λ i l.
          digest_at-entries d i a (omega (arith, l, ap (λ (l : List ℕ). length l) b))
          ∙ ap (λ l. get_elem? l i) b;
      repeated = λ e.
          let (k, two) =
            repeated_in (sort ltb (entries d)) (sym (duplicated-any_adjacent d a) ∙ e) in
          (
            k,
            subst (λ l. 2 ≤ occurrences k l) b
                (subst (λ n. 2 ≤ n) (occurrences-sort k (entries d)) two),
          );
      once = λ e k.
          subst (λ l. occurrences k l ≤ 1) b
            (subst (λ n. n ≤ 1) (occurrences-sort k (entries d))
              (once_in (sort ltb (entries d)) sorted (sym (duplicated-any_adjacent d a) ∙ e) k));
    }
