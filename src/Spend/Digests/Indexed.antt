-- ===== src/Spend/Digests/Indexed.antt =====
-- internal/spend/duplicates.go: the digests by their indices, which are those of one list.
use fleetdiff.Base.{
  ℕ, zero, suc, ◌+◌, ◌-◌, ◌/◌, ◌%◌, Bool, false, Option, take, drop, length-take, take-append-drop,
  get_elem?, ◌≤◌, ◌<◌, ◌≡◌, refl, sym, ap, ◌∙◌, false, ◌||◌, List, [], ◌∷◌, ◌++◌, ◌==◌, ltb, length,
  sort, sum_by, sum_by-sort, length-append, arith, Bool-cases, inl, inr,
}
use fleetdiff.Spend.Digests.{
  digest_block, digests_len, digest_at, entry_in, values_from, value_of, with_values, sort_digests,
  same_digest, neighbours_equal, duplicated,
}

-- The digests of the blocks in one list.
unfoldable pub entries : List (List ℕ) → List ℕ
entries [] = []
entries (b ∷ d) = b ++ entries d

-- Two neighbours of a list are equal.
unfoldable pub adjacent_equal : ℕ → List ℕ → Bool
adjacent_equal h [] = false
adjacent_equal h (k ∷ hs) = k == h || adjacent_equal k hs

unfoldable pub any_adjacent : List ℕ → Bool
unfolding adjacent_equal
any_adjacent [] = false
any_adjacent (h ∷ hs) = adjacent_equal h hs

-- Blocks of which all but the last are full, and the last is not empty.
abbrev pub IsBlocks : List (List ℕ) → Type 0
IsBlocks [] = Unit
IsBlocks (b ∷ []) = (0 < length b) × (length b ≤ digest_block)
IsBlocks (b ∷ c ∷ d) = (length b ≡ digest_block) × IsBlocks (c ∷ d)

pub digests_len-entries : (d : List (List ℕ)) → IsBlocks d → digests_len d ≡ length (entries d)
unfolding digests_len entries
digests_len-entries [] v = refl
digests_len-entries (b ∷ []) v = omega (arith, length-append b [])
digests_len-entries (b ∷ c ∷ d) v =
    omega (arith, length-append b (entries (c ∷ d)), digests_len-entries (c ∷ d) v.1, v.0)

-- The index of a digest: its block and its place there are the quotient and the remainder by the size of a block.
get_elem?-append_left :
    (xs ys : List ℕ) (i : ℕ) → i < length xs → get_elem? (xs ++ ys) i ≡ get_elem? xs i
get_elem?-append_left [] ys i h = absurd (omega (arith, h))
get_elem?-append_left (x ∷ xs) ys zero h = refl
get_elem?-append_left (x ∷ xs) ys (suc i) h = get_elem?-append_left xs ys i (omega (arith, h))

get_elem?-append_right :
    (xs ys : List ℕ) (i j : ℕ) → i ≡ length xs + j → get_elem? (xs ++ ys) i ≡ get_elem? ys j
get_elem?-append_right [] ys i j h = let q : i ≡ j = omega (arith, h) in ap (get_elem? ys) q
get_elem?-append_right (x ∷ xs) ys zero j h = absurd (omega (arith, h))
get_elem?-append_right (x ∷ xs) ys (suc i) j h = get_elem?-append_right xs ys i j (omega (arith, h))

digest_at-cons :
    (b : List ℕ) (d : List (List ℕ)) (i j : ℕ)
    → i ≡ digest_block + j
    → digest_at (b ∷ d) i ≡ digest_at d j
unfolding digest_at
digest_at-cons b d i j h =
    let q : i / digest_block ≡ suc (j / digest_block) = omega (arith, h) in
    let r : i % digest_block ≡ j % digest_block = omega (arith, h) in rw (q, r) refl

digest_at-first :
    (b : List ℕ) (d : List (List ℕ)) (i : ℕ)
    → i < digest_block
    → digest_at (b ∷ d) i ≡ get_elem? b i
unfolding digest_at entry_in
digest_at-first b d i h =
    let q : i / digest_block ≡ 0 = omega (arith, h) in
    let r : i % digest_block ≡ i = omega (arith, h) in rw (q, r) refl

pub digest_at-entries :
    (d : List (List ℕ)) (i : ℕ)
    → IsBlocks d
    → i < length (entries d)
    → digest_at d i ≡ get_elem? (entries d) i
unfolding entries
digest_at-entries [] i v h = absurd (omega (arith, h))
digest_at-entries (b ∷ []) i v h =
    digest_at-first b [] i (omega (arith, h, v.1, length-append b []))
    ∙ sym (get_elem?-append_left b [] i (omega (arith, h, length-append b [])))
digest_at-entries (b ∷ c ∷ d) i v h = elim (Bool-cases (ltb i digest_block)) [
  | inl e ↦
      digest_at-first b (c ∷ d) i (ground (arith, e))
      ∙ sym (get_elem?-append_left b (entries (c ∷ d)) i (ground (arith, e, v.0)))
  | inr e ↦
      let over : digest_block ≤ i = ground (arith, e) in
      let j = i - digest_block in
      digest_at-cons b (c ∷ d) i j (omega (arith, over))
      ∙ digest_at-entries (c ∷ d) j v.1
          (omega (arith, over, h, v.0, length-append b (entries (c ∷ d))))
      ∙ sym (get_elem?-append_right b (entries (c ∷ d)) i j (omega (arith, over, v.0)))
]

-- Reading all indices gives the list.
length-entries_pos :
    (b : List ℕ) (d : List (List ℕ)) → IsBlocks (b ∷ d) → 0 < length (entries (b ∷ d))
unfolding entries
length-entries_pos b [] v = omega (arith, v.0, length-append b [])
length-entries_pos b (c ∷ d) v = omega (arith, v.0, length-append b (entries (c ∷ d)))

length-ones : (hs : List ℕ) → sum_by (λ _. 1) hs ≡ length hs
length-ones [] = refl
length-ones (h ∷ hs) = omega (arith, length-ones hs)

length-sort : (hs : List ℕ) → length (sort ltb hs) ≡ length hs
length-sort hs = sym (length-ones (sort ltb hs)) ∙ sum_by-sort ltb (λ _. 1) hs ∙ length-ones hs

values_from_cong :
    (f g : ℕ → Option ℕ) (n i : ℕ)
    → ((j : ℕ) → j < i + n → f j ≡ g j)
    → values_from f n i ≡ values_from g n i
unfolding values_from
values_from_cong f g zero i h = refl
values_from_cong f g (suc n) i h =
    rw (h i (omega arith), values_from_cong f g n (suc i) (λ j l. h j (omega (arith, l)))) refl

values_from_shift :
    (x : ℕ) (xs : List ℕ) (n i : ℕ)
    → values_from (get_elem? (x ∷ xs)) n (suc i) ≡ values_from (get_elem? xs) n i
unfolding values_from
values_from_shift x xs zero i = refl
values_from_shift x xs (suc n) i = rw (values_from_shift x xs n (suc i)) refl

values_from-all : (xs : List ℕ) → values_from (get_elem? xs) (length xs) 0 ≡ xs
unfolding values_from value_of
values_from-all [] = refl
values_from-all (x ∷ xs) = ap (◌∷◌ x) (values_from_shift x xs (length xs) 0 ∙ values_from-all xs)

values-entries :
    (d : List (List ℕ)) → IsBlocks d → values_from (digest_at d) (digests_len d) 0 ≡ entries d
values-entries d v =
    let n = digests_len-entries d v in
    values_from_cong (digest_at d) (get_elem? (entries d)) (digests_len d) 0
      (λ j l. digest_at-entries d j v (omega (arith, l, n)))
    ∙ ap (λ k. values_from (get_elem? (entries d)) k 0) n
    ∙ values_from-all (entries d)

-- Writing values into the blocks.
length-take_le : (n : ℕ) (xs : List ℕ) → n ≤ length xs → length (take n xs) ≡ n
length-take_le n xs h = length-take n xs ∙ omega (arith, h)

length-drop : (n : ℕ) (xs : List ℕ) → length xs ≡ length (take n xs) + length (drop n xs)
length-drop n xs =
    sym (ap (λ (l : List ℕ). length l) (take-append-drop n xs))
    ∙ length-append (take n xs) (drop n xs)

entries-with_values :
    (d : List (List ℕ)) (hs : List ℕ)
    → length hs ≡ length (entries d)
    → entries (with_values d hs) ≡ hs
unfolding with_values entries
entries-with_values [] [] h = refl
entries-with_values [] (x ∷ hs) h = absurd (omega (arith, h))
entries-with_values (b ∷ d) hs h =
    let k : length b ≤ length hs = omega (arith, h, length-append b (entries d)) in
    ap (λ l. take (length b) hs ++ l)
      (entries-with_values d (drop (length b) hs) (
        omega (
          arith,
          h,
          length-append b (entries d),
          length-drop (length b) hs,
          length-take_le (length b) hs k,
        )))
    ∙ take-append-drop (length b) hs

with_values-IsBlocks :
    (d : List (List ℕ)) (hs : List ℕ)
    → length hs ≡ length (entries d)
    → IsBlocks d
    → IsBlocks (with_values d hs)
unfolding with_values entries
with_values-IsBlocks [] hs h v = tt
with_values-IsBlocks (b ∷ []) hs h v =
    let q = length-take_le (length b) hs (omega (arith, h, length-append b [])) in
    (omega (arith, q, v.0), omega (arith, q, v.1))
with_values-IsBlocks (b ∷ c ∷ d) hs h v =
    let k : length b ≤ length hs = omega (arith, h, length-append b (entries (c ∷ d))) in
    let q = length-take_le (length b) hs k in
    (
      q ∙ v.0,
      with_values-IsBlocks (c ∷ d) (drop (length b) hs)
          (omega (arith, h, length-append b (entries (c ∷ d)), length-drop (length b) hs, q)) v.1,
    )

-- The loop over the indices sees the neighbours of the list.
neighbours_equal_cong :
    (f g : ℕ → Option ℕ) (n i : ℕ)
    → ((j : ℕ) → j < i + n + 1 → f j ≡ g j)
    → neighbours_equal f n i ≡ neighbours_equal g n i
unfolding neighbours_equal
neighbours_equal_cong f g zero i h = refl
neighbours_equal_cong f g (suc n) i h =
    rw
      (
        h i (omega arith),
        h (suc i) (omega arith),
        neighbours_equal_cong f g n (suc i) (λ j l. h j (omega (arith, l))),
      )
      refl

neighbours_equal_shift :
    (x : ℕ) (xs : List ℕ) (n i : ℕ)
    → neighbours_equal (get_elem? (x ∷ xs)) n (suc i) ≡ neighbours_equal (get_elem? xs) n i
unfolding neighbours_equal
neighbours_equal_shift x xs zero i = refl
neighbours_equal_shift x xs (suc n) i = rw (neighbours_equal_shift x xs n (suc i)) refl

neighbours_equal-adjacent_equal :
    (x : ℕ) (xs : List ℕ)
    → neighbours_equal (get_elem? (x ∷ xs)) (length xs) 0 ≡ adjacent_equal x xs
unfolding neighbours_equal adjacent_equal same_digest
neighbours_equal-adjacent_equal x [] = refl
neighbours_equal-adjacent_equal x (y ∷ ys) =
    ap (λ b. (y == x) || b)
      (neighbours_equal_shift x (y ∷ ys) (length ys) 0 ∙ neighbours_equal-adjacent_equal y ys)

neighbours_equal-any_adjacent :
    (xs : List ℕ) → neighbours_equal (get_elem? xs) (length xs - 1) 0 ≡ any_adjacent xs
unfolding any_adjacent neighbours_equal
neighbours_equal-any_adjacent [] = refl
neighbours_equal-any_adjacent (x ∷ xs) =
    let q : length (x ∷ xs) - 1 ≡ length xs = omega arith in
    rw q (neighbours_equal-adjacent_equal x xs)

neighbours-entries :
    (d : List (List ℕ))
    → IsBlocks d
    → neighbours_equal (digest_at d) (digests_len d - 1) 0 ≡ any_adjacent (entries d)
unfolding neighbours_equal any_adjacent digests_len entries
neighbours-entries [] v = refl
neighbours-entries (b ∷ d) v =
    let n = digests_len-entries (b ∷ d) v in
    let some_entry = length-entries_pos b d v in
    neighbours_equal_cong (digest_at (b ∷ d)) (get_elem? (entries (b ∷ d))) _ 0
      (λ j l. digest_at-entries (b ∷ d) j v (omega (arith, l, n, some_entry)))
    ∙ ap (λ k. neighbours_equal (get_elem? (entries (b ∷ d))) (k - 1) 0) n
    ∙ neighbours_equal-any_adjacent (entries (b ∷ d))

pub duplicated-any_adjacent :
    (d : List (List ℕ)) → IsBlocks d → duplicated d ≡ any_adjacent (sort ltb (entries d))
unfolding duplicated sort_digests
duplicated-any_adjacent d v =
    let hs = sort ltb (values_from (digest_at d) (digests_len d) 0) in
    let same : hs ≡ sort ltb (entries d) = ap (sort ltb) (values-entries d v) in
    let n : length hs ≡ length (entries d) =
      ap (λ (l : List ℕ). length l) same ∙ length-sort (entries d) in
    neighbours-entries (with_values d hs) (with_values-IsBlocks d hs n v)
    ∙ ap any_adjacent (entries-with_values d hs n ∙ same)
