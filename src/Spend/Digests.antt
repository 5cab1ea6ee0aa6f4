-- ===== src/Spend/Digests.antt =====
-- internal/spend/duplicates.go: the digests of request identities, in blocks of a fixed size. A digest is a number,
-- which the order of its bytes compares.
pub mod Indexed
pub mod Listed
use fleetdiff.Base.{
  ℕ, zero, suc, ◌+◌, ◌-◌, ◌/◌, ◌%◌, ◌==◌, Bool, false, ◌||◌, Option, none, some, List, [], ◌∷◌,
  ◌++◌, ltb, if◌then◌else◌, length, sort, take, drop, get_elem?,
}

abbrev pub digest_block : ℕ
digest_block = 32768

-- `requestDigests.add`
unfoldable pub add_digest : List (List ℕ) → ℕ → List (List ℕ)
add_digest [] h = (h ∷ []) ∷ []
add_digest (b ∷ []) h = if length b == digest_block then b ∷ (h ∷ []) ∷ [] else (b ++ h ∷ []) ∷ []
add_digest (b ∷ c ∷ d) h = b ∷ add_digest (c ∷ d) h

-- `requestDigests.Len`
unfoldable pub digests_len : List (List ℕ) → ℕ
digests_len [] = 0
digests_len (b ∷ []) = length b
digests_len (b ∷ c ∷ d) = digest_block + digests_len (c ∷ d)

entry_in : Option (List ℕ) → ℕ → Option ℕ
entry_in none i = none
entry_in (some b) i = get_elem? b i

-- `requestDigests.at`, which panics where this is `none`.
unfoldable pub digest_at : List (List ℕ) → ℕ → Option ℕ
unfolding entry_in
digest_at d i = entry_in (get_elem? d (i / digest_block)) (i % digest_block)

-- What `sort.Sort` reads through `Less` and writes through `Swap`: the entries at the indices from `i`, and the same
-- blocks with other entries.
value_of : Option ℕ → ℕ
value_of none = 0
value_of (some h) = h

unfoldable pub values_from : (ℕ → Option ℕ) → ℕ → ℕ → List ℕ
unfolding value_of
values_from at zero i = []
values_from at (suc n) i = value_of (at i) ∷ values_from at n (suc i)

unfoldable pub with_values : List (List ℕ) → List ℕ → List (List ℕ)
with_values [] hs = []
with_values (b ∷ d) hs = take (length b) hs ∷ with_values d (drop (length b) hs)

-- `sort.Sort(d)`: the entries in the order of `Less`.
unfoldable pub sort_digests : List (List ℕ) → List (List ℕ)
unfolding values_from with_values digest_at digests_len
sort_digests d = with_values d (sort ltb (values_from (digest_at d) (digests_len d) 0))

same_digest : Option ℕ → Option ℕ → Bool
same_digest (some h) (some k) = h == k
same_digest _ _ = false

-- The loop over the indices, which compares the one after `i` with `i`.
unfoldable pub neighbours_equal : (ℕ → Option ℕ) → ℕ → ℕ → Bool
unfolding same_digest
neighbours_equal at zero i = false
neighbours_equal at (suc n) i = same_digest (at (suc i)) (at i) || neighbours_equal at n (suc i)

-- `requestDigests.duplicated`: two neighbours of the sorted digests are equal.
unfoldable pub duplicated : List (List ℕ) → Bool
unfolding sort_digests neighbours_equal digest_at digests_len
duplicated d = let s = sort_digests d in neighbours_equal (digest_at s) (digests_len s - 1) 0
