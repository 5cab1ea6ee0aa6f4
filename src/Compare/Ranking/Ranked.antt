-- ===== src/Compare/Ranking/Ranked.antt =====
-- internal/compare/compare.go: the candidates of a ranking and their order.
use fleetdiff.Base.{
  ℕ, suc, ◌≤◌, min, max, ◌≡◌, refl, ap, ◌∙◌, Bool, false, ◌||◌, Option, none, some, List, [], ◌∷◌,
  ◌==◌, flag, length, sum_by, sum_by-sort, All, All-sort, sort, IsSorted, sort-IsSorted, arith, ok,
  pos, sub_ℕ, ◌≤ℤ◌,
}
use fleetdiff.Text.{Text}
use fleetdiff.Compare.Ranking.{
  Sketch, Mover, Concentration, add_key, add_keys, strength, stronger, candidates, numbered,
  negated, queried, concentration_of, rank_candidates,
}
use fleetdiff.Compare.Ranking.Sound.{BoundsWeights, IsTrue, mover_of-IsTrue}

unfoldable pub is_listed : ℕ → List ℕ → Bool
is_listed k [] = false
is_listed k (j ∷ js) = j == k || is_listed k js

abbrev one_if : ℕ → ℕ → ℕ
one_if k j = flag (j == k)

abbrev pub hash_is : ℕ → Option ℕ → ℕ
hash_is k none = 0
hash_is k (some j) = flag (j == k)

-- Each key stands once.
add_key_lem :
    (k : ℕ) (js : List ℕ) (i : ℕ)
    → sum_by (one_if k) js ≤ 1
    → sum_by (one_if k) (add_key js i) ≡ max (sum_by (one_if k) js) (flag (i == k))
unfolding add_key
add_key_lem k [] i h = ground arith
add_key_lem k (j ∷ js) i h = ground (arith, add_key_lem k js i (omega arith))

flag-is_listed : (k : ℕ) (ks : List ℕ) → flag (is_listed k ks) ≡ min 1 (sum_by (one_if k) ks)
unfolding is_listed
flag-is_listed k [] = omega arith
flag-is_listed k (j ∷ ks) = ground (arith, flag-is_listed k ks)

flag_le : (b : Bool) → flag b ≤ 1
flag_le b = ground arith

add_keys_lem :
    (k : ℕ) (js ks : List ℕ)
    → sum_by (one_if k) js ≤ 1
    → sum_by (one_if k) (add_keys js ks) ≡ max (sum_by (one_if k) js) (min 1 (sum_by (one_if k) ks))
unfolding add_keys
add_keys_lem k js [] h = omega arith
add_keys_lem k js (i ∷ ks) h =
    let one = add_key_lem k js i h in
    omega (
      arith,
      one,
      flag_le (i == k),
      add_keys_lem k (add_key js i) ks (omega (arith, one, flag_le (i == k))),
    )

-- Every key of either window is a candidate once, and no other.
candidate_keys_lem :
    (k : ℕ) (left right : List ℕ)
    → sum_by (one_if k) (add_keys (add_keys [] left) right)
      ≡ flag (is_listed k left || is_listed k right)
candidate_keys_lem k left right =
    let a = add_keys_lem k [] left (omega arith) in
    let b = add_keys_lem k (add_keys [] left) right (omega arith) in
    let l = flag-is_listed k left in let r = flag-is_listed k right in ground (arith, a, b, l, r)

sum_by-candidates :
    (k : ℕ) (x y : Sketch) (ks : List ℕ)
    → sum_by (λ c. flag (c.0 == k)) (candidates x y ks) ≡ sum_by (one_if k) ks
unfolding candidates
sum_by-candidates k x y [] = refl
sum_by-candidates k x y (j ∷ ks) = omega (arith, sum_by-candidates k x y ks)

sum_by-numbered :
    (k n : ℕ) (cs : List (ℕ × Mover))
    → sum_by (λ m. hash_is k m.hash) (numbered n cs) ≡ sum_by (λ c. flag (c.0 == k)) cs
unfolding numbered
sum_by-numbered k n [] = refl
sum_by-numbered k n ((j, m) ∷ cs) = omega (arith, sum_by-numbered k (suc n) cs)

-- The keys of the movers, and how they are ordered: the stronger first, equally strong ones by their keys.
abbrev pub key_of : Option ℕ → ℕ
key_of none = 0
key_of (some k) = k

abbrev pub Precedes : ℕ → Mover → ℕ → Mover → Type 0
Precedes j a k b = (strength b ≤ strength a) × (strength a ≡ strength b → j ≤ k)

abbrev pub MoverPrecedes : Mover → Mover → Type 0
MoverPrecedes a b = Precedes (key_of a.hash) a (key_of b.hash) b

abbrev pub CandidatePrecedes : ℕ × Mover → ℕ × Mover → Type 0
CandidatePrecedes c d = Precedes c.0 c.1 d.0 d.1

IsSorted-candidates : (cs : List (ℕ × Mover)) → IsSorted CandidatePrecedes (sort stronger cs)
unfolding stronger
IsSorted-candidates cs =
    sort-IsSorted stronger CandidatePrecedes (λ c d h. (ground arith, λ e. ground arith))
      (λ c d h. (ground arith, λ e. ground arith))
      (λ c d e r q. (
        omega (arith, r.0, q.0),
        λ g. omega (arith, r.0, q.0, r.1 (omega (arith, r.0, q.0)), q.1 (omega (arith, r.0, q.0))),
      ))
      cs

All-numbered :
    (P : ℕ → Mover → Type 0) (n : ℕ) (cs : List (ℕ × Mover))
    → ((k : ℕ) (m : Mover) (i : Text) → P k m → P k (record m { item = i; hash = some k }))
    → All (λ c. P c.0 c.1) cs
    → All (λ m. P (key_of m.hash) m) (numbered n cs)
unfolding numbered
All-numbered P n [] f h = tt
All-numbered P n ((k, m) ∷ cs) f h = (f k m _ h.0, All-numbered P (suc n) cs f h.1)

numbered-IsSorted :
    (n : ℕ) (cs : List (ℕ × Mover))
    → IsSorted CandidatePrecedes cs
    → IsSorted MoverPrecedes (numbered n cs)
unfolding numbered strength
numbered-IsSorted n [] h = tt
numbered-IsSorted n ((k, m) ∷ cs) h = (
  All-numbered (λ j b. Precedes k m j b) (suc n) cs (λ j b i p. p) h.0,
  numbered-IsSorted (suc n) cs h.1,
)

-- What the sketch library documents: the bounds hold, and an item that is not returned weighs no more than the
-- largest error.
pub record IsSketchOf (items : List ℕ) (w : ℕ → ℕ) (s : Sketch) : Type 0 where
  pub bounds : BoundsWeights s w
  pub returned : s.frequent ≡ some items
  pub missed : (k : ℕ) → is_listed k items ≡ false → w k ≤ s.max_error

pub record IsRanking (left right : List ℕ) (wx wy : ℕ → ℕ) (c : Concentration) : Type 0 where
  pub true_changes : All (λ m. IsTrue (wx (key_of m.hash)) (wy (key_of m.hash)) m) c.movers
  pub complete :
      (k : ℕ)
      → sum_by (λ m. hash_is k m.hash) c.movers ≡ flag (is_listed k left || is_listed k right)
  pub ordered : IsSorted MoverPrecedes c.movers
  pub counted : c.candidate_count ≡ length c.movers
  pub untracked :
      (k : ℕ)
      → is_listed k left ≡ false
      → is_listed k right ≡ false
      → (c.untracked_delta.from ≤ℤ sub_ℕ (wy k) (wx k))
        × (sub_ℕ (wy k) (wx k) ≤ℤ c.untracked_delta.to)

length-numbered : (n : ℕ) (cs : List (ℕ × Mover)) → length cs ≡ length (numbered n cs)
unfolding numbered
length-numbered n [] = refl
length-numbered n ((k, m) ∷ cs) = ap suc (length-numbered (suc n) cs)

All-candidates :
    (x y : Sketch) (wx wy : ℕ → ℕ) (ks : List ℕ)
    → BoundsWeights x wx
    → BoundsWeights y wy
    → All (λ c. IsTrue (wx c.0) (wy c.0) c.1) (candidates x y ks)
unfolding candidates
All-candidates x y wx wy [] a b = tt
All-candidates x y wx wy (k ∷ ks) a b =
    (mover_of-IsTrue x y wx wy k a b, All-candidates x y wx wy ks a b)

untracked_lem : (a b u v : ℕ) → u ≤ a → v ≤ b → (sub_ℕ 0 a ≤ℤ sub_ℕ v u) × (sub_ℕ v u ≤ℤ pos b)
untracked_lem a b u v h k = (ground arith, ground arith)

concentration_of-IsRanking :
    (unit_of : Text → Option Text) (n : Text) (x y : Sketch) (left right : List ℕ) (wx wy : ℕ → ℕ)
    → IsSketchOf left wx x
    → IsSketchOf right wy y
    → IsRanking left right wx wy (
        concentration_of unit_of n x y
          (sort stronger (candidates x y (add_keys (add_keys [] left) right))))
unfolding concentration_of negated
concentration_of-IsRanking unit_of n x y left right wx wy a b =
    let keys = add_keys (add_keys [] left) right in
    let cs = candidates x y keys in
    record {
      true_changes =
          All-numbered (λ k m. IsTrue (wx k) (wy k) m) 1 (sort stronger cs)
            (λ k m i p. record {
              least = p.least;
              most = p.most;
              rises = p.rises;
              falls = p.falls;
              stays = p.stays;
            })
            (All-sort stronger (λ c. IsTrue (wx c.0) (wy c.0) c.1) cs
              (All-candidates x y wx wy keys a.bounds b.bounds));
      complete = λ k.
          sum_by-numbered k 1 (sort stronger cs)
          ∙ sum_by-sort stronger (λ c. flag (c.0 == k)) cs
          ∙ sum_by-candidates k x y keys
          ∙ candidate_keys_lem k left right;
      ordered = numbered-IsSorted 1 (sort stronger cs) (IsSorted-candidates cs);
      counted = length-numbered 1 (sort stronger cs);
      untracked = λ k p q.
          untracked_lem x.max_error y.max_error (wx k) (wy k) (a.missed k p) (b.missed k q);
    }

-- A ranking of two sketches of weights is returned, and it is true of the weights: each change lies in its interval
-- and goes in the direction shown; every item that either sketch returns is a mover once, and no other; the movers
-- are counted and stand in the order of their strength, then of their keys; and the change of an item that neither
-- returns lies in the bound for untracked items.
pub rank_candidates-IsRanking :
    (unit_of : Text → Option Text) (n : Text) (x y : Sketch) (left right : List ℕ) (wx wy : ℕ → ℕ)
    → IsSketchOf left wx x
    → IsSketchOf right wy y
    → (c : Concentration) × (rank_candidates unit_of n (some x) (some y) ≡ ok c)
      × IsRanking left right wx wy c
unfolding rank_candidates queried
rank_candidates-IsRanking unit_of n x y left right wx wy a b = (
  concentration_of unit_of n x y
      (sort stronger (candidates x y (add_keys (add_keys [] left) right))),
  rw (a.returned, b.returned) refl,
  concentration_of-IsRanking unit_of n x y left right wx wy a b,
)
