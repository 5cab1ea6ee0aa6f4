-- ===== src/Compare/Ranking/Sound.antt =====
-- internal/compare/compare.go: what a ranking says of the true weights.
use fleetdiff.Base.{ℕ, zero, suc, ◌≤◌, ◌<◌, ◌≡◌, arith, ℤ, pos, negsuc, sub_ℕ, ◌≤ℤ◌}
use fleetdiff.Compare.Ranking.{
  Sketch, increased, decreased, unchanged, Mover, change, direction_between, direction_of, mover_of,
}

-- What a sketch promises of the weights that went into it.
pub record BoundsWeights (s : Sketch) (w : ℕ → ℕ) : Type 0 where
  pub above : (k : ℕ) → s.lower k ≤ w k
  pub below : (k : ℕ) → w k ≤ s.upper k

-- What a mover says of the weights of its key, before and after.
pub record IsTrue (u v : ℕ) (m : Mover) : Type 0 where
  pub least : m.delta.from ≤ℤ sub_ℕ v u
  pub most : sub_ℕ v u ≤ℤ m.delta.to
  pub rises : m.direction ≡ increased → u < v
  pub falls : m.direction ≡ decreased → v < u
  pub stays : m.direction ≡ unchanged → u ≡ v

direction-rises : (a b : ℤ) (u v : ℕ) → a ≤ℤ sub_ℕ v u → direction_between a b ≡ increased → u < v
unfolding direction_between
direction-rises (pos (suc n)) b u v l h = ground arith
direction-rises (pos zero) (pos zero) u v l h = cc
direction-rises (pos zero) (pos (suc n)) u v l h = cc
direction-rises (pos zero) (negsuc n) u v l h = cc
direction-rises (negsuc m) (pos n) u v l h = cc
direction-rises (negsuc m) (negsuc n) u v l h = cc

direction-falls : (a b : ℤ) (u v : ℕ) → sub_ℕ v u ≤ℤ b → direction_between a b ≡ decreased → v < u
unfolding direction_between
direction-falls (pos (suc n)) b u v l h = cc
direction-falls (pos zero) (pos zero) u v l h = cc
direction-falls (pos zero) (pos (suc n)) u v l h = cc
direction-falls (pos zero) (negsuc n) u v l h = ground arith
direction-falls (negsuc m) (pos n) u v l h = cc
direction-falls (negsuc m) (negsuc n) u v l h = ground arith

direction-stays :
    (a b : ℤ) (u v : ℕ)
    → a ≤ℤ sub_ℕ v u
    → sub_ℕ v u ≤ℤ b
    → direction_between a b ≡ unchanged
    → u ≡ v
unfolding direction_between
direction-stays (pos (suc n)) b u v l k h = cc
direction-stays (pos zero) (pos zero) u v l k h = ground arith
direction-stays (pos zero) (pos (suc n)) u v l k h = cc
direction-stays (pos zero) (negsuc n) u v l k h = cc
direction-stays (negsuc m) (pos n) u v l k h = cc
direction-stays (negsuc m) (negsuc n) u v l k h = cc

pub mover_of-IsTrue :
    (x y : Sketch) (wx wy : ℕ → ℕ) (k : ℕ)
    → BoundsWeights x wx
    → BoundsWeights y wy
    → IsTrue (wx k) (wy k) (mover_of x y k)
unfolding mover_of change direction_of
mover_of-IsTrue x y wx wy k bx by_y =
    let a = bx.above k in
    let b = bx.below k in
    let c = by_y.above k in
    let d = by_y.below k in
    let l : sub_ℕ (y.lower k) (x.upper k) ≤ℤ sub_ℕ (wy k) (wx k) = ground arith in
    let m : sub_ℕ (wy k) (wx k) ≤ℤ sub_ℕ (y.upper k) (x.lower k) = ground arith in
    record {
      least = l;
      most = m;
      rises = direction-rises _ _ (wx k) (wy k) l;
      falls = direction-falls _ _ (wx k) (wy k) m;
      stays = direction-stays _ _ (wx k) (wy k) l m;
    }
