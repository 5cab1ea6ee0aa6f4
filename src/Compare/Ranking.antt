-- ===== src/Compare/Ranking.antt =====
-- internal/compare/compare.go: `RankCandidates` and `RankChanges`. A sketch of frequent items is a record of what the
-- sketch library answers; its weights are not negative.
pub mod Sound
pub mod Ranked
use fleetdiff.Base.{
  ℕ, zero, suc, ◌+◌, ◌-◌, Bool, true, false, ◌&&◌, ◌||◌, Option, none, some, List, [], ◌∷◌, ◌++◌,
  ltb, ◌==◌, if◌then◌else◌, length, take, map, sort, max, Result, ok, err, ◌>>=◌, ranking_options,
  ranking_sketches, ℤ, pos, negsuc, sub_ℕ,
}
use fleetdiff.Text.{Text, codes}
use fleetdiff.Text.Digits.{show}

pub record Sketch : Type 0 where
  -- the hashes that `FrequentItems(NoFalseNegatives)` returns, unless it fails
  pub frequent : Option (List ℕ)
  pub lower : ℕ → ℕ
  pub upper : ℕ → ℕ
  pub total_weight : ℕ
  pub max_error : ℕ

-- The weight of an item in one window, and its change; both ends are included.
pub record Bounds : Type 0 where
  pub least : ℕ
  pub most : ℕ

pub record Interval : Type 0 where
  pub from : ℤ
  pub to : ℤ

pub data Direction : Type 0 where
  increased decreased unchanged uncertain : Direction

pub record Mover : Type 0 where
  pub item : Text
  pub hash : Option ℕ
  pub before : Bounds
  pub after : Bounds
  pub delta : Interval
  pub direction : Direction

pub record Concentration : Type 0 where
  pub name : Text
  pub weight_unit : Text
  pub before_weight : ℕ
  pub after_weight : ℕ
  pub before_max_error : ℕ
  pub after_max_error : ℕ
  pub candidate_count : ℕ
  pub untracked_delta : Interval
  pub movers : List Mover

unfoldable pub add_key : List ℕ → ℕ → List ℕ
add_key [] k = k ∷ []
add_key (j ∷ js) k = let rest = add_key js k in if j == k then j ∷ js else j ∷ rest

-- `candidates`: the keys of the items of both windows, each once; the map has no order of its own.
unfoldable pub add_keys : List ℕ → List ℕ → List ℕ
unfolding add_key
add_keys keys [] = keys
add_keys keys (k ∷ ks) = add_keys (add_key keys k) ks

-- The weights are not negative, so that the difference of two ends is an `int64`.
unfoldable pub change : Bounds → Bounds → Interval
change prior next = record { from = sub_ℕ next.least prior.most; to = sub_ℕ next.most prior.least }

unfoldable pub direction_between : ℤ → ℤ → Direction
direction_between (pos (suc n)) b = increased
direction_between a (negsuc n) = decreased
direction_between (pos zero) (pos zero) = unchanged
direction_between a b = uncertain

unfoldable pub direction_of : Interval → Direction
unfolding direction_between
direction_of d = direction_between d.from d.to

unfoldable pub mover_of : Sketch → Sketch → ℕ → Mover
unfolding change direction_of
mover_of x y k =
    let prior : Bounds = record { least = x.lower k; most = x.upper k } in
    let next : Bounds = record { least = y.lower k; most = y.upper k } in
    record {
      item = [];
      hash = none;
      before = prior;
      after = next;
      delta = change prior next;
      direction = direction_of (change prior next);
    }

unfoldable pub abs : ℤ → ℕ
abs (pos n) = n
abs (negsuc n) = suc n

unfoldable pub strength : Mover → ℕ
unfolding abs
strength m = max (abs m.delta.from) (abs m.delta.to)

-- The stronger change first, and of equally strong ones the smaller key.
unfoldable pub stronger : ℕ × Mover → ℕ × Mover → Bool
unfolding strength
stronger (j, a) (k, b) = ltb (strength b) (strength a) || (strength a == strength b && ltb j k)

unfoldable pub candidates : Sketch → Sketch → List ℕ → List (ℕ × Mover)
unfolding mover_of
candidates x y [] = []
candidates x y (k ∷ ks) = (k, mover_of x y k) ∷ candidates x y ks

-- The aliases of the report, from 1, and the hashes.
unfoldable pub numbered : ℕ → List (ℕ × Mover) → List Mover
unfolding show
numbered n [] = []
numbered n ((k, m) ∷ ms) =
    record m { item = codes "item-" ++ show n; hash = some k } ∷ numbered (suc n) ms

unfoldable pub queried : Option (List ℕ) → Result (List ℕ)
queried none = err ranking_sketches
queried (some ks) = ok ks

unit_or_configured : Option Text → Text
unit_or_configured none = codes "configured-weight"
unit_or_configured (some u) = u

unfoldable pub negated : ℕ → ℤ
negated n = sub_ℕ 0 n

-- `topKUnits[name]` is an argument.
module _ (unit_of : Text → Option Text) where
  unfoldable pub concentration_of : Text → Sketch → Sketch → List (ℕ × Mover) → Concentration
  unfolding numbered unit_or_configured negated
  concentration_of n x y items = record {
    name = n;
    weight_unit = unit_or_configured (unit_of n);
    before_weight = x.total_weight;
    after_weight = y.total_weight;
    before_max_error = x.max_error;
    after_max_error = y.max_error;
    candidate_count = length items;
    untracked_delta = record { from = negated x.max_error; to = pos y.max_error };
    movers = numbered 1 items;
  }

  -- `RankCandidates`; a sketch may be nil.
  unfoldable pub rank_candidates : Text → Option Sketch → Option Sketch → Result Concentration
  unfolding queried sort stronger candidates add_keys concentration_of
  rank_candidates n (some x) (some y) = queried x.frequent >>= λ left.
      queried y.frequent >>= λ right.
      ok (
        concentration_of n x y (sort stronger (candidates x y (add_keys (add_keys [] left) right))))
  rank_candidates n _ _ = err ranking_sketches

  hide_hash : Mover → Mover
  hide_hash m = record m { hash = none }

  cut_movers : ℕ → Bool → Concentration → Concentration
  unfolding hide_hash
  cut_movers top hashes c =
      let shown = take top c.movers in
      record c { movers = if hashes then shown else map hide_hash shown }

  is_nil : Option Sketch → Bool
  is_nil none = true
  is_nil (some x) = false

  -- `RankChanges`
  unfoldable pub rank_changes :
      Text → Option Sketch → Option Sketch → ℕ → Bool → Result Concentration
  unfolding rank_candidates cut_movers is_nil
  rank_changes n x y top hashes =
      if ltb top 1 || ltb 100 top || is_nil x || is_nil y
      then err ranking_options
      else rank_candidates n x y >>= λ c. ok (cut_movers top hashes c)
