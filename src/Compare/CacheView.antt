-- ===== src/Compare/CacheView.antt =====
-- internal/compare/cache_view.go: `CacheDetail`, `CacheWindow`, `SetTotals` and `CompleteRead`. The
-- fields that only the summary view fills (`Issue`, `IssueCounts`, `RecordedTokens`) are left out.
use fleetdiff.Base.{ℕ, Bool, true, false, ◌&&◌, Option, none, some, ◌==◌, if◌then◌else◌, ltb}

-- A share is the quotient of two `float64` conversions; its two operands stand for it.
pub record CacheShare : Type 0 where
  pub part : ℕ
  pub whole : ℕ

pub record CacheDetail : Type 0 where
  pub coverage_known : Bool
  pub reported_requests : ℕ
  pub covered : Option ℕ
  pub missing_detail : Option ℕ
  pub invalid_detail : Option ℕ
  pub zero_origin_unknown : Option ℕ
  pub input_tokens : Option ℕ
  pub tokens : Option ℕ
  pub share : Option CacheShare

pub record CacheWindow : Type 0 where
  pub requests : ℕ
  pub read : CacheDetail
  pub write : CacheDetail
  pub uncached : Option ℕ
  pub missing_identity : ℕ

unfoldable pub set_totals : CacheDetail → ℕ → ℕ → CacheDetail
set_totals d input n = record d {
  input_tokens = some input;
  tokens = some n;
  share = if input == 0 then d.share else some (record { part = n; whole = input });
}

abbrev pub is_some {ℓ} : {A : Type ℓ} → Option A → Bool
is_some none = false
is_some (some a) = true

abbrev equals : Option ℕ → ℕ → Bool
equals none n = false
equals (some m) n = m == n

unfoldable pub complete_read : CacheWindow → Bool
complete_read w =
    ltb 0 w.requests
    && equals w.read.covered w.requests
    && is_some w.uncached
    && is_some w.read.share
