-- ===== src/Spend/Reader/Json/Bounded.antt =====
-- internal/spend/reader.go: the counters of `preflightSpendJSON` stay within their limits.
use fleetdiff.Base.{
  ℕ, zero, suc, ◌+◌, ◌≤◌, ◌≡◌, Bool, true, false, ◌||◌, List, [], ◌∷◌, ltb, ◌==◌, if◌then◌else◌,
  length, Result, ok, err, ◌>>=◌, >>=-eq-ok, ok-injective, Error, refl, arith, All, subst, too_deep,
  too_many_fields, field_too_long,
}
use fleetdiff.Text.{Text}
use fleetdiff.Spend.Reader.Json.{
  Mode, between, in_string, Scan, step, max_depth, max_fields, max_field, grow, close_one,
  count_member, open_one, token_byte, string_rune, json_space,
}

abbrev pub IsFew : ℕ → Type 0
IsFew k = k ≤ max_fields

abbrev pub counted : Mode → ℕ
counted (between run) = run
counted (in_string left size) = size

-- The depth is within the array of counters, every counter and the length of the token at hand within their
-- limits.
pub record IsWithin (outer : ℕ) (z : Scan) : Type 0 where
  pub deep : outer + length z.open_members ≤ max_depth
  pub few : All IsFew z.open_members
  pub short : counted z.mode ≤ max_field

abbrev pub Keeps : ℕ → Result Scan → Type 0
Keeps outer m = (z : Scan) → m ≡ ok z → IsWithin outer z

not_refused :
    {z y : Scan} (c : Bool) (e : Error) → (if c then err e else ok z) ≡ ok y → (c ≡ false) × (z ≡ y)
not_refused true e h = cc
not_refused false e h = (refl, ok-injective h)

made :
    (outer : ℕ) (m : Mode) (st : List ℕ)
    → outer + length st ≤ max_depth
    → All IsFew st
    → counted m ≤ max_field
    → Keeps outer (ok (record { mode = m; open_members = st }))
made outer m st d f s y e =
    subst (IsWithin outer) (ok-injective e) (record { deep = d; few = f; short = s })

if-Keeps :
    (outer : ℕ) (c : Bool) (a b : Result Scan)
    → Keeps outer a
    → Keeps outer b
    → Keeps outer (if c then a else b)
if-Keeps outer true a b f g = f
if-Keeps outer false a b f g = g

grow-Keeps :
    (outer size : ℕ) (st : List ℕ) (p : ℕ × ℕ)
    → outer + length st ≤ max_depth
    → All IsFew st
    → Keeps outer (grow size st p)
unfolding grow
grow-Keeps outer size st (n, w) d f y h =
    let (c, e) = not_refused (ltb max_field (size + w)) field_too_long h in
    subst (IsWithin outer) e (record { deep = d; few = f; short = ground arith })

close_one-Keeps :
    (outer : ℕ) (st : List ℕ)
    → outer + length st ≤ max_depth
    → All IsFew st
    → Keeps outer (close_one st)
unfolding close_one
close_one-Keeps outer [] d f y h = cc
close_one-Keeps outer (k ∷ st) d f y h =
    made outer (between 0) st (omega arith) f.1 (omega arith) y h

count_member-Keeps :
    (outer : ℕ) (st : List ℕ)
    → outer + length st ≤ max_depth
    → All IsFew st
    → Keeps outer (count_member st)
unfolding count_member
count_member-Keeps outer [] d f y h = cc
count_member-Keeps outer (k ∷ st) d f y h =
    let (c, e) = not_refused (ltb max_fields (k + 1)) too_many_fields h in
    subst (IsWithin outer) e
      (record { deep = omega arith; few = (ground arith, f.1); short = omega arith })

open_one-Keeps :
    (outer : ℕ) (st : List ℕ)
    → outer + length st ≤ max_depth
    → All IsFew st
    → Keeps outer (open_one outer st)
unfolding open_one
open_one-Keeps outer st d f y h =
    let (c, e) = not_refused (outer + length st == max_depth) too_deep h in
    subst (IsWithin outer) e
      (record { deep = ground arith; few = (omega arith, f); short = omega arith })

token_byte-Keeps :
    (outer run : ℕ) (st : List ℕ)
    → outer + length st ≤ max_depth
    → All IsFew st
    → Keeps outer (token_byte run st)
unfolding token_byte
token_byte-Keeps outer run st d f y h =
    let (c, e) = not_refused (ltb max_field (run + 1)) field_too_long h in
    subst (IsWithin outer) e (record { deep = d; few = f; short = ground arith })

string_byte-Keeps :
    (outer size c : ℕ) (st : List ℕ) (s : Text)
    → outer + length st ≤ max_depth
    → All IsFew st
    → Keeps outer (string_rune c s >>= grow size st)
string_byte-Keeps outer size c st s d f y h =
    let (p, r, g) = >>=-eq-ok (string_rune c s) (grow size st) h in
    grow-Keeps outer size st p d f y g

pub step-Keeps :
    (outer : ℕ) (m : Mode) (st : List ℕ) (c : ℕ) (s : Text)
    → outer + length st ≤ max_depth
    → All IsFew st
    → counted m ≤ max_field
    → Keeps outer (step outer m st c s)
unfolding step
step-Keeps outer (in_string (suc k) size) st c s d f b = made outer (in_string k size) st d f b
step-Keeps outer (in_string zero size) st c s d f b =
    if-Keeps outer (c == b'"') _ _ (made outer (between 0) st d f (omega arith))
      (string_byte-Keeps outer size c st s d f)
step-Keeps outer (between run) st c s d f b =
    if-Keeps outer (c == b'{' || c == b'[') _ _ (open_one-Keeps outer st d f) (
      if-Keeps outer (c == b'}' || c == b']') _ _ (close_one-Keeps outer st d f) (
        if-Keeps outer (c == b':') _ _ (count_member-Keeps outer st d f) (
          if-Keeps outer (c == b'"') _ _ (made outer (in_string 0 0) st d f (omega arith)) (
            if-Keeps outer (json_space c || c == b',') _ _
              (made outer (between 0) st d f (omega arith)) (token_byte-Keeps outer run st d f)))))
