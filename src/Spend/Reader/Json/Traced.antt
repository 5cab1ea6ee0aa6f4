-- ===== src/Spend/Reader/Json/Traced.antt =====
-- internal/spend/reader.go: what the counters of `preflightSpendJSON` count, told from the bytes alone.
use fleetdiff.Base.{
  ℕ, zero, suc, ◌+◌, ◌*◌, ◌≤◌, ◌≡◌, Bool, true, ◌||◌, List, [], ◌∷◌, ◌==◌, if◌then◌else◌, length,
  Result, ok, err, All,
}
use fleetdiff.Text.{Text}
use fleetdiff.Spend.Reader.Json.{
  Mode, between, in_string, Scan, step, max_depth, max_field, json_space,
}
use fleetdiff.Spend.Reader.Json.Bounded.{IsFew}

-- The bytes read so far outside strings, the quotes around these included, the last first; and how many bytes of the
-- string at hand have been read.
pub record Trace : Type 0 where
  pub outside : Text
  pub inside : ℕ

unfoldable pub trace_byte : Mode → ℕ → Trace → Trace
trace_byte (between run) c t = record { outside = c ∷ t.outside; inside = 0 }
trace_byte (in_string zero size) c t =
    if c == b'"'
    then record { outside = c ∷ t.outside; inside = 0 }
    else record t { inside = t.inside + 1 }
trace_byte (in_string (suc k) size) c t = record t { inside = t.inside + 1 }

abbrev after_close : List ℕ → List ℕ
after_close [] = []
after_close (k ∷ st) = st

abbrev one_member : List ℕ → List ℕ
one_member [] = []
one_member (k ∷ st) = (k + 1) ∷ st

-- The objects and arrays that are open after some bytes outside strings, the innermost first, each with its colons.
unfoldable pub members_of : Text → List ℕ
members_of [] = []
members_of (c ∷ s) =
    let before = members_of s in
    if c == b'{' || c == b'['
    then 0 ∷ before
    else if c == b'}' || c == b']'
    then after_close before
    else if c == b':'
    then one_member before
    else before

abbrev ends_token : ℕ → Bool
ends_token c =
    if c == b'{' || c == b'['
    then true
    else if c == b'}' || c == b']'
    then true
    else if c == b':'
    then true
    else if c == b'"'
    then true
    else json_space c || c == b','

-- The length of the token that the bytes end in.
unfoldable pub run_of : Text → ℕ
unfolding json_space
run_of [] = 0
run_of (c ∷ s) = let before = run_of s in if ends_token c then 0 else before + 1

-- What is read of a string is at most six bytes for each that counts, those of the current rune that are left included.
abbrev IsRead : Mode → Trace → Type 0
IsRead (between run) t = run ≡ run_of t.outside
IsRead (in_string left size) t = (t.inside + left ≤ 6 * size) × (run_of t.outside ≡ 0)

record IsTraced (z : Scan) (t : Trace) : Type 0 where
  open_objects : z.open_members ≡ members_of t.outside
  read : IsRead z.mode t

abbrev Traces : Trace → Result Scan → Type 0
Traces t m = (y : Scan) → m ≡ ok y → IsTraced y t

-- The states that a scan goes through, each with what has been read.
abbrev continued : Result Scan → (Scan → List (Scan × Trace)) → List (Scan × Trace)
continued (err e) next = []
continued (ok y) next = next y

unfoldable pub traced : ℕ → Scan → Trace → Text → List (Scan × Trace)
traced outer z t [] = (z, t) ∷ []
traced outer z t (c ∷ s) =
    (z, t)
    ∷ continued (step outer z.mode z.open_members c s)
        (λ y. traced outer y (trace_byte z.mode c t) s)

-- The string at hand has not been read for more than six times its limit.
abbrev IsShortString : Mode → ℕ → Type 0
IsShortString (between run) n = Unit
IsShortString (in_string left size) n = n ≤ 6 * max_field

-- The limits, of what has been read.
pub record IsBounded (outer : ℕ) (z : Scan × Trace) : Type 0 where
  pub deep : outer + length (members_of z.1.outside) ≤ max_depth
  pub few : All IsFew (members_of z.1.outside)
  pub short_token : run_of z.1.outside ≤ max_field
  pub short_string : IsShortString z.0.mode z.1.inside

abbrev pub nothing_read : Trace
nothing_read = record { outside = []; inside = 0 }
