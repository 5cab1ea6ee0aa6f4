-- ===== src/Spend/Reader/Json.antt =====
-- internal/spend/reader.go: `preflightSpendJSON` and `spendJSONStringEnd`, as one pass over the bytes of a
-- record that remembers where it is.
pub mod Bounded
pub mod Runes
pub mod Traced
use fleetdiff.Base.{
  ℕ, zero, suc, ◌+◌, ◌-◌, ◌*◌, ◌≤◌, Bool, true, false, ◌&&◌, ◌||◌, not, Option, none, some, List,
  [], ◌∷◌, ltb, leb, ◌==◌, if◌then◌else◌, length, Result, ok, err, ◌>>=◌, bad_json, bad_utf8,
  too_deep, too_many_fields, field_too_long, ◌≡◌, refl, arith, >>=-eq-ok, ok-injective, All,
}
use fleetdiff.Text.{Text}
use fleetdiff.Text.Utf8.{valid_utf8}

abbrev pub max_depth : ℕ
max_depth = 8

abbrev pub max_fields : ℕ
max_fields = 64

abbrev pub max_field : ℕ
max_field = 8192

unfoldable pub json_space : ℕ → Bool
json_space c = c == b' ' || c == 9 || c == 13 || c == 10

-- `utf8.DecodeRune` at a byte of valid UTF-8: how many bytes it takes, and the length of its encoding. A
-- continuation byte, which is met after a backslash, decodes to the replacement character of three bytes.
rune_at : ℕ → ℕ × ℕ
rune_at c =
    if ltb c 0x80
    then (1, 1)
    else if ltb c 0xc0
    then (1, 3)
    else if ltb c 0xe0
    then (2, 2)
    else if ltb c 0xf0
    then (3, 3)
    else (4, 4)

-- `utf8.RuneLen`
rune_len : ℕ → ℕ
rune_len r = if ltb r 0x80 then 1 else if ltb r 0x800 then 2 else if ltb r 0x10000 then 3 else 4

hex_digit : ℕ → Option ℕ
hex_digit c =
    if leb b'0' c && leb c b'9'
    then some (c - b'0')
    else if leb b'a' c && leb c b'f'
    then some (c - b'a' + 10)
    else if leb b'A' c && leb c b'F'
    then some (c - b'A' + 10)
    else none

option_add : ℕ → Option ℕ → Option ℕ
option_add n (some d) = some (n + d)
option_add n none = none

next_digit : Option ℕ → ℕ → Option ℕ
unfolding option_add hex_digit
next_digit (some n) c = option_add (n * 16) (hex_digit c)
next_digit none c = none

-- `strconv.ParseUint(s[0:4], 16, 16)`
hex : ℕ → ℕ → ℕ → ℕ → Option ℕ
unfolding next_digit
hex a b c d = next_digit (next_digit (next_digit (next_digit (some 0) a) b) c) d

is_low : Option ℕ → Bool
is_low none = false
is_low (some v) = leb 0xdc00 v && leb v 0xdfff

-- The second half of a surrogate pair.
low_follows : Text → Bool
unfolding hex is_low
low_follows (x ∷ y ∷ a ∷ b ∷ c ∷ d ∷ s) = x == 92 && y == b'u' && is_low (hex a b c d)
low_follows _ = false

-- The code point of an escape, with the bytes after the backslash that it takes.
escaped : Option ℕ → Text → Result (ℕ × ℕ)
unfolding low_follows rune_len
escaped none s = err bad_json
escaped (some u) s =
    if not (leb 0xd800 u && leb u 0xdfff)
    then ok (5, rune_len u)
    else if leb u 0xdbff && low_follows s
    then ok (11, 4)
    else err bad_utf8

unicode_escape : Text → Result (ℕ × ℕ)
unfolding escaped hex
unicode_escape (a ∷ b ∷ c ∷ d ∷ s) = escaped (hex a b c d) s
unicode_escape _ = err bad_json

after_backslash : Text → Result (ℕ × ℕ)
unfolding unicode_escape rune_len
after_backslash [] = err bad_json
after_backslash (c ∷ s) = if c == b'u' then unicode_escape s else ok (1, rune_len c)

with_backslash : ℕ × ℕ → ℕ × ℕ
with_backslash (n, w) = (n + 1, w)

-- The rune or the escape at a byte of a string: the bytes it takes and the bytes it counts for.
unfoldable pub string_rune : ℕ → Text → Result (ℕ × ℕ)
unfolding after_backslash with_backslash rune_at
string_rune c s =
    if c == 92 then (after_backslash s >>= λ p. ok (with_backslash p)) else ok (rune_at c)

-- Where the pass is: outside strings, in a token of so many bytes; or in a string, with the bytes of the current
-- rune that are left and the size so far.
pub data Mode : Type 0 where
  between : ℕ → Mode
  in_string : ℕ → ℕ → Mode

-- `fields[outerDepth:depth]`, the innermost first: the number of members of each open object or array.
pub record Scan : Type 0 where
  pub mode : Mode
  pub open_members : List ℕ

-- `size += utf8.RuneLen(r)` with its check, and `i += n`.
unfoldable pub grow : ℕ → List ℕ → ℕ × ℕ → Result Scan
grow size st (n, w) =
    if ltb max_field (size + w)
    then err field_too_long
    else ok (record { mode = in_string (n - 1) (size + w); open_members = st })

unfoldable pub close_one : List ℕ → Result Scan
close_one [] = err bad_json
close_one (k ∷ st) = ok (record { mode = between 0; open_members = st })

unfoldable pub count_member : List ℕ → Result Scan
count_member [] = err bad_json
count_member (k ∷ st) =
    if ltb max_fields (k + 1)
    then err too_many_fields
    else ok (record { mode = between 0; open_members = (k + 1) ∷ st })

unfoldable pub open_one : ℕ → List ℕ → Result Scan
open_one outer st =
    if outer + length st == max_depth
    then err too_deep
    else ok (record { mode = between 0; open_members = 0 ∷ st })

unfoldable pub token_byte : ℕ → List ℕ → Result Scan
token_byte run st =
    if ltb max_field (run + 1)
    then err field_too_long
    else ok (record { mode = between (run + 1); open_members = st })

unfoldable pub step : ℕ → Mode → List ℕ → ℕ → Text → Result Scan
unfolding grow close_one count_member open_one token_byte string_rune
step outer (in_string (suc k) size) st c s =
    ok (record { mode = in_string k size; open_members = st })
step outer (in_string zero size) st c s =
    if c == b'"'
    then ok (record { mode = between 0; open_members = st })
    else (string_rune c s >>= grow size st)
step outer (between run) st c s =
    if c == b'{' || c == b'['
    then open_one outer st
    else if c == b'}' || c == b']'
    then close_one st
    else if c == b':'
    then count_member st
    else if c == b'"'
    then ok (record { mode = in_string 0 0; open_members = st })
    else if json_space c || c == b','
    then ok (record { mode = between 0; open_members = st })
    else token_byte run st

-- A record may not end in a string.
finish : Mode → Result (Unit {0})
finish (between run) = ok tt
finish (in_string k size) = err bad_json

unfoldable pub scan : ℕ → Scan → Text → Result (Unit {0})
unfolding finish
scan outer z [] = finish z.mode
scan outer z (c ∷ s) = step outer z.mode z.open_members c s >>= λ y. scan outer y s

unfoldable pub start : Scan
start = record { mode = between 0; open_members = [] }

unfoldable pub preflight_json : Text → ℕ → Result (Unit {0})
preflight_json bytes outer = if valid_utf8 bytes then scan outer start bytes else err bad_utf8
