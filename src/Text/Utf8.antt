-- ===== src/Text/Utf8.antt =====
-- `utf8.ValidString` and `strings.TrimSpace(s) == ""`.
use mathlib.Core.List.{reverse}
use fleetdiff.Base.{
  ℕ, ◌+◌, ◌-◌, ◌*◌, ◌%◌, ◌≡◌, refl, Bool, true, false, ◌&&◌, ◌||◌, not, Option, none, some, List,
  [], ◌∷◌, length, drop, zero, suc, ltb, leb, ◌==◌, if◌then◌else◌,
}

-- Inside a rune: the bytes still wanted, the range of the next one and the bits so far.
record Decoder : Type 0 where
  need : ℕ
  low : ℕ
  high : ℕ
  bits : ℕ

abbrev wait : ℕ → ℕ → ℕ → ℕ → Option Decoder
wait n lo hi b = some (record { need = n; low = lo; high = hi; bits = b })

-- A first byte. What follows 0xe0, 0xed, 0xf0 and 0xf4 is narrowed, which excludes overlong
-- encodings, surrogates and values past 0x10ffff.
lead : ℕ → Option Decoder
lead c =
    if ltb c 0x80
    then wait 0 0 0 c
    else if ltb c 0xc2
    then none
    else if ltb c 0xe0
    then wait 1 0x80 0xbf (c - 0xc0)
    else if c == 0xe0
    then wait 2 0xa0 0xbf 0
    else if c == 0xed
    then wait 2 0x80 0x9f 13
    else if ltb c 0xf0
    then wait 2 0x80 0xbf (c - 0xe0)
    else if c == 0xf0
    then wait 3 0x90 0xbf 0
    else if ltb c 0xf4
    then wait 3 0x80 0xbf (c - 0xf0)
    else if c == 0xf4
    then wait 3 0x80 0x8f 4
    else none

next_byte : Decoder → ℕ → Option Decoder
unfolding lead
next_byte d c =
    if d.need == 0
    then lead c
    else if leb d.low c && leb c d.high
    then wait (d.need - 1) 0x80 0xbf (d.bits * 64 + c % 64)
    else none

-- Every rune passes the test, and the text ends with its last rune.
runes_pass : (ℕ → Bool) → Option Decoder → List ℕ → Bool
unfolding next_byte
runes_pass p none s = false
runes_pass p (some d) [] = d.need == 0
runes_pass p (some d) (c ∷ s) = elim (next_byte d c) [
  | none ↦ false
  | some e ↦ (if e.need == 0 then p e.bits else true) && runes_pass p (some e) s
]

abbrev start : Option Decoder
start = wait 0 0 0 0

unfoldable pub valid_utf8 : List ℕ → Bool
unfolding runes_pass
valid_utf8 s = runes_pass (λ _. true) start s

-- `unicode.IsSpace`
is_space : ℕ → Bool
is_space r =
    (leb 9 r && leb r 13)
    || r == 0x20
    || r == 0x85
    || r == 0xa0
    || r == 0x1680
    || (leb 0x2000 r && leb r 0x200a)
    || r == 0x2028
    || r == 0x2029
    || r == 0x202f
    || r == 0x205f
    || r == 0x3000

-- An invalid byte is no space, so only a valid text can be blank.
unfoldable pub is_blank : List ℕ → Bool
unfolding runes_pass is_space
is_blank s = runes_pass is_space start s

-- How many bytes the space takes with which a valid text begins: 0 if it begins with none.
one_byte_space : ℕ → Bool
one_byte_space a = (leb 9 a && leb a 13) || a == 0x20

two_byte_space : ℕ → ℕ → Bool
two_byte_space a b = a == 0xc2 && (b == 0x85 || b == 0xa0)

three_byte_space : ℕ → ℕ → ℕ → Bool
three_byte_space a b c =
    (a == 0xe1 && b == 0x9a && c == 0x80)
    || (a == 0xe2
        && b == 0x80
        && ((leb 0x80 c && leb c 0x8a) || c == 0xa8 || c == 0xa9 || c == 0xaf))
    || (a == 0xe2 && b == 0x81 && c == 0x9f)
    || (a == 0xe3 && b == 0x80 && c == 0x80)

first_space : List ℕ → ℕ
unfolding one_byte_space two_byte_space three_byte_space
first_space [] = 0
first_space (a ∷ []) = if one_byte_space a then 1 else 0
first_space (a ∷ b ∷ []) = if one_byte_space a then 1 else if two_byte_space a b then 2 else 0
first_space (a ∷ b ∷ c ∷ s) =
    if one_byte_space a
    then 1
    else if two_byte_space a b
    then 2
    else if three_byte_space a b c
    then 3
    else 0

-- The same at the end, over the reversed text.
last_space : List ℕ → ℕ
unfolding one_byte_space two_byte_space three_byte_space
last_space [] = 0
last_space (a ∷ []) = if one_byte_space a then 1 else 0
last_space (a ∷ b ∷ []) = if one_byte_space a then 1 else if two_byte_space b a then 2 else 0
last_space (a ∷ b ∷ c ∷ s) =
    if one_byte_space a
    then 1
    else if two_byte_space b a
    then 2
    else if three_byte_space c b a
    then 3
    else 0

-- Each round drops a byte at least, so the length is fuel enough.
drop_spaces : (List ℕ → ℕ) → ℕ → List ℕ → List ℕ
drop_spaces width zero s = s
drop_spaces width (suc f) s =
    let rest = drop_spaces width f (drop (width s) s) in if width s == 0 then s else rest

-- `strings.TrimSpace`, of a valid text.
unfoldable pub trim : List ℕ → List ℕ
unfolding drop_spaces first_space last_space
trim s =
    let front = drop_spaces first_space (length s) s in
    reverse (drop_spaces last_space (length front) (reverse front))

trim_both :
    trim (0x20 ∷ 0xc2 ∷ 0xa0 ∷ b'a' ∷ 0x20 ∷ b'b' ∷ 0xe3 ∷ 0x80 ∷ 0x80 ∷ 9 ∷ [])
    ≡ b'a' ∷ 0x20 ∷ b'b' ∷ []
unfolding trim
trim_both = refl

blank_narrow : is_blank (0x20 ∷ 0xc2 ∷ 0xa0 ∷ 0xe2 ∷ 0x80 ∷ 0xaf ∷ []) ≡ true
unfolding is_blank
blank_narrow = refl

surrogate_invalid : valid_utf8 (0xed ∷ 0xa0 ∷ 0x80 ∷ []) ≡ false
unfolding valid_utf8
surrogate_invalid = refl

-- `unicode.IsControl`
is_control : ℕ → Bool
is_control r = ltb r 0x20 || (leb 0x7f r && leb r 0x9f)

-- `!strings.ContainsFunc(s, unicode.IsControl)`, of a valid text.
unfoldable pub no_control : List ℕ → Bool
unfolding runes_pass is_control
no_control s = runes_pass (λ r. not (is_control r)) start s
