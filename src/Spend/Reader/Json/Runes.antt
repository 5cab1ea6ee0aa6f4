-- ===== src/Spend/Reader/Json/Runes.antt =====
-- internal/spend/reader.go: how many bytes a rune of a string takes, and how many it counts for.
use fleetdiff.Base.{
  ℕ, ◌+◌, ◌*◌, ◌≤◌, ◌≡◌, subst, ◌&&◌, [], ◌∷◌, not, leb, ◌==◌, ok, >>=-eq-ok, ok-injective, arith,
  if-cases, err-ne-ok, Option, none, some,
}
use fleetdiff.Text.{Text}
use fleetdiff.Spend.Reader.Json.{
  string_rune, rune_at, rune_len, after_backslash, unicode_escape, escaped, with_backslash, hex,
  low_follows,
}

-- A rune takes at most six times the bytes that it counts for.
abbrev pub IsRune : ℕ × ℕ → Type 0
IsRune (n, w) = (1 ≤ n) × (n ≤ 6 * w)

rune_at-IsRune : (c : ℕ) → IsRune (rune_at c)
unfolding rune_at
rune_at-IsRune c = ground arith

rune_len-pos : (r : ℕ) → 1 ≤ rune_len r
unfolding rune_len
rune_len-pos r = ground arith

-- An escape, without its backslash.
abbrev IsEscape : ℕ × ℕ → Type 0
IsEscape (n, w) = n + 1 ≤ 6 * w

IsEscape-ok : (p : ℕ × ℕ) {q : ℕ × ℕ} → IsEscape p → ok p ≡ ok q → IsEscape q
IsEscape-ok p i h = subst IsEscape (ok-injective h) i

escaped-IsEscape : (o : Option ℕ) (s : Text) {p : ℕ × ℕ} → escaped o s ≡ ok p → IsEscape p
unfolding escaped
escaped-IsEscape none s h = err-ne-ok h
escaped-IsEscape (some u) s h =
    if-cases (not (leb 0xd800 u && leb u 0xdfff)) _ _
      (λ c g. IsEscape-ok (5, rune_len u) (omega (arith, rune_len-pos u)) g)
      (λ c g.
        if-cases (leb u 0xdbff && low_follows s) _ _ (λ d k. IsEscape-ok (11, 4) (omega arith) k)
          (λ d k. err-ne-ok k) g)
      h

unicode_escape-IsEscape : (s : Text) {p : ℕ × ℕ} → unicode_escape s ≡ ok p → IsEscape p
unfolding unicode_escape
unicode_escape-IsEscape (a ∷ b ∷ c ∷ d ∷ s) h = escaped-IsEscape (hex a b c d) s h
unicode_escape-IsEscape [] h = err-ne-ok h
unicode_escape-IsEscape (a ∷ []) h = err-ne-ok h
unicode_escape-IsEscape (a ∷ b ∷ []) h = err-ne-ok h
unicode_escape-IsEscape (a ∷ b ∷ c ∷ []) h = err-ne-ok h

after_backslash-IsEscape : (s : Text) {p : ℕ × ℕ} → after_backslash s ≡ ok p → IsEscape p
unfolding after_backslash
after_backslash-IsEscape [] h = err-ne-ok h
after_backslash-IsEscape (c ∷ s) h =
    if-cases (c == b'u') _ _ (λ e g. unicode_escape-IsEscape s g)
      (λ e g. IsEscape-ok (1, rune_len c) (omega (arith, rune_len-pos c)) g) h

pub string_rune-IsRune : (c : ℕ) (s : Text) {p : ℕ × ℕ} → string_rune c s ≡ ok p → IsRune p
unfolding string_rune with_backslash
string_rune-IsRune c s h =
    if-cases (c == 92) _ _
      (λ e g.
        let (q, a, b) = >>=-eq-ok (after_backslash s) _ g in
        let i = after_backslash-IsEscape s a in
        subst IsRune (ok-injective b) (omega arith, omega (arith, i)))
      (λ e g. subst IsRune (ok-injective g) (rune_at-IsRune c)) h
