-- ===== src/Spend/Reader/Csv.antt =====
-- internal/spend/reader.go: `preflightSpendCSV`.
use fleetdiff.Base.{
  ℕ, ◌+◌, ◌-◌, ◌≤◌, Bool, true, false, ◌&&◌, ◌||◌, not, List, [], ◌∷◌, ltb, ◌==◌, if◌then◌else◌,
  flag, length, Bool-cases, inl, inr, ◌↔◌, Result, ok, err, ◌>>=◌, too_many_fields, field_too_long,
  ◌≡◌, refl, suc, ap, ◌∙◌, arith, >>=-eq-ok, ok-injective, All, rev_onto,
}
use fleetdiff.Text.{Text}

abbrev pub max_fields : ℕ
max_fields = 64

abbrev pub max_field : ℕ
max_field = 8192

-- `bytes.Count(s, {a, b})`, which counts without overlap; `held` says that the byte before is a free `a`.
pairs_after : Bool → ℕ → ℕ → Text → ℕ
pairs_after held a b [] = 0
pairs_after held a b (c ∷ s) =
    let hit = held && c == b in flag hit + pairs_after (not hit && c == a) a b s

last_is : ℕ → Text → Bool
last_is q [] = false
last_is q (c ∷ []) = c == q
last_is q (c ∷ d ∷ s) = last_is q (d ∷ s)

but_last : Text → Text
but_last [] = []
but_last (c ∷ []) = []
but_last (c ∷ d ∷ s) = c ∷ but_last (d ∷ s)

-- The size of a field: in quotes, these, one quote of each doubled one and one byte of each line end are not
-- counted.
unfoldable pub field_size : Text → ℕ
unfolding pairs_after last_is but_last
field_size [] = 0
field_size (c ∷ s) =
    let n = length (c ∷ s) in
    if c == b'"' && last_is b'"' s
    then n - (2 + pairs_after false b'"' b'"' (but_last s) + pairs_after false 13 10 (c ∷ s))
    else n

-- `fields++` and the two checks at the end of a field; `n` is the number of fields before it.
unfoldable pub end_field : ℕ → Text → Result ℕ
end_field n field =
    if ltb max_fields (n + 1)
    then err too_many_fields
    else if ltb max_field (field_size field)
    then err field_too_long
    else ok (n + 1)

-- The loop: `field` holds the bytes from `start`, the last first. It returns the number of fields.
unfoldable pub preflight_from : ℕ → Bool → Text → Text → Result ℕ
preflight_from n quoted field [] = end_field n (rev_onto field [])
preflight_from n quoted field (c ∷ s) =
    let q = if c == b'"' then not quoted else quoted in
    let next = end_field n (rev_onto field []) >>= λ m. preflight_from m q [] s in
    if not (c == b',') || q then preflight_from n q (c ∷ field) s else next

unfoldable pub preflight_csv : Text → Result ℕ
preflight_csv record_bytes = preflight_from 0 false [] record_bytes

-- The fields of a record, described apart from the checks: a comma outside quotes ends one.
unfoldable pub fields_from : Bool → Text → Text → List Text
fields_from quoted field [] = rev_onto field [] ∷ []
fields_from quoted field (c ∷ s) =
    let q = if c == b'"' then not quoted else quoted in
    if not (c == b',') || q
    then fields_from q (c ∷ field) s
    else rev_onto field [] ∷ fields_from q [] s

-- The text that a field stands for: in quotes, a quote after a free quote and a line feed after a carriage return are left
-- out.
unescape : Bool → Bool → Text → Text
unescape after_quote after_return [] = []
unescape after_quote after_return (c ∷ s) =
    let rest = unescape (not (after_quote && c == b'"') && c == b'"') (c == 13) s in
    if (after_quote && c == b'"') || (after_return && c == 10) then rest else c ∷ rest

unfoldable pub content : Text → Text
unfolding unescape last_is but_last
content [] = []
content (c ∷ s) = if c == b'"' && last_is b'"' s then unescape false false (but_last s) else c ∷ s

abbrev pub FieldFits : Text → Type 0
FieldFits f = length (content f) ≤ max_field

length-unescape :
    (h r : Bool) (s : Text)
    → length (unescape h r s) + pairs_after h b'"' b'"' s + pairs_after r 13 10 s ≡ length s
unfolding unescape pairs_after
length-unescape h r [] = refl
length-unescape h r (c ∷ s) =
    let i = length-unescape (not (h && c == b'"') && c == b'"') (c == 13) s in
    round h r (c == b'"') (c == 10) (c == 13) refl refl refl i
  where
    round :
        (h r x y z : Bool)
        → (c == b'"') ≡ x
        → (c == 10) ≡ y
        → (c == 13) ≡ z
        → length (unescape (not (h && x) && x) z s)
            + pairs_after (not (h && x) && x) b'"' b'"' s
            + pairs_after z 13 10 s
          ≡ length s
        → length (
              if (h && x) || (r && y)
              then unescape (not (h && x) && x) z s
              else c ∷ unescape (not (h && x) && x) z s)
            + (flag (h && x) + pairs_after (not (h && x) && x) b'"' b'"' s)
            + (flag (r && y) + pairs_after (not (r && y) && z) 13 10 s)
          ≡ suc (length s)
    round h r true true z p q e i = absurd (ground (arith, p, q))
    round h r true y true p q e i = absurd (ground (arith, p, e))
    round h r false true true p q e i = absurd (ground (arith, q, e))
    round true true true false false p q e i = omega (arith, i)
    round true false true false false p q e i = omega (arith, i)
    round false true true false false p q e i = omega (arith, i)
    round false false true false false p q e i = omega (arith, i)
    round true true false true false p q e i = omega (arith, i)
    round true false false true false p q e i = omega (arith, i)
    round false true false true false p q e i = omega (arith, i)
    round false false false true false p q e i = omega (arith, i)
    round true true false false true p q e i = omega (arith, i)
    round true false false false true p q e i = omega (arith, i)
    round false true false false true p q e i = omega (arith, i)
    round false false false false true p q e i = omega (arith, i)
    round true true false false false p q e i = omega (arith, i)
    round true false false false false p q e i = omega (arith, i)
    round false true false false false p q e i = omega (arith, i)
    round false false false false false p q e i = omega (arith, i)

length-but_last : (q : ℕ) (s : Text) → last_is q s ≡ true → length s ≡ length (but_last s) + 1
unfolding last_is but_last
length-but_last q [] h = cc
length-but_last q (c ∷ []) h = refl
length-but_last q (c ∷ d ∷ s) h = omega (arith, length-but_last q (d ∷ s) h)

-- The quotes around a field are no part of a line end.
pairs_after-but_last :
    (r : Bool) (s : Text)
    → last_is b'"' s ≡ true
    → pairs_after r 13 10 s ≡ pairs_after r 13 10 (but_last s)
unfolding last_is but_last pairs_after
pairs_after-but_last r [] h = cc
pairs_after-but_last r (c ∷ []) h = at r
  where
    at : (r : Bool) → flag (r && c == 10) + 0 ≡ 0
    at true = ground (arith, h)
    at false = refl
pairs_after-but_last r (c ∷ d ∷ s) h =
    omega (arith, pairs_after-but_last (not (r && c == 10) && c == 13) (d ∷ s) h)

pairs_after-cons :
    (c : ℕ) (s : Text)
    → (c == b'"') ≡ true
    → pairs_after false 13 10 (c ∷ s) ≡ pairs_after false 13 10 s
unfolding pairs_after
pairs_after-cons c s h = let q : (c == 13) ≡ false = ground (arith, h) in rw q (omega arith)

and_parts : (a b : Bool) → (a && b) ≡ true → (a ≡ true) × (b ≡ true)
and_parts true b h = (refl, h)
and_parts false b h = cc

-- The size that the code counts is that of the content.
field_size-content : (f : Text) → field_size f ≡ length (content f)
unfolding field_size content
field_size-content [] = refl
field_size-content (c ∷ s) = elim (Bool-cases (c == b'"' && last_is b'"' s)) [
  | inr e ↦ rw e refl
  | inl e ↦
      let (x, y) = and_parts (c == b'"') (last_is b'"' s) e in
      rw e (
        omega (
          arith,
          length-unescape false false (but_last s),
          length-but_last b'"' s y,
          pairs_after-but_last false s y,
          pairs_after-cons c s x,
        ))
]

-- What the checks accept: the number of fields, at most 64 of them, each at most 8 KiB.
pub record IsAccepted (fs : List Text) (n m : ℕ) : Type 0 where
  pub counted : m ≡ n + length fs
  pub few : m ≤ max_fields
  pub fit : All FieldFits fs

end_field-eq-ok :
    (n : ℕ) (f : Text) {m : ℕ}
    → end_field n f ≡ ok m
    → (m ≡ n + 1) × (n + 1 ≤ max_fields) × FieldFits f
unfolding end_field
end_field-eq-ok n f h = at (ltb max_fields (n + 1)) (ltb max_field (field_size f)) refl refl h
  where
    at :
        (a b : Bool) {m : ℕ}
        → ltb max_fields (n + 1) ≡ a
        → ltb max_field (field_size f) ≡ b
        → (if a then err too_many_fields else if b then err field_too_long else ok (n + 1)) ≡ ok m
        → (m ≡ n + 1) × (n + 1 ≤ max_fields) × FieldFits f
    at true b p q e = cc
    at false true p q e = cc
    at false false p q e =
        let eq = ok-injective e in (omega arith, ground arith, ground (arith, field_size-content f))

end-IsAccepted : (n : ℕ) (f : Text) {m : ℕ} → end_field n f ≡ ok m → IsAccepted (f ∷ []) n m
end-IsAccepted n f h =
    let (eq, few, fits) = end_field-eq-ok n f h in
    record { counted = eq; few = omega arith; fit = (fits, tt) }

-- The two branches of a round, with the loop's result after each.
round-IsAccepted :
    (n : ℕ) (b : Bool) (field : Text) (inside : Result ℕ) (outside : ℕ → Result ℕ)
    (fs gs : List Text) {m : ℕ}
    → (inside ≡ ok m → IsAccepted fs n m)
    → ((k : ℕ) → outside k ≡ ok m → IsAccepted gs k m)
    → (if b then inside else (end_field n field >>= outside)) ≡ ok m
    → IsAccepted (if b then fs else field ∷ gs) n m
round-IsAccepted n true field inside outside fs gs f g e = f e
round-IsAccepted n false field inside outside fs gs f g e =
    let (k, first, rest) = >>=-eq-ok (end_field n field) outside e in
    let (eq, few, fits) = end_field-eq-ok n field first in
    let more = g k rest in
    let all = more.counted in
    record { counted = omega arith; few = more.few; fit = (fits, more.fit) }

from-IsAccepted :
    (n : ℕ) (quoted : Bool) (field s : Text) {m : ℕ}
    → preflight_from n quoted field s ≡ ok m
    → IsAccepted (fields_from quoted field s) n m
unfolding preflight_from fields_from
from-IsAccepted n quoted field [] h = end-IsAccepted n _ h
from-IsAccepted n quoted field (c ∷ s) h =
    let q = if c == b'"' then not quoted else quoted in
    round-IsAccepted n (not (c == b',') || q) (rev_onto field []) _ _ (fields_from q (c ∷ field) s)
      (fields_from q [] s) (from-IsAccepted n q (c ∷ field) s) (λ k. from-IsAccepted k q [] s) h

-- The other direction: a record whose fields are few and fit passes.
end_field-ok : (n : ℕ) (f : Text) → n + 1 ≤ max_fields → FieldFits f → end_field n f ≡ ok (n + 1)
unfolding end_field
end_field-ok n f h k =
    let a : ltb max_fields (n + 1) ≡ false = ground (arith, h) in
    let b : ltb max_field (field_size f) ≡ false = ground (arith, k, field_size-content f) in
    rw (a, b) refl

round-ok :
    (n : ℕ) (b : Bool) (field : Text) (inside : Result ℕ) (outside : ℕ → Result ℕ)
    (fs gs : List Text)
    → (n + length fs ≤ max_fields → All FieldFits fs → inside ≡ ok (n + length fs))
    → (n + 1 + length gs ≤ max_fields → All FieldFits gs → outside (n + 1) ≡ ok (n + 1 + length gs))
    → n + length (if b then fs else field ∷ gs) ≤ max_fields
    → All FieldFits (if b then fs else field ∷ gs)
    → (if b then inside else (end_field n field >>= outside))
      ≡ ok (n + length (if b then fs else field ∷ gs))
round-ok n true field inside outside fs gs f g h k = f h k
round-ok n false field inside outside fs gs f g h k =
    rw (end_field-ok n field (omega (arith, h)) k.0)
      (g (omega (arith, h)) k.1 ∙ ap ok (omega arith))

from-ok :
    (n : ℕ) (quoted : Bool) (field s : Text)
    → n + length (fields_from quoted field s) ≤ max_fields
    → All FieldFits (fields_from quoted field s)
    → preflight_from n quoted field s ≡ ok (n + length (fields_from quoted field s))
unfolding preflight_from fields_from
from-ok n quoted field [] h k = end_field-ok n (rev_onto field []) h k.0
from-ok n quoted field (c ∷ s) h k =
    let q = if c == b'"' then not quoted else quoted in
    round-ok n (not (c == b',') || q) (rev_onto field []) _ _ (fields_from q (c ∷ field) s)
      (fields_from q [] s) (from-ok n q (c ∷ field) s) (from-ok (n + 1) q [] s) h k

-- The checks of a CSV record pass exactly where it has at most 64 fields and the content of each has at most 8 KiB, and
-- they return the number of fields: a field ends at a comma outside quotes, and its content is what it stands for
-- without its outer quotes, with one quote for a doubled one and one byte for a line end in them.
pub preflight_csv-IsAccepted :
    (s : Text) (m : ℕ) → (preflight_csv s ≡ ok m) ↔ IsAccepted (fields_from false [] s) 0 m
unfolding preflight_csv
preflight_csv-IsAccepted s m = (
  from-IsAccepted 0 false [] s,
  λ i.
      from-ok 0 false [] s (omega (arith, i.few, i.counted)) i.fit
      ∙ ap ok (omega (arith, i.counted)),
)
