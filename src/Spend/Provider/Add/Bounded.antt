-- ===== src/Spend/Provider/Add/Bounded.antt =====
-- internal/spend/provider_counts.go: the limit on the entries, and that no key has two.
use fleetdiff.Base.{
  ℕ, suc, ◌≤◌, ◌≡◌, refl, sym, ◌∙◌, ap, Bool, true, false, Option, none, some, List, [], ◌∷◌, ◌==◌,
  Bool-cases, inl, inr, arith, length, subst, if-cases, err-ne-ok, ok, >>=-eq-ok, ok-injective,
}
use fleetdiff.Text.{Text}
use fleetdiff.Spend.Row.{Row}
use fleetdiff.Spend.Provider.{max_provider_rows}
use fleetdiff.Spend.Provider.Entries.{
  ProviderKey, ProviderEntry, Entries, Builder, same_key, find_entry, put_entry, entry, entry_of,
}
use fleetdiff.Spend.Provider.Add.{count_entry, key_of, add, add_all}
use fleetdiff.Spend.Provider.Add.Keyed.{same_key-eq, same_key_self}

is_found : Option ProviderEntry → Bool
is_found none = false
is_found (some e) = true

-- No key stands twice.
unfoldable pub HasDistinctKeys : Entries → Type 0
unfolding is_found
HasDistinctKeys [] = Unit
HasDistinctKeys ((k, e) ∷ es) = (is_found (find_entry k es) ≡ false) × HasDistinctKeys es

pub record IsBounded (es : Entries) : Type 0 where
  pub few : length es ≤ max_provider_rows
  pub distinct : HasDistinctKeys es

find_entry-put_entry_ne :
    (i k : ProviderKey) (e : ProviderEntry) (es : Entries)
    → same_key k i ≡ false
    → is_found (find_entry i (put_entry k e es)) ≡ is_found (find_entry i es)
unfolding find_entry put_entry is_found
find_entry-put_entry_ne i k e [] n = rw n refl
find_entry-put_entry_ne i k e ((j, d) ∷ es) n = elim (Bool-cases (same_key j k)) [
  | inl h ↦
      let m : same_key j i ≡ false =
        subst (λ z. same_key z i ≡ false) (sym (same_key-eq j k h)) n in
      rw (h, m) refl
  | inr h ↦ elim (Bool-cases (same_key j i)) [
    | inl g ↦ rw (h, g) refl
    | inr g ↦ rw (h, g) (find_entry-put_entry_ne i k e es n)
  ]
]

put_entry-HasDistinctKeys :
    (k : ProviderKey) (e : ProviderEntry) (es : Entries)
    → HasDistinctKeys es
    → HasDistinctKeys (put_entry k e es)
unfolding HasDistinctKeys put_entry find_entry
put_entry-HasDistinctKeys k e [] h = (refl, tt)
put_entry-HasDistinctKeys k e ((j, d) ∷ es) h = elim (Bool-cases (same_key j k)) [
  | inl m ↦ rw m h
  | inr m ↦
      rw m (
        find_entry-put_entry_ne j k e es (flipped j k m) ∙ h.0,
        put_entry-HasDistinctKeys k e es h.1,
      )
]
  where
    flipped : (j k : ProviderKey) → same_key j k ≡ false → same_key k j ≡ false
    flipped j k m = elim (Bool-cases (same_key k j)) [
      | inl q ↦
          let r : same_key j j ≡ false = subst (λ z. same_key j z ≡ false) (same_key-eq k j q) m in
          let t = same_key_self j in cc
      | inr q ↦ q
    ]

length-put_entry_le :
    (k : ProviderKey) (e : ProviderEntry) (es : Entries)
    → length (put_entry k e es) ≤ suc (length es)
unfolding put_entry
length-put_entry_le k e [] = omega arith
length-put_entry_le k e ((j, d) ∷ es) = elim (Bool-cases (same_key j k)) [
  | inl m ↦ rw m (omega arith)
  | inr m ↦ rw m (omega (arith, length-put_entry_le k e es))
]

length-put_entry_found :
    (k : ProviderKey) (e : ProviderEntry) (es : Entries)
    → is_found (find_entry k es) ≡ true
    → length (put_entry k e es) ≡ length es
unfolding put_entry find_entry is_found
length-put_entry_found k e [] h = cc
length-put_entry_found k e ((j, d) ∷ es) h = elim (Bool-cases (same_key j k)) [
  | inl m ↦ rw m refl
  | inr m ↦ rw m (ap suc (length-put_entry_found k e es (rw m at h)))
]

-- There is room for the entry that a call asks for, or it exists.
room :
    (n : ℕ) (o : Option ProviderEntry) (e : ProviderEntry)
    → entry_of n o ≡ ok e
    → n ≤ max_provider_rows
    → is_found o ≡ false
    → suc n ≤ max_provider_rows
unfolding entry_of is_found
room n (some d) e h l m = cc
room n none e h l m =
    if-cases (n == max_provider_rows) _ _ (λ c g. err-ne-ok g) (λ c g. ground arith) h

put_entry-IsBounded :
    (k : ProviderKey) (e f : ProviderEntry) (es : Entries)
    → entry es k ≡ ok e
    → IsBounded es
    → IsBounded (put_entry k f es)
unfolding entry
put_entry-IsBounded k e f es h b = record {
  few = elim (Bool-cases (is_found (find_entry k es))) [
    | inl m ↦ omega (arith, length-put_entry_found k f es m, b.few)
    | inr m ↦
        omega (arith, length-put_entry_le k f es, room (length es) (find_entry k es) e h b.few m)
  ];
  distinct = put_entry-HasDistinctKeys k f es b.distinct;
}

-- Adding rows keeps the entries within their limit, and one for each key.
pub add_all-IsBounded :
    (date_text : ℕ → Text) (rows : List (Row × ℕ)) (b c : Builder)
    → IsBounded b.entries
    → add_all date_text b rows ≡ ok c
    → IsBounded c.entries
unfolding add_all add
add_all-IsBounded date_text [] b c i h = subst (λ c. IsBounded c.entries) (ok-injective h) i
add_all-IsBounded date_text ((r, s) ∷ rows) b c i h =
    let (d, p, q) = >>=-eq-ok (add date_text b (r, s)) _ h in
    let (e, p', q') = >>=-eq-ok (entry b.entries (key_of date_text b r s)) _ p in
    let (f, p2, q2) = >>=-eq-ok (count_entry e r) _ q' in
    add_all-IsBounded date_text rows d c
      (subst (λ d. IsBounded d.entries) (ok-injective q2)
        (put_entry-IsBounded (key_of date_text b r s) e f b.entries p' i))
      q
