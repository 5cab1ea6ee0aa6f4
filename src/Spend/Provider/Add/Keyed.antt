-- ===== src/Spend/Provider/Add/Keyed.antt =====
-- internal/spend/provider_counts.go: the entries as a map from keys.
use fleetdiff.Base.{
  ℕ, Bool, true, false, ◌&&◌, Option, none, some, [], ◌∷◌, ◌≡◌, refl, sym, subst, inl, inr,
  Bool-cases, length, ◌==◌, ok, err-ne-ok, ok-injective, if-cases,
}
use fleetdiff.Text.{text_eq, text_eq-eq, text_eq_self}
use fleetdiff.Spend.Provider.{same_model, max_provider_rows}
use fleetdiff.Spend.Provider.Entries.{
  ProviderKey, ProviderEntry, Entries, no_entry, same_key, find_entry, put_entry, entry, entry_of,
  same_flag,
}

same_flag-eq : (a b : Bool) → same_flag a b ≡ true → a ≡ b
unfolding same_flag
same_flag-eq true true h = refl
same_flag-eq true false h = cc
same_flag-eq false true h = cc
same_flag-eq false false h = refl

and_parts : (a b : Bool) → (a && b) ≡ true → (a ≡ true) × (b ≡ true)
and_parts true b h = (refl, h)
and_parts false b h = cc

pub same_key-eq : (j k : ProviderKey) → same_key j k ≡ true → j ≡ k
unfolding same_key same_model
same_key-eq j k h =
    let (b, d) =
      and_parts (text_eq j.date k.date && same_model j.identity k.identity)
        (same_flag j.mapped k.mapped) h in
    let (a, c) = and_parts (text_eq j.date k.date) (same_model j.identity k.identity) b in
    let (e, f) =
      and_parts (text_eq j.identity.provider k.identity.provider)
        (text_eq j.identity.model_id k.identity.model_id) c in
    let p = text_eq-eq j.date k.date a in
    let q = text_eq-eq j.identity.provider k.identity.provider e in
    let r = text_eq-eq j.identity.model_id k.identity.model_id f in
    let t = same_flag-eq j.mapped k.mapped d in cc

same_flag_self : (a : Bool) → same_flag a a ≡ true
unfolding same_flag
same_flag_self true = refl
same_flag_self false = refl

pub same_key_self : (k : ProviderKey) → same_key k k ≡ true
unfolding same_key same_model same_flag
same_key_self k = simp (text_eq_self, same_flag_self)

-- The entry of a key, an empty one where there is none.
or_empty : Option ProviderEntry → ProviderEntry
or_empty none = no_entry
or_empty (some e) = e

unfoldable pub entry_at : ProviderKey → Entries → ProviderEntry
unfolding or_empty
entry_at k es = or_empty (find_entry k es)

entry_of-or_empty :
    (n : ℕ) (o : Option ProviderEntry) (e : ProviderEntry) → entry_of n o ≡ ok e → e ≡ or_empty o
unfolding entry_of or_empty
entry_of-or_empty n (some d) e h = sym (ok-injective h)
entry_of-or_empty n none e h =
    if-cases (n == max_provider_rows) _ _ (λ c g. err-ne-ok g) (λ c g. sym (ok-injective g)) h

pub entry-entry_at :
    (es : Entries) (k : ProviderKey) (e : ProviderEntry) → entry es k ≡ ok e → e ≡ entry_at k es
unfolding entry entry_of entry_at
entry-entry_at es k e h = entry_of-or_empty (length es) (find_entry k es) e h

pub entry_at-put_entry :
    (k : ProviderKey) (e : ProviderEntry) (es : Entries) → entry_at k (put_entry k e es) ≡ e
unfolding entry_at find_entry put_entry
entry_at-put_entry k e [] = rw (same_key_self k) refl
entry_at-put_entry k e ((j, d) ∷ es) = elim (Bool-cases (same_key j k)) [
  | inl h ↦ rw (h, h) refl
  | inr h ↦ rw (h, h) (entry_at-put_entry k e es)
]

pub entry_at-put_entry_ne :
    (i k : ProviderKey) (e : ProviderEntry) (es : Entries)
    → same_key k i ≡ false
    → entry_at i (put_entry k e es) ≡ entry_at i es
unfolding entry_at find_entry put_entry
entry_at-put_entry_ne i k e [] n = rw n refl
entry_at-put_entry_ne i k e ((j, d) ∷ es) n = elim (Bool-cases (same_key j k)) [
  | inl h ↦
      let m : same_key j i ≡ false =
        subst (λ z. same_key z i ≡ false) (sym (same_key-eq j k h)) n in
      rw (h, m) refl
  | inr h ↦ elim (Bool-cases (same_key j i)) [
    | inl g ↦ rw (h, g) refl
    | inr g ↦ rw (h, g) (entry_at-put_entry_ne i k e es n)
  ]
]
