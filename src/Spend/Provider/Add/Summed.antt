-- ===== src/Spend/Provider/Add/Summed.antt =====
-- internal/spend/provider_counts.go: what a run of `add` makes of the entry of each key.
use fleetdiff.Base.{
  ℕ, ◌+◌, ◌<◌, ◌≡◌, refl, sym, ◌∙◌, subst, true, false, Option, List, [], ◌∷◌, if◌then◌else◌,
  Bool-cases, inl, inr, arith, word, sum_by, ok, >>=-eq-ok, ok-injective,
}
use fleetdiff.Text.{Text}
use fleetdiff.Spend.Row.{Row, value, prompt_tokens, completion_tokens}
use fleetdiff.Spend.Provider.Entries.{
  ProviderKey, ProviderEntry, Builder, same_key, put_entry, entry,
}
use fleetdiff.Spend.Provider.Add.{readable_number, count_entry, target, key_of, add, add_all}
use fleetdiff.Spend.Provider.Add.Keyed.{
  same_key-eq, entry_at, entry-entry_at, entry_at-put_entry, entry_at-put_entry_ne,
}
use fleetdiff.Spend.Provider.Add.Tallied.{
  is_failed, is_unknown, number_or_zero, unread, IsCounted, count_entry-IsCounted,
}

-- What a row adds to a count of the key: nothing, if it belongs to another.
unfoldable pub per_key : (Row → ℕ → ProviderKey) → ProviderKey → (Row → ℕ) → Row × ℕ → ℕ
per_key keys k g (r, s) = if same_key (keys r s) k then g r else 0

abbrev pub prompt_number : Row → Option ℕ
prompt_number r = readable_number (value r prompt_tokens)

abbrev pub completion_number : Row → Option ℕ
completion_number r = readable_number (value r completion_tokens)

-- The counts of an entry after some rows: those it had, and what the rows of its key add. A `uint64` count is exact
-- where the sum does not wrap. Tokens that are shown leave no row of the key out.
pub record IsTally (keys : Row → ℕ → ProviderKey) (k : ProviderKey) (rows : List (Row × ℕ))
    (e f : ProviderEntry) : Type 0 where
  pub all : let n = e.rows + sum_by (per_key keys k (λ r. 1)) rows in n < word → f.rows ≡ n
  pub failed : let n = e.failed + sum_by (per_key keys k is_failed) rows in n < word → f.failed ≡ n
  pub unknown :
      let n = e.unknown + sum_by (per_key keys k is_unknown) rows in n < word → f.unknown ≡ n
  pub input :
      f.input ≡ e.input + sum_by (per_key keys k (λ r. number_or_zero (prompt_number r))) rows
  pub output :
      f.output ≡ e.output + sum_by (per_key keys k (λ r. number_or_zero (completion_number r))) rows
  pub input_known :
      f.input_unavailable ≡ false
      → (e.input_unavailable ≡ false)
        × (sum_by (per_key keys k (λ r. unread (prompt_number r))) rows ≡ 0)
  pub output_known :
      f.output_unavailable ≡ false
      → (e.output_unavailable ≡ false)
        × (sum_by (per_key keys k (λ r. unread (completion_number r))) rows ≡ 0)
  pub measurements : f.measurements ≡ e.measurements

module _ (date_text : ℕ → Text) where
  -- One row changes the entry of its key, and no other.
  record IsStep (b : Builder) (r : Row) (s : ℕ) (c : Builder) : Type 0 where
    keys : key_of date_text c ≡ key_of date_text b
    same :
        (k : ProviderKey)
        → same_key (key_of date_text b r s) k ≡ true
        → IsCounted (entry_at k b.entries) r (entry_at k c.entries)
    other :
        (k : ProviderKey)
        → same_key (key_of date_text b r s) k ≡ false
        → entry_at k c.entries ≡ entry_at k b.entries

  add-IsStep :
      (b : Builder) (r : Row) (s : ℕ) {c : Builder} → add date_text b (r, s) ≡ ok c → IsStep b r s c
  unfolding add key_of target
  add-IsStep b r s h =
      let j = key_of date_text b r s in
      let (e, p, q) = >>=-eq-ok (entry b.entries j) _ h in
      let (f, p', q') = >>=-eq-ok (count_entry e r) _ q in
      let old = entry-entry_at b.entries j e p in
      let counted = count_entry-IsCounted e r p' in
      subst (IsStep b r s) (ok-injective q') (record {
        keys = refl;
        same = λ k m.
            subst (λ i. IsCounted (entry_at i b.entries) r (entry_at i (put_entry j f b.entries)))
              (same_key-eq j k m)
              (subst (λ z. IsCounted z r (entry_at j (put_entry j f b.entries))) old
                (subst (IsCounted e r) (sym (entry_at-put_entry j f b.entries)) counted));
        other = λ k m. entry_at-put_entry_ne k j f b.entries m;
      })

module _ (keys : Row → ℕ → ProviderKey) (k : ProviderKey) (r : Row) (s : ℕ) where
  hit : (g : Row → ℕ) → same_key (keys r s) k ≡ true → per_key keys k g (r, s) ≡ g r
  unfolding per_key
  hit g m = rw m refl

  miss : (g : Row → ℕ) → same_key (keys r s) k ≡ false → per_key keys k g (r, s) ≡ 0
  unfolding per_key
  miss g m = rw m refl

  -- A row of the key, before the others.
  IsTally-hit :
      (rows : List (Row × ℕ)) (e f g : ProviderEntry)
      → same_key (keys r s) k ≡ true
      → IsCounted e r f
      → IsTally keys k rows f g
      → IsTally keys k ((r, s) ∷ rows) e g
  IsTally-hit rows e f g m c t =
      let all = hit (λ r. 1) m in
      let failed = hit is_failed m in
      let unknown = hit is_unknown m in
      let input = hit (λ r. number_or_zero (prompt_number r)) m in
      let output = hit (λ r. number_or_zero (completion_number r)) m in
      let no_input = hit (λ r. unread (prompt_number r)) m in
      let no_output = hit (λ r. unread (completion_number r)) m in
      record {
        all = λ l. let a = c.rows (omega arith) in let b = t.all (omega arith) in omega arith;
        failed =
            λ l. let a = c.failed (omega arith) in let b = t.failed (omega arith) in omega arith;
        unknown =
            λ l. let a = c.unknown (omega arith) in let b = t.unknown (omega arith) in omega arith;
        input = omega (arith, c.input, t.input);
        output = omega (arith, c.output, t.output);
        input_known =
            λ z. let (x, y) = t.input_known z in let (u, v) = c.input_known x in (u, omega arith);
        output_known =
            λ z. let (x, y) = t.output_known z in let (u, v) = c.output_known x in (u, omega arith);
        measurements = t.measurements ∙ c.measurements;
      }

  -- A row of another key.
  IsTally-miss :
      (rows : List (Row × ℕ)) (e g : ProviderEntry)
      → same_key (keys r s) k ≡ false
      → IsTally keys k rows e g
      → IsTally keys k ((r, s) ∷ rows) e g
  IsTally-miss rows e g m t =
      let all = miss (λ r. 1) m in
      let failed = miss is_failed m in
      let unknown = miss is_unknown m in
      let input = miss (λ r. number_or_zero (prompt_number r)) m in
      let output = miss (λ r. number_or_zero (completion_number r)) m in
      let no_input = miss (λ r. unread (prompt_number r)) m in
      let no_output = miss (λ r. unread (completion_number r)) m in
      record {
        all = λ l. let b = t.all (omega arith) in omega arith;
        failed = λ l. let b = t.failed (omega arith) in omega arith;
        unknown = λ l. let b = t.unknown (omega arith) in omega arith;
        input = omega (arith, t.input);
        output = omega (arith, t.output);
        input_known = λ z. let (x, y) = t.input_known z in (x, omega arith);
        output_known = λ z. let (x, y) = t.output_known z in (x, omega arith);
        measurements = t.measurements;
      }

-- After any rows that `add` accepts, the entry of every key has the counts it had, and what the rows of that key add:
-- their number, the failed ones, those of no known status, and the sums of the tokens that can be read; a sum that is
-- not marked as unavailable leaves no row of the key out. The three `uint64` counts are exact where they do not wrap.
pub add_all-IsTally :
    (date_text : ℕ → Text) (rows : List (Row × ℕ)) (b c : Builder) (k : ProviderKey)
    → add_all date_text b rows ≡ ok c
    → IsTally (key_of date_text b) k rows (entry_at k b.entries) (entry_at k c.entries)
unfolding add_all
add_all-IsTally date_text [] b c k h =
    subst (λ c. IsTally (key_of date_text b) k [] (entry_at k b.entries) (entry_at k c.entries))
      (ok-injective h)
      (record {
        all = λ l. omega arith;
        failed = λ l. omega arith;
        unknown = λ l. omega arith;
        input = omega arith;
        output = omega arith;
        input_known = λ z. (z, refl);
        output_known = λ z. (z, refl);
        measurements = refl;
      })
add_all-IsTally date_text ((r, s) ∷ rows) b c k h =
    let (d, p, q) = >>=-eq-ok (add date_text b (r, s)) _ h in
    let step = add-IsStep date_text b r s p in
    let rest =
      subst (λ keys. IsTally keys k rows (entry_at k d.entries) (entry_at k c.entries)) step.keys
        (add_all-IsTally date_text rows d c k q) in
    elim (Bool-cases (same_key (key_of date_text b r s) k)) [
      | inl m ↦
          IsTally-hit (key_of date_text b) k r s rows (entry_at k b.entries) (entry_at k d.entries)
            (entry_at k c.entries) m (step.same k m) rest
      | inr m ↦
          IsTally-miss (key_of date_text b) k r s rows (entry_at k b.entries) (entry_at k c.entries)
            m
            (subst (λ e. IsTally (key_of date_text b) k rows e (entry_at k c.entries))
              (step.other k m) rest)
    ]
