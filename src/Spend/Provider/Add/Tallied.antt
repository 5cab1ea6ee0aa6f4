-- ===== src/Spend/Provider/Add/Tallied.antt =====
-- internal/spend/provider_counts.go: what `add` makes of the entry of each key.
use fleetdiff.Base.{
  ℕ, ◌+◌, ◌<◌, ◌≡◌, refl, sym, ap, ◌∙◌, subst, Bool, true, false, ◌&&◌, not, Option, none, some,
  flag, arith, word, add64-eq, ok, >>=-eq-ok, ok-injective,
}
use fleetdiff.Text.{codes, text_eq}
use fleetdiff.Accounting.Number.{add_bounded, add_bounded-eq-ok}
use fleetdiff.Spend.Row.{Row, value, status, prompt_tokens, completion_tokens}
use fleetdiff.Spend.Provider.Entries.{ProviderEntry}
use fleetdiff.Spend.Provider.Add.{
  count_as, readable_number, count_status, add_input, add_output, count_entry,
}

-- What one row adds to each count.
abbrev pub is_failed : Row → ℕ
is_failed r = flag (text_eq (value r status) (codes "failure"))

abbrev pub is_unknown : Row → ℕ
is_unknown r = flag (
    not (text_eq (value r status) (codes "failure"))
    && not (text_eq (value r status) (codes "success")))

abbrev pub number_or_zero : Option ℕ → ℕ
number_or_zero none = 0
number_or_zero (some n) = n

abbrev pub unread : Option ℕ → ℕ
unread none = 1
unread (some n) = 0

pub record IsCounted (e : ProviderEntry) (r : Row) (f : ProviderEntry) : Type 0 where
  pub rows : e.rows + 1 < word → f.rows ≡ e.rows + 1
  pub failed : e.failed + is_failed r < word → f.failed ≡ e.failed + is_failed r
  pub unknown : e.unknown + is_unknown r < word → f.unknown ≡ e.unknown + is_unknown r
  pub input : f.input ≡ e.input + number_or_zero (readable_number (value r prompt_tokens))
  pub output : f.output ≡ e.output + number_or_zero (readable_number (value r completion_tokens))
  pub input_known :
      f.input_unavailable ≡ false
      → (e.input_unavailable ≡ false) × (unread (readable_number (value r prompt_tokens)) ≡ 0)
  pub output_known :
      f.output_unavailable ≡ false
      → (e.output_unavailable ≡ false) × (unread (readable_number (value r completion_tokens)) ≡ 0)
  pub measurements : f.measurements ≡ e.measurements

record IsStatus (e : ProviderEntry) (a b : Bool) (f : ProviderEntry) : Type 0 where
  rows : e.rows + 1 < word → f.rows ≡ e.rows + 1
  failed : e.failed + flag a < word → f.failed ≡ e.failed + flag a
  unknown : e.unknown + flag (not a && not b) < word → f.unknown ≡ e.unknown + flag (not a && not b)

count_as-IsStatus : (e : ProviderEntry) (a b : Bool) → IsStatus e a b (count_as e a b)
unfolding count_as
count_as-IsStatus e true b = record {
  rows = add64-eq e.rows 1;
  failed = add64-eq e.failed 1;
  unknown = λ h. omega arith;
}
count_as-IsStatus e false true = record {
  rows = add64-eq e.rows 1;
  failed = λ h. omega arith;
  unknown = λ h. omega arith;
}
count_as-IsStatus e false false = record {
  rows = add64-eq e.rows 1;
  failed = λ h. omega arith;
  unknown = add64-eq e.unknown 1;
}

-- The fields that the status leaves.
abbrev Keeps : ProviderEntry → ProviderEntry → Type 0
Keeps e f =
    (f.measurements ≡ e.measurements)
    × (f.input ≡ e.input)
    × (f.output ≡ e.output)
    × (f.input_unavailable ≡ e.input_unavailable)
    × (f.output_unavailable ≡ e.output_unavailable)

count_as-Keeps : (e : ProviderEntry) (a b : Bool) → Keeps e (count_as e a b)
unfolding count_as
count_as-Keeps e true b = (refl, refl, refl, refl, refl)
count_as-Keeps e false true = (refl, refl, refl, refl, refl)
count_as-Keeps e false false = (refl, refl, refl, refl, refl)

-- `add_input` changes two fields only, and so does `add_output`.
record AddsInput (e : ProviderEntry) (o : Option ℕ) (f : ProviderEntry) : Type 0 where
  input : f.input ≡ e.input + number_or_zero o
  known : f.input_unavailable ≡ false → (e.input_unavailable ≡ false) × (unread o ≡ 0)
  rows : f.rows ≡ e.rows
  failed : f.failed ≡ e.failed
  unknown : f.unknown ≡ e.unknown
  output : f.output ≡ e.output
  output_known : f.output_unavailable ≡ e.output_unavailable
  measurements : f.measurements ≡ e.measurements

add_input-AddsInput :
    (e : ProviderEntry) (o : Option ℕ) {f : ProviderEntry} → add_input e o ≡ ok f → AddsInput e o f
unfolding add_input
add_input-AddsInput e none h = subst (AddsInput e none) (ok-injective h) (record {
  input = omega arith;
  known = λ k. cc;
  rows = refl;
  failed = refl;
  unknown = refl;
  output = refl;
  output_known = refl;
  measurements = refl;
})
add_input-AddsInput e (some n) h =
    let (sum, p, q) = >>=-eq-ok (add_bounded e.input n) _ h in
    subst (AddsInput e (some n)) (ok-injective q) (record {
      input = (add_bounded-eq-ok e.input n p).0;
      known = λ k. (k, refl);
      rows = refl;
      failed = refl;
      unknown = refl;
      output = refl;
      output_known = refl;
      measurements = refl;
    })

record AddsOutput (e : ProviderEntry) (o : Option ℕ) (f : ProviderEntry) : Type 0 where
  output : f.output ≡ e.output + number_or_zero o
  known : f.output_unavailable ≡ false → (e.output_unavailable ≡ false) × (unread o ≡ 0)
  rows : f.rows ≡ e.rows
  failed : f.failed ≡ e.failed
  unknown : f.unknown ≡ e.unknown
  input : f.input ≡ e.input
  input_known : f.input_unavailable ≡ e.input_unavailable
  measurements : f.measurements ≡ e.measurements

add_output-AddsOutput :
    (e : ProviderEntry) (o : Option ℕ) {f : ProviderEntry}
    → add_output e o ≡ ok f
    → AddsOutput e o f
unfolding add_output
add_output-AddsOutput e none h = subst (AddsOutput e none) (ok-injective h) (record {
  output = omega arith;
  known = λ k. cc;
  rows = refl;
  failed = refl;
  unknown = refl;
  input = refl;
  input_known = refl;
  measurements = refl;
})
add_output-AddsOutput e (some n) h =
    let (sum, p, q) = >>=-eq-ok (add_bounded e.output n) _ h in
    subst (AddsOutput e (some n)) (ok-injective q) (record {
      output = (add_bounded-eq-ok e.output n p).0;
      known = λ k. (k, refl);
      rows = refl;
      failed = refl;
      unknown = refl;
      input = refl;
      input_known = refl;
      measurements = refl;
    })

pub count_entry-IsCounted :
    (e : ProviderEntry) (r : Row) {f : ProviderEntry} → count_entry e r ≡ ok f → IsCounted e r f
unfolding count_entry count_status
count_entry-IsCounted e r {f} h =
    let a = text_eq (value r status) (codes "failure") in
    let b = text_eq (value r status) (codes "success") in
    let (g, p, q) =
      >>=-eq-ok (add_input (count_as e a b) (readable_number (value r prompt_tokens))) _ h in
    let s = count_as-IsStatus e a b in
    let k = count_as-Keeps e a b in
    let i = add_input-AddsInput (count_as e a b) (readable_number (value r prompt_tokens)) p in
    let o = add_output-AddsOutput g (readable_number (value r completion_tokens)) q in
    record {
      rows = λ l. o.rows ∙ i.rows ∙ s.rows l;
      failed = λ l. o.failed ∙ i.failed ∙ s.failed l;
      unknown = λ l. o.unknown ∙ i.unknown ∙ s.unknown l;
      input =
          o.input
          ∙ i.input
          ∙ ap (λ n. n + number_or_zero (readable_number (value r prompt_tokens))) k.1;
      output =
          o.output
          ∙ ap (λ n. n + number_or_zero (readable_number (value r completion_tokens)))
              (i.output ∙ k.2);
      input_known = λ z. let (x, y) = i.known (sym o.input_known ∙ z) in (sym k.3 ∙ x, y);
      output_known = λ z. let (x, y) = o.known z in (sym (i.output_known ∙ k.4) ∙ x, y);
      measurements = o.measurements ∙ i.measurements ∙ k.0;
    }
