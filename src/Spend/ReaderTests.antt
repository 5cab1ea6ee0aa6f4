-- ===== src/Spend/ReaderTests.antt =====
-- Concrete records, columns and periods, and the theorems at them.
use fleetdiff.Base.{ok, ◌↔◌, ◌+◌, ◌*◌, ◌≡◌, refl, Option, some, List, [], ◌∷◌, false, sum_by}
use fleetdiff.Text.{Text, codes}
use fleetdiff.Spend.Period.{
  Time, Period, AreComparable, select_periods, select_periods-AreComparable, observed_weeks,
  two_weeks, first_day, last_day, day, truncate_day,
}
use fleetdiff.Spend.CallTypes.{Reading, read, no_sum}
use fleetdiff.Spend.CallTypes.RawSums.{add_all, bounded, read_count, add_all-eq}
use fleetdiff.Spend.Reader.Csv.{IsAccepted, fields_from, preflight_csv, preflight_csv-IsAccepted}

abbrev csv_record : Text
csv_record = codes "req-1,\"a,\"\"b\",3"

preflight_csv-IsAccepted_example :
    (preflight_csv csv_record ≡ ok 3) ↔ IsAccepted (fields_from false [] csv_record) 0 3
preflight_csv-IsAccepted_example = preflight_csv-IsAccepted csv_record 3

abbrev json_record : Text
json_record = codes "{\"call_type\":\"completion\",\"n\":[1]}"

-- A parser that knows one text.
abbrev noon : Text → Option Time
noon s = some (record { year = 2026; instant = 1767268800000000000 })

weeks : Period × Period
unfolding two_weeks
weeks = two_weeks (20 * day)

select_periods-AreComparable_example : AreComparable (30 * day) weeks
unfolding weeks select_periods observed_weeks first_day last_day truncate_day
select_periods-AreComparable_example =
    select_periods-AreComparable noon noon [] [] (some (1, 20 * day + 5)) (30 * day) {p = weeks}
      refl

abbrev readings : List Reading
readings =
    read (codes "12") ∷ read (codes "") ∷ read (codes "x") ∷ read (codes "9223372036854775800") ∷ []

add_all-eq_example : add_all no_sum readings ≡ bounded (sum_by read_count readings)
add_all-eq_example = add_all-eq readings
