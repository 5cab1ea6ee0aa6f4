-- ===== src/Spend/Provider/Table.antt =====
-- internal/spend/provider_counts.go: `providerCSV`. The lines of the file, without the byte order mark, and whether
-- the scanner failed, are parameters, and so are the fields that `encoding/csv` reads from one line.
use fleetdiff.Base.{
  ℕ, ◌+◌, Bool, true, false, ◌&&◌, ◌||◌, not, Option, none, some, List, [], ◌∷◌, ltb, ◌==◌,
  if◌then◌else◌, length, Result, ok, err, ◌>>=◌, fold_ok, provider_input,
}
use fleetdiff.Text.{Text, text_eq, one_of, is_empty}
use fleetdiff.Text.Utf8.{valid_utf8}
use fleetdiff.Spend.Provider.{max_provider_rows}

abbrev pub max_provider_line : ℕ
max_provider_line = 2048

-- `values[name]`
unfoldable pub column_of : List Text → List Text → Text → Text
column_of (n ∷ ns) (v ∷ vs) name =
    let rest = column_of ns vs name in if text_eq n name then v else rest
column_of _ _ name = []

-- Every name is known, and none comes twice.
header_names : List Text → List Text → List Text → Bool
header_names known before [] = true
header_names known before (n ∷ ns) =
    one_of n known && not (one_of n before) && header_names known (n ∷ before) ns

all_of : List Text → List Text → Bool
all_of [] header = true
all_of (n ∷ ns) header = one_of n header && all_of ns header

module _ {S : Type 0} (required optional : List Text) (csv_line : Text → Option (List Text))
    (visit : S → (Text → Text) → Result S) where
  -- The header, once it has been read, and the number of rows.
  pub record Reading : Type 0 where
    pub header : Option (List Text)
    pub rows : ℕ
    pub state : S

  read_header : Reading → List Text → Result Reading
  unfolding header_names all_of
  read_header r fields =
      if header_names (known_names required) [] fields && all_of required fields
      then ok (record r { header = some fields })
      else err provider_input
    where
      known_names : List Text → List Text
      known_names [] = optional
      known_names (n ∷ ns) = n ∷ known_names ns

  read_row : Reading → List Text → List Text → Result Reading
  unfolding column_of
  read_row r names fields =
      if ltb max_provider_rows (r.rows + 1) || not (length fields == length names)
      then err provider_input
      else visit r.state (column_of names fields) >>= λ s.
          ok (record r { rows = r.rows + 1; state = s })

  read_fields : Reading → Option (List Text) → List Text → Result Reading
  unfolding read_header read_row
  read_fields r none fields = read_header r fields
  read_fields r (some names) fields = read_row r names fields

  split_line : Reading → Option (List Text) → Result Reading
  unfolding read_fields
  split_line r none = err provider_input
  split_line r (some fields) =
      if ltb (length required + length optional) (length fields)
      then err provider_input
      else read_fields r r.header fields

  unfoldable pub read_line : Reading → Text → Result Reading
  unfolding split_line
  read_line r line =
      if ltb max_provider_line (length line) || not (valid_utf8 line)
      then err provider_input
      else if is_empty line
      then ok r
      else split_line r (csv_line line)

  finish_table : Bool → Reading → Result S
  finish_table true r = err provider_input
  finish_table false r = elim r.header [ none ↦ err provider_input | some names ↦ ok r.state ]

  -- `providerCSV`; `none` is a file that cannot be read.
  unfoldable pub read_table : Option (List Text × Bool) → S → Result S
  unfolding read_line finish_table
  read_table none s = err provider_input
  read_table (some (lines, failed)) s =
      fold_ok read_line (record { header = none; rows = 0; state = s }) lines
      >>= finish_table failed
