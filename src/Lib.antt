-- ===== src/Lib.antt =====
-- fleetdiff compares the token usage and the recorded cost of fleets of agents between two periods. This
-- library is about the accounting that every report of it rests on, and about the reports over exported
-- spend rows.
--
-- The parts, with the Go code they follow:
--   * Base: lists, options, machine words, error results, keyed maps and sorting. Text: byte strings, UTF-8
--     and decimal numbers, as the Go standard library documents them.
--   * Accounting: internal/accounting. Number has `Number` and `AddBounded`, Names the tables of attributes and
--     metrics, Tokens has `Tokens` and `ModelAttempt`, Counts has `MergeCounts`, Cost has `Cost` and `CostText`.
--   * BoundedJson: internal/boundedjson, `Decode` over the tokens of a text.
--   * Compare: internal/compare. CacheView has cache_view.go, the cache detail that reports share. Envelope has a snapshot as
--     its library hands it over; Windows has `validateWindow`, Ranking `RankCandidates` and `RankChanges` of compare.go;
--     TopK has topk.go, whose validation Windows calls for each snapshot; Provenance has `withUsageProvenance`;
--     CacheQuality has `cacheQuality` of cache.go beside `summaryCacheFieldComplete` of cache_summary.go; UsageSource has
--     `usageSourceQuestion` of investigate.go.
--   * Spend: internal/spend. Row is the projected row of reader.go; Usage has `attributes` and `classify` of
--     accounting.go, Quality its counters; Cache is cache.go; Aggregate is the aggregate of investigate.go,
--     which composes Accounting and Cache for each row of a period.
--   * Spend.Reader: the checks of reader.go that a record passes before it is decoded; Columns has
--     the names of columns, Csv `preflightSpendCSV`, Json has `preflightSpendJSON`, whose strings and tokens are scanned byte by byte in modes of one pass.
--   * Spend.Period: period.go. Spend.Selection: selection.go, and `routingAccumulator.observe`. Spend.CallTypes:
--     `recordCallType` of coverage.go. Spend.Digests: the blocks of duplicates.go, read and
--     sorted by their indices.
--   * Spend.Routing: routing.go. Fields has the states and the coverage of routing fields, Totals the totals
--     of a cohort or a model and their merge, Accumulator takes the rows in, Report has their measures, labels and
--     shares, Audit the order, the leading cohorts and the remainder.
--   * Spend.Session: session.go, the review of sessions. Window has `sessionPeriod`, Store the state that a reading keeps,
--     Track what a row does to its session and Step what it does in all, Clip the marks of clipped sessions,
--     Distribution and Report `distribution` and `finishSessions`, Review `ReviewSessions`, which composes them.
--   * Spend.Provider: provider_counts.go. Contract has `readProviderContract`, which reads through BoundedJson, Table has
--     `readProviderCSV`, Entries and Build what `newProviderCoverage` builds, Add has `add`, Report and Report.Filled have
--     `result`, the comparison by day.
--   * Spend.Agents: agents.go, `ValidateAgentOptions`, `resolveAgent` and `ParseRequestTags`; Accumulator has the
--     accumulator, which composes the aggregates of Aggregate.
--   * Spend.Replay: reprice.go, the records that `readReprice` hands to the repricing, with its visitor as a parameter.
--   * Reprice: internal/reprice. Config is config.go with the types of types.go and `validateFactors`; Calculator has the
--     state of calculate.go, `New` and `cost`; Add has `Calculator.Add` and `addFailure`, Report has
--     `Calculator.Result` and `pricedFailures`; Priced composes the three.
--
-- How state and values correspond: a struct is a record, a pointer that may be nil an Option, an error a value
-- of Result, and a method that changes its receiver returns the new one. A Go map with a fixed set of keys is a
-- function from the keys, 0 at an absent key, which is how the code reads it; MergeCounts, which ranges over
-- such a map in no fixed order, takes the order of the keys as an argument. A `uint64` is a natural number whose
-- sums are written out modulo 2 ^ 64. A `big.Rat` of recorded spend is a natural number of units of 10 ^ -344,
-- of which every cost the pattern of `Cost` admits is a whole number; products of them, such as the cost of tokens
-- times a factor, are in units of 10 ^ -694 and, times a fraction, of 10 ^ -1038. A double is a data type with the cases that
-- `Number` tells apart.
--
-- Loops are structural recursion over lists or bytes, with two exceptions: BoundedJson reads tokens on fuel of twice
-- their number and one more, and Provider.Days steps through a period on fuel of one step for each of its days, both
-- of which are proved to be enough. The only bounds are those of a counter, which theorems name as a hypothesis on
-- the number of rows where a counter could wrap.
--
-- Not modelled: the sketches of distinct and frequent items (a library of their own, a parameter of Compare), the
-- assembly of a comparison's report and its other questions, the scan, the report of agents, the keyed hash of
-- identities (a parameter; an identity carries it as a number), the parsers of times and dates and the catalog of
-- public models (parameters), the fixed texts of a report, the file of daily spend and the hash that compares two
-- readings of a file in a review of sessions, decoding, files, the database, flags and printing.
pub mod Base
pub mod Text
pub mod Accounting
pub mod Compare
pub mod BoundedJson
pub mod Spend
pub mod Reprice
