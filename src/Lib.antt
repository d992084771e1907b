-- ===== src/Lib.antt =====
-- Is It SQL: the scripts under static/js that the pages of the monitor load, and the packages of its
-- server, written in Go under internal, that keep what it samples.
--
-- A page asks the server for JSON and draws it (isitsql-charting-1.0.js), and sorts its tables. The
-- table sorter calls a parser for each cell and orders the rows by the keys: the parsers for durations
-- and countdowns (parser-duration.js), for numbers with a metric prefix (parser-metric.js), and the
-- version library (semver.js, a fork that is changed in this repository) for versions.
--
-- Which file models what:
--   Common      lists, options, texts (lists of UTF-16 code units), Boolean tests, integers.
--   Regex       the regular expressions that the scripts use: the data type, its backtracking matcher
--               and the methods match, test, replace and split. Where an expression matches, the
--               matcher tries the leftmost place first, and longer repetitions before shorter ones.
--   Semver      static/js/semver.js. Patterns is the table `src`; Number is the arithmetic of doubles on
--               digits; Version is the class SemVer, parse, valid and clean; Compare is compare and the
--               relations; Inc is inc and diff; Replace is parseComparator and hyphenReplace with what
--               they call; Comparator is cmp, the class Comparator and the sorting; Range is the class
--               Range, satisfies, maxSatisfying and validRange; Outside is outside, gtr and ltr;
--               Printing is the methods toString and inspect.
--   Charting    static/js/isitsql-charting-1.0.js. Options holds the option objects, Series the points
--               and datasets, Charts the functions NewWaitsChart, NewDiskChart and NewCPUChart.
--   Sorter      static/js/parser-duration.js and static/js/parser-metric.js. Padding is what the parsers
--               of durations share; Duration, Countdown and Metric are the functions `format`; Parsers
--               is what is registered with the sorter.
--   Maps        maps, as association lists, with what is found in them after a change.
--   Rings       the ring buffers. WaitRing is internal/waitring/waitring.go without Top, LogRing
--               is internal/logring/logring.go, SampleRing is internal/cpuring/ring_cpu.go, and its copies in
--               internal/metricvaluering, internal/metric and internal/appringlog by a record of what
--               they differ in. Slots and Turn are about slices that are read from any slot on.
--   Waits       the waits of a server. Mapping is Lookup of internal/waitmap/waitmap.go, and Groups its
--               ReadWaitMapping and SetWaitGroups; Box is the part of internal/dwaits/box.go that
--               polls and emits, Box/Run its two tickers, and Box/Start Start, setup and Stop, a step
--               relation; Repository is internal/dwaits/repository.go, Repository/Calls a
--               sequence of its calls, and Repository/History ReadHistory; Server is
--               a Box with the repository; Top is Top of internal/waitring and of the repository, with
--               internal/waitring/sortedmap.go. A Box looks up the group of a wait in the mapping, and gives
--               its waits to the repository, which keeps a WaitRing for each server.
--   Backups     internal/agbackup/agbackup.go, the table of the latest backups; Backups/Reports is a sequence
--               of reports of backups.
--   Tags        internal/tags/tags.go, Merge.
--   Sessions    internal/mssql/session/session.go: populateBlocking, headBlocker, and the filter and the
--               order of Get. headBlocker runs on the calls that are left, 101 at the start, as in the code.
--               Chains and Blockers say what a chain of blockers is, apart from the code.
--   AvailabilityGroups
--               internal/hadr: ag_map.go, SetDisplayName and ListenerNames of hadr.go, and latency.go from
--               the rows on. The poller sets each group, and then the latencies.
--   Connections internal/c2: makeMap of config_map.go with the types of hcl_connections.go and
--               connection.go; Slashes is FixSlashes of utils.go, and Files ReadFile and GetHCLFiles
--               of files.go, where os.ReadFile and hclsimple.Decode are parameters. The tags of a
--               server are merged with the defaults by Tags, and the names of groups go to the map of
--               AvailabilityGroups.
--   Settings    internal/settings: servers.go, credentials.go and connections.go; Settings/Calls is a
--               sequence of operations on the file of connections, Logins the ways to log in,
--               Readable ReadConnectionsDecrypted.
-- In each of them the modules named Laws, Holds, Maximum, Order, Releases and RoundTrip hold proofs, and so do the modules
-- below Rings/SampleRing, Rings/LogRing, Waits/Box, Waits/Repository, Waits/Top, Backups, Sessions,
-- AvailabilityGroups, Connections and Settings; those named Run, Calls, Reports and Queue also define the sequences
-- of operations. Tests holds runs and the theorems at concrete inputs.
--
-- Code that throws is a `Result`, and a caught error is an `Option`. An object that a function changes
-- is an argument and a part of the answer: the version that inc changes, the configuration of the table
-- with the pattern that the first call leaves there, the data of a header. What a chart does to the page
-- is a list of effects.
--
-- In the Go packages a method is a function from the state to the answer and the state; a method that
-- would panic is an `Option`. The calls and the rounds of the tickers are a sequence: a method holds its
-- lock while it runs, except that Repository.Write gives up the lock of the repository before it writes to
-- the ring, and the Delete of agbackup has no lock; what could step in there is not modelled. What the
-- database answers, and the clock, are arguments; strings.ToUpper, ToLower, TrimSpace and EqualFold are
-- parameters, and so are dpapi, mssqlh and coalesce, which are other projects, and the one sort by a comparison that is no order. The other sorts are by insertion
-- (Common/Sort), which is stable. The counts and sums of milliseconds are taken to stay below 2^63.
--
-- Numbers are natural numbers. Where digits are read or a number goes up, the answer is rounded as
-- doubles are (to 53 bits, ties to even), so the theorems on versions ask for numbers below 2^53.
-- Repetitions in a pattern run on fuel, the length of the text that is left; a round of a repetition
-- that consumes nothing ends it, so each round that counts consumes a code unit and that is enough.
-- Printing a number runs on the number plus one, a round for each digit.
--
-- Not modelled: Chart.js, jQuery, Bootstrap, date-fns, lodash and the table sorter itself, which are
-- copies of other projects (lodash.merge, Date.now, $.tablesorter.formatFloat and the product of floats
-- are parameters where the scripts call them); the debug output and the module wrappers; a text of the
-- configuration that is read as a regular expression (durationLabels), which is given as one. Of the
-- server: JSON and Display of the rings, the files behind the repository (internal/bucket), the other packages
-- under internal, and the web application under app: I/O against the database, the directory, the files and the browser.
pub mod Common
pub mod Regex
pub mod Semver
pub mod Charting
pub mod Sorter
pub mod Maps
pub mod Rings
pub mod Waits
pub mod Backups
pub mod Tags
pub mod Sessions
pub mod AvailabilityGroups
pub mod Connections
pub mod Settings
