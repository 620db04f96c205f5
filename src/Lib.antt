-- ===== src/Lib.antt =====
-- natsx wraps the Go client of NATS, nats.go: a configuration, read from a record or from the environment,
-- opens a client; envelopes are published, requested and handled under subjects of a convention; streams and
-- consumers are made idempotently; errors are classified by kind and by whether a retry may help. On top
-- stand an ingest adapter and the ledger of the repository's goal commands. Beside the package are the tools
-- of the repository, of which the debt check and some checks of the command goalcli are modelled, and
-- templatex, a template of such a client.
--
-- The parts, by file, with the source from the repository's root:
--
-- Base            lists, texts, decimal numbers, maps with text keys, equality tests: what the code uses of
--                 Go's `strings`, `unicode`, `strconv` and of its maps
-- Errors          pkg/natsx/errors.go: `Error` is Go's `error`, with `nil` a value of it
-- Subject         pkg/natsx/subject.go: `BuildSubject`, `ParseSubject`, the builder and the two validators
-- Nats            the parameters that stand for nats.go: headers and messages (Nats/Header), the calls of a
--                 connection and of a context (Nats/Conn)
-- Envelope        pkg/natsx/envelope.go: `ToMsg`, `EnvelopeFromMsg` and the header helpers
-- GoLib           the parameters that stand for `net/url` and `time`
-- Sanitize        internal/sanitize and internal/validation
-- Config          pkg/natsx/config.go: defaults, `Validate`, `Sanitize`
-- Env             pkg/natsx/env.go: `LoadConfigFromEnv` and its helpers; an environment is a function
-- Metrics         pkg/natsx/metrics.go: a call on a metrics implementation is recorded in a log
-- Client          pkg/natsx/client.go and options.go: `New`, `Wrap`, `JetStream`, `Close`
-- Core            pkg/natsx/core.go: `ready`, `Publish`, `Request`, `Subscribe`, the subscription callback
-- Health          pkg/natsx/health.go: `HealthCheck`
-- JetStream       pkg/natsx/jetstream.go; the two configuration matches are in JetStream/Configs
-- Ingest          pkg/natsx/ingest/ingest.go: publisher and pull consumer
-- GoalRuntime     internal/goalruntime/goalruntime.go: `Evaluate`, the ledger, `WriteEvidence`
-- Debt            internal/debtcheck/debtcheck.go: `Run`, `ExitCode` and the mode and section tables; the files
--                 it reads (Debt/Tree), the walk (Debt/Walk), the scans (Debt/Scan), the downstream contract
--                 (Debt/Downstream, Debt/Contract), the counts and the score (Debt/Counts), the evidence
--                 (Debt/Evidence) and the text of a report (Debt/Markdown)
-- Makefile        cmd/goalcli/governance.go: the blocks and dependencies of Makefile targets, the graph of the
--                 context targets (Makefile/Graph), the gaps that are found there (Makefile/Gaps), and the table
--                 of context profiles (Makefile/Profiles)
-- IssueRegistry   cmd/goalcli/governance.go: the issue registry, its entries and their numbers
-- Traceability    cmd/goalcli/traceability.go: the rows of the matrix and the check of their artifacts
-- Templatex       pkg/templatex: errors, configuration, client and health; calls of `Close` beside each other
--                 run in steps (Templatex/Interleaving), and one alone comes to what the function does
--                 (Templatex/Alone)
-- Tests           concrete instances of the parameters, and the theorems at concrete inputs
--
-- How state is modelled. The code keeps its state in the connection, in the server and in the metrics. A
-- function that acts on them takes a `State`, a world that is a parameter together with the log of metric
-- calls, and returns the next one. Every call of nats.go is a function of a record over that world, so that
-- a theorem holds for every behaviour of the connection and of the server; laws that nats.go documents are
-- named records (`ClosesConn`, the laws in `HeaderApi`). The debt check and the Makefile checks keep no state
-- but what their loops pass on, `seen` and `visited` among it. The mutex of pkg/templatex is a flag, for
-- which a call at the lock waits. A pointer or an interface that may be nil is an `Option`. Where Go returns a value and an error,
-- the model returns a `Result` or the two in a tuple.
--
-- Interaction. `Core` and `Health` read the client that `Client` makes; `Core` and `JetStream` send what
-- `Envelope` makes of an envelope whose subject `Subject` accepts; all report through `Errors` and `Metrics`;
-- `Ingest` takes any publisher, and `Ingest/Publishing` instantiates it by `JetStream`. The exit code of the debt
-- check comes from the counts of what the scans find on the walk; its evidence is read off the same report.
--
-- Bounds and termination. A Go `int` that is parsed keeps its range of 64 bits (`max_int64`), and so does the
-- round trip of subjects. All loops are structural recursion, on texts, lists or the sequence of wake-ups of
-- `Close`: the loop waits on three channels, and a sequence says which of them wakes it and what has become of
-- the world meanwhile. `close` is none where the sequence ends while the loop still waits; Client/Closing says
-- which sequences are long enough. The two searches of the graph of targets and the one of the table of
-- profiles run on fuel, one more than the graph or the table has entries; it is enough, as each step down
-- adds to the targets seen, or to those in progress.
--
-- The debt check. A directory is a tree, with what cannot be read as a case of its own; an error ends the walk,
-- and the code drops it. Scores and minima are natural numbers of hundredths: the code rounds to two decimals,
-- and a minimum that is negative or has more of them is not modelled. `sort.Slice` is taken for a stable sort.
--
-- What is not modelled: clocks, and with them latencies, the time of a check and the length of the drain timer;
-- the handlers that count disconnects and reconnects (only that they are installed); goroutines other than
-- the callback of a subscription, which is a function on one message, and the calls of `Close` of templatex;
-- the closures of a fetched message; texts that are not valid UTF-8; the pointer identity of results. A nil
-- map and an empty one are the same list. Of cmd/goalcli the Makefile checks, the table of context profiles,
-- the issue registry and the traceability check are modelled: the rest parses flags, reads files, runs git
-- and prints. `ReadReport` of
-- internal/debtcheck, internal/releasequality, internal/tools, the test kit and the examples are not modelled:
-- they read files, run programs and print.
pub mod Base
pub mod Errors
pub mod Subject
pub mod Metrics
pub mod Nats
pub mod Envelope
pub mod GoLib
pub mod Sanitize
pub mod Config
pub mod Env
pub mod Client
pub mod Core
pub mod Health
pub mod JetStream
pub mod Ingest
pub mod GoalRuntime
pub mod Debt
pub mod Makefile
pub mod IssueRegistry
pub mod Traceability
pub mod Templatex
pub mod Tests
