-- ===== src/Lib.antt =====
-- helm-c-sdk: the Helm SDK behind a C ABI.
--
-- The program. C callers hold numbers; the Go objects that the numbers stand for live in one registry
-- (internal/handles/handles.go). An export of capi/*.go checks its pointers, resolves its handles,
-- decodes its options from JSON, calls one operation of pkg/wrapper/*.go, and writes the result, the
-- error text and a code of pkg/cerrors/cerrors.go for the caller. An operation builds an action of the
-- Helm SDK from the options, resolves the chart if it needs one, runs the action and turns the answer
-- into JSON.
--
-- How it is modelled. A Go function that returns (T, error) is a Result; one that changes something is
-- a Go computation, a function from the state to an outcome (returned, failed, panicked) and the next
-- state, and is composed in do blocks the way the source composes it. The state is Process: the
-- registry, the *action.Configuration and *wrapper.Config objects behind addresses, the log handler,
-- and the world outside with the contexts that were cancelled. A nil pointer is `none` or an address
-- that holds nothing, and dereferencing it panics. An `any` that the registry holds is Object.
--
-- Which file models which part:
--   Base                 numbers, lists, maps and texts of Go
--   Errors               pkg/cerrors/cerrors.go: Code, CodedError, WithCode, Wrap, FromError
--   Result, Go           (T, error), state, panics and defer
--   Handles              internal/handles/handles.go: Registry, Put, Get, Free, FreeTyped, Count; a run
--                        of calls is any interleaving of threads, since each call holds the lock;
--                        Handles.Refinement has its specification, a function from handles to objects
--   Json, Options        pkg/wrapper/json.go (decodeOptions) and the option structs of pkg/wrapper with
--                        their Parse functions: a table of visible fields for each struct
--   Sdk                  the parameter that stands for the Helm SDK and the operating system
--   Process              the state, and the relations between the states before and after that code
--                        respects (Respects), with the rules for the code that is made of such code
--   Wrapper.Strategies   parseDryRun, defaultWaitStrategy, applyTimeout and the other option texts
--   Wrapper.Failures     wrapActionError
--   Wrapper.Settings     settings.go, and privateTempDir, removeBestEffort
--   Wrapper.Config       config.go: NewConfig, Close, forNamespace, detachedConfiguration
--   Wrapper.Charts       as and unmarshalValues, LoadChart
--   Wrapper.Clients      registry.go and distribution.go: clients, PullChart, PushChart, login, tags
--   Wrapper.Dependencies dependency.go: update, build, the private repositories.yaml, the statuses
--   Wrapper.ChartRef     chartForAction, pullChartRef, ensureDependencies
--   Wrapper.Rendering    postRendererFor and the shared rendering options
--   Wrapper.Prologue     checkNotCancelled, actionPrologue
--   Wrapper.Install      install.go; Wrapper.Upgrade: upgrade.go
--   Wrapper.Releases     release_actions.go; Wrapper.Summaries: release.go
--   Wrapper.Testing      testing_action.go: TestRelease, CheckReachable, SetConfigRegistryClient
--   Wrapper.Show         chart.go: ShowChart, showFormat, localChartPath
--   Wrapper.ChartData    chart.go, strvals.go: charts as JSON, charts on disk, the --set family
--   Wrapper.Repos        repo.go, verify.go, values.go: indexes, provenance, effective values
--   Capi.Boundary        convert.go and the shared bodies stringResult, handleResult, statusResult
--   Capi.Registry        registry.Get and the typed free of extra.go
--   Capi.Contexts        config.go: configurations and cancellation contexts behind handles
--   Capi.Actions         actions.go: install, upgrade and the release actions
--   Capi.Charts          chart.go, dependency.go: loading charts, chart directories
--   Capi.ChartData       chart.go, strvals.go, and the chart and --set exports of extra.go
--   Capi.Repos           the exports of Wrapper.Repos
--   Capi.Registries      registry.go, and the registry exports of extra.go
--   Capi.Tags            the type tags of the registry, and the exports that put and free objects
--   Capi.System          sequences of exports, with other changes of the world between them
--   Tests                a small Sdk on which the theorems are tried, and tests
--
-- Bounds. A handle is a uint64 and the counter wraps at 2 ^ 64; the theorems on handles ask that fewer
-- are issued. A timeout is an int64 in nanoseconds and wraps. A buffer's length is a uint64 that is
-- narrowed to an int32. Printing a number in decimal has fuel for 20 digits, which is what numbers below
-- 2 ^ 64 need; no other function has fuel: every loop of the source that is modelled goes over a list,
-- and is structural recursion.
--
-- The Helm SDK and the operating system are the record Sdk, an argument of all that uses them: its
-- calls may end in any way and do anything to the world outside, and an action may overwrite its
-- configuration, but not the rest of the process. What a theorem needs beyond that is a named
-- hypothesis: KeepConfiguration says that a constructor of an action keeps the pointer it is given.
--
-- Not modelled: how a `char *` is allocated and freed, and a caller that passes one address for both
-- out-parameters (only what is behind the pointers is); two threads inside one export, except for the
-- registry, whose calls interleave; text after the first JSON document and the scanner that splits a
-- text into tokens, and an exponent of 0 in the literal of a number (1e0), which encoding/json refuses as
-- an int; the float32 that holds the query limit; the order that sort.Slice leaves ties in;
-- the version texts of capi/capi.go; the logging bridge (capi/logging.go, pkg/wrapper/logging.go),
-- which hands records to C callbacks; the bridges and fixtures of the tests. Rendering, linting,
-- packaging and signing are not modelled beyond their options: their bodies are mostly calls of the
-- SDK. Their exports are no part of the sequences of Capi.System, nor is the change of the log handler.
pub mod Base
pub mod Errors
pub mod Result
pub mod Json
pub mod Options
pub mod Go
pub mod Sdk
pub mod Process
pub mod Wrapper
pub mod Handles
pub mod Tests
pub mod Capi
