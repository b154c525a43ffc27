-- ===== src/Lib.antt =====
-- Lumberjack writes audit logs for applications on Google Cloud. A Go program either calls the audit
-- client, or lets gRPC interceptors build a log request for each call that a rule matches. The
-- client passes a request through validators, mutators and backends; a backend writes it to Cloud
-- Logging, or sends it to the agent, a gRPC server with a client of its own. This library models
-- the Go client (clients/go), the agent (pkg/server), the validation of log entries (pkg/validation),
-- the commands that pull and validate them (pkg/cloudlogging, pkg/cli), and the tests of deployed
-- services (integration/testrunner), and proves what follows the list of files.
--
-- The files, and the code that each is about:
--   Prelude       Shared names, tests on numbers, lists, and Go's maps as association lists.
--   Errors        clients/go/pkg/auditerrors/auditerrors.go, and how errors are wrapped, joined and
--                 compared. An error keeps its parts apart, so that `errors.Is` is a function.
--   Api           clients/go/apis/v1alpha1/audit_log_request.pb.go and auditlogutil.go beside it: the
--                 log request, its enums, and protobuf's dynamic values. A pointer or a map that may
--                 be nil is an option.
--   Validation    pkg/validation/validation.go (`Validate`, `ValidateAuditLog`, `ValidateLabels`) and
--                 clients/go/pkg/audit/validation.go (`RequestValidator`).
--   Client        clients/go/pkg/audit/client.go: `NewClient` with its options, `Log`, `Stop`.
--   Config        clients/go/apis/v1alpha1/config.go: `SetDefault`, `Validate`, `GetLogMode`.
--   Rules         clients/go/pkg/audit/rules.go: `mostRelevantRule`.
--   Interceptor   clients/go/pkg/audit/interceptor.go: `UnaryInterceptor` here, `serviceName` in
--                 Service, `toProtoStruct` in Convert, the filling of a log request in Setup, and
--                 `StreamInterceptor` with its wrapper in Streams, `NewInterceptor` and its options in
--                 Options, `Context` and `LogReqFromCtx` in Context.
--   Labels        clients/go/pkg/audit/labels.go: `LabelProcessor`.
--   Filtering     clients/go/pkg/filtering/processor.go: `PrincipalEmailMatcher`.
--   Runtime       clients/go/pkg/audit/runtime.go: `newRuntimeInfo` and its `Process`.
--   Justification clients/go/pkg/justification/processor.go: `Process`.
--   CloudLogging  clients/go/pkg/cloudlogging/processor.go: `NewProcessor`, `Process`, `Stop`.
--   Security      clients/go/pkg/security/grpc.go: `RequestPrincipal`. It does not depend on the
--                 interceptor's model, which has the principal as a parameter.
--   Remote        clients/go/pkg/remote/processor.go: `Process`, `Stop`; `NewProcessor`, with the
--                 authentication of idtoken_auth.go beside it, in Dial.
--   AuditOpt      clients/go/pkg/auditopt/config.go: the options of the client and of the interceptor
--                 that come from a configuration file. Delivery and Relay put such a client and its
--                 backend together, in Relay with the agent behind it.
--   Server        pkg/server/server.go: `ProcessLog`; cmd/server/main.go and pkg/server/config.go in
--                 Main, clients/go/pkg/trace/provider.go in Tracing.
--   Puller        pkg/cloudlogging/puller.go: `NewPuller`, `Pull`, `StreamPull`; what is assumed of
--                 the package `retry` in Retries.
--   Cli           pkg/cli: the command `validate` in Validate, and `tail` in Tail, its `Run` in
--                 Tail/Run; the flags and their defaults in Flags.
--   Runner        integration/testrunner: the tests of deployed services, with config.go in Settings,
--                 db.go in Db, http.go in Http and grpc.go in Grpc, its
--                 connection and list of subtests in Endpoint.
--   Tests         Concrete data and runs.
-- A function of the source keeps its name in snake_case; two processors' `Process` and `Stop` carry
-- the processor's name too (process_cloud, stop_remote). A body that branches on results is cut into
-- one definition for each result that it waits for.
--
-- State is explicit. A processor is a function of a request and of a world, of any type, that stands
-- for what it acts on outside: the logging service, the network, a ledger of a test. Its outcome is
-- the world and the request that it leaves, and how the call ended: without an error, with one, or
-- with a panic. A handler of gRPC is a function of the log request in its context and of the world.
-- The handler of a stream acts through calls of `RecvMsg` and `SendMsg`, which are steps on the
-- wrapper's state; a sequence of steps is the relation Run.
--
-- Most loops go through a list and end with it. The two loops of the puller take turns: those of
-- `Pull` are one more than the entries that are wanted, which is enough, and those of `StreamPull`
-- are any number, since its loop has no end of its own. The test runner's loops over an iterator and
-- a stream take a number of turns too, and a run that needs more has no result. Numbers are unbounded: the program only
-- compares lengths and copies numbers. A float64 is its bit pattern.
--
-- Code from elsewhere is a parameter: encoding/json and protojson, Go's regexp, strings.ToUpper and
-- ToLower, the parser of JWTs, the metadata server, environment and files, cfgloader, the parser of
-- flags, the clients of Cloud Logging, the package retry, JVS's validator of tokens, Google's token
-- sources, the source of a call's principal, gRPC's connections, streams and status, and, for the
-- tests, BigQuery, HTTP, the libraries for JWTs, and the generated client of the test service. The order in
-- which Go ranges over a map is that of the model's list.
--
-- Not modelled: signals and exit codes of the main programs, the dispatch of the root command and the
-- help texts of the command line; debug output and generated code; a context's values but for the log
-- request; the closing of the test runner's connections, the applications that it calls, and the side
-- by side run of its subtests; the Java client.
pub mod Prelude
pub mod Errors
pub mod Api
pub mod Validation
pub mod Client
pub mod Config
pub mod Rules
pub mod Interceptor
pub mod Labels
pub mod Filtering
pub mod Runtime
pub mod Justification
pub mod Server
pub mod CloudLogging
pub mod Puller
pub mod Remote
pub mod Security
pub mod Cli
pub mod AuditOpt
pub mod Runner
pub mod Tests
