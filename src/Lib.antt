-- ===== src/Lib.antt =====
-- A model of neksur's core: its policy path, from the text of a policy to the SQL that a query engine
-- runs, and the parts beside it that keep state of their own: the registry of tenants, the snapshot
-- pins, the credentials that are vended for a table's files, and the gateway that lets commits of
-- tables through if the policies in CEL allow them.
--
-- A policy's body is a fragment of SQL. internal/policy/compiler/sql_grammar.go parses it to an
-- AST, compiler.go beside it converts the AST, and internal/policy/compiler/dialect/trino.go and
-- spark.go write it out again in the engine's dialect; compiler.go probes the text on the engine
-- and stores it. At query time internal/sqlproxy/dialect/splice.go takes a query of one supported
-- shape, `SELECT list FROM table [WHERE ...] [tail]`, and puts the compiled text into it as a
-- further condition of its WHERE clause or in place of masked columns. Which text that is, the
-- injectors of trino.go, spark.go and dremio.go beside it decide, from the rows that
-- internal/policy/store loads for the table and from a cache; they first set the FROM clause to a
-- pinned snapshot. internal/sqlproxy/server.go calls the injector that stands under the engine's
-- name and turns its result into a reply.
--
-- Bytes. A Go string is a `List` of byte codes (Prelude/Text). A parser or scanner whose state is
-- an offset into an immutable string takes and returns the bytes that are left; an advance of the
-- offset is the tail of the list. Word characters are ASCII, as in the code.
--
-- Which file models which code:
--   Fragment/Ast, Lexer, Literal, Parser, Mask   internal/policy/compiler/sql_grammar.go: the AST,
--     the `parser` methods by their own names in snake case, `ParseRowFilter`, `ParseColumnMask`
--   Dialect/Ast                the AST of the emitters and compiler.go's `adaptNodeForDialect`
--   Dialect/Trino, Spark       `CompileRowFilter`, `CompileColumnMask`, `emitPred` of the two files
--   Compile/Artifact, One, Probe   `compileArtifact`, `compileOne`, `persist` of compiler.go, and
--     `Run` of probe.go
--   Splice/Scan, Trim          the scanners of splice.go, with depth and quotes in a `Mode`
--   Splice/Select              `parseSelect`, in the order of its steps, and `validateTail`
--   Splice/Mask                `parseMaskProjections`, `parseProjectionList`, `applyMasks`
--   Splice/Rewrite             `SpliceArtifact` and its two rewriters, `RewriteFromForSnapshotPin`
--   Inject/Model               the types of internal/sqlproxy/injector.go, internal/sqlproxy/errors.go
--     and internal/policy/store/compiled.go
--   Inject/Rows, Trino, Spark, Dremio   `InjectPolicy` of the three engines, in its steps
--   Proxy/Handler, Build       `handleInject` of internal/sqlproxy/server.go, `BuildInjector`
--   Proxy/Eviction             `Invalidate` of internal/sqlproxy/cache.go
--   Tenant/Rows, Lifecycle     `Create` and `SetLifecycleState` of internal/tenant/repo.go, over
--     the rows of public.tenants;
--     `Suspend`, `WindDown`, `Delete`, `transitionLifecycle` of lifecycle.go beside it,
--     `UpdatePoolAndDSN` of pool_b_migrate.go
--   Graph/Literal              internal/graph/safe_cypher.go
--   Snapshot/Pins, Store       `UpsertSnapshotPin` and `ActivePinsForTable` of
--     internal/coordination/snapshot/pin.go on a graph of nodes and edges; the sweep of pin_sweep.go
--   Iceberg/Catalog            types of internal/iceberg/client.go
--   Credvend/Cache, Service, Handler   `Get`, `Add`, `Issue` and `Handler` of internal/credvend
--   Credvend/Policy            internal/credvend/sessionpolicy/sessionpolicy.go
--   Cel/Value, Functions, Attribute, Evaluate   the bindings of internal/policy/cel/functions.go over
--     JSON-like values; `Evaluate` of eval.go beside it
--   Gateway/Coordinator, Project, Commit, MultiTable   internal/gateway/iceberg: writecoordinator.go; the
--     projections and `CommitHandler` of handler.go, whose effects are a list of events; multi_table.go
-- The other files hold lemmas and theorems on these: Fragment/Sound, Shrink and Predicate on what
-- the parser returns, Dialect/Print, TrinoText, SparkText and Reparse on the text that is emitted,
-- Splice/Boundaries, Cuts, Steps, FirstCut, Masked and Pinned on the splicer, Inject/Verdict, Fresh,
-- Order and Cached on the injectors, Proxy/Served, Closed, Evicted and Requeried on the proxy,
-- Compile/Active and Kindless on the compiler, Tenant/Moves, Effect, Reach and Terminal on the
-- lifecycle, Graph/ReadBack on literals, Snapshot/Edges, Complete, Reach, Served and Written on the
-- pins, Credvend/Issued, Keys, Scope, Replies,
-- Bucket and Separate on the credentials, Cel/Found and Tagged on the bindings, Gateway/Forwarded,
-- Through, RejectAll and Unseen on commits. Tests holds runs of the code.
--
-- A snapshot pin is a node of the tenant's graph with an edge to the table that it pins, found by
-- Cypher statements whose literals internal/graph checks first. What a table's pins are is cached.
-- internal/gateway/iceberg takes the commit of a table: it loads the table and its policies, gives both
-- with the request and the principal to internal/policy/cel, and forwards the commit to the catalog.
-- internal/credvend caches the credentials that a catalog's adapter issues, per tenant, table and
-- region. Calls are taken one at a time, each with the time at which it runs.
--
-- Fuel. The parser of row filters is mutually recursive with no structural argument, and runs on
-- five units of fuel a byte and five more (`fuel_for`): a level of brackets passes through five
-- calls and consumes a byte. An IN list takes what is left of it. The parser of column masks takes
-- a unit for each projection, and has one for each byte and one more.
--
-- Errors. A Go error that wraps a sentinel is the sentinel; messages are left out. A parse error
-- keeps the bytes where it arose.
--
-- Parameters. The LRU cache, the artifact store and the pin store of the proxy are fields of `Deps`,
-- and what the compiler calls, cel-go and the engines' executors among it, of `Emitters` and
-- `Compiler`, which a theorem takes for any functions; where one needs a law of the cache, it is a
-- hypothesis. The caches of pins and of credentials are an `Lru` with the laws `IsLru`
-- (Prelude/Caches). A statement to a database or to the graph may fail wherever a record of faults
-- says so; a transaction that fails is rolled back.
--
-- Not modelled: the cel-go evaluator, the databases, the catalog adapters, the rest of HTTP,
-- licensing, ingest and detection; they are input and output around this path, or third-party
-- code.
pub mod Cel
pub mod Compile
pub mod Credvend
pub mod Dialect
pub mod Fragment
pub mod Gateway
pub mod Graph
pub mod Iceberg
pub mod Inject
pub mod Prelude
pub mod Proxy
pub mod Snapshot
pub mod Splice
pub mod Tenant
pub mod Tests
