-- ===== src/Lib.antt =====
-- The tracing library of this repository: spans are made by a tracer, ordered by vector clocks,
-- and sent to a collector through a circuit breaker, with a buffer for what could not be sent.
--
-- The parts, and the files that model them:
-- - Clock: `VectorClock` of pkg/clock.go, a map from node ids to `uint64` counters. `increment`,
--   `merge`, `compare`, `copy`, `to_proto` and `vector_clock_from_proto` are its methods and
--   `VectorClockFromProto`; `count + 1` wraps at 2 ^ 64.
-- - Ordering: `OrderSpans` of pkg/clock.go, which the collector's `BuildTraceTree` calls. The graph
--   of causes is `build_graph`, the depth-first search `visit`, with the maps `temp` and `visited`
--   in the record `Visit`. Go's order of iteration over a map is the argument `order`.
-- - Concurrent: `DetectConcurrentEvents` of pkg/clock.go.
-- - Breaker: `CircuitBreaker` of pkg/reliability.go. `execute` is composed of `probe`, `admit` and
--   `settle`, the steps that are done between two uses of the mutex, so that an interleaving of two
--   goroutines is a sequence of these.
-- - Span: `Span` of pkg/tracer.go, its options and setters, and `ToProto`.
-- - Buffer: `SpanBuffer` of pkg/reliability.go and the file that it is written to, over any file
--   system and any JSON of its spans.
-- - Storage: `StorageInterface`, `matchesFilter` and `MemoryStorage` of pkg/storage.go. `page` is
--   the limit and the offset at the end of its `ListTraces`; `sort.Slice` is an argument.
-- - Collector: pkg/collector.go over any storage that has the laws of `IsStorage`, which the storage
--   in memory fills. `store_span` is `StoreSpan`, composed of the read (`opened`), the change
--   (`with_span`) and the store, since no lock is held over the three; `replicate_spans`,
--   `collect_span`, `serve_trace` and `serve_list` are handlers, and `merge_traces` is the loop of
--   `MergeFromReplicas` over one replica's answer. Collector/LogFile is `ProcessLogFile`.
-- - Tracer: `Tracer` of pkg/tracer.go: `start_span`, `finish_span` and `try_submit_span` are its
--   methods, `worker_turn` is one turn of `startFlushWorker`, and `Step` what may happen to a tracer.
-- - Sampler: the three samplers of pkg/tracer.go. Retry: `ExponentialBackoff` and
--   `RetryWithExponentialBackoff` of pkg/reliability.go; the loop is on the attempts that are left.
-- - Context: `StartSpanFromContext` of pkg/tracer.go, for the metadata of an incoming call.
-- - Metadata: how a span travels with a call, `InjectSpanToMetadata` and `ExtractSpanFromMetadata` of
--   pkg/interceptor.go, with the JSON of a clock as a parameter.
-- - Interceptor: the interceptors of pkg/interceptor.go around any handler, which gets the span and
--   the tracer and returns them, since both are shared. Interceptor/Streams: the wrapped streams, as
--   sequences of what the stream below returned.
-- - Files: `FileStorage` of pkg/storage.go, over any file system and any JSON. Index: the entries of
--   its index and `matchesFilterEntry`.
-- - Conversion: `TimestampConverter` of pkg/clock.go.
-- - Analysis: pkg/analysis.go, with the arithmetic of `float64` as the parameter `Floats`.
--   Analysis/Latency is `AnalyzeLatency`, Analysis/Dependencies the graph of services, and
--   Analysis/CriticalPath `IdentifyCriticalPath`, whose tree is built on fuel. Analysis/Bottlenecks,
--   Analysis/Anomalies and Analysis/Sla are the other analyses, and Analysis/Report is
--   `GeneratePerformanceReport`, which calls them all.
-- - Wire: the structs of proto/tracer.pb.go. Time: instants and durations of Go's `time` package.
-- - Table: a Go map as an association list. Prelude: lists, tests, results and integers.
--
-- A Go map is a list of keys and values that a write keeps free of duplicates (`IsMap`). `int` and
-- `int32` are integers with their wrap-around where the code adds. A nil pointer is `none`; a panic
-- is the result `panic`, an error `err`. The time of a call, the random source and the answer of a
-- remote call are arguments.
--
-- Fuel: the search of `OrderSpans` gets one more than the number of keys of the graph. That is
-- enough for every input, and no theorem assumes that it is. The tree of `IdentifyCriticalPath` gets
-- any fuel: more than the rank of the root is enough where parents have larger ranks than children,
-- and none is where they go round in a cycle.
--
-- Not modelled: the generated code of proto/, logging, the main programs of collector/ and
-- visualiser/, the sample services, the pages and the Python script. `DetectCollectorFailure`, and
-- the collector's timers and connections are not modelled either, nor are `NewTracer`,
-- `NewCollector` and `NewFileStorage`, which set defaults, connections and directories.
mod Prelude
pub mod Table
pub mod Wire
pub mod Clock
pub mod Ordering
pub mod Concurrent
pub mod Time
pub mod Breaker
pub mod Span
pub mod Buffer
pub mod Storage
pub mod Collector
pub mod Tracer
pub mod Retry
pub mod Sampler
pub mod Context
pub mod Index
pub mod Conversion
pub mod Metadata
pub mod Interceptor
pub mod Analysis
pub mod Files
