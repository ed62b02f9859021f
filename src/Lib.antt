-- ===== src/Lib.antt =====
-- LagRadar watches the consumer groups of Kafka clusters. A collector asks Kafka for the offsets of
-- every group, keeps a sliding window of records for each partition of a group, evaluates a status, a
-- trend and a health from the window, adds them up for the group, and writes them to metrics. A hook of
-- the collector, the analyzer, publishes an event to a Redis stream when the status of a partition
-- changes, or when its lag rises rapidly or is cleared; the RCA consumer reads that stream. The monitor
-- makes a collector, with a Kafka client of its own, for each cluster of its configuration, and answers
-- HTTP queries of the statuses that the collectors have stored. For several monitors there are a state
-- store in Redis, of instances, assignments of groups and windows, and a sharding of the groups.
--
-- What models what:
--   Base                  the Go values: int64, strings as lists of bytes, times and durations in
--                         nanoseconds, maps with texts for keys, and an abstract float64
--   Metrics               internal/metrics/metrics.go: the metrics, and a write as an entry of a log
--   Collector.Types       internal/collector/collector.go: the string types and the structs
--   Collector.Evaluator   internal/collector/evaluator.go: a method of LagEvaluator, such as
--                         determineStatus, is a function, such as determine_status; the activity, the
--                         rates and the trend of a window are in Collector.Evaluator.Measures
--   Collector.Window      addToWindow, getWindowRecords and CleanupOldWindows of collector.go
--   Collector.State       the Collector, and KafkaClient with the clock as a record of answers (Round)
--   Collector.Partition   evaluatePartition and updatePartitionMetricsWithCluster
--   Collector.Group       collectGroupMetricsWithCluster and updateMetricsWithCluster
--   Collector.Cycle       CollectMetricsWithCluster, the loop of StartPeriodicCollection as a fold over
--                         the events that wake it, and the queries on the stored statuses
--   Rca.Events            internal/rca/events.go, and PublisherConfig of internal/rca/config.go
--   Rca.Publisher         internal/publisher/publisher.go: PublishPartitionEvent over a Redis interface
--   Rca.Analyzer          internal/publisher/analyzer.go, and the hook of internal/cluster/helper.go
--   Rca.Consumer          internal/rca/consumer/consumer.go: Start, consumeBatch and processMessage over a
--                         Redis stream
--   Cluster               internal/cluster/manager.go: AddCluster, RemoveCluster, Stop and the queries;
--                         what is started, cancelled and closed is a log
--   Cluster.Helper        internal/cluster/helper.go: createCollectorWithRCA, with NewEventPublisher of
--                         internal/publisher/publisher.go
--   Kafka                 pkg/kafka/client.go: NewClient and Close with a log of the handles, the calls, and
--                         the answers that they give the collector
--   Rca.Delivery          the stream between the publisher and the consumer: message_of is what a
--                         consumer reads of an entry, IsStream what both rely on of Redis
--   Rca.Service           cmd/rca/main.go, LoadConfig of internal/rca/config.go and NewConsumer
--   Monitor               cmd/monitor/main.go: main up to the HTTP server
--   Monitor.Server        startHTTPServer of cmd/monitor/main.go, with what it uses of http.ServeMux
--   Monitor.Main          the whole of main, as a relation from its environment to how it ends
--   Monitor.System        the manager with startClusterCollection for each of its clusters: a step adds or
--                         removes a cluster, or wakes the loop of one
--   Api                   internal/api: the handlers as functions from a manager and a path to an answer,
--                         and the routing of /api/v1/clusters/ in cmd/monitor/main.go
--   Distributed.State     distributed/state/state_store.go: Interface has the calls of Redis and JSON, the
--                         errors and the keys, Instances, Assignments and Windows the operations
--   Distributed.Sharding  distributed/coordinator/sharding.go: the configuration and AssignGroups
--   Tests                 concrete data, runs of the definitions, and an instance of each theorem
-- The other children of a module hold proofs and are named for what they prove.
--
-- State is passed explicitly: an operation takes the collector, or the analyzer, or the state of the
-- Redis server, and returns the new one. The loops are structural recursion on the records, offsets,
-- groups, results, events or attempts that are left; no fuel is used but the one of the next paragraph.
-- An int64 sum or difference wraps. A decimal is printed with at most twenty digits, which is enough for
-- an int64.
--
-- The loop over the pages of a scan has MaxIterations of the source for fuel, and the loop of the RCA
-- consumer the number of batches before its context is done.
--
-- Parameters: float64 (Base.Float; no law of it is assumed), the Kafka library, the answers of Kafka and
-- of the clock, the value kafka.OffsetInvalid, MD5, JSON, YAML, the parsing of durations, the generator of
-- identifiers, and the handlers of events. The manager takes the constructors of a client and of a hook
-- as a record (World), which Cluster.Helper fills. Redis is a parameter with laws: IsRedis on SETNX and
-- the keys that are set, IsStream and IsGroup on a stream and a group that reads it, IsExpiring and
-- IsSeparate on values with a time, IsTransactional on a transaction that writes a hash and a key. The
-- ring of the consistent hash library is one with the law IsRing.
--
-- The goroutines of the groups run one after the other in a collection, in the order of the groups;
-- Collector.Cycle.Goroutines has their steps between the locks as a relation (Move, Runs), in any order,
-- and Collector.Cycle.Goroutines.Semaphore the turns of the channel that bounds their number (Turn).
-- A step that evaluates reads the window, calls the hook and writes the metrics at once, since what the
-- others do between these changes no status.
--
-- Not modelled: locks, logs, the pauses between attempts and after errors, the texts of messages beyond
-- their format and arguments, the connection to Redis, the liveness probe and the answer with the
-- configuration, which print values of the runtime and of YAML, the errors of the HTTP server,
-- NewWithConfig of the collector, which no code calls, a negative MaxConcurrency, metrics paths with the
-- hosts, methods, wildcards or escapes of the patterns of http.ServeMux, escaped slashes of requests, and
-- the types of distributed/distributed_configs.go that no code reads.
pub mod Base
pub mod Metrics
pub mod Collector
pub mod Rca
pub mod Cluster
pub mod Kafka
pub mod Monitor
pub mod Api
pub mod Distributed
mod Tests
