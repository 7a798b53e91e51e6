-- ===== src/Lib.antt =====
-- tsflow polls the network flow logs of a Tailscale network, aggregates them by minute, stores
-- the aggregates in SQLite, and serves them over HTTP and MCP. This library models the part of
-- its Go backend (backend/internal) where the program's own logic lies, and leaves SQL, HTTP and
-- the Tailscale client as arguments or out.
--
-- How the parts meet: the poller (Poller) fetches a range of logs, converts them to flow records
-- (Convert), aggregates the records (Aggregate) and commits the aggregates; with an object store
-- it reads objects instead (Ingest); the rolling cache (Rolling) keeps the last hour of them in
-- memory for live views; graph reads cut their window into hours and minutes (HourPlan), and
-- those of older hours go through the closed-hour cache (HourCache), which every commit reports
-- to; every HTTP request passes the access check (Access), which decides the tailnets that the
-- viewer may see, one of which it is bound to (Tailnets), and whose denials are logged at a
-- limited rate (DenyLog); the MCP tools bound every query by a window and a page (Window).
--
-- HourCache models backend/internal/database/closed_hour_cache.go. HourCache/Lru.antt and
-- HourCache/State.antt hold the state (container/list elements with an identity, the map of
-- entries, the epoch, the touched hours and the prune floors) and one function per method; a
-- method runs under the mutex, so it is one step. HourCache/Protocol.antt is the interleaving of
-- readers (readClosedSpan of node_pair_parallel.go) with writers (commitWriteTouching of
-- store_lock.go and Cleanup of maintenance.go). The rows of an hour are one abstract value, and
-- so is the size that estimateSize gives them. The eviction loop gets one round of fuel for each
-- element, since every round removes one.
--
-- Access models backend/internal/access and ParseGrant of backend/internal/config/access.go:
-- allow lists, device scopes, the reading of headers and forwarded addresses, and Resolve. Text
-- is a list of characters; strings.TrimSpace, Split and Join are written out. net/netip,
-- net.SplitHostPort, mime, encoding/json, strings.ToLower and the WhoIs service are arguments.
-- Header names, log lines and the gin middleware are left out.
--
-- Aggregate models backend/internal/services/aggregator.go whole: Aggregate/Flow.antt has the
-- flow record and its keys, Aggregate/Tables.antt and Aggregate/State.antt the maps of the loop
-- and one round of it, Aggregate/Rows.antt the returned rows. The device cache is an argument.
-- JSON texts stand as the lists and maps that they encode. int64 counters are bit patterns below
-- 2 ^ 64 with wrapping addition.
--
-- Rolling models two parts of backend/internal/services/rolling_cache.go: Rolling/Cover.antt the
-- floor of completeness and the test whether a window is covered (its loop has more rounds of
-- fuel than the last bucket has minutes), Rolling/Buckets.antt the rows of one minute bucket,
-- found by the index or by a scan of Prelude/Slots.antt; how two rows of one key are merged is an
-- argument there.
--
-- Poller models backend/internal/services/poller.go over the logs API: Poller/Range.antt one
-- range, Poller/Chunks.antt the chunks of a long one (a round of fuel for each chunk and one
-- more), Poller/Poll.antt and Poller/Record.antt a whole poll and its record,
-- Poller/Lifecycle.antt Start, Stop, TriggerPoll and the end of a loop as steps in any order. The
-- store, the clock, the context and the API with the conversion of its answer are the interface
-- Outside of Poller/State.antt, whose laws are the record Lawful; they say that the store keeps
-- the later of two cursors in whole seconds, which is upsertPollCursor of
-- backend/internal/database/maintenance.go. The poll of an object store is an argument. Callbacks
-- for metrics are left out.
--
-- HourPlan models the plans of backend/internal/database/hour_rollup.go (HourPlan/Plan.antt) and
-- the spans that node_pair_parallel.go and readNodePairAggregates of node_pair_read.go cut a
-- window into (HourPlan/Spans.antt). The rows are abstract: a counter of the minutes and one of
-- the hours. Loops get more rounds of fuel than a span has seconds or hours; the SQL seeks are
-- arguments.
--
-- PairGroups models the groups of rows that such a read sums up, pairGroup, protoSums and
-- portSums of node_pair_read.go with their merges of node_pair_parallel.go: PairGroups/Sums.antt
-- the sums by key with their index (Prelude/Slots.antt), PairGroups/Group.antt the groups,
-- PairGroups/Packing.antt and PairGroups/Packed.antt the packed form in which
-- closed_hour_cache.go keeps them. A row has its columns decoded, and one key is looked at.
--
-- Tailnets models the registry of backend/internal/services/registry.go (Tailnets/Registry.antt)
-- and BindTailnet of backend/internal/handlers/tailnet_scope.go (Tailnets/Bind.antt), which
-- decides the tailnet of a request over the viewer's allow list. The service and the poller of a
-- tailnet are one value.
--
-- Convert models backend/internal/services/log_converter.go: Convert/Endpoint.antt addresses and
-- ports, Convert/Decimal.antt the text of a port, Convert/Counter.antt the values of decoded JSON
-- and the counters, Convert/Typed.antt the logs of the client library, Convert/Generic.antt those
-- of decoded JSON and a whole response. net.ParseIP and the reading of a time are arguments.
--
-- Ingest models backend/internal/services/object_store_source.go: Ingest/List.antt the listing of
-- a window, Ingest/Select.antt and Ingest/Process.antt the two loops of Poll, Ingest/Poll.antt
-- the whole with the hydration of metadata. The bucket, the store and the device cache are the
-- interface Outside of Ingest/Source.antt, and Lawful says what the guard against a second
-- ingestion answers.
--
-- Window models backend/internal/mcpserver/window.go: Window/Bounds.antt the window of a query
-- over the reading of a text as a time, Window/Page.antt paging, with Go's integers as natural
-- numbers and negative ones. DenyLog.antt models the limiter of
-- backend/internal/access/denylog.go.
--
-- Prelude has what these share: tests on numbers, lists and maps (a Go map is an association
-- list, whose iteration order is arbitrary), sorting, the order of texts, and grouping into a
-- map. Times are numbers of seconds or nanoseconds since 1970; earlier times are not modelled.
--
-- Not modelled: the SQL of backend/internal/database, the HTTP handlers, the metrics collector,
-- the clients of the object stores, the device cache, configuration parsing, and the frontend.
pub mod Prelude
pub mod Access
pub mod Aggregate
pub mod Convert
pub mod DenyLog
pub mod HourCache
pub mod HourPlan
pub mod Ingest
pub mod PairGroups
pub mod Poller
pub mod Rolling
pub mod Tailnets
pub mod Window
