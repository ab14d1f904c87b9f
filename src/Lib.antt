-- ===== src/Lib.antt =====
-- navmesh-go is a server that gives access to devices behind NAT: a device holds a tunnel to the
-- server, and HTTP, TCP and SSH gateways forward sessions through it. Services keep the
-- administrative state in a database.
--
-- The files model these parts.
--   Base: text, maps, integers and lists as Go has them. A string is a list of code points;
--     strings.ToLower is modelled on the ASCII letters. A Go map is an association list with
--     distinct keys (Base/Map), used through its laws. An int or int64 is an unbounded integer;
--     where the code subtracts times the wrap-around is written out (sub64).
--   Sessions: services/session_registry.go, the registry of running sessions and of forced
--     closes.
--   Liveness: services/liveness_registry.go, device activity that is written to the database in
--     batches.
--   Telemetry: services/liveness_registry.go, the sampler that spaces telemetry writes.
--   Policy: services/runtime_policy.go, the limits on sessions and on the rate of a source.
--   Domain: domains/, the rows of the database, with the fields that the models use.
--   Upgrade: services/device_upgrade_service.go, upgrades of the software on devices. Report is
--     what a device reports, Batch is CreateBatch with the choice of the devices in Plan,
--     Platform and Version, Offer is CreateTask, Candidates and PendingCommand, and Summary is
--     summarizeUpgradeBatch. A query is an argument that stands for its answer; where Go may
--     visit a map in any order, the order is an argument.
--   Routes: httpgateway/route_store.go and normalizeHost of httpgateway/lookup.go, the table
--     from hosts to devices, with Reload and the goroutine that runs it until its context is
--     cancelled.
--   Access: services/access_policy_service.go, the policies that forbid protocols. The condition
--     of a query is a predicate on rows.
--   Tunnel: tunnel/manager.go, the connections of the devices that are online, which of them are
--     closed, and which are handed to a stream (Tunnel/Streams).
--   Pagination: ParsePage of services/index.go.
--   Tunnel/Frame: the frames of tunnel/protocol.go and their reading in tunnel/server.go.
--   Tunnel/Server: the connections of tunnel/server.go, which reads frames by Tunnel/Frame and
--     registers devices with Tunnel.
--   AccessLog: httpgateway/log.go, the log of HTTP accesses that a goroutine writes in batches.
--   Client/Download: the download of an upgrade in cmd/navmesh-client/main.go. It makes at most
--     six attempts, which is the fuel of its loop.
--   Client/Backoff: the wait before the client connects again, in the same file.
--   Config: the tree of YAML nodes in utils/config.go, with the defaults, the secrets and the
--     paths that it is given. A change through a pointer is a new tree.
--   TcpMappings: services/tcp_mapping_service.go, the TCP mappings, whose table is a map from
--     guids to rows, and the choice of their public ports.
--   Traffic: services/device_traffic_service.go, the counters of the heartbeats and the traffic
--     of each day.
--   Messages: the lists of types and devices of a recipient in services/message_service.go.
--
-- A method under a mutex is one step on the state of its object, and a history is a list of calls
-- with their times. The clock is an argument. Receivers are not nil. The database library (gorm)
-- is a parameter: a query is an argument that stands for its answer, and what a theorem relies on
-- is one of its hypotheses (for the transaction of Liveness a record of laws), which the tests
-- meet. In TcpMappings and Traffic a table is a map or a list of rows, and each call that can fail
-- has a Boolean for it. A loop is a recursion on a list or on the number of rounds that are left,
-- which is what the code counts, so no loop runs out of fuel.
--
-- Not modelled: the handlers of requests, the proxying and copying of bytes, SMTP, SSH and QUIC,
-- and the files and processes of the client, which are input and output; queries that only list
-- rows; and the declarations of tables that no model reads. The other services and the loop of the
-- client's reconnections are left out.
pub mod Base
pub mod Domain
pub mod Sessions
pub mod Liveness
pub mod Telemetry
pub mod Policy
pub mod Upgrade
pub mod Routes
pub mod Access
pub mod Tunnel
pub mod Pagination
pub mod AccessLog
pub mod Client
pub mod Config
pub mod TcpMappings
pub mod Traffic
pub mod Messages
