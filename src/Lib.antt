-- ===== src/Lib.antt =====
-- etcd-snapshot-driver: a CSI driver that takes group snapshots of etcd clusters in Kubernetes.
--
-- The parts, and how they work together. The group controller (internal/driver/groupcontroller.go)
-- serves three calls. A creation parses the volume IDs (`parseVolumeID`,
-- internal/driver/controller.go), checks the PVCs, finds the etcd cluster of each
-- (internal/etcd/discovery.go) and checks its health (internal/etcd/health.go), makes sure of a PVC
-- for snapshots (internal/driver/snapshotpvc.go), runs a job that saves the snapshot
-- (internal/job/templates.go, executor.go) and records it in two ConfigMaps
-- (internal/snapshot/metadata.go). A deletion runs a job that removes the file and takes the entries
-- out of the ConfigMaps; a lookup reads them. The command (cmd/etcd-snapshot-driver/root.go) makes the
-- clients and the metrics (internal/metrics/metrics.go), starts the health endpoints
-- (internal/health/health.go), and runs the driver (internal/driver/driver.go), which listens on a
-- socket and serves the group controller and the identity service (internal/driver/identity.go).
--
-- Files and code:
--   Common      shared: texts as lists of bytes, errors and results, association lists, decimals
--   Kube        the Kubernetes and etcd objects that the driver reads and builds
--   Env         the calls of other code: a record of functions on the state of the world
--   Volume      `parseVolumeID`; Volume/Split says what it accepts
--   Job         Job/Config and Job/Template: internal/job/templates.go;
--               Job/Executor: executor.go; Job/Monitor: monitor.go
--   Snapshot    internal/snapshot/metadata.go; Snapshot/Manager has the operations, Snapshot/Table
--               the finite maps that they implement; Snapshot/Table/Shared is about other writers
--   Etcd        Etcd/Health: `ValidateHealth`; Etcd/Tls: `LoadTLSConfig`; Etcd/Discovery: discovery.go
--               and types.go
--   Provisioner internal/driver/snapshotpvc.go
--   Controller  Controller/Checks: phases 1 to 5 of `CreateVolumeGroupSnapshot`; Controller/Create:
--               phases 6 to 9 and the whole; Controller/Get and Controller/Delete: the other calls;
--               Controller/Types: the settings, requests and identifiers; Controller/Service: the
--               requests that are served one after the other, and Controller/Service/Shared: requests
--               that are served while other drivers write the same ConfigMaps
--   Options     internal/driver/options.go, and the loops that apply the options
--   Host        the calls of other code around the driver: files, sockets, gRPC, Prometheus, flags
--   Server      Server/Driver and Server/Listener: internal/driver/driver.go; Server/Identity:
--               identity.go; Server/Health: internal/health/health.go; Server/Metrics:
--               internal/metrics/metrics.go
--   Command     cmd/etcd-snapshot-driver: Command/Flags and Command/Settings are options.go,
--               Command/Run and Command/Logging are root.go, Command/Root is the rest of root.go,
--               version.go and main.go
--   Util        internal/util/errors.go
--   Fake, Codec, Tests: a small world, a faithful codec, and the theorems at concrete inputs
--
-- State. The readiness flag apart, the driver keeps none between calls; what it changes is in the API
-- server. An operation is a function from the state of the world to a result and a new state (`Act`).
-- A result is a value, a Go error, or a panic, which ends the process. The clients of Kubernetes and
-- etcd, the clock, the tickers and package json are the fields of `Env` and `Codecs`: what a theorem
-- needs of them is a named hypothesis (`ConfigMapLaws`, `SharedLaws`, `IsShared`, `OthersKeep`,
-- `ReadsKeep`, `IsSteady`, `IsFaithful`, `RegistryLaws`, `FlagLaws`, `RefusesVersions`,
-- `LimitsLabels`), which the worlds of the examples fulfil.
--
-- Bounds. The wait for a job loops until its context is done. `Env.ticks` gives the number of ticks
-- that the loop takes before that; the context of every wait has a deadline, so there is such a
-- number, and the loop is a recursion on it. No other fuel is used. Counters of jobs are integers;
-- the sums that the driver forms are lengths of lists, which do not overflow.
--
-- Not modelled: the texts that are logged, and the counting of metrics, which nothing reads back; the
-- goroutines that serve HTTP and gRPC, which are calls of the host; the help texts of the commands, and
-- what cobra and viper do, whose calls are parameters. What Kubernetes does with the jobs and PVCs
-- that are made is not modelled either: the driver sees its answers only.
pub mod Common
pub mod Volume
pub mod Kube
pub mod Env
pub mod Job
pub mod Snapshot
pub mod Etcd
pub mod Provisioner
pub mod Controller
pub mod Fake
pub mod Codec
pub mod Options
pub mod Host
pub mod Server
pub mod Command
pub mod Util
mod Tests
