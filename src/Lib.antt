-- ===== src/Lib.antt =====
-- A CPU manager policy for Kubernetes that keeps the CPUs of a node in pools: containers of a pool
-- share its CPUs or get some of them to themselves.
--
-- The parts of the program, and the modules that model them:
--   Sysfs       pkg/sysfs: sets of ids (idset.go, Sysfs.Sets), the packages, nodes and CPUs of a
--               machine (system.go, Sysfs.Machine), their settings (system.go, Sysfs.Control), the
--               files under /sys (utils.go, Sysfs.Entries) and their discovery (system.go):
--               `discover_system` is `DiscoverSystem` (Sysfs.Discovery), `discover_packages` is
--               `discoverPackages` (Sysfs.Packages). The type switches of utils.go are parsers
--               that a caller hands over.
--   Allocator   pkg/cpuallocator/allocator.go: picking CPUs from a set, whole packages first, then
--               whole cores, then hyperthreads. `allocate_cpus` and `release_cpus` are
--               `AllocateCpus` and `ReleaseCpus`.
--   Metrics     cmd/cpu-pool-policy/metrics/metrics.go: the figures of the pools, cached and
--               published on the API server.
--   Config      cmd/cpu-pool-policy/pool/config.go: frequencies (Config.Frequency) and the way from the
--               file to the configuration of the pools (Config.Parsing).
--   Pool        cmd/cpu-pool-policy/pool/pool.go: the pool set. `allocate_cpu`,
--               `allocate_exclusive` and `release_cpu` are `AllocateCPU`, `AllocateCPUs` and
--               `ReleaseCPU`; `reconcile_config` is `reconcileConfig`, which prepares (Pool.Prepare),
--               restores (Pool.Restore) or activates (Pool.Reconcile) a configuration.
--   Kube        what the programs read of Kubernetes: quantities, containers and pods.
--   Procfs      pkg/procfs/cmdline.go: the command line of the kernel, cut into its parameters, and
--               the isolated CPUs that `isolatedCPUSet` of config.go reads from it (Procfs.Isolated).
--   Policy      cmd/cpu-pool-policy/pool-policy-plugin.go: the plugin that the CPU manager calls.
--               Policy.Plugin has `AddContainer` and `RemoveContainer`, Policy.Update has
--               `updateState`, Policy.Restore has `restoreState`, Policy.Startup has `Start` and the
--               calls it makes. Policy.Steps is the relation of a plugin's steps: containers come
--               and go, in any order, under one configuration; a new configuration, which
--               `follow_config` of Policy.Startup follows, is not a step.
--   Webhook     cmd/cpu-pool-admissionwebhook/pool-admissionwebhook.go: what a pod must look like
--               (Webhook.Validate), what a container lacks (Webhook.Resources) and the patches that
--               add it (Webhook.Patch, Webhook.Mutate).
-- The pools ask the allocator for CPUs, set CPUs online and offline through the machine, and hand
-- their figures to the metrics. The plugin owns a pool set: it asks it for CPUs, tells the CPU
-- manager's state which CPUs a container has, keeps the pool set in a checkpoint there and restores
-- it after a restart. The webhook runs apart and edits pods before they reach the plugin.
--
-- How the code is read. A method on a pointer is a function from a state to the state after it and
-- an outcome: a value, an error or a panic (Prelude.Outcome). A map is an association list
-- (Prelude.GoMap), and a loop over a map visits its keys in the order that the runtime picks, an
-- operation of the interface `GoRuntime` (Runtime.Api), as sorting is. `int` is an unbounded
-- integer, but for the loop over a range of ids, which does not end where the range goes up to the
-- largest `int`: the outcome `endless` of Sysfs.Entries, an error to its callers. `int64` wraps
-- around at 64 bits. All loops are over lists or count: no fuel is used.
--
-- Packages under vendor/ and the standard library's services are interfaces, records of operations
-- with what the code relies on: the CPU sets of Kubernetes are `Cpusets` (Cpuset.Api), its
-- quantities `Quantities` (Kube), the state of the CPU manager `Stub` (Policy.Store), encoding/json
-- `Json` (Pool.Checkpoint), and the ways to files and to a client `Surroundings` (Policy.Startup).
-- Each but the last has an instance that the tests run.
--
-- Not modelled: logging, flags, dumps and the text of errors, which are data (Errors); the files
-- under /sys, where what a read or a write meets is a parameter; the generated client of the API
-- server, a parameter; the caches of a machine, whose bit `Discover` clears, and the formatting of
-- what is written to its files; the HTTP server of the webhook and the JSON around its patches.
pub mod Prelude
pub mod Cpuset
pub mod Runtime
pub mod Errors
pub mod Kube
pub mod Procfs
pub mod Sysfs
pub mod Allocator
pub mod Metrics
pub mod Config
pub mod Pool
pub mod Policy
pub mod Webhook
