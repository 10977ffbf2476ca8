-- ===== src/Lib.antt =====
-- k8s-pod-oom-oracle: a node daemon that watches the memory of every pod, notices when the kernel
-- kills one of them for memory, and builds a post-mortem of the kill.
--
-- How the parts work together. A detector (internal/detector) publishes kill events. A sampler
-- (internal/sampler) reads every cgroup below kubepods once a second, through the reader of the
-- hierarchy (internal/cgroup), and buffers the newest readings of each in a ring, also for a while
-- after the cgroup is gone. The daemon (internal/daemon) joins an event with the cgroup path's
-- identity (internal/correlate), with the pod's name out of a cache of the API server
-- (internal/k8s), with the sampled history and with a process listing (internal/procfs) into a
-- report (internal/oom), which goes into a bounded store (internal/store).
--
-- The tracing detector (internal/detector/ebpf.go) decodes what a kernel probe writes; the API
-- (internal/api) serves the store, the dashboard (internal/tui) shows what the API serves, and the text
-- of a report is made by internal/render.
--
-- Files.
--   Base, Clock, Float: lists, byte strings, maps, signed numbers, time, float64.
--   Strings: what the program uses of packages strings, strconv, bufio, path, unicode and utf8.
--   Cgroup: internal/cgroup. Stats has MemoryStats, OOMKills, UsageRatio, Headroom and
--     normaliseLimit, Parse has parse.go, Hierarchy has the reads of cgroup.go and pressure.go over a file
--     system, with Errors and Discovery. Reader is the interface of the reads that the other parts
--     call; reader_of of Hierarchy implements it.
--   Sampler: internal/sampler. Ring is ring.go, Trend is trend.go, Collect is sampler.go with
--     Collect, record, evict and the queries.
--   Correlate: internal/correlate. CgroupPath is cgrouppath.go with ParseCgroupPath and its
--     helpers; Identity, Lookup and Resolver are resolver.go.
--   K8s: internal/k8s/podcache.go, the cache that the informer's events feed.
--   Procfs: internal/procfs. Status and Files have parse.go, Tree has the reads of procfs.go.
--   Detector: internal/detector. Event has the types of detector.go, Poller is poller.go; Ebpf is
--     ebpf.go and ebpf_supported.go: Wire decodes a sample, Index is cgroupIndex, Enrich has
--     enrich, resolveCgroup and loop.
--   Daemon: internal/daemon/daemon.go, Handle, the building of a report, and Run as a step relation.
--   Oom: internal/oom/report.go, the report, ProcessesFrom, Window and PeakRatio.
--   Store: internal/store/store.go, Memory.
--   Render: internal/render/text.go. Rows is trajectoryRows, Commands is commandLine, Text has the
--     sections.
--   Api: internal/api/api.go, the handlers of Server.
--   Tui: internal/tui/tui.go, the state of the dashboard and Update, and Row has the rows of the
--     list.
--   Cmd: the choices of internal/cmd/daemon.go and logging.go, Inspect has the query and the output of
--     inspect.go, and Version has internal/version/version.go.
--
-- How the source is written here.
--   A string is its list of bytes; the model's literals are ASCII, and only ASCII white
--   space and control characters are known as such, but for the commands of a report, whose bytes
--   Strings/Runes reads as Go reads UTF-8. The names in the dashboard's list come out of JSON and are
--   valid UTF-8, whose runes Strings/ValidText counts. A Go map is an association list
--   that is known by its lookups. time.Time is a number of nanoseconds since an origin before all
--   readings; time.Duration is signed and t.Sub saturates as in Go. A uint64 that the program only
--   compares and stores is a number; where it is subtracted, the guard of the source is written
--   out. float64 is a parameter, a type with the operations of the interface FloatOps; no law of
--   them is assumed but those that a theorem names. The empty string of an enumeration's zero value is a constructor `unset`.
--   A pointer that may be nil is an Option. An index out of range is a result of its own.
--   Methods that hold a mutex from their first line to their last are atomic steps, and the mutex
--   is left out. Log lines are left out.
--   A file system, a /proc tree and a listing of inodes are functions and trees that each operation
--   reads as they are at that moment. A panic is a result of its own.
--   Loops are structural recursions on the list or the tree that they walk; the loop of Bytes makes
--   four rounds at most, as the source bounds it, and the digits of a number recur on Acc.
--
-- Not modelled: the start and the tickers of the goroutines, the informer of client-go, the
-- kernel probes, net/http, terminal styles, JSON encoding, flag parsing.
mod Base
pub mod Strings
pub mod Float
pub mod Clock
pub mod Cgroup
pub mod Sampler
pub mod Procfs
pub mod Detector
pub mod Correlate
pub mod Oom
pub mod Store
pub mod K8s
pub mod Daemon
pub mod Render
pub mod Api
pub mod Tui
pub mod Cmd
