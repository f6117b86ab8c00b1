-- ===== src/Lib.antt =====
-- Rubble is a container network plugin for Kubernetes on OpenStack: a daemon on each node keeps a
-- pool of Neutron ports and gives them to the pods of the node.
--
-- The parts and how they meet. The CNI command (cmd/cni) asks the daemon for an address or gives
-- one back, and sets the pod's interfaces up through a driver for ipvlan and one for a veth pair
-- (pkg/plugin). The daemon's process (cmd/cni-daemon) serves these requests until a signal or an
-- error of its server ends it. The daemon (pkg/daemon) reads the pod from the API server
-- (pkg/k8s), looks its record up in the storage (pkg/storage), and asks the resource manager
-- (pkg/ipam), which takes a port out of the object pool or puts it back (pkg/pool). The pool keeps
-- the idle ports in a priority queue by the time until which they are reserved
-- (pkg/pool/queue.go), the ports in use in a map by id, and a channel of tokens, one for each port
-- that may still be made; a ticker's goroutine trims and fills the idle ports. The pool makes and
-- removes ports through a factory (pkg/ipam/port.go) over the client of Neutron (pkg/neutron).
--
-- Which file models which part:
--   Prelude: lists, Go arrays, maps and strings of bytes, the joining of strings, signed numbers,
--     `Run`, the ways in which a call ends (a value, a panic, a wait for ever, no fuel left), and
--     `Call`, the steps of a command that change a world and may fail
--   Resource: the types of ports and resources (pkg/neutron/port.go, pkg/ipam/port.go,
--     pkg/utils/types.go)
--   Queue: PriorityQueue (pkg/pool/queue.go); its children hold the layout of the array, the order
--     of the heap and the contracts of the operations; Queue/Unordered has the older Queue
--   Pool: SimpleObjectPool and its calls (pkg/pool/pool.go); Pool/Upkeep has checkIdle,
--     checkInsufficient and the ticker, Pool/Start has preload and NewSimpleObjectPool, Pool/System
--     has calls that run at once, Pool/Supply, Pool/Launch and Pool/Ticking say what a factory of new
--     resources keeps of a pool, and the other children have the theorems
--   Neutron: the client (pkg/neutron), over the service of gophercloud; Neutron/Binding has the
--     ports of floating addresses, the binding of a port and WaitPortActive, Neutron/Client has
--     NewClient, and Neutron/Async has CreatePort with its goroutines
--   Pods: PodInfo, convertPod, GetPod, ListLocalPods and the set-up of the client (pkg/k8s/k8s.go)
--   Ipam: PortResourceManager (pkg/ipam/port.go); Ipam/Factory has PortFactory, Ipam/Start has
--     NewPortResourceManager with the initializer of the pool, Ipam/Service what a request does to a
--     pool that runs, Ipam/Readiness that the pool runs at the
--     start, and Ipam/Connection that PortFactory is a factory as the pool takes it
--   Storage: MemoryStorage and DiskStorage (pkg/storage/store.go); Storage/Histories has sequences
--     of calls
--   Daemon: AllocateIP, ReleaseIP (pkg/daemon/daemon.go) and the types of
--     pkg/ipam/resource_manager.go; Daemon/Start has what the daemon reads from its storage at the
--     start, Daemon/Server has newDaemonServer, Daemon/Parts the daemon's two interfaces as the
--     program fills them, Daemon/Contract that DiskStorage keeps the contract of the first,
--     Daemon/Service and Daemon/Sessions one request and sequences of requests to the daemon with
--     the program's manager, Daemon/Beginning that newDaemonServer starts a pool that runs,
--     Daemon/Lifetime such sequences from newDaemonServer on,
--     Daemon/Holders the ports of the records after a restart,
--     Daemon/Sticky a request of a pod after its ReleaseIP, and Daemon/Loop
--     the server and its process (pkg/daemon/server.go, cmd/cni-daemon/rubble-daemon.go)
--   Plugin: what the drivers share (pkg/plugin); Plugin/IpVlan and Plugin/Ptp have the drivers
--     (pkg/plugin/ipvlan.go, pkg/plugin/ptp.go)
--   Cni: the commands (cmd/cni/rubble.go); Cni/Args has the reading of their arguments,
--     Cni/Commands has cmdAdd, cmdDel and cmdCheck
--   Utils: the defaults and the test for a virtual machine (pkg/utils/utils.go), and the fields of
--     the configuration that the program reads (pkg/utils/types.go); Utils/Uuid has IsValidUUID and
--     RandomString
--   Log: the format of a line of the log and the opening of its file (pkg/log/log.go)
-- Definitions have the names of the Go functions in snake case. A part of a function that has a
-- name of its own is described where it stands.
--
-- State and concurrency. A call of the pool is a function from the pool to the pool; the mutex is
-- a flag, and Lock on a mutex that is held, or a send on a full channel, ends the call as
-- `blocked`. The token channel is the number of tokens in it. The world of the factory (Neutron,
-- the clock) is a state that its calls change. In these functions one call runs after the other.
-- Pool/System makes of their parts a step relation in which any number of threads (clients, and
-- the ticker) run at once: an action is a part of a call under the lock, an operation on a
-- channel, a read of a size without the lock, or a call of the factory. The ids of the factory's
-- resources are new there; those made without a token, for static addresses, are counted. A
-- MemoryStorage holds its lock for each whole call, so its calls are single steps. Where a Go map
-- is walked over, its order is that of the list. Neutron/Async has CreatePort and the goroutines
-- that read its subnet and network as a step relation, with channels that have no buffer, and
-- Daemon/Loop has the daemon's process as one, in which requests, the server, a signal and the
-- steps of the main function come in any order; a request may come to wait for ever, and then
-- GracefulStop does. Daemon/Sessions serves whole requests one after another, and Daemon/Lifetime
-- and Daemon/Holders do so from the start of the daemon on. Rounds of the ticker stand between
-- them in Daemon/Lifetime, but for those that find a surplus, and none in Daemon/Holders; the
-- rounds that find one are in Pool/Trimming, Pool/Deadlock and Pool/System.
--
-- Numbers. Counts, sizes and times are natural numbers, without the bound of a Go `int`; a
-- configuration with a negative size is not modelled. Durations are integers.
--
-- Fuel. The loops of the queue run on the length of the array. preload runs on one round more than
-- the least number of idle resources, since each round adds one. WaitPortActive runs on the ticks of
-- its clock. checkIdle is given its fuel from outside, since the loop need not end.
--
-- Parameters. The factory as the pool sees it (it always returns, as Create of PortFactory does
-- while its lock is free; a Dispose of PortFactory that fails keeps the lock for ever, which is in
-- Ipam/Stall); gophercloud (`NetworkService`, `PortService`, `Openstack`); bolt and the
-- serializers; the API server; the kernel as netlink and the packages ns, ip and ipam show it
-- (`Kernel`); the package net and the types of CNI (`Packages`); the file of the log, the daemon's
-- client, the JSON decoder and the printing of a result (`Backend`); the files, the metadata
-- service, client-go and the answers of the two clients' set-up (`Machine`); sockets, grpc and
-- signals (`Os`); the text of times and of the values in a line of the log; net.ParseIP,
-- strconv.ParseBool, strings.ToLower, the random draws and the clock. What is assumed of them are
-- the fields of `ServiceLaws`, `BoltLaws`, `StorageLaws` and `DeletionLaws`, of `Supply` (the ids
-- of resources that are made are new) and `Listing` (ports that are listed have addresses), of
-- `Inventory` (those that are listed at the start have different ids, which are in use), and the
-- hypotheses of the theorems.
--
-- Not modelled: the calls that write lines to the log, and NewDefaultLogger, which sets its
-- fields; the text of most messages; the reading of flags and the registration of the commands,
-- which the libraries do; GetIPInfo, which does nothing; the generated code of pkg/rpc.
pub mod Prelude
pub mod Resource
pub mod Queue
pub mod Neutron
pub mod Pods
pub mod Pool
pub mod Ipam
pub mod Daemon
pub mod Utils
pub mod Plugin
pub mod Cni
pub mod Storage
pub mod Log
