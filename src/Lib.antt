-- ===== src/Lib.antt =====
-- An XDP load balancer for ICMP, and the control plane that feeds it.
--
-- The data plane, kernelspace/xdp_lb.c with kernelspace/types.h, is two programs. `xdp_lb_ingress`
-- on the bridge turns an ICMP frame for the virtual address (VIP) into one for a backend that a
-- random number picks, and counts it. `xdp_veth_snat` on the veth of each backend gives the replies
-- the VIP as their source. Four maps join them to the control plane: `config_map` (VIP, number of
-- backends, source MAC), `backend_map` (index to backend), `backend_ips_map` (address to index) and
-- `counters_map` (statistics for each CPU). The control plane, in Go, is the manager of maps and
-- attached programs, userspace/bpf/maps.go and userspace/bpf/loader.go, and the pool,
-- userspace/discovery/pool.go, whose `Sync` brings a new list of backends into the maps.
--
-- Data plane:
--   Types       the structures and constants of kernelspace/types.h, and the return codes
--   Packet      a frame as a length and its bytes, with the loads and stores of the compiled
--               programs in either byte order; `none` is an access outside of the frame
--   Headers     offsets and sizes of the Ethernet, IPv4 and ICMP headers of kernelspace/vmlinux.h
--   Maps        the four maps as interfaces: the kernel implements them, so a `Kernel` is a
--               parameter of all that uses it. Maps.Laws states what is relied on
--   Checksum    `update_ip_csum`; below it the one's complement sum of RFC 1071, and the two builds
--   Xdp         the two programs, cut where they look something up: `is_icmp`, `with_config`,
--               `to_backend`, `dnat`, `count_packet`, `to_vip`. Below it Xdp.Parse (the tests of
--               the headers), Xdp.Dnat (the rewrite), Xdp.Safety (accesses of `xdp_lb_ingress`),
--               Xdp.Ingress, Xdp.Snat and Xdp.Counters
-- Control plane:
--   Go          errors as values with the state kept (Go.Action), maps (Go.Dict), addresses (Go.Net)
--   Manager     `UpdateConfig`, `UpdateBackend`, `ClearBackend` and `ReadStats` of maps.go,
--               `AttachVethXDP` and `DetachVethXDP` of loader.go, over the link package (`LinkApi`)
--               as a parameter. Below it what the calls do to the maps (Manager.Maps), to the
--               attachments (Manager.Links), to the room in the reverse map (Manager.Capacity) and
--               to the sums of the counters (Manager.Stats). Manager.Lifecycle is `NewManager` and
--               `Close`, over `Loader`, which stands for the packages rlimit and net and for the
--               generated loader. Go.Resources says what it is for links and loaded objects to be
--               open, each by its identity, and what opening and closing one changes;
--               Manager.Balance follows it through `NewManager`, Manager.Closing through the calls
--               of a manager and Manager.Release through `Close`. Manager.Origin says where the
--               links under the names of interfaces come from
--   Pool        `NewPool`, `Sync` and `GetBackends`, with the three loops of `Sync` as recursions on
--               the lists. Pool.Updater wires the manager in as userspace/cmd/main.go does;
--               Pool.Rounds, Writes, Loops, Detach and Tables follow the maps through the loops;
--               Pool.Consistency and Pool.Invariant say what a run leaves, Pool.Reverse and
--               Pool.ReverseMap what it does to the reverse map, Pool.Total when it succeeds,
--               Pool.Preserves what it keeps on every path, Pool.Failed what an error leaves, and
--               Pool.Attached which interfaces have their program, and from which attachment
--   Discovery   `DiscoverBackends` and `FindHostVeth` of docker.go, over the Docker client, netns and
--               netlink (`System`) and the parsers of the Go library (`Text`) as parameters. Below
--               it where the fields of a backend come from (Discovery.Sources), its veth
--               (Discovery.Veth), the whole list (Discovery.Laws), and the namespaces and handles
--               that are open (Discovery.Handles)
--   Polls       the discovery loop of userspace/cmd/main.go as a relation: the states that polls,
--               changes of the system and counted frames lead to (`Reached`). Below it what holds
--               of all of them (Polls.Invariant), a poll and the programs (Polls.Forwarding,
--               Polls.Replies, Polls.Attached), and the way from `NewManager` to `Close`, which
--               may come between any two calls of a `Sync` (Polls.Shutdown)
--   Collector   `render`, `truncate` and `formatBytes` of userspace/stats/collector.go: a row as the
--               values that are printed, with `count / div` and a unit in place of the quotient. Below
--               it the texts (Collector.Format) and the rows (Collector.Rows)
--   System      both planes together: the programs on the maps that a run of `Sync` has left
--   Values      the structures of the maps byte by byte, as userspace/bpf/lb_bpfel.go lays them out
--               for Go and kernelspace/types.h for the programs
-- Layout of C structures:
--   Layout      alignment, sizes and places of members, bit-fields included, on the BPF target
--   Vmlinux     declarations of kernelspace/vmlinux.h that the load balancer meets, each as a value
--               of Layout: scalars, frame headers, maps, programs, links, BTF, and the arguments of
--               the system call. Headers.Members ties `ihl` to it, and Xdp.Members the tests of
--               the headers
-- Base has the shared helpers: Boolean tests, options, lists over the native numbers, and tables as
-- functions. Tests has a machine with concrete maps, frames and pools.
--
-- Numbers are natural numbers with their wrap-around written out: 16 and 32 bits in the checksum,
-- 32 bits for indexes and counts in `Sync`, and 64 bits for the statistics. Every loop is bounded by
-- a list or by a number the code fixes (ten words of a header, six bytes of an address), but for the
-- loop of `formatBytes`, which has fuel for six rounds: enough for every number of 64 bits.
-- `bpf_get_prandom_u32` is a number that each run is given, and the order in which Go visits a map
-- is a function that `Sync` and `Close` are given. A `__u32` that holds an address is the value that
-- a load of its four bytes in memory order gives, on both sides.
--
-- Assumed: a program sees one state of the maps during a run. A call of the manager holds its
-- mutex and is a single step. A poll is a single step in `Reached`, as only the discovery calls
-- `Sync`; Polls.Shutdown breaks the last one up into its calls of the manager, since `Close` does
-- not take the mutex of the pool. A lookup in a map and a load inside of the frame succeed or fail
-- as Maps.Laws and Packet say. The Docker client applies the filter by label where it lists the
-- containers, and the parsers turn the text of an address into its bytes. An ID of a container has
-- at least twelve characters, as Docker's have: the panic of `c.ID[:12]` on a shorter one is
-- outside of the model.
--
-- Not modelled: the flags, signals and logging of userspace/cmd/main.go, the columns and the clock
-- of the dashboard, `NewDockerWatcher` and its `Close`, which make and close the client, the
-- bindings that bpf2go generates beyond their structures, and the declarations of
-- kernelspace/vmlinux.h that no program or map uses.
pub mod Base
pub mod Types
pub mod Packet
pub mod Headers
pub mod Maps
pub mod Xdp
pub mod Go
pub mod Manager
pub mod Pool
pub mod System
pub mod Discovery
pub mod Collector
pub mod Checksum
pub mod Layout
pub mod Vmlinux
pub mod Values
mod Tests
pub mod Polls
