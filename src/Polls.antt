-- ===== src/Polls.antt =====
-- The discovery loop of `main` in userspace/cmd/main.go: what becomes of the pool and of the maps
-- while backends come and go and frames are counted.
pub mod Invariant
pub mod Forwarding
pub mod Replies
pub mod Shutdown
pub mod Attached
use container_lb.Base.{ℕ, List}
use container_lb.Maps.{Kernel}
use container_lb.Go.Dict.{Dict}
use container_lb.Go.Net.{Ip, HardwareAddr}
use container_lb.Manager.{Manager, LinkApi, Result, ok, err}
use container_lb.Pool.{Backend, Pool, new_pool, sync}
use container_lb.Pool.Updater.{manager_updater}
use container_lb.Discovery.{System, Text, discover_backends}

-- `backendPool`, with the manager in it, and the system that `dockerWatcher` asks.
pub record Daemon (S D : Type 0) : Type 0 where
  pub pool : Pool S
  pub system : D

module _ {C B H P L W : Type 0} (k : Kernel C B H P) (api : LinkApi L W) {D N R : Type 0}
    (text : Text) (sys : System D N R) (target_port : ℕ) where
  -- An error of either call is logged, and the loop goes on.
  abbrev pub polled :
      (Dict Backend → Dict Backend)
      → Result (List Backend) × D
      → Pool (Manager C B H P L W)
      → Daemon (Manager C B H P L W) D
  polled range_order (ok backends, d) pool = record {
    pool = (sync (manager_updater k api) range_order backends pool).1;
    system = d;
  }
  polled range_order (err e, d) pool = record { pool = pool; system = d }

  -- One tick of the loop, and the first discovery before it.
  unfoldable pub poll :
      (Dict Backend → Dict Backend)
      → Daemon (Manager C B H P L W) D
      → Daemon (Manager C B H P L W) D
  poll range_order d = polled range_order (discover_backends text sys target_port d.system) d.pool

  -- The states that the daemon can get into between two polls. The system changes in any way, and
  -- the programs change the counters. Only this loop calls `Sync`; a `Close` in the middle of one
  -- is in Polls.Shutdown.
  pub data Reached (bpf : Manager C B H P L W) (vip : Ip) (src_mac : HardwareAddr)
      : Daemon (Manager C B H P L W) D → Type 0 where
    started :
        (system : D)
        → Reached bpf vip src_mac
            (record { pool = new_pool bpf vip target_port src_mac; system = system })
    ticked :
        {d : Daemon (Manager C B H P L W) D} (range_order : Dict Backend → Dict Backend)
        → Reached bpf vip src_mac d
        → Reached bpf vip src_mac (poll range_order d)
    changed :
        {d : Daemon (Manager C B H P L W) D} (system : D)
        → Reached bpf vip src_mac d
        → Reached bpf vip src_mac (record d { system = system })
    counted :
        {d : Daemon (Manager C B H P L W) D} (counters : P)
        → Reached bpf vip src_mac d
        → Reached bpf vip src_mac (record d {
          pool = record (d.pool) {
            bpf = record (d.pool.bpf) {
              maps = record (d.pool.bpf.maps) { counters_map = counters };
            };
          };
        })
