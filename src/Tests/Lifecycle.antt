-- ===== src/Tests/Lifecycle.antt =====
-- The theorems on the life of a manager, userspace/bpf/loader.go, at a daemon that attaches one
-- backend.
use container_lb.Base.{ℕ, ◌≡◌, refl, none, some, []}
use container_lb.Go.Dict.{lookup, insert, delete}
use container_lb.Go.Net.{to4, equal, to_mac}
use container_lb.Types.{BackendInfo, LbConfig, StatsCounter}
use container_lb.Base.{List}
use container_lb.Manager.{
  Manager, LinkApi, ok, config_of, entry_of, update_config, update_backend, clear_backend, attach,
  attach_veth_xdp, detach_veth_xdp,
}
use container_lb.Manager.Lifecycle.{Loader, Loaded, running, new_manager, close_links, close}
use container_lb.Manager.Balance.{IsLawful, IsStarted, new_manager-IsStarted}
use container_lb.Manager.Closing.{here, attached}
use container_lb.Go.Resources.{IsSame-refl, IsWithin}
use container_lb.Tests.World.{
  World, empty, IsOpen, open_left, open_right, close_left, close_right, open_left-IsOpened,
  open_right-IsOpened, close_left-IsClosed, close_right-IsClosed,
}
use container_lb.Pool.{
  new_pool, index_by_veth, write_backend, write_backends, clear_stale, detach_old, sync_maps, sync,
}
use container_lb.Discovery.{
  first_veth, find_host_veth, is_serving, address, port_of, backend_of, backends_of,
  discover_backends,
}
use container_lb.Polls.{Daemon, poll, Reached, started, ticked}
use container_lb.Polls.Shutdown.{Reached-close}
use container_lb.Tests.Machine.{machine}
use container_lb.Tests.Pools.{manager, order, start}
use container_lb.Tests.Userspace.{system, texts}

-- Links are the left side of the world, collections of objects the right one.
abbrev new_links : LinkApi ℕ World
new_links = record {
  attach_xdp = λ program ifindex flags w. (ok w.next, open_left w);
  close = λ l w. (none, close_left l w);
}

abbrev loader :
    Loader (ℕ → LbConfig) (ℕ → BackendInfo) (List (ℕ × ℕ)) (ℕ → ℕ → StatsCounter) ℕ World
loader = record {
  remove_memlock = λ w. (none, w);
  interface_by_name = λ name w. (ok 3, w);
  load_objects = λ w. (ok (w.next, manager.maps), open_right w);
  close_objects = λ o w. (none, close_right o w);
}

loader-IsLawful : IsLawful loader new_links IsOpen
loader-IsLawful = record {
  remove_memlock = λ w. IsSame-refl IsOpen w;
  interface_by_name = λ name w. IsSame-refl IsOpen w;
  load_objects = open_right-IsOpened;
  close_objects = close_right-IsClosed;
  attach_xdp = λ program ifindex flags w. open_left-IsOpened w;
  close = close_left-IsClosed;
}

-- Before the start a link of another program is open.
abbrev before : World
before = open_left empty

new_manager-IsStarted_example :
    IsStarted loader new_links IsOpen loader-IsLawful before
      (new_manager loader new_links "docker0" before)
new_manager-IsStarted_example =
    new_manager-IsStarted loader new_links IsOpen loader-IsLawful (λ o w. refl) "docker0" before

abbrev LifeManager : Type 0
LifeManager = Manager (ℕ → LbConfig) (ℕ → BackendInfo) (List (ℕ × ℕ)) (ℕ → ℕ → StatsCounter) ℕ World

abbrev first_manager : LifeManager
first_manager = record {
  maps = manager.maps;
  veth_links = [];
  world = open_left (open_right before);
}

abbrev loaded :
    Loaded (ℕ → LbConfig) (ℕ → BackendInfo) (List (ℕ × ℕ)) (ℕ → ℕ → StatsCounter) ℕ ℕ World
loaded = record { objs = 1; manager = first_manager; xdp_link = some 2 }

up : new_manager loader new_links "docker0" before ≡ running loaded
unfolding new_manager
up = refl

-- Its pool, before the first poll and after it.
abbrev first : Daemon LifeManager World
first = record { pool = new_pool loaded.manager start.vip 8080 start.src_mac; system = empty }

abbrev polled_once : Daemon LifeManager World
polled_once = poll machine new_links texts system 8080 order first

first-Reached :
    Reached machine new_links texts system 8080 loaded.manager start.vip start.src_mac first
first-Reached = started empty

-- A `Close` that comes after the first attachment of the next `Sync`.
abbrev interrupted : LifeManager
interrupted = (attach_veth_xdp new_links "veth2" 6 polled_once.pool.bpf).1

closed : (close loader new_links (λ d. d) (record loaded { manager = interrupted })).0 ≡ []
unfolding close close_links poll sync sync_maps write_backends write_backend clear_stale detach_old
    index_by_veth update_backend clear_backend update_config attach_veth_xdp detach_veth_xdp attach
    lookup insert delete to4 equal config_of entry_of new_pool to_mac discover_backends backends_of
    backend_of find_host_veth first_veth is_serving address port_of
closed = refl

Reached-close_example :
    IsWithin IsOpen before
      (close loader new_links (λ d. d) (record loaded { manager = interrupted })).1.world
Reached-close_example =
    Reached-close machine new_links texts system 8080 loader IsOpen loader-IsLawful (λ o w. refl)
      "docker0" before loaded up (ticked order first-Reached) interrupted (attached "veth2" 6 here)
      (λ d. d) (λ e j. refl) closed
