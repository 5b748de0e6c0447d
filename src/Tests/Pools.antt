-- ===== src/Tests/Pools.antt =====
-- A pool of two backends of which the first leaves, so that the second moves to its index: the
-- states of the control plane on which the theorems are run.
use native.Mathlib.Omega.{arith}
use container_lb.Base.{ℕ, zero, suc, ◌+◌, ◌<◌, ◌≤◌, ◌≡◌, refl, true, Option, none, List, [], ◌∷◌}
use container_lb.Base.Lists.{length, get_elem?-lt}
use container_lb.Types.{BackendInfo, LbConfig, StatsCounter, zero_mac}
use container_lb.Go.Action.{Error}
use container_lb.Go.Dict.{Dict, lookup, insert, delete}
use container_lb.Go.Net.{to4, equal, to_mac}
use container_lb.Manager.{
  Manager, LinkApi, ok, empty_backend, config_of, entry_of, update_config, update_backend,
  clear_backend, attach, attach_veth_xdp, detach_veth_xdp,
}
use container_lb.Pool.{
  Backend, Pool, new_pool, index_by_veth, write_backend, write_backends, clear_stale, detach_old,
  sync_maps, sync,
}
use container_lb.Pool.Updater.{manager_updater}
use container_lb.Pool.Reverse.{IsAbsent, IsDistinct}
use container_lb.Pool.Invariant.{IsConsistent, new_pool-IsConsistent, sync-IsConsistent}
use container_lb.Tests.Machine.{machine, machine-IsKernel}

-- Every attachment succeeds; the world counts them.
abbrev pub links : LinkApi ℕ ℕ
links = record {
  attach_xdp = λ program ifindex flags w. (ok ifindex, w + 1);
  close = λ l w. (none, w);
}

abbrev pub TestManager : Type 0
TestManager = Manager (ℕ → LbConfig) (ℕ → BackendInfo) (List (ℕ × ℕ)) (ℕ → ℕ → StatsCounter) ℕ ℕ

abbrev no_config : LbConfig
no_config = record { vip = 0; vport = 0; backend_count = 0; src_mac = zero_mac }

abbrev pub manager : TestManager
manager = record {
  maps = record {
    config_map = λ i. no_config;
    backend_map = λ i. empty_backend;
    backend_ips_map = [];
    counters_map = λ cpu i. record { rx_packets = 0; rx_bytes = 0 };
  };
  veth_links = [];
  world = 0;
}

-- The backend that answers in `reply`, and one that is stopped.
abbrev pub serving : Backend
serving = record {
  id = "a";
  name = "web-1";
  ip = 172 ∷ 18 ∷ 0 ∷ 2 ∷ [];
  mac = 2 ∷ 66 ∷ 172 ∷ 18 ∷ 0 ∷ 2 ∷ [];
  port = 80;
  healthy = true;
  container_pid = 10;
  veth_name = "veth1";
  veth_idx = 5;
}

abbrev pub stopped : Backend
stopped = record {
  id = "b";
  name = "web-2";
  ip = 172 ∷ 18 ∷ 0 ∷ 3 ∷ [];
  mac = 2 ∷ 66 ∷ 172 ∷ 18 ∷ 0 ∷ 3 ∷ [];
  port = 80;
  healthy = true;
  container_pid = 11;
  veth_name = "veth2";
  veth_idx = 6;
}

abbrev pub two : List Backend
two = stopped ∷ serving ∷ []

abbrev pub one : List Backend
one = serving ∷ []

abbrev pub order : Dict Backend → Dict Backend
order d = d

abbrev pub start : Pool TestManager
start = new_pool manager (10 ∷ 200 ∷ 200 ∷ 200 ∷ []) 8080 (2 ∷ 66 ∷ 172 ∷ 18 ∷ 0 ∷ 1 ∷ [])

abbrev pub sync_to : List Backend → Pool TestManager → Option Error × Pool TestManager
sync_to = sync (manager_updater machine links) order

pub start-IsConsistent : IsConsistent machine start
start-IsConsistent =
    new_pool-IsConsistent machine manager (10 ∷ 200 ∷ 200 ∷ 200 ∷ []) 8080
      (2 ∷ 66 ∷ 172 ∷ 18 ∷ 0 ∷ 1 ∷ []) (λ j. refl)

abbrev pub after_two : Pool TestManager
after_two = (sync_to two start).1

abbrev pub after_one : Pool TestManager
after_one = (sync_to one after_two).1

pub first_sync : (sync_to two start).0 ≡ none
unfolding sync sync_maps write_backends write_backend clear_stale detach_old index_by_veth
    update_backend clear_backend update_config attach_veth_xdp detach_veth_xdp attach lookup insert
    delete to4 equal config_of entry_of new_pool to_mac
first_sync = refl

pub second_sync : (sync_to one after_two).0 ≡ none
unfolding sync sync_maps write_backends write_backend clear_stale detach_old index_by_veth
    update_backend clear_backend update_config attach_veth_xdp detach_veth_xdp attach lookup insert
    delete to4 equal config_of entry_of new_pool to_mac
second_sync = refl

pub after_two-IsConsistent : IsConsistent machine after_two × (after_two.backends ≡ two)
after_two-IsConsistent =
    sync-IsConsistent machine links 2 machine-IsKernel start order two start-IsConsistent
      (omega arith) first_sync

pub after_two_small : length after_two.backends < 4294967296
after_two_small = omega (arith, after_two-IsConsistent.0.fits)

pub beyond : (l : List ℕ) (x from : ℕ) → length l ≤ from → IsAbsent x from l
beyond l x from h i le = λ e. outside (get_elem?-lt l i e) h le
  where
    outside : {n i from : ℕ} → i < n → n ≤ from → from ≤ i → ⊥
    outside a b c = omega arith

pub after_one-IsConsistent : IsConsistent machine after_one × (after_one.backends ≡ one)
after_one-IsConsistent =
    sync-IsConsistent machine links 2 machine-IsKernel after_two order one after_two-IsConsistent.0
      (omega arith) second_sync

pub single : (y : ℕ) → IsDistinct (y ∷ [])
single y x zero zero a b = refl
single y x zero (suc j) a b = absurd (cc b)
single y x (suc i) j a b = absurd (cc a)
