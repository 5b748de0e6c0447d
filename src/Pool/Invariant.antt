-- ===== src/Pool/Invariant.antt =====
-- The state of a pool of userspace/discovery/pool.go between two runs of `Sync`.
use native.Mathlib.Decide.{dec_lt}
use container_lb.Base.{
  ℕ, ◌<◌, ◌≤◌, ◌≡◌, ◌∙◌, sym, arith, Option, none, some, ltb, true, refl, ap, List, if◌then◌else◌,
}
use container_lb.Base.Lists.{length, get_elem?, get_elem?-in, get_elem?-lt}
use container_lb.Packet.{Endian}
use container_lb.Types.{BackendInfo, max_backends}
use container_lb.Maps.{Kernel}
use container_lb.Maps.Laws.{IsKernel}
use container_lb.Go.Dict.{Dict}
use container_lb.Go.Net.{Ip, HardwareAddr}
use container_lb.Manager.{Manager, LinkApi, empty_backend}
use container_lb.Pool.{Backend, Pool, new_pool, sync}
use container_lb.Pool.Updater.{manager_updater, entry}
use container_lb.Pool.Rounds.{AreIpv4}
use container_lb.Pool.Tables.{slot}
use container_lb.Pool.Consistency.{IsSynced, sync-IsSynced}

-- What `backend_map` holds at an index: the backend that the pool has there, or an empty entry.
abbrev pub wanted : Endian → Option Backend → ℕ → Option BackendInfo
wanted e (some b) j = some (entry e b)
wanted e none j = if ltb j max_backends then some empty_backend else none

-- An empty entry stays where the old list had a backend, and one comes where it had one.
slot-wanted :
    (e : Endian) (n o : Option Backend) (j size : ℕ)
    → size ≤ max_backends
    → ((b : Backend) → o ≡ some b → j < size)
    → slot e n (ltb j size) (wanted e o j) ≡ wanted e n j
slot-wanted e (some b) o j size fits inside = refl
slot-wanted e none none j size fits inside = ground arith
slot-wanted e none (some b) j size fits inside =
    let below = inside b refl in
    rw (ltb_true j size below, ltb_true j max_backends (omega arith)) refl
  where
    ltb_true : (i n : ℕ) → i < n → ltb i n ≡ true
    ltb_true i n h = ground arith

-- Every backend of the pool is IPv4 and has an index of `backend_map`.
pub record IsBounded {S : Type 0} (pool : Pool S) : Type 0 where
  pub ipv4 : AreIpv4 pool.backends
  pub fits : length pool.backends ≤ max_backends

module _ {C B H P L W : Type 0} (k : Kernel C B H P) where
  -- The pool's backends are IPv4, fit into `backend_map` and stand there, with nothing after them.
  pub record IsConsistent (pool : Pool (Manager C B H P L W)) : Type 0 where
    pub ipv4 : AreIpv4 pool.backends
    pub fits : length pool.backends ≤ max_backends
    pub forward :
        (j : ℕ)
        → k.backend.lookup pool.bpf.maps.backend_map j
          ≡ wanted k.endian (get_elem? pool.backends j) j

  -- A new pool is consistent where `backend_map` is all zero, as the kernel creates it.
  pub new_pool-IsConsistent :
      (m : Manager C B H P L W) (vip : Ip) (vport : ℕ) (src : HardwareAddr)
      → ((j : ℕ)
          → k.backend.lookup m.maps.backend_map j
            ≡ (if ltb j max_backends then some empty_backend else none))
      → IsConsistent (new_pool m vip vport src)
  unfolding new_pool
  new_pool-IsConsistent m vip vport src zeros = record {
    ipv4 = tt;
    fits = omega arith;
    forward = zeros;
  }

  pub IsConsistent-IsBounded :
      (pool : Pool (Manager C B H P L W)) → IsConsistent pool → IsBounded pool
  IsConsistent-IsBounded pool c = record { ipv4 = c.ipv4; fits = c.fits }

  -- After a `Sync` without an error the new list is no longer than `backend_map`.
  synced_fits :
      (api : LinkApi L W) (cpus : ℕ) (laws : IsKernel k cpus)
      (pool pool' : Pool (Manager C B H P L W)) (new : List Backend)
      → IsSynced k api cpus laws pool new pool'
      → length new ≤ max_backends
  synced_fits api cpus laws pool pool' new s = elim (dec_lt max_backends (length new)) [
    | yes over ↦
        let (b, at) = get_elem?-in new max_backends over in
        absurd (
          cc (
            sym (laws.backend.lookup_out pool'.bpf.maps.backend_map max_backends (omega arith))
            ∙ rw at at (s.forward max_backends)))
    | no within ↦ omega arith
  ]

  -- A `Sync` without an error leaves a bounded pool.
  pub sync-IsBounded :
      (api : LinkApi L W) (cpus : ℕ) (laws : IsKernel k cpus) (pool : Pool (Manager C B H P L W))
      (range_order : Dict Backend → Dict Backend) (new : List Backend)
      → IsBounded pool
      → length new < 4294967296
      → (sync (manager_updater k api) range_order new pool).0 ≡ none
      → IsBounded (sync (manager_updater k api) range_order new pool).1
  sync-IsBounded api cpus laws pool range_order new c small h =
      let s =
        sync-IsSynced k api cpus laws pool new c.ipv4 small (omega (arith, c.fits)) range_order h in
      record {
        ipv4 = rw s.backends s.ipv4;
        fits = rw s.backends (synced_fits api cpus laws pool _ new s);
      }

  -- A `Sync` without an error keeps a pool consistent, with the new list in it: all IPv4, no longer
  -- than `backend_map`, which has their entries at their indexes and empty entries after them.
  pub sync-IsConsistent :
      (api : LinkApi L W) (cpus : ℕ)
      → IsKernel k cpus
      → (pool : Pool (Manager C B H P L W)) (range_order : Dict Backend → Dict Backend)
        (new : List Backend)
      → IsConsistent pool
      → length new < 4294967296
      → (sync (manager_updater k api) range_order new pool).0 ≡ none
      → IsConsistent (sync (manager_updater k api) range_order new pool).1
        × ((sync (manager_updater k api) range_order new pool).1.backends ≡ new)
  sync-IsConsistent api cpus laws pool range_order new c small h =
      let s =
        sync-IsSynced k api cpus laws pool new c.ipv4 small (omega (arith, c.fits)) range_order h in
      (
        record {
          ipv4 = rw s.backends s.ipv4;
          fits = rw s.backends (synced_fits api cpus laws pool _ new s);
          forward = λ j. rw s.backends (
              s.forward j
              ∙ ap (slot k.endian (get_elem? new j) (ltb j (length pool.backends))) (c.forward j)
              ∙ slot-wanted k.endian (get_elem? new j) (get_elem? pool.backends j) j
                  (length pool.backends) c.fits (λ b at. get_elem?-lt pool.backends j at));
        },
        s.backends,
      )
