-- ===== src/Pool/ReverseMap.antt =====
-- What a run of `Sync` in userspace/discovery/pool.go means for `backend_ips_map`, the map from
-- which kernelspace/xdp_lb.c recognises the replies of the backends.
use mathlib.Core.Option
use native.Mathlib.Nat.{zero-add}
use container_lb.Base.{
  ℕ, suc, ◌<◌, ◌≤◌, ◌≡◌, ◌∙◌, ap, sym, inl, inr, arith, Option, none, some, List, map,
}
use container_lb.Base.Lists.{length, get_elem?, get_elem?-map}
use container_lb.Maps.{Kernel}
use container_lb.Maps.Laws.{IsKernel}
use container_lb.Go.Dict.{Dict}
use container_lb.Manager.{Manager, LinkApi}
use container_lb.Pool.{Backend, Pool, sync}
use container_lb.Pool.Reverse.{IsAbsent, IsDistinct, rev_sync-put, rev_sync-drop, rev_sync-source}
use container_lb.Pool.Updater.{manager_updater, key}
use container_lb.Pool.Rounds.{AreIpv4}
use container_lb.Pool.Consistency.{IsSynced, sync-IsSynced}

module _ {C B H P L W : Type 0} (k : Kernel C B H P) (api : LinkApi L W) where
  -- The addresses of a list of backends, as keys of the reverse map.
  abbrev pub keys : List Backend → List ℕ
  keys bs = map (key k.endian) bs

  abbrev pub reverse : Pool (Manager C B H P L W) → ℕ → Option ℕ
  reverse pool = k.ips.lookup pool.bpf.maps.backend_ips_map

  pub key_at :
      (bs : List Backend) (j : ℕ) (b : Backend)
      → get_elem? bs j ≡ some b
      → get_elem? (keys bs) j ≡ some (key k.endian b)
  key_at bs j b h = get_elem?-map (key k.endian) bs j ∙ ap (Option.map (key k.endian)) h

  module _ (cpus : ℕ) (laws : IsKernel k cpus) (pool : Pool (Manager C B H P L W))
      (v : AreIpv4 pool.backends) (ho : length pool.backends < 4294967296)
      (range_order : Dict Backend → Dict Backend) (new : List Backend)
      (hn : length new < 4294967296)
      (h : (sync (manager_updater k api) range_order new pool).0 ≡ none) where
    abbrev after : Pool (Manager C B H P L W)
    after = (sync (manager_updater k api) range_order new pool).1

    synced : IsSynced k api cpus laws pool new after
    synced = sync-IsSynced k api cpus laws pool new v hn ho range_order h

    -- After a `Sync` of IPv4 backends without an error, the address of the new backend at index
    -- `j` leads to `j`, where that address stands at no higher index of the old or the new list.
    pub sync-reverse_found :
        (j : ℕ) (b : Backend)
        → get_elem? new j ≡ some b
        → IsAbsent (key k.endian b) (suc j) (keys pool.backends)
        → IsAbsent (key k.endian b) (suc j) (keys new)
        → reverse after (key k.endian b) ≡ some j
    sync-reverse_found j b at ho hn =
        synced.reverse (key k.endian b)
        ∙ rev_sync-put (keys pool.backends) (keys new) 0 (reverse pool) (key k.endian b) j
            (key_at new j b at) ho hn
        ∙ ap some (zero-add j)

    -- After a `Sync` of IPv4 backends without an error, an address that the old list had at index
    -- `d`, and that stands in the new list at no index from `d` on, leads nowhere. So a backend
    -- that is gone leaves no entry, and a backend that moved to a lower index loses its entry.
    pub sync-reverse_lost :
        (d : ℕ) (a : Backend)
        → get_elem? pool.backends d ≡ some a
        → IsAbsent (key k.endian a) d (keys new)
        → reverse after (key k.endian a) ≡ none
    sync-reverse_lost d a at gone =
        synced.reverse (key k.endian a)
        ∙ rev_sync-drop (keys pool.backends) (keys new) 0 (reverse pool) (key k.endian a) d
            (key_at pool.backends d a at) gone

    -- After a `Sync` of IPv4 backends without an error, an address leads only to the index of a
    -- new backend that has it, where the same was true of the old backends before.
    pub sync-reverse_sound :
        ((x m : ℕ) → reverse pool x ≡ some m → get_elem? (keys pool.backends) m ≡ some x)
        → (x m : ℕ) → reverse after x ≡ some m
        → get_elem? (keys after.backends) m ≡ some x
    sync-reverse_sound before x m found =
        elim (rev_sync-source (keys pool.backends) (keys new) 0 (reverse pool) x m
          (sym (synced.reverse x) ∙ found)) [
            | inl (j, e, at) ↦ rw (synced.backends, e, zero-add j) at
            | inr (kept, absent) ↦ absurd (absent m (omega arith) (before x m kept))
          ]

  -- Where no address stands twice, it stands at no other index.
  IsDistinct-IsAbsent :
      (l : List ℕ) (x j : ℕ) → IsDistinct l → get_elem? l j ≡ some x → IsAbsent x (suc j) l
  IsDistinct-IsAbsent l x j d at i le = λ e. absurd (suc_le_self j (rw (d x i j e at) at le))
    where
      suc_le_self : (j : ℕ) → suc j ≤ j → ⊥
      suc_le_self j h = omega arith

  -- A run of `Sync` with the list that the pool already has repairs the reverse map: where it
  -- returns no error, and the backends are IPv4 with no address twice, every one is found.
  pub sync-reverse_repaired :
      (cpus : ℕ)
      → IsKernel k cpus
      → (pool : Pool (Manager C B H P L W)) (range_order : Dict Backend → Dict Backend)
      → AreIpv4 pool.backends
      → IsDistinct (keys pool.backends)
      → length pool.backends < 4294967296
      → (sync (manager_updater k api) range_order pool.backends pool).0 ≡ none
      → (j : ℕ) (b : Backend) → get_elem? pool.backends j ≡ some b
      → reverse (sync (manager_updater k api) range_order pool.backends pool).1 (key k.endian b)
        ≡ some j
  sync-reverse_repaired cpus laws pool range_order v d small h j b at =
      let once =
        IsDistinct-IsAbsent (keys pool.backends) (key k.endian b) j d
          (key_at pool.backends j b at) in
      sync-reverse_found cpus laws pool v small range_order pool.backends small h j b at once once
