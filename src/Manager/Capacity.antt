-- ===== src/Manager/Capacity.antt =====
-- How many entries the calls of userspace/bpf/maps.go leave in `backend_ips_map`.
use container_lb.Base.{ℕ, ◌+◌, ◌≤◌, ◌≡◌, inl, inr, Option-cases, Option, none, some, arith}
use container_lb.Maps.{Kernel}
use container_lb.Maps.Laws.{IsKernel}
use container_lb.Go.Net.{Ip, HardwareAddr, V4, to4, uint32}
use container_lb.Manager.{
  Manager, entry_of, empty_backend, update_backend, clear_backend, delete_ip, write_entries,
}

module _ {C B H P L W : Type 0} (k : Kernel C B H P) (cpus : ℕ) (laws : IsKernel k cpus) where
  -- The number of entries of the reverse map.
  abbrev pub entries : Manager C B H P L W → ℕ
  entries m = laws.ips.count m.maps.backend_ips_map

  entries-delete_ip :
      (v : Option V4) (m : Manager C B H P L W) → entries (delete_ip k v m).1 ≤ entries m
  entries-delete_ip none m = omega arith
  entries-delete_ip (some v4) m =
      elim (Option-cases (k.ips.delete m.maps.backend_ips_map (uint32 k.endian v4))) [
        | inl missing ↦ rw missing (omega arith)
        | inr (r, gone) ↦
            let fewer =
              laws.ips.count-delete m.maps.backend_ips_map r (uint32 k.endian v4) gone
                (laws.ips.delete_some m.maps.backend_ips_map r (uint32 k.endian v4) gone) in
            rw gone (omega arith)
      ]

  pub entries-clear_backend :
      (i : ℕ) (ip : Ip) (m : Manager C B H P L W) → entries (clear_backend k i ip m).1 ≤ entries m
  unfolding clear_backend
  entries-clear_backend i ip m =
      elim (Option-cases (k.backend.put m.maps.backend_map i empty_backend)) [
        | inl full ↦ rw full (omega arith)
        | inr (b, put) ↦
            rw put
              (entries-delete_ip (to4 ip) (record m { maps = record (m.maps) { backend_map = b } }))
      ]

  pub entries-update_backend :
      (i : ℕ) (ip : Ip) (port : ℕ) (mac : HardwareAddr) (m : Manager C B H P L W)
      → (update_backend k i ip port mac m).0 ≡ none
      → entries (update_backend k i ip port mac m).1 ≤ entries m + 1
  unfolding update_backend
  entries-update_backend i ip port mac m h = written (to4 ip) h
    where
      written :
          (v : Option V4)
          → (write_entries k i port mac v m).0 ≡ none
          → entries (write_entries k i port mac v m).1 ≤ entries m + 1
      written none h = absurd (cc h)
      written (some v4) h =
          elim (Option-cases (k.backend.put m.maps.backend_map i (entry_of k.endian v4 port mac))) [
            | inl full ↦ absurd (cc (rw full at h))
            | inr (b, put) ↦
                elim (Option-cases (k.ips.put m.maps.backend_ips_map (uint32 k.endian v4) i)) [
                  | inl full ↦ absurd (cc (rw (put, full) at h))
                  | inr (r, put_rev) ↦
                      rw (put, put_rev)
                        (laws.ips.count-put_new m.maps.backend_ips_map r (uint32 k.endian v4) i
                          put_rev)
                ]
          ]
