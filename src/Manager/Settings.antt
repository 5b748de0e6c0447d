-- ===== src/Manager/Settings.antt =====
-- What the calls of userspace/bpf/maps.go on backends leave as it is, with an error or without.
use container_lb.Base.{ℕ, ◌≡◌, ◌∙◌, refl, Option, none, some}
use container_lb.Maps.{Kernel}
use container_lb.Go.Action.{Error, >>_invariant}
use container_lb.Go.Dict.{Dict}
use container_lb.Go.Net.{Ip, HardwareAddr, V4, to4, uint32}
use container_lb.Manager.{
  Manager, entry_of, config_of, update_config, put_config_map, empty_backend, update_backend,
  clear_backend, write_entries, delete_ip, deleted_ip, put_backend_map, put_backend_ips_map,
}

abbrev pub untouched : {C B H P L W : Type 0} → Manager C B H P L W → C × P × Dict L × W
untouched m = (m.maps.config_map, m.maps.counters_map, m.veth_links, m.world)

-- The configuration and the counters.
abbrev pub settings : {C B H P L W : Type 0} → Manager C B H P L W → C × P
settings m = (m.maps.config_map, m.maps.counters_map)

module _ {C B H P L W : Type 0} (k : Kernel C B H P) where
  put_backend_map_kept :
      (e : Error) (o : Option B) (m : Manager C B H P L W)
      → untouched (put_backend_map k e o m).1 ≡ untouched m
  put_backend_map_kept e none m = refl
  put_backend_map_kept e (some b) m = refl

  put_backend_ips_map_kept :
      (o : Option H) (m : Manager C B H P L W)
      → untouched (put_backend_ips_map k o m).1 ≡ untouched m
  put_backend_ips_map_kept none m = refl
  put_backend_ips_map_kept (some h) m = refl

  deleted_ip_kept :
      (o : Option H) (m : Manager C B H P L W) → untouched (deleted_ip k o m).1 ≡ untouched m
  deleted_ip_kept none m = refl
  deleted_ip_kept (some h) m = refl

  delete_ip_kept :
      (v : Option V4) (m : Manager C B H P L W) → untouched (delete_ip k v m).1 ≡ untouched m
  delete_ip_kept none m = refl
  delete_ip_kept (some v4) m =
      deleted_ip_kept (k.ips.delete m.maps.backend_ips_map (uint32 k.endian v4)) m

  write_entries_kept :
      (index port : ℕ) (mac : HardwareAddr) (v : Option V4) (m : Manager C B H P L W)
      → untouched (write_entries k index port mac v m).1 ≡ untouched m
  write_entries_kept index port mac none m = refl
  write_entries_kept index port mac (some v4) m =
      >>_invariant (λ s. untouched s ≡ untouched m)
        (λ s.
          put_backend_map k Error.backend_map_put
            (k.backend.put s.maps.backend_map index (entry_of k.endian v4 port mac)) s)
        (λ s. put_backend_ips_map k (k.ips.put s.maps.backend_ips_map (uint32 k.endian v4) index) s)
        (λ s. λ h.
          put_backend_map_kept Error.backend_map_put
            (k.backend.put s.maps.backend_map index (entry_of k.endian v4 port mac)) s
          ∙ h)
        (λ s. λ h.
          put_backend_ips_map_kept (k.ips.put s.maps.backend_ips_map (uint32 k.endian v4) index) s
          ∙ h)
        m refl

  pub update_backend_kept :
      (index : ℕ) (ip : Ip) (port : ℕ) (mac : HardwareAddr) (m : Manager C B H P L W)
      → untouched (update_backend k index ip port mac m).1 ≡ untouched m
  unfolding update_backend
  update_backend_kept index ip port mac m = write_entries_kept index port mac (to4 ip) m

  pub clear_backend_kept :
      (index : ℕ) (ip : Ip) (m : Manager C B H P L W)
      → untouched (clear_backend k index ip m).1 ≡ untouched m
  unfolding clear_backend
  clear_backend_kept index ip m =
      >>_invariant (λ s. untouched s ≡ untouched m)
        (λ s.
          put_backend_map k Error.backend_map_clear
            (k.backend.put s.maps.backend_map index empty_backend) s)
        (delete_ip k (to4 ip))
        (λ s. λ h.
          put_backend_map_kept Error.backend_map_clear
            (k.backend.put s.maps.backend_map index empty_backend) s
          ∙ h)
        (λ s. λ h. delete_ip_kept (to4 ip) s ∙ h) m refl

  -- `UpdateConfig` leaves the links alone.
  pub update_config_kept :
      (vip : Ip) (vport count : ℕ) (src : HardwareAddr) (m : Manager C B H P L W)
      → Path
          (Dict L × W)
          (
            (update_config k vip vport count src m).1.veth_links,
            (update_config k vip vport count src m).1.world,
          )
          (m.veth_links, m.world)
  unfolding update_config
  update_config_kept vip vport count src m =
      put (k.config.put m.maps.config_map 0 (config_of k.endian vip vport count src))
    where
      put :
          (c : Option C)
          → Path
              (Dict L × W)
              ((put_config_map k c m).1.veth_links, (put_config_map k c m).1.world)
              (m.veth_links, m.world)
      put none = refl
      put (some c) = refl
