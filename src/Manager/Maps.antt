-- ===== src/Manager/Maps.antt =====
-- What the calls of userspace/bpf/maps.go do to the contents of the maps.
use mathlib.Core.Option
use native.Mathlib.Decide.{dec_lt}
use container_lb.Base.{
  ℕ, ◌≤◌, ◌<◌, ◌≡◌, ◌≢◌, ◌∙◌, ap, sym, refl, ◌⊎◌, inl, inr, Option, none, some, Option-cases, ◌==◌,
  if◌then◌else◌, arith,
}
use container_lb.Base.Tables.{put_at, drop_at, drop_key}
use container_lb.Types.{BackendInfo, max_backends}
use container_lb.Maps.{Kernel}
use container_lb.Maps.Laws.{IsKernel}
use container_lb.Go.Net.{Ip, HardwareAddr, V4, to4, uint32}
use container_lb.Manager.{
  Manager, config_of, entry_of, empty_backend, update_config, update_backend, clear_backend,
  write_entries, deleted_ip, delete_ip,
}

-- To take out an entry that is not there changes nothing.
absent_drop : (t : ℕ → Option ℕ) (k x : ℕ) → t k ≡ none → t x ≡ drop_at k t x
absent_drop t k x h = ground arith

module _ {C B H P L W : Type 0} (k : Kernel C B H P) where
  abbrev pub forward : Manager C B H P L W → ℕ → Option BackendInfo
  forward m = k.backend.lookup m.maps.backend_map

  abbrev pub reverse : Manager C B H P L W → ℕ → Option ℕ
  reverse m = k.ips.lookup m.maps.backend_ips_map

  -- From `m` to `m'` the two tables of backends became `fwd` and `rev`, and nothing else changed.
  pub record Writes (m m' : Manager C B H P L W) (fwd : ℕ → Option BackendInfo) (rev : ℕ → Option ℕ)
      : Type 0 where
    pub forward_is : (j : ℕ) → forward m' j ≡ fwd j
    pub reverse_is : (x : ℕ) → reverse m' x ≡ rev x
    pub same_config : m'.maps.config_map ≡ m.maps.config_map
    pub same_counters : m'.maps.counters_map ≡ m.maps.counters_map
    pub same_links : m'.veth_links ≡ m.veth_links
    pub same_world : m'.world ≡ m.world

  module _ (cpus : ℕ) (laws : IsKernel k cpus) where
    write_entries_ok :
        (index port : ℕ) (mac : HardwareAddr) (v4 : V4) (m : Manager C B H P L W)
        → (write_entries k index port mac (some v4) m).0 ≡ none
        → Writes m
            (write_entries k index port mac (some v4) m).1
            (put_at index (entry_of k.endian v4 port mac) (forward m))
            (put_at (uint32 k.endian v4) index (reverse m))
    write_entries_ok index port mac v4 m h =
        elim (Option-cases
          (k.backend.put m.maps.backend_map index (entry_of k.endian v4 port mac))) [
            | inl full ↦ absurd (cc (rw full at h))
            | inr (b, put) ↦
                elim (Option-cases (k.ips.put m.maps.backend_ips_map (uint32 k.endian v4) index)) [
                  | inl full ↦ absurd (cc (rw (put, full) at h))
                  | inr (r, put_rev) ↦
                      rw (put, put_rev)
                        (record {
                          forward_is = λ j.
                              laws.backend.lookup-put m.maps.backend_map b index j
                                (entry_of k.endian v4 port mac) put;
                          reverse_is = λ x.
                              laws.ips.lookup-put m.maps.backend_ips_map r (uint32 k.endian v4) x
                                index put_rev;
                          same_config = refl;
                          same_counters = refl;
                          same_links = refl;
                          same_world = refl;
                        })
                ]
          ]

    -- `UpdateBackend` without an error: the address is IPv4, the entry stands at its index, and the
    -- address leads back to it. Nothing else has changed.
    pub update_backend_ok :
        (index : ℕ) (ip : Ip) (port : ℕ) (mac : HardwareAddr) (m : Manager C B H P L W)
        → (update_backend k index ip port mac m).0 ≡ none
        → (v4 : V4) × (to4 ip ≡ some v4)
          × Writes m
              (update_backend k index ip port mac m).1
              (put_at index (entry_of k.endian v4 port mac) (forward m))
              (put_at (uint32 k.endian v4) index (reverse m))
    unfolding update_backend
    update_backend_ok index ip port mac m h = go (to4 ip) refl h
      where
        go :
            (v : Option V4)
            → to4 ip ≡ v
            → (write_entries k index port mac v m).0 ≡ none
            → (v4 : V4) × (to4 ip ≡ some v4)
              × Writes m
                  (write_entries k index port mac v m).1
                  (put_at index (entry_of k.endian v4 port mac) (forward m))
                  (put_at (uint32 k.endian v4) index (reverse m))
        go none e h = absurd (cc h)
        go (some v4) e h = (v4, e, write_entries_ok index port mac v4 m h)

    delete_ip-Writes :
        (v : Option V4) (m m' : Manager C B H P L W) (fwd : ℕ → Option BackendInfo)
        → Writes m m' fwd (reverse m)
        → Writes m (delete_ip k v m').1 fwd (drop_key (Option.map (uint32 k.endian) v) (reverse m))
    delete_ip-Writes none m m' fwd w = w
    delete_ip-Writes (some v4) m m' fwd w =
        elim (Option-cases (k.ips.delete m'.maps.backend_ips_map (uint32 k.endian v4))) [
          | inl missing ↦ rw missing (record {
            forward_is = w.forward_is;
            reverse_is = λ x.
                w.reverse_is x
                ∙ absent_drop (reverse m) (uint32 k.endian v4) x (
                    sym (w.reverse_is (uint32 k.endian v4))
                    ∙ laws.ips.delete_none m'.maps.backend_ips_map (uint32 k.endian v4) missing);
            same_config = w.same_config;
            same_counters = w.same_counters;
            same_links = w.same_links;
            same_world = w.same_world;
          })
          | inr (r, gone) ↦ rw gone (record {
            forward_is = w.forward_is;
            reverse_is = λ x.
                laws.ips.lookup-delete m'.maps.backend_ips_map r (uint32 k.endian v4) x gone
                ∙ ap (λ (o : Option ℕ). if x == uint32 k.endian v4 then none else o)
                    (w.reverse_is x);
            same_config = w.same_config;
            same_counters = w.same_counters;
            same_links = w.same_links;
            same_world = w.same_world;
          })
        ]

    put_empty_Writes :
        (index : ℕ) (m : Manager C B H P L W) (b : B)
        → k.backend.put m.maps.backend_map index empty_backend ≡ some b
        → Writes m
            (record m { maps = record (m.maps) { backend_map = b } })
            (put_at index empty_backend (forward m))
            (reverse m)
    put_empty_Writes index m b put = record {
      forward_is = λ j. laws.backend.lookup-put m.maps.backend_map b index j empty_backend put;
      reverse_is = λ x. refl;
      same_config = refl;
      same_counters = refl;
      same_links = refl;
      same_world = refl;
    }

    -- `ClearBackend` without an error: the entry is empty, and the address leads nowhere.
    pub clear_backend_ok :
        (index : ℕ) (ip : Ip) (m : Manager C B H P L W)
        → (clear_backend k index ip m).0 ≡ none
        → Writes m
            (clear_backend k index ip m).1
            (put_at index empty_backend (forward m))
            (drop_key (Option.map (uint32 k.endian) (to4 ip)) (reverse m))
    unfolding clear_backend
    clear_backend_ok index ip m h =
        elim (Option-cases (k.backend.put m.maps.backend_map index empty_backend)) [
          | inl full ↦ absurd (cc (rw full at h))
          | inr (b, put) ↦ rw put (
              delete_ip-Writes (to4 ip) m (record m { maps = record (m.maps) { backend_map = b } })
                (put_at index empty_backend (forward m)) (put_empty_Writes index m b put))
        ]

    -- An index inside of the map can always be cleared.
    pub clear_backend_total :
        (index : ℕ) (ip : Ip) (m : Manager C B H P L W)
        → index < max_backends
        → (clear_backend k index ip m).0 ≡ none
    unfolding clear_backend
    clear_backend_total index ip m h =
        let (b, put) = laws.backend.put_in m.maps.backend_map index empty_backend h in
        rw put (go (to4 ip) (record m { maps = record (m.maps) { backend_map = b } }))
      where
        removed : (r : Option H) (m : Manager C B H P L W) → (deleted_ip k r m).0 ≡ none
        removed none m = refl
        removed (some r) m = refl

        go : (v : Option V4) (m : Manager C B H P L W) → (delete_ip k v m).0 ≡ none
        go none m = refl
        go (some v4) m = removed (k.ips.delete m.maps.backend_ips_map (uint32 k.endian v4)) m

    -- An entry is written only at an index inside of the map.
    pub update_backend_index :
        (index : ℕ) (ip : Ip) (port : ℕ) (mac : HardwareAddr) (m : Manager C B H P L W)
        → (update_backend k index ip port mac m).0 ≡ none
        → index < max_backends
    unfolding update_backend
    update_backend_index index ip port mac m h = elim (dec_lt index max_backends) [
      | yes inside ↦ inside
      | no outside ↦ absurd (refused (to4 ip) (omega arith) h)
    ]
      where
        refused :
            (v : Option V4)
            → max_backends ≤ index
            → (write_entries k index port mac v m).0 ≡ none
            → ⊥
        refused none out h = cc h
        refused (some v4) out h = cc (
            rw (laws.backend.put_out m.maps.backend_map index (entry_of k.endian v4 port mac) out)
              at h)

    -- An IPv4 backend is written wherever the index is inside of the map and its address is known
    -- to the reverse map, or there is room for one more.
    pub update_backend_total :
        (index : ℕ) (ip : Ip) (v4 : V4) (port : ℕ) (mac : HardwareAddr) (m : Manager C B H P L W)
        → to4 ip ≡ some v4
        → index < max_backends
        → (reverse m (uint32 k.endian v4) ≢ none)
          ⊎ (laws.ips.count m.maps.backend_ips_map < max_backends)
        → (update_backend k index ip port mac m).0 ≡ none
    unfolding update_backend
    update_backend_total index ip v4 port mac m e inside room =
        let (b, put) =
          laws.backend.put_in m.maps.backend_map index (entry_of k.endian v4 port mac) inside in
        let (r, put_rev) =
          laws.ips.put_some m.maps.backend_ips_map (uint32 k.endian v4) index room in
        rw (e, put, put_rev)

    -- `UpdateConfig` always succeeds, and changes the configuration alone.
    pub update_config_total :
        (vip : Ip) (vport count : ℕ) (src : HardwareAddr) (m : Manager C B H P L W)
        → (c : C) × (update_config k vip vport count src m
            ≡ (none, record m { maps = record (m.maps) { config_map = c } }))
          × (k.config.lookup c 0 ≡ some (config_of k.endian vip vport count src))
    unfolding update_config
    update_config_total vip vport count src m =
        let (c, put) =
          laws.config.put_in m.maps.config_map 0 (config_of k.endian vip vport count src)
            (omega arith) in
        (
          c,
          rw put,
          laws.config.lookup-put m.maps.config_map c 0 0 (config_of k.endian vip vport count src)
              put,
        )
