-- ===== src/Polls/Forwarding.antt =====
-- The data plane of kernelspace/xdp_lb.c after a poll of userspace/cmd/main.go.
use container_lb.Base.{ℕ, ◌%◌, ◌<◌, ◌≡◌, ◌≢◌, none, some, List}
use container_lb.Base.Lists.{length, get_elem?}
use container_lb.Packet.{Packet, u32_at}
use container_lb.Types.{LbConfig, XdpAction}
use container_lb.Checksum.Rewrite.{IsBytes}
use container_lb.Maps.{Kernel}
use container_lb.Maps.Laws.{IsKernel}
use container_lb.Xdp.{count_packet, xdp_lb_ingress}
use container_lb.Xdp.Parse.{IsIcmp}
use container_lb.Xdp.Dnat.{IsDnat}
use container_lb.Xdp.Ingress.{IsBackend, IsConfig}
use container_lb.Go.Dict.{Dict}
use container_lb.Go.Net.{Ip, HardwareAddr}
use container_lb.Manager.{Manager, LinkApi, ok, config_of}
use container_lb.Pool.{Backend, sync}
use container_lb.Pool.Updater.{manager_updater, entry}
use container_lb.Discovery.{System, Text, discover_backends}
use container_lb.Polls.{Daemon, poll, Reached}
use container_lb.Polls.Invariant.{Reached-IsServing, IsServing-IsBounded}
use container_lb.System.{sync-forwards}

module _ {C B H P L W : Type 0} (k : Kernel C B H P) (api : LinkApi L W) (cpus : ℕ)
    (laws : IsKernel k cpus) {D N R : Type 0} (text : Text) (sys : System D N R)
    (target_port : ℕ) where
  -- The configuration that a poll of `n` backends writes.
  abbrev pub config : Ip → HardwareAddr → ℕ → LbConfig
  config vip src_mac n = config_of k.endian vip target_port n src_mac

  -- Whatever the polls before have done: a poll that discovers backends, fewer than 2^32, and whose
  -- `Sync` returns no error makes an ICMP frame for the VIP go to the discovered backend that the
  -- random number picks, and be counted there. The address of that backend is not 0.0.0.0, and the
  -- numbers in the maps are of the width of their fields.
  pub poll-forwards :
      (small : (d : D) (bs : List Backend)
        → (discover_backends text sys target_port d).0 ≡ ok bs
        → length bs < 4294967296)
      {bpf : Manager C B H P L W} {vip : Ip} {src_mac : HardwareAddr}
      {d : Daemon (Manager C B H P L W) D}
      → Reached k api text sys target_port bpf vip src_mac d
      → (range_order : Dict Backend → Dict Backend) (bs : List Backend)
      → (discover_backends text sys target_port d.system).0 ≡ ok bs
      → (sync (manager_updater k api) range_order bs d.pool).0 ≡ none
      → (cpu rnd : ℕ) (p : Packet) (b : Backend) → get_elem? bs (rnd % length bs) ≡ some b
      → length bs ≢ 0
      → IsBytes p
      → IsIcmp k.endian p
      → IsConfig (config vip src_mac (length bs))
      → u32_at k.endian p 30 ≡ (config vip src_mac (length bs)).vip
      → IsBackend (entry k.endian b)
      → (entry k.endian b).ipv4 ≢ 0
      → (q : Packet) × (xdp_lb_ingress k
            (poll k api text sys target_port range_order d).pool.bpf.maps
            cpu
            rnd
            p
          ≡ some (record {
            action = XdpAction.xdp_pass;
            packet = q;
            counters = count_packet k d.pool.bpf.maps.counters_map cpu (rnd % length bs) p.len;
          }))
        × IsDnat k.endian (config vip src_mac (length bs)) (entry k.endian b) p q
  unfolding poll
  poll-forwards small {d = d} reached range_order bs found fine cpu rnd p b at some_backend bytes
        icmp wc for_vip wb used =
      let s = Reached-IsServing k api cpus laws text sys target_port small reached in
      rw (found, ← s.same_vip, ← s.same_vport, ← s.same_src_mac)
        (sync-forwards k api cpus laws d.pool (IsServing-IsBounded s) range_order bs
          (small d.system bs found) fine cpu rnd p b at some_backend bytes icmp
          (rw (s.same_vip, s.same_vport, s.same_src_mac) wc)
          (rw (s.same_vip, s.same_vport, s.same_src_mac) for_vip) wb used)
