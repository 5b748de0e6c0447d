-- ===== src/Polls/Replies.antt =====
-- The replies of the backends, kernelspace/xdp_lb.c, after a poll of userspace/cmd/main.go.
use container_lb.Base.{ℕ, suc, ◌<◌, ◌≡◌, ◌≢◌, none, some, List}
use container_lb.Base.Lists.{length, get_elem?}
use container_lb.Packet.{Packet, u32_at}
use container_lb.Checksum.Rewrite.{IsBytes}
use container_lb.Maps.{Kernel}
use container_lb.Maps.Laws.{IsKernel}
use container_lb.Xdp.{pass, xdp_veth_snat}
use container_lb.Xdp.Parse.{IsIcmp}
use container_lb.Xdp.Snat.{IsSnat}
use container_lb.Xdp.Ingress.{IsConfig}
use container_lb.Go.Dict.{Dict}
use container_lb.Go.Net.{Ip, HardwareAddr}
use container_lb.Manager.{Manager, LinkApi, ok}
use container_lb.Pool.{Backend, sync}
use container_lb.Pool.Reverse.{IsAbsent}
use container_lb.Pool.ReverseMap.{keys}
use container_lb.Pool.Updater.{manager_updater, key}
use container_lb.Discovery.{System, Text, discover_backends}
use container_lb.Polls.{Daemon, poll, Reached}
use container_lb.Polls.Invariant.{Reached-IsServing, IsServing-IsBounded}
use container_lb.Polls.Forwarding.{config}
use container_lb.System.{sync-rewrites}

module _ {C B H P L W : Type 0} (k : Kernel C B H P) (api : LinkApi L W) (cpus : ℕ)
    (laws : IsKernel k cpus) {D N R : Type 0} (text : Text) (sys : System D N R)
    (target_port : ℕ) where
  -- Whatever the polls before have done: after a poll that discovers backends, fewer than 2^32, and
  -- whose `Sync` returns no error, an ICMP reply of the discovered backend at index `j` gets the VIP
  -- as its source, where one of 32 bits is set, and the backend's address stands at no higher index
  -- of the discovered list or of the list that the pool had.
  pub poll-rewrites :
      (small : (d : D) (bs : List Backend)
        → (discover_backends text sys target_port d).0 ≡ ok bs
        → length bs < 4294967296)
      {bpf : Manager C B H P L W} {vip : Ip} {src_mac : HardwareAddr}
      {d : Daemon (Manager C B H P L W) D}
      → Reached k api text sys target_port bpf vip src_mac d
      → (range_order : Dict Backend → Dict Backend) (bs : List Backend)
      → (discover_backends text sys target_port d.system).0 ≡ ok bs
      → (sync (manager_updater k api) range_order bs d.pool).0 ≡ none
      → (p : Packet) (j : ℕ) (b : Backend) → get_elem? bs j ≡ some b
      → IsAbsent (key k.endian b) (suc j) (keys k api d.pool.backends)
      → IsAbsent (key k.endian b) (suc j) (keys k api bs)
      → IsBytes p
      → IsIcmp k.endian p
      → u32_at k.endian p 26 ≡ key k.endian b
      → IsConfig (config k api cpus laws text sys target_port vip src_mac (length bs))
      → (config k api cpus laws text sys target_port vip src_mac (length bs)).vip ≢ 0
      → (q : Packet) × (xdp_veth_snat k
            (poll k api text sys target_port range_order d).pool.bpf.maps
            p
          ≡ some (pass k (poll k api text sys target_port range_order d).pool.bpf.maps q))
        × IsSnat k.endian
            (config k api cpus laws text sys target_port vip src_mac (length bs)).vip
            p
            q
  unfolding poll
  poll-rewrites small {d = d} reached range_order bs found fine p j b at old_above new_above bytes
        icmp from wc used =
      let s = Reached-IsServing k api cpus laws text sys target_port small reached in
      rw (found, ← s.same_vip, ← s.same_vport, ← s.same_src_mac)
        (sync-rewrites k api cpus laws d.pool (IsServing-IsBounded s) range_order bs
          (small d.system bs found) fine p j b at old_above new_above bytes icmp from
          (rw (s.same_vip, s.same_vport, s.same_src_mac) wc)
          (rw (s.same_vip, s.same_vport, s.same_src_mac) used))
