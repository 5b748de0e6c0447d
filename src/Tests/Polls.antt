-- ===== src/Tests/Polls.antt =====
-- The theorems on the polls of userspace/cmd/main.go, at a daemon with one container.
use native.Mathlib.Omega.{arith}
use Prim.Native.String.{String}
use container_lb.Base.{ℕ, ◌<◌, ◌≡◌, refl, ap, none, some, List, []}
use container_lb.Base.Lists.{length}
use container_lb.Types.{XdpAction}
use container_lb.Packet.{Packet}
use container_lb.Go.Dict.{lookup, insert, delete}
use container_lb.Go.Net.{to4, equal, to_mac}
use container_lb.Manager.{
  Result, ok, err, config_of, entry_of, update_config, update_backend, clear_backend, attach,
  attach_veth_xdp, detach_veth_xdp,
}
use container_lb.Xdp.{pass, count_packet, xdp_lb_ingress, xdp_veth_snat}
use container_lb.Xdp.Dnat.{IsDnat}
use container_lb.Pool.{
  Backend, new_pool, index_by_veth, write_backend, write_backends, clear_stale, detach_old,
  sync_maps, sync,
}
use container_lb.Pool.Updater.{entry, key}
use container_lb.Discovery.{discover_backends}
use container_lb.Polls.{Daemon, poll, Reached, started, ticked}
use container_lb.Polls.Invariant.{IsServing, Reached-IsServing}
use container_lb.Manager.Origin.{IsAttachment, Named}
use container_lb.Pool.Preserves.{AllGiven}
use container_lb.Polls.Attached.{poll-attaches}
use container_lb.Polls.Replies.{poll-rewrites}
use container_lb.Xdp.Snat.{IsSnat}
use container_lb.Pool.ReverseMap.{keys}
use container_lb.Polls.Forwarding.{poll-forwards}
use container_lb.Tests.Machine.{machine, machine-IsKernel}
use container_lb.Tests.Pools.{
  TestManager, links, manager, serving, one, order, start, sync_to, beyond,
}
use container_lb.Tests.DataPlane.{
  reply, reply-IsBytes, reply-IsIcmp, ping, ping-IsBytes, ping-IsIcmp, config-IsMac, backend-IsMac,
}
use container_lb.Tests.World.{World, empty}
use container_lb.Tests.Userspace.{system, texts, discovered}

abbrev listed : Result (List Backend) → List Backend
listed (ok bs) = bs
listed (err e) = []

few :
    (w : World) (bs : List Backend)
    → (discover_backends texts system 8080 w).0 ≡ ok bs
    → length bs < 4294967296
few w bs h = rw (← ap listed h, discovered w) (omega arith)

abbrev daemon : Daemon TestManager World
daemon = record { pool = start; system = empty }

daemon-Reached : Reached machine links texts system 8080 manager start.vip start.src_mac daemon
unfolding new_pool
daemon-Reached = started empty

Reached-IsServing_example :
    IsServing texts system 8080 start.vip 8080 start.src_mac
      (poll machine links texts system 8080 order daemon).pool
Reached-IsServing_example =
    Reached-IsServing machine links 2 machine-IsKernel texts system 8080 few
      (ticked order daemon-Reached)

synced : (sync_to one start).0 ≡ none
unfolding sync sync_maps write_backends write_backend clear_stale detach_old index_by_veth
    update_backend clear_backend update_config attach_veth_xdp detach_veth_xdp attach lookup insert
    delete to4 equal config_of entry_of new_pool to_mac
synced = refl

poll-forwards_example :
    (q : Packet) × (xdp_lb_ingress machine
        (poll machine links texts system 8080 order daemon).pool.bpf.maps
        1
        7
        ping
      ≡ some (record {
        action = XdpAction.xdp_pass;
        packet = q;
        counters = count_packet machine start.bpf.maps.counters_map 1 0 ping.len;
      }))
    × IsDnat machine.endian
        (config_of machine.endian start.vip 8080 1 start.src_mac)
        (entry machine.endian serving)
        ping
        q
unfolding new_pool config_of to4 to_mac entry entry_of
poll-forwards_example =
    poll-forwards machine links 2 machine-IsKernel texts system 8080 few daemon-Reached order one
      (discovered empty) synced 1 7 ping serving refl (omega arith) ping-IsBytes ping-IsIcmp
      (record { src_mac = config-IsMac; vip = omega arith }) refl
      (record { mac = backend-IsMac; ipv4 = omega arith }) (omega arith)

abbrev five : String → ℕ
five name = 5

named :
    (w : World) (bs : List Backend)
    → (discover_backends texts system 8080 w).0 ≡ ok bs
    → AllGiven (Named five) bs
named w bs h = rw (← ap listed h, discovered w) (refl, tt)

poll-attaches_example :
    (l : ℕ) × (lookup serving.veth_name
        (poll machine links texts system 8080 order daemon).pool.bpf.veth_links
      ≡ some l)
    × IsAttachment links serving.veth_idx l
poll-attaches_example =
    poll-attaches machine links 2 machine-IsKernel texts system 8080 five named refl daemon-Reached
      order (λ e name. λ missing. missing) one (discovered empty) synced 0 serving refl

poll-rewrites_example :
    (q : Packet) × (xdp_veth_snat machine
        (poll machine links texts system 8080 order daemon).pool.bpf.maps
        reply
      ≡ some (pass machine (poll machine links texts system 8080 order daemon).pool.bpf.maps q))
    × IsSnat machine.endian (config_of machine.endian start.vip 8080 1 start.src_mac).vip reply q
unfolding new_pool config_of to4 to_mac key
poll-rewrites_example =
    poll-rewrites machine links 2 machine-IsKernel texts system 8080 few daemon-Reached order one
      (discovered empty) synced reply 0 serving refl
      (beyond [] (key machine.endian serving) 1 (omega arith))
      (beyond (keys machine links one) (key machine.endian serving) 1 (omega arith)) reply-IsBytes
      reply-IsIcmp refl (record { src_mac = config-IsMac; vip = omega arith }) (omega arith)
