-- ===== src/Tests/ControlPlane.antt =====
-- The theorems on userspace/bpf and userspace/discovery, and on both planes together, at a pool of
-- two backends of which the first leaves.
use mathlib.Core.Option
use native.Mathlib.Omega.{arith}
use container_lb.Base.{◌+◌, ◌≡◌, refl, none, some, []}
use container_lb.Base.Lists.{get_elem?}
use container_lb.Types.{XdpAction}
use container_lb.Packet.{Packet}
use container_lb.Go.Dict.{lookup, insert, delete}
use container_lb.Go.Net.{to4, equal, to_mac}
use container_lb.Manager.{
  config_of, entry_of, update_config, update_backend, clear_backend, attach, attach_veth_xdp,
  detach_veth_xdp, read_stats,
}
use container_lb.Xdp.{pass, count_packet, xdp_lb_ingress, xdp_veth_snat}
use container_lb.Xdp.Dnat.{IsDnat}
use container_lb.Xdp.Snat.{IsSnat}
use container_lb.Tests.DataPlane.{
  ping, reply, ping-IsBytes, reply-IsBytes, ping-IsIcmp, reply-IsIcmp, config-IsMac, backend-IsMac,
}
use container_lb.Tests.Pools.{
  links, manager, serving, two, one, order, start, sync_to, after_two, after_one,
  start-IsConsistent, first_sync, second_sync, after_two-IsConsistent, after_two_small, beyond,
  after_one-IsConsistent, single,
}
use container_lb.Manager.Stats.{one_more, read_stats-count_packet}
use container_lb.Pool.{
  new_pool, index_by_veth, write_backend, write_backends, clear_stale, detach_old, sync_maps, sync,
}
use container_lb.Pool.Updater.{entry, key}
use container_lb.Pool.ReverseMap.{
  keys, reverse, sync-reverse_found, sync-reverse_lost, sync-reverse_sound, sync-reverse_repaired,
}
use container_lb.Pool.Consistency.{IsSynced, sync-IsSynced}
use container_lb.Pool.Invariant.{IsConsistent, IsConsistent-IsBounded, sync-IsConsistent}
use container_lb.Pool.Total.{sync_total}
use container_lb.Manager.Links.{IsLinkable}
use container_lb.Pool.Rounds.{AreIpv4}
use container_lb.System.{sync-forwards, sync-rewrites, sync-moved_passes}
use container_lb.Tests.Machine.{machine, machine-IsKernel, machine_empty}

sync-IsSynced_example : IsSynced machine links 2 machine-IsKernel after_two one after_one
sync-IsSynced_example =
    sync-IsSynced machine links 2 machine-IsKernel after_two one after_two-IsConsistent.0.ipv4
      (omega arith) after_two_small order second_sync

sync-IsConsistent_example : IsConsistent machine after_one × (after_one.backends ≡ one)
sync-IsConsistent_example =
    sync-IsConsistent machine links 2 machine-IsKernel after_two order one after_two-IsConsistent.0
      (omega arith) second_sync

sync-reverse_found_example : reverse machine links after_two (key machine.endian serving) ≡ some 1
unfolding new_pool
sync-reverse_found_example =
    sync-reverse_found machine links 2 machine-IsKernel start tt (omega arith) order two
      (omega arith) first_sync 1 serving refl
      (beyond [] (key machine.endian serving) 2 (omega arith))
      (beyond (keys machine links two) (key machine.endian serving) 2 (omega arith))

sync-reverse_lost_example : reverse machine links after_one (key machine.endian serving) ≡ none
sync-reverse_lost_example =
    sync-reverse_lost machine links 2 machine-IsKernel after_two after_two-IsConsistent.0.ipv4
      after_two_small order one (omega arith) second_sync 1 serving
      (rw after_two-IsConsistent.1 refl)
      (beyond (keys machine links one) (key machine.endian serving) 1 (omega arith))

sync-reverse_sound_example :
    get_elem? (keys machine links after_two.backends) 1 ≡ some (key machine.endian serving)
unfolding new_pool
sync-reverse_sound_example =
    sync-reverse_sound machine links 2 machine-IsKernel start tt (omega arith) order two
      (omega arith) first_sync (λ x m e. absurd (cc e)) (key machine.endian serving) 1
      sync-reverse_found_example

read_stats-count_packet_example :
    read_stats machine
      (record (manager.maps) {
        counters_map = count_packet machine manager.maps.counters_map 1 3 42;
      })
      3
    ≡ Option.map (one_more 42) (read_stats machine manager.maps 3)
read_stats-count_packet_example =
    read_stats-count_packet machine 2 machine-IsKernel manager.maps 1 3 42 (omega arith)
      (omega arith)

third_sync : (sync_to after_one.backends after_one).0 ≡ none
unfolding sync sync_maps write_backends write_backend clear_stale detach_old index_by_veth
    update_backend clear_backend update_config attach_veth_xdp detach_veth_xdp attach lookup insert
    delete to4 equal config_of entry_of new_pool to_mac
third_sync = refl

-- The reverse map of `after_one` lacks the address; one more poll puts it in.
sync-reverse_repaired_example :
    reverse machine links (sync_to after_one.backends after_one).1 (key machine.endian serving)
    ≡ some 0
sync-reverse_repaired_example =
    sync-reverse_repaired machine links 2 machine-IsKernel after_one order
      after_one-IsConsistent.0.ipv4
      (rw after_one-IsConsistent.1 (single (key machine.endian serving)))
      (omega (arith, after_one-IsConsistent.0.fits)) third_sync 0 serving
      (rw after_one-IsConsistent.1 refl)

sync-forwards_example :
    (q : Packet) × (xdp_lb_ingress machine after_two.bpf.maps 1 7 ping
      ≡ some (record {
        action = XdpAction.xdp_pass;
        packet = q;
        counters = count_packet machine start.bpf.maps.counters_map 1 1 ping.len;
      }))
    × IsDnat machine.endian
        (config_of machine.endian start.vip start.vport 2 start.src_mac)
        (entry machine.endian serving)
        ping
        q
unfolding new_pool config_of to4 to_mac entry entry_of
sync-forwards_example =
    sync-forwards machine links 2 machine-IsKernel start
      (IsConsistent-IsBounded machine start start-IsConsistent) order two (omega arith) first_sync 1
      7 ping serving refl (omega arith) ping-IsBytes ping-IsIcmp
      (record { src_mac = config-IsMac; vip = omega arith }) refl
      (record { mac = backend-IsMac; ipv4 = omega arith }) (omega arith)

sync-rewrites_example :
    (q : Packet) × (xdp_veth_snat machine after_two.bpf.maps reply
      ≡ some (pass machine after_two.bpf.maps q))
    × IsSnat machine.endian
        (config_of machine.endian start.vip start.vport 2 start.src_mac).vip
        reply
        q
unfolding new_pool config_of to4 to_mac key
sync-rewrites_example =
    sync-rewrites machine links 2 machine-IsKernel start
      (IsConsistent-IsBounded machine start start-IsConsistent) order two (omega arith) first_sync
      reply 1 serving refl (beyond [] (key machine.endian serving) 2 (omega arith))
      (beyond (keys machine links two) (key machine.endian serving) 2 (omega arith)) reply-IsBytes
      reply-IsIcmp refl (record { src_mac = config-IsMac; vip = omega arith }) (omega arith)

sync-moved_passes_example :
    xdp_veth_snat machine after_one.bpf.maps reply ≡ some (pass machine after_one.bpf.maps reply)
unfolding key to4
sync-moved_passes_example =
    sync-moved_passes machine links 2 machine-IsKernel after_two
      (IsConsistent-IsBounded machine after_two after_two-IsConsistent.0) order one (omega arith)
      second_sync reply 0 1 serving serving refl (rw after_two-IsConsistent.1 refl) refl
      (omega arith) (single (key machine.endian serving)) reply-IsBytes refl

links-IsLinkable : IsLinkable links
unfolding attach
links-IsLinkable = record { attaches = λ ifindex w. (ifindex, w + 1, refl); closes = λ l w. refl }

two-AreIpv4 : AreIpv4 two
unfolding to4
two-AreIpv4 = ((_, refl), ((_, refl), tt))

sync_total_example : (sync_to two start).0 ≡ none
unfolding new_pool
sync_total_example =
    sync_total machine links 2 machine-IsKernel links-IsLinkable order two start two-AreIpv4
      (omega arith) (omega arith) (omega (arith, machine_empty))
