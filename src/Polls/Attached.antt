-- ===== src/Polls/Attached.antt =====
-- The attachments of the daemon of userspace/cmd/main.go over its polls.
use Prim.Native.String.{String}
use container_lb.Base.{ℕ, ◌≡◌, ◌≢◌, refl, inl, inr, Option-cases, none, some, List, []}
use container_lb.Base.Lists.{get_elem?}
use container_lb.Maps.{Kernel}
use container_lb.Maps.Laws.{IsKernel}
use container_lb.Go.Dict.{Dict, lookup}
use container_lb.Go.Net.{Ip, HardwareAddr}
use container_lb.Manager.{Manager, LinkApi, Result, ok, err}
use container_lb.Pool.{Backend, Pool, new_pool, sync}
use container_lb.Pool.Updater.{manager_updater}
use container_lb.Manager.Origin.{IsAttachment, AreSnatLinks, Named}
use container_lb.Pool.Preserves.{AllGiven, AllGiven-at}
use container_lb.Pool.Attached.Origin.{sync-AreSnatLinks}
use container_lb.Pool.Attached.Sync.{IsLinked, sync-IsLinked, sync-attaches}
use container_lb.Discovery.{System, Text, discover_backends}
use container_lb.Polls.{Daemon, polled, poll, Reached, started, ticked, changed, counted}

module _ {C B H P L W : Type 0} (k : Kernel C B H P) (api : LinkApi L W) (cpus : ℕ)
    (laws : IsKernel k cpus) {D N R : Type 0} (text : Text) (sys : System D N R)
    (target_port : ℕ) where
  polled-IsLinked :
      (range_order : Dict Backend → Dict Backend) (r : Result (List Backend) × D)
      (pool : Pool (Manager C B H P L W))
      → IsLinked k api pool
      → IsLinked k api (polled k api text sys target_port range_order r pool).pool
  polled-IsLinked range_order (ok bs, w) pool h =
      sync-IsLinked k api cpus laws pool range_order bs h
  polled-IsLinked range_order (err e, w) pool h = h

  Reached-IsLinked :
      {bpf : Manager C B H P L W} {vip : Ip} {src_mac : HardwareAddr}
      {d : Daemon (Manager C B H P L W) D}
      → Reached k api text sys target_port bpf vip src_mac d
      → IsLinked k api d.pool
  unfolding new_pool poll lookup
  Reached-IsLinked (started w) = λ j. λ known. absurd (cc known)
  Reached-IsLinked (ticked {d = d} range_order r) =
      polled-IsLinked range_order (discover_backends text sys target_port d.system) d.pool
        (Reached-IsLinked r)
  Reached-IsLinked (changed w r) = Reached-IsLinked r
  Reached-IsLinked (counted q r) = Reached-IsLinked r

  -- The interface of every discovered backend has a link, where a poll syncs without an error.
  poll-attaches_name :
      {bpf : Manager C B H P L W} {vip : Ip} {src_mac : HardwareAddr}
      {d : Daemon (Manager C B H P L W) D}
      → Reached k api text sys target_port bpf vip src_mac d
      → (range_order : Dict Backend → Dict Backend)
      → ((e : Dict Backend) (name : String)
          → lookup name e ≡ none
          → lookup name (range_order e) ≡ none)
      → (bs : List Backend) → (discover_backends text sys target_port d.system).0 ≡ ok bs
      → (sync (manager_updater k api) range_order bs d.pool).0 ≡ none
      → (j : ℕ) (b : Backend) → get_elem? bs j ≡ some b
      → lookup b.veth_name (poll k api text sys target_port range_order d).pool.bpf.veth_links
        ≢ none
  unfolding poll
  poll-attaches_name {d = d} reached range_order no_more bs found fine j b at = rw found (
      sync-attaches k api cpus laws d.pool range_order bs no_more (Reached-IsLinked reached) fine j
        b at)

  module _ (name_index : String → ℕ)
      (named : (w : D) (bs : List Backend)
        → (discover_backends text sys target_port w).0 ≡ ok bs
        → AllGiven (Named name_index) bs) where
    polled-AreSnatLinks :
        (range_order : Dict Backend → Dict Backend) (r : Result (List Backend) × D)
        (pool : Pool (Manager C B H P L W))
        → ((bs : List Backend) → r.0 ≡ ok bs → AllGiven (Named name_index) bs)
        → AreSnatLinks api name_index pool.bpf
        → AreSnatLinks api name_index
            (polled k api text sys target_port range_order r pool).pool.bpf
    polled-AreSnatLinks range_order (ok bs, w) pool given h =
        sync-AreSnatLinks k api name_index cpus laws range_order bs pool (given bs refl) h
    polled-AreSnatLinks range_order (err e, w) pool given h = h

    Reached-AreSnatLinks :
        {bpf : Manager C B H P L W} {vip : Ip} {src_mac : HardwareAddr}
        {d : Daemon (Manager C B H P L W) D}
        → bpf.veth_links ≡ []
        → Reached k api text sys target_port bpf vip src_mac d
        → AreSnatLinks api name_index d.pool.bpf
    unfolding new_pool poll lookup
    Reached-AreSnatLinks fresh (started w) = record {
      each = λ j l known. absurd (cc (rw fresh at known));
    }
    Reached-AreSnatLinks fresh (ticked {d = d} range_order r) =
        polled-AreSnatLinks range_order (discover_backends text sys target_port d.system) d.pool
          (named d.system) (Reached-AreSnatLinks fresh r)
    Reached-AreSnatLinks fresh (changed w r) = Reached-AreSnatLinks fresh r
    Reached-AreSnatLinks fresh (counted q r) = record { each = (Reached-AreSnatLinks fresh r).each }

    -- Whatever the polls before have done, with errors among them, from a manager without links:
    -- after a poll that discovers backends and whose `Sync` returns no error, the manager keeps
    -- under the interface name of every discovered backend a link that attaching `xdp_veth_snat` at
    -- the index of that interface gave. The iteration over the old backends meets no name that is
    -- not there, and the discovery gives an interface name one index, at all times.
    pub poll-attaches :
        {bpf : Manager C B H P L W} {vip : Ip} {src_mac : HardwareAddr}
        {d : Daemon (Manager C B H P L W) D}
        → bpf.veth_links ≡ []
        → Reached k api text sys target_port bpf vip src_mac d
        → (range_order : Dict Backend → Dict Backend)
        → ((e : Dict Backend) (name : String)
            → lookup name e ≡ none
            → lookup name (range_order e) ≡ none)
        → (bs : List Backend) → (discover_backends text sys target_port d.system).0 ≡ ok bs
        → (sync (manager_updater k api) range_order bs d.pool).0 ≡ none
        → (j : ℕ) (b : Backend) → get_elem? bs j ≡ some b
        → (l : L) × (lookup b.veth_name
              (poll k api text sys target_port range_order d).pool.bpf.veth_links
            ≡ some l)
          × IsAttachment api b.veth_idx l
    poll-attaches {d = d} fresh reached range_order no_more bs found fine j b at =
        let after = Reached-AreSnatLinks fresh (ticked range_order reached) in
        let there = poll-attaches_name reached range_order no_more bs found fine j b at in
        elim (Option-cases (
          lookup b.veth_name (poll k api text sys target_port range_order d).pool.bpf.veth_links)) [
            | inl missing ↦ absurd (there missing)
            | inr (l, known) ↦ (
              l,
              known,
              rw (AllGiven-at (Named name_index) bs (named d.system bs found) j b at)
                  (after.each b.veth_name l known),
            )
          ]
