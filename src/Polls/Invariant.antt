-- ===== src/Polls/Invariant.antt =====
-- What holds of the daemon of userspace/cmd/main.go between two polls, whatever has failed before.
use container_lb.Base.{
  ℕ, ◌<◌, ◌≤◌, ◌≡◌, ◌⊎◌, refl, inl, inr, Option, none, some, Option-cases, List, [], ◌∙◌, arith,
}
use container_lb.Base.Lists.{length}
use container_lb.Types.{max_backends}
use container_lb.Maps.{Kernel}
use container_lb.Maps.Laws.{IsKernel}
use container_lb.Go.Action.{Error}
use container_lb.Go.Dict.{Dict}
use container_lb.Go.Net.{Ip, HardwareAddr}
use container_lb.Manager.{Manager, LinkApi, Result, ok, err}
use container_lb.Pool.{
  Backend, BpfUpdater, Progress, Pool, new_pool, finish, index_by_veth, sync_maps, sync,
}
use container_lb.Pool.Updater.{manager_updater}
use container_lb.Pool.Consistency.{sync-IsSynced}
use container_lb.Pool.Failed.{sync-IsUnpublished}
use container_lb.Pool.Invariant.{IsBounded, sync-IsBounded}
use container_lb.Discovery.{System, Text, discover_backends}
use container_lb.Pool.Rounds.{AreIpv4}
use container_lb.Discovery.Laws.{discover_backends-AreDiscovered, AreDiscovered-AreIpv4}
use container_lb.Polls.{Daemon, polled, poll, Reached, started, ticked, changed, counted}

-- `Sync` never changes what the pool was made with.
pub record IsSameService {S : Type 0} (pool pool' : Pool S) : Type 0 where
  pub vip : pool'.vip ≡ pool.vip
  pub vport : pool'.vport ≡ pool.vport
  pub src_mac : pool'.src_mac ≡ pool.src_mac

finish-IsSameService :
    {S : Type 0} (u : BpfUpdater S) (pool : Pool S) (new : List Backend)
    (r : Option Error × Progress S)
    → IsSameService pool (finish u pool new r).1
finish-IsSameService u pool new (none, p) = record { vip = refl; vport = refl; src_mac = refl }
finish-IsSameService u pool new (some e, p) = record { vip = refl; vport = refl; src_mac = refl }

sync-IsSameService :
    {S : Type 0} (u : BpfUpdater S) (range_order : Dict Backend → Dict Backend) (new : List Backend)
    (pool : Pool S)
    → IsSameService pool (sync u range_order new pool).1
unfolding sync
sync-IsSameService u range_order new pool = finish-IsSameService u pool new (
    sync_maps u range_order pool new (record {
      bpf = pool.bpf;
      by_veth = pool.by_veth;
      old_by_veth = index_by_veth pool.backends [];
    }))

-- What a call of `DiscoverBackends` returned.
abbrev pub WasFound : {D N R : Type 0} → Text → System D N R → ℕ → List Backend → Type 0
WasFound {D} text sys target_port bs =
    (w : D) × ((discover_backends text sys target_port w).0 ≡ ok bs)

-- The pool of a daemon that serves `vip`.
pub record IsServing {S D N R : Type 0} (text : Text) (sys : System D N R) (target_port : ℕ)
    (vip : Ip) (vport : ℕ) (src_mac : HardwareAddr) (pool : Pool S) : Type 0 where
  pub discovered : (pool.backends ≡ []) ⊎ WasFound text sys target_port pool.backends
  pub fits : length pool.backends ≤ max_backends
  pub same_vip : pool.vip ≡ vip
  pub same_vport : pool.vport ≡ vport
  pub same_src_mac : pool.src_mac ≡ src_mac

pub IsServing-IsBounded :
    {S D N R : Type 0} {text : Text} {sys : System D N R} {target_port : ℕ} {vip : Ip} {vport : ℕ}
    {src_mac : HardwareAddr} {pool : Pool S}
    → IsServing text sys target_port vip vport src_mac pool
    → IsBounded pool
IsServing-IsBounded {text = text} {sys = sys} {target_port = target_port} {pool = pool} s = record {
  ipv4 = written s.discovered;
  fits = s.fits;
}
  where
    written :
        (pool.backends ≡ []) ⊎ WasFound text sys target_port pool.backends → AreIpv4 pool.backends
    written (inl none_yet) = rw none_yet tt
    written (inr (w, found)) =
        AreDiscovered-AreIpv4 sys text target_port pool.backends
          (discover_backends-AreDiscovered sys text target_port w pool.backends found)

module _ {C B H P L W : Type 0} (k : Kernel C B H P) (api : LinkApi L W) (cpus : ℕ)
    (laws : IsKernel k cpus) {D N R : Type 0} (text : Text) (sys : System D N R)
    (target_port : ℕ) where
  sync-IsServing :
      (range_order : Dict Backend → Dict Backend) (new : List Backend)
      (pool : Pool (Manager C B H P L W)) (vip : Ip) (src_mac : HardwareAddr)
      → IsServing text sys target_port vip target_port src_mac pool
      → WasFound text sys target_port new
      → length new < 4294967296
      → IsServing text sys target_port vip target_port src_mac
          (sync (manager_updater k api) range_order new pool).1
  sync-IsServing range_order new pool vip src_mac s found small =
      let u = manager_updater k api in
      let same = sync-IsSameService u range_order new pool in
      let bounded = IsServing-IsBounded s in
      elim (Option-cases (sync u range_order new pool).0) [
        | inl fine ↦
            let r =
              sync-IsSynced k api cpus laws pool new bounded.ipv4 small (omega (arith, s.fits))
                range_order fine in
            record {
              discovered = inr (rw r.backends found);
              fits = (sync-IsBounded k api cpus laws pool range_order new bounded small fine).fits;
              same_vip = same.vip ∙ s.same_vip;
              same_vport = same.vport ∙ s.same_vport;
              same_src_mac = same.src_mac ∙ s.same_src_mac;
            }
        | inr (e, failed) ↦
            let r = sync-IsUnpublished k api cpus laws pool range_order new e failed in
            record {
              discovered = rw r.backends s.discovered;
              fits = rw r.backends s.fits;
              same_vip = same.vip ∙ s.same_vip;
              same_vport = same.vport ∙ s.same_vport;
              same_src_mac = same.src_mac ∙ s.same_src_mac;
            }
      ]

  module _
      (small : (d : D) (bs : List Backend)
        → (discover_backends text sys target_port d).0 ≡ ok bs
        → length bs < 4294967296) where
    poll-IsServing :
        (range_order : Dict Backend → Dict Backend) (d : Daemon (Manager C B H P L W) D) (vip : Ip)
        (src_mac : HardwareAddr)
        → IsServing text sys target_port vip target_port src_mac d.pool
        → IsServing text sys target_port vip target_port src_mac
            (poll k api text sys target_port range_order d).pool
    unfolding poll
    poll-IsServing range_order d vip src_mac s =
        listed (discover_backends text sys target_port d.system)
          (λ bs h. ((d.system, h), small d.system bs h))
      where
        listed :
            (r : Result (List Backend) × D)
            → ((bs : List Backend)
                → r.0 ≡ ok bs
                → WasFound text sys target_port bs × (length bs < 4294967296))
            → IsServing text sys target_port vip target_port src_mac
                (polled k api text sys target_port range_order r d.pool).pool
        listed (err e, w) h = s
        listed (ok bs, w) h =
            sync-IsServing range_order bs d.pool vip src_mac s (h bs refl).0 (h bs refl).1

    -- Whatever the polls before have done, with errors of the discovery or of `Sync` among them,
    -- the backends of the pool are none or exactly the list that a call of `DiscoverBackends`
    -- returned, and fit into `backend_map`; and the pool still serves the VIP, port and source MAC
    -- that it was made for. The discovery never finds 2^32 backends.
    pub Reached-IsServing :
        {bpf : Manager C B H P L W} {vip : Ip} {src_mac : HardwareAddr}
        {d : Daemon (Manager C B H P L W) D}
        → Reached k api text sys target_port bpf vip src_mac d
        → IsServing text sys target_port vip target_port src_mac d.pool
    unfolding new_pool
    Reached-IsServing (started w) = record {
      discovered = inl refl;
      fits = omega arith;
      same_vip = refl;
      same_vport = refl;
      same_src_mac = refl;
    }
    Reached-IsServing {vip = vip} {src_mac = src_mac} (ticked {d = d} range_order r) =
        poll-IsServing range_order d vip src_mac (Reached-IsServing r)
    Reached-IsServing (changed w r) = Reached-IsServing r
    Reached-IsServing (counted q r) =
        let s = Reached-IsServing r in
        record {
          discovered = s.discovered;
          fits = s.fits;
          same_vip = s.same_vip;
          same_vport = s.same_vport;
          same_src_mac = s.same_src_mac;
        }
