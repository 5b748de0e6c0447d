-- ===== src/Pool/Total.antt =====
-- When `Sync` of userspace/discovery/pool.go over the manager returns no error.
use mathlib.Core.Option
use container_lb.Base.{
  ℕ, ◌+◌, ◌<◌, ◌≤◌, ◌≡◌, ◌∙◌, ap, refl, inl, inr, false, Bool-cases, Option, none, some, List, [],
  ◌∷◌, arith,
}
use container_lb.Base.Lists.{length, get_elem?, drop, length-drop}
use container_lb.Types.{max_backends}
use container_lb.Maps.{Kernel, Maps}
use container_lb.Maps.Laws.{IsKernel}
use container_lb.Go.Action.{Error, Action, ◌>>◌, wrap, modify, >>_total, >>_state, wrap_total}
use container_lb.Go.Dict.{Dict, lookup, delete}
use container_lb.Go.Net.{Ip, equal}
use container_lb.Manager.{
  Manager, LinkApi, update_config, update_backend, clear_backend, detach_veth_xdp,
}
use container_lb.Manager.Links.{IsLinkable, attach_veth_xdp_total, detach_veth_xdp_total}
use container_lb.Manager.Maps.{update_backend_total, clear_backend_total, update_config_total}
use container_lb.Manager.Capacity.{entries, entries-clear_backend, entries-update_backend}
use container_lb.Pool.{
  Backend, BpfUpdater, Pool, finish, index_by_veth, mark_active, sync_maps, Progress, u32, on_bpf,
  clear_moved, attach_if_new, write_backend, write_backends, clear_stale, detach_old, sync,
}
use container_lb.Pool.Updater.{manager_updater, IsIpv4}
use container_lb.Pool.Rounds.{AreIpv4}
use container_lb.Pool.Writes.{attach_if_new_maps}

finish_total :
    {S : Type 0} (u : BpfUpdater S) (pool : Pool S) (new : List Backend)
    (r : Option Error × Progress S)
    → r.0 ≡ none
    → (finish u pool new r).0 ≡ none
finish_total u pool new (none, p) h = refl
finish_total u pool new (some e, p) h = absurd (cc h)

module _ {C B H P L W : Type 0} (k : Kernel C B H P) (api : LinkApi L W) (cpus : ℕ)
    (laws : IsKernel k cpus) where
  attach_if_new_total :
      IsLinkable api
      → (b : Backend) (p : Progress (Manager C B H P L W))
      → (attach_if_new (manager_updater k api) b p).0 ≡ none
  attach_if_new_total linkable b p =
      elim (Bool-cases (Option.get_or (lookup b.veth_name p.by_veth) false)) [
        | inl old ↦ rw old refl
        | inr new ↦ rw (new, attach_veth_xdp_total api linkable b.veth_name b.veth_idx p.bpf) refl
      ]

  entries-clear_moved :
      (i : ℕ) (ip : Ip) (o : Option Backend) (p : Progress (Manager C B H P L W))
      → ((clear_moved (manager_updater k api) i ip o p).0 ≡ none)
        × (entries k cpus laws (clear_moved (manager_updater k api) i ip o p).1.bpf
            ≤ entries k cpus laws p.bpf)
  entries-clear_moved i ip none p = (refl, omega arith)
  entries-clear_moved i ip (some old) p = elim (Bool-cases (equal old.ip ip)) [
    | inl same ↦ rw same (refl, omega arith)
    | inr other ↦ rw other (refl, entries-clear_backend k cpus laws (u32 i) old.ip p.bpf)
  ]

  write_backend_total :
      IsLinkable api
      → (old : List Backend) (i : ℕ) (b : Backend) (p : Progress (Manager C B H P L W)) → IsIpv4 b
      → i < max_backends
      → entries k cpus laws p.bpf < max_backends
      → ((write_backend (manager_updater k api) old i b p).0 ≡ none)
        × (entries k cpus laws (write_backend (manager_updater k api) old i b p).1.bpf
            ≤ entries k cpus laws p.bpf + 1)
  unfolding write_backend
  write_backend_total linkable old i b p (v4, e) inside room =
      let u = manager_updater k api in
      let clear = clear_moved u i b.ip (get_elem? old i) in
      let write =
        wrap (Error.write_backend i b.name)
          (on_bpf u (update_backend k (u32 i) b.ip b.port b.mac)) in
      let attach' = attach_if_new u b in
      let (hc, fewer) = entries-clear_moved i b.ip (get_elem? old i) p in
      let hu =
        update_backend_total k cpus laws (u32 i) b.ip v4 b.port b.mac (clear p).1.bpf e
          (omega arith) (inr (omega arith)) in
      let hw =
        wrap_total (Error.write_backend i b.name)
          (on_bpf u (update_backend k (u32 i) b.ip b.port b.mac)) (clear p).1 hu in
      let both = >>_total clear write p hc hw in
      let three =
        >>_total (clear >> write) attach' p both
          (attach_if_new_total linkable b ((clear >> write) p).1) in
      let maps_are =
        ap (λ (q : Progress (Manager C B H P L W)). q.bpf.maps)
          (>>_state (clear >> write >> attach') (mark_active u b) p three)
        ∙ ap (λ (q : Progress (Manager C B H P L W)). q.bpf.maps)
            (>>_state (clear >> write) attach' p both)
        ∙ attach_if_new_maps k api cpus laws p.bpf.maps.config_map p.bpf.maps.counters_map b
            ((clear >> write) p).1
        ∙ ap (λ (q : Progress (Manager C B H P L W)). q.bpf.maps) (>>_state clear write p hc) in
      let more = entries-update_backend k cpus laws (u32 i) b.ip b.port b.mac (clear p).1.bpf hu in
      (
        >>_total (clear >> write >> attach') (mark_active u b) p three refl,
        omega (
          arith,
          ap (λ (m : Maps C B H P). laws.ips.count m.backend_ips_map) maps_are,
          more,
          fewer,
        ),
      )

  write_backends_total :
      IsLinkable api
      → (old bs : List Backend) (i : ℕ) (p : Progress (Manager C B H P L W)) → AreIpv4 bs
      → i + length bs ≤ max_backends
      → entries k cpus laws p.bpf + length bs ≤ max_backends
      → (write_backends (manager_updater k api) old i bs p).0 ≡ none
  unfolding write_backends
  write_backends_total linkable old [] i p v inside room = refl
  write_backends_total linkable old (b ∷ bs) i p v inside room =
      let u = manager_updater k api in
      let (h, more) = write_backend_total linkable old i b p v.0 (omega arith) (omega arith) in
      >>_total (write_backend u old i b) (write_backends u old (i + 1) bs) p h (
        write_backends_total linkable old bs (i + 1) (write_backend u old i b p).1 v.1 (omega arith)
          (omega (arith, more)))

  clear_stale_total :
      (os : List Backend) (i : ℕ) (p : Progress (Manager C B H P L W))
      → i + length os ≤ max_backends
      → (clear_stale (manager_updater k api) i os p).0 ≡ none
  unfolding clear_stale
  clear_stale_total [] i p inside = refl
  clear_stale_total (o ∷ os) i p inside =
      let u = manager_updater k api in
      let first = wrap (Error.clear_backend i o.name) (on_bpf u (clear_backend k (u32 i) o.ip)) in
      let h =
        wrap_total (Error.clear_backend i o.name) (on_bpf u (clear_backend k (u32 i) o.ip)) p
          (clear_backend_total k cpus laws (u32 i) o.ip p.bpf (omega arith)) in
      >>_total first (clear_stale u (i + 1) os) p h
        (clear_stale_total os (i + 1) (first p).1 (omega arith))

  detach_old_total :
      IsLinkable api
      → (d : Dict Backend) (p : Progress (Manager C B H P L W))
      → (detach_old (manager_updater k api) d p).0 ≡ none
  unfolding detach_old
  detach_old_total linkable [] p = refl
  detach_old_total linkable ((name, old) ∷ rest) p =
      let u = manager_updater k api in
      let first = wrap (Error.detach_veth old.name name) (on_bpf u (detach_veth_xdp api name)) in
      let forget =
        modify
          (λ (q : Progress (Manager C B H P L W)). record q { by_veth = delete name q.by_veth }) in
      let h =
        wrap_total (Error.detach_veth old.name name) (on_bpf u (detach_veth_xdp api name)) p
          (detach_veth_xdp_total api linkable name p.bpf) in
      >>_total (first >> forget) (detach_old u rest) p (>>_total first forget p h refl)
        (detach_old_total linkable rest ((first >> forget) p).1)

  -- `Sync` returns no error where the old and the new list fit into `backend_map`, the new backends
  -- are IPv4, the reverse map has room for all of them, and the interfaces can be attached to and
  -- let go, in any order of the iteration.
  pub sync_total :
      IsLinkable api
      → (range_order : Dict Backend → Dict Backend) (new : List Backend)
        (pool : Pool (Manager C B H P L W))
      → AreIpv4 new
      → length pool.backends ≤ max_backends
      → length new ≤ max_backends
      → entries k cpus laws pool.bpf + length new ≤ max_backends
      → (sync (manager_updater k api) range_order new pool).0 ≡ none
  unfolding sync sync_maps
  sync_total linkable range_order new pool v fits_old fits_new room =
      let u = manager_updater k api in
      let start : Progress (Manager C B H P L W) = record {
        bpf = pool.bpf;
        by_veth = pool.by_veth;
        old_by_veth = index_by_veth pool.backends [];
      } in
      let write = write_backends u pool.backends 0 new in
      let clear = clear_stale u (length new) (drop (length new) pool.backends) in
      let detach : Action (Progress (Manager C B H P L W)) =
        λ p. detach_old u (range_order p.old_by_veth) p in
      let configure =
        wrap Error.update_config
          (on_bpf u (update_config k pool.vip pool.vport (u32 (length new)) pool.src_mac)) in
      let hw = write_backends_total linkable pool.backends new 0 start v (omega arith) room in
      let hc = >>_total write clear start hw (
        clear_stale_total (drop (length new) pool.backends) (length new) (write start).1
          (omega (arith, length-drop (length new) pool.backends))) in
      let hd = >>_total (write >> clear) detach start hc (
        detach_old_total linkable (range_order ((write >> clear) start).1.old_by_veth)
          ((write >> clear) start).1) in
      let q = ((write >> clear >> detach) start).1 in
      let (c, e, stored) =
        update_config_total k cpus laws pool.vip pool.vport (u32 (length new)) pool.src_mac q.bpf in
      let all = >>_total (write >> clear >> detach) configure start hd (rw e refl) in
      finish_total u pool new ((write >> clear >> detach >> configure) start) all
