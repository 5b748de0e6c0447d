-- ===== src/Pool/Detach.antt =====
-- The third loop of `Sync` in userspace/discovery/pool.go, and the maps.
use container_lb.Base.{◌≡◌, ◌∙◌, ap, refl, none, [], ◌∷◌}
use container_lb.Maps.{Kernel}
use container_lb.Go.Action.{Error, ◌>>◌, >>_ok, wrap, modify}
use container_lb.Go.Dict.{Dict, delete}
use container_lb.Manager.{Manager, LinkApi, detach_veth_xdp}
use container_lb.Manager.Links.{detach_veth_xdp_maps}
use container_lb.Pool.{Backend, Progress, on_bpf, detach_old}
use container_lb.Pool.Updater.{manager_updater}

module _ {C B H P L W : Type 0} (k : Kernel C B H P) (api : LinkApi L W) where
  pub detach_old_maps :
      (entries : Dict Backend) (p : Progress (Manager C B H P L W))
      → (detach_old (manager_updater k api) entries p).0 ≡ none
      → (detach_old (manager_updater k api) entries p).1.bpf.maps ≡ p.bpf.maps
  unfolding detach_old
  detach_old_maps [] p h = refl
  detach_old_maps ((name, old) ∷ rest) p h =
      let u = manager_updater k api in
      let first = wrap (Error.detach_veth old.name name) (on_bpf u (detach_veth_xdp api name)) in
      let forget =
        modify
          (λ (q : Progress (Manager C B H P L W)). record q { by_veth = delete name q.by_veth }) in
      let (hm, hr, e) = >>_ok (first >> forget) (detach_old u rest) p h in
      let (hf, hg, e') = >>_ok first forget p hm in
      ap (λ (s : Progress (Manager C B H P L W)). s.bpf.maps) e
      ∙ detach_old_maps rest ((first >> forget) p).1 hr
      ∙ ap (λ (s : Progress (Manager C B H P L W)). s.bpf.maps) e'
      ∙ detach_veth_xdp_maps api name p.bpf
