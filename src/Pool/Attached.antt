-- ===== src/Pool/Attached.antt =====
-- The interfaces that `Sync` of userspace/discovery/pool.go attaches `xdp_veth_snat` to.
pub mod Loops
pub mod Sync
pub mod Origin
use mathlib.Core.Option
use Prim.Native.String.{String}
use text.Mathlib.Text.{◌==◌ as str_eq}
use text.Mathlib.TextEquality.{eq_iff}
use container_lb.Base.{
  ℕ, suc, zero, ◌+◌, ◌≡◌, ◌≢◌, ◌∙◌, ap, sym, refl, inl, inr, Bool, true, false, Bool-cases,
  Option-cases, Option, none, some, List, [], ◌∷◌, if◌then◌else◌, arith,
}
use container_lb.Base.Lists.{length, get_elem?, drop}
use container_lb.Maps.{Kernel}
use container_lb.Maps.Laws.{IsKernel}
use container_lb.Go.Action.{Error, Action, after, ◌>>◌, >>_ok, >>_invariant, wrap, modify}
use container_lb.Go.Dict.{Dict, lookup, insert, delete, lookup-insert, lookup-delete}
use container_lb.Go.Net.{Ip, HardwareAddr, equal}
use container_lb.Manager.{
  Manager, LinkApi, update_backend, clear_backend, update_config, attach_veth_xdp, detach_veth_xdp,
}
use container_lb.Manager.Maps.{update_config_total}
use container_lb.Manager.Links.{
  attach_veth_xdp_ok, attach_veth_xdp_failed, detach_veth_xdp_ok, detach_veth_xdp_failed,
}
use container_lb.Manager.Settings.{update_backend_kept, clear_backend_kept}
use container_lb.Pool.{
  Backend, Pool, Progress, u32, on_bpf, is_attached, clear_moved, attach_if_new, mark_active,
  finish, index_by_veth, write_backend, write_backends, clear_stale, detach_old, sync_maps, sync,
}
use container_lb.Pool.Updater.{manager_updater}

module _ {C B H P L W : Type 0} (k : Kernel C B H P) (api : LinkApi L W) where
  -- What the pool takes for attached has a link.
  abbrev pub AreLinked : Dict Bool → Dict L → Type 0
  AreLinked by_veth links =
      (j : String) → is_attached (manager_updater k api) j by_veth ≡ true → lookup j links ≢ none

  abbrev Linked : Progress (Manager C B H P L W) → Type 0
  Linked p = AreLinked p.by_veth p.bpf.veth_links

  -- The interface is attached, and the third loop will not let it go.
  abbrev Active : String → Progress (Manager C B H P L W) → Type 0
  Active j p =
      (is_attached (manager_updater k api) j p.by_veth ≡ true) × (lookup j p.old_by_veth ≡ none)

  abbrev attach_step : (b : Backend) → Action (Progress (Manager C B H P L W))
  attach_step b =
      wrap (Error.attach_veth b.name b.veth_name)
        (on_bpf (manager_updater k api) (attach_veth_xdp api b.veth_name b.veth_idx))
      >> modify (λ q. record q { by_veth = insert b.veth_name true q.by_veth })

  attach_step-Linked :
      (b : Backend) (p : Progress (Manager C B H P L W)) → Linked p → Linked (attach_step b p).1
  attach_step-Linked b p h = done (attach_veth_xdp api b.veth_name b.veth_idx p.bpf).0 refl
    where
      done :
          (o : Option Error)
          → (attach_veth_xdp api b.veth_name b.veth_idx p.bpf).0 ≡ o
          → Linked
              (after
                (Option.map (Error.attach_veth b.name b.veth_name) o)
                (modify (λ q. record q { by_veth = insert b.veth_name true q.by_veth }))
                (record p { bpf = (attach_veth_xdp api b.veth_name b.veth_idx p.bpf).1 })).1
      done (some e) failed j known =
          rw (attach_veth_xdp_failed api b.veth_name b.veth_idx p.bpf e failed) (h j known)
      done none fine j known =
          let (l, links) = attach_veth_xdp_ok api b.veth_name b.veth_idx p.bpf fine in
          elim (Bool-cases (str_eq b.veth_name j)) [
            | inl same ↦ λ e. absurd (cc (rw same at (links j), e))
            | inr other ↦ λ e.
                h j (rw (lookup-insert b.veth_name j true p.by_veth, other) at known)
                  (sym (rw other at (links j)) ∙ e)
          ]

  attach_step-Active :
      (b : Backend) (j : String) (p : Progress (Manager C B H P L W))
      → Active j p
      → Active j (attach_step b p).1
  attach_step-Active b j p h = done (attach_veth_xdp api b.veth_name b.veth_idx p.bpf).0
    where
      done :
          (o : Option Error)
          → Active j
              (after
                (Option.map (Error.attach_veth b.name b.veth_name) o)
                (modify (λ q. record q { by_veth = insert b.veth_name true q.by_veth }))
                (record p { bpf = (attach_veth_xdp api b.veth_name b.veth_idx p.bpf).1 })).1
      done (some e) = h
      done none = (
        rw (lookup-insert b.veth_name j true p.by_veth) (elim (Bool-cases (str_eq b.veth_name j)) [
          | inl same ↦ rw same refl
          | inr other ↦ rw other h.0
        ]),
        h.1,
      )

  attach_if_new-Linked :
      (b : Backend) (p : Progress (Manager C B H P L W))
      → Linked p
      → Linked (attach_if_new (manager_updater k api) b p).1
  attach_if_new-Linked b p h =
      elim (Bool-cases (is_attached (manager_updater k api) b.veth_name p.by_veth)) [
        | inl known ↦ rw known h
        | inr new ↦ rw new (attach_step-Linked b p h)
      ]

  attach_if_new-Active :
      (b : Backend) (j : String) (p : Progress (Manager C B H P L W))
      → Active j p
      → Active j (attach_if_new (manager_updater k api) b p).1
  attach_if_new-Active b j p h =
      elim (Bool-cases (is_attached (manager_updater k api) b.veth_name p.by_veth)) [
        | inl known ↦ rw known h
        | inr new ↦ rw new (attach_step-Active b j p h)
      ]

  -- Without an error the interface is taken for attached.
  attach_if_new_ok :
      (b : Backend) (p : Progress (Manager C B H P L W))
      → (attach_if_new (manager_updater k api) b p).0 ≡ none
      → is_attached
          (manager_updater k api)
          b.veth_name
          (attach_if_new (manager_updater k api) b p).1.by_veth
        ≡ true
  attach_if_new_ok b p h =
      elim (Bool-cases (is_attached (manager_updater k api) b.veth_name p.by_veth)) [
        | inl known ↦ rw known known
        | inr new ↦ rw new (done (attach_veth_xdp api b.veth_name b.veth_idx p.bpf).0 (rw new at h))
      ]
    where
      done :
          (o : Option Error)
          → (after
              (Option.map (Error.attach_veth b.name b.veth_name) o)
              (modify (λ q. record q { by_veth = insert b.veth_name true q.by_veth }))
              (record p { bpf = (attach_veth_xdp api b.veth_name b.veth_idx p.bpf).1 })).0
            ≡ none
          → is_attached
              (manager_updater k api)
              b.veth_name
              (after
                (Option.map (Error.attach_veth b.name b.veth_name) o)
                (modify (λ q. record q { by_veth = insert b.veth_name true q.by_veth }))
                (record p { bpf = (attach_veth_xdp api b.veth_name b.veth_idx p.bpf).1 })).1.by_veth
            ≡ true
      done (some e) h = absurd (cc h)
      done none h =
          rw
            (
              lookup-insert b.veth_name b.veth_name true p.by_veth,
              (eq_iff b.veth_name b.veth_name).1 refl,
            )
            refl

  abbrev links_of : C × P × Dict L × W → Dict L
  links_of (c, p, l, w) = l

  -- The calls on the maps leave the links alone.
  pub update_backend_links :
      (index : ℕ) (ip : Ip) (port : ℕ) (mac : HardwareAddr) (m : Manager C B H P L W)
      → (update_backend k index ip port mac m).1.veth_links ≡ m.veth_links
  update_backend_links index ip port mac m = ap links_of (update_backend_kept k index ip port mac m)

  pub clear_backend_links :
      (index : ℕ) (ip : Ip) (m : Manager C B H P L W)
      → (clear_backend k index ip m).1.veth_links ≡ m.veth_links
  clear_backend_links index ip m = ap links_of (clear_backend_kept k index ip m)

  -- What a step of the loops over the maps does to the attachments: nothing.
  abbrev IsQuiet : Action (Progress (Manager C B H P L W)) → Type 0
  IsQuiet a =
      (p : Progress (Manager C B H P L W))
      → ((a p).1.by_veth ≡ p.by_veth)
        × ((a p).1.old_by_veth ≡ p.old_by_veth)
        × ((a p).1.bpf.veth_links ≡ p.bpf.veth_links)

  clear_moved-IsQuiet :
      (i : ℕ) (ip : Ip) (o : Option Backend) → IsQuiet (clear_moved (manager_updater k api) i ip o)
  clear_moved-IsQuiet i ip none p = (refl, refl, refl)
  clear_moved-IsQuiet i ip (some old) p = elim (Bool-cases (equal old.ip ip)) [
    | inl same ↦ rw same (refl, refl, refl)
    | inr moved ↦ rw moved (refl, refl, clear_backend_links (u32 i) old.ip p.bpf)
  ]

  IsQuiet-Linked :
      (a : Action (Progress (Manager C B H P L W)))
      → IsQuiet a
      → (p : Progress (Manager C B H P L W)) → Linked p
      → Linked (a p).1
  IsQuiet-Linked a q p h j known =
      let (attached, old, links) = q p in rw links (h j (rw attached at known))

  IsQuiet-Active :
      (a : Action (Progress (Manager C B H P L W)))
      → IsQuiet a
      → (j : String) (p : Progress (Manager C B H P L W)) → Active j p
      → Active j (a p).1
  IsQuiet-Active a q j p h = let (attached, old, links) = q p in (rw attached h.0, rw old h.1)

  abbrev put : ℕ → Backend → Action (Progress (Manager C B H P L W))
  put i b =
      wrap (Error.write_backend i b.name)
        (on_bpf (manager_updater k api) (update_backend k (u32 i) b.ip b.port b.mac))

  put-IsQuiet : (i : ℕ) (b : Backend) → IsQuiet (put i b)
  put-IsQuiet i b p = (refl, refl, update_backend_links (u32 i) b.ip b.port b.mac p.bpf)

  abbrev clear_one : ℕ → Backend → Action (Progress (Manager C B H P L W))
  clear_one i o =
      wrap (Error.clear_backend i o.name)
        (on_bpf (manager_updater k api) (clear_backend k (u32 i) o.ip))

  clear_one-IsQuiet : (i : ℕ) (o : Backend) → IsQuiet (clear_one i o)
  clear_one-IsQuiet i o p = (refl, refl, clear_backend_links (u32 i) o.ip p.bpf)

  mark_active-Active :
      (b : Backend) (j : String) (p : Progress (Manager C B H P L W))
      → Active j p
      → Active j (mark_active (manager_updater k api) b p).1
  mark_active-Active b j p h = (
    h.0,
    lookup-delete b.veth_name j p.old_by_veth ∙ elim (Bool-cases (str_eq b.veth_name j)) [
      | inl same ↦ rw same refl
      | inr other ↦ rw other h.1
    ],
  )
