-- ===== src/Manager/Closing.antt =====
-- What `AttachVethXDP`, `DetachVethXDP` and `Close` of userspace/bpf/loader.go open and close, at any
-- moment between two calls of a manager.
use Prim.Native.String.{String}
use text.Mathlib.Text.{◌==◌ as str_eq}
use text.Mathlib.TextEquality.{eq_iff}
use container_lb.Base.{
  ℕ, ◌≡◌, ◌≢◌, ◌⊎◌, inl, inr, ◌∙◌, ap, sym, refl, Bool-cases, Option, none, some,
}
use mathlib.Core.Option.{some-injective}
use container_lb.Maps.{Kernel}
use container_lb.Go.Action.{Error}
use container_lb.Go.Dict.{Dict, lookup, insert, delete, lookup-insert, lookup-delete}
use container_lb.Go.Net.{Ip, HardwareAddr}
use container_lb.Go.Resources.{Opens, Closes, Opens-after}
use container_lb.Manager.{
  Manager, Program, XdpFlags, LinkApi, Result, ok, err, update_backend, clear_backend,
  update_config, attach, attach_driver, attach_generic, attach_new, record_link, attach_veth_xdp,
  forget_link, detach_old, detach_veth_xdp,
}
use container_lb.Manager.Settings.{update_backend_kept, clear_backend_kept, update_config_kept}
use container_lb.Manager.Lifecycle.{Loader}
use container_lb.Manager.Balance.{IsLawful}

-- The states of a manager after any calls, with any arguments, and counted frames. A `Close` that
-- comes in the middle of a `Sync` meets one of them: these are the calls of `Sync`, and attaching,
-- detaching and `Close` take the same mutex.
pub data Called {C B H P L W : Type 0} (k : Kernel C B H P) (api : LinkApi L W)
    (m : Manager C B H P L W) : Manager C B H P L W → Type 0 where
  here : Called k api m m
  updated :
      {n : Manager C B H P L W} (index : ℕ) (ip : Ip) (port : ℕ) (mac : HardwareAddr)
      → Called k api m n
      → Called k api m (update_backend k index ip port mac n).1
  cleared :
      {n : Manager C B H P L W} (index : ℕ) (ip : Ip)
      → Called k api m n
      → Called k api m (clear_backend k index ip n).1
  configured :
      {n : Manager C B H P L W} (vip : Ip) (vport count : ℕ) (src : HardwareAddr)
      → Called k api m n
      → Called k api m (update_config k vip vport count src n).1
  attached :
      {n : Manager C B H P L W} (name : String) (ifindex : ℕ)
      → Called k api m n
      → Called k api m (attach_veth_xdp api name ifindex n).1
  detached :
      {n : Manager C B H P L W} (name : String)
      → Called k api m n
      → Called k api m (detach_veth_xdp api name n).1
  counted :
      {n : Manager C B H P L W} (counters : P)
      → Called k api m n
      → Called k api m (record n { maps = record (n.maps) { counters_map = counters } })

-- What a manager answers for: its objects, the link to the bridge and those of `vethLinks`.
pub data IsOwned {L O : Type 0} (o : O) (xdp : L) (links : Dict L) : L ⊎ O → Type 0 where
  objects : IsOwned o xdp links (inr o)
  bridge : IsOwned o xdp links (inl xdp)
  veth : (name : String) (l : L) → lookup name links ≡ some l → IsOwned o xdp links (inl l)

module _ {C B H P L O W : Type 0} (k : Kernel C B H P) (loader : Loader C B H P O W)
    (api : LinkApi L W) (IsOpen : W → L ⊎ O → Type 0) (laws : IsLawful loader api IsOpen) where
  attach-Opens :
      (program : Program) (ifindex : ℕ) (w : W)
      → Opens IsOpen inl (attach api program ifindex w).0 w (attach api program ifindex w).1
  unfolding attach
  attach-Opens program ifindex w =
      driver (api.attach_xdp program ifindex XdpFlags.driver_mode w)
        (laws.attach_xdp program ifindex XdpFlags.driver_mode w)
    where
      generic :
          (e : Error) (r : Result L × W)
          → Opens IsOpen inl r.0 w r.1
          → Opens IsOpen inl (attach_generic api e r).0 w (attach_generic api e r).1
      generic e (ok l, u) h = h
      generic e (err f, u) h = h

      driver :
          (r : Result L × W)
          → Opens IsOpen inl r.0 w r.1
          → Opens IsOpen inl
              (attach_driver api program ifindex r).0
              w
              (attach_driver api program ifindex r).1
      driver (ok l, u) h = h
      driver (err e, u) h =
          let r = api.attach_xdp program ifindex XdpFlags.generic_mode u in
          generic e r (
            Opens-after IsOpen inl r.0 w u r.1 h
              (laws.attach_xdp program ifindex XdpFlags.generic_mode u))

  module _ (w : W) (o : O) (xdp : L) where
    -- Whatever is open now was open in `w`, or the manager answers for it.
    pub record IsTracked (m : Manager C B H P L W) : Type 0 where
      pub tracked : (x : L ⊎ O) → IsOpen m.world x → IsOpen w x ⊎ IsOwned o xdp m.veth_links x

    IsOwned-insert :
        (name : String) (l : L) (links : Dict L) (x : L ⊎ O)
        → lookup name links ≡ none
        → IsOwned o xdp links x
        → IsOwned o xdp (insert name l links) x
    IsOwned-insert name l links x new objects = objects
    IsOwned-insert name l links x new bridge = bridge
    IsOwned-insert name l links x new (veth j l' at) = elim (Bool-cases (str_eq name j)) [
      | inl same ↦ absurd (cc ((eq_iff name j).0 same, new, at))
      | inr other ↦ veth j l' (lookup-insert name j l links ∙ rw other at)
    ]

    IsOwned-delete :
        (name : String) (l : L) (links : Dict L) (x : L ⊎ O)
        → lookup name links ≡ some l
        → x ≢ inl l
        → IsOwned o xdp links x
        → IsOwned o xdp (delete name links) x
    IsOwned-delete name l links x old alive objects = objects
    IsOwned-delete name l links x old alive bridge = bridge
    IsOwned-delete name l links x old alive (veth j l' at) = elim (Bool-cases (str_eq name j)) [
      | inl same ↦ absurd (
          alive (
            ap inl (
              some-injective l' l
                (sym at ∙ ap (λ n. lookup n links) (sym ((eq_iff name j).0 same)) ∙ old))))
      | inr other ↦ veth j l' (lookup-delete name j links ∙ rw other at)
    ]

    attach_veth_xdp-IsTracked :
        (name : String) (ifindex : ℕ) (m : Manager C B H P L W)
        → IsTracked m
        → IsTracked (attach_veth_xdp api name ifindex m).1
    unfolding attach_veth_xdp
    attach_veth_xdp-IsTracked name ifindex m b = found (lookup name m.veth_links) refl
      where
        tried :
            (r : Result L × W)
            → lookup name m.veth_links ≡ none
            → Opens IsOpen inl r.0 m.world r.1
            → IsTracked (record_link api name r m).1
        tried (ok l, u) new h = record {
          tracked = λ x up. elim (h.only x up) [
            | inl e ↦ inr (
                rw e (
                  veth name l
                    (lookup-insert name name l m.veth_links ∙ rw ((eq_iff name name).1 refl) refl)))
            | inr before ↦ elim (b.tracked x before) [
              | inl old ↦ inl old
              | inr mine ↦ inr (IsOwned-insert name l m.veth_links x new mine)
            ]
          ];
        }
        tried (err e, u) new h = record { tracked = λ x up. b.tracked x (h.only x up) }

        found :
            (s : Option L)
            → lookup name m.veth_links ≡ s
            → IsTracked (attach_new api name ifindex s m).1
        found (some l) e = b
        found none e =
            tried (attach api Program.snat ifindex m.world) e
              (attach-Opens Program.snat ifindex m.world)

    detach_veth_xdp-IsTracked :
        (name : String) (m : Manager C B H P L W)
        → IsTracked m
        → IsTracked (detach_veth_xdp api name m).1
    unfolding detach_veth_xdp
    detach_veth_xdp-IsTracked name m b = found (lookup name m.veth_links) refl
      where
        tried :
            (l : L) (r : Option Error × W)
            → lookup name m.veth_links ≡ some l
            → Closes IsOpen r.0 (inl l) m.world r.1
            → IsTracked (forget_link api name r m).1
        tried l (none, u) old h = record {
          tracked = λ x up. elim (b.tracked x (h.only x up)) [
            | inl before ↦ inl before
            | inr mine ↦
                inr (IsOwned-delete name l m.veth_links x old (λ e. h.gone (rw e at up)) mine)
          ];
        }
        tried l (some e, u) old h = record { tracked = λ x up. b.tracked x (h.only x up) }

        found :
            (s : Option L) → lookup name m.veth_links ≡ s → IsTracked (detach_old api name s m).1
        found none e = b
        found (some l) e = tried l (api.close l m.world) e (laws.close l m.world)

    moved :
        (m n : Manager C B H P L W)
        → n.veth_links ≡ m.veth_links
        → n.world ≡ m.world
        → IsTracked m
        → IsTracked n
    moved m n links world b = record { tracked = λ x up. rw links (b.tracked x (rw world at up)) }

    links_of : C × P × Dict L × W → Dict L
    links_of (c, p, l, u) = l

    world_of : C × P × Dict L × W → W
    world_of (c, p, l, u) = u

    -- All calls keep it so, with an error or without.
    pub Called-IsTracked :
        {m n : Manager C B H P L W} → Called k api m n → IsTracked m → IsTracked n
    unfolding links_of world_of update_config
    Called-IsTracked here b = b
    Called-IsTracked (updated {n = n} index ip port mac r) b =
        let e = update_backend_kept k index ip port mac n in
        moved n _ (ap links_of e) (ap world_of e) (Called-IsTracked r b)
    Called-IsTracked (cleared {n = n} index ip r) b =
        let e = clear_backend_kept k index ip n in
        moved n _ (ap links_of e) (ap world_of e) (Called-IsTracked r b)
    Called-IsTracked (configured {n = n} vip vport count src r) b =
        let e = update_config_kept k vip vport count src n in
        moved n _ (ap (λ x. x.0) e) (ap (λ x. x.1) e) (Called-IsTracked r b)
    Called-IsTracked (attached {n = n} name ifindex r) b =
        attach_veth_xdp-IsTracked name ifindex n (Called-IsTracked r b)
    Called-IsTracked (detached {n = n} name r) b =
        detach_veth_xdp-IsTracked name n (Called-IsTracked r b)
    Called-IsTracked (counted {n = n} counters r) b = moved n _ refl refl (Called-IsTracked r b)
