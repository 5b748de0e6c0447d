-- ===== src/Manager/Origin.antt =====
-- Where the links that the manager of userspace/bpf/loader.go keeps under the names of interfaces
-- come from.
use Prim.Native.String.{String}
use text.Mathlib.Text.{◌==◌ as str_eq}
use text.Mathlib.TextEquality.{eq_iff}
use mathlib.Core.Option.{some-injective}
use container_lb.Base.{ℕ, ◌≡◌, ◌∙◌, ap, refl, inl, inr, Bool-cases, Option, none, some}
use container_lb.Go.Action.{Error}
use container_lb.Go.Dict.{lookup, lookup-insert, lookup-delete}
use container_lb.Manager.{
  Manager, Program, XdpFlags, LinkApi, Result, ok, err, attach_driver, attach, record_link,
  attach_new, attach_veth_xdp, forget_link, detach_old, detach_veth_xdp,
}

-- The name has one index.
abbrev pub Named : (String → ℕ) → String → ℕ → Type 0
Named name_index name ifindex = ifindex ≡ name_index name

module _ {L W : Type 0} (api : LinkApi L W) where
  -- A link of the program for the veths, at the interface `ifindex`.
  pub record IsAttachment (ifindex : ℕ) (l : L) : Type 0 where
    pub flags : XdpFlags
    pub before : W
    pub made : (api.attach_xdp Program.snat ifindex flags before).0 ≡ ok l

  abbrev link_of : Result L × W → L → L
  link_of (ok l, w) other = l
  link_of (err e, w) other = other

  attach-IsAttachment :
      (ifindex : ℕ) (w w' : W) (l : L)
      → attach api Program.snat ifindex w ≡ (ok l, w')
      → IsAttachment ifindex l
  unfolding attach
  attach-IsAttachment ifindex w w' l h =
      driver (api.attach_xdp Program.snat ifindex XdpFlags.driver_mode w) refl h
    where
      generic :
          (e : Error) (u : W) (r : Result L × W)
          → (api.attach_xdp Program.snat ifindex XdpFlags.generic_mode u).0 ≡ r.0
          → (attach_driver api Program.snat ifindex (err e, u) ≡ (ok l, w'))
          → api.attach_xdp Program.snat ifindex XdpFlags.generic_mode u ≡ r
          → IsAttachment ifindex l
      generic e u (ok x, v) made h same = record {
        flags = XdpFlags.generic_mode;
        before = u;
        made = made ∙ ap ok (ap (λ (r : Result L × W). link_of r l) (rw same at h));
      }
      generic e u (err f, v) made h same =
          absurd (cc (ap (λ (r : Result L × W). r.0) (rw same at h)))

      driver :
          (r : Result L × W)
          → (api.attach_xdp Program.snat ifindex XdpFlags.driver_mode w).0 ≡ r.0
          → attach_driver api Program.snat ifindex r ≡ (ok l, w')
          → IsAttachment ifindex l
      driver (ok x, v) made h = record {
        flags = XdpFlags.driver_mode;
        before = w;
        made = made ∙ ap ok (ap (λ (r : Result L × W). link_of r l) h);
      }
      driver (err e, u) made h =
          let r = api.attach_xdp Program.snat ifindex XdpFlags.generic_mode u in
          generic e u r refl h refl

module _ {C B H P L W : Type 0} (api : LinkApi L W) (name_index : String → ℕ) where
  -- A link that is kept under a name is one at the interface of that name.
  pub record AreSnatLinks (m : Manager C B H P L W) : Type 0 where
    pub each :
        (j : String) (l : L) → lookup j m.veth_links ≡ some l → IsAttachment api (name_index j) l

  pub attach_veth_xdp-AreSnatLinks :
      (name : String) (ifindex : ℕ) (m : Manager C B H P L W)
      → Named name_index name ifindex
      → AreSnatLinks m
      → AreSnatLinks (attach_veth_xdp api name ifindex m).1
  unfolding attach_veth_xdp
  attach_veth_xdp-AreSnatLinks name ifindex m named s = found (lookup name m.veth_links)
    where
      tried :
          (r : Result L × W)
          → attach api Program.snat ifindex m.world ≡ r
          → AreSnatLinks (record_link api name r m).1
      tried (ok x, w) made = record {
        each = λ j l known. elim (Bool-cases (str_eq name j)) [
          | inl same ↦
              rw
                (
                  ← (eq_iff name j).0 same,
                  ← named,
                  ← some-injective x l (rw (lookup-insert name j x m.veth_links, same) at known),
                )
                (attach-IsAttachment api ifindex m.world w x made)
          | inr other ↦ s.each j l (rw (lookup-insert name j x m.veth_links, other) at known)
        ];
      }
      tried (err e, w) made = record { each = s.each }

      found : (o : Option L) → AreSnatLinks (attach_new api name ifindex o m).1
      found (some l) = s
      found none = tried (attach api Program.snat ifindex m.world) refl

  pub detach_veth_xdp-AreSnatLinks :
      (name : String) (m : Manager C B H P L W)
      → AreSnatLinks m
      → AreSnatLinks (detach_veth_xdp api name m).1
  unfolding detach_veth_xdp
  detach_veth_xdp-AreSnatLinks name m s = found (lookup name m.veth_links)
    where
      closed : (r : Option Error × W) → AreSnatLinks (forget_link api name r m).1
      closed (none, w) = record {
        each = λ j l known. elim (Bool-cases (str_eq name j)) [
          | inl same ↦ absurd (cc (rw (lookup-delete name j m.veth_links, same) at known))
          | inr other ↦ s.each j l (rw (lookup-delete name j m.veth_links, other) at known)
        ];
      }
      closed (some e, w) = record { each = s.each }

      found : (o : Option L) → AreSnatLinks (detach_old api name o m).1
      found none = s
      found (some l) = closed (api.close l m.world)
