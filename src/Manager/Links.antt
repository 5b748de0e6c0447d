-- ===== src/Manager/Links.antt =====
-- `AttachVethXDP` and `DetachVethXDP` of userspace/bpf/loader.go.
use Prim.Native.String.{String}
use text.Mathlib.Text.{◌==◌ as str_eq}
use text.Mathlib.TextEquality.{eq_iff}
use container_lb.Base.{
  Option-cases, inl, inr, refl, arith, ℕ, ◌≡◌, Option, none, some, if◌then◌else◌,
}
use container_lb.Go.Action.{Error}
use container_lb.Go.Dict.{Dict, lookup, lookup-insert, lookup-delete}
use container_lb.Manager.{
  Program, Result, ok, err, LinkApi, Manager, attach, record_link, attach_new, attach_veth_xdp,
  forget_link, detach_old, detach_veth_xdp,
}

-- What a name leads to, written out as a case.
kept :
    {V : Type 0} (name j : String) (o : Option V) (d : Dict V)
    → lookup name d ≡ o
    → lookup j d ≡ (if str_eq name j then o else lookup j d)
kept name j o d e = ground (arith, eq_iff name j)

module _ {C B H P L W : Type 0} (api : LinkApi L W) where
  -- Attaching and detaching leave the maps alone, with an error or without.
  pub attach_veth_xdp_maps :
      (name : String) (ifindex : ℕ) (m : Manager C B H P L W)
      → (attach_veth_xdp api name ifindex m).1.maps ≡ m.maps
  unfolding attach_veth_xdp
  attach_veth_xdp_maps name ifindex m = found (lookup name m.veth_links)
    where
      tried : (r : Result L × W) → (record_link api name r m).1.maps ≡ m.maps
      tried (ok l, w) = refl
      tried (err e, w) = refl

      found : (o : Option L) → (attach_new api name ifindex o m).1.maps ≡ m.maps
      found (some l) = refl
      found none = tried (attach api Program.snat ifindex m.world)

  pub detach_veth_xdp_maps :
      (name : String) (m : Manager C B H P L W) → (detach_veth_xdp api name m).1.maps ≡ m.maps
  unfolding detach_veth_xdp
  detach_veth_xdp_maps name m = found (lookup name m.veth_links)
    where
      closed : (r : Option Error × W) → (forget_link api name r m).1.maps ≡ m.maps
      closed (none, w) = refl
      closed (some e, w) = refl

      found : (o : Option L) → (detach_old api name o m).1.maps ≡ m.maps
      found none = refl
      found (some l) = closed (api.close l m.world)

  -- Without an error, exactly the named interface has gained its program.
  pub attach_veth_xdp_ok :
      (name : String) (ifindex : ℕ) (m : Manager C B H P L W)
      → (attach_veth_xdp api name ifindex m).0 ≡ none
      → (l : L) × ((j : String)
          → lookup j (attach_veth_xdp api name ifindex m).1.veth_links
            ≡ (if str_eq name j then some l else lookup j m.veth_links))
  unfolding attach_veth_xdp
  attach_veth_xdp_ok name ifindex m h = found (lookup name m.veth_links) refl h
    where
      tried :
          (r : Result L × W)
          → (record_link api name r m).0 ≡ none
          → (l : L) × ((j : String)
              → lookup j (record_link api name r m).1.veth_links
                ≡ (if str_eq name j then some l else lookup j m.veth_links))
      tried (ok l, w) h = (l, λ j. lookup-insert name j l m.veth_links)
      tried (err e, w) h = absurd (cc h)

      found :
          (o : Option L)
          → lookup name m.veth_links ≡ o
          → (attach_new api name ifindex o m).0 ≡ none
          → (l : L) × ((j : String)
              → lookup j (attach_new api name ifindex o m).1.veth_links
                ≡ (if str_eq name j then some l else lookup j m.veth_links))
      found (some l) e h = (l, λ j. kept name j (some l) m.veth_links e)
      found none e h = tried (attach api Program.snat ifindex m.world) h

  -- Without an error, exactly the named interface has lost its program.
  pub detach_veth_xdp_ok :
      (name j : String) (m : Manager C B H P L W)
      → (detach_veth_xdp api name m).0 ≡ none
      → lookup j (detach_veth_xdp api name m).1.veth_links
        ≡ (if str_eq name j then none else lookup j m.veth_links)
  unfolding detach_veth_xdp
  detach_veth_xdp_ok name j m h = found (lookup name m.veth_links) refl h
    where
      closed :
          (r : Option Error × W)
          → (forget_link api name r m).0 ≡ none
          → lookup j (forget_link api name r m).1.veth_links
            ≡ (if str_eq name j then none else lookup j m.veth_links)
      closed (none, w) h = lookup-delete name j m.veth_links
      closed (some e, w) h = absurd (cc h)

      found :
          (o : Option L)
          → lookup name m.veth_links ≡ o
          → (detach_old api name o m).0 ≡ none
          → lookup j (detach_old api name o m).1.veth_links
            ≡ (if str_eq name j then none else lookup j m.veth_links)
      found none e h = kept name j none m.veth_links e
      found (some l) e h = closed (api.close l m.world) h

module _ {C B H P L W : Type 0} (api : LinkApi L W) where
  -- With an error, no interface has gained or lost its program.
  pub attach_veth_xdp_failed :
      (name : String) (ifindex : ℕ) (m : Manager C B H P L W) (e : Error)
      → (attach_veth_xdp api name ifindex m).0 ≡ some e
      → (attach_veth_xdp api name ifindex m).1.veth_links ≡ m.veth_links
  unfolding attach_veth_xdp
  attach_veth_xdp_failed name ifindex m e h = found (lookup name m.veth_links) h
    where
      tried :
          (r : Result L × W)
          → (record_link api name r m).0 ≡ some e
          → (record_link api name r m).1.veth_links ≡ m.veth_links
      tried (ok l, w) h = absurd (cc h)
      tried (err f, w) h = refl

      found :
          (o : Option L)
          → (attach_new api name ifindex o m).0 ≡ some e
          → (attach_new api name ifindex o m).1.veth_links ≡ m.veth_links
      found (some l) h = refl
      found none h = tried (attach api Program.snat ifindex m.world) h

  pub detach_veth_xdp_failed :
      (name : String) (m : Manager C B H P L W) (e : Error)
      → (detach_veth_xdp api name m).0 ≡ some e
      → (detach_veth_xdp api name m).1.veth_links ≡ m.veth_links
  unfolding detach_veth_xdp
  detach_veth_xdp_failed name m e h = found (lookup name m.veth_links) h
    where
      closed :
          (r : Option Error × W)
          → (forget_link api name r m).0 ≡ some e
          → (forget_link api name r m).1.veth_links ≡ m.veth_links
      closed (none, w) h = absurd (cc h)
      closed (some f, w) h = refl

      found :
          (o : Option L)
          → (detach_old api name o m).0 ≡ some e
          → (detach_old api name o m).1.veth_links ≡ m.veth_links
      found none h = refl
      found (some l) h = closed (api.close l m.world) h

-- The interfaces of the backends can be attached to, and let go.
pub record IsLinkable {L W : Type 0} (api : LinkApi L W) : Type 0 where
  pub attaches :
      (ifindex : ℕ) (w : W) → (l : L) × (w' : W) × (attach api Program.snat ifindex w ≡ (ok l, w'))
  pub closes : (l : L) (w : W) → (api.close l w).0 ≡ none

module _ {C B H P L W : Type 0} (api : LinkApi L W) where
  pub attach_veth_xdp_total :
      IsLinkable api
      → (name : String) (ifindex : ℕ) (m : Manager C B H P L W)
      → (attach_veth_xdp api name ifindex m).0 ≡ none
  unfolding attach_veth_xdp
  attach_veth_xdp_total linkable name ifindex m = elim (Option-cases (lookup name m.veth_links)) [
    | inl missing ↦ let (l, w, e) = linkable.attaches ifindex m.world in rw (missing, e) refl
    | inr (l, found) ↦ rw found refl
  ]

  pub detach_veth_xdp_total :
      IsLinkable api
      → (name : String) (m : Manager C B H P L W) → (detach_veth_xdp api name m).0 ≡ none
  unfolding detach_veth_xdp
  detach_veth_xdp_total linkable name m = elim (Option-cases (lookup name m.veth_links)) [
    | inl missing ↦ rw missing refl
    | inr (l, found) ↦ rw (found, linkable.closes l m.world) refl
  ]
