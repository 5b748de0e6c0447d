-- ===== src/Pool/Preserves.antt =====
-- What every call of the interface `BPFUpdater` preserves, `Sync` of userspace/discovery/pool.go
-- preserves, with an error or without.
use Prim.Native.String.{String}
use mathlib.Core.Option.{some-injective}
use container_lb.Base.{
  ℕ, zero, suc, ◌≡◌, ◌+◌, inl, inr, true, Bool-cases, Option, none, some, List, [], ◌∷◌,
}
use container_lb.Base.Lists.{length, get_elem?, drop}
use container_lb.Go.Action.{Error, Action, ◌>>◌, >>_invariant, wrap, modify}
use container_lb.Go.Dict.{Dict, insert, delete}
use container_lb.Go.Net.{Ip, HardwareAddr, equal}
use container_lb.Pool.{
  Backend, BpfUpdater, Pool, Progress, u32, on_bpf, is_attached, clear_moved, attach_if_new,
  mark_active, finish, index_by_veth, write_backend, write_backends, clear_stale, detach_old,
  sync_maps, sync,
}

-- The calls of the three loops preserve `P`, where only interfaces that are `Given` by name and
-- index are attached to.
pub record IsInvariant {S : Type 0} (u : BpfUpdater S) (Given : String → ℕ → Type 0)
    (P : S → Type 0) : Type 0 where
  pub update_backend :
      (index : ℕ) (ip : Ip) (port : ℕ) (mac : HardwareAddr) (s : S)
      → P s
      → P (u.update_backend index ip port mac s).1
  pub clear_backend : (index : ℕ) (ip : Ip) (s : S) → P s → P (u.clear_backend index ip s).1
  pub attach_veth_xdp :
      (name : String) (ifindex : ℕ) (s : S)
      → Given name ifindex
      → P s
      → P (u.attach_veth_xdp name ifindex s).1
  pub detach_veth_xdp : (name : String) (s : S) → P s → P (u.detach_veth_xdp name s).1

-- The interface of every backend of a list.
abbrev pub AllGiven : (String → ℕ → Type 0) → List Backend → Type 0
AllGiven Given [] = Unit {0}
AllGiven Given (b ∷ bs) = Given b.veth_name b.veth_idx × AllGiven Given bs

pub AllGiven-at :
    (Given : String → ℕ → Type 0) (bs : List Backend)
    → AllGiven Given bs
    → (j : ℕ) (b : Backend) → get_elem? bs j ≡ some b
    → Given b.veth_name b.veth_idx
AllGiven-at Given [] given j b at = absurd (cc at)
AllGiven-at Given (x ∷ bs) (given, all) zero b at = rw (← some-injective x b at) given
AllGiven-at Given (x ∷ bs) (given, all) (suc j) b at = AllGiven-at Given bs all j b at

-- Every interface, where it does not matter which.
abbrev pub Any : String → ℕ → Type 0
Any name ifindex = Unit {0}

pub AllGiven-Any : (bs : List Backend) → AllGiven Any bs
AllGiven-Any [] = tt
AllGiven-Any (b ∷ bs) = (tt, AllGiven-Any bs)

module _ {S : Type 0} (u : BpfUpdater S) (Given : String → ℕ → Type 0) (P : S → Type 0)
    (calls : IsInvariant u Given P) where
  abbrev Holds : Progress S → Type 0
  Holds p = P p.bpf

  abbrev Preserves : Action (Progress S) → Type 0
  Preserves a = (p : Progress S) → Holds p → Holds (a p).1

  clear_moved-Preserves : (i : ℕ) (ip : Ip) (o : Option Backend) → Preserves (clear_moved u i ip o)
  clear_moved-Preserves i ip none p h = h
  clear_moved-Preserves i ip (some old) p h = elim (Bool-cases (equal old.ip ip)) [
    | inl same ↦ rw same h
    | inr moved ↦ rw moved (calls.clear_backend (u32 i) old.ip p.bpf h)
  ]

  attach_if_new-Preserves :
      (b : Backend) → Given b.veth_name b.veth_idx → Preserves (attach_if_new u b)
  attach_if_new-Preserves b given p h = elim (Bool-cases (is_attached u b.veth_name p.by_veth)) [
    | inl known ↦ rw known h
    | inr new ↦ rw new (
        >>_invariant Holds
          (wrap (Error.attach_veth b.name b.veth_name)
            (on_bpf u (u.attach_veth_xdp b.veth_name b.veth_idx)))
          (modify (λ q. record q { by_veth = insert b.veth_name true q.by_veth }))
          (λ q. calls.attach_veth_xdp b.veth_name b.veth_idx q.bpf given) (λ q. λ hq. hq) p h)
  ]

  write_backend-Preserves :
      (old : List Backend) (i : ℕ) (b : Backend)
      → Given b.veth_name b.veth_idx
      → Preserves (write_backend u old i b)
  unfolding write_backend
  write_backend-Preserves old i b given =
      let clear = clear_moved u i b.ip (get_elem? old i) in
      let put : Action (Progress S) =
        wrap (Error.write_backend i b.name)
          (on_bpf u (u.update_backend (u32 i) b.ip b.port b.mac)) in
      >>_invariant Holds (clear >> put >> attach_if_new u b) (mark_active u b)
        (>>_invariant Holds (clear >> put) (attach_if_new u b)
          (>>_invariant Holds clear put (clear_moved-Preserves i b.ip (get_elem? old i))
            (λ q. calls.update_backend (u32 i) b.ip b.port b.mac q.bpf))
          (attach_if_new-Preserves b given))
        (λ q. λ h. h)

  pub write_backends-Preserves :
      (old : List Backend) (i : ℕ) (bs : List Backend)
      → AllGiven Given bs
      → Preserves (write_backends u old i bs)
  unfolding write_backends
  write_backends-Preserves old i [] given = λ p. λ h. h
  write_backends-Preserves old i (b ∷ bs) (given, all) =
      >>_invariant Holds (write_backend u old i b) (write_backends u old (i + 1) bs)
        (write_backend-Preserves old i b given) (write_backends-Preserves old (i + 1) bs all)

  pub clear_stale-Preserves : (i : ℕ) (os : List Backend) → Preserves (clear_stale u i os)
  unfolding clear_stale
  clear_stale-Preserves i [] = λ p. λ h. h
  clear_stale-Preserves i (o ∷ os) =
      >>_invariant Holds
        (wrap (Error.clear_backend i o.name) (on_bpf u (u.clear_backend (u32 i) o.ip)))
        (clear_stale u (i + 1) os) (λ p. calls.clear_backend (u32 i) o.ip p.bpf)
        (clear_stale-Preserves (i + 1) os)

  pub detach_old-Preserves : (entries : Dict Backend) → Preserves (detach_old u entries)
  unfolding detach_old
  detach_old-Preserves [] = λ p. λ h. h
  detach_old-Preserves ((name, old) ∷ rest) =
      let first : Action (Progress S) =
        wrap (Error.detach_veth old.name name) (on_bpf u (u.detach_veth_xdp name)) in
      let forget : Action (Progress S) =
        modify (λ q. record q { by_veth = delete name q.by_veth }) in
      >>_invariant Holds (first >> forget) (detach_old u rest)
        (>>_invariant Holds first forget (λ p. calls.detach_veth_xdp name p.bpf) (λ q. λ h. h))
        (detach_old-Preserves rest)

  -- The three loops together.
  pub loops-Preserves :
      (old new : List Backend) (range_order : Dict Backend → Dict Backend)
      → AllGiven Given new
      → Preserves (
          write_backends u old 0 new
          >> clear_stale u (length new) (drop (length new) old)
          >> (λ p. detach_old u (range_order p.old_by_veth) p))
  loops-Preserves old new range_order given =
      let write = write_backends u old 0 new in
      let clear = clear_stale u (length new) (drop (length new) old) in
      >>_invariant Holds (write >> clear) (λ p. detach_old u (range_order p.old_by_veth) p)
        (>>_invariant Holds write clear (write_backends-Preserves old 0 new given)
          (clear_stale-Preserves (length new) (drop (length new) old)))
        (λ p. detach_old-Preserves (range_order p.old_by_veth) p)

  finish-Preserves :
      (pool : Pool S) (new : List Backend) (r : Option Error × Progress S)
      → Holds r.1
      → P (finish u pool new r).1.bpf
  finish-Preserves pool new (none, p) h = h
  finish-Preserves pool new (some e, p) h = h

  -- Whatever the calls of `BPFUpdater` preserve, on every path, a `Sync` preserves on every path.
  pub sync-Preserves :
      ((vip : Ip) (vport count : ℕ) (src : HardwareAddr) (s : S)
        → P s
        → P (u.update_config vip vport count src s).1)
      → (range_order : Dict Backend → Dict Backend) (new : List Backend) (pool : Pool S)
      → AllGiven Given new
      → P pool.bpf
      → P (sync u range_order new pool).1.bpf
  unfolding sync sync_maps
  sync-Preserves config range_order new pool given h =
      let start : Progress S = record {
        bpf = pool.bpf;
        by_veth = pool.by_veth;
        old_by_veth = index_by_veth pool.backends [];
      } in
      let loops =
        write_backends u pool.backends 0 new
        >> clear_stale u (length new) (drop (length new) pool.backends)
        >> (λ p. detach_old u (range_order p.old_by_veth) p) in
      let configure : Action (Progress S) =
        wrap Error.update_config
          (on_bpf u (u.update_config pool.vip pool.vport (u32 (length new)) pool.src_mac)) in
      finish-Preserves pool new ((loops >> configure) start) (
        >>_invariant Holds loops configure (loops-Preserves pool.backends new range_order given)
          (λ p. config pool.vip pool.vport (u32 (length new)) pool.src_mac p.bpf) start h)
