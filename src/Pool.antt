-- ===== src/Pool.antt =====
-- `Pool` of userspace/discovery/pool.go, over the interface `BPFUpdater`.
pub mod Reverse
pub mod ReverseMap
pub mod Tables
pub mod Consistency
pub mod Rounds
pub mod Writes
pub mod Loops
pub mod Detach
pub mod Total
pub mod Preserves
pub mod Failed
pub mod Attached
pub mod Invariant
pub mod Updater
use mathlib.Core.Option
use Prim.Native.String.{String}
use container_lb.Base.{
  ℕ, ◌+◌, ◌%◌, ◌^◌, Bool, true, false, Option, none, some, List, [], ◌∷◌, if◌then◌else◌,
}
use container_lb.Base.Lists.{length, get_elem?, drop}
use container_lb.Go.Action.{Error, Action, done, ◌>>◌, wrap, ignore, modify}
use container_lb.Go.Dict.{Dict, lookup, insert, delete}
use container_lb.Go.Net.{Ip, HardwareAddr, equal}

-- `type Backend` of userspace/discovery/docker.go.
pub record Backend : Type 0 where
  pub id : String
  pub name : String
  pub ip : Ip
  pub mac : HardwareAddr
  pub port : ℕ
  pub healthy : Bool
  pub container_pid : ℕ
  pub veth_name : String
  pub veth_idx : ℕ

-- `type BPFUpdater`, over the state `S` of its implementation.
pub record BpfUpdater (S : Type 0) : Type 0 where
  pub update_backend : ℕ → Ip → ℕ → HardwareAddr → Action S
  pub clear_backend : ℕ → Ip → Action S
  pub update_config : Ip → ℕ → ℕ → HardwareAddr → Action S
  pub attach_veth_xdp : String → ℕ → Action S
  pub detach_veth_xdp : String → Action S

-- `type Pool`, with the state of its `bpfManager`.
pub record Pool (S : Type 0) : Type 0 where
  pub bpf : S
  pub backends : List Backend
  pub by_veth : Dict Bool
  pub vip : Ip
  pub vport : ℕ
  pub src_mac : HardwareAddr

unfoldable pub new_pool : {S : Type 0} → S → Ip → ℕ → HardwareAddr → Pool S
new_pool bpf vip vport src_mac = record {
  bpf = bpf;
  backends = [];
  by_veth = [];
  vip = vip;
  vport = vport;
  src_mac = src_mac;
}

-- What `Sync` changes as it goes: the manager, `p.byVeth` and its own `oldByVeth`.
pub record Progress (S : Type 0) : Type 0 where
  pub bpf : S
  pub by_veth : Dict Bool
  pub old_by_veth : Dict Backend

abbrev pub u32 : ℕ → ℕ
u32 n = n % 2 ^ 32

-- The map of the old backends by veth name.
unfoldable pub index_by_veth : List Backend → Dict Backend → Dict Backend
index_by_veth [] d = d
index_by_veth (b ∷ bs) d = index_by_veth bs (insert b.veth_name b d)

module _ {S : Type 0} (updater : BpfUpdater S) where
  abbrev pub on_bpf : Action S → Action (Progress S)
  on_bpf m p = let (e, s) = m p.bpf in (e, record p { bpf = s })

  -- `p.byVeth[name]` of a missing name is `false`.
  abbrev is_attached : String → Dict Bool → Bool
  is_attached name d = Option.get_or (lookup name d) false

  -- The old backend at index `i`, if it has another address, loses its entries.
  abbrev pub clear_moved : ℕ → Ip → Option Backend → Action (Progress S)
  clear_moved i ip none = done
  clear_moved i ip (some old) =
      if equal old.ip ip then done else ignore (on_bpf (updater.clear_backend (u32 i) old.ip))

  abbrev pub attach_if_new : Backend → Action (Progress S)
  attach_if_new b p =
      if is_attached b.veth_name p.by_veth
      then done p
      else (wrap (Error.attach_veth b.name b.veth_name)
              (on_bpf (updater.attach_veth_xdp b.veth_name b.veth_idx))
            >> modify (λ q. record q { by_veth = insert b.veth_name true q.by_veth }))
          p

  abbrev pub mark_active : Backend → Action (Progress S)
  mark_active b = modify (λ q. record q { old_by_veth = delete b.veth_name q.old_by_veth })

  -- One round of the first loop.
  unfoldable pub write_backend : List Backend → ℕ → Backend → Action (Progress S)
  write_backend old i b =
      clear_moved i b.ip (get_elem? old i)
      >> wrap (Error.write_backend i b.name)
          (on_bpf (updater.update_backend (u32 i) b.ip b.port b.mac))
      >> attach_if_new b
      >> mark_active b

  unfoldable pub write_backends : List Backend → ℕ → List Backend → Action (Progress S)
  write_backends old i [] = done
  write_backends old i (b ∷ bs) = write_backend old i b >> write_backends old (i + 1) bs

  -- The second loop, over the old backends from index `i` on.
  unfoldable pub clear_stale : ℕ → List Backend → Action (Progress S)
  clear_stale i [] = done
  clear_stale i (old ∷ rest) =
      wrap (Error.clear_backend i old.name) (on_bpf (updater.clear_backend (u32 i) old.ip))
      >> clear_stale (i + 1) rest

  -- The third loop, over the entries of `oldByVeth` in the order of the iteration.
  unfoldable pub detach_old : Dict Backend → Action (Progress S)
  detach_old [] = done
  detach_old ((name, old) ∷ rest) =
      wrap (Error.detach_veth old.name name) (on_bpf (updater.detach_veth_xdp name))
      >> modify (λ q. record q { by_veth = delete name q.by_veth })
      >> detach_old rest

  -- Go iterates over a map in any order: `range_order` gives the one of this run.
  unfoldable pub sync_maps :
      (Dict Backend → Dict Backend) → Pool S → List Backend → Action (Progress S)
  sync_maps range_order pool new =
      write_backends pool.backends 0 new
      >> clear_stale (length new) (drop (length new) pool.backends)
      >> (λ p. detach_old (range_order p.old_by_veth) p)
      >> wrap Error.update_config
          (on_bpf (updater.update_config pool.vip pool.vport (u32 (length new)) pool.src_mac))

  -- `p.backends` changes only where all went well.
  abbrev pub finish : Pool S → List Backend → Option Error × Progress S → Option Error × Pool S
  finish pool new (none, p) =
      (none, record pool { bpf = p.bpf; by_veth = p.by_veth; backends = new })
  finish pool new (some e, p) = (some e, record pool { bpf = p.bpf; by_veth = p.by_veth })

  unfoldable pub sync : (Dict Backend → Dict Backend) → List Backend → Action (Pool S)
  sync range_order new pool = finish pool new (
      sync_maps range_order pool new (record {
        bpf = pool.bpf;
        by_veth = pool.by_veth;
        old_by_veth = index_by_veth pool.backends [];
      }))

-- `GetBackends` copies the list.
unfoldable pub get_backends : {S : Type 0} → Pool S → List Backend
get_backends pool = pool.backends
