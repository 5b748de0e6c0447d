-- ===== src/Pool/Updater.antt =====
-- `bpf.Manager` as the `BPFUpdater` of the pool, as userspace/cmd/main.go wires them, and the
-- tables that its calls leave.
use mathlib.Core.Option
use container_lb.Base.{ℕ, ◌≡◌, ◌∙◌, ap, true, Option, none, some, ◌==◌, if◌then◌else◌, arith}
use container_lb.Base.Tables.{put_at, drop_at}
use container_lb.Types.{BackendInfo}
use container_lb.Packet.{Endian}
use container_lb.Maps.{Kernel, Maps}
use container_lb.Maps.Laws.{IsKernel}
use container_lb.Go.Net.{Ip, V4, to4, equal, equal_forms, uint32}
use container_lb.Manager.{
  Manager, LinkApi, entry_of, empty_backend, update_backend, clear_backend, update_config,
  attach_veth_xdp, detach_veth_xdp,
}
use container_lb.Manager.Maps.{update_backend_ok, clear_backend_ok}
use container_lb.Pool.{Backend, BpfUpdater}

abbrev pub manager_updater :
    {C B H P L W : Type 0} → Kernel C B H P → LinkApi L W → BpfUpdater (Manager C B H P L W)
manager_updater k api = record {
  update_backend = update_backend k;
  clear_backend = clear_backend k;
  update_config = update_config k;
  attach_veth_xdp = attach_veth_xdp api;
  detach_veth_xdp = detach_veth_xdp api;
}

abbrev no_address : V4
no_address = record { a = 0; b = 0; c = 0; d = 0 }

abbrev pub IsIpv4 : Backend → Type 0
IsIpv4 b = (v4 : V4) × (to4 b.ip ≡ some v4)

-- The entry of a backend, and its address as a key of the reverse map.
unfoldable pub entry : Endian → Backend → BackendInfo
entry e b = entry_of e (Option.get_or (to4 b.ip) no_address) b.port b.mac

unfoldable pub key : Endian → Backend → ℕ
key e b = uint32 e (Option.get_or (to4 b.ip) no_address)

-- Addresses that `Equal` takes for the same have the same key.
equal_addresses :
    (e : Endian) (v w : V4) (x y : Ip)
    → equal_forms x y (some v) (some w) ≡ true
    → uint32 e v ≡ uint32 e w
equal_addresses e v w x y h = ground arith

pub equal-key :
    (e : Endian) (a b : Backend) → IsIpv4 a → IsIpv4 b → equal a.ip b.ip ≡ true → key e a ≡ key e b
unfolding key equal
equal-key e a b (v, ev) (w, ew) h = rw (ev, ew) (equal_addresses e v w a.ip b.ip (rw (ev, ew) at h))

-- The maps hold the two tables; the configuration and the counters are `c` and `q`.
pub record Tables {C B H P : Type 0} (k : Kernel C B H P) (c : C) (q : P) (m : Maps C B H P)
    (fwd : ℕ → Option BackendInfo) (rev : ℕ → Option ℕ) : Type 0 where
  pub forward_is : (j : ℕ) → k.backend.lookup m.backend_map j ≡ fwd j
  pub reverse_is : (x : ℕ) → k.ips.lookup m.backend_ips_map x ≡ rev x
  pub config_is : m.config_map ≡ c
  pub counters_is : m.counters_map ≡ q

module _ {C B H P L W : Type 0} (k : Kernel C B H P) (cpus : ℕ) (laws : IsKernel k cpus) (c : C)
    (q : P) where
  pub update-Tables :
      (i : ℕ) (b : Backend) (m : Manager C B H P L W) (fwd : ℕ → Option BackendInfo)
      (rev : ℕ → Option ℕ)
      → Tables k c q m.maps fwd rev
      → (update_backend k i b.ip b.port b.mac m).0 ≡ none
      → IsIpv4 b
        × Tables k c q
            (update_backend k i b.ip b.port b.mac m).1.maps
            (put_at i (entry k.endian b) fwd)
            (put_at (key k.endian b) i rev)
  unfolding entry key
  update-Tables i b m fwd rev t h =
      let (v4, e, w) = update_backend_ok k cpus laws i b.ip b.port b.mac m h in
      (
        (v4, e),
        record {
          forward_is = λ j.
              w.forward_is j
              ∙ rw e (
                  ap
                    (λ (o : Option BackendInfo).
                      if j == i then some (entry_of k.endian v4 b.port b.mac) else o)
                    (t.forward_is j));
          reverse_is = λ x.
              w.reverse_is x
              ∙ rw e (
                  ap (λ (o : Option ℕ). if x == uint32 k.endian v4 then some i else o)
                    (t.reverse_is x));
          config_is = w.same_config ∙ t.config_is;
          counters_is = w.same_counters ∙ t.counters_is;
        },
      )

  pub clear-Tables :
      (i : ℕ) (b : Backend) (m : Manager C B H P L W) (fwd : ℕ → Option BackendInfo)
      (rev : ℕ → Option ℕ)
      → Tables k c q m.maps fwd rev
      → IsIpv4 b
      → (clear_backend k i b.ip m).0 ≡ none
      → Tables k c q
          (clear_backend k i b.ip m).1.maps
          (put_at i empty_backend fwd)
          (drop_at (key k.endian b) rev)
  unfolding key
  clear-Tables i b m fwd rev t (v4, e) h =
      let w = clear_backend_ok k cpus laws i b.ip m h in
      record {
        forward_is = λ j.
            w.forward_is j
            ∙ ap (λ (o : Option BackendInfo). if j == i then some empty_backend else o)
                (t.forward_is j);
        reverse_is = λ x.
            w.reverse_is x
            ∙ rw e (
                ap (λ (o : Option ℕ). if x == uint32 k.endian v4 then none else o)
                  (t.reverse_is x));
        config_is = w.same_config ∙ t.config_is;
        counters_is = w.same_counters ∙ t.counters_is;
      }
