-- ===== src/Values/RoundTrip.antt =====
-- What the control plane writes into a map is what the programs read from it.
use container_lb.Base.{ℕ, ◌<◌, ◌≡◌, refl, some, arith}
use container_lb.Packet.{Endian, Packet, word16, byte16}
use container_lb.Types.{BackendInfo, LbConfig}
use container_lb.Xdp.Dnat.{word32-byte32}
use container_lb.Layout.{sizeof, find}
use container_lb.Layout.Members.{load_member}
use container_lb.Values.{
  backend_info, lb_config, write_backend_info, read_backend_info, write_lb_config, read_lb_config,
}

word16-byte16 : (e : Endian) (v : ℕ) → v < 65536 → word16 e (byte16 e v 0) (byte16 e v 1) ≡ v
word16-byte16 Endian.little v h = omega arith
word16-byte16 Endian.big v h = omega arith

-- The bytes of a backend that `UpdateBackend` puts into `backend_map` are of the size of
-- `struct backend_info`, and the programs read the same backend from them, on both targets, where
-- its numbers are of the width of their fields.
pub read-write_backend_info :
    (e : Endian) (b : BackendInfo)
    → b.ipv4 < 4294967296
    → b.port < 65536
    → b.weight < 4294967296
    → (p : Packet) × (write_backend_info e b ≡ some p)
      × (p.len ≡ sizeof backend_info)
      × (read_backend_info e p ≡ some b)
unfolding write_backend_info read_backend_info load_member find sizeof
read-write_backend_info e b hi hp hw = (
  _,
  refl,
  refl,
  rw (word32-byte32 e b.ipv4 hi, word16-byte16 e b.port hp, word32-byte32 e b.weight hw) refl,
)

-- The bytes of a configuration that `UpdateConfig` puts into `config_map` are of the size of
-- `struct lb_config`, and the programs read the same configuration from them, on both targets,
-- where its numbers are of the width of their fields.
pub read-write_lb_config :
    (e : Endian) (c : LbConfig)
    → c.vip < 4294967296
    → c.vport < 65536
    → c.backend_count < 4294967296
    → (p : Packet) × (write_lb_config e c ≡ some p)
      × (p.len ≡ sizeof lb_config)
      × (read_lb_config e p ≡ some c)
unfolding write_lb_config read_lb_config load_member find sizeof
read-write_lb_config e c hv hp hc = (
  _,
  refl,
  refl,
  rw (word32-byte32 e c.vip hv, word16-byte16 e c.vport hp, word32-byte32 e c.backend_count hc)
      refl,
)
