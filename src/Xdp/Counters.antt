-- ===== src/Xdp/Counters.antt =====
-- The statistics that `xdp_lb_ingress` of kernelspace/xdp_lb.c keeps.
use container_lb.Base.{
  ℕ, ◌+◌, ◌%◌, ◌^◌, ◌≡◌, ◌&&◌, Option-cases, inl, inr, ◌==◌, arith, if◌then◌else◌,
}
use mathlib.Core.Option
use container_lb.Types.{StatsCounter}
use container_lb.Maps.{Kernel}
use container_lb.Maps.Laws.{IsKernel}
use container_lb.Xdp.{count_packet}

-- One more packet of `len` bytes, at the width of `__u64`.
abbrev pub counted : StatsCounter → ℕ → StatsCounter
counted s len = record {
  rx_packets = (s.rx_packets + 1) % 2 ^ 64;
  rx_bytes = (s.rx_bytes + len) % 2 ^ 64;
}

module _ {C B H P : Type 0} (k : Kernel C B H P) (cpus : ℕ) (laws : IsKernel k cpus) where
  -- A forwarded frame is counted once, in its slot on its CPU, and nowhere else; an index that
  -- the map does not have counts nothing.
  pub count_packet_lem :
      (counters : P) (cpu idx len c j : ℕ)
      → k.counters.lookup (count_packet k counters cpu idx len) c j ≡ (
          if c == cpu && j == idx
          then Option.map (λ s. counted s len) (k.counters.lookup counters cpu idx)
          else k.counters.lookup counters c j)
  unfolding count_packet
  count_packet_lem counters cpu idx len c j =
      elim (Option-cases (k.counters.lookup counters cpu idx)) [
        | inl missing ↦ rw (missing, count_packet) (ground arith)
        | inr (s, found) ↦
            rw (found, count_packet)
              (laws.counters.lookup-write counters cpu idx c j (counted s len) (λ e. cc))
      ]
