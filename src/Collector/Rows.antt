-- ===== src/Collector/Rows.antt =====
-- The rows of the dashboard in userspace/stats/collector.go always exist, and what they show.
use Prim.Native.String.{String}
use mathlib.Core.Option
use container_lb.Base.{ℕ, ◌+◌, ◌%◌, ◌^◌, ◌<◌, ◌≡◌, refl, Option, none, some, List, [], ◌∷◌, arith}
use container_lb.Base.Lists.{length}
use container_lb.Types.{StatsCounter}
use container_lb.Maps.{Kernel, Maps}
use container_lb.Manager.{sum_stats, read_stats}
use container_lb.Pool.{Backend}
use container_lb.Collector.Format.{
  IsTruncated, truncate-IsTruncated, IsFormatted, format_bytes_total,
}
use container_lb.Collector.{Row, stats_or_zero, row, render}

-- What the slots of all CPUs hold together, without a bound.
abbrev pub packets_of : List StatsCounter → ℕ
packets_of [] = 0
packets_of (v ∷ vs) = v.rx_packets + packets_of vs

abbrev pub octets_of : List StatsCounter → ℕ
octets_of [] = 0
octets_of (v ∷ vs) = v.rx_bytes + octets_of vs

-- The sum of `ReadStats` is that number, at 64 bits.
sum_stats_lem :
    (vs : List StatsCounter) (packets octets : ℕ)
    → packets < 18446744073709551616
    → octets < 18446744073709551616
    → ((sum_stats vs (packets, octets)).0 ≡ (packets + packets_of vs) % 18446744073709551616)
      × ((sum_stats vs (packets, octets)).1 ≡ (octets + octets_of vs) % 18446744073709551616)
unfolding sum_stats
sum_stats_lem [] packets octets hp ho = (omega arith, omega arith)
sum_stats_lem (v ∷ vs) packets octets hp ho =
    let (p, o) =
      sum_stats_lem vs ((packets + v.rx_packets) % 2 ^ 64) ((octets + v.rx_bytes) % 2 ^ 64)
        (omega arith) (omega arith) in
    (omega (arith, p), omega (arith, o))

-- What is shown where `counters_map` has these slots at an index, or no such index.
abbrev pub IsStats : Option (List StatsCounter) → ℕ → ℕ → Type 0
IsStats none packets octets = (packets ≡ 0) × (octets ≡ 0)
IsStats (some vs) packets octets =
    (packets ≡ packets_of vs % 18446744073709551616)
    × (octets ≡ octets_of vs % 18446744073709551616)

module _ {C B H P : Type 0} (k : Kernel C B H P) (bytes_of : String → List ℕ)
    (m : Maps C B H P) where
  -- The row of a backend: its index, its name in a column of 16 bytes, its fields, and the sums of
  -- the counters that `counters_map` has at that index.
  pub record IsRow (i : ℕ) (b : Backend) (r : Row) : Type 0 where
    pub index : r.index ≡ i
    pub container : IsTruncated (bytes_of b.name) 16 r.container
    pub ip : r.ip ≡ b.ip
    pub port : r.port ≡ b.port
    pub mac : r.mac ≡ b.mac
    pub stats :
        (octets : ℕ) × IsStats (k.counters.lookup_all m.counters_map i) r.packets octets
        × IsFormatted octets r.bytes

  stats_or_zero-IsStats :
      (i : ℕ)
      → i < 4294967296
      → IsStats
          (k.counters.lookup_all m.counters_map i)
          (stats_or_zero k bytes_of m i).0
          (stats_or_zero k bytes_of m i).1
  unfolding read_stats
  stats_or_zero-IsStats i small = at_index (i % 2 ^ 32) (omega arith)
    where
      shown :
          (o : Option (List StatsCounter))
          → IsStats o
              (Option.get_or (Option.map (λ vs. sum_stats vs (0, 0)) o) (0, 0)).0
              (Option.get_or (Option.map (λ vs. sum_stats vs (0, 0)) o) (0, 0)).1
      shown none = (refl, refl)
      shown (some vs) =
          let (p, o) = sum_stats_lem vs 0 0 (omega arith) (omega arith) in
          (omega (arith, p), omega (arith, o))

      at_index :
          (j : ℕ)
          → j ≡ i
          → IsStats
              (k.counters.lookup_all m.counters_map i)
              (Option.get_or (read_stats k m j) (0, 0)).0
              (Option.get_or (read_stats k m j) (0, 0)).1
      at_index j e = rw e (shown (k.counters.lookup_all m.counters_map i))

  IsStats-lt :
      (o : Option (List StatsCounter)) (packets octets : ℕ)
      → IsStats o packets octets
      → octets < 18446744073709551616
  IsStats-lt none packets octets h = omega (arith, h.1)
  IsStats-lt (some vs) packets octets h = omega (arith, h.1)

  row_total :
      (i : ℕ) (b : Backend)
      → i < 4294967296
      → (r : Row) × (row k bytes_of m i b ≡ some r) × IsRow i b r
  unfolding row
  row_total i b small =
      let (name, cut, column) = truncate-IsTruncated (bytes_of b.name) 16 (omega arith) in
      let stats = stats_or_zero-IsStats i small in
      let octets = (stats_or_zero k bytes_of m i).1 in
      let (size, formatted, spec) = format_bytes_total octets (
        IsStats-lt (k.counters.lookup_all m.counters_map i) (stats_or_zero k bytes_of m i).0 octets
          stats) in
      let r : Row = record {
        index = i;
        container = name;
        ip = b.ip;
        port = b.port;
        mac = b.mac;
        packets = (stats_or_zero k bytes_of m i).0;
        bytes = size;
      } in
      (
        r,
        rw (cut, formatted) refl,
        record {
          index = refl;
          container = column;
          ip = refl;
          port = refl;
          mac = refl;
          stats = (octets, stats, spec);
        },
      )

  -- One row for each backend, in their order.
  abbrev pub AreRows : ℕ → List Backend → List Row → Type 0
  AreRows i [] [] = Unit {0}
  AreRows i (b ∷ bs) (r ∷ rs) = IsRow i b r × AreRows (i + 1) bs rs
  AreRows i _ _ = ⊥

  -- `render` never panics where the indexes have 32 bits: it shows one row for each backend of the
  -- pool, in their order, with the name in its column, the backend's fields, and the sums at 64 bits
  -- of what all CPUs have counted at its index, or zeros where `counters_map` has no such index.
  pub render_total :
      (i : ℕ) (bs : List Backend)
      → i + length bs < 4294967296
      → (rs : List Row) × (render k bytes_of m i bs ≡ some rs) × AreRows i bs rs
  unfolding render
  render_total i [] small = ([], refl, tt)
  render_total i (b ∷ bs) small =
      let (r, made, spec) = row_total i b (omega (arith, small)) in
      let (rs, more, rest) = render_total (i + 1) bs (omega (arith, small)) in
      (r ∷ rs, rw (made, more) refl, (spec, rest))
