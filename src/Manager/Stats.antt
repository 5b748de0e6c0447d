-- ===== src/Manager/Stats.antt =====
-- `ReadStats` of userspace/bpf/maps.go against the counters that kernelspace/xdp_lb.c keeps.
use mathlib.Core.Option
use mathlib.Core.Option.{some-injective}
use container_lb.Base.{
  ℕ, zero, suc, ◌+◌, ◌%◌, ◌^◌, ◌<◌, ◌≡◌, ◌∙◌, ap, refl, none, some, List, [], ◌∷◌, ltb, ◌==◌,
  if◌then◌else◌, arith,
}
use container_lb.Base.Lists.{get_elem?}
use container_lb.Types.{StatsCounter, max_backends}
use container_lb.Maps.{Kernel, Maps}
use container_lb.Maps.Laws.{IsKernel}
use container_lb.Xdp.{count_packet}
use container_lb.Xdp.Counters.{counted, count_packet_lem}
use container_lb.Manager.{sum_stats, read_stats}

-- One more packet of `len` bytes in a sum.
abbrev pub one_more : ℕ → ℕ × ℕ → ℕ × ℕ
one_more len (packets, bytes) = ((packets + 1) % 2 ^ 64, (bytes + len) % 2 ^ 64)

swap_mod : (a b c : ℕ) → ((a + b) % 2 ^ 64 + c) % 2 ^ 64 ≡ ((a + c) % 2 ^ 64 + b) % 2 ^ 64
swap_mod a b c = omega arith

inner_mod : (a b c : ℕ) → (a + (b + c) % 2 ^ 64) % 2 ^ 64 ≡ ((a + b) % 2 ^ 64 + c) % 2 ^ 64
inner_mod a b c = omega arith

-- A packet counted first is a packet counted last.
sum_stats-one_more :
    (vs : List StatsCounter) (len packets bytes : ℕ)
    → sum_stats vs (one_more len (packets, bytes)) ≡ one_more len (sum_stats vs (packets, bytes))
unfolding sum_stats
sum_stats-one_more [] len packets bytes = refl
sum_stats-one_more (v ∷ vs) len packets bytes =
    rw (swap_mod packets 1 v.rx_packets, swap_mod bytes len v.rx_bytes)
      (sum_stats-one_more vs len ((packets + v.rx_packets) % 2 ^ 64)
        ((bytes + v.rx_bytes) % 2 ^ 64))

list-ext : (vs ws : List StatsCounter) → ((c : ℕ) → get_elem? ws c ≡ get_elem? vs c) → ws ≡ vs
list-ext [] [] h = refl
list-ext [] (w ∷ ws) h = absurd (cc (h 0))
list-ext (v ∷ vs) [] h = absurd (cc (h 0))
list-ext (v ∷ vs) (w ∷ ws) h = rw (some-injective _ _ (h 0), list-ext vs ws (λ c. h (suc c))) refl

-- The slots of the CPUs before and after a packet on one of them.
sum_stats-counted :
    (vs ws : List StatsCounter) (cpu len packets bytes : ℕ) (s : StatsCounter)
    → get_elem? vs cpu ≡ some s
    → ((c : ℕ) → get_elem? ws c ≡ (if c == cpu then some (counted s len) else get_elem? vs c))
    → sum_stats ws (packets, bytes) ≡ one_more len (sum_stats vs (packets, bytes))
unfolding sum_stats
sum_stats-counted [] ws cpu len packets bytes s at h = absurd (cc at)
sum_stats-counted (v ∷ vs) [] zero len packets bytes s at h = absurd (cc (h 0))
sum_stats-counted (v ∷ vs) [] (suc cpu) len packets bytes s at h = absurd (ground (arith, h 0))
sum_stats-counted (v ∷ vs) (w ∷ ws) zero len packets bytes s at h =
    rw
      (
        some-injective _ _ (h 0),
        list-ext vs ws (λ c. h (suc c) ∙ ground arith),
        ← some-injective _ _ at,
        inner_mod packets v.rx_packets 1,
        inner_mod bytes v.rx_bytes len,
      )
      (sum_stats-one_more vs len ((packets + v.rx_packets) % 2 ^ 64)
        ((bytes + v.rx_bytes) % 2 ^ 64))
sum_stats-counted (v ∷ vs) (w ∷ ws) (suc cpu) len packets bytes s at h =
    rw (some-injective w v (h 0 ∙ ground arith)) (
      sum_stats-counted vs ws cpu len ((packets + v.rx_packets) % 2 ^ 64)
        ((bytes + v.rx_bytes) % 2 ^ 64) s at (λ c. h (suc c) ∙ ground arith))

module _ {C B H P : Type 0} (k : Kernel C B H P) (cpus : ℕ) (laws : IsKernel k cpus) where
  -- What `ReadStats` gives for an index of the map is one packet and `len` bytes more after the
  -- data plane has counted a frame of that length there, whichever CPU it ran on. Both sums are
  -- those of 64-bit words.
  pub read_stats-count_packet :
      (m : Maps C B H P) (cpu idx len : ℕ)
      → cpu < cpus
      → idx < max_backends
      → read_stats k (record m { counters_map = count_packet k m.counters_map cpu idx len }) idx
        ≡ Option.map (one_more len) (read_stats k m idx)
  unfolding read_stats
  read_stats-count_packet m cpu idx len on below =
      let after = count_packet k m.counters_map cpu idx len in
      let (vs, old) = laws.counters.lookup_all_in m.counters_map idx below in
      let (ws, new) = laws.counters.lookup_all_in after idx below in
      let (s, found) = laws.counters.lookup_in m.counters_map cpu idx below in
      rw (old, new)
        (ap some (
          sum_stats-counted vs ws cpu len 0 0 s
            (laws.counters.slots m.counters_map idx vs cpu old ∙ slot_of s found)
            (λ c. laws.counters.slots after idx ws c new ∙ counted_slot s found vs old c)))
    where
      slot_of :
          (s : StatsCounter)
          → k.counters.lookup m.counters_map cpu idx ≡ some s
          → (if ltb cpu cpus then k.counters.lookup m.counters_map cpu idx else none) ≡ some s
      slot_of s found = ground arith

      counted_slot :
          (s : StatsCounter)
          → k.counters.lookup m.counters_map cpu idx ≡ some s
          → (vs : List StatsCounter) → k.counters.lookup_all m.counters_map idx ≡ some vs
          → (c : ℕ)
          → (if ltb c cpus
              then k.counters.lookup (count_packet k m.counters_map cpu idx len) c idx
              else none)
            ≡ (if c == cpu then some (counted s len) else get_elem? vs c)
      counted_slot s found vs old c =
          rw
            (
              count_packet_lem k cpus laws m.counters_map cpu idx len c idx,
              laws.counters.slots m.counters_map idx vs c old,
              found,
            )
            (ground arith)
