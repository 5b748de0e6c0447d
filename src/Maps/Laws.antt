-- ===== src/Maps/Laws.antt =====
-- What the program relies on from the kernel's maps and from `bpf_htons`, as they are documented.
use container_lb.Base.{
  ℕ, ◌+◌, ◌*◌, ◌≤◌, ◌<◌, ◌≡◌, ◌≢◌, ◌⊎◌, ◌&&◌, none, some, List, ◌==◌, ltb, if◌then◌else◌,
}
use container_lb.Base.Lists.{get_elem?}
use container_lb.Packet.{word16}
use container_lb.Types.{max_backends}
use container_lb.Maps.{ArrayMap, HashMap, PerCpuArray, Kernel}

-- The keys are the indexes below `max`, and every one of them has a value.
pub record IsArrayMap {V M : Type 0} (a : ArrayMap V M) (max : ℕ) : Type 0 where
  pub lookup_in : (m : M) (k : ℕ) → k < max → (v : V) × (a.lookup m k ≡ some v)
  pub lookup_out : (m : M) (k : ℕ) → max ≤ k → a.lookup m k ≡ none
  pub put_in : (m : M) (k : ℕ) (v : V) → k < max → (m' : M) × (a.put m k v ≡ some m')
  pub put_out : (m : M) (k : ℕ) (v : V) → max ≤ k → a.put m k v ≡ none
  pub lookup-put :
      (m m' : M) (k j : ℕ) (v : V)
      → a.put m k v ≡ some m'
      → a.lookup m' j ≡ (if j == k then some v else a.lookup m j)

-- `count` is the number of entries. A new entry needs room; an old one can always be replaced.
-- `delete` fails exactly where the key is not there.
pub record IsHashMap {M : Type 0} (h : HashMap M) (max : ℕ) : Type 0 where
  pub count : M → ℕ
  pub put_some :
      (m : M) (k v : ℕ)
      → (h.lookup m k ≢ none) ⊎ (count m < max)
      → (m' : M) × (h.put m k v ≡ some m')
  pub lookup-put :
      (m m' : M) (k j v : ℕ)
      → h.put m k v ≡ some m'
      → h.lookup m' j ≡ (if j == k then some v else h.lookup m j)
  pub lookup-delete :
      (m m' : M) (k j : ℕ)
      → h.delete m k ≡ some m'
      → h.lookup m' j ≡ (if j == k then none else h.lookup m j)
  pub delete_none : (m : M) (k : ℕ) → h.delete m k ≡ none → h.lookup m k ≡ none
  pub delete_some : (m m' : M) (k : ℕ) → h.delete m k ≡ some m' → h.lookup m k ≢ none
  pub count-put_new : (m m' : M) (k v : ℕ) → h.put m k v ≡ some m' → count m' ≤ count m + 1
  pub count-put_old :
      (m m' : M) (k v : ℕ) → h.put m k v ≡ some m' → h.lookup m k ≢ none → count m' ≤ count m
  pub count-delete :
      (m m' : M) (k : ℕ) → h.delete m k ≡ some m' → h.lookup m k ≢ none → count m' + 1 ≤ count m

-- With `cpus` CPUs, `lookup_all` lists the slots in the order of the CPUs.
pub record IsPerCpuArray {V M : Type 0} (a : PerCpuArray V M) (max cpus : ℕ) : Type 0 where
  pub lookup_in : (m : M) (cpu k : ℕ) → k < max → (v : V) × (a.lookup m cpu k ≡ some v)
  pub lookup_out : (m : M) (cpu k : ℕ) → max ≤ k → a.lookup m cpu k ≡ none
  pub lookup_all_in : (m : M) (k : ℕ) → k < max → (vs : List V) × (a.lookup_all m k ≡ some vs)
  pub slots :
      (m : M) (k : ℕ) (vs : List V) (c : ℕ)
      → a.lookup_all m k ≡ some vs
      → get_elem? vs c ≡ (if ltb c cpus then a.lookup m c k else none)
  pub lookup-write :
      (m : M) (cpu k c j : ℕ) (v : V)
      → a.lookup m cpu k ≢ none
      → a.lookup (a.write m cpu k v) c j ≡ (if c == cpu && j == k then some v else a.lookup m c j)

-- `bpf_htons` of a number gives the `__u16` whose bytes in memory are the number's, high one first.
pub record IsKernel {C B H P : Type 0} (k : Kernel C B H P) (cpus : ℕ) : Type 0 where
  pub htons : (a b : ℕ) → a < 256 → b < 256 → k.bpf_htons (256 * a + b) ≡ word16 k.endian a b
  pub config : IsArrayMap k.config 1
  pub backend : IsArrayMap k.backend max_backends
  pub ips : IsHashMap k.ips max_backends
  pub counters : IsPerCpuArray k.counters max_backends cpus
