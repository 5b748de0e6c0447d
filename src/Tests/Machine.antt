-- ===== src/Tests/Machine.antt =====
-- A machine on which the theorems are run: two CPUs, little endian, maps as functions and lists.
use mathlib.Core.Option.{some-injective}
use container_lb.Base.{
  ap, ℕ, zero, suc, ◌+◌, ◌*◌, ◌/◌, ◌%◌, ◌<◌, ◌≤◌, ◌≡◌, ◌≢◌, ◌⊎◌, inl, inr, refl, ◌&&◌, Option, none,
  some, List, [], ◌∷◌, ltb, ◌==◌, if◌then◌else◌, arith, Bool-cases, Option-cases,
}
use container_lb.Base.Lists.{length, get_elem?}
use container_lb.Types.{BackendInfo, LbConfig, StatsCounter, max_backends}
use container_lb.Packet.{Endian}
use container_lb.Maps.{ArrayMap, HashMap, PerCpuArray, Kernel}
use container_lb.Maps.Laws.{IsArrayMap, IsHashMap, IsPerCpuArray, IsKernel}

module _ {V : Type 0} (max : ℕ) where
  abbrev pub array_map : ArrayMap V (ℕ → V)
  array_map = record {
    lookup = λ m k. if ltb k max then some (m k) else none;
    put = λ m k v. if ltb k max then some (λ j. if j == k then v else m j) else none;
  }

  array_in : (m : ℕ → V) (k : ℕ) → k < max → array_map.lookup m k ≡ some (m k)
  array_in m k h = ground arith

  array_put_in :
      (m : ℕ → V) (k : ℕ) (v : V)
      → k < max
      → array_map.put m k v ≡ some (λ j. if j == k then v else m j)
  array_put_in m k v h = ground arith

  array_lookup_put :
      (m m' : ℕ → V) (k j : ℕ) (v : V)
      → array_map.put m k v ≡ some m'
      → array_map.lookup m' j ≡ (if j == k then some v else array_map.lookup m j)
  array_lookup_put m m' k j v h = elim (Bool-cases (ltb k max)) [
    | inl inside ↦
        let e = some-injective _ _ (rw inside at h) in
        rw (← ap (λ (f : ℕ → V). f j) e) (ground arith)
    | inr outside ↦ let e = rw outside at h in cc e
  ]

  pub array_map-IsArrayMap : IsArrayMap array_map max
  array_map-IsArrayMap = record {
    lookup_in = λ m k h. (m k, array_in m k h);
    lookup_out = λ m k h. ground arith;
    put_in = λ m k v h. (_, array_put_in m k v h);
    put_out = λ m k v h. ground arith;
    lookup-put = array_lookup_put;
  }

-- A hash map as a list of entries.
abbrev entry_lookup : List (ℕ × ℕ) → ℕ → Option ℕ
entry_lookup [] k = none
entry_lookup ((i, v) ∷ m) k = if k == i then some v else entry_lookup m k

abbrev entry_replace : List (ℕ × ℕ) → ℕ → ℕ → List (ℕ × ℕ)
entry_replace [] k w = []
entry_replace ((i, v) ∷ m) k w = if k == i then (k, w) ∷ m else (i, v) ∷ entry_replace m k w

abbrev entry_delete : List (ℕ × ℕ) → ℕ → List (ℕ × ℕ)
entry_delete [] k = []
entry_delete ((i, v) ∷ m) k = let rest = entry_delete m k in if k == i then rest else (i, v) ∷ rest

abbrev entry_put : ℕ → List (ℕ × ℕ) → ℕ → ℕ → Option ℕ → Option (List (ℕ × ℕ))
entry_put max m k w (some v) = some (entry_replace m k w)
entry_put max m k w none = if ltb (length m) max then some ((k, w) ∷ m) else none

abbrev entry_remove : List (ℕ × ℕ) → ℕ → Option ℕ → Option (List (ℕ × ℕ))
entry_remove m k (some v) = some (entry_delete m k)
entry_remove m k none = none

abbrev pub hash_map : ℕ → HashMap (List (ℕ × ℕ))
hash_map max = record {
  lookup = entry_lookup;
  put = λ m k w. entry_put max m k w (entry_lookup m k);
  delete = λ m k. entry_remove m k (entry_lookup m k);
}

lookup-replace :
    (m : List (ℕ × ℕ)) (k j w v : ℕ)
    → entry_lookup m k ≡ some v
    → entry_lookup (entry_replace m k w) j ≡ (if j == k then some w else entry_lookup m j)
lookup-replace [] k j w v h = cc
lookup-replace (e ∷ m) k j w v h = ground (arith, lookup-replace m k j w v)

length-replace : (m : List (ℕ × ℕ)) (k w : ℕ) → length (entry_replace m k w) ≡ length m
length-replace [] k w = refl
length-replace (e ∷ m) k w = ground (arith, length-replace m k w)

lookup-delete :
    (m : List (ℕ × ℕ)) (k j : ℕ)
    → entry_lookup (entry_delete m k) j ≡ (if j == k then none else entry_lookup m j)
lookup-delete [] k j = ground arith
lookup-delete (e ∷ m) k j = ground (arith, lookup-delete m k j)

length-delete-le : (m : List (ℕ × ℕ)) (k : ℕ) → length (entry_delete m k) ≤ length m
length-delete-le [] k = omega arith
length-delete-le (e ∷ m) k = ground (arith, length-delete-le m k)

length-delete :
    (m : List (ℕ × ℕ)) (k : ℕ) → entry_lookup m k ≢ none → length (entry_delete m k) + 1 ≤ length m
length-delete [] k h = absurd (h refl)
length-delete (e ∷ m) k h = ground (arith, length-delete m k, length-delete-le m k)

module _ (max : ℕ) where
  put_lem :
      (m m' : List (ℕ × ℕ)) (k j w : ℕ)
      → (hash_map max).put m k w ≡ some m'
      → ((hash_map max).lookup m' j ≡ (if j == k then some w else (hash_map max).lookup m j))
        × (length m' ≤ length m + 1)
        × (entry_lookup m k ≢ none → length m' ≤ length m)
  put_lem m m' k j w h = elim (Option-cases (entry_lookup m k)) [
    | inl new ↦ (ground arith, ground arith, λ present. absurd (present new))
    | inr (v, old) ↦ ground (arith, lookup-replace m k j w v, length-replace m k w)
  ]

  delete_lem :
      (m m' : List (ℕ × ℕ)) (k j : ℕ)
      → (hash_map max).delete m k ≡ some m'
      → ((hash_map max).lookup m' j ≡ (if j == k then none else (hash_map max).lookup m j))
        × (entry_lookup m k ≢ none → length m' + 1 ≤ length m)
  delete_lem m m' k j h = elim (Option-cases (entry_lookup m k)) [
    | inl missing ↦ ground arith
    | inr (v, present) ↦ ground (arith, lookup-delete m k j, length-delete m k)
  ]

  put_room :
      (m : List (ℕ × ℕ)) (k w : ℕ)
      → (entry_lookup m k ≢ none) ⊎ (length m < max)
      → (m' : List (ℕ × ℕ)) × ((hash_map max).put m k w ≡ some m')
  put_room m k w room = elim (Option-cases (entry_lookup m k)) [
    | inl new ↦ ((k, w) ∷ m, ground arith)
    | inr (v, old) ↦ (entry_replace m k w, ground arith)
  ]

  hash_map-IsHashMap : IsHashMap (hash_map max) max
  hash_map-IsHashMap = record {
    count = length;
    put_some = put_room;
    lookup-put = λ m m' k j v h. (put_lem m m' k j v h).0;
    lookup-delete = λ m m' k j h. (delete_lem m m' k j h).0;
    delete_none = λ m k h. ground arith;
    delete_some = λ m m' k h. λ e. absurd (cc (rw e at h));
    count-put_new = λ m m' k v h. (put_lem m m' k k v h).1;
    count-put_old = λ m m' k v h. (put_lem m m' k k v h).2;
    count-delete = λ m m' k h. (delete_lem m m' k k h).1;
  }

-- The slots of two CPUs.
abbrev counters_map : PerCpuArray StatsCounter (ℕ → ℕ → StatsCounter)
counters_map = record {
  lookup = λ m cpu k. if ltb k max_backends then some (m cpu k) else none;
  write = λ m cpu k v. λ c j. if c == cpu && j == k then v else m c j;
  lookup_all = λ m k. if ltb k max_backends then some (m 0 k ∷ m 1 k ∷ []) else none;
}

counters_slots :
    (m : ℕ → ℕ → StatsCounter) (k : ℕ) (vs : List StatsCounter) (c : ℕ)
    → counters_map.lookup_all m k ≡ some vs
    → get_elem? vs c ≡ (if ltb c 2 then counters_map.lookup m c k else none)
counters_slots m k vs c h = elim (Bool-cases (ltb k max_backends)) [
  | inl inside ↦ let e = some-injective _ _ (rw inside at h) in rw (← e, inside) (two_slots m k c)
  | inr outside ↦ let e = rw outside at h in cc e
]
  where
    two_slots :
        (m : ℕ → ℕ → StatsCounter) (k c : ℕ)
        → get_elem? (m 0 k ∷ m 1 k ∷ []) c ≡ (if ltb c 2 then some (m c k) else none)
    two_slots m k zero = refl
    two_slots m k (suc zero) = refl
    two_slots m k (suc (suc c)) = ground arith

counters_map-IsPerCpuArray : IsPerCpuArray counters_map max_backends 2
counters_map-IsPerCpuArray = record {
  lookup_in = λ m cpu k h. (m cpu k, ground arith);
  lookup_out = λ m cpu k h. ground arith;
  lookup_all_in = λ m k h. (m 0 k ∷ m 1 k ∷ [], ground arith);
  slots = counters_slots;
  lookup-write = λ m cpu k c j v h. ground arith;
}

-- On a little-endian machine `htons` swaps the two bytes.
abbrev pub machine : Kernel (ℕ → LbConfig) (ℕ → BackendInfo) (List (ℕ × ℕ)) (ℕ → ℕ → StatsCounter)
machine = record {
  endian = Endian.little;
  bpf_htons = λ x. x / 256 + 256 * (x % 256);
  config = array_map 1;
  backend = array_map max_backends;
  ips = hash_map max_backends;
  counters = counters_map;
}

pub machine-IsKernel : IsKernel machine 2
machine-IsKernel = record {
  htons = λ a b ha hb. omega arith;
  config = array_map-IsArrayMap 1;
  backend = array_map-IsArrayMap max_backends;
  ips = hash_map-IsHashMap max_backends;
  counters = counters_map-IsPerCpuArray;
}

pub machine_empty : machine-IsKernel.ips.count [] ≡ 0
unfolding machine-IsKernel hash_map-IsHashMap
machine_empty = refl
