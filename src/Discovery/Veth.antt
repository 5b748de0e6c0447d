-- ===== src/Discovery/Veth.antt =====
-- The host veth that `FindHostVeth` of userspace/discovery/docker.go finds.

use Prim.Native.String.{String}
use text.Mathlib.Text.{◌==◌ as str_eq}
use text.Mathlib.TextEquality.{eq_iff}
use container_lb.Base.{
  ℕ, suc, ◌≡◌, ◌≢◌, sym, ap, refl, inl, inr, false, Bool-cases, some, List, [], ◌∷◌, ◌==◌, arith,
}
use container_lb.Base.Lists.{get_elem?}
use container_lb.Manager.{Result, ok, err}
use container_lb.Discovery.{
  Link, first_veth, System, named, host_link, listed, with_handle, with_ns, find_host_veth,
}

-- The first veth is one of the links, where its index is not 0.
first_veth_in :
    (ls : List Link)
    → first_veth ls ≢ 0
    → (j : ℕ) × (l : Link) × (get_elem? ls j ≡ some l)
      × (l.kind ≡ "veth")
      × (l.parent_index ≡ first_veth ls)
unfolding first_veth
first_veth_in [] h = absurd (h refl)
first_veth_in (l ∷ ls) h = elim (Bool-cases (str_eq l.kind "veth")) [
  | inl veth ↦ (0, l, refl, (eq_iff l.kind "veth").0 veth, rw veth refl)
  | inr other ↦
      let (j, l', at, kind, index) = first_veth_in ls (rw other at h) in
      (suc j, l', at, kind, rw other index)
]

module _ {W N H : Type 0} (sys : System W N H) where
  -- The host side of a veth in the network namespace of the process `pid`.
  pub record IsHostVeth (pid : ℕ) (name : String) (index : ℕ) : Type 0 where
    pub ns : N
    pub opened : (w : W) × ((sys.get_from_pid pid w).0 ≡ ok ns)
    pub handle : H
    pub made : (w : W) × ((sys.new_handle_at ns w).0 ≡ ok handle)
    pub links : List Link
    pub listed : (w : W) × ((sys.link_list handle w).0 ≡ ok links)
    pub link :
        (j : ℕ) × (l : Link) × (get_elem? links j ≡ some l)
        × (l.kind ≡ "veth")
        × (l.parent_index ≡ index)
    pub named : (w : W) × ((sys.link_by_index index w).0 ≡ ok name)
    pub set : index ≢ 0

  name_of : Result (String × ℕ) → String
  name_of (ok (name, i)) = name
  name_of (err e) = ""

  index_of : Result (String × ℕ) → ℕ
  index_of (ok (name, i)) = i
  index_of (err e) = 0

  host_link_found :
      (pid index : ℕ) (w : W) (name : String) (i : ℕ)
      → (host_link sys pid index w).0 ≡ ok (name, i)
      → (i ≡ index) × (index ≢ 0) × ((sys.link_by_index index w).0 ≡ ok name)
  unfolding name_of index_of
  host_link_found pid index w name i h = elim (Bool-cases (index == 0)) [
    | inl unset ↦ absurd (cc (rw unset at h))
    | inr set ↦ found set (sys.link_by_index index w) (rw set at h)
  ]
    where
      found :
          (index == 0) ≡ false
          → (r : Result String × W) → (named sys pid index r).0 ≡ ok (name, i)
          → (i ≡ index) × (index ≢ 0) × (r.0 ≡ ok name)
      found set (ok n, w') h =
          (sym (ap index_of h), λ e. absurd (ground (arith, set, e)), ap ok (ap name_of h))
      found set (err e, w') h = absurd (cc h)

  pub find_host_veth-IsHostVeth :
      (pid : ℕ) (w : W) (name : String) (i : ℕ)
      → (find_host_veth sys pid w).0 ≡ ok (name, i)
      → IsHostVeth pid name i
  unfolding find_host_veth
  find_host_veth-IsHostVeth pid w name i h = in_ns (sys.get_from_pid pid w) refl h
    where
      in_list :
          (ns : N) (x : H) (u v t : W)
          → (sys.get_from_pid pid w).0 ≡ ok ns
          → (sys.new_handle_at ns u).0 ≡ ok x
          → (r : Result (List Link) × W) → (sys.link_list x v).0 ≡ r.0
          → (listed sys pid r).0 ≡ ok (name, i)
          → IsHostVeth pid name i
      in_list ns x u v t opened made (ok links, w') e h =
          let (same, set, by_index) = host_link_found pid (first_veth links) w' name i h in
          rw same (record {
            ns = ns;
            opened = (w, opened);
            handle = x;
            made = (u, made);
            links = links;
            listed = (v, e);
            link = first_veth_in links set;
            named = (w', by_index);
            set = set;
          })
      in_list ns x u v t opened made (err f, w') e h = absurd (cc h)

      in_handle :
          (ns : N) (u : W)
          → (sys.get_from_pid pid w).0 ≡ ok ns
          → (r : Result H × W) → (sys.new_handle_at ns u).0 ≡ r.0
          → (with_handle sys pid r).0 ≡ ok (name, i)
          → IsHostVeth pid name i
      in_handle ns u opened (ok x, w') e h =
          in_list ns x u w' w' opened e (sys.link_list x w') refl h
      in_handle ns u opened (err f, w') e h = absurd (cc h)

      in_ns :
          (r : Result N × W)
          → (sys.get_from_pid pid w).0 ≡ r.0
          → (with_ns sys pid r).0 ≡ ok (name, i)
          → IsHostVeth pid name i
      in_ns (ok ns, w') e h = in_handle ns w' e (sys.new_handle_at ns w') refl h
      in_ns (err f, w') e h = absurd (cc h)
