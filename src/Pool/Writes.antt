-- ===== src/Pool/Writes.antt =====
-- One round of the first loop of `Sync` in userspace/discovery/pool.go.
use mathlib.Core.Option
use mathlib.Core.Path.{subst}
use container_lb.Base.{
  ℕ, ◌<◌, ◌≡◌, ◌∙◌, ap, sym, refl, Bool-cases, inl, inr, true, false, Option, none, some, arith,
  List,
}
use container_lb.Base.Lists.{get_elem?}
use container_lb.Base.Tables.{put_at, drop_at}
use container_lb.Packet.{Endian}
use container_lb.Types.{BackendInfo}
use container_lb.Maps.{Kernel, Maps}
use container_lb.Maps.Laws.{IsKernel}
use container_lb.Go.Action.{Error, Action, after, ◌>>◌, >>_ok, wrap, wrap_ok}
use container_lb.Go.Dict.{lookup, insert}
use container_lb.Go.Net.{equal}
use container_lb.Manager.{
  Manager, LinkApi, empty_backend, update_backend, clear_backend, attach_veth_xdp,
}
use container_lb.Manager.Maps.{update_backend_index, clear_backend_total}
use container_lb.Manager.Links.{attach_veth_xdp_maps}
use container_lb.Pool.{
  Backend, Progress, u32, on_bpf, clear_moved, attach_if_new, mark_active, write_backend,
}
use container_lb.Pool.Updater.{
  manager_updater, IsIpv4, entry, key, equal-key, Tables, update-Tables, clear-Tables,
}
use container_lb.Pool.Rounds.{u32_small}

abbrev pub AreTables :
    {C B H P L W : Type 0}
    → Kernel C B H P
    → C
    → P
    → Progress (Manager C B H P L W)
    → (ℕ → Option BackendInfo)
    → (ℕ → Option ℕ)
    → Type 0
AreTables k c q p = Tables k c q p.bpf.maps

-- The table of old addresses loses the address at this index.
abbrev pub drop_old : Endian → Option Backend → (ℕ → Option ℕ) → ℕ → Option ℕ
drop_old e none rev = rev
drop_old e (some old) rev = drop_at (key e old) rev

abbrev pub IsOldIpv4 : Option Backend → Type 0
IsOldIpv4 none = Unit {0}
IsOldIpv4 (some old) = IsIpv4 old

module _ {C B H P L W : Type 0} (k : Kernel C B H P) (api : LinkApi L W) (cpus : ℕ)
    (laws : IsKernel k cpus) (c : C) (q : P) where
  -- Tables that agree everywhere.
  Tables-ext :
      (m : Maps C B H P) (fwd fwd' : ℕ → Option BackendInfo) (rev rev' : ℕ → Option ℕ)
      → Tables k c q m fwd rev
      → ((j : ℕ) → fwd j ≡ fwd' j)
      → ((x : ℕ) → rev x ≡ rev' x)
      → Tables k c q m fwd' rev'
  Tables-ext m fwd fwd' rev rev' t f r = record {
    forward_is = λ j. t.forward_is j ∙ f j;
    reverse_is = λ x. t.reverse_is x ∙ r x;
    config_is = t.config_is;
    counters_is = t.counters_is;
  }

  pub attach_if_new_maps :
      (b : Backend) (p : Progress (Manager C B H P L W))
      → (attach_if_new (manager_updater k api) b p).1.bpf.maps ≡ p.bpf.maps
  attach_if_new_maps b p = elim (Bool-cases (Option.get_or (lookup b.veth_name p.by_veth) false)) [
    | inl old ↦ rw old
    | inr new ↦ rw new (
        attached (attach_veth_xdp api b.veth_name b.veth_idx p.bpf)
          (attach_veth_xdp_maps api b.veth_name b.veth_idx p.bpf))
  ]
    where
      attached :
          (r : Option Error × Manager C B H P L W)
          → r.1.maps ≡ p.bpf.maps
          → (after
              (Option.map (Error.attach_veth b.name b.veth_name) r.0)
              (λ s. (none, record s { by_veth = insert b.veth_name true s.by_veth }))
              (record p { bpf = r.1 })).1.bpf.maps
            ≡ p.bpf.maps
      attached (none, m) e = e
      attached (some x, m) e = e

  overwritten :
      (n : ℕ) (e o : BackendInfo) (fwd : ℕ → Option BackendInfo) (j : ℕ)
      → put_at n e (put_at n o fwd) j ≡ put_at n e fwd j
  overwritten n e o fwd j = ground arith

  dropped_first :
      (x y n : ℕ) (rev : ℕ → Option ℕ) (z : ℕ)
      → x ≡ y
      → put_at y n rev z ≡ put_at y n (drop_at x rev) z
  dropped_first x y n rev z e = ground arith

  write_entry : ℕ → Backend → Option Backend → Action (Progress (Manager C B H P L W))
  write_entry i b o =
      clear_moved (manager_updater k api) i b.ip o
      >> wrap (Error.write_backend i b.name)
          (on_bpf (manager_updater k api) (update_backend k (u32 i) b.ip b.port b.mac))

  update_ok :
      (i : ℕ) (b : Backend) (p : Progress (Manager C B H P L W))
      → (wrap
          (Error.write_backend i b.name)
          (on_bpf (manager_updater k api) (update_backend k (u32 i) b.ip b.port b.mac))
          p).0
        ≡ none
      → (update_backend k (u32 i) b.ip b.port b.mac p.bpf).0 ≡ none
  update_ok i b p h =
      wrap_ok (Error.write_backend i b.name)
        (on_bpf (manager_updater k api) (update_backend k (u32 i) b.ip b.port b.mac)) p h

  write_entry_ok :
      (o : Option Backend) (i : ℕ) (b : Backend) (p : Progress (Manager C B H P L W))
      (fwd : ℕ → Option BackendInfo) (rev : ℕ → Option ℕ)
      → AreTables k c q p fwd rev
      → IsOldIpv4 o
      → (write_entry i b o p).0 ≡ none
      → IsIpv4 b
        × AreTables k c q
            (write_entry i b o p).1
            (put_at (u32 i) (entry k.endian b) fwd)
            (put_at (key k.endian b) (u32 i) (drop_old k.endian o rev))
  unfolding write_entry
  write_entry_ok none i b p fwd rev t ho h =
      update-Tables k cpus laws c q (u32 i) b p.bpf fwd rev t (update_ok i b p h)
  write_entry_ok (some old) i b p fwd rev t ho h = elim (Bool-cases (equal old.ip b.ip)) [
    | inl same ↦
        let (v, written) =
          update-Tables k cpus laws c q (u32 i) b p.bpf fwd rev t
            (update_ok i b p (rw same at h)) in
        let agree = equal-key k.endian old b ho v same in
        rw same (
          v,
          Tables-ext (update_backend k (u32 i) b.ip b.port b.mac p.bpf).1.maps
              (put_at (u32 i) (entry k.endian b) fwd) (put_at (u32 i) (entry k.endian b) fwd)
              (put_at (key k.endian b) (u32 i) rev)
              (put_at (key k.endian b) (u32 i) (drop_at (key k.endian old) rev)) written (λ j. refl)
              (λ x. dropped_first (key k.endian old) (key k.endian b) (u32 i) rev x agree),
        )
    | inr moved ↦
        let p' : Progress (Manager C B H P L W) = record p {
          bpf = (clear_backend k (u32 i) old.ip p.bpf).1;
        } in
        let ok = update_ok i b p' (rw moved at h) in
        let inside = update_backend_index k cpus laws (u32 i) b.ip b.port b.mac p'.bpf ok in
        let cleared =
          clear-Tables k cpus laws c q (u32 i) old p.bpf fwd rev t ho
            (clear_backend_total k cpus laws (u32 i) old.ip p.bpf inside) in
        let (v, written) =
          update-Tables k cpus laws c q (u32 i) b p'.bpf (put_at (u32 i) empty_backend fwd)
            (drop_at (key k.endian old) rev) cleared ok in
        rw moved (
          v,
          Tables-ext (update_backend k (u32 i) b.ip b.port b.mac p'.bpf).1.maps
              (put_at (u32 i) (entry k.endian b) (put_at (u32 i) empty_backend fwd))
              (put_at (u32 i) (entry k.endian b) fwd)
              (put_at (key k.endian b) (u32 i) (drop_at (key k.endian old) rev))
              (put_at (key k.endian b) (u32 i) (drop_at (key k.endian old) rev)) written
              (overwritten (u32 i) (entry k.endian b) empty_backend fwd) (λ x. refl),
        )
  ]

  pub write_backend_ok :
      (old : List Backend) (i : ℕ) (b : Backend) (p : Progress (Manager C B H P L W))
      (fwd : ℕ → Option BackendInfo) (rev : ℕ → Option ℕ)
      → AreTables k c q p fwd rev
      → i < 4294967296
      → IsOldIpv4 (get_elem? old i)
      → (write_backend (manager_updater k api) old i b p).0 ≡ none
      → IsIpv4 b
        × AreTables k c q
            (write_backend (manager_updater k api) old i b p).1
            (put_at i (entry k.endian b) fwd)
            (put_at (key k.endian b) i (drop_old k.endian (get_elem? old i) rev))
  unfolding write_backend write_entry
  write_backend_ok old i b p fwd rev t hi ho h =
      let u = manager_updater k api in
      let entered = write_entry i b (get_elem? old i) in
      let (hm, hr, em) = >>_ok (λ s. (entered >> attach_if_new u b) s) (mark_active u b) p h in
      let (he, ha, ea) = >>_ok entered (attach_if_new u b) p hm in
      let (v, t') = write_entry_ok (get_elem? old i) i b p fwd rev t ho he in
      let same_maps =
        ap (λ (s : Progress (Manager C B H P L W)). s.bpf.maps)
          (em ∙ ap (λ (s : Progress (Manager C B H P L W)). (mark_active u b s).1) ea)
        ∙ attach_if_new_maps b (entered p).1 in
      let moved =
        subst
          (λ m.
            Tables k c q m (put_at (u32 i) (entry k.endian b) fwd)
              (put_at (key k.endian b) (u32 i) (drop_old k.endian (get_elem? old i) rev)))
          (sym same_maps) t' in
      (
        v,
        subst
            (λ n.
              AreTables k c q (write_backend u old i b p).1 (put_at n (entry k.endian b) fwd)
                (put_at (key k.endian b) n (drop_old k.endian (get_elem? old i) rev)))
            (u32_small i hi) moved,
      )
