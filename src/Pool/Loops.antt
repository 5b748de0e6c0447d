-- ===== src/Pool/Loops.antt =====
-- The two loops of `Sync` in userspace/discovery/pool.go that write the tables of backends.
use mathlib.Core.Path.{subst}
use container_lb.Base.{ℕ, ◌+◌, ◌<◌, ◌≤◌, ◌≡◌, sym, Option, none, some, arith, List, [], ◌∷◌}
use container_lb.Base.Lists.{length, get_elem?}
use container_lb.Base.Tables.{put_at, drop_at}
use container_lb.Types.{BackendInfo}
use container_lb.Maps.{Kernel}
use container_lb.Maps.Laws.{IsKernel}
use container_lb.Go.Action.{Error, >>_ok, wrap, wrap_ok}
use container_lb.Manager.{Manager, LinkApi, empty_backend, clear_backend}
use container_lb.Pool.{Backend, Progress, u32, on_bpf, write_backend, write_backends, clear_stale}
use container_lb.Pool.Updater.{manager_updater, IsIpv4, entry, key, Tables, clear-Tables}
use container_lb.Pool.Rounds.{
  AreIpv4, IsRest, fwd_write, rev_write, fwd_clear, rev_clear, u32_small, IsRest-head, IsRest-tail,
  IsRest-nil,
}
use container_lb.Pool.Writes.{AreTables, drop_old, IsOldIpv4, write_backend_ok}

module _ {C B H P L W : Type 0} (k : Kernel C B H P) (api : LinkApi L W) (cpus : ℕ)
    (laws : IsKernel k cpus) (c : C) (q : P) where
  clear_stale_step :
      (i : ℕ) (old : Backend) (p : Progress (Manager C B H P L W)) (fwd : ℕ → Option BackendInfo)
      (rev : ℕ → Option ℕ)
      → AreTables k c q p fwd rev
      → i < 4294967296
      → IsIpv4 old
      → (wrap
          (Error.clear_backend i old.name)
          (on_bpf (manager_updater k api) (clear_backend k (u32 i) old.ip))
          p).0
        ≡ none
      → AreTables k c q
          (wrap
            (Error.clear_backend i old.name)
            (on_bpf (manager_updater k api) (clear_backend k (u32 i) old.ip))
            p).1
          (put_at i empty_backend fwd)
          (drop_at (key k.endian old) rev)
  clear_stale_step i old p fwd rev t hi ho h =
      let ok =
        wrap_ok (Error.clear_backend i old.name)
          (on_bpf (manager_updater k api) (clear_backend k (u32 i) old.ip)) p h in
      subst
        (λ n.
          Tables k c q (clear_backend k (u32 i) old.ip p.bpf).1.maps (put_at n empty_backend fwd)
            (drop_at (key k.endian old) rev))
        (u32_small i hi) (clear-Tables k cpus laws c q (u32 i) old p.bpf fwd rev t ho ok)

  pub clear_stale_ok :
      (i : ℕ) (os : List Backend) (p : Progress (Manager C B H P L W))
      (fwd : ℕ → Option BackendInfo) (rev : ℕ → Option ℕ)
      → AreTables k c q p fwd rev
      → i + length os ≤ 4294967296
      → AreIpv4 os
      → (clear_stale (manager_updater k api) i os p).0 ≡ none
      → AreTables k c q
          (clear_stale (manager_updater k api) i os p).1
          (fwd_clear i os fwd)
          (rev_clear k.endian os rev)
  unfolding clear_stale fwd_clear rev_clear
  clear_stale_ok i [] p fwd rev t hi ho h = t
  clear_stale_ok i (o ∷ os) p fwd rev t hi ho h =
      let u = manager_updater k api in
      let first = wrap (Error.clear_backend i o.name) (on_bpf u (clear_backend k (u32 i) o.ip)) in
      let (hf, hr, e) = >>_ok first (clear_stale u (i + 1) os) p h in
      rw e (
        clear_stale_ok (i + 1) os (first p).1 (put_at i empty_backend fwd)
          (drop_at (key k.endian o) rev) (clear_stale_step i o p fwd rev t (omega arith) ho.0 hf)
          (omega arith) ho.1 hr)

  -- One round, with the old backend at its index given as `o`.
  write_backend_at :
      (old : List Backend) (o : Option Backend) (i : ℕ) (b : Backend)
      (p : Progress (Manager C B H P L W)) (fwd : ℕ → Option BackendInfo) (rev : ℕ → Option ℕ)
      → get_elem? old i ≡ o
      → AreTables k c q p fwd rev
      → i < 4294967296
      → IsOldIpv4 o
      → (write_backend (manager_updater k api) old i b p).0 ≡ none
      → IsIpv4 b
        × AreTables k c q
            (write_backend (manager_updater k api) old i b p).1
            (put_at i (entry k.endian b) fwd)
            (put_at (key k.endian b) i (drop_old k.endian o rev))
  write_backend_at old o i b p fwd rev e t hi ho h =
      subst
        (λ o.
          IsIpv4 b
          × AreTables k c q (write_backend (manager_updater k api) old i b p).1
              (put_at i (entry k.endian b) fwd)
              (put_at (key k.endian b) i (drop_old k.endian o rev)))
        e
        (write_backend_ok k api cpus laws c q old i b p fwd rev t hi
          (subst (λ o. IsOldIpv4 o) (sym e) ho) h)

  pub write_backends_ok :
      (old os bs : List Backend) (i : ℕ) (p : Progress (Manager C B H P L W))
      (fwd : ℕ → Option BackendInfo) (rev : ℕ → Option ℕ)
      → AreTables k c q p fwd rev
      → IsRest old i os
      → AreIpv4 os
      → i + length bs ≤ 4294967296
      → (write_backends (manager_updater k api) old i bs p).0 ≡ none
      → AreIpv4 bs
        × AreTables k c q
            (write_backends (manager_updater k api) old i bs p).1
            (fwd_write k.endian i bs fwd)
            (rev_write k.endian os bs i rev)
  unfolding write_backends fwd_write rev_write
  write_backends_ok old os [] i p fwd rev t r ho hi h = (tt, t)
  write_backends_ok old [] (b ∷ bs) i p fwd rev t r ho hi h =
      let u = manager_updater k api in
      let (hf, hr, e) = >>_ok (write_backend u old i b) (write_backends u old (i + 1) bs) p h in
      let (v, t') =
        write_backend_at old none i b p fwd rev (IsRest-head old [] i r) t (omega arith) tt hf in
      let (vs, t'') =
        write_backends_ok old [] bs (i + 1) (write_backend u old i b p).1
          (put_at i (entry k.endian b) fwd) (put_at (key k.endian b) i rev) t' (IsRest-nil old i r)
          tt (omega arith) hr in
      rw e ((v, vs), t'')
  write_backends_ok old (o ∷ os) (b ∷ bs) i p fwd rev t r ho hi h =
      let u = manager_updater k api in
      let (hf, hr, e) = >>_ok (write_backend u old i b) (write_backends u old (i + 1) bs) p h in
      let (v, t') =
        write_backend_at old (some o) i b p fwd rev (IsRest-head old (o ∷ os) i r) t (omega arith)
          ho.0 hf in
      let (vs, t'') =
        write_backends_ok old os bs (i + 1) (write_backend u old i b p).1
          (put_at i (entry k.endian b) fwd)
          (put_at (key k.endian b) i (drop_at (key k.endian o) rev)) t' (IsRest-tail old o os i r)
          ho.1 (omega arith) hr in
      rw e ((v, vs), t'')
