-- ===== src/Pool/Attached/Loops.antt =====
-- The attachments through the loops of `Sync` in userspace/discovery/pool.go.
use mathlib.Core.Option
use mathlib.Core.Option.{some-injective}
use Prim.Native.String.{String}
use text.Mathlib.Text.{◌==◌ as str_eq}
use text.Mathlib.TextEquality.{eq_iff}
use container_lb.Base.{
  ℕ, suc, zero, ◌+◌, ◌≡◌, ◌∙◌, ap, sym, refl, inl, inr, true, false, Bool-cases, Option, none, some,
  List, [], ◌∷◌,
}
use container_lb.Base.Lists.{get_elem?}
use container_lb.Maps.{Kernel}
use container_lb.Go.Action.{Error, Action, after, ◌>>◌, >>_ok, >>_invariant, wrap, modify}
use container_lb.Go.Dict.{Dict, lookup, delete, lookup-delete}
use container_lb.Manager.{Manager, LinkApi, detach_veth_xdp}
use container_lb.Manager.Links.{detach_veth_xdp_ok, detach_veth_xdp_failed}
use container_lb.Pool.{
  Backend, Progress, on_bpf, is_attached, clear_moved, attach_if_new, mark_active, write_backend,
  write_backends, clear_stale, detach_old,
}
use container_lb.Pool.Updater.{manager_updater}
use container_lb.Pool.Attached.{
  Linked, Active, attach_if_new-Linked, attach_if_new-Active, attach_if_new_ok, clear_moved-IsQuiet,
  IsQuiet-Linked, IsQuiet-Active, put, put-IsQuiet, clear_one, clear_one-IsQuiet,
  mark_active-Active,
}

module _ {C B H P L W : Type 0} (k : Kernel C B H P) (api : LinkApi L W) where
  abbrev prepare : List Backend → ℕ → Backend → Action (Progress (Manager C B H P L W))
  prepare old i b = clear_moved (manager_updater k api) i b.ip (get_elem? old i) >> put k api i b

  write_backend-Linked :
      (old : List Backend) (i : ℕ) (b : Backend) (p : Progress (Manager C B H P L W))
      → Linked k api p
      → Linked k api (write_backend (manager_updater k api) old i b p).1
  unfolding write_backend
  write_backend-Linked old i b =
      let u = manager_updater k api in
      >>_invariant (Linked k api) (prepare old i b >> attach_if_new u b) (mark_active u b)
        (>>_invariant (Linked k api) (prepare old i b) (attach_if_new u b)
          (>>_invariant (Linked k api) (clear_moved u i b.ip (get_elem? old i)) (put k api i b)
            (IsQuiet-Linked k api (clear_moved u i b.ip (get_elem? old i))
              (clear_moved-IsQuiet k api i b.ip (get_elem? old i)))
            (IsQuiet-Linked k api (put k api i b) (put-IsQuiet k api i b)))
          (attach_if_new-Linked k api b))
        (λ p. λ h. h)

  write_backend-Active :
      (old : List Backend) (i : ℕ) (b : Backend) (j : String) (p : Progress (Manager C B H P L W))
      → Active k api j p
      → Active k api j (write_backend (manager_updater k api) old i b p).1
  unfolding write_backend
  write_backend-Active old i b j =
      let u = manager_updater k api in
      >>_invariant (Active k api j) (prepare old i b >> attach_if_new u b) (mark_active u b)
        (>>_invariant (Active k api j) (prepare old i b) (attach_if_new u b)
          (>>_invariant (Active k api j) (clear_moved u i b.ip (get_elem? old i)) (put k api i b)
            (IsQuiet-Active k api (clear_moved u i b.ip (get_elem? old i))
              (clear_moved-IsQuiet k api i b.ip (get_elem? old i)) j)
            (IsQuiet-Active k api (put k api i b) (put-IsQuiet k api i b) j))
          (attach_if_new-Active k api b j))
        (mark_active-Active k api b j)

  -- A round without an error leaves the backend's interface active.
  write_backend_attaches :
      (old : List Backend) (i : ℕ) (b : Backend) (p : Progress (Manager C B H P L W))
      → (write_backend (manager_updater k api) old i b p).0 ≡ none
      → Active k api b.veth_name (write_backend (manager_updater k api) old i b p).1
  unfolding write_backend
  write_backend_attaches old i b p h =
      let u = manager_updater k api in
      let (hm, hk, e) = >>_ok (prepare old i b >> attach_if_new u b) (mark_active u b) p h in
      let (hp, ha, e') = >>_ok (prepare old i b) (attach_if_new u b) p hm in
      rw (e, e')
        (
          attach_if_new_ok k api b (prepare old i b p).1 ha,
          lookup-delete b.veth_name b.veth_name _
              ∙ rw ((eq_iff b.veth_name b.veth_name).1 refl) refl,
        )

  pub write_backends-Linked :
      (old : List Backend) (i : ℕ) (bs : List Backend) (p : Progress (Manager C B H P L W))
      → Linked k api p
      → Linked k api (write_backends (manager_updater k api) old i bs p).1
  unfolding write_backends
  write_backends-Linked old i [] = λ p. λ h. h
  write_backends-Linked old i (b ∷ bs) =
      >>_invariant (Linked k api) (write_backend (manager_updater k api) old i b)
        (write_backends (manager_updater k api) old (i + 1) bs) (write_backend-Linked old i b)
        (write_backends-Linked old (i + 1) bs)

  write_backends-Active :
      (old : List Backend) (i : ℕ) (bs : List Backend) (j : String)
      (p : Progress (Manager C B H P L W))
      → Active k api j p
      → Active k api j (write_backends (manager_updater k api) old i bs p).1
  unfolding write_backends
  write_backends-Active old i [] j = λ p. λ h. h
  write_backends-Active old i (b ∷ bs) j =
      >>_invariant (Active k api j) (write_backend (manager_updater k api) old i b)
        (write_backends (manager_updater k api) old (i + 1) bs) (write_backend-Active old i b j)
        (write_backends-Active old (i + 1) bs j)

  -- The first loop without an error leaves the interface of every new backend active.
  pub write_backends_attaches :
      (old : List Backend) (i : ℕ) (bs : List Backend) (p : Progress (Manager C B H P L W))
      → (write_backends (manager_updater k api) old i bs p).0 ≡ none
      → (j : ℕ) (b : Backend) → get_elem? bs j ≡ some b
      → Active k api b.veth_name (write_backends (manager_updater k api) old i bs p).1
  unfolding write_backends
  write_backends_attaches old i [] p h j b at = absurd (cc at)
  write_backends_attaches old i (c ∷ bs) p h zero b at =
      let (hf, hr, e) =
        >>_ok (write_backend (manager_updater k api) old i c)
          (write_backends (manager_updater k api) old (i + 1) bs) p h in
      let same = ap (λ (x : Backend). x.veth_name) (some-injective c b at) in
      rw (e, ← same)
        (write_backends-Active old (i + 1) bs c.veth_name _ (write_backend_attaches old i c p hf))
  write_backends_attaches old i (c ∷ bs) p h (suc j) b at =
      let (hf, hr, e) =
        >>_ok (write_backend (manager_updater k api) old i c)
          (write_backends (manager_updater k api) old (i + 1) bs) p h in
      rw e (write_backends_attaches old (i + 1) bs _ hr j b at)

  pub clear_stale-Linked :
      (i : ℕ) (os : List Backend) (p : Progress (Manager C B H P L W))
      → Linked k api p
      → Linked k api (clear_stale (manager_updater k api) i os p).1
  unfolding clear_stale
  clear_stale-Linked i [] = λ p. λ h. h
  clear_stale-Linked i (o ∷ os) =
      >>_invariant (Linked k api) (clear_one k api i o)
        (clear_stale (manager_updater k api) (i + 1) os)
        (IsQuiet-Linked k api (clear_one k api i o) (clear_one-IsQuiet k api i o))
        (clear_stale-Linked (i + 1) os)

  pub clear_stale-Active :
      (i : ℕ) (os : List Backend) (j : String) (p : Progress (Manager C B H P L W))
      → Active k api j p
      → Active k api j (clear_stale (manager_updater k api) i os p).1
  unfolding clear_stale
  clear_stale-Active i [] j = λ p. λ h. h
  clear_stale-Active i (o ∷ os) j =
      >>_invariant (Active k api j) (clear_one k api i o)
        (clear_stale (manager_updater k api) (i + 1) os)
        (IsQuiet-Active k api (clear_one k api i o) (clear_one-IsQuiet k api i o) j)
        (clear_stale-Active (i + 1) os j)

  abbrev detach_step : String → Backend → Action (Progress (Manager C B H P L W))
  detach_step name old =
      wrap (Error.detach_veth old.name name)
        (on_bpf (manager_updater k api) (detach_veth_xdp api name))
      >> modify (λ q. record q { by_veth = delete name q.by_veth })

  detach_step-Linked :
      (name : String) (old : Backend) (p : Progress (Manager C B H P L W))
      → Linked k api p
      → Linked k api (detach_step name old p).1
  detach_step-Linked name old p h = done (detach_veth_xdp api name p.bpf).0 refl
    where
      done :
          (o : Option Error)
          → (detach_veth_xdp api name p.bpf).0 ≡ o
          → Linked k api
              (after
                (Option.map (Error.detach_veth old.name name) o)
                (modify (λ q. record q { by_veth = delete name q.by_veth }))
                (record p { bpf = (detach_veth_xdp api name p.bpf).1 })).1
      done (some e) failed j known = rw (detach_veth_xdp_failed api name p.bpf e failed) (h j known)
      done none fine j known = elim (Bool-cases (str_eq name j)) [
        | inl same ↦ absurd (cc (rw (lookup-delete name j p.by_veth, same) at known))
        | inr other ↦ λ e.
            h j (rw (lookup-delete name j p.by_veth, other) at known)
              (sym (rw other at (detach_veth_xdp_ok api name j p.bpf fine)) ∙ e)
      ]

  -- To detach another interface keeps this one.
  detach_step-attached :
      (name : String) (old : Backend) (j : String) (p : Progress (Manager C B H P L W))
      → str_eq name j ≡ false
      → is_attached (manager_updater k api) j p.by_veth ≡ true
      → is_attached (manager_updater k api) j (detach_step name old p).1.by_veth ≡ true
  detach_step-attached name old j p other h = done (detach_veth_xdp api name p.bpf).0
    where
      done :
          (o : Option Error)
          → is_attached
              (manager_updater k api)
              j
              (after
                (Option.map (Error.detach_veth old.name name) o)
                (modify (λ q. record q { by_veth = delete name q.by_veth }))
                (record p { bpf = (detach_veth_xdp api name p.bpf).1 })).1.by_veth
            ≡ true
      done (some e) = h
      done none = rw (lookup-delete name j p.by_veth, other) h

  pub detach_old-Linked :
      (entries : Dict Backend) (p : Progress (Manager C B H P L W))
      → Linked k api p
      → Linked k api (detach_old (manager_updater k api) entries p).1
  unfolding detach_old
  detach_old-Linked [] = λ p. λ h. h
  detach_old-Linked ((name, old) ∷ rest) =
      >>_invariant (Linked k api) (detach_step name old) (detach_old (manager_updater k api) rest)
        (detach_step-Linked name old) (detach_old-Linked rest)

  pub detach_old-attached :
      (entries : Dict Backend) (j : String)
      → lookup j entries ≡ none
      → (p : Progress (Manager C B H P L W))
      → is_attached (manager_updater k api) j p.by_veth ≡ true
      → is_attached
          (manager_updater k api)
          j
          (detach_old (manager_updater k api) entries p).1.by_veth
        ≡ true
  unfolding detach_old lookup
  detach_old-attached [] j missing = λ p. λ h. h
  detach_old-attached ((name, old) ∷ rest) j missing = elim (Bool-cases (str_eq name j)) [
    | inl same ↦ absurd (cc (rw same at missing))
    | inr other ↦
        >>_invariant (λ p. is_attached (manager_updater k api) j p.by_veth ≡ true)
          (detach_step name old) (detach_old (manager_updater k api) rest)
          (λ p. detach_step-attached name old j p other)
          (detach_old-attached rest j (rw other at missing))
  ]
