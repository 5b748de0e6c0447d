-- ===== src/Go/Action.antt =====
-- Go calls that change state and return an `error`: the state is kept after an error too.
use mathlib.Core.Option
use Prim.Native.String.{String}
use container_lb.Base.{ℕ, Option, none, some, ◌≡◌, refl}

-- The errors of userspace/bpf/maps.go and loader.go and of userspace/discovery/pool.go and
-- docker.go; `system` is one that the kernel or a library returns.
pub data Error : Type 0 where
  system : ℕ → Error
  config_map_put backend_map_put backend_ips_map_put backend_map_clear backend_not_ipv4 : Error
  attach_xdp : Error → Error → Error
  detach_xdp : String → Error → Error
  write_backend clear_backend : ℕ → String → Error → Error
  attach_veth detach_veth : String → String → Error → Error
  update_config : Error → Error
  container_netns netlink_handle list_links host_veth : ℕ → Error → Error
  no_veth : ℕ → Error
  list_containers : Error → Error
  remove_memlock load_objects : Error → Error
  detach_ingress close_objects : Error → Error
  interface_not_found attach_ingress : String → Error → Error

-- `none` is Go's `nil`.
abbrev pub Action : Type 0 → Type 0
Action S = S → Option Error × S

infixl 5 ◌>>◌
module _ {S : Type 0} where
  abbrev pub done : Action S
  done s = (none, s)

  abbrev pub fail : Error → Action S
  fail e s = (some e, s)

  abbrev pub after : Option Error → Action S → Action S
  after none k s = k s
  after (some e) k s = (some e, s)

  -- `if err := m(); err != nil { return err }`, then `k`.
  abbrev pub ◌>>◌ : Action S → Action S → Action S
  ◌>>◌ m k s = let (e, s') = m s in after e k s'

  -- `if err := m(); err != nil { return fmt.Errorf(…, err) }`
  abbrev pub wrap : (Error → Error) → Action S → Action S
  wrap f m s = let (e, s') = m s in (Option.map f e, s')

  -- `_ = m()`
  abbrev pub ignore : Action S → Action S
  ignore m s = let (e, s') = m s in (none, s')

  abbrev pub modify : (S → S) → Action S
  modify f s = (none, f s)

-- Where a sequence ends without an error, so did both of its parts.
module _ {S : Type 0} where
  after_ok :
      (e : Option Error) (k : Action S) (s : S)
      → (after e k s).0 ≡ none
      → (e ≡ none) × ((k s).0 ≡ none) × ((after e k s).1 ≡ (k s).1)
  after_ok none k s h = (refl, h, refl)
  after_ok (some e) k s h = absurd (cc h)

  pub >>_ok :
      (m k : Action S) (s : S)
      → ((m >> k) s).0 ≡ none
      → ((m s).0 ≡ none) × ((k (m s).1).0 ≡ none) × (((m >> k) s).1 ≡ (k (m s).1).1)
  >>_ok m k s h = after_ok (m s).0 k (m s).1 h

  pub wrap_ok : (f : Error → Error) (m : Action S) (s : S) → (wrap f m s).0 ≡ none → (m s).0 ≡ none
  wrap_ok f m s h = go (m s).0 h
    where
      go : (e : Option Error) → Option.map f e ≡ none → e ≡ none
      go none h = refl
      go (some e) h = absurd (cc h)

-- Where both parts end without an error, so does the sequence.
module _ {S : Type 0} where
  pub >>_total :
      (m k : Action S) (s : S) → (m s).0 ≡ none → (k (m s).1).0 ≡ none → ((m >> k) s).0 ≡ none
  >>_total m k s hm hk = rw hm hk

  pub >>_state : (m k : Action S) (s : S) → (m s).0 ≡ none → ((m >> k) s).1 ≡ (k (m s).1).1
  >>_state m k s hm = rw hm refl

  pub wrap_total :
      (f : Error → Error) (m : Action S) (s : S) → (m s).0 ≡ none → (wrap f m s).0 ≡ none
  wrap_total f m s h = rw h refl

-- What both parts of a sequence preserve, with an error or without, the sequence does.
module _ {S : Type 0} (P : S → Type 0) where
  after_invariant :
      (e : Option Error) (k : Action S) (s : S)
      → ((t : S) → P t → P (k t).1)
      → P s
      → P (after e k s).1
  after_invariant none k s hk h = hk s h
  after_invariant (some e) k s hk h = h

  pub >>_invariant :
      (m k : Action S)
      → ((s : S) → P s → P (m s).1)
      → ((s : S) → P s → P (k s).1)
      → (s : S) → P s
      → P ((m >> k) s).1
  >>_invariant m k hm hk s h = after_invariant (m s).0 k (m s).1 hk (hm s h)

-- Where the second part has no error, one of the sequence is of the first part, which ends it.
module _ {S : Type 0} where
  after_failed :
      (e : Option Error) (k : Action S) (s : S) (x : Error)
      → (k s).0 ≡ none
      → (after e k s).0 ≡ some x
      → (after e k s).1 ≡ s
  after_failed none k s x hk h = absurd (cc (hk, h))
  after_failed (some e) k s x hk h = refl

  pub >>_failed :
      (m k : Action S) (s : S) (x : Error)
      → (k (m s).1).0 ≡ none
      → ((m >> k) s).0 ≡ some x
      → ((m >> k) s).1 ≡ (m s).1
  >>_failed m k s x hk h = after_failed (m s).0 k (m s).1 x hk h
