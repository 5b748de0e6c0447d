-- ===== src/Pool/Rounds.antt =====
-- The rounds of the two loops of `Sync` in userspace/discovery/pool.go, as functions of the tables
-- of backends.
use native.Mathlib.Nat.{add-zero}
use container_lb.Base.{ℕ, suc, ◌+◌, ◌<◌, ◌≡◌, ◌∙◌, ap, Option, arith, List, [], ◌∷◌}
use container_lb.Base.Lists.{get_elem?}
use container_lb.Base.Tables.{put_at, drop_at}
use container_lb.Packet.{Endian}
use container_lb.Types.{BackendInfo}
use container_lb.Manager.{empty_backend}
use container_lb.Pool.{Backend, u32}
use container_lb.Pool.Updater.{IsIpv4, entry, key}

-- A list of backends that are all IPv4.
abbrev pub AreIpv4 : List Backend → Type 0
AreIpv4 [] = Unit {0}
AreIpv4 (b ∷ bs) = IsIpv4 b × AreIpv4 bs

-- An index that fits the map is not cut by `uint32`.
pub u32_small : (i : ℕ) → i < 4294967296 → u32 i ≡ i
u32_small i h = omega arith

-- The two tables after the first loop, from index `i` on; `os` are the old backends from there on.
unfoldable pub fwd_write :
    Endian → ℕ → List Backend → (ℕ → Option BackendInfo) → ℕ → Option BackendInfo
fwd_write e i [] fwd = fwd
fwd_write e i (b ∷ bs) fwd = fwd_write e (i + 1) bs (put_at i (entry e b) fwd)

unfoldable pub rev_write : Endian → List Backend → List Backend → ℕ → (ℕ → Option ℕ) → ℕ → Option ℕ
rev_write e os [] i rev = rev
rev_write e [] (b ∷ bs) i rev = rev_write e [] bs (i + 1) (put_at (key e b) i rev)
rev_write e (o ∷ os) (b ∷ bs) i rev =
    rev_write e os bs (i + 1) (put_at (key e b) i (drop_at (key e o) rev))

-- The two tables after the second loop.
unfoldable pub fwd_clear : ℕ → List Backend → (ℕ → Option BackendInfo) → ℕ → Option BackendInfo
fwd_clear i [] fwd = fwd
fwd_clear i (o ∷ os) fwd = fwd_clear (i + 1) os (put_at i empty_backend fwd)

unfoldable pub rev_clear : Endian → List Backend → (ℕ → Option ℕ) → ℕ → Option ℕ
rev_clear e [] rev = rev
rev_clear e (o ∷ os) rev = rev_clear e os (drop_at (key e o) rev)

-- `os` is the rest of `old` from index `i` on.
abbrev pub IsRest : List Backend → ℕ → List Backend → Type 0
IsRest old i os = (j : ℕ) → get_elem? old (i + j) ≡ get_elem? os j

pub IsRest-head :
    (old os : List Backend) (i : ℕ) → IsRest old i os → get_elem? old i ≡ get_elem? os 0
IsRest-head old os i r = rw (add-zero i) at (r 0)

pub IsRest-tail :
    (old : List Backend) (o : Backend) (os : List Backend) (i : ℕ)
    → IsRest old i (o ∷ os)
    → IsRest old (i + 1) os
IsRest-tail old o os i r j = ap (get_elem? old) (one_on i j) ∙ r (suc j)
  where
    one_on : (i j : ℕ) → i + 1 + j ≡ i + suc j
    one_on i j = omega arith

pub IsRest-nil : (old : List Backend) (i : ℕ) → IsRest old i [] → IsRest old (i + 1) []
IsRest-nil old i r j = ap (get_elem? old) (one_on i j) ∙ r (suc j)
  where
    one_on : (i j : ℕ) → i + 1 + j ≡ i + suc j
    one_on i j = omega arith
