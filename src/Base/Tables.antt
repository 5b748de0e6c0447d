-- ===== src/Base/Tables.antt =====
-- Tables from numbers to values, as functions.
use Prim.Native.Nat.{ℕ}
use mathlib.Core.Option.{Option, none, some}
use container_lb.Base.Tests.{◌==◌, if◌then◌else◌}

-- A table with one entry written, and one without an entry.
abbrev pub put_at {ℓ} : {V : Type ℓ} → ℕ → V → (ℕ → Option V) → ℕ → Option V
put_at k v t j = if j == k then some v else t j

abbrev pub drop_at {ℓ} : {V : Type ℓ} → ℕ → (ℕ → Option V) → ℕ → Option V
drop_at k t j = if j == k then none else t j

abbrev pub drop_key {ℓ} : {V : Type ℓ} → Option ℕ → (ℕ → Option V) → ℕ → Option V
drop_key none t = t
drop_key (some k) t = drop_at k t
