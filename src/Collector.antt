-- ===== src/Collector.antt =====
-- The statistics of userspace/stats/collector.go: the rows of the dashboard, as values. `none` is a
-- run-time panic of Go, or the end of the fuel.
pub mod Format
pub mod Rows
use mathlib.Core.Option
use Prim.Native.String.{String}
use container_lb.Base.{
  ℕ, zero, suc, ◌+◌, ◌-◌, ◌*◌, ◌/◌, ◌%◌, ◌^◌, Option, none, some, List, [], ◌∷◌, ◌++◌, ltb,
  if◌then◌else◌,
}
use container_lb.Base.Monad.{◌>>=◌}
use container_lb.Base.Lists.{length, get_elem?, take}
use container_lb.Maps.{Kernel, Maps}
use container_lb.Go.Net.{Ip, HardwareAddr}
use container_lb.Manager.{read_stats}
use container_lb.Pool.{Backend}

-- `s[:i]` of a string, as its bytes; `i` is a Go `int`, here given by what is left of a number.
abbrev slice_to : ℕ → List ℕ → List ℕ
slice_to = take

unfoldable pub truncate : List ℕ → ℕ → Option (List ℕ)
truncate s max_len =
    if ltb max_len (length s)
    then (if ltb max_len 3 then none else some (slice_to (max_len - 3) s ++ 46 ∷ 46 ∷ 46 ∷ []))
    else some s

-- A number of bytes, as it is printed: `count B`, or `count / div` and a unit.
pub data Size : Type 0 where
  plain : ℕ → Size
  scaled : ℕ → ℕ → ℕ → Size

-- "KMGTPE"
abbrev pub units : List ℕ
units = 75 ∷ 77 ∷ 71 ∷ 84 ∷ 80 ∷ 69 ∷ []

-- The loop, with `fuel` tests left; `div` is an `int64`. `none` means that the fuel ran out.
unfoldable pub scale : ℕ → ℕ → ℕ → ℕ → Option (ℕ × ℕ)
scale zero n div exp = none
scale (suc fuel) n div exp =
    let rest = scale fuel (n / 1024) (div * 1024 % 2 ^ 64) (exp + 1) in
    if ltb n 1024 then some (div, exp) else rest

unfoldable pub format_bytes : ℕ → Option Size
format_bytes b = if ltb b 1024 then some (Size.plain b) else do
  (div, exp) ← scale 6 (b / 1024) 1024 0
  unit ← get_elem? units exp
  some (Size.scaled b div unit)

-- A row of the table.
pub record Row : Type 0 where
  pub index : ℕ
  pub container : List ℕ
  pub ip : Ip
  pub port : ℕ
  pub mac : HardwareAddr
  pub packets : ℕ
  pub bytes : Size

module _ {C B H P : Type 0} (k : Kernel C B H P) (bytes_of : String → List ℕ)
    (m : Maps C B H P) where
  -- `ReadStats`, with zeros for an error.
  abbrev pub stats_or_zero : ℕ → ℕ × ℕ
  stats_or_zero i = Option.get_or (read_stats k m (i % 2 ^ 32)) (0, 0)

  -- The row of one backend; `bytes_of` gives the bytes of a string.
  unfoldable pub row : ℕ → Backend → Option Row
  row i b = do
    container ← truncate (bytes_of b.name) 16
    size ← format_bytes (stats_or_zero i).1
    some (record {
      index = i;
      container = container;
      ip = b.ip;
      port = b.port;
      mac = b.mac;
      packets = (stats_or_zero i).0;
      bytes = size;
    })

  -- The loop of `render`, over the copy of the backends.
  unfoldable pub render : ℕ → List Backend → Option (List Row)
  render i [] = some []
  render i (b ∷ bs) = do r ← row i b; rest ← render (i + 1) bs; some (r ∷ rest)
