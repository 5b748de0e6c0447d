-- ===== src/Layout.antt =====
-- How the compiler lays out the types of kernelspace/vmlinux.h and kernelspace/types.h for the BPF
-- target: 64-bit pointers and `long`, every scalar aligned to its size, and bit-fields that stay
-- inside a unit of their type. Positions and widths are in bits, counted in declaration order.
pub mod Laws
pub mod Members
use Prim.Native.String.{String}
use text.Mathlib.Text.{◌==◌ as str_eq}
use container_lb.Base.{
  ℕ, ◌+◌, ◌-◌, ◌*◌, ◌/◌, Option, none, some, List, [], ◌∷◌, ltb, ◌==◌, ◌||◌, if◌then◌else◌,
}

-- The sizes of scalars, and so the alignments of all types.
pub data Align : Type 0 where
  byte half word double : Align

abbrev pub bytes : Align → ℕ
bytes Align.byte = 1
bytes Align.half = 2
bytes Align.word = 4
bytes Align.double = 8

abbrev pub longer : Align → Align → Align
longer Align.byte b = b
longer Align.half Align.byte = Align.half
longer Align.half b = b
longer Align.word Align.double = Align.double
longer Align.word b = Align.word
longer Align.double b = Align.double

pub data Scalar : Type 0 where
  bool char signed_char unsigned_char short unsigned_short int unsigned_int : Scalar
  long unsigned_long long_long unsigned_long_long : Scalar

abbrev pub width : Scalar → Align
width Scalar.bool = Align.byte
width Scalar.char = Align.byte
width Scalar.signed_char = Align.byte
width Scalar.unsigned_char = Align.byte
width Scalar.short = Align.half
width Scalar.unsigned_short = Align.half
width Scalar.int = Align.word
width Scalar.unsigned_int = Align.word
width _ = Align.double

-- `packed` is `__attribute__((packed))`.
pub data Packing : Type 0 where
  natural packed : Packing

-- A pointer and an enumeration carry the C text of what they point to or name.
infixr 5 ◌⨾◌
mutual
  pub data Ctype : Type 0 where
    scalar : Scalar → Ctype
    pointer : String → Ctype
    enumeration : String → Ctype
    array : Ctype → ℕ → Ctype
    struct : Packing → Fields → Ctype
    union : Fields → Ctype

  -- A member, a bit-field of a width, an unnamed bit-field, and a structure or union with no name,
  -- whose members belong to the structure around it.
  pub data Field : Type 0 where
    member : String → Ctype → Field
    bits : String → Scalar → ℕ → Field
    padding : Scalar → ℕ → Field
    embed : Ctype → Field

  pub data Fields : Type 0 where
    end : Fields
    ◌⨾◌ : Field → Fields → Fields

-- The first position from `n` on that is a multiple of the alignment.
abbrev pub align_up : ℕ → Align → ℕ
align_up n Align.byte = (n + 7) / 8 * 8
align_up n Align.half = (n + 15) / 16 * 16
align_up n Align.word = (n + 31) / 32 * 32
align_up n Align.double = (n + 63) / 64 * 64

abbrev max : ℕ → ℕ → ℕ
max a b = if ltb a b then b else a

-- A bit-field of width 0 closes its unit; one that would leave its unit starts a new one.
abbrev pub bits_start : Packing → Align → ℕ → ℕ → ℕ
bits_start Packing.packed unit w pos = if w == 0 then align_up pos unit else pos
bits_start Packing.natural unit w pos =
    if w == 0 || ltb (pos / (8 * bytes unit)) ((pos + w - 1) / (8 * bytes unit))
    then align_up pos unit
    else pos

abbrev pub packed_to : Packing → Align → Align
packed_to Packing.packed a = Align.byte
packed_to Packing.natural a = a

unfoldable mutual
  pub alignof : Ctype → Align
  alignof (scalar s) = width s
  alignof (pointer to) = Align.double
  alignof (enumeration name) = Align.word
  alignof (array t n) = alignof t
  alignof (struct p fs) = fields_align p fs
  alignof (union fs) = fields_align Packing.natural fs

  -- The alignment that a field asks of the structure around it; an unnamed bit-field asks none.
  pub field_align : Packing → Field → Align
  field_align p (member name t) = packed_to p (alignof t)
  field_align p (bits name s w) = packed_to p (width s)
  field_align p (padding s w) = Align.byte
  field_align p (embed t) = packed_to p (alignof t)

  pub fields_align : Packing → Fields → Align
  fields_align p end = Align.byte
  fields_align p (f ⨾ fs) = longer (field_align p f) (fields_align p fs)

unfoldable mutual
  unfolding alignof

  -- In bytes.
  pub sizeof : Ctype → ℕ
  sizeof (scalar s) = bytes (width s)
  sizeof (pointer to) = 8
  sizeof (enumeration name) = 4
  sizeof (array t n) = n * sizeof t
  sizeof (struct p fs) = align_up (struct_end p fs 0) (fields_align p fs) / 8
  sizeof (union fs) = align_up (union_end fs) (fields_align Packing.natural fs) / 8

  pub field_bits : Field → ℕ
  field_bits (member name t) = 8 * sizeof t
  field_bits (bits name s w) = w
  field_bits (padding s w) = w
  field_bits (embed t) = 8 * sizeof t

  -- Where the last field of a structure ends, if the first may start at `pos`.
  pub struct_end : Packing → Fields → ℕ → ℕ
  struct_end p end pos = pos
  struct_end p (f ⨾ fs) pos = struct_end p fs (field_start p f pos + field_bits f)

  pub field_start : Packing → Field → ℕ → ℕ
  field_start p (member name t) pos = align_up pos (packed_to p (alignof t))
  field_start p (bits name s w) pos = bits_start p (width s) w pos
  field_start p (padding s w) pos = bits_start p (width s) w pos
  field_start p (embed t) pos = align_up pos (packed_to p (alignof t))

  pub union_end : Fields → ℕ
  union_end end = 0
  union_end (f ⨾ fs) = max (field_bits f) (union_end fs)

-- A place in memory: its first bit, and its width.
abbrev pub Place : Type 0
Place = ℕ × ℕ

abbrev pub shift : ℕ → Option Place → Option Place
shift n none = none
shift n (some (start, w)) = some (n + start, w)

abbrev pub or_else : Option Place → Option Place → Option Place
or_else none b = b
or_else (some a) b = some a

unfoldable mutual
  unfolding alignof sizeof

  -- The place of the member `name`, which may stand in an unnamed structure or union.
  pub find : String → Ctype → Option Place
  find name (struct p fs) = find_struct p name fs 0
  find name (union fs) = find_union name fs
  find name _ = none

  pub find_field : String → Field → Option Place
  find_field name (member n t) = if str_eq n name then some (0, 8 * sizeof t) else none
  find_field name (bits n s w) = if str_eq n name then some (0, w) else none
  find_field name (padding s w) = none
  find_field name (embed t) = find name t

  pub find_struct : Packing → String → Fields → ℕ → Option Place
  find_struct p name end pos = none
  find_struct p name (f ⨾ fs) pos =
      or_else (shift (field_start p f pos) (find_field name f))
        (find_struct p name fs (field_start p f pos + field_bits f))

  pub find_union : String → Fields → Option Place
  find_union name end = none
  find_union name (f ⨾ fs) = or_else (find_field name f) (find_union name fs)

-- `offsetof`, in bytes.
abbrev pub byte_of : Option Place → Option ℕ
byte_of none = none
byte_of (some (start, w)) = some (start / 8)

abbrev pub offsetof : Ctype → String → Option ℕ
offsetof t name = byte_of (find name t)

-- The constants of an `enum`, by name: each is an `int`, and two may have one value.
abbrev pub Enumerators : Type 0
Enumerators = List (String × ℕ)

unfoldable pub value_of : String → Enumerators → Option ℕ
value_of name [] = none
value_of name ((n, v) ∷ es) = if str_eq n name then some v else value_of name es
