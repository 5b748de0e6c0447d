-- ===== src/Layout/Laws.antt =====
-- What the layout of a type guarantees: positions that grow, alignment, and members in bounds.
use Prim.Native.String.{String}
use text.Mathlib.Text.{◌==◌ as str_eq}
use container_lb.Base.{
  ℕ, ◌+◌, ◌*◌, ◌%◌, ◌/◌, zero, suc, ◌≡◌, refl, ◌≤◌, ◌⊎◌, inl, inr, Option, none, some, arith,
  Bool-cases,
}
use container_lb.Layout.{
  Align, bytes, width, Packing, Ctype, scalar, pointer, enumeration, array, struct, union, Field,
  member, bits, padding, embed, Fields, end, ◌⨾◌, align_up, bits_start, packed_to, alignof, sizeof,
  field_bits, field_start, fields_align, struct_end, union_end, Place, shift, or_else, find,
  find_field, find_struct, find_union,
}

align_up-le : (n : ℕ) (a : Align) → n ≤ align_up n a
align_up-le n Align.byte = omega arith
align_up-le n Align.half = omega arith
align_up-le n Align.word = omega arith
align_up-le n Align.double = omega arith

align_up_bytes : (n : ℕ) (a : Align) → n ≤ 8 * (align_up n a / 8)
align_up_bytes n Align.byte = omega arith
align_up_bytes n Align.half = omega arith
align_up_bytes n Align.word = omega arith
align_up_bytes n Align.double = omega arith

align_up_multiple : (n : ℕ) (a : Align) → align_up n a / 8 % bytes a ≡ 0
align_up_multiple n Align.byte = omega arith
align_up_multiple n Align.half = omega arith
align_up_multiple n Align.word = omega arith
align_up_multiple n Align.double = omega arith

bytes_self : (a : Align) → bytes a % bytes a ≡ 0
bytes_self Align.byte = refl
bytes_self Align.half = refl
bytes_self Align.word = refl
bytes_self Align.double = refl

aligned_sum : (a : Align) (m n : ℕ) → m % bytes a ≡ 0 → n % bytes a ≡ 0 → (m + n) % bytes a ≡ 0
aligned_sum Align.byte m n hm hn = omega arith
aligned_sum Align.half m n hm hn = omega arith
aligned_sum Align.word m n hm hn = omega arith
aligned_sum Align.double m n hm hn = omega arith

zero_multiple : (a : Align) → 0 % bytes a ≡ 0
zero_multiple Align.byte = refl
zero_multiple Align.half = refl
zero_multiple Align.word = refl
zero_multiple Align.double = refl

suc_times : (n s : ℕ) → suc n * s ≡ s + n * s
suc_times n s = grind arith

zero_times : (s : ℕ) → 0 * s ≡ 0
zero_times s = grind arith

aligned_array : (a : Align) (n s : ℕ) → s % bytes a ≡ 0 → n * s % bytes a ≡ 0
aligned_array a zero s h = rw (zero_times s) (zero_multiple a)
aligned_array a (suc n) s h = rw (suc_times n s) (aligned_sum a s (n * s) h (aligned_array a n s h))

-- The size of every type is a multiple of its alignment, so that an array keeps its elements
-- aligned.
pub sizeof-alignof : (t : Ctype) → sizeof t % bytes (alignof t) ≡ 0
unfolding sizeof
sizeof-alignof (scalar s) = bytes_self (width s)
sizeof-alignof (pointer to) = refl
sizeof-alignof (enumeration name) = refl
sizeof-alignof (array t n) = aligned_array (alignof t) n (sizeof t) (sizeof-alignof t)
sizeof-alignof (struct p fs) = align_up_multiple (struct_end p fs 0) (fields_align p fs)
sizeof-alignof (union fs) = align_up_multiple (union_end fs) (fields_align Packing.natural fs)

bits_start-le : (p : Packing) (a : Align) (w pos : ℕ) → pos ≤ bits_start p a w pos
bits_start-le Packing.packed a w pos = ground (arith, align_up-le pos a)
bits_start-le Packing.natural a w pos = ground (arith, align_up-le pos a)

pub field_start-le : (p : Packing) (f : Field) (pos : ℕ) → pos ≤ field_start p f pos
unfolding sizeof
field_start-le p (member n t) pos = align_up-le pos (packed_to p (alignof t))
field_start-le p (bits n s w) pos = bits_start-le p (width s) w pos
field_start-le p (padding s w) pos = bits_start-le p (width s) w pos
field_start-le p (embed t) pos = align_up-le pos (packed_to p (alignof t))

pub struct_end-le : (p : Packing) (fs : Fields) (pos : ℕ) → pos ≤ struct_end p fs pos
unfolding sizeof
struct_end-le p end pos = omega arith
struct_end-le p (f ⨾ fs) pos =
    omega (arith, field_start-le p f pos, struct_end-le p fs (field_start p f pos + field_bits f))

or_else_source :
    (a b : Option Place) (x : Place) → or_else a b ≡ some x → (a ≡ some x) ⊎ (b ≡ some x)
or_else_source none b x h = inr h
or_else_source (some a) b x h = inl h

shift_source :
    (n : ℕ) (o : Option Place) (start w : ℕ)
    → shift n o ≡ some (start, w)
    → (s : ℕ) × (o ≡ some (s, w)) × (start ≡ n + s)
shift_source n none start w h = absurd (cc h)
shift_source n (some (s, v)) start w h = (s, ground arith, ground arith)

mutual
  unfolding sizeof find

  find_in :
      (name : String) (t : Ctype) (start w : ℕ)
      → find name t ≡ some (start, w)
      → start + w ≤ 8 * sizeof t
  find_in name (scalar s) start w h = absurd (cc h)
  find_in name (pointer to) start w h = absurd (cc h)
  find_in name (enumeration n) start w h = absurd (cc h)
  find_in name (array t n) start w h = absurd (cc h)
  find_in name (struct p fs) start w h = omega (
    arith,
    find_struct_in name p fs 0 start w h,
    align_up_bytes (struct_end p fs 0) (fields_align p fs),
  )
  find_in name (union fs) start w h = omega (
    arith,
    find_union_in name fs start w h,
    align_up_bytes (union_end fs) (fields_align Packing.natural fs),
  )

  find_field_in :
      (name : String) (f : Field) (start w : ℕ)
      → find_field name f ≡ some (start, w)
      → start + w ≤ field_bits f
  find_field_in name (member n t) start w h = elim (Bool-cases (str_eq n name)) [
    | inl same ↦ ground arith
    | inr other ↦ absurd (cc (rw other at h))
  ]
  find_field_in name (bits n s v) start w h = elim (Bool-cases (str_eq n name)) [
    | inl same ↦ ground arith
    | inr other ↦ absurd (cc (rw other at h))
  ]
  find_field_in name (padding s v) start w h = absurd (cc h)
  find_field_in name (embed t) start w h = find_in name t start w h

  find_struct_in :
      (name : String) (p : Packing) (fs : Fields) (pos start w : ℕ)
      → find_struct p name fs pos ≡ some (start, w)
      → start + w ≤ struct_end p fs pos
  find_struct_in name p end pos start w h = absurd (cc h)
  find_struct_in name p (f ⨾ fs) pos start w h =
      elim (or_else_source (shift (field_start p f pos) (find_field name f))
        (find_struct p name fs (field_start p f pos + field_bits f)) (start, w) h) [
          | inl here ↦
              let (s, found, e) =
                shift_source (field_start p f pos) (find_field name f) start w here in
              omega (
                arith,
                e,
                find_field_in name f s w found,
                struct_end-le p fs (field_start p f pos + field_bits f),
              )
          | inr later ↦ find_struct_in name p fs (field_start p f pos + field_bits f) start w later
        ]

  find_union_in :
      (name : String) (fs : Fields) (start w : ℕ)
      → find_union name fs ≡ some (start, w)
      → start + w ≤ union_end fs
  find_union_in name end start w h = absurd (cc h)
  find_union_in name (f ⨾ fs) start w h =
      elim (or_else_source (find_field name f) (find_union name fs) (start, w) h) [
        | inl here ↦ let below = find_field_in name f start w here in ground arith
        | inr later ↦ let below = find_union_in name fs start w later in ground arith
      ]

-- A member that the compiler finds in a type lies inside of the type.
pub find-sizeof :
    (name : String) (t : Ctype) (start w : ℕ)
    → find name t ≡ some (start, w)
    → start + w ≤ 8 * sizeof t
find-sizeof name t start w h = find_in name t start w h
