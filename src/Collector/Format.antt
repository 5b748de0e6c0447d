-- ===== src/Collector/Format.antt =====
-- The texts that userspace/stats/collector.go prints: `truncate` and `formatBytes`.
use native.Mathlib.Decide.{dec_lt}
use native.Mathlib.Nat.{
  one-le-pow, pow-suc, pow-le-pow_right, le-div_iff_mul-le, div-lt_iff_lt-mul, div-div-eq-div-mul,
}
use container_lb.Base.{
  ℕ, zero, suc, ◌+◌, ◌-◌, ◌*◌, ◌/◌, ◌%◌, ◌^◌, ◌≤◌, ◌<◌, ◌≡◌, inl, inr, refl, ap, sym, ◌∙◌, some,
  List, [], ◌∷◌, ◌++◌, ltb, arith, Bool-cases, ltb→lt, ltb→le, lt→ltb, le→ltb,
}
use container_lb.Base.Lists.{
  length, get_elem?, get_elem?-in, take, length-take, length-append, drop, take-drop,
}
use container_lb.Collector.{truncate, scale, format_bytes, Size, units}

-- The text `t` that is shown for `s` in a column of `max_len` bytes: `s` itself where it fits, and
-- otherwise a beginning of `s` and three dots, which fill the column.
pub data IsTruncated (s : List ℕ) (max_len : ℕ) (t : List ℕ) : Type 0 where
  whole : length s ≤ max_len → t ≡ s → IsTruncated s max_len t
  cut :
      (head rest : List ℕ)
      → max_len < length s
      → s ≡ head ++ rest
      → t ≡ head ++ 46 ∷ 46 ∷ 46 ∷ []
      → length t ≡ max_len
      → IsTruncated s max_len t

-- A text that fits is shown as it is, and any other as a beginning of it with three dots, of exactly
-- the length of the column. The column has room for the dots.
pub truncate-IsTruncated :
    (s : List ℕ) (max_len : ℕ)
    → 3 ≤ max_len
    → (t : List ℕ) × (truncate s max_len ≡ some t) × IsTruncated s max_len t
unfolding truncate
truncate-IsTruncated s max_len h = elim (Bool-cases (ltb max_len (length s))) [
  | inl long ↦
      let over : max_len < length s = ltb→lt max_len (length s) long in
      (
        take (max_len - 3) s ++ 46 ∷ 46 ∷ 46 ∷ [],
        rw (long, le→ltb max_len 3 h) refl,
        cut (take (max_len - 3) s) (drop (max_len - 3) s) over (sym (take-drop (max_len - 3) s))
            refl
            (omega (
              arith,
              length-append (take (max_len - 3) s) (46 ∷ 46 ∷ 46 ∷ []),
              length-take (max_len - 3) s (omega (arith, over)),
            )),
      )
  | inr fits ↦ (s, rw fits refl, whole (ltb→le max_len (length s) fits) refl)
]

-- The unit that `exp` selects is the largest that does not exceed the number.
pub record IsScaled (b div exp : ℕ) : Type 0 where
  pub div_is : div ≡ 1024 ^ (exp + 1)
  pub unit_in : exp < 6
  pub fits_int64 : div < 9223372036854775808
  pub below : div ≤ b
  pub above : b < 1024 * div

one_on : (e : ℕ) → suc (e + 1) ≡ e + 1 + 1
one_on e = omega arith

-- The loop from any round on: `n` is what is left of `b`, and the fuel is enough for it.
scale_from :
    (b fuel n div exp : ℕ)
    → b < 18446744073709551616
    → exp + fuel ≡ 6
    → div ≡ 1024 ^ (exp + 1)
    → n ≡ b / div
    → div ≤ b
    → n < 1024 ^ fuel
    → (d e : ℕ) × (scale fuel n div exp ≡ some (d, e)) × IsScaled b d e
unfolding scale
scale_from b zero n div exp hi count power left below enough =
    let positive : 0 < div = rw power (one-le-pow (exp + 1) 1024 (omega arith)) in
    let some_left : 1 ≤ b / div = (le-div_iff_mul-le positive).1 (omega (arith, below)) in
    absurd (omega (arith, left, some_left, enough))
scale_from b (suc fuel) n div exp hi count power left below enough =
    let positive : 0 < div = rw power (one-le-pow (exp + 1) 1024 (omega arith)) in
    elim (dec_lt n 1024) [
      | yes small ↦
          let most : 1024 ^ (exp + 1) ≤ 1024 ^ 6 =
            pow-le-pow_right {n = 1024} (omega arith) {i = exp + 1} {j = 6}
              (omega (arith, count)) in
          let over : b < 1024 * div = (div-lt_iff_lt-mul positive).0 (rw left at small) in
          (
            div,
            exp,
            rw (lt→ltb n 1024 small) refl,
            record {
              div_is = power;
              unit_in = omega (arith, count);
              fits_int64 = omega (arith, power, most);
              below = below;
              above = over;
            },
          )
      | no large ↦
          let more : div * 1024 ≤ b = omega (
            arith,
            (le-div_iff_mul-le {k = div} {x = 1024} {y = b} positive).0
                (omega (arith, left, large)),
          ) in
          let kept : div * 1024 % 2 ^ 64 ≡ div * 1024 = omega (arith, more, hi) in
          let next =
            scale_from b fuel (n / 1024) (div * 1024) (exp + 1) hi (omega (arith, count))
              (ap (λ x. x * 1024) power
                ∙ sym (pow-suc 1024 (exp + 1))
                ∙ ap (λ x. 1024 ^ x) (one_on exp))
              (ap (λ x. x / 1024) left ∙ div-div-eq-div-mul b div 1024) more
              ((div-lt_iff_lt-mul {k = 1024} (omega arith)).1 (rw (pow-suc 1024 fuel) at enough)) in
          rw (le→ltb n 1024 (omega (arith, large)), kept) next
    ]

-- Every number of 64 bits from 1024 on is scaled: six tests are enough.
scale_lem :
    (b : ℕ)
    → 1024 ≤ b
    → b < 18446744073709551616
    → (div exp : ℕ) × (scale 6 (b / 1024) 1024 0 ≡ some (div, exp)) × IsScaled b div exp
scale_lem b lo hi = scale_from b 6 (b / 1024) 1024 0 hi refl refl refl lo (omega (arith, hi))

-- What `formatBytes` prints of a number of 64 bits.
abbrev pub IsFormatted : ℕ → Size → Type 0
IsFormatted b (Size.plain n) = (n ≡ b) × (b < 1024)
IsFormatted b (Size.scaled n div unit) =
    (n ≡ b) × ((exp : ℕ) × (get_elem? units exp ≡ some unit) × IsScaled b div exp)

unit_at : (exp : ℕ) → exp < 6 → (unit : ℕ) × (get_elem? units exp ≡ some unit)
unit_at exp h = get_elem?-in units exp h

-- `formatBytes` ends within six rounds for every number of 64 bits, without an index out of
-- "KMGTPE" and without an overflow of `div`: it prints a number below 1024 as it is, and divides
-- any other by the largest power of 1024 that does not exceed it, with the unit of that power.
pub format_bytes_total :
    (b : ℕ)
    → b < 18446744073709551616
    → (size : Size) × (format_bytes b ≡ some size) × IsFormatted b size
unfolding format_bytes
format_bytes_total b hi = elim (Bool-cases (ltb b 1024)) [
  | inl small ↦ (Size.plain b, rw small refl, (refl, ltb→lt b 1024 small))
  | inr large ↦
      let (div, exp, e, spec) = scale_lem b (ltb→le b 1024 large) hi in
      let (unit, found) = unit_at exp spec.unit_in in
      (Size.scaled b div unit, rw (large, e, found) refl, (refl, (exp, found, spec)))
]
