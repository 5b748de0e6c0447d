-- ===== src/Checksum/Rewrite.antt =====
-- What `update_ip_csum` writes into the header of a frame.
use container_lb.Base.{
  ℕ, zero, suc, ◌+◌, ◌*◌, ◌%◌, ◌^◌, ◌≤◌, ◌<◌, ◌≡◌, ap, refl, some, arith, ◌⊎◌, lt→ltb,
}
use Prim.Native.Nat.add
use mathlib.Core.Path.{ap₂}
use native.Mathlib.Nat.{zero-add}
use container_lb.Packet.{Endian, Packet, load16, store16, word16, byte16, put8}
use container_lb.Checksum.{sum_words, fold_csum, update_ip_csum}

-- A word of the packet, without the test of its bounds.
abbrev pub word_at : Endian → Packet → ℕ → ℕ
word_at e p i = word16 e (p.byte i) (p.byte (i + 1))

load16-eq : (e : Endian) (p : Packet) (i : ℕ) → i + 1 < p.len → load16 e p i ≡ some (word_at e p i)
load16-eq e p i h = rw (lt→ltb i p.len (omega arith), lt→ltb (i + 1) p.len h)

abbrev pub put16 : Endian → Packet → ℕ → ℕ → Packet
put16 e p i v = put8 (put8 p i (byte16 e v 0)) (i + 1) (byte16 e v 1)

store16-eq :
    (e : Endian) (p : Packet) (i v : ℕ) → i + 1 < p.len → store16 e p i v ≡ some (put16 e p i v)
store16-eq e p i v h = rw (lt→ltb i p.len (omega arith), lt→ltb (i + 1) p.len h)

-- The sum that the loop computes, where no carry out of 32 bits is lost.
unfoldable pub words_sum : Endian → Packet → ℕ → ℕ → ℕ
words_sum e p zero at = 0
words_sum e p (suc left) at = word_at e p at + words_sum e p left (at + 2)

abbrev pub IsBytes : Packet → Type 0
IsBytes p = (i : ℕ) → p.byte i < 256

pub word_at-lt : (e : Endian) (p : Packet) (i : ℕ) → IsBytes p → word_at e p i < 65536
word_at-lt Endian.little p i b = omega (arith, b i, b (i + 1))
word_at-lt Endian.big p i b = omega (arith, b i, b (i + 1))

sum_words-eq :
    (e : Endian) (p : Packet) (left at csum : ℕ)
    → at + 2 * left ≤ p.len
    → IsBytes p
    → csum + left * 65536 < 2 ^ 32
    → sum_words e p left at csum ≡ some (csum + words_sum e p left at)
unfolding sum_words words_sum
sum_words-eq e p zero at csum h b room = ap some (omega arith)
sum_words-eq e p (suc left) at csum h b room =
    let w = word_at e p at in
    let small : w < 65536 = word_at-lt e p at b in
    let exact : (csum + w) % 2 ^ 32 ≡ csum + w = omega arith in
    rw
      (
        load16-eq e p at (omega arith),
        exact,
        sum_words-eq e p left (at + 2) (csum + w) (omega arith) b (omega arith),
      )
      (ap some (omega arith))

-- The header at offset `iph` with the field `check` set to zero.
abbrev pub cleared : Endian → Packet → ℕ → Packet
cleared e p iph = put16 e p (iph + 10) 0

pub put8-IsBytes : (p : Packet) (i v : ℕ) → IsBytes p → v < 256 → IsBytes (put8 p i v)
put8-IsBytes p i v b h j = ground (arith, b j)

byte16-lt : (e : Endian) (v i : ℕ) → byte16 e v i < 256
byte16-lt Endian.little v i = omega arith
byte16-lt Endian.big v i = omega arith

pub put16-IsBytes : (e : Endian) (p : Packet) (i v : ℕ) → IsBytes p → IsBytes (put16 e p i v)
put16-IsBytes e p i v b =
    put8-IsBytes (put8 p i (byte16 e v 0)) (i + 1) (byte16 e v 1)
      (put8-IsBytes p i (byte16 e v 0) b (byte16-lt e v 0)) (byte16-lt e v 1)

-- The whole function: it writes one word, the folded sum of the header with `check` at zero.
pub update_ip_csum_lem :
    (e : Endian) (p : Packet) (iph : ℕ)
    → IsBytes p
    → iph + 20 ≤ p.len
    → update_ip_csum e p iph
      ≡ some
          (put16 e (cleared e p iph) (iph + 10) (fold_csum (words_sum e (cleared e p iph) 10 iph)))
unfolding update_ip_csum
update_ip_csum_lem e p iph b h = rw (
  store16-eq e p (iph + 10) 0 (omega arith),
  sum_words-eq e (cleared e p iph) 10 iph 0 (omega arith) (put16-IsBytes e p (iph + 10) 0 b)
      (omega arith),
  zero-add,
  store16-eq e (cleared e p iph) (iph + 10) (fold_csum (words_sum e (cleared e p iph) 10 iph))
      (omega arith),
)

-- Reading back words: the one that was written, and the others.
pub word_at-put16_self :
    (e : Endian) (p : Packet) (i v : ℕ) → v < 65536 → word_at e (put16 e p i v) i ≡ v
word_at-put16_self Endian.little p i v h = ground arith
word_at-put16_self Endian.big p i v h = ground arith

pub byte-put16_ne :
    (e : Endian) (p : Packet) (i v j : ℕ)
    → (j < i) ⊎ (i + 1 < j)
    → (put16 e p i v).byte j ≡ p.byte j
byte-put16_ne e p i v j h = ground arith

two_on : (at n : ℕ) → at + 2 + 2 * n ≡ at + 2 * suc n
two_on at n = omega arith

pub words_sum-split :
    (e : Endian) (p : Packet) (n m at : ℕ)
    → words_sum e p (n + m) at ≡ words_sum e p n at + words_sum e p m (at + 2 * n)
unfolding words_sum
words_sum-split e p zero m at = rw (zero-add, zero-add) (ap (words_sum e p m) (omega arith))
words_sum-split e p (suc n) m at =
    rw (add.suc n m, words_sum-split e p n m (at + 2)) (rw (two_on at n) (omega arith))

pub words_sum-put16 :
    (e : Endian) (p : Packet) (i v n at : ℕ)
    → (at + 2 * n ≤ i) ⊎ (i + 2 ≤ at)
    → words_sum e (put16 e p i v) n at ≡ words_sum e p n at
unfolding words_sum
words_sum-put16 e p i v zero at h = refl
words_sum-put16 e p i v (suc n) at h =
    ap₂ ◌+◌
      (ap₂ (word16 e) (byte-put16_ne e p i v at (omega arith))
        (byte-put16_ne e p i v (at + 1) (omega arith)))
      (words_sum-put16 e p i v n (at + 2) (omega arith))

-- Without any bound on the bytes: the loop reads inside the header and returns.
sum_words_total :
    (e : Endian) (p : Packet) (left at csum : ℕ)
    → at + 2 * left ≤ p.len
    → (s : ℕ) × (sum_words e p left at csum ≡ some s)
unfolding sum_words
sum_words_total e p zero at csum h = (csum, refl)
sum_words_total e p (suc left) at csum h =
    rw (load16-eq e p at (omega arith))
      (sum_words_total e p left (at + 2) ((csum + word_at e p at) % 2 ^ 32) (omega arith))

pub update_ip_csum_total :
    (e : Endian) (p : Packet) (iph : ℕ)
    → iph + 20 ≤ p.len
    → (q : Packet) × (update_ip_csum e p iph ≡ some q) × (q.len ≡ p.len)
unfolding update_ip_csum
update_ip_csum_total e p iph h =
    let (s, eq) = sum_words_total e (cleared e p iph) 10 iph 0 (omega arith) in
    (
      put16 e (cleared e p iph) (iph + 10) (fold_csum s),
      rw (
        store16-eq e p (iph + 10) 0 (omega arith),
        eq,
        store16-eq e (cleared e p iph) (iph + 10) (fold_csum s) (omega arith),
      ),
      refl,
    )
