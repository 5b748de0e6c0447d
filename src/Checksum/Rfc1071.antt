-- ===== src/Checksum/Rfc1071.antt =====
-- The Internet checksum of RFC 1071, independent of the code, and that `update_ip_csum` meets it.
use mathlib.Core.Path.{ap₂}
use container_lb.Base.{
  ℕ, zero, suc, ◌+◌, ◌-◌, ◌*◌, ◌%◌, ◌≤◌, ◌<◌, ◌≡◌, ◌∙◌, refl, some, arith, ltb, if◌then◌else◌, ◌⊎◌,
  inl, ◌↔◌,
}
use container_lb.Packet.{Endian, Packet, word16}
use container_lb.Checksum.{fold_csum, update_ip_csum}
use container_lb.Checksum.Rewrite.{
  word_at, put16, words_sum, IsBytes, cleared, word_at-lt, words_sum-split, words_sum-put16,
  word_at-put16_self, byte-put16_ne, put16-IsBytes, update_ip_csum_lem,
}

-- One's complement addition of 16-bit words: a carry out of the top comes back in at the bottom.
abbrev pub ones_add : ℕ → ℕ → ℕ
ones_add a b = if ltb (a + b) 65536 then a + b else a + b - 65535

-- The one's complement sum of `n` words from `at` on.
unfoldable pub ones_sum : Endian → Packet → ℕ → ℕ → ℕ
ones_sum e p zero at = 0
ones_sum e p (suc n) at = ones_add (word_at e p at) (ones_sum e p n (at + 2))

-- What a receiver tests: the sum of all words of the header, `check` among them, is all ones.
abbrev pub Verifies : Endian → Packet → ℕ → ℕ → Type 0
Verifies e p n iph = ones_sum e p n iph ≡ 65535

-- `r` is the plain sum `s` folded to 16 bits.
pub record IsFolded (s r : ℕ) : Type 0 where
  pub below : r < 65536
  pub same : r % 65535 ≡ s % 65535
  pub zero_iff : (r ≡ 0) ↔ (s ≡ 0)

ones_add-IsFolded : (w s r : ℕ) → w < 65536 → IsFolded s r → IsFolded (w + s) (ones_add w r)
ones_add-IsFolded w s r h f = ground arith

ones_sum-IsFolded :
    (e : Endian) (p : Packet) (n at : ℕ)
    → IsBytes p
    → IsFolded (words_sum e p n at) (ones_sum e p n at)
unfolding words_sum ones_sum
ones_sum-IsFolded e p zero at b = ground arith
ones_sum-IsFolded e p (suc n) at b =
    ones_add-IsFolded (word_at e p at) (words_sum e p n (at + 2)) (ones_sum e p n (at + 2))
      (word_at-lt e p at b) (ones_sum-IsFolded e p n (at + 2) b)

-- Two folds are enough for 10 words: the complement makes the whole sum a multiple of 65535.
fold_csum_lem :
    (s : ℕ)
    → s < 655360
    → (fold_csum s < 65536) × ((fold_csum s + s) % 65535 ≡ 0) × (0 < fold_csum s + s)
unfolding fold_csum
fold_csum_lem s h = omega arith

pub words_sum-lt : (e : Endian) (p : Packet) (n at : ℕ) → IsBytes p → words_sum e p n at ≤ n * 65535
unfolding words_sum
words_sum-lt e p zero at b = omega arith
words_sum-lt e p (suc n) at b = omega (arith, word_at-lt e p at b, words_sum-lt e p n (at + 2) b)

module _ (e : Endian) (p : Packet) (iph : ℕ) (b : IsBytes p) where
  -- The header without its checksum, its sum, and the header that the function leaves.
  abbrev zeroed : Packet
  zeroed = cleared e p iph

  abbrev header_sum : ℕ
  header_sum = words_sum e zeroed 10 iph

  abbrev updated : Packet
  updated = put16 e zeroed (iph + 10) (fold_csum header_sum)

  update-updated : iph + 20 ≤ p.len → update_ip_csum e p iph ≡ some updated
  update-updated h = update_ip_csum_lem e p iph b h

  zeroed-IsBytes : IsBytes zeroed
  zeroed-IsBytes = put16-IsBytes e p (iph + 10) 0 b

  folded :
      (fold_csum header_sum < 65536)
      × ((fold_csum header_sum + header_sum) % 65535 ≡ 0)
      × (0 < fold_csum header_sum + header_sum)
  folded = fold_csum_lem header_sum (omega (arith, words_sum-lt e zeroed 10 iph zeroed-IsBytes))

  -- A write to `check` changes the sum of the header by that word alone.
  header_sum-put16 :
      (q : Packet) (v : ℕ)
      → v < 65536
      → words_sum e (put16 e q (iph + 10) v) 10 iph
        ≡ words_sum e q 5 iph + (v + words_sum e q 4 (iph + 10 + 2))
  unfolding words_sum
  header_sum-put16 q v h =
      words_sum-split e (put16 e q (iph + 10) v) 5 5 iph
      ∙ ap₂ ◌+◌ (words_sum-put16 e q (iph + 10) v 5 iph (omega arith)) (
          ap₂ ◌+◌ (word_at-put16_self e q (iph + 10) v h)
            (words_sum-put16 e q (iph + 10) v 4 (iph + 10 + 2) (omega arith)))

  updated_sum : words_sum e updated 10 iph ≡ fold_csum header_sum + header_sum
  updated_sum = omega (
    arith,
    header_sum-put16 p 0 (omega arith),
    header_sum-put16 zeroed (fold_csum header_sum) folded.0,
    words_sum-put16 e p (iph + 10) 0 5 iph (omega arith),
    words_sum-put16 e p (iph + 10) 0 4 (iph + 10 + 2) (omega arith),
  )

  options_sum : (k : ℕ) → words_sum e updated k (iph + 20) ≡ words_sum e p k (iph + 20)
  options_sum k =
      words_sum-put16 e zeroed (iph + 10) (fold_csum header_sum) k (iph + 20) (omega arith)
      ∙ words_sum-put16 e p (iph + 10) 0 k (iph + 20) (omega arith)

  whole_sum :
      (k : ℕ)
      → words_sum e updated (10 + k) iph
        ≡ fold_csum header_sum + header_sum + words_sum e p k (iph + 20)
  whole_sum k = words_sum-split e updated 10 k iph ∙ ap₂ ◌+◌ updated_sum (options_sum k)

  -- After the update the header verifies with `k` words of options exactly when the options alone
  -- sum to zero, in one of the two ways that one's complement writes it.
  updated-Verifies :
      (k : ℕ)
      → Verifies e updated (10 + k) iph
        ↔ ((ones_sum e p k (iph + 20) ≡ 0) ⊎ (ones_sum e p k (iph + 20) ≡ 65535))
  updated-Verifies k =
      let whole =
        ones_sum-IsFolded e updated (10 + k) iph
          (put16-IsBytes e zeroed (iph + 10) (fold_csum header_sum) zeroed-IsBytes) in
      let options = ones_sum-IsFolded e p k (iph + 20) b in
      ground (arith, whole, options, whole_sum k, folded)

-- The packet `q` is `p` with a new checksum in the header at `iph`.
pub record IsRefreshed (e : Endian) (p : Packet) (iph : ℕ) (q : Packet) : Type 0 where
  pub same_len : q.len ≡ p.len
  pub kept : (j : ℕ) → (j < iph + 10) ⊎ (iph + 11 < j) → q.byte j ≡ p.byte j
  pub verifies : Verifies e q 10 iph
  pub verifies_options :
      (k : ℕ)
      → Verifies e q (10 + k) iph
        ↔ ((ones_sum e p k (iph + 20) ≡ 0) ⊎ (ones_sum e p k (iph + 20) ≡ 65535))
  pub bytes : IsBytes q

-- For a header inside the packet `update_ip_csum` returns, changes no byte but the two of `check`,
-- and leaves a header of 20 bytes that verifies, whatever stood in `check` before. With `k` words
-- of IP options, which the sum leaves out, the header verifies exactly when the options by
-- themselves sum to zero in one's complement.
pub update_ip_csum-IsRefreshed :
    (e : Endian) (p : Packet) (iph : ℕ)
    → IsBytes p
    → iph + 20 ≤ p.len
    → (q : Packet) × (update_ip_csum e p iph ≡ some q) × IsRefreshed e p iph q
update_ip_csum-IsRefreshed e p iph b h = (
  updated e p iph b,
  update-updated e p iph b h,
  record {
    same_len = refl;
    kept = λ j out.
        byte-put16_ne e (zeroed e p iph b) (iph + 10) (fold_csum (header_sum e p iph b)) j
          (omega arith)
        ∙ byte-put16_ne e p (iph + 10) 0 j (omega arith);
    verifies = (updated-Verifies e p iph b 0).1 (inl (unfold ones_sum in refl));
    verifies_options = updated-Verifies e p iph b;
    bytes =
        put16-IsBytes e (zeroed e p iph b) (iph + 10) (fold_csum (header_sum e p iph b))
          (zeroed-IsBytes e p iph b);
  },
)

-- The sum reads the bytes from `at` on.
pub ones_sum-ext :
    (e : Endian) (p q : Packet) (n at : ℕ)
    → ((j : ℕ) → at ≤ j → q.byte j ≡ p.byte j)
    → ones_sum e q n at ≡ ones_sum e p n at
unfolding ones_sum
ones_sum-ext e p q zero at h = refl
ones_sum-ext e p q (suc n) at h =
    ap₂ ones_add (ap₂ (word16 e) (h at (omega arith)) (h (at + 1) (omega arith)))
      (ones_sum-ext e p q n (at + 2) (λ j le. h j (omega arith)))
