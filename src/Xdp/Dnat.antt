-- ===== src/Xdp/Dnat.antt =====
-- What `dnat` makes of a frame: the two addresses, the destination IP and the checksum change,
-- and no other byte.
use container_lb.Base.{
  ℕ, zero, suc, ◌+◌, ◌≤◌, ◌<◌, ◌≡◌, ◌↔◌, ◌∙◌, ap, ◌⊎◌, refl, some, lt→ltb, arith,
}
use container_lb.Types.{EthAddr, mac_at, BackendInfo, LbConfig}
use container_lb.Packet.{Packet, Endian, word32, byte32, load32, u32_at, store8, store32, put8}
use container_lb.Checksum.{update_ip_csum}
use container_lb.Checksum.Rewrite.{IsBytes, update_ip_csum_total, put8-IsBytes}
use container_lb.Checksum.Rfc1071.{
  Verifies, ones_sum, ones_sum-ext, IsRefreshed, update_ip_csum-IsRefreshed,
}
use container_lb.Maps.{Kernel}
use container_lb.Xdp.{rewrite_macs, dnat}

pub store8-eq : (p : Packet) (i v : ℕ) → i < p.len → store8 p i v ≡ some (put8 p i v)
store8-eq p i v h = rw (lt→ltb i p.len h)

-- The two loops without their tests of bounds.
pub put_macs : EthAddr → EthAddr → ℕ → ℕ → Packet → Packet
put_macs mac src zero i p = p
put_macs mac src (suc left) i p =
    put_macs mac src left (i + 1) (put8 (put8 p (0 + i) (mac_at mac i)) (6 + i) (mac_at src i))

rewrite_macs-eq :
    (mac src : EthAddr) (left i : ℕ) (p : Packet)
    → i + left ≤ 6
    → 12 ≤ p.len
    → rewrite_macs mac src left i p ≡ some (put_macs mac src left i p)
unfolding rewrite_macs put_macs
rewrite_macs-eq mac src zero i p h room = refl
rewrite_macs-eq mac src (suc left) i p h room =
    rw
      (
        store8-eq p (0 + i) (mac_at mac i) (omega arith),
        store8-eq (put8 p (0 + i) (mac_at mac i)) (6 + i) (mac_at src i) (omega arith),
      )
      (rewrite_macs-eq mac src left (i + 1)
        (put8 (put8 p (0 + i) (mac_at mac i)) (6 + i) (mac_at src i)) (omega arith) room)

unfoldable pub put32 : Endian → Packet → ℕ → ℕ → Packet
put32 e p i v =
    put8 (put8 (put8 (put8 p i (byte32 e v 0)) (i + 1) (byte32 e v 1)) (i + 2) (byte32 e v 2))
      (i + 3) (byte32 e v 3)

pub store32-eq :
    (e : Endian) (p : Packet) (i v : ℕ) → i + 3 < p.len → store32 e p i v ≡ some (put32 e p i v)
unfolding put32
store32-eq e p i v h = rw (
  lt→ltb i p.len (omega arith),
  lt→ltb (i + 1) p.len (omega arith),
  lt→ltb (i + 2) p.len (omega arith),
  lt→ltb (i + 3) p.len h,
)

pub load32-eq :
    (e : Endian) (p : Packet) (i : ℕ) → i + 3 < p.len → load32 e p i ≡ some (u32_at e p i)
load32-eq e p i h = rw (
  lt→ltb i p.len (omega arith),
  lt→ltb (i + 1) p.len (omega arith),
  lt→ltb (i + 2) p.len (omega arith),
  lt→ltb (i + 3) p.len h,
)

-- A word that is stored reads back.
pub word32-byte32 :
    (e : Endian) (v : ℕ)
    → v < 4294967296
    → word32 e (byte32 e v 0) (byte32 e v 1) (byte32 e v 2) (byte32 e v 3) ≡ v
word32-byte32 Endian.little v h = omega arith
word32-byte32 Endian.big v h = omega arith

pub byte32-lt : (e : Endian) (v i : ℕ) → byte32 e v i < 256
byte32-lt Endian.little v i = omega arith
byte32-lt Endian.big v i = omega arith

pub put32-IsBytes : (e : Endian) (p : Packet) (i v : ℕ) → IsBytes p → IsBytes (put32 e p i v)
unfolding put32
put32-IsBytes e p i v b =
    let p1 = put8 p i (byte32 e v 0) in
    let p2 = put8 p1 (i + 1) (byte32 e v 1) in
    let p3 = put8 p2 (i + 2) (byte32 e v 2) in
    put8-IsBytes p3 (i + 3) (byte32 e v 3)
      (put8-IsBytes p2 (i + 2) (byte32 e v 2)
        (put8-IsBytes p1 (i + 1) (byte32 e v 1)
          (put8-IsBytes p i (byte32 e v 0) b (byte32-lt e v 0)) (byte32-lt e v 1))
        (byte32-lt e v 2))
      (byte32-lt e v 3)

abbrev pub IsMac : EthAddr → Type 0
IsMac m = (i : ℕ) → mac_at m i < 256

put_macs-IsBytes :
    (mac src : EthAddr) (left i : ℕ) (p : Packet)
    → IsMac mac
    → IsMac src
    → IsBytes p
    → IsBytes (put_macs mac src left i p)
unfolding put_macs
put_macs-IsBytes mac src zero i p hm hs b = b
put_macs-IsBytes mac src (suc left) i p hm hs b =
    put_macs-IsBytes mac src left (i + 1)
      (put8 (put8 p (0 + i) (mac_at mac i)) (6 + i) (mac_at src i)) hm hs
      (put8-IsBytes (put8 p (0 + i) (mac_at mac i)) (6 + i) (mac_at src i)
        (put8-IsBytes p (0 + i) (mac_at mac i) b (hm i)) (hs i))

-- `q` is the frame `p` rewritten for `backend`.
pub record IsDnat (e : Endian) (cfg : LbConfig) (backend : BackendInfo) (p q : Packet)
    : Type 0 where
  pub same_len : q.len ≡ p.len
  pub h_dest : (i : ℕ) → i < 6 → q.byte i ≡ mac_at backend.mac i
  pub h_source : (i : ℕ) → i < 6 → q.byte (6 + i) ≡ mac_at cfg.src_mac i
  pub daddr : load32 e q 30 ≡ some backend.ipv4
  pub verifies : Verifies e q 10 14
  pub verifies_options :
      (k : ℕ) → Verifies e q (10 + k) 14 ↔ ((ones_sum e p k 34 ≡ 0) ⊎ (ones_sum e p k 34 ≡ 65535))
  pub kept : (j : ℕ) → 12 ≤ j → (j < 24) ⊎ (25 < j) → (j < 30) ⊎ (33 < j) → q.byte j ≡ p.byte j

put_macs_len :
    (mac src : EthAddr) (left i : ℕ) (p : Packet) → (put_macs mac src left i p).len ≡ p.len
unfolding put_macs
put_macs_len mac src zero i p = refl
put_macs_len mac src (suc left) i p =
    put_macs_len mac src left (i + 1) (put8 (put8 p (0 + i) (mac_at mac i)) (6 + i) (mac_at src i))

module _ {C B H P : Type 0} (k : Kernel C B H P) (cfg : LbConfig) (backend : BackendInfo)
    (p : Packet) (room : 34 ≤ p.len) where
  -- The frame before the checksum is taken.
  addressed : Packet
  unfolding put_macs put32
  addressed = put32 k.endian (put_macs backend.mac cfg.src_mac 6 0 p) 30 backend.ipv4

  addressed_len : addressed.len ≡ p.len
  unfolding addressed
  addressed_len = refl

  dnat_enters : dnat k cfg backend p ≡ update_ip_csum k.endian addressed 14
  unfolding dnat addressed
  dnat_enters = rw (
    rewrite_macs-eq backend.mac cfg.src_mac 6 0 p (omega arith) (omega arith),
    store32-eq k.endian (put_macs backend.mac cfg.src_mac 6 0 p) 30 backend.ipv4
        (omega (arith, put_macs_len backend.mac cfg.src_mac 6 0 p)),
  )

  -- The rewrite returns, whatever the maps and the frame hold.
  pub dnat_total : (q : Packet) × (dnat k cfg backend p ≡ some q) × (q.len ≡ p.len)
  unfolding addressed
  dnat_total = rw dnat_enters (update_ip_csum_total k.endian addressed 14 room)

  addressed_dest : (i : ℕ) → i < 6 → addressed.byte i ≡ mac_at backend.mac i
  unfolding addressed
  addressed_dest zero h = refl
  addressed_dest (suc zero) h = refl
  addressed_dest (suc (suc zero)) h = refl
  addressed_dest (suc (suc (suc zero))) h = refl
  addressed_dest (suc (suc (suc (suc zero)))) h = refl
  addressed_dest (suc (suc (suc (suc (suc zero))))) h = refl
  addressed_dest (suc (suc (suc (suc (suc (suc i)))))) h = absurd (omega arith)

  addressed_source : (i : ℕ) → i < 6 → addressed.byte (6 + i) ≡ mac_at cfg.src_mac i
  unfolding addressed
  addressed_source zero h = refl
  addressed_source (suc zero) h = refl
  addressed_source (suc (suc zero)) h = refl
  addressed_source (suc (suc (suc zero))) h = refl
  addressed_source (suc (suc (suc (suc zero)))) h = refl
  addressed_source (suc (suc (suc (suc (suc zero))))) h = refl
  addressed_source (suc (suc (suc (suc (suc (suc i)))))) h = absurd (omega arith)

  addressed_kept : (j : ℕ) → 12 ≤ j → (j < 30) ⊎ (33 < j) → addressed.byte j ≡ p.byte j
  unfolding addressed
  addressed_kept j h out = ground arith

  module _ (b : IsBytes p) (hm : IsMac backend.mac) (hs : IsMac cfg.src_mac)
      (hi : backend.ipv4 < 4294967296) where
    addressed-IsBytes : IsBytes addressed
    unfolding addressed
    addressed-IsBytes =
        put32-IsBytes k.endian (put_macs backend.mac cfg.src_mac 6 0 p) 30 backend.ipv4
          (put_macs-IsBytes backend.mac cfg.src_mac 6 0 p hm hs b)

    refreshed-IsDnat :
        (q : Packet) → IsRefreshed k.endian addressed 14 q → IsDnat k.endian cfg backend p q
    unfolding addressed
    refreshed-IsDnat q r = record {
      same_len = r.same_len;
      h_dest = λ i h. r.kept i (omega arith) ∙ addressed_dest i h;
      h_source = λ i h. r.kept (6 + i) (omega arith) ∙ addressed_source i h;
      daddr =
          rw
            (
              load32-eq k.endian q 30 (rw r.same_len (omega arith)),
              r.kept 30 (omega arith),
              r.kept 31 (omega arith),
              r.kept 32 (omega arith),
              r.kept 33 (omega arith),
            )
            (ap some (word32-byte32 k.endian backend.ipv4 hi));
      verifies = r.verifies;
      verifies_options = λ n. rw (← options n) (r.verifies_options n);
      kept = λ j h c d. r.kept j (omega arith) ∙ addressed_kept j h (omega arith);
    }
      where
        options : (n : ℕ) → ones_sum k.endian addressed n 34 ≡ ones_sum k.endian p n 34
        options n =
            ones_sum-ext k.endian p addressed n 34
              (λ j h. addressed_kept j (omega arith) (omega arith))

    pub dnat-IsDnat :
        (q : Packet) × (dnat k cfg backend p ≡ some q) × IsDnat k.endian cfg backend p q
    unfolding addressed
    dnat-IsDnat =
        let (q, eq, r) = update_ip_csum-IsRefreshed k.endian addressed 14 addressed-IsBytes room in
        (q, dnat_enters ∙ eq, refreshed-IsDnat q r)
