-- ===== src/Tests/World.antt =====
-- A world with two kinds of things that are opened and closed, by numbers: namespaces and handles,
-- or links and collections of objects.
use container_lb.Base.{
  ℕ, suc, ◌<◌, ◌≡◌, ◌≢◌, ◌⊎◌, inl, inr, ap, Bool, true, false, Bool-cases, ◌==◌, ==_iff,
  if◌then◌else◌, arith,
}
use container_lb.Go.Resources.{IsOpened, IsClosed}

pub record World : Type 0 where
  pub next : ℕ
  pub left : ℕ → Bool
  pub right : ℕ → Bool

abbrev pub empty : World
empty = record { next = 0; left = λ i. false; right = λ i. false }

abbrev pub IsOpen : World → ℕ ⊎ ℕ → Type 0
IsOpen w (inl i) = (i < w.next) × (w.left i ≡ true)
IsOpen w (inr i) = (i < w.next) × (w.right i ≡ true)

abbrev pub set : ℕ → Bool → (ℕ → Bool) → ℕ → Bool
set i b f j = if j == i then b else f j

-- A new number, on one of the two sides.
abbrev pub open_left : World → World
open_left w = record {
  next = suc w.next;
  left = set w.next true w.left;
  right = set w.next false w.right;
}

abbrev pub open_right : World → World
open_right w = record {
  next = suc w.next;
  left = set w.next false w.left;
  right = set w.next true w.right;
}

abbrev pub close_left : ℕ → World → World
close_left i w = record w { left = set i false w.left }

abbrev pub close_right : ℕ → World → World
close_right i w = record w { right = set i false w.right }

-- A side on which the new number is closed, and one on which it is open.
still_closed :
    (i n : ℕ) (f : ℕ → Bool) → (i < suc n) × (set n false f i ≡ true) → (i < n) × (f i ≡ true)
still_closed i n f h = (ground (arith, h.0, h.1), ground (arith, h.1))

one_more :
    (i n : ℕ) (f : ℕ → Bool)
    → (i < suc n) × (set n true f i ≡ true)
    → (i ≡ n) ⊎ ((i < n) × (f i ≡ true))
one_more i n f h = elim (Bool-cases (i == n)) [
  | inl same ↦ inl ((==_iff i n).0 same)
  | inr other ↦ inr (ground (arith, h.0, other), rw other at h.1)
]

kept :
    (i n : ℕ) (b : Bool) (f : ℕ → Bool)
    → (i < n) × (f i ≡ true)
    → (i < suc n) × (set n b f i ≡ true)
kept i n b f h = (omega (arith, h.0), ground (arith, h.0, h.1))

set_same : (i : ℕ) (b : Bool) (f : ℕ → Bool) → set i b f i ≡ b
set_same i b f = ground arith

below_itself : (n : ℕ) (f : ℕ → Bool) → (n < n) × (f n ≡ true) → ⊥
below_itself n f h = omega (arith, h.0)

pub open_left-IsOpened : (w : World) → IsOpened IsOpen (inl w.next) w (open_left w)
open_left-IsOpened w = record {
  fresh = below_itself w.next w.left;
  now = (omega arith, set_same w.next true w.left);
  only = only;
  keeps = keeps;
}
  where
    only : (x : ℕ ⊎ ℕ) → IsOpen (open_left w) x → (x ≡ inl w.next) ⊎ IsOpen w x
    only (inl i) h = elim (one_more i w.next w.left h) [ inl e ↦ inl (ap inl e) | inr o ↦ inr o ]
    only (inr i) h = inr (still_closed i w.next w.right h)

    keeps : (x : ℕ ⊎ ℕ) → IsOpen w x → IsOpen (open_left w) x
    keeps (inl i) h = kept i w.next true w.left h
    keeps (inr i) h = kept i w.next false w.right h

pub open_right-IsOpened : (w : World) → IsOpened IsOpen (inr w.next) w (open_right w)
open_right-IsOpened w = record {
  fresh = below_itself w.next w.right;
  now = (omega arith, set_same w.next true w.right);
  only = only;
  keeps = keeps;
}
  where
    only : (x : ℕ ⊎ ℕ) → IsOpen (open_right w) x → (x ≡ inr w.next) ⊎ IsOpen w x
    only (inl i) h = inr (still_closed i w.next w.left h)
    only (inr i) h = elim (one_more i w.next w.right h) [ inl e ↦ inl (ap inr e) | inr o ↦ inr o ]

    keeps : (x : ℕ ⊎ ℕ) → IsOpen w x → IsOpen (open_right w) x
    keeps (inl i) h = kept i w.next false w.left h
    keeps (inr i) h = kept i w.next true w.right h

closed_gone : (i : ℕ) (f : ℕ → Bool) → set i false f i ≡ true → ⊥
closed_gone i f h = ground (arith, h)

closed_only : (i j : ℕ) (f : ℕ → Bool) → set i false f j ≡ true → f j ≡ true
closed_only i j f h = ground (arith, h)

closed_keeps : (i j : ℕ) (f : ℕ → Bool) → j ≢ i → f j ≡ true → set i false f j ≡ true
closed_keeps i j f o h = ground (arith, o, h)

pub close_left-IsClosed : (i : ℕ) (w : World) → IsClosed IsOpen (inl i) w (close_left i w)
close_left-IsClosed i w = record {
  gone = λ h. closed_gone i w.left h.1;
  only = only;
  keeps = keeps;
}
  where
    only : (x : ℕ ⊎ ℕ) → IsOpen (close_left i w) x → IsOpen w x
    only (inl j) h = (h.0, closed_only i j w.left h.1)
    only (inr j) h = h

    keeps : (x : ℕ ⊎ ℕ) → x ≢ inl i → IsOpen w x → IsOpen (close_left i w) x
    keeps (inl j) o h = (h.0, closed_keeps i j w.left (λ e. o (ap inl e)) h.1)
    keeps (inr j) o h = h

pub close_right-IsClosed : (i : ℕ) (w : World) → IsClosed IsOpen (inr i) w (close_right i w)
close_right-IsClosed i w = record {
  gone = λ h. closed_gone i w.right h.1;
  only = only;
  keeps = keeps;
}
  where
    only : (x : ℕ ⊎ ℕ) → IsOpen (close_right i w) x → IsOpen w x
    only (inl j) h = h
    only (inr j) h = (h.0, closed_only i j w.right h.1)

    keeps : (x : ℕ ⊎ ℕ) → x ≢ inr i → IsOpen w x → IsOpen (close_right i w) x
    keeps (inl j) o h = h
    keeps (inr j) o h = (h.0, closed_keeps i j w.right (λ e. o (ap inr e)) h.1)
