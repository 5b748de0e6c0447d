-- ===== src/Pool/Tables.antt =====
-- The tables that a run of `Sync` in userspace/discovery/pool.go leaves, read entry by entry.
use mathlib.Core.Option
use native.Mathlib.Decide.{dec_lt}
use native.Mathlib.Nat.{add-zero, zero-add}
use container_lb.Base.{
  inl, inr, none, Bool, true, false, ltb, Option-cases, ℕ, zero, suc, ◌+◌, ◌<◌, ◌≤◌, ◌≡◌, ◌∙◌, ap,
  sym, refl, ◌⊎◌, Option, some, arith, List, [], ◌∷◌, map,
}
use container_lb.Base.Lists.{
  length, get_elem?, drop, drop-nil, length-drop, get_elem?-lt, get_elem?-in,
}
use container_lb.Base.Tables.{put_at, drop_at}
use container_lb.Packet.{Endian}
use container_lb.Types.{BackendInfo}
use container_lb.Manager.{empty_backend}
use container_lb.Pool.{Backend}
use container_lb.Pool.Reverse.{rev_sync}
use container_lb.Pool.Updater.{entry, key}
use container_lb.Pool.Rounds.{fwd_write, rev_write, fwd_clear, rev_clear}

put_at_self : (i : ℕ) (v : BackendInfo) (t : ℕ → Option BackendInfo) → put_at i v t i ≡ some v
put_at_self i v t = ground arith

one_on : (i j : ℕ) → i + suc j ≡ i + 1 + j
one_on i j = omega arith

module _ (e : Endian) where
  pub fwd_write-out :
      (i : ℕ) (bs : List Backend) (fwd : ℕ → Option BackendInfo) (j : ℕ)
      → (j < i) ⊎ (i + length bs ≤ j)
      → fwd_write e i bs fwd j ≡ fwd j
  unfolding fwd_write
  fwd_write-out i [] fwd j h = refl
  fwd_write-out i (x ∷ bs) fwd j h =
      fwd_write-out (i + 1) bs (put_at i (entry e x) fwd) j (omega arith) ∙ ground arith

  pub fwd_write-in :
      (i : ℕ) (bs : List Backend) (fwd : ℕ → Option BackendInfo) (j : ℕ) (b : Backend)
      → get_elem? bs j ≡ some b
      → fwd_write e i bs fwd (i + j) ≡ some (entry e b)
  unfolding fwd_write
  fwd_write-in i [] fwd j b h = absurd (cc h)
  fwd_write-in i (x ∷ bs) fwd zero b h = rw (add-zero i) (
      fwd_write-out (i + 1) bs (put_at i (entry e x) fwd) i (omega arith)
      ∙ put_at_self i (entry e x) fwd
      ∙ ap (Option.map (entry e)) h)
  fwd_write-in i (x ∷ bs) fwd (suc j) b h =
      ap (fwd_write e (i + 1) bs (put_at i (entry e x) fwd)) (one_on i j)
      ∙ fwd_write-in (i + 1) bs (put_at i (entry e x) fwd) j b h

  -- The two loops together are the rounds of `rev_sync`.
  pub rev_sync-loops :
      (os bs : List Backend) (i : ℕ) (rev : ℕ → Option ℕ)
      → rev_clear e (drop (length bs) os) (rev_write e os bs i rev)
        ≡ rev_sync (map (key e) os) (map (key e) bs) i rev
  unfolding rev_clear rev_write rev_sync
  rev_sync-loops [] [] i rev = refl
  rev_sync-loops (o ∷ os) [] i rev = rev_sync-loops os [] (i + 1) (drop_at (key e o) rev)
  rev_sync-loops [] (b ∷ bs) i rev =
      ap (λ l. rev_clear e l (rev_write e [] bs (i + 1) (put_at (key e b) i rev)))
        (sym (drop-nil (length bs)))
      ∙ rev_sync-loops [] bs (i + 1) (put_at (key e b) i rev)
  rev_sync-loops (o ∷ os) (b ∷ bs) i rev =
      rev_sync-loops os bs (i + 1) (put_at (key e b) i (drop_at (key e o) rev))

pub fwd_clear-out :
    (i : ℕ) (os : List Backend) (fwd : ℕ → Option BackendInfo) (j : ℕ)
    → (j < i) ⊎ (i + length os ≤ j)
    → fwd_clear i os fwd j ≡ fwd j
unfolding fwd_clear
fwd_clear-out i [] fwd j h = refl
fwd_clear-out i (o ∷ os) fwd j h =
    fwd_clear-out (i + 1) os (put_at i empty_backend fwd) j (omega arith) ∙ ground arith

pub fwd_clear-in :
    (i : ℕ) (os : List Backend) (fwd : ℕ → Option BackendInfo) (j : ℕ)
    → i ≤ j
    → j < i + length os
    → fwd_clear i os fwd j ≡ some empty_backend
unfolding fwd_clear
fwd_clear-in i [] fwd j lo hi = absurd (omega arith)
fwd_clear-in i (o ∷ os) fwd j lo hi = elim (dec_lt i j) [
  | yes later ↦ fwd_clear-in (i + 1) os (put_at i empty_backend fwd) j (omega arith) (omega arith)
  | no first ↦ fwd_clear-out (i + 1) os (put_at i empty_backend fwd) j (omega arith) ∙ ground arith
]

-- The entry of a new backend, or an empty one where an old backend was, or the one from before.
abbrev pub slot : Endian → Option Backend → Bool → Option BackendInfo → Option BackendInfo
slot e (some b) was_used before = some (entry e b)
slot e none true before = some empty_backend
slot e none false before = before

-- The two loops leave the slots so.
pub fwd_loops :
    (e : Endian) (old new : List Backend) (fwd : ℕ → Option BackendInfo) (j : ℕ)
    → fwd_clear (length new) (drop (length new) old) (fwd_write e 0 new fwd) j
      ≡ slot e (get_elem? new j) (ltb j (length old)) (fwd j)
fwd_loops e old new fwd j = elim (Option-cases (get_elem? new j)) [
  | inl out ↦ rw out (elim (dec_lt j (length old)) [
    | yes used ↦
        fwd_clear-in (length new) (drop (length new) old) (fwd_write e 0 new fwd) j (past j out)
          (omega (arith, length-drop (length new) old))
        ∙ ground arith
    | no unused ↦
        fwd_clear-out (length new) (drop (length new) old) (fwd_write e 0 new fwd) j
          (omega (arith, length-drop (length new) old, past j out))
        ∙ fwd_write-out e 0 new fwd j (omega (arith, past j out))
        ∙ ground arith
  ])
  | inr (b, at) ↦ rw at (
      fwd_clear-out (length new) (drop (length new) old) (fwd_write e 0 new fwd) j
        (inl (get_elem?-lt new j at))
      ∙ ap (fwd_write e 0 new fwd) (sym (zero-add j))
      ∙ fwd_write-in e 0 new fwd j b at)
]
  where
    past : (j : ℕ) → get_elem? new j ≡ none → length new ≤ j
    past j out = elim (dec_lt j (length new)) [
      | yes inside ↦ let (b, at) = get_elem?-in new j inside in absurd (cc (rw out at at))
      | no outside ↦ omega arith
    ]
