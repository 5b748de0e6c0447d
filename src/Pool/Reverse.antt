-- ===== src/Pool/Reverse.antt =====
-- What one run of `Sync` in userspace/discovery/pool.go does to `backend_ips_map`, as a function of
-- the addresses of the old and of the new backends, in the order of their indexes.
use container_lb.Base.{
  ℕ, zero, suc, ◌+◌, ◌≤◌, ◌≡◌, ◌≢◌, ◌∙◌, sym, ◌⊎◌, inl, inr, refl, ap, Option, none, some, List, [],
  ◌∷◌, ◌==◌, ne→==, false, arith,
}
use container_lb.Base.Lists.{get_elem?}
use container_lb.Base.Tables.{put_at, drop_at}

-- In round `i` of the loops the old address leaves the map, and the new one enters it.
unfoldable pub rev_sync : List ℕ → List ℕ → ℕ → (ℕ → Option ℕ) → ℕ → Option ℕ
rev_sync [] [] i rev = rev
rev_sync (o ∷ os) [] i rev = rev_sync os [] (i + 1) (drop_at o rev)
rev_sync [] (n ∷ ns) i rev = rev_sync [] ns (i + 1) (put_at n i rev)
rev_sync (o ∷ os) (n ∷ ns) i rev = rev_sync os ns (i + 1) (put_at n i (drop_at o rev))

-- `x` does not stand in the list from index `from` on.
abbrev pub IsAbsent : ℕ → ℕ → List ℕ → Type 0
IsAbsent x from l = (i : ℕ) → from ≤ i → get_elem? l i ≢ some x

abbrev pub IsDistinct : List ℕ → Type 0
IsDistinct l = (x i j : ℕ) → get_elem? l i ≡ some x → get_elem? l j ≡ some x → i ≡ j

-- The tail of a list, from which an address is absent from an index on.
IsAbsent-tail : (x y from : ℕ) (l : List ℕ) → IsAbsent x (suc from) (y ∷ l) → IsAbsent x from l
IsAbsent-tail x y from l h i le = h (suc i) (omega arith)

IsAbsent-tail_all : (x y : ℕ) (l : List ℕ) → IsAbsent x 0 (y ∷ l) → IsAbsent x 0 l
IsAbsent-tail_all x y l h i le = h (suc i) (omega arith)

IsAbsent-nil : (x from : ℕ) → IsAbsent x from []
IsAbsent-nil x from i le = λ e. cc

put_at_self : (x n i : ℕ) (rev : ℕ → Option ℕ) → some n ≡ some x → put_at n i rev x ≡ some (i + 0)
put_at_self x n i rev e = ground arith

IsAbsent-head : (x y : ℕ) (l : List ℕ) → IsAbsent x 0 (y ∷ l) → (x == y) ≡ false
IsAbsent-head x y l h = ne→== x y (λ e. h 0 (omega arith) (ap some (sym e)))

-- An address of neither list keeps its entry.
rev_sync-untouched :
    (old new : List ℕ) (i : ℕ) (rev : ℕ → Option ℕ) (x : ℕ)
    → IsAbsent x 0 old
    → IsAbsent x 0 new
    → rev_sync old new i rev x ≡ rev x
unfolding rev_sync
rev_sync-untouched [] [] i rev x ho hn = refl
rev_sync-untouched (o ∷ os) [] i rev x ho hn =
    rev_sync-untouched os [] (i + 1) (drop_at o rev) x (λ j le. ho (suc j) (omega arith)) hn
    ∙ rw (IsAbsent-head x o os ho)
rev_sync-untouched [] (n ∷ ns) i rev x ho hn =
    rev_sync-untouched [] ns (i + 1) (put_at n i rev) x ho (λ j le. hn (suc j) (omega arith))
    ∙ rw (IsAbsent-head x n ns hn)
rev_sync-untouched (o ∷ os) (n ∷ ns) i rev x ho hn =
    rev_sync-untouched os ns (i + 1) (put_at n i (drop_at o rev)) x
      (λ j le. ho (suc j) (omega arith)) (λ j le. hn (suc j) (omega arith))
    ∙ rw (IsAbsent-head x n ns hn, IsAbsent-head x o os ho)

-- Without a later round that takes its address out or puts it in again, an entry stays.
pub rev_sync-put :
    (old new : List ℕ) (i : ℕ) (rev : ℕ → Option ℕ) (x j : ℕ)
    → get_elem? new j ≡ some x
    → IsAbsent x (suc j) old
    → IsAbsent x (suc j) new
    → rev_sync old new i rev x ≡ some (i + j)
unfolding rev_sync
rev_sync-put old [] i rev x j at ho hn = cc
rev_sync-put [] (n ∷ ns) i rev x zero at ho hn =
    rev_sync-untouched [] ns (i + 1) (put_at n i rev) x (IsAbsent-nil x 0)
      (IsAbsent-tail x n 0 ns hn)
    ∙ put_at_self x n i rev at
rev_sync-put (o ∷ os) (n ∷ ns) i rev x zero at ho hn =
    rev_sync-untouched os ns (i + 1) (put_at n i (drop_at o rev)) x (IsAbsent-tail x o 0 os ho)
      (IsAbsent-tail x n 0 ns hn)
    ∙ put_at_self x n i (drop_at o rev) at
rev_sync-put [] (n ∷ ns) i rev x (suc j) at ho hn =
    rev_sync-put [] ns (i + 1) (put_at n i rev) x j at (IsAbsent-nil x (suc j))
      (IsAbsent-tail x n (suc j) ns hn)
    ∙ ap some (omega arith)
rev_sync-put (o ∷ os) (n ∷ ns) i rev x (suc j) at ho hn =
    rev_sync-put os ns (i + 1) (put_at n i (drop_at o rev)) x j at (IsAbsent-tail x o (suc j) os ho)
      (IsAbsent-tail x n (suc j) ns hn)
    ∙ ap some (omega arith)

-- An address that is not there comes in only by a round that puts it in.
rev_sync-none :
    (old new : List ℕ) (i : ℕ) (rev : ℕ → Option ℕ) (x : ℕ)
    → rev x ≡ none
    → IsAbsent x 0 new
    → rev_sync old new i rev x ≡ none
unfolding rev_sync
rev_sync-none [] [] i rev x h hn = h
rev_sync-none (o ∷ os) [] i rev x h hn =
    rev_sync-none os [] (i + 1) (drop_at o rev) x (ground arith) hn
rev_sync-none [] (n ∷ ns) i rev x h hn =
    rev_sync-none [] ns (i + 1) (put_at n i rev) x (rw (IsAbsent-head x n ns hn) h)
      (IsAbsent-tail_all x n ns hn)
rev_sync-none (o ∷ os) (n ∷ ns) i rev x h hn =
    rev_sync-none os ns (i + 1) (put_at n i (drop_at o rev)) x
      (rw (IsAbsent-head x n ns hn) (ground arith)) (IsAbsent-tail_all x n ns hn)

dropped : (x o : ℕ) (rev : ℕ → Option ℕ) → some o ≡ some x → drop_at o rev x ≡ none
dropped x o rev e = ground arith

drop_at-source :
    (x o m : ℕ) (rev : ℕ → Option ℕ) → drop_at o rev x ≡ some m → (x ≢ o) × (rev x ≡ some m)
drop_at-source x o m rev h = ground arith

put_at-source :
    (x n i m : ℕ) (rev : ℕ → Option ℕ)
    → put_at n i rev x ≡ some m
    → ((m ≡ i + 0) × (some n ≡ some x)) ⊎ (rev x ≡ some m)
put_at-source x n i m rev h = ground arith

IsAbsent-cons : (x o : ℕ) (l : List ℕ) → x ≢ o → IsAbsent x 0 l → IsAbsent x 0 (o ∷ l)
IsAbsent-cons x o l ne h zero le = λ e. ne (ground arith)
IsAbsent-cons x o l ne h (suc i) le = h i (omega arith)

-- An address that a round takes out, and that no round from there on puts in, is gone.
pub rev_sync-drop :
    (old new : List ℕ) (i : ℕ) (rev : ℕ → Option ℕ) (x d : ℕ)
    → get_elem? old d ≡ some x
    → IsAbsent x d new
    → rev_sync old new i rev x ≡ none
unfolding rev_sync
rev_sync-drop [] new i rev x d at hn = cc
rev_sync-drop (o ∷ os) [] i rev x zero at hn =
    rev_sync-none os [] (i + 1) (drop_at o rev) x (dropped x o rev at) hn
rev_sync-drop (o ∷ os) (n ∷ ns) i rev x zero at hn =
    rev_sync-none os ns (i + 1) (put_at n i (drop_at o rev)) x
      (rw (IsAbsent-head x n ns hn) (dropped x o rev at)) (IsAbsent-tail_all x n ns hn)
rev_sync-drop (o ∷ os) [] i rev x (suc d) at hn =
    rev_sync-drop os [] (i + 1) (drop_at o rev) x d at (IsAbsent-nil x d)
rev_sync-drop (o ∷ os) (n ∷ ns) i rev x (suc d) at hn =
    rev_sync-drop os ns (i + 1) (put_at n i (drop_at o rev)) x d at (IsAbsent-tail x n d ns hn)

-- What the map holds afterwards is new, or it was there before and no round touched it.
pub rev_sync-source :
    (old new : List ℕ) (i : ℕ) (rev : ℕ → Option ℕ) (x m : ℕ)
    → rev_sync old new i rev x ≡ some m
    → ((j : ℕ) × (m ≡ i + j) × (get_elem? new j ≡ some x)) ⊎ ((rev x ≡ some m) × IsAbsent x 0 old)
unfolding rev_sync
rev_sync-source [] [] i rev x m h = inr (h, IsAbsent-nil x 0)
rev_sync-source (o ∷ os) [] i rev x m h =
    elim (rev_sync-source os [] (i + 1) (drop_at o rev) x m h) [
      | inl (j, e, at) ↦ absurd (cc at)
      | inr (kept, absent) ↦
          let (ne, before) = drop_at-source x o m rev kept in
          inr (before, IsAbsent-cons x o os ne absent)
    ]
rev_sync-source [] (n ∷ ns) i rev x m h =
    elim (rev_sync-source [] ns (i + 1) (put_at n i rev) x m h) [
      | inl (j, e, at) ↦ inl (suc j, omega arith, at)
      | inr (kept, absent) ↦ elim (put_at-source x n i m rev kept) [
        | inl (e, at) ↦ inl (0, e, at)
        | inr before ↦ inr (before, IsAbsent-nil x 0)
      ]
    ]
rev_sync-source (o ∷ os) (n ∷ ns) i rev x m h =
    elim (rev_sync-source os ns (i + 1) (put_at n i (drop_at o rev)) x m h) [
      | inl (j, e, at) ↦ inl (suc j, omega arith, at)
      | inr (kept, absent) ↦ elim (put_at-source x n i m (drop_at o rev) kept) [
        | inl (e, at) ↦ inl (0, e, at)
        | inr before ↦
            let (ne, first) = drop_at-source x o m rev before in
            inr (first, IsAbsent-cons x o os ne absent)
      ]
    ]
