-- ===== src/Go/Resources.antt =====
-- What is open in the kernel, by identity: calls of Go packages that open something and give it
-- back, and calls that close it.
use container_lb.Base.{◌≡◌, ◌≢◌, ◌⊎◌, inl, inr, Option, none, some}
use container_lb.Go.Action.{Error}
use container_lb.Manager.{Result, ok, err}

-- `IsOpen w r` says that the resource `r` is open in the state `w`.
module _ {W R : Type 0} (IsOpen : W → R → Type 0) where
  -- The same is open in both states.
  pub record IsSame (w w' : W) : Type 0 where
    pub only : (x : R) → IsOpen w' x → IsOpen w x
    pub keeps : (x : R) → IsOpen w x → IsOpen w' x

  -- Nothing is open in `w'` that was not open in `w`.
  pub record IsWithin (w w' : W) : Type 0 where
    pub only : (x : R) → IsOpen w' x → IsOpen w x

  -- `r`, which was not open, is open now, and nothing else has changed.
  pub record IsOpened (r : R) (w w' : W) : Type 0 where
    pub fresh : IsOpen w r → ⊥
    pub now : IsOpen w' r
    pub only : (x : R) → IsOpen w' x → (x ≡ r) ⊎ IsOpen w x
    pub keeps : (x : R) → IsOpen w x → IsOpen w' x

  -- `r` is closed, and nothing else has changed.
  pub record IsClosed (r : R) (w w' : W) : Type 0 where
    pub gone : IsOpen w' r → ⊥
    pub only : (x : R) → IsOpen w' x → IsOpen w x
    pub keeps : (x : R) → x ≢ r → IsOpen w x → IsOpen w' x

  -- A call that opens what it returns, and nothing where it fails.
  abbrev pub Opens : {A : Type 0} → (A → R) → Result A → W → W → Type 0
  Opens f (ok a) w w' = IsOpened (f a) w w'
  Opens f (err e) w w' = IsSame w w'

  -- A call that closes `r`, or nothing where it fails.
  abbrev pub Closes : Option Error → R → W → W → Type 0
  Closes none r w w' = IsClosed r w w'
  Closes (some e) r w w' = IsSame w w'

  pub IsSame-refl : (w : W) → IsSame w w
  IsSame-refl w = record { only = λ x h. h; keeps = λ x h. h }

  pub IsSame-trans : {u v w : W} → IsSame u v → IsSame v w → IsSame u w
  IsSame-trans a b = record {
    only = λ x h. a.only x (b.only x h);
    keeps = λ x h. b.keeps x (a.keeps x h);
  }

  IsOpened-after : {u v w : W} {r : R} → IsSame u v → IsOpened r v w → IsOpened r u w
  IsOpened-after s o = record {
    fresh = λ h. o.fresh (s.keeps _ h);
    now = o.now;
    only = λ x h. elim (o.only x h) [ inl e ↦ inl e | inr before ↦ inr (s.only x before) ];
    keeps = λ x h. o.keeps x (s.keeps x h);
  }

  pub Opens-after :
      {A : Type 0} (f : A → R) (r : Result A) (u v w : W)
      → IsSame u v
      → Opens f r v w
      → Opens f r u w
  Opens-after f (ok a) u v w s o = IsOpened-after s o
  Opens-after f (err e) u v w s o = IsSame-trans s o

  -- What is opened, used and closed again leaves nothing behind, and closes nothing else.
  pub bracket : {t u v w : W} {r : R} → IsOpened r t u → IsSame u v → IsClosed r v w → IsSame t w
  bracket o s c = record {
    only = λ x h. elim (o.only x (s.only x (c.only x h))) [
      | inl e ↦ absurd (c.gone (rw e at h))
      | inr before ↦ before
    ];
    keeps = λ x h. c.keeps x (λ e. o.fresh (rw e at h)) (s.keeps x (o.keeps x h));
  }
