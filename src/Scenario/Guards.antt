-- ===== src/Scenario/Guards.antt =====
-- The guards of the methods leave the scenario as it is, so a method keeps what the part behind its
-- guards keeps.
use cryptocourt.Base.{◌≡◌, refl, ℕ, zero, suc, Bool, true, false, not}
use cryptocourt.Base.Int.{ℤ, pos, negsuc}
use cryptocourt.Base.Exec.{
  Result, ok, err, lift, ◌>>=◌, ◌>>◌, raise_if, Keeps, Keeps-bind, Keeps-raise_if,
}
use cryptocourt.Scenario.Step.{BuildError, clock_not_armed, Scenario}
use cryptocourt.Scenario.Builder.{Method, require_armed, forward}

module _ {ℓ} (P : Scenario → Type ℓ) where
  pub Keeps-forward : (n : ℤ) → Keeps P (forward n)
  Keeps-forward (pos zero) s h = h
  Keeps-forward (pos (suc n)) s h = h
  Keeps-forward (negsuc n) s h = h

  pub Keeps-armed : {A : Type 0} (m : Method A) → Keeps P m → Keeps P (require_armed >> m)
  Keeps-armed m k =
      Keeps-bind P require_armed (λ _. m)
        (λ s h. Keeps-raise_if P (not s.clock_armed) clock_not_armed s h) (λ _. k)

  pub Keeps-guarded :
      {A : Type 0} (b : Bool) (e : BuildError) (m : Method A)
      → Keeps P m
      → Keeps P (raise_if b e >> m)
  Keeps-guarded b e m k = Keeps-bind P (raise_if b e) (λ _. m) (Keeps-raise_if P b e) (λ _. k)

  pub Keeps-forward-bind :
      {A : Type 0} (n : ℤ) (f : ℕ → Method A)
      → ((k : ℕ) → Keeps P (f k))
      → Keeps P (forward n >>= f)
  Keeps-forward-bind n f k = Keeps-bind P (forward n) f (Keeps-forward n) k

  -- What stands behind a guard may use that the guard did not raise.
  pub guard_at :
      {A : Type 0} (b : Bool) (e : BuildError) (m : Method A) (s : Scenario)
      → P s
      → (b ≡ false → P (m s).1)
      → P ((raise_if b e >> m) s).1
  guard_at true e m s h k = h
  guard_at false e m s h k = k refl

  -- The part behind a computation that may raise may use what it returned.
  pub lift_at :
      {A B : Type 0} (r : Result BuildError A) (f : A → Method B) (s : Scenario)
      → P s
      → ((a : A) → r ≡ ok a → P (f a s).1)
      → P ((lift r >>= f) s).1
  lift_at (ok a) f s h k = k a refl
  lift_at (err e) f s h k = h
