-- ===== src/Base/Exec.antt =====
-- Methods that mutate an object and may raise: what was written before a raise stays written, so
-- the state comes back beside the error too.
use mathlib.Core.Bool.{Bool, true, false}
use mathlib.Core.List.{List, [], ◌∷◌}

-- The outcome of code that may raise an `E`.
pub data Result {ℓ κ} (E : Type ℓ) (A : Type κ) : Type (ℓ ⊔ κ) where
  ok : A → Result E A
  err : E → Result E A

abbrev pub is_ok {ℓ κ} : {E : Type ℓ} {A : Type κ} → Result E A → Bool
is_ok (ok a) = true
is_ok (err e) = false

abbrev pub bind_result {ℓ κ μ} :
    {E : Type ℓ} {A : Type κ} {B : Type μ} → Result E A → (A → Result E B) → Result E B
bind_result (ok a) f = f a
bind_result (err e) f = err e

-- `[f(x) for x in xs]` where `f` may raise: the first raise ends it.
abbrev pub try_map {ℓ κ μ} :
    {E : Type ℓ} {A : Type κ} {B : Type μ} → (A → Result E B) → List A → Result E (List B)
try_map f [] = ok []
try_map f (x ∷ xs) = bind_result (f x) λ y. bind_result (try_map f xs) λ ys. ok (y ∷ ys)

abbrev pub Exec {ℓ κ μ} : Type ℓ → Type κ → Type μ → Type (ℓ ⊔ κ ⊔ μ)
Exec S E A = S → Result E A × S

module _ {ℓ κ μ} {S : Type ℓ} {E : Type κ} {A : Type μ} where
  abbrev pub pure : A → Exec S E A
  pure a s = (ok a, s)

  abbrev pub raise : E → Exec S E A
  raise e s = (err e, s)

  abbrev pub lift : Result E A → Exec S E A
  lift r s = (r, s)

module _ {ℓ κ} {S : Type ℓ} {E : Type κ} where
  abbrev pub modify : (S → S) → Exec S E (Unit {0})
  modify f s = (ok tt, f s)

  -- `if cond: raise e`.
  abbrev pub raise_if : Bool → E → Exec S E (Unit {0})
  raise_if true e s = (err e, s)
  raise_if false e s = (ok tt, s)

module _ {ℓ κ μ ν} {S : Type ℓ} {E : Type κ} {A : Type μ} {B : Type ν} where
  abbrev pub continue : Result E A → (A → Exec S E B) → Exec S E B
  continue (ok a) f s = f a s
  continue (err e) f s = (err e, s)

  infixl 10 ◌>>=◌ ◌>>◌
  abbrev pub ◌>>=◌ : Exec S E A → (A → Exec S E B) → Exec S E B
  ◌>>=◌ m f s = let (r, s') = m s in continue r f s'

  abbrev pub ◌>>◌ : Exec S E A → Exec S E B → Exec S E B
  m >> n = m >>= λ _. n

-- `m` keeps `P`, whether it returns or raises.
abbrev pub Keeps {ℓ κ μ ν} :
    {S : Type ℓ} {E : Type κ} {A : Type μ} → (S → Type ν) → Exec S E A → Type (ℓ ⊔ ν)
Keeps {S} P m = (s : S) → P s → P (m s).1

module _ {ℓ κ ν} {S : Type ℓ} {E : Type κ} (P : S → Type ν) where
  pub Keeps-raise_if : (b : Bool) (e : E) (s : S) → P s → P (raise_if b e s).1
  Keeps-raise_if true e s h = h
  Keeps-raise_if false e s h = h

module _ {ℓ κ μ ν τ} {S : Type ℓ} {E : Type κ} {A : Type μ} {B : Type ν} (P : S → Type τ) where
  pub Keeps-continue :
      (r : Result E A) (f : A → Exec S E B) → ((a : A) → Keeps P (f a)) → Keeps P (continue r f)
  Keeps-continue (ok a) f kf = kf a
  Keeps-continue (err e) f kf = λ s h. h

  -- A block keeps what each of its steps keeps.
  pub Keeps-bind :
      (m : Exec S E A) (f : A → Exec S E B)
      → Keeps P m
      → ((a : A) → Keeps P (f a))
      → Keeps P (m >>= f)
  Keeps-bind m f km kf s h = let (r, s') = m s in Keeps-continue r f kf s' (km s h)
