-- ===== src/Base/Text/Laws.antt =====
-- What the text functions satisfy.
use mathlib.Core.Path.{◌≡◌, refl}
use mathlib.Core.Bool.{true, false}
use mathlib.Core.Logic.{◌≢◌, inl, inr}
use cryptocourt.Base.Tests.{Bool-cases}
use mathlib.Core.List.{[], ◌∷◌, ◌++◌}
use mathlib.Core.Option.{some}
use native.Mathlib.Omega.{arith}
use cryptocourt.Base.Text.Defs.{Text, ◌=text◌, drop_prefix}

pub =text_sound : (s t : Text) → (s =text t) ≡ true → s ≡ t
unfolding ◌=text◌
=text_sound [] [] h = refl
=text_sound [] (y ∷ t) h = cc
=text_sound (x ∷ s) [] h = cc
=text_sound (x ∷ s) (y ∷ t) h = ground (arith, =text_sound s t)

pub =text_refl : (s : Text) → (s =text s) ≡ true
unfolding ◌=text◌
=text_refl [] = refl
=text_refl (x ∷ s) = ground (arith, =text_refl s)

pub drop_prefix_sound : (p s r : Text) → drop_prefix p s ≡ some r → s ≡ p ++ r
unfolding drop_prefix
drop_prefix_sound [] s r h = ground arith
drop_prefix_sound (x ∷ p) [] r h = cc
drop_prefix_sound (x ∷ p) (y ∷ s) r h = ground (arith, drop_prefix_sound p s r)

pub drop_prefix_complete : (p r : Text) → drop_prefix p (p ++ r) ≡ some r
unfolding drop_prefix
drop_prefix_complete [] r = refl
drop_prefix_complete (x ∷ p) r = ground (arith, drop_prefix_complete p r)

pub =text_ne : (s t : Text) → s ≢ t → (s =text t) ≡ false
=text_ne s t ne = elim (Bool-cases (s =text t)) [
  | inl e ↦ absurd (ne (=text_sound s t e))
  | inr e ↦ e
]
