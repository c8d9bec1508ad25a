-- ===== src/Base/Text/Defs.antt =====
-- `str` as a list of code points: `==`, `in`, `startswith`, `endswith`, `find`, `count`, `replace`,
-- `split`, `join` and `strip`.
use Prim.Native.Nat.{ℕ}
use Prim.Native.Char.{code}
use Prim.Native.String.{String}
use mathlib.Core.Bool.{Bool, true, false, ◌&&◌, ◌||◌}
use mathlib.Core.Option.{Option, none, some}
use mathlib.Core.List.{List, [], ◌∷◌, ◌++◌, reverse}
use cryptocourt.Base.Tests.{◌==◌, if◌then◌else◌}
use cryptocourt.Base.Lists.{any}

abbrev pub Text : Type 0
Text = List ℕ

-- The code points of a literal.
unfoldable pub codes : String → Text
codes String.[] = []
codes (String.◌∷◌ c s) = code c ∷ codes s

infix 50 ◌=text◌
unfoldable pub ◌=text◌ : Text → Text → Bool
[] =text [] = true
[] =text (y ∷ ys) = false
(x ∷ xs) =text [] = false
(x ∷ xs) =text (y ∷ ys) = x == y && xs =text ys

-- `s in texts`, for a list or a set of texts.
unfoldable pub text_in : Text → List Text → Bool
unfolding ◌=text◌
text_in s ts = any (λ t. s =text t) ts

-- `s.startswith(p)`, with the rest of `s` behind the prefix.
unfoldable pub drop_prefix : Text → Text → Option Text
drop_prefix [] s = some s
drop_prefix (x ∷ p) [] = none
drop_prefix (x ∷ p) (y ∷ s) = if x == y then drop_prefix p s else none

unfoldable pub starts_with : Text → Text → Bool
unfolding drop_prefix
starts_with p s = elim (drop_prefix p s) [ none ↦ false | some rest ↦ true ]

unfoldable pub ends_with : Text → Text → Bool
unfolding starts_with
ends_with p s = starts_with (reverse p) (reverse s)

-- `p in s`.
unfoldable pub contains : Text → Text → Bool
unfolding starts_with
contains p [] = starts_with p []
contains p (c ∷ s) = starts_with p (c ∷ s) || contains p s

-- `",".join(parts)`.
unfoldable pub join : Text → List Text → Text
join sep [] = []
join sep (p ∷ []) = p
join sep (p ∷ q ∷ ps) = p ++ (sep ++ join sep (q ∷ ps))
