-- ===== src/Base/Closure.antt =====
-- A worklist: `while stack: t = stack.pop()`, that skips what is marked, marks the rest and pushes
-- what follows. The marks are an interface, since each caller keeps them in its own sets.
pub mod Laws
use mathlib.Core.Path.{◌≡◌, refl, ap, sym, ◌∙◌}
use mathlib.Core.Logic.{◌↔◌, ◌⊎◌, inl, inr}
use mathlib.Core.Bool.{Bool, true, false, ◌||◌}
use mathlib.Core.Option.{Option, none, some}
use mathlib.Core.List.{List, [], ◌∷◌, ◌++◌, reverse, reverse-append}
use Prim.Native.Nat.{ℕ, zero, suc, ◌+◌, ◌≤◌, ◌<◌}
use native.Mathlib.Omega.{arith}
use cryptocourt.Base.Tests.{if◌then◌else◌, Bool-cases}
use cryptocourt.Base.Lists.{length, any, length-append}
use cryptocourt.Base.Text.{Text, ◌=text◌, text_in}
use cryptocourt.Base.Text.Laws.{=text_sound, =text_refl}

-- What a worklist needs of its caller's sets.
pub record Marks (S : Type 0) : Type 0 where
  pub is_marked : S → Text → Bool
  pub mark : Text → S → S
  pub is_marked-mark :
      (s : S) (t u : Text) → is_marked (mark t s) u ≡ ((u =text t) || is_marked s u)

-- The successors of a name in a table, as of a dict that gives [] for what it lacks.
unfoldable pub successors : List (Text × List Text) → Text → List Text
unfolding ◌=text◌
successors [] t = []
successors ((k, ts) ∷ table) t = if t =text k then ts else successors table t

-- The names that a walk from the starts meets.
pub data Reach (table : List (Text × List Text)) (starts : List Text) : Text → Type 0 where
  start : {t : Text} → text_in t starts ≡ true → Reach table starts t
  step :
      {s t : Text}
      → Reach table starts s
      → text_in t (successors table s) ≡ true
      → Reach table starts t

module _ {S : Type 0} (m : Marks S) (table : List (Text × List Text)) where
  -- The top of the stack is its head; `none` where the fuel has run out.
  unfoldable pub walk : ℕ → S → List Text → Option S
  unfolding successors
  walk zero s stack = none
  walk (suc fuel) s [] = some s
  walk (suc fuel) s (t ∷ stack) = elim (m.is_marked s t) [
    | true ↦ walk fuel s stack
    | false ↦ walk fuel (m.mark t s) (reverse (successors table t) ++ stack)
  ]

module _ {S : Type 0} (m : Marks S) where
  -- The pushes still to come from an unmarked entry.
  abbrev pub pending : List (Text × List Text) → S → ℕ
  pending [] s = 0
  pending ((k, ts) ∷ rest) s = (if m.is_marked s k then 0 else length ts) + pending rest s
