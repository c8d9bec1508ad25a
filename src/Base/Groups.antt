-- ===== src/Base/Groups.antt =====
-- `d.setdefault(key, []).append(value)` over a list, and the groups that hold more than one value.
pub mod Laws
use mathlib.Core.Path.{◌≡◌, refl, ap, sym, ◌∙◌}
use mathlib.Core.Bool.{Bool, true, false, ◌&&◌, ◌||◌, not}
use mathlib.Core.List.{List, [], ◌∷◌, ◌++◌}
use Prim.Native.Nat.{ℕ, zero, suc, ◌+◌, ◌≤◌, ◌<◌}
use native.Mathlib.Omega.{arith}
use cryptocourt.Base.Tests.{if◌then◌else◌, Bool-cases, ltb}
use cryptocourt.Base.Lists.{length, any, keep, All, length-append}

module _ {ℓ κ} {K : Type ℓ} {V : Type κ} (same : K → K → Bool) where
  -- One group: its key with the values in their order.
  unfoldable pub add : K → V → List (K × List V) → List (K × List V)
  add k v [] = (k, v ∷ []) ∷ []
  add k v ((j, vs) ∷ groups) =
      if same k j then (j, vs ++ v ∷ []) ∷ groups else (j, vs) ∷ add k v groups

  unfoldable pub collect : List (K × V) → List (K × List V) → List (K × List V)
  unfolding add
  collect [] groups = groups
  collect ((k, v) ∷ pairs) groups = collect pairs (add k v groups)

  -- The groups of more than one value.
  unfoldable pub repeated : List (K × V) → List (K × List V)
  unfolding collect
  repeated pairs = keep (λ (g : K × List V). ltb 1 (length g.1)) (collect pairs [])

  -- Whether no pair's key is that of an earlier pair.
  abbrev pub is_fresh : K → List (K × V) → Bool
  is_fresh k [] = true
  is_fresh k ((j, v) ∷ pairs) = not (same j k) && is_fresh k pairs

  abbrev pub are_distinct : List (K × V) → Bool
  are_distinct [] = true
  are_distinct ((k, v) ∷ pairs) = is_fresh k pairs && are_distinct pairs
