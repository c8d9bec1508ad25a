-- ===== src/Base/Groups/Laws.antt =====
-- A group holds two values exactly if two pairs have the same key.
use mathlib.Core.Path.{◌≡◌, refl, ap, sym, ◌∙◌}
use mathlib.Core.Logic.{◌↔◌, inl, inr}
use mathlib.Core.Bool.{Bool, true, ◌&&◌, not}
use mathlib.Core.List.{List, [], ◌∷◌}
use Prim.Native.Nat.{◌≤◌}
use native.Mathlib.Omega.{arith}
use cryptocourt.Base.Tests.{Bool-cases, ltb}
use cryptocourt.Base.Lists.{length, all, keep, All, length-append}
use cryptocourt.Base.Groups.{add, collect, repeated, is_fresh, are_distinct}

keep-nil {ℓ} :
    {A : Type ℓ} (p : A → Bool) (xs : List A) → (keep p xs ≡ []) ↔ (all (λ x. not (p x)) xs ≡ true)
keep-nil p [] = (λ h. refl, λ h. refl)
keep-nil p (x ∷ xs) = elim (Bool-cases (p x)) [
  | inl e ↦ (λ h. ground (arith, h, e), λ h. ground (arith, h, e))
  | inr e ↦ (λ h. ground (arith, h, e, keep-nil p xs), λ h. ground (arith, h, e, keep-nil p xs))
]

module _ {K V : Type 0} (same : K → K → Bool) where
  abbrev has_few : K × List V → Bool
  has_few g = not (ltb 1 (length g.1))

  abbrev IsFull : List (K × List V) → Type 0
  IsFull = All (λ (g : K × List V). 1 ≤ length g.1)

  -- No group has the key.
  abbrev unheld : K → List (K × List V) → Bool
  unheld k = all (λ (g : K × List V). not (same k g.0))

  abbrev all_unheld : List (K × V) → List (K × List V) → Bool
  all_unheld [] groups = true
  all_unheld ((k, v) ∷ pairs) groups = unheld k groups && all_unheld pairs groups

  add-IsFull :
      (k : K) (v : V) (groups : List (K × List V)) → IsFull groups → IsFull (add same k v groups)
  unfolding add
  add-IsFull k v [] h = (omega arith, tt)
  add-IsFull k v ((j, vs) ∷ groups) (h, hs) = elim (Bool-cases (same k j)) [
    | inl e ↦ rw e (omega (arith, length-append vs (v ∷ [])), hs)
    | inr e ↦ rw e (h, add-IsFull k v groups hs)
  ]

  few-add :
      (k : K) (v : V) (groups : List (K × List V))
      → IsFull groups
      → all has_few (add same k v groups) ≡ (all has_few groups && unheld k groups)
  unfolding add
  few-add k v [] h = refl
  few-add k v ((j, vs) ∷ groups) (h, hs) =
      ground (arith, few-add k v groups hs, length-append vs (v ∷ []))

  unheld-add :
      (i k : K) (v : V) (groups : List (K × List V))
      → unheld k groups ≡ true
      → unheld i (add same k v groups) ≡ (unheld i groups && not (same i k))
  unfolding add
  unheld-add i k v [] h = ground arith
  unheld-add i k v ((j, vs) ∷ groups) h = ground (arith, unheld-add i k v groups)

  all_unheld-add :
      (pairs : List (K × V)) (k : K) (v : V) (groups : List (K × List V))
      → unheld k groups ≡ true
      → all_unheld pairs (add same k v groups) ≡ (all_unheld pairs groups && is_fresh same k pairs)
  all_unheld-add [] k v groups h = refl
  all_unheld-add ((i, w) ∷ pairs) k v groups h =
      ground (arith, all_unheld-add pairs k v groups h, unheld-add i k v groups h)

  few-collect :
      (pairs : List (K × V)) (groups : List (K × List V))
      → IsFull groups
      → all has_few (collect same pairs groups)
        ≡ (all has_few groups && (all_unheld pairs groups && are_distinct same pairs))
  unfolding collect
  few-collect [] groups h = ground arith
  few-collect ((k, v) ∷ pairs) groups h = ground (
    arith,
    few-collect pairs (add same k v groups) (add-IsFull k v groups h),
    few-add k v groups h,
    all_unheld-add pairs k v groups,
  )

  all_unheld-nil : (pairs : List (K × V)) → all_unheld pairs [] ≡ true
  all_unheld-nil [] = refl
  all_unheld-nil ((k, v) ∷ pairs) = all_unheld-nil pairs

  pub repeated-nil :
      (pairs : List (K × V)) → (repeated same pairs ≡ []) ↔ (are_distinct same pairs ≡ true)
  unfolding repeated
  repeated-nil pairs =
      let counted =
        few-collect pairs [] tt ∙ ap (λ b. b && are_distinct same pairs) (all_unheld-nil pairs) in
      (
        λ h. sym counted ∙ (keep-nil _ (collect same pairs [])).0 h,
        λ h. (keep-nil _ (collect same pairs [])).1 (counted ∙ h),
      )
