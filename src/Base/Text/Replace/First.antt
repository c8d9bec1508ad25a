-- ===== src/Base/Text/Replace/First.antt =====
-- `s.replace(p, r, 1)` and `s.index(p)`: the first occurrence.
use Prim.Native.Nat.{ℕ, suc}
use mathlib.Core.Path.{◌≡◌, ap, sym, ◌∙◌}
use mathlib.Core.Logic.{inl, inr}
use mathlib.Core.Option.{none, some}
use mathlib.Core.List.{append-nil, [], ◌∷◌, ◌++◌}
use native.Mathlib.Omega.{arith}
use cryptocourt.Base.Tests.{Option-cases}
use cryptocourt.Base.Text.Defs.{Text, drop_prefix}
use cryptocourt.Base.Text.Replace.{
  count, replace, interleave, count_from, replace_from, count_from-miss, count_from-hit,
  replace_from-miss, replace_from-hit, replace_from_absent,
}

unfoldable pub replace_first : Text → Text → Text → Text
unfolding drop_prefix
replace_first p r [] = elim (drop_prefix p []) [ none ↦ [] | some rest ↦ r ++ rest ]
replace_first p r (c ∷ s) =
    let later = replace_first p r s in
    elim (drop_prefix p (c ∷ s)) [ none ↦ c ∷ later | some rest ↦ r ++ rest ]

-- The position of the first occurrence; that of the end, where there is none.
unfoldable pub index : Text → Text → ℕ
unfolding drop_prefix
index p [] = 0
index p (c ∷ s) =
    let later = index p s in elim (drop_prefix p (c ∷ s)) [ none ↦ suc later | some rest ↦ 0 ]

module _ (x : ℕ) (p : Text) where
  replace_first_from :
      (r s : Text) → count_from x p 0 s ≡ 1 → replace_first (x ∷ p) r s ≡ replace_from x p r 0 s
  unfolding replace_first
  replace_first_from r [] h = unfold count_from in absurd (omega arith)
  replace_first_from r (c ∷ s) h = elim (Option-cases (drop_prefix (x ∷ p) (c ∷ s))) [
    | inl e ↦
        rw (e, replace_first)
          (ap (λ t. c ∷ t) (replace_first_from r s (sym (count_from-miss x p c s e) ∙ h))
            ∙ sym (replace_from-miss x p r c s e))
    | inr (rest, e) ↦
        rw (e, replace_first)
          (ap (λ t. r ++ t)
              (sym
                (replace_from_absent x p r rest (omega (arith, h, count_from-hit x p c s rest e))))
            ∙ sym (replace_from-hit x p r c s rest e))
  ]

-- Where the text occurs exactly once, replacing its first occurrence is replacing all.
pub replace_first-replace :
    (anchor r s : Text) → count anchor s ≡ 1 → replace_first anchor r s ≡ replace anchor r s
unfolding count replace replace_first interleave drop_prefix
replace_first-replace [] r [] once = append-nil r
replace_first-replace [] r (c ∷ s) once = absurd (omega arith)
replace_first-replace (x ∷ p) r s once = replace_first_from x p r s once
