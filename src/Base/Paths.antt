-- ===== src/Base/Paths.antt =====
-- Paths below a directory.
use mathlib.Core.Path.{◌≡◌, refl, ap, sym, ◌∙◌}
use mathlib.Core.Logic.{inl, inr}
use mathlib.Core.Bool.{Bool, true, false, ◌||◌}
use mathlib.Core.List.{◌++◌, append_assoc}
use native.Mathlib.Omega.{arith}
use cryptocourt.Base.Tests.{Bool-cases, Option-cases}
use cryptocourt.Base.Text.{Text, codes, ◌=text◌, drop_prefix, starts_with}
use cryptocourt.Base.Text.Laws.{drop_prefix_complete, drop_prefix_sound, =text_sound}
use cryptocourt.Base.Disk.{join_path, is_under}

pub starts_with_prefix : (p s : Text) → starts_with p (p ++ s) ≡ true
unfolding starts_with
starts_with_prefix p s = rw (drop_prefix_complete p s, starts_with) refl

or_true : (b : Bool) → (b || true) ≡ true
or_true true = refl
or_true false = refl

pub is_under-below : (d p : Text) → is_under d (join_path d p) ≡ true
unfolding is_under join_path
is_under-below d p =
    ap (λ b. (join_path d p =text d) || b)
      (ap (starts_with (d ++ codes "/")) (sym (append_assoc d (codes "/") p))
        ∙ starts_with_prefix (d ++ codes "/") p)
    ∙ or_true (join_path d p =text d)

starts_with_rest : (p s : Text) → starts_with p s ≡ true → (rest : Text) × (s ≡ p ++ rest)
unfolding starts_with
starts_with_rest p s h = elim (Option-cases (drop_prefix p s)) [
  | inl e ↦ absurd (ground (arith, rw (e, starts_with) at h))
  | inr (rest, e) ↦ (rest, drop_prefix_sound p s rest e)
]

join_path_assoc : (d x y : Text) → join_path (join_path d x) y ≡ join_path d (x ++ (codes "/" ++ y))
unfolding join_path
join_path_assoc d x y =
    append_assoc d (codes "/" ++ x) (codes "/" ++ y)
    ∙ ap (λ t. d ++ t) (append_assoc (codes "/") x (codes "/" ++ y))

-- What is below a directory within another is below that other.
is_under-within : (d x p : Text) → is_under (join_path d x) p ≡ true → is_under d p ≡ true
unfolding is_under join_path
is_under-within d x p h = elim (Bool-cases (p =text join_path d x)) [
  | inl e ↦ ap (is_under d) (=text_sound p (join_path d x) e) ∙ is_under-below d x
  | inr e ↦
      let (rest, f) = starts_with_rest (join_path d x ++ codes "/") p (ground (arith, e, h)) in
      ap (is_under d) (f ∙ append_assoc (join_path d x) (codes "/") rest ∙ join_path_assoc d x rest)
      ∙ is_under-below d (x ++ (codes "/" ++ rest))
]

-- A path outside a directory is outside every directory within it.
pub is_outside-within : (d x p : Text) → is_under d p ≡ false → is_under (join_path d x) p ≡ false
is_outside-within d x p h = elim (Bool-cases (is_under (join_path d x) p)) [
  | inl e ↦ cc (h, is_under-within d x p e)
  | inr e ↦ e
]
