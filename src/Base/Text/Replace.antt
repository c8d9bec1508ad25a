-- ===== src/Base/Text/Replace.antt =====
-- `s.count(p)` and `s.replace(p, r)`: occurrences are taken from the left and do not overlap.
pub mod First
use Prim.Native.Nat.{ℕ, zero, suc, ◌+◌}
use mathlib.Core.Path.{◌≡◌, refl, ap, sym, ◌∙◌}
use mathlib.Core.Logic.{◌≢◌, inl, inr}
use mathlib.Core.Option.{none, some}
use mathlib.Core.List.{[], ◌∷◌, ◌++◌}
use native.Mathlib.Omega.{arith}
use cryptocourt.Base.Tests.{Option-cases, ◌==◌, if◌then◌else◌}
use cryptocourt.Base.Lists.{length}
use cryptocourt.Base.Text.Defs.{Text, drop_prefix}
use cryptocourt.Base.Text.Laws.{drop_prefix_sound}

-- The scan for the non-empty text `x ∷ p`. Behind an occurrence it skips the rest of it: `k`
-- characters are still to be skipped.
module _ (x : ℕ) (p : Text) where
  count_from : ℕ → Text → ℕ
  count_from k [] = 0
  count_from (suc k) (c ∷ s) = count_from k s
  count_from zero (c ∷ s) = elim (drop_prefix (x ∷ p) (c ∷ s)) [
    | some rest ↦ suc (count_from (length p) s)
    | none ↦ count_from 0 s
  ]

  replace_from : Text → ℕ → Text → Text
  replace_from r k [] = []
  replace_from r (suc k) (c ∷ s) = replace_from r k s
  replace_from r zero (c ∷ s) = elim (drop_prefix (x ∷ p) (c ∷ s)) [
    | some rest ↦ r ++ replace_from r (length p) s
    | none ↦ c ∷ replace_from r 0 s
  ]

-- The empty text occurs before every character and at the end.
interleave : Text → Text → Text
interleave r [] = r
interleave r (c ∷ s) = r ++ c ∷ interleave r s

unfoldable pub count : Text → Text → ℕ
unfolding count_from drop_prefix
count [] s = length s + 1
count (x ∷ p) s = count_from x p 0 s

unfoldable pub replace : Text → Text → Text → Text
unfolding replace_from interleave drop_prefix
replace [] r s = interleave r s
replace (x ∷ p) r s = replace_from x p r 0 s

module _ (x : ℕ) (p : Text) where
  -- Skipping exactly `q` leaves the scan at what follows it.
  count_from-skip : (q s : Text) → count_from x p (length q) (q ++ s) ≡ count_from x p 0 s
  unfolding count_from
  count_from-skip [] s = refl
  count_from-skip (y ∷ q) s = count_from-skip q s

  replace_from-skip :
      (r q s : Text) → replace_from x p r (length q) (q ++ s) ≡ replace_from x p r 0 s
  unfolding replace_from
  replace_from-skip r [] s = refl
  replace_from-skip r (y ∷ q) s = replace_from-skip r q s

  tail_eq : (c : ℕ) (s rest : Text) → drop_prefix (x ∷ p) (c ∷ s) ≡ some rest → s ≡ p ++ rest
  tail_eq c s rest h = cc (drop_prefix_sound (x ∷ p) (c ∷ s) rest h)

  -- What the scans do at a character that begins an occurrence, and at one that does not.
  count_from-hit :
      (c : ℕ) (s rest : Text)
      → drop_prefix (x ∷ p) (c ∷ s) ≡ some rest
      → count_from x p 0 (c ∷ s) ≡ suc (count_from x p 0 rest)
  unfolding count_from
  count_from-hit c s rest h =
      rw (h, count_from) (ap suc (rw (tail_eq c s rest h) (count_from-skip p rest)))

  count_from-miss :
      (c : ℕ) (s : Text)
      → drop_prefix (x ∷ p) (c ∷ s) ≡ none
      → count_from x p 0 (c ∷ s) ≡ count_from x p 0 s
  unfolding count_from
  count_from-miss c s h = rw (h, count_from)

  replace_from-hit :
      (r : Text) (c : ℕ) (s rest : Text)
      → drop_prefix (x ∷ p) (c ∷ s) ≡ some rest
      → replace_from x p r 0 (c ∷ s) ≡ r ++ replace_from x p r 0 rest
  unfolding replace_from
  replace_from-hit r c s rest h =
      rw (h, replace_from) (ap (λ t. r ++ t) (rw (tail_eq c s rest h) (replace_from-skip r p rest)))

  replace_from-miss :
      (r : Text) (c : ℕ) (s : Text)
      → drop_prefix (x ∷ p) (c ∷ s) ≡ none
      → replace_from x p r 0 (c ∷ s) ≡ c ∷ replace_from x p r 0 s
  unfolding replace_from
  replace_from-miss r c s h = rw (h, replace_from)

  replace_from_absent : (r s : Text) → count_from x p 0 s ≡ 0 → replace_from x p r 0 s ≡ s
  replace_from_absent r [] h = unfold replace_from in refl
  replace_from_absent r (c ∷ s) h = elim (Option-cases (drop_prefix (x ∷ p) (c ∷ s))) [
    | inl e ↦
        replace_from-miss r c s e
        ∙ ap (λ t. c ∷ t) (replace_from_absent r s (sym (count_from-miss c s e) ∙ h))
    | inr (rest, e) ↦ cc (count_from-hit c s rest e)
  ]

  Spliced : Text → Text → Type 0
  Spliced r s =
      (pre : Text) × (post : Text) × (s ≡ pre ++ (x ∷ p) ++ post)
      × (replace_from x p r 0 s ≡ pre ++ r ++ post)

  Spliced-cons :
      (r : Text) (c : ℕ) (s : Text)
      → drop_prefix (x ∷ p) (c ∷ s) ≡ none
      → Spliced r s
      → Spliced r (c ∷ s)
  unfolding Spliced
  Spliced-cons r c s e (pre, post, at, result) =
      (c ∷ pre, post, ap (λ t. c ∷ t) at, replace_from-miss r c s e ∙ ap (λ t. c ∷ t) result)

  replace_from_once : (r s : Text) → count_from x p 0 s ≡ 1 → Spliced r s
  replace_from_once r [] h = unfold count_from in absurd (omega arith)
  replace_from_once r (c ∷ s) h = elim (Option-cases (drop_prefix (x ∷ p) (c ∷ s))) [
    | inl e ↦ Spliced-cons r c s e (replace_from_once r s (sym (count_from-miss c s e) ∙ h))
    | inr (rest, e) ↦
        unfold Spliced in
        (
          [],
          rest,
          drop_prefix_sound (x ∷ p) (c ∷ s) rest e,
          replace_from-hit r c s rest e
              ∙ ap (λ t. r ++ t)
                  (replace_from_absent r rest (omega (arith, h, count_from-hit c s rest e))),
        )
  ]

-- An anchor that occurs exactly once is replaced at that one place, and nothing else changes.
pub replace_once :
    (anchor r s : Text)
    → anchor ≢ []
    → count anchor s ≡ 1
    → (pre : Text) × (post : Text) × (s ≡ pre ++ anchor ++ post)
      × (replace anchor r s ≡ pre ++ r ++ post)
unfolding count replace Spliced
replace_once [] r s h once = absurd (h refl)
replace_once (x ∷ p) r s h once = replace_from_once x p r s once

-- A text without the anchor is left as it is.
pub replace_absent : (anchor r s : Text) → anchor ≢ [] → count anchor s ≡ 0 → replace anchor r s ≡ s
unfolding count replace
replace_absent [] r s h gone = absurd (h refl)
replace_absent (x ∷ p) r s h gone = replace_from_absent x p r s gone

-- For an anchor of one character, `replace` goes through the text character by character.
pub replace_char :
    (c : ℕ) (r : Text) (x : ℕ) (s : Text)
    → replace (c ∷ []) r (x ∷ s)
      ≡ (if c == x then r ++ replace (c ∷ []) r s else x ∷ replace (c ∷ []) r s)
unfolding replace
replace_char c r x s = ground arith
