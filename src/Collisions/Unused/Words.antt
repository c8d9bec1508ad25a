-- ===== src/Collisions/Unused/Words.antt =====
-- scripts/check-mutant-collisions.py: the search `\bname\b` counts words.
use cryptocourt.Base.{
  ℕ, ◌+◌, ◌≡◌, ◌≢◌, refl, ap, ◌∙◌, Bool, true, false, not, ◌&&◌, List, [], ◌∷◌, all, arith, ◌==◌,
  if◌then◌else◌, Bool-cases, inl, inr, ==_iff,
}
use cryptocourt.Base.Text.{Text, ◌=text◌, drop_prefix}
use cryptocourt.Mutate.Output.{is_word}
use cryptocourt.Collisions.Unused.{is_word_start, is_identifier, is_whole, uses}

-- The word at the head, which may be empty, and the words behind it: the maximal runs of characters of words.
abbrev onto_words : Text → List Text → List Text
onto_words [] ws = ws
onto_words (c ∷ w) ws = (c ∷ w) ∷ ws

unfoldable pub runs : Text → Text × List Text
unfolding is_word
runs [] = ([], [])
runs (c ∷ s) =
    let rest = runs s in if is_word c then (c ∷ rest.0, rest.1) else ([], onto_words rest.0 rest.1)

-- The words of a text.
abbrev pub word_list : Text → List Text
word_list s = onto_words (runs s).0 (runs s).1

abbrev pub occurrences : Text → List Text → ℕ
occurrences name [] = 0
occurrences name (w ∷ ws) = (if name =text w then 1 else 0) + occurrences name ws

runs-word : (c : ℕ) (s : Text) → is_word c ≡ true → runs (c ∷ s) ≡ (c ∷ (runs s).0, (runs s).1)
unfolding runs
runs-word c s h = rw (h, runs) refl

runs-gap : (c : ℕ) (s : Text) → is_word c ≡ false → runs (c ∷ s) ≡ ([], word_list s)
unfolding runs
runs-gap c s h = rw (h, runs) refl

is_whole-nil : (s : Text) → is_whole [] s ≡ ([] =text (runs s).0)
unfolding is_whole drop_prefix ◌=text◌
is_whole-nil [] = unfold runs in refl
is_whole-nil (c ∷ s) = elim (Bool-cases (is_word c)) [
  | inl e ↦ rw (runs-word c s e, e) refl
  | inr e ↦ rw (runs-gap c s e, e) refl
]

is_whole-cons :
    (x : ℕ) (p : Text) (c : ℕ) (s : Text) → is_whole (x ∷ p) (c ∷ s) ≡ (x == c && is_whole p s)
unfolding is_whole drop_prefix
is_whole-cons x p c s = ground arith

is_whole-runs :
    (name s : Text) → all is_word name ≡ true → is_whole name s ≡ (name =text (runs s).0)
unfolding ◌=text◌
is_whole-runs [] s h = is_whole-nil s
is_whole-runs (x ∷ p) [] h = unfold is_whole runs drop_prefix in refl
is_whole-runs (x ∷ p) (c ∷ s) h = elim (Bool-cases (is_word c)) [
  | inl e ↦
      rw (runs-word c s e)
        (is_whole-cons x p c s ∙ ap (λ b. x == c && b) (is_whole-runs p s (ground (arith, h))))
  | inr e ↦ rw (runs-gap c s e) (is_whole-cons x p c s ∙ ground (arith, h, e, ==_iff x c))
]

uses-cons :
    (name : Text) (b : Bool) (c : ℕ) (s : Text)
    → uses name b (c ∷ s)
      ≡ (if not b && is_whole name (c ∷ s) then 1 else 0) + uses name (is_word c) s
unfolding uses
uses-cons name b c s = refl

is_whole-gap :
    (name : Text) (c : ℕ) (s : Text)
    → all is_word name ≡ true
    → name ≢ []
    → is_word c ≡ false
    → is_whole name (c ∷ s) ≡ false
unfolding ◌=text◌
is_whole-gap [] c s h ne e = absurd (ne refl)
is_whole-gap (x ∷ p) c s h ne e = is_whole-runs (x ∷ p) (c ∷ s) h ∙ rw (runs-gap c s e) refl

both :
    (name s : Text)
    → all is_word name ≡ true
    → name ≢ []
    → (uses name true s ≡ occurrences name (runs s).1)
      × (uses name false s ≡ occurrences name (word_list s))
both name [] h ne = unfold uses runs in (refl, refl)
both name (c ∷ s) h ne =
    let (within, at_word) = both name s h ne in
    elim (Bool-cases (is_word c)) [
      | inl e ↦
          let whole : is_whole name (c ∷ s) ≡ (name =text c ∷ (runs s).0) =
            is_whole-runs name (c ∷ s) h ∙ rw (runs-word c s e) refl in
          rw (runs-word c s e, uses-cons name true c s, uses-cons name false c s, e, whole)
            (
              omega (arith, within),
              ap (λ n. (if name =text c ∷ (runs s).0 then 1 else 0) + n) within,
            )
      | inr e ↦
          rw
            (
              runs-gap c s e,
              uses-cons name true c s,
              uses-cons name false c s,
              e,
              is_whole-gap name c s h ne e,
            )
            (omega (arith, at_word), omega (arith, at_word))
    ]

-- The search counts the words of the text that are the name, if the name is an identifier.
pub uses-occurrences :
    (name s : Text) → is_identifier name ≡ true → uses name false s ≡ occurrences name (word_list s)
unfolding is_identifier is_word_start
uses-occurrences [] s h = absurd (ground (arith, h))
uses-occurrences (c ∷ name) s h = (both (c ∷ name) s (ground (arith, h)) (λ e. cc e)).1
