-- ===== src/Mutate/Output.antt =====
-- scripts/mutate.py: what `main` reads out of a suite's output, by regular expressions.
use cryptocourt.Base.{
  ℕ, Bool, true, false, ◌&&◌, ◌||◌, Option, none, some, List, [], ◌∷◌, ◌++◌, leb, ◌==◌, keep,
  if◌then◌else◌,
}
use cryptocourt.Base.Text.{Text, codes, ◌=text◌, drop_prefix, starts_with, words}
use cryptocourt.Base.Decimal.{value, is_digit}

-- `\w`, over ASCII.
unfoldable pub is_word : ℕ → Bool
is_word c = (leb b'a' c && leb c b'z') || (leb b'A' c && leb c b'Z') || is_digit c || (c == b'_')

-- The longest run of characters that pass the test, and the rest.
unfoldable pub span : (ℕ → Bool) → Text → Text × Text
span p [] = ([], [])
span p (c ∷ s) = let rest = span p s in if p c then (c ∷ rest.0, rest.1) else ([], c ∷ s)

-- `re.search(r"(\d+) build errors", out)`, as the number of the group.
unfoldable pub build_errors : Text → Option ℕ
unfolding span starts_with
build_errors [] = none
build_errors (c ∷ s) =
    let run = span is_digit (c ∷ s) in
    let rest = build_errors s in
    if is_digit c && starts_with (codes " build errors") run.1 then some (value 0 run.0) else rest

-- The longest beginning of a text that ends in `end`.
unfoldable pub upto_last : Text → Text → Option Text
unfolding drop_prefix
upto_last end [] = elim (drop_prefix end []) [ none ↦ none | some _ ↦ some end ]
upto_last end (c ∷ s) = elim (upto_last end s) [
  | some t ↦ some (c ∷ t)
  | none ↦ elim (drop_prefix end (c ∷ s)) [ none ↦ none | some _ ↦ some end ]
]

-- `re.findall(r"code=(gno\w*Error)", out)`.
unfoldable pub error_codes : Text → List Text
unfolding drop_prefix span is_word upto_last
error_codes [] = []
error_codes (c ∷ s) =
    let rest = error_codes s in
    elim (drop_prefix (codes "code=gno") (c ∷ s)) [
      | none ↦ rest
      | some after ↦ elim (upto_last (codes "Error") (span is_word after).0) [
        | none ↦ rest
        | some code ↦ (codes "gno" ++ code) ∷ rest
      ]
    ]

-- The order of `sorted` on texts.
unfoldable pub text_le : Text → Text → Bool
text_le [] t = true
text_le (x ∷ s) [] = false
text_le (x ∷ s) (y ∷ t) = if x == y then text_le s t else leb x y

-- Insertion into a sorted list of texts without repetition.
unfoldable pub insert_text : Text → List Text → List Text
unfolding text_le ◌=text◌
insert_text t [] = t ∷ []
insert_text t (u ∷ us) =
    if t =text u then u ∷ us else if text_le t u then t ∷ u ∷ us else u ∷ insert_text t us

-- `sorted(set(texts))`.
unfoldable pub sorted_set : List Text → List Text
unfolding insert_text
sorted_set [] = []
sorted_set (t ∷ ts) = insert_text t (sorted_set ts)

abbrev filetests : List Text → List Text
filetests [] = []
filetests (w ∷ ws) = elim (upto_last (codes "_filetest.gno") w) [
  | none ↦ filetests ws
  | some t ↦ if t =text codes "_filetest.gno" then filetests ws else t ∷ filetests ws
]

-- The tests that the output names: functions `Test…`, and files of filetests.
unfoldable pub test_hits : Text → List Text
unfolding sorted_set starts_with words upto_last
test_hits out = sorted_set (keep (starts_with (codes "Test")) (words out)) ++ filetests (words out)
