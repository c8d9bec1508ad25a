-- ===== src/Parallel/Report.antt =====
-- scripts/mutate-parallel.py: what it reads out of the output of one shard.
use cryptocourt.Base.{
  ℕ, Bool, true, false, not, ◌&&◌, ◌||◌, Option, none, some, List, [], ◌∷◌, ◌++◌, any,
  if◌then◌else◌,
}
use cryptocourt.Base.Text.{
  Text, codes, drop_prefix, starts_with, ends_with, contains, split, strip, newline,
}
use cryptocourt.Base.Decimal.{value, is_digit}
use cryptocourt.Mutate.Output.{span, is_word}

-- `ROW.search(line)`.
unfoldable pub is_row : Text → Bool
unfolding contains
is_row line =
    any (λ word. contains word line)
      (codes "caught:"
        ∷ codes "SURVIVED"
        ∷ codes "BAD ANCHOR"
        ∷ codes "INVALID"
        ∷ codes "covered elsewhere:"
        ∷ [])

-- `CAUGHT_ROW.search(line)`; `inside` tells whether the character before is one of a word.
unfoldable pub caught_from : Bool → Text → Bool
unfolding starts_with is_word
caught_from inside [] = false
caught_from inside (c ∷ s) =
    (not inside && starts_with (codes "caught:") (c ∷ s)) || caught_from (is_word c) s

unfoldable pub is_caught_row : Text → Bool
unfolding caught_from
is_caught_row line = caught_from false line

abbrev pub summary_tail : Text
summary_tail = codes " not caught (survived, invalid, or never applied), of "

-- `SUMMARY.search(stdout)`, as `m.group(0)` and the number that is `m.group(2)`.
unfoldable pub summary : Text → Option (Text × ℕ)
unfolding span drop_prefix
summary [] = none
summary (c ∷ s) =
    let missed = span is_digit (c ∷ s) in
    let later = summary s in
    elim (if is_digit c then drop_prefix summary_tail missed.1 else none) [
      | none ↦ later
      | some rest ↦ elim (span is_digit rest).0 [
        | [] ↦ later
        | d ∷ ds ↦ some (missed.0 ++ (summary_tail ++ d ∷ ds), value 0 (d ∷ ds))
      ]
    ]

-- `text[text.find(header):]`, and nothing where the header is absent.
unfoldable pub find_from : Text → Text → Option Text
unfolding starts_with
find_from header [] = if starts_with header [] then some [] else none
find_from header (c ∷ s) =
    let later = find_from header s in if starts_with header (c ∷ s) then some (c ∷ s) else later

abbrev pub is_blank : Text → Bool
is_blank [] = true
is_blank (c ∷ s) = false

abbrev pub rest_of : List Text → List Text
rest_of [] = []
rest_of (line ∷ lines) = lines

-- The lines up to the first that is not indented, without the blank ones.
unfoldable pub indented_block : List Text → List Text
unfolding starts_with strip
indented_block [] = []
indented_block (line ∷ lines) =
    let rest = indented_block lines in
    if not (starts_with (codes "  ") line)
    then []
    else if is_blank (strip line)
    then rest
    else strip line ∷ rest

-- The local function `section`.
unfoldable pub section : Text → Text → List Text
unfolding find_from indented_block split
section text header = elim (find_from header text) [
  | none ↦ []
  | some found ↦ indented_block (rest_of (split newline found))
]

-- The test of `unmeasured`.
unfoldable pub is_unmeasured : Text → Bool
unfolding ends_with
is_unmeasured s =
    ends_with (codes "[timed out]") s
    || ends_with (codes "[invalid]") s
    || ends_with (codes "[bad anchor]") s
