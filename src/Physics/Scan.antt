-- ===== src/Physics/Scan.antt =====
-- scripts/check-demo-physics.py: `_brace_block`, `num` and `timeline_heights`. Digits and words are
-- those of ASCII.
pub mod Balanced
use cryptocourt.Base.{
  ℕ, suc, ◌-◌, leb, length, all, Bool, true, false, not, ◌&&◌, ◌||◌, Option, none, some, List, [],
  ◌∷◌, ◌++◌, keep, ◌==◌, if◌then◌else◌,
}
use cryptocourt.Base.Text.{Text, codes, ◌=text◌, drop_prefix, lstrip, split}
use cryptocourt.Base.Decimal.{is_digit, value}
use cryptocourt.Base.Exec.{Result, ok, err, bind_result}
use cryptocourt.Mutate.Output.{span}

-- `int` of a text without a digit, `index` of a text that does not occur or an exit where nothing is
-- read, and a division by zero.
pub data Crash : Type 0 where
  no_number : Crash
  no_section : Text → Crash
  divided_by_zero : Crash

-- The text up to the brace that closes the last of `depth` open ones; all of it where there is none.
unfoldable pub block_from : ℕ → Text → Text
block_from depth [] = []
block_from depth (c ∷ s) =
    let deeper = block_from (suc depth) s in
    let higher = block_from (depth - 1) s in
    let level = block_from depth s in
    if c == b'{'
    then c ∷ deeper
    else if not (c == b'}')
    then c ∷ level
    else if depth == 1
    then c ∷ []
    else c ∷ higher

unfoldable pub is_word_char : ℕ → Bool
is_word_char c =
    is_digit c || (leb b'a' c && leb c b'z') || (leb b'A' c && leb c b'Z') || (c == b'_')

unfoldable pub is_numeral : ℕ → Bool
is_numeral c = is_digit c || (c == b'_')

-- A match of `field\s*:\s*([0-9_]+)` at the start of a text: its group.
unfoldable pub scalar_at : (field s : Text) → Option Text
unfolding drop_prefix lstrip span is_numeral codes
scalar_at field s = elim (drop_prefix field s) [
  | none ↦ none
  | some rest ↦ elim (drop_prefix (codes ":") (lstrip rest)) [
    | none ↦ none
    | some behind ↦ given (span is_numeral (lstrip behind)).0
  ]
]
  where
    given : Text → Option Text
    given [] = none
    given (c ∷ g) = some (c ∷ g)

-- The first such match that no word character stands in front of; `inside` tells that one does.
unfoldable pub search_scalar : Bool → (field s : Text) → Option Text
unfolding scalar_at is_word_char
search_scalar inside field [] = none
search_scalar inside field (c ∷ s) =
    let later = search_scalar (is_word_char c) field s in
    if inside then later else elim (scalar_at field (c ∷ s)) [ none ↦ later | some g ↦ some g ]

-- `int(group.replace("_", ""))`.
unfoldable pub int_of : Text → Result Crash ℕ
int_of group = elim (keep (λ c. not (c == b'_')) group) [
  | [] ↦ err no_number
  | d ∷ ds ↦ ok (value 0 (d ∷ ds))
]

unfoldable pub num : (body field : Text) → Result Crash (Option ℕ)
unfolding search_scalar int_of
num body field = elim (search_scalar false field body) [
  | none ↦ ok none
  | some group ↦ bind_result (int_of group) λ n. ok (some n)
]

-- The text up to the first quote, if there is one.
unfoldable pub quoted : Text → Option Text
quoted [] = none
quoted (c ∷ s) = elim (quoted s) [
  | none ↦ if c == b'"' then some [] else none
  | some t ↦ if c == b'"' then some [] else some (c ∷ t)
]

-- The first match of `timeline\s*:\s*"([^"]*)"`: its group.
unfoldable pub timeline : Text → Option Text
unfolding drop_prefix lstrip quoted codes
timeline [] = none
timeline (c ∷ s) =
    let later = timeline s in
    elim (drop_prefix (codes "timeline") (c ∷ s)) [
      | none ↦ later
      | some rest ↦ elim (drop_prefix (codes ":") (lstrip rest)) [
        | none ↦ later
        | some behind ↦ elim (drop_prefix (codes "\"") (lstrip behind)) [
          | none ↦ later
          | some body ↦ elim (quoted body) [ none ↦ later | some t ↦ some t ]
        ]
      ]
    ]

-- A segment's name and height.
unfoldable pub height : List Text → Option (Text × ℕ)
height (name ∷ kind ∷ (c ∷ digits) ∷ more) =
    if all is_digit (c ∷ digits) then some (name, value 0 (c ∷ digits)) else none
height parts = none

-- The heights in the order of their segments; a name that occurs again replaces the earlier height.
unfoldable pub heights_of : List Text → List (Text × ℕ)
unfolding height split
heights_of [] = []
heights_of (segment ∷ segments) =
    let rest = heights_of segments in
    elim (height (split b':' segment)) [ none ↦ rest | some h ↦ h ∷ rest ]

unfoldable pub timeline_heights : Text → List (Text × ℕ)
unfolding timeline heights_of split
timeline_heights body = elim (timeline body) [ none ↦ [] | some t ↦ heights_of (split b';' t) ]

-- `tl.get(name)`: the last height of the name.
unfoldable pub height_at : Text → List (Text × ℕ) → Option ℕ
unfolding ◌=text◌
height_at name [] = none
height_at name ((n, h) ∷ rest) = elim (height_at name rest) [
  | some later ↦ some later
  | none ↦ if n =text name then some h else none
]
