-- ===== src/Scenario/Literal.antt =====
-- scripts/scenario.py: the checks on what a scenario is given. `_portable_pattern`, `_lit`, the
-- pattern of an actor's name, and the thousands separators of the notes.
use mathlib.Core.List.{reverse}
use cryptocourt.Base.{
  ℕ, Bool, true, false, ◌&&◌, ◌||◌, List, [], ◌∷◌, ◌++◌, leb, ◌==◌, any, if◌then◌else◌,
}
use cryptocourt.Base.Text.{Text, codes, newline}
use cryptocourt.Base.Decimal.{str_nat}
use cryptocourt.Base.Int.{str_int}
use cryptocourt.Base.Exec.{Result, ok, err}
use cryptocourt.Scenario.Step.{
  Value, str, addr, int, bool, float, nothing, Lit, name, token, BuildError, dialect_trap,
  float_literal, none_literal, quote_in_literal, backslash_in_literal,
}

unfoldable pub is_lower : ℕ → Bool
is_lower c = leb b'a' c && leb c b'z'

unfoldable pub is_letter : ℕ → Bool
unfolding is_lower
is_letter c = is_lower c || (leb b'A' c && leb c b'Z')

abbrev is : ℕ → ℕ → Bool
is d c = c == d

-- The regular expressions of `_DIALECT_TRAPS`: each is a fixed number of character classes.
abbrev pub dialect_traps : List (List (ℕ → Bool))
dialect_traps =
    (is b'(' ∷ is b'?' ∷ [])
    ∷ (is b'\\' ∷ (λ c. is b'p' c || is b'P' c) ∷ is b'{' ∷ [])
    ∷ (is b'\\' ∷ (λ c. leb b'1' c && leb c b'9') ∷ [])
    ∷ (is b'\\' ∷ is_letter ∷ [])
    ∷ (is b'[' ∷ is b'[' ∷ is b':' ∷ [])
    ∷ []

-- Whether the classes match at the beginning of the text.
unfoldable pub matches_here : List (ℕ → Bool) → Text → Bool
matches_here [] s = true
matches_here (p ∷ ps) [] = false
matches_here (p ∷ ps) (c ∷ s) = p c && matches_here ps s

-- `re.search`, for a sequence of classes.
unfoldable pub search_classes : List (ℕ → Bool) → Text → Bool
unfolding matches_here
search_classes ps [] = matches_here ps []
search_classes ps (c ∷ s) = matches_here ps (c ∷ s) || search_classes ps s

unfoldable pub has_trap : Text → Bool
unfolding search_classes is_letter
has_trap pat = any (λ trap. search_classes trap pat) dialect_traps

unfoldable pub portable_pattern : Text → Result BuildError Text
unfolding has_trap
portable_pattern pat = if has_trap pat then err dialect_trap else ok pat

-- The characters of a text that is one gno string literal. The test for the double quote is made
-- over the whole text before that for the backslash.
unfoldable pub quote_literal : Text → Result BuildError Lit
quote_literal t =
    if any (is b'"') t
    then err quote_in_literal
    else if any (is b'\\') t
    then err backslash_in_literal
    else ok (token (b'\\' ∷ b'"' ∷ (t ++ (b'\\' ∷ b'"' ∷ []))))

unfoldable pub lit : Value → Result BuildError Lit
unfolding quote_literal
lit (addr t) = ok (name t)
lit (bool b) = ok (token (if b then codes "true" else codes "false"))
lit (int n) = ok (token (str_int n))
lit (float t) = err float_literal
lit nothing = err none_literal
lit (str t) = quote_literal t

unfoldable pub is_empty : Text → Bool
is_empty [] = true
is_empty (c ∷ s) = false

-- `re.match(r"^[a-z][a-z0-9_]*$", s)`. `$` also matches in front of a newline that ends the text.
unfoldable pub is_name_rest : Text → Bool
unfolding is_lower is_empty
is_name_rest [] = true
is_name_rest (c ∷ s) =
    if is_lower c || (leb b'0' c && leb c b'9') || c == b'_'
    then is_name_rest s
    else c == newline && is_empty s

unfoldable pub is_actor_name : Text → Bool
unfolding is_name_rest
is_actor_name [] = false
is_actor_name (c ∷ s) = is_lower c && is_name_rest s

-- Digits from the right, with a comma in front of each further group of three.
group_digits : Text → Text
group_digits (a ∷ b ∷ c ∷ d ∷ s) = a ∷ b ∷ c ∷ b',' ∷ group_digits (d ∷ s)
group_digits s = s

-- `f"{n:,}"`.
unfoldable pub grouped : ℕ → Text
unfolding group_digits
grouped n = reverse (group_digits (reverse (str_nat n)))
