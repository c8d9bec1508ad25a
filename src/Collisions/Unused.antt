-- ===== src/Collisions/Unused.antt =====
-- scripts/check-mutant-collisions.py: `unused_after`, the first name that a mutation leaves declared and unused.
pub mod Words
use cryptocourt.Base.{
  ℕ, zero, suc, ◌+◌, ◌-◌, Bool, true, false, not, ◌&&◌, ◌||◌, Option, none, some, List, [], ◌∷◌,
  ◌++◌, map, keep, all, leb, ◌==◌, if◌then◌else◌,
}
use cryptocourt.Base.Text.{
  Text, codes, ◌=text◌, drop_prefix, starts_with, newline, split, lstrip, strip,
}
use cryptocourt.Base.Decimal.{is_digit}
use cryptocourt.Mutate.Output.{is_word}

-- `[A-Za-z_]`.
unfoldable pub is_word_start : ℕ → Bool
unfolding is_word
is_word_start c = is_word c && not (is_digit c)

-- `str.isidentifier`, over ASCII.
unfoldable pub is_identifier : Text → Bool
unfolding is_word_start is_word
is_identifier [] = false
is_identifier (c ∷ s) = is_word_start c && all is_word s

-- The text from the last `\nfunc ` on that ends before the position `at`.
unfoldable pub enclosing : ℕ → Text → Option Text
unfolding starts_with
enclosing at [] = none
enclosing at (c ∷ s) = elim (enclosing (at - 1) s) [
  | some t ↦ some t
  | none ↦ if leb 6 at && starts_with (codes "\nfunc ") (c ∷ s) then some (c ∷ s) else none
]

-- The text in front of the first `\n}\n`, or all of it.
unfoldable pub upto_close : Text → Text
unfolding starts_with
upto_close [] = []
upto_close (c ∷ s) =
    let rest = upto_close s in if starts_with (codes "\n}\n") (c ∷ s) then [] else c ∷ rest

-- `[\w, ]*?\s*:=` at the head: what the lazy part takes.
unfoldable pub decl_rest : Text → Option Text
unfolding starts_with lstrip is_word
decl_rest [] = none
decl_rest (c ∷ s) =
    let rest = decl_rest s in
    if starts_with (codes ":=") (lstrip (c ∷ s))
    then some []
    else if is_word c || (c == b',') || (c == b' ')
    then (elim rest [ none ↦ none | some t ↦ some (c ∷ t) ])
    else none

-- `DECL` at the head of a line: the names to the left of `:=`, behind tabs and spaces.
unfoldable pub decl_at : Text → Option Text
unfolding is_word_start decl_rest
decl_at [] = none
decl_at (c ∷ s) =
    let rest = decl_at s in
    if (c == 9) || (c == b' ')
    then rest
    else if is_word_start c
    then (elim (decl_rest s) [ none ↦ none | some t ↦ some (c ∷ t) ])
    else none

-- The groups of `DECL.finditer`: one match at most for each beginning of a line.
unfoldable pub decls : Text → List Text
unfolding decl_at
decls [] = []
decls (c ∷ s) =
    let rest = decls s in
    if c == newline then (elim (decl_at s) [ none ↦ rest | some names ↦ names ∷ rest ]) else rest

unfoldable pub all_decls : Text → List Text
unfolding decl_at decls
all_decls body = elim (decl_at body) [ none ↦ decls body | some names ↦ names ∷ decls body ]

-- The names of the declarations that the second loop does not skip.
unfoldable pub declared : List Text → List Text
unfolding split strip is_identifier ◌=text◌
declared [] = []
declared (names ∷ groups) =
    keep (λ n. is_identifier n && not (n =text codes "_")) (map strip (split b',' names))
    ++ declared groups

abbrev no_word : Text → Bool
no_word [] = true
no_word (c ∷ s) = not (is_word c)

-- The word stands at the head as a whole.
unfoldable pub is_whole : Text → Text → Bool
unfolding drop_prefix is_word
is_whole name s = elim (drop_prefix name s) [ none ↦ false | some rest ↦ no_word rest ]

-- `len(re.findall(r"\bname\b", body))`. `inside` tells that a character of a word is in front.
unfoldable pub uses : Text → Bool → Text → ℕ
unfolding is_whole is_word
uses name inside [] = 0
uses name inside (c ∷ s) =
    (if not inside && is_whole name (c ∷ s) then 1 else 0) + uses name (is_word c) s

unfoldable pub first_unused : Text → List Text → Option Text
unfolding uses
first_unused body [] = none
first_unused body (n ∷ names) =
    let rest = first_unused body names in if uses n false body == 1 then some n else rest

unfoldable pub unused_after : Text → ℕ → Option Text
unfolding enclosing upto_close all_decls declared first_unused
unused_after mutated at = elim (enclosing at mutated) [
  | none ↦ none
  | some tail ↦ let body = upto_close tail in first_unused body (declared (all_decls body))
]
