-- ===== src/Packages/Imports.antt =====
-- scripts/genesis-pkgs.py: the three patterns of `imports_of`.
use cryptocourt.Base.{
  ℕ, zero, suc, ◌+◌, ◌-◌, Bool, true, false, not, ◌&&◌, ◌||◌, Option, none, some, List, [], ◌∷◌,
  ◌++◌, length, ◌==◌, if◌then◌else◌,
}
use cryptocourt.Base.Text.{Text, codes, drop_prefix, newline, is_space, lstrip}
use cryptocourt.Mutate.Output.{is_word, span}

-- `[\w./-]`.
unfoldable pub is_path_char : ℕ → Bool
unfolding is_word
is_path_char c = is_word c || (c == b'.') || (c == b'/') || (c == b'-')

abbrev closes : ℕ → Text → Bool
closes q [] = false
closes q (c ∷ s) = c == q

-- `"(gno\.land/[\w./-]+)"` at the head, as the group.
unfoldable pub path_at : Text → Option Text
unfolding drop_prefix span is_path_char
path_at s = elim (drop_prefix (codes "\"gno.land/") s) [
  | none ↦ none
  | some rest ↦
      let run = span is_path_char rest in
      if not (length run.0 == 0) && closes b'"' run.1
      then some (codes "gno.land/" ++ run.0)
      else none
]

-- `QUOTED.findall`. So many characters of the last match are still to be skipped.
unfoldable pub quoted : ℕ → Text → List Text
unfolding path_at
quoted k [] = []
quoted (suc k) (c ∷ s) = quoted k s
quoted zero (c ∷ s) = elim (path_at (c ∷ s)) [
  | none ↦ quoted zero s
  | some path ↦ path ∷ quoted (length path + 1) s
]

-- `import\s*\(([^)]*)\)` at the head: the group, and the text behind it.
unfoldable pub block_at : Text → Option (Text × Text)
unfolding drop_prefix lstrip span
block_at s = elim (drop_prefix (codes "import") s) [
  | none ↦ none
  | some rest ↦ elim (drop_prefix (codes "(") (lstrip rest)) [
    | none ↦ none
    | some inner ↦
        let run = span (λ c. not (c == b')')) inner in
        elim (drop_prefix (codes ")") run.1) [ none ↦ none | some after ↦ some (run.0, after) ]
  ]
]

-- `IMPORT_BLOCK.findall`. `at_line` tells that a line begins.
unfoldable pub blocks : Bool → ℕ → Text → List Text
unfolding block_at
blocks at_line k [] = []
blocks at_line (suc k) (c ∷ s) = blocks (c == newline) k s
blocks at_line zero (c ∷ s) = elim (if at_line then block_at (c ∷ s) else none) [
  | none ↦ blocks (c == newline) zero s
  | some found ↦ found.0 ∷ blocks (c == newline) (length s - length found.1) s
]

abbrev spaced : Text → Option Text
spaced [] = none
spaced (c ∷ s) = if is_space c then some (lstrip s) else none

-- `import\s+(?:\w+\s+)?"(gno\.land/[\w./-]+)"` at the head.
unfoldable pub import_at : Text → Option Text
unfolding drop_prefix path_at span is_word lstrip is_space
import_at s = elim (drop_prefix (codes "import") s) [
  | none ↦ none
  | some rest ↦ elim (spaced rest) [
    | none ↦ none
    | some next ↦
        let run = span is_word next in
        elim run.0 [
          | [] ↦ path_at next
          | c ∷ w ↦ elim (spaced run.1) [ none ↦ none | some after ↦ path_at after ]
        ]
  ]
]

-- `IMPORT_ONE.findall`, as a set: an import that begins inside another has the same path.
unfoldable pub single_imports : Bool → Text → List Text
unfolding import_at
single_imports at_line [] = []
single_imports at_line (c ∷ s) =
    let rest = single_imports (c == newline) s in
    elim (if at_line then import_at (c ∷ s) else none) [ none ↦ rest | some p ↦ p ∷ rest ]

abbrev all_quoted : List Text → List Text
all_quoted [] = []
all_quoted (b ∷ bs) = quoted 0 b ++ all_quoted bs

-- The module paths that one file imports.
unfoldable pub imports_in : Text → List Text
unfolding quoted blocks single_imports
imports_in s = all_quoted (blocks true 0 s) ++ single_imports true s
