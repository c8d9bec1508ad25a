-- ===== src/Scenario/Reads.antt =====
-- scripts/scenario.py: `_realm_reads`, on the files `*.gno` of the realm's directory. The characters
-- of a word are those of ASCII.
pub mod Asserted
use cryptocourt.Base.{
  ℕ, zero, suc, ◌-◌, leb, ltb, length, Bool, true, false, not, ◌&&◌, ◌||◌, Option, none, some, List,
  [], ◌∷◌, ◌++◌, map, keep, ◌==◌, if◌then◌else◌,
}
use cryptocourt.Base.Text.{
  Text, codes, text_in, drop_prefix, starts_with, ends_with, lstrip, strip, split, newline,
  is_space,
}
use cryptocourt.Base.Disk.{Files}
use cryptocourt.Mutate.Output.{is_word, span}
use cryptocourt.Collisions.Unused.{uses}

-- The text behind the first `p`.
unfoldable pub behind_first : Text → Text → Option Text
unfolding drop_prefix
behind_first p [] = none
behind_first p (c ∷ s) =
    let later = behind_first p s in
    elim (drop_prefix p (c ∷ s)) [ none ↦ later | some rest ↦ some rest ]

-- `re.sub(r"/\*.*?\*/", "", src, flags=re.S)`; `skip` characters belong to a comment.
unfoldable pub strip_blocks : ℕ → Text → Text
unfolding drop_prefix behind_first codes
strip_blocks skip [] = []
strip_blocks (suc skip) (c ∷ s) = strip_blocks skip s
strip_blocks zero (c ∷ s) =
    let kept = c ∷ strip_blocks zero s in
    let behind = λ (rest : Text). strip_blocks (length s - length rest) s in
    elim (drop_prefix (codes "/*") (c ∷ s)) [
      | none ↦ kept
      | some comment ↦ elim (behind_first (codes "*/") comment) [
        | none ↦ kept
        | some rest ↦ behind rest
      ]
    ]

-- `re.sub(r"^\s*//.*$", "", src, flags=re.M)`: blank lines above a comment go with it.
unfoldable pub strip_lines : ℕ → (fresh : Bool) → Text → Text
unfolding lstrip starts_with span codes
strip_lines skip fresh [] = []
strip_lines (suc skip) fresh (c ∷ s) = strip_lines skip (c == newline) s
strip_lines zero fresh (c ∷ s) =
    let kept = c ∷ strip_lines zero (c == newline) s in
    let behind = λ (rest : Text). strip_lines (length s - length rest) (c == newline) s in
    let line = lstrip (c ∷ s) in
    if fresh && starts_with (codes "//") line
    then behind (span (λ d. not (d == newline)) line).1
    else kept

-- A declaration: its name, and whether its first parameter mentions `realm`.
abbrev pub Declaration : Type 0
Declaration = Text × Bool

-- What follows a list of type parameters, if there is one.
unfoldable pub behind_types : Text → Option Text
unfolding drop_prefix behind_first codes
behind_types s = elim (drop_prefix (codes "[") s) [
  | none ↦ some s
  | some types ↦ behind_first (codes "]") types
]

unfoldable pub is_write : (params : Text) → Bool
unfolding split strip uses
is_write params = first (split b',' (strip params))
  where
    first : List Text → Bool
    first [] = false
    first (p ∷ ps) = ltb 0 (uses (codes "realm") false (strip p))

-- A match of `func\s+([A-Z]\w*)\s*(?:\[[^\]]*\])?\(([^)]*)\)`, and what follows it.
unfoldable pub func_at : Text → Option (Declaration × Text)
unfolding drop_prefix span is_space is_word lstrip behind_types behind_first is_write codes
func_at s = elim (drop_prefix (codes "func") s) [
  | none ↦ none
  | some [] ↦ none
  | some (c ∷ t) ↦ if is_space c then named (span is_word (lstrip t)) else none
]
  where
    params : Text → Option Text → Option (Declaration × Text)
    params name none = none
    params name (some t) = elim (drop_prefix (codes "(") t) [
      | none ↦ none
      | some inside ↦ elim (behind_first (codes ")") inside) [
        | none ↦ none
        | some rest ↦ some ((name, is_write (span (λ d. not (d == b')')) inside).0), rest)
      ]
    ]

    named : Text × Text → Option (Declaration × Text)
    named ([], t) = none
    named (d ∷ ds, t) =
        if leb b'A' d && leb d b'Z' then params (d ∷ ds) (behind_types (lstrip t)) else none

unfoldable pub declarations_from : ℕ → (fresh : Bool) → Text → List Declaration
unfolding func_at
declarations_from skip fresh [] = []
declarations_from (suc skip) fresh (c ∷ s) = declarations_from skip (c == newline) s
declarations_from zero fresh (c ∷ s) =
    let next = declarations_from zero (c == newline) s in
    let behind = λ (rest : Text). declarations_from (length s - length rest) (c == newline) s in
    elim (if fresh then func_at (c ∷ s) else none) [
      | none ↦ next
      | some found ↦ found.0 ∷ behind found.1
    ]

-- The declarations of all files but the tests.
unfoldable pub declarations : Files → List Declaration
unfolding ends_with strip_blocks strip_lines declarations_from codes
declarations [] = []
declarations ((name, src) ∷ files) =
    let rest = declarations files in
    if ends_with (codes "_test.gno") name || ends_with (codes "_filetest.gno") name
    then rest
    else declarations_from 0 true (strip_lines 0 true (strip_blocks 0 src)) ++ rest

unfoldable pub writes_of : List Declaration → List Text
writes_of ds = map (λ (d : Declaration). d.0) (keep (λ (d : Declaration). d.1) ds)

unfoldable pub reads_of : List Declaration → List Text
unfolding writes_of text_in
reads_of ds =
    keep (λ n. not (text_in n (writes_of ds)))
      (map (λ (d : Declaration). d.0) (keep (λ (d : Declaration). not d.1) ds))

-- `none` is the exit where there is no such directory or no read.
unfoldable pub realm_reads : Option Files → Option (List Text)
unfolding declarations reads_of
realm_reads none = none
realm_reads (some files) = found (reads_of (declarations files))
  where
    found : List Text → Option (List Text)
    found [] = none
    found (r ∷ reads) = some (r ∷ reads)
