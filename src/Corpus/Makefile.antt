-- ===== src/Corpus/Makefile.antt =====
-- scripts/check-mutation-anchors.py: `routinely_run`, whether `make check` runs a harness.
pub mod Runs
use cryptocourt.Base.{
  ℕ, ◌+◌, Bool, true, false, not, ◌&&◌, ◌||◌, Option, none, some, List, [], ◌∷◌, ◌++◌, map, any,
  all, length, leb, ◌==◌, if◌then◌else◌,
}
use cryptocourt.Base.Text.{
  Text, codes, ◌=text◌, text_in, drop_prefix, starts_with, ends_with, contains, join, split,
  newline, is_space, words,
}
use cryptocourt.Base.Closure.{Marks, walk, pending}
use cryptocourt.Base.Closure.Laws.{text_in-cons}
use cryptocourt.Mutate.Output.{is_word, sorted_set}

-- A target of the Makefile: its dependencies and its recipe.
pub record Target : Type 0 where
  pub name : Text
  pub deps : List Text
  pub recipe : Text

-- `[a-z][a-z0-9-]*`.
unfoldable pub is_target_rest : ℕ → Bool
is_target_rest c = (leb b'a' c && leb c b'z') || (leb b'0' c && leb c b'9') || (c == b'-')

unfoldable pub is_target_name : Text → Bool
unfolding is_target_rest
is_target_name [] = false
is_target_name (c ∷ s) = (leb b'a' c && leb c b'z') && all is_target_rest s

-- The text before the first colon and the one behind it.
unfoldable pub split_colon : Text → Option (Text × Text)
split_colon [] = none
split_colon (c ∷ s) =
    let later = split_colon s in
    if c == b':'
    then some ([], s)
    else elim later [ none ↦ none | some parts ↦ some (c ∷ parts.0, parts.1) ]

-- The line of a target: `name:` and what holds no `=`.
unfoldable pub target_line : Text → Option (Text × List Text)
unfolding is_target_name split_colon words
target_line line = elim (split_colon line) [
  | none ↦ none
  | some parts ↦
      if is_target_name parts.0 && all (λ c. not (c == b'=')) parts.1
      then some (parts.0, words parts.1)
      else none
]

-- The lines that a line break ends: all but the last part.
unfoldable pub ended_lines : List Text → List Text
ended_lines [] = []
ended_lines (line ∷ []) = []
ended_lines (line ∷ next ∷ rest) = line ∷ ended_lines (next ∷ rest)

-- The recipe at the head of the lines: those that begin with a tab, each with its line break.
unfoldable pub recipe_lines : List Text → Text
recipe_lines [] = []
recipe_lines ([] ∷ lines) = []
recipe_lines ((c ∷ s) ∷ lines) =
    let rest = recipe_lines lines in if c == 9 then (c ∷ s) ++ newline ∷ rest else []

-- The matches of the pattern. A recipe's lines are no targets, since they begin with a tab.
unfoldable pub targets : List Text → List Target
unfolding target_line recipe_lines
targets [] = []
targets (line ∷ lines) =
    let rest = targets lines in
    elim (target_line line) [
      | none ↦ rest
      | some head ↦ record { name = head.0; deps = head.1; recipe = recipe_lines lines } ∷ rest
    ]

unfoldable pub parse_makefile : Text → List Target
unfolding targets ended_lines split
parse_makefile src = targets (ended_lines (split newline src))

-- The dicts `deps` and `bodies`, where the last assignment to a key counts: it comes first here.
unfoldable pub deps_onto : List Target → List (Text × List Text) → List (Text × List Text)
deps_onto [] table = table
deps_onto (t ∷ ts) table = deps_onto ts ((t.name, t.deps) ∷ table)

unfoldable pub deps_of : List Target → List (Text × List Text)
unfolding deps_onto
deps_of ts = deps_onto ts []

-- `bodies.get(t, "")`.
unfoldable pub recipe_of : List Target → Text → Text
unfolding ◌=text◌
recipe_of [] name = []
recipe_of (t ∷ ts) name =
    let later = recipe_of ts name in
    if any (λ (u : Target). name =text u.name) ts
    then later
    else if name =text t.name
    then t.recipe
    else []

-- The set `seen`, as a list.
abbrev pub seen_set : Marks (List Text)
seen_set = record {
  is_marked = λ seen t. text_in t seen;
  mark = λ t seen. t ∷ seen;
  is_marked-mark = λ seen t u. text_in-cons u t seen;
}

unfoldable pub reached_targets : List Target → Option (List Text)
unfolding walk deps_of
reached_targets ts =
    walk seen_set (deps_of ts) (pending seen_set (deps_of ts) [] + 2) [] (codes "check" ∷ [])

-- `hay`, the recipes of the targets that `check` reaches.
unfoldable pub reached_recipes : List Target → Option (List Text) → Text
unfolding recipe_of sorted_set join
reached_recipes ts none = []
reached_recipes ts (some seen) = join (newline ∷ []) (map (recipe_of ts) (sorted_set seen))

abbrev ends_word : Text → Bool
ends_word [] = true
ends_word (c ∷ s) = not (is_word c)

-- `re.search(r"go test\b[^\n]*-tags[= ]txtar", line)`, on one line.
unfoldable pub runs_txtar : Text → Bool
unfolding drop_prefix contains
runs_txtar [] = false
runs_txtar (c ∷ s) =
    elim (drop_prefix (codes "go test") (c ∷ s)) [
      | none ↦ false
      | some rest ↦
          ends_word rest
          && (contains (codes "-tags=txtar") rest || contains (codes "-tags txtar") rest)
    ]
    || runs_txtar s

-- White space, and then the path.
unfoldable pub spaced_path : Text → Text → Bool
unfolding starts_with
spaced_path path [] = false
spaced_path path (c ∷ s) = is_space c && (starts_with path s || spaced_path path s)

-- `re.search(r"python3?\s+" + re.escape(path), hay)`.
unfoldable pub runs_python : Text → Text → Bool
unfolding drop_prefix spaced_path
runs_python path [] = false
runs_python path (c ∷ s) =
    elim (drop_prefix (codes "python") (c ∷ s)) [
      | none ↦ false
      | some rest ↦
          spaced_path path rest
          || (elim (drop_prefix (codes "3") rest) [ none ↦ false | some r ↦ spaced_path path r ])
    ]
    || runs_python path s

-- The answer, with the reason for a refusal.
pub data Routine : Type 0 where
  runs no_txtar_runner no_python_runner unknown_harness : Routine

-- `none` stands for a repository without a Makefile.
unfoldable pub routinely_run : Text → Option Text → Routine
unfolding parse_makefile reached_targets reached_recipes runs_txtar runs_python ends_with
routinely_run path none = runs
routinely_run path (some src) =
    let ts = parse_makefile src in
    let hay = reached_recipes ts (reached_targets ts) in
    if ends_with (codes ".txtar") path
    then (if any runs_txtar (split newline hay) then runs else no_txtar_runner)
    else if ends_with (codes ".py") path
    then (if runs_python path hay then runs else no_python_runner)
    else unknown_harness
