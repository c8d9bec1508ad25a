-- ===== src/Corpus/Rows.antt =====
-- scripts/check-mutation-anchors.py: `row_verdicts` and `cross_verdicts`, on rows as JSON holds them.
pub mod Sound
pub mod Apart
use cryptocourt.Base.{
  ℕ, ◌+◌, Bool, true, false, not, ◌&&◌, ◌||◌, Option, none, some, List, [], ◌∷◌, ◌++◌, map, keep,
  length, leb, ◌==◌, if◌then◌else◌,
}
use cryptocourt.Base.Text.{Text, codes, ◌=text◌, count}
use cryptocourt.Base.Decimal.{is_digit}
use cryptocourt.Base.Groups.{repeated}
use cryptocourt.Mutate.Output.{is_word, span}
use cryptocourt.Mutate.Verdict.{is_nil}
use cryptocourt.Corpus.Makefile.{Routine, runs, no_txtar_runner, no_python_runner, unknown_harness}

-- A row, as a JSON object whose values are texts; `none` is a key that it lacks.
pub record RawRow : Type 0 where
  pub file : Option Text
  pub find : Option Text
  pub substitute : Option Text
  pub pkg : Option Text
  pub label : Option Text
  pub elsewhere : Option Text

-- An item of a corpus: a JSON object, or some other value.
pub data Entry : Type 0 where
  object : RawRow → Entry
  other : Entry

-- What `resolve` gives for a package and a file.
pub data Resolved : Type 0 where
  no_package no_file : Resolved
  found : Text → Resolved

pub data Problem : Type 0 where
  malformed unlabelled line_numbered stale_elsewhere unknown_pkg missing_file no_op : Problem
  unrun_elsewhere : Routine → Problem
  bad_anchor : ℕ → Problem

-- `:\d` at the head.
abbrev colon_digit : Text → Bool
colon_digit (c ∷ d ∷ s) = c == b':' && is_digit d
colon_digit _ = false

-- `LINE_NUMBERED_LABEL.search`: from a letter on, the word that begins there, a colon and a digit.
unfoldable pub is_line_numbered : Text → Bool
unfolding span is_word
is_line_numbered [] = false
is_line_numbered (c ∷ s) =
    (((leb b'a' c && leb c b'z') || (leb b'A' c && leb c b'Z') || (c == b'_'))
      && colon_digit (span is_word s).1)
    || is_line_numbered s

-- The keys of `REQUIRED`: file, find and replace.
pub record Triple : Type 0 where
  pub at_file : Text
  pub anchor : Text
  pub swap : Text

unfoldable pub required : RawRow → Option Triple
required r = elim r.file [
  | none ↦ none
  | some f ↦ elim r.find [
    | none ↦ none
    | some a ↦ elim r.substitute [
      | none ↦ none
      | some b ↦ some (record { at_file = f; anchor = a; swap = b })
    ]
  ]
]

-- `r.get("pkg", "govern")`.
unfoldable pub raw_pkg : RawRow → Text
raw_pkg r = elim r.pkg [ none ↦ codes "govern" | some p ↦ p ]

-- `if not label`, then the test of its form.
unfoldable pub label_problems : Option Text → List Problem
unfolding is_line_numbered
label_problems none = unlabelled ∷ []
label_problems (some []) = unlabelled ∷ []
label_problems (some (c ∷ s)) = if is_line_numbered (c ∷ s) then line_numbered ∷ [] else []

abbrev pub routine_problems : Routine → List Problem
routine_problems runs = []
routine_problems no_txtar_runner = unrun_elsewhere no_txtar_runner ∷ []
routine_problems no_python_runner = unrun_elsewhere no_python_runner ∷ []
routine_problems unknown_harness = unrun_elsewhere unknown_harness ∷ []

unfoldable pub anchor_problems : Triple → Resolved → List Problem
unfolding ◌=text◌
anchor_problems t no_package = unknown_pkg ∷ []
anchor_problems t no_file = missing_file ∷ []
anchor_problems t (found text) =
    if t.anchor =text t.swap
    then no_op ∷ []
    else if not (count t.anchor text == 1)
    then bad_anchor (count t.anchor text) ∷ []
    else []

module _ (exists : Text → Bool) (routine : Text → Routine) (resolve : Text → Text → Resolved) where
  -- An empty `elsewhere` counts as none. `exists` looks below the repository, and `routine` is
  -- `routinely_run` on its Makefile.
  unfoldable pub elsewhere_problems : Option Text → List Problem
  elsewhere_problems none = []
  elsewhere_problems (some []) = []
  elsewhere_problems (some (c ∷ s)) =
      if not (exists (c ∷ s)) then stale_elsewhere ∷ [] else routine_problems (routine (c ∷ s))

  -- What one turn of the loop adds.
  unfoldable pub row_problems : Entry → List Problem
  unfolding required label_problems raw_pkg anchor_problems elsewhere_problems
  row_problems other = malformed ∷ []
  row_problems (object r) = elim (required r) [
    | none ↦ malformed ∷ []
    | some t ↦
        label_problems r.label
        ++ (elsewhere_problems r.elsewhere ++ anchor_problems t (resolve (raw_pkg r) t.at_file))
  ]

  unfoldable pub row_verdicts : List Entry → List Problem
  unfolding row_problems
  row_verdicts [] = []
  row_verdicts (e ∷ rows) = row_problems e ++ row_verdicts rows

-- The identity of a mutation: package, file, anchor and substitute.
pub record Key : Type 0 where
  pub key_pkg : Text
  pub key_triple : Triple

unfoldable pub same_key : Key → Key → Bool
unfolding ◌=text◌
same_key a b =
    (a.key_pkg =text b.key_pkg)
    && (a.key_triple.at_file =text b.key_triple.at_file)
    && (a.key_triple.anchor =text b.key_triple.anchor)
    && (a.key_triple.swap =text b.key_triple.swap)

-- A corpus file's name with one of its items.
abbrev pub Placed : Type 0
Placed = Text × Entry

-- The pairs that `by_mutation` is filled from.
unfoldable pub mutations : List Placed → List (Key × (Text × Option Text))
unfolding required raw_pkg
mutations [] = []
mutations ((rel, other) ∷ pairs) = mutations pairs
mutations ((rel, object r) ∷ pairs) = elim (required r) [
  | none ↦ mutations pairs
  | some t ↦ (record { key_pkg = raw_pkg r; key_triple = t }, (rel, r.label)) ∷ mutations pairs
]

abbrev named : Option Text → Bool
named none = false
named (some []) = false
named (some (c ∷ s)) = true

abbrev label_of : Option Text → Text
label_of none = []
label_of (some s) = s

-- The pairs that `by_label` is filled from.
unfoldable pub labels : List Placed → List (Text × (Text × Text))
unfolding required
labels [] = []
labels ((rel, other) ∷ pairs) = labels pairs
labels ((rel, object r) ∷ pairs) = elim (required r) [
  | none ↦ labels pairs
  | some t ↦ elim (named r.label) [
    | true ↦ (label_of r.label, (rel, t.at_file)) ∷ labels pairs
    | false ↦ labels pairs
  ]
]

pub data Clash : Type 0 where
  duplicate_triple : Key × List (Text × Option Text) → Clash
  duplicate_label : Text × List (Text × Text) → Clash

-- The groups of more than one row; the order in which they are printed is not modelled.
unfoldable pub cross_verdicts : List Placed → List Clash
unfolding repeated mutations labels same_key ◌=text◌
cross_verdicts pairs =
    map duplicate_triple (repeated same_key (mutations pairs))
    ++ map duplicate_label (repeated ◌=text◌ (labels pairs))
