-- ===== src/Physics/Entries.antt =====
-- scripts/check-demo-physics.py: `claims` and `courts`, the entries of the dataset's region with
-- their bodies.
use cryptocourt.Base.{
  ℕ, zero, suc, ◌-◌, leb, length, Bool, true, ◌&&◌, ◌||◌, Option, none, some, List, [], ◌∷◌, ◌++◌,
  ◌==◌, if◌then◌else◌,
}
use cryptocourt.Base.Text.{Text, codes, drop_prefix, starts_with, lstrip, newline, is_space}
use cryptocourt.Base.Decimal.{is_digit}
use cryptocourt.Base.Exec.{Result, ok, err}
use cryptocourt.Mutate.Output.{span}
use cryptocourt.Physics.Scan.{Crash, no_section, block_from}

unfoldable pub is_lower : ℕ → Bool
is_lower c = leb b'a' c && leb c b'z'

-- What follows `\s*:\s*\{`.
unfoldable pub opens : Text → Option Text
unfolding lstrip drop_prefix codes
opens s = elim (drop_prefix (codes ":") (lstrip s)) [
  | none ↦ none
  | some behind ↦ drop_prefix (codes "{") (lstrip behind)
]

-- A match of `"([a-z]+/\d+)"\s*:\s*\{`: the key, and what follows the brace.
unfoldable pub claim_at : Text → Option (Text × Text)
unfolding drop_prefix span is_lower opens codes
claim_at s = elim (drop_prefix (codes "\"") s) [
  | none ↦ none
  | some t ↦
      let slug = span is_lower t in
      elim (drop_prefix (codes "/") slug.1) [
        | none ↦ none
        | some u ↦
            let id = span is_digit u in
            elim (drop_prefix (codes "\"") id.1) [
              | none ↦ none
              | some behind ↦ elim (opens behind) [ none ↦ none | some rest ↦ key slug.0 id.0 rest ]
            ]
      ]
]
  where
    key : (slug id rest : Text) → Option (Text × Text)
    key (c ∷ slug) (d ∷ id) rest = some ((c ∷ slug) ++ (codes "/" ++ (d ∷ id)), rest)
    key slug id rest = none

-- The matches from left to right, each behind the one before; `skip` characters belong to it.
unfoldable pub claims_from : ℕ → Text → List (Text × Text)
unfolding claim_at block_from
claims_from skip [] = []
claims_from (suc skip) (c ∷ s) = claims_from skip s
claims_from zero (c ∷ s) =
    let next = claims_from zero s in
    let behind = λ (rest : Text). claims_from (length s - length rest) s in
    elim (claim_at (c ∷ s)) [
      | none ↦ next
      | some found ↦ (found.0, block_from 1 found.1) ∷ behind found.1
    ]

-- The text from the first occurrence of `p` on.
unfoldable pub from_first : Text → Text → Option Text
unfolding starts_with
from_first p [] = none
from_first p (c ∷ s) =
    let later = from_first p s in if starts_with p (c ∷ s) then some (c ∷ s) else later

-- The block behind `claims:`, or else the whole region; `index("{")` finds a brace, since the
-- marker ends in one.
unfoldable pub claims_block : Text → Text
unfolding from_first block_from codes
claims_block region = elim (from_first (codes "claims:{") region) [
  | some s ↦ braces s
  | none ↦ elim (from_first (codes "claims: {") region) [ some s ↦ braces s | none ↦ region ]
]
  where
    braces : Text → Text
    braces s = elim (from_first (codes "{") s) [ none ↦ [] | some t ↦ block_from 0 t ]

-- No claim at all is an exit.
unfoldable pub claims : Text → Result Crash (List (Text × Text))
unfolding claims_from claims_block
claims region = elim (claims_from 0 (claims_block region)) [
  | [] ↦ err (no_section (codes "claims"))
  | c ∷ cs ↦ ok (c ∷ cs)
]

-- A match of `\s{4}([a-z][a-z0-9]*)\s*:\s*\{` at the start of a line.
unfoldable pub court_at : Text → Option (Text × Text)
unfolding span is_lower is_space opens
court_at (a ∷ b ∷ c ∷ d ∷ e ∷ s) =
    if is_space a && is_space b && is_space c && is_space d && is_lower e
    then named (span (λ x. is_lower x || is_digit x) s)
    else none
  where
    named : Text × Text → Option (Text × Text)
    named run = elim (opens run.1) [ none ↦ none | some rest ↦ some (e ∷ run.0, rest) ]
court_at few = none

unfoldable pub prefix : ℕ → Text → Text
prefix zero s = []
prefix (suc n) [] = []
prefix (suc n) (c ∷ s) = c ∷ prefix n s

unfoldable pub suffix : ℕ → Text → Text
suffix zero s = s
suffix (suc n) [] = []
suffix (suc n) (c ∷ s) = suffix n s

-- The entries up to the one that the claims follow; `fresh` tells that a line begins.
unfoldable pub courts_from : ℕ → (fresh : Bool) → Text → List (Text × Text)
unfolding court_at block_from prefix suffix starts_with lstrip codes
courts_from skip fresh [] = []
courts_from (suc skip) fresh (c ∷ s) = courts_from skip (c == newline) s
courts_from zero fresh (c ∷ s) =
    let next = courts_from zero (c == newline) s in
    let behind = λ (rest : Text). courts_from (length s - length rest) (c == newline) s in
    elim (if fresh then court_at (c ∷ s) else none) [
      | none ↦ next
      | some found ↦
          let body = block_from 1 found.1 in
          let after = prefix 40 (suffix (length body) found.1) in
          (found.0, body)
          ∷ (if starts_with (codes "claims:") (lstrip after) then [] else behind found.1)
    ]

unfoldable pub courts : Text → Result Crash (List (Text × Text))
unfolding from_first courts_from
courts region = elim (from_first (codes "courts:") region) [
  | none ↦ err (no_section (codes "courts:"))
  | some s ↦ ok (courts_from 0 true s)
]
