-- ===== src/Scenario/Command/Flags.antt =====
-- scripts/scenario.py: `_load` behind the run of the module's code, and `flag`.
use cryptocourt.Base.{Bool, Option, none, some, List, [], ◌∷◌, if◌then◌else◌}
use cryptocourt.Base.Text.{Text, ◌=text◌}
use cryptocourt.Base.Exec.{Result, ok, err}
use cryptocourt.Scenario.Step.{Scenario, BuildError}
use cryptocourt.Scenario.Quote.{EmitError}

-- The names that the command line looks up in a module: `SCENARIO`, and `CI` with its default.
pub record Module : Type 0 where
  pub scenario : Option Scenario
  pub ci : Bool

-- What the command line complains of. Each ends it with 2.
pub data Complaint : Type 0 where
  usage : Complaint
  no_scenario : Text → Complaint
  needs_value : Text → Complaint
  not_ci : Text → Complaint
  needs_map : Text → Complaint
  unknown_kind : Text → Complaint

pub data Stop : Type 0 where
  complaint : Complaint → Stop
  build_error : BuildError → Stop
  emit_error : EmitError → Stop
  no_file : Text → Stop

-- `_load`, behind the run of the module's code.
unfoldable pub loaded : Text → Module → Result Stop (Scenario × Bool)
loaded path m = elim m.scenario [
  | none ↦ err (complaint (no_scenario path))
  | some scn ↦ ok (scn, m.ci)
]

-- The word behind the first `name`: `none` where there is no such word, `some none` where it is the
-- last.
unfoldable pub behind : Text → List Text → Option (Option Text)
behind name [] = none
behind name (w ∷ ws) = let later = behind name ws in if w =text name then some (first ws) else later
  where
    first : List Text → Option Text
    first [] = none
    first (v ∷ vs) = some v

unfoldable pub flag : Text → Option Text → List Text → Result Stop (Option Text)
unfolding behind
flag name default argv = elim (behind name argv) [
  | none ↦ ok default
  | some none ↦ err (complaint (needs_value name))
  | some (some v) ↦ ok (some v)
]

-- A text that Python takes for true.
unfoldable pub truthy : Option Text → Option Text
truthy none = none
truthy (some []) = none
truthy (some (c ∷ s)) = some (c ∷ s)
