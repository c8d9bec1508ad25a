-- ===== src/Selftest/Anchors.antt =====
-- scripts/check-control-anchors.py: `main` behind the lock, on the call sites of `control` as `ast`
-- reads them.
use cryptocourt.Base.{ℕ, Option, none, some, List, [], ◌∷◌, ◌==◌, if◌then◌else◌}
use cryptocourt.Base.Text.{Text, count}
use cryptocourt.Selftest.Repo.{Repo, full_path}
use cryptocourt.Selftest.Exprs.{Expr, Consts, ev}

-- The word `argv` of a call: absent, a list, or another expression.
pub data Argv : Type 0 where
  absent : Argv
  listed : List Expr → Argv
  opaque : Argv

-- A call of `control`, with its positional arguments.
pub record Call : Type 0 where
  pub line : ℕ
  pub args : List Expr
  pub argv : Argv

pub data Fault : Type 0 where
  too_few : Fault
  not_resolvable : Fault
  not_a_file : Text → Fault
  matches : ℕ → (path : Text) → Fault

module _ (root : Text) (consts : Consts) (repo : Repo) where
  -- The text in which the arm plants, by its path; `find` must occur once.
  unfoldable pub plant_fault : (path find : Text) → Option Fault
  unfolding full_path count
  plant_fault path find = elim (repo (full_path root path)) [
    | none ↦ some (not_a_file path)
    | some src ↦ if count find src == 1 then none else some (matches (count find src) path)
  ]

  unfoldable pub call_fault : List Expr → Option Fault
  unfolding ev plant_fault
  call_fault (label ∷ path ∷ find ∷ more) = elim (ev consts path) [
    | none ↦ some not_resolvable
    | some p ↦ elim (ev consts find) [ none ↦ some not_resolvable | some f ↦ plant_fault p f ]
  ]
  call_fault few = some too_few

  unfoldable pub faults : List Call → List (Call × Fault)
  unfolding call_fault
  faults [] = []
  faults (c ∷ calls) =
      let rest = faults calls in
      elim (call_fault c.args) [ none ↦ rest | some fault ↦ (c, fault) ∷ rest ]

  -- The exit code.
  unfoldable pub check_anchors : List Call → ℕ
  unfolding faults
  check_anchors [] = 1
  check_anchors (c ∷ calls) = elim (faults (c ∷ calls)) [ [] ↦ 0 | f ∷ fs ↦ 1 ]
