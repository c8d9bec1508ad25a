-- ===== src/Selftest/Vacuity.antt =====
-- scripts/selftest-checks.py: `vacuity_audit`. A guard's output on the clean repository is computed
-- for each call site; the source keeps it in a dictionary by its command.
use cryptocourt.Base.{ℕ, suc, Bool, Option, none, some, List, [], ◌∷◌, if◌then◌else◌}
use cryptocourt.Base.Text.{Text, codes, contains}
use cryptocourt.Selftest.Repo.{Repo}
use cryptocourt.Selftest.Arms.{Run, closed, command}
use cryptocourt.Selftest.Exprs.{Expr, Consts, ev}
use cryptocourt.Selftest.Anchors.{Argv, absent, listed, opaque, Call}

unfoldable pub ev_all : Consts → List Expr → Option (List Text)
unfolding ev
ev_all consts [] = some []
ev_all consts (e ∷ es) = elim (ev consts e) [
  | none ↦ none
  | some t ↦ elim (ev_all consts es) [ none ↦ none | some ts ↦ some (t ∷ ts) ]
]

-- The fifth positional argument, `want`.
unfoldable pub want_of : Consts → List Expr → Option Text
unfolding ev
want_of consts (label ∷ path ∷ find ∷ substitute ∷ want ∷ more) = ev consts want
want_of consts few = none

unfoldable pub label_of : Consts → List Expr → Text
unfolding ev
label_of consts [] = codes "?"
label_of consts (label ∷ more) = elim (ev consts label) [
  | none ↦ codes "?"
  | some [] ↦ codes "?"
  | some (c ∷ s) ↦ c ∷ s
]

-- The command, if it is one that the audit can read and is not empty.
unfoldable pub command_of : Consts → Argv → Option (List Text)
unfolding ev_all command
command_of consts absent = some (command none)
command_of consts opaque = none
command_of consts (listed es) = elim (ev_all consts es) [
  | none ↦ none
  | some [] ↦ none
  | some (a ∷ argv) ↦ some (a ∷ argv)
]

pub record Vacuous : Type 0 where
  pub label : Text
  pub want : Text
  pub argv : List Text

-- What the audit counts, and the call sites that it objects to.
pub record Audit : Type 0 where
  pub parsed : ℕ
  pub unresolved : ℕ
  pub bad : List Vacuous

module _ (run : Run) (root : Text) (consts : Consts) (repo : Repo) where
  -- Whether a guard says `want` on the clean repository.
  unfoldable pub says_clean : Text → List Text → Bool
  unfolding contains
  says_clean want argv = contains want (run argv closed (some root) repo).said

  unfoldable pub audit_call : Call → Audit → Audit
  unfolding want_of label_of command_of says_clean
  audit_call c rest =
      let skipped : Audit = record {
        parsed = suc rest.parsed;
        unresolved = suc rest.unresolved;
        bad = rest.bad;
      } in
      elim (want_of consts c.args) [
        | none ↦ skipped
        | some want ↦ elim (command_of consts c.argv) [
          | none ↦ skipped
          | some argv ↦ record {
            parsed = suc rest.parsed;
            unresolved = rest.unresolved;
            bad =
                if says_clean want argv
                then record { label = label_of consts c.args; want = want; argv = argv } ∷ rest.bad
                else rest.bad;
          }
        ]
      ]

  unfoldable pub vacuity_audit : List Call → Audit
  unfolding audit_call
  vacuity_audit [] = record { parsed = 0; unresolved = 0; bad = [] }
  vacuity_audit (c ∷ calls) = audit_call c (vacuity_audit calls)
