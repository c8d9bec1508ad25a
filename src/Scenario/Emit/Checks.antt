-- ===== src/Scenario/Emit/Checks.antt =====
-- scripts/scenario.py: `emit_checks`, the assertions that hold at the end, against a seeded node.
use mathlib.Core.List.{flatten}
use cryptocourt.Base.{ℕ, suc, ◌-◌, true, false, none, some, List, [], ◌∷◌, ◌++◌, ltb, if◌then◌else◌}
use cryptocourt.Base.Text.{Text, codes, join}
use cryptocourt.Base.Decimal.{str_nat}
use cryptocourt.Base.Exec.{Result, ok, err, bind_result, try_map}
use cryptocourt.Scenario.Step.{realm, Lit, name, token, Step, expect, remark, Scenario}
use cryptocourt.Scenario.Quote.{EmitError, no_address, q_sh}
use cryptocourt.Scenario.Emit.Plan.{unescape}
use cryptocourt.Scenario.Emit.Genesis.{Addrs, find_key}

-- The assertions of the scenario, and those that are marked final.
unfoldable pub assertions : List Step → ℕ
assertions [] = 0
assertions (expect func args re note final ∷ steps) = suc (assertions steps)
assertions (_ ∷ steps) = assertions steps

unfoldable pub final_assertions : List Step → ℕ
final_assertions [] = 0
final_assertions (expect func args re note true ∷ steps) = suc (final_assertions steps)
final_assertions (expect func args re note false ∷ steps) = final_assertions steps
final_assertions (_ ∷ steps) = final_assertions steps

-- An account becomes its address, between double quotes.
unfoldable pub check_arg : Addrs → Lit → Result EmitError Text
unfolding find_key
check_arg addrs (token t) = ok t
check_arg addrs (name t) = elim (find_key t addrs) [
  | none ↦ err no_address
  | some a ↦ ok (b'"' ∷ (a.0 ++ (b'"' ∷ [])))
]

unfoldable pub check_lines : Text → Text → Text → List Text
unfolding q_sh
check_lines expr func re =
    (codes "got=$(q " ++ (q_sh expr ++ codes " 2>&1 | tr -d '\\n')"))
    ∷ (codes "case \"$got\" in *) printf '%s' \"$got\" | grep -Eq "
        ++ (q_sh re
            ++ (codes " || { printf 'seed: %s(%s) is %s, wanted %s\\n' "
                ++ (q_sh func
                    ++ (codes " "
                        ++ (q_sh expr
                            ++ (codes " \"$got\" "
                                ++ (q_sh re ++ codes " >&2; exit 1; };; esac"))))))))
    ∷ []

unfoldable pub check_step : Addrs → Step → Result EmitError (List Text)
unfolding check_arg check_lines unescape
check_step addrs (remark text) = ok ((codes "say " ++ q_sh text) ∷ [])
check_step addrs (expect func args re note true) =
    bind_result (try_map (check_arg addrs) args) λ parts.
      let inner = unescape (join (codes ",") parts) in
      ok (
        check_lines (realm ++ (codes "." ++ (func ++ (codes "(" ++ (inner ++ codes ")"))))) func re)
check_step addrs _ = ok []

unfoldable pub checks_header : Scenario → List Text
checks_header scn =
    codes "#!/bin/sh"
    ∷ (codes "# GENERATED from scenarios/"
        ++ (scn.name ++ codes ".py by scripts/scenario.py — do not edit."))
    ∷ codes "#"
    ∷ codes "# The scenario's assertions, run against a node seeded from a genesis"
    ∷ codes "# txs-file. Genesis application is bulk and does not stop on a failed"
    ∷ codes "# transaction, so these reads are what proves the seed landed."
    ∷ codes "set -eu"
    ∷ codes "REMOTE=\"${REMOTE:-http://127.0.0.1:26657}\""
    ∷ codes "q() { gnokey query vm/qeval -remote \"$REMOTE\" --data \"$1\"; }"
    ∷ codes "say() { printf '  %s\\n' \"$1\"; }"
    ∷ []
    ∷ []

-- What is said of the assertions that are left out.
unfoldable pub skipped_line : ℕ → ℕ → List Text
unfolding q_sh
skipped_line kept total =
    if ltb kept total
    then (codes "say "
        ++ q_sh (
            str_nat kept
            ++ (codes " of "
                ++ (str_nat total
                    ++ (codes " assertions are end-state and re-checked here; the other "
                        ++ (str_nat (total - kept)
                            ++ codes
                                " are point-in-time and only the broadcast path can make them"))))))
      ∷ []
    else []

-- An accounts map that is missing is an empty one.
unfoldable pub emit_checks : Scenario → Addrs → Result EmitError Text
unfolding checks_header assertions final_assertions skipped_line check_step
emit_checks scn addrs = bind_result (try_map (check_step addrs) scn.steps) λ blocks. ok (
    join (codes "\n") (
      checks_header scn
      ++ (skipped_line (final_assertions scn.steps) (assertions scn.steps)
          ++ (flatten blocks ++ ([] ∷ [])))))
