-- ===== src/Scenario/Emit/Txtar.antt =====
-- scripts/scenario.py: `emit_txtar`, the testscript that runs a scenario on an in-memory node.
use cryptocourt.Base.{
  ℕ, ◌-◌, not, Option, none, some, List, [], ◌∷◌, ◌++◌, map, length, replicate, keep,
}
use mathlib.Core.List.{flatten}
use cryptocourt.Base.Text.{Text, codes, join, strip, rstrip, splitlines}
use cryptocourt.Base.Decimal.{str_nat}
use cryptocourt.Base.Int.{ℤ, str_int}
use cryptocourt.Base.Exec.{Result, ok, bind_result, try_map}
use cryptocourt.Scenario.Literal.{is_empty}
use cryptocourt.Scenario.Step.{
  realm, chain_id, gas, deps, Lit, name, token, Step, call, refuse, expect, remark, mine, Scenario,
}
use cryptocourt.Scenario.Quote.{EmitError, q_txtar, args_txtar}

-- `" ".join(x for x in parts if x)`.
unfoldable pub spaced : List Text → Text
unfolding is_empty
spaced parts = join (codes " ") (keep (λ t. not (is_empty t)) parts)

-- `f" -send {send}"`, if there is a non-empty one.
unfoldable pub send_flag : Option Text → Text
send_flag none = []
send_flag (some []) = []
send_flag (some (c ∷ s)) = codes " -send " ++ (c ∷ s)

-- The comment line of a note, if it is not empty.
unfoldable pub note_lines : Text → List Text
note_lines [] = []
note_lines (c ∷ s) = (codes "# " ++ (c ∷ s)) ∷ []

unfoldable pub remark_line : ℕ → Text → Text
remark_line width text =
    codes "# --- " ++ (text ++ (codes " " ++ replicate (width - length text) b'-'))

-- An account's name stands in the query as it is.
unfoldable pub lit_text : Lit → Text
lit_text (name t) = t
lit_text (token t) = t

-- `f" — {note}"`, if there is one.
unfoldable pub dash_note : Text → Text
dash_note [] = []
dash_note (c ∷ s) = codes " — " ++ (c ∷ s)

unfoldable pub wait_line : Text
wait_line = codes "gnoland wait-for-new-block"

unfoldable pub call_line : Text → Text → Text → Option Text → Text
unfolding spaced send_flag
call_line who func args send = spaced (
    (codes "gnokey maketx call -pkgpath " ++ (realm ++ (codes " -func " ++ func)))
    ∷ args
    ∷ strip (send_flag send)
    ∷ gas
    ∷ (codes "-broadcast -chainid=" ++ (chain_id ++ (codes " " ++ who)))
    ∷ [])

unfoldable pub refuse_line : Text → Text → Text → Text
unfolding spaced
refuse_line who func args = spaced (
    (codes "! gnokey maketx call -pkgpath " ++ (realm ++ (codes " -func " ++ func)))
    ∷ args
    ∷ gas
    ∷ (codes "-simulate skip -broadcast -chainid=" ++ (chain_id ++ (codes " " ++ who)))
    ∷ [])

-- The expression of a read, between double quotes.
unfoldable pub query : Text → List Lit → Text
unfolding lit_text
query func args =
    b'"'
    ∷ (realm
        ++ (codes "."
            ++ (func ++ (codes "(" ++ (join (codes ",") (map lit_text args) ++ codes ")\"")))))

-- The lines of one step.
unfoldable pub step_lines : Step → Result EmitError (List Text)
unfolding remark_line note_lines call_line refuse_line query dash_note wait_line
step_lines (remark text) = ok ([] ∷ remark_line 66 text ∷ [])
step_lines (call who func args send note) = bind_result (args_txtar args) λ tokens.
    ok (note_lines note ++ (call_line who func tokens send ∷ codes "stdout 'OK!'" ∷ [] ∷ []))
step_lines (refuse who func args re note) = bind_result (args_txtar args) λ tokens.
    bind_result (q_txtar re) λ pattern.
      ok (note_lines note ++ (refuse_line who func tokens ∷ (codes "stderr " ++ pattern) ∷ [] ∷ []))
step_lines (expect func args re note final) = bind_result (q_txtar (query func args)) λ asked.
    bind_result (q_txtar re) λ pattern. ok (
      note_lines note
      ++ ((codes "gnokey query vm/qeval --data " ++ asked)
          ∷ (codes "stdout " ++ pattern)
          ∷ []
          ∷ []))
step_lines (mine n note) = ok (
    (codes "# " ++ (str_nat n ++ (codes " blocks" ++ dash_note note)))
    ∷ (replicate n wait_line ++ ([] ∷ [])))

unfoldable pub preamble_lines : Scenario → List Text
preamble_lines scn = map (λ line. rstrip (codes "# " ++ line)) (splitlines (strip scn.preamble))

unfoldable pub actor_lines : List (Text × ℤ) → List Text
actor_lines [] = []
actor_lines (a ∷ accounts) =
    codes "# Actors. adduser must precede `gnoland start`, so these hoist."
    ∷ (map
          (λ (x : Text × ℤ).
            codes "adduser " ++ (x.0 ++ (codes " " ++ (str_int x.1 ++ codes "ugnot"))))
          (a ∷ accounts)
        ++ ([] ∷ []))

-- The lines in front of the steps.
unfoldable pub header_lines : Scenario → List Text
unfolding preamble_lines actor_lines
header_lines scn =
    (codes "# GENERATED by scripts/scenario.py from scenarios/"
      ++ (scn.name ++ codes ".py — do not edit."))
    ∷ codes "# Regenerate with: make scenarios"
    ∷ codes "#"
    ∷ (preamble_lines scn
        ++ ([]
            ∷ (map (λ d. codes "loadpkg " ++ d) deps
                ++ ([] ∷ (actor_lines scn.accounts ++ (codes "gnoland start" ∷ [] ∷ []))))))

unfoldable pub txtar_lines : Scenario → Result EmitError (List Text)
unfolding header_lines step_lines
txtar_lines scn =
    bind_result (try_map step_lines scn.steps) λ blocks. ok (header_lines scn ++ flatten blocks)

unfoldable pub emit_txtar : Scenario → Result EmitError Text
unfolding txtar_lines
emit_txtar scn =
    bind_result (txtar_lines scn) λ lines. ok (rstrip (join (codes "\n") lines) ++ codes "\n")
