-- ===== src/Scenario/Emit/Plan.antt =====
-- scripts/scenario.py: `emit_plan`, the shell script that seeds a live node.
use mathlib.Core.List.{flatten}
use cryptocourt.Base.{
  ◌-◌, Bool, true, false, ◌&&◌, Option, none, some, List, [], ◌∷◌, ◌++◌, map, any, leb, ◌==◌,
  if◌then◌else◌,
}
use cryptocourt.Base.Text.{Text, codes, ◌=text◌, join, strip, replace}
use cryptocourt.Base.Decimal.{str_nat}
use cryptocourt.Base.Int.{ℤ}
use cryptocourt.Scenario.Step.{
  realm, deployer, Lit, name, token, Step, call, refuse, expect, remark, mine, Scenario,
}
use cryptocourt.Scenario.Quote.{q_sh, args_sh}
use cryptocourt.Scenario.Emit.Txtar.{spaced, remark_line}

-- `s.upper()`, on ASCII.
unfoldable pub upper : Text → Text
upper = map (λ c. if leb b'a' c && leb c b'z' then c - 32 else c)

-- An escaped double quote becomes a plain one.
unfoldable pub unescape : Text → Text
unescape = replace (codes "\\\"") (codes "\"")

-- An account becomes the shell variable that holds its address.
unfoldable pub plan_arg : Lit → Text
unfolding upper unescape
plan_arg (name t) = codes "\"$" ++ (upper t ++ codes "_ADDR\"")
plan_arg (token t) = unescape t

unfoldable pub plan_query : Text → List Lit → Text
unfolding plan_arg
plan_query func args =
    realm
    ++ (codes "." ++ (func ++ (codes "(" ++ (join (codes ",") (map plan_arg args) ++ codes ")"))))

-- Double quotes let the shell put the address in.
unfoldable pub quote_query : Text → Text
unfolding q_sh
quote_query expr =
    if any (λ c. c == b'$') expr
    then b'"' ∷ (replace (codes "\"") (codes "\\\"") expr ++ (b'"' ∷ []))
    else q_sh expr

unfoldable pub send_flag_sh : Option Text → Text
unfolding q_sh
send_flag_sh none = []
send_flag_sh (some []) = []
send_flag_sh (some (c ∷ s)) = codes " -send " ++ q_sh (c ∷ s)

unfoldable pub seal_lines : List Text
seal_lines =
    []
    ∷ codes "# Seal the clock: from here the node behaves like any other chain, and"
    ∷ codes "# no later transaction can move its dates again."
    ∷ (codes "tx call -pkgpath " ++ (realm ++ codes " -func SealTestClock deployer"))
    ∷ codes "echo \"  clock: sealed — its dates are fabricated and now fixed\""
    ∷ []

unfoldable pub plan_step : Step → List Text
unfolding remark_line q_sh args_sh spaced send_flag_sh plan_query quote_query
plan_step (remark text) = [] ∷ remark_line 60 text ∷ (codes "say " ++ q_sh text) ∷ []
plan_step (call who func args send note) =
    spaced (
      (codes "tx call -pkgpath " ++ (realm ++ (codes " -func " ++ func)))
      ∷ args_sh args
      ∷ strip (send_flag_sh send)
      ∷ (if who =text deployer then codes "deployer" else who)
      ∷ [])
    ∷ []
plan_step (expect func args re note final) =
    (codes "q "
      ++ (quote_query (plan_query func args)
          ++ (codes " | grep -Eq "
              ++ (q_sh re
                  ++ (codes " || { printf \"seed: %s did not match %s\\n\" "
                      ++ (q_sh func ++ (codes " " ++ (q_sh re ++ codes " >&2; exit 1; }"))))))))
    ∷ []
plan_step (refuse who func args re note) =
    (codes "# refusal step skipped — a seed run is not a test (" ++ (func ++ codes ")")) ∷ []
plan_step (mine n note) =
    (codes "# " ++ (str_nat n ++ codes " blocks — a live node advances height only on real txs"))
    ∷ (codes "i=0; while [ $i -lt "
        ++ (str_nat n
            ++ codes
                " ]; do tx send -send 1ugnot -to \"$DEPLOYER_ADDR\" deployer; i=$((i+1)); done"))
    ∷ []

unfoldable pub plan_actor : Text × ℤ → List Text
unfolding upper
plan_actor (n, ugnot) =
    (upper n ++ (codes "_ADDR=\"$(addr " ++ (n ++ codes ")\"")))
    ∷ (codes ": \"${" ++ (upper n ++ (codes "_ADDR:?no " ++ (n ++ codes " key in $KEYDIR}\""))))
    ∷ []

-- The three ways to end, by the flags of the clock.
unfoldable pub plan_ending : Bool → Bool → List Text
unfolding seal_lines
plan_ending true ever = seal_lines
plan_ending false true =
    codes "echo \"  clock: sealed by the scenario — its dates are fabricated and now fixed\"" ∷ []
plan_ending false false =
    codes "echo \"  clock: never armed — this node keeps real wall-clock time\"" ∷ []

unfoldable pub plan_header : Scenario → List Text
plan_header scn =
    codes "#!/bin/sh"
    ∷ (codes "# GENERATED from scenarios/"
        ++ (scn.name ++ codes ".py by scripts/scenario.py — do not edit."))
    ∷ codes "#"
    ∷ codes "# Seeds a node that is ALREADY RUNNING (see scripts/seed-node.sh)."
    ∷ codes "# The realm's test clock gets armed here, so every date on the seeded"
    ∷ codes "# node is fabricated. Never point this at a chain you care about."
    ∷ codes "set -eu"
    ∷ codes ": \"${KEYDIR:?run me through scripts/seed-node.sh}\""
    ∷ codes "REMOTE=\"${REMOTE:-http://127.0.0.1:26657}\""
    ∷ codes "CHAINID=\"${CHAINID:-dev}\""
    ∷ codes "PASS=\"${PASS:-scenario}\""
    ∷ codes
        "TX=\"-gas-fee 1000000ugnot -gas-wanted 200000000 -broadcast -insecure-password-stdin -home $KEYDIR -remote $REMOTE -chainid $CHAINID\""
    ∷ codes "Q=\"-remote $REMOTE\""
    ∷ []
    ∷ codes "# Addresses are read back from the keyring rather than hardcoded: the"
    ∷ codes "# launcher makes fresh random keys every run, on purpose."
    ∷ codes "addr() { gnokey list -home \"$KEYDIR\" -insecure-password-stdin <<EOF 2>/dev/null |"
    ∷ codes "$PASS"
    ∷ codes "EOF"
    ∷ codes "  sed -n \"s/^[0-9]*\\. $1 (.*addr: \\(g1[a-z0-9]*\\).*/\\1/p\" | head -1; }"
    ∷ codes "# Output goes to a log, not to /dev/null. Silencing gnokey's per-signature"
    ∷ codes "# \"Enter password.\" prompt also silenced every REASON a transaction"
    ∷ codes "# failed: a deep seed died at PostAnswer and reported nothing at all."
    ∷ codes "TXLOG=\"${TXLOG:-$(mktemp)}\""
    ∷ codes "tx() { if ! gnokey maketx \"$@\" $TX >>\"$TXLOG\" 2>&1 <<EOF"
    ∷ codes "$PASS"
    ∷ codes "EOF"
    ∷ codes "  then echo \"seed: transaction failed: gnokey maketx $*\" >&2"
    ∷ codes "       tail -25 \"$TXLOG\" >&2"
    ∷ codes "       exit 1"
    ∷ codes "  fi; }"
    ∷ codes "q() { gnokey query vm/qeval $Q --data \"$1\"; }"
    ∷ codes "say() { printf '  %s\\n' \"$1\"; }"
    ∷ []
    ∷ codes "DEPLOYER_ADDR=\"$(addr deployer)\""
    ∷ codes ": \"${DEPLOYER_ADDR:?no deployer key in $KEYDIR}\""
    ∷ []

unfoldable pub plan_lines : Scenario → List Text
unfolding plan_header plan_actor plan_step plan_ending
plan_lines scn =
    plan_header scn
    ++ (flatten (map plan_actor scn.accounts)
        ++ ([]
            ∷ (flatten (map plan_step scn.steps)
                ++ (plan_ending scn.clock_armed scn.clock_ever_armed
                    ++ ([] ∷ codes "echo \"seeded: $REMOTE\"" ∷ [])))))

unfoldable pub emit_plan : Scenario → Text
unfolding plan_lines
emit_plan scn = join (codes "\n") (plan_lines scn) ++ codes "\n"
