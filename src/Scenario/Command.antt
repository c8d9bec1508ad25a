-- ===== src/Scenario/Command.antt =====
-- scripts/scenario.py: `_load`, `_list_ci` and `main`. A run of a module's code is the
-- parameter `exec_module`, and `read_file` is a text file with its line ends made `\n`; `modules`
-- are the scenario files of the directory, sorted. `argv` begins with the script's own name.
pub mod Flags
pub mod Keyring
pub mod Rows
pub mod Mapped
pub mod Seeded
pub mod Appended
pub mod Written
pub mod Genesis
pub mod Tests
use cryptocourt.Base.{ℕ, length, Bool, not, ◌&&◌, Option, none, some, List, [], ◌∷◌, if◌then◌else◌}
use cryptocourt.Base.Text.{Text, codes, ◌=text◌, text_in, splitlines}
use cryptocourt.Base.Exec.{Result, ok, err, bind_result}
use cryptocourt.Scenario.Step.{Scenario, mined}
use cryptocourt.Scenario.Quote.{EmitError}
use cryptocourt.Scenario.Bech32.{Bytes}
use cryptocourt.Scenario.Emit.Txtar.{emit_txtar}
use cryptocourt.Scenario.Emit.Plan.{emit_plan}
use cryptocourt.Scenario.Emit.Accounts.{emit_accounts, transactions}
use cryptocourt.Scenario.Emit.Checks.{emit_checks}
use cryptocourt.Scenario.Emit.Genesis.{emit_txs}
use cryptocourt.Scenario.Command.Flags.{
  Module, Stop, complaint, build_error, emit_error, no_file, Complaint, usage, needs_map, not_ci,
  unknown_kind, loaded, flag, truthy,
}
use cryptocourt.Scenario.Command.Keyring.{accounts_map}

unfoldable pub as_stop {ℓ} : {A : Type ℓ} → Result EmitError A → Result Stop A
as_stop (ok a) = ok a
as_stop (err e) = err (emit_error e)

-- The figures of the line that `main` prints behind `--out`.
pub record Figures : Type 0 where
  pub transactions : ℕ
  pub mined_blocks : ℕ
  pub seconds : ℕ
  pub blocks : ℕ
  pub lines : ℕ

unfoldable pub figures : Scenario → Text → Figures
unfolding transactions mined splitlines
figures scn text = record {
  transactions = transactions scn.steps;
  mined_blocks = mined scn.steps;
  seconds = scn.advanced;
  blocks = scn.advanced_height;
  lines = length (splitlines text);
}

-- What a run that returns 0 has done: the modules it listed, the text it printed, or the file it
-- wrote.
pub data Done : Type 0 where
  listed : List Text → Done
  printed : Text → Done
  wrote : (path text : Text) → Figures → Done

-- The emitters that take the scenario alone, by the word behind `--emit`.
unfoldable pub emit_plain : Text → Scenario → Result Stop Text
unfolding ◌=text◌ emit_txtar emit_plan emit_accounts as_stop
emit_plain kind scn =
    if kind =text codes "txtar"
    then as_stop (emit_txtar scn)
    else if kind =text codes "plan"
    then ok (emit_plan scn)
    else if kind =text codes "accounts"
    then ok (emit_accounts scn)
    else err (complaint (unknown_kind kind))

unfoldable pub delivered_to : Scenario → Text → Option Text → Done
unfolding truthy figures
delivered_to scn text out = elim (truthy out) [
  | none ↦ printed text
  | some path ↦ wrote path text (figures scn text)
]

-- A scenario that is not for the gate has no txtar.
unfoldable pub allowed_kind : Text → Bool → Option Text → Result Stop Text
unfolding ◌=text◌
allowed_kind path is_ci none = err (complaint (unknown_kind (codes "None")))
allowed_kind path is_ci (some kind) =
    if not is_ci && (kind =text codes "txtar") then err (complaint (not_ci path)) else ok kind

-- The word behind `--emit`.
unfoldable pub kind_of : Text → Bool → List Text → Result Stop Text
unfolding flag allowed_kind
kind_of path is_ci argv =
    bind_result (flag (codes "--emit") (some (codes "txtar")) argv) (allowed_kind path is_ci)

module _ (exec_module : Text → Result Stop Module) where
  unfoldable pub load : Text → Result Stop (Scenario × Bool)
  unfolding loaded
  load path = bind_result (exec_module path) (loaded path)

  -- A module that ends in an exit is skipped; any other exception ends the listing.
  unfoldable pub list_ci : List Text → Result Stop (List Text)
  unfolding load
  list_ci [] = ok []
  list_ci (f ∷ fs) =
      let rest = list_ci fs in
      elim (load f) [
        | err (complaint c) ↦ rest
        | err (build_error e) ↦ err (build_error e)
        | err (emit_error e) ↦ err (emit_error e)
        | err (no_file p) ↦ err (no_file p)
        | ok found ↦ bind_result rest λ more. ok (if found.1 then f ∷ more else more)
      ]

module _ (b64 : Bytes → Text) (read_file : Text → Option Text) where
  -- `txs` and `checks`, for the word behind `--accounts-map`.
  unfoldable pub emit_with : Text → Scenario → Option Text → Result Stop Text
  unfolding truthy accounts_map emit_txs emit_checks as_stop ◌=text◌
  emit_with kind scn amap = elim (truthy amap) [
    | none ↦ err (complaint (needs_map kind))
    | some path ↦ elim (read_file path) [
      | none ↦ err (no_file path)
      | some content ↦ as_stop (
          if kind =text codes "txs"
          then emit_txs b64 scn (accounts_map content)
          else emit_checks scn (accounts_map content))
    ]
  ]

  unfoldable pub emit_mapped : Text → Scenario → List Text → Result Stop Text
  unfolding flag emit_with
  emit_mapped kind scn argv =
      bind_result (flag (codes "--accounts-map") none argv) (emit_with kind scn)

  unfoldable pub emit_kind : Text → Scenario → List Text → Result Stop Text
  unfolding emit_mapped emit_plain text_in
  emit_kind kind scn argv =
      if text_in kind (codes "txs" ∷ codes "checks" ∷ [])
      then emit_mapped kind scn argv
      else emit_plain kind scn

  -- The text that is emitted.
  unfoldable pub text_for : Text → Scenario × Bool → List Text → Result Stop Text
  unfolding kind_of emit_kind
  text_for path found argv =
      bind_result (kind_of path found.1 argv) λ kind. emit_kind kind found.0 argv

module _ (b64 : Bytes → Text) (exec_module : Text → Result Stop Module)
    (read_file : Text → Option Text) where
  unfoldable pub run_on : Text → List Text → Result Stop Done
  unfolding load text_for flag delivered_to
  run_on path argv = bind_result (load exec_module path) λ found.
      bind_result (text_for b64 read_file path found argv) λ text.
        bind_result (flag (codes "--out") none argv) λ out. ok (delivered_to found.0 text out)

  unfoldable pub run_words : List Text → Result Stop Done
  unfolding run_on
  run_words (script ∷ path ∷ more) = run_on path (script ∷ path ∷ more)
  run_words few = err (complaint usage)

  unfoldable pub main : (modules argv : List Text) → Result Stop Done
  unfolding list_ci run_words text_in
  main modules argv =
      if text_in (codes "--list-ci") argv
      then bind_result (list_ci exec_module modules) (λ fs. ok (listed fs))
      else run_words argv
