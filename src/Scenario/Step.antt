-- ===== src/Scenario/Step.antt =====
-- scripts/scenario.py: the values, steps and state of a `Scenario`, with the module's constants.
use cryptocourt.Base.{ℕ, ◌+◌, Bool, false, Option, List, [], ◌∷◌, if◌then◌else◌}
use cryptocourt.Base.Text.{Text, codes}
use cryptocourt.Base.Int.{ℤ, str_int}

abbrev pub realm : Text
realm = codes "gno.land/r/kourt/kourtv2"

abbrev pub chain_id : Text
chain_id = codes "tendermint_test"

abbrev pub gas : Text
gas = codes "-gas-fee 1000000ugnot -gas-wanted 200000000"

abbrev pub gas_wanted : ℕ
gas_wanted = 200000000

abbrev pub deployer : Text
deployer = codes "test1"

abbrev pub gas_fee_ugnot : ℕ
gas_fee_ugnot = 1000000

abbrev pub deployer_premine_min : ℕ
deployer_premine_min = 10000000000000

abbrev pub mine_cap : ℕ
mine_cap = 500000

abbrev pub block_secs : ℕ
block_secs = 5

-- The packages that the txtar script loads.
abbrev pub deps : List Text
deps =
    codes "gno.land/p/kourt/checkpoint/v0"
    ∷ codes "gno.land/p/kourt/grc20votes/v0"
    ∷ codes "gno.land/p/kourt/governor/v0"
    ∷ codes "gno.land/p/kourt/twap/v0"
    ∷ codes "gno.land/p/kourt/curve/v0"
    ∷ realm
    ∷ []

-- A Python value that a scenario passes on. `addr` is a text marked `_is_addr`; a float carries
-- the text that `str` gives.
pub data Value : Type 0 where
  str : Text → Value
  addr : Text → Value
  int : ℤ → Value
  bool : Bool → Value
  float : Text → Value
  nothing : Value

-- `str(a)`.
unfoldable pub str_value : Value → Text
str_value (str t) = t
str_value (addr t) = t
str_value (int n) = str_int n
str_value (bool b) = if b then codes "True" else codes "False"
str_value (float t) = t
str_value nothing = codes "None"

-- One argument of a read: an account's name, still to be resolved, or a gno literal.
pub data Lit : Type 0 where
  name : Text → Lit
  token : Text → Lit

-- The steps, by their "kind". The last text of `call`, `refuse` and `mine` is the note.
pub data Step : Type 0 where
  call : (who func : Text) → (args : List Text) → (send : Option Text) → (note : Text) → Step
  refuse : (who func : Text) → (args : List Text) → (re note : Text) → Step
  expect : (func : Text) → (args : List Lit) → (re note : Text) → (final : Bool) → Step
  remark : (text : Text) → Step
  mine : (n : ℕ) → (note : Text) → Step

-- The ways in which a method raises `ValueError`.
pub data BuildError : Type 0 where
  deployer_account reserved_account bad_account_name : BuildError
  clock_not_armed not_forward past_mine_cap : BuildError
  not_a_read not_a_write multiline_note : BuildError
  dialect_trap float_literal none_literal quote_in_literal backslash_in_literal : BuildError

pub record Scenario : Type 0 where
  pub name : Text
  pub preamble : Text
  pub accounts : List (Text × ℤ)
  pub steps : List Step
  pub clock_armed : Bool
  pub clock_ever_armed : Bool
  pub advanced : ℕ
  pub advanced_height : ℕ

-- `Scenario(name, preamble)`.
unfoldable pub init : Text → Text → Scenario
init n p = record {
  name = n;
  preamble = p;
  accounts = [];
  steps = [];
  clock_armed = false;
  clock_ever_armed = false;
  advanced = 0;
  advanced_height = 0;
}

-- `sum(st["n"] for st in steps if st["kind"] == "mine")`.
unfoldable pub mined : List Step → ℕ
mined [] = 0
mined (mine n w ∷ steps) = n + mined steps
mined (_ ∷ steps) = mined steps
