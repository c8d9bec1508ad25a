-- ===== src/Scenario/Command/Keyring.antt =====
-- scripts/scenario.py: the accounts map that `main` reads.
use cryptocourt.Base.{none, some, List, [], ◌∷◌, ◌++◌, if◌then◌else◌}
use cryptocourt.Base.Text.{Text, codes, ◌=text◌, split, words}
use cryptocourt.Scenario.Step.{deployer}
use cryptocourt.Scenario.Emit.Genesis.{Addrs, find_key}

-- `addrs[name] = value`.
unfoldable pub put_key : Text → Text × Text → Addrs → Addrs
put_key who a [] = (who, a) ∷ []
put_key who a ((n, b) ∷ rest) =
    let put = put_key who a rest in if n =text who then (n, a) ∷ rest else (n, b) ∷ put

-- A line of the accounts map; one of fewer than three parts is skipped.
unfoldable pub add_line : Addrs → Text → Addrs
unfolding words put_key
add_line addrs line = added (words line)
  where
    added : List Text → Addrs
    added (n ∷ a ∷ k ∷ more) = put_key n (a, k) addrs
    added parts = addrs

unfoldable pub add_lines : Addrs → List Text → Addrs
unfolding add_line
add_lines addrs [] = addrs
add_lines addrs (line ∷ lines) = add_lines (add_line addrs line) lines

-- The key of "deployer" is that of the harness's deployer, unless the map has one for it.
unfoldable pub with_deployer : Addrs → Addrs
unfolding find_key
with_deployer addrs = elim (find_key deployer addrs) [
  | some a ↦ addrs
  | none ↦ elim (find_key (codes "deployer") addrs) [
    | none ↦ addrs
    | some a ↦ addrs ++ (deployer, a) ∷ []
  ]
]

unfoldable pub accounts_map : Text → Addrs
unfolding add_lines with_deployer split
accounts_map content = with_deployer (add_lines [] (split b'\n' content))
