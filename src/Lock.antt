-- ===== src/Lock.antt =====
-- scripts/repolock.py: the advisory lock of the runner that mutates the working tree. The lock is a
-- file that holds a process number; `World` is that file, and each process has its own environment
-- variable `KOURT_WORKTREE_OWNER`. `os.kill(pid, 0)` is the parameter `kill`, and a command that
-- `hold --` runs is the parameter `run`.
pub mod Owner
pub mod Tests
use cryptocourt.Base.{ℕ, Bool, true, false, Option, none, some, List, [], ◌∷◌, ◌++◌, if◌then◌else◌}
use cryptocourt.Base.Text.{Text, codes, ◌=text◌, strip}
use cryptocourt.Base.Decimal.{str_nat}
use cryptocourt.Base.Int.{ℤ, pos, str_int, parse_int}

-- What sending signal 0 to a process gives.
pub data Signal : Type 0 where
  delivered no_process not_permitted : Signal

-- The file of the lock; `none` when it does not exist.
abbrev pub World : Type 0
World = Option Text

-- The value of the environment variable.
abbrev pub Env : Type 0
Env = Option Text

-- Every `OSError` counts as a process that is gone.
unfoldable pub alive : Signal → Bool
alive delivered = true
alive no_process = false
alive not_permitted = false

-- The pid in the file, if there is a file that holds one.
unfoldable pub read_pid : World → Option ℤ
read_pid none = none
read_pid (some content) = parse_int (strip content)

-- `with hold()`: the file and the environment on entry, and the file on exit.
unfoldable pub enter : ℕ → World → World × Env
enter pid w = (some (str_nat pid), some (str_nat pid))

unfoldable pub leave : World → World
leave w = none

abbrev pub same_owner : Env → ℤ → Bool
same_owner none pid = false
same_owner (some owner) pid = str_int pid =text owner

-- What a reader does with the holder: `true` is the refusal.
abbrev pub verdict : Env → Option ℤ × World → Bool × World
verdict env (none, w) = (false, w)
verdict env (some pid, w) = (if same_owner env pid then false else true, w)

pub data Report : Type 0 where
  nobody usage needs_command refused : Report
  held_by : ℤ → Report
  silent : Report

-- What `_main` does with its arguments.
pub data Command : Type 0 where
  check : Command
  status : Command
  hold : List Text → Command
  help : Command

abbrev drop_dashes : List Text → List Text
drop_dashes [] = []
drop_dashes (a ∷ rest) = if a =text codes "--" then rest else a ∷ rest

abbrev with_who : List Text → Command
with_who [] = help
with_who (who ∷ more) = check

unfoldable pub parse_command : List Text → Command
parse_command [] = help
parse_command (a ∷ rest) =
    if a =text codes "check"
    then with_who rest
    else if a =text codes "status"
    then status
    else if a =text codes "hold"
    then hold (drop_dashes rest)
    else help

module _ (kill : ℤ → Signal) where
  unfoldable pub holder : World → Option ℤ × World
  holder w = elim (read_pid w) [
    | none ↦ (none, w)
    | some pid ↦ if alive (kill pid) then (some pid, w) else (none, none)
  ]

  -- Whether the process exits with 1.
  unfoldable pub refuse_if_held : Env → World → Bool × World
  refuse_if_held env w = verdict env (holder w)

  -- The exit code, what is printed, and the file afterwards. The command runs with the variable set,
  -- and may change the file; its own code is the answer.
  unfoldable pub main :
      (run : List Text → Env → World → ℕ × World)
      → (pid : ℕ) → List Text
      → Env
      → World
      → ℕ × Report × World
  unfolding parse_command refuse_if_held enter leave
  main run pid argv env w = elim (parse_command argv) [
    | check ↦
        let (refuses, w') = refuse_if_held env w in
        if refuses then (1, refused, w') else (0, silent, w')
    | status ↦
        let (found, w') = holder w in
        elim found [ none ↦ (0, nobody, w') | some p ↦ (0, held_by p, w') ]
    | hold [] ↦ (2, needs_command, w)
    | hold (c ∷ rest) ↦
        let (w', env') = enter pid w in
        let (code, w'') = run (c ∷ rest) env' w' in (code, silent, leave w'')
    | help ↦ (2, usage, w)
  ]
