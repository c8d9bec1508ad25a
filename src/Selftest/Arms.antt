-- ===== src/Selftest/Arms.antt =====
-- scripts/selftest-checks.py: `control` and `feed`. A guard is the parameter `run`: what it prints
-- and whether it exits with 0, on the repository as it stands. It is taken to leave the files as
-- they are.
use cryptocourt.Base.{
  ℕ, Bool, true, false, Option, none, some, List, [], ◌∷◌, keep, map, ◌==◌, if◌then◌else◌,
}
use cryptocourt.Base.Text.{Text, codes, ends_with, contains, count, replace, strip, splitlines}
use cryptocourt.Shadow.Roots.{split_last}
use cryptocourt.Selftest.Repo.{Repo, write, move, full_path, backup_of}

-- The standard input of a run: that of the self-test, a text, or none at all.
pub data Stdin : Type 0 where
  inherited : Stdin
  piped : Text → Stdin
  closed : Stdin

-- `r.stdout + r.stderr`, and `r.returncode == 0`.
pub record Output : Type 0 where
  pub said : Text
  pub passed : Bool

abbrev pub Run : Type 0
Run = (argv : List Text) → Stdin → (cwd : Option Text) → Repo → Output

pub record Control : Type 0 where
  pub label : Text
  pub path : Text
  pub find : Text
  pub substitute : Text
  pub want : Text
  pub argv : Option (List Text)
  pub stdin : Option Text
  pub cwd : Option Text

-- What is said of an arm. All but `fires` are failures.
pub data Verdict : Type 0 where
  fires : Verdict
  no_such_file : Verdict
  anchor_matched : ℕ → Verdict
  silent : Verdict
  wrong_complaint : (said : Text) → Verdict
  wrong : Verdict

unfoldable pub is_fired : Verdict → Bool
is_fired fires = true
is_fired no_such_file = false
is_fired (anchor_matched n) = false
is_fired silent = false
is_fired (wrong_complaint said) = false
is_fired wrong = false

unfoldable pub command : Option (List Text) → List Text
command none = codes "python3" ∷ codes "scripts/check-citations.py" ∷ []
command (some []) = codes "python3" ∷ codes "scripts/check-citations.py" ∷ []
command (some (a ∷ argv)) = a ∷ argv

unfoldable pub basename : Text → Text
unfolding split_last
basename path = elim (split_last b'/' path) [ none ↦ path | some parts ↦ parts.1 ]

-- The scripts that an arm's command names.
unfoldable pub scripts_of : List Text → List Text
unfolding basename ends_with
scripts_of argv = map basename (keep (λ a. ends_with (codes ".py") a) argv)

unfoldable pub stdin_of : Option Text → Stdin
stdin_of none = inherited
stdin_of (some text) = piped text

-- The first line that holds more than white space.
unfoldable pub first_said : Text → Text
unfolding splitlines strip
first_said out = first (splitlines out)
  where
    first : List Text → Text
    first [] = []
    first (l ∷ ls) = let later = first ls in elim (strip l) [ [] ↦ later | c ∷ s ↦ c ∷ s ]

unfoldable pub complaint : Text → Output → Verdict
unfolding contains first_said
complaint want out =
    if contains want out.said
    then fires
    else if out.passed
    then silent
    else wrong_complaint (first_said out.said)

-- The verdict of the arms that ask for no exit code.
unfoldable pub heard : Text → Output → Verdict
unfolding contains
heard want out = if contains want out.said then fires else silent

-- The edit of an arm, with the copy beside it.
unfoldable pub planted : (full find substitute src : Text) → Repo → Repo
unfolding write backup_of replace
planted full find substitute src repo =
    write full (replace find substitute src) (write (backup_of full) src repo)

module _ (run : Run) (root : Text) where
  -- The verdict on an arm, and the repository behind its `finally`.
  unfoldable pub control : Control → Repo → Verdict × Repo
  unfolding full_path planted move backup_of write complaint command stdin_of count
  control c repo =
      let full = full_path root c.path in
      let back = move (backup_of full) full in
      elim (repo full) [
        | none ↦ (no_such_file, repo)
        | some src ↦
            if count c.find src == 1
            then (
              complaint c.want (
                  run (command c.argv) (stdin_of c.stdin) c.cwd
                    (planted full c.find c.substitute src repo)),
              back (planted full c.find c.substitute src repo),
            )
            else (anchor_matched (count c.find src), back (write (backup_of full) src repo))
      ]

  -- mutate.py on a batch, which it reads from its standard input.
  unfoldable pub feed : (spec want : Text) → Repo → Verdict
  unfolding heard full_path
  feed spec want repo = heard want (
      run (codes "python3" ∷ full_path root (codes "scripts/mutate.py") ∷ []) (piped spec)
        (some (full_path root (codes "realm/r/govern"))) repo)
