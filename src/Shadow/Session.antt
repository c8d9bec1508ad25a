-- ===== src/Shadow/Session.antt =====
-- scripts/gnoroot.py: `real_root`, the context manager `shadow` and `main`. The file system is the
-- parameter `checkout`, which gives a directory's content, and `gno env GNOROOT` is `gno_env`: its
-- output without the white space around it, or `none` where it cannot be run.
pub mod Cleaned
use cryptocourt.Base.{ℕ, Option, none, some, [], ◌∷◌}
use cryptocourt.Base.Text.{Text}
use cryptocourt.Base.Disk.{join_path}
use cryptocourt.Base.Int.{ℤ}
use cryptocourt.Lock.{Signal}
use cryptocourt.Shadow.Roots.{Roots, Checkout, build, remove}

-- `build` and `remove` with their options; `--label` has its default.
pub data Action : Type 0 where
  build_root : (root : Option Text) → (label : Text) → (pid : Option ℕ) → Action
  remove_root : (path : Option Text) → Action

-- What a run of the script leaves: its exit code, the path that it prints and BASE.
pub record Outcome : Type 0 where
  pub code : ℕ
  pub printed : Option Text
  pub roots : Roots

-- The process: the worktree's name, BASE's path and the process id.
pub record Process : Type 0 where
  pub who : Text
  pub base : Text
  pub pid : ℕ

-- The checkout at a path that is not empty.
unfoldable pub directory : (Text → Option Checkout) → Text → Option Checkout
directory checkout [] = none
directory checkout (c ∷ path) = checkout (c ∷ path)

-- A value that Python takes for true: a text that is given and not empty.
unfoldable pub given : Option Text → Option Text
given none = none
given (some []) = none
given (some (c ∷ s)) = some (c ∷ s)

module _ (checkout : Text → Option Checkout) (gno_env : Option Text) where
  unfoldable pub real_root : Text
  unfolding directory
  real_root = elim gno_env [
    | none ↦ []
    | some path ↦ elim (directory checkout path) [ none ↦ [] | some real ↦ path ]
  ]

  -- `real or real_root()`.
  unfoldable pub root_or_real : Option Text → Text
  unfolding given real_root
  root_or_real root = elim (given root) [ none ↦ real_root | some path ↦ path ]

-- The process that a new root is named after.
unfoldable pub owner : Process → Option ℕ → ℕ
owner p none = p.pid
owner p (some q) = q

unfoldable pub built : Text → Option (Text × Roots) → Roots → Outcome
unfolding join_path
built base none roots = record { code = 1; printed = none; roots = roots }
built base (some made) roots = record {
  code = 0;
  printed = some (join_path base made.0);
  roots = made.1;
}

unfoldable pub removed : ℕ × Roots → Outcome
removed done = record { code = done.0; printed = none; roots = done.1 }

module _ (checkout : Text → Option Checkout) (gno_env : Option Text) (kill : ℤ → Signal) where
  -- `__enter__`: the new root's name and BASE with it.
  unfoldable pub enter :
      Process → (label : Text) → (real : Option Text) → Roots → Option (Text × Roots)
  unfolding directory root_or_real
  enter p label real roots =
      build kill p.who (directory checkout (root_or_real checkout gno_env real)) label p.pid roots

  -- `with shadow(label, real) as root: body`. What the body ends with, a value or an exception, comes
  -- back after `__exit__`.
  unfoldable pub with_shadow :
      {A : Type 0}
      → Process
      → (label : Text) → (real : Option Text) → (body : Text → Roots → A × Roots) → Roots
      → Option (A × Roots)
  unfolding enter remove join_path
  with_shadow p label real body roots = elim (enter p label real roots) [
    | none ↦ none
    | some made ↦
        let path = join_path p.base made.0 in
        let ended = body path made.1 in some (ended.0, (remove p.base path ended.1).1)
  ]

  -- `build` itself exits with 1 where the directory is missing.
  unfoldable pub main : Process → Action → Roots → Outcome
  unfolding given directory root_or_real remove built removed owner
  main p (remove_root path) roots = elim (given path) [
    | none ↦ removed (1, roots)
    | some path ↦ removed (remove p.base path roots)
  ]
  main p (build_root root label pid) roots =
      let real = directory checkout (root_or_real checkout gno_env root) in
      built p.base (build kill p.who real label (owner p pid) roots) roots
