-- ===== src/Shadow/Roots.antt =====
-- scripts/gnoroot.py: `reap`, `build`, `_skip_staging` and `remove`, on the shadow roots that stand
-- in BASE. `os.kill(pid, 0)` is the parameter `kill`; a Checkout is the real GNOROOT.
pub mod Copy
pub mod Owned
pub mod Removed
use cryptocourt.Base.{
  ℕ, Bool, true, false, not, ◌&&◌, ◌||◌, Option, none, some, List, [], ◌∷◌, ◌++◌, map, keep, all,
  length, ◌==◌, if◌then◌else◌,
}
use cryptocourt.Base.Text.{Text, codes, ◌=text◌, text_in, starts_with}
use cryptocourt.Base.Disk.{join_path}
use cryptocourt.Base.Decimal.{str_nat, value, is_digit}
use cryptocourt.Base.Int.{ℤ, pos}
use cryptocourt.Lock.{Signal, delivered, no_process, not_permitted}

-- A directory: its files with their contents, and its directories.
pub data Tree : Type 0 where
  empty : Tree
  file : (name content : Text) → Tree → Tree
  dir : (name : Text) → (below : Tree) → Tree → Tree

-- A shadow root: its links, each a name with its target, and its copy of `examples`.
pub record Root : Type 0 where
  pub links : List (Text × Text)
  pub examples : Tree

-- BASE, as its directories.
abbrev pub Roots : Type 0
Roots = List (Text × Root)

-- The real GNOROOT: its path, the names in it and its `examples`.
pub record Checkout : Type 0 where
  pub path : Text
  pub names : List Text
  pub examples : Tree

-- The text before the last `sep`, and the one behind it.
unfoldable pub split_last : ℕ → Text → Option (Text × Text)
split_last sep [] = none
split_last sep (c ∷ s) = elim (split_last sep s) [
  | some parts ↦ some (c ∷ parts.0, parts.1)
  | none ↦ if c == sep then some ([], s) else none
]

-- `name.rsplit("-", 1)[-1]`.
unfoldable pub tail_of : Text → Text
unfolding split_last
tail_of name = elim (split_last b'-' name) [ none ↦ name | some parts ↦ parts.1 ]

-- Only `ProcessLookupError` says that the owner is gone.
unfoldable pub is_gone : Signal → Bool
is_gone delivered = false
is_gone no_process = true
is_gone not_permitted = false

unfoldable pub is_number : Text → Bool
is_number [] = false
is_number (c ∷ s) = all is_digit (c ∷ s)

module _ (kill : ℤ → Signal) where
  -- Whether `reap` removes a root.
  unfoldable pub is_abandoned : Text → Bool
  unfolding starts_with tail_of is_number is_gone
  is_abandoned name =
      starts_with (codes "root-") name
      && is_number (tail_of name)
      && is_gone (kill (pos (value 0 (tail_of name))))

  -- What `reap` leaves, and the number of roots that it removes.
  unfoldable pub reap : Roots → Roots × ℕ
  unfolding is_abandoned
  reap roots = (
    keep (λ (r : Text × Root). not (is_abandoned r.0)) roots,
    length (keep (λ (r : Text × Root). is_abandoned r.0) roots),
  )

-- `n in _skip_staging(directory, names)`, with the last two parts of the directory.
unfoldable pub is_skipped : (parent last name : Text) → Bool
unfolding text_in ◌=text◌
is_skipped parent last name =
    (parent =text codes "gno.land")
    && text_in last (codes "p" ∷ codes "r" ∷ [])
    && text_in name (codes "cryptocourt" ∷ codes "kourt" ∷ [])

-- `shutil.copytree` with `_skip_staging`.
unfoldable pub copy_tree : (parent last : Text) → Tree → Tree
unfolding is_skipped
copy_tree parent last empty = empty
copy_tree parent last (file n content rest) =
    let copied = copy_tree parent last rest in
    if is_skipped parent last n then copied else file n content copied
copy_tree parent last (dir n below rest) =
    let copied = copy_tree parent last rest in
    let inner = copy_tree last n below in
    if is_skipped parent last n then copied else dir n inner copied

unfoldable pub root_name : (who label : Text) → ℕ → Text
root_name who label pid =
    codes "root-" ++ (who ++ (codes "-" ++ (label ++ (codes "-" ++ str_nat pid))))

unfoldable pub drop_root : Text → Roots → Roots
unfolding ◌=text◌
drop_root name = keep λ (r : Text × Root). not (r.0 =text name)

-- A new root. The path's last part is the parent of `examples`.
unfoldable pub shadow_of : Checkout → Root
unfolding text_in join_path copy_tree
shadow_of real = record {
  links =
      map (λ name. (name, join_path real.path name))
        (keep (λ name. not (text_in name (codes "examples" ∷ codes ".git" ∷ []))) real.names);
  examples = copy_tree (tail_part real.path) (codes "examples") real.examples;
}
  where
    tail_part : Text → Text
    tail_part path = elim (split_last b'/' path) [ none ↦ path | some parts ↦ parts.1 ]

module _ (kill : ℤ → Signal) where
  -- The new root's name and BASE with it; `none` is the exit where there is no toolchain.
  unfoldable pub build :
      (who : Text) → Option Checkout → (label : Text) → ℕ → Roots → Option (Text × Roots)
  unfolding reap drop_root root_name shadow_of
  build who none label pid roots = none
  build who (some real) label pid roots =
      let name = root_name who label pid in
      some (name, drop_root name (reap kill roots).0 ++ (name, shadow_of real) ∷ [])

-- The exit code, and BASE afterwards. `base` is BASE's path, and `path` is absolute and normal.
unfoldable pub remove : (base path : Text) → Roots → ℕ × Roots
unfolding split_last drop_root ◌=text◌ starts_with
remove base path roots = elim (split_last b'/' path) [
  | none ↦ (1, roots)
  | some parts ↦
      if (parts.0 =text base) && starts_with (codes "root-") parts.1
      then (0, drop_root parts.1 roots)
      else (1, roots)
]
