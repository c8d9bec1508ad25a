-- ===== src/Shadow/Roots/Removed.antt =====
-- scripts/gnoroot.py: `remove` takes away what `build` made.
use mathlib.Core.Option.{some_inj}
use cryptocourt.Base.{
  ℕ, ◌≡◌, refl, ap, ◌∙◌, Bool, true, false, not, Option, none, some, List, [], ◌∷◌, ◌++◌,
  All-append, All-map, keep, arith, ◌==◌, append-nil,
}
use cryptocourt.Base.Text.{Text, codes, ◌=text◌, starts_with}
use cryptocourt.Base.Text.Laws.{=text_refl}
use cryptocourt.Base.Text.Lines.{Lacks}
use cryptocourt.Base.Disk.{join_path}
use cryptocourt.Base.Decimal.{str_nat, str_nat-All, is_digit}
use cryptocourt.Base.Int.{ℤ}
use cryptocourt.Lock.{Signal}
use cryptocourt.Shadow.Roots.{
  Root, Roots, Checkout, split_last, reap, root_name, drop_root, shadow_of, build, remove,
}
use cryptocourt.Shadow.Roots.Owned.{split_last-append, split_last_found, root_prefix}

keep_last :
    {A : Type 0} (p : A → Bool) (xs : List A) (y : A)
    → p y ≡ false
    → keep p (keep p xs ++ y ∷ []) ≡ keep p xs
keep_last p [] y h = rw h
keep_last p (x ∷ xs) y h = ground (arith, keep_last p xs y h)

digit_is_no_slash : (c : ℕ) → is_digit c ≡ true → (c == b'/') ≡ false
digit_is_no_slash c h = grind arith

name-Lacks :
    (who label : Text) (pid : ℕ)
    → Lacks b'/' who
    → Lacks b'/' label
    → Lacks b'/' (root_name who label pid)
unfolding root_name codes
name-Lacks who label pid hw hl =
    All-append _ (codes "root-") _ (refl, (refl, (refl, (refl, (refl, tt)))))
      (All-append _ who _ hw (
        All-append _ (codes "-") _ (refl, tt)
          (All-append _ label _ hl (
            All-append _ (codes "-") _ (refl, tt)
              (All-map digit_is_no_slash (str_nat pid) (str_nat-All pid))))))

path_split :
    (base name : Text)
    → Lacks b'/' name
    → split_last b'/' (join_path base name) ≡ some (base ++ [], name)
unfolding join_path codes
path_split base name h =
    split_last-append b'/' base (b'/' ∷ name) [] name (split_last_found b'/' name h)

remove-eq :
    (base path dir name : Text) (roots : Roots)
    → split_last b'/' path ≡ some (dir, name)
    → (dir =text base) ≡ true
    → starts_with (codes "root-") name ≡ true
    → remove base path roots ≡ (0, drop_root name roots)
unfolding remove drop_root
remove-eq base path dir name roots e same prefix = rw (remove, e, same, prefix)

drop_root-last :
    (name : Text) (roots : Roots) (root : Root)
    → drop_root name (drop_root name roots ++ (name, root) ∷ []) ≡ drop_root name roots
unfolding drop_root
drop_root-last name roots root =
    keep_last (λ (r : Text × Root). not (r.0 =text name)) roots (name, root)
      (ap not (=text_refl name))

same_dir : (base : Text) → (base ++ [] =text base) ≡ true
same_dir base = rw (append-nil base) (=text_refl base)

-- The path of a root that has a name by `build` is accepted.
pub remove-drop_root :
    (base who label : Text) (pid : ℕ) (roots : Roots)
    → Lacks b'/' who
    → Lacks b'/' label
    → remove base (join_path base (root_name who label pid)) roots
      ≡ (0, drop_root (root_name who label pid) roots)
remove-drop_root base who label pid roots hw hl =
    let name : Text = root_name who label pid in
    let split : split_last b'/' (join_path base name) ≡ some (base ++ [], name) =
      path_split base name (name-Lacks who label pid hw hl) in
    remove-eq base (join_path base name) (base ++ []) name roots split (same_dir base)
      (root_prefix who label pid)

remove-new :
    (base who label : Text) (pid : ℕ) (roots : Roots) (root : Root)
    → Lacks b'/' who
    → Lacks b'/' label
    → remove base
        (join_path base (root_name who label pid))
        (drop_root (root_name who label pid) roots ++ (root_name who label pid, root) ∷ [])
      ≡ (0, drop_root (root_name who label pid) roots)
remove-new base who label pid roots root hw hl =
    remove-drop_root base who label pid _ hw hl
    ∙ ap (λ (r : Roots). (0, r)) (drop_root-last (root_name who label pid) roots root)

module _ (kill : ℤ → Signal) where
  -- `remove`, given the path of the root that `build` made, accepts it and takes that root away again:
  -- what is left is BASE as it was, without the abandoned roots and without one of that name. The
  -- worktree's name and the label hold no slash.
  pub remove-build :
      (base who label : Text) (real : Option Checkout) (pid : ℕ) (roots after : Roots) (name : Text)
      → Lacks b'/' who
      → Lacks b'/' label
      → build kill who real label pid roots ≡ some (name, after)
      → remove base (join_path base name) after ≡ (0, drop_root name (reap kill roots).0)
  unfolding build
  remove-build base who label none pid roots after name hw hl h = cc h
  remove-build base who label (some real) pid roots after name hw hl h =
      let made = some_inj.0 h in
      let named : root_name who label pid ≡ name = ap (λ (r : Text × Roots). r.0) made in
      let left = ap (λ (r : Text × Roots). r.1) made in
      rw (← named, ← left)
        (remove-new base who label pid (reap kill roots).0 (shadow_of real) hw hl)
