-- ===== src/Mutate/Suite/Staged.antt =====
-- What a run's GNOROOT holds behind the staging step: for each package the staged files of its source.
use mathlib.Core.Option.{some_inj}
use cryptocourt.Base.{
  ◌≡◌, refl, ap, ◌∙◌, Bool, true, false, ◌||◌, none, some, List, [], ◌∷◌, ◌++◌, map, all, not, ◌&&◌,
  append_assoc, arith, if◌then◌else◌, Bool-cases, inl, inr,
}
use cryptocourt.Base.Text.{Text, codes, ◌=text◌, drop_prefix, starts_with}
use cryptocourt.Base.Text.Laws.{=text_sound, =text_refl}
use cryptocourt.Base.Disk.{Files, Disk, join_path, is_under, remove_tree, write_dir, get_file}
use cryptocourt.Shadow.{is_staged_file, staged_files, stage_one, stage}
use cryptocourt.Shadow.Staging.{Outside, stage-Outside, stage_one_outside}
use cryptocourt.Mutate.Tables.{pkg_table, find_pkg}
use cryptocourt.Mutate.Suite.{source_dir, absolute, stage_pairs}

=text_append : (p s t : Text) → (p ++ s =text p ++ t) ≡ (s =text t)
unfolding ◌=text◌
=text_append [] s t = refl
=text_append (x ∷ p) s t = ground (arith, =text_append p s t)

drop_prefix-append : (p s t : Text) → drop_prefix (p ++ s) (p ++ t) ≡ drop_prefix s t
unfolding drop_prefix
drop_prefix-append [] s t = refl
drop_prefix-append (x ∷ p) s t = ground (arith, drop_prefix-append p s t)

starts_with-append : (p s t : Text) → starts_with (p ++ s) (p ++ t) ≡ starts_with s t
unfolding starts_with
starts_with-append p s t = rw (drop_prefix-append p s t, starts_with) refl

-- Below one root, a path is below another as their ends are.
is_under-join_path :
    (root a b : Text) → is_under (join_path root a) (join_path root b) ≡ is_under a b
unfolding is_under join_path starts_with
is_under-join_path root a b =
    let slash : Text = codes "/" in
    let front =
      ap (λ u. starts_with u (root ++ (slash ++ b))) (append_assoc root (slash ++ a) slash) in
    let behind = ap (λ u. starts_with u (slash ++ b)) (append_assoc slash a slash) in
    let whole =
      front
      ∙ starts_with-append root ((slash ++ a) ++ slash) (slash ++ b)
      ∙ behind
      ∙ starts_with-append slash (a ++ slash) b in
    let same = =text_append root (slash ++ b) (slash ++ a) ∙ =text_append slash b a in
    ap (λ x. x || starts_with ((root ++ (slash ++ a)) ++ slash) (root ++ (slash ++ b))) same
    ∙ ap (λ x. (b =text a) || x) whole

abbrev pub dir_pairs : Text → List (Text × (Text × Text)) → List (Text × Text)
dir_pairs repo table = absolute repo (map (λ (x : Text × (Text × Text)). x.1) table)

-- No package is staged into the directory of an earlier one.
unfoldable is_spread : List (Text × (Text × Text)) → Bool
is_spread [] = true
is_spread ((n, a) ∷ table) =
    all (λ (y : Text × (Text × Text)). not (is_under y.1.1 a.1)) table && is_spread table

pkg_table-is_spread : is_spread pkg_table ≡ true
unfolding is_spread is_under ◌=text◌ starts_with drop_prefix codes
pkg_table-is_spread = refl

Outside-spread :
    (repo root rel : Text) (table : List (Text × (Text × Text)))
    → all (λ (y : Text × (Text × Text)). not (is_under y.1.1 rel)) table ≡ true
    → Outside root (dir_pairs repo table) (join_path root rel)
Outside-spread repo root rel [] h = tt
Outside-spread repo root rel ((n, a) ∷ table) h = (
  ground (arith, h, is_under-join_path root a.1 rel),
  Outside-spread repo root rel table (ground (arith, h)),
)

stage_one-staged_files :
    (root src rel : Text) (disk : Disk)
    → is_under (join_path root rel) src ≡ false
    → stage_one root src rel disk (join_path root rel) ≡ staged_files (disk src)
unfolding stage_one write_dir remove_tree
stage_one-staged_files root src rel disk h = rw (=text_refl, h) refl

stage-table :
    (repo root k : Text) (table : List (Text × (Text × Text))) (dirs : Text × Text) (disk : Disk)
    → find_pkg k table ≡ some dirs
    → is_spread table ≡ true
    → Outside root (dir_pairs repo table) (source_dir repo dirs.0)
    → stage root (dir_pairs repo table) disk (join_path root dirs.1)
      ≡ staged_files (disk (source_dir repo dirs.0))
unfolding find_pkg stage is_spread
stage-table repo root k [] dirs disk e far out = cc e
stage-table repo root k ((n, a) ∷ table) dirs disk e far (out, outs) =
    let staged : Disk = stage_one root (source_dir repo a.0) a.1 disk in
    elim (Bool-cases (k =text n)) [
      | inl same ↦
          let here : a ≡ dirs = some_inj.0 (rw same at e) in
          let later : stage root (dir_pairs repo table) staged (join_path root a.1)
              ≡ staged (join_path root a.1) =
            stage-Outside root (dir_pairs repo table) (join_path root a.1) staged
              (Outside-spread repo root a.1 table (ground (arith, far))) in
          let now : staged (join_path root a.1) ≡ staged_files (disk (source_dir repo a.0)) =
            stage_one-staged_files root (source_dir repo a.0) a.1 disk (rw (← here) at out) in
          rw (← here) (later ∙ now)
      | inr apart ↦
          stage-table repo root k table dirs staged (rw apart at e) (ground (arith, far)) outs
          ∙ ap staged_files
              (stage_one_outside root (source_dir repo a.0) a.1 (source_dir repo dirs.0) disk out)
    ]

-- Staging puts the staged files of a package's source directory, which is outside the staged trees, into the
-- package's own directory, whatever the other packages are.
pub stage-find_pkg :
    (repo root k : Text) (dirs : Text × Text) (disk : Disk)
    → find_pkg k pkg_table ≡ some dirs
    → Outside root (stage_pairs repo) (source_dir repo dirs.0)
    → stage root (stage_pairs repo) disk (join_path root dirs.1)
      ≡ staged_files (disk (source_dir repo dirs.0))
stage-find_pkg repo root k dirs disk e out =
    stage-table repo root k pkg_table dirs disk e pkg_table-is_spread out

pub get_file-staged_files :
    (f : Text) (files : Files)
    → get_file f (staged_files files) ≡ (if is_staged_file f then get_file f files else none)
unfolding get_file staged_files
get_file-staged_files f [] = ground arith
get_file-staged_files f ((n, c) ∷ files) =
    ground (arith, get_file-staged_files f files, =text_sound f n)
