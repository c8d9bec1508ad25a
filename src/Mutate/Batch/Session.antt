-- ===== src/Mutate/Batch/Session.antt =====
-- scripts/mutate.py: `main` with its shadow root, which is built behind the test for an empty batch and
-- removed at the exit of the process, however the batch ends, but for a kill.
use cryptocourt.Base.{ℕ, ◌≡◌, ◌≢◌, refl, false, Option, none, some, List, [], ◌∷◌}
use cryptocourt.Base.Text.{Text, codes}
use cryptocourt.Base.Text.Lines.{Lacks}
use cryptocourt.Base.Disk.{Disk, join_path, is_under}
use cryptocourt.Base.Paths.{is_outside-within}
use cryptocourt.Base.Int.{ℤ, pos}
use cryptocourt.Lock.{Signal}
use cryptocourt.Shadow.Roots.{Roots, Checkout, is_gone, root_name}
use cryptocourt.Shadow.Roots.Owned.{find_root}
use cryptocourt.Shadow.Session.{Process, with_shadow}
use cryptocourt.Shadow.Session.Cleaned.{with_shadow_cleans, with_shadow-value}
use cryptocourt.Shadow.Staging.{Outside}
use cryptocourt.Mutate.Suite.{Row, Toolchain, stage_pairs}
use cryptocourt.Mutate.Batch.{Judged, Outcome, nothing_to_measure, main, done}
use cryptocourt.Mutate.Batch.Untouched.{main_outside}

-- A path outside a directory is outside all trees that are staged within one below it.
Outside-all :
    (base name p : Text) (pairs : List (Text × Text))
    → is_under base p ≡ false
    → Outside (join_path base name) pairs p
Outside-all base name p [] h = tt
Outside-all base name p (x ∷ pairs) h = (
  is_outside-within (join_path base name) x.1 p (is_outside-within base name p h),
  Outside-all base name p pairs h,
)

mutate-Lacks : Lacks b'/' (codes "mutate")
unfolding codes
mutate-Lacks = (refl, (refl, (refl, (refl, (refl, (refl, tt))))))

module _ (checkout : Text → Option Checkout) (gno_env : Option Text) (kill : ℤ → Signal)
    (tools : Toolchain) (repo : Text) where
  -- The batch at the root that `build` makes. The trees that are staged below it are on the disk, and
  -- BASE holds the links and the copy of `examples`, which the batch leaves.
  abbrev pub at_root : List Row → Disk → Text → Roots → Outcome × Roots
  at_root muts disk root now = (main tools repo root muts disk, now)

  -- How the batch ends, and BASE after the process; `none` is the exit where no toolchain is found.
  unfoldable pub run : Process → List Row → Disk → Roots → Option (Outcome × Roots)
  unfolding with_shadow main
  run p [] disk roots = some (nothing_to_measure, roots)
  run p (m ∷ muts) disk roots =
      with_shadow checkout gno_env kill p (codes "mutate") none (at_root (m ∷ muts) disk) roots

  -- Where a batch is done, every path outside BASE, the directory of the shadow roots, holds what it
  -- held before; the batch's own root is gone, and the root of every process that lives and is not
  -- the batch's own stands as before. The worktree's name holds no slash.
  pub run_outside :
      (p : Process) (muts : List Row) (disk : Disk) (roots : Roots) (rows : List Judged) (d : Disk)
      (after : Roots) (path who' label' : Text) (q : ℕ)
      → Lacks b'/' p.who
      → is_under p.base path ≡ false
      → is_gone (kill (pos q)) ≡ false
      → q ≢ p.pid
      → run p muts disk roots ≡ some (done rows d, after)
      → (d path ≡ disk path)
        × (find_root (root_name p.who (codes "mutate") p.pid) after ≡ none)
        × (find_root (root_name who' label' q) after ≡ find_root (root_name who' label' q) roots)
  unfolding run
  run_outside p [] disk roots rows d after path who' label' q hw out live ne h = cc h
  run_outside p (m ∷ muts) disk roots rows d after path who' label' q hw out live ne h =
      let name : Text = root_name p.who (codes "mutate") p.pid in
      let body = at_root (m ∷ muts) disk in
      let (now, ended) =
        with_shadow-value checkout gno_env kill p (codes "mutate") none body roots after
          (done rows d) h in
      let (gone, others) =
        with_shadow_cleans checkout gno_env kill p (codes "mutate") none body roots after
          (done rows d) who' label' q hw mutate-Lacks (λ path now. refl) live ne h in
      (
        main_outside tools repo (join_path p.base name) path
            (Outside-all p.base name path (stage_pairs repo) out) (m ∷ muts) disk rows d ended,
        gone,
        others,
      )
