-- ===== src/Packages/Complete.antt =====
-- scripts/genesis-pkgs.py: with what the script ends.
use cryptocourt.Base.{◌≡◌, ◌≢◌, ◌↔◌, Bool, true, Option, none, List, []}
use cryptocourt.Base.Text.{Text, text_in}
use cryptocourt.Base.Disk.{Disk}
use cryptocourt.Base.Closure.{Reach}
use cryptocourt.Packages.{found_dir, Genesis, packages, unresolved}
use cryptocourt.Packages.Table.{needs_table, Covers}

module _ (repo gnoroot staging : Text) (is_dir : Text → Bool) (disk : Disk) (ms : List Text)
    (covers : Covers repo gnoroot staging is_dir disk ms) where
  -- The modules that the roots reach under the imports of sources without tests.
  abbrev pub Reaches : List Text → Text → Type 0
  Reaches = Reach (needs_table repo gnoroot staging is_dir disk ms)

  abbrev pub source_of : Text → Option Text
  source_of = found_dir repo gnoroot staging is_dir

  -- The packages are the modules that are reached, and each has a source; or the unresolved imports are
  -- those without a source among the modules that are reached, and there is one.
  abbrev pub Answers : List Text → Genesis → Type 0
  Answers roots (packages names) =
      ((m : Text) → (text_in m names ≡ true) ↔ Reaches roots m)
      × ((m : Text) → Reaches roots m → source_of m ≢ none)
  Answers roots (unresolved names) =
      ((m : Text) → (text_in m names ≡ true) ↔ (Reaches roots m × (source_of m ≡ none)))
      × (names ≢ [])
