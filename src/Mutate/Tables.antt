-- ===== src/Mutate/Tables.antt =====
-- scripts/mutate.py: the packages, which suites observe which package, and the toolchain's error codes.
use cryptocourt.Base.{Option, none, some, List, [], ◌∷◌, map, if◌then◌else◌}
use cryptocourt.Base.Text.{Text, codes, ◌=text◌}

-- `PKGS`: a package, its directory in the repository, and its path below a GNOROOT.
abbrev pub pkg_table : List (Text × (Text × Text))
pkg_table =
    (codes "govern", (codes "realm/r/govern", codes "examples/gno.land/r/kourt/govern"))
    ∷ (
      codes "checkpoint",
      (codes "realm/p/checkpoint", codes "examples/gno.land/p/kourt/checkpoint/v0"),
    )
    ∷ (
      codes "grc20votes",
      (codes "realm/p/grc20votes", codes "examples/gno.land/p/kourt/grc20votes/v0"),
    )
    ∷ (codes "governor", (codes "realm/p/governor", codes "examples/gno.land/p/kourt/governor/v0"))
    ∷ (codes "offerer", (codes "realm/r/offerer", codes "examples/gno.land/r/kourt/offerer"))
    ∷ (codes "kourtv2", (codes "realm/r/kourtv2", codes "examples/gno.land/r/kourt/kourtv2"))
    ∷ (codes "twap", (codes "realm/p/twap", codes "examples/gno.land/p/kourt/twap/v0"))
    ∷ (codes "curve", (codes "realm/p/curve", codes "examples/gno.land/p/kourt/curve/v0"))
    ∷ (codes "ccwrap", (codes "realm/r/ccwrap", codes "examples/gno.land/r/kourt/ccwrap"))
    ∷ []

-- `OBSERVERS`: the suites that can object to a mutation in a package.
abbrev pub observer_table : List (Text × List Text)
observer_table =
    (codes "kourtv2", codes "kourtv2" ∷ [])
    ∷ (codes "ccwrap", codes "ccwrap" ∷ [])
    ∷ (codes "govern", codes "govern" ∷ [])
    ∷ (codes "offerer", codes "offerer" ∷ codes "govern" ∷ [])
    ∷ (codes "twap", codes "twap" ∷ codes "kourtv2" ∷ [])
    ∷ (codes "curve", codes "curve" ∷ codes "kourtv2" ∷ [])
    ∷ (codes "grc20votes", codes "grc20votes" ∷ codes "kourtv2" ∷ codes "govern" ∷ [])
    ∷ (codes "governor", codes "governor" ∷ codes "kourtv2" ∷ codes "govern" ∷ [])
    ∷ (
      codes "checkpoint",
      codes "checkpoint"
          ∷ codes "grc20votes"
          ∷ codes "governor"
          ∷ codes "govern"
          ∷ codes "kourtv2"
          ∷ [],
    )
    ∷ []

-- Error codes of a mutant that never ran.
abbrev pub compile_codes : List Text
compile_codes =
    codes "gnoTypeCheckError"
    ∷ codes "gnoParserError"
    ∷ codes "gnoPreprocessError"
    ∷ codes "gnoImportError"
    ∷ codes "gnoReadError"
    ∷ codes "gnoGnoModError"
    ∷ codes "gnoPackageNameMismatchError"
    ∷ []

-- The ambiguous code: the mutant never ran, or it ran and something objected.
abbrev pub runtime_codes : List Text
runtime_codes = codes "gnoUnknownError" ∷ []

unfoldable pub find_pkg {ℓ} : {A : Type ℓ} → Text → List (Text × A) → Option A
find_pkg k [] = none
find_pkg k ((n, a) ∷ rest) = if k =text n then some a else find_pkg k rest

abbrev pub pkg_names : List Text
pkg_names = map (λ (x : Text × (Text × Text)). x.0) pkg_table

-- `PKGS.values()`.
abbrev pub pkg_pairs : List (Text × Text)
pkg_pairs = map (λ (x : Text × (Text × Text)). x.1) pkg_table
