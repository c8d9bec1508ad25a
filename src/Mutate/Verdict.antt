-- ===== src/Mutate/Verdict.antt =====
-- scripts/mutate.py: the verdict on one row, in the order in which `main` decides.
use cryptocourt.Base.{
  ℕ, ◌-◌, ◌≡◌, ◌↔◌, Bool, true, false, not, ◌&&◌, ◌||◌, none, some, List, [], ◌∷◌, ◌++◌, any, keep,
  ltb, length, replicate, arith, if◌then◌else◌,
}
use cryptocourt.Base.Text.{Text, codes, text_in, join}
use cryptocourt.Base.Decimal.{str_nat}
use cryptocourt.Mutate.Tables.{compile_codes, runtime_codes}
use cryptocourt.Mutate.Output.{build_errors, error_codes, sorted_set, test_hits}
use cryptocourt.Mutate.Suite.{Suite}

pub data Verdict : Type 0 where
  bad_anchor : ℕ → Verdict
  unclassified : List Text → Verdict
  timed_out : List Text → Verdict
  covered_elsewhere survived did_not_build : Verdict
  caught : (hits : List Text) → (stale : Bool) → Verdict

-- Whether the output says that the mutant did not build.
unfoldable pub broke : Text → Bool
unfolding build_errors error_codes
broke out =
    elim (build_errors out) [ none ↦ false | some n ↦ ltb 0 n ]
    || any (λ c. text_in c compile_codes) (error_codes out)

-- The codes that are neither known compile codes nor known runtime ones.
unfoldable pub unknown_codes : Text → List Text
unfolding sorted_set error_codes
unknown_codes out =
    sorted_set
      (keep (λ c. not (text_in c compile_codes) && not (text_in c runtime_codes)) (error_codes out))

abbrev pub is_nil {ℓ} : {A : Type ℓ} → List A → Bool
is_nil [] = true
is_nil (x ∷ xs) = false

-- The chain of branches. `covered` is the row's `elsewhere`.
unfoldable pub judge : Text → Suite → Verdict
judge covered s =
    if not (is_nil (unknown_codes s.out))
    then unclassified (unknown_codes s.out)
    else if not (is_nil s.hung)
    then timed_out s.hung
    else if s.passed && not (is_nil covered)
    then covered_elsewhere
    else if s.passed
    then survived
    else if broke s.out
    then did_not_build
    else if not s.built
    then did_not_build
    else caught (test_hits s.out) (not (is_nil covered))

abbrev pub is_caught : Verdict → Bool
is_caught (caught hits stale) = true
is_caught _ = false

-- A row counts as caught exactly if something was measured and objected: no error code is unknown,
-- no suite hung, a suite failed, the output reports no build failure, and `gno lint` said that the
-- mutant builds.
pub judge-is_caught :
    (covered : Text) (s : Suite)
    → (is_caught (judge covered s) ≡ true) ↔ (
        (unknown_codes s.out ≡ [])
        × (s.hung ≡ [])
        × (s.passed ≡ false)
        × (broke s.out ≡ false)
        × (s.built ≡ true))
unfolding judge
judge-is_caught covered s = (λ h. ground arith, λ h. ground arith)

-- `f"{label:<46}"`.
unfoldable pub pad : Text → Text
pad label = label ++ replicate (46 - length label) b' '

abbrev first_hit : List Text → Text
first_hit [] = codes "failed"
first_hit (h ∷ hits) = h

-- The line that is printed for a row.
unfoldable pub row_line : ℕ → Text → Text → Verdict → Text
unfolding pad
row_line timeout label covered (bad_anchor n) =
    pad label ++ (codes " BAD ANCHOR (matched " ++ (str_nat n ++ codes "x)"))
row_line timeout label covered (unclassified unknown) =
    pad label ++ (codes " UNCLASSIFIED (" ++ (join (codes ", ") unknown ++ codes ") <<<"))
row_line timeout label covered (timed_out hung) =
    pad label
    ++ (codes " TIMED OUT after "
        ++ (str_nat timeout ++ (codes "s (" ++ (join (codes ", ") hung ++ codes ") <<<"))))
row_line timeout label covered covered_elsewhere =
    pad label ++ (codes " covered elsewhere: " ++ covered)
row_line timeout label covered survived = pad label ++ codes " SURVIVED <<<"
row_line timeout label covered did_not_build = pad label ++ codes " INVALID (did not build) <<<"
row_line timeout label covered (caught hits false) =
    pad label ++ (codes " caught: " ++ first_hit hits)
row_line timeout label covered (caught hits true) =
    pad label
    ++ (codes " caught: "
        ++ (first_hit hits ++ codes " — drop its `elsewhere`, it is covered here"))

-- What the row adds to the list of rows that were not caught.
unfoldable pub survivor_entry : Text → Verdict → List Text
survivor_entry label (bad_anchor n) = (label ++ codes " [bad anchor]") ∷ []
survivor_entry label (unclassified unknown) = (label ++ codes " [unclassified]") ∷ []
survivor_entry label (timed_out hung) = (label ++ codes " [timed out]") ∷ []
survivor_entry label survived = label ∷ []
survivor_entry label did_not_build = (label ++ codes " [invalid]") ∷ []
survivor_entry label covered_elsewhere = []
survivor_entry label (caught hits stale) = []

-- What the row adds to the list of rows that are covered elsewhere.
unfoldable pub elsewhere_entry : Text → Text → Verdict → List Text
elsewhere_entry label covered covered_elsewhere = (label ++ (codes " — " ++ covered)) ∷ []
elsewhere_entry label covered _ = []
