-- ===== src/Parallel/Calm.antt =====
-- scripts/mutate.py under scripts/mutate-parallel.py: what a batch that is done writes to standard
-- error holds neither of the two messages on the baseline.
use mathlib.Core.List.{flat_map}
use cryptocourt.Base.{
  ℕ, ◌≡◌, refl, ap, ◌∙◌, Bool, true, false, not, ◌&&◌, List, [], ◌∷◌, ◌++◌, map, All, arith, ◌==◌,
  append_assoc,
}
use cryptocourt.Base.Text.{Text, codes, contains, starts_with, newline}
use cryptocourt.Mutate.Output.{is_word}
use cryptocourt.Mutate.Batch.{Judged, complaint, complaints, unknown_of}
use cryptocourt.Parallel.Printed.{print_lines, print_lines-append}

-- No capital E stands in front of a space; `before` tells whether one stands in front of the text.
unfoldable pub is_calm : (before : Bool) → Text → Bool
is_calm before [] = true
is_calm before (c ∷ s) = not (before && (c == b' ')) && is_calm (c == b'E') s

calm_behind :
    (before : Bool) (c : ℕ) (s : Text)
    → is_calm before (c ∷ s) ≡ true
    → is_calm (c == b'E') s ≡ true
unfolding is_calm
calm_behind before c s h = ground arith

no_space : (x : ℕ) → is_word x ≡ true → (x == b' ') ≡ false
unfolding is_word
no_space x h = ground arith

starts_with-is_calm :
    (before : Bool) (front behind s : Text)
    → is_calm before s ≡ true
    → starts_with (front ++ b'E' ∷ b' ' ∷ behind) s ≡ false
unfolding starts_with is_calm
starts_with-is_calm before [] behind [] h = refl
starts_with-is_calm before [] behind (c ∷ []) h = ground arith
starts_with-is_calm before [] behind (c ∷ d ∷ s) h = ground arith
starts_with-is_calm before (x ∷ front) behind [] h = refl
starts_with-is_calm before (x ∷ front) behind (c ∷ s) h =
    let later = starts_with-is_calm (c == b'E') front behind s (calm_behind before c s h) in
    ground arith

contains-is_calm :
    (before : Bool) (x : ℕ) (front behind s : Text)
    → is_calm before s ≡ true
    → contains (x ∷ front ++ b'E' ∷ b' ' ∷ behind) s ≡ false
unfolding contains
contains-is_calm before x front behind [] h = starts_with-is_calm before (x ∷ front) behind [] h
contains-is_calm before x front behind (c ∷ s) h = ground (
  arith,
  starts_with-is_calm before (x ∷ front) behind (c ∷ s) h,
  contains-is_calm (c == b'E') x front behind s (calm_behind before c s h),
)

-- A code as the pattern `gno\w*Error` finds it.
pub record IsCode (c : Text) : Type 0 where
  pub stem : Text
  pub written : c ≡ stem ++ codes "Error"
  pub is_stem : All (λ x. is_word x ≡ true) stem

is_word-is_calm :
    (before : Bool) (stem s : Text)
    → All (λ x. is_word x ≡ true) stem
    → is_calm before (stem ++ (codes "Error" ++ s)) ≡ is_calm false s
unfolding is_calm codes
is_word-is_calm true [] s h = refl
is_word-is_calm false [] s h = refl
is_word-is_calm before (x ∷ stem) s (k, ks) =
    ground (arith, no_space x k, is_word-is_calm (x == b'E') stem s ks)

code-is_calm : (c s : Text) → IsCode c → is_calm false (c ++ s) ≡ is_calm false s
code-is_calm c s k =
    ap (λ t. is_calm false (t ++ s)) k.written
    ∙ ap (is_calm false) (append_assoc k.stem (codes "Error") s)
    ∙ is_word-is_calm false k.stem s k.is_stem

complaint-is_calm :
    (c s : Text) → IsCode c → is_calm false (complaint c ++ newline ∷ s) ≡ is_calm false s
unfolding complaint is_calm codes
complaint-is_calm c s k =
    ap (is_calm false) (append_assoc c _ (newline ∷ s))
    ∙ code-is_calm c _ k
    ∙ ap (is_calm false) (append_assoc c _ (newline ∷ s))
    ∙ code-is_calm c _ k

complaints-is_calm :
    (cs : List Text) (s : Text)
    → All IsCode cs
    → is_calm false (print_lines (map complaint cs) ++ s) ≡ is_calm false s
complaints-is_calm [] s h = refl
complaints-is_calm (c ∷ cs) s (h, hs) =
    ap (is_calm false) (append_assoc (complaint c) (newline ∷ print_lines (map complaint cs)) s)
    ∙ complaint-is_calm c (print_lines (map complaint cs) ++ s) h
    ∙ complaints-is_calm cs s hs

-- The unknown codes of a verdict are codes.
abbrev pub IsNamed : Judged → Type 0
IsNamed j = All IsCode (unknown_of j.1)

batch-is_calm :
    (rows : List Judged) → All IsNamed rows → is_calm false (print_lines (complaints rows)) ≡ true
unfolding complaints is_calm flat_map
batch-is_calm [] h = refl
batch-is_calm (j ∷ rows) (h, hs) =
    ap (is_calm false) (print_lines-append (map complaint (unknown_of j.1)) (complaints rows))
    ∙ complaints-is_calm (unknown_of j.1) (print_lines (complaints rows)) h
    ∙ batch-is_calm rows hs

-- Neither message on the baseline is in what the batch writes to standard error.
pub contains-complaints :
    (rows : List Judged)
    → All IsNamed rows
    → (contains (codes "BASELINE DID NOT FINISH") (print_lines (complaints rows)) ≡ false)
      × (contains (codes "BASELINE IS RED") (print_lines (complaints rows)) ≡ false)
unfolding codes
contains-complaints rows h =
    let calm = batch-is_calm rows h in
    (
      contains-is_calm false b'B' (codes "ASELIN") (codes "DID NOT FINISH") _ calm,
      contains-is_calm false b'B' (codes "ASELIN") (codes "IS RED") _ calm,
    )
