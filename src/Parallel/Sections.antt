-- ===== src/Parallel/Sections.antt =====
-- scripts/mutate-parallel.py: `section` on a text that is printed line by line.
use cryptocourt.Base.{
  ◌≡◌, ◌≢◌, refl, ap, ◌∙◌, true, false, none, some, List, [], ◌∷◌, ◌++◌, All, append_assoc,
  Option-cases, Bool-cases, inl, inr,
}
use cryptocourt.Base.Paths.{starts_with_prefix}
use cryptocourt.Base.Text.{
  Text, codes, drop_prefix, starts_with, newline, Lacks, split, strip, lstrip, is_space,
}
use cryptocourt.Base.Text.Lines.{split_line}
use cryptocourt.Mutate.Batch.{indented, elsewhere_section}
use cryptocourt.Parallel.Report.{find_from, indented_block, section, rest_of, is_blank}
use cryptocourt.Parallel.Printed.{print_lines, drop_prefix-line, print_lines-append}

starts_with-line :
    (p s t : Text) → Lacks newline p → starts_with p (s ++ newline ∷ t) ≡ starts_with p s
unfolding starts_with
starts_with-line p s t h = elim (Option-cases (drop_prefix p s)) [
  | inl e ↦ rw (drop_prefix-line p s t h, e, starts_with) refl
  | inr (r, e) ↦ rw (drop_prefix-line p s t h, e, starts_with) refl
]

-- A line in which the header does not begin anywhere is passed over.
find_from-line :
    (header line t : Text)
    → Lacks newline header
    → find_from header line ≡ none
    → find_from header (line ++ newline ∷ t) ≡ find_from header t
unfolding find_from
find_from-line header [] t h e = elim (Bool-cases (starts_with header [])) [
  | inl f ↦ absurd (cc (rw (f, find_from) at e))
  | inr f ↦ rw (starts_with-line header [] t h ∙ f) refl
]
find_from-line header (c ∷ line) t h e = elim (Bool-cases (starts_with header (c ∷ line))) [
  | inl f ↦ absurd (cc (rw (f, find_from) at e))
  | inr f ↦
      rw (starts_with-line header (c ∷ line) t h ∙ f)
        (find_from-line header line t h (rw (f, find_from) at e))
]

find_from-here :
    (header t : Text) → find_from header (header ++ newline ∷ t) ≡ some (header ++ newline ∷ t)
unfolding find_from
find_from-here [] t = unfold starts_with drop_prefix in refl
find_from-here (x ∷ p) t = rw (starts_with_prefix (x ∷ p) (newline ∷ t)) refl

-- An entry of a list: one line, without white space around it.
pub record IsEntry (s : Text) : Type 0 where
  pub one_line : Lacks newline s
  pub stripped : strip s ≡ s
  pub there : s ≢ []

indent : (s : Text) → starts_with (codes "  ") (codes "  " ++ s) ≡ true
unfolding starts_with drop_prefix codes
indent s = refl

strip-indent : (s : Text) → strip (codes "  " ++ s) ≡ strip s
unfolding strip lstrip is_space codes
strip-indent s = refl

is_blank_ne : (s : Text) → s ≢ [] → is_blank s ≡ false
is_blank_ne [] ne = absurd (ne refl)
is_blank_ne (c ∷ s) ne = refl

indent-Lacks : (s : Text) → Lacks newline s → Lacks newline (codes "  " ++ s)
unfolding codes
indent-Lacks s h = (refl, (refl, h))

indented_block-cons :
    (s : Text) (lines : List Text)
    → IsEntry s
    → indented_block ((codes "  " ++ s) ∷ lines) ≡ s ∷ indented_block lines
unfolding indented_block
indented_block-cons s lines h =
    rw (indent s, strip-indent s, h.stripped, is_blank_ne s h.there) refl

-- The lines of an indented list are read up to a line that is not indented.
indented_block-entries :
    (entries : List Text) (rest : List Text)
    → All IsEntry entries
    → indented_block rest ≡ []
    → indented_block (indented entries ++ rest) ≡ entries
indented_block-entries [] rest h e = e
indented_block-entries (s ∷ entries) rest (h, hs) e =
    indented_block-cons s (indented entries ++ rest) h
    ∙ ap (λ es. s ∷ es) (indented_block-entries entries rest hs e)

-- The indented lines of a text that ends in other lines.
split-entries :
    (entries : List Text) (t : Text)
    → All IsEntry entries
    → split newline (print_lines (indented entries) ++ t) ≡ indented entries ++ split newline t
split-entries [] t h = refl
split-entries (s ∷ entries) t (h, hs) =
    ap (split newline) (append_assoc (codes "  " ++ s) (newline ∷ print_lines (indented entries)) t)
    ∙ split_line newline (codes "  " ++ s) (print_lines (indented entries) ++ t)
        (indent-Lacks s h.one_line)
    ∙ ap (λ ls. (codes "  " ++ s) ∷ ls) (split-entries entries t hs)

-- What follows the list of the rows not caught begins with an empty line, or there is nothing.
pub elsewhere_section-nil :
    (es : List Text) → indented_block (split newline (print_lines (elsewhere_section es))) ≡ []
unfolding indented_block split starts_with drop_prefix codes
elsewhere_section-nil [] = refl
elsewhere_section-nil (e ∷ es) = refl

find_from-lines :
    (header : Text) (lines : List Text) (rest : Text)
    → Lacks newline header
    → All (λ (l : Text). find_from header l ≡ none) lines
    → find_from header (print_lines lines ++ rest) ≡ find_from header rest
find_from-lines header [] rest h k = refl
find_from-lines header (l ∷ lines) rest h (k, ks) =
    ap (find_from header) (append_assoc l (newline ∷ print_lines lines) rest)
    ∙ find_from-line header l (print_lines lines ++ rest) h k
    ∙ find_from-lines header lines rest h ks

section-found :
    (text header found : Text)
    → find_from header text ≡ some found
    → section text header ≡ indented_block (rest_of (split newline found))
unfolding section
section-found text header found e = rw (e, section) refl

-- The list under a header line.
pub section-report :
    (header : Text) (lines entries after : List Text)
    → Lacks newline header
    → find_from header [] ≡ none
    → All (λ (l : Text). find_from header l ≡ none) lines
    → All IsEntry entries
    → indented_block (split newline (print_lines after)) ≡ []
    → section (print_lines (lines ++ [] ∷ header ∷ (indented entries ++ after))) header ≡ entries
section-report header lines entries after h k ks es stop =
    let below : Text = print_lines (indented entries ++ after) in
    let text : Text = print_lines (lines ++ [] ∷ header ∷ (indented entries ++ after)) in
    let found : find_from header text ≡ some (header ++ newline ∷ below) =
      ap (find_from header) (print_lines-append lines ([] ∷ header ∷ (indented entries ++ after)))
      ∙ find_from-lines header lines (newline ∷ (header ++ newline ∷ below)) h ks
      ∙ find_from-line header [] (header ++ newline ∷ below) h k
      ∙ find_from-here header below in
    section-found text header (header ++ newline ∷ below) found
    ∙ ap (λ ls. indented_block (rest_of ls)) (split_line newline header below h)
    ∙ ap (λ t. indented_block (split newline t)) (print_lines-append (indented entries) after)
    ∙ ap indented_block (split-entries entries (print_lines after) es)
    ∙ indented_block-entries entries (split newline (print_lines after)) es stop
