-- ===== src/Base/Text/Lines.antt =====
-- `split("\n")`, `split()`, `splitlines()` and `strip()`.
use Prim.Native.Nat.{ℕ}
use mathlib.Core.Path.{◌≡◌, refl, ap, ◌∙◌}
use mathlib.Core.Logic.{◌≢◌}
use mathlib.Core.Bool.{Bool, true, false, ◌&&◌, ◌||◌}
use mathlib.Core.List.{List, [], ◌∷◌, ◌++◌, reverse, reverse-reverse, append-nil, append_assoc}
use mathlib.Core.Logic.{inl, inr}
use native.Mathlib.Omega.{arith}
use cryptocourt.Base.Tests.{Bool-cases, ◌==◌, leb, if◌then◌else◌}
use cryptocourt.Base.Lists.{All, All-reverse, any}
use cryptocourt.Base.Text.Defs.{Text, join}

abbrev pub newline : ℕ
newline = b'\n'

abbrev pub Lacks : ℕ → Text → Type 0
Lacks c = All (λ x. (x == c) ≡ false)

-- The character in front of the first part.
abbrev pub onto_first : ℕ → List Text → List Text
onto_first c [] = (c ∷ []) ∷ []
onto_first c (p ∷ ps) = (c ∷ p) ∷ ps

-- `s.split(sep)` for a separator of one character: always one part at least.
unfoldable pub split : ℕ → Text → List Text
split sep [] = [] ∷ []
split sep (c ∷ s) = if c == sep then [] ∷ split sep s else onto_first c (split sep s)

-- `str.isspace` of one character.
unfoldable pub is_space : ℕ → Bool
is_space c =
    (leb 9 c && leb c 13)
    || (leb 28 c && leb c 32)
    || (leb 8192 c && leb c 8202)
    || any (λ d. d == c) (133 ∷ 160 ∷ 5760 ∷ 8232 ∷ 8233 ∷ 8239 ∷ 8287 ∷ 12288 ∷ [])

unfoldable pub lstrip : Text → Text
unfolding is_space
lstrip [] = []
lstrip (c ∷ s) = let rest = lstrip s in if is_space c then rest else c ∷ s

unfoldable pub rstrip : Text → Text
unfolding lstrip
rstrip s = reverse (lstrip (reverse s))

-- `s.strip()`.
unfoldable pub strip : Text → Text
unfolding rstrip
strip s = rstrip (lstrip s)

-- `s.split()`: the maximal runs of characters that are not white space. `word` is the run so far.
words_from : Text → Text → List Text
words_from [] [] = []
words_from (c ∷ word) [] = (c ∷ word) ∷ []
words_from [] (c ∷ s) = elim (is_space c) [ true ↦ words_from [] s | false ↦ words_from (c ∷ []) s ]
words_from (d ∷ word) (c ∷ s) = elim (is_space c) [
  | true ↦ (d ∷ word) ∷ words_from [] s
  | false ↦ words_from (d ∷ word ++ c ∷ []) s
]

unfoldable pub words : Text → List Text
unfolding words_from is_space
words s = words_from [] s

-- The line boundaries of `splitlines`.
unfoldable pub is_line_end : ℕ → Bool
is_line_end c =
    (leb 10 c && leb c 13) || (leb 28 c && leb c 30) || any (λ d. d == c) (133 ∷ 8232 ∷ 8233 ∷ [])

-- `s.splitlines()`: `\r\n` is one boundary, and a boundary at the end adds no line. `seen` tells
-- that the last character was a carriage return; `line` is the line so far.
lines_from : Bool → Text → Text → List Text
lines_from seen [] [] = []
lines_from seen (c ∷ line) [] = (c ∷ line) ∷ []
lines_from seen line (c ∷ s) = elim (seen && (c == newline)) [
  | true ↦ lines_from false [] s
  | false ↦ elim (is_line_end c) [
    | true ↦ line ∷ lines_from (c == b'\r') [] s
    | false ↦ lines_from false (line ++ c ∷ []) s
  ]
]

unfoldable pub splitlines : Text → List Text
unfolding lines_from is_line_end
splitlines s = lines_from false [] s

words_from-word :
    (d : ℕ) (word w s : Text) (c : ℕ)
    → All (λ x. is_space x ≡ false) w
    → is_space c ≡ true
    → words_from (d ∷ word) (w ++ c ∷ s) ≡ (d ∷ (word ++ w)) ∷ words_from [] s
unfolding words_from
words_from-word d word [] s c h sep = rw (words_from, sep, append-nil word)
words_from-word d word (x ∷ w) s c (hx, h) sep =
    rw (words_from, hx) (words_from-word d (word ++ x ∷ []) w s c h sep)
    ∙ ap (λ t. (d ∷ t) ∷ words_from [] s) (append_assoc word (x ∷ []) w)

words_from_end :
    (d : ℕ) (word w : Text)
    → All (λ x. is_space x ≡ false) w
    → words_from (d ∷ word) w ≡ (d ∷ (word ++ w)) ∷ []
unfolding words_from
words_from_end d word [] h = rw (words_from, append-nil word)
words_from_end d word (x ∷ w) (hx, h) =
    rw (words_from, hx) (words_from_end d (word ++ x ∷ []) w h)
    ∙ ap (λ t. (d ∷ t) ∷ []) (append_assoc word (x ∷ []) w)

-- A text that is a word: it is not empty and has no white space.
abbrev pub IsWord : Text → Type 0
IsWord w = (w ≢ []) × All (λ x. is_space x ≡ false) w

-- A word, white space and the rest of a text give the word and the words of the rest.
pub words-append :
    (w s : Text) (c : ℕ) → IsWord w → is_space c ≡ true → words (w ++ c ∷ s) ≡ w ∷ words s
unfolding words
words-append [] s c (ne, h) sep = absurd (ne refl)
words-append (x ∷ w) s c (ne, (hx, h)) sep = rw (words_from, hx) (words_from-word x [] w s c h sep)

pub words_single : (w : Text) → IsWord w → words w ≡ w ∷ []
unfolding words
words_single [] (ne, h) = absurd (ne refl)
words_single (x ∷ w) (ne, (hx, h)) = rw (words_from, hx) (words_from_end x [] w h)

-- Splitting a line, its separator and the rest gives the line and the parts of the rest.
pub split_line :
    (sep : ℕ) (line s : Text) → Lacks sep line → split sep (line ++ sep ∷ s) ≡ line ∷ split sep s
unfolding split
split_line sep [] s h = ground arith
split_line sep (c ∷ line) s (hc, h) = rw hc (ap (onto_first c) (split_line sep line s h))

-- A text without the separator is its own only part.
pub split_single : (sep : ℕ) (line : Text) → Lacks sep line → split sep line ≡ line ∷ []
unfolding split
split_single sep [] h = refl
split_single sep (c ∷ line) (hc, h) = rw hc (ap (onto_first c) (split_single sep line h))

-- Splitting undoes joining, if there is a part and no part holds the separator.
pub split-join :
    (sep : ℕ) (p : Text) (ps : List Text)
    → All (Lacks sep) (p ∷ ps)
    → split sep (join (sep ∷ []) (p ∷ ps)) ≡ p ∷ ps
unfolding join
split-join sep p [] (h, _) = split_single sep p h
split-join sep p (q ∷ ps) (h, hs) =
    split_line sep p _ h ∙ ap (λ ts. p ∷ ts) (split-join sep q ps hs)

lstrip-All : (s : Text) → All (λ c. is_space c ≡ false) s → lstrip s ≡ s
unfolding lstrip
lstrip-All [] h = refl
lstrip-All (c ∷ s) (h, hs) = rw h

-- A text without white space is left as it is.
pub strip-All : (s : Text) → All (λ c. is_space c ≡ false) s → strip s ≡ s
unfolding strip
strip-All s h =
    rw (lstrip-All s h, lstrip-All (reverse s) (All-reverse (λ c. is_space c ≡ false) s h))
      (reverse-reverse s)

-- There is a first part.
split_first : (sep : ℕ) (s : Text) → (p : Text) × (ps : List Text) × (split sep s ≡ p ∷ ps)
unfolding split
split_first sep [] = ([], [], refl)
split_first sep (c ∷ s) =
    let (p, ps, e) = split_first sep s in
    elim (Bool-cases (c == sep)) [
      | inl h ↦ ([], split sep s, rw h)
      | inr h ↦ (c ∷ p, ps, rw (h, e))
    ]

onto_first-append :
    (c : ℕ) (s : Text) (ps qs : List Text)
    → onto_first c ((s ∷ ps) ++ qs) ≡ onto_first c (s ∷ ps) ++ qs
onto_first-append c s ps qs = refl

-- The parts of two texts that a separator joins.
pub split-append : (sep : ℕ) (s t : Text) → split sep (s ++ sep ∷ t) ≡ split sep s ++ split sep t
unfolding split
split-append sep [] t = ground arith
split-append sep (c ∷ s) t = elim (Bool-cases (c == sep)) [
  | inl h ↦ rw (h, split-append sep s t)
  | inr h ↦ let (p, ps, e) = split_first sep s in rw (h, split-append sep s t, e)
]
