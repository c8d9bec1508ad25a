-- ===== src/Scenario/Quote/Pascal.antt =====
-- What testscript reads back: inside a quoted chunk two quotes stand for one, and a single quote
-- ends the chunk.
use cryptocourt.Base.{
  ℕ, ◌≡◌, refl, ap, Bool, true, false, Option, none, some, [], ◌∷◌, ◌++◌, arith, append_assoc, ◌==◌,
  any, if◌then◌else◌, Bool-cases, ==_iff, inl, inr,
}
use cryptocourt.Base.Text.{Text, replace}
use cryptocourt.Base.Text.Replace.{replace_char}
use cryptocourt.Base.Exec.{ok}
use cryptocourt.Scenario.Quote.{quote, breaks_line, q_txtar}

-- A character in front of what was read.
abbrev push_char : ℕ → Option (Text × Text) → Option (Text × Text)
push_char c none = none
push_char c (some (a, rest)) = some (c ∷ a, rest)

-- The chunk and what follows it. `seen` tells that the last character was a quote.
read_chunk : (seen : Bool) → Text → Option (Text × Text)
read_chunk false [] = none
read_chunk true [] = some ([], [])
read_chunk false (c ∷ s) = elim (c == quote) [
  | true ↦ read_chunk true s
  | false ↦ push_char c (read_chunk false s)
]
read_chunk true (c ∷ s) = elim (c == quote) [
  | true ↦ push_char quote (read_chunk false s)
  | false ↦ some ([], c ∷ s)
]

-- A quoted token in front of a text.
unfoldable pub read_token : Text → Option (Text × Text)
unfolding read_chunk
read_token [] = none
read_token (c ∷ s) = if c == quote then read_chunk false s else none

-- The text does not go on with a quote.
abbrev pub ends_token : Text → Bool
ends_token [] = true
ends_token (c ∷ s) = if c == quote then false else true

abbrev doubled : Text → Text
doubled = replace (quote ∷ []) (quote ∷ quote ∷ [])

read_chunk_end : (rest : Text) → ends_token rest ≡ true → read_chunk true rest ≡ some ([], rest)
unfolding read_chunk
read_chunk_end [] h = refl
read_chunk_end (c ∷ rest) h = ground arith

read_chunk-doubled :
    (a rest : Text)
    → ends_token rest ≡ true
    → read_chunk false (doubled a ++ (quote ∷ rest)) ≡ some (a, rest)
unfolding read_chunk
read_chunk-doubled [] rest h = unfold replace in read_chunk_end rest h
read_chunk-doubled (x ∷ a) rest h = elim (Bool-cases (quote == x)) [
  | inl e ↦
      rw (replace_char, e)
        (rw (read_chunk-doubled a rest h) (ap (λ c. some (c ∷ a, rest)) ((==_iff quote x).0 e)))
  | inr e ↦ rw (replace_char, e) (ground (arith, e, read_chunk-doubled a rest h))
]

q_txtar_form :
    (a t : Text)
    → q_txtar a ≡ ok t
    → (t ≡ quote ∷ (doubled a ++ (quote ∷ []))) × (any breaks_line a ≡ false)
unfolding q_txtar
q_txtar_form a t h = ground arith

-- testscript reads a quoted token back, whatever follows it that is not a quote, and the token holds
-- no line break.
pub read_token-q_txtar :
    (a t rest : Text)
    → q_txtar a ≡ ok t
    → ends_token rest ≡ true
    → (read_token (t ++ rest) ≡ some (a, rest)) × (any breaks_line a ≡ false)
unfolding read_token
read_token-q_txtar a t rest h ends =
    let (form, plain) = q_txtar_form a t h in
    (rw (form, append_assoc) (read_chunk-doubled a rest ends), plain)
