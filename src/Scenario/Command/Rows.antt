-- ===== src/Scenario/Command/Rows.antt =====
-- scripts/scenario.py: what the accounts map holds of the lines of its file.
use cryptocourt.Base.{
  ℕ, ◌≡◌, refl, ap, ◌∙◌, Bool, true, false, ◌||◌, some, List, [], ◌∷◌, ◌++◌, map, All, All-append,
  All-map, arith, ◌==◌, inl, inr,
}
use cryptocourt.Base.Tests.{Bool-cases}
use cryptocourt.Base.Text.{Text, ◌=text◌, text_in, join, is_space, Lacks}
use cryptocourt.Base.Text.Laws.{=text_sound}
use cryptocourt.Base.Text.Lines.{IsWord, words-append, words_single}
use cryptocourt.Base.Exec.{is_ok}
use cryptocourt.Scenario.Bech32.{key_bytes}
use cryptocourt.Scenario.Emit.Genesis.{Addrs, find_key}
use cryptocourt.Scenario.Command.Keyring.{put_key, add_line, add_lines}

-- Whether the map has a name.
abbrev pub has_key {ℓ} : {A : Type ℓ} → Text → List (Text × A) → Bool
has_key who rows = text_in who (map (λ (r : Text × _). r.0) rows)

-- Whether a row's key is one that `pubkey_b64` decodes.
abbrev pub KeyDecodes : Text × (Text × Text) → Type 0
KeyDecodes r = is_ok (key_bytes r.1.1) ≡ true

-- A line of the file, in the columns of `seed-node.sh`.
abbrev pub row_text : Text × (Text × Text) → Text
row_text r = r.0 ++ b'\t' ∷ (r.1.0 ++ b'\t' ∷ r.1.1)

abbrev pub IsRow : Text × (Text × Text) → Type 0
IsRow r = IsWord r.0 × IsWord r.1.0 × IsWord r.1.1

has_key-put_key :
    (who n : Text) (a : Text × Text) (addrs : Addrs)
    → (who =text n) || has_key who addrs ≡ true
    → has_key who (put_key n a addrs) ≡ true
unfolding put_key text_in
has_key-put_key who n a [] h = h
has_key-put_key who n a ((m, b) ∷ rest) h = ground (
  arith,
  has_key-put_key who n a rest,
  λ (e : (m =text n) ≡ true). =text_sound m n e,
  =text_sound who n,
  =text_sound who m,
)

put_key-All :
    (P : Text × (Text × Text) → Type 0) (n : Text) (a : Text × Text) (addrs : Addrs)
    → P (n, a)
    → ((m : Text) → (m =text n) ≡ true → P (m, a))
    → All P addrs
    → All P (put_key n a addrs)
unfolding put_key
put_key-All P n a [] p same h = (p, tt)
put_key-All P n a ((m, b) ∷ rest) p same (q, h) = elim (Bool-cases (m =text n)) [
  | inl e ↦ rw e (same m e, h)
  | inr e ↦ rw e (q, put_key-All P n a rest p same h)
]

-- A row's line adds the row.
add_line-row :
    (addrs : Addrs) (r : Text × (Text × Text))
    → IsRow r
    → add_line addrs (row_text r) ≡ put_key r.0 (r.1.0, r.1.1) addrs
unfolding add_line
add_line-row addrs r (hn, ha, hk) = rw (
  add_line,
  words-append r.0 (r.1.0 ++ b'\t' ∷ r.1.1) b'\t' hn refl,
  words-append r.1.0 r.1.1 b'\t' ha refl,
  words_single r.1.1 hk,
)

add_lines-keys :
    (who : Text) (addrs rows : Addrs)
    → All IsRow rows
    → has_key who addrs || has_key who rows ≡ true
    → has_key who (add_lines addrs (map row_text rows)) ≡ true
unfolding add_lines text_in
add_lines-keys who addrs [] hr h = ground (arith, h)
add_lines-keys who addrs (r ∷ rows) (hr, hrs) h =
    let put : Addrs = put_key r.0 (r.1.0, r.1.1) addrs in
    let held : has_key who put || has_key who rows ≡ true = elim (Bool-cases (has_key who rows)) [
      | inl e ↦ ground (arith, e)
      | inr e ↦ ground (arith, e, has_key-put_key who r.0 (r.1.0, r.1.1) addrs)
    ] in
    ap (λ s. has_key who (add_lines s (map row_text rows))) (add_line-row addrs r hr)
    ∙ add_lines-keys who put rows hrs held

-- Every name of the rows is a name of the map.
pub added_keys :
    (who : Text) (rows : Addrs)
    → All IsRow rows
    → has_key who rows ≡ true
    → has_key who (add_lines [] (map row_text rows)) ≡ true
unfolding text_in
added_keys who rows h e = add_lines-keys who [] rows h e

pub add_lines-KeyDecodes :
    (addrs rows : Addrs)
    → All IsRow rows
    → All KeyDecodes rows
    → All KeyDecodes addrs
    → All KeyDecodes (add_lines addrs (map row_text rows))
unfolding add_lines
add_lines-KeyDecodes addrs [] hr hk h = h
add_lines-KeyDecodes addrs (r ∷ rows) (hr, hrs) (k, ks) h =
    add_lines-KeyDecodes (add_line addrs (row_text r)) rows hrs ks (
      rw (add_line-row addrs r hr) (put_key-All KeyDecodes r.0 (r.1.0, r.1.1) addrs k (λ m e. k) h))

no_newline : (x : ℕ) → is_space x ≡ false → (x == b'\n') ≡ false
unfolding is_space
no_newline x h = ground arith

row_text-Lacks : (r : Text × (Text × Text)) → IsRow r → Lacks b'\n' (row_text r)
row_text-Lacks r ((_, hn), (_, ha), (_, hk)) =
    All-append _ r.0 _ (All-map no_newline r.0 hn)
      (refl, All-append _ r.1.0 _ (All-map no_newline r.1.0 ha) (refl, All-map no_newline r.1.1 hk))

pub rows-Lacks : (rows : Addrs) → All IsRow rows → All (Lacks b'\n') (map row_text rows)
rows-Lacks [] h = tt
rows-Lacks (r ∷ rows) (h, hs) = (row_text-Lacks r h, rows-Lacks rows hs)

-- The file of the rows: one line each.
abbrev pub map_file : Addrs → Text
map_file rows = join (b'\n' ∷ []) (map row_text rows)

pub find_key-has_key :
    {A : Type 0} (who : Text) (rows : List (Text × A))
    → has_key who rows ≡ true
    → (a : A) × (find_key who rows ≡ some a)
unfolding find_key text_in
find_key-has_key who [] h = absurd (ground (arith, h))
find_key-has_key who ((n, a) ∷ rows) h = elim (Bool-cases (who =text n)) [
  | inl e ↦ (a, rw e)
  | inr e ↦ let (b, found) = find_key-has_key who rows (rw e at h) in (b, rw e found)
]

pub has_key-found :
    {A : Type 0} (who : Text) (rows : List (Text × A)) (a : A)
    → find_key who rows ≡ some a
    → has_key who rows ≡ true
unfolding find_key text_in
has_key-found who [] a h = cc h
has_key-found who ((n, b) ∷ rows) a h = ground (arith, has_key-found who rows a)

pub has_key-last :
    (who other : Text) (a : Text × Text) (rows : Addrs)
    → has_key other rows || (other =text who) ≡ true
    → has_key other (rows ++ (who, a) ∷ []) ≡ true
unfolding text_in
has_key-last who other a [] h = ground (arith, h)
has_key-last who other a (r ∷ rows) h = ground (arith, has_key-last who other a rows)
