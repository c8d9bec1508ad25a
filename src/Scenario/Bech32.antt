-- ===== src/Scenario/Bech32.antt =====
-- scripts/scenario.py: `pubkey_b64`, from the keyring's bech32 text to the key's bytes.
pub mod Value
use mathlib.Core.List.{reverse}
use cryptocourt.Base.{
  ℕ, zero, suc, ◌+◌, ◌-◌, ◌*◌, ◌/◌, ◌%◌, ◌^◌, ◌&&◌, Option, none, some, List, [], ◌∷◌, ◌++◌, map,
  length, leb, ltb, ◌==◌, if◌then◌else◌,
}
use cryptocourt.Base.Text.{Text, codes}
use cryptocourt.Base.Exec.{Result, ok, err}
use cryptocourt.Scenario.Quote.{EmitError, bad_key}

abbrev pub Bytes : Type 0
Bytes = List ℕ

unfoldable pub bech32_charset : Text
bech32_charset = codes "qpzry9x8gf2tvdw0s3jn54khce6mua7l"

-- `s.find(c)` for one character, from position `i` on; `none` is -1.
unfoldable pub index_from : ℕ → ℕ → Text → Option ℕ
index_from i c [] = none
index_from i c (d ∷ s) = if c == d then some i else index_from (suc i) c s

-- `gpub.lower()`, on ASCII.
unfoldable pub lower : Text → Text
lower = map (λ c. if leb b'A' c && leb c b'Z' then c + 32 else c)

-- `s[s.rfind("1") + 1:]`: what follows the last `1`.
unfoldable pub after_last_one : Text → Option Text
after_last_one [] = none
after_last_one (c ∷ s) = elim (after_last_one s) [
  | some rest ↦ some rest
  | none ↦ if c == b'1' then some s else none
]

-- The values of the symbols; `none` when one is not in the character set.
unfoldable pub symbol_values : Text → Option (List ℕ)
unfolding index_from bech32_charset
symbol_values [] = some []
symbol_values (c ∷ s) = elim (index_from 0 c bech32_charset) [
  | none ↦ none
  | some v ↦ elim (symbol_values s) [ none ↦ none | some vs ↦ some (v ∷ vs) ]
]

abbrev drop : ℕ → Bytes → Bytes
drop zero xs = xs
drop (suc n) [] = []
drop (suc n) (x ∷ xs) = drop n xs

-- `vals[:-6]`: the last six symbols are the checksum.
unfoldable pub without_checksum : List ℕ → List ℕ
without_checksum vals = reverse (drop 6 (reverse vals))

-- `while bits >= 8: bits -= 8; out.append((acc >> bits) & 0xFF)`, with `bits` rounds at most: the
-- bytes and the bits that are left.
unfoldable pub flush : ℕ → ℕ → ℕ → Bytes × ℕ
flush zero acc bits = ([], bits)
flush (suc f) acc bits =
    let rest = flush f acc (bits - 8) in
    if leb 8 bits then ((acc / 2 ^ (bits - 8)) % 256 ∷ rest.0, rest.1) else ([], bits)

-- The loop over the values, from five bits to eight; `acc` is never cut. `(acc << 5) | v` is
-- `acc * 32 + v`, since a value is below 32.
unfoldable pub regroup : ℕ → ℕ → List ℕ → Bytes
unfolding flush
regroup acc bits [] = []
regroup acc bits (v ∷ vs) =
    let acc' = acc * 32 + v in
    let flushed = flush (bits + 5) acc' (bits + 5) in flushed.0 ++ regroup acc' flushed.1 vs

-- The last 33 bytes are the compressed key.
unfoldable pub key_bytes : Text → Result EmitError Bytes
unfolding after_last_one symbol_values without_checksum regroup lower
key_bytes gpub = elim (after_last_one (lower gpub)) [
  | none ↦ err bad_key
  | some symbols ↦ elim (symbol_values symbols) [
    | none ↦ err bad_key
    | some vals ↦
        let out = regroup 0 0 (without_checksum vals) in
        if ltb (length out) 33 then err bad_key else ok (drop (length out - 33) out)
  ]
]
