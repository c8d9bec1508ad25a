-- ===== src/Scenario/Command/Seeded.antt =====
-- scripts/scenario.py: the accounts map of all actors is enough for the genesis file.
use mathlib.Core.Option.{some_inj}
use cryptocourt.Base.{
  sym, ◌≡◌, refl, ap, ◌∙◌, Bool, true, not, some, List, [], ◌∷◌, ◌++◌, map, keep, All, All-append,
  arith, inl, inr,
}
use cryptocourt.Base.Tests.{Bool-cases}
use cryptocourt.Base.Text.{Text, codes, ◌=text◌, join}
use cryptocourt.Base.Exec.{Result, ok, err, is_ok, try_map}
use cryptocourt.Scenario.Step.{Scenario, deployer, mined}
use cryptocourt.Scenario.Bech32.{Bytes, key_bytes}
use cryptocourt.Scenario.Emit.Genesis.{
  Addrs, Tx, find_key, call_txs, txs, all_keys, tx_line, missing, emit_txs, tx_json,
}
use cryptocourt.Scenario.Emit.Json.{dumps}
use cryptocourt.Scenario.Command.Rows.{has_key, KeyDecodes, find_key-has_key}

-- An outcome that is not an error.
abbrev Succeeds {ℓ κ} : {E : Type ℓ} {A : Type κ} → Result E A → Type (ℓ ⊔ κ)
Succeeds {A = A} r = (a : A) × (r ≡ ok a)

succeeds : {E A : Type 0} (r : Result E A) → is_ok r ≡ true → Succeeds r
succeeds (ok a) h = (a, refl)
succeeds (err e) h = cc h

try_map-cons :
    {E A B : Type 0} (f : A → Result E B) (x : A) (xs : List A) (y : B) (ys : List B)
    → f x ≡ ok y
    → try_map f xs ≡ ok ys
    → try_map f (x ∷ xs) ≡ ok (y ∷ ys)
try_map-cons f x xs y ys e es = rw (e, es)

module _ (b64 : Bytes → Text) where
  -- The line of a transaction: its JSON, with the address of the caller and the base64 text of the
  -- bytes that the caller's bech32 key decodes to.
  pub data IsLine (addrs : Addrs) (t : Tx) (line : Text) : Type 0 where
    is_line :
        (a : Text × Text) (bytes : Bytes)
        → find_key t.who addrs ≡ some a
        → key_bytes a.1 ≡ ok bytes
        → line ≡ dumps (tx_json a.0 (b64 bytes) t)
        → IsLine addrs t line

  -- One line for each transaction, in their order.
  pub data AreLines (addrs : Addrs) : List Tx → List Text → Type 0 where
    no_line : AreLines addrs [] []
    one_more :
        {t : Tx} {ts : List Tx} {line : Text} {lines : List Text}
        → IsLine addrs t line
        → AreLines addrs ts lines
        → AreLines addrs (t ∷ ts) (line ∷ lines)

  -- The key of a name is what the name's bech32 key decodes to.
  abbrev HasKeys : Addrs → List (Text × Text) → Type 0
  HasKeys addrs keys =
      (who : Text) (a : Text × Text)
      → find_key who addrs ≡ some a
      → (bytes : Bytes) × (key_bytes a.1 ≡ ok bytes) × (find_key who keys ≡ some (b64 bytes))

  one_key :
      (a : Text × (Text × Text)) (bytes : Bytes) (addrs : Addrs) (keys : List (Text × Text))
      → key_bytes a.1.1 ≡ ok bytes
      → HasKeys addrs keys
      → HasKeys (a ∷ addrs) ((a.0, b64 bytes) ∷ keys)
  unfolding find_key
  one_key a bytes addrs keys e h who found there = elim (Bool-cases (who =text a.0)) [
    | inl f ↦
        let it : a.1 ≡ found = some_inj.0 (rw (f, find_key) at there) in
        (bytes, ap (λ (p : Text × Text). key_bytes p.1) (sym it) ∙ e, rw (f, find_key) refl)
    | inr f ↦ let (b, d, k) = h who found (rw (f, find_key) at there) in (b, d, rw (f, find_key) k)
  ]

  keys_decoded :
      (addrs : Addrs)
      → All KeyDecodes addrs
      → (keys : List (Text × Text)) × (all_keys b64 addrs ≡ ok keys) × HasKeys addrs keys
  unfolding all_keys find_key
  keys_decoded [] h = ([], refl, λ who a e. cc e)
  keys_decoded (a ∷ addrs) (k, ks) =
      let (bytes, e) = succeeds (key_bytes a.1.1) k in
      let (keys, es, known) = keys_decoded addrs ks in
      (
        (a.0, b64 bytes) ∷ keys,
        try_map-cons _ a addrs (a.0, b64 bytes) keys (rw e) es,
        one_key a bytes addrs keys e known,
      )

  line-eq :
      (addrs : Addrs) (keys : List (Text × Text)) (t : Tx) (a : Text × Text) (key : Text)
      → find_key t.who addrs ≡ some a
      → find_key t.who keys ≡ some key
      → tx_line b64 addrs keys t ≡ ok (dumps (tx_json a.0 key t))
  unfolding tx_line
  line-eq addrs keys t a key e f = rw (tx_line, e, f)

  lines-AreLines :
      (addrs : Addrs) (keys : List (Text × Text)) (ts : List Tx)
      → HasKeys addrs keys
      → All (λ (t : Tx). has_key t.who addrs ≡ true) ts
      → (lines : List Text) × (try_map (tx_line b64 addrs keys) ts ≡ ok lines)
        × AreLines addrs ts lines
  lines-AreLines addrs keys [] known h = ([], refl, no_line)
  lines-AreLines addrs keys (t ∷ ts) known (h, hs) =
      let (a, e) = find_key-has_key t.who addrs h in
      let (bytes, d, k) = known t.who a e in
      let (lines, es, are) = lines-AreLines addrs keys ts known hs in
      (
        dumps (tx_json a.0 (b64 bytes) t) ∷ lines,
        try_map-cons (tx_line b64 addrs keys) t ts (dumps (tx_json a.0 (b64 bytes) t)) lines
            (line-eq addrs keys t a (b64 bytes) e k) es,
        one_more (is_line a bytes e d refl) are,
      )

  none_missing :
      (known : Text → Bool) (ts : List Tx)
      → All (λ (t : Tx). known t.who ≡ true) ts
      → keep (λ who. not (known who)) (map (λ (t : Tx). t.who) ts) ≡ []
  none_missing known [] h = refl
  none_missing known (t ∷ ts) (h, hs) = ground (arith, h, none_missing known ts hs)

  -- All callers of the file's transactions have a key.
  callers-All :
      (scn : Scenario) (addrs : Addrs)
      → All (λ (t : Tx). has_key t.who addrs ≡ true) (call_txs scn.steps)
      → has_key deployer addrs ≡ true
      → All (λ (t : Tx). has_key t.who addrs ≡ true) (txs scn)
  unfolding txs
  callers-All scn addrs callers h =
      All-append (λ (t : Tx). has_key t.who addrs ≡ true) (call_txs scn.steps) _ callers
        (elim (Bool-cases scn.clock_armed) [ inl e ↦ rw e (h, tt) | inr e ↦ rw e tt ])

  emit_txs-eq :
      (scn : Scenario) (addrs : Addrs) (keys : List (Text × Text)) (lines : List Text)
      → mined scn.steps ≡ 0
      → missing b64 addrs scn.steps ≡ []
      → all_keys b64 addrs ≡ ok keys
      → try_map (tx_line b64 addrs keys) (txs scn) ≡ ok lines
      → emit_txs b64 scn addrs ≡ ok (join (codes "\n") lines ++ codes "\n")
  unfolding emit_txs
  emit_txs-eq scn addrs keys lines still none_lacks e es = rw (emit_txs, still, none_lacks, e, es)

  -- The genesis file of a scenario that mines no block, for a map in which the deployer and every
  -- caller have a key, and all keys decode.
  pub emit_txs-AreLines :
      (scn : Scenario) (addrs : Addrs)
      → mined scn.steps ≡ 0
      → All KeyDecodes addrs
      → All (λ (t : Tx). has_key t.who addrs ≡ true) (call_txs scn.steps)
      → has_key deployer addrs ≡ true
      → (lines : List Text) × AreLines addrs (txs scn) lines
        × (emit_txs b64 scn addrs ≡ ok (join (codes "\n") lines ++ codes "\n"))
  unfolding missing
  emit_txs-AreLines scn addrs still k callers h =
      let (keys, e, known) = keys_decoded addrs k in
      let (lines, es, are) =
        lines-AreLines addrs keys (txs scn) known (callers-All scn addrs callers h) in
      (
        lines,
        are,
        emit_txs-eq scn addrs keys lines still
            (none_missing (λ who. has_key who addrs) (call_txs scn.steps) callers) e es,
      )
