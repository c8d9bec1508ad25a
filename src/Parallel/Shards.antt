-- ===== src/Parallel/Shards.antt =====
-- scripts/mutate-parallel.py: the split of the rows, round-robin.
use Prim.Native.Nat.{min, max}
use cryptocourt.Base.{
  ℕ, zero, suc, ◌+◌, ◌/◌, ◌<◌, ◌≡◌, refl, ap, Bool, List, [], ◌∷◌, arith, ◌==◌, if◌then◌else◌,
}

-- The number of shards: as asked for, or half of the cores between 2 and 6, and never more than the
-- rows.
unfoldable pub shard_count : (asked cores rows : ℕ) → ℕ
shard_count asked cores rows =
    let wanted = if asked == 0 then max 2 (min 6 (cores / 2)) else asked in
    let n = min wanted rows in if n == 0 then 1 else n

module _ {ℓ} {A : Type ℓ} where
  -- Every row that is `gap + 1` behind the last, `skip` rows from here on.
  unfoldable pub every : (gap skip : ℕ) → List A → List A
  every gap skip [] = []
  every gap zero (x ∷ xs) = x ∷ every gap gap xs
  every gap (suc k) (x ∷ xs) = every gap k xs

  unfoldable pub shards_from : (gap i left : ℕ) → List A → List (List A)
  unfolding every
  shards_from gap i zero xs = []
  shards_from gap i (suc left) xs = every gap i xs ∷ shards_from gap (suc i) left xs

  -- `[muts[i::n] for i in range(n)]`.
  unfoldable pub shards : ℕ → List A → List (List A)
  unfolding shards_from
  shards zero xs = []
  shards (suc gap) xs = shards_from gap 0 (suc gap) xs

-- The rows that pass a test.
abbrev pub tally {ℓ} : {A : Type ℓ} → (A → Bool) → List A → ℕ
tally p [] = 0
tally p (x ∷ xs) = (if p x then 1 else 0) + tally p xs

-- The rows that pass a test, over all the shards.
abbrev pub tally_all {ℓ} : {A : Type ℓ} → (A → Bool) → List (List A) → ℕ
tally_all p [] = 0
tally_all p (xs ∷ xss) = tally p xs + tally_all p xss

module _ {ℓ} {A : Type ℓ} (p : A → Bool) (gap : ℕ) where
  -- The head goes to the shard whose turn it is, and that shard's next turn is the last one.
  tally_shards-nil : (i left : ℕ) → tally_all p (shards_from gap i left []) ≡ 0
  unfolding shards_from
  tally_shards-nil i zero = refl
  tally_shards-nil i (suc left) = omega (arith, tally_shards-nil (suc i) left)

  tally_shards-suc :
      (i left : ℕ) (x : A) (xs : List A)
      → tally_all p (shards_from gap (suc i) left (x ∷ xs))
        ≡ tally_all p (shards_from gap i left xs)
  unfolding shards_from
  tally_shards-suc i zero x xs = refl
  tally_shards-suc i (suc left) x xs =
      ap (λ n. tally p (every gap i xs) + n) (tally_shards-suc (suc i) left x xs)

  tally_shards_last :
      (i left : ℕ) (xs : List A)
      → tally_all p (shards_from gap i (suc left) xs)
        ≡ tally_all p (shards_from gap i left xs) + tally p (every gap (i + left) xs)
  unfolding shards_from
  tally_shards_last i zero xs =
      let e : i + 0 ≡ i = omega arith in omega (arith, ap (λ (k : ℕ). tally p (every gap k xs)) e)
  tally_shards_last i (suc left) xs =
      let e : suc i + left ≡ i + suc left = omega arith in
      omega (arith, ap (λ (k : ℕ). tally p (every gap k xs)) e, tally_shards_last (suc i) left xs)

tally-shards_from {ℓ} :
    {A : Type ℓ} (p : A → Bool) (gap : ℕ) (xs : List A)
    → tally_all p (shards_from gap 0 (suc gap) xs) ≡ tally p xs
unfolding shards_from every
tally-shards_from p gap [] = tally_shards-nil p gap 0 (suc gap)
tally-shards_from p gap (x ∷ xs) =
    let e : 0 + gap ≡ gap = omega arith in
    omega (
      arith,
      tally_shards-suc p gap 0 gap x xs,
      tally_shards_last p gap 0 gap xs,
      ap (λ (k : ℕ). tally p (every gap k xs)) e,
      tally-shards_from p gap xs,
    )

-- Over all the shards, as many rows pass a test as in the batch: no row is lost or sent twice.
pub tally-shards {ℓ} :
    {A : Type ℓ} (p : A → Bool) (n : ℕ) (xs : List A)
    → 0 < n
    → tally_all p (shards n xs) ≡ tally p xs
unfolding shards
tally-shards p zero xs h = elim h [ ]
tally-shards p (suc gap) xs h = tally-shards_from p gap xs
