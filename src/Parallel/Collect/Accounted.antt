-- ===== src/Parallel/Collect/Accounted.antt =====
-- scripts/mutate-parallel.py: what an exit code of 0 says of the shards.
use cryptocourt.Base.{
  append-eq-nil, ℕ, suc, ◌+◌, ◌≡◌, refl, ap, sym, Bool, true, false, Option, none, some, List, [],
  ◌∷◌, All, keep, arith, Bool-cases, inl, inr, ◌++◌, map-eq-nil, ◌∙◌,
}
use cryptocourt.Base.Text.{Text, codes, contains, split, strip, newline}
use cryptocourt.Mutate.Output.{is_word}
use cryptocourt.Parallel.Report.{
  summary, section, is_unmeasured, is_row, is_caught_row, caught_from,
}
use cryptocourt.Parallel.Collect.{
  ShardRun, Gathered, no_summary, baseline_breaks, summed_part, shard_part, shard_rows,
  shard_caught, both, gather, verdict, exit_code,
}

-- The shard ended with 0 and summed its rows up as the given number of them.
pub data Answered : Option ShardRun → ℕ → Type 0 where
  answered :
      (r : ShardRun) (m : Text × ℕ) → r.code ≡ 0 → summary r.stdout ≡ some m → Answered (some r) m.1

-- The shards with the numbers of rows that they account for, added up.
pub data Accounted : List (Option ShardRun) → ℕ → Type 0 where
  no_shard : Accounted [] 0
  one_more :
      {res : Option ShardRun} {out : List (Option ShardRun)} {n total : ℕ}
      → Answered res n
      → Accounted out total
      → Accounted (res ∷ out) (n + total)

baseline_breaks-nil : (i : ℕ) (r : ShardRun) → baseline_breaks i r ≡ [] → r.code ≡ 0
unfolding baseline_breaks
baseline_breaks-nil i r h = ground arith

summed_part-Answered :
    (i : ℕ) (r : ShardRun) (o : Option (Text × ℕ))
    → summary r.stdout ≡ o
    → (summed_part i r o).broken ≡ []
    → Answered (some r) (summed_part i r o).total
unfolding summed_part
summed_part-Answered i r none e h =
    let no = (append-eq-nil (baseline_breaks i r) (no_summary i ∷ []) h).1 in cc no
summed_part-Answered i r (some m) e h = answered r m (baseline_breaks-nil i r h) e

shard_part-Answered :
    (i : ℕ) (res : Option ShardRun)
    → (shard_part i res).broken ≡ []
    → Answered res (shard_part i res).total
unfolding shard_part
shard_part-Answered i none h = ground arith
shard_part-Answered i (some r) h = summed_part-Answered i r (summary r.stdout) refl h

gather-Accounted :
    (i : ℕ) (out : List (Option ShardRun))
    → (gather i out).broken ≡ []
    → Accounted out (gather i out).total
unfolding gather both
gather-Accounted i [] h = no_shard
gather-Accounted i (res ∷ out) h =
    let parts = append-eq-nil (shard_part i res).broken (gather (suc i) out).broken h in
    one_more (shard_part-Answered i res parts.0) (gather-Accounted (suc i) out parts.1)

exit_code-verdict :
    (expect : Bool) (sent : ℕ) (g : Gathered)
    → exit_code (verdict expect sent g) ≡ 0
    → (g.broken ≡ []) × (g.total ≡ sent)
unfolding exit_code verdict
exit_code-verdict expect sent g h = ground arith

-- Where the run exits with 0, each shard came back with 0 and with a summary, and the summaries add
-- up to the rows that were sent.
pub exit_code-Accounted :
    (expect : Bool) (sent : ℕ) (out : List (Option ShardRun))
    → exit_code (verdict expect sent (gather 0 out)) ≡ 0
    → Accounted out sent
exit_code-Accounted expect sent out h =
    let zero_exit = exit_code-verdict expect sent (gather 0 out) h in
    rw (sym zero_exit.1) (gather-Accounted 0 out zero_exit.0)

keep-nil : {A : Type 0} (p : A → Bool) (xs : List A) → keep p xs ≡ [] → All (λ x. p x ≡ false) xs
keep-nil p [] h = tt
keep-nil p (x ∷ xs) h = elim (Bool-cases (p x)) [
  | inl e ↦ ground arith
  | inr e ↦ (e, keep-nil p xs (rw (e, keep) at h))
]

keep-append :
    {A : Type 0} (p : A → Bool) (xs ys : List A) → keep p (xs ++ ys) ≡ keep p xs ++ keep p ys
keep-append p [] ys = refl
keep-append p (x ∷ xs) ys = elim (Bool-cases (p x)) [
  | inl e ↦ rw (e, keep) (ap (λ l. x ∷ l) (keep-append p xs ys))
  | inr e ↦ rw (e, keep) (keep-append p xs ys)
]

-- Each line that bears a verdict `caught:` is a line of some row.
contains-caught_from :
    (inside : Bool) (s : Text) → caught_from inside s ≡ true → contains (codes "caught:") s ≡ true
unfolding caught_from contains
contains-caught_from inside [] h = cc h
contains-caught_from inside (c ∷ s) h = ground (arith, contains-caught_from (is_word c) s)

is_row-is_caught_row : (line : Text) → is_caught_row line ≡ true → is_row line ≡ true
unfolding is_row is_caught_row
is_row-is_caught_row line h = ground (arith, contains-caught_from false line h)

-- Of the lines that pass the first test none passes the second, which implies the first.
keep_both-nil :
    {A : Type 0} (p q : A → Bool) (xs : List A)
    → ((x : A) → q x ≡ true → p x ≡ true)
    → keep q (keep p xs) ≡ []
    → All (λ x. q x ≡ false) xs
keep_both-nil p q [] implies h = tt
keep_both-nil p q (x ∷ xs) implies h = elim (Bool-cases (p x)) [
  | inl e ↦
      let kept : keep q (x ∷ keep p xs) ≡ [] = rw (e, keep) at h in
      elim (Bool-cases (q x)) [
        | inl f ↦ absurd (ground (arith, rw (f, keep) at kept))
        | inr f ↦ (f, keep_both-nil p q xs implies (rw (f, keep) at kept))
      ]
  | inr e ↦ (
    elim (Bool-cases (q x)) [ inl f ↦ cc (implies x f, e) | inr f ↦ f ],
    keep_both-nil p q xs implies (rw (e, keep) at h),
  )
]

-- A shard with a summary, no line of whose output says that a row was caught, and none of whose rows
-- that were not caught bears a mark of a row that was not measured.
pub data Survives : Option ShardRun → Type 0 where
  survives :
      (r : ShardRun) (m : Text × ℕ)
      → summary r.stdout ≡ some m
      → All (λ line. is_caught_row line ≡ false) (split newline r.stdout)
      → All (λ s. is_unmeasured s ≡ false) (section r.stdout m.0)
      → Survives (some r)

shard_caught-nil :
    (r : ShardRun)
    → shard_caught r ≡ []
    → All (λ line. is_caught_row line ≡ false) (split newline r.stdout)
unfolding shard_caught shard_rows
shard_caught-nil r h =
    keep_both-nil is_row is_caught_row (split newline r.stdout) is_row-is_caught_row
      (map-eq-nil strip (keep is_caught_row (shard_rows r)) h)

summed_part-Survives :
    (i : ℕ) (r : ShardRun) (o : Option (Text × ℕ))
    → summary r.stdout ≡ o
    → (summed_part i r o).broken ≡ []
    → (summed_part i r o).caught ≡ []
    → keep is_unmeasured (summed_part i r o).notcaught ≡ []
    → Survives (some r)
unfolding summed_part
summed_part-Survives i r none e h caught marked =
    let no = (append-eq-nil (baseline_breaks i r) (no_summary i ∷ []) h).1 in cc no
summed_part-Survives i r (some m) e h caught marked =
    survives r m e (shard_caught-nil r caught)
      (keep-nil is_unmeasured (section r.stdout m.0) marked)

shard_part-Survives :
    (i : ℕ) (res : Option ShardRun)
    → (shard_part i res).broken ≡ []
    → (shard_part i res).caught ≡ []
    → keep is_unmeasured (shard_part i res).notcaught ≡ []
    → Survives res
unfolding shard_part
shard_part-Survives i none h caught marked = ground arith
shard_part-Survives i (some r) h caught marked =
    summed_part-Survives i r (summary r.stdout) refl h caught marked

gather-Survives :
    (i : ℕ) (out : List (Option ShardRun))
    → (gather i out).broken ≡ []
    → (gather i out).caught ≡ []
    → keep is_unmeasured (gather i out).notcaught ≡ []
    → All Survives out
unfolding gather both
gather-Survives i [] h caught marked = tt
gather-Survives i (res ∷ out) h caught marked =
    let part = shard_part i res in
    let rest = gather (suc i) out in
    let whole = append-eq-nil part.broken rest.broken h in
    let free = append-eq-nil part.caught rest.caught caught in
    let plain =
      append-eq-nil (keep is_unmeasured part.notcaught) (keep is_unmeasured rest.notcaught)
        (sym (keep-append is_unmeasured part.notcaught rest.notcaught) ∙ marked) in
    (
      shard_part-Survives i res whole.0 free.0 plain.0,
      gather-Survives (suc i) out whole.1 free.1 plain.1,
    )

exit_code-lists :
    (sent : ℕ) (g : Gathered)
    → exit_code (verdict true sent g) ≡ 0
    → (g.broken ≡ []) × (g.caught ≡ []) × (keep is_unmeasured g.notcaught ≡ [])
unfolding exit_code verdict
exit_code-lists sent g h = ground arith

-- Under `--expect-survive` an exit with 0 says more: every shard came back with a summary, no line of
-- its output says that a row was caught, and no row that it lists as not caught bears one of the
-- three marks of a row that was not measured.
pub exit_code-expect :
    (sent : ℕ) (out : List (Option ShardRun))
    → exit_code (verdict true sent (gather 0 out)) ≡ 0
    → All Survives out
exit_code-expect sent out h =
    let (whole, free, plain) = exit_code-lists sent (gather 0 out) h in
    gather-Survives 0 out whole free plain
