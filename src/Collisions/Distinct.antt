-- ===== src/Collisions/Distinct.antt =====
-- What scripts/check-mutant-collisions.py promises where it exits with 0.
use cryptocourt.Base.{
  ℕ, ◌≡◌, ◌≢◌, ◌↔◌, inl, inr, refl, ap, Bool, true, false, ◌&&◌, List, [], ◌∷◌, map, All, arith,
  if◌then◌else◌, Bool-cases, &&-eq-true, ◌⊎◌,
}
use cryptocourt.Base.Text.{Text, ◌=text◌}
use cryptocourt.Base.Text.Laws.{=text_sound, =text_refl}
use cryptocourt.Base.Disk.{Disk}
use cryptocourt.Base.Groups.{are_distinct, is_fresh}
use cryptocourt.Base.Groups.Laws.{repeated-nil}
use cryptocourt.Mutate.Verdict.{is_nil}
use cryptocourt.Collisions.{
  Reason, Mutant, Classified, unusable, mutant, CorpusRow, classify, mutants, unappliable, blob,
  collisions, check_collisions,
}

-- Two mutants are the same tree: the same file with the same text.
abbrev pub same_mutant : Mutant → Mutant → Bool
same_mutant a b = (a.of_file =text b.of_file) && (a.mutated =text b.mutated)

-- A row that yields a mutant.
abbrev pub IsUsable : (Text → Bool) → Text → Disk → CorpusRow → Type 0
IsUsable parses repo disk r = (m : Mutant) × (classify parses repo disk r.1 ≡ mutant m)

same_mutant_sound : (a b : Mutant) → same_mutant a b ≡ true → blob a ≡ blob b
unfolding blob
same_mutant_sound a b h =
    let (f, t) = &&-eq-true (a.of_file =text b.of_file) (a.mutated =text b.mutated) h in
    rw (=text_sound a.of_file b.of_file f, =text_sound a.mutated b.mutated t) refl

Classified-cases :
    (c : Classified) → ((why : Reason) × (c ≡ unusable why)) ⊎ ((m : Mutant) × (c ≡ mutant m))
Classified-cases (unusable why) = inl (why, refl)
Classified-cases (mutant m) = inr (m, refl)

both-nil :
    {A B : Type 0} (xs : List A) (ys : List B)
    → ◌≡◌ {A = ℕ} (if is_nil xs && is_nil ys then 0 else 1) 0
    → (xs ≡ []) × (ys ≡ [])
both-nil [] [] h = (refl, refl)
both-nil [] (y ∷ ys) h = absurd (omega (arith, h))
both-nil (x ∷ xs) ys h = absurd (omega (arith, h))

unusable_ne : {c : Classified} {why : Reason} {m : Mutant} → c ≡ unusable why → c ≢ mutant m
unusable_ne e f = cc (e, f)

module _ (parses : Text → Bool) (repo : Text) (disk : Disk) where
  unappliable-nil :
      (rows : List CorpusRow)
      → (unappliable parses repo disk rows ≡ []) ↔ All (IsUsable parses repo disk) rows
  unfolding unappliable
  unappliable-nil [] = (λ h. tt, λ h. refl)
  unappliable-nil ((rel, r) ∷ rows) = elim (Classified-cases (classify parses repo disk r)) [
    | inl (why, e) ↦
        (λ h. let bad = rw (e, unappliable) at h in cc bad, λ ((m, f), x). absurd (unusable_ne e f))
    | inr (m, e) ↦ (
      λ h. ((m, e), (unappliable-nil rows).0 (rw (e, unappliable) at h)),
      λ (x, xs). rw (e, unappliable) ((unappliable-nil rows).1 xs),
    )
  ]

module _ (digest : Text → Text) where
  abbrev digested : List (Mutant × CorpusRow) → List (Text × CorpusRow)
  digested = map (λ (m : Mutant × CorpusRow). (digest (blob m.0), m.1))

  digest_ne :
      (a b : Mutant) → (digest (blob a) =text digest (blob b)) ≡ false → same_mutant a b ≡ false
  digest_ne a b h = elim (Bool-cases (same_mutant a b)) [
    | inl e ↦
        let same = ap digest (same_mutant_sound a b e) in cc (h, same, =text_refl (digest (blob b)))
    | inr e ↦ e
  ]

  is_fresh-digested :
      (m : Mutant) (ms : List (Mutant × CorpusRow))
      → is_fresh ◌=text◌ (digest (blob m)) (digested ms) ≡ true
      → is_fresh same_mutant m ms ≡ true
  is_fresh-digested m [] h = refl
  is_fresh-digested m ((n, r) ∷ ms) h = ground (arith, h, is_fresh-digested m ms, digest_ne n m)

  are_distinct-digested :
      (ms : List (Mutant × CorpusRow))
      → are_distinct ◌=text◌ (digested ms) ≡ true
      → are_distinct same_mutant ms ≡ true
  are_distinct-digested [] h = refl
  are_distinct-digested ((m, r) ∷ ms) h =
      ground (arith, h, are_distinct-digested ms, is_fresh-digested m ms)

  module _ (parses : Text → Bool) (repo : Text) (disk : Disk) where
    -- Where the guard exits with 0, there is a row, each row yields a mutant, and no two rows yield the same one,
    -- whatever the digest is: the same text in the same file.
    pub check_collisions-distinct :
        (rows : List CorpusRow)
        → check_collisions parses digest repo disk rows ≡ 0
        → (rows ≢ [])
          × All (IsUsable parses repo disk) rows
          × (are_distinct same_mutant (mutants parses repo disk rows) ≡ true)
    unfolding check_collisions collisions
    check_collisions-distinct [] h = absurd (omega (arith, h))
    check_collisions-distinct (r ∷ rows) h =
        let (apart, usable) =
          both-nil (collisions parses digest repo disk (r ∷ rows))
            (unappliable parses repo disk (r ∷ rows)) h in
        (
          λ e. cc e,
          (unappliable-nil parses repo disk (r ∷ rows)).0 usable,
          are_distinct-digested (mutants parses repo disk (r ∷ rows))
              ((repeated-nil ◌=text◌ (digested (mutants parses repo disk (r ∷ rows)))).0 apart),
        )
