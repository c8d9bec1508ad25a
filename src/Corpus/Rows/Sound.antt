-- ===== src/Corpus/Rows/Sound.antt =====
-- What a row without a problem is.
use mathlib.Core.Option.{some_inj}
use cryptocourt.Base.{
  append-eq-nil, ◌≡◌, ◌≢◌, ◌↔◌, inl, inr, refl, sym, ◌∙◌, Bool, true, false, Option, none, some,
  List, [], ◌∷◌, All, arith, Option-cases,
}
use cryptocourt.Base.Text.{Text, ◌=text◌, count}
use cryptocourt.Base.Text.Laws.{=text_refl, =text_ne}
use cryptocourt.Corpus.Makefile.{Routine, runs, no_txtar_runner, no_python_runner, unknown_harness}
use cryptocourt.Corpus.Rows.{
  RawRow, Entry, object, other, Resolved, no_package, no_file, found, Triple, required, raw_pkg,
  label_problems, is_line_numbered, anchor_problems, elsewhere_problems, row_problems, row_verdicts,
  routine_problems,
}

-- A label that names the row: it is there, not empty, and cites no line.
pub data IsNamed : Option Text → Type 0 where
  is_named : (s : Text) → s ≢ [] → is_line_numbered s ≡ false → IsNamed (some s)

-- The anchor occurs once in the text that the row's file holds, and the mutation changes it.
pub data IsAnchored (t : Triple) : Resolved → Type 0 where
  is_anchored :
      (text : Text) → t.anchor ≢ t.swap → count t.anchor text ≡ 1 → IsAnchored t (found text)

IsNamed-nil : ¬ IsNamed (some [])
IsNamed-nil (is_named s ne h) = ne refl

IsNamed-label : {s : Text} → IsNamed (some s) → is_line_numbered s ≡ false
IsNamed-label (is_named s ne h) = h

label_problems-nil : (l : Option Text) → (label_problems l ≡ []) ↔ IsNamed l
unfolding label_problems
label_problems-nil none = (λ h. absurd (ground arith), λ n. elim n [ ])
label_problems-nil (some []) = (λ h. absurd (ground arith), λ n. absurd (IsNamed-nil n))
label_problems-nil (some (c ∷ s)) =
    (λ h. is_named (c ∷ s) (λ e. cc e) (ground (arith, h)), λ n. ground (arith, IsNamed-label n))

IsAnchored-found :
    {t : Triple} {text : Text}
    → IsAnchored t (found text)
    → (t.anchor ≢ t.swap) × (count t.anchor text ≡ 1)
IsAnchored-found (is_anchored text ne once) = (ne, once)

routine_problems-nil : (r : Routine) → (routine_problems r ≡ []) ↔ (r ≡ runs)
routine_problems-nil runs = (λ h. refl, λ h. refl)
routine_problems-nil no_txtar_runner = (λ h. absurd (ground arith), λ h. absurd (ground arith))
routine_problems-nil no_python_runner = (λ h. absurd (ground arith), λ h. absurd (ground arith))
routine_problems-nil unknown_harness = (λ h. absurd (ground arith), λ h. absurd (ground arith))

anchor_problems-nil : (t : Triple) (r : Resolved) → (anchor_problems t r ≡ []) ↔ IsAnchored t r
unfolding anchor_problems
anchor_problems-nil t no_package = (λ h. absurd (ground arith), λ a. elim a [ ])
anchor_problems-nil t no_file = (λ h. absurd (ground arith), λ a. elim a [ ])
anchor_problems-nil t (found text) = (
  λ h.
      is_anchored text
        (λ e.
          let same : (t.anchor =text t.swap) ≡ true = cc (e, =text_refl t.swap) in
          absurd (ground (arith, h, same)))
        (ground (arith, h)),
  λ a. let (ne, once) = IsAnchored-found a in ground (arith, once, =text_ne t.anchor t.swap ne),
)

absent : {t : Triple} {o : Option Triple} → o ≡ none → o ≢ some t
absent e f = cc (e, f)

module _ (exists : Text → Bool) (routine : Text → Routine) (resolve : Text → Text → Resolved) where
  -- An excuse is absent, or a path that exists and that a routine runs.
  pub data IsExcused : Option Text → Type 0 where
    no_excuse : IsExcused none
    empty_excuse : IsExcused (some [])
    excuse : (s : Text) → exists s ≡ true → routine s ≡ runs → IsExcused (some s)

  pub data IsSound : Entry → Type 0 where
    is_sound :
        (r : RawRow) (t : Triple)
        → required r ≡ some t
        → IsNamed r.label
        → IsExcused r.elsewhere
        → IsAnchored t (resolve (raw_pkg r) t.at_file)
        → IsSound (object r)

  IsExcused-path : {s : Text} → IsExcused (some s) → s ≢ [] → (exists s ≡ true) × (routine s ≡ runs)
  IsExcused-path empty_excuse ne = absurd (ne refl)
  IsExcused-path (excuse s e r) ne = (e, r)

  elsewhere_problems-nil :
      (w : Option Text) → (elsewhere_problems exists routine resolve w ≡ []) ↔ IsExcused w
  unfolding elsewhere_problems
  elsewhere_problems-nil none = (λ h. no_excuse, λ x. refl)
  elsewhere_problems-nil (some []) = (λ h. empty_excuse, λ x. refl)
  elsewhere_problems-nil (some (c ∷ s)) = (
    λ h.
        let there : exists (c ∷ s) ≡ true = ground (arith, h) in
        excuse (c ∷ s) there
          ((routine_problems-nil (routine (c ∷ s))).0 (ground (arith, h, there))),
    λ x.
        let (there, ran) = IsExcused-path x (λ e. cc e) in
        ground (arith, there, (routine_problems-nil (routine (c ∷ s))).1 ran),
  )

  pub IsSound-parts :
      {r : RawRow} {t : Triple}
      → IsSound (object r)
      → required r ≡ some t
      → IsNamed r.label × IsExcused r.elsewhere × IsAnchored t (resolve (raw_pkg r) t.at_file)
  IsSound-parts {t = t} (is_sound r t' e n x a) f =
      let same : t' ≡ t = some_inj.0 (sym e ∙ f) in rw (← same) (n, x, a)

  IsSound-required : {r : RawRow} → IsSound (object r) → (t : Triple) × (required r ≡ some t)
  IsSound-required (is_sound r t e n x a) = (t, e)

  row_problems-nil : (e : Entry) → (row_problems exists routine resolve e ≡ []) ↔ IsSound e
  unfolding row_problems
  row_problems-nil other = (λ h. absurd (ground arith), λ x. elim x [ ])
  row_problems-nil (object r) = elim (Option-cases (required r)) [
    | inl e ↦ (
      λ h. let bad = rw (e, row_problems) at h in cc bad,
      λ x. absurd (absent e (IsSound-required x).1),
    )
    | inr (t, e) ↦ (
      λ h.
          let (hn, hrest) = append-eq-nil (label_problems r.label) _ (rw (e, row_problems) at h) in
          let (hx, ha) =
            append-eq-nil (elsewhere_problems exists routine resolve r.elsewhere) _ hrest in
          is_sound r t e ((label_problems-nil r.label).0 hn)
            ((elsewhere_problems-nil r.elsewhere).0 hx) ((anchor_problems-nil t _).0 ha),
      λ x.
          let (n, w, a) = IsSound-parts x e in
          rw
            (
              e,
              row_problems,
              (label_problems-nil r.label).1 n,
              (elsewhere_problems-nil r.elsewhere).1 w,
            )
            ((anchor_problems-nil t _).1 a),
    )
  ]

  -- The guard finds nothing wrong with the rows exactly if each is sound: it has the keys of a row, its label
  -- names it, its excuse holds, and its anchor occurs exactly once in its file and is replaced by another text.
  pub row_verdicts-nil :
      (rows : List Entry) → (row_verdicts exists routine resolve rows ≡ []) ↔ All IsSound rows
  unfolding row_verdicts
  row_verdicts-nil [] = (λ h. tt, λ h. refl)
  row_verdicts-nil (e ∷ rows) = (
    λ h.
        let (now, later) = append-eq-nil (row_problems exists routine resolve e) _ h in
        ((row_problems-nil e).0 now, (row_verdicts-nil rows).0 later),
    λ (now, later). rw ((row_problems-nil e).1 now) ((row_verdicts-nil rows).1 later),
  )
