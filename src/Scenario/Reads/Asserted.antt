-- ===== src/Scenario/Reads/Asserted.antt =====
-- scripts/scenario.py: what the set of reads means for the recorded assertions.
use mathlib.Core.Option.{some_inj}
use cryptocourt.Base.{
  ◌≡◌, refl, ap, sym, ◌∙◌, Bool, true, false, not, some, List, [], ◌∷◌, map, keep, All, All-map,
  arith, inl, inr,
}
use cryptocourt.Base.Tests.{Bool-cases}
use cryptocourt.Base.Text.{Text, ◌=text◌, text_in}
use cryptocourt.Base.Text.Laws.{=text_sound, =text_refl}
use cryptocourt.Base.Disk.{Files}
use cryptocourt.Scenario.Step.{Step, call, refuse, expect, remark, mine, init}
use cryptocourt.Scenario.Story.{Verb, run_story}
use cryptocourt.Scenario.Sound.{IsLawful, run_story-IsSound}
use cryptocourt.Scenario.Reads.{Declaration, declarations, writes_of, reads_of, realm_reads}

realm_reads-some :
    (files : Files) (reads : List Text)
    → realm_reads (some files) ≡ some reads
    → reads ≡ reads_of (declarations files)
unfolding realm_reads
realm_reads-some files reads h = found_same (reads_of (declarations files)) refl
  where
    found_same :
        (found : List Text)
        → reads_of (declarations files) ≡ found
        → reads ≡ reads_of (declarations files)
    found_same [] e = cc (rw (realm_reads, e) at h)
    found_same (r ∷ rs) e = sym (some_inj.0 (rw (realm_reads, e) at h)) ∙ sym e

kept_holds :
    (p : Text → Bool) (n : Text) (ns : List Text)
    → text_in n (keep p ns) ≡ true
    → (p n ≡ true) × (text_in n ns ≡ true)
unfolding text_in
kept_holds p n [] h = absurd (ground (arith, h))
kept_holds p n (m ∷ ns) h = elim (Bool-cases (p m)) [
  | inl e ↦ elim (Bool-cases (n =text m)) [
    | inl f ↦ (ap p (=text_sound n m f) ∙ e, rw f refl)
    | inr f ↦ let (a, b) = kept_holds p n ns (rw (keep, e, f) at h) in (a, rw f b)
  ]
  | inr e ↦ let (a, b) = kept_holds p n ns (rw (keep, e) at h) in (a, ground (arith, b))
]

-- A name that is declared as a read, and by no declaration as a write.
abbrev pub IsOnlyRead : List Declaration → Text → Type 0
IsOnlyRead ds n =
    (text_in n (map (λ (d : Declaration). d.0) ds) ≡ true)
    × All (λ (d : Declaration). d.0 ≡ n → d.1 ≡ false) ds

-- The names of some of the declarations are names of all.
named_all :
    (p : Declaration → Bool) (n : Text) (ds : List Declaration)
    → text_in n (map (λ (d : Declaration). d.0) (keep p ds)) ≡ true
    → text_in n (map (λ (d : Declaration). d.0) ds) ≡ true
unfolding text_in
named_all p n [] h = h
named_all p n (d ∷ ds) h = elim (Bool-cases (p d)) [
  | inl e ↦ elim (Bool-cases (n =text d.0)) [
    | inl f ↦ rw f refl
    | inr f ↦ rw f (named_all p n ds (rw (keep, e, f) at h))
  ]
  | inr e ↦ ground (arith, named_all p n ds (rw (keep, e) at h))
]

not_written :
    (n : Text) (ds : List Declaration)
    → text_in n (writes_of ds) ≡ false
    → All (λ (d : Declaration). d.0 ≡ n → d.1 ≡ false) ds
unfolding writes_of text_in
not_written n [] h = tt
not_written n (d ∷ ds) h = elim (Bool-cases d.1) [
  | inr e ↦ (λ same. e, not_written n ds (rw (keep, e) at h))
  | inl e ↦ elim (Bool-cases (n =text d.0)) [
    | inl f ↦ cc (rw (keep, e, f) at h)
    | inr f ↦ (
      λ same. cc (f, ap (λ t. t =text d.0) (sym same), =text_refl d.0),
      not_written n ds (rw (keep, e, f) at h),
    )
  ]
]

reads_of-IsOnlyRead :
    (n : Text) (ds : List Declaration) → text_in n (reads_of ds) ≡ true → IsOnlyRead ds n
unfolding reads_of
reads_of-IsOnlyRead n ds h =
    let (apart, named) = kept_holds (λ m. not (text_in m (writes_of ds))) n _ h in
    (
      named_all (λ (d : Declaration). not d.1) n ds named,
      not_written n ds
          (elim (Bool-cases (text_in n (writes_of ds))) [ inl e ↦ cc (rw e at apart) | inr e ↦ e ]),
    )

-- What an assertion of a scenario is about.
abbrev pub AssertsRead : List Declaration → Step → Type 0
AssertsRead ds (expect func args re note final) = IsOnlyRead ds func
AssertsRead ds (call who func args send note) = Unit
AssertsRead ds (refuse who func args re note) = Unit
AssertsRead ds (remark text) = Unit
AssertsRead ds (mine n note) = Unit

asserts_read :
    (files : Files) (reads : List Text) (st : Step)
    → reads ≡ reads_of (declarations files)
    → IsLawful reads st
    → AssertsRead (declarations files) st
asserts_read files reads (expect func args re note final) e (h, _) =
    reads_of-IsOnlyRead func (declarations files) (ap (λ r. text_in func r) (sym e) ∙ h)
asserts_read files reads (call who func args send note) e h = tt
asserts_read files reads (refuse who func args re note) e h = tt
asserts_read files reads (remark text) e h = tt
asserts_read files reads (mine n note) e h = tt

-- With the reads that the realm's files give, every assertion that a scenario module records, wherever
-- it raises, is on a function that some file declares and that no declaration of any file but a test
-- makes a transaction.
pub run_story-AssertsRead :
    (files : Files) (reads : List Text) (vs : List Verb) (n preamble : Text)
    → realm_reads (some files) ≡ some reads
    → All (AssertsRead (declarations files)) (run_story reads vs (init n preamble)).1.steps
run_story-AssertsRead files reads vs n preamble h =
    let from_files = realm_reads-some files reads h in
    All-map (λ st lawful. asserts_read files reads st from_files lawful)
      (run_story reads vs (init n preamble)).1.steps (run_story-IsSound reads vs n preamble).lawful
