-- ===== src/Scenario/Command/Written.antt =====
-- scripts/scenario.py: `--out` changes where the text goes and nothing else.
use cryptocourt.Base.{
  any-append, ◌≡◌, ◌≢◌, refl, ap, sym, ◌∙◌, Bool, false, Option, none, some, List, [], ◌∷◌, ◌++◌,
  inl, inr,
}
use cryptocourt.Base.Tests.{Bool-cases}
use cryptocourt.Base.Text.{Text, codes, ◌=text◌, text_in}
use cryptocourt.Base.Text.Laws.{=text_ne}
use cryptocourt.Base.Exec.{Result, ok, bind_result}
use cryptocourt.Scenario.Step.{Scenario}
use cryptocourt.Scenario.Bech32.{Bytes}
use cryptocourt.Scenario.Command.{
  list_ci, run_words, Done, listed, printed, wrote, text_for, Figures, figures, delivered_to, load,
  run_on, main,
}
use cryptocourt.Scenario.Command.Flags.{Module, Stop, behind, flag}
use cryptocourt.Scenario.Command.Appended.{ok-bind, flag-found, text_for-append, ok_injective}

-- The two words that are added behind the others.
abbrev pub out_to : Text → List Text
out_to path = codes "--out" ∷ path ∷ []

-- A word that `main` does not take for one of its flags.
abbrev pub IsPlain : Text → Type 0
IsPlain w = (codes "--list-ci" ≢ w) × (codes "--emit" ≢ w) × (codes "--accounts-map" ≢ w)

behind_out :
    (name path : Text)
    → (codes "--out" =text name) ≡ false
    → name ≢ path
    → behind name (out_to path) ≡ none
unfolding behind
behind_out name path e ne = rw (e, =text_ne path name (λ q. ne (sym q)))

delivered-to_path :
    (scn : Scenario) (text path : Text)
    → path ≢ []
    → delivered_to scn text (some path) ≡ wrote path text (figures scn text)
unfolding delivered_to
delivered-to_path scn text [] ne = absurd (ne refl)
delivered-to_path scn text (c ∷ path) ne = refl

text_of : Done → Text
text_of (printed t) = t
text_of (wrote p t f) = t
text_of (listed fs) = []

printed-text :
    (scn : Scenario) (text text' : Text) (out : Option Text)
    → delivered_to scn text out ≡ printed text'
    → text ≡ text'
unfolding delivered_to text_of
printed-text scn text text' none h = ap text_of h
printed-text scn text text' (some []) h = ap text_of h
printed-text scn text text' (some (c ∷ s)) h = cc h

module _ (b64 : Bytes → Text) (exec_module : Text → Result Stop Module)
    (read_file : Text → Option Text) where
  pub run_on-eq :
      (module_path : Text) (argv : List Text) (found : Scenario × Bool) (text : Text)
      (out : Option Text)
      → load exec_module module_path ≡ ok found
      → text_for b64 read_file module_path found argv ≡ ok text
      → flag (codes "--out") none argv ≡ ok out
      → run_on b64 exec_module read_file module_path argv ≡ ok (delivered_to found.0 text out)
  unfolding run_on
  run_on-eq module_path argv found text out e et eo = rw (run_on, e, et, eo)

  run_on-ok :
      (module_path : Text) (argv : List Text) (done : Done)
      → run_on b64 exec_module read_file module_path argv ≡ ok done
      → (found : Scenario × Bool) × (text : Text) × (out : Option Text) × (load exec_module
            module_path
          ≡ ok found)
        × (text_for b64 read_file module_path found argv ≡ ok text)
        × (done ≡ delivered_to found.0 text out)
  unfolding run_on
  run_on-ok module_path argv done h =
      let then_out : Scenario × Bool → Text → Option Text → Result Stop Done =
        λ found text out. ok (delivered_to found.0 text out) in
      let then_text = λ (found : Scenario × Bool) (text : Text).
        bind_result (flag (codes "--out") none argv) (then_out found text) in
      let (found, e, h1) =
        ok-bind (load exec_module module_path)
          (λ found. bind_result (text_for b64 read_file module_path found argv) (then_text found))
          done h in
      let (text, et, h2) =
        ok-bind (text_for b64 read_file module_path found argv) (then_text found) done h1 in
      let (out, eo, h3) = ok-bind (flag (codes "--out") none argv) (then_out found text) done h2 in
      (found, text, out, e, et, ok_injective _ _ h3)

  run_on-out :
      (module_path path : Text) (argv : List Text) (text : Text)
      → behind (codes "--emit") (out_to path) ≡ none
      → behind (codes "--accounts-map") (out_to path) ≡ none
      → path ≢ []
      → behind (codes "--out") argv ≡ none
      → run_on b64 exec_module read_file module_path argv ≡ ok (printed text)
      → (f : Figures) × (run_on b64 exec_module read_file module_path (argv ++ out_to path)
          ≡ ok (wrote path text f))
  run_on-out module_path path argv text me ma ne fresh h =
      let (found, made, out, e, et, done) = run_on-ok module_path argv (printed text) h in
      let longer = argv ++ out_to path in
      let kept = text_for-append b64 read_file module_path found argv (out_to path) made me ma et in
      let to_path : flag (codes "--out") none longer ≡ ok (some path) =
        flag-found (codes "--out") argv path fresh in
      (
        figures found.0 made,
        run_on-eq module_path longer found made (some path) e kept to_path
            ∙ ap (λ d. ok d)
                (delivered-to_path found.0 made path ne
                  ∙ ap (λ t. wrote path t (figures found.0 made))
                      (printed-text found.0 made text out (sym done))),
      )

  listed_only :
      (modules : List Text) (text : Text)
      → bind_result (list_ci exec_module modules) (λ fs. ok (listed fs)) ≢ ok (printed text)
  listed_only modules text h =
      let (fs, e, g) = ok-bind (list_ci exec_module modules) _ (printed text) h in cc g

  run_words-out :
      (argv : List Text) (path text : Text)
      → IsPlain path
      → path ≢ []
      → behind (codes "--out") argv ≡ none
      → run_words b64 exec_module read_file argv ≡ ok (printed text)
      → (f : Figures) × (run_words b64 exec_module read_file (argv ++ out_to path)
          ≡ ok (wrote path text f))
  unfolding run_words
  run_words-out [] path text plain ne fresh h = cc h
  run_words-out (script ∷ []) path text plain ne fresh h = cc h
  run_words-out (script ∷ module_path ∷ more) path text (pl, pe, pa) ne fresh h =
      run_on-out module_path path (script ∷ module_path ∷ more) text
        (behind_out (codes "--emit") path (unfold codes ◌=text◌ in refl) pe)
        (behind_out (codes "--accounts-map") path (unfold codes ◌=text◌ in refl) pa) ne fresh h

  no_listing :
      (argv : List Text) (path : Text)
      → IsPlain path
      → text_in (codes "--list-ci") argv ≡ false
      → text_in (codes "--list-ci") (argv ++ out_to path) ≡ false
  unfolding text_in
  no_listing argv path (pl, _, _) e =
      any-append (λ t. codes "--list-ci" =text t) argv (out_to path)
      ∙ rw (e, =text_ne (codes "--list-ci") path pl) (unfold codes ◌=text◌ in refl)

  -- Where `main` prints a text and no `--out` is given, the same words with `--out` and a path
  -- write that text to the path. The path is no flag of `main` itself, and is not empty.
  pub main-out :
      (modules argv : List Text) (path text : Text)
      → IsPlain path
      → path ≢ []
      → behind (codes "--out") argv ≡ none
      → main b64 exec_module read_file modules argv ≡ ok (printed text)
      → (f : Figures) × (main b64 exec_module read_file modules (argv ++ out_to path)
          ≡ ok (wrote path text f))
  unfolding main
  main-out modules argv path text plain ne fresh h =
      elim (Bool-cases (text_in (codes "--list-ci") argv)) [
        | inl e ↦ absurd (listed_only modules text (rw (main, e) at h))
        | inr e ↦
            rw (main, no_listing argv path plain e)
              (run_words-out argv path text plain ne fresh (rw (main, e) at h))
      ]
