-- ===== src/Corpus/Makefile/Runs.antt =====
-- What `routinely_run` promises: a target that `check` reaches has a recipe that runs the harness.
use cryptocourt.Base.{
  ◌+◌, ◌≡◌, ◌↔◌, inl, inr, refl, ap, sym, ◌∙◌, Bool, true, false, ◌||◌, some, List, [], ◌∷◌, ◌++◌,
  map, any, any-append, arith, Bool-cases,
}
use cryptocourt.Base.Text.{Text, codes, ◌=text◌, text_in, join, split, newline, ends_with}
use cryptocourt.Base.Text.Lines.{split-append}
use cryptocourt.Base.Text.Laws.{=text_sound, =text_refl}
use cryptocourt.Base.Closure.{Reach, pending}
use cryptocourt.Base.Closure.Laws.{text_in-cons, text_in-nil, walk_total, is_marked-walk}
use cryptocourt.Mutate.Output.{sorted_set}
use cryptocourt.Mutate.Sorted.{text_in-sorted_set}
use cryptocourt.Corpus.Makefile.{
  Target, deps_of, recipe_of, seen_set, reached_targets, reached_recipes, runs_txtar,
  parse_makefile, runs, routinely_run,
}

-- The walk over the targets of any Makefile ends: as many rounds as dependencies are written are enough, and two more.
pub reached_targets_total :
    (ts : List Target) → (seen : List Text) × (reached_targets ts ≡ some seen)
unfolding reached_targets
reached_targets_total ts =
    walk_total seen_set (deps_of ts) (pending seen_set (deps_of ts) [] + 2) [] (codes "check" ∷ [])
      (omega arith)

reached_targets_iff :
    (ts : List Target) (seen : List Text) (t : Text)
    → reached_targets ts ≡ some seen
    → (text_in t seen ≡ true) ↔ Reach (deps_of ts) (codes "check" ∷ []) t
unfolding reached_targets
reached_targets_iff ts seen t h =
    is_marked-walk seen_set (deps_of ts) (codes "check" ∷ []) _ [] seen t h (λ u. text_in-nil u)

-- A line of a text is a line of one of the two parts that a line break joins.
any-split :
    (p : Text → Bool) (s t : Text)
    → any p (split newline (s ++ newline ∷ t))
      ≡ (any p (split newline s) || any p (split newline t))
unfolding split
any-split p s t =
    ap (any p) (split-append newline s t) ∙ any-append p (split newline s) (split newline t)

-- A recipe of a listed target has a line that passes the test.
abbrev in_recipes : (Text → Bool) → (Text → Text) → List Text → Bool
in_recipes p recipe [] = false
in_recipes p recipe (t ∷ ts) = any p (split newline (recipe t)) || in_recipes p recipe ts

any-join :
    (p : Text → Bool) (recipe : Text → Text) (ts : List Text)
    → p [] ≡ false
    → any p (split newline (join (newline ∷ []) (map recipe ts))) ≡ in_recipes p recipe ts
unfolding join split
any-join p recipe [] h = ground arith
any-join p recipe (t ∷ []) h = ground arith
any-join p recipe (t ∷ u ∷ ts) h =
    any-split p (recipe t) (join (newline ∷ []) (map recipe (u ∷ ts)))
    ∙ ap (λ b. any p (split newline (recipe t)) || b) (any-join p recipe (u ∷ ts) h)

in_recipes-found :
    (p : Text → Bool) (recipe : Text → Text) (ts : List Text)
    → in_recipes p recipe ts ≡ true
    → (t : Text) × (text_in t ts ≡ true) × (any p (split newline (recipe t)) ≡ true)
in_recipes-found p recipe [] h = cc h
in_recipes-found p recipe (t ∷ ts) h = elim (Bool-cases (any p (split newline (recipe t)))) [
  | inl e ↦ (t, ground (arith, text_in-cons t t ts, =text_refl t), e)
  | inr e ↦
      let (u, m, f) = in_recipes-found p recipe ts (ground (arith, h, e)) in
      (u, ground (arith, m, text_in-cons u t ts), f)
]

in_recipes-any :
    (p : Text → Bool) (recipe : Text → Text) (ts : List Text) (t : Text)
    → text_in t ts ≡ true
    → any p (split newline (recipe t)) ≡ true
    → in_recipes p recipe ts ≡ true
in_recipes-any p recipe [] t m h = ground (arith, m, text_in-nil t)
in_recipes-any p recipe (u ∷ ts) t m h = elim (Bool-cases (t =text u)) [
  | inl e ↦
      let here : any p (split newline (recipe u)) ≡ true = rw (← =text_sound t u e) h in
      ground (arith, here)
  | inr e ↦
      ground (arith, in_recipes-any p recipe ts t (ground (arith, m, text_in-cons t u ts, e)) h)
]

txtar_nil : runs_txtar [] ≡ false
unfolding runs_txtar
txtar_nil = refl

txtar_iff :
    (path src : Text) (seen : List Text)
    → ends_with (codes ".txtar") path ≡ true
    → reached_targets (parse_makefile src) ≡ some seen
    → (routinely_run path (some src) ≡ runs)
      ↔ (in_recipes runs_txtar (recipe_of (parse_makefile src)) (sorted_set seen) ≡ true)
unfolding routinely_run reached_recipes
txtar_iff path src seen e h =
    let hay : Text = reached_recipes (parse_makefile src) (reached_targets (parse_makefile src)) in
    let same : any runs_txtar (split newline hay)
        ≡ in_recipes runs_txtar (recipe_of (parse_makefile src)) (sorted_set seen) =
      rw (h, reached_recipes)
        (any-join runs_txtar (recipe_of (parse_makefile src)) (sorted_set seen) txtar_nil) in
    (λ r. ground (arith, same, r, e), λ r. ground (arith, same, r, e))

-- A txtar harness passes exactly if `check` reaches, through the dependencies that the Makefile states, a target
-- one of whose recipe's lines runs the tagged `go test`.
pub routinely_run-Reach :
    (path src : Text)
    → ends_with (codes ".txtar") path ≡ true
    → (routinely_run path (some src) ≡ runs) ↔ (
        (t : Text) × Reach (deps_of (parse_makefile src)) (codes "check" ∷ []) t
        × (any runs_txtar (split newline (recipe_of (parse_makefile src) t)) ≡ true))
routinely_run-Reach path src e =
    let ts : List Target = parse_makefile src in
    let (seen, found) = reached_targets_total ts in
    let meets = txtar_iff path src seen e found in
    (
      λ r.
          let (t, m, line) =
            in_recipes-found runs_txtar (recipe_of ts) (sorted_set seen) (meets.0 r) in
          (t, (reached_targets_iff ts seen t found).0 (sym (text_in-sorted_set t seen) ∙ m), line),
      λ (t, r, line). meets.1 (
          in_recipes-any runs_txtar (recipe_of ts) (sorted_set seen) t
            (text_in-sorted_set t seen ∙ (reached_targets_iff ts seen t found).1 r) line),
    )
