-- ===== src/Shadow/Session/Cleaned.antt =====
-- scripts/gnoroot.py: what a session, or a pair of runs of the script, leaves of BASE.
use mathlib.Core.Option.{some_inj}
use cryptocourt.Base.{
  ℕ, ◌≡◌, ◌≢◌, refl, ap, sym, ◌∙◌, false, Option, none, some, [], ◌∷◌, arith, inl, inr,
}
use cryptocourt.Base.Tests.{Option-cases}
use cryptocourt.Base.Text.{Text, codes, ◌=text◌}
use cryptocourt.Base.Text.Laws.{=text_sound, =text_ne, =text_refl}
use cryptocourt.Base.Text.Lines.{Lacks}
use cryptocourt.Base.Disk.{join_path}
use cryptocourt.Base.Int.{ℤ, pos}
use cryptocourt.Lock.{Signal}
use cryptocourt.Shadow.Roots.{Roots, Checkout, is_gone, reap, root_name, drop_root, build, remove}
use cryptocourt.Shadow.Roots.Owned.{find_root, build_keeps, root_name-injective}
use cryptocourt.Shadow.Roots.Removed.{remove-build, remove-drop_root}
use cryptocourt.Shadow.Session.{
  Process, Outcome, build_root, remove_root, directory, root_or_real, given, enter, with_shadow,
  built, removed, owner, main,
}

find_root-drop_root : (name : Text) (roots : Roots) → find_root name (drop_root name roots) ≡ none
unfolding drop_root
find_root-drop_root name [] = refl
find_root-drop_root name (r ∷ roots) = ground (arith, find_root-drop_root name roots)

find_root-drop_other :
    (name other : Text) (roots : Roots)
    → (other =text name) ≡ false
    → find_root other (drop_root name roots) ≡ find_root other roots
unfolding drop_root
find_root-drop_other name other [] h = refl
find_root-drop_other name other (r ∷ roots) h = ground (
  arith,
  find_root-drop_other name other roots h,
  =text_sound r.0 name,
  =text_sound r.0 other,
  =text_refl other,
)

module _ (checkout : Text → Option Checkout) (gno_env : Option Text) (kill : ℤ → Signal) where
  build-name :
      (who label : Text) (real : Option Checkout) (pid : ℕ) (roots after : Roots) (name : Text)
      → build kill who real label pid roots ≡ some (name, after)
      → name ≡ root_name who label pid
  unfolding build
  build-name who label none pid roots after name h = cc h
  build-name who label (some real) pid roots after name h =
      ap (λ (r : Text × Roots). r.0) (sym (some_inj.0 h))

  with_shadow-some :
      {A : Type 0} (p : Process) (label : Text) (real : Option Text)
      (body : Text → Roots → A × Roots) (roots now after : Roots) (name : Text) (value : A)
      → enter checkout gno_env kill p label real roots ≡ some (name, now)
      → with_shadow checkout gno_env kill p label real body roots ≡ some (value, after)
      → (remove p.base (join_path p.base name) (body (join_path p.base name) now).1).1 ≡ after
  unfolding with_shadow
  with_shadow-some {A} p label real body roots now after name value e h =
      ap (λ (r : A × Roots). r.1) (some_inj.0 (rw (with_shadow, e) at h))

  with_shadow-none :
      {A : Type 0} (p : Process) (label : Text) (real : Option Text)
      (body : Text → Roots → A × Roots) (roots : Roots)
      → enter checkout gno_env kill p label real roots ≡ none
      → with_shadow checkout gno_env kill p label real body roots ≡ none
  unfolding with_shadow
  with_shadow-none p label real body roots e = rw (with_shadow, e)

  -- What a session gives back is what its body ends with, at the path of its own root.
  pub with_shadow-value :
      {A : Type 0} (p : Process) (label : Text) (real : Option Text)
      (body : Text → Roots → A × Roots) (roots after : Roots) (value : A)
      → with_shadow checkout gno_env kill p label real body roots ≡ some (value, after)
      → (now : Roots) × ((body (join_path p.base (root_name p.who label p.pid)) now).0 ≡ value)
  unfolding enter with_shadow
  with_shadow-value {A} p label real body roots after value h =
      elim (Option-cases (enter checkout gno_env kill p label real roots)) [
        | inl e ↦ cc (h, with_shadow-none p label real body roots e)
        | inr ((name, now), e) ↦
            let shadowed = directory checkout (root_or_real checkout gno_env real) in
            let named : name ≡ root_name p.who label p.pid =
              build-name p.who label shadowed p.pid roots now name e in
            (
              now,
              ap (λ n. (body (join_path p.base n) now).0) (sym named)
                  ∙ ap (λ (r : A × Roots). r.0) (some_inj.0 (rw (with_shadow, e) at h)),
            )
      ]

  -- A session removes its own root, however its body ends, and the root of every process that lives
  -- and is not the session's own stands as before, where the body changed no other root. The
  -- worktree's name and the label hold no slash.
  pub with_shadow_cleans :
      {A : Type 0} (p : Process) (label : Text) (real : Option Text)
      (body : Text → Roots → A × Roots) (roots after : Roots) (value : A) (who' label' : Text)
      (q : ℕ)
      → Lacks b'/' p.who
      → Lacks b'/' label
      → ((path : Text) (now : Roots)
          → find_root (root_name who' label' q) (body path now).1
            ≡ find_root (root_name who' label' q) now)
      → is_gone (kill (pos q)) ≡ false
      → q ≢ p.pid
      → with_shadow checkout gno_env kill p label real body roots ≡ some (value, after)
      → (find_root (root_name p.who label p.pid) after ≡ none)
        × (find_root (root_name who' label' q) after ≡ find_root (root_name who' label' q) roots)
  unfolding enter
  with_shadow_cleans p label real body roots after value who' label' q hw hl keeps live ne h =
      elim (Option-cases (enter checkout gno_env kill p label real roots)) [
        | inl e ↦ cc (h, with_shadow-none p label real body roots e)
        | inr ((name, now), e) ↦
            let mine : Text = root_name p.who label p.pid in
            let other : Text = root_name who' label' q in
            let shadowed = directory checkout (root_or_real checkout gno_env real) in
            let named : name ≡ mine = build-name p.who label shadowed p.pid roots now name e in
            let path : Text = join_path p.base name in
            let ended : Roots = (body path now).1 in
            let left : drop_root mine ended ≡ after =
              sym (
                ap (λ (r : ℕ × Roots). r.1) (remove-drop_root p.base p.who label p.pid ended hw hl))
              ∙ ap (λ n. (remove p.base (join_path p.base n) ended).1) (sym named)
              ∙ with_shadow-some p label real body roots now after name value e h in
            let apart : (other =text mine) ≡ false =
              =text_ne other mine
                (λ e. ne (root_name-injective who' label' p.who label q p.pid e)) in
            (
              rw (← left) (find_root-drop_root mine ended),
              rw (← left) (
                  find_root-drop_other mine other ended apart
                  ∙ keeps path now
                  ∙ build_keeps kill p.who label who' label' shadowed p.pid q roots now name e live
                      ne),
            )
      ]

  given_path : (base name : Text) → given (some (join_path base name)) ≡ some (join_path base name)
  unfolding given join_path codes
  given_path [] name = refl
  given_path (c ∷ base) name = refl

  printed_or : Text → Option Text → Text
  printed_or path none = path
  printed_or path (some printed) = printed

  main-remove :
      (p : Process) (name : Text) (roots : Roots)
      → main checkout gno_env kill p (remove_root (some (join_path p.base name))) roots
        ≡ removed (remove p.base (join_path p.base name) roots)
  unfolding main removed
  main-remove p name roots = rw (main, given_path p.base name)

  built-some :
      (base path : Text) (made : Option (Text × Roots)) (roots after : Roots)
      → built base made roots ≡ record { code = 0; printed = some path; roots = after }
      → (name : Text) × (path ≡ join_path base name) × (made ≡ some (name, after))
  unfolding built printed_or
  built-some base path none roots after h = cc h
  built-some base path (some made) roots after h = (
    made.0,
    ap (λ (o : Option Text). printed_or path o) (ap (λ (r : Outcome). r.printed) (sym h)),
    ap (λ (r : Roots). some (made.0, r)) (ap (λ (r : Outcome). r.roots) h),
  )

  -- The path that `build` prints is one that `remove` takes, whichever process runs it: it exits
  -- with 0 and leaves BASE as it was, without the abandoned roots and without one of that name. The
  -- worktree's name and the label hold no slash.
  pub main_remove :
      (p p' : Process) (root : Option Text) (label path : Text) (pid : Option ℕ)
      (roots after : Roots)
      → Lacks b'/' p.who
      → Lacks b'/' label
      → p'.base ≡ p.base
      → main checkout gno_env kill p (build_root root label pid) roots
        ≡ record { code = 0; printed = some path; roots = after }
      → main checkout gno_env kill p' (remove_root (some path)) after ≡ record {
        code = 0;
        printed = none;
        roots = drop_root (root_name p.who label (owner p pid)) (reap kill roots).0;
      }
  unfolding main removed
  main_remove p p' root label path pid roots after hw hl same h =
      let real = directory checkout (root_or_real checkout gno_env root) in
      let (name, at, made) =
        built-some p.base path (build kill p.who real label (owner p pid) roots) roots after h in
      let named = build-name p.who label real (owner p pid) roots after name made in
      let gone =
        remove-build kill p.base p.who label real (owner p pid) roots after name hw hl made in
      let start : main checkout gno_env kill p' (remove_root (some path)) after
          ≡ main checkout gno_env kill p' (remove_root (some (join_path p'.base name))) after =
        ap (λ t. main checkout gno_env kill p' (remove_root (some t)) after)
          (at ∙ ap (λ b. join_path b name) (sym same)) in
      start
      ∙ main-remove p' name after
      ∙ ap removed (
          ap (λ b. remove b (join_path b name) after) same
          ∙ gone
          ∙ ap (λ n. (0, drop_root n (reap kill roots).0)) named)
