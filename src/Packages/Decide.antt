-- ===== src/Packages/Decide.antt =====
-- scripts/genesis-pkgs.py: a test that a list of modules covers a closure.
use mathlib.Core.Option.{some_inj}
use cryptocourt.Base.{
  ◌≡◌, refl, Bool, true, false, not, ◌&&◌, ◌||◌, Option, none, some, List, [], ◌∷◌, all, arith,
  Bool-cases, inl, inr, &&-eq-true,
}
use cryptocourt.Base.Text.{Text, ◌=text◌, text_in}
use cryptocourt.Base.Text.Laws.{=text_refl, =text_sound}
use cryptocourt.Base.Disk.{Disk, is_under}
use cryptocourt.Packages.{found_dir, staged_dir}
use cryptocourt.Packages.Sets.{text_in_nil, in_rest}
use cryptocourt.Packages.Table.{needs, Covers}

all_at :
    (p : Text → Bool) (u : Text) (xs : List Text)
    → all p xs ≡ true
    → text_in u xs ≡ true
    → p u ≡ true
all_at p u [] h k = absurd (text_in_nil u k)
all_at p u (x ∷ xs) h k =
    let (now, later) = &&-eq-true (p x) (all p xs) h in
    elim (Bool-cases (u =text x)) [
      | inl e ↦ rw (=text_sound u x e) now
      | inr e ↦ all_at p u xs later (in_rest u x xs e k)
    ]

module _ (repo gnoroot staging : Text) (is_dir : Text → Bool) where
  abbrev is_closed : Disk → List Text → Bool
  is_closed disk ms =
      all (λ m. all (λ u. text_in u ms) (needs repo gnoroot staging is_dir disk m)) ms

  abbrev is_outside : Option Text → Bool
  is_outside none = true
  is_outside (some src) = not (is_under staging src)

  abbrev are_outside : List Text → Bool
  are_outside = all (λ m. is_outside (found_dir repo gnoroot staging is_dir m))

  abbrev are_apart : List Text → Bool
  are_apart ms =
      all
        (λ m.
          all
            (λ u.
              (m =text u)
              || not (
                  staged_dir repo gnoroot staging is_dir m
                  =text staged_dir repo gnoroot staging is_dir u))
            ms)
        ms

  abbrev pub covers : Disk → List Text → Bool
  covers disk ms = is_closed disk ms && (are_outside ms && are_apart ms)

  outside_at :
      (o : Option Text) (src : Text)
      → is_outside o ≡ true
      → o ≡ some src
      → is_under staging src ≡ false
  outside_at none src h e = cc e
  outside_at (some s) src h e = rw (← some_inj.0 e) (ground (arith, h))

  apart_at : (a b : Bool) → (a || not b) ≡ true → b ≡ true → a ≡ true
  apart_at true b h e = refl
  apart_at false true h e = h
  apart_at false false h e = cc e

  pub covers-Covers :
      (disk : Disk) (ms : List Text)
      → covers disk ms ≡ true
      → Covers repo gnoroot staging is_dir disk ms
  covers-Covers disk ms h =
      let (closed, rest) = &&-eq-true (is_closed disk ms) (are_outside ms && are_apart ms) h in
      let (outside, apart) = &&-eq-true (are_outside ms) (are_apart ms) rest in
      record {
        closed = λ m u hm hu.
            all_at (λ x. text_in x ms) u (needs repo gnoroot staging is_dir disk m)
              (all_at _ m ms closed hm) hu;
        outside = λ m src hm e.
            outside_at (found_dir repo gnoroot staging is_dir m) src (all_at _ m ms outside hm) e;
        apart = λ m u hm hu e. =text_sound m u (
            apart_at (m =text u) _ (all_at _ u ms (all_at _ m ms apart hm) hu)
              (rw e (=text_refl (staged_dir repo gnoroot staging is_dir u))));
      }
