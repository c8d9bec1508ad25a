-- ===== src/Shadow/Roots/Owned.antt =====
-- scripts/gnoroot.py: a shadow root belongs to the process in its name.
use mathlib.Core.Option.{some_inj}
use cryptocourt.Base.{
  ℕ, ◌≡◌, ◌≢◌, refl, ap, sym, ◌∙◌, Bool, true, false, not, Option, none, some, [], ◌∷◌, ◌++◌, All,
  All-map, all, keep, arith, if◌then◌else◌, ◌==◌,
}
use cryptocourt.Base.Text.{Text, codes, ◌=text◌, starts_with}
use cryptocourt.Base.Text.Laws.{=text_sound, drop_prefix_complete, =text_ne}
use cryptocourt.Base.Text.Lines.{Lacks}
use cryptocourt.Base.Decimal.{str_nat, value-str_nat, str_nat-All, str_nat-ne-nil, is_digit}
use cryptocourt.Base.Int.{ℤ, pos}
use cryptocourt.Lock.{Signal}
use cryptocourt.Shadow.Roots.{
  Root, Roots, Checkout, split_last, tail_of, is_number, is_gone, is_abandoned, reap, root_name,
  drop_root, shadow_of, build,
}

split_last-none : (sep : ℕ) (s : Text) → Lacks sep s → split_last sep s ≡ none
unfolding split_last
split_last-none sep [] h = refl
split_last-none sep (c ∷ s) (h, hs) = rw (split_last-none sep s hs, h)

-- The last separator of a text is also that of any text that ends in it.
pub split_last-append :
    (sep : ℕ) (s t before after : Text)
    → split_last sep t ≡ some (before, after)
    → split_last sep (s ++ t) ≡ some (s ++ before, after)
unfolding split_last
split_last-append sep [] t before after h = h
split_last-append sep (c ∷ s) t before after h = rw (split_last-append sep s t before after h)

pub split_last_found : (sep : ℕ) (t : Text) → Lacks sep t → split_last sep (sep ∷ t) ≡ some ([], t)
unfolding split_last
split_last_found sep t h = ground (arith, split_last-none sep t h)

digit_is_no_dash : (c : ℕ) → is_digit c ≡ true → (c == b'-') ≡ false
digit_is_no_dash c h = grind arith

str_nat-Lacks : (n : ℕ) → Lacks b'-' (str_nat n)
str_nat-Lacks n = All-map digit_is_no_dash (str_nat n) (str_nat-All n)

all_lem : (p : ℕ → Bool) (s : Text) → All (λ c. p c ≡ true) s → all p s ≡ true
all_lem p [] h = refl
all_lem p (c ∷ s) (h, hs) = ground (arith, all_lem p s hs)

number_lem : (s : Text) → s ≢ [] → All (λ c. is_digit c ≡ true) s → is_number s ≡ true
unfolding is_number
number_lem [] ne h = absurd (ne refl)
number_lem (c ∷ s) ne h = all_lem is_digit (c ∷ s) h

pid_split : (pid : ℕ) → split_last b'-' (codes "-" ++ str_nat pid) ≡ some ([], str_nat pid)
unfolding codes
pid_split pid = split_last_found b'-' (str_nat pid) (str_nat-Lacks pid)

name_split :
    (who label : Text) (pid : ℕ)
    → split_last b'-' (root_name who label pid)
      ≡ some (codes "root-" ++ (who ++ (codes "-" ++ (label ++ []))), str_nat pid)
unfolding root_name
name_split who label pid = split_last-append b'-' (codes "root-") _ _ _ (
    split_last-append b'-' who _ _ _ (
      split_last-append b'-' (codes "-") _ _ _
        (split_last-append b'-' label _ _ _ (pid_split pid))))

tail_of-root_name : (who label : Text) (pid : ℕ) → tail_of (root_name who label pid) ≡ str_nat pid
unfolding tail_of
tail_of-root_name who label pid = rw (tail_of, name_split who label pid)

starts_with-append : (p s : Text) → starts_with p (p ++ s) ≡ true
unfolding starts_with
starts_with-append p s = rw (starts_with, drop_prefix_complete p s)

pub root_prefix :
    (who label : Text) (pid : ℕ) → starts_with (codes "root-") (root_name who label pid) ≡ true
unfolding root_name
root_prefix who label pid = starts_with-append (codes "root-") _

module _ (kill : ℤ → Signal) where
  -- A root with the name that `build` gives is abandoned exactly if the process in its name is gone,
  -- whatever dashes the other parts of the name hold.
  pub is_abandoned-root_name :
      (who label : Text) (pid : ℕ)
      → is_abandoned kill (root_name who label pid) ≡ is_gone (kill (pos pid))
  unfolding is_abandoned
  is_abandoned-root_name who label pid = rw (
    root_prefix who label pid,
    tail_of-root_name who label pid,
    number_lem (str_nat pid) (str_nat-ne-nil pid) (str_nat-All pid),
    value-str_nat pid,
  )

-- The first root of a name.
abbrev pub find_root : Text → Roots → Option Root
find_root name [] = none
find_root name (r ∷ roots) =
    let later = find_root name roots in if r.0 =text name then some r.1 else later

find_root-keep :
    (p : Text → Bool) (name : Text) (roots : Roots)
    → p name ≡ true
    → find_root name (keep (λ (r : Text × Root). p r.0) roots) ≡ find_root name roots
find_root-keep p name [] h = refl
find_root-keep p name (r ∷ roots) h = ground (
  arith,
  find_root-keep p name roots h,
  λ (e : (r.0 =text name) ≡ true). ap p (=text_sound r.0 name e),
)

find_root-append :
    (name other : Text) (roots : Roots) (root : Root)
    → (other =text name) ≡ false
    → find_root name (roots ++ (other, root) ∷ []) ≡ find_root name roots
find_root-append name other [] root h = rw h
find_root-append name other (r ∷ roots) root h = rw (find_root-append name other roots root h)

-- Names that `build` gives to different processes differ.
pub root_name-injective :
    (who label who' label' : Text) (p q : ℕ)
    → root_name who label p ≡ root_name who' label' q
    → p ≡ q
root_name-injective who label who' label' p q h = cc (
  h,
  tail_of-root_name who label p,
  tail_of-root_name who' label' q,
  value-str_nat p,
  value-str_nat q,
)

module _ (kill : ℤ → Signal) where
  -- Another build leaves the root of every process that lives and is not the builder itself.
  pub build_keeps :
      (who label who' label' : Text) (real : Option Checkout) (pid q : ℕ) (roots after : Roots)
      (name : Text)
      → build kill who real label pid roots ≡ some (name, after)
      → is_gone (kill (pos q)) ≡ false
      → q ≢ pid
      → find_root (root_name who' label' q) after ≡ find_root (root_name who' label' q) roots
  unfolding build reap drop_root
  build_keeps who label who' label' none pid q roots after name h live ne = cc h
  build_keeps who label who' label' (some real) pid q roots after name h live ne =
      let mine : Text = root_name who label pid in
      let other : Text = root_name who' label' q in
      let apart : (mine =text other) ≡ false =
        =text_ne mine other (λ e. ne (sym (root_name-injective who label who' label' pid q e))) in
      let apart' : (other =text mine) ≡ false =
        =text_ne other mine (λ e. ne (root_name-injective who' label' who label q pid e)) in
      let left : not (is_abandoned kill other) ≡ true =
        ap not (is_abandoned-root_name kill who' label' q ∙ live) in
      ap (λ (r : Text × Roots). find_root other r.1) (sym (some_inj.0 h))
      ∙ find_root-append other mine _ (shadow_of real) apart
      ∙ find_root-keep (λ n. not (n =text mine)) other _ (ap not apart')
      ∙ find_root-keep (λ n. not (is_abandoned kill n)) other roots left
