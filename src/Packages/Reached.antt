-- ===== src/Packages/Reached.antt =====
-- scripts/genesis-pkgs.py: what the loop leaves behind.
use mathlib.Core.List.{reverse}
use mathlib.Core.Option.{some_inj}
use cryptocourt.Base.{
  ℕ, zero, suc, ◌+◌, ◌<◌, ◌≡◌, ◌≢◌, ◌↔◌, ◌⊎◌, inl, inr, refl, ap, sym, ◌∙◌, Bool, true, false, none,
  some, List, [], ◌∷◌, ◌++◌, All, All-reverse, All-append, length, arith, Bool-cases,
}
use cryptocourt.Base.Text.{Text, text_in}
use cryptocourt.Base.Disk.{Disk, remove_tree}
use cryptocourt.Base.Closure.{Reach, start, step, walk, pending}
use cryptocourt.Base.Closure.Laws.{walk_total, is_marked-walk}
use cryptocourt.Packages.{found_dir, Progress, is_seen, settle, close, fresh}
use cryptocourt.Packages.Sets.{text_in_nil, All-at, All-in}
use cryptocourt.Packages.Table.{
  seen_marks, needs, needs_table, successors-needs, staged_dir_under, Covers, IsCopied,
}
use cryptocourt.Packages.Lockstep.{Kept, close-walk, Kept-settle}

none_ne_some : {A : Type 0} {a : A} → none ≢ some a
none_ne_some e = cc e

module _ (repo gnoroot staging : Text) (is_dir : Text → Bool) where
  is_seen-fresh :
      (disk : Disk) (m : Text) → is_seen (fresh repo gnoroot staging is_dir disk) m ≡ false
  unfolding is_seen fresh text_in
  is_seen-fresh disk m = refl

  Kept-fresh :
      (disk : Disk) (ms : List Text) (covers : Covers repo gnoroot staging is_dir disk ms)
      → Kept repo gnoroot staging is_dir disk ms covers (fresh repo gnoroot staging is_dir disk)
  unfolding fresh remove_tree
  Kept-fresh disk ms covers = record {
    clear = λ m hm h. rw (staged_dir_under repo gnoroot staging is_dir m) refl;
    sources = λ m src hm e. rw (covers.outside m src hm e) refl;
    copied = λ m hm h. absurd (text_in_nil m h);
    lost = λ m h. absurd (text_in_nil m h);
  }

  module _ (disk : Disk) (ms : List Text)
      (covers : Covers repo gnoroot staging is_dir disk ms) where
    abbrev IsKept : Progress → Type 0
    IsKept = Kept repo gnoroot staging is_dir disk ms covers

    abbrev Within : List Text → Type 0
    Within = All (λ (m : Text). text_in m ms ≡ true)

    Within-pushed :
        (m : Text) (queue : List Text)
        → text_in m ms ≡ true
        → Within queue
        → Within (reverse (needs repo gnoroot staging is_dir disk m) ++ queue)
    Within-pushed m queue h hs =
        All-append (λ (x : Text). text_in x ms ≡ true)
          (reverse (needs repo gnoroot staging is_dir disk m)) queue
          (All-reverse (λ (x : Text). text_in x ms ≡ true)
            (needs repo gnoroot staging is_dir disk m)
            (All-in (needs repo gnoroot staging is_dir disk m) ms (λ u hu. covers.closed m u h hu)))
          hs

    walk-Kept :
        (fuel : ℕ) (s s' : Progress) (queue : List Text)
        → IsKept s
        → Within queue
        → walk
            (seen_marks repo gnoroot staging is_dir)
            (needs_table repo gnoroot staging is_dir disk ms)
            fuel
            s
            queue
          ≡ some s'
        → IsKept s'
    unfolding walk seen_marks
    walk-Kept zero s s' queue kept h e = absurd (none_ne_some e)
    walk-Kept (suc fuel) s s' [] kept h e = rw (← some_inj.0 e) kept
    walk-Kept (suc fuel) s s' (m ∷ queue) kept (h, hs) e = elim (Bool-cases (is_seen s m)) [
      | inl new ↦ walk-Kept fuel s s' queue kept hs (rw (new, walk) at e)
      | inr new ↦
          walk-Kept fuel (settle repo gnoroot staging is_dir m s) s'
            (reverse (needs repo gnoroot staging is_dir disk m) ++ queue)
            (Kept-settle repo gnoroot staging is_dir disk ms covers m s kept h new)
            (Within-pushed m queue h hs)
            (rw (new, walk, successors-needs repo gnoroot staging is_dir disk m ms h) at e)
    ]

    Reach-member :
        (roots : List Text) (m : Text)
        → Within roots
        → Reach (needs_table repo gnoroot staging is_dir disk ms) roots m
        → text_in m ms ≡ true
    Reach-member roots m h (start e) = All-at m roots ms e h
    Reach-member roots m h (step {s = u} r e) =
        let hu = Reach-member roots u h r in
        covers.closed u m hu
          (sym (ap (text_in m) (successors-needs repo gnoroot staging is_dir disk u ms hu)) ∙ e)

    seen_split :
        (s : Progress) (m : Text)
        → is_seen s m ≡ true
        → (text_in m s.finished ≡ true) ⊎ (text_in m s.missing ≡ true)
    unfolding is_seen
    seen_split s m h = elim (Bool-cases (text_in m s.finished)) [
      | inl e ↦ inl e
      | inr e ↦ inr (rw e at h)
    ]

    seen_finished : (s : Progress) (m : Text) → text_in m s.finished ≡ true → is_seen s m ≡ true
    unfolding is_seen
    seen_finished s m h = rw h refl

    seen_missing : (s : Progress) (m : Text) → text_in m s.missing ≡ true → is_seen s m ≡ true
    unfolding is_seen
    seen_missing s m h = ground (arith, h)

    -- What the loop ends with: the missing modules are those reached that have no source, the others that are
    -- reached are done, and the staging directory holds of each of these what is copied of its source.
    pub record IsClosure (roots : List Text) (s : Progress) : Type 0 where
      pub missing_iff :
          (m : Text)
          → (text_in m s.missing ≡ true) ↔ (
              Reach (needs_table repo gnoroot staging is_dir disk ms) roots m
              × (found_dir repo gnoroot staging is_dir m ≡ none))
      pub finished_iff :
          (m : Text)
          → (text_in m s.finished ≡ true) ↔ (
              Reach (needs_table repo gnoroot staging is_dir disk ms) roots m
              × (found_dir repo gnoroot staging is_dir m ≢ none))
      pub staged :
          (m : Text)
          → text_in m s.finished ≡ true
          → IsCopied repo gnoroot staging is_dir disk m s.disk

    Kept-IsClosure :
        (roots : List Text) (s : Progress)
        → Within roots
        → IsKept s
        → ((m : Text)
            → (is_seen s m ≡ true)
              ↔ Reach (needs_table repo gnoroot staging is_dir disk ms) roots m)
        → IsClosure roots s
    Kept-IsClosure roots s within kept seen =
        let copied : (m : Text)
            → text_in m s.finished ≡ true
            → IsCopied repo gnoroot staging is_dir disk m s.disk =
          λ m h. kept.copied m (Reach-member roots m within ((seen m).0 (seen_finished s m h))) h in
        record {
          missing_iff = λ m. (
            λ h. ((seen m).0 (seen_missing s m h), kept.lost m h),
            λ (r, e). elim (seen_split s m ((seen m).1 r)) [
              | inl f ↦ absurd (none_ne_some (sym e ∙ (copied m f).found))
              | inr f ↦ f
            ],
          );
          finished_iff = λ m. (
            λ h. ((seen m).0 (seen_finished s m h), λ e. none_ne_some (sym e ∙ (copied m h).found)),
            λ (r, ne). elim (seen_split s m ((seen m).1 r)) [
              | inl f ↦ f
              | inr f ↦ absurd (ne (kept.lost m f))
            ],
          );
          staged = copied;
        }

    -- The loop ends, if a finite list of modules covers the closure and the fuel is above the number of roots and
    -- imports. Then the missing modules are those without a source that the roots reach under the imports of
    -- sources without tests, the others that they reach are done, and the staging directory, emptied at the
    -- beginning, holds of each of these exactly the files that are copied of its source. The sources of the list's
    -- modules lie outside the staging directory, and no two of them have the same name there, where a slash of the
    -- path is an underscore.
    pub close-IsClosure :
        (fuel : ℕ) (roots : List Text)
        → Within roots
        → length (reverse roots)
            + pending
                (seen_marks repo gnoroot staging is_dir)
                (needs_table repo gnoroot staging is_dir disk ms)
                (fresh repo gnoroot staging is_dir disk)
          < fuel
        → (s : Progress) × (close repo gnoroot staging is_dir fuel
              (fresh repo gnoroot staging is_dir disk)
              (reverse roots)
            ≡ some s)
          × IsClosure (reverse roots) s
    unfolding seen_marks
    close-IsClosure fuel roots within enough =
        let marks = seen_marks repo gnoroot staging is_dir in
        let table = needs_table repo gnoroot staging is_dir disk ms in
        let begin : Progress = fresh repo gnoroot staging is_dir disk in
        let clean = Kept-fresh disk ms covers in
        let backwards = All-reverse (λ (m : Text). text_in m ms ≡ true) roots within in
        let (s, e) = walk_total marks table fuel begin (reverse roots) enough in
        (
          s,
          close-walk repo gnoroot staging is_dir disk ms covers fuel begin (reverse roots) clean
                backwards
              ∙ e,
          Kept-IsClosure (reverse roots) s backwards
              (walk-Kept fuel begin s (reverse roots) clean backwards e)
              (λ m.
                is_marked-walk marks table (reverse roots) fuel begin s m e (is_seen-fresh disk)),
        )
