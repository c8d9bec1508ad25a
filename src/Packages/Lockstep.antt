-- ===== src/Packages/Lockstep.antt =====
-- scripts/genesis-pkgs.py: the loop over the queue is a walk over the modules that the tree's sources import.
use mathlib.Core.List.{reverse}
use cryptocourt.Base.{
  ℕ, zero, suc, ◌≡◌, inl, inr, refl, ap, ◌∙◌, Bool, true, false, none, some, List, [], ◌∷◌, ◌++◌,
  All, All-append, All-reverse, Option-cases, Bool-cases,
}
use cryptocourt.Base.Text.{Text, ◌=text◌, text_in}
use cryptocourt.Base.Text.Laws.{=text_refl, =text_sound, =text_ne}
use cryptocourt.Base.Disk.{Disk, write_dir}
use cryptocourt.Base.Closure.{walk}
use cryptocourt.Packages.Sets.{ne_of, in_rest, under_ne, All-in}
use cryptocourt.Packages.{
  prod_files, put_all, imports_of, found_dir, staged_dir, stage, Progress, is_seen, settle_found,
  settle, pushed, close,
}
use cryptocourt.Packages.Table.{
  seen_marks, needs, needs_table, successors-needs, Covers, staged_dir_under, stage_other, unseen,
  IsCopied, IsCopied-stage,
}

module _ (repo gnoroot staging : Text) (is_dir : Text → Bool) where
  module _ (disk : Disk) (ms : List Text)
      (covers : Covers repo gnoroot staging is_dir disk ms) where
    -- The sources are as they were, and what is not yet seen has nothing in the staging directory.
    pub record Kept (s : Progress) : Type 0 where
      pub clear :
          (m : Text)
          → text_in m ms ≡ true
          → is_seen s m ≡ false
          → s.disk (staged_dir repo gnoroot staging is_dir m) ≡ []
      pub sources :
          (m src : Text)
          → text_in m ms ≡ true
          → found_dir repo gnoroot staging is_dir m ≡ some src
          → s.disk src ≡ disk src
      pub copied :
          (m : Text)
          → text_in m ms ≡ true
          → text_in m s.finished ≡ true
          → IsCopied repo gnoroot staging is_dir disk m s.disk
      pub lost :
          (m : Text) → text_in m s.missing ≡ true → found_dir repo gnoroot staging is_dir m ≡ none

    settle-none :
        (m : Text) (s : Progress)
        → found_dir repo gnoroot staging is_dir m ≡ none
        → settle repo gnoroot staging is_dir m s ≡ record s { missing = m ∷ s.missing }
    unfolding settle
    settle-none m s e = rw (e, settle) refl

    settle-some :
        (m src : Text) (s : Progress)
        → found_dir repo gnoroot staging is_dir m ≡ some src
        → settle repo gnoroot staging is_dir m s
          ≡ settle_found repo gnoroot staging is_dir m s (some src)
    unfolding settle
    settle-some m src s e = rw (e, settle) refl

    staged_now :
        (m src : Text) (s : Progress)
        → (settle_found repo gnoroot staging is_dir m s (some src)).disk
            (staged_dir repo gnoroot staging is_dir m)
          ≡ put_all (prod_files (s.disk src)) (s.disk (staged_dir repo gnoroot staging is_dir m))
    unfolding stage write_dir
    staged_now m src s = rw =text_refl refl

    holds_now :
        (m src : Text) (s : Progress)
        → Kept s
        → text_in m ms ≡ true
        → is_seen s m ≡ false
        → found_dir repo gnoroot staging is_dir m ≡ some src
        → (settle_found repo gnoroot staging is_dir m s (some src)).disk
            (staged_dir repo gnoroot staging is_dir m)
          ≡ put_all (prod_files (disk src)) []
    holds_now m src s kept member new e =
        staged_now m src s
        ∙ ap (λ fs. put_all (prod_files fs) (s.disk (staged_dir repo gnoroot staging is_dir m)))
            (kept.sources m src member e)
        ∙ ap (put_all (prod_files (disk src))) (kept.clear m member new)

    pushed-needs :
        (m : Text) (s : Progress)
        → Kept s
        → text_in m ms ≡ true
        → is_seen s m ≡ false
        → pushed repo gnoroot staging is_dir m (settle repo gnoroot staging is_dir m s)
          ≡ needs repo gnoroot staging is_dir disk m
    unfolding pushed needs
    pushed-needs m s kept member new =
        elim (Option-cases (found_dir repo gnoroot staging is_dir m)) [
          | inl e ↦ rw (e, pushed, needs) refl
          | inr (src, e) ↦
              rw (e, pushed, needs, settle-some m src s e)
                (ap imports_of (holds_now m src s kept member new e))
        ]

    pub Kept-settle :
        (m : Text) (s : Progress)
        → Kept s
        → text_in m ms ≡ true
        → is_seen s m ≡ false
        → Kept (settle repo gnoroot staging is_dir m s)
    Kept-settle m s kept member new =
        elim (Option-cases (found_dir repo gnoroot staging is_dir m)) [
          | inl e ↦ rw (settle-none m s e) (record {
            clear = λ u mu hu. kept.clear u mu (unseen repo gnoroot staging is_dir m u s none hu).1;
            sources = kept.sources;
            copied = kept.copied;
            lost = λ u hu. elim (Bool-cases (u =text m)) [
              | inl f ↦ rw (=text_sound u m f) e
              | inr f ↦ kept.lost u (in_rest u m s.missing f hu)
            ];
          })
          | inr (src, e) ↦ rw (settle-some m src s e) (record {
            clear = λ u mu hu.
                let (other, new) = unseen repo gnoroot staging is_dir m u s (some src) hu in
                stage_other repo gnoroot staging is_dir m src
                  (staged_dir repo gnoroot staging is_dir u) s.disk
                  (=text_ne _ _ (λ f. ne_of other (covers.apart u m mu member f)))
                ∙ kept.clear u mu new;
            sources = λ u src' mu f.
                stage_other repo gnoroot staging is_dir m src src' s.disk (
                  =text_ne _ _ (λ g.
                    under_ne (covers.outside u src' mu f)
                      (rw g (staged_dir_under repo gnoroot staging is_dir m))))
                ∙ kept.sources u src' mu f;
            copied = λ u mu hu. elim (Bool-cases (u =text m)) [
              | inl f ↦
                  rw (=text_sound u m f)
                    (record { src = src; found = e; holds = holds_now m src s kept member new e })
              | inr f ↦
                  IsCopied-stage repo gnoroot staging is_dir m src u s.disk
                    (=text_ne _ _ (λ g. ne_of f (covers.apart u m mu member g)))
                    (kept.copied u mu (in_rest u m s.finished f hu))
            ];
            lost = kept.lost;
          })
        ]

    pub close-walk :
        (fuel : ℕ) (s : Progress) (queue : List Text)
        → Kept s
        → All (λ (m : Text). text_in m ms ≡ true) queue
        → close repo gnoroot staging is_dir fuel s queue
          ≡ walk
              (seen_marks repo gnoroot staging is_dir)
              (needs_table repo gnoroot staging is_dir disk ms)
              fuel
              s
              queue
    unfolding close walk seen_marks
    close-walk zero s queue kept h = refl
    close-walk (suc fuel) s [] kept h = refl
    close-walk (suc fuel) s (m ∷ queue) kept (h, hs) = elim (Bool-cases (is_seen s m)) [
      | inl e ↦ rw (e, close, walk) (close-walk fuel s queue kept hs)
      | inr e ↦
          rw
            (
              e,
              close,
              walk,
              pushed-needs m s kept h e,
              successors-needs repo gnoroot staging is_dir disk m ms h,
            )
            (close-walk fuel (settle repo gnoroot staging is_dir m s)
              (reverse (needs repo gnoroot staging is_dir disk m) ++ queue)
              (Kept-settle m s kept h e)
              (All-append (λ (x : Text). text_in x ms ≡ true)
                (reverse (needs repo gnoroot staging is_dir disk m)) queue
                (All-reverse (λ (x : Text). text_in x ms ≡ true)
                  (needs repo gnoroot staging is_dir disk m)
                  (All-in (needs repo gnoroot staging is_dir disk m) ms
                    (λ u hu. covers.closed m u h hu)))
                hs))
    ]
