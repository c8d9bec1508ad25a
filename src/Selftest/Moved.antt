-- ===== src/Selftest/Moved.antt =====
-- scripts/selftest-checks.py: the copy that an arm moves back undoes its edit.
use mathlib.Core.Path.{fun_ext}
use cryptocourt.Base.{
  ◌≡◌, ◌≢◌, ap, sym, ◌∙◌, ◌+◌, false, none, some, length, length-append, arith, inl, inr,
}
use cryptocourt.Base.Tests.{Bool-cases}
use cryptocourt.Base.Text.{Text, codes, ◌=text◌}
use cryptocourt.Base.Text.Laws.{=text_sound, =text_refl, =text_ne}
use cryptocourt.Selftest.Repo.{Repo, write, unlink, move, backup_of}

backup-ne : (path : Text) → backup_of path ≢ path
unfolding backup_of codes
backup-ne path e =
    let longer : length path + 16 ≡ length path =
      sym (length-append path (codes ".selftest-backup")) ∙ ap length e in
    omega arith

moved :
    (source target content : Text) (repo : Repo)
    → repo source ≡ some content
    → move source target repo ≡ unlink source (write target content repo)
unfolding move
moved source target content repo h = rw (move, h)

back_at :
    (full src : Text) (t repo : Repo) (p : Text)
    → repo full ≡ some src
    → repo (backup_of full) ≡ none
    → ((p =text backup_of full) ≡ false → (p =text full) ≡ false → t p ≡ repo p)
    → unlink (backup_of full) (write full src t) p ≡ repo p
unfolding unlink write
back_at full src t repo p h free same = elim (Bool-cases (p =text backup_of full)) [
  | inl e ↦ rw (e, =text_sound p (backup_of full) e) (sym free)
  | inr e ↦ elim (Bool-cases (p =text full)) [
    | inl f ↦ rw (e, f) (sym h ∙ ap repo (sym (=text_sound p full f)))
    | inr f ↦ rw (e, f) (same e f)
  ]
]

-- Moving the copy back undoes any change of the file alone.
pub move-back :
    (full src : Text) (t repo : Repo)
    → repo full ≡ some src
    → repo (backup_of full) ≡ none
    → t (backup_of full) ≡ some src
    → ((p : Text) → (p =text backup_of full) ≡ false → (p =text full) ≡ false → t p ≡ repo p)
    → move (backup_of full) full t ≡ repo
move-back full src t repo h free copy same =
    moved (backup_of full) full src t copy ∙ fun_ext λ p. back_at full src t repo p h free (same p)

-- The copy beside a file, and the file edited with it.
copied :
    (full src : Text) (repo : Repo) → write (backup_of full) src repo (backup_of full) ≡ some src
unfolding write
copied full src repo = rw (=text_refl (backup_of full))

copied_edited :
    (full text src : Text) (repo : Repo)
    → write full text (write (backup_of full) src repo) (backup_of full) ≡ some src
unfolding write
copied_edited full text src repo =
    rw (=text_ne (backup_of full) full (backup-ne full), =text_refl (backup_of full))

pub edited-back :
    (full text src : Text) (repo : Repo)
    → repo full ≡ some src
    → repo (backup_of full) ≡ none
    → move (backup_of full) full (write full text (write (backup_of full) src repo)) ≡ repo
unfolding write
edited-back full text src repo h free =
    move-back full src _ repo h free (copied_edited full text src repo) λ p e f. rw (f, e)

pub copied-back :
    (full src : Text) (repo : Repo)
    → repo full ≡ some src
    → repo (backup_of full) ≡ none
    → move (backup_of full) full (write (backup_of full) src repo) ≡ repo
unfolding write
copied-back full src repo h free =
    move-back full src _ repo h free (copied full src repo) λ p e f. rw e
