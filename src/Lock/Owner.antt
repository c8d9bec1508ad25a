-- ===== src/Lock/Owner.antt =====
-- Who the lock lets in: the laws of `holder`, `refuse_if_held` and `hold`.
use cryptocourt.Base.{
  ℕ, ◌≡◌, ◌≢◌, ◌↔◌, ◌⊎◌, refl, ap, sym, ◌∙◌, true, false, Option, none, some, List, [], ◌∷◌, arith,
  Bool-cases, Option-cases, inl, inr,
}
use cryptocourt.Base.Text.{Text, codes, ◌=text◌}
use cryptocourt.Base.Text.Laws.{=text_refl, =text_sound}
use cryptocourt.Base.Decimal.{str_nat}
use cryptocourt.Base.Int.{ℤ, pos, str_int, parse_int-str_nat, strip-str_nat}
use cryptocourt.Lock.{
  Signal, delivered, no_process, not_permitted, World, Env, alive, read_pid, enter, leave,
  same_owner, verdict, holder, refuse_if_held, main, silent,
}

-- The pid that a process writes is the one that the readers find.
read_pid-enter : (pid : ℕ) (w : World) → read_pid (enter pid w).0 ≡ some (pos pid)
unfolding read_pid enter
read_pid-enter pid w = rw strip-str_nat (parse_int-str_nat pid)

same_owner_iff : (env : Env) (pid : ℤ) → (same_owner env pid ≡ true) ↔ (env ≡ some (str_int pid))
same_owner_iff none pid = (λ h. cc, λ h. cc)
same_owner_iff (some owner) pid =
    (λ h. ap some (sym (=text_sound (str_int pid) owner h)), λ h. cc (=text_refl (str_int pid)))

verdict_own :
    (env : Env) (pid : ℤ) (w : World)
    → env ≡ some (str_int pid)
    → verdict env (some pid, w) ≡ (false, w)
verdict_own env pid w e = rw ((same_owner_iff env pid).1 e)

verdict_other :
    (env : Env) (pid : ℤ) (w : World)
    → env ≢ some (str_int pid)
    → verdict env (some pid, w) ≡ (true, w)
verdict_other env pid w ne = elim (Bool-cases (same_owner env pid)) [
  | inl e ↦ absurd (ne ((same_owner_iff env pid).0 e))
  | inr e ↦ rw e
]

own_env : (pid : ℕ) (w : World) → (enter pid w).1 ≡ some (str_int (pos pid))
unfolding enter str_int
own_env pid w = refl

-- Two numbers that the file holds are one.
same_pid : {o : Option ℤ} {p q : ℤ} → o ≡ some p → o ≡ some q → p ≡ q
same_pid e f = cc

same_print :
    {o : Option ℤ} {p q : ℤ} → o ≡ some p → o ≡ some q → some (str_int p) ≡ some (str_int q)
same_print e f = ap (λ p. some (str_int p)) (same_pid e f)

alive_yes : (s : Signal) → alive s ≡ true → s ≡ delivered
unfolding alive
alive_yes delivered h = refl
alive_yes no_process h = cc h
alive_yes not_permitted h = cc h

alive_no : (s : Signal) → (alive s ≡ false) ↔ (s ≢ delivered)
unfolding alive
alive_no s = (
  λ h e. cc (h, ap alive e),
  λ ne. elim (Bool-cases (alive s)) [ inl e ↦ absurd (ne (alive_yes s e)) | inr e ↦ e ],
)

module _ (kill : ℤ → Signal) where
  -- What one look at the lock finds and leaves: a holder that `alive` takes for one keeps its file, the
  -- file of another is removed, and a file that is missing or holds no number is left as it is.
  pub data Look (w : World) : Option ℤ × World → Type 0 where
    unreadable : read_pid w ≡ none → Look w (none, w)
    live : (pid : ℤ) → read_pid w ≡ some pid → alive (kill pid) ≡ true → Look w (some pid, w)
    dead : (pid : ℤ) → read_pid w ≡ some pid → alive (kill pid) ≡ false → Look w (none, none)

  pub holder-Look : (w : World) → Look w (holder kill w)
  unfolding holder
  holder-Look w = elim (Option-cases (read_pid w)) [
    | inl e ↦ rw (e, holder) (unreadable e)
    | inr (p, e) ↦ elim (Bool-cases (alive (kill p))) [
      | inl a ↦ rw (e, holder, a) (live p e a)
      | inr a ↦ rw (e, holder, a) (dead p e a)
    ]
  ]

  holder-live :
      (w : World) (pid : ℤ)
      → read_pid w ≡ some pid
      → alive (kill pid) ≡ true
      → holder kill w ≡ (some pid, w)
  unfolding holder
  holder-live w pid e a = rw (e, holder, a)

  verdict_world :
      (env : Env) (w : World) {r : Option ℤ × World}
      → Look w r
      → ((verdict env r).1 ≡ w)
        ⊎ ((pid : ℤ) × (read_pid w ≡ some pid)
            × (kill pid ≢ delivered)
            × (verdict env r ≡ (false, none)))
  verdict_world env w (unreadable e) = inl refl
  verdict_world env w (live pid e a) = inl refl
  verdict_world env w (dead pid e a) = inr (pid, e, (alive_no (kill pid)).0 a, refl)

  -- The file holds the number of a process that takes the reader's signal 0, and that is not the owner
  -- which the reader inherited.
  abbrev pub Refuses : Env → World → Type 0
  Refuses env w =
      (pid : ℤ) × (read_pid w ≡ some pid) × (kill pid ≡ delivered) × (env ≢ some (str_int pid))

  verdict_iff :
      (env : Env) (w : World) {r : Option ℤ × World}
      → Look w r
      → ((verdict env r).0 ≡ true) ↔ Refuses env w
  verdict_iff env w (unreadable e) = (λ h. cc, λ x. cc (e, x.1))
  verdict_iff env w (live pid e a) = (
    λ h. (pid, e, alive_yes (kill pid) a, λ same. ground (arith, (same_owner_iff env pid).1 same)),
    λ x. elim (Bool-cases (same_owner env pid)) [
      | inl own ↦ absurd (x.3 ((same_owner_iff env pid).0 own ∙ same_print e x.1))
      | inr other ↦ rw other
    ],
  )
  verdict_iff env w (dead pid e a) =
      (λ h. cc, λ x. absurd ((alive_no (kill pid)).0 a (ap kill (same_pid e x.1) ∙ x.2)))

  -- A reader is refused exactly if the file holds the number of a process that takes its signal 0 and
  -- is not the owner that the reader inherited. Its look changes the file only by removing it, and
  -- only if the file holds the number of a process to which the signal is not delivered; such a
  -- reader is let in. A process of another user, which lives and may not be signalled, is one of those.
  pub refuse_if_held_lem :
      (env : Env) (w : World)
      → (((refuse_if_held kill env w).0 ≡ true) ↔ Refuses env w)
        × (((refuse_if_held kill env w).1 ≡ w)
            ⊎ ((pid : ℤ) × (read_pid w ≡ some pid)
                × (kill pid ≢ delivered)
                × (refuse_if_held kill env w ≡ (false, none))))
  unfolding refuse_if_held
  refuse_if_held_lem env w =
      (verdict_iff env w (holder-Look w), verdict_world env w (holder-Look w))

  -- On the file that `hold` writes for a process that takes the reader's signal, a reader with the variable that `hold` sets is
  -- let in and one with any other value of the variable is refused; both leave the file.
  pub refuse_if_held-enter :
      (pid : ℕ) (w : World) (env : Env)
      → alive (kill (pos pid)) ≡ true
      → env ≢ (enter pid w).1
      → (refuse_if_held kill (enter pid w).1 (enter pid w).0 ≡ (false, (enter pid w).0))
        × (refuse_if_held kill env (enter pid w).0 ≡ (true, (enter pid w).0))
  unfolding refuse_if_held
  refuse_if_held-enter pid w env alive_now other =
      let found = holder-live (enter pid w).0 (pos pid) (read_pid-enter pid w) alive_now in
      (
        ap (verdict (enter pid w).1) found
            ∙ verdict_own (enter pid w).1 (pos pid) _ (own_env pid w),
        ap (verdict env) found
            ∙ verdict_other env (pos pid) _ (λ same. other (same ∙ sym (own_env pid w))),
      )

  -- Whatever file was there and whatever the command does to it, `hold` gives the command's code and
  -- leaves no file.
  pub main-hold :
      (run : List Text → Env → World → ℕ × World) (pid : ℕ) (command : List Text) (env : Env)
      (w : World)
      → command ≢ []
      → main kill run pid (codes "hold" ∷ codes "--" ∷ command) env w
        ≡ ((run command (some (str_nat pid)) (some (str_nat pid))).0, silent, none)
  unfolding main codes ◌=text◌
  main-hold run pid [] env w ne = absurd (ne refl)
  main-hold run pid (c ∷ rest) env w ne = refl

  -- Two processes that hold the lock at once: the exit of the first removes the file of the second,
  -- so that the next reader is let in although the second takes its signal and is the holder.
  pub leave_steals :
      (p q : ℕ) (w : World) (env : Env)
      → alive (kill (pos q)) ≡ true
      → ((holder kill (enter q (enter p w).0).0).0 ≡ some (pos q))
        × (refuse_if_held kill env (leave (enter q (enter p w).0).0) ≡ (false, none))
  leave_steals p q w env alive_now = (
    ap (λ (r : Option ℤ × World). r.0)
        (holder-live (enter q (enter p w).0).0 (pos q) (read_pid-enter q (enter p w).0) alive_now),
    unfold refuse_if_held holder leave read_pid in refl,
  )
