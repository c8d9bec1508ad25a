-- ===== src/Base/Closure/Laws.antt =====
-- The worklist ends, and what it has marked then is what the starts reach.
use mathlib.Core.Path.{◌≡◌, refl, ap, sym, ◌∙◌}
use mathlib.Core.Logic.{◌↔◌, ◌≢◌, inl, inr}
use mathlib.Core.Bool.{Bool, true, false, ◌||◌}
use mathlib.Core.Option.{none, some, some_inj}
use mathlib.Core.List.{List, [], ◌∷◌, ◌++◌, reverse, reverse-append}
use Prim.Native.Nat.{ℕ, zero, suc, ◌+◌, ◌≤◌, ◌<◌}
use native.Mathlib.Omega.{arith}
use cryptocourt.Base.Tests.{Bool-cases}
use cryptocourt.Base.Lists.{length, length-append}
use cryptocourt.Base.Text.{Text, ◌=text◌, text_in}
use cryptocourt.Base.Text.Laws.{=text_sound, =text_refl}
use cryptocourt.Base.Closure.{Marks, successors, Reach, start, step, walk, pending}

pub text_in-append :
    (t : Text) (xs ys : List Text) → text_in t (xs ++ ys) ≡ (text_in t xs || text_in t ys)
unfolding text_in
text_in-append t [] ys = refl
text_in-append t (x ∷ xs) ys = ground (arith, text_in-append t xs ys)

pub text_in-reverse : (t : Text) (xs : List Text) → text_in t (reverse xs) ≡ text_in t xs
unfolding text_in
text_in-reverse t [] = refl
text_in-reverse t (x ∷ xs) =
    ap (text_in t) (reverse-append (x ∷ []) xs)
    ∙ ground (arith, text_in-append t (reverse xs) (x ∷ []), text_in-reverse t xs)

length-reverse : {A : Type 0} (xs : List A) → length (reverse xs) ≡ length xs
length-reverse [] = refl
length-reverse {A} (x ∷ xs) = omega (
  arith,
  ap (λ (l : List A). length l) (reverse-append (x ∷ []) xs),
  length-append (reverse xs) (x ∷ []),
  length-reverse xs,
)

=text_sym : (s t : Text) → (s =text t) ≡ (t =text s)
=text_sym s t = elim (Bool-cases (s =text t)) [
  | inl e ↦ cc (=text_sound s t e, =text_refl t)
  | inr e ↦ elim (Bool-cases (t =text s)) [
    | inl f ↦ cc (=text_sound t s f, =text_refl s)
    | inr f ↦ cc
  ]
]

pub text_in-nil : (t : Text) → text_in t [] ≡ false
unfolding text_in
text_in-nil t = refl

pub text_in-cons :
    (t x : Text) (xs : List Text) → text_in t (x ∷ xs) ≡ ((t =text x) || text_in t xs)
unfolding text_in
text_in-cons t x xs = refl

true_ne_false : ◌≢◌ {A = Bool} true false
true_ne_false e = cc e

none_ne_some : {A : Type 0} {a : A} → none ≢ some a
none_ne_some e = cc e

module _ {S : Type 0} (m : Marks S) where
  marked_same :
      (s : S) (t u : Text) → m.is_marked s t ≡ true → (u =text t) ≡ true → m.is_marked s u ≡ true
  marked_same s t u h e = rw (=text_sound u t e) h

  pending-le :
      (table : List (Text × List Text)) (s : S) (t : Text)
      → pending m table (m.mark t s) ≤ pending m table s
  pending-le [] s t = omega arith
  pending-le ((k, ts) ∷ rest) s t = ground (arith, pending-le rest s t, m.is_marked-mark s t k)

  -- Marking a name takes its successors out of what is still to come.
  pending-mark :
      (table : List (Text × List Text)) (s : S) (t : Text)
      → m.is_marked s t ≡ false
      → pending m table (m.mark t s) + length (successors table t) ≤ pending m table s
  unfolding successors
  pending-mark [] s t h = omega arith
  pending-mark ((k, ts) ∷ rest) s t h = ground (
    arith,
    pending-mark rest s t h,
    pending-le rest s t,
    m.is_marked-mark s t k,
    =text_sym k t,
    marked_same s k t,
  )

  -- As many rounds as there are names on the stack and in unmarked entries are enough.
  pub walk_total :
      (table : List (Text × List Text)) (fuel : ℕ) (s : S) (stack : List Text)
      → length stack + pending m table s < fuel
      → (s' : S) × (walk m table fuel s stack ≡ some s')
  unfolding walk
  walk_total table zero s stack h = absurd (omega arith)
  walk_total table (suc fuel) s [] h = (s, refl)
  walk_total table (suc fuel) s (t ∷ stack) h = elim (Bool-cases (m.is_marked s t)) [
    | inl e ↦ let r = walk_total table fuel s stack (omega arith) in (r.0, rw (e, walk) r.1)
    | inr e ↦
        let fewer : length (reverse (successors table t) ++ stack) + pending m table (m.mark t s)
            < fuel =
          omega (
            arith,
            length-append (reverse (successors table t)) stack,
            length-reverse (successors table t),
            pending-mark table s t e,
          ) in
        let r = walk_total table fuel (m.mark t s) (reverse (successors table t) ++ stack) fewer in
        (r.0, rw (e, walk) r.1)
  ]

  -- What is marked stays marked, and what is on the stack is marked in the end.
  walk-keeps :
      (table : List (Text × List Text)) (fuel : ℕ) (s s' : S) (stack : List Text) (u : Text)
      → walk m table fuel s stack ≡ some s'
      → (m.is_marked s u || text_in u stack) ≡ true
      → m.is_marked s' u ≡ true
  unfolding walk
  walk-keeps table zero s s' stack u h hu = cc
  walk-keeps table (suc fuel) s s' [] u h hu =
      rw (← some_inj.0 h) (ground (arith, hu, text_in-nil u))
  walk-keeps table (suc fuel) s s' (t ∷ stack) u h hu = elim (Bool-cases (m.is_marked s t)) [
    | inl e ↦
        walk-keeps table fuel s s' stack u (rw (e, walk) at h)
          (ground (arith, text_in-cons u t stack, marked_same s t u e))
    | inr e ↦
        walk-keeps table fuel (m.mark t s) s' (reverse (successors table t) ++ stack) u
          (rw (e, walk) at h)
          (ground (
            arith,
            text_in-cons u t stack,
            m.is_marked-mark s t u,
            text_in-append u (reverse (successors table t)) stack,
          ))
  ]

  -- Every successor of a marked name is marked, or still on the stack.
  abbrev pub Frontier : List (Text × List Text) → S → List Text → Type 0
  Frontier table s stack =
      (u v : Text)
      → m.is_marked s u ≡ true
      → text_in v (successors table u) ≡ true
      → (m.is_marked s v || text_in v stack) ≡ true

  Frontier-skip :
      (table : List (Text × List Text)) (s : S) (t : Text) (stack : List Text)
      → m.is_marked s t ≡ true
      → Frontier table s (t ∷ stack)
      → Frontier table s stack
  Frontier-skip table s t stack e inv u v hu hv =
      ground (arith, inv u v hu hv, text_in-cons v t stack, marked_same s t v e)

  Frontier-mark :
      (table : List (Text × List Text)) (s : S) (t : Text) (stack : List Text)
      → Frontier table s (t ∷ stack)
      → Frontier table (m.mark t s) (reverse (successors table t) ++ stack)
  Frontier-mark table s t stack inv u v hu hv = elim (Bool-cases (u =text t)) [
    | inl e ↦
        let here : text_in v (successors table t) ≡ true = rw (← =text_sound u t e) hv in
        ground (
          arith,
          here,
          text_in-append v (reverse (successors table t)) stack,
          text_in-reverse v (successors table t),
        )
    | inr e ↦ ground (
      arith,
      inv u v,
      m.is_marked-mark s t u,
      m.is_marked-mark s t v,
      text_in-cons v t stack,
      text_in-append v (reverse (successors table t)) stack,
    )
  ]

  walk-Frontier :
      (table : List (Text × List Text)) (fuel : ℕ) (s s' : S) (stack : List Text)
      → walk m table fuel s stack ≡ some s'
      → Frontier table s stack
      → Frontier table s' []
  unfolding walk
  walk-Frontier table zero s s' stack h inv = λ u v hu hv. cc h
  walk-Frontier table (suc fuel) s s' [] h inv = rw (← some_inj.0 h) inv
  walk-Frontier table (suc fuel) s s' (t ∷ stack) h inv = elim (Bool-cases (m.is_marked s t)) [
    | inl e ↦
        walk-Frontier table fuel s s' stack (rw (e, walk) at h)
          (Frontier-skip table s t stack e inv)
    | inr e ↦
        walk-Frontier table fuel (m.mark t s) s' (reverse (successors table t) ++ stack)
          (rw (e, walk) at h) (Frontier-mark table s t stack inv)
  ]

  module _ (table : List (Text × List Text)) (starts : List Text) where
    abbrev Sound : S → List Text → Type 0
    Sound s stack = (u : Text) → (m.is_marked s u || text_in u stack) ≡ true → Reach table starts u

    Sound-mark :
        (s : S) (t : Text) (stack : List Text)
        → Sound s (t ∷ stack)
        → Sound (m.mark t s) (reverse (successors table t) ++ stack)
    Sound-mark s t stack sound u hu = elim (Bool-cases (text_in u (successors table t))) [
      | inl e ↦ step (sound t (ground (arith, text_in-cons t t stack, =text_refl t))) e
      | inr e ↦ sound u (
          ground (
            arith,
            e,
            hu,
            text_in-cons u t stack,
            m.is_marked-mark s t u,
            text_in-append u (reverse (successors table t)) stack,
            text_in-reverse u (successors table t),
          ))
    ]

    walk-Sound :
        (fuel : ℕ) (s s' : S) (stack : List Text)
        → walk m table fuel s stack ≡ some s'
        → Sound s stack
        → Sound s' []
    unfolding walk
    walk-Sound zero s s' stack h sound = λ u hu. absurd (none_ne_some h)
    walk-Sound (suc fuel) s s' [] h sound = rw (← some_inj.0 h) sound
    walk-Sound (suc fuel) s s' (t ∷ stack) h sound = elim (Bool-cases (m.is_marked s t)) [
      | inl e ↦
          walk-Sound fuel s s' stack (rw (e, walk) at h)
            (λ u hu. sound u (ground (arith, hu, text_in-cons u t stack)))
      | inr e ↦
          walk-Sound fuel (m.mark t s) s' (reverse (successors table t) ++ stack)
            (rw (e, walk) at h) (Sound-mark s t stack sound)
    ]

    reached :
        (fuel : ℕ) (s s' : S) (t : Text)
        → walk m table fuel s starts ≡ some s'
        → ((u : Text) → m.is_marked s u ≡ false)
        → Reach table starts t
        → m.is_marked s' t ≡ true
    reached fuel s s' t h clear (start e) =
        walk-keeps table fuel s s' starts t h (ground (arith, e))
    reached fuel s s' t h clear (step {s = u} r e) =
        let closed =
          walk-Frontier table fuel s s' starts h
            (λ u' v hu hv. absurd (true_ne_false (sym hu ∙ clear u'))) in
        ground (arith, closed u t (reached fuel s s' u h clear r) e, text_in-nil t)

    -- From sets that mark nothing, the walk marks exactly what the starts reach.
    pub is_marked-walk :
        (fuel : ℕ) (s s' : S) (t : Text)
        → walk m table fuel s starts ≡ some s'
        → ((u : Text) → m.is_marked s u ≡ false)
        → (m.is_marked s' t ≡ true) ↔ Reach table starts t
    is_marked-walk fuel s s' t h clear = (
      λ e.
          walk-Sound fuel s s' starts h (λ u hu. start (ground (arith, clear u, hu))) t
            (ground (arith, e)),
      λ r. reached fuel s s' t h clear r,
    )
