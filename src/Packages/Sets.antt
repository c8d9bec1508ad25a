-- ===== src/Packages/Sets.antt =====
-- Lists of module paths as sets, and paths below a directory.
use cryptocourt.Base.{
  ◌≡◌, ◌≢◌, inl, inr, refl, ap, ◌∙◌, Bool, true, false, ◌||◌, List, [], ◌∷◌, All, Bool-cases,
}
use cryptocourt.Base.Text.{Text, ◌=text◌, text_in}
use cryptocourt.Base.Text.Laws.{=text_refl, =text_sound}
use cryptocourt.Base.Closure.Laws.{text_in-cons}

pub ||-true : (b : Bool) → (b || true) ≡ true
||-true true = refl
||-true false = refl

pub ne_of : {u m : Text} → (u =text m) ≡ false → u ≢ m
ne_of {u} {m} h e = cc (h, e, =text_refl m)

pub in_rest :
    (u m : Text) (ms : List Text)
    → (u =text m) ≡ false
    → text_in u (m ∷ ms) ≡ true
    → text_in u ms ≡ true
in_rest u m ms h hu = cc (h, hu, text_in-cons u m ms)

pub text_in_nil : (u : Text) → text_in u [] ≢ true
unfolding text_in
text_in_nil u e = cc e

pub All-at :
    (u : Text) (xs ms : List Text)
    → text_in u xs ≡ true
    → All (λ (m : Text). text_in m ms ≡ true) xs
    → text_in u ms ≡ true
All-at u [] ms h k = absurd (text_in_nil u h)
All-at u (x ∷ xs) ms h (k, ks) = elim (Bool-cases (u =text x)) [
  | inl e ↦ rw (=text_sound u x e) k
  | inr e ↦ All-at u xs ms (in_rest u x xs e h) ks
]

pub under_ne : {b : Bool} → b ≡ false → b ≢ true
under_ne e f = cc (e, f)

pub All-in :
    (xs ms : List Text)
    → ((u : Text) → text_in u xs ≡ true → text_in u ms ≡ true)
    → All (λ (m : Text). text_in m ms ≡ true) xs
All-in [] ms h = tt
All-in (x ∷ xs) ms h = (
  h x (text_in-cons x x xs ∙ ap (λ b. b || text_in x xs) (=text_refl x)),
  All-in xs ms
      (λ u hu. h u (text_in-cons u x xs ∙ ap (λ b. (u =text x) || b) hu ∙ ||-true (u =text x))),
)
