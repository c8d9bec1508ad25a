-- ===== src/Mutate/Sorted.antt =====
-- `sorted(set(texts))` of the scripts keeps the members of a list.
use cryptocourt.Base.{◌≡◌, refl, ap, sym, ◌∙◌, true, ◌||◌, List, [], ◌∷◌, arith}
use cryptocourt.Base.Text.{Text, ◌=text◌, text_in}
use cryptocourt.Base.Text.Laws.{=text_sound}
use cryptocourt.Base.Closure.Laws.{text_in-cons}
use cryptocourt.Mutate.Output.{sorted_set, insert_text}

=text_same : (t u v : Text) → (u =text v) ≡ true → (t =text u) ≡ (t =text v)
=text_same t u v h = ap (λ w. t =text w) (=text_sound u v h)

text_in-insert_text :
    (t u : Text) (us : List Text) → text_in t (insert_text u us) ≡ ((t =text u) || text_in t us)
unfolding insert_text
text_in-insert_text t u [] = text_in-cons t u []
text_in-insert_text t u (v ∷ us) = ground (
  arith,
  text_in-insert_text t u us,
  text_in-cons t u (v ∷ us),
  text_in-cons t v us,
  text_in-cons t v (insert_text u us),
  =text_same t u v,
)

pub text_in-sorted_set : (t : Text) (us : List Text) → text_in t (sorted_set us) ≡ text_in t us
unfolding sorted_set
text_in-sorted_set t [] = refl
text_in-sorted_set t (u ∷ us) =
    text_in-insert_text t u (sorted_set us)
    ∙ ap (λ b. (t =text u) || b) (text_in-sorted_set t us)
    ∙ sym (text_in-cons t u us)
