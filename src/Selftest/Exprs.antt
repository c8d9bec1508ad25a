-- ===== src/Selftest/Exprs.antt =====
-- scripts/check-control-anchors.py: `ev` and `build`, on the expressions of a module. An expression
-- of another form is `other`, and so is a constant that is no text.
use cryptocourt.Base.{Option, none, some, List, [], ◌∷◌, ◌++◌, if◌then◌else◌}
use cryptocourt.Base.Text.{Text, ◌=text◌, replace}
use cryptocourt.Selftest.Repo.{path_join}

-- `joined` is an f-string: its parts are texts and formatted values. `join_call` is a call of a
-- method `join` with one argument at least, and `replace_call` of `replace` with two.
mutual
  pub data Expr : Type 0 where
    literal : Text → Expr
    name : Text → Expr
    joined : Exprs → Expr
    add : Expr → Expr → Expr
    join_call : Expr → Exprs → Expr
    replace_call : Expr → Expr → Expr → Expr
    other : Expr

  pub data Exprs : Type 0 where
    nil : Exprs
    cons : Expr → Exprs → Exprs

-- The module's text constants.
abbrev pub Consts : Type 0
Consts = List (Text × Text)

unfoldable pub find_const : Text → Consts → Option Text
unfolding ◌=text◌
find_const n [] = none
find_const n ((m, v) ∷ rest) = let later = find_const n rest in if n =text m then some v else later

abbrev both : {A B C : Type 0} → (A → B → C) → Option A → Option B → Option C
both f none b = none
both f (some a) none = none
both f (some a) (some b) = some (f a b)

unfoldable mutual
  unfolding find_const replace path_join

  pub ev : Consts → Expr → Option Text
  ev consts (literal t) = some t
  ev consts (name n) = find_const n consts
  ev consts (joined parts) = ev_concat consts parts
  ev consts (add l r) = both (λ a b. a ++ b) (ev consts l) (ev consts r)
  ev consts (join_call a more) = ev_join consts (ev consts a) more
  ev consts (replace_call base old new) =
      both (λ b (f : Text → Text). f b) (ev consts base)
        (both (λ o n b. replace o n b) (ev consts old) (ev consts new))
  ev consts other = none

  pub ev_concat : Consts → Exprs → Option Text
  ev_concat consts nil = some []
  ev_concat consts (cons e es) = both (λ a b. a ++ b) (ev consts e) (ev_concat consts es)

  pub ev_join : Consts → Option Text → Exprs → Option Text
  ev_join consts start nil = start
  ev_join consts start (cons e es) = ev_join consts (both path_join start (ev consts e)) es

unfoldable pub put_const : Text → Text → Consts → Consts
unfolding ◌=text◌
put_const n v [] = (n, v) ∷ []
put_const n v ((m, w) ∷ rest) =
    let put = put_const n v rest in if m =text n then (m, v) ∷ rest else (m, w) ∷ put

-- One pass over the module's assignments of one name.
unfoldable pub assign : List (Text × Expr) → Consts → Consts
unfolding ev put_const
assign [] consts = consts
assign ((n, e) ∷ rest) consts = assign rest (assigned (ev consts e))
  where
    assigned : Option Text → Consts
    assigned none = consts
    assigned (some v) = put_const n v consts

-- Two passes, for names that are used above their assignment.
unfoldable pub build : List (Text × Expr) → Consts → Consts
unfolding assign
build body consts = assign body (assign body consts)
