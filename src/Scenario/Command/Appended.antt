-- ===== src/Scenario/Command/Appended.antt =====
-- scripts/scenario.py: words behind the others do not change what a flag is given.
use cryptocourt.Base.{
  ◌≡◌, refl, ap, sym, ◌∙◌, Bool, Option, none, some, List, [], ◌∷◌, ◌++◌, arith, inl, inr,
}
use cryptocourt.Base.Tests.{Option-cases, Bool-cases}
use cryptocourt.Base.Text.{Text, codes, ◌=text◌, text_in}
use cryptocourt.Base.Text.Laws.{=text_refl}
use cryptocourt.Base.Exec.{Result, ok, err, bind_result}
use cryptocourt.Scenario.Step.{Scenario}
use cryptocourt.Scenario.Bech32.{Bytes}
use cryptocourt.Scenario.Command.{
  allowed_kind, emit_with, text_for, kind_of, emit_mapped, emit_kind,
}
use cryptocourt.Scenario.Command.Flags.{behind, flag}

pub ok-bind :
    {E A B : Type 0} (r : Result E A) (f : A → Result E B) (b : B)
    → bind_result r f ≡ ok b
    → (a : A) × (r ≡ ok a) × (f a ≡ ok b)
ok-bind (ok a) f b h = (a, refl, h)
ok-bind (err e) f b h = cc h

pub behind-append :
    (name : Text) (argv more : List Text) (v : Text)
    → behind name argv ≡ some (some v)
    → behind name (argv ++ more) ≡ some (some v)
unfolding behind
behind-append name [] more v h = cc h
behind-append name (w ∷ []) more v h = elim (Bool-cases (w =text name)) [
  | inl e ↦ cc (rw e at h)
  | inr e ↦ cc (rw e at h)
]
behind-append name (w ∷ x ∷ ws) more v h = ground (arith, behind-append name (x ∷ ws) more v)

pub behind-none :
    (name : Text) (argv more : List Text)
    → behind name argv ≡ none
    → behind name more ≡ none
    → behind name (argv ++ more) ≡ none
unfolding behind
behind-none name [] more h m = m
behind-none name (w ∷ ws) more h m = ground (arith, behind-none name ws more)

pub behind-found :
    (name : Text) (argv : List Text) (path : Text)
    → behind name argv ≡ none
    → behind name (argv ++ name ∷ path ∷ []) ≡ some (some path)
unfolding behind
behind-found name [] path h = rw (=text_refl name)
behind-found name (w ∷ ws) path h = ground (arith, behind-found name ws path)

pub flag-append :
    (name : Text) (default : Option Text) (argv more : List Text) (v : Option Text)
    → behind name more ≡ none
    → flag name default argv ≡ ok v
    → flag name default (argv ++ more) ≡ ok v
unfolding flag
flag-append name default argv more v m h = elim (Option-cases (behind name argv)) [
  | inl e ↦ rw (flag, behind-none name argv more e m) (rw (flag, e) at h)
  | inr (none, e) ↦ cc (rw (flag, e) at h)
  | inr (some w, e) ↦ rw (flag, behind-append name argv more w e) (rw (flag, e) at h)
]

bind-step :
    {E A B : Type 0} (r r' : Result E A) (f : A → Result E B) (b : B)
    → ((a : A) → r ≡ ok a → r' ≡ ok a)
    → bind_result r f ≡ ok b
    → bind_result r' f ≡ ok b
bind-step r r' f b keeps h =
    let (a, e, g) = ok-bind r f b h in ap (λ q. bind_result q f) (keeps a e) ∙ g

kind_of-append :
    (path : Text) (is_ci : Bool) (argv more : List Text) (kind : Text)
    → behind (codes "--emit") more ≡ none
    → kind_of path is_ci argv ≡ ok kind
    → kind_of path is_ci (argv ++ more) ≡ ok kind
unfolding kind_of
kind_of-append path is_ci argv more kind m h =
    bind-step (flag (codes "--emit") (some (codes "txtar")) argv) _ (allowed_kind path is_ci) kind
      (λ a. flag-append (codes "--emit") (some (codes "txtar")) argv more a m) h

emit_mapped-append :
    (b64 : Bytes → Text) (read_file : Text → Option Text) (kind : Text) (scn : Scenario)
    (argv more : List Text) (text : Text)
    → behind (codes "--accounts-map") more ≡ none
    → emit_mapped b64 read_file kind scn argv ≡ ok text
    → emit_mapped b64 read_file kind scn (argv ++ more) ≡ ok text
unfolding emit_mapped
emit_mapped-append b64 read_file kind scn argv more text m h =
    bind-step (flag (codes "--accounts-map") none argv) _ (emit_with b64 read_file kind scn) text
      (λ a. flag-append (codes "--accounts-map") none argv more a m) h

emit_kind-append :
    (b64 : Bytes → Text) (read_file : Text → Option Text) (kind : Text) (scn : Scenario)
    (argv more : List Text) (text : Text)
    → behind (codes "--accounts-map") more ≡ none
    → emit_kind b64 read_file kind scn argv ≡ ok text
    → emit_kind b64 read_file kind scn (argv ++ more) ≡ ok text
unfolding emit_kind
emit_kind-append b64 read_file kind scn argv more text m h =
    elim (Bool-cases (text_in kind (codes "txs" ∷ codes "checks" ∷ []))) [
      | inl e ↦
          rw (emit_kind, e)
            (emit_mapped-append b64 read_file kind scn argv more text m (rw (emit_kind, e) at h))
      | inr e ↦ rw (emit_kind, e) (rw (emit_kind, e) at h)
    ]

pub flag-found :
    (name : Text) (argv : List Text) (path : Text)
    → behind name argv ≡ none
    → flag name none (argv ++ name ∷ path ∷ []) ≡ ok (some path)
unfolding flag
flag-found name argv path h = rw (flag, behind-found name argv path h)

ok_or : {E A : Type 0} → A → Result E A → A
ok_or a (ok b) = b
ok_or a (err e) = a

pub ok_injective : {E A : Type 0} (a b : A) → ◌≡◌ {A = Result E A} (ok a) (ok b) → b ≡ a
unfolding ok_or
ok_injective a b h = sym (ap (λ r. ok_or a r) h)

pub text_for-append :
    (b64 : Bytes → Text) (read_file : Text → Option Text) (path : Text) (found : Scenario × Bool)
    (argv more : List Text) (text : Text)
    → behind (codes "--emit") more ≡ none
    → behind (codes "--accounts-map") more ≡ none
    → text_for b64 read_file path found argv ≡ ok text
    → text_for b64 read_file path found (argv ++ more) ≡ ok text
unfolding text_for
text_for-append b64 read_file path found argv more text me ma h =
    let (kind, e, h) =
      ok-bind (kind_of path found.1 argv) (λ k. emit_kind b64 read_file k found.0 argv) text h in
    ap (λ r. bind_result r λ k. emit_kind b64 read_file k found.0 (argv ++ more))
      (kind_of-append path found.1 argv more kind me e)
    ∙ emit_kind-append b64 read_file kind found.0 argv more text ma h
