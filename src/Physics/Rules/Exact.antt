-- ===== src/Physics/Rules/Exact.antt =====
-- scripts/check-demo-physics.py: what the burn check promises.
use cryptocourt.Base.{
  ℕ, ◌*◌, ◌≤◌, ◌≡◌, ◌≢◌, ap, sym, ◌∙◌, false, some, List, [], ◌∷◌, ◌++◌, All, append-eq-nil, arith,
  inl, inr, ◌==◌,
}
use cryptocourt.Base.Tests.{Bool-cases, ==_iff}
use cryptocourt.Base.Text.{Text, codes, ◌=text◌}
use cryptocourt.Base.Text.Laws.{=text_ne}
use cryptocourt.Base.Exec.{ok, bind_result}
use cryptocourt.Scenario.Command.Appended.{ok-bind, ok_injective}
use cryptocourt.Physics.Scan.{num}
use cryptocourt.Physics.Entries.{courts}
use cryptocourt.Physics.Rules.{
  ceil_div, minted_square, curve_cost, burn_rule, burn_flaws, all_burns, check_burn,
}

ceil_div-bound : (n : ℕ) → n ≤ ceil_div n 2000000000 * 2000000000
unfolding ceil_div
ceil_div-bound n = ground arith

ceil_div-least : (n b : ℕ) → n ≤ b * 2000000000 → ceil_div n 2000000000 ≤ b
unfolding ceil_div
ceil_div-least n b h = ground arith

-- The least burn whose double, in units of 1e9, is at least the square of what was minted.
abbrev pub IsCost : ℕ → ℕ → Type 0
IsCost burned square =
    (square ≤ burned * 2000000000) × ((other : ℕ) → square ≤ other * 2000000000 → burned ≤ other)

burn_rule-nil :
    (slug : Text) (burned supply emitted : ℕ)
    → burn_rule slug (some burned) (some supply) (some emitted) ≡ []
    → burned ≡ curve_cost supply emitted
unfolding burn_rule
burn_rule-nil slug burned supply emitted h =
    elim (Bool-cases (burned == curve_cost supply emitted)) [
      | inl e ↦ (==_iff burned (curve_cost supply emitted)).0 e
      | inr e ↦ cc (rw (burn_rule, e) at h)
    ]

curve_cost-IsCost :
    (burned supply emitted : ℕ)
    → burned ≡ curve_cost supply emitted
    → IsCost burned (minted_square supply emitted)
unfolding curve_cost
curve_cost-IsCost burned supply emitted h =
    rw h
      (ceil_div-bound (minted_square supply emitted), ceil_div-least (minted_square supply emitted))

-- What a court's entry has to state, unless it is the meta court's.
abbrev pub StatesCost : Text × Text → Type 0
StatesCost c =
    (burned supply emitted : ℕ)
    → c.0 ≢ codes "meta"
    → num c.1 (codes "burned") ≡ ok (some burned)
    → num c.1 (codes "supply") ≡ ok (some supply)
    → num c.1 (codes "emitted") ≡ ok (some emitted)
    → IsCost burned (minted_square supply emitted)

burn_flaws-eq :
    (slug body : Text) (burned supply emitted : ℕ)
    → (slug =text codes "meta") ≡ false
    → num body (codes "burned") ≡ ok (some burned)
    → num body (codes "supply") ≡ ok (some supply)
    → num body (codes "emitted") ≡ ok (some emitted)
    → burn_flaws slug body ≡ ok (burn_rule slug (some burned) (some supply) (some emitted))
unfolding burn_flaws
burn_flaws-eq slug body burned supply emitted e b s m = rw (burn_flaws, e, b, s, m)

burn_flaws-StatesCost : (slug body : Text) → burn_flaws slug body ≡ ok [] → StatesCost (slug, body)
burn_flaws-StatesCost slug body h burned supply emitted ne b s m =
    let flaws =
      burn_flaws-eq slug body burned supply emitted (=text_ne slug (codes "meta") ne) b s m in
    curve_cost-IsCost burned supply emitted
      (burn_rule-nil slug burned supply emitted (sym (ok_injective _ _ (sym flaws ∙ h))))

all_burns-StatesCost : (cs : List (Text × Text)) → all_burns cs ≡ ok [] → All StatesCost cs
unfolding all_burns
all_burns-StatesCost [] h = tt
all_burns-StatesCost ((slug, body) ∷ cs) h =
    let (here, e, h1) =
      ok-bind (burn_flaws slug body) (λ fs. bind_result (all_burns cs) λ gs. ok (fs ++ gs)) [] h in
    let (rest, f, h2) = ok-bind (all_burns cs) (λ gs. ok (here ++ gs)) [] h1 in
    let (a, b) = append-eq-nil here rest (sym (ok_injective _ _ h2)) in
    (
      burn_flaws-StatesCost slug body (e ∙ ap (λ fs. ok fs) a),
      all_burns-StatesCost cs (f ∙ ap (λ fs. ok fs) b),
    )

-- Where the burn check finds nothing, each court that `courts` reads, but the meta court, burned
-- exactly the curve's cost of what it minted: the least amount that covers it. This is said of the
-- entries that state all three values.
pub check_burn-StatesCost :
    (region : Text) (cs : List (Text × Text))
    → courts region ≡ ok cs
    → check_burn region ≡ ok []
    → All StatesCost cs
unfolding check_burn
check_burn-StatesCost region cs e h = all_burns-StatesCost cs (rw (check_burn, e) at h)
