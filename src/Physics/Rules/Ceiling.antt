-- ===== src/Physics/Rules/Ceiling.antt =====
-- scripts/check-demo-physics.py: what the check of the conviction values promises.
use native.Mathlib.Nat.{le-div_iff_mul-le}
use cryptocourt.Base.{
  ℕ, zero, suc, ◌-◌, ◌*◌, ◌/◌, ◌≤◌, ◌<◌, ◌≡◌, ◌≢◌, ap, sym, ◌∙◌, true, false, some, List, [], ◌∷◌,
  ◌++◌, All, append-eq-nil, arith, inl, inr, ◌==◌, ltb, leb,
}
use cryptocourt.Base.Tests.{Bool-cases, ==_false}
use cryptocourt.Base.Text.{Text, codes}
use cryptocourt.Base.Exec.{ok, bind_result}
use cryptocourt.Scenario.Command.Appended.{ok-bind, ok_injective}
use cryptocourt.Physics.Scan.{num, timeline_heights, height_at}
use cryptocourt.Physics.Entries.{claims}
use cryptocourt.Physics.Rules.{
  Realm, ceil_rate, rate_base, most_conviction, over, side_rule, side_flaws, end_of,
  conviction_flaws, all_convictions, check_convictions,
}

-- The conviction is at most what the stake yields at the ceiling rate for its life.
abbrev pub IsWithin : Realm → (life stake conv : ℕ) → Type 0
IsWithin realm life stake conv = conv * rate_base realm ≤ stake * ceil_rate realm * life

within :
    (realm : Realm) (life stake conv : ℕ)
    → 0 < rate_base realm
    → ltb (most_conviction realm stake life) conv ≡ false
    → IsWithin realm life stake conv
unfolding most_conviction
within realm life stake conv positive h =
    let least : conv ≤ stake * ceil_rate realm * life / rate_base realm = ground (arith, h) in
    (le-div_iff_mul-le positive).0 least

over-ne-nil : (key field : Text) (conv most : ℕ) → over key field conv most ≢ ok []
unfolding over
over-ne-nil key field conv zero h = cc h
over-ne-nil key field conv (suc most) h = cc h

side_rule-nil :
    (realm : Realm) (key field : Text) (life stake conv : ℕ)
    → stake ≢ 0
    → side_rule realm key field life (some stake) (some conv) ≡ ok []
    → IsWithin realm life stake conv
unfolding side_rule
side_rule-nil realm key field life stake conv ne h = elim (Bool-cases (rate_base realm == 0)) [
  | inl z ↦ cc (rw (side_rule, ==_false stake 0 ne, z) at h)
  | inr z ↦ elim (Bool-cases (ltb (most_conviction realm stake life) conv)) [
    | inl e ↦ absurd (over-ne-nil key field conv _ (rw (side_rule, ==_false stake 0 ne, z, e) at h))
    | inr e ↦ within realm life stake conv (ground (arith, z)) e
  ]
]

-- What one side of a claim has to state.
abbrev pub SideIsWithin : Realm → (body stake_field conv_field : Text) → ℕ → Type 0
SideIsWithin realm body stake_field conv_field life =
    (stake conv : ℕ)
    → stake ≢ 0
    → num body stake_field ≡ ok (some stake)
    → num body conv_field ≡ ok (some conv)
    → IsWithin realm life stake conv

side_flaws-eq :
    (realm : Realm) (key body sf cf : Text) (life stake conv : ℕ)
    → num body sf ≡ ok (some stake)
    → num body cf ≡ ok (some conv)
    → side_flaws realm key body sf cf life ≡ side_rule realm key cf life (some stake) (some conv)
unfolding side_flaws
side_flaws-eq realm key body sf cf life stake conv s c = rw (side_flaws, s, c)

side_flaws-nil :
    (realm : Realm) (key body sf cf : Text) (life : ℕ)
    → side_flaws realm key body sf cf life ≡ ok []
    → SideIsWithin realm body sf cf life
side_flaws-nil realm key body sf cf life h stake conv ne s c =
    side_rule-nil realm key cf life stake conv ne
      (sym (side_flaws-eq realm key body sf cf life stake conv s c) ∙ h)

-- What a claim's entry has to state, if its timeline has a height for "opened": it has a life, and
-- both convictions are within the ceiling for it.
abbrev pub StatesWithin : Realm → Text × Text → Type 0
StatesWithin realm c =
    (opened : ℕ)
    → height_at (codes "opened") (timeline_heights c.1) ≡ some opened
    → (opened < end_of realm (timeline_heights c.1))
      × SideIsWithin realm c.1 (codes "yesStake") (codes "convYes")
          (end_of realm (timeline_heights c.1) - opened)
      × SideIsWithin realm c.1 (codes "noStake") (codes "convNo")
          (end_of realm (timeline_heights c.1) - opened)

later : (a b : ℕ) → leb a b ≡ false → b < a
later a b h = ground arith

conviction_flaws-life :
    (realm : Realm) (key body : Text) (opened : ℕ)
    → height_at (codes "opened") (timeline_heights body) ≡ some opened
    → leb (end_of realm (timeline_heights body)) opened ≡ false
    → conviction_flaws realm key body
      ≡ bind_result
          (side_flaws realm key body
            (codes "yesStake")
            (codes "convYes")
            (end_of realm (timeline_heights body) - opened))
          λ yes.
            bind_result
              (side_flaws realm key body
                (codes "noStake")
                (codes "convNo")
                (end_of realm (timeline_heights body) - opened))
              λ no. ok (yes ++ no)
unfolding conviction_flaws
conviction_flaws-life realm key body opened o e = rw (conviction_flaws, o, e)

conviction_flaws-dead :
    (realm : Realm) (key body : Text) (opened : ℕ)
    → height_at (codes "opened") (timeline_heights body) ≡ some opened
    → leb (end_of realm (timeline_heights body)) opened ≡ true
    → conviction_flaws realm key body ≢ ok []
unfolding conviction_flaws
conviction_flaws-dead realm key body opened o e h = cc (rw (conviction_flaws, o, e) at h)

conviction_flaws-StatesWithin :
    (realm : Realm) (key body : Text)
    → conviction_flaws realm key body ≡ ok []
    → StatesWithin realm (key, body)
conviction_flaws-StatesWithin realm key body h opened o =
    elim (Bool-cases (leb (end_of realm (timeline_heights body)) opened)) [
      | inl e ↦ absurd (conviction_flaws-dead realm key body opened o e h)
      | inr e ↦
          let life : ℕ = end_of realm (timeline_heights body) - opened in
          let no_side = side_flaws realm key body (codes "noStake") (codes "convNo") life in
          let (for_yes, ey, h1) =
            ok-bind (side_flaws realm key body (codes "yesStake") (codes "convYes") life)
              (λ ys. bind_result no_side λ ns. ok (ys ++ ns)) []
              (sym (conviction_flaws-life realm key body opened o e) ∙ h) in
          let (for_no, en, h2) = ok-bind no_side (λ ns. ok (for_yes ++ ns)) [] h1 in
          let (a, b) = append-eq-nil for_yes for_no (sym (ok_injective _ _ h2)) in
          (
            later (end_of realm (timeline_heights body)) opened e,
            side_flaws-nil realm key body _ _ life (ey ∙ ap (λ fs. ok fs) a),
            side_flaws-nil realm key body _ _ life (en ∙ ap (λ fs. ok fs) b),
          )
    ]

all_convictions-StatesWithin :
    (realm : Realm) (cs : List (Text × Text))
    → all_convictions realm cs ≡ ok []
    → All (StatesWithin realm) cs
unfolding all_convictions
all_convictions-StatesWithin realm [] h = tt
all_convictions-StatesWithin realm ((key, body) ∷ cs) h =
    let (here, e, h1) =
      ok-bind (conviction_flaws realm key body)
        (λ fs. bind_result (all_convictions realm cs) λ gs. ok (fs ++ gs)) [] h in
    let (rest, f, h2) = ok-bind (all_convictions realm cs) (λ gs. ok (here ++ gs)) [] h1 in
    let (a, b) = append-eq-nil here rest (sym (ok_injective _ _ h2)) in
    (
      conviction_flaws-StatesWithin realm key body (e ∙ ap (λ fs. ok fs) a),
      all_convictions-StatesWithin realm cs (f ∙ ap (λ fs. ok fs) b),
    )

-- Where the check of the conviction values finds nothing, each claim that
-- `claims` reads and whose timeline says when it opened has a life, and neither side's conviction
-- exceeds, without any rounding, what its stake yields at the ceiling rate in that life. This is
-- said of the sides that state both values, with a stake that is not 0.
pub check_convictions-StatesWithin :
    (realm : Realm) (region : Text) (cs : List (Text × Text))
    → claims region ≡ ok cs
    → check_convictions realm region ≡ ok []
    → All (StatesWithin realm) cs
unfolding check_convictions
check_convictions-StatesWithin realm region cs e h =
    all_convictions-StatesWithin realm cs (rw (check_convictions, e) at h)
