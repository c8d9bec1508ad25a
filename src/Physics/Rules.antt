-- ===== src/Physics/Rules.antt =====
-- scripts/check-demo-physics.py: `check_burn` and the conviction values in
-- `main`. The realm's constants, which are read from its source, are a record.
pub mod Exact
pub mod Ceiling
use cryptocourt.Base.{
  ℕ, zero, suc, ◌+◌, ◌-◌, ◌*◌, ◌/◌, ◌%◌, leb, ltb, Bool, true, false, Option, none, some, List, [],
  ◌∷◌, ◌++◌, ◌==◌, if◌then◌else◌,
}
use cryptocourt.Base.Text.{Text, codes, ◌=text◌}
use cryptocourt.Base.Exec.{Result, ok, err, bind_result}
use cryptocourt.Physics.Scan.{divided_by_zero, Crash, num, timeline_heights, height_at}
use cryptocourt.Physics.Entries.{claims, courts}

pub record Realm : Type 0 where
  pub period_blocks : ℕ
  pub r0_weekly_bps : ℕ
  pub budget_weekly_bps : ℕ
  pub now : ℕ

-- A value that the realm cannot produce, with the value that it has and the bound that it breaks.
pub data Flaw : Type 0 where
  burn_off : (slug : Text) → (burned want : ℕ) → Flaw
  no_life : (key : Text) → Flaw
  over_ceiling : (key field : Text) → (conv most : ℕ) → Flaw

-- `-(-n // d)`.
unfoldable pub ceil_div : ℕ → ℕ → ℕ
ceil_div n d = n / d + (if n % d == 0 then 0 else 1)

-- `supply - emitted`, which may be negative, as its square.
unfoldable pub minted_square : (supply emitted : ℕ) → ℕ
minted_square supply emitted =
    let minted = (supply - emitted) + (emitted - supply) in minted * minted

unfoldable pub curve_cost : (supply emitted : ℕ) → ℕ
unfolding ceil_div minted_square
curve_cost supply emitted = ceil_div (minted_square supply emitted) 2000000000

-- The rule where all three values are there.
unfoldable pub burn_rule : (slug : Text) → (burned supply emitted : Option ℕ) → List Flaw
unfolding curve_cost
burn_rule slug (some burned) (some supply) (some emitted) =
    if burned == curve_cost supply emitted
    then []
    else burn_off slug burned (curve_cost supply emitted) ∷ []
burn_rule slug burned supply emitted = []

unfoldable pub burn_flaws : (slug body : Text) → Result Crash (List Flaw)
unfolding num burn_rule ◌=text◌
burn_flaws slug body =
    if slug =text codes "meta"
    then ok []
    else bind_result (num body (codes "burned")) λ burned.
      bind_result (num body (codes "supply")) λ supply.
        bind_result (num body (codes "emitted"))
          λ emitted. ok (burn_rule slug burned supply emitted)

unfoldable pub all_burns : List (Text × Text) → Result Crash (List Flaw)
unfolding burn_flaws
all_burns [] = ok []
all_burns ((slug, body) ∷ cs) =
    bind_result (burn_flaws slug body) λ here. bind_result (all_burns cs) λ rest. ok (here ++ rest)

unfoldable pub check_burn : Text → Result Crash (List Flaw)
unfolding courts all_burns
check_burn region = bind_result (courts region) all_burns

-- `255 * (r0*1e6 + budget*1e6) // 100`.
unfoldable pub ceil_rate : Realm → ℕ
ceil_rate realm = 255 * (realm.r0_weekly_bps * 1000000 + realm.budget_weekly_bps * 1000000) / 100

unfoldable pub rate_base : Realm → ℕ
rate_base realm = realm.period_blocks * 10000 * 1000000

-- The most that a stake can yield.
unfoldable pub most_conviction : Realm → (stake life : ℕ) → ℕ
unfolding ceil_rate rate_base
most_conviction realm stake life = stake * ceil_rate realm * life / rate_base realm

-- A conviction above the most. The line on it divides by the most, which fails where that is 0.
unfoldable pub over : (key field : Text) → (conv most : ℕ) → Result Crash (List Flaw)
over key field conv zero = err divided_by_zero
over key field conv (suc most) = ok (over_ceiling key field conv (suc most) ∷ [])

-- One side of a claim; a stake that is missing or zero is not checked.
unfoldable pub side_rule :
    Realm → (key field : Text) → (life : ℕ) → (stake conv : Option ℕ) → Result Crash (List Flaw)
unfolding most_conviction over
side_rule realm key field life none conv = ok []
side_rule realm key field life (some stake) none = ok []
side_rule realm key field life (some stake) (some conv) =
    if stake == 0
    then ok []
    else if rate_base realm == 0
    then err divided_by_zero
    else if ltb (most_conviction realm stake life) conv
    then over key field conv (most_conviction realm stake life)
    else ok []

unfoldable pub side_flaws :
    Realm → (key body stake_field conv_field : Text) → (life : ℕ) → Result Crash (List Flaw)
unfolding num side_rule
side_flaws realm key body stake_field conv_field life = bind_result (num body stake_field) λ stake.
    bind_result (num body conv_field) λ conv. side_rule realm key conv_field life stake conv

-- `tl.get("answered", tl.get("now", now))`.
unfoldable pub end_of : Realm → List (Text × ℕ) → ℕ
unfolding height_at
end_of realm tl = elim (height_at (codes "answered") tl) [
  | some h ↦ h
  | none ↦ elim (height_at (codes "now") tl) [ some h ↦ h | none ↦ realm.now ]
]

-- Of a claim without a timeline only the values are read, for the note on it.
unfoldable pub unconstrained : Text → Result Crash (List Flaw)
unfolding num
unconstrained body = bind_result (num body (codes "convYes")) second
  where
    second : Option ℕ → Result Crash (List Flaw)
    second (some (suc n)) = ok []
    second conv = bind_result (num body (codes "convNo")) λ other. ok []

unfoldable pub conviction_flaws : Realm → (key body : Text) → Result Crash (List Flaw)
unfolding side_flaws end_of timeline_heights height_at unconstrained
conviction_flaws realm key body =
    let tl = timeline_heights body in
    elim (height_at (codes "opened") tl) [
      | none ↦ unconstrained body
      | some opened ↦
          if leb (end_of realm tl) opened
          then ok (no_life key ∷ [])
          else bind_result
              (side_flaws realm key body (codes "yesStake") (codes "convYes")
                (end_of realm tl - opened))
              λ yes.
                bind_result
                  (side_flaws realm key body (codes "noStake") (codes "convNo")
                    (end_of realm tl - opened))
                  λ no. ok (yes ++ no)
    ]

unfoldable pub all_convictions : Realm → List (Text × Text) → Result Crash (List Flaw)
unfolding conviction_flaws
all_convictions realm [] = ok []
all_convictions realm ((key, body) ∷ cs) =
    bind_result (conviction_flaws realm key body)
      λ here. bind_result (all_convictions realm cs) λ rest. ok (here ++ rest)

unfoldable pub check_convictions : Realm → Text → Result Crash (List Flaw)
unfolding claims all_convictions
check_convictions realm region = bind_result (claims region) (all_convictions realm)
