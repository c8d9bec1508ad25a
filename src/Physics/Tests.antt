-- ===== src/Physics/Tests.antt =====
-- A dataset of one court and one claim.
use cryptocourt.Base.{◌≡◌, refl, List, [], ◌∷◌, All}
use cryptocourt.Base.Text.{Text, codes, ◌=text◌, drop_prefix, starts_with, lstrip, is_space, split}
use cryptocourt.Base.Exec.{ok}
use cryptocourt.Mutate.Output.{span}
use cryptocourt.Physics.Scan.{
  block_from, num, search_scalar, scalar_at, int_of, is_word_char, is_numeral, timeline,
  timeline_heights, heights_of, height, height_at, quoted,
}
use cryptocourt.Physics.Entries.{
  claims, claims_block, claims_from, claim_at, courts, courts_from, court_at, from_first, opens,
  is_lower, prefix, suffix,
}
use cryptocourt.Physics.Rules.{
  Realm, ceil_div, minted_square, curve_cost, burn_rule, burn_flaws, all_burns, check_burn,
  ceil_rate, rate_base, most_conviction, over, side_rule, side_flaws, end_of, unconstrained,
  conviction_flaws, all_convictions, check_convictions,
}
use cryptocourt.Physics.Rules.Exact.{StatesCost, check_burn-StatesCost}
use cryptocourt.Physics.Rules.Ceiling.{StatesWithin, check_convictions-StatesWithin}

abbrev realm : Realm
realm = record { period_blocks = 120; r0_weekly_bps = 100; budget_weekly_bps = 50; now = 300 }

abbrev court_body : Text
court_body = codes " burned: 2, supply: 70_000, emitted: 10_000 }"

abbrev claim_body : Text
claim_body = codes " timeline: \"opened:b:10;now:b:250\", yesStake: 1000, convYes: 1 }"

abbrev region : Text
region =
    codes
      "courts:{\n    covid: { burned: 2, supply: 70_000, emitted: 10_000 }\n}\nclaims:{\"covid/1\": { timeline: \"opened:b:10;now:b:250\", yesStake: 1000, convYes: 1 }}"

abbrev found_courts : List (Text × Text)
found_courts = (codes "covid", court_body) ∷ []

abbrev found_claims : List (Text × Text)
found_claims = (codes "covid/1", claim_body) ∷ []

courts_read : courts region ≡ ok found_courts
unfolding courts courts_from court_at from_first opens is_lower prefix suffix block_from span
    is_space starts_with drop_prefix lstrip codes
courts_read = refl

claims_read : claims region ≡ ok found_claims
unfolding claims claims_from claim_at claims_block from_first opens is_lower block_from span
    is_space starts_with drop_prefix lstrip codes
claims_read = refl

burns_hold : check_burn region ≡ ok []
unfolding check_burn all_burns burn_flaws burn_rule curve_cost ceil_div minted_square num
    search_scalar scalar_at int_of is_word_char is_numeral ◌=text◌ courts courts_from court_at
    from_first opens is_lower prefix suffix block_from span is_space starts_with drop_prefix lstrip
    codes
burns_hold = refl

check_burn-StatesCost_example : All StatesCost found_courts
check_burn-StatesCost_example = check_burn-StatesCost region found_courts courts_read burns_hold

convictions_hold : check_convictions realm region ≡ ok []
unfolding check_convictions all_convictions conviction_flaws side_flaws side_rule over
    most_conviction ceil_rate rate_base end_of unconstrained num search_scalar scalar_at int_of
    is_word_char is_numeral timeline timeline_heights heights_of height height_at quoted split
    ◌=text◌ claims claims_from claim_at claims_block from_first opens is_lower block_from span
    is_space starts_with drop_prefix lstrip codes
convictions_hold = refl

check_convictions-StatesWithin_example : All (StatesWithin realm) found_claims
check_convictions-StatesWithin_example =
    check_convictions-StatesWithin realm region found_claims claims_read convictions_hold
