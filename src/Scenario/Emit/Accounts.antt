-- ===== src/Scenario/Emit/Accounts.antt =====
-- scripts/scenario.py: `emit_accounts`, the manifest of the accounts to create and premine.
use Prim.Native.Nat.{max}
use cryptocourt.Base.{
  ℕ, suc, ◌+◌, ◌*◌, ◌≤◌, ◌≡◌, refl, ◌&&◌, Option, none, some, List, [], ◌∷◌, ◌++◌, map, leb, keep,
  arith, if◌then◌else◌,
}
use cryptocourt.Base.Text.{Text, codes, ◌=text◌, join}
use cryptocourt.Base.Decimal.{str_nat, value}
use cryptocourt.Base.Int.{ℤ, str_int}
use cryptocourt.Scenario.Step.{
  deployer, gas_fee_ugnot, deployer_premine_min, Step, call, refuse, expect, remark, mine, Scenario,
  mined,
}

-- `int(re.sub(r"[^0-9]", "", str(send or "0")) or 0)`.
unfoldable pub sent_amount : Option Text → ℕ
sent_amount none = 0
sent_amount (some t) = value 0 (keep (λ c. leb b'0' c && leb c b'9') t)

-- The steps that are transactions.
unfoldable pub transactions : List Step → ℕ
transactions [] = 0
transactions (call who func args send note ∷ steps) = suc (transactions steps)
transactions (refuse who func args re note ∷ steps) = suc (transactions steps)
transactions (_ ∷ steps) = transactions steps

-- What the deployer's own calls send.
unfoldable pub deployer_sends : List Step → ℕ
unfolding sent_amount
deployer_sends [] = 0
deployer_sends (call who func args send note ∷ steps) =
    (if who =text deployer then sent_amount send else 0) + deployer_sends steps
deployer_sends (_ ∷ steps) = deployer_sends steps

unfoldable pub deployer_need : List Step → ℕ
unfolding mined transactions deployer_sends
deployer_need steps =
    max ((mined steps + transactions steps) * gas_fee_ugnot * 3 + deployer_sends steps)
      deployer_premine_min

unfoldable pub emit_accounts : Scenario → Text
unfolding deployer_need
emit_accounts scn =
    join (codes "\n") (
      (codes "deployer\t" ++ str_nat (deployer_need scn.steps))
      ∷ map (λ (a : Text × ℤ). a.0 ++ (codes "\t" ++ str_int a.1)) scn.accounts)
    ++ codes "\n"

-- What one step costs the deployer at most: a gas fee for each block that it mines and for each
-- transaction, and what its own calls send.
unfoldable pub step_cost : Step → ℕ
step_cost (call who func args send note) =
    gas_fee_ugnot + (if who =text deployer then sent_amount send else 0)
step_cost (refuse who func args re note) = gas_fee_ugnot
step_cost (mine n note) = n * gas_fee_ugnot
step_cost _ = 0

unfoldable pub total_cost : List Step → ℕ
total_cost [] = 0
total_cost (st ∷ steps) = step_cost st + total_cost steps

total_cost-eq :
    (steps : List Step)
    → total_cost steps ≡ (mined steps + transactions steps) * gas_fee_ugnot + deployer_sends steps
unfolding total_cost step_cost mined transactions deployer_sends
total_cost-eq [] = refl
total_cost-eq (call who func args send note ∷ steps) = omega (arith, total_cost-eq steps)
total_cost-eq (refuse who func args re note ∷ steps) = omega (arith, total_cost-eq steps)
total_cost-eq (expect func args re note final ∷ steps) = omega (arith, total_cost-eq steps)
total_cost-eq (remark text ∷ steps) = omega (arith, total_cost-eq steps)
total_cost-eq (mine n note ∷ steps) = omega (arith, total_cost-eq steps)

-- The deployer's premine covers the cost of all the steps, and is never below the default premine.
pub total_cost-le-deployer_need :
    (steps : List Step)
    → (total_cost steps ≤ deployer_need steps) × (deployer_premine_min ≤ deployer_need steps)
unfolding deployer_need
total_cost-le-deployer_need steps = (omega (arith, total_cost-eq steps), omega arith)
