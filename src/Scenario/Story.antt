-- ===== src/Scenario/Story.antt =====
-- A scenario module: the calls that it makes on its `Scenario`, in order. The first one that raises
-- ends it.
use cryptocourt.Base.{Bool, Option, List, [], ◌∷◌}
use cryptocourt.Base.Text.{Text}
use cryptocourt.Base.Int.{ℤ}
use cryptocourt.Base.Exec.{pure, ◌>>◌}
use cryptocourt.Scenario.Step.{Value}
use cryptocourt.Scenario.Builder
use cryptocourt.Scenario.Builder.{Method}
use cryptocourt.Scenario.Verbs
use cryptocourt.Scenario.Verbs.{Exhibit}

-- The methods that record one transaction on the realm.
pub data Act : Type 0 where
  court : (who slug name : Text) → (polish : Option Value) → Act
  buy : (who slug : Text) → (ugnot : ℤ) → Act
  claim : (who slug title body : Text) → (media : List Exhibit) → Act
  stake unstake : (who slug : Text) → (cid : ℤ) → (side : Text) → (amount : ℤ) → Act
  answer vote hide : (who slug : Text) → (cid : ℤ) → (word : Text) → Act
  settle dispute : (who slug : Text) → (cid : ℤ) → Act
  folder : (who slug name desc : Text) → Act
  folder_add upvote : (who slug : Text) → (fid cid : ℤ) → Act
  comment_pass : (who slug : Text) → Act
  comment : (who slug : Text) → (cid : ℤ) → (text : Text) → (parent : ℤ) → Act
  withdraw_comment : (who slug : Text) → (cid row : ℤ) → (gone : Bool) → Act
  hide_comment : (who slug : Text) → (cid row : ℤ) → (code : Text) → Act

-- One method call.
pub data Verb : Type 0 where
  account : Text → ℤ → Verb
  arm : Option ℤ → Verb
  advance : ℤ → Text → Verb
  seal : Verb
  raise_height : ℤ → Text → Bool → Verb
  mine : ℤ → Text → Bool → Verb
  act : Act → Verb
  call : Text → Text → List Value → Option Text → Text → Verb
  expect : Text → List Value → Text → Text → Bool → Verb
  refuse : Text → Text → List Value → Text → Text → Verb
  remark : Text → Verb

unfoldable pub perform : Act → Method (Unit {0})
unfolding Verbs.court Verbs.buy Verbs.claim Verbs.stake Verbs.unstake Verbs.answer Verbs.settle
    Verbs.dispute Verbs.vote Verbs.folder Verbs.folder_add Verbs.hide Verbs.comment_pass
    Verbs.comment Verbs.upvote Verbs.withdraw_comment Verbs.hide_comment
perform (court who slug name polish) = do Verbs.court who slug name polish; pure tt
perform (buy who slug ugnot) = Verbs.buy who slug ugnot
perform (claim who slug title body media) = Verbs.claim who slug title body media
perform (stake who slug cid side amount) = Verbs.stake who slug cid side amount
perform (unstake who slug cid side amount) = Verbs.unstake who slug cid side amount
perform (answer who slug cid verdict) = Verbs.answer who slug cid verdict
perform (vote who slug cid choice) = Verbs.vote who slug cid choice
perform (hide who slug cid reason) = Verbs.hide who slug cid reason
perform (settle who slug cid) = Verbs.settle who slug cid
perform (dispute who slug cid) = Verbs.dispute who slug cid
perform (folder who slug name desc) = Verbs.folder who slug name desc
perform (folder_add who slug fid cid) = Verbs.folder_add who slug fid cid
perform (upvote who slug cid row) = Verbs.upvote who slug cid row
perform (comment_pass who slug) = Verbs.comment_pass who slug
perform (comment who slug cid text parent) = Verbs.comment who slug cid text parent
perform (withdraw_comment who slug cid row gone) = Verbs.withdraw_comment who slug cid row gone
perform (hide_comment who slug cid row code) = Verbs.hide_comment who slug cid row code

module _ (reads : List Text) where
  unfoldable pub run_verb : Verb → Method (Unit {0})
  run_verb (account n ugnot) = do Builder.account n ugnot; pure tt
  run_verb (arm at) = Builder.arm_clock at
  run_verb (advance seconds why) = Builder.advance seconds why
  run_verb seal = Builder.seal_clock
  run_verb (raise_height blocks why with_time) = Builder.advance_height blocks why with_time
  run_verb (mine blocks why with_time) = Builder.mine_blocks blocks why with_time
  run_verb (act a) = perform a
  run_verb (call who func args send note) = Builder.call_any who func args send note
  run_verb (expect func args pattern note final) =
      Builder.expect_read reads func args pattern note final
  run_verb (refuse who func args stderr note) =
      Builder.expect_refuse reads who func args stderr note
  run_verb (remark text) = Builder.add_note text

  -- The body of the module, up to the first raise.
  unfoldable pub run_story : List Verb → Method (Unit {0})
  run_story [] = pure tt
  run_story (v ∷ vs) = do run_verb v; run_story vs
