-- ===== src/Scenario/Tests.antt =====
-- The builder and the emitters on one concrete scenario.
use cryptocourt.Base.{
  All, ◌/◌, ◌^◌, arith, ◌≤◌, ◌≡◌, refl, true, false, none, some, List, [], ◌∷◌, ◌++◌, any,
}
use cryptocourt.Base.Text.{
  Text, codes, replace, split, strip, lstrip, rstrip, is_space, ends_with, starts_with, drop_prefix,
  text_in, ◌=text◌,
}
use cryptocourt.Base.Disk.{Files}
use cryptocourt.Mutate.Output
use cryptocourt.Collisions.Unused.{uses, is_whole}
use cryptocourt.Scenario.Reads.{
  realm_reads, reads_of, writes_of, declarations, declarations_from, func_at, is_write,
  behind_types, behind_first, strip_lines, strip_blocks,
}
use cryptocourt.Scenario.Reads.Asserted.{AssertsRead, run_story-AssertsRead}
use cryptocourt.Base.Int.{pos}
use cryptocourt.Base.Exec.{ok}
use cryptocourt.Scenario.Step.{str, Step, call, mine, init, deployer, deployer_premine_min}
use cryptocourt.Scenario.Story.{Act, Verb, run_story}
use cryptocourt.Scenario.Story
use cryptocourt.Scenario.Clock.{flags}
use cryptocourt.Scenario.Builder
use cryptocourt.Scenario.Literal
use cryptocourt.Scenario.Step
use cryptocourt.Scenario.Latch.{Latch, seen, run_story-seen, latch_after, fresh}
use cryptocourt.Scenario.Sound.{IsSound, run_story-IsSound}
use cryptocourt.Scenario.Bech32.{regroup}
use cryptocourt.Scenario.Bech32.Value.{number, number-regroup}
use cryptocourt.Scenario.Quote.{q_txtar, breaks_line}
use cryptocourt.Scenario.Quote.Pascal.{read_token, read_token-q_txtar}
use cryptocourt.Scenario.Emit.Accounts.{total_cost, deployer_need, total_cost-le-deployer_need}
use cryptocourt.Scenario.Emit.Genesis.Sealed.{genesis_latch, genesis_sealed}

abbrev reads : List Text
reads = codes "Standing" ∷ []

-- The last verb raises: a transaction is no read.
abbrev demo : List Verb
demo =
    Story.account (codes "alice") (pos 100)
    ∷ Story.arm none
    ∷ Story.act (Story.buy (codes "alice") (codes "covid") (pos 5))
    ∷ Story.advance (pos 60) (codes "a minute")
    ∷ Story.mine (pos 2) (codes "two blocks") true
    ∷ Story.expect (codes "Standing") (str (codes "covid") ∷ []) (codes "5") [] true
    ∷ Story.expect (codes "Buy") [] (codes "5") [] true
    ∷ []

abbrev armed_latch : Latch
armed_latch = record { armed = true; ever = true; sealed = false }

demo_taken :
    latch_after fresh (run_story reads demo (init (codes "demo") (codes "A demo."))).1.steps
    ≡ some armed_latch
unfolding codes latch_after run_story Story.run_verb Builder.account Literal.is_actor_name
    Builder.arm_clock Story.perform Builder.advance Builder.mine_blocks Step.mined init
    Builder.expect_read Literal.lit Literal.portable_pattern
demo_taken = refl

run_story-seen_example :
    flags (run_story reads demo (init (codes "demo") (codes "A demo."))).1 ≡ seen armed_latch
run_story-seen_example =
    run_story-seen reads demo (codes "demo") (codes "A demo.") armed_latch demo_taken

run_story-IsSound_example :
    IsSound reads (run_story reads demo (init (codes "demo") (codes "A demo."))).1
run_story-IsSound_example = run_story-IsSound reads demo (codes "demo") (codes "A demo.")

genesis_sealed_example :
    genesis_latch (run_story reads demo (init (codes "demo") (codes "A demo."))).1
    ≡ some (record {
      armed = false;
      ever = (run_story reads demo (init (codes "demo") (codes "A demo."))).1.clock_ever_armed;
      sealed = (run_story reads demo (init (codes "demo") (codes "A demo."))).1.clock_ever_armed;
    })
genesis_sealed_example =
    genesis_sealed reads demo (codes "demo") (codes "A demo.") armed_latch demo_taken

its_quoted : q_txtar (codes "it's 5") ≡ ok (codes "'it''s 5'")
unfolding q_txtar codes replace
its_quoted = refl

read_token-q_txtar_example :
    (read_token (codes "'it''s 5'" ++ codes " -send") ≡ some (codes "it's 5", codes " -send"))
    × (any breaks_line (codes "it's 5") ≡ false)
read_token-q_txtar_example =
    read_token-q_txtar (codes "it's 5") (codes "'it''s 5'") (codes " -send") its_quoted
      (unfold codes in refl)

abbrev paid : List Step
paid =
    call deployer (codes "Buy") (codes "covid" ∷ []) (some (codes "7000000ugnot")) []
    ∷ mine 3 []
    ∷ []

total_cost-le-deployer_need_example :
    (total_cost paid ≤ deployer_need paid) × (deployer_premine_min ≤ deployer_need paid)
total_cost-le-deployer_need_example = total_cost-le-deployer_need paid

number-regroup_example :
    number 256 0 (regroup 0 0 (31 ∷ 0 ∷ 31 ∷ [])) ≡ number 32 0 (31 ∷ 0 ∷ 31 ∷ []) / 2 ^ 7
number-regroup_example =
    number-regroup (31 ∷ 0 ∷ 31 ∷ []) (omega arith, (omega arith, (omega arith, tt)))

abbrev realm_files : Files
realm_files =
    (
      codes "buy.gno",
      codes
          "func Standing(slug string) string {\n}\n/* func Buy() */\n\nfunc Buy(rlm realm, slug string) {\n}\n",
    )
    ∷ (codes "buy_test.gno", codes "func Buy() {\n}\n")
    ∷ []

reads_found : realm_reads (some realm_files) ≡ some reads
unfolding realm_reads reads_of writes_of declarations declarations_from func_at is_write
    behind_types behind_first strip_lines strip_blocks uses is_whole Output.is_word Output.span
    split strip lstrip rstrip is_space ends_with starts_with drop_prefix text_in ◌=text◌ codes
reads_found = refl

run_story-AssertsRead_example :
    All
      (AssertsRead (declarations realm_files))
      (run_story reads demo (init (codes "demo") (codes "A demo."))).1.steps
run_story-AssertsRead_example =
    run_story-AssertsRead realm_files reads demo (codes "demo") (codes "A demo.") reads_found
