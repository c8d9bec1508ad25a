-- ===== src/Scenario/Emit/Genesis/Sealed.antt =====
-- The genesis file leaves the realm's clock sealed.
use mathlib.Core.Path.{fun_ext}
use mathlib.Core.Option.{some_inj}
use cryptocourt.Base.{
  Bool-cases, inl, inr, ◌≡◌, refl, ap, ◌∙◌, false, Option, none, some, List, [], ◌∷◌, ◌++◌, map,
  if◌then◌else◌, arith,
}
use mathlib.Core.List.{map-append}
use cryptocourt.Base.Text.{Text, codes}
use cryptocourt.Scenario.Step.{Step, call, refuse, expect, remark, mine, Scenario, init}
use cryptocourt.Scenario.Story.{Verb, run_story}
use cryptocourt.Scenario.Clock.{ClockState, flags}
use cryptocourt.Scenario.Latch.{
  Latch, fresh, takes, seal, seen, latch_after, IsSpent, latch_after-IsSpent, run_story-seen,
  first_taken,
}
use cryptocourt.Scenario.Emit.Genesis.{tx_step, call_txs, seal_tx, txs}

-- The steps that are no transactions of the file leave the latch.
latch_after-call_txs :
    (l : Latch) (steps : List Step)
    → latch_after l (map tx_step (call_txs steps)) ≡ latch_after l steps
unfolding call_txs latch_after takes
latch_after-call_txs l [] = refl
latch_after-call_txs l (call who func args send note ∷ steps) =
    ap
      (λ (next : Latch → Option Latch). elim (takes l (call who func args send note)) [
        | none ↦ none
        | some m ↦ next m
      ])
      (fun_ext λ m. latch_after-call_txs m steps)
latch_after-call_txs l (refuse who func args re note ∷ steps) = latch_after-call_txs l steps
latch_after-call_txs l (expect func args re note final ∷ steps) = latch_after-call_txs l steps
latch_after-call_txs l (remark text ∷ steps) = latch_after-call_txs l steps
latch_after-call_txs l (mine n note ∷ steps) = latch_after-call_txs l steps

-- More transactions behind those that are taken.
latch_after-append :
    (l : Latch) (first more : List Step) (m : Latch)
    → latch_after l first ≡ some m
    → latch_after l (first ++ more) ≡ latch_after m more
unfolding latch_after
latch_after-append l [] more m h = ap (λ k. latch_after k more) (some_inj.0 h)
latch_after-append l (st ∷ first) more m h =
    let (k, now, rest) = first_taken l st first m h in
    rw (now, latch_after) (latch_after-append k first more m rest)

-- The latch behind the transactions of a genesis file.
abbrev pub genesis_latch : Scenario → Option Latch
genesis_latch scn = latch_after fresh (map tx_step (txs scn))

-- The appended seal.
sealed_tail :
    (l : Latch)
    → IsSpent l
    → latch_after l (map tx_step (if l.armed then seal_tx ∷ [] else []))
      ≡ some (record { armed = false; ever = l.ever; sealed = l.ever })
unfolding latch_after takes codes seal
sealed_tail l spent = elim (Bool-cases l.armed) [ inl e ↦ ground arith | inr e ↦ ground arith ]

genesis_latch-seen :
    (scn : Scenario) (l : Latch)
    → latch_after fresh scn.steps ≡ some l
    → flags scn ≡ seen l
    → IsSpent l
    → genesis_latch scn
      ≡ some (record { armed = false; ever = scn.clock_ever_armed; sealed = scn.clock_ever_armed })
unfolding txs
genesis_latch-seen scn l h same spent =
    let is_armed : scn.clock_armed ≡ l.armed = ap (λ (c : ClockState). c.armed) same in
    let was_armed : scn.clock_ever_armed ≡ l.ever = ap (λ (c : ClockState). c.ever) same in
    let seals = map tx_step (if scn.clock_armed then seal_tx ∷ [] else []) in
    let calls : latch_after fresh (map tx_step (call_txs scn.steps)) ≡ some l =
      latch_after-call_txs fresh scn.steps ∙ h in
    ap (latch_after fresh) (map-append tx_step (call_txs scn.steps) _)
    ∙ latch_after-append fresh (map tx_step (call_txs scn.steps)) seals l calls
    ∙ rw (is_armed, was_armed) (sealed_tail l spent)

-- Of every scenario that a module can build, if the realm's latch takes each recorded transaction at
-- its turn, then it takes each transaction of the genesis file as well, the appended seal included,
-- and is not armed behind them; it was armed at some time, and is sealed for good, exactly if the
-- scenario armed it.
pub genesis_sealed :
    (reads : List Text) (vs : List Verb) (n preamble : Text) (l : Latch)
    → latch_after fresh (run_story reads vs (init n preamble)).1.steps ≡ some l
    → let scn = (run_story reads vs (init n preamble)).1 in
      genesis_latch scn
      ≡ some (record { armed = false; ever = scn.clock_ever_armed; sealed = scn.clock_ever_armed })
genesis_sealed reads vs n preamble l h =
    genesis_latch-seen (run_story reads vs (init n preamble)).1 l h
      (run_story-seen reads vs n preamble l h)
      (latch_after-IsSpent fresh (run_story reads vs (init n preamble)).1.steps l h refl)
