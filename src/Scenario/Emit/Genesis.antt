-- ===== src/Scenario/Emit/Genesis.antt =====
-- scripts/scenario.py: `emit_txs`, the scenario's transactions as a genesis file, one JSON line each.
-- The base64 text of a key's bytes, `base64.b64encode`, is the parameter `b64`.
pub mod Sealed
use cryptocourt.Base.{
  ℕ, zero, suc, Bool, true, false, not, Option, none, some, List, [], ◌∷◌, ◌++◌, map, keep, ltb,
  ◌==◌, if◌then◌else◌,
}
use cryptocourt.Base.Text.{Text, codes, ◌=text◌, text_in, join}
use cryptocourt.Base.Decimal.{str_nat}
use cryptocourt.Base.Exec.{Result, ok, err, bind_result, try_map}
use cryptocourt.Scenario.Step.{
  realm, deployer, gas_wanted, gas_fee_ugnot, Step, call, refuse, expect, remark, mine, Scenario,
  mined,
}
use cryptocourt.Scenario.Quote.{EmitError, mines_blocks, no_address}
use cryptocourt.Scenario.Bech32.{Bytes, key_bytes}
use cryptocourt.Scenario.Emit.Json.{Json, text, arr, obj, Items, nil, cons, end, field, dumps}

-- The accounts map: a name, its address and its bech32 key.
abbrev pub Addrs : Type 0
Addrs = List (Text × (Text × Text))

unfoldable pub find_key {ℓ} : {A : Type ℓ} → Text → List (Text × A) → Option A
find_key who [] = none
find_key who ((n, a) ∷ rest) = if who =text n then some a else find_key who rest

-- One call of `tx_line`.
pub record Tx : Type 0 where
  pub who : Text
  pub func : Text
  pub args : List Text
  pub send : Option Text

-- The step that a transaction stands for.
abbrev pub tx_step : Tx → Step
tx_step t = call t.who t.func t.args t.send []

unfoldable pub call_txs : List Step → List Tx
call_txs [] = []
call_txs (call who func args send note ∷ steps) =
    record { who = who; func = func; args = args; send = send } ∷ call_txs steps
call_txs (_ ∷ steps) = call_txs steps

abbrev pub seal_tx : Tx
seal_tx = record { who = deployer; func = codes "SealTestClock"; args = []; send = none }

-- The transactions of the file: the calls of the scenario, and the seal of a clock left armed.
unfoldable pub txs : Scenario → List Tx
unfolding call_txs
txs scn = call_txs scn.steps ++ (if scn.clock_armed then seal_tx ∷ [] else [])

abbrev text_items : List Text → Items
text_items [] = nil
text_items (t ∷ ts) = cons (text t) (text_items ts)

abbrev send_text : Option Text → Text
send_text none = []
send_text (some s) = s

unfoldable pub tx_json : Text → Text → Tx → Json
tx_json caller key t =
    let msg = obj (
      field (codes "@type") (text (codes "/vm.m_call")) (
        field (codes "caller") (text caller) (
          field (codes "send") (text (send_text t.send)) (
            field (codes "pkg_path") (text realm) (
              field (codes "func") (text t.func)
                (field (codes "args") (arr (text_items t.args)) end)))))) in
    let fee = obj (
      field (codes "gas_wanted") (text (str_nat gas_wanted))
        (field (codes "gas_fee") (text (str_nat gas_fee_ugnot ++ codes "ugnot")) end)) in
    let pub_key = obj (
      field (codes "@type") (text (codes "/tm.PubKeySecp256k1"))
        (field (codes "value") (text key) end)) in
    let signature =
      obj (field (codes "pub_key") pub_key (field (codes "signature") (text []) end)) in
    obj (
      field (codes "tx")
        (obj (
          field (codes "msg") (arr (cons msg nil)) (
            field (codes "fee") fee (
              field (codes "signatures") (arr (cons signature nil))
                (field (codes "memo") (text []) end)))))
        end)

module _ (b64 : Bytes → Text) where
  -- `keys`: every account's key is decoded, whether a transaction uses it or not.
  unfoldable pub all_keys : Addrs → Result EmitError (List (Text × Text))
  all_keys =
      try_map
        λ (a : Text × (Text × Text)). bind_result (key_bytes a.1.1) λ bytes. ok (a.0, b64 bytes)

  -- One line of the file. A caller that the map lacks is a `KeyError`.
  unfoldable pub tx_line : Addrs → List (Text × Text) → Tx → Result EmitError Text
  unfolding find_key tx_json
  tx_line addrs keys t = elim (find_key t.who addrs) [
    | none ↦ err no_address
    | some a ↦ elim (find_key t.who keys) [
      | none ↦ err no_address
      | some key ↦ ok (dumps (tx_json a.0 key t))
    ]
  ]

  -- Whether some call's caller is not in the map.
  unfoldable pub missing : Addrs → List Step → List Text
  unfolding call_txs
  missing addrs steps =
      keep (λ who. not (text_in who (map (λ (a : Text × (Text × Text)). a.0) addrs)))
        (map (λ (t : Tx). t.who) (call_txs steps))

  unfoldable pub emit_txs : Scenario → Addrs → Result EmitError Text
  unfolding txs all_keys tx_line missing
  emit_txs scn addrs =
      if ltb 0 (mined scn.steps) then err mines_blocks else elim (missing addrs scn.steps) [
        | who ∷ others ↦ err no_address
        | [] ↦ bind_result (all_keys addrs) λ keys.
            bind_result (try_map (tx_line addrs keys) (txs scn))
              λ lines. ok (join (codes "\n") lines ++ codes "\n")
      ]
