-- ===== src/Scenario/Command/Tests.antt =====
-- The command line on a scenario with one call of an actor.
use cryptocourt.Base.{
  ◌≡◌, ◌≢◌, refl, ap, true, false, ◌||◌, Option, none, some, List, [], ◌∷◌, ◌++◌, All, any, inl,
  inr,
}
use cryptocourt.Base.Text.{Text, codes, ◌=text◌, text_in, is_space, join}
use cryptocourt.Base.Tests.{Bool-cases}
use cryptocourt.Base.Text.Lines.{IsWord}
use cryptocourt.Base.Text.Laws.{=text_refl}
use cryptocourt.Base.Exec.{Result, ok, is_ok}
use cryptocourt.Base.Int.{pos}
use cryptocourt.Scenario.Step.{Scenario, call, deployer, mined}
use cryptocourt.Scenario.Bech32.{Bytes, key_bytes}
use cryptocourt.Scenario.Emit.Accounts.{emit_accounts}
use cryptocourt.Scenario.Emit.Genesis.{Tx, call_txs, txs}
use cryptocourt.Scenario.Command.{
  printed, wrote, Figures, load, allowed_kind, kind_of, emit_plain, emit_kind, text_for,
  delivered_to, run_on, run_words, main,
}
use cryptocourt.Scenario.Command.Flags.{Module, Stop, behind, flag, truthy, loaded}
use cryptocourt.Scenario.Command.Keyring.{accounts_map}
use cryptocourt.Scenario.Command.Seeded.{AreLines}
use cryptocourt.Scenario.Command.Rows.{has_key, IsRow, map_file}
use cryptocourt.Scenario.Command.Written.{IsPlain, out_to, main-out}
use cryptocourt.Scenario.Command.Genesis.{IsArgument, txs_command, main-txs}

abbrev story : Scenario
story = record {
  name = codes "demo";
  preamble = [];
  accounts = (codes "alice", pos 100) ∷ [];
  steps = call (codes "alice") (codes "Buy") (codes "covid" ∷ []) (some (codes "5ugnot")) [] ∷ [];
  clock_armed = true;
  clock_ever_armed = true;
  advanced = 0;
  advanced_height = 0;
}

abbrev key : Text
key = codes "gpub1qqqqqqqqqqqqqqqqqqqqqqqqqqqqqqqqqqqqqqqqqqqqqqqqqqqqqqqqqqqq"

abbrev deployer_row : Text × (Text × Text)
deployer_row = (codes "deployer", (codes "g1d", key))

abbrev alice_row : Text × (Text × Text)
alice_row = (codes "alice", (codes "g1a", key))

abbrev run_module : Text → Result Stop Module
run_module path = ok (record { scenario = some story; ci = true })

abbrev read_map : Text → Option Text
read_map path = some (map_file (deployer_row ∷ alice_row ∷ []))

abbrev same_bytes : Bytes → Text
same_bytes bytes = bytes

key_decodes : is_ok (key_bytes key) ≡ true
unfolding key_bytes codes
key_decodes = refl

apart : (s t : Text) → (s =text t) ≡ false → s ≢ t
apart s t h e = cc (h, =text_refl s, ap (λ u. s =text u) e)

script-IsArgument : IsArgument (codes "scenario.py")
unfolding codes ◌=text◌
script-IsArgument = (
  apart (codes "--list-ci") (codes "scenario.py") refl,
  apart (codes "--emit") (codes "scenario.py") refl,
  apart (codes "--accounts-map") (codes "scenario.py") refl,
  apart (codes "--out") (codes "scenario.py") refl,
)

module-IsArgument : IsArgument (codes "s.py")
unfolding codes ◌=text◌
module-IsArgument = (
  apart (codes "--list-ci") (codes "s.py") refl,
  apart (codes "--emit") (codes "s.py") refl,
  apart (codes "--accounts-map") (codes "s.py") refl,
  apart (codes "--out") (codes "s.py") refl,
)

map-IsArgument : IsArgument (codes "map.tsv")
unfolding codes ◌=text◌
map-IsArgument = (
  apart (codes "--list-ci") (codes "map.tsv") refl,
  apart (codes "--emit") (codes "map.tsv") refl,
  apart (codes "--accounts-map") (codes "map.tsv") refl,
  apart (codes "--out") (codes "map.tsv") refl,
)

map_is_given : codes "map.tsv" ≢ []
unfolding codes
map_is_given e = cc e

none_space : (w : Text) → any is_space w ≡ false → All (λ x. is_space x ≡ false) w
none_space [] h = tt
none_space (c ∷ w) h = elim (Bool-cases (is_space c)) [
  | inl e ↦ cc (rw e at h)
  | inr e ↦ (e, none_space w (rw e at h))
]

is_word : (w : Text) → (w =text []) ≡ false → any is_space w ≡ false → IsWord w
is_word w ne h = (apart w [] ne, none_space w h)

mines_nothing : mined story.steps ≡ 0
unfolding mined
mines_nothing = refl

rows-IsRow : All IsRow (deployer_row ∷ alice_row ∷ [])
unfolding codes is_space ◌=text◌
rows-IsRow =
    let key_word = is_word key refl refl in
    (
      (is_word (codes "deployer") refl refl, is_word (codes "g1d") refl refl, key_word),
      ((is_word (codes "alice") refl refl, is_word (codes "g1a") refl refl, key_word), tt),
    )

has_deployer : has_key (codes "deployer") (deployer_row ∷ alice_row ∷ []) ≡ true
unfolding text_in codes ◌=text◌
has_deployer = refl

alice_known :
    All
      (λ (t : Tx). has_key t.who (deployer_row ∷ alice_row ∷ []) || (t.who =text deployer) ≡ true)
      (call_txs story.steps)
unfolding text_in codes ◌=text◌ call_txs
alice_known = (refl, tt)

main-txs_example :
    (lines : List Text) × AreLines same_bytes
      (accounts_map (map_file (deployer_row ∷ alice_row ∷ [])))
      (txs story)
      lines
    × (main same_bytes run_module read_map []
          (txs_command (codes "scenario.py") (codes "s.py") (codes "map.tsv"))
        ≡ ok (printed (join (codes "\n") lines ++ codes "\n")))
main-txs_example =
    main-txs same_bytes run_module read_map [] (codes "scenario.py") (codes "s.py")
      (codes "map.tsv") story true deployer_row (alice_row ∷ []) script-IsArgument module-IsArgument
      map-IsArgument map_is_given refl refl rows-IsRow (key_decodes, (key_decodes, tt)) has_deployer
      mines_nothing alice_known

abbrev accounts_command : List Text
accounts_command = codes "scenario.py" ∷ codes "s.py" ∷ codes "--emit" ∷ codes "accounts" ∷ []

accounts_printed :
    main same_bytes run_module read_map [] accounts_command ≡ ok (printed (emit_accounts story))
unfolding main codes ◌=text◌ text_in run_words run_on load loaded text_for kind_of flag behind
    allowed_kind emit_kind emit_plain delivered_to truthy
accounts_printed = refl

map-IsPlain : IsPlain (codes "map.tsv")
map-IsPlain = (map-IsArgument.0, map-IsArgument.1, map-IsArgument.2)

no_out : behind (codes "--out") accounts_command ≡ none
unfolding behind codes ◌=text◌
no_out = refl

main-out_example :
    (f : Figures) × (main same_bytes run_module read_map []
        (accounts_command ++ out_to (codes "map.tsv"))
      ≡ ok (wrote (codes "map.tsv") (emit_accounts story) f))
main-out_example =
    main-out same_bytes run_module read_map [] accounts_command (codes "map.tsv")
      (emit_accounts story) map-IsPlain map_is_given no_out accounts_printed
