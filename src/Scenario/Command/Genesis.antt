-- ===== src/Scenario/Command/Genesis.antt =====
-- scripts/scenario.py: `--emit txs` with the accounts map that a launcher makes.
use cryptocourt.Base.{
  ◌≡◌, ◌≢◌, refl, ap, sym, ◌∙◌, Bool, true, false, ◌||◌, Option, none, some, List, [], ◌∷◌, ◌++◌,
  All, All-map, arith, inl, inr,
}
use cryptocourt.Base.Tests.{Bool-cases}
use cryptocourt.Base.Text.{Text, codes, ◌=text◌, text_in, join}
use cryptocourt.Base.Text.Laws.{=text_ne, =text_refl}
use cryptocourt.Base.Exec.{Result, ok, bind_result}
use cryptocourt.Scenario.Step.{Scenario, deployer, mined}
use cryptocourt.Scenario.Bech32.{Bytes}
use cryptocourt.Scenario.Emit.Genesis.{Addrs, Tx, call_txs, txs, emit_txs}
use cryptocourt.Scenario.Command.{
  delivered_to, printed, as_stop, load, delivered_to, kind_of, allowed_kind, emit_with, emit_mapped,
  emit_kind, text_for, run_on, run_words, main,
}
use cryptocourt.Scenario.Command.Flags.{Module, Stop, behind, flag, truthy, loaded}
use cryptocourt.Scenario.Command.Keyring.{accounts_map}
use cryptocourt.Scenario.Command.Rows.{has_key, KeyDecodes, IsRow, map_file}
use cryptocourt.Scenario.Command.Mapped.{accounts_map-keys, accounts_map-KeyDecodes}
use cryptocourt.Scenario.Command.Seeded.{AreLines, emit_txs-AreLines}
use cryptocourt.Scenario.Command.Written.{run_on-eq}

-- A word that is none of the flags that `main` reads.
abbrev pub IsArgument : Text → Type 0
IsArgument w =
    (codes "--list-ci" ≢ w)
    × (codes "--emit" ≢ w)
    × (codes "--accounts-map" ≢ w)
    × (codes "--out" ≢ w)

-- The command for the genesis file.
abbrev pub txs_command : (script path map_path : Text) → List Text
txs_command script path map_path =
    script ∷ path ∷ codes "--emit" ∷ codes "txs" ∷ codes "--accounts-map" ∷ map_path ∷ []

behind_here : (name v : Text) (ws : List Text) → behind name (name ∷ v ∷ ws) ≡ some (some v)
unfolding behind
behind_here name v ws = rw (=text_refl name)

behind_nil : (name : Text) → behind name [] ≡ none
unfolding behind
behind_nil name = refl

behind_skip :
    (name w : Text) (ws : List Text)
    → (w =text name) ≡ false
    → behind name (w ∷ ws) ≡ behind name ws
unfolding behind
behind_skip name w ws h = rw h

ne_word : (name w : Text) → name ≢ w → (w =text name) ≡ false
ne_word name w ne = =text_ne w name (λ e. ne (sym e))

flag-some :
    (name : Text) (default : Option Text) (argv : List Text) (v : Text)
    → behind name argv ≡ some (some v)
    → flag name default argv ≡ ok (some v)
unfolding flag
flag-some name default argv v h = rw (flag, h)

flag-none :
    (name : Text) (default : Option Text) (argv : List Text)
    → behind name argv ≡ none
    → flag name default argv ≡ ok default
unfolding flag
flag-none name default argv h = rw (flag, h)

module _ (script path map_path : Text) (s : IsArgument script) (p : IsArgument path)
    (m : IsArgument map_path) where
  kind_behind :
      behind (codes "--emit") (txs_command script path map_path) ≡ some (some (codes "txs"))
  kind_behind =
      behind_skip (codes "--emit") script _ (ne_word _ script s.1)
      ∙ behind_skip (codes "--emit") path _ (ne_word _ path p.1)
      ∙ behind_here (codes "--emit") (codes "txs") (codes "--accounts-map" ∷ map_path ∷ [])

  map_behind :
      behind (codes "--accounts-map") (txs_command script path map_path) ≡ some (some map_path)
  map_behind =
      behind_skip (codes "--accounts-map") script _ (ne_word _ script s.2)
      ∙ behind_skip (codes "--accounts-map") path _ (ne_word _ path p.2)
      ∙ behind_skip (codes "--accounts-map") (codes "--emit") _ (unfold codes ◌=text◌ in refl)
      ∙ behind_skip (codes "--accounts-map") (codes "txs") _ (unfold codes ◌=text◌ in refl)
      ∙ behind_here (codes "--accounts-map") map_path []

  out_behind : behind (codes "--out") (txs_command script path map_path) ≡ none
  out_behind =
      behind_skip (codes "--out") script _ (ne_word _ script s.3)
      ∙ behind_skip (codes "--out") path _ (ne_word _ path p.3)
      ∙ behind_skip (codes "--out") (codes "--emit") _ (unfold codes ◌=text◌ in refl)
      ∙ behind_skip (codes "--out") (codes "txs") _ (unfold codes ◌=text◌ in refl)
      ∙ behind_skip (codes "--out") (codes "--accounts-map") _ (unfold codes ◌=text◌ in refl)
      ∙ behind_skip (codes "--out") map_path [] (ne_word _ map_path m.3)
      ∙ behind_nil (codes "--out")

  unlisted : text_in (codes "--list-ci") (txs_command script path map_path) ≡ false
  unfolding text_in
  unlisted =
      rw (=text_ne _ script s.0, =text_ne _ path p.0, =text_ne _ map_path m.0)
        (unfold codes ◌=text◌ in refl)

  kind_of_txs :
      (is_ci : Bool) → kind_of path is_ci (txs_command script path map_path) ≡ ok (codes "txs")
  unfolding kind_of allowed_kind codes ◌=text◌
  kind_of_txs is_ci =
      ap (λ r. bind_result r (allowed_kind path is_ci))
        (flag-some (codes "--emit") (some (codes "txtar")) (txs_command script path map_path)
          (codes "txs") kind_behind)
      ∙ elim (Bool-cases is_ci) [ inl e ↦ rw e refl | inr e ↦ rw e refl ]

mapped-eq :
    (b64 : Bytes → Text) (read_file : Text → Option Text) (scn : Scenario) (map_path content : Text)
    → map_path ≢ []
    → read_file map_path ≡ some content
    → emit_with b64 read_file (codes "txs") scn (some map_path)
      ≡ as_stop (emit_txs b64 scn (accounts_map content))
unfolding emit_with truthy codes ◌=text◌
mapped-eq b64 read_file scn [] content ne h = absurd (ne refl)
mapped-eq b64 read_file scn (c ∷ map_path) content ne h = rw (emit_with, h)

module _ (b64 : Bytes → Text) (exec_module : Text → Result Stop Module)
    (read_file : Text → Option Text) (script path map_path : Text) (s : IsArgument script)
    (p : IsArgument path) (m : IsArgument map_path) where
  text_for-txs :
      (scn : Scenario) (is_ci : Bool) (content text : Text)
      → map_path ≢ []
      → read_file map_path ≡ some content
      → emit_txs b64 scn (accounts_map content) ≡ ok text
      → text_for b64 read_file path (scn, is_ci) (txs_command script path map_path) ≡ ok text
  unfolding text_for emit_kind emit_mapped text_in codes ◌=text◌
  text_for-txs scn is_ci content text ne given made =
      let argv : List Text = txs_command script path map_path in
      ap (λ r. bind_result r λ kind. emit_kind b64 read_file kind scn argv)
        (kind_of_txs script path map_path s p m is_ci)
      ∙ ap (λ r. bind_result r (emit_with b64 read_file (codes "txs") scn))
          (flag-some (codes "--accounts-map") none argv map_path
            (map_behind script path map_path s p m))
      ∙ mapped-eq b64 read_file scn map_path content ne given
      ∙ ap as_stop made

  main-run_on :
      (modules : List Text)
      → main b64 exec_module read_file modules (txs_command script path map_path)
        ≡ run_on b64 exec_module read_file path (txs_command script path map_path)
  unfolding main run_words
  main-run_on modules = rw (main, unlisted script path map_path s p m)

load-eq :
    (exec_module : Text → Result Stop Module) (path : Text) (scn : Scenario) (is_ci : Bool)
    → exec_module path ≡ ok (record { scenario = some scn; ci = is_ci })
    → load exec_module path ≡ ok (scn, is_ci)
unfolding load loaded
load-eq exec_module path scn is_ci h = rw (load, h)

delivered-none : (scn : Scenario) (text : Text) → delivered_to scn text none ≡ printed text
unfolding delivered_to truthy
delivered-none scn text = refl

own_name : (rows : Addrs) → has_key deployer rows || (deployer =text deployer) ≡ true
own_name rows = ground (arith, =text_refl deployer)

module _ (b64 : Bytes → Text) (exec_module : Text → Result Stop Module)
    (read_file : Text → Option Text) where
  -- `main --emit txs` prints the genesis file of a scenario that mines no block, where the accounts
  -- map has a row for "deployer" and one for every other caller, and the keys of its rows decode: one
  -- line for each transaction in order, its JSON with the address that the map gives the caller and
  -- the base64 text of the bytes that the caller's key decodes to, and a line break behind each.
  -- Each row is three words; the script, the module's path and the map's are no flags of `main`.
  pub main-txs :
      (modules : List Text) (script path map_path : Text) (scn : Scenario) (is_ci : Bool)
      (r : Text × (Text × Text)) (rows : Addrs)
      → IsArgument script
      → IsArgument path
      → IsArgument map_path
      → map_path ≢ []
      → exec_module path ≡ ok (record { scenario = some scn; ci = is_ci })
      → read_file map_path ≡ some (map_file (r ∷ rows))
      → All IsRow (r ∷ rows)
      → All KeyDecodes (r ∷ rows)
      → has_key (codes "deployer") (r ∷ rows) ≡ true
      → mined scn.steps ≡ 0
      → All
          (λ (t : Tx). has_key t.who (r ∷ rows) || (t.who =text deployer) ≡ true)
          (call_txs scn.steps)
      → (lines : List Text) × AreLines b64 (accounts_map (map_file (r ∷ rows))) (txs scn) lines
        × (main b64 exec_module read_file modules (txs_command script path map_path)
            ≡ ok (printed (join (codes "\n") lines ++ codes "\n")))
  main-txs modules script path map_path scn is_ci r rows s p m ne made given h k d still callers =
      let argv : List Text = txs_command script path map_path in
      let addrs : Addrs = accounts_map (map_file (r ∷ rows)) in
      let known =
        All-map
          (λ (t : Tx) (e : has_key t.who (r ∷ rows) || (t.who =text deployer) ≡ true).
            accounts_map-keys r rows h d t.who e)
          (call_txs scn.steps) callers in
      let (lines, are, e) =
        emit_txs-AreLines b64 scn addrs still (accounts_map-KeyDecodes r rows h d k) known
          (accounts_map-keys r rows h d deployer (own_name (r ∷ rows))) in
      let text : Text = join (codes "\n") lines ++ codes "\n" in
      (
        lines,
        are,
        main-run_on b64 exec_module read_file script path map_path s p m modules
            ∙ run_on-eq b64 exec_module read_file path argv (scn, is_ci) text none
                (load-eq exec_module path scn is_ci made)
                (text_for-txs b64 exec_module read_file script path map_path s p m scn is_ci _ text
                  ne given e)
                (flag-none (codes "--out") none argv (out_behind script path map_path s p m))
            ∙ ap (λ d. ok d) (delivered-none scn text),
      )
