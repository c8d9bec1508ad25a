-- ===== src/Scenario/Command/Mapped.antt =====
-- scripts/scenario.py: the accounts map of a file.
use mathlib.Core.Option.{some_inj}
use cryptocourt.Base.{
  ◌≡◌, refl, ap, sym, ◌∙◌, true, ◌||◌, some, [], ◌∷◌, ◌++◌, map, All, All-append, arith, ◌⊎◌, inl,
  inr,
}
use cryptocourt.Base.Tests.{Option-cases, Bool-cases}
use cryptocourt.Base.Text.{Text, codes, ◌=text◌}
use cryptocourt.Base.Text.Laws.{=text_sound}
use cryptocourt.Base.Text.Lines.{split-join}
use cryptocourt.Base.Exec.{is_ok}
use cryptocourt.Scenario.Step.{deployer}
use cryptocourt.Scenario.Bech32.{key_bytes}
use cryptocourt.Scenario.Emit.Genesis.{Addrs, find_key}
use cryptocourt.Scenario.Command.Keyring.{add_lines, with_deployer, accounts_map}
use cryptocourt.Scenario.Command.Rows.{
  has_key, KeyDecodes, row_text, IsRow, map_file, added_keys, add_lines-KeyDecodes, rows-Lacks,
  find_key-has_key, has_key-found, has_key-last,
}

decodes_at :
    (who : Text) (rows : Addrs) (a : Text × Text)
    → find_key who rows ≡ some a
    → All KeyDecodes rows
    → is_ok (key_bytes a.1) ≡ true
unfolding find_key
decodes_at who [] a h k = cc h
decodes_at who ((n, b) ∷ rows) a h (k, ks) = elim (Bool-cases (who =text n)) [
  | inl e ↦ ap (λ (c : Text × Text). is_ok (key_bytes c.1)) (sym (some_inj.0 (rw e at h))) ∙ k
  | inr e ↦ decodes_at who rows a (rw e at h) ks
]

-- The harness's deployer has a key, or takes that of "deployer".
deployer_cases :
    (addrs : Addrs)
    → has_key (codes "deployer") addrs ≡ true
    → ((with_deployer addrs ≡ addrs) × (has_key deployer addrs ≡ true))
      ⊎ ((a : Text × Text) × (with_deployer addrs ≡ addrs ++ (deployer, a) ∷ [])
          × (find_key (codes "deployer") addrs ≡ some a))
unfolding with_deployer codes
deployer_cases addrs h =
    let (a, f) = find_key-has_key (codes "deployer") addrs h in
    elim (Option-cases (find_key deployer addrs)) [
      | inl e ↦ inr (a, rw (with_deployer, e, f), f)
      | inr (b, e) ↦ inl (rw (with_deployer, e), has_key-found deployer addrs b e)
    ]

-- Every name of the map is kept, and the harness's deployer is one of them.
with_deployer-keys :
    (addrs : Addrs) (who : Text)
    → has_key (codes "deployer") addrs ≡ true
    → has_key who addrs || (who =text deployer) ≡ true
    → has_key who (with_deployer addrs) ≡ true
with_deployer-keys addrs who h named = elim (deployer_cases addrs h) [
  | inl (same, has) ↦ rw same (elim (Bool-cases (who =text deployer)) [
    | inl e ↦ ap (λ n. has_key n addrs) (=text_sound who deployer e) ∙ has
    | inr e ↦ ground (arith, named, e)
  ])
  | inr (a, added, f) ↦ rw added (has_key-last deployer who a addrs named)
]

with_deployer-KeyDecodes :
    (addrs : Addrs)
    → has_key (codes "deployer") addrs ≡ true
    → All KeyDecodes addrs
    → All KeyDecodes (with_deployer addrs)
with_deployer-KeyDecodes addrs h k = elim (deployer_cases addrs h) [
  | inl (same, has) ↦ rw same k
  | inr (a, added, f) ↦
      rw added (All-append KeyDecodes addrs _ k (decodes_at (codes "deployer") addrs a f k, tt))
]

accounts_map-eq :
    (r : Text × (Text × Text)) (rows : Addrs)
    → All IsRow (r ∷ rows)
    → accounts_map (map_file (r ∷ rows)) ≡ with_deployer (add_lines [] (map row_text (r ∷ rows)))
unfolding accounts_map
accounts_map-eq r rows h =
    ap (λ ls. with_deployer (add_lines [] ls))
      (split-join b'\n' (row_text r) (map row_text rows) (rows-Lacks (r ∷ rows) h))

module _ (r : Text × (Text × Text)) (rows : Addrs) (h : All IsRow (r ∷ rows))
    (d : has_key (codes "deployer") (r ∷ rows) ≡ true) where
  -- The map that is read of a file with a row for "deployer" has every name of the rows, and the
  -- harness's deployer.
  pub accounts_map-keys :
      (who : Text)
      → has_key who (r ∷ rows) || (who =text deployer) ≡ true
      → has_key who (accounts_map (map_file (r ∷ rows))) ≡ true
  accounts_map-keys who named =
      let added : Addrs = add_lines [] (map row_text (r ∷ rows)) in
      let named' : has_key who added || (who =text deployer) ≡ true =
        elim (Bool-cases (has_key who (r ∷ rows))) [
          | inl e ↦ rw (added_keys who (r ∷ rows) h e) refl
          | inr e ↦ ground (arith, e, named)
        ] in
      rw (accounts_map-eq r rows h)
        (with_deployer-keys added who (added_keys (codes "deployer") (r ∷ rows) h d) named')

  -- All its keys decode if those of the rows do.
  pub accounts_map-KeyDecodes :
      All KeyDecodes (r ∷ rows) → All KeyDecodes (accounts_map (map_file (r ∷ rows)))
  accounts_map-KeyDecodes k = rw (accounts_map-eq r rows h) (
      with_deployer-KeyDecodes (add_lines [] (map row_text (r ∷ rows)))
        (added_keys (codes "deployer") (r ∷ rows) h d) (add_lines-KeyDecodes [] (r ∷ rows) h k tt))
