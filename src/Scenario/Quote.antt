-- ===== src/Scenario/Quote.antt =====
-- scripts/scenario.py: `_q_txtar`, `_q_sh` and the argument lists of the two emitters.
pub mod Pascal
use cryptocourt.Base.{
  ℕ, Bool, true, false, not, ◌&&◌, ◌||◌, List, [], ◌∷◌, ◌++◌, map, leb, ◌==◌, any, all,
  if◌then◌else◌,
}
use cryptocourt.Base.Text.{Text, codes, newline, replace, join}
use cryptocourt.Base.Exec.{Result, ok, err, bind_result, try_map}

-- How an emitter fails: `ValueError` of a token, and `SystemExit` for a scenario that a genesis file
-- cannot represent, for a caller that the accounts map lacks, and for a key that is no bech32.
pub data EmitError : Type 0 where
  line_break_in_token mines_blocks no_address bad_key : EmitError

abbrev pub quote : ℕ
quote = b'\''

abbrev pub breaks_line : ℕ → Bool
breaks_line c = c == newline || c == b'\r'

unfoldable pub q_txtar : Text → Result EmitError Text
q_txtar a =
    if any breaks_line a
    then err line_break_in_token
    else ok (quote ∷ (replace (quote ∷ []) (quote ∷ quote ∷ []) a ++ (quote ∷ [])))

-- The characters that `shlex.quote` passes unquoted: `[\w@%+=:,./-]`, with `\w` over ASCII.
unfoldable pub is_shell_safe : ℕ → Bool
is_shell_safe c =
    (leb b'a' c && leb c b'z')
    || (leb b'A' c && leb c b'Z')
    || (leb b'0' c && leb c b'9')
    || any (λ d. c == d) (codes "_@%+=:,./-")

-- `shlex.quote`.
unfoldable pub q_sh : Text → Text
unfolding is_shell_safe
q_sh [] = codes "''"
q_sh (c ∷ s) =
    if all is_shell_safe (c ∷ s)
    then c ∷ s
    else quote ∷ (replace (quote ∷ []) (codes "'\"'\"'") (c ∷ s) ++ (quote ∷ []))

unfoldable pub args_txtar : List Text → Result EmitError Text
unfolding q_txtar
args_txtar args =
    bind_result (try_map q_txtar args)
      λ tokens. ok (join (codes " ") (map (λ t. codes "-args " ++ t) tokens))

unfoldable pub args_sh : List Text → Text
unfolding q_sh
args_sh args = join (codes " ") (map (λ a. codes "-args " ++ q_sh a) args)
