-- ===== src/Base/Int.antt =====
-- Python's integers: those of ℕ, and the negative ones. `negsuc n` is -(n + 1).
use Prim.Native.Nat.{ℕ, zero, suc}
use mathlib.Core.Bool.{true, false}
use mathlib.Core.List.{[], ◌∷◌}
use cryptocourt.Base.Text.{Text}
use mathlib.Core.Path.{◌≡◌, refl, ap, ◌∙◌}
use mathlib.Core.Option.{Option, none, some}
use native.Mathlib.Omega.{arith}
use cryptocourt.Base.Lists.{All, All-map}
use cryptocourt.Base.Tests.{◌==◌, if◌then◌else◌}
use cryptocourt.Base.Text.{strip, is_space}
use cryptocourt.Base.Text.Lines.{strip-All}
use cryptocourt.Base.Decimal.{str_nat, parse_nat, is_digit, parse_nat-str_nat, str_nat-All}

pub data ℤ : Type 0 where
  pos : ℕ → ℤ
  negsuc : ℕ → ℤ

-- `str(n)`.
unfoldable pub str_int : ℤ → Text
str_int (pos n) = str_nat n
str_int (negsuc n) = b'-' ∷ str_nat (suc n)

-- The value of a text of digits, and its opposite.
abbrev as_pos : Option ℕ → Option ℤ
as_pos none = none
as_pos (some n) = some (pos n)

abbrev as_neg : Option ℕ → Option ℤ
as_neg none = none
as_neg (some zero) = some (pos zero)
as_neg (some (suc n)) = some (negsuc n)

-- A sign, and digits.
abbrev parse_signed : Text → Option ℤ
parse_signed [] = none
parse_signed (c ∷ s) =
    if c == b'-'
    then as_neg (parse_nat s)
    else if c == b'+'
    then as_pos (parse_nat s)
    else as_pos (parse_nat (c ∷ s))

-- `int(s)`, with ASCII digits; `none` is `ValueError`.
unfoldable pub parse_int : Text → Option ℤ
parse_int s = parse_signed (strip s)

-- A digit is no white space.
digit_is_no_space : (c : ℕ) → is_digit c ≡ true → is_space c ≡ false
unfolding is_space
digit_is_no_space c h = ground arith

parse_signed-digits :
    (s : Text) → All (λ c. is_digit c ≡ true) s → parse_signed s ≡ as_pos (parse_nat s)
parse_signed-digits [] h = unfold parse_nat in refl
parse_signed-digits (c ∷ s) (h, _) = ground arith

-- The print of a number is read back as that number.
pub parse_int-str_nat : (n : ℕ) → parse_int (str_nat n) ≡ some (pos n)
unfolding parse_int
parse_int-str_nat n =
    rw (strip-All (str_nat n) (All-map digit_is_no_space (str_nat n) (str_nat-All n)))
      (parse_signed-digits (str_nat n) (str_nat-All n) ∙ ap as_pos (parse_nat-str_nat n))

pub strip-str_nat : (n : ℕ) → strip (str_nat n) ≡ str_nat n
strip-str_nat n = strip-All (str_nat n) (All-map digit_is_no_space (str_nat n) (str_nat-All n))
