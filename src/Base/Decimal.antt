-- ===== src/Base/Decimal.antt =====
-- `str` of a natural number.
use Prim.Native.Nat.{ℕ, zero, suc, ◌+◌, ◌-◌, ◌*◌, ◌/◌, ◌%◌, ◌<◌}
use mathlib.Core.Path.{◌≡◌, refl, ap, ◌∙◌}
use mathlib.Core.Logic.{◌≢◌}
use mathlib.Core.Bool.{Bool, true, ◌&&◌}
use mathlib.Core.Option.{Option, none, some}
use mathlib.Core.List.{[], ◌∷◌}
use native.Mathlib.Omega.{arith}
use cryptocourt.Base.Lists.{All}
use cryptocourt.Base.Tests.{leb, ◌==◌, ltb, if◌then◌else◌}
use cryptocourt.Base.Text.{Text}

-- The digits of `n` in front of `out`; the fuel is above the number of rounds.
digits : ℕ → ℕ → Text → Text
digits zero n out = out
digits (suc f) n out =
    let digit = b'0' + n % 10 in
    let more = digits f (n / 10) (digit ∷ out) in if ltb n 10 then digit ∷ out else more

-- `str(n)`.
unfoldable pub str_nat : ℕ → Text
unfolding digits
str_nat n = digits (suc n) n []

-- The number that decimal digits spell behind `n`.
abbrev pub value : ℕ → Text → ℕ
value n [] = n
value n (c ∷ s) = value (n * 10 + (c - b'0')) s

value-digits : (f n : ℕ) (out : Text) → n < f → value 0 (digits f n out) ≡ value n out
unfolding digits
value-digits zero n out h = elim h [ ]
value-digits (suc f) n out h = ground (arith, value-digits f (n / 10) ((b'0' + n % 10) ∷ out))

-- The print of a number spells it.
pub value-str_nat : (n : ℕ) → value 0 (str_nat n) ≡ n
unfolding str_nat
value-str_nat n = value-digits (suc n) n [] (omega arith)

-- Two numbers with the same print are equal.
pub str_nat-injective : (m n : ℕ) → str_nat m ≡ str_nat n → m ≡ n
str_nat-injective m n h = cc (value-str_nat m, value-str_nat n)

abbrev pub is_digit : ℕ → Bool
is_digit c = leb b'0' c && leb c b'9'

-- The digits of an `int` literal in front of which a digit has been read: an underscore stands
-- between two digits. `n` is the number so far.
parse_rest : ℕ → Text → Option ℕ
parse_rest n [] = some n
parse_rest n (c ∷ []) = if is_digit c then some (n * 10 + (c - b'0')) else none
parse_rest n (c ∷ d ∷ s) =
    let digit = parse_rest (n * 10 + (c - b'0')) (d ∷ s) in
    let under = parse_rest (n * 10 + (d - b'0')) s in
    if is_digit c then digit else if c == b'_' && is_digit d then under else none

unfoldable pub parse_nat : Text → Option ℕ
unfolding parse_rest
parse_nat [] = none
parse_nat (c ∷ s) = if is_digit c then parse_rest (c - b'0') s else none

digits-All :
    (f n : ℕ) (out : Text)
    → All (λ c. is_digit c ≡ true) out
    → All (λ c. is_digit c ≡ true) (digits f n out)
unfolding digits
digits-All zero n out h = h
digits-All (suc f) n out h = ground (arith, digits-All f (n / 10) ((b'0' + n % 10) ∷ out))

digits-ne-nil : (f n : ℕ) (c : ℕ) (out : Text) → digits f n (c ∷ out) ≢ []
unfolding digits
digits-ne-nil zero n c out h = cc
digits-ne-nil (suc f) n c out h = ground (arith, digits-ne-nil f (n / 10) (b'0' + n % 10) (c ∷ out))

-- The print of a number is one or more digits.
pub str_nat-All : (n : ℕ) → All (λ c. is_digit c ≡ true) (str_nat n)
unfolding str_nat
str_nat-All n = digits-All (suc n) n [] tt

pub str_nat-ne-nil : (n : ℕ) → str_nat n ≢ []
unfolding str_nat
str_nat-ne-nil n h = ground (arith, digits-ne-nil n (n / 10) (b'0' + n % 10) [])

parse_rest-All :
    (n : ℕ) (s : Text) → All (λ c. is_digit c ≡ true) s → parse_rest n s ≡ some (value n s)
unfolding parse_rest
parse_rest-All n [] h = refl
parse_rest-All n (c ∷ []) (h, _) = rw h
parse_rest-All n (c ∷ d ∷ s) (h, hs) = rw h (parse_rest-All (n * 10 + (c - b'0')) (d ∷ s) hs)

parse_nat-All :
    (s : Text) → s ≢ [] → All (λ c. is_digit c ≡ true) s → parse_nat s ≡ some (value 0 s)
unfolding parse_nat
parse_nat-All [] ne h = absurd (ne refl)
parse_nat-All (c ∷ s) ne (h, hs) =
    rw h (parse_rest-All (c - b'0') s hs ∙ ap (λ n. some (value n s)) (omega arith))

-- The print of a number is read back.
pub parse_nat-str_nat : (n : ℕ) → parse_nat (str_nat n) ≡ some n
parse_nat-str_nat n =
    rw (parse_nat-All (str_nat n) (str_nat-ne-nil n) (str_nat-All n)) (ap some (value-str_nat n))
